-- ===== src/Db/Exchange/Cached.antt =====
-- db/exchange.go: what the lookups answer while the table stays found it is.
use openrelay.Prelude.{
  ℕ, ◌≡◌, refl, ap, ◌∙◌, sym, Bool, true, false, Option, none, some, List, [], ◌∷◌, Bytes, bytes_eq,
  bytes_eq_iff, ◌==◌, ==_iff, if◌then◌else◌, All, ◌⊎◌, inl, inr,
}
use openrelay.Db.Exchange.{
  Exchange, ExchangeLookup, new_exchange_lookup, cached_network, cached_addresses, on_network,
  network_of, remember_addresses, get_exchanges_by_network, remember_network,
  get_network_by_exchange, or_zero, exchange_is_known,
}

-- A lookup of a client, with whether the database fails it.
pub data Call : Type 0 where
  exchanges_of : Bool → ℕ → Call
  is_known : Bool → Bytes → Call

pub data Answer : Type 0 where
  addresses : Option (List Bytes) → Answer
  network : ℕ → Answer

abbrev pub or_none : Option ℕ → ℕ
or_none none = 0
or_none (some n) = n

-- What a cache finds is its first entry or in the rest.
first_or_rest {ℓ} :
    {A : Type ℓ} (b : Bool) (x y : A) (rest : Option A)
    → (if b then some x else rest) ≡ some y
    → ((b ≡ true) × (x ≡ y)) ⊎ (rest ≡ some y)
first_or_rest true x y rest e = inl (refl, cc)
first_or_rest false x y rest e = inr e

module _ (table : List Exchange) where
  pub record Agrees (l : ExchangeLookup) : Type 0 where
    pub by_address :
        (a : Bytes) (n : ℕ)
        → cached_network a l.by_address_cache ≡ some n
        → network_of a table ≡ some n
    pub by_network :
        (n : ℕ) (found : List Bytes)
        → cached_addresses n l.by_network_cache ≡ some found
        → found ≡ on_network n table

  -- The answer of the table, or an error where the database fails.
  abbrev pub Right : Call → Answer → Type 0
  Right (exchanges_of fails n) (addresses o) =
      (o ≡ some (on_network n table)) ⊎ ((fails ≡ true) × (o ≡ none))
  Right (is_known fails a) (network n) =
      (n ≡ or_none (network_of a table)) ⊎ ((fails ≡ true) × (n ≡ 0))
  Right _ _ = ⊥

  new-Agrees : Agrees new_exchange_lookup
  unfolding cached_network cached_addresses
  new-Agrees = record { by_address = λ a n e. cc; by_network = λ n found e. cc }

  remembered_network :
      (l : ExchangeLookup) (a : Bytes) (n : ℕ)
      → Agrees l
      → network_of a table ≡ some n
      → Agrees (record l { by_address_cache = (a, n) ∷ l.by_address_cache })
  unfolding cached_network
  remembered_network l a n h e = record {
    by_address = λ b m q.
        elim (first_or_rest (bytes_eq a b) n m (cached_network b l.by_address_cache) q) [
          | inl (same, value) ↦
              ap (λ x. network_of x table) (sym ((bytes_eq_iff a b).0 same)) ∙ e ∙ ap some value
          | inr older ↦ h.by_address b m older
        ];
    by_network = h.by_network;
  }

  remembered_addresses :
      (l : ExchangeLookup) (n : ℕ)
      → Agrees l
      → Agrees (record l { by_network_cache = (n, on_network n table) ∷ l.by_network_cache })
  unfolding cached_addresses
  remembered_addresses l n h = record {
    by_address = h.by_address;
    by_network = λ m found q.
        elim (first_or_rest (n == m) (on_network n table) found
          (cached_addresses m l.by_network_cache) q) [
            | inl (same, value) ↦ sym value ∙ ap (λ x. on_network x table) ((==_iff n m).0 same)
            | inr older ↦ h.by_network m found older
          ];
  }

  remember_addresses-Right :
      (fails : Bool) (n : ℕ) (l : ExchangeLookup)
      → Agrees l
      → Right (exchanges_of fails n) (addresses (remember_addresses table fails n l).0)
        × Agrees (remember_addresses table fails n l).1
  unfolding remember_addresses
  remember_addresses-Right true n l h = (inr (refl, refl), h)
  remember_addresses-Right false n l h = (inl refl, remembered_addresses l n h)

  get_exchanges-Right :
      (fails : Bool) (n : ℕ) (l : ExchangeLookup)
      → Agrees l
      → Right (exchanges_of fails n) (addresses (get_exchanges_by_network table fails n l).0)
        × Agrees (get_exchanges_by_network table fails n l).1
  unfolding get_exchanges_by_network
  get_exchanges-Right fails n l h = by_cache (cached_addresses n l.by_network_cache) refl
    where
      after : Option (List Bytes) → Option (List Bytes) × ExchangeLookup
      after o = elim o [ some found ↦ (some found, l) | none ↦ remember_addresses table fails n l ]

      by_cache :
          (o : Option (List Bytes))
          → cached_addresses n l.by_network_cache ≡ o
          → Right (exchanges_of fails n) (addresses (after o).0) × Agrees (after o).1
      by_cache none e = remember_addresses-Right fails n l h
      by_cache (some found) e = (inl (ap some (h.by_network n found e)), h)

  remember_network-Right :
      (fails : Bool) (a : Bytes) (l : ExchangeLookup) (o : Option ℕ)
      → network_of a table ≡ o
      → Agrees l
      → Right (is_known fails a) (network (or_zero table (remember_network table a l o)).0)
        × Agrees (or_zero table (remember_network table a l o)).1
  unfolding remember_network
  remember_network-Right fails a l none e h = (inl (sym (ap or_none e)), h)
  remember_network-Right fails a l (some n) e h =
      (inl (sym (ap or_none e)), remembered_network l a n h e)

  exchange_is_known-Right :
      (fails : Bool) (a : Bytes) (l : ExchangeLookup)
      → Agrees l
      → Right (is_known fails a) (network (exchange_is_known table fails a l).0)
        × Agrees (exchange_is_known table fails a l).1
  unfolding exchange_is_known get_network_by_exchange remember_network
  exchange_is_known-Right fails a l h = by_cache fails (cached_network a l.by_address_cache) refl
    where
      after : Bool → Option ℕ → Option ℕ × ExchangeLookup
      after b o = elim o [
        | some n ↦ (some n, l)
        | none ↦ remember_network table a l (if b then none else network_of a table)
      ]

      by_cache :
          (b : Bool) (o : Option ℕ)
          → cached_network a l.by_address_cache ≡ o
          → Right (is_known b a) (network (or_zero table (after b o)).0)
            × Agrees (or_zero table (after b o)).1
      by_cache true none e = (inr (refl, refl), h)
      by_cache false none e = remember_network-Right false a l (network_of a table) refl h
      by_cache b (some n) e = (inl (sym (ap or_none (h.by_address a n e))), h)

  -- The calls of the clients, one after the other, each with its answer.
  abbrev pub run : List Call → ExchangeLookup → List (Call × Answer)
  run [] l = []
  run (exchanges_of fails n ∷ cs) l =
      let r = get_exchanges_by_network table fails n l in
      (exchanges_of fails n, addresses r.0) ∷ run cs r.1
  run (is_known fails a ∷ cs) l =
      let r = exchange_is_known table fails a l in (is_known fails a, network r.0) ∷ run cs r.1

  run_from : (cs : List Call) (l : ExchangeLookup) → Agrees l → All (λ x. Right x.0 x.1) (run cs l)
  run_from [] l h = tt
  run_from (exchanges_of fails n ∷ cs) l h =
      let (right, after) = get_exchanges-Right fails n l h in (right, run_from cs _ after)
  run_from (is_known fails a ∷ cs) l h =
      let (right, after) = exchange_is_known-Right fails a l h in (right, run_from cs _ after)

  -- However the calls of GetExchangesByNetwork and ExchangeIsKnown of a new lookup follow each other,
  -- every one answers what the table has, 0 for an exchange that it does not have, or, where the
  -- database fails the call, an error or 0. The table does not change meanwhile.
  pub run-Right : (cs : List Call) → All (λ x. Right x.0 x.1) (run cs new_exchange_lookup)
  run-Right cs = run_from cs new_exchange_lookup new-Agrees
