-- ===== src/Search/Query/Meets.antt =====
-- search/search.go: the rows that the query of a request selects.
use openrelay.Prelude.{
  ℕ, zero, suc, ◌≡◌, ◌≢◌, ◌↔◌, ◌⊎◌, refl, sym, ap, ◌∙◌, Bool, true, false, ◌&&◌, ◌||◌, List, [],
  ◌∷◌, ◌++◌, Option, none, some, Bytes, bytes_eq, bytes_eq_iff, bytes_lt, codes, All, get_elem?,
  subst, inl, inr, true-false, ok, panic-ok, ok-injective,
}
use openrelay.Types.Text.{Str, set_string}
use openrelay.Db.Order.{DbOrder, status_open}
use openrelay.Ingest.{ValidationError}
use openrelay.Search.Query.{
  Values, get, Query, where_, meets, Library, Clause, unset, condition, malformed, clause_of,
  if_set, hex_bytes, hex_to_bytes, Column, is, is_one, escape, to_uint256, get_exp_time,
  apply_clause, apply_all, with_fee, starts_with_filter,
}
use Prim.Native.String.{String}

-- What a clause asks of a row; a malformed one asks nothing, and adds an error instead.
abbrev pub Holds : Clause → DbOrder → Type 0
Holds unset row = Unit
Holds (condition c) row = c row ≡ true
Holds malformed row = Unit

-- A field that is set, and can be parsed as `b`, asks for P of `b`.
abbrev pub Asks : Values → String → (Str → Option Bytes) → (Bytes → Type 0) → Type 0
unfolding get
Asks vs field parse P =
    (b : Bytes) → get vs (codes field) ≢ [] → parse (get vs (codes field)) ≡ some b → P b

and_iff : (a b : Bool) → ((a && b) ≡ true) ↔ ((a ≡ true) × (b ≡ true))
and_iff true b = (λ e. (refl, e), λ h. h.1)
and_iff false b = (λ e. absurd (true-false (sym e)), λ h. h.0)

or_iff : (a b : Bool) → ((a || b) ≡ true) ↔ ((a ≡ true) ⊎ (b ≡ true))
or_iff true b = (λ e. inl refl, λ h. refl)
or_iff false b = (λ e. inr e, λ h. elim h [ inl e ↦ absurd (true-false (sym e)) | inr e ↦ e ])

clause_Holds :
    (o : Option Bytes) (test : Bytes → DbOrder → Bool) (row : DbOrder)
    → Holds (clause_of o test) row ↔ ((b : Bytes) → o ≡ some b → test b row ≡ true)
clause_Holds none test row = (λ h b e. absurd (cc), λ h. tt)
clause_Holds (some x) test row =
    (λ h b e. ap (λ (y : Bytes). test y row) (sym (cc)) ∙ h, λ h. h x refl)

set_Holds :
    (s : Str) (parse : Str → Option Bytes) (test : Bytes → DbOrder → Bool) (row : DbOrder)
    → Holds (if_set s parse test) row
      ↔ ((b : Bytes) → s ≢ [] → parse s ≡ some b → test b row ≡ true)
set_Holds [] parse test row = (λ h b ne e. absurd (ne refl), λ h. tt)
set_Holds (x ∷ xs) parse test row =
    let r = clause_Holds (parse (x ∷ xs)) test row in
    (λ h b ne e. r.0 h b e, λ h. r.1 (λ b e. h b (λ p. absurd (cc)) e))

-- A filter on one column, and on two of which one is to fit.
pub is_Holds :
    (vs : Values) (field : String) (parse : Str → Option Bytes) (column : Column) (row : DbOrder)
    → Holds (if_set (get vs (codes field)) parse (is column)) row
      ↔ Asks vs field parse (λ b. column row ≡ b)
unfolding Asks
is_Holds vs field parse column row =
    let r = set_Holds (get vs (codes field)) parse (is column) row in
    (
      λ h b ne e. (bytes_eq_iff (column row) b).0 (r.0 h b ne e),
      λ h. r.1 (λ b ne e. (bytes_eq_iff (column row) b).1 (h b ne e)),
    )

pub one_Holds :
    (vs : Values) (field : String) (parse : Str → Option Bytes) (c d : Column) (row : DbOrder)
    → Holds (if_set (get vs (codes field)) parse (is_one c d)) row
      ↔ Asks vs field parse (λ b. (c row ≡ b) ⊎ (d row ≡ b))
unfolding Asks
one_Holds vs field parse c d row =
    let r = set_Holds (get vs (codes field)) parse (is_one c d) row in
    (
      λ h b ne e. elim ((or_iff (bytes_eq (c row) b) (bytes_eq (d row) b)).0 (r.0 h b ne e)) [
        | inl x ↦ inl ((bytes_eq_iff (c row) b).0 x)
        | inr x ↦ inr ((bytes_eq_iff (d row) b).0 x)
      ],
      λ h. r.1 (λ b ne e. (or_iff (bytes_eq (c row) b) (bytes_eq (d row) b)).1 (elim (h b ne e) [
        | inl x ↦ inl ((bytes_eq_iff (c row) b).1 x)
        | inr x ↦ inr ((bytes_eq_iff (d row) b).1 x)
      ])),
    )

pub where_iff :
    (q : Query) (c : DbOrder → Bool) (row : DbOrder)
    → (meets (where_ q c) row ≡ true) ↔ ((c row ≡ true) × (meets q row ≡ true))
unfolding meets
where_iff q c row = and_iff (c row) (meets q row)

pub All-at :
    {A : Type 0} (P : A → Type 0) (xs : List A) (i : ℕ) (x : A)
    → All P xs
    → get_elem? xs i ≡ some x
    → P x
All-at P [] i x h e = absurd (cc)
All-at P (y ∷ ys) zero x h e = subst P (cc) h.0
All-at P (y ∷ ys) (suc i) x h e = All-at P ys i x h.1 e

module _ (lib : Library) where
  apply_clause_iff :
      (c : Clause) (e : ValidationError) (s : Query × List ValidationError) (row : DbOrder)
      → (meets (apply_clause lib c e s).0 row ≡ true) ↔ ((meets s.0 row ≡ true) × Holds c row)
  apply_clause_iff unset e (q, errs) row = (λ h. (h, tt), λ h. h.0)
  apply_clause_iff (condition c) e (q, errs) row =
      let r = where_iff q c row in (λ h. ((r.0 h).1, (r.0 h).0), λ h. r.1 (h.1, h.0))
  apply_clause_iff malformed e (q, errs) row = (λ h. (h, tt), λ h. h.0)

  pub apply_all_iff :
      (cs : List (Clause × ValidationError)) (s : Query × List ValidationError) (row : DbOrder)
      → (meets (apply_all lib cs s).0 row ≡ true)
        ↔ ((meets s.0 row ≡ true) × All (λ p. Holds p.0 row) cs)
  unfolding apply_all
  apply_all_iff [] s row = (λ h. (h, tt), λ h. h.0)
  apply_all_iff ((c, e) ∷ rest) s row =
      let r = apply_all_iff rest (apply_clause lib c e s) row in
      let t = apply_clause_iff c e s row in
      (λ h. ((t.0 (r.0 h).0).0, ((t.0 (r.0 h).0).1, (r.0 h).1)), λ h. r.1 (t.1 (h.0, h.1.0), h.1.1))

  -- What a request asks of a row.
  pub record Wanted (vs : Values) (row : DbOrder) : Type 0 where
    pub open_order : row.status ≡ status_open
    pub unexpired : bytes_lt (get_exp_time lib vs) row.order.expiration_timestamp_in_sec ≡ true
    pub exchange :
        Asks vs "exchangeContractAddress" hex_to_bytes (λ b. row.order.exchange_address ≡ b)
    pub maker_token :
        Asks vs "makerAssetAddress" hex_to_bytes (λ b. row.order.maker_asset_address ≡ b)
    pub taker_token :
        Asks vs "takerAssetAddress" hex_to_bytes (λ b. row.order.taker_asset_address ≡ b)
    pub maker_asset : Asks vs "makerAssetData" hex_bytes (λ b. row.order.maker_asset_data ≡ b)
    pub taker_asset : Asks vs "takerAssetData" hex_bytes (λ b. row.order.taker_asset_data ≡ b)
    pub maker : Asks vs "makerAddress" hex_to_bytes (λ b. row.order.maker ≡ b)
    pub taker : Asks vs "takerAddress" hex_to_bytes (λ b. row.order.taker ≡ b)
    pub fee_recipient : Asks vs "feeRecipient" hex_to_bytes (λ b. row.order.fee_recipient ≡ b)
    pub maker_proxy :
        Asks vs "makerAssetProxyId" hex_bytes
          (λ b. lib.like row.order.maker_asset_data (escape b ++ (b'%' ∷ [])) ≡ true)
    pub taker_proxy :
        Asks vs "takerAssetProxyId" hex_bytes
          (λ b. lib.like row.order.taker_asset_data (escape b ++ (b'%' ∷ [])) ≡ true)
    pub token :
        Asks vs "assetAddress" hex_to_bytes
          (λ b. (row.order.maker_asset_address ≡ b) ⊎ (row.order.taker_asset_address ≡ b))
    pub asset :
        Asks vs "assetData" hex_bytes
          (λ b. (row.order.maker_asset_data ≡ b) ⊎ (row.order.taker_asset_data ≡ b))
    pub trader :
        Asks vs "traderAddress" hex_to_bytes (λ b. (row.order.maker ≡ b) ⊎ (row.order.taker ≡ b))
    pub pool : Asks vs "_poolId" hex_bytes (λ b. row.order.pool_id ≡ b)
    pub pool_name : Asks vs "_poolName" (λ s. some (lib.keccak256 s)) (λ b. row.order.pool_id ≡ b)
    pub taker_fee :
        Asks vs "_takerFee" (λ s. to_uint256 lib (set_string s)) (λ b. row.order.taker_fee ≡ b)

  pub fee_iff :
      (c : Clause) (expires : DbOrder → Bool) (s r : Query × List ValidationError) (row : DbOrder)
      → with_fee lib c expires s ≡ ok r
      → (meets r.0 row ≡ true) ↔ ((meets s.0 row ≡ true) × ((expires row ≡ true) × Holds c row))
  fee_iff unset expires (q, errs) r row e =
      let same = ok-injective (where_ q expires, errs) r e in
      let w = where_iff q expires row in
      (
        λ h.
            let v = w.0 (ap (λ (x : Query × List ValidationError). meets x.0 row) same ∙ h) in
            (v.1, (v.0, tt)),
        λ h. ap (λ (x : Query × List ValidationError). meets x.0 row) (sym same) ∙ w.1 (h.1.0, h.0),
      )
  fee_iff (condition c) expires (q, errs) r row e =
      let same = ok-injective (where_ (where_ q c) expires, errs) r e in
      let w = where_iff (where_ q c) expires row in
      let w' = where_iff q c row in
      (
        λ h.
            let v = w.0 (ap (λ (x : Query × List ValidationError). meets x.0 row) same ∙ h) in
            ((w'.0 v.1).1, (v.0, (w'.0 v.1).0)),
        λ h.
            ap (λ (x : Query × List ValidationError). meets x.0 row) (sym same)
            ∙ w.1 (h.1.0, w'.1 (h.1.1, h.0)),
      )
  fee_iff malformed expires s r row e = absurd (panic-ok r e)

  pub like_Holds :
      (vs : Values) (field : String) (column : Column) (row : DbOrder)
      → Holds (starts_with_filter lib vs field column) row
        ↔ Asks vs field hex_bytes (λ b. lib.like (column row) (escape b ++ (b'%' ∷ [])) ≡ true)
  unfolding Asks starts_with_filter
  like_Holds vs field column row =
      set_Holds (get vs (codes field)) hex_bytes
        (λ b r. lib.like (column r) (escape b ++ (b'%' ∷ []))) row
