-- ===== src/Db/Order/Save.antt =====
-- db/order.go: what Save does to the table of orders.
use openrelay.Prelude.{
  ℕ, subst, ◌≡◌, ◌≢◌, refl, sym, ap, ◌∙◌, Bool, true, false, Bytes, bytes_eq, List, some,
  true-false, panic-ok, err-ok, err, panic, bind-ok, ◌>>=◌, ==_iff, ok-injective, big, ◌==◌,
  Bool-cases, inl, inr, ℤ, ok, if◌then◌else◌,
}
use openrelay.Types.Order
use openrelay.Types.Signature.{Crypto, verify}
use openrelay.Db.Order.{
  DbOrder, find_row, upsert, save, populate, populated, default_status, status_open,
}
use openrelay.Db.Order.Rows.{written, upsert-find_row_self, upsert-find_row_ne}

pub default_status-order_hash :
    (status : ℕ) (d : DbOrder) → (default_status status d).order_hash ≡ d.order_hash
default_status-order_hash status d = elim (Bool-cases (d.status == status_open)) [
  | inl e ↦ rw e refl
  | inr e ↦ rw e refl
]

module _ (c : Crypto) (u256 : ℤ → Bytes) (quo : ℕ → ℕ → ℕ) where
  -- What it takes to save an order, and what the table holds afterwards.
  pub record Saved (d : DbOrder) (status : ℕ) (table after : List DbOrder) : Type 0 where
    pub signed : verify c d.order.signature d.order.maker (Order.hash c.keccak256 d.order) ≡ ok true
    pub divides : big d.order.taker_asset_amount ≢ 0
    pub under_hash :
        find_row (Order.hash c.keccak256 d.order) after
        ≡ some (
            written
              (default_status status (populated c u256 quo d))
              (find_row (Order.hash c.keccak256 d.order) table))
    pub elsewhere :
        (h : Bytes)
        → bytes_eq (Order.hash c.keccak256 d.order) h ≡ false
        → find_row h after ≡ find_row h table

  populate-zero :
      (d : DbOrder) → (big d.order.taker_asset_amount == 0) ≡ true → populate c u256 quo d ≡ panic
  unfolding populate
  populate-zero d z = rw z refl

  populate-positive :
      (d : DbOrder)
      → (big d.order.taker_asset_amount == 0) ≡ false
      → populate c u256 quo d ≡ ok (populated c u256 quo d)
  unfolding populate
  populate-positive d z = rw z refl

  populate_iff :
      (d p : DbOrder)
      → populate c u256 quo d ≡ ok p
      → (big d.order.taker_asset_amount ≢ 0) × (p ≡ populated c u256 quo d)
  unfolding populate
  populate_iff d p e = elim (Bool-cases (big d.order.taker_asset_amount == 0)) [
    | inl z ↦ absurd (panic-ok p (sym (populate-zero d z) ∙ e))
    | inr n ↦ (
      λ z. true-false (sym ((==_iff (big d.order.taker_asset_amount) 0).1 z) ∙ n),
      sym (ok-injective (populated c u256 quo d) p (sym (populate-positive d n) ∙ e)),
    )
  ]

  upsert-Saved :
      (d : DbOrder) (status : ℕ) (table after : List DbOrder)
      → verify c d.order.signature d.order.maker (Order.hash c.keccak256 d.order) ≡ ok true
      → big d.order.taker_asset_amount ≢ 0
      → after ≡ upsert (default_status status (populated c u256 quo d)) table
      → Saved d status table after
  unfolding populated
  upsert-Saved d status table after v n e =
      let row = default_status status (populated c u256 quo d) in
      let hash = default_status-order_hash status (populated c u256 quo d) in
      record {
        signed = v;
        divides = n;
        under_hash =
            subst (λ h. find_row h after ≡ some (written row (find_row h table))) hash
              (ap (find_row row.order_hash) e ∙ upsert-find_row_self row table);
        elsewhere = λ h ne.
            ap (find_row h) e ∙ upsert-find_row_ne h row table (ap (λ x. bytes_eq x h) hash ∙ ne);
      }

  signed-Saved :
      (d : DbOrder) (status : ℕ) (table after : List DbOrder) (signed : Bool)
      → verify c d.order.signature d.order.maker (Order.hash c.keccak256 d.order) ≡ ok signed
      → ((if signed then populate c u256 quo d else err "Failed to verify signature")
          >>= (λ p. ok (upsert (default_status status p) table)))
        ≡ ok after
      → Saved d status table after
  signed-Saved d status table after false v e = absurd (err-ok "Failed to verify signature" after e)
  signed-Saved d status table after true v e =
      let (p, rest) =
        bind-ok (populate c u256 quo d) (λ p. ok (upsert (default_status status p) table)) after
          e in
      let (n, same) = populate_iff d p rest.0 in
      upsert-Saved d status table after v n (
        sym (ok-injective (upsert (default_status status p) table) after rest.1)
        ∙ ap (λ q. upsert (default_status status q) table) same)

  -- A Save that succeeds has verified the maker's signature of the order's hash, and leaves under that
  -- hash the populated row, or the row found there with its columns updated; what is found under any
  -- other hash stays.
  pub save_lem :
      (d : DbOrder) (status : ℕ) (table after : List DbOrder)
      → save c u256 quo d status table ≡ ok after
      → Saved d status table after
  unfolding save
  save_lem d status table after e =
      let (signed, rest) =
        bind-ok (verify c d.order.signature d.order.maker (Order.hash c.keccak256 d.order))
          (λ signed.
            (if signed then populate c u256 quo d else err "Failed to verify signature")
            >>= (λ p. ok (upsert (default_status status p) table)))
          after e in
      signed-Saved d status table after signed rest.0 rest.1
