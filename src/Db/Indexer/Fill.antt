-- ===== src/Db/Indexer/Fill.antt =====
-- db/indexer.go: RecordFill.
use openrelay.Prelude.{
  ℕ, ◌≡◌, ◌≢◌, ◌<◌, ◌+◌, ◌^◌, refl, sym, ap, ◌∙◌, Bool, true, false, ◌||◌, Bytes, IsBytes, big,
  arith, bytes_eq, bytes_eq_iff, List, some, leb, if◌then◌else◌, ℤ, pos, ◌+ℤ◌, ok, copy, copy_full,
  to_bytes, length-to_bytes, big-to_bytes, subst, ◌==◌, Bool-cases, inl, inr,
}
use openrelay.Types.Order
use openrelay.Types.Text.{hex_decode, trim_prefix, hex_prefix, set_string}
use openrelay.Types.Order.Json.{U256Law}
use openrelay.Types.Signature.{Crypto, verify}
use openrelay.Db.Order.{
  DbOrder, find_row, save, populate, upsert, populated, default_status, status_open, status_filled,
  status_cancelled, threshold, update_row,
}
use openrelay.Db.Order.Populate.{populated_status_lem}
use openrelay.Db.Order.Rows.{written, find_row-order_hash}
use openrelay.Db.Order.Save.{save_lem, default_status-order_hash}
use openrelay.Db.Indexer.{FillRecord, fill, fill_found, record_fill, amount_text}

not_zero : (n : ℕ) → n ≢ 0 → (n == 0) ≡ false
not_zero n h = ground arith

default_status_same :
    (d : DbOrder) (status : ℕ)
    → (default_status status d).status ≡ (if d.status == status_open then status else d.status)
default_status_same d status = elim (Bool-cases (d.status == status_open)) [
  | inl e ↦ rw e refl
  | inr e ↦ rw e refl
]

sum : (a b : ℕ) → pos a +ℤ pos b ≡ pos (a + b)
unfolding ◌+ℤ◌
sum a b = ground arith

status_choice :
    (filled cancelled : Bool) (status : ℕ)
    → (if (if filled then status_filled else if cancelled then status_cancelled else status)
          == status_open
        then status
        else if filled
        then status_filled
        else if cancelled
        then status_cancelled
        else status)
      ≡ (if filled then status_filled else if cancelled then status_cancelled else status)
status_choice filled cancelled status = ground arith

default_status-order : (d : DbOrder) (status : ℕ) → (default_status status d).order ≡ d.order
default_status-order d status = elim (Bool-cases (d.status == status_open)) [
  | inl e ↦ rw e refl
  | inr e ↦ rw e refl
]

update_row_fields :
    (d row : DbOrder)
    → bytes_eq row.order_hash d.order_hash ≡ true
    → ((update_row d row).status ≡ d.status)
      × ((update_row d row).order.taker_asset_amount_filled ≡ d.order.taker_asset_amount_filled)
update_row_fields d row e = rw e (refl, refl)

module _ (c : Crypto) (u256 : ℤ → Bytes) (quo : ℕ → ℕ → ℕ) (law : U256Law u256) where
  -- The hash of an order is not touched by a fill.
  hash-fill :
      (amount : ℤ) (cancel : Bool) (row : DbOrder)
      → Order.hash c.keccak256 (fill u256 amount cancel row).order
        ≡ Order.hash c.keccak256 row.order
  unfolding Order.hash fill Order.domain_bytes Order.order_bytes
  hash-fill amount cancel row = refl

  fill-amount :
      (n : ℕ) (cancel : Bool) (row : DbOrder)
      → IsBytes 32 row.order.taker_asset_amount_filled
      → big row.order.taker_asset_amount_filled + n < 256 ^ 32
      → big (fill u256 (pos n) cancel row).order.taker_asset_amount_filled
        ≡ big row.order.taker_asset_amount_filled + n
  unfolding fill
  fill-amount n cancel row size bound =
      let old = row.order.taker_asset_amount_filled in
      let m = big old + n in
      ap (λ z. big (copy old (u256 z))) (sum (big old) n)
      ∙ ap (λ b. big (copy old b)) (law m bound)
      ∙ ap big (copy_full old (to_bytes 32 m) (size.0 ∙ sym (length-to_bytes 32 m)))
      ∙ big-to_bytes 32 m bound

  -- The order in the row after a fill of n, and its status.
  pub record Filled (n : ℕ) (cancel : Bool) (row row' : DbOrder) : Type 0 where
    pub amount :
        big row'.order.taker_asset_amount_filled ≡ big row.order.taker_asset_amount_filled + n
    pub closes : row'.status ≡ (
        if leb
          (threshold row.order.taker_asset_amount)
          (big row.order.taker_asset_amount_filled + n)
        then status_filled
        else if row.order.cancelled || cancel
        then status_cancelled
        else row.status)

  status_after :
      (n : ℕ) (cancel : Bool) (row : DbOrder)
      → IsBytes 32 row.order.taker_asset_amount_filled
      → big row.order.taker_asset_amount_filled + n < 256 ^ 32
      → (default_status row.status (populated c u256 quo (fill u256 (pos n) cancel row))).status ≡ (
          if leb
            (threshold row.order.taker_asset_amount)
            (big row.order.taker_asset_amount_filled + n)
          then status_filled
          else if row.order.cancelled || cancel
          then status_cancelled
          else row.status)
  unfolding populated fill
  status_after n cancel row size bound =
      default_status_same (populated c u256 quo (fill u256 (pos n) cancel row)) row.status
      ∙ ap (λ s. if s == status_open then row.status else s)
          (populated_status_lem (fill u256 (pos n) cancel row).order
            (fill u256 (pos n) cancel row).status)
      ∙ status_choice
          (leb (threshold row.order.taker_asset_amount)
            (big (fill u256 (pos n) cancel row).order.taker_asset_amount_filled))
          (row.order.cancelled || cancel) row.status
      ∙ ap
          (λ m.
            if leb (threshold row.order.taker_asset_amount) m
            then status_filled
            else if row.order.cancelled || cancel
            then status_cancelled
            else row.status)
          (fill-amount n cancel row size bound)

  record_fill-save :
      (r : FillRecord) (h : Bytes) (amount : ℤ) (table : List DbOrder) (row : DbOrder)
      → hex_decode (trim_prefix r.order_hash hex_prefix) ≡ some h
      → set_string (amount_text r.filled_taker_asset_amount) ≡ some amount
      → find_row h table ≡ some row
      → record_fill c u256 quo r table
        ≡ save c u256 quo (fill u256 amount r.cancel row) row.status table
  unfolding record_fill
  record_fill-save r h amount table row hash parsed found =
      rw (hash, parsed) (ap (fill_found c u256 quo table amount r.cancel) found)

  -- RecordFill of an order that the table has, signed by its maker and of a taker amount that is not 0,
  -- succeeds.
  pub record_fill-succeeds :
      (r : FillRecord) (h : Bytes) (amount : ℤ) (table : List DbOrder) (row : DbOrder)
      → hex_decode (trim_prefix r.order_hash hex_prefix) ≡ some h
      → set_string (amount_text r.filled_taker_asset_amount) ≡ some amount
      → find_row h table ≡ some row
      → row.order_hash ≡ Order.hash c.keccak256 row.order
      → verify c row.order.signature row.order.maker row.order_hash ≡ ok true
      → big row.order.taker_asset_amount ≢ 0
      → (after : List DbOrder) × (record_fill c u256 quo r table ≡ ok after)
  unfolding save populate fill
  record_fill-succeeds r h amount table row hash parsed found key signed some_amount =
      let d = fill u256 amount r.cancel row in
      let d_signed : verify c d.order.signature d.order.maker (Order.hash c.keccak256 d.order)
          ≡ ok true =
        ap (verify c row.order.signature row.order.maker) (hash-fill amount r.cancel row ∙ sym key)
        ∙ signed in
      let positive : (big d.order.taker_asset_amount == 0) ≡ false = not_zero _ some_amount in
      (
        upsert (default_status row.status (populated c u256 quo d)) table,
        record_fill-save r h amount table row hash parsed found ∙ rw (d_signed, positive) refl,
      )

  row_Filled :
      (n : ℕ) (cancel : Bool) (row : DbOrder)
      → IsBytes 32 row.order.taker_asset_amount_filled
      → big row.order.taker_asset_amount_filled + n < 256 ^ 32
      → row.order_hash ≡ Order.hash c.keccak256 row.order
      → Filled n cancel row (
          update_row
            (default_status row.status (populated c u256 quo (fill u256 (pos n) cancel row)))
            row)
  unfolding populated
  row_Filled n cancel row size bound key =
      let p = default_status row.status (populated c u256 quo (fill u256 (pos n) cancel row)) in
      let fields = update_row_fields p row (
        (bytes_eq_iff row.order_hash p.order_hash).1 (
          sym (
            default_status-order_hash row.status
              (populated c u256 quo (fill u256 (pos n) cancel row))
            ∙ hash-fill (pos n) cancel row
            ∙ sym key))) in
      record {
        amount =
            ap big fields.1
            ∙ ap (λ o. big o.taker_asset_amount_filled)
                (default_status-order (populated c u256 quo (fill u256 (pos n) cancel row))
                  row.status)
            ∙ fill-amount n cancel row size bound;
        closes = fields.0 ∙ status_after n cancel row size bound;
      }

  -- RecordFill of a hash in hex and a decimal amount, for an order that the table has under its own
  -- hash. If it succeeds, then the order's filled amount has grown by the amount, while that fits in 256
  -- bits; its status is filled if the threshold is reached, else cancelled if it or the record is marked
  -- so, else what it was, so that a fill reopens no order; and what is found under another hash stays.
  pub record_fill_lem :
      (r : FillRecord) (h : Bytes) (n : ℕ) (table after : List DbOrder) (row : DbOrder)
      → hex_decode (trim_prefix r.order_hash hex_prefix) ≡ some h
      → set_string (amount_text r.filled_taker_asset_amount) ≡ some (pos n)
      → find_row h table ≡ some row
      → row.order_hash ≡ Order.hash c.keccak256 row.order
      → IsBytes 32 row.order.taker_asset_amount_filled
      → big row.order.taker_asset_amount_filled + n < 256 ^ 32
      → record_fill c u256 quo r table ≡ ok after
      → (row' : DbOrder) × (find_row h after ≡ some row')
        × Filled n r.cancel row row'
        × ((k : Bytes) → bytes_eq h k ≡ false → find_row k after ≡ find_row k table)
  record_fill_lem r h n table after row hash parsed found key size bound e =
      let d = fill u256 (pos n) r.cancel row in
      let saved =
        save_lem c u256 quo d row.status table after
          (sym (record_fill-save r h (pos n) table row hash parsed found) ∙ e) in
      let same : Order.hash c.keccak256 d.order ≡ h =
        hash-fill (pos n) r.cancel row ∙ sym key ∙ find_row-order_hash h table row found in
      let p = default_status row.status (populated c u256 quo d) in
      (
        update_row p row,
        subst (λ k. find_row k after ≡ some (written p (find_row k table))) same saved.under_hash
            ∙ ap (λ o. some (written p o)) found,
        row_Filled n r.cancel row size bound key,
        λ k ne. saved.elsewhere k (ap (λ x. bytes_eq x k) same ∙ ne),
      )
