-- ===== src/Db/Order/Populate.antt =====
-- db/order.go: what Populate computes.
use openrelay.Prelude.{
  ℕ, ◌*◌, ◌/◌, ◌-◌, ◌≤◌, ◌<◌, ◌≡◌, sym, ap, Bytes, leb, if◌then◌else◌, big, ◌^◌, to_bytes, IsBytes,
  big-to_bytes, length-to_bytes, big-lt, copy_full, ℤ, pos, ◌-ℤ◌, arith, zeros,
}
use openrelay.Types.Order
use openrelay.Types.Order.Json.{U256Law}
use openrelay.Db.Order.{
  threshold, status_filled, status_cancelled, div_ℤ, mul_ℤ, populated_status, share_left,
}

-- The threshold is between 98 and 100 percent of the amount, and positive if the amount is.
pub threshold_bounds :
    (amount : Bytes)
    → (threshold amount ≤ big amount)
      × (big amount * 98 ≤ threshold amount * 100)
      × (0 < big amount → 0 < threshold amount)
unfolding threshold
threshold_bounds amount = ground arith

-- The status by the numbers: filled once the threshold is reached, else cancelled if the order is
-- marked so, else as before.
pub populated_status_lem :
    (o : Order.Order) (status : ℕ)
    → populated_status o status ≡ (
        if leb (threshold o.taker_asset_amount) (big o.taker_asset_amount_filled)
        then status_filled
        else if o.cancelled
        then status_cancelled
        else status)
unfolding populated_status ◌-ℤ◌
populated_status_lem o status = ground arith

-- A share of a word is a word.
share_bound : (a left t : ℕ) → 0 < t → left ≤ t → a * left / t ≤ a
share_bound a left t pos_t h = grind arith

difference : (t f : ℕ) → f ≤ t → pos t -ℤ pos f ≡ pos (t - f)
unfolding ◌-ℤ◌
difference t f h = ground arith

share_integer :
    (o : Order.Order) (amount : Bytes)
    → big o.taker_asset_amount_filled ≤ big o.taker_asset_amount
    → div_ℤ
        (mul_ℤ
          (big amount)
          (pos (big o.taker_asset_amount) -ℤ pos (big o.taker_asset_amount_filled)))
        (big o.taker_asset_amount)
      ≡ pos (
          big amount
          * (big o.taker_asset_amount - big o.taker_asset_amount_filled)
          / big o.taker_asset_amount)
share_integer o amount filled =
    ap (λ z. div_ℤ (mul_ℤ (big amount) z) (big o.taker_asset_amount))
      (difference (big o.taker_asset_amount) (big o.taker_asset_amount_filled) filled)

-- While an order is not overfilled, what is left of one of its amounts is the amount times the
-- unfilled part of the taker's amount over the taker's amount, rounded down.
pub share_left_lem :
    (u256 : ℤ → Bytes) (o : Order.Order) (amount : Bytes)
    → U256Law u256
    → IsBytes 32 amount
    → 0 < big o.taker_asset_amount
    → big o.taker_asset_amount_filled ≤ big o.taker_asset_amount
    → big (share_left u256 o amount)
      ≡ big amount
        * (big o.taker_asset_amount - big o.taker_asset_amount_filled)
        / big o.taker_asset_amount
unfolding share_left
share_left_lem u256 o amount law size pos_taker filled =
    let q =
      big amount
      * (big o.taker_asset_amount - big o.taker_asset_amount_filled)
      / big o.taker_asset_amount in
    let bound : q < 256 ^ 32 = omega (
      arith,
      share_bound (big amount) (big o.taker_asset_amount - big o.taker_asset_amount_filled)
          (big o.taker_asset_amount) pos_taker (omega arith),
      big-lt 32 amount size,
    ) in
    rw
      (
        share_integer o amount filled,
        law q bound,
        copy_full (zeros 32) (to_bytes 32 q) (sym (length-to_bytes 32 q)),
      )
      (big-to_bytes 32 q bound)
