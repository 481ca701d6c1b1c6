-- ===== src/Db/Order.antt =====
-- db/order.go: an order with the columns that the database adds, and how it is saved. The table of
-- orders is the list of its rows; the statements that gorm sends are read as functions on the rows,
-- and are taken to succeed. Hashes, signatures and abi.U256 are parameters, and so is the quotient of
-- two amounts as a float64. The times of creation and update are not modelled.
pub mod Populate
pub mod Rows
pub mod Save
use openrelay.Prelude.{
  ℕ, suc, ◌*◌, ◌/◌, ◌-◌, ◌+◌, Bool, true, false, not, Option, none, some, List, [], ◌∷◌, ◌++◌,
  Bytes, ltb, ◌==◌, if◌then◌else◌, big, map, ℤ, pos, negsuc, ◌-ℤ◌, ltb_ℤ, Outcome, ok, err, panic,
  ◌>>=◌, bytes_eq, copy, zeros, length,
}
use openrelay.Types.Order
use openrelay.Types.Signature.{Crypto, verify}

abbrev pub status_open : ℕ
status_open = 0

abbrev pub status_filled : ℕ
status_filled = 1

abbrev pub status_unfunded : ℕ
status_unfunded = 2

abbrev pub status_cancelled : ℕ
status_cancelled = 3

abbrev pub default_sha3 : Bytes
default_sha3 =
    167 ∷ 216 ∷ 239 ∷ 244 ∷ 2 ∷ 111 ∷ 37 ∷ 45 ∷ 181 ∷ 185 ∷ 12 ∷ 120 ∷ 228 ∷ 61 ∷ 209 ∷ 145 ∷ 223
    ∷ 230 ∷ 229 ∷ 95 ∷ 203 ∷ 152 ∷ 84 ∷ 138 ∷ 95 ∷ 56 ∷ 250 ∷ 240 ∷ 212 ∷ 227 ∷ 235 ∷ 57 ∷ []

pub record DbOrder : Type 0 where
  pub order : Order.Order
  pub order_hash : Bytes
  pub status : ℕ
  pub price : ℕ
  pub fee_rate : ℕ
  pub maker_asset_remaining : Bytes
  pub maker_fee_remaining : Bytes

-- new(big.Int).Mul of an amount and an integer, and Div, which rounds down, by a positive one.
abbrev pub mul_ℤ : ℕ → ℤ → ℤ
mul_ℤ a (pos n) = pos (a * n)
mul_ℤ a (negsuc n) = pos 0 -ℤ pos (a * suc n)

abbrev pub div_ℤ : ℤ → ℕ → ℤ
div_ℤ (pos n) d = pos (n / d)
div_ℤ (negsuc n) d = negsuc (n / d)

-- How much of the taker's amount makes an order count as filled: 99% of more than 100 units.
unfoldable pub threshold : Bytes → ℕ
threshold amount = if ltb 100 (big amount) then big amount * 99 / 100 else big amount

abbrev pub default_pool_id : Bytes → Bytes
default_pool_id id = if length id == 0 then default_sha3 else id

-- The unfilled share of an amount of the maker's, in 32 bytes.
unfoldable pub share_left : (ℤ → Bytes) → Order.Order → Bytes → Bytes
share_left u256 o amount =
    let remaining = pos (big o.taker_asset_amount) -ℤ pos (big o.taker_asset_amount_filled) in
    copy (zeros 32) (u256 (div_ℤ (mul_ℤ (big amount) remaining) (big o.taker_asset_amount)))

-- The status that Populate leaves, from the one before.
unfoldable pub populated_status : Order.Order → ℕ → ℕ
unfolding ◌-ℤ◌ threshold
populated_status o status =
    let left = pos (threshold o.taker_asset_amount) -ℤ pos (big o.taker_asset_amount_filled) in
    if not (ltb_ℤ (pos 0) left)
    then status_filled
    else if o.cancelled
    then status_cancelled
    else status

-- UPDATE orders SET … WHERE order_hash = ?, with the columns of `updates`.
abbrev pub update_row : DbOrder → DbOrder → DbOrder
update_row d row =
    if bytes_eq row.order_hash d.order_hash
    then record row {
      order = record row.order { taker_asset_amount_filled = d.order.taker_asset_amount_filled };
      maker_asset_remaining = d.maker_asset_remaining;
      maker_fee_remaining = d.maker_fee_remaining;
      status = d.status;
    }
    else row

unfoldable pub find_row : Bytes → List DbOrder → Option DbOrder
find_row h [] = none
find_row h (row ∷ rows) = if bytes_eq row.order_hash h then some row else find_row h rows

-- The update, and Create if it affected no row.
abbrev pub upserted : DbOrder → List DbOrder → Option DbOrder → List DbOrder
upserted d table none = table ++ (d ∷ [])
upserted d table (some row) = map (update_row d) table

unfoldable pub upsert : DbOrder → List DbOrder → List DbOrder
upsert d table = upserted d table (find_row d.order_hash table)

abbrev pub default_status : ℕ → DbOrder → DbOrder
default_status status d = if d.status == status_open then record d { status = status } else d

module _ (c : Crypto) (u256 : ℤ → Bytes) (quo : ℕ → ℕ → ℕ) where
  unfoldable pub populated : DbOrder → DbOrder
  unfolding share_left populated_status
  populated d = record {
    order = record d.order { pool_id = default_pool_id d.order.pool_id };
    order_hash = Order.hash c.keccak256 d.order;
    status = populated_status d.order d.status;
    price = quo (big d.order.taker_asset_amount) (big d.order.maker_asset_amount);
    fee_rate = quo (big d.order.taker_fee) (big d.order.taker_asset_amount);
    maker_asset_remaining = share_left u256 d.order d.order.maker_asset_amount;
    maker_fee_remaining = share_left u256 d.order d.order.maker_fee;
  }

  -- Division by a taker amount of zero panics.
  unfoldable pub populate : DbOrder → Outcome DbOrder
  populate d = if big d.order.taker_asset_amount == 0 then panic else ok (populated d)

  -- Save returns the table that it leaves; its error leaves the table alone.
  unfoldable pub save : DbOrder → ℕ → List DbOrder → Outcome (List DbOrder)
  unfolding upsert
  save d status table = do
    signed ← verify c d.order.signature d.order.maker (Order.hash c.keccak256 d.order)
    p ← if signed then populate d else err "Failed to verify signature"
    ok (upsert (default_status status p) table)
