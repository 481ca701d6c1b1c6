-- ===== src/Funds/OrderValidate/Laws.antt =====
-- funds/order_validate.go: how much an order still needs, and when it is accepted.
use openrelay.Prelude.{
  ℕ, ◌*◌, ◌/◌, ◌%◌, ◌-◌, ◌+◌, ◌≤◌, ◌<◌, ◌≡◌, ◌↔◌, ap, Bool, true, none, Bytes, leb, big,
  big-big_bytes, ok, arith, ◌&&◌,
}
use openrelay.Types.Order.{Order}
use openrelay.Types.AssetData.{erc20_proxy_id}
use openrelay.Funds.OrderValidate.{
  Services, amount, BoolOrErr, get_remaining_amount, check_balance, check_allowance, receive,
  remaining, validate_order,
}

-- Rounding down the filled share `q` of `t` rounds the rest `r` up, by less than one unit.
share_bounds :
    (n d t r q m : ℕ)
    → r + q ≡ t
    → q * d + m ≡ n * t
    → m < d
    → n ≤ d
    → (t * (d - n) ≤ r * d) × (r * d < t * (d - n) + d) × (r ≤ t)
share_bounds n d t r q m e f h k =
    let a : (r + q) * d ≡ t * d = ap (λ x. x * d) e in
    let b : t * (d - n + n) ≡ t * d = ap (λ x. t * x) (omega arith) in omega arith

share_le : (n d t : ℕ) → 0 < d → n ≤ d → n * t / d ≤ t
share_le n d t h k = grind arith

remaining_value :
    (num denom target : Bytes)
    → 0 < big denom
    → big num ≤ big denom
    → big (get_remaining_amount num denom target) ≡ big target - big num * big target / big denom
unfolding get_remaining_amount
remaining_value num denom target h k = ground (
  arith,
  share_le (big num) (big denom) (big target) h k,
  big-big_bytes (big target - big num * big target / big denom),
)

-- With at most the whole order filled, what remains of an amount lies at or just above the unfilled
-- share of it, by less than one unit, and is no more than the amount.
pub get_remaining_amount_bounds :
    (num denom target : Bytes)
    → 0 < big denom
    → big num ≤ big denom
    → let r = big (get_remaining_amount num denom target) in
      (big target * (big denom - big num) ≤ r * big denom)
      × (r * big denom < big target * (big denom - big num) + big denom)
      × (r ≤ big target)
get_remaining_amount_bounds num denom target h k = rw (remaining_value num denom target h k) (
    share_bounds (big num) (big denom) (big target) (big target - q) q
      (big num * big target % big denom)
      (omega (arith, share_le (big num) (big denom) (big target) h k)) (omega arith) (omega arith)
      k)
  where
    q : ℕ
    q = big num * big target / big denom

-- The checker answers every call.
pub record Answers (s : Services) (o : Order) (fee_token maker_proxy fee_proxy : Bytes)
    : Type 0 where
  pub maker_balance : ℕ
  pub fee_balance : ℕ
  pub maker_allowance : ℕ
  pub fee_allowance : ℕ
  pub fee_token_known : s.fee_token o ≡ ok fee_token
  pub maker_proxy_known : s.token_proxy o ≡ ok maker_proxy
  pub fee_proxy_known : s.token_proxy_by_id o erc20_proxy_id ≡ ok fee_proxy
  pub maker_balance_known : s.get_balance o.maker_asset_data o.maker ≡ amount maker_balance
  pub fee_balance_known : s.get_balance fee_token o.maker ≡ amount fee_balance
  pub maker_allowance_known :
      s.get_allowance o.maker_asset_data o.maker maker_proxy ≡ amount maker_allowance
  pub fee_allowance_known : s.get_allowance fee_token o.maker fee_proxy ≡ amount fee_allowance

abbrev answered : Bool → BoolOrErr
answered b = record { success = b; error = none }

check_balance_lem :
    (s : Services) (data_ user required : Bytes) (n : ℕ)
    → s.get_balance data_ user ≡ amount n
    → check_balance s data_ user required ≡ answered (leb (big required) n)
unfolding check_balance
check_balance_lem s data_ user required n e = rw e (ground arith)

check_allowance_lem :
    (s : Services) (data_ user proxy required : Bytes) (n : ℕ)
    → s.get_allowance data_ user proxy ≡ amount n
    → check_allowance s data_ user proxy required ≡ answered (leb (big required) n)
unfolding check_allowance
check_allowance_lem s data_ user proxy required n e = rw e (ground arith)

receive-answered : (r b : Bool) → receive r (answered b) ≡ ok (r && b)
unfolding receive
receive-answered r b = ground arith

-- If every lookup is answered, ValidateOrder returns, without error or panic, whether each of the two
-- balances and the two allowances covers what remains of the amount that it has to pay.
pub validate_order_lem :
    (s : Services) (o : Order) (fee_token maker_proxy fee_proxy : Bytes)
    (a : Answers s o fee_token maker_proxy fee_proxy)
    → let asset = big (remaining o o.maker_asset_amount) in
      let fee = big (remaining o o.maker_fee) in
      (b : Bool) × (validate_order s o ≡ ok b)
      × ((b ≡ true) ↔ (
          (asset ≤ a.maker_balance)
          × (fee ≤ a.fee_balance)
          × (asset ≤ a.maker_allowance)
          × (fee ≤ a.fee_allowance)))
unfolding validate_order
validate_order_lem s o fee_token maker_proxy fee_proxy a = (
  true
      && leb asset a.maker_balance
      && leb fee a.fee_balance
      && leb asset a.maker_allowance
      && leb fee a.fee_allowance,
  rw (
    a.fee_token_known,
    a.maker_proxy_known,
    a.fee_proxy_known,
    check_balance_lem s o.maker_asset_data o.maker (remaining o o.maker_asset_amount)
        a.maker_balance a.maker_balance_known,
    receive-answered,
    check_balance_lem s fee_token o.maker (remaining o o.maker_fee) a.fee_balance
        a.fee_balance_known,
    receive-answered,
    check_allowance_lem s o.maker_asset_data o.maker maker_proxy (remaining o o.maker_asset_amount)
        a.maker_allowance a.maker_allowance_known,
    receive-answered,
    check_allowance_lem s fee_token o.maker fee_proxy (remaining o o.maker_fee) a.fee_allowance
        a.fee_allowance_known,
    receive-answered,
  ),
  ground arith,
)
  where
    asset : ℕ
    asset = big (remaining o o.maker_asset_amount)

    fee : ℕ
    fee = big (remaining o o.maker_fee)
