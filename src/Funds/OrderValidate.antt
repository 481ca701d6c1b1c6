-- ===== src/Funds/OrderValidate.antt =====
-- funds/order_validate.go: ValidateOrder. The balance checker, the fee token and the token proxies
-- (RPC services behind interfaces) are parameters. The four lookups run in goroutines that share
-- nothing and answer on channels of their own, which are read in a fixed order: they are values here.
pub mod Laws
use openrelay.Prelude.{
  ℕ, ◌*◌, ◌/◌, ◌-◌, ◌+◌, Bool, true, false, not, Option, none, some, List, [], ◌∷◌, Bytes, leb,
  ◌==◌, if◌then◌else◌, big, big_bytes, ℤ, pos, pos_part, neg_part, ◌-ℤ◌, Outcome, ok, err, panic,
  ◌>>=◌,
}
use openrelay.Types.Order.{Order}
use openrelay.Types.AssetData.{erc20_proxy_id}
use Prim.Native.String.{String}
use text.Mathlib.Text.{◌==◌ as str_eq}

-- What an RPC call for an amount answers.
pub data Answer : Type 0 where
  amount : ℕ → Answer
  failure : String → Answer

pub record Services : Type 0 where
  pub get_balance : Bytes → Bytes → Answer
  pub get_allowance : Bytes → Bytes → Bytes → Answer
  pub fee_token : Order → Outcome Bytes
  pub token_proxy : Order → Outcome Bytes
  pub token_proxy_by_id : Order → Bytes → Outcome Bytes

pub record BoolOrErr : Type 0 where
  pub success : Bool
  pub error : Option String

abbrev pub respond : ℕ → Answer → BoolOrErr
respond required (amount n) = record { success = leb required n; error = none }
respond required (failure e) = record { success = false; error = some e }

-- The absolute value, whose bytes big.Int.Bytes returns.
abbrev pub abs_ℤ : ℤ → ℕ
abs_ℤ z = pos_part z + neg_part z

unfoldable pub get_remaining_amount : Bytes → Bytes → Bytes → Bytes
unfolding ◌-ℤ◌
get_remaining_amount numerator denominator target =
    if 0 == big denominator
    then 0 ∷ []
    else big_bytes (abs_ℤ (pos (big target) -ℤ pos (big numerator * big target / big denominator)))

-- What is left to fill of an amount of the order.
unfoldable pub remaining : Order → Bytes → Bytes
unfolding get_remaining_amount
remaining o target =
    get_remaining_amount (big_bytes (big o.taker_asset_amount_filled)) o.taker_asset_amount target

-- One receive of ValidateOrder and the reads after it: a failure with the known message is returned,
-- any other failure panics, and a lack of funds is remembered.
unfoldable pub receive : Bool → BoolOrErr → Outcome Bool
receive result answer = if answer.success then ok result else elim answer.error [
  | none ↦ ok false
  | some e ↦ if str_eq e "no contract code at given address" then err e else panic
]

module _ (s : Services) where
  unfoldable pub check_balance : Bytes → Bytes → Bytes → BoolOrErr
  check_balance asset_data user required =
      if big required == 0
      then record { success = true; error = none }
      else respond (big required) (s.get_balance asset_data user)

  unfoldable pub check_allowance : Bytes → Bytes → Bytes → Bytes → BoolOrErr
  check_allowance asset_data user proxy required =
      if big required == 0
      then record { success = true; error = none }
      else respond (big required) (s.get_allowance asset_data user proxy)

  unfoldable pub validate_order : Order → Outcome Bool
  validate_order o = do
    fee_token ← s.fee_token o
    maker_proxy ← s.token_proxy o
    fee_proxy ← s.token_proxy_by_id o erc20_proxy_id
    a ← receive true (check_balance o.maker_asset_data o.maker (remaining o o.maker_asset_amount))
    b ← receive a (check_balance fee_token o.maker (remaining o o.maker_fee))
    c ←
        receive b (
          check_allowance o.maker_asset_data o.maker maker_proxy (remaining o o.maker_asset_amount))
    receive c (check_allowance fee_token o.maker fee_proxy (remaining o o.maker_fee))
