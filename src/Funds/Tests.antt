-- ===== src/Funds/Tests.antt =====
-- Tests of the order validation.
use openrelay.Prelude.{
  some, none, false, ◌∷◌, ◌≡◌, ◌<◌, ◌≤◌, ◌*◌, ◌-◌, ◌+◌, ◌↔◌, refl, Bool, true, [], ok, big, arith,
  if◌then◌else◌,
}
use openrelay.Types.Samples.{order, amount, maker_token}
use openrelay.Funds.OrderValidate
use openrelay.Funds.OrderValidate.{Services, get_remaining_amount, remaining, validate_order}
use openrelay.Funds.OrderValidate.Laws.{Answers, get_remaining_amount_bounds, validate_order_lem}
use openrelay.Db.Indexer.{Cancellation, save_cancellation}
use openrelay.Funds.Consumers.{
  fill_consume, acked, rejected, db_get_cancelled, cancellation_consume,
}
use openrelay.Funds.Consumers.Laws.{
  Passed, fill_consume-Passed, cancellation_consume-save_cancellation,
}

abbrev services : Services
services = record {
  get_balance = λ asset user. OrderValidate.amount 500;
  get_allowance = λ asset user proxy. OrderValidate.amount 165;
  fee_token = λ o. ok maker_token;
  token_proxy = λ o. ok [];
  token_proxy_by_id = λ o id. ok [];
}

abbrev services-Answers : Answers services order maker_token [] []
services-Answers = record {
  maker_balance = 500;
  fee_balance = 500;
  maker_allowance = 165;
  fee_allowance = 165;
  fee_token_known = refl;
  maker_proxy_known = refl;
  fee_proxy_known = refl;
  maker_balance_known = refl;
  fee_balance_known = refl;
  maker_allowance_known = refl;
  fee_allowance_known = refl;
}

validate_order_example :
    (b : Bool) × (validate_order services order ≡ ok b)
    × ((b ≡ true) ↔ (
        (big (remaining order order.maker_asset_amount) ≤ 500)
        × (big (remaining order order.maker_fee) ≤ 500)
        × (big (remaining order order.maker_asset_amount) ≤ 165)
        × (big (remaining order order.maker_fee) ≤ 165)))
validate_order_example = validate_order_lem services order maker_token [] [] services-Answers

get_remaining_amount_example :
    (big (amount 200) * (big (amount 150) - big (amount 30))
      ≤ big (get_remaining_amount (amount 30) (amount 150) (amount 200)) * big (amount 150))
    × (big (get_remaining_amount (amount 30) (amount 150) (amount 200)) * big (amount 150)
        < big (amount 200) * (big (amount 150) - big (amount 30)) + big (amount 150))
    × (big (get_remaining_amount (amount 30) (amount 150) (amount 200)) ≤ big (amount 200))
unfolding big
get_remaining_amount_example =
    get_remaining_amount_bounds (amount 30) (amount 150) (amount 200) (omega arith) (omega arith)

-- The cancellation is found; the lookup of the filled amount fails.
fill_consume_example :
    Passed order
      (some true)
      none
      (fill_consume true true (order, true) (λ o. some true) (λ o. none))
fill_consume_example = fill_consume-Passed true order (λ o. some true) (λ o. none)

abbrev cancellation : Cancellation
cancellation = record { maker = order.maker; sender = order.sender_address; epoch = amount 50 }

cancellation_consume_example :
    (b : Bool) × ((b ≡ true) ↔ (big order.salt < big (amount 50)))
    × (cancellation_consume true
          (some order)
          (db_get_cancelled none (save_cancellation cancellation []))
        ≡ record {
          changed = if b then record order { cancelled = b } ∷ [] else [];
          all = record order { cancelled = b } ∷ [];
          settled = acked ∷ [];
        })
cancellation_consume_example =
    cancellation_consume-save_cancellation cancellation [] order refl refl refl (omega arith)
      (omega arith)

-- A message that does not parse is rejected, and acknowledged all the same.
fill_consume-unparsed :
    (fill_consume true true (order, false) (λ o. none) (λ o. none)).settled ≡ acked ∷ rejected ∷ []
unfolding fill_consume
fill_consume-unparsed = refl
