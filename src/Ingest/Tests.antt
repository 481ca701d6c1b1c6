-- ===== src/Ingest/Tests.antt =====
-- Tests of the ingest handler.
use openrelay.Prelude.{
  big, ◌≡◌, ◌≤◌, ◌+◌, ◌-ℤ◌, sym, arith, copy, copy_full, replicate, refl, true, false, none, some,
  [], ◌∷◌, pos, ok, panic, zeros, codes,
}
use openrelay.Types.Samples.{order, word, crypto}
use openrelay.Types.Signature.{supported, verify, verify_by_type}
use openrelay.Types.AssetData.{supported_type}
use openrelay.Types.Order
use openrelay.Ingest.{
  Relay, Pool, Request, octet_stream, handle, go, read_body, accepted, right_sender, check_fee,
  pool_fee, discount,
}
use openrelay.Ingest.FeeInfo.{payload, FeeInputPayload, FeeResponse, quote, fee_handler, min_fee}
use openrelay.Ingest.FeeInfo.Quoted.{fee_handler-check_fee}
use openrelay.Types.Text.{
  sprint_hex, dec_string, int_string, hex_string_to_bytes, hex_decode, hex_encode, trim_prefix,
  starts_with, set_string,
}
use openrelay.Types.Text.RoundTrip.{hex_string_to_bytes-sprint_hex}
use openrelay.Ingest.Accepted.{Acceptable, handle-Acceptable}

abbrev relay : Relay
relay = record {
  crypto = crypto;
  u256 = word;
  from_rlp = λ b. ok order;
  from_json = λ b. none;
  enforce_terms = true;
  check_address = λ a. true;
  exchange_is_known = λ a. 1;
  get_affiliate = λ a. true;
  get_account = λ a. record {
    blacklisted = false;
    base_fee = 5;
    discount_percent = pos 100;
    expiration = 90;
  };
  now = 60;
}

abbrev pool : Pool
pool = record {
  id = 3 ∷ [];
  fee_share = codes "1000000000000000000";
  expiration = 0;
  sender_addresses = (1, zeros 20) ∷ [];
  base_fee = some 5;
}

abbrev request : Request
request = record { content_type = octet_stream; body = some (1 ∷ []) }

handle-order : handle relay pool request ≡ go (some (record order { pool_id = 3 ∷ [] }))
unfolding handle supported_type supported verify verify_by_type big
handle-order = refl

handle_example :
    (o : Order.Order) × (read_body relay request.content_type request.body ≡ go o)
    × Acceptable relay pool o
    × (some (record order { pool_id = 3 ∷ [] }) ≡ accepted relay pool o)
handle_example =
    handle-Acceptable relay pool request (some (record order { pool_id = 3 ∷ [] })) handle-order

-- A pool with a sender for network 1 only, and an order on network 2.
missing_sender : right_sender pool 2 order.sender_address ≡ panic
unfolding right_sender
missing_sender = refl

-- The maker's discount is the whole fee of 5, so that the quote is 0.
abbrev input : FeeInputPayload
input = record {
  maker = sprint_hex order.maker;
  exchange = [];
  fee_recipient = [];
  taker = [];
  sender = [];
}

abbrev quoted : FeeResponse
quoted = quote relay (replicate 20 3) (λ t. []) pool input order.maker [] (replicate 20 3) (pos 5)

fee_handler-input : fee_handler relay (replicate 20 3) (λ t. []) pool (payload input) ≡ go quoted
unfolding fee_handler hex_string_to_bytes hex_decode sprint_hex hex_encode trim_prefix starts_with
    pool_fee set_string copy
fee_handler-input = refl

quoted_fee : quoted.maker_fee ≡ dec_string 0
unfolding int_string dec_string min_fee discount ◌-ℤ◌ copy
quoted_fee = refl

enough_fee : 0 ≤ big order.maker_fee + big order.taker_fee
enough_fee = omega arith

fee_handler_example : check_fee relay order (pool_fee pool) ≡ go true
fee_handler_example =
    fee_handler-check_fee relay (replicate 20 3) (λ t. []) pool input order.maker quoted order 0
      fee_handler-input (hex_string_to_bytes-sprint_hex order.maker (omega arith)) quoted_fee
      (sym (copy_full (zeros 20) order.maker refl)) enough_fee
