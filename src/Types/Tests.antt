-- ===== src/Types/Tests.antt =====
-- Tests of the types.
use openrelay.Prelude.{
  ◌≡◌, ◌⊎◌, ◌↔◌, refl, Bool, true, false, not, some, [], ◌∷◌, zeros, pos, ok, panic, length, ltb,
  ◌-◌, get_or, if◌then◌else◌, take, drop, bytes_eq, copy, codes, arith,
}
use openrelay.Types.Samples.{
  digest, digest_size, word, word_law, crypto, order, other_order, signature, maker_data,
  taker_data, maker_token, amount,
}
use openrelay.Types.Text.{hex_string_to_bytes, sprint_hex, set_string, dec_string}
use openrelay.Types.Text.RoundTrip.{hex_string_to_bytes-sprint_hex, set_string-dec_string}
use openrelay.Types.AssetData.{
  address, token_id, supported_type, to_erc20_asset_data, to_erc721_asset_data, erc721_proxy_id,
}
use openrelay.Types.AssetData.Laws.{
  is_known, supported_type_lem, address_lem, address-to_erc20_asset_data, token_id_lem,
  token_id-to_erc721_asset_data,
}
use openrelay.Types.Signature.{supported, verify, verify_by_type, eth_sign_digest}
use openrelay.Types.Signature.Laws.{SignedBy, verify_iff}
use openrelay.Types.Order.{hash, domain_bytes, order_bytes, unmarshal_json, marshal_json, wire}
use openrelay.Types.Order.Json.{WellFormed, unmarshal_json-marshal_json}
use openrelay.Types.Order.Binding.{Sized, SameTrade, Collision, hash_binds}

hex_string_to_bytes-sprint_hex_example :
    hex_string_to_bytes (sprint_hex (0 ∷ 171 ∷ 255 ∷ [])) ≡ ok (0 ∷ 171 ∷ 255 ∷ [])
hex_string_to_bytes-sprint_hex_example =
    hex_string_to_bytes-sprint_hex (0 ∷ 171 ∷ 255 ∷ []) (omega arith)

set_string-dec_string_example : set_string (dec_string 1050) ≡ some (pos 1050)
set_string-dec_string_example = set_string-dec_string 1050

dec_string_1050 : dec_string 1050 ≡ codes "1050"
unfolding dec_string
dec_string_1050 = refl

short_asset_data : address (1 ∷ 2 ∷ []) ≡ panic
unfolding address
short_asset_data = refl

address_example : address maker_data ≡ (
    if ltb (length maker_data) 4
    then panic
    else if not (is_known maker_data)
    then ok (zeros 20)
    else if ltb (length maker_data) 36
    then panic
    else ok (take 20 (drop 16 maker_data)))
address_example = address_lem maker_data

supported_type_example :
    supported_type maker_data
    ≡ (if ltb (length maker_data) 4 then panic else ok (is_known maker_data))
supported_type_example = supported_type_lem maker_data

address-to_erc20_asset_data_example : address (to_erc20_asset_data maker_token) ≡ ok maker_token
address-to_erc20_asset_data_example = address-to_erc20_asset_data maker_token refl

token_id_example : token_id taker_data ≡ (
    if ltb (length taker_data) 4
    then panic
    else if not (bytes_eq (take 4 taker_data) erc721_proxy_id)
    then ok (zeros 32)
    else if ltb (length taker_data) 36
    then panic
    else ok (copy (zeros 32) (drop 36 taker_data)))
token_id_example = token_id_lem taker_data

token_id-to_erc721_asset_data_example :
    (address (to_erc721_asset_data maker_token (amount 7)) ≡ ok maker_token)
    × (token_id (to_erc721_asset_data maker_token (amount 7)) ≡ ok (amount 7))
token_id-to_erc721_asset_data_example =
    token_id-to_erc721_asset_data maker_token (amount 7) refl refl

empty_signature : supported [] ≡ panic
unfolding supported
empty_signature = refl

verify_iff_example :
    (b : Bool) × (verify crypto signature order.maker (amount 1) ≡ ok b)
    × ((b ≡ true) ↔ (
        ((get_or signature (length signature - 1) 0 ≡ 2)
          × SignedBy crypto signature order.maker (amount 1))
        ⊎ ((get_or signature (length signature - 1) 0 ≡ 3)
            × SignedBy crypto signature order.maker (eth_sign_digest crypto (amount 1)))))
verify_iff_example = verify_iff crypto signature order.maker (amount 1)

verify_signature : verify crypto signature order.maker (amount 1) ≡ ok true
unfolding verify verify_by_type
verify_signature = refl

maker_data-address : address maker_data ≡ ok order.maker_asset_address
unfolding address
maker_data-address = refl

taker_data-address : address taker_data ≡ ok order.taker_asset_address
unfolding address
taker_data-address = refl

order-WellFormed : WellFormed order
order-WellFormed = record {
  maker = omega arith;
  taker = omega arith;
  maker_asset_data = omega arith;
  taker_asset_data = omega arith;
  maker_asset_address = maker_data-address;
  taker_asset_address = taker_data-address;
  fee_recipient = omega arith;
  exchange_address = omega arith;
  sender_address = omega arith;
  maker_asset_amount = omega arith;
  taker_asset_amount = omega arith;
  maker_fee = omega arith;
  taker_fee = omega arith;
  expiration_timestamp_in_sec = omega arith;
  salt = omega arith;
  signature = omega arith;
}

unmarshal_json-marshal_json_example :
    unmarshal_json word other_order (some (wire (marshal_json order)))
    ≡ ok
        (record order { taker_asset_amount_filled = zeros 32; cancelled = false; pool_id = 1 ∷ [] })
unmarshal_json-marshal_json_example =
    unmarshal_json-marshal_json word word_law order other_order order-WellFormed

order-Sized : Sized order
order-Sized = record {
  exchange_address = refl;
  maker = refl;
  taker = refl;
  fee_recipient = refl;
  sender_address = refl;
  maker_asset_amount = refl;
  taker_asset_amount = refl;
  maker_fee = refl;
  taker_fee = refl;
  expiration_timestamp_in_sec = refl;
  salt = refl;
}

other_order-Sized : Sized other_order
other_order-Sized = record {
  exchange_address = refl;
  maker = refl;
  taker = refl;
  fee_recipient = refl;
  sender_address = refl;
  maker_asset_amount = refl;
  taker_asset_amount = refl;
  maker_fee = refl;
  taker_fee = refl;
  expiration_timestamp_in_sec = refl;
  salt = refl;
}

same_hash : hash digest order ≡ hash digest other_order
unfolding hash domain_bytes order_bytes
same_hash = refl

hash_binds_example : SameTrade order other_order ⊎ Collision digest order other_order
hash_binds_example =
    hash_binds digest digest_size order other_order order-Sized other_order-Sized same_hash
