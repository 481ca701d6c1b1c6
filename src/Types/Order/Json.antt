-- ===== src/Types/Order/Json.antt =====
-- types/order.go: an order comes back from its JSON form.
use openrelay.Prelude.{
  ℕ, ◌≡◌, ◌^◌, ◌<◌, Bytes, IsBytes, All, ℤ, pos, ok, arith, sym, copy_full, zeros, to_bytes,
  to_bytes-big, big-lt, big, [], ◌∷◌, false, some, ap, ◌∙◌,
}
use openrelay.Types.Text.{int_string_to_bytes, dec_string, set_string}
use openrelay.Types.Text.RoundTrip.{hex_string_to_bytes-sprint_hex, set_string-dec_string}
use openrelay.Types.AssetData.{address}
use openrelay.Types.Order.{Order, from_strings, unmarshal_json, marshal_json, wire}

-- The sizes of the Go arrays, and bytes in the slices; the asset addresses are those of the data.
pub record WellFormed (o : Order) : Type 0 where
  pub maker : IsBytes 20 o.maker
  pub taker : IsBytes 20 o.taker
  pub maker_asset_data : All (λ x. x < 256) o.maker_asset_data
  pub taker_asset_data : All (λ x. x < 256) o.taker_asset_data
  pub maker_asset_address : address o.maker_asset_data ≡ ok o.maker_asset_address
  pub taker_asset_address : address o.taker_asset_data ≡ ok o.taker_asset_address
  pub fee_recipient : IsBytes 20 o.fee_recipient
  pub exchange_address : IsBytes 20 o.exchange_address
  pub sender_address : IsBytes 20 o.sender_address
  pub maker_asset_amount : IsBytes 32 o.maker_asset_amount
  pub taker_asset_amount : IsBytes 32 o.taker_asset_amount
  pub maker_fee : IsBytes 32 o.maker_fee
  pub taker_fee : IsBytes 32 o.taker_fee
  pub expiration_timestamp_in_sec : IsBytes 32 o.expiration_timestamp_in_sec
  pub salt : IsBytes 32 o.salt
  pub signature : All (λ x. x < 256) o.signature

-- What abi.U256 documents: a number below 2^256 as 32 big-endian bytes.
abbrev pub U256Law : (ℤ → Bytes) → Type 0
U256Law u256 = (n : ℕ) → n < 256 ^ 32 → u256 (pos n) ≡ to_bytes 32 n

module _ (u256 : ℤ → Bytes) (law : U256Law u256) where
  word_round_trip :
      (b : Bytes) → IsBytes 32 b → int_string_to_bytes u256 (dec_string (big b)) ≡ ok b
  unfolding int_string_to_bytes
  word_round_trip b h =
      rw (set_string-dec_string (big b)) (ap ok (law (big b) (big-lt 32 b h) ∙ to_bytes-big 32 b h))

  zero_text : int_string_to_bytes u256 (48 ∷ []) ≡ ok (zeros 32)
  unfolding int_string_to_bytes set_string to_bytes
  zero_text = ap ok (law 0 (omega arith))

  -- A well-formed order is read back from its own JSON form into any order. The fields that are not
  -- carried are reset, to a filled amount of zero and not cancelled, and the pool's id is the
  -- receiver's.
  pub unmarshal_json-marshal_json :
      (o receiver : Order)
      → WellFormed o
      → unmarshal_json u256 receiver (some (wire (marshal_json o)))
        ≡ ok (record o {
          taker_asset_amount_filled = zeros 32;
          cancelled = false;
          pool_id = receiver.pool_id;
        })
  unfolding unmarshal_json from_strings wire marshal_json
  unmarshal_json-marshal_json o receiver w = rw (
    hex_string_to_bytes-sprint_hex o.maker w.maker.1,
    hex_string_to_bytes-sprint_hex o.taker w.taker.1,
    hex_string_to_bytes-sprint_hex o.maker_asset_data w.maker_asset_data,
    hex_string_to_bytes-sprint_hex o.taker_asset_data w.taker_asset_data,
    hex_string_to_bytes-sprint_hex o.fee_recipient w.fee_recipient.1,
    hex_string_to_bytes-sprint_hex o.exchange_address w.exchange_address.1,
    hex_string_to_bytes-sprint_hex o.sender_address w.sender_address.1,
    hex_string_to_bytes-sprint_hex o.signature w.signature,
    word_round_trip o.maker_asset_amount w.maker_asset_amount,
    word_round_trip o.taker_asset_amount w.taker_asset_amount,
    word_round_trip o.maker_fee w.maker_fee,
    word_round_trip o.taker_fee w.taker_fee,
    word_round_trip o.expiration_timestamp_in_sec w.expiration_timestamp_in_sec,
    word_round_trip o.salt w.salt,
    zero_text,
    w.taker_asset_address,
    w.maker_asset_address,
    copy_full (zeros 20) o.maker (sym w.maker.0),
    copy_full (zeros 20) o.taker (sym w.taker.0),
    copy_full (zeros 20) o.fee_recipient (sym w.fee_recipient.0),
    copy_full (zeros 20) o.exchange_address (sym w.exchange_address.0),
    copy_full (zeros 20) o.sender_address (sym w.sender_address.0),
    copy_full (zeros 32) o.maker_asset_amount (sym w.maker_asset_amount.0),
    copy_full (zeros 32) o.taker_asset_amount (sym w.taker_asset_amount.0),
    copy_full (zeros 32) o.maker_fee (sym w.maker_fee.0),
    copy_full (zeros 32) o.taker_fee (sym w.taker_fee.0),
    copy_full (zeros 32) o.expiration_timestamp_in_sec (sym w.expiration_timestamp_in_sec.0),
    copy_full (zeros 32) o.salt (sym w.salt.0),
  )
