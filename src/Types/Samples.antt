-- ===== src/Types/Samples.antt =====
-- Sample data for the tests: an order, and functions in place of those of go-ethereum.
use openrelay.Prelude.{
  ℕ, ◌≡◌, refl, false, some, [], ◌∷◌, ◌++◌, Bytes, ℤ, pos_part, replicate, zeros, to_bytes, big,
  length, length-to_bytes,
}
use openrelay.Types.Order
use openrelay.Types.Order.Json.{U256Law}
use openrelay.Types.Signature.{Crypto}

-- Thirty-two bytes of the integer, in place of Keccak256; it has the size of a digest.
abbrev pub digest : Bytes → Bytes
digest b = to_bytes 32 (big b)

pub digest_size : (b : Bytes) → length (digest b) ≡ 32
digest_size b = length-to_bytes 32 (big b)

abbrev pub word : ℤ → Bytes
word z = to_bytes 32 (pos_part z)

pub word_law : U256Law word
word_law n h = refl

-- A key is the digest that was signed with a byte in front; its last 20 bytes are the address.
abbrev pub crypto : Crypto
crypto = record {
  keccak256 = λ b. b;
  ecrecover = λ signed rsv. some (4 ∷ zeros 12 ++ replicate 20 1);
  bytes_to_address = λ b. b;
}

abbrev pub maker_token : Bytes
maker_token = replicate 20 9

abbrev pub maker_data : Bytes
maker_data = 244 ∷ 114 ∷ 97 ∷ 176 ∷ (zeros 12 ++ replicate 20 9)

abbrev pub taker_data : Bytes
taker_data = 244 ∷ 114 ∷ 97 ∷ 176 ∷ (zeros 12 ++ replicate 20 8)

abbrev pub amount : ℕ → Bytes
amount n = zeros 31 ++ (n ∷ [])

abbrev pub signature : Bytes
signature = 27 ∷ (replicate 64 5 ++ (2 ∷ []))

-- 200 units for 150, of which 30 are filled.
abbrev pub order : Order.Order
order = record {
  maker = replicate 20 1;
  taker = zeros 20;
  maker_asset_address = replicate 20 9;
  taker_asset_address = replicate 20 8;
  maker_asset_data = maker_data;
  taker_asset_data = taker_data;
  fee_recipient = replicate 20 3;
  exchange_address = replicate 20 4;
  sender_address = replicate 20 6;
  maker_asset_amount = amount 200;
  taker_asset_amount = amount 150;
  maker_fee = amount 10;
  taker_fee = amount 0;
  expiration_timestamp_in_sec = amount 77;
  salt = amount 42;
  signature = signature;
  taker_asset_amount_filled = amount 30;
  cancelled = false;
  pool_id = [];
}

abbrev pub other_order : Order.Order
other_order = record order { taker_asset_amount_filled = amount 60; pool_id = 1 ∷ [] }
