-- ===== src/Db/Samples.antt =====
-- Sample data for the tests of the database: one open order, 30 of whose 150 units are filled.
use openrelay.Prelude.{ℕ, ◌∷◌, [], some, replicate}
use openrelay.Types.Samples.{order, amount}
use openrelay.Types.Signature.{Crypto}
use openrelay.Db.Order.{DbOrder, status_open}

-- Every digest is one byte, and every signature is the sample maker's.
abbrev pub crypto : Crypto
crypto = record {
  keccak256 = λ b. 7 ∷ [];
  ecrecover = λ signed rsv. some [];
  bytes_to_address = λ b. replicate 20 1;
}

abbrev pub quo : ℕ → ℕ → ℕ
quo a b = 0

abbrev pub row : DbOrder
row = record {
  order = order;
  order_hash = 7 ∷ [];
  status = status_open;
  price = 0;
  fee_rate = 0;
  maker_asset_remaining = amount 160;
  maker_fee_remaining = amount 8;
}
