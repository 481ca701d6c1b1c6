-- ===== src/Ingest/FeeInfo.antt =====
-- ingest/fee_info.go: the fee that an order has to carry, quoted before it is signed.
pub mod Quoted
use openrelay.Prelude.{
  ℕ, Bool, true, false, List, [], ◌∷◌, Option, none, some, Bytes, ◌==◌, if◌then◌else◌, length, copy,
  zeros, codes, ℤ, ◌-ℤ◌, Outcome, ok, err, panic,
}
use openrelay.Types.Text.{Str, sprint_hex, int_string, hex_string_to_bytes}
use openrelay.Ingest.{
  Reply, Handled, go, replied, panicked, ◌>>=◌, failed, invalid, Pool, Relay, pool_fee, sender_of,
  discount,
}
use Prim.Native.String.{String}

pub record FeeInputPayload : Type 0 where
  pub maker : Str
  pub exchange : Str
  pub fee_recipient : Str
  pub taker : Str
  pub sender : Str

pub record FeeResponse : Type 0 where
  pub maker_fee : Str
  pub taker_fee : Str
  pub fee_recipient : Str
  pub sender : Str
  pub taker_to_specify : Str

abbrev pub malformed : String → Reply
malformed field = record {
  status = 400;
  error = some (record {
    code = 100;
    reason = "Validation failed";
    validation_errors = record { field = field; code = 1001 } ∷ [];
  });
}

-- The first read of the body and Unmarshal of it; the text `null` resets the pointer, whose fields are
-- then read.
pub data FeeBody : Type 0 where
  unreadable : FeeBody
  not_json : FeeBody
  null : FeeBody
  payload : FeeInputPayload → FeeBody

abbrev pub fee_input : FeeBody → Handled FeeInputPayload
fee_input unreadable = replied (failed 100 "Error reading content" 500)
fee_input not_json = replied (failed 101 "Malformed JSON" 400)
fee_input null = panicked
fee_input (payload i) = go i

-- An error of the decoder is reported if `condition` is not empty; else what it decoded before the
-- error, `partial`, is used.
abbrev pub reported : Str → String → Bytes → Outcome Bytes → Handled Bytes
reported condition field partial (ok b) = go b
reported condition field partial (err e) =
    if length condition == 0 then go partial else replied (malformed field)
reported condition field partial panic = panicked

abbrev pub or_text : Str → Str → Str
or_text [] d = d
or_text (c ∷ cs) d = c ∷ cs

abbrev pub known_affiliate : Bool → Handled Bool
known_affiliate true = go true
known_affiliate false = replied (invalid "feeRecipient" 1002 402)

abbrev pub known_fee : Option ℤ → Handled ℤ
known_fee none = replied (invalid "pool" 1002 500)
known_fee (some fee) = go fee

abbrev pub sender_text : Option Bytes → Str
sender_text none = sprint_hex (zeros 20)
sender_text (some a) = sprint_hex a

module _ (s : Relay) (default_fee_recipient : Bytes) (partial : Str → Bytes) where
  abbrev pub network_of : Bytes → ℕ
  network_of exchange = let n = s.exchange_is_known exchange in if n == 0 then 1 else n

  abbrev pub recipient_of : Str → Bytes → Bytes
  recipient_of text slice =
      copy (zeros 20) (if length text == 0 then default_fee_recipient else slice)

  unfoldable pub min_fee : Bytes → ℤ → ℤ
  unfolding discount ◌-ℤ◌
  min_fee maker fee = fee -ℤ discount s.now (s.get_account maker)

  -- The response for a maker, exchange and recipient, once their texts are decoded.
  abbrev pub quote : Pool → FeeInputPayload → Bytes → Bytes → Bytes → ℤ → FeeResponse
  quote p i maker exchange recipient fee = record {
    maker_fee = int_string (min_fee (copy (zeros 20) maker) fee);
    taker_fee = codes "0";
    fee_recipient = sprint_hex recipient;
    sender =
        or_text i.sender
          (sender_text (sender_of (network_of (copy (zeros 20) exchange)) p.sender_addresses));
    taker_to_specify = or_text i.taker (sprint_hex (zeros 20));
  }

  -- FeeHandler; it answers 200 if it ends with `go`. The exchange's error is only reported if the fee
  -- recipient is not empty.
  unfoldable pub fee_handler : Pool → FeeBody → Handled FeeResponse
  unfolding hex_string_to_bytes pool_fee
  fee_handler p body = do
    i ← fee_input body
    maker ← reported i.maker "maker" (partial i.maker) (hex_string_to_bytes i.maker)
    slice ←
        reported i.fee_recipient "feeRecipient" (partial i.fee_recipient)
          (hex_string_to_bytes i.fee_recipient)
    exchange ←
        reported i.fee_recipient "exchangeAddress" (partial i.exchange)
          (hex_string_to_bytes i.exchange)
    known ← known_affiliate (s.get_affiliate (recipient_of i.fee_recipient slice))
    fee ← known_fee (pool_fee p)
    go (quote p i maker exchange (recipient_of i.fee_recipient slice) fee)
