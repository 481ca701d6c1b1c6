-- ===== src/Ingest.antt =====
-- ingest/ingest.go, with the fees of pool/pool.go and accounts/account.go: the handler that takes an
-- order from a request, checks it and publishes it. The services behind interfaces are parameters, and
-- so are the decoders of encoding/json and rlp. The time is read once. Of a rejection the status, the
-- code and the fields named with their codes are modelled, not the texts of the fields.
pub mod Accepted
pub mod FeeInfo
mod Tests
use openrelay.Prelude.{
  ℕ, zero, suc, ◌+◌, ◌*◌, ◌/◌, Bool, true, false, not, ◌&&◌, ◌||◌, List, [], ◌∷◌, Option, none,
  some, Bytes, bytes_eq, ltb, ◌==◌, if◌then◌else◌, length, big, ℤ, pos, negsuc, ◌-ℤ◌, ltb_ℤ,
  Outcome, ok, err, panic, zeros, codes, take,
}
use openrelay.Types.Order
use openrelay.Types.Order.{JsonOrder, unmarshal_json, empty_order}
use openrelay.Types.Text.{Str, set_string}
use openrelay.Types.AssetData.{supported_type}
use openrelay.Types.Signature.{Crypto, supported, verify}
use openrelay.Db.Order.{mul_ℤ, div_ℤ}
use Prim.Native.String.{String}

pub record ValidationError : Type 0 where
  pub field : String
  pub code : ℕ

pub record IngestError : Type 0 where
  pub code : ℕ
  pub reason : String
  pub validation_errors : List ValidationError

-- What the handler writes: the status, and the error with it if there is one.
pub record Reply : Type 0 where
  pub status : ℕ
  pub error : Option IngestError

-- How a part of the handler ends: it goes on with a value, it has replied and returned, or it panics.
pub data Handled {ℓ} (A : Type ℓ) : Type ℓ where
  go : A → Handled A
  replied : Reply → Handled A
  panicked : Handled A

infixl 5 ◌>>=◌
abbrev pub ◌>>=◌ {ℓ κ} : {A : Type ℓ} {B : Type κ} → Handled A → (A → Handled B) → Handled B
go a >>= f = f a
replied r >>= f = replied r
panicked >>= f = panicked

abbrev pub failed : ℕ → String → ℕ → Reply
failed code reason status = record {
  status = status;
  error = some (record { code = code; reason = reason; validation_errors = [] });
}

abbrev pub invalid : String → ℕ → ℕ → Reply
invalid field code status = record {
  status = status;
  error = some (record {
    code = 100;
    reason = "Validation Failed";
    validation_errors = record { field = field; code = code } ∷ [];
  });
}

abbrev pub fee_too_low : Reply
fee_too_low = record {
  status = 402;
  error = some (record {
    code = 100;
    reason = "Validation Failed";
    validation_errors =
        record { field = "makerFee"; code = 1004 }
        ∷ record { field = "takerFee"; code = 1004 }
        ∷ [];
  });
}

-- A test and the reply if it fails: the handler returns at the first test that fails, or panics at one
-- that panics.
abbrev pub ensure : Outcome Bool → Reply → Handled Bool → Handled Bool
ensure (ok true) r rest = rest
ensure (ok false) r rest = replied r
ensure (err e) r rest = panicked
ensure panic r rest = panicked

unfoldable pub run_checks : List (Outcome Bool × Reply) → Handled Bool
run_checks [] = go true
run_checks ((test, r) ∷ rest) = ensure test r (run_checks rest)

pub record Account : Type 0 where
  pub blacklisted : Bool
  pub base_fee : ℕ
  pub discount_percent : ℤ
  pub expiration : ℕ

unfoldable pub discount : ℕ → Account → ℤ
discount now a =
    if ltb a.expiration now then pos 0 else div_ℤ (mul_ℤ a.base_fee a.discount_percent) 100

pub record Pool : Type 0 where
  pub id : Bytes
  pub fee_share : Str
  pub expiration : ℕ
  pub sender_addresses : List (ℕ × Bytes)
  pub base_fee : Option ℕ

abbrev pub fee_base_units : ℕ
fee_base_units = 1000000000000000000

abbrev pub fee_of_share : ℕ → Option ℤ → ℤ
fee_of_share base none = pos base
fee_of_share base (some share) = div_ℤ (mul_ℤ base share) fee_base_units

-- Pool.Fee; `none` is the error of the base fee.
unfoldable pub pool_fee : Pool → Option ℤ
unfolding set_string
pool_fee p = elim p.base_fee [
  | none ↦ none
  | some base ↦ some (fee_of_share base (set_string p.fee_share))
]

unfoldable pub sender_of : ℕ → List (ℕ × Bytes) → Option Bytes
sender_of network [] = none
sender_of network ((n, a) ∷ rest) =
    let later = sender_of network rest in if n == network then some a else later

-- The test that the sender is allowed. A network that a pool with senders lacks gives a nil pointer, whose slice
-- panics.
abbrev pub sender_accepted : Bytes → Option Bytes → Outcome Bool
sender_accepted sender none = panic
sender_accepted sender (some a) = ok (bytes_eq a (zeros 20) || bytes_eq a sender)

unfoldable pub right_sender : Pool → ℕ → Bytes → Outcome Bool
unfolding sender_of
right_sender p network sender =
    if length p.sender_addresses == 0
    then ok true
    else sender_accepted sender (sender_of network p.sender_addresses)

pub data ContentType : Type 0 where
  octet_stream : ContentType
  json : ContentType
  other : ContentType

-- A request that is not a GET: the content type, and what one Read of at most 1024 bytes gave.
pub record Request : Type 0 where
  pub content_type : ContentType
  pub body : Option Bytes

pub record Relay : Type 0 where
  pub crypto : Crypto
  pub u256 : ℤ → Bytes
  pub from_rlp : Bytes → Outcome Order.Order
  pub from_json : Bytes → Option JsonOrder
  pub enforce_terms : Bool
  pub check_address : Bytes → Bool
  pub exchange_is_known : Bytes → ℕ
  pub get_affiliate : Bytes → Bool
  pub get_account : Bytes → Account
  pub now : ℕ

-- A decoder's error is answered; its panic is the handler's.
abbrev pub decoded {ℓ} : {A : Type ℓ} → Reply → Outcome A → Handled A
decoded r (ok a) = go a
decoded r (err e) = replied r
decoded r panic = panicked

module _ (s : Relay) where
  abbrev pub read_body : ContentType → Option Bytes → Handled Order.Order
  read_body other body = replied (failed 100 "Unsupported content-type" 415)
  read_body octet_stream none = replied (failed 100 "Error reading content" 500)
  read_body octet_stream (some b) = decoded (failed 100 "Error parsing order" 500) (s.from_rlp b)
  read_body json none = replied (failed 100 "Error reading content" 500)
  read_body json (some b) =
      decoded (failed 101 "Malformed JSON" 400) (unmarshal_json s.u256 empty_order (s.from_json b))

  -- The checks of the order alone.
  abbrev pub order_checks : Order.Order → List (Outcome Bool × Reply)
  order_checks o =
      (supported_type o.maker_asset_data, invalid "makerAssetData" 1006 400)
      ∷ (supported_type o.taker_asset_data, invalid "takerAssetData" 1006 400)
      ∷ (supported o.signature, invalid "signature" 1005 400)
      ∷ (
        verify s.crypto o.signature o.maker (Order.hash s.crypto.keccak256 o),
        invalid "signature" 1005 400,
      )
      ∷ (
        ok (not (ltb (big o.expiration_timestamp_in_sec) s.now)),
        invalid "expirationUnixTimestampSec" 1004 400,
      )
      ∷ (
        ok (not (ltb (s.now + 31536000000) (big o.expiration_timestamp_in_sec))),
        invalid "expirationUnixTimestampSec" 1004 400,
      )
      ∷ (ok (not (0 == big o.taker_asset_amount)), invalid "TakerAssetAmount" 1004 400)
      ∷ (ok (not (0 == big o.maker_asset_amount)), invalid "MakerAssetAmount" 1004 400)
      ∷ []

  abbrev pub signed_terms : Order.Order → Bool
  signed_terms o = if s.enforce_terms then s.check_address o.maker else true

  abbrev pub pool_open : Pool → Bool
  pool_open p = not (ltb 0 p.expiration && ltb p.expiration s.now)

  -- The checks of who may trade where.
  abbrev pub party_checks : Pool → Order.Order → List (Outcome Bool × Reply)
  unfolding right_sender
  party_checks p o =
      (ok (signed_terms o), invalid "makerAddress" 1002 401)
      ∷ (
        ok (not (s.exchange_is_known o.exchange_address == 0)),
        invalid "exchangeContractAddress" 1002 400,
      )
      ∷ (
        right_sender p (s.exchange_is_known o.exchange_address) o.sender_address,
        invalid "senderAddress" 1002 400,
      )
      ∷ (ok (pool_open p), failed 102 "Order Pool Expired" 400)
      ∷ (ok (s.get_affiliate o.fee_recipient), invalid "feeRecipient" 1002 402)
      ∷ []

  abbrev pub fee_covered : Order.Order → ℤ → Bool
  unfolding discount ◌-ℤ◌
  fee_covered o fee = not (
      ltb_ℤ (pos (big o.maker_fee + big o.taker_fee))
        (fee -ℤ discount s.now (s.get_account o.maker)))

  -- The check of the fee, which the pool's own error comes before.
  abbrev pub check_fee : Order.Order → Option ℤ → Handled Bool
  unfolding fee_covered run_checks
  check_fee o none = replied (invalid "pool" 1002 500)
  check_fee o (some fee) = run_checks ((ok (fee_covered o fee), fee_too_low) ∷ [])

  -- What is published of an order that passed: nothing if its maker is blacklisted.
  abbrev pub accepted : Pool → Order.Order → Option Order.Order
  accepted p o =
      if (s.get_account o.maker).blacklisted then none else some (record o { pool_id = p.id })

  -- The handler after the health check; it answers 202 if it ends with `go`.
  unfoldable pub handle : Pool → Request → Handled (Option Order.Order)
  unfolding run_checks party_checks check_fee pool_fee
  handle p r = do
    o ← read_body r.content_type r.body
    a ← run_checks (order_checks o)
    b ← run_checks (party_checks p o)
    c ← check_fee o (pool_fee p)
    go (accepted p o)
