-- ===== src/Types/Signature.antt =====
-- types/signature.go: which signatures the relay supports and verifies. Keccak256, Ecrecover and
-- BytesToAddress of go-ethereum are parameters; Ecrecover's `none` is its error.
pub mod Laws
use openrelay.Prelude.{
  ℕ, ◌-◌, Bool, true, false, Option, none, some, List, [], ◌∷◌, ◌++◌, Bytes, ltb, leb, ◌==◌,
  if◌then◌else◌, length, take, drop, get_or, get_elem?, Outcome, ok, err, panic, or_panic, ◌>>=◌,
  bytes_eq, not, codes, ◌&&◌, copy,
}
use openrelay.Types.Text.{dec_string, sprint_hex, Str, trim_prefix, hex_decode, hex_prefix}

pub record Crypto : Type 0 where
  pub keccak256 : Bytes → Bytes
  pub ecrecover : Bytes → Bytes → Option Bytes
  pub bytes_to_address : Bytes → Bytes

abbrev pub sig_type_eip712 : ℕ
sig_type_eip712 = 2

abbrev pub sig_type_eth_sign : ℕ
sig_type_eth_sign = 3

abbrev pub sig_type_wallet : ℕ
sig_type_wallet = 4

abbrev pub sig_type_validator : ℕ
sig_type_validator = 5

-- Type indexes the last byte, so an empty signature panics.
unfoldable pub sig_type : Bytes → Outcome ℕ
sig_type sig = or_panic (if ltb 0 (length sig) then get_elem? sig (length sig - 1) else none)

unfoldable pub supported : Bytes → Outcome Bool
unfolding sig_type
supported sig = do
  t ← sig_type sig
  ok (if t == sig_type_eip712 then true else if t == sig_type_eth_sign then true else false)

module _ (c : Crypto) where
  -- What the two verifiers share: the bytes r, s and v - 27 go to Ecrecover with the signed digest,
  -- and the address of the recovered key is compared. `append` writes into the cloned signature only.
  unfoldable pub recovers : Bytes → Bytes → Bytes → Bool
  unfolding bytes_eq
  recovers sig addr digest =
      if not (length sig == 66)
      then false
      else if ltb (get_or sig 0 0) 27
      then false
      else elim (c.ecrecover digest
          (take 32 (drop 1 sig) ++ (take 32 (drop 33 sig) ++ ((get_or sig 0 0 - 27) ∷ [])))) [
            | none ↦ false
            | some key ↦ bytes_eq addr (c.bytes_to_address (drop 12 (c.keccak256 (drop 1 key))))
          ]

  unfoldable pub verify_eip712 : Bytes → Bytes → Bytes → Bool
  unfolding recovers
  verify_eip712 sig addr hash = recovers sig addr hash

  -- The text that eth_sign puts in front of a hash, and its digest.
  unfoldable pub eth_sign_digest : Bytes → Bytes
  unfolding dec_string
  eth_sign_digest hash =
      c.keccak256
        (((25 ∷ codes "Ethereum Signed Message:") ++ (10 ∷ dec_string (length hash))) ++ hash)

  unfoldable pub verify_eth_sign : Bytes → Bytes → Bytes → Bool
  unfolding recovers eth_sign_digest
  verify_eth_sign sig addr hash = recovers sig addr (eth_sign_digest hash)

  unfoldable pub verify_wallet : Bytes → Bytes → Bytes → Bool
  verify_wallet sig addr hash = false

  unfoldable pub verify_validator : Bytes → Bytes → Bytes → Bool
  verify_validator sig addr hash = false

  unfoldable pub verify_by_type : ℕ → Bytes → Bytes → Bytes → Bool
  unfolding verify_eip712 verify_eth_sign verify_wallet verify_validator
  verify_by_type t sig addr hash =
      if t == sig_type_eip712
      then verify_eip712 sig addr hash
      else if t == sig_type_eth_sign
      then verify_eth_sign sig addr hash
      else if t == sig_type_wallet
      then verify_wallet sig addr hash
      else if t == sig_type_validator
      then verify_validator sig addr hash
      else false

  -- Verify tests the length before it asks for the type.
  unfoldable pub verify : Bytes → Bytes → Bytes → Outcome Bool
  unfolding sig_type
  verify sig addr hash =
      if ltb (length sig) 1
      then ok false
      else (sig_type sig >>= λ t. ok (verify_by_type t sig addr hash))

-- Signature.UnmarshalJSON, on the text between the quotes: the receiver's length is fixed.
unfoldable pub unmarshal : Bytes → Str → Outcome Bytes
unfolding trim_prefix hex_decode copy
unmarshal sig text = elim (hex_decode (trim_prefix text hex_prefix)) [
  | none ↦ err "encoding/hex"
  | some b ↦
      if not (length sig == length b)
      then err "Unmarshalling to signature requires len(sig) == len(data)"
      else ok (copy sig b)
]
