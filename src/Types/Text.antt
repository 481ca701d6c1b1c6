-- ===== src/Types/Text.antt =====
-- types/util.go: hex and decimal texts, with the functions of encoding/hex, strings, fmt and
-- math/big that it calls. A Go string is its bytes. The text of an error is not modelled beyond
-- which call made it.
pub mod RoundTrip
use openrelay.Prelude.{
  ℕ, zero, suc, ◌+◌, ◌-◌, ◌*◌, ◌/◌, ◌%◌, Bool, true, false, ◌&&◌, Option, none, some, List, [], ◌∷◌,
  ◌++◌, Bytes, ltb, leb, ◌==◌, if◌then◌else◌, length, drop, ℤ, pos, negsuc, ◌-ℤ◌, Outcome, ok, err,
  or_err, codes, ◌>>=◌, copy, zeros,
}

abbrev pub Str : Type 0
Str = Bytes

unfoldable pub starts_with : Str → Str → Bool
starts_with [] s = true
starts_with (p ∷ ps) [] = false
starts_with (p ∷ ps) (c ∷ cs) = p == c && starts_with ps cs

-- strings.TrimPrefix
unfoldable pub trim_prefix : Str → Str → Str
unfolding starts_with
trim_prefix s prefix = if starts_with prefix s then drop (length prefix) s else s

abbrev pub hex_prefix : Str
hex_prefix = codes "0x"

unfoldable pub hex_digit : ℕ → ℕ
hex_digit d = if ltb d 10 then 48 + d else 87 + d

unfoldable pub hex_value : ℕ → Option ℕ
hex_value c =
    if leb 48 c && leb c 57
    then some (c - 48)
    else if leb 97 c && leb c 102
    then some (c - 87)
    else if leb 65 c && leb c 70
    then some (c - 55)
    else none

-- hex.EncodeToString
unfoldable pub hex_encode : Bytes → Str
unfolding hex_digit
hex_encode [] = []
hex_encode (b ∷ bs) = hex_digit (b / 16) ∷ hex_digit (b % 16) ∷ hex_encode bs

abbrev pub hex_pair : Option ℕ → Option ℕ → Option Bytes → Option Bytes
hex_pair (some h) (some l) (some bs) = some ((h * 16 + l) ∷ bs)
hex_pair _ _ _ = none

-- hex.DecodeString: an odd length and a byte that is no hex digit are errors.
unfoldable pub hex_decode : Str → Option Bytes
unfolding hex_value
hex_decode [] = some []
hex_decode (c ∷ []) = none
hex_decode (c ∷ d ∷ cs) = hex_pair (hex_value c) (hex_value d) (hex_decode cs)

-- fmt.Sprintf("%#x", b): an empty slice prints as nothing at all.
unfoldable pub sprint_hex : Bytes → Str
unfolding hex_encode
sprint_hex [] = []
sprint_hex (b ∷ bs) = hex_prefix ++ hex_encode (b ∷ bs)

unfoldable pub hex_string_to_bytes : Str → Outcome Bytes
unfolding trim_prefix hex_decode
hex_string_to_bytes s = or_err "encoding/hex" (hex_decode (trim_prefix s hex_prefix))

dec_from : ℕ → ℕ → Str → Str
dec_from zero n acc = acc
dec_from (suc f) n acc =
    let acc' : Str = (48 + n % 10) ∷ acc in
    let rest = dec_from f (n / 10) acc' in if ltb n 10 then acc' else rest

-- big.Int.String of a number that is not negative; each round takes a digit, so n + 1 rounds do.
unfoldable pub dec_string : ℕ → Str
unfolding dec_from
dec_string n = dec_from (suc n) n []

-- big.Int.String and Text(10)
unfoldable pub int_string : ℤ → Str
int_string (pos n) = dec_string n
int_string (negsuc n) = b'-' ∷ dec_string (n + 1)

dec_value : ℕ → Str → Option ℕ
dec_value acc [] = some acc
dec_value acc (c ∷ cs) =
    let rest = dec_value (acc * 10 + (c - 48)) cs in if leb 48 c && leb c 57 then rest else none

abbrev negate_some : Option ℕ → Option ℤ
negate_some none = none
negate_some (some n) = some (pos 0 -ℤ pos n)

abbrev pos_some : Option ℕ → Option ℤ
pos_some none = none
pos_some (some n) = some (pos n)

digits_value : Str → Option ℕ
unfolding dec_value
digits_value [] = none
digits_value (c ∷ cs) = dec_value 0 (c ∷ cs)

-- big.Int.SetString(s, 10): an optional sign and at least one digit, and nothing else.
unfoldable pub set_string : Str → Option ℤ
unfolding digits_value ◌-ℤ◌
set_string [] = none
set_string (c ∷ cs) =
    if c == b'-'
    then negate_some (digits_value cs)
    else if c == b'+'
    then pos_some (digits_value cs)
    else pos_some (digits_value (c ∷ cs))

-- abi.U256 of go-ethereum is a parameter: the 32 bytes of an integer.
unfoldable pub int_string_to_bytes : (ℤ → Bytes) → Str → Outcome Bytes
unfolding set_string
int_string_to_bytes u256 s = do n ← or_err "Value not a valid integer" (set_string s); ok (u256 n)

unfoldable pub int_string_to_uint256 : (ℤ → Bytes) → Str → Outcome Bytes
unfolding int_string_to_bytes copy
int_string_to_uint256 u256 s = do b ← int_string_to_bytes u256 s; ok (copy (zeros 32) b)
