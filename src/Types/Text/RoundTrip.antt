-- ===== src/Types/Text/RoundTrip.antt =====
-- types/util.go: what is printed is parsed back.
use openrelay.Prelude.{
  ℕ, zero, suc, ◌+◌, ◌*◌, ◌/◌, ◌%◌, ◌<◌, ◌≤◌, ◌≡◌, refl, ◌∙◌, ap, Option, some, [], ◌∷◌, Bytes, All,
  arith, ltb, pos, ok, Bool-cases, inl, inr, ltb→lt, tests, le→leb,
}
use openrelay.Types.Text.{
  Str, hex_digit, hex_value, hex_encode, hex_decode, sprint_hex, hex_string_to_bytes, dec_from,
  dec_string, dec_value, digits_value, set_string, trim_prefix, starts_with, hex_prefix,
}

hex_value-hex_digit : (d : ℕ) → d < 16 → hex_value (hex_digit d) ≡ some d
unfolding hex_value hex_digit
hex_value-hex_digit d h = ground arith

pub hex_decode-hex_encode : (b : Bytes) → All (λ x. x < 256) b → hex_decode (hex_encode b) ≡ some b
unfolding hex_decode hex_encode
hex_decode-hex_encode [] h = refl
hex_decode-hex_encode (b ∷ bs) h =
    rw
      (
        hex_value-hex_digit (b / 16) (omega arith),
        hex_value-hex_digit (b % 16) (omega arith),
        hex_decode-hex_encode bs h.1,
      )
      (ap {B = Option Bytes} (λ t. some (t ∷ bs)) (omega arith))

-- Every byte string is read back from the text that Sprintf("%#x") makes of it.
pub hex_string_to_bytes-sprint_hex :
    (b : Bytes) → All (λ x. x < 256) b → hex_string_to_bytes (sprint_hex b) ≡ ok b
unfolding hex_string_to_bytes sprint_hex
hex_string_to_bytes-sprint_hex [] h = refl
hex_string_to_bytes-sprint_hex (b ∷ bs) h = rw (hex_decode-hex_encode (b ∷ bs) h)

dec_value-digit :
    (a n : ℕ) (acc : Str)
    → a * 10 + n % 10 ≡ n
    → dec_value a ((48 + n % 10) ∷ acc) ≡ dec_value n acc
unfolding dec_value
dec_value-digit a n acc e =
    rw (le→leb 48 (48 + n % 10) (omega arith), le→leb (48 + n % 10) 57 (omega arith))
      (ap (λ t. dec_value t acc) (omega arith))

-- Reading the printed digits of `n` and then a text is reading that text with `n` read before.
dec_value-dec_from :
    (f n : ℕ) (acc : Str) → n < f → dec_value 0 (dec_from f n acc) ≡ dec_value n acc
unfolding dec_from
dec_value-dec_from zero n acc h = absurd (omega arith)
dec_value-dec_from (suc f) n acc h = elim (Bool-cases (ltb n 10)) [
  | inl small ↦ rw small (dec_value-digit 0 n acc (omega (tests, ltb→lt n 10 small)))
  | inr large ↦ rw large (
      dec_value-dec_from f (n / 10) ((48 + n % 10) ∷ acc) (ground arith)
      ∙ dec_value-digit (n / 10) n acc (omega arith))
]

abbrev BeginsWithDigit : Str → Type 0
BeginsWithDigit [] = ⊥
BeginsWithDigit (c ∷ cs) = 48 ≤ c

dec_from-BeginsWithDigit :
    (f n : ℕ) (acc : Str) → BeginsWithDigit acc → BeginsWithDigit (dec_from f n acc)
unfolding dec_from
dec_from-BeginsWithDigit zero n acc h = h
dec_from-BeginsWithDigit (suc f) n acc h = elim (Bool-cases (ltb n 10)) [
  | inl small ↦ rw small (omega arith)
  | inr large ↦ rw large (dec_from-BeginsWithDigit f (n / 10) ((48 + n % 10) ∷ acc) (omega arith))
]

dec_string-BeginsWithDigit : (n : ℕ) → BeginsWithDigit (dec_string n)
unfolding dec_string dec_from
dec_string-BeginsWithDigit n = elim (Bool-cases (ltb n 10)) [
  | inl small ↦ rw small (omega arith)
  | inr large ↦ rw large (dec_from-BeginsWithDigit n (n / 10) ((48 + n % 10) ∷ []) (omega arith))
]

-- A text that begins with a digit has no sign.
set_string_of_digits :
    (s : Str) (n : ℕ) → BeginsWithDigit s → dec_value 0 s ≡ some n → set_string s ≡ some (pos n)
unfolding set_string digits_value
set_string_of_digits [] n h e = absurd h
set_string_of_digits (c ∷ cs) n h e = ground arith

-- SetString(n.String(), 10) gives back `n`, at every size.
pub set_string-dec_string : (n : ℕ) → set_string (dec_string n) ≡ some (pos n)
unfolding dec_string dec_value
set_string-dec_string n =
    set_string_of_digits (dec_string n) n (dec_string-BeginsWithDigit n)
      (dec_value-dec_from (suc n) n [] (omega arith))

-- The decoders that trim the prefix read back what Sprintf("%#x") printed.
pub hex_decode-sprint_hex :
    (b : Bytes) → All (λ x. x < 256) b → hex_decode (trim_prefix (sprint_hex b) hex_prefix) ≡ some b
unfolding sprint_hex trim_prefix starts_with hex_decode
hex_decode-sprint_hex [] h = refl
hex_decode-sprint_hex (x ∷ xs) h = hex_decode-hex_encode (x ∷ xs) h
