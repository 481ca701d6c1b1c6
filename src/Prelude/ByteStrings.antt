-- ===== src/Prelude/ByteStrings.antt =====
-- Byte strings, and the integers that big.Int.SetBytes reads from them (big-endian).
use Prim.Native.Nat.{ℕ, zero, suc, ◌+◌, ◌*◌, ◌/◌, ◌%◌, ◌^◌, ◌≤◌, ◌<◌}
use mathlib.Core.Path.{◌≡◌, refl, ap, ap₂, ◌∙◌}
use mathlib.Core.Logic.{◌↔◌, inl, inr}
use mathlib.Core.Bool.{Bool, true, false, ◌&&◌, ◌||◌}
use mathlib.Core.List.{List, [], ◌∷◌, ◌++◌}
use native.Mathlib.Omega.{arith}
use native.Mathlib.Nat.{pow-suc, pow-zero}
use openrelay.Prelude.Tests.{ltb, ◌==◌, if◌then◌else◌, Bool-cases}
use openrelay.Prelude.Lists.{length, replicate, All, All-append, length-append, length-replicate}

abbrev pub Byte : Type 0
Byte = ℕ

abbrev pub Bytes : Type 0
Bytes = List Byte

-- `n` bytes, each below 256.
abbrev pub IsBytes : ℕ → Bytes → Type 0
IsBytes n b = (length b ≡ n) × All (λ x. x < 256) b

-- bytes.Equal
unfoldable pub bytes_eq : Bytes → Bytes → Bool
bytes_eq [] [] = true
bytes_eq [] (y ∷ ys) = false
bytes_eq (x ∷ xs) [] = false
bytes_eq (x ∷ xs) (y ∷ ys) = x == y && bytes_eq xs ys

-- bytes.Compare(a, b) < 0
unfoldable pub bytes_lt : Bytes → Bytes → Bool
bytes_lt xs [] = false
bytes_lt [] (y ∷ ys) = true
bytes_lt (x ∷ xs) (y ∷ ys) = ltb x y || (x == y && bytes_lt xs ys)

-- Go's copy: as many bytes as both have room for.
unfoldable pub copy : Bytes → Bytes → Bytes
copy [] src = []
copy (d ∷ ds) [] = d ∷ ds
copy (d ∷ ds) (s ∷ ss) = s ∷ copy ds ss

abbrev pub zeros : ℕ → Bytes
zeros n = replicate n 0

-- What a hash has been given by a row of calls of Write.
abbrev pub writes : List Bytes → Bytes
writes [] = []
writes (x ∷ xs) = x ++ writes xs

unfoldable pub big_from : ℕ → Bytes → ℕ
big_from acc [] = acc
big_from acc (b ∷ bs) = big_from (acc * 256 + b) bs

-- new(big.Int).SetBytes
unfoldable pub big : Bytes → ℕ
unfolding big_from
big bs = big_from 0 bs

-- The low `k` bytes of a number.
unfoldable pub to_bytes : ℕ → ℕ → Bytes
to_bytes zero n = []
to_bytes (suc k) n = to_bytes k (n / 256) ++ (n % 256 ∷ [])

pub bytes_eq_iff : (a b : Bytes) → (bytes_eq a b ≡ true) ↔ (a ≡ b)
unfolding bytes_eq
bytes_eq_iff [] [] = ground arith
bytes_eq_iff [] (y ∷ ys) = ground arith
bytes_eq_iff (x ∷ xs) [] = ground arith
bytes_eq_iff (x ∷ xs) (y ∷ ys) = ground (arith, bytes_eq_iff xs ys)

pub bytes_eq_refl : (a : Bytes) → bytes_eq a a ≡ true
bytes_eq_refl a = (bytes_eq_iff a a).1 refl

-- Equal lengths: the source replaces the destination.
pub copy_full : (d s : Bytes) → length d ≡ length s → copy d s ≡ s
unfolding copy
copy_full [] [] h = refl
copy_full [] (s ∷ ss) h = absurd (omega arith)
copy_full (d ∷ ds) [] h = absurd (omega arith)
copy_full (d ∷ ds) (s ∷ ss) h = ap (λ t. s ∷ t) (copy_full ds ss (omega arith))

pub length-copy : (d s : Bytes) → length (copy d s) ≡ length d
unfolding copy
length-copy [] s = refl
length-copy (d ∷ ds) [] = refl
length-copy (d ∷ ds) (s ∷ ss) = ap suc (length-copy ds ss)

pub IsBytes-copy : (n : ℕ) (d s : Bytes) → IsBytes n d → All (λ x. x < 256) s → IsBytes n (copy d s)
unfolding copy
IsBytes-copy n [] s h k = h
IsBytes-copy n (d ∷ ds) [] h k = h
IsBytes-copy zero (d ∷ ds) (s ∷ ss) h k = absurd (omega arith)
IsBytes-copy (suc n) (d ∷ ds) (s ∷ ss) h k =
    let r = IsBytes-copy n ds ss (omega arith, h.1.1) k.1 in (omega arith, (k.0, r.1))

pub IsBytes-append : (m n : ℕ) (a b : Bytes) → IsBytes m a → IsBytes n b → IsBytes (m + n) (a ++ b)
IsBytes-append m n a b h k =
    (omega (arith, length-append a b), All-append (λ x. x < 256) a b h.1 k.1)

pub length-zeros : (n : ℕ) → length (zeros n) ≡ n
length-zeros n = length-replicate n 0

pub zeros-IsBytes : (n : ℕ) → IsBytes n (zeros n)
zeros-IsBytes zero = omega arith
zeros-IsBytes (suc n) = let r = zeros-IsBytes n in (omega arith, (omega arith, r.1))

-- Byte strings of one length are equal if their integers are.
pub big_from-injective :
    (a b : ℕ) (xs ys : Bytes)
    → length xs ≡ length ys
    → All (λ x. x < 256) xs
    → All (λ x. x < 256) ys
    → big_from a xs ≡ big_from b ys
    → (a ≡ b) × (xs ≡ ys)
unfolding big_from
big_from-injective a b [] [] l hx hy e = (e, refl)
big_from-injective a b [] (y ∷ ys) l hx hy e = absurd (omega arith)
big_from-injective a b (x ∷ xs) [] l hx hy e = absurd (omega arith)
big_from-injective a b (x ∷ xs) (y ∷ ys) l hx hy e =
    let r = big_from-injective (a * 256 + x) (b * 256 + y) xs ys (omega arith) hx.1 hy.1 e in
    (omega arith, ap₂ ◌∷◌ (omega arith) r.1)

pub big-injective :
    (n : ℕ) (xs ys : Bytes) → IsBytes n xs → IsBytes n ys → big xs ≡ big ys → xs ≡ ys
unfolding big
big-injective n xs ys hx hy e = (big_from-injective 0 0 xs ys (omega arith) hx.1 hy.1 e).1

-- On byte strings of one length the order of bytes.Compare is that of the integers.
bytes_lt-big_from :
    (a b : ℕ) (xs ys : Bytes)
    → length xs ≡ length ys
    → All (λ x. x < 256) xs
    → All (λ x. x < 256) ys
    → (a < b → big_from a xs < big_from b ys)
      × (b < a → big_from b ys < big_from a xs)
      × (a ≡ b → (bytes_lt xs ys ≡ true) ↔ (big_from a xs < big_from b ys))
unfolding big_from bytes_lt
bytes_lt-big_from a b [] [] l hx hy =
    (λ h. h, λ h. h, λ e. ((λ t. cc), (λ h. absurd (omega arith))))
bytes_lt-big_from a b [] (y ∷ ys) l hx hy = absurd (omega arith)
bytes_lt-big_from a b (x ∷ xs) [] l hx hy = absurd (omega arith)
bytes_lt-big_from a b (x ∷ xs) (y ∷ ys) l hx hy =
    let r = bytes_lt-big_from (a * 256 + x) (b * 256 + y) xs ys (omega arith) hx.1 hy.1 in
    (λ h. r.0 (omega arith), λ h. r.1 (omega arith), λ e. ground (arith, r.0, r.1, r.2))

pub bytes_lt-big :
    (n : ℕ) (xs ys : Bytes)
    → IsBytes n xs
    → IsBytes n ys
    → (bytes_lt xs ys ≡ true) ↔ (big xs < big ys)
unfolding big
bytes_lt-big n xs ys hx hy = (bytes_lt-big_from 0 0 xs ys (omega arith) hx.1 hy.1).2 refl

big_from-append :
    (a : ℕ) (xs : Bytes) (y : ℕ) → big_from a (xs ++ (y ∷ [])) ≡ big_from a xs * 256 + y
unfolding big_from
big_from-append a [] y = refl
big_from-append a (x ∷ xs) y = big_from-append (a * 256 + x) xs y

pub big-zeros : (n : ℕ) → big (zeros n) ≡ 0
unfolding big big_from
big-zeros zero = refl
big-zeros (suc n) = big-zeros n

pub length-to_bytes : (k n : ℕ) → length (to_bytes k n) ≡ k
unfolding to_bytes
length-to_bytes zero n = refl
length-to_bytes (suc k) n =
    omega (arith, length-append (to_bytes k (n / 256)) (n % 256 ∷ []), length-to_bytes k (n / 256))

pub to_bytes-IsBytes : (k n : ℕ) → IsBytes k (to_bytes k n)
unfolding to_bytes
to_bytes-IsBytes zero n = omega arith
to_bytes-IsBytes (suc k) n =
    let r =
      IsBytes-append k 1 (to_bytes k (n / 256)) (n % 256 ∷ []) (to_bytes-IsBytes k (n / 256))
        (omega arith) in
    (omega arith, r.1)

pub big-to_bytes : (k n : ℕ) → n < 256 ^ k → big (to_bytes k n) ≡ n
unfolding big to_bytes big_from
big-to_bytes zero n h = omega arith
big-to_bytes (suc k) n h =
    big_from-append 0 (to_bytes k (n / 256)) (n % 256)
    ∙ omega (arith, big-to_bytes k (n / 256) (below k h))
  where
    below : (k : ℕ) → n < 256 ^ suc k → n / 256 < 256 ^ k
    below k h = omega (arith, pow-suc 256 k)

mul_mono_left : (q r p : ℕ) → q ≤ r → q * p ≤ r * p
mul_mono_left q r p h = grind arith

digit_bound : (a x p : ℕ) → x < 256 → (a * 256 + x + 1) * p ≤ (a + 1) * (p * 256)
digit_bound a x p h = omega (arith, mul_mono_left (a * 256 + x + 1) ((a + 1) * 256) p (omega arith))

big_from-lt :
    (a : ℕ) (xs : Bytes) → All (λ x. x < 256) xs → big_from a xs < (a + 1) * 256 ^ length xs
unfolding big_from
big_from-lt a [] h = omega (arith, pow-zero 256)
big_from-lt a (x ∷ xs) h =
    rw pow-suc
      (omega (arith, big_from-lt (a * 256 + x) xs h.1, digit_bound a x (256 ^ length xs) h.0))

pub big-lt : (n : ℕ) (xs : Bytes) → IsBytes n xs → big xs < 256 ^ n
unfolding big
big-lt n xs h = rw (← h.0) (omega (arith, big_from-lt 0 xs h.1))

pub to_bytes-big : (n : ℕ) (xs : Bytes) → IsBytes n xs → to_bytes n (big xs) ≡ xs
to_bytes-big n xs h =
    big-injective n (to_bytes n (big xs)) xs (to_bytes-IsBytes n (big xs)) h
      (big-to_bytes n (big xs) (big-lt n xs h))

big_bytes_from : ℕ → ℕ → Bytes → Bytes
big_bytes_from zero n acc = acc
big_bytes_from (suc f) n acc =
    let rest = big_bytes_from f (n / 256) ((n % 256) ∷ acc) in if n == 0 then acc else rest

-- big.Int.Bytes: big-endian, with no leading zero; each round takes a byte, so n + 1 rounds do.
unfoldable pub big_bytes : ℕ → Bytes
unfolding big_bytes_from
big_bytes n = big_bytes_from (suc n) n []

big-big_bytes_from :
    (f n : ℕ) (acc : Bytes) → n < f → big_from 0 (big_bytes_from f n acc) ≡ big_from n acc
unfolding big_from big_bytes_from
big-big_bytes_from zero n acc h = absurd (omega arith)
big-big_bytes_from (suc f) n acc h = elim (Bool-cases (n == 0)) [
  | inl e ↦ rw e (ap (λ k. big_from k acc) (ground arith))
  | inr e ↦ rw e (
      big-big_bytes_from f (n / 256) ((n % 256) ∷ acc) (ground arith)
      ∙ ap (λ k. big_from k acc) (omega arith))
]

-- SetBytes undoes Bytes.
pub big-big_bytes : (n : ℕ) → big (big_bytes n) ≡ n
unfolding big big_from big_bytes big_bytes_from
big-big_bytes n = big-big_bytes_from (suc n) n [] (omega arith)
