-- ===== src/Terms/Mask.antt =====
-- db/terms.go: what it means for a hash to match a mask.
use openrelay.Prelude.{
  ℕ, zero, suc, ◌+◌, ◌*◌, ◌/◌, ◌%◌, ◌≤◌, ◌≡◌, ◌↔◌, true, Bytes, big, ==_iff, arith, ap,
}
use openrelay.Terms.{and_bits, check_mask}

-- Bit `i` of a number.
abbrev pub bit : ℕ → ℕ → ℕ
bit n zero = n % 2
bit n (suc i) = bit (n / 2) i

-- A conjunction's lowest bit and the rest of it.
split : (h m p : ℕ) → (h % 2 * (m % 2) + p * 2 ≡ m) ↔ ((h % 2 * (m % 2) ≡ m % 2) × (p ≡ m / 2))
split h m p = grind arith

low : (h m : ℕ) → h % 2 * (m % 2) ≡ m % 2 → m % 2 ≡ 1 → h % 2 ≡ 1
low h m e o = grind arith

low' : (h m : ℕ) → (m % 2 ≡ 1 → h % 2 ≡ 1) → h % 2 * (m % 2) ≡ m % 2
low' h m f = grind arith

bit_zero : (i : ℕ) → bit 0 i ≡ 0
bit_zero zero = omega arith
bit_zero (suc i) = bit_zero i

covers : (n h m : ℕ) → m ≤ n → and_bits n h m ≡ m → (i : ℕ) → bit m i ≡ 1 → bit h i ≡ 1
unfolding and_bits
covers zero h m le e i o =
    let z : m ≡ 0 = omega arith in absurd (omega (arith, ap (λ x. bit x i) z, bit_zero i))
covers (suc n) h m le e zero o = low h m ((split h m (and_bits n (h / 2) (m / 2))).0 e).0 o
covers (suc n) h m le e (suc i) o =
    covers n (h / 2) (m / 2) (omega arith) ((split h m (and_bits n (h / 2) (m / 2))).0 e).1 i o

covered : (n h m : ℕ) → m ≤ n → ((i : ℕ) → bit m i ≡ 1 → bit h i ≡ 1) → and_bits n h m ≡ m
unfolding and_bits
covered zero h m le f = omega arith
covered (suc n) h m le f =
    (split h m (and_bits n (h / 2) (m / 2))).1
      (low' h m (f 0), covered n (h / 2) (m / 2) (omega arith) (λ i. f (suc i)))

-- A hash matches a mask exactly if every bit that is 1 in the mask is 1 in the hash.
pub check_mask_iff :
    (mask hash : Bytes)
    → (check_mask mask hash ≡ true) ↔ ((i : ℕ) → bit (big mask) i ≡ 1 → bit (big hash) i ≡ 1)
unfolding check_mask
check_mask_iff mask hash = (
  λ e.
      covers (big mask) (big hash) (big mask) (omega arith)
        ((==_iff (and_bits (big mask) (big hash) (big mask)) (big mask)).0 e),
  λ f.
      (==_iff (and_bits (big mask) (big hash) (big mask)) (big mask)).1
        (covered (big mask) (big hash) (big mask) (omega arith) f),
)
