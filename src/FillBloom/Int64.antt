-- ===== src/FillBloom/Int64.antt =====
-- fillbloom/fillbloom.go: block numbers as int64, in the range where nothing wraps around.
use openrelay.Prelude.{ℕ, ◌+◌, ◌^◌, ◌≡◌, ◌≤◌, ◌<◌, refl, ltb, lt→ltb, pos, arith}
use openrelay.FillBloom.{lt_int64, add_int64, min_int64, new_int}

pub lt_int64_lem : (a b : ℕ) → a < 2 ^ 63 → b < 2 ^ 63 → lt_int64 a b ≡ ltb a b
lt_int64_lem a b h k = ground arith

pub add_int64_lem : (a b : ℕ) → a + b < 2 ^ 63 → add_int64 a b ≡ a + b
add_int64_lem a b h = omega arith

pub min_int64_lem : (a b n : ℕ) → a < 2 ^ 63 → b < 2 ^ 63 → n ≤ b → n ≤ a → n ≤ min_int64 a b
min_int64_lem a b n h k l m = ground arith

pub new_int_lem : (a : ℕ) → a < 2 ^ 63 → new_int a ≡ pos a
new_int_lem a h = rw (lt→ltb a (2 ^ 63) h) refl

pub min_int64-lt : (a b : ℕ) → a < 2 ^ 63 → b < 2 ^ 63 → min_int64 a b < 2 ^ 63
min_int64-lt a b h k = ground arith
