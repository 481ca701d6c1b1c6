-- ===== src/Prelude/Results.antt =====
-- How a Go call ends: with a value, with an error that is returned, or with a panic.
use mathlib.Core.Path.{◌≡◌, refl}
use mathlib.Core.Bool.{Bool, true, false}
use mathlib.Core.Option.{Option, none, some}
use mathlib.Core.Logic.{◌≢◌}
use Prim.Native.String.{String}

pub data Outcome {ℓ} (A : Type ℓ) : Type ℓ where
  ok : A → Outcome A
  err : String → Outcome A
  panic : Outcome A

infixl 5 ◌>>=◌
abbrev pub ◌>>=◌ {ℓ κ} : {A : Type ℓ} {B : Type κ} → Outcome A → (A → Outcome B) → Outcome B
ok a >>= f = f a
err e >>= f = err e
panic >>= f = panic

-- A library call that fails with the error `e`.
abbrev pub or_err {ℓ} : {A : Type ℓ} → String → Option A → Outcome A
or_err e none = err e
or_err e (some a) = ok a

-- An index or slice expression: out of range, it panics.
abbrev pub or_panic {ℓ} : {A : Type ℓ} → Option A → Outcome A
or_panic none = panic
or_panic (some a) = ok a

abbrev pub is_panic {ℓ} : {A : Type ℓ} → Outcome A → Bool
is_panic panic = true
is_panic (ok a) = false
is_panic (err e) = false

pub ok-injective {ℓ} : {A : Type ℓ} (a b : A) → ok a ≡ ok b → a ≡ b
ok-injective a b e = cc

pub err-ok {ℓ} : {A : Type ℓ} (s : String) (a : A) → err s ≢ ok a
err-ok s a e = cc

pub panic-ok {ℓ} : {A : Type ℓ} (a : A) → panic ≢ ok a
panic-ok a e = cc

-- A chain that ends with a value has one after its first call.
pub bind-ok {ℓ κ} :
    {A : Type ℓ} {B : Type κ} (m : Outcome A) (f : A → Outcome B) (b : B)
    → (m >>= f) ≡ ok b
    → (a : A) × ((m ≡ ok a) × (f a ≡ ok b))
bind-ok (ok a) f b e = (a, (refl, e))
bind-ok (err s) f b e = absurd (err-ok s b e)
bind-ok panic f b e = absurd (panic-ok b e)
