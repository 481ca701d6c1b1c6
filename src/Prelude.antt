-- ===== src/Prelude.antt =====
-- The names that all modules share: library names passed on, Boolean tests, lists, integers, byte
-- strings, and the results of Go functions.
mod Tests
mod Lists
mod Int
mod ByteStrings
mod Text
mod Results
pub use Tests.*
pub use Lists.*
pub use Int.{ℤ, pos, negsuc, pos_part, neg_part, sub_ℕ, ◌≤ℤ◌, ltb_ℤ}
unfoldable pub use Int.{◌+ℤ◌, ◌-ℤ◌}
pub use Int.{+ℤ_parts, -ℤ_parts, eq_of_parts, int_laws}
pub use ByteStrings.{Byte, Bytes, IsBytes, zeros, writes}
unfoldable pub use ByteStrings.{bytes_eq, bytes_lt, copy, big_from, big, to_bytes, big_bytes}
pub use ByteStrings.{
  bytes_eq_iff, bytes_eq_refl, copy_full, length-copy, big_from-injective, big-injective,
  bytes_lt-big, big-lt, length-to_bytes, big-to_bytes, to_bytes-IsBytes, to_bytes-big,
  IsBytes-append, IsBytes-copy, length-zeros, zeros-IsBytes, big-zeros, big-big_bytes,
}
pub use Text.{codes}
pub use Results.*
pub use Prim.Native.Nat.{ℕ, zero, suc, ◌+◌, ◌-◌, ◌*◌, ◌/◌, ◌%◌, ◌^◌, ◌≤◌, ◌<◌, min, max}
pub use mathlib.Core.Path.{◌≡◌, refl, sym, ap, ap₂, ◌∙◌, subst}
pub use mathlib.Core.Logic.{◌≢◌, ◌↔◌, ◌⊎◌, inl, inr}
pub use mathlib.Core.Bool.{Bool, true, false, not, ◌&&◌, ◌||◌}
pub use mathlib.Core.Option.{Option, none, some}
pub use mathlib.Core.List.{List, [], ◌∷◌, ◌++◌, map, append_assoc, append-nil}
pub use native.Mathlib.Omega.{arith}
