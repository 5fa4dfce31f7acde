-- ===== src/Base.antt =====
-- The names that the other modules share: the libraries', passed on, and those of the children.
mod Tests
mod Lists
mod Int
mod Effects
mod Float
mod Memory
mod CString
pub mod Decimal
pub mod Hundredths
pub mod Kernel
pub mod Descriptors
pub use Tests.*
pub use Lists.*
pub use Int.*
pub use Effects.*
pub use Memory.{word, store_within, store_behind, store_next}
unfoldable pub use Memory.{store}
pub use CString.{
  IsString, codes, line, c_string-terminated, strcmp_eq_iff, c_string-strncpy, length-strncpy,
  c_string-strcpy, length-strcpy,
}
unfoldable pub use CString.{c_string, strcmp_eq, strncmp_eq, strncpy, strcpy}
pub use Float.{FloatLaws}
pub use Float.{Float as FloatType}
pub use Prim.Native.Nat.{ℕ, zero, suc, ◌+◌, ◌-◌, ◌*◌, ◌/◌, ◌%◌, ◌^◌, ◌≤◌, ◌<◌, min}
pub use mathlib.Core.Path.{◌≡◌, refl, sym, ap, subst, ◌∙◌}
pub use mathlib.Core.Logic.{◌≢◌, ◌↔◌, ◌⊎◌, inl, inr}
pub use mathlib.Core.Bool.{Bool, true, false, not, ◌&&◌, ◌||◌}
pub use mathlib.Core.Option.{Option, none, some}
pub use mathlib.Core.List.{List, [], ◌∷◌, ◌++◌, map}
pub use native.Mathlib.Omega.{arith}
