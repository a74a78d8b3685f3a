-- ===== src/Base.antt =====
-- Names and helpers that the modules of the library share: Boolean tests, lists over the native
-- numbers, texts as lists of UTF-16 code units, and JavaScript's `Map`.
pub mod Tests
pub mod Lists
pub mod Strings
pub mod Dict
pub mod Decimal
pub mod Options
pub use Prim.Native.Nat.{ℕ, zero, suc, ◌+◌, ◌-◌, ◌*◌, ◌/◌, ◌%◌, ◌^◌, ◌≤◌, ◌<◌}
pub use Prim.Native.String.{String}
pub use mathlib.Core.Path.{◌≡◌, refl, sym, ap, ◌∙◌}
pub use mathlib.Core.Logic.{◌≢◌, ◌↔◌, ◌⊎◌, inl, inr}
pub use mathlib.Core.Bool.{Bool, true, false, not, ◌&&◌, ◌||◌}
pub use mathlib.Core.Option.{Option, none, some}
pub use mathlib.Core.List.{List, [], ◌∷◌, ◌++◌, map, append-nil, append_assoc}
pub use native.Mathlib.Omega.{arith}
pub use Tests.*
unfoldable pub use Lists.{every, any, find, keep}
pub use Lists.*
unfoldable pub use Strings.{
  text_eq, trim_start, trim_end, is_space, trim, starts_with, includes, join,
}
pub use Strings.{text_eq_iff, text_eq_refl, Text, codes, is_empty, is_digit, is_lower, is_upper}
