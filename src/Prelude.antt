-- ===== src/Prelude.antt =====
-- The names that every module of the development shares: those of the libraries, passed on, the
-- tests on numbers, lists over the native numbers, and texts.
mod Tests
mod Lists
mod Strings
pub use Tests.*
pub use Lists.*
pub use Strings.{Text, codes, text_eq_iff, text_eq_refl, IsVisible, trim-visible}
unfoldable pub use Strings.{text_eq, starts_with, includes, is_space, trim}
pub use Prim.Native.Nat.{ℕ, zero, suc, ◌+◌, ◌-◌, ◌*◌, ◌/◌, ◌%◌, ◌^◌, ◌≤◌, ◌<◌}
pub use Prim.Native.String.{String}
pub use mathlib.Core.Path.{◌≡◌, refl, sym, ap, ◌∙◌}
pub use mathlib.Core.Logic.{◌≢◌, ◌↔◌, ◌⊎◌, inl, inr}
pub use mathlib.Core.Bool.{Bool, true, false, not, ◌&&◌, ◌||◌}
pub use mathlib.Core.Option.{Option, none, some}
pub use mathlib.Core.List.{List, [], ◌∷◌, ◌++◌, map}
pub use native.Mathlib.Omega.{arith}
pub use text.Mathlib.Text.{◌==◌ as str_eq}
pub use text.Mathlib.TextEquality.{eq_iff}
