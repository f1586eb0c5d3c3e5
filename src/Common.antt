-- ===== src/Common.antt =====
-- The names that the other modules share: the libraries', passed on, and those of the children.
mod Tests
mod Lists
mod Text
mod Rows
pub mod Json
pub use Rows.*
pub use Tests.*
pub use Lists.{length, any, all, is_some, is_empty, length-append}
unfoldable pub use Lists.{first, select, update}
unfoldable pub use Text.{is_blank, strip, text_length, truncate, contains_text, lower_is, text_take}
pub use Text.{text_take-length, strip-IsBlank, text_eq_sym}
pub use Prim.Native.Nat.{ℕ, zero, suc, ◌+◌, ◌-◌, ◌*◌, ◌/◌, ◌%◌, ◌^◌, ◌≤◌, ◌<◌}
pub use Prim.Native.String.{String}
pub use mathlib.Core.Path.{◌≡◌, refl, sym, ap, ◌∙◌, subst}
pub use mathlib.Core.Logic.{◌≢◌, ◌↔◌, ◌⊎◌, inl, inr}
pub use mathlib.Core.Bool.{Bool, true, false, not, ◌&&◌, ◌||◌}
pub use mathlib.Core.Option.{Option, none, some}
pub use mathlib.Core.List.{List, [], ◌∷◌, ◌++◌, map}
pub use native.Mathlib.Omega.{arith}
pub use text.Mathlib.Text.{◌==◌ as text_eq, starts_with}
pub use text.Mathlib.TextEquality.{eq_iff}
