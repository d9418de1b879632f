-- ===== src/Common.antt =====
-- The names that the other modules share: the libraries', passed on, and those of the children.
mod Tests
mod Lists
pub mod Decimal
mod Texts
mod Keys
mod Maps
mod Panics
mod Int
mod Slices
pub use Tests.*
pub use Lists.*
unfoldable pub use Decimal.{format_nat, format_int, parse_int, parse_uint}
pub use Texts.{Text, or_empty, txt, text_eq_iff, text_eq_refl}
unfoldable pub use Texts.{text_eq}
pub use Keys.{Eq, text_Eq, ObjectKey, key_eq_iff, key_Eq, nat_Eq}
unfoldable pub use Keys.{key_eq}
pub use Maps.{is_some, lookup-insert, lookup-delete, length-insert, lookup-insert_self}
unfoldable pub use Maps.{lookup, insert, delete}
pub use Panics.*
pub use Int.{
  ℤ, pos, negsuc, pos_part, neg_part, sub_ℕ, ◌≤ℤ◌, leb_ℤ, ltb_ℤ, -ℤ_parts, eq_of_parts, int_laws,
}
unfoldable pub use Int.{◌-ℤ◌}
pub use Slices.{Slice, write_at, share, elements, set_element, append_element}
pub use Slices.Elements.*
pub use Prim.Native.Nat.{ℕ, zero, suc, ◌+◌, ◌-◌, ◌*◌, ◌/◌, ◌%◌, ◌^◌, ◌≤◌, ◌<◌, min}
pub use Prim.Native.String.{String}
pub use text.Mathlib.Text.{◌==◌ as str_eq}
pub use text.Mathlib.TextEquality.{eq_iff}
pub use mathlib.Core.Path.{◌≡◌, refl, sym, ap, ◌∙◌}
pub use mathlib.Core.Logic.{◌≢◌, ◌↔◌, ◌⊎◌, inl, inr}
pub use mathlib.Core.Bool.{Bool, true, false, not, ◌&&◌, ◌||◌}
pub use mathlib.Core.Option.{Option, none, some}
pub use mathlib.Core.List.{List, [], ◌∷◌, ◌++◌, map}
pub use native.Mathlib.Omega.{arith}
