-- ===== src/Base.antt =====
-- The names that the other modules share: the libraries', passed on, and those of the children.
mod Tests
mod Lists
mod Int
mod Texts
mod Tables
mod Trimming
pub mod Bytes
pub use Tests.*
pub use Lists.*
pub use Int.*
pub use Texts.{
  Text, codes, text_ltb_irrefl, text_ltb_trans, text_eq_iff, text_eq_refl, is_empty, lower,
  hex_digit,
}
unfoldable pub use Texts.{
  text_eq, is_space, trim_left, trim_right, trim_space, to_lower, has_prefix, replace_all,
  hex_encode, parse_int, text_ltb, contains,
}
pub use Tables.{
  Table, Answers, list_table, list_table-Answers, some_eq, update_rows, first-Has, Has-write,
  Has-update, Has-create,
}
pub use Trimming.{trim_space-trim_space}
unfoldable pub use Tables.{first, count, write}
pub use Prim.Native.Nat.{ℕ, zero, suc, ◌+◌, ◌-◌, ◌*◌, ◌/◌, ◌%◌, ◌^◌, ◌≤◌, ◌<◌}
pub use mathlib.Core.Path.{◌≡◌, refl, sym, ap, ◌∙◌, subst, fun_ext}
pub use mathlib.Core.Logic.{◌≢◌, ◌↔◌, ◌⊎◌, inl, inr}
pub use mathlib.Core.Bool.{Bool, true, false, not, ◌&&◌, ◌||◌}
pub use mathlib.Core.Option.{Option, none, some}
pub use mathlib.Core.List.{List, [], ◌∷◌, ◌++◌, map, append-nil, append_assoc}
pub use native.Mathlib.Omega.{arith}
