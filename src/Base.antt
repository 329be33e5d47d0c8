-- ===== src/Base.antt =====
-- The names that the other modules share: the libraries', passed on, and those of four children.
mod Tests
mod Lists
mod Text
mod Sorted
pub mod Int
pub use Tests.*
pub use Lists.*
unfoldable pub use Text.{
  Bytes, codes, crlf, equal, is_space, lower_byte, upper_byte, to_lower, to_upper, equal_fold,
  has_prefix, has_suffix, trim_left, trim_right, trim_space, cut, cut_on, split, fields, fields_by,
  join, digit, decimal,
}
unfoldable pub use Sorted.{sort_strings}
pub use Sorted.{sort_strings-select-perm, sort_strings-All, sort_strings-any}
pub use Text.Words.*
pub use Text.{equal_iff, equal_refl, cut-append, fields_by-end, split-some, split-cases, join-split}
pub use Prim.Native.Nat.{ℕ, zero, suc, ◌+◌, ◌-◌, ◌*◌, ◌/◌, ◌%◌, ◌≤◌, ◌<◌, min}
pub use mathlib.Core.Path.{◌≡◌, refl, sym, ap, ap₂, ◌∙◌}
pub use mathlib.Core.Logic.{◌≢◌, ◌↔◌, ◌⊎◌, inl, inr}
pub use mathlib.Core.Bool.{Bool, true, false, not, ◌&&◌, ◌||◌}
pub use mathlib.Core.Option.{Option, none, some}
pub use mathlib.Core.List.{List, [], ◌∷◌, ◌++◌, append_assoc, append-nil}
pub use native.Mathlib.Omega.{arith}
