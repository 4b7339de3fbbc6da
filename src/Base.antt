-- ===== src/Base.antt =====
-- The names that the other modules share: the libraries', passed on, and those of its children.
mod Tests
mod Lists
mod Strings
mod Sort
mod Split
pub use Tests.*
pub use Lists.{
  length, take, drop, length-append, length-take-le, take-append, drop-append, select-append,
  any-append, select-select, select-select_none, select-map, All, All-append, All-select,
  All-implies, All-both, All-map, any-map, any-none, any-select, All-select-implies, All-none,
  AllPairs, AllPairs-append, AllPairs-select, AllPairs-map,
}
unfoldable pub use Lists.{select, any, find}
pub use Strings.{Text, codes, beq_iff, beq_refl, ne_of_beq}
unfoldable pub use Strings.{
  beq, has_prefix, contains, has, contains_any, is_space, trim_left, trim, trim_space, lower,
  to_lower,
}
pub use Sort.{insert_by-perm, sort_by-perm, Ascending, sort_by-Ascending, find-sort_by}
unfoldable pub use Sort.{text_le, insert_by, sort_by}
pub use Split.{split_first-append, split_first-whole}
unfoldable pub use Split.{split_first, split}
pub use Prim.Native.Nat.{ℕ, zero, suc, ◌+◌, ◌-◌, ◌*◌, ◌/◌, ◌%◌, ◌^◌, ◌≤◌, ◌<◌}
pub use mathlib.Core.Path.{◌≡◌, refl, sym, ap, subst, ◌∙◌}
pub use mathlib.Core.Logic.{◌≢◌, ◌↔◌, ◌⊎◌, inl, inr}
pub use mathlib.Core.Bool.{Bool, true, false, not, ◌&&◌, ◌||◌}
pub use mathlib.Core.Option.{Option, none, some}
pub use mathlib.Core.List.{List, [], ◌∷◌, ◌++◌, map, append-nil, append_assoc}
pub use native.Mathlib.Omega.{arith}
