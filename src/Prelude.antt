-- ===== src/Prelude.antt =====
-- The names that the other modules share: the libraries', passed on, and those of the children.
mod Tests
mod Lists
mod Chunks
mod Bytes
mod Words
mod Outcome
pub use Tests.*
pub use Lists.*
pub use Bytes.{
  Text, text, text_eq, text_eq_sound, text_eq_refl, has_prefix, contains, is_empty, parse_uint32-lt,
}
unfoldable pub use Bytes.{to_lower, trim_space, trim_prefix, parse_uint32}
pub use Bytes.{split_comma}
pub use Words.*
pub use Outcome.{Result, ok, err}
pub use Chunks.{concat, concat-chunks, sizes-chunks}
unfoldable pub use Chunks.{chunks}
pub use Prim.Native.Nat.{ℕ, zero, suc, ◌+◌, ◌-◌, ◌*◌, ◌/◌, ◌%◌, ◌^◌, ◌≤◌, ◌<◌}
pub use Prim.Native.String.{String}
pub use mathlib.Core.Path.{◌≡◌, refl, sym, ap, subst, ◌∙◌}
pub use mathlib.Core.Logic.{◌≢◌, ◌↔◌, ◌⊎◌, inl, inr}
pub use mathlib.Core.Bool.{Bool, true, false, not, ◌&&◌, ◌||◌}
pub use mathlib.Core.Option.{Option, none, some}
pub use mathlib.Core.List.{List, [], ◌∷◌, ◌++◌, map, reverse, append-nil, append_assoc}
pub use native.Mathlib.Omega.{arith}
