-- ===== src/Prelude.antt =====
-- What the modules share: the libraries' names passed on, tests on numbers, lists indexed by
-- native numbers, texts as lists of bytes, and 64-bit signed integers.
pub mod Tests
pub mod Lists
pub mod Texts
pub mod Maps
pub mod Int
pub use Tests.{ltb, leb, ◌==◌, if◌then◌else◌, ==_iff, Bool-cases, Option-cases, is_some}
pub use Tests.{&&_true, &&_intro, or_else, ◌>>=◌, >>=-eq-some}
pub use Lists.{
  length, get_elem?, set, take, drop, All, All-append, length-append, elem, is_empty, get_elem?-lt,
  lt-get_elem?, length-set,
}
unfoldable pub use Texts.{text_eq}
pub use Texts.{Text, codes, text_eq_iff, text_eq_refl, text_eq_sym}
pub use Prim.Native.Nat.{ℕ, zero, suc, ◌+◌, ◌-◌, ◌*◌, ◌/◌, ◌%◌, ◌^◌, ◌≤◌, ◌<◌}
pub use mathlib.Core.Path.{◌≡◌, refl, sym, ap, ◌∙◌, subst}
pub use mathlib.Core.Logic.{◌≢◌, ◌↔◌, ◌⊎◌, inl, inr}
pub use mathlib.Core.Bool.{Bool, true, false, ◌&&◌, ◌||◌, not}
pub use mathlib.Core.Option.{Option, none, some}
pub use mathlib.Core.List.{List, [], ◌∷◌, ◌++◌, map, append-nil, append_assoc}
pub use native.Mathlib.Omega.{arith}
