-- ===== src/Symbols.antt =====
-- SymbolTableProvider of src/symbol.cc: how a name in the scope of a breakpoint or of an instance is
-- resolved. A variable of a scope is its name there with the row of Variable that it stands for.
pub mod Scopes
pub mod Delayed
mod Examples
use hgdb.Prelude.{
  Text, codes, ℕ, Bool, true, false, ◌&&◌, ◌||◌, ◌==◌, if◌then◌else◌, Option, none, some, ◌>>=◌,
  List, [], ◌∷◌, ◌++◌, text_eq,
}
use hgdb.Interfaces.{BreakPoint}
use hgdb.Util.{get_tokens}

pub record Variable : Type 0 where
  pub name : Text
  pub value : Text
  pub is_rtl : Bool

-- The queries that are answered by the database behind the table.
pub record Tables : Type 0 where
  pub get_breakpoint : ℕ → Option BreakPoint
  pub get_instance_name : ℕ → Option Text
  pub get_context_variables : ℕ → List Variable
  pub get_generator_variable : ℕ → List Variable

-- A breakpoint without an instance is undefined behaviour, the outer option.
unfoldable pub get_instance_name_from_bp : Tables → ℕ → Option (Option Text)
get_instance_name_from_bp t id = elim (t.get_breakpoint id) [
  | none ↦ some none
  | some bp ↦ bp.instance_id >>= λ i. some (t.get_instance_name i)
]

-- The loop of rtl_equivalent over tokens, with the comparison of their numbers.
unfoldable pub same_tokens : List Text → List Text → Bool
same_tokens [] [] = true
same_tokens (a ∷ xs) (b ∷ ys) = text_eq a b && same_tokens xs ys
same_tokens _ _ = false

unfoldable pub rtl_equivalent : Text → Text → Bool
unfolding same_tokens
rtl_equivalent a b = same_tokens (get_tokens a (codes "[].")) (get_tokens b (codes "[]."))

unfoldable pub starts_with : Text → Text → Bool
starts_with s [] = true
starts_with [] (c ∷ prefix) = false
starts_with (d ∷ s) (c ∷ prefix) = d == c && starts_with s prefix

abbrev pub matches : Text → Variable → Bool
matches scoped_name v = rtl_equivalent v.name scoped_name || text_eq v.value scoped_name

-- The value, with the instance before it unless it is there already, or the value is no signal.
unfoldable pub scoped_value : Text → Variable → Text
unfolding starts_with
scoped_value inst_name v =
    if v.is_rtl
    then (if starts_with v.value inst_name then v.value else inst_name ++ codes "." ++ v.value)
    else v.value

-- The loop over the variables.
unfoldable pub resolve_in : Text → Text → List Variable → Option Text
unfolding scoped_value
resolve_in inst_name scoped_name [] = none
resolve_in inst_name scoped_name (v ∷ vars) =
    let later = resolve_in inst_name scoped_name vars in
    if matches scoped_name v then some (scoped_value inst_name v) else later

abbrev pub backwards : List Variable → List Variable
backwards [] = []
backwards (v ∷ vars) = backwards vars ++ v ∷ []

-- The newest variable of a breakpoint's scope is the last one; the outer option is undefined behaviour.
unfoldable pub resolve_scoped_name_breakpoint : Tables → Text → ℕ → Option (Option Text)
unfolding get_instance_name_from_bp
resolve_scoped_name_breakpoint t scoped_name id = get_instance_name_from_bp t id >>= λ name. some (
    name >>= λ inst_name. resolve_in inst_name scoped_name (backwards (t.get_context_variables id)))

unfoldable pub resolve_scoped_name_instance : Tables → Text → ℕ → Option Text
resolve_scoped_name_instance t scoped_name id = t.get_instance_name id >>= λ inst_name.
    resolve_in inst_name scoped_name (t.get_generator_variable id)
