-- ===== src/Simulator/Names.antt =====
-- The names of src/rtl.cc: get_path, get_full_name, resolve_rtl_path and match.
use hgdb.Prelude.{
  Text, codes, ℕ, zero, suc, ◌+◌, ◌-◌, ltb, ◌==◌, Bool, true, false, not, if◌then◌else◌, Option,
  none, some, ◌>>=◌, List, [], ◌∷◌, ◌++◌, length, get_elem?, take, drop, is_empty, text_eq,
}
use hgdb.Prelude.Maps.{contains, nat_key}
use hgdb.Symbols.{starts_with}
use hgdb.Util.{get_tokens, remove_empty, join_rest}
use hgdb.Simulator.{Client}

-- Before the first dot, and behind it.
unfoldable pub get_path : Text → Text × Text
get_path [] = ([], [])
get_path (c ∷ name) =
    let (top, path) = get_path name in if c == b'.' then ([], name) else (c ∷ top, path)

abbrev pub root_name : Text
root_name = codes "$root."

-- prefix.substr(0, prefix.size() - 1); of an empty prefix nothing is cut.
abbrev pub without_last : Text → Text
without_last [] = []
without_last (c ∷ s) = take (length s) (c ∷ s)

unfoldable pub full_name_of : Text × Text → Text → Text
unfolding starts_with get_path
full_name_of (mapped, prefix) name =
    let (top, path) = get_path name in
    if starts_with name root_name
    then drop (length root_name) name
    else if not (text_eq mapped top)
    then name
    else if is_empty path
    then without_last prefix
    else prefix ++ path

unfoldable pub get_full_name : Client → Text → Text
unfolding full_name_of
get_full_name c name = full_name_of c.hierarchy_name_prefix name

unfoldable pub is_absolute_path : Client → Text → Bool
unfolding get_path
is_absolute_path c name = text_eq c.hierarchy_name_prefix.0 (get_path name).0

-- The loop of resolve_rtl_path, from the token behind `previous` on: a token that is $parent goes,
-- and the one before it.
unfoldable pub drop_parents : Text → List Text → List Text
drop_parents previous [] = previous ∷ []
drop_parents previous (t ∷ ts) =
    let removed = [] ∷ drop_parents [] ts in
    let kept = previous ∷ drop_parents t ts in if text_eq t (codes "$parent") then removed else kept

-- fmt::join, which takes an empty list.
abbrev pub join_all : List Text → Text → Text
join_all [] sep = []
join_all (t ∷ ts) sep = t ++ join_rest ts sep

abbrev without_parents : List Text → List Text
without_parents [] = []
without_parents (t ∷ ts) = remove_empty (drop_parents t ts)

unfoldable pub resolve_rtl_path : Text → Text
unfolding drop_parents contains remove_empty join_rest
resolve_rtl_path path =
    if not (contains b'$' path)
    then path
    else join_all (without_parents (get_tokens path (codes "."))) (codes ".")

-- The loop of match, from the last token backwards: `i` rounds are done and `n` are left. An index
-- below 0 is undefined behaviour.
unfoldable pub match_from : ℕ → ℕ → List Text → List Text → Option Bool
match_from zero i tokens full_tokens = some true
match_from (suc n) i tokens full_tokens = elim (ltb i (length full_tokens)) [
  | false ↦ none
  | true ↦ get_elem? tokens (length tokens - 1 - i) >>= λ t_value.
      get_elem? full_tokens (length full_tokens - 1 - i) >>= λ ref_value.
      elim (text_eq t_value ref_value) [
        | false ↦ some false
        | true ↦ match_from n (suc i) tokens full_tokens
      ]
]

-- Whether the tokens are the last ones of the full name, and the prefix up to the first of them.
unfoldable pub match_tokens : List Text → List Text → Option (Bool × Text)
unfolding match_from join_rest
match_tokens full_tokens tokens =
    let matched : Option (Bool × Text) = match_from (length tokens) 0 tokens full_tokens >>= λ same.
    some (
      if same
      then (
        true,
        join_all (take (length full_tokens - length tokens + 1) full_tokens) (codes ".")
            ++ codes ".",
      )
      else (false, [])) in
    if is_empty tokens
    then some (false, [])
    else if ltb (length full_tokens) (length tokens - 1)
    then some (false, [])
    else matched

unfoldable pub match : Text → List Text → Option (Bool × Text)
unfolding match_tokens
match full_name tokens = match_tokens (get_tokens full_name (codes ".")) tokens
