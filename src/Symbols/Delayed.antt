-- ===== src/Symbols/Delayed.antt =====
-- The delayed variables, the static values and the paths of src/symbol.cc.
use hgdb.Prelude.{
  Text, codes, ℕ, zero, suc, ◌-◌, ◌%◌, ◌^◌, ◌==◌, Bool, true, false, not, ◌&&◌, ◌||◌, if◌then◌else◌,
  Option, none, some, ◌>>=◌, List, [], ◌∷◌, ◌++◌, is_empty, take, drop, length,
}
use hgdb.Prelude.Int.{ℤ}
use hgdb.Prelude.Maps.{emplace, text_key}
use hgdb.Eval.Debug.{correct}
use hgdb.Eval.Grammar.{debug_expression}
use hgdb.Eval.Lexer.{is_digit}
use hgdb.Util.Numbers.{stol, stoul}
use hgdb.Symbols.{starts_with}

-- A context variable, with the row of Variable that it stands for: the type is whether it is delayed.
pub record ContextVariable : Type 0 where
  pub name : Text
  pub is_delayed : Bool
  pub depth : ℕ
  pub value : Text
  pub is_rtl : Bool

-- A row that get_context_delayed_variables makes, all of which are delayed signals.
pub record DelayedRow : Type 0 where
  pub name : Text
  pub depth : ℕ
  pub id : ℕ
  pub value : Text

-- The position of the first dot.
unfoldable pub find_dot : Text → Option ℕ
find_dot [] = none
find_dot (c ∷ s) =
    let later = find_dot s >>= λ i. some (suc i) in if c == b'.' then some 0 else later

abbrev depth_str : Text
depth_str = codes "$depth"

-- substr takes as many bytes as stand before the dot, from behind the prefix on.
unfoldable pub parse_depth : Text → Option ℕ
unfolding starts_with find_dot stoul
parse_depth name =
    let end_pos = find_dot name in
    let depth =
      end_pos >>= λ e. stoul (take e (drop (length depth_str) name)) >>= λ v. some (v % 2 ^ 32) in
    if starts_with name depth_str then depth else none

-- id_allocator_--, on 32 bits.
abbrev pub next_id : ℕ → ℕ
next_id zero = 2 ^ 32 - 1
next_id (suc n) = n

-- The lambda add_ctx on the symbols of a variable that have a depth.
unfoldable pub add_rows : (Text → Option ℕ) → Text → List Text → ℕ → List DelayedRow × ℕ
add_rows depth_of name [] id = ([], id)
add_rows depth_of name (n ∷ syms) id =
    let skipped = add_rows depth_of name syms id in
    let (rows, id') = add_rows depth_of name syms (next_id id) in
    elim (depth_of n) [
      | none ↦ skipped
      | some depth ↦ (record { name = name; depth = depth; id = id; value = n } ∷ rows, id')
    ]

-- A delayed variable has its own depth for every symbol, any other that of a symbol with the prefix.
abbrev pub depth_in : ContextVariable → Text → Option ℕ
depth_in v symbol = if v.is_delayed then some v.depth else parse_depth symbol

unfoldable pub get_context_delayed_variables :
    List ContextVariable → ℕ → Option (List DelayedRow × ℕ)
unfolding debug_expression correct add_rows
get_context_delayed_variables [] id = some ([], id)
get_context_delayed_variables (v ∷ vars) id = elim v.is_rtl [
  | false ↦ get_context_delayed_variables vars id
  | true ↦ debug_expression v.value >>= λ e. elim (correct e) [
    | false ↦ get_context_delayed_variables vars id
    | true ↦
        let (rows, id₁) = add_rows (depth_in v) v.name e.symbols_str id in
        get_context_delayed_variables vars id₁ >>= λ (more, id₂). some (rows ++ more, id₂)
  ]
]

abbrev all_digits : Text → Bool
all_digits [] = true
all_digits (c ∷ s) = is_digit c && all_digits s

-- The loop of get_context_static_values, from the last variable to the first. std::stoll throws on an
-- empty text, which has no byte that is no digit, and on a number out of its range.
unfoldable pub get_context_static_values : List ContextVariable → Option (List (Text × ℤ))
unfolding stol emplace
get_context_static_values [] = some []
get_context_static_values (v ∷ vars) = do
  values ← get_context_static_values vars
  let number = stol v.value >>= λ n. some (emplace v.name n values)
  if not v.is_rtl && all_digits v.value then number else some values

-- resolve, where `relative` is std::filesystem::relative, with none for an error, and `join` the
-- operator / of paths.
unfoldable pub resolve :
    (Text → Text → Option Text) → (Text → Text → Text) → Text → Text → Text → Text
unfolding starts_with
resolve relative join src_path dst_path target =
    let remapped : Text = elim (relative target src_path) [
      | none ↦ target
      | some path ↦ join dst_path path
    ] in
    if is_empty src_path || starts_with target src_path then remapped else target

-- The map of paths is sorted by its keys.
unfoldable pub resolve_filename_to_db :
    (Text → Text → Option Text) → (Text → Text → Text) → List (Text × Text) → Text → Text
unfolding starts_with resolve
resolve_filename_to_db relative join [] filename = filename
resolve_filename_to_db relative join ((src_path, dst_path) ∷ remap) filename =
    let later = resolve_filename_to_db relative join remap filename in
    if starts_with filename src_path
    then resolve relative join src_path dst_path filename
    else later

unfoldable pub resolve_filename_to_client :
    (Text → Text → Option Text) → (Text → Text → Text) → List (Text × Text) → Text → Text
unfolding starts_with resolve
resolve_filename_to_client relative join [] filename = filename
resolve_filename_to_client relative join ((dst_path, src_path) ∷ remap) filename =
    let later = resolve_filename_to_client relative join remap filename in
    if is_empty src_path || starts_with filename src_path
    then resolve relative join src_path dst_path filename
    else later
