-- ===== src/Runtime/Names.antt =====
-- The names of a scope in BreakPointResponse of src/proto.cc: their comparison, and the two maps of values.
use hgdb.Prelude.{
  Text, codes, ◌==◌, Bool, true, false, ◌&&◌, not, if◌then◌else◌, List, [], ◌∷◌, text_eq, ltb,
}
use hgdb.Prelude.Maps.{emplace, text_key}
use hgdb.Eval.Lexer.{is_digit}
use hgdb.Util.{get_tokens}
use hgdb.Util.Numbers.{decimal_from}

-- operator< of std::string.
unfoldable text_less : Text → Text → Bool
text_less [] [] = false
text_less [] (d ∷ t) = true
text_less (c ∷ s) [] = false
text_less (c ∷ s) (d ∷ t) =
    let rest = text_less s t in if ltb c d then true else if ltb d c then false else rest

abbrev is_index : Text → Bool
is_index [] = true
is_index (c ∷ s) = is_digit c && is_index s

abbrev token_less : Text → Text → Bool
unfolding text_less decimal_from
token_less t1 t2 =
    if is_index t1 && is_index t2
    then ltb (decimal_from 0 t1) (decimal_from 0 t2)
    else text_less t1 t2

abbrev same_token : Text → Text → Bool
unfolding decimal_from
same_token t1 t2 =
    if is_index t1 && is_index t2 then decimal_from 0 t1 == decimal_from 0 t2 else text_eq t1 t2

unfoldable tokens_less : List Text → List Text → Bool
unfolding text_less decimal_from
tokens_less [] [] = false
tokens_less [] (t2 ∷ var2_tokens) = true
tokens_less (t1 ∷ var1_tokens) [] = false
tokens_less (t1 ∷ var1_tokens) (t2 ∷ var2_tokens) =
    let rest = tokens_less var1_tokens var2_tokens in
    if same_token t1 t2 then rest else token_less t1 t2

-- LocalVarNameCompare, on indexes for which std::stoul does not throw.
unfoldable local_name_less : Text → Text → Bool
unfolding get_tokens tokens_less
local_name_less var1 var2 =
    tokens_less (get_tokens var1 (codes ".[]")) (get_tokens var2 (codes ".[]"))

-- The map takes two names for one key where neither is less.
abbrev same_local_name : Text → Text → Bool
unfolding local_name_less
same_local_name a b = not (local_name_less a b) && not (local_name_less b a)

unfoldable add_local_value : Text → Text → List (Text × Text) → List (Text × Text)
unfolding local_name_less
add_local_value name value [] = (name, value) ∷ []
add_local_value name value ((other, old) ∷ local_values) =
    let rest = add_local_value name value local_values in
    if same_local_name other name then (other, value) ∷ local_values else (other, old) ∷ rest

unfoldable add_generator_value : Text → Text → List (Text × Text) → List (Text × Text)
unfolding emplace
add_generator_value name value generator_values = emplace name value generator_values

-- The inner loops of send_breakpoint_hit over the names of one variable.
unfoldable pub add_local_values : List (Text × Text) → List (Text × Text) → List (Text × Text)
unfolding add_local_value
add_local_values [] values = values
add_local_values ((name, value) ∷ more) values =
    add_local_values more (add_local_value name value values)

unfoldable pub add_generator_values : List (Text × Text) → List (Text × Text) → List (Text × Text)
unfolding add_generator_value
add_generator_values [] values = values
add_generator_values ((name, value) ∷ more) values =
    add_generator_values more (add_generator_value name value values)
