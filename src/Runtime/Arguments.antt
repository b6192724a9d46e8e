-- ===== src/Runtime/Arguments.antt =====
-- What src/debug.cc takes from the arguments of the simulator and from the environment. `getenv` is the
-- environment, and the arguments are none where there is no namespace.
use hgdb.Prelude.{
  Text, codes, ℕ, ◌%◌, ◌^◌, Bool, false, ◌||◌, ◌&&◌, if◌then◌else◌, Option, none, some, ◌>>=◌, List,
  [], ◌∷◌, ◌++◌, drop, length, text_eq, get_elem?, is_some, or_else,
}
use hgdb.Interfaces.{BreakPoint}
use hgdb.Symbols.{starts_with}
use hgdb.Util.{get_tokens}
use hgdb.Util.Numbers.{stoul}

-- find of a text in a text, against npos.
unfoldable pub find : Text → Text → Bool
unfolding starts_with
find [] text = starts_with [] text
find (c ∷ s) text = starts_with (c ∷ s) text || find s text

-- The loop of get_value_plus_arg: the value is what stands behind as many bytes as the text has, though
-- the text may stand further behind. substr does not throw, since the text is inside.
unfoldable pub find_value_arg : Text → List Text → Option Text
unfolding find
find_value_arg plus_arg [] = none
find_value_arg plus_arg (arg ∷ args) =
    let later = find_value_arg plus_arg args in
    if find arg plus_arg then some (drop (length plus_arg) arg) else later

unfoldable pub get_value_plus_arg : (Text → Option Text) → Option (List Text) → Text → Option Text
unfolding find_value_arg
get_value_plus_arg getenv none arg_name = none
get_value_plus_arg getenv (some args) arg_name =
    or_else (find_value_arg (codes "+" ++ (arg_name ++ codes "=")) args) (getenv arg_name)

abbrev any_arg : Text → List Text → Bool
any_arg flag [] = false
any_arg flag (arg ∷ args) = text_eq arg flag || any_arg flag args

unfoldable pub has_cli_flag : Option (List Text) → Text → Bool
has_cli_flag none flag = false
has_cli_flag (some args) flag = any_arg flag args

unfoldable pub get_test_plus_arg : (Text → Option Text) → Option (List Text) → Text → Bool → Bool
get_test_plus_arg getenv none arg_name check_env = false
get_test_plus_arg getenv (some args) arg_name check_env =
    any_arg (codes "+" ++ arg_name) args || (check_env && is_some (getenv arg_name))

abbrev default_port_num : ℕ
default_port_num = 8888

-- get_port on std::stoul, which the argument `number` is; none is its exception. The port has 16 bits.
unfoldable pub get_port : (Text → Option ℕ) → Option Text → ℕ
get_port number none = default_port_num
get_port number (some port_str) = elim (number port_str) [
  | none ↦ default_port_num
  | some n ↦ n % 2 ^ 16
]

-- The condition behind the first @.
abbrev condition_of : List Text → Text
condition_of (place ∷ condition ∷ rest) = condition
condition_of _ = []

abbrev env_breakpoint : Text → ℕ → ℕ → Text → BreakPoint
env_breakpoint filename line_num column_num condition = record {
  id = 0;
  instance_id = none;
  filename = filename;
  line_num = line_num % 2 ^ 32;
  column_num = column_num % 2 ^ 32;
  condition = condition;
  trigger = [];
}

-- One round of setup_init_breakpoint_from_env on file:line or file:line:column, and a condition behind
-- an @; none is a message, and the breakpoint is passed over.
unfoldable pub breakpoint_of_env : Text → Option BreakPoint
unfolding get_tokens stoul
breakpoint_of_env bp =
    let tokens = get_tokens bp (codes "@") in
    let place = get_elem? tokens 0 >>= λ t. some (get_tokens t (codes ":")) in
    place >>= λ fn_ln. at_place fn_ln (condition_of tokens)
  where
    at_place : List Text → Text → Option BreakPoint
    at_place (filename ∷ line ∷ []) condition =
        stoul line >>= λ ln. some (env_breakpoint filename ln 0 condition)
    at_place (filename ∷ line ∷ column ∷ []) condition =
        stoul line >>= λ ln. stoul column >>= λ cn. some (env_breakpoint filename ln cn condition)
    at_place _ condition = none
