-- ===== src/Eval/Grammar.antt =====
-- The grammar of src/eval.cc as a recursive descent parser with the grammar's order of choices, and
-- `parse`. PEGTL goes back in the input when a rule fails, and keeps what its actions have done: so
-- a failure carries the parser's state.
use hgdb.Prelude.{
  Text, ℕ, zero, suc, ◌+◌, ◌*◌, ◌==◌, if◌then◌else◌, Option, none, some, ◌>>=◌, or_else, [], ◌∷◌,
  length,
}
use hgdb.Prelude.Maps.{contains, insert, emplace}
use hgdb.Eval.Debug.{DebugExpression, set_error, empty_expression}
use hgdb.Eval.Lexer.{
  one, pair_of, skip_spaces, integer, hex_integer, variable, Lexed, lexed, no_match, thrown,
}
use hgdb.Eval.Parser.{
  ParserState, open_stack, close_stack, state_root, act_variable, act_integer, act_hex_integer,
  act_binary, act_unary,
}

-- The rules that call one another. `level n` is unary_expression for 0, then
-- multiplicative_expression (1) to lor_expression (9); `operators n` is the star of
-- multiplicative_expression0 (0) to lor_expression0 (8).
pub data Rule : Type 0 where
  level operators : ℕ → Rule
  unary_expression unary_expression0 value : Rule

pub data Outcome : Type 0 where
  matched : Text → ParserState → Outcome
  failed parse_error : ParserState → Outcome
  undefined out_of_fuel : Outcome

-- seq: the next rule stands behind what was matched.
unfoldable pub and_then : Outcome → (Text → ParserState → Outcome) → Outcome
and_then (matched s st) next = next s st
and_then (failed st) next = failed st
and_then (parse_error st) next = parse_error st
and_then undefined next = undefined
and_then out_of_fuel next = out_of_fuel

-- sor: the next rule is tried where the first one was.
unfoldable pub or_try : Outcome → (ParserState → Outcome) → Outcome
or_try (matched s st) next = matched s st
or_try (failed st) next = next st
or_try (parse_error st) next = parse_error st
or_try undefined next = undefined
or_try out_of_fuel next = out_of_fuel

unfoldable pub act : Text → Option ParserState → Outcome
act s none = undefined
act s (some st) = matched s st

-- multiplicative_op (0) to lor_op (8): the input behind the operator.
unfoldable pub operator_at : ℕ → Text → Option Text
unfolding one pair_of
operator_at zero s = or_else (one b'*' s) (or_else (one b'/' s) (one b'%' s))
operator_at (suc zero) s = or_else (one b'+' s) (one b'-' s)
operator_at (suc (suc zero)) s =
    or_else (pair_of b'<' b'=' s)
      (or_else (pair_of b'>' b'=' s) (or_else (one b'<' s) (one b'>' s)))
operator_at (suc (suc (suc zero))) s = or_else (pair_of b'=' b'=' s) (pair_of b'!' b'=' s)
operator_at (suc (suc (suc (suc zero)))) s = one b'&' s
operator_at (suc (suc (suc (suc (suc zero))))) s = one b'^' s
operator_at (suc (suc (suc (suc (suc (suc zero)))))) s = one b'|' s
operator_at (suc (suc (suc (suc (suc (suc (suc zero))))))) s = pair_of b'&' b'&' s
operator_at (suc (suc (suc (suc (suc (suc (suc (suc n)))))))) s = pair_of b'|' b'|' s

unfoldable pub unary_op : Text → Option (ℕ × Text)
unary_op [] = none
unary_op (c ∷ s) =
    if c == b'!'
    then some (c, s)
    else if c == b'~'
    then some (c, s)
    else if c == b'+'
    then some (c, s)
    else if c == b'-'
    then some (c, s)
    else none

-- hex_integer, integer and variable, with their actions.
abbrev pub variable_outcome : Lexed → ParserState → Outcome
variable_outcome (lexed t rest) st = act rest (act_variable t st)
variable_outcome no_match st = failed st
variable_outcome thrown st = parse_error st

unfoldable pub atom : Text → ParserState → Outcome
unfolding hex_integer integer variable act act_variable act_integer act_hex_integer
atom s st = elim (hex_integer s) [
  | some (t, rest) ↦ act rest (act_hex_integer t st)
  | none ↦ elim (integer s) [
    | some (t, rest) ↦ act rest (act_integer t st)
    | none ↦ variable_outcome (variable s) st
  ]
]

-- close_bracket, with its action.
unfoldable pub close_bracket : Text → ParserState → Outcome
unfolding one skip_spaces act close_stack
close_bracket s st = elim (one b')' (skip_spaces s)) [
  | none ↦ failed st
  | some rest ↦ act rest (close_stack st)
]

-- pad: spaces behind.
unfoldable pub trailing : Text → ParserState → Outcome
unfolding skip_spaces
trailing s st = matched (skip_spaces s) st

unfoldable pub parse_rule : ℕ → Rule → Text → ParserState → Outcome
parse_rule zero rule s st = out_of_fuel
parse_rule (suc f) (level zero) s st = parse_rule f unary_expression s st
parse_rule (suc f) (level (suc n)) s st =
    and_then (parse_rule f (level n) s st) (parse_rule f (operators n))
parse_rule (suc f) (operators n) s st = elim (operator_at n s) [
  | none ↦ matched s st
  | some rest ↦
      or_try
        (and_then (parse_rule f (level n) rest st)
          λ s' st'. and_then (act s' (act_binary n s st')) (parse_rule f (operators n)))
        (matched s)
]
parse_rule (suc f) unary_expression s st =
    or_try (parse_rule f value s st)
      λ st'. and_then (parse_rule f unary_expression0 (skip_spaces s) st') trailing
parse_rule (suc f) unary_expression0 s st = elim (unary_op s) [
  | none ↦ failed st
  | some (c, rest) ↦
      and_then (or_try (parse_rule f value rest st) (parse_rule f unary_expression rest))
        λ s' st'. act s' (act_unary c st')
]
parse_rule (suc f) value s st =
    and_then
      (or_try (atom (skip_spaces s) st) λ st'. elim (one b'(' (skip_spaces s)) [
        | none ↦ failed st'
        | some rest ↦
            and_then (parse_rule f (level 9) (skip_spaces rest) (open_stack st')) close_bracket
      ])
      trailing

-- As many calls as a text of this length can nest: 14 for a byte, and 13 for the levels.
abbrev pub fuel_for : Text → ℕ
fuel_for s = 14 * length s + 13

unfoldable pub initial_state : Text → ParserState
unfolding empty_expression
initial_state text = record { stacks = [] ∷ []; debug = empty_expression text }

-- What `parse` makes of the outcome: the grammar wants the end of the input, and anything else is
-- an error with a null root. `none` is undefined behaviour, or fuel that ran out.
unfoldable pub finish : Outcome → Option DebugExpression
unfolding state_root set_error
finish (matched [] st) = state_root st >>= λ e. some (record (st.debug) { root = e })
finish (matched (c ∷ s) st) = some (set_error st.debug)
finish (failed st) = some (set_error st.debug)
finish (parse_error st) = some (set_error st.debug)
finish undefined = none
finish out_of_fuel = none

-- The constructor of DebugExpression.
unfoldable pub debug_expression : Text → Option DebugExpression
unfolding finish parse_rule initial_state and_then or_try act operator_at unary_op atom
    close_bracket trailing skip_spaces one open_stack act_binary act_unary contains insert emplace
debug_expression text = finish (parse_rule (fuel_for text) (level 9) text (initial_state text))
