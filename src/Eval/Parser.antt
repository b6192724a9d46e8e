-- ===== src/Eval/Parser.antt =====
-- ParserStack and ParserState of src/eval.cc, and the actions of the grammar's rules. `none` is
-- undefined behaviour: a pop or a top of an empty stack.
use hgdb.Prelude.{
  Text, codes, ℕ, Bool, true, false, if◌then◌else◌, Option, none, some, ◌>>=◌, List, [], ◌∷◌, take,
  text_eq, ◌||◌, drop, zero, suc, ◌==◌,
}
use hgdb.Prelude.Maps.{lookup, text_key}
use hgdb.Eval.{
  Operator, uadd, uminus, add, minus, multiply, divide, mod_, eq, neq, not_, invert, and, xor, or,
  band, bor, lt, gt, le, ge, Expr, null, constant, symbol, unary, binary,
}
use hgdb.Eval.Debug.{DebugExpression, add_symbol, set_error}
use hgdb.Eval.Lexer.{read_number}

-- A ParserStack is `exprs_`, its top first.
abbrev pub ParserStack : Type 0
ParserStack = List Expr

pub record ParserState : Type 0 where
  pub stacks : List ParserStack
  pub debug : DebugExpression

unfoldable pub op_mapping : List (Text × Operator)
op_mapping =
    (codes "+", add)
    ∷ (codes "-", minus)
    ∷ (codes "*", multiply)
    ∷ (codes "/", divide)
    ∷ (codes "%", mod_)
    ∷ (codes "==", eq)
    ∷ (codes "!=", neq)
    ∷ (codes "!", not_)
    ∷ (codes "~", invert)
    ∷ (codes "&&", and)
    ∷ (codes "^", xor)
    ∷ (codes "||", or)
    ∷ (codes "&", band)
    ∷ (codes "|", bor)
    ∷ (codes "<", lt)
    ∷ (codes ">", gt)
    ∷ (codes "<=", le)
    ∷ (codes ">=", ge)
    ∷ []

abbrev pub is_unary : Operator → Bool
is_unary not_ = true
is_unary invert = true
is_unary uadd = true
is_unary uminus = true
is_unary _ = false

unfoldable pub push_unary : Operator → ParserStack → Option ParserStack
push_unary op [] = none
push_unary op (e ∷ s) = some (unary op e ∷ s)

-- The right side was pushed last.
unfoldable pub push_binary : Operator → ParserStack → Option ParserStack
push_binary op [] = none
push_binary op (r ∷ []) = none
push_binary op (r ∷ l ∷ s) = some (binary op l r ∷ s)

-- ParserStack::push(Operator).
unfoldable pub push_operator : Operator → ParserStack → Option ParserStack
unfolding push_unary push_binary
push_operator op s = if is_unary op then push_unary op s else push_binary op s

unfoldable pub stack_root : ParserStack → Expr
stack_root [] = null
stack_root (e ∷ []) = e
stack_root (e ∷ f ∷ s) = null

-- What works on the top of the stack of stacks.
abbrev on_top : (ParserStack → Option ParserStack) → ParserState → Option ParserState
on_top f st = elim st.stacks [
  | [] ↦ none
  | s ∷ rest ↦ f s >>= λ s'. some (record st { stacks = s' ∷ rest })
]

unfoldable pub push_op : Operator → ParserState → Option ParserState
unfolding push_operator
push_op op = on_top (push_operator op)

unfoldable pub push_expr : Expr → ParserState → Option ParserState
push_expr e = on_top (λ s. some (e ∷ s))

-- ParserState::push(const std::string &): a text that is no operator is an error.
unfoldable pub push_string : Text → ParserState → Option ParserState
unfolding push_op op_mapping lookup text_eq
push_string text st = elim (lookup text op_mapping) [
  | none ↦ some (record st { debug = set_error st.debug })
  | some op ↦ push_op op st
]

unfoldable pub open_stack : ParserState → ParserState
open_stack st = record st { stacks = [] ∷ st.stacks }

-- The root of the top stack, which is null if the stack does not hold exactly one expression, is
-- pushed to the stack below.
abbrev close_stacks : List ParserStack → Option (List ParserStack)
close_stacks [] = none
close_stacks (s ∷ []) = none
close_stacks (s ∷ t ∷ rest) = some ((stack_root s ∷ t) ∷ rest)

unfoldable pub close_stack : ParserState → Option ParserState
unfolding stack_root
close_stack st = close_stacks st.stacks >>= λ stacks. some (record st { stacks = stacks })

unfoldable pub state_root : ParserState → Option Expr
unfolding stack_root
state_root st = elim st.stacks [ [] ↦ none | s ∷ rest ↦ some (stack_root s) ]

-- action<variable>, action<integer> and action<hex_integer>; the last drops the size and "'h".
unfoldable pub act_variable : Text → ParserState → Option ParserState
unfolding push_expr add_symbol
act_variable name st = push_expr (symbol name) (record st { debug = add_symbol name st.debug })

unfoldable pub act_integer : Text → ParserState → Option ParserState
unfolding push_expr read_number
act_integer text st = push_expr (constant (read_number 10 text)) st

abbrev behind_quote : Text → Text
behind_quote [] = []
behind_quote (c ∷ s) = if c == b'\'' then drop 1 s else behind_quote s

unfoldable pub act_hex_integer : Text → ParserState → Option ParserState
unfolding push_expr read_number
act_hex_integer text st = push_expr (constant (read_number 16 (behind_quote text))) st

-- The actions of the binary rules, from `*` (0) to `||` (8), on the text that the rule matched.
unfoldable pub act_binary : ℕ → Text → ParserState → Option ParserState
unfolding push_string push_op text_eq
act_binary zero text st = push_string (take 1 text) st
act_binary (suc zero) text st = push_string (take 1 text) st
act_binary (suc (suc zero)) text st =
    if text_eq (take 2 text) (codes ">=") || text_eq (take 2 text) (codes "<=")
    then push_string (take 2 text) st
    else push_string (take 1 text) st
act_binary (suc (suc (suc zero))) text st = push_string (take 2 text) st
act_binary (suc (suc (suc (suc zero)))) text st = push_op band st
act_binary (suc (suc (suc (suc (suc zero))))) text st = push_op xor st
act_binary (suc (suc (suc (suc (suc (suc zero)))))) text st = push_op bor st
act_binary (suc (suc (suc (suc (suc (suc (suc zero))))))) text st = push_op and st
act_binary (suc (suc (suc (suc (suc (suc (suc (suc n)))))))) text st = push_op or st

-- action<unary_expression0> on the first character of its text.
unfoldable pub unary_of : ℕ → Option Operator
unary_of c =
    if c == b'!'
    then some not_
    else if c == b'~'
    then some invert
    else if c == b'+'
    then some uadd
    else if c == b'-'
    then some uminus
    else none

unfoldable pub act_unary : ℕ → ParserState → Option ParserState
unfolding unary_of push_op
act_unary c st = elim (unary_of c) [ none ↦ some st | some op ↦ push_op op st ]
