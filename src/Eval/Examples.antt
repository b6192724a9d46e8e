-- ===== src/Eval/Examples.antt =====
-- Runs of the expression parser and evaluator, and the theorems of Eval at concrete inputs.
use hgdb.Prelude.{codes, Text, ◌≡◌, ◌≢◌, refl, Bool, true, false, Option, none, some}
use hgdb.Prelude.Int.{ℤ, pos, checked, ◌+ℤ◌}
use hgdb.Eval.{
  Expr, null, constant, symbol, unary, binary, add, minus, multiply, and, not_, eq, ge, lt, gt, le,
  neq, eval,
}
use hgdb.Eval.Debug.{DebugExpression, correct}
use hgdb.Eval.Lexer.{variable, lexed}
use hgdb.Eval.Parser.{ParserState}
use hgdb.Eval.Grammar.{debug_expression, parse_rule, fuel_for, level, initial_state, out_of_fuel}
use hgdb.Eval.Fuel.{parse_rule-ne-out_of_fuel}
use hgdb.Eval.Laws.{eval-not_compare}

abbrev root_of : Option DebugExpression → Expr
root_of none = null
root_of (some d) = d.root

abbrev is_correct : Option DebugExpression → Bool
is_correct none = false
is_correct (some d) = correct d

scoped_name :
    variable (codes "top.a[3].b[x][7:0] + 1") ≡ lexed (codes "top.a[3].b[x][7:0]") (codes " + 1")
unfolding variable
scoped_name = refl

precedence :
    root_of (debug_expression (codes "1 + 2 * (a.b[3] -0) "))
    ≡ binary add (constant (pos 1)) (
        binary multiply
          (constant (pos 2))
          (binary minus (symbol (codes "a.b[3]")) (constant (pos 0))))
unfolding debug_expression
precedence = refl

logic :
    root_of (debug_expression (codes "!a == 8'hFf && b >= 2"))
    ≡ binary and
        (binary eq (unary not_ (symbol (codes "a"))) (constant (pos 255)))
        (binary ge (symbol (codes "b")) (constant (pos 2)))
unfolding debug_expression
logic = refl

trailing_operator : is_correct (debug_expression (codes "a +")) ≡ false
unfolding debug_expression correct
trailing_operator = refl

unclosed : is_correct (debug_expression (codes "a + (b")) ≡ false
unfolding debug_expression correct
unclosed = refl

open_index : is_correct (debug_expression (codes "a[")) ≡ false
unfolding debug_expression correct
open_index = refl

good : is_correct (debug_expression (codes "--a || ~(3 % 2) != x")) ≡ true
unfolding debug_expression correct
good = refl

-- A bracket that is never closed leaves its stack behind, and `==` then pops one that holds a single
-- expression: std::stack::top of an empty stack.
unclosed_operand : debug_expression (codes "x==a+(b") ≡ none
unfolding debug_expression
unclosed_operand = refl

abbrev at_first : ParserState
at_first = initial_state (codes "(a+1)*2")

parse_rule-ne-out_of_fuel_example :
    parse_rule (fuel_for (codes "(a+1)*2")) (level 9) (codes "(a+1)*2") at_first ≢ out_of_fuel
parse_rule-ne-out_of_fuel_example = parse_rule-ne-out_of_fuel (codes "(a+1)*2") at_first

abbrev two : Text → ℤ
two name = pos 2

abbrev sum : Expr
sum = binary add (symbol (codes "a")) (constant (pos 1))

sum_is_three : eval two sum ≡ some (pos 3)
unfolding eval checked ◌+ℤ◌
sum_is_three = refl

eval-not_compare_example :
    (eval two (unary not_ (binary lt sum sum)) ≡ eval two (binary ge sum sum))
    × (eval two (unary not_ (binary gt sum sum)) ≡ eval two (binary le sum sum))
    × (eval two (unary not_ (binary eq sum sum)) ≡ eval two (binary neq sum sum))
eval-not_compare_example = eval-not_compare two sum sum
