-- ===== src/Eval.antt =====
-- src/eval.hh and src/eval.cc: the nodes of an expression, and Expr::eval. `none` stands for
-- undefined behaviour: signed overflow, division by zero, and a null pointer that is followed.
pub mod Debug
pub mod Lexer
pub mod Parser
pub mod Grammar
pub mod Laws
pub mod Lengths
pub mod Fuel
mod Examples
use Prim.Native.Nat.{bit_and, bit_or, bit_xor}
use hgdb.Prelude.{
  Text, ℕ, ◌-◌, ◌^◌, Bool, true, false, not, ◌&&◌, if◌then◌else◌, Option, none, some, ◌>>=◌,
}
use hgdb.Prelude.Int.{
  ℤ, pos, negsuc, ◌+ℤ◌, ◌-ℤ◌, ◌*ℤ◌, quot_ℤ, rem_ℤ, ltb_ℤ, eq_ℤ, checked, to_word, of_word,
}

pub data Operator : Type 0 where
  uadd uminus add minus multiply divide mod_ eq neq not_ invert and xor or band bor : Operator
  lt gt le ge : Operator

-- A node of the pool `expressions_`, with what its pointers lead to. A Symbol's value is kept
-- beside the tree, since all uses of a name share one node.
pub data Expr : Type 0 where
  null : Expr
  constant : ℤ → Expr
  symbol : Text → Expr
  unary : Operator → Expr → Expr
  binary : Operator → Expr → Expr → Expr

-- A bool that is converted to ExpressionType.
abbrev pub of_bool : Bool → ℤ
of_bool true = pos 1
of_bool false = pos 0

abbrev pub is_zero : ℤ → Bool
is_zero v = eq_ℤ v (pos 0)

-- The quotient overflows for the least integer by -1; the remainder is then undefined as well.
unfoldable pub divide_op : ℤ → ℤ → Option ℤ
divide_op a b = if is_zero b then none else checked (quot_ℤ a b)

unfoldable pub mod_op : ℤ → ℤ → Option ℤ
mod_op a b = if is_zero b then none else (checked (quot_ℤ a b) >>= λ q. some (rem_ℤ a b))

unfoldable pub eval_unary : Operator → ℤ → Option ℤ
eval_unary uadd v = some v
eval_unary uminus v = checked (pos 0 -ℤ v)
eval_unary not_ v = some (of_bool (is_zero v))
eval_unary invert v = some (of_word (2 ^ 64 - 1 - to_word v))
eval_unary _ v = none

-- The operators that evaluate both sides.
unfoldable pub eval_binary : Operator → ℤ → ℤ → Option ℤ
eval_binary add a b = checked (a +ℤ b)
eval_binary minus a b = checked (a -ℤ b)
eval_binary multiply a b = checked (a *ℤ b)
eval_binary divide a b = divide_op a b
eval_binary mod_ a b = mod_op a b
eval_binary eq a b = some (of_bool (eq_ℤ a b))
eval_binary neq a b = some (of_bool (not (eq_ℤ a b)))
eval_binary xor a b = some (of_word (bit_xor (to_word a) (to_word b)))
eval_binary band a b = some (of_word (bit_and (to_word a) (to_word b)))
eval_binary bor a b = some (of_word (bit_or (to_word a) (to_word b)))
eval_binary lt a b = some (of_bool (ltb_ℤ a b))
eval_binary gt a b = some (of_bool (ltb_ℤ b a))
eval_binary le a b = some (of_bool (not (ltb_ℤ b a)))
eval_binary ge a b = some (of_bool (not (ltb_ℤ a b)))
eval_binary _ a b = none

-- Expr::eval, where `value_` of a Symbol is given by `env`. `&&` and `||` do not evaluate their
-- right side when the left side decides.
unfoldable pub eval : (Text → ℤ) → Expr → Option ℤ
unfolding eval_unary eval_binary
eval env null = none
eval env (constant v) = some v
eval env (symbol name) = some (env name)
eval env (unary op e) = eval env e >>= eval_unary op
eval env (binary and l r) =
    let right = eval env r >>= λ b. some (of_bool (not (is_zero b))) in
    eval env l >>= λ a. if is_zero a then some (pos 0) else right
eval env (binary or l r) =
    let right = eval env r >>= λ b. some (of_bool (not (is_zero b))) in
    eval env l >>= λ a. if is_zero a then right else some (pos 1)
eval env (binary op l r) = eval env l >>= λ a. eval env r >>= eval_binary op a
