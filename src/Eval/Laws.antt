-- ===== src/Eval/Laws.antt =====
-- What Expr::eval computes: the laws that relate the operators.
use hgdb.Prelude.{Text, ◌≡◌, arith}
use hgdb.Prelude.Int.{ℤ}
use hgdb.Eval.{eq, neq, not_, and, or, lt, gt, le, ge, Expr, unary, binary, eval}

-- `>` is `<` with its sides exchanged, `>=` and `<=` likewise; also where a side is undefined.
swap_gt : (env : Text → ℤ) (l r : Expr) → eval env (binary gt l r) ≡ eval env (binary lt r l)
unfolding eval
swap_gt env l r = ground arith

-- The comparisons come in pairs of opposites: `!` of one is the other, undefined cases included.
pub eval-not_compare :
    (env : Text → ℤ) (l r : Expr)
    → (eval env (unary not_ (binary lt l r)) ≡ eval env (binary ge l r))
      × (eval env (unary not_ (binary gt l r)) ≡ eval env (binary le l r))
      × (eval env (unary not_ (binary eq l r)) ≡ eval env (binary neq l r))
unfolding eval
eval-not_compare env l r = (ground arith, ground arith, ground arith)

-- De Morgan's laws for `&&` and `||`, undefined cases included.
eval-not_and :
    (env : Text → ℤ) (l r : Expr)
    → (eval env (unary not_ (binary and l r)) ≡ eval env (binary or (unary not_ l) (unary not_ r)))
      × (eval env (unary not_ (binary or l r))
          ≡ eval env (binary and (unary not_ l) (unary not_ r)))
unfolding eval
eval-not_and env l r = (ground arith, ground arith)
