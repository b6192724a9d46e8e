-- ===== src/Eval/Fuel.antt =====
-- The fuel of the expression parser.
use hgdb.Prelude.{
  subst, Text, ℕ, zero, suc, ◌+◌, ◌*◌, ◌≤◌, ◌<◌, ◌≢◌, Option, none, some, [], ◌∷◌, length, arith,
}
use hgdb.Eval.Lexer.{
  plus, skip_spaces, integer, hex_integer, Lexed, lexed, no_match, thrown, variable, is_digit,
}
use hgdb.Eval.Lengths.{
  Shorter, ShorterRest, skip_spaces-le, plus-Shorter, one-ShorterRest, or_else-ShorterRest,
  ShorterRest-mono, pair_of-ShorterRest, hex_integer-Shorter, NoLonger, variable-NoLonger,
}
use hgdb.Eval.Parser.{
  ParserState, open_stack, close_stack, act_variable, act_integer, act_hex_integer,
}
use hgdb.Eval.Grammar.{
  Rule, level, operators, unary_expression, unary_expression0, value, Outcome, matched, failed,
  parse_error, undefined, out_of_fuel, and_then, or_try, act, operator_at, unary_op, atom,
  variable_outcome, close_bracket, trailing, parse_rule, fuel_for,
}

-- The run kept within its fuel, and leaves at most `n` bytes.
abbrev pub Within : ℕ → Outcome → Type 0
Within n (matched s st) = length s ≤ n
Within n (failed st) = Unit {0}
Within n (parse_error st) = Unit {0}
Within n undefined = Unit {0}
Within n out_of_fuel = ⊥

Within-mono : (k n : ℕ) (o : Outcome) → k ≤ n → Within k o → Within n o
Within-mono k n (matched s st) h w = omega arith
Within-mono k n (failed st) h w = tt
Within-mono k n (parse_error st) h w = tt
Within-mono k n undefined h w = tt
Within-mono k n out_of_fuel h w = w

abbrev LeavesLess {ℓ} : {A : Type ℓ} → ℕ → Option (A × Text) → Type 0
LeavesLess n none = Unit {0}
LeavesLess n (some (a, s)) = length s < n

LeavesLess_lem : (n : ℕ) (o : Option (Text × Text)) → Shorter n o → LeavesLess n o
LeavesLess_lem n none h = tt
LeavesLess_lem n (some (t, s)) h = h

module _ (n : ℕ) where
  and_then-Within :
      (o : Outcome) (next : Text → ParserState → Outcome)
      → Within n o
      → ((s : Text) (st : ParserState) → length s ≤ n → Within n (next s st))
      → Within n (and_then o next)
  unfolding and_then
  and_then-Within (matched s st) next h k = k s st h
  and_then-Within (failed st) next h k = tt
  and_then-Within (parse_error st) next h k = tt
  and_then-Within undefined next h k = tt
  and_then-Within out_of_fuel next h k = h

  or_try-Within :
      (o : Outcome) (next : ParserState → Outcome)
      → Within n o
      → ((st : ParserState) → Within n (next st))
      → Within n (or_try o next)
  unfolding or_try
  or_try-Within (matched s st) next h k = h
  or_try-Within (failed st) next h k = k st
  or_try-Within (parse_error st) next h k = tt
  or_try-Within undefined next h k = tt
  or_try-Within out_of_fuel next h k = h

  act-Within : (s : Text) (o : Option ParserState) → length s ≤ n → Within n (act s o)
  unfolding act
  act-Within s none h = tt
  act-Within s (some st) h = h

  trailing-Within : (s : Text) (st : ParserState) → length s ≤ n → Within n (trailing s st)
  unfolding trailing
  trailing-Within s st h = omega (arith, skip_spaces-le s)

  variable_outcome-Within :
      (o : Lexed) (st : ParserState) → NoLonger n o → Within n (variable_outcome o st)
  variable_outcome-Within (lexed t rest) st h = act-Within rest (act_variable t st) h
  variable_outcome-Within no_match st h = tt
  variable_outcome-Within thrown st h = tt

  -- A case of an option: the rest of the text after an operator or a bracket.
  on_rest-Within :
      (o : Option Text) (missing : Outcome) (next : Text → Outcome)
      → ShorterRest n o
      → Within n missing
      → ((s : Text) → length s < n → Within n (next s))
      → Within n (elim o [ none ↦ missing | some s ↦ next s ])
  on_rest-Within none missing next h m k = m
  on_rest-Within (some s) missing next h m k = k s h

  -- A case of a lexer's result.
  on_lexed-Within {ℓ} :
      {A : Type ℓ} (o : Option (A × Text)) (missing : Outcome) (next : A → Text → Outcome)
      → LeavesLess n o
      → Within n missing
      → ((a : A) (s : Text) → length s < n → Within n (next a s))
      → Within n (elim o [ none ↦ missing | some (a, s) ↦ next a s ])
  on_lexed-Within none missing next h m k = m
  on_lexed-Within (some (a, s)) missing next h m k = k a s h

close_bracket-Within : (s : Text) (st : ParserState) → Within (length s) (close_bracket s st)
unfolding close_bracket
close_bracket-Within s st =
    on_rest-Within (length s) _ (failed st) _
      (ShorterRest-mono _ (length s) _ (skip_spaces-le s) (one-ShorterRest b')' (skip_spaces s))) tt
      λ rest lt. act-Within (length s) rest (close_stack st) (omega arith)

atom-Within : (s : Text) (st : ParserState) → Within (length s) (atom s st)
unfolding atom integer
atom-Within s st =
    on_lexed-Within (length s) (hex_integer s) _ _ (LeavesLess_lem _ _ (hex_integer-Shorter s))
      (on_lexed-Within (length s) (plus is_digit s) _ _
        (LeavesLess_lem _ _ (plus-Shorter is_digit s))
        (variable_outcome-Within (length s) (variable s) st (variable-NoLonger s))
        λ t rest lt. act-Within (length s) rest (act_integer t st) (omega arith))
      λ t rest lt. act-Within (length s) rest (act_hex_integer t st) (omega arith)

operator_at-ShorterRest : (n : ℕ) (s : Text) → ShorterRest (length s) (operator_at n s)
unfolding operator_at
operator_at-ShorterRest zero s =
    or_else-ShorterRest _ _ _ (one-ShorterRest _ s)
      (or_else-ShorterRest _ _ _ (one-ShorterRest _ s) (one-ShorterRest _ s))
operator_at-ShorterRest (suc zero) s =
    or_else-ShorterRest _ _ _ (one-ShorterRest _ s) (one-ShorterRest _ s)
operator_at-ShorterRest (suc (suc zero)) s = or_else-ShorterRest _ _ _ (pair_of-ShorterRest _ _ s) (
    or_else-ShorterRest _ _ _ (pair_of-ShorterRest _ _ s)
      (or_else-ShorterRest _ _ _ (one-ShorterRest _ s) (one-ShorterRest _ s)))
operator_at-ShorterRest (suc (suc (suc zero))) s =
    or_else-ShorterRest _ _ _ (pair_of-ShorterRest _ _ s) (pair_of-ShorterRest _ _ s)
operator_at-ShorterRest (suc (suc (suc (suc zero)))) s = one-ShorterRest _ s
operator_at-ShorterRest (suc (suc (suc (suc (suc zero))))) s = one-ShorterRest _ s
operator_at-ShorterRest (suc (suc (suc (suc (suc (suc zero)))))) s = one-ShorterRest _ s
operator_at-ShorterRest (suc (suc (suc (suc (suc (suc (suc zero))))))) s = pair_of-ShorterRest _ _ s
operator_at-ShorterRest (suc (suc (suc (suc (suc (suc (suc (suc n)))))))) s =
    pair_of-ShorterRest _ _ s

unary_op-LeavesLess : (s : Text) → LeavesLess (length s) (unary_op s)
unfolding unary_op
unary_op-LeavesLess [] = tt
unary_op-LeavesLess (c ∷ s) = ground arith

-- The calls that a rule can make on the same text before it takes a byte.
abbrev rank : Rule → ℕ
rank (level n) = n + 3
rank (operators n) = 0
rank unary_expression = 2
rank unary_expression0 = 1
rank value = 0

abbrev IsRule : Rule → Type 0
IsRule (level n) = n ≤ 9
IsRule (operators n) = n ≤ 8
IsRule unary_expression = Unit {0}
IsRule unary_expression0 = Unit {0}
IsRule value = Unit {0}

parse_rule-Within :
    (f : ℕ) (r : Rule) (s : Text) (st : ParserState)
    → IsRule r
    → 14 * length s + rank r < f
    → Within (length s) (parse_rule f r s st)
unfolding parse_rule
parse_rule-Within zero r s st ok h = absurd (omega arith)
parse_rule-Within (suc f) (level zero) s st ok h =
    parse_rule-Within f unary_expression s st tt (omega arith)
parse_rule-Within (suc f) (level (suc n)) s st ok h =
    and_then-Within (length s) _ _ (parse_rule-Within f (level n) s st (omega arith) (omega arith))
      λ s' st' le.
        Within-mono (length s') (length s) _ le
          (parse_rule-Within f (operators n) s' st' (omega arith) (omega arith))
parse_rule-Within (suc f) (operators n) s st ok h =
    on_rest-Within (length s) (operator_at n s) (matched s st) _ (operator_at-ShorterRest n s)
      (omega arith)
      λ rest lt.
        or_try-Within (length s) _ _
          (Within-mono (length rest) (length s) _ (omega arith) (
            and_then-Within (length rest) _ _
              (parse_rule-Within f (level n) rest st (omega arith) (omega arith))
              λ s' st' le.
                and_then-Within (length rest) _ _ (act-Within (length rest) s' _ le) λ t st'' le'.
                  Within-mono (length t) (length rest) _ le'
                    (parse_rule-Within f (operators n) t st'' ok (omega arith))))
          (λ st'. omega arith)
parse_rule-Within (suc f) unary_expression s st ok h =
    or_try-Within (length s) _ _ (parse_rule-Within f value s st tt (omega arith)) λ st'.
      Within-mono (length (skip_spaces s)) (length s) _ (skip_spaces-le s) (
        and_then-Within (length (skip_spaces s)) _ _
          (parse_rule-Within f unary_expression0 (skip_spaces s) st' tt
            (omega (arith, skip_spaces-le s)))
          (trailing-Within (length (skip_spaces s))))
parse_rule-Within (suc f) unary_expression0 s st ok h =
    on_lexed-Within (length s) (unary_op s) (failed st) _ (unary_op-LeavesLess s) tt λ c rest lt.
      and_then-Within (length s) _ _
        (or_try-Within (length s) _ _
          (Within-mono (length rest) (length s) _ (omega arith)
            (parse_rule-Within f value rest st tt (omega arith)))
          λ st'.
            Within-mono (length rest) (length s) _ (omega arith)
              (parse_rule-Within f unary_expression rest st' tt (omega arith)))
        λ s' st' le. act-Within (length s) s' _ le
parse_rule-Within (suc f) value s st ok h =
    and_then-Within (length s) _ _
      (or_try-Within (length s) _ _
        (Within-mono (length (skip_spaces s)) (length s) _ (skip_spaces-le s)
          (atom-Within (skip_spaces s) st))
        λ st'.
          on_rest-Within (length s) _ (failed st') _
            (ShorterRest-mono _ (length s) _ (skip_spaces-le s)
              (one-ShorterRest b'(' (skip_spaces s)))
            tt
            λ rest lt.
              and_then-Within (length s) _ _
                (Within-mono (length (skip_spaces rest)) (length s) _
                  (omega (arith, skip_spaces-le rest))
                  (parse_rule-Within f (level 9) (skip_spaces rest) (open_stack st') (omega arith)
                    (omega (arith, skip_spaces-le rest))))
                λ s' st'' le.
                  Within-mono (length s') (length s) _ le (close_bracket-Within s' st''))
      (trailing-Within (length s))

-- With the fuel that debug_expression gives, no text runs out of it, from any state of the parser.
pub parse_rule-ne-out_of_fuel :
    (text : Text) (st : ParserState) → parse_rule (fuel_for text) (level 9) text st ≢ out_of_fuel
parse_rule-ne-out_of_fuel text st e =
    subst (Within (length text)) e
      (parse_rule-Within (fuel_for text) (level 9) text st (omega arith) (omega arith))
