-- ===== src/Util/Numbers.antt =====
-- The number readers of src/util.cc, on the standard library's stol: leading spaces, a sign, decimal
-- digits, and an exception where there are none or the number is out of the range of long.
use hgdb.Prelude.{
  Text, ℕ, zero, suc, ◌+◌, ◌-◌, ◌*◌, ◌==◌, if◌then◌else◌, Option, none, some, ◌>>=◌, [], ◌∷◌,
  is_empty,
}
use hgdb.Prelude.Int.{ℤ, pos, negsuc, fits, to_word}
use hgdb.Eval.Lexer.{is_digit, skip_spaces, span}

unfoldable pub decimal_from : ℕ → Text → ℕ
decimal_from acc [] = acc
decimal_from acc (c ∷ s) = decimal_from (10 * acc + (c - b'0')) s

-- The digits at the start of a text; at least one.
unfoldable pub read_digits : Text → Option ℕ
unfolding span decimal_from
read_digits s =
    let (ds, rest) = span is_digit s in if is_empty ds then none else some (decimal_from 0 ds)

abbrev negated : ℕ → ℤ
negated zero = pos 0
negated (suc n) = negsuc n

abbrev in_range : ℤ → Option ℤ
in_range v = if fits v then some v else none

abbrev ranged : (ℕ → ℤ) → Option ℕ → Option ℤ
ranged f none = none
ranged f (some n) = in_range (f n)

abbrev signed : Text → Option ℤ
signed [] = none
signed (c ∷ s) =
    if c == b'-'
    then ranged negated (read_digits s)
    else if c == b'+'
    then ranged pos (read_digits s)
    else ranged pos (read_digits (c ∷ s))

unfoldable pub stol : Text → Option ℤ
unfolding read_digits skip_spaces
stol s = signed (skip_spaces s)

-- stoul calls stol as well: the number of a long, converted to 64 unsigned bits.
unfoldable pub stoul : Text → Option ℕ
unfolding stol to_word
stoul s = stol s >>= λ v. some (to_word v)
