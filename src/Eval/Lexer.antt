-- ===== src/Eval/Lexer.antt =====
-- The terminals of the grammar in src/eval.cc: numbers, variables and operators. A lexer returns the
-- text it matched and the rest.
use Prim.Native.Nat.{min}
use hgdb.Prelude.Int.{ℤ, pos}
use hgdb.Prelude.{
  Text, ℕ, zero, suc, ◌+◌, ◌-◌, ◌*◌, ◌^◌, leb, ◌==◌, Bool, ◌&&◌, ◌||◌, if◌then◌else◌, Option, none,
  some, or_else, ◌>>=◌, [], ◌∷◌, ◌++◌, is_empty, length,
}

abbrev pub is_digit : ℕ → Bool
is_digit c = leb b'0' c && leb c b'9'

abbrev pub is_xdigit : ℕ → Bool
is_xdigit c = is_digit c || (leb b'a' c && leb c b'f') || (leb b'A' c && leb c b'F')

abbrev pub is_space : ℕ → Bool
is_space c = c == 32 || (leb 9 c && leb c 13)

-- The characters of variable_head1, and of variable_head2 behind the first.
abbrev pub is_head : ℕ → Bool
is_head c = (leb b'a' c && leb c b'z') || (leb b'A' c && leb c b'Z') || c == b'_' || c == b'$'

abbrev pub is_word : ℕ → Bool
is_word c = is_head c || is_digit c

-- star: the longest prefix of such bytes, and the rest.
unfoldable pub span : (ℕ → Bool) → Text → Text × Text
span p [] = ([], [])
span p (c ∷ s) = let (t, rest) = span p s in if p c then (c ∷ t, rest) else ([], c ∷ s)

unfoldable pub skip_spaces : Text → Text
unfolding span
skip_spaces s = (span is_space s).1

-- plus: at least one.
unfoldable pub plus : (ℕ → Bool) → Text → Option (Text × Text)
unfolding span
plus p s = if is_empty (span p s).0 then none else some (span p s)

unfoldable pub one : ℕ → Text → Option Text
one c [] = none
one c (x ∷ s) = if x == c then some s else none

-- two<c>, and seq<one<c>, one<d>>.
unfoldable pub pair_of : ℕ → ℕ → Text → Option Text
unfolding one
pair_of c d s = one c s >>= one d

unfoldable pub integer : Text → Option (Text × Text)
unfolding plus
integer s = plus is_digit s

-- Digits, "'h" and hexadecimal digits.
unfoldable pub hex_integer : Text → Option (Text × Text)
unfolding plus pair_of
hex_integer s = do
  (size, s₁) ← plus is_digit s
  s₂ ← pair_of b'\'' b'h' s₁
  (number, rest) ← plus is_xdigit s₂
  some (size ++ (b'\'' ∷ b'h' ∷ number), rest)

unfoldable pub variable_head2 : Text → Option (Text × Text)
unfolding plus span
variable_head2 [] = none
variable_head2 (c ∷ s) =
    let (t, rest) = span is_word s in if is_head c then some (c ∷ t, rest) else none

-- A digit is followed by ":" at most once, since the digits are taken greedily.
unfoldable pub numeric_slice : Text → Option (Text × Text)
unfolding plus one
numeric_slice s = do
  (hi, s₁) ← plus is_digit s
  or_else (do s₂ ← one b':' s₁; (lo, rest) ← plus is_digit s₂; some (hi ++ (b':' ∷ lo), rest))
      (some (hi, s₁))

-- What a rule with if_must comes to: the input behind "[" must fit, or parse_error is thrown.
pub data Lexed : Type 0 where
  lexed : Text → Text → Lexed
  no_match thrown : Lexed

abbrev pub or_throw : Option (Text × Text) → Lexed
or_throw none = thrown
or_throw (some (t, rest)) = lexed t rest

abbrev pub or_no_match : Option (Text × Text) → Lexed
or_no_match none = no_match
or_no_match (some (t, rest)) = lexed t rest

-- sor<variable_head2, numeric_slice> and "]", behind "[".
unfoldable pub variable_index : Text → Option (Text × Text)
unfolding variable_head2 numeric_slice one
variable_index s = do
  (t, s₁) ← or_else (variable_head2 s) (numeric_slice s)
  rest ← one b']' s₁
  some (b'[' ∷ (t ++ b']' ∷ []), rest)

unfoldable pub variable_tail : Text → Lexed
unfolding one variable_index
variable_tail s = elim (one b'[' s) [ none ↦ no_match | some s₁ ↦ or_throw (variable_index s₁) ]

-- `before` is put in front of what was matched.
abbrev pub prepend : Text → Lexed → Lexed
prepend before (lexed t rest) = lexed (before ++ t) rest
prepend before no_match = no_match
prepend before thrown = thrown

-- One round of a star: `more` goes on behind what the rule matched.
unfoldable pub star_round : Lexed → Text → (Text → Lexed) → Lexed
star_round no_match s more = lexed [] s
star_round thrown s more = thrown
star_round (lexed t rest) s more = prepend t (more rest)

-- star<rule> with a bound on its rounds: each takes at least one byte.
unfoldable pub star : ℕ → (Text → Lexed) → Text → Lexed
unfolding star_round
star zero rule s = lexed [] s
star (suc n) rule s = star_round (rule s) s (star n rule)

abbrev pub and_then : Lexed → (Text → Lexed) → Lexed
and_then (lexed t rest) next = prepend t (next rest)
and_then no_match next = no_match
and_then thrown next = thrown

unfoldable pub variable2 : Text → Lexed
unfolding variable_head2 star variable_tail
variable2 s = and_then (or_no_match (variable_head2 s)) (λ s₁. star (length s₁) variable_tail s₁)

unfoldable pub dot_variable2 : Text → Lexed
unfolding one variable2
dot_variable2 s = elim (one b'.' s) [
  | none ↦ no_match
  | some s₁ ↦ prepend (b'.' ∷ []) (variable2 s₁)
]

unfoldable pub variable : Text → Lexed
unfolding variable2 star dot_variable2
variable s = and_then (variable2 s) (λ s₁. star (length s₁) dot_variable2 s₁)

-- The value of a list of digits, which stays at the largest int64_t if it is larger.
abbrev pub digit_value : ℕ → ℕ
digit_value c = if leb c b'9' then c - b'0' else if leb b'a' c then c - b'a' + 10 else c - b'A' + 10

unfoldable pub number_from : ℕ → ℕ → Text → ℕ
number_from base acc [] = acc
number_from base acc (c ∷ s) = number_from base (acc * base + digit_value c) s

-- The extraction of an ExpressionType from a stream.
unfoldable pub read_number : ℕ → Text → ℤ
unfolding number_from
read_number base s = pos (min (number_from base 0 s) (2 ^ 63 - 1))
