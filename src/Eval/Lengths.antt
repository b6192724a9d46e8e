-- ===== src/Eval/Lengths.antt =====
-- What the lexers of the grammar leave of a text.
use hgdb.Prelude.{
  Text, ℕ, zero, suc, ◌≤◌, ◌<◌, Bool, Option, none, some, ◌>>=◌, or_else, [], ◌∷◌, length, arith,
}
use hgdb.Eval.Lexer
use hgdb.Eval.Lexer.{
  prepend, or_throw, or_no_match, star_round, span, plus, one, pair_of, skip_spaces, integer,
  hex_integer, variable_head2, numeric_slice, Lexed, lexed, no_match, thrown, variable_index,
  variable_tail, star, variable2, dot_variable2, variable, is_digit, is_xdigit, is_word, is_head,
}

pub span-le : (p : ℕ → Bool) (s : Text) → length (span p s).1 ≤ length s
unfolding span
span-le p [] = omega arith
span-le p (c ∷ s) = ground (arith, span-le p s)

-- A lexer that matches leaves less than it was given.
abbrev pub Shorter : ℕ → Option (Text × Text) → Type 0
Shorter n none = Unit {0}
Shorter n (some (t, rest)) = length rest < n

abbrev pub ShorterRest : ℕ → Option Text → Type 0
ShorterRest n none = Unit {0}
ShorterRest n (some rest) = length rest < n

pub skip_spaces-le : (s : Text) → length (skip_spaces s) ≤ length s
unfolding skip_spaces
skip_spaces-le s = span-le _ s

pub plus-Shorter : (p : ℕ → Bool) (s : Text) → Shorter (length s) (plus p s)
unfolding plus span
plus-Shorter p [] = tt
plus-Shorter p (c ∷ s) = ground (arith, span-le p s)

pub one-ShorterRest : (c : ℕ) (s : Text) → ShorterRest (length s) (one c s)
unfolding one
one-ShorterRest c [] = tt
one-ShorterRest c (x ∷ s) = ground arith

Shorter-mono : (k n : ℕ) (o : Option (Text × Text)) → k ≤ n → Shorter k o → Shorter n o
Shorter-mono k n none h s = tt
Shorter-mono k n (some (t, rest)) h s = omega arith

pub ShorterRest-mono : (k n : ℕ) (o : Option Text) → k ≤ n → ShorterRest k o → ShorterRest n o
ShorterRest-mono k n none h s = tt
ShorterRest-mono k n (some rest) h s = omega arith

module _ (n : ℕ) where
  -- The steps of a lexer: each goes on behind what the one before matched.
  >>=-Shorter :
      (m : Option (Text × Text)) (f : Text × Text → Option (Text × Text))
      → Shorter n m
      → ((t rest : Text) → length rest < n → Shorter n (f (t, rest)))
      → Shorter n (m >>= f)
  >>=-Shorter none f h k = tt
  >>=-Shorter (some (t, rest)) f h k = k t rest h

  >>=-Shorter_rest :
      (m : Option Text) (f : Text → Option (Text × Text))
      → ShorterRest n m
      → ((rest : Text) → length rest < n → Shorter n (f rest))
      → Shorter n (m >>= f)
  >>=-Shorter_rest none f h k = tt
  >>=-Shorter_rest (some rest) f h k = k rest h

  >>=-ShorterRest :
      (m : Option Text) (f : Text → Option Text)
      → ShorterRest n m
      → ((rest : Text) → length rest < n → ShorterRest n (f rest))
      → ShorterRest n (m >>= f)
  >>=-ShorterRest none f h k = tt
  >>=-ShorterRest (some rest) f h k = k rest h

  or_else-Shorter :
      (a b : Option (Text × Text)) → Shorter n a → Shorter n b → Shorter n (or_else a b)
  or_else-Shorter none b ha hb = hb
  or_else-Shorter (some (t, rest)) b ha hb = ha

  pub or_else-ShorterRest :
      (a b : Option Text) → ShorterRest n a → ShorterRest n b → ShorterRest n (or_else a b)
  or_else-ShorterRest none b ha hb = hb
  or_else-ShorterRest (some rest) b ha hb = ha

  plus-Shorter_in : (p : ℕ → Bool) (s : Text) → length s < n → Shorter n (plus p s)
  plus-Shorter_in p s h = Shorter-mono (length s) n _ (omega arith) (plus-Shorter p s)

  one-ShorterRest_in : (c : ℕ) (s : Text) → length s < n → ShorterRest n (one c s)
  one-ShorterRest_in c s h = ShorterRest-mono (length s) n _ (omega arith) (one-ShorterRest c s)

pub pair_of-ShorterRest : (c d : ℕ) (s : Text) → ShorterRest (length s) (pair_of c d s)
unfolding pair_of
pair_of-ShorterRest c d s =
    >>=-ShorterRest (length s) (one c s) (one d) (one-ShorterRest c s)
      (one-ShorterRest_in (length s) d)

pub hex_integer-Shorter : (s : Text) → Shorter (length s) (hex_integer s)
unfolding hex_integer
hex_integer-Shorter s = >>=-Shorter n (plus is_digit s) _ (plus-Shorter is_digit s) λ size s₁ h.
    >>=-Shorter_rest n (pair_of b'\'' b'h' s₁) _
      (ShorterRest-mono (length s₁) n _ (omega arith) (pair_of-ShorterRest _ _ s₁))
      λ s₂ h₂.
        >>=-Shorter n (plus is_xdigit s₂) _ (plus-Shorter_in n is_xdigit s₂ h₂) λ t rest h₃. h₃
  where
    n : ℕ
    n = length s

variable_head2-Shorter : (s : Text) → Shorter (length s) (variable_head2 s)
unfolding variable_head2
variable_head2-Shorter [] = tt
variable_head2-Shorter (c ∷ s) = ground (arith, span-le is_word s)

numeric_slice-Shorter : (s : Text) → Shorter (length s) (numeric_slice s)
unfolding numeric_slice
numeric_slice-Shorter s = >>=-Shorter n (plus is_digit s) _ (plus-Shorter is_digit s) λ hi s₁ h.
    or_else-Shorter n _ (some (hi, s₁))
      (>>=-Shorter_rest n (one b':' s₁) _ (one-ShorterRest_in n b':' s₁ h) λ s₂ h₂.
        >>=-Shorter n (plus is_digit s₂) _ (plus-Shorter_in n is_digit s₂ h₂) λ t rest h₃. h₃)
      h
  where
    n : ℕ
    n = length s

variable_index-Shorter : (s : Text) → Shorter (length s) (variable_index s)
unfolding variable_index
variable_index-Shorter s =
    >>=-Shorter n _ _ (or_else-Shorter n _ _ (variable_head2-Shorter s) (numeric_slice-Shorter s))
      λ t s₁ h. >>=-Shorter_rest n (one b']' s₁) _ (one-ShorterRest_in n b']' s₁ h) λ rest h₂. h₂
  where
    n : ℕ
    n = length s

-- The same of what may throw: what is left is no longer than `n`.
abbrev pub NoLonger : ℕ → Lexed → Type 0
NoLonger n (lexed t rest) = length rest ≤ n
NoLonger n no_match = Unit {0}
NoLonger n thrown = Unit {0}

NoLonger-mono : (k n : ℕ) (o : Lexed) → k ≤ n → NoLonger k o → NoLonger n o
NoLonger-mono k n (lexed t rest) h l = omega arith
NoLonger-mono k n no_match h l = tt
NoLonger-mono k n thrown h l = tt

prepend-NoLonger : (n : ℕ) (t : Text) (o : Lexed) → NoLonger n o → NoLonger n (prepend t o)
prepend-NoLonger n t (lexed u rest) h = h
prepend-NoLonger n t no_match h = tt
prepend-NoLonger n t thrown h = tt

and_then-NoLonger :
    (n : ℕ) (o : Lexed) (next : Text → Lexed)
    → NoLonger n o
    → ((s : Text) → NoLonger (length s) (next s))
    → NoLonger n (Lexer.and_then o next)
and_then-NoLonger n (lexed t rest) next h k =
    prepend-NoLonger n t (next rest) (NoLonger-mono (length rest) n (next rest) h (k rest))
and_then-NoLonger n no_match next h k = tt
and_then-NoLonger n thrown next h k = tt

star_round-NoLonger :
    (o : Lexed) (s : Text) (more : Text → Lexed)
    → NoLonger (length s) o
    → ((t : Text) → NoLonger (length t) (more t))
    → NoLonger (length s) (star_round o s more)
unfolding star_round
star_round-NoLonger no_match s more h k = omega arith
star_round-NoLonger thrown s more h k = tt
star_round-NoLonger (lexed t rest) s more h k =
    prepend-NoLonger (length s) t (more rest)
      (NoLonger-mono (length rest) (length s) (more rest) h (k rest))

star-NoLonger :
    (k : ℕ) (rule : Text → Lexed)
    → ((s : Text) → NoLonger (length s) (rule s))
    → (s : Text) → NoLonger (length s) (star k rule s)
unfolding star
star-NoLonger zero rule h s = omega arith
star-NoLonger (suc k) rule h s =
    star_round-NoLonger (rule s) s (star k rule) (h s) (star-NoLonger k rule h)

or_throw-NoLonger : (n : ℕ) (o : Option (Text × Text)) → Shorter n o → NoLonger n (or_throw o)
or_throw-NoLonger n none h = tt
or_throw-NoLonger n (some (t, rest)) h = omega arith

or_no_match-NoLonger : (n : ℕ) (o : Option (Text × Text)) → Shorter n o → NoLonger n (or_no_match o)
or_no_match-NoLonger n none h = tt
or_no_match-NoLonger n (some (t, rest)) h = omega arith

-- A rule that begins with one byte.
after_one-NoLonger :
    (n : ℕ) (o : Option Text) (next : Text → Lexed)
    → ShorterRest n o
    → ((s : Text) → NoLonger (length s) (next s))
    → NoLonger n (elim o [ none ↦ no_match | some s ↦ next s ])
after_one-NoLonger n none next h k = tt
after_one-NoLonger n (some s) next h k = NoLonger-mono (length s) n (next s) (omega arith) (k s)

variable_tail-NoLonger : (s : Text) → NoLonger (length s) (variable_tail s)
unfolding variable_tail
variable_tail-NoLonger s =
    after_one-NoLonger (length s) (one b'[' s) _ (one-ShorterRest b'[' s)
      λ s₁. or_throw-NoLonger (length s₁) _ (variable_index-Shorter s₁)

variable2-NoLonger : (s : Text) → NoLonger (length s) (variable2 s)
unfolding variable2
variable2-NoLonger s =
    and_then-NoLonger (length s) _ _ (or_no_match-NoLonger (length s) _ (variable_head2-Shorter s))
      λ s₁. star-NoLonger (length s₁) variable_tail variable_tail-NoLonger s₁

dot_variable2-NoLonger : (s : Text) → NoLonger (length s) (dot_variable2 s)
unfolding dot_variable2
dot_variable2-NoLonger s =
    after_one-NoLonger (length s) (one b'.' s) _ (one-ShorterRest b'.' s)
      λ s₁. prepend-NoLonger (length s₁) (b'.' ∷ []) _ (variable2-NoLonger s₁)

pub variable-NoLonger : (s : Text) → NoLonger (length s) (variable s)
unfolding variable
variable-NoLonger s =
    and_then-NoLonger (length s) _ _ (variable2-NoLonger s)
      λ s₁. star-NoLonger (length s₁) dot_variable2 dot_variable2-NoLonger s₁
