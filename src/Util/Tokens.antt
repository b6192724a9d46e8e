-- ===== src/Util/Tokens.antt =====
-- get_tokens, and join.
use hgdb.Prelude.{
  Text, ℕ, ◌≡◌, refl, ap, ◌∙◌, true, false, if◌then◌else◌, List, [], ◌∷◌, ◌++◌, is_empty, All,
  Bool-cases, inl, inr, append_assoc, append-nil,
}
use hgdb.Prelude.Maps.{contains, nat_key}
use hgdb.Util.{scan_tokens, remove_empty, get_tokens, join_rest, join}

-- No byte of the text is one of the delimiter's.
abbrev pub Avoids : Text → Text → Type 0
Avoids delimiter = All (λ c. contains c delimiter ≡ false)

-- A token is not empty and holds no delimiter.
abbrev pub IsToken : Text → Text → Type 0
IsToken delimiter t = (is_empty t ≡ false) × Avoids delimiter t

Avoids-snoc :
    (delimiter t : Text) (c : ℕ)
    → Avoids delimiter t
    → contains c delimiter ≡ false
    → Avoids delimiter (t ++ c ∷ [])
Avoids-snoc delimiter [] c h e = (e, tt)
Avoids-snoc delimiter (x ∷ t) c h e = (h.0, Avoids-snoc delimiter t c h.1 e)

-- The token read so far, put before the others if it holds anything.
abbrev flush : Text → List Text → List Text
flush token ts = if is_empty token then ts else token ∷ ts

flush-All :
    (delimiter token : Text) (ts : List Text)
    → Avoids delimiter token
    → All (IsToken delimiter) ts
    → All (IsToken delimiter) (flush token ts)
flush-All delimiter [] ts h k = k
flush-All delimiter (x ∷ token) ts h k = ((refl, h), k)

scan_tokens-All :
    (delimiter token line : Text)
    → Avoids delimiter token
    → All (IsToken delimiter) (scan_tokens delimiter token line)
unfolding scan_tokens
scan_tokens-All delimiter token [] h = flush-All delimiter token [] h tt
scan_tokens-All delimiter token (c ∷ rest) h = elim (Bool-cases (contains c delimiter)) [
  | inl e ↦
      rw (e, scan_tokens) (flush-All delimiter token _ h (scan_tokens-All delimiter [] rest tt))
  | inr e ↦
      rw (e, scan_tokens)
        (scan_tokens-All delimiter (token ++ c ∷ []) rest (Avoids-snoc delimiter token c h e))
]

remove_empty_lem :
    (delimiter : Text) (ts : List Text) → All (IsToken delimiter) ts → remove_empty ts ≡ ts
unfolding remove_empty
remove_empty_lem delimiter [] h = refl
remove_empty_lem delimiter (t ∷ ts) h =
    rw (h.0.0, remove_empty) (ap (◌∷◌ t) (remove_empty_lem delimiter ts h.1))

-- Every token that get_tokens returns is not empty and holds no byte of the delimiter.
pub get_tokens-All : (line delimiter : Text) → All (IsToken delimiter) (get_tokens line delimiter)
unfolding get_tokens
get_tokens-All line delimiter =
    let tokens = scan_tokens-All delimiter [] line tt in
    rw (remove_empty_lem delimiter (scan_tokens delimiter [] line) tokens) tokens

-- The bytes of a line that are in no delimiter.
abbrev pub without : Text → Text → Text
without delimiter [] = []
without delimiter (c ∷ line) =
    let rest = without delimiter line in if contains c delimiter then rest else c ∷ rest

abbrev pub concat : List Text → Text
concat [] = []
concat (t ∷ ts) = t ++ concat ts

concat-flush : (token : Text) (ts : List Text) → concat (flush token ts) ≡ token ++ concat ts
concat-flush [] ts = refl
concat-flush (x ∷ token) ts = refl

concat-scan_tokens :
    (delimiter token line : Text)
    → concat (scan_tokens delimiter token line) ≡ token ++ without delimiter line
unfolding scan_tokens
concat-scan_tokens delimiter token [] = concat-flush token []
concat-scan_tokens delimiter token (c ∷ rest) = elim (Bool-cases (contains c delimiter)) [
  | inl e ↦
      rw (e, scan_tokens)
        (concat-flush token _ ∙ ap (◌++◌ token) (concat-scan_tokens delimiter [] rest))
  | inr e ↦
      rw (e, scan_tokens)
        (concat-scan_tokens delimiter (token ++ c ∷ []) rest ∙ append_assoc token (c ∷ []) _)
]

-- Put together, the tokens are the line without the bytes of the delimiter: nothing is lost,
-- added or reordered.
pub concat-get_tokens :
    (line delimiter : Text) → concat (get_tokens line delimiter) ≡ without delimiter line
unfolding get_tokens
concat-get_tokens line delimiter =
    ap concat (remove_empty_lem delimiter _ (scan_tokens-All delimiter [] line tt))
    ∙ concat-scan_tokens delimiter [] line

scan_tokens-append :
    (delimiter token t line : Text)
    → Avoids delimiter t
    → scan_tokens delimiter token (t ++ line) ≡ scan_tokens delimiter (token ++ t) line
unfolding scan_tokens
scan_tokens-append delimiter token [] line h = rw append-nil
scan_tokens-append delimiter token (c ∷ t) line h =
    rw (h.0, scan_tokens)
      (scan_tokens-append delimiter (token ++ c ∷ []) t line h.1
        ∙ ap (λ w. scan_tokens delimiter w line) (append_assoc token (c ∷ []) t))

flush_lem : (delimiter t : Text) (ts : List Text) → IsToken delimiter t → flush t ts ≡ t ∷ ts
flush_lem delimiter t ts h = rw h.0

scan_tokens-join_rest :
    (delimiter t : Text) (d : ℕ) (ts : List Text)
    → contains d delimiter ≡ true
    → IsToken delimiter t
    → All (IsToken delimiter) ts
    → scan_tokens delimiter t (join_rest ts (d ∷ [])) ≡ t ∷ ts
unfolding scan_tokens join_rest
scan_tokens-join_rest delimiter t d [] e h k = flush_lem delimiter t [] h
scan_tokens-join_rest delimiter t d (u ∷ ts) e h k =
    rw (e, scan_tokens)
      (flush_lem delimiter t _ h
        ∙ ap (◌∷◌ t) (
            scan_tokens-append delimiter [] u (join_rest ts (d ∷ [])) k.0.1
            ∙ scan_tokens-join_rest delimiter u d ts e k.0 k.1))

-- Texts that are not empty and hold no byte of the delimiter, joined by one byte of the delimiter,
-- are split into the same texts again.
pub get_tokens-join :
    (delimiter t : Text) (d : ℕ) (ts : List Text)
    → contains d delimiter ≡ true
    → IsToken delimiter t
    → All (IsToken delimiter) ts
    → get_tokens (join t ts (d ∷ [])) delimiter ≡ t ∷ ts
unfolding get_tokens join
get_tokens-join delimiter t d ts e h k =
    ap remove_empty (
      scan_tokens-append delimiter [] t (join_rest ts (d ∷ [])) h.1
      ∙ scan_tokens-join_rest delimiter t d ts e h k)
    ∙ remove_empty_lem delimiter (t ∷ ts) (h, k)
