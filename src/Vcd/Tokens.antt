-- ===== src/Vcd/Tokens.antt =====
-- The tokens of a stream.
use hgdb.Prelude.{
  Text, ℕ, suc, ◌+◌, ◌≡◌, refl, sym, ap, ◌∙◌, true, false, [], ◌∷◌, ◌++◌, All, length, is_empty,
  arith, append-nil, append_assoc,
}
use hgdb.Vcd.{Stream, is_blank, read_token, next_token}

abbrev pub IsBlank : ℕ → Type 0
IsBlank c = is_blank c ≡ true

abbrev pub IsInk : ℕ → Type 0
IsInk c = is_blank c ≡ false

is_empty-append_one : (s : Text) (c : ℕ) → is_empty (s ++ c ∷ []) ≡ false
is_empty-append_one [] c = refl
is_empty-append_one (d ∷ s) c = refl

abbrev pub stream_at : Text → ℕ → Stream
stream_at rest n = record { ahead = rest; position = n; at_end = false }

abbrev read_at : Text → Text → ℕ → Text × Stream
read_at token rest n = (token, stream_at rest n)

same_read : (s t rest : Text) (m n : ℕ) → s ≡ t → m ≡ n → read_at s rest m ≡ read_at t rest n
same_read s t rest m n e f = rw (e, f) refl

read_token-ink :
    (word token rest : Text) (c position : ℕ)
    → All IsInk token
    → IsBlank c
    → is_empty (word ++ token) ≡ false
    → read_token word (token ++ c ∷ rest) position ≡ (
      word ++ token,
      record { ahead = rest; position = position + suc (length token); at_end = false },
    )
unfolding read_token
read_token-ink word [] rest c position ink blank full =
    let nonempty : is_empty word ≡ false = ap is_empty (sym (append-nil word)) ∙ full in
    rw (blank, nonempty, read_token)
      (same_read word (word ++ []) rest _ _ (sym (append-nil word)) (omega arith))
read_token-ink word (d ∷ token) rest c position (first, ink) blank full =
    let longer = append_assoc word (d ∷ []) token in
    let rest_read =
      read_token-ink (word ++ d ∷ []) token rest c (suc position) ink blank
        (ap is_empty longer ∙ full) in
    rw (first, read_token) (rest_read ∙ same_read _ _ rest _ _ longer (omega arith))

-- A token without blanks, behind blanks and before one, is read as it is; the stream goes on behind
-- the blank that ended it.
pub next_token-ink :
    (blanks token rest : Text) (d c position : ℕ)
    → All IsBlank blanks
    → All IsInk (d ∷ token)
    → IsBlank c
    → next_token
        (record { ahead = blanks ++ d ∷ token ++ c ∷ rest; position = position; at_end = false })
      ≡ (
        d ∷ token,
        record {
          ahead = rest;
          position = position + length blanks + suc (suc (length token));
          at_end = false;
        },
      )
unfolding next_token read_token
next_token-ink [] token rest d c position blank (first, ink) ends =
    rw (first, next_token)
      (read_token-ink (d ∷ []) token rest c (suc position) ink ends refl
        ∙ same_read _ _ rest _ _ refl (omega arith))
next_token-ink (b ∷ blanks) token rest d c position (first, blank) ink ends =
    rw (first, next_token)
      (next_token-ink blanks token rest d c (suc position) blank ink ends
        ∙ same_read _ _ rest _ _ refl (omega arith))
