-- ===== src/Vcd/Values.antt =====
-- The values of a trace, printed and read.
use hgdb.Prelude.{
  Text, ℕ, zero, suc, ◌+◌, ◌≤◌, ◌==◌, ◌≡◌, refl, ap, ◌∙◌, Bool, true, false, some, List, [], ◌∷◌,
  ◌++◌, All, length, arith, text_eq,
}
use hgdb.Vcd.{Stream, is_blank, next_token, read_token, Event, time_change, value_change, VcdParser}
use hgdb.Vcd.Parser.{
  scalar, returned, add_value, classify, is_scalar, timestamp_of, values_from, values_line,
  parse_vcd_values,
}
use hgdb.Vcd.Tokens.{IsInk, stream_at, next_token-ink}

-- A line of the values: a new time with its digits, a value of one bit, or one of several.
pub data Change : Type 0 where
  at : Text → ℕ → Change
  bit : ℕ → Text → Change
  bits : Text → ℕ → Text → Change

abbrev pub IsChange : Change → Type 0
IsChange (at digits t) = All IsInk digits × (timestamp_of digits ≡ some t)
IsChange (bit v identifier) = (is_scalar v ≡ true) × All IsInk identifier
IsChange (bits value d identifier) = All IsInk value × All IsInk (d ∷ identifier)

-- The text of the lines; the last argument follows it.
abbrev pub print : List Change → Text
print [] = []
print (at digits t ∷ changes) = b'#' ∷ digits ++ 10 ∷ print changes
print (bit v identifier ∷ changes) = v ∷ identifier ++ 10 ∷ print changes
print (bits value d identifier ∷ changes) =
    b'b' ∷ value ++ b' ' ∷ (d ∷ identifier ++ 10 ∷ print changes)

-- The calls of the callbacks without the positions.
pub data Seen : Type 0 where
  new_time : ℕ → Seen
  told : ℕ → Text → Text → Bool → Seen

abbrev pub seen : List Event → List Seen
seen [] = []
seen (time_change t ∷ events) = new_time t ∷ seen events
seen (value_change t identifier value is_event start end ∷ events) =
    told t identifier value is_event ∷ seen events
seen (_ ∷ events) = seen events

-- What the callbacks are told of lines from a time on, the last one first, before what they were told.
abbrev pub told_onto : ℕ → List Change → List Seen → List Seen
told_onto time [] before = before
told_onto time (at digits t ∷ changes) before = told_onto t changes (new_time t ∷ before)
told_onto time (bit v identifier ∷ changes) before =
    told_onto time changes (told time identifier (v ∷ []) true ∷ before)
told_onto time (bits value d identifier ∷ changes) before =
    told_onto time changes (told time (d ∷ identifier) value false ∷ before)

abbrev with_stream : VcdParser → Stream → VcdParser
with_stream p s = record p { stream = s }

abbrev behind : ℕ → Text → ℕ
behind position token = position + 0 + suc (suc (length token))

-- A first token that is followed by a blank.
read_word :
    (d c : ℕ) (token rest : Text) (position : ℕ)
    → All IsInk (d ∷ token)
    → is_blank c ≡ true
    → next_token (stream_at (d ∷ token ++ c ∷ rest) position)
      ≡ (d ∷ token, stream_at rest (behind position token))
read_word d c token rest position ink blank = next_token-ink [] token rest d c position tt ink blank

scalar-IsInk : (v : ℕ) → is_scalar v ≡ true → IsInk v
scalar-IsInk v h = ground arith

not_hash : (v : ℕ) → is_scalar v ≡ true → (v == b'#') ≡ false
not_hash v h = ground arith

classify_scalar : (v : ℕ) (rest : Text) → is_scalar v ≡ true → classify v rest ≡ scalar v rest
unfolding classify
classify_scalar v rest h = rw (not_hash v h) (rw h refl)

values_from-token :
    (n time position next : ℕ) (p : VcdParser) (ahead token rest : Text)
    → next_token (stream_at ahead position) ≡ (token, stream_at rest next)
    → values_from (suc n) time (with_stream p (stream_at ahead position))
      ≡ values_line (values_from n) n position time token (with_stream p (stream_at rest next))
unfolding values_from
values_from-token n time position next p ahead token rest word =
    ap (λ (x : Text × Stream). values_line (values_from n) n position time x.0 (with_stream p x.1))
      word

module _ (n time position : ℕ) (p : VcdParser) (rest : Text) where
  time_step :
      (digits : Text) (t : ℕ)
      → All IsInk digits
      → timestamp_of digits ≡ some t
      → (next : ℕ) × (q : VcdParser) × (values_from
            (suc n)
            time
            (with_stream p (stream_at (b'#' ∷ digits ++ 10 ∷ rest) position))
          ≡ values_from n t (with_stream q (stream_at rest next)))
        × (seen q.events ≡ new_time t ∷ seen p.events)
  unfolding values_line classify
  time_step digits t ink stamp =
      let word = read_word b'#' 10 digits rest position (refl, ink) refl in
      (
        behind position digits,
        record p { events = time_change t ∷ p.events },
        values_from-token n time position _ p _ _ rest word ∙ rw (stamp, values_line) refl,
        refl,
      )

  bit_step :
      (v : ℕ) (identifier : Text)
      → is_scalar v ≡ true
      → All IsInk identifier
      → (next : ℕ) × (q : VcdParser) × (values_from
            (suc n)
            time
            (with_stream p (stream_at (v ∷ identifier ++ 10 ∷ rest) position))
          ≡ values_from n time (with_stream q (stream_at rest next)))
        × (seen q.events ≡ told time identifier (v ∷ []) true ∷ seen p.events)
  unfolding values_line
  bit_step v identifier one ink =
      let word = read_word v 10 identifier rest position (scalar-IsInk v one, ink) refl in
      let next = behind position identifier in
      let q = record p {
        events = value_change time identifier (v ∷ []) true position next ∷ p.events;
      } in
      (
        next,
        q,
        values_from-token n time position _ p _ _ rest word
            ∙ rw (classify_scalar v identifier one, values_line) refl,
        refl,
      )

  bits_step :
      (value identifier : Text) (d : ℕ)
      → All IsInk value
      → All IsInk (d ∷ identifier)
      → (next : ℕ) × (q : VcdParser) × (values_from (suc n) time (
            with_stream p
              (stream_at (b'b' ∷ value ++ b' ' ∷ (d ∷ identifier ++ 10 ∷ rest)) position))
          ≡ values_from n time (with_stream q (stream_at rest next)))
        × (seen q.events ≡ told time (d ∷ identifier) value false ∷ seen p.events)
  unfolding values_line classify
  bits_step value identifier d ink ink' =
      let middle = behind position value in
      let next = behind middle identifier in
      let word =
        read_word b'b' b' ' value (d ∷ identifier ++ 10 ∷ rest) position (refl, ink) refl in
      let word' = read_word d 10 identifier rest middle ink' refl in
      let q = record p {
        events = value_change time (d ∷ identifier) value false position next ∷ p.events;
      } in
      (
        next,
        q,
        values_from-token n time position _ p _ _ _ word
            ∙ ap
                (λ (x : Text × Stream).
                  values_from n time (add_value position time x.0 value false (with_stream p x.1)))
                word',
        refl,
      )

-- At the end of the text the zero byte is a token, which is passed over, and then there is none.
print_end :
    (n time position : ℕ) (p : VcdParser)
    → (q : VcdParser) × (values_from (suc (suc n)) time (with_stream p (stream_at [] position))
        ≡ returned true q)
      × (seen q.events ≡ seen p.events)
unfolding values_from values_line next_token read_token classify text_eq
print_end n time position p = (_, refl, refl)

told_onto-seen :
    (time : ℕ) (changes : List Change) (before after : List Seen)
    → before ≡ after
    → told_onto time changes before ≡ told_onto time changes after
told_onto-seen time changes before after e = ap (told_onto time changes) e

values_from-print :
    (changes : List Change) (n time position : ℕ) (p : VcdParser)
    → All IsChange changes
    → length changes + 2 ≤ n
    → (q : VcdParser) × (values_from n time (with_stream p (stream_at (print changes) position))
        ≡ returned true q)
      × (seen q.events ≡ told_onto time changes (seen p.events))
values_from-print changes zero time position p good enough = absurd (omega arith)
values_from-print [] (suc zero) time position p good enough = absurd (omega arith)
values_from-print [] (suc (suc n)) time position p good enough = print_end n time position p
values_from-print (at digits t ∷ changes) (suc n) time position p ((ink, stamp), good) enough =
    let (next, q, step, heard) = time_step n time position p (print changes) digits t ink stamp in
    let (q', run, heard') = values_from-print changes n t next q good (omega arith) in
    (q', step ∙ run, heard' ∙ told_onto-seen t changes _ _ heard)
values_from-print (bit v identifier ∷ changes) (suc n) time position p ((one, ink), good) enough =
    let (next, q, step, heard) = bit_step n time position p (print changes) v identifier one ink in
    let (q', run, heard') = values_from-print changes n time next q good (omega arith) in
    (q', step ∙ run, heard' ∙ told_onto-seen time changes _ _ heard)
values_from-print (bits value d identifier ∷ changes) (suc n) time position p ((ink, ink'), good)
      enough =
    let (next, q, step, heard) =
      bits_step n time position p (print changes) value identifier d ink ink' in
    let (q', run, heard') = values_from-print changes n time next q good (omega arith) in
    (q', step ∙ run, heard' ∙ told_onto-seen time changes _ _ heard)

-- The values of a trace that are printed line by line, times that are read as they are, values of one
-- bit, and values of several bits with an identifier, none of them with a blank inside: with fuel for a
-- token of each line and two more, parse_vcd_values reads them to the end, and tells the callbacks of
-- every line in its order, with the time of the last line that set it, or 0 before the first.
pub parse_vcd_values-print :
    (changes : List Change) (n position : ℕ) (p : VcdParser)
    → All IsChange changes
    → length changes + 2 ≤ n
    → (q : VcdParser) × (parse_vcd_values n (record p {
      stream = record { ahead = print changes; position = position; at_end = false };
    })
        ≡ returned true q)
      × (seen q.events ≡ told_onto 0 changes (seen p.events))
unfolding parse_vcd_values
parse_vcd_values-print changes n position p good enough =
    values_from-print changes n 0 position p good enough
