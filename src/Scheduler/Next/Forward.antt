-- ===== src/Scheduler/Next/Forward.antt =====
-- Evaluation in a cycle goes forward: what next_normal_breakpoints and the step over choose.
use native.Mathlib.Decide.{dec_lt}
use hgdb.Prelude.{
  ℕ, zero, suc, ◌+◌, ◌≤◌, ◌<◌, ◌==◌, ltb, ◌≡◌, refl, ap, ◌∙◌, Bool, true, false, not, ◌&&◌,
  Bool-cases, Option-cases, inl, inr, if◌then◌else◌, Option, none, some, ◌>>=◌, List, [], ◌∷◌,
  length, get_elem?, set, is_empty, arith, get_elem?-lt, length-set,
}
use hgdb.Prelude.Maps.{nat_key}
use hgdb.Scheduler.{normal, is_kind, DebugBreakPoint, Scheduler}
use hgdb.Scheduler.Next.{
  last_evaluated, start_index, scan_breakpoints, mark_evaluated, choose_forward,
  next_normal_breakpoints, id_at,
}
use hgdb.Scheduler.Next.Marks.{Marks, mark_evaluated-Marks}

-- The number of breakpoints up to the last one that was evaluated: where evaluation goes on.
abbrev pub cursor : List DebugBreakPoint → ℕ
cursor [] = 0
cursor (b ∷ bs) =
    let rest = cursor bs in if rest == 0 then (if b.evaluated then 1 else 0) else suc rest

abbrev behind : ℕ → Option ℕ → ℕ → Option ℕ
behind i found zero = found
behind i found (suc n) = some (i + n)

last_evaluated-cursor :
    (i : ℕ) (found : Option ℕ) (bs : List DebugBreakPoint)
    → last_evaluated i found bs ≡ behind i found (cursor bs)
unfolding last_evaluated
last_evaluated-cursor i found [] = refl
last_evaluated-cursor i found (b ∷ bs) =
    ground (arith, last_evaluated-cursor (suc i) (if b.evaluated then some i else found) bs)

pub cursor-le : (bs : List DebugBreakPoint) → cursor bs ≤ length bs
cursor-le [] = omega arith
cursor-le (b ∷ bs) = ground (arith, cursor-le bs)

start_index-behind :
    (c n : ℕ) → 0 < n → start_index (behind 0 none c) n ≡ (if ltb c n then some c else none)
start_index-behind zero n h = ground arith
start_index-behind (suc c) n h = ground arith

cursor-set_evaluated :
    (i : ℕ) (bs : List DebugBreakPoint) (b : DebugBreakPoint)
    → get_elem? bs i ≡ some b
    → (i < cursor (set bs i (record b { evaluated = true })))
      × (cursor bs ≤ cursor (set bs i (record b { evaluated = true })))
cursor-set_evaluated i [] b h = cc
cursor-set_evaluated zero (c ∷ bs) b h = ground arith
cursor-set_evaluated (suc i) (c ∷ bs) b h = ground (arith, cursor-set_evaluated i bs b h)

cursor-mark_evaluated :
    (is : List ℕ) (bs : List DebugBreakPoint) → cursor bs ≤ cursor (mark_evaluated is bs)
unfolding mark_evaluated
cursor-mark_evaluated [] bs = omega arith
cursor-mark_evaluated (i ∷ is) bs = elim (Option-cases (get_elem? bs i)) [
  | inl e ↦ rw (e, mark_evaluated) (cursor-mark_evaluated is bs)
  | inr (b, e) ↦
      rw (e, mark_evaluated)
        (omega (arith, (cursor-set_evaluated i bs b e).1, cursor-mark_evaluated is _))
]

length-mark_evaluated :
    (is : List ℕ) (bs : List DebugBreakPoint) → length (mark_evaluated is bs) ≡ length bs
unfolding mark_evaluated
length-mark_evaluated [] bs = refl
length-mark_evaluated (i ∷ is) bs = elim (Option-cases (get_elem? bs i)) [
  | inl e ↦ rw (e, mark_evaluated) (length-mark_evaluated is bs)
  | inr (b, e) ↦ rw (e, mark_evaluated) (length-mark_evaluated is _ ∙ length-set bs i _)
]

cursor-mark_first :
    (i : ℕ) (is : List ℕ) (bs : List DebugBreakPoint)
    → i < length bs
    → i < cursor (mark_evaluated (i ∷ is) bs)
unfolding mark_evaluated
cursor-mark_first i is bs h =
    let (b, e) = get_elem?-lt bs i h in
    rw (e, mark_evaluated)
      (omega (arith, (cursor-set_evaluated i bs b e).0, cursor-mark_evaluated is _))

-- What a call comes to: nothing changes once all was evaluated; else evaluation goes on at the
-- cursor, which moves beyond what it was.
abbrev pub Progress : Scheduler → List ℕ → Scheduler → Type 0
Progress s [] s' = (s' ≡ s) × (cursor s.breakpoints ≡ length s.breakpoints)
Progress s (i ∷ is) s' =
    (i ≡ cursor s.breakpoints)
    × (i < cursor s'.breakpoints)
    × (s'.current_breakpoint_id ≡ id_at s.breakpoints i)
    × (length s'.breakpoints ≡ length s.breakpoints)
    × Marks (i ∷ is) s.breakpoints s'.breakpoints

map-some {ℓ κ} :
    {A : Type ℓ} {B : Type κ} (o : Option A) (g : A → B) {a : A}
    → o ≡ some a
    → (x : B) × ((o >>= λ a. some (g a)) ≡ some x)
map-some o g {a} h = (g a, rw h)

scan_breakpoints-some :
    (i : ℕ) (forward : Bool) (bs : List DebugBreakPoint)
    → i < length bs
    → (is : List ℕ) × (scan_breakpoints i forward bs ≡ some is)
unfolding scan_breakpoints
scan_breakpoints-some i forward bs h =
    let (b, e) = get_elem?-lt bs i h in map-some (get_elem? bs i) _ e

if-some {ℓ} :
    {A : Type ℓ} (c : Bool) (o : Option A) (d : A) {a : A}
    → o ≡ some a
    → (x : A) × ((if c then o else some d) ≡ some x)
if-some true o d {a} h = (a, h)
if-some false o d h = (d, refl)

choose_forward-Progress :
    (single : Bool) (s : Scheduler)
    → cursor s.breakpoints < length s.breakpoints
    → (is : List ℕ) × (s' : Scheduler) × (choose_forward single (cursor s.breakpoints) s
        ≡ some (is, s'))
      × Progress s is s'
unfolding choose_forward
choose_forward-Progress single s h =
    let (b, e) = get_elem?-lt s.breakpoints (cursor s.breakpoints) h in
    let (scanned, es) = scan_breakpoints-some (cursor s.breakpoints) true s.breakpoints h in
    let (others, eo) = if-some (not single && is_kind normal b.type) _ [] es in
    (
      cursor s.breakpoints ∷ others,
      record s {
        current_breakpoint_id = some b.id;
        breakpoints = mark_evaluated (cursor s.breakpoints ∷ others) s.breakpoints;
      },
      rw (e, eo),
      (
        refl,
        cursor-mark_first (cursor s.breakpoints) others s.breakpoints h,
        rw e,
        length-mark_evaluated (cursor s.breakpoints ∷ others) s.breakpoints,
        mark_evaluated-Marks (cursor s.breakpoints ∷ others) s.breakpoints,
      ),
    )

empty_cursor : (bs : List DebugBreakPoint) → is_empty bs ≡ true → cursor bs ≡ length bs
empty_cursor [] h = refl
empty_cursor (b ∷ bs) h = cc

length_pos : (bs : List DebugBreakPoint) → is_empty bs ≡ false → 0 < length bs
length_pos [] h = cc
length_pos (b ∷ bs) h = omega arith

lt→ltb : (a b : ℕ) → a < b → ltb a b ≡ true
lt→ltb a b h = ground arith

not_lt→ltb : (a b : ℕ) → ¬ (a < b) → ltb a b ≡ false
not_lt→ltb a b h = ground arith

pub next_normal_breakpoints-Progress :
    (single : Bool) (s : Scheduler)
    → (is : List ℕ) × (s' : Scheduler) × (next_normal_breakpoints single s ≡ some (is, s'))
      × Progress s is s'
unfolding next_normal_breakpoints
next_normal_breakpoints-Progress single s = elim (Bool-cases (is_empty s.breakpoints)) [
  | inl none_inserted ↦ ([], s, rw none_inserted, (refl, empty_cursor s.breakpoints none_inserted))
  | inr inserted ↦
      let start =
        ap (λ c. start_index c (length s.breakpoints)) (last_evaluated-cursor 0 none s.breakpoints)
        ∙ start_index-behind (cursor s.breakpoints) (length s.breakpoints)
            (length_pos s.breakpoints inserted) in
      elim (dec_lt (cursor s.breakpoints) (length s.breakpoints)) [
        | yes more ↦
            let (is, s', e, p) = choose_forward-Progress single s more in
            (is, s', rw (inserted, start, lt→ltb _ _ more) e, p)
        | no over ↦ (
          [],
          s,
          rw (inserted, start, not_lt→ltb _ _ over) refl,
          (refl, omega (arith, cursor-le s.breakpoints)),
        )
      ]
]
