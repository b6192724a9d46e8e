-- ===== src/Scheduler/Edit/Remove.antt =====
-- What removal and the start of a cycle do to the breakpoints.
use hgdb.Prelude.{
  ℕ, ◌≤◌, ◌==◌, ◌≡◌, refl, ap, ◌∙◌, Bool, true, false, inl, inr, ◌⊎◌, if◌then◌else◌, Option, none,
  some, List, [], ◌∷◌, ◌++◌, All, arith, ==_iff, length,
}
use hgdb.Prelude.Maps.{contains, erase, contains-erase, nat_key, insert}
use hgdb.Scheduler.{Kind, normal, data_, flag, without_flag, no_flags, DebugBreakPoint, Scheduler}
use hgdb.Scheduler.Next.{next_normal_breakpoints}
use hgdb.Scheduler.Next.Forward.{cursor, next_normal_breakpoints-Progress, Progress}
use hgdb.Scheduler.Edit.Drop.{
  remove_first, remove_assert_breakpoints, clear_breakpoints, start_breakpoint_evaluation,
  drop_data_flags, data_ids, erase_ids, clear_data_breakpoints,
}

abbrev HasOtherId : ℕ → DebugBreakPoint → Type 0
HasOtherId id b = (b.id == id) ≡ false

-- What is left of a breakpoint without the flag: nothing, if that was the last one.
abbrev pub Left : Kind → DebugBreakPoint → Option DebugBreakPoint × List DebugBreakPoint → Type 0
Left kind b (removed, rest) =
    ((no_flags (without_flag kind b.type) ≡ true) × (removed ≡ some b) × (rest ≡ []))
    ⊎ ((no_flags (without_flag kind b.type) ≡ false)
        × (removed ≡ none)
        × (rest ≡ record b { type = without_flag kind b.type } ∷ []))

-- Removal by an id: there is none, or the first breakpoint with the id is taken out of its place or
-- loses the flag, and all others stay.
abbrev pub Removal :
    ℕ → Kind → List DebugBreakPoint → Option DebugBreakPoint × List DebugBreakPoint → Type 0
Removal id kind bs (removed, rest) =
    (All (HasOtherId id) bs × (removed ≡ none) × (rest ≡ bs))
    ⊎ ((before : List DebugBreakPoint) × (b : DebugBreakPoint) × (after : List DebugBreakPoint)
        × (left : List DebugBreakPoint) × (bs ≡ before ++ b ∷ after)
        × All (HasOtherId id) before
        × (b.id ≡ id)
        × Left kind b (removed, left)
        × (rest ≡ before ++ (left ++ after)))

Removal-here :
    (id : ℕ) (kind : Kind) (b : DebugBreakPoint) (bs : List DebugBreakPoint) (c : Bool)
    → b.id ≡ id
    → no_flags (without_flag kind b.type) ≡ c
    → Removal id kind
        (b ∷ bs)
        (if c then (some b, bs) else (none, record b { type = without_flag kind b.type } ∷ bs))
Removal-here id kind b bs true same e =
    inr ([], b, bs, [], refl, tt, same, inl (e, refl, refl), refl)
Removal-here id kind b bs false same e =
    inr ([], b, bs, _, refl, tt, same, inr (e, refl, refl), refl)

Removal-later :
    (id : ℕ) (kind : Kind) (b : DebugBreakPoint) (bs : List DebugBreakPoint)
    (r : Option DebugBreakPoint × List DebugBreakPoint)
    → HasOtherId id b
    → Removal id kind bs r
    → Removal id kind (b ∷ bs) (r.0, b ∷ r.1)
Removal-later id kind b bs r other (inl (others, e, q)) = inl ((other, others), e, ap (◌∷◌ b) q)
Removal-later id kind b bs r other (inr (before, c, after, left, e, others, same, l, q)) =
    inr (b ∷ before, c, after, left, ap (◌∷◌ b) e, (other, others), same, l, ap (◌∷◌ b) q)

Removal-either :
    (id : ℕ) (kind : Kind) (b : DebugBreakPoint) (bs : List DebugBreakPoint)
    (r : Option DebugBreakPoint × List DebugBreakPoint) (c : Bool)
    → (b.id == id) ≡ c
    → Removal id kind bs r
    → Removal id kind (b ∷ bs) (
        if c
        then (if no_flags (without_flag kind b.type)
            then (some b, bs)
            else (none, record b { type = without_flag kind b.type } ∷ bs))
        else (r.0, b ∷ r.1))
Removal-either id kind b bs r true e h =
    Removal-here id kind b bs (no_flags (without_flag kind b.type)) ((==_iff b.id id).0 e) refl
Removal-either id kind b bs r false e h = Removal-later id kind b bs r e h

-- The private remove_breakpoint leaves a list without the id as it is; else it takes the flag from
-- the first breakpoint with the id, which goes with its last flag, and every other one stays.
pub remove_first-Removal :
    (id : ℕ) (kind : Kind) (bs : List DebugBreakPoint)
    → Removal id kind bs (remove_first id kind bs)
unfolding remove_first
remove_first-Removal id kind [] = inl (tt, refl, refl)
remove_first-Removal id kind (b ∷ bs) =
    Removal-either id kind b bs (remove_first id kind bs) (b.id == id) refl
      (remove_first-Removal id kind bs)

remove_first-head :
    (b : DebugBreakPoint) (bs : List DebugBreakPoint)
    → b.type ≡ flag normal
    → remove_first b.id normal (b ∷ bs) ≡ (some b, bs)
unfolding remove_first
remove_first-head b bs t = rw ((==_iff b.id b.id).1 refl, t, remove_first)

erased : (id : ℕ) (ids : List ℕ) → contains id (erase id ids) ≡ false
erased id ids = rw (contains-erase id id ids, (==_iff id id).1 refl)

-- With two breakpoints of one id, the first of the type normal and the second of the type data,
-- clear_data_breakpoints erases the first, and the data breakpoint stays.
pub clear_data_breakpoints_first :
    (s : Scheduler) (b d : DebugBreakPoint)
    → s.breakpoints ≡ b ∷ d ∷ []
    → b.id ≡ d.id
    → b.type ≡ flag normal
    → d.type ≡ flag data_
    → (clear_data_breakpoints s).breakpoints ≡ d ∷ []
unfolding clear_data_breakpoints drop_data_flags data_ids erase_ids insert contains
clear_data_breakpoints_first s b d e same tb td = rw e (ground arith)

-- After a start nothing counts as evaluated.
cursor-clear_breakpoints : (bs : List DebugBreakPoint) → cursor (clear_breakpoints bs) ≡ 0
unfolding clear_breakpoints
cursor-clear_breakpoints [] = refl
cursor-clear_breakpoints (b ∷ bs) = ground (arith, cursor-clear_breakpoints bs)

-- What Progress says where the cursor is at 0.
Progress-start :
    (s : Scheduler) (is : List ℕ) (s' : Scheduler)
    → cursor s.breakpoints ≡ 0
    → Progress s is s'
    → (is ≡ []) × (s.breakpoints ≡ []) ⊎ ((others : List ℕ) × (is ≡ 0 ∷ others))
Progress-start s [] s' c p = inl (refl, no_breakpoints s.breakpoints (omega arith))
  where
    no_breakpoints : (bs : List DebugBreakPoint) → length bs ≤ 0 → bs ≡ []
    no_breakpoints [] h = refl
    no_breakpoints (b ∷ bs) h = absurd (omega arith)
Progress-start s (i ∷ is) s' c p = inr (is, ap (λ j. j ∷ is) (p.0 ∙ c))

-- start_breakpoint_evaluation begins a cycle: there is no current breakpoint, and the next normal
-- breakpoints begin with the first of the list, or there are none at all.
pub next_normal_breakpoints-start :
    (single : Bool) (s : Scheduler)
    → let s₀ = start_breakpoint_evaluation s in
      (s₀.current_breakpoint_id ≡ none)
      × ((is : List ℕ) × (s' : Scheduler) × (next_normal_breakpoints single s₀ ≡ some (is, s'))
          × ((is ≡ []) × (s₀.breakpoints ≡ []) ⊎ ((others : List ℕ) × (is ≡ 0 ∷ others))))
unfolding start_breakpoint_evaluation
next_normal_breakpoints-start single s =
    let (is, s', e, p) = next_normal_breakpoints-Progress single (start_breakpoint_evaluation s) in
    (
      refl,
      (
        is,
        s',
        e,
        Progress-start _ is s' (cursor-clear_breakpoints (remove_assert_breakpoints s).breakpoints)
            p,
      ),
    )
