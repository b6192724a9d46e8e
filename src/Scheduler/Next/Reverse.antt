-- ===== src/Scheduler/Next/Reverse.antt =====
-- When next_reverse_breakpoints has a result.
use hgdb.Prelude.{
  ℕ, zero, suc, ◌-◌, ◌≤◌, ◌<◌, ◌==◌, ◌≡◌, ◌≢◌, refl, Bool, true, false, Bool-cases, is_empty,
  Option-cases, inl, inr, ◌↔◌, Option, none, some, >>=-eq-some, List, [], ◌∷◌, length, get_elem?,
  arith, lt-get_elem?,
}
use hgdb.Scheduler.{DebugBreakPoint, Scheduler}
use hgdb.Scheduler.Next.{
  id_at, find_down, reverse_from, reverse_target, choose_backward, next_reverse_breakpoints,
}
use hgdb.Scheduler.Next.Backward.{
  find_down-none, none-find_down, find_down-lt, choose_backward-some,
}

-- The current breakpoint is not one of those that are inserted.
abbrev pub IsLost : Scheduler → Type 0
IsLost s =
    (is_empty s.breakpoints ≡ false)
    × (id : ℕ) × (s.current_breakpoint_id ≡ some id)
    × ((j : ℕ) → id_at s.breakpoints j ≢ some id)

reverse_from-none :
    (id last : ℕ) (reversed : Bool) (head earlier : Option ℕ)
    → reverse_from id reversed last head earlier ≡ none
    → (earlier ≡ none) × (head ≢ some id)
unfolding reverse_from
reverse_from-none id last reversed none earlier e = (e, λ q. cc)
reverse_from-none id last true (some j) earlier e = ground arith
reverse_from-none id last false (some j) earlier e = ground arith

none-reverse_from :
    (id last : ℕ) (reversed : Bool) (head earlier : Option ℕ)
    → earlier ≡ none
    → head ≢ some id
    → reverse_from id reversed last head earlier ≡ none
unfolding reverse_from
none-reverse_from id last reversed none earlier e h = e
none-reverse_from id last reversed (some j) earlier e h = elim (Bool-cases (j == id)) [
  | inl same ↦ absurd (h (ground arith))
  | inr other ↦ rw other e
]

reverse_from-lt :
    (id last : ℕ) (reversed : Bool) (head earlier : Option ℕ) (i : ℕ)
    → (earlier ≡ some i → i < last)
    → reverse_from id reversed last head earlier ≡ some i
    → i ≤ last
unfolding reverse_from
reverse_from-lt id last reversed none earlier i h e = omega (arith, h e)
reverse_from-lt id last true (some j) earlier i h e = elim (Bool-cases (j == id)) [
  | inl same ↦ ground arith
  | inr other ↦ omega (arith, h (rw other at e))
]
reverse_from-lt id last false (some j) earlier i h e = elim (Bool-cases (j == id)) [
  | inl same ↦ ground arith
  | inr other ↦ omega (arith, h (rw other at e))
]

reverse_target-lt :
    (reversed : Bool) (s : Scheduler) (i : ℕ)
    → 0 < length s.breakpoints
    → reverse_target reversed s ≡ some i
    → i < length s.breakpoints
unfolding reverse_target
reverse_target-lt reversed s i h e = elim (Option-cases s.current_breakpoint_id) [
  | inl q ↦ ground arith
  | inr (id, q) ↦ omega (
    arith,
    reverse_from-lt id _ reversed _ _ i (find_down-lt id _ s.breakpoints)
        (rw (q, reverse_target) at e),
  )
]

length_pos : (bs : List DebugBreakPoint) → is_empty bs ≡ false → 0 < length bs
length_pos [] h = cc
length_pos (b ∷ bs) h = omega arith

id_at-lt : (bs : List DebugBreakPoint) (j : ℕ) {id : ℕ} → id_at bs j ≡ some id → j < length bs
id_at-lt bs j e =
    let (b, q, _) = >>=-eq-some (get_elem? bs j) (λ b. some b.id) e in lt-get_elem? bs j q

not_found-IsLost :
    (s : Scheduler) (id : ℕ)
    → is_empty s.breakpoints ≡ false
    → s.current_breakpoint_id ≡ some id
    → find_down id (length s.breakpoints - 1) s.breakpoints ≡ none
    → id_at s.breakpoints 0 ≢ some id
    → IsLost s
not_found-IsLost s id inserted q low head = (inserted, id, q, nowhere)
  where
    nowhere : (j : ℕ) → id_at s.breakpoints j ≢ some id
    nowhere zero e = head e
    nowhere (suc j) e =
        none-find_down id _ s.breakpoints low j (omega (arith, id_at-lt s.breakpoints (suc j) e)) e

undefined-IsLost :
    (reversed single : Bool) (s : Scheduler)
    → next_reverse_breakpoints reversed single s ≡ none
    → IsLost s
unfolding next_reverse_breakpoints reverse_target
undefined-IsLost reversed single s e = elim (Bool-cases (is_empty s.breakpoints)) [
  | inl empty ↦ cc (rw empty at e)
  | inr inserted ↦ elim (Option-cases (reverse_target reversed s)) [
    | inr (i, q) ↦ absurd (
        choose_backward-some single i s
          (reverse_target-lt reversed s i (length_pos s.breakpoints inserted) q)
          (rw (inserted, q) at e))
    | inl q ↦ elim (Option-cases s.current_breakpoint_id) [
      | inl c ↦ cc (rw (c, reverse_target) at q)
      | inr (id, c) ↦
          let (low, head) = reverse_from-none id _ reversed _ _ (rw (c, reverse_target) at q) in
          not_found-IsLost s id inserted c low head
    ]
  ]
]

IsLost-reverse_target :
    (reversed : Bool) (s : Scheduler) → IsLost s → reverse_target reversed s ≡ none
unfolding reverse_target
IsLost-reverse_target reversed s (inserted, id, q, h) =
    rw (q, reverse_target)
      (none-reverse_from id _ reversed _ _ (find_down-none id _ s.breakpoints (λ j lt. h (suc j)))
        (h 0))

IsLost-undefined :
    (reversed single : Bool) (s : Scheduler)
    → IsLost s
    → next_reverse_breakpoints reversed single s ≡ none
unfolding next_reverse_breakpoints choose_backward
IsLost-undefined reversed single s lost = rw (lost.0, IsLost-reverse_target reversed s lost) refl

-- next_reverse_breakpoints dereferences an empty optional exactly when there are breakpoints, and
-- the current one is not among them; in every other state it has a result.
pub next_reverse_breakpoints-eq-none :
    (reversed single : Bool) (s : Scheduler)
    → (next_reverse_breakpoints reversed single s ≡ none) ↔ IsLost s
next_reverse_breakpoints-eq-none reversed single s =
    (undefined-IsLost reversed single s, IsLost-undefined reversed single s)
