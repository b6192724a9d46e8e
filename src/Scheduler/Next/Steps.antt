-- ===== src/Scheduler/Next/Steps.antt =====
-- Stepping over and back in the execution order.
use hgdb.Prelude.{
  ℕ, zero, suc, ◌+◌, ◌≤◌, ◌<◌, ◌==◌, ◌≡◌, refl, ap, sym, ◌∙◌, Bool, false, Bool-cases, Option-cases,
  inl, inr, none, some, List, [], ◌∷◌, length, get_elem?, All, drop, subst, arith, lt-get_elem?,
}
use hgdb.Scheduler.{Scheduler}
use hgdb.Scheduler.Next.{index_of, step_over_target, step_back_target}

-- No id occurs twice in the order.
abbrev pub IsDistinct : List ℕ → Type 0
IsDistinct [] = Unit {0}
IsDistinct (id ∷ ids) = All (λ j. (id == j) ≡ false) ids × IsDistinct ids

All-get_elem? {κ} :
    (P : ℕ → Type κ) (xs : List ℕ) (i : ℕ) {a : ℕ} → All P xs → get_elem? xs i ≡ some a → P a
All-get_elem? P [] i h e = cc
All-get_elem? P (x ∷ xs) zero {a} h e = let q : x ≡ a = cc in subst P q h.0
All-get_elem? P (x ∷ xs) (suc i) h e = All-get_elem? P xs i h.1 e

index_of-get_elem? :
    (ids : List ℕ) (i : ℕ) {a : ℕ} → IsDistinct ids → get_elem? ids i ≡ some a → index_of a ids ≡ i
unfolding index_of
index_of-get_elem? [] i d e = cc
index_of-get_elem? (id ∷ ids) zero d e = ground arith
index_of-get_elem? (id ∷ ids) (suc i) {a} d e =
    let other : (id == a) ≡ false = All-get_elem? (λ j. (id == j) ≡ false) ids i d.0 e in
    rw other (ap suc (index_of-get_elem? ids i d.1 e))

get_elem?-index_of :
    (id : ℕ) (ids : List ℕ)
    → index_of id ids < length ids
    → get_elem? ids (index_of id ids) ≡ some id
unfolding index_of
get_elem?-index_of id [] h = elim h [ ]
get_elem?-index_of id (j ∷ ids) h = elim (Bool-cases (j == id)) [
  | inl same ↦ rw (same, index_of) (ground arith)
  | inr other ↦ rw (other, index_of) (get_elem?-index_of id ids (index_below id j ids other h))
]
  where
    index_below :
        (id j : ℕ) (ids : List ℕ)
        → (j == id) ≡ false
        → index_of id (j ∷ ids) < suc (length ids)
        → index_of id ids < length ids
    index_below id j ids other h = ground arith

-- Stepping back from where a step over led is where the step over began, if the order holds no id
-- twice.
pub step_back_target-step_over_target :
    (reversed : Bool) (s : Scheduler) (id next : ℕ)
    → IsDistinct s.bp_ordering
    → s.current_breakpoint_id ≡ some id
    → step_over_target s ≡ some next
    → step_back_target reversed (record s { current_breakpoint_id = some next }) ≡ some (some id)
unfolding step_back_target step_over_target
step_back_target-step_over_target reversed s id next d c e =
    let step : get_elem? s.bp_ordering (suc (index_of id s.bp_ordering)) ≡ some next =
      rw (c, step_over_target) at e in
    rw (index_of-get_elem? s.bp_ordering _ d step, step_back_target)
      (rw (get_elem?-index_of id s.bp_ordering (omega (arith, lt-get_elem? s.bp_ordering _ step))))

-- The breakpoints that up to `n` steps over lead to.
abbrev pub steps_over : ℕ → Scheduler → List ℕ
steps_over zero s = []
steps_over (suc n) s = elim (step_over_target s) [
  | none ↦ []
  | some id ↦ id ∷ steps_over n (record s { current_breakpoint_id = some id })
]

drop_step :
    (xs : List ℕ) (i : ℕ) {a : ℕ} → get_elem? xs i ≡ some a → drop i xs ≡ a ∷ drop (suc i) xs
drop_step [] i e = cc
drop_step (x ∷ xs) zero {a} e = let q : x ≡ a = cc in ap (λ y. y ∷ xs) q
drop_step (x ∷ xs) (suc i) e = drop_step xs i e

drop_all : (xs : List ℕ) (i : ℕ) → get_elem? xs i ≡ none → drop i xs ≡ []
drop_all [] zero e = refl
drop_all [] (suc i) e = refl
drop_all (x ∷ xs) zero e = cc
drop_all (x ∷ xs) (suc i) e = drop_all xs i e

step_over_target_at :
    (s : Scheduler) (i id : ℕ)
    → IsDistinct s.bp_ordering
    → s.current_breakpoint_id ≡ some id
    → get_elem? s.bp_ordering i ≡ some id
    → step_over_target s ≡ get_elem? s.bp_ordering (suc i)
unfolding step_over_target
step_over_target_at s i id d c e =
    rw (c, step_over_target)
      (ap (λ j. get_elem? s.bp_ordering (suc j)) (index_of-get_elem? s.bp_ordering i d e))

steps_over-drop :
    (n : ℕ) (s : Scheduler) (i id : ℕ)
    → IsDistinct s.bp_ordering
    → s.current_breakpoint_id ≡ some id
    → get_elem? s.bp_ordering i ≡ some id
    → length s.bp_ordering ≤ suc (n + i)
    → steps_over n s ≡ drop (suc i) s.bp_ordering
steps_over-drop zero s i id d c e h = elim (Option-cases (get_elem? s.bp_ordering (suc i))) [
  | inl stop ↦ sym (drop_all s.bp_ordering (suc i) stop)
  | inr (next, go) ↦ absurd (omega (arith, lt-get_elem? s.bp_ordering (suc i) go))
]
steps_over-drop (suc n) s i id d c e h =
    let target = step_over_target_at s i id d c e in
    elim (Option-cases (get_elem? s.bp_ordering (suc i))) [
      | inl stop ↦ rw (target ∙ stop, steps_over) (sym (drop_all s.bp_ordering (suc i) stop))
      | inr (next, go) ↦
          rw (target ∙ go, steps_over)
            (ap (◌∷◌ next) (
                steps_over-drop n (record s { current_breakpoint_id = some next }) (suc i) next d
                  refl go (omega arith))
              ∙ sym (drop_step s.bp_ordering (suc i) go))
    ]

start_of :
    (s : Scheduler)
    → s.current_breakpoint_id ≡ none
    → step_over_target s ≡ get_elem? s.bp_ordering 0
unfolding step_over_target
start_of s c = rw (c, step_over_target)

-- From the start of a cycle, stepping over leads to every breakpoint of the execution order, in
-- that order, and then to none: as many steps as there are breakpoints are enough, if the order
-- holds no id twice.
pub steps_over-bp_ordering :
    (n : ℕ) (s : Scheduler)
    → IsDistinct s.bp_ordering
    → s.current_breakpoint_id ≡ none
    → length s.bp_ordering ≤ n
    → steps_over n s ≡ s.bp_ordering
steps_over-bp_ordering zero s d c h = sym (no_ids s.bp_ordering h)
  where
    no_ids : (ids : List ℕ) → length ids ≤ 0 → ids ≡ []
    no_ids [] k = refl
    no_ids (id ∷ ids) k = absurd (omega arith)
steps_over-bp_ordering (suc n) s d c h = elim (Option-cases (get_elem? s.bp_ordering 0)) [
  | inl stop ↦ rw (start_of s c ∙ stop, steps_over) (sym (drop_all s.bp_ordering 0 stop))
  | inr (next, go) ↦
      rw (start_of s c ∙ go, steps_over)
        (ap (◌∷◌ next) (
            steps_over-drop n (record s { current_breakpoint_id = some next }) 0 next d refl go
              (omega arith))
          ∙ sym (drop_step s.bp_ordering 0 go))
]
