-- ===== src/Scheduler/Next/Marks.antt =====
-- mark_evaluated: which breakpoints of the list it changes.
use hgdb.Prelude.{
  ℕ, zero, suc, ◌==◌, ==_iff, ◌||◌, sym, subst, ◌≡◌, refl, ap, ◌∙◌, Bool, true, false, Bool-cases,
  Option-cases, inl, inr, if◌then◌else◌, Option, none, some, ◌>>=◌, List, [], ◌∷◌, get_elem?, set,
  arith,
}
use hgdb.Prelude.Maps.{contains, nat_key}
use hgdb.Scheduler.{DebugBreakPoint}
use hgdb.Scheduler.Next.{mark_evaluated}

-- A breakpoint of those that were chosen counts as evaluated; any other is as it was.
abbrev pub marked : List ℕ → ℕ → DebugBreakPoint → DebugBreakPoint
marked is j b = if contains j is then record b { evaluated = true } else b

abbrev pub Marks : List ℕ → List DebugBreakPoint → List DebugBreakPoint → Type 0
Marks is bs bs' = (j : ℕ) → get_elem? bs' j ≡ (get_elem? bs j >>= λ b. some (marked is j b))

get_elem?-set :
    (i j : ℕ) (bs : List DebugBreakPoint) (b c : DebugBreakPoint)
    → get_elem? bs i ≡ some b
    → get_elem? (set bs i c) j ≡ (if j == i then some c else get_elem? bs j)
get_elem?-set i j [] b c e = cc
get_elem?-set zero zero (a ∷ bs) b c e = refl
get_elem?-set zero (suc j) (a ∷ bs) b c e = ground arith
get_elem?-set (suc i) zero (a ∷ bs) b c e = ground arith
get_elem?-set (suc i) (suc j) (a ∷ bs) b c e = ground (arith, get_elem?-set i j bs b c e)

abbrev mark_if : Bool → DebugBreakPoint → DebugBreakPoint
mark_if c b = if c then record b { evaluated = true } else b

abbrev mark_option : Bool → Option DebugBreakPoint → Option DebugBreakPoint
mark_option c o = o >>= λ b. some (mark_if c b)

mark_option-false : (o : Option DebugBreakPoint) → o ≡ mark_option false o
mark_option-false none = refl
mark_option-false (some b) = refl

-- An index that is chosen where there is no breakpoint marks nothing.
mark_option-none :
    (i j : ℕ) (c : Bool) (bs : List DebugBreakPoint)
    → get_elem? bs i ≡ none
    → mark_option c (get_elem? bs j) ≡ mark_option (i == j || c) (get_elem? bs j)
mark_option-none i j c bs e = elim (Bool-cases (i == j)) [
  | inl same ↦
      let at : i ≡ j = (==_iff i j).0 same in
      let nowhere : get_elem? bs j ≡ none = subst (λ k. get_elem? bs k ≡ none) at e in
      rw nowhere refl
  | inr other ↦ rw other refl
]

mark_twice : (c : Bool) (b : DebugBreakPoint) → mark_if c (mark_if true b) ≡ mark_if true b
mark_twice true b = refl
mark_twice false b = refl

mark_option-some :
    (i j : ℕ) (c : Bool) (bs : List DebugBreakPoint) (b : DebugBreakPoint)
    → get_elem? bs i ≡ some b
    → mark_option c (if j == i then some (mark_if true b) else get_elem? bs j)
      ≡ mark_option (i == j || c) (get_elem? bs j)
mark_option-some i j c bs b e = elim (Bool-cases (i == j)) [
  | inl same ↦
      let at : i ≡ j = (==_iff i j).0 same in
      let back : (j == i) ≡ true = (==_iff j i).1 (sym at) in
      let here : get_elem? bs j ≡ some b = subst (λ k. get_elem? bs k ≡ some b) at e in
      rw (same, back, here) (ap some (mark_twice c b))
  | inr other ↦
      let back : (j == i) ≡ false = ground (arith, ==_iff i j, ==_iff j i) in rw (other, back) refl
]

pub mark_evaluated-Marks :
    (is : List ℕ) (bs : List DebugBreakPoint) → Marks is bs (mark_evaluated is bs)
unfolding mark_evaluated contains
mark_evaluated-Marks [] bs j = mark_option-false (get_elem? bs j)
mark_evaluated-Marks (i ∷ is) bs j = elim (Option-cases (get_elem? bs i)) [
  | inl e ↦
      rw (e, mark_evaluated)
        (mark_evaluated-Marks is bs j ∙ mark_option-none i j (contains j is) bs e)
  | inr (b, e) ↦
      rw (e, mark_evaluated)
        (mark_evaluated-Marks is (set bs i (mark_if true b)) j
          ∙ ap (mark_option (contains j is)) (get_elem?-set i j bs b (mark_if true b) e)
          ∙ mark_option-some i j (contains j is) bs b e)
]
