-- ===== src/Scheduler/Next/Scan.antt =====
-- Which breakpoints are evaluated together with a reference.
use hgdb.Prelude.{
  ℕ, zero, suc, ◌+◌, ◌≡◌, refl, Bool, true, false, Bool-cases, Option-cases, inl, inr, ◌⊎◌,
  if◌then◌else◌, some, List, [], ◌∷◌, get_elem?, drop, ◌-◌, length, All, arith, ◌≤◌, ◌<◌, none,
  >>=-eq-some, sym, ap, ◌∙◌, subst,
}
use native.Mathlib.Decide.{dec_lt}
use hgdb.Prelude.Maps.{contains, nat_key}
use hgdb.Scheduler.{DebugBreakPoint, has_type_flag, data_}
use hgdb.Scheduler.Next.{scan_forward, scan_backward, scan_breakpoints, same_place, joins}
use hgdb.Scheduler.Next.Twins.{AtPlace, IsTwin, same_place_iff, joins-IsTwin, IsTwin-joins}

-- Breakpoint `j` of the list stands at the place of the reference and joins it.
abbrev pub Joins : DebugBreakPoint → List DebugBreakPoint → ℕ → Type 0
Joins ref bs j =
    (b : DebugBreakPoint) × (get_elem? bs j ≡ some b)
    × (same_place b ref ≡ true)
    × (joins ref b ≡ true)

-- The breakpoint at an index is put before the others if it joins.
All-joined :
    (ref b : DebugBreakPoint) (bs : List DebugBreakPoint) (i : ℕ) (is : List ℕ)
    → get_elem? bs i ≡ some b
    → All (Joins ref bs) is
    → All (Joins ref bs) (if same_place b ref then (if joins ref b then i ∷ is else is) else [])
All-joined ref b bs i is e h = elim (Bool-cases (same_place b ref)) [
  | inr away ↦ rw away tt
  | inl here ↦ elim (Bool-cases (joins ref b)) [
    | inl joined ↦ rw (here, joined) ((b, e, here, joined), h)
    | inr other ↦ rw (here, other) h
  ]
]

-- `bs` is the end of the list `all` from index `i` on.
scan_forward-Joins :
    (ref : DebugBreakPoint) (i : ℕ) (bs all : List DebugBreakPoint)
    → ((k : ℕ) → get_elem? bs k ≡ get_elem? all (k + i))
    → All (Joins ref all) (scan_forward ref i bs)
unfolding scan_forward
scan_forward-Joins ref i [] all at = tt
scan_forward-Joins ref i (b ∷ bs) all at =
    All-joined ref b all i _ (sym (at 0 ∙ ap (get_elem? all) (omega arith)))
      (scan_forward-Joins ref (suc i) bs all (λ k. at (suc k) ∙ ap (get_elem? all) (omega arith)))

get_elem?-drop :
    (i k : ℕ) (bs : List DebugBreakPoint) → get_elem? (drop i bs) k ≡ get_elem? bs (k + i)
get_elem?-drop zero k bs = ap (get_elem? bs) (omega arith)
get_elem?-drop (suc i) k [] = refl
get_elem?-drop (suc i) k (b ∷ bs) =
    let e : k + suc i ≡ suc (k + i) = omega arith in rw e (get_elem?-drop i k bs)

scan_backward-Joins :
    (ref : DebugBreakPoint) (n : ℕ) (bs : List DebugBreakPoint)
    → All (Joins ref bs) (scan_backward ref n bs)
unfolding scan_backward
scan_backward-Joins ref zero bs = tt
scan_backward-Joins ref (suc n) bs = elim (Option-cases (get_elem? bs n)) [
  | inl e ↦ rw (e, scan_backward) tt
  | inr (b, e) ↦ rw (e, scan_backward) (All-joined ref b bs n _ e (scan_backward-Joins ref n bs))
]

scanned-Joins :
    (ref : DebugBreakPoint) (index : ℕ) (bs : List DebugBreakPoint) (alone forward : Bool)
    {is : List ℕ}
    → some (
        if alone
        then []
        else if forward
        then scan_forward ref index (drop index bs)
        else scan_backward ref index bs)
      ≡ some is
    → All (Joins ref bs) is × ((alone ≡ false) ⊎ (is ≡ []))
scanned-Joins ref index bs true forward {is} e =
    let q : [] ≡ is = cc in (subst (All (Joins ref bs)) q tt, inr (sym q))
scanned-Joins ref index bs false true {is} e =
    let q : scan_forward ref index (drop index bs) ≡ is = cc in
    (
      subst (All (Joins ref bs)) q
          (scan_forward-Joins ref index (drop index bs) bs (λ k. get_elem?-drop index k bs)),
      inl refl,
    )
scanned-Joins ref index bs false false {is} e =
    let q : scan_backward ref index bs ≡ is = cc in
    (subst (All (Joins ref bs)) q (scan_backward-Joins ref index bs), inl refl)

abbrev pub TwinAt : DebugBreakPoint → List DebugBreakPoint → ℕ → Type 0
TwinAt ref bs j = (b : DebugBreakPoint) × (get_elem? bs j ≡ some b) × IsTwin ref b

-- The positions that a scan from `index` passes on its way to `j`.
abbrev pub Passes : Bool → ℕ → ℕ → ℕ → Type 0
Passes true index j k = (index ≤ k) × (k ≤ j)
Passes false index j k = (j ≤ k) × (k < index)

-- All that a scan passes on its way to `j` stands at the place of the reference.
abbrev pub IsRun : DebugBreakPoint → List DebugBreakPoint → Bool → ℕ → ℕ → Type 0
IsRun ref bs forward index j =
    (k : ℕ)
    → Passes forward index j k
    → (b : DebugBreakPoint) × (get_elem? bs k ≡ some b) × AtPlace ref b

All-TwinAt :
    (ref : DebugBreakPoint) (bs : List DebugBreakPoint) (is : List ℕ)
    → All (Joins ref bs) is
    → All (TwinAt ref bs) is
All-TwinAt ref bs [] h = tt
All-TwinAt ref bs (i ∷ is) ((b, e, at, joined), h) =
    ((b, e, joins-IsTwin ref b at joined), All-TwinAt ref bs is h)

-- A list that an index may be put before.
contains-if :
    (c : Bool) (i j : ℕ) (is : List ℕ)
    → contains j is ≡ true
    → contains j (if c then i ∷ is else is) ≡ true
unfolding contains
contains-if true i j is h = ground arith
contains-if false i j is h = h

contains-first : (i : ℕ) (is : List ℕ) → contains i (i ∷ is) ≡ true
unfolding contains
contains-first i is = ground arith

-- The loop upwards reaches every position up to which all stand at the place.
scan_forward_complete :
    (ref b : DebugBreakPoint) (i n : ℕ) (bs : List DebugBreakPoint)
    → ((k : ℕ)
        → k ≤ n
        → (c : DebugBreakPoint) × (get_elem? bs k ≡ some c) × (same_place c ref ≡ true))
    → get_elem? bs n ≡ some b
    → joins ref b ≡ true
    → contains (n + i) (scan_forward ref i bs) ≡ true
unfolding scan_forward
scan_forward_complete ref b i n [] run e joined = cc
scan_forward_complete ref b i zero (c ∷ bs) run e joined =
    let (c', q, at) = run 0 (omega arith) in
    let same : c ≡ b = cc in
    let here : same_place c ref ≡ true =
      subst (λ x. same_place x ref ≡ true) (some_eq (sym q)) at in
    let both : joins ref c ≡ true = subst (λ x. joins ref x ≡ true) (sym same) joined in
    let start : 0 + i ≡ i = omega arith in rw (start, here, both) (contains-first i _)
  where
    some_eq : {x y : DebugBreakPoint} → some x ≡ some y → x ≡ y
    some_eq e = cc
scan_forward_complete ref b i (suc n) (c ∷ bs) run e joined =
    let (c', q, at) = run 0 (omega arith) in
    let same : c' ≡ c = cc in
    let here : same_place c ref ≡ true = subst (λ x. same_place x ref ≡ true) same at in
    let shift : suc n + i ≡ n + suc i = omega arith in
    rw (shift, here)
      (contains-if (joins ref c) i (n + suc i) _
        ((scan_forward_complete ref b (suc i) n bs (λ k lt. run (suc k) (omega arith)) e joined)))

-- So does the loop downwards.
scan_backward_complete :
    (ref b : DebugBreakPoint) (n j : ℕ) (bs : List DebugBreakPoint)
    → j < n
    → ((k : ℕ)
        → j ≤ k
        → k < n
        → (c : DebugBreakPoint) × (get_elem? bs k ≡ some c) × (same_place c ref ≡ true))
    → get_elem? bs j ≡ some b
    → joins ref b ≡ true
    → contains j (scan_backward ref n bs) ≡ true
unfolding scan_backward
scan_backward_complete ref b zero j bs lt run e joined = absurd (omega arith)
scan_backward_complete ref b (suc n) j bs lt run e joined =
    let (c, q, at) = run n (omega arith) (omega arith) in
    elim (dec_lt j n) [
      | yes below ↦
          rw (q, scan_backward)
            (rw at (
              contains-if (joins ref c) n j _ (
                scan_backward_complete ref b n j bs below (λ k le lk. run k le (omega arith)) e
                  joined)))
      | no not_below ↦
          let last : j ≡ n = omega arith in
          let same : some b ≡ some c = sym e ∙ ap (get_elem? bs) last ∙ q in
          let both : joins ref c ≡ true =
            subst (λ o. elim o [ none ↦ ⊥ | some x ↦ joins ref x ≡ true ]) same joined in
          rw (q, scan_backward) (rw (at, both, last) (contains-first n _))
    ]

get_elem?-length :
    (bs : List DebugBreakPoint) (i : ℕ) {b : DebugBreakPoint}
    → get_elem? bs i ≡ some b
    → i < length bs
get_elem?-length [] i e = cc
get_elem?-length (c ∷ bs) zero e = omega arith
get_elem?-length (c ∷ bs) (suc i) e = omega (arith, get_elem?-length bs i e)

-- Both directions: a twin that the scan comes to is added.
scanned_complete :
    (ref b : DebugBreakPoint) (forward : Bool) (index j : ℕ) (bs : List DebugBreakPoint)
    → Passes forward index j j
    → IsRun ref bs forward index j
    → get_elem? bs j ≡ some b
    → IsTwin ref b
    → contains j
        (if forward then scan_forward ref index (drop index bs) else scan_backward ref index bs)
      ≡ true
scanned_complete ref b true index j bs (le, _) run e twin =
    let offset : j - index + index ≡ j = omega arith in
    let found : get_elem? (drop index bs) (j - index) ≡ some b =
      get_elem?-drop index (j - index) bs ∙ ap (get_elem? bs) offset ∙ e in
    subst (λ n. contains n (scan_forward ref index (drop index bs)) ≡ true) offset
      (scan_forward_complete ref b index (j - index) (drop index bs)
        (λ k lt.
          let (c, q, at) = run (k + index) (omega arith, omega arith) in
          (c, get_elem?-drop index k bs ∙ q, (same_place_iff ref c).1 at))
        found (IsTwin-joins ref b twin))
scanned_complete ref b false index j bs (_, lt) run e twin =
    scan_backward_complete ref b index j bs lt
      (λ k le lk. let (c, q, at) = run k (le, lk) in (c, q, (same_place_iff ref c).1 at)) e
      (IsTwin-joins ref b twin)

-- Where a scan has a result, its reference exists. Every breakpoint that it adds, in either direction,
-- is at the file, line and column of the reference, is not a mere data breakpoint, and has another
-- instance and the same enable condition. A reference with the data flag stands alone; for any other,
-- such a breakpoint is added if no breakpoint between it and the reference stands at another place.
pub scan_breakpoints-TwinAt :
    (index : ℕ) (forward : Bool) (bs : List DebugBreakPoint) (is : List ℕ)
    → scan_breakpoints index forward bs ≡ some is
    → (ref : DebugBreakPoint) × (get_elem? bs index ≡ some ref)
      × All (TwinAt ref bs) is
      × ((has_type_flag data_ ref.type ≡ true) × (is ≡ [])
          ⊎ (has_type_flag data_ ref.type ≡ false)
            × ((j : ℕ)
                → Passes forward index j j
                → IsRun ref bs forward index j
                → TwinAt ref bs j
                → contains j is ≡ true))
unfolding scan_breakpoints
scan_breakpoints-TwinAt index forward bs is e =
    let (ref, found, q) = >>=-eq-some (get_elem? bs index) _ e in
    let (joined, alone) = scanned-Joins ref index bs (has_type_flag data_ ref.type) forward q in
    (ref, found, All-TwinAt ref bs is joined, by_flag ref (has_type_flag data_ ref.type) q)
  where
    some_inj : {x y : List ℕ} → some x ≡ some y → x ≡ y
    some_inj e = cc

    by_flag :
        (ref : DebugBreakPoint) (alone : Bool)
        → some (
            if alone
            then []
            else if forward
            then scan_forward ref index (drop index bs)
            else scan_backward ref index bs)
          ≡ some is
        → (alone ≡ true) × (is ≡ [])
          ⊎ (alone ≡ false)
            × ((j : ℕ)
                → Passes forward index j j
                → IsRun ref bs forward index j
                → TwinAt ref bs j
                → contains j is ≡ true)
    by_flag ref true q = inl (refl, cc)
    by_flag ref false q = inr (
      refl,
      λ j at run (b, e, twin).
          subst (λ xs. contains j xs ≡ true) (some_inj q)
            (scanned_complete ref b forward index j bs at run e twin),
    )
