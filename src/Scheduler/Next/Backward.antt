-- ===== src/Scheduler/Next/Backward.antt =====
-- The loops of next_reverse_breakpoints.
use native.Mathlib.Decide.{dec_lt}
use hgdb.Prelude.{
  ℕ, zero, suc, ◌≤◌, ◌<◌, ◌==◌, ◌≡◌, ◌≢◌, refl, Bool, true, false, Bool-cases, Option-cases, inl,
  inr, if◌then◌else◌, Option, none, some, ◌>>=◌, List, [], ◌∷◌, length, get_elem?, All, arith,
  get_elem?-lt,
}
use hgdb.Scheduler.{DebugBreakPoint, Scheduler, has_type_flag, data_}
use hgdb.Scheduler.Next.{
  scan_backward, scan_breakpoints, same_place, joins, id_at, find_down, last_of, choose_backward,
}

-- No breakpoint at or above index 1 and up to `n` has the id.
pub find_down-none :
    (id n : ℕ) (bs : List DebugBreakPoint)
    → ((j : ℕ) → j < n → id_at bs (suc j) ≢ some id)
    → find_down id n bs ≡ none
unfolding find_down
find_down-none id zero bs h = refl
find_down-none id (suc n) bs h =
    let lower = find_down-none id n bs (λ j lt. h j (omega arith)) in
    elim (Option-cases (id_at bs (suc n))) [
      | inl e ↦ rw (e, find_down) lower
      | inr (k, e) ↦ elim (Bool-cases (k == id)) [
        | inl same ↦ absurd (h n (omega arith) (ground arith))
        | inr other ↦ rw (e, find_down) (rw other lower)
      ]
    ]

-- One round of the loop.
find_down-suc :
    (id n : ℕ) (bs : List DebugBreakPoint)
    → find_down id (suc n) bs ≡ none
    → (find_down id n bs ≡ none) × (id_at bs (suc n) ≢ some id)
unfolding find_down
find_down-suc id n bs e = round (id_at bs (suc n)) (find_down id n bs) e
  where
    round :
        (o lower : Option ℕ)
        → elim o [ none ↦ lower | some j ↦ if j == id then some n else lower ] ≡ none
        → (lower ≡ none) × (o ≢ some id)
    round none lower e = (e, λ q. cc)
    round (some j) lower e = ground arith

pub none-find_down :
    (id n : ℕ) (bs : List DebugBreakPoint)
    → find_down id n bs ≡ none
    → (j : ℕ) → j < n
    → id_at bs (suc j) ≢ some id
none-find_down id zero bs e j lt = absurd (omega arith)
none-find_down id (suc n) bs e j lt = elim (dec_lt j n) [
  | yes below ↦ none-find_down id n bs (find_down-suc id n bs e).0 j below
  | no not_below ↦ let same : j ≡ n = omega arith in rw same ((find_down-suc id n bs e).1)
]

pub find_down-lt :
    (id n : ℕ) (bs : List DebugBreakPoint) {i : ℕ} → find_down id n bs ≡ some i → i < n
unfolding find_down
find_down-lt id zero bs e = cc
find_down-lt id (suc n) bs {i} e =
    round (id_at bs (suc n)) (find_down id n bs) (λ h. find_down-lt id n bs h) e
  where
    round :
        (o lower : Option ℕ)
        → (lower ≡ some i → i < n)
        → elim o [ none ↦ lower | some j ↦ if j == id then some n else lower ] ≡ some i
        → i < suc n
    round none lower h e = omega (arith, h e)
    round (some j) lower h e = elim (Bool-cases (j == id)) [
      | inl same ↦ ground arith
      | inr other ↦ omega (arith, h (rw other at e))
    ]

All-mono : (m n : ℕ) (is : List ℕ) → m ≤ n → All (λ j. j < m) is → All (λ j. j < n) is
All-mono m n [] h k = tt
All-mono m n (i ∷ is) h k = (omega arith, All-mono m n is h k.1)

scan_backward-All :
    (ref : DebugBreakPoint) (n : ℕ) (bs : List DebugBreakPoint)
    → All (λ i. i < n) (scan_backward ref n bs)
unfolding scan_backward
scan_backward-All ref zero bs = tt
scan_backward-All ref (suc n) bs =
    let rest = All-mono n (suc n) _ (omega arith) (scan_backward-All ref n bs) in
    elim (Option-cases (get_elem? bs n)) [
      | inl e ↦ rw (e, scan_backward) tt
      | inr (b, e) ↦ rw (e, scan_backward) (joined _ (same_place b ref) (joins ref b) rest)
    ]
  where
    joined :
        (is : List ℕ) (here joining : Bool)
        → All (λ i. i < suc n) is
        → All (λ i. i < suc n) (if here then (if joining then n ∷ is else is) else [])
    joined is true true h = (omega arith, h)
    joined is true false h = h
    joined is false joining h = tt

last_of-lt : (n i : ℕ) (is : List ℕ) → i < n → All (λ j. j < n) is → last_of i is < n
last_of-lt n i [] h k = h
last_of-lt n i (j ∷ is) h k = last_of-lt n j is k.0 k.1

map-some {ℓ κ} :
    {A : Type ℓ} {B : Type κ} (o : Option A) (g : A → B) {a : A}
    → o ≡ some a
    → (o >>= λ a. some (g a)) ≢ none
map-some o g h e = cc

scan_breakpoints-lt :
    (i : ℕ) (bs : List DebugBreakPoint)
    → i < length bs
    → (is : List ℕ) × (scan_breakpoints i false bs ≡ some is) × All (λ j. j < length bs) is
unfolding scan_breakpoints
scan_breakpoints-lt i bs h =
    let (b, e) = get_elem?-lt bs i h in
    (
      (if has_type_flag data_ b.type then [] else scan_backward b i bs),
      rw e,
      bounded _ (has_type_flag data_ b.type)
          (All-mono i (length bs) _ (omega arith) (scan_backward-All b i bs)),
    )
  where
    bounded :
        (is : List ℕ) (c : Bool)
        → All (λ j. j < length bs) is
        → All (λ j. j < length bs) (if c then [] else is)
    bounded is true k = tt
    bounded is false k = k

-- With a target in the list there is a result.
pub choose_backward-some :
    (single : Bool) (i : ℕ) (s : Scheduler)
    → i < length s.breakpoints
    → choose_backward single (some i) s ≢ none
unfolding choose_backward
choose_backward-some true i s h = let (b, e) = get_elem?-lt s.breakpoints i h in rw e (λ q. cc)
choose_backward-some false i s h =
    let (is, es, bounds) = scan_breakpoints-lt i s.breakpoints h in
    let (b, e) = get_elem?-lt s.breakpoints (last_of i is) (last_of-lt _ i is h bounds) in
    rw (es, e) (λ q. cc)
