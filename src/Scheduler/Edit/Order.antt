-- ===== src/Scheduler/Edit/Order.antt =====
-- reorder_breakpoints and the ordering table.
use native.Mathlib.Nat.{le_trans, add-zero}
use mathlib.Core.List.{Perm}
use mathlib.Core.List.Perm
use hgdb.Prelude.{
  ℕ, suc, ◌+◌, ◌≤◌, ◌==◌, leb, ◌≡◌, refl, true, false, Bool-cases, inl, inr, if◌then◌else◌, Option,
  none, some, List, [], ◌∷◌, All, arith, length, ◌∙◌, subst, >>=-eq-some, or_else, ltb,
}
use hgdb.Prelude.Maps.{lookup, emplace, nat_key}
use hgdb.Scheduler.{DebugBreakPoint, Scheduler}
use hgdb.Scheduler.Next.{index_of}
use hgdb.Scheduler.Edit.Drop.{insert_sorted, sort_breakpoints, reorder_breakpoints, ordering_table}

-- The breakpoint has a position in the table.
abbrev pub IsPlaced : List (ℕ × ℕ) → DebugBreakPoint → Type 0
IsPlaced table b = (i : ℕ) × (lookup b.id table ≡ some i)

abbrev pub Before : List (ℕ × ℕ) → DebugBreakPoint → DebugBreakPoint → Type 0
Before table b c = (i j : ℕ) → lookup b.id table ≡ some i → lookup c.id table ≡ some j → i ≤ j

-- Each breakpoint stands before all that follow it.
abbrev pub IsOrdered : List (ℕ × ℕ) → List DebugBreakPoint → Type 0
IsOrdered table [] = Unit {0}
IsOrdered table (b ∷ bs) = All (Before table b) bs × IsOrdered table bs

module _ (table : List (ℕ × ℕ)) where
  some-leb : (i j : ℕ) → leb i j ≡ true → i ≤ j
  some-leb i j h = ground arith

  not-leb : (i j : ℕ) → leb i j ≡ false → j ≤ i
  not-leb i j h = ground arith

  Before-All :
      (b c : DebugBreakPoint) (bs : List DebugBreakPoint)
      → IsPlaced table c
      → Before table b c
      → All (Before table c) bs
      → All (Before table b) bs
  Before-All b c [] p h k = tt
  Before-All b c (d ∷ bs) (j, pc) h k =
      (λ i l pb pd. le_trans (h i j pb pc) (k.0 j l pc pd), Before-All b c bs (j, pc) h k.1)

  All-insert_sorted {κ} :
      (P : DebugBreakPoint → Type κ) (b : DebugBreakPoint) (bs r : List DebugBreakPoint)
      → insert_sorted table b bs ≡ some r
      → P b
      → All P bs
      → All P r
  unfolding insert_sorted
  All-insert_sorted P b [] r e h k = let q : b ∷ [] ≡ r = cc in subst (All P) q (h, tt)
  All-insert_sorted P b (c ∷ bs) r e h k =
      let (i, _, e₁) = >>=-eq-some (lookup b.id table) _ e in
      let (j, _, e₂) = >>=-eq-some (lookup c.id table) _ e₁ in
      elim (Bool-cases (leb i j)) [
        | inl le ↦
            let q : some (b ∷ c ∷ bs) ≡ some r = rw le at e₂ in
            let q' : b ∷ c ∷ bs ≡ r = cc in subst (All P) q' (h, k)
        | inr gt ↦
            let (r', e', q) = >>=-eq-some (insert_sorted table b bs) _ (rw gt at e₂) in
            let q' : c ∷ r' ≡ r = cc in subst (All P) q' (k.0, All-insert_sorted P b bs r' e' h k.1)
      ]

  Before-of :
      (b c : DebugBreakPoint) (i j : ℕ)
      → lookup b.id table ≡ some i
      → lookup c.id table ≡ some j
      → i ≤ j
      → Before table b c
  Before-of b c i j p q h i' j' p' q' = ground arith

  insert_sorted-total :
      (b : DebugBreakPoint) (bs : List DebugBreakPoint)
      → IsPlaced table b
      → All (IsPlaced table) bs
      → (r : List DebugBreakPoint) × (insert_sorted table b bs ≡ some r)
        × Perm (b ∷ bs) r
        × (IsOrdered table bs → IsOrdered table r)
  unfolding insert_sorted
  insert_sorted-total b [] p ps = (b ∷ [], refl, Perm.refl _, λ h. (tt, tt))
  insert_sorted-total b (c ∷ bs) (i, p) ((j, pc), ps) = elim (Bool-cases (leb i j)) [
    | inl le ↦ (
      b ∷ c ∷ bs,
      rw (p, pc, le),
      Perm.refl _,
      λ h. (
        let first = Before-of b c i j p pc (some-leb i j le) in
            (first, Before-All b c bs (j, pc) first h.0),
        h,
      ),
    )
    | inr gt ↦
        let (r, e, perm, ordered) = insert_sorted-total b bs (i, p) ps in
        (
          c ∷ r,
          rw (p, pc, gt, e),
          Perm.trans (Perm.swap c b bs) (Perm.cons c perm),
          λ h. (
            All-insert_sorted (Before table c) b bs r e (Before-of c b j i pc p (not-leb i j gt))
                h.0,
            ordered h.1,
          ),
        )
  ]

  sort_breakpoints-total :
      (bs : List DebugBreakPoint)
      → All (IsPlaced table) bs
      → (r : List DebugBreakPoint) × (sort_breakpoints table bs ≡ some r)
        × Perm bs r
        × IsOrdered table r
        × All (IsPlaced table) r
  unfolding sort_breakpoints
  sort_breakpoints-total [] ps = ([], refl, Perm.refl [], tt, tt)
  sort_breakpoints-total (b ∷ bs) ps =
      let (r, e, perm, ordered, placed) = sort_breakpoints-total bs ps.1 in
      let (r', e', perm', ordered') = insert_sorted-total b r ps.0 placed in
      (
        r',
        rw e e',
        Perm.trans (Perm.cons b perm) perm',
        ordered' ordered,
        All-insert_sorted (IsPlaced table) b r r' e' ps.0 placed,
      )

-- If the ordering table has every inserted breakpoint, reorder_breakpoints succeeds: it permutes
-- the breakpoints, in the order of the table, and changes nothing else.
pub reorder_breakpoints-total :
    (s : Scheduler)
    → All (IsPlaced s.bp_ordering_table) s.breakpoints
    → (r : List DebugBreakPoint) × (reorder_breakpoints s ≡ some (record s { breakpoints = r }))
      × Perm s.breakpoints r
      × IsOrdered s.bp_ordering_table r
unfolding reorder_breakpoints
reorder_breakpoints-total s ps =
    let (r, e, perm, ordered, _) = sort_breakpoints-total s.bp_ordering_table s.breakpoints ps in
    (r, rw e, perm, ordered)

-- The position of an id in the order, or none.
abbrev position : ℕ → ℕ → List ℕ → Option ℕ
position i id [] = none
position i id (j ∷ ids) = let later = position (suc i) id ids in if j == id then some i else later

lookup-emplace :
    (a b v : ℕ) (m : List (ℕ × ℕ))
    → lookup b (emplace a v m) ≡ or_else (lookup b m) (if a == b then some v else none)
unfolding lookup emplace
lookup-emplace a b v [] = ground arith
lookup-emplace a b v ((c, w) ∷ m) = ground (arith, lookup-emplace a b v m)

lookup-ordering_table_from :
    (i id : ℕ) (ids : List ℕ) (table : List (ℕ × ℕ))
    → lookup id (ordering_table i ids table) ≡ or_else (lookup id table) (position i id ids)
unfolding ordering_table
lookup-ordering_table_from i id [] table = ground arith
lookup-ordering_table_from i id (j ∷ ids) table = ground (
  arith,
  lookup-ordering_table_from (suc i) id ids (emplace j i table),
  lookup-emplace j id i table,
)

position-index_of :
    (i id : ℕ) (ids : List ℕ)
    → position i id ids
      ≡ (if ltb (index_of id ids) (length ids) then some (index_of id ids + i) else none)
unfolding index_of
position-index_of i id [] = refl
position-index_of i id (j ∷ ids) = ground (arith, position-index_of (suc i) id ids)

-- The table that the constructor builds agrees with the linear search that the steps make in the
-- order itself: it holds the first position of each id, and no other id.
pub lookup-ordering_table :
    (id : ℕ) (ids : List ℕ)
    → lookup id (ordering_table 0 ids [])
      ≡ (if ltb (index_of id ids) (length ids) then some (index_of id ids) else none)
unfolding lookup
lookup-ordering_table id ids =
    lookup-ordering_table_from 0 id ids [] ∙ position-index_of 0 id ids ∙ (rw add-zero)
