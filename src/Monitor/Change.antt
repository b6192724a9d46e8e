-- ===== src/Monitor/Change.antt =====
-- var_changed of src/monitor.cc, called twice.
use hgdb.Prelude.{
  ℕ, zero, suc, ◌<◌, ◌≡◌, refl, Bool, true, false, Bool-cases, inl, inr, ◌↔◌, if◌then◌else◌, Option,
  none, some, List, [], ◌∷◌, length, get_elem?, set, arith, get_elem?-lt,
}
use hgdb.Prelude.Int.{ℤ, eq_ℤ}
use hgdb.Prelude.Maps.{lookup, nat_key}
use hgdb.Interfaces.{Rtl}
use hgdb.Monitor.{
  WatchVariable, Monitor, cell, Cycle, differs, var_changed, stored_value, store_value,
}
use hgdb.Monitor.Watch.{with_client}

get_elem?-set :
    (xs : List (Option ℤ)) (i : ℕ) (v : Option ℤ)
    → i < length xs
    → get_elem? (set xs i v) i ≡ some v
get_elem?-set [] i v h = absurd (omega arith)
get_elem?-set (x ∷ xs) zero v h = refl
get_elem?-set (x ∷ xs) (suc i) v h = get_elem?-set xs i v (omega arith)

eq_ℤ_refl : (v : ℤ) → eq_ℤ v v ≡ true
eq_ℤ_refl v = ground arith

differs_iff : (old : Option ℤ) (v : ℤ) → (differs old v ≡ false) ↔ (some old ≡ some (some v))
differs_iff none v = (λ e. cc, λ e. cc)
differs_iff (some w) v = ground arith

module _ (c : Cycle) (rtl : Rtl) (id p : ℕ) (v : ℤ) (w : WatchVariable) where
  var_changed_once :
      (m : Monitor) (old : Option ℤ)
      → lookup id m.watched_variables ≡ some w
      → w.storage ≡ cell p
      → c.get_value w.handle ≡ some v
      → get_elem? m.cells p ≡ some old
      → var_changed c id (with_client rtl m)
        ≡ some (
          (differs old v, some v),
          if differs old v
              then record (with_client rtl m) { cells = set m.cells p (some v) }
              else with_client rtl m,
        )
  unfolding var_changed stored_value store_value
  var_changed_once m old found at_cell reads holds =
      rw (found, reads, at_cell, var_changed) (rw holds refl)

-- For a variable that is watched at a cell of the store and has a value in this cycle, var_changed
-- gives that value, reports a change exactly if the cell held another value or none, and a second call
-- in the same cycle reports no change and alters nothing.
pub var_changed_again :
    (c : Cycle) (rtl : Rtl) (m : Monitor) (id p : ℕ) (w : WatchVariable) (v : ℤ)
    → lookup id m.watched_variables ≡ some w
    → w.storage ≡ cell p
    → p < length m.cells
    → c.get_value w.handle ≡ some v
    → (is_changed : Bool) × (m' : Monitor) × (var_changed c id (with_client rtl m)
        ≡ some ((is_changed, some v), m'))
      × ((is_changed ≡ false) ↔ (get_elem? m.cells p ≡ some (some v)))
      × (var_changed c id m' ≡ some ((false, some v), m'))
var_changed_again c rtl m id p w v found at_cell inside reads =
    let (old, holds) = get_elem?-lt m.cells p inside in
    let first = var_changed_once c rtl id p v w m old found at_cell reads holds in
    elim (Bool-cases (differs old v)) [
      | inl changes ↦
          let m' = record m { cells = set m.cells p (some v) } in
          let stored = get_elem?-set m.cells p (some v) inside in
          let second = var_changed_once c rtl id p v w m' (some v) found at_cell reads stored in
          (
            true,
            with_client rtl m',
            rw changes at first,
            rw holds (rw changes at (differs_iff old v)),
            rw (eq_ℤ_refl v) at second,
          )
      | inr same ↦ (
        false,
        with_client rtl m,
        rw same at first,
        rw holds (rw same at (differs_iff old v)),
        rw same at first,
      )
    ]
