-- ===== src/Monitor/Watch.antt =====
-- add_monitor_variable, called twice.
use hgdb.Prelude.{
  Text, ℕ, ◌^◌, ◌<◌, ◌≡◌, refl, ap, ◌∙◌, Bool, true, false, Option-cases, inl, inr, if◌then◌else◌,
  Option, none, some, List, [], ◌∷◌, ◌++◌, length, arith,
}
use hgdb.Prelude.Maps.{lookup, emplace, nat_key}
use hgdb.Eval.Debug.{Handle}
use hgdb.Interfaces.{Rtl}
use hgdb.Monitor.{
  WatchType, same_type, WatchVariable, Monitor, same_handle, find_watch, is_monitored,
  add_watch_var, new_watch, add_monitor_variable,
}

same_handle_refl : (h : Option Handle) → same_handle h h ≡ true
same_handle_refl none = refl
same_handle_refl (some a) = ground arith

same_type_refl : (t : WatchType) → same_type t t ≡ true
same_type_refl WatchType.breakpoint = refl
same_type_refl _ = refl

if-eq-none {ℓ} :
    {A : Type ℓ} (b : Bool) (x : A) (o : Option A)
    → (if b then some x else o) ≡ none
    → (b ≡ false) × (o ≡ none)
if-eq-none true x o h = cc
if-eq-none false x o h = (refl, h)

find_watch-emplace :
    (h : Option Handle) (type : WatchType) (id : ℕ) (w : WatchVariable)
    (ws : List (ℕ × WatchVariable))
    → find_watch h type ws ≡ none
    → lookup id ws ≡ none
    → w.handle ≡ h
    → w.type ≡ type
    → find_watch h type (emplace id w ws) ≡ some id
unfolding find_watch lookup emplace
find_watch-emplace h type id w [] none_found fresh eh et =
    rw (eh, et) (rw (same_handle_refl h, same_type_refl type))
find_watch-emplace h type id w ((j, u) ∷ ws) none_found fresh eh et =
    let (others, none_left) = if-eq-none _ j (find_watch h type ws) none_found in
    let (is_other, still_fresh) = if-eq-none _ u (lookup id ws) fresh in
    rw is_other (rw others (find_watch-emplace h type id w ws none_left still_fresh eh et))

-- A monitor with a client.
abbrev pub with_client : Rtl → Monitor → Monitor
with_client client m = record m { rtl = some client }

abbrev pub with_cell : Monitor → Monitor
with_cell m = record m { cells = m.cells ++ none ∷ [] }

module _ (full_name : Text) (type : WatchType) (m : Monitor) (rtl : Rtl) where
  add_found :
      (id : ℕ)
      → find_watch (rtl.get_handle full_name) type m.watched_variables ≡ some id
      → add_monitor_variable full_name type (with_client rtl m) ≡ (id, with_client rtl m)
  unfolding add_monitor_variable is_monitored
  add_found id found = rw (found, add_monitor_variable) refl

  add_missing :
      find_watch (rtl.get_handle full_name) type m.watched_variables ≡ none
      → add_monitor_variable full_name type (with_client rtl m)
        ≡ add_watch_var
            (new_watch full_name type (rtl.get_handle full_name) (length m.cells))
            (with_client rtl (with_cell m))
  unfolding add_monitor_variable is_monitored
  add_missing missing = rw (missing, add_monitor_variable) refl

-- Watching a signal again, in the same way, gives the id of the first time and changes nothing: for
-- a monitor with a client, with fewer than 2 ^ 32 watches so far, and whose next id is not in use.
pub add_monitor_variable_again :
    (full_name : Text) (type : WatchType) (m : Monitor) (rtl : Rtl)
    → m.watch_id_count < 2 ^ 32
    → lookup m.watch_id_count m.watched_variables ≡ none
    → let (id, m') = add_monitor_variable full_name type (with_client rtl m) in
      add_monitor_variable full_name type m' ≡ (id, m')
unfolding add_watch_var
add_monitor_variable_again full_name type m rtl small fresh =
    elim (Option-cases (find_watch (rtl.get_handle full_name) type m.watched_variables)) [
      | inl missing ↦
          let h = rtl.get_handle full_name in
          let w = new_watch full_name type h (length m.cells) in
          let added = (add_watch_var w (with_cell m)).1 in
          let is_found =
            find_watch-emplace h type m.watch_id_count w m.watched_variables missing fresh refl
              refl in
          rw (add_missing full_name type m rtl missing) (
            add_found full_name type added rtl m.watch_id_count is_found
            ∙ ap (λ id. (id, with_client rtl added)) (omega arith))
      | inr (id, found) ↦
          rw (add_found full_name type m rtl id found) (add_found full_name type m rtl id found)
    ]
