-- ===== src/Monitor/Formed.antt =====
-- The invariant of the monitor, where a variable is added or its condition changes.
use hgdb.Prelude.{
  Text, ℕ, ◌+◌, ◌%◌, ◌^◌, ◌<◌, Option-cases, inl, inr, Option, none, some, [], ◌∷◌, length,
  length-append, arith,
}
use hgdb.Prelude.Int.{ℤ}
use hgdb.Prelude.Maps.{lookup, emplace, nat_key}
use hgdb.Monitor.Watch.{with_cell}
use hgdb.Monitor.{
  WatchType, WatchVariable, Monitor, add_watch_var, new_watch, add_shared_variable,
  add_delayed_variable, set_monitor_variable_condition, add_monitor_variable, is_monitored,
  find_watch,
}
use hgdb.Monitor.Entries.{InStore, IsFormed, All-grow, All-assign, All-emplace, All-lookup}

-- The counter has not come to its end.
abbrev pub IsCounting : Monitor → Type 0
IsCounting m = m.watch_id_count + 1 < 2 ^ 64

add_watch_var-IsFormed :
    (w : WatchVariable) (m : Monitor)
    → IsCounting m
    → InStore (length m.cells) w.storage
    → IsFormed m
    → IsFormed (add_watch_var w m).1
unfolding add_watch_var
add_watch_var-IsFormed w m small inside h =
    let n = m.watch_id_count in
    let size = length m.cells in
    All-grow (n + 1) size ((n + 1) % 2 ^ 64) size (emplace n w m.watched_variables) (omega arith)
      (omega arith)
      (All-emplace (n + 1) size n w m.watched_variables (omega arith, inside)
        (All-grow n size (n + 1) size m.watched_variables (omega arith) (omega arith) h))

with_cell-IsFormed : (m : Monitor) → IsFormed m → IsFormed (with_cell m)
with_cell-IsFormed m h =
    All-grow m.watch_id_count (length m.cells) m.watch_id_count _ m.watched_variables (omega arith)
      (omega (arith, length-append m.cells (none ∷ []))) h

pub add_monitor_variable-IsFormed :
    (name : Text) (type : WatchType) (m : Monitor)
    → IsCounting m
    → IsFormed m
    → IsFormed (add_monitor_variable name type m).1
unfolding add_monitor_variable is_monitored
add_monitor_variable-IsFormed name type m small h = elim (Option-cases m.rtl) [
  | inl e ↦ rw (e, add_monitor_variable) h
  | inr (rtl, e) ↦ elim (Option-cases (find_watch (rtl.get_handle name) type m.watched_variables)) [
    | inl missing ↦
        rw (e, add_monitor_variable)
          (rw (missing, is_monitored)
            (add_watch_var-IsFormed (new_watch name type (rtl.get_handle name) (length m.cells))
              (with_cell m) small (omega (arith, length-append m.cells (none ∷ [])))
              (with_cell-IsFormed m h)))
    | inr (id, found) ↦ rw (e, add_monitor_variable) (rw (found, is_monitored) h)
  ]
]

pub add_shared_variable-IsFormed :
    (name : Text) (type : WatchType) (p : ℕ) (m : Monitor)
    → IsCounting m
    → p < length m.cells
    → IsFormed m
    → IsFormed (add_shared_variable name type p m).1
unfolding add_shared_variable is_monitored
add_shared_variable-IsFormed name type p m small inside h = elim (Option-cases m.rtl) [
  | inl e ↦ rw (e, add_shared_variable) h
  | inr (rtl, e) ↦ elim (Option-cases (find_watch (rtl.get_handle name) type m.watched_variables)) [
    | inl missing ↦
        rw (e, add_shared_variable)
          (rw (missing, is_monitored)
            (add_watch_var-IsFormed (new_watch name type (rtl.get_handle name) p) m small inside h))
    | inr (id, found) ↦ rw (e, add_shared_variable) (rw (found, is_monitored) h)
  ]
]

pub add_delayed_variable-IsFormed :
    (name : Text) (depth : ℕ) (v : Option ℤ) (m : Monitor)
    → IsCounting m
    → 0 < depth
    → IsFormed m
    → IsFormed (add_delayed_variable name depth v m).1
unfolding add_delayed_variable
add_delayed_variable-IsFormed name depth v m small deep h = elim (Option-cases m.rtl) [
  | inl e ↦ rw (e, add_delayed_variable) h
  | inr (rtl, e) ↦ rw (e, add_delayed_variable) (add_watch_var-IsFormed _ m small deep h)
]

pub set_monitor_variable_condition-IsFormed :
    (id cond : ℕ) (m : Monitor) → IsFormed m → IsFormed (set_monitor_variable_condition id cond m)
unfolding set_monitor_variable_condition
set_monitor_variable_condition-IsFormed id cond m h =
    elim (Option-cases (lookup id m.watched_variables)) [
      | inl e ↦ rw (e, set_monitor_variable_condition) h
      | inr (w, e) ↦
          let entry = All-lookup m.watch_id_count (length m.cells) id m.watched_variables e h in
          rw (e, set_monitor_variable_condition)
            (All-assign m.watch_id_count (length m.cells) id (record w { enable_cond = some cond })
              m.watched_variables entry h)
    ]
