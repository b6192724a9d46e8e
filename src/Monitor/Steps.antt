-- ===== src/Monitor/Steps.antt =====
-- The operations that change the monitor, as steps.
use hgdb.Prelude.{Text, ℕ, ◌<◌, ◌≡◌, subst, Bool, Option, none, some, length}
use hgdb.Prelude.Int.{ℤ}
use hgdb.Prelude.Maps.{lookup, nat_key}
use hgdb.Monitor.{
  WatchType, Monitor, add_shared_variable, add_delayed_variable, set_monitor_variable_condition,
  var_changed, remove_monitor_variable, Cycle, add_monitor_variable,
}
use hgdb.Monitor.Entries.{IsFormed, All-erase_key, fresh_lem}
use hgdb.Monitor.Formed.{
  IsCounting, add_monitor_variable-IsFormed, add_shared_variable-IsFormed,
  add_delayed_variable-IsFormed, set_monitor_variable_condition-IsFormed,
}
use hgdb.Monitor.Reads.{var_changed-IsKept}

-- A call of an operation: a shared value is one of the store, and a delay is at least one cycle.
pub data Step : Monitor → Monitor → Type 0 where
  add_one :
      {m : Monitor} (name : Text) (type : WatchType) → Step m (add_monitor_variable name type m).1
  add_shared :
      {m : Monitor} (name : Text) (type : WatchType) (p : ℕ)
      → p < length m.cells
      → Step m (add_shared_variable name type p m).1
  add_delayed :
      {m : Monitor} (name : Text) (depth : ℕ) (v : Option ℤ)
      → 0 < depth
      → Step m (add_delayed_variable name depth v m).1
  remove : {m : Monitor} (id : ℕ) → Step m (remove_monitor_variable id m)
  condition : {m : Monitor} (id cond : ℕ) → Step m (set_monitor_variable_condition id cond m)
  compare :
      {m m' : Monitor} (c : Cycle) (id : ℕ) (r : Bool × Option ℤ)
      → var_changed c id m ≡ some (r, m')
      → Step m m'

compared :
    (c : Cycle) (id : ℕ) (m m' : Monitor) (r : Bool × Option ℤ)
    → IsFormed m
    → var_changed c id m ≡ some (r, m')
    → IsFormed m'
compared c id m m' r h e =
    let (r', m'', e', kept) = var_changed-IsKept c id m h in
    let q : m'' ≡ m' = cc in subst IsFormed q kept.0

-- Every step from a monitor whose ids are below the counter and whose cells are in the store, and
-- whose counter has not come to its end, leads to such a monitor, in which the next id is not in use.
pub Step-IsFormed :
    (m m' : Monitor)
    → Step m m'
    → IsCounting m
    → IsFormed m
    → IsFormed m' × (lookup m'.watch_id_count m'.watched_variables ≡ none)
unfolding remove_monitor_variable
Step-IsFormed m m' step small h =
    let formed = after m m' step small h in (formed, fresh_lem _ _ _ formed)
  where
    after : (m m' : Monitor) → Step m m' → IsCounting m → IsFormed m → IsFormed m'
    after m _ (add_one name type) small h = add_monitor_variable-IsFormed name type m small h
    after m _ (add_shared name type p inside) small h =
        add_shared_variable-IsFormed name type p m small inside h
    after m _ (add_delayed name depth v deep) small h =
        add_delayed_variable-IsFormed name depth v m small deep h
    after m _ (remove id) small h =
        All-erase_key m.watch_id_count (length m.cells) id m.watched_variables h
    after m _ (condition id cond) small h = set_monitor_variable_condition-IsFormed id cond m h
    after m m' (compare c id r e) small h = compared c id m m' r h e
