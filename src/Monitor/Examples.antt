-- ===== src/Monitor/Examples.antt =====
-- The theorems of the monitor at concrete inputs.
use hgdb.Prelude.{
  codes, ◌≡◌, refl, true, ℕ, Bool, false, ◌↔◌, get_elem?, Option, none, some, List, [], ◌∷◌, arith,
}
use hgdb.Prelude.Int.{ℤ, pos}
use hgdb.Prelude.Maps.{lookup, nat_key}
use hgdb.Interfaces.{Rtl}
use hgdb.Monitor.Entries.{IsFormed}
use hgdb.Monitor.Reads.{IsKept, get_watched_values-total}
use hgdb.Monitor.Steps.{add_one, Step-IsFormed}
use hgdb.Monitor.{
  get_watched_values, Monitor, Cycle, new_watch, var_changed, changed, add_monitor_variable,
  front_value,
}
use hgdb.Monitor.Delay.{feed, front_value-feed}
use hgdb.Monitor.Change.{var_changed_again}
use hgdb.Monitor.Watch.{with_client, add_monitor_variable_again}

abbrev three_values : List (Option ℤ)
three_values = some (pos 1) ∷ some (pos 2) ∷ none ∷ []

front_value-feed_example :
    (feed 2 [] three_values ≡ some (pos 2) ∷ none ∷ [])
    × (front_value 2 (feed 2 [] three_values) ≡ some (some (pos 2)))
front_value-feed_example = front_value-feed 2 three_values

abbrev client : Rtl
client = record {
  get_full_name = λ name. name;
  is_valid_signal = λ name. true;
  get_handle = λ name. some 1;
  name_of_handle = λ h. codes "top.a";
  get_clocks_from_design = [];
}

abbrev empty : Monitor
empty = record { rtl = none; watch_id_count = 0; watched_variables = []; cells = [] }

add_monitor_variable_again_example :
    add_monitor_variable
      (codes "top.a")
      changed
      (add_monitor_variable (codes "top.a") changed (with_client client empty)).1
    ≡ add_monitor_variable (codes "top.a") changed (with_client client empty)
unfolding lookup
add_monitor_variable_again_example =
    add_monitor_variable_again (codes "top.a") changed empty client (omega arith) refl

abbrev watching : Monitor
watching = record empty {
  rtl = some client;
  watch_id_count = 1;
  watched_variables = (0, new_watch (codes "top.a") changed (some 1) 0) ∷ [];
  cells = none ∷ [];
}

abbrev reads_five : Cycle
reads_five = record { get_value = λ h. some (pos 5); enabled = λ cond. true }

var_changed_again_example :
    (is_changed : Bool) × (m' : Monitor) × (var_changed reads_five 0 (with_client client watching)
      ≡ some ((is_changed, some (pos 5)), m'))
    × ((is_changed ≡ false) ↔ (get_elem? watching.cells 0 ≡ some (some (pos 5))))
    × (var_changed reads_five 0 m' ≡ some ((false, some (pos 5)), m'))
unfolding lookup
var_changed_again_example =
    var_changed_again reads_five client watching 0 0 (new_watch (codes "top.a") changed (some 1) 0)
      (pos 5) refl refl (omega arith) refl

Step-IsFormed_example :
    IsFormed (add_monitor_variable (codes "top.a") changed watching).1
    × (lookup
          (add_monitor_variable (codes "top.a") changed watching).1.watch_id_count
          (add_monitor_variable (codes "top.a") changed watching).1.watched_variables
        ≡ none)
Step-IsFormed_example =
    Step-IsFormed watching _ (add_one (codes "top.a") changed) (omega arith)
      ((omega arith, omega arith), tt)

get_watched_values-total_example :
    (entries : List (ℕ × Option ℤ)) × (m' : Monitor) × (get_watched_values changed reads_five
        watching
      ≡ some (entries, m'))
    × IsKept watching m'
get_watched_values-total_example =
    get_watched_values-total changed reads_five watching refl ((omega arith, omega arith), tt)
