-- ===== src/Runtime/Signals.antt =====
-- The values that src/debug.cc reads: get_signal_value, get_full_name, set_expr_values and
-- update_delayed_values.
pub mod Cache
use hgdb.Prelude.{
  Text, codes, ℕ, Bool, true, false, ◌==◌, if◌then◌else◌, Option, none, some, ◌>>=◌, List, [], ◌∷◌,
  ◌++◌, text_eq, get_elem?, set, suc,
}
use hgdb.Prelude.Int.{ℤ, pos}
use hgdb.Prelude.Maps.{lookup, emplace, nat_key, text_key}
use hgdb.Eval.Debug.{Handle, DebugExpression, set_value}
use hgdb.Interfaces.{SymbolTable}
use hgdb.Namespaces.{Namespace}
use hgdb.Scheduler.Validate.{time_var_name, instance_var_name}
use hgdb.Monitor.{Monitor, delay_clock_edge, get_watched_values}
use hgdb.Runtime.{Reads, Debugger, DelayedVariable, cycle_of}

abbrev pub cached : Handle → Debugger → Option ℤ
cached h d = if d.use_signal_cache then lookup h d.cached_signal_values else none

abbrev pub delayed : Bool → Handle → Debugger → Option DelayedVariable
delayed use_delayed h d = if use_delayed then lookup h d.delayed_variables else none

abbrev pub keep_value : Handle → ℤ → Debugger → Debugger
keep_value h v d =
    if d.use_signal_cache
    then record d { cached_signal_values = emplace h v d.cached_signal_values }
    else d

-- A null handle is in no table, and has no value.
unfoldable pub get_signal_value : Reads → ℕ → Option Handle → Bool → Debugger → Option ℤ × Debugger
unfolding lookup emplace
get_signal_value r ns_id none use_delayed d = (none, d)
get_signal_value r ns_id (some h) use_delayed d = elim (cached h d) [
  | some v ↦ (some v, d)
  | none ↦ elim (delayed use_delayed h d) [
    | some var ↦ (var.value, d)
    | none ↦ elim (r.get_value ns_id h) [ none ↦ (none, d) | some v ↦ (some v, keep_value h v d) ]
  ]
]

-- get_full_name: the name of an instance that the symbol table does not know is empty, and is not
-- kept. `full_name` is the client's get_full_name.
unfoldable pub get_full_name : (Text → Text) → SymbolTable → ℕ → Text → Debugger → Text × Debugger
unfolding lookup emplace
get_full_name full_name db instance_id var_name d =
    elim (lookup instance_id d.cached_instance_name) [
      | some name ↦ (name ++ (codes "." ++ var_name), d)
      | none ↦ elim (db.get_instance_name instance_id) [
        | none ↦ (codes "." ++ var_name, d)
        | some name ↦ (
          full_name name ++ (codes "." ++ var_name),
          record d {
            cached_instance_name = emplace instance_id (full_name name) d.cached_instance_name;
          },
        )
      ]
    ]

-- The loop of set_expr_values over the resolved handles of the symbols.
unfoldable pub set_values_from :
    Reads
    → ℕ
    → ℕ
    → List (Text × Option Handle)
    → DebugExpression
    → Debugger
    → Bool × (DebugExpression × Debugger)
unfolding get_signal_value set_value
set_values_from r ns_id instance_id [] e d = (true, (e, d))
set_values_from r ns_id instance_id ((name, h) ∷ rest) e d =
    let the_instance =
      set_values_from r ns_id instance_id rest (set_value name (pos instance_id) e) d in
    let the_time =
      set_values_from r ns_id instance_id rest (set_value name (r.get_simulation_time ns_id) e) d in
    let (v, d₁) = get_signal_value r ns_id h false d in
    let read : Bool × (DebugExpression × Debugger) = elim v [
      | none ↦ (false, (e, d₁))
      | some n ↦ set_values_from r ns_id instance_id rest (set_value name n e) d₁
    ] in
    if text_eq name instance_var_name
    then the_instance
    else if text_eq name time_var_name
    then the_time
    else read

unfoldable pub set_expr_values :
    Reads → ℕ → DebugExpression → ℕ → Debugger → Bool × (DebugExpression × Debugger)
unfolding set_values_from
set_expr_values r ns_id e instance_id d = set_values_from r ns_id instance_id e.handles e d

-- The first value that is reported for a watch.
unfoldable pub find_value : ℕ → List (ℕ × Option ℤ) → Option (Option ℤ)
find_value id [] = none
find_value id ((watch_id, v) ∷ values) =
    let later = find_value id values in if watch_id == id then some v else later

-- The inner loop of update_delayed_values: a delayed variable is found by its watch's id alone.
unfoldable pub update_variables :
    List (ℕ × Option ℤ) → List (Handle × DelayedVariable) → List (Handle × DelayedVariable)
unfolding find_value
update_variables values [] = []
update_variables values ((h, var) ∷ rest) = elim (find_value var.watch_id values) [
  | none ↦ (h, var) ∷ update_variables values rest
  | some v ↦ (h, record var { value = v }) ∷ update_variables values rest
]

-- The outer loop, from namespace `i` on, over `n` namespaces.
unfoldable pub update_from : Reads → ℕ → List Namespace → Debugger → Option Debugger
unfolding get_watched_values update_variables
update_from r i [] d = some d
update_from r i (ns ∷ rest) d = do
  m ← get_elem? d.monitors i
  (values, m') ← get_watched_values delay_clock_edge (cycle_of r i) m
  update_from r (suc i) rest (record d {
    monitors = set d.monitors i m';
    delayed_variables = update_variables values d.delayed_variables;
  })

unfoldable pub update_delayed_values : Reads → Debugger → Option Debugger
unfolding update_from
update_delayed_values r d = elim d.delayed_variables [
  | [] ↦ some d
  | _ ∷ _ ↦ update_from r 0 d.namespaces.namespaces d
]
