-- ===== src/Runtime/DataBreakpoints.antt =====
-- handle_data_breakpoint of src/debug.cc.
use hgdb.Prelude.{
  Text, codes, ℕ, Bool, true, false, if◌then◌else◌, Option, none, some, ◌>>=◌, List, [], ◌∷◌, ◌++◌,
  get_elem?, set, is_empty, length,
}
use hgdb.Prelude.Maps.{insert, text_key}
use hgdb.Interfaces.{SymbolTable}
use hgdb.Namespaces.{Namespace}
use hgdb.Scheduler.{DebugBreakPoint, Scheduler}
use hgdb.Scheduler.Edit.Add.{Added, nowhere, held, stored, add_data_breakpoint}
use hgdb.Scheduler.Edit.Drop.{remove_data_breakpoint, clear_data_breakpoints, reorder_breakpoints}
use hgdb.Monitor.{
  Monitor, data_, add_shared_variable, is_monitored, get_watched_value_ptr, remove_monitor_variable,
}
use hgdb.Runtime.{Debugger}
use hgdb.Runtime.Requests.{failure, success, Handled, get_namespace}
use hgdb.Runtime.Breakpoints.{Queries}

-- The condition of a data breakpoint, from that of the request and that of the symbol table. The
-- second test looks at bp_condition, which is empty then.
unfoldable pub merge_condition : Text → Text → Text
merge_condition condition data_condition =
    let bp_condition : Text = [] in
    if is_empty condition
    then data_condition
    else if is_empty bp_condition
    then condition
    else condition ++ (codes " && " ++ data_condition)

abbrev pub Assigned : Type 0
Assigned = List (ℕ × (Text × Text))

-- var_names: the full names of the assigned variables in the instance.
abbrev pub full_var_names : Namespace → Text → Assigned → List Text
full_var_names ns inst_name [] = []
full_var_names ns inst_name ((id, (var_name, condition)) ∷ rest) =
    insert (ns.rtl.get_full_name (inst_name ++ (codes "." ++ var_name)))
      (full_var_names ns inst_name rest)

-- The breakpoint that add_data_breakpoint points to.
abbrev pub added_breakpoint : Added → Scheduler → Option DebugBreakPoint
added_breakpoint nowhere s = none
added_breakpoint (held b) s = some b
added_breakpoint (stored i) s = get_elem? s.breakpoints i

abbrev pub with_watch_id : Added → ℕ → Scheduler → Scheduler
with_watch_id (stored i) id s = elim (get_elem? s.breakpoints i) [
  | none ↦ s
  | some b ↦ record s { breakpoints = set s.breakpoints i (record b { watch_id = id }) }
]
with_watch_id added id s = s

-- The value that the variables share: the one of a watch that is there, or a new one.
abbrev shared_value : List Text → Monitor → ℕ × Monitor
shared_value var_names m = elim (get_watched_value_ptr var_names data_ m) [
  | some p ↦ (p, m)
  | none ↦ (length m.cells, record m { cells = m.cells ++ none ∷ [] })
]

-- A handle that is watched keeps its watch, and the breakpoint does not learn its id.
unfoldable pub watch_data :
    List Text → Added → DebugBreakPoint → Monitor → Scheduler → Monitor × Scheduler
unfolding is_monitored get_watched_value_ptr add_shared_variable
watch_data var_names added b m s = elim (is_monitored b.full_rtl_handle data_ m) [
  | some id ↦ (m, s)
  | none ↦
      let (p, m₁) = shared_value var_names m in
      let (id, m₂) = add_shared_variable b.full_rtl_name data_ p m₁ in
      (m₂, with_watch_id added id s)
]

abbrev place_watch : Namespace → List Text → Bool → Added → Scheduler → Debugger → Option Debugger
place_watch ns var_names true added s d = some (record d { scheduler = some s })
place_watch ns var_names false added s d = do
  b ← added_breakpoint added s
  m ← get_elem? d.monitors ns.id
  let (m', s') = watch_data var_names added b m s
  some (record d { scheduler = some s'; monitors = set d.monitors ns.id m' })

-- The loop over the assigned breakpoints. What was added before an error stays.
unfoldable pub add_assigned :
    SymbolTable → Namespace → List Text → Text → Bool → Assigned → Debugger → Handled
unfolding merge_condition add_data_breakpoint watch_data
add_assigned db ns var_names condition dry_run [] d = some (success, d)
add_assigned db ns var_names condition dry_run ((id, (var_name, data_condition)) ∷ rest) d =
    elim (db.get_breakpoint id) [
      | none ↦ some (failure (codes "Invalid breakpoint id"), d)
      | some bp ↦ d.scheduler >>= λ s.
          add_data_breakpoint db d.namespaces var_name (merge_condition condition data_condition) bp
            dry_run s
          >>= λ (added, s'). elim added [
            | nowhere ↦ some (
              failure (codes "Invalid data breakpoint expression/data_condition"),
              record d { scheduler = some s' },
            )
            | held b ↦
                place_watch ns var_names dry_run (held b) s' d
                >>= add_assigned db ns var_names condition dry_run rest
            | stored i ↦
                place_watch ns var_names dry_run (stored i) s' d
                >>= add_assigned db ns var_names condition dry_run rest
          ]
    ]

abbrev reorder_after : Handled → Handled
reorder_after handled = handled >>= λ (response, d). elim response [
  | success ↦ d.scheduler >>= λ s.
      reorder_breakpoints s >>= λ s'. some (success, record d { scheduler = some s' })
  | other ↦ some (other, d)
]

-- The actions info, which is a dry run, and add.
unfoldable pub add_data_request :
    SymbolTable → Queries → Namespace → Text → ℕ → Text → Bool → Debugger → Handled
unfolding add_assigned reorder_breakpoints
add_data_request db q ns var_name bp_id condition dry_run d =
    let assigned = q.get_assigned_breakpoints var_name bp_id in
    let invalid : Handled = some (failure (codes "Invalid data breakpoint"), d) in
    elim (db.get_breakpoint bp_id) [
      | none ↦ some (failure (codes "Invalid breakpoint id"), d)
      | some db_bp ↦ elim (db.get_instance_name_from_bp bp_id) [
        | none ↦ invalid
        | some inst_name ↦
            if is_empty assigned
            then invalid
            else reorder_after (
                add_assigned db ns (full_var_names ns inst_name assigned) condition dry_run assigned
                  d)
      ]
    ]

-- DataBreakpointRequest::Action; the flag of `add` is dry_run of the action info.
pub data DataAction : Type 0 where
  clear_all : DataAction
  add_on : Text → Text → Bool → DataAction
  remove_at : DataAction

unfoldable pub run_data_action :
    SymbolTable → Queries → Namespace → ℕ → DataAction → Debugger → Handled
unfolding clear_data_breakpoints add_data_request remove_data_breakpoint remove_monitor_variable
run_data_action db q ns bp_id clear_all d =
    d.scheduler >>= λ s. some (success, record d { scheduler = some (clear_data_breakpoints s) })
run_data_action db q ns bp_id (add_on var_name condition dry_run) d =
    add_data_request db q ns var_name bp_id condition dry_run d
run_data_action db q ns bp_id remove_at d = d.scheduler >>= λ s.
    let (watch_id, s') = remove_data_breakpoint bp_id s in
    elim watch_id [
      | none ↦ some (success, record d { scheduler = some s' })
      | some id ↦ get_elem? d.monitors ns.id >>= λ m. some (
        success,
        record d {
          scheduler = some s';
          monitors = set d.monitors ns.id (remove_monitor_variable id m);
        },
      )
    ]

-- handle_data_breakpoint, which does not look whether there is a symbol table.
unfoldable pub handle_data_breakpoint : Queries → ℕ → Option ℕ → DataAction → Debugger → Handled
unfolding get_namespace run_data_action
handle_data_breakpoint q bp_id namespace_id action d = d.db >>= λ db.
    get_namespace d.namespaces db
      (record { instance_id = none; breakpoint_id = some bp_id; namespace_id = namespace_id })
    >>= λ found. elim found [
      | none ↦ some (failure (codes "Unable to determine design namespace"), d)
      | some ns ↦ run_data_action db q ns bp_id action d
    ]
