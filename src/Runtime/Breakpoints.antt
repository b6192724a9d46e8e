-- ===== src/Runtime/Breakpoints.antt =====
-- The handlers of src/debug.cc that insert and remove breakpoints.
use hgdb.Prelude.{
  Text, codes, ℕ, Bool, true, false, if◌then◌else◌, Option, none, some, ◌>>=◌, List, [], ◌∷◌,
  get_elem?, set,
}
use hgdb.Prelude.Maps.{emplace, nat_key, text_key}
use hgdb.Eval.Debug.{Handle}
use hgdb.Interfaces.{BreakPoint, SymbolTable}
use hgdb.Namespaces.{Namespace, get_namespaces, look_up}
use hgdb.Scheduler.{Scheduler, normal}
use hgdb.Scheduler.Edit.Add.{add_breakpoint, add_assert_breakpoint}
use hgdb.Scheduler.Edit.Drop.{get_breakpoint, remove_breakpoint, reorder_breakpoints}
use hgdb.Monitor.{add_delayed_variable, set_monitor_variable_condition}
use hgdb.Runtime.{Debugger, Reads, value_at}
use hgdb.Runtime.Requests.{failure, success, invalid_location, invalid_id, Handled}

-- What the symbol table and the clients answer beside SymbolTable and Rtl: get_breakpoints at a line
-- and a column, the delayed variables of a breakpoint in a namespace with their depths (
-- get_context_delayed_variables with resolve_context_name), and get_assigned_breakpoints, which gives
-- an id, a name and a condition.
pub record Queries : Type 0 where
  pub get_breakpoints : Text → ℕ → ℕ → List BreakPoint
  pub get_delayed_variables : ℕ → ℕ → List (Text × ℕ)
  pub get_assigned_breakpoints : Text → ℕ → List (ℕ × (Text × Text))

abbrev keep_delayed : Option Handle → Text → ℕ → Debugger → Debugger
keep_delayed none rtl_name watch_id d = d
keep_delayed (some h) rtl_name watch_id d = record d {
  delayed_variables =
      emplace h (record { rtl_name = rtl_name; value = none; watch_id = watch_id })
        d.delayed_variables;
}

-- The inner loops of process_delayed_breakpoint; the condition is the evaluation of the breakpoint.
unfoldable pub watch_delayed : Reads → ℕ → Namespace → List (Text × ℕ) → Debugger → Option Debugger
unfolding add_delayed_variable set_monitor_variable_condition emplace
watch_delayed r bp_id ns [] d = some d
watch_delayed r bp_id ns ((rtl_name, depth) ∷ names) d = do
  m ← get_elem? d.monitors ns.id
  let h = ns.rtl.get_handle rtl_name
  let (watch_id, m') = add_delayed_variable rtl_name depth (value_at r ns.id h) m
  let watched = record d {
    monitors = set d.monitors ns.id (set_monitor_variable_condition watch_id bp_id m');
  }
  watch_delayed r bp_id ns names (keep_delayed h rtl_name watch_id watched)

unfoldable pub watch_namespaces : Reads → Queries → ℕ → List Namespace → Debugger → Option Debugger
unfolding watch_delayed
watch_namespaces r q bp_id [] d = some d
watch_namespaces r q bp_id (ns ∷ rest) d =
    watch_delayed r bp_id ns (q.get_delayed_variables bp_id ns.id) d
    >>= watch_namespaces r q bp_id rest

-- process_delayed_breakpoint: a breakpoint that was not inserted has nothing to watch.
unfoldable pub process_delayed_breakpoint :
    Reads → Queries → SymbolTable → ℕ → Debugger → Option Debugger
unfolding get_breakpoint get_namespaces watch_namespaces
process_delayed_breakpoint r q db bp_id d = d.scheduler >>= λ s. elim (get_breakpoint bp_id s) [
  | none ↦ some d
  | some bp ↦ db.get_instance_name_from_bp bp_id >>= λ name.
      get_namespaces d.namespaces (some name) >>= λ namespaces.
      watch_namespaces r q bp_id namespaces d
]

-- The private add_breakpoint.
unfoldable pub add_normal_breakpoint :
    Reads → Queries → SymbolTable → BreakPoint → BreakPoint → Debugger → Option Debugger
unfolding add_breakpoint process_delayed_breakpoint
add_normal_breakpoint r q db bp_info db_bp d = do
  s ← d.scheduler
  (added, s') ← add_breakpoint db d.namespaces bp_info db_bp normal [] false none s
  process_delayed_breakpoint r q db db_bp.id (record d { scheduler = some s' })

unfoldable pub add_breakpoints :
    Reads → Queries → SymbolTable → BreakPoint → List BreakPoint → Debugger → Option Debugger
unfolding add_normal_breakpoint
add_breakpoints r q db bp_info [] d = some d
add_breakpoints r q db bp_info (bp ∷ bps) d =
    add_normal_breakpoint r q db bp_info bp d >>= add_breakpoints r q db bp_info bps

unfoldable pub remove_breakpoints : List BreakPoint → Scheduler → Scheduler
unfolding remove_breakpoint
remove_breakpoints [] s = s
remove_breakpoints (bp ∷ bps) s = remove_breakpoints bps (remove_breakpoint bp normal s)

-- check_send_db_error: without a symbol table the request is an error.
abbrev pub with_db : Debugger → (SymbolTable → Handled) → Handled
with_db d handle = elim d.db [
  | none ↦ some (failure (codes "Database is not initialized or is initialized incorrectly"), d)
  | some db ↦ handle db
]

abbrev reordered : Debugger → Option Debugger
reordered d =
    d.scheduler >>= λ s. reorder_breakpoints s >>= λ s'. some (record d { scheduler = some s' })

abbrev insert_at : Reads → Queries → BreakPoint → List BreakPoint → Debugger → SymbolTable → Handled
insert_at r q bp_info [] d db = some (invalid_location bp_info.filename bp_info.line_num, d)
insert_at r q bp_info (bp ∷ bps) d db = add_breakpoints r q db bp_info (bp ∷ bps) d >>= λ d'.
    reordered d' >>= λ d''. some (success, d'')

-- handle_breakpoint; `add` is its action.
unfoldable pub handle_breakpoint : Reads → Queries → Bool → BreakPoint → Debugger → Handled
unfolding add_breakpoints reorder_breakpoints remove_breakpoints
handle_breakpoint r q add bp_info d =
    let bps = q.get_breakpoints bp_info.filename bp_info.line_num bp_info.column_num in
    let removed : Handled = d.scheduler >>= λ s.
    some (success, record d { scheduler = some (remove_breakpoints bps s) }) in
    let added = with_db d (insert_at r q bp_info bps d) in
    if add then added else with_db d (λ db. removed)

-- handle_breakpoint_id, which does not reorder the breakpoints.
unfoldable pub handle_breakpoint_id : Reads → Queries → Bool → BreakPoint → Debugger → Handled
unfolding add_normal_breakpoint remove_breakpoint
handle_breakpoint_id r q true bp_info d = with_db d (λ db. elim (db.get_breakpoint bp_info.id) [
  | none ↦ some (invalid_id bp_info.id, d)
  | some bp ↦ add_normal_breakpoint r q db bp_info bp d >>= λ d'. some (success, d')
])
handle_breakpoint_id r q false bp_info d = with_db d (λ db. d.scheduler >>= λ s.
    some (success, record d { scheduler = some (remove_breakpoint bp_info normal s) }))

-- handle_assert on the place of the assertion: its full name, file, line and column.
unfoldable pub handle_assert :
    Queries → Option (Text × (Text × (ℕ × ℕ))) → Debugger → Option Debugger
unfolding look_up add_assert_breakpoint
handle_assert q none d = some d
handle_assert q (some (full_name, (filename, (line, column)))) d =
    elim (look_up full_name d.namespaces) [
      | none ↦ some d
      | some ns ↦ d.db >>= λ db. elim (q.get_breakpoints filename line column) [
        | [] ↦ some d
        | bp ∷ bps ↦ d.scheduler >>= λ s.
            add_assert_breakpoint db d.namespaces (some ns) (record bp { condition = [] }) s
            >>= λ (added, s'). some (record d { scheduler = some s' })
      ]
    ]
