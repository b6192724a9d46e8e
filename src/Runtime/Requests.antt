-- ===== src/Runtime/Requests.antt =====
-- The handlers of requests of src/debug.cc that only look things up or change an option, a value, a
-- watch or the mode. A request that was not read comes with its error. The clients are what they answer:
-- the handles and the types that a client keeps when it is asked are no part of the state here.
pub mod Written
pub mod Resumed
use hgdb.Prelude.{
  Text, codes, ℕ, Bool, true, false, not, ◌&&◌, ltb, if◌then◌else◌, Option, none, some, ◌>>=◌, List,
  [], ◌∷◌, ◌++◌, length, get_elem?, set, or_else, text_eq, is_some,
}
use hgdb.Prelude.Int.{ℤ}
use hgdb.Prelude.Maps.{erase_key, nat_key}
use hgdb.Eval.Debug.{Handle, DebugExpression, correct, set_error, clear, eval_debug}
use hgdb.Eval.Grammar.{debug_expression}
use hgdb.Interfaces.{SymbolTable, Rtl}
use hgdb.Namespaces.{Namespace, Manager, get_namespaces, default_namespace}
use hgdb.Scheduler.{
  Scheduler, EvaluationMode, breakpoint_only, step_over, step_back, reverse_breakpoint_only, none_,
}
use hgdb.Scheduler.Edit.Drop.{set_evaluation_mode, clear as clear_scheduler}
use hgdb.Scheduler.Validate.{validate_expr}
use hgdb.Monitor.{WatchType, add_monitor_variable, remove_monitor_variable}
use hgdb.Runtime.{Reads, Debugger}
use hgdb.Runtime.Signals.{set_expr_values}

-- The response that is sent: an error with its reason, a success, the value of an evaluation, or the
-- id of a watch with that of its namespace. The last two are the errors that no breakpoint is at a
-- line of a file, or has an id.
pub data Response : Type 0 where
  failure : Text → Response
  success : Response
  value_of : ℤ → Response
  tracked : ℕ → ℕ → Response
  invalid_location : Text → ℕ → Response
  invalid_id : ℕ → Response

-- `none` is undefined behaviour.
abbrev pub Handled : Type 0
Handled = Option (Response × Debugger)

-- Which part of the design a request is about.
pub record Place : Type 0 where
  pub instance_id : Option ℕ
  pub breakpoint_id : Option ℕ
  pub namespace_id : Option ℕ

abbrev pub instance_name_at : SymbolTable → Place → Option Text
instance_name_at db place =
    or_else (place.instance_id >>= db.get_instance_name)
      (place.breakpoint_id >>= db.get_instance_name_from_bp)

abbrev pub only_one : List Namespace → Option Namespace
only_one (ns ∷ []) = some ns
only_one _ = none

-- get_namespace behind the test for an id: the one namespace of the instance, or the default one.
unfoldable pub namespace_of : Manager → Option Text → Option (Option Namespace)
unfolding get_namespaces default_namespace
namespace_of m none = some (default_namespace m)
namespace_of m (some name) =
    get_namespaces m (some name) >>= λ namespaces. some (only_one namespaces)

-- get_namespace: an id that is none of a namespace is passed over.
unfoldable pub get_namespace : Manager → SymbolTable → Place → Option (Option Namespace)
unfolding namespace_of
get_namespace m db place = elim (place.namespace_id >>= λ id. get_elem? m.namespaces id) [
  | some ns ↦ some (some ns)
  | none ↦ namespace_of m (instance_name_at db place)
]

-- The loop of find_matching_namespace_validate; a namespace in which the expression is not right
-- leaves it cleared.
unfoldable pub match_namespace :
    SymbolTable → Option ℕ → Option ℕ → List Namespace → DebugExpression → DebugExpression
unfolding validate_expr correct clear set_error
match_namespace db breakpoint_id instance_id [] e = set_error e
match_namespace db breakpoint_id instance_id (ns ∷ rest) e =
    let e' = validate_expr ns.rtl db e breakpoint_id instance_id in
    let later = match_namespace db breakpoint_id instance_id rest (clear e') in
    if correct e' then e' else later

unfoldable pub find_matching_namespace_validate :
    SymbolTable → Option ℕ → Option ℕ → Manager → DebugExpression → DebugExpression
unfolding match_namespace
find_matching_namespace_validate db breakpoint_id instance_id m e =
    match_namespace db breakpoint_id instance_id m.namespaces e

abbrev pub scoped_name : SymbolTable → Text → Place → Option Text
scoped_name db var_name place = elim place.breakpoint_id [
  | some bp ↦ db.resolve_scoped_name_breakpoint var_name bp
  | none ↦ elim place.instance_id [
    | some id ↦ db.resolve_scoped_name_instance var_name id
    | none ↦ some var_name
  ]
]

-- resolve_var_name: a name that is no signal of the namespace is dropped.
unfoldable pub resolve_var_name : SymbolTable → Namespace → Text → Place → Option Text
resolve_var_name db ns var_name place = scoped_name db var_name place >>= λ full_name.
    if ns.rtl.is_valid_signal full_name then some full_name else none

-- CommandRequest::CommandType.
pub data Command : Type 0 where
  continue_ stop step_over_ step_back_ reverse_continue jump : Command

abbrev pub in_mode : EvaluationMode → Debugger → Handled
in_mode mode d =
    d.scheduler >>= λ s. some (success, record d { scheduler = some (set_evaluation_mode mode s) })

-- handle_command, but for the lock, which every command opens, and for the end of the simulation.
-- `rewound` is the client's answer to rewind; clock_handles of the scheduler are its argument.
unfoldable pub handle_command : Command → Bool → Debugger → Handled
unfolding set_evaluation_mode clear_scheduler
handle_command continue_ rewound d = in_mode breakpoint_only d
handle_command stop rewound d = d.scheduler >>= λ s.
    some (success, record d { scheduler = some (set_evaluation_mode none_ (clear_scheduler s)) })
handle_command step_over_ rewound d = in_mode step_over d
handle_command step_back_ rewound d = in_mode step_back d
handle_command reverse_continue rewound d = in_mode reverse_breakpoint_only d
handle_command jump rewound d = d.scheduler >>= λ s. some (
    if rewound
    then (success, d)
    else (failure (codes "Underlying RTL simulator does not support rewind"), d))

-- handle_evaluation behind the resolution of the symbols.
unfoldable pub evaluate : Reads → ℕ → ℕ → DebugExpression → Debugger → Handled
unfolding correct set_expr_values eval_debug
evaluate r ns_id instance_id e d =
    let (ready, (e', d')) = set_expr_values r ns_id e instance_id d in
    if not (correct e)
    then some (failure (codes "Unable to resolve symbols"), d)
    else if not ready
    then some (failure (codes "Unable to get symbol values"), d')
    else eval_debug e' >>= λ (v, e''). some (value_of v, d')

abbrev pub id_or_zero : Option ℕ → ℕ
id_or_zero none = 0
id_or_zero (some id) = id

-- The symbols of a request with an instance or a breakpoint are resolved there, others anywhere.
abbrev pub resolve_symbols :
    SymbolTable → Manager → Namespace → Place → DebugExpression → DebugExpression
resolve_symbols db m ns place e =
    if is_some place.instance_id
    then validate_expr ns.rtl db e place.breakpoint_id place.instance_id
    else if is_some place.breakpoint_id
    then validate_expr ns.rtl db e place.breakpoint_id place.instance_id
    else find_matching_namespace_validate db none none m e

-- handle_evaluation on a request that was read, with a symbol table. Without a namespace of the
-- request the default one is taken, which there must be.
unfoldable pub evaluate_request : Reads → SymbolTable → Text → Place → Debugger → Handled
unfolding debug_expression correct get_namespace validate_expr find_matching_namespace_validate
    evaluate default_namespace
evaluate_request r db expression place d = debug_expression expression >>= λ e. elim (correct e) [
  | false ↦ some (failure (codes "Invalid expression"), d)
  | true ↦ get_namespace d.namespaces db place >>= λ found.
      or_else found (default_namespace d.namespaces) >>= λ ns.
      evaluate r ns.id (id_or_zero place.instance_id) (resolve_symbols db d.namespaces ns place e) d
]

unfoldable pub handle_evaluation : Reads → Option Text → Text → Place → Debugger → Handled
unfolding evaluate_request
handle_evaluation r (some reason) expression place d = some (failure reason, d)
handle_evaluation r none expression place d = elim d.db [
  | none ↦ some (failure [], d)
  | some db ↦ evaluate_request r db expression place d
]

-- add_option of get_options and set_option on a Boolean; a name that is none of them is passed over.
unfoldable pub set_option : Text → Bool → Debugger → Debugger
set_option name v d =
    if text_eq name (codes "single_thread_mode")
    then record d { single_thread_mode = v }
    else if text_eq name (codes "log_enabled")
    then record d { log_enabled = v }
    else if text_eq name (codes "detach_after_disconnect")
    then record d { detach_after_disconnect = v }
    else if text_eq name (codes "use_hex_str")
    then record d { use_hex_str = v }
    else if text_eq name (codes "pause_at_posedge")
    then record d { pause_at_posedge = v }
    else if text_eq name (codes "perf_count")
    then record d { perf_count = v }
    else if text_eq name (codes "use_signal_cache")
    then record d { use_signal_cache = v }
    else d

unfoldable pub set_options : List (Text × Bool) → Debugger → Debugger
unfolding set_option
set_options [] d = d
set_options ((name, v) ∷ values) d = set_options values (set_option name v d)

-- handle_option_change: there are no options that are numbers or texts.
unfoldable pub handle_option_change : Option Text → List (Text × Bool) → Debugger → Handled
unfolding set_options
handle_option_change (some reason) bool_values d = some (failure reason, d)
handle_option_change none bool_values d = some (success, set_options bool_values d)

-- handle_set_value where the signal is known; `put` is the client's answer to set_value. The value
-- that is kept of the signal goes.
unfoldable pub written : Namespace → Text → Bool → Debugger → Response × Debugger
unfolding erase_key
written ns full_name false d = (failure [], d)
written ns full_name true d = elim (ns.rtl.get_handle full_name) [
  | none ↦ (success, d)
  | some h ↦ (
    success,
    if d.use_signal_cache
        then record d { cached_signal_values = erase_key h d.cached_signal_values }
        else d,
  )
]

abbrev pub cannot_resolve : Text → Response
cannot_resolve var_name = failure (codes "Unable to resolve " ++ var_name)

unfoldable pub handle_set_value : (Text → Bool) → Option Text → Text → Place → Debugger → Handled
unfolding get_namespace resolve_var_name written
handle_set_value put (some reason) var_name place d = some (failure reason, d)
handle_set_value put none var_name place d = d.db >>= λ db.
    get_namespace d.namespaces db place >>= λ found. elim found [
      | none ↦ some (failure (codes "Unable to determine design namespace"), d)
      | some ns ↦ elim (resolve_var_name db ns var_name place) [
        | none ↦ some (cannot_resolve var_name, d)
        | some full_name ↦ some (written ns full_name (put full_name) d)
      ]
    ]

-- handle_monitor: without one namespace of the place a null pointer is dereferenced.
unfoldable pub handle_monitor_add : Option Text → WatchType → Text → Place → Debugger → Handled
unfolding get_namespace resolve_var_name add_monitor_variable
handle_monitor_add (some reason) type var_name place d = some (failure reason, d)
handle_monitor_add none type var_name place d = do
  db ← d.db
  found ← get_namespace d.namespaces db place
  ns ← found
  m ← get_elem? d.monitors ns.id
  some (elim (resolve_var_name db ns var_name place) [
    | none ↦ (cannot_resolve var_name, d)
    | some full_name ↦
        let (id, m') = add_monitor_variable full_name type m in
        (tracked id ns.id, record d { monitors = set d.monitors ns.id m' })
  ])

unfoldable pub handle_monitor_remove : Option Text → ℕ → Place → Debugger → Handled
unfolding get_namespace remove_monitor_variable
handle_monitor_remove (some reason) track_id place d = some (failure reason, d)
handle_monitor_remove none track_id place d = do
  db ← d.db
  found ← get_namespace d.namespaces db place
  ns ← found
  m ← get_elem? d.monitors ns.id
  some (success, record d { monitors = set d.monitors ns.id (remove_monitor_variable track_id m) })
