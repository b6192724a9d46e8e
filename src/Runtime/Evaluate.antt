-- ===== src/Runtime/Evaluate.antt =====
-- The evaluation of breakpoints in src/debug.cc: should_trigger, eval_breakpoint and
-- eval_breakpoints. The two threads of eval_breakpoints take turns in any order, a breakpoint at a
-- time; the log and the performance counters are left out.
pub mod Triggers
pub mod Threads
use hgdb.Prelude.{
  Text, codes, ℕ, Bool, true, false, not, ◌&&◌, ◌||◌, ltb, ◌/◌, if◌then◌else◌, Option, none, some,
  ◌>>=◌, List, [], ◌∷◌, ◌++◌, get_elem?, set, length, take, drop, is_empty,
}
use hgdb.Prelude.Int.{ℤ, pos, eq_ℤ}
use hgdb.Prelude.Maps.{lookup, assign, text_key}
use hgdb.Eval.Debug.{Handle, DebugExpression, correct, eval_debug}
use hgdb.Interfaces.{SymbolTable}
use hgdb.Scheduler.{DebugBreakPoint, Scheduler, data_, is_kind}
use hgdb.Scheduler.Edit.Drop.{is_breakpoint_only}
use hgdb.Scheduler.Next.{Chosen, stored, temporary}
use hgdb.Monitor.{Monitor, differs, var_changed}
use hgdb.Runtime.{Reads, Debugger, cycle_of}
use hgdb.Runtime.Signals.{get_signal_value, get_full_name, set_expr_values}

-- Whether a value is new to the trigger values.
abbrev pub is_new : Text → ℤ → List (Text × ℤ) → Bool
is_new symbol v values = differs (lookup symbol values) v

-- The client's get_full_name, of the namespace.
abbrev full_name_in : ℕ → Debugger → Text → Text
full_name_in ns_id d name = elim (get_elem? d.namespaces.namespaces ns_id) [
  | none ↦ name
  | some ns ↦ ns.rtl.get_full_name name
]

-- The loop of should_trigger; `fired` is should_trigger so far. A value that is missing ends it, and
-- what is kept by then stays.
unfoldable pub trigger_from :
    Reads
    → SymbolTable
    → DebugBreakPoint
    → List (Text × Handle)
    → Bool
    → List (Text × ℤ)
    → Debugger
    → Bool × (List (Text × ℤ) × Debugger)
unfolding lookup assign get_signal_value get_full_name
trigger_from r db bp [] fired values d = (fired, (values, d))
trigger_from r db bp ((symbol, h) ∷ rest) fired values d =
    let (v, d₁) = get_signal_value r bp.ns_id (some h) false d in
    elim v [
      | none ↦
          (true, (values, (get_full_name (full_name_in bp.ns_id d) db bp.instance_id symbol d₁).1))
      | some n ↦
          trigger_from r db bp rest (fired || is_new symbol n values) (assign symbol n values) d₁
    ]

-- A breakpoint without trigger symbols is always triggered.
unfoldable pub should_trigger :
    Reads → SymbolTable → DebugBreakPoint → Debugger → Bool × (DebugBreakPoint × Debugger)
unfolding trigger_from
should_trigger r db bp d =
    let (fired, (values, d')) = trigger_from r db bp bp.trigger_symbols false bp.trigger_values d in
    if is_empty bp.trigger_symbols
    then (true, (bp, d))
    else (fired, (record bp { trigger_values = values }, d'))

abbrev pub is_nonzero : ℤ → Bool
is_nonzero v = not (eq_ℤ v (pos 0))

-- A data breakpoint that is enabled is a hit only if its variable has changed.
unfoldable pub data_changed : Reads → DebugBreakPoint → Bool → Debugger → Option (Bool × Debugger)
unfolding var_changed
data_changed r bp false d = some (true, d)
data_changed r bp true d = do
  m ← get_elem? d.monitors bp.ns_id
  ((is_changed, v), m') ← var_changed (cycle_of r bp.ns_id) bp.watch_id m
  some (is_changed, record d { monitors = set d.monitors bp.ns_id m' })

-- The expression of the mode: the whole condition, or the enable condition alone.
abbrev pub expression_of : Bool → DebugBreakPoint → Option DebugExpression
expression_of true bp = bp.expr
expression_of false bp = some bp.enable_expr

abbrev pub with_expression : Bool → DebugExpression → DebugBreakPoint → DebugBreakPoint
with_expression true e bp = record bp { expr = some e }
with_expression false e bp = record bp { enable_expr = e }

abbrev pub Evaluated : Type 0
Evaluated = Option (Bool × (DebugBreakPoint × Debugger))

-- The rest of eval_breakpoint, where the symbols have their values.
unfoldable pub eval_with_values :
    Reads → SymbolTable → Bool → DebugExpression → DebugBreakPoint → Debugger → Evaluated
unfolding eval_debug should_trigger data_changed
eval_with_values r db only e bp d = do
  (v, e') ← eval_debug e
  let (fired, (bp', d')) = should_trigger r db (with_expression only e' bp) d
  let enabled = is_nonzero v && fired
  (data_bp, d'') ← data_changed r bp' (is_kind data_ bp'.type && enabled) d'
  some (enabled && data_bp, (bp', d''))

-- eval_breakpoint on an expression; one that is not right is no hit, and neither is one of whose
-- symbols a value is missing.
unfoldable pub eval_expression :
    Reads → SymbolTable → Bool → DebugExpression → DebugBreakPoint → Debugger → Evaluated
unfolding correct set_expr_values eval_with_values
eval_expression r db only e bp d =
    let (ready, (e', d')) = set_expr_values r bp.ns_id e bp.instance_id d in
    if not (correct e)
    then some (false, (bp, d))
    else if not ready
    then some (false, (with_expression only e' bp, d'))
    else eval_with_values r db only e' bp d'

-- eval_breakpoint; `only` is breakpoint_only of the scheduler, and an expression that is a null
-- pointer is undefined behaviour.
unfoldable pub eval_breakpoint : Reads → SymbolTable → Bool → DebugBreakPoint → Debugger → Evaluated
unfolding eval_expression
eval_breakpoint r db only bp d = expression_of only bp >>= λ e. eval_expression r db only e bp d

-- Where the pointers of a result of next_breakpoints point to.
abbrev pub indexes : Chosen → List ℕ
indexes (stored is) = is
indexes (temporary is) = is

abbrev pub pool : Chosen → Scheduler → List DebugBreakPoint
pool (stored is) s = s.breakpoints
pool (temporary is) s = s.next_temp_breakpoints

abbrev pub with_pool : Chosen → List DebugBreakPoint → Scheduler → Scheduler
with_pool (stored is) bps s = record s { breakpoints = bps }
with_pool (temporary is) bps s = record s { next_temp_breakpoints = bps }

-- eval_breakpoint at a pointer. The scheduler is not altered by it beside the breakpoint.
unfoldable pub eval_at : Reads → SymbolTable → Chosen → ℕ → Debugger → Option (Bool × Debugger)
unfolding eval_breakpoint is_breakpoint_only
eval_at r db chosen i d = do
  s ← d.scheduler
  bp ← get_elem? (pool chosen s) i
  (hit, (bp', d')) ← eval_breakpoint r db (is_breakpoint_only s) bp d
  let s' = with_pool chosen (set (pool chosen s) i bp') s
  some (hit, record d' { scheduler = some s' })

-- The second eval_breakpoint, over a part of the vector.
unfoldable pub eval_range :
    Reads → SymbolTable → Chosen → List ℕ → Debugger → Option (List Bool × Debugger)
unfolding eval_at
eval_range r db chosen [] d = some ([], d)
eval_range r db chosen (i ∷ is) d = do
  (hit, d') ← eval_at r db chosen i d
  (hits, d'') ← eval_range r db chosen is d'
  some (hit ∷ hits, d'')

abbrev processor_count : ℕ
processor_count = 2

abbrev batch_min_size : ℕ
batch_min_size = 32

-- The hits of the two threads, each in its own part of the vector.
abbrev pub Parts : Type 0
Parts = Option ((List Bool × List Bool) × Debugger)

abbrev pub first_hit : Bool → Parts → Parts
first_hit hit rest = rest >>= λ ((hits, more), d). some ((hit ∷ hits, more), d)

abbrev pub second_hit : Bool → Parts → Parts
second_hit hit rest = rest >>= λ ((hits, more), d). some ((hits, hit ∷ more), d)

-- One thread behind the other.
abbrev pub eval_in_turn : Reads → SymbolTable → Chosen → List ℕ → List ℕ → Debugger → Parts
unfolding eval_range
eval_in_turn r db chosen is js d = do
  (hits, d₁) ← eval_range r db chosen is d
  (more, d₂) ← eval_range r db chosen js d₁
  some ((hits, more), d₂)

-- Two threads on their parts. The turns say whether the first goes on; behind the last turn, or where
-- one has no breakpoint left, what is left of the first and then of the second is evaluated.
unfoldable pub eval_threads :
    Reads → SymbolTable → Chosen → List Bool → List ℕ → List ℕ → Debugger → Parts
unfolding eval_range
eval_threads r db chosen (true ∷ turns) (i ∷ is) (j ∷ js) d =
    eval_at r db chosen i d >>= λ (hit, d₁).
    first_hit hit (eval_threads r db chosen turns is (j ∷ js) d₁)
eval_threads r db chosen (false ∷ turns) (i ∷ is) (j ∷ js) d =
    eval_at r db chosen j d >>= λ (hit, d₁).
    second_hit hit (eval_threads r db chosen turns (i ∷ is) js d₁)
eval_threads r db chosen _ is js d = eval_in_turn r db chosen is js d

-- More than 32 breakpoints are evaluated by two threads, except in a commercial simulator.
unfoldable pub eval_breakpoints :
    Reads → SymbolTable → Bool → Chosen → Debugger → Option (List Bool × Debugger)
unfolding eval_range eval_threads
eval_breakpoints r db commercial chosen d =
    let is = indexes chosen in
    let batch_size = length is / processor_count in
    let parts = eval_threads r db chosen (r.turns is) (take batch_size is) (drop batch_size is) d in
    let batches : Option (List Bool × Debugger) =
      parts >>= λ ((hits, more), d'). some (hits ++ more, d') in
    let single = eval_range r db chosen is d in
    if ltb batch_min_size (length is) && not commercial then batches else single
