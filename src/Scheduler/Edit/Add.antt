-- ===== src/Scheduler/Edit/Add.antt =====
-- add_breakpoint of src/scheduler.cc and its callers.
use hgdb.Prelude.{
  Text, codes, ℕ, suc, ◌==◌, Bool, false, not, ◌&&◌, if◌then◌else◌, Option, none, some, ◌>>=◌, List,
  [], ◌∷◌, ◌++◌, length, get_elem?, set, text_eq, is_empty,
}
use hgdb.Prelude.Maps.{contains, insert, nat_key}
use hgdb.Eval.Debug.{DebugExpression, Handle, correct}
use hgdb.Eval.Grammar.{debug_expression}
use hgdb.Interfaces.{BreakPoint, SymbolTable, Rtl}
use hgdb.Namespaces.{Manager, Namespace, get_namespaces}
use hgdb.Scheduler.{
  Kind, normal, data_, assert_, flag, has_type_flag, with_flag, DebugBreakPoint, Scheduler,
}
use hgdb.Scheduler.Validate.{validate_expr, compute_trigger_symbol}
use hgdb.Scheduler.Edit.Drop.{find_id}

-- The pointer that an insertion returns: null, the holder of a dry run, or an index.
pub data Added : Type 0 where
  nowhere : Added
  held : DebugBreakPoint → Added
  stored : ℕ → Added

-- The condition of the symbol table and that of the client.
unfoldable pub join_conditions : BreakPoint → BreakPoint → Text
join_conditions bp_info db_bp =
    let cond = if is_empty db_bp.condition then codes "1" else db_bp.condition in
    if is_empty bp_info.condition then cond else cond ++ (codes " && " ++ bp_info.condition)

abbrev pub enable_condition : BreakPoint → Text
enable_condition db_bp = if is_empty db_bp.condition then codes "1" else db_bp.condition

abbrev append_breakpoint : DebugBreakPoint → Scheduler → Scheduler
append_breakpoint b s = record s {
  breakpoints = s.breakpoints ++ b ∷ [];
  inserted_breakpoints = insert b.id s.inserted_breakpoints;
}

-- The end of insert_bp: whether the two expressions are right, and where the breakpoint goes.
unfoldable pub place_bp : Bool → Bool → Bool → DebugBreakPoint → Scheduler → Added × Scheduler
unfolding insert
place_bp expr_right enable_right dry_run b s =
    if not expr_right
    then (nowhere, s)
    else if not enable_right
    then (nowhere, s)
    else if dry_run
    then (held b, s)
    else (stored (length s.breakpoints), append_breakpoint b s)

-- The lambda insert_bp: a condition that cannot be resolved gives a null pointer.
unfoldable pub insert_bp :
    SymbolTable
    → Kind
    → BreakPoint
    → Text
    → Bool
    → Namespace
    → Scheduler
    → Option (Added × Scheduler)
insert_bp db kind db_bp cond dry_run ns s = do
  instance_id ← db_bp.instance_id
  parsed ← debug_expression cond
  parsed_enable ← debug_expression (enable_condition db_bp)
  triggers ← compute_trigger_symbol db_bp ns.rtl db
  let expr = validate_expr ns.rtl db parsed (some db_bp.id) (some instance_id)
  let enable = validate_expr ns.rtl db parsed_enable (some db_bp.id) (some instance_id)
  let b : DebugBreakPoint = record {
    id = db_bp.id;
    instance_id = instance_id;
    expr = some expr;
    enable_expr = enable;
    filename = db_bp.filename;
    line_num = db_bp.line_num;
    column_num = db_bp.column_num;
    trigger_symbols = triggers;
    trigger_values = [];
    evaluated = false;
    type = flag kind;
    full_rtl_handle = none;
    full_rtl_name = [];
    target_rtl_var_name = [];
    watch_id = 0;
    ns_id = ns.id;
  }
  some (place_bp (correct expr) (correct enable) dry_run b s)

-- A breakpoint for each namespace; the pointer is the last one's.
unfoldable pub insert_all :
    SymbolTable
    → BreakPoint
    → Text
    → Bool
    → List Namespace
    → Added
    → Scheduler
    → Option (Added × Scheduler)
insert_all db db_bp cond dry_run [] added s = some (added, s)
insert_all db db_bp cond dry_run (ns ∷ rest) added s =
    insert_bp db normal db_bp cond dry_run ns s >>= λ (added', s').
    insert_all db db_bp cond dry_run rest added' s'

-- The update of a breakpoint that is inserted already: the first with the id gets the new condition,
-- also where that is in error, and the flag.
unfoldable pub update_entry :
    SymbolTable → Manager → BreakPoint → Text → Scheduler → Option (Added × Scheduler)
update_entry db m db_bp cond s = elim (find_id db_bp.id s.breakpoints) [
  | none ↦ some (nowhere, s)
  | some i ↦ do
    b ← get_elem? s.breakpoints i
    ns ← get_elem? m.namespaces b.ns_id
    parsed ← debug_expression cond
    instance_id ← db_bp.instance_id
    let expr = validate_expr ns.rtl db parsed (some db_bp.id) (some instance_id)
    some (
      stored i,
      record s {
        breakpoints =
            set s.breakpoints i (record b { expr = some expr; type = with_flag normal b.type });
      },
    )
]

unfoldable pub add_normal :
    SymbolTable
    → Manager
    → BreakPoint
    → Text
    → Bool
    → List Namespace
    → Scheduler
    → Option (Added × Scheduler)
add_normal db m db_bp cond dry_run namespaces s =
    let updated = update_entry db m db_bp cond s in
    let inserted = insert_all db db_bp cond dry_run namespaces nowhere s in
    if not (contains db_bp.id s.inserted_breakpoints) then inserted else updated

abbrev expression_is : Text → Option DebugExpression → Bool
expression_is cond none = false
expression_is cond (some d) = text_eq d.expression cond

-- The first breakpoint that matches a data breakpoint.
unfoldable pub find_data : ℕ → Text → Text → List DebugBreakPoint → Option ℕ
find_data id target_var cond [] = none
find_data id target_var cond (b ∷ bs) =
    let later = find_data id target_var cond bs >>= λ i. some (suc i) in
    if b.id == id
      && (has_type_flag data_ b.type
          && (text_eq b.target_rtl_var_name target_var && expression_is cond b.expr))
    then some 0
    else later

abbrev with_target : Rtl → Text → Option Handle → DebugBreakPoint → DebugBreakPoint
with_target rtl target_var none b = record b {
  full_rtl_handle = none;
  full_rtl_name = [];
  target_rtl_var_name = target_var;
}
with_target rtl target_var (some h) b = record b {
  full_rtl_handle = some h;
  full_rtl_name = rtl.name_of_handle h;
  target_rtl_var_name = target_var;
}

-- The writes through `data_bp`: a null pointer is undefined behaviour.
unfoldable pub set_target :
    Rtl → Text → Option Handle → Added → Scheduler → Option (Added × Scheduler)
set_target rtl target_var h nowhere s = none
set_target rtl target_var h (held b) s = some (held (with_target rtl target_var h b), s)
set_target rtl target_var h (stored i) s = get_elem? s.breakpoints i >>= λ b.
    some (stored i, record s { breakpoints = set s.breakpoints i (with_target rtl target_var h b) })

-- The handle of the variable, if the expression is right and has one symbol.
unfoldable pub single_handle : DebugExpression → Option (Option Handle)
unfolding correct
single_handle d = if correct d then single d.handles else none
  where
    single : List (Text × Option Handle) → Option (Option Handle)
    single ((name, h) ∷ []) = some h
    single _ = none

-- A variable that cannot be resolved ends the loop of the data case with a null pointer; else the
-- target is set, and the loop goes on with the other namespaces.
unfoldable pub continue_data :
    Rtl
    → Text
    → Option (Option Handle)
    → Added
    → Scheduler
    → (Added → Scheduler → Option (Added × Scheduler))
    → Option (Added × Scheduler)
continue_data rtl target_var none data_bp s others = some (nowhere, s)
continue_data rtl target_var (some h) data_bp s others =
    set_target rtl target_var h data_bp s >>= λ (data_bp', s'). others data_bp' s'

-- The loop of the data case: a variable that cannot be resolved ends it with a null pointer, and
-- what was inserted stays.
unfoldable pub insert_data :
    SymbolTable
    → BreakPoint
    → Text
    → Text
    → Bool
    → List Namespace
    → Added
    → Scheduler
    → Option (Added × Scheduler)
insert_data db db_bp target_var cond dry_run [] added s = some (added, s)
insert_data db db_bp target_var cond dry_run (ns ∷ rest) added s = do
  (data_bp, s₁) ← insert_bp db data_ db_bp cond dry_run ns s
  parsed ← debug_expression target_var
  instance_id ← db_bp.instance_id
  let expr = validate_expr ns.rtl db parsed (some db_bp.id) (some instance_id)
  continue_data ns.rtl target_var (single_handle expr) data_bp s₁
      (insert_data db db_bp target_var cond dry_run rest)

unfoldable pub add_data :
    SymbolTable
    → BreakPoint
    → Text
    → Text
    → Bool
    → List Namespace
    → Scheduler
    → Option (Added × Scheduler)
add_data db db_bp target_var cond dry_run namespaces s =
    elim (find_data db_bp.id target_var cond s.breakpoints) [
      | some i ↦ some (stored i, s)
      | none ↦ insert_data db db_bp target_var cond dry_run namespaces nowhere s
    ]

abbrev add_assert :
    SymbolTable
    → BreakPoint
    → Text
    → Bool
    → Option Namespace
    → Scheduler
    → Option (Added × Scheduler)
add_assert db db_bp cond dry_run none s = some (nowhere, s)
add_assert db db_bp cond dry_run (some ns) s = insert_bp db assert_ db_bp cond dry_run ns s

unfoldable pub add_in_kind :
    Kind
    → SymbolTable
    → Manager
    → BreakPoint
    → Text
    → Text
    → Bool
    → Option Namespace
    → List Namespace
    → Scheduler
    → Option (Added × Scheduler)
add_in_kind normal db m db_bp cond target_var dry_run target_ns namespaces s =
    add_normal db m db_bp cond dry_run namespaces s
add_in_kind data_ db m db_bp cond target_var dry_run target_ns namespaces s =
    add_data db db_bp target_var cond dry_run namespaces s
add_in_kind assert_ db m db_bp cond target_var dry_run target_ns namespaces s =
    add_assert db db_bp cond dry_run target_ns s

unfoldable pub add_breakpoint :
    SymbolTable
    → Manager
    → BreakPoint
    → BreakPoint
    → Kind
    → Text
    → Bool
    → Option Namespace
    → Scheduler
    → Option (Added × Scheduler)
add_breakpoint db m bp_info db_bp kind target_var dry_run target_ns s =
    get_namespaces m (db.get_instance_name_from_bp db_bp.id) >>= λ namespaces.
    add_in_kind kind db m db_bp (join_conditions bp_info db_bp) target_var dry_run target_ns
      namespaces s

-- A data breakpoint's own BreakPoint carries the expression alone.
unfoldable pub add_data_breakpoint :
    SymbolTable → Manager → Text → Text → BreakPoint → Bool → Scheduler → Option (Added × Scheduler)
add_data_breakpoint db m full_name expression db_bp dry_run s =
    add_breakpoint db m (record db_bp { condition = expression }) db_bp data_ full_name dry_run none
      s

unfoldable pub add_assert_breakpoint :
    SymbolTable → Manager → Option Namespace → BreakPoint → Scheduler → Option (Added × Scheduler)
add_assert_breakpoint db m ns db_bp s = add_breakpoint db m db_bp db_bp assert_ [] false ns s
