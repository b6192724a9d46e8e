-- ===== src/Scheduler/Next.antt =====
-- The operations of src/scheduler.cc that choose the breakpoints to evaluate next.
pub mod Forward
pub mod Backward
pub mod Reverse
pub mod Steps
pub mod Scan
pub mod Twins
pub mod Marks
use hgdb.Prelude.{
  Text, codes, ℕ, zero, suc, ◌+◌, ◌-◌, ◌==◌, ltb, Bool, true, false, not, ◌&&◌, ◌||◌, if◌then◌else◌,
  Option, none, some, ◌>>=◌, List, [], ◌∷◌, ◌++◌, length, take, drop, get_elem?, set, text_eq,
  is_empty, is_some,
}
use hgdb.Eval.Debug.{DebugExpression}
use hgdb.Eval.Grammar.{debug_expression}
use hgdb.Interfaces.{BreakPoint, SymbolTable, Rtl}
use hgdb.Namespaces.{Manager, Namespace, get_namespaces}
use hgdb.Scheduler.{
  Kind, normal, data_, Flags, is_kind, has_type_flag, DebugBreakPoint, default_breakpoint,
  Scheduler, EvaluationMode, breakpoint_only, step_over, step_back, reverse_breakpoint_only, none_,
}
use hgdb.Scheduler.Validate.{validate_expr}

-- Pointers into `breakpoints_`, or into `next_temp_breakpoints_`, are indexes.
pub data Chosen : Type 0 where
  stored temporary : List ℕ → Chosen

-- The last position of a breakpoint that was evaluated.
unfoldable pub last_evaluated : ℕ → Option ℕ → List DebugBreakPoint → Option ℕ
last_evaluated i found [] = found
last_evaluated i found (b ∷ bs) = last_evaluated (suc i) (if b.evaluated then some i else found) bs

-- The start, or the one behind the last hit; none at the end.
abbrev pub start_index : Option ℕ → ℕ → Option ℕ
start_index none size = some 0
start_index (some i) size = if ltb (suc i) size then some (suc i) else none

-- enable_expr->expression() of both.
abbrev pub same_text : DebugExpression → DebugExpression → Bool
same_text a b = text_eq a.expression b.expression

abbrev pub same_place : DebugBreakPoint → DebugBreakPoint → Bool
same_place a b =
    a.line_num == b.line_num && (text_eq a.filename b.filename && a.column_num == b.column_num)

-- The lambda `match`: whether breakpoint `b` at index `i` joins the result.
abbrev pub joins : DebugBreakPoint → DebugBreakPoint → Bool
joins ref b =
    not (is_kind data_ b.type)
    && (not (b.instance_id == ref.instance_id) && same_text b.enable_expr ref.enable_expr)

-- The loop over breakpoints that stand one behind another, from index `i`; it ends at another place.
unfoldable pub scan_forward : DebugBreakPoint → ℕ → List DebugBreakPoint → List ℕ
scan_forward ref i [] = []
scan_forward ref i (b ∷ bs) =
    let rest = scan_forward ref (suc i) bs in
    if same_place b ref then (if joins ref b then i ∷ rest else rest) else []

-- The loop downwards from index `n - 1`.
unfoldable pub scan_backward : DebugBreakPoint → ℕ → List DebugBreakPoint → List ℕ
scan_backward ref zero bps = []
scan_backward ref (suc n) bps =
    let rest = scan_backward ref n bps in
    elim (get_elem? bps n) [
      | none ↦ []
      | some b ↦ if same_place b ref then (if joins ref b then n ∷ rest else rest) else []
    ]

-- scan_breakpoints: a reference with the data flag stands alone.
unfoldable pub scan_breakpoints : ℕ → Bool → List DebugBreakPoint → Option (List ℕ)
scan_breakpoints index forward bps = get_elem? bps index >>= λ ref. some (
    if has_type_flag data_ ref.type
    then []
    else if forward
    then scan_forward ref index (drop index bps)
    else scan_backward ref index bps)

-- bp->evaluated = true for all that were chosen.
unfoldable pub mark_evaluated : List ℕ → List DebugBreakPoint → List DebugBreakPoint
mark_evaluated [] bps = bps
mark_evaluated (i ∷ is) bps = elim (get_elem? bps i) [
  | none ↦ mark_evaluated is bps
  | some b ↦ mark_evaluated is (set bps i (record b { evaluated = true }))
]

-- The id of the breakpoint at an index.
abbrev pub id_at : List DebugBreakPoint → ℕ → Option ℕ
id_at bps i = get_elem? bps i >>= λ b. some b.id

-- next_normal_breakpoints from the index on: the first chosen one is the current breakpoint.
unfoldable pub choose_forward : Bool → ℕ → Scheduler → Option (List ℕ × Scheduler)
choose_forward single_thread_mode index s = get_elem? s.breakpoints index >>= λ b.
    let alone : Option (List ℕ) = some [] in
    let scanned = scan_breakpoints index true s.breakpoints in
    (if not single_thread_mode && is_kind normal b.type then scanned else alone) >>= λ others.
    some (
      index ∷ others,
      record s {
        current_breakpoint_id = some b.id;
        breakpoints = mark_evaluated (index ∷ others) s.breakpoints;
      },
    )

unfoldable pub next_normal_breakpoints : Bool → Scheduler → Option (List ℕ × Scheduler)
next_normal_breakpoints single_thread_mode s =
    let start = start_index (last_evaluated 0 none s.breakpoints) (length s.breakpoints) in
    let chosen : Option (List ℕ × Scheduler) = elim start [
      | none ↦ some ([], s)
      | some index ↦ choose_forward single_thread_mode index s
    ] in
    if is_empty s.breakpoints then some ([], s) else chosen

-- The highest index from 1 to `n` whose breakpoint has the id; the loop of next_reverse_breakpoints.
unfoldable pub find_down : ℕ → ℕ → List DebugBreakPoint → Option ℕ
find_down id zero bps = none
find_down id (suc n) bps =
    let lower = find_down id n bps in
    elim (id_at bps (suc n)) [ none ↦ lower | some j ↦ if j == id then some n else lower ]

-- At the first breakpoint time is reversed to the end of the list, or evaluation stays; else the
-- target is the one before the current one. `head` is the first breakpoint's id.
unfoldable pub reverse_from : ℕ → Bool → ℕ → Option ℕ → Option ℕ → Option ℕ
reverse_from id reversed last none earlier = earlier
reverse_from id reversed last (some j) earlier =
    if j == id then (if reversed then some last else some 0) else earlier

-- `reversed` is what reverse_last_posedge returns, when it is called. The target is an index.
unfoldable pub reverse_target : Bool → Scheduler → Option ℕ
reverse_target reversed s =
    let last = length s.breakpoints - 1 in
    elim s.current_breakpoint_id [
      | none ↦ some last
      | some id ↦
          reverse_from id reversed last (id_at s.breakpoints 0) (find_down id last s.breakpoints)
    ]

abbrev pub last_of : ℕ → List ℕ → ℕ
last_of i [] = i
last_of i (j ∷ js) = last_of j js

-- The rest of next_reverse_breakpoints: the last chosen one is the current breakpoint. The test
-- `!target_index && target_index >= size` is never true, since an empty optional is less than every
-- number: a missing target is dereferenced.
unfoldable pub choose_backward : Bool → Option ℕ → Scheduler → Option (List ℕ × Scheduler)
choose_backward single_thread_mode none s = none
choose_backward single_thread_mode (some index) s =
    let alone : Option (List ℕ) = some [] in
    let scanned = scan_breakpoints index false s.breakpoints in
    (if single_thread_mode then alone else scanned) >>= λ others.
    id_at s.breakpoints (last_of index others) >>= λ id. some (
      index ∷ others,
      record s {
        current_breakpoint_id = some id;
        breakpoints = mark_evaluated (index ∷ others) s.breakpoints;
      },
    )

unfoldable pub next_reverse_breakpoints : Bool → Bool → Scheduler → Option (List ℕ × Scheduler)
next_reverse_breakpoints reversed single_thread_mode s =
    let chosen = choose_backward single_thread_mode (reverse_target reversed s) s in
    if is_empty s.breakpoints then some ([], s) else chosen

-- std::find: the position of the id, or the size.
unfoldable pub index_of : ℕ → List ℕ → ℕ
index_of id [] = 0
index_of id (j ∷ js) = if j == id then 0 else suc (index_of id js)

unfoldable pub step_over_target : Scheduler → Option ℕ
unfolding index_of
step_over_target s = elim s.current_breakpoint_id [
  | none ↦ get_elem? s.bp_ordering 0
  | some id ↦ get_elem? s.bp_ordering (suc (index_of id s.bp_ordering))
]

-- The outer option is undefined behaviour, the inner one is no target.
unfoldable pub step_back_target : Bool → Scheduler → Option (Option ℕ)
unfolding index_of
step_back_target reversed s = elim s.current_breakpoint_id [
  | none ↦ some none
  | some id ↦ elim (index_of id s.bp_ordering) [
    | suc i ↦ get_elem? s.bp_ordering i >>= λ next. some (some next)
    | zero ↦ get_elem? s.bp_ordering (if reversed then length s.bp_ordering - 1 else 0) >>= λ next.
        some (some next)
  ]
]

abbrev cond_of : BreakPoint → Text
cond_of bp = if is_empty bp.condition then codes "1" else bp.condition

-- The loop of create_next_breakpoints; an entry that is not there yet is default-constructed.
unfoldable pub fill_temporary :
    SymbolTable
    → ℕ
    → BreakPoint
    → ℕ
    → List Namespace
    → List DebugBreakPoint
    → Option (List DebugBreakPoint)
unfolding debug_expression validate_expr
fill_temporary db id bp instance_id [] old = some []
fill_temporary db id bp instance_id (ns ∷ rest) old = debug_expression (cond_of bp) >>= λ enable.
    fill_temporary db id bp instance_id rest (drop 1 old) >>= λ others.
    let enable_expr = validate_expr ns.rtl db enable (some id) (some instance_id) in
    some (
      record (head_or_default enable_expr old) {
        id = id;
        instance_id = instance_id;
        ns_id = ns.id;
        enable_expr = enable_expr;
        filename = bp.filename;
        line_num = bp.line_num;
        column_num = bp.column_num;
        evaluated = true;
      }
      ∷ others)
  where
    head_or_default : DebugExpression → List DebugBreakPoint → DebugBreakPoint
    head_or_default enable [] = default_breakpoint enable
    head_or_default enable (b ∷ bs) = b

abbrev indexes_from : ℕ → List DebugBreakPoint → List ℕ
indexes_from i [] = []
indexes_from i (b ∷ bs) = i ∷ indexes_from (suc i) bs

-- An unknown breakpoint gives no result; a breakpoint without an instance is undefined behaviour.
unfoldable pub create_next_breakpoints :
    SymbolTable → Manager → ℕ → Option BreakPoint → Scheduler → Option (List ℕ × Scheduler)
unfolding fill_temporary get_namespaces
create_next_breakpoints db m id none s = some ([], s)
create_next_breakpoints db m id (some bp) s = bp.instance_id >>= λ instance_id.
    get_namespaces m (db.get_instance_name instance_id) >>= λ namespaces.
    fill_temporary db id bp instance_id namespaces s.next_temp_breakpoints >>= λ temps.
    some (indexes_from 0 temps, record s { next_temp_breakpoints = temps })

-- Where there is a target it becomes the current breakpoint.
unfoldable pub go_to : SymbolTable → Manager → Option ℕ → Scheduler → Option (List ℕ × Scheduler)
unfolding create_next_breakpoints
go_to db m none s = some ([], s)
go_to db m (some id) s =
    create_next_breakpoints db m id (db.get_breakpoint id)
      (record s { current_breakpoint_id = some id })

unfoldable pub next_step_over_breakpoints :
    SymbolTable → Manager → Scheduler → Option (List ℕ × Scheduler)
next_step_over_breakpoints db m s = go_to db m (step_over_target s) s

unfoldable pub next_step_back_breakpoints :
    SymbolTable → Manager → Bool → Scheduler → Option (List ℕ × Scheduler)
next_step_back_breakpoints db m reversed s =
    step_back_target reversed s >>= λ target. go_to db m target s

abbrev stored_result : Option (List ℕ × Scheduler) → Option (Chosen × Scheduler)
stored_result r = r >>= λ (is, s). some (stored is, s)

abbrev temporary_result : Option (List ℕ × Scheduler) → Option (Chosen × Scheduler)
temporary_result r = r >>= λ (is, s). some (temporary is, s)

unfoldable pub next_in_mode :
    EvaluationMode → SymbolTable → Manager → Bool → Bool → Scheduler → Option (Chosen × Scheduler)
next_in_mode breakpoint_only db m reversed single s =
    stored_result (next_normal_breakpoints single s)
next_in_mode step_over db m reversed single s = temporary_result (next_step_over_breakpoints db m s)
next_in_mode step_back db m reversed single s =
    temporary_result (next_step_back_breakpoints db m reversed s)
next_in_mode reverse_breakpoint_only db m reversed single s =
    stored_result (next_reverse_breakpoints reversed single s)
next_in_mode none_ db m reversed single s = some (stored [], s)

unfoldable pub next_breakpoints :
    SymbolTable → Manager → Bool → Bool → Scheduler → Option (Chosen × Scheduler)
next_breakpoints db m reversed single_thread_mode s =
    next_in_mode s.evaluation_mode db m reversed single_thread_mode s
