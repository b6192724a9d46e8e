-- ===== src/Scheduler/Edit/Drop.antt =====
-- Removal, reset and order of src/scheduler.cc, and its constructor.
use hgdb.Prelude.{
  Text, ℕ, suc, ◌==◌, leb, Bool, true, false, not, ◌&&◌, ◌||◌, if◌then◌else◌, Option, none, some,
  ◌>>=◌, List, [], ◌∷◌, get_elem?,
}
use hgdb.Prelude.Maps.{lookup, emplace, insert, erase, nat_key}
use hgdb.Eval.Debug.{Handle}
use hgdb.Interfaces.{BreakPoint, SymbolTable, Rtl}
use hgdb.Namespaces.{Manager, default_rtl}
use hgdb.Scheduler.{
  Kind, normal, data_, assert_, flag, has_type_flag, without_flag, no_flags, DebugBreakPoint,
  Scheduler, EvaluationMode, breakpoint_only, step_over, step_back, none_, reverse_breakpoint_only,
}
use hgdb.Scheduler.Validate.{get_clock_signals}

-- The position of the first breakpoint with the id.
unfoldable pub find_id : ℕ → List DebugBreakPoint → Option ℕ
find_id id [] = none
find_id id (b ∷ bs) =
    let later = find_id id bs >>= λ i. some (suc i) in if b.id == id then some 0 else later

-- The private remove_breakpoint on the first breakpoint with the id: the flag is taken off, and the
-- breakpoint goes with its last flag. It returns what was removed.
unfoldable pub remove_first :
    ℕ → Kind → List DebugBreakPoint → Option DebugBreakPoint × List DebugBreakPoint
remove_first id kind [] = (none, [])
remove_first id kind (b ∷ bs) =
    let (removed, rest) = remove_first id kind bs in
    let t = without_flag kind b.type in
    if b.id == id
    then (if no_flags t then (some b, bs) else (none, record b { type = t } ∷ bs))
    else (removed, b ∷ rest)

abbrev forget : ℕ → Option DebugBreakPoint → List ℕ → List ℕ
forget id none inserted = inserted
forget id (some b) inserted = erase id inserted

unfoldable pub remove_by_id : ℕ → Kind → Scheduler → Option DebugBreakPoint × Scheduler
unfolding remove_first erase
remove_by_id id kind s =
    let (removed, rest) = remove_first id kind s.breakpoints in
    (
      removed,
      record s {
        breakpoints = rest;
        inserted_breakpoints = forget id removed s.inserted_breakpoints;
      },
    )

unfoldable pub remove_breakpoint : BreakPoint → Kind → Scheduler → Scheduler
unfolding remove_by_id
remove_breakpoint bp kind s = (remove_by_id bp.id kind s).1

-- The watch id of what was removed.
unfoldable pub remove_data_breakpoint : ℕ → Scheduler → Option ℕ × Scheduler
unfolding remove_by_id
remove_data_breakpoint id s =
    let (removed, s') = remove_by_id id data_ s in (removed >>= λ b. some b.watch_id, s')

-- get_breakpoint.
unfoldable pub get_breakpoint : ℕ → Scheduler → Option DebugBreakPoint
unfolding find_id
get_breakpoint id s = find_id id s.breakpoints >>= get_elem? s.breakpoints

abbrev pub is_spent : Option DebugBreakPoint → Bool
is_spent none = false
is_spent (some b) = has_type_flag assert_ b.type && b.evaluated

-- The loop of remove_assert_breakpoints over a copy of the ids.
unfoldable pub remove_asserts : List ℕ → Scheduler → Scheduler
unfolding get_breakpoint remove_by_id
remove_asserts [] s = s
remove_asserts (id ∷ ids) s =
    remove_asserts ids (if is_spent (get_breakpoint id s) then (remove_by_id id assert_ s).1 else s)

unfoldable pub remove_assert_breakpoints : Scheduler → Scheduler
unfolding remove_asserts
remove_assert_breakpoints s = remove_asserts s.inserted_breakpoints s

unfoldable pub clear_breakpoints : List DebugBreakPoint → List DebugBreakPoint
clear_breakpoints [] = []
clear_breakpoints (b ∷ bs) = record b { evaluated = false } ∷ clear_breakpoints bs

unfoldable pub start_breakpoint_evaluation : Scheduler → Scheduler
unfolding remove_assert_breakpoints clear_breakpoints
start_breakpoint_evaluation s =
    let s' = remove_assert_breakpoints s in
    record s' { breakpoints = clear_breakpoints s'.breakpoints; current_breakpoint_id = none }

abbrev same_mode : EvaluationMode → EvaluationMode → Bool
same_mode breakpoint_only breakpoint_only = true
same_mode step_over step_over = true
same_mode step_back step_back = true
same_mode reverse_breakpoint_only reverse_breakpoint_only = true
same_mode none_ none_ = true
same_mode _ _ = false

unfoldable pub set_evaluation_mode : EvaluationMode → Scheduler → Scheduler
unfolding clear_breakpoints
set_evaluation_mode mode s =
    if same_mode s.evaluation_mode mode
    then s
    else record s { breakpoints = clear_breakpoints s.breakpoints; evaluation_mode = mode }

unfoldable pub clear : Scheduler → Scheduler
clear s = record s { inserted_breakpoints = []; breakpoints = [] }

unfoldable pub is_breakpoint_only : Scheduler → Bool
is_breakpoint_only s =
    same_mode s.evaluation_mode breakpoint_only
    || same_mode s.evaluation_mode reverse_breakpoint_only

unfoldable pub get_current_breakpoints : Scheduler → List DebugBreakPoint
get_current_breakpoints s = s.breakpoints

-- The first loop of clear_data_breakpoints: a breakpoint with both flags becomes a normal one.
unfoldable pub drop_data_flags : List DebugBreakPoint → List DebugBreakPoint
drop_data_flags [] = []
drop_data_flags (b ∷ bs) =
    (if has_type_flag data_ b.type && has_type_flag normal b.type
      then record b { type = flag normal }
      else b)
    ∷ drop_data_flags bs

-- The ids that it collects, and the second loop, which erases the first breakpoint with each id.
unfoldable pub data_ids : List DebugBreakPoint → List ℕ
unfolding insert
data_ids [] = []
data_ids (b ∷ bs) =
    let rest = data_ids bs in
    if has_type_flag data_ b.type && not (has_type_flag normal b.type)
    then insert b.id rest
    else rest

unfoldable pub erase_first : ℕ → List DebugBreakPoint → List DebugBreakPoint
erase_first id [] = []
erase_first id (b ∷ bs) = if b.id == id then bs else b ∷ erase_first id bs

unfoldable pub erase_ids : List ℕ → Scheduler → Scheduler
unfolding erase_first erase
erase_ids [] s = s
erase_ids (id ∷ ids) s = erase_ids ids (record s {
  breakpoints = erase_first id s.breakpoints;
  inserted_breakpoints = erase id s.inserted_breakpoints;
})

unfoldable pub clear_data_breakpoints : Scheduler → Scheduler
unfolding drop_data_flags data_ids erase_ids
clear_data_breakpoints s =
    erase_ids (data_ids s.breakpoints) (record s { breakpoints = drop_data_flags s.breakpoints })

-- reorder_breakpoints. std::sort is insertion sort here; it leaves the order of equal keys open. An
-- id that is not in the table throws as soon as it is compared.
unfoldable pub insert_sorted :
    List (ℕ × ℕ) → DebugBreakPoint → List DebugBreakPoint → Option (List DebugBreakPoint)
unfolding lookup
insert_sorted table b [] = some (b ∷ [])
insert_sorted table b (c ∷ bs) =
    let later = insert_sorted table b bs >>= λ bs'. some (c ∷ bs') in
    lookup b.id table >>= λ i.
    lookup c.id table >>= λ j. if leb i j then some (b ∷ c ∷ bs) else later

unfoldable pub sort_breakpoints :
    List (ℕ × ℕ) → List DebugBreakPoint → Option (List DebugBreakPoint)
unfolding insert_sorted
sort_breakpoints table [] = some []
sort_breakpoints table (b ∷ bs) = sort_breakpoints table bs >>= insert_sorted table b

unfoldable pub reorder_breakpoints : Scheduler → Option Scheduler
unfolding sort_breakpoints
reorder_breakpoints s = sort_breakpoints s.bp_ordering_table s.breakpoints >>= λ bps.
    some (record s { breakpoints = bps })

-- The loops of the constructor: the position of each id in the order, where the first one counts,
-- and the handles of the clocks.
unfoldable pub ordering_table : ℕ → List ℕ → List (ℕ × ℕ) → List (ℕ × ℕ)
unfolding emplace
ordering_table i [] table = table
ordering_table i (id ∷ ids) table = ordering_table (suc i) ids (emplace id i table)

unfoldable pub handles_of : Rtl → List Text → List Handle
handles_of rtl [] = []
handles_of rtl (name ∷ names) = elim (rtl.get_handle name) [
  | none ↦ handles_of rtl names
  | some h ↦ h ∷ handles_of rtl names
]

abbrev clocks : Option Rtl → SymbolTable → List Handle
clocks none db = []
clocks (some rtl) db = handles_of rtl (get_clock_signals (some rtl) (some db))

unfoldable pub new_scheduler : Manager → SymbolTable → Scheduler
unfolding ordering_table handles_of get_clock_signals default_rtl
new_scheduler m db = record {
  current_breakpoint_id = none;
  evaluation_mode = breakpoint_only;
  breakpoints = [];
  inserted_breakpoints = [];
  bp_ordering_table = ordering_table 0 db.execution_bp_orders [];
  bp_ordering = db.execution_bp_orders;
  next_temp_breakpoints = [];
  clock_handles = clocks (default_rtl m) db;
}
