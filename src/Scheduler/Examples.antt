-- ===== src/Scheduler/Examples.antt =====
-- The theorems of the scheduler at concrete inputs: three breakpoints, at two places.
use mathlib.Core.List.{Perm}
use hgdb.Prelude.{
  ℕ, ◌≡◌, ◌↔◌, ◌⊎◌, refl, codes, true, false, Option, none, some, List, [], ◌∷◌, All, get_elem?,
  arith, ltb, if◌then◌else◌, text_eq,
}
use hgdb.Prelude.Maps.{lookup, nat_key, contains}
use hgdb.Eval.Debug.{
  empty_expression, correct, required_from, get_required_symbols, set_static_values,
  set_resolved_symbol_handle,
}
use hgdb.Util.{get_tokens, scan_tokens, remove_empty}
use hgdb.Eval.Grammar.{debug_expression}
use hgdb.Interfaces.{BreakPoint, SymbolTable, Rtl}
use hgdb.Namespaces.{Manager, get_namespaces, select}
use hgdb.Scheduler.Validate.{validate_expr, compute_trigger_symbol, validate_symbols}
use hgdb.Scheduler.{
  DebugBreakPoint, Scheduler, default_breakpoint, breakpoint_only, normal, data_, flag,
  has_type_flag,
}
use hgdb.Scheduler.Next.{
  index_of, scan_breakpoints, scan_forward, next_normal_breakpoints, next_reverse_breakpoints,
  step_back_target, step_over_target,
}
use hgdb.Scheduler.Next.Reverse.{IsLost, next_reverse_breakpoints-eq-none}
use hgdb.Scheduler.Next.Steps.{
  steps_over, steps_over-bp_ordering, step_back_target-step_over_target,
}
use hgdb.Scheduler.Next.Scan.{TwinAt, Passes, IsRun, scan_breakpoints-TwinAt}
use hgdb.Scheduler.Edit.Drop.{
  remove_first, reorder_breakpoints, ordering_table, clear_data_breakpoints,
  start_breakpoint_evaluation,
}
use hgdb.Scheduler.Edit.Add.{
  Added, nowhere, add_data_breakpoint, add_breakpoint, add_in_kind, add_data, find_data,
  insert_data, insert_bp, join_conditions, continue_data, single_handle, place_bp, set_target,
}
use hgdb.Scheduler.Edit.Order.{IsOrdered, reorder_breakpoints-total, lookup-ordering_table}
use hgdb.Scheduler.Edit.Remove.{
  Removal, remove_first-Removal, clear_data_breakpoints_first, next_normal_breakpoints-start,
}
use hgdb.Scheduler.Edit.Insert.{add_data_breakpoint_dry}

abbrev at : ℕ → ℕ → ℕ → DebugBreakPoint
at id instance line = record (default_breakpoint (empty_expression (codes "1"))) {
  id = id;
  instance_id = instance;
  line_num = line;
}

abbrev left : DebugBreakPoint
left = at 4 0 10

abbrev right : DebugBreakPoint
right = at 5 1 10

abbrev below : DebugBreakPoint
below = at 7 0 12

abbrev watching : DebugBreakPoint
watching = record left { type = flag data_ }

abbrev holding : List DebugBreakPoint → Scheduler
holding bs = record {
  current_breakpoint_id = none;
  evaluation_mode = breakpoint_only;
  breakpoints = bs;
  inserted_breakpoints = 4 ∷ [];
  bp_ordering_table = (4, 0) ∷ (5, 1) ∷ (7, 2) ∷ [];
  bp_ordering = 4 ∷ 5 ∷ 7 ∷ [];
  next_temp_breakpoints = [];
  clock_handles = [];
}

abbrev three : Scheduler
three = holding (left ∷ right ∷ below ∷ [])

abbrev at_left : Scheduler
at_left = record three { current_breakpoint_id = some 4 }

next_reverse_breakpoints-eq-none_example :
    (next_reverse_breakpoints false true at_left ≡ none) ↔ IsLost at_left
next_reverse_breakpoints-eq-none_example = next_reverse_breakpoints-eq-none false true at_left

steps_over-bp_ordering_example : steps_over 3 three ≡ 4 ∷ 5 ∷ 7 ∷ []
steps_over-bp_ordering_example =
    steps_over-bp_ordering 3 three ((refl, (refl, tt)), ((refl, tt), (tt, tt))) refl (omega arith)

step_to_right : step_over_target at_left ≡ some 5
unfolding step_over_target index_of
step_to_right = refl

step_back_target-step_over_target_example :
    step_back_target true (record three { current_breakpoint_id = some 5 }) ≡ some (some 4)
step_back_target-step_over_target_example =
    step_back_target-step_over_target true at_left 4 5 ((refl, (refl, tt)), ((refl, tt), (tt, tt)))
      refl step_to_right

abbrev index_one : List ℕ
index_one = 1 ∷ []

right_joins_left : scan_breakpoints 0 true three.breakpoints ≡ some index_one
unfolding scan_breakpoints scan_forward text_eq empty_expression
right_joins_left = refl

scan_breakpoints-TwinAt_example :
    (ref : DebugBreakPoint) × (get_elem? three.breakpoints 0 ≡ some ref)
    × All (TwinAt ref three.breakpoints) index_one
    × ((has_type_flag data_ ref.type ≡ true) × (index_one ≡ [])
        ⊎ (has_type_flag data_ ref.type ≡ false)
          × ((j : ℕ)
              → Passes true 0 j j
              → IsRun ref three.breakpoints true 0 j
              → TwinAt ref three.breakpoints j
              → contains j index_one ≡ true))
scan_breakpoints-TwinAt_example =
    scan_breakpoints-TwinAt 0 true three.breakpoints index_one right_joins_left

reorder_breakpoints-total_example :
    (r : List DebugBreakPoint) × (reorder_breakpoints (holding (below ∷ left ∷ []))
      ≡ some (holding r))
    × Perm (below ∷ left ∷ []) r
    × IsOrdered three.bp_ordering_table r
unfolding lookup
reorder_breakpoints-total_example =
    reorder_breakpoints-total (holding (below ∷ left ∷ [])) ((2, refl), ((0, refl), tt))

lookup-ordering_table_example :
    lookup 5 (ordering_table 0 (4 ∷ 5 ∷ 4 ∷ []) [])
    ≡ (if ltb (index_of 5 (4 ∷ 5 ∷ 4 ∷ [])) 3 then some (index_of 5 (4 ∷ 5 ∷ 4 ∷ [])) else none)
lookup-ordering_table_example = lookup-ordering_table 5 (4 ∷ 5 ∷ 4 ∷ [])

remove_first-Removal_example :
    Removal 5 normal three.breakpoints (remove_first 5 normal three.breakpoints)
remove_first-Removal_example = remove_first-Removal 5 normal three.breakpoints

clear_data_breakpoints_first_example :
    (clear_data_breakpoints (holding (left ∷ watching ∷ []))).breakpoints ≡ watching ∷ []
clear_data_breakpoints_first_example =
    clear_data_breakpoints_first (holding (left ∷ watching ∷ [])) left watching refl refl refl refl

next_normal_breakpoints-start_example :
    ((start_breakpoint_evaluation three).current_breakpoint_id ≡ none)
    × ((is : List ℕ) × (s' : Scheduler) × (next_normal_breakpoints true
            (start_breakpoint_evaluation three)
          ≡ some (is, s'))
        × ((is ≡ []) × ((start_breakpoint_evaluation three).breakpoints ≡ [])
            ⊎ ((others : List ℕ) × (is ≡ 0 ∷ others))))
next_normal_breakpoints-start_example = next_normal_breakpoints-start true three

-- A symbol table of one instance, which has no symbols.
abbrev table : SymbolTable
table = record {
  get_breakpoint = λ id. none;
  get_instance_name = λ id. some (codes "top");
  get_instance_name_from_bp = λ id. some (codes "top");
  get_instance_id = λ id. some 0;
  get_context_static_values = λ id. [];
  resolve_scoped_name_breakpoint = λ name id. none;
  resolve_scoped_name_instance = λ name id. none;
  get_annotation_values = λ name. [];
  execution_bp_orders = 4 ∷ 5 ∷ 7 ∷ [];
}

abbrev row : BreakPoint
row = record {
  id = 4;
  instance_id = some 0;
  filename = [];
  line_num = 10;
  column_num = 0;
  condition = [];
  trigger = [];
}

abbrev client : Rtl
client = record {
  get_full_name = λ name. name;
  is_valid_signal = λ name. true;
  get_handle = λ name. some 1;
  name_of_handle = λ h. codes "top.a";
  get_clocks_from_design = [];
}

abbrev manager : Manager
manager = record {
  namespaces =
      record { id = 0; def_name = codes "top"; mapping = (codes "top", codes "top."); rtl = client }
      ∷ [];
  mapped_namespaces = (codes "top", 0 ∷ []) ∷ [];
}

abbrev added_of : Option (Added × Scheduler) → Added
added_of none = nowhere
added_of (some (added, s)) = added

abbrev dry_data : Option (Added × Scheduler)
dry_data = add_data_breakpoint table manager (codes "top.a") (codes "1 == 2") row true three

dry_run : dry_data ≡ some (added_of dry_data, three)
unfolding add_data_breakpoint add_breakpoint get_namespaces get_tokens add_in_kind add_data
    find_data insert_data lookup insert_bp debug_expression join_conditions compute_trigger_symbol
    continue_data single_handle validate_expr required_from get_required_symbols set_static_values
    validate_symbols correct place_bp set_target text_eq select remove_empty scan_tokens
    set_resolved_symbol_handle
dry_run = refl

add_data_breakpoint_dry_example : three ≡ three
add_data_breakpoint_dry_example =
    add_data_breakpoint_dry table manager (codes "top.a") (codes "1 == 2") row three
      (added_of dry_data) three dry_run
