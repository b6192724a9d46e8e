-- ===== src/Runtime/Examples.antt =====
-- The theorems of the debugger at small inputs: two breakpoints, of which one has a trigger.
use hgdb.Prelude.{
  Option, List, codes, ℕ, ◌≡◌, ◌≢◌, ◌↔◌, refl, Bool, true, false, none, some, [], ◌∷◌, arith, ◌==◌,
  if◌then◌else◌, text_eq,
}
use hgdb.Prelude.Int.{ℤ, pos}
use hgdb.Prelude.Maps.{lookup, contains_key, text_key, nat_key}
use hgdb.Eval.Debug.{Handle, DebugExpression, empty_expression}
use hgdb.Interfaces.{SymbolTable, Rtl}
use hgdb.Namespaces.{Namespace}
use hgdb.Scheduler.{DebugBreakPoint, Scheduler, default_breakpoint, breakpoint_only}
use hgdb.Runtime.{Reads, Debugger}
use hgdb.Eval.{constant, eval as eval_expr}
use hgdb.Runtime.Signals.{get_full_name, get_signal_value}
use hgdb.Runtime.Signals.Cache.{IsCurrent, IsShared, get_signal_value-IsCurrent}
use hgdb.Runtime.Evaluate.{should_trigger}
use hgdb.Runtime.Evaluate.Triggers.{UpToDate, IsMap, should_trigger_again}
use hgdb.Runtime.Loop.{eval}
use hgdb.Runtime.Loop.Ends.{eval-ne-none}
use hgdb.Runtime.Requests.{continue_, success, written}
use hgdb.Runtime.Requests.Resumed.{resume_with, continue-Keeps}
use hgdb.Runtime.Requests.Written.{written-IsCurrent}

abbrev table : SymbolTable
table = record {
  get_breakpoint = λ id. none;
  get_instance_name = λ id. some (codes "top");
  get_instance_name_from_bp = λ id. some (codes "top");
  get_instance_id = λ id. some 0;
  get_context_static_values = λ id. [];
  resolve_scoped_name_breakpoint = λ name id. none;
  resolve_scoped_name_instance = λ name id. none;
  get_annotation_values = λ name. [];
  execution_bp_orders = 4 ∷ 5 ∷ [];
}

abbrev rtl : Rtl
rtl = record {
  get_full_name = λ name. name;
  is_valid_signal = λ name. true;
  get_handle = λ name. some 7;
  name_of_handle = λ h. codes "top.a";
  get_clocks_from_design = [];
}

abbrev top : Namespace
top = record { id = 0; def_name = codes "top"; mapping = (codes "top", codes "top."); rtl = rtl }

abbrev always : DebugExpression
always = record (empty_expression (codes "1")) { root = constant (pos 1) }

abbrev triggered : DebugBreakPoint
triggered = record (default_breakpoint (empty_expression (codes "1"))) {
  id = 4;
  expr = some always;
  trigger_symbols = (codes "a", 7) ∷ (codes "b", 8) ∷ [];
  trigger_values = (codes "a", pos 1) ∷ [];
}

abbrev plain : DebugBreakPoint
plain = record (default_breakpoint (empty_expression (codes "1"))) { id = 5; expr = some always }

abbrev scheduler : Scheduler
scheduler = record {
  current_breakpoint_id = none;
  evaluation_mode = breakpoint_only;
  breakpoints = triggered ∷ plain ∷ [];
  inserted_breakpoints = 4 ∷ 5 ∷ [];
  bp_ordering_table = (4, 0) ∷ (5, 1) ∷ [];
  bp_ordering = 4 ∷ 5 ∷ [];
  next_temp_breakpoints = [];
  clock_handles = [];
}

abbrev debugger : Debugger
debugger = record {
  namespaces = record { namespaces = top ∷ []; mapped_namespaces = [] };
  monitors = [];
  db = some table;
  scheduler = some scheduler;
  cached_signal_values = (7, pos 1) ∷ [];
  cached_instance_name = [];
  delayed_variables = [];
  single_thread_mode = false;
  log_enabled = false;
  detach_after_disconnect = false;
  use_hex_str = false;
  pause_at_posedge = true;
  perf_count = false;
  use_signal_cache = true;
}

-- Handle 7 has the value `v`, and all others 2.
abbrev values_with : ℤ → Handle → ℤ
values_with v h = if h == 7 then v else pos 2

abbrev reads_with : ℤ → Reads
reads_with v = record {
  get_value = λ ns_id h. some (values_with v h);
  get_simulation_time = λ ns_id. pos 10;
  enabled = λ ns_id cond. true;
  turns = λ bps. [];
}

abbrev reads : Reads
reads = reads_with (pos 1)

reads-IsShared : IsShared reads 8
reads-IsShared n m = refl

debugger-IsCurrent : IsCurrent reads debugger
unfolding lookup
debugger-IsCurrent ns_id h v kept = ground arith

eval-ne-none_example :
    eval reads table false false (resume_with continue_) (resume_with continue_) 2 debugger ≢ none
eval-ne-none_example =
    eval-ne-none reads table false false (resume_with continue_) (resume_with continue_) 2 scheduler
      debugger continue-Keeps continue-Keeps refl refl (omega arith)

get_signal_value-IsCurrent_example :
    ((get_signal_value reads 0 (some 8) false debugger).0 ≡ some (pos 2))
    × IsCurrent reads (get_signal_value reads 0 (some 8) false debugger).1
get_signal_value-IsCurrent_example =
    get_signal_value-IsCurrent reads 0 8 debugger reads-IsShared debugger-IsCurrent

symbols-IsMap : IsMap triggered.trigger_symbols
unfolding contains_key text_eq
symbols-IsMap = (refl, (refl, tt))

should_trigger_again_example :
    (fired : Bool) × (bp' : DebugBreakPoint) × (d' : Debugger) × (should_trigger reads table
        triggered debugger
      ≡ (fired, (bp', d')))
    × ((fired ≡ false)
        ↔ UpToDate (values_with (pos 1)) triggered.trigger_symbols triggered.trigger_values)
    × ((should_trigger reads table bp' d').0 ≡ false)
should_trigger_again_example =
    should_trigger_again reads table triggered (values_with (pos 1)) debugger debugger-IsCurrent
      refl symbols-IsMap ((λ n. refl), ((λ n. refl), tt))

others_stay :
    (ns_id : ℕ) (g : Handle)
    → 7 ≢ g
    → (reads_with (pos 9)).get_value ns_id g ≡ reads.get_value ns_id g
others_stay ns_id g apart = ground arith

written-IsCurrent_example :
    ((written top (codes "a") true debugger).0 ≡ success)
    × IsCurrent (reads_with (pos 9)) (written top (codes "a") true debugger).1
written-IsCurrent_example =
    written-IsCurrent reads (reads_with (pos 9)) top (codes "a") 7 debugger refl refl others_stay
      debugger-IsCurrent

abbrev after : Option (List Bool × Debugger) → Debugger
after none = debugger
after (some (hits, d)) = d
