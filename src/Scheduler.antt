-- ===== src/Scheduler.antt =====
-- src/scheduler.hh: the state of the scheduler. The operations of src/scheduler.cc are in the modules
-- below. `none` as the result of an operation is undefined behaviour or an exception.
pub mod Validate
pub mod Next
pub mod Edit
mod Examples
use hgdb.Prelude.{Text, ℕ, Bool, true, false, ◌&&◌, not, Option, none, some, List, [], ◌∷◌}
use hgdb.Prelude.Int.{ℤ}
use hgdb.Eval.Debug.{DebugExpression, Handle}
use hgdb.Interfaces.{SymbolTable}
use hgdb.Namespaces.{Manager}

-- DebugBreakPoint::Type, a set of the bits 1 (normal), 2 (data) and 4 (assert).
pub record Flags : Type 0 where
  pub is_normal : Bool
  pub is_data : Bool
  pub is_assert : Bool

pub data Kind : Type 0 where
  normal data_ assert_ : Kind

abbrev pub flag : Kind → Flags
flag normal = record { is_normal = true; is_data = false; is_assert = false }
flag data_ = record { is_normal = false; is_data = true; is_assert = false }
flag assert_ = record { is_normal = false; is_data = false; is_assert = true }

abbrev pub has_type_flag : Kind → Flags → Bool
has_type_flag normal t = t.is_normal
has_type_flag data_ t = t.is_data
has_type_flag assert_ t = t.is_assert

-- t | kind, t & ~kind, t == 0 and t == kind.
abbrev pub with_flag : Kind → Flags → Flags
with_flag normal t = record t { is_normal = true }
with_flag data_ t = record t { is_data = true }
with_flag assert_ t = record t { is_assert = true }

abbrev pub without_flag : Kind → Flags → Flags
without_flag normal t = record t { is_normal = false }
without_flag data_ t = record t { is_data = false }
without_flag assert_ t = record t { is_assert = false }

abbrev pub no_flags : Flags → Bool
no_flags t = not t.is_normal && (not t.is_data && not t.is_assert)

abbrev pub is_kind : Kind → Flags → Bool
is_kind normal t = t.is_normal && (not t.is_data && not t.is_assert)
is_kind data_ t = not t.is_normal && (t.is_data && not t.is_assert)
is_kind assert_ t = not t.is_normal && (not t.is_data && t.is_assert)

-- The code sets enable_expr wherever it puts a breakpoint into a list, before anything reads it, and
-- never resets it: it is no null pointer. `expr` is one for a breakpoint of a step.
pub record DebugBreakPoint : Type 0 where
  pub id : ℕ
  pub instance_id : ℕ
  pub expr : Option DebugExpression
  pub enable_expr : DebugExpression
  pub filename : Text
  pub line_num : ℕ
  pub column_num : ℕ
  pub trigger_symbols : List (Text × Handle)
  pub trigger_values : List (Text × ℤ)
  pub evaluated : Bool
  pub type : Flags
  pub full_rtl_handle : Option Handle
  pub full_rtl_name : Text
  pub target_rtl_var_name : Text
  pub watch_id : ℕ
  pub ns_id : ℕ

pub data EvaluationMode : Type 0 where
  breakpoint_only step_over step_back reverse_breakpoint_only none_ : EvaluationMode

pub record Scheduler : Type 0 where
  pub current_breakpoint_id : Option ℕ
  pub evaluation_mode : EvaluationMode
  pub breakpoints : List DebugBreakPoint
  pub inserted_breakpoints : List ℕ
  pub bp_ordering_table : List (ℕ × ℕ)
  pub bp_ordering : List ℕ
  pub next_temp_breakpoints : List DebugBreakPoint
  pub clock_handles : List Handle

-- A default-constructed DebugBreakPoint, whose enable_expr is set at once.
abbrev pub default_breakpoint : DebugExpression → DebugBreakPoint
default_breakpoint enable = record {
  id = 0;
  instance_id = 0;
  expr = none;
  enable_expr = enable;
  filename = [];
  line_num = 0;
  column_num = 0;
  trigger_symbols = [];
  trigger_values = [];
  evaluated = false;
  type = flag normal;
  full_rtl_handle = none;
  full_rtl_name = [];
  target_rtl_var_name = [];
  watch_id = 0;
  ns_id = 0;
}
