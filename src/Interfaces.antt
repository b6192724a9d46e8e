-- ===== src/Interfaces.antt =====
-- What the scheduler calls in its neighbours: the symbol table (SymbolTableProvider of
-- src/symbol.hh) and the simulator client (RTLSimulatorClient of src/rtl.hh).
use hgdb.Prelude.{Text, ℕ, Bool, Option, List}
use hgdb.Prelude.Int.{ℤ}
use hgdb.Eval.Debug.{Handle}

-- BreakPoint of include/schema.hh: a row of the symbol table.
pub record BreakPoint : Type 0 where
  pub id : ℕ
  pub instance_id : Option ℕ
  pub filename : Text
  pub line_num : ℕ
  pub column_num : ℕ
  pub condition : Text
  pub trigger : Text

pub record SymbolTable : Type 0 where
  pub get_breakpoint : ℕ → Option BreakPoint
  pub get_instance_name : ℕ → Option Text
  pub get_instance_name_from_bp : ℕ → Option Text
  pub get_instance_id : ℕ → Option ℕ
  pub get_context_static_values : ℕ → List (Text × ℤ)
  pub resolve_scoped_name_breakpoint : Text → ℕ → Option Text
  pub resolve_scoped_name_instance : Text → ℕ → Option Text
  pub get_annotation_values : Text → List Text
  pub execution_bp_orders : List ℕ

-- `name_of_handle` is get_full_name on a handle.
pub record Rtl : Type 0 where
  pub get_full_name : Text → Text
  pub is_valid_signal : Text → Bool
  pub get_handle : Text → Option Handle
  pub name_of_handle : Handle → Text
  pub get_clocks_from_design : List Text
