-- ===== src/Runtime.antt =====
-- Debugger of src/debug.hh and src/debug.cc: its state. The operations are in the modules below.
-- `none` as the result of an operation is undefined behaviour or an exception.
pub mod Signals
pub mod Evaluate
pub mod Loop
pub mod Requests
pub mod Breakpoints
pub mod DataBreakpoints
pub mod Hits
pub mod Names
pub mod Arguments
mod Examples
use hgdb.Prelude.{Text, ℕ, Bool, true, false, Option, none, some, ◌>>=◌, List}
use hgdb.Prelude.Int.{ℤ}
use hgdb.Eval.Debug.{Handle}
use hgdb.Interfaces.{SymbolTable}
use hgdb.Namespaces.{Manager}
use hgdb.Scheduler.{Scheduler}
use hgdb.Monitor.{Monitor, Cycle}

-- What the simulator clients answer in a cycle, by the id of the namespace: get_value,
-- get_simulation_time as an int64_t, and the conditions of the monitor. `turns` is how the threads that
-- evaluate a list of breakpoints take turns.
pub record Reads : Type 0 where
  pub get_value : ℕ → Handle → Option ℤ
  pub get_simulation_time : ℕ → ℤ
  pub enabled : ℕ → ℕ → Bool
  pub turns : List ℕ → List Bool

-- A null handle has no value.
abbrev pub value_at : Reads → ℕ → Option Handle → Option ℤ
value_at r ns_id none = none
value_at r ns_id (some h) = r.get_value ns_id h

-- What the monitor of a namespace reads.
abbrev pub cycle_of : Reads → ℕ → Cycle
cycle_of r ns_id = record { get_value = value_at r ns_id; enabled = r.enabled ns_id }

pub record DelayedVariable : Type 0 where
  pub rtl_name : Text
  pub value : Option ℤ
  pub watch_id : ℕ

-- `monitors` holds the monitor of each namespace; `db` and `scheduler` may be null pointers.
pub record Debugger : Type 0 where
  pub namespaces : Manager
  pub monitors : List Monitor
  pub db : Option SymbolTable
  pub scheduler : Option Scheduler
  pub cached_signal_values : List (Handle × ℤ)
  pub cached_instance_name : List (ℕ × Text)
  pub delayed_variables : List (Handle × DelayedVariable)
  pub single_thread_mode : Bool
  pub log_enabled : Bool
  pub detach_after_disconnect : Bool
  pub use_hex_str : Bool
  pub pause_at_posedge : Bool
  pub perf_count : Bool
  pub use_signal_cache : Bool
