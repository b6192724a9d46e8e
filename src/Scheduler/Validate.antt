-- ===== src/Scheduler/Validate.antt =====
-- util::validate_expr and compute_trigger_symbol of src/scheduler.cc: the names of an expression
-- are resolved to handles of the simulator.
use hgdb.Prelude.{
  Text, codes, ℕ, Bool, if◌then◌else◌, Option, none, some, or_else, ◌>>=◌, List, [], ◌∷◌, ◌++◌,
  ◌||◌, text_eq, is_empty,
}
use hgdb.Prelude.Int.{ℤ}
use hgdb.Prelude.Maps.{emplace, text_key}
use hgdb.Eval.Debug.{
  DebugExpression, Handle, set_error, set_static_values, get_required_symbols,
  set_resolved_symbol_handle,
}
use hgdb.Interfaces.{BreakPoint, SymbolTable, Rtl}
use hgdb.Util.{get_tokens}

abbrev pub time_var_name : Text
time_var_name = codes "$time"

abbrev pub instance_var_name : Text
instance_var_name = codes "$instance"

unfoldable pub is_predefined : Text → Bool
unfolding text_eq
is_predefined symbol = text_eq symbol time_var_name || text_eq symbol instance_var_name

abbrev pub static_values_at : SymbolTable → Option ℕ → List (Text × ℤ)
static_values_at db none = []
static_values_at db (some id) = db.get_context_static_values id

-- The query by the breakpoint.
unfoldable pub resolve_in_breakpoint : SymbolTable → Text → Option ℕ → Option Text
resolve_in_breakpoint db symbol none = none
resolve_in_breakpoint db symbol (some id) = db.resolve_scoped_name_breakpoint symbol id

-- Where it fails, the instance is that of the breakpoint from here on.
abbrev elevate : SymbolTable → Option ℕ → Option ℕ → Option ℕ
elevate db none instance_id = instance_id
elevate db (some id) instance_id = db.get_instance_id id

-- The query by the instance; else the name is taken under the instance's own.
unfoldable pub resolve_in_instance : SymbolTable → Text → Option ℕ → Option Text
resolve_in_instance db symbol none = none
resolve_in_instance db symbol (some id) =
    or_else (db.resolve_scoped_name_instance symbol id)
      (db.get_instance_name id >>= λ instance_name. some (instance_name ++ codes "." ++ symbol))

-- The name and the instance that the next symbol is resolved in.
unfoldable pub resolve_name : SymbolTable → Text → Option ℕ → Option ℕ → Option Text × Option ℕ
unfolding resolve_in_breakpoint resolve_in_instance
resolve_name db symbol breakpoint_id instance_id =
    elim (resolve_in_breakpoint db symbol breakpoint_id) [
      | some name ↦ (some name, instance_id)
      | none ↦
          let instance_id' = elevate db breakpoint_id instance_id in
          (resolve_in_instance db symbol instance_id', instance_id')
    ]

abbrev name_or : Text → Option Text → Text
name_or symbol none = symbol
name_or symbol (some name) = name

-- The full name if it is a signal, else the symbol itself if that is one.
unfoldable pub resolve_signal : Rtl → Text → Option Text → Option Text
resolve_signal rtl symbol name =
    let full_name = rtl.get_full_name (name_or symbol name) in
    if rtl.is_valid_signal full_name
    then some full_name
    else if rtl.is_valid_signal symbol
    then some symbol
    else none

-- The loop over the required symbols: the first that is no signal ends it with an error.
unfoldable pub validate_symbols :
    Rtl → SymbolTable → Option ℕ → Option ℕ → List Text → DebugExpression → DebugExpression
unfolding is_predefined resolve_name resolve_signal set_error set_resolved_symbol_handle
validate_symbols rtl db breakpoint_id instance_id [] d = d
validate_symbols rtl db breakpoint_id instance_id (symbol ∷ rest) d =
    let predefined =
      validate_symbols rtl db breakpoint_id instance_id rest
        (set_resolved_symbol_handle symbol none d) in
    let (name, instance_id') = resolve_name db symbol breakpoint_id instance_id in
    let resolved : DebugExpression = elim (resolve_signal rtl symbol name) [
      | none ↦ set_error d
      | some full_name ↦
          validate_symbols rtl db breakpoint_id instance_id' rest
            (set_resolved_symbol_handle symbol (rtl.get_handle full_name) d)
    ] in
    if is_predefined symbol then predefined else resolved

unfoldable pub validate_expr :
    Rtl → SymbolTable → DebugExpression → Option ℕ → Option ℕ → DebugExpression
unfolding set_static_values get_required_symbols validate_symbols
validate_expr rtl db d breakpoint_id instance_id =
    let d' =
      if is_empty d.symbols_str
      then d
      else set_static_values (static_values_at db breakpoint_id) d in
    validate_symbols rtl db breakpoint_id instance_id (get_required_symbols d') d'

-- The loop of compute_trigger_symbol: one name without a handle leaves no trigger at all.
unfoldable pub trigger_handles :
    Rtl → Text → List Text → List (Text × Handle) → List (Text × Handle)
trigger_handles rtl instance_name [] result = result
trigger_handles rtl instance_name (symbol ∷ rest) result =
    elim (rtl.get_handle (instance_name ++ codes "." ++ symbol)) [
      | none ↦ []
      | some handle ↦ trigger_handles rtl instance_name rest (emplace symbol handle result)
    ]

-- A breakpoint with a trigger has an instance, else the behaviour is undefined.
unfoldable pub compute_trigger_symbol :
    BreakPoint → Rtl → SymbolTable → Option (List (Text × Handle))
unfolding trigger_handles
compute_trigger_symbol bp rtl db =
    let tokens = get_tokens bp.trigger (codes " ") in
    let found = bp.instance_id >>= λ id. some (in_instance tokens (db.get_instance_name id)) in
    if is_empty tokens then some [] else found
  where
    in_instance : List Text → Option Text → List (Text × Handle)
    in_instance tokens none = []
    in_instance tokens (some instance_name) = trigger_handles rtl instance_name tokens []

-- get_clock_signals: the annotations of the symbol table come before the client's heuristics.
abbrev full_names : Rtl → List Text → List Text
full_names rtl [] = []
full_names rtl (name ∷ names) = rtl.get_full_name name ∷ full_names rtl names

unfoldable pub get_clock_signals : Option Rtl → Option SymbolTable → List Text
get_clock_signals none db = []
get_clock_signals (some rtl) none = rtl.get_clocks_from_design
get_clock_signals (some rtl) (some db) =
    let annotated = full_names rtl (db.get_annotation_values (codes "clock")) in
    if is_empty annotated then rtl.get_clocks_from_design else annotated
