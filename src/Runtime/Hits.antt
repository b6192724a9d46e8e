-- ===== src/Runtime/Hits.antt =====
-- send_breakpoint_hit of src/debug.cc: the values that are sent with the breakpoints that were hit.
use hgdb.Prelude.{
  Text, codes, ℕ, ◌+◌, ◌/◌, ◌%◌, ◌==◌, Bool, true, false, if◌then◌else◌, Option, none, some, ◌>>=◌,
  List, [], ◌∷◌, ◌++◌, get_elem?,
}
use hgdb.Prelude.Int.{ℤ}
use hgdb.Prelude.Maps.{lookup, nat_key}
use hgdb.Runtime.Names.{add_generator_values, add_local_values}
use hgdb.Eval.Debug.{Handle}
use hgdb.Interfaces.{SymbolTable, Rtl}
use hgdb.Scheduler.{DebugBreakPoint, data_, is_kind}
use hgdb.Runtime.{Reads, Debugger, DelayedVariable, value_at}

-- The library fmt: a number in decimal, and in capital hexadecimal digits with 0s up to a width.
pub record Format : Type 0 where
  pub decimal : ℤ → Text
  pub hex : ℕ → ℤ → Text

-- A variable of a scope: its name there, the value of its row, and whether that is a signal.
pub record ScopeVariable : Type 0 where
  pub name : Text
  pub value : Text
  pub is_rtl : Bool
  pub is_delayed : Bool

-- What the clients and the symbol table answer beside Rtl and SymbolTable, by the namespace or the
-- breakpoint: the variables, is_absolute_path, resolve_rtl_variable and get_signal_width.
pub record ScopeQueries : Type 0 where
  pub get_generator_variable : ℕ → List ScopeVariable
  pub get_context_variables : ℕ → List ScopeVariable
  pub is_absolute_path : ℕ → Text → Bool
  pub resolve_rtl_variable : ℕ → Text → Text → List (Text × Text)
  pub get_signal_width : ℕ → Handle → Option ℕ

abbrev error_value_str : Text
error_value_str = codes "ERROR"

-- Hexadecimal digits for a width in bits, where 0 is not known and 1 is a bit.
abbrev hex_str : Format → ℕ → ℤ → Text
hex_str f width v =
    if width == 0
    then codes "0x" ++ f.hex 0 v
    else if width == 1
    then f.decimal v
    else codes "0x" ++ f.hex (if width % 4 == 0 then width / 4 else width / 4 + 1) v

unfoldable pub value_to_str : Format → Option ℤ → Bool → ℕ → Text
value_to_str f none use_hex width = error_value_str
value_to_str f (some v) use_hex width = if use_hex then hex_str f width v else f.decimal v

abbrev width_of : ScopeQueries → ℕ → Option Handle → ℕ
width_of q ns_id none = 0
width_of q ns_id (some h) = elim (q.get_signal_width ns_id h) [ none ↦ 0 | some w ↦ w ]

abbrev delayed_at : Option Handle → Debugger → Option DelayedVariable
delayed_at none d = none
delayed_at (some h) d = lookup h d.delayed_variables

-- get_value_str: a variable that is no signal is its own text.
unfoldable pub get_value_str :
    Format → Reads → ScopeQueries → Rtl → ℕ → Text → Bool → Bool → Debugger → Text
unfolding value_to_str
get_value_str f r q rtl ns_id rtl_name false use_delay d = rtl_name
get_value_str f r q rtl ns_id rtl_name true use_delay d =
    let h = rtl.get_handle rtl_name in
    let width = if d.use_hex_str then width_of q ns_id h else 0 in
    let current = value_to_str f (value_at r ns_id h) d.use_hex_str width in
    let delayed : Text = elim (delayed_at h d) [
      | none ↦ error_value_str
      | some var ↦ value_to_str f var.value d.use_hex_str width
    ] in
    if use_delay then delayed else current

-- The name that is resolved in the scope, unless it is a full one or is not found there.
abbrev base_name : Bool → Option Text → Text → Text
base_name true resolved name = name
base_name false none name = name
base_name false (some resolved) name = resolved

unfoldable pub resolve_generator_name :
    ScopeQueries → SymbolTable → ℕ → Text → Text → ℕ → List (Text × Text)
resolve_generator_name q db ns_id rtl_name_base var_name instance_id =
    q.resolve_rtl_variable ns_id var_name (
      base_name (q.is_absolute_path ns_id rtl_name_base)
        (db.resolve_scoped_name_instance rtl_name_base instance_id) rtl_name_base)

unfoldable pub resolve_context_name :
    ScopeQueries → SymbolTable → ℕ → Text → Text → ℕ → List (Text × Text)
resolve_context_name q db ns_id rtl_name_base var_name bp_id =
    q.resolve_rtl_variable ns_id var_name (
      base_name (q.is_absolute_path ns_id rtl_name_base)
        (db.resolve_scoped_name_breakpoint rtl_name_base bp_id) rtl_name_base)

-- BreakPointResponse::Scope. Its two maps are association lists in the order the names came in.
pub record Scope : Type 0 where
  pub instance_id : ℕ
  pub instance_name : Text
  pub breakpoint_id : ℕ
  pub namespace_id : ℕ
  pub bp_type : Text
  pub generator_values : List (Text × Text)
  pub local_values : List (Text × Text)

module _ (f : Format) (r : Reads) (q : ScopeQueries) (db : SymbolTable) (rtl : Rtl) (d : Debugger)
    (bp : DebugBreakPoint) where
  -- The values of the names that a variable stands for.
  abbrev values_of : Bool → Bool → List (Text × Text) → List (Text × Text)
  values_of is_rtl use_delay [] = []
  values_of is_rtl use_delay ((front_name, rtl_name) ∷ names) =
      (front_name, get_value_str f r q rtl bp.ns_id rtl_name is_rtl use_delay d)
      ∷ values_of is_rtl use_delay names

  unfoldable pub generator_values_of : List ScopeVariable → List (Text × Text) → List (Text × Text)
  unfolding resolve_generator_name get_value_str add_generator_values
  generator_values_of [] values = values
  generator_values_of (v ∷ vars) values =
      let names = resolve_generator_name q db bp.ns_id v.value v.name bp.instance_id in
      generator_values_of vars (add_generator_values (values_of v.is_rtl false names) values)

  unfoldable pub local_values_of : List ScopeVariable → List (Text × Text) → List (Text × Text)
  unfolding resolve_context_name get_value_str add_local_values
  local_values_of [] values = values
  local_values_of (v ∷ vars) values =
      let names = resolve_context_name q db bp.ns_id v.value v.name bp.id in
      local_values_of vars (add_local_values (values_of v.is_rtl v.is_delayed names) values)

  unfoldable pub scope_of : Scope
  unfolding generator_values_of local_values_of
  scope_of = record {
    instance_id = bp.instance_id;
    instance_name = rtl.get_full_name (name_or_empty (db.get_instance_name_from_bp bp.id));
    breakpoint_id = bp.id;
    namespace_id = bp.ns_id;
    bp_type = if is_kind data_ bp.type then codes "data" else codes "normal";
    generator_values = generator_values_of (q.get_generator_variable bp.instance_id) [];
    local_values = local_values_of (q.get_context_variables bp.id) [];
  }
    where
      name_or_empty : Option Text → Text
      name_or_empty none = []
      name_or_empty (some name) = name

-- The loop over the breakpoints; a namespace that is not there is undefined behaviour.
unfoldable pub scopes_of :
    Format
    → Reads
    → ScopeQueries
    → SymbolTable
    → Debugger
    → List DebugBreakPoint
    → Option (List Scope)
unfolding scope_of
scopes_of f r q db d [] = some []
scopes_of f r q db d (bp ∷ bps) = do
  ns ← get_elem? d.namespaces.namespaces bp.ns_id
  scopes ← scopes_of f r q db d bps
  some (scope_of f r q db ns.rtl d bp ∷ scopes)

-- BreakPointResponse: the time, the place of the first breakpoint, and the scopes.
pub record BreakPointResponse : Type 0 where
  pub time : ℤ
  pub filename : Text
  pub line_num : ℕ
  pub column_num : ℕ
  pub scopes : List Scope

-- send_breakpoint_hit, on at least one breakpoint.
unfoldable pub send_breakpoint_hit :
    Format
    → Reads
    → ScopeQueries
    → SymbolTable
    → Debugger
    → List DebugBreakPoint
    → Option BreakPointResponse
unfolding scopes_of
send_breakpoint_hit f r q db d [] = none
send_breakpoint_hit f r q db d (bp ∷ bps) = scopes_of f r q db d (bp ∷ bps) >>= λ scopes.
    some (record {
      time = r.get_simulation_time 0;
      filename = bp.filename;
      line_num = bp.line_num;
      column_num = bp.column_num;
      scopes = scopes;
    })
