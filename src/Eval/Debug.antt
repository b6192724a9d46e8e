-- ===== src/Eval/Debug.antt =====
-- DebugExpression of src/eval.hh and src/eval.cc: a parsed expression with the values of its symbols.
use hgdb.Prelude.{
  Text, ℕ, Bool, true, false, not, ◌&&◌, if◌then◌else◌, Option, none, some, List, [], ◌∷◌, ◌>>=◌,
}
use hgdb.Prelude.Maps.{text_key, lookup, contains_key, assign, emplace, contains, insert}
use hgdb.Prelude.Int.{ℤ, pos}
use hgdb.Eval.{Expr, null, eval}

-- A vpiHandle that is not null.
abbrev pub Handle : Type 0
Handle = ℕ

-- `symbols` gives the value_ of the Symbol node of each name. The nodes that `expressions_` owns are
-- in the tree.
pub record DebugExpression : Type 0 where
  pub expression : Text
  pub symbols_str : List Text
  pub symbols : List (Text × ℤ)
  pub static_values : List Text
  pub values : List (Text × ℤ)
  pub handles : List (Text × Option Handle)
  pub no_error : Bool
  pub root : Expr

abbrev pub is_null : Expr → Bool
is_null null = true
is_null _ = false

unfoldable pub empty_expression : Text → DebugExpression
empty_expression text = record {
  expression = text;
  symbols_str = [];
  symbols = [];
  static_values = [];
  values = [];
  handles = [];
  no_error = true;
  root = null;
}

unfoldable pub correct : DebugExpression → Bool
correct d = d.no_error && not (is_null d.root)

unfoldable pub set_error : DebugExpression → DebugExpression
set_error d = record d { no_error = false }

unfoldable pub add_symbol : Text → DebugExpression → DebugExpression
add_symbol name d = if contains name d.symbols_str then d else record d {
  symbols_str = insert name d.symbols_str;
  symbols = emplace name (pos 0) d.symbols;
}

-- The loop of DebugExpression::eval; symbols_.at throws on a name that is no symbol, which is `none`.
-- The order of an unordered_map is not specified, and the entries behind the first are written first.
unfoldable pub write_values : List (Text × ℤ) → List (Text × ℤ) → Option (List (Text × ℤ))
write_values [] nodes = some nodes
write_values ((name, v) ∷ values) nodes = write_values values nodes >>= λ written.
    if contains_key name written then some (assign name v written) else none

-- The value_ of a Symbol node.
abbrev pub or_zero : Option ℤ → ℤ
or_zero none = pos 0
or_zero (some v) = v

unfoldable pub node_value : List (Text × ℤ) → Text → ℤ
node_value nodes name = or_zero (lookup name nodes)

abbrev pub run_root : DebugExpression → Option (List (Text × ℤ)) → Option (ℤ × DebugExpression)
run_root d none = none
run_root d (some nodes) =
    eval (node_value nodes) d.root >>= λ v. some (v, record d { symbols = nodes })

unfoldable pub eval_debug : DebugExpression → Option (ℤ × DebugExpression)
eval_debug d =
    if is_null d.root then some (pos 0, d) else run_root d (write_values d.values d.symbols)

-- set_static_values: a name that is a symbol gets its value, and is recorded as static.
unfoldable pub set_static_values : List (Text × ℤ) → DebugExpression → DebugExpression
set_static_values [] d = d
set_static_values ((name, v) ∷ rest) d =
    let d' = set_static_values rest d in
    if contains_key name d'.symbols
    then record d' {
      symbols = assign name v d'.symbols;
      static_values = insert name d'.static_values;
    }
    else d'

-- The loop of get_required_symbols.
unfoldable pub required_from : List Text → List Text → List Text
required_from statics [] = []
required_from statics (name ∷ names) =
    let rest = required_from statics names in
    if contains name statics then rest else insert name rest

unfoldable pub get_required_symbols : DebugExpression → List Text
get_required_symbols d = required_from d.static_values d.symbols_str

unfoldable pub set_resolved_symbol_handle : Text → Option Handle → DebugExpression → DebugExpression
set_resolved_symbol_handle name handle d =
    if contains name d.symbols_str
    then record d {
      handles = emplace name handle d.handles;
      values = emplace name (pos 0) d.values;
    }
    else d

unfoldable pub clear : DebugExpression → DebugExpression
clear d = record d { handles = []; values = []; no_error = true }

unfoldable pub set_value : Text → ℤ → DebugExpression → DebugExpression
set_value name v d = record d { values = assign name v d.values }

unfoldable pub set_values : List (Text × ℤ) → DebugExpression → DebugExpression
set_values [] d = d
set_values ((name, v) ∷ rest) d = set_value name v (set_values rest d)
