-- ===== src/Proto/Rows.antt =====
-- The rows that SymbolResponse of src/proto.cc reads: parse_breakpoint, parse_variable,
-- parse_context_variable and parse_generator_variable.
use hgdb.Prelude.{Text, codes, ℕ, Bool, false, [], Option, none, some, ◌>>=◌}
use hgdb.Interfaces.{BreakPoint}
use hgdb.Proto.{Document, get_member, string_of, uint32_of, bool_of}

-- The rows of the table that are sent. The type and the depth of a variable are not.
pub record VariableRow : Type 0 where
  pub id : ℕ
  pub value : Text
  pub is_rtl : Bool

pub record ContextRow : Type 0 where
  pub name : Text
  pub breakpoint_id : ℕ
  pub variable_id : ℕ

pub record GeneratorRow : Type 0 where
  pub name : Text
  pub instance_id : ℕ
  pub variable_id : ℕ
  pub annotation : Text

abbrev text_at : Document → Text → Option Text
unfolding get_member
text_at d name = (get_member string_of d name [] false).0

abbrev uint32_at : Document → Text → Option ℕ
unfolding get_member
uint32_at d name = (get_member uint32_of d name [] false).0

abbrev bool_at : Document → Text → Option Bool
unfolding get_member
bool_at d name = (get_member bool_of d name [] false).0

unfoldable pub parse_breakpoint : Document → Option BreakPoint
unfolding get_member
parse_breakpoint value = do
  id ← uint32_at value (codes "id")
  instance_id ← uint32_at value (codes "instance_id")
  filename ← text_at value (codes "filename")
  line_num ← uint32_at value (codes "line_num")
  column_num ← uint32_at value (codes "column_num")
  condition ← text_at value (codes "condition")
  trigger ← text_at value (codes "trigger")
  some (record {
    id = id;
    instance_id = some instance_id;
    filename = filename;
    line_num = line_num;
    column_num = column_num;
    condition = condition;
    trigger = trigger;
  })

unfoldable pub parse_variable : Document → Option VariableRow
unfolding get_member
parse_variable value = do
  id ← uint32_at value (codes "id")
  text ← text_at value (codes "value")
  is_rtl ← bool_at value (codes "is_rtl")
  some (record { id = id; value = text; is_rtl = is_rtl })

unfoldable pub parse_context_variable : Document → Option ContextRow
unfolding get_member
parse_context_variable value = do
  name ← text_at value (codes "name")
  breakpoint_id ← uint32_at value (codes "breakpoint_id")
  variable_id ← uint32_at value (codes "variable_id")
  some (record { name = name; breakpoint_id = breakpoint_id; variable_id = variable_id })

abbrev pub text_or_empty : Option Text → Text
text_or_empty none = []
text_or_empty (some s) = s

unfoldable pub parse_generator_variable : Document → Option GeneratorRow
unfolding get_member
parse_generator_variable value = do
  name ← text_at value (codes "name")
  instance_id ← uint32_at value (codes "instance_id")
  variable_id ← uint32_at value (codes "variable_id")
  some (record {
    name = name;
    instance_id = instance_id;
    variable_id = variable_id;
    annotation = text_or_empty (text_at value (codes "annotation"));
  })
