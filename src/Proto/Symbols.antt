-- ===== src/Proto/Symbols.antt =====
-- SymbolRequest of src/proto.cc: what a remote symbol table is asked, how it is written and how it is read.
use hgdb.Prelude.{
  Text, codes, ℕ, true, false, [], ◌∷◌, ◌++◌, if◌then◌else◌, Option, none, some, text_eq,
}
use hgdb.Prelude.Maps.{contains_key, text_key}
use hgdb.Proto.{c_str, Document, Number, Member, string, number, get_member, string_of, uint32_of}

-- SymbolRequest::request_type.
pub data SymbolQuery : Type 0 where
  get_breakpoint get_breakpoints get_instance_name get_instance_id : SymbolQuery
  get_context_variables get_generator_variables get_instance_names : SymbolQuery
  get_annotation_values get_all_array_names get_filenames : SymbolQuery
  get_execution_bp_orders get_assigned_breakpoints : SymbolQuery

unfoldable pub query_to_string : SymbolQuery → Text
query_to_string get_breakpoint = codes "get_breakpoint"
query_to_string get_breakpoints = codes "get_breakpoints"
query_to_string get_instance_name = codes "get_instance_name"
query_to_string get_instance_id = codes "get_instance_id"
query_to_string get_context_variables = codes "get_context_variables"
query_to_string get_generator_variables = codes "get_generator_variables"
query_to_string get_instance_names = codes "get_instance_names"
query_to_string get_annotation_values = codes "get_annotation_values"
query_to_string get_all_array_names = codes "get_all_array_names"
query_to_string get_execution_bp_orders = codes "get_execution_bp_orders"
query_to_string get_assigned_breakpoints = codes "get_assigned_breakpoints"
query_to_string get_filenames = codes "get_filenames"

unfoldable pub query_of : Text → Option SymbolQuery
query_of s =
    if text_eq s (codes "get_breakpoint")
    then some get_breakpoint
    else if text_eq s (codes "get_breakpoints")
    then some get_breakpoints
    else if text_eq s (codes "get_instance_name")
    then some get_instance_name
    else if text_eq s (codes "get_instance_id")
    then some get_instance_id
    else if text_eq s (codes "get_context_variables")
    then some get_context_variables
    else if text_eq s (codes "get_generator_variables")
    then some get_generator_variables
    else if text_eq s (codes "get_instance_names")
    then some get_instance_names
    else if text_eq s (codes "get_annotation_values")
    then some get_annotation_values
    else if text_eq s (codes "get_all_array_names")
    then some get_all_array_names
    else if text_eq s (codes "get_execution_bp_orders")
    then some get_execution_bp_orders
    else if text_eq s (codes "get_assigned_breakpoints")
    then some get_assigned_breakpoints
    else if text_eq s (codes "get_filenames")
    then some get_filenames
    else none

pub record SymbolRequest : Type 0 where
  pub instance_id : ℕ
  pub breakpoint_id : ℕ
  pub filename : Text
  pub line_num : ℕ
  pub column_num : ℕ
  pub instance_name : Text
  pub name : Text
  pub req_type : SymbolQuery

-- A member that has to be there: without it parse_payload returns. A member that need not be there
-- leaves the field as it was.
abbrev with_required :
    {A : Type 0} → Option A × Text → (A → SymbolRequest) → SymbolRequest → SymbolRequest × Text
with_required (none, e) set_field request = (request, e)
with_required (some a, e) set_field request = (set_field a, e)

abbrev value_or : ℕ → Option ℕ → ℕ
value_or old none = old
value_or old (some n) = n

abbrev read_place : Document → SymbolRequest → Text → SymbolRequest × Text
unfolding get_member
read_place d request e =
    let (line, e1) = get_member uint32_of d (codes "line_num") e false in
    let (col, e2) = get_member uint32_of d (codes "col_num") e1 false in
    (
      record request {
        line_num = value_or request.line_num line;
        column_num = value_or request.column_num col;
      },
      e2,
    )

abbrev read_file : Document → Option Text × Text → SymbolRequest → SymbolRequest × Text
unfolding get_member
read_file d (none, e) request = (request, e)
read_file d (some filename, e) request = read_place d (record request { filename = filename }) e

abbrev read_instance : Document → SymbolRequest → Text → SymbolRequest × Text
unfolding get_member
read_instance d request e =
    with_required (get_member uint32_of d (codes "instance_id") e true)
      (λ id. record request { instance_id = id }) request

abbrev read_breakpoint : Document → SymbolRequest → Text → SymbolRequest × Text
unfolding get_member
read_breakpoint d request e =
    with_required (get_member uint32_of d (codes "breakpoint_id") e true)
      (λ id. record request { breakpoint_id = id }) request

abbrev read_instance_name : Document → SymbolRequest → Text → SymbolRequest × Text
unfolding get_member
read_instance_name d request e =
    with_required (get_member string_of d (codes "instance_name") e true)
      (λ name. record request { instance_name = name }) request

abbrev read_name : Document → SymbolRequest → Text → SymbolRequest × Text
unfolding get_member
read_name d request e =
    with_required (get_member string_of d (codes "name") e true)
      (λ name. record request { name = name }) request

abbrev both_of : Option Text → Option ℕ → SymbolRequest → SymbolRequest
both_of (some name) (some id) request = record request { name = name; breakpoint_id = id }
both_of _ _ request = request

abbrev read_assigned : Document → SymbolRequest → Text → SymbolRequest × Text
unfolding get_member
read_assigned d request e =
    let (name, e1) = get_member string_of d (codes "name") e true in
    let (id, e2) = get_member uint32_of d (codes "breakpoint_id") e1 true in
    (both_of name id request, e2)

-- The cases of parse_payload for a query.
unfoldable pub read_query : SymbolQuery → Document → SymbolRequest → Text → SymbolRequest × Text
unfolding get_member contains_key
read_query get_breakpoints d request e =
    read_file d (get_member string_of d (codes "filename") e true) request
read_query get_instance_name d request e = read_instance d request e
read_query get_generator_variables d request e = read_instance d request e
read_query get_breakpoint d request e = read_breakpoint d request e
read_query get_context_variables d request e = read_breakpoint d request e
read_query get_instance_id d request e =
    if contains_key (codes "breakpoint_id") d
    then read_breakpoint d request e
    else read_instance_name d request e
read_query get_instance_names d request e = (request, e)
read_query get_all_array_names d request e = (request, e)
read_query get_filenames d request e = (request, e)
read_query get_execution_bp_orders d request e = (request, e)
read_query get_annotation_values d request e = read_name d request e
read_query get_assigned_breakpoints d request e = read_assigned d request e

abbrev with_query :
    Document → Text → Option SymbolQuery → SymbolRequest → Text → SymbolRequest × Text
unfolding read_query
with_query d type_str none request e = (request, codes "Unknown request type " ++ type_str)
with_query d type_str (some query) request e =
    read_query query d (record request { req_type = query }) e

-- SymbolRequest::parse_payload on a payload that was parsed; it leaves the status as it is.
unfoldable pub symbol_payload : Document → SymbolRequest → SymbolRequest × Text
unfolding get_member query_of read_query
symbol_payload d request = of_type (get_member string_of d (codes "type") [] true)
  where
    of_type : Option Text × Text → SymbolRequest × Text
    of_type (none, e) = (request, e)
    of_type (some type_str, e) = with_query d type_str (query_of type_str) request e

-- set_member of a text, which is written up to its first NUL, as value.c_str().
abbrev pub text_member : Text → Member
unfolding c_str
text_member s = string (c_str s)

-- The breakpoint, or the name of an instance where there is one.
abbrev pub written_instance : (ℕ → Number) → SymbolRequest → Text → Document
unfolding c_str
written_instance written r [] = (codes "breakpoint_id", number (written r.breakpoint_id)) ∷ []
written_instance written r (c ∷ name) = (codes "instance_name", text_member (c ∷ name)) ∷ []

-- The members of the payload that SymbolRequest::str writes behind its type. The argument `written` is
-- what the library's parser answers on a number that its writer wrote.
unfoldable pub written_query : (ℕ → Number) → SymbolRequest → SymbolQuery → Document
unfolding c_str
written_query written r get_breakpoints =
    (codes "filename", text_member r.filename)
    ∷ (codes "line_num", number (written r.line_num))
    ∷ (codes "col_num", number (written r.column_num))
    ∷ []
written_query written r get_instance_name =
    (codes "instance_id", number (written r.instance_id)) ∷ []
written_query written r get_generator_variables =
    (codes "instance_id", number (written r.instance_id)) ∷ []
written_query written r get_breakpoint =
    (codes "breakpoint_id", number (written r.breakpoint_id)) ∷ []
written_query written r get_context_variables =
    (codes "breakpoint_id", number (written r.breakpoint_id)) ∷ []
written_query written r get_instance_id = written_instance written r r.instance_name
written_query written r get_instance_names = []
written_query written r get_all_array_names = []
written_query written r get_filenames = []
written_query written r get_execution_bp_orders = []
written_query written r get_annotation_values = (codes "name", text_member r.name) ∷ []
written_query written r get_assigned_breakpoints =
    (codes "name", text_member r.name)
    ∷ (codes "breakpoint_id", number (written r.breakpoint_id))
    ∷ []

-- The type is a text without a NUL.
unfoldable pub written_payload : (ℕ → Number) → SymbolRequest → Document
unfolding query_to_string written_query c_str
written_payload written r =
    (codes "type", string (query_to_string r.req_type)) ∷ written_query written r r.req_type
