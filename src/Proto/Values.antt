-- ===== src/Proto/Values.antt =====
-- The payloads of src/proto.cc about expressions, options and watched variables: EvaluationRequest,
-- OptionChangeRequest, SetValueRequest and MonitorRequest.
use hgdb.Prelude.{
  Text, codes, ℕ, Bool, [], ◌∷◌, true, false, if◌then◌else◌, Option, none, some, List, ◌++◌,
  text_eq,
}
use hgdb.Prelude.Int.{ℤ}
use hgdb.Prelude.Maps.{emplace, text_key}
use hgdb.Proto.{
  c_str, Document, Number, string, number, boolean, object, other, Read, read, failed, get_member,
  require, required, string_of, uint64_of, uint32_of, int64_of,
}

pub record EvaluationRequest : Type 0 where
  pub instance_id : Option ℕ
  pub breakpoint_id : Option ℕ
  pub expression : Text
  pub namespace_id : Option ℕ

unfoldable pub evaluation_payload : Document → Read EvaluationRequest
unfolding get_member
evaluation_payload d =
    let (breakpoint_id, e1) = get_member uint32_of d (codes "breakpoint_id") [] false in
    let (instance_id, e2) = get_member uint32_of d (codes "instance_id") e1 false in
    required string_of d (codes "expression") e2 λ expression e3.
      let (namespace_id, e4) = get_member uint64_of d (codes "namespace_id") e3 true in
      read
        (record {
          instance_id = instance_id;
          breakpoint_id = breakpoint_id;
          expression = expression;
          namespace_id = namespace_id;
        })
        e4

pub record OptionChangeRequest : Type 0 where
  pub bool_values : List (Text × Bool)
  pub int_values : List (Text × ℤ)
  pub str_values : List (Text × Text)

abbrev add_int : Text → Number → OptionChangeRequest → OptionChangeRequest
unfolding emplace c_str
add_int name n request = record request {
  int_values = emplace (c_str name) n.int64 request.int_values;
}

abbrev unsupported : Text → Read OptionChangeRequest
unfolding c_str
unsupported name = failed (codes "Unsupported data type for " ++ c_str name)

-- The loop over the options, which stops at a value of another type.
abbrev options_from : Document → OptionChangeRequest → Read OptionChangeRequest
unfolding emplace c_str
options_from [] request = read request []
options_from ((name, boolean b) ∷ d) request =
    options_from d (record request { bool_values = emplace (c_str name) b request.bool_values })
options_from ((name, number n) ∷ d) request =
    let later = options_from d (add_int name n request) in
    if n.is_int64 then later else unsupported name
options_from ((name, string s) ∷ d) request =
    options_from d (record request { str_values = emplace (c_str name) s request.str_values })
options_from ((name, object members) ∷ d) request = unsupported name
options_from ((name, other) ∷ d) request = unsupported name

unfoldable pub option_change_payload : Document → Read OptionChangeRequest
unfolding emplace c_str
option_change_payload d =
    options_from d (record { bool_values = []; int_values = []; str_values = [] })

pub record SetValueRequest : Type 0 where
  pub value : ℤ
  pub var_name : Text
  pub instance_id : Option ℕ
  pub breakpoint_id : Option ℕ
  pub namespace_id : Option ℕ

abbrev set_value_scope : Document → Text → ℤ → Text → Read SetValueRequest
unfolding get_member
set_value_scope d var_name value e =
    let (instance_id, e1) = get_member uint64_of d (codes "instance_id") e false in
    let (breakpoint_id, e2) = get_member uint64_of d (codes "breakpoint_id") e1 false in
    let (namespace_id, e3) = get_member uint64_of d (codes "namespace_id") e2 false in
    read
      (record {
        value = value;
        var_name = var_name;
        instance_id = instance_id;
        breakpoint_id = breakpoint_id;
        namespace_id = namespace_id;
      })
      e3

unfoldable pub set_value_payload : Document → Read SetValueRequest
unfolding get_member
set_value_payload d =
    let (variable_name, e1) = get_member string_of d (codes "var_name") [] true in
    let (v, e2) = get_member int64_of d (codes "value") e1 true in
    require (variable_name, e2) λ name e3. require (v, e3) λ value. set_value_scope d name value

pub data ActionType : Type 0 where
  add remove : ActionType

pub data MonitorType : Type 0 where
  breakpoint clock_edge changed data_ delay_clock_edge : MonitorType

pub record MonitorRequest : Type 0 where
  pub action_type : ActionType
  pub monitor_type : MonitorType
  pub var_name : Text
  pub breakpoint_id : Option ℕ
  pub instance_id : Option ℕ
  pub track_id : ℕ
  pub namespace_id : Option ℕ

-- The members' values before they are set.
abbrev no_monitor : MonitorRequest
no_monitor = record {
  action_type = add;
  monitor_type = breakpoint;
  var_name = [];
  breakpoint_id = none;
  instance_id = none;
  track_id = 0;
  namespace_id = none;
}

abbrev monitor_type_of : Text → Option MonitorType
monitor_type_of s =
    if text_eq s (codes "breakpoint")
    then some breakpoint
    else if text_eq s (codes "clock_edge")
    then some clock_edge
    else if text_eq s (codes "changed")
    then some changed
    else none

abbrev add_watch : Document → Option ℕ → Option MonitorType → Text → Read MonitorRequest
unfolding get_member
add_watch d ns_id none e = failed e
add_watch d ns_id (some type) e = required string_of d (codes "var_name") e λ name e1.
    let (instance_id, e2) = get_member uint64_of d (codes "instance_id") e1 false in
    let (breakpoint_id, e3) = get_member uint64_of d (codes "breakpoint_id") e2 false in
    read
      (record no_monitor {
        monitor_type = type;
        var_name = name;
        breakpoint_id = breakpoint_id;
        instance_id = instance_id;
        namespace_id = ns_id;
      })
      e3

abbrev add_request : Document → Option ℕ → Text → Read MonitorRequest
unfolding get_member
add_request d ns_id e =
    required string_of d (codes "monitor_type") e λ type. add_watch d ns_id (monitor_type_of type)

abbrev remove_request : Document → Option ℕ → Text → Read MonitorRequest
unfolding get_member
remove_request d ns_id e =
    required uint64_of d (codes "track_id") e
      λ id. read (record no_monitor { action_type = remove; track_id = id; namespace_id = ns_id })

-- An action that is not known leaves the status a success.
abbrev monitor_action : Document → Text → Text → Read MonitorRequest
unfolding get_member
monitor_action d action e =
    let (ns_id, e1) = get_member uint64_of d (codes "namespace_id") e true in
    if text_eq action (codes "add")
    then add_request d ns_id e1
    else if text_eq action (codes "remove")
    then remove_request d ns_id e1
    else read no_monitor (codes "Unknown action type " ++ action)

unfoldable pub monitor_payload : Document → Read MonitorRequest
unfolding get_member
monitor_payload d = required string_of d (codes "action_type") [] (monitor_action d)
