-- ===== src/Proto/Data.antt =====
-- DataBreakpointRequest of src/proto.cc.
use hgdb.Prelude.{Text, codes, ℕ, [], true, false, if◌then◌else◌, Option, none, some, text_eq}
use hgdb.Proto.{Document, Read, read, failed, get_member, required, string_of, uint64_of}

pub data Action : Type 0 where
  add clear remove info : Action

pub record DataBreakpointRequest : Type 0 where
  pub breakpoint_id : ℕ
  pub variable_name : Text
  pub condition : Text
  pub action : Action
  pub namespace_id : Option ℕ

abbrev text_or_empty : Option Text → Text
text_or_empty none = []
text_or_empty (some s) = s

abbrev remove_data : Document → Option ℕ → Text → Read DataBreakpointRequest
unfolding get_member
remove_data d ns_id e = required uint64_of d (codes "breakpoint-id") e λ id. read (record {
  breakpoint_id = id;
  variable_name = [];
  condition = [];
  action = remove;
  namespace_id = ns_id;
})

abbrev place_data : Document → Option ℕ → Text → Action → Text → Read DataBreakpointRequest
unfolding get_member
place_data d ns_id name act e = required uint64_of d (codes "breakpoint-id") e λ id e1.
    let (condition, e2) = get_member string_of d (codes "condition") e1 false in
    read
      (record {
        breakpoint_id = id;
        variable_name = name;
        condition = text_or_empty condition;
        action = act;
        namespace_id = ns_id;
      })
      e2

-- An action that is neither is told behind the name of the variable.
abbrev add_or_info : Document → Option ℕ → Text → Text → Read DataBreakpointRequest
unfolding get_member
add_or_info d ns_id action e = required string_of d (codes "var_name") e λ name e1.
    if text_eq action (codes "add")
    then place_data d ns_id name add e1
    else if text_eq action (codes "info")
    then place_data d ns_id name info e1
    else failed (codes "Only 'add', 'clear', 'info', and 'remove' are allowed")

abbrev clear_data : Option ℕ → DataBreakpointRequest
clear_data ns_id = record {
  breakpoint_id = 0;
  variable_name = [];
  condition = [];
  action = clear;
  namespace_id = ns_id;
}

unfoldable pub data_breakpoint_payload : Document → Read DataBreakpointRequest
unfolding get_member
data_breakpoint_payload d = required string_of d (codes "action") [] λ action e1.
    let (ns_id, e2) = get_member uint64_of d (codes "namespace_id") e1 true in
    if text_eq action (codes "clear")
    then read (clear_data ns_id) e2
    else if text_eq action (codes "remove")
    then remove_data d ns_id e2
    else add_or_info d ns_id action e2
