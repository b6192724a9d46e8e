-- ===== src/Proto/Requests.antt =====
-- Request::parse_request of src/proto.cc. The arguments `parse` and `payload_text` are the library's parser
-- and its writer on the payload of a document.
use hgdb.Prelude.{
  Text, codes, Bool, true, false, [], if◌then◌else◌, Option, none, some, List, text_eq,
}
use hgdb.Proto.{
  Document, Parsed, parse_error, no_object, document, Read, read, failed, undefined, check_member,
  get_member, string_of, bool_of,
}
use hgdb.Proto.Breakpoints.{
  BreakPointRequest, BreakPointLocationRequest, breakpoint_payload, breakpoint_id_payload,
  bp_location_payload,
}
use hgdb.Proto.Commands.{
  ConnectionRequest, CommandRequest, Information, connection_payload, command_payload,
  debugger_info_payload, path_mapping_payload,
}
use hgdb.Proto.Values.{
  EvaluationRequest, OptionChangeRequest, SetValueRequest, MonitorRequest, evaluation_payload,
  option_change_payload, set_value_payload, monitor_payload,
}
use hgdb.Proto.Data.{DataBreakpointRequest, data_breakpoint_payload}

pub data RequestType : Type 0 where
  error breakpoint breakpoint_id connection bp_location command debugger_info : RequestType
  path_mapping evaluation option_change monitor set_value symbol data_breakpoint : RequestType

unfoldable pub to_string : RequestType → Text
to_string error = codes "error"
to_string breakpoint = codes "breakpoint"
to_string breakpoint_id = codes "breakpoint-id"
to_string connection = codes "connection"
to_string bp_location = codes "bp-location"
to_string command = codes "command"
to_string debugger_info = codes "debugger-info"
to_string path_mapping = codes "path-mapping"
to_string evaluation = codes "evaluation"
to_string option_change = codes "option-change"
to_string monitor = codes "monitor"
to_string set_value = codes "set-value"
to_string symbol = codes "symbol"
to_string data_breakpoint = codes "data-breakpoint"

-- The class that parse_request makes for a type; an ErrorRequest where the type is not known.
unfoldable pub request_of : Text → RequestType
request_of s =
    if text_eq s (codes "breakpoint")
    then breakpoint
    else if text_eq s (codes "breakpoint-id")
    then breakpoint_id
    else if text_eq s (codes "connection")
    then connection
    else if text_eq s (codes "bp-location")
    then bp_location
    else if text_eq s (codes "command")
    then command
    else if text_eq s (codes "debugger-info")
    then debugger_info
    else if text_eq s (codes "path-mapping")
    then path_mapping
    else if text_eq s (codes "evaluation")
    then evaluation
    else if text_eq s (codes "option-change")
    then option_change
    else if text_eq s (codes "monitor")
    then monitor
    else if text_eq s (codes "set-value")
    then set_value
    else if text_eq s (codes "data-breakpoint")
    then data_breakpoint
    else error

pub data Payload : Type 0 where
  of_breakpoint : BreakPointRequest → Payload
  of_location : BreakPointLocationRequest → Payload
  of_connection : ConnectionRequest → Payload
  of_command : CommandRequest → Payload
  of_information : Information → Payload
  of_mapping : List (Text × Text) → Payload
  of_evaluation : EvaluationRequest → Payload
  of_options : OptionChangeRequest → Payload
  of_monitor : MonitorRequest → Payload
  of_value : SetValueRequest → Payload
  of_data : DataBreakpointRequest → Payload

pub record Request : Type 0 where
  pub type : RequestType
  pub token : Text
  pub payload : Read Payload

abbrev map_read : {A : Type 0} → (A → Payload) → Read A → Read Payload
map_read f (read a e) = read (f a) e
map_read f (failed e) = failed e
map_read f undefined = undefined

-- parse_payload of each class. No request has the type symbol.
unfoldable pub payload_of : RequestType → Document → Read Payload
unfolding breakpoint_payload breakpoint_id_payload bp_location_payload connection_payload
    command_payload debugger_info_payload path_mapping_payload evaluation_payload
    option_change_payload monitor_payload set_value_payload data_breakpoint_payload
payload_of breakpoint d = map_read of_breakpoint (breakpoint_payload d)
payload_of breakpoint_id d = map_read of_breakpoint (breakpoint_id_payload d)
payload_of bp_location d = map_read of_location (bp_location_payload d)
payload_of connection d = map_read of_connection (connection_payload d)
payload_of command d = map_read of_command (command_payload d)
payload_of debugger_info d = map_read of_information (debugger_info_payload d)
payload_of path_mapping d = map_read of_mapping (path_mapping_payload d)
payload_of evaluation d = map_read of_evaluation (evaluation_payload d)
payload_of option_change d = map_read of_options (option_change_payload d)
payload_of monitor d = map_read of_monitor (monitor_payload d)
payload_of set_value d = map_read of_value (set_value_payload d)
payload_of data_breakpoint d = map_read of_data (data_breakpoint_payload d)
payload_of symbol d = failed []
payload_of error d = failed (codes "Unknown request")

-- parse_payload on the text of the payload; that of an ErrorRequest does nothing.
unfoldable pub parse_payload : RequestType → Parsed → Read Payload
unfolding payload_of
parse_payload error parsed = failed (codes "Unknown request")
parse_payload type parse_error = failed (codes "Invalid JSON file")
parse_payload type no_object = undefined
parse_payload type (document d) = payload_of type d

abbrev error_request : Text → Request
error_request reason = record { type = error; token = []; payload = failed reason }

abbrev token_or_empty : Option Text → Text
token_or_empty none = []
token_or_empty (some token) = token

module _ (parse : Text → Parsed) (payload_text : Document → Text) where
  abbrev typed_request : Document → Option Text × Text → Request
  unfolding get_member check_member request_of parse_payload
  typed_request d (none, e) = error_request e
  typed_request d (some type_str, e) =
      let (payload, e1) = check_member d (codes "payload") e true in
      let (token, e2) = get_member string_of d (codes "token") e1 false in
      let type = request_of type_str in
      if payload
      then record {
        type = type;
        token = token_or_empty token;
        payload = parse_payload type (parse (payload_text d));
      }
      else error_request e1

  abbrev request_in : Document → Option Bool × Text → Request
  unfolding get_member
  request_in d (none, e) = error_request e
  request_in d (some false, e) = error_request e
  request_in d (some true, e) = typed_request d (get_member string_of d (codes "type") e true)

  -- none is undefined behaviour: HasMember on a value that is no object.
  unfoldable pub parse_request : Text → Option Request
  unfolding get_member check_member request_of parse_payload
  parse_request str = of_document (parse str)
    where
      of_document : Parsed → Option Request
      of_document parse_error = some (error_request (codes "Invalid json object"))
      of_document no_object = none
      of_document (document d) =
          some (request_in d (get_member bool_of d (codes "request") [] true))
