-- ===== src/Proto/Commands.antt =====
-- The payloads of src/proto.cc that control the debugger: ConnectionRequest, CommandRequest,
-- DebuggerInformationRequest and PathMappingRequest.
use hgdb.Prelude.{
  Text, codes, ℕ, [], true, false, if◌then◌else◌, Option, none, some, List, ◌++◌, text_eq,
}
use hgdb.Proto.{Document, Read, read, failed, get_member, required, string_of, uint64_of, map_of}

pub record ConnectionRequest : Type 0 where
  pub db_filename : Text
  pub path_mapping : List (Text × Text)

abbrev mapping_or_empty : Option (List (Text × Text)) → List (Text × Text)
mapping_or_empty none = []
mapping_or_empty (some mapping) = mapping

unfoldable pub connection_payload : Document → Read ConnectionRequest
unfolding get_member
connection_payload d = required string_of d (codes "db_filename") [] λ db e1.
    let (mapping, e2) = get_member map_of d (codes "path-mapping") e1 false in
    read (record { db_filename = db; path_mapping = mapping_or_empty mapping }) e2

pub data CommandType : Type 0 where
  continue_ step_over step_back stop reverse_continue jump : CommandType

pub record CommandRequest : Type 0 where
  pub command_type : CommandType
  pub time : ℕ

abbrev command_of : Text → Option CommandType
command_of s =
    if text_eq s (codes "continue")
    then some continue_
    else if text_eq s (codes "step_over")
    then some step_over
    else if text_eq s (codes "stop")
    then some stop
    else if text_eq s (codes "step_back")
    then some step_back
    else if text_eq s (codes "reverse_continue")
    then some reverse_continue
    else if text_eq s (codes "jump")
    then some jump
    else none

abbrev unknown_command : Text → Text
unknown_command command = codes "Unknown command type " ++ command

-- The time of a jump.
abbrev jump_to : Option ℕ × Text → Read CommandRequest
jump_to (none, e) = failed (codes "Unable to obtain jump time")
jump_to (some time, e) = read (record { command_type = jump; time = time }) e

abbrev with_command : Document → Text → Option CommandType → Text → Read CommandRequest
unfolding get_member
with_command d command none e = failed (unknown_command command)
with_command d command (some jump) e = jump_to (get_member uint64_of d (codes "time") e true)
with_command d command (some type) e = read (record { command_type = type; time = 0 }) e

unfoldable pub command_payload : Document → Read CommandRequest
unfolding get_member
command_payload d =
    required string_of d (codes "command") [] λ command. with_command d command (command_of command)

-- DebuggerInformationRequest::CommandType.
pub data Information : Type 0 where
  breakpoints status options design filename : Information

abbrev information_of : Text → Option Information
information_of s =
    if text_eq s (codes "breakpoints")
    then some breakpoints
    else if text_eq s (codes "status")
    then some status
    else if text_eq s (codes "options")
    then some options
    else if text_eq s (codes "design")
    then some design
    else if text_eq s (codes "filename")
    then some filename
    else none

abbrev with_information : Text → Option Information → Text → Read Information
with_information command none e = failed (unknown_command command)
with_information command (some info) e = read info e

unfoldable pub debugger_info_payload : Document → Read Information
unfolding get_member
debugger_info_payload d =
    required string_of d (codes "command") []
      λ command. with_information command (information_of command)

unfoldable pub path_mapping_payload : Document → Read (List (Text × Text))
unfolding get_member
path_mapping_payload d = required map_of d (codes "path-mapping") [] read
