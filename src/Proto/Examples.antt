-- ===== src/Proto/Examples.antt =====
-- Requests at concrete inputs.
use hgdb.Prelude.{codes, ℕ, ◌<◌, ◌%◌, ◌^◌, ◌≡◌, refl, arith, true, none, text_eq, ◌∷◌, []}
use hgdb.Prelude.Int.{pos}
use hgdb.Prelude.Maps.{lookup, text_key}
use hgdb.Proto.{c_str, Number, string, read, undefined, get_member}
use hgdb.Proto.Breakpoints.{breakpoint_payload}
use hgdb.Proto.Values.{add, breakpoint, monitor_payload}
use hgdb.Proto.Symbols.{SymbolRequest, get_breakpoints, get_instance_id, written_payload}
use hgdb.Proto.Trip.{again, symbol_payload-written_payload}

abbrev as_number : ℕ → Number
as_number n = record { is_int64 = true; int64 = pos n; uint64 = n; uint32 = n % 2 ^ 32 }

as_number-uint32 : (n : ℕ) → n < 2 ^ 32 → (as_number n).uint32 ≡ n
as_number-uint32 n lt = omega arith

abbrev place_request : SymbolRequest
place_request = record {
  instance_id = 0;
  breakpoint_id = 0;
  filename = codes "top.sv";
  line_num = 42;
  column_num = 7;
  instance_name = [];
  name = [];
  req_type = get_breakpoints;
}

no_nul : c_str place_request.instance_name ≡ place_request.instance_name
unfolding c_str
no_nul = refl

symbol_payload-written_payload_example :
    again as_number get_instance_id (written_payload as_number place_request)
    ≡ (written_payload as_number place_request, [])
symbol_payload-written_payload_example =
    symbol_payload-written_payload as_number as_number-uint32 place_request get_instance_id
      (omega arith) (omega arith) (omega arith) (omega arith) no_nul

-- A breakpoint that is added without a line, which is undefined behaviour.
add_without_line :
    breakpoint_payload
      ((codes "filename", string (codes "top.sv")) ∷ (codes "action", string (codes "add")) ∷ [])
    ≡ undefined
unfolding breakpoint_payload get_member lookup text_eq
add_without_line = refl

-- A monitor request with an unknown action is a success that adds.
unknown_action :
    monitor_payload ((codes "action_type", string (codes "watch")) ∷ [])
    ≡ read
        (record {
          action_type = add;
          monitor_type = breakpoint;
          var_name = [];
          breakpoint_id = none;
          instance_id = none;
          track_id = 0;
          namespace_id = none;
        })
        (codes "Unknown action type watch")
unfolding monitor_payload get_member lookup text_eq
unknown_action = refl
