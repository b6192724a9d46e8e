-- ===== src/Vcd/Examples.antt =====
-- The theorems of the trace's parser at a small trace.
use hgdb.Prelude.{Text, codes, ◌≡◌, refl, Bool, true, false, some, List, [], ◌∷◌, ◌++◌, All, arith}
use hgdb.Eval.Lexer.{skip_spaces, span}
use hgdb.Prelude.Int.{to_word}
use hgdb.Util.Numbers.{stol, read_digits, decimal_from}
use hgdb.Vcd.{VcdParser, comment, next_token, read_token}
use hgdb.Vcd.Parser.{
  returned, out_of_fuel, parse_meta, parse_vcd_values, section_values, timestamp_of,
}
use hgdb.Vcd.Values.{
  Change, at, bit, bits, IsChange, print, seen, told_onto, parse_vcd_values-print,
}
use hgdb.Vcd.Endless.{unterminated-out_of_fuel}

abbrev parser_on : Text → Bool → VcdParser
parser_on text ended = record {
  filename = codes "waves.vcd";
  stream = record { ahead = text; position = 0; at_end = ended };
  events = [];
  error_message = [];
  has_error = false;
}

abbrev lines : List Change
lines =
    bit b'0' (codes "!")
    ∷ at (codes "10") 10
    ∷ bit b'1' (codes "!")
    ∷ bits (codes "1010") b'"' []
    ∷ []

ten : timestamp_of (codes "10") ≡ some 10
unfolding timestamp_of stol skip_spaces span read_digits decimal_from to_word
ten = refl

lines-All : All IsChange lines
lines-All = (
  (refl, (refl, tt)),
  (
    ((refl, (refl, tt)), ten),
    ((refl, (refl, tt)), (((refl, (refl, (refl, (refl, tt)))), (refl, tt)), tt)),
  ),
)

parse_vcd_values-print_example :
    (q : VcdParser) × (parse_vcd_values 6 (record (parser_on [] false) {
      stream = record { ahead = print lines; position = 100; at_end = false };
    })
      ≡ returned true q)
    × (seen q.events ≡ told_onto 0 lines [])
parse_vcd_values-print_example =
    parse_vcd_values-print lines 6 100 (parser_on [] false) lines-All (omega arith)

unterminated-out_of_fuel_example :
    (parse_meta 100 comment (parser_on [] true) ≡ out_of_fuel)
    × (section_values 100 0 5 (parser_on [] true) ≡ out_of_fuel)
unterminated-out_of_fuel_example = unterminated-out_of_fuel 100 0 5 comment (parser_on [] true) refl

-- The last identifier of a trace that does not end with a blank gets a zero byte.
last_token :
    (next_token (record { ahead = codes "1!"; position = 0; at_end = false })).0
    ≡ codes "1!" ++ 0 ∷ []
unfolding next_token read_token
last_token = refl
