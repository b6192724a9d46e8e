-- ===== src/Vcd/Parser.antt =====
-- VCDParser of tools/vcd/vcd.cc, on fuel for the tokens. All callbacks are set.
use hgdb.Prelude.{
  Text, codes, ℕ, zero, suc, ◌-◌, ◌%◌, ◌^◌, ◌==◌, ltb, Bool, true, false, ◌||◌, if◌then◌else◌,
  Option, none, some, ◌>>=◌, [], ◌∷◌, ◌++◌, text_eq,
}
use hgdb.Prelude.Int.{ℤ, pos, negsuc, to_word}
use hgdb.Eval.Lexer.{skip_spaces}
use hgdb.Util.Numbers.{stol, read_digits}
use hgdb.Vcd.{
  tellg, next_token, MetaType, date, version, timescale, comment, Event, meta_info, enter_scope,
  exit_scope, var_def, definition_finished, time_change, value_change, dump_var_action, VcdParser,
}

abbrev pub end_str : Text
end_str = codes "$end"

-- What a run of the parser comes to: `none` of the fuel, an exception, or a result and the parser.
pub data Run : Type 0 where
  out_of_fuel thrown : Run
  returned : Bool → VcdParser → Run

-- A step that returns false ends the parse.
abbrev pub and_then : Run → (VcdParser → Run) → Run
and_then (returned true p) next = next p
and_then run next = run

abbrev pub take_token : VcdParser → Text × VcdParser
take_token p = let (token, s) = next_token p.stream in (token, record p { stream = s })

abbrev pub emit : Event → VcdParser → VcdParser
emit e p = record p { events = e ∷ p.events }

abbrev pub check_end : Text → VcdParser → Run
check_end token p =
    if text_eq token end_str
    then returned true p
    else returned false (record p {
      error_message = codes "Illegal VCD file " ++ (p.filename ++ 10 ∷ codes "  Missing $end");
    })

-- The loop of parse_meta over the tokens up to $end, at least one for each unit of fuel.
unfoldable pub meta_from : ℕ → MetaType → ℕ → Text → VcdParser → Run
unfolding next_token text_eq
meta_from zero type start value p = out_of_fuel
meta_from (suc n) type start value p =
    let (token, p₁) = take_token p in
    elim (text_eq token end_str) [
      | true ↦ returned true (emit (meta_info type value start (tellg p₁.stream)) p₁)
      | false ↦ meta_from n type start (value ++ (codes " " ++ token)) p₁
    ]

unfoldable pub parse_meta : ℕ → MetaType → VcdParser → Run
unfolding meta_from
parse_meta n type p = meta_from n type (tellg p.stream) [] p

unfoldable pub parse_scope_def : VcdParser → Run
unfolding next_token text_eq
parse_scope_def p =
    let (type, p₁) = take_token p in
    let (name, p₂) = take_token p₁ in
    let (token, p₃) = take_token p₂ in
    if text_eq token end_str
    then returned true (emit (enter_scope type name (tellg p.stream) (tellg p₃.stream)) p₃)
    else returned false (record p₃ { error_message = codes "Illegal VCD file" })

-- std::stoul: a number from 2^64 on throws, a negative one wraps around.
abbrev pub unsigned : Text → Option ℕ
unsigned [] = none
unsigned (c ∷ s) =
    if c == b'-'
    then (read_digits s >>= λ n. if ltb n (2 ^ 64) then some ((2 ^ 64 - n) % 2 ^ 64) else none)
    else (read_digits (if c == b'+' then s else c ∷ s) >>= λ n.
        if ltb n (2 ^ 64) then some n else none)

unfoldable pub std_stoul : Text → Option ℕ
unfolding skip_spaces read_digits
std_stoul s = unsigned (skip_spaces s)

-- The end of parse_var_def behind the name, with or without a slice. The width has 32 bits.
abbrev var_slice : Text → ℕ → Text → Text → ℕ → VcdParser → Run
var_slice type width identifier name start p =
    let (token, p₁) = take_token p in
    let (after, p₂) = take_token p₁ in
    if text_eq token end_str
    then returned true (emit (var_def type width identifier name [] start (tellg p₁.stream)) p₁)
    else if text_eq after end_str
    then returned true (emit (var_def type width identifier name token start (tellg p₂.stream)) p₂)
    else returned false p₂

unfoldable pub parse_var_def : VcdParser → Run
unfolding next_token text_eq std_stoul
parse_var_def p =
    let (type, p₁) = take_token p in
    let (width, p₂) = take_token p₁ in
    let (identifier, p₃) = take_token p₂ in
    let (name, p₄) = take_token p₃ in
    elim (std_stoul width) [
      | none ↦ thrown
      | some w ↦ var_slice type (w % 2 ^ 32) identifier name (tellg p.stream) p₄
    ]

-- What a token of the values begins: a time, a value of one bit, a value of several bits, a section of
-- values, or something that is passed over.
pub data Line : Type 0 where
  time_line : Text → Line
  scalar : ℕ → Text → Line
  vector : Text → Line
  section : Line
  ignored : Line

abbrev pub is_section : Text → Bool
is_section token =
    text_eq token (codes "$dumpvars")
    || (text_eq token (codes "$dumpall")
        || (text_eq token (codes "$dumpon") || text_eq token (codes "$dumpoff")))

abbrev pub is_scalar : ℕ → Bool
is_scalar c = c == b'0' || (c == b'1' || (c == b'x' || c == b'z'))

unfoldable pub classify : ℕ → Text → Line
unfolding text_eq
classify c rest =
    if c == b'#'
    then time_line rest
    else if is_scalar c
    then scalar c rest
    else if c == b'b'
    then vector rest
    else if is_section (c ∷ rest)
    then section
    else ignored

-- The lambda add_value.
abbrev pub add_value : ℕ → ℕ → Text → Text → Bool → VcdParser → VcdParser
add_value start time identifier value is_event p =
    emit (value_change time identifier value is_event start (tellg p.stream)) p

-- A value of several bits, whose identifier is the next token.
abbrev pub add_vector : ℕ → ℕ → Text → VcdParser → VcdParser
add_vector start time value p =
    let (identifier, p₁) = take_token p in add_value start time identifier value false p₁

-- A token in a section; of an empty one token[0] is the zero byte.
abbrev pub section_line : Text → Line
section_line [] = ignored
section_line (c ∷ rest) = classify c rest

-- The inner loop, to the end of a section, with the start of the section for all its values.
unfoldable pub section_values : ℕ → ℕ → ℕ → VcdParser → Run
unfolding next_token text_eq classify
section_values zero start time p = out_of_fuel
section_values (suc n) start time p =
    let (token, p₁) = take_token p in
    elim (text_eq token end_str) [
      | true ↦ returned true p₁
      | false ↦ elim (section_line token) [
        | scalar c identifier ↦
            section_values n start time (add_value start time identifier (c ∷ []) true p₁)
        | vector value ↦ section_values n start time (add_vector start time value p₁)
        | _ ↦ section_values n start time p₁
      ]
    ]

-- std::stoi on the text of a time, which is converted to 64 unsigned bits.
abbrev pub fits_int : ℤ → Bool
fits_int (pos n) = ltb n (2 ^ 31)
fits_int (negsuc n) = ltb n (2 ^ 31)

unfoldable pub timestamp_of : Text → Option ℕ
unfolding stol to_word
timestamp_of s = stol s >>= λ v. if fits_int v then some (to_word v) else none

-- What one token comes to, from the start of it; `next` is the loop behind it, from a time on.
unfoldable pub values_line : (ℕ → VcdParser → Run) → ℕ → ℕ → ℕ → Text → VcdParser → Run
unfolding next_token classify section_values timestamp_of
values_line next n start time [] p = returned true p
values_line next n start time (c ∷ rest) p = elim (classify c rest) [
  | time_line digits ↦ elim (timestamp_of digits) [
    | none ↦ thrown
    | some t ↦ next t (emit (time_change t) p)
  ]
  | scalar d identifier ↦ next time (add_value start time identifier (d ∷ []) true p)
  | vector value ↦ next time (add_vector start time value p)
  | section ↦
      and_then (section_values n start time (emit (dump_var_action (c ∷ rest)) p)) (next time)
  | ignored ↦ next time p
]

unfoldable pub values_from : ℕ → ℕ → VcdParser → Run
unfolding next_token values_line
values_from zero time p = out_of_fuel
values_from (suc n) time p =
    let (token, p₁) = take_token p in values_line (values_from n) n (tellg p.stream) time token p₁

unfoldable pub parse_vcd_values : ℕ → VcdParser → Run
unfolding values_from
parse_vcd_values n p = values_from n 0 p

-- sv_map.
pub data Keyword : Type 0 where
  meta : MetaType → Keyword
  scope upscope var enddefinitions : Keyword

unfoldable pub keyword : Text → Option Keyword
unfolding text_eq
keyword token =
    if text_eq token (codes "$date")
    then some (meta date)
    else if text_eq token (codes "$version")
    then some (meta version)
    else if text_eq token (codes "$timescale")
    then some (meta timescale)
    else if text_eq token (codes "$comment")
    then some (meta comment)
    else if text_eq token (codes "$scope")
    then some scope
    else if text_eq token (codes "$upscope")
    then some upscope
    else if text_eq token (codes "$var")
    then some var
    else if text_eq token (codes "$enddefinitions")
    then some enddefinitions
    else none

-- The cases of the switch in parse.
unfoldable pub parse_keyword : ℕ → Keyword → VcdParser → Run
unfolding parse_meta parse_scope_def parse_var_def parse_vcd_values next_token
parse_keyword n (meta type) p = parse_meta n type p
parse_keyword n scope p = parse_scope_def p
parse_keyword n upscope p =
    let (token, p₁) = take_token p in
    and_then (check_end token p₁) (λ p₂. returned true (emit exit_scope p₂))
parse_keyword n var p = parse_var_def p
parse_keyword n enddefinitions p =
    let (token, p₁) = take_token p in
    and_then (check_end token p₁) (λ p₂. parse_vcd_values n (emit definition_finished p₂))

unfoldable pub parse_from : ℕ → VcdParser → Run
unfolding next_token keyword parse_keyword
parse_from zero p = out_of_fuel
parse_from (suc n) p =
    let (token, p₁) = take_token p in
    elim token [
      | [] ↦ returned true p₁
      | c ∷ rest ↦ elim (keyword (c ∷ rest)) [
        | none ↦
            returned false
              (record p₁ { error_message = codes "Unable to find token: " ++ c ∷ rest })
        | some k ↦ and_then (parse_keyword n k p₁) (parse_from n)
      ]
    ]

unfoldable pub parse : ℕ → VcdParser → Run
unfolding parse_from
parse n p = if p.has_error then returned false p else parse_from n p
