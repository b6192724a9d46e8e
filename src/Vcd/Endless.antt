-- ===== src/Vcd/Endless.antt =====
-- Sections of a trace that are not ended.
use hgdb.Prelude.{
  Text, codes, ℕ, zero, suc, ◌≡◌, refl, ap, ◌∙◌, true, false, if◌then◌else◌, [], ◌∷◌, ◌++◌, text_eq,
}
use hgdb.Vcd.{Stream, next_token, read_token, VcdParser, MetaType, tellg, meta_info}
use hgdb.Vcd.Parser.{
  out_of_fuel, meta_from, parse_meta, section_values, section_line, end_str, returned, emit, scalar,
  vector, add_value, add_vector,
}

next_token-ended : (s : Stream) → s.at_end ≡ true → next_token s ≡ ([], s)
unfolding next_token
next_token-ended s ended = ap (λ b. if b then ([], s) else read_token [] s.ahead s.position) ended

abbrev reading : VcdParser → Stream → VcdParser
reading p s = record p { stream = s }

meta_from-out_of_fuel :
    (n start : ℕ) (type : MetaType) (value : Text) (p : VcdParser)
    → p.stream.at_end ≡ true
    → meta_from n type start value p ≡ out_of_fuel
unfolding meta_from text_eq
meta_from-out_of_fuel zero start type value p ended = refl
meta_from-out_of_fuel (suc n) start type value p ended =
    ap
      (λ (x : Text × Stream). elim (text_eq x.0 end_str) [
        | true ↦ returned true (emit (meta_info type value start (tellg x.1)) (reading p x.1))
        | false ↦ meta_from n type start (value ++ (codes " " ++ x.0)) (reading p x.1)
      ])
      (next_token-ended p.stream ended)
    ∙ meta_from-out_of_fuel n start type (value ++ (codes " " ++ [])) p ended

section_values-out_of_fuel :
    (n start time : ℕ) (p : VcdParser)
    → p.stream.at_end ≡ true
    → section_values n start time p ≡ out_of_fuel
unfolding section_values text_eq
section_values-out_of_fuel zero start time p ended = refl
section_values-out_of_fuel (suc n) start time p ended =
    ap
      (λ (x : Text × Stream). elim (text_eq x.0 end_str) [
        | true ↦ returned true (reading p x.1)
        | false ↦ elim (section_line x.0) [
          | scalar c identifier ↦
              section_values n start time
                (add_value start time identifier (c ∷ []) true (reading p x.1))
          | vector value ↦ section_values n start time (add_vector start time value (reading p x.1))
          | _ ↦ section_values n start time (reading p x.1)
        ]
      ])
      (next_token-ended p.stream ended)
    ∙ section_values-out_of_fuel n start time p ended

-- Behind a read beyond the end, a section of text such as $comment, or of values such as $dumpvars,
-- never ends, however much fuel there is.
pub unterminated-out_of_fuel :
    (n start time : ℕ) (type : MetaType) (p : VcdParser)
    → p.stream.at_end ≡ true
    → (parse_meta n type p ≡ out_of_fuel) × (section_values n start time p ≡ out_of_fuel)
unfolding parse_meta
unterminated-out_of_fuel n start time type p ended = (
  meta_from-out_of_fuel n (tellg p.stream) type [] p ended,
  section_values-out_of_fuel n start time p ended,
)
