-- ===== src/Proto/Trip.antt =====
-- SymbolRequest of src/proto.cc: str and parse_payload.
use hgdb.Prelude.{Text, codes, ℕ, ◌<◌, ◌^◌, ◌≡◌, arith, sym, subst, refl, ap, ◌∙◌, text_eq, [], ◌∷◌}
use hgdb.Prelude.Maps.{lookup, contains_key, text_key}
use hgdb.Proto.{c_str, Document, Number, string, number, get_member}
use hgdb.Proto.Symbols.{
  SymbolQuery, get_breakpoint, get_breakpoints, get_instance_name, get_instance_id,
  get_context_variables, get_generator_variables, get_instance_names, get_annotation_values,
  get_all_array_names, get_filenames, get_execution_bp_orders, get_assigned_breakpoints,
  SymbolRequest, query_to_string, query_of, read_query, symbol_payload, written_query,
  written_payload, written_instance,
}

-- A request as it is constructed.
abbrev pub new_request : SymbolQuery → SymbolRequest
new_request query = record {
  instance_id = 0;
  breakpoint_id = 0;
  filename = [];
  line_num = 0;
  column_num = 0;
  instance_name = [];
  name = [];
  req_type = query;
}

c_str_again : (s : Text) → c_str (c_str s) ≡ c_str s
unfolding c_str
c_str_again [] = refl
c_str_again (c ∷ s) = ground (arith, c_str_again s)

module _ (written : ℕ → Number) where
  abbrev typed : SymbolQuery → Document → Document
  unfolding query_to_string
  typed query d = (codes "type", string (query_to_string query)) ∷ d

  -- What is read of a payload, written again, with the error.
  abbrev pub again : SymbolQuery → Document → Document × Text
  unfolding symbol_payload written_payload
  again query d =
      let (request, error) = symbol_payload d (new_request query) in
      (written_payload written request, error)

  -- One member that is a number.
  abbrev numbered : SymbolQuery → Text → ℕ → Document × Text
  unfolding query_to_string
  numbered query key n = (typed query ((key, number (written n)) ∷ []), [])

  -- The place that get_breakpoints asks for.
  abbrev placed : Text → ℕ → ℕ → Document × Text
  unfolding query_to_string
  placed filename line col = (
    typed get_breakpoints (
        (codes "filename", string filename)
        ∷ (codes "line_num", number (written line))
        ∷ (codes "col_num", number (written col))
        ∷ []),
    [],
  )

  -- What get_assigned_breakpoints asks for.
  abbrev assigned : Text → ℕ → Document × Text
  unfolding query_to_string
  assigned name id = (
    typed get_assigned_breakpoints
        ((codes "name", string name) ∷ (codes "breakpoint_id", number (written id)) ∷ []),
    [],
  )

  -- An instance's name.
  abbrev named : Text → Document × Text
  unfolding query_to_string
  named name = (typed get_instance_id ((codes "instance_name", string name) ∷ []), [])

  module _ (h : (n : ℕ) → n < 2 ^ 32 → (written n).uint32 ≡ n) where
    again-instance :
        (id : ℕ) (name : Text) (from : SymbolQuery)
        → id < 2 ^ 32
        → c_str name ≡ name
        → again from (
            typed get_instance_id
              (written_instance written (record (new_request from) { breakpoint_id = id }) name))
          ≡ (
            typed get_instance_id
                (written_instance written (record (new_request from) { breakpoint_id = id }) name),
            [],
          )
    unfolding symbol_payload written_payload written_query query_to_string query_of read_query
        get_member contains_key lookup text_eq c_str
    again-instance id [] from lt whole =
        ap (numbered get_instance_id (codes "breakpoint_id")) (h id lt)
    again-instance id (c ∷ name) from lt whole =
        subst
          (λ s.
            again from (typed get_instance_id ((codes "instance_name", string s) ∷ [])) ≡ named s)
          (sym whole) (ap named whole)

    -- A request whose numbers have 32 bits, and whose instance's name has no NUL, is read again, into a new request of any query, without an
    -- error and so that it writes the same payload. What is assumed of the library is that a number
    -- of 32 bits that was written is read as itself.
    pub symbol_payload-written_payload :
        (r : SymbolRequest) (from : SymbolQuery)
        → r.instance_id < 2 ^ 32
        → r.breakpoint_id < 2 ^ 32
        → r.line_num < 2 ^ 32
        → r.column_num < 2 ^ 32
        → c_str r.instance_name ≡ r.instance_name
        → again from (written_payload written r) ≡ (written_payload written r, [])
    unfolding symbol_payload written_payload written_query query_to_string query_of read_query
        get_member contains_key lookup text_eq c_str
    symbol_payload-written_payload r from i b l c whole = by_query r.req_type
      where
        by_query :
            (query : SymbolQuery)
            → again from (typed query (written_query written r query))
              ≡ (typed query (written_query written r query), [])
        by_query get_instance_name =
            ap (numbered get_instance_name (codes "instance_id")) (h r.instance_id i)
        by_query get_generator_variables =
            ap (numbered get_generator_variables (codes "instance_id")) (h r.instance_id i)
        by_query get_breakpoint =
            ap (numbered get_breakpoint (codes "breakpoint_id")) (h r.breakpoint_id b)
        by_query get_context_variables =
            ap (numbered get_context_variables (codes "breakpoint_id")) (h r.breakpoint_id b)
        by_query get_instance_id = again-instance r.breakpoint_id r.instance_name from b whole
        by_query get_instance_names = refl
        by_query get_all_array_names = refl
        by_query get_filenames = refl
        by_query get_execution_bp_orders = refl
        by_query get_annotation_values =
            ap (λ s. (typed get_annotation_values ((codes "name", string s) ∷ []), []))
              (c_str_again r.name)
        by_query get_assigned_breakpoints =
            ap (λ s. assigned s (written r.breakpoint_id).uint32) (c_str_again r.name)
            ∙ ap (assigned (c_str r.name)) (h r.breakpoint_id b)
        by_query get_breakpoints =
            ap (λ s. placed s (written r.line_num).uint32 (written r.column_num).uint32)
              (c_str_again r.filename)
            ∙ ap (λ n. placed (c_str r.filename) n (written r.column_num).uint32) (h r.line_num l)
            ∙ ap (placed (c_str r.filename) r.line_num) (h r.column_num c)
