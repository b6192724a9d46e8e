-- ===== src/Proto/Results.antt =====
-- SymbolResponse::parse of src/proto.cc: what a remote symbol table answers. A value of the library
-- rapidjson is of any type `J`; the record Json is what the library answers on it.
use hgdb.Prelude.{
  Text, codes, ℕ, ◌%◌, ◌^◌, Bool, false, [], ◌∷◌, ◌++◌, ◌&&◌, ◌||◌, is_some, if◌then◌else◌, Option,
  none, some, ◌>>=◌, text_eq, List,
}
use hgdb.Interfaces.{BreakPoint}
use hgdb.Proto.{Document}
use hgdb.Proto.Rows.{
  VariableRow, ContextRow, GeneratorRow, text_or_empty, parse_breakpoint, parse_variable,
  parse_context_variable, parse_generator_variable,
}
use hgdb.Proto.Symbols.{
  SymbolQuery, get_breakpoint, get_breakpoints, get_instance_name, get_instance_id,
  get_context_variables, get_generator_variables, get_instance_names, get_annotation_values,
  get_all_array_names, get_filenames, get_execution_bp_orders, get_assigned_breakpoints,
}

-- The value as an array, an object, a C string or a number, where it is one; the members of an object, in
-- their order, as values; and an object as a document.
pub record Json (J : Type 0) : Type 0 where
  pub elements : J → Option (List J)
  pub members : J → Option (List (Text × J))
  pub as_document : J → Option Document
  pub text : J → Option Text
  pub number : J → Option ℕ

-- The results. A loop that returns early keeps what it has read.
pub record SymbolResponse : Type 0 where
  pub str_result : Option Text
  pub bp_results : List BreakPoint
  pub bp_result : Option BreakPoint
  pub uint64_t_result : Option ℕ
  pub context_vars_result : List (ContextRow × VariableRow)
  pub gen_vars_result : List (GeneratorRow × VariableRow)
  pub str_results : List Text
  pub uint64_t_results : List ℕ
  pub var_result : List (ℕ × Text × Text)

-- What an object of an assigned breakpoint has been read as.
pub record AssignedRow : Type 0 where
  pub breakpoint_id : Option ℕ
  pub var_name : Option Text
  pub condition : Option Text

abbrev is_one_of : Text → List Text → Bool
is_one_of key [] = false
is_one_of key (name ∷ names) = text_eq key name || is_one_of key names

-- A loop whose body returns on a value that it cannot read.
abbrev read_while {ℓ} : {J : Type 0} {A : Type ℓ} → (J → Option A) → List J → List A
read_while f [] = []
read_while f (j ∷ js) = let rest = read_while f js in elim (f j) [ none ↦ [] | some a ↦ a ∷ rest ]

module _ {J : Type 0} (json : Json J) where
  -- The outer option is undefined behaviour: HasMember on a value that is no object.
  abbrev row_of {ℓ} : {A : Type ℓ} → (Document → Option A) → J → Option (Option A)
  row_of parse j = json.as_document j >>= λ d. some (parse d)

  -- The loop of get_breakpoints, which passes over what it cannot read.
  abbrev breakpoints_in : List J → Option (List BreakPoint)
  unfolding parse_breakpoint
  breakpoints_in [] = some []
  breakpoints_in (entry ∷ entries) = do
    bp ← row_of parse_breakpoint entry
    bps ← breakpoints_in entries
    some (elim bp [ none ↦ bps | some b ↦ b ∷ bps ])

  abbrev texts_of : Option (List J) → SymbolResponse → SymbolResponse
  texts_of none r = r
  texts_of (some entries) r = record r {
    str_results = r.str_results ++ read_while json.text entries;
  }

  -- The loop over pairs of a row and its variable. The second row is read where the first one was.
  abbrev with_variable {ℓ} :
      {A : Type ℓ}
      → Option (List (A × VariableRow))
      → A
      → Option (Option VariableRow)
      → Option (List (A × VariableRow))
  with_variable rest a none = none
  with_variable rest a (some none) = some []
  with_variable rest a (some (some v)) = rest >>= λ more. some ((a, v) ∷ more)

  abbrev with_row {ℓ} :
      {A : Type ℓ}
      → Option (List (A × VariableRow))
      → J
      → Option (Option A)
      → Option (List (A × VariableRow))
  unfolding parse_variable
  with_row rest v none = none
  with_row rest v (some none) = some []
  with_row rest v (some (some a)) = with_variable rest a (row_of parse_variable v)

  abbrev with_pair {ℓ} :
      {A : Type ℓ}
      → (Document → Option A)
      → Option (List (A × VariableRow))
      → Option (List J)
      → Option (List (A × VariableRow))
  unfolding parse_variable
  with_pair parse rest (some (c ∷ v ∷ [])) = with_row rest v (row_of parse c)
  with_pair parse rest _ = some []

  abbrev pairs_in {ℓ} :
      {A : Type ℓ} → (Document → Option A) → List J → Option (List (A × VariableRow))
  unfolding parse_variable
  pairs_in parse [] = some []
  pairs_in parse (entry ∷ entries) =
      let rest = pairs_in parse entries in with_pair parse rest (json.elements entry)

  -- GetString of a value that is no string is undefined behaviour.
  abbrev assign_member : Text → J → AssignedRow → Option AssignedRow
  assign_member key value a =
      if is_one_of key (codes "id" ∷ codes "breakpoint_id" ∷ []) && is_some (json.number value)
      then (json.number value >>= λ n. some (record a { breakpoint_id = some (n % 2 ^ 32) }))
      else if is_one_of key
            (codes "var" ∷ codes "value" ∷ codes "var_name" ∷ codes "variable_name" ∷ [])
          || is_some (json.text value)
      then (json.text value >>= λ s. some (record a { var_name = some s }))
      else if is_one_of key (codes "condition" ∷ codes "cond" ∷ []) && is_some (json.text value)
      then (json.text value >>= λ s. some (record a { condition = some s }))
      else some a

  abbrev assign_members : List (Text × J) → AssignedRow → Option AssignedRow
  assign_members [] a = some a
  assign_members ((key, value) ∷ rest) a = assign_member key value a >>= assign_members rest

  abbrev assigned_row : AssignedRow → Option (ℕ × Text × Text)
  assigned_row a =
      a.breakpoint_id >>= λ id. a.var_name >>= λ name. some (id, name, text_or_empty a.condition)

  -- The loop of get_assigned_breakpoints.
  abbrev assigned_in : List J → Option (List (ℕ × Text × Text))
  assigned_in [] = some []
  assigned_in (entry ∷ entries) =
      let rest = assigned_in entries in
      elim (json.members entry) [
        | none ↦ some []
        | some values ↦
            assign_members values
              (record { breakpoint_id = none; var_name = none; condition = none })
            >>= λ a. elim (assigned_row a) [
              | none ↦ some []
              | some row ↦ rest >>= λ rows. some (row ∷ rows)
            ]
      ]

  -- The results for the query of the response; a result of another type leaves them as they are.
  unfoldable pub parse_result : SymbolQuery → J → SymbolResponse → Option SymbolResponse
  unfolding parse_breakpoint parse_variable parse_context_variable parse_generator_variable
  parse_result get_breakpoint result r = elim (json.as_document result) [
    | none ↦ some r
    | some d ↦ some (record r { bp_result = parse_breakpoint d })
  ]
  parse_result get_breakpoints result r = elim (json.elements result) [
    | none ↦ some r
    | some entries ↦
        breakpoints_in entries >>= λ bps. some (record r { bp_results = r.bp_results ++ bps })
  ]
  parse_result get_instance_name result r = elim (json.text result) [
    | none ↦ some r
    | some s ↦ some (record r { str_result = some s })
  ]
  parse_result get_instance_id result r = elim (json.number result) [
    | none ↦ some r
    | some n ↦ some (record r { uint64_t_result = some n })
  ]
  parse_result get_context_variables result r = elim (json.elements result) [
    | none ↦ some r
    | some entries ↦ pairs_in parse_context_variable entries >>= λ vars.
        some (record r { context_vars_result = r.context_vars_result ++ vars })
  ]
  parse_result get_generator_variables result r = elim (json.elements result) [
    | none ↦ some r
    | some entries ↦ pairs_in parse_generator_variable entries >>= λ vars.
        some (record r { gen_vars_result = r.gen_vars_result ++ vars })
  ]
  parse_result get_execution_bp_orders result r = elim (json.elements result) [
    | none ↦ some r
    | some entries ↦
        let ids = read_while (λ j. json.number j >>= λ n. some (n % 2 ^ 32)) entries in
        some (record r { uint64_t_results = r.uint64_t_results ++ ids })
  ]
  parse_result get_assigned_breakpoints result r = elim (json.elements result) [
    | none ↦ some r
    | some entries ↦
        assigned_in entries >>= λ rows. some (record r { var_result = r.var_result ++ rows })
  ]
  parse_result get_all_array_names result r = some (texts_of (json.elements result) r)
  parse_result get_annotation_values result r = some (texts_of (json.elements result) r)
  parse_result get_filenames result r = some (texts_of (json.elements result) r)
  parse_result get_instance_names result r = some (texts_of (json.elements result) r)
