-- ===== src/Simulator/Hierarchy.antt =====
-- compute_instance_mapping of src/rtl.cc: a walk through the design, breadth first, that finds where
-- the tops are instantiated. The design is what vpi_iterate and vpi_scan give at vpiModule.
use hgdb.Prelude.{
  Text, codes, ℕ, zero, suc, ltb, Bool, false, ◌&&◌, not, if◌then◌else◌, Option, none, some, ◌>>=◌,
  List, [], ◌∷◌, ◌++◌, length, is_empty, text_eq,
}
use hgdb.Prelude.Maps.{lookup, assign, contains, insert, text_key}
use hgdb.Eval.Debug.{Handle}
use hgdb.Util.{get_tokens}
use hgdb.Simulator.{Vpi}
use hgdb.Simulator.Names.{get_path, match}

-- A top, and the prefix of the names in one of its instances.
abbrev pub IpMapping : Type 0
IpMapping = Text × Text

-- The loop over vpi_scan: each child is looked at and put into the queue.
unfoldable pub scan_children {ℓ} :
    {S : Type ℓ} → (Handle → S → Option S) → List Handle → S → Option S
scan_children visit [] s = some s
scan_children visit (h ∷ hs) s = visit h s >>= λ s'. scan_children visit hs s'

abbrev pub queued : List Handle → List (Option Handle)
queued [] = []
queued (h ∷ hs) = some h ∷ queued hs

abbrev pub children_of : Option (List Handle) → List Handle
children_of none = []
children_of (some hs) = hs

-- The walk with fuel for as many modules; the outer `none` means that the fuel has run out, the inner
-- one is undefined behaviour of a visit.
unfoldable pub walk {ℓ} :
    {S : Type ℓ}
    → (Option Handle → Option (List Handle))
    → (Handle → S → Option S)
    → ℕ
    → List (Option Handle)
    → S
    → Option (Option S)
unfolding scan_children
walk modules visit fuel [] s = some (some s)
walk modules visit zero (h ∷ queue) s = none
walk modules visit (suc fuel) (h ∷ queue) s =
    let children = children_of (modules h) in
    elim (scan_children visit children s) [
      | none ↦ some none
      | some s' ↦ walk modules visit fuel (queue ++ queued children) s'
    ]

-- A module whose definition is one of the tops is added, with a dot behind its name.
unfoldable pub visit_definition :
    Vpi → List Text → Handle → List IpMapping → Option (List IpMapping)
unfolding contains
visit_definition vpi top_names h result = some (
    if contains (vpi.def_name h) top_names
    then result ++ (vpi.def_name h, vpi.full_name h ++ codes ".") ∷ []
    else result)

abbrev top_names_of : List Text → List Text
top_names_of [] = []
top_names_of (name ∷ names) = insert (get_path name).0 (top_names_of names)

-- The first compute_hierarchy_name_prefix, on the definitions of the tops.
unfoldable pub mapping_of_definitions : Vpi → ℕ → List Text → Option (Option (List IpMapping))
unfolding walk visit_definition
mapping_of_definitions vpi fuel top_names =
    walk vpi.modules (visit_definition vpi top_names) fuel (none ∷ []) []

-- The first pass of the second one keeps the shortest path of each top.
unfoldable pub shortest_paths : List Text → List (Text × Text) → List (Text × Text)
unfolding get_path lookup assign
shortest_paths [] shortest = shortest
shortest_paths (name ∷ names) shortest =
    let (top, path) = get_path name in
    let kept : List (Text × Text) = elim (lookup top shortest) [
      | none ↦ assign top path shortest
      | some other ↦ if ltb (length path) (length other) then assign top path shortest else shortest
    ] in
    shortest_paths names kept

unfoldable pub map_tokens : List (Text × Text) → List (Text × List Text)
unfolding get_tokens
map_tokens [] = []
map_tokens ((top, path) ∷ rest) = (top, get_tokens path (codes ".")) ∷ map_tokens rest

-- What is found so far, and the tops without a path that have been found.
pub record Search : Type 0 where
  pub result : List IpMapping
  pub empty_top : List Text

abbrev add_mapping : Text → Text → Search → Search
add_mapping top prefix s = record s { result = s.result ++ (top, prefix) ∷ [] }

abbrev add_top : Text → Text → Search → Search
add_top top prefix s = record (add_mapping top prefix s) { empty_top = insert top s.empty_top }

abbrev single_token : List Text → Text → Bool
single_token (t ∷ []) top = text_eq t top
single_token _ top = false

abbrev add_match : Text → List Text → Text → Search → Option Search
add_match hierarchy_name path top s = match hierarchy_name path >>= λ (same, prefix).
    some (if same then add_mapping top prefix s else s)

-- One round of the loop over the tokens of the tops.
unfoldable pub visit_top : Bool → Text → Text → List Text → Search → Option Search
unfolding insert contains get_tokens match
visit_top is_verilator hierarchy_name top path s =
    let tokens = get_tokens hierarchy_name (codes ".") in
    let tested = add_match hierarchy_name path top s in
    if not (is_empty path)
    then tested
    else if contains top s.empty_top
    then some s
    else if ltb 1 (length tokens)
    then some (add_top top (hierarchy_name ++ codes ".") s)
    else if is_verilator && single_token tokens top
    then some (add_top top (codes "TOP." ++ hierarchy_name ++ codes ".") s)
    else tested

unfoldable pub visit_tops : Bool → Text → List (Text × List Text) → Search → Option Search
unfolding visit_top
visit_tops is_verilator hierarchy_name [] s = some s
visit_tops is_verilator hierarchy_name ((top, path) ∷ rest) s =
    visit_top is_verilator hierarchy_name top path s >>= λ s'.
    visit_tops is_verilator hierarchy_name rest s'

-- Verilator gives no modules at the root: the first top is mapped, and there must be one.
unfoldable pub mapping_without_modules : List (Text × Text) → Option (List IpMapping)
mapping_without_modules [] = none
mapping_without_modules ((top, path) ∷ rest) = some ((top, codes "TOP." ++ top ++ codes ".") ∷ [])

-- The second compute_hierarchy_name_prefix, on the names of the instances.
unfoldable pub mapping_of_instances : Vpi → Bool → ℕ → List Text → Option (Option (List IpMapping))
unfolding walk visit_tops shortest_paths map_tokens mapping_without_modules
mapping_of_instances vpi is_verilator fuel instances =
    let shortest = shortest_paths instances [] in
    let tops = map_tokens shortest in
    let start : Search = record { result = []; empty_top = [] } in
    let visit = λ (h : Handle) (s : Search). visit_tops is_verilator (vpi.full_name h) tops s in
    let walked : Option (Option (List IpMapping)) =
      walk vpi.modules visit fuel (none ∷ []) start >>= λ ended.
      some (ended >>= λ s. some s.result) in
    elim (vpi.modules none) [
      | none ↦ if is_verilator then some (mapping_without_modules shortest) else walked
      | some hs ↦ walked
    ]

-- Without definitions of modules the names of instances are used.
unfoldable pub compute_instance_mapping :
    Vpi → Bool → ℕ → List Text → Bool → Option (Option (List IpMapping))
unfolding mapping_of_definitions mapping_of_instances insert get_path
compute_instance_mapping vpi is_verilator fuel instance_names use_definition =
    if use_definition
    then mapping_of_definitions vpi fuel (top_names_of instance_names)
    else mapping_of_instances vpi is_verilator fuel instance_names
