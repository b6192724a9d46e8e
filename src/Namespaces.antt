-- ===== src/Namespaces.antt =====
-- src/namespace.hh and src/namespace.cc: one namespace for each place where the design is mapped to,
-- and the table from a definition's name to its namespaces. A pointer to a namespace is its index.
pub mod Mapping
mod Examples
use hgdb.Prelude.{
  Text, codes, ℕ, zero, suc, ◌-◌, if◌then◌else◌, Option, none, some, ◌>>=◌, List, [], ◌∷◌, ◌++◌,
  length, take, get_elem?, text_eq,
}
use hgdb.Prelude.Maps.{lookup, assign, text_key}
use hgdb.Interfaces.{Rtl}
use hgdb.Util.{get_tokens}

-- `mapping` is the pair that set_mapping stores in the client.
pub record Namespace : Type 0 where
  pub id : ℕ
  pub def_name : Text
  pub mapping : Text × Text
  pub rtl : Rtl

pub record Manager : Type 0 where
  pub namespaces : List Namespace
  pub mapped_namespaces : List (Text × List ℕ)

-- The id is the number of namespaces before; a new client has no mapping.
unfoldable pub add_namespace : Rtl → Manager → Manager
add_namespace rtl m = record m {
  namespaces =
      m.namespaces
      ++ record { id = length m.namespaces; def_name = []; mapping = ([], []); rtl = rtl } ∷ [];
}

unfoldable pub default_namespace : Manager → Option Namespace
default_namespace m = get_elem? m.namespaces 0

unfoldable pub default_rtl : Manager → Option Rtl
unfolding default_namespace
default_rtl m = default_namespace m >>= λ ns. some ns.rtl

-- mapped_namespaces_[def_name].emplace_back(id).
unfoldable pub map_namespace : Text → ℕ → List (Text × List ℕ) → List (Text × List ℕ)
map_namespace name i table = elim (lookup name table) [
  | none ↦ assign name (i ∷ []) table
  | some is ↦ assign name (is ++ i ∷ []) table
]

-- The loop of compute_mapping, from namespace `i` on.
unfoldable pub map_from : ℕ → List Namespace → List (Text × List ℕ) → List (Text × List ℕ)
unfolding map_namespace
map_from i [] table = table
map_from i (ns ∷ rest) table = map_from (suc i) rest (map_namespace ns.def_name i table)

unfoldable pub compute_mapping : Manager → Manager
unfolding map_from
compute_mapping m = record m { mapped_namespaces = map_from 0 m.namespaces m.mapped_namespaces }

-- The first loop of compute_instance_mapping: namespaces beside the default one.
unfoldable pub add_namespaces : ℕ → Rtl → Manager → Manager
unfolding add_namespace
add_namespaces zero rtl m = m
add_namespaces (suc n) rtl m = add_namespaces n rtl (add_namespace rtl m)

-- The second loop: namespaces_[i] must exist, else the behaviour is undefined.
unfoldable pub set_mappings : List (Text × Text) → List Namespace → Option (List Namespace)
set_mappings [] namespaces = some namespaces
set_mappings ((top, prefix) ∷ mapping) [] = none
set_mappings ((top, prefix) ∷ mapping) (ns ∷ rest) = set_mappings mapping rest >>= λ mapped.
    some (record ns { def_name = top; mapping = (top, prefix) } ∷ mapped)

-- `mapping` is what the default client computes for the instances of the symbol table.
unfoldable pub compute_instance_mapping : List (Text × Text) → Manager → Option Manager
unfolding default_rtl add_namespaces set_mappings compute_mapping
compute_instance_mapping mapping m = elim (default_rtl m) [
  | none ↦ some m
  | some rtl ↦
      let grown = add_namespaces (length mapping - 1) rtl m in
      set_mappings mapping grown.namespaces >>= λ mapped.
      some (compute_mapping (record grown { namespaces = mapped }))
]

-- The namespaces at a list of indexes.
unfoldable pub select : List Namespace → List ℕ → List Namespace
select namespaces [] = []
select namespaces (i ∷ is) = elim (get_elem? namespaces i) [
  | none ↦ select namespaces is
  | some ns ↦ ns ∷ select namespaces is
]

abbrev pub or_empty : Option (List ℕ) → List ℕ
or_empty none = []
or_empty (some is) = is

-- get_namespaces: element 0 of the tokens must exist, else the behaviour is undefined.
unfoldable pub get_namespaces : Manager → Option Text → Option (List Namespace)
unfolding select
get_namespaces m none = some []
get_namespaces m (some instance_name) =
    get_elem? (get_tokens instance_name (codes ".")) 0 >>= λ def_name.
    some (select m.namespaces (or_empty (lookup def_name m.mapped_namespaces)))

-- rtl_name.substr(0, rtl_name.size() - 1); on an empty name the count wraps and nothing is cut.
abbrev drop_last : Text → Text
drop_last [] = []
drop_last (c ∷ s) = take (length s) (c ∷ s)

unfoldable pub look_up_in : Text → List Namespace → Option Namespace
look_up_in full_name [] = none
look_up_in full_name (ns ∷ rest) =
    if text_eq full_name (drop_last ns.mapping.1) then some ns else look_up_in full_name rest

unfoldable pub look_up : Text → Manager → Option Namespace
unfolding look_up_in
look_up full_name m = look_up_in full_name m.namespaces
