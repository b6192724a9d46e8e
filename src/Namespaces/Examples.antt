-- ===== src/Namespaces/Examples.antt =====
-- The theorem on the mapping at three namespaces of two definitions.
use hgdb.Prelude.{codes, Text, ◌≡◌, none, true, [], ◌∷◌, ℕ, text_eq}
use hgdb.Prelude.Maps.{lookup}
use hgdb.Interfaces.{Rtl}
use hgdb.Namespaces.{Namespace, Manager, compute_mapping}
use hgdb.Namespaces.Mapping.{indexes_at, compute_mapping-positions}

abbrev client : Rtl
client = record {
  get_full_name = λ name. name;
  is_valid_signal = λ name. true;
  get_handle = λ name. none;
  name_of_handle = λ h. [];
  get_clocks_from_design = [];
}

abbrev named : ℕ → Text → Namespace
named id name = record { id = id; def_name = name; mapping = (name, name); rtl = client }

abbrev three : Manager
three = record {
  namespaces = named 0 (codes "dut") ∷ named 1 (codes "ref") ∷ named 2 (codes "dut") ∷ [];
  mapped_namespaces = [];
}

compute_mapping-positions_example :
    indexes_at (codes "dut") (compute_mapping three).mapped_namespaces ≡ 0 ∷ 2 ∷ []
unfolding text_eq lookup
compute_mapping-positions_example = compute_mapping-positions three (codes "dut")
