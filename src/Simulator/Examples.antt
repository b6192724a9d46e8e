-- ===== src/Simulator/Examples.antt =====
-- The theorems of the simulator client at a small design: a top with two instances of a child.
use hgdb.Prelude.{
  Text, codes, ℕ, zero, suc, ◌+◌, ◌*◌, ◌-◌, ◌^◌, ◌<◌, ltb, ◌≤◌, ◌≡◌, ◌⊎◌, refl, true, false, Option,
  none, some, List, [], ◌∷◌, arith, text_eq, if◌then◌else◌,
}
use hgdb.Prelude.Int.{pos, to_word}
use hgdb.Prelude.Maps.{lookup, contains, text_key, nat_key}
use hgdb.Eval.Debug.{Handle}
use hgdb.Symbols.{starts_with}
use hgdb.Simulator.{module_, Vpi, Client}
use hgdb.Simulator.Names.{get_path, get_full_name, full_name_of}
use hgdb.Simulator.Slices.{get_slice}
use hgdb.Simulator.Slices.Numbers.{get_slice_parts}
use hgdb.Simulator.Callbacks.{Register, monitor_signals}
use hgdb.Simulator.Callbacks.Table.{has_handle}
use hgdb.Simulator.Callbacks.Rollback.{
  AreNew, Registered, monitor_names, monitor_signals-Registered,
}

abbrev children : Option Handle → Option (List Handle)
children none = some (0 ∷ [])
children (some zero) = some (1 ∷ 2 ∷ [])
children (some (suc n)) = none

abbrev names : Handle → Text
names zero = codes "top"
names (suc zero) = codes "top.a"
names (suc (suc n)) = codes "top.b"

abbrev def_names : Handle → Text
def_names zero = codes "top"
def_names (suc n) = codes "child"

abbrev clock_handle : Text → Option Handle
clock_handle name = if text_eq name (codes "top.a.clk") then some 9 else none

abbrev design : Vpi
design = record {
  handle_by_name = clock_handle;
  handle_by_index = λ h i. none;
  get_type = λ h. module_;
  get_size = λ h. some 1;
  get_int = λ h. pos 1;
  get_bin_str = λ h. codes "1";
  get_hex_str = λ h. codes "1";
  get_string = λ h. codes "1";
  put_int = λ h v. true;
  full_name = names;
  def_name = def_names;
  modules = children;
  nets = λ h. none;
}

abbrev client : Client
client = record {
  handle_map = [];
  hierarchy_name_prefix = (codes "child", codes "top.a.");
  cb_handles = (codes "eval", 3) ∷ [];
  registered = 3 ∷ [];
  cached_vpi_types = [];
  cached_vpi_size = [];
  module_signals_cache = [];
  mock_slice_handles = [];
  mock_slice_handle_counter = 0;
  is_verilator = false;
}

get_slice_parts_example :
    (11 + 1 ≡ 2 ^ 32) × (get_slice (pos 2748) 11 4 ≡ (if ltb 4 64 then some (pos 0) else none))
    ⊎ (63 ≤ 11) × (11 + 1 < 2 ^ 32) × (get_slice (pos 2748) 11 4 ≡ none)
    ⊎ (11 < 63)
      × ((n above below : ℕ) × (get_slice (pos 2748) 11 4 ≡ some (pos n))
          × (n < 2 ^ (11 + 1 - 4))
          × (below < 2 ^ 4)
          × (to_word (pos 2748) ≡ above * 2 ^ (11 + 1) + n * 2 ^ 4 + below))
get_slice_parts_example = get_slice_parts (pos 2748) 11 4 (omega arith) (omega arith)

abbrev accepting : Register
accepting name = some 5

abbrev signals : List Text
signals = codes "child.clk" ∷ codes "child.rst" ∷ []

apart : (h : Handle) → some 5 ≡ some h → has_handle h client.cb_handles ≡ false
apart h e = ground arith

not_held : (h : Handle) → some 5 ≡ some h → contains h client.registered ≡ false
unfolding contains
not_held h e = ground arith

signals-AreNew : AreNew design accepting client client.cb_handles client.registered signals []
unfolding lookup get_full_name full_name_of get_path starts_with text_eq
signals-AreNew = (
  refl,
  λ h e. ((refl, apart h e, not_held h e), (refl, λ g e'. ((refl, apart g e', not_held g e'), tt))),
)

monitor_signals-Registered_example :
    Registered design accepting client client.cb_handles client.registered
      (monitor_names design accepting client client.cb_handles client.registered signals)
      (monitor_signals design accepting signals client)
monitor_signals-Registered_example =
    monitor_signals-Registered design accepting client signals signals-AreNew
