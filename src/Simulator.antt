-- ===== src/Simulator.antt =====
-- RTLSimulatorClient of src/rtl.hh and src/rtl.cc: its state, and the caches before the simulator.
-- What the simulator answers is the record Vpi.
pub mod Names
pub mod Slices
pub mod Handles
pub mod Values
pub mod Hierarchy
pub mod Callbacks
mod Examples
use hgdb.Prelude.{Text, ℕ, Bool, true, false, Option, none, some, List, [], ◌∷◌}
use hgdb.Prelude.Int.{ℤ}
use hgdb.Prelude.Maps.{lookup, emplace, nat_key, text_key}
use hgdb.Eval.Debug.{Handle}

-- The types of objects that the client tells apart. `error` is vpiError.
pub data VpiType : Type 0 where
  module_ interface net reg reg_array reg_bit net_array net_bit : VpiType
  part_select memory_word memory struct_var struct_net parameter error other : VpiType

-- The answers of the simulator at one time: the functions of AVPIProvider at the properties that the
-- client asks for. `none` is a null pointer, or vpiUndefined for get_size.
pub record Vpi : Type 0 where
  pub handle_by_name : Text → Option Handle
  pub handle_by_index : Handle → ℕ → Option Handle
  pub get_type : Handle → VpiType
  pub get_size : Handle → Option ℕ
  pub get_int : Handle → ℤ
  pub get_bin_str : Handle → Text
  pub get_hex_str : Handle → Text
  pub get_string : Handle → Text
  pub put_int : Handle → ℤ → Bool
  pub full_name : Handle → Text
  pub def_name : Handle → Text
  pub modules : Option Handle → Option (List Handle)
  pub nets : Handle → Option (List (Text × Handle))

-- `mock_slice_handles` gives the parent, the highest and the lowest bit of a slice. `registered` is no
-- member of the class but what the simulator holds for it: the callbacks that vpi_register_cb gave and
-- vpi_remove_cb did not take back.
pub record Client : Type 0 where
  pub handle_map : List (Text × Handle)
  pub hierarchy_name_prefix : Text × Text
  pub cb_handles : List (Text × Handle)
  pub registered : List Handle
  pub cached_vpi_types : List (Handle × VpiType)
  pub cached_vpi_size : List (Handle × ℕ)
  pub module_signals_cache : List (Text × List (Text × Handle))
  pub mock_slice_handles : List (Handle × (Handle × ℕ × ℕ))
  pub mock_slice_handle_counter : Handle
  pub is_verilator : Bool

unfoldable pub set_mapping : Text → Text → Client → Client
set_mapping top prefix c = record c { hierarchy_name_prefix = (top, prefix) }

unfoldable pub get_vpi_type : Vpi → Option Handle → Client → VpiType × Client
get_vpi_type vpi none c = (error, c)
get_vpi_type vpi (some h) c = elim (lookup h c.cached_vpi_types) [
  | some t ↦ (t, c)
  | none ↦ (
    vpi.get_type h,
    record c { cached_vpi_types = emplace h (vpi.get_type h) c.cached_vpi_types },
  )
]

-- A size that is undefined is 0, and is not kept.
unfoldable pub get_vpi_size : Vpi → Option Handle → Client → ℕ × Client
get_vpi_size vpi none c = (0, c)
get_vpi_size vpi (some h) c = elim (lookup h c.cached_vpi_size) [
  | some n ↦ (n, c)
  | none ↦ elim (vpi.get_size h) [
    | none ↦ (0, c)
    | some n ↦ (n, record c { cached_vpi_size = emplace h n c.cached_vpi_size })
  ]
]

unfoldable pub get_handle_raw : Vpi → Text → Client → Option Handle × Client
get_handle_raw vpi name c = elim (lookup name c.handle_map) [
  | some h ↦ (some h, c)
  | none ↦ elim (vpi.handle_by_name name) [
    | none ↦ (none, c)
    | some h ↦ (some h, record c { handle_map = emplace name h c.handle_map })
  ]
]
