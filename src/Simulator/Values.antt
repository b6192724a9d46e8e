-- ===== src/Simulator/Values.antt =====
-- The values of src/rtl.cc: get_value, get_str_value, set_value and get_signal_width. `none` as the
-- result of an operation is undefined behaviour or an exception; no value is an inner `none`.
use hgdb.Prelude.{
  Text, codes, ℕ, ◌-◌, ◌%◌, ◌^◌, ltb, ◌==◌, Bool, true, false, if◌then◌else◌, Option, none, some,
  ◌>>=◌, List, [], ◌∷◌, ◌++◌,
}
use hgdb.Prelude.Int.{ℤ, pos, negsuc, to_word}
use hgdb.Prelude.Maps.{lookup, emplace, nat_key, text_key}
use hgdb.Eval.Debug.{Handle}
use hgdb.Simulator.{Vpi, Client, get_vpi_type, get_vpi_size}
use hgdb.Simulator.Handles.{get_handle, is_module}
use hgdb.Simulator.Slices.{get_slice, get_slice_str}

-- A value of the simulator is a number of 32 bits; a slice is cut from its parent's.
unfoldable pub sliced_value : Vpi → Handle → Option (Handle × ℕ × ℕ) → Option (Option ℤ)
unfolding get_slice
sliced_value vpi h none = some (some (vpi.get_int h))
sliced_value vpi h (some (parent, hi, lo)) =
    get_slice (vpi.get_int parent) hi lo >>= λ v. some (some v)

-- get_value. With Verilator a signal of more than 64 bits has no value.
unfoldable pub get_value : Vpi → Option Handle → Bool → Client → Option (Option ℤ × Client)
unfolding sliced_value get_vpi_size
get_value vpi none is_signal c = some (none, c)
get_value vpi (some h) false c = some (some (vpi.get_int h), c)
get_value vpi (some h) true c =
    let (width, c₁) = if c.is_verilator then get_vpi_size vpi (some h) c else (0, c) in
    let value : Option (Option ℤ × Client) =
      sliced_value vpi h (lookup h c₁.mock_slice_handles) >>= λ v. some (v, c₁) in
    if ltb 64 width then some (none, c₁) else value

unfoldable pub get_signal_width : Vpi → Option Handle → Client → Option ℕ × Client
unfolding get_vpi_size
get_signal_width vpi h c =
    let (w, c₁) = get_vpi_size vpi h c in ((if w == 0 then none else some w), c₁)

unfoldable pub get_value_of : Vpi → Option Handle → Text → Client → Option (Option ℤ × Client)
get_value_of vpi allocated name c =
    get_handle vpi allocated name c >>= λ (h, c₁). get_value vpi h true c₁

abbrev slice_text : Vpi → Handle → Option (Handle × ℕ × ℕ) → Option Text
slice_text vpi h none = some (vpi.get_hex_str h)
slice_text vpi h (some (parent, hi, lo)) = get_slice_str (vpi.get_bin_str parent) hi lo

-- get_str_value: 0x before a signal of more than one bit.
unfoldable pub get_str_value : Vpi → Option Handle → Bool → Client → Option (Option Text × Client)
unfolding get_vpi_type get_vpi_size get_slice_str
get_str_value vpi none is_signal c = some (none, c)
get_str_value vpi (some h) is_signal c =
    let (t, c₁) = get_vpi_type vpi (some h) c in
    let as_signal : Option (Option Text × Client) =
      slice_text vpi h (lookup h c₁.mock_slice_handles) >>= λ result.
      let (width, c₂) = get_vpi_size vpi (some h) c₁ in
      some (some (if ltb 1 width then codes "0x" ++ result else result), c₂) in
    if is_module t
    then some (none, c₁)
    else if is_signal
    then as_signal
    else some (some (vpi.get_string h), c₁)

unfoldable pub get_str_value_of :
    Vpi → Option Handle → Text → Client → Option (Option Text × Client)
get_str_value_of vpi allocated name c =
    get_handle vpi allocated name c >>= λ (h, c₁). get_str_value vpi h true c₁

-- static_cast<int>: the low 32 bits, as a signed number.
abbrev pub to_int : ℤ → ℤ
to_int v = let w = to_word v % 2 ^ 32 in if ltb w (2 ^ 31) then pos w else negsuc (2 ^ 32 - 1 - w)

-- set_value; whether it succeeds is the simulator's answer.
unfoldable pub set_value : Vpi → Option Handle → ℤ → Bool
unfolding to_word
set_value vpi none v = false
set_value vpi (some h) v = vpi.put_int h (to_int v)

unfoldable pub set_value_of : Vpi → Option Handle → Text → ℤ → Client → Option (Bool × Client)
unfolding set_value
set_value_of vpi allocated name v c =
    get_handle vpi allocated name c >>= λ (h, c₁). some (set_value vpi h v, c₁)

abbrev collected : List (Text × Handle) → List (Text × Handle) → List (Text × Handle)
collected signals [] = signals
collected signals ((name, h) ∷ rest) = collected (emplace name h signals) rest

-- get_module_signals: what is found is kept under the module's name.
unfoldable pub get_module_signals :
    Vpi → Option Handle → Text → Client → Option (List (Text × Handle) × Client)
unfolding get_vpi_type
get_module_signals vpi allocated name c = elim (lookup name c.module_signals_cache) [
  | some signals ↦ some (signals, c)
  | none ↦ get_handle vpi allocated name c >>= λ (found, c₁). elim found [
    | none ↦ some ([], c₁)
    | some h ↦
        let (t, c₂) = get_vpi_type vpi (some h) c₁ in
        let scanned : List (Text × Handle) × Client = elim (vpi.nets h) [
          | none ↦ ([], c₂)
          | some nets ↦
              let signals = collected [] nets in
              (
                signals,
                record c₂ { module_signals_cache = emplace name signals c₂.module_signals_cache },
              )
        ] in
        some (if is_module t then scanned else ([], c₂))
  ]
]
