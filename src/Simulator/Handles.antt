-- ===== src/Simulator/Handles.antt =====
-- How src/rtl.cc finds the handle of a name: get_handle and what it calls. `none` as the result of an
-- operation is undefined behaviour or an exception; a handle that is none is a null pointer.
pub mod Again
use hgdb.Prelude.{
  Text, codes, ℕ, zero, suc, ◌+◌, ◌-◌, ◌^◌, ltb, leb, ◌==◌, Bool, true, false, ◌&&◌, ◌||◌, not,
  if◌then◌else◌, Option, none, some, ◌>>=◌, List, [], ◌∷◌, ◌++◌, length, take, drop, get_elem?,
  is_empty,
}
use hgdb.Prelude.Maps.{lookup, emplace, contains, nat_key, text_key}
use hgdb.Eval.Debug.{Handle}
use hgdb.Eval.Lexer.{is_digit}
use hgdb.Util.{get_tokens, join}
use hgdb.Util.Numbers.{decimal_from}
use hgdb.Simulator.{
  VpiType, module_, interface, net, reg, reg_array, reg_bit, net_array, net_bit, part_select,
  memory_word, memory, struct_var, struct_net, parameter, error, other, Vpi, Client, get_vpi_type,
  get_handle_raw,
}
use hgdb.Simulator.Names.{get_full_name}
use hgdb.Simulator.Slices.{extract_slice}

abbrev pub Found : Type 0
Found = Option (Option Handle × Client)

abbrev all_digits : Text → Bool
all_digits [] = true
all_digits (c ∷ s) = is_digit c && all_digits s

-- std::stoi throws on a number beyond an int.
unfoldable pub stoi : Text → Option ℕ
unfolding decimal_from
stoi s = let n = decimal_from 0 s in if ltb n (2 ^ 31) then some n else none

unfoldable pub access_arrays : Vpi → List Text → Handle → Option (Option Handle)
unfolding stoi
access_arrays vpi [] h = some (some h)
access_arrays vpi (idx ∷ rest) h = elim (all_digits idx) [
  | false ↦ some none
  | true ↦ stoi idx >>= λ i. elim (vpi.handle_by_index h i) [
    | none ↦ some none
    | some element ↦ access_arrays vpi rest element
  ]
]

-- util::join of the first `n` tokens: of none it dereferences the end.
unfoldable pub join_first : ℕ → List Text → Option Text
unfolding join
join_first zero tokens = none
join_first (suc n) [] = none
join_first (suc n) (t ∷ ts) = some (join t (take n ts) (codes "."))

-- The next handle of a mock slice: the allocator's, if there is one, or the counter, a pointer to 4
-- bytes, after an increment. A handle that is there already keeps its slice.
unfoldable pub add_mock_slice_vpi : Option Handle → Handle → Text → Client → Option Handle × Client
add_mock_slice_vpi allocated parent slice c = elim (extract_slice slice) [
  | none ↦ (none, c)
  | some (hi, lo) ↦ elim allocated [
    | some h ↦
        (some h, record c { mock_slice_handles = emplace h (parent, hi, lo) c.mock_slice_handles })
    | none ↦
        let h = c.mock_slice_handle_counter + 4 in
        (
          some h,
          record c {
            mock_slice_handle_counter = h;
            mock_slice_handles = emplace h (parent, hi, lo) c.mock_slice_handles;
          },
        )
  ]
]

abbrev pub is_module : VpiType → Bool
is_module module_ = true
is_module _ = false

-- The loop over prefixes of the tokens, from `i` tokens downwards to one: the first that is the name
-- of no module is indexed by the tokens behind it, up to `last`. Else `ptr` is what the last round
-- found.
unfoldable pub strip_tokens : Vpi → ℕ → ℕ → List Text → Option Handle → Client → Found
unfolding join_first get_handle_raw access_arrays get_vpi_type
strip_tokens vpi zero last tokens ptr c = some (ptr, c)
strip_tokens vpi (suc i) last tokens ptr c = join_first (suc i) tokens >>= λ name.
    let (raw, c₁) = get_handle_raw vpi name c in
    elim raw [
      | none ↦ strip_tokens vpi i last tokens none c₁
      | some h ↦
          let (t, c₂) = get_vpi_type vpi (some h) c₁ in
          elim (is_module t) [
            | true ↦ strip_tokens vpi i last tokens (some h) c₂
            | false ↦ access_arrays vpi (drop (suc i) (take (last + 1) tokens)) h >>= λ ptr.
                some (ptr, c₂)
          ]
    ]

abbrev pub has_colon : Option Text → Bool
has_colon none = false
has_colon (some t) = contains b':' t

-- With a slice, the name before it may be a handle as it is.
abbrev before_slice : Vpi → Bool → List Text → Client → Found
before_slice vpi false tokens c = some (none, c)
before_slice vpi true tokens c =
    join_first (length tokens - 1) tokens >>= λ name. some (get_handle_raw vpi name c)

abbrev slice_of :
    Option Handle → Bool → Option Text → Option Handle × Client → Option Handle × Client
slice_of allocated true (some slice) (some h, c) = add_mock_slice_vpi allocated h slice c
slice_of allocated has_slice last found = found

-- The second get_handle; `tokens.size() - 2` is not negative behind the first step, which is
-- undefined for a slice alone.
unfoldable pub get_handle_tokens : Vpi → Option Handle → List Text → Client → Found
unfolding contains strip_tokens join_first get_handle_raw add_mock_slice_vpi
get_handle_tokens vpi allocated tokens c =
    let back = get_elem? tokens (length tokens - 1) in
    let has_slice = has_colon back in
    let last = if has_slice then length tokens - 2 else length tokens - 1 in
    let searched : Found = before_slice vpi has_slice tokens c >>= λ (found, c₁). elim found [
      | some h ↦ some (some h, c₁)
      | none ↦ strip_tokens vpi last last tokens none c₁
    ] in
    if is_empty tokens
    then some (none, c)
    else searched >>= λ found. some (slice_of allocated has_slice back found)

-- The first get_handle. What the second one finds is kept under the name that was asked for, and not
-- under the full name by which the map is searched.
unfoldable pub get_handle : Vpi → Option Handle → Text → Client → Found
unfolding get_full_name get_handle_tokens get_tokens
get_handle vpi allocated name c =
    let full_name = get_full_name c name in
    elim (lookup full_name c.handle_map) [
      | some h ↦ some (some h, c)
      | none ↦ elim (vpi.handle_by_name full_name) [
        | some h ↦ some (some h, record c { handle_map = emplace full_name h c.handle_map })
        | none ↦
            get_handle_tokens vpi allocated (get_tokens full_name (codes ".[]")) c
            >>= λ (found, c₁). elim found [
              | none ↦ some (none, c₁)
              | some h ↦ some (some h, record c₁ { handle_map = emplace name h c₁.handle_map })
            ]
      ]
    ]

abbrev pub is_signal_type : VpiType → Bool
is_signal_type reg = true
is_signal_type net = true
is_signal_type reg_array = true
is_signal_type reg_bit = true
is_signal_type net_array = true
is_signal_type net_bit = true
is_signal_type part_select = true
is_signal_type memory_word = true
is_signal_type _ = false

unfoldable pub is_valid_signal : Vpi → Option Handle → Text → Client → Option (Bool × Client)
unfolding get_vpi_type
is_valid_signal vpi allocated name c = get_handle vpi allocated name c >>= λ (found, c₁).
    elim found [
      | none ↦ some (false, c₁)
      | some h ↦ let (t, c₂) = get_vpi_type vpi (some h) c₁ in some (is_signal_type t, c₂)
    ]
