-- ===== src/Simulator/Callbacks.antt =====
-- The callbacks of src/rtl.cc, monitor_signals, and the search for clocks.
pub mod Rollback
pub mod Table
use hgdb.Prelude.{
  Text, codes, ℕ, zero, suc, ◌+◌, ◌-◌, ltb, ◌==◌, Bool, true, false, ◌&&◌, not, if◌then◌else◌,
  Option, none, some, ◌>>=◌, List, [], ◌∷◌, ◌++◌, length, is_empty, text_eq, take,
}
use hgdb.Prelude.Maps.{lookup, emplace, erase_key, text_key}
use hgdb.Eval.Debug.{Handle}
use hgdb.Util.{get_tokens}
use hgdb.Simulator.{Vpi, Client}
use hgdb.Simulator.Names.{get_full_name, join_all, root_name}

-- What the simulator registers: vpi_register_cb on a name of a callback.
abbrev pub Register : Type 0
Register = Text → Option Handle

-- A callback of a name that is there is given again; inside the lock, the second test for an old
-- handle never holds.
unfoldable pub add_call_back : Register → Text → Client → Option Handle × Client
add_call_back register name c = elim (lookup name c.cb_handles) [
  | some h ↦ (some h, c)
  | none ↦ elim (register name) [
    | none ↦ (none, c)
    | some h ↦ (
      some h,
      record c { cb_handles = emplace name h c.cb_handles; registered = c.registered ++ h ∷ [] },
    )
  ]
]

-- The private remove_call_back: the first name of the handle goes.
unfoldable pub forget_handle : Handle → List (Text × Handle) → List (Text × Handle)
forget_handle h [] = []
forget_handle h ((name, g) ∷ rest) = if g == h then rest else (name, g) ∷ forget_handle h rest

-- vpi_remove_cb.
unfoldable pub unregister : Handle → List Handle → List Handle
unregister h [] = []
unregister h (g ∷ rest) = if g == h then rest else g ∷ unregister h rest

unfoldable pub remove_call_back : Text → Client → Client
unfolding forget_handle unregister
remove_call_back name c = elim (lookup name c.cb_handles) [
  | none ↦ c
  | some h ↦ record c {
    cb_handles = forget_handle h c.cb_handles;
    registered = unregister h c.registered;
  }
]

unfoldable pub callback_names : List (Text × Handle) → List Text
callback_names [] = []
callback_names ((name, h) ∷ rest) = name ∷ callback_names rest

-- The rollback of monitor_signals.
unfoldable pub remove_all : List Text → Client → Client
unfolding remove_call_back
remove_all [] c = c
remove_all (name ∷ names) c = remove_all names (remove_call_back name c)

abbrev pub callback_name : Text → Text
callback_name full_name = codes "Monitor " ++ full_name

-- A callback is added only to a signal that the simulator knows.
unfoldable pub try_monitor : Vpi → Register → Text → Client → Option Handle × Client
unfolding add_call_back
try_monitor vpi register full_name c = elim (vpi.handle_by_name full_name) [
  | none ↦ (none, c)
  | some h ↦ add_call_back register (callback_name full_name) c
]

-- The loop of monitor_signals; `added` are the callbacks so far.
unfoldable pub monitor_from : Vpi → Register → List Text → List Text → Client → Bool × Client
unfolding try_monitor remove_all get_full_name
monitor_from vpi register added [] c = (true, c)
monitor_from vpi register added (name ∷ names) c =
    let full_name = get_full_name c name in
    let (r, c₁) = try_monitor vpi register full_name c in
    elim r [
      | none ↦ (false, remove_all added c₁)
      | some h ↦ monitor_from vpi register (added ++ callback_name full_name ∷ []) names c₁
    ]

unfoldable pub monitor_signals : Vpi → Register → List Text → Client → Bool × Client
unfolding monitor_from
monitor_signals vpi register signals c = monitor_from vpi register [] signals c

abbrev pub clock_names : List Text
clock_names =
    codes "clk"
    ∷ codes "clock"
    ∷ codes "clk_in"
    ∷ codes "clock_in"
    ∷ codes "CLK"
    ∷ codes "CLOCK"
    ∷ []

-- The lambda is_valid_signal: a signal of one bit.
unfoldable pub is_clock : Vpi → Text → Bool
is_clock vpi name = elim (vpi.handle_by_name name) [
  | none ↦ false
  | some h ↦ elim (vpi.get_size h) [ none ↦ false | some n ↦ n == 1 ]
]

unfoldable pub first_clock : Vpi → Text → List Text → Option Text
unfolding is_clock
first_clock vpi instance_name [] = none
first_clock vpi instance_name (clk ∷ names) =
    let later = first_clock vpi instance_name names in
    if is_clock vpi (instance_name ++ clk) then some (instance_name ++ clk) else later

abbrev rooted : Option Text → List Text
rooted none = []
rooted (some name) = (root_name ++ name) ∷ []

-- get_clocks_from_design: a clock of the top, or else one of the instance above it.
unfoldable pub get_clocks_from_design : Vpi → Client → List Text
unfolding first_clock get_tokens
get_clocks_from_design vpi c =
    let instance_name = c.hierarchy_name_prefix.1 in
    let tokens = get_tokens instance_name (codes ".") in
    let above = join_all (take (length tokens - 1) tokens) (codes ".") ++ codes "." in
    elim (first_clock vpi instance_name clock_names) [
      | some name ↦ name ∷ []
      | none ↦ if ltb 1 (length tokens) then rooted (first_clock vpi above clock_names) else []
    ]
