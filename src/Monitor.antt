-- ===== src/Monitor.antt =====
-- src/monitor.hh and src/monitor.cc: the watched variables and their values. A value that several
-- variables share (std::shared_ptr) is a cell of a store, and a pointer to it is the cell's index.
pub mod Watch
pub mod Delay
pub mod Change
pub mod Entries
pub mod Formed
pub mod Reads
pub mod Steps
mod Examples
use hgdb.Prelude.{
  Text, ℕ, zero, suc, ◌+◌, ◌-◌, ◌%◌, ◌^◌, ◌==◌, ltb, Bool, true, false, not, ◌&&◌, if◌then◌else◌,
  Option, none, some, ◌>>=◌, List, [], ◌∷◌, ◌++◌, length, get_elem?, set, drop, is_empty, text_eq,
}
use hgdb.Prelude.Int.{ℤ, eq_ℤ}
use hgdb.Prelude.Maps.{lookup, assign, emplace, erase_key, contains, text_key, nat_key}
use hgdb.Eval.Debug.{Handle}
use hgdb.Interfaces.{Rtl}

-- MonitorRequest::MonitorType.
pub data WatchType : Type 0 where
  breakpoint clock_edge data_ changed delay_clock_edge : WatchType

abbrev pub same_type : WatchType → WatchType → Bool
same_type breakpoint breakpoint = true
same_type clock_edge clock_edge = true
same_type data_ data_ = true
same_type changed changed = true
same_type delay_clock_edge delay_clock_edge = true
same_type _ _ = false

-- WatchVariable keeps a pointer to its value; WatchVariableBuffer the last values, oldest first.
pub data Storage : Type 0 where
  cell : ℕ → Storage
  buffer : ℕ → List (Option ℤ) → Storage

-- `enable_cond` is the name of the function that is called.
pub record WatchVariable : Type 0 where
  pub type : WatchType
  pub full_name : Text
  pub handle : Option Handle
  pub enable_cond : Option ℕ
  pub storage : Storage

pub record Monitor : Type 0 where
  pub rtl : Option Rtl
  pub watch_id_count : ℕ
  pub watched_variables : List (ℕ × WatchVariable)
  pub cells : List (Option ℤ)

-- What a cycle reads: the values of the handles, and the enable conditions.
pub record Cycle : Type 0 where
  pub get_value : Option Handle → Option ℤ
  pub enabled : ℕ → Bool

abbrev pub uint64_max : ℕ
uint64_max = 2 ^ 64 - 1

abbrev pub same_handle : Option Handle → Option Handle → Bool
same_handle none none = true
same_handle (some a) (some b) = a == b
same_handle _ _ = false

unfoldable pub find_watch : Option Handle → WatchType → List (ℕ × WatchVariable) → Option ℕ
find_watch handle type [] = none
find_watch handle type ((id, w) ∷ rest) =
    if same_handle w.handle handle && same_type w.type type
    then some id
    else find_watch handle type rest

unfoldable pub is_monitored : Option Handle → WatchType → Monitor → Option ℕ
is_monitored handle type m = find_watch handle type m.watched_variables

-- get_watched_value_ptr: a buffer has no pointer to give.
abbrev pointer_of : Storage → Option ℕ
pointer_of (cell p) = some p
pointer_of (buffer depth values) = none

unfoldable pub find_pointer : List Text → WatchType → List (ℕ × WatchVariable) → Option ℕ
find_pointer names type [] = none
find_pointer names type ((id, w) ∷ rest) =
    if contains w.full_name names && same_type w.type type
    then pointer_of w.storage
    else find_pointer names type rest

unfoldable pub get_watched_value_ptr : List Text → WatchType → Monitor → Option ℕ
unfolding find_pointer
get_watched_value_ptr names type m = find_pointer names type m.watched_variables

-- add_watch_var returns the id as uint32_t.
unfoldable pub add_watch_var : WatchVariable → Monitor → ℕ × Monitor
add_watch_var w m = (
  m.watch_id_count % 2 ^ 32,
  record m {
    watch_id_count = (m.watch_id_count + 1) % 2 ^ 64;
    watched_variables = emplace m.watch_id_count w m.watched_variables;
  },
)

-- A new variable at a cell.
abbrev pub new_watch : Text → WatchType → Option Handle → ℕ → WatchVariable
new_watch full_name type handle pointer = record {
  type = type;
  full_name = full_name;
  handle = handle;
  enable_cond = none;
  storage = cell pointer;
}

-- add_monitor_variable on a name: the existing watch is reused; a new one has a cell of its own.
unfoldable pub add_monitor_variable : Text → WatchType → Monitor → ℕ × Monitor
add_monitor_variable full_name type m = elim m.rtl [
  | none ↦ (uint64_max, m)
  | some rtl ↦
      let handle = rtl.get_handle full_name in
      elim (is_monitored handle type m) [
        | some id ↦ (id, m)
        | none ↦
            add_watch_var (new_watch full_name type handle (length m.cells))
              (record m { cells = m.cells ++ none ∷ [] })
      ]
]

-- The same at a cell that others may share.
unfoldable pub add_shared_variable : Text → WatchType → ℕ → Monitor → ℕ × Monitor
add_shared_variable full_name type pointer m = elim m.rtl [
  | none ↦ (uint64_max, m)
  | some rtl ↦
      let handle = rtl.get_handle full_name in
      elim (is_monitored handle type m) [
        | some id ↦ (id, m)
        | none ↦ add_watch_var (new_watch full_name type handle pointer) m
      ]
]

-- WatchVariableBuffer::set_value and get_value: `none` as a result of the latter is undefined
-- behaviour, the front of an empty queue.
unfoldable pub push_value : ℕ → Option ℤ → List (Option ℤ) → List (Option ℤ)
push_value depth v values =
    let grown = values ++ v ∷ [] in if ltb depth (length grown) then drop 1 grown else grown

unfoldable pub front_value : ℕ → List (Option ℤ) → Option (Option ℤ)
front_value depth values = if length values == depth then get_elem? values 0 else some none

-- The third add_monitor_variable: a buffer, with no search for an existing watch.
unfoldable pub add_delayed_variable : Text → ℕ → Option ℤ → Monitor → ℕ × Monitor
unfolding push_value
add_delayed_variable full_name depth v m = elim m.rtl [
  | none ↦ (uint64_max, m)
  | some rtl ↦
      add_watch_var
        (record {
          type = delay_clock_edge;
          full_name = full_name;
          handle = rtl.get_handle full_name;
          enable_cond = none;
          storage = buffer depth (push_value depth v []);
        })
        m
]

unfoldable pub remove_monitor_variable : ℕ → Monitor → Monitor
remove_monitor_variable id m = record m { watched_variables = erase_key id m.watched_variables }

unfoldable pub set_monitor_variable_condition : ℕ → ℕ → Monitor → Monitor
set_monitor_variable_condition id cond m = elim (lookup id m.watched_variables) [
  | none ↦ m
  | some w ↦ record m {
    watched_variables = assign id (record w { enable_cond = some cond }) m.watched_variables;
  }
]

-- get_value and set_value of either kind of variable.
unfoldable pub stored_value : Storage → List (Option ℤ) → Option (Option ℤ)
unfolding front_value
stored_value (cell p) cells = get_elem? cells p
stored_value (buffer depth values) cells = front_value depth values

unfoldable pub store_value : ℕ → WatchVariable → Option ℤ → Monitor → Monitor
store_value id w v m = elim w.storage [
  | cell p ↦ record m { cells = set m.cells p v }
  | buffer depth values ↦ record m {
    watched_variables =
        assign id (record w { storage = buffer depth (push_value depth v values) })
          m.watched_variables;
  }
]

abbrev pub differs : Option ℤ → ℤ → Bool
differs none v = true
differs (some w) v = not (eq_ℤ w v)

-- var_changed compares with the stored value, and stores the new one if it differs.
unfoldable pub var_changed : Cycle → ℕ → Monitor → Option ((Bool × Option ℤ) × Monitor)
var_changed c id m =
    let nothing : Option ((Bool × Option ℤ) × Monitor) = some ((false, none), m) in
    elim m.rtl [
      | none ↦ nothing
      | some rtl ↦ elim (lookup id m.watched_variables) [
        | none ↦ nothing
        | some w ↦ elim (c.get_value w.handle) [
          | none ↦ nothing
          | some v ↦ stored_value w.storage m.cells >>= λ old.
              some
                ((differs old v, some v), if differs old v then store_value id w (some v) m else m)
        ]
      ]
    ]

abbrev pub is_enabled : Cycle → Option ℕ → Bool
is_enabled c none = true
is_enabled c (some cond) = c.enabled cond

-- One round of the loop of get_watched_values: what is sent for a variable of the type. A delayed
-- value that is empty is dereferenced.
unfoldable pub watched_value :
    WatchType → Cycle → ℕ → WatchVariable → Monitor → Option (Option (ℕ × Option ℤ) × Monitor)
watched_value breakpoint c id w m =
    if is_enabled c w.enable_cond
    then some (some (id, c.get_value w.handle), m)
    else stored_value w.storage m.cells >>= λ v. some (some (id, v), m)
watched_value clock_edge c id w m =
    if is_enabled c w.enable_cond
    then some (some (id, c.get_value w.handle), m)
    else stored_value w.storage m.cells >>= λ v. some (some (id, v), m)
watched_value data_ c id w m = var_changed c id m >>= λ ((is_changed, v), m').
    some ((if is_changed then some (id, v) else none), m')
watched_value changed c id w m = var_changed c id m >>= λ ((is_changed, v), m').
    some ((if is_changed then some (id, v) else none), m')
watched_value delay_clock_edge c id w m = stored_value w.storage m.cells >>= λ stored.
    stored >>= λ old. some (some (id, some old), store_value id w (c.get_value w.handle) m)

unfoldable pub watched_values :
    WatchType → Cycle → List (ℕ × WatchVariable) → Monitor → Option (List (ℕ × Option ℤ) × Monitor)
watched_values type c [] m = some ([], m)
watched_values type c ((id, w) ∷ rest) m =
    let skipped = watched_values type c rest m in
    let sent = watched_value w.type c id w m >>= λ (entry, m').
    watched_values type c rest m' >>= λ (entries, m''). some (add_entry entry entries, m'') in
    if same_type w.type type then sent else skipped
  where
    add_entry : Option (ℕ × Option ℤ) → List (ℕ × Option ℤ) → List (ℕ × Option ℤ)
    add_entry none entries = entries
    add_entry (some e) entries = e ∷ entries

unfoldable pub get_watched_values :
    WatchType → Cycle → Monitor → Option (List (ℕ × Option ℤ) × Monitor)
get_watched_values type c m = elim m.rtl [
  | none ↦ some ([], m)
  | some rtl ↦ watched_values type c m.watched_variables m
]

unfoldable pub num_watches : Text → WatchType → Monitor → ℕ
num_watches name type m = count m.watched_variables
  where
    count : List (ℕ × WatchVariable) → ℕ
    count [] = 0
    count ((id, w) ∷ rest) =
        let n = count rest in if text_eq w.full_name name && same_type w.type type then suc n else n
