-- ===== src/Monitor/Reads.antt =====
-- The reads of a cycle, under the invariant of the monitor.
use hgdb.Prelude.{
  ℕ, ◌<◌, ◌==◌, ==_iff, ◌≡◌, refl, ◌∙◌, subst, Bool, true, false, Bool-cases, Option-cases, inl,
  inr, if◌then◌else◌, Option, none, some, ◌>>=◌, List, [], ◌∷◌, All, length, length-set,
  get_elem?-lt, ◌⊎◌, arith,
}
use hgdb.Prelude.Int.{ℤ}
use hgdb.Prelude.Maps.{lookup, nat_key}
use hgdb.Monitor.{
  WatchType, WatchVariable, Monitor, Storage, cell, buffer, store_value, push_value, stored_value,
  var_changed, watched_value, watched_values, get_watched_values, Cycle, differs, front_value,
  is_enabled, breakpoint, clock_edge, data_, changed, delay_clock_edge, same_type,
}
use hgdb.Monitor.Entries.{InStore, IsEntry, IsFormed, All-grow, All-assign, All-lookup}

Storage-cases :
    (t : Storage)
    → ((p : ℕ) × (t ≡ cell p))
      ⊎ ((depth : ℕ) × (values : List (Option ℤ)) × (t ≡ buffer depth values))
Storage-cases (cell p) = inl (p, refl)
Storage-cases (buffer depth values) = inr (depth, values, refl)

-- The later monitor is formed, and its counter and its store are no smaller or larger.
abbrev pub IsKept : Monitor → Monitor → Type 0
IsKept m m' =
    IsFormed m' × (m'.watch_id_count ≡ m.watch_id_count) × (length m'.cells ≡ length m.cells)

store_value-IsKept :
    (id : ℕ) (w : WatchVariable) (v : Option ℤ) (m : Monitor)
    → IsEntry m.watch_id_count (length m.cells) (id, w)
    → IsFormed m
    → IsKept m (store_value id w v m)
unfolding store_value
store_value-IsKept id w v m entry h = elim (Storage-cases w.storage) [
  | inl (p, e) ↦
      let same = length-set m.cells p v in
      rw (e, store_value)
        (
          All-grow m.watch_id_count (length m.cells) m.watch_id_count _ m.watched_variables
              (omega arith) (omega (arith, same)) h,
          refl,
          same,
        )
  | inr (depth, values, e) ↦
      let deep : 0 < depth = subst (InStore (length m.cells)) e entry.1 in
      rw (e, store_value)
        (
          All-assign m.watch_id_count (length m.cells) id
              (record w { storage = buffer depth (push_value depth v values) }) m.watched_variables
              (entry.0, deep) h,
          refl,
          refl,
        )
]

stored_value-total :
    (t : Storage) (cells : List (Option ℤ))
    → InStore (length cells) t
    → (v : Option ℤ) × (stored_value t cells ≡ some v)
unfolding stored_value front_value
stored_value-total (cell p) cells h = get_elem?-lt cells p h
stored_value-total (buffer depth values) cells h = elim (Bool-cases (length values == depth)) [
  | inl full ↦
      rw full (get_elem?-lt values 0 (omega (arith, (==_iff (length values) depth).0 full)))
  | inr other ↦ rw other (none, refl)
]

if-IsKept :
    (b : Bool) (m m₁ m₂ : Monitor) → IsKept m m₁ → IsKept m m₂ → IsKept m (if b then m₁ else m₂)
if-IsKept true m m₁ m₂ h k = h
if-IsKept false m m₁ m₂ h k = k

-- In a monitor that is formed, var_changed has a result, and leaves the monitor formed.
pub var_changed-IsKept :
    (c : Cycle) (id : ℕ) (m : Monitor)
    → IsFormed m
    → (r : Bool × Option ℤ) × (m' : Monitor) × (var_changed c id m ≡ some (r, m')) × IsKept m m'
unfolding var_changed
var_changed-IsKept c id m h = elim (Option-cases m.rtl) [
  | inl e ↦ ((false, none), m, simp (e, var_changed), (h, refl, refl))
  | inr (rtl, e) ↦ elim (Option-cases (lookup id m.watched_variables)) [
    | inl f ↦ ((false, none), m, simp (e, f, var_changed), (h, refl, refl))
    | inr (w, f) ↦ elim (Option-cases (c.get_value w.handle)) [
      | inl g ↦ ((false, none), m, simp (e, f, g, var_changed), (h, refl, refl))
      | inr (v, g) ↦
          let entry = All-lookup m.watch_id_count (length m.cells) id m.watched_variables f h in
          let (old, q) = stored_value-total w.storage m.cells entry.1 in
          let m' = if differs old v then store_value id w (some v) m else m in
          (
            (differs old v, some v),
            m',
            simp (e, f, g, q, var_changed),
            if-IsKept (differs old v) m (store_value id w (some v) m) m
                (store_value-IsKept id w (some v) m entry h) (h, refl, refl),
          )
    ]
  ]
]

same_type-delay :
    (s t : WatchType)
    → same_type s t ≡ true
    → same_type t delay_clock_edge ≡ false
    → same_type s delay_clock_edge ≡ false
same_type-delay breakpoint t e f = refl
same_type-delay clock_edge t e f = refl
same_type-delay data_ t e f = refl
same_type-delay changed t e f = refl
same_type-delay delay_clock_edge breakpoint e f = cc
same_type-delay delay_clock_edge clock_edge e f = cc
same_type-delay delay_clock_edge data_ e f = cc
same_type-delay delay_clock_edge changed e f = cc
same_type-delay delay_clock_edge delay_clock_edge e f = cc

-- What a step of a loop comes to: it has a result, and keeps the monitor formed.
abbrev Succeeds {ℓ} : {A : Type ℓ} → Monitor → Option (A × Monitor) → Type ℓ
Succeeds {A} m o = (a : A) × (m' : Monitor) × (o ≡ some (a, m')) × IsKept m m'

-- What is sent for a variable.
abbrev Entry : Type 0
Entry = ℕ × Option ℤ

read_or_stored :
    (b : Bool) (id : ℕ) (v : Option ℤ) (t : Storage) (m : Monitor)
    → InStore (length m.cells) t
    → IsFormed m
    → Succeeds {A = Option Entry} m (
        if b
        then some (some (id, v), m)
        else stored_value t m.cells >>= λ v. some (some (id, v), m))
read_or_stored true id v t m entry h = (some (id, v), m, refl, (h, refl, refl))
read_or_stored false id v t m entry h =
    let (old, q) = stored_value-total t m.cells entry in
    (some (id, old), m, rw q refl, (h, refl, refl))

if_changed :
    (c : Cycle) (id : ℕ) (m : Monitor)
    → IsFormed m
    → Succeeds {A = Option Entry} m (
        var_changed c id m >>= λ ((is_changed, v), m').
        some (if◌then◌else◌ {A = Option Entry} is_changed (some (id, v)) none, m'))
if_changed c id m h = let (r, m', e, kept) = var_changed-IsKept c id m h in rw e (_, m', refl, kept)

watched_value-Succeeds :
    (t : WatchType) (c : Cycle) (id : ℕ) (w : WatchVariable) (m : Monitor)
    → same_type t delay_clock_edge ≡ false
    → InStore (length m.cells) w.storage
    → IsFormed m
    → Succeeds m (watched_value t c id w m)
unfolding watched_value
watched_value-Succeeds breakpoint c id w m f entry h =
    read_or_stored (is_enabled c w.enable_cond) id (c.get_value w.handle) w.storage m entry h
watched_value-Succeeds clock_edge c id w m f entry h =
    read_or_stored (is_enabled c w.enable_cond) id (c.get_value w.handle) w.storage m entry h
watched_value-Succeeds data_ c id w m f entry h = if_changed c id m h
watched_value-Succeeds changed c id w m f entry h = if_changed c id m h
watched_value-Succeeds delay_clock_edge c id w m f entry h = cc

watched_values-Succeeds :
    (type : WatchType) (c : Cycle) (ws : List (ℕ × WatchVariable)) (m : Monitor)
    → same_type type delay_clock_edge ≡ false
    → All (IsEntry m.watch_id_count (length m.cells)) ws
    → IsFormed m
    → Succeeds m (watched_values type c ws m)
unfolding watched_values
watched_values-Succeeds type c [] m f entries h = ([], m, refl, (h, refl, refl))
watched_values-Succeeds type c ((id, w) ∷ rest) m f entries h =
    elim (Bool-cases (same_type w.type type)) [
      | inr other ↦ rw other (watched_values-Succeeds type c rest m f entries.1 h)
      | inl same ↦
          let (sent, m₁, e₁, kept₁) =
            watched_value-Succeeds w.type c id w m (same_type-delay w.type type same f) entries.0.1
              h in
          let later =
            All-grow m.watch_id_count (length m.cells) m₁.watch_id_count (length m₁.cells) rest
              (omega (arith, kept₁.1)) (omega (arith, kept₁.2)) entries.1 in
          let (others, m₂, e₂, kept₂) = watched_values-Succeeds type c rest m₁ f later kept₁.0 in
          rw same (rw e₁ (rw e₂ (_, m₂, refl, (kept₂.0, kept₂.1 ∙ kept₁.1, kept₂.2 ∙ kept₁.2))))
    ]

-- In a monitor whose ids are below the counter and whose cells are in the store, get_watched_values
-- has a result for every type but delay_clock_edge, and the monitor is such a one after it, with the
-- same counter and as many cells.
pub get_watched_values-total :
    (type : WatchType) (c : Cycle) (m : Monitor)
    → same_type type delay_clock_edge ≡ false
    → IsFormed m
    → (entries : List (ℕ × Option ℤ)) × (m' : Monitor) × (get_watched_values type c m
        ≡ some (entries, m'))
      × IsKept m m'
unfolding get_watched_values
get_watched_values-total type c m f h = elim (Option-cases m.rtl) [
  | inl e ↦ ([], m, simp (e, get_watched_values), (h, refl, refl))
  | inr (rtl, e) ↦
      let (entries, m', q, kept) = watched_values-Succeeds type c m.watched_variables m f h h in
      (entries, m', simp (e, get_watched_values) q, kept)
]
