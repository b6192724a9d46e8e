-- ===== src/Monitor/Entries.antt =====
-- The invariant of the monitor: ids are below the counter, and cells are in the store.
use hgdb.Prelude.{
  ℕ, ◌<◌, ◌≤◌, ◌==◌, ==_iff, ◌≡◌, refl, subst, Bool-cases, inl, inr, none, some, List, [], ◌∷◌, All,
  length, arith,
}
use hgdb.Prelude.Maps.{lookup, assign, emplace, erase_key, nat_key}
use hgdb.Monitor.{WatchVariable, Monitor, Storage, cell, buffer}

-- A cell is in the store; a buffer has a depth.
abbrev pub InStore : ℕ → Storage → Type 0
InStore size (cell p) = p < size
InStore size (buffer depth values) = 0 < depth

abbrev pub IsEntry : ℕ → ℕ → ℕ × WatchVariable → Type 0
IsEntry count size (id, w) = (id < count) × InStore size w.storage

abbrev pub IsFormed : Monitor → Type 0
IsFormed m = All (IsEntry m.watch_id_count (length m.cells)) m.watched_variables

module _ (count size : ℕ) where
  IsEntry-grow :
      (count' size' : ℕ) (e : ℕ × WatchVariable)
      → count ≤ count'
      → size ≤ size'
      → IsEntry count size e
      → IsEntry count' size' e
  IsEntry-grow count' size' (id, w) c s h = (omega (arith, h.0), in_store w.storage h.1)
    where
      in_store : (t : Storage) → InStore size t → InStore size' t
      in_store (cell p) h = omega arith
      in_store (buffer depth values) h = h

  pub All-grow :
      (count' size' : ℕ) (ws : List (ℕ × WatchVariable))
      → count ≤ count'
      → size ≤ size'
      → All (IsEntry count size) ws
      → All (IsEntry count' size') ws
  All-grow count' size' [] c s h = tt
  All-grow count' size' (e ∷ ws) c s h =
      (IsEntry-grow count' size' e c s h.0, All-grow count' size' ws c s h.1)

  pub All-assign :
      (id : ℕ) (w : WatchVariable) (ws : List (ℕ × WatchVariable))
      → IsEntry count size (id, w)
      → All (IsEntry count size) ws
      → All (IsEntry count size) (assign id w ws)
  unfolding assign
  All-assign id w [] e h = (e, tt)
  All-assign id w ((j, u) ∷ ws) e h = elim (Bool-cases (j == id)) [
    | inl same ↦ rw same ((h.0.0, e.1), h.1)
    | inr other ↦ rw other (h.0, All-assign id w ws e h.1)
  ]

  pub All-emplace :
      (id : ℕ) (w : WatchVariable) (ws : List (ℕ × WatchVariable))
      → IsEntry count size (id, w)
      → All (IsEntry count size) ws
      → All (IsEntry count size) (emplace id w ws)
  unfolding emplace
  All-emplace id w [] e h = (e, tt)
  All-emplace id w ((j, u) ∷ ws) e h = elim (Bool-cases (j == id)) [
    | inl same ↦ rw same h
    | inr other ↦ rw other (h.0, All-emplace id w ws e h.1)
  ]

  pub All-erase_key :
      (id : ℕ) (ws : List (ℕ × WatchVariable))
      → All (IsEntry count size) ws
      → All (IsEntry count size) (erase_key id ws)
  unfolding erase_key
  All-erase_key id [] h = tt
  All-erase_key id ((j, u) ∷ ws) h = elim (Bool-cases (j == id)) [
    | inl same ↦ rw same (All-erase_key id ws h.1)
    | inr other ↦ rw other (h.0, All-erase_key id ws h.1)
  ]

  pub All-lookup :
      (id : ℕ) (ws : List (ℕ × WatchVariable)) {w : WatchVariable}
      → lookup id ws ≡ some w
      → All (IsEntry count size) ws
      → IsEntry count size (id, w)
  unfolding lookup
  All-lookup id [] e h = cc
  All-lookup id ((j, u) ∷ ws) {w} e h = elim (Bool-cases (j == id)) [
    | inl same ↦
        let q : some u ≡ some w = rw same at e in
        subst (IsEntry count size) (pair_lem ((==_iff j id).0 same) q) h.0
    | inr other ↦ All-lookup id ws (rw other at e) h.1
  ]
    where
      pair_lem : j ≡ id → some u ≡ some w → ◌≡◌ {A = ℕ × WatchVariable} (j, u) (id, w)
      pair_lem a b = cc

  pub fresh_lem :
      (ws : List (ℕ × WatchVariable)) → All (IsEntry count size) ws → lookup count ws ≡ none
  unfolding lookup
  fresh_lem [] h = refl
  fresh_lem ((j, u) ∷ ws) h = ground (arith, fresh_lem ws h.1, h.0.0)
