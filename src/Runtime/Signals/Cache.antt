-- ===== src/Runtime/Signals/Cache.antt =====
-- The cache of get_signal_value.
use hgdb.Prelude.{
  ℕ, ◌==◌, ==_iff, ◌≡◌, ◌≢◌, refl, sym, ◌∙◌, false, Bool-cases, Option-cases, inl, inr, none, some,
}
use hgdb.Prelude.Int.{ℤ}
use hgdb.Prelude.Maps.{lookup, emplace, lookup-emplace, nat_key}
use hgdb.Eval.Debug.{Handle}
use hgdb.Runtime.{Reads, Debugger}
use hgdb.Runtime.Signals.{get_signal_value, cached, keep_value}

-- A value that is kept is the one of the cycle, in whatever namespace.
abbrev pub IsCurrent : Reads → Debugger → Type 0
IsCurrent r d =
    (ns_id : ℕ) (h : Handle) (v : ℤ)
    → lookup h d.cached_signal_values ≡ some v
    → r.get_value ns_id h ≡ some v

-- Every client reads the same from a handle. This holds of a handle of the simulator. It may fail for
-- the handle of a slice, which each client counts by itself while the cache is one for all clients.
abbrev pub IsShared : Reads → Handle → Type 0
IsShared r h = (n m : ℕ) → r.get_value n h ≡ r.get_value m h

pub none-ne-some {ℓ} : {A : Type ℓ} {a : A} → none ≢ some a
none-ne-some e = cc

emplace-IsCurrent :
    (r : Reads) (d : Debugger) (ns_id : ℕ) (h : Handle) (v : ℤ)
    → IsShared r h
    → IsCurrent r d
    → lookup h d.cached_signal_values ≡ none
    → r.get_value ns_id h ≡ some v
    → IsCurrent r (record d { cached_signal_values = emplace h v d.cached_signal_values })
emplace-IsCurrent r d ns_id h v shared current missing reads n g w found =
    let split = sym (lookup-emplace h g v d.cached_signal_values missing) ∙ found in
    elim (Bool-cases (h == g)) [
      | inl same ↦
          let value : some v ≡ some w = rw same at split in
          rw⁻¹ ((==_iff h g).0 same) (shared n ns_id ∙ reads ∙ value)
      | inr different ↦ current n g w (rw different at split)
    ]

cached-some :
    (h : Handle) (v : ℤ) (d : Debugger)
    → cached h d ≡ some v
    → lookup h d.cached_signal_values ≡ some v
cached-some h v d e = elim (Bool-cases d.use_signal_cache) [
  | inl on ↦ rw on at e
  | inr off ↦ absurd (none-ne-some (rw off at e))
]

keep_value-IsCurrent :
    (r : Reads) (d : Debugger) (ns_id : ℕ) (h : Handle) (v : ℤ)
    → IsShared r h
    → IsCurrent r d
    → cached h d ≡ none
    → r.get_value ns_id h ≡ some v
    → IsCurrent r (keep_value h v d)
keep_value-IsCurrent r d ns_id h v shared current fresh reads =
    elim (Bool-cases d.use_signal_cache) [
      | inr off ↦ rw off current
      | inl on ↦ rw on (emplace-IsCurrent r d ns_id h v shared current (rw on at fresh) reads)
    ]

-- While every value that is kept is the one that all clients read in the cycle: on a handle from which
-- all clients read the same, get_signal_value without delayed values gives what the client answers, and
-- every value that is kept by then is again the one that all clients read.
pub get_signal_value-IsCurrent :
    (r : Reads) (ns_id : ℕ) (h : Handle) (d : Debugger)
    → IsShared r h
    → IsCurrent r d
    → ((get_signal_value r ns_id (some h) false d).0 ≡ r.get_value ns_id h)
      × IsCurrent r (get_signal_value r ns_id (some h) false d).1
unfolding get_signal_value
get_signal_value-IsCurrent r ns_id h d shared current = elim (Option-cases (cached h d)) [
  | inr (v, kept) ↦ (
    rw (kept, get_signal_value) (sym (current ns_id h v (cached-some h v d kept))),
    rw (kept, get_signal_value) current,
  )
  | inl fresh ↦ elim (Option-cases (r.get_value ns_id h)) [
    | inl missing ↦
        (rw (fresh, missing, get_signal_value) refl, rw (fresh, missing, get_signal_value) current)
    | inr (v, reads) ↦ (
      rw (fresh, reads, get_signal_value) refl,
      rw (fresh, reads, get_signal_value)
          (keep_value-IsCurrent r d ns_id h v shared current fresh reads),
    )
  ]
]
