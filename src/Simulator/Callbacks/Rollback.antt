-- ===== src/Simulator/Callbacks/Rollback.antt =====
-- monitor_signals, where it succeeds and where it fails.
use hgdb.Prelude.{
  Text, ◌≡◌, ◌⊎◌, refl, sym, ap, ◌∙◌, subst, Bool, true, false, Option-cases, inl, inr, Option,
  none, some, List, [], ◌∷◌, ◌++◌, All, All-append, append-nil, append_assoc,
}
use hgdb.Prelude.Maps.{lookup, emplace, text_key, nat_key}
use hgdb.Eval.Debug.{Handle}
use hgdb.Simulator.{Vpi, Client}
use hgdb.Simulator.Names.{get_full_name}
use hgdb.Simulator.Callbacks.{
  Register, add_call_back, callback_names, remove_all, callback_name, try_monitor, monitor_from,
  monitor_signals,
}
use hgdb.Simulator.Callbacks.Table.{
  Table, callback_handles, IsFresh, callback_handles-append, with_table, remove_all-append,
  emplace-append, callback_names-append,
}

module _ (vpi : Vpi) (register : Register) (c : Client) (name : Text) where
  try_monitor_unknown :
      vpi.handle_by_name (get_full_name c name) ≡ none
      → try_monitor vpi register (get_full_name c name) c ≡ (none, c)
  unfolding try_monitor
  try_monitor_unknown unknown = rw (unknown, try_monitor) refl

  try_monitor_refused :
      (g : Handle)
      → vpi.handle_by_name (get_full_name c name) ≡ some g
      → lookup (callback_name (get_full_name c name)) c.cb_handles ≡ none
      → register (callback_name (get_full_name c name)) ≡ none
      → try_monitor vpi register (get_full_name c name) c ≡ (none, c)
  unfolding try_monitor add_call_back
  try_monitor_refused g known absent refused =
      rw (known, try_monitor) (rw (absent, add_call_back) (rw refused refl))

  try_monitor_accepted :
      (g h : Handle)
      → vpi.handle_by_name (get_full_name c name) ≡ some g
      → lookup (callback_name (get_full_name c name)) c.cb_handles ≡ none
      → register (callback_name (get_full_name c name)) ≡ some h
      → try_monitor vpi register (get_full_name c name) c ≡ (
        some h,
        with_table c
            (emplace (callback_name (get_full_name c name)) h c.cb_handles)
            (c.registered ++ h ∷ []),
      )
  unfolding try_monitor add_call_back
  try_monitor_accepted g h known absent accepted =
      rw (known, try_monitor) (rw (absent, add_call_back) (rw accepted refl))

  monitor_from_failed :
      (c₁ : Client) (added names : List Text)
      → try_monitor vpi register (get_full_name c name) c ≡ (none, c₁)
      → monitor_from vpi register added (name ∷ names) c ≡ (false, remove_all added c₁)
  unfolding monitor_from
  monitor_from_failed c₁ added names tried =
      ap
        (λ (t : Option Handle × Client). elim t.0 [
          | none ↦ (false, remove_all added t.1)
          | some h ↦
              monitor_from vpi register (added ++ callback_name (get_full_name c name) ∷ []) names
                t.1
        ])
        tried

  monitor_from_added :
      (h : Handle) (c₁ : Client) (added names : List Text)
      → try_monitor vpi register (get_full_name c name) c ≡ (some h, c₁)
      → monitor_from vpi register added (name ∷ names) c
        ≡ monitor_from vpi register (added ++ callback_name (get_full_name c name) ∷ []) names c₁
  unfolding monitor_from
  monitor_from_added h c₁ added names tried =
      ap
        (λ (t : Option Handle × Client). elim t.0 [
          | none ↦ (false, remove_all added t.1)
          | some h ↦
              monitor_from vpi register (added ++ callback_name (get_full_name c name) ∷ []) names
                t.1
        ])
        tried

abbrev gone : Client → Bool × Client
gone c = (false, c)

module _ (vpi : Vpi) (register : Register) (c : Client) (old : Table) (held : List Handle) where
  -- The callbacks of the names that are left are not registered yet, each comes once, and what the
  -- simulator registers for it is no handle of before.
  abbrev pub AreNew : List Text → Table → Type 0
  AreNew [] new = Unit
  AreNew (name ∷ names) new =
      let full = callback_name (get_full_name c name) in
      (lookup full (old ++ new) ≡ none)
      × ((h : Handle)
          → register full ≡ some h
          → IsFresh old held (full, h) × AreNew names (new ++ (full, h) ∷ []))

  -- The names of the callbacks of signals.
  abbrev pub monitor_names : List Text → List Text
  monitor_names [] = []
  monitor_names (name ∷ names) = callback_name (get_full_name c name) ∷ monitor_names names

  -- Either all callbacks are registered behind those of before, in the table and in the simulator, or
  -- the client and what the simulator holds are as before.
  abbrev pub Registered : List Text → Bool × Client → Type 0
  Registered names result =
      ((new : Table) × (result
          ≡ (true, record c { cb_handles = old ++ new; registered = held ++ callback_handles new }))
        × (callback_names new ≡ names)
        × All (IsFresh old held) new)
      ⊎ (result ≡ (false, record c { cb_handles = old; registered = held }))

  monitor_from-Registered :
      (names : List Text) (new : Table)
      → AreNew names new
      → All (IsFresh old held) new
      → Registered (callback_names new ++ monitor_names names) (
          monitor_from vpi register
            (callback_names new)
            names
            (with_table c (old ++ new) (held ++ callback_handles new)))
  unfolding monitor_from get_full_name
  monitor_from-Registered [] new are_new fresh =
      inl (new, refl, sym (append-nil (callback_names new)), fresh)
  monitor_from-Registered (name ∷ names) new (absent, are_new) fresh =
      let full = callback_name (get_full_name c name) in
      let c₀ = with_table c (old ++ new) (held ++ callback_handles new) in
      let added = callback_names new in
      let taken_back : gone (remove_all added c₀) ≡ gone (with_table c old held) =
        ap gone (remove_all-append c old new held fresh) in
      elim (Option-cases (vpi.handle_by_name (get_full_name c name))) [
        | inl unknown ↦ inr (
            monitor_from_failed vpi register c₀ name c₀ added names
              (try_monitor_unknown vpi register c₀ name unknown)
            ∙ taken_back)
        | inr (g, known) ↦ elim (Option-cases (register full)) [
          | inl refused ↦ inr (
              monitor_from_failed vpi register c₀ name c₀ added names
                (try_monitor_refused vpi register c₀ name g known absent refused)
              ∙ taken_back)
          | inr (h, accepted) ↦
              let (first, later) = are_new h accepted in
              let grown = new ++ (full, h) ∷ [] in
              let step =
                monitor_from_added vpi register c₀ name h _ added names
                  (try_monitor_accepted vpi register c₀ name g h known absent accepted) in
              let table : emplace full h (old ++ new) ≡ old ++ grown =
                emplace-append (old ++ new) full h absent ∙ append_assoc old new ((full, h) ∷ []) in
              let hold : (held ++ callback_handles new) ++ h ∷ [] ≡ held ++ callback_handles grown =
                append_assoc held (callback_handles new) (h ∷ [])
                ∙ ap (λ hs. held ++ hs) (sym (callback_handles-append new full h)) in
              let same : monitor_from vpi register added (name ∷ names) c₀
                  ≡ monitor_from vpi register (callback_names grown) names
                      (with_table c (old ++ grown) (held ++ callback_handles grown)) =
                step
                ∙ ap
                    (λ t.
                      monitor_from vpi register (added ++ full ∷ []) names
                        (with_table c t ((held ++ callback_handles new) ++ h ∷ [])))
                    table
                ∙ ap
                    (λ hs.
                      monitor_from vpi register (added ++ full ∷ []) names
                        (with_table c (old ++ grown) hs))
                    hold
                ∙ ap
                    (λ a.
                      monitor_from vpi register a names
                        (with_table c (old ++ grown) (held ++ callback_handles grown)))
                    (sym (callback_names-append new full h)) in
              let all_names : callback_names grown ++ monitor_names names
                  ≡ added ++ full ∷ monitor_names names =
                ap (λ a. a ++ monitor_names names) (callback_names-append new full h)
                ∙ append_assoc added (full ∷ []) (monitor_names names) in
              elim (monitor_from-Registered names grown later
                (All-append (IsFresh old held) new ((full, h) ∷ []) fresh (first, tt))) [
                  | inl (new', done, named, fresh') ↦
                      inl (new', same ∙ done, named ∙ all_names, fresh')
                  | inr undone ↦ inr (same ∙ undone)
                ]
        ]
      ]

-- For signals whose callbacks are not registered yet, each once, and get handles that neither a callback
-- of before has nor the simulator holds: monitor_signals either registers a callback for every signal,
-- in their order and behind those of before, or fails and leaves the client and what the simulator holds
-- as they were, with every callback that it registered removed from the table and from the simulator.
pub monitor_signals-Registered :
    (vpi : Vpi) (register : Register) (c : Client) (signals : List Text)
    → AreNew vpi register c c.cb_handles c.registered signals []
    → Registered vpi register c c.cb_handles c.registered
        (monitor_names vpi register c c.cb_handles c.registered signals)
        (monitor_signals vpi register signals c)
unfolding monitor_signals callback_names callback_handles
monitor_signals-Registered vpi register c signals are_new =
    let old = c.cb_handles in
    let held = c.registered in
    subst
      (λ hs.
        Registered vpi register c old held (monitor_names vpi register c old held signals)
          (monitor_from vpi register [] signals (with_table c old hs)))
      (append-nil held)
      (subst
        (λ table.
          Registered vpi register c old held (monitor_names vpi register c old held signals)
            (monitor_from vpi register [] signals (with_table c table (held ++ []))))
        (append-nil old) (monitor_from-Registered vpi register c old held signals [] are_new tt))
