-- ===== src/Simulator/Callbacks/Table.antt =====
-- The table of callbacks, where callbacks are added behind others and taken away.
use hgdb.Prelude.{
  Text, ◌==◌, ◌≡◌, refl, ap, ◌∙◌, Bool, false, ◌||◌, none, some, List, [], ◌∷◌, ◌++◌, text_eq_refl,
  arith, All, append-nil,
}
use hgdb.Prelude.Maps.{lookup, emplace, contains, text_key, nat_key}
use hgdb.Eval.Debug.{Handle}
use hgdb.Simulator.{Client}
use hgdb.Simulator.Callbacks.{
  forget_handle, unregister, remove_call_back, callback_names, remove_all,
}

abbrev pub Table : Type 0
Table = List (Text × Handle)

-- No entry has the handle.
abbrev pub has_handle : Handle → Table → Bool
has_handle h [] = false
has_handle h ((name, g) ∷ table) = g == h || has_handle h table

-- The handles of callbacks, in their order.
unfoldable pub callback_handles : Table → List Handle
callback_handles [] = []
callback_handles ((name, h) ∷ table) = h ∷ callback_handles table

-- A callback whose name and handle are new to the table, and whose handle the simulator did not hold.
abbrev pub IsFresh : Table → List Handle → Text × Handle → Type 0
IsFresh old held (name, h) =
    (lookup name old ≡ none) × (has_handle h old ≡ false) × (contains h held ≡ false)

lookup-append :
    (old new : Table) (name : Text) (h : Handle)
    → lookup name old ≡ none
    → lookup name (old ++ (name, h) ∷ new) ≡ some h
unfolding lookup
lookup-append [] new name h e = rw (text_eq_refl name) refl
lookup-append ((other, g) ∷ old) new name h e = ground (arith, lookup-append old new name h)

forget_handle-append :
    (old new : Table) (name : Text) (h : Handle)
    → has_handle h old ≡ false
    → forget_handle h (old ++ (name, h) ∷ new) ≡ old ++ new
unfolding forget_handle
forget_handle-append [] new name h e = ground arith
forget_handle-append ((other, g) ∷ old) new name h e =
    ground (arith, forget_handle-append old new name h)

unregister-append :
    (held new : List Handle) (h : Handle)
    → contains h held ≡ false
    → unregister h (held ++ h ∷ new) ≡ held ++ new
unfolding unregister contains
unregister-append [] new h e = ground arith
unregister-append (g ∷ held) new h e = ground (arith, unregister-append held new h)

pub callback_handles-append :
    (new : Table) (name : Text) (h : Handle)
    → callback_handles (new ++ (name, h) ∷ []) ≡ callback_handles new ++ h ∷ []
unfolding callback_handles
callback_handles-append [] name h = refl
callback_handles-append ((other, g) ∷ new) name h =
    ap (λ hs. g ∷ hs) (callback_handles-append new name h)

abbrev pub with_table : Client → Table → List Handle → Client
with_table c table held = record c { cb_handles = table; registered = held }

remove_call_back-append :
    (c : Client) (old new : Table) (held later : List Handle) (name : Text) (h : Handle)
    → IsFresh old held (name, h)
    → remove_call_back name (with_table c (old ++ (name, h) ∷ new) (held ++ h ∷ later))
      ≡ with_table c (old ++ new) (held ++ later)
unfolding remove_call_back
remove_call_back-append c old new held later name h (absent, unused, not_held) =
    rw (lookup-append old new name h absent, remove_call_back)
      (ap (λ table. with_table c table (unregister h (held ++ h ∷ later)))
          (forget_handle-append old new name h unused)
        ∙ ap (with_table c (old ++ new)) (unregister-append held later h not_held))

pub remove_all-append :
    (c : Client) (old new : Table) (held : List Handle)
    → All (IsFresh old held) new
    → remove_all (callback_names new) (with_table c (old ++ new) (held ++ callback_handles new))
      ≡ with_table c old held
unfolding remove_all callback_names callback_handles
remove_all-append c old [] held fresh =
    ap (λ table. with_table c table (held ++ [])) (append-nil old)
    ∙ ap (with_table c old) (append-nil held)
remove_all-append c old ((name, h) ∷ new) held (first, fresh) =
    ap (remove_all (callback_names new))
      (remove_call_back-append c old new held (callback_handles new) name h first)
    ∙ remove_all-append c old new held fresh

pub emplace-append :
    (table : Table) (name : Text) (h : Handle)
    → lookup name table ≡ none
    → emplace name h table ≡ table ++ (name, h) ∷ []
unfolding emplace lookup
emplace-append [] name h e = refl
emplace-append ((other, g) ∷ table) name h e = ground (arith, emplace-append table name h)

pub callback_names-append :
    (new : Table) (name : Text) (h : Handle)
    → callback_names (new ++ (name, h) ∷ []) ≡ callback_names new ++ name ∷ []
unfolding callback_names
callback_names-append [] name h = refl
callback_names-append ((other, g) ∷ new) name h =
    ap (λ names. other ∷ names) (callback_names-append new name h)
