-- ===== src/Runtime/Requests/Written.antt =====
-- handle_set_value and the values that are kept of signals.
use hgdb.Prelude.{
  Text, ℕ, ◌==◌, ==_iff, ◌≡◌, ◌≢◌, refl, sym, ◌∙◌, true, false, Bool-cases, inl, inr, some,
}
use hgdb.Prelude.Maps.{lookup-erase_key, nat_key}
use hgdb.Eval.Debug.{Handle}
use hgdb.Namespaces.{Namespace}
use hgdb.Runtime.{Reads, Debugger}
use hgdb.Runtime.Signals.Cache.{IsCurrent, none-ne-some}
use hgdb.Runtime.Requests.{success, written}

-- A write that the client took to one handle, and after which the simulator's values of all others
-- are what they were, leaves every value that is kept current, if the debugger keeps values.
pub written-IsCurrent :
    (r r' : Reads) (ns : Namespace) (full_name : Text) (h : Handle) (d : Debugger)
    → ns.rtl.get_handle full_name ≡ some h
    → d.use_signal_cache ≡ true
    → ((ns_id : ℕ) (g : Handle) → h ≢ g → r'.get_value ns_id g ≡ r.get_value ns_id g)
    → IsCurrent r d
    → ((written ns full_name true d).0 ≡ success) × IsCurrent r' (written ns full_name true d).1
unfolding written
written-IsCurrent r r' ns full_name h d found on others current = (
  rw (found, written) refl,
  rw (found, on, written)
      (λ ns_id g v kept.
        let split = sym (lookup-erase_key h g d.cached_signal_values) ∙ kept in
        elim (Bool-cases (h == g)) [
          | inl same ↦ absurd (none-ne-some (rw same at split))
          | inr different ↦
              let apart : h ≢ g = λ e. true-ne-false (sym ((==_iff h g).1 e) ∙ different) in
              others ns_id g apart ∙ current ns_id g v (rw different at split)
        ]),
)
  where
    true-ne-false : true ≢ false
    true-ne-false e = cc
