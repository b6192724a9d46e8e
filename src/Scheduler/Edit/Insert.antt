-- ===== src/Scheduler/Edit/Insert.antt =====
-- What add_breakpoint does to the breakpoints that are there.
use hgdb.Prelude.{
  Text, ℕ, ◌≡◌, refl, sym, ◌∙◌, Bool, true, false, inl, inr, ◌⊎◌, Option, none, some, >>=-eq-some,
  List, [], ◌∷◌,
}
use hgdb.Prelude.Maps.{nat_key}
use hgdb.Eval.Debug.{Handle}
use hgdb.Scheduler.Validate.{compute_trigger_symbol}
use hgdb.Eval.Grammar.{debug_expression}
use hgdb.Interfaces.{BreakPoint, SymbolTable, Rtl}
use hgdb.Namespaces.{Manager, Namespace, get_namespaces}
use hgdb.Scheduler.{Kind, data_, DebugBreakPoint, Scheduler}
use hgdb.Scheduler.Edit.Add.{
  Added, nowhere, held, stored, place_bp, enable_condition, insert_bp, set_target, continue_data,
  insert_data, add_data, add_in_kind, add_breakpoint, add_data_breakpoint, find_data,
}

-- No entry was stored: the state is as it was, and no pointer leads into it.
abbrev Untouched : Scheduler → Added → Scheduler → Type 0
Untouched s added s' = (s' ≡ s) × ((added ≡ nowhere) ⊎ ((b : DebugBreakPoint) × (added ≡ held b)))

place_bp_dry :
    (x y : Bool) (b : DebugBreakPoint) (s : Scheduler) (added : Added) (s' : Scheduler)
    → some (place_bp x y true b s) ≡ some (added, s')
    → Untouched s added s'
unfolding place_bp
place_bp_dry false y b s added s' e = (cc, inl (cc))
place_bp_dry true false b s added s' e = (cc, inl (cc))
place_bp_dry true true b s added s' e = (cc, inr (b, cc))

insert_bp_dry :
    (db : SymbolTable) (kind : Kind) (db_bp : BreakPoint) (cond : Text) (ns : Namespace)
    (s : Scheduler) (added : Added) (s' : Scheduler)
    → insert_bp db kind db_bp cond true ns s ≡ some (added, s')
    → Untouched s added s'
unfolding insert_bp
insert_bp_dry db kind db_bp cond ns s added s' e =
    let (i, _, e₁) = >>=-eq-some db_bp.instance_id _ e in
    let (p, _, e₂) = >>=-eq-some (debug_expression cond) _ e₁ in
    let (q, _, e₃) = >>=-eq-some (debug_expression (enable_condition db_bp)) _ e₂ in
    let (t, _, e₄) = >>=-eq-some (compute_trigger_symbol db_bp ns.rtl db) _ e₃ in
    place_bp_dry _ _ _ s added s' e₄

set_target_dry :
    (rtl : Rtl) (target_var : Text) (h : Option Handle) (s s₁ : Scheduler) (added : Added)
    (added' : Added) (s' : Scheduler)
    → Untouched s added s₁
    → set_target rtl target_var h added s₁ ≡ some (added', s')
    → s' ≡ s
unfolding set_target
set_target_dry rtl target_var h s s₁ nowhere added' s' (u, _) e = cc
set_target_dry rtl target_var h s s₁ (held b) added' s' (u, _) e = let q : s₁ ≡ s' = cc in sym q ∙ u
set_target_dry rtl target_var h s s₁ (stored i) added' s' (u, inl q) e = cc
set_target_dry rtl target_var h s s₁ (stored i) added' s' (u, inr (b, q)) e = cc

continue_data_dry :
    (rtl : Rtl) (target_var : Text) (h : Option (Option Handle)) (s s₁ : Scheduler) (bp : Added)
    (others : Added → Scheduler → Option (Added × Scheduler)) (added : Added) (s' : Scheduler)
    → Untouched s bp s₁
    → ((a : Added) (t : Scheduler) → t ≡ s → others a t ≡ some (added, s') → s' ≡ s)
    → continue_data rtl target_var h bp s₁ others ≡ some (added, s')
    → s' ≡ s
unfolding continue_data
continue_data_dry rtl target_var none s s₁ bp others added s' u k e =
    let q : s₁ ≡ s' = cc in sym q ∙ u.0
continue_data_dry rtl target_var (some h) s s₁ bp others added s' u k e =
    let (r, e₁, e₂) = >>=-eq-some (set_target rtl target_var h bp s₁) _ e in
    k r.0 r.1 (set_target_dry rtl target_var h s s₁ bp r.0 r.1 u e₁) e₂

insert_data_dry :
    (db : SymbolTable) (db_bp : BreakPoint) (target_var cond : Text) (nss : List Namespace)
    (before : Added) (s₀ s : Scheduler) (added : Added) (s' : Scheduler)
    → s ≡ s₀
    → insert_data db db_bp target_var cond true nss before s ≡ some (added, s')
    → s' ≡ s₀
unfolding insert_data
insert_data_dry db db_bp target_var cond [] before s₀ s added s' u e =
    let q : s ≡ s' = cc in sym q ∙ u
insert_data_dry db db_bp target_var cond (ns ∷ nss) before s₀ s added s' u e =
    let (r, b₁, e₁) = >>=-eq-some (insert_bp db data_ db_bp cond true ns s) _ e in
    let (p, _, e₂) = >>=-eq-some (debug_expression target_var) _ e₁ in
    let (i, _, e₃) = >>=-eq-some db_bp.instance_id _ e₂ in
    continue_data_dry ns.rtl target_var _ s r.1 r.0 (insert_data db db_bp target_var cond true nss)
      added s' (insert_bp_dry db data_ db_bp cond ns s r.0 r.1 b₁)
      (λ a t same q. insert_data_dry db db_bp target_var cond nss a s t added s' same q) e₃
    ∙ u

-- A dry run of add_data_breakpoint, wherever it has a result, changes nothing in the scheduler.
pub add_data_breakpoint_dry :
    (db : SymbolTable) (m : Manager) (full_name expression : Text) (db_bp : BreakPoint)
    (s : Scheduler) (added : Added) (s' : Scheduler)
    → add_data_breakpoint db m full_name expression db_bp true s ≡ some (added, s')
    → s' ≡ s
unfolding add_data_breakpoint add_breakpoint add_in_kind add_data
add_data_breakpoint_dry db m full_name expression db_bp s added s' e =
    let (nss, _, e₁) = >>=-eq-some (get_namespaces m (db.get_instance_name_from_bp db_bp.id)) _ e in
    found (find_data db_bp.id full_name _ s.breakpoints) nss _ e₁
  where
    found :
        (o : Option ℕ) (nss : List Namespace) (cond : Text)
        → elim o [
          | some i ↦ some (stored i, s)
          | none ↦ insert_data db db_bp full_name cond true nss nowhere s
        ]
          ≡ some (added, s')
        → s' ≡ s
    found none nss cond q = insert_data_dry db db_bp full_name cond nss nowhere s s added s' refl q
    found (some i) nss cond q = let same : s ≡ s' = cc in sym same
