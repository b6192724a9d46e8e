-- ===== src/Namespaces/Mapping.antt =====
-- compute_mapping of src/namespace.cc: which namespaces a definition name stands for.
use hgdb.Prelude.{
  Text, text_eq, text_eq_iff, ℕ, suc, ◌≡◌, refl, sym, ap, ◌∙◌, Bool, true, false, Option-cases, inl,
  inr, if◌then◌else◌, Option, none, some, List, [], ◌∷◌, ◌++◌, append_assoc, append-nil,
}
use hgdb.Prelude.Maps.{lookup, lookup-assign, text_key}
use hgdb.Namespaces.{Namespace, Manager, or_empty, map_namespace, map_from, compute_mapping}

-- The positions of the namespaces with the definition name, from position `i` on.
abbrev pub positions : Text → ℕ → List Namespace → List ℕ
positions name i [] = []
positions name i (ns ∷ rest) =
    let later = positions name (suc i) rest in if text_eq ns.def_name name then i ∷ later else later

-- The indexes that a table has for a name.
abbrev pub indexes_at : Text → List (Text × List ℕ) → List ℕ
indexes_at name table = or_empty (lookup name table)

assigned_indexes :
    (b : Bool) (old o : Option (List ℕ)) (i : ℕ)
    → (b ≡ true → old ≡ o)
    → or_empty (if b then some (or_empty old ++ i ∷ []) else o)
      ≡ or_empty o ++ (if b then i ∷ [] else [])
assigned_indexes true old o i same = ap (λ x. or_empty x ++ i ∷ []) (same refl)
assigned_indexes false old o i same = sym (append-nil (or_empty o))

same_entry :
    (name d : Text) (table : List (Text × List ℕ)) (old : Option (List ℕ))
    → lookup d table ≡ old
    → text_eq d name ≡ true
    → old ≡ lookup name table
same_entry name d table old e h = sym e ∙ ap (λ key. lookup key table) ((text_eq_iff d name).0 h)

indexes_at-map_namespace :
    (name d : Text) (i : ℕ) (table : List (Text × List ℕ))
    → indexes_at name (map_namespace d i table)
      ≡ indexes_at name table ++ (if text_eq d name then i ∷ [] else [])
unfolding map_namespace
indexes_at-map_namespace name d i table = elim (Option-cases (lookup d table)) [
  | inl missing ↦
      rw (missing, map_namespace)
        (ap or_empty (lookup-assign d name (i ∷ []) table)
          ∙ assigned_indexes (text_eq d name) none _ i (same_entry name d table none missing))
  | inr (is, found) ↦
      rw (found, map_namespace)
        (ap or_empty (lookup-assign d name (is ++ i ∷ []) table)
          ∙ assigned_indexes (text_eq d name) (some is) _ i
              (same_entry name d table (some is) found))
]

indexes_at-map_from :
    (name : Text) (i : ℕ) (nss : List Namespace) (table : List (Text × List ℕ))
    → indexes_at name (map_from i nss table) ≡ indexes_at name table ++ positions name i nss
unfolding map_from
indexes_at-map_from name i [] table = sym (append-nil _)
indexes_at-map_from name i (ns ∷ rest) table =
    indexes_at-map_from name (suc i) rest (map_namespace ns.def_name i table)
    ∙ ap (λ xs. xs ++ positions name (suc i) rest)
        (indexes_at-map_namespace name ns.def_name i table)
    ∙ append_assoc (indexes_at name table) _ _
    ∙ ap (λ xs. indexes_at name table ++ xs) (step_lem (text_eq ns.def_name name) i _)
  where
    step_lem :
        (b : Bool) (i : ℕ) (later : List ℕ)
        → (if b then i ∷ [] else []) ++ later ≡ (if b then i ∷ later else later)
    step_lem true i later = refl
    step_lem false i later = refl

-- For every definition name, compute_mapping puts the namespaces that have it behind those that the
-- table already has for it, each of them once and in their order; a table that is empty before has just
-- these. So a second call lists every namespace a second time.
pub compute_mapping-positions :
    (m : Manager) (name : Text)
    → indexes_at name (compute_mapping m).mapped_namespaces
      ≡ indexes_at name m.mapped_namespaces ++ positions name 0 m.namespaces
unfolding compute_mapping lookup
compute_mapping-positions m name = indexes_at-map_from name 0 m.namespaces m.mapped_namespaces
