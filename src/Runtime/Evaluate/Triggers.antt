-- ===== src/Runtime/Evaluate/Triggers.antt =====
-- should_trigger of src/debug.cc, called twice in a cycle.
use hgdb.Prelude.{
  Text, ℕ, ◌≡◌, ◌↔◌, refl, sym, ap, ◌∙◌, Bool, false, ◌||◌, Bool-cases, inl, inr, Option, none,
  some, List, [], ◌∷◌, arith, text_eq, text_eq_iff, text_eq_refl, is_empty,
}
use hgdb.Prelude.Int.{ℤ}
use hgdb.Prelude.Maps.{lookup, assign, lookup-assign, contains_key, text_key}
use hgdb.Eval.Debug.{Handle}
use hgdb.Interfaces.{SymbolTable}
use hgdb.Scheduler.{DebugBreakPoint}
use hgdb.Monitor.{differs}
use hgdb.Runtime.{Reads, Debugger}
use hgdb.Runtime.Signals.{get_signal_value}
use hgdb.Runtime.Signals.Cache.{IsCurrent, get_signal_value-IsCurrent}
use hgdb.Runtime.Evaluate.{is_new, trigger_from, should_trigger}

abbrev pub Symbols : Type 0
Symbols = List (Text × Handle)

-- A map has every symbol once.
abbrev pub IsMap : Symbols → Type 0
IsMap [] = Unit
IsMap ((symbol, h) ∷ rest) = (contains_key symbol rest ≡ false) × IsMap rest

-- Every client reads the same value of every symbol.
abbrev pub Readable : Reads → (Handle → ℤ) → Symbols → Type 0
Readable r value [] = Unit
Readable r value ((symbol, h) ∷ rest) =
    ((ns_id : ℕ) → r.get_value ns_id h ≡ some (value h)) × Readable r value rest

-- The trigger values are the values of the symbols.
abbrev pub UpToDate : (Handle → ℤ) → Symbols → List (Text × ℤ) → Type 0
UpToDate value [] values = Unit
UpToDate value ((symbol, h) ∷ rest) values =
    (lookup symbol values ≡ some (value h)) × UpToDate value rest values

differs_iff : (old : Option ℤ) (v : ℤ) → (differs old v ≡ false) ↔ (old ≡ some v)
differs_iff none v = (λ e. cc, λ e. cc)
differs_iff (some w) v = ground arith

||_false : (a b : Bool) → ((a || b) ≡ false) ↔ ((a ≡ false) × (b ≡ false))
||_false a b = ground arith

or-false : (a : Bool) → a ≡ (a || false)
or-false a = ground arith

or_assoc : (a b c : Bool) → ((a || b) || c) ≡ (a || (b || c))
or_assoc a b c = ground arith

module _ (value : Handle → ℤ) where
  -- Whether a value is new, and the trigger values behind the symbols.
  abbrev has_news : Symbols → List (Text × ℤ) → Bool
  has_news [] values = false
  has_news ((symbol, h) ∷ rest) values =
      is_new symbol (value h) values || has_news rest (assign symbol (value h) values)

  abbrev assigned : Symbols → List (Text × ℤ) → List (Text × ℤ)
  assigned [] values = values
  assigned ((symbol, h) ∷ rest) values = assigned rest (assign symbol (value h) values)

  -- A value that is there already changes no other one.
  assign_again :
      (symbol other : Text) (v : ℤ) (values : List (Text × ℤ))
      → lookup symbol values ≡ some v
      → lookup other (assign symbol v values) ≡ lookup other values
  assign_again symbol other v values h = elim (Bool-cases (text_eq symbol other)) [
    | inl same ↦
        lookup-assign symbol other v values
        ∙ rw same (sym h ∙ ap (λ s. lookup s values) ((text_eq_iff symbol other).0 same))
    | inr different ↦ lookup-assign symbol other v values ∙ rw different refl
  ]

  UpToDate-lookup :
      (symbols : Symbols) (values values' : List (Text × ℤ))
      → ((symbol : Text) → lookup symbol values' ≡ lookup symbol values)
      → UpToDate value symbols values
      → UpToDate value symbols values'
  UpToDate-lookup [] values values' same h = tt
  UpToDate-lookup ((symbol, h) ∷ rest) values values' same (first, others) =
      (same symbol ∙ first, UpToDate-lookup rest values values' same others)

  -- Nothing is new exactly if all the trigger values are those of the symbols.
  has_news_iff :
      (symbols : Symbols) (values : List (Text × ℤ))
      → (has_news symbols values ≡ false) ↔ UpToDate value symbols values
  has_news_iff [] values = (λ e. tt, λ h. refl)
  has_news_iff ((symbol, h) ∷ rest) values =
      let later = has_news_iff rest (assign symbol (value h) values) in
      (
        λ e.
            let (known, quiet) = (||_false (is_new symbol (value h) values) _).0 e in
            let first = (differs_iff (lookup symbol values) (value h)).0 known in
            (
              first,
              UpToDate-lookup rest (assign symbol (value h) values) values
                  (λ other. sym (assign_again symbol other (value h) values first)) (later.0 quiet),
            ),
        λ (first, others). (||_false (is_new symbol (value h) values) _).1 (
          (differs_iff (lookup symbol values) (value h)).1 first,
          later.1 (
              UpToDate-lookup rest values (assign symbol (value h) values)
                (λ other. assign_again symbol other (value h) values first) others),
        ),
      )

  lookup-assigned :
      (symbols : Symbols) (other : Text) (values : List (Text × ℤ))
      → contains_key other symbols ≡ false
      → lookup other (assigned symbols values) ≡ lookup other values
  unfolding contains_key
  lookup-assigned [] other values absent = refl
  lookup-assigned ((symbol, h) ∷ rest) other values absent =
      let (different, others) = (||_false (text_eq symbol other) _).0 absent in
      lookup-assigned rest other (assign symbol (value h) values) others
      ∙ lookup-assign symbol other (value h) values
      ∙ rw different refl

  UpToDate-assigned :
      (symbols : Symbols) (values : List (Text × ℤ))
      → IsMap symbols
      → UpToDate value symbols (assigned symbols values)
  UpToDate-assigned [] values distinct = tt
  UpToDate-assigned ((symbol, h) ∷ rest) values (absent, distinct) = (
    lookup-assigned rest symbol (assign symbol (value h) values) absent
        ∙ lookup-assign symbol symbol (value h) values
        ∙ rw (text_eq_refl symbol) refl,
    UpToDate-assigned rest (assign symbol (value h) values) distinct,
  )

module _ (r : Reads) (db : SymbolTable) (bp : DebugBreakPoint) (value : Handle → ℤ) where
  -- With a value for every symbol the loop takes them all in.
  trigger_from-news :
      (symbols : Symbols) (fired : Bool) (values : List (Text × ℤ)) (d : Debugger)
      → Readable r value symbols
      → IsCurrent r d
      → (d' : Debugger) × (trigger_from r db bp symbols fired values d
          ≡ ((fired || has_news value symbols values), (assigned value symbols values, d')))
        × IsCurrent r d'
  unfolding trigger_from
  trigger_from-news [] fired values d reads current =
      (d, ap (λ b. (b, (values, d))) (or-false fired), current)
  trigger_from-news ((symbol, h) ∷ rest) fired values d (first, others) current =
      let (read, current') =
        get_signal_value-IsCurrent r bp.ns_id h d (λ n m. first n ∙ sym (first m)) current in
      let (d', e, p) =
        trigger_from-news rest (fired || is_new symbol (value h) values)
          (assign symbol (value h) values) (get_signal_value r bp.ns_id (some h) false d).1 others
          current' in
      (
        d',
        rw (read ∙ first bp.ns_id, trigger_from)
            (e
              ∙ ap (λ b. (b, (assigned value rest (assign symbol (value h) values), d')))
                  (or_assoc fired _ _)),
        p,
      )

-- For a breakpoint that has trigger symbols, each once, of which all clients read the same values in the
-- cycle, while every value that is kept is the one that all clients read: should_trigger is false exactly
-- if the trigger values are the values of the symbols, and a second call in the cycle gives false.
pub should_trigger_again :
    (r : Reads) (db : SymbolTable) (bp : DebugBreakPoint) (value : Handle → ℤ) (d : Debugger)
    → IsCurrent r d
    → is_empty bp.trigger_symbols ≡ false
    → IsMap bp.trigger_symbols
    → Readable r value bp.trigger_symbols
    → (fired : Bool) × (bp' : DebugBreakPoint) × (d' : Debugger) × (should_trigger r db bp d
        ≡ (fired, (bp', d')))
      × ((fired ≡ false) ↔ UpToDate value bp.trigger_symbols bp.trigger_values)
      × ((should_trigger r db bp' d').0 ≡ false)
unfolding should_trigger
should_trigger_again r db bp value d current nonempty distinct reads =
    let symbols = bp.trigger_symbols in
    let (d₁, e₁, current₁) =
      trigger_from-news r db bp value symbols false bp.trigger_values d reads current in
    let values = assigned value symbols bp.trigger_values in
    let bp₁ : DebugBreakPoint = record bp { trigger_values = values } in
    let (d₂, e₂, current₂) =
      trigger_from-news r db bp₁ value symbols false values d₁ reads current₁ in
    let quiet : has_news value symbols values ≡ false =
      (has_news_iff value symbols values).1
        (UpToDate-assigned value symbols bp.trigger_values distinct) in
    (
      has_news value symbols bp.trigger_values,
      bp₁,
      d₁,
      rw (nonempty, e₁, should_trigger) refl,
      has_news_iff value symbols bp.trigger_values,
      rw (nonempty, e₂, should_trigger) quiet,
    )
