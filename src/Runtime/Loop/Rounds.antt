-- ===== src/Runtime/Loop/Rounds.antt =====
-- A round of the main loop, and how far the scheduler is in its cycle.
use hgdb.Prelude.{
  ℕ, zero, suc, ◌≡◌, refl, sym, ap, ◌∙◌, subst, Bool, true, false, ◌&&◌, Option, none, some, ◌>>=◌,
  if◌then◌else◌, ltb, not, take, drop, ◌/◌, List, [], ◌∷◌, length, arith, Bool-cases, Option-cases,
  inl, inr, get_elem?, set, is_empty, length-set,
}
use hgdb.Eval.Debug.{DebugExpression, correct, eval_debug}
use hgdb.Interfaces.{SymbolTable}
use hgdb.Namespaces.{Namespace}
use hgdb.Scheduler.{DebugBreakPoint, Scheduler}
use hgdb.Scheduler.Next.{stored}
use hgdb.Scheduler.Next.Forward.{cursor}
use hgdb.Monitor.{breakpoint, get_watched_values, WatchType}
use hgdb.Runtime.{cycle_of, Reads, Debugger}
use hgdb.Runtime.Signals.{set_expr_values}
use hgdb.Runtime.Evaluate.{
  Evaluated, with_expression, expression_of, should_trigger, eval_with_values, eval_expression,
  eval_breakpoint, eval_at, eval_range, eval_in_turn, eval_threads, eval_breakpoints,
}
use hgdb.Scheduler.Edit.Drop.{is_breakpoint_only}
use hgdb.Runtime.Loop.{hit_breakpoints, send_from, send_monitor_values, report_hits, eval_round}

with_expression-evaluated :
    (only : Bool) (e : DebugExpression) (bp : DebugBreakPoint)
    → (with_expression only e bp).evaluated ≡ bp.evaluated
with_expression-evaluated true e bp = refl
with_expression-evaluated false e bp = refl

should_trigger-evaluated :
    (r : Reads) (db : SymbolTable) (bp : DebugBreakPoint) (d : Debugger)
    → (should_trigger r db bp d).1.0.evaluated ≡ bp.evaluated
unfolding should_trigger
should_trigger-evaluated r db bp d = elim (Bool-cases (is_empty bp.trigger_symbols)) [
  | inl always ↦ rw always refl
  | inr some_symbols ↦ rw some_symbols refl
]

cursor-set :
    (i : ℕ) (bs : List DebugBreakPoint) (b b' : DebugBreakPoint)
    → get_elem? bs i ≡ some b
    → b'.evaluated ≡ b.evaluated
    → cursor (set bs i b') ≡ cursor bs
cursor-set i [] b b' h e = cc
cursor-set zero (c ∷ bs) b b' h e = ground arith
cursor-set (suc i) (c ∷ bs) b b' h e = ground (arith, cursor-set i bs b b' h e)

-- Whether the breakpoint that an evaluation gives has been evaluated, or what `old` says without one.
abbrev evaluated_of : Bool → Evaluated → Bool
evaluated_of old none = old
evaluated_of old (some (hit, (bp, d))) = bp.evaluated

evaluated_of-bind :
    (old : Bool) (m : Option (Bool × Debugger)) (enabled : Bool) (bp : DebugBreakPoint)
    → bp.evaluated ≡ old
    → evaluated_of old (m >>= λ (data_bp, d). some (enabled && data_bp, (bp, d))) ≡ old
evaluated_of-bind old none enabled bp h = refl
evaluated_of-bind old (some (data_bp, d)) enabled bp h = h

module _ (r : Reads) (db : SymbolTable) (only : Bool) (bp : DebugBreakPoint) where
  eval_with_values-evaluated :
      (e : DebugExpression) (d : Debugger)
      → evaluated_of bp.evaluated (eval_with_values r db only e bp d) ≡ bp.evaluated
  unfolding eval_with_values
  eval_with_values-evaluated e d = elim (Option-cases (eval_debug e)) [
    | inl undefined ↦ rw undefined refl
    | inr ((v, e'), q) ↦ rw q (
        evaluated_of-bind bp.evaluated _ _ _ (
          should_trigger-evaluated r db (with_expression only e' bp) d
          ∙ with_expression-evaluated only e' bp))
  ]

  eval_expression-evaluated :
      (e : DebugExpression) (d : Debugger)
      → evaluated_of bp.evaluated (eval_expression r db only e bp d) ≡ bp.evaluated
  unfolding eval_expression
  eval_expression-evaluated e d = elim (Bool-cases (correct e)) [
    | inr wrong ↦ rw wrong refl
    | inl right ↦ elim (Bool-cases (set_expr_values r bp.ns_id e bp.instance_id d).0) [
      | inr missing ↦ rw (right, missing) (with_expression-evaluated only _ bp)
      | inl ready ↦ rw (right, ready) (eval_with_values-evaluated _ _)
    ]
  ]

  eval_breakpoint-evaluated :
      (d : Debugger) → evaluated_of bp.evaluated (eval_breakpoint r db only bp d) ≡ bp.evaluated
  unfolding eval_breakpoint
  eval_breakpoint-evaluated d = elim (Option-cases (expression_of only bp)) [
    | inl null ↦ rw null refl
    | inr (e, q) ↦ rw q (eval_expression-evaluated e d)
  ]

-- The scheduler `s'` is as far in its cycle as `s`.
abbrev pub Same : Scheduler → Scheduler → Type 0
Same s s' =
    (s'.evaluation_mode ≡ s.evaluation_mode)
    × (cursor s'.breakpoints ≡ cursor s.breakpoints)
    × (length s'.breakpoints ≡ length s.breakpoints)

abbrev pub InRound : Scheduler → Debugger → Type 0
InRound s d = (s' : Scheduler) × (d.scheduler ≡ some s') × Same s s'

abbrev pub KeepsRound {ℓ} : {A : Type ℓ} → Scheduler → Option (A × Debugger) → Type 0
KeepsRound s none = Unit
KeepsRound s (some (x, d)) = InRound s d

pub KeepsRound-bind {ℓ κ} :
    {A : Type ℓ} {B : Type κ} (s : Scheduler) (m : Option (A × Debugger))
    (f : A × Debugger → Option (B × Debugger))
    → KeepsRound s m
    → ((x : A) (d : Debugger) → InRound s d → KeepsRound s (f (x, d)))
    → KeepsRound s (m >>= f)
KeepsRound-bind s none f h k = tt
KeepsRound-bind s (some (x, d)) f h k = k x d h

pub KeepsRound-of {ℓ κ} :
    {A : Type ℓ} {B : Type κ} (s : Scheduler) (m : Option A) (f : A → Option (B × Debugger))
    → ((x : A) → m ≡ some x → KeepsRound s (f x))
    → KeepsRound s (m >>= f)
KeepsRound-of s none f k = tt
KeepsRound-of s (some x) f k = k x refl

abbrev SameIn : Scheduler → Option Scheduler → Type 0
SameIn s none = Unit
SameIn s (some s') = Same s s'

pub InRound-Same :
    (s s' : Scheduler) (d : Debugger) → InRound s d → d.scheduler ≡ some s' → Same s s'
InRound-Same s s' d (s₁, q, same) e = subst (SameIn s) (sym q ∙ e) same

module _ (r : Reads) (db : SymbolTable) (s : Scheduler) where
  eval_at-KeepsRound :
      (is : List ℕ) (i : ℕ) (d : Debugger)
      → InRound s d
      → KeepsRound s (eval_at r db (stored is) i d)
  unfolding eval_at
  eval_at-KeepsRound is i d h = KeepsRound-of s d.scheduler _ (λ s₁ q.
      KeepsRound-of s (get_elem? s₁.breakpoints i) _ (λ bp found.
        KeepsRound-of s (eval_breakpoint r db (is_breakpoint_only s₁) bp d) _ (λ (hit, (bp', d')) e.
          let (mode, at, size) = InRound-Same s s₁ d h q in
          let kept : bp'.evaluated ≡ bp.evaluated =
            ap (evaluated_of bp.evaluated) (sym e)
            ∙ eval_breakpoint-evaluated r db (is_breakpoint_only s₁) bp d in
          (
            record s₁ { breakpoints = set s₁.breakpoints i bp' },
            refl,
            (
              mode,
              cursor-set i s₁.breakpoints bp bp' found kept ∙ at,
              length-set s₁.breakpoints i bp' ∙ size,
            ),
          ))))

  eval_range-KeepsRound :
      (js is : List ℕ) (d : Debugger)
      → InRound s d
      → KeepsRound s (eval_range r db (stored js) is d)
  unfolding eval_range
  eval_range-KeepsRound js [] d h = h
  eval_range-KeepsRound js (i ∷ is) d h =
      KeepsRound-bind s (eval_at r db (stored js) i d) _ (eval_at-KeepsRound js i d h) (λ hit d₁ h₁.
        KeepsRound-bind s (eval_range r db (stored js) is d₁) _ (eval_range-KeepsRound js is d₁ h₁)
          (λ hits d₂ h₂. h₂))

  -- One thread behind the other.
  ranges-KeepsRound :
      (js is₁ is₂ : List ℕ) (d : Debugger)
      → InRound s d
      → KeepsRound s (eval_in_turn r db (stored js) is₁ is₂ d)
  unfolding eval_range
  ranges-KeepsRound js is₁ is₂ d h =
      KeepsRound-bind s (eval_range r db (stored js) is₁ d) _ (eval_range-KeepsRound js is₁ d h)
        (λ hits d₁ h₁.
          KeepsRound-bind s (eval_range r db (stored js) is₂ d₁) _
            (eval_range-KeepsRound js is₂ d₁ h₁) (λ more d₂ h₂. h₂))

  -- The threads, in whatever order they take turns.
  eval_threads-KeepsRound :
      (js : List ℕ) (turns : List Bool) (is₁ is₂ : List ℕ) (d : Debugger)
      → InRound s d
      → KeepsRound s (eval_threads r db (stored js) turns is₁ is₂ d)
  unfolding eval_threads eval_range
  eval_threads-KeepsRound js (true ∷ turns) (i ∷ is₁) (j ∷ is₂) d h =
      KeepsRound-bind s (eval_at r db (stored js) i d) _ (eval_at-KeepsRound js i d h) (λ hit d₁ h₁.
        KeepsRound-bind s (eval_threads r db (stored js) turns is₁ (j ∷ is₂) d₁) _
          (eval_threads-KeepsRound js turns is₁ (j ∷ is₂) d₁ h₁) (λ hits d₂ h₂. h₂))
  eval_threads-KeepsRound js (false ∷ turns) (i ∷ is₁) (j ∷ is₂) d h =
      KeepsRound-bind s (eval_at r db (stored js) j d) _ (eval_at-KeepsRound js j d h) (λ hit d₁ h₁.
        KeepsRound-bind s (eval_threads r db (stored js) turns (i ∷ is₁) is₂ d₁) _
          (eval_threads-KeepsRound js turns (i ∷ is₁) is₂ d₁ h₁) (λ hits d₂ h₂. h₂))
  eval_threads-KeepsRound js [] is₁ is₂ d h = ranges-KeepsRound js is₁ is₂ d h
  eval_threads-KeepsRound js (true ∷ turns) [] is₂ d h = ranges-KeepsRound js [] is₂ d h
  eval_threads-KeepsRound js (true ∷ turns) (i ∷ is₁) [] d h = ranges-KeepsRound js (i ∷ is₁) [] d h
  eval_threads-KeepsRound js (false ∷ turns) [] is₂ d h = ranges-KeepsRound js [] is₂ d h
  eval_threads-KeepsRound js (false ∷ turns) (i ∷ is₁) [] d h =
      ranges-KeepsRound js (i ∷ is₁) [] d h

  if-KeepsRound {ℓ} :
      {A : Type ℓ} (b : Bool) (x y : Option (A × Debugger))
      → KeepsRound s x
      → KeepsRound s y
      → KeepsRound s (if b then x else y)
  if-KeepsRound true x y h k = h
  if-KeepsRound false x y h k = k

  eval_breakpoints-KeepsRound :
      (commercial : Bool) (is : List ℕ) (d : Debugger)
      → InRound s d
      → KeepsRound s (eval_breakpoints r db commercial (stored is) d)
  unfolding eval_breakpoints
  eval_breakpoints-KeepsRound commercial is d h =
      if-KeepsRound (ltb 32 (length is) && not commercial) _ _
        (KeepsRound-bind s _ _
          (eval_threads-KeepsRound is (r.turns is) (take (length is / 2) is)
            (drop (length is / 2) is) d h)
          (λ hits d₁ h₁. h₁))
        (eval_range-KeepsRound is is d h)

  pub send_from-KeepsRound :
      (type : WatchType) (i : ℕ) (namespaces : List Namespace) (d : Debugger)
      → InRound s d
      → KeepsRound s (send_from r type i namespaces d)
  unfolding send_from
  send_from-KeepsRound type i [] d h = h
  send_from-KeepsRound type i (ns ∷ rest) d h =
      KeepsRound-of s (get_elem? d.monitors i) _ (λ m found.
        KeepsRound-of s (get_watched_values type (cycle_of r i) m) _ (λ (values, m') e.
          KeepsRound-bind s (send_from r type (suc i) rest _) _
            (send_from-KeepsRound type (suc i) rest _ h) (λ messages d' h'. h')))

  report_hits-KeepsRound :
      (wait : Debugger → Debugger) (bps : List DebugBreakPoint) (d : Debugger)
      → ((d : Debugger) → InRound s d → InRound s (wait d))
      → InRound s d
      → KeepsRound s (report_hits r wait bps d)
  unfolding report_hits send_monitor_values
  report_hits-KeepsRound wait [] d keeps h = h
  report_hits-KeepsRound wait (b ∷ bps) d keeps h =
      KeepsRound-bind s (send_monitor_values r breakpoint d) _
        (send_from-KeepsRound breakpoint 0 d.namespaces.namespaces d h)
        (λ messages d' h'. keeps d' h')

  pub eval_round-KeepsRound :
      (commercial : Bool) (wait : Debugger → Debugger) (is : List ℕ) (d : Debugger)
      → ((d : Debugger) → InRound s d → InRound s (wait d))
      → InRound s d
      → KeepsRound s (eval_round r db commercial wait (stored is) d)
  unfolding eval_round
  eval_round-KeepsRound commercial wait is d keeps h =
      KeepsRound-bind s (eval_breakpoints r db commercial (stored is) d) _
        (eval_breakpoints-KeepsRound commercial is d h)
        (λ hits d₁ h₁. KeepsRound-of s d₁.scheduler _ (λ s₁ q.
          report_hits-KeepsRound wait (hit_breakpoints hits is s₁.breakpoints) d₁ keeps h₁))
