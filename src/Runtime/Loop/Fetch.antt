-- ===== src/Runtime/Loop/Fetch.antt =====
-- What the main loop gets from the scheduler in a cycle that stops at breakpoints.
use hgdb.Prelude.{
  ℕ, ◌≤◌, ◌<◌, ◌≡◌, ◌⊎◌, refl, sym, ap, ◌∙◌, Bool, true, not, ◌&&◌, Option, none, some, ◌>>=◌, List,
  [], ◌∷◌, length, arith, Bool-cases, Option-cases, inl, inr, get_elem?, is_empty,
}
use hgdb.Interfaces.{SymbolTable}
use hgdb.Scheduler.{Scheduler, EvaluationMode, breakpoint_only, normal, is_kind}
use hgdb.Scheduler.Next.{
  stored, next_breakpoints, next_in_mode, next_normal_breakpoints, scan_breakpoints, choose_forward,
  last_evaluated, start_index,
}
use hgdb.Scheduler.Next.Forward.{cursor, cursor-le, next_normal_breakpoints-Progress, Progress}
use hgdb.Runtime.{Debugger}
use hgdb.Runtime.Loop.{fetch}

-- The mode of the scheduler that an operation gives.
abbrev mode_of {ℓ} : {A : Type ℓ} → EvaluationMode → Option (A × Scheduler) → EvaluationMode
mode_of old none = old
mode_of old (some (x, s)) = s.evaluation_mode

choose_forward-mode :
    (single : Bool) (i : ℕ) (s : Scheduler)
    → mode_of s.evaluation_mode (choose_forward single i s) ≡ s.evaluation_mode
unfolding choose_forward
choose_forward-mode single i s = elim (Option-cases (get_elem? s.breakpoints i)) [
  | inl outside ↦ rw outside refl
  | inr (b, found) ↦ elim (Bool-cases (not single && is_kind normal b.type)) [
    | inr alone ↦ rw (found, alone) refl
    | inl joined ↦ elim (Option-cases (scan_breakpoints i true s.breakpoints)) [
      | inl undefined ↦ rw (found, joined, undefined) refl
      | inr (others, e) ↦ rw (found, joined, e) refl
    ]
  ]
]

next_normal_breakpoints-mode :
    (single : Bool) (s : Scheduler)
    → mode_of s.evaluation_mode (next_normal_breakpoints single s) ≡ s.evaluation_mode
unfolding next_normal_breakpoints
next_normal_breakpoints-mode single s = elim (Bool-cases (is_empty s.breakpoints)) [
  | inl nothing ↦ rw nothing refl
  | inr inserted ↦
      elim (Option-cases
        (start_index (last_evaluated 0 none s.breakpoints) (length s.breakpoints))) [
          | inl over ↦ rw (inserted, over) refl
          | inr (i, e) ↦ rw (inserted, e) (choose_forward-mode single i s)
        ]
]

pub >>=-some {ℓ κ} :
    {A : Type ℓ} {B : Type κ} (m : Option A) (f : A → Option B) {a : A}
    → m ≡ some a
    → (m >>= f) ≡ f a
>>=-some m f h = ap (λ o. o >>= f) h

module _ (db : SymbolTable) (reversed : Bool) (d : Debugger) (s : Scheduler) where
  -- What the loop gets in a cycle that stops at breakpoints.
  fetch-Progress :
      d.scheduler ≡ some s
      → s.evaluation_mode ≡ breakpoint_only
      → (is : List ℕ) × (s' : Scheduler) × (fetch db reversed d
          ≡ some (stored is, record d { scheduler = some s' }))
        × (s'.evaluation_mode ≡ breakpoint_only)
        × Progress s is s'
  unfolding fetch next_breakpoints next_in_mode
  fetch-Progress q mode =
      let (is, s', e, progress) = next_normal_breakpoints-Progress d.single_thread_mode s in
      let same : s'.evaluation_mode ≡ s.evaluation_mode =
        ap (mode_of s.evaluation_mode) (sym e)
        ∙ next_normal_breakpoints-mode d.single_thread_mode s in
      let chosen : next_in_mode s.evaluation_mode db d.namespaces reversed d.single_thread_mode s
          ≡ some (stored is, s') =
        ap (λ m. next_in_mode m db d.namespaces reversed d.single_thread_mode s) mode
        ∙ >>=-some (next_normal_breakpoints d.single_thread_mode s) _ e in
      let found : fetch db reversed d ≡ some (stored is, record d { scheduler = some s' }) =
        >>=-some d.scheduler _ q ∙ >>=-some _ _ chosen in
      (is, s', found, same ∙ mode, progress)

abbrev pub with_scheduler : Scheduler → Debugger → Debugger
with_scheduler s d = record d { scheduler = some s }

-- What the loop comes to: nothing is left, or the cursor has moved on.
abbrev pub Fetched : SymbolTable → Bool → Debugger → Scheduler → Type 0
Fetched db reversed d s =
    ((s' : Scheduler) × (fetch db reversed d ≡ some (stored [], with_scheduler s' d)))
    ⊎ ((i : ℕ) × (is : List ℕ) × (s' : Scheduler) × (fetch db reversed d
          ≡ some (stored (i ∷ is), with_scheduler s' d))
        × (s'.evaluation_mode ≡ breakpoint_only)
        × (cursor s.breakpoints < cursor s'.breakpoints)
        × (cursor s'.breakpoints ≤ length s'.breakpoints)
        × (length s'.breakpoints ≡ length s.breakpoints))

split-Fetched :
    (db : SymbolTable) (reversed : Bool) (d : Debugger) (s s' : Scheduler) (is : List ℕ)
    → fetch db reversed d ≡ some (stored is, with_scheduler s' d)
    → s'.evaluation_mode ≡ breakpoint_only
    → Progress s is s'
    → Fetched db reversed d s
split-Fetched db reversed d s s' [] found mode progress = inl (s', found)
split-Fetched db reversed d s s' (i ∷ is) found mode (at, further, current, size, marks) =
    inr (i, is, s', found, mode, omega arith, cursor-le s'.breakpoints, size)

pub fetched :
    (db : SymbolTable) (reversed : Bool) (d : Debugger) (s : Scheduler)
    → d.scheduler ≡ some s
    → s.evaluation_mode ≡ breakpoint_only
    → Fetched db reversed d s
fetched db reversed d s q mode =
    let (is, s', found, mode', progress) = fetch-Progress db reversed d s q mode in
    split-Fetched db reversed d s s' is found mode' progress
