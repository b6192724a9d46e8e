-- ===== src/Runtime/Loop/Start.antt =====
-- The start of a cycle: the mode of the scheduler and its breakpoints.
use hgdb.Prelude.{
  ℕ, suc, ◌≤◌, ◌≡◌, refl, sym, ap, ◌∙◌, Bool, true, false, if◌then◌else◌, Option, none, some, List,
  [], ◌∷◌, length, arith, Option-cases, inl, inr, get_elem?,
}
use hgdb.Namespaces.{Namespace}
use hgdb.Scheduler.{DebugBreakPoint, Scheduler, Kind, assert_}
use hgdb.Scheduler.Edit.Drop.{
  start_breakpoint_evaluation, remove_asserts, remove_by_id, remove_first, get_breakpoint, is_spent,
  remove_assert_breakpoints, clear_breakpoints,
}
use hgdb.Eval.Debug.{Handle}
use hgdb.Monitor.{delay_clock_edge, get_watched_values}
use hgdb.Runtime.{DelayedVariable, Reads, Debugger, cycle_of}
use hgdb.Runtime.Signals.{update_from, update_delayed_values}
use hgdb.Runtime.Loop.{start_evaluation}
use hgdb.Runtime.Loop.Fetch.{>>=-some}

abbrev scheduler_of : Option Scheduler → Option Debugger → Option Scheduler
scheduler_of old none = old
scheduler_of old (some d) = d.scheduler

update_from-scheduler :
    (r : Reads) (i : ℕ) (namespaces : List Namespace) (d : Debugger)
    → scheduler_of d.scheduler (update_from r i namespaces d) ≡ d.scheduler
unfolding update_from
update_from-scheduler r i [] d = refl
update_from-scheduler r i (ns ∷ rest) d = elim (Option-cases (get_elem? d.monitors i)) [
  | inl outside ↦ rw outside refl
  | inr (m, found) ↦ elim (Option-cases (get_watched_values delay_clock_edge (cycle_of r i) m)) [
    | inl undefined ↦ rw (found, undefined) refl
    | inr ((values, m'), e) ↦ rw (found, e) (update_from-scheduler r (suc i) rest _)
  ]
]

update_delayed_values-scheduler :
    (r : Reads) (d : Debugger) → scheduler_of d.scheduler (update_delayed_values r d) ≡ d.scheduler
unfolding update_delayed_values
update_delayed_values-scheduler r d = by_variables d.delayed_variables refl
  where
    by_variables :
        (variables : List (Handle × DelayedVariable))
        → d.delayed_variables ≡ variables
        → scheduler_of d.scheduler (update_delayed_values r d) ≡ d.scheduler
    by_variables [] e = rw (e, update_delayed_values) refl
    by_variables (_ ∷ _) e =
        rw (e, update_delayed_values) (update_from-scheduler r 0 d.namespaces.namespaces d)

length-remove_first :
    (id : ℕ) (kind : Kind) (bs : List DebugBreakPoint)
    → length (remove_first id kind bs).1 ≤ length bs
unfolding remove_first
length-remove_first id kind [] = omega arith
length-remove_first id kind (b ∷ bs) = ground (arith, length-remove_first id kind bs)

-- The mode stays, and no breakpoint comes.
abbrev pub Shrinks : Scheduler → Scheduler → Type 0
Shrinks s s' =
    (s'.evaluation_mode ≡ s.evaluation_mode) × (length s'.breakpoints ≤ length s.breakpoints)

if-Shrinks : (c : Bool) (s s' : Scheduler) → Shrinks s s' → Shrinks s (if c then s' else s)
if-Shrinks true s s' h = h
if-Shrinks false s s' h = (refl, omega arith)

remove_asserts-Shrinks : (ids : List ℕ) (s : Scheduler) → Shrinks s (remove_asserts ids s)
unfolding remove_asserts remove_by_id
remove_asserts-Shrinks [] s = (refl, omega arith)
remove_asserts-Shrinks (id ∷ ids) s =
    let (mode, size) =
      if-Shrinks (is_spent (get_breakpoint id s)) s (remove_by_id id assert_ s).1
        (refl, length-remove_first id assert_ s.breakpoints) in
    let (mode', size') =
      remove_asserts-Shrinks ids
        (if is_spent (get_breakpoint id s) then (remove_by_id id assert_ s).1 else s) in
    (mode' ∙ mode, omega arith)

length-clear_breakpoints : (bs : List DebugBreakPoint) → length (clear_breakpoints bs) ≡ length bs
unfolding clear_breakpoints
length-clear_breakpoints [] = refl
length-clear_breakpoints (b ∷ bs) = ap suc (length-clear_breakpoints bs)

start_breakpoint_evaluation-Shrinks : (s : Scheduler) → Shrinks s (start_breakpoint_evaluation s)
unfolding start_breakpoint_evaluation remove_assert_breakpoints
start_breakpoint_evaluation-Shrinks s =
    let (mode, size) = remove_asserts-Shrinks s.inserted_breakpoints s in
    (mode, omega (arith, length-clear_breakpoints (remove_assert_breakpoints s).breakpoints))

-- The start of a cycle has a scheduler with the same mode, and with no more breakpoints.
pub start_evaluation-Shrinks :
    (r : Reads) (s : Scheduler) (d d₁ : Debugger)
    → d.scheduler ≡ some s
    → start_evaluation r d ≡ some d₁
    → (s₁ : Scheduler) × (d₁.scheduler ≡ some s₁) × Shrinks s s₁
unfolding start_evaluation
start_evaluation-Shrinks r s d d₁ q e =
    let started : Debugger = record d {
      scheduler = some (start_breakpoint_evaluation s);
      cached_signal_values = [];
    } in
    let updated : update_delayed_values r started ≡ some d₁ = sym (>>=-some d.scheduler _ q) ∙ e in
    (
      start_breakpoint_evaluation s,
      ap (scheduler_of started.scheduler) (sym updated) ∙ update_delayed_values-scheduler r started,
      start_breakpoint_evaluation-Shrinks s,
    )
