-- ===== src/Runtime/Loop/Ends.antt =====
-- The main loop of Debugger::eval, while it stops at breakpoints and goes forward.
use hgdb.Prelude.{
  ℕ, zero, suc, ◌+◌, ◌≤◌, ◌≡◌, ◌≢◌, refl, sym, ◌∙◌, subst, Bool, true, false, if◌then◌else◌, Option,
  none, some, List, [], ◌∷◌, length, arith, Option-cases, inl, inr,
}
use hgdb.Interfaces.{SymbolTable}
use hgdb.Scheduler.{Scheduler, breakpoint_only}
use hgdb.Scheduler.Next.{stored}
use hgdb.Scheduler.Next.Forward.{cursor}
use hgdb.Runtime.{Reads, Debugger}
use hgdb.Runtime.Loop.{Message, eval_round, eval_loop, start_evaluation, eval, finish, prepend}
use hgdb.Runtime.Loop.Start.{start_evaluation-Shrinks}
use hgdb.Runtime.Loop.Fetch.{with_scheduler, fetched}
use hgdb.Runtime.Loop.Rounds.{InRound, KeepsRound, eval_round-KeepsRound}

some-ne-none {ℓ} : {A : Type ℓ} {a : A} → some a ≢ none
some-ne-none e = cc

prepend-ne-none :
    (messages : List Message) (ended : Option (Option (List Message × Debugger)))
    → ended ≢ none
    → prepend messages ended ≢ none
prepend-ne-none messages none h e = h refl
prepend-ne-none messages (some x) h e = cc

abbrev pub Keeps : (Debugger → Debugger) → Type 0
Keeps wait =
    (s : Scheduler) (d : Debugger)
    → s.evaluation_mode ≡ breakpoint_only
    → InRound s d
    → InRound s (wait d)

module _ (r : Reads) (db : SymbolTable) (commercial reversed : Bool) (wait : Debugger → Debugger)
    (keeps : Keeps wait) where
  -- In a cycle that stops at breakpoints the loop needs a round for each breakpoint that is not
  -- evaluated yet, if what the server does while the simulation is paused keeps the breakpoints.
  eval_loop-ne-none :
      (fuel : ℕ) (s : Scheduler) (d : Debugger)
      → d.scheduler ≡ some s
      → s.evaluation_mode ≡ breakpoint_only
      → length s.breakpoints ≤ fuel + cursor s.breakpoints
      → eval_loop r db commercial reversed wait fuel d ≢ none
  unfolding eval_loop
  eval_loop-ne-none zero s d q mode enough = elim (fetched db reversed d s q mode) [
    | inl (s', found) ↦
        let over : eval_loop r db commercial reversed wait 0 d
            ≡ some (some ([], with_scheduler s' d)) =
          rw (found, eval_loop) refl in
        λ e. some-ne-none (sym over ∙ e)
    | inr (i, is, s', found, mode', further, inside, size) ↦ absurd (omega arith)
  ]
  eval_loop-ne-none (suc n) s d q mode enough = elim (fetched db reversed d s q mode) [
    | inl (s', found) ↦
        let over : eval_loop r db commercial reversed wait (suc n) d
            ≡ some (some ([], with_scheduler s' d)) =
          rw (found, eval_loop) refl in
        λ e. some-ne-none (sym over ∙ e)
    | inr (i, is, s', found, mode', further, inside, size) ↦
        let d₁ = with_scheduler s' d in
        let kept =
          eval_round-KeepsRound r db s' commercial wait (i ∷ is) d₁ (λ d. keeps s' d mode')
            (s', refl, (refl, refl, refl)) in
        elim (Option-cases (eval_round r db commercial wait (stored (i ∷ is)) d₁)) [
          | inl undefined ↦
              let over : eval_loop r db commercial reversed wait (suc n) d ≡ some none =
                rw (found, undefined, eval_loop) refl in
              λ e. some-ne-none (sym over ∙ e)
          | inr ((messages, d₂), e) ↦
              let next : eval_loop r db commercial reversed wait (suc n) d
                  ≡ prepend messages (eval_loop r db commercial reversed wait n d₂) =
                rw (found, e, eval_loop) refl in
              let (s₂, q₂, (mode₂, at₂, size₂)) : InRound s' d₂ = subst (KeepsRound s') e kept in
              λ none_left.
                prepend-ne-none messages (eval_loop r db commercial reversed wait n d₂)
                  (eval_loop-ne-none n s₂ d₂ q₂ (mode₂ ∙ mode') (omega arith))
                  (sym next ∙ none_left)
        ]
  ]

resumed :
    (resume : Debugger → Debugger) (s : Scheduler) (d : Debugger) (paused : Bool)
    → Keeps resume
    → d.scheduler ≡ some s
    → s.evaluation_mode ≡ breakpoint_only
    → InRound s (if paused then resume d else d)
resumed resume s d true keeps q mode = keeps s d mode (s, q, (refl, refl, refl))
resumed resume s d false keeps q mode = (s, q, (refl, refl, refl))

-- With fuel for as many rounds as there are breakpoints, a cycle that stops at breakpoints ends, in
-- undefined behaviour or with a result, if what the server does while the simulation is paused keeps
-- the mode, the number of breakpoints, and how far they have been evaluated.
pub eval-ne-none :
    (r : Reads) (db : SymbolTable) (commercial reversed : Bool) (wait resume : Debugger → Debugger)
    (fuel : ℕ) (s : Scheduler) (d : Debugger)
    → Keeps wait
    → Keeps resume
    → d.scheduler ≡ some s
    → s.evaluation_mode ≡ breakpoint_only
    → length s.breakpoints ≤ fuel
    → eval r db commercial reversed wait resume fuel d ≢ none
unfolding eval
eval-ne-none r db commercial reversed wait resume fuel s d keeps keeps' q mode enough =
    let d' = if d.pause_at_posedge then resume d else d in
    let (s', q', (mode', at', size')) = resumed resume s d d.pause_at_posedge keeps' q mode in
    elim (Option-cases (start_evaluation r d')) [
      | inl undefined ↦
          let over : eval r db commercial reversed wait resume fuel d ≡ some none =
            rw (undefined, eval) refl in
          λ e. some-ne-none (sym over ∙ e)
      | inr (d₁, started) ↦
          let (s₁, q₁, (mode₁, size₁)) = start_evaluation-Shrinks r s' d' d₁ q' started in
          let runs =
            eval_loop-ne-none r db commercial reversed wait keeps fuel s₁ d₁ q₁
              (mode₁ ∙ mode' ∙ mode) (omega arith) in
          elim (Option-cases (eval_loop r db commercial reversed wait fuel d₁)) [
            | inl out ↦ absurd (runs out)
            | inr (ended, e) ↦
                let over : eval r db commercial reversed wait resume fuel d
                    ≡ some (finish r db commercial reversed wait ended) =
                  rw (started, e, eval) refl in
                λ none_left. some-ne-none (sym over ∙ none_left)
          ]
    ]
