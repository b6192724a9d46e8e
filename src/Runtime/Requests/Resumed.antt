-- ===== src/Runtime/Requests/Resumed.antt =====
-- What a client does that lets the simulation go on.
use hgdb.Prelude.{◌≡◌, refl, ap, ◌∙◌, false, none, some}
use hgdb.Scheduler.{Scheduler, breakpoint_only}
use hgdb.Scheduler.Edit.Drop.{set_evaluation_mode}
use hgdb.Runtime.{Debugger}
use hgdb.Runtime.Requests.{Command, continue_, success, Handled, handle_command}
use hgdb.Runtime.Loop.Fetch.{>>=-some}
use hgdb.Runtime.Loop.Ends.{Keeps}

-- The debugger after a command.
abbrev debugger_after : Debugger → Handled → Debugger
debugger_after d none = d
debugger_after d (some (response, d')) = d'

abbrev pub resume_with : Command → Debugger → Debugger
resume_with command d = debugger_after d (handle_command command false d)

set_evaluation_mode_again :
    (s : Scheduler)
    → s.evaluation_mode ≡ breakpoint_only
    → set_evaluation_mode breakpoint_only s ≡ s
unfolding set_evaluation_mode
set_evaluation_mode_again s h = rw (h, set_evaluation_mode) refl

-- In a cycle that stops at breakpoints the command to continue changes nothing of the cycle.
pub continue-Keeps : Keeps (resume_with continue_)
unfolding handle_command
continue-Keeps s d mode (s', q, (mode', at, size)) =
    let handled =
      >>=-some d.scheduler
        (λ s. some (success, record d { scheduler = some (set_evaluation_mode breakpoint_only s) }))
        q in
    (
      s',
      ap (λ h. (debugger_after d h).scheduler) handled
          ∙ ap some (set_evaluation_mode_again s' (mode' ∙ mode)),
      (mode', at, size),
    )
