-- ===== src/Runtime/Loop.antt =====
-- Debugger::eval of src/debug.cc, which the clock's callback runs: start_breakpoint_evaluation and
-- the loop over what the scheduler gives. While the simulation is paused at lock_.wait the server
-- handles requests; what they do to the debugger is the parameter `wait`.
pub mod Rounds
pub mod Fetch
pub mod Start
pub mod Ends
use hgdb.Prelude.{
  ℕ, zero, suc, Bool, true, false, if◌then◌else◌, Option, none, some, ◌>>=◌, List, [], ◌∷◌, ◌++◌,
  get_elem?, set, is_empty,
}
use hgdb.Prelude.Int.{ℤ}
use hgdb.Interfaces.{SymbolTable}
use hgdb.Namespaces.{Namespace}
use hgdb.Scheduler.{DebugBreakPoint, Scheduler}
use hgdb.Scheduler.Edit.Drop.{start_breakpoint_evaluation}
use hgdb.Scheduler.Next.{Chosen, next_breakpoints}
use hgdb.Monitor.{WatchType, breakpoint, clock_edge, get_watched_values}
use hgdb.Runtime.{Reads, Debugger, cycle_of}
use hgdb.Runtime.Signals.{update_delayed_values}
use hgdb.Runtime.Evaluate.{indexes, pool, eval_breakpoints}

-- What is sent to the clients: the breakpoints that were hit, or the value of a watch in a namespace.
pub data Message : Type 0 where
  breakpoint_hit : List DebugBreakPoint → Message
  monitor_value : ℕ → ℕ → Option ℤ → Message

abbrev pub value_messages : ℕ → List (ℕ × Option ℤ) → List Message
value_messages ns_id [] = []
value_messages ns_id ((id, v) ∷ values) = monitor_value ns_id id v ∷ value_messages ns_id values

-- The loop of send_monitor_values from namespace `i` on. A monitor without watches has none to send.
unfoldable pub send_from :
    Reads → WatchType → ℕ → List Namespace → Debugger → Option (List Message × Debugger)
unfolding get_watched_values
send_from r type i [] d = some ([], d)
send_from r type i (ns ∷ rest) d = do
  m ← get_elem? d.monitors i
  (values, m') ← get_watched_values type (cycle_of r i) m
  (messages, d') ← send_from r type (suc i) rest (record d { monitors = set d.monitors i m' })
  some (value_messages ns.id values ++ messages, d')

unfoldable pub send_monitor_values : Reads → WatchType → Debugger → Option (List Message × Debugger)
unfolding send_from
send_monitor_values r type d = send_from r type 0 d.namespaces.namespaces d

-- The private start_breakpoint_evaluation.
unfoldable pub start_evaluation : Reads → Debugger → Option Debugger
unfolding start_breakpoint_evaluation update_delayed_values
start_evaluation r d = do
  s ← d.scheduler
  update_delayed_values r
      (record d { scheduler = some (start_breakpoint_evaluation s); cached_signal_values = [] })

-- The breakpoints at the pointers that were hit.
unfoldable pub hit_breakpoints : List Bool → List ℕ → List DebugBreakPoint → List DebugBreakPoint
hit_breakpoints (true ∷ hits) (i ∷ is) bps = elim (get_elem? bps i) [
  | none ↦ hit_breakpoints hits is bps
  | some b ↦ b ∷ hit_breakpoints hits is bps
]
hit_breakpoints (false ∷ hits) (i ∷ is) bps = hit_breakpoints hits is bps
hit_breakpoints _ _ bps = []

-- The end of a round of the loop: with a hit the clients are told, and the simulation is paused.
unfoldable pub report_hits :
    Reads
    → (Debugger → Debugger)
    → List DebugBreakPoint
    → Debugger
    → Option (List Message × Debugger)
unfolding send_monitor_values
report_hits r wait [] d = some ([], d)
report_hits r wait (b ∷ bs) d = do
  (messages, d') ← send_monitor_values r breakpoint d
  some (breakpoint_hit (b ∷ bs) ∷ messages, wait d')

-- One round on what next_breakpoints gave.
unfoldable pub eval_round :
    Reads
    → SymbolTable
    → Bool
    → (Debugger → Debugger)
    → Chosen
    → Debugger
    → Option (List Message × Debugger)
unfolding eval_breakpoints hit_breakpoints report_hits
eval_round r db commercial wait chosen d = do
  (hits, d') ← eval_breakpoints r db commercial chosen d
  s ← d'.scheduler
  report_hits r wait (hit_breakpoints hits (indexes chosen) (pool chosen s)) d'

-- What scheduler_->next_breakpoints gives; `reversed` is the client's answer to a request to go back
-- in time.
unfoldable pub fetch : SymbolTable → Bool → Debugger → Option (Chosen × Debugger)
unfolding next_breakpoints
fetch db reversed d = do
  s ← d.scheduler
  (chosen, s') ← next_breakpoints db d.namespaces reversed d.single_thread_mode s
  some (chosen, record d { scheduler = some s' })

abbrev Ended : Type 0
Ended = Option (Option (List Message × Debugger))

abbrev pub prepend : List Message → Ended → Ended
prepend messages ended = ended >>= λ r. some (r >>= λ (more, d). some (messages ++ more, d))

module _ (r : Reads) (db : SymbolTable) (commercial reversed : Bool)
    (wait : Debugger → Debugger) where
  -- The main loop with fuel for its rounds; the outer `none` means that it has run out, the inner one
  -- is undefined behaviour in a round.
  unfoldable pub eval_loop : ℕ → Debugger → Ended
  unfolding fetch eval_round
  eval_loop zero d = elim (fetch db reversed d) [
    | none ↦ some none
    | some (chosen, d₁) ↦ if is_empty (indexes chosen) then some (some ([], d₁)) else none
  ]
  eval_loop (suc n) d = elim (fetch db reversed d) [
    | none ↦ some none
    | some (chosen, d₁) ↦ elim (is_empty (indexes chosen)) [
      | true ↦ some (some ([], d₁))
      | false ↦ elim (eval_round r db commercial wait chosen d₁) [
        | none ↦ some none
        | some (messages, d₂) ↦ prepend messages (eval_loop n d₂)
      ]
    ]
  ]

  -- At the end of the loop the values at the clock's edge are sent.
  abbrev pub finish : Option (List Message × Debugger) → Option (List Message × Debugger)
  finish ended = ended >>= λ (messages, d).
      send_monitor_values r clock_edge d >>= λ (values, d'). some (messages ++ values, d')

  -- eval, where `resume` is what the server does before the first round if the debugger pauses at
  -- the clock's edge.
  unfoldable pub eval : (Debugger → Debugger) → ℕ → Debugger → Ended
  unfolding start_evaluation eval_loop
  eval resume fuel d = elim (start_evaluation r (if d.pause_at_posedge then resume d else d)) [
    | none ↦ some none
    | some d₁ ↦ eval_loop fuel d₁ >>= λ ended. some (finish ended)
  ]
