-- ===== src/Runtime/Driver.antt =====
-- The turn loop of adapters/paseo/run-paseo.ts, as far as the scheduler's state goes: what the loop does
-- with what it observes in a turn. The observations come from outside.
use pluto_agent_platform.Common.{
  ℕ, zero, suc, String, Bool, true, false, Option, none, some, ◌&&◌, ◌==◌, if◌then◌else◌, ◌≡◌,
}
use pluto_agent_platform.Common.Text.{◌<>◌}
use pluto_agent_platform.Protocol.Event.{EventBody, run_completed, request_rejected, RunEvent}
use pluto_agent_platform.Protocol.Request.{RequestBody}
use pluto_agent_platform.Runtime.Scheduler.{
  SchedulerState, budget_failure, pick_next, with_kernel_rejection, lead_actor,
}

-- The tool call that a turn saw: the directive that it attempted, the error or the event that came of
-- it, and the detail with which a synthesized close-out was rejected, if one was.
pub record Observed : Type 0 where
  pub tool_name : String
  pub directive : RequestBody
  pub error : Option String
  pub event : Option RunEvent
  pub closeout_rejection : Option String

-- A turn: the session failed, it went idle without a call, or it called a tool.
pub data Turn : Type 0 where
  wait_failed : RequestBody → String → Turn
  silent : Turn
  observed : Observed → Turn

pub data Next : Type 0 where
  continues : SchedulerState → Next
  completes : Next
  throws : String → Next

abbrev pub next_turn : SchedulerState → SchedulerState
next_turn s = record s { turn_index = suc s.turn_index }

unfoldable pub rejected_turn : SchedulerState → RequestBody → String → SchedulerState
unfolding with_kernel_rejection
rejected_turn s directive error = next_turn (with_kernel_rejection s (directive, error) lead_actor)

unfoldable pub silent_turn : SchedulerState → SchedulerState
silent_turn s = record s {
  last_rejection = none;
  no_progress_turns = suc s.no_progress_turns;
  turn_index = suc s.turn_index;
}

unfoldable pub accepted_turn : SchedulerState → RequestBody → RunEvent → SchedulerState
accepted_turn s directive event =
    let next = pick_next s event directive lead_actor in
    record s {
      current_actor = next.actor;
      delegation_pointer = next.delegation_pointer;
      delegation_task_id = next.delegation_task_id;
      last_rejection = none;
      no_progress_turns = if next.progressed then 0 else suc s.no_progress_turns;
      turn_index = suc s.turn_index;
    }

abbrev is_completion : EventBody → Bool
is_completion (run_completed p) = true
is_completion _ = false

abbrev after_closeout : SchedulerState → Observed → RunEvent → Next
after_closeout s o event = elim o.closeout_rejection [
  | some detail ↦ throws detail
  | none ↦
      if o.tool_name == "pluto_complete_run" && is_completion event.body
      then completes
      else continues (accepted_turn s o.directive event)
]

abbrev on_event : SchedulerState → Observed → RunEvent → Next
on_event s o event = elim event.body [
  | request_rejected p ↦ continues (rejected_turn s o.directive p.detail)
  | _ ↦ after_closeout s o event
]

abbrev on_call : SchedulerState → Observed → Next
on_call s o = elim o.error [
  | some message ↦ continues (rejected_turn s o.directive message)
  | none ↦ elim o.event [
    | none ↦
        continues (rejected_turn s o.directive ("No kernel event recorded for " <> o.tool_name))
    | some event ↦ on_event s o event
  ]
]

-- The body of the loop behind the budget.
unfoldable pub take_turn : SchedulerState → Turn → Next
take_turn s (wait_failed directive message) = continues (rejected_turn s directive message)
take_turn s silent = continues (silent_turn s)
take_turn s (observed o) = on_call s o

pub data Ending : Type 0 where
  budget_exhausted : String → SchedulerState → Ending
  completed : SchedulerState → Ending
  thrown : String → Ending
  out_of_fuel : Ending

-- `for (;;)`, with the turns that the world gives at each state.
unfoldable pub drive : ℕ → (SchedulerState → Turn) → SchedulerState → Ending
drive zero turns s = out_of_fuel
drive (suc n) turns s = elim (budget_failure s) [
  | some summary ↦ budget_exhausted summary s
  | none ↦ elim (take_turn s (turns s)) [
    | continues next ↦ drive n turns next
    | completes ↦ completed s
    | throws message ↦ thrown message
  ]
]

-- The states that the loop passes through.
pub data Visits (start : SchedulerState) : SchedulerState → Type 0 where
  begins : Visits start start
  goes_on :
      {s : SchedulerState}
      → Visits start s
      → budget_failure s ≡ none
      → (turn : Turn) (next : SchedulerState) → take_turn s turn ≡ continues next
      → Visits start next
