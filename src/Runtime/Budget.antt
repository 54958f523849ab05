-- ===== src/Runtime/Budget.antt =====
-- The turn loop ends: whatever the agents do, within the budget.
use pluto_agent_platform.Common.{
  ℕ, zero, suc, ◌+◌, ◌≤◌, ◌<◌, ◌≡◌, String, none, refl, arith, Option-cases, inl, inr, ◌∙◌,
}
use pluto_agent_platform.Runtime.Scheduler.{SchedulerState, budget_failure, with_kernel_rejection}
use pluto_agent_platform.Runtime.LoopState.{Limits, initial_loop_state, normalize_max}
use pluto_agent_platform.Runtime.Driver.{
  Turn, Next, continues, completes, throws, take_turn, rejected_turn, silent_turn, accepted_turn,
  drive, Ending, budget_exhausted, completed, thrown, out_of_fuel,
}
use pluto_agent_platform.Protocol.Request.{RequestBody}
use pluto_agent_platform.Runtime.Turns.{waits, accepts, take_turn-Passes, rejects}
use pluto_agent_platform.Protocol.Event.{RunEvent}

-- The counters are within the budget, one over it at most for those that are compared by `>`.
pub record Within (s : SchedulerState) : Type 0 where
  pub turns : s.turn_index ≤ s.max_turns
  pub idle : s.no_progress_turns ≤ suc s.max_no_progress_turns
  pub rejections : s.kernel_rejections ≤ suc s.max_kernel_rejections

-- A state from which the loop goes on.
pub record HasBudget (s : SchedulerState) : Type 0 where
  pub turns : s.turn_index < s.max_turns
  pub idle : s.no_progress_turns ≤ s.max_no_progress_turns
  pub rejections : s.kernel_rejections ≤ s.max_kernel_rejections

budget_failure-HasBudget : (s : SchedulerState) → budget_failure s ≡ none → HasBudget s
unfolding budget_failure
budget_failure-HasBudget s h = record {
  turns = ground arith;
  idle = ground arith;
  rejections = ground arith;
}

-- What a turn does to the counters and the limits.
pub record Advances (s s' : SchedulerState) : Type 0 where
  pub turn : s'.turn_index ≡ suc s.turn_index
  pub idle : s'.no_progress_turns ≤ suc s.no_progress_turns
  pub rejections : s'.kernel_rejections ≤ suc s.kernel_rejections
  pub max_turns : s'.max_turns ≡ s.max_turns
  pub max_idle : s'.max_no_progress_turns ≡ s.max_no_progress_turns
  pub max_rejections : s'.max_kernel_rejections ≡ s.max_kernel_rejections

rejected_turn-Advances :
    (s : SchedulerState) (d : RequestBody) (m : String) → Advances s (rejected_turn s d m)
unfolding rejected_turn with_kernel_rejection
rejected_turn-Advances s d m = record {
  turn = refl;
  idle = omega arith;
  rejections = omega arith;
  max_turns = refl;
  max_idle = refl;
  max_rejections = refl;
}

silent_turn-Advances : (s : SchedulerState) → Advances s (silent_turn s)
unfolding silent_turn
silent_turn-Advances s = record {
  turn = refl;
  idle = omega arith;
  rejections = omega arith;
  max_turns = refl;
  max_idle = refl;
  max_rejections = refl;
}

accepted_turn-Advances :
    (s : SchedulerState) (d : RequestBody) (e : RunEvent) → Advances s (accepted_turn s d e)
unfolding accepted_turn
accepted_turn-Advances s d e = record {
  turn = refl;
  idle = ground arith;
  rejections = omega arith;
  max_turns = refl;
  max_idle = refl;
  max_rejections = refl;
}

take_turn-Advances :
    (s s' : SchedulerState) (t : Turn) → take_turn s t ≡ continues s' → Advances s s'
take_turn-Advances s s' t h = elim (take_turn-Passes s s' t h) [
  | rejects d m q ↦ rw q (rejected_turn-Advances s d m)
  | waits q ↦ rw q (silent_turn-Advances s)
  | accepts d e _ q ↦ rw q (accepted_turn-Advances s d e)
]

-- A budget that one turn was taken from.
Advances-Within : (s s' : SchedulerState) → HasBudget s → Advances s s' → Within s'
Advances-Within s s' b a = record {
  turns = omega (arith, b.turns, a.turn, a.max_turns);
  idle = omega (arith, b.idle, a.idle, a.max_idle);
  rejections = omega (arith, b.rejections, a.rejections, a.max_rejections);
}

-- How a run of the loop from a state ends: never for want of fuel, and within the state's limits.
abbrev pub EndsWithin : SchedulerState → Ending → Type 0
EndsWithin s (budget_exhausted summary s') = Within s' × (s'.max_turns ≡ s.max_turns)
EndsWithin s (completed s') = Within s' × (s'.max_turns ≡ s.max_turns)
EndsWithin s (thrown message) = Unit
EndsWithin s out_of_fuel = ⊥

EndsWithin-earlier :
    (s s' : SchedulerState) (x : Ending)
    → s'.max_turns ≡ s.max_turns
    → EndsWithin s' x
    → EndsWithin s x
EndsWithin-earlier s s' (budget_exhausted summary u) q h = (h.0, h.1 ∙ q)
EndsWithin-earlier s s' (completed u) q h = (h.0, h.1 ∙ q)
EndsWithin-earlier s s' (thrown message) q h = tt
EndsWithin-earlier s s' out_of_fuel q h = h

-- One round, given what the rest of the loop does.
round-EndsWithin :
    (n : ℕ) (turns : SchedulerState → Turn) (s : SchedulerState) (x : Next)
    → ((next : SchedulerState)
        → Within next
        → next.max_turns < next.turn_index + n
        → EndsWithin next (drive n turns next))
    → Within s
    → HasBudget s
    → s.max_turns < s.turn_index + suc n
    → take_turn s (turns s) ≡ x
    → EndsWithin s (elim x [
      | continues next ↦ drive n turns next
      | completes ↦ completed s
      | throws message ↦ thrown message
    ])
round-EndsWithin n turns s (continues next) rest w b h q =
    let a = take_turn-Advances s next (turns s) q in
    EndsWithin-earlier s next _ a.max_turns
      (rest next (Advances-Within s next b a) (omega (arith, h, a.turn, a.max_turns)))
round-EndsWithin n turns s completes rest w b h q = (w, refl)
round-EndsWithin n turns s (throws message) rest w b h q = tt

-- From a state within its budget the loop ends, by the budget, by a completion or by an error,
-- whatever is observed in its turns: one round more than there are turns left is enough.
-- The state that it ends in has taken no more turns than the limit, and at most one rejection
-- and one idle turn more than their limits.
pub drive-EndsWithin :
    (n : ℕ) (turns : SchedulerState → Turn) (s : SchedulerState)
    → Within s
    → s.max_turns < s.turn_index + n
    → EndsWithin s (drive n turns s)
unfolding drive
drive-EndsWithin zero turns s w h = absurd (omega (arith, h, w.turns))
drive-EndsWithin (suc n) turns s w h = elim (Option-cases (budget_failure s)) [
  | inr (summary, out) ↦ rw (out, EndsWithin) (w, refl)
  | inl left ↦
      rw (left, EndsWithin)
        (round-EndsWithin n turns s (take_turn s (turns s)) (λ next. drive-EndsWithin n turns next)
          w (budget_failure-HasBudget s left) h refl)
]

initial-Within : (args spec : Limits) → Within (initial_loop_state args spec)
unfolding initial_loop_state
initial-Within args spec = record {
  turns = omega arith;
  idle = omega arith;
  rejections = omega arith;
}

initial-max_turns : (args spec : Limits) → (initial_loop_state args spec).max_turns ≤ 50
unfolding initial_loop_state normalize_max
initial-max_turns args spec = ground arith

initial-turn_index : (args spec : Limits) → (initial_loop_state args spec).turn_index ≡ 0
unfolding initial_loop_state
initial-turn_index args spec = refl

abbrev pub AtMostTurns : ℕ → Ending → Type 0
AtMostTurns n (budget_exhausted summary s) = s.turn_index ≤ n
AtMostTurns n (completed s) = s.turn_index ≤ n
AtMostTurns n (thrown message) = Unit
AtMostTurns n out_of_fuel = ⊥

-- Whatever limits a call and a spec set, and whatever the agents do, the turn loop ends, in a
-- state with at most 50 turns taken or with an error.
pub drive-hard_cap :
    (args spec : Limits) (turns : SchedulerState → Turn)
    → AtMostTurns 50 (drive 51 turns (initial_loop_state args spec))
drive-hard_cap args spec turns = go (drive 51 turns start) (
    drive-EndsWithin 51 turns start (initial-Within args spec)
      (omega (arith, initial-max_turns args spec, initial-turn_index args spec)))
  where
    start : SchedulerState
    start = initial_loop_state args spec

    go : (x : Ending) → EndsWithin start x → AtMostTurns 50 x
    go (budget_exhausted summary s) (w, q) = omega (arith, w.turns, q, initial-max_turns args spec)
    go (completed s) (w, q) = omega (arith, w.turns, q, initial-max_turns args spec)
    go (thrown message) w = tt
    go out_of_fuel w = w
