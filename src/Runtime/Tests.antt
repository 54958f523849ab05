-- ===== src/Runtime/Tests.antt =====
-- The scheduler, the close-out and the lease at small states.
use pluto_agent_platform.Common.{refl, ◌≡◌, ◌≢◌, ◌↔◌, ◌⊎◌, true, false, some, none, [], ◌∷◌, arith}
use pluto_agent_platform.Common.Dict.{insert, add, lookup}
use pluto_agent_platform.Protocol.Actor.{ActorRef, actor_key, same_actor, is_lead_actor}
use pluto_agent_platform.Protocol.Event.{Recipient, MailboxMessageKind}
use pluto_agent_platform.Protocol.Request.{RequestBody}
use pluto_agent_platform.Authority.State.{TeamContext, initial_state, initial_tasks_from, set_of}
use pluto_agent_platform.Authority.Validate.{validate, ValidationResult}
use pluto_agent_platform.Samples.{team, generator, created_event, message_event}
use pluto_agent_platform.Runtime.Scheduler.{SchedulerState, lead_actor, pick_next, budget_failure}
use pluto_agent_platform.Runtime.LoopState.{Limits, initial_loop_state, normalize_max}
use pluto_agent_platform.Runtime.Driver.{
  Turn, silent, observed, drive, take_turn, accepted_turn, continues, begins, goes_on,
}
use pluto_agent_platform.Runtime.Budget.{drive-EndsWithin, EndsWithin, AtMostTurns, drive-hard_cap}
use pluto_agent_platform.Runtime.Delegation.{initial-Delegated}
use pluto_agent_platform.Runtime.Returns.{take_turn-returns, Returns}
use pluto_agent_platform.Runtime.Closeout.{
  CloseoutArgs, CloseoutPlan, plan_delegated_task_closeout, closeout_request,
}
use pluto_agent_platform.Runtime.CloseoutRights.{
  closeout-validate_iff, planner_closeout_refused, Granted,
}
use pluto_agent_platform.Runtime.Lease.{
  make_turn_lease, sets, consumes, answers, answers-once, matches, matches_iff,
}
use pluto_agent_platform.Authority.Policy.{canonical_authority_policy}

abbrev no_limits : Limits
no_limits = record { max_turns = none; max_kernel_rejections = none; max_no_progress_turns = none }

abbrev short : SchedulerState
short = record {
  turn_index = 0;
  max_turns = 2;
  current_actor = lead_actor;
  delegation_pointer = none;
  delegation_task_id = none;
  kernel_rejections = 0;
  no_progress_turns = 0;
  last_rejection = none;
  max_kernel_rejections = 3;
  max_no_progress_turns = 3;
}

drive-EndsWithin_example : EndsWithin short (drive 3 (λ s. silent) short)
drive-EndsWithin_example =
    drive-EndsWithin 3 (λ s. silent) short
      (record { turns = omega arith; idle = omega arith; rejections = omega arith }) (omega arith)

drive-hard_cap_example :
    AtMostTurns 50 (drive 51 (λ s. silent) (initial_loop_state no_limits no_limits))
drive-hard_cap_example = drive-hard_cap no_limits no_limits (λ s. silent)

abbrev create_for_generator : RequestBody
create_for_generator =
    RequestBody.create_task
      (record { title = "build"; owner_actor = some generator; depends_on = [] })

abbrev start : SchedulerState
start = initial_loop_state no_limits no_limits

abbrev delegating : Turn
delegating = observed (record {
  tool_name = "pluto_create_task";
  directive = create_for_generator;
  error = none;
  event = some created_event;
  closeout_rejection = none;
})

abbrev delegated : SchedulerState
delegated = accepted_turn start create_for_generator created_event

delegated-next :
    (budget_failure start ≡ none)
    × (take_turn start delegating ≡ continues delegated)
    × (is_lead_actor delegated.current_actor ≡ false)
unfolding initial_loop_state normalize_max budget_failure take_turn accepted_turn pick_next
    is_lead_actor same_actor
delegated-next = (refl, refl, refl)

initial-Delegated_example :
    (delegated.current_actor ≡ lead_actor)
    ⊎ (delegated.delegation_pointer ≡ some delegated.current_actor)
initial-Delegated_example =
    initial-Delegated no_limits no_limits delegated
      (goes_on begins delegated-next.0 delegating delegated delegated-next.1)

abbrev done_message : RequestBody
done_message = RequestBody.append_mailbox_message (record {
  from_actor = generator;
  to_actor = Recipient.actor lead_actor;
  kind = MailboxMessageKind.completion;
  body = "done";
})

abbrev reporting : Turn
reporting = observed (record {
  tool_name = "pluto_append_mailbox_message";
  directive = done_message;
  error = none;
  event = some message_event;
  closeout_rejection = none;
})

abbrev reported : SchedulerState
reported = accepted_turn delegated done_message message_event

reported-next : take_turn delegated reporting ≡ continues reported
unfolding take_turn accepted_turn pick_next
reported-next = refl

take_turn-returns_example : (reported.current_actor ≡ lead_actor) ↔ Returns delegated reporting
take_turn-returns_example =
    take_turn-returns delegated reported reporting delegated-next.2 reported-next

abbrev planner : ActorRef
planner = ActorRef.role "planner"

abbrev planner_team : TeamContext
planner_team = record team {
  declared_actors = planner ∷ [];
  initial_tasks =
      record { task_id = "t1"; title = "plan"; owner_actor = some planner; depends_on = [] } ∷ [];
}

abbrev planner_done : CloseoutArgs
planner_done = record {
  actor = planner;
  accepted_event = message_event;
  directive = done_message;
  lead_actor = lead_actor;
  delegation_pointer = some planner;
  delegation_task_id = some "t1";
  run_state = initial_state planner_team;
}

abbrev planner_plan : CloseoutPlan
planner_plan = record { actor = planner; task_id = "t1" }

planner-planned :
    (plan_delegated_task_closeout planner_done ≡ some planner_plan)
    × (planner_done.run_state.policy ≡ canonical_authority_policy)
unfolding plan_delegated_task_closeout initial_state initial_tasks_from insert lookup set_of add
    actor_key same_actor
planner-planned = (refl, refl)

closeout-validate_iff_example :
    (validate planner_done.run_state
        (closeout_request planner_done.run_state planner_plan "r" "now")
        none
      ≡ ValidationResult.ok)
    ↔ Granted planner_done planner_plan
closeout-validate_iff_example =
    closeout-validate_iff planner_done planner_plan "r" "now" planner-planned.0

planner_closeout_refused_example :
    validate planner_done.run_state
      (closeout_request planner_done.run_state planner_plan "r" "now")
      none
    ≢ ValidationResult.ok
planner_closeout_refused_example =
    planner_closeout_refused planner_done planner_plan "r" "now" planner-planned.1 refl
      planner-planned.0

answers-once_example :
    (answers (make_turn_lease none) (sets (some generator) ∷ consumes ∷ consumes ∷ [])
      ≡ true ∷ false ∷ [])
    × (answers (make_turn_lease none) (sets none ∷ consumes ∷ []) ≡ false ∷ [])
answers-once_example = answers-once (make_turn_lease none) generator 1

matches_iff_example :
    (matches (make_turn_lease (some generator)) planner ≡ true)
    ↔ ((make_turn_lease (some generator)).current_actor ≡ some planner)
matches_iff_example = matches_iff (make_turn_lease (some generator)) planner
