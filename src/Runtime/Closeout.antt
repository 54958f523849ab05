-- ===== src/Runtime/Closeout.antt =====
-- adapters/paseo/task-closeout.ts, and the request that adapters/paseo/run-paseo.ts makes of a plan.
use pluto_agent_platform.Common.{String, Bool, true, false, ◌&&◌, Option, none, some, if◌then◌else◌}
use pluto_agent_platform.Common.Dict.{lookup}
use pluto_agent_platform.Protocol.Actor.{ActorRef, same_actor}
use pluto_agent_platform.Protocol.Event.{TaskState, EventBody, mailbox_message_appended, RunEvent}
use pluto_agent_platform.Protocol.Request.{
  RequestBody, append_mailbox_message, change_task_state, ProtocolRequest,
}
use pluto_agent_platform.Protocol.Schema.{schema_version_1_0}
use pluto_agent_platform.Authority.State.{RunState, RunStateTask}
use pluto_agent_platform.Runtime.Scheduler.{
  terminal_task_state, closing_kind, addressed_to, is_accepted,
}

-- `DelegatedTaskCloseoutPlan`.
pub record CloseoutPlan : Type 0 where
  pub actor : ActorRef
  pub task_id : String

pub record CloseoutArgs : Type 0 where
  pub actor : ActorRef
  pub accepted_event : RunEvent
  pub directive : RequestBody
  pub lead_actor : ActorRef
  pub delegation_pointer : Option ActorRef
  pub delegation_task_id : Option String
  pub run_state : RunState

abbrev is_message : EventBody → Bool
is_message (mailbox_message_appended p) = true
is_message _ = false

abbrev points_at : Option ActorRef → ActorRef → Bool
points_at none actor = false
points_at (some a) actor = same_actor a actor

-- The guards in front of the look-up of the task.
abbrev pub closing_directive : CloseoutArgs → RequestBody → Bool
closing_directive a (append_mailbox_message p) =
    is_message a.accepted_event.body
    && is_accepted a.accepted_event.outcome
    && closing_kind p.kind
    && addressed_to p.to_actor a.lead_actor
    && points_at a.delegation_pointer a.actor
closing_directive a _ = false

abbrev pub plan_for : CloseoutArgs → String → Option RunStateTask → Option CloseoutPlan
plan_for a id none = none
plan_for a id (some t) =
    if terminal_task_state t.state then none else some (record { actor = a.actor; task_id = id })

abbrev plan_at : CloseoutArgs → Option String → Option CloseoutPlan
plan_at a none = none
plan_at a (some id) = plan_for a id (lookup id a.run_state.tasks)

-- `planDelegatedTaskCloseout`.
unfoldable pub plan_delegated_task_closeout : CloseoutArgs → Option CloseoutPlan
plan_delegated_task_closeout a =
    if closing_directive a a.directive then plan_at a a.delegation_task_id else none

-- `buildChangeTaskStateRequest`, at the id and the time that the providers give.
unfoldable pub closeout_request : RunState → CloseoutPlan → String → String → ProtocolRequest
closeout_request state plan request_id time = record {
  request_id = request_id;
  run_id = state.run_id;
  actor = plan.actor;
  idempotency_key = none;
  client_timestamp = time;
  schema_version = schema_version_1_0;
  body = change_task_state (record { task_id = plan.task_id; to = TaskState.completed });
}
