-- ===== src/Kernel/Reducer.antt =====
-- core/run-state-reducer.ts: the effect of an event on the run state.
use pluto_agent_platform.Common.{String, Option, none, some, List, [], ◌∷◌}
use pluto_agent_platform.Common.Int.{suc_ℤ}
use pluto_agent_platform.Common.Dict.{lookup, insert, add}
use pluto_agent_platform.Protocol.Actor.{ActorRef}
use pluto_agent_platform.Protocol.Event.{
  RunCompletedStatus, succeeded, failed, cancelled, EventBody, run_started, run_completed,
  mailbox_message_appended, task_created, task_state_changed, artifact_published, request_rejected,
  TaskState, RunEvent,
}
use pluto_agent_platform.Authority.State.{RunState, RunStateTask, RunStatus}

abbrev pub keys_with : List String → Option String → List String
keys_with keys none = keys
keys_with keys (some k) = add keys k

-- `reduceAcceptedEvent`, with the patch of the status and the tasks written out.
abbrev pub reduce_accepted :
    RunState → RunEvent → RunStatus → List (String × RunStateTask) → RunState
reduce_accepted state event status tasks = record state {
  status = status;
  tasks = tasks;
  sequence = suc_ℤ state.sequence;
  accepted_request_keys = keys_with state.accepted_request_keys event.accepted_request_key;
}

abbrev pub reduce_rejected : RunState → RunState
reduce_rejected state = record state { sequence = suc_ℤ state.sequence }

abbrev pub status_of_completion : RunCompletedStatus → RunStatus
status_of_completion succeeded = RunStatus.completed
status_of_completion failed = RunStatus.failed
status_of_completion cancelled = RunStatus.cancelled

abbrev pub owner_of : Option RunStateTask → Option ActorRef
owner_of none = none
owner_of (some t) = t.owner_actor

abbrev reduce_body : RunState → RunEvent → EventBody → RunState
reduce_body state event (run_started p) = reduce_accepted state event RunStatus.running state.tasks
reduce_body state event (run_completed p) =
    reduce_accepted state event (status_of_completion p.status) state.tasks
reduce_body state event (mailbox_message_appended p) =
    reduce_accepted state event state.status state.tasks
reduce_body state event (task_created p) = reduce_accepted state event state.status (
    insert p.task_id (record { state = TaskState.queued; owner_actor = p.owner_actor }) state.tasks)
reduce_body state event (task_state_changed p) = reduce_accepted state event state.status (
    insert p.task_id
      (record { state = p.to; owner_actor = owner_of (lookup p.task_id state.tasks) }) state.tasks)
reduce_body state event (artifact_published p) =
    reduce_accepted state event state.status state.tasks
reduce_body state event (request_rejected p) = reduce_rejected state

unfoldable pub reduce : RunState → RunEvent → RunState
unfolding insert lookup add
reduce state event = reduce_body state event event.body

-- `events.reduce(reduce, state)`.
unfoldable pub reduce_all : RunState → List RunEvent → RunState
reduce_all state [] = state
reduce_all state (e ∷ es) = reduce_all (reduce state e) es
