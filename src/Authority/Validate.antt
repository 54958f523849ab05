-- ===== src/Authority/Validate.antt =====
-- core/protocol-validator.ts. The guards are tried in the order of the source, and each rejection has
-- its reason and its text.
use pluto_agent_platform.Common.{
  String, Bool, false, not, Option, none, some, List, [], ◌∷◌, if◌then◌else◌,
}
use pluto_agent_platform.Common.Dict.{lookup, has}
use pluto_agent_platform.Common.Text.{◌<>◌, join}
use pluto_agent_platform.Protocol.Event.{
  TaskState, queued, running, blocked, completed, failed, cancelled, RejectionReason,
  actor_not_authorized, entity_unknown, state_conflict, idempotency_replay,
}
use pluto_agent_platform.Protocol.Request.{
  RequestBody, create_task, change_task_state, ChangeTaskStatePayload, ProtocolRequest, intent_of,
  intent_name,
}
use pluto_agent_platform.Authority.State.{RunState, RunStateTask}
use pluto_agent_platform.Authority.Rules.{
  actor_authorized_for_intent, compose_request_key, entity_resolvable, transition_legal, has_task,
  same_state,
}

pub data ValidationResult : Type 0 where
  ok : ValidationResult
  reject : RejectionReason → String → ValidationResult

abbrev pub state_name : TaskState → String
state_name queued = "queued"
state_name running = "running"
state_name blocked = "blocked"
state_name completed = "completed"
state_name failed = "failed"
state_name cancelled = "cancelled"

unfoldable pub missing_dependency_ids : RunState → List String → List String
unfolding has_task
missing_dependency_ids state [] = []
missing_dependency_ids state (d ∷ ds) =
    let rest = missing_dependency_ids state ds in if has_task state d then rest else d ∷ rest

-- `ctx?.expectedTaskState !== undefined && task.state !== ctx.expectedTaskState`.
abbrev pub unexpected : Option TaskState → TaskState → Bool
unexpected none state = false
unexpected (some expected) state = not (same_state state expected)

abbrev change_detail : Option RunStateTask → String → Option TaskState → String
change_detail none id expected = "Task " <> id <> " is unknown."
change_detail (some t) id none = "Task " <> id <> " could not be resolved."
change_detail (some t) id (some expected) =
    if not (same_state t.state expected)
    then "Task "
      <> id
      <> " is "
      <> state_name t.state
      <> ", expected "
      <> state_name expected
      <> "."
    else "Task " <> id <> " could not be resolved."

unfoldable pub entity_unknown_detail : RunState → RequestBody → Option TaskState → String
unfolding lookup missing_dependency_ids
entity_unknown_detail state (change_task_state p) expected =
    change_detail (lookup p.task_id state.tasks) p.task_id expected
entity_unknown_detail state (create_task p) expected =
    "Task dependencies are unknown: "
    <> join ", " (missing_dependency_ids state p.depends_on)
    <> "."
entity_unknown_detail state body expected =
    "Entity for " <> intent_name (intent_of body) <> " could not be resolved."

abbrev state_label : Option RunStateTask → String
state_label none = "<unknown>"
state_label (some t) = state_name t.state

unfoldable pub state_conflict_detail : RunState → ChangeTaskStatePayload → String
unfolding lookup
state_conflict_detail state p =
    "Transition "
    <> state_label (lookup p.task_id state.tasks)
    <> " -> "
    <> state_name p.to
    <> " is not legal for task "
    <> p.task_id
    <> "."

-- The checks that only a change of state has, with the reason and the detail of a rejection.
unfoldable pub change_guard :
    RunState → RequestBody → Option TaskState → Option (RejectionReason × String)
change_guard state (change_task_state p) expected = elim (lookup p.task_id state.tasks) [
  | none ↦ some (entity_unknown, entity_unknown_detail state (change_task_state p) expected)
  | some t ↦
      if unexpected expected t.state
      then some (entity_unknown, entity_unknown_detail state (change_task_state p) expected)
      else if not (transition_legal t.state p.to)
      then some (state_conflict, state_conflict_detail state p)
      else none
]
change_guard state _ expected = none

abbrev pub replay_guard : RunState → Option String → ValidationResult
replay_guard state none = ok
replay_guard state (some key) =
    if has state.accepted_request_keys key
    then reject idempotency_replay ("Request key " <> key <> " was already accepted.")
    else ok

-- The guards behind that of the task. The key is composed with the run id of the state, not of the
-- request.
abbrev pub after_guard :
    RunState → ProtocolRequest → Option (RejectionReason × String) → ValidationResult
after_guard state request (some (reason, detail)) = reject reason detail
after_guard state request none = replay_guard state (
    compose_request_key state.run_id request.actor (intent_of request.body) request.idempotency_key)

unfoldable pub validate : RunState → ProtocolRequest → Option TaskState → ValidationResult
validate state request expected =
    if not (actor_authorized_for_intent state request)
    then reject actor_not_authorized
        ("Actor is not authorized for " <> intent_name (intent_of request.body) <> ".")
    else if not (entity_resolvable state request.body)
    then reject entity_unknown (entity_unknown_detail state request.body expected)
    else after_guard state request (change_guard state request.body expected)
