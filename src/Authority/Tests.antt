-- ===== src/Authority/Tests.antt =====
-- The validator at a run state with one task.
use pluto_agent_platform.Common.{refl, ◌≡◌, ◌↔◌, none, some}
use pluto_agent_platform.Common.Dict.{insert, add, lookup}
use pluto_agent_platform.Protocol.Actor.{actor_key, ActorRef}
use pluto_agent_platform.Protocol.Event.{actor_not_authorized, TaskState}
use pluto_agent_platform.Protocol.Request.{ProtocolRequest}
use pluto_agent_platform.Samples.{team, finish_task_request}
use pluto_agent_platform.Authority.State.{RunState, initial_state, initial_tasks_from, set_of}
use pluto_agent_platform.Authority.Rules.{
  transition_graph, transition_legal, has_task, same_actor_key, actor_matches_role,
  role_owns_task_authorized, role_bounded_transition_authorized, matcher_matches,
  actor_authorized_for_intent, compose_request_key, entity_resolvable,
}
use pluto_agent_platform.Authority.Validate.{
  missing_dependency_ids, entity_unknown_detail, state_conflict_detail, change_guard, validate,
  ValidationResult, reject,
}
use pluto_agent_platform.Authority.Decides.{validate_iff}
use pluto_agent_platform.Authority.Rejections.{validate-reject, Fails}
use pluto_agent_platform.Authority.Canonical.{canonical_rights, CanonicalRight}
use pluto_agent_platform.Authority.Admission.{Admissible}

abbrev state : RunState
state = initial_state team

-- An actor that the team does not declare.
abbrev by_planner : ProtocolRequest
by_planner = record finish_task_request { actor = ActorRef.role "planner" }

validated :
    (validate state finish_task_request none ≡ ValidationResult.ok)
    × (validate state by_planner none
        ≡ reject actor_not_authorized "Actor is not authorized for change_task_state.")
unfolding initial_state initial_tasks_from set_of add insert lookup actor_key transition_graph
    transition_legal has_task same_actor_key actor_matches_role role_owns_task_authorized
    role_bounded_transition_authorized matcher_matches actor_authorized_for_intent
    compose_request_key entity_resolvable missing_dependency_ids entity_unknown_detail
    state_conflict_detail change_guard validate
validated = (refl, refl)

validate_iff_example :
    (validate state finish_task_request (some TaskState.running) ≡ ValidationResult.ok)
    ↔ Admissible state finish_task_request (some TaskState.running)
validate_iff_example = validate_iff state finish_task_request (some TaskState.running)

validate-reject_example : Fails actor_not_authorized state by_planner none
validate-reject_example =
    validate-reject state by_planner none actor_not_authorized
      "Actor is not authorized for change_task_state." validated.1

canonical_rights_example : CanonicalRight state finish_task_request.actor finish_task_request.body
unfolding initial_state
canonical_rights_example = canonical_rights state finish_task_request none refl validated.0
