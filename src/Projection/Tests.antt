-- ===== src/Projection/Tests.antt =====
-- The views at small logs.
use pluto_agent_platform.Common.{
  refl, ◌≡◌, [], ◌∷◌, some, none, is_some, if◌then◌else◌, false, String, true, subst, eq_iff, arith,
}
use pluto_agent_platform.Common.Dict.{insert, add, lookup, has}
use pluto_agent_platform.Protocol.Event.{TaskState}
use pluto_agent_platform.Kernel.Host.{Kernel}
use pluto_agent_platform.Kernel.Log.{empty_log, head, append, read}
use pluto_agent_platform.Kernel.Move.{here, submits}
use pluto_agent_platform.Kernel.Submit.{
  submit, rejection_of, commit, submit_parsed_request, rejected_run_id, parse_rejection,
  submit_rejected_parse, event_for, seed_empty, seed_run_started, submit_validated,
}
use pluto_agent_platform.Kernel.Replay.{Distinct}
use pluto_agent_platform.Authority.State.{initial_state, initial_tasks_from, set_of}
use pluto_agent_platform.Samples.{
  host, no_context, new_task, created_event, running_event, message_event, team,
}
use pluto_agent_platform.Projection.Task.{task_reducer, TaskView}
use pluto_agent_platform.Projection.Replay.{replay_all, replay_task, replay_mailbox}
use pluto_agent_platform.Projection.Redelivery.{replay_all-redelivered}
use pluto_agent_platform.Projection.Order.{replay_mailbox-messages_in, messages_in}
use pluto_agent_platform.Protocol.Actor.{is_actor_role, actor_key}
use pluto_agent_platform.Protocol.Request.{is_valid_intent}
use pluto_agent_platform.Protocol.Schema.{supported_version, envelope_ok, run_event_ok}
use pluto_agent_platform.Protocol.Parse.{
  get, prop, string, nullable_string, natural, strings, string_array, parse_actor, parse_recipient,
  parse_owner, parse_mailbox, parse_create_task, parse_change, parse_artifact, parse_complete,
  parse_request,
}
use pluto_agent_platform.Authority.Rules.{
  transition_graph, transition_legal, has_task, same_actor_key, actor_matches_role,
  role_owns_task_authorized, role_bounded_transition_authorized, matcher_matches,
  actor_authorized_for_intent, compose_request_key, entity_resolvable, authorization_throws,
  some_throws, matcher_throws, reads_inherited,
}
use pluto_agent_platform.Authority.Validate.{
  missing_dependency_ids, entity_unknown_detail, state_conflict_detail, change_guard, validate,
}
use pluto_agent_platform.Kernel.Reducer.{reduce}
use pluto_agent_platform.Kernel.Build.{
  derive_causation_id, rejected_entity_ref, task_state_or_throw, parse_stage_reason,
  summarize_parse_error, extract_request_id, parse_stage_detail, parse_event, accepted_body,
  build_accepted_event, build_rejected_event,
}
use pluto_agent_platform.Projection.TaskEffect.{created_ids}
use pluto_agent_platform.Projection.Agrees.{seen_task}
use pluto_agent_platform.Projection.Agreement.{replay_task-agrees}

created-lands : (t : TaskView) × (lookup "t1" (replay_task (created_event ∷ [])) ≡ some t)
unfolding replay_task task_reducer lookup insert
created-lands = (_, refl)

replay_all-redelivered_example :
    replay_all (created_event ∷ running_event ∷ message_event ∷ running_event ∷ [])
    ≡ replay_all (created_event ∷ running_event ∷ message_event ∷ [])
replay_all-redelivered_example =
    replay_all-redelivered running_event (created_event ∷ []) (message_event ∷ []) [] created-lands

replay_mailbox-messages_in_example :
    replay_mailbox (created_event ∷ message_event ∷ [])
    ≡ messages_in (created_event ∷ message_event ∷ [])
replay_mailbox-messages_in_example =
    replay_mailbox-messages_in (created_event ∷ message_event ∷ []) (refl, tt)

abbrev start : Kernel
start = record { state = initial_state team; log = empty_log; drawn = 0; ticks = 0 }

abbrev after : Kernel
after = (submit host new_task no_context start).1

after-created :
    (created_ids after.log.events ≡ "iid" ∷ [])
    × Distinct (created_ids after.log.events)
    × (lookup "iid" after.state.tasks
        ≡ some (record { state = TaskState.queued; owner_actor = none }))
unfolding initial_state initial_tasks_from set_of add insert lookup is_actor_role actor_key
    transition_graph transition_legal has_task same_actor_key actor_matches_role
    role_owns_task_authorized role_bounded_transition_authorized matcher_matches
    actor_authorized_for_intent compose_request_key entity_resolvable missing_dependency_ids
    entity_unknown_detail state_conflict_detail change_guard validate reduce head append read
    derive_causation_id rejected_entity_ref task_state_or_throw parse_stage_reason
    summarize_parse_error extract_request_id parse_stage_detail parse_event accepted_body
    build_accepted_event build_rejected_event rejection_of commit submit_validated
    submit_parsed_request authorization_throws some_throws matcher_throws reads_inherited
    rejected_run_id parse_rejection submit_rejected_parse event_for submit seed_empty
    seed_run_started supported_version envelope_ok run_event_ok is_valid_intent get prop string
    nullable_string natural strings string_array parse_actor parse_recipient parse_owner
    parse_mailbox parse_create_task parse_change parse_artifact parse_complete parse_request
after-created = (refl, (refl, tt), refl)

new_task-unlisted : is_some (lookup "iid" start.state.tasks) ≡ false
unfolding initial_state initial_tasks_from insert lookup
new_task-unlisted = refl

replay_task-agrees_example :
    seen_task (lookup "iid" (replay_task after.log.events))
    ≡ (if is_some (lookup "iid" start.state.tasks) then none else lookup "iid" after.state.tasks)
replay_task-agrees_example =
    replay_task-agrees host start after refl (submits here new_task no_context) after-created.1
      unlisted "iid"
  where
    unlisted :
        (id : String)
        → has (created_ids after.log.events) id ≡ true
        → is_some (lookup id start.state.tasks) ≡ false
    unlisted id h =
        subst (λ x. is_some (lookup x start.state.tasks) ≡ false)
          ((eq_iff "iid" id).0 (ground (arith, rw after-created.0 at h))) new_task-unlisted
