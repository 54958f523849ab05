-- ===== src/Kernel/Tests.antt =====
-- The kernel at a run with one task.
use pluto_agent_platform.Common.{
  refl, ◌≡◌, true, false, some, none, ◌≢◌, ◌↔◌, sym, subst, ◌==◌, ◌∙◌,
}
use pluto_agent_platform.Common.Dict.{insert, add, lookup, has}
use pluto_agent_platform.Protocol.Actor.{is_actor_role, actor_key, ActorRef, EntityRef, same_actor}
use pluto_agent_platform.Protocol.Event.{RunEvent, accepted, rejected, TaskState, EventBody}
use pluto_agent_platform.Protocol.Request.{is_valid_intent, ProtocolRequest, RequestBody}
use pluto_agent_platform.Protocol.Schema.{supported_version, envelope_ok, run_event_ok}
use pluto_agent_platform.Protocol.Parse.{
  get, prop, string, nullable_string, natural, strings, string_array, parse_actor, parse_recipient,
  parse_owner, parse_mailbox, parse_create_task, parse_change, parse_artifact, parse_complete,
  parse_request,
}
use pluto_agent_platform.Authority.State.{
  RunState, initial_state, initial_tasks_from, set_of, RunStateTask,
}
use pluto_agent_platform.Authority.Rules.{
  transition_graph, transition_legal, has_task, same_actor_key, actor_matches_role,
  role_owns_task_authorized, role_bounded_transition_authorized, matcher_matches,
  actor_authorized_for_intent, compose_request_key, entity_resolvable, authorization_throws,
  some_throws, matcher_throws, reads_inherited,
}
use pluto_agent_platform.Authority.Validate.{
  missing_dependency_ids, entity_unknown_detail, state_conflict_detail, change_guard, validate,
}
use pluto_agent_platform.Kernel.Reducer.{reduce}
use pluto_agent_platform.Kernel.Log.{head, append, read, empty_log, Result, returned, thrown, Fault}
use pluto_agent_platform.Kernel.Host.{Kernel, run_state_ok, new_kernel}
use pluto_agent_platform.Kernel.Build.{
  derive_causation_id, rejected_entity_ref, task_state_or_throw, parse_stage_reason,
  summarize_parse_error, extract_request_id, parse_stage_detail, parse_event, accepted_body,
  build_accepted_event, build_rejected_event,
}
use pluto_agent_platform.Kernel.Submit.{
  rejection_of, commit, submit_parsed_request, rejected_run_id, parse_rejection,
  submit_rejected_parse, event_for, submit, seed_empty, seed_run_started, submit_validated,
}
use pluto_agent_platform.Samples.{
  host, team, payload, no_context, finish_task, finish_task_request, generator, drawn_id-other,
}
use pluto_agent_platform.Kernel.Replay.{IsReplay, Reaches-IsReplay}
use pluto_agent_platform.Kernel.Idempotency.{accepted_once, lookup_key}
use pluto_agent_platform.Kernel.Tasks.{
  LegalChange, submit-LegalChange, terminal, transition_legal_iff, terminal_task_rests,
}
use pluto_agent_platform.Kernel.Move.{submits, seeds, here, Answers, submit-Answers}
use pluto_agent_platform.Kernel.Foreign.{foreign_run_unprotected}
use pluto_agent_platform.Protocol.Keys.{actor_key-injective, same_actor_iff}
use pluto_agent_platform.Kernel.Builders.{GoodHost}
use pluto_agent_platform.Common.Int.{minus_one}
use pluto_agent_platform.Kernel.Total.{submit-returns, Decides}

abbrev initial : RunState
initial = initial_state team

abbrev start : Kernel
start = record { state = initial; log = empty_log; drawn = 0; ticks = 0 }

start-made : new_kernel (initial_state team) empty_log 0 0 ≡ returned start
unfolding new_kernel run_state_ok initial_state initial_tasks_from set_of add insert is_actor_role
    actor_key
start-made = refl

abbrev undrawn : RunEvent
undrawn = record {
  event_id = "";
  run_id = "";
  sequence = 0;
  timestamp = "";
  schema_version = "";
  actor = ActorRef.system;
  request_id = none;
  causation_id = none;
  correlation_id = none;
  entity_ref = EntityRef.run "";
  outcome = rejected;
  body = EventBody.run_started payload;
  accepted_request_key = none;
}

abbrev event_of : Result RunEvent × Kernel → RunEvent
event_of (returned e, k) = e
event_of (thrown f, k) = undrawn

abbrev seeded : Result RunEvent × Kernel
seeded = seed_run_started host payload no_context start

abbrev first : Result RunEvent × Kernel
first = submit host (finish_task "run-1") no_context seeded.1

abbrev second : Result RunEvent × Kernel
second = submit host (finish_task "run-1") no_context first.1

abbrev foreign : Result RunEvent × Kernel
foreign = submit host (finish_task "run-2") no_context seeded.1

abbrev done_task : RunStateTask
done_task = record { state = TaskState.completed; owner_actor = some generator }

first-runs :
    (first ≡ (returned (event_of first), first.1))
    × ((event_of first).outcome ≡ accepted)
    × (parse_request host.zod (finish_task "run-1") ≡ some finish_task_request)
    × (seeded.1.state.run_id ≡ "run-1")
    × (lookup "t1" first.1.state.tasks ≡ some done_task)
    × ((event_of first).body
        ≡ EventBody.task_state_changed
            (record { task_id = "t1"; from = TaskState.queued; to = TaskState.completed }))
unfolding initial_state initial_tasks_from set_of add insert lookup is_actor_role actor_key
    transition_graph transition_legal has_task same_actor_key actor_matches_role
    role_owns_task_authorized role_bounded_transition_authorized matcher_matches
    actor_authorized_for_intent compose_request_key entity_resolvable missing_dependency_ids
    entity_unknown_detail state_conflict_detail change_guard validate reduce head append read
    derive_causation_id rejected_entity_ref task_state_or_throw parse_stage_reason
    summarize_parse_error extract_request_id parse_stage_detail parse_event accepted_body
    build_accepted_event build_rejected_event rejection_of commit submit_validated
    submit_parsed_request authorization_throws some_throws matcher_throws reads_inherited
    rejected_run_id parse_rejection submit_rejected_parse event_for submit seed_empty
    seed_run_started supported_version envelope_ok run_event_ok is_valid_intent get prop string
    nullable_string natural strings string_array parse_actor parse_recipient parse_owner
    parse_mailbox parse_create_task parse_change parse_artifact parse_complete parse_request
first-runs = (refl, refl, refl, refl, refl, refl)

second-runs : second ≡ (returned (event_of second), second.1)
unfolding initial_state initial_tasks_from set_of add insert lookup is_actor_role actor_key
    transition_graph transition_legal has_task same_actor_key actor_matches_role
    role_owns_task_authorized role_bounded_transition_authorized matcher_matches
    actor_authorized_for_intent compose_request_key entity_resolvable missing_dependency_ids
    entity_unknown_detail state_conflict_detail change_guard validate reduce head append read
    derive_causation_id rejected_entity_ref task_state_or_throw parse_stage_reason
    summarize_parse_error extract_request_id parse_stage_detail parse_event accepted_body
    build_accepted_event build_rejected_event rejection_of commit submit_validated
    submit_parsed_request authorization_throws some_throws matcher_throws reads_inherited
    rejected_run_id parse_rejection submit_rejected_parse event_for submit seed_empty
    seed_run_started supported_version envelope_ok run_event_ok is_valid_intent get prop string
    nullable_string natural strings string_array parse_actor parse_recipient parse_owner
    parse_mailbox parse_create_task parse_change parse_artifact parse_complete parse_request
second-runs = refl

abbrev foreign_request : ProtocolRequest
foreign_request = record finish_task_request { run_id = "run-2" }

foreign-runs :
    (foreign ≡ (returned (event_of foreign), foreign.1))
    × ((event_of foreign).outcome ≡ accepted)
    × (parse_request host.zod (finish_task "run-2") ≡ some foreign_request)
    × (lookup_key seeded.1.state foreign_request
        ≡ some "run-1|role:generator|change_task_state|key-1")
    × (seeded.1.state.run_id ≡ "run-1")
unfolding initial_state initial_tasks_from set_of add insert lookup is_actor_role actor_key
    transition_graph transition_legal has_task same_actor_key actor_matches_role
    role_owns_task_authorized role_bounded_transition_authorized matcher_matches
    actor_authorized_for_intent compose_request_key entity_resolvable missing_dependency_ids
    entity_unknown_detail state_conflict_detail change_guard validate reduce head append read
    derive_causation_id rejected_entity_ref task_state_or_throw parse_stage_reason
    summarize_parse_error extract_request_id parse_stage_detail parse_event accepted_body
    build_accepted_event build_rejected_event rejection_of commit submit_validated
    submit_parsed_request authorization_throws some_throws matcher_throws reads_inherited
    rejected_run_id parse_rejection submit_rejected_parse event_for submit seed_empty
    seed_run_started supported_version envelope_ok run_event_ok is_valid_intent get prop string
    nullable_string natural strings string_array parse_actor parse_recipient parse_owner
    parse_mailbox parse_create_task parse_change parse_artifact parse_complete parse_request
foreign-runs = (refl, refl, refl, refl, refl)

Reaches-IsReplay_example : IsReplay (initial_state team) first.1
unfolding initial_state
Reaches-IsReplay_example =
    Reaches-IsReplay host (initial_state team) 0 0 start first.1 refl start-made
      (submits (seeds here payload no_context) (finish_task "run-1") no_context)

accepted_once_example : (event_of second).outcome ≡ rejected
accepted_once_example =
    accepted_once host seeded.1 first.1 first.1 second.1 (finish_task "run-1") (finish_task "run-1")
      no_context no_context finish_task_request finish_task_request (event_of first)
      (event_of second) first-runs.2 first-runs.2
      (record { actor = refl; intent = refl; key = refl; present = λ h. cc }) (sym first-runs.3)
      first-runs.0 first-runs.1 here second-runs

foreign_run_unprotected_example :
    has foreign.1.state.accepted_request_keys "run-1|role:generator|change_task_state|key-1" ≡ false
foreign_run_unprotected_example =
    foreign_run_unprotected host seeded.1 foreign.1 (finish_task "run-2") no_context foreign_request
      (event_of foreign) "run-1|role:generator|change_task_state|key-1" foreign-runs.0
      foreign-runs.1 foreign-runs.2 (λ h. not_run_2 (h ∙ foreign-runs.4)) foreign-runs.3
  where
    not_run_2 : foreign_request.run_id ≢ finish_task_request.run_id
    not_run_2 h = cc (subst (λ s. (foreign_request.run_id == s) ≡ true) h refl)

submit-LegalChange_example :
    LegalChange no_context seeded.1 first.1
      (record { task_id = "t1"; from = TaskState.queued; to = TaskState.completed })
submit-LegalChange_example =
    submit-LegalChange host seeded.1 first.1 (finish_task "run-1") no_context (event_of first)
      (record { task_id = "t1"; from = TaskState.queued; to = TaskState.completed }) first-runs.0
      first-runs.5

transition_legal_iff_example : (transition_legal TaskState.completed TaskState.running ≡ true) ↔ (
    (terminal TaskState.completed ≡ false)
    × (TaskState.running ≢ TaskState.queued)
    × (TaskState.running ≢ TaskState.completed))
transition_legal_iff_example = transition_legal_iff TaskState.completed TaskState.running

terminal_task_rests_example : lookup "t1" second.1.state.tasks ≡ some done_task
terminal_task_rests_example =
    terminal_task_rests host "t1" done_task refl first.1 second.1 drawn_id-other first-runs.4
      (submits here (finish_task "run-1") no_context)

actor_key-injective_example : generator ≡ ActorRef.role "generator"
actor_key-injective_example = actor_key-injective generator (ActorRef.role "generator") refl

same_actor_iff_example :
    (same_actor generator ActorRef.manager ≡ true) ↔ (generator ≡ ActorRef.manager)
same_actor_iff_example = same_actor_iff generator ActorRef.manager

submit-Answers_example : Answers host (finish_task "run-1") no_context seeded.1 first
submit-Answers_example = submit-Answers host no_context seeded.1 (finish_task "run-1")

host-GoodHost : GoodHost host
host-GoodHost = record { ids = λ n. refl; times = λ n. refl; stand_in = refl }

seeded-fresh : has seeded.1.log.event_ids (host.next_id seeded.1.drawn) ≡ false
unfolding initial_state initial_tasks_from set_of add insert lookup is_actor_role actor_key
    transition_graph transition_legal has_task same_actor_key actor_matches_role
    role_owns_task_authorized role_bounded_transition_authorized matcher_matches
    actor_authorized_for_intent compose_request_key entity_resolvable missing_dependency_ids
    entity_unknown_detail state_conflict_detail change_guard validate reduce head append read
    derive_causation_id rejected_entity_ref task_state_or_throw parse_stage_reason
    summarize_parse_error extract_request_id parse_stage_detail parse_event accepted_body
    build_accepted_event build_rejected_event rejection_of commit submit_validated
    submit_parsed_request authorization_throws some_throws matcher_throws reads_inherited
    rejected_run_id parse_rejection submit_rejected_parse event_for submit seed_empty
    seed_run_started supported_version envelope_ok run_event_ok is_valid_intent get prop string
    nullable_string natural strings string_array parse_actor parse_recipient parse_owner
    parse_mailbox parse_create_task parse_change parse_artifact parse_complete parse_request
seeded-fresh = refl

finish_task-decided : authorization_throws seeded.1.state finish_task_request ≡ false
unfolding initial_state initial_tasks_from set_of add insert lookup is_actor_role actor_key
    transition_graph transition_legal has_task same_actor_key actor_matches_role
    role_owns_task_authorized role_bounded_transition_authorized matcher_matches
    actor_authorized_for_intent compose_request_key entity_resolvable missing_dependency_ids
    entity_unknown_detail state_conflict_detail change_guard validate reduce head append read
    derive_causation_id rejected_entity_ref task_state_or_throw parse_stage_reason
    summarize_parse_error extract_request_id parse_stage_detail parse_event accepted_body
    build_accepted_event build_rejected_event rejection_of commit submit_validated
    submit_parsed_request authorization_throws some_throws matcher_throws reads_inherited
    rejected_run_id parse_rejection submit_rejected_parse event_for submit seed_empty
    seed_run_started supported_version envelope_ok run_event_ok is_valid_intent get prop string
    nullable_string natural strings string_array parse_actor parse_recipient parse_owner
    parse_mailbox parse_create_task parse_change parse_artifact parse_complete parse_request
finish_task-decided = refl

seeded-Decides : Decides host seeded.1.state (finish_task "run-1")
seeded-Decides r parsed =
    subst (λ q. authorization_throws seeded.1.state q ≡ false) (same (sym first-runs.2 ∙ parsed))
      finish_task-decided
  where
    same : some finish_task_request ≡ some r → finish_task_request ≡ r
    same q = cc

abbrev inherited_change : ProtocolRequest
inherited_change = record finish_task_request {
  body = RequestBody.change_task_state (record { task_id = "toString"; to = TaskState.completed });
}

-- A generator's change of the task "toString" throws.
inherited_change-throws :
    submit_parsed_request host inherited_change no_context seeded.1
    ≡ (thrown Fault.type_error, seeded.1)
unfolding initial_state initial_tasks_from set_of add insert lookup is_actor_role actor_key
    transition_graph transition_legal has_task same_actor_key actor_matches_role
    role_owns_task_authorized role_bounded_transition_authorized matcher_matches
    actor_authorized_for_intent compose_request_key entity_resolvable missing_dependency_ids
    entity_unknown_detail state_conflict_detail change_guard validate reduce head append read
    derive_causation_id rejected_entity_ref task_state_or_throw parse_stage_reason
    summarize_parse_error extract_request_id parse_stage_detail parse_event accepted_body
    build_accepted_event build_rejected_event rejection_of commit submit_validated
    submit_parsed_request authorization_throws some_throws matcher_throws reads_inherited
    rejected_run_id parse_rejection submit_rejected_parse event_for submit seed_empty
    seed_run_started supported_version envelope_ok run_event_ok is_valid_intent get prop string
    nullable_string natural strings string_array parse_actor parse_recipient parse_owner
    parse_mailbox parse_create_task parse_change parse_artifact parse_complete parse_request
inherited_change-throws = refl

minus_one_first : (initial_state team).sequence ≡ minus_one
unfolding initial_state
minus_one_first = refl

submit-returns_example :
    (e : RunEvent) × (k : Kernel) × (submit host (finish_task "run-1") no_context seeded.1
      ≡ (returned e, k))
submit-returns_example =
    submit-returns host (initial_state team) 0 0 start seeded.1 (finish_task "run-1") no_context
      host-GoodHost minus_one_first start-made (seeds here payload no_context) seeded-fresh
      seeded-Decides
