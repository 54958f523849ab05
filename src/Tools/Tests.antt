-- ===== src/Tools/Tests.antt =====
-- Requests that the server answers, and instances of the theorems about it.
use pluto_agent_platform.Common.{◌≡◌, refl, [], ◌∷◌, some, true, List, ◌⊎◌, ◌↔◌}
use pluto_agent_platform.Protocol.Actor.{
  ActorRef, is_actor_role, actor_key, same_actor, is_lead_actor,
}
use pluto_agent_platform.Protocol.Event.{TaskState}
use pluto_agent_platform.Tools.Turn.{serve, serve_all, OneMutation, serve_all-once}
use pluto_agent_platform.Kernel.Host.{new_kernel, run_state_ok}
use pluto_agent_platform.Kernel.Log.{empty_log, head, append, read}
use pluto_agent_platform.Tools.Samples.{
  deps, config, codec, finish, forged, reconcile, complete, run_with,
}
use pluto_agent_platform.Samples.{host, team, drawn_id-other, finish_task_request}
use pluto_agent_platform.Protocol.Sound.{WellFormed}
use pluto_agent_platform.Samples.{generator}
use pluto_agent_platform.Tools.Api.{handle, run_route}
use pluto_agent_platform.Tools.Guards.{
  ApiState, guards, route_requires_actor, is_mutating, actor_key_for_token,
}
use pluto_agent_platform.Authority.State.{
  RunStateTask, initial_state, initial_tasks_from, set_of, RunStatus,
}
use pluto_agent_platform.Tools.Request.{
  HttpRequest, route_for, read_route_body, parse_actor_header, actor_from_shorthand, bearer_token,
}
use pluto_agent_platform.Tools.Run.{run_composite_tool, run_final_reconciliation}
use pluto_agent_platform.Tools.Composite.{
  parse_final_reconciliation, rejection_result, is_accepted, evidence_value, envelope_value, spread,
}
use pluto_agent_platform.Tools.Audit.{
  validate_final_reconciliation, audit_failures, task_failures, missing_refs, message_ids_of,
  artifact_ids_of, task_states_of, is_terminal_name, FinalReconciliationArgs,
}
use pluto_agent_platform.Tools.Handlers.{handlers, submit_body, build_request, accepted_result}
use pluto_agent_platform.Tools.Values.{request_value, payload_value, actor_value, stringify}
use pluto_agent_platform.Common.Json.{json_text, decimal, signed_decimal}
use pluto_agent_platform.Common.Text.{trim}
use pluto_agent_platform.Tools.Reconciled.{status_of_run}
use pluto_agent_platform.Kernel.Replay.{IsReplay, new_kernel-IsReplay}
use pluto_agent_platform.Common.Dict.{lookup, add, insert}
use pluto_agent_platform.Tools.Concludes.{Concluded, serve-concludes}
use pluto_agent_platform.Tools.Replayed.{served_task_rests, serve_all-IsReplay}
use pluto_agent_platform.Tools.Audited.{Holds, audit_iff}
use pluto_agent_platform.Protocol.Schema.{supported_version, envelope_ok, run_event_ok}
use pluto_agent_platform.Protocol.Parse.{
  parse_request, get, prop, string, nullable_string, natural, strings, string_array, parse_actor,
  parse_recipient, parse_owner, parse_mailbox, parse_create_task, parse_change, parse_artifact,
  parse_complete,
}
use pluto_agent_platform.Tools.RoundTrip.{parse-request_value}
use pluto_agent_platform.Runtime.Lease.{matches, consume_mutation}
use pluto_agent_platform.Authority.Rules.{
  transition_graph, transition_legal, has_task, same_actor_key, actor_matches_role,
  role_owns_task_authorized, role_bounded_transition_authorized, matcher_matches,
  actor_authorized_for_intent, compose_request_key, entity_resolvable, authorization_throws,
  some_throws, matcher_throws, reads_inherited,
}
use pluto_agent_platform.Authority.Validate.{
  missing_dependency_ids, entity_unknown_detail, state_conflict_detail, change_guard, validate,
}
use pluto_agent_platform.Kernel.Reducer.{reduce}
use pluto_agent_platform.Kernel.Build.{
  derive_causation_id, rejected_entity_ref, task_state_or_throw, parse_stage_reason,
  summarize_parse_error, extract_request_id, parse_stage_detail, parse_event, accepted_body,
  build_accepted_event, build_rejected_event,
}
use pluto_agent_platform.Kernel.Submit.{
  rejection_of, commit, submit_parsed_request, rejected_run_id, parse_rejection,
  submit_rejected_parse, event_for, submit, submit_validated,
}
use pluto_agent_platform.Protocol.Request.{is_valid_intent}

abbrev lead : ActorRef
lead = ActorRef.role "lead"

abbrev running : ApiState
running = run_with TaskState.running generator

abbrev closed : ApiState
closed = run_with TaskState.completed lead

abbrev done_task : RunStateTask
done_task = record { state = TaskState.completed; owner_actor = some generator }

abbrev turn : List HttpRequest
turn = forged ∷ finish ∷ complete ∷ finish ∷ []

-- Of a turn's requests only the first that bears its actor's token changes a task; the second is
-- answered with a conflict. The lead cannot complete the run directly, and ends it by an audit.
serves :
    (lookup "t1" (serve_all deps config codec turn running).world.kernel.state.tasks
      ≡ some done_task)
    × ((serve_all deps config codec turn running).lease.mutation_consumed ≡ true)
    × (serve deps config codec forged running ≡ running)
    × (serve deps config codec complete closed ≡ closed)
    × (status_of_run (serve deps config codec reconcile closed).world ≡ RunStatus.completed)
    × (status_of_run (serve deps config codec reconcile (run_with TaskState.running lead)).world
        ≡ RunStatus.failed)
unfolding serve serve_all handle run_route guards route_requires_actor is_mutating
    actor_key_for_token run_composite_tool run_final_reconciliation parse_final_reconciliation
    rejection_result is_accepted validate_final_reconciliation audit_failures task_failures
    missing_refs message_ids_of artifact_ids_of task_states_of is_terminal_name evidence_value
    envelope_value spread handlers submit_body build_request accepted_result request_value
    payload_value actor_value stringify json_text decimal signed_decimal route_for read_route_body
    parse_actor_header actor_from_shorthand bearer_token trim matches consume_mutation same_actor
    is_lead_actor initial_state initial_tasks_from set_of add insert lookup is_actor_role actor_key
    transition_graph transition_legal has_task same_actor_key actor_matches_role
    role_owns_task_authorized role_bounded_transition_authorized matcher_matches
    actor_authorized_for_intent compose_request_key entity_resolvable missing_dependency_ids
    entity_unknown_detail state_conflict_detail change_guard validate reduce head append read
    derive_causation_id rejected_entity_ref task_state_or_throw parse_stage_reason
    summarize_parse_error extract_request_id parse_stage_detail parse_event accepted_body
    build_accepted_event build_rejected_event rejection_of commit submit_validated
    submit_parsed_request authorization_throws some_throws matcher_throws reads_inherited
    rejected_run_id parse_rejection submit_rejected_parse event_for submit supported_version
    envelope_ok run_event_ok is_valid_intent get prop string nullable_string natural strings
    string_array parse_actor parse_recipient parse_owner parse_mailbox parse_create_task
    parse_change parse_artifact parse_complete parse_request
serves = (refl, refl, refl, refl, refl, refl)

serve_all-once_example :
    (serve_all deps config codec turn running ≡ running)
    ⊎ OneMutation deps config codec turn running
serve_all-once_example = serve_all-once deps config codec turn running

serve-concludes_example :
    (status_of_run (serve deps config codec reconcile closed).world ≡ status_of_run closed.world)
    ⊎ Concluded deps config codec reconcile closed (serve deps config codec reconcile closed)
serve-concludes_example = serve-concludes deps config codec reconcile closed

abbrev fresh : ApiState
fresh = record closed {
  world = record closed.world {
    kernel = record { state = initial_state team; log = empty_log; drawn = 0; ticks = 0 };
  };
}

fresh-IsReplay : IsReplay (initial_state team) fresh.world.kernel
unfolding new_kernel run_state_ok initial_state initial_tasks_from set_of add insert is_actor_role
    actor_key
fresh-IsReplay = new_kernel-IsReplay (initial_state team) 0 0 fresh.world.kernel refl refl

serve_all-IsReplay_example :
    IsReplay
      (initial_state team)
      (serve_all deps config codec (reconcile ∷ finish ∷ []) fresh).world.kernel
serve_all-IsReplay_example =
    serve_all-IsReplay deps config codec (initial_state team) (reconcile ∷ finish ∷ []) fresh
      fresh-IsReplay

served_task_rests_example :
    lookup "t1" (serve_all deps config codec turn closed).world.kernel.state.tasks ≡ some done_task
unfolding lookup
served_task_rests_example =
    served_task_rests deps config codec "t1" done_task turn closed refl drawn_id-other closed_task
  where
    closed_task : lookup "t1" closed.world.kernel.state.tasks ≡ some done_task
    closed_task = refl

abbrev claims_made : FinalReconciliationArgs
claims_made = record {
  completed_tasks = "t1" ∷ "t1" ∷ [];
  cited_messages = "2" ∷ [];
  cited_artifact_refs = [];
  unresolved_issues = [];
  summary = "done";
}

audit_iff_example :
    ((validate_final_reconciliation claims_made (deps.prompt_view closed.world.kernel lead)).passed
      ≡ true)
    ↔ Holds claims_made (deps.prompt_view closed.world.kernel lead)
audit_iff_example = audit_iff claims_made (deps.prompt_view closed.world.kernel lead)

parse-request_value_example :
    parse_request host.zod (request_value finish_task_request) ≡ some finish_task_request
unfolding is_actor_role supported_version
parse-request_value_example =
    parse-request_value finish_task_request host.zod finish_task-WellFormed refl
  where
    finish_task-WellFormed : WellFormed host.zod finish_task_request
    finish_task-WellFormed = record { request_id = refl; actor = refl; version = refl; body = tt }
