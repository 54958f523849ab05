-- ===== src/Runner/Tests.antt =====
-- A script that is played to its end, and instances of the theorems.
use pluto_agent_platform.Common.{[], ◌∷◌, some, none, List, ◌≡◌, arith, refl, Bool}
use pluto_agent_platform.Common.{true, false}
use pluto_agent_platform.Protocol.Actor.{ActorRef, is_actor_role, actor_key}
use pluto_agent_platform.Protocol.Parse.{
  obj, arr, str, field, end, nil, prop, string, get, nullable_string, natural, strings,
  string_array, parse_actor, parse_recipient, parse_owner, parse_mailbox, parse_create_task,
  parse_change, parse_artifact, parse_complete, parse_request,
}
use pluto_agent_platform.Protocol.Request.{Intent, is_valid_intent}
use pluto_agent_platform.Spec.Authored.{AuthoredSpec, AuthoredActorRef, ok}
use pluto_agent_platform.Runner.Script.{
  FakeScriptStep, resolve_value, resolve_ref, parse_ref, request_backed_accepted_events,
  event_payload, walk,
}
use pluto_agent_platform.Runner.Scenario.{
  RunEnd, RunScenarioOptions, Drawn, run_scenario, run_team, run_steps, build_complete_run_request,
}
use pluto_agent_platform.Samples.{generator, host, team}
use pluto_agent_platform.Runner.Fake.{
  run_fake, make_fake_adapter, materialize_fake_protocol_request, materialize_fake_completion,
  resolve_fake_script_step,
}
use pluto_agent_platform.Kernel.Host.{Kernel, new_kernel, run_state_ok}
use pluto_agent_platform.Runner.Finishes.{run_fake-Ended}
use pluto_agent_platform.Authority.State.{
  TeamContext, initial_state, RunStatus, initial_tasks_from, set_of,
}
use pluto_agent_platform.Spec.Compile.{compile}
use pluto_agent_platform.Kernel.Log.{empty_log, head, append, read}
use pluto_agent_platform.Common.Dict.{lookup, add, insert}
use pluto_agent_platform.Kernel.Replay.{IsReplay}
use pluto_agent_platform.Runner.Record.{run_scenario-IsReplay}
use pluto_agent_platform.Tools.Values.{
  request_value, payload_value, actor_value, recipient_value, text_items,
}
use pluto_agent_platform.Authority.Rules.{
  transition_graph, transition_legal, has_task, same_actor_key, actor_matches_role,
  role_owns_task_authorized, role_bounded_transition_authorized, matcher_matches,
  actor_authorized_for_intent, compose_request_key, entity_resolvable, authorization_throws,
  some_throws, matcher_throws, reads_inherited,
}
use pluto_agent_platform.Authority.Validate.{
  missing_dependency_ids, entity_unknown_detail, state_conflict_detail, change_guard, validate,
}
use pluto_agent_platform.Kernel.Reducer.{reduce}
use pluto_agent_platform.Kernel.Build.{
  derive_causation_id, rejected_entity_ref, task_state_or_throw, parse_stage_reason,
  summarize_parse_error, extract_request_id, parse_stage_detail, parse_event, accepted_body,
  build_accepted_event, build_rejected_event,
}
use pluto_agent_platform.Kernel.Submit.{
  rejection_of, commit, submit_parsed_request, rejected_run_id, parse_rejection,
  submit_rejected_parse, event_for, submit, seed_empty, seed_run_started, submit_validated,
}
use pluto_agent_platform.Protocol.Schema.{supported_version, envelope_ok, run_event_ok}
use pluto_agent_platform.Runner.Plays.{Ended}

abbrev spec : AuthoredSpec
spec = record {
  run_id = "run-1";
  scenario_ref = "scenario/hello";
  run_profile_ref = "profile/fake";
  actors =
      ("maker", AuthoredActorRef.role "generator") ∷ ("manager", AuthoredActorRef.manager) ∷ [];
  declared_actors = "manager" ∷ "maker" ∷ [];
  initial_tasks = [];
  policy = none;
  mode = none;
  user_task = none;
  playbook_ref = none;
}

-- The manager creates a task, whose id the next step reads from the log.
abbrev script : List FakeScriptStep
script =
    record {
      actor = ActorRef.manager;
      intent = Intent.create_task;
      payload = obj (
          field "title" (str "build") (
            field "ownerActor"
              (obj (field "kind" (str "role") (field "role" (str "generator") end)))
              (field "dependsOn" (arr nil) end)));
      idempotency_key = none;
    }
    ∷ record {
      actor = generator;
      intent = Intent.change_task_state;
      payload = obj (
          field "taskId" (obj (field "$ref" (str "events[0].payload.taskId") end))
            (field "to" (str "completed") end));
      idempotency_key = none;
    }
    ∷ []

abbrev options : RunScenarioOptions
options = record { correlation_id = none; max_steps = some 3 }

abbrev start : Drawn
start = record { ids = 0; clock = 0 }

abbrev played : RunEnd
played = run_fake host spec script options start

abbrev stopped : RunEnd
stopped = run_fake host spec script (record options { max_steps = some 2 }) start

abbrev fallback : Kernel
fallback = record { state = initial_state team; log = empty_log; drawn = 0; ticks = 0 }

abbrev kernel_of : RunEnd → Kernel
kernel_of (RunEnd.completed k) = k
kernel_of _ = fallback

abbrev is_completed : RunEnd → Bool
is_completed (RunEnd.completed k) = true
is_completed _ = false

completed_end : (x : RunEnd) → is_completed x ≡ true → x ≡ RunEnd.completed (kernel_of x)
completed_end (RunEnd.completed k) h = refl
completed_end (RunEnd.run_not_completed r n) h = absurd (cc (h))
completed_end (RunEnd.kernel_threw f) h = absurd (cc (h))
completed_end RunEnd.adapter_threw h = absurd (cc (h))
completed_end RunEnd.no_manager h = absurd (cc (h))
completed_end (RunEnd.not_compiled f) h = absurd (cc (h))

-- The script is played and the run completed with its task; with a step less it is not completed.
plays :
    (is_completed played ≡ true)
    × ((kernel_of played).state.status ≡ RunStatus.completed)
    × (stopped ≡ RunEnd.run_not_completed "run-1" 2)
unfolding run_fake run_scenario run_team run_steps make_fake_adapter
    materialize_fake_protocol_request materialize_fake_completion resolve_fake_script_step
    resolve_value resolve_ref parse_ref request_backed_accepted_events event_payload walk compile
    build_complete_run_request request_value payload_value actor_value recipient_value text_items
    new_kernel run_state_ok initial_state initial_tasks_from set_of add insert lookup is_actor_role
    actor_key transition_graph transition_legal has_task same_actor_key actor_matches_role
    role_owns_task_authorized role_bounded_transition_authorized matcher_matches
    actor_authorized_for_intent compose_request_key entity_resolvable missing_dependency_ids
    entity_unknown_detail state_conflict_detail change_guard validate reduce head append read
    derive_causation_id rejected_entity_ref task_state_or_throw parse_stage_reason
    summarize_parse_error extract_request_id parse_stage_detail parse_event accepted_body
    build_accepted_event build_rejected_event rejection_of commit submit_validated
    submit_parsed_request authorization_throws some_throws matcher_throws reads_inherited
    rejected_run_id parse_rejection submit_rejected_parse event_for submit seed_empty
    seed_run_started supported_version envelope_ok run_event_ok is_valid_intent get prop string
    nullable_string natural strings string_array parse_actor parse_recipient parse_owner
    parse_mailbox parse_create_task parse_change parse_artifact parse_complete parse_request
plays = (refl, refl, refl)

run_fake-Ended_example : Ended host none script spec start played
run_fake-Ended_example = run_fake-Ended host spec script options start (omega arith)

run_scenario-IsReplay_example :
    (team : TeamContext) × (compile spec ≡ ok team)
    × IsReplay (initial_state team) (kernel_of played)
unfolding run_fake
run_scenario-IsReplay_example =
    run_scenario-IsReplay host spec (make_fake_adapter host script) options start (kernel_of played)
      (completed_end played plays.0)
