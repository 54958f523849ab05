-- ===== src/Spec/Tests.antt =====
-- Runs of the compiler on small specs, and instances of its theorems.
use pluto_agent_platform.Common.{none, some, [], ◌∷◌, ◌≡◌, refl, All}
use pluto_agent_platform.Protocol.Actor.{ActorRef}
use pluto_agent_platform.Protocol.Request.{ProtocolRequest, complete_run}
use pluto_agent_platform.Protocol.Event.{RunCompletedStatus}
use pluto_agent_platform.Authority.Policy.{ActorMatcher, generator}
use pluto_agent_platform.Authority.State.{TeamContext, initial_state}
use pluto_agent_platform.Authority.Validate.{validate, ValidationResult}
use pluto_agent_platform.Kernel.Host.{Kernel, new_kernel}
use pluto_agent_platform.Kernel.Log.{empty_log, returned}
use pluto_agent_platform.Kernel.Move.{here}
use pluto_agent_platform.Kernel.Host.{run_state_ok}
use pluto_agent_platform.Authority.Rules.{
  actor_authorized_for_intent, matcher_matches, entity_resolvable, compose_request_key,
}
use pluto_agent_platform.Authority.Validate.{change_guard}
use pluto_agent_platform.Spec.Authored.{
  AuthoredSpec, AuthoredActorRef, AuthoredActorMatcher, agentic, ok, fail, duplicate_task,
  actor_role_unknown, intent_payload_mismatch, orchestration_invalid, key, index,
}
use pluto_agent_platform.Spec.Compile.{compile, AuthoredPolicy}
use pluto_agent_platform.Spec.WellFormed.{WellFormed, Returns}
use pluto_agent_platform.Spec.Decides.{compile_iff}
use pluto_agent_platform.Spec.Rights.{compiled_rights, CompiledRight}
use pluto_agent_platform.Spec.Start.{compile-starts, IsQueued}
use pluto_agent_platform.Samples.{host}

abbrev authored_policy : AuthoredPolicy
authored_policy =
    ("append_mailbox_message", AuthoredActorMatcher.role "lead" ∷ AuthoredActorMatcher.system ∷ [])
    ∷ ("create_task", AuthoredActorMatcher.role "lead" ∷ [])
    ∷ ("change_task_state", AuthoredActorMatcher.role_owns_task "generator" ∷ [])
    ∷ ("publish_artifact", [])
    ∷ ("complete_run", AuthoredActorMatcher.manager ∷ [])
    ∷ []

abbrev spec : AuthoredSpec
spec = record {
  run_id = "run-1";
  scenario_ref = "scenario/hello";
  run_profile_ref = "profile/fake";
  actors =
      ("lead", AuthoredActorRef.role "lead")
      ∷ ("maker", AuthoredActorRef.role "generator")
      ∷ ("manager", AuthoredActorRef.manager)
      ∷ [];
  declared_actors = "lead" ∷ "manager" ∷ "maker" ∷ [];
  initial_tasks =
      record { task_id = "t1"; title = "build"; owner_actor = some "maker"; depends_on = [] }
      ∷ record { task_id = "t2"; title = "test"; owner_actor = none; depends_on = "t1" ∷ [] }
      ∷ [];
  policy = some authored_policy;
  mode = some agentic;
  user_task = some "write a poem";
  playbook_ref = some " plays/poem.MD ";
}

abbrev context : TeamContext
context = record {
  run_id = "run-1";
  scenario_ref = "scenario/hello";
  run_profile_ref = "profile/fake";
  declared_actors = ActorRef.role "lead" ∷ ActorRef.manager ∷ ActorRef.role "generator" ∷ [];
  initial_tasks =
      record {
        task_id = "t1";
        title = "build";
        owner_actor = some (ActorRef.role "generator");
        depends_on = [];
      }
      ∷ record { task_id = "t2"; title = "test"; owner_actor = none; depends_on = "t1" ∷ [] }
      ∷ [];
  policy = record {
    append_mailbox_message = ActorMatcher.role "lead" ∷ ActorMatcher.system ∷ [];
    create_task = ActorMatcher.role "lead" ∷ [];
    change_task_state = ActorMatcher.role_owns_task generator ∷ [];
    publish_artifact = [];
    complete_run = ActorMatcher.manager ∷ [];
  };
}

compiles : compile spec ≡ ok context
unfolding compile
compiles = refl

-- A second task of the same id, a role that is none, a matcher under the wrong intent, and a playbook
-- that is no markdown file.
twice : AuthoredSpec
twice = record spec {
  initial_tasks =
      record { task_id = "t1"; title = "build"; owner_actor = none; depends_on = [] }
      ∷ record { task_id = "t1"; title = "again"; owner_actor = none; depends_on = [] }
      ∷ [];
}

twice_refused :
    compile twice
    ≡ fail duplicate_task "Task \"t1\" is declared more than once"
        (key "initialTasks" ∷ index 1 ∷ key "taskId" ∷ [])
unfolding compile twice
twice_refused = refl

bad_role : AuthoredSpec
bad_role = record spec { actors = ("lead", AuthoredActorRef.role "Lead") ∷ [] }

bad_role_refused :
    compile bad_role
    ≡ fail actor_role_unknown "Invalid role \"Lead\"" (key "actors" ∷ key "lead" ∷ key "role" ∷ [])
unfolding compile bad_role
bad_role_refused = refl

misplaced : AuthoredSpec
misplaced = record spec {
  policy = some (
      ("append_mailbox_message", [])
      ∷ ("create_task", [])
      ∷ ("change_task_state", [])
      ∷ ("publish_artifact", [])
      ∷ ("complete_run", AuthoredActorMatcher.manager ∷ AuthoredActorMatcher.role "lead" ∷ [])
      ∷ []);
}

misplaced_refused :
    compile misplaced
    ≡ fail intent_payload_mismatch "Matcher kind \"role\" is not valid for intent \"complete_run\""
        (key "policy" ∷ key "complete_run" ∷ index 1 ∷ [])
unfolding compile misplaced
misplaced_refused = refl

no_markdown : AuthoredSpec
no_markdown = record spec { playbook_ref = some "plays/poem.txt" }

no_markdown_refused :
    compile no_markdown
    ≡ fail orchestration_invalid
        "agentic orchestration requires playbookRef to reference a markdown file"
        (key "playbookRef" ∷ [])
unfolding compile no_markdown
no_markdown_refused = refl

compile_iff_example :
    (Returns (compile spec) → WellFormed spec) × (WellFormed spec → Returns (compile spec))
compile_iff_example = compile_iff spec

compile-starts_example :
    (k : Kernel) × (new_kernel (initial_state context) empty_log 0 0 ≡ returned k)
    × All (IsQueued k.state.tasks) context.initial_tasks
compile-starts_example = compile-starts spec context 0 0 compiles

abbrev start : Kernel
start = record { state = initial_state context; log = empty_log; drawn = 0; ticks = 0 }

starts : new_kernel (initial_state context) empty_log 0 0 ≡ returned start
unfolding new_kernel initial_state run_state_ok
starts = refl

abbrev completion : ProtocolRequest
completion = record {
  request_id = "00000000-0000-4000-8000-000000000001";
  run_id = "run-1";
  actor = ActorRef.manager;
  idempotency_key = none;
  client_timestamp = "2026-01-01T00:00:00.000Z";
  schema_version = "1.0";
  body = complete_run (record { status = RunCompletedStatus.succeeded; summary = none });
}

completion_valid : validate start.state completion none ≡ ValidationResult.ok
unfolding validate initial_state actor_authorized_for_intent matcher_matches entity_resolvable
    change_guard compose_request_key
completion_valid = refl

compiled_rights_example : CompiledRight completion.actor completion.body
compiled_rights_example =
    compiled_rights host spec context 0 0 start start compiles starts here completion none
      completion_valid
