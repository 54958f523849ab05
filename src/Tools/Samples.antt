-- ===== src/Tools/Samples.antt =====
-- Test data: a server with two actors, and requests.
use pluto_agent_platform.Common.Text.{◌<>◌}
use pluto_agent_platform.Samples.{host}
use pluto_agent_platform.Common.{String, none, some, List, [], ◌∷◌, if◌then◌else◌, ◌==◌, true}
use pluto_agent_platform.Protocol.Actor.{ActorRef}
use pluto_agent_platform.Protocol.Event.{TaskState}
use pluto_agent_platform.Protocol.Parse.{Value, Items, obj, arr, str, num, end, field, nil, cons}
use pluto_agent_platform.Authority.State.{RunStateTask, initial_state, RunStatus}
use pluto_agent_platform.Kernel.Host.{Kernel}
use pluto_agent_platform.Tools.World.{Deps}
use pluto_agent_platform.Tools.Guards.{PlutoLocalApiConfig, ApiState}
use pluto_agent_platform.Tools.Request.{Codec, HttpRequest}
use pluto_agent_platform.Common.Int.{pos}
use pluto_agent_platform.Tools.Values.{stringify}
use pluto_agent_platform.Samples.{team, host, generator}
use pluto_agent_platform.Kernel.Log.{empty_log}
use pluto_agent_platform.Runtime.Lease.{make_turn_lease}
use pluto_agent_platform.Authority.Validate.{state_name}

abbrev shown_tasks : List (String × RunStateTask) → Items
shown_tasks [] = nil
shown_tasks (entry ∷ tasks) =
    cons (obj (field "id" (str entry.0) (field "state" (str (state_name entry.1.state)) end)))
      (shown_tasks tasks)

-- A prompt view with the tasks of the state, one message and no artifact.
abbrev view : Kernel → ActorRef → Value
view k actor = obj (
    field "tasks" (arr (shown_tasks k.state.tasks)) (
      field "mailbox" (arr (cons (obj (field "sequence" (num (pos 2)) end)) nil))
        (field "artifacts" (arr nil) end)))

abbrev pub deps : Deps
deps = record {
  host = host;
  run_id = "run-1";
  schema_version = "1.0";
  iso_string = λ s. some s;
  artifact_path = λ id. "artifacts/" <> id;
  writable = λ path. true;
  transcript = λ key. "";
  prompt_view = view;
  schema_summary = λ v. "invalid";
}

abbrev pub config : PlutoLocalApiConfig
config = record {
  run_dir = some "runs/run-1";
  token_by_actor = ("role:lead", "token-1") ∷ ("role:generator", "token-2") ∷ [];
  registered_actor_keys = none;
  wait_service = none;
}

abbrev pub finish_body : Value
finish_body = obj (field "taskId" (str "t1") (field "to" (str "completed") end))

abbrev pub reconcile_body : Value
reconcile_body = obj (
    field "completedTasks" (arr (cons (str "t1") nil))
      (field "citedMessages" (arr (cons (str "2") nil)) (field "summary" (str "done") end)))

-- Of the JSON texts, these that the requests below have.
abbrev pub codec : Codec
codec = record {
  parse_json = λ text.
      if text == stringify finish_body
      then some finish_body
      else if text == stringify reconcile_body
      then some reconcile_body
      else none;
  decode_uri = λ text. some text;
}

abbrev pub request : String → Value → String → String → HttpRequest
request path body actor token = record {
  method = "POST";
  pathname = path;
  body_text = stringify body;
  actor_header = some actor;
  authorization = some ("bearer  " <> token);
}

abbrev pub finish : HttpRequest
finish = request "/v1/tools/change-task-state" finish_body "generator" "token-2"

-- The lead with the token of the generator.
abbrev pub forged : HttpRequest
forged = request "/v1/tools/change-task-state" finish_body "lead" "token-2"

abbrev pub reconcile : HttpRequest
reconcile = request "/v2/composite/final-reconciliation" reconcile_body "role:lead" "token-1"

abbrev pub complete : HttpRequest
complete = request "/v1/tools/complete-run" (obj end) "role:lead" "token-1"

-- A run with one task of the generator, in a state, and a turn.
abbrev pub run_with : TaskState → ActorRef → ApiState
run_with state actor = record {
  world = record {
    kernel = record {
      state = record (initial_state team) {
        status = RunStatus.running;
        tasks = ("t1", record { state = state; owner_actor = some generator }) ∷ [];
      };
      log = empty_log;
      drawn = 0;
      ticks = 0;
    };
    artifacts = [];
    evidence = none;
  };
  lease = make_turn_lease (some actor);
}
