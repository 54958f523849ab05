-- ===== src/Samples.antt =====
-- Test data: a host, a team, requests and the kernels that they lead to.
use pluto_agent_platform.Common.{
  ℕ, zero, suc, String, true, none, some, [], ◌∷◌, ◌≡◌, ◌≢◌, ap, arith,
}
use Prim.Native.Char.{code}
use text.Mathlib.TextLemmas.{cons-append}
use pluto_agent_platform.Common.Text.{◌<>◌}
use pluto_agent_platform.Protocol.Actor.{ActorRef, EntityRef}
use pluto_agent_platform.Protocol.Event.{
  TaskState, RunStartedPayload, EventBody, RunEvent, Recipient, accepted, MailboxMessageKind,
}
use pluto_agent_platform.Protocol.Request.{ProtocolRequest, RequestBody}
use pluto_agent_platform.Protocol.Parse.{Value, Fields, null, str, arr, obj, end, field, nil}
use pluto_agent_platform.Authority.Policy.{canonical_authority_policy}
use pluto_agent_platform.Authority.State.{TeamContext}
use pluto_agent_platform.Kernel.Build.{SubmitContext}
use pluto_agent_platform.Kernel.Host.{Host}

-- "id", "id'", "id''" and so on.
abbrev pub drawn_id : ℕ → String
drawn_id zero = "id"
drawn_id (suc n) = "i" <> drawn_id n

initial_letter : String → ℕ
initial_letter String.[] = 0
initial_letter (String.◌∷◌ c r) = code c

letter_i : (r : String) → initial_letter ("i" <> r) ≡ b'i'
unfolding initial_letter
letter_i r = ap initial_letter (cons-append "i" "" r)

pub drawn_id-other : (n : ℕ) → drawn_id n ≢ "t1"
unfolding initial_letter
drawn_id-other zero h = absurd (omega (arith, ap initial_letter h))
drawn_id-other (suc n) h = absurd (omega (arith, ap initial_letter h, letter_i (drawn_id n)))

abbrev pub host : Host
host = record {
  zod = record { is_uuid = λ s. true; is_datetime = λ s. true };
  next_id = drawn_id;
  now_iso = λ n. "2026-01-01T00:00:00.000Z";
  parse_issues = λ v. [];
}

abbrev pub generator : ActorRef
generator = ActorRef.role "generator"

abbrev pub team : TeamContext
team = record {
  run_id = "run-1";
  scenario_ref = "scenario/hello";
  run_profile_ref = "profile/fake";
  declared_actors = ActorRef.manager ∷ generator ∷ [];
  initial_tasks =
      record { task_id = "t1"; title = "build"; owner_actor = some generator; depends_on = [] }
      ∷ [];
  policy = canonical_authority_policy;
}

abbrev pub payload : RunStartedPayload
payload = record {
  scenario_ref = "scenario/hello";
  run_profile_ref = "profile/fake";
  started_at = "2026-01-01T00:00:00.000Z";
}

abbrev pub no_context : SubmitContext
no_context = record { correlation_id = none; expected_task_state = none }

abbrev envelope : String → String → Value → Fields → Fields
envelope run_id intent actor rest = field "requestId" (str "00000000-0000-4000-8000-000000000001") (
    field "runId" (str run_id) (
      field "actor" actor (
        field "intent" (str intent) (
          field "idempotencyKey" (str "key-1") (
            field "clientTimestamp" (str "2026-01-01T00:00:00.000Z")
              (field "schemaVersion" (str "1.0") rest))))))

abbrev generator_value : Value
generator_value = obj (field "kind" (str "role") (field "role" (str "generator") end))

abbrev manager_value : Value
manager_value = obj (field "kind" (str "manager") end)

-- The generator completes its task.
abbrev pub finish_task : String → Value
finish_task run_id = obj (
    envelope run_id "change_task_state" generator_value
      (field "payload" (obj (field "taskId" (str "t1") (field "to" (str "completed") end))) end))

abbrev pub finish_task_request : ProtocolRequest
finish_task_request = record {
  request_id = "00000000-0000-4000-8000-000000000001";
  run_id = "run-1";
  actor = generator;
  idempotency_key = some "key-1";
  client_timestamp = "2026-01-01T00:00:00.000Z";
  schema_version = "1.0";
  body = RequestBody.change_task_state (record { task_id = "t1"; to = TaskState.completed });
}

-- The manager creates a task that depends on none.
abbrev pub new_task : Value
new_task = obj (
    envelope "run-1" "create_task" manager_value (
      field "payload"
        (obj (
          field "title" (str "review") (field "ownerActor" null (field "dependsOn" (arr nil) end))))
        end))

-- The n-th event of a log, with a body.
abbrev pub event_at : ℕ → String → EventBody → RunEvent
event_at n id body = record {
  event_id = id;
  run_id = "run-1";
  sequence = n;
  timestamp = "2026-01-01T00:00:00.000Z";
  schema_version = "1.0";
  actor = ActorRef.manager;
  request_id = some "00000000-0000-4000-8000-000000000001";
  causation_id = none;
  correlation_id = none;
  entity_ref = EntityRef.run "run-1";
  outcome = accepted;
  body = body;
  accepted_request_key = none;
}

abbrev pub created_event : RunEvent
created_event = event_at 0 "e0" (
    EventBody.task_created (record {
      request = record { title = "build"; owner_actor = some generator; depends_on = [] };
      task_id = "t1";
    }))

abbrev pub running_event : RunEvent
running_event = event_at 1 "e1" (
    EventBody.task_state_changed
      (record { task_id = "t1"; from = TaskState.queued; to = TaskState.running }))

abbrev pub message_event : RunEvent
message_event = event_at 2 "e2" (
    EventBody.mailbox_message_appended (record {
      request = record {
        from_actor = generator;
        to_actor = Recipient.actor (ActorRef.role "lead");
        kind = MailboxMessageKind.completion;
        body = "done";
      };
      message_id = "m1";
    }))
