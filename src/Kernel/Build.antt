-- ===== src/Kernel/Build.antt =====
-- core/run-kernel.ts: the fields that are saved from a raw request, and the events that are built.
use pluto_agent_platform.Common.{
  ℕ, suc, String, Option, none, some, List, [], ◌∷◌, map, if◌then◌else◌,
}
use pluto_agent_platform.Common.Int.{ℤ, pos, negsuc, suc_ℤ, nonnegative}
use pluto_agent_platform.Common.Dict.{lookup}
use pluto_agent_platform.Common.Text.{◌<>◌, join}
use pluto_agent_platform.Protocol.Actor.{ActorRef, EntityRef}
use pluto_agent_platform.Protocol.Event.{
  TaskState, EventBody, run_completed, mailbox_message_appended, task_created, task_state_changed,
  artifact_published, request_rejected, accepted, rejected, RunEvent, RejectionReason,
  schema_invalid, intent_unknown,
}
use pluto_agent_platform.Protocol.Request.{
  RequestBody, append_mailbox_message, create_task, change_task_state, publish_artifact,
  complete_run, ProtocolRequest, intent_of, is_valid_intent,
}
use pluto_agent_platform.Protocol.Schema.{run_event_ok}
use pluto_agent_platform.Protocol.Parse.{Value, prop, string}
use pluto_agent_platform.Authority.State.{RunState}
use pluto_agent_platform.Authority.Rules.{compose_request_key}
use pluto_agent_platform.Kernel.Log.{
  EventLog, Result, returned, thrown, schema_error, missing_task, head, read,
}
use pluto_agent_platform.Kernel.Host.{Host, Kernel, M, ◌>>=◌, pure, draw_id, read_clock}

abbrev pub unknown_request_id_label : String
unknown_request_id_label = "<unknown>"

abbrev pub unknown_request_id_uuid : String
unknown_request_id_uuid = "00000000-0000-4000-8000-000000000000"

abbrev pub unknown_run_id : String
unknown_run_id = "<unknown-run>"

-- `RunKernelSubmitContext`.
pub record SubmitContext : Type 0 where
  pub correlation_id : Option String
  pub expected_task_state : Option TaskState

abbrev pub first_id : List RunEvent → Option String
first_id [] = none
first_id (e ∷ es) = some e.event_id

abbrev pub causation_at : EventLog → ℤ → Option String
causation_at log (negsuc n) = none
causation_at log (pos n) = first_id (read log n (suc n))

unfoldable pub derive_causation_id : EventLog → Option String
unfolding head read
derive_causation_id log = causation_at log (head log)

unfoldable pub rejected_entity_ref : ProtocolRequest → EntityRef
rejected_entity_ref request = elim request.body [
  | change_task_state p ↦ EntityRef.task p.task_id
  | append_mailbox_message p ↦ EntityRef.run request.run_id
  | create_task p ↦ EntityRef.run request.run_id
  | publish_artifact p ↦ EntityRef.run request.run_id
  | complete_run p ↦ EntityRef.run request.run_id
]

unfoldable pub task_state_or_throw : RunState → String → Result TaskState
unfolding lookup
task_state_or_throw state id = elim (lookup id state.tasks) [
  | none ↦ thrown (missing_task id)
  | some t ↦ returned t.state
]

abbrev stage_reason : Option String → RejectionReason
stage_reason none = schema_invalid
stage_reason (some intent) = if is_valid_intent intent then schema_invalid else intent_unknown

unfoldable pub parse_stage_reason : Value → RejectionReason
unfolding prop string is_valid_intent
parse_stage_reason raw = stage_reason (string (prop "intent" raw))

abbrev issue_line : List String × String → String
issue_line ([], message) = "<root>: " <> message
issue_line (p ∷ ps, message) = join "." (p ∷ ps) <> ": " <> message

unfoldable pub summarize_parse_error : List (List String × String) → String
summarize_parse_error issues = join "; " (map issue_line issues)

abbrev stage_detail : RejectionReason → Option String → String → String
stage_detail intent_unknown (some intent) summary = "Unknown intent " <> intent <> ". " <> summary
stage_detail _ _ summary = summary

-- The argument of `buildRejectedEvent`.
pub record Rejection : Type 0 where
  pub run_id : String
  pub actor : ActorRef
  pub request_id : String
  pub rejected_request_id : String
  pub schema_version : String
  pub entity_ref : EntityRef
  pub reason : RejectionReason
  pub detail : String
  pub correlation_id : Option String

abbrev pub with_key : Option String → RunEvent → RunEvent
with_key key event = record event { accepted_request_key = key }

-- The part of the envelope that every event of an accepted request shares.
abbrev pub accepted_draft :
    Kernel
    → SubmitContext
    → ProtocolRequest
    → String
    → String
    → EntityRef
    → EventBody
    → ℕ
    → RunEvent
accepted_draft k ctx request id time entity body n = record {
  event_id = id;
  run_id = request.run_id;
  sequence = n;
  timestamp = time;
  schema_version = request.schema_version;
  actor = request.actor;
  request_id = some request.request_id;
  causation_id = derive_causation_id k.log;
  correlation_id = ctx.correlation_id;
  entity_ref = entity;
  outcome = accepted;
  body = body;
  accepted_request_key = none;
}

abbrev pub rejected_draft : Kernel → Rejection → String → String → ℕ → RunEvent
rejected_draft k input id time n = record {
  event_id = id;
  run_id = input.run_id;
  sequence = n;
  timestamp = time;
  schema_version = input.schema_version;
  actor = input.actor;
  request_id = some input.request_id;
  causation_id = derive_causation_id k.log;
  correlation_id = input.correlation_id;
  entity_ref = input.entity_ref;
  outcome = rejected;
  body = request_rejected (record {
    rejection_reason = input.reason;
    rejected_request_id = input.rejected_request_id;
    detail = input.detail;
  });
  accepted_request_key = none;
}

module _ (h : Host) where
  unfoldable pub extract_request_id : Value → Option String
  unfolding prop string
  extract_request_id raw = elim (string (prop "requestId" raw)) [
    | none ↦ none
    | some id ↦ if h.is_uuid id then some id else none
  ]

  unfoldable pub parse_stage_detail : Value → String
  unfolding parse_stage_reason summarize_parse_error prop string
  parse_stage_detail raw =
      stage_detail (parse_stage_reason raw) (string (prop "intent" raw))
        (summarize_parse_error (h.parse_issues raw))

  -- The draft gets the next sequence of the state; `parse` throws where the schema refuses it.
  unfoldable pub parse_event : (ℕ → RunEvent) → M RunEvent
  parse_event draft k = elim (nonnegative (suc_ℤ k.state.sequence)) [
    | none ↦ (thrown schema_error, k)
    | some n ↦
        if run_event_ok h.zod (draft n) then (returned (draft n), k) else (thrown schema_error, k)
  ]

  -- The entity and the payload of each intent. `time` is read once, and a completion bears it too.
  unfoldable pub accepted_body : ProtocolRequest → String → RequestBody → M (EntityRef × EventBody)
  accepted_body request time (append_mailbox_message p) = do
    message_id ← draw_id h
    pure (
      EntityRef.mailbox_message message_id,
      mailbox_message_appended (record { request = p; message_id = message_id }),
    )
  accepted_body request time (create_task p) = do
    task_id ← draw_id h
    pure (EntityRef.task task_id, task_created (record { request = p; task_id = task_id }))
  accepted_body request time (change_task_state p) = do
    from ← λ k. (task_state_or_throw k.state p.task_id, k)
    pure (
      EntityRef.task p.task_id,
      task_state_changed (record { task_id = p.task_id; from = from; to = p.to }),
    )
  accepted_body request time (publish_artifact p) = do
    artifact_id ← draw_id h
    pure (
      EntityRef.artifact artifact_id,
      artifact_published (record { request = p; artifact_id = artifact_id }),
    )
  accepted_body request time (complete_run p) =
      pure
        (EntityRef.run request.run_id, run_completed (record { request = p; completed_at = time }))

  unfoldable pub build_accepted_event : ProtocolRequest → SubmitContext → M RunEvent
  build_accepted_event request ctx = do
    id ← draw_id h
    time ← read_clock h
    named ← accepted_body request time request.body
    event ← λ k. parse_event (accepted_draft k ctx request id time named.0 named.1) k
    pure (
        with_key
          (compose_request_key request.run_id request.actor (intent_of request.body)
            request.idempotency_key)
          event)

  unfoldable pub build_rejected_event : Rejection → M RunEvent
  build_rejected_event input = do
    id ← draw_id h
    time ← read_clock h
    λ k. parse_event (rejected_draft k input id time) k
