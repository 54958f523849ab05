-- ===== src/Kernel/Submit.antt =====
-- core/run-kernel.ts: `submit` and `seedRunStarted`.
use pluto_agent_platform.Common.{ℕ, String, Option, none, some, ◌==◌, or_else, if◌then◌else◌}
use pluto_agent_platform.Common.Int.{pos, negsuc}
use pluto_agent_platform.Common.Text.{◌<>◌}
use pluto_agent_platform.Protocol.Actor.{ActorRef, system, EntityRef}
use pluto_agent_platform.Protocol.Event.{
  run_started, RunStartedPayload, accepted, RunEvent, RejectionReason,
}
use pluto_agent_platform.Protocol.Request.{ProtocolRequest}
use pluto_agent_platform.Protocol.Schema.{schema_version_1_0}
use pluto_agent_platform.Protocol.Parse.{Value, prop, string, parse_actor, parse_request}
use pluto_agent_platform.Authority.State.{RunState}
use pluto_agent_platform.Authority.Validate.{validate, ValidationResult, reject}
use pluto_agent_platform.Kernel.Log.{returned, thrown, log_not_empty, head, append, type_error}
use pluto_agent_platform.Kernel.Reducer.{reduce}
use pluto_agent_platform.Kernel.Host.{Host, Kernel, M, ◌>>=◌, draw_id, read_clock}
use pluto_agent_platform.Kernel.Build.{
  unknown_request_id_label, unknown_request_id_uuid, unknown_run_id, SubmitContext,
  rejected_entity_ref, parse_stage_reason, extract_request_id, parse_stage_detail, parse_event,
  build_accepted_event, Rejection, build_rejected_event,
}
use pluto_agent_platform.Authority.Rules.{authorization_throws}

unfoldable pub rejection_of : ProtocolRequest → SubmitContext → RejectionReason → String → Rejection
unfolding rejected_entity_ref
rejection_of request ctx reason detail = record {
  run_id = request.run_id;
  actor = request.actor;
  request_id = request.request_id;
  rejected_request_id = request.request_id;
  schema_version = request.schema_version;
  entity_ref = rejected_entity_ref request;
  reason = reason;
  detail = detail;
  correlation_id = ctx.correlation_id;
}

-- The end of `submit` and of `seedRunStarted`: the log first, then the state.
unfoldable pub commit : RunEvent → M RunEvent
commit event k = elim (append k.log event) [
  | thrown fault ↦ (thrown fault, k)
  | returned log ↦ (returned event, record k { log = log; state = reduce k.state event })
]

abbrev pub started_draft :
    Kernel → RunStartedPayload → SubmitContext → String → String → ℕ → RunEvent
started_draft k payload ctx id time n = record {
  event_id = id;
  run_id = k.state.run_id;
  sequence = n;
  timestamp = time;
  schema_version = schema_version_1_0;
  actor = system;
  request_id = none;
  causation_id = none;
  correlation_id = ctx.correlation_id;
  entity_ref = EntityRef.run k.state.run_id;
  outcome = accepted;
  body = run_started payload;
  accepted_request_key = none;
}

module _ (h : Host) where
  -- What `#submitParsedRequest` does with the answer of the validator.
  unfoldable pub submit_validated : ProtocolRequest → SubmitContext → M RunEvent
  submit_validated request ctx k = elim (validate k.state request ctx.expected_task_state) [
    | ValidationResult.ok ↦ build_accepted_event h request ctx k
    | reject reason detail ↦ build_rejected_event h (rejection_of request ctx reason detail) k
  ]

  -- `#submitParsedRequest`, which a throw out of the validator leaves.
  unfoldable pub submit_parsed_request : ProtocolRequest → SubmitContext → M RunEvent
  submit_parsed_request request ctx k =
      if authorization_throws k.state request
      then (thrown type_error, k)
      else submit_validated request ctx k

  -- `extractRunIdSafely(raw) ?? state.runId) || UNKNOWN_RUN_ID`: the empty text counts as absent.
  unfoldable pub rejected_run_id : RunState → Value → String
  unfolding prop string
  rejected_run_id state raw =
      let id = or_else (string (prop "runId" raw)) state.run_id in
      if id == "" then unknown_run_id else id

  abbrev pub actor_of : Option Value → ActorRef
  actor_of none = system
  actor_of (some v) = or_else (parse_actor v) system

  unfoldable pub parse_rejection : RunState → Value → SubmitContext → Rejection
  unfolding rejected_run_id extract_request_id parse_stage_reason parse_stage_detail prop
      parse_actor
  parse_rejection state raw ctx =
      let label = or_else (extract_request_id h raw) unknown_request_id_label in
      let id = if label == unknown_request_id_label then unknown_request_id_uuid else label in
      record {
        run_id = rejected_run_id state raw;
        actor = actor_of (prop "actor" raw);
        request_id = id;
        rejected_request_id = id;
        schema_version = schema_version_1_0;
        entity_ref = EntityRef.run (rejected_run_id state raw);
        reason = parse_stage_reason raw;
        detail = "Rejected request " <> label <> ": " <> parse_stage_detail h raw;
        correlation_id = ctx.correlation_id;
      }

  -- `#submitRejectedParse`.
  unfoldable pub submit_rejected_parse : Value → SubmitContext → M RunEvent
  submit_rejected_parse raw ctx k = build_rejected_event h (parse_rejection k.state raw ctx) k

  unfoldable pub event_for : Value → SubmitContext → M RunEvent
  event_for raw ctx = elim (parse_request h.zod raw) [
    | some request ↦ submit_parsed_request request ctx
    | none ↦ submit_rejected_parse raw ctx
  ]

  unfoldable pub submit : Value → SubmitContext → M RunEvent
  submit raw ctx = do event ← event_for raw ctx; commit event

  -- `seedRunStarted`, behind its guard.
  unfoldable pub seed_empty : RunStartedPayload → SubmitContext → M RunEvent
  seed_empty payload ctx = do
    id ← draw_id h
    time ← read_clock h
    event ← λ k. parse_event h (started_draft k payload ctx id time) k
    commit event

  unfoldable pub seed_run_started : RunStartedPayload → SubmitContext → M RunEvent
  unfolding head
  seed_run_started payload ctx k = elim (head k.log) [
    | pos n ↦ (thrown log_not_empty, k)
    | negsuc n ↦ seed_empty payload ctx k
  ]
