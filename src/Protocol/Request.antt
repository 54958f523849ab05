-- ===== src/Protocol/Request.antt =====
-- protocol-request.ts: a request is an envelope around the payload of its intent.
use pluto_agent_platform.Common.{String, Option, Bool, List, [], ◌∷◌, any, ◌==◌}
use pluto_agent_platform.Protocol.Actor.{ActorRef}
use pluto_agent_platform.Protocol.Event.{
  TaskState, MailboxPayload, CreateTaskPayload, ArtifactPayload, CompleteRunPayload,
}

pub data Intent : Type 0 where
  append_mailbox_message create_task change_task_state publish_artifact complete_run : Intent

pub record ChangeTaskStatePayload : Type 0 where
  pub task_id : String
  pub to : TaskState

pub data RequestBody : Type 0 where
  append_mailbox_message : MailboxPayload → RequestBody
  create_task : CreateTaskPayload → RequestBody
  change_task_state : ChangeTaskStatePayload → RequestBody
  publish_artifact : ArtifactPayload → RequestBody
  complete_run : CompleteRunPayload → RequestBody

pub record ProtocolRequest : Type 0 where
  pub request_id : String
  pub run_id : String
  pub actor : ActorRef
  pub idempotency_key : Option String
  pub client_timestamp : String
  pub schema_version : String
  pub body : RequestBody

abbrev pub intent_of : RequestBody → Intent
intent_of (append_mailbox_message _) = Intent.append_mailbox_message
intent_of (create_task _) = Intent.create_task
intent_of (change_task_state _) = Intent.change_task_state
intent_of (publish_artifact _) = Intent.publish_artifact
intent_of (complete_run _) = Intent.complete_run

abbrev pub intent_name : Intent → String
intent_name append_mailbox_message = "append_mailbox_message"
intent_name create_task = "create_task"
intent_name change_task_state = "change_task_state"
intent_name publish_artifact = "publish_artifact"
intent_name complete_run = "complete_run"

-- `PROTOCOL_REQUEST_INTENT_VALUES`.
abbrev pub protocol_request_intent_values : List Intent
protocol_request_intent_values =
    Intent.append_mailbox_message ∷ Intent.create_task ∷ Intent.change_task_state
    ∷ Intent.publish_artifact ∷ Intent.complete_run ∷ []

-- `VALID_INTENT_VALUES.has(s)`.
unfoldable pub is_valid_intent : String → Bool
is_valid_intent s = any (λ i. intent_name i == s) protocol_request_intent_values
