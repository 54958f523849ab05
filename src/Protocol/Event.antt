-- ===== src/Protocol/Event.antt =====
-- run-event.ts: the payloads and the event envelope. The kind of an event is the constructor of its
-- body.
use pluto_agent_platform.Common.{ℕ, String, Option, List}
use pluto_agent_platform.Protocol.Actor.{ActorRef, EntityRef}

pub data MailboxMessageKind : Type 0 where
  plan task completion plan_approval_request plan_approval_response final : MailboxMessageKind

pub data TaskState : Type 0 where
  queued running blocked completed failed cancelled : TaskState

pub data RunCompletedStatus : Type 0 where
  succeeded failed cancelled : RunCompletedStatus

pub data ArtifactPublishedKind : Type 0 where
  final intermediate : ArtifactPublishedKind

pub data RejectionReason : Type 0 where
  actor_not_authorized entity_unknown state_conflict schema_invalid : RejectionReason
  idempotency_replay intent_unknown : RejectionReason

-- `toActor`: an actor or the broadcast.
pub data Recipient : Type 0 where
  actor : ActorRef → Recipient
  broadcast : Recipient

pub record RunStartedPayload : Type 0 where
  pub scenario_ref : String
  pub run_profile_ref : String
  pub started_at : String

pub record CompleteRunPayload : Type 0 where
  pub status : RunCompletedStatus
  pub summary : Option String

pub record RunCompletedPayload : Type 0 where
  pub request : CompleteRunPayload
  pub open request use *
  pub completed_at : String

pub record MailboxPayload : Type 0 where
  pub from_actor : ActorRef
  pub to_actor : Recipient
  pub kind : MailboxMessageKind
  pub body : String

pub record MailboxMessageAppendedPayload : Type 0 where
  pub request : MailboxPayload
  pub open request use *
  pub message_id : String

pub record CreateTaskPayload : Type 0 where
  pub title : String
  pub owner_actor : Option ActorRef
  pub depends_on : List String

pub record TaskCreatedPayload : Type 0 where
  pub request : CreateTaskPayload
  pub open request use *
  pub task_id : String

pub record TaskStateChangedPayload : Type 0 where
  pub task_id : String
  pub from : TaskState
  pub to : TaskState

pub record ArtifactPayload : Type 0 where
  pub kind : ArtifactPublishedKind
  pub media_type : String
  pub byte_size : ℕ

pub record ArtifactPublishedPayload : Type 0 where
  pub request : ArtifactPayload
  pub open request use *
  pub artifact_id : String

pub record RequestRejectedPayload : Type 0 where
  pub rejection_reason : RejectionReason
  pub rejected_request_id : String
  pub detail : String

pub data EventBody : Type 0 where
  run_started : RunStartedPayload → EventBody
  run_completed : RunCompletedPayload → EventBody
  mailbox_message_appended : MailboxMessageAppendedPayload → EventBody
  task_created : TaskCreatedPayload → EventBody
  task_state_changed : TaskStateChangedPayload → EventBody
  artifact_published : ArtifactPublishedPayload → EventBody
  request_rejected : RequestRejectedPayload → EventBody

pub data Outcome : Type 0 where
  accepted rejected : Outcome

-- The envelope. `accepted_request_key` is the field that `withAcceptedRequestKey` attaches; `none`
-- stands for null and for its absence, which every reader treats alike.
pub record RunEvent : Type 0 where
  pub event_id : String
  pub run_id : String
  pub sequence : ℕ
  pub timestamp : String
  pub schema_version : String
  pub actor : ActorRef
  pub request_id : Option String
  pub causation_id : Option String
  pub correlation_id : Option String
  pub entity_ref : EntityRef
  pub outcome : Outcome
  pub body : EventBody
  pub accepted_request_key : Option String
