-- ===== src/Protocol/Schema.antt =====
-- What `RunEventSchema.parse` checks of a typed event (run-event.ts and versioning.ts). zod's formats
-- are a parameter: they are the library's.
use pluto_agent_platform.Common.{
  ℕ, String, Bool, true, false, ◌&&◌, Option, none, some, List, [], ◌∷◌, leb, nat_eq, all,
}
use pluto_agent_platform.Common.Text.{codes}
use pluto_agent_platform.Protocol.Actor.{
  ActorRef, EntityRef, system, run, task, mailbox_message, artifact, role_of_ref,
}
use pluto_agent_platform.Protocol.Event.{
  EventBody, run_started, run_completed, mailbox_message_appended, task_created, task_state_changed,
  artifact_published, request_rejected, Outcome, accepted, rejected, Recipient, actor, broadcast,
  RunEvent,
}

-- `z.string().uuid()` and `z.string().datetime()`.
pub record Zod : Type 0 where
  pub is_uuid : String → Bool
  pub is_datetime : String → Bool

abbrev digit : ℕ → Bool
digit c = leb b'0' c && leb c b'9'

-- `^1\.(0|[1-9]\d*)$`, behind the point.
abbrev minor_codes : List ℕ → Bool
minor_codes [] = false
minor_codes (c ∷ []) = digit c
minor_codes (c ∷ d ∷ cs) = leb b'1' c && leb c b'9' && digit d && all digit cs

abbrev version_codes : List ℕ → Bool
version_codes (c ∷ p ∷ cs) = nat_eq c b'1' && nat_eq p b'.' && minor_codes cs
version_codes _ = false

-- `SupportedSchemaVersionSchema`.
unfoldable pub supported_version : String → Bool
supported_version s = version_codes (codes s)

abbrev pub schema_version_1_0 : String
schema_version_1_0 = "1.0"

abbrev is_run_ref : EntityRef → Bool
is_run_ref (run _) = true
is_run_ref _ = false

abbrev is_task_ref : EntityRef → Bool
is_task_ref (task _) = true
is_task_ref _ = false

abbrev is_mailbox_ref : EntityRef → Bool
is_mailbox_ref (mailbox_message _) = true
is_mailbox_ref _ = false

abbrev is_artifact_ref : EntityRef → Bool
is_artifact_ref (artifact _) = true
is_artifact_ref _ = false

abbrev is_accepted : Outcome → Bool
is_accepted accepted = true
is_accepted rejected = false

abbrev not_accepted : Outcome → Bool
not_accepted accepted = false
not_accepted rejected = true

abbrev pub recipient_ok : Recipient → Bool
recipient_ok (actor a) = role_of_ref a
recipient_ok broadcast = true

abbrev pub owner_ok : Option ActorRef → Bool
owner_ok none = true
owner_ok (some a) = role_of_ref a

-- `SystemAcceptedRunEventEnvelopeSchema`.
abbrev system_ok : Outcome → ActorRef → Option String → Bool
system_ok accepted system none = true
system_ok _ _ _ = false

module _ (z : Zod) where
  open z use {is_uuid, is_datetime}

  abbrev pub nullable_uuid : Option String → Bool
  nullable_uuid none = true
  nullable_uuid (some s) = is_uuid s

  abbrev some_uuid : Option String → Bool
  some_uuid none = false
  some_uuid (some s) = is_uuid s

  -- `RunEventEnvelopeSchema`.
  unfoldable pub envelope_ok : RunEvent → Bool
  envelope_ok e =
      is_uuid e.event_id
      && is_datetime e.timestamp
      && supported_version e.schema_version
      && role_of_ref e.actor
      && nullable_uuid e.request_id
      && nullable_uuid e.causation_id

  -- `AcceptedRunEventEnvelopeSchema`.
  abbrev accepted_ok : RunEvent → Bool
  accepted_ok e = is_accepted e.outcome && some_uuid e.request_id

  -- The schema of each kind: its envelope, the kind of its entity and its payload.
  abbrev pub body_ok : RunEvent → EventBody → Bool
  body_ok e (run_started p) =
      system_ok e.outcome e.actor e.request_id
      && is_run_ref e.entity_ref
      && is_datetime p.started_at
  body_ok e (run_completed p) =
      accepted_ok e && is_run_ref e.entity_ref && is_datetime p.completed_at
  body_ok e (mailbox_message_appended p) =
      accepted_ok e
      && is_mailbox_ref e.entity_ref
      && role_of_ref p.from_actor
      && recipient_ok p.to_actor
  body_ok e (task_created p) = accepted_ok e && is_task_ref e.entity_ref && owner_ok p.owner_actor
  body_ok e (task_state_changed p) = accepted_ok e && is_task_ref e.entity_ref
  body_ok e (artifact_published p) = accepted_ok e && is_artifact_ref e.entity_ref
  body_ok e (request_rejected p) =
      (not_accepted e.outcome && some_uuid e.request_id) && is_uuid p.rejected_request_id

  -- `RunEventSchema`: the event passes the checks of its kind.
  unfoldable pub run_event_ok : RunEvent → Bool
  run_event_ok e = envelope_ok e && body_ok e e.body
