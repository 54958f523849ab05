-- ===== src/Tools/RoundTrip.antt =====
-- A request that is built as an object is parsed as itself.
use pluto_agent_platform.Common.{String, true, Option, none, some, List, [], ◌∷◌, ◌≡◌, refl}
use pluto_agent_platform.Protocol.Actor.{ActorRef, role_of_ref}
use pluto_agent_platform.Protocol.Event.{
  MailboxMessageKind, TaskState, RunCompletedStatus, ArtifactPublishedKind, Recipient,
}
use pluto_agent_platform.Protocol.Request.{
  RequestBody, append_mailbox_message, create_task, change_task_state, publish_artifact,
  complete_run, ProtocolRequest, intent_of, intent_name,
}
use pluto_agent_platform.Protocol.Schema.{Zod, owner_ok, recipient_ok}
use pluto_agent_platform.Protocol.Parse.{
  Value, str, ◌>>=◌, string, nullable_string, strings, enum, message_kinds, task_states,
  run_statuses, artifact_kinds, parse_actor, parse_recipient, parse_owner, parse_mailbox,
  parse_create_task, parse_change, parse_artifact, parse_complete, payload_parser, parse_request,
}
use pluto_agent_platform.Protocol.Sound.{WellFormed, BodyFits}
use pluto_agent_platform.Authority.Validate.{state_name}
use pluto_agent_platform.Tools.Values.{
  actor_value, recipient_value, owner_value, message_kind_name, status_name, artifact_kind_name,
  nullable_text, text_items, payload_value, request_value,
}

pub parse-actor_value : (a : ActorRef) → role_of_ref a ≡ true → parse_actor (actor_value a) ≡ some a
unfolding parse_actor actor_value
parse-actor_value ActorRef.manager h = refl
parse-actor_value ActorRef.system h = refl
parse-actor_value (ActorRef.role r) h = rw h

parse-recipient_value :
    (to : Recipient) → recipient_ok to ≡ true → parse_recipient (recipient_value to) ≡ some to
unfolding parse_recipient recipient_value
parse-recipient_value (Recipient.actor a) h = rw (parse-actor_value a h, parse_recipient)
parse-recipient_value Recipient.broadcast h = refl

parse-owner_value : (o : Option ActorRef) → owner_ok o ≡ true → parse_owner (owner_value o) ≡ some o
unfolding parse_owner actor_value
parse-owner_value none h = refl
parse-owner_value (some ActorRef.manager) h = rw (parse-actor_value ActorRef.manager h)
parse-owner_value (some ActorRef.system) h = rw (parse-actor_value ActorRef.system h)
parse-owner_value (some (ActorRef.role r)) h = rw (parse-actor_value (ActorRef.role r) h)

strings-text_items : (ss : List String) → strings (text_items ss) ≡ some ss
unfolding strings text_items
strings-text_items [] = refl
strings-text_items (s ∷ ss) = rw (strings-text_items ss)

message_kind_read :
    (k : MailboxMessageKind) → enum message_kinds (some (str (message_kind_name k))) ≡ some k
unfolding string
message_kind_read MailboxMessageKind.plan = refl
message_kind_read MailboxMessageKind.task = refl
message_kind_read MailboxMessageKind.completion = refl
message_kind_read MailboxMessageKind.plan_approval_request = refl
message_kind_read MailboxMessageKind.plan_approval_response = refl
message_kind_read MailboxMessageKind.final = refl

state_read : (s : TaskState) → enum task_states (some (str (state_name s))) ≡ some s
unfolding string
state_read TaskState.queued = refl
state_read TaskState.running = refl
state_read TaskState.blocked = refl
state_read TaskState.completed = refl
state_read TaskState.failed = refl
state_read TaskState.cancelled = refl

status_read : (s : RunCompletedStatus) → enum run_statuses (some (str (status_name s))) ≡ some s
unfolding string
status_read RunCompletedStatus.succeeded = refl
status_read RunCompletedStatus.failed = refl
status_read RunCompletedStatus.cancelled = refl

artifact_kind_read :
    (k : ArtifactPublishedKind) → enum artifact_kinds (some (str (artifact_kind_name k))) ≡ some k
unfolding string
artifact_kind_read ArtifactPublishedKind.final = refl
artifact_kind_read ArtifactPublishedKind.intermediate = refl

nullable_read : (o : Option String) → nullable_string (some (nullable_text o)) ≡ some o
unfolding nullable_string
nullable_read none = refl
nullable_read (some s) = refl

unfoldable pub parser_of : RequestBody → Value → Option RequestBody
parser_of (append_mailbox_message p) = parse_mailbox
parser_of (create_task p) = parse_create_task
parser_of (change_task_state p) = parse_change
parser_of (publish_artifact p) = parse_artifact
parser_of (complete_run p) = parse_complete

-- The parser of an intent is chosen by its name, and reads the payload of a body.
pub parser_chosen :
    (b : RequestBody) → payload_parser (intent_name (intent_of b)) ≡ some (parser_of b)
unfolding parser_of
parser_chosen (append_mailbox_message p) = refl
parser_chosen (create_task p) = refl
parser_chosen (change_task_state p) = refl
parser_chosen (publish_artifact p) = refl
parser_chosen (complete_run p) = refl

pub payload_read : (b : RequestBody) → BodyFits b → parser_of b (payload_value b) ≡ some b
unfolding parser_of payload_value parse_mailbox parse_create_task parse_change parse_artifact
    parse_complete
payload_read (append_mailbox_message p) h = rw (
  parse-actor_value p.from_actor h.0,
  parse-recipient_value p.to_actor h.1,
  message_kind_read p.kind,
)
payload_read (create_task p) h =
    rw (parse-owner_value p.owner_actor h, strings-text_items p.depends_on)
payload_read (change_task_state p) h = rw (state_read p.to)
payload_read (publish_artifact p) h = rw (artifact_kind_read p.kind)
payload_read (complete_run p) h = rw (status_read p.status, nullable_read p.summary)

-- The end of `parse_request`, over the parts that it reads.
abbrev pub assemble :
    Option (Value → Option RequestBody)
    → Option String
    → Option String
    → Option ActorRef
    → Option (Option String)
    → Option String
    → Option String
    → Option Value
    → Option ProtocolRequest
assemble parser id run by key time version payload = do
  parse ← parser
  request_id ← id
  run_id ← run
  actor ← by
  idempotency_key ← key
  stamp ← time
  schema_version ← version
  body ← payload >>= parse
  some (record {
    request_id = request_id;
    run_id = run_id;
    actor = actor;
    idempotency_key = idempotency_key;
    client_timestamp = stamp;
    schema_version = schema_version;
    body = body;
  })

module _ (r : ProtocolRequest) where
  assembled :
      (parser : Option (Value → Option RequestBody)) (id run : Option String) (by : Option ActorRef)
      (key : Option (Option String)) (time version : Option String)
      → parser ≡ some (parser_of r.body)
      → id ≡ some r.request_id
      → run ≡ some r.run_id
      → by ≡ some r.actor
      → key ≡ some r.idempotency_key
      → time ≡ some r.client_timestamp
      → version ≡ some r.schema_version
      → parser_of r.body (payload_value r.body) ≡ some r.body
      → assemble parser id run by key time version (some (payload_value r.body)) ≡ some r
  assembled parser id run by key time version e1 e2 e3 e4 e5 e6 e7 e8 =
      rw (e1, e2, e3, e4, e5, e6, e7, e8)

  -- A well-formed request that is built as an object is parsed as itself.
  pub parse-request_value :
      (z : Zod)
      → WellFormed z r
      → z.is_datetime r.client_timestamp ≡ true
      → parse_request z (request_value r) ≡ some r
  unfolding parse_request request_value
  parse-request_value z w stamp =
      assembled _ _ _ _ _ _ _ (parser_chosen r.body) (rw w.request_id) refl
        (parse-actor_value r.actor w.actor) (nullable_read r.idempotency_key) (rw stamp)
        (rw w.version) (payload_read r.body w.body)
