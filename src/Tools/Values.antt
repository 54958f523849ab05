-- ===== src/Tools/Values.antt =====
-- The values that go between the tools and the kernel: a request as the object that the handlers build,
-- and `JSON.stringify`.
use pluto_agent_platform.Common.{String, Bool, true, false, Option, none, some, List, [], ◌∷◌}
use pluto_agent_platform.Common.Int.{pos}
use pluto_agent_platform.Common.Text.{◌<>◌}
use pluto_agent_platform.Common.Json.{json_text, signed_decimal}
use pluto_agent_platform.Protocol.Actor.{ActorRef}
use pluto_agent_platform.Protocol.Event.{
  MailboxMessageKind, RunCompletedStatus, ArtifactPublishedKind, Recipient,
}
use pluto_agent_platform.Protocol.Request.{
  RequestBody, append_mailbox_message, create_task, change_task_state, publish_artifact,
  complete_run, ProtocolRequest, intent_of, intent_name,
}
use pluto_agent_platform.Protocol.Parse.{
  Value, Fields, Items, obj, arr, str, num, bool, null, other, end, field, nil, cons,
}
use pluto_agent_platform.Authority.Validate.{state_name}

unfoldable pub actor_value : ActorRef → Value
actor_value ActorRef.manager = obj (field "kind" (str "manager") end)
actor_value ActorRef.system = obj (field "kind" (str "system") end)
actor_value (ActorRef.role r) = obj (field "kind" (str "role") (field "role" (str r) end))

unfoldable pub recipient_value : Recipient → Value
unfolding actor_value
recipient_value (Recipient.actor a) = actor_value a
recipient_value Recipient.broadcast = obj (field "kind" (str "broadcast") end)

abbrev pub owner_value : Option ActorRef → Value
owner_value none = null
owner_value (some a) = actor_value a

abbrev pub message_kind_name : MailboxMessageKind → String
message_kind_name MailboxMessageKind.plan = "plan"
message_kind_name MailboxMessageKind.task = "task"
message_kind_name MailboxMessageKind.completion = "completion"
message_kind_name MailboxMessageKind.plan_approval_request = "plan_approval_request"
message_kind_name MailboxMessageKind.plan_approval_response = "plan_approval_response"
message_kind_name MailboxMessageKind.final = "final"

abbrev pub status_name : RunCompletedStatus → String
status_name RunCompletedStatus.succeeded = "succeeded"
status_name RunCompletedStatus.failed = "failed"
status_name RunCompletedStatus.cancelled = "cancelled"

abbrev pub artifact_kind_name : ArtifactPublishedKind → String
artifact_kind_name ArtifactPublishedKind.final = "final"
artifact_kind_name ArtifactPublishedKind.intermediate = "intermediate"

abbrev pub nullable_text : Option String → Value
nullable_text none = null
nullable_text (some s) = str s

unfoldable pub text_items : List String → Items
text_items [] = nil
text_items (s ∷ ss) = cons (str s) (text_items ss)

-- The payload of a request as an object.
unfoldable pub payload_value : RequestBody → Value
unfolding actor_value recipient_value text_items
payload_value (append_mailbox_message p) = obj (
    field "fromActor" (actor_value p.from_actor) (
      field "toActor" (recipient_value p.to_actor)
        (field "kind" (str (message_kind_name p.kind)) (field "body" (str p.body) end))))
payload_value (create_task p) = obj (
    field "title" (str p.title) (
      field "ownerActor" (owner_value p.owner_actor)
        (field "dependsOn" (arr (text_items p.depends_on)) end)))
payload_value (change_task_state p) =
    obj (field "taskId" (str p.task_id) (field "to" (str (state_name p.to)) end))
payload_value (publish_artifact p) = obj (
    field "kind" (str (artifact_kind_name p.kind))
      (field "mediaType" (str p.media_type) (field "byteSize" (num (pos p.byte_size)) end)))
payload_value (complete_run p) =
    obj
      (field "status" (str (status_name p.status)) (field "summary" (nullable_text p.summary) end))

-- A request as the object that `submit` is given.
unfoldable pub request_value : ProtocolRequest → Value
unfolding actor_value payload_value
request_value r = obj (
    field "requestId" (str r.request_id) (
      field "runId" (str r.run_id) (
        field "actor" (actor_value r.actor) (
          field "idempotencyKey" (nullable_text r.idempotency_key) (
            field "clientTimestamp" (str r.client_timestamp) (
              field "schemaVersion" (str r.schema_version) (
                field "intent" (str (intent_name (intent_of r.body)))
                  (field "payload" (payload_value r.body) end))))))))

abbrev bool_text : Bool → String
bool_text true = "true"
bool_text false = "false"

-- `JSON.stringify`. Separators stand before every item but the first.
unfoldable mutual
  unfolding json_text signed_decimal

  pub stringify : Value → String
  stringify (obj fs) = "{" <> stringify_fields "" fs <> "}"
  stringify (arr vs) = "[" <> stringify_items "" vs <> "]"
  stringify (str s) = json_text s
  stringify (num z) = signed_decimal z
  stringify (bool b) = bool_text b
  stringify null = "null"
  stringify other = "null"

  pub stringify_fields : String → Fields → String
  stringify_fields sep end = ""
  stringify_fields sep (field k other fs) = stringify_fields sep fs
  stringify_fields sep (field k v fs) =
      sep <> json_text k <> ":" <> stringify v <> stringify_fields "," fs

  pub stringify_items : String → Items → String
  stringify_items sep nil = ""
  stringify_items sep (cons v vs) = sep <> stringify v <> stringify_items "," vs
