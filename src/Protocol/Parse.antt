-- ===== src/Protocol/Parse.antt =====
-- `ProtocolRequestSchema.safeParse` and `ActorRefSchema.safeParse` on a raw value
-- (protocol-request.ts, run-event.ts, actor-ref.ts). An object schema drops the keys that it does not
-- name, and a discriminated union looks at its discriminator alone.
use pluto_agent_platform.Common.{
  ℕ, String, Bool, Option, none, some, List, [], ◌∷◌, ◌==◌, if◌then◌else◌,
}
use pluto_agent_platform.Common.Int.{ℤ, nonnegative}
use pluto_agent_platform.Protocol.Actor.{ActorRef, manager, role, system, is_actor_role}
use pluto_agent_platform.Protocol.Event.{
  MailboxMessageKind, TaskState, RunCompletedStatus, ArtifactPublishedKind, Recipient, broadcast,
}
use pluto_agent_platform.Protocol.Request.{
  RequestBody, append_mailbox_message, create_task, change_task_state, publish_artifact,
  complete_run, ProtocolRequest,
}
use pluto_agent_platform.Protocol.Schema.{Zod, supported_version}

-- A value of the dynamic language. `other` is what no schema here accepts: undefined, a number that
-- is no integer, a function.
mutual
  pub data Value : Type 0 where
    obj : Fields → Value
    arr : Items → Value
    str : String → Value
    num : ℤ → Value
    bool : Bool → Value
    null other : Value

  pub data Fields : Type 0 where
    end : Fields
    field : String → Value → Fields → Fields

  pub data Items : Type 0 where
    nil : Items
    cons : Value → Items → Items

infixl 5 ◌>>=◌
abbrev pub ◌>>=◌ {ℓ κ} : {A : Type ℓ} {B : Type κ} → Option A → (A → Option B) → Option B
none >>= k = none
some a >>= k = k a

-- A property, `none` where the object has it not.
unfoldable pub get : String → Fields → Option Value
get k end = none
get k (field j v fs) = if j == k then some v else get k fs

-- A property of a value that an object schema reads: arrays and null are no objects for zod.
unfoldable pub prop : String → Value → Option Value
unfolding get
prop k (obj fs) = get k fs
prop k _ = none

unfoldable pub string : Option Value → Option String
string (some (str s)) = some s
string _ = none

unfoldable pub nullable_string : Option Value → Option (Option String)
nullable_string (some null) = some none
nullable_string (some (str s)) = some (some s)
nullable_string _ = none

abbrev pub satisfying : (String → Bool) → Option String → Option String
satisfying p none = none
satisfying p (some s) = if p s then some s else none

-- `z.number().int().nonnegative()`.
unfoldable pub natural : Option Value → Option ℕ
natural (some (num n)) = nonnegative n
natural _ = none

unfoldable pub strings : Items → Option (List String)
strings nil = some []
strings (cons (str s) vs) = strings vs >>= λ ss. some (s ∷ ss)
strings (cons _ vs) = none

unfoldable pub string_array : Option Value → Option (List String)
unfolding strings
string_array (some (arr vs)) = strings vs
string_array _ = none

-- `z.enum`.
abbrev pub keyword {ℓ} : {A : Type ℓ} → List (String × A) → String → Option A
keyword [] s = none
keyword ((k, a) ∷ ks) s = if k == s then some a else keyword ks s

abbrev pub enum {ℓ} : {A : Type ℓ} → List (String × A) → Option Value → Option A
enum ks v = string v >>= keyword ks

abbrev pub message_kinds : List (String × MailboxMessageKind)
message_kinds =
    ("plan", MailboxMessageKind.plan)
    ∷ ("task", MailboxMessageKind.task)
    ∷ ("completion", MailboxMessageKind.completion)
    ∷ ("plan_approval_request", MailboxMessageKind.plan_approval_request)
    ∷ ("plan_approval_response", MailboxMessageKind.plan_approval_response)
    ∷ ("final", MailboxMessageKind.final)
    ∷ []

abbrev pub task_states : List (String × TaskState)
task_states =
    ("queued", TaskState.queued)
    ∷ ("running", TaskState.running)
    ∷ ("blocked", TaskState.blocked)
    ∷ ("completed", TaskState.completed)
    ∷ ("failed", TaskState.failed)
    ∷ ("cancelled", TaskState.cancelled)
    ∷ []

abbrev pub run_statuses : List (String × RunCompletedStatus)
run_statuses =
    ("succeeded", RunCompletedStatus.succeeded)
    ∷ ("failed", RunCompletedStatus.failed)
    ∷ ("cancelled", RunCompletedStatus.cancelled)
    ∷ []

abbrev pub artifact_kinds : List (String × ArtifactPublishedKind)
artifact_kinds =
    ("final", ArtifactPublishedKind.final)
    ∷ ("intermediate", ArtifactPublishedKind.intermediate)
    ∷ []

abbrev pub actor_of_kind : String → Option Value → Option ActorRef
actor_of_kind kind r =
    if kind == "manager"
    then some manager
    else if kind == "role"
    then (satisfying is_actor_role (string r) >>= λ s. some (role s))
    else if kind == "system"
    then some system
    else none

-- `ActorRefSchema.safeParse`.
unfoldable pub parse_actor : Value → Option ActorRef
unfolding prop string is_actor_role
parse_actor v = string (prop "kind" v) >>= λ kind. actor_of_kind kind (prop "role" v)

unfoldable pub parse_recipient : Value → Option Recipient
unfolding parse_actor
parse_recipient v = elim (parse_actor v) [
  | some a ↦ some (Recipient.actor a)
  | none ↦ string (prop "kind" v) >>= λ kind. if kind == "broadcast" then some broadcast else none
]

unfoldable pub parse_owner : Value → Option (Option ActorRef)
unfolding parse_actor
parse_owner null = some none
parse_owner v = parse_actor v >>= λ a. some (some a)

unfoldable pub parse_mailbox : Value → Option RequestBody
unfolding prop string parse_actor parse_recipient
parse_mailbox v = do
  from ← prop "fromActor" v >>= parse_actor
  to ← prop "toActor" v >>= parse_recipient
  kind ← enum message_kinds (prop "kind" v)
  body ← string (prop "body" v)
  some (
      append_mailbox_message
        (record { from_actor = from; to_actor = to; kind = kind; body = body }))

unfoldable pub parse_create_task : Value → Option RequestBody
unfolding prop string parse_owner string_array
parse_create_task v = do
  title ← string (prop "title" v)
  owner ← prop "ownerActor" v >>= parse_owner
  depends ← string_array (prop "dependsOn" v)
  some (create_task (record { title = title; owner_actor = owner; depends_on = depends }))

unfoldable pub parse_change : Value → Option RequestBody
unfolding prop string
parse_change v = do
  id ← string (prop "taskId" v)
  to ← enum task_states (prop "to" v)
  some (change_task_state (record { task_id = id; to = to }))

unfoldable pub parse_artifact : Value → Option RequestBody
unfolding prop string natural
parse_artifact v = do
  kind ← enum artifact_kinds (prop "kind" v)
  media ← string (prop "mediaType" v)
  size ← natural (prop "byteSize" v)
  some (publish_artifact (record { kind = kind; media_type = media; byte_size = size }))

unfoldable pub parse_complete : Value → Option RequestBody
unfolding prop string nullable_string
parse_complete v = do
  status ← enum run_statuses (prop "status" v)
  summary ← nullable_string (prop "summary" v)
  some (complete_run (record { status = status; summary = summary }))

-- The payload schema that the discriminator chooses; an unknown intent has none.
abbrev pub payload_parsers : List (String × (Value → Option RequestBody))
payload_parsers =
    ("append_mailbox_message", parse_mailbox)
    ∷ ("create_task", parse_create_task)
    ∷ ("change_task_state", parse_change)
    ∷ ("publish_artifact", parse_artifact)
    ∷ ("complete_run", parse_complete)
    ∷ []

abbrev pub payload_parser : String → Option (Value → Option RequestBody)
payload_parser = keyword payload_parsers

-- `ProtocolRequestSchema.safeParse`, without the issues of a failure.
unfoldable pub parse_request : Zod → Value → Option ProtocolRequest
unfolding prop string nullable_string parse_actor
parse_request z v = do
  payload ← string (prop "intent" v) >>= payload_parser
  request_id ← satisfying z.is_uuid (string (prop "requestId" v))
  run_id ← string (prop "runId" v)
  actor ← prop "actor" v >>= parse_actor
  key ← nullable_string (prop "idempotencyKey" v)
  stamp ← satisfying z.is_datetime (string (prop "clientTimestamp" v))
  version ← satisfying supported_version (string (prop "schemaVersion" v))
  body ← prop "payload" v >>= payload
  some (record {
    request_id = request_id;
    run_id = run_id;
    actor = actor;
    idempotency_key = key;
    client_timestamp = stamp;
    schema_version = version;
    body = body;
  })
