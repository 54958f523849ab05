-- ===== src/Runner/Script.antt =====
-- adapters/fake/fake-script.ts: a step of a script, whose payload may refer to fields of earlier events.
-- A step has passed its schema. The message of an error is left out.
use pluto_agent_platform.Common.{
  ℕ, String, Bool, true, not, ◌&&◌, ◌||◌, Option, none, some, List, [], ◌∷◌, ◌==◌, ◌+◌,
  if◌then◌else◌, leb, nat_eq, filter, get_elem?, suc, false,
}
use pluto_agent_platform.Common.Text.{◌<>◌, behind}
use pluto_agent_platform.Protocol.Parse.{
  Value, ◌>>=◌, Items, obj, prop, Fields, cons, arr, field, num, str, end,
}
use pluto_agent_platform.Protocol.Event.{
  RunEvent, EventBody, run_started, run_completed, mailbox_message_appended, task_created,
  task_state_changed, artifact_published, request_rejected, Outcome,
}
use pluto_agent_platform.Protocol.Parse.{nil, cons}
use pluto_agent_platform.Protocol.Event.{accepted, rejected, run_started}
use Prim.Native.Char.{code}
use Prim.Native.Nat.{◌*◌, ◌-◌}
use pluto_agent_platform.Protocol.Actor.{ActorRef}
use pluto_agent_platform.Authority.State.{RunState}
use pluto_agent_platform.Protocol.Request.{Intent}
use pluto_agent_platform.Tools.Values.{
  actor_value, recipient_value, text_items, status_name, nullable_text, message_kind_name,
  owner_value, artifact_kind_name,
}
use pluto_agent_platform.Common.Json.{decimal}
use pluto_agent_platform.Common.Int.{pos}
use pluto_agent_platform.Authority.Validate.{state_name}
use pluto_agent_platform.Tools.Handlers.{reason_name}

pub record FakeScriptStep : Type 0 where
  pub actor : ActorRef
  pub intent : Intent
  pub payload : Value
  pub idempotency_key : Option String

pub record KernelView : Type 0 where
  pub state : RunState
  pub events : List RunEvent

abbrev is_digit : ℕ → Bool
is_digit c = leb b'0' c && leb c b'9'

-- The digits at the start of a text as a number, and the rest.
abbrev digits : ℕ → String → ℕ × String
digits n String.[] = (n, "")
digits n (String.◌∷◌ c s) =
    let rest = digits (n * 10 + (code c - b'0')) s in
    if is_digit (code c) then rest else (n, "" <> String.◌∷◌ c s)

-- `(0|[1-9]\d*)`.
abbrev index : String → Option (ℕ × String)
index String.[] = none
index (String.◌∷◌ c s) =
    if nat_eq (code c) b'0'
    then some (0, s)
    else if is_digit (code c)
    then some (digits (code c - b'0') s)
    else none

abbrev path_letter : ℕ → Bool
path_letter c =
    is_digit c
    || (leb b'A' c && leb c b'Z')
    || (leb b'a' c && leb c b'z')
    || nat_eq c b'_'
    || nat_eq c b'.'

abbrev path_letters : String → Bool
path_letters String.[] = true
path_letters (String.◌∷◌ c s) = path_letter (code c) && path_letters s

-- `path.split('.')`, with the segment that is being read.
abbrev split_dots : String → String → List String
split_dots seen String.[] = seen ∷ []
split_dots seen (String.◌∷◌ c s) =
    let here = split_dots "" s in
    let on = split_dots (seen <> String.◌∷◌ c "") s in
    if nat_eq (code c) b'.' then seen ∷ here else on

abbrev path_of : String → Option (List String)
path_of path = if not (path == "") && path_letters path then some (split_dots "" path) else none

-- `FAKE_SCRIPT_REF_PATTERN`: the index and the path.
unfoldable pub parse_ref : String → Option (ℕ × List String)
parse_ref ref = do
  rest ← behind "events[" ref
  (n, rest') ← index rest
  path ← behind "].payload." rest' >>= path_of
  some (n, path)

abbrev starts : EventBody → Bool
starts (run_started p) = true
starts _ = false

abbrev was_accepted : Outcome → Bool
was_accepted accepted = true
was_accepted rejected = false

abbrev request_backed : RunEvent → Bool
request_backed e = was_accepted e.outcome && not (starts e.body)

-- `requestBackedAcceptedEvents`.
unfoldable pub request_backed_accepted_events : List RunEvent → List RunEvent
request_backed_accepted_events events = filter request_backed events

-- `event.payload`.
unfoldable pub event_payload : EventBody → Value
unfolding actor_value recipient_value text_items
event_payload (run_started p) = obj (
    field "scenarioRef" (str p.scenario_ref)
      (field "runProfileRef" (str p.run_profile_ref) (field "startedAt" (str p.started_at) end)))
event_payload (run_completed p) = obj (
    field "status" (str (status_name p.status))
      (field "summary" (nullable_text p.summary) (field "completedAt" (str p.completed_at) end)))
event_payload (mailbox_message_appended p) = obj (
    field "messageId" (str p.message_id) (
      field "fromActor" (actor_value p.from_actor) (
        field "toActor" (recipient_value p.to_actor)
          (field "kind" (str (message_kind_name p.kind)) (field "body" (str p.body) end)))))
event_payload (task_created p) = obj (
    field "taskId" (str p.task_id) (
      field "title" (str p.title) (
        field "ownerActor" (owner_value p.owner_actor)
          (field "dependsOn" (arr (text_items p.depends_on)) end))))
event_payload (task_state_changed p) = obj (
    field "taskId" (str p.task_id)
      (field "from" (str (state_name p.from)) (field "to" (str (state_name p.to)) end)))
event_payload (artifact_published p) = obj (
    field "artifactId" (str p.artifact_id) (
      field "kind" (str (artifact_kind_name p.kind))
        (field "mediaType" (str p.media_type) (field "byteSize" (num (pos p.byte_size)) end))))
event_payload (request_rejected p) = obj (
    field "rejectedRequestId" (str p.rejected_request_id) (
      field "rejectionReason" (str (reason_name p.rejection_reason))
        (field "detail" (str p.detail) end)))

abbrev items_count : Items → ℕ
items_count nil = 0
items_count (cons v vs) = suc (items_count vs)

abbrev item_at : ℕ → String → Items → Option Value
item_at i key nil = none
item_at i key (cons v vs) =
    let later = item_at (suc i) key vs in if decimal i == key then some v else later

-- `current[segment]`, where `segment in current`.
abbrev member : String → Value → Option Value
member key (obj fs) = prop key (obj fs)
member key (arr vs) =
    if key == "length" then some (num (pos (items_count vs))) else item_at 0 key vs
member key _ = none

unfoldable pub walk : List String → Value → Option Value
unfolding prop decimal
walk [] v = some v
walk (key ∷ keys) v = member key v >>= λ w. walk keys w

-- `resolveRefToken`, `none` where it throws.
unfoldable pub resolve_ref : List RunEvent → String → Option Value
unfolding parse_ref request_backed_accepted_events event_payload walk
resolve_ref events ref = do
  (n, path) ← parse_ref ref
  event ← get_elem? (request_backed_accepted_events events) n
  walk path (event_payload event.body)

-- `isRefToken`.
abbrev ref_token : Fields → Option String
ref_token (field k (str s) end) = if k == "$ref" then some s else none
ref_token _ = none

unfoldable mutual
  unfolding resolve_ref

  pub resolve_value : List RunEvent → Value → Option Value
  resolve_value events (obj fs) =
      let fields = resolve_fields events fs in
      elim (ref_token fs) [
        | some ref ↦ resolve_ref events ref
        | none ↦ fields >>= λ gs. some (obj gs)
      ]
  resolve_value events (arr vs) = resolve_items events vs >>= λ ws. some (arr ws)
  resolve_value events v = some v

  pub resolve_fields : List RunEvent → Fields → Option Fields
  resolve_fields events end = some end
  resolve_fields events (field k v fs) = do
    w ← resolve_value events v
    gs ← resolve_fields events fs
    some (field k w gs)

  pub resolve_items : List RunEvent → Items → Option Items
  resolve_items events nil = some nil
  resolve_items events (cons v vs) = do
    w ← resolve_value events v
    ws ← resolve_items events vs
    some (cons w ws)
