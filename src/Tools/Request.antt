-- ===== src/Tools/Request.antt =====
-- The request of api/pluto-local-api.ts: its route, the actor that it claims and the token that it
-- bears. `JSON.parse` and `decodeURIComponent`, which throw, are parameters.
use pluto_agent_platform.Common.{
  ℕ, String, Bool, false, not, ◌||◌, Option, none, some, List, [], ◌∷◌, ◌==◌, leb, nat_eq, or_else,
  if◌then◌else◌, ◌+◌,
}
use Prim.Native.Char.{code}
use pluto_agent_platform.Common.Int.{pos}
use pluto_agent_platform.Common.Text.{◌<>◌, trim_start, is_space, trim, behind}
use pluto_agent_platform.Common.Json.{decimal}
use pluto_agent_platform.Protocol.Actor.{ActorRef, is_actor_role}
use pluto_agent_platform.Protocol.Parse.{
  Value, obj, str, num, null, end, field, keyword, parse_actor, prop,
}
use pluto_agent_platform.Tools.Names.{
  PlutoToolName, create_task, change_task_state, append_mailbox_message, publish_artifact,
  complete_run, read_state, read_artifact, read_transcript,
}
use pluto_agent_platform.Tools.Composite.{
  CompositeToolName, worker_complete, evaluator_verdict, final_reconciliation,
}

pub record Codec : Type 0 where
  pub parse_json : String → Option Value
  pub decode_uri : String → Option String

-- An HTTP request: its path is that of the URL, without a slash at its end; a header that is absent is
-- `none`.
pub record HttpRequest : Type 0 where
  pub method : String
  pub pathname : String
  pub body_text : String
  pub actor_header : Option String
  pub authorization : Option String

pub data LocalApiToolName : Type 0 where
  tool : PlutoToolName → LocalApiToolName
  composite : CompositeToolName → LocalApiToolName
  wait_for_event : LocalApiToolName

pub data ResponseKind : Type 0 where
  json artifact transcript : ResponseKind

pub record LocalApiRoute : Type 0 where
  pub tool_name : LocalApiToolName
  pub args : Value
  pub response_kind : ResponseKind

-- The routes that are posted to.
abbrev pub posted_routes : List (String × LocalApiToolName)
posted_routes =
    ("POST /v1/tools/create-task", tool create_task)
    ∷ ("POST /v1/tools/change-task-state", tool change_task_state)
    ∷ ("POST /v1/tools/append-mailbox-message", tool append_mailbox_message)
    ∷ ("POST /v1/tools/publish-artifact", tool publish_artifact)
    ∷ ("POST /v1/tools/complete-run", tool complete_run)
    ∷ ("POST /v1/tools/wait-for-event", wait_for_event)
    ∷ ("POST /v2/composite/worker-complete", composite worker_complete)
    ∷ ("POST /v2/composite/evaluator-verdict", composite evaluator_verdict)
    ∷ ("POST /v2/composite/final-reconciliation", composite final_reconciliation)
    ∷ []

abbrev json_route : LocalApiToolName → Value → LocalApiRoute
json_route name args = record { tool_name = name; args = args; response_kind = ResponseKind.json }

-- A route, no route, or an error that `decodeURIComponent` throws.
pub data Routed : Type 0 where
  route : LocalApiRoute → Routed
  no_route : Routed
  malformed_uri : Routed

abbrev read_route : Option String → PlutoToolName → String → ResponseKind → Routed
read_route none name key kind = malformed_uri
read_route (some id) name key kind =
    route
      (record { tool_name = tool name; args = obj (field key (str id) end); response_kind = kind })

abbrev transcript_route : Codec → Option String → Routed
transcript_route c none = no_route
transcript_route c (some rest) =
    read_route (c.decode_uri rest) read_transcript "actorKey" ResponseKind.transcript

abbrev artifact_route : Codec → String → Option String → Routed
artifact_route c path (some rest) =
    read_route (c.decode_uri rest) read_artifact "artifactId" ResponseKind.artifact
artifact_route c path none = transcript_route c (behind "/v1/transcripts/" path)

abbrev other_route : Codec → String → String → Routed
other_route c method path =
    if (method <> " " <> path) == "GET /v1/state"
    then route (json_route (tool read_state) (obj end))
    else if method == "GET"
    then artifact_route c path (behind "/v1/artifacts/" path)
    else no_route

abbrev route_of : Codec → String → String → Value → Option LocalApiToolName → Routed
route_of c method path body (some name) = route (json_route name body)
route_of c method path body none = other_route c method path

unfoldable pub route_for : Codec → String → String → Value → Routed
route_for c method path body =
    route_of c method path body (keyword posted_routes (method <> " " <> path))

-- `readRouteBody`: `none` where the text is no JSON.
unfoldable pub read_route_body : Codec → HttpRequest → Option Value
unfolding trim
read_route_body c r =
    if not (r.method == "POST")
    then some Value.other
    else if trim r.body_text == ""
    then some (obj end)
    else c.parse_json r.body_text

abbrev role_ref : String → Option ActorRef
role_ref r = if is_actor_role r then some (ActorRef.role r) else none

unfoldable pub actor_from_shorthand : String → Option ActorRef
unfolding trim is_actor_role
actor_from_shorthand text =
    let normalized = trim text in
    if normalized == "manager"
    then some ActorRef.manager
    else if normalized == "system"
    then some ActorRef.system
    else role_ref (or_else (behind "role:" normalized) normalized)

pub data ParsedActor : Type 0 where
  claims : ActorRef → ParsedActor
  refused : String → ParsedActor

abbrev not_json : String
not_json = "pluto-run-actor header must be valid ActorRef JSON or shorthand."

abbrev invalid_ref : String
invalid_ref = "pluto-run-actor header must contain a valid ActorRef."

abbrev required : String
required = "pluto-run-actor header is required."

abbrev claimed : String → Option ActorRef → ParsedActor
claimed message none = refused message
claimed message (some actor) = claims actor

-- A JSON text is tried as a shorthand, then as an object.
abbrev actor_of_json : Value → Option ActorRef
actor_of_json (str s) = elim (actor_from_shorthand s) [
  | some actor ↦ some actor
  | none ↦ parse_actor (str s)
]
actor_of_json v = parse_actor v

abbrev json_actor : Option Value → ParsedActor
json_actor none = refused not_json
json_actor (some v) = claimed invalid_ref (actor_of_json v)

unfoldable pub parse_actor_header : Codec → Option String → ParsedActor
unfolding actor_from_shorthand trim parse_actor
parse_actor_header c none = refused required
parse_actor_header c (some header) =
    if trim header == "" then refused required else elim (actor_from_shorthand header) [
      | some actor ↦ claims actor
      | none ↦ json_actor (c.parse_json header)
    ]

-- A letter in either case.
abbrev letter : ℕ → ℕ → Bool
letter upper c = nat_eq c upper || nat_eq c (upper + 32)

abbrev line_end : ℕ → Bool
line_end c = nat_eq c 10 || nat_eq c 13 || nat_eq c 0x2028 || nat_eq c 0x2029

abbrev has_line_end : String → Bool
has_line_end String.[] = false
has_line_end (String.◌∷◌ c s) = line_end (code c) || has_line_end s

abbrev bearer_word : List ℕ → String → Option String
bearer_word [] s = some s
bearer_word (u ∷ us) String.[] = none
bearer_word (u ∷ us) (String.◌∷◌ c s) =
    let rest = bearer_word us s in if letter u (code c) then rest else none

-- `^Bearer\s+(.+)$` behind its first word, where the group is trimmed and must not be empty.
abbrev bearer_rest : Option String → Option String
bearer_rest (some (String.◌∷◌ c s)) =
    let token = trim s in
    if not (is_space (code c)) || token == "" || has_line_end (trim_start s)
    then none
    else some token
bearer_rest _ = none

abbrev bearer_letters : List ℕ
bearer_letters = b'B' ∷ b'E' ∷ b'A' ∷ b'R' ∷ b'E' ∷ b'R' ∷ []

unfoldable pub bearer_token : Option String → Option String
unfolding trim
bearer_token none = none
bearer_token (some header) = bearer_rest (bearer_word bearer_letters header)

-- A time-out, or the message of the error that is thrown.
pub data Timeout : Type 0 where
  seconds : ℕ → Timeout
  invalid : String → Timeout

abbrev bad_timeout : ℕ → Timeout
bad_timeout max = invalid ("timeoutSec must be an integer between 0 and " <> decimal max)

abbrev timeout_of : ℕ → ℕ → Option Value → Timeout
timeout_of default max none = seconds default
timeout_of default max (some null) = seconds default
timeout_of default max (some Value.other) = seconds default
timeout_of default max (some (num (pos n))) = if leb n max then seconds n else bad_timeout max
timeout_of default max (some _) = bad_timeout max

-- `parseWaitTimeoutSec` with the service's default and maximum.
unfoldable pub parse_wait_timeout_sec : ℕ → ℕ → Value → Timeout
unfolding prop decimal
parse_wait_timeout_sec default max (obj fs) = timeout_of default max (prop "timeoutSec" (obj fs))
parse_wait_timeout_sec default max null = seconds default
parse_wait_timeout_sec default max Value.other = seconds default
parse_wait_timeout_sec default max _ = invalid "wait-for-event body must be a JSON object"

abbrev tool_label : PlutoToolName → String
tool_label create_task = "pluto_create_task"
tool_label change_task_state = "pluto_change_task_state"
tool_label append_mailbox_message = "pluto_append_mailbox_message"
tool_label publish_artifact = "pluto_publish_artifact"
tool_label complete_run = "pluto_complete_run"
tool_label read_state = "pluto_read_state"
tool_label read_artifact = "pluto_read_artifact"
tool_label read_transcript = "pluto_read_transcript"

abbrev composite_label : CompositeToolName → String
composite_label worker_complete = "pluto_worker_complete"
composite_label evaluator_verdict = "pluto_evaluator_verdict"
composite_label final_reconciliation = "pluto_final_reconciliation"

-- The name of a tool as the source spells it.
abbrev pub label : LocalApiToolName → String
label (tool name) = tool_label name
label (composite name) = composite_label name
label wait_for_event = "pluto_wait_for_event"
