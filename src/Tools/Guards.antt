-- ===== src/Tools/Guards.antt =====
-- api/pluto-local-api.ts: the guards that a request passes before its tool runs, in the order of the
-- source.
use pluto_agent_platform.Common.{
  ℕ, String, Bool, true, false, not, ◌&&◌, ◌||◌, Option, none, some, List, [], ◌∷◌, ◌==◌, map,
  if◌then◌else◌,
}
use pluto_agent_platform.Common.Text.{◌<>◌}
use pluto_agent_platform.Common.Dict.{has, lookup}
use pluto_agent_platform.Protocol.Actor.{ActorRef, actor_key, is_lead_actor}
use pluto_agent_platform.Protocol.Parse.{Value, obj, str, end, field}
use pluto_agent_platform.Runtime.Lease.{TurnLease}
use pluto_agent_platform.Tools.Names.{
  create_task, change_task_state, append_mailbox_message, publish_artifact, complete_run,
  read_state,
}
use pluto_agent_platform.Tools.World.{World}
use pluto_agent_platform.Tools.Request.{
  HttpRequest, LocalApiToolName, tool, composite, wait_for_event, ParsedActor, claims, refused,
  bearer_token,
}

pub record WaitService : Type 0 where
  pub default_timeout_sec : Option ℕ
  pub max_timeout_sec : Option ℕ

pub record PlutoLocalApiConfig : Type 0 where
  pub run_dir : Option String
  pub token_by_actor : List (String × String)
  pub registered_actor_keys : Option (List String)
  pub wait_service : Option WaitService

-- The stores that requests share: what the handlers work on, and the turn lease.
pub record ApiState : Type 0 where
  pub world : World
  pub lease : TurnLease

-- A response, the arming of a wait with its time-out in seconds, or no response, where a handler of the
-- server throws.
pub data Response : Type 0 where
  json_response : ℕ → Value → Response
  text_response : ℕ → String → Response
  arms_wait : ActorRef → ℕ → Response
  unanswered : Response

-- `MUTATING_TOOLS.has(name) || COMPOSITE_MUTATING_TOOLS.has(name)`.
unfoldable pub is_mutating : LocalApiToolName → Bool
is_mutating (tool create_task) = true
is_mutating (tool change_task_state) = true
is_mutating (tool append_mailbox_message) = true
is_mutating (tool publish_artifact) = true
is_mutating (tool complete_run) = true
is_mutating (tool _) = false
is_mutating (composite _) = true
is_mutating wait_for_event = false

abbrev reads_state : LocalApiToolName → Bool
reads_state (tool read_state) = true
reads_state wait_for_event = true
reads_state _ = false

unfoldable pub route_requires_actor : LocalApiToolName → Bool
unfolding is_mutating
route_requires_actor name = reads_state name || is_mutating name

abbrev pub error_body : String → Value → Value
error_body code rest =
    obj (field "error" (obj (field "code" (str code) (field "detail" rest end))) end)

abbrev pub error_response : ℕ → String → String → Response
error_response status code detail = json_response status (error_body code (str detail))

abbrev pub message_response : ℕ → String → String → Response
message_response status code message =
    json_response status
      (obj (field "error" (obj (field "code" (str code) (field "message" (str message) end))) end))

abbrev pub unauthorized : Response
unauthorized = json_response 401 (obj (field "error" (str "unauthorized") end))

abbrev pub unknown_actor : String → Response
unknown_actor key =
    error_response 403 "unknown_actor" ("actor " <> key <> " not registered for this run")

-- `actorKeyForToken`: the first actor that has the token.
unfoldable pub actor_key_for_token : List (String × String) → String → Option String
actor_key_for_token [] token = none
actor_key_for_token (entry ∷ entries) token =
    let later = actor_key_for_token entries token in
    if entry.1 == token then some entry.0 else later

abbrev pub registered_keys : PlutoLocalApiConfig → List String
registered_keys config = elim config.registered_actor_keys [
  | some keys ↦ keys
  | none ↦ map (λ entry. entry.0) config.token_by_actor
]

abbrev pub is_complete_run : LocalApiToolName → Bool
is_complete_run (tool complete_run) = true
is_complete_run _ = false

-- A claimed actor must have the token that the request bears.
abbrev pub token_guard : Option String → String → String → String → Option Response
token_guard none token bound key = some (unknown_actor key)
token_guard (some expected) token bound key =
    if not (token == expected)
    then some (
        error_response 403 "actor_mismatch"
          ("token bound to " <> bound <> ", request claimed " <> key))
    else none

abbrev pub bound_guard :
    PlutoLocalApiConfig → Option ActorRef → String → Option String → Option Response
bound_guard config actor token none = some unauthorized
bound_guard config none token (some bound) = none
bound_guard config (some actor) token (some bound) =
    token_guard (lookup (actor_key actor) config.token_by_actor) token bound (actor_key actor)

abbrev pub bearer_guard : PlutoLocalApiConfig → Option ActorRef → Option String → Option Response
bearer_guard config actor none = some unauthorized
bearer_guard config actor (some token) =
    bound_guard config actor token (actor_key_for_token config.token_by_actor token)

abbrev pub first_of : Option Response → Option Response → Option Response
first_of none next = next
first_of (some r) next = some r

abbrev lead_message : String
lead_message =
    "The lead actor must terminate the run with `final-reconciliation` (the composite verb that wraps complete-run with the audit gate). Direct `complete-run` is rejected for the lead so that the run's evidence/final-reconciliation.json is always written."

abbrev pub lead_guard : LocalApiToolName → Option ActorRef → Option Response
lead_guard name none = none
lead_guard name (some actor) =
    if is_complete_run name && is_lead_actor actor
    then some (error_response 403 "lead_must_use_final_reconciliation" lead_message)
    else none

abbrev pub header_guard : LocalApiToolName → Option String → ParsedActor → Option Response
header_guard name header (claims actor) = none
header_guard name header (refused message) =
    if not (route_requires_actor name) then none else elim header [
      | none ↦ some (error_response 400 "missing_actor_header" message)
      | some text ↦ some (error_response 400 "invalid_actor_header" message)
    ]

abbrev pub registered_guard : PlutoLocalApiConfig → Option ActorRef → Option Response
registered_guard config none = none
registered_guard config (some actor) =
    if not (has (registered_keys config) (actor_key actor))
    then some (unknown_actor (actor_key actor))
    else none

abbrev pub claimed_actor : ParsedActor → Option ActorRef
claimed_actor (claims actor) = some actor
claimed_actor (refused message) = none

-- The guards before the tool runs: the response of the first that refuses.
unfoldable pub guards :
    PlutoLocalApiConfig → HttpRequest → LocalApiToolName → ParsedActor → Option Response
unfolding route_requires_actor actor_key is_lead_actor lookup actor_key_for_token bearer_token
guards config request name parsed = first_of (header_guard name request.actor_header parsed) (
    first_of (registered_guard config (claimed_actor parsed)) (
      first_of (bearer_guard config (claimed_actor parsed) (bearer_token request.authorization))
        (lead_guard name (claimed_actor parsed))))
