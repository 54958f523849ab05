-- ===== src/Tools/Api.antt =====
-- api/pluto-local-api.ts: the call of the tool under the lease, and the listener. The server's plumbing
-- is left out: a wait that is armed is handed to the wait registry.
use pluto_agent_platform.Common.{
  ℕ, String, Bool, true, false, not, ◌||◌, Option, none, some, if◌then◌else◌, is_some, or_else,
}
use pluto_agent_platform.Common.Text.{◌<>◌, behind}
use pluto_agent_platform.Protocol.Actor.{ActorRef, is_lead_actor}
use pluto_agent_platform.Protocol.Parse.{Value, Fields, obj, str, end, field, null, prop}
use pluto_agent_platform.Runtime.Lease.{TurnLease, matches, consume_mutation}
use pluto_agent_platform.Tools.Values.{actor_value}
use pluto_agent_platform.Tools.Names.{PlutoToolName, complete_run}
use pluto_agent_platform.Tools.World.{
  World, PlutoToolSession, PlutoToolResult, ok_json, ok_text, error, ToolErrorCode, bad_args,
  lead_only, internal, Handler,
}
use pluto_agent_platform.Tools.Composite.{
  final_reconciliation, Reply, replied, threw, is_accepted, spread, fields_of,
}
use pluto_agent_platform.Tools.Run.{run_composite_tool}
use pluto_agent_platform.Tools.Request.{
  Codec, HttpRequest, LocalApiToolName, tool, composite, wait_for_event, ResponseKind,
  LocalApiRoute, Routed, route, no_route, malformed_uri, route_for, read_route_body, ParsedActor,
  parse_actor_header, parse_wait_timeout_sec, Timeout, label, seconds, invalid,
}
use pluto_agent_platform.Tools.Guards.{
  ApiState, PlutoLocalApiConfig, Response, WaitService, arms_wait, claimed_actor, guards,
  is_mutating, json_response, message_response, text_response, unanswered,
}

-- `statusCodeForToolError`.
abbrev status_for : ToolErrorCode → ℕ
status_for bad_args = 400
status_for lead_only = 403
status_for internal = 500

abbrev code_name : ToolErrorCode → String
code_name bad_args = "PLUTO_TOOL_BAD_ARGS"
code_name lead_only = "PLUTO_TOOL_LEAD_ONLY"
code_name internal = "PLUTO_TOOL_INTERNAL"

-- `turnDispositionFor`.
abbrev is_terminal_tool : LocalApiToolName → Bool
is_terminal_tool (tool complete_run) = true
is_terminal_tool (composite final_reconciliation) = true
is_terminal_tool _ = false

abbrev disposition : LocalApiToolName → Fields
disposition name =
    if is_terminal_tool name
    then field "turnDisposition" (str "terminal") end
    else field "turnDisposition" (str "waiting") (field "nextWakeup" (str "event") end)

abbrev pub internal_error : String → Response
internal_error message = message_response 500 "PLUTO_LOCAL_API_INTERNAL" message

-- The body of a mutating tool: an accepted answer gets the disposition of the turn.
abbrev mutation_body : LocalApiToolName → Value → Response
mutation_body name v =
    json_response 200 (if is_accepted v then obj (spread (fields_of v) (disposition name)) else v)

abbrev artifact_body : Option Value → Response
artifact_body (some (str s)) = text_response 200 s
artifact_body _ = internal_error "Artifact response is missing its sidecar body."

abbrev read_body : ResponseKind → Value → Response
read_body ResponseKind.json v = json_response 200 v
read_body ResponseKind.artifact v = artifact_body (prop "body" v)
read_body ResponseKind.transcript v = json_response 200 v

-- The answer of a tool as a response. A plain text is that of a transcript.
abbrev tool_response : LocalApiRoute → PlutoToolResult → Response
tool_response r (error code message) = message_response (status_for code) (code_name code) message
tool_response r (ok_text text) = text_response 200 text
tool_response r (ok_json v) =
    if is_mutating r.tool_name then mutation_body r.tool_name v else read_body r.response_kind v

abbrev reply_response : LocalApiRoute → Reply → Response
reply_response r (replied result) = tool_response r result
reply_response r (threw message) = internal_error message

abbrev lease_value : Option ActorRef → Value
lease_value none = null
lease_value (some actor) = actor_value actor

abbrev lease_error : String → String → ActorRef → TurnLease → Response
lease_error code message actor lease = json_response 409 (
    obj (
      field "error"
        (obj (
          field "code" (str code) (
            field "message" (str message) (
              field "actor" (actor_value actor)
                (field "lease" (lease_value lease.current_actor) end)))))
        end))

abbrev arms : ActorRef → Timeout → Response
arms actor (seconds n) = arms_wait actor n
arms actor (invalid message) = internal_error message

abbrev waits : Option WaitService → ActorRef → Value → Response
waits none actor args =
    message_response 503 "PLUTO_WAIT_UNAVAILABLE"
      "wait-for-event is not configured for this runtime."
waits (some service) actor args = arms actor (
    parse_wait_timeout_sec (or_else service.default_timeout_sec 300)
      (or_else service.max_timeout_sec 1200) args)

module _ (config : PlutoLocalApiConfig) (summary : Value → String)
    (hs : PlutoToolName → Handler) where
  abbrev pub call_tool : LocalApiRoute → PlutoToolSession → World → Response × World
  call_tool r s w = elim r.tool_name [
    | tool name ↦ let (result, w') = hs name s r.args w in (tool_response r result, w')
    | composite name ↦
        let (reply, w') = run_composite_tool summary hs name s r.args w in
        (reply_response r reply, w')
    | wait_for_event ↦ (waits config.wait_service s.current_actor r.args, w)
  ]

  abbrev pub with_lease : TurnLease → Response × World → Response × ApiState
  with_lease lease (response, w) = (response, record { world = w; lease = lease })

  -- A mutating tool runs where its actor has the turn and takes the turn's mutation.
  abbrev pub consuming :
      LocalApiRoute → PlutoToolSession → World → Bool × TurnLease → Response × ApiState
  consuming r s w (true, lease) = with_lease lease (call_tool r s w)
  consuming r s w (false, lease) = (
    lease_error "PLUTO_TURN_CONSUMED" "First mutating tool call already consumed this turn."
        s.current_actor lease,
    record { world = w; lease = lease },
  )

  unfoldable pub run_route : LocalApiRoute → PlutoToolSession → ApiState → Response × ApiState
  unfolding is_mutating parse_wait_timeout_sec run_composite_tool matches consume_mutation
      actor_value is_accepted spread prop
  run_route r s state =
      if not (is_mutating r.tool_name)
      then with_lease state.lease (call_tool r s state.world)
      else if not (matches state.lease s.current_actor)
      then (
        lease_error "PLUTO_LEASE_MISMATCH"
            ("Lease mismatch for "
              <> label r.tool_name
              <> ". Current mutating turn belongs to another actor.")
            s.current_actor state.lease,
        state,
      )
      else consuming r s state.world (consume_mutation state.lease)

  abbrev pub session_for : Option ActorRef → PlutoToolSession
  session_for none = record {
    current_actor = ActorRef.system;
    is_lead = false;
    run_dir = config.run_dir;
  }
  session_for (some actor) = record {
    current_actor = actor;
    is_lead = is_lead_actor actor;
    run_dir = config.run_dir;
  }

  abbrev pub guarded :
      LocalApiRoute → ParsedActor → ApiState → Option Response → Response × ApiState
  guarded r parsed state (some response) = (response, state)
  guarded r parsed state none = run_route r (session_for (claimed_actor parsed)) state

  abbrev pub routed : Codec → HttpRequest → ApiState → Routed → Response × ApiState
  routed c request state malformed_uri = (unanswered, state)
  routed c request state no_route = (text_response 404 "not found", state)
  routed c request state (route r) =
      let parsed = parse_actor_header c request.actor_header in
      guarded r parsed state (guards config request r.tool_name parsed)

  abbrev pub read_request : Codec → HttpRequest → ApiState → Option Value → Response × ApiState
  read_request c request state none = (message_response 400 "PLUTO_BAD_JSON" "invalid json", state)
  read_request c request state (some body) =
      routed c request state (route_for c request.method request.pathname body)

  abbrev pub is_versioned : String → Bool
  is_versioned path = is_some (behind "/v1/" path) || is_some (behind "/v2/" path)

  -- The listener of the server.
  unfoldable pub handle : Codec → HttpRequest → ApiState → Response × ApiState
  unfolding run_route guards parse_actor_header route_for read_route_body
  handle c request state =
      if not (is_versioned request.pathname)
      then (text_response 404 "not found", state)
      else read_request c request state (read_route_body c request)
