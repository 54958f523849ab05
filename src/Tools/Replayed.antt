-- ===== src/Tools/Replayed.antt =====
-- The log behind the server of api/pluto-local-api.ts is still the record of the run.
use pluto_agent_platform.Common.{
  ◌≡◌, none, some, true, false, List, [], ◌∷◌, refl, Bool, if◌then◌else◌, Option, Bool-cases, inr,
  inl, String, not, ℕ, ◌≢◌,
}
use pluto_agent_platform.Tools.Request.{
  tool, composite, wait_for_event, route, no_route, malformed_uri, Codec, LocalApiRoute,
  HttpRequest, ParsedActor, LocalApiToolName, Routed, parse_actor_header, route_for,
  read_route_body,
}
use pluto_agent_platform.Tools.World.{Deps, PlutoToolSession, World}
use pluto_agent_platform.Tools.Api.{
  run_route, handle, call_tool, consuming, guarded, routed, read_request, is_versioned, session_for,
}
use pluto_agent_platform.Tools.Guards.{
  PlutoLocalApiConfig, Response, ApiState, is_mutating, claimed_actor, guards,
}
use pluto_agent_platform.Kernel.Host.{Kernel}
use pluto_agent_platform.Kernel.Move.{Move, quiet, submit-Move}
use pluto_agent_platform.Tools.Turn.{serve, serve_all}
use pluto_agent_platform.Runtime.Lease.{TurnLease, matches, consume_mutation}
use pluto_agent_platform.Tools.Handlers.{
  handlers, build_request, submit_body, submit_built, caught, no_submit_context,
}
use pluto_agent_platform.Tools.Keeps.{handlers-keeps, Permitted}
use pluto_agent_platform.Tools.Served.{run_composite_tool-keeps}
use pluto_agent_platform.Protocol.Parse.{Value}
use pluto_agent_platform.Kernel.Log.{Result, returned, thrown}
use pluto_agent_platform.Common.{inl, inr}
use pluto_agent_platform.Tools.Guards.{text_response}
use pluto_agent_platform.Authority.State.{RunState, RunStateTask}
use pluto_agent_platform.Kernel.Replay.{IsReplay, Move-IsReplay}
use pluto_agent_platform.Kernel.Tasks.{terminal, Move-Rests}
use pluto_agent_platform.Common.Dict.{lookup}
use pluto_agent_platform.Protocol.Request.{ProtocolRequest, RequestBody, intent_of}
use pluto_agent_platform.Protocol.Actor.{ActorRef}
use pluto_agent_platform.Protocol.Event.{RunEvent}
use pluto_agent_platform.Kernel.Submit.{submit}
use pluto_agent_platform.Tools.Values.{request_value}

module _ (d : Deps) (P : Kernel → Type 0)
    (keep : (k k' : Kernel) → Move d.host k k' → P k → P k') where
  build_request-quiet :
      (actor : ActorRef) (body : RequestBody) (k : Kernel)
      → Move d.host k (build_request d actor body k).1
  unfolding build_request
  build_request-quiet actor body k = quiet refl refl

  submit_built-keeps : (x : Option ProtocolRequest × Kernel) → P x.1 → P (submit_built d x).1
  submit_built-keeps (none, k) p = p
  submit_built-keeps (some request, k) p =
      caught-keeps (submit d.host (request_value request) (no_submit_context d) k)
        (keep k _ (submit-Move d.host (no_submit_context d) k (request_value request)) p)
    where
      caught-keeps : (x : Result RunEvent × Kernel) → P x.1 → P (caught d x).1
      caught-keeps (returned e, k) p = p
      caught-keeps (thrown f, k) p = p

  submit_body-keeps :
      (actor : ActorRef) (body : RequestBody) (w : World)
      → Permitted Unit (intent_of body)
      → P w.kernel
      → P (submit_body d actor body w).1.kernel
  unfolding submit_body
  submit_body-keeps actor body w may p =
      submit_built-keeps (build_request d actor body w.kernel)
        (keep w.kernel _ (build_request-quiet actor body w.kernel) p)

module _ (d : Deps) (config : PlutoLocalApiConfig) (c : Codec) (P : Kernel → Type 0)
    (keep : (k k' : Kernel) → Move d.host k k' → P k → P k') where
  call_tool-keeps :
      (r : LocalApiRoute) (s : PlutoToolSession) (w : World)
      → P w.kernel
      → P (call_tool config d.schema_summary (handlers d) r s w).1.kernel
  call_tool-keeps r s w p = go r.tool_name refl
    where
      go :
          (name : LocalApiToolName)
          → r.tool_name ≡ name
          → P (call_tool config d.schema_summary (handlers d) r s w).1.kernel
      go (tool name) q =
          rw q (handlers-keeps d P Unit (submit_body-keeps d P keep) name s r.args w (inr tt) p)
      go (composite name) q = rw q (
          run_composite_tool-keeps d P Unit (submit_body-keeps d P keep) name s r.args w (inr tt) p)
      go wait_for_event q = rw q p

  consuming-keeps :
      (r : LocalApiRoute) (s : PlutoToolSession) (w : World) (x : Bool × TurnLease)
      → P w.kernel
      → P (consuming config d.schema_summary (handlers d) r s w x).1.world.kernel
  consuming-keeps r s w (true, lease) p = call_tool-keeps r s w p
  consuming-keeps r s w (false, lease) p = p

  if-keeps :
      (b : Bool) (x y : Response × ApiState)
      → P x.1.world.kernel
      → P y.1.world.kernel
      → P (if b then x else y).1.world.kernel
  if-keeps true x y p q = p
  if-keeps false x y p q = q

  run_route-keeps :
      (r : LocalApiRoute) (s : PlutoToolSession) (state : ApiState)
      → P state.world.kernel
      → P (run_route config d.schema_summary (handlers d) r s state).1.world.kernel
  unfolding run_route
  run_route-keeps r s state p = elim (Bool-cases (is_mutating r.tool_name)) [
    | inr free ↦ rw free (call_tool-keeps r s state.world p)
    | inl mutating ↦ elim (Bool-cases (matches state.lease s.current_actor)) [
      | inr other ↦ rw (mutating, other) p
      | inl mine ↦
          rw (mutating, mine) (consuming-keeps r s state.world (consume_mutation state.lease) p)
    ]
  ]

  -- What every move of the kernel keeps holds behind any request.
  pub serve-keeps :
      (request : HttpRequest) (state : ApiState)
      → P state.world.kernel
      → P (serve d config c request state).world.kernel
  unfolding serve handle
  serve-keeps request state p =
      if-keeps (not (is_versioned config d.schema_summary (handlers d) request.pathname))
        (text_response 404 "not found", state)
        (read_request config d.schema_summary (handlers d) c request state
          (read_route_body c request))
        p (on_body (read_route_body c request))
    where
      on_guards :
          (r : LocalApiRoute) (parsed : ParsedActor) (o : Option Response)
          → P (guarded config d.schema_summary (handlers d) r parsed state o).1.world.kernel
      on_guards r parsed (some response) = p
      on_guards r parsed none =
          run_route-keeps r
            (session_for config d.schema_summary (handlers d) (claimed_actor parsed)) state p

      on_route :
          (x : Routed)
          → P (routed config d.schema_summary (handlers d) c request state x).1.world.kernel
      on_route malformed_uri = p
      on_route no_route = p
      on_route (route r) =
          on_guards r (parse_actor_header c request.actor_header)
            (guards config request r.tool_name (parse_actor_header c request.actor_header))

      on_body :
          (o : Option Value)
          → P (read_request config d.schema_summary (handlers d) c request state o).1.world.kernel
      on_body none = p
      on_body (some body) = on_route (route_for c request.method request.pathname body)

  pub serve_all-keeps :
      (requests : List HttpRequest) (state : ApiState)
      → P state.world.kernel
      → P (serve_all d config c requests state).world.kernel
  unfolding serve_all
  serve_all-keeps [] state p = p
  serve_all-keeps (request ∷ requests) state p =
      serve_all-keeps requests (serve d config c request state) (serve-keeps request state p)

-- Whatever requests are served, and whether they are refused, fail or end in the middle of a composite
-- tool: where the kernel's state is the replay of its log from the initial state, with gapless
-- sequence numbers and distinct event ids, it still is.
pub serve_all-IsReplay :
    (d : Deps) (config : PlutoLocalApiConfig) (c : Codec) (initial : RunState)
    (requests : List HttpRequest) (state : ApiState)
    → IsReplay initial state.world.kernel
    → IsReplay initial (serve_all d config c requests state).world.kernel
serve_all-IsReplay d config c initial requests state =
    serve_all-keeps d config c (IsReplay initial) (Move-IsReplay d.host initial) requests state

-- No requests that are served change a task that is in a terminal state, as long as the id provider
-- does not draw its id.
pub served_task_rests :
    (d : Deps) (config : PlutoLocalApiConfig) (c : Codec) (id : String) (t : RunStateTask)
    (requests : List HttpRequest) (state : ApiState)
    → terminal t.state ≡ true
    → ((n : ℕ) → d.host.next_id n ≢ id)
    → lookup id state.world.kernel.state.tasks ≡ some t
    → lookup id (serve_all d config c requests state).world.kernel.state.tasks ≡ some t
served_task_rests d config c id t requests state done other =
    serve_all-keeps d config c (λ k. lookup id k.state.tasks ≡ some t)
      (λ k k'. Move-Rests d.host id t done k k' other) requests state
