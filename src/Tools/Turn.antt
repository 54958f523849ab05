-- ===== src/Tools/Turn.antt =====
-- The requests that a run's API serves, one after the other: api/pluto-local-api.ts over the turn lease.
use pluto_agent_platform.Tools.Guards.{text_response}
use pluto_agent_platform.Common.{
  true, false, not, if◌then◌else◌, none, some, ◌≡◌, List, [], ◌∷◌, inl, inr, refl, Option, some,
  ◌++◌, true, ◌⊎◌, ap, Bool,
}
use pluto_agent_platform.Tools.Authorized.{Authorized, route-Authorized, Bears, TakesTurn}
use pluto_agent_platform.Tools.World.{Deps}
use pluto_agent_platform.Tools.Api.{handle, routed, guarded, read_request, is_versioned}
use pluto_agent_platform.Tools.Guards.{PlutoLocalApiConfig, ApiState, Response, guards}
use pluto_agent_platform.Tools.Request.{
  Codec, HttpRequest, Routed, route, ParsedActor, parse_actor_header, route_for, read_route_body,
}
use pluto_agent_platform.Tools.Handlers.{handlers}
use pluto_agent_platform.Protocol.Parse.{Value}
use pluto_agent_platform.Tools.Request.{malformed_uri, no_route, route}
use pluto_agent_platform.Protocol.Actor.{ActorRef}

module _ (d : Deps) (config : PlutoLocalApiConfig) (c : Codec) where
  unfoldable pub serve : HttpRequest → ApiState → ApiState
  unfolding handle
  serve request state = (handle config d.schema_summary (handlers d) c request state).1

  -- A request changes what the server keeps only where it is authorized.
  pub serve-Authorized :
      (request : HttpRequest) (state : ApiState)
      → Authorized d config c request state (serve request state)
  unfolding serve handle
  serve-Authorized request state =
      on_version (is_versioned config d.schema_summary (handlers d) request.pathname)
    where
      on_route :
          (x : Routed)
          → Authorized d config c request state
              (routed config d.schema_summary (handlers d) c request state x).1
      on_route malformed_uri = inl refl
      on_route no_route = inl refl
      on_route (route r) =
          on_guards (parse_actor_header c request.actor_header) refl
            (guards config request r.tool_name (parse_actor_header c request.actor_header)) refl
        where
          on_guards :
              (parsed : ParsedActor)
              → parse_actor_header c request.actor_header ≡ parsed
              → (o : Option Response) → guards config request r.tool_name parsed ≡ o
              → Authorized d config c request state
                  (guarded config d.schema_summary (handlers d) r parsed state o).1
          on_guards parsed q (some response) g = inl refl
          on_guards parsed q none g = route-Authorized d config c request state r parsed q g

      on_body :
          (o : Option Value)
          → Authorized d config c request state
              (read_request config d.schema_summary (handlers d) c request state o).1
      on_body none = inl refl
      on_body (some body) = on_route (route_for c request.method request.pathname body)

      on_version :
          (versioned : Bool)
          → Authorized d config c request state
              (if not versioned
                then (text_response 404 "not found", state)
                else read_request config d.schema_summary
                    (handlers d)
                    c
                    request
                    state
                    (read_route_body c request)).1
      on_version false = inl refl
      on_version true = on_body (read_route_body c request)

  unfoldable pub serve_all : List HttpRequest → ApiState → ApiState
  unfolding serve
  serve_all [] state = state
  serve_all (request ∷ requests) state = serve_all requests (serve request state)

  -- The one request of a turn that changed something, between those that did not.
  pub record OneMutation (requests : List HttpRequest) (state : ApiState) : Type 0 where
    pub before : List HttpRequest
    pub request : HttpRequest
    pub after : List HttpRequest
    pub split : requests ≡ before ++ request ∷ after
    pub quiet_before : serve_all before state ≡ state
    pub quiet_after : serve_all requests state ≡ serve request state
    pub actor : ActorRef
    pub bears : Bears config c request actor
    pub takes : TakesTurn actor state.lease (serve request state).lease

  spent_serve :
      (request : HttpRequest) (state : ApiState)
      → state.lease.mutation_consumed ≡ true
      → serve request state ≡ state
  spent_serve request state h = elim (serve-Authorized request state) [
    | inl same ↦ same
    | inr (actor, _, takes) ↦ absurd (cc (takes.unspent, h))
  ]

  spent_serve_all :
      (requests : List HttpRequest) (state : ApiState)
      → state.lease.mutation_consumed ≡ true
      → serve_all requests state ≡ state
  unfolding serve_all
  spent_serve_all [] state h = refl
  spent_serve_all (request ∷ requests) state h =
      rw (spent_serve request state h) (spent_serve_all requests state h)

  -- Whatever requests are served in a turn, they change nothing, or exactly one of them changes the
  -- world and the lease: it bears the token of its actor, the actor is registered and has the turn,
  -- and the turn's mutation was unspent.
  pub serve_all-once :
      (requests : List HttpRequest) (state : ApiState)
      → (serve_all requests state ≡ state) ⊎ OneMutation requests state
  unfolding serve_all
  serve_all-once [] state = inl refl
  serve_all-once (request ∷ requests) state = elim (serve-Authorized request state) [
    | inr (actor, bears, takes) ↦ inr (record {
      before = [];
      request = request;
      after = requests;
      split = refl;
      quiet_before = refl;
      quiet_after = spent_serve_all requests (serve request state) (rw takes.spent refl);
      actor = actor;
      bears = bears;
      takes = takes;
    })
    | inl same ↦ rw same (later same (serve_all-once requests state))
  ]
    where
      later :
          serve request state ≡ state
          → (serve_all requests state ≡ state) ⊎ OneMutation requests state
          → (serve_all requests state ≡ state) ⊎ OneMutation (request ∷ requests) state
      later same (inl quiet) = inl quiet
      later same (inr one) = inr (record {
        before = request ∷ one.before;
        request = one.request;
        after = one.after;
        split = ap (λ rest. request ∷ rest) one.split;
        quiet_before = rw same one.quiet_before;
        quiet_after = rw same one.quiet_after;
        actor = one.actor;
        bears = one.bears;
        takes = one.takes;
      })
