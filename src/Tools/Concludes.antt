-- ===== src/Tools/Concludes.antt =====
-- The server of api/pluto-local-api.ts and the end of a run.
use pluto_agent_platform.Tools.Request.{no_route, malformed_uri}
use pluto_agent_platform.Tools.Api.{
  handle, session_for, guarded, routed, read_request, is_versioned,
}
use pluto_agent_platform.Tools.Guards.{text_response, guards, claimed_actor, Response}
use pluto_agent_platform.Common.{
  ◌≡◌, refl, true, false, inl, inr, Bool-cases, ap, ◌⊎◌, Bool, subst, sym, some, none, Option,
  if◌then◌else◌, not,
}
use pluto_agent_platform.Tools.World.{World, Deps, PlutoToolSession}
use pluto_agent_platform.Tools.Request.{
  tool, composite, wait_for_event, LocalApiRoute, LocalApiToolName, Codec, HttpRequest,
  read_route_body, ParsedActor, route_for, route, parse_actor_header, claims, refused, Routed,
}
use pluto_agent_platform.Tools.Composite.{worker_complete, evaluator_verdict, final_reconciliation}
use pluto_agent_platform.Tools.Names.{
  create_task, change_task_state, append_mailbox_message, publish_artifact, complete_run,
  read_state, read_artifact, read_transcript,
}
use pluto_agent_platform.Tools.Api.{run_route, call_tool, consuming}
use pluto_agent_platform.Tools.Guards.{PlutoLocalApiConfig, ApiState, is_mutating}
use pluto_agent_platform.Tools.Reconciled.{status_of_run, Reconciled}
use pluto_agent_platform.Tools.Handlers.{handlers}
use pluto_agent_platform.Tools.Ends.{
  complete_run-follower, handler-status, composite-status, final_reconciliation-ends,
}
use pluto_agent_platform.Runtime.Lease.{TurnLease, matches, consume_mutation}
use pluto_agent_platform.Protocol.Parse.{Value}
use pluto_agent_platform.Tools.Turn.{serve}
use pluto_agent_platform.Protocol.Actor.{ActorRef, is_lead_actor}
use pluto_agent_platform.Tools.Authorized.{Bears, direct_completion, guards_bear}

module _ (d : Deps) (config : PlutoLocalApiConfig) where
  abbrev Conclusion : LocalApiRoute → PlutoToolSession → World → World → Type 0
  Conclusion r s w after = (status_of_run after ≡ status_of_run w) ⊎ Reconciled d r s w after

  call_tool-ends :
      (r : LocalApiRoute) (s : PlutoToolSession) (w : World)
      → (r.tool_name ≡ tool complete_run → s.is_lead ≡ false)
      → Conclusion r s w (call_tool config d.schema_summary (handlers d) r s w).1
  call_tool-ends r s w direct = go r.tool_name refl
    where
      go :
          (name : LocalApiToolName)
          → r.tool_name ≡ name
          → Conclusion r s w (call_tool config d.schema_summary (handlers d) r s w).1
      go (tool complete_run) q =
          rw q (inl (ap status_of_run (complete_run-follower d s r.args w (direct q))))
      go (tool create_task) q = rw q (inl (handler-status d create_task s r.args w λ e. cc (e)))
      go (tool change_task_state) q =
          rw q (inl (handler-status d change_task_state s r.args w λ e. cc (e)))
      go (tool append_mailbox_message) q =
          rw q (inl (handler-status d append_mailbox_message s r.args w λ e. cc (e)))
      go (tool publish_artifact) q =
          rw q (inl (handler-status d publish_artifact s r.args w λ e. cc (e)))
      go (tool read_state) q = rw q (inl (handler-status d read_state s r.args w λ e. cc (e)))
      go (tool read_artifact) q = rw q (inl (handler-status d read_artifact s r.args w λ e. cc (e)))
      go (tool read_transcript) q =
          rw q (inl (handler-status d read_transcript s r.args w λ e. cc (e)))
      go (composite worker_complete) q =
          rw q (inl (composite-status d worker_complete s r.args w λ e. cc (e)))
      go (composite evaluator_verdict) q =
          rw q (inl (composite-status d evaluator_verdict s r.args w λ e. cc (e)))
      go (composite final_reconciliation) q =
          subst (λ name. Conclusion r s w (called name)) (sym q)
            (final_reconciliation-ends d r s w q)
        where
          called : LocalApiToolName → World
          called name =
              (call_tool config d.schema_summary (handlers d) (record r { tool_name = name }) s w).1
      go wait_for_event q = rw q (inl refl)

  run_route-ends :
      (r : LocalApiRoute) (s : PlutoToolSession) (state : ApiState)
      → (r.tool_name ≡ tool complete_run → s.is_lead ≡ false)
      → Conclusion r s state.world
          (run_route config d.schema_summary (handlers d) r s state).1.world
  unfolding run_route
  run_route-ends r s state direct = elim (Bool-cases (is_mutating r.tool_name)) [
    | inr free ↦ rw free (call_tool-ends r s state.world direct)
    | inl mutating ↦ elim (Bool-cases (matches state.lease s.current_actor)) [
      | inr other ↦ rw (mutating, other) (inl refl)
      | inl mine ↦ rw (mutating, mine) (consumed (consume_mutation state.lease))
    ]
  ]
    where
      consumed :
          (x : Bool × TurnLease)
          → Conclusion r s state.world
              (consuming config d.schema_summary (handlers d) r s state.world x).1.world
      consumed (true, lease) = call_tool-ends r s state.world direct
      consumed (false, lease) = inl refl

-- A request that ended the run: the lead's, with the token of the lead, routed to
-- `final-reconciliation`.
pub record Concluded (d : Deps) (config : PlutoLocalApiConfig) (c : Codec) (request : HttpRequest)
    (before after : ApiState) : Type 0 where
  pub body : Value
  pub read_as : read_route_body c request ≡ some body
  pub r : LocalApiRoute
  pub routed_to : route_for c request.method request.pathname body ≡ route r
  pub actor : ActorRef
  pub bears : Bears config c request actor
  pub leads : is_lead_actor actor ≡ true
  pub reconciled :
      Reconciled d r
        (session_for config d.schema_summary (handlers d) (some actor))
        before.world
        after.world

module _ (d : Deps) (config : PlutoLocalApiConfig) (c : Codec) (request : HttpRequest)
    (state : ApiState) where
  abbrev EndsOrStays : ApiState → Type 0
  EndsOrStays after =
      (status_of_run after.world ≡ status_of_run state.world)
      ⊎ Concluded d config c request state after

  -- A request changes the status of the run only where it is the registered lead's call of
  -- `final-reconciliation` with the lead's token and parsed arguments; the status is then `completed` if
  -- the audit of the arguments against what the lead sees of the run has no failure, and `failed`
  -- otherwise.
  pub serve-concludes :
      (status_of_run (serve d config c request state).world ≡ status_of_run state.world)
      ⊎ Concluded d config c request state (serve d config c request state)
  unfolding serve handle
  serve-concludes = on_version (is_versioned config d.schema_summary (handlers d) request.pathname)
    where
      on_run :
          (body : Value) (r : LocalApiRoute) (parsed : ParsedActor)
          → read_route_body c request ≡ some body
          → route_for c request.method request.pathname body ≡ route r
          → parse_actor_header c request.actor_header ≡ parsed
          → guards config request r.tool_name parsed ≡ none
          → EndsOrStays
              (run_route config d.schema_summary
                (handlers d)
                r
                (session_for config d.schema_summary (handlers d) (claimed_actor parsed))
                state).1
      on_run body r (claims actor) b q a passed =
          let session = session_for config d.schema_summary (handlers d) (some actor) in
          elim (run_route-ends d config r session state
            (λ named. direct_completion config request r.tool_name actor named passed)) [
              | inl same ↦ inl same
              | inr done ↦ inr (record {
                body = body;
                read_as = b;
                r = r;
                routed_to = q;
                actor = actor;
                bears = guards_bear config c request r.tool_name actor a passed;
                leads = done.by_lead;
                reconciled = done;
              })
            ]
      on_run body r (refused m) b q a passed =
          elim (run_route-ends d config r (session_for config d.schema_summary (handlers d) none)
            state (λ named. refl)) [ inl same ↦ inl same | inr done ↦ absurd (cc (done.by_lead)) ]

      on_guards :
          (body : Value) (r : LocalApiRoute) (parsed : ParsedActor) (o : Option Response)
          → read_route_body c request ≡ some body
          → route_for c request.method request.pathname body ≡ route r
          → parse_actor_header c request.actor_header ≡ parsed
          → guards config request r.tool_name parsed ≡ o
          → EndsOrStays (guarded config d.schema_summary (handlers d) r parsed state o).1
      on_guards body r parsed (some response) b q a passed = inl refl
      on_guards body r parsed none b q a passed = on_run body r parsed b q a passed

      on_route :
          (body : Value) (x : Routed)
          → read_route_body c request ≡ some body
          → route_for c request.method request.pathname body ≡ x
          → EndsOrStays (routed config d.schema_summary (handlers d) c request state x).1
      on_route body malformed_uri b q = inl refl
      on_route body no_route b q = inl refl
      on_route body (route r) b q =
          on_guards body r (parse_actor_header c request.actor_header)
            (guards config request r.tool_name (parse_actor_header c request.actor_header)) b q refl
            refl

      on_body :
          (o : Option Value)
          → read_route_body c request ≡ o
          → EndsOrStays (read_request config d.schema_summary (handlers d) c request state o).1
      on_body none b = inl refl
      on_body (some body) b =
          on_route body (route_for c request.method request.pathname body) b refl

      on_version :
          (versioned : Bool)
          → EndsOrStays
              (if not versioned
                then (text_response 404 "not found", state)
                else read_request config d.schema_summary
                    (handlers d)
                    c
                    request
                    state
                    (read_route_body c request)).1
      on_version false = inl refl
      on_version true = on_body (read_route_body c request) refl
