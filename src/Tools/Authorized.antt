-- ===== src/Tools/Authorized.antt =====
-- What a request must show before it changes anything: the guards of api/pluto-local-api.ts and the
-- turn lease together.
use pluto_agent_platform.Common.{
  String, true, false, Option, none, some, ◌≡◌, ◌⊎◌, inl, inr, ◌==◌, refl, ap, Bool-cases, eq_iff,
  arith, sym,
}
use pluto_agent_platform.Common.Dict.{has, lookup}
use pluto_agent_platform.Protocol.Actor.{ActorRef, actor_key, is_lead_actor}
use pluto_agent_platform.Runtime.Lease.{TurnLease, consume_mutation, matches, matches_iff}
use pluto_agent_platform.Tools.Names.{
  create_task, change_task_state, append_mailbox_message, publish_artifact, complete_run,
  read_state, read_artifact, read_transcript,
}
use pluto_agent_platform.Tools.Request.{
  Codec, HttpRequest, LocalApiToolName, claims, refused, parse_actor_header, bearer_token,
  LocalApiRoute, tool, composite, wait_for_event, ParsedActor,
}
use pluto_agent_platform.Tools.Api.{call_tool, run_route, session_for}
use pluto_agent_platform.Tools.Guards.{
  PlutoLocalApiConfig, Response, guards, header_guard, registered_guard, bearer_guard, bound_guard,
  token_guard, first_of, registered_keys, is_mutating, route_requires_actor, actor_key_for_token,
  ApiState, claimed_actor, lead_guard,
}
use pluto_agent_platform.Tools.World.{Deps, PlutoToolSession, World}
use pluto_agent_platform.Tools.Handlers.{handlers}

-- The actor that a request names, with its proof: it is registered, and the request bears its token.
pub record Bears (config : PlutoLocalApiConfig) (c : Codec) (request : HttpRequest)
    (actor : ActorRef) : Type 0 where
  pub claimed : parse_actor_header c request.actor_header ≡ claims actor
  pub registered : has (registered_keys config) (actor_key actor) ≡ true
  pub token : String
  pub borne : bearer_token request.authorization ≡ some token
  pub its_own : lookup (actor_key actor) config.token_by_actor ≡ some token

-- The actor has the turn and its mutation, which the request takes.
pub record TakesTurn (actor : ActorRef) (before after : TurnLease) : Type 0 where
  pub turn : before.current_actor ≡ some actor
  pub unspent : before.mutation_consumed ≡ false
  pub spent : after ≡ record before { mutation_consumed = true }

pub first_of-none : (a b : Option Response) → first_of a b ≡ none → (a ≡ none) × (b ≡ none)
first_of-none none b h = (refl, h)
first_of-none (some r) b h = absurd (cc (h))

token_guard-none :
    (expected : Option String) (token bound key : String)
    → token_guard expected token bound key ≡ none
    → expected ≡ some token
token_guard-none none token bound key h = absurd (cc (h))
token_guard-none (some e) token bound key h = ap some (sym (go (Bool-cases (token == e))))
  where
    go : ((token == e) ≡ true) ⊎ ((token == e) ≡ false) → token ≡ e
    go (inl same) = (eq_iff token e).0 same
    go (inr differs) = absurd (cc (rw differs at h))

module _ (config : PlutoLocalApiConfig) (actor : ActorRef) where
  bearer_guard-none :
      (o : Option String)
      → bearer_guard config (some actor) o ≡ none
      → (token : String) × (o ≡ some token)
        × (lookup (actor_key actor) config.token_by_actor ≡ some token)
  bearer_guard-none none h = absurd (cc (h))
  bearer_guard-none (some token) h =
      (token, refl, go (actor_key_for_token config.token_by_actor token) h)
    where
      go :
          (o : Option String)
          → bound_guard config (some actor) token o ≡ none
          → lookup (actor_key actor) config.token_by_actor ≡ some token
      go none q = absurd (cc (q))
      go (some bound) q = token_guard-none _ token bound (actor_key actor) q

  registered_guard-none :
      registered_guard config (some actor) ≡ none
      → has (registered_keys config) (actor_key actor) ≡ true
  registered_guard-none h = elim (Bool-cases (has (registered_keys config) (actor_key actor))) [
    | inl known ↦ known
    | inr unknown ↦ absurd (cc (rw unknown at h))
  ]

pub guards_bear :
    (config : PlutoLocalApiConfig) (c : Codec) (request : HttpRequest) (name : LocalApiToolName)
    (actor : ActorRef)
    → parse_actor_header c request.actor_header ≡ claims actor
    → guards config request name (claims actor) ≡ none
    → Bears config c request actor
unfolding guards
guards_bear config c request name actor q h =
    let (_, h1) = first_of-none (header_guard name request.actor_header (claims actor)) _ h in
    let (known, h2) = first_of-none (registered_guard config (some actor)) _ h1 in
    let (bears, _) =
      first_of-none (bearer_guard config (some actor) (bearer_token request.authorization)) _ h2 in
    let (token, borne, its_own) =
      bearer_guard-none config actor (bearer_token request.authorization) bears in
    record {
      claimed = q;
      registered = registered_guard-none config actor known;
      token = token;
      borne = borne;
      its_own = its_own;
    }

-- The lead does not pass with a direct `complete-run`.
pub direct_completion :
    (config : PlutoLocalApiConfig) (request : HttpRequest) (name : LocalApiToolName)
    (actor : ActorRef)
    → name ≡ tool complete_run
    → guards config request name (claims actor) ≡ none
    → is_lead_actor actor ≡ false
unfolding guards
direct_completion config request name actor named h =
    let (_, h1) = first_of-none (header_guard name request.actor_header (claims actor)) _ h in
    let (_, h2) = first_of-none (registered_guard config (some actor)) _ h1 in
    let (_, h3) =
      first_of-none (bearer_guard config (some actor) (bearer_token request.authorization)) _ h2 in
    go (Bool-cases (is_lead_actor actor)) (rw named at h3)
  where
    go :
        (is_lead_actor actor ≡ true) ⊎ (is_lead_actor actor ≡ false)
        → lead_guard (tool complete_run) (some actor) ≡ none
        → is_lead_actor actor ≡ false
    go (inr follower) h3 = follower
    go (inl leads) h3 = absurd (cc (rw leads at h3))

-- A mutating route wants an actor.
pub mutating_refused :
    (config : PlutoLocalApiConfig) (request : HttpRequest) (name : LocalApiToolName) (m : String)
    → is_mutating name ≡ true
    → guards config request name (refused m) ≡ none
    → ⊥
unfolding guards route_requires_actor
mutating_refused config request name m mutating h =
    let (q, _) = first_of-none (header_guard name request.actor_header (refused m)) _ h in
    go request.actor_header (Bool-cases (route_requires_actor name)) q
  where
    go :
        (o : Option String)
        → (route_requires_actor name ≡ true) ⊎ (route_requires_actor name ≡ false)
        → header_guard name o (refused m) ≡ none
        → ⊥
    go none (inl wanted) q = cc (rw wanted at q)
    go (some t) (inl wanted) q = cc (rw wanted at q)
    go o (inr free) q = ground (arith, mutating, free)

consume-spent :
    (lease : TurnLease) → lease.mutation_consumed ≡ true → consume_mutation lease ≡ (false, lease)
unfolding consume_mutation
consume-spent lease h = ground arith

consume-unspent :
    (lease : TurnLease) (actor : ActorRef)
    → lease.current_actor ≡ some actor
    → lease.mutation_consumed ≡ false
    → consume_mutation lease ≡ (true, record lease { mutation_consumed = true })
unfolding consume_mutation
consume-unspent lease actor q h = rw (q, h) refl

module _ (d : Deps) (config : PlutoLocalApiConfig) where
  -- A tool that is not of the mutating ones changes nothing.
  call_tool-quiet :
      (r : LocalApiRoute) (s : PlutoToolSession) (w : World)
      → is_mutating r.tool_name ≡ false
      → (call_tool config d.schema_summary (handlers d) r s w).1 ≡ w
  unfolding is_mutating handlers
  call_tool-quiet r s w h = go r.tool_name refl h
    where
      go :
          (name : LocalApiToolName)
          → r.tool_name ≡ name
          → is_mutating name ≡ false
          → (call_tool config d.schema_summary (handlers d) r s w).1 ≡ w
      go (tool read_state) q h = rw q refl
      go (tool read_artifact) q h = rw q refl
      go (tool read_transcript) q h = rw q refl
      go (tool create_task) q h = absurd (cc (h))
      go (tool change_task_state) q h = absurd (cc (h))
      go (tool append_mailbox_message) q h = absurd (cc (h))
      go (tool publish_artifact) q h = absurd (cc (h))
      go (tool complete_run) q h = absurd (cc (h))
      go (composite name) q h = absurd (cc (h))
      go wait_for_event q h = rw q refl

  module _ (c : Codec) (request : HttpRequest) (state : ApiState) where
    abbrev pub Authorized : ApiState → Type 0
    Authorized after =
        (after ≡ state)
        ⊎ ((actor : ActorRef) × Bears config c request actor
            × TakesTurn actor state.lease after.lease)

    pub route-Authorized :
        (r : LocalApiRoute) (parsed : ParsedActor)
        → parse_actor_header c request.actor_header ≡ parsed
        → guards config request r.tool_name parsed ≡ none
        → Authorized
            (run_route config d.schema_summary
              (handlers d)
              r
              (session_for config d.schema_summary (handlers d) (claimed_actor parsed))
              state).1
    unfolding run_route
    route-Authorized r parsed q passed = elim (Bool-cases (is_mutating r.tool_name)) [
      | inl mutating ↦ go parsed q passed mutating
      | inr free ↦
          rw
            (
              free,
              call_tool-quiet r
                  (session_for config d.schema_summary (handlers d) (claimed_actor parsed))
                  state.world free,
            )
            (inl refl)
    ]
      where
        go :
            (parsed : ParsedActor)
            → parse_actor_header c request.actor_header ≡ parsed
            → guards config request r.tool_name parsed ≡ none
            → is_mutating r.tool_name ≡ true
            → Authorized
                (run_route config d.schema_summary
                  (handlers d)
                  r
                  (session_for config d.schema_summary (handlers d) (claimed_actor parsed))
                  state).1
        go (refused m) q passed mutating =
            absurd (mutating_refused config request r.tool_name m mutating passed)
        go (claims actor) q passed mutating = elim (Bool-cases (matches state.lease actor)) [
          | inr other ↦ rw (mutating, other) (inl refl)
          | inl mine ↦ elim (Bool-cases state.lease.mutation_consumed) [
            | inl spent ↦ rw (mutating, mine, consume-spent state.lease spent) (inl refl)
            | inr unspent ↦
                rw
                  (
                    mutating,
                    mine,
                    consume-unspent state.lease actor ((matches_iff state.lease actor).0 mine)
                        unspent,
                  )
                  (inr (
                    actor,
                    guards_bear config c request r.tool_name actor q passed,
                    record {
                      turn = (matches_iff state.lease actor).0 mine;
                      unspent = unspent;
                      spent = refl;
                    },
                  ))
          ]
        ]
