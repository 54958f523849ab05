-- ===== src/Kernel/Foreign.antt =====
-- Requests that name another run than the kernel's. The validator looks their key up under the run id
-- of the state, and the event records it under that of the request.
use pluto_agent_platform.Common.{
  Option, ◌≡◌, String, arith, some, false, ◌≢◌, none, refl, ◌∙◌, ◌==◌, eq_iff, ap, sym, Bool-cases,
  inl, inr,
}
use text.Mathlib.TextLemmas.{append_cancel_right}
use pluto_agent_platform.Kernel.Host.{Host, Kernel}
use pluto_agent_platform.Kernel.Log.{returned}
use pluto_agent_platform.Kernel.Reducer.{reduce}
use pluto_agent_platform.Authority.State.{RunState}
use pluto_agent_platform.Protocol.Request.{ProtocolRequest, intent_of, Intent, intent_name}
use pluto_agent_platform.Protocol.Event.{RunEvent, accepted}
use pluto_agent_platform.Authority.Rules.{compose_request_key}
use pluto_agent_platform.Common.Dict.{has, has-add}
use pluto_agent_platform.Protocol.Parse.{Value, parse_request}
use pluto_agent_platform.Common.Text.{◌<>◌}
use pluto_agent_platform.Protocol.Actor.{ActorRef, actor_key}
use pluto_agent_platform.Kernel.Build.{SubmitContext}
use pluto_agent_platform.Kernel.Submit.{submit}
use pluto_agent_platform.Kernel.Outcome.{Origin, granted, refused, unparsed, submit-ok}
use pluto_agent_platform.Kernel.Idempotency.{lookup_key, validate-ok-fresh}

-- Keys under different run ids differ.
foreign_key-differs :
    (a b : String) (x : ActorRef) (i : Intent) (o : Option String) (j key : String)
    → a ≢ b
    → compose_request_key a x i o ≡ some j
    → compose_request_key b x i o ≡ some key
    → (j == key) ≡ false
unfolding compose_request_key
foreign_key-differs a b x i none j key differ p q = absurd (cc)
foreign_key-differs a b x i (some s) j key differ p q = elim (Bool-cases (j == key)) [
  | inr other ↦ other
  | inl same ↦
      let keys : a <> rest ≡ b <> rest =
        some_injective (p ∙ ap some ((eq_iff j key).0 same) ∙ sym q) in
      absurd (differ (append_cancel_right a b rest keys))
]
  where
    rest : String
    rest = "|" <> actor_key x <> "|" <> intent_name i <> "|" <> s

    some_injective : {u v : String} → some u ≡ some v → u ≡ v
    some_injective h = cc

-- An event adds its own key at most.
reduce-other_key :
    (s : RunState) (e : RunEvent) (key : String)
    → has s.accepted_request_keys key ≡ false
    → ((j : String) → e.accepted_request_key ≡ some j → (j == key) ≡ false)
    → has (reduce s e).accepted_request_keys key ≡ false
unfolding reduce
reduce-other_key s e key absent other = by_key e.accepted_request_key refl
  where
    by_key :
        (o : Option String)
        → e.accepted_request_key ≡ o
        → has (reduce s e).accepted_request_keys key ≡ false
    by_key none q = ground arith
    by_key (some j) q = ground (arith, has-add s.accepted_request_keys j key, other j q)

module _ (h : Host) (k k' : Kernel) (raw : Value) (ctx : SubmitContext) (r : ProtocolRequest)
    (e : RunEvent) (key : String) where
  -- If a request that names another run than the kernel's is accepted, the key under which the
  -- validator looks for it is not recorded afterwards, so that the same request would not be
  -- taken for a replay.
  pub foreign_run_unprotected :
      submit h raw ctx k ≡ (returned e, k')
      → e.outcome ≡ accepted
      → parse_request h.zod raw ≡ some r
      → r.run_id ≢ k.state.run_id
      → lookup_key k.state r ≡ some key
      → has k'.state.accepted_request_keys key ≡ false
  foreign_run_unprotected q o parsed foreign named =
      let (committed, origin, good) = submit-ok h k k' e raw ctx q in
      rw committed.reduced (by_origin origin)
    where
      by_origin : Origin h k raw ctx e → has (reduce k.state e).accepted_request_keys key ≡ false
      by_origin (granted r' parsed' valid a) =
          let same : r' ≡ r = cc (parsed', parsed) in
          let fresh =
            validate-ok-fresh k.state r' ctx.expected_task_state key valid (rw same named) in
          reduce-other_key k.state e key fresh (λ j is_j.
            foreign_key-differs r'.run_id k.state.run_id r'.actor (intent_of r'.body)
              r'.idempotency_key j key (rw same foreign) (sym a.keyed ∙ is_j) (rw same named))
      by_origin (refused r' reason detail _ _ a) = absurd (cc (a.outcome, o))
      by_origin (unparsed _ a) = absurd (cc (a.outcome, o))
