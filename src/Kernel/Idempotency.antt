-- ===== src/Kernel/Idempotency.antt =====
-- Idempotency keys: an accepted request cannot be accepted again under its key, if it named the run of
-- the kernel. The validator looks the key up under the run id of the state, and the event records it
-- under the run id of the request.
use pluto_agent_platform.Common.{
  Option, ◌≡◌, String, arith, true, some, false, eq_refl, ◌≢◌, none, refl, ◌∙◌,
}
use pluto_agent_platform.Kernel.Host.{Host, Kernel}
use pluto_agent_platform.Kernel.Log.{returned}
use pluto_agent_platform.Authority.Validate.{validate, ValidationResult}
use pluto_agent_platform.Kernel.Reducer.{reduce}
use pluto_agent_platform.Authority.State.{RunState}
use pluto_agent_platform.Protocol.Request.{ProtocolRequest, RequestBody, intent_of, Intent}
use pluto_agent_platform.Protocol.Event.{RunEvent, TaskState, accepted, rejected}
use pluto_agent_platform.Authority.Rules.{compose_request_key}
use pluto_agent_platform.Common.Dict.{has, has-add}
use pluto_agent_platform.Kernel.Step.{Effect, appended, created, changed, published, finished}
use pluto_agent_platform.Kernel.Move.{Move, quiet, logs, Reaches, Reaches-invariant}
use pluto_agent_platform.Protocol.Parse.{Value, parse_request}
use pluto_agent_platform.Protocol.Actor.{ActorRef}
use pluto_agent_platform.Kernel.Build.{SubmitContext}
use pluto_agent_platform.Kernel.Submit.{submit}
use pluto_agent_platform.Kernel.Outcome.{Origin, granted, refused, unparsed, submit-ok}

-- The key under which the validator looks for a request.
abbrev pub lookup_key : RunState → ProtocolRequest → Option String
lookup_key s r = compose_request_key s.run_id r.actor (intent_of r.body) r.idempotency_key

pub validate-ok-fresh :
    (s : RunState) (r : ProtocolRequest) (x : Option TaskState) (key : String)
    → validate s r x ≡ ValidationResult.ok
    → lookup_key s r ≡ some key
    → has s.accepted_request_keys key ≡ false
unfolding validate
validate-ok-fresh s r x key good q = ground arith

reduce-run_id : (s : RunState) (e : RunEvent) → (reduce s e).run_id ≡ s.run_id
unfolding reduce
reduce-run_id s e = ground arith

-- No event takes a key away.
reduce-keeps_key :
    (s : RunState) (e : RunEvent) (key : String)
    → has s.accepted_request_keys key ≡ true
    → has (reduce s e).accepted_request_keys key ≡ true
unfolding reduce
reduce-keeps_key s e key h = by_key e.accepted_request_key refl
  where
    by_key :
        (o : Option String)
        → e.accepted_request_key ≡ o
        → has (reduce s e).accepted_request_keys key ≡ true
    by_key none q = ground arith
    by_key (some j) q = ground (arith, has-add s.accepted_request_keys j key)

Effect-records_key :
    (h : Host) (s : RunState) (b : RequestBody) (e : RunEvent) (key : String)
    → Effect h s b e.body
    → e.accepted_request_key ≡ some key
    → has (reduce s e).accepted_request_keys key ≡ true
unfolding reduce
Effect-records_key h s b e key (appended p id _ q) k =
    ground (arith, has-add s.accepted_request_keys key key, eq_refl key)
Effect-records_key h s b e key (created p n _ q) k =
    ground (arith, has-add s.accepted_request_keys key key, eq_refl key)
Effect-records_key h s b e key (changed p t _ _ q) k =
    ground (arith, has-add s.accepted_request_keys key key, eq_refl key)
Effect-records_key h s b e key (published p id _ q) k =
    ground (arith, has-add s.accepted_request_keys key key, eq_refl key)
Effect-records_key h s b e key (finished p time _ q) k =
    ground (arith, has-add s.accepted_request_keys key key, eq_refl key)

-- A key that was recorded, for the run that the kernel is of.
abbrev Recorded : String → String → Kernel → Type 0
Recorded run_id key k = (k.state.run_id ≡ run_id) × (has k.state.accepted_request_keys key ≡ true)

Move-Recorded :
    (h : Host) (run_id key : String) (k k' : Kernel)
    → Move h k k'
    → Recorded run_id key k
    → Recorded run_id key k'
Move-Recorded h run_id key k k' (quiet state log) v = rw state v
Move-Recorded h run_id key k k' (logs e c good source) v =
    rw c.reduced (reduce-run_id k.state e ∙ v.0, reduce-keeps_key k.state e key v.1)

-- Of an accepted request for the run of the kernel the key is recorded.
granted-Recorded :
    (h : Host) (k k' : Kernel) (raw : Value) (ctx : SubmitContext) (r : ProtocolRequest)
    (e : RunEvent) (key : String)
    → submit h raw ctx k ≡ (returned e, k')
    → e.outcome ≡ accepted
    → parse_request h.zod raw ≡ some r
    → r.run_id ≡ k.state.run_id
    → lookup_key k.state r ≡ some key
    → Recorded k.state.run_id key k'
granted-Recorded h k k' raw ctx r e key q o parsed run named =
    let (committed, origin, good) = submit-ok h k k' e raw ctx q in
    rw committed.reduced (reduce-run_id k.state e, recorded origin)
  where
    recorded : Origin h k raw ctx e → has (reduce k.state e).accepted_request_keys key ≡ true
    recorded (granted r' parsed' _ a) =
        let same : r' ≡ r = cc (parsed', parsed) in
        Effect-records_key h k.state r'.body e key a.effect (a.keyed ∙ rw (same, run) named)
    recorded (refused r' reason detail _ _ a) = absurd (cc (a.outcome, o))
    recorded (unparsed _ a) = absurd (cc (a.outcome, o))

-- Where the key is recorded, no request that has it is accepted.
Recorded-refuses :
    (h : Host) (k k' : Kernel) (raw : Value) (ctx : SubmitContext) (r : ProtocolRequest)
    (e : RunEvent) (key : String)
    → submit h raw ctx k ≡ (returned e, k')
    → parse_request h.zod raw ≡ some r
    → lookup_key k.state r ≡ some key
    → has k.state.accepted_request_keys key ≡ true
    → e.outcome ≡ rejected
Recorded-refuses h k k' raw ctx r e key q parsed named known =
    let (committed, origin, good) = submit-ok h k k' e raw ctx q in by_origin origin
  where
    by_origin : Origin h k raw ctx e → e.outcome ≡ rejected
    by_origin (granted r' parsed' valid a) =
        let same : r' ≡ r = cc (parsed', parsed) in
        let fresh =
          validate-ok-fresh k.state r' ctx.expected_task_state key valid (rw same named) in
        absurd (cc (fresh, known))
    by_origin (refused r' reason detail _ _ a) = a.outcome
    by_origin (unparsed _ a) = a.outcome

-- Two requests with one identity: actor, intent and idempotency key. The key is not null.
pub record SameIdentity (r r' : ProtocolRequest) : Type 0 where
  pub actor : r'.actor ≡ r.actor
  pub intent : intent_of r'.body ≡ intent_of r.body
  pub key : r'.idempotency_key ≡ r.idempotency_key
  pub present : r.idempotency_key ≢ none

compose_request_key-some :
    (run_id : String) (a : ActorRef) (i : Intent) (o : Option String)
    → o ≢ none
    → (key : String) × (compose_request_key run_id a i o ≡ some key)
unfolding compose_request_key
compose_request_key-some run_id a i none h = absurd (h refl)
compose_request_key-some run_id a i (some s) h = (_, refl)

-- If a request for the run of the kernel is accepted under an idempotency key, then whatever calls
-- follow, a request by the same actor with the same intent and key is rejected.
pub accepted_once :
    (h : Host) (k k1 k2 k3 : Kernel) (raw raw' : Value) (ctx ctx' : SubmitContext)
    (r r' : ProtocolRequest) (e e' : RunEvent)
    → parse_request h.zod raw ≡ some r
    → parse_request h.zod raw' ≡ some r'
    → SameIdentity r r'
    → r.run_id ≡ k.state.run_id
    → submit h raw ctx k ≡ (returned e, k1)
    → e.outcome ≡ accepted
    → Reaches h k1 k2
    → submit h raw' ctx' k2 ≡ (returned e', k3)
    → e'.outcome ≡ rejected
accepted_once h k k1 k2 k3 raw raw' ctx ctx' r r' e e' parsed parsed' same run q o reach q' =
    let (key, named) =
      compose_request_key-some k.state.run_id r.actor (intent_of r.body) r.idempotency_key
        same.present in
    let recorded = granted-Recorded h k k1 raw ctx r e key q o parsed run named in
    let kept =
      Reaches-invariant h (Recorded k.state.run_id key) (Move-Recorded h k.state.run_id key)
        recorded reach in
    Recorded-refuses h k2 k3 raw' ctx' r' e' key q' parsed'
      (rw (kept.0, same.actor, same.intent, same.key) named) kept.1
