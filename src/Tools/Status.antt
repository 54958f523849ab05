-- ===== src/Tools/Status.antt =====
-- The status of a run behind a submission of tools/pluto-tool-handlers.ts: only a request to complete the
-- run changes it.
use pluto_agent_platform.Common.{
  ◌≡◌, some, refl, ◌∙◌, Option, String, arith, ◌≢◌, ap, sym, List, subst, ◌⊎◌, inr, inl,
}
use pluto_agent_platform.Protocol.Parse.{
  ◌>>=◌, satisfying, string, prop, parse_actor, nullable_string, parse_owner, string_array,
  parse_recipient, enum, message_kinds,
}
use pluto_agent_platform.Kernel.Outcome.{granted, refused, unparsed, Origin, submit-ok}
use pluto_agent_platform.Protocol.Request.{RequestBody, intent_of, Intent, ProtocolRequest}
use pluto_agent_platform.Kernel.Log.{Result, returned, thrown}
use pluto_agent_platform.Tools.RoundTrip.{parser_of, assemble, parser_chosen, payload_read}
use pluto_agent_platform.Protocol.Parse.{
  Value, parse_request, parse_mailbox, parse_create_task, parse_change, parse_artifact,
  parse_complete,
}
use pluto_agent_platform.Tools.Values.{request_value, payload_value}
use pluto_agent_platform.Protocol.Schema.{Zod, supported_version}
use pluto_agent_platform.Protocol.Actor.{ActorRef}
use pluto_agent_platform.Kernel.Reducer.{reduce, status_of_completion}
use pluto_agent_platform.Kernel.Host.{Host, Kernel}
use pluto_agent_platform.Authority.State.{RunState, RunStatus}
use pluto_agent_platform.Protocol.Event.{
  RunEvent, CompleteRunPayload, RejectionReason, RunCompletedStatus, Recipient, MailboxMessageKind,
}
use pluto_agent_platform.Kernel.Step.{
  Effect, Rejects, appended, created, changed, published, finished,
}
use pluto_agent_platform.Kernel.Build.{SubmitContext}
use pluto_agent_platform.Kernel.Submit.{submit}
use pluto_agent_platform.Kernel.Atomic.{KeepsOnThrow, submit-KeepsOnThrow}

appended_intent :
    (from : Option ActorRef) (to : Option Recipient) (kind : Option MailboxMessageKind)
    (body : Option String) (b : RequestBody)
    → (from >>= λ f. to >>= λ t. kind >>= λ k. body >>= λ s. some (
        RequestBody.append_mailbox_message
          (record { from_actor = f; to_actor = t; kind = k; body = s })))
      ≡ some b
    → intent_of b ≡ Intent.append_mailbox_message
appended_intent from to kind body b q = ground arith

created_intent :
    (title : Option String) (owner : Option (Option ActorRef)) (depends : Option (List String))
    (b : RequestBody)
    → (title >>= λ t. owner >>= λ o. depends >>= λ ds.
        some (RequestBody.create_task (record { title = t; owner_actor = o; depends_on = ds })))
      ≡ some b
    → intent_of b ≡ Intent.create_task
created_intent title owner depends b q = ground arith

parser_intent :
    (b : RequestBody) (v : Value) (b' : RequestBody)
    → parser_of b v ≡ some b'
    → intent_of b' ≡ intent_of b
unfolding parser_of parse_mailbox parse_create_task parse_change parse_artifact parse_complete
parser_intent (RequestBody.append_mailbox_message p) v b' q =
    appended_intent (prop "fromActor" v >>= parse_actor) (prop "toActor" v >>= parse_recipient)
      (enum message_kinds (prop "kind" v)) (string (prop "body" v)) b' q
parser_intent (RequestBody.create_task p) v b' q =
    created_intent (string (prop "title" v)) (prop "ownerActor" v >>= parse_owner)
      (string_array (prop "dependsOn" v)) b' q
parser_intent (RequestBody.change_task_state p) v b' q = ground arith
parser_intent (RequestBody.publish_artifact p) v b' q = ground arith
parser_intent (RequestBody.complete_run p) v b' q = ground arith

assemble_body :
    (parse : Value → Option RequestBody) (id run : Option String) (by : Option ActorRef)
    (key : Option (Option String)) (time version : Option String) (v : Value) (r : ProtocolRequest)
    → assemble (some parse) id run by key time version (some v) ≡ some r
    → parse v ≡ some r.body
assemble_body parse id run by key time version v r q = ground arith

-- What is parsed of a request that is built as an object has the body that its parser reads.
parsed_body :
    (z : Zod) (request r : ProtocolRequest)
    → parse_request z (request_value request) ≡ some r
    → parser_of request.body (payload_value request.body) ≡ some r.body
unfolding parse_request request_value
parsed_body z request r q =
    let v = request_value request in
    assemble_body (parser_of request.body) (satisfying z.is_uuid (string (prop "requestId" v)))
      (string (prop "runId" v)) (prop "actor" v >>= parse_actor)
      (nullable_string (prop "idempotencyKey" v))
      (satisfying z.is_datetime (string (prop "clientTimestamp" v)))
      (satisfying supported_version (string (prop "schemaVersion" v))) (payload_value request.body)
      r (rw (parser_chosen request.body) at q)

Effect-status :
    (h : Host) (s : RunState) (e : RunEvent) (b : RequestBody)
    → Effect h s b e.body
    → intent_of b ≢ Intent.complete_run
    → (reduce s e).status ≡ s.status
unfolding reduce
Effect-status h s e b (appended p id q is) other = rw is refl
Effect-status h s e b (created p n q is) other = rw is refl
Effect-status h s e b (changed p t q found is) other = rw is refl
Effect-status h s e b (published p id q is) other = rw is refl
Effect-status h s e b (finished p time q is) other = absurd (other (ap intent_of q))

same_status :
    (p p' : CompleteRunPayload)
    → RequestBody.complete_run p' ≡ RequestBody.complete_run p
    → p.status ≡ p'.status
same_status p p' q = sym (ap status_of q)
  where
    status_of : RequestBody → RunCompletedStatus
    status_of (RequestBody.complete_run r) = r.status
    status_of b = RunCompletedStatus.failed

Effect-completes :
    (h : Host) (s : RunState) (e : RunEvent) (p : CompleteRunPayload)
    → Effect h s (RequestBody.complete_run p) e.body
    → (reduce s e).status ≡ status_of_completion p.status
unfolding reduce
Effect-completes h s e p (appended p' id q is) = absurd (cc (q))
Effect-completes h s e p (created p' n q is) = absurd (cc (q))
Effect-completes h s e p (changed p' t q found is) = absurd (cc (q))
Effect-completes h s e p (published p' id q is) = absurd (cc (q))
Effect-completes h s e p (finished p' time q is) =
    rw is (ap status_of_completion (same_status p' p q))

Rejects-status :
    (s : RunState) (e : RunEvent) (reason : RejectionReason)
    → Rejects e reason
    → (reduce s e).status ≡ s.status
unfolding reduce
Rejects-status s e reason a = rw a.told refl

module _ (h : Host) (k : Kernel) (ctx : SubmitContext) where
  -- A request that does not complete the run leaves its status as it is.
  pub submit-status :
      (request : ProtocolRequest)
      → intent_of request.body ≢ Intent.complete_run
      → (submit h (request_value request) ctx k).1.state.status ≡ k.state.status
  submit-status request other =
      go (submit h (request_value request) ctx k) refl
        (submit-KeepsOnThrow h ctx k (request_value request))
    where
      by_origin :
          (e : RunEvent)
          → Origin h k (request_value request) ctx e
          → (reduce k.state e).status ≡ k.state.status
      by_origin e (granted r parsed _ a) = Effect-status h k.state e r.body a.effect λ same.
          other
            (sym (parser_intent request.body _ r.body (parsed_body h.zod request r parsed)) ∙ same)
      by_origin e (refused r reason detail _ _ a) = Rejects-status k.state e reason a
      by_origin e (unparsed _ a) = Rejects-status k.state e _ a

      go :
          (x : Result RunEvent × Kernel)
          → submit h (request_value request) ctx k ≡ x
          → KeepsOnThrow k x
          → x.1.state.status ≡ k.state.status
      go (returned e, k') q t =
          let (committed, origin, _) = submit-ok h k k' e (request_value request) ctx q in
          rw committed.reduced (by_origin e origin)
      go (thrown f, k') q t = rw t.0 refl

  abbrev Ends : CompleteRunPayload → RunStatus → Type 0
  Ends p after = (after ≡ k.state.status) ⊎ (after ≡ status_of_completion p.status)

  -- A request that completes the run leaves its status as it is, or sets it to the status of the
  -- request.
  pub submit-completion :
      (request : ProtocolRequest) (p : CompleteRunPayload)
      → request.body ≡ RequestBody.complete_run p
      → Ends p (submit h (request_value request) ctx k).1.state.status
  submit-completion request p is =
      go (submit h (request_value request) ctx k) refl
        (submit-KeepsOnThrow h ctx k (request_value request))
    where
      its_body :
          (r : ProtocolRequest)
          → parse_request h.zod (request_value request) ≡ some r
          → r.body ≡ RequestBody.complete_run p
      its_body r parsed =
          let read : parser_of (RequestBody.complete_run p)
                (payload_value (RequestBody.complete_run p))
              ≡ some r.body =
            subst (λ b. parser_of b (payload_value b) ≡ some r.body) is
              (parsed_body h.zod request r parsed) in
          cc (read, payload_read (RequestBody.complete_run p) tt)

      by_origin :
          (e : RunEvent)
          → Origin h k (request_value request) ctx e
          → Ends p (reduce k.state e).status
      by_origin e (granted r parsed _ a) = inr (
          Effect-completes h k.state e p
            (subst (λ b. Effect h k.state b e.body) (its_body r parsed) a.effect))
      by_origin e (refused r reason detail _ _ a) = inl (Rejects-status k.state e reason a)
      by_origin e (unparsed _ a) = inl (Rejects-status k.state e _ a)

      go :
          (x : Result RunEvent × Kernel)
          → submit h (request_value request) ctx k ≡ x
          → KeepsOnThrow k x
          → Ends p x.1.state.status
      go (returned e, k') q t =
          let (committed, origin, _) = submit-ok h k k' e (request_value request) ctx q in
          rw committed.reduced (by_origin e origin)
      go (thrown f, k') q t = inl (rw t.0 refl)
