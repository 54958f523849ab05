-- ===== src/Authority/Rejections.antt =====
-- Why a request is rejected.
use pluto_agent_platform.Authority.Rules.{
  transition_legal, compose_request_key, actor_authorized_for_intent, entity_resolvable,
}
use pluto_agent_platform.Authority.Validate.{
  validate, reject, change_guard, unexpected, replay_guard, after_guard,
}
use pluto_agent_platform.Protocol.Event.{
  TaskState, RejectionReason, actor_not_authorized, entity_unknown, state_conflict, schema_invalid,
  idempotency_replay, intent_unknown,
}
use pluto_agent_platform.Protocol.Actor.{actor_key}
use pluto_agent_platform.Protocol.Request.{
  append_mailbox_message, create_task, change_task_state, publish_artifact, complete_run,
  ProtocolRequest, RequestBody, ChangeTaskStatePayload, intent_of,
}
use pluto_agent_platform.Authority.State.{RunState, RunStateTask}
use pluto_agent_platform.Common.Dict.{has, lookup}
use pluto_agent_platform.Common.{
  none, refl, Option, ◌≡◌, true, ◌⊎◌, String, some, false, arith, inl, subst, inr, Bool-cases,
}
use pluto_agent_platform.Authority.Admission.{Resolves, Some, Grants, CanMove, Exists}
use pluto_agent_platform.Authority.Policy.{matchers_for}
use pluto_agent_platform.Authority.Decides.{change_guard-CanMove, authorized_iff, resolvable_iff}

abbrev pub Authorized : RunState → ProtocolRequest → Type 0
Authorized s r =
    (has s.declared_actors (actor_key r.actor) ≡ true)
    × Some (Grants s r.actor r.body) (matchers_for s.policy (intent_of r.body))

-- What is wrong with a request that is rejected for a reason: the guards before that one passed.
abbrev pub Fails : RejectionReason → RunState → ProtocolRequest → Option TaskState → Type 0
Fails actor_not_authorized s r x = ¬ Authorized s r
Fails entity_unknown s r x =
    Authorized s r
    × (¬ Resolves s r.body
        ⊎ ((p : ChangeTaskStatePayload) × (t : RunStateTask) × (r.body ≡ change_task_state p)
            × (lookup p.task_id s.tasks ≡ some t)
            × (unexpected x t.state ≡ true)))
Fails state_conflict s r x =
    Authorized s r
    × Resolves s r.body
    × ((p : ChangeTaskStatePayload) × (t : RunStateTask) × (r.body ≡ change_task_state p)
        × (lookup p.task_id s.tasks ≡ some t)
        × (unexpected x t.state ≡ false)
        × (transition_legal t.state p.to ≡ false))
Fails idempotency_replay s r x =
    Authorized s r
    × Resolves s r.body
    × CanMove s r.body x
    × ((key : String) × (compose_request_key s.run_id r.actor (intent_of r.body) r.idempotency_key
          ≡ some key)
        × (has s.accepted_request_keys key ≡ true))
Fails schema_invalid s r x = ⊥
Fails intent_unknown s r x = ⊥

module _ (s : RunState) (r : ProtocolRequest) (x : Option TaskState) where
  task-Fails :
      (p : ChangeTaskStatePayload) (t : RunStateTask) (reason : RejectionReason) (detail : String)
      → r.body ≡ change_task_state p
      → lookup p.task_id s.tasks ≡ some t
      → Authorized s r
      → Resolves s r.body
      → change_guard s (change_task_state p) x ≡ some (reason, detail)
      → Fails reason s r x
  unfolding change_guard
  task-Fails p t reason detail is_b found a resolved h = elim cases [
    | inl (off, why) ↦ rw why (a, inr (p, t, is_b, found, off))
    | inr (on, illegal, why) ↦ rw why (a, resolved, (p, t, is_b, found, on, illegal))
  ]
    where
      cases :
          ((unexpected x t.state ≡ true) × (reason ≡ entity_unknown))
          ⊎ ((unexpected x t.state ≡ false)
              × (transition_legal t.state p.to ≡ false)
              × (reason ≡ state_conflict))
      cases = ground arith

  change-Fails :
      (b : RequestBody) (reason : RejectionReason) (detail : String)
      → r.body ≡ b
      → Authorized s r
      → Resolves s r.body
      → change_guard s b x ≡ some (reason, detail)
      → Fails reason s r x
  unfolding change_guard
  change-Fails (change_task_state p) reason detail is_b a resolved h =
      let (t, found) = there in task-Fails p t reason detail is_b found a resolved h
    where
      there : Exists s p.task_id
      there = rw is_b at resolved
  change-Fails (append_mailbox_message p) reason detail is_b a e h = absurd (cc)
  change-Fails (create_task p) reason detail is_b a e h = absurd (cc)
  change-Fails (publish_artifact p) reason detail is_b a e h = absurd (cc)
  change-Fails (complete_run p) reason detail is_b a e h = absurd (cc)

  replay-Fails :
      (o : Option String) (reason : RejectionReason) (detail : String)
      → replay_guard s o ≡ reject reason detail
      → (key : String) × (o ≡ some key)
        × (has s.accepted_request_keys key ≡ true)
        × (reason ≡ idempotency_replay)
  replay-Fails none reason detail h = absurd (cc)
  replay-Fails (some key) reason detail h = (key, refl, ground arith, ground arith)

  -- A rejection names the first guard that fails: the actor is not authorized; or it is, and what the
  -- request refers to is missing or the task is not in the state that the caller expects; or these
  -- hold and the transition is not legal; or all of that holds and the key has been
  -- accepted before. The validator gives no other reason.
  pub validate-reject :
      (reason : RejectionReason) (detail : String)
      → validate s r x ≡ reject reason detail
      → Fails reason s r x
  unfolding validate
  validate-reject reason detail h = elim (Bool-cases (actor_authorized_for_intent s r)) [
    | inr denied ↦
        let why : reason ≡ actor_not_authorized = ground arith in
        rw why (λ a. absurd (cc (denied, (authorized_iff s r).1 a)))
    | inl allowed ↦ elim (Bool-cases (entity_resolvable s r.body)) [
      | inr missing ↦
          let why : reason ≡ entity_unknown = ground arith in
          rw why (
            (authorized_iff s r).0 allowed,
            inl (λ e. absurd (cc (missing, (resolvable_iff s r.body).1 e))),
          )
      | inl there ↦
          guarded (change_guard s r.body x) refl ((authorized_iff s r).0 allowed)
            ((resolvable_iff s r.body).0 there) (rw (allowed, there, validate) at h)
    ]
  ]
    where
      guarded :
          (g : Option (RejectionReason × String))
          → change_guard s r.body x ≡ g
          → Authorized s r
          → Resolves s r.body
          → after_guard s r g ≡ reject reason detail
          → Fails reason s r x
      guarded (some (why, text)) q a e h =
          subst (λ z. Fails z s r x) (cc) (change-Fails r.body why text refl a e q)
      guarded none q a e h =
          let (key, named, seen, why) = replay-Fails _ reason detail h in
          rw why (a, e, (change_guard-CanMove s r.body x).0 q, (key, named, seen))
