-- ===== src/Authority/Decides.antt =====
-- The validator decides admissibility, and names the first guard that fails.
use pluto_agent_platform.Common.{
  [], String, List, ◌≡◌, all, Option, none, ◌↔◌, refl, Bool, true, false, any, All, arith, some,
  ◌∷◌, ◌∙◌, Bool-cases, inl, inr,
}
use mathlib.Core.Bool.{and-eq-true_iff}
use pluto_agent_platform.Authority.Rules.{same_state, compose_request_key, transition_legal}
use pluto_agent_platform.Authority.Validate.{
  validate, ValidationResult, change_guard, unexpected, replay_guard,
}
use pluto_agent_platform.Protocol.Event.{TaskState}
use pluto_agent_platform.Protocol.Actor.{actor_key}
use pluto_agent_platform.Protocol.Request.{
  append_mailbox_message, create_task, change_task_state, publish_artifact, complete_run,
  ProtocolRequest, RequestBody, intent_of,
}
use pluto_agent_platform.Authority.Rules.{
  has_task, actor_authorized_for_intent, entity_resolvable, same_state,
}
use pluto_agent_platform.Authority.State.{RunState, RunStateTask}
use pluto_agent_platform.Authority.Admission.{
  CanMove, Admissible, Some, Exists, Resolves, Grants, matcher_matches_sound,
  matcher_matches_complete,
}
use pluto_agent_platform.Common.Dict.{has, lookup}
use pluto_agent_platform.Authority.Policy.{matchers_for}

any-Some :
    {A : Type 0} (p : A → Bool) (P : A → Type 0)
    → ((a : A) → p a ≡ true → P a)
    → (xs : List A) → any p xs ≡ true
    → Some P xs
any-Some p P to [] h = cc
any-Some p P to (x ∷ xs) h = elim (Bool-cases (p x)) [
  | inl hit ↦ inl (to x hit)
  | inr miss ↦ inr (any-Some p P to xs (rw miss at h))
]

Some-any :
    {A : Type 0} (p : A → Bool) (P : A → Type 0)
    → ((a : A) → P a → p a ≡ true)
    → (xs : List A) → Some P xs
    → any p xs ≡ true
Some-any p P to [] h = absurd h
Some-any p P to (x ∷ xs) (inl h) = rw (to x h)
Some-any p P to (x ∷ xs) (inr h) = ground (arith, Some-any p P to xs h)

Exists-has_task : (s : RunState) (id : String) → (has_task s id ≡ true) ↔ Exists s id
unfolding has_task
Exists-has_task s id = ground arith

all_tasks-All :
    (s : RunState) (ids : List String) → (all (has_task s) ids ≡ true) ↔ All (Exists s) ids
all_tasks-All s [] = (λ h. tt, λ h. refl)
all_tasks-All s (id ∷ ids) =
    let (to, from) = Exists-has_task s id in
    let (to', from') = all_tasks-All s ids in
    (
      λ h. let (a, b) = (and-eq-true_iff _ _).0 h in (to a, to' b),
      λ h. (and-eq-true_iff _ _).1 (from h.0, from' h.1),
    )

pub authorized_iff :
    (s : RunState) (r : ProtocolRequest)
    → (actor_authorized_for_intent s r ≡ true) ↔ (
        (has s.declared_actors (actor_key r.actor) ≡ true)
        × Some (Grants s r.actor r.body) (matchers_for s.policy (intent_of r.body)))
unfolding actor_authorized_for_intent
authorized_iff s r = (
  λ h.
      let (declared, matched) = (and-eq-true_iff _ _).0 h in
      (declared, any-Some _ _ (matcher_matches_sound s r.actor r.body) _ matched),
  λ h.
      (and-eq-true_iff _ _).1 (h.0, Some-any _ _ (matcher_matches_complete s r.actor r.body) _ h.1),
)

pub resolvable_iff :
    (s : RunState) (b : RequestBody) → (entity_resolvable s b ≡ true) ↔ Resolves s b
unfolding entity_resolvable
resolvable_iff s (change_task_state p) = Exists-has_task s p.task_id
resolvable_iff s (create_task p) = all_tasks-All s p.depends_on
resolvable_iff s (append_mailbox_message p) = (λ h. tt, λ h. refl)
resolvable_iff s (publish_artifact p) = (λ h. tt, λ h. refl)
resolvable_iff s (complete_run p) = (λ h. tt, λ h. refl)

same_state_iff : (a b : TaskState) → (same_state a b ≡ true) ↔ (a ≡ b)
same_state_iff a b = ground arith

expected_iff :
    (x : Option TaskState) (a : TaskState)
    → (unexpected x a ≡ false) ↔ ((expected : TaskState) → x ≡ some expected → a ≡ expected)
expected_iff none a = (λ h expected q. cc, λ h. refl)
expected_iff (some b) a = (
  λ h expected q. let same : b ≡ expected = cc in (same_state_iff a b).0 (ground arith) ∙ same,
  λ h. ground (arith, h b refl, same_state_iff a b),
)

pub change_guard-CanMove :
    (s : RunState) (b : RequestBody) (x : Option TaskState)
    → (change_guard s b x ≡ none) ↔ CanMove s b x
unfolding change_guard
change_guard-CanMove s (change_task_state p) x = (to, from)
  where
    to : change_guard s (change_task_state p) x ≡ none → CanMove s (change_task_state p) x
    to h =
        let found : (t : RunStateTask) × (lookup p.task_id s.tasks ≡ some t)
            × (unexpected x t.state ≡ false)
            × (transition_legal t.state p.to ≡ true) =
          ground arith in
        (found.0, found.1, (expected_iff x _).0 found.2, found.3)

    from : CanMove s (change_task_state p) x → change_guard s (change_task_state p) x ≡ none
    from (t, found, expected, legal) =
        rw (found, change_guard, (expected_iff x t.state).1 expected, legal)
change_guard-CanMove s (append_mailbox_message p) x = (λ h. tt, λ h. refl)
change_guard-CanMove s (create_task p) x = (λ h. tt, λ h. refl)
change_guard-CanMove s (publish_artifact p) x = (λ h. tt, λ h. refl)
change_guard-CanMove s (complete_run p) x = (λ h. tt, λ h. refl)

replay_guard-unseen :
    (s : RunState) (o : Option String)
    → (replay_guard s o ≡ ValidationResult.ok)
      ↔ ((key : String) → o ≡ some key → has s.accepted_request_keys key ≡ false)
replay_guard-unseen s none = (λ h key q. cc, λ h. refl)
replay_guard-unseen s (some k) =
    (λ h key q. let same : k ≡ key = cc in ground arith, λ h. rw (h k refl))

-- The validator accepts a request exactly when its actor is declared and some matcher of
-- the policy grants it the intent, what it refers to exists, the task is in the state that the
-- caller expects and may move to the new one, and its key has not been accepted.
pub validate_iff :
    (s : RunState) (r : ProtocolRequest) (x : Option TaskState)
    → (validate s r x ≡ ValidationResult.ok) ↔ Admissible s r x
unfolding validate
validate_iff s r x = (to, from)
  where
    to : validate s r x ≡ ValidationResult.ok → Admissible s r x
    to h =
        let parts : (actor_authorized_for_intent s r ≡ true)
            × (entity_resolvable s r.body ≡ true)
            × (change_guard s r.body x ≡ none)
            × (replay_guard s
                  (compose_request_key s.run_id r.actor (intent_of r.body) r.idempotency_key)
                ≡ ValidationResult.ok) =
          ground arith in
        let (declared, granted) = (authorized_iff s r).0 parts.0 in
        record {
          declared = declared;
          granted = granted;
          resolves = (resolvable_iff s r.body).0 parts.1;
          can_move = (change_guard-CanMove s r.body x).0 parts.2;
          unseen = (replay_guard-unseen s _).0 parts.3;
        }

    from : Admissible s r x → validate s r x ≡ ValidationResult.ok
    from a =
        rw
          (
            (authorized_iff s r).1 (a.declared, a.granted),
            (resolvable_iff s r.body).1 a.resolves,
            (change_guard-CanMove s r.body x).1 a.can_move,
          )
          ((replay_guard-unseen s _).1 a.unseen)
