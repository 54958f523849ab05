-- ===== src/Authority/Admission.antt =====
-- What the validator is for, without its order of tests: when a request is admissible. The validator
-- accepts exactly the admissible requests.
use pluto_agent_platform.Common.{
  [], List, String, ◌∷◌, ◌≡◌, ◌⊎◌, All, Option, true, none, some, ◌↔◌, eq_iff, ap, arith, false,
  refl, inl, inr,
}
use mathlib.Core.Bool.{and-eq-true_iff}
use pluto_agent_platform.Protocol.Event.{TaskState, blocked}
use pluto_agent_platform.Protocol.Actor.{ActorRef, actor_key}
use pluto_agent_platform.Protocol.Request.{
  create_task, change_task_state, RequestBody, ProtocolRequest, ChangeTaskStatePayload, intent_of,
}
use pluto_agent_platform.Authority.Rules.{
  actor_matches_role, same_actor_key, matcher_matches, role_owns_task_authorized,
  role_bounded_transition_authorized, transition_legal, compose_request_key, owns, owned_by,
}
use pluto_agent_platform.Authority.State.{RunState, RunStateTask}
use pluto_agent_platform.Common.Dict.{lookup, has}
use pluto_agent_platform.Authority.Policy.{
  ActorMatcher, OwningRole, role_owns_task, owning_role_name, matchers_for,
  role_bounded_transitions, bounded_role,
}
use pluto_agent_platform.Protocol.Keys.{actor_key-injective}

-- An actor may change a task that it owns; one that is not there is not its matter.
abbrev pub OwnsIfPresent : RunState → String → ActorRef → Type 0
OwnsIfPresent s id a =
    (lookup id s.tasks ≡ none)
    ⊎ ((t : RunStateTask) × (lookup id s.tasks ≡ some t) × (t.owner_actor ≡ some a))

-- The right that a matcher gives.
pub data Grants (s : RunState) (a : ActorRef) (b : RequestBody) (m : ActorMatcher) : Type 0 where
  to_manager : m ≡ ActorMatcher.manager → a ≡ ActorRef.manager → Grants s a b m
  to_system : m ≡ ActorMatcher.system → a ≡ ActorRef.system → Grants s a b m
  to_role : (r : String) → m ≡ ActorMatcher.role r → a ≡ ActorRef.role r → Grants s a b m
  to_owner :
      (o : OwningRole) (p : ChangeTaskStatePayload)
      → m ≡ role_owns_task o
      → a ≡ ActorRef.role (owning_role_name o)
      → b ≡ change_task_state p
      → OwnsIfPresent s p.task_id a
      → Grants s a b m
  to_planner :
      (p : ChangeTaskStatePayload)
      → m ≡ role_bounded_transitions
      → a ≡ ActorRef.role bounded_role
      → b ≡ change_task_state p
      → (p.to ≡ blocked) ⊎ (p.to ≡ TaskState.cancelled)
      → Grants s a b m

abbrev pub Some : {A : Type 0} → (A → Type 0) → List A → Type 0
Some P [] = ⊥
Some P (x ∷ xs) = P x ⊎ Some P xs

abbrev pub Exists : RunState → String → Type 0
Exists s id = (t : RunStateTask) × (lookup id s.tasks ≡ some t)

-- What the body refers to is there, and a change of state is one that the task can make.
abbrev pub Resolves : RunState → RequestBody → Type 0
Resolves s (change_task_state p) = Exists s p.task_id
Resolves s (create_task p) = All (Exists s) p.depends_on
Resolves s _ = Unit {0}

abbrev pub CanMove : RunState → RequestBody → Option TaskState → Type 0
CanMove s (change_task_state p) x =
    (t : RunStateTask) × (lookup p.task_id s.tasks ≡ some t)
    × ((expected : TaskState) → x ≡ some expected → t.state ≡ expected)
    × (transition_legal t.state p.to ≡ true)
CanMove s _ x = Unit {0}

pub record Admissible (s : RunState) (r : ProtocolRequest) (x : Option TaskState) : Type 0 where
  pub declared : has s.declared_actors (actor_key r.actor) ≡ true
  pub granted : Some (Grants s r.actor r.body) (matchers_for s.policy (intent_of r.body))
  pub resolves : Resolves s r.body
  pub can_move : CanMove s r.body x
  pub unseen :
      (key : String)
      → compose_request_key s.run_id r.actor (intent_of r.body) r.idempotency_key ≡ some key
      → has s.accepted_request_keys key ≡ false

actor_matches_role_iff :
    (a : ActorRef) (r : String) → (actor_matches_role a r ≡ true) ↔ (a ≡ ActorRef.role r)
unfolding actor_matches_role
actor_matches_role_iff (ActorRef.role q) r =
    let (to, from) = eq_iff q r in (λ h. ap ActorRef.role (to h), λ h. from (role_injective h))
  where
    role_injective : ActorRef.role q ≡ ActorRef.role r → q ≡ r
    role_injective h = cc
actor_matches_role_iff a r = ground arith

same_actor_key_iff : (a b : ActorRef) → (same_actor_key a b ≡ true) ↔ (a ≡ b)
unfolding same_actor_key
same_actor_key_iff a b =
    let (to, from) = eq_iff (actor_key a) (actor_key b) in
    (λ h. actor_key-injective a b (to h), λ h. from (ap actor_key h))

owns-OwnsIfPresent :
    (s : RunState) (id : String) (a : ActorRef)
    → (owns (lookup id s.tasks) a ≡ true) ↔ OwnsIfPresent s id a
owns-OwnsIfPresent s id a = (to (lookup id s.tasks) refl, from)
  where
    to : (o : Option RunStateTask) → lookup id s.tasks ≡ o → owns o a ≡ true → OwnsIfPresent s id a
    to none q h = inl q
    to (some t) q h = inr (t, q, owner t.owner_actor refl (owned t h))
      where
        owned : (t : RunStateTask) → owns (some t) a ≡ true → owned_by t.owner_actor a ≡ true
        owned t h = h

        owner :
            (o : Option ActorRef)
            → t.owner_actor ≡ o
            → owned_by t.owner_actor a ≡ true
            → t.owner_actor ≡ some a
        owner none e h = cc (rw e at h)
        owner (some b) e h = rw e (ap some ((same_actor_key_iff b a).0 (rw e at h)))

    from : OwnsIfPresent s id a → owns (lookup id s.tasks) a ≡ true
    from (inl q) = rw q
    from (inr (t, q, o)) = rw (q, o) ((same_actor_key_iff a a).1 refl)

module _ (s : RunState) (a : ActorRef) where
  pub matcher_matches_sound :
      (b : RequestBody) (m : ActorMatcher) → matcher_matches s a b m ≡ true → Grants s a b m
  unfolding matcher_matches role_owns_task_authorized role_bounded_transition_authorized
  matcher_matches_sound b ActorMatcher.manager h = to_manager refl (ground arith)
  matcher_matches_sound b ActorMatcher.system h = to_system refl (ground arith)
  matcher_matches_sound b (ActorMatcher.role r) h =
      to_role r refl ((actor_matches_role_iff a r).0 h)
  matcher_matches_sound (change_task_state p) (role_owns_task o) h =
      let (matches, owned) = (and-eq-true_iff _ _).0 h in
      to_owner o p refl ((actor_matches_role_iff a _).0 matches) refl
        ((owns-OwnsIfPresent s p.task_id a).0 owned)
  matcher_matches_sound (change_task_state p) role_bounded_transitions h =
      let (matches, bounded) = (and-eq-true_iff _ _).0 h in
      to_planner p refl ((actor_matches_role_iff a _).0 matches) refl (ground arith)
  matcher_matches_sound b (role_owns_task o) h = cc
  matcher_matches_sound b role_bounded_transitions h = cc

  pub matcher_matches_complete :
      (b : RequestBody) (m : ActorMatcher) → Grants s a b m → matcher_matches s a b m ≡ true
  unfolding matcher_matches role_owns_task_authorized role_bounded_transition_authorized
  matcher_matches_complete b m (to_manager is_m is_a) = rw (is_m, is_a)
  matcher_matches_complete b m (to_system is_m is_a) = rw (is_m, is_a)
  matcher_matches_complete b m (to_role r is_m is_a) = rw is_m ((actor_matches_role_iff a r).1 is_a)
  matcher_matches_complete b m (to_owner o p is_m is_a is_b owned) =
      rw (is_m, is_b)
        ((and-eq-true_iff _ _).1
          ((actor_matches_role_iff a _).1 is_a, (owns-OwnsIfPresent s p.task_id a).1 owned))
  matcher_matches_complete b m (to_planner p is_m is_a is_b bounded) =
      rw (is_m, is_b) ((and-eq-true_iff _ _).1 ((actor_matches_role_iff a _).1 is_a, ground arith))
