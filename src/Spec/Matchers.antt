-- ===== src/Spec/Matchers.antt =====
-- `compileRole` and `compileMatcher`: when they return, and that a matcher which they return is allowed
-- for its intent and passes the schema.
use pluto_agent_platform.Common.{
  ◌∙◌, String, List, [], ◌∷◌, ◌++◌, ◌≡◌, ◌≢◌, ◌⊎◌, inl, inr, true, false, ◌==◌, eq_iff, refl, arith,
  Bool-cases, Bool, not, ◌||◌, sym, subst, ap,
}
use mathlib.Core.Path.{ap₂}
use pluto_agent_platform.Protocol.Actor.{is_actor_role}
use pluto_agent_platform.Protocol.Request.{Intent}
use pluto_agent_platform.Authority.Policy.{
  ActorMatcher, matcher_ok, generator, evaluator, OwningRole,
}
use pluto_agent_platform.Spec.Authored.{AuthoredActorMatcher, Segment, key, ok}
use pluto_agent_platform.Spec.Roles.{
  compile_role, assert_transitions, matcher_allowed_for_intent, normalize_matcher, compile_matcher,
  planning_role, checked_matcher, owning_role,
}
use pluto_agent_platform.Spec.WellFormed.{MatcherFits, Returns, bind-ok, else-ok}

pub ok_injective : {A : Type 0} {a b : A} → ok a ≡ ok b → a ≡ b
ok_injective q = cc

pub compile_role-ok :
    (r : String) (path : List Segment) (x : String)
    → compile_role r path ≡ ok x
    → (is_actor_role r ≡ true) × (x ≡ r)
unfolding compile_role
compile_role-ok r path x h = ground arith

pub compile_role_valid :
    (r : String) (path : List Segment) → is_actor_role r ≡ true → compile_role r path ≡ ok r
unfolding compile_role
compile_role_valid r path h = rw h

assert_transitions-ok :
    (ts : List String) (path : List Segment) (u : Unit {0})
    → assert_transitions ts path ≡ ok u
    → ts ≡ "blocked" ∷ "cancelled" ∷ []
unfolding assert_transitions
assert_transitions-ok [] path u h = absurd (cc (h))
assert_transitions-ok (a ∷ []) path u h = absurd (cc (h))
assert_transitions-ok (a ∷ b ∷ []) path u h =
    let (_, named) = else-ok _ _ _ u h in
    let (q, _) = else-ok _ _ _ u named in both (a == "blocked") (b == "cancelled") refl refl q
  where
    both :
        (x y : Bool)
        → (a == "blocked") ≡ x
        → (b == "cancelled") ≡ y
        → (not x || not y) ≡ false
        → a ∷ b ∷ [] ≡ "blocked" ∷ "cancelled" ∷ []
    both true true p q h =
        ap₂ (λ s t. s ∷ t ∷ []) ((eq_iff a "blocked").0 p) ((eq_iff b "cancelled").0 q)
    both false y p q h = absurd (cc (h))
    both true false p q h = absurd (cc (h))
assert_transitions-ok (a ∷ b ∷ c ∷ ts) path u h = absurd (cc (h))

normalize_role :
    (i : Intent) (r : String) (path : List Segment) (x : ActorMatcher)
    → normalize_matcher (AuthoredActorMatcher.role r) path ≡ ok x
    → (is_actor_role r ≡ true) × (x ≡ ActorMatcher.role r)
unfolding normalize_matcher
normalize_role i r path x h = ground (arith, compile_role-ok r (path ++ key "role" ∷ []))

normalize_owner :
    (r : String) (path : List Segment) (x : ActorMatcher)
    → normalize_matcher (AuthoredActorMatcher.role_owns_task r) path ≡ ok x
    → ((r ≡ "generator") × (x ≡ ActorMatcher.role_owns_task generator))
      ⊎ ((r ≡ "evaluator") × (x ≡ ActorMatcher.role_owns_task evaluator))
unfolding normalize_matcher compile_role
normalize_owner r path x h = ground (arith, eq_iff r "generator", eq_iff r "evaluator")

planning_role-ok :
    (r : String) (path : List Segment) (u : Unit {0}) → planning_role r path ≡ ok u → r ≡ "planner"
unfolding planning_role
planning_role-ok r path u h = ground (arith, eq_iff r "planner")

normalize_planner :
    (r : String) (ts : List String) (path : List Segment) (x : ActorMatcher)
    → normalize_matcher (AuthoredActorMatcher.role_bounded_transitions r ts) path ≡ ok x
    → (r ≡ "planner")
      × (ts ≡ "blocked" ∷ "cancelled" ∷ [])
      × (x ≡ ActorMatcher.role_bounded_transitions)
unfolding normalize_matcher
normalize_planner r ts path x h =
    let (role, named, h1) = bind-ok (compile_role r (path ++ key "role" ∷ [])) _ x h in
    let (_, is_r) = compile_role-ok r (path ++ key "role" ∷ []) role named in
    let (v, planner, h2) = bind-ok (planning_role role (path ++ key "role" ∷ [])) _ x h1 in
    let (u, moves, h3) = bind-ok (assert_transitions ts (path ++ key "transitions" ∷ [])) _ x h2 in
    (
      sym is_r ∙ planning_role-ok role (path ++ key "role" ∷ []) v planner,
      assert_transitions-ok ts (path ++ key "transitions" ∷ []) u moves,
      sym (ok_injective h3),
    )

checked-ok :
    (i : Intent) (m x : ActorMatcher) (path : List Segment)
    → checked_matcher i m path ≡ ok x
    → (matcher_allowed_for_intent i m ≡ true) × (m ≡ x)
checked-ok i m x path h = elim (Bool-cases (matcher_allowed_for_intent i m)) [
  | inl allowed ↦ (allowed, ok_injective (rw allowed at h))
  | inr refused ↦ absurd (cc (rw refused at h))
]

-- Where each kind of matcher is allowed.
only_system :
    (i : Intent)
    → matcher_allowed_for_intent i ActorMatcher.system ≡ true
    → i ≡ Intent.append_mailbox_message
unfolding matcher_allowed_for_intent
only_system Intent.append_mailbox_message h = refl
only_system Intent.create_task h = absurd (cc (h))
only_system Intent.change_task_state h = absurd (cc (h))
only_system Intent.publish_artifact h = absurd (cc (h))
only_system Intent.complete_run h = absurd (cc (h))

not_complete :
    (i : Intent) (r : String)
    → matcher_allowed_for_intent i (ActorMatcher.role r) ≡ true
    → i ≢ Intent.complete_run
unfolding matcher_allowed_for_intent
not_complete Intent.append_mailbox_message r h = λ q. cc
not_complete Intent.create_task r h = λ q. cc
not_complete Intent.change_task_state r h = λ q. cc
not_complete Intent.publish_artifact r h = λ q. cc
not_complete Intent.complete_run r h = absurd (cc (h))

only_change_owner :
    (i : Intent) (o : OwningRole)
    → matcher_allowed_for_intent i (ActorMatcher.role_owns_task o) ≡ true
    → i ≡ Intent.change_task_state
unfolding matcher_allowed_for_intent
only_change_owner Intent.append_mailbox_message o h = absurd (cc (h))
only_change_owner Intent.create_task o h = absurd (cc (h))
only_change_owner Intent.change_task_state o h = refl
only_change_owner Intent.publish_artifact o h = absurd (cc (h))
only_change_owner Intent.complete_run o h = absurd (cc (h))

only_change_planner :
    (i : Intent)
    → matcher_allowed_for_intent i ActorMatcher.role_bounded_transitions ≡ true
    → i ≡ Intent.change_task_state
unfolding matcher_allowed_for_intent
only_change_planner Intent.append_mailbox_message h = absurd (cc (h))
only_change_planner Intent.create_task h = absurd (cc (h))
only_change_planner Intent.change_task_state h = refl
only_change_planner Intent.publish_artifact h = absurd (cc (h))
only_change_planner Intent.complete_run h = absurd (cc (h))

-- A matcher that is compiled is one that fits; it is allowed for the intent, and passes the schema.
pub record Matched (i : Intent) (m : AuthoredActorMatcher) (x : ActorMatcher) : Type 0 where
  pub fits : MatcherFits i m
  pub allowed : matcher_allowed_for_intent i x ≡ true
  pub valid : matcher_ok x ≡ true

matched :
    (i : Intent) (m : AuthoredActorMatcher) (x : ActorMatcher) (path : List Segment)
    → normalize_matcher m path ≡ ok x
    → matcher_allowed_for_intent i x ≡ true
    → Matched i m x
unfolding normalize_matcher matcher_allowed_for_intent
matched i AuthoredActorMatcher.manager x path n h =
    let e = ok_injective n in
    record { fits = tt; allowed = h; valid = subst (λ y. matcher_ok y ≡ true) e refl }
matched i AuthoredActorMatcher.system x path n h =
    let e = ok_injective n in
    record {
      fits = only_system i (rw (← e) at h);
      allowed = h;
      valid = subst (λ y. matcher_ok y ≡ true) e refl;
    }
matched i (AuthoredActorMatcher.role r) x path n h =
    let (good, e) = normalize_role i r path x n in
    record { fits = (good, not_complete i r (rw e at h)); allowed = h; valid = rw e good }
matched i (AuthoredActorMatcher.role_owns_task r) x path n h = elim (normalize_owner r path x n) [
  | inl (q, e) ↦ record {
    fits = (inl q, only_change_owner i generator (rw e at h));
    allowed = h;
    valid = rw e;
  }
  | inr (q, e) ↦ record {
    fits = (inr q, only_change_owner i evaluator (rw e at h));
    allowed = h;
    valid = rw e;
  }
]
matched i (AuthoredActorMatcher.role_bounded_transitions r ts) x path n h =
    let (q, w, e) = normalize_planner r ts path x n in
    record { fits = (q, w, only_change_planner i (rw e at h)); allowed = h; valid = rw e }

pub compile_matcher-Matched :
    (i : Intent) (m : AuthoredActorMatcher) (x : ActorMatcher) (path : List Segment)
    → compile_matcher i m path ≡ ok x
    → Matched i m x
unfolding compile_matcher
compile_matcher-Matched i m x path h =
    let (y, normal, checked) = bind-ok (normalize_matcher m path) _ x h in
    let (allowed, e) = checked-ok i y x path checked in
    matched i m x path (normal ∙ ap ok e) (rw (← e) allowed)

pub fits-Returns :
    (i : Intent) (m : AuthoredActorMatcher) (path : List Segment)
    → MatcherFits i m
    → Returns (compile_matcher i m path)
unfolding compile_matcher normalize_matcher matcher_allowed_for_intent assert_transitions
    owning_role planning_role compile_role is_actor_role
fits-Returns Intent.append_mailbox_message AuthoredActorMatcher.manager path h = (_, refl)
fits-Returns Intent.create_task AuthoredActorMatcher.manager path h = (_, refl)
fits-Returns Intent.change_task_state AuthoredActorMatcher.manager path h = (_, refl)
fits-Returns Intent.publish_artifact AuthoredActorMatcher.manager path h = (_, refl)
fits-Returns Intent.complete_run AuthoredActorMatcher.manager path h = (_, refl)
fits-Returns i AuthoredActorMatcher.system path h = rw h (ActorMatcher.system, refl)
fits-Returns Intent.append_mailbox_message (AuthoredActorMatcher.role r) path h =
    (ActorMatcher.role r, rw h.0)
fits-Returns Intent.create_task (AuthoredActorMatcher.role r) path h = (ActorMatcher.role r, rw h.0)
fits-Returns Intent.change_task_state (AuthoredActorMatcher.role r) path h =
    (ActorMatcher.role r, rw h.0)
fits-Returns Intent.publish_artifact (AuthoredActorMatcher.role r) path h =
    (ActorMatcher.role r, rw h.0)
fits-Returns Intent.complete_run (AuthoredActorMatcher.role r) path h = absurd (h.1 refl)
fits-Returns i (AuthoredActorMatcher.role_owns_task r) path (inl q, e) =
    rw (q, e) (ActorMatcher.role_owns_task generator, refl)
fits-Returns i (AuthoredActorMatcher.role_owns_task r) path (inr q, e) =
    rw (q, e) (ActorMatcher.role_owns_task evaluator, refl)
fits-Returns i (AuthoredActorMatcher.role_bounded_transitions r ts) path (q, w, e) =
    rw (q, w, e) (ActorMatcher.role_bounded_transitions, refl)
