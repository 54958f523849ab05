-- ===== src/Spec/WellFormed.antt =====
-- What the compiler is for, without its order of tests: when an authored spec is well-formed.
use pluto_agent_platform.Common.{
  String, Option, none, some, List, [], ◌∷◌, ◌≡◌, ◌≢◌, ◌⊎◌, true, false, All, map, length, refl,
  Bool, if◌then◌else◌,
}
use pluto_agent_platform.Common.Dict.{has, lookup}
use pluto_agent_platform.Protocol.Actor.{is_actor_role}
use pluto_agent_platform.Protocol.Request.{Intent, intent_name, is_valid_intent}
use pluto_agent_platform.Kernel.Replay.{Distinct}
use pluto_agent_platform.Spec.Authored.{
  AuthoredActorRef, AuthoredActorMatcher, AuthoredInitialTask, AuthoredSpec, agentic, Result, ok,
  thrown, ◌>>=◌, Failure,
}
use pluto_agent_platform.Spec.Compile.{AuthoredPolicy, blank, ends_with_md}

abbrev pub Defined : {V : Type 0} → String → List (String × V) → Type 0
Defined {V} name dict = (v : V) × (lookup name dict ≡ some v)

abbrev pub RoleFits : AuthoredActorRef → Type 0
RoleFits (AuthoredActorRef.role r) = is_actor_role r ≡ true
RoleFits _ = Unit {0}

-- The matchers that may stand under an intent.
abbrev pub MatcherFits : Intent → AuthoredActorMatcher → Type 0
MatcherFits i AuthoredActorMatcher.manager = Unit {0}
MatcherFits i AuthoredActorMatcher.system = i ≡ Intent.append_mailbox_message
MatcherFits i (AuthoredActorMatcher.role r) = (is_actor_role r ≡ true) × (i ≢ Intent.complete_run)
MatcherFits i (AuthoredActorMatcher.role_owns_task r) =
    ((r ≡ "generator") ⊎ (r ≡ "evaluator")) × (i ≡ Intent.change_task_state)
MatcherFits i (AuthoredActorMatcher.role_bounded_transitions r transitions) =
    (r ≡ "planner") × (transitions ≡ "blocked" ∷ "cancelled" ∷ []) × (i ≡ Intent.change_task_state)

abbrev pub Lists : AuthoredPolicy → Intent → Type 0
Lists policy i =
    (matchers : List AuthoredActorMatcher) × (lookup (intent_name i) policy ≡ some matchers)
    × All (MatcherFits i) matchers

pub record PolicyFits (policy : AuthoredPolicy) : Type 0 where
  pub five : length policy ≡ 5
  pub known : All (λ entry. is_valid_intent entry.0 ≡ true) policy
  pub append : Lists policy Intent.append_mailbox_message
  pub create : Lists policy Intent.create_task
  pub change : Lists policy Intent.change_task_state
  pub publish : Lists policy Intent.publish_artifact
  pub complete : Lists policy Intent.complete_run

abbrev pub PolicyOk : Option AuthoredPolicy → Type 0
PolicyOk none = Unit {0}
PolicyOk (some policy) = PolicyFits policy

pub record IsAgentic (spec : AuthoredSpec) : Type 0 where
  pub lead_declared : has spec.declared_actors "lead" ≡ true
  pub lead : lookup "lead" spec.actors ≡ some (AuthoredActorRef.role "lead")
  pub manager_declared : has spec.declared_actors "manager" ≡ true
  pub manager : lookup "manager" spec.actors ≡ some AuthoredActorRef.manager
  pub task : blank spec.user_task ≡ false
  pub playbook : blank spec.playbook_ref ≡ false
  pub markdown : ends_with_md spec.playbook_ref ≡ true

abbrev pub OwnerFits : List (String × AuthoredActorRef) → AuthoredInitialTask → Type 0
OwnerFits actors task =
    (task.owner_actor ≡ none)
    ⊎ ((name : String) × (task.owner_actor ≡ some name) × Defined name actors)

pub record WellFormed (spec : AuthoredSpec) : Type 0 where
  pub roles : All (λ entry. RoleFits entry.1) spec.actors
  pub agentic_run : spec.mode ≡ some agentic → IsAgentic spec
  pub declared : All (λ name. Defined name spec.actors) spec.declared_actors
  pub distinct : Distinct (map (λ t. t.task_id) spec.initial_tasks)
  pub owners : All (OwnerFits spec.actors) spec.initial_tasks
  pub policy : PolicyOk spec.policy

abbrev pub Returns : {A : Type 0} → Result A → Type 0
Returns {A} r = (a : A) × (r ≡ ok a)

-- Inversion of a successful bind, and its converse.
pub bind-ok :
    {A B : Type 0} (m : Result A) (f : A → Result B) (b : B)
    → (m >>= f) ≡ ok b
    → (a : A) × (m ≡ ok a) × (f a ≡ ok b)
bind-ok (ok a) f b h = (a, refl, h)
bind-ok (thrown e) f b h = absurd (cc (h))

pub bind-Returns :
    {A B : Type 0} (m : Result A) (f : A → Result B)
    → Returns m
    → ((a : A) → m ≡ ok a → Returns (f a))
    → Returns (m >>= f)
bind-Returns m f (a, q) k = let (b, r) = k a q in (b, rw q r)

-- A branch that throws was not taken.
pub else-ok :
    {A : Type 0} (b : Bool) (e : Failure) (r : Result A) (a : A)
    → (if b then thrown e else r) ≡ ok a
    → (b ≡ false) × (r ≡ ok a)
else-ok true e r a h = absurd (cc (h))
else-ok false e r a h = (refl, h)
