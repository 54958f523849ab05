-- ===== src/Spec/Compile.antt =====
-- `compileDeclaredActors`, `compileInitialTasks`, `compilePolicy`, `validateAgenticOrchestration` and
-- `compile` of core/spec-compiler.ts.
use pluto_agent_platform.Common.{
  ℕ, suc, String, Bool, true, false, ◌&&◌, ◌||◌, not, Option, none, some, List, [], ◌∷◌, ◌==◌,
  nat_eq, all, map, length, if◌then◌else◌,
}
use pluto_agent_platform.Common.Text.{◌<>◌, codes, is_space}
use pluto_agent_platform.Common.Dict.{has, add, lookup}
use mathlib.Core.List.{reverse}
use pluto_agent_platform.Protocol.Actor.{ActorRef, role_of_ref}
use pluto_agent_platform.Protocol.Schema.{owner_ok}
use pluto_agent_platform.Protocol.Request.{Intent, intent_name, is_valid_intent}
use pluto_agent_platform.Authority.Policy.{
  ActorMatcher, AuthorityPolicy, canonical_authority_policy, policy_ok,
}
use pluto_agent_platform.Authority.State.{TeamContext, InitialTask}
use pluto_agent_platform.Spec.Authored.{
  AuthoredActorRef, AuthoredActorMatcher, AuthoredInitialTask, AuthoredSpec, agentic, Segment, key,
  index, Result, ok, thrown, schema_error, ◌>>=◌, ◌>>◌, fail, unknown_actor, duplicate_task,
  policy_invalid, orchestration_invalid, OrchestrationMode,
}
use pluto_agent_platform.Spec.Roles.{compile_actor_ref, compile_matcher, quoted}

abbrev pub ActorMap : Type 0
ActorMap = List (String × ActorRef)

-- `Object.fromEntries(Object.entries(actors).map(...))`.
unfoldable pub compile_actors : List (String × AuthoredActorRef) → Result ActorMap
unfolding compile_actor_ref
compile_actors [] = ok []
compile_actors (entry ∷ entries) = do
  actor ← compile_actor_ref entry.0 entry.1
  rest ← compile_actors entries
  ok ((entry.0, actor) ∷ rest)

unfoldable pub compile_declared_actors : ActorMap → ℕ → List String → Result (List ActorRef)
unfolding lookup
compile_declared_actors actors n [] = ok []
compile_declared_actors actors n (name ∷ names) = elim (lookup name actors) [
  | none ↦
      fail unknown_actor ("Declared actor " <> quoted name <> " is not defined")
        (key "declaredActors" ∷ index n ∷ [])
  | some actor ↦ do rest ← compile_declared_actors actors (suc n) names; ok (actor ∷ rest)
]

abbrev task_path : ℕ → String → List Segment
task_path n field = key "initialTasks" ∷ index n ∷ key field ∷ []

unfoldable pub compile_owner :
    ActorMap → ℕ → AuthoredInitialTask → Option String → Result (Option ActorRef)
unfolding lookup
compile_owner actors n task none = ok none
compile_owner actors n task (some name) = elim (lookup name actors) [
  | none ↦
      fail unknown_actor
        ("Task " <> quoted task.task_id <> " references unknown owner " <> quoted name)
        (task_path n "ownerActor")
  | some actor ↦ ok (some actor)
]

-- `seen` are the ids of the tasks before.
unfoldable pub compile_initial_tasks :
    ActorMap → List String → ℕ → List AuthoredInitialTask → Result (List InitialTask)
unfolding compile_owner add
compile_initial_tasks actors seen n [] = ok []
compile_initial_tasks actors seen n (task ∷ tasks) = elim (has seen task.task_id) [
  | true ↦
      fail duplicate_task ("Task " <> quoted task.task_id <> " is declared more than once")
        (task_path n "taskId")
  | false ↦ do
    owner ← compile_owner actors n task task.owner_actor
    rest ← compile_initial_tasks actors (add seen task.task_id) (suc n) tasks
    ok (
        record {
          task_id = task.task_id;
          title = task.title;
          owner_actor = owner;
          depends_on = task.depends_on;
        }
        ∷ rest)
]

abbrev pub AuthoredPolicy : Type 0
AuthoredPolicy = List (String × List AuthoredActorMatcher)

unfoldable pub compile_matchers :
    Intent → ℕ → List AuthoredActorMatcher → Result (List ActorMatcher)
unfolding compile_matcher
compile_matchers intent n [] = ok []
compile_matchers intent n (matcher ∷ matchers) = do
  normalized ←
      compile_matcher intent matcher (key "policy" ∷ key (intent_name intent) ∷ index n ∷ [])
  rest ← compile_matchers intent (suc n) matchers
  ok (normalized ∷ rest)

unfoldable pub compile_intent : AuthoredPolicy → Intent → Result (List ActorMatcher)
unfolding compile_matchers lookup
compile_intent policy intent = elim (lookup (intent_name intent) policy) [
  | none ↦
      fail policy_invalid ("Policy is missing intent " <> quoted (intent_name intent))
        (key "policy" ∷ key (intent_name intent) ∷ [])
  | some matchers ↦ compile_matchers intent 0 matchers
]

-- The loop over the keys of the policy.
unfoldable pub known_intents : AuthoredPolicy → Result (Unit {0})
unfolding is_valid_intent
known_intents [] = ok tt
known_intents (entry ∷ policy) = elim (is_valid_intent entry.0) [
  | false ↦
      fail policy_invalid ("Policy contains unknown intent " <> quoted entry.0)
        (key "policy" ∷ key entry.0 ∷ [])
  | true ↦ known_intents policy
]

-- `TeamContextSchema.shape.policy.parse`.
abbrev pub parse_policy : AuthorityPolicy → Result AuthorityPolicy
parse_policy policy = if policy_ok policy then ok policy else thrown schema_error

-- `compilePolicy` behind the test of the number of keys.
unfoldable pub compile_intents : AuthoredPolicy → Result AuthorityPolicy
unfolding compile_intent known_intents policy_ok
compile_intents policy = do
  known_intents policy
  append ← compile_intent policy Intent.append_mailbox_message
  create ← compile_intent policy Intent.create_task
  change ← compile_intent policy Intent.change_task_state
  publish ← compile_intent policy Intent.publish_artifact
  complete ← compile_intent policy Intent.complete_run
  parse_policy (record {
    append_mailbox_message = append;
    create_task = create;
    change_task_state = change;
    publish_artifact = publish;
    complete_run = complete;
  })

unfoldable pub compile_policy : Option AuthoredPolicy → Result AuthorityPolicy
unfolding compile_intents policy_ok
compile_policy none = parse_policy canonical_authority_policy
compile_policy (some policy) =
    if not (nat_eq (length policy) 5)
    then fail policy_invalid "Policy must define every protocol intent exactly once"
        (key "policy" ∷ [])
    else compile_intents policy

-- `text == null || text.trim().length === 0`.
abbrev pub blank : Option String → Bool
blank none = true
blank (some text) = all is_space (codes text)

-- The code points in reverse, behind the white space at the end.
abbrev markdown_end : List ℕ → Bool
markdown_end (d ∷ m ∷ p ∷ rest) =
    (nat_eq d b'd' || nat_eq d b'D') && (nat_eq m b'm' || nat_eq m b'M') && nat_eq p b'.'
markdown_end _ = false

abbrev drop_spaces : List ℕ → List ℕ
drop_spaces [] = []
drop_spaces (c ∷ cs) = let rest = drop_spaces cs in if is_space c then rest else c ∷ cs

-- `text.trim().toLowerCase().endsWith('.md')`, where no other letter becomes m or d in lower case.
unfoldable pub ends_with_md : Option String → Bool
ends_with_md none = false
ends_with_md (some text) = markdown_end (drop_spaces (reverse (codes text)))

abbrev pub is_lead_role : Option AuthoredActorRef → Bool
is_lead_role (some (AuthoredActorRef.role r)) = r == "lead"
is_lead_role _ = false

abbrev pub is_manager_ref : Option AuthoredActorRef → Bool
is_manager_ref (some AuthoredActorRef.manager) = true
is_manager_ref _ = false

abbrev pub require : Bool → String → List Segment → Result (Unit {0})
require true message path = ok tt
require false message path = fail orchestration_invalid message path

unfoldable pub agentic_checks : AuthoredSpec → Result (Unit {0})
unfolding lookup ends_with_md
agentic_checks spec = do
  require (has spec.declared_actors "lead")
      "agentic orchestration requires declaredActors to include \"lead\""
      (key "declaredActors" ∷ [])
  require (is_lead_role (lookup "lead" spec.actors))
      "agentic orchestration requires actors.lead to be { kind: \"role\", role: \"lead\" }"
      (key "actors" ∷ key "lead" ∷ [])
  require (has spec.declared_actors "manager")
      "agentic orchestration requires declaredActors to include \"manager\""
      (key "declaredActors" ∷ [])
  require (is_manager_ref (lookup "manager" spec.actors))
      "agentic orchestration requires actors.manager to be { kind: \"manager\" }"
      (key "actors" ∷ key "manager" ∷ [])
  require (not (blank spec.user_task)) "agentic orchestration requires userTask to be non-empty"
      (key "userTask" ∷ [])
  require (not (blank spec.playbook_ref))
      "agentic orchestration requires playbookRef to be a non-empty markdown path"
      (key "playbookRef" ∷ [])
  require (ends_with_md spec.playbook_ref)
      "agentic orchestration requires playbookRef to reference a markdown file"
      (key "playbookRef" ∷ [])

abbrev pub checks_of_mode : Option OrchestrationMode → AuthoredSpec → Result (Unit {0})
checks_of_mode (some agentic) spec = agentic_checks spec
checks_of_mode _ spec = ok tt

unfoldable pub validate_agentic_orchestration : AuthoredSpec → Result (Unit {0})
unfolding agentic_checks
validate_agentic_orchestration spec = checks_of_mode spec.mode spec

-- `TeamContextSchema.parse`, of a typed value.
unfoldable pub team_context_ok : TeamContext → Bool
unfolding policy_ok
team_context_ok c =
    all role_of_ref c.declared_actors
    && all (λ t. owner_ok t) (map (λ t. t.owner_actor) c.initial_tasks)
    && policy_ok c.policy

abbrev pub parse_team_context : TeamContext → Result TeamContext
parse_team_context c = if team_context_ok c then ok c else thrown schema_error

unfoldable pub compile : AuthoredSpec → Result TeamContext
unfolding compile_actors validate_agentic_orchestration compile_declared_actors
    compile_initial_tasks compile_policy team_context_ok
compile spec = do
  actors ← compile_actors spec.actors
  validate_agentic_orchestration spec
  declared ← compile_declared_actors actors 0 spec.declared_actors
  tasks ← compile_initial_tasks actors [] 0 spec.initial_tasks
  policy ← compile_policy spec.policy
  parse_team_context (record {
    run_id = spec.run_id;
    scenario_ref = spec.scenario_ref;
    run_profile_ref = spec.run_profile_ref;
    declared_actors = declared;
    initial_tasks = tasks;
    policy = policy;
  })
