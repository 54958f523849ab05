-- ===== src/Spec/Roles.antt =====
-- `compileRole`, `compileActorRef`, `assertTransitions`, `matcherAllowedForIntent` and
-- `compileMatcher` of core/spec-compiler.ts.
use pluto_agent_platform.Common.{
  String, Bool, true, false, ◌||◌, not, List, [], ◌∷◌, ◌++◌, ◌==◌, is_some, if◌then◌else◌,
}
use pluto_agent_platform.Common.Text.{◌<>◌}
use pluto_agent_platform.Protocol.Actor.{ActorRef, is_actor_role}
use pluto_agent_platform.Protocol.Request.{Intent, intent_name}
use pluto_agent_platform.Protocol.Parse.{keyword, task_states}
use pluto_agent_platform.Authority.Policy.{ActorMatcher, generator, evaluator}
use pluto_agent_platform.Spec.Authored.{
  AuthoredActorRef, AuthoredActorMatcher, Segment, key, Result, ok, ◌>>=◌, ◌>>◌, fail,
  intent_payload_mismatch, actor_role_unknown,
}

abbrev pub quoted : String → String
quoted s = "\"" <> s <> "\""

unfoldable pub compile_role : String → List Segment → Result String
unfolding is_actor_role
compile_role role path =
    if is_actor_role role
    then ok role
    else fail actor_role_unknown ("Invalid role " <> quoted role) path

unfoldable pub compile_actor_ref : String → AuthoredActorRef → Result ActorRef
unfolding compile_role
compile_actor_ref name AuthoredActorRef.manager = ok ActorRef.manager
compile_actor_ref name AuthoredActorRef.system = ok ActorRef.system
compile_actor_ref name (AuthoredActorRef.role r) = do
  role ← compile_role r (key "actors" ∷ key name ∷ key "role" ∷ [])
  ok (ActorRef.role role)

-- `isTaskState`.
abbrev pub is_task_state : String → Bool
is_task_state s = is_some (keyword task_states s)

-- A schema lets every item be a text, so that neither is null where there are two.
unfoldable pub assert_transitions : List String → List Segment → Result (Unit {0})
assert_transitions (first ∷ second ∷ []) path =
    if not (is_task_state first) || not (is_task_state second)
    then fail intent_payload_mismatch "Planner transition matcher contains an unknown task state"
        path
    else if not (first == "blocked") || not (second == "cancelled")
    then fail intent_payload_mismatch
        "Planner transition matcher must be [\"blocked\", \"cancelled\"]" path
    else ok tt
assert_transitions _ path =
    fail intent_payload_mismatch "Planner transition matcher must contain exactly two transitions"
      path

unfoldable pub matcher_allowed_for_intent : Intent → ActorMatcher → Bool
matcher_allowed_for_intent Intent.append_mailbox_message ActorMatcher.manager = true
matcher_allowed_for_intent Intent.append_mailbox_message ActorMatcher.system = true
matcher_allowed_for_intent Intent.append_mailbox_message (ActorMatcher.role r) = true
matcher_allowed_for_intent Intent.create_task ActorMatcher.manager = true
matcher_allowed_for_intent Intent.create_task (ActorMatcher.role r) = true
matcher_allowed_for_intent Intent.change_task_state ActorMatcher.manager = true
matcher_allowed_for_intent Intent.change_task_state (ActorMatcher.role r) = true
matcher_allowed_for_intent Intent.change_task_state (ActorMatcher.role_owns_task o) = true
matcher_allowed_for_intent Intent.change_task_state ActorMatcher.role_bounded_transitions = true
matcher_allowed_for_intent Intent.publish_artifact ActorMatcher.manager = true
matcher_allowed_for_intent Intent.publish_artifact (ActorMatcher.role r) = true
matcher_allowed_for_intent Intent.complete_run ActorMatcher.manager = true
matcher_allowed_for_intent _ _ = false

abbrev kind_name : ActorMatcher → String
kind_name ActorMatcher.manager = "manager"
kind_name ActorMatcher.system = "system"
kind_name (ActorMatcher.role r) = "role"
kind_name (ActorMatcher.role_owns_task o) = "role-owns-task"
kind_name ActorMatcher.role_bounded_transitions = "role-bounded-transitions"

unfoldable pub owning_role : String → List Segment → Result ActorMatcher
owning_role role path =
    if role == "generator"
    then ok (ActorMatcher.role_owns_task generator)
    else if role == "evaluator"
    then ok (ActorMatcher.role_owns_task evaluator)
    else fail intent_payload_mismatch
        ("role-owns-task matcher does not support role " <> quoted role) path

unfoldable pub planning_role : String → List Segment → Result (Unit {0})
planning_role role path =
    if role == "planner"
    then ok tt
    else fail intent_payload_mismatch
        ("role-bounded-transitions matcher does not support role " <> quoted role) path

-- The switch of `compileMatcher`.
unfoldable pub normalize_matcher : AuthoredActorMatcher → List Segment → Result ActorMatcher
unfolding compile_role owning_role planning_role assert_transitions
normalize_matcher AuthoredActorMatcher.manager path = ok ActorMatcher.manager
normalize_matcher AuthoredActorMatcher.system path = ok ActorMatcher.system
normalize_matcher (AuthoredActorMatcher.role r) path = do
  role ← compile_role r (path ++ key "role" ∷ [])
  ok (ActorMatcher.role role)
normalize_matcher (AuthoredActorMatcher.role_owns_task r) path = do
  role ← compile_role r (path ++ key "role" ∷ [])
  owning_role role (path ++ key "role" ∷ [])
normalize_matcher (AuthoredActorMatcher.role_bounded_transitions r transitions) path = do
  role ← compile_role r (path ++ key "role" ∷ [])
  planning_role role (path ++ key "role" ∷ [])
  assert_transitions transitions (path ++ key "transitions" ∷ [])
  ok ActorMatcher.role_bounded_transitions

abbrev pub checked_matcher : Intent → ActorMatcher → List Segment → Result ActorMatcher
checked_matcher intent matcher path =
    if matcher_allowed_for_intent intent matcher
    then ok matcher
    else fail intent_payload_mismatch
        ("Matcher kind "
          <> quoted (kind_name matcher)
          <> " is not valid for intent "
          <> quoted (intent_name intent))
        path

unfoldable pub compile_matcher : Intent → AuthoredActorMatcher → List Segment → Result ActorMatcher
unfolding normalize_matcher matcher_allowed_for_intent
compile_matcher intent matcher path = do
  normalized ← normalize_matcher matcher path
  checked_matcher intent normalized path
