-- ===== src/Authority/Policy.antt =====
-- The authority policy of core/team-context.ts: for each intent the matchers that grant it.
use pluto_agent_platform.Common.{String, List, [], ◌∷◌, Bool, all, true, ◌&&◌}
use pluto_agent_platform.Protocol.Event.{TaskState, blocked}
use pluto_agent_platform.Protocol.Request.{Intent}
use pluto_agent_platform.Protocol.Actor.{is_actor_role}

-- The roles that `role-owns-task` allows.
pub data OwningRole : Type 0 where
  generator evaluator : OwningRole

-- `role-bounded-transitions` has one value: its schema fixes the role and the transitions.
pub data ActorMatcher : Type 0 where
  manager : ActorMatcher
  role : String → ActorMatcher
  system : ActorMatcher
  role_owns_task : OwningRole → ActorMatcher
  role_bounded_transitions : ActorMatcher

abbrev pub owning_role_name : OwningRole → String
owning_role_name generator = "generator"
owning_role_name evaluator = "evaluator"

abbrev pub bounded_role : String
bounded_role = "planner"

abbrev pub bounded_transitions : List TaskState
bounded_transitions = blocked ∷ TaskState.cancelled ∷ []

pub record AuthorityPolicy : Type 0 where
  pub append_mailbox_message : List ActorMatcher
  pub create_task : List ActorMatcher
  pub change_task_state : List ActorMatcher
  pub publish_artifact : List ActorMatcher
  pub complete_run : List ActorMatcher

-- `policy[intent]`.
abbrev pub matchers_for : AuthorityPolicy → Intent → List ActorMatcher
matchers_for p Intent.append_mailbox_message = p.append_mailbox_message
matchers_for p Intent.create_task = p.create_task
matchers_for p Intent.change_task_state = p.change_task_state
matchers_for p Intent.publish_artifact = p.publish_artifact
matchers_for p Intent.complete_run = p.complete_run

abbrev pub canonical_authority_policy : AuthorityPolicy
canonical_authority_policy = record {
  append_mailbox_message =
      manager ∷ role "lead" ∷ role "planner" ∷ role "generator" ∷ role "evaluator" ∷ system ∷ [];
  create_task = manager ∷ role "lead" ∷ role "planner" ∷ [];
  change_task_state =
      manager
      ∷ role "lead"
      ∷ role_owns_task generator
      ∷ role_owns_task evaluator
      ∷ role_bounded_transitions
      ∷ [];
  publish_artifact = role "generator" ∷ role "lead" ∷ manager ∷ [];
  complete_run = manager ∷ [];
}

-- `ActorMatcherSchema` and `AuthorityPolicySchema`, of typed values: the pattern of the roles.
abbrev pub matcher_ok : ActorMatcher → Bool
matcher_ok (role r) = is_actor_role r
matcher_ok _ = true

unfoldable pub policy_ok : AuthorityPolicy → Bool
unfolding is_actor_role
policy_ok p =
    all matcher_ok p.append_mailbox_message
    && all matcher_ok p.create_task
    && all matcher_ok p.change_task_state
    && all matcher_ok p.publish_artifact
    && all matcher_ok p.complete_run
