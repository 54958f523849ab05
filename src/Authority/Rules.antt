-- ===== src/Authority/Rules.antt =====
-- core/authority.ts.
use pluto_agent_platform.Common.{
  String, Bool, true, false, ◌&&◌, Option, none, some, List, [], ◌∷◌, ◌==◌, any, all, is_some, not,
  ◌||◌,
}
use pluto_agent_platform.Common.Dict.{lookup, has}
use pluto_agent_platform.Common.Text.{◌<>◌}
use pluto_agent_platform.Protocol.Actor.{ActorRef, actor_key}
use pluto_agent_platform.Protocol.Event.{
  TaskState, queued, running, blocked, completed, failed, cancelled,
}
use pluto_agent_platform.Protocol.Request.{
  Intent, RequestBody, create_task, change_task_state, ChangeTaskStatePayload, ProtocolRequest,
  intent_of, intent_name,
}
use pluto_agent_platform.Authority.Policy.{
  ActorMatcher, role_owns_task, role_bounded_transitions, owning_role_name, bounded_role,
  bounded_transitions, matchers_for,
}
use pluto_agent_platform.Authority.State.{RunState, RunStateTask}

-- `TRANSITION_GRAPH`.
unfoldable pub transition_graph : TaskState → List TaskState
transition_graph queued = running ∷ blocked ∷ completed ∷ failed ∷ cancelled ∷ []
transition_graph running = completed ∷ blocked ∷ failed ∷ cancelled ∷ []
transition_graph blocked = running ∷ completed ∷ failed ∷ cancelled ∷ []
transition_graph completed = []
transition_graph failed = []
transition_graph cancelled = []

abbrev pub same_state : TaskState → TaskState → Bool
same_state queued queued = true
same_state running running = true
same_state blocked blocked = true
same_state completed completed = true
same_state failed failed = true
same_state cancelled cancelled = true
same_state _ _ = false

-- `states.includes(to)`.
abbrev includes : List TaskState → TaskState → Bool
includes states to = any (same_state to) states

unfoldable pub transition_legal : TaskState → TaskState → Bool
unfolding transition_graph
transition_legal from to = includes (transition_graph from) to

unfoldable pub has_task : RunState → String → Bool
unfolding lookup
has_task state task_id = is_some (lookup task_id state.tasks)

-- The validator's own `sameActor`: it compares the keys.
unfoldable pub same_actor_key : ActorRef → ActorRef → Bool
unfolding actor_key
same_actor_key left right = actor_key left == actor_key right

unfoldable pub actor_matches_role : ActorRef → String → Bool
actor_matches_role (ActorRef.role r) role = r == role
actor_matches_role _ role = false

abbrev pub owned_by : Option ActorRef → ActorRef → Bool
owned_by none actor = false
owned_by (some owner) actor = same_actor_key owner actor

-- A task that is not there is left to the check of the entity; `matcher_throws` has the names for which
-- the read finds something that is no task.
abbrev pub owns : Option RunStateTask → ActorRef → Bool
owns none actor = true
owns (some t) actor = owned_by t.owner_actor actor

unfoldable pub role_owns_task_authorized :
    RunState → ActorRef → ChangeTaskStatePayload → String → Bool
role_owns_task_authorized state actor request role =
    actor_matches_role actor role && owns (lookup request.task_id state.tasks) actor

unfoldable pub role_bounded_transition_authorized : ActorRef → ChangeTaskStatePayload → Bool
role_bounded_transition_authorized actor request =
    actor_matches_role actor bounded_role && includes bounded_transitions request.to

abbrev is_manager : ActorRef → Bool
is_manager ActorRef.manager = true
is_manager _ = false

abbrev is_system : ActorRef → Bool
is_system ActorRef.system = true
is_system _ = false

unfoldable pub matcher_matches : RunState → ActorRef → RequestBody → ActorMatcher → Bool
matcher_matches state actor body ActorMatcher.manager = is_manager actor
matcher_matches state actor body ActorMatcher.system = is_system actor
matcher_matches state actor body (ActorMatcher.role r) = actor_matches_role actor r
matcher_matches state actor (change_task_state p) (role_owns_task r) =
    role_owns_task_authorized state actor p (owning_role_name r)
matcher_matches state actor body (role_owns_task r) = false
matcher_matches state actor (change_task_state p) role_bounded_transitions =
    role_bounded_transition_authorized actor p
matcher_matches state actor body role_bounded_transitions = false

-- The names that every object inherits from `Object.prototype`.
abbrev pub inherited_names : List String
inherited_names =
    "constructor" ∷ "toString" ∷ "toLocaleString" ∷ "valueOf" ∷ "hasOwnProperty" ∷ "isPrototypeOf"
    ∷ "propertyIsEnumerable" ∷ "__proto__" ∷ "__defineGetter__" ∷ "__defineSetter__"
    ∷ "__lookupGetter__" ∷ "__lookupSetter__" ∷ []

-- `state.tasks[taskId]` reads what the object inherits where no task has the name.
unfoldable pub reads_inherited : RunState → String → Bool
unfolding has_task
reads_inherited state task_id = not (has_task state task_id) && has inherited_names task_id

-- What is inherited has no owner that is null, and `sameActor` throws a TypeError on its undefined owner.
unfoldable pub matcher_throws : RunState → ActorRef → RequestBody → ActorMatcher → Bool
matcher_throws state actor (change_task_state p) (role_owns_task r) =
    actor_matches_role actor (owning_role_name r) && reads_inherited state p.task_id
matcher_throws state actor body matcher = false

-- `some` asks the matchers in their order, up to the first that matches or throws.
unfoldable pub some_throws : RunState → ActorRef → RequestBody → List ActorMatcher → Bool
some_throws state actor body [] = false
some_throws state actor body (m ∷ ms) =
    let rest = some_throws state actor body ms in
    matcher_throws state actor body m || (not (matcher_matches state actor body m) && rest)

-- Where `actorAuthorizedForIntent` throws, and with it `validate`.
unfoldable pub authorization_throws : RunState → ProtocolRequest → Bool
authorization_throws state request =
    has state.declared_actors (actor_key request.actor)
    && some_throws state request.actor request.body
        (matchers_for state.policy (intent_of request.body))

unfoldable pub actor_authorized_for_intent : RunState → ProtocolRequest → Bool
actor_authorized_for_intent state request =
    has state.declared_actors (actor_key request.actor)
    && any (matcher_matches state request.actor request.body)
        (matchers_for state.policy (intent_of request.body))

unfoldable pub compose_request_key : String → ActorRef → Intent → Option String → Option String
unfolding actor_key
compose_request_key run_id actor intent none = none
compose_request_key run_id actor intent (some key) =
    some (run_id <> "|" <> actor_key actor <> "|" <> intent_name intent <> "|" <> key)

unfoldable pub entity_resolvable : RunState → RequestBody → Bool
unfolding has_task
entity_resolvable state (change_task_state p) = has_task state p.task_id
entity_resolvable state (create_task p) = all (has_task state) p.depends_on
entity_resolvable state _ = true
