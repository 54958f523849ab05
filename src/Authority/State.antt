-- ===== src/Authority/State.antt =====
-- core/run-state.ts, and the team context of core/team-context.ts from which a run starts.
use pluto_agent_platform.Common.{String, Option, List, [], ◌∷◌, map}
use pluto_agent_platform.Common.Int.{ℤ, minus_one}
use pluto_agent_platform.Common.Dict.{insert, add}
use pluto_agent_platform.Protocol.Actor.{ActorRef, actor_key}
use pluto_agent_platform.Protocol.Event.{TaskState, queued}
use pluto_agent_platform.Authority.Policy.{AuthorityPolicy}

pub data RunStatus : Type 0 where
  initialized running completed failed cancelled : RunStatus

pub record RunStateTask : Type 0 where
  pub state : TaskState
  pub owner_actor : Option ActorRef

-- `tasks` is read at own properties only: a task id is not the name of a property that every object
-- inherits.
pub record RunState : Type 0 where
  pub run_id : String
  pub sequence : ℤ
  pub status : RunStatus
  pub tasks : List (String × RunStateTask)
  pub accepted_request_keys : List String
  pub declared_actors : List String
  pub policy : AuthorityPolicy

pub record InitialTask : Type 0 where
  pub task_id : String
  pub title : String
  pub owner_actor : Option ActorRef
  pub depends_on : List String

pub record TeamContext : Type 0 where
  pub run_id : String
  pub scenario_ref : String
  pub run_profile_ref : String
  pub declared_actors : List ActorRef
  pub initial_tasks : List InitialTask
  pub policy : AuthorityPolicy

-- `Object.fromEntries`: a later entry overwrites an earlier one.
unfoldable pub initial_tasks_from :
    List (String × RunStateTask) → List InitialTask → List (String × RunStateTask)
unfolding insert
initial_tasks_from m [] = m
initial_tasks_from m (t ∷ ts) =
    initial_tasks_from (insert t.task_id (record { state = queued; owner_actor = t.owner_actor }) m)
      ts

unfoldable pub set_of : List String → List String → List String
unfolding add
set_of s [] = s
set_of s (x ∷ xs) = set_of (add s x) xs

unfoldable pub initial_state : TeamContext → RunState
unfolding initial_tasks_from set_of actor_key
initial_state c = record {
  run_id = c.run_id;
  sequence = minus_one;
  status = RunStatus.initialized;
  tasks = initial_tasks_from [] c.initial_tasks;
  accepted_request_keys = [];
  declared_actors = set_of [] (map actor_key c.declared_actors);
  policy = c.policy;
}
