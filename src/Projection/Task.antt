-- ===== src/Projection/Task.antt =====
-- projections/task-projection.ts.
use pluto_agent_platform.Common.{
  String, Bool, Option, none, some, List, [], ◌∷◌, ◌++◌, ◌==◌, any, if◌then◌else◌,
}
use pluto_agent_platform.Common.Dict.{lookup, insert}
use pluto_agent_platform.Protocol.Actor.{ActorRef}
use pluto_agent_platform.Protocol.Event.{
  TaskState, EventBody, task_created, task_state_changed, TaskCreatedPayload,
  TaskStateChangedPayload, RunEvent,
}

-- `TaskProjectionTaskHistoryEntry` and `TaskProjectionTask`.
pub record HistoryEntry : Type 0 where
  pub from : TaskState
  pub to : TaskState
  pub event_id : String

pub record TaskView : Type 0 where
  pub title : String
  pub owner_actor : Option ActorRef
  pub state : TaskState
  pub depends_on : List String
  pub history : List HistoryEntry

-- `TaskReducerState`: the tasks of the view.
abbrev pub Tasks : Type 0
Tasks = List (String × TaskView)

abbrev pub new_task_view : TaskCreatedPayload → TaskView
new_task_view p = record {
  title = p.title;
  owner_actor = p.owner_actor;
  state = TaskState.queued;
  depends_on = p.depends_on;
  history = [];
}

-- `existingTask.history.some((entry) => entry.eventId === event.eventId)`.
abbrev pub in_history : TaskView → String → Bool
in_history t id = any (λ entry. entry.event_id == id) t.history

abbrev pub moved_view : TaskView → TaskStateChangedPayload → String → TaskView
moved_view t p id = record t {
  state = p.to;
  history = t.history ++ record { from = p.from; to = p.to; event_id = id } ∷ [];
}

abbrev create_view : Option TaskView → TaskCreatedPayload → Tasks → Tasks
create_view (some t) p tasks = tasks
create_view none p tasks = insert p.task_id (new_task_view p) tasks

abbrev change_view : Option TaskView → TaskStateChangedPayload → String → Tasks → Tasks
change_view none p id tasks = tasks
change_view (some t) p id tasks =
    if in_history t id then tasks else insert p.task_id (moved_view t p id) tasks

abbrev pub apply_to_tasks : Tasks → String → EventBody → Tasks
apply_to_tasks tasks id (task_created p) = create_view (lookup p.task_id tasks) p tasks
apply_to_tasks tasks id (task_state_changed p) = change_view (lookup p.task_id tasks) p id tasks
apply_to_tasks tasks id _ = tasks

unfoldable pub task_reducer : Tasks → RunEvent → Tasks
task_reducer tasks event = apply_to_tasks tasks event.event_id event.body
