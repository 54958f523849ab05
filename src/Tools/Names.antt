-- ===== src/Tools/Names.antt =====
-- The names of tools/pluto-tool-schemas.ts, and the kinds of events.
use pluto_agent_platform.Common.{String, Bool, ◌==◌}
use pluto_agent_platform.Protocol.Event.{EventBody}

-- `PLUTO_TOOL_NAMES`.
pub data PlutoToolName : Type 0 where
  create_task change_task_state append_mailbox_message publish_artifact : PlutoToolName
  complete_run read_state read_artifact read_transcript : PlutoToolName

-- The kind of an event.
pub data EventKind : Type 0 where
  run_started run_completed mailbox_message_appended task_created : EventKind
  task_state_changed artifact_published request_rejected : EventKind

abbrev pub kind_of : EventBody → EventKind
kind_of (EventBody.run_started p) = EventKind.run_started
kind_of (EventBody.run_completed p) = EventKind.run_completed
kind_of (EventBody.mailbox_message_appended p) = EventKind.mailbox_message_appended
kind_of (EventBody.task_created p) = EventKind.task_created
kind_of (EventBody.task_state_changed p) = EventKind.task_state_changed
kind_of (EventBody.artifact_published p) = EventKind.artifact_published
kind_of (EventBody.request_rejected p) = EventKind.request_rejected

abbrev pub event_kind_name : EventKind → String
event_kind_name EventKind.run_started = "run_started"
event_kind_name EventKind.run_completed = "run_completed"
event_kind_name EventKind.mailbox_message_appended = "mailbox_message_appended"
event_kind_name EventKind.task_created = "task_created"
event_kind_name EventKind.task_state_changed = "task_state_changed"
event_kind_name EventKind.artifact_published = "artifact_published"
event_kind_name EventKind.request_rejected = "request_rejected"

abbrev pub same_kind : EventKind → EventKind → Bool
same_kind a b = event_kind_name a == event_kind_name b
