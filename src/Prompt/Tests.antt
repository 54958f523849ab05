-- ===== src/Prompt/Tests.antt =====
-- A delta of a small log, and instances of the theorems.
use pluto_agent_platform.Runtime.Waits
use pluto_agent_platform.Prompt.Wakes.{compute_wakeup_delta-wakes}
use pluto_agent_platform.Common.{filter, true, ◌++◌}
use pluto_agent_platform.Protocol.Actor.{ActorRef}
use pluto_agent_platform.Common.{◌≡◌, refl, [], ◌∷◌, some, none, length, List}
use pluto_agent_platform.Common.Int.{minus_one, pos}
use pluto_agent_platform.Samples.{generator, created_event, running_event, message_event}
use pluto_agent_platform.Protocol.Parse.{null}
use pluto_agent_platform.Prompt.Views.{
  TaskView, PromptView, units_of, truncate, WakeupPromptDelta, task_view, MailboxMessageView,
  mailbox_view,
}
use pluto_agent_platform.Prompt.Limits.{Bounded, compute_wakeup_delta-Bounded}
use pluto_agent_platform.Prompt.Reports.{Shows, compute_wakeup_delta-tasks}
use pluto_agent_platform.Prompt.Delta.{compute_wakeup_delta, tasks_by_id}
use pluto_agent_platform.Protocol.Event.{
  RunEvent, MailboxMessageKind, MailboxMessageAppendedPayload, Recipient,
}
use pluto_agent_platform.Prompt.Delivers.{wakes-delivers}
use pluto_agent_platform.Prompt.Orders.{in_order, created_since, changed_since, entries, unlisted}

abbrev build : TaskView
build = record {
  id = "t1";
  title = units_of "build";
  owner_actor = some generator;
  state = "running";
}

abbrev view : PromptView
view = record {
  tasks = build ∷ [];
  mailbox = [];
  artifacts = [];
  active_delegation = some generator;
  budgets = null;
  last_rejection = none;
}

abbrev log : List RunEvent
log = created_event ∷ running_event ∷ message_event ∷ []

abbrev delta : WakeupPromptDelta
delta = compute_wakeup_delta log minus_one generator view

-- The delta since the first event, for the sender of the message; and a title that is cut.
deltas :
    (delta.new_tasks ≡ build ∷ [])
    × (delta.updated_tasks ≡ [])
    × (length delta.new_mailbox ≡ 1)
    × ((compute_wakeup_delta log (pos 0) generator view).updated_tasks ≡ build ∷ [])
    × ((compute_wakeup_delta log (pos 0) (ActorRef.role "planner") view).new_mailbox ≡ [])
    × (truncate (units_of "abcdefghijklmnopqrstuvwxyz") 20 ≡ units_of "abcd...[truncated]")
unfolding compute_wakeup_delta
deltas = (refl, refl, refl, refl, refl, refl)

compute_wakeup_delta-Bounded_example : Bounded delta
compute_wakeup_delta-Bounded_example = compute_wakeup_delta-Bounded log minus_one generator view

compute_wakeup_delta-tasks_example :
    let tasks = tasks_by_id [] view.tasks in
    let made = in_order [] (created_since minus_one log) in
    let changed = in_order [] (changed_since minus_one log) in
    Shows task_view (entries tasks made) delta.new_tasks
    × Shows task_view (entries tasks (filter (unlisted made) changed)) delta.updated_tasks
compute_wakeup_delta-tasks_example = compute_wakeup_delta-tasks log minus_one generator view

compute_wakeup_delta-wakes_example :
    delta
    ≡ compute_wakeup_delta (filter (Waits.wakes generator minus_one) log) minus_one generator view
compute_wakeup_delta-wakes_example = compute_wakeup_delta-wakes log minus_one generator view

abbrev message : MailboxMessageAppendedPayload
message = record {
  request = record {
    from_actor = generator;
    to_actor = Recipient.actor (ActorRef.role "lead");
    kind = MailboxMessageKind.completion;
    body = "done";
  };
  message_id = "m1";
}

message-wakes : Waits.wakes generator minus_one message_event ≡ true
unfolding Waits.wakes
message-wakes = refl

wakes-delivers_example :
    (earlier : List MailboxMessageView) × (delta.new_mailbox
      ≡ earlier
        ++ mailbox_view (record {
          sequence = 2;
          from = generator;
          to = ActorRef.role "lead";
          kind = MailboxMessageKind.completion;
          body = units_of "done";
        })
          ∷ [])
wakes-delivers_example =
    wakes-delivers (created_event ∷ running_event ∷ []) message_event minus_one generator view
      message (ActorRef.role "lead") refl refl refl (refl, (refl, tt)) message-wakes
