-- ===== src/Runtime/Scheduler.antt =====
-- adapters/paseo/agentic-scheduler.ts. An `AgenticMutation` is the body of a
-- request.
use pluto_agent_platform.Common.{
  ℕ, suc, String, Bool, true, false, ◌&&◌, Option, none, some, ltb, leb, ◌==◌, or_else,
  if◌then◌else◌, ◌||◌,
}
use pluto_agent_platform.Protocol.Actor.{ActorRef, same_actor, is_lead_actor}
use pluto_agent_platform.Protocol.Event.{
  TaskState, Outcome, accepted, rejected, EventBody, mailbox_message_appended, task_created,
  task_state_changed, RunEvent, Recipient, broadcast, MailboxMessageKind,
}
use pluto_agent_platform.Protocol.Request.{RequestBody, append_mailbox_message, create_task}

-- `PaseoAgenticSchedulerState`. A rejection is the directive and the error.
pub record SchedulerState : Type 0 where
  pub turn_index : ℕ
  pub max_turns : ℕ
  pub current_actor : ActorRef
  pub delegation_pointer : Option ActorRef
  pub delegation_task_id : Option String
  pub kernel_rejections : ℕ
  pub no_progress_turns : ℕ
  pub last_rejection : Option (RequestBody × String)
  pub max_kernel_rejections : ℕ
  pub max_no_progress_turns : ℕ

pub record Decision : Type 0 where
  pub actor : ActorRef
  pub delegation_pointer : Option ActorRef
  pub delegation_task_id : Option String
  pub progressed : Bool

abbrev pub lead_actor : ActorRef
lead_actor = ActorRef.role "lead"

abbrev pub terminal_task_state : TaskState → Bool
terminal_task_state TaskState.completed = true
terminal_task_state TaskState.cancelled = true
terminal_task_state TaskState.failed = true
terminal_task_state _ = false

abbrev pub is_accepted : Outcome → Bool
is_accepted accepted = true
is_accepted rejected = false

abbrev pub closing_kind : MailboxMessageKind → Bool
closing_kind MailboxMessageKind.completion = true
closing_kind MailboxMessageKind.final = true
closing_kind _ = false

-- `toActor.kind !== 'broadcast' && sameActor(toActor, leadActor)`.
abbrev pub addressed_to : Recipient → ActorRef → Bool
addressed_to broadcast lead = false
addressed_to (Recipient.actor a) lead = same_actor a lead

abbrev pub closes_body : EventBody → Outcome → ActorRef → Bool
closes_body (mailbox_message_appended p) outcome lead =
    is_accepted outcome && addressed_to p.to_actor lead && closing_kind p.kind
closes_body _ outcome lead = false

unfoldable pub closes_delegation_mailbox_message : RunEvent → ActorRef → Bool
unfolding same_actor
closes_delegation_mailbox_message event lead = closes_body event.body event.outcome lead

unfoldable pub budget_failure : SchedulerState → Option String
budget_failure s =
    if leb s.max_turns s.turn_index
    then some "maxTurns exhausted"
    else if ltb s.max_no_progress_turns s.no_progress_turns
    then some "maxNoProgressTurns exhausted"
    else if ltb s.max_kernel_rejections s.kernel_rejections
    then some "maxKernelRejections exhausted"
    else none

-- The actor to whom a directive of the lead hands the turn over.
abbrev other_than : ActorRef → ActorRef → Option ActorRef
other_than lead a = if same_actor a lead then none else some a

abbrev pub created_owner : ActorRef → RequestBody → Option ActorRef
created_owner lead (create_task p) = elim p.owner_actor [ none ↦ none | some a ↦ other_than lead a ]
created_owner lead _ = none

abbrev role_recipient : ActorRef → Recipient → Option ActorRef
role_recipient lead (Recipient.actor (ActorRef.role r)) = other_than lead (ActorRef.role r)
role_recipient lead _ = none

abbrev pub messaged_role : ActorRef → RequestBody → Option ActorRef
messaged_role lead (append_mailbox_message p) = role_recipient lead p.to_actor
messaged_role lead _ = none

abbrev pub created_task_id : EventBody → Outcome → Option String
created_task_id (task_created p) accepted = some p.task_id
created_task_id _ _ = none

abbrev hand_over : ActorRef → Option String → Decision
hand_over a id = record {
  actor = a;
  delegation_pointer = some a;
  delegation_task_id = id;
  progressed = true;
}

abbrev return_to : ActorRef → Decision
return_to lead = record {
  actor = lead;
  delegation_pointer = none;
  delegation_task_id = none;
  progressed = true;
}

abbrev pub is_task : Option String → String → Bool
is_task none id = false
is_task (some task) id = id == task

abbrev pub closes_task : EventBody → Outcome → Option String → Bool
closes_task (task_state_changed p) outcome task =
    is_accepted outcome && is_task task p.task_id && terminal_task_state p.to
closes_task _ outcome task = false

-- The branch of the lead, at the owner of a created task and the recipient of a message.
abbrev pub lead_choice :
    SchedulerState → RunEvent → ActorRef → Option ActorRef → Option ActorRef → Decision
lead_choice s event lead (some a) _ = hand_over a (created_task_id event.body event.outcome)
lead_choice s event lead none (some a) = hand_over a none
lead_choice s event lead none none = record {
  actor = lead;
  delegation_pointer = s.delegation_pointer;
  delegation_task_id = s.delegation_task_id;
  progressed = is_accepted event.outcome;
}

-- What gives the turn back to the lead.
unfoldable pub closes_delegation : SchedulerState → RunEvent → ActorRef → Bool
unfolding closes_delegation_mailbox_message
closes_delegation s event lead =
    closes_task event.body event.outcome s.delegation_task_id
    || closes_delegation_mailbox_message event lead

abbrev pub pick_from_delegate : SchedulerState → RunEvent → ActorRef → Decision
pick_from_delegate s event lead =
    if closes_delegation s event lead then return_to lead else record {
      actor = s.current_actor;
      delegation_pointer = some (or_else s.delegation_pointer s.current_actor);
      delegation_task_id = s.delegation_task_id;
      progressed = is_accepted event.outcome;
    }

-- `pickNextAgenticSchedulerActor`.
unfoldable pub pick_next : SchedulerState → RunEvent → RequestBody → ActorRef → Decision
unfolding same_actor is_lead_actor
pick_next s event directive lead =
    if is_lead_actor s.current_actor
    then lead_choice s event lead (created_owner lead directive) (messaged_role lead directive)
    else pick_from_delegate s event lead

unfoldable pub with_kernel_rejection :
    SchedulerState → RequestBody × String → ActorRef → SchedulerState
with_kernel_rejection s rejection lead = record s {
  current_actor = lead;
  delegation_pointer = none;
  delegation_task_id = none;
  kernel_rejections = suc s.kernel_rejections;
  no_progress_turns = suc s.no_progress_turns;
  last_rejection = some rejection;
}
