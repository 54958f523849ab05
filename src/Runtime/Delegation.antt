-- ===== src/Runtime/Delegation.antt =====
-- Who has the turn: the lead hands it over, and gets it back.
use pluto_agent_platform.Common.{
  String, true, false, ◌≡◌, ◌⊎◌, ◌↔◌, inl, inr, refl, arith, none, some, Option, Bool-cases,
  or_else, eq_iff, ap, sym, ◌∙◌, eq_refl,
}
use pluto_agent_platform.Protocol.Actor.{ActorRef, is_lead_actor, same_actor}
use pluto_agent_platform.Protocol.Keys.{same_actor_iff}
use pluto_agent_platform.Protocol.Event.{
  RunEvent, accepted, EventBody, task_state_changed, mailbox_message_appended,
  TaskStateChangedPayload, MailboxMessageAppendedPayload, Recipient, broadcast, MailboxMessageKind,
}
use pluto_agent_platform.Protocol.Request.{RequestBody}
use pluto_agent_platform.Runtime.Scheduler.{
  lead_choice, pick_from_delegate, addressed_to, is_task, SchedulerState, Decision, lead_actor,
  pick_next, with_kernel_rejection, created_owner, messaged_role, closes_delegation,
  terminal_task_state, closes_delegation_mailbox_message,
}
use pluto_agent_platform.Runtime.LoopState.{Limits, initial_loop_state}
use pluto_agent_platform.Runtime.Driver.{
  Turn, take_turn, continues, rejected_turn, silent_turn, accepted_turn, Visits, begins, goes_on,
}
use pluto_agent_platform.Runtime.Turns.{take_turn-Passes, rejects, waits, accepts}

-- The turn is the lead's, or the delegation points at the actor that has it.
abbrev pub Delegated : SchedulerState → Type 0
Delegated s = (s.current_actor ≡ lead_actor) ⊎ (s.delegation_pointer ≡ some s.current_actor)

abbrev Points : Decision → Type 0
Points d = (d.actor ≡ lead_actor) ⊎ (d.delegation_pointer ≡ some d.actor)

lead_choice-Points :
    (s : SchedulerState) (e : RunEvent) (owner recipient : Option ActorRef)
    → Points (lead_choice s e lead_actor owner recipient)
lead_choice-Points s e (some a) r = inr refl
lead_choice-Points s e none (some a) = inr refl
lead_choice-Points s e none none = inl refl

pick_from_delegate-Points :
    (s : SchedulerState) (e : RunEvent) → Delegated s → Points (pick_from_delegate s e lead_actor)
pick_from_delegate-Points s e v = elim (Bool-cases (closes_delegation s e lead_actor)) [
  | inl closes ↦ rw closes (inl refl)
  | inr stays ↦ rw stays (elim v [
    | inl is_lead ↦ inl is_lead
    | inr points ↦ inr (ap (λ o. some (or_else o s.current_actor)) points)
  ])
]

pick_next-Points :
    (s : SchedulerState) (e : RunEvent) (d : RequestBody)
    → Delegated s
    → Points (pick_next s e d lead_actor)
unfolding pick_next
pick_next-Points s e d v = elim (Bool-cases (is_lead_actor s.current_actor)) [
  | inl lead ↦
      rw lead (lead_choice-Points s e (created_owner lead_actor d) (messaged_role lead_actor d))
  | inr delegate ↦ rw delegate (pick_from_delegate-Points s e v)
]

take_turn-Delegated :
    (s s' : SchedulerState) (t : Turn) → take_turn s t ≡ continues s' → Delegated s → Delegated s'
unfolding rejected_turn silent_turn accepted_turn with_kernel_rejection
take_turn-Delegated s s' t h v = elim (take_turn-Passes s s' t h) [
  | rejects d m q ↦ rw q (inl refl)
  | waits q ↦ rw q v
  | accepts d e _ q ↦ rw q (pick_next-Points s e d v)
]

Visits-Delegated : (start s : SchedulerState) → Visits start s → Delegated start → Delegated s
Visits-Delegated start s begins v = v
Visits-Delegated start s (goes_on r _ turn next q) v =
    take_turn-Delegated _ next turn q (Visits-Delegated start _ r v)

-- In every state that the turn loop passes through, the turn is the lead's or the delegation pointer is
-- the actor that has the turn.
pub initial-Delegated :
    (args spec : Limits) (s : SchedulerState)
    → Visits (initial_loop_state args spec) s
    → (s.current_actor ≡ lead_actor) ⊎ (s.delegation_pointer ≡ some s.current_actor)
unfolding initial_loop_state
initial-Delegated args spec s r = Visits-Delegated (initial_loop_state args spec) s r (inl refl)

-- What ends a delegation: the delegated task is done, or the lead is told.
pub data Closes (s : SchedulerState) (e : RunEvent) : Type 0 where
  by_task :
      (p : TaskStateChangedPayload)
      → e.body ≡ task_state_changed p
      → e.outcome ≡ accepted
      → s.delegation_task_id ≡ some p.task_id
      → terminal_task_state p.to ≡ true
      → Closes s e
  by_message :
      (p : MailboxMessageAppendedPayload)
      → e.body ≡ mailbox_message_appended p
      → e.outcome ≡ accepted
      → p.to_actor ≡ Recipient.actor lead_actor
      → (p.kind ≡ MailboxMessageKind.completion) ⊎ (p.kind ≡ MailboxMessageKind.final)
      → Closes s e

closes_delegation_complete :
    (s : SchedulerState) (e : RunEvent) → Closes s e → closes_delegation s e lead_actor ≡ true
unfolding closes_delegation closes_delegation_mailbox_message same_actor
closes_delegation_complete s e (by_task p b o t done) =
    rw (b, o, t) (ground (arith, eq_refl p.task_id))
closes_delegation_complete s e (by_message p b o to (inl k)) = rw (b, o, to, k) refl
closes_delegation_complete s e (by_message p b o to (inr k)) = rw (b, o, to, k) refl

closes_delegation_sound :
    (s : SchedulerState) (e : RunEvent) → closes_delegation s e lead_actor ≡ true → Closes s e
unfolding closes_delegation closes_delegation_mailbox_message
closes_delegation_sound s e h = by_body e.body refl
  where
    named :
        (o : Option String)
        → s.delegation_task_id ≡ o
        → (id : String) → is_task o id ≡ true
        → s.delegation_task_id ≡ some id
    named none q id h = absurd (cc (h))
    named (some t) q id h = q ∙ ap some (sym ((eq_iff id t).0 h))

    to_lead : (r : Recipient) → addressed_to r lead_actor ≡ true → r ≡ Recipient.actor lead_actor
    to_lead broadcast h = absurd (cc (h))
    to_lead (Recipient.actor a) h = ap Recipient.actor ((same_actor_iff a lead_actor).0 h)

    by_body : (b : EventBody) → e.body ≡ b → Closes s e
    by_body (task_state_changed p) b =
        let parts : (e.outcome ≡ accepted)
            × (is_task s.delegation_task_id p.task_id ≡ true)
            × (terminal_task_state p.to ≡ true) =
          ground arith in
        by_task p b parts.0 (named s.delegation_task_id refl p.task_id parts.1) parts.2
    by_body (mailbox_message_appended p) b =
        let parts : (e.outcome ≡ accepted)
            × (addressed_to p.to_actor lead_actor ≡ true)
            × ((p.kind ≡ MailboxMessageKind.completion) ⊎ (p.kind ≡ MailboxMessageKind.final)) =
          ground arith in
        by_message p b parts.0 (to_lead p.to_actor parts.1) parts.2
    by_body x b = absurd (ground arith)

pub lead-is_lead_actor : (a : ActorRef) → a ≡ lead_actor → is_lead_actor a ≡ true
unfolding is_lead_actor
lead-is_lead_actor a q = rw q refl

pub pick_next-returns :
    (s : SchedulerState) (e : RunEvent) (d : RequestBody)
    → is_lead_actor s.current_actor ≡ false
    → ((pick_next s e d lead_actor).actor ≡ lead_actor) ↔ Closes s e
unfolding pick_next
pick_next-returns s e d delegate = (to, from)
  where
    to : (pick_next s e d lead_actor).actor ≡ lead_actor → Closes s e
    to h = elim (Bool-cases (closes_delegation s e lead_actor)) [
      | inl closes ↦ closes_delegation_sound s e closes
      | inr stays ↦
          absurd (cc (lead-is_lead_actor s.current_actor (rw (delegate, stays) at h), delegate))
    ]

    from : Closes s e → (pick_next s e d lead_actor).actor ≡ lead_actor
    from c = rw (delegate, closes_delegation_complete s e c)
