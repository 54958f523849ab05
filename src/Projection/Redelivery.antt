-- ===== src/Projection/Redelivery.antt =====
-- The views do not change when an event is delivered again.
use pluto_agent_platform.Common.{◌≡◌, [], List, ◌∷◌, ◌++◌, ap}
use pluto_agent_platform.Protocol.Event.{RunEvent}
use pluto_agent_platform.Projection.Task.{task_reducer}
use pluto_agent_platform.Projection.Mailbox.{mailbox_reducer, initial_mailbox_state}
use pluto_agent_platform.Projection.Evidence.{evidence_reducer, initial_evidence_state}
use pluto_agent_platform.Projection.Replay.{replay_task, replay_mailbox, evidence_of, replay_all}
use pluto_agent_platform.Projection.Reducers.{reduce_events-redelivered}
use pluto_agent_platform.Projection.TakenIn.{
  Lands, task-TakesIn, task_taken, mailbox-TakesIn, mailbox_taken, evidence-TakesIn, evidence_taken,
}

-- A redelivered event changes no view: wherever an event occurs again later in the log, the views are
-- those of the log without the second occurrence. A change of a task's state must have
-- landed the first time, on a task that the view has.
pub replay_all-redelivered :
    (e : RunEvent) (pre mid post : List RunEvent)
    → Lands (replay_task pre) e.body
    → replay_all (pre ++ e ∷ (mid ++ e ∷ post)) ≡ replay_all (pre ++ e ∷ (mid ++ post))
unfolding replay_all replay_task replay_mailbox evidence_of task_reducer mailbox_reducer
    evidence_reducer
replay_all-redelivered e pre mid post lands =
    let task : replay_task twice ≡ replay_task once =
      reduce_events-redelivered task-TakesIn [] e pre mid post
        (task_taken _ e.event_id e.body lands) in
    let mailbox : replay_mailbox twice ≡ replay_mailbox once =
      ap (λ s. s.messages)
        (reduce_events-redelivered mailbox-TakesIn initial_mailbox_state e pre mid post
          (mailbox_taken _ e e.body)) in
    let evidence : evidence_of twice ≡ evidence_of once =
      reduce_events-redelivered evidence-TakesIn initial_evidence_state e pre mid post
        (evidence_taken (evidence_of pre) e e.body) in
    rw (task, mailbox, evidence)
  where
    twice : List RunEvent
    twice = pre ++ e ∷ (mid ++ e ∷ post)

    once : List RunEvent
    once = pre ++ e ∷ (mid ++ post)
