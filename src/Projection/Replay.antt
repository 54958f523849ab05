-- ===== src/Projection/Replay.antt =====
-- projections/replay.ts.
use pluto_agent_platform.Common.{List, [], ◌∷◌, Option, length}
use pluto_agent_platform.Protocol.Event.{RunEvent}
use pluto_agent_platform.Kernel.Log.{EventLog, read}
use pluto_agent_platform.Projection.Task.{Tasks, task_reducer}
use pluto_agent_platform.Projection.Mailbox.{Message, mailbox_reducer, initial_mailbox_state}
use pluto_agent_platform.Projection.Evidence.{
  EvidenceRun, Citation, EvidenceReducerState, evidence_reducer, initial_evidence_state,
}

-- `events.reduce(reducer, state)`.
abbrev pub reduce_events {ℓ κ} : {S : Type ℓ} {E : Type κ} → (S → E → S) → S → List E → S
reduce_events f s [] = s
reduce_events f s (e ∷ es) = reduce_events f (f s e) es

unfoldable pub replay_task : List RunEvent → Tasks
replay_task events = reduce_events task_reducer [] events

unfoldable pub replay_mailbox : List RunEvent → List Message
replay_mailbox events = (reduce_events mailbox_reducer initial_mailbox_state events).messages

unfoldable pub evidence_of : List RunEvent → EvidenceReducerState
evidence_of events = reduce_events evidence_reducer initial_evidence_state events

pub record ReplayViews : Type 0 where
  pub task : Tasks
  pub mailbox : List Message
  pub run : Option EvidenceRun
  pub citations : List Citation

-- `replayAll`, `replayEvidence` and `replayFromStore`, where `read()` reads from 0 to behind the head.
unfoldable pub replay_all : List RunEvent → ReplayViews
unfolding replay_task replay_mailbox evidence_of
replay_all events =
    let evidence = evidence_of events in
    record {
      task = replay_task events;
      mailbox = replay_mailbox events;
      run = evidence.run;
      citations = evidence.citations;
    }

unfoldable pub replay_from_store : EventLog → ReplayViews
unfolding read replay_all
replay_from_store log = replay_all (read log 0 (length log.events))
