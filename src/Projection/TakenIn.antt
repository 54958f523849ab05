-- ===== src/Projection/TakenIn.antt =====
-- The three view reducers take their events in.
use pluto_agent_platform.Common.{
  String, ◌≡◌, true, arith, eq_iff, eq_refl, [], ◌∷◌, any-append, some, Option-cases, inl, inr,
  Bool-cases, ◌==◌, ◌||◌, ◌||◌,
}
use pluto_agent_platform.Common.Dict.{lookup, insert, lookup-insert, has, has-add}
use pluto_agent_platform.Protocol.Event.{
  EventBody, RunEvent, task_created, task_state_changed, mailbox_message_appended,
  TaskStateChangedPayload,
}
use pluto_agent_platform.Projection.Task.{
  Tasks, TaskView, in_history, task_reducer, apply_to_tasks, moved_view, new_task_view,
}
use pluto_agent_platform.Projection.Mailbox.{MailboxReducerState, mailbox_reducer, apply_to_mailbox}
use pluto_agent_platform.Projection.Evidence.{
  EvidenceReducerState, evidence_reducer, append_citation, apply_to_evidence,
}
use pluto_agent_platform.Projection.Reducers.{TakesIn}

abbrev pub SeenMessage : MailboxReducerState → EventBody → Type 0
SeenMessage s (mailbox_message_appended p) = has s.seen_message_ids p.message_id ≡ true
SeenMessage s _ = Unit {0}

apply_to_mailbox-seen :
    (s : MailboxReducerState) (x : RunEvent) (b : EventBody) (id : String)
    → has s.seen_message_ids id ≡ true
    → has (apply_to_mailbox s x b).seen_message_ids id ≡ true
apply_to_mailbox-seen s x (mailbox_message_appended p) id h =
    ground (arith, has-add s.seen_message_ids p.message_id id)
apply_to_mailbox-seen s x b id h = ground arith

pub mailbox-TakesIn : TakesIn MailboxReducerState mailbox_reducer (λ s e. SeenMessage s e.body)
unfolding mailbox_reducer
mailbox-TakesIn = record { idle = λ s e. idle s e e.body; kept = λ s x e. kept s x e.body }
  where
    idle :
        (s : MailboxReducerState) (e : RunEvent) (b : EventBody)
        → SeenMessage s b
        → apply_to_mailbox s e b ≡ s
    idle s e (mailbox_message_appended p) h = rw h
    idle s e b h = ground arith

    kept :
        (s : MailboxReducerState) (x : RunEvent) (b : EventBody)
        → SeenMessage s b
        → SeenMessage (apply_to_mailbox s x x.body) b
    kept s x (mailbox_message_appended p) h = apply_to_mailbox-seen s x x.body p.message_id h
    kept s x b h = ground arith

pub mailbox_taken :
    (s : MailboxReducerState) (e : RunEvent) (b : EventBody)
    → SeenMessage (apply_to_mailbox s e b) b
mailbox_taken s e (mailbox_message_appended p) =
    ground (arith, has-add s.seen_message_ids p.message_id p.message_id, eq_refl p.message_id)
mailbox_taken s e b = ground arith

abbrev pub Cited : EvidenceReducerState → String → EventBody → Type 0
Cited s id (EventBody.run_started p) = has s.seen_event_ids id ≡ true
Cited s id (EventBody.run_completed p) = has s.seen_event_ids id ≡ true
Cited s id _ = Unit {0}

apply_to_evidence-seen :
    (s : EvidenceReducerState) (x : RunEvent) (b : EventBody) (id : String)
    → has s.seen_event_ids id ≡ true
    → has (apply_to_evidence s x b).seen_event_ids id ≡ true
unfolding append_citation
apply_to_evidence-seen s x b id h = ground (arith, has-add s.seen_event_ids x.event_id id)

pub evidence-TakesIn :
    TakesIn EvidenceReducerState evidence_reducer (λ s e. Cited s e.event_id e.body)
unfolding evidence_reducer
evidence-TakesIn = record {
  idle = λ s e. idle s e e.body;
  kept = λ s x e. kept s x e.event_id e.body;
}
  where
    idle :
        (s : EvidenceReducerState) (e : RunEvent) (b : EventBody)
        → Cited s e.event_id b
        → apply_to_evidence s e b ≡ s
    idle s e b h = ground arith

    kept :
        (s : EvidenceReducerState) (x : RunEvent) (id : String) (b : EventBody)
        → Cited s id b
        → Cited (apply_to_evidence s x x.body) id b
    kept s x id (EventBody.run_started p) h = apply_to_evidence-seen s x x.body id h
    kept s x id (EventBody.run_completed p) h = apply_to_evidence-seen s x x.body id h
    kept s x id b h = ground arith

pub evidence_taken :
    (s : EvidenceReducerState) (e : RunEvent) (b : EventBody)
    → Cited (apply_to_evidence s e b) e.event_id b
unfolding append_citation
evidence_taken s e b =
    ground (arith, has-add s.seen_event_ids e.event_id e.event_id, eq_refl e.event_id)

-- A task event is taken in once its task is there, and a change once it is in the task's history.
abbrev pub Settled : Tasks → String → EventBody → Type 0
Settled tasks id (task_created p) = (t : TaskView) × (lookup p.task_id tasks ≡ some t)
Settled tasks id (task_state_changed p) =
    (t : TaskView) × (lookup p.task_id tasks ≡ some t) × (in_history t id ≡ true)
Settled tasks id _ = Unit {0}

-- A task that is there stays, and its history only grows.
abbrev Grows : Tasks → String → TaskView → Type 0
Grows tasks id t =
    (t' : TaskView) × (lookup id tasks ≡ some t')
    × ((event : String) → in_history t event ≡ true → in_history t' event ≡ true)

pub in_history-moved_view :
    (t : TaskView) (p : TaskStateChangedPayload) (id event : String)
    → in_history (moved_view t p id) event ≡ (in_history t event || id == event)
in_history-moved_view t p id event = ground (
  arith,
  any-append (λ entry. entry.event_id == event) t.history
      (record { from = p.from; to = p.to; event_id = id } ∷ []),
)

insert-Grows :
    (tasks : Tasks) (p : TaskStateChangedPayload) (x id : String) (t u : TaskView)
    → lookup id tasks ≡ some t
    → lookup p.task_id tasks ≡ some u
    → Grows (insert p.task_id (moved_view u p x) tasks) id t
insert-Grows tasks p x id t u h found = elim (Bool-cases (p.task_id == id)) [
  | inr other ↦ (t, rw (lookup-insert, other) h, λ event q. q)
  | inl same ↦
      let same_id : p.task_id ≡ id = (eq_iff _ _).0 same in
      let same_task : u ≡ t = cc (same_id, h, found) in
      (
        moved_view u p x,
        rw (lookup-insert, same),
        λ event q. ground (arith, in_history-moved_view u p x event, q, same_task),
      )
]

apply_to_tasks-Grows :
    (tasks : Tasks) (x : String) (b : EventBody) (id : String) (t : TaskView)
    → lookup id tasks ≡ some t
    → Grows (apply_to_tasks tasks x b) id t
apply_to_tasks-Grows tasks x (task_created p) id t h =
    elim (Option-cases (lookup p.task_id tasks)) [
      | inr (u, found) ↦ rw found (t, h, λ event q. q)
      | inl absent ↦ rw absent (
        t,
        ground (arith, lookup-insert p.task_id id (new_task_view p) tasks, eq_iff p.task_id id),
        λ event q. q,
      )
    ]
apply_to_tasks-Grows tasks x (task_state_changed p) id t h =
    elim (Option-cases (lookup p.task_id tasks)) [
      | inl absent ↦ rw absent (t, h, λ event q. q)
      | inr (u, found) ↦ elim (Bool-cases (in_history u x)) [
        | inl seen ↦ rw (found, seen) (t, h, λ event q. q)
        | inr new ↦ rw (found, new) (insert-Grows tasks p x id t u h found)
      ]
    ]
apply_to_tasks-Grows tasks x b id t h = (t, ground arith, λ event q. q)

pub task-TakesIn : TakesIn Tasks task_reducer (λ s e. Settled s e.event_id e.body)
unfolding task_reducer
task-TakesIn = record {
  idle = λ s e. idle s e.event_id e.body;
  kept = λ s x e. kept s x e.event_id e.body;
}
  where
    idle : (s : Tasks) (id : String) (b : EventBody) → Settled s id b → apply_to_tasks s id b ≡ s
    idle s id b h = ground arith

    kept :
        (s : Tasks) (x : RunEvent) (id : String) (b : EventBody)
        → Settled s id b
        → Settled (apply_to_tasks s x.event_id x.body) id b
    kept s x id (task_created p) (t, found) =
        let (t', found', _) = apply_to_tasks-Grows s x.event_id x.body p.task_id t found in
        (t', found')
    kept s x id (task_state_changed p) (t, found, seen) =
        let (t', found', more) = apply_to_tasks-Grows s x.event_id x.body p.task_id t found in
        (t', found', more id seen)
    kept s x id b h = ground arith

-- A change of state lands when the view has its task.
abbrev pub Lands : Tasks → EventBody → Type 0
Lands tasks (task_state_changed p) = (t : TaskView) × (lookup p.task_id tasks ≡ some t)
Lands tasks _ = Unit {0}

pub task_taken :
    (s : Tasks) (id : String) (b : EventBody) → Lands s b → Settled (apply_to_tasks s id b) id b
task_taken s id (task_created p) h = elim (Option-cases (lookup p.task_id s)) [
  | inr (u, found) ↦ rw found (u, found)
  | inl absent ↦ rw absent (new_task_view p, rw (lookup-insert, eq_refl))
]
task_taken s id (task_state_changed p) (t, found) = elim (Bool-cases (in_history t id)) [
  | inl seen ↦ rw (found, seen) (t, found, seen)
  | inr new ↦
      rw (found, new)
        (
          moved_view t p id,
          rw (lookup-insert, eq_refl),
          ground (arith, in_history-moved_view t p id id, eq_refl id),
        )
]
task_taken s id b h = ground arith
