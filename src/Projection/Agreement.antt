-- ===== src/Projection/Agreement.antt =====
-- The task view and the kernel's own tasks: two reducers over one log, which agree.
use pluto_agent_platform.Common.{
  String, List, [], ◌∷◌, ◌++◌, ◌≡◌, refl, ◌∙◌, ap, subst, true, none, is_some, some, false,
  Option-cases, sym, arith, inl, if◌then◌else◌, inr, eq_refl, Bool-cases,
}
use mathlib.Core.List.{append-nil}
use pluto_agent_platform.Common.Dict.{lookup, add, has, has-append}
use pluto_agent_platform.Protocol.Event.{
  RunEvent, TaskCreatedPayload, TaskStateChangedPayload, task_created, task_state_changed,
}
use pluto_agent_platform.Kernel.Host.{Host, Kernel}
use pluto_agent_platform.Kernel.Move.{Move, quiet, logs, Reaches, Reaches-invariant}
use pluto_agent_platform.Kernel.Log.{empty_log}
use pluto_agent_platform.Kernel.Reducer.{reduce}
use pluto_agent_platform.Kernel.Replay.{Distinct}
use pluto_agent_platform.Projection.Task.{Tasks, task_reducer, apply_to_tasks}
use pluto_agent_platform.Projection.Replay.{replay_task}
use pluto_agent_platform.Projection.Reducers.{reduce_events-append}
use pluto_agent_platform.Projection.TaskEffect.{
  created_ids, TaskEffect, ids_of_body, keeps, apply_to_tasks-KeepsTasks, makes, Distinct-last,
  moves, created_ids-append, Source-TaskEffect,
}
use pluto_agent_platform.Projection.Agrees.{
  Agrees, seen_task, After-keeps, After-makes, After-moves, After-foreign,
}
use pluto_agent_platform.Authority.State.{RunStateTask, RunState}
use pluto_agent_platform.Projection.Outside.{
  outside, lookup-outside, outside-insert, outside-insert_initial,
}
use pluto_agent_platform.Kernel.Tasks.{
  KeepsTasks, reduce-KeepsTasks, reduce-created, reduce-changed,
}

replay_task-snoc :
    (es : List RunEvent) (e : RunEvent)
    → replay_task (es ++ e ∷ []) ≡ apply_to_tasks (replay_task es) e.event_id e.body
unfolding replay_task task_reducer
replay_task-snoc es e = reduce_events-append task_reducer [] es (e ∷ [])

module _ (initial : List (String × RunStateTask)) where
  -- The run gives a task no id that another task has, be it one that the run was started with.
  abbrev pub Fresh : Kernel → Type 0
  Fresh k =
      Distinct (created_ids k.log.events)
      × ((id : String)
          → has (created_ids k.log.events) id ≡ true
          → is_some (lookup id initial) ≡ false)

  abbrev own_tasks : RunState → List (String × RunStateTask)
  own_tasks s = outside initial s.tasks

  abbrev own : RunState → RunState
  own s = record s { tasks = own_tasks s }

  -- The two reducers agree on the run's own tasks as far as the log goes.
  abbrev Agreed : Kernel → Type 0
  Agreed k =
      Fresh k
      → Agrees (own_tasks k.state) (replay_task k.log.events) k.log.event_ids
          (created_ids k.log.events)

  module _ (s : RunState) (e : RunEvent) where
    keeps-own : KeepsTasks e.body → (reduce (own s) e).tasks ≡ own_tasks (reduce s e)
    keeps-own h =
        reduce-KeepsTasks (own s) e h ∙ sym (ap (outside initial) (reduce-KeepsTasks s e h))

    makes-own :
        (p : TaskCreatedPayload)
        → e.body ≡ task_created p
        → is_some (lookup p.task_id initial) ≡ false
        → (reduce (own s) e).tasks ≡ own_tasks (reduce s e)
    makes-own p b ours =
        reduce-created (own s) e p b
        ∙ sym (
            ap (outside initial) (reduce-created s e p b)
            ∙ outside-insert initial p.task_id _ s.tasks ours)

    found-own :
        (id : String) (t : RunStateTask)
        → lookup id s.tasks ≡ some t
        → is_some (lookup id initial) ≡ false
        → lookup id (own_tasks s) ≡ some t
    found-own id t found ours = lookup-outside initial id s.tasks ∙ rw ours found

    moves-own :
        (p : TaskStateChangedPayload) (t : RunStateTask)
        → e.body ≡ task_state_changed p
        → lookup p.task_id s.tasks ≡ some t
        → is_some (lookup p.task_id initial) ≡ false
        → (reduce (own s) e).tasks ≡ own_tasks (reduce s e)
    moves-own p t b found ours =
        reduce-changed (own s) e p t b (found-own p.task_id t found ours)
        ∙ sym (
            ap (outside initial) (reduce-changed s e p t b found)
            ∙ outside-insert initial p.task_id _ s.tasks ours)

    moves-initial :
        (p : TaskStateChangedPayload) (t : RunStateTask)
        → e.body ≡ task_state_changed p
        → lookup p.task_id s.tasks ≡ some t
        → is_some (lookup p.task_id initial) ≡ true
        → own_tasks (reduce s e) ≡ own_tasks s
    moves-initial p t b found theirs =
        ap (outside initial) (reduce-changed s e p t b found)
        ∙ outside-insert_initial initial p.task_id _ s.tasks theirs

  Fresh-earlier :
      (made : List String) (e : RunEvent)
      → ((id : String)
          → has (made ++ ids_of_body e.body) id ≡ true
          → is_some (lookup id initial) ≡ false)
      → (id : String) → has made id ≡ true
      → is_some (lookup id initial) ≡ false
  Fresh-earlier made e others id h =
      others id (ground (arith, has-append made (ids_of_body e.body) id, h))

  Move-Agreed : (h : Host) (k k' : Kernel) → Move h k k' → Agreed k → Agreed k'
  Move-Agreed h k k' (quiet state log) v d = let same : Agreed k' = rw (state, log) v in same d
  Move-Agreed h k k' (logs e c good source) v d =
      rw
        (
          c.reduced,
          c.known,
          c.logged,
          replay_task-snoc k.log.events e,
          created_ids-append k.log.events e,
        )
        (by_effect (Source-TaskEffect h k e source) (subst Distinct split d.0) (
          subst (λ ids. (id : String) → has ids id ≡ true → is_some (lookup id initial) ≡ false)
            split d.1))
    where
      split : created_ids k'.log.events ≡ created_ids k.log.events ++ ids_of_body e.body
      split = ap created_ids c.logged ∙ created_ids-append k.log.events e

      made : List String
      made = created_ids k.log.events

      view : Tasks
      view = replay_task k.log.events

      After_all : List (String × RunStateTask) → Type 0
      After_all tasks =
          Agrees tasks (apply_to_tasks view e.event_id e.body) (add k.log.event_ids e.event_id)
            (made ++ ids_of_body e.body)

      by_effect :
          TaskEffect k.state e
          → Distinct (made ++ ids_of_body e.body)
          → ((id : String)
              → has (made ++ ids_of_body e.body) id ≡ true
              → is_some (lookup id initial) ≡ false)
          → After_all (own_tasks (reduce k.state e))
      by_effect (keeps h) d o =
          let none_made = (apply_to_tasks-KeepsTasks view e.event_id e.body h).1 in
          let before = v (rw (none_made, append-nil made) at d, Fresh-earlier made e o) in
          subst After_all (keeps-own k.state e h)
            (After-keeps (own k.state) view k.log.event_ids made e before h)
      by_effect (makes p b) d o =
          let (distinct, unmade) = Distinct-last made p.task_id (rw b at d) in
          let ours = o p.task_id (
            rw b (ground (arith, has-append made (p.task_id ∷ []) p.task_id, eq_refl p.task_id))) in
          subst After_all (makes-own k.state e p b ours) (
            After-makes (own k.state) view k.log.event_ids made e
              (v (distinct, Fresh-earlier made e o)) p b unmade)
      by_effect (moves p t b found) d o =
          let before = v (rw (b, append-nil made) at d, Fresh-earlier made e o) in
          elim (Bool-cases (is_some (lookup p.task_id initial))) [
            | inr ours ↦ subst After_all (moves-own k.state e p t b found ours) (
                After-moves (own k.state) view k.log.event_ids made e before p t b
                  (found-own k.state e p.task_id t found ours) c.fresh)
            | inl theirs ↦ subst After_all (sym (moves-initial k.state e p t b found theirs)) (
                After-foreign (own k.state) view k.log.event_ids made e before p b
                  (lookup-outside initial p.task_id k.state.tasks ∙ rw theirs refl))
          ]

start-Agreed : (start : Kernel) → start.log ≡ empty_log → Agreed start.state.tasks start
unfolding replay_task lookup
start-Agreed start fresh d = rw fresh (record {
  same = λ id. sym (no_own id);
  known = λ id t event found seen. absurd (cc (found));
  listed = λ id t found. absurd (cc (no_own id, found));
})
  where
    no_own : (id : String) → lookup id (outside start.state.tasks start.state.tasks) ≡ none
    no_own id =
        lookup-outside start.state.tasks id start.state.tasks
        ∙ elim (Option-cases (lookup id start.state.tasks)) [
          | inl absent ↦ rw absent refl
          | inr (t, found) ↦ rw found refl
        ]

-- If a run starts with an empty log, and no task that it creates has the id of another or of one that it
-- was started with, then the task view that is replayed from its log has, of every task id that the
-- run was not started with, the state and owner that the kernel has for it, or nothing where the kernel
-- has no such task; of the ids that the run was started with it has nothing.
pub replay_task-agrees :
    (h : Host) (start k : Kernel)
    → start.log ≡ empty_log
    → Reaches h start k
    → Distinct (created_ids k.log.events)
    → ((id : String)
        → has (created_ids k.log.events) id ≡ true
        → is_some (lookup id start.state.tasks) ≡ false)
    → (id : String)
    → seen_task (lookup id (replay_task k.log.events))
      ≡ (if is_some (lookup id start.state.tasks) then none else lookup id k.state.tasks)
replay_task-agrees h start k fresh r distinct others id =
    let initial = start.state.tasks in
    let agreed =
      Reaches-invariant h (Agreed initial) (Move-Agreed initial h) (start-Agreed start fresh) r in
    (agreed (distinct, others)).same id ∙ lookup-outside initial id k.state.tasks
