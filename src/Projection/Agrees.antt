-- ===== src/Projection/Agrees.antt =====
-- The task view agrees with the kernel's tasks, and every event keeps it so.
use pluto_agent_platform.Common.{
  String, List, [], ◌∷◌, ◌++◌, ◌≡◌, inl, inr, refl, false, true, arith, eq_iff, sym, ◌∙◌, ap,
  Option, none, some, Bool-cases, Option-cases, ◌==◌,
}
use mathlib.Core.List.{append-nil}
use pluto_agent_platform.Common.Dict.{
  has, has-append, has-add, lookup, insert, lookup-insert, lookup-insert_cases, add,
}
use pluto_agent_platform.Protocol.Event.{
  RunEvent, task_created, task_state_changed, TaskCreatedPayload, TaskStateChangedPayload,
  TaskState,
}
use pluto_agent_platform.Authority.State.{RunState, RunStateTask}
use pluto_agent_platform.Kernel.Reducer.{reduce}
use pluto_agent_platform.Kernel.Tasks.{
  KeepsTasks, reduce-KeepsTasks, reduce-created, reduce-changed,
}
use pluto_agent_platform.Projection.Task.{
  Tasks, TaskView, in_history, apply_to_tasks, moved_view, new_task_view,
}
use pluto_agent_platform.Projection.TakenIn.{in_history-moved_view}
use pluto_agent_platform.Projection.TaskEffect.{ids_of_body, apply_to_tasks-KeepsTasks}

-- What the view says of a task that the kernel also knows.
abbrev pub seen_task : Option TaskView → Option RunStateTask
seen_task none = none
seen_task (some t) = some (record { state = t.state; owner_actor = t.owner_actor })

-- The view against the tasks of the kernel, with what the log tells of both.
pub record Agrees (tasks : List (String × RunStateTask)) (view : Tasks) (ids made : List String)
    : Type 0 where
  pub same : (id : String) → seen_task (lookup id view) ≡ lookup id tasks
  pub known :
      (id : String) (t : TaskView) (event : String)
      → lookup id view ≡ some t
      → in_history t event ≡ true
      → has ids event ≡ true
  pub listed : (id : String) (t : RunStateTask) → lookup id tasks ≡ some t → has made id ≡ true

insert-same :
    (view : Tasks) (tasks : List (String × RunStateTask)) (key : String) (v : TaskView)
    (t : RunStateTask)
    → seen_task (some v) ≡ some t
    → ((id : String) → seen_task (lookup id view) ≡ lookup id tasks)
    → (id : String) → seen_task (lookup id (insert key v view)) ≡ lookup id (insert key t tasks)
insert-same view tasks key v t h same id = elim (Bool-cases (key == id)) [
  | inl hit ↦ rw (lookup-insert key id v view, lookup-insert key id t tasks, hit) h
  | inr miss ↦ rw (lookup-insert key id v view, lookup-insert key id t tasks, miss) (same id)
]

module _ (s : RunState) (view : Tasks) (ids made : List String) (e : RunEvent)
    (a : Agrees s.tasks view ids made) where
  abbrev After : Type 0
  After =
      Agrees (reduce s e).tasks (apply_to_tasks view e.event_id e.body) (add ids e.event_id)
        (made ++ ids_of_body e.body)

  still_known :
      (id : String) (t : TaskView) (event : String)
      → lookup id view ≡ some t
      → in_history t event ≡ true
      → has (add ids e.event_id) event ≡ true
  still_known id t event found seen =
      ground (arith, has-add ids e.event_id event, a.known id t event found seen)

  pub After-keeps : KeepsTasks e.body → After
  After-keeps h =
      let (view_same, none_made) = apply_to_tasks-KeepsTasks view e.event_id e.body h in
      rw (reduce-KeepsTasks s e h, view_same, none_made, append-nil made)
        (record { same = a.same; known = still_known; listed = a.listed })

  -- A change of a task that the view does not hold.
  pub After-foreign :
      (p : TaskStateChangedPayload)
      → e.body ≡ task_state_changed p
      → lookup p.task_id s.tasks ≡ none
      → Agrees s.tasks
          (apply_to_tasks view e.event_id e.body)
          (add ids e.event_id)
          (made ++ ids_of_body e.body)
  After-foreign p b unknown =
      rw (b, unseen, append-nil made)
        (record { same = a.same; known = still_known; listed = a.listed })
    where
      unseen : lookup p.task_id view ≡ none
      unseen = elim (Option-cases (lookup p.task_id view)) [
        | inl absent ↦ absent
        | inr (t, found) ↦ absurd (cc (ap seen_task found, a.same p.task_id, unknown))
      ]

  pub After-makes :
      (p : TaskCreatedPayload) → e.body ≡ task_created p → has made p.task_id ≡ false → After
  After-makes p b unmade =
      rw (reduce-created s e p b, b, absent)
        (record {
          same = insert-same view s.tasks p.task_id (new_task_view p) task refl a.same;
          known = known;
          listed = listed;
        })
    where
      task : RunStateTask
      task = record { state = TaskState.queued; owner_actor = p.owner_actor }

      absent : lookup p.task_id view ≡ none
      absent = elim (Option-cases (lookup p.task_id view)) [
        | inl none_there ↦ none_there
        | inr (t, found) ↦
            absurd (cc (unmade, a.listed p.task_id _ (sym (a.same p.task_id) ∙ ap seen_task found)))
      ]

      known :
          (id : String) (t : TaskView) (event : String)
          → lookup id (insert p.task_id (new_task_view p) view) ≡ some t
          → in_history t event ≡ true
          → has (add ids e.event_id) event ≡ true
      known id t event found seen =
          elim (lookup-insert_cases p.task_id id (new_task_view p) t view found) [
            | inl (_, new) ↦ absurd (cc (rw new at seen))
            | inr old ↦ still_known id t event old seen
          ]

      listed :
          (id : String) (t : RunStateTask)
          → lookup id (insert p.task_id task s.tasks) ≡ some t
          → has (made ++ p.task_id ∷ []) id ≡ true
      listed id t found = elim (lookup-insert_cases p.task_id id task t s.tasks found) [
        | inl (is_id, _) ↦
            ground (arith, has-append made (p.task_id ∷ []) id, eq_iff p.task_id id, is_id)
        | inr old ↦ ground (arith, has-append made (p.task_id ∷ []) id, a.listed id t old)
      ]

  pub After-moves :
      (p : TaskStateChangedPayload) (t : RunStateTask)
      → e.body ≡ task_state_changed p
      → lookup p.task_id s.tasks ≡ some t
      → has ids e.event_id ≡ false
      → After
  After-moves p t b found fresh = elim (Option-cases (lookup p.task_id view)) [
    | inl absent ↦ absurd (cc (ap seen_task absent, a.same p.task_id, found))
    | inr (u, there) ↦
        let agree : seen_task (some u) ≡ some t =
          sym (ap seen_task there) ∙ a.same p.task_id ∙ found in
        moved u there agree (unrecorded u there)
  ]
    where
      unrecorded : (u : TaskView) → lookup p.task_id view ≡ some u → in_history u e.event_id ≡ false
      unrecorded u there = elim (Bool-cases (in_history u e.event_id)) [
        | inr new ↦ new
        | inl old ↦ absurd (cc (a.known p.task_id u e.event_id there old, fresh))
      ]

      moved :
          (u : TaskView)
          → lookup p.task_id view ≡ some u
          → seen_task (some u) ≡ some t
          → in_history u e.event_id ≡ false
          → After
      moved u there agree new =
          rw (reduce-changed s e p t b found, b, there, new, append-nil made)
            (record {
              same =
                  insert-same view s.tasks p.task_id (moved_view u p e.event_id) task
                    (ap
                      (λ (z : RunStateTask).
                        some (record { state = p.to; owner_actor = z.owner_actor }))
                      same_task)
                    a.same;
              known = known;
              listed = listed;
            })
        where
          same_task : record { state = u.state; owner_actor = u.owner_actor } ≡ t
          same_task = cc (agree)

          task : RunStateTask
          task = record { state = p.to; owner_actor = t.owner_actor }

          known :
              (id : String) (v : TaskView) (event : String)
              → lookup id (insert p.task_id (moved_view u p e.event_id) view) ≡ some v
              → in_history v event ≡ true
              → has (add ids e.event_id) event ≡ true
          known id v event look seen =
              elim (lookup-insert_cases p.task_id id (moved_view u p e.event_id) v view look) [
                | inr old ↦ still_known id v event old seen
                | inl (_, is_moved) ↦
                    let in_moved = in_history-moved_view u p e.event_id event in
                    elim (Bool-cases (in_history u event)) [
                      | inl before ↦ still_known p.task_id u event there before
                      | inr now ↦
                          ground
                            (arith, in_moved, is_moved, seen, now, has-add ids e.event_id event)
                    ]
              ]

          listed :
              (id : String) (v : RunStateTask)
              → lookup id (insert p.task_id task s.tasks) ≡ some v
              → has made id ≡ true
          listed id v look = elim (lookup-insert_cases p.task_id id task v s.tasks look) [
            | inr old ↦ a.listed id v old
            | inl (is_id, _) ↦ rw (← is_id) (a.listed p.task_id t found)
          ]
