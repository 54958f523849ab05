-- ===== src/Projection/TaskEffect.antt =====
-- How an event of the kernel bears on the tasks.
use pluto_agent_platform.Common.{
  String, List, [], ◌∷◌, ◌++◌, ◌≡◌, refl, false, arith, eq_iff, sym, ◌∙◌, ap, some,
}
use mathlib.Core.List.{append_assoc, append-nil}
use pluto_agent_platform.Common.Dict.{has, has-append, lookup}
use pluto_agent_platform.Protocol.Event.{
  EventBody, RunEvent, task_created, task_state_changed, TaskCreatedPayload,
  TaskStateChangedPayload,
}
use pluto_agent_platform.Authority.State.{RunState, RunStateTask}
use pluto_agent_platform.Kernel.Host.{Host, Kernel}
use pluto_agent_platform.Kernel.Step.{appended, created, changed, published, finished}
use pluto_agent_platform.Kernel.Outcome.{granted, refused, unparsed}
use pluto_agent_platform.Kernel.Move.{Source, started, requested}
use pluto_agent_platform.Kernel.Replay.{Distinct}
use pluto_agent_platform.Kernel.Tasks.{KeepsTasks}
use pluto_agent_platform.Projection.Task.{Tasks, apply_to_tasks}

abbrev pub ids_of_body : EventBody → List String
ids_of_body (task_created p) = p.task_id ∷ []
ids_of_body _ = []

-- The ids of the tasks that a log creates.
abbrev pub created_ids : List RunEvent → List String
created_ids [] = []
created_ids (e ∷ es) = ids_of_body e.body ++ created_ids es

-- How a logged event bears on the tasks.
pub data TaskEffect (s : RunState) (e : RunEvent) : Type 0 where
  keeps : KeepsTasks e.body → TaskEffect s e
  makes : (p : TaskCreatedPayload) → e.body ≡ task_created p → TaskEffect s e
  moves :
      (p : TaskStateChangedPayload) (t : RunStateTask)
      → e.body ≡ task_state_changed p
      → lookup p.task_id s.tasks ≡ some t
      → TaskEffect s e

pub Source-TaskEffect : (h : Host) (k : Kernel) (e : RunEvent) → Source h k e → TaskEffect k.state e
Source-TaskEffect h k e (started payload b _ _) = keeps (rw b tt)
Source-TaskEffect h k e (requested raw ctx (refused r reason detail _ _ a)) = keeps (rw a.told tt)
Source-TaskEffect h k e (requested raw ctx (unparsed _ a)) = keeps (rw a.told tt)
Source-TaskEffect h k e (requested raw ctx (granted r _ _ a)) = elim a.effect [
  | appended p id _ b ↦ keeps (rw b tt)
  | created p n _ b ↦ makes (record { request = p; task_id = h.next_id n }) b
  | changed p t _ found b ↦
      moves (record { task_id = p.task_id; from = t.state; to = p.to }) t b found
  | published p id _ b ↦ keeps (rw b tt)
  | finished p time _ b ↦ keeps (rw b tt)
]

pub Distinct-last :
    (xs : List String) (a : String) → Distinct (xs ++ a ∷ []) → Distinct xs × (has xs a ≡ false)
Distinct-last [] a d = (tt, refl)
Distinct-last (x ∷ xs) a d =
    let (rest, absent) = Distinct-last xs a d.1 in
    (
      (ground (arith, d.0, has-append xs (a ∷ []) x), rest),
      ground (arith, absent, d.0, has-append xs (a ∷ []) x, eq_iff x a, eq_iff a x),
    )

pub created_ids-append :
    (es : List RunEvent) (e : RunEvent)
    → created_ids (es ++ e ∷ []) ≡ created_ids es ++ ids_of_body e.body
created_ids-append [] e = append-nil (ids_of_body e.body)
created_ids-append (x ∷ es) e =
    ap (λ ids. ids_of_body x.body ++ ids) (created_ids-append es e)
    ∙ sym (append_assoc (ids_of_body x.body) (created_ids es) (ids_of_body e.body))

-- A body that is not about tasks leaves the view and creates no task.
pub apply_to_tasks-KeepsTasks :
    (view : Tasks) (id : String) (b : EventBody)
    → KeepsTasks b
    → (apply_to_tasks view id b ≡ view) × (ids_of_body b ≡ [])
apply_to_tasks-KeepsTasks view id b h = ground arith
