-- ===== src/Spec/Start.antt =====
-- A compiled spec starts a run: the kernel takes the initial state of its team context.
use pluto_agent_platform.Common.{
  ℕ, String, some, ◌||◌, All, eq_refl, List, [], ◌∷◌, ◌≡◌, true, false, all, map, refl, ◌∙◌, arith,
  ◌==◌, Bool,
}
use mathlib.Core.Bool.{and-eq-true_iff}
use pluto_agent_platform.Kernel.Replay.{Distinct}
use pluto_agent_platform.Common.Dict.{insert, lookup, has, lookup-insert}
use pluto_agent_platform.Protocol.Schema.{owner_ok}
use pluto_agent_platform.Protocol.Event.{queued}
use pluto_agent_platform.Authority.State.{
  RunStateTask, InitialTask, TeamContext, initial_state, initial_tasks_from,
}
use pluto_agent_platform.Kernel.Host.{Kernel, new_kernel, run_state_ok}
use pluto_agent_platform.Kernel.Log.{empty_log, returned}
use pluto_agent_platform.Spec.Authored.{AuthoredSpec, ok}
use pluto_agent_platform.Spec.Compile.{compile, team_context_ok}
use pluto_agent_platform.Spec.Decides.{compile-Compiled}
use pluto_agent_platform.Spec.Policies.{FitPolicy-policy_ok}

abbrev Tasks : Type 0
Tasks = List (String × RunStateTask)

-- The owners of a state's tasks have the form of roles.
abbrev owners_ok : Tasks → Bool
owners_ok tasks = all (λ t. owner_ok t) (map (λ entry. entry.1.owner_actor) tasks)

insert-owners_ok :
    (id : String) (t : RunStateTask) (tasks : Tasks)
    → owner_ok t.owner_actor ≡ true
    → owners_ok tasks ≡ true
    → owners_ok (insert id t tasks) ≡ true
unfolding insert
insert-owners_ok id t [] h k = rw h
insert-owners_ok id t (entry ∷ tasks) h k = ground (arith, h, k, insert-owners_ok id t tasks h)

abbrev queued_task : InitialTask → RunStateTask
queued_task t = record { state = queued; owner_actor = t.owner_actor }

initial_tasks_from-owners_ok :
    (m : Tasks) (ts : List InitialTask)
    → owners_ok m ≡ true
    → all (λ o. owner_ok o) (map (λ t. t.owner_actor) ts) ≡ true
    → owners_ok (initial_tasks_from m ts) ≡ true
unfolding initial_tasks_from
initial_tasks_from-owners_ok m [] h k = h
initial_tasks_from-owners_ok m (t ∷ ts) h k =
    initial_tasks_from-owners_ok (insert t.task_id (queued_task t) m) ts
      (insert-owners_ok t.task_id (queued_task t) m (ground arith) h) (ground arith)

abbrev ids_of : List InitialTask → List String
ids_of ts = map (λ t. t.task_id) ts

untouched :
    (m : Tasks) (ts : List InitialTask) (id : String)
    → has (ids_of ts) id ≡ false
    → lookup id (initial_tasks_from m ts) ≡ lookup id m
unfolding initial_tasks_from
untouched m [] id h = refl
untouched m (t ∷ ts) id h =
    untouched (insert t.task_id (queued_task t) m) ts id (ground (arith, h))
    ∙ lookup-insert t.task_id id (queued_task t) m
    ∙ rw (other (t.task_id == id) (has (ids_of ts) id) h)
  where
    other : (x y : Bool) → (x || y) ≡ false → x ≡ false
    other true y h = absurd (cc (h))
    other false y h = refl

abbrev pub IsQueued : List (String × RunStateTask) → InitialTask → Type 0
IsQueued tasks t =
    lookup t.task_id tasks ≡ some (record { state = queued; owner_actor = t.owner_actor })

All-IsQueued :
    (m : Tasks) (ts : List InitialTask)
    → Distinct (ids_of ts)
    → All (IsQueued (initial_tasks_from m ts)) ts
unfolding initial_tasks_from
All-IsQueued m [] d = tt
All-IsQueued m (t ∷ ts) d =
    let m' = insert t.task_id (queued_task t) m in
    (
      untouched m' ts t.task_id d.0
          ∙ lookup-insert t.task_id t.task_id (queued_task t) m
          ∙ rw (eq_refl t.task_id),
      All-IsQueued m' ts d.1,
    )

owners_of :
    (c : TeamContext)
    → team_context_ok c ≡ true
    → all (λ o. owner_ok o) (map (λ t. t.owner_actor) c.initial_tasks) ≡ true
unfolding team_context_ok
owners_of c h = ((and-eq-true_iff _ _).0 ((and-eq-true_iff _ _).0 h).0).1

-- Every compiled spec starts a run: the kernel takes the initial state of its team context, and in it
-- each initial task is queued, with its owner.
pub compile-starts :
    (spec : AuthoredSpec) (c : TeamContext) (drawn ticks : ℕ)
    → compile spec ≡ ok c
    → (k : Kernel) × (new_kernel (initial_state c) empty_log drawn ticks ≡ returned k)
      × All (IsQueued k.state.tasks) c.initial_tasks
unfolding new_kernel initial_state run_state_ok
compile-starts spec c drawn ticks h =
    let made = compile-Compiled spec c h in
    let owned : all (λ o. owner_ok o) (map (λ t. t.owner_actor) c.initial_tasks) ≡ true =
      owners_of c made.schema in
    (
      record { state = initial_state c; log = empty_log; drawn = drawn; ticks = ticks },
      rw (
        initial_tasks_from-owners_ok [] c.initial_tasks refl owned,
        FitPolicy-policy_ok c.policy made.fit,
      ),
      All-IsQueued [] c.initial_tasks (rw made.ids made.well_formed.distinct),
    )
