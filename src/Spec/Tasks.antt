-- ===== src/Spec/Tasks.antt =====
-- `compileInitialTasks`: it returns exactly where the ids are distinct and the owners are defined.
use pluto_agent_platform.Common.{
  ℕ, suc, String, List, [], ◌∷◌, ◌≡◌, true, false, eq_iff, All, all, map, refl, arith, Bool-cases,
  inl, inr,
}
use pluto_agent_platform.Common.Dict.{has, add, has-add}
use pluto_agent_platform.Protocol.Schema.{owner_ok}
use pluto_agent_platform.Authority.State.{InitialTask}
use pluto_agent_platform.Kernel.Replay.{Distinct}
use pluto_agent_platform.Spec.Authored.{AuthoredActorRef, AuthoredInitialTask, ok}
use pluto_agent_platform.Spec.Compile.{compile_owner, compile_initial_tasks}
use pluto_agent_platform.Spec.WellFormed.{RoleFits, OwnerFits, Returns, bind-ok, bind-Returns}
use pluto_agent_platform.Spec.Matchers.{ok_injective}
use pluto_agent_platform.Spec.Parts.{actors_of, compile_owner-ok, owner-Returns}

abbrev pub task_ids : List AuthoredInitialTask → List String
task_ids ts = map (λ t. t.task_id) ts

-- No task has an id that was seen.
abbrev pub Unseen : List String → List AuthoredInitialTask → Type 0
Unseen seen ts = All (λ t. has seen t.task_id ≡ false) ts

split_seen :
    (seen : List String) (id : String) (ts : List AuthoredInitialTask)
    → Unseen (add seen id) ts
    → Unseen seen ts × (has (task_ids ts) id ≡ false)
split_seen seen id [] h = (tt, refl)
split_seen seen id (t ∷ ts) h =
    let (rest, other) = split_seen seen id ts h.1 in
    (
      (ground (arith, h.0, has-add seen id t.task_id), rest),
      ground
          (arith, h.0, has-add seen id t.task_id, other, eq_iff t.task_id id, eq_iff id t.task_id),
    )

join_seen :
    (seen : List String) (id : String) (ts : List AuthoredInitialTask)
    → Unseen seen ts
    → has (task_ids ts) id ≡ false
    → Unseen (add seen id) ts
join_seen seen id [] h q = tt
join_seen seen id (t ∷ ts) h q = (
  ground (arith, h.0, q, has-add seen id t.task_id, eq_iff t.task_id id, eq_iff id t.task_id),
  join_seen seen id ts h.1 (ground (arith, q)),
)

module _ (es : List (String × AuthoredActorRef)) (roles : All (λ entry. RoleFits entry.1) es) where
  pub compile_initial_tasks-ok :
      (seen : List String) (n : ℕ) (ts : List AuthoredInitialTask) (xs : List InitialTask)
      → compile_initial_tasks (actors_of es) seen n ts ≡ ok xs
      → Unseen seen ts
        × Distinct (task_ids ts)
        × All (OwnerFits es) ts
        × (all (λ o. owner_ok o) (map (λ t. t.owner_actor) xs) ≡ true)
        × (map (λ t. t.task_id) xs ≡ task_ids ts)
  unfolding compile_initial_tasks
  compile_initial_tasks-ok seen n [] xs h =
      (tt, tt, tt, rw (← ok_injective h), rw (← ok_injective h))
  compile_initial_tasks-ok seen n (t ∷ ts) xs h = elim (Bool-cases (has seen t.task_id)) [
    | inl twice ↦ absurd (cc (rw (twice, compile_initial_tasks) at h))
    | inr fresh ↦
        let (o, owner, h1) =
          bind-ok (compile_owner (actors_of es) n t t.owner_actor) _ xs
            (rw (fresh, compile_initial_tasks) at h) in
        let (rest, more, h2) =
          bind-ok (compile_initial_tasks (actors_of es) (add seen t.task_id) (suc n) ts) _ xs h1 in
        let (fits, good) = compile_owner-ok es roles n t t.owner_actor o owner in
        let (unseen, distinct, owners, all_good, ids) =
          compile_initial_tasks-ok (add seen t.task_id) (suc n) ts rest more in
        let (before, once) = split_seen seen t.task_id ts unseen in
        (
          (fresh, before),
          (once, distinct),
          (fits, owners),
          rw (← ok_injective h2, good, all_good),
          rw (← ok_injective h2, ids),
        )
  ]

  pub compile_initial_tasks-Returns :
      (seen : List String) (n : ℕ) (ts : List AuthoredInitialTask)
      → Unseen seen ts
      → Distinct (task_ids ts)
      → All (OwnerFits es) ts
      → Returns (compile_initial_tasks (actors_of es) seen n ts)
  unfolding compile_initial_tasks
  compile_initial_tasks-Returns seen n [] u d o = ([], refl)
  compile_initial_tasks-Returns seen n (t ∷ ts) u d o =
      rw (u.0, compile_initial_tasks)
        (bind-Returns (compile_owner (actors_of es) n t t.owner_actor) _
          (owner-Returns es roles n t o.0)
          λ owner _.
            bind-Returns (compile_initial_tasks (actors_of es) (add seen t.task_id) (suc n) ts) _
              (compile_initial_tasks-Returns (add seen t.task_id) (suc n) ts
                (join_seen seen t.task_id ts u.1 d.0) d.1 o.1)
              λ rest _. (_, refl))
