-- ===== src/Prompt/Reports.antt =====
-- Which tasks a delta of adapters/paseo/wakeup-delta.ts reports.
use pluto_agent_platform.Common.{
  zero, suc, List, [], ◌≡◌, arith, ℕ, map, take, ◌++◌, drop, length, suc, ◌≤◌, ◌-◌, ◌∷◌, ◌⊎◌, sym,
  ap, Bool-cases, leb, inl, inr, refl, filter, subst,
}
use pluto_agent_platform.Prompt.Views.{PromptView, last, task_view}
use pluto_agent_platform.Protocol.Event.{RunEvent}
use pluto_agent_platform.Common.Dict.{lookup}
use pluto_agent_platform.Prompt.Delta.{
  tasks_by_id, artifacts_by_id, nothing_collected, compute_wakeup_delta, trim_tasks,
}
use pluto_agent_platform.Protocol.Actor.{ActorRef}
use pluto_agent_platform.Common.Int.{ℤ}
use pluto_agent_platform.Prompt.Lookups.{tasks_by_id-ById}
use pluto_agent_platform.Prompt.Limits.{length-last, length-drop}
use pluto_agent_platform.Prompt.Orders.{entries, in_order, created_since, changed_since, unlisted}
use pluto_agent_platform.Prompt.Collects.{collect_all-Holding}

take-drop : {A : Type 0} (n : ℕ) (xs : List A) → take n xs ++ drop n xs ≡ xs
take-drop zero xs = refl
take-drop (suc n) [] = refl
take-drop (suc n) (x ∷ xs) = ap (λ rest. x ∷ rest) (take-drop n xs)

-- Of the entries of a map, what a delta shows: the last 20, or all where there are no more, each cut to
-- its limits.
pub record Shows {K A : Type 0} (cut : A → A) (dict : List (K × A)) (shown : List A) : Type 0 where
  pub older : List A
  pub latest : List A
  pub split : map (λ (entry : K × A). entry.1) dict ≡ older ++ latest
  pub cut_each : shown ≡ map cut latest
  pub few : length latest ≤ 20
  pub full : (older ≡ []) ⊎ (length latest ≡ 20)

pub last-Shows :
    {K A : Type 0} (cut : A → A) (dict : List (K × A))
    → Shows cut dict (map cut (last 20 (map (λ entry. entry.1) dict)))
unfolding last
last-Shows cut dict =
    let values = map (λ entry. entry.1) dict in
    record {
      older = take (length values - 20) values;
      latest = last 20 values;
      split = sym (take-drop (length values - 20) values);
      cut_each = refl;
      few = length-last 20 values;
      full = elim (Bool-cases (leb (length values) 20)) [
        | inl all ↦
            let zero_older : length values - 20 ≡ 0 = ground (arith, all) in
            inl (rw zero_older refl)
        | inr more ↦ inr (ground (arith, length-drop (length values - 20) values, more))
      ];
    }

-- Which tasks a delta reports. Its new tasks are those that accepted events behind the sequence create,
-- and its updated tasks those whose state such events change and none of them creates: in both, the
-- view's task of each id, once, in the order in which the log first creates or changes it, and none
-- where the view has no task of the id. Of more than 20 the delta shows the last 20, and of every task
-- the title is cut. Neither depends on the actor.
pub compute_wakeup_delta-tasks :
    (events : List RunEvent) (from : ℤ) (actor : ActorRef) (view : PromptView)
    → let tasks = tasks_by_id [] view.tasks in
      let made = in_order [] (created_since from events) in
      let changed = in_order [] (changed_since from events) in
      let delta = compute_wakeup_delta events from actor view in
      Shows task_view (entries tasks made) delta.new_tasks
      × Shows task_view (entries tasks (filter (unlisted made) changed)) delta.updated_tasks
unfolding entries lookup compute_wakeup_delta trim_tasks
compute_wakeup_delta-tasks events from actor view =
    let tasks = tasks_by_id [] view.tasks in
    let artifacts = artifacts_by_id [] view.artifacts in
    let delta = compute_wakeup_delta events from actor view in
    let held =
      collect_all-Holding tasks artifacts actor from
        (tasks_by_id-ById [] view.tasks (λ i t h. absurd (cc (h)))) events nothing_collected [] []
        (record { news = refl; updates = refl }) in
    (
      subst (λ dict. Shows task_view dict delta.new_tasks) held.news (last-Shows task_view _),
      subst (λ dict. Shows task_view dict delta.updated_tasks) held.updates
          (last-Shows task_view _),
    )
