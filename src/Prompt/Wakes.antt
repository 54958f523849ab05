-- ===== src/Prompt/Wakes.antt =====
-- api/wait-registry.ts and adapters/paseo/wakeup-delta.ts have each their own test of what an actor sees.
use pluto_agent_platform.Common.{
  ◌≡◌, refl, not, Bool-cases, inl, inr, List, String, filter, ◌||◌, [], arith, false, ◌∷◌, ◌++◌,
}
use pluto_agent_platform.Common.Int.{ℤ, pos, leb_ℤ}
use pluto_agent_platform.Protocol.Actor.{ActorRef, is_lead_actor}
use pluto_agent_platform.Protocol.Event.{
  RunEvent, EventBody, Outcome, accepted, rejected, run_started, run_completed,
  mailbox_message_appended, task_created, task_state_changed, artifact_published, request_rejected,
}
use pluto_agent_platform.Prompt.Delta.{
  compute_wakeup_delta, tasks_by_id, collect, collect_all, Collected, artifacts_by_id,
  nothing_collected,
}
use pluto_agent_platform.Prompt.Views.{PromptView, TaskView, ArtifactView}
use pluto_agent_platform.Runtime.Waits
use pluto_agent_platform.Prompt.Views

sees_alike :
    (actor : ActorRef) (e : RunEvent) (b : EventBody) (o : Outcome)
    → e.body ≡ b
    → e.outcome ≡ o
    → Waits.is_visible_event actor e ≡ Views.is_visible_event actor e
unfolding Waits.is_visible_event Views.is_visible_event Views.is_visible_mailbox_event
sees_alike actor e (run_started p) o q r = rw q refl
sees_alike actor e (run_completed p) o q r = rw q refl
sees_alike actor e (task_created p) o q r = rw q refl
sees_alike actor e (task_state_changed p) o q r = rw q refl
sees_alike actor e (artifact_published p) o q r = rw q refl
sees_alike actor e (request_rejected p) o q r = rw q refl
sees_alike actor e (mailbox_message_appended p) accepted q r =
    elim (Bool-cases (is_lead_actor actor)) [
      | inl leads ↦ rw (q, r, leads) refl
      | inr follows ↦ rw (q, r, follows) refl
    ]
sees_alike actor e (mailbox_message_appended p) rejected q r =
    elim (Bool-cases (is_lead_actor actor)) [
      | inl leads ↦ rw (q, r, leads) refl
      | inr follows ↦ rw (q, r, follows) refl
    ]

module _ (tasks : List (String × TaskView)) (artifacts : List (String × ArtifactView))
    (actor : ActorRef) (from : ℤ) where
  -- The guard of the loop is the registry's test.
  pub collect-guard :
      (e : RunEvent)
      → (leb_ℤ (pos e.sequence) from || not (Views.is_visible_event actor e))
        ≡ not (Waits.wakes actor from e)
  unfolding Waits.wakes
  collect-guard e = rw (sees_alike actor e e.body e.outcome refl refl) (ground arith)

  collect-asleep :
      (e : RunEvent) (c : Collected)
      → Waits.wakes actor from e ≡ false
      → collect tasks artifacts actor from e c ≡ c
  unfolding collect
  collect-asleep e c asleep = rw (collect-guard e, asleep) refl

  collect_all-filter :
      (es : List RunEvent) (c : Collected)
      → collect_all tasks artifacts actor from es c
        ≡ collect_all tasks artifacts actor from (filter (Waits.wakes actor from) es) c
  unfolding collect_all
  collect_all-filter [] c = refl
  collect_all-filter (e ∷ es) c = elim (Bool-cases (Waits.wakes actor from e)) [
    | inl awake ↦
        rw (awake, filter) (collect_all-filter es (collect tasks artifacts actor from e c))
    | inr asleep ↦ rw (asleep, filter, collect-asleep e c asleep) (collect_all-filter es c)
  ]

  pub collect_all-append :
      (es fs : List RunEvent) (c : Collected)
      → collect_all tasks artifacts actor from (es ++ fs) c
        ≡ collect_all tasks artifacts actor from fs (collect_all tasks artifacts actor from es c)
  unfolding collect_all
  collect_all-append [] fs c = refl
  collect_all-append (e ∷ es) fs c =
      collect_all-append es fs (collect tasks artifacts actor from e c)

-- The delta of an actor's wakeup is that of the events for which the registry would wake the actor from
-- the same sequence: it takes in no other.
pub compute_wakeup_delta-wakes :
    (events : List RunEvent) (from : ℤ) (actor : ActorRef) (view : PromptView)
    → compute_wakeup_delta events from actor view
      ≡ compute_wakeup_delta (filter (Waits.wakes actor from) events) from actor view
unfolding compute_wakeup_delta
compute_wakeup_delta-wakes events from actor view =
    rw
      (collect_all-filter (tasks_by_id [] view.tasks) (artifacts_by_id [] view.artifacts) actor from
        events nothing_collected)
      refl
