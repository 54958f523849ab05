-- ===== src/Prompt/Collects.antt =====
-- The loop of adapters/paseo/wakeup-delta.ts collects the tasks that events of the log create or change.
use pluto_agent_platform.Common.{
  String, Bool, true, false, Option, none, some, List, [], ◌∷◌, ◌≡◌, refl, is_some, if◌then◌else◌,
  Bool-cases, inl, inr, sym, ◌∙◌, ap, filter, Option-cases,
}
use pluto_agent_platform.Common.Int.{ℤ, leb_ℤ, pos}
use pluto_agent_platform.Common.Dict.{has, lookup, remove, insert}
use pluto_agent_platform.Protocol.Actor.{ActorRef}
use pluto_agent_platform.Protocol.Event.{
  EventBody, RunEvent, broadcast, run_started, run_completed, mailbox_message_appended,
  artifact_published, request_rejected, task_created, task_state_changed, Recipient,
  MailboxMessageAppendedPayload,
}
use pluto_agent_platform.Prompt.Views.{
  TaskView, ArtifactView, accepts, is_visible_event, is_visible_mailbox_event,
}
use pluto_agent_platform.Prompt.Delta.{
  Collected, put_new, put_updated, collect_body, put_message, collect, collect_all,
}
use pluto_agent_platform.Prompt.Lookups.{ById}
use pluto_agent_platform.Prompt.Orders.{
  put, in_order, recent, created_by, changed_by, created_since, changed_since, unlisted,
  in_order-append, filter-put_known, filter-put_listed, filter-put-unlisted, entries, entries-put,
  entries-put_absent, entries-without, entries-without_absent, lookup-entries,
}

module _ (tasks : List (String × TaskView)) (artifacts : List (String × ArtifactView))
    (actor : ActorRef) (from : ℤ) (keyed : ById tasks) where
  -- The maps hold the view's tasks of the created ids, and of the changed ones that are not created.
  pub record Holding (c : Collected) (made changed : List String) : Type 0 where
    pub news : c.new_tasks ≡ entries tasks made
    pub updates : c.updated_tasks ≡ entries tasks (filter (unlisted made) changed)

  put_new-Holding :
      (k : String) (o : Option TaskView) (c : Collected) (made changed : List String)
      → lookup k tasks ≡ o
      → Holding c made changed
      → Holding (put_new o c) (put k made) changed
  put_new-Holding k none c made changed q v = record {
    news = v.news ∙ sym (entries-put_absent tasks k made q);
    updates =
        v.updates
        ∙ sym (
            ap (entries tasks) (filter-put_known k made changed)
            ∙ entries-without_absent tasks k (filter (unlisted made) changed) q);
  }
  put_new-Holding k (some t) c made changed q v = record {
    news =
        ap (λ i. insert i t c.new_tasks) (keyed k t q)
        ∙ ap (insert k t) v.news
        ∙ entries-put tasks k t made q;
    updates =
        ap (λ i. remove i c.updated_tasks) (keyed k t q)
        ∙ ap (remove k) v.updates
        ∙ entries-without tasks k (filter (unlisted made) changed)
        ∙ sym (ap (entries tasks) (filter-put_known k made changed));
  }

  put_updated-Holding :
      (k : String) (o : Option TaskView) (c : Collected) (made changed : List String)
      → lookup k tasks ≡ o
      → has made k ≡ false
      → Holding c made changed
      → Holding (put_updated o c) made (put k changed)
  put_updated-Holding k none c made changed q new v = record {
    news = v.news;
    updates =
        v.updates
        ∙ sym (
            ap (entries tasks) (filter-put-unlisted k made changed new)
            ∙ entries-put_absent tasks k (filter (unlisted made) changed) q);
  }
  put_updated-Holding k (some t) c made changed q new v = record {
    news = v.news;
    updates =
        ap (λ i. insert i t c.updated_tasks) (keyed k t q)
        ∙ ap (insert k t) v.updates
        ∙ entries-put tasks k t (filter (unlisted made) changed) q
        ∙ sym (ap (entries tasks) (filter-put-unlisted k made changed new));
  }

  listed-Holding :
      (k : String) (c : Collected) (made changed : List String)
      → has made k ≡ true
      → Holding c made changed
      → Holding c made (put k changed)
  listed-Holding k c made changed listed v = record {
    news = v.news;
    updates = v.updates ∙ sym (ap (entries tasks) (filter-put_listed k made changed listed));
  }

  known_new :
      (k : String) (c : Collected) (made changed : List String)
      → Holding c made changed
      → lookup k c.new_tasks ≡ (if has made k then lookup k tasks else none)
  known_new k c made changed v = ap (lookup k) v.news ∙ lookup-entries tasks k made

  changed-Holding :
      (k : String) (c : Collected) (made changed : List String)
      → Holding c made changed
      → Holding
          (if is_some (lookup k c.new_tasks) then c else put_updated (lookup k tasks) c)
          made
          (put k changed)
  changed-Holding k c made changed v = elim (Bool-cases (has made k)) [
    | inl listed ↦ elim (Option-cases (lookup k tasks)) [
      | inl absent ↦
          rw (known_new k c made changed v, listed, absent)
            (listed-Holding k c made changed listed v)
      | inr (t, found) ↦
          rw (known_new k c made changed v, listed, found)
            (listed-Holding k c made changed listed v)
    ]
    | inr new ↦
        rw (known_new k c made changed v, new)
          (put_updated-Holding k (lookup k tasks) c made changed refl new v)
  ]

  message-Holding :
      (e : RunEvent) (p : MailboxMessageAppendedPayload) (to : Recipient) (c : Collected)
      (made changed : List String)
      → Holding c made changed
      → Holding (put_message e.sequence p to c) made changed
  message-Holding e p broadcast c made changed v = v
  message-Holding e p (Recipient.actor a) c made changed v = record {
    news = v.news;
    updates = v.updates;
  }

  -- One event behind the sequence that the actor sees.
  body-Holding :
      (e : RunEvent) (b : EventBody) (c : Collected) (made changed : List String)
      → Holding c made changed
      → Holding
          (collect_body tasks artifacts actor e b c)
          (in_order made (created_by (accepts e.outcome) b))
          (in_order changed (changed_by (accepts e.outcome) b))
  unfolding in_order
  body-Holding e (task_created p) c made changed v = elim (Bool-cases (accepts e.outcome)) [
    | inl taken ↦
        rw taken (put_new-Holding p.task_id (lookup p.task_id tasks) c made changed refl v)
    | inr refused ↦ rw refused v
  ]
  body-Holding e (task_state_changed p) c made changed v = elim (Bool-cases (accepts e.outcome)) [
    | inl taken ↦ rw taken (changed-Holding p.task_id c made changed v)
    | inr refused ↦ rw refused v
  ]
  body-Holding e (mailbox_message_appended p) c made changed v =
      elim (Bool-cases (accepts e.outcome)) [
        | inl taken ↦ rw taken (seen p.to_actor)
        | inr refused ↦ rw refused (seen p.to_actor)
      ]
    where
      seen :
          (to : Recipient)
          → Holding
              (if is_visible_mailbox_event actor e then put_message e.sequence p to c else c)
              made
              changed
      seen to = elim (Bool-cases (is_visible_mailbox_event actor e)) [
        | inl shown ↦ rw shown (message-Holding e p to c made changed v)
        | inr hidden ↦ rw hidden v
      ]
  body-Holding e (artifact_published p) c made changed v = elim (Bool-cases (accepts e.outcome)) [
    | inl taken ↦ rw taken (record { news = v.news; updates = v.updates })
    | inr refused ↦ rw refused v
  ]
  body-Holding e (run_started p) c made changed v = elim (Bool-cases (accepts e.outcome)) [
    | inl taken ↦ rw taken v
    | inr refused ↦ rw refused v
  ]
  body-Holding e (run_completed p) c made changed v = elim (Bool-cases (accepts e.outcome)) [
    | inl taken ↦ rw taken v
    | inr refused ↦ rw refused v
  ]
  body-Holding e (request_rejected p) c made changed v = elim (Bool-cases (accepts e.outcome)) [
    | inl taken ↦ rw taken v
    | inr refused ↦ rw refused v
  ]

  -- An event that is passed over is of no account.
  past-Holding :
      (e : RunEvent) (b : EventBody) (c : Collected) (made changed : List String)
      → Holding c made changed
      → Holding c (in_order made (created_by false b)) (in_order changed (changed_by false b))
  unfolding in_order
  past-Holding e b c made changed v = v

  hidden-Holding :
      (e : RunEvent) (b : EventBody) (recently : Bool) (c : Collected) (made changed : List String)
      → e.body ≡ b
      → is_visible_event actor e ≡ false
      → Holding c made changed
      → Holding c (in_order made (created_by recently b)) (in_order changed (changed_by recently b))
  unfolding in_order is_visible_event
  hidden-Holding e b false c made changed q hidden v = v
  hidden-Holding e (task_created p) true c made changed q hidden v = absurd (cc (rw q at hidden))
  hidden-Holding e (task_state_changed p) true c made changed q hidden v =
      absurd (cc (rw q at hidden))
  hidden-Holding e (mailbox_message_appended p) true c made changed q hidden v = v
  hidden-Holding e (artifact_published p) true c made changed q hidden v = v
  hidden-Holding e (run_started p) true c made changed q hidden v = v
  hidden-Holding e (run_completed p) true c made changed q hidden v = v
  hidden-Holding e (request_rejected p) true c made changed q hidden v = v

  collect-Holding :
      (e : RunEvent) (c : Collected) (made changed : List String)
      → Holding c made changed
      → Holding
          (collect tasks artifacts actor from e c)
          (in_order made (created_by (recent from e) e.body))
          (in_order changed (changed_by (recent from e) e.body))
  unfolding collect
  collect-Holding e c made changed v = elim (Bool-cases (leb_ℤ (pos e.sequence) from)) [
    | inl past ↦ rw past (past-Holding e e.body c made changed v)
    | inr later ↦ elim (Bool-cases (is_visible_event actor e)) [
      | inl shown ↦ rw (later, shown) (body-Holding e e.body c made changed v)
      | inr hidden ↦
          rw (later, hidden)
            (hidden-Holding e e.body (accepts e.outcome) c made changed refl hidden v)
    ]
  ]

  pub collect_all-Holding :
      (es : List RunEvent) (c : Collected) (made changed : List String)
      → Holding c made changed
      → Holding
          (collect_all tasks artifacts actor from es c)
          (in_order made (created_since from es))
          (in_order changed (changed_since from es))
  unfolding collect_all created_since changed_since in_order
  collect_all-Holding [] c made changed v = v
  collect_all-Holding (e ∷ es) c made changed v =
      rw
        (
          in_order-append made (created_by (recent from e) e.body) (created_since from es),
          in_order-append changed (changed_by (recent from e) e.body) (changed_since from es),
        )
        (collect_all-Holding es (collect tasks artifacts actor from e c)
          (in_order made (created_by (recent from e) e.body))
          (in_order changed (changed_by (recent from e) e.body))
          (collect-Holding e c made changed v))
