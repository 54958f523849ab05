-- ===== src/Prompt/Delta.antt =====
-- adapters/paseo/wakeup-delta.ts: what is new to an actor since a sequence.
use pluto_agent_platform.Prompt.Views.{
  TaskView, MailboxMessageView, ArtifactView, units_of, last, truncate, accepts, is_visible_event,
  task_view, mailbox_view, PromptView, is_visible_mailbox_event, WakeupPromptDelta, rejection_view,
}
use pluto_agent_platform.Common.{
  ℕ, String, not, ◌||◌, Option, none, some, List, [], ◌∷◌, map, nat_eq, is_some, if◌then◌else◌,
  or_else,
}
use pluto_agent_platform.Protocol.Event.{
  broadcast, mailbox_message_appended, task_created, task_state_changed, artifact_published,
  Recipient, RunEvent, EventBody, ArtifactPublishedPayload,
}
use pluto_agent_platform.Common.Int.{ℤ, pos, leb_ℤ}
use pluto_agent_platform.Common.Dict.{lookup, insert, remove}
use pluto_agent_platform.Protocol.Actor.{ActorRef}
use pluto_agent_platform.Protocol.Event.{
  Recipient, MailboxMessageAppendedPayload, RunEvent, mailbox_message_appended,
}

-- The maps that the loop fills, in order of insertion.
pub record Collected : Type 0 where
  pub new_tasks : List (String × TaskView)
  pub updated_tasks : List (String × TaskView)
  pub mailbox : List (ℕ × MailboxMessageView)
  pub new_artifacts : List (String × ArtifactView)

abbrev pub nothing_collected : Collected
nothing_collected = record { new_tasks = []; updated_tasks = []; mailbox = []; new_artifacts = [] }

-- `mailboxBySequence.set`.
unfoldable pub set_message :
    ℕ → MailboxMessageView → List (ℕ × MailboxMessageView) → List (ℕ × MailboxMessageView)
set_message n m [] = (n, m) ∷ []
set_message n m (entry ∷ rest) =
    let later = set_message n m rest in if nat_eq entry.0 n then (n, m) ∷ rest else entry ∷ later

unfoldable pub tasks_by_id : List (String × TaskView) → List TaskView → List (String × TaskView)
unfolding insert
tasks_by_id dict [] = dict
tasks_by_id dict (t ∷ ts) = tasks_by_id (insert t.id t dict) ts

unfoldable pub artifacts_by_id :
    List (String × ArtifactView) → List ArtifactView → List (String × ArtifactView)
unfolding insert
artifacts_by_id dict [] = dict
artifacts_by_id dict (a ∷ rest) = artifacts_by_id (insert a.id a dict) rest

abbrev pub put_new : Option TaskView → Collected → Collected
put_new none c = c
put_new (some t) c = record c {
  new_tasks = insert t.id t c.new_tasks;
  updated_tasks = remove t.id c.updated_tasks;
}

abbrev pub put_updated : Option TaskView → Collected → Collected
put_updated none c = c
put_updated (some t) c = record c { updated_tasks = insert t.id t c.updated_tasks }

abbrev pub put_message : ℕ → MailboxMessageAppendedPayload → Recipient → Collected → Collected
put_message n p broadcast c = c
put_message n p (Recipient.actor to) c = record c {
  mailbox =
      set_message n
        (record {
          sequence = n;
          from = p.from_actor;
          to = to;
          kind = p.kind;
          body = units_of p.body;
        })
        c.mailbox;
}

abbrev pub published_view : ArtifactPublishedPayload → ArtifactView
published_view p = record {
  id = p.artifact_id;
  kind = p.kind;
  media_type = p.media_type;
  byte_size = p.byte_size;
}

module _ (tasks : List (String × TaskView)) (artifacts : List (String × ArtifactView))
    (actor : ActorRef) where
  abbrev pub collect_body : RunEvent → EventBody → Collected → Collected
  collect_body e (task_created p) c =
      if accepts e.outcome then put_new (lookup p.task_id tasks) c else c
  collect_body e (task_state_changed p) c =
      if not (accepts e.outcome) || is_some (lookup p.task_id c.new_tasks)
      then c
      else put_updated (lookup p.task_id tasks) c
  collect_body e (mailbox_message_appended p) c =
      if is_visible_mailbox_event actor e then put_message e.sequence p p.to_actor c else c
  collect_body e (artifact_published p) c =
      if accepts e.outcome
      then record c {
        new_artifacts =
            insert p.artifact_id (or_else (lookup p.artifact_id artifacts) (published_view p))
              c.new_artifacts;
      }
      else c
  collect_body e _ c = c

  -- One round of the loop.
  unfoldable pub collect : ℤ → RunEvent → Collected → Collected
  unfolding is_visible_event lookup insert remove set_message
  collect from e c =
      if leb_ℤ (pos e.sequence) from || not (is_visible_event actor e)
      then c
      else collect_body e e.body c

  unfoldable pub collect_all : ℤ → List RunEvent → Collected → Collected
  unfolding collect
  collect_all from [] c = c
  collect_all from (e ∷ es) c = collect_all from es (collect from e c)

unfoldable pub trim_tasks : List (String × TaskView) → List TaskView
unfolding last truncate
trim_tasks dict = map task_view (last 20 (map (λ entry. entry.1) dict))

unfoldable pub trim_mailbox : List (ℕ × MailboxMessageView) → List MailboxMessageView
unfolding last truncate
trim_mailbox dict = map mailbox_view (last 20 (map (λ entry. entry.1) dict))

unfoldable pub trim_artifacts : List (String × ArtifactView) → List ArtifactView
unfolding last
trim_artifacts dict = last 20 (map (λ entry. entry.1) dict)

unfoldable pub compute_wakeup_delta : List RunEvent → ℤ → ActorRef → PromptView → WakeupPromptDelta
unfolding collect_all trim_tasks trim_mailbox trim_artifacts tasks_by_id artifacts_by_id truncate
compute_wakeup_delta events from actor view =
    let c =
      collect_all (tasks_by_id [] view.tasks) (artifacts_by_id [] view.artifacts) actor from events
        nothing_collected in
    record {
      new_tasks = trim_tasks c.new_tasks;
      updated_tasks = trim_tasks c.updated_tasks;
      new_mailbox = trim_mailbox c.mailbox;
      new_artifacts = trim_artifacts c.new_artifacts;
      delegation = view.active_delegation;
      budgets = view.budgets;
      last_rejection = rejection_view view.last_rejection;
    }
