-- ===== src/Prompt/Limits.antt =====
-- The limits of adapters/paseo/wakeup-delta.ts.
use pluto_agent_platform.Common.{
  refl, ℕ, zero, suc, List, [], ◌∷◌, ◌≡◌, ◌≤◌, map, length, take, drop, All, some, none, arith,
  Bool-cases, inl, inr, length-append, leb, ◌-◌, String, Option,
}
use pluto_agent_platform.Prompt.Views.{
  last, truncate, WakeupPromptDelta, TaskView, MailboxMessageView, RejectionView, truncated_mark,
  mailbox_view, task_view, ArtifactView, PromptView, rejection_view,
}
use pluto_agent_platform.Prompt.Delta.{
  trim_tasks, trim_mailbox, trim_artifacts, compute_wakeup_delta, collect_all, tasks_by_id,
  artifacts_by_id, nothing_collected,
}
use pluto_agent_platform.Protocol.Event.{RunEvent}
use pluto_agent_platform.Common.Int.{ℤ}
use pluto_agent_platform.Protocol.Actor.{ActorRef}

length-take : {A : Type 0} (n : ℕ) (xs : List A) → length (take n xs) ≤ n
length-take zero xs = omega arith
length-take (suc n) [] = omega arith
length-take (suc n) (x ∷ xs) = omega (arith, length-take n xs)

pub length-drop : {A : Type 0} (n : ℕ) (xs : List A) → length (drop n xs) ≡ length xs - n
length-drop zero xs = omega arith
length-drop (suc n) [] = omega arith
length-drop (suc n) (x ∷ xs) = omega (arith, length-drop n xs)

length-map : {A B : Type 0} (f : A → B) (xs : List A) → length (map f xs) ≡ length xs
length-map f [] = omega arith
length-map f (x ∷ xs) = omega (arith, length-map f xs)

pub length-last : {A : Type 0} (n : ℕ) (xs : List A) → length (last n xs) ≤ n
unfolding last
length-last n xs = omega (arith, length-drop (length xs - n) xs)

map-All :
    {A B : Type 0} (f : A → B) (P : B → Type 0)
    → ((x : A) → P (f x))
    → (xs : List A) → All P (map f xs)
map-All f P h [] = tt
map-All f P h (x ∷ xs) = (h x, map-All f P h xs)

length-truncated_mark : length truncated_mark ≡ 14
length-truncated_mark = refl

-- A text that is cut is not longer than its limit, where the limit holds the mark of the cut.
length-truncate : (value : List ℕ) (n : ℕ) → 14 ≤ n → length (truncate value n) ≤ n
unfolding truncate
length-truncate value n h = elim (Bool-cases (leb (length value) n)) [
  | inl short ↦ rw short (ground (arith, short))
  | inr long ↦
      rw (long, length-append (take (n - 16) value) truncated_mark)
        (omega (arith, length-take (n - 16) value, length-truncated_mark, h))
]

pub record Bounded (d : WakeupPromptDelta) : Type 0 where
  pub new_tasks : length d.new_tasks ≤ 20
  pub updated_tasks : length d.updated_tasks ≤ 20
  pub new_mailbox : length d.new_mailbox ≤ 20
  pub new_artifacts : length d.new_artifacts ≤ 20
  pub new_titles : All (λ (t : TaskView). length t.title ≤ 160) d.new_tasks
  pub updated_titles : All (λ (t : TaskView). length t.title ≤ 160) d.updated_tasks
  pub bodies : All (λ (m : MailboxMessageView). length m.body ≤ 240) d.new_mailbox
  pub error : (r : RejectionView) → d.last_rejection ≡ some r → length r.error ≤ 240

tasks-Bounded :
    (dict : List (String × TaskView))
    → (length (trim_tasks dict) ≤ 20)
      × All (λ (t : TaskView). length t.title ≤ 160) (trim_tasks dict)
unfolding trim_tasks
tasks-Bounded dict =
    let shown = last 20 (map (λ (entry : String × TaskView). entry.1) dict) in
    (
      rw (length-map task_view shown) (length-last 20 (map (λ entry. entry.1) dict)),
      map-All task_view (λ t. length t.title ≤ 160) (λ t. length-truncate t.title 160 (omega arith))
          shown,
    )

mailbox-Bounded :
    (dict : List (ℕ × MailboxMessageView))
    → (length (trim_mailbox dict) ≤ 20)
      × All (λ (m : MailboxMessageView). length m.body ≤ 240) (trim_mailbox dict)
unfolding trim_mailbox
mailbox-Bounded dict =
    let shown = last 20 (map (λ (entry : ℕ × MailboxMessageView). entry.1) dict) in
    (
      rw (length-map mailbox_view shown) (length-last 20 (map (λ entry. entry.1) dict)),
      map-All mailbox_view (λ m. length m.body ≤ 240)
          (λ m. length-truncate m.body 240 (omega arith)) shown,
    )

artifacts-Bounded : (dict : List (String × ArtifactView)) → length (trim_artifacts dict) ≤ 20
unfolding trim_artifacts
artifacts-Bounded dict = length-last 20 (map (λ entry. entry.1) dict)

-- Whatever the log, the sequence, the actor and its view, a wakeup delta has at most 20 new tasks, 20
-- updated tasks, 20 messages and 20 artifacts, and no title in it is longer than 160 code units, no
-- message and no error longer than 240.
pub compute_wakeup_delta-Bounded :
    (events : List RunEvent) (from : ℤ) (actor : ActorRef) (view : PromptView)
    → Bounded (compute_wakeup_delta events from actor view)
unfolding compute_wakeup_delta
compute_wakeup_delta-Bounded events from actor view =
    let c =
      collect_all (tasks_by_id [] view.tasks) (artifacts_by_id [] view.artifacts) actor from events
        nothing_collected in
    record {
      new_tasks = (tasks-Bounded c.new_tasks).0;
      updated_tasks = (tasks-Bounded c.updated_tasks).0;
      new_mailbox = (mailbox-Bounded c.mailbox).0;
      new_artifacts = artifacts-Bounded c.new_artifacts;
      new_titles = (tasks-Bounded c.new_tasks).1;
      updated_titles = (tasks-Bounded c.updated_tasks).1;
      bodies = (mailbox-Bounded c.mailbox).1;
      error = error_bound view.last_rejection;
    }
  where
    error_bound :
        (o : Option RejectionView) (r : RejectionView)
        → rejection_view o ≡ some r
        → length r.error ≤ 240
    error_bound none r q = absurd (cc (q))
    error_bound (some x) r q =
        let bound = length-truncate x.error 240 (omega arith) in ground (arith, q, bound)
