-- ===== src/Prompt/Delivers.antt =====
-- A message that wakes an actor reaches it: api/wait-registry.ts and adapters/paseo/wakeup-delta.ts.
use pluto_agent_platform.Common.{
  ℕ, String, true, false, none, List, [], ◌∷◌, ◌++◌, ◌≡◌, refl, not, map, nat_eq, All, arith, ap,
  ◌∙◌, Bool-cases, inl, inr, length, drop, ◌-◌, zero, suc, ◌≤◌, Option, some, ◌||◌, length-append,
  is_some,
}
use pluto_agent_platform.Common.Int.{ℤ, pos, leb_ℤ}
use pluto_agent_platform.Protocol.Actor.{ActorRef, is_lead_actor}
use pluto_agent_platform.Protocol.Event.{
  RunEvent, EventBody, accepted, mailbox_message_appended, MailboxMessageAppendedPayload, Recipient,
  broadcast, run_started, run_completed, task_created, task_state_changed, artifact_published,
  request_rejected,
}
use pluto_agent_platform.Runtime.Waits
use pluto_agent_platform.Prompt.Views
use pluto_agent_platform.Prompt.Views.{
  MailboxMessageView, TaskView, ArtifactView, PromptView, mailbox_view, units_of, last,
  is_visible_mailbox_event, is_visible_event,
}
use pluto_agent_platform.Prompt.Delta.{
  Collected, collect, collect_body, collect_all, put_new, put_updated, put_message, set_message,
  compute_wakeup_delta, tasks_by_id, artifacts_by_id, nothing_collected, trim_mailbox,
}
use pluto_agent_platform.Prompt.Wakes.{collect-guard, collect_all-append}
use pluto_agent_platform.Common.Dict.{lookup}

-- No message has the sequence.
abbrev Unheard : ℕ → List (ℕ × MailboxMessageView) → Type 0
Unheard n = All (λ (entry : ℕ × MailboxMessageView). nat_eq entry.0 n ≡ false)

set_message-Unheard :
    (n k : ℕ) (m : MailboxMessageView) (box : List (ℕ × MailboxMessageView))
    → nat_eq k n ≡ false
    → Unheard n box
    → Unheard n (set_message k m box)
unfolding set_message
set_message-Unheard n k m [] other u = (other, tt)
set_message-Unheard n k m (entry ∷ box) other u = elim (Bool-cases (nat_eq entry.0 k)) [
  | inl hit ↦ rw hit (other, u.1)
  | inr miss ↦ rw miss (u.0, set_message-Unheard n k m box other u.1)
]

set_message-last :
    (n : ℕ) (m : MailboxMessageView) (box : List (ℕ × MailboxMessageView))
    → Unheard n box
    → set_message n m box ≡ box ++ (n, m) ∷ []
unfolding set_message
set_message-last n m [] u = refl
set_message-last n m (entry ∷ box) u =
    rw u.0 (ap (λ rest. entry ∷ rest) (set_message-last n m box u.1))

module _ (tasks : List (String × TaskView)) (artifacts : List (String × ArtifactView))
    (actor : ActorRef) (from : ℤ) (n : ℕ) where
  put_new-mailbox : (o : Option TaskView) (c : Collected) → (put_new o c).mailbox ≡ c.mailbox
  put_new-mailbox none c = refl
  put_new-mailbox (some t) c = refl

  put_updated-mailbox :
      (o : Option TaskView) (c : Collected) → (put_updated o c).mailbox ≡ c.mailbox
  put_updated-mailbox none c = refl
  put_updated-mailbox (some t) c = refl

  put_message-Unheard :
      (k : ℕ) (p : MailboxMessageAppendedPayload) (to : Recipient) (c : Collected)
      → nat_eq k n ≡ false
      → Unheard n c.mailbox
      → Unheard n (put_message k p to c).mailbox
  put_message-Unheard k p broadcast c other u = u
  put_message-Unheard k p (Recipient.actor a) c other u =
      set_message-Unheard n k _ c.mailbox other u

  collect_body-Unheard :
      (e : RunEvent) (b : EventBody) (c : Collected)
      → nat_eq e.sequence n ≡ false
      → Unheard n c.mailbox
      → Unheard n (collect_body tasks artifacts actor e b c).mailbox
  collect_body-Unheard e (task_created p) c other u = elim (Bool-cases (Views.accepts e.outcome)) [
    | inl taken ↦ rw (taken, put_new-mailbox) u
    | inr refused ↦ rw refused u
  ]
  collect_body-Unheard e (task_state_changed p) c other u =
      elim (Bool-cases (not (Views.accepts e.outcome) || is_some (lookup p.task_id c.new_tasks))) [
        | inl kept ↦ rw kept u
        | inr taken ↦ rw (taken, put_updated-mailbox) u
      ]
  collect_body-Unheard e (mailbox_message_appended p) c other u =
      elim (Bool-cases (is_visible_mailbox_event actor e)) [
        | inl seen ↦ rw seen (put_message-Unheard e.sequence p p.to_actor c other u)
        | inr unseen ↦ rw unseen u
      ]
  collect_body-Unheard e (artifact_published p) c other u =
      elim (Bool-cases (Views.accepts e.outcome)) [
        | inl taken ↦ rw taken u
        | inr refused ↦ rw refused u
      ]
  collect_body-Unheard e (run_started p) c other u = u
  collect_body-Unheard e (run_completed p) c other u = u
  collect_body-Unheard e (request_rejected p) c other u = u

  collect-Unheard :
      (e : RunEvent) (c : Collected)
      → nat_eq e.sequence n ≡ false
      → Unheard n c.mailbox
      → Unheard n (collect tasks artifacts actor from e c).mailbox
  unfolding collect
  collect-Unheard e c other u =
      elim (Bool-cases (leb_ℤ (pos e.sequence) from || not (is_visible_event actor e))) [
        | inl past ↦ rw past u
        | inr shown ↦ rw shown (collect_body-Unheard e e.body c other u)
      ]

  collect_all-Unheard :
      (es : List RunEvent) (c : Collected)
      → All (λ (e : RunEvent). nat_eq e.sequence n ≡ false) es
      → Unheard n c.mailbox
      → Unheard n (collect_all tasks artifacts actor from es c).mailbox
  unfolding collect_all
  collect_all-Unheard [] c others u = u
  collect_all-Unheard (e ∷ es) c others u =
      collect_all-Unheard es (collect tasks artifacts actor from e c) others.1
        (collect-Unheard e c others.0 u)

abbrev message_view : ℕ → MailboxMessageAppendedPayload → ActorRef → MailboxMessageView
message_view n p to = record {
  sequence = n;
  from = p.from_actor;
  to = to;
  kind = p.kind;
  body = units_of p.body;
}

wakes-mailbox_event :
    (actor : ActorRef) (from : ℤ) (e : RunEvent) (p : MailboxMessageAppendedPayload) (to : ActorRef)
    → e.body ≡ mailbox_message_appended p
    → e.outcome ≡ accepted
    → p.to_actor ≡ Recipient.actor to
    → Waits.wakes actor from e ≡ true
    → is_visible_mailbox_event actor e ≡ true
unfolding Waits.wakes Waits.is_visible_event is_visible_mailbox_event
wakes-mailbox_event actor from e p to b o t w = elim (Bool-cases (is_lead_actor actor)) [
  | inl leads ↦ rw (b, o, t, leads) refl
  | inr follows ↦ rw (b, o, t, follows) (ground (arith, rw (b, o, t, follows) at w))
]

map-append : {A B : Type 0} (f : A → B) (xs ys : List A) → map f (xs ++ ys) ≡ map f xs ++ map f ys
map-append f [] ys = refl
map-append f (x ∷ xs) ys = ap (λ rest. f x ∷ rest) (map-append f xs ys)

drop_within :
    {A : Type 0} (n : ℕ) (xs ys : List A) → n ≤ length xs → drop n (xs ++ ys) ≡ drop n xs ++ ys
drop_within zero xs ys h = refl
drop_within (suc n) [] ys h = absurd (omega (arith, h))
drop_within (suc n) (x ∷ xs) ys h = drop_within n xs ys (omega (arith, h))

last-snoc :
    {A : Type 0} (xs : List A) (x : A) → (ys : List A) × (last 20 (xs ++ x ∷ []) ≡ ys ++ x ∷ [])
unfolding last
last-snoc xs x =
    let before = length (xs ++ x ∷ []) - 20 in
    (drop before xs, drop_within before xs (x ∷ []) (omega (arith, length-append xs (x ∷ []))))

-- A message to an actor that is accepted, is the last event of the log and has a sequence of its own is the
-- last message of the delta, with its text cut, of every actor whom the registry would wake for it from
-- the delta's sequence.
pub wakes-delivers :
    (es : List RunEvent) (e : RunEvent) (from : ℤ) (actor : ActorRef) (view : PromptView)
    (p : MailboxMessageAppendedPayload) (to : ActorRef)
    → e.body ≡ mailbox_message_appended p
    → e.outcome ≡ accepted
    → p.to_actor ≡ Recipient.actor to
    → All (λ (x : RunEvent). nat_eq x.sequence e.sequence ≡ false) es
    → Waits.wakes actor from e ≡ true
    → (earlier : List MailboxMessageView) × ((compute_wakeup_delta
          (es ++ e ∷ [])
          from
          actor
          view).new_mailbox
        ≡ earlier ++ mailbox_view (message_view e.sequence p to) ∷ [])
unfolding compute_wakeup_delta collect_all collect trim_mailbox
wakes-delivers es e from actor view p to b o t fresh w =
    shown (last-snoc (map (λ entry. entry.1) before.mailbox) m)
  where
    tasks : List (String × TaskView)
    tasks = tasks_by_id [] view.tasks

    artifacts : List (String × ArtifactView)
    artifacts = artifacts_by_id [] view.artifacts

    before : Collected
    before = collect_all tasks artifacts actor from es nothing_collected

    m : MailboxMessageView
    m = message_view e.sequence p to

    message_in :
        (collect_body tasks artifacts actor e (mailbox_message_appended p) before).mailbox
        ≡ set_message e.sequence m before.mailbox
    message_in = rw (wakes-mailbox_event actor from e p to b o t w, t) refl

    taken_in :
        (collect tasks artifacts actor from e before).mailbox
        ≡ before.mailbox ++ (e.sequence, m) ∷ []
    taken_in =
        rw (collect-guard tasks artifacts actor from e, w)
          (ap (λ body. (collect_body tasks artifacts actor e body before).mailbox) b
            ∙ message_in
            ∙ set_message-last e.sequence m before.mailbox (
                collect_all-Unheard tasks artifacts actor from e.sequence es nothing_collected fresh
                  tt))

    values :
        map (λ (entry : ℕ × MailboxMessageView). entry.1) (before.mailbox ++ (e.sequence, m) ∷ [])
        ≡ map (λ entry. entry.1) before.mailbox ++ m ∷ []
    values = map-append (λ entry. entry.1) before.mailbox ((e.sequence, m) ∷ [])

    shown :
        (ys : List MailboxMessageView) × (last 20 (map (λ entry. entry.1) before.mailbox ++ m ∷ [])
            ≡ ys ++ m ∷ [])
        → (earlier : List MailboxMessageView) × ((compute_wakeup_delta
              (es ++ e ∷ [])
              from
              actor
              view).new_mailbox
            ≡ earlier ++ mailbox_view m ∷ [])
    shown (ys, ends) = (
      map mailbox_view ys,
      rw
          (
            collect_all-append tasks artifacts actor from es (e ∷ []) nothing_collected,
            taken_in,
            values,
            ends,
          )
          (map-append mailbox_view ys (m ∷ [])),
    )
