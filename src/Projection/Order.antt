-- ===== src/Projection/Order.antt =====
-- The mailbox view is the messages of the log, in its order.
use pluto_agent_platform.Common.{
  String, List, [], ◌∷◌, ◌++◌, map, ◌≡◌, refl, false, arith, eq_iff, sym, ◌∙◌, ap, subst,
}
use mathlib.Core.List.{map-append, append_assoc, append-nil}
use pluto_agent_platform.Common.Dict.{has, has-append, add_fresh}
use pluto_agent_platform.Protocol.Event.{EventBody, RunEvent, mailbox_message_appended}
use pluto_agent_platform.Kernel.Replay.{Distinct}
use pluto_agent_platform.Projection.Mailbox.{
  Message, MailboxReducerState, message_of, mailbox_reducer, apply_to_mailbox,
  initial_mailbox_state,
}
use pluto_agent_platform.Projection.Replay.{reduce_events, replay_mailbox}

-- The messages that an event of a body appends, and those of a log.
abbrev messages_of : RunEvent → EventBody → List Message
messages_of e (mailbox_message_appended p) = message_of e p ∷ []
messages_of e _ = []

abbrev pub messages_in : List RunEvent → List Message
messages_in [] = []
messages_in (e ∷ es) = messages_of e e.body ++ messages_in es

abbrev pub message_ids : List Message → List String
message_ids = map (λ m. m.message_id)

Distinct-fresh :
    (xs : List String) (a : String) (ys : List String) → Distinct (xs ++ a ∷ ys) → has xs a ≡ false
Distinct-fresh [] a ys d = refl
Distinct-fresh (x ∷ xs) a ys d =
    ground
      (arith, Distinct-fresh xs a ys d.1, d.0, has-append xs (a ∷ ys) x, eq_iff x a, eq_iff a x)

-- The state whose ids are those of its messages.
abbrev Keyed : MailboxReducerState → Type 0
Keyed s = s.seen_message_ids ≡ message_ids s.messages

append_message :
    (s : MailboxReducerState) (e : RunEvent) (b : EventBody) (rest : List Message)
    → Keyed s
    → Distinct (message_ids (s.messages ++ (messages_of e b ++ rest)))
    → Keyed (apply_to_mailbox s e b)
      × ((apply_to_mailbox s e b).messages ≡ s.messages ++ messages_of e b)
append_message s e (mailbox_message_appended p) rest k d =
    let ids = map-append (λ m. m.message_id) s.messages (message_of e p ∷ []) in
    rw fresh (
      add_fresh s.seen_message_ids p.message_id fresh
          ∙ ap (λ xs. xs ++ p.message_id ∷ []) k
          ∙ sym ids,
      refl,
    )
  where
    unseen : has (message_ids s.messages) p.message_id ≡ false
    unseen =
        Distinct-fresh (message_ids s.messages) p.message_id (message_ids rest)
          (subst Distinct (map-append (λ m. m.message_id) s.messages (message_of e p ∷ rest)) d)

    fresh : has s.seen_message_ids p.message_id ≡ false
    fresh = rw k unseen
append_message s e b rest k d = (k, sym (append-nil s.messages))

collect :
    (es : List RunEvent) (s : MailboxReducerState)
    → Keyed s
    → Distinct (message_ids (s.messages ++ messages_in es))
    → (reduce_events mailbox_reducer s es).messages ≡ s.messages ++ messages_in es
unfolding mailbox_reducer
collect [] s k d = sym (append-nil s.messages)
collect (e ∷ es) s k d =
    let (keyed, now) = append_message s e e.body (messages_in es) k d in
    let all : (apply_to_mailbox s e e.body).messages ++ messages_in es
        ≡ s.messages ++ (messages_of e e.body ++ messages_in es) =
      ap (λ ms. ms ++ messages_in es) now
      ∙ append_assoc s.messages (messages_of e e.body) (messages_in es) in
    collect es (apply_to_mailbox s e e.body) keyed
      (subst (λ ms. Distinct (message_ids ms)) (sym all) d)
    ∙ all

-- Where no message id occurs twice, the mailbox view holds every message of the log, once and in the
-- order of the log.
pub replay_mailbox-messages_in :
    (es : List RunEvent)
    → Distinct (message_ids (messages_in es))
    → replay_mailbox es ≡ messages_in es
unfolding replay_mailbox
replay_mailbox-messages_in es d = collect es initial_mailbox_state refl d
