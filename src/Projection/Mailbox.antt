-- ===== src/Projection/Mailbox.antt =====
-- projections/mailbox-projection.ts.
use pluto_agent_platform.Common.{ℕ, String, List, [], ◌∷◌, ◌++◌, if◌then◌else◌}
use pluto_agent_platform.Common.Dict.{has, add}
use pluto_agent_platform.Protocol.Event.{
  EventBody, mailbox_message_appended, MailboxMessageAppendedPayload, RunEvent,
}

-- `MailboxProjectionMessage`: the payload, its sequence and its event.
pub record Message : Type 0 where
  pub payload : MailboxMessageAppendedPayload
  pub open payload use *
  pub sequence : ℕ
  pub event_id : String

-- `MailboxReducerState`.
pub record MailboxReducerState : Type 0 where
  pub messages : List Message
  pub seen_message_ids : List String

abbrev pub initial_mailbox_state : MailboxReducerState
initial_mailbox_state = record { messages = []; seen_message_ids = [] }

abbrev pub message_of : RunEvent → MailboxMessageAppendedPayload → Message
message_of event p = record { payload = p; sequence = event.sequence; event_id = event.event_id }

abbrev pub apply_to_mailbox : MailboxReducerState → RunEvent → EventBody → MailboxReducerState
apply_to_mailbox state event (mailbox_message_appended p) =
    if has state.seen_message_ids p.message_id then state else record {
      messages = state.messages ++ message_of event p ∷ [];
      seen_message_ids = add state.seen_message_ids p.message_id;
    }
apply_to_mailbox state event _ = state

unfoldable pub mailbox_reducer : MailboxReducerState → RunEvent → MailboxReducerState
unfolding add
mailbox_reducer state event = apply_to_mailbox state event event.body
