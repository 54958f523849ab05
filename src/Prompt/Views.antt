-- ===== src/Prompt/Views.antt =====
-- adapters/paseo/wakeup-delta.ts: the views, their limits, and what an actor sees of the log. A text that is
-- cut is the list of its UTF-16 code units, as JavaScript has it. The rejected directive and the
-- budgets are passed on as they are.
use pluto_agent_platform.Common.{
  ℕ, String, Bool, true, false, not, ◌&&◌, ◌||◌, Option, none, some, List, [], ◌∷◌, ◌++◌, length,
  take, drop, leb, ltb, if◌then◌else◌, ◌+◌, ◌-◌,
}
use pluto_agent_platform.Protocol.Event.{
  broadcast, accepted, rejected, mailbox_message_appended, Recipient, RunEvent, EventBody,
}
use Prim.Native.Nat.{◌/◌, ◌%◌}
use pluto_agent_platform.Common.Text.{codes}
use pluto_agent_platform.Protocol.Actor.{ActorRef, same_actor, is_lead_actor}
use pluto_agent_platform.Protocol.Event.{
  MailboxMessageKind, ArtifactPublishedKind, Recipient, MailboxMessageAppendedPayload, Outcome,
  RunEvent, mailbox_message_appended,
}
use pluto_agent_platform.Protocol.Parse.{Value}

-- The code units of a code point.
abbrev units : ℕ → List ℕ
units c =
    if ltb c 0x10000
    then c ∷ []
    else (0xD800 + (c - 0x10000) / 0x400) ∷ (0xDC00 + (c - 0x10000) % 0x400) ∷ []

abbrev units_of_codes : List ℕ → List ℕ
units_of_codes [] = []
units_of_codes (c ∷ cs) = units c ++ units_of_codes cs

abbrev pub units_of : String → List ℕ
units_of s = units_of_codes (codes s)

pub record TaskView : Type 0 where
  pub id : String
  pub title : List ℕ
  pub owner_actor : Option ActorRef
  pub state : String

pub record MailboxMessageView : Type 0 where
  pub sequence : ℕ
  pub from : ActorRef
  pub to : ActorRef
  pub kind : MailboxMessageKind
  pub body : List ℕ

pub record ArtifactView : Type 0 where
  pub id : String
  pub kind : ArtifactPublishedKind
  pub media_type : String
  pub byte_size : ℕ

pub record RejectionView : Type 0 where
  pub directive : Value
  pub error : List ℕ

-- The part of a `PromptView` that the delta is computed from.
pub record PromptView : Type 0 where
  pub tasks : List TaskView
  pub mailbox : List MailboxMessageView
  pub artifacts : List ArtifactView
  pub active_delegation : Option ActorRef
  pub budgets : Value
  pub last_rejection : Option RejectionView

pub record WakeupPromptDelta : Type 0 where
  pub new_tasks : List TaskView
  pub updated_tasks : List TaskView
  pub new_mailbox : List MailboxMessageView
  pub new_artifacts : List ArtifactView
  pub delegation : Option ActorRef
  pub budgets : Value
  pub last_rejection : Option RejectionView

abbrev pub truncated_mark : List ℕ
truncated_mark = units_of "...[truncated]"

unfoldable pub truncate : List ℕ → ℕ → List ℕ
truncate value max_chars =
    if leb (length value) max_chars then value else take (max_chars - 16) value ++ truncated_mark

-- `slice(-n)` for a positive n.
unfoldable pub last : {A : Type 0} → ℕ → List A → List A
last n xs = drop (length xs - n) xs

abbrev pub task_view : TaskView → TaskView
task_view t = record t { title = truncate t.title 160 }

abbrev pub mailbox_view : MailboxMessageView → MailboxMessageView
mailbox_view m = record m { body = truncate m.body 240 }

abbrev pub rejection_view : Option RejectionView → Option RejectionView
rejection_view none = none
rejection_view (some r) = some (record { directive = r.directive; error = truncate r.error 240 })

abbrev receives : ActorRef → Recipient → Bool
receives actor (Recipient.actor a) = same_actor a actor
receives actor broadcast = false

abbrev is_broadcast : Recipient → Bool
is_broadcast broadcast = true
is_broadcast _ = false

abbrev visible_message : ActorRef → MailboxMessageAppendedPayload → Bool
visible_message actor p =
    not (is_broadcast p.to_actor)
    && (is_lead_actor actor || (same_actor p.from_actor actor || receives actor p.to_actor))

abbrev pub accepts : Outcome → Bool
accepts accepted = true
accepts rejected = false

abbrev visible_mailbox_body : ActorRef → Outcome → EventBody → Bool
visible_mailbox_body actor outcome (mailbox_message_appended p) =
    accepts outcome && visible_message actor p
visible_mailbox_body actor outcome _ = false

unfoldable pub is_visible_mailbox_event : ActorRef → RunEvent → Bool
unfolding same_actor is_lead_actor
is_visible_mailbox_event actor e = visible_mailbox_body actor e.outcome e.body

abbrev sees_body : ActorRef → RunEvent → EventBody → Bool
sees_body actor e (mailbox_message_appended p) =
    if is_lead_actor actor
    then not (accepts e.outcome) || not (is_broadcast p.to_actor)
    else is_visible_mailbox_event actor e
sees_body actor e _ = true

unfoldable pub is_visible_event : ActorRef → RunEvent → Bool
unfolding is_visible_mailbox_event
is_visible_event actor e = sees_body actor e e.body
