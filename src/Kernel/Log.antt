-- ===== src/Kernel/Log.antt =====
-- core/run-event-log.ts: the in-memory event log, which takes events in sequence and each id once.
use pluto_agent_platform.Common.{
  ℕ, String, Bool, not, List, [], ◌∷◌, ◌++◌, length, take, drop, nat_eq, if◌then◌else◌,
}
use pluto_agent_platform.Common.Int.{ℤ, pos, suc_ℤ, pred_ℕ}
use pluto_agent_platform.Common.Dict.{has, add}
use pluto_agent_platform.Protocol.Event.{RunEvent}

-- Every error that the kernel throws.
pub data Fault : Type 0 where
  log_not_empty : Fault
  schema_error : Fault
  duplicate_append : String → Fault
  sequence_gap : ℤ → ℕ → Fault
  missing_task : String → Fault
  type_error : Fault

pub data Result {ℓ} (A : Type ℓ) : Type ℓ where
  returned : A → Result A
  thrown : Fault → Result A

pub record EventLog : Type 0 where
  pub events : List RunEvent
  pub event_ids : List String

abbrev pub empty_log : EventLog
empty_log = record { events = []; event_ids = [] }

-- The highest sequence, or -1.
unfoldable pub head : EventLog → ℤ
head log = pred_ℕ (length log.events)

abbrev pub is_pos : ℤ → ℕ → Bool
is_pos (pos n) m = nat_eq n m
is_pos _ m = Bool.false

unfoldable pub append : EventLog → RunEvent → Result EventLog
unfolding head add
append log event =
    if has log.event_ids event.event_id
    then thrown (duplicate_append event.event_id)
    else if not (is_pos (suc_ℤ (head log)) event.sequence)
    then thrown (sequence_gap (suc_ℤ (head log)) event.sequence)
    else returned
        (record { events = log.events ++ event ∷ []; event_ids = add log.event_ids event.event_id })

-- `slice(from, to)` at non-negative bounds.
unfoldable pub read : EventLog → ℕ → ℕ → List RunEvent
read log from to = drop from (take to log.events)

unfoldable pub has_event_id : EventLog → String → Bool
has_event_id log id = has log.event_ids id
