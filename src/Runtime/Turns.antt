-- ===== src/Runtime/Turns.antt =====
-- The three ways on which the turn loop goes on.
use pluto_agent_platform.Common.{String, Option, none, some, ◌≡◌, refl, arith}
use pluto_agent_platform.Protocol.Event.{RunEvent, request_rejected, EventBody}
use pluto_agent_platform.Protocol.Request.{RequestBody}
use pluto_agent_platform.Runtime.Scheduler.{SchedulerState}
use pluto_agent_platform.Runtime.Driver.{
  Turn, wait_failed, silent, observed, continues, take_turn, rejected_turn, silent_turn,
  accepted_turn, wait_failed, observed,
}

-- An event that reaches the scheduler is no rejection.
abbrev pub NotRejection : EventBody → Type 0
NotRejection (request_rejected p) = ⊥
NotRejection _ = Unit {0}

pub data Passes (s s' : SchedulerState) : Type 0 where
  rejects : (d : RequestBody) (m : String) → s' ≡ rejected_turn s d m → Passes s s'
  waits : s' ≡ silent_turn s → Passes s s'
  accepts :
      (d : RequestBody) (e : RunEvent)
      → NotRejection e.body
      → s' ≡ accepted_turn s d e
      → Passes s s'

pub take_turn-Passes :
    (s s' : SchedulerState) (t : Turn) → take_turn s t ≡ continues s' → Passes s s'
unfolding take_turn
take_turn-Passes s s' (wait_failed d m) h = rejects d m (cc (h))
take_turn-Passes s s' silent h = waits (cc (h))
take_turn-Passes s s' (observed o) h = by_error o.error refl
  where
    continues_injective : {u v : SchedulerState} → continues u ≡ continues v → v ≡ u
    continues_injective q = cc

    by_event : (x : Option RunEvent) → o.error ≡ none → o.event ≡ x → Passes s s'
    by_event none q r = rejects o.directive _ (continues_injective (rw (q, r) at h))
    by_event (some e) q r = by_body e.body refl
      where
        by_body : (b : EventBody) → e.body ≡ b → Passes s s'
        by_body (request_rejected p) k =
            rejects o.directive p.detail (continues_injective (rw (q, r, k) at h))
        by_body b k =
            let is_next : s' ≡ accepted_turn s o.directive e = ground arith in
            accepts o.directive e (rw k (ground arith)) is_next

    by_error : (x : Option String) → o.error ≡ x → Passes s s'
    by_error (some m) q = rejects o.directive m (continues_injective (rw q at h))
    by_error none q = by_event o.event q refl
