-- ===== src/Runtime/Returns.antt =====
-- When the turn goes back to the lead in the loop of adapters/paseo/run-paseo.ts.
use pluto_agent_platform.Common.{String, Option, none, some, ◌≡◌, ◌↔◌, refl, arith, false, ◌∙◌, ap}
use pluto_agent_platform.Protocol.Actor.{is_lead_actor}
use pluto_agent_platform.Protocol.Event.{
  RunEvent, request_rejected, EventBody, RequestRejectedPayload,
}
use pluto_agent_platform.Protocol.Request.{RequestBody}
use pluto_agent_platform.Runtime.Scheduler.{
  SchedulerState, lead_actor, pick_next, with_kernel_rejection,
}
use pluto_agent_platform.Runtime.Driver.{
  Turn, wait_failed, silent, observed, continues, take_turn, rejected_turn, silent_turn,
  accepted_turn, Observed,
}
use pluto_agent_platform.Runtime.Delegation.{
  Closes, by_task, by_message, pick_next-returns, lead-is_lead_actor,
}

-- The turns that end with the lead: those that fail, and those whose event ends the delegation.
pub data Returns (s : SchedulerState) : Turn → Type 0 where
  failed : (d : RequestBody) (m : String) → Returns s (wait_failed d m)
  refused_call : (o : Observed) (m : String) → o.error ≡ some m → Returns s (observed o)
  unrecorded : (o : Observed) → o.error ≡ none → o.event ≡ none → Returns s (observed o)
  refused_request :
      (o : Observed) (e : RunEvent) (p : RequestRejectedPayload)
      → o.error ≡ none
      → o.event ≡ some e
      → e.body ≡ request_rejected p
      → Returns s (observed o)
  closed :
      (o : Observed) (e : RunEvent)
      → o.error ≡ none
      → o.event ≡ some e
      → Closes s e
      → Returns s (observed o)

continues_injective : {u v : SchedulerState} → continues u ≡ continues v → v ≡ u
continues_injective q = cc

module _ (s s' : SchedulerState) (delegate : is_lead_actor s.current_actor ≡ false) where
  rejected-lead :
      (d : RequestBody) (m : String)
      → continues (rejected_turn s d m) ≡ continues s'
      → s'.current_actor ≡ lead_actor
  unfolding rejected_turn with_kernel_rejection
  rejected-lead d m h = ap (λ (x : SchedulerState). x.current_actor) (continues_injective h)

  accepted-picked :
      (d : RequestBody) (e : RunEvent)
      → s' ≡ accepted_turn s d e
      → s'.current_actor ≡ (pick_next s e d lead_actor).actor
  unfolding accepted_turn
  accepted-picked d e h = ap (λ (x : SchedulerState). x.current_actor) h

  take_turn-Returns :
      (t : Turn) → take_turn s t ≡ continues s' → s'.current_actor ≡ lead_actor → Returns s t
  unfolding take_turn silent_turn
  take_turn-Returns (wait_failed d m) h lead = failed d m
  take_turn-Returns silent h lead =
      let kept = ap (λ (x : SchedulerState). x.current_actor) (continues_injective h) in
      absurd (cc (lead-is_lead_actor s.current_actor (rw kept at lead), delegate))
  take_turn-Returns (observed o) h lead = by_error o.error refl
    where
      by_event : (x : Option RunEvent) → o.error ≡ none → o.event ≡ x → Returns s (observed o)
      by_event none q r = unrecorded o q r
      by_event (some e) q r = by_body e.body refl
        where
          by_body : (b : EventBody) → e.body ≡ b → Returns s (observed o)
          by_body (request_rejected p) k = refused_request o e p q r k
          by_body b k =
              let next : s' ≡ accepted_turn s o.directive e = ground arith in
              closed o e q r (
                (pick_next-returns s e o.directive delegate).0
                  (rw (accepted-picked o.directive e next) at lead))

      by_error : (x : Option String) → o.error ≡ x → Returns s (observed o)
      by_error (some m) q = refused_call o m q
      by_error none q = by_event o.event q refl

  Returns-lead :
      (t : Turn) → Returns s t → take_turn s t ≡ continues s' → s'.current_actor ≡ lead_actor
  unfolding take_turn
  Returns-lead _ (failed d m) h = rejected-lead d m h
  Returns-lead _ (refused_call o m q) h = rejected-lead o.directive m (rw q at h)
  Returns-lead _ (unrecorded o q r) h = rejected-lead o.directive _ (rw (q, r) at h)
  Returns-lead _ (refused_request o e p q r k) h =
      rejected-lead o.directive p.detail (rw (q, r, k) at h)
  Returns-lead _ (closed o e q r c) h =
      accepted-picked o.directive e (next c) ∙ (pick_next-returns s e o.directive delegate).1 c
    where
      next : Closes s e → s' ≡ accepted_turn s o.directive e
      next (by_task p b _ _ _) = ground arith
      next (by_message p b _ _ _) = ground arith

-- While a delegate has the turn, a turn behind which the loop goes on gives the turn to the lead exactly
-- where it failed (the session failed, the call was refused, no event was recorded or the event is a
-- rejection) or where its event is an accepted change that brings the delegated task to a terminal
-- state or an accepted completion or final message to the lead.
pub take_turn-returns :
    (s s' : SchedulerState) (t : Turn)
    → is_lead_actor s.current_actor ≡ false
    → take_turn s t ≡ continues s'
    → (s'.current_actor ≡ lead_actor) ↔ Returns s t
take_turn-returns s s' t delegate h =
    (take_turn-Returns s s' delegate t h, λ r. Returns-lead s s' delegate t r h)
