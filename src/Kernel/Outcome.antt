-- ===== src/Kernel/Outcome.antt =====
-- What a submission comes to: it throws and leaves the state and the log, or it commits one event,
-- which accepts or refuses the request.
use pluto_agent_platform.Common.{
  ℕ, String, false, true, subst, sym, none, some, List, [], ◌∷◌, ◌++◌, ◌≡◌, ◌⊎◌, inl, inr, refl,
  arith, length, Option-cases, Bool-cases,
}
use pluto_agent_platform.Common.Dict.{has, add}
use pluto_agent_platform.Protocol.Event.{RunEvent, RunStartedPayload, RejectionReason, run_started}
use pluto_agent_platform.Protocol.Request.{ProtocolRequest}
use pluto_agent_platform.Protocol.Schema.{run_event_ok}
use pluto_agent_platform.Protocol.Parse.{Value, parse_request}
use pluto_agent_platform.Authority.Validate.{validate, ValidationResult, reject}
use pluto_agent_platform.Kernel.Log.{EventLog, returned, append}
use pluto_agent_platform.Kernel.Reducer.{reduce}
use pluto_agent_platform.Kernel.Host.{Host, Kernel, after_step-ok}
use pluto_agent_platform.Kernel.Build.{SubmitContext, parse_event, parse_stage_reason}
use pluto_agent_platform.Kernel.Submit.{
  commit, submit_parsed_request, submit_rejected_parse, rejection_of, parse_rejection, event_for,
  submit, seed_run_started, seed_empty, started_draft, submit_validated,
}
use pluto_agent_platform.Kernel.Step.{
  drawn_once, Fits, Accepts, Rejects, append-ok, build_accepted_event-ok, build_rejected_event-ok,
  parse_event-ok,
}
use pluto_agent_platform.Authority.Rules.{authorization_throws}

-- Where the event of a submission comes from.
pub data Origin (h : Host) (k : Kernel) (raw : Value) (ctx : SubmitContext) (e : RunEvent)
    : Type 0 where
  granted :
      (r : ProtocolRequest)
      → parse_request h.zod raw ≡ some r
      → validate k.state r ctx.expected_task_state ≡ ValidationResult.ok
      → Accepts h k e r
      → Origin h k raw ctx e
  refused :
      (r : ProtocolRequest) (reason : RejectionReason) (detail : String)
      → parse_request h.zod raw ≡ some r
      → validate k.state r ctx.expected_task_state ≡ reject reason detail
      → Rejects e reason
      → Origin h k raw ctx e
  unparsed :
      parse_request h.zod raw ≡ none → Rejects e (parse_stage_reason raw) → Origin h k raw ctx e

-- One event more in the log and in the state, and nothing else.
pub record Committed (k k' : Kernel) (e : RunEvent) : Type 0 where
  pub fresh : has k.log.event_ids e.event_id ≡ false
  pub numbered : e.sequence ≡ length k.log.events
  pub logged : k'.log.events ≡ k.log.events ++ e ∷ []
  pub known : k'.log.event_ids ≡ add k.log.event_ids e.event_id
  pub reduced : k'.state ≡ reduce k.state e

pub ValidationResult-cases :
    (v : ValidationResult)
    → (v ≡ ValidationResult.ok)
      ⊎ ((reason : RejectionReason) × (detail : String) × (v ≡ reject reason detail))
ValidationResult-cases ValidationResult.ok = inl refl
ValidationResult-cases (reject reason detail) = inr (reason, detail, refl)

module _ (h : Host) (raw : Value) (ctx : SubmitContext) (k k' : Kernel) (e : RunEvent) where
  submit_validated-Origin :
      (r : ProtocolRequest)
      → parse_request h.zod raw ≡ some r
      → submit_validated h r ctx k ≡ (returned e, k')
      → Fits h k k' e × Origin h k raw ctx e
  unfolding submit_validated rejection_of
  submit_validated-Origin r parsed q =
      elim (ValidationResult-cases (validate k.state r ctx.expected_task_state)) [
        | inl good ↦
            let (fits, accepts) =
              build_accepted_event-ok h k k' e r ctx (rw (good, submit_validated) at q) in
            (fits, granted r parsed good accepts)
        | inr (reason, detail, bad) ↦
            let (fits, rejects) =
              build_rejected_event-ok h k k' e (rejection_of r ctx reason detail)
                (rw (bad, submit_validated) at q) in
            (fits, refused r reason detail parsed bad rejects)
      ]

  submit_parsed_request-Origin :
      (r : ProtocolRequest)
      → parse_request h.zod raw ≡ some r
      → submit_parsed_request h r ctx k ≡ (returned e, k')
      → Fits h k k' e × Origin h k raw ctx e
  unfolding submit_parsed_request
  submit_parsed_request-Origin r parsed q = elim (Bool-cases (authorization_throws k.state r)) [
    | inl throws ↦ absurd (cc (rw (throws, submit_parsed_request) at q))
    | inr decides ↦ submit_validated-Origin r parsed (rw (decides, submit_parsed_request) at q)
  ]

  pub event_for-Origin :
      event_for h raw ctx k ≡ (returned e, k') → Fits h k k' e × Origin h k raw ctx e
  unfolding event_for submit_rejected_parse parse_rejection
  event_for-Origin q = elim (Option-cases (parse_request h.zod raw)) [
    | inl failed ↦
        let (fits, rejects) =
          build_rejected_event-ok h k k' e (parse_rejection h k.state raw ctx)
            (rw (failed, event_for) at q) in
        (fits, unparsed failed rejects)
    | inr (r, parsed) ↦ submit_parsed_request-Origin r parsed (rw (parsed, event_for) at q)
  ]

module _ (event e : RunEvent) (j k' : Kernel) where
  Committed-parts :
      (log : EventLog)
      → append j.log event ≡ returned log
      → e ≡ event
      → k' ≡ record j { log = log; state = reduce j.state event }
      → Committed j k' e
  Committed-parts log appended is_e is_k =
      let (fresh, numbered, is_log) = append-ok j.log log event appended in
      record {
        fresh = rw is_e fresh;
        numbered = rw is_e numbered;
        logged = rw (is_k, is_e, is_log);
        known = rw (is_k, is_e, is_log);
        reduced = rw (is_k, is_e);
      }

  pub commit-ok : commit event j ≡ (returned e, k') → (e ≡ event) × Committed j k' e
  unfolding commit
  commit-ok q =
      let found : (log : EventLog) × (append j.log event ≡ returned log)
          × (e ≡ event)
          × (k' ≡ record j { log = log; state = reduce j.state event }) =
        ground arith in
      (found.2, Committed-parts found.0 found.1 found.2 found.3)

-- A commit onto a kernel that differs from `k` in its providers alone.
Committed-move :
    (k j k' : Kernel) (e : RunEvent)
    → j.state ≡ k.state
    → j.log ≡ k.log
    → Committed j k' e
    → Committed k k' e
Committed-move k j k' e state log c = record {
  fresh = rw (← log) c.fresh;
  numbered = rw (← log) c.numbered;
  logged = rw (← log) c.logged;
  known = rw (← log) c.known;
  reduced = rw (← state) c.reduced;
}

module _ (h : Host) (k k' : Kernel) (e : RunEvent) where
  pub submit-ok :
      (raw : Value) (ctx : SubmitContext)
      → submit h raw ctx k ≡ (returned e, k')
      → Committed k k' e × Origin h k raw ctx e × (run_event_ok h.zod e ≡ true)
  unfolding submit
  submit-ok raw ctx q =
      let (event, j, made, rest) = after_step-ok (event_for h raw ctx k) commit k' e q in
      let (same, committed) = commit-ok event e j k' rest in
      submit_parts event j made same committed
    where
      submit_parts :
          (event : RunEvent) (j : Kernel)
          → event_for h raw ctx k ≡ (returned event, j)
          → e ≡ event
          → Committed j k' e
          → Committed k k' e × Origin h k raw ctx e × (run_event_ok h.zod e ≡ true)
      submit_parts event j made same committed =
          let (fits, origin) = event_for-Origin h raw ctx k j event made in
          (
            Committed-move k j k' e fits.same_state fits.same_log committed,
            subst (Origin h k raw ctx) (sym same) origin,
            rw same fits.well_formed,
          )

  -- The first event of a run.
  pub record Seeds (payload : RunStartedPayload) : Type 0 where
    pub committed : Committed k k' e
    pub started : e.body ≡ run_started payload
    pub keyless : e.accepted_request_key ≡ none
    pub well_formed : run_event_ok h.zod e ≡ true

  seed_empty-ok :
      (payload : RunStartedPayload) (ctx : SubmitContext)
      → seed_empty h payload ctx k ≡ (returned e, k')
      → Seeds payload
  unfolding seed_empty
  seed_empty-ok payload ctx q =
      let (event, j, made, rest) =
        after_step-ok (parse_event h (draft) (drawn_once k)) commit k' e q in
      let (n, number, drafted, good, kept) = parse_event-ok h draft (drawn_once k) j event made in
      let (same, committed) = commit-ok event e j k' rest in
      record {
        committed = Committed-move k j k' e (rw kept) (rw kept) committed;
        started = rw (same, drafted);
        keyless = rw (same, drafted);
        well_formed = rw same good;
      }
    where
      draft : ℕ → RunEvent
      draft = started_draft (drawn_once k) payload ctx (h.next_id k.drawn) (h.now_iso k.ticks)

  -- Only an empty log can be seeded.
  pub seed_run_started-ok :
      (payload : RunStartedPayload) (ctx : SubmitContext)
      → seed_run_started h payload ctx k ≡ (returned e, k')
      → Seeds payload × (k.log.events ≡ [])
  unfolding seed_run_started
  seed_run_started-ok payload ctx q = by_events k.log.events refl
    where
      by_events :
          (events : List RunEvent) → k.log.events ≡ events → Seeds payload × (k.log.events ≡ [])
      by_events [] empty = (seed_empty-ok payload ctx (rw (empty, seed_run_started) at q), empty)
      by_events (x ∷ xs) full = absurd (cc (rw (full, seed_run_started) at q))
