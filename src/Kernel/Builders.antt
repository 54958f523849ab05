-- ===== src/Kernel/Builders.antt =====
-- The event builders of the kernel return, if the providers give what the schemas ask for.
use pluto_agent_platform.Common.{
  take-All, drop-All, ℕ, suc, String, true, some, List, [], ◌∷◌, ◌≡◌, refl, arith, ap, ◌∙◌, length,
  take, drop, All,
}
use pluto_agent_platform.Common.Int.{ℤ, pos, negsuc, suc_ℤ, suc_ℤ-pred_ℕ}
use pluto_agent_platform.Common.Dict.{lookup}
use pluto_agent_platform.Protocol.Actor.{EntityRef, role_of_ref}
use pluto_agent_platform.Protocol.Event.{RunEvent, EventBody, task_state_changed}
use pluto_agent_platform.Protocol.Request.{
  ProtocolRequest, RequestBody, append_mailbox_message, create_task, change_task_state,
  publish_artifact, complete_run,
}
use pluto_agent_platform.Protocol.Schema.{
  run_event_ok, envelope_ok, supported_version, nullable_uuid,
}
use pluto_agent_platform.Protocol.Sound.{WellFormed, BodyFits}
use pluto_agent_platform.Authority.Admission.{Resolves}
use pluto_agent_platform.Authority.State.{RunState, RunStateTask}
use pluto_agent_platform.Kernel.Log.{EventLog, Result, returned, head, read}
use pluto_agent_platform.Kernel.Host.{Host, Kernel}
use pluto_agent_platform.Kernel.Build.{
  SubmitContext, unknown_request_id_uuid, derive_causation_id, first_id, parse_event, Rejection,
  build_rejected_event, rejected_draft, build_accepted_event, accepted_body, causation_at,
  accepted_draft, with_key, task_state_or_throw,
}
use pluto_agent_platform.Kernel.Step.{drawn_once, request_key}

-- What the kernel relies on: the ids are uuids, the times are datetimes, and so is the stand-in for an
-- unknown request id a uuid.
pub record GoodHost (h : Host) : Type 0 where
  pub ids : (n : ℕ) → h.zod.is_uuid (h.next_id n) ≡ true
  pub times : (n : ℕ) → h.zod.is_datetime (h.now_iso n) ≡ true
  pub stand_in : h.zod.is_uuid unknown_request_id_uuid ≡ true

abbrev pub UuidLog : Host → List RunEvent → Type 0
UuidLog h = All (λ e. h.zod.is_uuid e.event_id ≡ true)

parse_event-at :
    (h : Host) (draft : ℕ → RunEvent) (j : Kernel) (n : ℕ)
    → suc_ℤ j.state.sequence ≡ pos n
    → run_event_ok h.zod (draft n) ≡ true
    → parse_event h draft j ≡ (returned (draft n), j)
unfolding parse_event
parse_event-at h draft j n number fits = ground arith

task_state_or_throw-found :
    (s : RunState) (id : String) (t : RunStateTask)
    → lookup id s.tasks ≡ some t
    → task_state_or_throw s id ≡ returned t.state
unfolding task_state_or_throw
task_state_or_throw-found s id t found = rw (found, task_state_or_throw)

module _ (h : Host) (good : GoodHost h) where
  first_id_ok : (es : List RunEvent) → UuidLog h es → nullable_uuid h.zod (first_id es) ≡ true
  first_id_ok [] u = refl
  first_id_ok (e ∷ es) u = u.0

  derive_causation_id_ok :
      (log : EventLog) → UuidLog h log.events → nullable_uuid h.zod (derive_causation_id log) ≡ true
  unfolding derive_causation_id read
  derive_causation_id_ok log u = at (head log)
    where
      at : (z : ℤ) → nullable_uuid h.zod (causation_at log z) ≡ true
      at (negsuc n) = refl
      at (pos n) =
          first_id_ok (drop n (take (suc n) log.events))
            (drop-All _ n _ (take-All _ (suc n) log.events u))

  module _ (k : Kernel) (at_head : k.state.sequence ≡ head k.log)
      (uuids : UuidLog h k.log.events) where
    next_number : suc_ℤ k.state.sequence ≡ pos (length k.log.events)
    unfolding head
    next_number = ap suc_ℤ at_head ∙ suc_ℤ-pred_ℕ (length k.log.events)

    parse_event-returns :
        (draft : ℕ → RunEvent) (j : Kernel)
        → j.state ≡ k.state
        → run_event_ok h.zod (draft (length k.log.events)) ≡ true
        → parse_event h draft j ≡ (returned (draft (length k.log.events)), j)
    parse_event-returns draft j same fits =
        parse_event-at h draft j (length k.log.events)
          (ap (λ (s : RunState). suc_ℤ s.sequence) same ∙ next_number) fits

    rejected_draft_ok :
        (input : Rejection) (n : ℕ)
        → h.zod.is_uuid input.request_id ≡ true
        → h.zod.is_uuid input.rejected_request_id ≡ true
        → supported_version input.schema_version ≡ true
        → role_of_ref input.actor ≡ true
        → run_event_ok h.zod
            (rejected_draft (drawn_once k) input (h.next_id k.drawn) (h.now_iso k.ticks) n)
          ≡ true
    unfolding run_event_ok envelope_ok
    rejected_draft_ok input n id rejected version actor = rw (
      good.ids k.drawn,
      good.times k.ticks,
      version,
      actor,
      id,
      rejected,
      derive_causation_id_ok k.log uuids,
    )

    -- What a builder is to give: an event with the next id and the next number.
    abbrev pub Builds : Result RunEvent × Kernel → Type 0
    Builds x =
        (e : RunEvent) × (j : Kernel) × (x ≡ (returned e, j))
        × (e.event_id ≡ h.next_id k.drawn)
        × (e.sequence ≡ length k.log.events)

    pub build_rejected_event-Builds :
        (input : Rejection)
        → h.zod.is_uuid input.request_id ≡ true
        → h.zod.is_uuid input.rejected_request_id ≡ true
        → supported_version input.schema_version ≡ true
        → role_of_ref input.actor ≡ true
        → Builds (build_rejected_event h input k)
    unfolding build_rejected_event
    build_rejected_event-Builds input id rejected version actor = (
      rejected_draft (drawn_once k) input (h.next_id k.drawn) (h.now_iso k.ticks)
          (length k.log.events),
      drawn_once k,
      parse_event-returns
          (rejected_draft (drawn_once k) input (h.next_id k.drawn) (h.now_iso k.ticks))
          (drawn_once k) refl
          (rejected_draft_ok input (length k.log.events) id rejected version actor),
      refl,
      refl,
    )

    -- The body that the builder names, with what the schema asks of it.
    abbrev Bodies : ProtocolRequest → Result (EntityRef × EventBody) × Kernel → Type 0
    Bodies r x =
        (entity : EntityRef) × (b : EventBody) × (j : Kernel) × (x ≡ (returned (entity, b), j))
        × (j.state ≡ k.state)
        × (j.log ≡ k.log)
        × ((ctx : SubmitContext) (n : ℕ)
            → run_event_ok h.zod
                (accepted_draft j ctx r (h.next_id k.drawn) (h.now_iso k.ticks) entity b n)
              ≡ true)

    accepted_body-Bodies :
        (r : ProtocolRequest) (b : RequestBody)
        → WellFormed h.zod r
        → BodyFits b
        → Resolves k.state b
        → Bodies r (accepted_body h r (h.now_iso k.ticks) b (drawn_once k))
    unfolding accepted_body run_event_ok envelope_ok
    accepted_body-Bodies r (append_mailbox_message p) w fits there = (
      _,
      _,
      _,
      refl,
      refl,
      refl,
      λ ctx n. rw (
        good.ids k.drawn,
        good.times k.ticks,
        w.version,
        w.actor,
        w.request_id,
        fits.0,
        fits.1,
        derive_causation_id_ok k.log uuids,
      ),
    )
    accepted_body-Bodies r (create_task p) w fits there = (
      _,
      _,
      _,
      refl,
      refl,
      refl,
      λ ctx n. rw (
        good.ids k.drawn,
        good.times k.ticks,
        w.version,
        w.actor,
        w.request_id,
        fits,
        derive_causation_id_ok k.log uuids,
      ),
    )
    accepted_body-Bodies r (change_task_state p) w fits (t, found) = (
      EntityRef.task p.task_id,
      task_state_changed (record { task_id = p.task_id; from = t.state; to = p.to }),
      drawn_once k,
      rw (task_state_or_throw-found k.state p.task_id t found) refl,
      refl,
      refl,
      λ ctx n. rw (
        good.ids k.drawn,
        good.times k.ticks,
        w.version,
        w.actor,
        w.request_id,
        derive_causation_id_ok k.log uuids,
      ),
    )
    accepted_body-Bodies r (publish_artifact p) w fits there = (
      _,
      _,
      _,
      refl,
      refl,
      refl,
      λ ctx n. rw (
        good.ids k.drawn,
        good.times k.ticks,
        w.version,
        w.actor,
        w.request_id,
        derive_causation_id_ok k.log uuids,
      ),
    )
    accepted_body-Bodies r (complete_run p) w fits there = (
      _,
      _,
      _,
      refl,
      refl,
      refl,
      λ ctx n. rw (
        good.ids k.drawn,
        good.times k.ticks,
        w.version,
        w.actor,
        w.request_id,
        derive_causation_id_ok k.log uuids,
      ),
    )

    pub build_accepted_event-Builds :
        (r : ProtocolRequest) (ctx : SubmitContext)
        → WellFormed h.zod r
        → Resolves k.state r.body
        → Builds (build_accepted_event h r ctx k)
    unfolding build_accepted_event
    build_accepted_event-Builds r ctx w there =
        let (entity, b, j, named, same, log, fits) = accepted_body-Bodies r r.body w w.body there in
        let draft = accepted_draft j ctx r (h.next_id k.drawn) (h.now_iso k.ticks) entity b in
        let parsed = parse_event-returns draft j same (fits ctx (length k.log.events)) in
        (
          with_key (request_key r) (draft (length k.log.events)),
          j,
          rw (named, parsed) refl,
          refl,
          refl,
        )
