-- ===== src/Kernel/Total.antt =====
-- A kernel of a run never throws on a submission, if its providers give what the schemas ask for.
use pluto_agent_platform.Common.{
  or_else, ◌==◌, if◌then◌else◌, ℕ, String, true, false, Option, none, some, List, [], ◌∷◌, ◌≡◌,
  refl, arith, length, Option-cases, Bool-cases, inl, inr, ◌++◌,
}
use pluto_agent_platform.Common.Int.{suc_ℤ-pred_ℕ}
use pluto_agent_platform.Common.Dict.{has, add}
use pluto_agent_platform.Protocol.Actor.{role_of_ref}
use pluto_agent_platform.Protocol.Event.{RunEvent}
use pluto_agent_platform.Protocol.Request.{ProtocolRequest}
use pluto_agent_platform.Protocol.Schema.{
  schema_version_1_0, run_event_ok, envelope_ok, supported_version,
}
use pluto_agent_platform.Protocol.Sound.{parse_actor_ok, parse_request-WellFormed, WellFormed}
use pluto_agent_platform.Authority.State.{RunState}
use pluto_agent_platform.Kernel.Log.{EventLog, returned, head, append, empty_log}
use pluto_agent_platform.Kernel.Host.{Host, Kernel, new_kernel}
use pluto_agent_platform.Kernel.Build.{
  unknown_request_id_label, extract_request_id, SubmitContext, unknown_request_id_uuid,
  build_rejected_event,
}
use pluto_agent_platform.Kernel.Submit.{
  actor_of, parse_rejection, event_for, submit_parsed_request, submit_rejected_parse, rejection_of,
  submit, commit, submit_validated,
}
use pluto_agent_platform.Protocol.Parse.{Value, parse_request, prop, parse_actor}
use pluto_agent_platform.Authority.Validate.{validate}
use pluto_agent_platform.Authority.Decides.{validate_iff}
use pluto_agent_platform.Kernel.Outcome.{ValidationResult-cases}
use pluto_agent_platform.Common.Int.{minus_one}
use pluto_agent_platform.Common.{All-append}
use pluto_agent_platform.Kernel.Move.{Move, quiet, logs, Reaches, Reaches-invariant}
use pluto_agent_platform.Kernel.Replay.{Reaches-IsReplay}
use pluto_agent_platform.Kernel.Outcome.{event_for-Origin}
use pluto_agent_platform.Common.Int.{suc_ℤ-pred_ℕ}
use pluto_agent_platform.Common.{length}
use pluto_agent_platform.Kernel.Reducer.{reduce}
use pluto_agent_platform.Kernel.Builders.{
  GoodHost, UuidLog, Builds, build_rejected_event-Builds, build_accepted_event-Builds,
}
use pluto_agent_platform.Authority.Rules.{authorization_throws}

schema_version_1_0_ok : supported_version schema_version_1_0 ≡ true
unfolding supported_version
schema_version_1_0_ok = refl

extract_request_id_ok :
    (h : Host) (raw : Value) (id : String)
    → extract_request_id h raw ≡ some id
    → h.zod.is_uuid id ≡ true
unfolding extract_request_id
extract_request_id_ok h raw id q = ground arith

-- The validator decides on the request: it does not look up the owner of a task by an inherited name.
abbrev pub Decides : Host → RunState → Value → Type 0
Decides h state raw =
    (r : ProtocolRequest) → parse_request h.zod raw ≡ some r → authorization_throws state r ≡ false

module _ (h : Host) (good : GoodHost h) (k : Kernel) (at_head : k.state.sequence ≡ head k.log)
    (uuids : UuidLog h k.log.events) where
  recorded_id_ok :
      (o : Option String)
      → ((id : String) → o ≡ some id → h.zod.is_uuid id ≡ true)
      → h.zod.is_uuid (
          if or_else o unknown_request_id_label == unknown_request_id_label
          then unknown_request_id_uuid
          else or_else o unknown_request_id_label)
        ≡ true
  recorded_id_ok none fits = good.stand_in
  recorded_id_ok (some id) fits = elim (Bool-cases (id == unknown_request_id_label)) [
    | inl hit ↦ rw hit good.stand_in
    | inr miss ↦ rw miss (fits id refl)
  ]

  actor_of_ok : (o : Option Value) → role_of_ref (actor_of h o) ≡ true
  actor_of_ok none = refl
  actor_of_ok (some v) = elim (Option-cases (parse_actor v)) [
    | inl absent ↦ rw absent refl
    | inr (a, found) ↦ rw found (parse_actor_ok v a found)
  ]

  parse_rejection-Builds :
      (raw : Value) (ctx : SubmitContext)
      → Builds h good k at_head uuids (build_rejected_event h (parse_rejection h k.state raw ctx) k)
  unfolding parse_rejection
  parse_rejection-Builds raw ctx =
      let id = recorded_id_ok (extract_request_id h raw) (extract_request_id_ok h raw) in
      build_rejected_event-Builds h good k at_head uuids (parse_rejection h k.state raw ctx) id id
        schema_version_1_0_ok (actor_of_ok (prop "actor" raw))

  event_for-Builds :
      (raw : Value) (ctx : SubmitContext)
      → Decides h k.state raw
      → Builds h good k at_head uuids (event_for h raw ctx k)
  unfolding event_for submit_parsed_request submit_validated submit_rejected_parse rejection_of
  event_for-Builds raw ctx decides = elim (Option-cases (parse_request h.zod raw)) [
    | inl failed ↦ rw (failed, event_for) (parse_rejection-Builds raw ctx)
    | inr (r, parsed) ↦
        rw (parsed, event_for, decides r parsed, submit_parsed_request)
          (submitted r (parse_request-WellFormed h.zod raw r parsed))
  ]
    where
      submitted :
          (r : ProtocolRequest)
          → WellFormed h.zod r
          → Builds h good k at_head uuids (submit_validated h r ctx k)
      submitted r w = elim (ValidationResult-cases (validate k.state r ctx.expected_task_state)) [
        | inl valid ↦
            rw (valid, submit_validated)
              (build_accepted_event-Builds h good k at_head uuids r ctx w
                ((validate_iff k.state r ctx.expected_task_state).0 valid).resolves)
        | inr (reason, detail, refused) ↦
            rw (refused, submit_validated)
              (build_rejected_event-Builds h good k at_head uuids (rejection_of r ctx reason detail)
                w.request_id w.request_id w.version w.actor)
      ]

UuidLog-snoc :
    (h : Host) (es : List RunEvent) (e : RunEvent)
    → UuidLog h es
    → run_event_ok h.zod e ≡ true
    → UuidLog h (es ++ e ∷ [])
unfolding run_event_ok envelope_ok
UuidLog-snoc h es e u fits = All-append _ es (e ∷ []) u (ground arith, tt)

Move-UuidLog :
    (h : Host) (k k' : Kernel) → Move h k k' → UuidLog h k.log.events → UuidLog h k'.log.events
Move-UuidLog h k k' (quiet state log) u = rw log u
Move-UuidLog h k k' (logs e c fits source) u = rw c.logged (UuidLog-snoc h k.log.events e u fits)

append-returns :
    (log : EventLog) (e : RunEvent)
    → has log.event_ids e.event_id ≡ false
    → e.sequence ≡ length log.events
    → append log e
      ≡ returned
          (record { events = log.events ++ e ∷ []; event_ids = add log.event_ids e.event_id })
unfolding append head
append-returns log e fresh number = ground (arith, suc_ℤ-pred_ℕ (length log.events))

new_kernel-UuidLog :
    (h : Host) (initial : RunState) (drawn ticks : ℕ) (start : Kernel)
    → new_kernel initial empty_log drawn ticks ≡ returned start
    → UuidLog h start.log.events
unfolding new_kernel
new_kernel-UuidLog h initial drawn ticks start made =
    let is_empty : start.log ≡ empty_log = ground arith in rw is_empty tt

commit-returns :
    (k : Kernel) (e : RunEvent)
    → has k.log.event_ids e.event_id ≡ false
    → e.sequence ≡ length k.log.events
    → (k' : Kernel) × (commit e k ≡ (returned e, k'))
unfolding commit
commit-returns k e fresh number = (
  record k {
    log = record { events = k.log.events ++ e ∷ []; event_ids = add k.log.event_ids e.event_id };
    state = reduce k.state e;
  },
  rw (append-returns k.log e fresh number, commit) refl,
)

-- A submission to a run that began at sequence -1 with an empty log returns an event, whatever the raw
-- value is, if the id provider gives uuids and the next one is not yet in the log, the clock gives
-- datetimes, the stand-in for an unknown request id passes as a uuid, and, where the value parses, the
-- validator does not throw on the request. It throws where the actor is declared, the first matcher of
-- the policy that matches or throws lets the actor's role change its own tasks, and the request changes
-- the state of a task whose id is a name that every object inherits and that no task of the run has.
pub submit-returns :
    (h : Host) (initial : RunState) (drawn ticks : ℕ) (start k : Kernel) (raw : Value)
    (ctx : SubmitContext)
    → GoodHost h
    → initial.sequence ≡ minus_one
    → new_kernel initial empty_log drawn ticks ≡ returned start
    → Reaches h start k
    → has k.log.event_ids (h.next_id k.drawn) ≡ false
    → Decides h k.state raw
    → (e : RunEvent) × (k' : Kernel) × (submit h raw ctx k ≡ (returned e, k'))
unfolding submit
submit-returns h initial drawn ticks start k raw ctx good first made r fresh decides =
    let v = Reaches-IsReplay h initial drawn ticks start k first made r in
    let uuids =
      Reaches-invariant h (λ j. UuidLog h j.log.events) (Move-UuidLog h)
        (new_kernel-UuidLog h initial drawn ticks start made) r in
    let (e, j, built, id, number) = event_for-Builds h good k v.at_head uuids raw ctx decides in
    let kept : j.log ≡ k.log = (event_for-Origin h raw ctx k j e built).0.same_log in
    let (k', done) = commit-returns j e (rw (kept, id) fresh) (rw kept number) in
    (e, k', rw built done)
