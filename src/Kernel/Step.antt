-- ===== src/Kernel/Step.antt =====
-- What the parts of a submission do, one lemma for each: the builders leave the state and the log
-- alone, and a commit adds one event to both.
use pluto_agent_platform.Common.{
  ℕ, suc, String, true, false, Option, none, some, [], ◌∷◌, ◌++◌, ◌≡◌, refl, arith, length,
}
use pluto_agent_platform.Common.Int.{pos, suc_ℤ, suc_ℤ-pred_ℕ}
use pluto_agent_platform.Common.Dict.{lookup, has, add}
use pluto_agent_platform.Protocol.Actor.{EntityRef}
use pluto_agent_platform.Protocol.Event.{
  RunEvent, EventBody, run_completed, mailbox_message_appended, task_created, task_state_changed,
  artifact_published, request_rejected, MailboxPayload, CreateTaskPayload, ArtifactPayload,
  CompleteRunPayload, accepted, rejected, RejectionReason, RequestRejectedPayload,
}
use pluto_agent_platform.Protocol.Request.{
  RequestBody, append_mailbox_message, create_task, change_task_state, publish_artifact,
  complete_run, ProtocolRequest, intent_of, ChangeTaskStatePayload,
}
use pluto_agent_platform.Protocol.Schema.{Zod, run_event_ok, envelope_ok}
use pluto_agent_platform.Authority.State.{RunState, RunStateTask}
use pluto_agent_platform.Authority.Rules.{compose_request_key}
use pluto_agent_platform.Kernel.Log.{EventLog, returned, head, append}
use pluto_agent_platform.Kernel.Host.{Host, Kernel, after_step-ok}
use pluto_agent_platform.Kernel.Build.{
  SubmitContext, parse_event, accepted_draft, rejected_draft, accepted_body, with_key,
  build_accepted_event, Rejection, build_rejected_event, task_state_or_throw,
}

module _ (h : Host) (draft : ℕ → RunEvent) (k k' : Kernel) where
  pub parse_event-ok :
      (e : RunEvent)
      → parse_event h draft k ≡ (returned e, k')
      → (n : ℕ) × (suc_ℤ k.state.sequence ≡ pos n)
        × (e ≡ draft n)
        × (run_event_ok h.zod e ≡ true)
        × (k' ≡ k)
  unfolding parse_event
  parse_event-ok e q = ground arith

pub append-ok :
    (log log' : EventLog) (e : RunEvent)
    → append log e ≡ returned log'
    → (has log.event_ids e.event_id ≡ false)
      × (e.sequence ≡ length log.events)
      × (log' ≡ record { events = log.events ++ e ∷ []; event_ids = add log.event_ids e.event_id })
unfolding append head
append-ok log log' e q = ground (arith, suc_ℤ-pred_ℕ (length log.events))

-- What a request may become. A new task has an id that the provider drew. A change of state records the state that the task had.
pub data Effect (h : Host) (s : RunState) (r : RequestBody) (b : EventBody) : Type 0 where
  appended :
      (p : MailboxPayload) (id : String)
      → r ≡ append_mailbox_message p
      → b ≡ mailbox_message_appended (record { request = p; message_id = id })
      → Effect h s r b
  created :
      (p : CreateTaskPayload) (n : ℕ)
      → r ≡ create_task p
      → b ≡ task_created (record { request = p; task_id = h.next_id n })
      → Effect h s r b
  changed :
      (p : ChangeTaskStatePayload) (t : RunStateTask)
      → r ≡ change_task_state p
      → lookup p.task_id s.tasks ≡ some t
      → b ≡ task_state_changed (record { task_id = p.task_id; from = t.state; to = p.to })
      → Effect h s r b
  published :
      (p : ArtifactPayload) (id : String)
      → r ≡ publish_artifact p
      → b ≡ artifact_published (record { request = p; artifact_id = id })
      → Effect h s r b
  finished :
      (p : CompleteRunPayload) (time : String)
      → r ≡ complete_run p
      → b ≡ run_completed (record { request = p; completed_at = time })
      → Effect h s r b

module _ (h : Host) (request : ProtocolRequest) (time : String) where
  accepted_body-Effect :
      (r : RequestBody) (k k' : Kernel) (entity : EntityRef) (b : EventBody)
      → accepted_body h request time r k ≡ (returned (entity, b), k')
      → Effect h k.state r b × (k'.state ≡ k.state) × (k'.log ≡ k.log)
  unfolding accepted_body task_state_or_throw
  accepted_body-Effect (append_mailbox_message p) k k' entity b q =
      (appended p (h.next_id k.drawn) refl (ground arith), ground arith, ground arith)
  accepted_body-Effect (create_task p) k k' entity b q =
      (created p k.drawn refl (ground arith), ground arith, ground arith)
  accepted_body-Effect (change_task_state p) k k' entity b q =
      let found : (t : RunStateTask) × (lookup p.task_id k.state.tasks ≡ some t)
          × (b ≡ task_state_changed (record { task_id = p.task_id; from = t.state; to = p.to })) =
        ground arith in
      (changed p found.0 refl found.1 found.2, ground arith, ground arith)
  accepted_body-Effect (publish_artifact p) k k' entity b q =
      (published p (h.next_id k.drawn) refl (ground arith), ground arith, ground arith)
  accepted_body-Effect (complete_run p) k k' entity b q =
      (finished p time refl (ground arith), ground arith, ground arith)

-- An event that fits the state: the next sequence number, and accepted by the schema; the builders
-- have changed nothing but the providers.
pub record Fits (h : Host) (k k' : Kernel) (e : RunEvent) : Type 0 where
  pub numbered : suc_ℤ k.state.sequence ≡ pos e.sequence
  pub well_formed : run_event_ok h.zod e ≡ true
  pub same_state : k'.state ≡ k.state
  pub same_log : k'.log ≡ k.log

-- The kernel behind one id and one reading of the clock.
abbrev pub drawn_once : Kernel → Kernel
drawn_once k = record k { drawn = suc k.drawn; ticks = suc k.ticks }

run_event_ok-with_key :
    (z : Zod) (e : RunEvent) (key : Option String)
    → run_event_ok z (with_key key e) ≡ run_event_ok z e
unfolding run_event_ok envelope_ok
run_event_ok-with_key z e key = refl

-- The key under which a request is accepted.
abbrev pub request_key : ProtocolRequest → Option String
request_key r = compose_request_key r.run_id r.actor (intent_of r.body) r.idempotency_key

-- A rejection bears its reason and no key.
pub record Rejects (e : RunEvent) (reason : RejectionReason) : Type 0 where
  pub payload : RequestRejectedPayload
  pub told : e.body ≡ request_rejected payload
  pub reasoned : payload.rejection_reason ≡ reason
  pub keyless : e.accepted_request_key ≡ none
  pub outcome : e.outcome ≡ rejected

-- An accepted event comes of its request: its payload, its key and its actor.
pub record Accepts (h : Host) (k : Kernel) (e : RunEvent) (r : ProtocolRequest) : Type 0 where
  pub effect : Effect h k.state r.body e.body
  pub keyed : e.accepted_request_key ≡ request_key r
  pub outcome : e.outcome ≡ accepted
  pub by_actor : e.actor ≡ r.actor
  pub on_run : e.run_id ≡ r.run_id

module _ (h : Host) (k k' : Kernel) (e : RunEvent) where
  pub build_rejected_event-ok :
      (input : Rejection)
      → build_rejected_event h input k ≡ (returned e, k')
      → Fits h k k' e × Rejects e input.reason
  unfolding build_rejected_event
  build_rejected_event-ok input q =
      let (n, number, drafted, good, kept) =
        parse_event-ok h
          (rejected_draft (drawn_once k) input (h.next_id k.drawn) (h.now_iso k.ticks))
          (drawn_once k) k' e q in
      (
        record {
          numbered = rw drafted number;
          well_formed = good;
          same_state = rw kept;
          same_log = rw kept;
        },
        record {
          payload = payload;
          told = rw drafted;
          reasoned = refl;
          keyless = rw drafted;
          outcome = rw drafted;
        },
      )
    where
      payload : RequestRejectedPayload
      payload = record {
        rejection_reason = input.reason;
        rejected_request_id = input.rejected_request_id;
        detail = input.detail;
      }

  -- The parsed draft under its key, where the parts are known.
  Fits-accepted :
      (r : ProtocolRequest) (ctx : SubmitContext) (id time : String) (entity : EntityRef)
      (b : EventBody) (j : Kernel) (n : ℕ)
      → e ≡ with_key (request_key r) (accepted_draft j ctx r id time entity b n)
      → k' ≡ j
      → Effect h k.state r.body b
      → j.state ≡ k.state
      → j.log ≡ k.log
      → suc_ℤ j.state.sequence ≡ pos n
      → run_event_ok h.zod (accepted_draft j ctx r id time entity b n) ≡ true
      → Fits h k k' e × Accepts h k e r
  Fits-accepted r ctx id time entity b j n is_e is_j effect state log number good = (
    record {
      numbered = rw is_e (rw (← state) number);
      well_formed = rw (is_e, run_event_ok-with_key h.zod _ (request_key r)) good;
      same_state = rw is_j state;
      same_log = rw is_j log;
    },
    record {
      effect = rw is_e effect;
      keyed = rw is_e;
      outcome = rw is_e;
      by_actor = rw is_e;
      on_run = rw is_e;
    },
  )

  pub build_accepted_event-ok :
      (r : ProtocolRequest) (ctx : SubmitContext)
      → build_accepted_event h r ctx k ≡ (returned e, k')
      → Fits h k k' e × Accepts h k e r
  unfolding build_accepted_event
  build_accepted_event-ok r ctx q =
      let (named, j, built, rest) =
        after_step-ok (accepted_body h r (h.now_iso k.ticks) r.body (drawn_once k)) _ k' e q in
      let (event, j', parsed, last) = after_step-ok (parse_event h (draft j named) j) _ k' e rest in
      let (effect, state, log) =
        accepted_body-Effect h r (h.now_iso k.ticks) r.body (drawn_once k) j named.0 named.1
          built in
      let (n, number, drafted, good, kept) = parse_event-ok h (draft j named) j j' event parsed in
      Fits-accepted r ctx (h.next_id k.drawn) (h.now_iso k.ticks) named.0 named.1 j n
        (ground (arith, last, drafted)) (ground (arith, last, kept)) effect state log number
        (rw drafted at good)
    where
      draft : Kernel → EntityRef × EventBody → ℕ → RunEvent
      draft j named = accepted_draft j ctx r (h.next_id k.drawn) (h.now_iso k.ticks) named.0 named.1
