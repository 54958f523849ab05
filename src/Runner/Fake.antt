-- ===== src/Runner/Fake.antt =====
-- adapters/fake/fake-adapter.ts and fake-run.ts, and the requests of adapters/fake/fake-script.ts.
use pluto_agent_platform.Common.{
  ℕ, suc, Option, none, some, List, if◌then◌else◌, get_elem?, Bool, true, false, not, ◌&&◌,
}
use pluto_agent_platform.Protocol.Actor.{ActorRef}
use pluto_agent_platform.Protocol.Parse.{
  ◌>>=◌, Value, obj, str, field, end, parse_complete, parse_request,
}
use pluto_agent_platform.Protocol.Event.{RunCompletedStatus, CompleteRunPayload}
use pluto_agent_platform.Runner.Script.{FakeScriptStep, KernelView, resolve_value}
use pluto_agent_platform.Runner.Scenario.{
  request, done, failed, Drawn, RuntimeAdapter, run_scenario, RuntimeAdapterStep,
  RunScenarioOptions, RunEnd,
}
use pluto_agent_platform.Protocol.Request.{Intent, RequestBody, ProtocolRequest, intent_name}
use pluto_agent_platform.Kernel.Host.{Host}
use pluto_agent_platform.Tools.Values.{actor_value, nullable_text}
use pluto_agent_platform.Spec.Authored.{AuthoredSpec}

abbrev is_manager : ActorRef → Bool
is_manager ActorRef.manager = true
is_manager _ = false

abbrev pub is_completion : Intent → Bool
is_completion Intent.complete_run = true
is_completion _ = false

-- The payload of a step, `none` where a reference or the actor is not allowed.
unfoldable pub resolve_fake_script_step : FakeScriptStep → KernelView → Option Value
unfolding resolve_value
resolve_fake_script_step step view =
    if is_completion step.intent && not (is_manager step.actor)
    then none
    else resolve_value view.events step.payload

module _ (h : Host) where
  abbrev request_fields : FakeScriptStep → KernelView → Drawn → Value → Value
  request_fields step view n payload = obj (
      field "requestId" (str (h.next_id n.ids)) (
        field "runId" (str view.state.run_id) (
          field "actor" (actor_value step.actor) (
            field "intent" (str (intent_name step.intent)) (
              field "payload" payload (
                field "idempotencyKey" (nullable_text step.idempotency_key) (
                  field "clientTimestamp" (str (h.now_iso n.clock))
                    (field "schemaVersion" (str "1.0") end))))))))

  abbrev pub drawn_again : Drawn → Drawn
  drawn_again n = record { ids = suc n.ids; clock = suc n.clock }

  unfoldable pub materialize_fake_protocol_request :
      FakeScriptStep → KernelView → Drawn → Option ProtocolRequest
  unfolding resolve_fake_script_step actor_value parse_request
  materialize_fake_protocol_request step view n = do
    payload ← resolve_fake_script_step step view
    parse_request h.zod (request_fields step view n payload)

  abbrev payload_of : RequestBody → Option CompleteRunPayload
  payload_of (RequestBody.complete_run p) = some p
  payload_of _ = none

  unfoldable pub materialize_fake_completion :
      FakeScriptStep → KernelView → Option CompleteRunPayload
  unfolding resolve_fake_script_step parse_complete
  materialize_fake_completion step view =
      resolve_fake_script_step step view >>= parse_complete >>= payload_of

  abbrev pub requested : ℕ → Option ProtocolRequest → RuntimeAdapterStep ℕ
  requested next none = failed
  requested next (some r) = request r next

  abbrev pub finished : ℕ → Option CompleteRunPayload → RuntimeAdapterStep ℕ
  finished next none = failed
  finished next (some p) = done p next

  -- A step of the script at the index; behind its end the run has succeeded.
  abbrev pub play : ℕ → KernelView → Drawn → Option FakeScriptStep → RuntimeAdapterStep ℕ × Drawn
  play next view n none =
      (done (record { status = RunCompletedStatus.succeeded; summary = none }) next, n)
  play next view n (some step) =
      if is_completion step.intent
      then (finished next (materialize_fake_completion step view), n)
      else (requested next (materialize_fake_protocol_request step view n), drawn_again n)

  -- `makeFakeAdapter`, over the providers of the kernel; its state is the index.
  unfoldable pub make_fake_adapter : List FakeScriptStep → RuntimeAdapter ℕ
  unfolding materialize_fake_protocol_request materialize_fake_completion
  make_fake_adapter steps = record {
    init = λ team view. 0;
    step = λ i view n. play (suc i) view n (get_elem? steps i);
  }

  -- `runFake`.
  unfoldable pub run_fake : AuthoredSpec → List FakeScriptStep → RunScenarioOptions → Drawn → RunEnd
  unfolding run_scenario make_fake_adapter
  run_fake authored steps options n = run_scenario h authored (make_fake_adapter steps) options n
