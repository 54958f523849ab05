-- ===== src/Runner/Scenario.antt =====
-- runtime/runner.ts and runtime/runtime-adapter.ts: the loop of a run. The evidence packet of the result
-- is left out.
use pluto_agent_platform.Common.{ℕ, zero, suc, String, not, Option, none, if◌then◌else◌, or_else}
use pluto_agent_platform.Kernel.Log.{Result, returned, thrown, empty_log, Fault}
use pluto_agent_platform.Spec.Authored
use pluto_agent_platform.Spec.Authored.{ok, fail, SpecCompileError, AuthoredSpec, Failure}
use pluto_agent_platform.Protocol.Actor.{ActorRef}
use pluto_agent_platform.Runner.Script.{KernelView}
use pluto_agent_platform.Protocol.Request.{ProtocolRequest, RequestBody}
use pluto_agent_platform.Authority.State.{TeamContext, initial_state}
use pluto_agent_platform.Kernel.Host.{Kernel, Host, new_kernel}
use pluto_agent_platform.Protocol.Event.{CompleteRunPayload, RunEvent}
use pluto_agent_platform.Kernel.Build.{SubmitContext}
use pluto_agent_platform.Kernel.Submit.{submit, seed_run_started}
use pluto_agent_platform.Tools.Values.{request_value}
use pluto_agent_platform.Spec.Compile.{compile}
use pluto_agent_platform.Common.Dict.{has}

-- What an adapter draws from the providers, which may be those of the kernel: how often an id and the
-- clock have been read.
pub record Drawn : Type 0 where
  pub ids : ℕ
  pub clock : ℕ

-- A step of an adapter, or an error that it throws.
pub data RuntimeAdapterStep (S : Type 0) : Type 0 where
  request : ProtocolRequest → S → RuntimeAdapterStep S
  done : CompleteRunPayload → S → RuntimeAdapterStep S
  failed : RuntimeAdapterStep S

pub record RuntimeAdapter (S : Type 0) : Type 1 where
  pub init : TeamContext → KernelView → S
  pub step : S → KernelView → Drawn → RuntimeAdapterStep S × Drawn

pub record RunScenarioOptions : Type 0 where
  pub correlation_id : Option String
  pub max_steps : Option ℕ

pub data RunEnd : Type 0 where
  completed : Kernel → RunEnd
  run_not_completed : String → ℕ → RunEnd
  kernel_threw : Fault → RunEnd
  adapter_threw : RunEnd
  no_manager : RunEnd
  not_compiled : Failure → RunEnd

abbrev pub default_max_steps : ℕ
default_max_steps = 1000

abbrev pub kernel_view_of : Kernel → KernelView
kernel_view_of k = record { state = k.state; events = k.log.events }

abbrev pub drawn_of : Kernel → Drawn
drawn_of k = record { ids = k.drawn; clock = k.ticks }

abbrev pub with_drawn : Kernel → Drawn → Kernel
with_drawn k n = record k { drawn = n.ids; ticks = n.clock }

module _ (h : Host) where
  unfoldable pub build_complete_run_request : CompleteRunPayload → Kernel → ProtocolRequest
  build_complete_run_request p k = record {
    request_id = h.next_id k.drawn;
    run_id = k.state.run_id;
    actor = ActorRef.manager;
    idempotency_key = none;
    client_timestamp = h.now_iso k.ticks;
    schema_version = "1.0";
    body = RequestBody.complete_run p;
  }

  module _ {S : Type 0} (adapter : RuntimeAdapter S) (options : RunScenarioOptions)
      (max_steps : ℕ) where
    abbrev pub context : SubmitContext
    context = record { correlation_id = options.correlation_id; expected_task_state = none }

    abbrev pub submitted : ProtocolRequest → Kernel → Result RunEvent × Kernel
    submitted r k = submit h (request_value r) context k

    abbrev pub finish : Result RunEvent × Kernel → RunEnd
    finish (returned e, k) = completed k
    finish (thrown f, k) = kernel_threw f

    abbrev pub complete : CompleteRunPayload → Kernel → RunEnd
    complete p k = finish (
        submitted (build_complete_run_request p k)
          (record k { drawn = suc k.drawn; ticks = suc k.ticks }))

    abbrev pub go_on : (Kernel → RunEnd) → Result RunEvent × Kernel → RunEnd
    go_on next (returned e, k) = next k
    go_on next (thrown f, k) = kernel_threw f

    abbrev pub act : (S → Kernel → RunEnd) → Kernel → RuntimeAdapterStep S × Drawn → RunEnd
    act next k (request r s, n) = go_on (next s) (submitted r (with_drawn k n))
    act next k (done p s, n) = complete p (with_drawn k n)
    act next k (failed, n) = adapter_threw

    -- The rounds of the loop that are left.
    unfoldable pub run_steps : ℕ → S → Kernel → RunEnd
    unfolding submit request_value build_complete_run_request
    run_steps zero s k = run_not_completed k.state.run_id max_steps
    run_steps (suc n) s k = act (run_steps n) k (adapter.step s (kernel_view_of k) (drawn_of k))

    abbrev pub after_seed : TeamContext → Result RunEvent × Kernel → RunEnd
    after_seed team (thrown f, k) = kernel_threw f
    after_seed team (returned e, k) = run_steps max_steps (adapter.init team (kernel_view_of k)) k

    abbrev pub seed : TeamContext → Result Kernel → RunEnd
    seed team (thrown f) = kernel_threw f
    seed team (returned k) = after_seed team (
        seed_run_started h
          (record {
            scenario_ref = team.scenario_ref;
            run_profile_ref = team.run_profile_ref;
            started_at = h.now_iso k.ticks;
          })
          context (record k { ticks = suc k.ticks }))

    -- `runScenario` behind the compiler, with the number of ids drawn and of readings of the clock.
    unfoldable pub run_team : TeamContext → ℕ → ℕ → RunEnd
    unfolding run_steps seed_run_started new_kernel initial_state
    run_team team ids clock = seed team (new_kernel (initial_state team) empty_log ids clock)

  abbrev pub compiled :
      {S : Type 0}
      → RuntimeAdapter S
      → RunScenarioOptions
      → Drawn
      → Authored.Result TeamContext
      → RunEnd
  compiled adapter options n (Authored.thrown error) = not_compiled error
  compiled adapter options n (ok team) =
      run_team adapter options (or_else options.max_steps default_max_steps) team n.ids n.clock

  unfoldable pub run_scenario :
      {S : Type 0} → AuthoredSpec → RuntimeAdapter S → RunScenarioOptions → Drawn → RunEnd
  unfolding run_team compile
  run_scenario authored adapter options n =
      if not (has authored.declared_actors "manager")
      then no_manager
      else compiled adapter options n (compile authored)
