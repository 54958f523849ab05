-- ===== src/Runner/Plays.antt =====
-- How a script is played to an end of the run, told step by step and apart from the loop of
-- runtime/runner.ts and the adapter of adapters/fake/fake-adapter.ts.
use pluto_agent_platform.Common.{
  ℕ, suc, none, some, List, ◌≡◌, true, false, Option, get_elem?, String,
}
use pluto_agent_platform.Common.Dict.{has}
use pluto_agent_platform.Spec.Authored
use pluto_agent_platform.Spec.Authored.{ok, AuthoredSpec, Failure}
use pluto_agent_platform.Spec.Compile.{compile}
use pluto_agent_platform.Kernel.Log.{returned, thrown, Result, empty_log, Fault}
use pluto_agent_platform.Kernel.Host.{Host, Kernel, new_kernel}
use pluto_agent_platform.Kernel.Submit.{submit, seed_run_started}
use pluto_agent_platform.Authority.State.{TeamContext, initial_state}
use pluto_agent_platform.Protocol.Event.{
  RunEvent, CompleteRunPayload, RunCompletedStatus, RunStartedPayload,
}
use pluto_agent_platform.Protocol.Request.{ProtocolRequest, Intent}
use pluto_agent_platform.Tools.Values.{request_value}
use pluto_agent_platform.Runner.Script.{FakeScriptStep}
use pluto_agent_platform.Runner.Fake.{
  materialize_fake_completion, materialize_fake_protocol_request,
}
use pluto_agent_platform.Runner.Scenario.{
  RunEnd, completed, kernel_threw, adapter_threw, no_manager, not_compiled, Drawn, kernel_view_of,
  drawn_of, build_complete_run_request,
}

-- One id and one reading of the clock more.
abbrev pub drew : Kernel → Kernel
drew k = record k { drawn = suc k.drawn; ticks = suc k.ticks }

module _ (h : Host) (correlation_id : Option String) where
  abbrev submits : ProtocolRequest → Kernel → Result RunEvent × Kernel
  submits r k =
      submit h (request_value r)
        (record { correlation_id = correlation_id; expected_task_state = none }) k

  -- The manager's request to complete the run, and what the kernel says to it.
  pub data Concludes (p : CompleteRunPayload) (k : Kernel) : RunEnd → Type 0 where
    concluded :
        (e : RunEvent) (k' : Kernel)
        → submits (build_complete_run_request h p k) (drew k) ≡ (returned e, k')
        → Concludes p k (completed k')
    unrecorded :
        (f : Fault) (k' : Kernel)
        → submits (build_complete_run_request h p k) (drew k) ≡ (thrown f, k')
        → Concludes p k (kernel_threw f)

  module _ (steps : List FakeScriptStep) where
    -- From the step at an index, and a kernel, to an end of the run.
    pub data Plays : ℕ → Kernel → RunEnd → Type 0 where
      behind_last :
          (i : ℕ) (k : Kernel) (end : RunEnd)
          → get_elem? steps i ≡ none
          → Concludes (record { status = RunCompletedStatus.succeeded; summary = none }) k end
          → Plays i k end
      completes :
          (i : ℕ) (k : Kernel) (end : RunEnd) (step : FakeScriptStep) (p : CompleteRunPayload)
          → get_elem? steps i ≡ some step
          → step.intent ≡ Intent.complete_run
          → materialize_fake_completion h step (kernel_view_of k) ≡ some p
          → Concludes p k end
          → Plays i k end
      no_completion :
          (i : ℕ) (k : Kernel) (step : FakeScriptStep)
          → get_elem? steps i ≡ some step
          → step.intent ≡ Intent.complete_run
          → materialize_fake_completion h step (kernel_view_of k) ≡ none
          → Plays i k adapter_threw
      no_request :
          (i : ℕ) (k : Kernel) (step : FakeScriptStep)
          → get_elem? steps i ≡ some step
          → ¬ (step.intent ≡ Intent.complete_run)
          → materialize_fake_protocol_request h step (kernel_view_of k) (drawn_of k) ≡ none
          → Plays i k adapter_threw
      unrecorded_request :
          (i : ℕ) (k k' : Kernel) (step : FakeScriptStep) (r : ProtocolRequest) (f : Fault)
          → get_elem? steps i ≡ some step
          → ¬ (step.intent ≡ Intent.complete_run)
          → materialize_fake_protocol_request h step (kernel_view_of k) (drawn_of k) ≡ some r
          → submits r (drew k) ≡ (thrown f, k')
          → Plays i k (kernel_threw f)
      requests :
          (i : ℕ) (k k' : Kernel) (end : RunEnd) (step : FakeScriptStep) (r : ProtocolRequest)
          (e : RunEvent)
          → get_elem? steps i ≡ some step
          → ¬ (step.intent ≡ Intent.complete_run)
          → materialize_fake_protocol_request h step (kernel_view_of k) (drawn_of k) ≡ some r
          → submits r (drew k) ≡ (returned e, k')
          → Plays (suc i) k' end
          → Plays i k end

    abbrev start_payload : TeamContext → Kernel → RunStartedPayload
    start_payload team k = record {
      scenario_ref = team.scenario_ref;
      run_profile_ref = team.run_profile_ref;
      started_at = h.now_iso k.ticks;
    }

    abbrev pub seeded_log : TeamContext → Kernel → Result RunEvent × Kernel
    seeded_log team k =
        seed_run_started h (start_payload team k)
          (record { correlation_id = correlation_id; expected_task_state = none })
          (record k { ticks = suc k.ticks })

    -- The run of a spec: it is refused, it cannot start, or its script is played from the first step.
    pub data Ended (authored : AuthoredSpec) (n : Drawn) : RunEnd → Type 0 where
      unmanaged : has authored.declared_actors "manager" ≡ false → Ended authored n no_manager
      refused :
          (f : Failure) → compile authored ≡ Authored.thrown f → Ended authored n (not_compiled f)
      not_loaded :
          (team : TeamContext) (f : Fault)
          → compile authored ≡ ok team
          → new_kernel (initial_state team) empty_log n.ids n.clock ≡ thrown f
          → Ended authored n (kernel_threw f)
      not_seeded :
          (team : TeamContext) (start k : Kernel) (f : Fault)
          → compile authored ≡ ok team
          → new_kernel (initial_state team) empty_log n.ids n.clock ≡ returned start
          → seeded_log team start ≡ (thrown f, k)
          → Ended authored n (kernel_threw f)
      played :
          (team : TeamContext) (start k : Kernel) (e : RunEvent) (end : RunEnd)
          → has authored.declared_actors "manager" ≡ true
          → compile authored ≡ ok team
          → new_kernel (initial_state team) empty_log n.ids n.clock ≡ returned start
          → seeded_log team start ≡ (returned e, k)
          → Plays 0 k end
          → Ended authored n end
