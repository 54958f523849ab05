-- ===== src/Runner/Record.antt =====
-- The log of a run of runtime/runner.ts, whatever the adapter.
use pluto_agent_platform.Common.{
  ℕ, zero, suc, ◌≡◌, refl, Bool, true, false, if◌then◌else◌, or_else, not, subst,
}
use pluto_agent_platform.Spec.Authored
use pluto_agent_platform.Spec.Authored.{ok, AuthoredSpec}
use pluto_agent_platform.Kernel.Log.{Result, returned, thrown, empty_log}
use pluto_agent_platform.Runner.Scenario.{
  request, done, failed, completed, no_manager, run_scenario, RunEnd, RuntimeAdapter,
  RunScenarioOptions, Drawn, run_steps, run_team, submitted, finish, complete, RuntimeAdapterStep,
  compiled, build_complete_run_request, act, context, with_drawn, kernel_view_of, go_on, seed,
  drawn_of, after_seed,
}
use pluto_agent_platform.Kernel.Host.{Kernel, Host, new_kernel}
use pluto_agent_platform.Authority.State.{initial_state, TeamContext}
use pluto_agent_platform.Kernel.Move.{Move, submit-Move, quiet, seed_run_started-Move}
use pluto_agent_platform.Protocol.Request.{ProtocolRequest}
use pluto_agent_platform.Protocol.Event.{RunEvent, CompleteRunPayload}
use pluto_agent_platform.Spec.Compile.{compile}
use pluto_agent_platform.Kernel.Replay.{IsReplay, Move-IsReplay, new_kernel-IsReplay}
use pluto_agent_platform.Tools.Values.{request_value}
use pluto_agent_platform.Common.Dict.{has}

-- A property of the kernel of a completed run.
abbrev pub Of : (Kernel → Type 0) → RunEnd → Type 0
Of P (completed k) = P k
Of P _ = Unit

module _ (h : Host) {S : Type 0} (adapter : RuntimeAdapter S) (options : RunScenarioOptions)
    (max : ℕ) (P : Kernel → Type 0) (keep : (k k' : Kernel) → Move h k k' → P k → P k') where
  submitted-keeps :
      (r : ProtocolRequest) (k : Kernel) → P k → P (submitted h adapter options max r k).1
  submitted-keeps r k = keep k _ (submit-Move h (context h adapter options max) k (request_value r))

  finish-keeps : (x : Result RunEvent × Kernel) → P x.1 → Of P (finish h adapter options max x)
  finish-keeps (returned e, k) p = p
  finish-keeps (thrown f, k) p = tt

  complete-keeps :
      (p : CompleteRunPayload) (k : Kernel) → P k → Of P (complete h adapter options max p k)
  complete-keeps p k q = finish-keeps _ (
      submitted-keeps (build_complete_run_request h p k)
        (record k { drawn = suc k.drawn; ticks = suc k.ticks }) (keep k _ (quiet refl refl) q))

  run_steps-keeps :
      (n : ℕ) (s : S) (k : Kernel) → P k → Of P (run_steps h adapter options max n s k)
  unfolding run_steps
  run_steps-keeps zero s k p = tt
  run_steps-keeps (suc n) s k p =
      act-keeps (run_steps h adapter options max n) (run_steps-keeps n)
        (adapter.step s (kernel_view_of k) (drawn_of k))
    where
      act-keeps :
          (next : S → Kernel → RunEnd)
          → ((s' : S) (k' : Kernel) → P k' → Of P (next s' k'))
          → (x : RuntimeAdapterStep S × Drawn) → Of P (act h adapter options max next k x)
      act-keeps next later (failed, m) = tt
      act-keeps next later (done c s', m) =
          complete-keeps c (with_drawn k m) (keep k _ (quiet refl refl) p)
      act-keeps next later (request r s', m) =
          on_answer (submitted h adapter options max r (with_drawn k m))
            (submitted-keeps r (with_drawn k m) (keep k _ (quiet refl refl) p))
        where
          on_answer :
              (x : Result RunEvent × Kernel)
              → P x.1
              → Of P (go_on h adapter options max (next s') x)
          on_answer (returned e, k') q = later s' k' q
          on_answer (thrown f, k') q = tt

  run_team-keeps :
      (team : TeamContext) (ids clock : ℕ)
      → ((k : Kernel) → new_kernel (initial_state team) empty_log ids clock ≡ returned k → P k)
      → Of P (run_team h adapter options max team ids clock)
  unfolding run_team
  run_team-keeps team ids clock first =
      seeded (new_kernel (initial_state team) empty_log ids clock) refl
    where
      begun :
          (x : Result RunEvent × Kernel) → P x.1 → Of P (after_seed h adapter options max team x)
      begun (thrown f, k) p = tt
      begun (returned e, k) p = run_steps-keeps max (adapter.init team (kernel_view_of k)) k p

      seeded :
          (x : Result Kernel)
          → new_kernel (initial_state team) empty_log ids clock ≡ x
          → Of P (seed h adapter options max team x)
      seeded (thrown f) q = tt
      seeded (returned k) q = begun _ (
          keep _ _
            (seed_run_started-Move h (context h adapter options max)
              (record k { ticks = suc k.ticks }) _)
            (keep k _ (quiet refl refl) (first k q)))

-- A run that is completed, under any adapter, is one of a spec that compiles, and its state is the replay
-- of its log from the initial state of the team, with gapless sequence numbers and distinct event ids.
pub run_scenario-IsReplay :
    {S : Type 0} (h : Host) (authored : AuthoredSpec) (adapter : RuntimeAdapter S)
    (options : RunScenarioOptions) (n : Drawn) (k : Kernel)
    → run_scenario h authored adapter options n ≡ completed k
    → (team : TeamContext) × (compile authored ≡ ok team) × IsReplay (initial_state team) k
unfolding run_scenario initial_state
run_scenario-IsReplay h authored adapter options n k q =
    guarded (has authored.declared_actors "manager") q
  where
    steps_left : ℕ
    steps_left = or_else options.max_steps 1000

    on_team :
        (x : Authored.Result TeamContext)
        → compile authored ≡ x
        → compiled h adapter options n x ≡ completed k
        → (team : TeamContext) × (compile authored ≡ ok team) × IsReplay (initial_state team) k
    on_team (Authored.thrown error) c r = absurd (cc (r))
    on_team (ok team) c r = (
      team,
      c,
      subst (Of (IsReplay (initial_state team))) r (
          run_team-keeps h adapter options steps_left (IsReplay (initial_state team))
            (Move-IsReplay h (initial_state team)) team n.ids n.clock
            λ k' made. new_kernel-IsReplay (initial_state team) n.ids n.clock k' refl made),
    )

    guarded :
        (manager : Bool)
        → (if not manager then no_manager else compiled h adapter options n (compile authored))
          ≡ completed k
        → (team : TeamContext) × (compile authored ≡ ok team) × IsReplay (initial_state team) k
    guarded false r = absurd (cc (r))
    guarded true r = on_team (compile authored) refl r
