-- ===== src/Runner/Finishes.antt =====
-- The end of a run of runtime/runner.ts: within its steps under adapters/fake/fake-adapter.ts, and
-- with a log that is the record of the run under any adapter.
use pluto_agent_platform.Common.{
  ℕ, zero, suc, Option, none, some, List, [], ◌∷◌, ◌≡◌, ◌<◌, ◌≤◌, ◌+◌, get_elem?, length, arith,
  refl, Bool, true, false, if◌then◌else◌, or_else,
}
use pluto_agent_platform.Spec.Authored
use pluto_agent_platform.Spec.Authored.{ok, AuthoredSpec}
use pluto_agent_platform.Runner.Fake.{
  play, run_fake, requested, finished, materialize_fake_completion,
  materialize_fake_protocol_request, drawn_again, is_completion,
}
use pluto_agent_platform.Common.{not}
use pluto_agent_platform.Kernel.Log.{returned, thrown, Result, empty_log}
use pluto_agent_platform.Runner.Scenario.{
  no_manager, RunEnd, RunScenarioOptions, RuntimeAdapter, run_steps, finish, go_on, act, run_team,
  kernel_view_of, run_scenario, drawn_of, after_seed, seed, Drawn, compiled, submitted, complete,
  build_complete_run_request,
}
use pluto_agent_platform.Runner.Script.{FakeScriptStep}
use pluto_agent_platform.Kernel.Host.{Host, Kernel, new_kernel}
use pluto_agent_platform.Runner.Fake.{make_fake_adapter}
use pluto_agent_platform.Protocol.Event.{RunEvent, CompleteRunPayload}
use pluto_agent_platform.Authority.State.{TeamContext, initial_state}
use pluto_agent_platform.Protocol.Request.{ProtocolRequest, Intent}
use pluto_agent_platform.Spec.Compile.{compile}
use pluto_agent_platform.Common.Dict.{has}
use pluto_agent_platform.Runner.Plays.{
  Plays, Concludes, Ended, behind_last, refused, not_seeded, unmanaged, drew, played, concluded,
  requests, not_loaded, unrecorded, unrecorded_request, no_request, no_completion, completes,
  seeded_log,
}

get_elem?-length :
    {A : Type 0} (xs : List A) (i : ℕ) (x : A) → get_elem? xs i ≡ some x → i < length xs
get_elem?-length [] i x q = absurd (cc (q))
get_elem?-length (y ∷ ys) zero x q = omega arith
get_elem?-length (y ∷ ys) (suc i) x q = omega (arith, get_elem?-length ys i x q)

module _ (h : Host) (steps : List FakeScriptStep) (options : RunScenarioOptions) (max : ℕ) where
  abbrev adapter : RuntimeAdapter ℕ
  adapter = make_fake_adapter h steps

  abbrev Played : ℕ → Kernel → RunEnd → Type 0
  Played i k end = Plays h options.correlation_id steps i k end

  complete-Concludes :
      (p : CompleteRunPayload) (k : Kernel)
      → Concludes h options.correlation_id p k (complete h adapter options max p k)
  complete-Concludes p k =
      go (submitted h adapter options max (build_complete_run_request h p k) (drew k)) refl
    where
      go :
          (x : Result RunEvent × Kernel)
          → submitted h adapter options max (build_complete_run_request h p k) (drew k) ≡ x
          → Concludes h options.correlation_id p k (finish h adapter options max x)
      go (returned e, k') q = concluded e k' q
      go (thrown f, k') q = unrecorded f k' q

  -- A round ends the run, or goes on with the next step of the script.
  play-Plays :
      (next : ℕ → Kernel → RunEnd) (i : ℕ) (k : Kernel)
      → (i < length steps → (k' : Kernel) → Played (suc i) k' (next (suc i) k'))
      → (o : Option FakeScriptStep) → get_elem? steps i ≡ o
      → Played i k
          (act h adapter options max next k (play h (suc i) (kernel_view_of k) (drawn_of k) o))
  play-Plays next i k later none q = behind_last i k _ q (complete-Concludes _ k)
  play-Plays next i k later (some step) q = go step.intent refl
    where
      on_answer :
          (r : ProtocolRequest)
          → ¬ (step.intent ≡ Intent.complete_run)
          → materialize_fake_protocol_request h step (kernel_view_of k) (drawn_of k) ≡ some r
          → (x : Result RunEvent × Kernel) → submitted h adapter options max r (drew k) ≡ x
          → Played i k (go_on h adapter options max (next (suc i)) x)
      on_answer r w m (returned e, k') t =
          requests i k k' _ step r e q w m t (later (get_elem?-length steps i step q) k')
      on_answer r w m (thrown f, k') t = unrecorded_request i k k' step r f q w m t

      asked :
          ¬ (step.intent ≡ Intent.complete_run)
          → (o : Option ProtocolRequest)
          → materialize_fake_protocol_request h step (kernel_view_of k) (drawn_of k) ≡ o
          → Played i k
              (act h adapter options max next k (requested h (suc i) o, drawn_again h (drawn_of k)))
      asked w none m = no_request i k step q w m
      asked w (some r) m = on_answer r w m (submitted h adapter options max r (drew k)) refl

      ends :
          step.intent ≡ Intent.complete_run
          → (o : Option CompleteRunPayload)
          → materialize_fake_completion h step (kernel_view_of k) ≡ o
          → Played i k (act h adapter options max next k (finished h (suc i) o, drawn_of k))
      ends c none m = no_completion i k step q c m
      ends c (some p) m = completes i k _ step p q c m (complete-Concludes p k)

      go :
          (intent : Intent)
          → step.intent ≡ intent
          → Played i k (
              act h adapter options max next k (
                if is_completion intent
                then (
                  finished h (suc i) (materialize_fake_completion h step (kernel_view_of k)),
                  drawn_of k,
                )
                else (
                  requested h
                      (suc i)
                      (materialize_fake_protocol_request h step (kernel_view_of k) (drawn_of k)),
                  drawn_again h (drawn_of k),
                )))
      go Intent.complete_run c = ends c (materialize_fake_completion h step (kernel_view_of k)) refl
      go Intent.append_mailbox_message c = asked (λ d. cc (c, d)) _ refl
      go Intent.create_task c = asked (λ d. cc (c, d)) _ refl
      go Intent.change_task_state c = asked (λ d. cc (c, d)) _ refl
      go Intent.publish_artifact c = asked (λ d. cc (c, d)) _ refl

  run_steps-Plays :
      (n i : ℕ) (k : Kernel)
      → i ≤ length steps
      → length steps < i + n
      → Played i k (run_steps h adapter options max n i k)
  unfolding run_steps make_fake_adapter
  run_steps-Plays zero i k within left = absurd (omega (arith, within, left))
  run_steps-Plays (suc n) i k within left =
      play-Plays (run_steps h adapter options max n) i k
        (λ more k'. run_steps-Plays n (suc i) k' (omega (arith, more)) (omega (arith, left)))
        (get_elem? steps i) refl

  run_team-Ended :
      (authored : AuthoredSpec) (team : TeamContext) (n : Drawn)
      → has authored.declared_actors "manager" ≡ true
      → compile authored ≡ ok team
      → length steps < max
      → Ended h options.correlation_id steps authored n
          (run_team h adapter options max team n.ids n.clock)
  unfolding run_team make_fake_adapter
  run_team-Ended authored team n manager is_team enough =
      seeded (new_kernel (initial_state team) empty_log n.ids n.clock) refl
    where
      begun :
          (start : Kernel)
          → new_kernel (initial_state team) empty_log n.ids n.clock ≡ returned start
          → (x : Result RunEvent × Kernel)
          → seeded_log h options.correlation_id steps team start ≡ x
          → Ended h options.correlation_id steps authored n
              (after_seed h adapter options max team x)
      begun start made (thrown f, k) q = not_seeded team start k f is_team made q
      begun start made (returned e, k) q =
          played team start k e _ manager is_team made q
            (run_steps-Plays max 0 k (omega arith) (omega (arith, enough)))

      seeded :
          (x : Result Kernel)
          → new_kernel (initial_state team) empty_log n.ids n.clock ≡ x
          → Ended h options.correlation_id steps authored n (seed h adapter options max team x)
      seeded (thrown f) q = not_loaded team f is_team q
      seeded (returned start) q =
          begun start q (seeded_log h options.correlation_id steps team start) refl

-- The run of a script of fewer steps than the limit, 1000 if none is set, never runs out of steps. It
-- ends at once where no manager is declared, the compiler refuses the spec, or the kernel is not loaded or
-- its log not seeded. Otherwise the steps of the script are taken one by one from the first: a step that
-- asks for the completion, or the end of the script, which asks for it as succeeded, ends the run as
-- completed, with the kernel that has recorded it; a step that cannot be made into a request or
-- a completion ends it with the adapter's error; and a submission that throws ends it with that error.
pub run_fake-Ended :
    (h : Host) (authored : AuthoredSpec) (steps : List FakeScriptStep)
    (options : RunScenarioOptions) (n : Drawn)
    → length steps < or_else options.max_steps 1000
    → Ended h options.correlation_id steps authored n (run_fake h authored steps options n)
unfolding run_fake run_scenario
run_fake-Ended h authored steps options n enough =
    guarded (has authored.declared_actors "manager") refl
  where
    on_team :
        has authored.declared_actors "manager" ≡ true
        → (x : Authored.Result TeamContext) → compile authored ≡ x
        → Ended h options.correlation_id steps authored n
            (compiled h (make_fake_adapter h steps) options n x)
    on_team manager (Authored.thrown error) q = refused error q
    on_team manager (ok team) q =
        run_team-Ended h steps options (or_else options.max_steps 1000) authored team n manager q
          enough

    guarded :
        (manager : Bool)
        → has authored.declared_actors "manager" ≡ manager
        → Ended h options.correlation_id steps authored n (
            if not manager
            then no_manager
            else compiled h (make_fake_adapter h steps) options n (compile authored))
    guarded false q = unmanaged q
    guarded true q = on_team q (compile authored) refl
