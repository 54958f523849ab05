-- ===== src/Spec/Decides.antt =====
-- The compiler accepts exactly the well-formed specs, and what it makes of them.
use pluto_agent_platform.Common.{List, [], ◌≡◌, ◌↔◌, true, map, refl, Bool-cases, inl, inr, ◌∷◌}
use pluto_agent_platform.Protocol.Actor.{ActorRef}
use pluto_agent_platform.Authority.Policy.{AuthorityPolicy}
use pluto_agent_platform.Authority.State.{TeamContext, InitialTask}
use pluto_agent_platform.Spec.Authored.{AuthoredSpec, ok, AuthoredInitialTask}
use pluto_agent_platform.Spec.Compile.{
  compile, compile_actors, validate_agentic_orchestration, compile_declared_actors,
  compile_initial_tasks, compile_policy, parse_team_context, team_context_ok,
}
use pluto_agent_platform.Spec.WellFormed.{WellFormed, Returns, bind-ok, bind-Returns}
use pluto_agent_platform.Spec.Matchers.{ok_injective}
use pluto_agent_platform.Spec.Policies.{
  FitPolicy, FitPolicy-policy_ok, compile_policy-ok, PolicyOk-Returns,
}
use pluto_agent_platform.Spec.Parts.{
  actors_of, compile_actors-ok, compile_actors_valid, compile_declared_actors-ok,
  compile_declared_actors-Returns,
}
use pluto_agent_platform.Spec.Tasks.{
  task_ids, compile_initial_tasks-ok, compile_initial_tasks-Returns, Unseen,
}
use pluto_agent_platform.Spec.Agentic.{
  validate_agentic_orchestration-ok, validate_agentic_orchestration_valid,
}

-- What the compiler returns: it passes the schema, each list of its policy is fit for its intent, and it
-- has the run and the tasks of the spec.
pub record Compiled (s : AuthoredSpec) (c : TeamContext) : Type 0 where
  pub well_formed : WellFormed s
  pub schema : team_context_ok c ≡ true
  pub fit : FitPolicy c.policy
  pub run : c.run_id ≡ s.run_id
  pub ids : map (λ t. t.task_id) c.initial_tasks ≡ task_ids s.initial_tasks

abbrev context : AuthoredSpec → List ActorRef → List InitialTask → AuthorityPolicy → TeamContext
context s declared tasks policy = record {
  run_id = s.run_id;
  scenario_ref = s.scenario_ref;
  run_profile_ref = s.run_profile_ref;
  declared_actors = declared;
  initial_tasks = tasks;
  policy = policy;
}

parse_team_context-ok :
    (c d : TeamContext) → parse_team_context c ≡ ok d → (team_context_ok c ≡ true) × (c ≡ d)
parse_team_context-ok c d h = elim (Bool-cases (team_context_ok c)) [
  | inl good ↦ (good, ok_injective (rw good at h))
  | inr bad ↦ absurd (cc (rw bad at h))
]

parse_team_context_valid :
    (c : TeamContext) → team_context_ok c ≡ true → parse_team_context c ≡ ok c
parse_team_context_valid c h = rw h

pub compile-Compiled : (s : AuthoredSpec) (c : TeamContext) → compile s ≡ ok c → Compiled s c
unfolding compile
compile-Compiled s c h =
    let (m, q1, h1) = bind-ok (compile_actors s.actors) _ c h in
    let (u, q2, h2) = bind-ok (validate_agentic_orchestration s) _ c h1 in
    let (declared, q3, h3) = bind-ok (compile_declared_actors m 0 s.declared_actors) _ c h2 in
    let (tasks, q4, h4) = bind-ok (compile_initial_tasks m [] 0 s.initial_tasks) _ c h3 in
    let (policy, q5, h5) = bind-ok (compile_policy s.policy) _ c h4 in
    let (roles, is_m) = compile_actors-ok s.actors m q1 in
    let (defined, _) =
      compile_declared_actors-ok s.actors roles 0 s.declared_actors declared (rw is_m at q3) in
    let (_, distinct, owners, _, ids) =
      compile_initial_tasks-ok s.actors roles [] 0 s.initial_tasks tasks (rw is_m at q4) in
    let (listed, fit) = compile_policy-ok s.policy policy q5 in
    let (good, is_c) = parse_team_context-ok (context s declared tasks policy) c h5 in
    rw (← is_c) (record {
      well_formed = record {
        roles = roles;
        agentic_run = validate_agentic_orchestration-ok s u q2;
        declared = defined;
        distinct = distinct;
        owners = owners;
        policy = listed;
      };
      schema = good;
      fit = fit;
      run = refl;
      ids = ids;
    })

none_seen : (s : AuthoredSpec) → Unseen [] s.initial_tasks
none_seen s = go s.initial_tasks
  where
    go : (ts : List AuthoredInitialTask) → Unseen [] ts
    go [] = tt
    go (t ∷ ts) = (refl, go ts)

WellFormed-Returns : (s : AuthoredSpec) → WellFormed s → Returns (compile s)
unfolding compile team_context_ok
WellFormed-Returns s w =
    rw (compile_actors_valid s.actors w.roles, validate_agentic_orchestration_valid s w.agentic_run)
      (bind-Returns _ _
        (compile_declared_actors-Returns s.actors w.roles 0 s.declared_actors w.declared)
        λ declared q3.
          bind-Returns _ _
            (compile_initial_tasks-Returns s.actors w.roles [] 0 s.initial_tasks (none_seen s)
              w.distinct w.owners)
            λ tasks q4. bind-Returns _ _ (PolicyOk-Returns s.policy w.policy) λ policy q5. (
              context s declared tasks policy,
              parse_team_context_valid (context s declared tasks policy)
                  (assembled declared tasks policy q3 q4 q5),
            ))
  where
    assembled :
        (declared : List ActorRef) (tasks : List InitialTask) (policy : AuthorityPolicy)
        → compile_declared_actors (actors_of s.actors) 0 s.declared_actors ≡ ok declared
        → compile_initial_tasks (actors_of s.actors) [] 0 s.initial_tasks ≡ ok tasks
        → compile_policy s.policy ≡ ok policy
        → team_context_ok (context s declared tasks policy) ≡ true
    assembled declared tasks policy q3 q4 q5 =
        let (_, good) =
          compile_declared_actors-ok s.actors w.roles 0 s.declared_actors declared q3 in
        let (_, _, _, owned, _) =
          compile_initial_tasks-ok s.actors w.roles [] 0 s.initial_tasks tasks q4 in
        let (_, fit) = compile_policy-ok s.policy policy q5 in
        rw (good, owned, FitPolicy-policy_ok policy fit)

-- The compiler returns a team context exactly for the well-formed specs: each role has the form of one,
-- each declared name and each owner is defined, no task id stands twice, a policy lists each intent
-- once with matchers that may stand there, and an agentic run has its lead, its manager, a task and
-- a playbook in a markdown file. What it assembles passes the schema of a team context.
pub compile_iff : (s : AuthoredSpec) → Returns (compile s) ↔ WellFormed s
compile_iff s = (λ h. (compile-Compiled s h.0 h.1).well_formed, WellFormed-Returns s)
