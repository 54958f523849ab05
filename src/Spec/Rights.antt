-- ===== src/Spec/Rights.antt =====
-- What a policy that the compiler lets through can allow, and to whom.
use pluto_agent_platform.Common.{
  ℕ, List, [], ◌∷◌, ◌≡◌, ◌≢◌, true, all, refl, ap, ◌∙◌, inl, inr, Option, Bool, arith,
}
use pluto_agent_platform.Protocol.Actor.{ActorRef}
use pluto_agent_platform.Protocol.Event.{
  TaskState, RunEvent, EventBody, run_started, run_completed, mailbox_message_appended,
  task_created, task_state_changed, artifact_published, request_rejected,
}
use pluto_agent_platform.Protocol.Request.{
  Intent, ProtocolRequest, RequestBody, append_mailbox_message, create_task, change_task_state,
  publish_artifact, complete_run, intent_of,
}
use pluto_agent_platform.Authority.Policy.{ActorMatcher, AuthorityPolicy, matchers_for}
use pluto_agent_platform.Authority.State.{RunState, TeamContext, initial_state}
use pluto_agent_platform.Authority.Validate.{validate, ValidationResult}
use pluto_agent_platform.Authority.Admission.{
  Grants, Some, to_manager, to_system, to_role, to_owner, to_planner,
}
use pluto_agent_platform.Authority.Decides.{validate_iff}
use pluto_agent_platform.Kernel.Host.{Host, Kernel, new_kernel}
use pluto_agent_platform.Kernel.Log.{empty_log, returned}
use pluto_agent_platform.Kernel.Move.{Move, quiet, logs, Reaches, Reaches-invariant}
use pluto_agent_platform.Kernel.Reducer.{reduce}
use pluto_agent_platform.Spec.Authored.{AuthoredSpec, ok}
use pluto_agent_platform.Spec.Roles.{matcher_allowed_for_intent}
use pluto_agent_platform.Spec.Compile.{compile}
use pluto_agent_platform.Spec.Policies.{FitPolicy}
use pluto_agent_platform.Spec.Decides.{compile-Compiled}

-- The right that some compiled policy can give.
abbrev pub CompiledRight : ActorRef → RequestBody → Type 0
CompiledRight a (complete_run p) = a ≡ ActorRef.manager
CompiledRight a (append_mailbox_message p) = Unit {0}
CompiledRight a (create_task p) = a ≢ ActorRef.system
CompiledRight a (change_task_state p) = a ≢ ActorRef.system
CompiledRight a (publish_artifact p) = a ≢ ActorRef.system

granted_and_allowed :
    {P : ActorMatcher → Type 0} (test : ActorMatcher → Bool) (ms : List ActorMatcher)
    → Some P ms
    → all test ms ≡ true
    → (m : ActorMatcher) × P m × (test m ≡ true)
granted_and_allowed test [] s h = absurd s
granted_and_allowed test (m ∷ ms) (inl p) h = (m, p, ground arith)
granted_and_allowed test (m ∷ ms) (inr s) h = granted_and_allowed test ms s (ground arith)

module _ (s : RunState) (a : ActorRef) where
  -- A grant to the system comes from its own matcher.
  system_grant :
      (b : RequestBody) (m : ActorMatcher)
      → Grants s a b m
      → a ≡ ActorRef.system
      → m ≡ ActorMatcher.system
  system_grant b m (to_system is_m _) q = is_m
  system_grant b m (to_manager _ is_a) q = absurd (cc (is_a, q))
  system_grant b m (to_role r _ is_a) q = absurd (cc (is_a, q))
  system_grant b m (to_owner o p _ is_a _ _) q = absurd (cc (is_a, q))
  system_grant b m (to_planner p _ is_a _ _) q = absurd (cc (is_a, q))

  manager_grant :
      (b : RequestBody) (m : ActorMatcher)
      → Grants s a b m
      → m ≡ ActorMatcher.manager
      → a ≡ ActorRef.manager
  manager_grant b m (to_manager _ is_a) q = is_a
  manager_grant b m (to_system is_m _) q = absurd (cc (is_m, q))
  manager_grant b m (to_role r is_m _) q = absurd (cc (is_m, q))
  manager_grant b m (to_owner o p is_m _ _ _) q = absurd (cc (is_m, q))
  manager_grant b m (to_planner p is_m _ _ _) q = absurd (cc (is_m, q))

only_manager :
    (m : ActorMatcher)
    → matcher_allowed_for_intent Intent.complete_run m ≡ true
    → m ≡ ActorMatcher.manager
unfolding matcher_allowed_for_intent
only_manager ActorMatcher.manager h = refl
only_manager ActorMatcher.system h = absurd (cc (h))
only_manager (ActorMatcher.role r) h = absurd (cc (h))
only_manager (ActorMatcher.role_owns_task o) h = absurd (cc (h))
only_manager ActorMatcher.role_bounded_transitions h = absurd (cc (h))

right_of :
    (s : RunState) (a : ActorRef) (b : RequestBody) (m : ActorMatcher)
    → Grants s a b m
    → matcher_allowed_for_intent (intent_of b) m ≡ true
    → CompiledRight a b
unfolding matcher_allowed_for_intent
right_of s a (complete_run p) m g h = manager_grant s a _ m g (only_manager m h)
right_of s a (append_mailbox_message p) m g h = tt
right_of s a (create_task p) m g h = λ q.
    absurd (cc (ap (matcher_allowed_for_intent Intent.create_task) (system_grant s a _ m g q), h))
right_of s a (change_task_state p) m g h = λ q.
    absurd
      (cc (ap (matcher_allowed_for_intent Intent.change_task_state) (system_grant s a _ m g q), h))
right_of s a (publish_artifact p) m g h = λ q.
    absurd
      (cc (ap (matcher_allowed_for_intent Intent.publish_artifact) (system_grant s a _ m g q), h))

fit_right :
    (s : RunState) (r : ProtocolRequest) (x : Option TaskState)
    → FitPolicy s.policy
    → validate s r x ≡ ValidationResult.ok
    → CompiledRight r.actor r.body
fit_right s r x f h =
    let (m, g, allowed) =
      granted_and_allowed (matcher_allowed_for_intent (intent_of r.body))
        (matchers_for s.policy (intent_of r.body)) ((validate_iff s r x).0 h).granted
        (f.fit (intent_of r.body)).allowed in
    right_of s r.actor r.body m g allowed

reduce-policy : (s : RunState) (e : RunEvent) → (reduce s e).policy ≡ s.policy
unfolding reduce
reduce-policy s e = go e.body
  where
    go : (b : EventBody) → (reduce s (record e { body = b })).policy ≡ s.policy
    go (run_started p) = refl
    go (run_completed p) = refl
    go (mailbox_message_appended p) = refl
    go (task_created p) = refl
    go (task_state_changed p) = refl
    go (artifact_published p) = refl
    go (request_rejected p) = refl

Move-policy :
    (p : AuthorityPolicy) (h : Host) (k k' : Kernel)
    → Move h k k'
    → k.state.policy ≡ p
    → k'.state.policy ≡ p
Move-policy p h k k' (quiet state log) q = rw state q
Move-policy p h k k' (logs e c good source) q =
    ap (λ s. s.policy) c.reduced ∙ reduce-policy k.state e ∙ q

-- Whatever policy a spec sets, in every state that a run of the compiled spec comes to, the validator
-- lets only the manager complete the run, and lets the system do no more than send messages.
pub compiled_rights :
    (h : Host) (spec : AuthoredSpec) (c : TeamContext) (drawn ticks : ℕ) (start k : Kernel)
    → compile spec ≡ ok c
    → new_kernel (initial_state c) empty_log drawn ticks ≡ returned start
    → Reaches h start k
    → (r : ProtocolRequest) (x : Option TaskState) → validate k.state r x ≡ ValidationResult.ok
    → CompiledRight r.actor r.body
unfolding new_kernel initial_state
compiled_rights h spec c drawn ticks start k compiled made reach r x valid =
    let start_policy : start.state.policy ≡ c.policy = ground arith in
    let policy =
      Reaches-invariant h (λ k. k.state.policy ≡ c.policy)
        (λ k k' m q. Move-policy c.policy h k k' m q) start_policy reach in
    fit_right k.state r x (rw policy (compile-Compiled spec c compiled).fit) valid
