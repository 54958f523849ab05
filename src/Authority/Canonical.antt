-- ===== src/Authority/Canonical.antt =====
-- The canonical policy of core/team-context.ts, as rights of actors.
use pluto_agent_platform.Common.{◌≡◌, String, Option, ◌⊎◌, ◌∙◌, some, ap, inl, subst, sym, inr}
use pluto_agent_platform.Authority.Validate.{validate, ValidationResult}
use pluto_agent_platform.Authority.Policy.{
  manager, role, system, role_owns_task, role_bounded_transitions, OwningRole,
  canonical_authority_policy, owning_role_name, matchers_for, generator, evaluator,
}
use pluto_agent_platform.Protocol.Event.{TaskState, blocked}
use pluto_agent_platform.Protocol.Actor.{ActorRef}
use pluto_agent_platform.Protocol.Request.{
  append_mailbox_message, create_task, change_task_state, publish_artifact, complete_run,
  ChangeTaskStatePayload, RequestBody, ProtocolRequest, intent_of,
}
use pluto_agent_platform.Authority.State.{RunState, RunStateTask}
use pluto_agent_platform.Authority.Admission.{
  Grants, Resolves, to_manager, to_system, to_role, Some, to_owner, to_planner,
}
use pluto_agent_platform.Common.Dict.{lookup}
use pluto_agent_platform.Authority.Decides.{validate_iff}

-- Who may do what to a task.
abbrev pub MayChange : RunState → ActorRef → ChangeTaskStatePayload → Type 0
MayChange s a p =
    (a ≡ ActorRef.manager)
    ⊎ (a ≡ ActorRef.role "lead")
    ⊎ ((o : OwningRole) × (t : RunStateTask) × (a ≡ ActorRef.role (owning_role_name o))
        × (lookup p.task_id s.tasks ≡ some t)
        × (t.owner_actor ≡ some a))
    ⊎ ((a ≡ ActorRef.role "planner") × ((p.to ≡ blocked) ⊎ (p.to ≡ TaskState.cancelled)))

abbrev pub CanonicalRight : RunState → ActorRef → RequestBody → Type 0
CanonicalRight s a (complete_run p) = a ≡ ActorRef.manager
CanonicalRight s a (change_task_state p) = MayChange s a p
CanonicalRight s a (create_task p) =
    (a ≡ ActorRef.manager) ⊎ (a ≡ ActorRef.role "lead") ⊎ (a ≡ ActorRef.role "planner")
CanonicalRight s a (publish_artifact p) =
    (a ≡ ActorRef.role "generator") ⊎ (a ≡ ActorRef.role "lead") ⊎ (a ≡ ActorRef.manager)
CanonicalRight s a (append_mailbox_message p) =
    (a ≡ ActorRef.manager)
    ⊎ (a ≡ ActorRef.role "lead")
    ⊎ (a ≡ ActorRef.role "planner")
    ⊎ (a ≡ ActorRef.role "generator")
    ⊎ (a ≡ ActorRef.role "evaluator")
    ⊎ (a ≡ ActorRef.system)

module _ (s : RunState) (a : ActorRef) (b : RequestBody) where
  Grants-manager : Grants s a b manager → a ≡ ActorRef.manager
  Grants-manager (to_manager _ q) = q
  Grants-manager (to_system m q) = absurd (cc)
  Grants-manager (to_role r m q) = absurd (cc)
  Grants-manager (to_owner o p m _ _ _) = absurd (cc)
  Grants-manager (to_planner p m _ _ _) = absurd (cc)

  Grants-system : Grants s a b system → a ≡ ActorRef.system
  Grants-system (to_system _ q) = q
  Grants-system (to_manager m q) = absurd (cc)
  Grants-system (to_role r m q) = absurd (cc)
  Grants-system (to_owner o p m _ _ _) = absurd (cc)
  Grants-system (to_planner p m _ _ _) = absurd (cc)

  Grants-role : (r : String) → Grants s a b (role r) → a ≡ ActorRef.role r
  Grants-role r (to_role q m is_a) = let same : r ≡ q = cc in is_a ∙ ap ActorRef.role (sym same)
  Grants-role r (to_system m q) = absurd (cc)
  Grants-role r (to_manager m q) = absurd (cc)
  Grants-role r (to_owner o p m _ _ _) = absurd (cc)
  Grants-role r (to_planner p m _ _ _) = absurd (cc)

module _ (s : RunState) (a : ActorRef) (p : ChangeTaskStatePayload) where
  Grants-owner :
      (o : OwningRole) (t : RunStateTask)
      → lookup p.task_id s.tasks ≡ some t
      → Grants s a (change_task_state p) (role_owns_task o)
      → (a ≡ ActorRef.role (owning_role_name o)) × (t.owner_actor ≡ some a)
  Grants-owner o t found (to_owner q p' m is_a is_b (inl absent)) =
      let same : p ≡ p' = cc in
      absurd
        (cc (found, absent, ap (λ (z : ChangeTaskStatePayload). lookup z.task_id s.tasks) same))
  Grants-owner o t found (to_owner q p' m is_a is_b (inr (t', found', owner))) =
      let same : p ≡ p' = cc in
      let same_role : o ≡ q = cc in
      let same_task : t ≡ t' =
        cc (found, found', ap (λ (z : ChangeTaskStatePayload). lookup z.task_id s.tasks) same) in
      (rw same_role is_a, rw same_task owner)
  Grants-owner o t found (to_manager m q) = absurd (cc)
  Grants-owner o t found (to_system m q) = absurd (cc)
  Grants-owner o t found (to_role r m q) = absurd (cc)
  Grants-owner o t found (to_planner p m _ _ _) = absurd (cc)

  Grants-planner :
      Grants s a (change_task_state p) role_bounded_transitions
      → (a ≡ ActorRef.role "planner") × ((p.to ≡ blocked) ⊎ (p.to ≡ TaskState.cancelled))
  Grants-planner (to_planner p' m is_a is_b bounded) =
      let same : p ≡ p' = cc in (is_a, rw same bounded)
  Grants-planner (to_manager m q) = absurd (cc)
  Grants-planner (to_system m q) = absurd (cc)
  Grants-planner (to_role r m q) = absurd (cc)
  Grants-planner (to_owner o p m _ _ _) = absurd (cc)

  change_right :
      (t : RunStateTask)
      → lookup p.task_id s.tasks ≡ some t
      → Some (Grants s a (change_task_state p)) canonical_authority_policy.change_task_state
      → MayChange s a p
  change_right t found (inl g) = inl (Grants-manager s a _ g)
  change_right t found (inr (inl g)) = inr (inl (Grants-role s a _ "lead" g))
  change_right t found (inr (inr (inl g))) =
      let (is_a, owner) = Grants-owner generator t found g in
      inr (inr (inl (generator, t, is_a, found, owner)))
  change_right t found (inr (inr (inr (inl g)))) =
      let (is_a, owner) = Grants-owner evaluator t found g in
      inr (inr (inl (evaluator, t, is_a, found, owner)))
  change_right t found (inr (inr (inr (inr (inl g))))) = inr (inr (inr (Grants-planner g)))
  change_right t found (inr (inr (inr (inr (inr g))))) = absurd g

module _ (s : RunState) (a : ActorRef) where
  canonical_right :
      (b : RequestBody)
      → Resolves s b
      → Some (Grants s a b) (matchers_for canonical_authority_policy (intent_of b))
      → CanonicalRight s a b
  canonical_right (change_task_state p) (t, found) g = change_right s a p t found g
  canonical_right (complete_run p) _ (inl g) = Grants-manager s a _ g
  canonical_right (complete_run p) _ (inr g) = absurd g
  canonical_right (create_task p) _ (inl g) = inl (Grants-manager s a _ g)
  canonical_right (create_task p) _ (inr (inl g)) = inr (inl (Grants-role s a _ _ g))
  canonical_right (create_task p) _ (inr (inr (inl g))) = inr (inr (Grants-role s a _ _ g))
  canonical_right (create_task p) _ (inr (inr (inr g))) = absurd g
  canonical_right (publish_artifact p) _ (inl g) = inl (Grants-role s a _ _ g)
  canonical_right (publish_artifact p) _ (inr (inl g)) = inr (inl (Grants-role s a _ _ g))
  canonical_right (publish_artifact p) _ (inr (inr (inl g))) = inr (inr (Grants-manager s a _ g))
  canonical_right (publish_artifact p) _ (inr (inr (inr g))) = absurd g
  canonical_right (append_mailbox_message p) _ g = message_right g
    where
      message_right :
          Some
            (Grants s a (append_mailbox_message p))
            canonical_authority_policy.append_mailbox_message
          → CanonicalRight s a (append_mailbox_message p)
      message_right (inl g) = inl (Grants-manager s a _ g)
      message_right (inr (inl g)) = inr (inl (Grants-role s a _ _ g))
      message_right (inr (inr (inl g))) = inr (inr (inl (Grants-role s a _ _ g)))
      message_right (inr (inr (inr (inl g)))) = inr (inr (inr (inl (Grants-role s a _ _ g))))
      message_right (inr (inr (inr (inr (inl g))))) =
          inr (inr (inr (inr (inl (Grants-role s a _ _ g)))))
      message_right (inr (inr (inr (inr (inr (inl g)))))) =
          inr (inr (inr (inr (inr (Grants-system s a _ g)))))
      message_right (inr (inr (inr (inr (inr (inr g)))))) = absurd g

-- Under the canonical policy, whoever has a request accepted has the right to it: only the manager
-- completes a run; a generator or an evaluator changes only a task that it owns; a planner
-- only blocks or cancels; and tasks, artifacts and messages come from the listed roles.
pub canonical_rights :
    (s : RunState) (r : ProtocolRequest) (x : Option TaskState)
    → s.policy ≡ canonical_authority_policy
    → validate s r x ≡ ValidationResult.ok
    → CanonicalRight s r.actor r.body
canonical_rights s r x canonical valid =
    let a = (validate_iff s r x).0 valid in
    canonical_right s r.actor r.body a.resolves (
      subst (λ p. Some (Grants s r.actor r.body) (matchers_for p (intent_of r.body))) canonical
        a.granted)
