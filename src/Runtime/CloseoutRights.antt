-- ===== src/Runtime/CloseoutRights.antt =====
-- What becomes of a planned close-out: the kernel refuses it only for want of a right.
use pluto_agent_platform.Common.{
  String, ◌≡◌, ◌≢◌, ◌↔◌, true, false, none, some, Option, refl, arith, ap, sym, ◌∙◌, inl, inr,
  eq_iff, ◌==◌,
}
use pluto_agent_platform.Common.Dict.{lookup, has}
use pluto_agent_platform.Protocol.Actor.{ActorRef, actor_key}
use pluto_agent_platform.Protocol.Event.{TaskState}
use pluto_agent_platform.Protocol.Request.{Intent, change_task_state}
use pluto_agent_platform.Authority.Policy.{OwningRole, canonical_authority_policy, matchers_for}
use pluto_agent_platform.Authority.State.{RunState, RunStateTask}
use pluto_agent_platform.Authority.Rules.{compose_request_key, transition_legal}
use pluto_agent_platform.Authority.Validate.{validate, ValidationResult}
use pluto_agent_platform.Authority.Admission.{Admissible, Some, Grants}
use pluto_agent_platform.Authority.Decides.{validate_iff}
use pluto_agent_platform.Authority.Canonical.{canonical_rights, MayChange}
use pluto_agent_platform.Runtime.Scheduler.{terminal_task_state}
use pluto_agent_platform.Runtime.Closeout.{
  CloseoutArgs, CloseoutPlan, plan_for, plan_delegated_task_closeout, closeout_request,
}

-- A plan is for a task that is there and not done.
abbrev Open : CloseoutArgs → CloseoutPlan → Type 0
Open a p =
    (t : RunStateTask) × (lookup p.task_id a.run_state.tasks ≡ some t)
    × (terminal_task_state t.state ≡ false)
    × (p.actor ≡ a.actor)

plan-Open :
    (a : CloseoutArgs) (p : CloseoutPlan) → plan_delegated_task_closeout a ≡ some p → Open a p
unfolding plan_delegated_task_closeout
plan-Open a p h = with_id a.delegation_task_id refl
  where
    with_task :
        (id : String) (o : Option RunStateTask)
        → lookup id a.run_state.tasks ≡ o
        → plan_for a id o ≡ some p
        → Open a p
    with_task id none q r = absurd (cc (r))
    with_task id (some t) q r =
        let fits : (terminal_task_state t.state ≡ false)
            × (record { actor = a.actor; task_id = id } ≡ p) =
          ground arith in
        (
          t,
          ap (λ (z : CloseoutPlan). lookup z.task_id a.run_state.tasks) (sym fits.1) ∙ q,
          fits.0,
          ap (λ (z : CloseoutPlan). z.actor) (sym fits.1),
        )

    with_id : (o : Option String) → a.delegation_task_id ≡ o → Open a p
    with_id none q = absurd (ground arith)
    with_id (some id) q = with_task id (lookup id a.run_state.tasks) refl (ground arith)

open-transition_legal :
    (from : TaskState)
    → terminal_task_state from ≡ false
    → transition_legal from TaskState.completed ≡ true
unfolding transition_legal
open-transition_legal from h = ground arith

same_role : (q r : String) → ActorRef.role q ≡ ActorRef.role r → (q == r) ≡ true
same_role q r h = let same : q ≡ r = cc (h) in (eq_iff q r).1 same

planner-barred :
    (s : RunState) (id : String)
    → ¬ MayChange s (ActorRef.role "planner") (record { task_id = id; to = TaskState.completed })
planner-barred s id (inl q) = cc (q)
planner-barred s id (inr (inl q)) = cc (same_role "planner" "lead" q)
planner-barred s id (inr (inr (inl (OwningRole.generator, t, q, _, _)))) =
    cc (same_role "planner" "generator" q)
planner-barred s id (inr (inr (inl (OwningRole.evaluator, t, q, _, _)))) =
    cc (same_role "planner" "evaluator" q)
planner-barred s id (inr (inr (inr (_, inl q)))) = cc (q)
planner-barred s id (inr (inr (inr (_, inr q)))) = cc (q)

-- The right that the policy gives to a close-out.
abbrev pub Granted : CloseoutArgs → CloseoutPlan → Type 0
Granted a p =
    (has a.run_state.declared_actors (actor_key p.actor) ≡ true)
    × Some
        (Grants a.run_state p.actor
          (change_task_state (record { task_id = p.task_id; to = TaskState.completed })))
        (matchers_for a.run_state.policy Intent.change_task_state)

module _ (a : CloseoutArgs) (p : CloseoutPlan) (request_id time : String) where
  abbrev Valid : Type 0
  Valid =
      validate a.run_state (closeout_request a.run_state p request_id time) none
      ≡ ValidationResult.ok

  closeout-Admissible :
      Open a p
      → Granted a p
      → Admissible a.run_state (closeout_request a.run_state p request_id time) none
  unfolding closeout_request compose_request_key
  closeout-Admissible (t, found, undone, _) g = record {
    declared = g.0;
    granted = g.1;
    resolves = (t, found);
    can_move = (t, found, λ expected q. absurd (cc (q)), open-transition_legal t.state undone);
    unseen = λ key q. absurd (cc (q));
  }

  Admissible-Granted :
      Admissible a.run_state (closeout_request a.run_state p request_id time) none → Granted a p
  unfolding closeout_request
  Admissible-Granted v = (v.declared, v.granted)

  -- The validator accepts the request of a planned close-out exactly when the actor is declared
  -- and the policy grants it the change.
  pub closeout-validate_iff :
      plan_delegated_task_closeout a ≡ some p
      → (validate a.run_state (closeout_request a.run_state p request_id time) none
          ≡ ValidationResult.ok)
        ↔ Granted a p
  closeout-validate_iff planned =
      let (to, from) =
        validate_iff a.run_state (closeout_request a.run_state p request_id time) none in
      (λ h. Admissible-Granted (to h), λ g. from (closeout-Admissible (plan-Open a p planned) g))

  -- Under the canonical policy the validator refuses every close-out that is planned for the
  -- planner.
  pub planner_closeout_refused :
      a.run_state.policy ≡ canonical_authority_policy
      → a.actor ≡ ActorRef.role "planner"
      → plan_delegated_task_closeout a ≡ some p
      → validate a.run_state (closeout_request a.run_state p request_id time) none
        ≢ ValidationResult.ok
  unfolding closeout_request
  planner_closeout_refused canonical is_planner planned valid =
      let right =
        canonical_rights a.run_state (closeout_request a.run_state p request_id time) none canonical
          valid in
      let same = (plan-Open a p planned).3 in
      planner-barred a.run_state p.task_id (rw (same ∙ is_planner) at right)
