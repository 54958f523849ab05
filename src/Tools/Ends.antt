-- ===== src/Tools/Ends.antt =====
-- The tools of tools/pluto-tool-handlers.ts and api/composite-tools.ts, and the status of the run.
use pluto_agent_platform.Common.{
  ◌≡◌, none, some, refl, true, false, inl, inr, Bool-cases, String, Option, ◌≢◌, Bool, ap, ◌⊎◌,
}
use pluto_agent_platform.Protocol.Parse.{nil, parse_complete, Value, Items}
use pluto_agent_platform.Protocol.Actor.{ActorRef}
use pluto_agent_platform.Tools.World.{World, Deps, PlutoToolSession}
use pluto_agent_platform.Tools.Request.{composite, LocalApiRoute}
use pluto_agent_platform.Tools.Composite.{
  final_reconciliation, CompositeToolName, final_summary, parse_final_reconciliation,
}
use pluto_agent_platform.Tools.Names.{PlutoToolName, complete_run, EventKind}
use pluto_agent_platform.Tools.Handlers.{handlers, answered, completing, submit_body}
use pluto_agent_platform.Tools.Audit.{FinalReconciliationArgs, Audit, validate_final_reconciliation}
use pluto_agent_platform.Protocol.Event.{RunEvent, CompleteRunPayload}
use pluto_agent_platform.Protocol.Request.{RequestBody}
use pluto_agent_platform.Tools.Run.{
  complete_args, run_composite_tool, reconcile, recorded, run_final_reconciliation,
  reconciliation_steps,
}
use pluto_agent_platform.Tools.Reconciled.{
  EndsAs, status_of_run, audited_status, submit_body-status, Reconciled, submit_body-EndsAs,
}
use pluto_agent_platform.Tools.Keeps.{handlers-keeps}
use pluto_agent_platform.Kernel.Reducer.{status_of_completion}
use pluto_agent_platform.Tools.Served.{run_composite_tool-keeps, stepping-keeps}

module _ (d : Deps) where
  pub handler-status :
      (name : PlutoToolName) (s : PlutoToolSession) (raw : Value) (w : World)
      → name ≢ complete_run
      → status_of_run (handlers d name s raw w).1 ≡ status_of_run w
  handler-status name s raw w other =
      handlers-keeps d (λ k. k.state.status ≡ status_of_run w) ⊥
        (λ actor body v. submit_body-status d actor body v (status_of_run w)) name s raw w
        (inl other) refl

  pub composite-status :
      (name : CompositeToolName) (s : PlutoToolSession) (raw : Value) (w : World)
      → name ≢ final_reconciliation
      → status_of_run (run_composite_tool d.schema_summary (handlers d) name s raw w).1
        ≡ status_of_run w
  composite-status name s raw w other =
      run_composite_tool-keeps d (λ k. k.state.status ≡ status_of_run w) ⊥
        (λ actor body v. submit_body-status d actor body v (status_of_run w)) name s raw w
        (inl other) refl

  answered-world :
      (name : String) (kind : EventKind) (x : Option RunEvent × World)
      → (answered d name kind x).1 ≡ x.1
  answered-world name kind (none, w) = refl
  answered-world name kind (some event, w) = refl

  -- Only the lead's session completes a run.
  pub complete_run-follower :
      (s : PlutoToolSession) (raw : Value) (w : World)
      → s.is_lead ≡ false
      → (handlers d complete_run s raw w).1 ≡ w
  unfolding handlers
  complete_run-follower s raw w h = rw h (go (parse_complete raw))
    where
      go : (o : Option RequestBody) → (completing d false o raw w).1 ≡ w
      go none = refl
      go (some body) = refl

  complete_run-EndsAs :
      (s : PlutoToolSession) (raw : Value) (w : World) (p : CompleteRunPayload)
      → parse_complete raw ≡ some (RequestBody.complete_run p)
      → EndsAs d
          (status_of_run w)
          (status_of_completion p.status)
          (status_of_run (handlers d complete_run s raw w).1)
  unfolding handlers
  complete_run-EndsAs s raw w p parsed = rw parsed (go s.is_lead)
    where
      go :
          (lead : Bool)
          → EndsAs d
              (status_of_run w)
              (status_of_completion p.status)
              (status_of_run (completing d lead (some (RequestBody.complete_run p)) raw w).1)
      go false = inl refl
      go true =
          rw
            (answered-world "complete_run" EventKind.run_completed
              (submit_body d ActorRef.manager (RequestBody.complete_run p) w))
            (submit_body-EndsAs d ActorRef.manager p w)

  completion_of :
      (args : FinalReconciliationArgs) (audit : Audit)
      → parse_complete (complete_args d.schema_summary (handlers d) args audit)
        ≡ some (
            RequestBody.complete_run
              (record { status = audited_status audit; summary = some (final_summary args audit) }))
  unfolding parse_complete
  completion_of args audit = elim (Bool-cases audit.passed) [
    | inl passes ↦ rw passes refl
    | inr fails ↦ rw fails refl
  ]

  reconcile-EndsAs :
      (args : FinalReconciliationArgs) (audit : Audit) (s : PlutoToolSession) (w : World)
      → EndsAs d
          (status_of_run w)
          (status_of_completion (audited_status audit))
          (status_of_run (reconcile d.schema_summary (handlers d) args audit s w).1)
  reconcile-EndsAs args audit s w =
      stepping-keeps
        (λ k.
          EndsAs d (status_of_run w) (status_of_completion (audited_status audit)) k.state.status)
        "final-reconciliation" "pluto_complete_run" nil
        (handlers d complete_run s (complete_args d.schema_summary (handlers d) args audit) w)
        (λ steps w'. recorded d.schema_summary (handlers d) args audit s.run_dir steps w')
        (complete_run-EndsAs s (complete_args d.schema_summary (handlers d) args audit) w _
          (completion_of args audit))
        λ steps w' q. kept s.run_dir steps w' q
    where
      kept :
          (dir : Option String) (steps : Items) (w' : World)
          → EndsAs d
              (status_of_run w)
              (status_of_completion (audited_status audit))
              (status_of_run w')
          → EndsAs d
              (status_of_run w)
              (status_of_completion (audited_status audit))
              (status_of_run (recorded d.schema_summary (handlers d) args audit dir steps w').1)
      kept none steps w' q = q
      kept (some dir) steps w' q = q

  reconcile-follower :
      (args : FinalReconciliationArgs) (audit : Audit) (s : PlutoToolSession) (w : World)
      → s.is_lead ≡ false
      → status_of_run (reconcile d.schema_summary (handlers d) args audit s w).1 ≡ status_of_run w
  reconcile-follower args audit s w follower =
      stepping-keeps (λ k. k.state.status ≡ status_of_run w) "final-reconciliation"
        "pluto_complete_run" nil
        (handlers d complete_run s (complete_args d.schema_summary (handlers d) args audit) w)
        (λ steps w'. recorded d.schema_summary (handlers d) args audit s.run_dir steps w')
        (ap status_of_run (complete_run-follower s _ w follower))
        λ steps w' q. kept s.run_dir steps w' q
    where
      kept :
          (dir : Option String) (steps : Items) (w' : World)
          → status_of_run w' ≡ status_of_run w
          → status_of_run (recorded d.schema_summary (handlers d) args audit dir steps w').1
            ≡ status_of_run w
      kept none steps w' q = q
      kept (some dir) steps w' q = q

  -- A call of `final-reconciliation` ends the run by its audit, or leaves the status.
  pub final_reconciliation-ends :
      (r : LocalApiRoute) (s : PlutoToolSession) (w : World)
      → r.tool_name ≡ composite final_reconciliation
      → let after =
          (run_composite_tool d.schema_summary (handlers d) final_reconciliation s r.args w).1 in
        (status_of_run after ≡ status_of_run w) ⊎ Reconciled d r s w after
  unfolding run_composite_tool run_final_reconciliation handlers
  final_reconciliation-ends r s w named =
      go (parse_final_reconciliation r.args) refl (Bool-cases s.is_lead)
    where
      go :
          (o : Option FinalReconciliationArgs)
          → parse_final_reconciliation r.args ≡ o
          → (s.is_lead ≡ true) ⊎ (s.is_lead ≡ false)
          → let after = (reconciliation_steps d.schema_summary (handlers d) o s r.args w).1 in
            (status_of_run after ≡ status_of_run w) ⊎ Reconciled d r s w after
      go none q lead = inl refl
      go (some args) q (inr follower) = inl (
          reconcile-follower args
            (validate_final_reconciliation args (d.prompt_view w.kernel s.current_actor)) s w
            follower)
      go (some args) q (inl lead) =
          elim (reconcile-EndsAs args
            (validate_final_reconciliation args (d.prompt_view w.kernel s.current_actor)) s w) [
              | inl same ↦ inl same
              | inr ended ↦ inr (record {
                by_tool = named;
                by_lead = lead;
                args = args;
                parsed = q;
                ended = ended;
              })
            ]
