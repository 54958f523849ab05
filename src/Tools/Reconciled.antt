-- ===== src/Tools/Reconciled.antt =====
-- How a run ends over the server: by `final-reconciliation` of api/composite-tools.ts alone.
use pluto_agent_platform.Common.{
  ◌≡◌, none, some, refl, true, inl, inr, if◌then◌else◌, ◌⊎◌, arith, subst, ◌∙◌, ap, Option,
}
use pluto_agent_platform.Tools.Request.{composite, LocalApiRoute}
use pluto_agent_platform.Kernel.Log.{Result, returned, thrown}
use pluto_agent_platform.Tools.Audit.{Audit, FinalReconciliationArgs, validate_final_reconciliation}
use pluto_agent_platform.Tools.World.{Deps, World, PlutoToolSession}
use pluto_agent_platform.Tools.Handlers.{
  build_request, submit_body, no_submit_context, caught, submit_built,
}
use pluto_agent_platform.Protocol.Event.{RunCompletedStatus, CompleteRunPayload, RunEvent}
use pluto_agent_platform.Protocol.Actor.{ActorRef}
use pluto_agent_platform.Authority.State.{RunStatus, RunState}
use pluto_agent_platform.Protocol.Request.{RequestBody, ProtocolRequest, intent_of}
use pluto_agent_platform.Tools.Composite.{final_reconciliation, parse_final_reconciliation}
use pluto_agent_platform.Kernel.Host.{Kernel}
use pluto_agent_platform.Tools.Keeps.{Permitted}
use pluto_agent_platform.Kernel.Reducer.{status_of_completion}
use pluto_agent_platform.Kernel.Submit.{submit}
use pluto_agent_platform.Tools.Status.{submit-status, submit-completion}
use pluto_agent_platform.Tools.Values.{request_value}

abbrev pub status_of_run : World → RunStatus
status_of_run w = w.kernel.state.status

-- The status that an audit gives the run.
abbrev pub audited_status : Audit → RunCompletedStatus
audited_status audit =
    if audit.passed then RunCompletedStatus.succeeded else RunCompletedStatus.failed

-- The lead's final reconciliation has ended the run, with the status of its audit.
pub record Reconciled (d : Deps) (r : LocalApiRoute) (s : PlutoToolSession) (before after : World)
    : Type 0 where
  pub by_tool : r.tool_name ≡ composite final_reconciliation
  pub by_lead : s.is_lead ≡ true
  pub args : FinalReconciliationArgs
  pub parsed : parse_final_reconciliation r.args ≡ some args
  pub ended :
      status_of_run after
      ≡ status_of_completion (
          audited_status
            (validate_final_reconciliation args (d.prompt_view before.kernel s.current_actor)))

build_request-body :
    (d : Deps) (actor : ActorRef) (body : RequestBody) (k : Kernel) (request : ProtocolRequest)
    → (build_request d actor body k).0 ≡ some request
    → request.body ≡ body
unfolding build_request
build_request-body d actor body k request q = ground arith

module _ (d : Deps) where
  Built-status :
      (actor : ActorRef) (body : RequestBody) (w : World) (P : RunStatus → Type 0)
      → ((request : ProtocolRequest) (k : Kernel)
          → request.body ≡ body
          → k.state ≡ w.kernel.state
          → P (submit d.host (request_value request) (no_submit_context d) k).1.state.status)
      → P (status_of_run w)
      → P (status_of_run (submit_body d actor body w).1)
  unfolding submit_body build_request
  Built-status actor body w P submits p =
      built (build_request d actor body w.kernel)
        (λ request q. build_request-body d actor body w.kernel request q) refl
    where
      caught-status :
          (x : Result RunEvent × Kernel) → P x.1.state.status → P (caught d x).1.state.status
      caught-status (returned e, k) q = q
      caught-status (thrown f, k) q = q

      built :
          (x : Option ProtocolRequest × Kernel)
          → ((request : ProtocolRequest) → x.0 ≡ some request → request.body ≡ body)
          → x.1.state ≡ w.kernel.state
          → P (submit_built d x).1.state.status
      built (none, k) is same = rw same p
      built (some request, k) is same =
          caught-status (submit d.host (request_value request) (no_submit_context d) k)
            (submits request k (is request refl) same)

  -- The state of a run that ends by a request, if it ends.
  abbrev pub EndsAs : RunStatus → RunStatus → RunStatus → Type 0
  EndsAs before end after = (after ≡ before) ⊎ (after ≡ end)

  pub submit_body-status :
      (actor : ActorRef) (body : RequestBody) (w : World) (s : RunStatus)
      → Permitted ⊥ (intent_of body)
      → status_of_run w ≡ s
      → status_of_run (submit_body d actor body w).1 ≡ s
  submit_body-status actor body w s (inr none_may) p = absurd none_may
  submit_body-status actor body w s (inl other) p =
      Built-status actor body w (λ after. after ≡ s)
        (λ request k is same.
          submit-status d.host k (no_submit_context d) request (rw is other)
          ∙ (ap (λ state. state.status) same ∙ p))
        p

  pub submit_body-EndsAs :
      (actor : ActorRef) (p : CompleteRunPayload) (w : World)
      → EndsAs
          (status_of_run w)
          (status_of_completion p.status)
          (status_of_run (submit_body d actor (RequestBody.complete_run p) w).1)
  submit_body-EndsAs actor p w =
      Built-status actor (RequestBody.complete_run p) w
        (EndsAs (status_of_run w) (status_of_completion p.status))
        (λ request k is same.
          subst
            (λ (state : RunState).
              EndsAs state.status (status_of_completion p.status)
                (submit d.host (request_value request) (no_submit_context d) k).1.state.status)
            same (submit-completion d.host k (no_submit_context d) request p is))
        (inl refl)
