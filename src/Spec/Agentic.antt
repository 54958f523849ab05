-- ===== src/Spec/Agentic.antt =====
-- `validateAgenticOrchestration`: it returns exactly where an agentic run has its lead, its manager, its
-- task and its playbook.
use pluto_agent_platform.Common.{
  String, Bool, Option, none, some, List, ◌≡◌, true, false, not, eq_iff, refl, arith, ap,
}
use pluto_agent_platform.Common.Dict.{has, lookup}
use pluto_agent_platform.Spec.Authored.{
  AuthoredActorRef, AuthoredSpec, agentic, OrchestrationMode, deterministic, Segment, ok,
}
use pluto_agent_platform.Spec.Compile.{
  require, agentic_checks, validate_agentic_orchestration, is_lead_role, is_manager_ref, blank,
  checks_of_mode,
}
use pluto_agent_platform.Spec.WellFormed.{IsAgentic, bind-ok}

require-ok :
    (b : Bool) (m : String) (path : List Segment) (u : Unit {0})
    → require b m path ≡ ok u
    → b ≡ true
require-ok true m path u h = refl
require-ok false m path u h = absurd (cc (h))

not-true : (b : Bool) → not b ≡ true → b ≡ false
not-true b h = ground arith

lead_role :
    (o : Option AuthoredActorRef) → is_lead_role o ≡ true → o ≡ some (AuthoredActorRef.role "lead")
lead_role none h = absurd (cc (h))
lead_role (some AuthoredActorRef.manager) h = absurd (cc (h))
lead_role (some AuthoredActorRef.system) h = absurd (cc (h))
lead_role (some (AuthoredActorRef.role r)) h =
    ap (λ s. some (AuthoredActorRef.role s)) ((eq_iff r "lead").0 h)

manager_ref :
    (o : Option AuthoredActorRef) → is_manager_ref o ≡ true → o ≡ some AuthoredActorRef.manager
manager_ref none h = absurd (cc (h))
manager_ref (some AuthoredActorRef.manager) h = refl
manager_ref (some AuthoredActorRef.system) h = absurd (cc (h))
manager_ref (some (AuthoredActorRef.role r)) h = absurd (cc (h))

agentic_checks-ok : (s : AuthoredSpec) (u : Unit {0}) → agentic_checks s ≡ ok u → IsAgentic s
unfolding agentic_checks
agentic_checks-ok s u h =
    let (_, q1, h1) = bind-ok (require (has s.declared_actors "lead") _ _) _ u h in
    let (_, q2, h2) = bind-ok (require (is_lead_role (lookup "lead" s.actors)) _ _) _ u h1 in
    let (_, q3, h3) = bind-ok (require (has s.declared_actors "manager") _ _) _ u h2 in
    let (_, q4, h4) = bind-ok (require (is_manager_ref (lookup "manager" s.actors)) _ _) _ u h3 in
    let (_, q5, h5) = bind-ok (require (not (blank s.user_task)) _ _) _ u h4 in
    let (_, q6, h6) = bind-ok (require (not (blank s.playbook_ref)) _ _) _ u h5 in
    record {
      lead_declared = require-ok _ _ _ _ q1;
      lead = lead_role _ (require-ok _ _ _ _ q2);
      manager_declared = require-ok _ _ _ _ q3;
      manager = manager_ref _ (require-ok _ _ _ _ q4);
      task = not-true _ (require-ok _ _ _ _ q5);
      playbook = not-true _ (require-ok _ _ _ _ q6);
      markdown = require-ok _ _ _ _ h6;
    }

IsAgentic-checks : (s : AuthoredSpec) → IsAgentic s → agentic_checks s ≡ ok tt
unfolding agentic_checks
IsAgentic-checks s a =
    rw (a.lead_declared, a.lead, a.manager_declared, a.manager, a.task, a.playbook, a.markdown)

pub validate_agentic_orchestration-ok :
    (s : AuthoredSpec) (u : Unit {0})
    → validate_agentic_orchestration s ≡ ok u
    → s.mode ≡ some agentic
    → IsAgentic s
unfolding validate_agentic_orchestration
validate_agentic_orchestration-ok s u h q = agentic_checks-ok s u (rw q at h)

pub validate_agentic_orchestration_valid :
    (s : AuthoredSpec)
    → (s.mode ≡ some agentic → IsAgentic s)
    → validate_agentic_orchestration s ≡ ok tt
unfolding validate_agentic_orchestration
validate_agentic_orchestration_valid s h = go s.mode refl
  where
    go : (m : Option OrchestrationMode) → s.mode ≡ m → checks_of_mode m s ≡ ok tt
    go none q = refl
    go (some deterministic) q = refl
    go (some agentic) q = IsAgentic-checks s (h q)
