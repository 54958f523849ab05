-- ===== src/Spec/Authored.antt =====
-- The authored spec of core/team-context.ts, as `AuthoredSpecSchema` accepts it, and the errors of
-- core/spec-compiler.ts. An object is the list of its own entries; a field that is absent or null is
-- `none`, and absent initial tasks are no tasks. The script of the fake adapter is left out: the
-- compiler does not read it.
use pluto_agent_platform.Common.{ℕ, String, Option, List}

pub data AuthoredActorRef : Type 0 where
  manager : AuthoredActorRef
  role : String → AuthoredActorRef
  system : AuthoredActorRef

pub data AuthoredActorMatcher : Type 0 where
  manager : AuthoredActorMatcher
  role : String → AuthoredActorMatcher
  system : AuthoredActorMatcher
  role_owns_task : String → AuthoredActorMatcher
  role_bounded_transitions : String → List String → AuthoredActorMatcher

pub record AuthoredInitialTask : Type 0 where
  pub task_id : String
  pub title : String
  pub owner_actor : Option String
  pub depends_on : List String

pub data OrchestrationMode : Type 0 where
  deterministic agentic : OrchestrationMode

pub record AuthoredSpec : Type 0 where
  pub run_id : String
  pub scenario_ref : String
  pub run_profile_ref : String
  pub actors : List (String × AuthoredActorRef)
  pub declared_actors : List String
  pub initial_tasks : List AuthoredInitialTask
  pub policy : Option (List (String × List AuthoredActorMatcher))
  pub mode : Option OrchestrationMode
  pub user_task : Option String
  pub playbook_ref : Option String

-- `SPEC_COMPILE_ERROR_CODE_VALUES`.
pub data SpecCompileErrorCode : Type 0 where
  unknown_actor duplicate_task policy_invalid : SpecCompileErrorCode
  intent_payload_mismatch actor_role_unknown orchestration_invalid : SpecCompileErrorCode

-- A step of a path: a property or an index.
pub data Segment : Type 0 where
  key : String → Segment
  index : ℕ → Segment

pub record SpecCompileError : Type 0 where
  pub code : SpecCompileErrorCode
  pub message : String
  pub path : List Segment

-- What the compiler throws: its own error, or that of a schema.
pub data Failure : Type 0 where
  compile_error : SpecCompileError → Failure
  schema_error : Failure

pub data Result {ℓ} (A : Type ℓ) : Type ℓ where
  ok : A → Result A
  thrown : Failure → Result A

infixl 5 ◌>>=◌
abbrev pub ◌>>=◌ {ℓ κ} : {A : Type ℓ} {B : Type κ} → Result A → (A → Result B) → Result B
ok a >>= f = f a
thrown e >>= f = thrown e

infixl 5 ◌>>◌
abbrev pub ◌>>◌ {ℓ} : {B : Type ℓ} → Result (Unit {0}) → Result B → Result B
m >> k = m >>= λ _. k

-- `fail(code, message, path)`.
abbrev pub fail {ℓ} : {A : Type ℓ} → SpecCompileErrorCode → String → List Segment → Result A
fail code message path =
    thrown (compile_error (record { code = code; message = message; path = path }))
