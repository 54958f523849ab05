-- ===== src/Tools/Audited.antt =====
-- What the audit of `final-reconciliation` in api/composite-tools.ts lets pass.
use mathlib.Core.Bool.{and-eq-true_iff}
use pluto_agent_platform.Common.{none, some, Bool-cases, ◌==◌, inl, subst, inr}
use pluto_agent_platform.Common.{
  ◌≡◌, refl, true, List, [], ◌∷◌, ◌++◌, ◌&&◌, ◌||◌, String, arith, eq_iff, some, Option, ◌↔◌,
}
use pluto_agent_platform.Authority.State.{set_of}
use pluto_agent_platform.Tools.Audit.{
  AuditFailure, FailureKind, no_failures, missing_refs, task_failure, task_failures,
  FinalReconciliationArgs, validate_final_reconciliation, audit_failures, is_terminal_name,
  task_states_of, items_of, message_ids_of, artifact_ids_of,
}
use pluto_agent_platform.Common.Dict.{has, add, has-add, lookup}
use pluto_agent_platform.Protocol.Parse.{Value, prop, Items}
use pluto_agent_platform.Tools.Claims.{
  LastState, message_ids_of-Among, Terminal, artifact_ids_of-Among, Among, task_states_of-LastState,
  IsMessage, is_terminal_name-Terminal, IsArtifact,
}

has-set_of : (s xs : List String) (x : String) → has (set_of s xs) x ≡ (has s x || has xs x)
unfolding set_of
has-set_of s [] x = ground arith
has-set_of s (y ∷ ys) x = ground (arith, has-set_of (add s y) ys x, has-add s y x, eq_iff y x)

no_failures-append :
    (fs gs : List AuditFailure) → no_failures (fs ++ gs) ≡ (no_failures fs && no_failures gs)
no_failures-append [] gs = refl
no_failures-append (f ∷ fs) gs = refl

no_failures-parts :
    (fs gs hs : List AuditFailure)
    → (no_failures (fs ++ gs ++ hs) ≡ true)
      ↔ ((no_failures fs ≡ true) × (no_failures gs ≡ true) × (no_failures hs ≡ true))
no_failures-parts fs gs hs = (
  λ h. ground (arith, no_failures-append (fs ++ gs) hs, no_failures-append fs gs, h),
  λ h. rw (no_failures-append (fs ++ gs) hs, no_failures-append fs gs, h.0, h.1) h.2,
)

module _ (kind : FailureKind) (present : List String) where
  none_missing :
      (refs : List String) (ref : String)
      → no_failures (missing_refs kind present refs) ≡ true
      → has refs ref ≡ true
      → has present ref ≡ true
  unfolding missing_refs
  none_missing [] ref h m = absurd (cc (m))
  none_missing (r ∷ refs) ref h m = ground (arith, none_missing refs ref, eq_iff r ref)

  all_present :
      (refs : List String)
      → ((ref : String) → has refs ref ≡ true → has present ref ≡ true)
      → no_failures (missing_refs kind present refs) ≡ true
  unfolding missing_refs
  all_present [] h = refl
  all_present (r ∷ refs) h =
      rw (h r (ground (arith, eq_iff r r))) (all_present refs λ ref m. h ref (ground arith))

module _ (states : List (String × String)) where
  abbrev pub Closed : String → Type 0
  Closed id = (state : String) × (lookup id states ≡ some state) × (is_terminal_name state ≡ true)

  task_passes : (id : String) → no_failures (task_failure (lookup id states) id) ≡ true → Closed id
  task_passes id h = go (lookup id states) refl h
    where
      go :
          (o : Option String)
          → lookup id states ≡ o
          → no_failures (task_failure o id) ≡ true
          → Closed id
      go none q h = absurd (cc (h))
      go (some state) q h = (state, q, ground (arith, h))

  Closed-passes :
      (id : String) → Closed id → no_failures (task_failure (lookup id states) id) ≡ true
  Closed-passes id (state, found, closed) = rw (found, closed) refl

  none_open :
      (ids : List String) (id : String)
      → no_failures (task_failures states ids) ≡ true
      → has ids id ≡ true
      → Closed id
  unfolding task_failures
  none_open [] id h m = absurd (cc (m))
  none_open (i ∷ ids) id h m =
      let (first, rest) = (and-eq-true_iff _ _).0 (
        rw (no_failures-append (task_failure (lookup i states) i) (task_failures states ids)) at
          h) in
      elim (Bool-cases (i == id)) [
        | inl same ↦ subst Closed ((eq_iff i id).0 same) (task_passes i first)
        | inr differs ↦ none_open ids id rest (rw differs at m)
      ]

  all-Closed :
      (ids : List String)
      → ((id : String) → has ids id ≡ true → Closed id)
      → no_failures (task_failures states ids) ≡ true
  unfolding task_failures
  all-Closed [] h = refl
  all-Closed (i ∷ ids) h =
      rw
        (
          no_failures-append (task_failure (lookup i states) i) (task_failures states ids),
          Closed-passes i (h i (ground (arith, eq_iff i i))),
        )
        (all-Closed ids λ id m. h id (ground arith))

-- The claims of a final reconciliation hold in a view: the last item of each task that has an id and a
-- state has a terminal one, and the messages and artifacts are among the items.
pub record Holds (args : FinalReconciliationArgs) (view : Value) : Type 0 where
  pub tasks :
      (id : String)
      → has args.completed_tasks id ≡ true
      → (state : String) × LastState id state (items_of (prop "tasks" view)) × Terminal state
  pub messages :
      (ref : String)
      → has args.cited_messages ref ≡ true
      → Among (IsMessage ref) (items_of (prop "mailbox" view))
  pub artifacts :
      (ref : String)
      → has args.cited_artifact_refs ref ≡ true
      → Among (IsArtifact ref) (items_of (prop "artifacts" view))

Closed-LastState :
    (id : String) (vs : Items)
    → Closed (task_states_of [] vs) id
    → (state : String) × LastState id state vs × Terminal state
Closed-LastState id vs (state, found, closed) = (
  state,
  (task_states_of-LastState id state vs).0 found,
  (is_terminal_name-Terminal state).0 closed,
)

LastState-Closed :
    (id : String) (vs : Items)
    → (state : String) × LastState id state vs × Terminal state
    → Closed (task_states_of [] vs) id
LastState-Closed id vs (state, found, closed) = (
  state,
  (task_states_of-LastState id state vs).1 found,
  (is_terminal_name-Terminal state).1 closed,
)

-- The audit passes exactly where every claim holds in the view: of the items of each completed task
-- that have an id and a state, the last has the state completed, failed or cancelled; each cited message
-- is the decimals of the sequence of a message of the view, and each cited artifact the id of an
-- artifact of it. How often and in which order something is named plays no part.
pub audit_iff :
    (args : FinalReconciliationArgs) (view : Value)
    → ((validate_final_reconciliation args view).passed ≡ true) ↔ Holds args view
unfolding validate_final_reconciliation audit_failures
audit_iff args view = (to, from)
  where
    states : List (String × String)
    states = task_states_of [] (items_of (prop "tasks" view))

    messages : List String
    messages = message_ids_of (items_of (prop "mailbox" view))

    artifacts : List String
    artifacts = artifact_ids_of (items_of (prop "artifacts" view))

    tasks_failing : List AuditFailure
    tasks_failing = task_failures states (set_of [] args.completed_tasks)

    messages_failing : List AuditFailure
    messages_failing =
        missing_refs FailureKind.missing_message messages (set_of [] args.cited_messages)

    artifacts_failing : List AuditFailure
    artifacts_failing =
        missing_refs FailureKind.missing_artifact artifacts (set_of [] args.cited_artifact_refs)

    to : (validate_final_reconciliation args view).passed ≡ true → Holds args view
    to h =
        let (first, second, third) =
          (no_failures-parts tasks_failing messages_failing artifacts_failing).0 h in
        record {
          tasks = λ id m. Closed-LastState id (items_of (prop "tasks" view)) (
              none_open states (set_of [] args.completed_tasks) id first
                (rw (has-set_of [] args.completed_tasks id) m));
          messages = λ ref m. (message_ids_of-Among ref (items_of (prop "mailbox" view))).0 (
              none_missing FailureKind.missing_message messages (set_of [] args.cited_messages) ref
                second (rw (has-set_of [] args.cited_messages ref) m));
          artifacts = λ ref m. (artifact_ids_of-Among ref (items_of (prop "artifacts" view))).0 (
              none_missing FailureKind.missing_artifact artifacts
                (set_of [] args.cited_artifact_refs) ref third
                (rw (has-set_of [] args.cited_artifact_refs ref) m));
        }

    from : Holds args view → (validate_final_reconciliation args view).passed ≡ true
    from holds = (no_failures-parts tasks_failing messages_failing artifacts_failing).1 (
      all-Closed states (set_of [] args.completed_tasks) (λ id m.
          LastState-Closed id (items_of (prop "tasks" view))
            (holds.tasks id (rw (has-set_of [] args.completed_tasks id) at m))),
      all_present FailureKind.missing_message messages (set_of [] args.cited_messages) (λ ref m.
          (message_ids_of-Among ref (items_of (prop "mailbox" view))).1
            (holds.messages ref (rw (has-set_of [] args.cited_messages ref) at m))),
      all_present FailureKind.missing_artifact artifacts (set_of [] args.cited_artifact_refs)
          (λ ref m.
            (artifact_ids_of-Among ref (items_of (prop "artifacts" view))).1
              (holds.artifacts ref (rw (has-set_of [] args.cited_artifact_refs ref) at m))),
    )
