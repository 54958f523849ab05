-- ===== src/Tools/Audit.antt =====
-- The audit of `final-reconciliation` in api/composite-tools.ts, on the prompt view as the tool reads it.
-- The lists of a view hold objects; a property of another type counts as the source counts it.
use pluto_agent_platform.Common.{
  String, Bool, true, false, ◌||◌, Option, none, some, List, [], ◌∷◌, ◌++◌, ◌==◌, if◌then◌else◌,
}
use pluto_agent_platform.Common.Dict.{has, lookup, insert}
use pluto_agent_platform.Common.Json.{signed_decimal}
use pluto_agent_platform.Protocol.Parse.{Value, Items, arr, num, nil, cons, prop, string}
use pluto_agent_platform.Authority.State.{set_of}

pub record FinalReconciliationArgs : Type 0 where
  pub completed_tasks : List String
  pub cited_messages : List String
  pub cited_artifact_refs : List String
  pub unresolved_issues : List String
  pub summary : String

pub data FailureKind : Type 0 where
  missing_task non_terminal_task missing_message missing_artifact : FailureKind

pub record AuditFailure : Type 0 where
  pub kind : FailureKind
  pub ref : String

-- The status is `pass` where there is no failure.
pub record Audit : Type 0 where
  pub passed : Bool
  pub failures : List AuditFailure

-- `view.tasks ?? []`, and so for the other lists.
abbrev pub items_of : Option Value → Items
items_of (some (arr vs)) = vs
items_of _ = nil

-- `TERMINAL_TASK_STATES.has(state)`.
unfoldable pub is_terminal_name : String → Bool
is_terminal_name s = s == "completed" || s == "failed" || s == "cancelled"

abbrev pub with_task :
    Option String → Option String → List (String × String) → List (String × String)
with_task (some id) (some state) states = insert id state states
with_task _ _ states = states

-- The map `taskById`: a later task of the same id overwrites an earlier one.
unfoldable pub task_states_of : List (String × String) → Items → List (String × String)
unfolding prop string insert
task_states_of states nil = states
task_states_of states (cons v vs) =
    task_states_of (with_task (string (prop "id" v)) (string (prop "state" v)) states) vs

abbrev pub message_id : Option Value → List String
message_id (some (num z)) = signed_decimal z ∷ []
message_id _ = []

unfoldable pub message_ids_of : Items → List String
unfolding prop signed_decimal
message_ids_of nil = []
message_ids_of (cons v vs) = message_id (prop "sequence" v) ++ message_ids_of vs

abbrev pub artifact_id : Option String → List String
artifact_id (some id) = id ∷ []
artifact_id none = []

unfoldable pub artifact_ids_of : Items → List String
unfolding prop string
artifact_ids_of nil = []
artifact_ids_of (cons v vs) = artifact_id (string (prop "id" v)) ++ artifact_ids_of vs

abbrev pub task_failure : Option String → String → List AuditFailure
task_failure none id = record { kind = FailureKind.missing_task; ref = id } ∷ []
task_failure (some state) id =
    if is_terminal_name state
    then []
    else record { kind = FailureKind.non_terminal_task; ref = id } ∷ []

unfoldable pub task_failures : List (String × String) → List String → List AuditFailure
unfolding is_terminal_name lookup
task_failures states [] = []
task_failures states (id ∷ ids) = task_failure (lookup id states) id ++ task_failures states ids

-- The references that are not among those that are there.
unfoldable pub missing_refs : FailureKind → List String → List String → List AuditFailure
missing_refs kind present [] = []
missing_refs kind present (ref ∷ refs) =
    (if has present ref then [] else record { kind = kind; ref = ref } ∷ [])
    ++ missing_refs kind present refs

abbrev pub no_failures : List AuditFailure → Bool
no_failures [] = true
no_failures (f ∷ fs) = false

-- `validateFinalReconciliation`.
unfoldable pub audit_failures : FinalReconciliationArgs → Value → List AuditFailure
unfolding prop task_failures task_states_of missing_refs message_ids_of artifact_ids_of set_of
audit_failures args view =
    task_failures (task_states_of [] (items_of (prop "tasks" view)))
      (set_of [] args.completed_tasks)
    ++ missing_refs FailureKind.missing_message (message_ids_of (items_of (prop "mailbox" view)))
        (set_of [] args.cited_messages)
    ++ missing_refs FailureKind.missing_artifact
        (artifact_ids_of (items_of (prop "artifacts" view))) (set_of [] args.cited_artifact_refs)

unfoldable pub validate_final_reconciliation : FinalReconciliationArgs → Value → Audit
unfolding audit_failures
validate_final_reconciliation args view =
    let failures = audit_failures args view in
    record { passed = no_failures failures; failures = failures }
