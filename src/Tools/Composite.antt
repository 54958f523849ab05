-- ===== src/Tools/Composite.antt =====
-- api/composite-tools.ts: a composite tool calls the handlers that it is given, one after the other, and
-- stops at the first that fails.
use pluto_agent_platform.Common.{
  String, Bool, true, false, not, Option, none, some, List, [], ◌∷◌, ◌==◌, all, if◌then◌else◌,
}
use pluto_agent_platform.Common.Text.{◌<>◌}
use pluto_agent_platform.Protocol.Actor.{ActorRef}
use pluto_agent_platform.Protocol.Parse.{
  Value, Fields, Items, obj, arr, str, bool, end, field, nil, cons, ◌>>=◌, prop, string, satisfying,
  string_array, enum,
}
use pluto_agent_platform.Tools.Values.{text_items, stringify}
use pluto_agent_platform.Tools.World.{PlutoToolResult, ok_json}
use pluto_agent_platform.Tools.Handlers.{strict}
use pluto_agent_platform.Tools.Audit.{FinalReconciliationArgs, Audit, AuditFailure, FailureKind}

pub data CompositeToolName : Type 0 where
  worker_complete evaluator_verdict final_reconciliation : CompositeToolName

abbrev pub lead_actor : ActorRef
lead_actor = ActorRef.role "lead"

pub record WorkerCompleteArgs : Type 0 where
  pub task_id : String
  pub summary : String
  pub artifacts : List String

pub data Verdict : Type 0 where
  pass needs_revision fail : Verdict

pub record EvaluatorVerdictArgs : Type 0 where
  pub task_id : String
  pub verdict : Verdict
  pub summary : String

abbrev nonempty : String → Bool
nonempty s = not (s == "")

-- `z.array(z.string().min(1))`.
abbrev pub nonempty_texts : Option Value → Option (List String)
nonempty_texts v = string_array v >>= λ ss. if all nonempty ss then some ss else none

-- The same with `.default([])`, which stands for undefined.
abbrev texts_or_none : Option Value → Option (List String)
texts_or_none none = some []
texts_or_none (some Value.other) = some []
texts_or_none v = nonempty_texts v

-- The same with `.min(1)`.
abbrev some_texts : Option Value → Option (List String)
some_texts v = nonempty_texts v >>= λ ss. elim ss [ [] ↦ none | s ∷ rest ↦ some (s ∷ rest) ]

abbrev strict_object : List String → Value → Option (Unit {0})
strict_object ks v = if strict ks v then some tt else none

unfoldable pub parse_worker_complete : Value → Option WorkerCompleteArgs
unfolding prop string string_array
parse_worker_complete v = do
  _ ← strict_object ("taskId" ∷ "summary" ∷ "artifacts" ∷ []) v
  id ← satisfying nonempty (string (prop "taskId" v))
  summary ← satisfying nonempty (string (prop "summary" v))
  artifacts ← texts_or_none (prop "artifacts" v)
  some (record { task_id = id; summary = summary; artifacts = artifacts })

abbrev verdicts : List (String × Verdict)
verdicts = ("pass", pass) ∷ ("needs-revision", needs_revision) ∷ ("fail", fail) ∷ []

unfoldable pub parse_evaluator_verdict : Value → Option EvaluatorVerdictArgs
unfolding prop string
parse_evaluator_verdict v = do
  _ ← strict_object ("taskId" ∷ "verdict" ∷ "summary" ∷ []) v
  id ← satisfying nonempty (string (prop "taskId" v))
  verdict ← enum verdicts (prop "verdict" v)
  summary ← satisfying nonempty (string (prop "summary" v))
  some (record { task_id = id; verdict = verdict; summary = summary })

unfoldable pub parse_final_reconciliation : Value → Option FinalReconciliationArgs
unfolding prop string string_array
parse_final_reconciliation v = do
  _ ←
      strict_object
        ("completedTasks" ∷ "citedMessages" ∷ "citedArtifactRefs" ∷ "unresolvedIssues" ∷ "summary"
          ∷ [])
        v
  tasks ← some_texts (prop "completedTasks" v)
  messages ← some_texts (prop "citedMessages" v)
  artifacts ← texts_or_none (prop "citedArtifactRefs" v)
  issues ← texts_or_none (prop "unresolvedIssues" v)
  summary ← satisfying nonempty (string (prop "summary" v))
  some (record {
    completed_tasks = tasks;
    cited_messages = messages;
    cited_artifact_refs = artifacts;
    unresolved_issues = issues;
    summary = summary;
  })

-- The result of a composite tool, or an error that it throws.
pub data Reply : Type 0 where
  replied : PlutoToolResult → Reply
  threw : String → Reply

-- `jsonFromToolResult`. A plain text is that of a transcript, which no composite tool reads.
abbrev pub json_from : PlutoToolResult → Option Value
json_from (ok_json v) = some v
json_from _ = none

-- `response.accepted === true`.
abbrev pub is_true : Option Value → Bool
is_true (some (bool b)) = b
is_true _ = false

unfoldable pub is_accepted : Value → Bool
unfolding prop
is_accepted v = is_true (prop "accepted" v)

-- `{ ...fields, ...more }`: a later field overwrites an earlier one and keeps its place.
abbrev put_field : String → Value → Fields → Fields
put_field k v end = field k v end
put_field k v (field j w fs) =
    let later = put_field k v fs in if j == k then field k v fs else field j w later

unfoldable pub spread : Fields → Fields → Fields
spread fs end = fs
spread fs (field k v more) = spread (put_field k v fs) more

abbrev pub fields_of : Value → Fields
fields_of (obj fs) = fs
fields_of _ = end

-- A `PrimitiveStep`.
abbrev pub step : String → Value → Value
step tool response = obj (field "tool" (str tool) (field "response" response end))

abbrev pub append_item : Items → Value → Items
append_item nil v = cons v nil
append_item (cons w vs) v = cons w (append_item vs v)

abbrev pub append_fields : Fields → Fields → Fields
append_fields end more = more
append_fields (field k v fs) more = field k v (append_fields fs more)

abbrev pub steps_field : Items → Fields
steps_field steps = field "steps" (arr steps) end

unfoldable pub rejection_result : String → String → Value → Items → PlutoToolResult
unfolding spread
rejection_result composite failed_step response steps = ok_json (
    obj (
      spread
        (spread
          (field "accepted" (bool false)
            (field "composite" (str composite) (field "failedStep" (str failed_step) end)))
          (fields_of response))
        (steps_field steps)))

abbrev pub accepted_reply : String → Fields → PlutoToolResult
accepted_reply composite rest =
    ok_json (obj (field "accepted" (bool true) (field "composite" (str composite) rest)))

abbrev pub verdict_name : Verdict → String
verdict_name pass = "pass"
verdict_name needs_revision = "needs-revision"
verdict_name fail = "fail"

-- `mailboxKindForVerdict`.
abbrev pub mailbox_kind_for : Verdict → String
mailbox_kind_for pass = "final"
mailbox_kind_for _ = "task"

abbrev pub worker_body : WorkerCompleteArgs → String
worker_body a = stringify (
    obj (
      field "summary" (str a.summary)
        (field "taskId" (str a.task_id) (field "artifacts" (arr (text_items a.artifacts)) end))))

abbrev pub verdict_body : EvaluatorVerdictArgs → String
verdict_body a = stringify (
    obj (
      field "summary" (str a.summary)
        (field "taskId" (str a.task_id) (field "verdict" (str (verdict_name a.verdict)) end))))

-- The task of a prompt view with an id, by its state.
unfoldable pub find_task : String → Items → Option Value
unfolding prop string
find_task id nil = none
find_task id (cons v vs) =
    let later = find_task id vs in
    elim (string (prop "id" v)) [
      | none ↦ later
      | some found ↦ if found == id then some v else later
    ]

abbrev pub state_of : Option Value → Option String
state_of none = none
state_of (some v) = string (prop "state" v)

abbrev failure_kind_name : FailureKind → String
failure_kind_name FailureKind.missing_task = "missing_task"
failure_kind_name FailureKind.non_terminal_task = "non_terminal_task"
failure_kind_name FailureKind.missing_message = "missing_message"
failure_kind_name FailureKind.missing_artifact = "missing_artifact"

abbrev failure_items : List AuditFailure → Items
failure_items [] = nil
failure_items (f ∷ fs) =
    cons (obj (field "kind" (str (failure_kind_name f.kind)) (field "ref" (str f.ref) end)))
      (failure_items fs)

abbrev audit_value : Audit → Value
audit_value a = obj (
    field "status" (str (if a.passed then "pass" else "failed_audit"))
      (field "failures" (arr (failure_items a.failures)) end))

-- `buildFinalReconciliationEnvelope` and `buildFinalReconciliationEvidence`.
unfoldable pub envelope_value : FinalReconciliationArgs → Audit → Value
envelope_value a audit = obj (
    field "completedTasks" (arr (text_items a.completed_tasks)) (
      field "citedMessages" (arr (text_items a.cited_messages)) (
        field "citedArtifactRefs" (arr (text_items a.cited_artifact_refs)) (
          field "unresolvedIssues" (arr (text_items a.unresolved_issues))
            (field "summary" (str a.summary) (field "audit" (audit_value audit) end))))))

unfoldable pub evidence_value : FinalReconciliationArgs → Audit → Value
evidence_value a audit = obj (
    field "summary" (str a.summary) (
      field "completedTaskIds" (arr (text_items a.completed_tasks)) (
        field "citedMessageIds" (arr (text_items a.cited_messages)) (
          field "citedArtifactRefs" (arr (text_items a.cited_artifact_refs)) (
            field "unresolvedIssues" (arr (text_items a.unresolved_issues))
              (field "audit" (audit_value audit) end))))))

abbrev pub final_summary : FinalReconciliationArgs → Audit → String
final_summary a audit =
    let text = stringify (envelope_value a audit) in
    if audit.passed then text else "FAILED_AUDIT: " <> text

abbrev pub run_status : Audit → String
run_status audit = if audit.passed then "succeeded" else "failed"
