-- ===== src/Tools/Run.antt =====
-- The three composite tools of api/composite-tools.ts, over the handlers that they are given.
use pluto_agent_platform.Common.{
  String, Bool, true, false, not, ◌&&◌, Option, none, some, if◌then◌else◌,
}
use pluto_agent_platform.Common.Text.{◌<>◌}
use pluto_agent_platform.Protocol.Parse.{Value, Fields, Items, obj, str, end, field, nil, prop}
use pluto_agent_platform.Tools.Values.{actor_value}
use pluto_agent_platform.Tools.Names.{
  PlutoToolName, change_task_state, append_mailbox_message, complete_run, read_state,
}
use pluto_agent_platform.Tools.World.{
  World, PlutoToolSession, PlutoToolResult, ok_json, ok_text, error, bad_args, Handler,
}
use pluto_agent_platform.Tools.Audit.{
  FinalReconciliationArgs, Audit, items_of, is_terminal_name, validate_final_reconciliation,
}
use pluto_agent_platform.Tools.Composite.{
  CompositeToolName, worker_complete, evaluator_verdict, final_reconciliation, lead_actor,
  WorkerCompleteArgs, EvaluatorVerdictArgs, Verdict, pass, parse_worker_complete,
  parse_evaluator_verdict, parse_final_reconciliation, Reply, replied, threw, is_accepted,
  rejection_result, step, steps_field, accepted_reply, verdict_name, mailbox_kind_for, worker_body,
  verdict_body, find_task, state_of, evidence_value, final_summary, run_status, append_item,
  append_fields,
}

-- The answer of a handler: an error ends the composite tool, JSON goes on.
abbrev pub calling : PlutoToolResult × World → (Value → World → Reply × World) → Reply × World
calling (error code message, w) next = (replied (error code message), w)
calling (ok_json v, w) next = next v w
calling (ok_text s, w) next = (threw "Pluto tool result is no JSON object.", w)

abbrev no_view : String
no_view = "Unable to read PromptView for composite tool translation."

-- `readPromptView`, which throws where `read_state` fails.
abbrev pub viewing : PlutoToolResult × World → (Value → World → Reply × World) → Reply × World
viewing (error code message, w) next = (threw no_view, w)
viewing (ok_json v, w) next = next v w
viewing (ok_text s, w) next = (threw no_view, w)

abbrev pub completed_args : String → Value
completed_args id = obj (field "taskId" (str id) (field "to" (str "completed") end))

abbrev pub message_args : String → String → Value
message_args kind body = obj (
    field "toActor" (actor_value lead_actor)
      (field "kind" (str kind) (field "body" (str body) end)))

-- A step of a composite tool, and what follows where its answer is accepted.
abbrev pub stepping :
    String
    → String
    → Items
    → PlutoToolResult × World
    → (Items → World → Reply × World)
    → Reply × World
stepping composite tool before result next = calling result λ v w.
    let steps = append_item before (step tool v) in
    if is_accepted v then next steps w else (replied (rejection_result composite tool v steps), w)

module _ (summary : Value → String) (hs : PlutoToolName → Handler) where
  abbrev pub bad_call : Value → World → Reply × World
  bad_call raw w = (replied (error bad_args (summary raw)), w)

  -- The mailbox message to the lead, which ends `worker-complete` and `evaluator-verdict`.
  abbrev pub reporting :
      String → String → String → Fields → PlutoToolSession → Items → World → Reply × World
  reporting composite kind body rest s steps w =
      stepping composite "pluto_append_mailbox_message" steps
        (hs append_mailbox_message s (message_args kind body) w)
        λ done w'. (replied (accepted_reply composite (append_fields rest (steps_field done))), w')

  abbrev pub closing :
      String → String → PlutoToolSession → World → (Items → World → Reply × World) → Reply × World
  closing composite id s w next =
      stepping composite "pluto_change_task_state" nil
        (hs change_task_state s (completed_args id) w) next

  abbrev pub worker_report : WorkerCompleteArgs → PlutoToolSession → Items → World → Reply × World
  worker_report args s =
      reporting "worker-complete" "completion" (worker_body args)
        (field "taskId" (str args.task_id) end) s

  abbrev pub worker_steps :
      Option WorkerCompleteArgs → PlutoToolSession → Value → World → Reply × World
  worker_steps none s raw w = bad_call raw w
  worker_steps (some args) s raw w =
      closing "worker-complete" args.task_id s w (worker_report args s)

  unfoldable pub run_worker_complete : PlutoToolSession → Value → World → Reply × World
  unfolding parse_worker_complete rejection_result is_accepted
  run_worker_complete s raw w = worker_steps (parse_worker_complete raw) s raw w

  abbrev pub verdict_report :
      EvaluatorVerdictArgs → PlutoToolSession → Items → World → Reply × World
  verdict_report args s =
      reporting "evaluator-verdict" (mailbox_kind_for args.verdict) (verdict_body args)
        (field "taskId" (str args.task_id) (field "verdict" (str (verdict_name args.verdict)) end))
        s

  abbrev pub passes : Verdict → Bool
  passes pass = true
  passes _ = false

  -- Behind the task of the view: a task that is not seen, or has no state, is an error.
  abbrev pub verdict_on :
      EvaluatorVerdictArgs → Option String → PlutoToolSession → World → Reply × World
  verdict_on args none s w = (
    replied (error bad_args ("taskId " <> args.task_id <> " is not visible to the current actor.")),
    w,
  )
  verdict_on args (some state) s w =
      if passes args.verdict && not (is_terminal_name state)
      then closing "evaluator-verdict" args.task_id s w (verdict_report args s)
      else verdict_report args s nil w

  abbrev pub verdict_steps :
      Option EvaluatorVerdictArgs → PlutoToolSession → Value → World → Reply × World
  verdict_steps none s raw w = bad_call raw w
  verdict_steps (some args) s raw w = viewing (hs read_state s (obj end) w) λ view w'.
      verdict_on args (state_of (find_task args.task_id (items_of (prop "tasks" view)))) s w'

  unfoldable pub run_evaluator_verdict : PlutoToolSession → Value → World → Reply × World
  unfolding parse_evaluator_verdict rejection_result is_accepted is_terminal_name find_task prop
  run_evaluator_verdict s raw w = verdict_steps (parse_evaluator_verdict raw) s raw w

  -- `writeFinalReconciliationEvidence`, then the answer.
  abbrev pub recorded :
      FinalReconciliationArgs → Audit → Option String → Items → World → Reply × World
  recorded args audit none steps w =
      (threw "Final reconciliation requires a session runDir to write evidence.", w)
  recorded args audit (some dir) steps w = (
    replied (
        accepted_reply "final-reconciliation" (
          field "runStatus" (str (run_status audit))
            (field "auditSummary" (evidence_value args audit) (steps_field steps)))),
    record w { evidence = some (evidence_value args audit) },
  )

  abbrev pub complete_args : FinalReconciliationArgs → Audit → Value
  complete_args args audit = obj (
      field "status" (str (run_status audit))
        (field "summary" (str (final_summary args audit)) end))

  abbrev pub reconcile : FinalReconciliationArgs → Audit → PlutoToolSession → World → Reply × World
  reconcile args audit s w =
      stepping "final-reconciliation" "pluto_complete_run" nil
        (hs complete_run s (complete_args args audit) w)
        λ steps w'. recorded args audit s.run_dir steps w'

  abbrev pub reconciliation_steps :
      Option FinalReconciliationArgs → PlutoToolSession → Value → World → Reply × World
  reconciliation_steps none s raw w = bad_call raw w
  reconciliation_steps (some args) s raw w =
      viewing (hs read_state s (obj end) w)
        λ view w'. reconcile args (validate_final_reconciliation args view) s w'

  unfoldable pub run_final_reconciliation : PlutoToolSession → Value → World → Reply × World
  unfolding parse_final_reconciliation rejection_result is_accepted validate_final_reconciliation
  run_final_reconciliation s raw w = reconciliation_steps (parse_final_reconciliation raw) s raw w

  unfoldable pub run_composite_tool :
      CompositeToolName → PlutoToolSession → Value → World → Reply × World
  unfolding run_worker_complete run_evaluator_verdict run_final_reconciliation
  run_composite_tool worker_complete s raw w = run_worker_complete s raw w
  run_composite_tool evaluator_verdict s raw w = run_evaluator_verdict s raw w
  run_composite_tool final_reconciliation s raw w = run_final_reconciliation s raw w
