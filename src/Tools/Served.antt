-- ===== src/Tools/Served.antt =====
-- The composite tools and the server move the kernel as submissions do: what every move keeps holds
-- behind any requests that are served.
use pluto_agent_platform.Common.{
  inl, inr, refl, none, some, true, false, Bool, String, if◌then◌else◌, Option, ◌&&◌, not, ◌≢◌, ◌⊎◌,
}
use pluto_agent_platform.Tools.Names.{
  change_task_state, append_mailbox_message, complete_run, read_state,
}
use pluto_agent_platform.Kernel.Host.{Kernel}
use pluto_agent_platform.Tools.World.{
  PlutoToolResult, World, error, ok_json, Deps, ok_text, PlutoToolSession,
}
use pluto_agent_platform.Tools.Composite.{
  Reply, is_accepted, WorkerCompleteArgs, EvaluatorVerdictArgs, CompositeToolName, worker_body,
  verdict_body, mailbox_kind_for, verdict_name, replied, accepted_reply, append_fields, steps_field,
  parse_worker_complete, state_of, parse_evaluator_verdict, find_task, parse_final_reconciliation,
}
use pluto_agent_platform.Protocol.Parse.{Items, Value, Fields, obj, end, prop}
use pluto_agent_platform.Tools.Run.{
  calling, viewing, stepping, run_composite_tool, reporting, closing, worker_steps, verdict_steps,
  reconciliation_steps, verdict_report, complete_args, recorded, verdict_on, message_args,
  completed_args, worker_report, passes, reconcile, run_worker_complete, run_evaluator_verdict,
  run_final_reconciliation,
}
use pluto_agent_platform.Tools.Composite.{worker_complete, evaluator_verdict, final_reconciliation}
use pluto_agent_platform.Tools.Audit.{
  FinalReconciliationArgs, Audit, validate_final_reconciliation, is_terminal_name, items_of,
}
use pluto_agent_platform.Tools.Handlers.{handlers, submit_body}
use pluto_agent_platform.Tools.Keeps.{handlers-keeps, Permitted}
use pluto_agent_platform.Protocol.Parse.{nil, str, field}
use pluto_agent_platform.Protocol.Actor.{ActorRef}
use pluto_agent_platform.Protocol.Request.{RequestBody, intent_of}

module _ (P : Kernel → Type 0) where
  calling-keeps :
      (x : PlutoToolResult × World) (next : Value → World → Reply × World)
      → P x.1.kernel
      → ((v : Value) (w : World) → P w.kernel → P (next v w).1.kernel)
      → P (calling x next).1.kernel
  calling-keeps (error code message, w) next p go = p
  calling-keeps (ok_json v, w) next p go = go v w p
  calling-keeps (ok_text s, w) next p go = p

  viewing-keeps :
      (x : PlutoToolResult × World) (next : Value → World → Reply × World)
      → P x.1.kernel
      → ((v : Value) (w : World) → P w.kernel → P (next v w).1.kernel)
      → P (viewing x next).1.kernel
  viewing-keeps (error code message, w) next p go = p
  viewing-keeps (ok_json v, w) next p go = go v w p
  viewing-keeps (ok_text s, w) next p go = p

  if-keeps :
      (b : Bool) (x y : Reply × World)
      → P x.1.kernel
      → P y.1.kernel
      → P (if b then x else y).1.kernel
  if-keeps true x y p q = p
  if-keeps false x y p q = q

  pub stepping-keeps :
      (composite tool : String) (before : Items) (x : PlutoToolResult × World)
      (next : Items → World → Reply × World)
      → P x.1.kernel
      → ((steps : Items) (w : World) → P w.kernel → P (next steps w).1.kernel)
      → P (stepping composite tool before x next).1.kernel
  stepping-keeps composite tool before x next p go =
      calling-keeps x _ p λ v w q. if-keeps (is_accepted v) _ _ (go _ w q) q

module _ (d : Deps) (P : Kernel → Type 0) (Completes : Type 0)
    (keep : (actor : ActorRef) (body : RequestBody) (w : World)
      → Permitted Completes (intent_of body)
      → P w.kernel
      → P (submit_body d actor body w).1.kernel) where
  reporting-keeps :
      (composite kind body : String) (rest : Fields) (s : PlutoToolSession) (steps : Items)
      (w : World)
      → P w.kernel
      → P (reporting d.schema_summary (handlers d) composite kind body rest s steps w).1.kernel
  reporting-keeps composite kind body rest s steps w p =
      stepping-keeps P composite "pluto_append_mailbox_message" steps
        (handlers d append_mailbox_message s (message_args kind body) w)
        (λ done w'.
          (replied (accepted_reply composite (append_fields rest (steps_field done))), w'))
        (handlers-keeps d P Completes keep append_mailbox_message s (message_args kind body) w
          (inl (λ q. cc (q))) p)
        λ done w' q. q

  closing-keeps :
      (composite id : String) (s : PlutoToolSession) (w : World)
      (next : Items → World → Reply × World)
      → P w.kernel
      → ((steps : Items) (w : World) → P w.kernel → P (next steps w).1.kernel)
      → P (closing d.schema_summary (handlers d) composite id s w next).1.kernel
  closing-keeps composite id s w next p go =
      stepping-keeps P composite "pluto_change_task_state" nil
        (handlers d change_task_state s (completed_args id) w) next
        (handlers-keeps d P Completes keep change_task_state s (completed_args id) w
          (inl (λ q. cc (q))) p)
        go

  worker-keeps :
      (o : Option WorkerCompleteArgs) (s : PlutoToolSession) (raw : Value) (w : World)
      → P w.kernel
      → P (worker_steps d.schema_summary (handlers d) o s raw w).1.kernel
  worker-keeps none s raw w p = p
  worker-keeps (some args) s raw w p =
      closing-keeps "worker-complete" args.task_id s w
        (worker_report d.schema_summary (handlers d) args s) p
        (reporting-keeps "worker-complete" "completion" (worker_body args)
          (field "taskId" (str args.task_id) end) s)

  verdict-keeps :
      (o : Option EvaluatorVerdictArgs) (s : PlutoToolSession) (raw : Value) (w : World)
      → P w.kernel
      → P (verdict_steps d.schema_summary (handlers d) o s raw w).1.kernel
  verdict-keeps none s raw w p = p
  verdict-keeps (some args) s raw w p =
      viewing-keeps P (handlers d read_state s (obj end) w)
        (λ view w'.
          verdict_on d.schema_summary (handlers d) args
            (state_of (find_task args.task_id (items_of (prop "tasks" view)))) s w')
        (handlers-keeps d P Completes keep read_state s (obj end) w (inl (λ q. cc (q))) p)
        λ view w' q. on (state_of (find_task args.task_id (items_of (prop "tasks" view)))) w' q
    where
      reports :
          (steps : Items) (w : World)
          → P w.kernel
          → P (verdict_report d.schema_summary (handlers d) args s steps w).1.kernel
      reports steps w p =
          reporting-keeps "evaluator-verdict" (mailbox_kind_for args.verdict) (verdict_body args)
            (field "taskId" (str args.task_id)
              (field "verdict" (str (verdict_name args.verdict)) end))
            s steps w p

      on :
          (o : Option String) (w : World)
          → P w.kernel
          → P (verdict_on d.schema_summary (handlers d) args o s w).1.kernel
      on none w p = p
      on (some state) w p =
          if-keeps P
            (passes d.schema_summary (handlers d) args.verdict && not (is_terminal_name state))
            (closing d.schema_summary (handlers d) "evaluator-verdict" args.task_id s w
              (verdict_report d.schema_summary (handlers d) args s))
            (verdict_report d.schema_summary (handlers d) args s nil w)
            (closing-keeps "evaluator-verdict" args.task_id s w
              (verdict_report d.schema_summary (handlers d) args s) p reports)
            (reports nil w p)

  reconciliation-keeps :
      (o : Option FinalReconciliationArgs) (s : PlutoToolSession) (raw : Value) (w : World)
      → Completes
      → P w.kernel
      → P (reconciliation_steps d.schema_summary (handlers d) o s raw w).1.kernel
  reconciliation-keeps none s raw w may p = p
  reconciliation-keeps (some args) s raw w may p =
      viewing-keeps P (handlers d read_state s (obj end) w)
        (λ view w'.
          reconcile d.schema_summary (handlers d) args (validate_final_reconciliation args view) s
            w')
        (handlers-keeps d P Completes keep read_state s (obj end) w (inl (λ q. cc (q))) p)
        λ view w' q. reconciled (validate_final_reconciliation args view) w' q
    where
      finished :
          (audit : Audit) (dir : Option String) (steps : Items) (w : World)
          → P w.kernel
          → P (recorded d.schema_summary (handlers d) args audit dir steps w).1.kernel
      finished audit none steps w p = p
      finished audit (some dir) steps w p = p

      reconciled :
          (audit : Audit) (w : World)
          → P w.kernel
          → P (reconcile d.schema_summary (handlers d) args audit s w).1.kernel
      reconciled audit w p =
          stepping-keeps P "final-reconciliation" "pluto_complete_run" nil
            (handlers d complete_run s (complete_args d.schema_summary (handlers d) args audit) w)
            (λ steps w'. recorded d.schema_summary (handlers d) args audit s.run_dir steps w')
            (handlers-keeps d P Completes keep complete_run s
              (complete_args d.schema_summary (handlers d) args audit) w (inr may) p)
            λ steps w' r. finished audit s.run_dir steps w' r

  pub run_composite_tool-keeps :
      (name : CompositeToolName) (s : PlutoToolSession) (raw : Value) (w : World)
      → (name ≢ final_reconciliation) ⊎ Completes
      → P w.kernel
      → P (run_composite_tool d.schema_summary (handlers d) name s raw w).1.kernel
  unfolding run_composite_tool run_worker_complete run_evaluator_verdict run_final_reconciliation
  run_composite_tool-keeps worker_complete s raw w may p =
      worker-keeps (parse_worker_complete raw) s raw w p
  run_composite_tool-keeps evaluator_verdict s raw w may p =
      verdict-keeps (parse_evaluator_verdict raw) s raw w p
  run_composite_tool-keeps final_reconciliation s raw w (inr may) p =
      reconciliation-keeps (parse_final_reconciliation raw) s raw w may p
  run_composite_tool-keeps final_reconciliation s raw w (inl other) p = absurd (other refl)
