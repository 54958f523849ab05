-- ===== src/Tools/Handlers.antt =====
-- tools/pluto-tool-handlers.ts, and the argument schemas of tools/pluto-tool-schemas.ts. A handler
-- catches what it throws, so that it always has a result; what it did before stays done.
use pluto_agent_platform.Common.{
  suc, String, Bool, true, false, ◌&&◌, Option, none, some, List, [], ◌∷◌, ◌==◌, any, if◌then◌else◌,
  not,
}
use pluto_agent_platform.Common.Int.{pos}
use pluto_agent_platform.Common.Text.{◌<>◌}
use pluto_agent_platform.Protocol.Actor.{ActorRef}
use pluto_agent_platform.Protocol.Event.{
  RunEvent, EventBody, RejectionReason, Recipient, MailboxMessageKind, actor_not_authorized,
  entity_unknown, state_conflict, schema_invalid, idempotency_replay, intent_unknown, Recipient,
  MailboxMessageKind,
}
use pluto_agent_platform.Protocol.Request.{RequestBody, ProtocolRequest}
use pluto_agent_platform.Protocol.Parse.{
  Value, Fields, other, obj, str, num, bool, end, field, ◌>>=◌, prop, string, satisfying, enum,
  message_kinds, parse_recipient, parse_create_task, parse_change, parse_artifact, parse_complete,
}
use pluto_agent_platform.Kernel.Host.{Kernel}
use pluto_agent_platform.Kernel.Log.{Result, returned, thrown}
use pluto_agent_platform.Kernel.Build.{SubmitContext}
use pluto_agent_platform.Kernel.Submit.{submit}
use pluto_agent_platform.Tools.Values.{request_value}
use pluto_agent_platform.Tools.Names.{
  PlutoToolName, create_task, change_task_state, append_mailbox_message, publish_artifact,
  complete_run, read_state, read_artifact, read_transcript, EventKind, kind_of, event_kind_name,
  same_kind,
}
use pluto_agent_platform.Tools.World.{
  Deps, World, PlutoToolResult, ok_json, ok_text, error, bad_args, lead_only, internal, Handler,
  write_artifact, read_artifact_file,
}

abbrev pub reason_name : RejectionReason → String
reason_name actor_not_authorized = "actor_not_authorized"
reason_name entity_unknown = "entity_unknown"
reason_name state_conflict = "state_conflict"
reason_name schema_invalid = "schema_invalid"
reason_name idempotency_replay = "idempotency_replay"
reason_name intent_unknown = "intent_unknown"

-- The fields that an accepted event adds to the answer.
abbrev created_id : EventBody → Fields
created_id (EventBody.task_created p) = field "taskId" (str p.task_id) end
created_id (EventBody.artifact_published p) = field "artifactId" (str p.artifact_id) end
created_id _ = end

abbrev accepted_fields : RunEvent → Fields → Fields
accepted_fields event rest =
    field "accepted" (bool true)
      (field "eventId" (str event.event_id) (field "sequence" (num (pos event.sequence)) rest))

abbrev answer : RunEvent → EventBody → EventKind → PlutoToolResult
answer event (EventBody.request_rejected p) expected = ok_json (
    obj (
      field "accepted" (bool false) (
        field "reason" (str (reason_name p.rejection_reason))
          (field "details" (str p.detail) end))))
answer event body expected =
    if not (same_kind (kind_of body) expected)
    then error internal (
        "Expected "
        <> event_kind_name expected
        <> ", received "
        <> event_kind_name (kind_of body)
        <> ".")
    else ok_json (obj (accepted_fields event (created_id body)))

unfoldable pub accepted_result : RunEvent → EventKind → PlutoToolResult
accepted_result event expected = answer event event.body expected

abbrev answer_with_path : RunEvent → EventBody → String → PlutoToolResult
answer_with_path event (EventBody.artifact_published p) path = ok_json (
    obj (
      accepted_fields event (field "artifactId" (str p.artifact_id) (field "path" (str path) end))))
answer_with_path event body path = accepted_result event EventKind.artifact_published

unfoldable pub accepted_result_with_path : RunEvent → String → PlutoToolResult
unfolding accepted_result
accepted_result_with_path event path = answer_with_path event event.body path

-- The keys of a `strict` object.
abbrev pub only_keys : List String → Fields → Bool
only_keys ks end = true
only_keys ks (field k v fs) = any (λ j. j == k) ks && only_keys ks fs

abbrev pub strict : List String → Value → Bool
strict ks (obj fs) = only_keys ks fs
strict ks _ = false

pub record MessageArgs : Type 0 where
  pub to_actor : Recipient
  pub kind : MailboxMessageKind
  pub body : String

-- `PlutoAppendMailboxMessageArgsSchema`; the other mutating schemas are those of the payloads.
unfoldable pub parse_message_args : Value → Option MessageArgs
unfolding prop string parse_recipient
parse_message_args v = do
  to ← prop "toActor" v >>= parse_recipient
  kind ← enum message_kinds (prop "kind" v)
  body ← string (prop "body" v)
  some (record { to_actor = to; kind = kind; body = body })

-- `z.string().optional()`: undefined is the value that no schema here names.
abbrev pub optional_text : Option Value → Option (Option String)
optional_text none = some none
optional_text (some other) = some none
optional_text (some (str s)) = some (some s)
optional_text (some _) = none

unfoldable pub parse_publish_args : Value → Option (RequestBody × Option String)
unfolding prop parse_artifact
parse_publish_args v = do
  payload ← parse_artifact v
  body ← optional_text (prop "body" v)
  some (payload, body)

module _ (d : Deps) where
  abbrev pub bad : Value → PlutoToolResult
  bad raw = error bad_args (d.schema_summary raw)

  -- `buildRequestEnvelope` around a body: an id is drawn, then the clock is read, whose text may be no
  -- date.
  unfoldable pub build_request : ActorRef → RequestBody → Kernel → Option ProtocolRequest × Kernel
  build_request actor body k =
      let stamp = d.iso_string (d.now_iso k.ticks) in
      let request = stamp >>= λ time. some (record {
        request_id = d.next_id k.drawn;
        run_id = d.run_id;
        actor = actor;
        idempotency_key = none;
        client_timestamp = time;
        schema_version = d.schema_version;
        body = body;
      }) in
      (request, record k { drawn = suc k.drawn; ticks = suc k.ticks })

  abbrev pub no_submit_context : SubmitContext
  no_submit_context = record { correlation_id = none; expected_task_state = none }

  abbrev pub caught : Result RunEvent × Kernel → Option RunEvent × Kernel
  caught (returned event, k) = (some event, k)
  caught (thrown fault, k) = (none, k)

  abbrev pub submit_built : Option ProtocolRequest × Kernel → Option RunEvent × Kernel
  submit_built (none, k) = (none, k)
  submit_built (some request, k) =
      caught (submit d.host (request_value request) no_submit_context k)

  -- The event of a request, `none` where building or submitting it throws.
  unfoldable pub submit_body : ActorRef → RequestBody → World → Option RunEvent × World
  unfolding build_request
  submit_body actor body w =
      let (event, k) = submit_built (build_request actor body w.kernel) in
      (event, record w { kernel = k })

  abbrev pub failed : String → PlutoToolResult
  failed tool = error internal (tool <> " failed.")

  abbrev pub answered : String → EventKind → Option RunEvent × World → PlutoToolResult × World
  answered tool kind (none, w) = (failed tool, w)
  answered tool kind (some event, w) = (accepted_result event kind, w)

  -- The handler of a tool that submits one request.
  abbrev pub submitting :
      String → EventKind → ActorRef → Option RequestBody → Value → World → PlutoToolResult × World
  submitting tool kind actor none raw w = (bad raw, w)
  submitting tool kind actor (some body) raw w = answered tool kind (submit_body actor body w)

  abbrev pub message_body : ActorRef → MessageArgs → RequestBody
  message_body actor args =
      RequestBody.append_mailbox_message (record {
        from_actor = actor;
        to_actor = args.to_actor;
        kind = args.kind;
        body = args.body;
      })

  -- Behind the submission of `publish_artifact`: a body is written where the artifact was published.
  abbrev pub written : RunEvent → Option String × World → PlutoToolResult × World
  written event (none, w) = (failed "publish_artifact", w)
  written event (some path, w) = (accepted_result_with_path event path, w)

  abbrev pub store_body : RunEvent → EventBody → Option String → World → PlutoToolResult × World
  store_body event (EventBody.artifact_published p) (some body) w =
      written event (write_artifact d p.artifact_id body w)
  store_body event _ body w = (accepted_result event EventKind.artifact_published, w)

  abbrev pub published : Option String → Option RunEvent × World → PlutoToolResult × World
  published body (none, w) = (failed "publish_artifact", w)
  published body (some event, w) = store_body event event.body body w

  abbrev pub publishing :
      ActorRef → Option (RequestBody × Option String) → Value → World → PlutoToolResult × World
  publishing actor none raw w = (bad raw, w)
  publishing actor (some (body, text)) raw w = published text (submit_body actor body w)

  abbrev pub completing : Bool → Option RequestBody → Value → World → PlutoToolResult × World
  completing lead none raw w = (bad raw, w)
  completing false (some body) raw w =
      (error lead_only "complete_run is only available to the lead session.", w)
  completing true (some body) raw w =
      answered "complete_run" EventKind.run_completed (submit_body ActorRef.manager body w)

  abbrev read_file : Option String → String → PlutoToolResult
  read_file none path = failed "read_artifact"
  read_file (some body) path = ok_json (obj (field "path" (str path) (field "body" (str body) end)))

  abbrev pub artifact_of : Option String → Value → World → PlutoToolResult
  artifact_of none raw w = bad raw
  artifact_of (some id) raw w = read_file (read_artifact_file w id) (d.artifact_path id)

  abbrev pub transcript_of : Option String → Value → PlutoToolResult
  transcript_of none raw = bad raw
  transcript_of (some key) raw = ok_text (d.transcript key)

  abbrev strictly : List String → Value → Option String → Option String
  strictly ks raw v = if strict ks raw then v else none

  -- `makePlutoToolHandlers`.
  unfoldable pub handlers : PlutoToolName → Handler
  unfolding prop string parse_create_task parse_change parse_message_args parse_publish_args
      parse_complete submit_body accepted_result accepted_result_with_path write_artifact
      read_artifact_file
  handlers create_task s raw w =
      submitting "create_task" EventKind.task_created s.current_actor (parse_create_task raw) raw w
  handlers change_task_state s raw w =
      submitting "change_task_state" EventKind.task_state_changed s.current_actor (parse_change raw)
        raw w
  handlers append_mailbox_message s raw w =
      submitting "append_mailbox_message" EventKind.mailbox_message_appended s.current_actor
        (parse_message_args raw >>= λ args. some (message_body s.current_actor args)) raw w
  handlers publish_artifact s raw w = publishing s.current_actor (parse_publish_args raw) raw w
  handlers complete_run s raw w = completing s.is_lead (parse_complete raw) raw w
  handlers read_state s raw w =
      (if strict [] raw then ok_json (d.prompt_view w.kernel s.current_actor) else bad raw, w)
  handlers read_artifact s raw w = (
    artifact_of
        (strictly ("artifactId" ∷ []) raw
          (satisfying d.host.zod.is_uuid (string (prop "artifactId" raw))))
        raw w,
    w,
  )
  handlers read_transcript s raw w = (
    transcript_of
        (strictly ("actorKey" ∷ []) raw
          (satisfying (λ key. not (key == "")) (string (prop "actorKey" raw))))
        raw,
    w,
  )
