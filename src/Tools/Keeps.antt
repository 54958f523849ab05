-- ===== src/Tools/Keeps.antt =====
-- What the moves of the kernel keep, the handlers, the composite tools and the server keep.
use pluto_agent_platform.Protocol.Parse.{◌>>=◌}
use pluto_agent_platform.Common.{
  false, true, ◌≡◌, none, some, Option, refl, String, Bool, arith, subst, sym, ◌≢◌, inr, ◌⊎◌, inl,
}
use pluto_agent_platform.Tools.World.{Deps, World, write_artifact, PlutoToolSession}
use pluto_agent_platform.Kernel.Host.{Kernel}
use pluto_agent_platform.Tools.Handlers.{
  submit_body, handlers, answered, published, submitting, written, publishing, completing,
  store_body, parse_publish_args, MessageArgs, parse_message_args, message_body,
}
use pluto_agent_platform.Protocol.Actor.{ActorRef}
use pluto_agent_platform.Protocol.Request.{RequestBody, intent_of, Intent}
use pluto_agent_platform.Tools.Names.{
  PlutoToolName, create_task, change_task_state, append_mailbox_message, publish_artifact,
  complete_run, read_state, read_artifact, read_transcript, EventKind,
}
use pluto_agent_platform.Protocol.Event.{RunEvent, EventBody}
use pluto_agent_platform.Protocol.Parse.{
  Value, parse_create_task, parse_change, parse_complete, parse_artifact,
}

creates :
    (raw : Value) (body : RequestBody)
    → parse_create_task raw ≡ some body
    → intent_of body ≢ Intent.complete_run
unfolding parse_create_task
creates raw body q = ground arith

changes :
    (raw : Value) (body : RequestBody)
    → parse_change raw ≡ some body
    → intent_of body ≢ Intent.complete_run
unfolding parse_change
changes raw body q = ground arith

publishes :
    (raw : Value) (body : RequestBody) (text : Option String)
    → parse_publish_args raw ≡ some (body, text)
    → intent_of body ≢ Intent.complete_run
unfolding parse_publish_args parse_artifact
publishes raw body text q = ground arith

appends :
    (d : Deps) (actor : ActorRef) (o : Option MessageArgs) (body : RequestBody)
    → (o >>= λ args. some (message_body d actor args)) ≡ some body
    → intent_of body ≢ Intent.complete_run
appends d actor none body q = absurd (cc (q))
appends d actor (some args) body q = ground arith

-- The intents that may be submitted: any but `complete_run`, and that one where `Completes` holds.
abbrev pub Permitted : Type 0 → Intent → Type 0
Permitted Completes intent = (intent ≢ Intent.complete_run) ⊎ Completes

-- A property of kernels that every permitted submission keeps.
module _ (d : Deps) (P : Kernel → Type 0) (Completes : Type 0)
    (keep : (actor : ActorRef) (body : RequestBody) (w : World)
      → Permitted Completes (intent_of body)
      → P w.kernel
      → P (submit_body d actor body w).1.kernel) where
  write_artifact-kernel :
      (id body : String) (w : World) → (write_artifact d id body w).1.kernel ≡ w.kernel
  unfolding write_artifact
  write_artifact-kernel id body w = ground arith

  answered-keeps :
      (tool : String) (kind : EventKind) (x : Option RunEvent × World)
      → P x.1.kernel
      → P (answered d tool kind x).1.kernel
  answered-keeps tool kind (none, w) p = p
  answered-keeps tool kind (some event, w) p = p

  submitting-keeps :
      (tool : String) (kind : EventKind) (actor : ActorRef) (o : Option RequestBody) (raw : Value)
      (w : World)
      → ((body : RequestBody) → o ≡ some body → Permitted Completes (intent_of body))
      → P w.kernel
      → P (submitting d tool kind actor o raw w).1.kernel
  submitting-keeps tool kind actor none raw w may p = p
  submitting-keeps tool kind actor (some body) raw w may p =
      answered-keeps tool kind (submit_body d actor body w) (keep actor body w (may body refl) p)

  published-keeps :
      (text : Option String) (x : Option RunEvent × World)
      → P x.1.kernel
      → P (published d text x).1.kernel
  published-keeps text (none, w) p = p
  published-keeps text (some event, w) p = stored event.body text
    where
      wrote : (x : Option String × World) → P x.1.kernel → P (written d event x).1.kernel
      wrote (none, w) p = p
      wrote (some path, w) p = p

      stored :
          (body : EventBody) (text : Option String) → P (store_body d event body text w).1.kernel
      stored (EventBody.artifact_published a) (some t) =
          wrote (write_artifact d a.artifact_id t w)
            (subst (λ k. P k) (sym (write_artifact-kernel a.artifact_id t w)) p)
      stored (EventBody.artifact_published a) none = p
      stored (EventBody.run_started a) t = p
      stored (EventBody.run_completed a) t = p
      stored (EventBody.mailbox_message_appended a) t = p
      stored (EventBody.task_created a) t = p
      stored (EventBody.task_state_changed a) t = p
      stored (EventBody.request_rejected a) t = p

  publishing-keeps :
      (actor : ActorRef) (o : Option (RequestBody × Option String)) (raw : Value) (w : World)
      → ((body : RequestBody) (text : Option String)
          → o ≡ some (body, text)
          → Permitted Completes (intent_of body))
      → P w.kernel
      → P (publishing d actor o raw w).1.kernel
  publishing-keeps actor none raw w may p = p
  publishing-keeps actor (some (body, text)) raw w may p =
      published-keeps text (submit_body d actor body w) (keep actor body w (may body text refl) p)

  completing-keeps :
      (lead : Bool) (o : Option RequestBody) (raw : Value) (w : World)
      → Completes
      → P w.kernel
      → P (completing d lead o raw w).1.kernel
  completing-keeps lead none raw w may p = p
  completing-keeps false (some body) raw w may p = p
  completing-keeps true (some body) raw w may p =
      answered-keeps "complete_run" EventKind.run_completed (submit_body d ActorRef.manager body w)
        (keep ActorRef.manager body w (inr may) p)

  pub handlers-keeps :
      (name : PlutoToolName) (s : PlutoToolSession) (raw : Value) (w : World)
      → (name ≢ PlutoToolName.complete_run) ⊎ Completes
      → P w.kernel
      → P (handlers d name s raw w).1.kernel
  unfolding handlers
  handlers-keeps create_task s raw w may p =
      submitting-keeps "create_task" EventKind.task_created s.current_actor (parse_create_task raw)
        raw w (λ body q. inl (creates raw body q)) p
  handlers-keeps change_task_state s raw w may p =
      submitting-keeps "change_task_state" EventKind.task_state_changed s.current_actor
        (parse_change raw) raw w (λ body q. inl (changes raw body q)) p
  handlers-keeps append_mailbox_message s raw w may p =
      submitting-keeps "append_mailbox_message" EventKind.mailbox_message_appended s.current_actor
        (parse_message_args raw >>= λ args. some (message_body d s.current_actor args)) raw w
        (λ body q. inl (appends d s.current_actor (parse_message_args raw) body q)) p
  handlers-keeps publish_artifact s raw w may p =
      publishing-keeps s.current_actor (parse_publish_args raw) raw w
        (λ body text q. inl (publishes raw body text q)) p
  handlers-keeps complete_run s raw w (inr may) p =
      completing-keeps s.is_lead (parse_complete raw) raw w may p
  handlers-keeps complete_run s raw w (inl other) p = absurd (other refl)
  handlers-keeps read_state s raw w may p = p
  handlers-keeps read_artifact s raw w may p = p
  handlers-keeps read_transcript s raw w may p = p
