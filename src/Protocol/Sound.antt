-- ===== src/Protocol/Sound.antt =====
-- What a parsed request is known to satisfy: what the event schema asks of the fields that an event
-- takes over from it.
use pluto_agent_platform.Common.{
  [], ◌∷◌, List, All, String, Bool, true, Option, none, some, ◌≡◌, refl, Bool-cases, Option-cases,
  if◌then◌else◌, inl, inr, ◌==◌, ap, ◌∙◌,
}
use pluto_agent_platform.Protocol.Actor.{ActorRef, role_of_ref, is_actor_role}
use pluto_agent_platform.Protocol.Event.{Recipient, broadcast}
use pluto_agent_platform.Protocol.Request.{
  RequestBody, append_mailbox_message, create_task, ProtocolRequest, change_task_state,
  publish_artifact, complete_run,
}
use pluto_agent_platform.Protocol.Schema.{Zod, supported_version, recipient_ok, owner_ok}
use pluto_agent_platform.Protocol.Parse.{
  Value, null, other, bool, num, str, arr, obj, ◌>>=◌, satisfying, keyword, enum, message_kinds,
  string_array, natural, task_states, run_statuses, artifact_kinds, actor_of_kind, string,
  nullable_string, prop, parse_actor, parse_recipient, parse_owner, parse_mailbox,
  parse_create_task, parse_change, parse_artifact, parse_complete, payload_parser, payload_parsers,
  parse_request,
}

abbrev pub BodyFits : RequestBody → Type 0
BodyFits (append_mailbox_message p) =
    (role_of_ref p.from_actor ≡ true) × (recipient_ok p.to_actor ≡ true)
BodyFits (create_task p) = owner_ok p.owner_actor ≡ true
BodyFits _ = Unit {0}

pub record WellFormed (z : Zod) (r : ProtocolRequest) : Type 0 where
  pub request_id : z.is_uuid r.request_id ≡ true
  pub actor : role_of_ref r.actor ≡ true
  pub version : supported_version r.schema_version ≡ true
  pub body : BodyFits r.body

bind-some :
    {A B : Type 0} (m : Option A) (k : A → Option B) (b : B)
    → (m >>= k) ≡ some b
    → (a : A) × (m ≡ some a) × (k a ≡ some b)
bind-some none k b h = absurd (cc (h))
bind-some (some a) k b h = (a, refl, h)

satisfying-some :
    (p : String → Bool) (o : Option String) (s : String) → satisfying p o ≡ some s → p s ≡ true
satisfying-some p none s h = absurd (cc (h))
satisfying-some p (some t) s h = elim (Bool-cases (p t)) [
  | inl hit ↦ let same : t ≡ s = cc (rw hit at h) in rw (← same) hit
  | inr miss ↦ absurd (cc (rw miss at h))
]

role_fits :
    (o : Option String) (a : ActorRef)
    → (satisfying is_actor_role o >>= λ s. some (ActorRef.role s)) ≡ some a
    → role_of_ref a ≡ true
role_fits o a h =
    let (s, found, q) = bind-some (satisfying is_actor_role o) (λ s. some (ActorRef.role s)) a h in
    let same : ActorRef.role s ≡ a = cc (q) in rw (← same) (satisfying-some is_actor_role o s found)

actor_of_kind_ok :
    (kind : String) (r : Option Value) (a : ActorRef)
    → actor_of_kind kind r ≡ some a
    → role_of_ref a ≡ true
actor_of_kind_ok kind r a h = elim (Bool-cases (kind == "manager")) [
  | inl is_manager ↦ let same : ActorRef.manager ≡ a = cc (rw is_manager at h) in rw (← same) refl
  | inr not_manager ↦ elim (Bool-cases (kind == "role")) [
    | inl is_role ↦ role_fits (string r) a (rw (not_manager, is_role) at h)
    | inr not_role ↦ elim (Bool-cases (kind == "system")) [
      | inl is_system ↦
          let same : ActorRef.system ≡ a = cc (rw (not_manager, not_role, is_system) at h) in
          rw (← same) refl
      | inr not_system ↦ absurd (cc (rw (not_manager, not_role, not_system) at h))
    ]
  ]
]

pub parse_actor_ok : (v : Value) (a : ActorRef) → parse_actor v ≡ some a → role_of_ref a ≡ true
unfolding parse_actor
parse_actor_ok v a h =
    let (kind, _, q) = bind-some (string (prop "kind" v)) _ a h in
    actor_of_kind_ok kind (prop "role" v) a q

parse_recipient_ok :
    (v : Value) (r : Recipient) → parse_recipient v ≡ some r → recipient_ok r ≡ true
unfolding parse_recipient
parse_recipient_ok v r h = elim (Option-cases (parse_actor v)) [
  | inr (a, found) ↦
      let same : Recipient.actor a ≡ r = cc (rw (found, parse_recipient) at h) in
      rw (← same) (parse_actor_ok v a found)
  | inl absent ↦
      let (kind, _, q) =
        bind-some (string (prop "kind" v))
          (λ kind. if kind == "broadcast" then some broadcast else none) r
          (rw (absent, parse_recipient) at h) in
      broadcast_ok kind q
]
  where
    broadcast_ok :
        (kind : String)
        → (if kind == "broadcast" then some broadcast else none) ≡ some r
        → recipient_ok r ≡ true
    broadcast_ok kind q = elim (Bool-cases (kind == "broadcast")) [
      | inl hit ↦ let same : broadcast ≡ r = cc (rw hit at q) in rw (← same) refl
      | inr miss ↦ absurd (cc (rw miss at q))
    ]

owner_fits :
    (v : Value) (o : Option ActorRef)
    → (parse_actor v >>= λ a. some (some a)) ≡ some o
    → owner_ok o ≡ true
owner_fits v o h =
    let (a, found, q) = bind-some (parse_actor v) (λ a. some (some a)) o h in
    let same : some a ≡ o = cc (q) in rw (← same) (parse_actor_ok v a found)

parse_owner_ok : (v : Value) (o : Option ActorRef) → parse_owner v ≡ some o → owner_ok o ≡ true
unfolding parse_owner
parse_owner_ok null o h = let same : none ≡ o = cc (h) in rw (← same) refl
parse_owner_ok other o h = owner_fits other o h
parse_owner_ok (bool b) o h = owner_fits (bool b) o h
parse_owner_ok (num n) o h = owner_fits (num n) o h
parse_owner_ok (str t) o h = owner_fits (str t) o h
parse_owner_ok (arr vs) o h = owner_fits (arr vs) o h
parse_owner_ok (obj fs) o h = owner_fits (obj fs) o h

prop_actor_ok :
    (o : Option Value) (a : ActorRef) → (o >>= parse_actor) ≡ some a → role_of_ref a ≡ true
prop_actor_ok o a h = let (v, _, q) = bind-some o parse_actor a h in parse_actor_ok v a q

parse_mailbox_ok : (v : Value) (b : RequestBody) → parse_mailbox v ≡ some b → BodyFits b
unfolding parse_mailbox
parse_mailbox_ok v b h =
    let (from, found, q1) = bind-some (prop "fromActor" v >>= parse_actor) _ b h in
    let (to, found_to, q2) = bind-some (prop "toActor" v >>= parse_recipient) _ b q1 in
    let (kind, _, q3) = bind-some (enum message_kinds (prop "kind" v)) _ b q2 in
    let (body, _, q4) = bind-some (string (prop "body" v)) _ b q3 in
    let (tv, _, q5) = bind-some (prop "toActor" v) parse_recipient to found_to in
    let same : append_mailbox_message
          (record { from_actor = from; to_actor = to; kind = kind; body = body })
        ≡ b =
      cc (q4) in
    rw (← same) (prop_actor_ok (prop "fromActor" v) from found, parse_recipient_ok tv to q5)

parse_create_task_ok : (v : Value) (b : RequestBody) → parse_create_task v ≡ some b → BodyFits b
unfolding parse_create_task
parse_create_task_ok v b h =
    let (title, _, q1) = bind-some (string (prop "title" v)) _ b h in
    let (owner, found, q2) = bind-some (prop "ownerActor" v >>= parse_owner) _ b q1 in
    let (depends, _, q3) = bind-some (string_array (prop "dependsOn" v)) _ b q2 in
    let (ov, _, q4) = bind-some (prop "ownerActor" v) parse_owner owner found in
    let same : create_task (record { title = title; owner_actor = owner; depends_on = depends })
        ≡ b =
      cc (q3) in
    rw (← same) (parse_owner_ok ov owner q4)

parse_change_ok : (v : Value) (b : RequestBody) → parse_change v ≡ some b → BodyFits b
unfolding parse_change
parse_change_ok v b h =
    let (id, _, q1) = bind-some (string (prop "taskId" v)) _ b h in
    let (to, _, q2) = bind-some (enum task_states (prop "to" v)) _ b q1 in
    let same : change_task_state (record { task_id = id; to = to }) ≡ b = cc (q2) in rw (← same) tt

parse_artifact_ok : (v : Value) (b : RequestBody) → parse_artifact v ≡ some b → BodyFits b
unfolding parse_artifact
parse_artifact_ok v b h =
    let (kind, _, q1) = bind-some (enum artifact_kinds (prop "kind" v)) _ b h in
    let (media, _, q2) = bind-some (string (prop "mediaType" v)) _ b q1 in
    let (size, _, q3) = bind-some (natural (prop "byteSize" v)) _ b q2 in
    let same : publish_artifact (record { kind = kind; media_type = media; byte_size = size }) ≡ b =
      cc (q3) in
    rw (← same) tt

parse_complete_ok : (v : Value) (b : RequestBody) → parse_complete v ≡ some b → BodyFits b
unfolding parse_complete
parse_complete_ok v b h =
    let (status, _, q1) = bind-some (enum run_statuses (prop "status" v)) _ b h in
    let (summary, _, q2) = bind-some (nullable_string (prop "summary" v)) _ b q1 in
    let same : complete_run (record { status = status; summary = summary }) ≡ b = cc (q2) in
    rw (← same) tt

-- A parser whose results fit.
abbrev Fitting : String × (Value → Option RequestBody) → Type 0
Fitting entry = (v : Value) (b : RequestBody) → entry.1 v ≡ some b → BodyFits b

keyword-Fitting :
    (ks : List (String × (Value → Option RequestBody))) (name : String)
    (parse : Value → Option RequestBody)
    → All Fitting ks
    → keyword ks name ≡ some parse
    → (v : Value) (b : RequestBody) → parse v ≡ some b
    → BodyFits b
keyword-Fitting [] name parse fits h v b q = absurd (cc (h))
keyword-Fitting (entry ∷ ks) name parse fits h v b q = elim (Bool-cases (entry.0 == name)) [
  | inl hit ↦ let same : entry.1 ≡ parse = cc (rw hit at h) in fits.0 v b (ap (λ f. f v) same ∙ q)
  | inr miss ↦ keyword-Fitting ks name parse fits.1 (rw miss at h) v b q
]

payload_fits :
    (name : String) (parse : Value → Option RequestBody) (v : Value) (b : RequestBody)
    → payload_parser name ≡ some parse
    → parse v ≡ some b
    → BodyFits b
payload_fits name parse v b h q =
    let fits : All Fitting payload_parsers = (
      parse_mailbox_ok,
      (parse_create_task_ok, (parse_change_ok, (parse_artifact_ok, (parse_complete_ok, tt)))),
    ) in
    keyword-Fitting payload_parsers name parse fits h v b q

-- A parsed request meets the formats that the schemas name.
pub parse_request-WellFormed :
    (z : Zod) (raw : Value) (r : ProtocolRequest) → parse_request z raw ≡ some r → WellFormed z r
unfolding parse_request
parse_request-WellFormed z raw r h =
    let (payload, chosen, q0) = bind-some (string (prop "intent" raw) >>= payload_parser) _ r h in
    let (request_id, uuid, q1) =
      bind-some (satisfying z.is_uuid (string (prop "requestId" raw))) _ r q0 in
    let (run_id, _, q2) = bind-some (string (prop "runId" raw)) _ r q1 in
    let (actor, by, q3) = bind-some (prop "actor" raw >>= parse_actor) _ r q2 in
    let (key, _, q4) = bind-some (nullable_string (prop "idempotencyKey" raw)) _ r q3 in
    let (stamp, _, q5) =
      bind-some (satisfying z.is_datetime (string (prop "clientTimestamp" raw))) _ r q4 in
    let (version, supported, q6) =
      bind-some (satisfying supported_version (string (prop "schemaVersion" raw))) _ r q5 in
    let (body, parsed, q7) = bind-some (prop "payload" raw >>= payload) _ r q6 in
    let (name, _, by_name) = bind-some (string (prop "intent" raw)) payload_parser payload chosen in
    let (pv, _, from_payload) = bind-some (prop "payload" raw) payload body parsed in
    let same : record {
      request_id = request_id;
      run_id = run_id;
      actor = actor;
      idempotency_key = key;
      client_timestamp = stamp;
      schema_version = version;
      body = body;
    }
        ≡ r =
      cc (q7) in
    rw (← same) (record {
      request_id = satisfying-some z.is_uuid _ request_id uuid;
      actor = prop_actor_ok (prop "actor" raw) actor by;
      version = satisfying-some supported_version _ version supported;
      body = payload_fits name payload pv body by_name from_payload;
    })
