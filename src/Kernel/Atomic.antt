-- ===== src/Kernel/Atomic.antt =====
-- A call that throws has changed neither the state nor the log.
use pluto_agent_platform.Common.{
  ◌≡◌, ◌∙◌, ℕ, arith, String, Option-cases, inl, inr, refl, Bool-cases,
}
use pluto_agent_platform.Protocol.Event.{RunEvent, RunStartedPayload}
use pluto_agent_platform.Kernel.Log.{Result, returned, thrown, append, head}
use pluto_agent_platform.Kernel.Host.{Kernel, M, ◌>>=◌, after_step, Host}
use pluto_agent_platform.Kernel.Submit.{
  commit, submit_parsed_request, event_for, submit_rejected_parse, submit, seed_run_started,
  seed_empty, submit_validated,
}
use pluto_agent_platform.Kernel.Build.{
  parse_event, accepted_body, build_rejected_event, build_accepted_event, SubmitContext, Rejection,
  task_state_or_throw,
}
use pluto_agent_platform.Protocol.Request.{
  ProtocolRequest, RequestBody, append_mailbox_message, create_task, change_task_state,
  publish_artifact, complete_run,
}
use pluto_agent_platform.Authority.Validate.{ValidationResult, validate, reject}
use pluto_agent_platform.Protocol.Parse.{Value, parse_request}
use pluto_agent_platform.Common.Int.{ℤ, pos, negsuc}
use pluto_agent_platform.Authority.Rules.{authorization_throws}

-- Only the providers move.
abbrev pub Same : Kernel → Kernel → Type 0
Same k k' = (k'.state ≡ k.state) × (k'.log ≡ k.log)

abbrev Keeps : {A : Type 0} → M A → Type 0
Keeps m = (k : Kernel) → Same k (m k).1

-- A step that may commit: where it throws it keeps.
abbrev pub KeepsOnThrow : Kernel → Result RunEvent × Kernel → Type 0
KeepsOnThrow k (returned e, k') = Unit {0}
KeepsOnThrow k (thrown f, k') = Same k k'

Keeps-bind :
    {A B : Type 0} (m : M A) (f : A → M B) → Keeps m → ((a : A) → Keeps (f a)) → Keeps (m >>= f)
Keeps-bind m f hm hf k = go (m k) (hm k)
  where
    go : (x : Result _ × Kernel) → Same k x.1 → Same k (after_step x f).1
    go (returned a, j) (s, l) = ((hf a j).0 ∙ s, (hf a j).1 ∙ l)
    go (thrown e, j) (s, l) = (s, l)

module _ (h : Host) where
  parse_event-Keeps : (draft : ℕ → RunEvent) → Keeps (parse_event h draft)
  unfolding parse_event
  parse_event-Keeps draft k = ground arith

  accepted_body-Keeps :
      (r : ProtocolRequest) (time : String) (b : RequestBody) → Keeps (accepted_body h r time b)
  unfolding accepted_body
  accepted_body-Keeps r time (append_mailbox_message p) k = (refl, refl)
  accepted_body-Keeps r time (create_task p) k = (refl, refl)
  accepted_body-Keeps r time (change_task_state p) k =
      ground (arith, task_state_or_throw k.state p.task_id)
  accepted_body-Keeps r time (publish_artifact p) k = (refl, refl)
  accepted_body-Keeps r time (complete_run p) k = (refl, refl)

  build_rejected_event-Keeps : (input : Rejection) → Keeps (build_rejected_event h input)
  unfolding build_rejected_event
  build_rejected_event-Keeps input k = parse_event-Keeps _ _

  build_accepted_event-Keeps :
      (r : ProtocolRequest) (ctx : SubmitContext) → Keeps (build_accepted_event h r ctx)
  unfolding build_accepted_event
  build_accepted_event-Keeps r ctx k =
      Keeps-bind (accepted_body h r (h.now_iso k.ticks) r.body) _
        (accepted_body-Keeps r (h.now_iso k.ticks) r.body)
        (λ named.
          Keeps-bind (λ j. parse_event h _ j) _ (λ j. parse_event-Keeps _ j)
            (λ event j. (refl, refl)))
        _

  submit_validated-Keeps :
      (r : ProtocolRequest) (ctx : SubmitContext) → Keeps (submit_validated h r ctx)
  unfolding submit_validated
  submit_validated-Keeps r ctx k = go (validate k.state r ctx.expected_task_state) refl
    where
      go :
          (v : ValidationResult)
          → validate k.state r ctx.expected_task_state ≡ v
          → Same k (submit_validated h r ctx k).1
      go ValidationResult.ok e = rw (e, submit_validated) (build_accepted_event-Keeps r ctx k)
      go (reject reason detail) e = rw (e, submit_validated) (build_rejected_event-Keeps _ k)

  submit_parsed_request-Keeps :
      (r : ProtocolRequest) (ctx : SubmitContext) → Keeps (submit_parsed_request h r ctx)
  unfolding submit_parsed_request
  submit_parsed_request-Keeps r ctx k = elim (Bool-cases (authorization_throws k.state r)) [
    | inl throws ↦ rw (throws, submit_parsed_request) (refl, refl)
    | inr decides ↦ rw (decides, submit_parsed_request) (submit_validated-Keeps r ctx k)
  ]

  event_for-Keeps : (raw : Value) (ctx : SubmitContext) → Keeps (event_for h raw ctx)
  unfolding event_for submit_rejected_parse
  event_for-Keeps raw ctx k = elim (Option-cases (parse_request h.zod raw)) [
    | inl failed ↦ rw (failed, event_for) (build_rejected_event-Keeps _ k)
    | inr (r, parsed) ↦ rw (parsed, event_for) (submit_parsed_request-Keeps r ctx k)
  ]

commit-KeepsOnThrow : (event : RunEvent) (k : Kernel) → KeepsOnThrow k (commit event k)
unfolding commit
commit-KeepsOnThrow event k = go (append k.log event) refl
  where
    go : (r : Result _) → append k.log event ≡ r → KeepsOnThrow k (commit event k)
    go (returned log) e = rw (e, commit) tt
    go (thrown f) e = rw (e, commit) (refl, refl)

KeepsOnThrow-move :
    (k j : Kernel) (x : Result RunEvent × Kernel) → Same k j → KeepsOnThrow j x → KeepsOnThrow k x
KeepsOnThrow-move k j (returned e, k') s t = tt
KeepsOnThrow-move k j (thrown f, k') s t = (t.0 ∙ s.0, t.1 ∙ s.1)

commit_after :
    (k : Kernel) (x : Result RunEvent × Kernel) → Same k x.1 → KeepsOnThrow k (after_step x commit)
commit_after k (returned e, j) s = KeepsOnThrow-move k j (commit e j) s (commit-KeepsOnThrow e j)
commit_after k (thrown f, j) s = s

module _ (h : Host) (ctx : SubmitContext) (k : Kernel) where
  pub submit-KeepsOnThrow : (raw : Value) → KeepsOnThrow k (submit h raw ctx k)
  unfolding submit
  submit-KeepsOnThrow raw = commit_after k (event_for h raw ctx k) (event_for-Keeps h raw ctx k)

  seed_empty-KeepsOnThrow :
      (payload : RunStartedPayload) → KeepsOnThrow k (seed_empty h payload ctx k)
  unfolding seed_empty
  seed_empty-KeepsOnThrow payload = commit_after k _ (parse_event-Keeps h _ _)

  pub seed_run_started-KeepsOnThrow :
      (payload : RunStartedPayload) → KeepsOnThrow k (seed_run_started h payload ctx k)
  unfolding seed_run_started
  seed_run_started-KeepsOnThrow payload = go (head k.log) refl
    where
      go : (z : ℤ) → head k.log ≡ z → KeepsOnThrow k (seed_run_started h payload ctx k)
      go (pos n) e = rw (e, seed_run_started) (refl, refl)
      go (negsuc n) e = rw (e, seed_run_started) (seed_empty-KeepsOnThrow payload)
