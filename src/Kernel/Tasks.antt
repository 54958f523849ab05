-- ===== src/Kernel/Tasks.antt =====
-- The life of a task: its state moves along the transition graph alone, and stops at a terminal state.
use pluto_agent_platform.Common.{
  Bool, true, ◌≡◌, false, ◌↔◌, ◌≢◌, Option, arith, some, String, ℕ, eq_refl, eq_iff, Bool-cases,
  refl, ◌==◌, inl, inr,
}
use pluto_agent_platform.Authority.Validate.{validate, ValidationResult, change_guard, unexpected}
use pluto_agent_platform.Protocol.Event.{
  TaskState, queued, completed, failed, cancelled, EventBody, task_created, task_state_changed,
  RunEvent, TaskCreatedPayload, TaskStateChangedPayload,
}
use pluto_agent_platform.Protocol.Request.{
  change_task_state, ProtocolRequest, ChangeTaskStatePayload,
}
use pluto_agent_platform.Authority.Rules.{transition_legal}
use pluto_agent_platform.Kernel.Reducer.{reduce}
use pluto_agent_platform.Authority.State.{RunState, RunStateTask}
use pluto_agent_platform.Common.Dict.{insert, lookup, lookup-insert}
use pluto_agent_platform.Kernel.Build.{SubmitContext}
use pluto_agent_platform.Kernel.Host.{Host, Kernel}
use pluto_agent_platform.Protocol.Parse.{Value}
use pluto_agent_platform.Kernel.Step.{Effect, appended, created, published, finished, changed}
use pluto_agent_platform.Kernel.Submit.{submit}
use pluto_agent_platform.Kernel.Outcome.{Committed, Origin, granted, refused, unparsed, submit-ok}
use pluto_agent_platform.Kernel.Log.{returned}
use pluto_agent_platform.Kernel.Move.{
  Move, Reaches, quiet, Reaches-invariant, logs, started, requested,
}

abbrev pub terminal : TaskState → Bool
terminal completed = true
terminal failed = true
terminal cancelled = true
terminal _ = false

-- A transition is legal exactly when it leaves a state that is not terminal for another state, and
-- no transition leads back to `queued`.
pub transition_legal_iff :
    (from to : TaskState)
    → (transition_legal from to ≡ true) ↔ ((terminal from ≡ false) × (to ≢ queued) × (to ≢ from))
unfolding transition_legal
transition_legal_iff from to = ground arith

legal-not_terminal : (from to : TaskState) → transition_legal from to ≡ true → terminal from ≡ false
legal-not_terminal from to h = ((transition_legal_iff from to).0 h).0

validate-ok-legal :
    (s : RunState) (r : ProtocolRequest) (x : Option TaskState) (p : ChangeTaskStatePayload)
    (t : RunStateTask)
    → validate s r x ≡ ValidationResult.ok
    → r.body ≡ change_task_state p
    → lookup p.task_id s.tasks ≡ some t
    → (transition_legal t.state p.to ≡ true) × (unexpected x t.state ≡ false)
unfolding validate change_guard
validate-ok-legal s r x p t good q found = ground arith

-- Events of the other kinds leave the tasks.
abbrev pub KeepsTasks : EventBody → Type 0
KeepsTasks (task_created p) = ⊥
KeepsTasks (task_state_changed p) = ⊥
KeepsTasks _ = Unit {0}

pub reduce-KeepsTasks :
    (s : RunState) (e : RunEvent) → KeepsTasks e.body → (reduce s e).tasks ≡ s.tasks
unfolding reduce
reduce-KeepsTasks s e h = ground arith

pub reduce-created :
    (s : RunState) (e : RunEvent) (p : TaskCreatedPayload)
    → e.body ≡ task_created p
    → (reduce s e).tasks
      ≡ insert p.task_id (record { state = queued; owner_actor = p.owner_actor }) s.tasks
unfolding reduce
reduce-created s e p q = ground arith

pub reduce-changed :
    (s : RunState) (e : RunEvent) (p : TaskStateChangedPayload) (t : RunStateTask)
    → e.body ≡ task_state_changed p
    → lookup p.task_id s.tasks ≡ some t
    → (reduce s e).tasks
      ≡ insert p.task_id (record { state = p.to; owner_actor = t.owner_actor }) s.tasks
unfolding reduce
reduce-changed s e p t q found = ground arith

-- What a submission that changes a task's state went by.
pub record LegalChange (ctx : SubmitContext) (k k' : Kernel) (p : TaskStateChangedPayload)
    : Type 0 where
  pub task : RunStateTask
  pub existed : lookup p.task_id k.state.tasks ≡ some task
  pub recorded : p.from ≡ task.state
  pub legal : transition_legal p.from p.to ≡ true
  pub expected : unexpected ctx.expected_task_state p.from ≡ false
  pub moved :
      lookup p.task_id k'.state.tasks
      ≡ some (record { state = p.to; owner_actor = task.owner_actor })

module _ (h : Host) (k k' : Kernel) (raw : Value) (ctx : SubmitContext) (e : RunEvent) where
  granted-LegalChange :
      (r : ProtocolRequest) (p : TaskStateChangedPayload)
      → validate k.state r ctx.expected_task_state ≡ ValidationResult.ok
      → Effect h k.state r.body e.body
      → e.body ≡ task_state_changed p
      → k'.state ≡ reduce k.state e
      → LegalChange ctx k k' p
  granted-LegalChange r p valid (appended q id _ b) is_p reduced = absurd (cc (b, is_p))
  granted-LegalChange r p valid (created q n _ b) is_p reduced = absurd (cc (b, is_p))
  granted-LegalChange r p valid (published q id _ b) is_p reduced = absurd (cc (b, is_p))
  granted-LegalChange r p valid (finished q time _ b) is_p reduced = absurd (cc (b, is_p))
  granted-LegalChange r p valid (changed q t asked found b) is_p reduced =
      let checked = validate-ok-legal k.state r ctx.expected_task_state q t valid asked found in
      let same : p ≡ record { task_id = q.task_id; from = t.state; to = q.to } = cc (b, is_p) in
      rw same (record {
        task = t;
        existed = found;
        recorded = refl;
        legal = checked.0;
        expected = checked.1;
        moved = rw (reduced, reduce-changed k.state e _ t b found, lookup-insert, eq_refl);
      })

  -- If a submission yields a change of a task's state, the task existed in the recorded state, the
  -- transition is legal, a state that the caller expected is the recorded one, and the task is
  -- left in the new state with its owner.
  pub submit-LegalChange :
      (p : TaskStateChangedPayload)
      → submit h raw ctx k ≡ (returned e, k')
      → e.body ≡ task_state_changed p
      → LegalChange ctx k k' p
  submit-LegalChange p q is_p =
      let (committed, origin, good) = submit-ok h k k' e raw ctx q in by_origin committed origin
    where
      by_origin : Committed k k' e → Origin h k raw ctx e → LegalChange ctx k k' p
      by_origin c (granted r _ valid a) = granted-LegalChange r p valid a.effect is_p c.reduced
      by_origin c (refused r reason detail _ _ a) = absurd (cc (a.told, is_p))
      by_origin c (unparsed _ a) = absurd (cc (a.told, is_p))

module _ (h : Host) (id : String) (t : RunStateTask) (done : terminal t.state ≡ true) where
  abbrev Rests : Kernel → Type 0
  Rests k = lookup id k.state.tasks ≡ some t

  granted-Rests :
      (k k' : Kernel) (e : RunEvent) (r : ProtocolRequest) (x : Option TaskState)
      → ((n : ℕ) → h.next_id n ≢ id)
      → validate k.state r x ≡ ValidationResult.ok
      → Effect h k.state r.body e.body
      → k'.state ≡ reduce k.state e
      → Rests k
      → Rests k'
  granted-Rests k k' e r x other valid (appended q m _ b) reduced v =
      rw (reduced, reduce-KeepsTasks k.state e (rw b tt)) v
  granted-Rests k k' e r x other valid (published q m _ b) reduced v =
      rw (reduced, reduce-KeepsTasks k.state e (rw b tt)) v
  granted-Rests k k' e r x other valid (finished q m _ b) reduced v =
      rw (reduced, reduce-KeepsTasks k.state e (rw b tt)) v
  granted-Rests k k' e r x other valid (created q n _ b) reduced v =
      rw (reduced, reduce-created k.state e _ b, lookup-insert)
        (ground (arith, other n, eq_iff (h.next_id n) id, v))
  granted-Rests k k' e r x other valid (changed q t' asked found b) reduced v =
      rw (reduced, reduce-changed k.state e _ t' b found, lookup-insert)
        (elim (Bool-cases (q.task_id == id)) [
          | inl same ↦ absurd (moved_on same)
          | inr differs ↦ rw differs v
        ])
    where
      moved_on : (q.task_id == id) ≡ true → ⊥
      moved_on same =
          let is_id : q.task_id ≡ id = (eq_iff _ _).0 same in
          let is_t : t' ≡ t = cc (is_id, found, v) in
          let legal = validate-ok-legal k.state r x q t' valid asked found in
          cc (legal-not_terminal t'.state q.to legal.0, done, is_t)

  pub Move-Rests : (k k' : Kernel) → ((n : ℕ) → h.next_id n ≢ id) → Move h k k' → Rests k → Rests k'
  Move-Rests k k' other (quiet state log) v = rw state v
  Move-Rests k k' other (logs e c good (started payload b _ _)) v =
      rw (c.reduced, reduce-KeepsTasks k.state e (rw b tt)) v
  Move-Rests k k' other (logs e c good (requested raw ctx origin)) v = by_origin origin
    where
      by_origin : Origin h k raw ctx e → Rests k'
      by_origin (granted r _ valid a) =
          granted-Rests k k' e r ctx.expected_task_state other valid a.effect c.reduced v
      by_origin (refused r reason detail _ _ a) =
          rw (c.reduced, reduce-KeepsTasks k.state e (rw a.told tt)) v
      by_origin (unparsed _ a) = rw (c.reduced, reduce-KeepsTasks k.state e (rw a.told tt)) v

  -- A task in a terminal state is never changed again, whatever calls follow, as long as the id
  -- provider does not draw its id.
  pub terminal_task_rests :
      (k k' : Kernel)
      → ((n : ℕ) → h.next_id n ≢ id)
      → lookup id k.state.tasks ≡ some t
      → Reaches h k k'
      → lookup id k'.state.tasks ≡ some t
  terminal_task_rests k k' other v reach =
      Reaches-invariant h Rests (λ j j'. Move-Rests j j' other) v reach
