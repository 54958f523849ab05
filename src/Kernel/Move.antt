-- ===== src/Kernel/Move.antt =====
-- Every call of the kernel is a move: a quiet one, or one that commits an event with a source. The
-- invariants below are proved from the moves alone.
use pluto_agent_platform.Common.{◌≡◌, none, [], true, refl}
use pluto_agent_platform.Kernel.Host.{Host, Kernel}
use pluto_agent_platform.Protocol.Event.{RunEvent, RunStartedPayload, run_started}
use pluto_agent_platform.Kernel.Build.{SubmitContext}
use pluto_agent_platform.Kernel.Outcome.{Committed, Origin, submit-ok, seed_run_started-ok}
use pluto_agent_platform.Protocol.Parse.{Value}
use pluto_agent_platform.Kernel.Submit.{seed_run_started, submit}
use pluto_agent_platform.Protocol.Schema.{run_event_ok}
use pluto_agent_platform.Kernel.Log.{Result, returned, thrown, Fault}
use pluto_agent_platform.Kernel.Atomic.{
  KeepsOnThrow, submit-KeepsOnThrow, seed_run_started-KeepsOnThrow,
}

-- What an event of the log answers.
pub data Source (h : Host) (k : Kernel) (e : RunEvent) : Type 0 where
  started :
      (payload : RunStartedPayload)
      → e.body ≡ run_started payload
      → e.accepted_request_key ≡ none
      → k.log.events ≡ []
      → Source h k e
  requested : (raw : Value) (ctx : SubmitContext) → Origin h k raw ctx e → Source h k e

pub data Move (h : Host) (k k' : Kernel) : Type 0 where
  quiet : k'.state ≡ k.state → k'.log ≡ k.log → Move h k k'
  logs :
      (e : RunEvent) → Committed k k' e → run_event_ok h.zod e ≡ true → Source h k e → Move h k k'

-- What a submission answers, and with which kernel.
pub data Answers (h : Host) (raw : Value) (ctx : SubmitContext) (k : Kernel)
    : Result RunEvent × Kernel → Type 0 where
  throws :
      (f : Fault) (k' : Kernel)
      → k'.state ≡ k.state
      → k'.log ≡ k.log
      → Answers h raw ctx k (thrown f, k')
  answers :
      (e : RunEvent) (k' : Kernel)
      → Committed k k' e
      → run_event_ok h.zod e ≡ true
      → Origin h k raw ctx e
      → Answers h raw ctx k (returned e, k')

module _ (h : Host) (ctx : SubmitContext) (k : Kernel) where
  -- Every submission, whatever the raw value, either throws and leaves the state and the log as they are,
  -- or returns an event that it has committed: the event has a new id and the next sequence number, passes
  -- the event schema, is the last of the log, is reduced into the state, and accepts the request, which the
  -- validator found valid, or rejects it for the validator's reason or as one that does not parse.
  pub submit-Answers : (raw : Value) → Answers h raw ctx k (submit h raw ctx k)
  submit-Answers raw = go (submit h raw ctx k) refl (submit-KeepsOnThrow h ctx k raw)
    where
      go :
          (x : Result RunEvent × Kernel)
          → submit h raw ctx k ≡ x
          → KeepsOnThrow k x
          → Answers h raw ctx k x
      go (returned e, k') q t =
          let (committed, origin, good) = submit-ok h k k' e raw ctx q in
          answers e k' committed good origin
      go (thrown f, k') q t = throws f k' t.0 t.1

  pub submit-Move : (raw : Value) → Move h k (submit h raw ctx k).1
  submit-Move raw = go (submit h raw ctx k) (submit-Answers raw)
    where
      go : (x : Result RunEvent × Kernel) → Answers h raw ctx k x → Move h k x.1
      go _ (throws f k' state log) = quiet state log
      go _ (answers e k' committed good origin) = logs e committed good (requested raw ctx origin)

  pub seed_run_started-Move :
      (payload : RunStartedPayload) → Move h k (seed_run_started h payload ctx k).1
  seed_run_started-Move payload =
      go (seed_run_started h payload ctx k) refl (seed_run_started-KeepsOnThrow h ctx k payload)
    where
      go :
          (x : Result RunEvent × Kernel)
          → seed_run_started h payload ctx k ≡ x
          → KeepsOnThrow k x
          → Move h k x.1
      go (returned e, k') q t =
          let (seeds, empty) = seed_run_started-ok h k k' e payload ctx q in
          logs e seeds.committed seeds.well_formed
            (started payload seeds.started seeds.keyless empty)
      go (thrown f, k') q t = quiet t.0 t.1

-- The kernels that calls lead to, those that throw included.
pub data Reaches (h : Host) (start : Kernel) : Kernel → Type 0 where
  here : Reaches h start start
  seeds :
      {k : Kernel}
      → Reaches h start k
      → (payload : RunStartedPayload) (ctx : SubmitContext)
      → Reaches h start (seed_run_started h payload ctx k).1
  submits :
      {k : Kernel}
      → Reaches h start k
      → (raw : Value) (ctx : SubmitContext) → Reaches h start (submit h raw ctx k).1

-- What every move keeps holds of every kernel that is reached.
pub Reaches-invariant :
    (h : Host) (P : Kernel → Type 0)
    → ((k k' : Kernel) → Move h k k' → P k → P k')
    → {start k : Kernel} → P start
    → Reaches h start k
    → P k
Reaches-invariant h P keep p here = p
Reaches-invariant h P keep p (seeds {k} r payload ctx) =
    keep k _ (seed_run_started-Move h ctx k payload) (Reaches-invariant h P keep p r)
Reaches-invariant h P keep p (submits {k} r raw ctx) =
    keep k _ (submit-Move h ctx k raw) (Reaches-invariant h P keep p r)
