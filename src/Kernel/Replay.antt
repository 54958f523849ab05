-- ===== src/Kernel/Replay.antt =====
-- The log is the record of the run: the state is what replaying the log gives, the sequence numbers
-- have no gap, and no event id stands twice.
use pluto_agent_platform.Common.{
  ℕ, List, String, ◌∷◌, map, ◌≡◌, ◌++◌, suc, false, ◌+◌, [], length, arith, length-append, refl,
  eq_iff, ap, ◌∙◌, sym,
}
use mathlib.Core.List.{map-append}
use pluto_agent_platform.Kernel.Host.{Host, Kernel, new_kernel}
use pluto_agent_platform.Kernel.Reducer.{reduce_all, reduce}
use pluto_agent_platform.Protocol.Event.{RunEvent}
use pluto_agent_platform.Authority.State.{RunState}
use pluto_agent_platform.Common.Dict.{has, has-append, add_fresh}
use pluto_agent_platform.Common.Int.{pred_ℕ, suc_ℤ, suc_ℤ-pred_ℕ, minus_one}
use pluto_agent_platform.Kernel.Log.{head, empty_log, returned}
use pluto_agent_platform.Kernel.Outcome.{Committed}
use pluto_agent_platform.Kernel.Move.{Move, quiet, logs, Reaches, Reaches-invariant}

abbrev pub Contiguous : ℕ → List RunEvent → Type 0
Contiguous n [] = Unit
Contiguous n (e ∷ es) = (e.sequence ≡ n) × Contiguous (suc n) es

abbrev pub Distinct : List String → Type 0
Distinct [] = Unit
Distinct (x ∷ xs) = (has xs x ≡ false) × Distinct xs

abbrev pub ids_of : List RunEvent → List String
ids_of = map (λ e. e.event_id)

Contiguous-snoc :
    (n : ℕ) (es : List RunEvent) (e : RunEvent)
    → Contiguous n es
    → e.sequence ≡ n + length es
    → Contiguous n (es ++ e ∷ [])
Contiguous-snoc n [] e c q = (omega arith, tt)
Contiguous-snoc n (x ∷ es) e c q = (c.0, Contiguous-snoc (suc n) es e c.1 (omega arith))

pub Distinct-snoc :
    (xs : List String) (a : String) → Distinct xs → has xs a ≡ false → Distinct (xs ++ a ∷ [])
Distinct-snoc [] a d h = (refl, tt)
Distinct-snoc (x ∷ xs) a d h = (
  ground (arith, has-append xs (a ∷ []) x, eq_iff a x, eq_iff x a),
  Distinct-snoc xs a d.1 (ground arith),
)

reduce_all-snoc :
    (s : RunState) (es : List RunEvent) (e : RunEvent)
    → reduce_all s (es ++ e ∷ []) ≡ reduce (reduce_all s es) e
unfolding reduce_all
reduce_all-snoc s [] e = refl
reduce_all-snoc s (x ∷ es) e = reduce_all-snoc (reduce s x) es e

pub reduce-sequence : (s : RunState) (e : RunEvent) → (reduce s e).sequence ≡ suc_ℤ s.sequence
unfolding reduce
reduce-sequence s e = ground arith

head-snoc :
    (es : List RunEvent) (e : RunEvent)
    → pred_ℕ (length (es ++ e ∷ [])) ≡ suc_ℤ (pred_ℕ (length es))
head-snoc es e = rw (length-append es (e ∷ []), suc_ℤ-pred_ℕ (length es)) (ap pred_ℕ one_more)
  where
    one_more : length es + length (e ∷ []) ≡ suc (length es)
    one_more = omega arith

pub record IsReplay (initial : RunState) (k : Kernel) : Type 0 where
  pub replayed : k.state ≡ reduce_all initial k.log.events
  pub contiguous : Contiguous 0 k.log.events
  pub ids : k.log.event_ids ≡ ids_of k.log.events
  pub distinct : Distinct k.log.event_ids
  pub at_head : k.state.sequence ≡ head k.log

module _ {initial : RunState} {k k' : Kernel} {e : RunEvent} (v : IsReplay initial k)
    (c : Committed k k' e) where
  known_ids : k'.log.event_ids ≡ k.log.event_ids ++ e.event_id ∷ []
  known_ids = c.known ∙ add_fresh k.log.event_ids e.event_id c.fresh

  Committed-IsReplay : IsReplay initial k'
  unfolding head
  Committed-IsReplay = record {
    replayed =
        c.reduced
        ∙ ap (λ s. reduce s e) v.replayed
        ∙ sym (reduce_all-snoc initial k.log.events e)
        ∙ ap (reduce_all initial) (sym c.logged);
    contiguous =
        rw c.logged (Contiguous-snoc 0 k.log.events e v.contiguous (omega (arith, c.numbered)));
    ids =
        known_ids
        ∙ ap (λ ids. ids ++ e.event_id ∷ []) v.ids
        ∙ sym (map-append (λ x. x.event_id) k.log.events (e ∷ []))
        ∙ ap ids_of (sym c.logged);
    distinct = rw known_ids (Distinct-snoc k.log.event_ids e.event_id v.distinct c.fresh);
    at_head =
        ap (λ s. s.sequence) c.reduced
        ∙ reduce-sequence k.state e
        ∙ ap suc_ℤ v.at_head
        ∙ sym (head-snoc k.log.events e)
        ∙ ap (λ es. pred_ℕ (length es)) (sym c.logged);
  }

pub Move-IsReplay :
    (h : Host) (initial : RunState) (k k' : Kernel)
    → Move h k k'
    → IsReplay initial k
    → IsReplay initial k'
unfolding head
Move-IsReplay h initial k k' (quiet state log) v = record {
  replayed = rw (state, log) v.replayed;
  contiguous = rw log v.contiguous;
  ids = rw log v.ids;
  distinct = rw log v.distinct;
  at_head = rw (state, log) v.at_head;
}
Move-IsReplay h initial k k' (logs e c good source) v = Committed-IsReplay v c

-- A kernel made over the empty log from a state whose sequence is -1.
pub new_kernel-IsReplay :
    (initial : RunState) (drawn ticks : ℕ) (k : Kernel)
    → initial.sequence ≡ minus_one
    → new_kernel initial empty_log drawn ticks ≡ returned k
    → IsReplay initial k
unfolding new_kernel reduce_all head
new_kernel-IsReplay initial drawn ticks k first made =
    let is_k : k ≡ record { state = initial; log = empty_log; drawn = drawn; ticks = ticks } =
      ground arith in
    rw is_k
      (record { replayed = refl; contiguous = tt; ids = refl; distinct = tt; at_head = first })

-- Whatever calls a new run gets, its state is the replay of its log from the initial state, the log's
-- sequence numbers count up from 0 without a gap, every event id stands once, and the
-- state's sequence is that of the last event.
pub Reaches-IsReplay :
    (h : Host) (initial : RunState) (drawn ticks : ℕ) (start k : Kernel)
    → initial.sequence ≡ minus_one
    → new_kernel initial empty_log drawn ticks ≡ returned start
    → Reaches h start k
    → IsReplay initial k
Reaches-IsReplay h initial drawn ticks start k first made r =
    Reaches-invariant h (IsReplay initial) (Move-IsReplay h initial)
      (new_kernel-IsReplay initial drawn ticks start first made) r
