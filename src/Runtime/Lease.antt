-- ===== src/Runtime/Lease.antt =====
-- mcp/turn-lease.ts: the actor that may act, and the one mutation that it has. The closure's two
-- variables are a record.
use pluto_agent_platform.Common.{
  ℕ, zero, suc, Bool, true, false, ◌≡◌, refl, Option, none, some, List, [], ◌∷◌, ◌||◌,
  if◌then◌else◌, ap, ◌↔◌,
}
use pluto_agent_platform.Protocol.Actor.{ActorRef, same_actor}
use pluto_agent_platform.Protocol.Keys.{same_actor_iff}

pub record TurnLease : Type 0 where
  pub current_actor : Option ActorRef
  pub mutation_consumed : Bool

abbrev pub make_turn_lease : Option ActorRef → TurnLease
make_turn_lease initial = record { current_actor = initial; mutation_consumed = false }

unfoldable pub set_current : Option ActorRef → TurnLease → TurnLease
set_current actor lease = record { current_actor = actor; mutation_consumed = false }

abbrev holds : Option ActorRef → ActorRef → Bool
holds none actor = false
holds (some a) actor = same_actor a actor

unfoldable pub matches : TurnLease → ActorRef → Bool
unfolding same_actor
matches lease actor = holds lease.current_actor actor

abbrev absent : Option ActorRef → Bool
absent none = true
absent (some a) = false

unfoldable pub consume_mutation : TurnLease → Bool × TurnLease
consume_mutation lease =
    if absent lease.current_actor || lease.mutation_consumed
    then (false, lease)
    else (true, record lease { mutation_consumed = true })

-- The calls of a lease, and the answers of its `consumeMutation` calls.
pub data Call : Type 0 where
  sets : Option ActorRef → Call
  consumes : Call

unfoldable pub answers : TurnLease → List Call → List Bool
unfolding set_current consume_mutation
answers lease [] = []
answers lease (sets actor ∷ calls) = answers (set_current actor lease) calls
answers lease (consumes ∷ calls) =
    let (answer, next) = consume_mutation lease in answer ∷ answers next calls

abbrev pub consumed_times : ℕ → List Call
consumed_times zero = []
consumed_times (suc n) = consumes ∷ consumed_times n

abbrev pub all_false : ℕ → List Bool
all_false zero = []
all_false (suc n) = false ∷ all_false n

spent-answers :
    (lease : TurnLease) (n : ℕ)
    → (absent lease.current_actor || lease.mutation_consumed) ≡ true
    → answers lease (consumed_times n) ≡ all_false n
unfolding answers
spent-answers lease zero h = refl
spent-answers lease (suc n) h = rw h (ap (λ rest. false ∷ rest) (spent-answers lease n h))

-- After the turn is set to an actor, and until it is set again, exactly the first attempt to consume
-- the mutation succeeds; without an actor none does.
pub answers-once :
    (lease : TurnLease) (actor : ActorRef) (n : ℕ)
    → (answers lease (sets (some actor) ∷ consumed_times (suc n)) ≡ true ∷ all_false n)
      × (answers lease (sets none ∷ consumed_times n) ≡ all_false n)
unfolding answers
answers-once lease actor n = (
  ap (λ rest. true ∷ rest)
      (spent-answers (record { current_actor = some actor; mutation_consumed = true }) n refl),
  spent-answers (record { current_actor = none; mutation_consumed = false }) n refl,
)

-- A lease matches exactly the actor that it is set to.
pub matches_iff :
    (lease : TurnLease) (actor : ActorRef)
    → (matches lease actor ≡ true) ↔ (lease.current_actor ≡ some actor)
unfolding matches
matches_iff lease actor = (to lease.current_actor refl, from)
  where
    to : (o : Option ActorRef) → lease.current_actor ≡ o → holds o actor ≡ true → o ≡ some actor
    to none q h = absurd (cc (h))
    to (some a) q h = ap some ((same_actor_iff a actor).0 h)

    from : lease.current_actor ≡ some actor → holds lease.current_actor actor ≡ true
    from q = rw q ((same_actor_iff actor actor).1 refl)
