-- ===== src/Runtime/Parked.antt =====
-- At most one wait is parked for an actor.
use pluto_agent_platform.Common.{
  String, Bool, true, false, not, List, [], ◌∷◌, ◌++◌, map, filter, ◌≡◌, inl, inr, refl, none, some,
  Option, arith, ap, Bool-cases, Option-cases, ◌==◌, nat_eq, ℕ,
}
use mathlib.Core.List.{map-append}
use pluto_agent_platform.Common.Dict.{has, remove, lookup}
use pluto_agent_platform.Kernel.Replay.{Distinct, Distinct-snoc}
use pluto_agent_platform.Protocol.Actor.{actor_key}
use pluto_agent_platform.Protocol.Event.{RunEvent}
use pluto_agent_platform.Runtime.Waits.{
  Registry, WaitTicket, WaitOutcome, WaitTraceEvent, Effects, with_parked, ticket_for, ArmInput,
  arm, arm_at, release, replace_parked, time_out, notify, cancel_all, cancel_for_actor,
}
use pluto_agent_platform.Runtime.Wakeups.{
  World, Step, appends, notifies, arms, times_out, cancels, cancels_all, Runs, stays, then_step,
}

abbrev pub keys_of : List (String × WaitTicket) → List String
keys_of = map (λ entry. entry.0)

-- Every wait is parked under the key of its actor.
abbrev pub Keyed : List (String × WaitTicket) → Type 0
Keyed [] = Unit
Keyed (entry ∷ parked) = (entry.0 ≡ actor_key entry.1.actor) × Keyed parked

abbrev Single : Registry → Type 0
Single r = Distinct (keys_of r.parked) × Keyed r.parked

has-keys_of-filter :
    (p : String × WaitTicket → Bool) (parked : List (String × WaitTicket)) (k : String)
    → has (keys_of parked) k ≡ false
    → has (keys_of (filter p parked)) k ≡ false
has-keys_of-filter p [] k h = h
has-keys_of-filter p (x ∷ parked) k h = ground (arith, has-keys_of-filter p parked k)

filter-Single :
    (p : String × WaitTicket → Bool) (parked : List (String × WaitTicket))
    → Distinct (keys_of parked)
    → Keyed parked
    → Distinct (keys_of (filter p parked)) × Keyed (filter p parked)
filter-Single p [] d k = (tt, tt)
filter-Single p (x ∷ parked) d k = elim (Bool-cases (p x)) [
  | inl hit ↦
      let (d', k') = filter-Single p parked d.1 k.1 in
      rw hit ((has-keys_of-filter p parked x.0 d.0, d'), (k.0, k'))
  | inr miss ↦ rw miss (filter-Single p parked d.1 k.1)
]

-- Deleting a key is a filter.
remove-filter :
    (key : String) (parked : List (String × WaitTicket))
    → remove key parked ≡ filter (λ x. not (x.0 == key)) parked
unfolding remove
remove-filter key [] = refl
remove-filter key (x ∷ parked) = elim (Bool-cases (x.0 == key)) [
  | inl gone ↦ rw gone (remove-filter key parked)
  | inr other ↦ rw other (ap (λ rest. x ∷ rest) (remove-filter key parked))
]

removed-absent :
    (key : String) (parked : List (String × WaitTicket))
    → has (keys_of (remove key parked)) key ≡ false
unfolding remove
removed-absent key [] = refl
removed-absent key (x ∷ parked) = elim (Bool-cases (x.0 == key)) [
  | inl gone ↦ rw gone (removed-absent key parked)
  | inr other ↦ rw (other, other) (removed-absent key parked)
]

remove-Single :
    (key : String) (r : Registry) → Single r → Single (with_parked (remove key r.parked) r)
remove-Single key r (d, k) = rw (remove-filter key r.parked) (filter-Single _ r.parked d k)

release-Single :
    (key : String) (o : Option WaitTicket) (outcome : WaitOutcome) (trace : WaitTraceEvent)
    (r : Registry)
    → Single r
    → Single (release key o outcome trace r).registry
release-Single key none outcome trace r v = v
release-Single key (some t) outcome trace r v = remove-Single key r v

lookup-absent :
    (key : String) (parked : List (String × WaitTicket))
    → lookup key parked ≡ none
    → has (keys_of parked) key ≡ false
unfolding lookup
lookup-absent key [] h = refl
lookup-absent key (x ∷ parked) h = elim (Bool-cases (x.0 == key)) [
  | inl hit ↦ absurd (cc (rw hit at h))
  | inr miss ↦ rw miss (lookup-absent key parked (rw miss at h))
]

replace_parked-absent :
    (key : String) (r : Registry) → has (keys_of (replace_parked key r).registry.parked) key ≡ false
unfolding replace_parked
replace_parked-absent key r = elim (Option-cases (lookup key r.parked)) [
  | inl absent ↦ rw absent (lookup-absent key r.parked absent)
  | inr (t, found) ↦ rw found (removed-absent key r.parked)
]

Keyed-append :
    (xs : List (String × WaitTicket)) (x : String × WaitTicket)
    → Keyed xs
    → x.0 ≡ actor_key x.1.actor
    → Keyed (xs ++ x ∷ [])
Keyed-append [] x k q = (q, tt)
Keyed-append (y ∷ xs) x k q = (k.0, Keyed-append xs x k.1 q)

arm_at-Single :
    (events : List RunEvent) (views : Bool) (input : ArmInput) (o : Option RunEvent)
    (done : Effects)
    → has (keys_of done.registry.parked) (actor_key input.actor) ≡ false
    → Single done.registry
    → Single (arm_at events views input o done).1.registry
arm_at-Single events true input (some e) done h v = v
arm_at-Single events false input (some e) done h v = v
arm_at-Single events views input none done h (d, k) =
    let entry : String × WaitTicket = (actor_key input.actor, ticket_for input done.registry) in
    (
      rw (map-append (λ (x : String × WaitTicket). x.0) done.registry.parked (entry ∷ []))
          (Distinct-snoc (keys_of done.registry.parked) (actor_key input.actor) d h),
      Keyed-append done.registry.parked entry k refl,
    )

time_out-Single :
    (key : String) (armed_at : ℕ) (r : Registry)
    → Single r
    → Single (time_out key armed_at r).registry
unfolding time_out
time_out-Single key armed_at r v = elim (Option-cases (lookup key r.parked)) [
  | inl absent ↦ rw (absent, time_out) v
  | inr (t, found) ↦ elim (Bool-cases (nat_eq t.armed_at armed_at)) [
    | inl hit ↦ rw (found, hit, time_out) (remove-Single key r v)
    | inr miss ↦ rw (found, miss, time_out) v
  ]
]

Step-Single : (w w' : World) → Step w w' → Single w.registry → Single w'.registry
unfolding arm notify cancel_for_actor cancel_all replace_parked
Step-Single w w' (appends e) v = v
Step-Single w w' (notifies e rest q) v = filter-Single _ w.registry.parked v.0 v.1
Step-Single w w' (arms views input) v =
    arm_at-Single w.log views input _ (replace_parked (actor_key input.actor) w.registry)
      (replace_parked-absent (actor_key input.actor) w.registry)
      (release-Single (actor_key input.actor) _ _ _ w.registry v)
Step-Single w w' (times_out key armed_at) v = time_out-Single key armed_at w.registry v
Step-Single w w' (cancels actor reason) v = release-Single (actor_key actor) _ _ _ w.registry v
Step-Single w w' (cancels_all reason) v = (tt, tt)

-- From an empty registry, whatever operations run, each parked wait stands under the key of its actor
-- and no key stands twice: an actor has at most one parked wait.
pub one_wait_per_actor :
    (start w : World)
    → start.registry.parked ≡ []
    → Runs start w
    → Distinct (keys_of w.registry.parked) × Keyed w.registry.parked
one_wait_per_actor start w empty stays = rw empty (tt, tt)
one_wait_per_actor start w empty (then_step {w = before} r s) =
    Step-Single before w s (one_wait_per_actor start before empty r)
