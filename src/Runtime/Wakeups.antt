-- ===== src/Runtime/Wakeups.antt =====
-- No wakeup is lost: the registry beside the log, with the notifications that have not run yet. Events
-- are appended and notified in separate steps, and other operations come between.
use pluto_agent_platform.Common.{
  ℕ, String, Bool, true, false, not, List, [], ◌∷◌, ◌++◌, ◌≡◌, inl, inr, refl, none, some, Option,
  Bool-cases, Option-cases, ap, subst, nat_eq,
}
use pluto_agent_platform.Common.Int.{ℤ}
use pluto_agent_platform.Common.Dict.{lookup}
use pluto_agent_platform.Common.Members.{
  Member, Member-remove, Member-filter, Member-append, append-Member_left, append-Member_last,
}
use pluto_agent_platform.Protocol.Actor.{ActorRef, actor_key}
use pluto_agent_platform.Protocol.Event.{RunEvent}
use pluto_agent_platform.Runtime.Waits.{
  Registry, WaitTicket, WaitOutcome, WaitTraceEvent, Effects, wakes, wakes_entry, latest_of,
  latest_visible_event_since, ArmInput, arm, arm_at, park, ticket_for, release, replace_parked,
  time_out, notify, cancel_all, cancel_for_actor,
}

-- The log, the notifications that are queued for the critical section, and the registry.
pub record World : Type 0 where
  pub log : List RunEvent
  pub queued : List RunEvent
  pub registry : Registry

abbrev pub with_registry : World → Registry → World
with_registry w r = record w { registry = r }

-- One step: an event is appended and its notification queued, the first queued notification runs, or
-- another operation of the registry does.
pub data Step (w : World) : World → Type 0 where
  appends :
      (e : RunEvent) → Step w (record w { log = w.log ++ e ∷ []; queued = w.queued ++ e ∷ [] })
  notifies :
      (e : RunEvent) (rest : List RunEvent)
      → w.queued ≡ e ∷ rest
      → Step w (record w { queued = rest; registry = (notify e w.log w.registry).registry })
  arms :
      (views : Bool) (input : ArmInput)
      → Step w (with_registry w (arm w.log views input w.registry).1.registry)
  times_out :
      (key : String) (armed_at : ℕ)
      → Step w (with_registry w (time_out key armed_at w.registry).registry)
  cancels :
      (actor : ActorRef) (reason : String)
      → Step w (with_registry w (cancel_for_actor actor reason w.registry).registry)
  cancels_all : (reason : String) → Step w (with_registry w (cancel_all reason w.registry).registry)

pub data Runs (start : World) : World → Type 0 where
  stays : Runs start start
  then_step : {w w' : World} → Runs start w → Step w w' → Runs start w'

-- The entries of a registry are among those of another.
abbrev Within : Registry → Registry → Type 0
Within r r' = (entry : String × WaitTicket) → Member entry r.parked → Member entry r'.parked

-- An actor that arms when the log has nothing for it has nothing to be woken by.
latest_of-some :
    (es : List RunEvent) (e : RunEvent) (a : ActorRef) (from : ℤ)
    → ¬ (latest_of (some e) es a from ≡ none)
latest_of-some [] e a from h = cc (h)
latest_of-some (x ∷ es) e a from h = elim (Bool-cases (wakes a from x)) [
  | inl hit ↦ latest_of-some es x a from (rw (hit, latest_of) at h)
  | inr miss ↦ latest_of-some es e a from (rw (miss, latest_of) at h)
]

latest_of-none :
    (es : List RunEvent) (a : ActorRef) (from : ℤ)
    → latest_of none es a from ≡ none
    → (e : RunEvent) → Member e es
    → wakes a from e ≡ false
latest_of-none [] a from h e m = absurd m
latest_of-none (x ∷ es) a from h e m = elim (Bool-cases (wakes a from x)) [
  | inl hit ↦ absurd (latest_of-some es x a from (rw (hit, latest_of) at h))
  | inr miss ↦ elim m [
    | inl same ↦ rw same miss
    | inr later ↦ latest_of-none es a from (rw (miss, latest_of) at h) e later
  ]
]

-- Every event of the log that would wake a parked actor is still queued.
abbrev pub Covered : World → Type 0
Covered w =
    (entry : String × WaitTicket)
    → Member entry w.registry.parked
    → (e : RunEvent) → Member e w.log
    → wakes_entry e entry ≡ true
    → Member e w.queued

-- Operations that only take waits out keep it.
Covered-fewer :
    (w : World) (r : Registry) → Within r w.registry → Covered w → Covered (with_registry w r)
Covered-fewer w r fewer c entry m = c entry (fewer entry m)

release-Within :
    (key : String) (o : Option WaitTicket) (outcome : WaitOutcome) (trace : WaitTraceEvent)
    (r : Registry)
    → Within (release key o outcome trace r).registry r
release-Within key none outcome trace r entry m = m
release-Within key (some t) outcome trace r entry m = Member-remove key r.parked entry m

time_out-Within :
    (key : String) (armed_at : ℕ) (r : Registry) → Within (time_out key armed_at r).registry r
unfolding time_out
time_out-Within key armed_at r entry m = elim (Option-cases (lookup key r.parked)) [
  | inl absent ↦ rw (absent, time_out) at m
  | inr (t, found) ↦ elim (Bool-cases (nat_eq t.armed_at armed_at)) [
    | inl hit ↦ Member-remove key r.parked entry (rw (found, hit, time_out) at m)
    | inr miss ↦ rw (found, miss, time_out) at m
  ]
]

Covered-appends :
    (w : World) (e : RunEvent)
    → Covered w
    → Covered (record w { log = w.log ++ e ∷ []; queued = w.queued ++ e ∷ [] })
Covered-appends w e c entry m x n h = elim (Member-append w.log (e ∷ []) x n) [
  | inl old ↦ append-Member_left w.queued (e ∷ []) x (c entry m x old h)
  | inr (inl new) ↦ rw new (append-Member_last w.queued e)
  | inr (inr none_left) ↦ absurd none_left
]

Covered-notifies :
    (w : World) (e : RunEvent) (rest : List RunEvent)
    → w.queued ≡ e ∷ rest
    → Covered w
    → Covered (record w { queued = rest; registry = (notify e w.log w.registry).registry })
unfolding notify
Covered-notifies w e rest q c entry m x n h =
    let (before, unwoken) = Member-filter (λ z. not (wakes_entry e z)) w.registry.parked entry m in
    elim (rw q at (c entry before x n h)) [
      | inl same ↦
          let woken : wakes_entry e entry ≡ true = subst (λ z. wakes_entry z entry ≡ true) same h in
          absurd (cc (ap not woken, unwoken))
      | inr later ↦ later
    ]

replace_parked-Within : (key : String) (r : Registry) → Within (replace_parked key r).registry r
unfolding replace_parked
replace_parked-Within key r = release-Within key (lookup key r.parked) _ _ r

Covered-parks :
    (w : World) (key : String) (t : WaitTicket) (done : Effects)
    → latest_of none w.log t.actor t.from_sequence ≡ none
    → Within done.registry w.registry
    → Covered w
    → Covered (with_registry w (park key t done).registry)
Covered-parks w key t done nothing fewer c entry m x n h =
    elim (Member-append done.registry.parked ((key, t) ∷ []) entry m) [
      | inl old ↦ c entry (fewer entry old) x n h
      | inr (inl new) ↦
          let asleep = latest_of-none w.log t.actor t.from_sequence nothing x n in
          let woken : wakes t.actor t.from_sequence x ≡ true =
            subst (λ z. wakes_entry x z ≡ true) new h in
          absurd (cc (asleep, woken))
      | inr (inr none_left) ↦ absurd none_left
    ]

Covered-arm_at :
    (w : World) (views : Bool) (input : ArmInput) (o : Option RunEvent) (done : Effects)
    → latest_of none w.log input.actor input.from_sequence ≡ o
    → Within done.registry w.registry
    → Covered w
    → Covered (with_registry w (arm_at w.log views input o done).1.registry)
Covered-arm_at w true input (some e) done q fewer c = Covered-fewer w done.registry fewer c
Covered-arm_at w false input (some e) done q fewer c = Covered-fewer w done.registry fewer c
Covered-arm_at w views input none done q fewer c =
    Covered-parks w (actor_key input.actor) (ticket_for input done.registry) done q fewer c

Covered-arms :
    (w : World) (views : Bool) (input : ArmInput)
    → Covered w
    → Covered (with_registry w (arm w.log views input w.registry).1.registry)
unfolding arm latest_visible_event_since
Covered-arms w views input c =
    Covered-arm_at w views input (latest_visible_event_since w.log input.actor input.from_sequence)
      (replace_parked (actor_key input.actor) w.registry) refl
      (replace_parked-Within (actor_key input.actor) w.registry) c

Step-Covered : (w w' : World) → Step w w' → Covered w → Covered w'
unfolding cancel_for_actor cancel_all
Step-Covered w w' (appends e) c = Covered-appends w e c
Step-Covered w w' (notifies e rest q) c = Covered-notifies w e rest q c
Step-Covered w w' (arms views input) c = Covered-arms w views input c
Step-Covered w w' (times_out key armed_at) c =
    Covered-fewer w (time_out key armed_at w.registry).registry
      (time_out-Within key armed_at w.registry) c
Step-Covered w w' (cancels actor reason) c =
    Covered-fewer w (cancel_for_actor actor reason w.registry).registry
      (release-Within (actor_key actor) _ _ _ w.registry) c
Step-Covered w w' (cancels_all reason) c =
    Covered-fewer w (cancel_all reason w.registry).registry (λ entry m. absurd m) c

Runs-Covered : (start w : World) → Runs start w → Covered start → Covered w
Runs-Covered start w stays c = c
Runs-Covered start w (then_step r s) c = Step-Covered _ _ s (Runs-Covered start _ r c)

-- No wakeup is lost: from an empty registry, whatever operations run and in whatever order, once
-- the notification of every appended event has run, no event of the log comes after the sequence
-- of a parked wait and is visible to its actor.
pub no_lost_wakeup :
    (start w : World)
    → start.registry.parked ≡ []
    → Runs start w
    → w.queued ≡ []
    → (key : String) (t : WaitTicket) → Member (key, t) w.registry.parked
    → (e : RunEvent) → Member e w.log
    → wakes t.actor t.from_sequence e ≡ false
no_lost_wakeup start w empty r idle key t m e n =
    elim (Bool-cases (wakes t.actor t.from_sequence e)) [
      | inr asleep ↦ asleep
      | inl woken ↦ absurd (rw idle at (Runs-Covered start w r begin (key, t) m e n woken))
    ]
  where
    begin : Covered start
    begin entry m = absurd (rw empty at m)
