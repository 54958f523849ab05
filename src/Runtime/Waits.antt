-- ===== src/Runtime/Waits.antt =====
-- api/wait-registry.ts: actors park until an event that they may see. Each operation runs in the critical
-- section, so it is one step; what it resolves is its result. A ticket's `armedAt` is compared as an
-- object, so it is the number of the object here. The wakeup delta is kept as the arguments of
-- `computeWakeupDelta`, and the times in the traces are left out.
use pluto_agent_platform.Common.{
  ℕ, suc, String, Bool, true, false, not, ◌&&◌, ◌||◌, Option, none, some, List, [], ◌∷◌, ◌++◌, map,
  filter, nat_eq, is_some, if◌then◌else◌,
}
use pluto_agent_platform.Common.Int.{ℤ, pos, leb_ℤ}
use pluto_agent_platform.Common.Dict.{lookup, remove}
use pluto_agent_platform.Protocol.Actor.{ActorRef, actor_key, same_actor, is_lead_actor}
use pluto_agent_platform.Protocol.Event.{
  EventBody, mailbox_message_appended, Outcome, Recipient, broadcast, RunEvent,
}
use pluto_agent_platform.Runtime.Scheduler.{is_accepted}

pub record WaitTicket : Type 0 where
  pub actor : ActorRef
  pub from_sequence : ℤ
  pub armed_at : ℕ
  pub timeout_ms : ℕ

pub record WakeupPayload : Type 0 where
  pub latest_event : RunEvent
  pub events : List RunEvent
  pub from_sequence : ℤ
  pub for_actor : ActorRef

pub data WaitOutcome : Type 0 where
  event : WakeupPayload → WaitOutcome
  timeout : WaitOutcome
  cancelled : String → WaitOutcome

pub data WaitTraceEvent : Type 0 where
  wait_armed : String → ℤ → WaitTraceEvent
  wait_unblocked : String → String → ℕ → WaitTraceEvent
  wait_timed_out : String → ℕ → WaitTraceEvent
  wait_cancelled : String → String → WaitTraceEvent

-- `parkedByActorKey` in order of insertion, and the number of `Date` objects made.
pub record Registry : Type 0 where
  pub parked : List (String × WaitTicket)
  pub armed : ℕ

abbrev pub make_wait_registry : Registry
make_wait_registry = record { parked = []; armed = 0 }

-- What an operation resolves and traces, and the registry behind it.
pub record Effects : Type 0 where
  pub released : List (WaitTicket × WaitOutcome)
  pub traces : List WaitTraceEvent
  pub registry : Registry

abbrev is_broadcast : Recipient → Bool
is_broadcast broadcast = true
is_broadcast _ = false

abbrev concerns : ActorRef → Recipient → Bool
concerns actor (Recipient.actor a) = same_actor a actor
concerns actor broadcast = false

abbrev visible_body : ActorRef → Outcome → EventBody → Bool
visible_body actor outcome (mailbox_message_appended p) =
    if is_lead_actor actor
    then not (is_accepted outcome) || not (is_broadcast p.to_actor)
    else is_accepted outcome
      && not (is_broadcast p.to_actor)
      && (same_actor p.from_actor actor || concerns actor p.to_actor)
visible_body actor outcome _ = true

-- `isVisibleEvent`, with `isVisibleMailboxEvent` at an actor that is not the lead.
unfoldable pub is_visible_event : ActorRef → RunEvent → Bool
unfolding same_actor is_lead_actor
is_visible_event actor e = visible_body actor e.outcome e.body

-- The event is behind the sequence and visible.
unfoldable pub wakes : ActorRef → ℤ → RunEvent → Bool
unfolding is_visible_event
wakes actor from e = not (leb_ℤ (pos e.sequence) from) && is_visible_event actor e

abbrev pub latest_of : Option RunEvent → List RunEvent → ActorRef → ℤ → Option RunEvent
latest_of latest [] actor from = latest
latest_of latest (e ∷ es) actor from =
    latest_of (if wakes actor from e then some e else latest) es actor from

unfoldable pub latest_visible_event_since : List RunEvent → ActorRef → ℤ → Option RunEvent
latest_visible_event_since events actor from = latest_of none events actor from

abbrev pub build_wakeup_payload : ActorRef → ℤ → RunEvent → List RunEvent → WakeupPayload
build_wakeup_payload actor from latest events = record {
  latest_event = latest;
  events = events;
  from_sequence = from;
  for_actor = actor;
}

-- What `arm` gives back: an outcome, a parked promise, or an error.
pub data Armed : Type 0 where
  delivered : WakeupPayload → Armed
  waiting : WaitTicket → Armed
  no_prompt_view : Armed

pub record ArmInput : Type 0 where
  pub actor : ActorRef
  pub from_sequence : ℤ
  pub timeout_ms : ℕ

abbrev pub with_parked : List (String × WaitTicket) → Registry → Registry
with_parked parked r = record r { parked = parked }

-- `releaseParkedWait` with its trace, where a wait of the key is parked.
abbrev pub release : String → Option WaitTicket → WaitOutcome → WaitTraceEvent → Registry → Effects
release key none outcome trace r = record { released = []; traces = []; registry = r }
release key (some t) outcome trace r = record {
  released = (t, outcome) ∷ [];
  traces = trace ∷ [];
  registry = with_parked (remove key r.parked) r;
}

unfoldable pub replace_parked : String → Registry → Effects
unfolding lookup remove
replace_parked key r =
    release key (lookup key r.parked) (cancelled "replaced") (wait_cancelled key "replaced") r

abbrev pub ticket_for : ArmInput → Registry → WaitTicket
ticket_for input r = record {
  actor = input.actor;
  from_sequence = input.from_sequence;
  armed_at = r.armed;
  timeout_ms = input.timeout_ms;
}

abbrev pub park : String → WaitTicket → Effects → Effects
park key t done = record {
  released = done.released;
  traces = done.traces ++ wait_armed key t.from_sequence ∷ [];
  registry = record {
    parked = done.registry.parked ++ (key, t) ∷ [];
    armed = suc done.registry.armed;
  };
}

abbrev pub arm_at : List RunEvent → Bool → ArmInput → Option RunEvent → Effects → Armed × Effects
arm_at events views input (some e) done =
    if views
    then (delivered (build_wakeup_payload input.actor input.from_sequence e events), done)
    else (no_prompt_view, done)
arm_at events views input none done =
    let t = ticket_for input done.registry in (waiting t, park (actor_key input.actor) t done)

-- `arm`; `views` tells that the registry has `getPromptViewForActor`.
unfoldable pub arm : List RunEvent → Bool → ArmInput → Registry → Armed × Effects
unfolding actor_key
arm events views input r =
    arm_at events views input (latest_visible_event_since events input.actor input.from_sequence)
      (replace_parked (actor_key input.actor) r)

-- The timer of a wait.
unfoldable pub time_out : String → ℕ → Registry → Effects
unfolding lookup remove
time_out key armed_at r = elim (lookup key r.parked) [
  | none ↦ record { released = []; traces = []; registry = r }
  | some t ↦
      if nat_eq t.armed_at armed_at
      then release key (some t) timeout (wait_timed_out key t.timeout_ms) r
      else record { released = []; traces = []; registry = r }
]

abbrev pub wakes_entry : RunEvent → String × WaitTicket → Bool
wakes_entry e (key, t) = wakes t.actor t.from_sequence e

-- `notify`: the loop releases each wait that the event wakes, which takes it out of the map.
unfoldable pub notify : RunEvent → List RunEvent → Registry → Effects
notify e events r =
    let woken = filter (wakes_entry e) r.parked in
    record {
      released =
          map
            (λ entry. (
              entry.1,
              WaitOutcome.event (build_wakeup_payload entry.1.actor entry.1.from_sequence e events),
            ))
            woken;
      traces = map (λ entry. wait_unblocked entry.0 e.event_id e.sequence) woken;
      registry = with_parked (filter (λ entry. not (wakes_entry e entry)) r.parked) r;
    }

unfoldable pub cancel_all : String → Registry → Effects
cancel_all reason r = record {
  released = map (λ entry. (entry.1, cancelled reason)) r.parked;
  traces = map (λ entry. wait_cancelled entry.0 reason) r.parked;
  registry = with_parked [] r;
}

unfoldable pub cancel_for_actor : ActorRef → String → Registry → Effects
unfolding actor_key lookup remove
cancel_for_actor actor reason r =
    let key = actor_key actor in
    release key (lookup key r.parked) (cancelled reason) (wait_cancelled key reason) r

unfoldable pub has_armed_wait : ActorRef → Registry → Bool
unfolding actor_key lookup
has_armed_wait actor r = is_some (lookup (actor_key actor) r.parked)
