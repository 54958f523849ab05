-- ===== src/Runtime/WaitTests.antt =====
-- The wait registry with one waiting actor.
use pluto_agent_platform.Common.{refl, ◌≡◌, false, [], ◌∷◌, inl, inr, true, ◌++◌}
use pluto_agent_platform.Common.Dict.{lookup, remove}
use pluto_agent_platform.Common.Int.{pos}
use pluto_agent_platform.Common.Members.{Member}
use pluto_agent_platform.Protocol.Actor.{actor_key, same_actor, is_lead_actor}
use pluto_agent_platform.Samples.{generator, created_event, message_event}
use pluto_agent_platform.Runtime.Waits.{
  make_wait_registry, WaitTicket, ArmInput, arm, notify, is_visible_event, wakes,
  latest_visible_event_since, replace_parked,
}
use pluto_agent_platform.Runtime.Wakeups.{
  World, stays, then_step, appends, notifies, arms, no_lost_wakeup, with_registry,
}
use pluto_agent_platform.Kernel.Replay.{Distinct}
use pluto_agent_platform.Runtime.Parked.{keys_of, Keyed, one_wait_per_actor}

abbrev start : World
start = record { log = created_event ∷ []; queued = []; registry = make_wait_registry }

-- The generator waits behind sequence 5, so that the message of sequence 2 does not wake it.
abbrev input : ArmInput
input = record { actor = generator; from_sequence = pos 5; timeout_ms = 100 }

abbrev ticket : WaitTicket
ticket = record { actor = generator; from_sequence = pos 5; armed_at = 0; timeout_ms = 100 }

abbrev parked : World
parked = with_registry start (arm start.log true input start.registry).1.registry

abbrev told : World
told = record parked {
  log = parked.log ++ message_event ∷ [];
  queued = parked.queued ++ message_event ∷ [];
}

abbrev quiet : World
quiet = record told {
  queued = [];
  registry = (notify message_event told.log told.registry).registry;
}

still-parked : Member ("role:generator", ticket) quiet.registry.parked
unfolding arm notify is_visible_event wakes latest_visible_event_since replace_parked lookup remove
    actor_key same_actor is_lead_actor
still-parked = inl refl

no_lost_wakeup_example : wakes generator (pos 5) message_event ≡ false
no_lost_wakeup_example =
    no_lost_wakeup start quiet refl
      (then_step (then_step (then_step stays (arms true input)) (appends message_event))
        (notifies message_event [] refl))
      refl "role:generator" ticket still-parked message_event (inr (inl refl))

one_wait_per_actor_example :
    Distinct (keys_of parked.registry.parked) × Keyed parked.registry.parked
one_wait_per_actor_example =
    one_wait_per_actor start parked refl (then_step stays (arms true input))
