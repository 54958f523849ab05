-- ===== src/Runtime/LoopState.antt =====
-- adapters/paseo/agentic-loop-state.ts, and the default limits of agentic-scheduler.ts.
use pluto_agent_platform.Common.{ℕ, Option, none, some, leb, if◌then◌else◌}
use pluto_agent_platform.Common.Int.{ℤ, pos, negsuc}
use pluto_agent_platform.Runtime.Scheduler.{SchedulerState, lead_actor}

abbrev pub default_max_turns : ℕ
default_max_turns = 20

abbrev pub default_max_kernel_rejections : ℕ
default_max_kernel_rejections = 3

abbrev pub default_max_no_progress_turns : ℕ
default_max_no_progress_turns = 3

abbrev pub hard_max_turns : ℕ
hard_max_turns = 50

-- A number of the source, as `normalizeMax` reads it: not finite, or with this integral part.
pub data Number : Type 0 where
  not_finite : Number
  finite : ℤ → Number

abbrev at_least_0 : ℤ → ℕ
at_least_0 (pos n) = n
at_least_0 (negsuc n) = 0

abbrev capped : Option ℕ → ℕ → ℕ
capped none n = n
capped (some cap) n = if leb n cap then n else cap

unfoldable pub normalize_max : Option Number → ℕ → Option ℕ → ℕ
normalize_max (some (finite z)) fallback cap = capped cap (at_least_0 z)
normalize_max _ fallback cap = fallback

-- The limits that a call or an authored spec gives.
pub record Limits : Type 0 where
  pub max_turns : Option Number
  pub max_kernel_rejections : Option Number
  pub max_no_progress_turns : Option Number

abbrev first_of : Option Number → Option Number → Option Number
first_of none b = b
first_of (some a) b = some a

-- `createInitialAgenticLoopState`: what the scheduler reads of it.
unfoldable pub initial_loop_state : Limits → Limits → SchedulerState
unfolding normalize_max
initial_loop_state args spec = record {
  turn_index = 0;
  max_turns =
      normalize_max (first_of args.max_turns spec.max_turns) default_max_turns
        (some hard_max_turns);
  current_actor = lead_actor;
  delegation_pointer = none;
  delegation_task_id = none;
  kernel_rejections = 0;
  no_progress_turns = 0;
  last_rejection = none;
  max_kernel_rejections =
      normalize_max (first_of args.max_kernel_rejections spec.max_kernel_rejections)
        default_max_kernel_rejections none;
  max_no_progress_turns =
      normalize_max (first_of args.max_no_progress_turns spec.max_no_progress_turns)
        default_max_no_progress_turns none;
}
