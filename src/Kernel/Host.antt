-- ===== src/Kernel/Host.antt =====
-- What the kernel takes from outside: zod, the id and clock providers (core/providers.ts) and the
-- issues of a failed parse; and the kernel's own state.
use pluto_agent_platform.Common.{
  ℕ, suc, String, Bool, ◌&&◌, List, all, map, if◌then◌else◌, ◌≡◌, refl, ap,
}
use pluto_agent_platform.Common.Int.{leb_ℤ, minus_one}
use pluto_agent_platform.Protocol.Actor.{is_actor_role}
use pluto_agent_platform.Protocol.Schema.{Zod, owner_ok}
use pluto_agent_platform.Protocol.Parse.{Value}
use pluto_agent_platform.Authority.Policy.{policy_ok}
use pluto_agent_platform.Authority.State.{RunState}
use pluto_agent_platform.Kernel.Log.{EventLog, Result, returned, thrown, schema_error}

-- The n-th call of each provider; `parse_issues` are the paths and messages of a refused request.
pub record Host : Type 0 where
  pub zod : Zod
  pub open zod use *
  pub next_id : ℕ → String
  pub now_iso : ℕ → String
  pub parse_issues : Value → List (List String × String)

-- `RunKernel`: the private fields, with the number of calls that each provider has had.
pub record Kernel : Type 0 where
  pub state : RunState
  pub log : EventLog
  pub drawn : ℕ
  pub ticks : ℕ

-- A throw keeps what was done before it.
abbrev pub M : Type 0 → Type 0
M A = Kernel → Result A × Kernel

abbrev pub after_step : {A B : Type 0} → Result A × Kernel → (A → M B) → Result B × Kernel
after_step (returned a, k) f = f a k
after_step (thrown e, k) f = (thrown e, k)

infixl 5 ◌>>=◌
abbrev pub ◌>>=◌ : {A B : Type 0} → M A → (A → M B) → M B
◌>>=◌ m f k = after_step (m k) f

-- Inversion of a successful bind.
pub after_step-ok :
    {A B : Type 0} (x : Result A × Kernel) (f : A → M B) (k : Kernel) (b : B)
    → after_step x f ≡ (returned b, k)
    → (a : A) × (j : Kernel) × (x ≡ (returned a, j)) × (f a j ≡ (returned b, k))
after_step-ok (returned a, j) f k b q = (a, j, refl, q)
after_step-ok (thrown e, j) f k b q = absurd (cc (ap (λ r. r.0) q))

abbrev pub pure : {A : Type 0} → A → M A
pure a k = (returned a, k)

abbrev pub lift : {A : Type 0} → Result A → M A
lift r k = (r, k)

-- `idProvider.next()` and `clockProvider.nowIso()`.
abbrev pub draw_id : Host → M String
draw_id h k = (returned (h.next_id k.drawn), record k { drawn = suc k.drawn })

abbrev pub read_clock : Host → M String
read_clock h k = (returned (h.now_iso k.ticks), record k { ticks = suc k.ticks })

-- `RunStateSchema`.
unfoldable pub run_state_ok : RunState → Bool
unfolding is_actor_role policy_ok
run_state_ok s =
    leb_ℤ minus_one s.sequence
    && all (λ t. owner_ok t) (map (λ entry. entry.1.owner_actor) s.tasks)
    && policy_ok s.policy

-- The constructor. The providers have had the calls that their callers made before.
unfoldable pub new_kernel : RunState → EventLog → ℕ → ℕ → Result Kernel
new_kernel initial log drawn ticks =
    if run_state_ok initial
    then returned (record { state = initial; log = log; drawn = drawn; ticks = ticks })
    else thrown schema_error
