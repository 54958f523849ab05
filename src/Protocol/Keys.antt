-- ===== src/Protocol/Keys.antt =====
-- Actor keys tell actors apart, and so do the comparisons that are built on them.
use pluto_agent_platform.Common.{ℕ, ◌≡◌, ap, true, sym, ◌↔◌, refl, arith, ◌≢◌, eq_iff}
use pluto_agent_platform.Protocol.Actor.{ActorRef, manager, role, system, actor_key, same_actor}
use text.Mathlib.TextLemmas.{append_cancel_left, cons-append}
use pluto_agent_platform.Common.Text.{◌<>◌}
use Prim.Native.Char.{code}
use Prim.Native.String.{String}

first : String → ℕ
first String.[] = 0
first (String.◌∷◌ c s) = code c

first-role : (r : String) → first ("role:" <> r) ≡ b'r'
unfolding first
first-role r = ap first (cons-append "r" "ole:" r)

role_key-ne-manager : (r : String) → ("role:" <> r) ≢ "manager"
unfolding first
role_key-ne-manager r e = absurd (omega (arith, first-role r, ap first e))

role_key-ne-system : (r : String) → ("role:" <> r) ≢ "system"
unfolding first
role_key-ne-system r e = absurd (omega (arith, first-role r, ap first e))

-- Different actors have different keys.
pub actor_key-injective : (a b : ActorRef) → actor_key a ≡ actor_key b → a ≡ b
unfolding actor_key first
actor_key-injective manager manager e = refl
actor_key-injective system system e = refl
actor_key-injective (role a) (role b) e = ap role (append_cancel_left "role:" a b e)
actor_key-injective manager (role b) e = absurd (role_key-ne-manager b (sym e))
actor_key-injective (role a) manager e = absurd (role_key-ne-manager a e)
actor_key-injective system (role b) e = absurd (role_key-ne-system b (sym e))
actor_key-injective (role a) system e = absurd (role_key-ne-system a e)
actor_key-injective manager system e = absurd (omega (arith, ap first e))
actor_key-injective system manager e = absurd (omega (arith, ap first e))

-- The runtime's `sameActor` decides equality of actors.
pub same_actor_iff : (a b : ActorRef) → (same_actor a b ≡ true) ↔ (a ≡ b)
unfolding same_actor
same_actor_iff (role a) (role b) =
    let (to, from) = eq_iff a b in (λ h. ap role (to h), λ h. from (role_injective h))
  where
    role_injective : role a ≡ role b → a ≡ b
    role_injective h = cc
same_actor_iff a b = ground arith
