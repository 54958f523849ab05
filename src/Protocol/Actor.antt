-- ===== src/Protocol/Actor.antt =====
-- actor-ref.ts, entity-ref.ts and the actor keys of core/team-context.ts, with the copy of `sameActor`
-- that the runtime modules carry.
use pluto_agent_platform.Common.{
  ℕ, String, Bool, true, false, ◌&&◌, ◌||◌, List, [], ◌∷◌, ◌==◌, leb, all, length, nat_eq,
}
use pluto_agent_platform.Common.Text.{◌<>◌, codes}

pub data ActorRef : Type 0 where
  manager : ActorRef
  role : String → ActorRef
  system : ActorRef

pub data EntityRef : Type 0 where
  run task mailbox_message artifact : String → EntityRef

-- `[a-z]` and `[a-z0-9_-]`.
abbrev role_head : ℕ → Bool
role_head c = leb b'a' c && leb c b'z'

abbrev role_char : ℕ → Bool
role_char c = role_head c || (leb b'0' c && leb c b'9') || nat_eq c b'_' || nat_eq c b'-'

abbrev role_codes : List ℕ → Bool
role_codes [] = false
role_codes (c ∷ cs) = role_head c && all role_char cs

-- `ActorRoleSchema`, which `isActorRole` runs.
unfoldable pub is_actor_role : String → Bool
is_actor_role s = leb (length (codes s)) 64 && role_codes (codes s)

abbrev pub role_of_ref : ActorRef → Bool
role_of_ref (role r) = is_actor_role r
role_of_ref _ = true

unfoldable pub actor_key : ActorRef → String
actor_key manager = "manager"
actor_key system = "system"
actor_key (role r) = "role:" <> r

unfoldable pub same_actor : ActorRef → ActorRef → Bool
same_actor manager manager = true
same_actor system system = true
same_actor (role a) (role b) = a == b
same_actor _ _ = false

unfoldable pub is_lead_actor : ActorRef → Bool
is_lead_actor (role r) = r == "lead"
is_lead_actor _ = false
