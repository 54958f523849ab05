-- ===== src/Spec/Parts.antt =====
-- The actors, the declared names, the initial tasks and the checks of an agentic run: when each part of
-- the compiler returns, and what it returns.
use pluto_agent_platform.Common.{
  ℕ, suc, String, Option, none, some, List, [], ◌∷◌, ◌≡◌, ◌⊎◌, true, ◌==◌, All, all, refl, arith,
  Bool-cases, Option-cases, inl, inr, ap, ◌∙◌, sym,
}
use mathlib.Core.Option
use pluto_agent_platform.Common.Dict.{lookup}
use pluto_agent_platform.Protocol.Actor.{ActorRef, role_of_ref}
use pluto_agent_platform.Protocol.Schema.{owner_ok}
use pluto_agent_platform.Spec.Authored.{AuthoredActorRef, AuthoredInitialTask, ok}
use pluto_agent_platform.Spec.Roles.{compile_actor_ref}
use pluto_agent_platform.Spec.Compile.{
  ActorMap, compile_actors, compile_declared_actors, compile_owner,
}
use pluto_agent_platform.Spec.WellFormed.{
  Defined, RoleFits, OwnerFits, Returns, bind-ok, bind-Returns,
}
use pluto_agent_platform.Spec.Matchers.{compile_role-ok, compile_role_valid, ok_injective}

-- A compiled actor has the kind and the role of the authored one.
abbrev pub role_actor : AuthoredActorRef → ActorRef
role_actor AuthoredActorRef.manager = ActorRef.manager
role_actor (AuthoredActorRef.role r) = ActorRef.role r
role_actor AuthoredActorRef.system = ActorRef.system

compile_actor_ref-ok :
    (name : String) (a : AuthoredActorRef) (x : ActorRef)
    → compile_actor_ref name a ≡ ok x
    → RoleFits a × (x ≡ role_actor a)
unfolding compile_actor_ref
compile_actor_ref-ok name AuthoredActorRef.manager x h = (tt, sym (ok_injective h))
compile_actor_ref-ok name AuthoredActorRef.system x h = (tt, sym (ok_injective h))
compile_actor_ref-ok name (AuthoredActorRef.role r) x h =
    let (s, named, h1) = bind-ok _ _ x h in
    let (good, e) = compile_role-ok r _ s named in
    (good, sym (ok_injective h1) ∙ ap ActorRef.role e)

compile_actor_ref_valid :
    (name : String) (a : AuthoredActorRef)
    → RoleFits a
    → compile_actor_ref name a ≡ ok (role_actor a)
unfolding compile_actor_ref
compile_actor_ref_valid name AuthoredActorRef.manager h = refl
compile_actor_ref_valid name AuthoredActorRef.system h = refl
compile_actor_ref_valid name (AuthoredActorRef.role r) h = rw (compile_role_valid r _ h)

abbrev pub actors_of : List (String × AuthoredActorRef) → ActorMap
actors_of [] = []
actors_of (entry ∷ entries) = (entry.0, role_actor entry.1) ∷ actors_of entries

pub compile_actors-ok :
    (es : List (String × AuthoredActorRef)) (m : ActorMap)
    → compile_actors es ≡ ok m
    → All (λ entry. RoleFits entry.1) es × (m ≡ actors_of es)
unfolding compile_actors
compile_actors-ok [] m h = (tt, sym (ok_injective h))
compile_actors-ok (e ∷ es) m h =
    let (x, one, h1) = bind-ok (compile_actor_ref e.0 e.1) _ m h in
    let (rest, more, h2) = bind-ok (compile_actors es) _ m h1 in
    let (fits, is_x) = compile_actor_ref-ok e.0 e.1 x one in
    let (all_fit, is_rest) = compile_actors-ok es rest more in
    ((fits, all_fit), rw (← is_x, ← is_rest) (sym (ok_injective h2)))

pub compile_actors_valid :
    (es : List (String × AuthoredActorRef))
    → All (λ entry. RoleFits entry.1) es
    → compile_actors es ≡ ok (actors_of es)
unfolding compile_actors
compile_actors_valid [] h = refl
compile_actors_valid (e ∷ es) h =
    rw (compile_actor_ref_valid e.0 e.1 h.0, compile_actors_valid es h.1)

pub lookup-actors_of :
    (name : String) (es : List (String × AuthoredActorRef))
    → lookup name (actors_of es) ≡ Option.map role_actor (lookup name es)
unfolding lookup
lookup-actors_of name [] = refl
lookup-actors_of name (e ∷ es) = ground (arith, lookup-actors_of name es)

-- A name of the compiled map is one of the spec.
defined_name :
    (name : String) (es : List (String × AuthoredActorRef)) (x : ActorRef)
    → lookup name (actors_of es) ≡ some x
    → (a : AuthoredActorRef) × (lookup name es ≡ some a) × (x ≡ role_actor a)
defined_name name es x h = elim (Option-cases (lookup name es)) [
  | inl gone ↦ absurd (cc (h, lookup-actors_of name es, ap (Option.map role_actor) gone))
  | inr (a, found) ↦ (a, found, cc (h, lookup-actors_of name es, ap (Option.map role_actor) found))
]

found_name :
    (name : String) (es : List (String × AuthoredActorRef)) (a : AuthoredActorRef)
    → lookup name es ≡ some a
    → lookup name (actors_of es) ≡ some (role_actor a)
found_name name es a h = lookup-actors_of name es ∙ ap (Option.map role_actor) h

-- Every actor that stands in the spec has the role's form.
fits_at :
    (name : String) (es : List (String × AuthoredActorRef)) (a : AuthoredActorRef)
    → All (λ entry. RoleFits entry.1) es
    → lookup name es ≡ some a
    → role_of_ref (role_actor a) ≡ true
unfolding lookup
fits_at name [] a h q = absurd (cc (q))
fits_at name (e ∷ es) a h q = elim (Bool-cases (e.0 == name)) [
  | inl hit ↦ rw (← some_injective (rw (hit, lookup) at q)) (role_ok e.1 h.0)
  | inr miss ↦ fits_at name es a h.1 (rw (miss, lookup) at q)
]
  where
    some_injective : {x y : AuthoredActorRef} → some x ≡ some y → x ≡ y
    some_injective q = cc

    role_ok : (x : AuthoredActorRef) → RoleFits x → role_of_ref (role_actor x) ≡ true
    role_ok AuthoredActorRef.manager h = refl
    role_ok AuthoredActorRef.system h = refl
    role_ok (AuthoredActorRef.role r) h = h

module _ (es : List (String × AuthoredActorRef)) (roles : All (λ entry. RoleFits entry.1) es) where
  pub compile_declared_actors-ok :
      (n : ℕ) (names : List String) (xs : List ActorRef)
      → compile_declared_actors (actors_of es) n names ≡ ok xs
      → All (λ name. Defined name es) names × (all role_of_ref xs ≡ true)
  unfolding compile_declared_actors
  compile_declared_actors-ok n [] xs h = (tt, rw (← ok_injective h))
  compile_declared_actors-ok n (name ∷ names) xs h =
      elim (Option-cases (lookup name (actors_of es))) [
        | inl gone ↦ absurd (cc (rw (gone, compile_declared_actors) at h))
        | inr (x, found) ↦
            let (a, here, is_a) = defined_name name es x found in
            let (rest, more, h1) =
              bind-ok (compile_declared_actors (actors_of es) (suc n) names) _ xs
                (rw (found, compile_declared_actors) at h) in
            let (later, good) = compile_declared_actors-ok (suc n) names rest more in
            (((a, here), later), rw (← ok_injective h1, is_a, fits_at name es a roles here, good))
      ]

  pub compile_declared_actors-Returns :
      (n : ℕ) (names : List String)
      → All (λ name. Defined name es) names
      → Returns (compile_declared_actors (actors_of es) n names)
  unfolding compile_declared_actors
  compile_declared_actors-Returns n [] h = ([], refl)
  compile_declared_actors-Returns n (name ∷ names) h =
      let ((a, here), later) = h in
      rw (found_name name es a here, compile_declared_actors)
        (bind-Returns (compile_declared_actors (actors_of es) (suc n) names) _
          (compile_declared_actors-Returns (suc n) names later)
          λ rest _. (role_actor a ∷ rest, refl))

  pub compile_owner-ok :
      (n : ℕ) (t : AuthoredInitialTask) (o : Option String) (x : Option ActorRef)
      → compile_owner (actors_of es) n t o ≡ ok x
      → ((o ≡ none) ⊎ ((name : String) × (o ≡ some name) × Defined name es)) × (owner_ok x ≡ true)
  unfolding compile_owner
  compile_owner-ok n t none x h = (inl refl, rw (← ok_injective h))
  compile_owner-ok n t (some name) x h = elim (Option-cases (lookup name (actors_of es))) [
    | inl gone ↦ absurd (cc (rw (gone, compile_owner) at h))
    | inr (y, found) ↦
        let (a, here, is_a) = defined_name name es y found in
        (
          inr (name, refl, (a, here)),
          rw (← ok_injective (rw (found, compile_owner) at h), is_a, fits_at name es a roles here),
        )
  ]

  pub owner-Returns :
      (n : ℕ) (t : AuthoredInitialTask)
      → OwnerFits es t
      → Returns (compile_owner (actors_of es) n t t.owner_actor)
  unfolding compile_owner
  owner-Returns n t (inl absent) = rw absent (none, refl)
  owner-Returns n t (inr (name, is_name, (a, here))) =
      rw is_name (rw (found_name name es a here, compile_owner) (some (role_actor a), refl))
