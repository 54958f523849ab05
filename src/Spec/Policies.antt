-- ===== src/Spec/Policies.antt =====
-- `compilePolicy`: when it returns, and what the policy that it returns allows.
use pluto_agent_platform.Common.{
  ℕ, suc, Option, none, some, List, [], ◌∷◌, ◌≡◌, true, not, nat_eq, length, All, all, refl, arith,
  Bool-cases, inl, inr, Option-cases,
}
use pluto_agent_platform.Common.Dict.{lookup}
use pluto_agent_platform.Protocol.Request.{Intent, intent_name, is_valid_intent}
use pluto_agent_platform.Authority.Policy.{
  ActorMatcher, AuthorityPolicy, matcher_ok, policy_ok, matchers_for, canonical_authority_policy,
}
use pluto_agent_platform.Protocol.Actor.{is_actor_role}
use pluto_agent_platform.Spec.Authored.{AuthoredActorMatcher, key, index, ok}
use pluto_agent_platform.Spec.Roles.{matcher_allowed_for_intent, compile_matcher}
use pluto_agent_platform.Spec.Compile.{
  AuthoredPolicy, compile_matchers, compile_intent, known_intents, parse_policy, compile_policy,
  compile_intents,
}
use pluto_agent_platform.Spec.WellFormed.{
  MatcherFits, Lists, PolicyFits, PolicyOk, Returns, bind-ok, bind-Returns, else-ok,
}
use pluto_agent_platform.Spec.Matchers.{compile_matcher-Matched, fits-Returns, ok_injective}

-- The matchers of an intent: they pass the schema and are allowed for it.
pub record Fit (i : Intent) (xs : List ActorMatcher) : Type 0 where
  pub valid : all matcher_ok xs ≡ true
  pub allowed : all (matcher_allowed_for_intent i) xs ≡ true

pub compile_matchers-ok :
    (i : Intent) (n : ℕ) (ms : List AuthoredActorMatcher) (xs : List ActorMatcher)
    → compile_matchers i n ms ≡ ok xs
    → All (MatcherFits i) ms × Fit i xs
unfolding compile_matchers
compile_matchers-ok i n [] xs h =
    let e = ok_injective h in (tt, rw (← e) (record { valid = refl; allowed = refl }))
compile_matchers-ok i n (m ∷ ms) xs h =
    let path = key "policy" ∷ key (intent_name i) ∷ index n ∷ [] in
    let (x, one, h1) = bind-ok (compile_matcher i m path) _ xs h in
    let (ys, more, h2) = bind-ok (compile_matchers i (suc n) ms) _ xs h1 in
    let good = compile_matcher-Matched i m x path one in
    let (rest, fit) = compile_matchers-ok i (suc n) ms ys more in
    let e = ok_injective h2 in
    (
      (good.fits, rest),
      rw (← e)
          (record { valid = rw (good.valid, fit.valid); allowed = rw (good.allowed, fit.allowed) }),
    )

fit-Returns :
    (i : Intent) (n : ℕ) (ms : List AuthoredActorMatcher)
    → All (MatcherFits i) ms
    → Returns (compile_matchers i n ms)
unfolding compile_matchers
fit-Returns i n [] h = ([], refl)
fit-Returns i n (m ∷ ms) h =
    bind-Returns (compile_matcher i m (key "policy" ∷ key (intent_name i) ∷ index n ∷ [])) _
      (fits-Returns i m _ h.0)
      λ x _.
        bind-Returns (compile_matchers i (suc n) ms) _ (fit-Returns i (suc n) ms h.1)
          λ ys _. (x ∷ ys, refl)

compile_intent-ok :
    (policy : AuthoredPolicy) (i : Intent) (xs : List ActorMatcher)
    → compile_intent policy i ≡ ok xs
    → Lists policy i × Fit i xs
unfolding compile_intent
compile_intent-ok policy i xs h = elim (Option-cases (lookup (intent_name i) policy)) [
  | inl gone ↦ absurd (cc (rw (gone, compile_intent) at h))
  | inr (ms, found) ↦
      let (fits, fit) = compile_matchers-ok i 0 ms xs (rw (found, compile_intent) at h) in
      ((ms, found, fits), fit)
]

Lists-Returns :
    (policy : AuthoredPolicy) (i : Intent) → Lists policy i → Returns (compile_intent policy i)
unfolding compile_intent
Lists-Returns policy i (ms, found, fits) = rw (found, compile_intent) (fit-Returns i 0 ms fits)

known_intents-ok :
    (policy : AuthoredPolicy) (u : Unit {0})
    → known_intents policy ≡ ok u
    → All (λ entry. is_valid_intent entry.0 ≡ true) policy
unfolding known_intents
known_intents-ok [] u h = tt
known_intents-ok (entry ∷ policy) u h = elim (Bool-cases (is_valid_intent entry.0)) [
  | inl known ↦ (known, known_intents-ok policy u (rw (known, known_intents) at h))
  | inr unknown ↦ absurd (cc (rw (unknown, known_intents) at h))
]

known-Returns :
    (policy : AuthoredPolicy)
    → All (λ entry. is_valid_intent entry.0 ≡ true) policy
    → Returns (known_intents policy)
unfolding known_intents
known-Returns [] h = (tt, refl)
known-Returns (entry ∷ policy) h = rw (h.0, known_intents) (known-Returns policy h.1)

abbrev policy_of : (a b c d e : List ActorMatcher) → AuthorityPolicy
policy_of a b c d e = record {
  append_mailbox_message = a;
  create_task = b;
  change_task_state = c;
  publish_artifact = d;
  complete_run = e;
}

-- A policy each of whose lists is fit for its intent.
pub record FitPolicy (q : AuthorityPolicy) : Type 0 where
  pub fit : (i : Intent) → Fit i (matchers_for q i)

Fit-all :
    (a b c d e : List ActorMatcher)
    → Fit Intent.append_mailbox_message a
    → Fit Intent.create_task b
    → Fit Intent.change_task_state c
    → Fit Intent.publish_artifact d
    → Fit Intent.complete_run e
    → FitPolicy (policy_of a b c d e)
Fit-all a b c d e fa fb fc fd fe = record { fit = at }
  where
    at : (i : Intent) → Fit i (matchers_for (policy_of a b c d e) i)
    at Intent.append_mailbox_message = fa
    at Intent.create_task = fb
    at Intent.change_task_state = fc
    at Intent.publish_artifact = fd
    at Intent.complete_run = fe

pub FitPolicy-policy_ok : (q : AuthorityPolicy) → FitPolicy q → policy_ok q ≡ true
unfolding policy_ok
FitPolicy-policy_ok q f =
    let a = (f.fit Intent.append_mailbox_message).valid in
    let b = (f.fit Intent.create_task).valid in
    let c = (f.fit Intent.change_task_state).valid in
    let d = (f.fit Intent.publish_artifact).valid in
    let e = (f.fit Intent.complete_run).valid in rw (a, b, c, d, e)

canonical-FitPolicy : FitPolicy canonical_authority_policy
unfolding matcher_allowed_for_intent is_actor_role
canonical-FitPolicy = record { fit = at }
  where
    at : (i : Intent) → Fit i (matchers_for canonical_authority_policy i)
    at Intent.append_mailbox_message = record { valid = refl; allowed = refl }
    at Intent.create_task = record { valid = refl; allowed = refl }
    at Intent.change_task_state = record { valid = refl; allowed = refl }
    at Intent.publish_artifact = record { valid = refl; allowed = refl }
    at Intent.complete_run = record { valid = refl; allowed = refl }

parse_policy-ok : (p q : AuthorityPolicy) → parse_policy p ≡ ok q → p ≡ q
parse_policy-ok p q h = elim (Bool-cases (policy_ok p)) [
  | inl good ↦ ok_injective (rw good at h)
  | inr bad ↦ absurd (cc (rw bad at h))
]

compile_intents-ok :
    (p : AuthoredPolicy) (q : AuthorityPolicy)
    → length p ≡ 5
    → compile_intents p ≡ ok q
    → PolicyFits p × FitPolicy q
unfolding compile_intents
compile_intents-ok p q five h0 =
    let (u, known, h1) = bind-ok (known_intents p) _ q h0 in
    let (a, qa, h2) = bind-ok (compile_intent p Intent.append_mailbox_message) _ q h1 in
    let (b, qb, h3) = bind-ok (compile_intent p Intent.create_task) _ q h2 in
    let (c, qc, h4) = bind-ok (compile_intent p Intent.change_task_state) _ q h3 in
    let (d, qd, h5) = bind-ok (compile_intent p Intent.publish_artifact) _ q h4 in
    let (e, qe, h6) = bind-ok (compile_intent p Intent.complete_run) _ q h5 in
    let (la, fa) = compile_intent-ok p _ a qa in
    let (lb, fb) = compile_intent-ok p _ b qb in
    let (lc, fc) = compile_intent-ok p _ c qc in
    let (ld, fd) = compile_intent-ok p _ d qd in
    let (le, fe) = compile_intent-ok p _ e qe in
    (
      record {
        five = five;
        known = known_intents-ok p u known;
        append = la;
        create = lb;
        change = lc;
        publish = ld;
        complete = le;
      },
      rw (← parse_policy-ok (policy_of a b c d e) q h6) (Fit-all a b c d e fa fb fc fd fe),
    )

pub compile_policy-ok :
    (p : Option AuthoredPolicy) (q : AuthorityPolicy)
    → compile_policy p ≡ ok q
    → PolicyOk p × FitPolicy q
unfolding compile_policy
compile_policy-ok none q h =
    (tt, rw (← parse_policy-ok canonical_authority_policy q h) canonical-FitPolicy)
compile_policy-ok (some p) q h =
    let (five, h0) = else-ok (not (nat_eq (length p) 5)) _ (compile_intents p) q h in
    compile_intents-ok p q (ground (arith, five)) h0

parses :
    (p : AuthoredPolicy) (a b c d e : List ActorMatcher)
    → compile_intent p Intent.append_mailbox_message ≡ ok a
    → compile_intent p Intent.create_task ≡ ok b
    → compile_intent p Intent.change_task_state ≡ ok c
    → compile_intent p Intent.publish_artifact ≡ ok d
    → compile_intent p Intent.complete_run ≡ ok e
    → Returns (parse_policy (policy_of a b c d e))
parses p a b c d e qa qb qc qd qe = (
  policy_of a b c d e,
  rw (
      FitPolicy-policy_ok (policy_of a b c d e) (
        Fit-all a b c d e (compile_intent-ok p _ a qa).1 (compile_intent-ok p _ b qb).1
          (compile_intent-ok p _ c qc).1 (compile_intent-ok p _ d qd).1
          (compile_intent-ok p _ e qe).1)),
)

PolicyFits-Returns : (p : AuthoredPolicy) → PolicyFits p → Returns (compile_intents p)
unfolding compile_intents
PolicyFits-Returns p h = bind-Returns (known_intents p) _ (known-Returns p h.known) λ _ _.
    bind-Returns _ _ (Lists-Returns p Intent.append_mailbox_message h.append) λ a qa.
      bind-Returns _ _ (Lists-Returns p Intent.create_task h.create) λ b qb.
        bind-Returns _ _ (Lists-Returns p Intent.change_task_state h.change) λ c qc.
          bind-Returns _ _ (Lists-Returns p Intent.publish_artifact h.publish) λ d qd.
            bind-Returns _ _ (Lists-Returns p Intent.complete_run h.complete)
              λ e qe. parses p a b c d e qa qb qc qd qe

parse_policy_valid : (p : AuthorityPolicy) → policy_ok p ≡ true → parse_policy p ≡ ok p
parse_policy_valid p h = rw h

pub PolicyOk-Returns : (p : Option AuthoredPolicy) → PolicyOk p → Returns (compile_policy p)
unfolding compile_policy
PolicyOk-Returns none h = (
  canonical_authority_policy,
  parse_policy_valid canonical_authority_policy
      (FitPolicy-policy_ok canonical_authority_policy canonical-FitPolicy),
)
PolicyOk-Returns (some p) h = rw (h.five, compile_policy) (PolicyFits-Returns p h)
