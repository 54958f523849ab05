-- ===== src/Projection/Reducers.antt =====
-- Reducers over the events, and what it means that they take an event in.
use pluto_agent_platform.Common.{◌≡◌, refl, [], List, ◌∷◌, ◌++◌, ◌∙◌, sym}
use pluto_agent_platform.Protocol.Event.{RunEvent}
use pluto_agent_platform.Projection.Replay.{reduce_events}

pub reduce_events-append {ℓ κ} :
    {S : Type ℓ} {E : Type κ} (f : S → E → S) (s : S) (xs ys : List E)
    → reduce_events f s (xs ++ ys) ≡ reduce_events f (reduce_events f s xs) ys
reduce_events-append f s [] ys = refl
reduce_events-append f s (x ∷ xs) ys = reduce_events-append f (f s x) xs ys

-- A reducer that takes in an event: once taken in, the event changes nothing more.
pub record TakesIn (S : Type 0) (f : S → RunEvent → S) (Taken : S → RunEvent → Type 0)
    : Type 0 where
  pub idle : (s : S) (e : RunEvent) → Taken s e → f s e ≡ s
  pub kept : (s : S) (x e : RunEvent) → Taken s e → Taken (f s x) e

module _ {S : Type 0} {f : S → RunEvent → S} {Taken : S → RunEvent → Type 0}
    (t : TakesIn S f Taken) where
  Taken-reduce_events :
      (s : S) (e : RunEvent) (mid : List RunEvent) → Taken s e → Taken (reduce_events f s mid) e
  Taken-reduce_events s e [] h = h
  Taken-reduce_events s e (x ∷ mid) h = Taken-reduce_events (f s x) e mid (t.kept s x e h)

  again :
      (s : S) (e : RunEvent) (mid post : List RunEvent)
      → Taken s e
      → reduce_events f s (mid ++ e ∷ post) ≡ reduce_events f s (mid ++ post)
  again s e mid post h = rw (
    reduce_events-append f s mid (e ∷ post),
    reduce_events-append f s mid post,
    t.idle _ e (Taken-reduce_events s e mid h),
  )

  pub reduce_events-redelivered :
      (s : S) (e : RunEvent) (pre mid post : List RunEvent)
      → Taken (f (reduce_events f s pre) e) e
      → reduce_events f s (pre ++ e ∷ (mid ++ e ∷ post))
        ≡ reduce_events f s (pre ++ e ∷ (mid ++ post))
  reduce_events-redelivered s e pre mid post h =
      reduce_events-append f s pre (e ∷ (mid ++ e ∷ post))
      ∙ again (f (reduce_events f s pre) e) e mid post h
      ∙ sym (reduce_events-append f s pre (e ∷ (mid ++ post)))
