-- ===== src/Common/Members.antt =====
-- Membership in lists, and how it passes through appending, filtering and deleting.
use Prim.Native.String.{String}
use mathlib.Core.Path.{◌≡◌, refl}
use mathlib.Core.Logic.{◌⊎◌, inl, inr}
use mathlib.Core.Bool.{Bool, true}
use mathlib.Core.List.{List, [], ◌∷◌, ◌++◌}
use text.Mathlib.Text.{◌==◌}
use pluto_agent_platform.Common.Tests.{Bool-cases}
use pluto_agent_platform.Common.Lists.{filter}
use pluto_agent_platform.Common.Dict.{remove}

abbrev pub Member : {A : Type 0} → A → List A → Type 0
Member x [] = ⊥
Member x (y ∷ ys) = (x ≡ y) ⊎ Member x ys

pub Member-append :
    {A : Type 0} (xs ys : List A) (x : A) → Member x (xs ++ ys) → Member x xs ⊎ Member x ys
Member-append [] ys x h = inr h
Member-append (y ∷ xs) ys x (inl same) = inl (inl same)
Member-append (y ∷ xs) ys x (inr later) = elim (Member-append xs ys x later) [
  | inl h ↦ inl (inr h)
  | inr h ↦ inr h
]

pub append-Member_left : {A : Type 0} (xs ys : List A) (x : A) → Member x xs → Member x (xs ++ ys)
append-Member_left [] ys x h = absurd h
append-Member_left (y ∷ xs) ys x (inl same) = inl same
append-Member_left (y ∷ xs) ys x (inr later) = inr (append-Member_left xs ys x later)

pub append-Member_last : {A : Type 0} (xs : List A) (x : A) → Member x (xs ++ x ∷ [])
append-Member_last [] x = inl refl
append-Member_last (y ∷ xs) x = inr (append-Member_last xs x)

pub Member-filter :
    {A : Type 0} (p : A → Bool) (xs : List A) (x : A)
    → Member x (filter p xs)
    → Member x xs × (p x ≡ true)
Member-filter p [] x h = absurd h
Member-filter p (y ∷ xs) x h = elim (Bool-cases (p y)) [
  | inl hit ↦ elim (rw (hit, filter) at h) [
    | inl same ↦ (inl same, rw same hit)
    | inr later ↦ let (m, q) = Member-filter p xs x later in (inr m, q)
  ]
  | inr miss ↦ let (m, q) = Member-filter p xs x (rw (miss, filter) at h) in (inr m, q)
]

pub Member-remove :
    {V : Type 0} (key : String) (dict : List (String × V)) (entry : String × V)
    → Member entry (remove key dict)
    → Member entry dict
unfolding remove
Member-remove key [] entry h = h
Member-remove key (x ∷ dict) entry h = elim (Bool-cases (x.0 == key)) [
  | inl gone ↦ inr (Member-remove key dict entry (rw (gone, remove) at h))
  | inr stays ↦ elim (rw (stays, remove) at h) [
    | inl same ↦ inl same
    | inr later ↦ inr (Member-remove key dict entry later)
  ]
]
