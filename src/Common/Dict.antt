-- ===== src/Common/Dict.antt =====
-- `Set<string>` as the list of its members in order of insertion, and a plain object as the list of
-- its own entries.
use Prim.Native.String.{String}
use mathlib.Core.Path.{◌≡◌, refl, sym, ◌∙◌}
use mathlib.Core.Logic.{◌⊎◌, inl, inr}
use mathlib.Core.Bool.{Bool, false, ◌||◌}
use mathlib.Core.Option.{Option, none, some}
use mathlib.Core.List.{List, [], ◌∷◌, ◌++◌}
use native.Mathlib.Omega.{arith}
use text.Mathlib.Text.{◌==◌}
use text.Mathlib.TextEquality.{eq_iff}
use pluto_agent_platform.Common.Tests.{Bool-cases, if◌then◌else◌}

-- `set.has(a)`.
abbrev pub has : List String → String → Bool
has [] a = false
has (x ∷ xs) a = x == a || has xs a

-- `set.add(a)`.
unfoldable pub add : List String → String → List String
add s a = if has s a then s else s ++ a ∷ []

pub has-append : (xs ys : List String) (a : String) → has (xs ++ ys) a ≡ (has xs a || has ys a)
has-append [] ys a = refl
has-append (x ∷ xs) ys a = ground (arith, has-append xs ys a)

pub has-add : (s : List String) (a b : String) → has (add s a) b ≡ (a == b || has s b)
unfolding add
has-add s a b = ground (arith, has-append s (a ∷ []) b, eq_iff a b)

pub add_fresh : (s : List String) (a : String) → has s a ≡ false → add s a ≡ s ++ a ∷ []
unfolding add
add_fresh s a h = rw h

module _ {ℓ} {V : Type ℓ} where
  -- `dict[key]` at an own property.
  unfoldable pub lookup : String → List (String × V) → Option V
  lookup key [] = none
  lookup key (entry ∷ dict) =
      let later = lookup key dict in if entry.0 == key then some entry.1 else later

  -- `{ ...dict, [key]: value }`: a key that is there keeps its place.
  unfoldable pub insert : String → V → List (String × V) → List (String × V)
  insert key value [] = (key, value) ∷ []
  insert key value (entry ∷ dict) =
      let later = insert key value dict in
      if entry.0 == key then (key, value) ∷ dict else entry ∷ later

  -- `map.delete(key)`.
  unfoldable pub remove : String → List (String × V) → List (String × V)
  remove key [] = []
  remove key (entry ∷ dict) =
      let later = remove key dict in if entry.0 == key then later else entry ∷ later

  pub lookup-insert :
      (key other : String) (value : V) (dict : List (String × V))
      → lookup other (insert key value dict)
        ≡ (if key == other then some value else lookup other dict)
  unfolding lookup insert
  lookup-insert key other value [] = refl
  lookup-insert key other value ((name, held) ∷ dict) = ground (
    arith,
    lookup-insert key other value dict,
    eq_iff name other,
    eq_iff name key,
    eq_iff key other,
  )

  -- What is found behind an insertion: the new value, or an old one.
  pub lookup-insert_cases :
      (key other : String) (value held : V) (dict : List (String × V))
      → lookup other (insert key value dict) ≡ some held
      → ((key ≡ other) × (held ≡ value)) ⊎ (lookup other dict ≡ some held)
  lookup-insert_cases key other value held dict h = elim (Bool-cases (key == other)) [
    | inl same ↦ inl (
      (eq_iff key other).0 same,
      some_injective (sym h ∙ lookup-insert key other value dict ∙ rw same),
    )
    | inr differs ↦ inr (rw (lookup-insert, differs) at h)
  ]
    where
      some_injective : {u v : V} → some u ≡ some v → u ≡ v
      some_injective q = cc
