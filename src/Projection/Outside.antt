-- ===== src/Projection/Outside.antt =====
-- The tasks of a run without those that it was started with, which no event of the log creates.
use pluto_agent_platform.Common.{
  String, List, [], ◌∷◌, ◌≡◌, inl, inr, refl, false, true, eq_iff, ap, ◌∙◌, none, is_some,
  Bool-cases, ◌==◌, if◌then◌else◌, Bool,
}
use pluto_agent_platform.Common.Dict.{lookup, insert}

module _ {ℓ} {V : Type ℓ} (initial : List (String × V)) where
  abbrev pub is_initial : String → Bool
  is_initial id = is_some (lookup id initial)

  unfoldable pub outside : List (String × V) → List (String × V)
  outside [] = []
  outside (entry ∷ tasks) =
      let rest = outside tasks in if is_initial entry.0 then rest else entry ∷ rest

  pub lookup-outside :
      (id : String) (tasks : List (String × V))
      → lookup id (outside tasks) ≡ (if is_initial id then none else lookup id tasks)
  unfolding outside lookup
  lookup-outside id [] = elim (Bool-cases (is_initial id)) [
    | inl theirs ↦ rw theirs refl
    | inr ours ↦ rw ours refl
  ]
  lookup-outside id ((key, v) ∷ tasks) = elim (Bool-cases (key == id)) [
    | inl hit ↦ elim (Bool-cases (is_initial id)) [
      | inl theirs ↦
          rw (ap is_initial ((eq_iff key id).0 hit), theirs)
            (lookup-outside id tasks ∙ rw theirs refl)
      | inr ours ↦ rw (ap is_initial ((eq_iff key id).0 hit), ours, hit) refl
    ]
    | inr miss ↦ elim (Bool-cases (is_initial key)) [
      | inl theirs ↦ rw (theirs, miss) (lookup-outside id tasks)
      | inr ours ↦ rw (ours, miss) (lookup-outside id tasks)
    ]
  ]

  -- An insertion at a task of the run's own, and at one that it was started with.
  pub outside-insert :
      (key : String) (v : V) (tasks : List (String × V))
      → is_initial key ≡ false
      → outside (insert key v tasks) ≡ insert key v (outside tasks)
  unfolding outside insert
  outside-insert key v [] ours = rw ours refl
  outside-insert key v ((name, held) ∷ tasks) ours = elim (Bool-cases (name == key)) [
    | inl hit ↦ rw (hit, ap is_initial ((eq_iff name key).0 hit), ours, hit) refl
    | inr miss ↦ elim (Bool-cases (is_initial name)) [
      | inl theirs ↦ rw (miss, theirs) (outside-insert key v tasks ours)
      | inr other ↦
          rw (miss, other, miss)
            (ap (λ rest. (name, held) ∷ rest) (outside-insert key v tasks ours))
    ]
  ]

  pub outside-insert_initial :
      (key : String) (v : V) (tasks : List (String × V))
      → is_initial key ≡ true
      → outside (insert key v tasks) ≡ outside tasks
  unfolding outside insert
  outside-insert_initial key v [] theirs = rw theirs refl
  outside-insert_initial key v ((name, held) ∷ tasks) theirs = elim (Bool-cases (name == key)) [
    | inl hit ↦ rw (hit, ap is_initial ((eq_iff name key).0 hit), theirs) refl
    | inr miss ↦ elim (Bool-cases (is_initial name)) [
      | inl initial_too ↦ rw (miss, initial_too) (outside-insert_initial key v tasks theirs)
      | inr other ↦
          rw (miss, other)
            (ap (λ rest. (name, held) ∷ rest) (outside-insert_initial key v tasks theirs))
    ]
  ]
