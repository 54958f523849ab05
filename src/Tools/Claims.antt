-- ===== src/Tools/Claims.antt =====
-- What the lists of a prompt view say of a task, a message and an artifact, as the audit of
-- api/composite-tools.ts is to read them.
use pluto_agent_platform.Common.{
  String, Option, none, some, List, [], ◌++◌, ◌≡◌, ◌⊎◌, ◌↔◌, inl, inr, refl, true, arith, eq_iff,
  eq_refl, Bool-cases, ◌==◌, ◌∙◌, sym, ap, subst,
}
use pluto_agent_platform.Common.Int.{ℤ}
use pluto_agent_platform.Common.Json.{signed_decimal}
use pluto_agent_platform.Common.Dict.{has, has-append, lookup, lookup-insert}
use pluto_agent_platform.Protocol.Parse.{Value, Items, nil, cons, num, prop, string}
use pluto_agent_platform.Tools.Audit.{
  is_terminal_name, task_states_of, message_ids_of, artifact_ids_of, with_task, message_id,
  artifact_id,
}

-- An item gives the task a state: both its id and its state are texts.
abbrev pub Reports : String → String → Value → Type 0
Reports id state v = (string (prop "id" v) ≡ some id) × (string (prop "state" v) ≡ some state)

-- No item gives the task a state.
pub data Silent (id : String) : Items → Type 0 where
  nothing : Silent id nil
  another :
      (v : Value) (vs : Items)
      → ((state : String) → ¬ Reports id state v)
      → Silent id vs
      → Silent id (cons v vs)

-- The last item that gives the task a state gives it this one.
pub data LastState (id state : String) : Items → Type 0 where
  at_last :
      (v : Value) (vs : Items) → Reports id state v → Silent id vs → LastState id state (cons v vs)
  later : (v : Value) (vs : Items) → LastState id state vs → LastState id state (cons v vs)

pub data Among (P : Value → Type 0) : Items → Type 0 where
  first : (v : Value) (vs : Items) → P v → Among P (cons v vs)
  further : (v : Value) (vs : Items) → Among P vs → Among P (cons v vs)

abbrev pub Terminal : String → Type 0
Terminal s = (s ≡ "completed") ⊎ (s ≡ "failed") ⊎ (s ≡ "cancelled")

-- A message is cited by the decimals of its sequence, an artifact by its id.
abbrev pub IsMessage : String → Value → Type 0
IsMessage ref v = (z : ℤ) × (prop "sequence" v ≡ some (num z)) × (ref ≡ signed_decimal z)

abbrev pub IsArtifact : String → Value → Type 0
IsArtifact ref v = string (prop "id" v) ≡ some ref

pub is_terminal_name-Terminal : (s : String) → (is_terminal_name s ≡ true) ↔ Terminal s
unfolding is_terminal_name
is_terminal_name-Terminal s = (
  λ h. ground (arith, eq_iff s "completed", eq_iff s "failed", eq_iff s "cancelled"),
  λ h. ground (arith, eq_iff s "completed", eq_iff s "failed", eq_iff s "cancelled"),
)

module _ (id : String) where
  Reports-cases :
      (v : Value)
      → ((state : String) × Reports id state v) ⊎ ((state : String) → ¬ Reports id state v)
  Reports-cases v = go (string (prop "id" v)) (string (prop "state" v)) refl refl
    where
      go :
          (name state : Option String)
          → string (prop "id" v) ≡ name
          → string (prop "state" v) ≡ state
          → ((s : String) × Reports id s v) ⊎ ((s : String) → ¬ Reports id s v)
      go none state p q = inr λ s r. cc (p, r.0)
      go (some i) none p q = inr λ s r. cc (q, r.1)
      go (some i) (some s) p q = elim (Bool-cases (i == id)) [
        | inl same ↦ inl (s, (p ∙ ap some ((eq_iff i id).0 same), q))
        | inr differs ↦ inr λ t r. ground (arith, eq_iff i id, p, r.0, differs)
      ]

  with_task-Reports :
      (v : Value) (state : String) (states : List (String × String))
      → Reports id state v
      → lookup id (with_task (string (prop "id" v)) (string (prop "state" v)) states) ≡ some state
  with_task-Reports v state states r =
      rw (r.0, r.1, lookup-insert id id state states, eq_refl id) refl

  with_task-other :
      (v : Value) (states : List (String × String))
      → ((state : String) → ¬ Reports id state v)
      → lookup id (with_task (string (prop "id" v)) (string (prop "state" v)) states)
        ≡ lookup id states
  with_task-other v states other = go (string (prop "id" v)) (string (prop "state" v)) refl refl
    where
      go :
          (name state : Option String)
          → string (prop "id" v) ≡ name
          → string (prop "state" v) ≡ state
          → lookup id (with_task name state states) ≡ lookup id states
      go none state p q = refl
      go (some i) none p q = refl
      go (some i) (some s) p q = elim (Bool-cases (i == id)) [
        | inl same ↦ absurd (other s (p ∙ ap some ((eq_iff i id).0 same), q))
        | inr differs ↦ rw (lookup-insert i id s states, differs) refl
      ]

  Silent-lookup :
      (vs : Items) (states : List (String × String))
      → Silent id vs
      → lookup id (task_states_of states vs) ≡ lookup id states
  unfolding task_states_of
  Silent-lookup _ states nothing = refl
  Silent-lookup _ states (another v vs other silent) =
      Silent-lookup vs (with_task (string (prop "id" v)) (string (prop "state" v)) states) silent
      ∙ with_task-other v states other

  LastState-lookup :
      (state : String) (vs : Items) (states : List (String × String))
      → LastState id state vs
      → lookup id (task_states_of states vs) ≡ some state
  unfolding task_states_of
  LastState-lookup state _ states (at_last v vs r silent) =
      Silent-lookup vs (with_task (string (prop "id" v)) (string (prop "state" v)) states) silent
      ∙ with_task-Reports v state states r
  LastState-lookup state _ states (later v vs l) =
      LastState-lookup state vs (with_task (string (prop "id" v)) (string (prop "state" v)) states)
        l

  LastState-cases : (vs : Items) → ((state : String) × LastState id state vs) ⊎ Silent id vs
  LastState-cases nil = inr nothing
  LastState-cases (cons v vs) = elim (LastState-cases vs) [
    | inl (state, l) ↦ inl (state, later v vs l)
    | inr silent ↦ elim (Reports-cases v) [
      | inl (state, r) ↦ inl (state, at_last v vs r silent)
      | inr other ↦ inr (another v vs other silent)
    ]
  ]

  pub task_states_of-LastState :
      (state : String) (vs : Items)
      → (lookup id (task_states_of [] vs) ≡ some state) ↔ LastState id state vs
  unfolding lookup
  task_states_of-LastState state vs = (to, LastState-lookup state vs [])
    where
      known : (s : String) → some s ≡ some state → s ≡ state
      known s q = cc

      to : lookup id (task_states_of [] vs) ≡ some state → LastState id state vs
      to h = elim (LastState-cases vs) [
        | inl (s, l) ↦
            subst (λ x. LastState id x vs) (known s (sym (LastState-lookup s vs [] l) ∙ h)) l
        | inr silent ↦ absurd (cc (Silent-lookup vs [] silent, h))
      ]

module _ (ref : String) where
  message_id-IsMessage :
      (v : Value) → (has (message_id (prop "sequence" v)) ref ≡ true) ↔ IsMessage ref v
  message_id-IsMessage v = (to (prop "sequence" v) refl, from)
    where
      to :
          (o : Option Value)
          → prop "sequence" v ≡ o
          → has (message_id o) ref ≡ true
          → IsMessage ref v
      to (some (num z)) q h = (z, q, ground (arith, eq_iff (signed_decimal z) ref))
      to o q h = absurd (cc (h))

      from : IsMessage ref v → has (message_id (prop "sequence" v)) ref ≡ true
      from (z, q, r) = rw q (ground (arith, eq_iff (signed_decimal z) ref, r))

  artifact_id-IsArtifact :
      (v : Value) → (has (artifact_id (string (prop "id" v))) ref ≡ true) ↔ IsArtifact ref v
  artifact_id-IsArtifact v = (to (string (prop "id" v)) refl, from)
    where
      to :
          (o : Option String)
          → string (prop "id" v) ≡ o
          → has (artifact_id o) ref ≡ true
          → IsArtifact ref v
      to (some i) q h = q ∙ ap some ((eq_iff i ref).0 (ground arith))
      to none q h = absurd (cc (h))

      from : IsArtifact ref v → has (artifact_id (string (prop "id" v))) ref ≡ true
      from q = rw q (ground (arith, eq_refl ref))

  -- One item more.
  has-Among :
      (P : Value → Type 0) (xs ys : List String) (v : Value) (vs : Items)
      → (has xs ref ≡ true) ↔ P v
      → (has ys ref ≡ true) ↔ Among P vs
      → (has (xs ++ ys) ref ≡ true) ↔ Among P (cons v vs)
  has-Among P xs ys v vs here there = (
    λ h. elim (Bool-cases (has xs ref)) [
      | inl hit ↦ first v vs (here.0 hit)
      | inr miss ↦ further v vs (there.0 (ground (arith, has-append xs ys ref, h, miss)))
    ],
    from,
  )
    where
      from : Among P (cons v vs) → has (xs ++ ys) ref ≡ true
      from (first _ _ p) = ground (arith, has-append xs ys ref, here.1 p)
      from (further _ _ m) = ground (arith, has-append xs ys ref, there.1 m)

  Among-nil : (P : Value → Type 0) → (has [] ref ≡ true) ↔ Among P nil
  Among-nil P = (λ h. absurd (cc (h)), none_among)
    where
      none_among : Among P nil → has [] ref ≡ true
      none_among m = elim m [ ]

  pub message_ids_of-Among :
      (vs : Items) → (has (message_ids_of vs) ref ≡ true) ↔ Among (IsMessage ref) vs
  unfolding message_ids_of
  message_ids_of-Among nil = Among-nil (IsMessage ref)
  message_ids_of-Among (cons v vs) =
      has-Among (IsMessage ref) (message_id (prop "sequence" v)) (message_ids_of vs) v vs
        (message_id-IsMessage v) (message_ids_of-Among vs)

  pub artifact_ids_of-Among :
      (vs : Items) → (has (artifact_ids_of vs) ref ≡ true) ↔ Among (IsArtifact ref) vs
  unfolding artifact_ids_of
  artifact_ids_of-Among nil = Among-nil (IsArtifact ref)
  artifact_ids_of-Among (cons v vs) =
      has-Among (IsArtifact ref) (artifact_id (string (prop "id" v))) (artifact_ids_of vs) v vs
        (artifact_id-IsArtifact v) (artifact_ids_of-Among vs)
