-- ===== src/Prompt/Orders.antt =====
-- The order in which the loop of adapters/paseo/wakeup-delta.ts collects tasks, told of the log alone.
use pluto_agent_platform.Common.{
  String, Bool, true, false, not, ◌&&◌, ◌||◌, ◌==◌, Option, none, some, List, [], ◌∷◌, ◌++◌, ◌≡◌,
  refl, if◌then◌else◌, arith, eq_iff, eq_refl, Bool-cases, inl, inr, sym, subst, ◌∙◌, ap, filter,
  ◌⊎◌,
}
use pluto_agent_platform.Common.Int.{ℤ, leb_ℤ, pos}
use pluto_agent_platform.Common.Dict.{has, lookup, remove, insert}
use pluto_agent_platform.Protocol.Event.{EventBody, RunEvent, task_created, task_state_changed}
use pluto_agent_platform.Prompt.Views.{TaskView, accepts}

-- A list of ids with one more, which keeps its place if it is there; and with one less.
unfoldable pub put : String → List String → List String
put k [] = k ∷ []
put k (i ∷ ids) = let rest = put k ids in if i == k then i ∷ ids else i ∷ rest

unfoldable pub without : String → List String → List String
without k [] = []
without k (i ∷ ids) = let rest = without k ids in if i == k then rest else i ∷ rest

-- Each id once, in the order of the first occurrences.
unfoldable pub in_order : List String → List String → List String
unfolding put
in_order known [] = known
in_order known (i ∷ ids) = in_order (put i known) ids

-- An accepted event behind the sequence.
abbrev pub recent : ℤ → RunEvent → Bool
recent from e = not (leb_ℤ (pos e.sequence) from) && accepts e.outcome

abbrev pub created_by : Bool → EventBody → List String
created_by true (task_created p) = p.task_id ∷ []
created_by _ _ = []

abbrev pub changed_by : Bool → EventBody → List String
changed_by true (task_state_changed p) = p.task_id ∷ []
changed_by _ _ = []

-- The tasks that such events create, and those whose state they change.
unfoldable pub created_since : ℤ → List RunEvent → List String
created_since from [] = []
created_since from (e ∷ es) = created_by (recent from e) e.body ++ created_since from es

unfoldable pub changed_since : ℤ → List RunEvent → List String
changed_since from [] = []
changed_since from (e ∷ es) = changed_by (recent from e) e.body ++ changed_since from es

abbrev pub unlisted : List String → String → Bool
unlisted known id = not (has known id)

pub in_order-append :
    (known xs ys : List String) → in_order known (xs ++ ys) ≡ in_order (in_order known xs) ys
unfolding in_order
in_order-append known [] ys = refl
in_order-append known (x ∷ xs) ys = in_order-append (put x known) xs ys

has-put : (k i : String) (ids : List String) → has (put k ids) i ≡ (k == i || has ids i)
unfolding put
has-put k i [] = refl
has-put k i (x ∷ ids) = ground (arith, has-put k i ids, eq_iff x k, eq_iff x i, eq_iff k i)

-- What a created id does to the changed ones that were not created before.
pub filter-put_known :
    (k : String) (known ids : List String)
    → filter (unlisted (put k known)) ids ≡ without k (filter (unlisted known) ids)
unfolding without
filter-put_known k known [] = refl
filter-put_known k known (i ∷ ids) = elim (Bool-cases (has known i)) [
  | inl there ↦ rw (has-put, there) (ground (arith, filter-put_known k known ids))
  | inr new ↦ elim (Bool-cases (i == k)) [
    | inl same ↦
        rw (has-put, new, (eq_iff i k).0 same, eq_refl k)
          (ground (arith, filter-put_known k known ids))
    | inr differs ↦
        rw (has-put, new, differs)
          (ground (arith, filter-put_known k known ids, eq_iff i k, eq_iff k i, differs))
  ]
]

-- What a changed id does to them, where it was created before and where it was not.
pub filter-put_listed :
    (k : String) (known ids : List String)
    → has known k ≡ true
    → filter (unlisted known) (put k ids) ≡ filter (unlisted known) ids
unfolding put
filter-put_listed k known [] listed = rw listed refl
filter-put_listed k known (i ∷ ids) listed = elim (Bool-cases (i == k)) [
  | inl same ↦ rw same refl
  | inr differs ↦ elim (Bool-cases (has known i)) [
    | inl there ↦ rw (differs, there) (filter-put_listed k known ids listed)
    | inr new ↦ rw (differs, new) (ap (λ rest. i ∷ rest) (filter-put_listed k known ids listed))
  ]
]

pub filter-put-unlisted :
    (k : String) (known ids : List String)
    → has known k ≡ false
    → filter (unlisted known) (put k ids) ≡ put k (filter (unlisted known) ids)
unfolding put
filter-put-unlisted k known [] new = rw new refl
filter-put-unlisted k known (i ∷ ids) new = elim (Bool-cases (i == k)) [
  | inl same ↦
      let kept : has known i ≡ false =
        subst (λ x. has known x ≡ false) (sym ((eq_iff i k).0 same)) new in
      rw (same, kept, same) refl
  | inr differs ↦ elim (Bool-cases (has known i)) [
    | inl there ↦ rw (differs, there) (filter-put-unlisted k known ids new)
    | inr other ↦
        rw (differs, other, differs) (ap (λ rest. i ∷ rest) (filter-put-unlisted k known ids new))
  ]
]

module _ (tasks : List (String × TaskView)) where
  abbrev entry_for : String → Option TaskView → List (String × TaskView) → List (String × TaskView)
  entry_for id none rest = rest
  entry_for id (some t) rest = (id, t) ∷ rest

  -- The view's tasks of some ids, as a map.
  unfoldable pub entries : List String → List (String × TaskView)
  entries [] = []
  entries (i ∷ ids) = entry_for i (lookup i tasks) (entries ids)

  pub entries-put :
      (k : String) (t : TaskView) (ids : List String)
      → lookup k tasks ≡ some t
      → insert k t (entries ids) ≡ entries (put k ids)
  unfolding entries put insert
  entries-put k t [] found = rw found refl
  entries-put k t (i ∷ ids) found =
      go (lookup i tasks) refl (Bool-cases (i == k)) (entries-put k t ids found)
    where
      go :
          (o : Option TaskView)
          → lookup i tasks ≡ o
          → ((i == k) ≡ true) ⊎ ((i == k) ≡ false)
          → insert k t (entries ids) ≡ entries (put k ids)
          → insert k t (entry_for i o (entries ids))
            ≡ entries (if i == k then i ∷ ids else i ∷ put k ids)
      go none q (inl same) rest =
          absurd (cc (ap (λ x. lookup x tasks) ((eq_iff i k).0 same), q, found))
      go none q (inr differs) rest = rw (differs, q) rest
      go (some u) q (inl same) rest =
          let held : some u ≡ some t =
            sym q ∙ ap (λ x. lookup x tasks) ((eq_iff i k).0 same) ∙ found in
          rw (same, q) (pair held ((eq_iff i k).0 same))
        where
          pair : some u ≡ some t → i ≡ k → (k, t) ∷ entries ids ≡ (i, u) ∷ entries ids
          pair h e = cc
      go (some u) q (inr differs) rest = rw (differs, q) (ap (λ later. (i, u) ∷ later) rest)

  -- An id without a task in the view makes no entry.
  pub entries-put_absent :
      (k : String) (ids : List String) → lookup k tasks ≡ none → entries (put k ids) ≡ entries ids
  unfolding entries put
  entries-put_absent k [] absent = rw absent refl
  entries-put_absent k (i ∷ ids) absent = elim (Bool-cases (i == k)) [
    | inl same ↦ rw same refl
    | inr differs ↦ rw differs (ap (entry_for i (lookup i tasks)) (entries-put_absent k ids absent))
  ]

  pub entries-without :
      (k : String) (ids : List String) → remove k (entries ids) ≡ entries (without k ids)
  unfolding entries without remove
  entries-without k [] = refl
  entries-without k (i ∷ ids) =
      go (lookup i tasks) refl (Bool-cases (i == k)) (entries-without k ids)
    where
      go :
          (o : Option TaskView)
          → lookup i tasks ≡ o
          → ((i == k) ≡ true) ⊎ ((i == k) ≡ false)
          → remove k (entries ids) ≡ entries (without k ids)
          → remove k (entry_for i o (entries ids))
            ≡ entries (if i == k then without k ids else i ∷ without k ids)
      go none q (inl same) rest = rw same rest
      go none q (inr differs) rest = rw (differs, q) rest
      go (some u) q (inl same) rest = rw same rest
      go (some u) q (inr differs) rest = rw (differs, q) (ap (λ later. (i, u) ∷ later) rest)

  pub entries-without_absent :
      (k : String) (ids : List String)
      → lookup k tasks ≡ none
      → entries (without k ids) ≡ entries ids
  unfolding entries without
  entries-without_absent k [] absent = refl
  entries-without_absent k (i ∷ ids) absent = elim (Bool-cases (i == k)) [
    | inl same ↦
        let none_here = ap (λ x. lookup x tasks) ((eq_iff i k).0 same) ∙ absent in
        rw (same, none_here) (entries-without_absent k ids absent)
    | inr differs ↦
        rw differs (ap (entry_for i (lookup i tasks)) (entries-without_absent k ids absent))
  ]

  pub lookup-entries :
      (k : String) (ids : List String)
      → lookup k (entries ids) ≡ (if has ids k then lookup k tasks else none)
  unfolding entries lookup
  lookup-entries k [] = refl
  lookup-entries k (i ∷ ids) = go (lookup i tasks) refl (Bool-cases (i == k)) (lookup-entries k ids)
    where
      go :
          (o : Option TaskView)
          → lookup i tasks ≡ o
          → ((i == k) ≡ true) ⊎ ((i == k) ≡ false)
          → lookup k (entries ids) ≡ (if has ids k then lookup k tasks else none)
          → lookup k (entry_for i o (entries ids))
            ≡ (if i == k || has ids k then lookup k tasks else none)
      go none q (inl same) rest =
          let none_here : lookup k tasks ≡ none =
            ap (λ x. lookup x tasks) (sym ((eq_iff i k).0 same)) ∙ q in
          rw (same, none_here) (rest ∙ rw none_here (ground arith))
      go none q (inr differs) rest = rw differs rest
      go (some u) q (inl same) rest =
          let here : lookup k tasks ≡ some u =
            ap (λ x. lookup x tasks) (sym ((eq_iff i k).0 same)) ∙ q in
          rw (same, here) refl
      go (some u) q (inr differs) rest = rw differs rest
