-- ===== src/Prompt/Lookups.antt =====
-- The tasks of a prompt view under their ids, as adapters/paseo/wakeup-delta.ts looks them up.
use pluto_agent_platform.Common.{String, List, [], ◌∷◌, ◌≡◌, some, inl, inr}
use pluto_agent_platform.Common.Dict.{lookup, insert, lookup-insert_cases}
use pluto_agent_platform.Prompt.Views.{TaskView}
use pluto_agent_platform.Prompt.Delta.{tasks_by_id}

-- Every entry stands under its id.
abbrev pub ById : List (String × TaskView) → Type 0
ById dict = (id : String) (t : TaskView) → lookup id dict ≡ some t → t.id ≡ id

pub tasks_by_id-ById :
    (dict : List (String × TaskView)) (ts : List TaskView) → ById dict → ById (tasks_by_id dict ts)
unfolding tasks_by_id
tasks_by_id-ById dict [] h = h
tasks_by_id-ById dict (t ∷ ts) h = tasks_by_id-ById (insert t.id t dict) ts λ id held found.
    elim (lookup-insert_cases t.id id t held dict found) [
      | inl (same, is_t) ↦ cc (same, is_t)
      | inr before ↦ h id held before
    ]
