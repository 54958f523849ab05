-- ===== src/Projection/Evidence.antt =====
-- projections/evidence-projection.ts.
use pluto_agent_platform.Common.{ℕ, String, Option, none, some, List, [], ◌∷◌, ◌++◌, if◌then◌else◌}
use pluto_agent_platform.Common.Dict.{has, add}
use pluto_agent_platform.Protocol.Event.{
  RunCompletedStatus, EventBody, RunEvent, RunStartedPayload, RunCompletedPayload,
}

-- The kinds of events that are cited.
pub data CitedKind : Type 0 where
  run_started run_completed : CitedKind

pub record Citation : Type 0 where
  pub event_id : String
  pub sequence : ℕ
  pub kind : CitedKind
  pub summary : String

-- `EvidenceProjectionRun`. The source asserts that `startedAt` is not null; where no start was seen it
-- is null, which is `none` here.
pub record EvidenceRun : Type 0 where
  pub run_id : String
  pub status : RunCompletedStatus
  pub started_at : Option String
  pub completed_at : String
  pub summary : Option String

-- `EvidenceReducerState`.
pub record EvidenceReducerState : Type 0 where
  pub run : Option EvidenceRun
  pub citations : List Citation
  pub pending_started_at : Option String
  pub seen_event_ids : List String

abbrev pub initial_evidence_state : EvidenceReducerState
initial_evidence_state = record {
  run = none;
  citations = [];
  pending_started_at = none;
  seen_event_ids = [];
}

unfoldable pub append_citation :
    EvidenceReducerState → RunEvent → CitedKind → String → EvidenceReducerState
unfolding add
append_citation state event kind summary = record state {
  citations =
      state.citations
      ++ record {
        event_id = event.event_id;
        sequence = event.sequence;
        kind = kind;
        summary = summary;
      }
        ∷ [];
  seen_event_ids = add state.seen_event_ids event.event_id;
}

abbrev evidence_started : EvidenceReducerState → RunEvent → RunStartedPayload → EvidenceReducerState
evidence_started state event p =
    let next = append_citation state event CitedKind.run_started "Run started." in
    record next { pending_started_at = some p.started_at }

abbrev evidence_completed :
    EvidenceReducerState → RunEvent → RunCompletedPayload → EvidenceReducerState
evidence_completed state event p =
    let next = append_citation state event CitedKind.run_completed "Run completed." in
    record next {
      run = some (record {
        run_id = event.run_id;
        status = p.status;
        started_at = state.pending_started_at;
        completed_at = p.completed_at;
        summary = p.summary;
      });
      pending_started_at = none;
    }

abbrev pub apply_to_evidence : EvidenceReducerState → RunEvent → EventBody → EvidenceReducerState
apply_to_evidence state event (EventBody.run_started p) =
    if has state.seen_event_ids event.event_id then state else evidence_started state event p
apply_to_evidence state event (EventBody.run_completed p) =
    if has state.seen_event_ids event.event_id then state else evidence_completed state event p
apply_to_evidence state event _ = state

unfoldable pub evidence_reducer : EvidenceReducerState → RunEvent → EvidenceReducerState
unfolding append_citation
evidence_reducer state event = apply_to_evidence state event event.body
