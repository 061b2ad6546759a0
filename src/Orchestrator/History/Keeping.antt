-- ===== src/Orchestrator/History/Keeping.antt =====
-- What the calls of the store (src/material_agent/orchestrator/storage.py) leave in the tables of events,
-- interaction responses and requirement revisions.
use materials_screening_agen.Prelude.{
  ◌≡◌, refl, Bool, true, false, some, List, [], ◌∷◌, arith, attempt, find?, find?-append, string_eq,
  nat_eq, option_eq,
}
use materials_screening_agen.Orchestrator.Status.{external_job_enum}
use materials_screening_agen.Orchestrator.Store.{
  Request, project, requirement, event, response, handle, serve,
}
use materials_screening_agen.Orchestrator.Store.Rows.{Store, EventRow, ResponseRow, RequirementRow}
use materials_screening_agen.Orchestrator.Store.Runs.{
  create_project, create_run, update_run, record_requirement,
}
use materials_screening_agen.Orchestrator.Store.Stages.{upsert_stage_run, record_stage_attempt}
use materials_screening_agen.Orchestrator.Store.Approvals.{
  ensure_approval, decide_approval, append_event, record_interaction_response,
}
use materials_screening_agen.Orchestrator.Store.Jobs.{record_operation, record_external_job}

abbrev pub writes_events : Request → Bool
writes_events (event _) = true
writes_events _ = false

pub events-handle :
    (r : Request) (st : Store)
    → writes_events r ≡ false
    → (attempt st (handle r st)).events ≡ st.events
unfolding handle create_project create_run update_run record_requirement upsert_stage_run
    record_stage_attempt ensure_approval decide_approval record_interaction_response
    record_operation record_external_job
events-handle (project a b) st h = ground arith
events-handle _ st h = ground arith

abbrev pub writes_responses : Request → Bool
writes_responses (response _) = true
writes_responses _ = false

pub responses-handle :
    (r : Request) (st : Store)
    → writes_responses r ≡ false
    → (attempt st (handle r st)).responses ≡ st.responses
unfolding handle create_project create_run update_run record_requirement upsert_stage_run
    record_stage_attempt ensure_approval decide_approval append_event record_operation
    record_external_job
responses-handle (project a b) st h = ground arith
responses-handle _ st h = ground arith

abbrev pub writes_requirements : Request → Bool
writes_requirements (requirement _) = true
writes_requirements _ = false

pub requirements-handle :
    (r : Request) (st : Store)
    → writes_requirements r ≡ false
    → (attempt st (handle r st)).requirements ≡ st.requirements
unfolding handle create_project create_run update_run upsert_stage_run record_stage_attempt
    ensure_approval decide_approval append_event record_interaction_response record_operation
    record_external_job
requirements-handle (project a b) st h = ground arith
requirements-handle _ st h = ground arith

event-handle :
    (r : Request) (p : EventRow → Bool) (st : Store) (row : EventRow)
    → find? p st.events ≡ some row
    → find? p (attempt st (handle r st)).events ≡ some row
unfolding handle append_event
event-handle (event e) p st row h = ground (arith, find?-append p st.events (e ∷ []))
event-handle r p st row h = rw (events-handle r st refl) h

response-handle :
    (r : Request) (p : ResponseRow → Bool) (st : Store) (row : ResponseRow)
    → find? p st.responses ≡ some row
    → find? p (attempt st (handle r st)).responses ≡ some row
unfolding handle record_interaction_response
response-handle (response e) p st row h = ground (arith, find?-append p st.responses (e ∷ []))
response-handle r p st row h = rw (responses-handle r st refl) h

requirement-handle :
    (r : Request) (p : RequirementRow → Bool) (st : Store) (row : RequirementRow)
    → find? p st.requirements ≡ some row
    → find? p (attempt st (handle r st)).requirements ≡ some row
unfolding handle record_requirement
requirement-handle (requirement e) p st row h =
    ground (arith, find?-append p st.requirements (e ∷ []))
requirement-handle r p st row h = rw (requirements-handle r st refl) h

-- The rows that are there are found later.
pub stored-serve :
    (rs : List Request) (st : Store)
    → ((p : EventRow → Bool) (row : EventRow)
        → find? p st.events ≡ some row
        → find? p (serve st rs).events ≡ some row)
      × ((p : ResponseRow → Bool) (row : ResponseRow)
          → find? p st.responses ≡ some row
          → find? p (serve st rs).responses ≡ some row)
      × ((p : RequirementRow → Bool) (row : RequirementRow)
          → find? p st.requirements ≡ some row
          → find? p (serve st rs).requirements ≡ some row)
unfolding serve
stored-serve [] st = (λ p row h. h, λ p row h. h, λ p row h. h)
stored-serve (r ∷ rs) st =
    let (later_events, later_responses, later_requirements) =
      stored-serve rs (attempt st (handle r st)) in
    (
      λ p row h. later_events p row (event-handle r p st row h),
      λ p row h. later_responses p row (response-handle r p st row h),
      λ p row h. later_requirements p row (requirement-handle r p st row h),
    )
