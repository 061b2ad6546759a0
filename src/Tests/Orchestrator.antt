-- ===== src/Tests/Orchestrator.antt =====
-- The store and the state machines of src/material_agent/orchestrator on concrete inputs.
use materials_screening_agen.Prelude.{
  all, String, ◌≤◌, ◌≡◌, ◌≢◌, refl, true, false, none, some, List, [], ◌∷◌, ok, err, find?, update,
  ◌==◌, ◌&&◌, string_eq, if◌then◌else◌,
}
use materials_screening_agen.Orchestrator.Status.{
  RunStatus, StageStatus, ApprovalStatus, ExternalJobStatus, run_enum, stage_enum,
  external_job_enum, approval_enum, approval_value,
}
use materials_screening_agen.Orchestrator.Transitions.{
  invalid_state_transition, run_transitions, stage_transitions, approval_transitions,
  external_job_transitions, validate, listed, validate_run_transition, validate_stage_transition,
  validate_approval_transition, validate_external_transition,
}
use materials_screening_agen.Orchestrator.Transitions.Paths.{walk, final-walk}
use materials_screening_agen.Orchestrator.Transitions.Phases.{phase, phase-walk}
use materials_screening_agen.Orchestrator.Transitions.Stages.{result-walk}
use materials_screening_agen.Orchestrator.Transitions.Cancelling.{CancelsLive, cancels_live}
use materials_screening_agen.Orchestrator.Store.{
  Request, event, response, requirement, project, run, run_update, approval, decision, external_job,
  handle, serve,
}
use materials_screening_agen.Orchestrator.Store.Rows.{
  Store, RunRow, ApprovalRow, EventRow, ResponseRow, RequirementRow, ExternalJob, conflict,
  overflow, empty,
}
use materials_screening_agen.Orchestrator.Store.Runs.{
  create_project, create_run, update_run, record_requirement, get_run,
}
use materials_screening_agen.Orchestrator.Store.Approvals.{
  ensure_approval, get_approval, decide, append_event, record_interaction_response,
}
use materials_screening_agen.Orchestrator.Store.Jobs.{
  record_external_job, get_external_job, check_job,
}
use materials_screening_agen.Orchestrator.History.Columns.{Course}
use materials_screening_agen.Orchestrator.History.Runs.{serve-Course}
use materials_screening_agen.Orchestrator.History.Approvals.{first_decision}
use materials_screening_agen.Orchestrator.History.Jobs.{job-Course}
use materials_screening_agen.Orchestrator.History.Replays.{
  append_event-serve, record_interaction_response-serve,
}
use materials_screening_agen.Orchestrator.History.Inserting.{recorded}
use materials_screening_agen.Orchestrator.History.Records.{Added, records-serve}

abbrev clarified : List RunStatus
clarified =
    RunStatus.clarifying ∷ RunStatus.requirement_review ∷ RunStatus.planned ∷ RunStatus.running ∷ []

clarified-walk : walk run_transitions RunStatus.intake clarified ≡ ok RunStatus.running
unfolding walk validate
clarified-walk = refl

back_to_intake :
    walk run_transitions RunStatus.running (RunStatus.intake ∷ []) ≢ ok RunStatus.intake
unfolding walk validate
back_to_intake e = cc

phase-walk_example :
    (phase RunStatus.intake ≤ phase RunStatus.running)
    × (validate run_transitions RunStatus.requirement_review RunStatus.clarifying
        ≡ err invalid_state_transition)
    × (validate run_transitions RunStatus.failed RunStatus.running ≡ err invalid_state_transition)
phase-walk_example = phase-walk RunStatus.intake clarified clarified-walk

cancelled_twice :
    walk run_transitions RunStatus.cancelled (RunStatus.cancelled ∷ []) ≡ ok RunStatus.cancelled
unfolding walk validate
cancelled_twice = refl

final-walk_example : RunStatus.cancelled ≡ RunStatus.cancelled
final-walk_example =
    final-walk run_transitions RunStatus.cancelled (RunStatus.cancelled ∷ []) refl cancelled_twice

abbrev finished : List StageStatus
finished =
    StageStatus.validating_input ∷ StageStatus.ready ∷ StageStatus.running ∷ StageStatus.succeeded
    ∷ []

finished-walk : walk stage_transitions StageStatus.pending finished ≡ ok StageStatus.succeeded
unfolding walk validate
finished-walk = refl

result-walk_example :
    (listed StageStatus.validating_input finished ≡ true)
    × (listed StageStatus.running finished ≡ true)
result-walk_example = result-walk finished finished-walk refl

cancels_live_example :
    CancelsLive validate_run_transition run_transitions RunStatus.paused
    × CancelsLive validate_stage_transition stage_transitions StageStatus.skipped
    × CancelsLive validate_approval_transition approval_transitions ApprovalStatus.pending
    × CancelsLive validate_external_transition external_job_transitions ExternalJobStatus.timeout
cancels_live_example =
    cancels_live RunStatus.paused StageStatus.skipped ApprovalStatus.pending
      ExternalJobStatus.timeout

abbrev started : List Request
started = project "p" "/data/p" ∷ run "r" "p" "find flat bands" "INTAKE" "request" "v3" ∷ []

abbrev status_update : String → Request
status_update s = run_update "r" (record {
  status = some s;
  current_stage = none;
  requirement_revision = none;
  report_uri = none;
  clear_current_stage = false;
})

abbrev started_row : RunRow
started_row = record {
  run_id = "r";
  project_id = "p";
  thread_id = "r";
  raw_request = "find flat bands";
  status = "INTAKE";
  current_stage = none;
  requirement_revision = none;
  report_uri = none;
  checkpoint_schema_version = "v3";
  run_mode = "request";
}

started_run : get_run "r" (serve empty started) ≡ some started_row
unfolding serve handle create_project create_run get_run find?
started_run = refl

-- The third update is refused, and the fourth names no status.
abbrev updates : List Request
updates =
    status_update "RUNNING"
    ∷ status_update "SUCCEEDED"
    ∷ status_update "RUNNING"
    ∷ status_update "DONE"
    ∷ []

serve-Course_example :
    (new : RunRow) × (get_run "r" (serve (serve empty started) updates) ≡ some new)
    × (new.project_id ≡ "p")
    × (new.raw_request ≡ "find flat bands")
    × Course run_transitions RunStatus.intake new.status
serve-Course_example =
    serve-Course updates "r" (serve empty started) started_row RunStatus.intake started_run refl

abbrev asked : ApprovalRow
asked = record {
  approval_id = "a";
  interaction_id = "i";
  run_id = "r";
  gate_type = "REQUIREMENT";
  status = "PENDING";
  input_sha256 = "00";
  payload_json = "{}";
  decision_json = none;
}

abbrev with_approval : Store
with_approval = serve empty (
    project "p" "/data/p"
    ∷ run "r" "p" "find flat bands" "INTAKE" "request" "v3"
    ∷ approval asked
    ∷ [])

asked_approval : get_approval "a" with_approval ≡ some asked
unfolding serve handle create_project create_run ensure_approval get_approval find?
asked_approval = refl

first_decision_example :
    let end = serve with_approval (
      decision "a" ApprovalStatus.approved "{1}"
      ∷ decision "a" ApprovalStatus.rejected "{2}"
      ∷ []) in
    (get_approval "a" end ≡ some (decide "APPROVED" "{1}" asked))
    × ((t : ApprovalStatus) (e : String)
        → handle (decision "a" t e) end
          ≡ (if "APPROVED" == approval_value t && "{1}" == e then ok end else err conflict))
first_decision_example =
    first_decision "a" ApprovalStatus.approved "{1}"
      (decision "a" ApprovalStatus.rejected "{2}" ∷ []) with_approval asked asked_approval refl refl

abbrev job : ExternalJob
job = record {
  run_id = "r";
  stage_id = "dft";
  attempt = 1;
  backend = "slurm";
  external_job_ref = "42";
  status = "SUBMITTED";
  status_sequence = 0;
  submit_operation_key = "k";
  result_uri = none;
  result_sha256 = none;
}

abbrev with_job : Store
with_job = serve empty (
    project "p" "/data/p"
    ∷ run "r" "p" "find flat bands" "INTAKE" "request" "v3"
    ∷ external_job job
    ∷ [])

submitted_job : get_external_job "r" "dft" 1 with_job ≡ some job
unfolding serve handle create_project create_run record_external_job get_external_job find?
submitted_job = refl

abbrev job_updates : List Request
job_updates =
    external_job (record job { status = "RUNNING"; status_sequence = 2 })
    ∷ external_job (record job { status = "SUBMITTED"; status_sequence = 1 })
    ∷ []

job-Course_example :
    (new : ExternalJob) × (get_external_job "r" "dft" 1 (serve with_job job_updates) ≡ some new)
    × (new.backend ≡ "slurm")
    × (new.external_job_ref ≡ "42")
    × (new.submit_operation_key ≡ "k")
    × (0 ≤ new.status_sequence)
    × Course external_job_transitions ExternalJobStatus.submitted new.status
job-Course_example =
    job-Course job_updates "r" "dft" 1 with_job job ExternalJobStatus.submitted submitted_job refl

late_update_refused :
    get_external_job "r" "dft" 1 (serve with_job job_updates)
    ≡ some (record job { status = "RUNNING"; status_sequence = 2 })
unfolding serve handle create_project create_run record_external_job get_external_job find? update
    check_job validate_external_transition
late_update_refused = refl

abbrev first_event : EventRow
first_event = record {
  event_key = "k";
  run_id = "r";
  event_type = "RUN_STARTED";
  payload_json = "{}";
}

abbrev first_response : ResponseRow
first_response = record { interaction_id = "i"; run_id = "r"; response_json = "{}" }

abbrev first_requirement : RequirementRow
first_requirement = record {
  run_id = "r";
  revision = 1;
  artifact_uri = "requirements/1";
  artifact_sha256 = "00";
}

-- A store with a row in each of the tables, and calls that add a row to each, say one again and are refused.
abbrev with_records : Store
with_records = record with_approval {
  events = first_event ∷ [];
  responses = first_response ∷ [];
  requirements = first_requirement ∷ [];
}

abbrev record_calls : List Request
record_calls =
    event (record first_event { event_key = "l" })
    ∷ event first_event
    ∷ response (record first_response { interaction_id = "j" })
    ∷ response (record first_response { response_json = "[]" })
    ∷ requirement (record first_requirement { revision = 2 })
    ∷ status_update "RUNNING"
    ∷ []

record_calls-serve :
    let end = serve with_records record_calls in
    (end.events ≡ first_event ∷ record first_event { event_key = "l" } ∷ [])
    × (end.responses ≡ first_response ∷ record first_response { interaction_id = "j" } ∷ [])
    × (end.requirements ≡ first_requirement ∷ record first_requirement { revision = 2 } ∷ [])
unfolding serve handle create_project create_run ensure_approval append_event
    record_interaction_response record_requirement update_run find? update validate_run_transition
record_calls-serve = (refl, refl, refl)

records-serve_example :
    let end = serve with_records record_calls in
    Added event record_calls with_records.events end.events
    × Added response record_calls with_records.responses end.responses
    × Added requirement record_calls with_records.requirements end.requirements
    × (all record_calls (recorded with_records end) ≡ true)
records-serve_example = records-serve record_calls with_records

-- A revision that its column does not hold is refused.
late_revision :
    record_requirement (record first_requirement { revision = 9223372036854775808 }) with_records
    ≡ err overflow
unfolding record_requirement
late_revision = refl

append_event-serve_example :
    let st = record with_approval { events = first_event ∷ [] } in
    append_event first_event (serve st updates) ≡ ok (serve st updates)
append_event-serve_example =
    append_event-serve first_event updates with_approval
      (record with_approval { events = first_event ∷ [] })
      (unfold append_event serve handle create_project create_run ensure_approval find? in refl)

record_interaction_response-serve_example :
    let st = record with_approval { responses = first_response ∷ [] } in
    record_interaction_response first_response (serve st updates) ≡ ok (serve st updates)
record_interaction_response-serve_example =
    record_interaction_response-serve first_response updates with_approval
      (record with_approval { responses = first_response ∷ [] })
      (unfold record_interaction_response serve handle create_project create_run ensure_approval
          find? in
        refl)
