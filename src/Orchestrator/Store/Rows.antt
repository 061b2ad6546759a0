-- ===== src/Orchestrator/Store/Rows.antt =====
-- The tables of src/material_agent/orchestrator/storage.py (`_create_v2_tables`). A row is a record of
-- its columns, but for the time stamps, which no method reads. A column `_json` holds the text that
-- `json.dumps` returned, with sorted keys.
use materials_screening_agen.Prelude.{
  ℕ, String, Bool, true, false, Option, none, some, List, [], Check, ok, err, ◌==◌, ◌&&◌, not,
  find?, truthy, string_eq, option_eq,
}
use materials_screening_agen.Orchestrator.Transitions.{TransitionError}

pub record ProjectRow : Type 0 where
  pub project_id : String
  pub project_root : String

pub record RunRow : Type 0 where
  pub run_id : String
  pub project_id : String
  pub thread_id : String
  pub raw_request : String
  pub status : String
  pub current_stage : Option String
  pub requirement_revision : Option ℕ
  pub report_uri : Option String
  pub checkpoint_schema_version : String
  pub run_mode : String

pub record RequirementRow : Type 0 where
  pub run_id : String
  pub revision : ℕ
  pub artifact_uri : String
  pub artifact_sha256 : String

pub record StageRow : Type 0 where
  pub run_id : String
  pub stage : String
  pub stage_id : Option String
  pub agent_id : Option String
  pub status : String
  pub attempt : ℕ
  pub operation_key : Option String
  pub operation_ref : Option String
  pub result_uri : Option String
  pub result_sha256 : Option String
  pub required : Option Bool
  pub disposition : Option String
  pub error_json : Option String

pub record AttemptRow : Type 0 where
  pub run_id : String
  pub stage_id : String
  pub attempt : ℕ
  pub agent_id : String
  pub operation_key : String
  pub status : String
  pub plan_uri : Option String
  pub plan_sha256 : Option String
  pub result_uri : Option String
  pub result_sha256 : Option String
  pub error_json : Option String

pub record ApprovalRow : Type 0 where
  pub approval_id : String
  pub interaction_id : String
  pub run_id : String
  pub gate_type : String
  pub status : String
  pub input_sha256 : String
  pub payload_json : String
  pub decision_json : Option String

pub record OperationRow : Type 0 where
  pub idempotency_key : String
  pub run_id : String
  pub stage : String
  pub status : String
  pub operation_ref : Option String
  pub payload_json : String

pub record ExternalJob : Type 0 where
  pub run_id : String
  pub stage_id : String
  pub attempt : ℕ
  pub backend : String
  pub external_job_ref : String
  pub status : String
  pub status_sequence : ℕ
  pub submit_operation_key : String
  pub result_uri : Option String
  pub result_sha256 : Option String

pub record ResponseRow : Type 0 where
  pub interaction_id : String
  pub run_id : String
  pub response_json : String

pub record EventRow : Type 0 where
  pub event_key : String
  pub run_id : String
  pub event_type : String
  pub payload_json : String

pub record Store : Type 0 where
  pub projects : List ProjectRow
  pub runs : List RunRow
  pub requirements : List RequirementRow
  pub stage_runs : List StageRow
  pub stage_attempts : List AttemptRow
  pub approvals : List ApprovalRow
  pub operations : List OperationRow
  pub external_jobs : List ExternalJob
  pub responses : List ResponseRow
  pub events : List EventRow

abbrev pub empty : Store
empty = record {
  projects = [];
  runs = [];
  requirements = [];
  stage_runs = [];
  stage_attempts = [];
  approvals = [];
  operations = [];
  external_jobs = [];
  responses = [];
  events = [];
}

-- `RepositoryConflictError`, `KeyError`, what the transition tables raise, and sqlite3's
-- `IntegrityError` for a key that is taken or a run that is not there.
pub data StoreError : Type 0 where
  conflict unknown_key integrity overflow : StoreError
  transition : TransitionError → StoreError

abbrev pub checked : Check TransitionError → Check StoreError
checked (ok u) = ok u
checked (err e) = err (transition e)

abbrev pub run_key : String → RunRow → Bool
run_key id r = r.run_id == id

-- REFERENCES runs(run_id)
abbrev pub run_exists : String → Store → Bool
run_exists id st = elim (find? (run_key id) st.runs) [ some r ↦ true | none ↦ false ]

-- Both are set and they differ.
abbrev pub differ : Option String → Option String → Bool
differ a b = truthy a && truthy b && not (a == b)
