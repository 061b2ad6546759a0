-- ===== src/Orchestrator/Store.antt =====
-- OrchestratorRepository of src/material_agent/orchestrator/storage.py: its operations as one type of
-- requests, and sequences of them. Each method writes with its last statement, so a method that
-- raises leaves the store as it was.
pub mod Rows
pub mod Runs
pub mod Stages
pub mod Approvals
pub mod Jobs
use materials_screening_agen.Prelude.{String, ℕ, Bool, Option, List, [], ◌∷◌, Result, attempt}
use materials_screening_agen.Orchestrator.Status.{ApprovalStatus}
use materials_screening_agen.Orchestrator.Store.Rows.{
  Store, StoreError, StageRow, AttemptRow, ApprovalRow, OperationRow, ExternalJob, EventRow,
  RequirementRow, ResponseRow,
}
use materials_screening_agen.Orchestrator.Store.Runs.{
  create_project, create_run, update_run, RunUpdate, record_requirement,
}
use materials_screening_agen.Orchestrator.Store.Stages.{upsert_stage_run, record_stage_attempt}
use materials_screening_agen.Orchestrator.Store.Approvals.{
  ensure_approval, decide_approval, append_event, record_interaction_response,
}
use materials_screening_agen.Orchestrator.Store.Jobs.{record_operation, record_external_job}

-- A call of one of the methods that write.
pub data Request : Type 0 where
  project : String → String → Request
  run : String → String → String → String → String → String → Request
  run_update : String → RunUpdate → Request
  requirement : RequirementRow → Request
  stage_run : StageRow → Request
  stage_attempt : AttemptRow → Request
  approval : ApprovalRow → Request
  decision : String → ApprovalStatus → String → Request
  operation : OperationRow → Request
  external_job : ExternalJob → Request
  event : EventRow → Request
  response : ResponseRow → Request

unfoldable pub handle : Request → Store → Result StoreError Store
handle (project id root) = create_project id root
handle (run id p raw status mode version) = create_run id p raw status mode version
handle (run_update id u) = update_run id u
handle (requirement r) = record_requirement r
handle (stage_run r) = upsert_stage_run r
handle (stage_attempt r) = record_stage_attempt r
handle (approval r) = ensure_approval r
handle (decision id s d) = decide_approval id s d
handle (operation r) = record_operation r
handle (external_job r) = record_external_job r
handle (event r) = append_event r
handle (response r) = record_interaction_response r

-- A caller that goes on after a raise.
unfoldable pub serve : Store → List Request → Store
serve st [] = st
serve st (r ∷ rest) = serve (attempt st (handle r st)) rest
