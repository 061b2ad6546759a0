-- ===== src/Orchestrator/Store/Jobs.antt =====
-- Idempotent operations and external jobs of src/material_agent/orchestrator/storage.py.
use materials_screening_agen.Prelude.{
  fits_integer, ◌>>◌, ℕ, String, Bool, true, false, Option, none, some, [], ◌∷◌, ◌++◌, Result,
  Check, ok, ◌>>◌, raise_if, ◌==◌, ◌&&◌, ◌||◌, not, find?, update, or_else, string_eq, nat_eq, ltb,
  if◌then◌else◌,
}
use materials_screening_agen.Orchestrator.Transitions.{validate_external_transition}
use materials_screening_agen.Orchestrator.Store.Rows.{
  overflow, Store, StoreError, conflict, integrity, OperationRow, ExternalJob, checked, run_exists,
  differ,
}

abbrev pub operation_key : String → OperationRow → Bool
operation_key key r = r.idempotency_key == key

abbrev pub operation_ended : String → Bool
operation_ended s =
    s == "SUCCEEDED" || s == "PARTIAL" || s == "PERMANENT_FAILED" || s == "CANCELLED"

-- ON CONFLICT(idempotency_key) DO UPDATE
abbrev pub merge_operation : OperationRow → OperationRow → OperationRow
merge_operation new old = record old {
  status = new.status;
  operation_ref = or_else new.operation_ref old.operation_ref;
  payload_json = new.payload_json;
}

-- A row whose status has ended is kept, and may only be recorded again as it is.
pub refresh_operation : OperationRow → OperationRow → Store → Result StoreError Store
refresh_operation existing row st =
    if operation_ended existing.status
    then (do
      raise_if
          (not (existing.status == row.status) || not (existing.payload_json == row.payload_json))
          conflict
      ok st)
    else ok (record st {
      operations = update (operation_key row.idempotency_key) (merge_operation row) st.operations;
    })

unfoldable pub record_operation : OperationRow → Store → Result StoreError Store
unfolding refresh_operation
record_operation row st = elim (find? (operation_key row.idempotency_key) st.operations) [
  | some existing ↦ (do
    raise_if (not (existing.run_id == row.run_id) || not (existing.stage == row.stage)) conflict
    raise_if (differ existing.operation_ref row.operation_ref) conflict
    refresh_operation existing row st)
  | none ↦ (do
    raise_if (not (run_exists row.run_id st)) integrity
    ok (record st { operations = st.operations ++ row ∷ [] }))
]

-- get_operation
unfoldable pub get_operation : String → Store → Option OperationRow
get_operation key st = find? (operation_key key) st.operations

abbrev pub job_key : String → String → ℕ → ExternalJob → Bool
job_key id stage n r = r.run_id == id && r.stage_id == stage && r.attempt == n

abbrev same_identity : ExternalJob → ExternalJob → Bool
same_identity a b =
    a.backend == b.backend
    && a.external_job_ref == b.external_job_ref
    && a.submit_operation_key == b.submit_operation_key

-- validate_external_job_record, on the row that is there
unfoldable pub check_job : ExternalJob → ExternalJob → Check StoreError
check_job existing row = do
  raise_if (not (same_identity existing row)) conflict
  raise_if (ltb row.status_sequence existing.status_sequence) conflict
  raise_if (row.status_sequence == existing.status_sequence && not (row.status == existing.status))
      conflict
  checked (validate_external_transition existing.status row.status)
  raise_if (differ existing.result_sha256 row.result_sha256) conflict

-- ON CONFLICT(run_id, stage_id, attempt) DO UPDATE
abbrev pub merge_job : ExternalJob → ExternalJob → ExternalJob
merge_job new old = record old {
  status = new.status;
  status_sequence = new.status_sequence;
  result_uri = or_else new.result_uri old.result_uri;
  result_sha256 = or_else new.result_sha256 old.result_sha256;
}

-- UNIQUE submit_operation_key, UNIQUE (backend, external_job_ref)
abbrev job_taken : ExternalJob → Store → Bool
job_taken row st =
    elim (find?
      (λ r.
        r.submit_operation_key == row.submit_operation_key
        || (r.backend == row.backend && r.external_job_ref == row.external_job_ref))
      st.external_jobs) [ some r ↦ true | none ↦ false ]

unfoldable pub record_external_job : ExternalJob → Store → Result StoreError Store
record_external_job row st =
    raise_if (not (fits_integer row.attempt)) overflow
    >> elim (find? (job_key row.run_id row.stage_id row.attempt) st.external_jobs) [
      | some existing ↦ (do
        check_job existing row
        raise_if (not (fits_integer row.status_sequence)) overflow
        ok (record st {
          external_jobs =
              update (job_key row.run_id row.stage_id row.attempt) (merge_job row) st.external_jobs;
        }))
      | none ↦ (do
        raise_if (not (fits_integer row.status_sequence)) overflow
        raise_if (job_taken row st) integrity
        raise_if (not (run_exists row.run_id st)) integrity
        ok (record st { external_jobs = st.external_jobs ++ row ∷ [] }))
    ]

-- get_external_job, with an attempt
unfoldable pub get_external_job : String → String → ℕ → Store → Option ExternalJob
get_external_job id stage n st = find? (job_key id stage n) st.external_jobs
