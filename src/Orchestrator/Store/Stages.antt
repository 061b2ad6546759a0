-- ===== src/Orchestrator/Store/Stages.antt =====
-- Stage rows and stage attempts of src/material_agent/orchestrator/storage.py.
use materials_screening_agen.Prelude.{
  fits_integer, ◌>>◌, ℕ, String, Bool, true, false, Option, none, some, [], ◌∷◌, ◌++◌, Result, ok,
  ◌>>◌, raise_if, ◌==◌, ◌&&◌, not, find?, update, or_else, string_eq, nat_eq, truthy, if◌then◌else◌,
}
use materials_screening_agen.Orchestrator.Transitions.{validate_stage_transition}
use materials_screening_agen.Orchestrator.Store.Rows.{
  overflow, Store, StoreError, conflict, integrity, StageRow, AttemptRow, checked, run_exists,
  differ,
}

abbrev pub stage_key : String → String → StageRow → Bool
stage_key id stage r = r.run_id == id && r.stage == stage

-- agent_id or stage
abbrev named_agent : StageRow → Option String
named_agent row = if truthy row.agent_id then row.agent_id else some row.stage

-- ON CONFLICT(run_id, stage) DO UPDATE
abbrev pub merge_stage : StageRow → StageRow → StageRow
merge_stage new old = record old {
  stage_id = or_else new.stage_id old.stage_id;
  agent_id = or_else (named_agent new) old.agent_id;
  status = new.status;
  attempt = new.attempt;
  operation_key = or_else new.operation_key old.operation_key;
  operation_ref = or_else new.operation_ref old.operation_ref;
  result_uri = or_else new.result_uri old.result_uri;
  result_sha256 = or_else new.result_sha256 old.result_sha256;
  required = or_else new.required old.required;
  disposition = or_else new.disposition old.disposition;
  error_json = or_else new.error_json old.error_json;
}

unfoldable pub upsert_stage_run : StageRow → Store → Result StoreError Store
upsert_stage_run row st = elim (find? (stage_key row.run_id row.stage) st.stage_runs) [
  | some existing ↦ (do
    checked (validate_stage_transition existing.status row.status)
    raise_if (differ row.operation_ref existing.operation_ref) conflict
    raise_if (not (fits_integer row.attempt)) overflow
    ok (record st {
      stage_runs = update (stage_key row.run_id row.stage) (merge_stage row) st.stage_runs;
    }))
  | none ↦ (do
    raise_if (not (fits_integer row.attempt)) overflow
    raise_if (not (run_exists row.run_id st)) integrity
    ok (record st {
      stage_runs = st.stage_runs ++ (record row { agent_id = named_agent row }) ∷ [];
    }))
]

abbrev pub attempt_key : String → String → ℕ → AttemptRow → Bool
attempt_key id stage n r = r.run_id == id && r.stage_id == stage && r.attempt == n

-- ON CONFLICT(run_id, stage_id, attempt) DO UPDATE
abbrev pub merge_attempt : AttemptRow → AttemptRow → AttemptRow
merge_attempt new old = record old {
  status = new.status;
  result_uri = or_else new.result_uri old.result_uri;
  result_sha256 = or_else new.result_sha256 old.result_sha256;
  error_json = or_else new.error_json old.error_json;
}

-- UNIQUE (operation_key)
abbrev key_taken : String → Store → Bool
key_taken key st = elim (find? (λ r. r.operation_key == key) st.stage_attempts) [
  | some r ↦ true
  | none ↦ false
]

unfoldable pub record_stage_attempt : AttemptRow → Store → Result StoreError Store
record_stage_attempt row st =
    raise_if (not (fits_integer row.attempt)) overflow
    >> elim (find? (attempt_key row.run_id row.stage_id row.attempt) st.stage_attempts) [
      | some existing ↦ (do
        raise_if (not (existing.operation_key == row.operation_key)) conflict
        raise_if (differ existing.plan_sha256 row.plan_sha256) conflict
        raise_if (differ existing.plan_uri row.plan_uri) conflict
        checked (validate_stage_transition existing.status row.status)
        raise_if (differ existing.result_sha256 row.result_sha256) conflict
        ok (record st {
          stage_attempts =
              update (attempt_key row.run_id row.stage_id row.attempt) (merge_attempt row)
                st.stage_attempts;
        }))
      | none ↦ (do
        raise_if (key_taken row.operation_key st) integrity
        raise_if (not (run_exists row.run_id st)) integrity
        ok (record st { stage_attempts = st.stage_attempts ++ row ∷ [] }))
    ]
