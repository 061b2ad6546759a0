-- ===== src/Orchestrator/Store/Runs.antt =====
-- Projects, runs and requirement revisions of src/material_agent/orchestrator/storage.py.
use materials_screening_agen.Prelude.{
  fits_integer, ◌>>◌, ℕ, String, Bool, true, false, Option, none, some, [], ◌∷◌, ◌++◌, Result,
  Check, ok, ◌>>=◌, ◌>>◌, raise_if, require, ◌==◌, ◌&&◌, ◌||◌, not, find?, update, or_else,
  string_eq, nat_eq, if◌then◌else◌,
}
use materials_screening_agen.Orchestrator.Transitions.{validate_run_transition}
use materials_screening_agen.Orchestrator.Store.Rows.{
  overflow, Store, StoreError, conflict, unknown_key, integrity, ProjectRow, RunRow, RequirementRow,
  checked, run_key, run_exists,
}

abbrev pub project_key : String → ProjectRow → Bool
project_key id p = p.project_id == id

unfoldable pub create_project : String → String → Store → Result StoreError Store
create_project id root st = elim (find? (project_key id) st.projects) [
  | some existing ↦ (do raise_if (not (existing.project_root == root)) conflict; ok st)
  | none ↦ ok (record st {
    projects = st.projects ++ (record { project_id = id; project_root = root }) ∷ [];
  })
]

abbrev project_exists : String → Store → Bool
project_exists id st = elim (find? (project_key id) st.projects) [ some p ↦ true | none ↦ false ]

abbrev thread_taken : String → Store → Bool
thread_taken id st = elim (find? (λ r. r.thread_id == id) st.runs) [ some r ↦ true | none ↦ false ]

-- The row of a new run: the run's own ID is its thread.
abbrev pub new_run : String → String → String → String → String → String → RunRow
new_run id project_id raw_request status mode version = record {
  run_id = id;
  project_id = project_id;
  thread_id = id;
  raw_request = raw_request;
  status = status;
  current_stage = none;
  requirement_revision = none;
  report_uri = none;
  checkpoint_schema_version = version;
  run_mode = mode;
}

-- INSERT INTO runs: `run_id` and `thread_id` are unique.
unfoldable pub create_run :
    String → String → String → String → String → String → Store → Result StoreError Store
create_run id project_id raw_request status mode version st = do
  raise_if (run_exists id st) integrity
  raise_if (thread_taken id st) integrity
  raise_if (not (project_exists project_id st)) integrity
  ok (record st { runs = st.runs ++ new_run id project_id raw_request status mode version ∷ [] })

-- The keyword arguments of `update_run`.
pub record RunUpdate : Type 0 where
  pub status : Option String
  pub current_stage : Option String
  pub requirement_revision : Option ℕ
  pub report_uri : Option String
  pub clear_current_stage : Bool

abbrev pub new_status : Option String → String → String
new_status none old = old
new_status (some s) old = s

-- The SET clause that the method assembles.
abbrev pub assign : RunUpdate → RunRow → RunRow
assign u r = record r {
  status = new_status u.status r.status;
  current_stage = if u.clear_current_stage then none else or_else u.current_stage r.current_stage;
  requirement_revision = or_else u.requirement_revision r.requirement_revision;
  report_uri = or_else u.report_uri r.report_uri;
}

abbrev pub check_status : Option String → String → Check StoreError
check_status none old = ok tt
check_status (some s) old = checked (validate_run_transition old s)

abbrev pub fits_optional : Option ℕ → Bool
fits_optional none = true
fits_optional (some n) = fits_integer n

unfoldable pub update_run : String → RunUpdate → Store → Result StoreError Store
update_run id u st = do
  existing ← require (find? (run_key id) st.runs) unknown_key
  check_status u.status existing.status
  raise_if (not (fits_optional u.requirement_revision)) overflow
  ok (record st { runs = update (run_key id) (assign u) st.runs })

-- get_run, its stage projection left out
unfoldable pub get_run : String → Store → Option RunRow
get_run id st = find? (run_key id) st.runs

abbrev pub requirement_key : String → ℕ → RequirementRow → Bool
requirement_key id n r = r.run_id == id && r.revision == n

unfoldable pub record_requirement : RequirementRow → Store → Result StoreError Store
record_requirement row st =
    raise_if (not (fits_integer row.revision)) overflow
    >> elim (find? (requirement_key row.run_id row.revision) st.requirements) [
      | some existing ↦ (do
        raise_if
            (not (existing.artifact_uri == row.artifact_uri)
              || not (existing.artifact_sha256 == row.artifact_sha256))
            conflict
        ok st)
      | none ↦ (do
        raise_if (not (run_exists row.run_id st)) integrity
        ok (record st { requirements = st.requirements ++ row ∷ [] }))
    ]
