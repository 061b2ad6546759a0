-- ===== src/Gateway/Database.antt =====
-- src/material_agent/gateway/persistence.py: SqliteGatewayRepository. Paths, connections and the schema set-up
-- are left out; a transaction that raises is rolled back. The JSON of a record is a parameter.
pub mod Rows
pub mod Same
pub mod Creating
pub mod Replacing
pub mod Refining
use materials_screening_agen.Prelude.{
  fits_integer, ℕ, String, ◌+◌, ◌≡◌, Bool, true, false, Option, none, some, List, [], ◌∷◌, ◌++◌,
  ◌==◌, ◌&&◌, ◌||◌, not, string_eq, nat_eq, option_eq, bool_eq, if◌then◌else◌, Result, Check, ok,
  err, ◌>>=◌, ◌>>◌, raise_if, require, find?, select, update, length,
}
use materials_screening_agen.Gateway.Model.{Hashing, RunRecord, ResultRecord, terminal_reference}
use materials_screening_agen.Gateway.Equality.{request_eq, result_eq}
use materials_screening_agen.Gateway.Memory.{
  GatewayError, concurrent_update, persistence, overflow, is_none, same_reference, reference_to,
  other_run, unbound,
}
use materials_screening_agen.Gateway.Repository.{MemoryOp, create, replace}

-- `canonical_json_bytes(…).decode()` and `model_validate_json`.
pub record Codec : Type 0 where
  pub encode_record : RunRecord → String
  pub decode_record : String → Option RunRecord
  pub encode_result : ResultRecord → String
  pub decode_result : String → Option ResultRecord

-- A row of gateway_runs.
pub record RunRow : Type 0 where
  pub run_id : String
  pub submission_id : String
  pub request_sha256 : String
  pub revision : ℕ
  pub record_json : String

-- A row of gateway_results.
pub record ResultRow : Type 0 where
  pub run_id : String
  pub result_json : String

pub record Database : Type 0 where
  pub runs : List RunRow
  pub results : List ResultRow

abbrev pub empty_database : Database
empty_database = record { runs = []; results = [] }

abbrev pub run_row_key : String → RunRow → Bool
run_row_key id r = r.run_id == id

abbrev pub result_row_key : String → ResultRow → Bool
result_row_key id r = r.run_id == id

-- WHERE run_id = ? OR submission_id = ?
abbrev pub identity_key : String → String → RunRow → Bool
identity_key id submission r = r.run_id == id || r.submission_id == submission

-- WHERE run_id = ? AND revision = ?
abbrev pub revision_key : String → ℕ → RunRow → Bool
revision_key id revision r = r.run_id == id && r.revision == revision

module _ (h : Hashing) where
  -- The checks of `replace_run` before its `UPDATE`.
  unfoldable pub check_current :
      RunRecord → ℕ → Option ResultRecord → RunRecord → Check GatewayError
  check_current new expected result current = do
    raise_if (not (current.revision == expected)) concurrent_update
    raise_if (not (new.revision == expected + 1)) concurrent_update
    raise_if
        (not (current.request == new.request) || not (current.request_sha256 == new.request_sha256))
        concurrent_update
    raise_if (other_run h new result) concurrent_update
    raise_if (not (is_none result == is_none (terminal_reference new.state))) concurrent_update
    raise_if (unbound h new result) concurrent_update

  abbrev check_result : ResultRecord → RunRecord → Check GatewayError
  check_result r current =
      raise_if (not (same_reference (terminal_reference current.state) (reference_to h r)))
        persistence

module _ (c : Codec) where
  abbrev pub agrees : RunRow → RunRecord → Bool
  agrees row r =
      r.run_id == row.run_id
      && r.request.submission_id == row.submission_id
      && r.request_sha256 == row.request_sha256
      && r.revision == row.revision

  -- _decode_record
  unfoldable pub decode_row : RunRow → Result GatewayError RunRecord
  decode_row row = do
    r ← require (c.decode_record row.record_json) persistence
    raise_if (not (agrees row r)) persistence
    ok r

  abbrev pub run_row : RunRecord → RunRow
  run_row r = record {
    run_id = r.run_id;
    submission_id = r.request.submission_id;
    request_sha256 = r.request_sha256;
    revision = r.revision;
    record_json = c.encode_record r;
  }

  abbrev pub result_row : ResultRecord → ResultRow
  result_row r = record { run_id = r.run_id; result_json = c.encode_result r }

  -- create_or_get, after its `SELECT`
  unfoldable pub create_or_get_rows :
      RunRecord → List RunRow → Database → Result GatewayError ((RunRecord × Bool) × Database)
  create_or_get_rows new [] d = do
    raise_if (not (fits_integer new.revision)) overflow
    ok ((new, true), record d { runs = d.runs ++ run_row new ∷ [] })
  create_or_get_rows new (row ∷ []) d = do existing ← decode_row row; ok ((existing, false), d)
  create_or_get_rows new (row ∷ other ∷ rest) d = err concurrent_update

  unfoldable pub create_or_get :
      RunRecord → Database → Result GatewayError ((RunRecord × Bool) × Database)
  create_or_get new d =
      create_or_get_rows new (select (identity_key new.run_id new.request.submission_id) d.runs) d

  unfoldable pub get_run : String → Database → Result GatewayError (Option RunRecord)
  get_run id d = elim (find? (run_row_key id) d.runs) [
    | none ↦ ok none
    | some row ↦ (do r ← decode_row row; ok (some r))
  ]

  -- UPDATE gateway_runs SET revision = ?, record_json = ?
  abbrev pub assign : RunRecord → RunRow → RunRow
  assign new row = record row { revision = new.revision; record_json = c.encode_record new }

  -- The result's part of `replace_run`.
  unfoldable pub keep_result :
      RunRecord
      → Option ResultRecord
      → Option ResultRow
      → List ResultRow
      → Result GatewayError (List ResultRow)
  keep_result new none none rows = ok rows
  keep_result new none (some existing) rows = err concurrent_update
  keep_result new (some r) none rows =
      ok (rows ++ (record { run_id = new.run_id; result_json = c.encode_result r }) ∷ [])
  keep_result new (some r) (some existing) rows = do
    raise_if (not (existing.result_json == c.encode_result r)) concurrent_update
    ok rows

  module _ (h : Hashing) where
    unfoldable pub replace_run :
        RunRecord → ℕ → Option ResultRecord → Database → Result GatewayError Database
    replace_run new expected result d = do
      row ← require (find? (run_row_key new.run_id) d.runs) concurrent_update
      current ← decode_row row
      check_current h new expected result current
      raise_if (not (fits_integer new.revision) || not (fits_integer expected)) overflow
      raise_if (not (length (select (revision_key new.run_id expected) d.runs) == 1))
          concurrent_update
      results ← keep_result new result (find? (result_row_key new.run_id) d.results) d.results
      ok (record {
        runs = update (revision_key new.run_id expected) (assign new) d.runs;
        results = results;
      })

    -- The rest of `get_result` on the joined rows.
    unfoldable pub decode_joined :
        String → ResultRow → RunRow → Result GatewayError (Option ResultRecord)
    decode_joined id joined row = do
      r ← require (c.decode_result joined.result_json) persistence
      raise_if (not (r.run_id == id)) persistence
      current ← decode_row row
      check_result h r current
      ok (some r)

    -- gateway_results JOIN gateway_runs USING (run_id)
    unfoldable pub get_result : String → Database → Result GatewayError (Option ResultRecord)
    get_result id d = elim (find? (result_row_key id) d.results) [
      | none ↦ ok none
      | some joined ↦ elim (find? (run_row_key id) d.runs) [
        | none ↦ ok none
        | some row ↦ decode_joined id joined row
      ]
    ]
