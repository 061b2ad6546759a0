-- ===== src/Orchestrator/Store/Approvals.antt =====
-- Approvals, events and interaction responses of src/material_agent/orchestrator/storage.py.
use materials_screening_agen.Prelude.{
  String, Bool, true, false, Option, none, some, [], ◌∷◌, ◌++◌, Result, ok, err, ◌>>=◌, ◌>>◌,
  raise_if, require, ◌==◌, ◌&&◌, ◌||◌, not, find?, update, string_eq, option_eq, if◌then◌else◌,
}
use materials_screening_agen.Orchestrator.Status.{ApprovalStatus, approval_value}
use materials_screening_agen.Orchestrator.Transitions.{validate_approval_transition}
use materials_screening_agen.Orchestrator.Store.Rows.{
  Store, StoreError, conflict, unknown_key, integrity, ApprovalRow, EventRow, ResponseRow, checked,
  run_exists,
}

abbrev pub approval_key : String → ApprovalRow → Bool
approval_key id r = r.approval_id == id

-- UNIQUE interaction_id
abbrev interaction_taken : String → Store → Bool
interaction_taken id st = elim (find? (λ r. r.interaction_id == id) st.approvals) [
  | some r ↦ true
  | none ↦ false
]

-- The same input snapshot.
abbrev pub same_input : ApprovalRow → ApprovalRow → Bool
same_input a b =
    a.interaction_id == b.interaction_id
    && a.run_id == b.run_id
    && a.gate_type == b.gate_type
    && a.input_sha256 == b.input_sha256
    && a.payload_json == b.payload_json

unfoldable pub ensure_approval : ApprovalRow → Store → Result StoreError Store
ensure_approval row st = elim (find? (approval_key row.approval_id) st.approvals) [
  | some existing ↦ (do raise_if (not (same_input existing row)) conflict; ok st)
  | none ↦ (do
    raise_if (interaction_taken row.interaction_id st) integrity
    raise_if (not (run_exists row.run_id st)) integrity
    ok (record st {
      approvals = st.approvals ++ (record row { status = "PENDING"; decision_json = none }) ∷ [];
    }))
]

abbrev pub decide : String → String → ApprovalRow → ApprovalRow
decide status decision r = record r { status = status; decision_json = some decision }

-- The rest of `decide_approval`, on the row that it read.
pub decide_row : String → ApprovalStatus → String → ApprovalRow → Store → Result StoreError Store
decide_row id status decision row st =
    if row.status == "PENDING"
    then (do
      checked (validate_approval_transition row.status (approval_value status))
      ok (record st {
        approvals = update (approval_key id) (decide (approval_value status) decision) st.approvals;
      }))
    else if row.status == approval_value status && row.decision_json == some decision
    then ok st
    else err conflict

-- An approval that was decided may only be decided again in the same way.
unfoldable pub decide_approval : String → ApprovalStatus → String → Store → Result StoreError Store
unfolding decide_row
decide_approval id status decision st = do
  row ← require (find? (approval_key id) st.approvals) unknown_key
  decide_row id status decision row st

-- get_approval
unfoldable pub get_approval : String → Store → Option ApprovalRow
get_approval id st = find? (approval_key id) st.approvals

abbrev pub event_key : String → EventRow → Bool
event_key key r = r.event_key == key

unfoldable pub append_event : EventRow → Store → Result StoreError Store
append_event row st = elim (find? (event_key row.event_key) st.events) [
  | some existing ↦ (do
    raise_if
        (not (existing.run_id == row.run_id)
          || not (existing.event_type == row.event_type)
          || not (existing.payload_json == row.payload_json))
        conflict
    ok st)
  | none ↦ (do
    raise_if (not (run_exists row.run_id st)) integrity
    ok (record st { events = st.events ++ row ∷ [] }))
]

abbrev pub response_key : String → ResponseRow → Bool
response_key id r = r.interaction_id == id

unfoldable pub record_interaction_response : ResponseRow → Store → Result StoreError Store
record_interaction_response row st = elim (find? (response_key row.interaction_id) st.responses) [
  | some existing ↦ (do
    raise_if
        (not (existing.run_id == row.run_id) || not (existing.response_json == row.response_json))
        conflict
    ok st)
  | none ↦ (do
    raise_if (not (run_exists row.run_id st)) integrity
    ok (record st { responses = st.responses ++ row ∷ [] }))
]

-- get_interaction_response
unfoldable pub get_interaction_response : String → Store → Option ResponseRow
get_interaction_response id st = find? (response_key id) st.responses
