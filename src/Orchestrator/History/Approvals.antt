-- ===== src/Orchestrator/History/Approvals.antt =====
-- The table `approvals` of src/material_agent/orchestrator/storage.py under any calls.
use materials_screening_agen.Prelude.{
  String, ◌≡◌, refl, Bool, true, false, none, some, List, [], ◌∷◌, ok, err, inl, inr, arith,
  attempt, find?, find?-append, find?-update, find?-sound, Option-cases, Bool-cases, change, sym,
  ap, subst, eq_iff, string_eq, nat_eq, option_eq, ◌==◌, ◌&&◌, if◌then◌else◌,
}
use materials_screening_agen.Orchestrator.Status.{ApprovalStatus, external_job_enum, approval_value}
use materials_screening_agen.Orchestrator.Transitions.{validate_approval_transition}
use materials_screening_agen.Orchestrator.Store.{
  Request, project, approval, decision, handle, serve,
}
use materials_screening_agen.Orchestrator.Store.Rows.{Store, ApprovalRow, conflict}
use materials_screening_agen.Orchestrator.Store.Runs.{
  create_project, create_run, update_run, record_requirement,
}
use materials_screening_agen.Orchestrator.Store.Stages.{upsert_stage_run, record_stage_attempt}
use materials_screening_agen.Orchestrator.Store.Approvals.{
  ensure_approval, decide_approval, append_event, record_interaction_response, approval_key,
  get_approval, decide,
}
use materials_screening_agen.Orchestrator.Store.Jobs.{record_operation, record_external_job}

abbrev writes_approvals : Request → Bool
writes_approvals (approval _) = true
writes_approvals (decision _ _ _) = true
writes_approvals _ = false

approvals-handle :
    (r : Request) (st : Store)
    → writes_approvals r ≡ false
    → (attempt st (handle r st)).approvals ≡ st.approvals
unfolding handle create_project create_run update_run record_requirement upsert_stage_run
    record_stage_attempt append_event record_interaction_response record_operation
    record_external_job
approvals-handle (project a b) st h = ground arith
approvals-handle _ st h = ground arith

approval_key-decide :
    (id a s d : String) (row : ApprovalRow)
    → approval_key id (change (approval_key a) (decide s d) row) ≡ approval_key id row
approval_key-decide id a s d row = ground arith

-- An update of approval `a`, which is pending, leaves a decided approval `id` alone.
decide-ne :
    (a id s d : String) (st : Store) (row old : ApprovalRow)
    → get_approval id st ≡ some row
    → (row.status == "PENDING") ≡ false
    → find? (approval_key a) st.approvals ≡ some old
    → (old.status == "PENDING") ≡ true
    → change (approval_key a) (decide s d) row ≡ row
unfolding get_approval
decide-ne a id s d st row old h decided found pending = elim (Bool-cases (approval_key a row)) [
  | inl hit ↦
      let here : approval_key id row ≡ true = find?-sound (approval_key id) st.approvals h in
      let names : a ≡ id =
        cc ((eq_iff row.approval_id a).0 hit, (eq_iff row.approval_id id).0 here) in
      let found' = subst (λ k. find? (approval_key k) st.approvals ≡ some old) names found in
      let same_row : old ≡ row = cc in
      absurd (ground (arith, ap (λ (r : ApprovalRow). r.status == "PENDING") same_row))
  | inr miss ↦ rw miss
]

decide_approval-keeps :
    (a : String) (s : ApprovalStatus) (d id : String) (st : Store) (row : ApprovalRow)
    → get_approval id st ≡ some row
    → (row.status == "PENDING") ≡ false
    → get_approval id (attempt st (decide_approval a s d st)) ≡ some row
unfolding decide_approval get_approval
decide_approval-keeps a s d id st row h decided =
    elim (Option-cases (find? (approval_key a) st.approvals)) [
      | inl missing ↦ rw missing h
      | inr (old, found) ↦ ground (
        arith,
        found,
        find?-update (approval_key id) (approval_key a) (decide (approval_value s) d) st.approvals
            (approval_key-decide id a (approval_value s) d),
        decide-ne a id (approval_value s) d st row old h decided found,
      )
    ]

ensure_approval-keeps :
    (e : ApprovalRow) (id : String) (st : Store) {row : ApprovalRow}
    → get_approval id st ≡ some row
    → get_approval id (attempt st (ensure_approval e st)) ≡ some row
unfolding ensure_approval get_approval
ensure_approval-keeps e id st h = ground (
  arith,
  find?-append (approval_key id) st.approvals
      (record e { status = "PENDING"; decision_json = none } ∷ []),
)

decided-handle :
    (r : Request) (id : String) (st : Store) (row : ApprovalRow)
    → get_approval id st ≡ some row
    → (row.status == "PENDING") ≡ false
    → get_approval id (attempt st (handle r st)) ≡ some row
unfolding handle
decided-handle (approval e) id st row h decided = ensure_approval-keeps e id st h
decided-handle (decision a s d) id st row h decided =
    decide_approval-keeps a s d id st row h decided
decided-handle r id st row h decided = unfold get_approval in rw (approvals-handle r st refl) h

-- A decided approval is found unchanged, decision and all, after any calls.
decided-serve :
    (rs : List Request) (id : String) (st : Store) (row : ApprovalRow)
    → get_approval id st ≡ some row
    → (row.status == "PENDING") ≡ false
    → get_approval id (serve st rs) ≡ some row
unfolding serve
decided-serve [] id st row h decided = h
decided-serve (r ∷ rs) id st row h decided =
    decided-serve rs id (attempt st (handle r st)) row (decided-handle r id st row h decided)
      decided

pending_accepts :
    (s : ApprovalStatus) → validate_approval_transition "PENDING" (approval_value s) ≡ ok tt
unfolding validate_approval_transition find?
pending_accepts ApprovalStatus.pending = refl
pending_accepts _ = refl

decide-get_approval :
    (id : String) (s : ApprovalStatus) (d : String) (st : Store) (row : ApprovalRow)
    → get_approval id st ≡ some row
    → row.status ≡ "PENDING"
    → get_approval id (attempt st (decide_approval id s d st))
      ≡ some (decide (approval_value s) d row)
unfolding decide_approval get_approval
decide-get_approval id s d st row h pending = ground (
  arith,
  h,
  pending_accepts s,
  subst (λ x. validate_approval_transition x (approval_value s) ≡ ok tt) (sym pending)
      (pending_accepts s),
  eq_iff row.status "PENDING",
  find?-sound (approval_key id) st.approvals h,
  find?-update (approval_key id) (approval_key id) (decide (approval_value s) d) st.approvals
      (approval_key-decide id id (approval_value s) d),
)

decide_again :
    (id : String) (s : ApprovalStatus) (d : String) (st : Store) (row : ApprovalRow)
    → get_approval id st ≡ some row
    → (row.status == "PENDING") ≡ false
    → decide_approval id s d st ≡ (
        if row.status == approval_value s && row.decision_json == some d
        then ok st
        else err conflict)
unfolding decide_approval get_approval
decide_again id s d st row h decided = rw h (rw decided)

-- The first decision wins: where a pending approval is decided, with a status other than pending,
-- then whatever calls follow, the approval is found with that decision and its other columns as
-- they were; deciding the same again changes nothing, and deciding differently is refused as a
-- conflict.
pub first_decision :
    (id : String) (s : ApprovalStatus) (d : String) (rs : List Request) (st : Store)
    (row : ApprovalRow)
    → get_approval id st ≡ some row
    → row.status ≡ "PENDING"
    → (approval_value s == "PENDING") ≡ false
    → let end = serve st (decision id s d ∷ rs) in
      (get_approval id end ≡ some (decide (approval_value s) d row))
      × ((t : ApprovalStatus) (e : String)
          → handle (decision id t e) end
            ≡ (if approval_value s == approval_value t && d == e then ok end else err conflict))
unfolding serve handle
first_decision id s d rs st row h pending final =
    let kept =
      decided-serve rs id (attempt st (decide_approval id s d st)) (decide (approval_value s) d row)
        (decide-get_approval id s d st row h pending) final in
    (
      kept,
      λ t e.
          decide_again id t e (serve (attempt st (decide_approval id s d st)) rs)
            (decide (approval_value s) d row) kept final,
    )
