-- ===== src/Orchestrator/History/Runs.antt =====
-- The table `runs` of src/material_agent/orchestrator/storage.py under any calls.
use materials_screening_agen.Prelude.{
  String, ◌≡◌, refl, Bool, true, false, Option, none, some, List, [], ◌∷◌, ok, inl, inr, arith,
  attempt, find?, find?-append, find?-sound, Option-cases, Bool-cases, change, sym, subst, ◌∙◌,
  eq_iff, string_eq, find?-update,
}
use materials_screening_agen.Orchestrator.Transitions.{
  run_transitions, validate_texts, validate_run_transition,
}
use materials_screening_agen.Orchestrator.Status.{RunStatus, run_value, run_enum}
use materials_screening_agen.Orchestrator.History.Columns.{
  Moves, Course, Course-here, Course-step, validate_texts-member,
}
use materials_screening_agen.Orchestrator.Store.{Request, run, run_update, project, handle, serve}
use materials_screening_agen.Orchestrator.Store.Rows.{Store, RunRow, run_key}
use materials_screening_agen.Orchestrator.Store.Runs.{
  create_project, create_run, update_run, record_requirement, get_run, new_run, assign,
  check_status, new_status, RunUpdate,
}
use materials_screening_agen.Orchestrator.Store.Stages.{upsert_stage_run, record_stage_attempt}
use materials_screening_agen.Orchestrator.Store.Approvals.{
  ensure_approval, decide_approval, append_event, record_interaction_response,
}
use materials_screening_agen.Orchestrator.Store.Jobs.{record_operation, record_external_job}

abbrev writes_runs : Request → Bool
writes_runs (run _ _ _ _ _ _) = true
writes_runs (run_update _ _) = true
writes_runs _ = false

runs-handle :
    (r : Request) (st : Store) → writes_runs r ≡ false → (attempt st (handle r st)).runs ≡ st.runs
unfolding handle create_project record_requirement upsert_stage_run record_stage_attempt
    ensure_approval decide_approval append_event record_interaction_response record_operation
    record_external_job
runs-handle (project a b) st h = ground arith
runs-handle _ st h = ground arith

-- What an accepted or refused call does to a run that is there: its identity stays, and its status
-- makes at most one accepted transition.
pub record Follows (old new : RunRow) : Type 0 where
  pub run_id : new.run_id ≡ old.run_id
  pub project_id : new.project_id ≡ old.project_id
  pub thread_id : new.thread_id ≡ old.thread_id
  pub raw_request : new.raw_request ≡ old.raw_request
  pub status : Moves run_transitions old.status new.status

abbrev After : Option RunRow → RunRow → Type 0
After none old = ⊥
After (some new) old = Follows old new

Follows-refl : (row : RunRow) → Follows row row
Follows-refl row = record {
  run_id = refl;
  project_id = refl;
  thread_id = refl;
  raw_request = refl;
  status = inl refl;
}

create_run-After :
    (a b c d e f id : String) (st : Store) (row : RunRow)
    → get_run id st ≡ some row
    → After (get_run id (attempt st (create_run a b c d e f st))) row
unfolding create_run get_run
create_run-After a b c d e f id st row h =
    ground (arith, Follows-refl row, find?-append (run_key id) st.runs (new_run a b c d e f ∷ []))

new_status-Moves :
    (o : Option String) (old : String)
    → check_status o old ≡ ok tt
    → Moves run_transitions old (new_status o old)
unfolding validate_run_transition
new_status-Moves none old h = inl refl
new_status-Moves (some s) old h = inr (ground arith)

assign-Follows :
    (u : RunUpdate) (row : RunRow)
    → check_status u.status row.status ≡ ok tt
    → Follows row (assign u row)
assign-Follows u row h = record {
  run_id = refl;
  project_id = refl;
  thread_id = refl;
  raw_request = refl;
  status = new_status-Moves u.status row.status h;
}

-- The row that an update of run `a` leaves for run `id`.
change-Follows :
    (a id : String) (u : RunUpdate) (st : Store) (row old : RunRow)
    → find? (run_key id) st.runs ≡ some row
    → find? (run_key a) st.runs ≡ some old
    → check_status u.status old.status ≡ ok tt
    → Follows row (change (run_key a) (assign u) row)
change-Follows a id u st row old h found c = elim (Bool-cases (run_key a row)) [
  | inl hit ↦
      let here : run_key id row ≡ true = find?-sound (run_key id) st.runs h in
      let names : a ≡ id = cc ((eq_iff row.run_id a).0 hit, (eq_iff row.run_id id).0 here) in
      let found' = subst (λ k. find? (run_key k) st.runs ≡ some old) names found in
      let same_row : old ≡ row = cc in
      rw hit (
        assign-Follows u row
          (subst (λ (r : RunRow). check_status u.status r.status ≡ ok tt) same_row c))
  | inr miss ↦ rw miss (Follows-refl row)
]

run_key-change :
    (id a : String) (u : RunUpdate) (row : RunRow)
    → run_key id (change (run_key a) (assign u) row) ≡ run_key id row
run_key-change id a u row = ground arith

update_run-After :
    (a : String) (u : RunUpdate) (id : String) (st : Store) (row : RunRow)
    → get_run id st ≡ some row
    → After (get_run id (attempt st (update_run a u st))) row
unfolding update_run get_run
update_run-After a u id st row h = elim (Option-cases (find? (run_key a) st.runs)) [
  | inl missing ↦ rw (missing, h) (Follows-refl row)
  | inr (old, found) ↦ ground (
    arith,
    Follows-refl row,
    found,
    h,
    change-Follows a id u st row old h found,
    find?-update (run_key id) (run_key a) (assign u) st.runs (run_key-change id a u),
  )
]

-- One call.
handle-After :
    (r : Request) (id : String) (st : Store) (row : RunRow)
    → get_run id st ≡ some row
    → After (get_run id (attempt st (handle r st))) row
unfolding handle
handle-After (run a b c d e f) id st row h = create_run-After a b c d e f id st row h
handle-After (run_update a u) id st row h = update_run-After a u id st row h
handle-After r id st row h = unfold get_run in rw (runs-handle r st refl, h) (Follows-refl row)

pub step-Follows :
    (r : Request) (id : String) (st : Store) (row : RunRow)
    → get_run id st ≡ some row
    → (new : RunRow) × (get_run id (attempt st (handle r st)) ≡ some new) × Follows row new
step-Follows r id st row h = elim (Option-cases (get_run id (attempt st (handle r st)))) [
  | inl gone ↦ absurd (rw gone at (handle-After r id st row h))
  | inr (new, found) ↦ (new, found, rw found at (handle-After r id st row h))
]

-- From a run that is there with the status `s`, any calls, refused ones included, leave the run there
-- with the same identity, and its status has made a walk of the transition table from `s`.
pub serve-Course :
    (rs : List Request) (id : String) (st : Store) (row : RunRow) (s : RunStatus)
    → get_run id st ≡ some row
    → row.status ≡ run_value s
    → (new : RunRow) × (get_run id (serve st rs) ≡ some new)
      × (new.project_id ≡ row.project_id)
      × (new.raw_request ≡ row.raw_request)
      × Course run_transitions s new.status
unfolding serve
serve-Course [] id st row s h e = (row, h, refl, refl, rw e (Course-here run_transitions s))
serve-Course (r ∷ rs) id st row s h e =
    let (mid, found, follows) = step-Follows r id st row h in
    elim follows.status [
      | inl kept ↦
          let (new, at_end, p, q, c) =
            serve-Course rs id (attempt st (handle r st)) mid s found (sym kept ∙ e) in
          (new, at_end, p ∙ follows.project_id, q ∙ follows.raw_request, c)
      | inr moved ↦
          let (t, text, v) =
            validate_texts-member run_transitions s mid.status
              (subst (λ x. validate_texts run_transitions x mid.status ≡ ok tt) e moved) in
          let (new, at_end, p, q, c) =
            serve-Course rs id (attempt st (handle r st)) mid t found (sym text) in
          (
            new,
            at_end,
            p ∙ follows.project_id,
            q ∙ follows.raw_request,
            Course-step run_transitions s t v c,
          )
    ]
