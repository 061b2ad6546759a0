-- ===== src/Orchestrator/History/Jobs.antt =====
-- The table `external_jobs` of src/material_agent/orchestrator/storage.py under any calls.
use native.Mathlib.Nat.{le_trans}
use materials_screening_agen.Prelude.{
  ℕ, String, ◌≤◌, ◌≡◌, refl, Bool, true, false, Option, none, some, List, [], ◌∷◌, ok, inl, inr,
  arith, attempt, find?, find?-append, find?-update, find?-sound, Option-cases, Bool-cases, change,
  sym, subst, ◌∙◌, eq_iff, string_eq, nat_eq, option_eq,
}
use materials_screening_agen.Orchestrator.Status.{
  ExternalJobStatus, external_job_enum, external_job_value,
}
use materials_screening_agen.Orchestrator.Transitions.{
  validate_external_transition, external_job_transitions, validate_texts,
}
use materials_screening_agen.Orchestrator.History.Columns.{
  Moves, Course, Course-here, Course-step, validate_texts-member,
}
use materials_screening_agen.Orchestrator.Store.{Request, project, external_job, handle, serve}
use materials_screening_agen.Orchestrator.Store.Rows.{Store, ExternalJob}
use materials_screening_agen.Orchestrator.Store.Runs.{
  create_project, create_run, update_run, record_requirement,
}
use materials_screening_agen.Orchestrator.Store.Stages.{upsert_stage_run, record_stage_attempt}
use materials_screening_agen.Orchestrator.Store.Approvals.{
  ensure_approval, decide_approval, append_event, record_interaction_response,
}
use materials_screening_agen.Orchestrator.Store.Jobs.{
  record_operation, record_external_job, job_key, get_external_job, check_job, merge_job,
}

abbrev writes_jobs : Request → Bool
writes_jobs (external_job _) = true
writes_jobs _ = false

external_jobs-handle :
    (r : Request) (st : Store)
    → writes_jobs r ≡ false
    → (attempt st (handle r st)).external_jobs ≡ st.external_jobs
unfolding handle create_project create_run update_run record_requirement upsert_stage_run
    record_stage_attempt append_event record_interaction_response record_operation ensure_approval
    decide_approval
external_jobs-handle (project a b) st h = ground arith
external_jobs-handle _ st h = ground arith

-- What a call does to an external job that is there: its identity stays, its status makes at most one
-- accepted transition, its sequence number never falls, and at the same number the status stays.
pub record Follows (old new : ExternalJob) : Type 0 where
  pub backend : new.backend ≡ old.backend
  pub external_job_ref : new.external_job_ref ≡ old.external_job_ref
  pub submit_operation_key : new.submit_operation_key ≡ old.submit_operation_key
  pub sequence : old.status_sequence ≤ new.status_sequence
  pub same_sequence : old.status_sequence ≡ new.status_sequence → new.status ≡ old.status
  pub status : Moves external_job_transitions old.status new.status

abbrev After : Option ExternalJob → ExternalJob → Type 0
After none old = ⊥
After (some new) old = Follows old new

Follows-refl : (row : ExternalJob) → Follows row row
Follows-refl row = record {
  backend = refl;
  external_job_ref = refl;
  submit_operation_key = refl;
  sequence = omega arith;
  same_sequence = λ e. refl;
  status = inl refl;
}

-- The checks of `validate_external_job_record` on a row that is there.
record Passed (old new : ExternalJob) : Type 0 where
  sequence : old.status_sequence ≤ new.status_sequence
  same_sequence : old.status_sequence ≡ new.status_sequence → new.status ≡ old.status
  status : validate_external_transition old.status new.status ≡ ok tt

check_job-Passed : (old new : ExternalJob) → check_job old new ≡ ok tt → Passed old new
unfolding check_job
check_job-Passed old new h = record {
  sequence = ground arith;
  same_sequence = λ e. ground (arith, eq_iff new.status old.status);
  status = ground arith;
}

merge_job-Follows :
    (old new : ExternalJob) → check_job old new ≡ ok tt → Follows old (merge_job new old)
merge_job-Follows old new h =
    let p = check_job-Passed old new h in
    record {
      backend = refl;
      external_job_ref = refl;
      submit_operation_key = refl;
      sequence = p.sequence;
      same_sequence = p.same_sequence;
      status = inr (unfold validate_external_transition in p.status);
    }

job_key-merge_job :
    (id stage a b : String) (n m : ℕ) (e row : ExternalJob)
    → job_key id stage n (change (job_key a b m) (merge_job e) row) ≡ job_key id stage n row
job_key-merge_job id stage a b n m e row = ground arith

-- Two keys that hold of one row hold of the same rows.
job_key-eq :
    (id stage a b : String) (n m : ℕ) (row : ExternalJob)
    → job_key id stage n row ≡ true
    → job_key a b m row ≡ true
    → job_key a b m ≡ job_key id stage n
job_key-eq id stage a b n m row h k =
    let p : a ≡ id = ground (arith, eq_iff row.run_id a, eq_iff row.run_id id) in
    let q : b ≡ stage = ground (arith, eq_iff row.stage_id b, eq_iff row.stage_id stage) in
    let r : m ≡ n = ground arith in cc

change-Follows :
    (id stage : String) (n : ℕ) (e : ExternalJob) (st : Store) (row old : ExternalJob)
    → find? (job_key id stage n) st.external_jobs ≡ some row
    → find? (job_key e.run_id e.stage_id e.attempt) st.external_jobs ≡ some old
    → check_job old e ≡ ok tt
    → Follows row (change (job_key e.run_id e.stage_id e.attempt) (merge_job e) row)
change-Follows id stage n e st row old h found c =
    elim (Bool-cases (job_key e.run_id e.stage_id e.attempt row)) [
      | inl hit ↦
          let here = find?-sound (job_key id stage n) st.external_jobs h in
          let keys = job_key-eq id stage e.run_id e.stage_id n e.attempt row here hit in
          let found' = subst (λ k. find? k st.external_jobs ≡ some old) keys found in
          let same_row : old ≡ row = cc in
          rw hit (
            merge_job-Follows row e (subst (λ (r : ExternalJob). check_job r e ≡ ok tt) same_row c))
      | inr miss ↦ rw miss (Follows-refl row)
    ]

record_external_job-After :
    (e : ExternalJob) (id stage : String) (n : ℕ) (st : Store) (row : ExternalJob)
    → get_external_job id stage n st ≡ some row
    → After (get_external_job id stage n (attempt st (record_external_job e st))) row
unfolding record_external_job get_external_job
record_external_job-After e id stage n st row h =
    elim (Option-cases (find? (job_key e.run_id e.stage_id e.attempt) st.external_jobs)) [
      | inl missing ↦ ground (
        arith,
        h,
        missing,
        Follows-refl row,
        find?-append (job_key id stage n) st.external_jobs (e ∷ []),
      )
      | inr (old, found) ↦ ground (
        arith,
        h,
        found,
        Follows-refl row,
        change-Follows id stage n e st row old h found,
        find?-update (job_key id stage n) (job_key e.run_id e.stage_id e.attempt) (merge_job e)
            st.external_jobs (job_key-merge_job id stage e.run_id e.stage_id n e.attempt e),
      )
    ]

handle-After :
    (r : Request) (id stage : String) (n : ℕ) (st : Store) (row : ExternalJob)
    → get_external_job id stage n st ≡ some row
    → After (get_external_job id stage n (attempt st (handle r st))) row
unfolding handle
handle-After (external_job e) id stage n st row h = record_external_job-After e id stage n st row h
handle-After r id stage n st row h =
    unfold get_external_job in rw (external_jobs-handle r st refl, h) (Follows-refl row)

step-Follows :
    (r : Request) (id stage : String) (n : ℕ) (st : Store) (row : ExternalJob)
    → get_external_job id stage n st ≡ some row
    → (new : ExternalJob) × (get_external_job id stage n (attempt st (handle r st)) ≡ some new)
      × Follows row new
step-Follows r id stage n st row h =
    elim (Option-cases (get_external_job id stage n (attempt st (handle r st)))) [
      | inl gone ↦ absurd (rw gone at (handle-After r id stage n st row h))
      | inr (new, found) ↦ (new, found, rw found at (handle-After r id stage n st row h))
    ]

-- From an external job that is there with the status `s`, any calls, refused ones included, leave a
-- job of the same attempt with the same backend, reference and submit key; its sequence number has
-- not fallen, and its status has made a walk of the transition table from `s`.
pub job-Course :
    (rs : List Request) (id stage : String) (n : ℕ) (st : Store) (row : ExternalJob)
    (s : ExternalJobStatus)
    → get_external_job id stage n st ≡ some row
    → row.status ≡ external_job_value s
    → (new : ExternalJob) × (get_external_job id stage n (serve st rs) ≡ some new)
      × (new.backend ≡ row.backend)
      × (new.external_job_ref ≡ row.external_job_ref)
      × (new.submit_operation_key ≡ row.submit_operation_key)
      × (row.status_sequence ≤ new.status_sequence)
      × Course external_job_transitions s new.status
unfolding serve
job-Course [] id stage n st row s h e =
    (row, h, refl, refl, refl, omega arith, rw e (Course-here external_job_transitions s))
job-Course (r ∷ rs) id stage n st row s h e =
    let (mid, found, f) = step-Follows r id stage n st row h in
    elim f.status [
      | inl kept ↦
          let (new, at_end, p, q, k, l, c) =
            job-Course rs id stage n (attempt st (handle r st)) mid s found (sym kept ∙ e) in
          (
            new,
            at_end,
            p ∙ f.backend,
            q ∙ f.external_job_ref,
            k ∙ f.submit_operation_key,
            le_trans f.sequence l,
            c,
          )
      | inr moved ↦
          let (t, text, v) =
            validate_texts-member external_job_transitions s mid.status
              (subst (λ x. validate_texts external_job_transitions x mid.status ≡ ok tt) e moved) in
          let (new, at_end, p, q, k, l, c) =
            job-Course rs id stage n (attempt st (handle r st)) mid t found (sym text) in
          (
            new,
            at_end,
            p ∙ f.backend,
            q ∙ f.external_job_ref,
            k ∙ f.submit_operation_key,
            le_trans f.sequence l,
            Course-step external_job_transitions s t v c,
          )
    ]
