-- ===== src/Gateway/Service/Submitting.antt =====
-- materials_inspiration_run of src/material_agent/gateway/service.py on a submission that is known.
use materials_screening_agen.Prelude.{
  String, ◌≡◌, sym, subst, some, List, [], ◌∷◌, ◌++◌, ◌==◌, string_eq, if◌then◌else◌, inl, inr,
  Option-cases, Bool-cases, Check-cases, ok, err, find?, arith,
}
use materials_screening_agen.Gateway.Model.{
  Hashing, RunRecord, RunRequest, run_view, inspiration_request_sha256,
}
use materials_screening_agen.Gateway.Memory.{
  Memory, submission_conflict, indexed_run, run_key, result_key, create_or_get, get_run,
  check_replacement, replace_run,
}
use materials_screening_agen.Gateway.Repository.{MemoryOp, create, replace}
use materials_screening_agen.Gateway.Results.{step, run}
use materials_screening_agen.Gateway.Revisions.{run-Later}
use materials_screening_agen.Gateway.Service.{Companion, World, materials_inspiration_run}
use materials_screening_agen.Gateway.Service.Calls.{ServiceOp, serve_all, serve_all-Leads}

indexed_run-append :
    (s : String) (xs ys : List (String × String)) (id : String)
    → indexed_run s xs ≡ some id
    → indexed_run s (xs ++ ys) ≡ some id
indexed_run-append s [] ys id h = ground (arith, h)
indexed_run-append s (x ∷ xs) ys id h = ground (arith, indexed_run-append s xs ys id)

module _ (h : Hashing) where
  step-indexed_run :
      (s : String) (o : MemoryOp) (m : Memory) (id : String)
      → indexed_run s m.submission_index ≡ some id
      → indexed_run s (step h o m).submission_index ≡ some id
  unfolding step create_or_get replace_run
  step-indexed_run s (create new) m id known =
      elim (Option-cases (indexed_run new.request.submission_id m.submission_index)) [
        | inr (other, there) ↦ elim (Option-cases (find? (run_key other) m.runs)) [
          | inl missing ↦ ground (arith, there, missing, known)
          | inr (old, found) ↦ ground (arith, there, found, known)
        ]
        | inl unknown ↦ elim (Option-cases (find? (run_key new.run_id) m.runs)) [
          | inr (old, found) ↦ ground (arith, unknown, found, known)
          | inl missing ↦ ground (
            arith,
            unknown,
            missing,
            indexed_run-append s m.submission_index ((new.request.submission_id, new.run_id) ∷ [])
                id known,
          )
        ]
      ]
  step-indexed_run s (replace new e result) m id known =
      let existing = find? (result_key new.run_id) m.results in
      elim (Option-cases (find? (run_key new.run_id) m.runs)) [
        | inl missing ↦ rw missing known
        | inr (current, found) ↦
            elim (Check-cases (check_replacement h new e result current existing)) [
              | inl passed ↦ rw (found, passed) known
              | inr (error, refused) ↦ rw (found, refused) known
            ]
      ]

  run-indexed_run :
      (s : String) (ops : List MemoryOp) (m : Memory) (id : String)
      → indexed_run s m.submission_index ≡ some id
      → indexed_run s (run h ops m).submission_index ≡ some id
  unfolding run
  run-indexed_run s [] m id known = known
  run-indexed_run s (o ∷ ops) m id known =
      run-indexed_run s ops (step h o m) id (step-indexed_run s o m id known)

  known-materials_inspiration_run :
      (c : Companion) (r : RunRequest) (w : World) (id : String) (row : RunRecord)
      → indexed_run r.submission_id w.memory.submission_index ≡ some id
      → find? (run_key id) w.memory.runs ≡ some row
      → materials_inspiration_run h c r w ≡ (
        if row.request_sha256 == inspiration_request_sha256 h r
            then ok (run_view row)
            else err submission_conflict,
        w,
      )
  unfolding materials_inspiration_run create_or_get
  known-materials_inspiration_run c r w id row known found =
      elim (Bool-cases (row.request_sha256 == inspiration_request_sha256 h r)) [
        | inl same ↦ ground (arith, known, found, same)
        | inr other ↦ ground (arith, known, found, other)
      ]

  -- Submitting again is idempotent: where a submission ID is on record for a run, then after any calls
  -- of the service the run is still there with the same request hash, and a submission under that ID
  -- changes nothing. It answers with the run as it is where the request has the same hash, and with a
  -- conflict otherwise.
  pub serve_all-materials_inspiration_run :
      (c : Companion) (r : RunRequest) (ops : List ServiceOp) (w : World) (id : String)
      (row : RunRecord)
      → indexed_run r.submission_id w.memory.submission_index ≡ some id
      → get_run id w.memory ≡ some row
      → let end = serve_all h ops w in
        (new : RunRecord) × (get_run id end.memory ≡ some new)
        × (new.request_sha256 ≡ row.request_sha256)
        × (materials_inspiration_run h c r end ≡ (
          if row.request_sha256 == inspiration_request_sha256 h r
              then ok (run_view new)
              else err submission_conflict,
          end,
        ))
  unfolding get_run
  serve_all-materials_inspiration_run c r ops w id row known found =
      let end = serve_all h ops w in
      let trace = serve_all-Leads h ops w in
      let (new, there, later) = run-Later h id trace.ops w.memory row found in
      let at_end = subst (λ m. find? (run_key id) m.runs ≡ some new) trace.leads there in
      let still =
        subst (λ m. indexed_run r.submission_id m.submission_index ≡ some id) trace.leads
          (run-indexed_run r.submission_id trace.ops w.memory id known) in
      (
        new,
        at_end,
        later.request_sha256,
        rw (sym later.request_sha256) (known-materials_inspiration_run c r end id new still at_end),
      )
