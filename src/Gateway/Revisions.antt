-- ===== src/Gateway/Revisions.antt =====
-- Optimistic revisions in InMemoryGatewayRepository (src/material_agent/gateway/memory.py).
use native.Mathlib.Nat.{le_trans}
use materials_screening_agen.Prelude.{
  Check-cases, ℕ, String, ◌+◌, ◌≤◌, ◌≡◌, refl, sym, ◌∙◌, subst, Option, none, some, List, [], ◌∷◌,
  ◌==◌, string_eq, nat_eq, inl, inr, Option-cases, Bool-cases, ok, err, find?, find?-append, arith,
  eq_iff, str_refl, ap,
}
use materials_screening_agen.Gateway.Model.{Hashing, RunRecord, ResultRecord}
use materials_screening_agen.Gateway.Memory.{
  Memory, concurrent_update, run_key, result_key, create_or_get, check_replacement, replace_run,
}
use materials_screening_agen.Gateway.Repository.{
  MemoryOp, create, replace, Checked, check_replacement-Checked, find?-store_run,
}
use materials_screening_agen.Gateway.Results.{step, run}

-- A later version of a run's record: its revision has not fallen and its request is the same.
pub record Later (old new : RunRecord) : Type 0 where
  pub revision : old.revision ≤ new.revision
  pub request : new.request ≡ old.request
  pub request_sha256 : new.request_sha256 ≡ old.request_sha256

abbrev After : Option RunRecord → RunRecord → Type 0
After none old = ⊥
After (some new) old = Later old new

Later-refl : (r : RunRecord) → Later r r
Later-refl r = record { revision = omega arith; request = refl; request_sha256 = refl }

module _ (h : Hashing) where
  create-After :
      (id : String) (new : RunRecord) (m : Memory) (row : RunRecord)
      → find? (run_key id) m.runs ≡ some row
      → After (find? (run_key id) (step h (create new) m).runs) row
  unfolding step create_or_get
  create-After id new m row found =
      ground (arith, found, Later-refl row, find?-append (run_key id) m.runs (new ∷ []))

  replaced-Later :
      (id : String) (new : RunRecord) (e : ℕ) (result : Option ResultRecord) (m : Memory)
      (current row : RunRecord)
      → find? (run_key id) m.runs ≡ some row
      → find? (run_key new.run_id) m.runs ≡ some current
      → Checked h new e result current
      → new.run_id ≡ id
      → Later row new
  replaced-Later id new e result m current row found at_new c names =
      let at_id = subst (λ k. find? (run_key k) m.runs ≡ some current) names at_new in
      let same_row : current ≡ row = cc in
      record {
        revision = omega (arith, c, ap (λ (r : RunRecord). r.revision) same_row);
        request = c.request ∙ ap (λ (r : RunRecord). r.request) same_row;
        request_sha256 = c.request_sha256 ∙ ap (λ (r : RunRecord). r.request_sha256) same_row;
      }

  replace-After :
      (id : String) (new : RunRecord) (e : ℕ) (result : Option ResultRecord) (m : Memory)
      (row : RunRecord)
      → find? (run_key id) m.runs ≡ some row
      → After (find? (run_key id) (step h (replace new e result) m).runs) row
  unfolding step replace_run
  replace-After id new e result m row found =
      elim (Option-cases (find? (run_key new.run_id) m.runs)) [
        | inl missing ↦ ground (arith, missing, found, Later-refl row)
        | inr (current, at_new) ↦
            elim (Check-cases (
              check_replacement h new e result current (find? (result_key new.run_id) m.results))) [
                | inr (error, refused) ↦ ground (arith, at_new, refused, found, Later-refl row)
                | inl passed ↦
                    let c =
                      check_replacement-Checked h new e result current
                        (find? (result_key new.run_id) m.results) passed in
                    elim (Bool-cases (new.run_id == id)) [
                      | inl here ↦ ground (
                        arith,
                        at_new,
                        passed,
                        find?-store_run id new current m.runs at_new,
                        replaced-Later id new e result m current row found at_new c
                            ((eq_iff new.run_id id).0 here),
                      )
                      | inr there ↦ ground (
                        arith,
                        at_new,
                        passed,
                        found,
                        Later-refl row,
                        find?-store_run id new current m.runs at_new,
                      )
                    ]
              ]
      ]

  step-Later :
      (id : String) (o : MemoryOp) (m : Memory) (row : RunRecord)
      → find? (run_key id) m.runs ≡ some row
      → (new : RunRecord) × (find? (run_key id) (step h o m).runs ≡ some new) × Later row new
  step-Later id o m row found = elim (Option-cases (find? (run_key id) (step h o m).runs)) [
    | inl gone ↦ absurd (rw gone at (after o))
    | inr (new, there) ↦ (new, there, rw there at (after o))
  ]
    where
      after : (p : MemoryOp) → After (find? (run_key id) (step h p m).runs) row
      after (create new) = create-After id new m row found
      after (replace new e result) = replace-After id new e result m row found

  pub run-Later :
      (id : String) (ops : List MemoryOp) (m : Memory) (row : RunRecord)
      → find? (run_key id) m.runs ≡ some row
      → (new : RunRecord) × (find? (run_key id) (run h ops m).runs ≡ some new) × Later row new
  unfolding run
  run-Later id [] m row found = (row, found, Later-refl row)
  run-Later id (o ∷ ops) m row found =
      let (mid, there, l) = step-Later id o m row found in
      let (new, at_end, k) = run-Later id ops (step h o m) mid there in
      (
        new,
        at_end,
        record {
          revision = le_trans l.revision k.revision;
          request = k.request ∙ l.request;
          request_sha256 = k.request_sha256 ∙ l.request_sha256;
        },
      )

  pub replaced-found :
      (new : RunRecord) (e : ℕ) (result : Option ResultRecord) (m m' : Memory)
      → replace_run h new e result m ≡ ok m'
      → (find? (run_key new.run_id) m'.runs ≡ some new) × (new.revision ≡ e + 1)
  unfolding replace_run
  replaced-found new e result m m' done = elim (Option-cases (find? (run_key new.run_id) m.runs)) [
    | inl missing ↦ absurd (ground (arith, missing, done))
    | inr (current, at_new) ↦
        let existing = find? (result_key new.run_id) m.results in
        elim (Check-cases (check_replacement h new e result current existing)) [
          | inr (error, refused) ↦ absurd (ground (arith, at_new, refused, done))
          | inl passed ↦ (
            ground (
              arith,
              at_new,
              passed,
              done,
              str_refl new.run_id,
              find?-store_run new.run_id new current m.runs at_new,
            ),
            (check_replacement-Checked h new e result current existing passed).next_revision,
          )
        ]
  ]

  outdated-replace_run :
      (late : RunRecord) (e : ℕ) (result : Option ResultRecord) (m : Memory) (row : RunRecord)
      → find? (run_key late.run_id) m.runs ≡ some row
      → e + 1 ≤ row.revision
      → replace_run h late e result m ≡ err concurrent_update
  unfolding replace_run check_replacement
  outdated-replace_run late e result m row found newer = ground (arith, found, newer)

  -- A revision of a run is replaced at most once: after a replacement of revision `e` that succeeds, and
  -- whatever calls follow, every further replacement of the same run that expects `e` is refused with
  -- a concurrent-update error.
  pub run-replace_run :
      (new : RunRecord) (e : ℕ) (result : Option ResultRecord) (m m' : Memory) (ops : List MemoryOp)
      (late : RunRecord) (late_result : Option ResultRecord)
      → replace_run h new e result m ≡ ok m'
      → late.run_id ≡ new.run_id
      → replace_run h late e late_result (run h ops m') ≡ err concurrent_update
  run-replace_run new e result m m' ops late late_result done same =
      let (found, next) = replaced-found new e result m m' done in
      let (row, at_end, later) = run-Later new.run_id ops m' new found in
      let at_late =
        subst (λ k. find? (run_key k) (run h ops m').runs ≡ some row) (sym same) at_end in
      outdated-replace_run late e late_result (run h ops m') row at_late
        (omega (arith, next, later.revision))
