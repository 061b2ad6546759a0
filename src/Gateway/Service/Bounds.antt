-- ===== src/Gateway/Service/Bounds.antt =====
-- The limits of a request on the results that MaterialsGatewayService has stored
-- (src/material_agent/gateway/service.py).
use materials_screening_agen.Prelude.{
  ℕ, String, ◌≡◌, refl, sym, subst, true, false, Option, none, some, List, [], ◌∷◌, ◌==◌, string_eq,
  inl, inr, Option-cases, Bool-cases, Check-cases, find?, find?-append, find?-one, update, str_refl,
  ◌∙◌, arith, eq_iff,
}
use materials_screening_agen.Gateway.Model.{Hashing, RunRecord, ResultRecord}
use materials_screening_agen.Gateway.Grants.{GrantStore}
use materials_screening_agen.Gateway.Memory.{
  Memory, empty_memory, run_key, result_key, create_or_get, get_run, check_replacement, replace_run,
  store_result,
}
use materials_screening_agen.Gateway.Repository.{
  MemoryOp, create, replace, check_replacement-Checked, check_replacement-Bound, Bound,
  find?-store_result, find?-store_run,
}
use materials_screening_agen.Gateway.Results.{step, run}
use materials_screening_agen.Gateway.Service.Budgets.{WithinBudget, Budgeted}
use materials_screening_agen.Gateway.Service.Calls.{
  ServiceOp, AllBudgeted, serve_all, initial_world, serve_all-Leads,
}

abbrev Fits : String → Option RunRecord → Option ResultRecord → Type 0
Fits id none none = Unit {0}
Fits id none (some r) = ⊥
Fits id (some row) result = Budgeted id row.request result

module _ (h : Hashing) where
  abbrev FitsAt : String → Memory → Type 0
  FitsAt id m = Fits id (find? (run_key id) m.runs) (find? (result_key id) m.results)

  create-FitsAt :
      (id : String) (new : RunRecord) (m : Memory) → FitsAt id m → FitsAt id (step h (create new) m)
  unfolding step create_or_get
  create-FitsAt id new m before = elim (Option-cases (find? (run_key id) m.runs)) [
    | inl missing ↦ elim (Option-cases (find? (result_key id) m.results)) [
      | inl no_result ↦ ground (
        arith,
        missing,
        no_result,
        find?-append (run_key id) m.runs (new ∷ []),
        find?-one (run_key id) new,
      )
      | inr (r, found) ↦ ground (arith, missing, found)
    ]
    | inr (old, found) ↦ elim (Option-cases (find? (result_key id) m.results)) [
      | inl no_result ↦ ground (
        arith,
        found,
        no_result,
        find?-append (run_key id) m.runs (new ∷ []),
        find?-one (run_key id) new,
      )
      | inr (r, there) ↦ ground (
        arith,
        found,
        there,
        before,
        find?-append (run_key id) m.runs (new ∷ []),
        find?-one (run_key id) new,
      )
    ]
  ]

  -- Where the run that is replaced is the one looked at.
  own-FitsAt :
      (new current : RunRecord) (results : List ResultRecord) (result : Option ResultRecord)
      → new.request ≡ current.request
      → Bound h new result
      → Budgeted new.run_id new.request result
      → Fits new.run_id (some current) (find? (result_key new.run_id) results)
      → Fits new.run_id (some new) (find? (result_key new.run_id) (store_result h result results))
  own-FitsAt new current results none same bound fits before =
      subst (λ q. Budgeted new.run_id q (find? (result_key new.run_id) results)) (sym same) before
  own-FitsAt new current results (some r) same bound fits before =
      let here : (r.run_id == new.run_id) ≡ true = (eq_iff r.run_id new.run_id).1 bound.0 in
      let row = find?-store_result h new.run_id r results in rw (row, here) fits

  own-run-FitsAt :
      (new current : RunRecord) (result : Option ResultRecord) (m : Memory)
      → find? (run_key new.run_id) m.runs ≡ some current
      → new.request ≡ current.request
      → Bound h new result
      → Budgeted new.run_id new.request result
      → FitsAt new.run_id m
      → Fits new.run_id
          (find? (run_key new.run_id) (update (run_key new.run_id) (λ _. new) m.runs))
          (find? (result_key new.run_id) (store_result h result m.results))
  own-run-FitsAt new current result m found same bound fits before =
      let here : (new.run_id == new.run_id) ≡ true = str_refl new.run_id in
      rw (find?-store_run new.run_id new current m.runs found, here)
        (own-FitsAt new current m.results result same bound fits (rw found at before))

  -- Results of other runs stay.
  find?-other_result :
      (id : String) (new : RunRecord) (result : Option ResultRecord) (results : List ResultRecord)
      → Bound h new result
      → (new.run_id == id) ≡ false
      → find? (result_key id) (store_result h result results) ≡ find? (result_key id) results
  find?-other_result id new none results bound there = refl
  find?-other_result id new (some r) results bound there =
      let elsewhere = subst (λ k. (k == id) ≡ false) (sym bound.0) there in
      find?-store_result h id r results ∙ rw elsewhere refl

  replace-FitsAt :
      (id : String) (new : RunRecord) (e : ℕ) (result : Option ResultRecord) (m : Memory)
      → Budgeted new.run_id new.request result
      → FitsAt id m
      → FitsAt id (step h (replace new e result) m)
  unfolding step replace_run
  replace-FitsAt id new e result m fits before =
      let existing = find? (result_key new.run_id) m.results in
      elim (Option-cases (find? (run_key new.run_id) m.runs)) [
        | inl missing ↦ rw missing before
        | inr (current, found) ↦
            elim (Check-cases (check_replacement h new e result current existing)) [
              | inr (error, refused) ↦ rw (found, refused) before
              | inl passed ↦
                  let same =
                    (check_replacement-Checked h new e result current existing passed).request in
                  let bound = check_replacement-Bound h new e result current existing passed in
                  elim (Bool-cases (new.run_id == id)) [
                    | inl here ↦
                        let names = (eq_iff new.run_id id).0 here in
                        let own =
                          own-run-FitsAt new current result m found same bound fits
                            (subst (λ k. FitsAt k m) (sym names) before) in
                        rw (found, passed)
                          (subst
                            (λ k.
                              Fits k
                                (find? (run_key k) (update (run_key new.run_id) (λ _. new) m.runs))
                                (find? (result_key k) (store_result h result m.results)))
                            names own)
                    | inr there ↦
                        rw
                          (
                            found,
                            passed,
                            find?-store_run id new current m.runs found,
                            there,
                            find?-other_result id new result m.results bound there,
                          )
                          before
                  ]
            ]
      ]

  run-FitsAt :
      (id : String) (ops : List MemoryOp) (m : Memory)
      → AllBudgeted h ops
      → FitsAt id m
      → FitsAt id (run h ops m)
  unfolding run
  run-FitsAt id [] m b f = f
  run-FitsAt id (create new ∷ ops) m b f =
      run-FitsAt id ops (step h (create new) m) b.1 (create-FitsAt id new m f)
  run-FitsAt id (replace new e result ∷ ops) m b f =
      run-FitsAt id ops (step h (replace new e result) m) b.1
        (replace-FitsAt id new e result m b.0 f)

  Fits-WithinBudget :
      (id : String) (row : Option RunRecord) (r : ResultRecord)
      → Fits id row (some r)
      → (run : RunRecord) × (row ≡ some run) × WithinBudget id run.request r
  Fits-WithinBudget id none r f = absurd f
  Fits-WithinBudget id (some run) r f = (run, refl, f)

  -- From an empty repository, and whatever the companions answer to any sequence of submissions and
  -- actions: a result that is stored belongs to a run in the repository, names that run's ID and report
  -- URI, and its number of candidates, requests, documents, passages, model calls and its time are
  -- within the limits of that run's request.
  pub serve_all-WithinBudget :
      (ops : List ServiceOp) (grants : GrantStore) (id : String) (r : ResultRecord)
      → let w = serve_all h ops (initial_world grants) in
        find? (result_key id) w.memory.results ≡ some r
        → (row : RunRecord) × (get_run id w.memory ≡ some row) × WithinBudget id row.request r
  unfolding get_run
  serve_all-WithinBudget ops grants id r there =
      let w0 = initial_world grants in
      let trace = serve_all-Leads h ops w0 in
      let fits =
        subst (FitsAt id) trace.leads
          (run-FitsAt id trace.ops empty_memory trace.budgeted (unfold find? in tt)) in
      Fits-WithinBudget id (find? (run_key id) (serve_all h ops w0).memory.runs) r
        (rw there at fits)
