-- ===== src/Gateway/Service/Reading.antt =====
-- materials_result_get of src/material_agent/gateway/service.py, on what the service has stored.
use materials_screening_agen.Prelude.{
  ℕ, String, ◌≡◌, refl, subst, Option, none, some, List, string_eq, ◌⊎◌, inl, inr, ok, err, ◌>>◌,
  find?, arith, str_refl,
}
use materials_screening_agen.Gateway.Model.{
  Hashing, RunRecord, ResultRecord, terminal_reference, gateway_result_sha256,
  inspiration_report_uri,
}
use materials_screening_agen.Gateway.Grants.{GrantStore}
use materials_screening_agen.Gateway.Memory.{
  empty_memory, run_key, result_key, get_run, get_result, result_unavailable, reference_to,
}
use materials_screening_agen.Gateway.Results.{run-CoherentAt, Coherent, CoherentAt}
use materials_screening_agen.Gateway.Service.{World, Answer, check_report, materials_result_get}
use materials_screening_agen.Gateway.Service.Calls.{
  ServiceOp, serve_all, serve_all-Leads, initial_world,
}
use materials_screening_agen.Gateway.Service.Bounds.{serve_all-WithinBudget}

module _ (h : Hashing) (read_bytes : String → Option String) (max_report_bytes : ℕ) where
  -- What a client is given of a result.
  abbrev pub delivered : ResultRecord → Answer (ResultRecord × String)
  delivered r = do check_report h read_bytes max_report_bytes r; ok (r, gateway_result_sha256 h r)

  open-materials_result_get :
      (id : String) (w : World) (row : RunRecord)
      → get_run id w.memory ≡ some row
      → terminal_reference row.state ≡ none
      → materials_result_get h read_bytes max_report_bytes id w ≡ err result_unavailable
  unfolding materials_result_get
  open-materials_result_get id w row found not_terminal = rw (found, not_terminal) refl

  terminal-materials_result_get :
      (id : String) (w : World) (row : RunRecord) (r : ResultRecord)
      → find? (run_key id) w.memory.runs ≡ some row
      → find? (result_key id) w.memory.results ≡ some r
      → terminal_reference row.state ≡ some (reference_to h r)
      → r.run_id ≡ id
      → r.report_uri ≡ inspiration_report_uri id
      → materials_result_get h read_bytes max_report_bytes id w ≡ delivered r
  unfolding materials_result_get get_result get_run
  terminal-materials_result_get id w row r found there bound own uri = ground (
    arith,
    found,
    there,
    bound,
    own,
    uri,
    str_refl r.run_id,
    str_refl r.report_uri,
    str_refl r.authoritative_sha256,
    str_refl (gateway_result_sha256 h r),
  )

  Coherent-cases :
      (row : RunRecord) (result : Option ResultRecord)
      → Coherent h (some row) result
      → ((terminal_reference row.state ≡ none) × (result ≡ none))
        ⊎ ((r : ResultRecord) × (result ≡ some r)
            × (terminal_reference row.state ≡ some (reference_to h r)))
  Coherent-cases row none c = inl (c, refl)
  Coherent-cases row (some r) c = inr (r, refl, c)

  -- From an empty repository, and whatever the companions answer to any sequence of submissions and
  -- actions, for a run in the repository: either it is not in a terminal state, and asking for its result
  -- answers that there is none; or a result that its state refers to is stored, and asking for it gives
  -- it if the report's bytes can be read, are not too many and have the hash of the result, and
  -- otherwise the error that the check of the report raises. No other check of the result fails.
  pub serve_all-materials_result_get :
      (ops : List ServiceOp) (grants : GrantStore) (id : String) (row : RunRecord)
      → let w = serve_all h ops (initial_world grants) in
        get_run id w.memory ≡ some row
        → ((terminal_reference row.state ≡ none)
            × (materials_result_get h read_bytes max_report_bytes id w ≡ err result_unavailable))
          ⊎ ((r : ResultRecord) × (terminal_reference row.state ≡ some (reference_to h r))
              × (materials_result_get h read_bytes max_report_bytes id w ≡ delivered r))
  unfolding get_run
  serve_all-materials_result_get ops grants id row found =
      let w = serve_all h ops (initial_world grants) in
      let trace = serve_all-Leads h ops (initial_world grants) in
      let coherent =
        subst (CoherentAt h id) trace.leads
          (run-CoherentAt h id trace.ops empty_memory trace.opened (unfold find? in tt)) in
      elim (Coherent-cases row (find? (result_key id) w.memory.results) (rw found at coherent)) [
        | inl (not_terminal, _) ↦
            inl (not_terminal, open-materials_result_get id w row found not_terminal)
        | inr (r, there, bound) ↦
            let (owner, _, fits) = serve_all-WithinBudget h ops grants id r there in
            inr (
              r,
              bound,
              terminal-materials_result_get id w row r found there bound fits.own_run
                  fits.own_report,
            )
      ]
