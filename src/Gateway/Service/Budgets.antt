-- ===== src/Gateway/Service/Budgets.antt =====
-- What _validate_transition of src/material_agent/gateway/service.py lets through.
use materials_screening_agen.Prelude.{
  String, ◌*◌, ◌≤◌, ◌≡◌, Option, none, some, string_eq, inl, inr, Option-cases, ok, Check-cases,
  length, arith, eq_iff,
}
use materials_screening_agen.Gateway.Model.{
  Hashing, RunRequest, ResultRecord, Transition, terminal_reference, inspiration_report_uri,
}
use materials_screening_agen.Gateway.Service.{
  Outcome, returned, contract_error, other_error, check_budget, check_reference, check_result,
  validate_transition, settle,
}

-- A result that stays within what its request allows.
pub record WithinBudget (run_id : String) (request : RunRequest) (r : ResultRecord) : Type 0 where
  pub own_run : r.run_id ≡ run_id
  pub own_report : r.report_uri ≡ inspiration_report_uri run_id
  pub candidates : length r.bundle.selected_candidates ≤ request.constraints.top_k
  pub searches : r.cost_ledger.search_requests ≤ request.constraints.budget.max_search_requests
  pub documents : r.cost_ledger.fetched_documents ≤ request.constraints.budget.max_unique_documents
  pub extracted : r.cost_ledger.extracted_passages ≤ request.constraints.budget.max_passages
  pub vectorized : r.cost_ledger.vectorized_passages ≤ request.constraints.budget.max_passages
  pub model_calls : r.cost_ledger.model_calls ≤ request.constraints.budget.max_model_calls
  pub walltime : r.cost_ledger.walltime_ms ≤ request.constraints.budget.max_walltime_seconds * 1000

abbrev pub Budgeted : String → RunRequest → Option ResultRecord → Type 0
Budgeted run_id request none = Unit {0}
Budgeted run_id request (some r) = WithinBudget run_id request r

module _ (h : Hashing) where
  check_result-Budgeted :
      (id : String) (request : RunRequest) (reference : Option (String × String × String))
      (r : ResultRecord)
      → check_reference h reference (some r) ≡ ok tt
      → check_result h id request reference (some r) ≡ ok tt
      → WithinBudget id request r
  unfolding check_reference check_result check_budget
  check_result-Budgeted id request none r bound c = absurd (ground (arith, c))
  check_result-Budgeted id request (some reference) r bound c = record {
    own_run = ground (arith, eq_iff r.run_id id);
    own_report = ground (
      arith,
      c,
      bound,
      eq_iff reference.0 (inspiration_report_uri id),
      eq_iff reference.0 r.report_uri,
    );
    candidates = ground arith;
    searches = ground arith;
    documents = ground arith;
    extracted = ground arith;
    vectorized = ground arith;
    model_calls = ground arith;
    walltime = ground arith;
  }

  -- What `_validate_transition` passes.
  checked-Budgeted :
      (t : Transition) (id : String) (request : RunRequest) (previous : Option String)
      → validate_transition h t id request previous ≡ ok tt
      → Budgeted id request t.result
  unfolding validate_transition
  checked-Budgeted t id request previous c = elim (Option-cases t.result) [
    | inl missing ↦ rw missing tt
    | inr (r, there) ↦ rw there (
        check_result-Budgeted id request (terminal_reference t.state) r (ground (arith, there, c))
          (ground (arith, there, c)))
  ]

  pub settle-Budgeted :
      (message : String) (o : Outcome) (id : String) (request : RunRequest)
      (previous : Option String)
      → Budgeted id request (settle h message o id request previous).result
  unfolding settle
  settle-Budgeted message (returned t) id request previous =
      elim (Check-cases (validate_transition h t id request previous)) [
        | inl passed ↦ rw passed (checked-Budgeted t id request previous passed)
        | inr (e, refused) ↦ rw refused tt
      ]
  settle-Budgeted message contract_error id request previous = tt
  settle-Budgeted message other_error id request previous = tt
