-- ===== src/Gateway/Service.antt =====
-- src/material_agent/gateway/service.py: MaterialsGatewayService. The companion and the artifact reader
-- are code outside of it, so each call takes what they answer; a call is one step, as where the service is
-- used by one caller at a time.
pub mod Budgets
pub mod Calls
pub mod Bounds
pub mod Reading
pub mod Admitting
pub mod Sparing
pub mod Acting
pub mod Committing
pub mod Submitting
use Prim.Native.Char.{code}
use materials_screening_agen.Prelude.{
  ℕ, String, ◌+◌, ◌*◌, Bool, true, false, Option, none, some, List, [], ◌∷◌, ◌==◌, ◌&&◌, ◌||◌, not,
  any, ltb, string_eq, if◌then◌else◌, Result, Check, ok, err, ◌>>=◌, ◌>>◌, raise_if, require,
  length,
}
use materials_screening_agen.Gateway.Model.{
  Hashing, RunRequest, RunState, running, interaction_required, failed, Interaction, interaction_id,
  Action, action_interaction_id, action_kind, allowed_actions, ResultRecord, Transition, RunRecord,
  RunView, run_view, terminal_reference, gateway_result_sha256, inspiration_request_sha256,
  inspiration_run_id, inspiration_report_uri,
}
use materials_screening_agen.Gateway.Grants.{Call, GrantStore, authorize_and_consume}
use materials_screening_agen.Gateway.Memory.{
  Memory, GatewayError, submission_conflict, run_not_found, stale_interaction, illegal_action,
  action_authorization_required, adapter_contract, result_unavailable, result_integrity,
  same_reference, create_or_get, get_run, replace_run, get_result, reference_to,
}

-- What a call of the companion does: it returns a transition, or raises.
pub data Outcome : Type 0 where
  returned : Transition → Outcome
  contract_error other_error : Outcome

pub record Companion : Type 0 where
  pub start : String → RunRequest → Outcome
  pub act : String → RunRequest → RunState → Action → Outcome

-- The repository and the authorizer of a service.
pub record World : Type 0 where
  pub memory : Memory
  pub grants : GrantStore

abbrev pub Answer : Type 0 → Type 0
Answer A = Result GatewayError A

abbrev exceeds : ℕ → ℕ → Check GatewayError
exceeds bound used = raise_if (ltb bound used) adapter_contract

-- The limits that the request sets.
unfoldable pub check_budget : RunRequest → ResultRecord → Check GatewayError
check_budget request r = do
  exceeds request.constraints.top_k (length r.bundle.selected_candidates)
  exceeds request.constraints.budget.max_search_requests r.cost_ledger.search_requests
  exceeds request.constraints.budget.max_unique_documents r.cost_ledger.fetched_documents
  exceeds request.constraints.budget.max_passages r.cost_ledger.extracted_passages
  exceeds request.constraints.budget.max_passages r.cost_ledger.vectorized_passages
  exceeds request.constraints.budget.max_model_calls r.cost_ledger.model_calls
  exceeds (request.constraints.budget.max_walltime_seconds * 1000) r.cost_ledger.walltime_ms

module _ (h : Hashing) where
  -- CompanionTransitionV1.validate_result_reference
  unfoldable pub check_reference :
      Option (String × String × String) → Option ResultRecord → Check GatewayError
  check_reference reference none = ok tt
  check_reference reference (some r) =
      raise_if (not (same_reference reference (reference_to h r))) adapter_contract

  unfoldable pub check_result :
      String
      → RunRequest
      → Option (String × String × String)
      → Option ResultRecord
      → Check GatewayError
  check_result run_id request none none = ok tt
  check_result run_id request none (some r) = err adapter_contract
  check_result run_id request (some reference) none = err adapter_contract
  check_result run_id request (some reference) (some r) = do
    raise_if (not (gateway_result_sha256 h r == reference.2)) adapter_contract
    raise_if (not (r.run_id == run_id)) adapter_contract
    raise_if (not (reference.0 == inspiration_report_uri run_id)) adapter_contract
    check_budget request r

  unfoldable pub check_fresh : Option String → RunState → Check GatewayError
  check_fresh (some previous) (interaction_required i) =
      raise_if (interaction_id i == previous) adapter_contract
  check_fresh _ _ = ok tt

  unfoldable pub validate_transition :
      Transition → String → RunRequest → Option String → Check GatewayError
  validate_transition t run_id request previous = do
    check_reference (terminal_reference t.state) t.result
    check_result run_id request (terminal_reference t.state) t.result
    check_fresh previous t.state

abbrev pub failure_transition : String → String → Transition
failure_transition code message = record { state = failed code message false; result = none }

abbrev contract_failure : Transition
contract_failure =
    failure_transition "ADAPTER_CONTRACT_ERROR"
      "inspiration companion returned an invalid transition"

abbrev checked : Transition → Check GatewayError → Transition
checked t (ok _) = t
checked t (err _) = contract_failure

module _ (h : Hashing) where
  -- The `try` around a call of the companion: `message` is that of an unexpected exception.
  unfoldable pub settle : String → Outcome → String → RunRequest → Option String → Transition
  settle message (returned t) run_id request previous =
      checked t (validate_transition h t run_id request previous)
  settle message contract_error run_id request previous = contract_failure
  settle message other_error run_id request previous =
      failure_transition "ADAPTER_EXECUTION_ERROR" message

  abbrev pub replacement : RunRecord → Transition → RunRecord
  replacement r t = record r { state = t.state; revision = r.revision + 1 }

  abbrev pub stored_view : RunRecord → Memory → Answer Memory → Answer RunView × Memory
  stored_view new m (ok m') = (ok (run_view new), m')
  stored_view new m (err e) = (err e, m)

  unfoldable pub commit : RunRecord → Transition → Memory → Answer RunView × Memory
  commit r t m =
      stored_view (replacement r t) m (replace_run h (replacement r t) r.revision t.result m)

  abbrev pub initial : RunRequest → RunRecord
  initial request = record {
    run_id = inspiration_run_id h request.submission_id;
    request = request;
    request_sha256 = inspiration_request_sha256 h request;
    state = running 0 (some "inspiration submission accepted");
    revision = 0;
  }

  abbrev pub started : Companion → RunRequest → Transition
  started c request =
      settle "inspiration companion failed during start"
        (c.start (inspiration_run_id h request.submission_id) request)
        (inspiration_run_id h request.submission_id) request none

  abbrev pub submitted :
      Companion
      → RunRequest
      → Memory
      → Answer ((RunRecord × Bool) × Memory)
      → Answer RunView × Memory
  submitted c request m (err e) = (err e, m)
  submitted c request m (ok ((persisted, true), m')) = commit persisted (started c request) m'
  submitted c request m (ok ((persisted, false), m')) =
      if persisted.request_sha256 == inspiration_request_sha256 h request
      then (ok (run_view persisted), m')
      else (err submission_conflict, m')

  unfoldable pub materials_inspiration_run : Companion → RunRequest → World → Answer RunView × World
  materials_inspiration_run c request w =
      let (answer, m) = submitted c request w.memory (create_or_get (initial request) w.memory) in
      (answer, record w { memory = m })

  unfoldable pub materials_run_get : String → World → Answer RunView
  materials_run_get id w = do row ← require (get_run id w.memory) run_not_found; ok (run_view row)

  -- The interaction that an action is for.
  unfoldable pub pending : Action → RunState → Answer Interaction
  pending a (interaction_required i) = do
    raise_if (not (action_interaction_id a == interaction_id i)) stale_interaction
    raise_if (not (any (allowed_actions i) (λ k. k == action_kind a))) illegal_action
    ok i
  pending a _ = err stale_interaction

  abbrev pub call_of : RunRecord → Interaction → Action → Call
  call_of row i a = record {
    run_id = row.run_id;
    interaction = i;
    request_sha256 = row.request_sha256;
    action = a;
  }

  -- Up to the companion's call: the record, the interaction, and the grants without the one consumed.
  abbrev authorized : RunRecord → Interaction → Action → GrantStore → Answer GrantStore
  authorized row i a s = elim (authorize_and_consume h (call_of row i a) s) [
    | ok s' ↦ ok s'
    | err e ↦ err action_authorization_required
  ]

  unfoldable pub admit : String → Action → World → Answer (RunRecord × (Interaction × GrantStore))
  admit id a w = do
    row ← require (get_run id w.memory) run_not_found
    i ← pending a row.state
    s ← authorized row i a w.grants
    ok (row, (i, s))

  abbrev pub acted : Companion → RunRecord → Interaction → Action → Transition
  acted c row i a =
      settle "inspiration companion failed during action" (c.act row.run_id row.request row.state a)
        row.run_id row.request (some (interaction_id i))

  abbrev pub acted_on :
      Companion
      → Action
      → World
      → Answer (RunRecord × (Interaction × GrantStore))
      → Answer RunView × World
  acted_on c a w (err e) = (err e, w)
  acted_on c a w (ok (row, (i, s))) =
      let (answer, m) = commit row (acted c row i a) w.memory in
      (answer, record { memory = m; grants = s })

  unfoldable pub materials_run_act : Companion → String → Action → World → Answer RunView × World
  materials_run_act c id a w = acted_on c a w (admit id a w)

abbrev pub size : String → ℕ
size String.[] = 0
size (String.◌∷◌ c s) = 1 + size s

module _ (h : Hashing) (read_bytes : String → Option String) (max_report_bytes : ℕ) where
  unfoldable pub check_report : ResultRecord → Check GatewayError
  check_report r = do
    payload ← require (read_bytes r.report_uri) result_integrity
    raise_if (ltb max_report_bytes (size payload)) result_integrity
    raise_if (not (h.sha256 payload == r.authoritative_sha256)) result_integrity

  -- The result and its hash.
  unfoldable pub materials_result_get : String → World → Answer (ResultRecord × String)
  materials_result_get id w = do
    row ← require (get_run id w.memory) run_not_found
    reference ← require (terminal_reference row.state) result_unavailable
    found ← get_result h id w.memory
    r ← require found result_unavailable
    raise_if (not (r.run_id == id)) result_integrity
    raise_if (not (r.report_uri == inspiration_report_uri id)) result_integrity
    raise_if (not (r.report_uri == reference.0) || not (r.authoritative_sha256 == reference.1))
        result_integrity
    raise_if (not (gateway_result_sha256 h r == reference.2)) result_integrity
    check_report r
    ok (r, gateway_result_sha256 h r)
