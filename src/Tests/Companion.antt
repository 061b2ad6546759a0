-- ===== src/Tests/Companion.antt =====
-- The offline companion of src/material_agent/gateway on concrete inputs.
use materials_screening_agen.Prelude.{
  count_where, ◌+◌, String, ◌≡◌, refl, true, false, some, List, [], ◌∷◌, ok, find?, update, select,
  map,
}
use materials_screening_agen.Gateway.Model.{
  Interaction, approval, requirement_freeze, approve, RunRecord, RunView, run_view,
  interaction_required, succeeded, inspiration_report_uri, Transition,
}
use materials_screening_agen.Gateway.Grants.{
  binding, unspent, GrantStore, authorize_and_consume, matches, validate_binding, empty_store,
}
use materials_screening_agen.Gateway.Grants.Texts.{is_sha256}
use materials_screening_agen.Gateway.Memory.{create_or_get, replace_run, check_replacement, get_run}
use materials_screening_agen.Gateway.Service.{
  World, check_budget, check_reference, check_result, check_fresh, validate_transition, settle,
  commit, acted, replacement, materials_inspiration_run, pending, admit, materials_run_act,
  materials_run_get, call_of,
}
use materials_screening_agen.Gateway.Service.Calls.{submit, serve, serve_all, initial_world}
use materials_screening_agen.Gateway.Service.Committing.{serve_all-materials_run_act}
use materials_screening_agen.Gateway.Companion.{
  Adapter, Canonical, Prepared, offline_fixture, RunnerResult, offline, decide, check_prepared,
  check_projection, prepared_input, execution_manifest_sha256, start, check_manifest, frozen,
  check_runner_result, check_projected, finished, execute, course, act, runner_input,
  requirement_freeze_prompt,
}
use materials_screening_agen.Gateway.Companion.Outcomes.{ended}
use materials_screening_agen.Gateway.Companion.Settling.{act-validate_transition, serve_all-ended}
use materials_screening_agen.Gateway.Companion.Freezing.{
  OfflineOp, submitting, granting, service_op,
}
use materials_screening_agen.Gateway.Companion.Approvals.{Approved, serve_all-runner_input}
use materials_screening_agen.Tests.Gateway.{hashing, zeros}
use materials_screening_agen.Tests.Service.{id, request, result, first_record, same_request}

abbrev canonical : Canonical
canonical = record {
  manifest_json = λ components request_sha256 p. request_sha256;
  interaction_id_json = λ run_id request_sha256 kind. "frozen";
  decimal = λ n. "n";
}

abbrev prepared : Prepared
prepared = record {
  inspiration_input = record {
    project_id = "project";
    request_id = "request";
    run_id = id;
    search_adapter = record {
      component_id = "fixture";
      version = "1";
      implementation_sha256 = zeros;
    };
    content = "";
  };
  policy = record {
    search_mode = offline_fixture;
    fetch_max_requests = 3;
    llm_max_calls = 0;
    content = "";
  };
  tag_graph = record { tag_ids = "layered" ∷ "oxide" ∷ []; content = "" };
  target_tag_ids = "oxide" ∷ [];
}

abbrev runner_result : RunnerResult
runner_result = record {
  stage_result = record {
    project_id = "project";
    request_id = "request";
    run_id = id;
    outcome_succeeded = true;
    report_artifact = record { uri = inspiration_report_uri id; sha256 = "report" };
  };
  stage_result_artifact = record {
    uri = "artifact://stages/inspiration/inspiration-000000000000000000000000/stage_result.json";
    sha256 = "stage";
  };
  bundle = record {
    request_id = "request";
    run_id = id;
    outcome_succeeded = true;
    selected_candidate_ids = [];
  };
}

abbrev adapter : Adapter
adapter = record {
  execution_components = prepared.inspiration_input.search_adapter ∷ [];
  run = λ p. ok runner_result;
  prepare = λ run_id r. ok prepared;
  project = λ run_id r p x. ok (record { result = result; partial_status = false; warnings = [] });
}

abbrev key : String
key = "interaction-frozen"

abbrev freeze : Interaction
freeze =
    approval key requirement_freeze (requirement_freeze_prompt hashing canonical request prepared)
      zeros

abbrev granted : GrantStore
granted = record {
  grants =
      record {
        grant_id = "g";
        run_id = id;
        interaction_id = key;
        interaction_sha256 = "interaction";
        request_sha256 = zeros;
        action_sha256 = "approve";
        action_json = "approve";
        confirmation_reference = "ticket/1";
        consumed = false;
      }
      ∷ [];
  recoveries = [];
}

abbrev spent : GrantStore
spent = record granted {
  grants = update (λ _. true) (λ g. record g { consumed = true }) granted.grants;
}

abbrev ops : List OfflineOp
ops = submitting adapter request ∷ granting granted ∷ []

abbrev frozen_record : RunRecord
frozen_record = record first_record { state = interaction_required freeze; revision = 1 }

abbrev waiting : World
waiting = record {
  memory = record { runs = frozen_record ∷ []; submission_index = (zeros, id) ∷ []; results = [] };
  grants = granted;
}

abbrev successful : Transition
successful = record {
  state = succeeded (inspiration_report_uri id) "report" id;
  result = some result;
}

submit_frozen :
    (serve hashing
      (submit (offline hashing canonical adapter) request)
      (initial_world empty_store)).memory
    ≡ waiting.memory
unfolding materials_inspiration_run create_or_get start prepared_input check_prepared
    execution_manifest_sha256 settle validate_transition check_reference check_result check_fresh
    commit replace_run check_replacement find? update
submit_frozen = rw same_request refl

ops-waiting :
    serve_all hashing (map (service_op hashing canonical) ops) (initial_world empty_store) ≡ waiting
unfolding serve_all
ops-waiting = rw submit_frozen refl

admitted : admit hashing id (approve key) waiting ≡ ok (frozen_record, (freeze, spent))
unfolding admit get_run pending authorize_and_consume matches select validate_binding is_sha256
    find? update
admitted = refl

act_successful :
    act hashing canonical adapter id request (interaction_required freeze) (approve key)
    ≡ ok successful
unfolding act course decide execute frozen prepared_input check_prepared check_manifest
    execution_manifest_sha256 finished check_runner_result check_projection check_projected
act_successful = refl

serve_all-runner_input_example :
    Approved hashing canonical adapter id request freeze (approve key) prepared
serve_all-runner_input_example =
    serve_all-runner_input hashing canonical ops empty_store spent adapter id (approve key)
      frozen_record freeze prepared (rw ops-waiting admitted)
      (unfold runner_input course decide frozen prepared_input check_prepared check_manifest
          execution_manifest_sha256 in
        refl)

act-validate_transition_example :
    validate_transition hashing successful id request (some key) ≡ check_budget request result
act-validate_transition_example =
    act-validate_transition hashing canonical adapter id request (interaction_required freeze)
      (approve key) (some key) successful act_successful

serve_all-materials_run_act_example :
    let w =
      serve_all hashing (map (service_op hashing canonical) ops) (initial_world empty_store) in
    let c = offline hashing canonical adapter in
    let done = materials_run_act hashing c id (approve key) w in
    let view =
      run_view
        (replacement hashing frozen_record (acted hashing c frozen_record freeze (approve key))) in
    let own = unspent (binding hashing (call_of hashing frozen_record freeze (approve key))) in
    (done.0 ≡ ok view)
    × (materials_run_get hashing id done.1 ≡ ok view)
    × (done.1.grants ≡ spent)
    × (count_where own done.1.grants.grants + 1 ≡ count_where own w.grants.grants)
serve_all-materials_run_act_example =
    serve_all-materials_run_act hashing (map (service_op hashing canonical) ops) empty_store spent
      (offline hashing canonical adapter) id (approve key) frozen_record freeze
      (rw ops-waiting admitted)

serve_all-ended_example :
    let w =
      serve_all hashing (map (service_op hashing canonical) ops) (initial_world empty_store) in
    let done = materials_run_act hashing (offline hashing canonical adapter) id (approve key) w in
    (view : RunView) × (done.0 ≡ ok view)
    × (materials_run_get hashing id done.1 ≡ ok view)
    × (ended view.state ≡ true)
serve_all-ended_example =
    serve_all-ended hashing canonical adapter (map (service_op hashing canonical) ops) empty_store
      spent id (approve key) frozen_record freeze (rw ops-waiting admitted)
