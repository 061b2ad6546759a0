-- ===== src/Tests/Service.antt =====
-- The repository and the service of src/material_agent/gateway on concrete inputs.
use materials_screening_agen.Prelude.{
  String, ◌≡◌, ◌==◌, ap, if◌then◌else◌, string_eq, ◌⊎◌, refl, true, false, Option, none, some, List,
  [], ◌∷◌, find?, update, select, Result, ok, err,
}
use materials_screening_agen.Gateway.Model.{
  RunRequest, RunState, RunRecord, ResultRecord, RunView, approve, reject, succeeded,
  interaction_required, inspiration_report_uri, run_view, terminal_reference,
}
use materials_screening_agen.Gateway.Equality.{request_eq}
use materials_screening_agen.Gateway.Grants.{
  GrantStore, authorize_and_consume, matches, validate_binding, empty_store,
}
use materials_screening_agen.Gateway.Grants.Texts.{is_sha256}
use materials_screening_agen.Gateway.Memory.{
  found_reference, submission_conflict, Memory, GatewayError, concurrent_update, result_unavailable,
  stale_interaction, empty_memory, create_or_get, replace_run, check_replacement, get_run,
  get_result, result_key, is_none, reference_to,
}
use materials_screening_agen.Gateway.Repository.{MemoryOp, create, replace}
use materials_screening_agen.Gateway.Results.{step, run, run-get_result}
use materials_screening_agen.Gateway.Revisions.{run-replace_run}
use materials_screening_agen.Gateway.Service.{
  Companion, World, returned, initial, check_budget, check_reference, check_result, check_fresh,
  validate_transition, settle, commit, materials_inspiration_run, pending, admit, materials_run_act,
  materials_result_get,
}
use materials_screening_agen.Gateway.Service.Budgets.{WithinBudget}
use materials_screening_agen.Gateway.Service.Calls.{
  ServiceOp, submit, act, set_grants, serve, serve_all, initial_world,
}
use materials_screening_agen.Gateway.Service.Bounds.{serve_all-WithinBudget}
use materials_screening_agen.Gateway.Service.Reading.{delivered, serve_all-materials_result_get}
use materials_screening_agen.Gateway.Service.Submitting.{serve_all-materials_inspiration_run}
use materials_screening_agen.Gateway.Service.Acting.{materials_run_act-materials_run_act}
use materials_screening_agen.Tests.Gateway.{hashing, zeros, pending_approval}

abbrev pub request : RunRequest
request = record {
  submission_id = zeros;
  goal = "a layered oxide";
  constraints = record {
    required_elements = "O" ∷ [];
    excluded_elements = [];
    material_classes = "oxide" ∷ [];
    dimensionality = "2D";
    target_features = "gap" ∷ [];
    top_k = 1;
    require_diverse_routes = false;
    budget = record {
      max_search_requests = 2;
      max_unique_documents = 3;
      max_passages = 4;
      max_model_calls = 5;
      max_walltime_seconds = 6;
    };
  };
}

abbrev pub id : String
id = "inspiration-000000000000000000000000"

abbrev pub result : ResultRecord
result = record {
  run_id = id;
  report_uri = inspiration_report_uri id;
  authoritative_sha256 = "report";
  bundle = record {
    outcome_succeeded = true;
    selected_candidates = [];
    limitations = [];
    next_validation_steps = "synthesis" ∷ [];
  };
  evidence_lineage = [];
  validation_boundaries = [];
  cost_ledger = record {
    search_requests = 2;
    search_response_bytes = 100;
    fetched_documents = 3;
    extracted_passages = 4;
    vectorized_passages = 4;
    model_calls = 5;
    input_tokens = 100;
    output_tokens = 100;
    walltime_ms = 6000;
  };
}

abbrev done : RunState
done = succeeded (inspiration_report_uri id) "report" id

abbrev pub first_record : RunRecord
first_record = initial hashing request

abbrev pub done_record : RunRecord
done_record = record first_record { state = done; revision = 1 }

abbrev late_record : RunRecord
late_record = record first_record { revision = 1 }

abbrev pub done_ops : List MemoryOp
done_ops = create first_record ∷ replace done_record 0 (some result) ∷ []

abbrev created_memory : Memory
created_memory = record {
  runs = first_record ∷ [];
  submission_index = (zeros, id) ∷ [];
  results = [];
}

abbrev done_memory : Memory
done_memory = record {
  runs = done_record ∷ [];
  submission_index = (zeros, id) ∷ [];
  results = result ∷ [];
}

-- The request is the same in every record.
pub same_request : (request == request) ≡ true
same_request = (request_eq.equal_iff request request).1 refl

done_memory_lem : replace_run hashing done_record 0 (some result) created_memory ≡ ok done_memory
unfolding replace_run check_replacement find? update
done_memory_lem = rw same_request refl

-- The two calls are accepted.
done_ops-run : run hashing done_ops empty_memory ≡ done_memory
unfolding run step create_or_get replace_run check_replacement find? update
done_ops-run = rw same_request refl

run-get_result_example :
    (get_result hashing id (run hashing done_ops empty_memory)
      ≡ ok (find? (result_key id) (run hashing done_ops empty_memory).results))
    × (is_none (find? (result_key id) (run hashing done_ops empty_memory).results)
        ≡ is_none (found_reference hashing (get_run id (run hashing done_ops empty_memory))))
run-get_result_example = run-get_result hashing done_ops id refl

run-replace_run_example :
    replace_run hashing late_record 0 none
      (run hashing (replace late_record 1 none ∷ []) done_memory)
    ≡ err concurrent_update
run-replace_run_example =
    run-replace_run hashing done_record 0 (some result) created_memory done_memory
      (replace late_record 1 none ∷ []) late_record none done_memory_lem refl

-- A companion that asks for an approval and then succeeds.
abbrev companion : Companion
companion = record {
  start = λ run_id r.
      returned (record { state = interaction_required pending_approval; result = none });
  act = λ run_id r s a. returned (record { state = done; result = some result });
}

abbrev granted : GrantStore
granted = record {
  grants =
      record {
        grant_id = "g";
        run_id = id;
        interaction_id = "i";
        interaction_sha256 = "interaction";
        request_sha256 = zeros;
        action_sha256 = "approve";
        action_json = "approve";
        confirmation_reference = "ticket/1";
        consumed = false;
      }
      ∷ [];
  recoveries = [];
}

abbrev service_ops : List ServiceOp
service_ops = submit companion request ∷ set_grants granted ∷ act companion id (approve "i") ∷ []

abbrev waiting : World
waiting = record {
  memory = record {
    runs = record first_record { state = interaction_required pending_approval; revision = 1 } ∷ [];
    submission_index = (zeros, id) ∷ [];
    results = [];
  };
  grants = granted;
}

abbrev finished : World
finished = record {
  memory = record {
    runs = record first_record { state = done; revision = 2 } ∷ [];
    submission_index = (zeros, id) ∷ [];
    results = result ∷ [];
  };
  grants = record granted {
    grants = update (λ _. true) (λ g. record g { consumed = true }) granted.grants;
  };
}

submit_waiting :
    (serve hashing (submit companion request) (initial_world empty_store)).memory ≡ waiting.memory
unfolding materials_inspiration_run create_or_get settle validate_transition check_reference
    check_result check_fresh commit replace_run check_replacement find? update
submit_waiting = rw same_request refl

act_finished :
    materials_run_act hashing companion id (approve "i") waiting
    ≡ (ok (run_view (record first_record { state = done; revision = 2 })), finished)
unfolding materials_run_act admit get_run pending authorize_and_consume matches select
    validate_binding is_sha256 settle validate_transition check_reference check_result check_fresh
    check_budget commit replace_run check_replacement find? update
act_finished = rw same_request refl

service_ops-finished : serve_all hashing service_ops (initial_world empty_store) ≡ finished
unfolding serve_all
service_ops-finished =
    rw submit_waiting (ap (λ (p : Result GatewayError RunView × World). p.1) act_finished)

serve_all-WithinBudget_example :
    (row : RunRecord) × (get_run id
        (serve_all hashing service_ops (initial_world empty_store)).memory
      ≡ some row)
    × WithinBudget id row.request result
serve_all-WithinBudget_example =
    serve_all-WithinBudget hashing service_ops empty_store id result
      (rw service_ops-finished (unfold find? in refl))

-- The report, and nothing else, can be read.
abbrev read_bytes : String → Option String
read_bytes uri = if uri == inspiration_report_uri id then some "report" else none

serve_all-materials_result_get_example :
    ((terminal_reference done ≡ none)
      × (materials_result_get hashing read_bytes 10 id
            (serve_all hashing service_ops (initial_world empty_store))
          ≡ err result_unavailable))
    ⊎ ((r : ResultRecord) × (terminal_reference done ≡ some (reference_to hashing r))
        × (materials_result_get hashing read_bytes 10 id
              (serve_all hashing service_ops (initial_world empty_store))
            ≡ delivered hashing read_bytes 10 r))
serve_all-materials_result_get_example =
    serve_all-materials_result_get hashing read_bytes 10 service_ops empty_store id
      (record first_record { state = done; revision = 2 })
      (rw service_ops-finished (unfold get_run find? in refl))

-- Calls that are no actions on the run.
abbrev other_ops : List ServiceOp
other_ops =
    submit companion request
    ∷ submit companion (record request { submission_id = "other" })
    ∷ set_grants empty_store
    ∷ act companion "other" (approve "i")
    ∷ []

materials_run_act-materials_run_act_example :
    let end = serve_all hashing other_ops finished in
    materials_run_act hashing companion id (reject "i" none) end ≡ (err stale_interaction, end)
materials_run_act-materials_run_act_example =
    materials_run_act-materials_run_act hashing companion companion id (approve "i")
      (reject "i" none) waiting finished
      (run_view (record first_record { state = done; revision = 2 })) other_ops act_finished refl
      refl

serve_all-materials_inspiration_run_example :
    let end = serve_all hashing (act companion id (approve "i") ∷ []) waiting in
    (new : RunRecord) × (get_run id end.memory ≡ some new)
    × (new.request_sha256 ≡ zeros)
    × (materials_inspiration_run hashing companion request end
        ≡ (if zeros == zeros then ok (run_view new) else err submission_conflict, end))
serve_all-materials_inspiration_run_example =
    serve_all-materials_inspiration_run hashing companion request
      (act companion id (approve "i") ∷ []) waiting id
      (record first_record { state = interaction_required pending_approval; revision = 1 }) refl
      (unfold get_run find? in refl)
