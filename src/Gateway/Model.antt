-- ===== src/Gateway/Model.antt =====
-- The contracts of src/material_agent/gateway/models.py: requests, interactions, actions, states and
-- the records that are persisted. A field whose type allows one value (`schema_version`, `kind`,
-- `confirmed_by_user: Literal[True]`) is left out; a Pydantic validator is a Boolean function.
use Prim.Native.String.{◌++◌ as append, slice}
use materials_screening_agen.Prelude.{
  ℕ, String, Bool, Option, none, some, List, [], ◌∷◌, string_eq, nat_eq, option_eq,
}

pub record Budget : Type 0 where
  pub max_search_requests : ℕ
  pub max_unique_documents : ℕ
  pub max_passages : ℕ
  pub max_model_calls : ℕ
  pub max_walltime_seconds : ℕ

pub record Constraints : Type 0 where
  pub required_elements : List String
  pub excluded_elements : List String
  pub material_classes : List String
  pub dimensionality : String
  pub target_features : List String
  pub top_k : ℕ
  pub require_diverse_routes : Bool
  pub budget : Budget

pub record RunRequest : Type 0 where
  pub submission_id : String
  pub goal : String
  pub constraints : Constraints

pub data ApprovalKind : Type 0 where
  requirement_freeze expensive_computation : ApprovalKind

pub data Interaction : Type 0 where
  clarification : String → String → Interaction
  approval : String → ApprovalKind → String → String → Interaction
  retry_interaction : String → String → Interaction
  resume_interaction : String → String → Interaction

abbrev pub interaction_id : Interaction → String
interaction_id (clarification id _) = id
interaction_id (approval id _ _ _) = id
interaction_id (retry_interaction id _) = id
interaction_id (resume_interaction id _) = id

pub data Action : Type 0 where
  answer : String → String → Action
  approve : String → Action
  reject : String → Option String → Action
  resume : String → Action
  retry : String → Action
  cancel : String → Action

abbrev pub action_interaction_id : Action → String
action_interaction_id (answer id _) = id
action_interaction_id (approve id) = id
action_interaction_id (reject id _) = id
action_interaction_id (resume id) = id
action_interaction_id (retry id) = id
action_interaction_id (cancel id) = id

abbrev pub action_kind : Action → String
action_kind (answer _ _) = "answer"
action_kind (approve _) = "approve"
action_kind (reject _ _) = "reject"
action_kind (resume _) = "resume"
action_kind (retry _) = "retry"
action_kind (cancel _) = "cancel"

abbrev pub allowed_actions : Interaction → List String
allowed_actions (clarification _ _) = "answer" ∷ "cancel" ∷ []
allowed_actions (approval _ _ _ _) = "approve" ∷ "reject" ∷ "cancel" ∷ []
allowed_actions (retry_interaction _ _) = "retry" ∷ "cancel" ∷ []
allowed_actions (resume_interaction _ _) = "resume" ∷ "cancel" ∷ []

pub data RunState : Type 0 where
  running : ℕ → Option String → RunState
  interaction_required : Interaction → RunState
  succeeded : String → String → String → RunState
  partial : String → String → String → List String → RunState
  failed : String → String → Bool → RunState
  cancelled : String → RunState

-- terminal_reference: the report's URI and hash, and the hash of the result.
abbrev pub terminal_reference : RunState → Option (String × String × String)
terminal_reference (succeeded uri sha result_sha) = some (uri, sha, result_sha)
terminal_reference (partial uri sha result_sha _) = some (uri, sha, result_sha)
terminal_reference _ = none

pub record EvidenceReference : Type 0 where
  pub document_id : String
  pub passage_ids : List String

pub record CandidateSummary : Type 0 where
  pub candidate_id : String
  pub parent_candidate_id : String
  pub deterministic_transformation : String
  pub shared_invariant : String
  pub bridge_domain : String
  pub evidence_document_ids : List String
  pub evidence_passage_ids : List String
  pub failure_conditions : List String
  pub cheapest_falsification_step : String

pub record CostLedger : Type 0 where
  pub search_requests : ℕ
  pub search_response_bytes : ℕ
  pub fetched_documents : ℕ
  pub extracted_passages : ℕ
  pub vectorized_passages : ℕ
  pub model_calls : ℕ
  pub input_tokens : ℕ
  pub output_tokens : ℕ
  pub walltime_ms : ℕ

-- `SUCCEEDED`, or `SCIENTIFIC_NO_MATCH` where the first field is false.
pub record BundleSummary : Type 0 where
  pub outcome_succeeded : Bool
  pub selected_candidates : List CandidateSummary
  pub limitations : List String
  pub next_validation_steps : List String

pub record ResultRecord : Type 0 where
  pub run_id : String
  pub report_uri : String
  pub authoritative_sha256 : String
  pub bundle : BundleSummary
  pub evidence_lineage : List EvidenceReference
  pub validation_boundaries : List String
  pub cost_ledger : CostLedger

pub record Transition : Type 0 where
  pub state : RunState
  pub result : Option ResultRecord

pub record RunRecord : Type 0 where
  pub run_id : String
  pub request : RunRequest
  pub request_sha256 : String
  pub state : RunState
  pub revision : ℕ

pub record RunView : Type 0 where
  pub run_id : String
  pub submission_id : String
  pub request_sha256 : String
  pub state : RunState

abbrev pub run_view : RunRecord → RunView
run_view r = record {
  run_id = r.run_id;
  submission_id = r.request.submission_id;
  request_sha256 = r.request_sha256;
  state = r.state;
}

-- `hashlib.sha256(…).hexdigest()`, and `canonical_json_bytes` at each type that the Gateway hashes.
pub record Hashing : Type 0 where
  pub sha256 : String → String
  pub request_json : RunRequest → String
  pub result_json : ResultRecord → String
  pub interaction_json : Interaction → String
  pub action_json : Action → String
  pub grant_json : String → String → String → String → String → String → String
  pub recovery_json : String → String → String → String

-- hexdigest()[:24] behind a prefix
abbrev pub short_id : Hashing → String → String → String
short_id h prefix text = append prefix (slice (h.sha256 text) 0 24)

abbrev pub inspiration_run_id : Hashing → String → String
inspiration_run_id h submission_id = short_id h "inspiration-" submission_id

abbrev pub inspiration_request_sha256 : Hashing → RunRequest → String
inspiration_request_sha256 h request = h.sha256 (h.request_json request)

abbrev pub gateway_result_sha256 : Hashing → ResultRecord → String
gateway_result_sha256 h result = h.sha256 (h.result_json result)

abbrev pub inspiration_report_uri : String → String
inspiration_report_uri run_id = append "artifact://stages/inspiration/" (append run_id "/report.md")
