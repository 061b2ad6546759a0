-- ===== src/Dft/Preflight.antt =====
-- src/material_agent/dft/preflight.py: what stands before a real calculation; and find_policy of dft/policies.py. An
-- issue is its code, a time its number of seconds (UTC), the hash of a request a parameter, and of a contract
-- the fields that this code reads are here; `content` is the others.
pub mod Clearing
use materials_screening_agen.Prelude.{
  ℕ, String, Bool, true, false, Option, none, some, List, [], ◌∷◌, map, any, leb, ◌==◌, ◌&&◌, ◌||◌,
  not, string_eq, option_eq, bool_eq, if◌then◌else◌, Result, ok, err, ◌>>=◌, select, member,
}
use materials_screening_agen.Dft.Workflow.{
  Task, TaskType, Template, task_type_value, unique_task_types,
}

pub record ArtifactRef : Type 0 where
  pub uri : String
  pub sha256 : String

pub record PolicySnapshot : Type 0 where
  pub kind : String
  pub status : String
  pub artifact : ArtifactRef

-- DFTTaskSpec
pub record TaskSpec : Type 0 where
  pub task_type : TaskType
  pub is_mock : Bool

-- DFTRequest; `is_real` is `execution_mode is REAL`.
pub record DftRequest : Type 0 where
  pub is_real : Bool
  pub is_mock : Bool
  pub backend_id : String
  pub workflow_template_id : String
  pub workflow_plan_hash : String
  pub task_specs : List TaskSpec
  pub method_policy_ref : Option ArtifactRef
  pub resource_policy_ref : Option ArtifactRef
  pub approval_id : Option String
  pub content : String

pub record ApprovalSnapshot : Type 0 where
  pub approval_id : String
  pub status : String
  pub request_sha256 : String
  pub workflow_plan_hash : String
  pub expires_at : Option ℕ

pub record BackendDescriptor : Type 0 where
  pub backend_id : String
  pub backend_version : String
  pub adapter_version : String
  pub is_mock : Bool
  pub supported_task_types : List String

pub record BackendHealth : Type 0 where
  pub descriptor : BackendDescriptor
  pub status : String

-- DFTPreflightInput
pub record PreflightInput : Type 0 where
  pub request : DftRequest
  pub workflow_template : Template
  pub policy_snapshots : List PolicySnapshot
  pub approval : ApprovalSnapshot
  pub backend_descriptor : BackendDescriptor
  pub backend_health : BackendHealth
  pub checked_at : ℕ

-- DFTPreflightResult
pub record PreflightResult : Type 0 where
  pub is_ready : Bool
  pub issues : List String

-- The `ValueError` of find_policy.
pub data PolicyError : Type 0 where
  multiple_policies : PolicyError

abbrev pub sole : List PolicySnapshot → Result PolicyError (Option PolicySnapshot)
sole [] = ok none
sole (s ∷ []) = ok (some s)
sole (s ∷ t ∷ rest) = err multiple_policies

unfoldable pub find_policy :
    List PolicySnapshot → String → Result PolicyError (Option PolicySnapshot)
find_policy snapshots kind = sole (select (λ s. s.kind == kind) snapshots)

-- `if bad: block(code, …)`, before what follows
abbrev pub block : Bool → String → List String → List String
block bad code rest = if bad then code ∷ rest else rest

abbrev pub is_nil {ℓ} : {A : Type ℓ} → List A → Bool
is_nil [] = true
is_nil (_ ∷ _) = false

abbrev pub same_artifact : ArtifactRef → ArtifactRef → Bool
same_artifact a b = a.uri == b.uri && a.sha256 == b.sha256

abbrev pub refers : Option ArtifactRef → ArtifactRef → Bool
refers none a = false
refers (some r) a = same_artifact r a

abbrev pub same_texts : List String → List String → Bool
same_texts [] [] = true
same_texts (x ∷ xs) (y ∷ ys) = x == y && same_texts xs ys
same_texts _ _ = false

abbrev pub same_types : List TaskType → List TaskType → Bool
same_types xs ys = same_texts (map task_type_value xs) (map task_type_value ys)

abbrev pub same_descriptor : BackendDescriptor → BackendDescriptor → Bool
same_descriptor a b =
    a.backend_id == b.backend_id
    && a.backend_version == b.backend_version
    && a.adapter_version == b.adapter_version
    && a.is_mock == b.is_mock
    && same_texts a.supported_task_types b.supported_task_types

abbrev pub expired : Option ℕ → ℕ → Bool
expired none now = false
expired (some t) now = leb t now

abbrev pub observed_types : DftRequest → List TaskType
observed_types r = map (λ s. s.task_type) r.task_specs

unfoldable pub template_issues : PreflightInput → List String → List String
template_issues i rest = elim (unique_task_types i.workflow_template.tasks) [
  | ok expected ↦
      block (not (same_types (observed_types i.request) expected)) "WORKFLOW_TASK_MISMATCH" rest
  | err _ ↦ "AMBIGUOUS_WORKFLOW_TEMPLATE" ∷ rest
]

unfoldable pub request_issues : PreflightInput → List String → List String
request_issues i rest =
    block (not i.request.is_real || i.request.is_mock) "REAL_EXECUTION_REQUIRED" (
      block (not (i.request.workflow_template_id == i.workflow_template.template_id))
        "WORKFLOW_TEMPLATE_MISMATCH"
        (template_issues i
          (block (any i.request.task_specs (λ s. s.is_mock)) "MOCK_TASK_PRESENT" rest)))

abbrev pub policy_issues : Option PolicySnapshot → List String → List String
policy_issues none rest = "MISSING_POLICY_SNAPSHOT" ∷ rest
policy_issues (some s) rest = block (not (s.status == "APPROVED")) "POLICY_NOT_APPROVED" rest

abbrev pub reference_issues :
    Option PolicySnapshot → Option ArtifactRef → String → List String → List String
reference_issues none reference code rest = rest
reference_issues (some s) reference code rest = block (not (refers reference s.artifact)) code rest

unfoldable pub backend_issues : PreflightInput → List String → List String
backend_issues i rest = block i.backend_descriptor.is_mock "MOCK_BACKEND" (
    block (not (i.backend_descriptor.backend_id == i.request.backend_id)) "BACKEND_ID_MISMATCH" (
      block (not (same_descriptor i.backend_health.descriptor i.backend_descriptor))
        "BACKEND_HEALTH_IDENTITY_MISMATCH"
        (block (not (i.backend_health.status == "READY")) "BACKEND_NOT_READY" (
          block
            (any i.request.task_specs (λ s.
              not (member (task_type_value s.task_type) i.backend_descriptor.supported_task_types)))
            "BACKEND_TASK_UNSUPPORTED" rest))))

abbrev pub is_id : Option String → String → Bool
is_id none id = false
is_id (some x) id = x == id

module _ (canonical_hash : DftRequest → String) where
  unfoldable pub approval_issues : PreflightInput → List String
  approval_issues i =
      block (not (is_id i.request.approval_id i.approval.approval_id)) "APPROVAL_ID_MISMATCH" (
        block (not (i.approval.status == "APPROVED")) "APPROVAL_NOT_GRANTED" (
          block (not (i.approval.workflow_plan_hash == i.request.workflow_plan_hash))
            "APPROVAL_PLAN_HASH_MISMATCH"
            (block (not (i.approval.request_sha256 == canonical_hash i.request))
              "APPROVAL_REQUEST_HASH_MISMATCH"
              (block (expired i.approval.expires_at i.checked_at) "APPROVAL_EXPIRED" []))))

  abbrev pub issues_of :
      PreflightInput
      → Option PolicySnapshot
      → Option PolicySnapshot
      → Option PolicySnapshot
      → List String
  issues_of i method resource evidence = request_issues i (
      policy_issues method (
        policy_issues resource (
          policy_issues evidence (
            reference_issues method i.request.method_policy_ref "METHOD_POLICY_REFERENCE_MISMATCH" (
              reference_issues resource i.request.resource_policy_ref
                "RESOURCE_POLICY_REFERENCE_MISMATCH" (backend_issues i (approval_issues i)))))))

  unfoldable pub evaluate_real_preflight : PreflightInput → Result PolicyError PreflightResult
  evaluate_real_preflight i = do
    method ← find_policy i.policy_snapshots "METHOD"
    resource ← find_policy i.policy_snapshots "RESOURCE"
    evidence ← find_policy i.policy_snapshots "EVIDENCE"
    ok (record {
      is_ready = is_nil (issues_of i method resource evidence);
      issues = issues_of i method resource evidence;
    })
