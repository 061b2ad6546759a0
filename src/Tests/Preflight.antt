-- ===== src/Tests/Preflight.antt =====
-- The preflight of src/material_agent/dft on concrete inputs.
use materials_screening_agen.Prelude.{
  String, ◌≡◌, refl, true, false, some, [], ◌∷◌, ok, err, select,
}
use materials_screening_agen.Dft.Workflow.{Template, relaxation, static_scf, unique_task_types}
use materials_screening_agen.Dft.Preflight.{
  ArtifactRef, PolicySnapshot, DftRequest, PreflightInput, PreflightResult, multiple_policies,
  find_policy, request_issues, template_issues, backend_issues, approval_issues,
  evaluate_real_preflight,
}
use materials_screening_agen.Dft.Preflight.Clearing.{Cleared, evaluate_real_preflight-Cleared}
use materials_screening_agen.Tests.Dft.{task}

abbrev artifact : ArtifactRef
artifact = record { uri = "policies/1"; sha256 = "policy" }

abbrev policy : String → PolicySnapshot
policy kind = record { kind = kind; status = "APPROVED"; artifact = artifact }

abbrev template : Template
template = record {
  template_id = "scf";
  version = "1";
  target_class = "metal";
  tasks = task "relax" relaxation [] ∷ task "scf" static_scf ("relax" ∷ []) ∷ [];
  claim_dependencies = [];
}

abbrev request : DftRequest
request = record {
  is_real = true;
  is_mock = false;
  backend_id = "cluster";
  workflow_template_id = "scf";
  workflow_plan_hash = "plan";
  task_specs =
      record { task_type = relaxation; is_mock = false }
      ∷ record { task_type = static_scf; is_mock = false }
      ∷ [];
  method_policy_ref = some artifact;
  resource_policy_ref = some artifact;
  approval_id = some "approval";
  content = "";
}

abbrev input : PreflightInput
input = record {
  request = request;
  workflow_template = template;
  policy_snapshots = policy "METHOD" ∷ policy "RESOURCE" ∷ policy "EVIDENCE" ∷ [];
  approval = record {
    approval_id = "approval";
    status = "APPROVED";
    request_sha256 = "request";
    workflow_plan_hash = "plan";
    expires_at = some 200;
  };
  backend_descriptor = record {
    backend_id = "cluster";
    backend_version = "1";
    adapter_version = "1";
    is_mock = false;
    supported_task_types = "RELAXATION" ∷ "STATIC_SCF" ∷ [];
  };
  backend_health = record {
    descriptor = record {
      backend_id = "cluster";
      backend_version = "1";
      adapter_version = "1";
      is_mock = false;
      supported_task_types = "RELAXATION" ∷ "STATIC_SCF" ∷ [];
    };
    status = "READY";
  };
  checked_at = 100;
}

abbrev hash : DftRequest → String
hash r = "request"

abbrev cleared : PreflightResult
cleared = record { is_ready = true; issues = [] }

input-cleared : evaluate_real_preflight hash input ≡ ok cleared
unfolding evaluate_real_preflight find_policy request_issues template_issues unique_task_types
    backend_issues approval_issues select
input-cleared = refl

-- An approval ends at the time that it names.
late_input :
    evaluate_real_preflight hash (record input { checked_at = 200 })
    ≡ ok (record { is_ready = false; issues = "APPROVAL_EXPIRED" ∷ [] })
unfolding evaluate_real_preflight find_policy request_issues template_issues unique_task_types
    backend_issues approval_issues select
late_input = refl

two_policies :
    evaluate_real_preflight hash
      (record input { policy_snapshots = policy "METHOD" ∷ policy "METHOD" ∷ [] })
    ≡ err multiple_policies
unfolding evaluate_real_preflight find_policy select
two_policies = refl

evaluate_real_preflight-Cleared_example : Cleared hash input
evaluate_real_preflight-Cleared_example =
    evaluate_real_preflight-Cleared hash input cleared input-cleared refl
