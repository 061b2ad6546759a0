-- ===== src/Dft/ClaimGate.antt =====
-- src/material_agent/dft/claim_gate.py: whether a claim may go to its domain validator. An issue is its code with
-- what its message names.
pub mod Readiness
use materials_screening_agen.Prelude.{
  String, Bool, true, false, Option, none, some, List, [], ◌∷◌, ◌++◌, ◌==◌, not, string_eq,
  if◌then◌else◌,
}
use materials_screening_agen.Dft.Workflow.{ClaimDependency}

-- dft/validation.py
pub data ValidationStatus : Type 0 where
  valid valid_with_warnings incomplete invalid not_applicable : ValidationStatus

pub data ClaimReadinessIssue : Type 0 where
  mock_result claim_rule_missing claim_rule_mismatch : ClaimReadinessIssue
  supporting_task_missing : String → ClaimReadinessIssue
  supporting_task_not_valid : String → ValidationStatus → ClaimReadinessIssue

pub record ClaimReadiness : Type 0 where
  pub claim_type : String
  pub ready_for_domain_validator : Bool
  pub domain_validator_id : Option String
  pub issues : List ClaimReadinessIssue

abbrev pub no_issues : List ClaimReadinessIssue → Bool
no_issues [] = true
no_issues (_ ∷ _) = false

abbrev pub task_issue : String → Option ValidationStatus → List ClaimReadinessIssue
task_issue key none = supporting_task_missing key ∷ []
task_issue key (some valid) = []
task_issue key (some valid_with_warnings) = []
task_issue key (some incomplete) = supporting_task_not_valid key incomplete ∷ []
task_issue key (some invalid) = supporting_task_not_valid key invalid ∷ []
task_issue key (some not_applicable) = supporting_task_not_valid key not_applicable ∷ []

module _ (task_results : String → Option ValidationStatus) where
  unfoldable pub task_issues : List String → List ClaimReadinessIssue
  task_issues [] = []
  task_issues (key ∷ keys) = task_issue key (task_results key) ++ task_issues keys

  abbrev pub rule_issues : String → Option ClaimDependency → List ClaimReadinessIssue
  rule_issues claim_type none = claim_rule_missing ∷ []
  rule_issues claim_type (some rule) =
      let tasks = task_issues rule.supporting_task_keys in
      if rule.claim_type == claim_type then tasks else claim_rule_mismatch ∷ []

  abbrev pub all_issues : Bool → String → Option ClaimDependency → List ClaimReadinessIssue
  all_issues is_mock claim_type dependency =
      (if is_mock then mock_result ∷ [] else []) ++ rule_issues claim_type dependency

  abbrev pub validator : Bool → Option ClaimDependency → Option String
  validator blocked none = none
  validator blocked (some rule) = if blocked then none else some rule.domain_validator_id

  unfoldable pub evaluate_claim_readiness : Bool → String → Option ClaimDependency → ClaimReadiness
  evaluate_claim_readiness is_mock claim_type dependency =
      let issues = all_issues is_mock claim_type dependency in
      record {
        claim_type = claim_type;
        ready_for_domain_validator = no_issues issues;
        domain_validator_id = validator (not (no_issues issues)) dependency;
        issues = issues;
      }
