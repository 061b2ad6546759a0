-- ===== src/Dft/ClaimGate/Readiness.antt =====
-- When a claim is ready (src/material_agent/dft/claim_gate.py), on the rules of a template
-- (src/material_agent/dft/workflows.py).
use materials_screening_agen.Prelude.{
  first, first-select, String, ◌≡◌, refl, ◌∙◌, Bool, true, false, Option, none, some, List, [], ◌∷◌,
  ◌++◌, ◌==◌, ◌&&◌, not, all, string_eq, inl, inr, Bool-cases, ok, arith, select,
}
use materials_screening_agen.Dft.Workflow.{
  ClaimDependency, Template, within, keys, check_template, missing_support, claim_dependency,
  at_most_one,
}
use materials_screening_agen.Dft.ClaimGate.{
  ValidationStatus, valid, valid_with_warnings, incomplete, invalid, not_applicable,
  ClaimReadinessIssue, no_issues, task_issue, task_issues, evaluate_claim_readiness,
}

-- A result with which a task supports a claim.
abbrev pub supports : Option ValidationStatus → Bool
supports (some valid) = true
supports (some valid_with_warnings) = true
supports (some incomplete) = false
supports (some invalid) = false
supports (some not_applicable) = false
supports none = false

no_issues-append :
    (xs ys : List ClaimReadinessIssue) → no_issues (xs ++ ys) ≡ (no_issues xs && no_issues ys)
no_issues-append [] ys = refl
no_issues-append (x ∷ xs) ys = refl

no_issues-task_issue :
    (key : String) (r : Option ValidationStatus) → no_issues (task_issue key r) ≡ supports r
no_issues-task_issue key none = refl
no_issues-task_issue key (some valid) = refl
no_issues-task_issue key (some valid_with_warnings) = refl
no_issues-task_issue key (some incomplete) = refl
no_issues-task_issue key (some invalid) = refl
no_issues-task_issue key (some not_applicable) = refl

at_most_one-first :
    (rules : List ClaimDependency) (rule : ClaimDependency)
    → at_most_one rules ≡ ok (some rule)
    → first rules ≡ some rule
at_most_one-first [] rule e = absurd (ground (arith, e))
at_most_one-first (c ∷ []) rule e = ground (arith, e)
at_most_one-first (c ∷ d ∷ rest) rule e = absurd (ground (arith, e))

check_template-support : (t : Template) → check_template t ≡ ok tt → missing_support t ≡ false
unfolding check_template
check_template-support t e = ground (arith, e)

module _ (task_results : String → Option ValidationStatus) where
  no_issues-task_issues :
      (ks : List String)
      → no_issues (task_issues task_results ks) ≡ all ks (λ k. supports (task_results k))
  unfolding task_issues
  no_issues-task_issues [] = refl
  no_issues-task_issues (k ∷ ks) =
      no_issues-append (task_issue k (task_results k)) (task_issues task_results ks)
      ∙ ground (arith, no_issues-task_issue k (task_results k), no_issues-task_issues ks)

  -- What a rule asks for.
  abbrev pub satisfied : String → Option ClaimDependency → Bool
  satisfied claim_type none = false
  satisfied claim_type (some rule) =
      rule.claim_type == claim_type
      && all rule.supporting_task_keys (λ k. supports (task_results k))

  -- A claim is ready exactly if the results are no mock's, there is a rule of its type, and each task that the
  -- rule names has a result that is valid, with warnings or without.
  pub evaluate_claim_readiness-satisfied :
      (is_mock : Bool) (claim_type : String) (dependency : Option ClaimDependency)
      → (evaluate_claim_readiness task_results is_mock claim_type
          dependency).ready_for_domain_validator
        ≡ (not is_mock && satisfied claim_type dependency)
  unfolding evaluate_claim_readiness
  evaluate_claim_readiness-satisfied true claim_type dependency = refl
  evaluate_claim_readiness-satisfied false claim_type none = refl
  evaluate_claim_readiness-satisfied false claim_type (some rule) =
      ground (arith, no_issues-task_issues rule.supporting_task_keys)

  -- The claims of a template that was accepted: where it has a rule for a claim, the claim is ready exactly if the
  -- results are no mock's and each task that the rule names has a valid result; and those tasks are
  -- tasks of the template.
  pub check_template-evaluate_claim_readiness :
      (t : Template) (is_mock : Bool) (claim_type : String) (rule : ClaimDependency)
      → check_template t ≡ ok tt
      → claim_dependency t claim_type ≡ ok (some rule)
      → ((evaluate_claim_readiness task_results is_mock claim_type
            (some rule)).ready_for_domain_validator
          ≡ (not is_mock && all rule.supporting_task_keys (λ k. supports (task_results k))))
        × (within (keys t.tasks) rule.supporting_task_keys ≡ true)
  unfolding claim_dependency
  check_template-evaluate_claim_readiness t is_mock claim_type rule accepted e =
      let (typed, there) =
        first-select (λ (c : ClaimDependency). c.claim_type == claim_type) t.claim_dependencies rule
          (at_most_one-first
            (select (λ (c : ClaimDependency). c.claim_type == claim_type) t.claim_dependencies) rule
            e) in
      (
        evaluate_claim_readiness-satisfied is_mock claim_type (some rule) ∙ rw typed refl,
        elim (Bool-cases (within (keys t.tasks) rule.supporting_task_keys)) [
          | inl inside ↦ inside
          | inr outside ↦
              let found =
                there (λ c. not (within (keys t.tasks) c.supporting_task_keys))
                  (ground (arith, outside)) in
              absurd (ground (arith, found, check_template-support t accepted))
        ],
      )
