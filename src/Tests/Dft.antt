-- ===== src/Tests/Dft.antt =====
-- The order of the tasks of src/material_agent/dft/workflows.py on concrete inputs.
use materials_screening_agen.Prelude.{
  all, Option, some, none, if◌then◌else◌, ◌==◌, string_eq, not, ◌≡◌, ◌≢◌, refl, true, false, List,
  [], ◌∷◌, err, ok, String, length, ◌&&◌, sort, select,
}
use materials_screening_agen.Dft.Workflow.{
  resolve, check_registry, unique_task_types, repeated_type, ClaimDependency, Template,
  check_template, claim_dependency, Task, TaskType, relaxation, static_scf, dos,
  topological_task_keys, rounds, advance, cyclic, exhausted, within, keys,
}
use materials_screening_agen.Dft.Workflow.Registry.{check_registry-resolve}
use materials_screening_agen.Dft.Workflow.Rounds.{topological_task_keys_end}
use materials_screening_agen.Dft.Workflow.Order.{topological_task_keys-placed, placed}
use materials_screening_agen.Dft.Workflow.Cycles.{topological_task_keys-cyclic}
use materials_screening_agen.Dft.ClaimGate.{
  ValidationStatus, valid_with_warnings, evaluate_claim_readiness,
}
use materials_screening_agen.Dft.ClaimGate.Readiness.{
  supports, satisfied, evaluate_claim_readiness-satisfied, check_template-evaluate_claim_readiness,
}

abbrev pub task : String → TaskType → List String → Task
task k ty ds = record {
  task_key = k;
  task_type = ty;
  depends_on = ds;
  required_output_names = [];
  validator_ids = [];
}

abbrev electronic : List Task
electronic =
    task "dos" dos ("scf" ∷ [])
    ∷ task "scf" static_scf ("relax" ∷ [])
    ∷ task "relax" relaxation []
    ∷ task "bands" dos ("scf" ∷ [])
    ∷ []

abbrev circular : List Task
circular =
    task "relax" relaxation []
    ∷ task "scf" static_scf ("dos" ∷ [])
    ∷ task "dos" dos ("scf" ∷ [])
    ∷ []

abbrev electronic_keys : List String
electronic_keys = "relax" ∷ "scf" ∷ "bands" ∷ "dos" ∷ []

abbrev circular_keys : List String
circular_keys = "relax" ∷ "scf" ∷ "dos" ∷ []

electronic_order : topological_task_keys electronic ≡ ok ("relax" ∷ "scf" ∷ "bands" ∷ "dos" ∷ [])
unfolding topological_task_keys rounds advance sort select
electronic_order = refl

circular_order : topological_task_keys circular ≡ err cyclic
unfolding topological_task_keys rounds advance sort select
circular_order = refl

topological_task_keys_end_example : topological_task_keys circular ≢ err exhausted
topological_task_keys_end_example = topological_task_keys_end circular

topological_task_keys-placed_example :
    let order = electronic_keys in
    (placed electronic [] order ≡ true)
    × (within order (keys electronic) ≡ true)
    × (length order ≡ length electronic)
topological_task_keys-placed_example =
    topological_task_keys-placed electronic refl electronic_keys electronic_order

topological_task_keys-cyclic_example :
    let order = circular_keys in (placed circular [] order && within order (keys circular)) ≡ false
topological_task_keys-cyclic_example =
    topological_task_keys-cyclic circular circular_keys refl circular_order

abbrev gap_rule : ClaimDependency
gap_rule = record {
  claim_type = "band_gap";
  supporting_task_keys = "scf" ∷ "bands" ∷ [];
  domain_validator_id = "gap/v1";
}

abbrev template : Template
template = record {
  template_id = "electronic";
  version = "1";
  target_class = "semiconductor";
  tasks = electronic;
  claim_dependencies = gap_rule ∷ [];
}

abbrev results : String → Option ValidationStatus
results k = if k == "dos" then none else some valid_with_warnings

template_accepted : check_template template ≡ ok tt
unfolding check_template topological_task_keys rounds advance sort select
template_accepted = refl

gap_claim : claim_dependency template "band_gap" ≡ ok (some gap_rule)
unfolding claim_dependency select
gap_claim = refl

check_template-evaluate_claim_readiness_example :
    ((evaluate_claim_readiness results false "band_gap" (some gap_rule)).ready_for_domain_validator
      ≡ (not false && all gap_rule.supporting_task_keys (λ k. supports (results k))))
    × (within (keys template.tasks) gap_rule.supporting_task_keys ≡ true)
check_template-evaluate_claim_readiness_example =
    check_template-evaluate_claim_readiness results template false "band_gap" gap_rule
      template_accepted gap_claim

evaluate_claim_readiness-satisfied_example :
    (evaluate_claim_readiness results true "band_gap" (some gap_rule)).ready_for_domain_validator
    ≡ (not true && satisfied results "band_gap" (some gap_rule))
evaluate_claim_readiness-satisfied_example =
    evaluate_claim_readiness-satisfied results true "band_gap" (some gap_rule)

abbrev other_template : Template
other_template = record template { template_id = "magnetic" }

check_registry-resolve_example : resolve (other_template ∷ template ∷ []) "electronic" ≡ ok template
check_registry-resolve_example =
    check_registry-resolve (other_template ∷ []) [] template (unfold check_registry in refl)

repeated_types : unique_task_types electronic ≡ err repeated_type
unfolding unique_task_types
repeated_types = refl
