-- ===== src/Dft/Preflight/Clearing.antt =====
-- What a preflight that is ready has found (src/material_agent/dft/preflight.py).
use materials_screening_agen.Prelude.{
  String, ◌≡◌, refl, Bool, true, false, Option, none, some, List, [], ◌∷◌, any, all, not, member,
  string_eq, inl, inr, Result-cases, ok, arith, ap, ◌∙◌, eq_iff,
}
use materials_screening_agen.Dft.Workflow.{TaskType, task_type_value, unique_task_types}
use materials_screening_agen.Dft.Preflight.{
  ArtifactRef, TaskSpec, is_id, same_descriptor, DftRequest, PreflightInput, PreflightResult,
  PolicySnapshot, find_policy, is_nil, refers, expired, same_types, observed_types, template_issues,
  request_issues, policy_issues, reference_issues, backend_issues, approval_issues, issues_of,
  evaluate_real_preflight,
}

-- The one policy of a kind is approved, and what a request refers to.
abbrev pub Approved : List PolicySnapshot → String → Option ArtifactRef → Type 0
Approved snapshots kind reference =
    (s : PolicySnapshot) × (find_policy snapshots kind ≡ ok (some s))
    × (s.status ≡ "APPROVED")
    × (refers reference s.artifact ≡ true)

-- The tasks of the request are those of the template, which has no type twice.
abbrev pub SameTasks : PreflightInput → Type 0
SameTasks i =
    (types : List TaskType) × (unique_task_types i.workflow_template.tasks ≡ ok types)
    × (same_types (observed_types i.request) types ≡ true)

-- A real request, for the template that was given.
abbrev pub Real : PreflightInput → Type 0
Real i =
    (i.request.is_real ≡ true)
    × (i.request.is_mock ≡ false)
    × (i.request.workflow_template_id ≡ i.workflow_template.template_id)
    × (any i.request.task_specs (λ s. s.is_mock) ≡ false)

-- A backend that is real, the one of the request, healthy by a report on itself, and able to run every task.
abbrev pub Fit : PreflightInput → Type 0
Fit i =
    (i.backend_descriptor.is_mock ≡ false)
    × (i.backend_descriptor.backend_id ≡ i.request.backend_id)
    × (same_descriptor i.backend_health.descriptor i.backend_descriptor ≡ true)
    × (i.backend_health.status ≡ "READY")
    × (all i.request.task_specs
          (λ s. member (task_type_value s.task_type) i.backend_descriptor.supported_task_types)
        ≡ true)

all-any : {A : Type 0} (p : A → Bool) (xs : List A) → all xs p ≡ not (any xs (λ x. not (p x)))
all-any p [] = refl
all-any p (x ∷ xs) = ground (arith, all-any p xs)

is_id-some : (o : Option String) (id : String) → is_id o id ≡ true → o ≡ some id
is_id-some none id e = absurd (ground (arith, e))
is_id-some (some x) id e = ap some ((eq_iff x id).0 e)

request_issues-nil :
    (i : PreflightInput) (rest : List String)
    → is_nil (request_issues i rest) ≡ true
    → SameTasks i × Real i × (is_nil rest ≡ true)
unfolding request_issues template_issues
request_issues-nil i rest e = elim (Result-cases (unique_task_types i.workflow_template.tasks)) [
  | inl (types, there) ↦
      let template = eq_iff i.request.workflow_template_id i.workflow_template.template_id in
      (
        (types, there, ground (arith, there, e)),
        (
          ground (arith, there, e),
          ground (arith, there, e),
          ground (arith, there, e, template),
          ground (arith, there, e),
        ),
        ground (arith, there, e),
      )
  | inr (x, refused) ↦ absurd (ground (arith, refused, e))
]

policy_issues-nil :
    (o : Option PolicySnapshot) (rest : List String)
    → is_nil (policy_issues o rest) ≡ true
    → ((s : PolicySnapshot) × (o ≡ some s) × (s.status ≡ "APPROVED")) × (is_nil rest ≡ true)
policy_issues-nil none rest e = absurd (ground (arith, e))
policy_issues-nil (some s) rest e =
    ((s, refl, ground (arith, e, eq_iff s.status "APPROVED")), ground (arith, e))

reference_issues-nil :
    (s : PolicySnapshot) (reference : Option ArtifactRef) (code : String) (rest : List String)
    → is_nil (reference_issues (some s) reference code rest) ≡ true
    → (refers reference s.artifact ≡ true) × (is_nil rest ≡ true)
reference_issues-nil s reference code rest e = (ground (arith, e), ground (arith, e))

backend_issues-nil :
    (i : PreflightInput) (rest : List String)
    → is_nil (backend_issues i rest) ≡ true
    → Fit i × (is_nil rest ≡ true)
unfolding backend_issues
backend_issues-nil i rest e = (
  (
    ground (arith, e),
    ground (arith, e, eq_iff i.backend_descriptor.backend_id i.request.backend_id),
    ground (arith, e),
    ground (arith, e, eq_iff i.backend_health.status "READY"),
    ground (
      arith,
      e,
      all-any
          (λ (s : TaskSpec).
            member (task_type_value s.task_type) i.backend_descriptor.supported_task_types)
          i.request.task_specs,
    ),
  ),
  ground (arith, e),
)

module _ (canonical_hash : DftRequest → String) where
  -- What a request that is ready stands on.
  pub record Cleared (i : PreflightInput) : Type 0 where
    pub same_tasks : SameTasks i
    pub real : Real i
    pub method : Approved i.policy_snapshots "METHOD" i.request.method_policy_ref
    pub resource : Approved i.policy_snapshots "RESOURCE" i.request.resource_policy_ref
    pub evidence :
        (s : PolicySnapshot) × (find_policy i.policy_snapshots "EVIDENCE" ≡ ok (some s))
        × (s.status ≡ "APPROVED")
    pub fit : Fit i
    pub own_approval : i.request.approval_id ≡ some i.approval.approval_id
    pub granted : i.approval.status ≡ "APPROVED"
    pub own_plan : i.approval.workflow_plan_hash ≡ i.request.workflow_plan_hash
    pub own_request : i.approval.request_sha256 ≡ canonical_hash i.request
    pub in_time : expired i.approval.expires_at i.checked_at ≡ false

  approval_issues-nil :
      (i : PreflightInput)
      → is_nil (approval_issues canonical_hash i) ≡ true
      → (i.request.approval_id ≡ some i.approval.approval_id)
        × (i.approval.status ≡ "APPROVED")
        × (i.approval.workflow_plan_hash ≡ i.request.workflow_plan_hash)
        × (i.approval.request_sha256 ≡ canonical_hash i.request)
        × (expired i.approval.expires_at i.checked_at ≡ false)
  unfolding approval_issues
  approval_issues-nil i e = (
    is_id-some i.request.approval_id i.approval.approval_id (ground (arith, e)),
    ground (arith, e, eq_iff i.approval.status "APPROVED"),
    ground (arith, e, eq_iff i.approval.workflow_plan_hash i.request.workflow_plan_hash),
    ground (arith, e, eq_iff i.approval.request_sha256 (canonical_hash i.request)),
    ground (arith, e),
  )

  issues_of-Cleared :
      (i : PreflightInput) (m r v : Option PolicySnapshot)
      → find_policy i.policy_snapshots "METHOD" ≡ ok m
      → find_policy i.policy_snapshots "RESOURCE" ≡ ok r
      → find_policy i.policy_snapshots "EVIDENCE" ≡ ok v
      → is_nil (issues_of canonical_hash i m r v) ≡ true
      → Cleared i
  issues_of-Cleared i m r v found_method found_resource found_evidence e =
      let after_resource : List String =
        reference_issues r i.request.resource_policy_ref "RESOURCE_POLICY_REFERENCE_MISMATCH"
          (backend_issues i (approval_issues canonical_hash i)) in
      let references : List String =
        reference_issues m i.request.method_policy_ref "METHOD_POLICY_REFERENCE_MISMATCH"
          after_resource in
      let (tasks, real_request, e1) =
        request_issues-nil i (policy_issues m (policy_issues r (policy_issues v references))) e in
      let ((sm, is_m, ok_m), e2) =
        policy_issues-nil m (policy_issues r (policy_issues v references)) e1 in
      let ((sr, is_r, ok_r), e3) = policy_issues-nil r (policy_issues v references) e2 in
      let ((sv, is_v, ok_v), e4) = policy_issues-nil v references e3 in
      let (refers_m, e5) =
        reference_issues-nil sm i.request.method_policy_ref "METHOD_POLICY_REFERENCE_MISMATCH"
          after_resource (rw is_m at e4) in
      let (refers_r, e6) =
        reference_issues-nil sr i.request.resource_policy_ref "RESOURCE_POLICY_REFERENCE_MISMATCH"
          (backend_issues i (approval_issues canonical_hash i)) (rw is_r at e5) in
      let (fit_backend, e7) = backend_issues-nil i (approval_issues canonical_hash i) e6 in
      let (named, grant, plan, hash, time) = approval_issues-nil i e7 in
      record {
        same_tasks = tasks;
        real = real_request;
        method = (sm, found_method ∙ ap ok is_m, ok_m, refers_m);
        resource = (sr, found_resource ∙ ap ok is_r, ok_r, refers_r);
        evidence = (sv, found_evidence ∙ ap ok is_v, ok_v);
        fit = fit_backend;
        own_approval = named;
        granted = grant;
        own_plan = plan;
        own_request = hash;
        in_time = time;
      }

  -- Where the preflight is ready: the request is a real one for the template that was given, and its tasks
  -- are real and of the types of the template, in their order, which names no type twice; one method
  -- policy and one resource policy were given, are approved and are what the request refers to; one
  -- evidence policy was given and is approved; the backend is real, the one of the request and able to
  -- run every task, and its health is that of this very backend and READY; and the approval is
  -- the one that the request names, was granted for this plan and this request and has not expired.
  pub evaluate_real_preflight-Cleared :
      (i : PreflightInput) (r : PreflightResult)
      → evaluate_real_preflight canonical_hash i ≡ ok r
      → r.is_ready ≡ true
      → Cleared i
  unfolding evaluate_real_preflight
  evaluate_real_preflight-Cleared i r e ready =
      elim (Result-cases (find_policy i.policy_snapshots "METHOD")) [
        | inr (x, raised) ↦ absurd (ground (arith, raised, e))
        | inl (m, found_method) ↦ elim (Result-cases (find_policy i.policy_snapshots "RESOURCE")) [
          | inr (x, raised) ↦ absurd (ground (arith, found_method, raised, e))
          | inl (s, found_resource) ↦
              elim (Result-cases (find_policy i.policy_snapshots "EVIDENCE")) [
                | inr (x, raised) ↦ absurd (ground (arith, found_method, found_resource, raised, e))
                | inl (v, found_evidence) ↦
                    let made : PreflightResult = record {
                      is_ready = is_nil (issues_of canonical_hash i m s v);
                      issues = issues_of canonical_hash i m s v;
                    } in
                    let same : made ≡ r =
                      ground (arith, found_method, found_resource, found_evidence, e) in
                    issues_of-Cleared i m s v found_method found_resource found_evidence
                      (ap (λ (q : PreflightResult). q.is_ready) same ∙ ready)
              ]
        ]
      ]
