-- ===== src/Orchestrator/Status.antt =====
-- The status enumerations of src/material_agent/orchestrator/models.py and their texts. A member of
-- a Python `StrEnum` is its text: members are compared by it, and `RunStatus(text)` finds the member.
use materials_screening_agen.Prelude.{
  String, ◌≡◌, refl, Bool, true, Option, some, List, [], ◌∷◌, ◌==◌, string_eq, all, arith, eq_iff,
  find?, find?-sound,
}

-- `value s` is the text, which no other member has; `every` checks a Boolean property on all members by evaluation.
pub record StrEnum (S : Type 0) : Type 0 where
  pub value : S → String
  pub members : List S
  pub every : (p : S → Bool) → all members p ≡ true → (s : S) → p s ≡ true
  pub distinct : (s : S) → find? (λ t. value t == value s) members ≡ some s

module _ {S : Type 0} ⦃e : StrEnum S⦄ where
  -- S(text), which raises where this is `none`
  unfoldable pub parse : String → Option S
  parse text = find? (λ s. e.value s == text) e.members

  pub parse-value : (s : S) → parse (e.value s) ≡ some s
  unfolding parse
  parse-value s = e.distinct s

  pub value-parse : (text : String) (s : S) → parse text ≡ some s → e.value s ≡ text
  unfolding parse
  value-parse text s h =
      (eq_iff (e.value s) text).0 (find?-sound (λ t. e.value t == text) e.members h)

abbrev pub same : {S : Type 0} ⦃e : StrEnum S⦄ → S → S → Bool
same ⦃e⦄ s t = e.value s == e.value t

pub data RunStatus : Type 0 where
  intake clarifying requirement_review planned waiting_approval : RunStatus
  running paused succeeded partial failed : RunStatus
  cancelled : RunStatus

abbrev pub run_value : RunStatus → String
run_value RunStatus.intake = "INTAKE"
run_value RunStatus.clarifying = "CLARIFYING"
run_value RunStatus.requirement_review = "REQUIREMENT_REVIEW"
run_value RunStatus.planned = "PLANNED"
run_value RunStatus.waiting_approval = "WAITING_APPROVAL"
run_value RunStatus.running = "RUNNING"
run_value RunStatus.paused = "PAUSED"
run_value RunStatus.succeeded = "SUCCEEDED"
run_value RunStatus.partial = "PARTIAL"
run_value RunStatus.failed = "FAILED"
run_value RunStatus.cancelled = "CANCELLED"

abbrev pub run_members : List RunStatus
run_members =
    RunStatus.intake ∷ RunStatus.clarifying ∷ RunStatus.requirement_review ∷ RunStatus.planned
    ∷ RunStatus.waiting_approval ∷ RunStatus.running ∷ RunStatus.paused ∷ RunStatus.succeeded
    ∷ RunStatus.partial ∷ RunStatus.failed ∷ RunStatus.cancelled ∷ []

pub every_run : (p : RunStatus → Bool) → all run_members p ≡ true → (s : RunStatus) → p s ≡ true
every_run p h RunStatus.intake = ground arith
every_run p h _ = ground arith

pub run_distinct : (s : RunStatus) → find? (λ t. run_value t == run_value s) run_members ≡ some s
unfolding find?
run_distinct RunStatus.intake = refl
run_distinct _ = refl

instance abbrev pub run_enum : StrEnum RunStatus
run_enum = record {
  value = run_value;
  members = run_members;
  every = every_run;
  distinct = run_distinct;
}

pub data StageStatus : Type 0 where
  pending validating_input blocked_missing_input capability_unavailable waiting_approval :
      StageStatus
  ready running retryable_failed permanent_failed partial : StageStatus
  succeeded cancelled skipped : StageStatus

abbrev pub stage_value : StageStatus → String
stage_value StageStatus.pending = "PENDING"
stage_value StageStatus.validating_input = "VALIDATING_INPUT"
stage_value StageStatus.blocked_missing_input = "BLOCKED_MISSING_INPUT"
stage_value StageStatus.capability_unavailable = "CAPABILITY_UNAVAILABLE"
stage_value StageStatus.waiting_approval = "WAITING_APPROVAL"
stage_value StageStatus.ready = "READY"
stage_value StageStatus.running = "RUNNING"
stage_value StageStatus.retryable_failed = "RETRYABLE_FAILED"
stage_value StageStatus.permanent_failed = "PERMANENT_FAILED"
stage_value StageStatus.partial = "PARTIAL"
stage_value StageStatus.succeeded = "SUCCEEDED"
stage_value StageStatus.cancelled = "CANCELLED"
stage_value StageStatus.skipped = "SKIPPED"

abbrev pub stage_members : List StageStatus
stage_members =
    StageStatus.pending ∷ StageStatus.validating_input ∷ StageStatus.blocked_missing_input
    ∷ StageStatus.capability_unavailable ∷ StageStatus.waiting_approval ∷ StageStatus.ready
    ∷ StageStatus.running ∷ StageStatus.retryable_failed ∷ StageStatus.permanent_failed
    ∷ StageStatus.partial ∷ StageStatus.succeeded ∷ StageStatus.cancelled ∷ StageStatus.skipped ∷ []

pub every_stage :
    (p : StageStatus → Bool) → all stage_members p ≡ true → (s : StageStatus) → p s ≡ true
every_stage p h StageStatus.pending = ground arith
every_stage p h _ = ground arith

pub stage_distinct :
    (s : StageStatus) → find? (λ t. stage_value t == stage_value s) stage_members ≡ some s
unfolding find?
stage_distinct StageStatus.pending = refl
stage_distinct _ = refl

instance abbrev pub stage_enum : StrEnum StageStatus
stage_enum = record {
  value = stage_value;
  members = stage_members;
  every = every_stage;
  distinct = stage_distinct;
}

pub data ApprovalStatus : Type 0 where
  pending approved rejected revised cancelled : ApprovalStatus

abbrev pub approval_value : ApprovalStatus → String
approval_value ApprovalStatus.pending = "PENDING"
approval_value ApprovalStatus.approved = "APPROVED"
approval_value ApprovalStatus.rejected = "REJECTED"
approval_value ApprovalStatus.revised = "REVISED"
approval_value ApprovalStatus.cancelled = "CANCELLED"

abbrev pub approval_members : List ApprovalStatus
approval_members =
    ApprovalStatus.pending ∷ ApprovalStatus.approved ∷ ApprovalStatus.rejected
    ∷ ApprovalStatus.revised ∷ ApprovalStatus.cancelled ∷ []

pub every_approval :
    (p : ApprovalStatus → Bool) → all approval_members p ≡ true → (s : ApprovalStatus) → p s ≡ true
every_approval p h ApprovalStatus.pending = ground arith
every_approval p h _ = ground arith

pub approval_distinct :
    (s : ApprovalStatus)
    → find? (λ t. approval_value t == approval_value s) approval_members ≡ some s
unfolding find?
approval_distinct ApprovalStatus.pending = refl
approval_distinct _ = refl

instance abbrev pub approval_enum : StrEnum ApprovalStatus
approval_enum = record {
  value = approval_value;
  members = approval_members;
  every = every_approval;
  distinct = approval_distinct;
}

pub data ExternalJobStatus : Type 0 where
  submitted running succeeded failed cancelled : ExternalJobStatus
  timeout : ExternalJobStatus

abbrev pub external_job_value : ExternalJobStatus → String
external_job_value ExternalJobStatus.submitted = "SUBMITTED"
external_job_value ExternalJobStatus.running = "RUNNING"
external_job_value ExternalJobStatus.succeeded = "SUCCEEDED"
external_job_value ExternalJobStatus.failed = "FAILED"
external_job_value ExternalJobStatus.cancelled = "CANCELLED"
external_job_value ExternalJobStatus.timeout = "TIMEOUT"

abbrev pub external_job_members : List ExternalJobStatus
external_job_members =
    ExternalJobStatus.submitted ∷ ExternalJobStatus.running ∷ ExternalJobStatus.succeeded
    ∷ ExternalJobStatus.failed ∷ ExternalJobStatus.cancelled ∷ ExternalJobStatus.timeout ∷ []

pub every_external_job :
    (p : ExternalJobStatus → Bool)
    → all external_job_members p ≡ true
    → (s : ExternalJobStatus) → p s ≡ true
every_external_job p h ExternalJobStatus.submitted = ground arith
every_external_job p h _ = ground arith

pub external_job_distinct :
    (s : ExternalJobStatus)
    → find? (λ t. external_job_value t == external_job_value s) external_job_members ≡ some s
unfolding find?
external_job_distinct ExternalJobStatus.submitted = refl
external_job_distinct _ = refl

instance abbrev pub external_job_enum : StrEnum ExternalJobStatus
external_job_enum = record {
  value = external_job_value;
  members = external_job_members;
  every = every_external_job;
  distinct = external_job_distinct;
}
