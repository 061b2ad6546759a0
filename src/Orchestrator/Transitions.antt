-- ===== src/Orchestrator/Transitions.antt =====
-- src/material_agent/orchestrator/state_machine.py: the four transition tables and their validation.
pub mod Paths
pub mod Phases
pub mod Stages
pub mod Cancelling
use materials_screening_agen.Prelude.{
  String, ◌≡◌, Bool, true, false, Option, none, some, List, [], ◌∷◌, Result, Check, ok, err, ◌>>=◌,
  ◌||◌, if◌then◌else◌,
}
use materials_screening_agen.Orchestrator.Status.{
  StrEnum, same, parse, RunStatus, StageStatus, ApprovalStatus, ExternalJobStatus, run_enum,
  stage_enum, approval_enum, external_job_enum,
}

-- `InvalidStateTransition`, and the `ValueError` of a text that names no member.
pub data TransitionError : Type 0 where
  invalid_state_transition not_a_member : TransitionError

abbrev pub run_transitions : RunStatus → List RunStatus
run_transitions RunStatus.intake =
    RunStatus.clarifying ∷ RunStatus.requirement_review ∷ RunStatus.planned ∷ RunStatus.running
    ∷ RunStatus.cancelled ∷ RunStatus.failed ∷ []
run_transitions RunStatus.clarifying =
    RunStatus.requirement_review ∷ RunStatus.cancelled ∷ RunStatus.failed ∷ []
run_transitions RunStatus.requirement_review =
    RunStatus.requirement_review ∷ RunStatus.planned ∷ RunStatus.cancelled ∷ RunStatus.failed ∷ []
run_transitions RunStatus.planned =
    RunStatus.waiting_approval ∷ RunStatus.running ∷ RunStatus.paused ∷ RunStatus.succeeded
    ∷ RunStatus.partial ∷ RunStatus.failed ∷ RunStatus.cancelled ∷ []
run_transitions RunStatus.waiting_approval =
    RunStatus.running ∷ RunStatus.paused ∷ RunStatus.partial ∷ RunStatus.failed
    ∷ RunStatus.cancelled ∷ []
run_transitions RunStatus.running =
    RunStatus.waiting_approval ∷ RunStatus.paused ∷ RunStatus.succeeded ∷ RunStatus.partial
    ∷ RunStatus.failed ∷ RunStatus.cancelled ∷ []
run_transitions RunStatus.paused =
    RunStatus.waiting_approval ∷ RunStatus.running ∷ RunStatus.succeeded ∷ RunStatus.partial
    ∷ RunStatus.failed ∷ RunStatus.cancelled ∷ []
run_transitions RunStatus.succeeded = []
run_transitions RunStatus.partial = []
run_transitions RunStatus.failed = []
run_transitions RunStatus.cancelled = []

abbrev pub stage_transitions : StageStatus → List StageStatus
stage_transitions StageStatus.pending =
    StageStatus.validating_input ∷ StageStatus.blocked_missing_input
    ∷ StageStatus.capability_unavailable ∷ StageStatus.permanent_failed ∷ StageStatus.skipped
    ∷ StageStatus.cancelled ∷ []
stage_transitions StageStatus.validating_input =
    StageStatus.blocked_missing_input ∷ StageStatus.capability_unavailable
    ∷ StageStatus.waiting_approval ∷ StageStatus.ready ∷ StageStatus.retryable_failed
    ∷ StageStatus.permanent_failed ∷ StageStatus.cancelled ∷ []
stage_transitions StageStatus.blocked_missing_input =
    StageStatus.validating_input ∷ StageStatus.cancelled ∷ []
stage_transitions StageStatus.capability_unavailable =
    StageStatus.validating_input ∷ StageStatus.cancelled ∷ []
stage_transitions StageStatus.waiting_approval = StageStatus.ready ∷ StageStatus.cancelled ∷ []
stage_transitions StageStatus.ready = StageStatus.running ∷ StageStatus.cancelled ∷ []
stage_transitions StageStatus.running =
    StageStatus.running ∷ StageStatus.retryable_failed ∷ StageStatus.permanent_failed
    ∷ StageStatus.partial ∷ StageStatus.succeeded ∷ StageStatus.cancelled ∷ []
stage_transitions StageStatus.retryable_failed =
    StageStatus.validating_input ∷ StageStatus.running ∷ StageStatus.permanent_failed
    ∷ StageStatus.cancelled ∷ []
stage_transitions StageStatus.permanent_failed = []
stage_transitions StageStatus.partial = []
stage_transitions StageStatus.succeeded = []
stage_transitions StageStatus.cancelled = []
stage_transitions StageStatus.skipped = []

abbrev pub approval_transitions : ApprovalStatus → List ApprovalStatus
approval_transitions ApprovalStatus.pending =
    ApprovalStatus.approved ∷ ApprovalStatus.rejected ∷ ApprovalStatus.revised
    ∷ ApprovalStatus.cancelled ∷ []
approval_transitions ApprovalStatus.approved = []
approval_transitions ApprovalStatus.rejected = []
approval_transitions ApprovalStatus.revised = []
approval_transitions ApprovalStatus.cancelled = []

abbrev pub external_job_transitions : ExternalJobStatus → List ExternalJobStatus
external_job_transitions ExternalJobStatus.submitted =
    ExternalJobStatus.running ∷ ExternalJobStatus.succeeded ∷ ExternalJobStatus.failed
    ∷ ExternalJobStatus.cancelled ∷ ExternalJobStatus.timeout ∷ []
external_job_transitions ExternalJobStatus.running =
    ExternalJobStatus.running ∷ ExternalJobStatus.succeeded ∷ ExternalJobStatus.failed
    ∷ ExternalJobStatus.cancelled ∷ ExternalJobStatus.timeout ∷ []
external_job_transitions ExternalJobStatus.succeeded = []
external_job_transitions ExternalJobStatus.failed = []
external_job_transitions ExternalJobStatus.cancelled = []
external_job_transitions ExternalJobStatus.timeout = []

module _ {S : Type 0} ⦃e : StrEnum S⦄ where
  -- target in allowed
  abbrev pub listed : S → List S → Bool
  listed t [] = false
  listed t (s ∷ rest) = same t s || listed t rest

  -- _validate
  unfoldable pub validate : (S → List S) → S → S → Check TransitionError
  validate matrix current target =
      if same current target
      then ok tt
      else if listed target (matrix current)
      then ok tt
      else err invalid_state_transition

  -- S(text)
  unfoldable pub member : String → Result TransitionError S
  member text = elim (parse text) [ some s ↦ ok s | none ↦ err not_a_member ]

  -- The body that the four public functions share.
  unfoldable pub validate_texts : (S → List S) → String → String → Check TransitionError
  unfolding validate member parse
  validate_texts matrix current target = do
    c ← member current
    t ← member target
    validate matrix c t

unfoldable pub validate_run_transition : String → String → Check TransitionError
unfolding validate_texts
validate_run_transition = validate_texts run_transitions

unfoldable pub validate_stage_transition : String → String → Check TransitionError
unfolding validate_texts
validate_stage_transition = validate_texts stage_transitions

unfoldable pub validate_approval_transition : String → String → Check TransitionError
unfolding validate_texts
validate_approval_transition = validate_texts approval_transitions

unfoldable pub validate_external_transition : String → String → Check TransitionError
unfolding validate_texts
validate_external_transition = validate_texts external_job_transitions
