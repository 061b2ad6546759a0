-- ===== src/Orchestrator/Transitions/Cancelling.antt =====
-- Which records of src/material_agent/orchestrator/state_machine.py can be cancelled.
use materials_screening_agen.Prelude.{
  find?, String, ◌≡◌, refl, Bool, true, false, List, [], ◌∷◌, not, ◌||◌, is_ok, Check, ◌==◌,
  string_eq,
}
use materials_screening_agen.Orchestrator.Status.{
  StrEnum, RunStatus, StageStatus, ApprovalStatus, ExternalJobStatus, run_enum, stage_enum,
  approval_enum, external_job_enum,
}
use materials_screening_agen.Orchestrator.Transitions.{
  TransitionError, run_transitions, stage_transitions, approval_transitions,
  external_job_transitions, validate_run_transition, validate_stage_transition,
  validate_approval_transition, validate_external_transition,
}

abbrev is_nil : {S : Type 0} → List S → Bool
is_nil [] = true
is_nil (_ ∷ _) = false

-- Cancelling a status is accepted exactly when its row is not empty or it is cancelled already.
abbrev pub CancelsLive :
    {S : Type 0} ⦃e : StrEnum S⦄
    → (String → String → Check TransitionError)
    → (S → List S)
    → S
    → Type 0
CancelsLive ⦃e⦄ check matrix s =
    is_ok (check (e.value s) "CANCELLED") ≡ (not (is_nil (matrix s)) || e.value s == "CANCELLED")

cancel_run : (s : RunStatus) → CancelsLive validate_run_transition run_transitions s
unfolding validate_run_transition find?
cancel_run RunStatus.intake = refl
cancel_run _ = refl

cancel_stage : (s : StageStatus) → CancelsLive validate_stage_transition stage_transitions s
unfolding validate_stage_transition find?
cancel_stage StageStatus.pending = refl
cancel_stage _ = refl

cancel_approval :
    (s : ApprovalStatus) → CancelsLive validate_approval_transition approval_transitions s
unfolding validate_approval_transition find?
cancel_approval ApprovalStatus.pending = refl
cancel_approval _ = refl

cancel_external :
    (s : ExternalJobStatus) → CancelsLive validate_external_transition external_job_transitions s
unfolding validate_external_transition find?
cancel_external ExternalJobStatus.submitted = refl
cancel_external _ = refl

-- In each of the four tables a record can be cancelled exactly while it is not final, or when it is
-- cancelled already.
pub cancels_live :
    (r : RunStatus) (s : StageStatus) (a : ApprovalStatus) (j : ExternalJobStatus)
    → CancelsLive validate_run_transition run_transitions r
      × CancelsLive validate_stage_transition stage_transitions s
      × CancelsLive validate_approval_transition approval_transitions a
      × CancelsLive validate_external_transition external_job_transitions j
cancels_live r s a j = (cancel_run r, cancel_stage s, cancel_approval a, cancel_external j)
