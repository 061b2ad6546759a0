-- ===== src/Orchestrator/Transitions/Stages.antt =====
-- The course of a stage: _STAGE_TRANSITIONS of src/material_agent/orchestrator/state_machine.py.
use materials_screening_agen.Prelude.{◌≡◌, refl, Bool, true, false, List, ok, arith, not}
use materials_screening_agen.Orchestrator.Status.{StageStatus, stage_enum}
use materials_screening_agen.Orchestrator.Transitions.{stage_transitions, validate, listed}
use materials_screening_agen.Orchestrator.Transitions.Paths.{walk, Table, guarded_by, gate-walk}

-- The statuses with a result.
abbrev pub has_result : StageStatus → Bool
has_result StageStatus.partial = true
has_result StageStatus.succeeded = true
has_result _ = false

abbrev not_run : StageStatus → Bool
not_run StageStatus.running = false
not_run s = not (has_result s)

abbrev not_validated : StageStatus → Bool
not_validated StageStatus.validating_input = false
not_validated StageStatus.waiting_approval = false
not_validated StageStatus.ready = false
not_validated StageStatus.retryable_failed = false
not_validated s = not_run s

running-Table : Table stage_transitions (guarded_by StageStatus.running not_run)
unfolding validate
running-Table = refl

validating-Table : Table stage_transitions (guarded_by StageStatus.validating_input not_validated)
unfolding validate
validating-Table = refl

has_result-not_run : (s : StageStatus) → has_result s ≡ true → (not_run s ≡ false)
has_result-not_run StageStatus.partial h = refl
has_result-not_run _ h = ground arith

has_result-not_validated : (s : StageStatus) → has_result s ≡ true → (not_validated s ≡ false)
has_result-not_validated StageStatus.partial h = refl
has_result-not_validated _ h = ground arith

-- A stage that starts pending and ends with a result, whole or partial, was validated and ran.
pub result-walk :
    (ts : List StageStatus) {t : StageStatus}
    → walk stage_transitions StageStatus.pending ts ≡ ok t
    → has_result t ≡ true
    → (listed StageStatus.validating_input ts ≡ true) × (listed StageStatus.running ts ≡ true)
result-walk ts {t} w r = (
  gate-walk stage_transitions StageStatus.validating_input not_validated validating-Table
      StageStatus.pending ts refl w (has_result-not_validated t r),
  gate-walk stage_transitions StageStatus.running not_run running-Table StageStatus.pending ts refl
      w (has_result-not_run t r),
)
