-- ===== src/Orchestrator/Transitions/Phases.antt =====
-- The course of a run: _RUN_TRANSITIONS of src/material_agent/orchestrator/state_machine.py.
use materials_screening_agen.Prelude.{ℕ, ◌≤◌, ◌≡◌, refl, List, ok, err}
use materials_screening_agen.Orchestrator.Status.{RunStatus, run_enum}
use materials_screening_agen.Orchestrator.Transitions.{
  run_transitions, validate, invalid_state_transition,
}
use materials_screening_agen.Orchestrator.Transitions.Paths.{walk, Table, grows, rank-walk}

-- How far a run has come.
abbrev pub phase : RunStatus → ℕ
phase RunStatus.intake = 0
phase RunStatus.clarifying = 1
phase RunStatus.requirement_review = 2
phase RunStatus.planned = 3
phase RunStatus.waiting_approval = 4
phase RunStatus.running = 4
phase RunStatus.paused = 4
phase _ = 5

phase-Table : Table run_transitions (grows phase)
unfolding validate
phase-Table = refl

-- No sequence of accepted updates takes a run back to an earlier phase, where the phases are the intake, the
-- clarification, the review, the plan, the work (which waits for approval, runs or pauses) and
-- the end. In particular two steps back that the state diagrams of docs/architecture.md and
-- docs/system-plan-original.md draw are refused: a revision by the user, from the review to the
-- clarification, and a retry, from failed to running.
pub phase-walk :
    (s : RunStatus) (ts : List RunStatus) {t : RunStatus}
    → walk run_transitions s ts ≡ ok t
    → (phase s ≤ phase t)
      × (validate run_transitions RunStatus.requirement_review RunStatus.clarifying
          ≡ err invalid_state_transition)
      × (validate run_transitions RunStatus.failed RunStatus.running ≡ err invalid_state_transition)
phase-walk s ts e = (
  rank-walk run_transitions phase phase-Table s ts e,
  unfold validate in refl,
  unfold validate in refl,
)
