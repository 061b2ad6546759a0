-- ===== src/Gateway/Companion/Settling.antt =====
-- What OfflineInspirationCompanionAdapter (src/material_agent/gateway/companion.py) answers, and what the service makes of it.
use materials_screening_agen.Prelude.{
  String, ◌≡◌, refl, true, Option, none, some, List, string_eq, inl, inr, Result, Check,
  Check-cases, Bool-cases, ok, err, arith, eq_iff, str_refl, ◌>>◌,
}
use materials_screening_agen.Gateway.Model.{
  Hashing, RunRequest, RunRecord, RunView, run_view, interaction_id, RunState, terminal_reference,
  gateway_result_sha256, running, interaction_required, succeeded, partial, failed, cancelled,
  Interaction, Action, ResultRecord, Transition, inspiration_report_uri,
}
use materials_screening_agen.Gateway.Service.{
  check_budget, check_reference, check_result, check_fresh, validate_transition, settle, admit,
  acted, replacement, materials_run_act, materials_run_get,
}
use materials_screening_agen.Gateway.Grants.{GrantStore}
use materials_screening_agen.Gateway.Memory.{GatewayError, reference_to}
use materials_screening_agen.Gateway.Service.Calls.{ServiceOp, serve_all, initial_world}
use materials_screening_agen.Gateway.Service.Committing.{serve_all-materials_run_act}
use materials_screening_agen.Gateway.Results.{same_reference_refl}
use materials_screening_agen.Gateway.Companion.{
  Canonical, Adapter, outcome, offline, Projection, CompanionError, contract, other, act,
  projected_state,
}
use materials_screening_agen.Gateway.Companion.Outcomes.{ended, Ends, act-Ends}

module _ (h : Hashing) (j : Canonical) (c : Adapter) where
  abbrev pub result_budget : RunRequest → Option ResultRecord → Check GatewayError
  result_budget request none = ok tt
  result_budget request (some r) = check_budget request r

  check_fresh-ended :
      (previous : Option String) (s : RunState) → ended s ≡ true → check_fresh h previous s ≡ ok tt
  unfolding check_fresh
  check_fresh-ended none s e = refl
  check_fresh-ended (some p) (interaction_required i) e = absurd (ground (arith, e))
  check_fresh-ended (some p) (running _ _) e = refl
  check_fresh-ended (some p) (succeeded _ _ _) e = refl
  check_fresh-ended (some p) (partial _ _ _ _) e = refl
  check_fresh-ended (some p) (failed _ _ _) e = refl
  check_fresh-ended (some p) (cancelled _) e = refl

  projected_reference :
      (x : Projection)
      → terminal_reference (projected_state h j c x) ≡ some (reference_to h x.result)
  projected_reference x = elim (Bool-cases x.partial_status) [
    | inl now ↦ rw now refl
    | inr now ↦ rw now refl
  ]

  own_check_result :
      (id : String) (request : RunRequest) (r : ResultRecord)
      → r.run_id ≡ id
      → r.report_uri ≡ inspiration_report_uri id
      → (check_reference h (some (reference_to h r)) (some r) ≡ ok tt)
        × (check_result h id request (some (reference_to h r)) (some r) ≡ check_budget request r)
  unfolding check_reference check_result
  own_check_result id request r own report = (
    ground (arith, same_reference_refl h (some (reference_to h r)) (reference_to h r) refl),
    ground (
      arith,
      own,
      report,
      str_refl (gateway_result_sha256 h r),
      eq_iff r.run_id id,
      eq_iff r.report_uri (inspiration_report_uri id),
    ),
  )

  Check-end : {E : Type 0} (x : Check E) → (do x; ok tt) ≡ x
  Check-end (ok _) = refl
  Check-end (err e) = refl

  pub Ends-ended : (id : String) (t : Transition) → Ends h j c id t → ended t.state ≡ true
  Ends-ended id t (inl (reason, same)) = rw same refl
  Ends-ended id t (inr (x, same, _, _)) =
      rw same (elim (Bool-cases x.partial_status) [ inl now ↦ rw now refl | inr now ↦ rw now refl ])

  Ends-validate_transition :
      (id : String) (request : RunRequest) (previous : Option String) (t : Transition)
      → Ends h j c id t
      → validate_transition h t id request previous ≡ result_budget request t.result
  unfolding validate_transition
  Ends-validate_transition id request previous t (inl (reason, same)) = rw same (
      unfold check_reference in
      unfold check_result in check_fresh-ended previous (cancelled reason) refl)
  Ends-validate_transition id request previous t (inr (x, same, own, report)) =
      let ends = Ends-ended id t (inr (x, same, own, report)) in
      let (bound, budget) = own_check_result id request x.result own report in
      rw same (
        rw
          (
            projected_reference x,
            bound,
            budget,
            check_fresh-ended previous (projected_state h j c x) (rw same at ends),
          )
          (Check-end (check_budget request x.result)))

  -- The transitions with which the companion answers an action pass every check of the service but
  -- that of the request's limits: what the service finds wrong with one is what it finds
  -- wrong with the numbers of its result.
  pub act-validate_transition :
      (id : String) (request : RunRequest) (s : RunState) (a : Action) (previous : Option String)
      (t : Transition)
      → act h j c id request s a ≡ ok t
      → validate_transition h t id request previous ≡ result_budget request t.result
  act-validate_transition id request s a previous t e =
      Ends-validate_transition id request previous t (act-Ends h j c id request s a t e)

  settle-ended :
      (message : String) (id : String) (request : RunRequest) (previous : Option String)
      (x : Result CompanionError Transition)
      → ((t : Transition) → x ≡ ok t → ended t.state ≡ true)
      → ended (settle h message (outcome x) id request previous).state ≡ true
  unfolding settle
  settle-ended message id request previous (ok t) e =
      elim (Check-cases (validate_transition h t id request previous)) [
        | inl passed ↦ rw passed (e t refl)
        | inr (y, refused) ↦ rw refused refl
      ]
  settle-ended message id request previous (err contract) e = refl
  settle-ended message id request previous (err other) e = refl

  -- From an empty repository, and whatever companions answered to any sequence of submissions and actions
  -- before: an action that is admitted for a run, and that the offline companion is asked to carry out, ends
  -- the run. The service answers with a state that has succeeded, succeeded in part, failed or been
  -- cancelled, and a read of the run afterwards answers with the same, whatever the companion's
  -- preparer, runner and projector return or raise.
  pub serve_all-ended :
      (ops : List ServiceOp) (grants s : GrantStore) (id : String) (a : Action) (row : RunRecord)
      (i : Interaction)
      → let w = serve_all h ops (initial_world grants) in
        admit h id a w ≡ ok (row, (i, s))
        → let done = materials_run_act h (offline h j c) id a w in
          (view : RunView) × (done.0 ≡ ok view)
          × (materials_run_get h id done.1 ≡ ok view)
          × (ended view.state ≡ true)
  serve_all-ended ops grants s id a row i admitted = (
    run_view (replacement h row (acted h (offline h j c) row i a)),
    (serve_all-materials_run_act h ops grants s (offline h j c) id a row i admitted).0,
    (serve_all-materials_run_act h ops grants s (offline h j c) id a row i admitted).1,
    settle-ended "inspiration companion failed during action" row.run_id row.request
        (some (interaction_id i)) (act h j c row.run_id row.request row.state a)
        (λ t e. Ends-ended row.run_id t (act-Ends h j c row.run_id row.request row.state a t e)),
  )
