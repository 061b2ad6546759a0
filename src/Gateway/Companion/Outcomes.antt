-- ===== src/Gateway/Companion/Outcomes.antt =====
-- What OfflineInspirationCompanionAdapter (src/material_agent/gateway/companion.py) answers.
use materials_screening_agen.Prelude.{
  String, ◌≡◌, refl, Bool, true, false, Option, none, some, string_eq, ◌⊎◌, inl, inr, Result-cases,
  Check-cases, ok, arith, eq_iff,
}
use materials_screening_agen.Gateway.Model.{
  Hashing, RunRequest, RunState, running, interaction_required, succeeded, partial, failed,
  cancelled, Interaction, clarification, approval, retry_interaction, resume_interaction, Action,
  answer, approve, reject, resume, retry, cancel, ResultRecord, Transition, inspiration_report_uri,
}
use materials_screening_agen.Gateway.Companion.{
  Canonical, Adapter, Prepared, RunnerResult, Projection, Course, closed, execution, decide, course,
  execute, frozen, finished, act, check_runner_result, check_projection, check_projected,
  projected_state,
}

-- A state that no action is accepted in.
abbrev pub ended : RunState → Bool
ended (running _ _) = false
ended (interaction_required _) = false
ended _ = true

abbrev pub cancelling : String → Transition
cancelling reason = record { state = cancelled reason; result = none }

decide-cancelling :
    (i : Interaction) (a : Action) (t : Transition)
    → decide i a ≡ ok (closed t)
    → (reason : String) × (t ≡ cancelling reason)
unfolding decide
decide-cancelling i (cancel _) t e = ("inspiration run cancelled by user", ground (arith, e))
decide-cancelling (approval _ _ _ _) (reject _ _) t e =
    ("inspiration requirement freeze rejected by user", ground (arith, e))
decide-cancelling (approval _ _ _ _) (approve _) t e = absurd (ground (arith, e))
decide-cancelling (approval _ _ _ _) (answer _ _) t e = absurd (ground (arith, e))
decide-cancelling (approval _ _ _ _) (resume _) t e = absurd (ground (arith, e))
decide-cancelling (approval _ _ _ _) (retry _) t e = absurd (ground (arith, e))
decide-cancelling (resume_interaction _ _) (resume _) t e = absurd (ground (arith, e))
decide-cancelling (resume_interaction _ _) (approve _) t e = absurd (ground (arith, e))
decide-cancelling (resume_interaction _ _) (answer _ _) t e = absurd (ground (arith, e))
decide-cancelling (resume_interaction _ _) (reject _ _) t e = absurd (ground (arith, e))
decide-cancelling (resume_interaction _ _) (retry _) t e = absurd (ground (arith, e))
decide-cancelling (retry_interaction _ _) (retry _) t e = absurd (ground (arith, e))
decide-cancelling (retry_interaction _ _) (approve _) t e = absurd (ground (arith, e))
decide-cancelling (retry_interaction _ _) (answer _ _) t e = absurd (ground (arith, e))
decide-cancelling (retry_interaction _ _) (reject _ _) t e = absurd (ground (arith, e))
decide-cancelling (retry_interaction _ _) (resume _) t e = absurd (ground (arith, e))
decide-cancelling (clarification _ _) (approve _) t e = absurd (ground (arith, e))
decide-cancelling (clarification _ _) (answer _ _) t e = absurd (ground (arith, e))
decide-cancelling (clarification _ _) (reject _ _) t e = absurd (ground (arith, e))
decide-cancelling (clarification _ _) (resume _) t e = absurd (ground (arith, e))
decide-cancelling (clarification _ _) (retry _) t e = absurd (ground (arith, e))

module _ (h : Hashing) (j : Canonical) (c : Adapter) where
  abbrev pub projecting : Projection → Transition
  projecting x = record { state = projected_state h j c x; result = some x.result }

  -- How a run ends where the companion answers an action.
  abbrev pub Ends : String → Transition → Type 0
  Ends id t =
      ((reason : String) × (t ≡ cancelling reason))
      ⊎ ((x : Projection) × (t ≡ projecting x)
          × (x.result.run_id ≡ id)
          × (x.result.report_uri ≡ inspiration_report_uri id))

  check_projected-own :
      (id : String) (r : RunnerResult) (x : ResultRecord)
      → check_projected h j c id r x ≡ ok tt
      → (x.run_id ≡ id) × (x.report_uri ≡ inspiration_report_uri id)
  unfolding check_projected
  check_projected-own id r x e = (
    ground (arith, eq_iff x.run_id id),
    ground (arith, eq_iff x.report_uri (inspiration_report_uri id)),
  )

  finished-Ends :
      (id : String) (request : RunRequest) (p : Prepared) (t : Transition)
      → finished h j c id request p ≡ ok t
      → Ends id t
  unfolding finished
  finished-Ends id request p t e = elim (Result-cases (c.run p)) [
    | inr (x, raised) ↦ absurd (ground (arith, raised, e))
    | inl (r, ran) ↦ elim (Check-cases (check_runner_result h j c id p r)) [
      | inr (x, refused) ↦ absurd (ground (arith, ran, refused, e))
      | inl accepted ↦ elim (Result-cases (c.project id request p r)) [
        | inr (x, raised) ↦ absurd (ground (arith, ran, accepted, raised, e))
        | inl (x, projected) ↦ elim (Check-cases (check_projection h j x)) [
          | inr (y, refused) ↦ absurd (ground (arith, ran, accepted, projected, refused, e))
          | inl formed ↦ elim (Check-cases (check_projected h j c id r x.result)) [
            | inr (y, refused) ↦
                absurd (ground (arith, ran, accepted, projected, formed, refused, e))
            | inl own ↦
                let (run, report) = check_projected-own id r x.result own in
                inr (x, ground (arith, ran, accepted, projected, formed, own, e), run, report)
          ]
        ]
      ]
    ]
  ]

  execute-Ends :
      (id : String) (request : RunRequest) (expected : Option String) (t : Transition)
      → execute h j c id request expected ≡ ok t
      → Ends id t
  unfolding execute
  execute-Ends id request expected t e = elim (Result-cases (frozen h j c id request expected)) [
    | inr (x, raised) ↦ absurd (ground (arith, raised, e))
    | inl (p, there) ↦ finished-Ends id request p t (ground (arith, there, e))
  ]

  course-decide :
      (id : String) (request : RunRequest) (s : RunState) (a : Action) (x : Course)
      → course h j c id request s a ≡ ok x
      → (i : Interaction) × (s ≡ interaction_required i) × (decide i a ≡ ok x)
  unfolding course
  course-decide id request (interaction_required i) a x e = (i, refl, ground (arith, e))
  course-decide id request (running _ _) a x e = absurd (ground (arith, e))
  course-decide id request (succeeded _ _ _) a x e = absurd (ground (arith, e))
  course-decide id request (partial _ _ _ _) a x e = absurd (ground (arith, e))
  course-decide id request (failed _ _ _) a x e = absurd (ground (arith, e))
  course-decide id request (cancelled _) a x e = absurd (ground (arith, e))

  pub act-Ends :
      (id : String) (request : RunRequest) (s : RunState) (a : Action) (t : Transition)
      → act h j c id request s a ≡ ok t
      → Ends id t
  unfolding act
  act-Ends id request s a t e = elim (Result-cases (course h j c id request s a)) [
    | inr (x, refused) ↦ absurd (ground (arith, refused, e))
    | inl (closed u, chosen) ↦
        let (i, _, decided) = course-decide id request s a (closed u) chosen in
        let (reason, same) = decide-cancelling i a u decided in
        inl (reason, ground (arith, chosen, e, same))
    | inl (execution expected, chosen) ↦
        execute-Ends id request expected t (ground (arith, chosen, e))
  ]
