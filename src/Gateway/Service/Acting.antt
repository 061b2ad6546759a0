-- ===== src/Gateway/Service/Acting.antt =====
-- materials_run_act of src/material_agent/gateway/service.py: an interaction is answered once.
use materials_screening_agen.Prelude.{
  true, all, List, String, ◌≡◌, refl, sym, subst, false, some, ◌==◌, string_eq, inl, inr,
  Check-cases, Result-cases, ok, err, find?, arith, eq_iff, ap, ◌∙◌,
}
use materials_screening_agen.Gateway.Model.{
  Hashing, RunRequest, RunRecord, RunState, interaction_required, Action, RunView,
  action_interaction_id, interaction_id,
}
use materials_screening_agen.Gateway.Memory.{run_key, get_run, stale_interaction}
use materials_screening_agen.Gateway.Service.Admitting.{admit-Admitted, commit-found}
use materials_screening_agen.Gateway.Service.Calls.{ServiceOp, serve_all}
use materials_screening_agen.Gateway.Service.Sparing.{spares, serve_all-spares}
use materials_screening_agen.Gateway.Service.{
  Companion, World, Answer, Outcome, returned, contract_error, other_error, check_fresh,
  validate_transition, settle, replacement, commit, admit, acted, pending, materials_run_act,
}

abbrev Fresh : String → RunState → Type 0
Fresh previous (interaction_required i) = (interaction_id i == previous) ≡ false
Fresh previous _ = Unit {0}

module _ (h : Hashing) where
  check_fresh-Fresh :
      (previous : String) (s : RunState)
      → check_fresh h (some previous) s ≡ ok tt
      → Fresh previous s
  unfolding check_fresh
  check_fresh-Fresh previous (interaction_required i) c = ground arith
  check_fresh-Fresh previous _ c = tt

  settle-Fresh :
      (message : String) (o : Outcome) (id : String) (request : RunRequest) (previous : String)
      → Fresh previous (settle h message o id request (some previous)).state
  unfolding settle validate_transition
  settle-Fresh message (returned t) id request previous =
      elim (Check-cases (validate_transition h t id request (some previous))) [
        | inl passed ↦ rw passed (check_fresh-Fresh previous t.state (ground (arith, passed)))
        | inr (e, refused) ↦ rw refused tt
      ]
  settle-Fresh message contract_error id request previous = tt
  settle-Fresh message other_error id request previous = tt

  Fresh-pending :
      (a : Action) (s : RunState)
      → Fresh (action_interaction_id a) s
      → pending h a s ≡ err stale_interaction
  unfolding pending
  Fresh-pending a (interaction_required i) fresh = ground (
    arith,
    fresh,
    eq_iff (interaction_id i) (action_interaction_id a),
    eq_iff (action_interaction_id a) (interaction_id i),
  )
  Fresh-pending a _ fresh = refl

  outdated-materials_run_act :
      (c : Companion) (id : String) (a : Action) (w : World) (row : RunRecord)
      → find? (run_key id) w.memory.runs ≡ some row
      → Fresh (action_interaction_id a) row.state
      → materials_run_act h c id a w ≡ (err stale_interaction, w)
  unfolding materials_run_act admit get_run
  outdated-materials_run_act c id a w row found fresh =
      rw (found, Fresh-pending a row.state fresh) refl

  -- An interaction is answered once: where an action on a run succeeds, then after any submissions, changes
  -- of the grants and actions on other runs, whatever the companions answer to them, an action that
  -- names the same interaction of the run is refused as stale and changes nothing.
  pub materials_run_act-materials_run_act :
      (c d : Companion) (id : String) (a later : Action) (w w' : World) (view : RunView)
      (ops : List ServiceOp)
      → materials_run_act h c id a w ≡ (ok view, w')
      → action_interaction_id later ≡ action_interaction_id a
      → all ops (spares id) ≡ true
      → let end = serve_all h ops w' in
        materials_run_act h d id later end ≡ (err stale_interaction, end)
  unfolding materials_run_act
  materials_run_act-materials_run_act c d id a later w w' view ops done same spared =
      elim (Result-cases (admit h id a w)) [
        | inr (error, refused) ↦ absurd (ground (arith, refused, done))
        | inl ((row, (i, s)), admitted) ↦
            let x = admit-Admitted h id a w row i s admitted in
            let t = acted h c row i a in
            let committed : commit h row t w.memory ≡ (ok view, w'.memory) =
              ap (λ (p : Answer RunView × World). (p.0, p.1.memory)) (rw admitted at done) in
            let found =
              subst (λ k. find? (run_key k) w'.memory.runs ≡ some (replacement h row t)) x.own
                (commit-found h row t w.memory w'.memory view committed) in
            let fresh : Fresh (interaction_id i) t.state =
              settle-Fresh "inspiration companion failed during action"
                (c.act row.run_id row.request row.state a) row.run_id row.request
                (interaction_id i) in
            unfold materials_run_act in
            outdated-materials_run_act d id later (serve_all h ops w') (replacement h row t)
              (serve_all-spares h id ops w' (replacement h row t) spared found)
              (subst (λ k. Fresh k t.state) (sym (same ∙ x.answered)) fresh)
      ]
