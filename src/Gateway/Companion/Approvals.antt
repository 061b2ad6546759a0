-- ===== src/Gateway/Companion/Approvals.antt =====
-- When OfflineInspirationCompanionAdapter (src/material_agent/gateway/companion.py) runs its runner.
use materials_screening_agen.Prelude.{
  String, ◌≡◌, refl, sym, subst, some, List, ◌==◌, Bool-cases, map, string_eq, inl, inr,
  Check-cases, Result-cases, ok, All-find?, arith, eq_iff, ap, ◌∙◌,
}
use materials_screening_agen.Gateway.Model.{
  Hashing, RunRequest, RunRecord, interaction_required, Interaction, approval, requirement_freeze,
  interaction_id, Action, answer, approve, reject, resume, retry, cancel,
}
use materials_screening_agen.Gateway.Grants.{GrantStore}
use materials_screening_agen.Gateway.Memory.{run_key}
use materials_screening_agen.Gateway.Service.{admit}
use materials_screening_agen.Gateway.Service.Admitting.{admit-Admitted}
use materials_screening_agen.Gateway.Service.Calls.{serve_all, initial_world}
use materials_screening_agen.Gateway.Companion.{
  Canonical, Adapter, Prepared, decide, course, frozen, prepared_input, execution_manifest_sha256,
  check_manifest, check_prepared, runner_input, companion_interaction_id,
  prepared_execution_manifest_sha256, validate_run_identity,
}
use materials_screening_agen.Gateway.Companion.Freezing.{
  OfflineOp, service_op, Frozen, RowFrozen, serve_all-Frozen,
}

module _ (h : Hashing) (j : Canonical) where
  -- What the runner is run with is what was approved.
  pub record Approved (c : Adapter) (id : String) (request : RunRequest) (i : Interaction)
      (a : Action) (p : Prepared) : Type 0 where
    pub approving : a ≡ approve (interaction_id i)
    pub prompt : String
    pub manifest :
        i
        ≡ approval
            (interaction_id i)
            requirement_freeze
            prompt
            (prepared_execution_manifest_sha256 h j request p c.execution_components)
    pub prepared : c.prepare id request ≡ ok p
    pub own : p.inspiration_input.run_id ≡ id

  frozen-Approved :
      (c : Adapter) (id k prompt manifest : String) (request : RunRequest) (p : Prepared)
      → frozen h j c id request (some manifest) ≡ ok p
      → Approved c id request (approval k requirement_freeze prompt manifest) (approve k) p
  unfolding frozen prepared_input check_manifest execution_manifest_sha256
  frozen-Approved c id k prompt manifest request p e = elim (Result-cases (c.prepare id request)) [
    | inr (x, raised) ↦ absurd (ground (arith, raised, e))
    | inl (q, answered) ↦ elim (Check-cases (check_prepared q)) [
      | inr (x, refused) ↦ absurd (ground (arith, answered, refused, e))
      | inl formed ↦
          let same : q ≡ p = ground (arith, answered, formed, e) in
          let hashed : prepared_execution_manifest_sha256 h j request q c.execution_components
              ≡ manifest =
            ground (
              arith,
              answered,
              formed,
              e,
              eq_iff (prepared_execution_manifest_sha256 h j request q c.execution_components)
                  manifest,
            ) in
          record {
            approving = refl;
            prompt = prompt;
            manifest = ap (approval k requirement_freeze prompt) (
                sym hashed
                ∙ ap
                    (λ (x : Prepared).
                      prepared_execution_manifest_sha256 h j request x c.execution_components)
                    same);
            prepared = answered ∙ ap ok same;
            own =
                ap (λ (x : Prepared). x.inspiration_input.run_id) (sym same)
                ∙ ground (arith, answered, formed, e, eq_iff q.inspiration_input.run_id id);
          }
    ]
  ]

  approve-Approved :
      (c : Adapter) (id k prompt manifest named : String) (request : RunRequest) (p : Prepared)
      → runner_input h j c id request
          (interaction_required (approval k requirement_freeze prompt manifest))
          (approve named)
        ≡ some p
      → Approved c id request (approval k requirement_freeze prompt manifest) (approve named) p
  unfolding runner_input course decide
  approve-Approved c id k prompt manifest named request p e =
      elim (Check-cases (validate_run_identity h j id request)) [
        | inr (x, refused) ↦ absurd (ground (arith, refused, e))
        | inl identified ↦ elim (Bool-cases (named == k)) [
          | inr stale ↦ absurd (ground (arith, identified, stale, e))
          | inl here ↦
              let same : named ≡ k = (eq_iff named k).0 here in
              elim (Result-cases (frozen h j c id request (some manifest))) [
                | inr (x, refused) ↦ absurd (ground (arith, identified, here, refused, e))
                | inl (q, ready) ↦
                    let input : q ≡ p = ground (arith, identified, here, ready, e) in
                    subst
                      (λ n.
                        Approved c id request (approval k requirement_freeze prompt manifest)
                          (approve n) p)
                      (sym same)
                      (frozen-Approved c id k prompt manifest request p (ready ∙ ap ok input))
              ]
        ]
      ]

  input-Approved :
      (c : Adapter) (id k prompt manifest : String) (request : RunRequest) (a : Action)
      (p : Prepared)
      → runner_input h j c id request
          (interaction_required (approval k requirement_freeze prompt manifest))
          a
        ≡ some p
      → Approved c id request (approval k requirement_freeze prompt manifest) a p
  unfolding runner_input course decide
  input-Approved c id k prompt manifest request (approve named) p e =
      approve-Approved c id k prompt manifest named request p e
  input-Approved c id k prompt manifest request (cancel named) p e = absurd (ground (arith, e))
  input-Approved c id k prompt manifest request (reject named why) p e = absurd (ground (arith, e))
  input-Approved c id k prompt manifest request (answer named why) p e = absurd (ground (arith, e))
  input-Approved c id k prompt manifest request (resume named) p e = absurd (ground (arith, e))
  input-Approved c id k prompt manifest request (retry named) p e = absurd (ground (arith, e))

  -- From an empty repository, and whatever preparers, runners and projectors the offline companions of
  -- any calls have: where the service has admitted an action for a run, and the offline companion runs
  -- its runner, the action is an approval; what waited for it is the requirement freeze of the run;
  -- the input of the runner is what the preparer gives for the run and its request, names the run, and
  -- its execution manifest has the hash that was put up for approval.
  pub serve_all-runner_input :
      (ops : List OfflineOp) (grants s : GrantStore) (c : Adapter) (id : String) (a : Action)
      (row : RunRecord) (i : Interaction) (p : Prepared)
      → admit h id a (serve_all h (map (service_op h j) ops) (initial_world grants))
        ≡ ok (row, (i, s))
      → runner_input h j c row.run_id row.request row.state a ≡ some p
      → Approved c id row.request i a p
  serve_all-runner_input ops grants s c id a row i p admitted ran =
      let w = serve_all h (map (service_op h j) ops) (initial_world grants) in
      let x = admit-Admitted h id a w row i s admitted in
      let kept : RowFrozen h j row =
        All-find? (RowFrozen h j) (run_key id) w.memory.runs
          (serve_all-Frozen h j ops (initial_world grants) tt) x.found in
      let (prompt, manifest, same) = subst (Frozen h j row.run_id) x.waiting kept in
      let input : Approved c row.run_id row.request i a p =
        subst (λ n. Approved c row.run_id row.request n a p) (sym same)
          (input-Approved c row.run_id (companion_interaction_id h j row.run_id manifest) prompt
            manifest row.request a p
            (subst (λ n. runner_input h j c row.run_id row.request n a ≡ some p)
              (x.waiting ∙ ap interaction_required same) ran)) in
      subst (λ k. Approved c k row.request i a p) x.own input
