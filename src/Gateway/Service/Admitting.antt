-- ===== src/Gateway/Service/Admitting.antt =====
-- materials_run_act of src/material_agent/gateway/service.py, up to the companion's call: what is admitted.
use materials_screening_agen.Prelude.{
  String, ◌≡◌, sym, some, string_eq, inl, inr, Option-cases, Result-cases, ok, find?, find?-sound,
  arith, eq_iff, ap, ◌∙◌,
}
use materials_screening_agen.Gateway.Model.{
  Hashing, RunRecord, RunState, running, succeeded, partial, failed, cancelled,
  interaction_required, Interaction, Action, Transition, RunView, action_interaction_id,
  interaction_id,
}
use materials_screening_agen.Gateway.Grants.{GrantStore}
use materials_screening_agen.Gateway.Memory.{Memory, run_key, get_run, replace_run}
use materials_screening_agen.Gateway.Revisions.{replaced-found}
use materials_screening_agen.Gateway.Service.{World, replacement, commit, admit, pending}
use materials_screening_agen.Gateway.Grants.{authorize_and_consume}
use materials_screening_agen.Gateway.Service.{call_of}

module _ (h : Hashing) where
  pending-interaction :
      (a : Action) (s : RunState) (i : Interaction)
      → pending h a s ≡ ok i
      → (s ≡ interaction_required i) × (action_interaction_id a ≡ interaction_id i)
  unfolding pending
  pending-interaction a (interaction_required j) i e =
      (ground (arith, e), ground (arith, e, eq_iff (action_interaction_id a) (interaction_id j)))
  pending-interaction a (running _ _) i e = absurd (ground (arith, e))
  pending-interaction a (succeeded _ _ _) i e = absurd (ground (arith, e))
  pending-interaction a (partial _ _ _ _) i e = absurd (ground (arith, e))
  pending-interaction a (failed _ _ _) i e = absurd (ground (arith, e))
  pending-interaction a (cancelled _) i e = absurd (ground (arith, e))

  -- What stands where the companion is called.
  pub record Admitted (id : String) (a : Action) (w : World) (row : RunRecord) (i : Interaction)
      (s : GrantStore) : Type 0 where
    pub found : find? (run_key id) w.memory.runs ≡ some row
    pub own : row.run_id ≡ id
    pub waiting : row.state ≡ interaction_required i
    pub answered : action_interaction_id a ≡ interaction_id i
    pub consumed : authorize_and_consume h (call_of h row i a) w.grants ≡ ok s

  pub admit-Admitted :
      (id : String) (a : Action) (w : World) (row : RunRecord) (i : Interaction) (s : GrantStore)
      → admit h id a w ≡ ok (row, (i, s))
      → Admitted id a w row i s
  unfolding admit get_run
  admit-Admitted id a w row i s e = elim (Option-cases (find? (run_key id) w.memory.runs)) [
    | inl missing ↦ absurd (ground (arith, missing, e))
    | inr (r, there) ↦ elim (Result-cases (pending h a r.state)) [
      | inr (error, refused) ↦ absurd (ground (arith, there, refused, e))
      | inl (j, stands) ↦ elim (Result-cases (authorize_and_consume h (call_of h r j a) w.grants)) [
        | inr (error, denied) ↦ absurd (ground (arith, there, stands, denied, e))
        | inl (s', allowed) ↦
            let same_row : r ≡ row = ground (arith, there, stands, allowed, e) in
            let same_interaction : j ≡ i = ground (arith, there, stands, allowed, e) in
            let (waits, named) = pending-interaction a r.state j stands in
            record {
              found = ground (arith, there, same_row);
              own = ground (
                arith,
                same_row,
                eq_iff r.run_id id,
                find?-sound (run_key id) w.memory.runs there,
              );
              waiting =
                  ap (λ (q : RunRecord). q.state) (sym same_row)
                  ∙ waits
                  ∙ ap interaction_required same_interaction;
              answered = named ∙ ap interaction_id same_interaction;
              consumed =
                  rw (sym same_row, sym same_interaction, allowed)
                    (ground (arith, there, stands, allowed, e));
            }
      ]
    ]
  ]

  -- What a commit that succeeds leaves.
  pub commit-found :
      (row : RunRecord) (t : Transition) (m m' : Memory) (view : RunView)
      → commit h row t m ≡ (ok view, m')
      → find? (run_key row.run_id) m'.runs ≡ some (replacement h row t)
  unfolding commit
  commit-found row t m m' view e =
      elim (Result-cases (replace_run h (replacement h row t) row.revision t.result m)) [
        | inr (error, refused) ↦ absurd (ground (arith, refused, e))
        | inl (n, done) ↦
            (replaced-found h (replacement h row t) row.revision t.result m m'
              (ground (arith, done, e))).0
      ]
