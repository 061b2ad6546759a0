-- ===== src/Gateway/Service/Committing.antt =====
-- materials_run_act of src/material_agent/gateway/service.py: what is admitted is committed.
use materials_screening_agen.Prelude.{
  count_where, String, ◌+◌, ◌≡◌, refl, sym, subst, Option, none, some, List, string_eq, nat_eq, inl,
  inr, Option-cases, Check-cases, ok, find?, arith, eq_iff, str_refl, ap,
}
use materials_screening_agen.Gateway.Model.{
  Hashing, RunRecord, RunState, interaction_required, Interaction, Action, Transition, ResultRecord,
  run_view, RunView, terminal_reference, interaction_id,
}
use materials_screening_agen.Gateway.Equality.{request_eq, result_eq}
use materials_screening_agen.Gateway.Grants.{GrantStore, binding, unspent}
use materials_screening_agen.Gateway.Memory.{
  Memory, empty_memory, get_run, run_key, result_key, check_replacement, replace_run, reference_to,
}
use materials_screening_agen.Gateway.Repository.{Bound, same_reference-eq}
use materials_screening_agen.Gateway.Results.{
  run-CoherentAt, Coherent, CoherentAt, same_reference_refl,
}
use materials_screening_agen.Gateway.Service.{
  World, Companion, Outcome, returned, contract_error, other_error, check_reference, check_result,
  validate_transition, settle, replacement, commit, admit, acted, materials_run_act,
  materials_run_get, call_of, Answer,
}
use materials_screening_agen.Gateway.Service.Admitting.{admit-Admitted, commit-found}
use materials_screening_agen.Gateway.Credit.{authorize_and_consume-unspent}
use materials_screening_agen.Gateway.Service.Calls.{
  ServiceOp, serve_all, serve_all-Leads, initial_world,
}

module _ (h : Hashing) where
  abbrev with_state : RunRecord → RunState → RunRecord
  with_state row s = record row { state = s; revision = row.revision + 1 }

  Bound-check_replacement :
      (row : RunRecord) (s : RunState) (result : Option ResultRecord)
      → Bound h (with_state row s) result
      → check_replacement h (with_state row s) row.revision result row none ≡ ok tt
  unfolding check_replacement
  Bound-check_replacement row s none bound =
      ground
        (arith, bound, str_refl row.request_sha256, request_eq.equal_iff row.request row.request)
  Bound-check_replacement row s (some r) bound = ground (
    arith,
    bound,
    str_refl row.request_sha256,
    request_eq.equal_iff row.request row.request,
    eq_iff r.run_id row.run_id,
    same_reference_refl h (terminal_reference s) (reference_to h r),
  )

  -- What `_validate_transition` lets through refers to the result that it carries.
  checked-Bound :
      (row : RunRecord) (s : RunState) (result : Option ResultRecord) (previous : Option String)
      → validate_transition h
          (record { state = s; result = result })
          row.run_id
          row.request
          previous
        ≡ ok tt
      → Bound h (with_state row s) result
  unfolding validate_transition check_reference check_result
  checked-Bound row s none previous c = elim (Option-cases (terminal_reference s)) [
    | inl open_state ↦ open_state
    | inr (reference, there) ↦ absurd (ground (arith, there, c))
  ]
  checked-Bound row s (some r) previous c = elim (Option-cases (terminal_reference s)) [
    | inl open_state ↦ absurd (ground (arith, open_state, c))
    | inr (reference, there) ↦ (
      ground (arith, there, c, eq_iff r.run_id row.run_id),
      ground (arith, there, c, same_reference-eq (terminal_reference s) (reference_to h r)),
    )
  ]

  settle-Bound :
      (message : String) (o : Outcome) (row : RunRecord) (previous : Option String)
      → let t = settle h message o row.run_id row.request previous in
        Bound h (replacement h row t) t.result
  unfolding settle
  settle-Bound message (returned t) row previous =
      elim (Check-cases (validate_transition h t row.run_id row.request previous)) [
        | inl passed ↦ rw passed (checked-Bound row t.state t.result previous passed)
        | inr (e, refused) ↦ rw refused refl
      ]
  settle-Bound message contract_error row previous = refl
  settle-Bound message other_error row previous = refl

  -- A commit of a transition of the run that is stored.
  stored_commit :
      (row : RunRecord) (t : Transition) (m : Memory)
      → find? (run_key row.run_id) m.runs ≡ some row
      → find? (result_key row.run_id) m.results ≡ none
      → Bound h (replacement h row t) t.result
      → (commit h row t m).0 ≡ ok (run_view (replacement h row t))
  unfolding commit replace_run
  stored_commit row t m found missing bound =
      rw (found, missing, Bound-check_replacement row t.state t.result bound) refl

  Coherent-open :
      (row : RunRecord) (result : Option ResultRecord) (i : Interaction)
      → row.state ≡ interaction_required i
      → Coherent h (some row) result
      → result ≡ none
  Coherent-open row none i waits c = refl
  Coherent-open row (some r) i waits c = absurd (ground (arith, waits, c))

  stored-materials_run_get :
      (id : String) (w : World) (row : RunRecord)
      → find? (run_key id) w.memory.runs ≡ some row
      → materials_run_get h id w ≡ ok (run_view row)
  unfolding materials_run_get get_run
  stored-materials_run_get id w row found = rw found refl

  -- From an empty repository, and whatever the companions answer to any sequence of submissions and
  -- actions: an action that is admitted for a run that waits for it, under a grant, is answered with the
  -- state that its companion's answer settles, never with an error; that state is stored, as a read of
  -- the run afterwards shows; and the store of grants is the one that the admission left, with one
  -- unconsumed grant for this action less than before.
  pub serve_all-materials_run_act :
      (ops : List ServiceOp) (grants s : GrantStore) (c : Companion) (id : String) (a : Action)
      (row : RunRecord) (i : Interaction)
      → let w = serve_all h ops (initial_world grants) in
        let done = materials_run_act h c id a w in
        admit h id a w ≡ ok (row, (i, s))
        → let view = run_view (replacement h row (acted h c row i a)) in
          let own = unspent (binding h (call_of h row i a)) in
          (done.0 ≡ ok view)
          × (materials_run_get h id done.1 ≡ ok view)
          × (done.1.grants ≡ s)
          × (count_where own done.1.grants.grants + 1 ≡ count_where own w.grants.grants)
  unfolding materials_run_act
  serve_all-materials_run_act ops grants s c id a row i admitted =
      let w = serve_all h ops (initial_world grants) in
      let trace = serve_all-Leads h ops (initial_world grants) in
      let coherent =
        subst (CoherentAt h id) trace.leads
          (run-CoherentAt h id trace.ops empty_memory trace.opened (unfold find? in tt)) in
      let x = admit-Admitted h id a w row i s admitted in
      let missing =
        Coherent-open row (find? (result_key id) w.memory.results) i x.waiting
          (rw x.found at coherent) in
      let bound =
        settle-Bound "inspiration companion failed during action"
          (c.act row.run_id row.request row.state a) row (some (interaction_id i)) in
      let committed =
        stored_commit row (acted h c row i a) w.memory
          (subst (λ k. find? (run_key k) w.memory.runs ≡ some row) (sym x.own) x.found)
          (subst (λ k. find? (result_key k) w.memory.results ≡ none) (sym x.own) missing) bound in
      let t = acted h c row i a in
      let m = (commit h row t w.memory).1 in
      let found =
        subst (λ k. find? (run_key k) m.runs ≡ some (replacement h row t)) x.own
          (commit-found h row t w.memory m (run_view (replacement h row t))
            (ap (λ (x : Answer RunView). (x, m)) committed)) in
      (
        rw admitted committed,
        rw admitted (
            stored-materials_run_get id (record { memory = m; grants = s }) (replacement h row t)
              found),
        rw admitted refl,
        rw admitted (authorize_and_consume-unspent h (call_of h row i a) w.grants s x.consumed),
      )
