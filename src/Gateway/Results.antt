-- ===== src/Gateway/Results.antt =====
-- Terminal runs and their results in InMemoryGatewayRepository (src/material_agent/gateway/memory.py).
use materials_screening_agen.Prelude.{
  Check-cases, ℕ, String, ◌≡◌, subst, Bool, true, Option, none, some, List, [], ◌∷◌, ◌==◌, all,
  string_eq, inl, inr, Option-cases, Bool-cases, ok, find?, find?-append, find?-one, attempt, arith,
  eq_iff, str_refl,
}
use materials_screening_agen.Gateway.Model.{Hashing, RunRecord, ResultRecord, terminal_reference}
use materials_screening_agen.Gateway.Memory.{
  found_reference, Memory, empty_memory, run_key, result_key, create_or_get, get_run, reference_to,
  same_reference, check_replacement, replace_run, get_result, is_none,
}
use materials_screening_agen.Gateway.Repository.{
  MemoryOp, create, replace, stored, Kept, check_replacement-Bound, check_replacement-Kept,
  find?-store_result, find?-store_run,
}

module _ (h : Hashing) where
  -- A call that raises stores nothing.
  unfoldable pub step : MemoryOp → Memory → Memory
  step (create new) m = attempt m (stored (create_or_get new m))
  step (replace new e result) m = attempt m (replace_run h new e result m)

  unfoldable pub run : List MemoryOp → Memory → Memory
  run [] m = m
  run (o ∷ ops) m = run ops (step o m)

  -- A run and the result under its ID: a result exactly when the state is terminal, and bound to it.
  abbrev pub Coherent : Option RunRecord → Option ResultRecord → Type 0
  Coherent none none = Unit {0}
  Coherent none (some r) = ⊥
  Coherent (some new) none = terminal_reference new.state ≡ none
  Coherent (some new) (some r) = terminal_reference new.state ≡ some (reference_to h r)

  abbrev pub CoherentAt : String → Memory → Type 0
  CoherentAt id m = Coherent (find? (run_key id) m.runs) (find? (result_key id) m.results)

  create-CoherentAt :
      (id : String) (new : RunRecord) (m : Memory)
      → terminal_reference new.state ≡ none
      → CoherentAt id m
      → CoherentAt id (step (create new) m)
  unfolding step create_or_get
  create-CoherentAt id new m open_state c = elim (Option-cases (find? (run_key id) m.runs)) [
    | inl missing ↦ elim (Option-cases (find? (result_key id) m.results)) [
      | inl no_result ↦ ground (
        arith,
        missing,
        no_result,
        find?-append (run_key id) m.runs (new ∷ []),
        find?-one (run_key id) new,
      )
      | inr (r, found) ↦ ground (arith, missing, found)
    ]
    | inr (old, found) ↦
        ground
          (arith, found, find?-append (run_key id) m.runs (new ∷ []), find?-one (run_key id) new)
  ]

  replaced-CoherentAt :
      (id : String) (new : RunRecord) (e : ℕ) (result : Option ResultRecord) (m : Memory)
      (current : RunRecord)
      → find? (run_key new.run_id) m.runs ≡ some current
      → check_replacement h new e result current (find? (result_key new.run_id) m.results) ≡ ok tt
      → CoherentAt id m
      → CoherentAt id (step (replace new e result) m)
  unfolding step replace_run
  replaced-CoherentAt id new e none m current found c before =
      let row = find?-store_run id new current m.runs found in
      let bound =
        check_replacement-Bound h new e none current (find? (result_key new.run_id) m.results) c in
      let kept =
        check_replacement-Kept h new e none current (find? (result_key new.run_id) m.results) c in
      elim (Bool-cases (new.run_id == id)) [
        | inl here ↦
            let kept' =
              subst (λ k. Kept none (find? (result_key k) m.results))
                ((eq_iff new.run_id id).0 here) kept in
            ground (arith, found, c, row, bound, kept')
        | inr there ↦ ground (arith, found, c, row, before)
      ]
  replaced-CoherentAt id new e (some r) m current found c before =
      let row = find?-store_run id new current m.runs found in
      let result = find?-store_result h id r m.results in
      let bound =
        check_replacement-Bound h new e (some r) current (find? (result_key new.run_id) m.results)
          c in
      elim (Bool-cases (new.run_id == id)) [
        | inl here ↦
            ground (arith, found, c, row, result, bound, eq_iff r.run_id id, eq_iff new.run_id id)
        | inr there ↦
            ground (
              arith,
              found,
              c,
              row,
              result,
              bound,
              before,
              eq_iff r.run_id id,
              eq_iff new.run_id id,
            )
      ]

  replace-CoherentAt :
      (id : String) (new : RunRecord) (e : ℕ) (result : Option ResultRecord) (m : Memory)
      → CoherentAt id m
      → CoherentAt id (step (replace new e result) m)
  unfolding step replace_run
  replace-CoherentAt id new e result m before =
      elim (Option-cases (find? (run_key new.run_id) m.runs)) [
        | inl missing ↦ ground (arith, missing, before)
        | inr (current, found) ↦
            elim (Check-cases (
              check_replacement h new e result current (find? (result_key new.run_id) m.results))) [
                | inl passed ↦
                    (unfold step replace_run in
                      replaced-CoherentAt id new e result m current found passed before)
                | inr (error, refused) ↦ ground (arith, found, refused, before)
              ]
      ]

  -- The records that are created are not terminal yet.
  abbrev pub creates_open : MemoryOp → Bool
  creates_open (create new) = is_none (terminal_reference new.state)
  creates_open (replace _ _ _) = true

  step-CoherentAt :
      (id : String) (o : MemoryOp) (m : Memory)
      → creates_open o ≡ true
      → CoherentAt id m
      → CoherentAt id (step o m)
  step-CoherentAt id (create new) m open_state c = create-CoherentAt id new m (ground arith) c
  step-CoherentAt id (replace new e result) m open_state c = replace-CoherentAt id new e result m c

  pub run-CoherentAt :
      (id : String) (ops : List MemoryOp) (m : Memory)
      → all ops creates_open ≡ true
      → CoherentAt id m
      → CoherentAt id (run ops m)
  unfolding run
  run-CoherentAt id [] m opened c = c
  run-CoherentAt id (o ∷ ops) m opened c =
      run-CoherentAt id ops (step o m) (ground arith) (step-CoherentAt id o m (ground arith) c)

  pub same_reference_refl :
      (a : Option (String × String × String)) (b : String × String × String)
      → a ≡ some b
      → same_reference a b ≡ true
  same_reference_refl none b e = ground arith
  same_reference_refl (some a) b e = ground (
    arith,
    str_refl b.0,
    str_refl b.1,
    str_refl b.2,
    eq_iff a.0 b.0,
    eq_iff a.1 b.1,
    eq_iff a.2 b.2,
  )

  Coherent-get_result :
      (id : String) (m : Memory)
      → CoherentAt id m
      → (get_result h id m ≡ ok (find? (result_key id) m.results))
        × (is_none (find? (result_key id) m.results) ≡ is_none (found_reference h (get_run id m)))
  unfolding get_result get_run
  Coherent-get_result id m c = elim (Option-cases (find? (run_key id) m.runs)) [
    | inl missing ↦ elim (Option-cases (find? (result_key id) m.results)) [
      | inl no_result ↦ (ground (arith, no_result), ground (arith, missing, no_result))
      | inr (x, stored_result) ↦ absurd (ground (arith, missing, stored_result, c))
    ]
    | inr (old, found) ↦ elim (Option-cases (find? (result_key id) m.results)) [
      | inl no_result ↦ (ground (arith, no_result), ground (arith, found, no_result, c))
      | inr (x, stored_result) ↦ (
        ground (
          arith,
          found,
          stored_result,
          c,
          same_reference_refl (terminal_reference old.state) (reference_to h x),
        ),
        ground (arith, found, stored_result, c),
      )
    ]
  ]

  -- From an empty repository, and whatever calls follow of which some are refused, provided that no
  -- record is created in a terminal state: a result is stored for a run exactly when its state is
  -- terminal, and reading a result never fails its integrity check.
  pub run-get_result :
      (ops : List MemoryOp) (id : String)
      → all ops creates_open ≡ true
      → let m = run ops empty_memory in
        (get_result h id m ≡ ok (find? (result_key id) m.results))
        × (is_none (find? (result_key id) m.results) ≡ is_none (found_reference h (get_run id m)))
  unfolding find?
  run-get_result ops id opened =
      Coherent-get_result id (run ops empty_memory) (run-CoherentAt id ops empty_memory opened tt)
