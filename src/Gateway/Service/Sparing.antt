-- ===== src/Gateway/Service/Sparing.antt =====
-- The calls of MaterialsGatewayService (src/material_agent/gateway/service.py) that leave a run alone.
use materials_screening_agen.Prelude.{
  ℕ, Option, String, ◌≡◌, sym, ap, ◌∙◌, Bool, true, false, not, some, List, [], ◌∷◌, ◌==◌, all,
  string_eq, inl, inr, Option-cases, Bool-cases, Check-cases, Result-cases, ok, find?, find?-append,
  arith, eq_iff, subst,
}
use materials_screening_agen.Gateway.Model.{
  ResultRecord, Hashing, RunRequest, RunRecord, Action, Transition,
}
use materials_screening_agen.Gateway.Memory.{
  Memory, run_key, result_key, create_or_get, replace_run, check_replacement,
}
use materials_screening_agen.Gateway.Repository.{replace, find?-store_run}
use materials_screening_agen.Gateway.Results.{step}
use materials_screening_agen.Gateway.Service.{
  Companion, World, replacement, commit, initial, started, submitted, materials_inspiration_run,
  admit, acted, materials_run_act,
}
use materials_screening_agen.Gateway.Service.Admitting.{admit-Admitted}
use materials_screening_agen.Gateway.Service.Calls.{
  ServiceOp, submit, act, set_grants, serve, serve_all, commit-memory, create_or_get-new,
}

-- A call that is no action on the run.
abbrev pub spares : String → ServiceOp → Bool
spares id (act c other a) = not (other == id)
spares id _ = true

module _ (h : Hashing) where
  replace-other :
      (id : String) (new : RunRecord) (e : ℕ) (result : Option ResultRecord) (m : Memory)
      → (new.run_id == id) ≡ false
      → find? (run_key id) (step h (replace new e result) m).runs ≡ find? (run_key id) m.runs
  unfolding step replace_run
  replace-other id new e result m other = elim (Option-cases (find? (run_key new.run_id) m.runs)) [
    | inl missing ↦ ground (arith, missing)
    | inr (current, there) ↦
        elim (Check-cases
          (check_replacement h new e result current (find? (result_key new.run_id) m.results))) [
            | inr (error, refused) ↦ ground (arith, there, refused)
            | inl passed ↦
                ground (arith, there, passed, other, find?-store_run id new current m.runs there)
          ]
  ]

  commit-other :
      (id : String) (r : RunRecord) (t : Transition) (m : Memory)
      → (r.run_id == id) ≡ false
      → find? (run_key id) (commit h r t m).1.runs ≡ find? (run_key id) m.runs
  commit-other id r t m other =
      rw (commit-memory h r t m) (replace-other id (replacement h r t) r.revision t.result m other)

  -- A record that is created leaves the others where they are.
  create_or_get-kept :
      (id : String) (new : RunRecord) (x : RunRecord × Bool) (m m' : Memory) (row : RunRecord)
      → find? (run_key id) m.runs ≡ some row
      → create_or_get new m ≡ ok (x, m')
      → find? (run_key id) m'.runs ≡ some row
  unfolding create_or_get
  create_or_get-kept id new x m m' row found e =
      ground (arith, found, e, find?-append (run_key id) m.runs (new ∷ []))

  create_or_get-other :
      (id : String) (new : RunRecord) (m m' : Memory) (row : RunRecord)
      → find? (run_key id) m.runs ≡ some row
      → create_or_get new m ≡ ok ((new, true), m')
      → (new.run_id == id) ≡ false
  unfolding create_or_get
  create_or_get-other id new m m' row found e = elim (Bool-cases (new.run_id == id)) [
    | inr other ↦ other
    | inl here ↦
        let there =
          subst (λ k. find? (run_key k) m.runs ≡ some row) (sym ((eq_iff new.run_id id).0 here))
            found in
        absurd (ground (arith, there, e))
  ]

  submit-spares :
      (c : Companion) (request : RunRequest) (id : String) (m : Memory) (row : RunRecord)
      → find? (run_key id) m.runs ≡ some row
      → find? (run_key id) (submitted h c request m (create_or_get (initial h request) m)).1.runs
        ≡ some row
  submit-spares c request id m row found =
      elim (Result-cases (create_or_get (initial h request) m)) [
        | inr (e, refused) ↦ rw refused found
        | inl (((p, false), m'), old) ↦
            let kept = create_or_get-kept id (initial h request) (p, false) m m' row found old in
            rw old (ground (arith, kept))
        | inl (((p, true), m'), new) ↦
            let own = create_or_get-new h (initial h request) p m m' new in
            let made =
              subst (λ q. create_or_get (initial h request) m ≡ ok ((q, true), m')) own new in
            rw made (
              commit-other id (initial h request) (started h c request) m'
                (create_or_get-other id (initial h request) m m' row found made)
              ∙ create_or_get-kept id (initial h request) (initial h request, true) m m' row found
                  made)
      ]

  act-spares :
      (c : Companion) (other : String) (a : Action) (id : String) (w : World) (row : RunRecord)
      → (other == id) ≡ false
      → find? (run_key id) w.memory.runs ≡ some row
      → find? (run_key id) (materials_run_act h c other a w).1.memory.runs ≡ some row
  unfolding materials_run_act
  act-spares c other a id w row different found = elim (Result-cases (admit h other a w)) [
    | inr (e, refused) ↦ rw refused found
    | inl ((r, (i, s)), admitted) ↦
        let x = admit-Admitted h other a w r i s admitted in
        let apart : (r.run_id == id) ≡ false = ap (λ k. k == id) x.own ∙ different in
        rw admitted (commit-other id r (acted h c r i a) w.memory apart ∙ found)
  ]

  serve-spares :
      (id : String) (o : ServiceOp) (w : World) (row : RunRecord)
      → spares id o ≡ true
      → find? (run_key id) w.memory.runs ≡ some row
      → find? (run_key id) (serve h o w).memory.runs ≡ some row
  unfolding materials_inspiration_run
  serve-spares id (submit c request) w row s found = submit-spares c request id w.memory row found
  serve-spares id (act c other a) w row s found =
      act-spares c other a id w row (ground (arith, s)) found
  serve-spares id (set_grants g) w row s found = found

  pub serve_all-spares :
      (id : String) (ops : List ServiceOp) (w : World) (row : RunRecord)
      → all ops (spares id) ≡ true
      → find? (run_key id) w.memory.runs ≡ some row
      → find? (run_key id) (serve_all h ops w).memory.runs ≡ some row
  unfolding serve_all
  serve_all-spares id [] w row s found = found
  serve_all-spares id (o ∷ ops) w row s found =
      serve_all-spares id ops (serve h o w) row (ground (arith, s))
        (serve-spares id o w row (ground (arith, s)) found)
