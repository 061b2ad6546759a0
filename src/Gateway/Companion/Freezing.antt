-- ===== src/Gateway/Companion/Freezing.antt =====
-- What a run of OfflineInspirationCompanionAdapter (src/material_agent/gateway/companion.py) waits for.
use materials_screening_agen.Prelude.{
  String, ◌≡◌, refl, sym, subst, Bool, true, false, Option, none, some, List, [], ◌∷◌, ◌++◌, ◌==◌,
  Bool-cases, map, string_eq, inl, inr, Result, Check-cases, Result-cases, Option-cases, ok, err,
  find?, All, All-append, All-update, arith,
}
use materials_screening_agen.Gateway.Model.{
  Hashing, inspiration_request_sha256, RunRequest, RunRecord, RunState, interaction_required,
  Interaction, approval, requirement_freeze, interaction_id, Action, Transition,
}
use materials_screening_agen.Gateway.Grants.{GrantStore}
use materials_screening_agen.Gateway.Memory.{
  result_key, Memory, run_key, indexed_run, create_or_get, replace_run, check_replacement,
}
use materials_screening_agen.Gateway.Service.{
  World, Answer, settle, validate_transition, replacement, commit, initial, submitted, started,
  materials_inspiration_run, admit, acted, acted_on, materials_run_act,
}
use materials_screening_agen.Gateway.Service.Calls.{
  create_or_get-new, ServiceOp, submit, act as act_op, set_grants, serve, serve_all,
}
use materials_screening_agen.Gateway.Companion.{
  Canonical, Adapter, CompanionError, contract, other, act, start, outcome, offline, prepared_input,
  execution_manifest_sha256, companion_interaction_id, requirement_freeze_prompt,
  validate_run_identity,
}
use materials_screening_agen.Gateway.Companion.Outcomes.{ended, act-Ends}
use materials_screening_agen.Gateway.Companion.Settling.{Ends-ended}

-- Calls of a service with offline companions, which may be given other parts at each call.
pub data OfflineOp : Type 0 where
  submitting : Adapter → RunRequest → OfflineOp
  acting : Adapter → String → Action → OfflineOp
  granting : GrantStore → OfflineOp

module _ (h : Hashing) (j : Canonical) where
  abbrev pub service_op : OfflineOp → ServiceOp
  service_op (submitting c request) = submit (offline h j c) request
  service_op (acting c id a) = act_op (offline h j c) id a
  service_op (granting s) = set_grants s

  -- What a run of an offline companion waits for: the approval of a manifest.
  abbrev pub Frozen : String → RunState → Type 0
  Frozen id (interaction_required i) =
      (prompt : String) × (manifest : String) × (i
        ≡ approval (companion_interaction_id h j id manifest) requirement_freeze prompt manifest)
  Frozen id _ = Unit {0}

  abbrev pub RowFrozen : RunRecord → Type 0
  RowFrozen row = Frozen row.run_id row.state

  ended-Frozen : (id : String) (s : RunState) → ended s ≡ true → Frozen id s
  ended-Frozen id (interaction_required i) e = absurd (ground (arith, e))
  ended-Frozen id _ e = tt

  start-Frozen :
      (c : Adapter) (id : String) (request : RunRequest) (t : Transition)
      → start h j c id request ≡ ok t
      → Frozen id t.state
  unfolding start
  start-Frozen c id request t e = elim (Check-cases (validate_run_identity h j id request)) [
    | inr (x, refused) ↦ absurd (ground (arith, refused, e))
    | inl named ↦ elim (Result-cases (prepared_input h j c id request)) [
      | inr (x, raised) ↦ absurd (ground (arith, named, raised, e))
      | inl (p, prepared) ↦ elim (Result-cases (execution_manifest_sha256 h j c request p)) [
        | inr (x, raised) ↦ absurd (ground (arith, named, prepared, raised, e))
        | inl (manifest, hashed) ↦
            let made : Transition = record {
              state = interaction_required (
                  approval (companion_interaction_id h j id manifest) requirement_freeze
                    (requirement_freeze_prompt h j request p) manifest);
              result = none;
            } in
            let same : made ≡ t = ground (arith, named, prepared, hashed, e) in
            subst (λ (u : Transition). Frozen id u.state) same
              (requirement_freeze_prompt h j request p, manifest, refl)
      ]
    ]
  ]

  settle-Frozen :
      (message id : String) (request : RunRequest) (previous : Option String)
      (x : Result CompanionError Transition)
      → ((t : Transition) → x ≡ ok t → Frozen id t.state)
      → Frozen id (settle h message (outcome x) id request previous).state
  unfolding settle
  settle-Frozen message id request previous (ok t) e =
      elim (Check-cases (validate_transition h t id request previous)) [
        | inl passed ↦ rw passed (e t refl)
        | inr (y, refused) ↦ rw refused tt
      ]
  settle-Frozen message id request previous (err contract) e = tt
  settle-Frozen message id request previous (err other) e = tt

  commit-Frozen :
      (row : RunRecord) (t : Transition) (m : Memory)
      → Frozen row.run_id t.state
      → All RowFrozen m.runs
      → All RowFrozen (commit h row t m).1.runs
  unfolding commit replace_run
  commit-Frozen row t m now before = elim (Option-cases (find? (run_key row.run_id) m.runs)) [
    | inl missing ↦ rw missing before
    | inr (current, found) ↦
        elim (Check-cases (
          check_replacement h (replacement h row t) row.revision t.result current
            (find? (result_key row.run_id) m.results))) [
              | inl passed ↦
                  rw (found, passed)
                    (All-update RowFrozen (run_key row.run_id) (λ _. replacement h row t) m.runs
                      before (λ _. now))
              | inr (y, refused) ↦ rw (found, refused) before
            ]
  ]

  create_or_get-Frozen :
      (new : RunRecord) (x : RunRecord × Bool) (m m' : Memory)
      → RowFrozen new
      → create_or_get new m ≡ ok (x, m')
      → All RowFrozen m.runs
      → All RowFrozen m'.runs
  unfolding create_or_get
  create_or_get-Frozen new x m m' now e before =
      elim (Option-cases (indexed_run new.request.submission_id m.submission_index)) [
        | inr (id, known) ↦ elim (Option-cases (find? (run_key id) m.runs)) [
          | inl missing ↦ absurd (ground (arith, known, missing, e))
          | inr (old, there) ↦
              let same : m ≡ m' = ground (arith, known, there, e) in
              subst (λ (n : Memory). All RowFrozen n.runs) same before
        ]
        | inl unknown ↦ elim (Option-cases (find? (run_key new.run_id) m.runs)) [
          | inr (old, there) ↦
              let same : m ≡ m' = ground (arith, unknown, there, e) in
              subst (λ (n : Memory). All RowFrozen n.runs) same before
          | inl missing ↦
              let grown : Memory = record m {
                runs = m.runs ++ new ∷ [];
                submission_index =
                    m.submission_index ++ (new.request.submission_id, new.run_id) ∷ [];
              } in
              let same : grown ≡ m' = ground (arith, unknown, missing, e) in
              subst (λ (n : Memory). All RowFrozen n.runs) same
                (All-append RowFrozen m.runs (new ∷ []) before (now, tt))
        ]
      ]

  submit-Frozen :
      (c : Adapter) (request : RunRequest) (m : Memory)
      → All RowFrozen m.runs
      → All RowFrozen
          (submitted h (offline h j c) request m (create_or_get (initial h request) m)).1.runs
  submit-Frozen c request m before = elim (Result-cases (create_or_get (initial h request) m)) [
    | inr (e, refused) ↦ rw refused before
    | inl (((p, false), m'), old) ↦
        let kept = create_or_get-Frozen (initial h request) (p, false) m m' tt old before in
        rw old (elim (Bool-cases (p.request_sha256 == inspiration_request_sha256 h request)) [
          | inl same ↦ rw same kept
          | inr differs ↦ rw differs kept
        ])
    | inl (((p, true), m'), new) ↦
        let kept = create_or_get-Frozen (initial h request) (p, true) m m' tt new before in
        let own = create_or_get-new h (initial h request) p m m' new in
        let t = started h (offline h j c) request in
        let now =
          settle-Frozen "inspiration companion failed during start" (initial h request).run_id
            request none (start h j c (initial h request).run_id request)
            (start-Frozen c (initial h request).run_id request) in
        rw new (
          commit-Frozen p t m' (subst (λ (q : RunRecord). Frozen q.run_id t.state) (sym own) now)
            kept)
  ]

  act-Frozen :
      (c : Adapter) (a : Action) (w : World)
      (admitted : Answer (RunRecord × (Interaction × GrantStore)))
      → All RowFrozen w.memory.runs
      → All RowFrozen (acted_on h (offline h j c) a w admitted).1.memory.runs
  act-Frozen c a w (err e) before = before
  act-Frozen c a w (ok (row, (i, s))) before =
      let now =
        settle-Frozen "inspiration companion failed during action" row.run_id row.request
          (some (interaction_id i)) (act h j c row.run_id row.request row.state a)
          (λ t e. ended-Frozen row.run_id t.state (
            Ends-ended h j c row.run_id t
              (act-Ends h j c row.run_id row.request row.state a t e))) in
      commit-Frozen row (acted h (offline h j c) row i a) w.memory now before

  pub serve_all-Frozen :
      (ops : List OfflineOp) (w : World)
      → All RowFrozen w.memory.runs
      → All RowFrozen (serve_all h (map service_op ops) w).memory.runs
  unfolding serve_all materials_inspiration_run materials_run_act
  serve_all-Frozen [] w before = before
  serve_all-Frozen (submitting c request ∷ ops) w before =
      serve_all-Frozen ops (serve h (submit (offline h j c) request) w)
        (submit-Frozen c request w.memory before)
  serve_all-Frozen (acting c id a ∷ ops) w before =
      serve_all-Frozen ops (serve h (act_op (offline h j c) id a) w)
        (act-Frozen c a w (admit h id a w) before)
  serve_all-Frozen (granting s ∷ ops) w before =
      serve_all-Frozen ops (record w { grants = s }) before
