-- ===== src/Gateway/Service/Calls.antt =====
-- The calls of MaterialsGatewayService (src/material_agent/gateway/service.py) as calls of its repository.
use materials_screening_agen.Prelude.{
  String, ◌≡◌, refl, sym, subst, Bool, true, false, none, some, List, [], ◌∷◌, ◌++◌, ◌&&◌, all,
  string_eq, ◌⊎◌, inl, inr, Option-cases, find?, ok, err, arith, ◌∙◌, ap,
}
use materials_screening_agen.Gateway.Model.{
  Hashing, RunRequest, Action, Interaction, Transition, RunRecord, interaction_id,
}
use materials_screening_agen.Gateway.Grants.{GrantStore}
use materials_screening_agen.Gateway.Memory.{
  empty_memory, Memory, GatewayError, indexed_run, run_key, create_or_get, replace_run,
}
use materials_screening_agen.Gateway.Repository.{MemoryOp, create, replace}
use materials_screening_agen.Gateway.Results.{step, run, creates_open}
use materials_screening_agen.Gateway.Service.Budgets.{Budgeted, settle-Budgeted}
use materials_screening_agen.Gateway.Service.{
  Companion, World, Answer, replacement, commit, initial, started, submitted,
  materials_inspiration_run, admit, acted, acted_on, materials_run_act,
}

-- What the service is asked to do, and what the operator does with its grants.
pub data ServiceOp : Type 0 where
  submit : Companion → RunRequest → ServiceOp
  act : Companion → String → Action → ServiceOp
  set_grants : GrantStore → ServiceOp

abbrev pub initial_world : GrantStore → World
initial_world s = record { memory = empty_memory; grants = s }

module _ (h : Hashing) where
  abbrev pub serve : ServiceOp → World → World
  serve (submit c request) w = (materials_inspiration_run h c request w).1
  serve (act c id a) w = (materials_run_act h c id a w).1
  serve (set_grants s) w = record w { grants = s }

  unfoldable pub serve_all : List ServiceOp → World → World
  serve_all [] w = w
  serve_all (o ∷ ops) w = serve_all ops (serve o w)

  abbrev pub OpBudgeted : MemoryOp → Type 0
  OpBudgeted (create new) = Unit {0}
  OpBudgeted (replace new e result) = Budgeted new.run_id new.request result

  abbrev pub AllBudgeted : List MemoryOp → Type 0
  AllBudgeted [] = Unit {0}
  AllBudgeted (o ∷ ops) = OpBudgeted o × AllBudgeted ops

  -- Calls of the repository that lead from one memory to another.
  pub record Leads (m m' : Memory) : Type 0 where
    pub ops : List MemoryOp
    pub opened : all ops (creates_open h) ≡ true
    pub budgeted : AllBudgeted ops
    pub leads : run h ops m ≡ m'

  pub commit-memory :
      (r : RunRecord) (t : Transition) (m : Memory)
      → (commit h r t m).1 ≡ step h (replace (replacement h r t) r.revision t.result) m
  unfolding commit step
  commit-memory r t m = elim (replaced (replace_run h (replacement h r t) r.revision t.result m)) [
    | inl (m', done) ↦ ground (arith, done)
    | inr (e, refused) ↦ ground (arith, refused)
  ]
    where
      replaced :
          (a : Answer Memory) → ((m' : Memory) × (a ≡ ok m')) ⊎ ((e : GatewayError) × (a ≡ err e))
      replaced (ok m') = inl (m', refl)
      replaced (err e) = inr (e, refl)

  -- What `create_or_get` returns as new is what it was given.
  pub create_or_get-new :
      (new p : RunRecord) (m m' : Memory) → create_or_get new m ≡ ok ((p, true), m') → p ≡ new
  unfolding create_or_get
  create_or_get-new new p m m' e =
      elim (Option-cases (indexed_run new.request.submission_id m.submission_index)) [
        | inl unknown ↦ elim (Option-cases (find? (run_key new.run_id) m.runs)) [
          | inl missing ↦ ground (arith, unknown, missing, e)
          | inr (old, there) ↦ absurd (ground (arith, unknown, there, e))
        ]
        | inr (id, known) ↦ elim (Option-cases (find? (run_key id) m.runs)) [
          | inl missing ↦ absurd (ground (arith, known, missing, e))
          | inr (old, there) ↦ absurd (ground (arith, known, there, e))
        ]
      ]

  submit-Leads :
      (c : Companion) (request : RunRequest) (m : Memory)
      → Leads m (submitted h c request m (create_or_get (initial h request) m)).1
  unfolding run step
  submit-Leads c request m = elim (creation (create_or_get (initial h request) m)) [
    | inl (e, refused) ↦ record {
      ops = create (initial h request) ∷ [];
      opened = refl;
      budgeted = (tt, tt);
      leads = ground (arith, refused);
    }
    | inr ((p, false), m', old) ↦ record {
      ops = create (initial h request) ∷ [];
      opened = refl;
      budgeted = (tt, tt);
      leads = ground (arith, old);
    }
    | inr ((p, true), m', new) ↦
        let made =
          subst (λ q. create_or_get (initial h request) m ≡ ok ((q, true), m'))
            (create_or_get-new (initial h request) p m m' new) new in
        record {
          ops =
              create (initial h request)
              ∷ replace (replacement h (initial h request) (started h c request)) 0
                  (started h c request).result
              ∷ [];
          opened = refl;
          budgeted = (
            tt,
            (
              settle-Budgeted h "inspiration companion failed during start"
                  (c.start (initial h request).run_id request) (initial h request).run_id request
                  none,
              tt,
            ),
          );
          leads = rw made (sym (commit-memory (initial h request) (started h c request) m'));
        }
  ]
    where
      creation :
          (a : Answer ((RunRecord × Bool) × Memory))
          → ((e : GatewayError) × (a ≡ err e))
            ⊎ ((x : RunRecord × Bool) × (m' : Memory) × (a ≡ ok (x, m')))
      creation (ok (x, m')) = inr (x, m', refl)
      creation (err e) = inl (e, refl)

  act-Leads :
      (c : Companion) (a : Action) (w : World)
      (admitted : Answer (RunRecord × (Interaction × GrantStore)))
      → Leads w.memory (acted_on h c a w admitted).1.memory
  unfolding run step
  act-Leads c a w (err e) = record { ops = []; opened = refl; budgeted = tt; leads = refl }
  act-Leads c a w (ok (row, (i, s))) =
      let t = acted h c row i a in
      record {
        ops = replace (replacement h row t) row.revision t.result ∷ [];
        opened = refl;
        budgeted = (
          settle-Budgeted h "inspiration companion failed during action"
              (c.act row.run_id row.request row.state a) row.run_id row.request
              (some (interaction_id i)),
          tt,
        );
        leads = sym (commit-memory row t w.memory);
      }

  serve-Leads : (o : ServiceOp) (w : World) → Leads w.memory (serve o w).memory
  unfolding materials_inspiration_run materials_run_act
  serve-Leads (submit c request) w = submit-Leads c request w.memory
  serve-Leads (act c id a) w = act-Leads c a w (admit h id a w)
  serve-Leads (set_grants s) w = record {
    ops = [];
    opened = refl;
    budgeted = tt;
    leads = unfold run in refl;
  }

  run-append :
      (xs ys : List MemoryOp) (m : Memory)
      → (run h (xs ++ ys) m ≡ run h ys (run h xs m))
        × (all (xs ++ ys) (creates_open h) ≡ (all xs (creates_open h) && all ys (creates_open h)))
        × (AllBudgeted xs → AllBudgeted ys → AllBudgeted (xs ++ ys))
  unfolding run
  run-append [] ys m = (refl, refl, λ _ b. b)
  run-append (x ∷ xs) ys m =
      let (r, o, b) = run-append xs ys (step h x m) in (r, ground (arith, o), λ p q. (p.0, b p.1 q))

  pub serve_all-Leads : (ops : List ServiceOp) (w : World) → Leads w.memory (serve_all ops w).memory
  unfolding serve_all run
  serve_all-Leads [] w = record { ops = []; opened = refl; budgeted = tt; leads = refl }
  serve_all-Leads (o ∷ ops) w =
      let first = serve-Leads o w in
      let rest = serve_all-Leads ops (serve o w) in
      let (r, open_both, b) = run-append first.ops rest.ops w.memory in
      record {
        ops = first.ops ++ rest.ops;
        opened = ground (arith, open_both, first.opened, rest.opened);
        budgeted = b first.budgeted rest.budgeted;
        leads = r ∙ ap (run h rest.ops) first.leads ∙ rest.leads;
      }
