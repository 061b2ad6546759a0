-- ===== src/Dft/Workflow/Order.antt =====
-- The order that topological_task_keys gives (src/material_agent/dft/workflows.py).
use mathlib.Core.List.{append_assoc, append-nil}
use materials_screening_agen.Prelude.{
  distinct, member, ℕ, zero, suc, String, ◌+◌, ◌≡◌, refl, sym, subst, ap, ◌∙◌, Bool, true, false,
  not, ◌&&◌, List, [], ◌∷◌, ◌++◌, length, all, select, ◌==◌, string_eq, inl, inr, Bool-cases, ok,
  sort, text_le, length-sort, length-append, arith, eq_iff, str_refl, implies, All,
}
use materials_screening_agen.Dft.Workflow.{
  Task, is_nil, without, within, keys, ready_keys, rounds, topological_task_keys, pending_task,
}
use materials_screening_agen.Dft.Workflow.Rounds.{
  view, view-nil, ready_of, rounds-ok, rounds-zero, all-member_self, length-map, advance-view,
  member-append, member-sort,
}

-- The dependencies of the tasks with key `k` are done.
abbrev pub supported : List Task → List String → String → Bool
supported ts done k = all ts (λ t. implies (t.task_key == k) (within done t.depends_on))

-- Each key of an order comes after its dependencies.
abbrev pub placed : List Task → List String → List String → Bool
placed ts done [] = true
placed ts done (k ∷ ks) = supported ts done k && placed ts (done ++ k ∷ []) ks

pub within-append : (o w ds : List String) → within o ds ≡ true → within (o ++ w) ds ≡ true
within-append o w [] h = refl
within-append o w (d ∷ ds) h = ground (arith, member-append d o w, within-append o w ds)

pub is_nil-without : (o ds : List String) → is_nil (without o ds) ≡ within o ds
unfolding select
is_nil-without o [] = refl
is_nil-without o (d ∷ ds) = ground (arith, is_nil-without o ds)

member-ready_keys :
    (k : String) (ts : List Task) (o : List String)
    → member k (keys ts) ≡ false
    → member k (ready_keys (view ts o)) ≡ false
member-ready_keys k [] o h = refl
member-ready_keys k (t ∷ ts) o h = ground (arith, member-ready_keys k ts o)

-- A task is ready where it is not ordered and its dependencies are.
abbrev IsReady : List String → List String → Task → Type 0
IsReady ready o t = member t.task_key ready ≡ (not (member t.task_key o) && within o t.depends_on)

IsReady-cons :
    (k : String) (ready o : List String) (ts : List Task)
    → member k (keys ts) ≡ false
    → All (IsReady ready o) ts
    → All (IsReady (k ∷ ready) o) ts
IsReady-cons k ready o [] h a = tt
IsReady-cons k ready o (t ∷ ts) h a = (
  ground (arith, a.0, eq_iff t.task_key k, eq_iff k t.task_key),
  IsReady-cons k ready o ts (ground arith) a.1,
)

view-IsReady :
    (ts : List Task) (o : List String)
    → distinct (keys ts) ≡ true
    → All (IsReady (ready_keys (view ts o)) o) ts
view-IsReady [] o h = tt
view-IsReady (t ∷ ts) o h =
    let rest = view-IsReady ts o (ground arith) in
    let other : member t.task_key (keys ts) ≡ false = ground arith in
    let absent = member-ready_keys t.task_key ts o other in
    let nil = is_nil-without o t.depends_on in
    let old : List String = ready_keys (view ts o) in
    elim (Bool-cases (member t.task_key o)) [
      | inl done ↦
          let same : ready_keys (view (t ∷ ts) o) ≡ old = ground (arith, done) in
          subst (λ r. All (IsReady r o) (t ∷ ts)) (sym same) (ground (arith, absent, done), rest)
      | inr left ↦ elim (Bool-cases (within o t.depends_on)) [
        | inl now ↦
            let more : ready_keys (view (t ∷ ts) o) ≡ t.task_key ∷ old =
              ground (arith, left, nil, now) in
            subst (λ r. All (IsReady r o) (t ∷ ts)) (sym more)
              (
                ground (arith, left, now, str_refl t.task_key),
                IsReady-cons t.task_key old o ts other rest,
              )
        | inr later ↦
            let same : ready_keys (view (t ∷ ts) o) ≡ old = ground (arith, left, nil, later) in
            subst (λ r. All (IsReady r o) (t ∷ ts)) (sym same)
              (ground (arith, absent, left, later), rest)
      ]
    ]

-- A rearrangement of what is ready.
IsReady-sort :
    (ts us : List Task) (o : List String)
    → All (IsReady (ready_keys (view ts o)) o) us
    → All (IsReady (sort text_le (ready_keys (view ts o))) o) us
IsReady-sort ts [] o a = tt
IsReady-sort ts (u ∷ us) o a =
    (member-sort u.task_key (ready_keys (view ts o)) ∙ a.0, IsReady-sort ts us o a.1)

module _ (ts : List Task) where
  pub placed-append :
      (d xs ys : List String) → placed ts d (xs ++ ys) ≡ (placed ts d xs && placed ts (d ++ xs) ys)
  placed-append d [] ys = rw append-nil refl
  placed-append d (x ∷ xs) ys =
      ground (arith, placed-append (d ++ x ∷ []) xs ys, append_assoc d (x ∷ []) xs)

supported-ready :
    (ready o w : List String) (k : String) (us : List Task)
    → All (IsReady ready o) us
    → member k ready ≡ true
    → supported us (o ++ w) k ≡ true
supported-ready ready o w k [] a m = refl
supported-ready ready o w k (u ∷ us) a m =
    let rest = supported-ready ready o w k us a.1 m in
    elim (Bool-cases (u.task_key == k)) [
      | inr other ↦ ground (arith, other, rest)
      | inl same ↦
          let here = subst (λ j. member j ready ≡ true) (sym ((eq_iff u.task_key k).0 same)) m in
          ground (arith, same, rest, here, a.0, within-append o w u.depends_on)
    ]

placed-ready :
    (ts : List Task) (ready o w zs : List String)
    → All (IsReady ready o) ts
    → all zs (λ k. member k ready) ≡ true
    → placed ts (o ++ w) zs ≡ true
placed-ready ts ready o w [] a m = refl
placed-ready ts ready o w (z ∷ zs) a m = ground (
  arith,
  supported-ready ready o w z ts a,
  placed-ready ts ready o (w ++ z ∷ []) zs a,
  append_assoc o w (z ∷ []),
)

-- A round takes what is ready from what is pending.
length-view :
    (ready : List String) (ts : List Task) (o : List String)
    → All (IsReady ready o) ts
    → length (ready_keys (view ts o)) + length (view ts (o ++ ready)) ≡ length (view ts o)
length-view ready [] o a = omega arith
length-view ready (t ∷ ts) o a = ground (
  arith,
  a.0,
  length-view ready ts o a.1,
  member-append t.task_key o ready,
  is_nil-without o t.depends_on,
)

view-within : (ts : List Task) (o : List String) → view ts o ≡ [] → within o (keys ts) ≡ true
view-within [] o e = refl
view-within (t ∷ ts) o e = ground (arith, view-within ts o)

module _ (ts : List Task) (unique : distinct (keys ts) ≡ true) where
  -- What stands between two rounds.
  pub record Placed (o : List String) : Type 0 where
    pub in_order : placed ts [] o ≡ true
    pub counted : length o + length (view ts o) ≡ length ts

  pending_round : (o : List String) → All (IsReady (ready_of (view ts o)) o) ts
  pending_round o = IsReady-sort ts ts o (view-IsReady ts o unique)

  pub round-Placed : (o : List String) → Placed o → Placed (o ++ ready_of (view ts o))
  round-Placed o p =
      let ready = ready_of (view ts o) in
      let now = ready_keys (view ts o) in
      let here =
        subst (λ d. placed ts d ready ≡ true) (append-nil o)
          (placed-ready ts ready o [] ready (pending_round o) (all-member_self ready)) in
      record {
        in_order = placed-append ts [] o ready ∙ rw p.in_order here;
        counted = omega (
          arith,
          p.counted,
          length-append o ready,
          length-sort text_le now,
          length-view ready ts o (pending_round o),
        );
      }

  rounds-Placed :
      (fuel : ℕ) (o r : List String)
      → Placed o
      → rounds fuel (view ts o) o ≡ ok r
      → Placed r × (view ts r ≡ [])
  rounds-Placed zero o r p e =
      let (nothing, same) = rounds-zero (view ts o) o r e in
      (subst Placed same p, subst (λ q. view ts q ≡ []) same nothing)
  rounds-Placed (suc fuel) o r p e = elim (rounds-ok fuel (view ts o) o r e) [
    | inl (nothing, same) ↦ (subst Placed same p, subst (λ q. view ts q ≡ []) same nothing)
    | inr more ↦
        let ready = ready_of (view ts o) in
        rounds-Placed fuel (o ++ ready) r (round-Placed o p)
          (subst (λ q. rounds fuel q (o ++ ready) ≡ ok r) (advance-view ready ts o) more)
  ]

  pub start-Placed : Placed []
  start-Placed = record {
    in_order = refl;
    counted = omega (arith, ap length (view-nil ts), length-map pending_task ts);
  }

  -- An order that is found for tasks with different keys is one of all the tasks: it has as many keys as
  -- there are tasks, each task's key among them, and each key stands after the keys that its task
  -- depends on.
  pub topological_task_keys-placed :
      (order : List String)
      → topological_task_keys ts ≡ ok order
      → (placed ts [] order ≡ true) × (within order (keys ts) ≡ true) × (length order ≡ length ts)
  unfolding topological_task_keys
  topological_task_keys-placed order e =
      let (p, nothing) =
        rounds-Placed (length ts) [] order start-Placed
          (subst (λ q. rounds (length ts) q [] ≡ ok order) (sym (view-nil ts)) e) in
      (p.in_order, view-within ts order nothing, omega (arith, p.counted, ap length nothing))
