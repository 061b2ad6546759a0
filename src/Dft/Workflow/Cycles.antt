-- ===== src/Dft/Workflow/Cycles.antt =====
-- Why topological_task_keys refuses a template (src/material_agent/dft/workflows.py).
use materials_screening_agen.Prelude.{
  member, ℕ, zero, suc, String, ◌≡◌, refl, sym, subst, Bool, true, false, not, ◌&&◌, ◌||◌, List, [],
  ◌∷◌, ◌++◌, length, all, ◌==◌, string_eq, inl, inr, Bool-cases, err, arith, eq_iff,
}
use materials_screening_agen.Dft.Workflow.{
  Task, cyclic, is_nil, within, keys, ready_keys, rounds, topological_task_keys,
}
use materials_screening_agen.Dft.Workflow.Rounds.{
  view, view-nil, advance-view, ready_of, rounds-cyclic, all-member_self,
}
use materials_screening_agen.Dft.Workflow.Order.{supported, placed, is_nil-without}

-- Every task is ordered, or waits for a dependency that is not.
abbrev stuck : List String → List Task → Bool
stuck o ts = all ts (λ t. member t.task_key o || not (within o t.depends_on))

view-stuck : (ts : List Task) (o : List String) → ready_keys (view ts o) ≡ [] → stuck o ts ≡ true
view-stuck [] o e = refl
view-stuck (t ∷ ts) o e = ground (arith, is_nil-without o t.depends_on, view-stuck ts o)

view-ordered : (ts : List Task) (o : List String) → within o (keys ts) ≡ true → view ts o ≡ []
view-ordered [] o h = refl
view-ordered (t ∷ ts) o h = ground (arith, view-ordered ts o)

rounds-stuck :
    (ts : List Task) (fuel : ℕ) (o : List String)
    → rounds fuel (view ts o) o ≡ err cyclic
    → (o' : List String) × (is_nil (view ts o') ≡ false) × (stuck o' ts ≡ true)
unfolding rounds
rounds-stuck ts zero o e = absurd (never (view ts o) e)
  where
    never : (p : List (String × List String)) → rounds zero p o ≡ err cyclic → ⊥
    never [] h = ground (arith, h)
    never (x ∷ p) h = ground (arith, h)
rounds-stuck ts (suc fuel) o e =
    let (some_left, why) = rounds-cyclic fuel (view ts o) o e in
    elim why [
      | inl none_ready ↦ (o, some_left, view-stuck ts o none_ready)
      | inr more ↦
          let ready = ready_of (view ts o) in
          rounds-stuck ts fuel (o ++ ready)
            (subst (λ p. rounds fuel p (o ++ ready) ≡ err cyclic) (advance-view ready ts o) more)
    ]

all-member :
    (p : String → Bool) (d : String) (xs : List String)
    → all xs p ≡ true
    → member d xs ≡ true
    → p d ≡ true
all-member p d [] h m = absurd (ground arith)
all-member p d (x ∷ xs) h m = elim (Bool-cases (x == d)) [
  | inl same ↦ subst (λ k. p k ≡ true) ((eq_iff x d).0 same) (ground arith)
  | inr other ↦ all-member p d xs (ground arith) (ground (arith, other))
]

module _ (ks o : List String) where
  -- `k` is no pending key.
  abbrev settled : String → Bool
  settled k = member k o || not (member k ks)

  settled-within :
      (done ds : List String)
      → all done settled ≡ true
      → within done ds ≡ true
      → within ks ds ≡ true
      → within o ds ≡ true
  settled-within done [] s h k = refl
  settled-within done (d ∷ ds) s h k =
      ground (arith, all-member settled d done, settled-within done ds)

  supported-settled :
      (done : List String) (k : String) (us : List Task)
      → all done settled ≡ true
      → stuck o us ≡ true
      → all us (λ t. within ks t.depends_on) ≡ true
      → supported us done k ≡ true
      → member k (keys us) ≡ true
      → member k o ≡ true
  supported-settled done k [] s st known sup m = absurd (ground arith)
  supported-settled done k (u ∷ us) s st known sup m = elim (Bool-cases (u.task_key == k)) [
    | inr other ↦
        supported-settled done k us s (ground arith) (ground arith) (ground arith)
          (ground (arith, other))
    | inl same ↦
        let here : within o u.depends_on ≡ true =
          ground (arith, same, settled-within done u.depends_on) in
        subst (λ j. member j o ≡ true) ((eq_iff u.task_key k).0 same) (ground (arith, here))
  ]

  all-append_one :
      (p : String → Bool) (xs : List String) (x : String)
      → all xs p ≡ true
      → p x ≡ true
      → all (xs ++ x ∷ []) p ≡ true
  all-append_one p [] x h k = ground arith
  all-append_one p (y ∷ xs) x h k = ground (arith, all-append_one p xs x)

module _ (ts : List Task) (o : List String) (st : stuck o ts ≡ true)
    (known : all ts (λ t. within (keys ts) t.depends_on) ≡ true) where
  placed-settled :
      (done order : List String)
      → all done (settled (keys ts) o) ≡ true
      → placed ts done order ≡ true
      → all order (settled (keys ts) o) ≡ true
  placed-settled done [] s p = refl
  placed-settled done (k ∷ order) s p =
      let here : settled (keys ts) o k ≡ true = elim (Bool-cases (member k (keys ts))) [
        | inl task ↦
            let now = supported-settled (keys ts) o done k ts s st known (ground arith) task in
            ground (arith, now)
        | inr foreign ↦ ground (arith, foreign)
      ] in
      let rest =
        placed-settled (done ++ k ∷ []) order
          (all-append_one (keys ts) o (settled (keys ts) o) done k s here) (ground arith) in
      ground (arith, here, rest)

-- What is refused as cyclic has no order: where every dependency is the key of a task, and no task is
-- ready at some point, there is no list of keys that has each task's key and in which each
-- key stands after the keys that its task depends on.
pub topological_task_keys-cyclic :
    (ts : List Task) (order : List String)
    → all ts (λ t. within (keys ts) t.depends_on) ≡ true
    → topological_task_keys ts ≡ err cyclic
    → (placed ts [] order && within order (keys ts)) ≡ false
unfolding topological_task_keys
topological_task_keys-cyclic ts order known e =
    let (o, some_left, st) =
      rounds-stuck ts (length ts) []
        (subst (λ p. rounds (length ts) p [] ≡ err cyclic) (sym (view-nil ts)) e) in
    elim (Bool-cases (placed ts [] order && within order (keys ts))) [
      | inr no_order ↦ no_order
      | inl both ↦
          let settled_all = placed-settled ts o st known [] order refl (ground (arith, both)) in
          let whole =
            settled-within (keys ts) o order (keys ts) settled_all (ground (arith, both))
              (all-member_self (keys ts)) in
          absurd (ground (arith, some_left, view-ordered ts o whole))
    ]
