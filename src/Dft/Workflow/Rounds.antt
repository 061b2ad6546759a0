-- ===== src/Dft/Workflow/Rounds.antt =====
-- The rounds of topological_task_keys (src/material_agent/dft/workflows.py): what is pending after some keys are
-- ordered, and why the loop ends.
use materials_screening_agen.Prelude.{
  member, ℕ, zero, suc, String, ◌≤◌, ◌<◌, ◌≡◌, ◌≢◌, refl, sym, ap, ◌∙◌, Bool, true, false, ◌||◌,
  List, [], ◌∷◌, ◌++◌, map, length, all, select, ◌==◌, string_eq, if◌then◌else◌, ◌⊎◌, inl, inr,
  Bool-cases, ok, err, sort, text_le, any-sort, length-sort, arith, str_refl, implies,
}
use materials_screening_agen.Dft.Workflow.{
  Task, Pending, cyclic, exhausted, is_nil, without, ready_keys, advance, rounds,
  topological_task_keys, pending_task,
}

-- What is pending where the keys of `o` are ordered.
abbrev pub view : List Task → List String → Pending
view [] o = []
view (t ∷ ts) o =
    let rest = view ts o in
    if member t.task_key o then rest else (t.task_key, without o t.depends_on) ∷ rest

pub member-append :
    (k : String) (xs ys : List String) → member k (xs ++ ys) ≡ (member k xs || member k ys)
member-append k [] ys = refl
member-append k (x ∷ xs) ys = ground (arith, member-append k xs ys)

without-append : (o r ds : List String) → without (o ++ r) ds ≡ without r (without o ds)
unfolding select
without-append o r [] = refl
without-append o r (d ∷ ds) = ground (arith, member-append d o r, without-append o r ds)

pub without-nil : (ds : List String) → without [] ds ≡ ds
unfolding select
without-nil [] = refl
without-nil (d ∷ ds) = ap (◌∷◌ d) (without-nil ds)

pub advance-view :
    (r : List String) (ts : List Task) (o : List String) → advance r (view ts o) ≡ view ts (o ++ r)
unfolding advance
advance-view r [] o = refl
advance-view r (t ∷ ts) o =
    ground
      (arith, member-append t.task_key o r, without-append o r t.depends_on, advance-view r ts o)

pub view-nil : (ts : List Task) → view ts [] ≡ map pending_task ts
view-nil [] = refl
view-nil (t ∷ ts) = ground (arith, without-nil t.depends_on, view-nil ts)

pub all-implies :
    {A : Type 0} (p q : A → Bool) (xs : List A)
    → all xs p ≡ true
    → all xs (λ x. implies (p x) (q x)) ≡ true
    → all xs q ≡ true
all-implies p q [] h k = refl
all-implies p q (x ∷ xs) h k = ground (arith, all-implies p q xs)

all-member_cons :
    (x : String) (ys zs : List String)
    → all zs (λ k. member k ys) ≡ true
    → all zs (λ k. member k (x ∷ ys)) ≡ true
all-member_cons x ys [] h = refl
all-member_cons x ys (z ∷ zs) h = ground (arith, all-member_cons x ys zs)

pub all-member_self : (xs : List String) → all xs (λ k. member k xs) ≡ true
all-member_self [] = refl
all-member_self (x ∷ xs) = ground (arith, str_refl x, all-member_cons x xs xs (all-member_self xs))

pub member-sort : (k : String) (xs : List String) → member k (sort text_le xs) ≡ member k xs
member-sort k xs = any-sort text_le (λ x. x == k) xs

pub all-member-sort :
    (xs zs : List String)
    → all zs (λ k. member k xs) ≡ true
    → all zs (λ k. member k (sort text_le xs)) ≡ true
all-member-sort xs [] h = refl
all-member-sort xs (z ∷ zs) h = ground (arith, member-sort z xs, all-member-sort xs zs)

is_nil-length : {A : Type 0} (xs ys : List A) → length xs ≡ length ys → is_nil xs ≡ is_nil ys
is_nil-length [] [] h = refl
is_nil-length [] (y ∷ ys) h = absurd (omega arith)
is_nil-length (x ∷ xs) [] h = absurd (omega arith)
is_nil-length (x ∷ xs) (y ∷ ys) h = refl

pub is_nil-sort : (xs : List String) → is_nil (sort text_le xs) ≡ is_nil xs
is_nil-sort xs = is_nil-length (sort text_le xs) xs (length-sort text_le xs)

length-advance : (r : List String) (p : Pending) → length (advance r p) ≤ length p
unfolding advance
length-advance r [] = omega arith
length-advance r ((k, ds) ∷ p) = ground (arith, length-advance r p)

-- A round with something ready leaves less pending.
length-advance_ready :
    (r : List String) (p : Pending)
    → all (ready_keys p) (λ k. member k r) ≡ true
    → is_nil (ready_keys p) ≡ false
    → length (advance r p) < length p
unfolding advance
length-advance_ready r [] a n = absurd (ground arith)
length-advance_ready r ((k, ds) ∷ p) a n =
    ground (arith, length-advance r p, length-advance_ready r p)

rounds_end :
    (fuel : ℕ) (p : Pending) (o : List String) → length p ≤ fuel → rounds fuel p o ≢ err exhausted
unfolding rounds
rounds_end zero [] o h e = ground (arith, e)
rounds_end (suc fuel) [] o h e = ground (arith, e)
rounds_end zero (x ∷ p) o h e = absurd (omega arith)
rounds_end (suc fuel) (x ∷ p) o h e =
    let keys = ready_keys (x ∷ p) in
    let ready = sort text_le keys in
    ground (
      arith,
      e,
      is_nil-sort keys,
      length-advance_ready ready (x ∷ p) (all-member-sort keys keys (all-member_self keys)),
      rounds_end fuel (advance ready (x ∷ p)) (o ++ ready),
    )

pub length-map : {A B : Type 0} (f : A → B) (xs : List A) → length (map f xs) ≡ length xs
length-map f [] = refl
length-map f (x ∷ xs) = omega (arith, length-map f xs)

-- The loop ends: on every list of tasks, with repeated keys, unknown dependencies or cycles too, as many
-- rounds as there are tasks are enough.
pub topological_task_keys_end : (tasks : List Task) → topological_task_keys tasks ≢ err exhausted
unfolding topological_task_keys
topological_task_keys_end tasks =
    rounds_end (length tasks) (map pending_task tasks) []
      (omega (arith, length-map pending_task tasks))

-- One round of a loop that has ended.
abbrev pub ready_of : Pending → List String
ready_of p = sort text_le (ready_keys p)

pub rounds-ok :
    (fuel : ℕ) (p : Pending) (o r : List String)
    → rounds (suc fuel) p o ≡ ok r
    → ((p ≡ []) × (o ≡ r)) ⊎ (rounds fuel (advance (ready_of p) p) (o ++ ready_of p) ≡ ok r)
unfolding rounds
rounds-ok fuel [] o r e = inl (refl, ground (arith, e))
rounds-ok fuel (x ∷ p) o r e = inr (ground (arith, e))

pub rounds-zero : (p : Pending) (o r : List String) → rounds zero p o ≡ ok r → (p ≡ []) × (o ≡ r)
unfolding rounds
rounds-zero [] o r e = (refl, ground (arith, e))
rounds-zero (x ∷ p) o r e = absurd (ground (arith, e))

pub rounds-cyclic :
    (fuel : ℕ) (p : Pending) (o : List String)
    → rounds (suc fuel) p o ≡ err cyclic
    → (is_nil p ≡ false)
      × ((ready_keys p ≡ [])
          ⊎ (rounds fuel (advance (ready_of p) p) (o ++ ready_of p) ≡ err cyclic))
unfolding rounds
rounds-cyclic fuel [] o e = absurd (ground (arith, e))
rounds-cyclic fuel (x ∷ p) o e = elim (Bool-cases (is_nil (ready_of (x ∷ p)))) [
  | inl none_ready ↦ (
    refl,
    inl (nil-ready (ready_keys (x ∷ p)) (sym (is_nil-sort (ready_keys (x ∷ p))) ∙ none_ready)),
  )
  | inr some_ready ↦ (refl, inr (ground (arith, some_ready, e)))
]
  where
    nil-ready : (ks : List String) → is_nil ks ≡ true → ks ≡ []
    nil-ready [] h = refl
    nil-ready (k ∷ ks) h = absurd (ground (arith, h))
