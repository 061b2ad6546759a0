-- ===== src/Prelude/Predicates.antt =====
-- A predicate of all rows of a table, and lookups by a key.
use mathlib.Core.Path.{◌≡◌, subst}
use mathlib.Core.Logic.{inl, inr}
use mathlib.Core.Bool.{Bool}
use mathlib.Core.Option.{some}
use mathlib.Core.List.{List, [], ◌∷◌, ◌++◌}
use native.Mathlib.Omega.{arith}
use materials_screening_agen.Prelude.Tests.{Bool-cases}
use materials_screening_agen.Prelude.Table.{find?, update}

abbrev pub All {ℓ κ} : {A : Type ℓ} → (A → Type κ) → List A → Type κ
All P [] = Unit
All P (x ∷ xs) = P x × All P xs

module _ {ℓ κ} {A : Type ℓ} (P : A → Type κ) where
  pub All-append : (xs ys : List A) → All P xs → All P ys → All P (xs ++ ys)
  All-append [] ys h k = k
  All-append (x ∷ xs) ys h k = (h.0, All-append xs ys h.1 k)

  pub All-find? : (p : A → Bool) (xs : List A) {x : A} → All P xs → find? p xs ≡ some x → P x
  unfolding find?
  All-find? p [] h e = absurd (ground arith)
  All-find? p (y ∷ xs) {x} h e = elim (Bool-cases (p y)) [
    | inl here ↦ subst P (ground (arith, here, e)) h.0
    | inr there ↦ All-find? p xs h.1 (ground (arith, there, e))
  ]

  pub All-update :
      (p : A → Bool) (f : A → A) (xs : List A)
      → All P xs
      → ((x : A) → P (f x))
      → All P (update p f xs)
  unfolding update
  All-update p f [] h k = h
  All-update p f (x ∷ xs) h k = elim (Bool-cases (p x)) [
    | inl here ↦ (rw here (k x), All-update p f xs h.1 k)
    | inr there ↦ (rw there h.0, All-update p f xs h.1 k)
  ]
