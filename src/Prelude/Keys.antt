-- ===== src/Prelude/Keys.antt =====
-- Lists of keys, and rows whose keys differ.
use Prim.Native.Nat.{ℕ, zero, suc, ◌+◌, ◌≤◌}
use Prim.Native.String.{String}
use mathlib.Core.Path.{sym, ap, ◌∙◌, ◌≡◌, refl}
use mathlib.Core.Logic.{inl, inr}
use mathlib.Core.Bool.{Bool, true, false, not, ◌&&◌, ◌||◌}
use mathlib.Core.Option.{Option, none, some}
use mathlib.Core.List.{List, [], ◌∷◌, map}
use native.Mathlib.Omega.{arith}
use text.Mathlib.TextEquality.{eq_iff}
use materials_screening_agen.Prelude.Tests.{Bool-cases, implies, ◌==◌, string_eq, str_refl}
use materials_screening_agen.Prelude.Table.{any, all, length, count_where, bit, select, take}

-- `k in ks`
abbrev pub member : String → List String → Bool
member k ks = any ks (λ x. x == k)

-- `len(set(ks)) == len(ks)`
abbrev pub distinct : List String → Bool
distinct [] = true
distinct (k ∷ ks) = not (member k ks) && distinct ks

module _ {ℓ} {A : Type ℓ} where
  pub count_where-and :
      (p q : A → Bool) (xs : List A) → count_where (λ x. p x && q x) xs ≤ count_where q xs
  unfolding count_where
  count_where-and p q [] = omega arith
  count_where-and p q (x ∷ xs) = ground (arith, count_where-and p q xs)

  pub count_where-select :
      (p q : A → Bool) (xs : List A)
      → count_where p (select q xs) ≡ count_where (λ x. q x && p x) xs
  unfolding count_where select
  count_where-select p q [] = refl
  count_where-select p q (x ∷ xs) = ground (arith, count_where-select p q xs)

  pub count_where-take :
      (p : A → Bool) (n : ℕ) (xs : List A) → count_where p (take n xs) ≤ count_where p xs
  unfolding count_where
  count_where-take p zero xs = omega arith
  count_where-take p (suc n) [] = omega arith
  count_where-take p (suc n) (x ∷ xs) = omega (arith, count_where-take p n xs)

  pub count_where-eq :
      (p q : A → Bool) (xs : List A) → ((x : A) → p x ≡ q x) → count_where p xs ≡ count_where q xs
  unfolding count_where
  count_where-eq p q [] e = refl
  count_where-eq p q (x ∷ xs) e = ground (arith, e x, count_where-eq p q xs e)

  pub all-take : (p : A → Bool) (n : ℕ) (xs : List A) → all xs p ≡ true → all (take n xs) p ≡ true
  all-take p zero xs a = refl
  all-take p (suc n) [] a = refl
  all-take p (suc n) (x ∷ xs) a = ground (arith, all-take p n xs)

  pub all-select : (p : A → Bool) (xs : List A) → all (select p xs) p ≡ true
  unfolding select
  all-select p [] = refl
  all-select p (x ∷ xs) = ground (arith, all-select p xs)

  count_where-unlike :
      (p q : A → Bool) (xs : List A)
      → count_where q xs ≤ count_where (λ x. p x && q x) xs
      → all xs (λ x. implies (q x) (p x)) ≡ true
  unfolding count_where
  count_where-unlike p q [] e = refl
  count_where-unlike p q (x ∷ xs) e =
      ground (arith, e, count_where-unlike p q xs, count_where-and p q xs)

  pub all-implies :
      (p q : A → Bool) (xs : List A)
      → count_where (λ x. p x && q x) xs ≡ count_where q xs
      → all xs (λ x. implies (q x) (p x)) ≡ true
  all-implies p q xs e = count_where-unlike p q xs (omega (arith, e))

  count_where-false : (xs : List A) → count_where (λ x. false) xs ≡ 0
  unfolding count_where
  count_where-false [] = refl
  count_where-false (x ∷ xs) = omega (arith, count_where-false xs)

  -- One of two that exclude each other.
  count_where-or :
      (p q : A → Bool) (xs : List A)
      → ((x : A) → p x ≡ true → q x ≡ false)
      → count_where (λ x. p x || q x) xs ≡ count_where p xs + count_where q xs
  unfolding count_where
  count_where-or p q [] e = refl
  count_where-or p q (x ∷ xs) e = ground (arith, e x, count_where-or p q xs e)

module _ {ℓ} {A : Type ℓ} where
  pub count_where-map :
      (p : A → Bool) (f : A → A) (xs : List A)
      → count_where p (map f xs) ≡ count_where (λ x. p (f x)) xs
  unfolding count_where
  count_where-map p f [] = refl
  count_where-map p f (x ∷ xs) = omega (arith, count_where-map p f xs)

  pub all-select-map :
      (p q : A → Bool) (f : A → A) (xs : List A)
      → all xs (λ x. implies (q (f x)) (p (f x))) ≡ true
      → all (select q (map f xs)) p ≡ true
  unfolding select
  all-select-map p q f [] e = refl
  all-select-map p q f (x ∷ xs) e = ground (arith, e, all-select-map p q f xs)

module _ {ℓ} {A : Type ℓ} (key : A → String) where
  abbrev pub named : List A → String → Bool
  named ts k = any ts (λ t. key t == k)

  abbrev pub copies : String → List A → ℕ
  copies k xs = count_where (λ x. key x == k) xs

  copies-named : (k : String) (xs : List A) → member k (map key xs) ≡ false → copies k xs ≡ 0
  unfolding count_where
  copies-named k [] e = refl
  copies-named k (x ∷ xs) e = ground (arith, copies-named k xs)

  named-copies : (k : String) (xs : List A) → named xs k ≡ true → 1 ≤ copies k xs
  unfolding count_where
  named-copies k [] e = absurd (ground (arith, e))
  named-copies k (x ∷ xs) e = ground (arith, named-copies k xs)

  pub distinct-copies : (xs : List A) (k : String) → distinct (map key xs) ≡ true → copies k xs ≤ 1
  unfolding count_where
  distinct-copies [] k e = omega arith
  distinct-copies (x ∷ xs) k e = elim (Bool-cases (key x == k)) [
    | inl here ↦ ground (arith, here, copies-named k xs, eq_iff (key x) k, e)
    | inr there ↦ ground (arith, there, distinct-copies xs k)
  ]

  copies-cons :
      (k : String) (t : A) (ts : List A) → copies k (t ∷ ts) ≡ bit (key t == k) + copies k ts
  unfolding count_where
  copies-cons k t ts = refl

  key_flip : (t x : A) → (key t == key x) ≡ (key x == key t)
  key_flip t x = elim (Bool-cases (key t == key x)) [
    | inl here ↦ ground (arith, here, eq_iff (key t) (key x), eq_iff (key x) (key t))
    | inr there ↦ ground (arith, there, eq_iff (key t) (key x), eq_iff (key x) (key t))
  ]

  -- Rows that were chosen: as many rows have the key of one of them.
  pub count_where-named :
      (ts xs : List A)
      → ((k : String) → copies k ts ≤ copies k xs)
      → ((k : String) → copies k xs ≤ 1)
      → count_where (λ x. named ts (key x)) xs ≡ length ts
  count_where-named [] xs sub unique = count_where-false xs
  count_where-named (t ∷ ts) xs sub unique =
      let apart : (x : A) → (key t == key x) ≡ true → named ts (key x) ≡ false = λ x same.
        elim (Bool-cases (named ts (key x))) [
          | inr other ↦ other
          | inl again ↦ absurd (
              ground (
                arith,
                same,
                copies-cons (key x) t ts,
                named-copies (key x) ts again,
                sub (key x),
                unique (key x),
              ))
        ] in
      omega (
        arith,
        count_where-or (λ x. key t == key x) (λ x. named ts (key x)) xs apart,
        count_where-eq (λ x. key t == key x) (λ x. key x == key t) xs (key_flip t),
        own_copies t ts,
        sub (key t),
        unique (key t),
        count_where-named ts xs (λ k. omega (arith, copies-cons k t ts, sub k)) unique,
      )
    where
      own_copies : (t : A) (ts : List A) → 1 ≤ copies (key t) (t ∷ ts)
      own_copies t ts = ground (arith, copies-cons (key t) t ts, str_refl (key t))

abbrev pub first {ℓ} : {A : Type ℓ} → List A → Option A
first [] = none
first (x ∷ _) = some x

module _ {A : Type 0} where
  -- The first that is selected.
  pub first-select :
      (p : A → Bool) (xs : List A) (x : A)
      → first (select p xs) ≡ some x
      → (p x ≡ true) × ((q : A → Bool) → q x ≡ true → any xs q ≡ true)
  unfolding select
  first-select p [] x e = absurd (ground (arith, e))
  first-select p (y ∷ ys) x e = elim (Bool-cases (p y)) [
    | inl here ↦
        let same : y ≡ x = ground (arith, here, e) in
        (
          ap p (sym same) ∙ here,
          λ q holds. let now : q y ≡ true = ap q same ∙ holds in ground (arith, now),
        )
    | inr there ↦
        let (holds, found) = first-select p ys x (ground (arith, there, e)) in
        (holds, λ q now. let later = found q now in ground (arith, later))
  ]
