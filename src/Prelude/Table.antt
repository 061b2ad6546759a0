-- ===== src/Prelude/Table.antt =====
-- SQL tables as lists of rows in insertion order: fetchone, INSERT and UPDATE, with their laws.
use Prim.Native.Nat.{ℕ, zero, suc, min, ◌+◌, ◌<◌}
use mathlib.Core.Path.{◌≡◌, refl}
use mathlib.Core.Bool.{Bool, true, false, ◌&&◌, ◌||◌}
use mathlib.Core.Option
use mathlib.Core.Option.{Option, none, some}
use mathlib.Core.List.{List, [], ◌∷◌, ◌++◌}
use native.Mathlib.Omega.{arith}
use materials_screening_agen.Prelude.Tests.{if◌then◌else◌}

module _ {ℓ} {A : Type ℓ} where
  abbrev pub length : List A → ℕ
  length [] = 0
  length (x ∷ xs) = suc (length xs)

  abbrev pub take : ℕ → List A → List A
  take zero xs = []
  take (suc n) [] = []
  take (suc n) (x ∷ xs) = x ∷ take n xs

  pub length-take : (n : ℕ) (xs : List A) → length (take n xs) ≡ min n (length xs)
  length-take zero xs = omega arith
  length-take (suc n) [] = omega arith
  length-take (suc n) (x ∷ xs) = omega (arith, length-take n xs)

  pub length-append : (xs ys : List A) → length (xs ++ ys) ≡ length xs + length ys
  length-append [] ys = omega arith
  length-append (x ∷ xs) ys = omega (arith, length-append xs ys)

  abbrev pub all : List A → (A → Bool) → Bool
  all [] p = true
  all (x ∷ xs) p = p x && all xs p

  abbrev pub any : List A → (A → Bool) → Bool
  any [] p = false
  any (x ∷ xs) p = p x || any xs p

  -- SELECT … WHERE p, with fetchone
  unfoldable pub find? : (A → Bool) → List A → Option A
  find? p [] = none
  find? p (x ∷ xs) = if p x then some x else find? p xs

  -- SELECT … WHERE p, with fetchall
  unfoldable pub select : (A → Bool) → List A → List A
  select p [] = []
  select p (x ∷ xs) = let rest = select p xs in if p x then x ∷ rest else rest

  abbrev pub change : (A → Bool) → (A → A) → A → A
  change p f x = if p x then f x else x

  -- UPDATE … SET f WHERE p
  unfoldable pub update : (A → Bool) → (A → A) → List A → List A
  update p f [] = []
  update p f (x ∷ xs) = change p f x ∷ update p f xs

  abbrev pub or_else : Option A → Option A → Option A
  or_else (some x) y = some x
  or_else none y = y

  pub find?-sound : (p : A → Bool) (xs : List A) {x : A} → find? p xs ≡ some x → p x ≡ true
  unfolding find?
  find?-sound p [] h = ground arith
  find?-sound p (y ∷ xs) {x} h = ground (arith, find?-sound p xs {x = x})

  pub find?-append :
      (p : A → Bool) (xs ys : List A) → find? p (xs ++ ys) ≡ or_else (find? p xs) (find? p ys)
  unfolding find?
  find?-append p [] ys = refl
  find?-append p (x ∷ xs) ys = ground (arith, find?-append p xs ys)

  -- An UPDATE that leaves the columns of `p` alone changes what `p` finds, and not whether it finds.
  pub find?-update :
      (p q : A → Bool) (f : A → A) (xs : List A)
      → ((x : A) → p (change q f x) ≡ p x)
      → find? p (update q f xs) ≡ Option.map (change q f) (find? p xs)
  unfolding find? update
  find?-update p q f [] h = refl
  find?-update p q f (x ∷ xs) h = ground (arith, h x, find?-update p q f xs)

abbrev pub bit : Bool → ℕ
bit true = 1
bit false = 0

module _ {ℓ} {A : Type ℓ} where
  -- How many rows satisfy `p`.
  unfoldable pub count_where : (A → Bool) → List A → ℕ
  count_where p [] = 0
  count_where p (x ∷ xs) = bit (p x) + count_where p xs

  pub length-select : (p : A → Bool) (xs : List A) → length (select p xs) ≡ count_where p xs
  unfolding select count_where
  length-select p [] = refl
  length-select p (x ∷ xs) = ground (arith, length-select p xs)

  pub count_where-append :
      (p : A → Bool) (xs ys : List A)
      → count_where p (xs ++ ys) ≡ count_where p xs + count_where p ys
  unfolding count_where
  count_where-append p [] ys = omega arith
  count_where-append p (x ∷ xs) ys = omega (arith, count_where-append p xs ys)

  update-none :
      (p q : A → Bool) (f : A → A) (xs : List A)
      → count_where q xs ≡ 0
      → count_where p (update q f xs) ≡ count_where p xs
  unfolding count_where update
  update-none p q f [] h = refl
  update-none p q f (x ∷ xs) h = ground (arith, update-none p q f xs)

  pub count_where-pos :
      (r q : A → Bool) (xs : List A) {x : A}
      → find? r xs ≡ some x
      → q x ≡ true
      → 0 < count_where q xs
  unfolding find? count_where
  count_where-pos r q [] h k = ground arith
  count_where-pos r q (y ∷ xs) {x} h k = ground (arith, count_where-pos r q xs {x = x})

  -- An UPDATE of exactly one row, the one that another query found.
  pub update-one :
      (p q r : A → Bool) (f : A → A) (xs : List A) (x : A)
      → count_where q xs ≡ 1
      → find? r xs ≡ some x
      → q x ≡ true
      → count_where p (update q f xs) + bit (p x) ≡ count_where p xs + bit (p (f x))
  unfolding find? count_where update
  update-one p q r f [] x c h k = ground arith
  update-one p q r f (y ∷ xs) x c h k =
      ground (arith, update-none p q f xs, count_where-pos r q xs {x = x}, update-one p q r f xs x)

  -- An UPDATE that leaves the columns of `p` alone leaves its count alone.
  pub count_where-update :
      (p q : A → Bool) (f : A → A) (xs : List A)
      → ((x : A) → p (change q f x) ≡ p x)
      → count_where p (update q f xs) ≡ count_where p xs
  unfolding count_where update
  count_where-update p q f [] h = refl
  count_where-update p q f (x ∷ xs) h = ground (arith, h x, count_where-update p q f xs h)

  pub find?-none : (p : A → Bool) (xs : List A) → find? p xs ≡ none → count_where p xs ≡ 0
  unfolding find? count_where
  find?-none p [] h = refl
  find?-none p (x ∷ xs) h = ground (arith, find?-none p xs)

  pub count_where-one : (p : A → Bool) (x : A) → count_where p (x ∷ []) ≡ bit (p x)
  unfolding count_where
  count_where-one p x = omega arith

  pub find?-one : (p : A → Bool) (x : A) → find? p (x ∷ []) ≡ (if p x then some x else none)
  unfolding find?
  find?-one p x = refl
