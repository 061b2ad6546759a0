-- ===== src/Prelude/Sorting.antt =====
-- Python's `sorted`: a stable sort by a Boolean order.
use Prim.Native.Nat.{◌+◌}
use Prim.Native.Char.{code}
use Prim.Native.String.{String}
use mathlib.Core.Path.{◌≡◌, refl}
use mathlib.Core.Bool.{Bool, true, false, ◌&&◌, ◌||◌}
use mathlib.Core.List.{List, [], ◌∷◌}
use native.Mathlib.Omega.{arith}
use materials_screening_agen.Prelude.Tests.{if◌then◌else◌, ltb, ◌==◌, nat_eq}
use materials_screening_agen.Prelude.Table.{all, any, length, count_where, bit}

module _ {ℓ} {A : Type ℓ} (le : A → A → Bool) where
  insert : A → List A → List A
  insert x [] = x ∷ []
  insert x (y ∷ ys) = let rest = insert x ys in if le x y then x ∷ y ∷ ys else y ∷ rest

  unfoldable pub sort : List A → List A
  unfolding insert
  sort [] = []
  sort (x ∷ xs) = insert x (sort xs)

  -- Each before all that follow.
  abbrev pub ordered : List A → Bool
  ordered [] = true
  ordered (x ∷ xs) = all xs (le x) && ordered xs

  count_where-insert :
      (p : A → Bool) (x : A) (ys : List A)
      → count_where p (insert x ys) ≡ bit (p x) + count_where p ys
  unfolding insert count_where
  count_where-insert p x [] = refl
  count_where-insert p x (y ∷ ys) = ground (arith, count_where-insert p x ys)

  -- A sort rearranges.
  pub count_where-sort : (p : A → Bool) (xs : List A) → count_where p (sort xs) ≡ count_where p xs
  unfolding sort count_where
  count_where-sort p [] = refl
  count_where-sort p (x ∷ xs) =
      omega (arith, count_where-insert p x (sort xs), count_where-sort p xs)

  length-insert : (x : A) (ys : List A) → length (insert x ys) ≡ length ys + 1
  unfolding insert
  length-insert x [] = omega arith
  length-insert x (y ∷ ys) = ground (arith, length-insert x ys)

  pub length-sort : (xs : List A) → length (sort xs) ≡ length xs
  unfolding sort
  length-sort [] = refl
  length-sort (x ∷ xs) = omega (arith, length-insert x (sort xs), length-sort xs)

  all-insert : (p : A → Bool) (x : A) (ys : List A) → all (insert x ys) p ≡ (p x && all ys p)
  unfolding insert
  all-insert p x [] = refl
  all-insert p x (y ∷ ys) = ground (arith, all-insert p x ys)

  pub all-sort : (p : A → Bool) (xs : List A) → all (sort xs) p ≡ all xs p
  unfolding sort
  all-sort p [] = refl
  all-sort p (x ∷ xs) = ground (arith, all-insert p x (sort xs), all-sort p xs)

  any-insert : (p : A → Bool) (x : A) (ys : List A) → any (insert x ys) p ≡ (p x || any ys p)
  unfolding insert
  any-insert p x [] = refl
  any-insert p x (y ∷ ys) = ground (arith, any-insert p x ys)

  pub any-sort : (p : A → Bool) (xs : List A) → any (sort xs) p ≡ any xs p
  unfolding sort
  any-sort p [] = refl
  any-sort p (x ∷ xs) = ground (arith, any-insert p x (sort xs), any-sort p xs)

  module _ (total : (x y : A) → le x y ≡ false → le y x ≡ true)
      (trans : (x y z : A) → le x y ≡ true → le y z ≡ true → le x z ≡ true) where
    all_trans :
        (x y : A) (zs : List A) → le x y ≡ true → all zs (le y) ≡ true → all zs (le x) ≡ true
    all_trans x y [] xy yz = refl
    all_trans x y (z ∷ zs) xy yz = ground (arith, trans x y z, all_trans x y zs)

    insert-ordered : (x : A) (ys : List A) → ordered ys ≡ true → ordered (insert x ys) ≡ true
    unfolding insert
    insert-ordered x [] o = refl
    insert-ordered x (y ∷ ys) o =
        ground (arith, total x y, all_trans x y ys, insert-ordered x ys, all-insert (le y) x ys)

    pub ordered-sort : (xs : List A) → ordered (sort xs) ≡ true
    unfolding sort
    ordered-sort [] = refl
    ordered-sort (x ∷ xs) = insert-ordered x (sort xs) (ordered-sort xs)

-- The order of texts, by code points.
abbrev pub text_le : String → String → Bool
text_le String.[] t = true
text_le (String.◌∷◌ a s) String.[] = false
text_le (String.◌∷◌ a s) (String.◌∷◌ b t) =
    let rest = text_le s t in ltb (code a) (code b) || (code a == code b && rest)
