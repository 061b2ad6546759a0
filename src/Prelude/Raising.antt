-- ===== src/Prelude/Raising.antt =====
-- Code that may raise: a value, or the error of the module at hand.
use mathlib.Core.Bool.{Bool, true, false}
use mathlib.Core.Path.{◌≡◌, refl}
use mathlib.Core.Logic.{◌⊎◌, inl, inr}
use mathlib.Core.Option.{Option, none, some}
use native.Mathlib.Omega.{arith}

pub data Result {ℓ} (E : Type 0) (A : Type ℓ) : Type ℓ where
  ok : A → Result E A
  err : E → Result E A

module _ {E : Type 0} where
  infixl 5 ◌>>=◌ ◌>>◌
  abbrev pub ◌>>=◌ {ℓ κ} : {A : Type ℓ} {B : Type κ} → Result E A → (A → Result E B) → Result E B
  ok a >>= f = f a
  err e >>= f = err e

  abbrev pub ◌>>◌ {ℓ} : {B : Type ℓ} → Result E (Unit {0}) → Result E B → Result E B
  m >> k = m >>= λ _. k

  -- `if bad: raise e`
  abbrev pub raise_if : Bool → E → Result E (Unit {0})
  raise_if true e = err e
  raise_if false e = ok tt

-- `try: s' = op(s)` around a step that writes only at its end: a raise leaves the state alone.
abbrev pub attempt {ℓ} : {E : Type 0} {S : Type ℓ} → S → Result E S → S
attempt s (ok s') = s'
attempt s (err _) = s

-- A check that returns nothing.
abbrev pub Check : Type 0 → Type 0
Check E = Result E (Unit {0})

abbrev pub is_ok {ℓ} : {E : Type 0} {A : Type ℓ} → Result E A → Bool
is_ok (ok a) = true
is_ok (err e) = false

-- A value that must be there.
abbrev pub require {ℓ} : {E : Type 0} {A : Type ℓ} → Option A → E → Result E A
require (some a) e = ok a
require none e = err e

pub Check-cases : {E : Type 0} (c : Check E) → (c ≡ ok tt) ⊎ ((e : E) × (c ≡ err e))
Check-cases (ok tt) = inl refl
Check-cases (err e) = inr (e, refl)

pub Result-cases {ℓ} :
    {E : Type 0} {A : Type ℓ} (x : Result E A) → ((a : A) × (x ≡ ok a)) ⊎ ((e : E) × (x ≡ err e))
Result-cases (ok a) = inl (a, refl)
Result-cases (err e) = inr (e, refl)

-- Code that returns behind a check.
pub behind {ℓ} :
    {E : Type 0} {A : Type ℓ} (c : Check E) (x : Result E A) {a : A} → (do c; x) ≡ ok a → x ≡ ok a
behind (ok _) x e = e
behind (err _) x e = absurd (ground (arith, e))
