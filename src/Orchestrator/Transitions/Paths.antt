-- ===== src/Orchestrator/Transitions/Paths.antt =====
-- Sequences of accepted transitions of one of the tables of
-- src/material_agent/orchestrator/state_machine.py.
use materials_screening_agen.Prelude.{
  ap, eq_iff, Bool-cases, false, inl, inr, ◌||◌, str_refl, ℕ, ◌≤◌, ◌≡◌, Bool, true, List, [], ◌∷◌,
  Result, ok, ◌>>◌, arith, all, is_ok, implies, leb,
}
use materials_screening_agen.Orchestrator.Status.{StrEnum, same, parse, parse-value}
use materials_screening_agen.Orchestrator.Transitions.{TransitionError, validate, listed}

module _ {S : Type 0} ⦃e : StrEnum S⦄ where
  -- One update after the other, each validated against the status that the last one stored.
  unfoldable pub walk : (S → List S) → S → List S → Result TransitionError S
  walk matrix s [] = ok s
  walk matrix s (t ∷ ts) = let rest = walk matrix t ts in do validate matrix s t; rest

  -- The accepted pairs of a table satisfy `R`: checked on all pairs by evaluation.
  abbrev pub Table : (S → List S) → (S → S → Bool) → Type 0
  Table matrix R =
      all e.members (λ s. all e.members (λ t. implies (is_ok (validate matrix s t)) (R s t))) ≡ true

  pub Table-validate :
      (matrix : S → List S) (R : S → S → Bool)
      → Table matrix R
      → (s t : S) → validate matrix s t ≡ ok tt
      → R s t ≡ true
  Table-validate matrix R h s t v =
      let row =
        e.every (λ u. all e.members (λ w. implies (is_ok (validate matrix u w)) (R u w))) h s in
      let cell = e.every (λ w. implies (is_ok (validate matrix s w)) (R s w)) row t in
      ground (arith, cell)

  abbrev pub grows : (S → ℕ) → S → S → Bool
  grows rank s t = leb (rank s) (rank t)

  -- A rank that no accepted transition lowers is lowered by no walk.
  pub rank-walk :
      (matrix : S → List S) (rank : S → ℕ)
      → Table matrix (grows rank)
      → (s : S) (ts : List S) {t : S} → walk matrix s ts ≡ ok t
      → rank s ≤ rank t
  unfolding walk
  rank-walk matrix rank h s [] w = ground arith
  rank-walk matrix rank h s (u ∷ us) {t} w =
      ground (arith, Table-validate matrix (grows rank) h s u, rank-walk matrix rank h u us {t = t})

module _ {S : Type 0} ⦃e : StrEnum S⦄ where
  -- Equal texts, equal members.
  pub same-eq : (s t : S) → same s t ≡ true → s ≡ t
  same-eq s t h =
      cc (parse-value s, parse-value t, ap (parse {S = S}) ((eq_iff (e.value s) (e.value t)).0 h))

  -- A status whose row of the table is empty is kept by every sequence of accepted updates.
  pub final-walk :
      (matrix : S → List S) (s : S) (ts : List S) {t : S}
      → matrix s ≡ []
      → walk matrix s ts ≡ ok t
      → t ≡ s
  unfolding walk validate
  final-walk matrix s [] final w = ground arith
  final-walk matrix s (u ∷ us) {t} final w = elim (Bool-cases (same s u)) [
    | inl eq ↦ ground (arith, same-eq s u, final-walk matrix u us {t = t})
    | inr ne ↦ ground arith
  ]

  abbrev pub guarded_by : S → (S → Bool) → S → S → Bool
  guarded_by gate before s t = implies (before s) (before t || same t gate)

  -- A walk out of a part of the table that is left through `gate` alone passes `gate`.
  pub gate-walk :
      (matrix : S → List S) (gate : S) (before : S → Bool)
      → Table matrix (guarded_by gate before)
      → (s : S) (ts : List S) {t : S} → before s ≡ true
      → walk matrix s ts ≡ ok t
      → before t ≡ false
      → listed gate ts ≡ true
  unfolding walk
  gate-walk matrix gate before h s [] b w a = ground arith
  gate-walk matrix gate before h s (u ∷ us) {t} b w a = ground (
    arith,
    same-eq u gate,
    str_refl (e.value gate),
    Table-validate matrix (guarded_by gate before) h s u,
    gate-walk matrix gate before h u us {t = t},
  )
