-- ===== src/Orchestrator/History/Columns.antt =====
-- A status column whose updates are validated by one of the tables of
-- src/material_agent/orchestrator/state_machine.py.
use materials_screening_agen.Prelude.{
  String, ◌≡◌, refl, List, [], ◌∷◌, ok, ◌⊎◌, inl, inr, arith, Option-cases,
}
use materials_screening_agen.Orchestrator.Status.{StrEnum, parse, parse-value, value-parse}
use materials_screening_agen.Orchestrator.Transitions.{validate, validate_texts}
use materials_screening_agen.Orchestrator.Transitions.Paths.{walk}

module _ {S : Type 0} ⦃e : StrEnum S⦄ (matrix : S → List S) where
  -- The text is kept, or an accepted transition leads to it.
  abbrev pub Moves : String → String → Type 0
  Moves a b = (a ≡ b) ⊎ (validate_texts matrix a b ≡ ok tt)

  -- An accepted text is that of a member.
  pub validate_texts-member :
      (s : S) (b : String)
      → validate_texts matrix (e.value s) b ≡ ok tt
      → (t : S) × (e.value t ≡ b) × (validate matrix s t ≡ ok tt)
  unfolding validate_texts
  validate_texts-member s b h = elim (Option-cases (parse {S = S} b)) [
    | inl no_member ↦ ground (arith, parse-value s)
    | inr (t, found) ↦ (t, value-parse b t found, ground (arith, parse-value s))
  ]

  -- The column went from the text of `s` to `b` along a walk of the table.
  pub record Course (s : S) (b : String) : Type 0 where
    pub path : List S
    pub last : S
    pub accepted : walk matrix s path ≡ ok last
    pub stored : e.value last ≡ b

  pub Course-here : (s : S) → Course s (e.value s)
  unfolding walk
  Course-here s = record { path = []; last = s; accepted = refl; stored = refl }

  pub Course-step : (s t : S) {b : String} → validate matrix s t ≡ ok tt → Course t b → Course s b
  unfolding walk
  Course-step s t v c = record {
    path = t ∷ c.path;
    last = c.last;
    accepted = ground (arith, c.accepted);
    stored = c.stored;
  }
