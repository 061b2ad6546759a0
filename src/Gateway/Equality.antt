-- ===== src/Gateway/Equality.antt =====
-- `==` of the records of src/material_agent/gateway/models.py: Pydantic compares field by field.
use native.Mathlib.Decide.{ℕ_discrete}
use materials_screening_agen.Prelude.{
  Eq, String, eq_iff, Bool, true, false, ◌==◌, string_eq, ◌≡◌, ◌↔◌, refl, Bool-cases, inl, inr,
}
use materials_screening_agen.Gateway.Model.{RunRequest, ResultRecord}

String-discrete : Discrete String
String-discrete a b = elim (Bool-cases (a == b)) [
  | inl same ↦ yes ((eq_iff a b).0 same)
  | inr other ↦ no (λ e. cc ((eq_iff a b).1 e))
]

pub RunRequest-discrete : Discrete RunRequest
RunRequest-discrete = hlevel (ℕ_discrete, String-discrete)

pub ResultRecord-discrete : Discrete ResultRecord
ResultRecord-discrete = hlevel (ℕ_discrete, String-discrete)

abbrev pub holds : {P : Type 0} → Dec P → Bool
holds (yes _) = true
holds (no _) = false

pub holds_iff : {P : Type 0} (d : Dec P) → (holds d ≡ true) ↔ P
holds_iff (yes p) = (λ _. p, λ _. refl)
holds_iff (no n) = (λ e. cc, λ p. absurd (n p))

instance abbrev pub request_eq : Eq RunRequest
request_eq = record {
  equal = λ a b. holds (RunRequest-discrete a b);
  equal_iff = λ a b. holds_iff (RunRequest-discrete a b);
}

instance abbrev pub result_eq : Eq ResultRecord
result_eq = record {
  equal = λ a b. holds (ResultRecord-discrete a b);
  equal_iff = λ a b. holds_iff (ResultRecord-discrete a b);
}
