-- ===== src/Dft/Workflow/Registry.antt =====
-- WorkflowTemplateRegistry of src/material_agent/dft/workflows.py.
use materials_screening_agen.Prelude.{
  Option, err, Result, String, ◌≡◌, refl, true, false, none, some, List, [], ◌∷◌, ◌++◌, map, ◌==◌,
  string_eq, str_refl, eq_iff, member, distinct, find?, ok, arith,
}
use materials_screening_agen.Dft.Workflow.{
  Template, TemplateError, unregistered, check_registry, resolve,
}

abbrev ids : List Template → List String
ids = map (λ t. t.template_id)

member-middle :
    (k : String) (xs ys : List Template) (t : Template)
    → member k (ids (xs ++ t ∷ ys)) ≡ false
    → (t.template_id == k) ≡ false
member-middle k [] ys t e = ground (arith, e)
member-middle k (x ∷ xs) ys t e = member-middle k xs ys t (ground (arith, e))

find?-distinct :
    (xs ys : List Template) (t : Template)
    → distinct (ids (xs ++ t ∷ ys)) ≡ true
    → find? (λ x. x.template_id == t.template_id) (xs ++ t ∷ ys) ≡ some t
unfolding find?
find?-distinct [] ys t e = rw (str_refl t.template_id) refl
find?-distinct (x ∷ xs) ys t e = ground (
  arith,
  e,
  member-middle x.template_id xs ys t,
  find?-distinct xs ys t,
  eq_iff x.template_id t.template_id,
  eq_iff t.template_id x.template_id,
)

abbrev found_template : Option Template → Result TemplateError Template
found_template o = elim o [ some t ↦ ok t | none ↦ err unregistered ]

-- A template of a registry that was accepted, wherever it stands in it, is what its ID resolves to.
pub check_registry-resolve :
    (xs ys : List Template) (t : Template)
    → check_registry (xs ++ t ∷ ys) ≡ ok tt
    → resolve (xs ++ t ∷ ys) t.template_id ≡ ok t
unfolding check_registry resolve
check_registry-resolve xs ys t e =
    resolved (find? (λ x. x.template_id == t.template_id) (xs ++ t ∷ ys))
      (find?-distinct xs ys t (ground (arith, e)))
  where
    resolved : (found : Option Template) → found ≡ some t → found_template found ≡ ok t
    resolved none n = absurd (ground (arith, n))
    resolved (some x) n = ground (arith, n)
