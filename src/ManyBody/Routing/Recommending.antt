-- ===== src/ManyBody/Routing/Recommending.antt =====
-- The solver that route_model (src/material_agent/many_body/routing.py) recommends.
use materials_screening_agen.Prelude.{
  first, first-select, ◌==◌, string_eq, str_refl, String, ◌≡◌, refl, sym, subst, ap, ◌∙◌, Bool,
  true, some, List, [], ◌∷◌, ◌&&◌, ◌||◌, not, any, inl, inr, Option-cases, Bool-cases, Check-cases,
  ok, member, select, arith, if◌then◌else◌,
}
use materials_screening_agen.ManyBody.Routing.{
  is_ready, Geometry, Features, Capability, Decision, ready, not_applicable, matches, applicable,
  simulators, scientific, available, is_control, recommended, is_none, routed, check_decision,
  route_model, control_flow_claims, is_nil,
}

module _ {A : Type 0} where
  is_nil-select : (p : A → Bool) (xs : List A) → is_nil (select p xs) ≡ not (any xs p)
  unfolding select
  is_nil-select p [] = refl
  is_nil-select p (x ∷ xs) = ground (arith, is_nil-select p xs)

  any-select : (p q : A → Bool) (xs : List A) → any (select q xs) p ≡ any xs (λ x. q x && p x)
  unfolding select
  any-select p q [] = refl
  any-select p q (x ∷ xs) = ground (arith, any-select p q xs)

  -- One test where another holds, and a third where it does not.
  any-if :
      (m k r : A → Bool) (b : Bool) (xs : List A)
      → any xs (λ x. m x && (if k x then b else r x))
        ≡ ((b && any xs (λ x. m x && k x)) || any xs (λ x. m x && (not (k x) && r x)))
  any-if m k r b [] = ground arith
  any-if m k r b (x ∷ xs) = ground (arith, any-if m k r b xs)

  is_none-first : (xs : List A) → is_none (first xs) ≡ is_nil xs
  is_none-first [] = refl
  is_none-first (x ∷ xs) = refl

select-select :
    {A : Type 0} (p q : A → Bool) (xs : List A)
    → select p (select q xs) ≡ select (λ x. q x && p x) xs
unfolding select
select-select p q [] = refl
select-select p q (x ∷ xs) = elim (Bool-cases (q x)) [
  | inl here ↦ elim (Bool-cases (p x)) [
    | inl now ↦ rw (here, now) (ap (λ ys. x ∷ ys) (select-select p q xs))
    | inr now ↦ rw (here, now) (select-select p q xs)
  ]
  | inr there ↦ rw there (select-select p q xs)
]

double_not : (c a b : Bool) → not ((c && not (not a)) || not (not b)) ≡ not ((c && a) || b)
double_not c a b = ground arith

module _ (g : Geometry) (claim : String) (registry : List Capability) (approval : Bool)
    (f : Features) where
  -- A solver that fits the model and the claim: a simulator for a claim of control flow, or a scientific
  -- solver that is registered and executable.
  abbrev pub usable : Capability → Bool
  usable c =
      matches g claim registry approval f c
      && (if c.is_mock then member claim control_flow_claims else (c.registered && c.executable))

  abbrev fitting : Capability → Bool
  fitting = matches g claim registry approval f

  abbrev real : Capability → Bool
  real c = c.registered && c.executable

  is_nil-simulators :
      is_nil (simulators g claim registry approval f)
      ≡ not (any registry (λ c. fitting c && c.is_mock))
  is_nil-simulators =
      is_nil-select (λ c. c.is_mock) (applicable g claim registry approval f)
      ∙ ap not (any-select (λ c. c.is_mock) fitting registry)

  is_nil-available :
      is_nil (available g claim registry approval f)
      ≡ not (any registry (λ c. fitting c && (not c.is_mock && real c)))
  is_nil-available =
      is_nil-select real (scientific g claim registry approval f)
      ∙ ap not (
          any-select real (λ c. not c.is_mock) (applicable g claim registry approval f)
          ∙ any-select (λ c. not c.is_mock && real c) fitting registry)

  or_choice :
      (control none_simulated none_available : Bool) (a b : List Capability)
      → is_nil a ≡ none_simulated
      → is_nil b ≡ none_available
      → is_none (if control && not (is_nil a) then first a else first b)
        ≡ not ((control && not none_simulated) || not none_available)
  or_choice control ns na a b sim avail =
      ground (arith, sim, avail, is_none-first a, is_none-first b)

  ready-usable : is_none (recommended g claim registry approval f) ≡ not (any registry usable)
  ready-usable =
      let control = member claim control_flow_claims in
      or_choice control (is_nil (simulators g claim registry approval f))
        (is_nil (available g claim registry approval f)) (simulators g claim registry approval f)
        (available g claim registry approval f) refl refl
      ∙ rw
          (
            is_nil-simulators,
            is_nil-available,
            any-if fitting (λ c. c.is_mock) real control registry,
          )
          (double_not control (any registry (λ c. fitting c && c.is_mock))
            (any registry (λ c. fitting c && (not c.is_mock && real c))))

  -- A usable solver of the registry has the ID of `c`.
  abbrev Offered : Capability → Type 0
  Offered c = any registry (λ x. usable x && x.solver_id == c.solver_id) ≡ true

  simulators-usable :
      (c : Capability)
      → member claim control_flow_claims ≡ true
      → first (simulators g claim registry approval f) ≡ some c
      → Offered c
  simulators-usable c control e =
      let (now, found) =
        first-select (λ c. fitting c && c.is_mock) registry c
          (ap first (sym (select-select (λ c. c.is_mock) fitting registry)) ∙ e) in
      found (λ x. usable x && x.solver_id == c.solver_id)
        (ground (arith, now, control, str_refl c.solver_id))

  available-usable :
      (c : Capability) → first (available g claim registry approval f) ≡ some c → Offered c
  available-usable c e =
      let (now, found) =
        first-select (λ c. fitting c && (not c.is_mock && real c)) registry c
          (ap first (
              sym (
                select-select real (λ c. not c.is_mock) (applicable g claim registry approval f)
                ∙ select-select (λ c. not c.is_mock && real c) fitting registry))
            ∙ e) in
      found (λ x. usable x && x.solver_id == c.solver_id)
        (ground (arith, now, str_refl c.solver_id))

  recommended-usable :
      (c : Capability) → recommended g claim registry approval f ≡ some c → Offered c
  recommended-usable c e = elim (Bool-cases (is_control g claim registry approval f)) [
    | inl control ↦
        simulators-usable c
          (and_left (member claim control_flow_claims)
            (not (is_nil (simulators g claim registry approval f))) control)
          (rw control at e)
    | inr other ↦ available-usable c (rw other at e)
  ]
    where
      and_left : (a b : Bool) → (a && b) ≡ true → a ≡ true
      and_left a b e = ground arith

  route_model-routed :
      (missing : Bool) (d : Decision)
      → route_model g claim registry approval missing (some f) ≡ ok d
      → routed g claim registry approval f ≡ d
  unfolding route_model
  route_model-routed missing d e =
      elim (Check-cases (check_decision (routed g claim registry approval f))) [
        | inl passed ↦ ground (arith, passed, e)
        | inr (x, refused) ↦ absurd (ground (arith, refused, e))
      ]

  status_lem :
      (none_there u : Bool)
      → none_there ≡ not u
      → is_ready (if none_there then not_applicable else ready) ≡ u
  status_lem none_there u e = ground (arith, e)

  -- A routing decision for the features of a valid model is ready exactly if the registry has a solver
  -- that fits the model and the claim and that is a simulator, where the claim is one of control flow,
  -- or is no simulator, registered and executable.
  pub route_model-usable :
      (missing : Bool) (d : Decision)
      → route_model g claim registry approval missing (some f) ≡ ok d
      → is_ready d.status ≡ any registry usable
  route_model-usable missing d e =
      subst (λ (d : Decision). is_ready d.status ≡ any registry usable)
        (route_model-routed missing d e)
        (status_lem (is_none (recommended g claim registry approval f)) (any registry usable)
          ready-usable)

  -- What a routing decision for the features of a valid model recommends is the ID of a solver that the
  -- registry has, and that fits the model and the claim and is a simulator, where the claim is one of
  -- control flow, or is no simulator, registered and executable.
  pub route_model-recommended :
      (missing : Bool) (d : Decision) (id : String)
      → route_model g claim registry approval missing (some f) ≡ ok d
      → d.recommended_solver_id ≡ some id
      → any registry (λ c. usable c && c.solver_id == id) ≡ true
  route_model-recommended missing d id e named =
      let same = ap (λ (d : Decision). d.recommended_solver_id) (route_model-routed missing d e) in
      elim (Option-cases (recommended g claim registry approval f)) [
        | inl nothing ↦ absurd (ground (arith, nothing, named, same))
        | inr (c, chosen) ↦
            let own : c.solver_id ≡ id = ground (arith, chosen, named, same) in
            subst (λ k. any registry (λ x. usable x && x.solver_id == k) ≡ true) own
              (recommended-usable c chosen)
      ]
