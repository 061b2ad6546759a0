-- ===== src/Tests/ManyBody.antt =====
-- The routing of models of src/material_agent/many_body on concrete inputs.
use materials_screening_agen.Prelude.{
  ◌≡◌, refl, true, false, some, List, [], ◌∷◌, ◌==◌, string_eq, any, ok, err, select, ◌&&◌,
  is_blank,
}
use materials_screening_agen.ManyBody.Routing.{
  Geometry, Features, Capability, Decision, ready, is_ready, index_error, invalid_solver_ids,
  mismatches, check_decision, route_model,
}
use materials_screening_agen.ManyBody.Routing.Recommending.{
  usable, route_model-usable, route_model-recommended,
}

abbrev graph : Geometry
graph = record { geometry_type = "FINITE_GRAPH"; dimension = 1; boundary_condition = "OPEN" }

abbrev hubbard : Features
hubbard = record {
  real_hopping = true;
  complex_hopping = false;
  onsite_u = true;
  nonlocal_interaction = false;
  soc = false;
  temperature = "ZERO_T";
  ensemble = "CANONICAL";
  num_sites = 4;
  num_active_orbitals = 4;
  model_family = "SINGLE_BAND_HUBBARD";
}

abbrev simulator : Capability
simulator = record {
  solver_id = "mock-many-body/v1";
  is_mock = true;
  registered = true;
  executable = true;
  supported_model_families = "SINGLE_BAND_HUBBARD" ∷ [];
  supported_geometry_types = "FINITE_GRAPH" ∷ [];
  supported_dimensions = 1 ∷ 2 ∷ [];
  supports_real_hopping = true;
  supports_complex_hopping = false;
  supports_soc = false;
  supported_interaction_kinds = "ONSITE_HUBBARD_U" ∷ [];
  supported_ensembles = "CANONICAL" ∷ [];
  supported_temperatures = "ZERO_T" ∷ [];
  supported_boundaries = "OPEN" ∷ "PERIODIC" ∷ [];
  supported_observables = "workflow_lifecycle" ∷ "model_validation" ∷ [];
  max_sites = some 4;
  max_active_orbitals = some 4;
}

abbrev planned : Capability
planned = record simulator {
  solver_id = "ed/v1";
  is_mock = false;
  registered = false;
  executable = false;
  supported_observables = "ground_state_energy" ∷ [];
}

abbrev registry : List Capability
registry = simulator ∷ planned ∷ []

abbrev control_decision : Decision
control_decision = record {
  status = ready;
  executable = true;
  requires_approval = true;
  applicable_solver_ids = "mock-many-body/v1" ∷ "ed/v1" ∷ [];
  inapplicable_solver_ids = [];
  recommended_solver_id = some "mock-many-body/v1";
  scientific_capability_matches = "ed/v1" ∷ [];
  available_scientific_solvers = [];
  control_flow_simulators = "mock-many-body/v1" ∷ [];
}

control_route :
    route_model graph "control_flow" registry true false (some hubbard) ≡ ok control_decision
unfolding route_model check_decision mismatches select is_blank
control_route = refl

route_model-usable_example :
    is_ready control_decision.status
    ≡ any registry (usable graph "control_flow" registry true hubbard)
route_model-usable_example =
    route_model-usable graph "control_flow" registry true hubbard false control_decision
      control_route

route_model-recommended_example :
    any registry (λ c.
      usable graph "control_flow" registry true hubbard c && c.solver_id == "mock-many-body/v1")
    ≡ true
route_model-recommended_example =
    route_model-recommended graph "control_flow" registry true hubbard false control_decision
      "mock-many-body/v1" control_route refl

no_registry : route_model graph "control_flow" [] true false (some hubbard) ≡ err index_error
unfolding route_model
no_registry = refl

-- An ID of white space is refused.
blank_id :
    route_model graph "control_flow"
      (record simulator { solver_id = " \t" } ∷ [])
      true
      false
      (some hubbard)
    ≡ err invalid_solver_ids
unfolding route_model check_decision mismatches select is_blank
blank_id = refl
