-- ===== src/ManyBody/Routing.antt =====
-- src/material_agent/many_body/routing.py: which solver a validated model is routed to. The result of the
-- validation is an argument; the enums of many_body/models.py are their texts. What a decision reports beside
-- the choice (reason codes, paths, limitations, remediation, hashes, `capability_matches`) is left out.
pub mod Recommending
use materials_screening_agen.Prelude.{
  first, ℕ, String, Bool, true, false, Option, none, some, List, [], ◌∷◌, ◌++◌, map, ◌==◌, ◌&&◌,
  ◌||◌, not, any, leb, string_eq, nat_eq, if◌then◌else◌, Result, Check, ok, err, ◌>>=◌, ◌>>◌,
  raise_if, require, find?, select, member, distinct, is_blank,
}

pub record Features : Type 0 where
  pub real_hopping : Bool
  pub complex_hopping : Bool
  pub onsite_u : Bool
  pub nonlocal_interaction : Bool
  pub soc : Bool
  pub temperature : String
  pub ensemble : String
  pub num_sites : ℕ
  pub num_active_orbitals : ℕ
  pub model_family : String

pub record Geometry : Type 0 where
  pub geometry_type : String
  pub dimension : ℕ
  pub boundary_condition : String

-- SolverCapability
pub record Capability : Type 0 where
  pub solver_id : String
  pub is_mock : Bool
  pub registered : Bool
  pub executable : Bool
  pub supported_model_families : List String
  pub supported_geometry_types : List String
  pub supported_dimensions : List ℕ
  pub supports_real_hopping : Bool
  pub supports_complex_hopping : Bool
  pub supports_soc : Bool
  pub supported_interaction_kinds : List String
  pub supported_ensembles : List String
  pub supported_temperatures : List String
  pub supported_boundaries : List String
  pub supported_observables : List String
  pub max_sites : Option ℕ
  pub max_active_orbitals : Option ℕ

abbrev pub is_nil {ℓ} : {A : Type ℓ} → List A → Bool
is_nil [] = true
is_nil (_ ∷ _) = false

-- `limit is not None and used > limit`
abbrev pub within_limit : Option ℕ → ℕ → Bool
within_limit none used = true
within_limit (some limit) used = leb used limit

abbrev pub control_flow_claims : List String
control_flow_claims = "workflow_lifecycle" ∷ "model_validation" ∷ "control_flow" ∷ []

-- A path and a reason code, where a check fails.
pub record Mismatch : Type 0 where
  pub field_path : String
  pub reason_code : String

abbrev pub failing : String → Bool → String → List Mismatch → List Mismatch
failing path passed code rest =
    if passed then rest else record { field_path = path; reason_code = code } ∷ rest

unfoldable pub mismatches : Geometry → Features → String → Capability → List Mismatch
mismatches g f claim c =
    failing "model_family" (member f.model_family c.supported_model_families)
      "MODEL_FAMILY_UNSUPPORTED"
      (failing "geometry.geometry_type" (member g.geometry_type c.supported_geometry_types)
        "GEOMETRY_UNSUPPORTED"
        (failing "geometry.dimension"
          (is_nil c.supported_dimensions || any c.supported_dimensions (λ n. n == g.dimension))
          "DIMENSION_UNSUPPORTED"
          (failing "one_body.is_complex"
            ((f.complex_hopping && c.supports_complex_hopping)
              || (f.real_hopping && c.supports_real_hopping))
            "COMPLEX_HOPPING_UNSUPPORTED"
            (failing "basis.includes_soc" (not f.soc || c.supports_soc) "SOC_UNSUPPORTED" (
              failing "interactions"
                (f.onsite_u
                  && not f.nonlocal_interaction
                  && member "ONSITE_HUBBARD_U" c.supported_interaction_kinds)
                "INTERACTION_TERM_UNSUPPORTED"
                (failing "state_points"
                  (member f.temperature c.supported_temperatures
                    && member f.ensemble c.supported_ensembles)
                  (if f.temperature == "ZERO_T"
                    then "ENSEMBLE_UNSUPPORTED"
                    else "FINITE_T_UNSUPPORTED")
                  (failing "geometry.boundary_condition"
                    (member g.boundary_condition c.supported_boundaries) "BOUNDARY_UNSUPPORTED"
                    (failing "requested_claim"
                      (c.is_mock
                        || member claim control_flow_claims
                        || member claim c.supported_observables)
                      "OBSERVABLE_UNSUPPORTED"
                      (failing "geometry.num_sites" (within_limit c.max_sites f.num_sites)
                        "HILBERT_SPACE_LIMIT"
                        (failing "basis.orbitals"
                          (within_limit c.max_active_orbitals f.num_active_orbitals)
                          "HILBERT_SPACE_LIMIT" []))))))))))

pub data RoutingStatus : Type 0 where
  ready not_applicable blocked : RoutingStatus

-- SolverRoutingDecision
pub record Decision : Type 0 where
  pub status : RoutingStatus
  pub executable : Bool
  pub requires_approval : Bool
  pub applicable_solver_ids : List String
  pub inapplicable_solver_ids : List String
  pub recommended_solver_id : Option String
  pub scientific_capability_matches : List String
  pub available_scientific_solvers : List String
  pub control_flow_simulators : List String

-- The `ValueError`s of SolverRoutingDecision, and the `IndexError` of `registry.capabilities[0]`.
pub data RoutingError : Type 0 where
  invalid_solver_ids recommended_not_applicable ready_without_solver executable_without_solver :
      RoutingError
  index_error : RoutingError

abbrev pub solver_ids : List Capability → List String
solver_ids = map (λ c. c.solver_id)

abbrev pub missing_in : List String → Option String → Bool
missing_in ids none = false
missing_in ids (some id) = not (member id ids)

abbrev pub is_ready : RoutingStatus → Bool
is_ready ready = true
is_ready _ = false

abbrev pub is_none {ℓ} : {A : Type ℓ} → Option A → Bool
is_none none = true
is_none (some _) = false

-- _unique
abbrev pub check_unique : List String → Check RoutingError
check_unique ids = raise_if (any ids is_blank || not (distinct ids)) invalid_solver_ids

-- routing_guard, after the `_unique` of its fields
unfoldable pub check_decision : Decision → Check RoutingError
check_decision d = do
  check_unique d.applicable_solver_ids
  check_unique d.inapplicable_solver_ids
  raise_if (missing_in d.applicable_solver_ids d.recommended_solver_id) recommended_not_applicable
  raise_if (is_ready d.status && is_none d.recommended_solver_id) ready_without_solver
  raise_if
      (d.executable && is_nil d.available_scientific_solvers && is_nil d.control_flow_simulators)
      executable_without_solver

module _ (g : Geometry) (claim : String) (registry : List Capability)
    (require_approval : Bool) where
  abbrev pub matches : Features → Capability → Bool
  matches f c = is_nil (mismatches g f claim c)

  abbrev pub applicable : Features → List Capability
  applicable f = select (matches f) registry

  abbrev pub simulators : Features → List Capability
  simulators f = select (λ c. c.is_mock) (applicable f)

  abbrev pub scientific : Features → List Capability
  scientific f = select (λ c. not c.is_mock) (applicable f)

  abbrev pub available : Features → List Capability
  available f = select (λ c. c.registered && c.executable) (scientific f)

  abbrev pub is_control : Features → Bool
  is_control f = member claim control_flow_claims && not (is_nil (simulators f))

  abbrev pub recommended : Features → Option Capability
  recommended f = if is_control f then first (simulators f) else first (available f)

  abbrev pub id_of : Option Capability → Option String
  id_of none = none
  id_of (some c) = some c.solver_id

  abbrev pub is_executable : Features → Bool
  is_executable f = is_control f || not (is_nil (available f))

  abbrev pub routed : Features → Decision
  routed f = record {
    status = if is_none (recommended f) then not_applicable else ready;
    executable = is_executable f;
    requires_approval = is_executable f && require_approval;
    applicable_solver_ids = solver_ids (applicable f);
    inapplicable_solver_ids =
        solver_ids (select (λ c. not (member c.solver_id (solver_ids (applicable f)))) registry);
    recommended_solver_id = id_of (recommended f);
    scientific_capability_matches = solver_ids (scientific f);
    available_scientific_solvers = solver_ids (available f);
    control_flow_simulators = solver_ids (simulators f);
  }

  -- Where the validation has not found the model ready; `missing` is BLOCKED_MISSING_INPUT.
  abbrev pub unrouted : Bool → Decision
  unrouted missing = record {
    status = if missing then blocked else not_applicable;
    executable = false;
    requires_approval = false;
    applicable_solver_ids = [];
    inapplicable_solver_ids = [];
    recommended_solver_id = none;
    scientific_capability_matches = [];
    available_scientific_solvers = [];
    control_flow_simulators = [];
  }

  -- The features are those of a validation that is READY.
  unfoldable pub route_model : Bool → Option Features → Result RoutingError Decision
  route_model missing none = do
    raise_if (is_nil registry) index_error
    check_decision (unrouted missing)
    ok (unrouted missing)
  route_model missing (some f) = do
    raise_if (is_nil registry) index_error
    check_decision (routed f)
    ok (routed f)
