-- ===== src/Tests/Screening.antt =====
-- The selection of candidates of src/material_agent/ml_screening on concrete inputs.
use materials_screening_agen.Prelude.{
  ℕ, String, ◌≡◌, refl, true, Option, none, some, List, [], ◌∷◌, map, ◌==◌, string_eq,
  if◌then◌else◌, ok, err, sort, select, count_where, min, all, implies,
}
use materials_screening_agen.Screening.Selection.{
  Candidate, PreFilter, Assessment, Request, Planned, Decision, pass, reject, applicable,
  policy_top_n, explicit_ids, selected, not_selected_budget, prefilter_rejected, SelectionStatus,
  upstream_le, limit, look_up, look_up_all, is_executable, status_of, check_planned, plan, plan_all,
  select_candidates, unknown_candidate,
}
use materials_screening_agen.Screening.Selection.Limits.{
  executable, selects, gated, select_candidates-limit, select_candidates-gated,
}

abbrev candidate : String → Option ℕ → Candidate
candidate id r = record { candidate_id = id; structure_id = "s"; publication_rank = r }

abbrev filters : String → Option PreFilter
filters id = some (record { candidate_id = id; decision = if id == "bad" then reject else pass })

abbrev assessments : String → Option Assessment
assessments id = some (record { candidate_id = id; structure_id = "s"; status = applicable })

abbrev request : Request
request = record {
  selection_mode = policy_top_n;
  requested_candidate_ids = none;
  max_candidates = 2;
}

abbrev candidates : List Candidate
candidates =
    candidate "unranked" none
    ∷ candidate "second" (some 2)
    ∷ candidate "bad" (some 1)
    ∷ candidate "first" (some 1)
    ∷ []

abbrev planned : String → Option ℕ → Decision → SelectionStatus → Planned
planned id r d s = record {
  candidate = candidate id r;
  pre_filter = record { candidate_id = id; decision = d };
  applicability = record { candidate_id = id; structure_id = "s"; status = applicable };
  selection_status = s;
}

abbrev plans : List Planned
plans =
    planned "bad" (some 1) reject prefilter_rejected
    ∷ planned "first" (some 1) pass selected
    ∷ planned "second" (some 2) pass selected
    ∷ planned "unranked" none pass not_selected_budget
    ∷ []

select_candidates-plans : select_candidates filters assessments request 5 candidates ≡ ok plans
unfolding select_candidates look_up_all look_up plan_all plan check_planned status_of is_executable
    sort select
select_candidates-plans = refl

unknown_request :
    select_candidates filters assessments
      (record {
        selection_mode = explicit_ids;
        requested_candidate_ids = some ("third" ∷ []);
        max_candidates = 1;
      })
      5
      candidates
    ≡ err unknown_candidate
unfolding select_candidates
unknown_request = refl

select_candidates-limit_example :
    (map (λ (p : Planned). p.candidate) plans ≡ sort upstream_le candidates)
    × (count_where (selects filters assessments request 5) plans
        ≡ min
            (limit filters assessments request 5)
            (count_where (executable filters assessments request 5) candidates))
select_candidates-limit_example =
    select_candidates-limit filters assessments request 5 candidates plans select_candidates-plans
      refl

select_candidates-gated_example :
    all plans (λ p.
      implies (selects filters assessments request 5 p) (gated filters assessments request 5 p))
    ≡ true
select_candidates-gated_example =
    select_candidates-gated filters assessments request 5 candidates plans select_candidates-plans
