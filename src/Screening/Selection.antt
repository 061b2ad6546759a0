-- ===== src/Screening/Selection.antt =====
-- src/material_agent/ml_screening/selection.py: which candidates are executed. Of the contracts of
-- ml_screening/models.py the fields that this code reads are here.
pub mod Limits
use materials_screening_agen.Prelude.{
  ℕ, String, Bool, true, false, Option, none, some, List, [], ◌∷◌, map, ◌==◌, ◌&&◌, ◌||◌, not, any,
  all, ltb, min, string_eq, if◌then◌else◌, Result, Check, ok, err, ◌>>=◌, ◌>>◌, raise_if, require,
  member, sort, text_le, select, take, named,
}

pub data Decision : Type 0 where
  pass reject uncertain failed : Decision

pub data ApplicabilityStatus : Type 0 where
  applicable not_applicable unknown : ApplicabilityStatus

pub data SelectionMode : Type 0 where
  policy_top_n explicit_ids : SelectionMode

pub data SelectionStatus : Type 0 where
  selected not_selected_budget not_requested prefilter_rejected prefilter_uncertain :
      SelectionStatus
  status_not_applicable applicability_unknown : SelectionStatus

-- MLCandidateInput
pub record Candidate : Type 0 where
  pub candidate_id : String
  pub structure_id : String
  pub publication_rank : Option ℕ

-- PreFilterEvaluation
pub record PreFilter : Type 0 where
  pub candidate_id : String
  pub decision : Decision

-- ApplicabilityAssessment
pub record Assessment : Type 0 where
  pub candidate_id : String
  pub structure_id : String
  pub status : ApplicabilityStatus

-- MLScreeningRequest
pub record Request : Type 0 where
  pub selection_mode : SelectionMode
  pub requested_candidate_ids : Option (List String)
  pub max_candidates : ℕ

-- PlannedCandidate
pub record Planned : Type 0 where
  pub candidate : Candidate
  pub pre_filter : PreFilter
  pub applicability : Assessment
  pub selection_status : SelectionStatus

-- The `ValueError` of an ID that is asked for, `KeyError`, and a contract of PlannedCandidate.
pub data SelectionError : Type 0 where
  unknown_candidate missing_key mismatched : SelectionError

abbrev pub requested_ids : Request → List String
requested_ids r = elim r.requested_candidate_ids [ none ↦ [] | some ids ↦ ids ]

abbrev pub is_explicit : Request → Bool
is_explicit r = elim r.selection_mode [ policy_top_n ↦ false | explicit_ids ↦ true ]

abbrev pub no_rank : Option ℕ → Bool
no_rank none = true
no_rank (some _) = false

-- `publication_rank or 0`
abbrev pub rank : Option ℕ → ℕ
rank none = 0
rank (some n) = n

-- The order of the keys of `_upstream_order`.
abbrev pub upstream_le : Candidate → Candidate → Bool
upstream_le c d =
    let last =
      ltb (rank c.publication_rank) (rank d.publication_rank)
      || (not (ltb (rank d.publication_rank) (rank c.publication_rank))
          && text_le c.candidate_id d.candidate_id) in
    if no_rank c.publication_rank
    then no_rank d.publication_rank && last
    else (no_rank d.publication_rank || last)

abbrev pub is_pass : Decision → Bool
is_pass pass = true
is_pass _ = false

abbrev pub is_applicable : ApplicabilityStatus → Bool
is_applicable applicable = true
is_applicable _ = false

abbrev pub is_selected : SelectionStatus → Bool
is_selected selected = true
is_selected _ = false

module _ (pre_filters : String → Option PreFilter) (applicability : String → Option Assessment)
    (request : Request) (automatic_max_candidates : ℕ) where
  abbrev pub passes : Option PreFilter → Bool
  passes none = false
  passes (some p) = is_pass p.decision

  abbrev pub applies : Option Assessment → Bool
  applies none = false
  applies (some a) = is_applicable a.status

  abbrev pub is_missing {ℓ} : {A : Type ℓ} → Option A → Bool
  is_missing none = true
  is_missing (some _) = false

  -- The look-ups of that comprehension.
  unfoldable pub look_up : Candidate → Check SelectionError
  look_up c = do
    raise_if (is_missing (pre_filters c.candidate_id)) missing_key
    raise_if (passes (pre_filters c.candidate_id) && is_missing (applicability c.candidate_id))
        missing_key

  unfoldable pub look_up_all : List Candidate → Check SelectionError
  look_up_all [] = ok tt
  look_up_all (c ∷ cs) = do look_up c; look_up_all cs

  -- What the comprehension of `executable` keeps, where the look-ups succeed.
  unfoldable pub is_executable : String → Bool
  is_executable id =
      passes (pre_filters id)
      && applies (applicability id)
      && (not (is_explicit request) || member id (requested_ids request))

  abbrev pub limit : ℕ
  limit =
      if is_explicit request
      then request.max_candidates
      else min request.max_candidates automatic_max_candidates

  -- `executable[:limit]`
  abbrev pub chosen : List Candidate → List Candidate
  chosen ordered = take limit (select (λ c. is_executable c.candidate_id) ordered)

  abbrev pub in_budget : Bool → SelectionStatus
  in_budget true = selected
  in_budget false = not_selected_budget

  abbrev pub applicability_status : Bool → ApplicabilityStatus → SelectionStatus
  applicability_status chosen_one applicable = in_budget chosen_one
  applicability_status chosen_one not_applicable = status_not_applicable
  applicability_status chosen_one unknown = applicability_unknown

  abbrev pub gate_status : Bool → Decision → ApplicabilityStatus → SelectionStatus
  gate_status chosen_one pass s = applicability_status chosen_one s
  gate_status chosen_one reject s = prefilter_rejected
  gate_status chosen_one failed s = prefilter_rejected
  gate_status chosen_one uncertain s = prefilter_uncertain

  unfoldable pub status_of : Bool → String → PreFilter → Assessment → SelectionStatus
  status_of chosen_one id p a =
      if is_explicit request && not (member id (requested_ids request))
      then not_requested
      else gate_status chosen_one p.decision a.status

  -- validate_planned_candidate: the statuses that `status_of` gives always match.
  unfoldable pub check_planned : Candidate → PreFilter → Assessment → Check SelectionError
  check_planned c p a = do
    raise_if (not (p.candidate_id == c.candidate_id)) mismatched
    raise_if (not (a.candidate_id == c.candidate_id)) mismatched
    raise_if (not (a.structure_id == c.structure_id)) mismatched

  unfoldable pub plan : List Candidate → Candidate → Result SelectionError Planned
  plan top c = do
    p ← require (pre_filters c.candidate_id) missing_key
    a ← require (applicability c.candidate_id) missing_key
    check_planned c p a
    ok (record {
      candidate = c;
      pre_filter = p;
      applicability = a;
      selection_status =
          status_of (named (λ x. x.candidate_id) top c.candidate_id) c.candidate_id p a;
    })

  unfoldable pub plan_all : List Candidate → List Candidate → Result SelectionError (List Planned)
  plan_all top [] = ok []
  plan_all top (c ∷ cs) = do p ← plan top c; ps ← plan_all top cs; ok (p ∷ ps)

  unfoldable pub select_candidates : List Candidate → Result SelectionError (List Planned)
  select_candidates candidates = do
    raise_if
        (any (requested_ids request) (λ id. not (member id (map (λ c. c.candidate_id) candidates))))
        unknown_candidate
    look_up_all (sort upstream_le candidates)
    plan_all (chosen (sort upstream_le candidates)) (sort upstream_le candidates)
