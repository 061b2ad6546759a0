-- ===== src/Screening/Selection/Limits.antt =====
-- How many candidates select_candidates (src/material_agent/ml_screening/selection.py) selects, and which.
use materials_screening_agen.Prelude.{
  behind, ◌>>◌, all-take, all-select, ℕ, String, ◌≡◌, ◌≤◌, refl, sym, subst, ap, ◌∙◌, Bool, true,
  false, Option, List, [], ◌∷◌, map, ◌==◌, ◌&&◌, ◌||◌, not, any, all, min, string_eq, inl, inr, ok,
  Result-cases, Check-cases, Option-cases, Bool-cases, implies, member, distinct, sort, select,
  take, named, length-take, length-select, count_where, count_where-sort, count_where-named,
  count_where-eq, count_where-and, count_where-select, count_where-take, distinct-copies, copies,
  raise_if, arith, eq_iff,
}
use materials_screening_agen.Screening.Selection.{
  Candidate, PreFilter, Assessment, Request, Planned, Decision, pass, reject, uncertain, failed,
  ApplicabilityStatus, applicable, not_applicable, unknown, unknown_candidate, is_pass,
  is_applicable, is_selected, is_explicit, requested_ids, upstream_le, is_executable, limit, chosen,
  gate_status, status_of, check_planned, plan, plan_all, look_up_all, select_candidates,
}

module _ (pre_filters : String → Option PreFilter) (applicability : String → Option Assessment)
    (request : Request) (automatic : ℕ) where
  abbrev pub executable : Candidate → Bool
  executable c = is_executable pre_filters applicability request automatic c.candidate_id

  abbrev pub selects : Planned → Bool
  selects p = is_selected p.selection_status

  abbrev pub ids : Candidate → String
  ids c = c.candidate_id

  -- What a candidate that is selected has passed.
  abbrev pub gated : Planned → Bool
  gated p =
      is_pass p.pre_filter.decision
      && is_applicable p.applicability.status
      && (not (is_explicit request) || member p.candidate.candidate_id (requested_ids request))

  gate_status-selected :
      (b : Bool) (d : Decision) (s : ApplicabilityStatus)
      → is_selected (gate_status pre_filters applicability request automatic b d s)
        ≡ (is_pass d && is_applicable s && b)
  gate_status-selected true pass applicable = refl
  gate_status-selected false pass applicable = refl
  gate_status-selected b pass not_applicable = refl
  gate_status-selected b pass unknown = refl
  gate_status-selected b reject s = refl
  gate_status-selected b uncertain s = refl
  gate_status-selected b failed s = refl

  -- A candidate as it is planned.
  record PlannedFrom (top : List Candidate) (c : Candidate) (p : Planned) : Type 0 where
    own : p.candidate ≡ c
    choice : selects p ≡ (executable c && named ids top c.candidate_id)
    gate : implies (selects p) (gated p) ≡ true

  plan-PlannedFrom :
      (top : List Candidate) (c : Candidate) (p : Planned)
      → plan pre_filters applicability request automatic top c ≡ ok p
      → PlannedFrom top c p
  unfolding plan status_of is_executable
  plan-PlannedFrom top c p e = elim (Option-cases (pre_filters c.candidate_id)) [
    | inl missing ↦ absurd (ground (arith, missing, e))
    | inr (f, filtered) ↦ elim (Option-cases (applicability c.candidate_id)) [
      | inl missing ↦ absurd (ground (arith, filtered, missing, e))
      | inr (a, assessed) ↦
          elim (Check-cases (check_planned pre_filters applicability request automatic c f a)) [
            | inr (x, refused) ↦ absurd (ground (arith, filtered, assessed, refused, e))
            | inl checked ↦
                let id = c.candidate_id in
                let b = named ids top id in
                let made : Planned = record {
                  candidate = c;
                  pre_filter = f;
                  applicability = a;
                  selection_status = status_of pre_filters applicability request automatic b id f a;
                } in
                let same : made ≡ p = ground (arith, filtered, assessed, checked, e) in
                let gates = gate_status-selected b f.decision a.status in
                subst (PlannedFrom top c) same (record {
                  own = refl;
                  choice = ground (arith, filtered, assessed, gates);
                  gate = ground (arith, gates);
                })
          ]
    ]
  ]

  record AllPlanned (top cs : List Candidate) (ps : List Planned) : Type 0 where
    owns : map (λ p. p.candidate) ps ≡ cs
    choices :
        count_where selects ps ≡ count_where (λ c. executable c && named ids top c.candidate_id) cs
    gates : all ps (λ p. implies (selects p) (gated p)) ≡ true

  plan_all-AllPlanned :
      (top cs : List Candidate) (ps : List Planned)
      → plan_all pre_filters applicability request automatic top cs ≡ ok ps
      → AllPlanned top cs ps
  unfolding plan_all count_where
  plan_all-AllPlanned top [] ps e =
      let nothing : List Planned = [] in
      let same : nothing ≡ ps = ground (arith, e) in
      subst (AllPlanned top []) same (record { owns = refl; choices = refl; gates = refl })
  plan_all-AllPlanned top (c ∷ cs) ps e =
      elim (Result-cases (plan pre_filters applicability request automatic top c)) [
        | inr (x, raised) ↦ absurd (ground (arith, raised, e))
        | inl (p, planned) ↦
            elim (Result-cases (plan_all pre_filters applicability request automatic top cs)) [
              | inr (x, raised) ↦ absurd (ground (arith, planned, raised, e))
              | inl (rest, more) ↦
                  let one = plan-PlannedFrom top c p planned in
                  let others = plan_all-AllPlanned top cs rest more in
                  let same : (p ∷ rest) ≡ ps = ground (arith, planned, more, e) in
                  subst (AllPlanned top (c ∷ cs)) same (record {
                    owns = cc (one.own, others.owns);
                    choices = ground (arith, one.choice, others.choices);
                    gates = ground (arith, one.gate, others.gates);
                  })
            ]
      ]

  -- A row that is chosen is executable, and that is a matter of its ID.
  named-executable :
      (ts : List Candidate) (k : String)
      → all ts executable ≡ true
      → named ids ts k ≡ true
      → is_executable pre_filters applicability request automatic k ≡ true
  named-executable [] k a n = absurd (ground (arith, n))
  named-executable (t ∷ ts) k a n = elim (Bool-cases (t.candidate_id == k)) [
    | inl here ↦
        ap (is_executable pre_filters applicability request automatic)
          (sym ((eq_iff t.candidate_id k).0 here))
        ∙ ground arith
    | inr there ↦ named-executable ts k (ground arith) (ground (arith, there, n))
  ]

  all-chosen : (n : ℕ) (xs : List Candidate) → all (take n (select executable xs)) executable ≡ true
  all-chosen n xs = all-take executable n (select executable xs) (all-select executable xs)

  executable-named :
      (ts xs : List Candidate)
      → all ts executable ≡ true
      → count_where (λ c. executable c && named ids ts c.candidate_id) xs
        ≡ count_where (λ c. named ids ts c.candidate_id) xs
  executable-named ts xs a =
      count_where-eq (λ c. executable c && named ids ts c.candidate_id)
        (λ c. named ids ts c.candidate_id) xs
        (λ c. elim (Bool-cases (named ids ts c.candidate_id)) [
          | inl here ↦ rw (here, named-executable ts c.candidate_id a here) refl
          | inr there ↦ ground (arith, there)
        ])

  copies-chosen :
      (n : ℕ) (xs : List Candidate) (k : String)
      → copies ids k (take n (select executable xs)) ≤ copies ids k xs
  copies-chosen n xs k = omega (
    arith,
    count_where-take (λ c. c.candidate_id == k) n (select executable xs),
    count_where-select (λ c. c.candidate_id == k) executable xs,
    count_where-and executable (λ c. c.candidate_id == k) xs,
  )

  count_where-chosen :
      (n : ℕ) (xs : List Candidate)
      → ((k : String) → copies ids k xs ≤ 1)
      → let top = take n (select executable xs) in
        count_where (λ c. executable c && named ids top c.candidate_id) xs
        ≡ min n (count_where executable xs)
  count_where-chosen n xs unique =
      let top = take n (select executable xs) in
      omega (
        arith,
        executable-named top xs (all-chosen n xs),
        count_where-named ids top xs (copies-chosen n xs) unique,
        length-take n (select executable xs),
        length-select executable xs,
      )

  module _ (candidates : List Candidate) (ps : List Planned)
      (done : select_candidates pre_filters applicability request automatic candidates
        ≡ ok ps) where
    abbrev ordered : List Candidate
    ordered = sort upstream_le candidates

    planned : AllPlanned (chosen pre_filters applicability request automatic ordered) ordered ps
    unfolding select_candidates
    planned =
        plan_all-AllPlanned (chosen pre_filters applicability request automatic ordered) ordered ps
          (behind (look_up_all pre_filters applicability request automatic ordered)
            (plan_all pre_filters applicability request automatic
              (chosen pre_filters applicability request automatic ordered) ordered)
            (behind
              (raise_if (any (requested_ids request) (λ id. not (member id (map ids candidates))))
                unknown_candidate)
              (do
                look_up_all pre_filters applicability request automatic ordered
                plan_all pre_filters applicability request automatic
                    (chosen pre_filters applicability request automatic ordered) ordered)
              done))

    -- Where the IDs of the candidates differ and the plan is made, it has each candidate once, in the order of
    -- their ranks, and as many of them are selected as the limit of the request and the policy lets and as
    -- pass both gates and are asked for.
    pub select_candidates-limit :
        distinct (map ids candidates) ≡ true
        → (map (λ p. p.candidate) ps ≡ sort upstream_le candidates)
          × (count_where selects ps
              ≡ min
                  (limit pre_filters applicability request automatic)
                  (count_where executable candidates))
    select_candidates-limit unique = (
      planned.owns,
      omega (
        arith,
        planned.choices,
        count_where-chosen (limit pre_filters applicability request automatic) ordered (λ k. omega (
          arith,
          count_where-sort upstream_le (λ c. c.candidate_id == k) candidates,
          distinct-copies ids candidates k unique,
        )),
        count_where-sort upstream_le executable candidates,
      ),
    )

    -- A candidate of the plan that is selected has passed the filter, is one that the model applies
    -- to, and was asked for by its ID where the request names IDs; also where IDs are repeated.
    pub select_candidates-gated : all ps (λ p. implies (selects p) (gated p)) ≡ true
    select_candidates-gated = planned.gates
