-- ===== src/Retrieval/Ranking/Publishing.antt =====
-- What rank_and_publish (src/material_agent/retrieval/ranking.py) publishes.
use materials_screening_agen.Prelude.{
  false, ordered, ordered-sort, leb, ◌∙◌, all-implies, all-select-map, count_where-map, ℕ, ◌≤◌, ◌≡◌,
  String, Bool, true, List, map, ◌==◌, ◌&&◌, all, implies, min, string_eq, distinct, select, take,
  named, length, length-sort, length-select, length-take, count_where, count_where-sort,
  count_where-select, count_where-and, count_where-take, count_where-named, distinct-copies, copies,
  all-sort, arith,
}
use materials_screening_agen.Retrieval.Ranking.{
  rank, key_le, ranking_key, Candidate, Floats, RankingPreference, is_eligible, eligible, id_of,
  annotate, rank_and_publish,
}

module _ {F : Type 0} (f : Floats F) (preferences : List (RankingPreference F)) where
  abbrev pub key : Candidate F → String
  key = id_of f preferences

  abbrev pub fit : Candidate F → Bool
  fit = is_eligible f preferences

  abbrev highest : List (Candidate F) → ℕ → List (Candidate F)
  highest cs n = take n (eligible f preferences cs)

  abbrev high : List (Candidate F) → ℕ → Candidate F → Bool
  high cs n c = named key (highest cs n) c.candidate_id

  abbrev before : Candidate F → Candidate F → Bool
  before c d = key_le f preferences (ranking_key f preferences c) (ranking_key f preferences d)

  abbrev pub by_rank : Candidate F → Candidate F → Bool
  by_rank c d = leb (rank c.publication_rank) (rank d.publication_rank)

  by_rank_total : (c d : Candidate F) → by_rank c d ≡ false → by_rank d c ≡ true
  by_rank_total c d e = ground (arith, e)

  by_rank_trans :
      (b c d : Candidate F) → by_rank b c ≡ true → by_rank c d ≡ true → by_rank b d ≡ true
  by_rank_trans b c d bc cd = ground (arith, bc, cd)

  -- The candidates with the highest ranks are among those that are fit.
  copies-highest :
      (cs : List (Candidate F)) (n : ℕ) (k : String)
      → copies key k (highest cs n) ≤ copies key k (select fit cs)
  copies-highest cs n k = omega (
    arith,
    count_where-take (λ c. c.candidate_id == k) n (eligible f preferences cs),
    count_where-sort before (λ c. c.candidate_id == k) (select fit cs),
  )

  copies-fit :
      (cs : List (Candidate F)) (k : String) → copies key k (select fit cs) ≤ copies key k cs
  copies-fit cs k = omega (
    arith,
    count_where-select (λ c. c.candidate_id == k) fit cs,
    count_where-and fit (λ c. c.candidate_id == k) cs,
  )

  length-highest :
      (cs : List (Candidate F)) (n : ℕ) → length (highest cs n) ≡ min n (count_where fit cs)
  length-highest cs n = omega (
    arith,
    length-take n (eligible f preferences cs),
    length-sort before (select fit cs),
    length-select fit cs,
  )

  module _ (cs : List (Candidate F)) (n : ℕ) (unique : distinct (map key cs) ≡ true) where
    count_where-high : count_where (high cs n) cs ≡ length (highest cs n)
    count_where-high =
        count_where-named key (highest cs n) cs
          (λ k. omega (arith, copies-highest cs n k, copies-fit cs k))
          (λ k. distinct-copies key cs k unique)

    count_where-fit : count_where (λ c. fit c && high cs n c) cs ≡ length (highest cs n)
    count_where-fit = omega (
      arith,
      count_where-named key (highest cs n) (select fit cs) (copies-highest cs n)
          (λ k. omega (arith, copies-fit cs k, distinct-copies key cs k unique)),
      count_where-select (high cs n) fit cs,
    )

    all-fit : all cs (λ c. implies (high cs n c) (fit c)) ≡ true
    all-fit = all-implies fit (high cs n) cs (omega (arith, count_where-fit, count_where-high))

    -- Where the IDs of the candidates differ, as many are published as the limit lets and as have passed
    -- or are uncertain, and only those that have passed or are uncertain are published; and they stand in the order of
    -- their ranks.
    pub rank_and_publish-eligible :
        let published = (rank_and_publish f preferences cs n).1 in
        (length published ≡ min n (count_where fit cs))
        × (all published fit ≡ true)
        × (ordered by_rank published ≡ true)
    unfolding rank_and_publish
    rank_and_publish-eligible =
        let top = highest cs n in
        let updated = map (annotate f preferences top) cs in
        let chosen = select (λ (c : Candidate F). c.published_downstream) updated in
        (
          omega (
            arith,
            length-sort by_rank chosen,
            length-select (λ (c : Candidate F). c.published_downstream) updated,
            count_where-map (λ (c : Candidate F). c.published_downstream)
                (annotate f preferences top) cs,
            count_where-high,
            length-highest cs n,
          ),
          all-sort by_rank fit chosen
              ∙ all-select-map fit (λ (c : Candidate F). c.published_downstream)
                  (annotate f preferences top) cs all-fit,
          ordered-sort by_rank by_rank_total by_rank_trans chosen,
        )
