-- ===== src/Tests/Retrieval.antt =====
-- The ranking of candidates of src/material_agent/retrieval on concrete inputs, with natural numbers for floats.
use materials_screening_agen.Prelude.{
  ordered, Option, ℕ, ◌+◌, ◌-◌, String, ◌≡◌, refl, true, false, none, some, List, [], ◌∷◌, leb,
  sort, select, map, length, min, all, count_where,
}
use materials_screening_agen.Retrieval.Ranking.{
  Candidate, Decision, pass, uncertain, reject, Floats, Value, number, missing, RankingPreference,
  minimize, rank_and_publish, key_le, ranking_key, property_value,
}
use materials_screening_agen.Retrieval.Ranking.Publishing.{by_rank, fit, rank_and_publish-eligible}

abbrev naturals : Floats ℕ
naturals = record {
  zero_value = 0;
  negate = λ n. 100 - n;
  distance = λ m n. (m - n) + (n - m);
  le = leb;
}

abbrev lowest_energy : List (RankingPreference ℕ)
lowest_energy = record { property = "energy_above_hull"; mode = minimize } ∷ []

abbrev candidate : String → Decision → Value ℕ → Candidate ℕ
candidate id d v = record {
  candidate_id = id;
  source_material_id = id;
  properties = record { name = "energy_above_hull"; value = v } ∷ [];
  missing_evidence = [];
  decision = d;
  publication_rank = none;
  published_downstream = false;
}

abbrev candidates : List (Candidate ℕ)
candidates =
    candidate "unknown" pass missing
    ∷ candidate "high" pass (number 7)
    ∷ candidate "bad" reject (number 1)
    ∷ candidate "doubtful" uncertain (number 0)
    ∷ candidate "low" pass (number 2)
    ∷ []

abbrev rank_of : Candidate ℕ → String × Option ℕ
rank_of c = (c.candidate_id, c.publication_rank)

published_ids :
    map rank_of (rank_and_publish naturals lowest_energy candidates 3).1
    ≡ ("low", some 1) ∷ ("high", some 2) ∷ ("unknown", some 3) ∷ []
unfolding rank_and_publish key_le ranking_key property_value sort select
published_ids = refl

rank_and_publish-eligible_example :
    let published = (rank_and_publish naturals lowest_energy candidates 3).1 in
    (length published ≡ min 3 (count_where (fit naturals lowest_energy) candidates))
    × (all published (fit naturals lowest_energy) ≡ true)
    × (ordered (by_rank naturals lowest_energy) published ≡ true)
rank_and_publish-eligible_example =
    rank_and_publish-eligible naturals lowest_energy candidates 3 refl
