-- ===== src/Retrieval/Ranking.antt =====
-- src/material_agent/retrieval/ranking.py: the candidates that are published downstream, and their ranks. Of
-- CandidateAuditRecord (retrieval/models.py) the fields that this code reads or writes are here.
pub mod Publishing
use materials_screening_agen.Prelude.{
  ℕ, zero, suc, ◌+◌, String, Bool, true, false, Option, none, some, List, [], ◌∷◌, map, ◌==◌, ◌&&◌,
  ◌||◌, not, ltb, leb, string_eq, if◌then◌else◌, sort, text_le, select, take, named, length,
}

pub data Decision : Type 0 where
  pass reject uncertain failed : Decision

-- A binary64 number and what the code does with it; `le` is `<=`.
pub record Floats (F : Type 0) : Type 0 where
  pub zero_value : F
  pub negate : F → F
  pub distance : F → F → F
  pub le : F → F → Bool

-- `float | int | bool | str | None`; a number is kept as `float(value)`.
pub data Value (F : Type 0) : Type 0 where
  number : F → Value F
  boolean : Bool → Value F
  text : String → Value F
  missing : Value F

pub record PropertyValue (F : Type 0) : Type 0 where
  pub name : String
  pub value : Value F

-- RankingMode, with the target that it has to have.
pub data RankingMode (F : Type 0) : Type 0 where
  minimize maximize : RankingMode F
  target : F → RankingMode F

pub record RankingPreference (F : Type 0) : Type 0 where
  pub property : String
  pub mode : RankingMode F

pub record Candidate (F : Type 0) : Type 0 where
  pub candidate_id : String
  pub source_material_id : String
  pub properties : List (PropertyValue F)
  pub missing_evidence : List String
  pub decision : Decision
  pub publication_rank : Option ℕ
  pub published_downstream : Bool

-- The tuple of `ranking_key`; `scores` are its pairs for the preferences.
pub record Key (F : Type 0) : Type 0 where
  pub order : ℕ
  pub scores : List (ℕ × F)
  pub missing_count : ℕ
  pub source : String

abbrev pub decision_order : Decision → ℕ
decision_order pass = 0
decision_order uncertain = 1
decision_order reject = 2
decision_order failed = 3

abbrev pub is_eligible_decision : Decision → Bool
is_eligible_decision pass = true
is_eligible_decision uncertain = true
is_eligible_decision reject = false
is_eligible_decision failed = false

-- A text that stands under the name of a property is passed over.
abbrev pub value_or : {F : Type 0} → Value F → Option F → Option F
value_or (number f) rest = some f
value_or (boolean _) rest = none
value_or missing rest = none
value_or (text _) rest = rest

unfoldable pub property_value : {F : Type 0} → List (PropertyValue F) → String → Option F
property_value [] name = none
property_value (p ∷ ps) name =
    let rest = property_value ps name in if p.name == name then value_or p.value rest else rest

-- Tuples compare by their first difference.
abbrev pub first_difference : Bool → Bool → Bool → Bool
first_difference less greater rest = less || (not greater && rest)

-- `publication_rank or 0`
abbrev pub rank : Option ℕ → ℕ
rank none = 0
rank (some n) = n

-- `rank_by_id.get(candidate_id)`, numbered from `start`: of two candidates with an ID, the later one.
abbrev pub rank_by_id : {F : Type 0} → ℕ → List (Candidate F) → String → Option ℕ
rank_by_id start [] id = none
rank_by_id start (c ∷ cs) id =
    let later = rank_by_id (suc start) cs id in
    elim later [ some n ↦ some n | none ↦ if c.candidate_id == id then some start else none ]

module _ {F : Type 0} (f : Floats F) (preferences : List (RankingPreference F)) where
  abbrev pub score_value : RankingMode F → F → F
  score_value minimize x = x
  score_value maximize x = f.negate x
  score_value (target t) x = f.distance x t

  abbrev pub score : RankingMode F → Option F → ℕ × F
  score mode none = (1, f.zero_value)
  score mode (some x) = (0, score_value mode x)

  unfoldable pub ranking_key : Candidate F → Key F
  ranking_key c = record {
    order = decision_order c.decision;
    scores = map (λ p. score p.mode (property_value c.properties p.property)) preferences;
    missing_count = length c.missing_evidence;
    source = c.source_material_id;
  }

  abbrev pub number_le : ℕ → ℕ → Bool → Bool
  number_le m n rest = first_difference (ltb m n) (ltb n m) rest

  abbrev pub scores_le : List (ℕ × F) → List (ℕ × F) → Bool → Bool
  scores_le [] _ rest = rest
  scores_le (_ ∷ _) [] rest = rest
  scores_le ((m, x) ∷ xs) ((n, y) ∷ ys) rest =
      let more = scores_le xs ys rest in
      number_le m n (first_difference (not (f.le y x)) (not (f.le x y)) more)

  unfoldable pub key_le : Key F → Key F → Bool
  key_le a b = number_le a.order b.order (
      scores_le a.scores b.scores
        (number_le a.missing_count b.missing_count (text_le a.source b.source)))

  abbrev pub is_eligible : Candidate F → Bool
  is_eligible c = is_eligible_decision c.decision

  abbrev pub eligible : List (Candidate F) → List (Candidate F)
  eligible candidates =
      sort (λ c d. key_le (ranking_key c) (ranking_key d)) (select is_eligible candidates)

  abbrev pub id_of : Candidate F → String
  id_of c = c.candidate_id

  abbrev pub annotate : List (Candidate F) → Candidate F → Candidate F
  annotate top c = record c {
    published_downstream = named id_of top c.candidate_id;
    publication_rank = rank_by_id 1 top c.candidate_id;
  }

  -- The audit records and those that are published.
  unfoldable pub rank_and_publish : List (Candidate F) → ℕ → List (Candidate F) × List (Candidate F)
  rank_and_publish candidates max_candidates =
      let top = take max_candidates (eligible candidates) in
      let updated = map (annotate top) candidates in
      (
        updated,
        sort (λ c d. leb (rank c.publication_rank) (rank d.publication_rank))
            (select (λ c. c.published_downstream) updated),
      )
