-- ===== src/Events/Scoring.antt =====
-- event_intelligence/scoring.py: the importance of an event, as points with their reasons. The score is
-- a float of whole points there, and a number here; the decimal text of a number is a parameter.
pub mod Explained
use news_collect.Base.{
  ℕ, ◌+◌, ◌-◌, ◌*◌, min, Option, none, some, List, [], ◌∷◌, ◌++◌, map, Bool, true, false, ◌==◌,
  if◌then◌else◌,
}
use news_collect.Base.Int.{ℤ, pos, negsuc}
use news_collect.Base.Order.{Text, codes}

pub record ImportanceInput : Type 0 where
  pub official_source : Bool
  pub evidence_count : ℕ
  pub source_count : ℕ
  pub source_priority : Option ℤ
  pub entity_count : ℕ
  pub corroborated : Bool

pub record ImportanceResult : Type 0 where
  pub score : ℕ
  pub component_reasons : List Text
  pub scoring_version : ℕ

-- `max(0, value.source_priority or 0)`
unfoldable pub or_zero : Option ℤ → ℕ
or_zero none = 0
or_zero (some (pos n)) = n
or_zero (some (negsuc n)) = 0

-- A component of the score: its name and its points.
unfoldable pub diversity : ImportanceInput → ℕ
diversity value = min 20 ((value.source_count - 1) * 10)

unfoldable pub corroboration : ImportanceInput → ℕ
corroboration value = if value.corroborated then 15 else 0

unfoldable pub entity : ImportanceInput → ℕ
entity value = min 15 (value.entity_count * 5)

unfoldable pub priority : ImportanceInput → ℕ
unfolding or_zero
priority value = min 10 (or_zero value.source_priority)

unfoldable pub official_points : ImportanceInput → List (Text × ℕ)
official_points value = if value.official_source then (codes "official_source", 30) ∷ [] else []

unfoldable pub components : ImportanceInput → List (Text × ℕ)
unfolding official_points diversity corroboration entity priority
components value =
    if value.evidence_count == 0
    then (codes "no_active_evidence", 0) ∷ []
    else (codes "base", 10) ∷ official_points value
      ++ (codes "source_diversity", diversity value)
        ∷ (codes "corroboration", corroboration value)
        ∷ (codes "entity_relevance", entity value)
        ∷ (codes "source_priority", priority value)
        ∷ []

-- `score`, as the code adds it up.
unfoldable pub points : ImportanceInput → ℕ
unfolding diversity corroboration entity priority
points value =
    let official = if value.official_source then 30 else 0 in
    if value.evidence_count == 0
    then 0
    else min 100
        (10 + official + diversity value + corroboration value + entity value + priority value)

module _ (decimal : ℕ → Text) where
  -- f"{name}:{points}"
  unfoldable pub reason : Text × ℕ → Text
  reason (name, n) = name ++ codes ":" ++ decimal n

  unfoldable pub score : ImportanceInput → ImportanceResult
  unfolding points components reason
  score value = record {
    score = points value;
    component_reasons = map reason (components value);
    scoring_version = 1;
  }
