-- ===== src/Events/Scoring/Explained.antt =====
-- What the points of an event say.
use news_collect.Base.{
  ℕ, ◌+◌, ◌≤◌, ◌≡◌, refl, List, [], ◌∷◌, map, ◌==◌, arith, inl, inr, Bool-cases,
}
use news_collect.Base.Order.{Text}
use news_collect.Events.Scoring.{
  ImportanceInput, diversity, corroboration, entity, priority, official_points, components, points,
  score, reason,
}

abbrev pub total : List (Text × ℕ) → ℕ
total [] = 0
total ((name, n) ∷ rest) = n + total rest

points-total : (value : ImportanceInput) → points value ≡ total (components value)
unfolding points components official_points diversity corroboration entity priority
points-total value = elim (Bool-cases (value.evidence_count == 0)) [
  | inl e ↦ rw e refl
  | inr e ↦ rw e (elim (Bool-cases value.official_source) [
    | inl o ↦ rw o (ground arith)
    | inr o ↦ rw o (ground arith)
  ])
]

points_bounded : (value : ImportanceInput) → points value ≤ 100
unfolding points
points_bounded value = ground arith

module _ (decimal : ℕ → Text) where
  -- The importance of any input is explained by its reasons: each reason is a name with its points,
  -- the score is the sum of those points, so that the cap of 100 takes nothing away, and it is at
  -- most 100.
  pub score-explained :
      (value : ImportanceInput)
      → (parts : List (Text × ℕ)) × ((score decimal value).component_reasons
          ≡ map (reason decimal) parts)
        × ((score decimal value).score ≡ total parts)
        × ((score decimal value).score ≤ 100)
  unfolding score
  score-explained value = (components value, refl, points-total value, points_bounded value)
