-- ===== src/Events/Service/Ready.antt =====
-- A candidate is refreshed: the tables are sound afterwards.
use news_collect.Base.{
  ℕ, min, max, ◌≤◌, ◌≡◌, refl, Option, List, [], ◌∷◌, Bool, false, ◌==◌, keep, length, All, arith,
  Bool-cases, inl, inr,
}
use news_collect.Base.Int.{ℤ}
use news_collect.Base.Order.{keys}
use news_collect.Base.Rows.{modify}
use news_collect.Base.Keys.{Unique}
use news_collect.Events.Rows.{
  EvidenceItem, EventCandidate, EventCandidateEvidence, EventCandidateStatus, candidate, confirmed,
  rejected, EvidenceProjection, MatchDecision,
}
use news_collect.Events.Scoring.{ImportanceInput, ImportanceResult}
use news_collect.Events.Store.{Tables, link_key, candidate_key, is_active_of, put_candidate}
use news_collect.Events.Aggregates.{
  active_evidence, status_after, confidence_of, counted, merged, recalculate_aggregates,
  refresh_candidate,
}
use news_collect.Events.Service.Sound.{IsCounted, IsSound, is_rejected}

status_after-rejection :
    (n : ℕ) (s : EventCandidateStatus) → is_rejected (status_after n s) ≡ (n == 0)
unfolding status_after
status_after-rejection n candidate = elim (Bool-cases (n == 0)) [
  | inl e ↦ rw e refl
  | inr e ↦ rw e refl
]
status_after-rejection n confirmed = elim (Bool-cases (n == 0)) [
  | inl e ↦ rw e refl
  | inr e ↦ rw e refl
]
status_after-rejection n rejected = elim (Bool-cases (n == 0)) [
  | inl e ↦ rw e refl
  | inr e ↦ rw e refl
]

confidence_of_le : (n : ℕ) (official : Bool) (sources : ℕ) → confidence_of n official sources ≤ 100
unfolding confidence_of
confidence_of_le n official sources = ground arith

-- The candidate with a row of the table for itself.
module _ (scorer : ImportanceInput → ImportanceResult) where
  counted-IsCounted :
      (items : List EvidenceItem) (links : List EventCandidateEvidence) (priority : Option ℤ)
      (c : EventCandidate)
      → c.first_seen_at ≤ c.latest_seen_at
      → IsCounted items links (counted scorer (active_evidence items links c.id) priority c)
  unfolding counted
  counted-IsCounted items links priority c order = record {
    evidence = refl;
    sources = refl;
    rejection = status_after-rejection (length (active_evidence items links c.id)) c.status;
    seen_order = order;
    confidence_bound = confidence_of_le _ _ _;
  }

-- Every candidate is counted but those of an id.
abbrev pub AllBut :
    List EvidenceItem → List EventCandidateEvidence → ℕ → List EventCandidate → Type 0
AllBut items links id cs = All (λ c. (c.id == id) ≡ false → IsCounted items links c) cs

put-All :
    (items : List EvidenceItem) (links : List EventCandidateEvidence) (c : EventCandidate)
    (cs : List EventCandidate)
    → AllBut items links c.id cs
    → IsCounted items links c
    → All (IsCounted items links) (modify candidate_key c.id (λ old. c) cs)
put-All items links c [] h k = tt
put-All items links c (x ∷ cs) h k = elim (Bool-cases (x.id == c.id)) [
  | inl e ↦ rw e (k, put-All items links c cs h.1 k)
  | inr e ↦ rw e (h.0 e, put-All items links c cs h.1 k)
]

-- The tables in which a candidate is about to be refreshed.
pub record Ready (tables : Tables) (c : EventCandidate) : Type 0 where
  pub ids : Unique (keys link_key tables.links)
  pub single :
      (evidence_item_id : ℕ) → length (keep (is_active_of evidence_item_id) tables.links) ≤ 1
  pub others : AllBut tables.items tables.links c.id tables.candidates
  pub order : c.first_seen_at ≤ c.latest_seen_at

module _ (scorer : ImportanceInput → ImportanceResult) where
  pub recalculate-IsSound :
      (tables : Tables) (c : EventCandidate) (priority : Option ℤ)
      → Ready tables c
      → IsSound (put_candidate (recalculate_aggregates scorer tables c priority) tables)
  unfolding put_candidate recalculate_aggregates counted
  recalculate-IsSound tables c priority r = record {
    ids = r.ids;
    single = r.single;
    counts =
        put-All tables.items tables.links (recalculate_aggregates scorer tables c priority)
          tables.candidates r.others
          (counted-IsCounted scorer tables.items tables.links priority c r.order);
  }

  pub refresh-IsSound :
      (tables : Tables) (c : EventCandidate) (projection : EvidenceProjection)
      (decision : MatchDecision)
      → Ready tables c
      → IsSound (refresh_candidate scorer tables c projection decision)
  unfolding refresh_candidate merged
  refresh-IsSound tables c projection decision r =
      recalculate-IsSound tables (merged scorer projection decision c) projection.source_priority
        (record { ids = r.ids; single = r.single; others = r.others; order = ordered _ r.order })
    where
      ordered : {a b : ℕ} (t : ℕ) → a ≤ b → min a t ≤ max b t
      ordered t h = omega arith
