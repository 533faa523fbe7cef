-- ===== src/Events/Aggregates.antt =====
-- event_intelligence/service.py, `_recalculate_aggregates` and `_refresh_candidate`: what a candidate
-- holds of the evidence that is linked with it. The confidence is a number of hundredths.
use news_collect.Base.{
  ℕ, ◌+◌, ◌-◌, ◌*◌, min, max, Option, none, some, List, [], ◌∷◌, ◌++◌, Bool, ◌&&◌, ◌==◌, ltb,
  if◌then◌else◌, keep, any, length, contains,
}
use news_collect.Base.Int.{ℤ}
use news_collect.Base.Order.{Text, sorted_set}
use news_collect.Base.Rows.{find}
use news_collect.Events.Rows.{
  EvidenceItem, EventCandidate, EventCandidateEvidence, EventCandidateStatus, candidate, confirmed,
  rejected, EvidenceProjection, MatchDecision,
}
use news_collect.Events.Scoring.{ImportanceInput, ImportanceResult}
use news_collect.Events.Matching.Signatures.{observed_time, is_empty}
use news_collect.Events.Store.{Tables, item_key, put_candidate}

-- A row of the join of the active links with their evidence.
pub record ActiveEvidence : Type 0 where
  pub source_id : ℕ
  pub entity_refs : List Text
  pub official_source : Bool

abbrev pub is_active_for : ℕ → EventCandidateEvidence → Bool
is_active_for candidate_id link = link.event_candidate_id == candidate_id && link.active

unfoldable pub joined : List EvidenceItem → List EventCandidateEvidence → List ActiveEvidence
joined items [] = []
joined items (link ∷ links) =
    let rest = joined items links in
    elim (find item_key link.evidence_item_id items) [
      | some item ↦
          record {
            source_id = item.source_id;
            entity_refs = item.entity_refs;
            official_source = link.official_source;
          }
          ∷ rest
      | none ↦ rest
    ]

unfoldable pub active_evidence :
    List EvidenceItem → List EventCandidateEvidence → ℕ → List ActiveEvidence
unfolding joined
active_evidence items links candidate_id = joined items (keep (is_active_for candidate_id) links)

-- `len({row.source_id for row in active_evidence})`
unfoldable pub source_ids : List ActiveEvidence → List ℕ
source_ids [] = []
source_ids (row ∷ rows) =
    let rest = source_ids rows in if contains row.source_id rest then rest else row.source_id ∷ rest

unfoldable pub entity_refs_of : List ActiveEvidence → List Text
entity_refs_of [] = []
entity_refs_of (row ∷ rows) = row.entity_refs ++ entity_refs_of rows

unfoldable pub status_after : ℕ → EventCandidateStatus → EventCandidateStatus
status_after count rejected = if count == 0 then rejected else candidate
status_after count candidate = if count == 0 then rejected else candidate
status_after count confirmed = if count == 0 then rejected else confirmed

unfoldable pub confidence_of : ℕ → Bool → ℕ → ℕ
confidence_of evidence_count official_source source_count =
    if evidence_count == 0
    then 0
    else min 100 (45 + (if official_source then 20 else 0) + min 30 ((source_count - 1) * 15))

module _ (scorer : ImportanceInput → ImportanceResult) where
  input_of : List ActiveEvidence → Option ℤ → ImportanceInput
  input_of rows source_priority = record {
    official_source = any (λ row. row.official_source) rows;
    evidence_count = length rows;
    source_count = length (source_ids rows);
    source_priority = source_priority;
    entity_count = length (sorted_set (entity_refs_of rows));
    corroborated = ltb 1 (length (source_ids rows));
  }

  -- The candidate after the query returned these rows.
  unfoldable pub counted : List ActiveEvidence → Option ℤ → EventCandidate → EventCandidate
  unfolding input_of status_after confidence_of source_ids entity_refs_of
  counted rows source_priority c =
      let importance = scorer (input_of rows source_priority) in
      record c {
        evidence_count = length rows;
        source_count = length (source_ids rows);
        status = status_after (length rows) c.status;
        importance_score = importance.score;
        importance_reasons = importance.component_reasons;
        confidence =
            confidence_of (length rows) (any (λ row. row.official_source) rows)
              (length (source_ids rows));
      }

  unfoldable pub recalculate_aggregates : Tables → EventCandidate → Option ℤ → EventCandidate
  unfolding counted active_evidence
  recalculate_aggregates tables c source_priority =
      counted (active_evidence tables.items tables.links c.id) source_priority c

  -- `if text` of an optional text.
  unfoldable pub with_fingerprint : Option Text → List Text → List Text
  with_fingerprint none fingerprints = fingerprints
  with_fingerprint (some fingerprint) fingerprints =
      if is_empty fingerprint then fingerprints else sorted_set (fingerprint ∷ fingerprints)

  unfoldable pub or_strong : Option Text → Option Text → Option Text
  or_strong (some old) new = some old
  or_strong none none = none
  or_strong none (some new) = if is_empty new then none else some new

  unfoldable pub merged : EvidenceProjection → MatchDecision → EventCandidate → EventCandidate
  unfolding with_fingerprint or_strong
  merged projection decision c = record c {
    identity_signatures = sorted_set (c.identity_signatures ++ decision.signatures);
    title_fingerprints = with_fingerprint decision.title_fingerprint c.title_fingerprints;
    strong_identity_hash = or_strong c.strong_identity_hash decision.strong_identity_hash;
    entities = sorted_set (c.entities ++ projection.entity_refs);
    assets = sorted_set (c.assets ++ projection.asset_refs);
    topics = sorted_set (c.topics ++ projection.topic_refs);
    first_seen_at = min c.first_seen_at (observed_time projection);
    latest_seen_at = max c.latest_seen_at (observed_time projection);
  }

  unfoldable pub refresh_candidate :
      Tables → EventCandidate → EvidenceProjection → MatchDecision → Tables
  unfolding merged recalculate_aggregates
  refresh_candidate tables c projection decision =
      put_candidate
        (recalculate_aggregates tables (merged projection decision c) projection.source_priority)
        tables
