-- ===== src/Events/Service/Sound.antt =====
-- What holds of the tables between the calls of the service.
use news_collect.Base.{ℕ, ◌≤◌, ◌≡◌, List, Bool, true, false, ◌==◌, All, keep, length}
use news_collect.Base.Order.{keys}
use news_collect.Base.Keys.{Unique}
use news_collect.Events.Rows.{
  EvidenceItem, EventCandidate, EventCandidateEvidence, EventCandidateStatus, candidate, confirmed,
  rejected,
}
use news_collect.Events.Store.{Tables, link_key, is_active_of}
use news_collect.Events.Aggregates.{active_evidence, source_ids}

abbrev pub is_rejected : EventCandidateStatus → Bool
is_rejected rejected = true
is_rejected candidate = false
is_rejected confirmed = false

-- A candidate counts its active evidence and the sources of it, is rejected exactly if it has none, and
-- keeps the bounds that the table checks.
pub record IsCounted (items : List EvidenceItem) (links : List EventCandidateEvidence)
    (c : EventCandidate) : Type 0 where
  pub evidence : c.evidence_count ≡ length (active_evidence items links c.id)
  pub sources : c.source_count ≡ length (source_ids (active_evidence items links c.id))
  pub rejection : is_rejected c.status ≡ (c.evidence_count == 0)
  pub seen_order : c.first_seen_at ≤ c.latest_seen_at
  pub confidence_bound : c.confidence ≤ 100

-- No piece of evidence is in two events at once, and every candidate is up to date.
pub record IsSound (tables : Tables) : Type 0 where
  pub ids : Unique (keys link_key tables.links)
  pub single :
      (evidence_item_id : ℕ) → length (keep (is_active_of evidence_item_id) tables.links) ≤ 1
  pub counts : All (IsCounted tables.items tables.links) tables.candidates
