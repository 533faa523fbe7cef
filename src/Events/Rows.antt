-- ===== src/Events/Rows.antt =====
-- The data of event_intelligence: the value types of matching.py and the columns of the tables of
-- db/models.py that service.py reads or writes. An id is a number, an instant a number of microseconds
-- since the epoch, `confidence` a number of hundredths.
use news_collect.Base.{ℕ, Option, List, Bool}
use news_collect.Base.Int.{ℤ}
use news_collect.Base.Order.{Text}

pub data MatchRule : Type 0 where
  existing_association : MatchRule
  official_identity : MatchRule
  canonical_url : MatchRule
  provider_external_id : MatchRule
  entity_title_time : MatchRule
  approved_hash : MatchRule
  new_candidate : MatchRule
  ambiguous_new_candidate : MatchRule
  reviewed_regroup : MatchRule

pub record EvidenceProjection : Type 0 where
  pub evidence_item_id : ℕ
  pub provider : Text
  pub provider_item_id : Option Text
  pub provider_item_hash : Text
  pub official_source : Bool
  pub url : Option Text
  pub title : Option Text
  pub event_time : Option ℕ
  pub observed_at : ℕ
  pub entity_refs : List Text
  pub asset_refs : List Text
  pub topic_refs : List Text
  pub source_priority : Option ℤ

pub record CandidateProjection : Type 0 where
  pub id : ℕ
  pub cluster_key : Text
  pub strong_identity_hash : Option Text
  pub identity_signatures : List Text
  pub title_fingerprints : List Text
  pub first_seen_at : ℕ
  pub latest_seen_at : ℕ
  pub entities : List Text

pub record StableAnchor : Type 0 where
  pub kind : Text
  pub value_hash : Text
  pub cluster_key : Text

pub record MatchDecision : Type 0 where
  pub candidate_id : Option ℕ
  pub match_rule : MatchRule
  pub rule_version : ℕ
  pub anchor : StableAnchor
  pub signatures : List Text
  pub title_fingerprint : Option Text
  pub strong_identity_hash : Option Text

pub record EvidenceItem : Type 0 where
  pub id : ℕ
  pub source_id : ℕ
  pub provider : Text
  pub content_item_id : Option ℕ
  pub provider_item_id : Option Text
  pub provider_item_hash : Text
  pub event_time : Option ℕ
  pub observed_at : ℕ
  pub official_source_flag : Bool
  pub entity_refs : List Text
  pub asset_refs : List Text
  pub topic_refs : List Text

pub record ContentItem : Type 0 where
  pub id : ℕ
  pub url : Option Text
  pub title : Option Text

pub data EventCandidateStatus : Type 0 where
  candidate : EventCandidateStatus
  confirmed : EventCandidateStatus
  rejected : EventCandidateStatus

pub record EventCandidate : Type 0 where
  pub id : ℕ
  pub cluster_key : Text
  pub anchor_type : Text
  pub anchor_value_hash : Text
  pub strong_identity_hash : Option Text
  pub identity_signatures : List Text
  pub title_fingerprints : List Text
  pub event_type : Text
  pub status : EventCandidateStatus
  pub canonical_title : Option Text
  pub fact_summary : Option Text
  pub first_seen_at : ℕ
  pub latest_seen_at : ℕ
  pub occurred_at : Option ℕ
  pub published_at : Option ℕ
  pub primary_entity : Option Text
  pub entities : List Text
  pub companies : List Text
  pub assets : List Text
  pub sectors : List Text
  pub topics : List Text
  pub evidence_count : ℕ
  pub source_count : ℕ
  pub confidence : ℕ
  pub importance_score : ℕ
  pub importance_reasons : List Text

pub record EventCandidateEvidence : Type 0 where
  pub id : ℕ
  pub event_candidate_id : ℕ
  pub evidence_item_id : ℕ
  pub match_rule : MatchRule
  pub rule_version : ℕ
  pub official_source : Bool
  pub active : Bool
  pub added_at : ℕ
  pub removed_at : Option ℕ
