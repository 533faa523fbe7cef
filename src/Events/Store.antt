-- ===== src/Events/Store.antt =====
-- event_intelligence/service.py: the tables, and the queries of `EventCandidateRepository` with the
-- inserts of the service. A piece of evidence has the references of its row; a foreign key is a number.
use news_collect.Base.{
  ℕ, Option, none, some, List, [], ◌∷◌, ◌++◌, map, Bool, ◌&&◌, ◌||◌, ◌==◌, ltb, leb, if◌then◌else◌,
  keep,
}
use news_collect.Base.Order.{Text, text_eq, sort_by}
use news_collect.Base.Rows.{find, modify}
use news_collect.Events.Rows.{
  EvidenceItem, ContentItem, EventCandidate, EventCandidateEvidence, EvidenceProjection,
  CandidateProjection,
}

pub record Tables : Type 0 where
  pub items : List EvidenceItem
  pub contents : List ContentItem
  pub candidates : List EventCandidate
  pub links : List EventCandidateEvidence

abbrev pub item_key : EvidenceItem → ℕ
item_key item = item.id

abbrev pub content_key : ContentItem → ℕ
content_key content = content.id

abbrev pub candidate_key : EventCandidate → ℕ
candidate_key candidate = candidate.id

abbrev pub link_key : EventCandidateEvidence → ℕ
link_key link = link.id

-- The row of the outer join.
unfoldable pub content_of : List ContentItem → Option ℕ → Option ContentItem
content_of contents none = none
content_of contents (some id) = find content_key id contents

unfoldable pub url_of : Option ContentItem → Option Text
url_of none = none
url_of (some content) = content.url

unfoldable pub title_of : Option ContentItem → Option Text
title_of none = none
title_of (some content) = content.title

unfoldable pub projection_of : EvidenceItem → Option ContentItem → EvidenceProjection
unfolding url_of title_of
projection_of evidence content = record {
  evidence_item_id = evidence.id;
  provider = evidence.provider;
  provider_item_id = evidence.provider_item_id;
  provider_item_hash = evidence.provider_item_hash;
  official_source = evidence.official_source_flag;
  url = url_of content;
  title = title_of content;
  event_time = evidence.event_time;
  observed_at = evidence.observed_at;
  entity_refs = evidence.entity_refs;
  asset_refs = evidence.asset_refs;
  topic_refs = evidence.topic_refs;
  source_priority = none;
}

unfoldable pub projected : List ContentItem → Option EvidenceItem → Option EvidenceProjection
unfolding projection_of content_of
projected contents none = none
projected contents (some item) =
    some (projection_of item (content_of contents item.content_item_id))

unfoldable pub load_evidence_projection : Tables → ℕ → Option EvidenceProjection
unfolding projected
load_evidence_projection tables evidence_item_id =
    projected tables.contents (find item_key evidence_item_id tables.items)

unfoldable pub candidate_projection : EventCandidate → CandidateProjection
candidate_projection value = record {
  id = value.id;
  cluster_key = value.cluster_key;
  strong_identity_hash = value.strong_identity_hash;
  identity_signatures = value.identity_signatures;
  title_fingerprints = value.title_fingerprints;
  first_seen_at = value.first_seen_at;
  latest_seen_at = value.latest_seen_at;
  entities = value.entities;
}

unfoldable pub load_candidates : Tables → List CandidateProjection
unfolding candidate_projection
load_candidates tables = map candidate_projection tables.candidates

abbrev pub is_active_of : ℕ → EventCandidateEvidence → Bool
is_active_of evidence_item_id link = link.evidence_item_id == evidence_item_id && link.active

abbrev pub added_before : EventCandidateEvidence → EventCandidateEvidence → Bool
added_before a b = ltb a.added_at b.added_at || a.added_at == b.added_at && leb a.id b.id

unfoldable pub active_associations : Tables → ℕ → List EventCandidateEvidence
active_associations tables evidence_item_id =
    sort_by added_before (keep (is_active_of evidence_item_id) tables.links)

unfoldable pub get_candidate : Tables → ℕ → Option EventCandidate
get_candidate tables candidate_id = find candidate_key candidate_id tables.candidates

unfoldable pub with_key : Text → List EventCandidate → Option EventCandidate
with_key cluster_key [] = none
with_key cluster_key (c ∷ cs) =
    let rest = with_key cluster_key cs in if text_eq c.cluster_key cluster_key then some c else rest

unfoldable pub get_by_cluster_key : Tables → Text → Option EventCandidate
unfolding with_key
get_by_cluster_key tables cluster_key = with_key cluster_key tables.candidates

-- The insert of a candidate, under the unique index on its cluster key; `none` is an IntegrityError.
unfoldable pub add_unless : EventCandidate → Tables → Option EventCandidate → Option Tables
add_unless candidate tables (some other) = none
add_unless candidate tables none =
    some (record tables { candidates = tables.candidates ++ candidate ∷ [] })

unfoldable pub add_candidate : EventCandidate → Tables → Option Tables
unfolding add_unless get_by_cluster_key
add_candidate candidate tables =
    add_unless candidate tables (get_by_cluster_key tables candidate.cluster_key)

unfoldable pub add_link : EventCandidateEvidence → Tables → Tables
add_link link tables = record tables { links = tables.links ++ link ∷ [] }

unfoldable pub put_candidate : EventCandidate → Tables → Tables
put_candidate candidate tables = record tables {
  candidates = modify candidate_key candidate.id (λ old. candidate) tables.candidates;
}
