-- ===== src/Events/Service.antt =====
-- event_intelligence/service.py, `EventCandidateService`: one call is one transaction, and an exception
-- leaves the tables as they were. The first reads of `process` see the tables `earlier`, its writes the
-- tables as they are then, with what other transactions have committed in between. Ids and the time of
-- a call come in with `Outside`.
pub mod Assignments
pub mod Calls
pub mod Keeps
pub mod Links
pub mod Once
pub mod Ready
pub mod Refines
pub mod Takes
pub mod Removal
pub mod Sound
pub mod Succeeds
use news_collect.Base.{
  ℕ, ◌+◌, ◌*◌, Option, none, some, List, [], ◌∷◌, Bool, true, false, not, ◌&&◌, ◌||◌, ◌==◌, ltb,
  if◌then◌else◌, seconds, keep, length,
}
use news_collect.Base.Order.{Text, codes, text_eq}
use news_collect.Base.Rows.{modify}
use news_collect.Base.Result.{Result, ok, err, ◌>>=◌}
use news_collect.Events.Rows.{
  MatchRule, reviewed_regroup, EventCandidate, EventCandidateEvidence, candidate,
  EvidenceProjection, MatchDecision,
}
use news_collect.Events.Scoring.{ImportanceInput, ImportanceResult}
use news_collect.Events.Matching.Signatures.{
  Libraries, observed_time, evidence_signatures, title_fingerprint, is_empty,
}
use news_collect.Events.Matching.{rule_version, match_existing, derive_anchor, strong_of}
use news_collect.Events.Store.{
  Tables, link_key, load_evidence_projection, load_candidates, active_associations, get_candidate,
  get_by_cluster_key, add_candidate, add_link, put_candidate,
}
use news_collect.Events.Aggregates.{is_active_for, recalculate_aggregates, refresh_candidate}

pub record EventCandidateOutcome : Type 0 where
  pub event_candidate_id : ℕ
  pub cluster_key : Text
  pub status : Text
  pub match_rule : MatchRule
  pub rule_version : ℕ
  pub association_active : Bool

-- What a call does not decide: the time, and the ids that the database gives to its new rows.
pub record Outside : Type 0 where
  pub now : ℕ
  pub candidate_id : ℕ
  pub link_id : ℕ

abbrev pub not_found : Text
not_found = codes "event_candidate_not_found"

abbrev pub ambiguous : Text
ambiguous = codes "event_candidate_association_ambiguous"

-- `if value is None: raise ValueError(message)`
abbrev pub or_raise {ℓ} : {A : Type ℓ} → Text → Option A → Result A
or_raise message none = err message
or_raise message (some value) = ok value

unfoldable pub outcome : EventCandidate → EventCandidateEvidence → Text → EventCandidateOutcome
outcome c link status = record {
  event_candidate_id = c.id;
  cluster_key = c.cluster_key;
  status = status;
  match_rule = link.match_rule;
  rule_version = link.rule_version;
  association_active = link.active;
}

abbrev pub listed : Option Text → List Text
listed none = []
listed (some text) = if is_empty text then [] else text ∷ []

abbrev pub head_of {ℓ} : {A : Type ℓ} → List A → Option A
head_of [] = none
head_of (x ∷ xs) = some x

unfoldable pub new_link :
    Outside → EventCandidate → EvidenceProjection → MatchDecision → EventCandidateEvidence
new_link outside c projection decision = record {
  id = outside.link_id;
  event_candidate_id = c.id;
  evidence_item_id = projection.evidence_item_id;
  match_rule = decision.match_rule;
  rule_version = decision.rule_version;
  official_source = projection.official_source;
  active = true;
  added_at = outside.now;
  removed_at = none;
}

-- The links of the evidence that are active, and those of them with the candidate.
unfoldable pub associate_with :
    Outside
    → Tables
    → EventCandidate
    → EvidenceProjection
    → MatchDecision
    → List EventCandidateEvidence
    → List EventCandidateEvidence
    → Result (Tables × EventCandidateEvidence)
unfolding new_link
associate_with outside tables c projection decision active [] =
    if is_empty active
    then ok (
      add_link (new_link outside c projection decision) tables,
      new_link outside c projection decision,
    )
    else err ambiguous
associate_with outside tables c projection decision active (same ∷ rest) =
    if ltb 1 (length active) then err ambiguous else ok (tables, same)

unfoldable pub associate :
    Outside
    → Tables
    → EventCandidate
    → EvidenceProjection
    → MatchDecision
    → Result (Tables × EventCandidateEvidence)
unfolding associate_with
associate outside tables c projection decision =
    let active = active_associations tables projection.evidence_item_id in
    associate_with outside tables c projection decision active
      (keep (λ link. link.event_candidate_id == c.id) active)

unfoldable pub removed : ℕ → EventCandidateEvidence → EventCandidateEvidence
removed removed_at link = record link { active = false; removed_at = some removed_at }

-- `removed_at or datetime.now(UTC)`
abbrev pub or_now : Outside → Option ℕ → ℕ
or_now outside none = outside.now
or_now outside (some time) = time

module _ (lib : Libraries) (scorer : ImportanceInput → ImportanceResult) where
  unfoldable pub new_candidate_row : Outside → EvidenceProjection → MatchDecision → EventCandidate
  new_candidate_row outside projection decision =
      let importance = scorer (record {
        official_source = projection.official_source;
        evidence_count = 1;
        source_count = 1;
        source_priority = projection.source_priority;
        entity_count = length projection.entity_refs;
        corroborated = false;
      }) in
      record {
        id = outside.candidate_id;
        cluster_key = decision.anchor.cluster_key;
        anchor_type = decision.anchor.kind;
        anchor_value_hash = decision.anchor.value_hash;
        strong_identity_hash = decision.strong_identity_hash;
        identity_signatures = decision.signatures;
        title_fingerprints = listed decision.title_fingerprint;
        event_type = codes "information_event";
        status = candidate;
        canonical_title = none;
        fact_summary = none;
        first_seen_at = observed_time projection;
        latest_seen_at = observed_time projection;
        occurred_at = projection.event_time;
        published_at = projection.event_time;
        primary_entity = head_of projection.entity_refs;
        entities = projection.entity_refs;
        companies = projection.entity_refs;
        assets = projection.asset_refs;
        sectors = [];
        topics = projection.topic_refs;
        evidence_count = 1;
        source_count = 1;
        confidence = 45 + (if projection.official_source then 20 else 0);
        importance_score = importance.score;
        importance_reasons = importance.component_reasons;
      }

  -- The candidate that is added, or after an IntegrityError the one with its cluster key.
  unfoldable pub created :
      Tables → EventCandidate → Option Tables → Result (Tables × EventCandidate × Text)
  created tables c (some added) = ok (added, c, codes "created")
  created tables c none =
      or_raise (codes "IntegrityError") (get_by_cluster_key tables c.cluster_key) >>= λ existing.
      ok (tables, existing, codes "concurrent_existing")

  unfoldable pub create_or_get :
      Outside
      → Tables
      → EvidenceProjection
      → MatchDecision
      → Result (Tables × EventCandidate × Text)
  unfolding new_candidate_row created
  create_or_get outside tables projection decision =
      let c = new_candidate_row outside projection decision in
      created tables c (add_candidate c tables)

  -- The candidate of the decision.
  unfoldable pub target_of :
      Outside
      → Tables
      → EvidenceProjection
      → MatchDecision
      → Option ℕ
      → Result (Tables × EventCandidate × Text)
  unfolding create_or_get
  target_of outside tables projection decision none =
      create_or_get outside tables projection decision
  target_of outside tables projection decision (some candidate_id) =
      or_raise not_found (get_candidate tables candidate_id) >>= λ c.
      ok (tables, c, codes "matched")

  -- The link is found or added, and the candidate is refreshed.
  unfoldable pub joins :
      Outside
      → Tables
      → EventCandidate
      → EvidenceProjection
      → MatchDecision
      → Text
      → Result (Tables × EventCandidateOutcome)
  unfolding associate outcome
  joins outside tables c projection decision status =
      associate outside tables c projection decision >>= λ (linked, link).
      ok (refresh_candidate scorer linked c projection decision, outcome c link status)

  abbrev pub window : ℕ
  window = seconds 86400

  unfoldable pub process_new :
      Outside → Tables → Tables → EvidenceProjection → Result (Tables × EventCandidateOutcome)
  unfolding joins target_of
  process_new outside earlier tables projection =
      match_existing lib window projection (load_candidates earlier) >>= λ decision.
      target_of outside tables projection decision decision.candidate_id
      >>= λ (with_target, c, status). joins outside with_target c projection decision status

  unfoldable pub process_links :
      Outside
      → Tables
      → Tables
      → EvidenceProjection
      → List EventCandidateEvidence
      → Result (Tables × EventCandidateOutcome)
  unfolding process_new outcome
  process_links outside earlier tables projection [] = process_new outside earlier tables projection
  process_links outside earlier tables projection (link ∷ []) =
      or_raise not_found (get_candidate earlier link.event_candidate_id) >>= λ c.
      ok (tables, outcome c link (codes "existing"))
  process_links outside earlier tables projection (link ∷ other ∷ rest) = err ambiguous

  unfoldable pub process : Outside → Tables → Tables → ℕ → Result (Tables × EventCandidateOutcome)
  unfolding process_links
  process outside earlier tables evidence_item_id =
      or_raise (codes "evidence_item_not_found") (load_evidence_projection earlier evidence_item_id)
      >>= λ projection.
          process_links outside earlier tables projection
            (active_associations earlier evidence_item_id)

  unfoldable pub pair_links : Tables → ℕ → ℕ → List EventCandidateEvidence
  pair_links tables event_candidate_id evidence_item_id =
      keep (λ link. link.evidence_item_id == evidence_item_id)
        (keep (is_active_for event_candidate_id) tables.links)

  unfoldable pub deactivate_link :
      Tables → ℕ → ℕ → List EventCandidateEvidence → Result (Tables × EventCandidateEvidence)
  unfolding removed
  deactivate_link tables event_candidate_id removed_at [] =
      err (codes "event_candidate_evidence_not_found")
  deactivate_link tables event_candidate_id removed_at (link ∷ []) =
      let off = record tables {
        links = modify link_key link.id (removed removed_at) tables.links;
      } in
      or_raise not_found (get_candidate off event_candidate_id) >>= λ c.
      ok (put_candidate (recalculate_aggregates scorer off c none) off, removed removed_at link)
  deactivate_link tables event_candidate_id removed_at (link ∷ other ∷ rest) = err ambiguous

  unfoldable pub deactivate_association :
      Outside → Tables → ℕ → ℕ → Option ℕ → Result (Tables × EventCandidateEvidence)
  unfolding deactivate_link pair_links
  deactivate_association outside tables event_candidate_id evidence_item_id removed_at =
      deactivate_link tables event_candidate_id (or_now outside removed_at)
        (pair_links tables event_candidate_id evidence_item_id)

  unfoldable pub regroup_decision : EvidenceProjection → EventCandidate → Result MatchDecision
  regroup_decision projection target = evidence_signatures lib projection >>= λ signatures.
      derive_anchor lib projection false >>= λ anchor. ok (record {
        candidate_id = some target.id;
        match_rule = reviewed_regroup;
        rule_version = rule_version;
        anchor = anchor;
        signatures = signatures;
        title_fingerprint = title_fingerprint lib projection.title;
        strong_identity_hash = strong_of signatures;
      })

  -- `len(active) != 1 or active[0].event_candidate_id != from_candidate_id`
  abbrev pub is_only_link : ℕ → List EventCandidateEvidence → Bool
  is_only_link candidate_id [] = false
  is_only_link candidate_id (link ∷ []) = link.event_candidate_id == candidate_id
  is_only_link candidate_id (link ∷ other ∷ rest) = false

  abbrev pub unless_raise : Text → Bool → Result {0} Unit
  unless_raise message true = ok tt
  unless_raise message false = err message

  unfoldable pub regroup_association :
      Outside → Tables → ℕ → ℕ → ℕ → Result (Tables × EventCandidateOutcome)
  unfolding joins regroup_decision deactivate_association
  regroup_association outside tables evidence_item_id from_candidate_id to_candidate_id =
      unless_raise (codes "event_candidate_regroup_target_unchanged")
        (not (from_candidate_id == to_candidate_id))
      >>= λ distinct.
          or_raise (codes "evidence_item_not_found")
            (load_evidence_projection tables evidence_item_id)
          >>= λ projection.
              unless_raise ambiguous
                (is_only_link from_candidate_id (active_associations tables evidence_item_id))
              >>= λ only. or_raise not_found (get_candidate tables to_candidate_id) >>= λ target.
                  deactivate_association outside tables from_candidate_id evidence_item_id none
                  >>= λ (off, link). regroup_decision projection target >>= λ decision.
                      joins outside off target projection decision (codes "regrouped")
