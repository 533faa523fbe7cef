-- ===== src/Events/Matching.antt =====
-- event_intelligence/matching.py: the signatures of a piece of evidence, its anchor, and the choice of
-- the candidate that it belongs to. What the code calls of hashlib, urllib and `str` is a parameter.
pub mod Decided
pub mod Exact
pub mod Signatures
pub mod Order
use news_collect.Base.{
  ℕ, suc, ◌+◌, ◌-◌, ◌*◌, ◌/◌, min, Option, none, some, List, [], ◌∷◌, ◌++◌, map, Bool, true, false,
  not, ◌&&◌, ◌||◌, ◌==◌, ltb, leb, if◌then◌else◌, seconds, any, keep, is_some,
}
use news_collect.Base.Order.{Text, codes, text_eq}
use news_collect.Base.Result.{Result, ok, err, ◌>>=◌}
use news_collect.Events.Rows.{
  MatchRule, official_identity, canonical_url, provider_external_id, entity_title_time,
  approved_hash, new_candidate, ambiguous_new_candidate, EvidenceProjection, CandidateProjection,
  StableAnchor, MatchDecision,
}
use news_collect.Events.Matching.Signatures.{
  Libraries, stable_hash, title_fingerprint, evidence_signatures, starts_with, first_with, tail_of,
  split_colon, observed_time, is_empty, sorted_texts,
}

abbrev pub rule_version : ℕ
rule_version = 1

abbrev pub has_text : Text → List Text → Bool
has_text text texts = any (text_eq text) texts

-- `any(item.startswith(prefix) for item in set(signatures) & set(candidate.identity_signatures))`
unfoldable pub shares : Text → List Text → CandidateProjection → Bool
shares prefix signatures candidate =
    any (λ item. starts_with prefix item && has_text item candidate.identity_signatures) signatures

unfoldable pub within : ℕ → EvidenceProjection → CandidateProjection → Bool
within window incoming candidate =
    leb (candidate.first_seen_at - window) (observed_time incoming)
    && leb (observed_time incoming) (candidate.latest_seen_at + window)

unfoldable pub same_title : Option Text → CandidateProjection → Bool
same_title none candidate = false
same_title (some fingerprint) candidate =
    not (is_empty fingerprint) && has_text fingerprint candidate.title_fingerprints

unfoldable pub fits_title : ℕ → Option Text → EvidenceProjection → CandidateProjection → Bool
unfolding same_title within
fits_title window fingerprint incoming candidate =
    same_title fingerprint candidate
    && any (λ item. has_text item candidate.entities) incoming.entity_refs
    && within window incoming candidate

pub record Ranked : Type 0 where
  pub rank : ℕ
  pub rule : MatchRule
  pub matched : CandidateProjection

-- The row that a candidate adds to `ranked`, if any.
unfoldable pub rank_of :
    ℕ → List Text → Option Text → EvidenceProjection → CandidateProjection → Option Ranked
unfolding shares fits_title
rank_of window signatures fingerprint incoming c =
    if shares (codes "official:") signatures c
    then some (record { rank = 1; rule = official_identity; matched = c })
    else if shares (codes "url:") signatures c
    then some (record { rank = 2; rule = canonical_url; matched = c })
    else if shares (codes "provider:") signatures c
    then some (record { rank = 3; rule = provider_external_id; matched = c })
    else if fits_title window fingerprint incoming c
    then some (record { rank = 4; rule = entity_title_time; matched = c })
    else if shares (codes "hash:") signatures c
    then some (record { rank = 5; rule = approved_hash; matched = c })
    else none

unfoldable pub add_rank : Option Ranked → List Ranked → List Ranked
add_rank none ranked = ranked
add_rank (some row) ranked = row ∷ ranked

unfoldable pub rank_all :
    (CandidateProjection → Option Ranked) → List CandidateProjection → List Ranked
unfolding add_rank
rank_all rank [] = []
rank_all rank (c ∷ cs) = add_rank (rank c) (rank_all rank cs)

-- `min(item[0] for item in ranked)`; 6 is past the last rank.
unfoldable pub best_rank : List Ranked → ℕ
best_rank [] = 6
best_rank (row ∷ rows) = min row.rank (best_rank rows)

unfoldable pub best : List Ranked → List Ranked
unfolding best_rank
best ranked = keep (λ row. row.rank == best_rank ranked) ranked

pub data Choice : Type 0 where
  nobody : Choice
  only : Ranked → Choice
  several : Choice

unfoldable pub choice : List Ranked → Choice
choice [] = nobody
choice (row ∷ []) = only row
choice (row ∷ other ∷ rows) = several

unfoldable pub strong_of : List Text → Option Text
strong_of signatures = tail_of (first_with (codes "official:") signatures)

module _ (lib : Libraries) where
  -- f"{kind}:{value_hash}"
  unfoldable pub anchor : Text → Text → StableAnchor
  unfolding stable_hash
  anchor kind value_hash = record {
    kind = kind;
    value_hash = value_hash;
    cluster_key = stable_hash lib (kind ++ codes ":" ++ value_hash);
  }

  -- The day of the event, from the epoch.
  unfoldable pub bucket : EvidenceProjection → ℕ
  bucket value = observed_time value / seconds 86400

  unfoldable pub title_anchor : EvidenceProjection → Text → StableAnchor
  unfolding anchor bucket
  title_anchor value fingerprint = anchor (codes "entity_title_time") (
      stable_hash lib (
        lib.list_repr (sorted_texts value.entity_refs)
        ++ codes ":"
        ++ fingerprint
        ++ codes ":"
        ++ lib.decimal (bucket value)))

  -- The anchor from the parts of the selected signature.
  unfoldable pub anchor_of : EvidenceProjection → Option Text → Text × Text → StableAnchor
  unfolding anchor title_anchor
  anchor_of value none (kind, value_hash) = anchor kind value_hash
  anchor_of value (some fingerprint) (kind, value_hash) =
      if text_eq kind (codes "hash")
        && not (is_empty value.entity_refs)
        && not (is_empty fingerprint)
      then title_anchor value fingerprint
      else anchor kind value_hash

  -- `next(...)` of the priorities: the first signature of the first kind that has one.
  unfoldable pub select : List Text → List Text → Result Text
  select [] signatures = err (codes "StopIteration")
  select (prefix ∷ rest) signatures = elim (first_with (prefix ++ codes ":") signatures) [
    | some item ↦ ok item
    | none ↦ select rest signatures
  ]

  abbrev pub priorities : List Text
  priorities = codes "official" ∷ codes "url" ∷ codes "provider" ∷ codes "hash" ∷ []

  unfoldable pub ambiguous_anchor : EvidenceProjection → StableAnchor
  unfolding anchor
  ambiguous_anchor value =
      anchor (codes "ambiguous_evidence") (stable_hash lib (lib.uuid value.evidence_item_id))

  unfoldable pub derive_anchor : EvidenceProjection → Bool → Result StableAnchor
  unfolding anchor_of select ambiguous_anchor evidence_signatures title_fingerprint
  derive_anchor value true =
      evidence_signatures lib value >>= λ signatures. ok (ambiguous_anchor value)
  derive_anchor value false = evidence_signatures lib value >>= λ signatures.
      select priorities signatures >>= λ selected.
      ok (anchor_of value (title_fingerprint lib value.title) (split_colon selected))

  decision : EvidenceProjection → List Text → Option ℕ → MatchRule → StableAnchor → MatchDecision
  decision incoming signatures candidate_id rule anchor = record {
    candidate_id = candidate_id;
    match_rule = rule;
    rule_version = rule_version;
    anchor = anchor;
    signatures = signatures;
    title_fingerprint = title_fingerprint lib incoming.title;
    strong_identity_hash = strong_of signatures;
  }

  unfoldable pub decide : EvidenceProjection → List Text → Choice → Result MatchDecision
  unfolding decision derive_anchor
  decide incoming signatures nobody =
      derive_anchor incoming false >>= λ a. ok (decision incoming signatures none new_candidate a)
  decide incoming signatures (only row) = derive_anchor incoming false >>= λ a.
      ok (decision incoming signatures (some row.matched.id) row.rule a)
  decide incoming signatures several = derive_anchor incoming true >>= λ a.
      ok (decision incoming signatures none ambiguous_new_candidate a)

  unfoldable pub match_existing :
      ℕ → EvidenceProjection → List CandidateProjection → Result MatchDecision
  unfolding decide rank_of rank_all best choice
  match_existing window incoming candidates = evidence_signatures lib incoming >>= λ signatures.
      decide incoming signatures (
        choice (
          best (
            rank_all (rank_of window signatures (title_fingerprint lib incoming.title) incoming)
              candidates)))
