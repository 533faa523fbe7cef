-- ===== src/Events/Tests.antt =====
-- Runs of the event service on small tables.
use mathlib.Core.List.{Permᴰ}
use news_collect.Base.{
  ℕ, ◌≤◌, ◌≡◌, refl, none, some, List, [], ◌∷◌, ◌++◌, map, true, false, arith, ◌+◌,
}
use news_collect.Base.Order.{Text, codes, text_eq, text_lt, sort_by, sorted_set, add_text}
use news_collect.Base.Result.{Result, ok, err}
use news_collect.Events.Rows.{
  EvidenceItem, EvidenceProjection, CandidateProjection, MatchDecision, existing_association,
}
use news_collect.Events.Scoring.{ImportanceInput, ImportanceResult, score, reason}
use news_collect.Events.Scoring.Explained.{total, score-explained}
use news_collect.Events.Matching.{match_existing, rank_of}
use news_collect.Events.Matching.Exact.{Chosen}
use news_collect.Events.Matching.Decided.{match_existing-Chosen}
use news_collect.Events.Matching.Order.{match_existing-Perm}
use news_collect.Events.Matching.Signatures.{
  Libraries, UrlParts, evidence_signatures, title_fingerprint, first_with,
}
use news_collect.Events.Aggregates.{refresh_candidate}
use news_collect.Events.Store.{
  active_associations, add_candidate, put_candidate, add_link, get_candidate, projection_of, Tables,
  load_evidence_projection, load_candidates,
}
use news_collect.Events.Service.Assignments.{Assigns, processing, assignment}
use news_collect.Events.Service.Refines.{Calls-Assigns}
use news_collect.Events.Service.{deactivate_association, Outside, EventCandidateOutcome, process}
use news_collect.Events.Service.Sound.{IsSound}
use news_collect.Events.Service.Calls.{here, next, processes, Reach-IsSound}
use news_collect.Events.Service.Once.{process-once}
use news_collect.Events.Service.Succeeds.{AreLinked, process-ok}
use news_collect.Events.Service.Removal.{IsRemoved, deactivate_association-IsRemoved}

abbrev decimal : ℕ → Text
decimal n = n ∷ []

abbrev parts : UrlParts
parts = record {
  scheme = codes "https";
  hostname = some (codes "n");
  port = ok none;
  path = codes "/";
  query = [];
}

abbrev lib : Libraries
lib = record {
  sha256_hex = λ text. text;
  casefold = λ text. text;
  strip = λ text. text;
  urlsplit = λ text. ok parts;
  parse_qsl = λ text. [];
  urlencode = λ items. [];
  urlunsplit = λ scheme netloc path query. netloc;
  decimal = decimal;
  uuid = decimal;
  list_repr = λ texts. [];
}

abbrev scorer : ImportanceInput → ImportanceResult
scorer value = score decimal value

abbrev item : ℕ → ℕ → EvidenceItem
item id source_id = record {
  id = id;
  source_id = source_id;
  provider = codes "p";
  content_item_id = none;
  provider_item_id = some (codes "x");
  provider_item_hash = id ∷ [];
  event_time = none;
  observed_at = 100 + id;
  official_source_flag = false;
  entity_refs = codes "A" ∷ [];
  asset_refs = [];
  topic_refs = [];
}

-- Two sources that report one item of the provider.
abbrev empty : Tables
empty = record { items = item 1 7 ∷ item 2 8 ∷ []; contents = []; candidates = []; links = [] }

abbrev outside : ℕ → Outside
outside n = record { now = 1000 + n; candidate_id = 20 + n; link_id = 30 + n }

abbrev after {ℓ} : {A : Type ℓ} → Result (Tables × A) → Tables
after (ok (tables, a)) = tables
after (err e) = empty

abbrev outcome_of : Result (Tables × EventCandidateOutcome) → EventCandidateOutcome
outcome_of (ok (tables, o)) = o
outcome_of (err e) = record {
  event_candidate_id = 0;
  cluster_key = [];
  status = e;
  match_rule = existing_association;
  rule_version = 0;
  association_active = false;
}

abbrev first_call : Result (Tables × EventCandidateOutcome)
first_call = process lib scorer (outside 1) empty empty 1

abbrev one_event : Tables
one_event = after first_call

abbrev second_call : Result (Tables × EventCandidateOutcome)
second_call = process lib scorer (outside 2) one_event one_event 2

abbrev two_sources : Tables
two_sources = after second_call

counts_of : Tables → List (ℕ × ℕ × ℕ × ℕ)
counts_of tables =
    map (λ c. (c.id, c.evidence_count, c.source_count, c.importance_score)) tables.candidates

first_test : first_call ≡ ok (one_event, outcome_of first_call)
unfolding process load_evidence_projection active_associations sort_by match_existing
    load_candidates first_with add_candidate
first_test = refl

second_test : counts_of two_sources ≡ (21, 2, 2, 40) ∷ []
unfolding process counts_of load_evidence_projection active_associations sort_by match_existing
    load_candidates first_with add_candidate refresh_candidate put_candidate add_link sorted_set
    add_text text_eq text_lt get_candidate score
second_test = refl

empty-IsSound : IsSound empty
empty-IsSound = record { ids = tt; single = λ e. omega arith; counts = tt }

Reach-IsSound_example : IsSound one_event
Reach-IsSound_example =
    Reach-IsSound lib scorer
      (next here (processes (outside 1) empty 1 (outcome_of first_call) refl first_test))
      empty-IsSound

process-once_example :
    process lib scorer (outside 5) one_event one_event 1
    ≡ ok (one_event, record (outcome_of first_call) { status = codes "existing" })
process-once_example =
    process-once lib scorer (outside 1) (outside 5) empty one_event 1 (outcome_of first_call)
      first_test

abbrev incoming : EvidenceProjection
incoming = projection_of (item 2 8) none

abbrev signatures : List Text
signatures = codes "provider:p:x" ∷ (codes "hash:p:" ++ 2 ∷ []) ∷ []

signatures_test : evidence_signatures lib incoming ≡ ok signatures
unfolding evidence_signatures projection_of
signatures_test = refl

-- Two candidates, one of the same hash and one of the same item of the provider.
abbrev known : ℕ → List Text → CandidateProjection
known id signatures = record {
  id = id;
  cluster_key = [];
  strong_identity_hash = none;
  identity_signatures = signatures;
  title_fingerprints = [];
  first_seen_at = 90;
  latest_seen_at = 95;
  entities = [];
}

abbrev by_hash : CandidateProjection
by_hash = known 3 ((codes "hash:p:" ++ 2 ∷ []) ∷ [])

abbrev by_item : CandidateProjection
by_item = known 4 (codes "provider:p:x" ∷ [])

match_existing-Perm_example :
    match_existing lib 10 incoming (by_hash ∷ by_item ∷ [])
    ≡ match_existing lib 10 incoming (by_item ∷ by_hash ∷ [])
match_existing-Perm_example = match_existing-Perm lib 10 incoming (Permᴰ.swap refl refl)

match_existing-Chosen_example :
    (d : MatchDecision) × (match_existing lib 10 incoming (by_hash ∷ by_item ∷ []) ≡ ok d)
    × (d.signatures ≡ signatures)
    × Chosen
        (rank_of 10 signatures (title_fingerprint lib incoming.title) incoming)
        (by_hash ∷ by_item ∷ [])
        d.candidate_id
        d.match_rule
match_existing-Chosen_example =
    match_existing-Chosen lib 10 incoming (by_hash ∷ by_item ∷ []) signatures_test

incoming_test : load_evidence_projection empty 2 ≡ some incoming
unfolding load_evidence_projection process projection_of
incoming_test = refl

process-ok_example :
    (t : Tables) × (o : EventCandidateOutcome) × (process lib scorer (outside 2) empty empty 2
      ≡ ok (t, o))
process-ok_example =
    process-ok lib scorer (outside 2) empty 2 empty-IsSound tt incoming_test signatures_test

abbrev importance : ImportanceInput
importance = record {
  official_source = true;
  evidence_count = 4;
  source_count = 3;
  source_priority = none;
  entity_count = 9;
  corroborated = true;
}

score-explained_example :
    (parts : List (Text × ℕ)) × ((score decimal importance).component_reasons
      ≡ map (reason decimal) parts)
    × ((score decimal importance).score ≡ total parts)
    × ((score decimal importance).score ≤ 100)
score-explained_example = score-explained decimal importance

one_event-AreLinked : AreLinked one_event
unfolding process load_evidence_projection active_associations sort_by match_existing
    load_candidates first_with add_candidate refresh_candidate put_candidate add_link
one_event-AreLinked = (refl, tt)

deactivate_association-IsRemoved_example :
    IsRemoved lib scorer
      (outside 3)
      one_event
      21
      1
      none
      (deactivate_association lib scorer (outside 3) one_event 21 1 none)
deactivate_association-IsRemoved_example =
    deactivate_association-IsRemoved lib scorer (outside 3) one_event 21 1 none
      Reach-IsSound_example one_event-AreLinked

Calls-Assigns_example : Assigns (assignment empty.links) (assignment one_event.links) (processing 1)
Calls-Assigns_example =
    Calls-Assigns lib scorer (processes (outside 1) empty 1 (outcome_of first_call) refl first_test)
      empty-IsSound
