-- ===== src/Events/Service/Succeeds.antt =====
-- A piece of evidence that is there is always given a candidate.
use mathlib.Core.Path.{subst}
use news_collect.Base.{
  ℕ, ◌≤◌, ◌≡◌, refl, ap, ◌∙◌, Option, none, some, List, [], ◌∷◌, ◌++◌, map, true, ◌==◌, keep,
  length, arith, All, All-keep_of, Bool-cases, Option-cases, inl, inr, is_some, suc,
}
use news_collect.Base.Order.{Text, codes, length-sort_by, All-sort_by}
use news_collect.Base.Rows.{find, find-key}
use news_collect.Base.Result.{ok, Ensures}
use news_collect.Events.Rows.{
  MatchRule, EventCandidate, EventCandidateEvidence, EvidenceProjection, CandidateProjection,
  MatchDecision,
}
use news_collect.Events.Scoring.{ImportanceInput, ImportanceResult}
use news_collect.Events.Matching.{Ranked}
use news_collect.Events.Matching.Exact.{Chosen, unranked, first, tied}
use news_collect.Events.Matching.Decided.{match_existing-Chosen}
use news_collect.Events.Matching.Signatures.{Libraries, evidence_signatures}
use news_collect.Events.Store.{
  Tables, item_key, candidate_key, is_active_of, active_associations, added_before,
  candidate_projection, get_candidate, get_by_cluster_key, with_key, add_candidate, add_unless,
  add_link, projected, projection_of, load_evidence_projection, load_candidates,
}
use news_collect.Events.Aggregates.{refresh_candidate}
use news_collect.Events.Service.{
  Outside, EventCandidateOutcome, outcome, associate, associate_with, created, new_link,
  create_or_get, target_of, joins, process, process_links, process_new, window,
}
use news_collect.Events.Service.Sound.{IsSound}
use news_collect.Events.Service.Keeps.{Targeted, target_of-Targeted}

-- Each active link is of a candidate that is in the table, as its foreign key demands.
abbrev pub AreLinked : Tables → Type 0
AreLinked tables =
    All (λ link. is_some (find candidate_key link.event_candidate_id tables.candidates) ≡ true)
      tables.links

-- A projected candidate comes from the row that its id finds.
find-projected :
    (cs : List EventCandidate) (before after : List CandidateProjection) (c : CandidateProjection)
    → map candidate_projection cs ≡ before ++ c ∷ after
    → (a : EventCandidate) × (find candidate_key c.id cs ≡ some a)
unfolding candidate_projection
find-projected [] [] after c h = cc
find-projected [] (x ∷ before) after c h = cc
find-projected (x ∷ cs) [] after c h = (x, ground (arith, h))
find-projected (x ∷ cs) (y ∷ before) after c h = elim (Bool-cases (x.id == c.id)) [
  | inl e ↦ (x, rw e refl)
  | inr e ↦ let (a, at) = find-projected cs before after c (ground (arith, h)) in (a, rw e at)
]

module _ (lib : Libraries) (scorer : ImportanceInput → ImportanceResult) where
  abbrev Target : Type 0
  Target = Tables × EventCandidate × Text

  created-ok :
      (tables : Tables) (c : EventCandidate)
      → (target : Target) × (created lib scorer tables c (add_candidate c tables) ≡ ok target)
  unfolding created add_candidate add_unless get_by_cluster_key
  created-ok tables c = elim (Option-cases (with_key c.cluster_key tables.candidates)) [
    | inl e ↦ (
      (record tables { candidates = tables.candidates ++ c ∷ [] }, c, codes "created"),
      rw e refl,
    )
    | inr (existing, e) ↦ ((tables, existing, codes "concurrent_existing"), rw (e, e) refl)
  ]

  target_of-ok :
      (outside : Outside) (tables : Tables) (projection : EvidenceProjection)
      (decision : MatchDecision) (rank : CandidateProjection → Option Ranked) {id : Option ℕ}
      {rule : MatchRule}
      → Chosen rank (load_candidates tables) id rule
      → (target : Target) × (target_of lib scorer outside tables projection decision id ≡ ok target)
  unfolding target_of create_or_get load_candidates get_candidate
  target_of-ok outside tables projection decision rank (unranked h) = created-ok tables _
  target_of-ok outside tables projection decision rank
        (tied before between after c d row row' h k l m n) =
      created-ok tables _
  target_of-ok outside tables projection decision rank (first before after c row parts h k l) =
      let (a, at) = find-projected tables.candidates before after c parts in
      ((tables, a, codes "matched"), rw at refl)

  associate-ok :
      (outside : Outside) (tables : Tables) (c : EventCandidate) (projection : EvidenceProjection)
      (decision : MatchDecision)
      → active_associations tables projection.evidence_item_id ≡ []
      → (result : Tables × EventCandidateEvidence) × (associate outside tables c projection decision
          ≡ ok result)
  unfolding associate associate_with
  associate-ok outside tables c projection decision h = (
    (
      add_link (new_link outside c projection decision) tables,
      new_link outside c projection decision,
    ),
    rw h refl,
  )

  pub is_some_at : {A : Type 0} (o : Option A) → is_some o ≡ true → (a : A) × (o ≡ some a)
  is_some_at none h = cc
  is_some_at (some a) h = (a, refl)

  abbrev Done : Type 0
  Done = Tables × EventCandidateOutcome

  joins-ok :
      (outside : Outside) (tables : Tables) (c : EventCandidate) (projection : EvidenceProjection)
      (decision : MatchDecision) (status : Text)
      → active_associations tables projection.evidence_item_id ≡ []
      → (result : Done) × (joins lib scorer outside tables c projection decision status ≡ ok result)
  unfolding joins
  joins-ok outside tables c projection decision status h =
      let ((linked, link), at) = associate-ok outside tables c projection decision h in
      ((refresh_candidate scorer linked c projection decision, outcome c link status), rw at refl)

  process_new-ok :
      (outside : Outside) (tables : Tables) (projection : EvidenceProjection)
      {signatures : List Text}
      → IsSound tables
      → evidence_signatures lib projection ≡ ok signatures
      → active_associations tables projection.evidence_item_id ≡ []
      → (result : Done) × (process_new lib scorer outside tables tables projection ≡ ok result)
  unfolding process_new active_associations
  process_new-ok outside tables projection s h active =
      let (decision, decided, same, chosen) =
        match_existing-Chosen lib (window lib scorer) projection (load_candidates tables) h in
      let ((with_target, c, status), at) =
        target_of-ok outside tables projection decision _ chosen in
      let (ready, links) = subst (Ensures (Targeted lib scorer tables.links)) at (
        target_of-Targeted lib scorer outside tables projection decision decision.candidate_id s) in
      let (result, joined) =
        joins-ok outside with_target c projection decision status (rw links active) in
      (result, rw (decided, at) joined)

  process_links-ok :
      (outside : Outside) (tables : Tables) (projection : EvidenceProjection)
      (links : List EventCandidateEvidence) {signatures : List Text}
      → IsSound tables
      → All
          (λ link. is_some (find candidate_key link.event_candidate_id tables.candidates) ≡ true)
          links
      → evidence_signatures lib projection ≡ ok signatures
      → active_associations tables projection.evidence_item_id ≡ links
      → length links ≤ 1
      → (result : Done) × (process_links lib scorer outside tables tables projection links
          ≡ ok result)
  unfolding process_links get_candidate
  process_links-ok outside tables projection [] s linked h active one =
      process_new-ok outside tables projection s h active
  process_links-ok outside tables projection (link ∷ other ∷ rest) s linked h active one =
      absurd (no one)
    where
      no : {n : ℕ} → suc (suc n) ≤ 1 → ⊥
      no k = omega arith
  process_links-ok outside tables projection (link ∷ []) s (there, rest) h active one =
      let (c, e) =
        is_some_at (find candidate_key link.event_candidate_id tables.candidates) there in
      ((tables, outcome c link (codes "existing")), rw e refl)

  pub projected-id :
      (tables : Tables) (id : ℕ) {projection : EvidenceProjection}
      → load_evidence_projection tables id ≡ some projection
      → projection.evidence_item_id ≡ id
  unfolding load_evidence_projection projected projection_of
  projected-id tables id {projection} h = elim (Option-cases (find item_key id tables.items)) [
    | inl e ↦ absurd (none_not (subst (λ o. projected tables.contents o ≡ some projection) e h))
    | inr (item, e) ↦
        of_some (subst (λ o. projected tables.contents o ≡ some projection) e h)
        ∙ find-key item_key id tables.items e
  ]
    where
      none_not : none ≡ some projection → ⊥
      none_not h = cc

      of_some :
          {p : EvidenceProjection}
          → some p ≡ some projection
          → projection.evidence_item_id ≡ p.evidence_item_id
      of_some h = ground (arith, h)

  active-All :
      (P : EventCandidateEvidence → Type 0) (tables : Tables) (id : ℕ)
      → All P tables.links
      → All P (active_associations tables id)
  unfolding active_associations
  active-All P tables id h =
      All-sort_by added_before P _ (All-keep_of P (is_active_of id) tables.links h)

  active-single :
      (tables : Tables) (id : ℕ) → IsSound tables → length (active_associations tables id) ≤ 1
  unfolding active_associations
  active-single tables id s =
      rw (length-sort_by added_before (keep (is_active_of id) tables.links)) (s.single id)

  -- A call of `process` for a piece of evidence that is in the tables comes to a candidate, whatever the
  -- candidates are: it does not raise. The conditions are that the tables are sound, that each link is of
  -- a candidate in the table, that the signatures of the evidence can be built, and that no other
  -- transaction commits during the call.
  pub process-ok :
      (outside : Outside) (tables : Tables) (evidence_item_id : ℕ) {projection : EvidenceProjection}
      {signatures : List Text}
      → IsSound tables
      → AreLinked tables
      → load_evidence_projection tables evidence_item_id ≡ some projection
      → evidence_signatures lib projection ≡ ok signatures
      → (t : Tables) × (o : EventCandidateOutcome) × (process lib scorer outside tables tables
            evidence_item_id
          ≡ ok (t, o))
  unfolding process
  process-ok outside tables evidence_item_id {projection} s linked loaded h =
      let ((t, o), at) =
        process_links-ok outside tables projection (active_associations tables evidence_item_id) s
          (active-All _ tables evidence_item_id linked) h
          (ap (active_associations tables) (projected-id tables evidence_item_id loaded))
          (active-single tables evidence_item_id s) in
      (t, o, rw loaded at)
