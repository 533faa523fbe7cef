-- ===== src/Events/Service/Once.antt =====
-- A piece of evidence is processed once.

use mathlib.Core.Path.{subst}
use news_collect.Base.{
  ℕ, ◌≡◌, refl, sym, ap, Option, none, some, List, [], ◌∷◌, ◌++◌, Bool, true, false, ◌==◌, keep,
  length, arith, Bool-cases, Option-cases, inl, inr, ltb, eq→==, ==→eq,
}
use news_collect.Base.Order.{Text, codes, sort_by, insert_by, text_eq}
use news_collect.Base.Rows.{find, find-key, find-put_self}
use news_collect.Base.Result.{Result, ok, err, Ensures, bind-Ensures, next-Ensures}
use news_collect.Events.Rows.{
  EvidenceItem, EventCandidate, EventCandidateEvidence, EvidenceProjection, MatchDecision,
}
use news_collect.Events.Scoring.{ImportanceInput, ImportanceResult}
use news_collect.Events.Matching.{match_existing}
use news_collect.Events.Matching.Signatures.{Libraries, is_empty}
use news_collect.Events.Store.{
  Tables, item_key, candidate_key, is_active_of, active_associations, added_before, put_candidate,
  add_link, get_candidate, get_by_cluster_key, with_key, add_candidate, add_unless, projected,
  load_evidence_projection, load_candidates, projection_of, content_of,
}
use news_collect.Events.Aggregates.{refresh_candidate, recalculate_aggregates, counted, merged}
use news_collect.Events.Service.{
  Outside, EventCandidateOutcome, or_raise, outcome, associate, associate_with, new_link, created,
  create_or_get, target_of, joins, process, process_links, process_new, window,
}
use news_collect.Events.Service.Links.{sort_by-nil, keep-append_only}

-- A link of the evidence is its only active one, and its candidate is in the table: a call for it finds
-- the outcome `o`.
record IsSettled (evidence_item_id : ℕ) (o : EventCandidateOutcome) (tables : Tables) : Type 0 where
  link : EventCandidateEvidence
  c : EventCandidate
  item : EvidenceItem
  at_item : find item_key evidence_item_id tables.items ≡ some item
  active : active_associations tables evidence_item_id ≡ link ∷ []
  at_candidate : find candidate_key link.event_candidate_id tables.candidates ≡ some c
  same : outcome c link (codes "existing") ≡ record o { status = codes "existing" }

only_one :
    (xs : List EventCandidateEvidence) (p : EventCandidateEvidence → Bool)
    {same : EventCandidateEvidence} {rest : List EventCandidateEvidence}
    → ltb 1 (length xs) ≡ false
    → keep p xs ≡ same ∷ rest
    → (xs ≡ same ∷ []) × (p same ≡ true)
only_one [] p h k = cc
only_one (x ∷ y ∷ xs) p h k = ground arith
only_one (x ∷ []) p h k = elim (Bool-cases (p x)) [
  | inl e ↦ ground (arith, e, k)
  | inr e ↦ ground (arith, e, k)
]

module _ (outside : Outside) (tables : Tables) (c : EventCandidate)
    (projection : EvidenceProjection) (decision : MatchDecision) where
  -- What `associate` leaves of the evidence.
  abbrev IsOnly : Tables × EventCandidateEvidence → Type 0
  IsOnly (linked, link) =
      (active_associations linked projection.evidence_item_id ≡ link ∷ [])
      × (link.event_candidate_id ≡ c.id)
      × (linked.candidates ≡ tables.candidates)
      × (linked.items ≡ tables.items)

  added-IsOnly :
      is_empty (active_associations tables projection.evidence_item_id) ≡ true
      → IsOnly (
        add_link (new_link outside c projection decision) tables,
        new_link outside c projection decision,
      )
  unfolding active_associations add_link new_link sort_by insert_by
  added-IsOnly h = (
    ap (sort_by added_before) (
        keep-append_only (is_active_of projection.evidence_item_id) tables.links
          (new_link outside c projection decision)
          (sort_by-nil added_before (keep (is_active_of projection.evidence_item_id) tables.links)
            h)
          (rw (eq→== projection.evidence_item_id projection.evidence_item_id refl) refl)),
    refl,
    refl,
    refl,
  )

  associate_with-IsOnly :
      (same : List EventCandidateEvidence)
      → keep
          (λ link. link.event_candidate_id == c.id)
          (active_associations tables projection.evidence_item_id)
        ≡ same
      → Ensures IsOnly (
          associate_with outside tables c projection decision
            (active_associations tables projection.evidence_item_id)
            same)
  unfolding associate_with
  associate_with-IsOnly [] h =
      elim (Bool-cases (is_empty (active_associations tables projection.evidence_item_id))) [
        | inl e ↦ rw e (added-IsOnly e)
        | inr e ↦ rw e tt
      ]
  associate_with-IsOnly (link ∷ rest) h =
      elim (Bool-cases (ltb 1 (length (active_associations tables projection.evidence_item_id)))) [
        | inl e ↦ rw e tt
        | inr e ↦
            let (one, of) =
              only_one (active_associations tables projection.evidence_item_id) _ e h in
            rw e (one, ==→eq link.event_candidate_id c.id of, refl, refl)
      ]

  associate-IsOnly : Ensures IsOnly (associate outside tables c projection decision)
  unfolding associate
  associate-IsOnly = associate_with-IsOnly _ refl

module _ (lib : Libraries) (scorer : ImportanceInput → ImportanceResult) where
  joins-IsSettled :
      (outside : Outside) (tables : Tables) (c a : EventCandidate) (projection : EvidenceProjection)
      (decision : MatchDecision) (status : Text) (item : EvidenceItem)
      → find item_key projection.evidence_item_id tables.items ≡ some item
      → find candidate_key c.id tables.candidates ≡ some a
      → Ensures
          (λ (t, o). IsSettled projection.evidence_item_id o t)
          (joins lib scorer outside tables c projection decision status)
  unfolding joins refresh_candidate put_candidate recalculate_aggregates counted merged
      active_associations outcome
  joins-IsSettled outside tables c a projection decision status item has found =
      bind-Ensures (IsOnly outside tables c projection decision)
        (λ (t, o). IsSettled projection.evidence_item_id o t)
        (associate outside tables c projection decision) _
        (associate-IsOnly outside tables c projection decision)
        (λ (linked, link) (active, of, candidates, items).
          let c' =
            recalculate_aggregates scorer linked (merged scorer projection decision c)
              projection.source_priority in
          record {
            link = link;
            c = c';
            item = item;
            at_item = rw items has;
            active = active;
            at_candidate =
                rw (of, candidates)
                  (find-put_self candidate_key c.id a c' tables.candidates found
                    (sym (find-key candidate_key c.id tables.candidates found)));
            same = refl;
          })

  -- The candidate that a call goes on with is in the tables.
  abbrev IsThere : List EvidenceItem → Tables × EventCandidate × Text → Type 0
  IsThere items (t, c, status) =
      ((a : EventCandidate) × (find candidate_key c.id t.candidates ≡ some a)) × (t.items ≡ items)

  find-last :
      (c : EventCandidate) (cs : List EventCandidate)
      → (a : EventCandidate) × (find candidate_key c.id (cs ++ c ∷ []) ≡ some a)
  find-last c [] = (c, rw (eq→== c.id c.id refl) refl)
  find-last c (x ∷ cs) = elim (Bool-cases (x.id == c.id)) [
    | inl e ↦ (x, rw e refl)
    | inr e ↦ let (a, at) = find-last c cs in (a, rw e at)
  ]

  with_key-find :
      (message cluster_key : Text) (cs : List EventCandidate)
      → Ensures
          (λ c. (a : EventCandidate) × (find candidate_key c.id cs ≡ some a))
          (or_raise message (with_key cluster_key cs))
  unfolding with_key
  with_key-find message cluster_key [] = tt
  with_key-find message cluster_key (x ∷ cs) =
      elim (Bool-cases (text_eq x.cluster_key cluster_key)) [
        | inl e ↦ rw e (x, rw (eq→== x.id x.id refl) refl)
        | inr e ↦ rw e (
            widen (or_raise message (with_key cluster_key cs))
              (with_key-find message cluster_key cs))
      ]
    where
      widen_at :
          (c : EventCandidate)
          → ((a : EventCandidate) × (find candidate_key c.id cs ≡ some a))
          → (a : EventCandidate) × (find candidate_key c.id (x ∷ cs) ≡ some a)
      widen_at c (a, at) = elim (Bool-cases (x.id == c.id)) [
        | inl e ↦ (x, rw e refl)
        | inr e ↦ (a, rw e at)
      ]

      widen :
          (r : Result EventCandidate)
          → Ensures (λ c. (a : EventCandidate) × (find candidate_key c.id cs ≡ some a)) r
          → Ensures (λ c. (a : EventCandidate) × (find candidate_key c.id (x ∷ cs) ≡ some a)) r
      widen (ok c) h = widen_at c h
      widen (err e) h = tt

  created-IsThere :
      (tables : Tables) (c : EventCandidate) (existing : Option EventCandidate)
      → Ensures (IsThere tables.items) (created lib scorer tables c (add_unless c tables existing))
  unfolding created add_unless get_by_cluster_key
  created-IsThere tables c none = (find-last c tables.candidates, refl)
  created-IsThere tables c (some other) =
      bind-Ensures
        (λ c. (a : EventCandidate) × (find candidate_key c.id tables.candidates ≡ some a))
        (IsThere tables.items)
        (or_raise (codes "IntegrityError") (with_key c.cluster_key tables.candidates)) _
        (with_key-find _ _ tables.candidates) (λ existing at. (at, refl))

  target_of-IsThere :
      (outside : Outside) (tables : Tables) (projection : EvidenceProjection)
      (decision : MatchDecision) (id : Option ℕ)
      → Ensures (IsThere tables.items) (target_of lib scorer outside tables projection decision id)
  unfolding target_of create_or_get add_candidate get_candidate
  target_of-IsThere outside tables projection decision none = created-IsThere tables _ _
  target_of-IsThere outside tables projection decision (some id) =
      elim (Option-cases (find candidate_key id tables.candidates)) [
        | inl e ↦ rw e tt
        | inr (c, e) ↦ rw e (
          (
            c,
            subst (λ k. find candidate_key k tables.candidates ≡ some c)
                (sym (find-key candidate_key id tables.candidates e)) e,
          ),
          refl,
        )
      ]

  process_new-IsSettled :
      (outside : Outside) (tables : Tables) (projection : EvidenceProjection) (item : EvidenceItem)
      → find item_key projection.evidence_item_id tables.items ≡ some item
      → Ensures
          (λ (t, o). IsSettled projection.evidence_item_id o t)
          (process_new lib scorer outside tables tables projection)
  unfolding process_new
  process_new-IsSettled outside tables projection item has =
      next-Ensures _ (match_existing lib (window lib scorer) projection (load_candidates tables)) _
        (λ decision.
          bind-Ensures (IsThere tables.items) (λ (t, o). IsSettled projection.evidence_item_id o t)
            (target_of lib scorer outside tables projection decision decision.candidate_id) _
            (target_of-IsThere outside tables projection decision decision.candidate_id)
            (λ (with_target, c, status) ((a, at), items).
              joins-IsSettled outside with_target c a projection decision status item (rw items has)
                at))

  process_links-IsSettled :
      (outside : Outside) (tables : Tables) (projection : EvidenceProjection) (item : EvidenceItem)
      (links : List EventCandidateEvidence)
      → find item_key projection.evidence_item_id tables.items ≡ some item
      → active_associations tables projection.evidence_item_id ≡ links
      → Ensures
          (λ (t, o). IsSettled projection.evidence_item_id o t)
          (process_links lib scorer outside tables tables projection links)
  unfolding process_links get_candidate outcome
  process_links-IsSettled outside tables projection item [] has active =
      process_new-IsSettled outside tables projection item has
  process_links-IsSettled outside tables projection item (link ∷ other ∷ rest) has active = tt
  process_links-IsSettled outside tables projection item (link ∷ []) has active =
      elim (Option-cases (find candidate_key link.event_candidate_id tables.candidates)) [
        | inl e ↦ rw e tt
        | inr (c, e) ↦ rw e (record {
          link = link;
          c = c;
          item = item;
          at_item = has;
          active = active;
          at_candidate = e;
          same = refl;
        })
      ]

  process-IsSettled :
      (outside : Outside) (tables : Tables) (evidence_item_id : ℕ)
      → Ensures
          (λ (t, o). IsSettled evidence_item_id o t)
          (process lib scorer outside tables tables evidence_item_id)
  unfolding process load_evidence_projection projected projection_of
  process-IsSettled outside tables evidence_item_id =
      elim (Option-cases (find item_key evidence_item_id tables.items)) [
        | inl e ↦ rw e tt
        | inr (item, e) ↦ rw e (
            subst
              (λ k.
                Ensures (λ (t, o). IsSettled k o t)
                  (process_links lib scorer outside tables tables
                    (projection_of item (content_of tables.contents item.content_item_id))
                    (active_associations tables k)))
              (find-key item_key evidence_item_id tables.items e)
              (process_links-IsSettled outside tables
                (projection_of item (content_of tables.contents item.content_item_id)) item
                (active_associations tables item.id)
                (subst (λ k. find item_key k tables.items ≡ some item)
                  (sym (find-key item_key evidence_item_id tables.items e)) e)
                refl))
      ]

  settled-process :
      (outside : Outside) (tables : Tables) (evidence_item_id : ℕ) (o : EventCandidateOutcome)
      → IsSettled evidence_item_id o tables
      → process lib scorer outside tables tables evidence_item_id
        ≡ ok (tables, record o { status = codes "existing" })
  unfolding process process_links load_evidence_projection projected get_candidate
  settled-process outside tables evidence_item_id o s =
      rw (s.at_item, s.active, s.at_candidate) (ap (λ o. ok (tables, o)) s.same)

  -- Once a call of `process` for a piece of evidence has committed, every later call for it, at any
  -- time, commits nothing more: it leaves the tables as they are and returns the same outcome, with the
  -- status `existing`. The condition is that nothing else has committed during or between the two calls.
  pub process-once :
      (outside outside' : Outside) (s t : Tables) (evidence_item_id : ℕ) (o : EventCandidateOutcome)
      → process lib scorer outside s s evidence_item_id ≡ ok (t, o)
      → process lib scorer outside' t t evidence_item_id
        ≡ ok (t, record o { status = codes "existing" })
  process-once outside outside' s t evidence_item_id o h =
      settled-process outside' t evidence_item_id o (
        subst (Ensures (λ (t, o). IsSettled evidence_item_id o t)) h
          (process-IsSettled outside s evidence_item_id))
