-- ===== src/Events/Service/Calls.antt =====
-- Each call of the service leaves sound tables sound, and so does any number of them.
use mathlib.Core.Path.{subst}
use news_collect.Base.{
  ℕ, ◌≤◌, ◌≡◌, refl, sym, ◌∙◌, Option, none, some, List, [], ◌∷◌, Bool, true, not, false, ◌==◌,
  ◌&&◌, keep, All, All-keep, All-keep_of, arith, contains,
}
use news_collect.Base.Order.{codes, keys}
use news_collect.Base.Rows.{find, modify}
use news_collect.Base.Keys.{keys-modify, All-map, All-find, All-both}
use news_collect.Base.Result.{ok, Ensures, bind-Ensures, next-Ensures}
use news_collect.Events.Rows.{EventCandidate, EventCandidateEvidence, EvidenceProjection}
use news_collect.Events.Scoring.{ImportanceInput, ImportanceResult}
use news_collect.Events.Matching.Signatures.{Libraries}
use news_collect.Events.Store.{
  Tables, link_key, candidate_key, is_active_of, active_associations, put_candidate, get_candidate,
  load_evidence_projection,
}
use news_collect.Events.Aggregates.{is_active_for}
use news_collect.Events.Service.{
  Outside, EventCandidateOutcome, unless_raise, is_only_link, ambiguous, regroup_decision, or_raise,
  not_found, process, process_links, process_new, deactivate_association, deactivate_link,
  regroup_association, pair_links, removed,
}
use news_collect.Events.Service.Links.{keep-modify_le, keep-modify_off, All-same}
use news_collect.Events.Service.Sound.{IsCounted, IsSound}
use news_collect.Events.Service.Ready.{Ready, recalculate-IsSound}
use news_collect.Events.Service.Keeps.{
  same_links-IsCounted, flip, joins-IsSound, target_of-Targeted, sound-Ready, find-All, Found,
  Leaves, Targeted,
}

-- Tables in which the id of a new link is not yet used.
abbrev pub IsFresh : Outside → Tables → Type 0
IsFresh outside tables = contains outside.link_id (keys link_key tables.links) ≡ false

module _ (lib : Libraries) (scorer : ImportanceInput → ImportanceResult) where
  process_new-IsSound :
      (outside : Outside) (earlier tables : Tables) (projection : EvidenceProjection)
      → IsSound tables
      → IsFresh outside tables
      → Ensures (Leaves lib scorer) (process_new lib scorer outside earlier tables projection)
  unfolding process_new
  process_new-IsSound outside earlier tables projection s fresh =
      next-Ensures (Leaves lib scorer) _ _ (λ decision.
        bind-Ensures (Targeted lib scorer tables.links) (Leaves lib scorer) _ _
          (target_of-Targeted lib scorer outside tables projection decision decision.candidate_id s)
          (λ (with_target, c, status) (r, same).
            joins-IsSound lib scorer outside with_target c projection decision status
              (rw same fresh) r))

  process_links-IsSound :
      (outside : Outside) (earlier tables : Tables) (projection : EvidenceProjection)
      (links : List EventCandidateEvidence)
      → IsSound tables
      → IsFresh outside tables
      → Ensures
          (Leaves lib scorer)
          (process_links lib scorer outside earlier tables projection links)
  unfolding process_links
  process_links-IsSound outside earlier tables projection [] s fresh =
      process_new-IsSound outside earlier tables projection s fresh
  process_links-IsSound outside earlier tables projection (link ∷ []) s fresh =
      next-Ensures (Leaves lib scorer)
        (or_raise not_found (get_candidate earlier link.event_candidate_id)) _ (λ c. s)
  process_links-IsSound outside earlier tables projection (link ∷ other ∷ rest) s fresh = tt

  pub process-IsSound :
      (outside : Outside) (earlier tables : Tables) (evidence_item_id : ℕ)
      → IsSound tables
      → IsFresh outside tables
      → Ensures (Leaves lib scorer) (process lib scorer outside earlier tables evidence_item_id)
  unfolding process
  process-IsSound outside earlier tables evidence_item_id s fresh =
      next-Ensures (Leaves lib scorer)
        (or_raise (codes "evidence_item_not_found")
          (load_evidence_projection earlier evidence_item_id))
        _ (λ projection. process_links-IsSound outside earlier tables projection _ s fresh)

  -- The tables in which a link is set off, before the candidate is counted again.
  abbrev switched : Tables → ℕ → ℕ → Tables
  switched tables link_id removed_at = record tables {
    links = modify link_key link_id (removed removed_at) tables.links;
  }

  off-Ready :
      (tables : Tables) (link : EventCandidateEvidence) (removed_at : ℕ) (c : EventCandidate)
      → IsSound tables
      → find link_key link.id tables.links ≡ some link
      → link.event_candidate_id ≡ c.id
      → c.first_seen_at ≤ c.latest_seen_at
      → Ready (switched tables link.id removed_at) c
  unfolding removed
  off-Ready tables link removed_at c s found at order = record {
    ids = rw (keys-modify link_key link.id (removed removed_at) (λ x. refl) tables.links) s.ids;
    single = λ e.
        le_trans
          (keep-modify_le link_key link.id (removed removed_at) (is_active_of e) (λ x. and_false _)
            tables.links)
          (s.single e);
    others =
        All-map _ _ (λ x k ne. same_links-IsCounted x (same x ne) k) tables.candidates s.counts;
    order = order;
  }
    where
      le_trans : {a b : ℕ} → a ≤ b → b ≤ 1 → a ≤ 1
      le_trans h k = omega arith

      and_false : (b : Bool) → (b && false) ≡ false
      and_false b = ground arith

      same :
          (x : EventCandidate)
          → (x.id == c.id) ≡ false
          → keep (is_active_for x.id) (switched tables link.id removed_at).links
            ≡ keep (is_active_for x.id) tables.links
      same x ne =
          keep-modify_off link_key link.id (removed removed_at) (is_active_for x.id)
            (λ y. and_false _) tables.links
            (All-map _ _ (λ y is_link e. rw (is_link e, at, flip x.id c.id ne) refl) tables.links
              (All-same link_key tables.links link s.ids found))

  -- What a removal leaves: sound tables with the same links by their ids.
  abbrev pub Removed : List ℕ → Tables × EventCandidateEvidence → Type 0
  Removed ids (tables, link) = IsSound tables × (keys link_key tables.links ≡ ids)

  abbrev pub Paired : Tables → ℕ → EventCandidateEvidence → Type 0
  Paired tables candidate_id link =
      (find link_key link.id tables.links ≡ some link) × (link.event_candidate_id ≡ candidate_id)

  pub pair_links-Paired :
      (tables : Tables) (candidate_id evidence_item_id : ℕ)
      → IsSound tables
      → All
          (Paired tables candidate_id)
          (pair_links lib scorer tables candidate_id evidence_item_id)
  unfolding pair_links
  pair_links-Paired tables candidate_id evidence_item_id s = All-keep_of _ _ _ (
      All-both _ _ _ (All-keep_of _ _ tables.links (All-find link_key tables.links s.ids))
        (All-keep _ _ (λ link h. of_pair link.event_candidate_id link.active h) tables.links))
    where
      of_pair : (n : ℕ) (b : Bool) → (n == candidate_id && b) ≡ true → n ≡ candidate_id
      of_pair n b h = ground arith

  deactivate_link-Removed :
      (tables : Tables) (candidate_id removed_at : ℕ) (links : List EventCandidateEvidence)
      → IsSound tables
      → All (Paired tables candidate_id) links
      → Ensures
          (Removed (keys link_key tables.links))
          (deactivate_link lib scorer tables candidate_id removed_at links)
  unfolding deactivate_link get_candidate put_candidate
  deactivate_link-Removed tables candidate_id removed_at [] s h = tt
  deactivate_link-Removed tables candidate_id removed_at (link ∷ other ∷ rest) s h = tt
  deactivate_link-Removed tables candidate_id removed_at (link ∷ []) s ((found, at), rest) =
      bind-Ensures (Found lib scorer tables candidate_id) (Removed (keys link_key tables.links)) _ _
        (find-All lib scorer candidate_key (λ c. IsCounted tables.items tables.links c) not_found
          candidate_id tables.candidates s.counts)
        (λ c (of, k). (
          recalculate-IsSound scorer (switched tables link.id removed_at) c none
              (off-Ready tables link removed_at c s found (at ∙ sym of) k.seen_order),
          keys-modify link_key link.id (removed removed_at) (λ x. refl) tables.links,
        ))

  pub deactivate_association-Removed :
      (outside : Outside) (tables : Tables) (candidate_id evidence_item_id : ℕ)
      (removed_at : Option ℕ)
      → IsSound tables
      → Ensures (Removed (keys link_key tables.links)) (
          deactivate_association lib scorer outside tables candidate_id evidence_item_id removed_at)
  unfolding deactivate_association
  deactivate_association-Removed outside tables candidate_id evidence_item_id removed_at s =
      deactivate_link-Removed tables candidate_id _ _ s
        (pair_links-Paired tables candidate_id evidence_item_id s)

  regroup_association-IsSound :
      (outside : Outside) (tables : Tables) (evidence_item_id from_id to_id : ℕ)
      → IsSound tables
      → IsFresh outside tables
      → Ensures
          (Leaves lib scorer)
          (regroup_association lib scorer outside tables evidence_item_id from_id to_id)
  unfolding regroup_association get_candidate
  regroup_association-IsSound outside tables evidence_item_id from_id to_id s fresh =
      let Q : Tables × EventCandidateOutcome → Type 0 = Leaves lib scorer in
      next-Ensures Q
        (unless_raise lib scorer (codes "event_candidate_regroup_target_unchanged")
          (not (from_id == to_id)))
        _
        (λ distinct.
          next-Ensures Q
            (or_raise (codes "evidence_item_not_found")
              (load_evidence_projection tables evidence_item_id))
            _
            (λ projection.
              next-Ensures Q
                (unless_raise lib scorer ambiguous
                  (is_only_link lib scorer from_id (active_associations tables evidence_item_id)))
                _
                (λ only.
                  bind-Ensures (Found lib scorer tables to_id) Q _ _
                    (find-All lib scorer candidate_key (λ c. IsCounted tables.items tables.links c)
                      not_found to_id tables.candidates s.counts)
                    (λ target (at, k).
                      bind-Ensures (Removed (keys link_key tables.links)) Q _ _
                        (deactivate_association-Removed outside tables from_id evidence_item_id none
                          s)
                        (λ (off, link) (sound, same).
                          next-Ensures Q (regroup_decision lib scorer projection target) _
                            (λ decision.
                              joins-IsSound lib scorer outside off target projection decision
                                (codes "regrouped") (rw same fresh)
                                (sound-Ready lib scorer off target sound k.seen_order)))))))

  -- A call that commits. The first reads of `process` may see other tables than its writes.
  pub data Calls : Tables → Tables → Type 0 where
    processes :
        {s t : Tables} (outside : Outside) (earlier : Tables) (evidence_item_id : ℕ)
        (o : EventCandidateOutcome)
        → IsFresh outside s
        → process lib scorer outside earlier s evidence_item_id ≡ ok (t, o)
        → Calls s t
    deactivates :
        {s t : Tables} (outside : Outside) (candidate_id evidence_item_id : ℕ)
        (removed_at : Option ℕ) (link : EventCandidateEvidence)
        → deactivate_association lib scorer outside s candidate_id evidence_item_id removed_at
          ≡ ok (t, link)
        → Calls s t
    regroups :
        {s t : Tables} (outside : Outside) (evidence_item_id from_id to_id : ℕ)
        (o : EventCandidateOutcome)
        → IsFresh outside s
        → regroup_association lib scorer outside s evidence_item_id from_id to_id ≡ ok (t, o)
        → Calls s t

  pub data Reach : Tables → Tables → Type 0 where
    here : {s : Tables} → Reach s s
    next : {s t u : Tables} → Reach s t → Calls t u → Reach s u

  Calls-IsSound : {s t : Tables} → Calls s t → IsSound s → IsSound t
  Calls-IsSound {s} (processes outside earlier e o fresh h) sound =
      subst (Ensures (Leaves lib scorer)) h (process-IsSound outside earlier s e sound fresh)
  Calls-IsSound {s} (deactivates outside c e time link h) sound =
      (subst (Ensures (Removed (keys link_key s.links))) h
        (deactivate_association-Removed outside s c e time sound)).0
  Calls-IsSound {s} (regroups outside e from_id to_id o fresh h) sound =
      subst (Ensures (Leaves lib scorer)) h
        (regroup_association-IsSound outside s e from_id to_id sound fresh)

  -- Whatever calls of the service commit, in any order and any number, from tables that are sound: no
  -- piece of evidence has two active links, and every candidate counts its active evidence and the
  -- sources of it, is rejected exactly if it has none, was first seen no later than last, and has a
  -- confidence of at most 1. This holds even when other transactions have committed between the first
  -- reads of a call of `process` and its writes. New links have new ids.
  pub Reach-IsSound : {s t : Tables} → Reach s t → IsSound s → IsSound t
  Reach-IsSound here sound = sound
  Reach-IsSound (next r c) sound = Calls-IsSound c (Reach-IsSound r sound)
