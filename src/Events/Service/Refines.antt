-- ===== src/Events/Service/Refines.antt =====
-- event_intelligence/service.py: its calls as steps of the assignment of Service/Assignments.
use mathlib.Core.Path.{subst}
use news_collect.Base.{
  ℕ, ◌≡◌, refl, sym, ◌∙◌, Option-cases, Bool-cases, false, none, some, List, [], ◌∷◌, ◌==◌, inl,
  inr,
}
use news_collect.Base.Order.{Text, codes}
use news_collect.Base.Rows.{find, find-key}
use news_collect.Base.Result.{Result, ok, err, Ensures, bind-Ensures, next-Ensures}
use news_collect.Events.Rows.{
  EventCandidate, EventCandidateEvidence, EvidenceProjection, MatchDecision,
}
use news_collect.Events.Scoring.{ImportanceInput, ImportanceResult}
use news_collect.Events.Matching.{match_existing}
use news_collect.Events.Matching.Signatures.{Libraries}
use news_collect.Events.Store.{
  Tables, candidate_key, active_associations, put_candidate, get_candidate, load_candidates,
  load_evidence_projection,
}
use news_collect.Events.Aggregates.{refresh_candidate}
use news_collect.Events.Service.{
  Outside, EventCandidateOutcome, or_raise, not_found, ambiguous, unless_raise, is_only_link,
  regroup_decision, associate, joins, target_of, process, process_links, process_new, window,
  regroup_association,
}
use news_collect.Events.Service.Sound.{IsSound}
use news_collect.Events.Service.Keeps.{Targeted, target_of-Targeted}
use news_collect.Events.Service.Succeeds.{projected-id}
use news_collect.Events.Service.Calls.{Calls, processes, deactivates, regroups}
use news_collect.Events.Service.Assignments.{
  Request, processing, removing, regrouping, Assigns, kept, assigned, unassigned, moved, assignment,
  AddsTo, associate-AddsTo,
}
use news_collect.Events.Service.Takes.{Off, deactivate_association-Off}

module _ (lib : Libraries) (scorer : ImportanceInput → ImportanceResult) where
  joins-AddsTo :
      (outside : Outside) (tables : Tables) (c : EventCandidate) (projection : EvidenceProjection)
      (decision : MatchDecision) (status : Text)
      → Ensures
          (λ (t, o). AddsTo projection.evidence_item_id c.id tables.links t.links)
          (joins lib scorer outside tables c projection decision status)
  unfolding joins refresh_candidate put_candidate
  joins-AddsTo outside tables c projection decision status =
      bind-Ensures (λ (t, link). AddsTo projection.evidence_item_id c.id tables.links t.links)
        (λ (t, o). AddsTo projection.evidence_item_id c.id tables.links t.links)
        (associate outside tables c projection decision) _
        (associate-AddsTo outside tables c projection decision) (λ (linked, link) a. a)

  loaded-id :
      (tables : Tables) (e : ℕ)
      → Ensures
          (λ p. p.evidence_item_id ≡ e)
          (or_raise (codes "evidence_item_not_found") (load_evidence_projection tables e))
  loaded-id tables e = elim (Option-cases (load_evidence_projection tables e)) [
    | inl h ↦ rw h tt
    | inr (projection, h) ↦ rw h (projected-id lib scorer tables e h)
  ]

  added-Assigns :
      (e c : ℕ) (links links' : List EventCandidateEvidence)
      → AddsTo e c links links'
      → Assigns (assignment links) (assignment links') (processing e)
  unfolding AddsTo
  added-Assigns e c links links' (inl (same, there)) = kept e (λ k. rw same refl)
  added-Assigns e c links links' (inr (before, after, others)) = assigned e c before after others

  process_new-Assigns :
      (outside : Outside) (earlier tables : Tables) (projection : EvidenceProjection)
      → IsSound tables
      → Ensures
          (λ (t, o).
            Assigns
              (assignment tables.links)
              (assignment t.links)
              (processing projection.evidence_item_id))
          (process_new lib scorer outside earlier tables projection)
  unfolding process_new
  process_new-Assigns outside earlier tables projection s =
      next-Ensures _ (match_existing lib (window lib scorer) projection (load_candidates earlier)) _
        (λ decision.
          bind-Ensures (Targeted lib scorer tables.links)
            (λ (t, o).
              Assigns (assignment tables.links) (assignment t.links)
                (processing projection.evidence_item_id))
            (target_of lib scorer outside tables projection decision decision.candidate_id) _
            (target_of-Targeted lib scorer outside tables projection decision decision.candidate_id
              s)
            (λ (with_target, c, status) (r, same).
              bind-of projection.evidence_item_id c.id
                (joins lib scorer outside with_target c projection decision status)
                (subst
                  (λ l.
                    Ensures (λ (t, o). AddsTo projection.evidence_item_id c.id l t.links)
                      (joins lib scorer outside with_target c projection decision status))
                  same (joins-AddsTo outside with_target c projection decision status))))
    where
      bind-of :
          (e c : ℕ) (r : Result (Tables × EventCandidateOutcome))
          → Ensures (λ (t, o). AddsTo e c tables.links t.links) r
          → Ensures
              (λ (t, o). Assigns (assignment tables.links) (assignment t.links) (processing e))
              r
      bind-of e c (ok (t, o)) a = added-Assigns e c tables.links t.links a
      bind-of e c (err m) a = tt

  process_links-Assigns :
      (outside : Outside) (earlier tables : Tables) (projection : EvidenceProjection)
      (links : List EventCandidateEvidence)
      → IsSound tables
      → Ensures
          (λ (t, o).
            Assigns
              (assignment tables.links)
              (assignment t.links)
              (processing projection.evidence_item_id))
          (process_links lib scorer outside earlier tables projection links)
  unfolding process_links
  process_links-Assigns outside earlier tables projection [] s =
      process_new-Assigns outside earlier tables projection s
  process_links-Assigns outside earlier tables projection (link ∷ []) s =
      next-Ensures _ (or_raise not_found (get_candidate earlier link.event_candidate_id)) _
        (λ c. kept projection.evidence_item_id (λ k. refl))
  process_links-Assigns outside earlier tables projection (link ∷ other ∷ rest) s = tt

  process-Assigns :
      (outside : Outside) (earlier tables : Tables) (e : ℕ)
      → IsSound tables
      → Ensures
          (λ (t, o). Assigns (assignment tables.links) (assignment t.links) (processing e))
          (process lib scorer outside earlier tables e)
  unfolding process
  process-Assigns outside earlier tables e s =
      bind-Ensures (λ p. p.evidence_item_id ≡ e)
        (λ (t, o). Assigns (assignment tables.links) (assignment t.links) (processing e)) _ _
        (loaded-id earlier e)
        (λ projection of.
          subst
            (λ k.
              Ensures
                (λ (t, o). Assigns (assignment tables.links) (assignment t.links) (processing k))
                (process_links lib scorer outside earlier tables projection
                  (active_associations earlier e)))
            of
            (process_links-Assigns outside earlier tables projection (active_associations earlier e)
              s))

  moved-Assigns :
      (e c d : ℕ) (links off links' : List EventCandidateEvidence)
      → (c == d) ≡ false
      → Off lib scorer e c links off
      → AddsTo e d off links'
      → Assigns (assignment links) (assignment links') (regrouping e c d)
  unfolding AddsTo
  moved-Assigns e c d links off links' ne (was, gone, same) (inl (stays, (d', there))) =
      absurd (none_not (sym gone ∙ there))
    where
      none_not : {k : ℕ} → none ≡ some k → ⊥
      none_not h = cc
  moved-Assigns e c d links off links' ne (was, gone, same) (inr (before, after, others)) =
      moved e c d ne was after (λ k o. others k o ∙ same k o)

  target-id :
      (tables : Tables) (k : ℕ)
      → Ensures (λ (c : EventCandidate). c.id ≡ k) (or_raise not_found (get_candidate tables k))
  unfolding get_candidate
  target-id tables k = elim (Option-cases (find candidate_key k tables.candidates)) [
    | inl h ↦ rw h tt
    | inr (c, h) ↦ rw h (find-key candidate_key k tables.candidates h)
  ]

  regroup_association-Assigns :
      (outside : Outside) (tables : Tables) (e from_id to_id : ℕ)
      → IsSound tables
      → Ensures
          (λ (t, o).
            Assigns (assignment tables.links) (assignment t.links) (regrouping e from_id to_id))
          (regroup_association lib scorer outside tables e from_id to_id)
  unfolding regroup_association
  regroup_association-Assigns outside tables e from_id to_id s =
      let Q : Tables × EventCandidateOutcome → Type 0 = λ (t, o).
        Assigns (assignment tables.links) (assignment t.links) (regrouping e from_id to_id) in
      elim (Bool-cases (from_id == to_id)) [
        | inl e ↦ rw e tt
        | inr ne ↦ rw ne (
            bind-Ensures (λ p. p.evidence_item_id ≡ e) Q _ _ (loaded-id tables e)
              (λ projection of.
                next-Ensures Q
                  (unless_raise lib scorer ambiguous
                    (is_only_link lib scorer from_id (active_associations tables e)))
                  _
                  (λ only.
                    bind-Ensures (λ (target : EventCandidate). target.id ≡ to_id) Q _ _
                      (target-id tables to_id)
                      (λ target at.
                        bind-Ensures (λ (t, l). Off lib scorer e from_id tables.links t.links) Q _ _
                          (deactivate_association-Off lib scorer outside tables from_id e none s)
                          (λ (off, link) is_off.
                            next-Ensures Q (regroup_decision lib scorer projection target) _
                              (λ decision.
                                joined
                                  (joins lib scorer outside off target projection decision
                                    (codes "regrouped"))
                                  off.links is_off ne
                                  (subst_both of at
                                    (λ k m.
                                      Ensures (λ (t, o). AddsTo k m off.links t.links)
                                        (joins lib scorer outside off target projection decision
                                          (codes "regrouped")))
                                    (joins-AddsTo outside off target projection decision
                                      (codes "regrouped")))))))))
      ]
    where
      subst_both : {x y u v : ℕ} → x ≡ y → u ≡ v → (P : ℕ → ℕ → Type 0) → P x u → P y v
      subst_both {y = y} {u = u} p q P h = subst (λ m. P y m) q (subst (λ k. P k u) p h)

      joined :
          (r : Result (Tables × EventCandidateOutcome)) (off : List EventCandidateEvidence)
          → Off lib scorer e from_id tables.links off
          → (from_id == to_id) ≡ false
          → Ensures (λ (t, o). AddsTo e to_id off t.links) r
          → Ensures
              (λ (t, o).
                Assigns (assignment tables.links) (assignment t.links) (regrouping e from_id to_id))
              r
      joined (ok (t, o)) off is_off ne a =
          moved-Assigns e from_id to_id tables.links off t.links ne is_off a
      joined (err m) off is_off ne a = tt

  abbrev pub request : {s t : Tables} → Calls lib scorer s t → Request
  request (processes outside earlier e o fresh h) = processing e
  request (deactivates outside c e time link h) = removing c e
  request (regroups outside e from_id to_id o fresh h) = regrouping e from_id to_id

  -- From sound tables, every call of the service that commits is the step that it asks for of the assignment that
  -- sends a piece of evidence to the candidate of its first active link. To process a piece of evidence
  -- keeps the assignment or gives the evidence, which had no candidate, one. To remove it from a candidate takes that
  -- candidate from it and leaves it none. To regroup it takes it from the one candidate to the other, and the two differ.
  -- Every other piece of evidence keeps what it had. The first reads of a call of `process` may see
  -- other tables than its writes.
  pub Calls-Assigns :
      {s t : Tables}
      → (call : Calls lib scorer s t) → IsSound s
      → Assigns (assignment s.links) (assignment t.links) (request call)
  Calls-Assigns {s} (processes outside earlier e o fresh h) sound =
      subst (Ensures (λ (t, o). Assigns (assignment s.links) (assignment t.links) (processing e))) h
        (process-Assigns outside earlier s e sound)
  Calls-Assigns {s} {t} (deactivates outside c e time link h) sound =
      let (before, after, same) : Off lib scorer e c s.links t.links =
        subst (Ensures (λ (t, l). Off lib scorer e c s.links t.links)) h
          (deactivate_association-Off lib scorer outside s c e time sound) in
      unassigned c e before after same
  Calls-Assigns {s} (regroups outside e from_id to_id o fresh h) sound =
      subst
        (Ensures (λ (t, o).
          Assigns (assignment s.links) (assignment t.links) (regrouping e from_id to_id)))
        h (regroup_association-Assigns outside s e from_id to_id sound)
