-- ===== src/Events/Service/Assignments.antt =====
-- event_intelligence/service.py: the abstract view of its tables, which candidate each piece of
-- evidence is assigned to.
use news_collect.Base.{
  ℕ, ◌≡◌, refl, sym, ap, ◌∙◌, Option, none, some, List, [], ◌∷◌, Bool, true, false, ◌&&◌, ◌==◌,
  keep, length, arith, All, Bool-cases, inl, inr, ◌⊎◌, ltb, eq→==, if◌then◌else◌,
}
use news_collect.Base.Order.{keys, sort_by}
use news_collect.Base.Rows.{find, modify}
use news_collect.Base.Keys.{All-map, Unique}
use news_collect.Base.Result.{Ensures}
use news_collect.Events.Rows.{
  EventCandidate, EventCandidateEvidence, EvidenceProjection, MatchDecision,
}
use news_collect.Events.Matching.Signatures.{is_empty}
use news_collect.Events.Store.{
  Tables, link_key, is_active_of, active_associations, added_before, add_link,
}
use news_collect.Events.Service.{Outside, associate, associate_with, new_link, removed}
use news_collect.Events.Service.Links.{
  keep-append_off, keep-append_only, sort_by-nil, keep-modify_off, All-same,
}

-- The assignment of a piece of evidence, and the steps that the service promises.
abbrev pub Assignment : Type 0
Assignment = ℕ → Option ℕ

abbrev pub SameBut : ℕ → Assignment → Assignment → Type 0
SameBut e a b = (k : ℕ) → (e == k) ≡ false → b k ≡ a k

-- What a call asks for: to process a piece of evidence, to remove it from a candidate, or to regroup it from
-- one candidate to another.
pub data Request : Type 0 where
  processing : ℕ → Request
  removing : ℕ → ℕ → Request
  regrouping : ℕ → ℕ → ℕ → Request

pub data Assigns (a b : Assignment) : Request → Type 0 where
  kept : (e : ℕ) → ((k : ℕ) → b k ≡ a k) → Assigns a b (processing e)
  assigned : (e c : ℕ) → a e ≡ none → b e ≡ some c → SameBut e a b → Assigns a b (processing e)
  unassigned : (c e : ℕ) → a e ≡ some c → b e ≡ none → SameBut e a b → Assigns a b (removing c e)
  moved :
      (e c d : ℕ)
      → (c == d) ≡ false
      → a e ≡ some c
      → b e ≡ some d
      → SameBut e a b
      → Assigns a b (regrouping e c d)

first_candidate : List EventCandidateEvidence → Option ℕ
first_candidate [] = none
first_candidate (link ∷ links) = some link.event_candidate_id

unfoldable pub assignment : List EventCandidateEvidence → Assignment
unfolding first_candidate
assignment links e = first_candidate (keep (is_active_of e) links)

-- A link of the evidence is added where it has none, or the links stay.
unfoldable pub AddsTo : ℕ → ℕ → List EventCandidateEvidence → List EventCandidateEvidence → Type 0
AddsTo e c links links' =
    ((links' ≡ links) × ((c' : ℕ) × (assignment links e ≡ some c')))
    ⊎ ((assignment links e ≡ none)
        × (assignment links' e ≡ some c)
        × SameBut e (assignment links) (assignment links'))

nonempty :
    (links : List EventCandidateEvidence)
    → (links ≡ [] → ⊥)
    → (c : ℕ) × (first_candidate links ≡ some c)
unfolding first_candidate
nonempty [] h = absurd (h refl)
nonempty (link ∷ links) h = (link.event_candidate_id, refl)

apart : {link : EventCandidateEvidence} {rest : List EventCandidateEvidence} → link ∷ rest ≡ [] → ⊥
apart h = cc

module _ (outside : Outside) (tables : Tables) (c : EventCandidate)
    (projection : EvidenceProjection) (decision : MatchDecision) where
  added :
      keep (is_active_of projection.evidence_item_id) tables.links ≡ []
      → AddsTo projection.evidence_item_id c.id tables.links
          (add_link (new_link outside c projection decision) tables).links
  unfolding AddsTo assignment add_link new_link first_candidate
  added h = inr (
    rw h refl,
    rw
        (keep-append_only (is_active_of projection.evidence_item_id) tables.links
          (new_link outside c projection decision) h
          (rw (eq→== projection.evidence_item_id projection.evidence_item_id refl) refl))
        refl,
    λ k other. ap first_candidate (
        keep-append_off (is_active_of k) tables.links (new_link outside c projection decision)
          (rw other refl)),
  )

  associate_with-AddsTo :
      (active same : List EventCandidateEvidence)
      → (is_empty active ≡ true → keep (is_active_of projection.evidence_item_id) tables.links ≡ [])
      → (keep (is_active_of projection.evidence_item_id) tables.links ≡ [] → same ≡ [])
      → Ensures
          (λ (t, link). AddsTo projection.evidence_item_id c.id tables.links t.links)
          (associate_with outside tables c projection decision active same)
  unfolding associate_with AddsTo assignment first_candidate
  associate_with-AddsTo active [] h k = elim (Bool-cases (is_empty active)) [
    | inl e ↦ rw e (added (h e))
    | inr e ↦ rw e tt
  ]
  associate_with-AddsTo active (link ∷ rest) h k = elim (Bool-cases (ltb 1 (length active))) [
    | inl e ↦ rw e tt
    | inr e ↦ rw e (
        inl (
          refl,
          nonempty (keep (is_active_of projection.evidence_item_id) tables.links)
              (λ none. apart (k none)),
        ))
  ]

  pub associate-AddsTo :
      Ensures
        (λ (t, link). AddsTo projection.evidence_item_id c.id tables.links t.links)
        (associate outside tables c projection decision)
  unfolding associate active_associations sort_by
  associate-AddsTo =
      associate_with-AddsTo
        (sort_by added_before (keep (is_active_of projection.evidence_item_id) tables.links))
        (keep (λ link. link.event_candidate_id == c.id)
          (sort_by added_before (keep (is_active_of projection.evidence_item_id) tables.links)))
        (sort_by-nil added_before _) (λ k. rw k refl)

module _ (p : EventCandidateEvidence → Bool) where
  nothing-All :
      (a : EventCandidateEvidence) (xs : List EventCandidateEvidence)
      → keep p xs ≡ []
      → All (λ x. p x ≡ true → x ≡ a) xs
  nothing-All a [] h = tt
  nothing-All a (x ∷ xs) h = elim (Bool-cases (p x)) [
    | inl e ↦ absurd (apart (of_true (p x) e h))
    | inr e ↦ (λ k. absurd (true_not (sym e ∙ k)), nothing-All a xs (of_false (p x) e h))
  ]
    where
      of_true :
          (b : Bool) → b ≡ true → (if b then x ∷ keep p xs else keep p xs) ≡ [] → x ∷ keep p xs ≡ []
      of_true b e h = ground (arith, e, h)

      of_false :
          (b : Bool) → b ≡ false → (if b then x ∷ keep p xs else keep p xs) ≡ [] → keep p xs ≡ []
      of_false b e h = ground (arith, e, h)

      true_not : false ≡ true → ⊥
      true_not h = cc

  -- The only one that is selected.
  only-All :
      (a : EventCandidateEvidence) (xs : List EventCandidateEvidence)
      → keep p xs ≡ a ∷ []
      → All (λ x. p x ≡ true → x ≡ a) xs
  only-All a [] h = tt
  only-All a (x ∷ xs) h = elim (Bool-cases (p x)) [
    | inl e ↦ let (same, rest) = of_true (p x) e h in (λ k. same, nothing-All a xs rest)
    | inr e ↦ (λ k. absurd (true_not (sym e ∙ k)), only-All a xs (of_false (p x) e h))
  ]
    where
      of_true :
          (b : Bool)
          → b ≡ true
          → (if b then x ∷ keep p xs else keep p xs) ≡ a ∷ []
          → (x ≡ a) × (keep p xs ≡ [])
      of_true b e h = ground (arith, e, h)

      of_false :
          (b : Bool)
          → b ≡ false
          → (if b then x ∷ keep p xs else keep p xs) ≡ a ∷ []
          → keep p xs ≡ a ∷ []
      of_false b e h = ground (arith, e, h)

      true_not : false ≡ true → ⊥
      true_not h = cc

  keep-modify_gone :
      (k time : ℕ)
      → ((x : EventCandidateEvidence) → p (removed time x) ≡ false)
      → (xs : List EventCandidateEvidence) → All (λ x. p x ≡ true → (x.id == k) ≡ true) xs
      → keep p (modify link_key k (removed time) xs) ≡ []
  keep-modify_gone k time gone [] h = refl
  keep-modify_gone k time gone (x ∷ xs) h = elim (Bool-cases (x.id == k)) [
    | inl e ↦ rw (e, gone x) (keep-modify_gone k time gone xs h.1)
    | inr e ↦ elim (Bool-cases (p x)) [
      | inl t ↦ absurd (true_not (sym e ∙ h.0 t))
      | inr t ↦ rw (e, t) (keep-modify_gone k time gone xs h.1)
    ]
  ]
    where
      true_not : false ≡ true → ⊥
      true_not h = cc

-- The link of a piece of evidence that is its only active one is taken off.
pub off-unassigned :
    (links : List EventCandidateEvidence) (link : EventCandidateEvidence) (e time : ℕ)
    → Unique (keys link_key links)
    → find link_key link.id links ≡ some link
    → link.evidence_item_id ≡ e
    → keep (is_active_of e) links ≡ link ∷ []
    → (assignment links e ≡ some link.event_candidate_id)
      × (assignment (modify link_key link.id (removed time) links) e ≡ none)
      × SameBut e (assignment links) (assignment (modify link_key link.id (removed time) links))
unfolding assignment first_candidate removed
off-unassigned links link e time u found of one = (
  rw one refl,
  ap first_candidate (
      keep-modify_gone (is_active_of e) link.id time (λ x. and_false _) links
        (All-map _ _ (λ x h k. rw (h k) (eq→== link.id link.id refl)) links
          (only-All (is_active_of e) link links one))),
  λ k other. ap first_candidate (
      keep-modify_off link_key link.id (removed time) (is_active_of k) (λ x. and_false _) links
        (All-map _ _ (λ x is_link h. rw (is_link h, of, other) refl) links
          (All-same link_key links link u found))),
)
  where
    and_false : (b : Bool) → (b && false) ≡ false
    and_false b = ground arith
