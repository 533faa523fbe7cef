-- ===== src/Events/Service/Takes.antt =====
-- event_intelligence/service.py: what `deactivate_association` does to the assignment.
use mathlib.Core.Path.{subst}
use news_collect.Base.{
  ℕ, ◌≡◌, ◌≤◌, refl, sym, ap, ◌∙◌, Option, none, some, List, [], ◌∷◌, Bool, true, false, ◌==◌, keep,
  keep-keep, length, arith, All, All-keep, Bool-cases, inl, inr, if◌then◌else◌, ==→eq,
}
use news_collect.Base.Rows.{modify}
use news_collect.Base.Result.{Ensures, next-Ensures}
use news_collect.Events.Rows.{EventCandidateEvidence}
use news_collect.Events.Scoring.{ImportanceInput, ImportanceResult}
use news_collect.Events.Matching.Signatures.{Libraries}
use news_collect.Events.Store.{Tables, link_key, is_active_of, put_candidate, get_candidate}
use news_collect.Events.Aggregates.{is_active_for}
use news_collect.Events.Service.{
  Outside, or_raise, not_found, pair_links, deactivate_link, deactivate_association, removed,
}
use news_collect.Events.Service.Sound.{IsSound}
use news_collect.Events.Service.Calls.{Paired, pair_links-Paired}
use news_collect.Events.Service.Removal.{keep_le}
use news_collect.Events.Service.Assignments.{SameBut, assignment, off-unassigned}

-- A link that is selected among those of which at most one passes a weaker test.
keep_super :
    (p q : EventCandidateEvidence → Bool) (a : EventCandidateEvidence)
    (xs : List EventCandidateEvidence)
    → ((x : EventCandidateEvidence) → p x ≡ true → q x ≡ true)
    → keep p xs ≡ a ∷ []
    → length (keep q xs) ≤ 1
    → keep q xs ≡ a ∷ []
keep_super p q a [] weaker h one = h
keep_super p q a (x ∷ xs) weaker h one = elim (Bool-cases (p x)) [
  | inl e ↦
      let (same, rest) = of_true (p x) e h in
      rw (weaker x e, same) (ap (λ l. a ∷ l) (nil (keep q xs) (under (q x) (weaker x e) one)))
  | inr e ↦ elim (Bool-cases (q x)) [
    | inl k ↦ absurd (
        two (keep p xs) (of_false (p x) e h)
          (le_nil (keep p xs) (keep_le p q xs weaker) (nil (keep q xs) (under (q x) k one))))
    | inr k ↦ rw k (keep_super p q a xs weaker (of_false (p x) e h) (over (q x) k one))
  ]
]
  where
    of_true :
        (b : Bool)
        → b ≡ true
        → (if b then x ∷ keep p xs else keep p xs) ≡ a ∷ []
        → (x ≡ a) × (keep p xs ≡ [])
    of_true b e h = ground (arith, e, h)

    of_false :
        (b : Bool)
        → b ≡ false
        → (if b then x ∷ keep p xs else keep p xs) ≡ a ∷ []
        → keep p xs ≡ a ∷ []
    of_false b e h = ground (arith, e, h)

    under :
        (b : Bool)
        → b ≡ true
        → length (if b then x ∷ keep q xs else keep q xs) ≤ 1
        → length (keep q xs) ≤ 0
    under true e h = omega arith
    under false e h = cc

    over :
        (b : Bool)
        → b ≡ false
        → length (if b then x ∷ keep q xs else keep q xs) ≤ 1
        → length (keep q xs) ≤ 1
    over true e h = cc
    over false e h = h

    nil : (l : List EventCandidateEvidence) → length l ≤ 0 → l ≡ []
    nil [] h = refl
    nil (y ∷ l) h = ground (arith, h)

    le_nil :
        (l : List EventCandidateEvidence) {m : List EventCandidateEvidence}
        → length l ≤ length m
        → m ≡ []
        → length l ≤ 0
    le_nil l k e = subst (λ n. length l ≤ length n) e k

    two : (l : List EventCandidateEvidence) → l ≡ a ∷ [] → length l ≤ 0 → ⊥
    two [] e k = cc
    two (y ∷ l) e k = omega arith

module _ (lib : Libraries) (scorer : ImportanceInput → ImportanceResult) where
  -- The evidence is taken from the candidate.
  abbrev pub Off : ℕ → ℕ → List EventCandidateEvidence → List EventCandidateEvidence → Type 0
  Off e c links links' =
      (assignment links e ≡ some c)
      × (assignment links' e ≡ none)
      × SameBut e (assignment links) (assignment links')

  deactivate_link-Off :
      (tables : Tables) (c e time : ℕ) (links : List EventCandidateEvidence)
      → IsSound tables
      → All (Paired lib scorer tables c) links
      → All (λ link. link.evidence_item_id ≡ e) links
      → ((link : EventCandidateEvidence)
          → links ≡ link ∷ []
          → keep (is_active_of e) tables.links ≡ link ∷ [])
      → Ensures
          (λ (t, l). Off e c tables.links t.links)
          (deactivate_link lib scorer tables c time links)
  unfolding deactivate_link put_candidate
  deactivate_link-Off tables c e time [] s h of one = tt
  deactivate_link-Off tables c e time (link ∷ other ∷ rest) s h of one = tt
  deactivate_link-Off tables c e time (link ∷ []) s ((found, at), rest) (of, others) one =
      next-Ensures (λ ((t, l) : Tables × EventCandidateEvidence). Off e c tables.links t.links)
        (or_raise not_found (
          get_candidate
            (record tables { links = modify link_key link.id (removed time) tables.links }) c))
        _
        (λ row.
          let (before, after, same) =
            off-unassigned tables.links link e time s.ids found of (one link refl) in
          (before ∙ ap some at, after, same))

  pair_links-of :
      (tables : Tables) (c e : ℕ)
      → All (λ link. link.evidence_item_id ≡ e) (pair_links lib scorer tables c e)
  unfolding pair_links
  pair_links-of tables c e =
      All-keep _ _ (λ (link : EventCandidateEvidence) h. ==→eq link.evidence_item_id e h) _

  pair_links-only :
      (tables : Tables) (c e : ℕ)
      → IsSound tables
      → (link : EventCandidateEvidence) → pair_links lib scorer tables c e ≡ link ∷ []
      → keep (is_active_of e) tables.links ≡ link ∷ []
  unfolding pair_links
  pair_links-only tables c e s link h =
      keep_super _ (is_active_of e) link tables.links (λ l k. ground arith)
        (sym (keep-keep (is_active_for c) (λ l. l.evidence_item_id == e) tables.links) ∙ h)
        (s.single e)

  pub deactivate_association-Off :
      (outside : Outside) (tables : Tables) (c e : ℕ) (removed_at : Option ℕ)
      → IsSound tables
      → Ensures
          (λ (t, l). Off e c tables.links t.links)
          (deactivate_association lib scorer outside tables c e removed_at)
  unfolding deactivate_association
  deactivate_association-Off outside tables c e removed_at s =
      deactivate_link-Off tables c e _ (pair_links lib scorer tables c e) s
        (pair_links-Paired lib scorer tables c e s) (pair_links-of tables c e)
        (pair_links-only tables c e s)
