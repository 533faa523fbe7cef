-- ===== src/Events/Service/Removal.antt =====
-- When a link is taken off a candidate, and when not.
use mathlib.Core.Path.{subst}
use news_collect.Base.Keys.{All-map, All-both}
use news_collect.Base.{
  ℕ, suc, ◌≤◌, ◌≡◌, refl, Option, List, [], ◌∷◌, Bool, true, false, some, ◌&&◌, ◌==◌, keep,
  keep-keep, length, All, All-keep, All-keep_of, is_some, arith, Bool-cases, inl, inr,
}
use news_collect.Base.Order.{codes}
use news_collect.Base.Rows.{find, find-modify_self, find-modify_other}
use news_collect.Base.Result.{Result, ok, err}
use news_collect.Events.Rows.{EventCandidateEvidence}
use news_collect.Events.Scoring.{ImportanceInput, ImportanceResult}
use news_collect.Events.Matching.Signatures.{Libraries}
use news_collect.Events.Store.{
  Tables, link_key, candidate_key, is_active_of, get_candidate, put_candidate,
}
use news_collect.Events.Aggregates.{is_active_for}
use news_collect.Events.Service.{
  Outside, removed, or_now, pair_links, deactivate_link, deactivate_association,
}
use news_collect.Events.Service.Sound.{IsSound}
use news_collect.Events.Service.Calls.{Paired, pair_links-Paired}
use news_collect.Events.Service.Succeeds.{AreLinked, is_some_at}

-- The links that two tests select are no more than one of them selects.
pub keep_le :
    (p q : EventCandidateEvidence → Bool) (links : List EventCandidateEvidence)
    → ((l : EventCandidateEvidence) → p l ≡ true → q l ≡ true)
    → length (keep p links) ≤ length (keep q links)
keep_le p q [] h = omega arith
keep_le p q (l ∷ links) h = elim (Bool-cases (p l)) [
  | inl e ↦ rw (e, h l e) (omega (arith, keep_le p q links h))
  | inr e ↦ elim (Bool-cases (q l)) [
    | inl k ↦ rw (e, k) (omega (arith, keep_le p q links h))
    | inr k ↦ rw (e, k) (keep_le p q links h)
  ]
]

module _ (lib : Libraries) (scorer : ImportanceInput → ImportanceResult) (outside : Outside)
    (tables : Tables) (candidate_id evidence_item_id : ℕ) (removed_at : Option ℕ) where
  -- The two ends of a removal: the link that was active is written off, or there was none.
  pub data IsRemoved : Result (Tables × EventCandidateEvidence) → Type 0 where
    taken :
        (link link' : EventCandidateEvidence) (t : Tables)
        → pair_links lib scorer tables candidate_id evidence_item_id ≡ link ∷ []
        → find link_key link.id t.links ≡ some link'
        → link'.active ≡ false
        → link'.removed_at ≡ some (or_now outside removed_at)
        → link' ≡ record link { active = link'.active; removed_at = link'.removed_at }
        → ((j : ℕ)
            → (link.id == j) ≡ false
            → find link_key j t.links ≡ find link_key j tables.links)
        → IsRemoved (ok (t, link'))
    missing :
        pair_links lib scorer tables candidate_id evidence_item_id ≡ []
        → IsRemoved (err (codes "event_candidate_evidence_not_found"))

  pair_links_le :
      IsSound tables → length (pair_links lib scorer tables candidate_id evidence_item_id) ≤ 1
  unfolding pair_links
  pair_links_le s =
      rw
        (keep-keep (is_active_for candidate_id) (λ link. link.evidence_item_id == evidence_item_id)
          tables.links)
        (le_one (keep_le _ (is_active_of evidence_item_id) tables.links (λ l h. ground arith))
          (s.single evidence_item_id))
    where
      le_one : {a b : ℕ} → a ≤ b → b ≤ 1 → a ≤ 1
      le_one h k = omega arith

  pair_links-linked :
      AreLinked tables
      → All
          (λ link. is_some (find candidate_key candidate_id tables.candidates) ≡ true)
          (pair_links lib scorer tables candidate_id evidence_item_id)
  unfolding pair_links
  pair_links-linked linked = All-keep_of _ _ _ (
      All-map _ _
        (λ link (there, of).
          subst (λ k. is_some (find candidate_key k tables.candidates) ≡ true) of there)
        (keep (is_active_for candidate_id) tables.links)
        (All-both _ _ _ (All-keep_of _ _ tables.links linked) (
          All-keep (λ link. link.event_candidate_id ≡ candidate_id) (is_active_for candidate_id)
            (λ link h. of_pair link.event_candidate_id link.active h) tables.links)))
    where
      of_pair : (n : ℕ) (b : Bool) → (n == candidate_id && b) ≡ true → n ≡ candidate_id
      of_pair n b h = ground arith

  deactivate_link-IsRemoved :
      (links : List EventCandidateEvidence)
      → pair_links lib scorer tables candidate_id evidence_item_id ≡ links
      → length links ≤ 1
      → All (λ link. is_some (find candidate_key candidate_id tables.candidates) ≡ true) links
      → All (Paired lib scorer tables candidate_id) links
      → IsRemoved (deactivate_link lib scorer tables candidate_id (or_now outside removed_at) links)
  unfolding deactivate_link get_candidate put_candidate removed
  deactivate_link-IsRemoved [] h one linked paired = missing h
  deactivate_link-IsRemoved (link ∷ other ∷ rest) h one linked paired = absurd (no one)
    where
      no : {n : ℕ} → suc (suc n) ≤ 1 → ⊥
      no k = omega arith
  deactivate_link-IsRemoved (link ∷ []) h one (there, rest) ((found, of), more) =
      let (c, e) =
        is_some_at lib scorer (find candidate_key candidate_id tables.candidates) there in
      let time = or_now outside removed_at in
      rw e (
        taken link (removed time link) _ h
          (find-modify_self link_key link.id (removed time) (λ x. refl) tables.links {a = link}
            found)
          refl refl refl
          (λ j ne. find-modify_other link_key link.id j (removed time) (λ x. refl) tables.links ne))

  -- A removal of a piece of evidence from a candidate has two ends only, in sound tables whose links are
  -- of candidates in the table. If the pair has an active link, that link is the only one and it is
  -- returned and stands in the tables as inactive and removed at the given time, or now, with no other
  -- field changed, and every other link stays; otherwise the call raises `event_candidate_evidence_not_found`. So it
  -- never raises that the association is ambiguous or the candidate is missing.
  pub deactivate_association-IsRemoved :
      IsSound tables
      → AreLinked tables
      → IsRemoved (
          deactivate_association lib scorer outside tables candidate_id evidence_item_id removed_at)
  unfolding deactivate_association
  deactivate_association-IsRemoved s linked =
      deactivate_link-IsRemoved (pair_links lib scorer tables candidate_id evidence_item_id) refl
        (pair_links_le s) (pair_links-linked linked)
        (pair_links-Paired lib scorer tables candidate_id evidence_item_id s)
