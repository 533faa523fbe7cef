-- ===== src/Events/Matching/Decided.antt =====
-- `match_existing` comes to a decision, and to which one.
use mathlib.Core.Path.{subst}
use news_collect.Base.{
  ℕ, ◌≤◌, ◌≡◌, refl, Option, none, some, List, [], ◌∷◌, ◌++◌, Bool, true, false, arith,
  if◌then◌else◌, Bool-cases, Option-cases, inl, inr,
}
use news_collect.Base.Order.{Text, codes}
use news_collect.Base.Result.{Result, ok, err, ◌>>=◌}
use news_collect.Events.Rows.{
  new_candidate, ambiguous_new_candidate, EvidenceProjection, CandidateProjection, MatchDecision,
  StableAnchor,
}
use news_collect.Events.Matching.Signatures.{
  Libraries, canonicalize_url, evidence_signatures, title_fingerprint, starts_with, first_with,
  signature, signed, filled, provider_id, split_colon,
}
use news_collect.Events.Matching.{
  Ranked, rank_of, rank_all, best, choice, nobody, only, several, decide, decision, match_existing,
  derive_anchor, select, ambiguous_anchor, anchor_of, shares, fits_title, Choice,
}
use news_collect.Events.Matching.Exact.{Chosen, candidate_of, rule_of, choice-Chosen}

abbrev Fits : CandidateProjection → Option Ranked → Type 0
Fits c none = Unit
Fits c (some row) = (row.rank ≤ 5) × (row.matched ≡ c)

if-Fits :
    (c : CandidateProjection) (b : Bool) (o u : Option Ranked)
    → Fits c o
    → Fits c u
    → Fits c (if b then o else u)
if-Fits c true o u h k = h
if-Fits c false o u h k = k

module _ (window : ℕ) (signatures : List Text) (fingerprint : Option Text)
    (incoming : EvidenceProjection) where
  rank_of-Fits :
      (c : CandidateProjection) → Fits c (rank_of window signatures fingerprint incoming c)
  unfolding rank_of
  rank_of-Fits c =
      if-Fits c (shares (codes "official:") signatures c) _ _ (omega arith, refl)
        (if-Fits c (shares (codes "url:") signatures c) _ _ (omega arith, refl)
          (if-Fits c (shares (codes "provider:") signatures c) _ _ (omega arith, refl)
            (if-Fits c (fits_title window fingerprint incoming c) _ _ (omega arith, refl)
              (if-Fits c (shares (codes "hash:") signatures c) _ _ (omega arith, refl) tt))))

  rank_of-fits :
      (c : CandidateProjection) (row : Ranked)
      → rank_of window signatures fingerprint incoming c ≡ some row
      → (row.rank ≤ 5) × (row.matched ≡ c)
  rank_of-fits c row h = subst (Fits c) h (rank_of-Fits c)

module _ (lib : Libraries) where
  first_with-append :
      (prefix : Text) (items rest : List Text) {found : Text}
      → first_with prefix rest ≡ some found
      → (item : Text) × (first_with prefix (items ++ rest) ≡ some item)
  unfolding first_with
  first_with-append prefix [] rest {found} h = (found, h)
  first_with-append prefix (x ∷ items) rest h = elim (Bool-cases (starts_with prefix x)) [
    | inl e ↦ (x, rw e refl)
    | inr e ↦ let (item, at) = first_with-append prefix items rest h in (item, rw e at)
  ]

  starts_with-append : (prefix text : Text) → starts_with prefix (prefix ++ text) ≡ true
  unfolding starts_with
  starts_with-append [] text = refl
  starts_with-append (c ∷ prefix) text = ground (arith, starts_with-append prefix text)

  abbrev HasHash : Result (List Text) → Type 0
  HasHash (ok signatures) =
      (found : Text) × (first_with (codes "hash" ++ codes ":") signatures ≡ some found)
  HasHash (err e) = Unit

  bind-HasHash {ℓ} :
      {A : Type ℓ} (r : Result A) (f : A → Result (List Text))
      → ((a : A) → HasHash (f a))
      → HasHash (r >>= f)
  bind-HasHash (ok a) f h = h a
  bind-HasHash (err e) f h = tt

  evidence_signatures-HasHash :
      (incoming : EvidenceProjection) → HasHash (evidence_signatures lib incoming)
  unfolding evidence_signatures first_with starts_with
  evidence_signatures-HasHash incoming =
      bind-HasHash (canonicalize_url lib incoming.url) _ (λ canonical.
        first_with-append (codes "hash" ++ codes ":") (others canonical) (hash_signature ∷ [])
          last_hash)
    where
      hash_signature : Text
      hash_signature =
          signature lib (codes "hash")
            (incoming.provider ++ codes ":" ++ incoming.provider_item_hash)

      others : Option Text → List Text
      others canonical =
          signed lib (codes "official")
            (if incoming.official_source then provider_id lib incoming else none)
          ++ signed lib (codes "url") (filled canonical)
          ++ signed lib (codes "provider") (provider_id lib incoming)

      last_hash : first_with (codes "hash" ++ codes ":") (hash_signature ∷ []) ≡ some hash_signature
      last_hash = refl

  select-some :
      (prefixes signatures : List Text) {found : Text}
      → first_with (codes "hash" ++ codes ":") signatures ≡ some found
      → (item : Text) × (select lib (prefixes ++ codes "hash" ∷ []) signatures ≡ ok item)
  unfolding select
  select-some [] signatures {found} h = (found, rw (h, select) refl)
  select-some (p ∷ prefixes) signatures h =
      elim (Option-cases (first_with (p ++ codes ":") signatures)) [
        | inl e ↦ let (item, at) = select-some prefixes signatures h in (item, rw (e, select) at)
        | inr (item, e) ↦ (item, rw (e, select) refl)
      ]

  -- The selection of an anchor never comes to nothing: there is a signature of the hash.
  anchor-ok :
      (incoming : EvidenceProjection) (ambiguous : Bool) {signatures : List Text}
      → evidence_signatures lib incoming ≡ ok signatures
      → (a : StableAnchor) × (derive_anchor lib incoming ambiguous ≡ ok a)
  unfolding derive_anchor
  anchor-ok incoming true h = (ambiguous_anchor lib incoming, rw h refl)
  anchor-ok incoming false {signatures} h =
      let (found, at) = subst HasHash h (evidence_signatures-HasHash incoming) in
      let (item, selected) =
        select-some (codes "official" ∷ codes "url" ∷ codes "provider" ∷ []) signatures at in
      (
        anchor_of lib incoming (title_fingerprint lib incoming.title) (split_colon item),
        rw (h, selected) refl,
      )

  abbrev Decides : EvidenceProjection → List Text → Choice → Type 0
  Decides incoming signatures c =
      (d : MatchDecision) × (decide lib incoming signatures c ≡ ok d)
      × (d.signatures ≡ signatures)
      × (d.candidate_id ≡ candidate_of c)
      × (d.match_rule ≡ rule_of c)

  decide-Decides :
      (incoming : EvidenceProjection) (c : Choice) {signatures : List Text}
      → evidence_signatures lib incoming ≡ ok signatures
      → Decides incoming signatures c
  unfolding decide decision candidate_of rule_of
  decide-Decides incoming nobody {signatures} h =
      let (a, at) = anchor-ok incoming false h in
      (decision lib incoming signatures none new_candidate a, rw at refl, refl, refl, refl)
  decide-Decides incoming (only row) {signatures} h =
      let (a, at) = anchor-ok incoming false h in
      (
        decision lib incoming signatures (some row.matched.id) row.rule a,
        rw at refl,
        refl,
        refl,
        refl,
      )
  decide-Decides incoming several {signatures} h =
      let (a, at) = anchor-ok incoming true h in
      (
        decision lib incoming signatures none ambiguous_new_candidate a,
        rw at refl,
        refl,
        refl,
        refl,
      )

  -- When the signatures of a piece of evidence can be built, the matching comes to a decision, for any
  -- window and candidates, with these signatures. If no candidate ranks, it is a new candidate; if one
  -- candidate ranks before every other, it is that one, by its rule; and if two share the best rank,
  -- the evidence is ambiguous and a new candidate as well.
  pub match_existing-Chosen :
      (window : ℕ) (incoming : EvidenceProjection) (candidates : List CandidateProjection)
      {signatures : List Text}
      → evidence_signatures lib incoming ≡ ok signatures
      → (d : MatchDecision) × (match_existing lib window incoming candidates ≡ ok d)
        × (d.signatures ≡ signatures)
        × Chosen
            (rank_of window signatures (title_fingerprint lib incoming.title) incoming)
            candidates
            d.candidate_id
            d.match_rule
  unfolding match_existing
  match_existing-Chosen window incoming candidates {signatures} h =
      let rank = rank_of window signatures (title_fingerprint lib incoming.title) incoming in
      let rows = best (rank_all rank candidates) in
      let (d, at, same, c, r) = decide-Decides incoming (choice rows) h in
      (
        d,
        rw h at,
        same,
        rw (c, r)
            (choice-Chosen rank (rank_of-fits window signatures _ incoming) candidates rows refl),
      )
