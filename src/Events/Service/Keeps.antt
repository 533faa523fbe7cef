-- ===== src/Events/Service/Keeps.antt =====
-- The link and the refresh of a candidate leave sound tables sound.
use mathlib.Core.Path.{subst}
use news_collect.Base.{
  ℕ, ◌≤◌, ◌≡◌, refl, sym, ap, ◌∙◌, Option, none, some, List, [], ◌∷◌, ◌++◌, true, false, ◌==◌, keep,
  length, All, All-append, arith, Bool-cases, ltb, inl, inr, contains, ==→eq,
}
use news_collect.Base.Order.{Text, codes, keys, text_eq}
use news_collect.Base.Rows.{find}
use news_collect.Base.Keys.{Unique, Unique-append, keys-append, All-map}
use news_collect.Base.Result.{Ensures, bind-Ensures}
use news_collect.Events.Rows.{
  EvidenceItem, EventCandidate, EventCandidateEvidence, EvidenceProjection, MatchDecision,
}
use news_collect.Events.Scoring.{ImportanceInput, ImportanceResult}
use news_collect.Events.Matching.Signatures.{Libraries, is_empty}
use news_collect.Events.Store.{
  Tables, link_key, candidate_key, is_active_of, active_associations, add_link, get_candidate,
  get_by_cluster_key, with_key, add_candidate, add_unless,
}
use news_collect.Events.Aggregates.{is_active_for, active_evidence, joined, source_ids}
use news_collect.Events.Service.{
  Outside, created, joins, or_raise, not_found, associate, associate_with, new_link, target_of,
  create_or_get, new_candidate_row,
}
use news_collect.Events.Service.Links.{keep-append_off, keep-append_one, sort_by-nil}
use news_collect.Events.Service.Sound.{IsCounted, IsSound}
use news_collect.Events.Service.Ready.{AllBut, Ready, refresh-IsSound}

-- After `associate`: the candidate's links may be more, those of the others are the same.
Linked : Tables → EventCandidate → Tables × EventCandidateEvidence → Type 0
Linked tables c (linked, link) =
    Unique (keys link_key linked.links)
    × ((e : ℕ) → length (keep (is_active_of e) linked.links) ≤ 1)
    × (linked.items ≡ tables.items)
    × (linked.candidates ≡ tables.candidates)
    × ((k : ℕ)
        → (c.id == k) ≡ false
        → keep (is_active_for k) linked.links ≡ keep (is_active_for k) tables.links)

module _ (outside : Outside) (tables : Tables) (c : EventCandidate)
    (projection : EvidenceProjection) (decision : MatchDecision)
    (fresh : contains outside.link_id (keys link_key tables.links) ≡ false)
    (ids : Unique (keys link_key tables.links))
    (single : (e : ℕ) → length (keep (is_active_of e) tables.links) ≤ 1) where
  unchanged-Linked : (link : EventCandidateEvidence) → Linked tables c (tables, link)
  unfolding Linked
  unchanged-Linked link = (ids, single, refl, refl, λ k h. refl)

  added-Linked :
      keep (is_active_of projection.evidence_item_id) tables.links ≡ []
      → Linked tables c (
        add_link (new_link outside c projection decision) tables,
        new_link outside c projection decision,
      )
  unfolding Linked add_link new_link
  added-Linked h = (
    rw (keys-append link_key tables.links (new_link outside c projection decision ∷ []))
        (Unique-append (keys link_key tables.links) outside.link_id ids fresh),
    λ e. elim (Bool-cases (projection.evidence_item_id == e)) [
      | inl same ↦
          subst
            (λ e.
              length (
                keep (is_active_of e) (tables.links ++ new_link outside c projection decision ∷ []))
              ≤ 1)
            (==→eq projection.evidence_item_id e same)
            (keep-append_one (is_active_of projection.evidence_item_id) tables.links _ h)
      | inr other ↦
          rw
            (keep-append_off (is_active_of e) tables.links (new_link outside c projection decision)
              (rw other refl))
            (single e)
    ],
    refl,
    refl,
    λ k other. keep-append_off (is_active_for k) tables.links _ (rw other refl),
  )

  associate_with-Linked :
      (active same : List EventCandidateEvidence)
      → (is_empty active ≡ true → keep (is_active_of projection.evidence_item_id) tables.links ≡ [])
      → Ensures (Linked tables c) (associate_with outside tables c projection decision active same)
  unfolding associate_with
  associate_with-Linked active [] h = elim (Bool-cases (is_empty active)) [
    | inl e ↦ rw e (added-Linked (h e))
    | inr e ↦ rw e tt
  ]
  associate_with-Linked active (link ∷ rest) h = elim (Bool-cases (ltb 1 (length active))) [
    | inl e ↦ rw e tt
    | inr e ↦ rw e (unchanged-Linked link)
  ]

  associate-Linked : Ensures (Linked tables c) (associate outside tables c projection decision)
  unfolding associate active_associations
  associate-Linked = associate_with-Linked _ _ (sort_by-nil _ _)

pub flip : (a b : ℕ) → (a == b) ≡ false → (b == a) ≡ false
flip a b h = ground arith

-- A candidate whose active links are the same.
pub same_links-IsCounted :
    {items : List EvidenceItem} {links links' : List EventCandidateEvidence} (c : EventCandidate)
    → keep (is_active_for c.id) links' ≡ keep (is_active_for c.id) links
    → IsCounted items links c
    → IsCounted items links' c
unfolding active_evidence
same_links-IsCounted {items} c h k = record {
  evidence = k.evidence ∙ ap (λ rows. length (joined items rows)) (sym h);
  sources = k.sources ∙ ap (λ rows. length (source_ids (joined items rows))) (sym h);
  rejection = k.rejection;
  seen_order = k.seen_order;
  confidence_bound = k.confidence_bound;
}

module _ (lib : Libraries) (scorer : ImportanceInput → ImportanceResult) where
  -- The result of a call leaves sound tables.
  abbrev pub Leaves {ℓ} : {A : Type ℓ} → Tables × A → Type 0
  Leaves (tables, a) = IsSound tables

  Linked-Ready :
      (tables : Tables) (c : EventCandidate) (linked : Tables) (link : EventCandidateEvidence)
      → Ready tables c
      → Linked tables c (linked, link)
      → Ready linked c
  unfolding Linked
  Linked-Ready tables c linked link r (ids, single, items, candidates, same) = record {
    ids = ids;
    single = single;
    others = rw (items, candidates) (All-map _ _ (λ x k. moved x k) tables.candidates r.others);
    order = r.order;
  }
    where
      moved :
          (x : EventCandidate)
          → ((x.id == c.id) ≡ false → IsCounted tables.items tables.links x)
          → (x.id == c.id) ≡ false
          → IsCounted tables.items linked.links x
      moved x k ne = same_links-IsCounted x (same x.id (flip x.id c.id ne)) (k ne)

  pub joins-IsSound :
      (outside : Outside) (tables : Tables) (c : EventCandidate) (projection : EvidenceProjection)
      (decision : MatchDecision) (status : Text)
      → contains outside.link_id (keys link_key tables.links) ≡ false
      → Ready tables c
      → Ensures Leaves (joins lib scorer outside tables c projection decision status)
  unfolding joins
  joins-IsSound outside tables c projection decision status fresh r =
      bind-Ensures (Linked tables c) Leaves (associate outside tables c projection decision) _
        (associate-Linked outside tables c projection decision fresh r.ids r.single)
        (λ (linked, link) l.
          refresh-IsSound scorer linked c projection decision
            (Linked-Ready tables c linked link r l))

  All-AllBut :
      (tables : Tables) (id : ℕ)
      → IsSound tables
      → AllBut tables.items tables.links id tables.candidates
  All-AllBut tables id s = All-map _ _ (λ x k ne. k) tables.candidates s.counts

  pub sound-Ready :
      (tables : Tables) (c : EventCandidate)
      → IsSound tables
      → c.first_seen_at ≤ c.latest_seen_at
      → Ready tables c
  sound-Ready tables c s order = record {
    ids = s.ids;
    single = s.single;
    others = All-AllBut tables c.id s;
    order = order;
  }

  -- A candidate that a query finds by its id.
  abbrev pub Found : Tables → ℕ → EventCandidate → Type 0
  Found tables id c = (c.id ≡ id) × IsCounted tables.items tables.links c

  -- A row that a query finds is of the key, and has what all rows have.
  pub find-All {ℓ} :
      {A : Type ℓ} (key : A → ℕ) (P : A → Type 0) (message : Text) (k : ℕ) (xs : List A)
      → All P xs
      → Ensures (λ x. (key x ≡ k) × P x) (or_raise message (find key k xs))
  find-All key P message k [] h = tt
  find-All key P message k (x ∷ xs) h = elim (Bool-cases (key x == k)) [
    | inl e ↦ rw e (==→eq (key x) k e, h.0)
    | inr e ↦ rw e (find-All key P message k xs h.1)
  ]

  with_key-All :
      (P : EventCandidate → Type 0) (message cluster_key : Text) (cs : List EventCandidate)
      → All P cs
      → Ensures P (or_raise message (with_key cluster_key cs))
  unfolding with_key
  with_key-All P message cluster_key [] h = tt
  with_key-All P message cluster_key (c ∷ cs) h =
      elim (Bool-cases (text_eq c.cluster_key cluster_key)) [
        | inl e ↦ rw e h.0
        | inr e ↦ rw e (with_key-All P message cluster_key cs h.1)
      ]

  -- The tables that `target_of` leaves are ready for the candidate that it found or added.
  abbrev pub Targeted : List EventCandidateEvidence → Tables × EventCandidate × Text → Type 0
  Targeted links (tables, c, status) = Ready tables c × (tables.links ≡ links)

  created-Targeted :
      (tables : Tables) (c : EventCandidate) (existing : Option EventCandidate)
      → IsSound tables
      → c.first_seen_at ≤ c.latest_seen_at
      → Ensures (Targeted tables.links) (created lib scorer tables c (add_unless c tables existing))
  unfolding created add_unless get_by_cluster_key
  created-Targeted tables c none s order = (
    record {
      ids = s.ids;
      single = s.single;
      others =
          All-append _ tables.candidates c (All-AllBut tables c.id s)
            (λ ne. absurd (differs c.id ne));
      order = order;
    },
    refl,
  )
    where
      differs : (n : ℕ) → (n == n) ≡ false → ⊥
      differs n h = ground arith
  created-Targeted tables c (some other) s order =
      bind-Ensures (λ c. IsCounted tables.items tables.links c) (Targeted tables.links)
        (or_raise (codes "IntegrityError") (with_key c.cluster_key tables.candidates)) _
        (with_key-All _ _ _ tables.candidates s.counts)
        (λ existing k. (sound-Ready tables existing s k.seen_order, refl))

  create_or_get-Targeted :
      (outside : Outside) (tables : Tables) (projection : EvidenceProjection)
      (decision : MatchDecision)
      → IsSound tables
      → Ensures
          (Targeted tables.links)
          (create_or_get lib scorer outside tables projection decision)
  unfolding create_or_get add_candidate new_candidate_row
  create_or_get-Targeted outside tables projection decision s =
      created-Targeted tables (new_candidate_row lib scorer outside projection decision) _ s
        (omega arith)

  pub target_of-Targeted :
      (outside : Outside) (tables : Tables) (projection : EvidenceProjection)
      (decision : MatchDecision) (id : Option ℕ)
      → IsSound tables
      → Ensures (Targeted tables.links) (target_of lib scorer outside tables projection decision id)
  unfolding target_of get_candidate
  target_of-Targeted outside tables projection decision none s =
      create_or_get-Targeted outside tables projection decision s
  target_of-Targeted outside tables projection decision (some id) s =
      bind-Ensures (Found tables id) (Targeted tables.links) _ _
        (find-All candidate_key (λ c. IsCounted tables.items tables.links c) not_found id
          tables.candidates s.counts)
        (λ c (at, k). (sound-Ready tables c s k.seen_order, refl))
