-- ===== src/Events/Matching/Exact.antt =====
-- Which candidate a piece of evidence is matched with.
use mathlib.Core.Path.{subst}
use news_collect.Base.{
  ℕ, ◌≤◌, ◌<◌, ◌≡◌, ◌⊎◌, refl, sym, ap, ◌∙◌, Option, none, some, List, [], ◌∷◌, ◌++◌, Bool, true,
  false, ◌==◌, keep, arith, All, Bool-cases, Option-cases, inl, inr, ==→eq,
}
use news_collect.Events.Rows.{
  MatchRule, new_candidate, ambiguous_new_candidate, CandidateProjection,
}
use news_collect.Events.Matching.{
  Ranked, add_rank, rank_all, best_rank, best, choice, nobody, only, several, Choice,
}

-- The decision's candidate and rule.
unfoldable pub candidate_of : Choice → Option ℕ
candidate_of nobody = none
candidate_of (only row) = some row.matched.id
candidate_of several = none

unfoldable pub rule_of : Choice → MatchRule
rule_of nobody = new_candidate
rule_of (only row) = row.rule
rule_of several = ambiguous_new_candidate

module _ (rank : CandidateProjection → Option Ranked) where
  abbrev pub IsAtLeast : ℕ → CandidateProjection → Type 0
  IsAtLeast n c = (row : Ranked) → rank c ≡ some row → n ≤ row.rank

  -- A candidate that does not rank, or ranks behind.
  abbrev pub IsBehind : ℕ → CandidateProjection → Type 0
  IsBehind n c = (row : Ranked) → rank c ≡ some row → n < row.rank

  -- The candidate and the rule that a choice between candidates comes to: none of them ranks; one
  -- ranks before all others; or two share the best rank.
  pub data Chosen (cs : List CandidateProjection) : Option ℕ → MatchRule → Type 0 where
    unranked : All (λ c. rank c ≡ none) cs → Chosen cs none new_candidate
    first :
        (before after : List CandidateProjection) (c : CandidateProjection) (row : Ranked)
        → cs ≡ before ++ c ∷ after
        → rank c ≡ some row
        → All (IsBehind row.rank) before
        → All (IsBehind row.rank) after
        → Chosen cs (some c.id) row.rule
    tied :
        (before between after : List CandidateProjection) (c d : CandidateProjection)
        (row row' : Ranked)
        → cs ≡ before ++ c ∷ (between ++ d ∷ after)
        → rank c ≡ some row
        → rank d ≡ some row'
        → row.rank ≡ row'.rank
        → All (IsAtLeast row.rank) cs
        → Chosen cs none ambiguous_new_candidate

  keep-add :
      (p : Ranked → Bool) (o : Option Ranked) (rows : List Ranked) {row : Ranked}
      {rest : List Ranked}
      → keep p (add_rank o rows) ≡ row ∷ rest
      → ((o ≡ some row) × (p row ≡ true) × (keep p rows ≡ rest))
        ⊎ ((keep p rows ≡ row ∷ rest)
            × ((ys : List Ranked) → keep p ys ≡ [] → keep p (add_rank o ys) ≡ []))
  unfolding add_rank
  keep-add p none rows h = inr (h, λ ys k. k)
  keep-add p (some r) rows h = elim (Bool-cases (p r)) [
    | inl t ↦ inl (ground (arith, t, h))
    | inr t ↦ inr (ground (arith, t, h), λ ys k. rw t k)
  ]

  -- Where the first row of those that pass a test comes from.
  record Split (p : Ranked → Bool) (cs : List CandidateProjection) (row : Ranked)
      (rest : List Ranked) : Type 0 where
    before : List CandidateProjection
    after : List CandidateProjection
    c : CandidateProjection
    parts : cs ≡ before ++ c ∷ after
    ranked : rank c ≡ some row
    passes : p row ≡ true
    none_before : keep p (rank_all rank before) ≡ []
    others : keep p (rank_all rank after) ≡ rest

  cons-Split :
      {p : Ranked → Bool} {cs : List CandidateProjection} {row : Ranked} {rest : List Ranked}
      (d : CandidateProjection)
      → ((before : List CandidateProjection)
          → keep p (rank_all rank before) ≡ []
          → keep p (rank_all rank (d ∷ before)) ≡ [])
      → Split p cs row rest
      → Split p (d ∷ cs) row rest
  cons-Split d step s = record {
    before = d ∷ s.before;
    after = s.after;
    c = s.c;
    parts = ap (λ xs. d ∷ xs) s.parts;
    ranked = s.ranked;
    passes = s.passes;
    none_before = step s.before s.none_before;
    others = s.others;
  }

  keep-Split :
      (p : Ranked → Bool) (cs : List CandidateProjection) {row : Ranked} {rest : List Ranked}
      → keep p (rank_all rank cs) ≡ row ∷ rest
      → Split p cs row rest
  unfolding rank_all
  keep-Split p [] h = cc
  keep-Split p (c ∷ cs) h = elim (keep-add p (rank c) (rank_all rank cs) h) [
    | inl (e, t, k) ↦ record {
      before = [];
      after = cs;
      c = c;
      parts = refl;
      ranked = e;
      passes = t;
      none_before = refl;
      others = k;
    }
    | inr (k, step) ↦ cons-Split c (λ before. step (rank_all rank before)) (keep-Split p cs k)
  ]

  add_rank-le :
      (n : ℕ) (o : Option Ranked) (rows : List Ranked)
      → n ≤ best_rank (add_rank o rows)
      → ((row : Ranked) → o ≡ some row → n ≤ row.rank) × (n ≤ best_rank rows)
  unfolding add_rank best_rank
  add_rank-le n none rows h = (λ row k. cc, h)
  add_rank-le n (some r) rows h = (λ row k. ground (arith, h, k), ground (arith, h))

  rank_all-IsAtLeast :
      (n : ℕ) (cs : List CandidateProjection)
      → n ≤ best_rank (rank_all rank cs)
      → All (IsAtLeast n) cs
  unfolding rank_all
  rank_all-IsAtLeast n [] h = tt
  rank_all-IsAtLeast n (c ∷ cs) h =
      let (here, there) = add_rank-le n (rank c) (rank_all rank cs) h in
      (here, rank_all-IsAtLeast n cs there)

  add_rank-none :
      (n : ℕ) (o : Option Ranked) (rows : List Ranked)
      → keep (λ row. row.rank == n) (add_rank o rows) ≡ []
      → ((row : Ranked) → o ≡ some row → (row.rank == n) ≡ false)
        × (keep (λ row. row.rank == n) rows ≡ [])
  unfolding add_rank
  add_rank-none n none rows h = (λ row k. cc, h)
  add_rank-none n (some r) rows h = elim (Bool-cases (r.rank == n)) [
    | inl t ↦ ground (arith, t, h)
    | inr t ↦ (λ row k. ground (arith, t, k), ground (arith, t, h))
  ]

  le-ne : {n m : ℕ} → n ≤ m → (m == n) ≡ false → n < m
  le-ne h k = ground arith

  -- Those with no row at the best rank are behind it.
  All-IsBehind :
      (n : ℕ) (cs : List CandidateProjection)
      → All (IsAtLeast n) cs
      → keep (λ row. row.rank == n) (rank_all rank cs) ≡ []
      → All (IsBehind n) cs
  unfolding rank_all
  All-IsBehind n [] low h = tt
  All-IsBehind n (c ∷ cs) low h =
      let (here, there) = add_rank-none n (rank c) (rank_all rank cs) h in
      (λ row k. le-ne (low.0 row k) (here row k), All-IsBehind n cs low.1 there)

  at_best :
      (rows : List Ranked) (n : ℕ)
      → n ≤ best_rank rows
      → n ≤ 5
      → keep (λ row. row.rank == n) rows ≡ []
      → n < best_rank rows
  unfolding best_rank
  at_best [] n low small h = omega arith
  at_best (row ∷ rows) n low small h = elim (Bool-cases (row.rank == n)) [
    | inl t ↦ ground (arith, t, h)
    | inr t ↦ ground (arith, at_best rows n)
  ]

  module _
      (fits : (c : CandidateProjection) (row : Ranked)
        → rank c ≡ some row
        → (row.rank ≤ 5) × (row.matched ≡ c)) where
    nobody-none :
        (cs : List CandidateProjection) → All (IsAtLeast 6) cs → All (λ c. rank c ≡ none) cs
    nobody-none [] low = tt
    nobody-none (c ∷ cs) low = (
      elim (Option-cases (rank c)) [
        | inl e ↦ e
        | inr (r, e) ↦ absurd (over (low.0 r e) (fits c r e).0)
      ],
      nobody-none cs low.1,
    )
      where
        over : {n : ℕ} → 6 ≤ n → n ≤ 5 → ⊥
        over h k = omega arith

    All-parts :
        (P : CandidateProjection → Type 0) (xs ys : List CandidateProjection)
        (y : CandidateProjection)
        → All P (xs ++ y ∷ ys)
        → All P xs × All P ys
    All-parts P [] ys y h = (tt, h.1)
    All-parts P (x ∷ xs) ys y h = let (a, b) = All-parts P xs ys y h.1 in ((h.0, a), b)

    pub choice-Chosen :
        (cs : List CandidateProjection) (rows : List Ranked)
        → best (rank_all rank cs) ≡ rows
        → Chosen cs (candidate_of (choice rows)) (rule_of (choice rows))
    unfolding choice candidate_of rule_of best
    choice-Chosen cs [] h = unranked (nobody-none cs (rank_all-IsAtLeast 6 cs (past h)))
      where
        past : best (rank_all rank cs) ≡ [] → 6 ≤ best_rank (rank_all rank cs)
        past h = ground (arith, at_best (rank_all rank cs) (best_rank (rank_all rank cs)))
    choice-Chosen cs (row ∷ []) h =
        let n = best_rank (rank_all rank cs) in
        let s = keep-Split (λ r. r.rank == n) cs h in
        let at_n : row.rank ≡ n = ==→eq row.rank n s.passes in
        let low : All (IsAtLeast n) (s.before ++ s.c ∷ s.after) =
          subst (All (IsAtLeast n)) s.parts (rank_all-IsAtLeast n cs (omega arith)) in
        let (low_before, low_after) = All-parts (IsAtLeast n) s.before s.after s.c low in
        rw ((fits s.c row s.ranked).1) (
          first s.before s.after s.c row s.parts s.ranked
            (rw at_n (All-IsBehind n s.before low_before s.none_before))
            (rw at_n (All-IsBehind n s.after low_after s.others)))
    choice-Chosen cs (row ∷ row' ∷ rest) h =
        let n = best_rank (rank_all rank cs) in
        let s = keep-Split (λ r. r.rank == n) cs h in
        let t = keep-Split (λ r. r.rank == n) s.after s.others in
        let at_n : row.rank ≡ n = ==→eq row.rank n s.passes in
        tied s.before t.before t.after s.c t.c row row'
          (s.parts ∙ ap (λ xs. s.before ++ s.c ∷ xs) t.parts) s.ranked t.ranked
          (at_n ∙ sym (==→eq row'.rank n t.passes))
          (rw at_n (rank_all-IsAtLeast n cs (omega arith)))
