-- ===== src/Events/Matching/Order.antt =====
-- The query of the candidates has no order: what of the choice depends on one.
use mathlib.Core.Path.{fun_ext}
use mathlib.Core.List.Permᴰ.{nil, cons, swap, trans}
use mathlib.Core.List.{Permᴰ}
use mathlib.Core.List.Permᴰ
use news_collect.Base.{
  ℕ, min, ◌≡◌, refl, sym, ap, ◌∙◌, Option, none, some, List, [], ◌∷◌, Bool, ◌==◌, keep, arith,
  Bool-cases, inl, inr,
}
use news_collect.Base.Result.{◌>>=◌}
use news_collect.Events.Rows.{EvidenceProjection, CandidateProjection}
use news_collect.Events.Matching.Signatures.{Libraries, is_empty, evidence_signatures}
use news_collect.Events.Matching.{
  Ranked, add_rank, rank_all, best_rank, best, choice, only, decide, match_existing,
}

module _ {ℓ} {A : Type ℓ} where
  keep-Perm : (p : A → Bool) {xs ys : List A} → Permᴰ xs ys → Permᴰ (keep p xs) (keep p ys)
  keep-Perm p nil = nil
  keep-Perm p (cons {a = a} {l₂ = ys} e d) = elim (Bool-cases (p a)) [
    | inl t ↦ rw (sym e, t) (cons refl (keep-Perm p d))
    | inr t ↦ rw (sym e, t) (keep-Perm p d)
  ]
  keep-Perm p (swap {a = a} {b = b} e f) =
      rw (sym e, sym f)
        elim (Bool-cases (p a)) [
          | inl t ↦ rw t (elim (Bool-cases (p b)) [
            | inl u ↦ rw u (swap refl refl)
            | inr u ↦ rw u (Permᴰ.refl _)
          ])
          | inr t ↦ rw t (Permᴰ.refl _)
        ]
  keep-Perm p (trans d f) = trans (keep-Perm p d) (keep-Perm p f)

  is_empty-Perm : {xs ys : List A} → Permᴰ xs ys → is_empty xs ≡ is_empty ys
  is_empty-Perm nil = refl
  is_empty-Perm (cons e d) = refl
  is_empty-Perm (swap e f) = refl
  is_empty-Perm (trans d f) = is_empty-Perm d ∙ is_empty-Perm f

module _ (rank : CandidateProjection → Option Ranked) where
  add_rank-Perm :
      (o : Option Ranked) {xs ys : List Ranked}
      → Permᴰ xs ys
      → Permᴰ (add_rank o xs) (add_rank o ys)
  unfolding add_rank
  add_rank-Perm none d = d
  add_rank-Perm (some row) d = cons refl d

  add_rank-swap :
      (o u : Option Ranked) (xs : List Ranked)
      → Permᴰ (add_rank o (add_rank u xs)) (add_rank u (add_rank o xs))
  unfolding add_rank
  add_rank-swap none u xs = Permᴰ.refl _
  add_rank-swap (some row) none xs = Permᴰ.refl _
  add_rank-swap (some row) (some other) xs = swap refl refl

  rank_all-Perm :
      {xs ys : List CandidateProjection} → Permᴰ xs ys → Permᴰ (rank_all rank xs) (rank_all rank ys)
  unfolding rank_all
  rank_all-Perm nil = nil
  rank_all-Perm (cons {a = a} e d) = rw (sym e) (add_rank-Perm (rank a) (rank_all-Perm d))
  rank_all-Perm (swap {a = a} {b = b} e f) = rw (sym e, sym f) (add_rank-swap (rank a) (rank b) _)
  rank_all-Perm (trans d f) = trans (rank_all-Perm d) (rank_all-Perm f)

best_rank-Perm : {xs ys : List Ranked} → Permᴰ xs ys → best_rank xs ≡ best_rank ys
unfolding best_rank
best_rank-Perm nil = refl
best_rank-Perm (cons e d) = rw (e, best_rank-Perm d) refl
best_rank-Perm (swap {a = a} {b = b} {l = l} e f) =
    rw (sym e, sym f) (min_swap a.rank b.rank (best_rank l))
  where
    min_swap : (i j k : ℕ) → min i (min j k) ≡ min j (min i k)
    min_swap i j k = omega arith
best_rank-Perm (trans d f) = best_rank-Perm d ∙ best_rank-Perm f

best-Perm : {xs ys : List Ranked} → Permᴰ xs ys → Permᴰ (best xs) (best ys)
unfolding best
best-Perm {xs} {ys} d = rw (best_rank-Perm d) (keep-Perm (λ row. row.rank == best_rank ys) d)

choice-cons :
    {a b : Ranked} (xs ys : List Ranked)
    → a ≡ b
    → is_empty xs ≡ is_empty ys
    → choice (a ∷ xs) ≡ choice (b ∷ ys)
unfolding choice
choice-cons [] [] e h = ap only e
choice-cons [] (y ∷ ys) e h = cc
choice-cons (x ∷ xs) [] e h = cc
choice-cons (x ∷ xs) (y ∷ ys) e h = refl

choice-Perm : {xs ys : List Ranked} → Permᴰ xs ys → choice xs ≡ choice ys
unfolding choice
choice-Perm nil = refl
choice-Perm (cons e d) = choice-cons _ _ e (is_empty-Perm d)
choice-Perm (swap e f) = refl
choice-Perm (trans d f) = choice-Perm d ∙ choice-Perm f

-- The decision on a piece of evidence is the same in whatever order the query returns the
-- candidates, for any window.
pub match_existing-Perm :
    (lib : Libraries) (window : ℕ) (incoming : EvidenceProjection)
    {xs ys : List CandidateProjection}
    → Permᴰ xs ys
    → match_existing lib window incoming xs ≡ match_existing lib window incoming ys
unfolding match_existing
match_existing-Perm lib window incoming d =
    ap (λ f. evidence_signatures lib incoming >>= f)
      (fun_ext (λ signatures.
        ap (decide lib incoming signatures) (choice-Perm (best-Perm (rank_all-Perm _ d)))))
