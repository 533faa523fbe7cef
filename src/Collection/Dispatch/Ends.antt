-- ===== src/Collection/Dispatch/Ends.antt =====
-- The loop of a claim over the pages of due targets ends.
use news_collect.Base.{
  ℕ, zero, suc, ◌+◌, ◌-◌, ◌≡◌, ◌≤◌, refl, Option, none, List, [], Bool, true, false, ◌&&◌, ◌||◌,
  ltb, length, arith, Bool-cases, inl, inr, min,
}
use news_collect.Collection.ControlPlane.Pages.{TargetDispatch}
use news_collect.Collection.Targets.{DueTarget, due_page}
use news_collect.Collection.Dispatch.{
  Context, Scan, scanned, filled, raises, claim_page, Claimed, found, next_page, claim_pages, End,
  endless, scan_budget, claim_due,
}

module _ (context : Context) where
  open context use {redis}

  abbrev pub is_endless : End context → Bool
  is_endless endless = true
  is_endless _ = false

  next_page-ends :
      (last : Bool) (rest : Option DueTarget → List TargetDispatch → redis.Store → Claimed context)
      (scan : Scan redis.Store)
      → ((after : Option DueTarget) (claimed : List TargetDispatch) (s : redis.Store)
          → is_endless (rest after claimed s).end ≡ false)
      → is_endless (next_page context last rest scan).end ≡ false
  unfolding next_page found
  next_page-ends last rest (filled claimed s) h = refl
  next_page-ends last rest (raises e claimed s) h = refl
  next_page-ends true rest (scanned after claimed s) h = refl
  next_page-ends false rest (scanned after claimed s) h = h after claimed s

  -- With one turn for each row that is left of the budget, and one more, the loop comes to its end.
  claim_pages-ends :
      (fuel limit now budget n : ℕ) (after : Option DueTarget) (claimed : List TargetDispatch)
      (s : redis.Store)
      → budget ≤ n + fuel
      → is_endless (claim_pages context (suc fuel) limit now budget n after claimed s).end ≡ false
  unfolding claim_pages found
  claim_pages-ends zero limit now budget n after claimed s enough =
      let page =
        due_page context.window_mode now (min 100 (budget - n)) after context.rows.targets in
      let ended : (ltb (length claimed) limit && ltb n budget && ltb 0 (length page)) ≡ false =
        ground arith in
      rw ended refl
  claim_pages-ends (suc fuel) limit now budget n after claimed s enough =
      let page =
        due_page context.window_mode now (min 100 (budget - n)) after context.rows.targets in
      elim (Bool-cases (ltb (length claimed) limit && ltb n budget && ltb 0 (length page))) [
        | inl e ↦ rw e (
            next_page-ends (ltb (length page) (min 100 (budget - n)))
              (claim_pages context (suc fuel) limit now budget (n + length page))
              (claim_page context limit now page after claimed s)
              (λ after' claimed' s'.
                claim_pages-ends fuel limit now budget (n + length page) after' claimed' s'
                  (ground arith)))
        | inr e ↦ rw e refl
      ]

  -- A claim of due targets, at whatever time and limit and on whatever rows, ends with its value or an exception: the
  -- loop over the pages does not use up its fuel, which is one turn more than the rows that a claim may
  -- look at.
  pub claim_due-ends :
      (now limit : ℕ) (s : redis.Store) → is_endless (claim_due context now limit s).end ≡ false
  unfolding claim_due found
  claim_due-ends now limit s = elim (Bool-cases (ltb limit 1 || ltb 500 limit)) [
    | inl e ↦ rw e refl
    | inr e ↦ rw e (
        claim_pages-ends (scan_budget context limit) limit now (scan_budget context limit) 0 none []
          s (omega arith))
  ]
