-- ===== src/Collection/Dispatch/Once.antt =====
-- A claim of due targets: within its limit, each by a marker of its own that was free.
use news_collect.Base.{
  ℕ, zero, suc, ◌+◌, ◌-◌, ◌≡◌, ◌≢◌, ◌≤◌, ◌<◌, refl, sym, ap, ◌∙◌, Option, none, some, List, [],
  Bool, true, false, ◌&&◌, ◌||◌, ltb, length, All, arith, Bool-cases, inl, inr, min,
}
use news_collect.Base.Order.{Text, text_eq_refl}
use news_collect.Base.Keys.{All-map}
use news_collect.Collection.ControlPlane.Pages.{TargetDispatch}
use news_collect.Collection.Targets.{DueTarget, due_page}
use news_collect.Collection.Dispatch.{
  Context, Scan, scanned, filled, raises, marker_key, claim_page, Claimed, found, next_page,
  claim_pages, scan_budget, claim_due, release,
}
use news_collect.Collection.Locking.{owns}
use news_collect.Collection.Dispatch.Marks.{Apart, Marked, Fresh, FreshScan, claim_page-Fresh}

module _ (context : Context) where
  open context use {redis}

  module _ (s0 : redis.Store) where
    module _ (limit now : ℕ) where
      abbrev FreshClaim : Claimed context → Type 0
      FreshClaim result =
          Fresh context s0 result.dispatches result.store × (length result.dispatches ≤ limit)

      next_page-Fresh :
          (last : Bool)
          (rest : Option DueTarget → List TargetDispatch → redis.Store → Claimed context)
          (scan : Scan redis.Store)
          → ((after : Option DueTarget) (claimed : List TargetDispatch) (s : redis.Store)
              → Fresh context s0 claimed s
              → length claimed < limit
              → FreshClaim (rest after claimed s))
          → FreshScan context s0 limit now scan
          → FreshClaim (next_page context last rest scan)
      unfolding next_page found
      next_page-Fresh last rest (filled claimed s) f h = h
      next_page-Fresh last rest (raises e claimed s) f h = h
      next_page-Fresh true rest (scanned after claimed s) f h = (h.0, omega (arith, h.1))
      next_page-Fresh false rest (scanned after claimed s) f h = f after claimed s h.0 h.1

      claim_pages-Fresh :
          (fuel budget n : ℕ) (after : Option DueTarget) (claimed : List TargetDispatch)
          (s : redis.Store)
          → Fresh context s0 claimed s
          → length claimed ≤ limit
          → FreshClaim (claim_pages context fuel limit now budget n after claimed s)
      unfolding claim_pages found
      claim_pages-Fresh zero budget n after claimed s fresh less = (fresh, less)
      claim_pages-Fresh (suc fuel) budget n after claimed s fresh less =
          let page =
            due_page context.window_mode now (min 100 (budget - n)) after context.rows.targets in
          elim (Bool-cases (ltb (length claimed) limit && ltb n budget && ltb 0 (length page))) [
            | inl e ↦ rw e (
                next_page-Fresh (ltb (length page) (min 100 (budget - n)))
                  (claim_pages context fuel limit now budget (n + length page))
                  (claim_page context limit now page after claimed s)
                  (λ after' claimed' s' f l.
                    claim_pages-Fresh fuel budget (n + length page) after' claimed' s' f
                      (omega arith))
                  (claim_page-Fresh context s0 limit now page after claimed s fresh (ground arith)))
            | inr e ↦ rw e (fresh, less)
          ]

  claim_due-Fresh :
      (now limit : ℕ) (s : redis.Store) → FreshClaim s limit now (claim_due context now limit s)
  unfolding claim_due found
  claim_due-Fresh now limit s =
      let start : Fresh context s [] s = record { marks = tt; apart = tt; kept = λ j v h. h } in
      elim (Bool-cases (ltb limit 1 || ltb 500 limit)) [
        | inl e ↦ rw e (start, omega arith)
        | inr e ↦ rw e (
            claim_pages-Fresh s limit now (suc (scan_budget context limit))
              (scan_budget context limit) 0 none [] s start (omega arith))
      ]

  -- A claim takes at most `limit` dispatches. Their markers in Redis are pairwise different, were all
  -- free before, and hold the identities of their dispatches after, also when the claim raises.
  pub claim_due-marks :
      (now limit : ℕ) (s : redis.Store)
      → (length (claim_due context now limit s).dispatches ≤ limit)
        × Apart context (claim_due context now limit s).dispatches
        × All
            (Marked context s (claim_due context now limit s).store)
            (claim_due context now limit s).dispatches
  claim_due-marks now limit s =
      let (fresh, less) = claim_due-Fresh now limit s in (less, fresh.apart, fresh.marks)

  -- No value that the first store has is missing in the second: nothing expired and nothing was
  -- released in between, whatever was added.
  abbrev pub Unexpired : redis.Store → redis.Store → Type 0
  Unexpired s t = (j v : Text) → redis.get j s ≡ some v → redis.get j t ≡ some v

  -- A claim that follows another takes no dispatch whose marker the first has set, at whatever time and
  -- limit, and whatever else was written to Redis between the two, as long as no key that the first claim
  -- left there has expired or was released.
  pub claim_due-once :
      (now limit later limit' : ℕ) (s between : redis.Store)
      → Unexpired (claim_due context now limit s).store between
      → All
          (λ d.
            All
              (λ e. marker_key context d ≢ marker_key context e)
              (claim_due context later limit' between).dispatches)
          (claim_due context now limit s).dispatches
  claim_due-once now limit later limit' s between lasts =
      let first_claim = claim_due context now limit s in
      let (fresh, less) = claim_due-Fresh now limit s in
      let (next, less') = claim_due-Fresh later limit' between in
      All-map (Marked context s first_claim.store) _
        (λ d h.
          All-map (Marked context between (claim_due context later limit' between).store) _
            (λ e k same. ground (
              arith,
              sym (ap (λ j. redis.get j between) same)
                  ∙ lasts (marker_key context d) d.dispatch_id h.1,
              k.0,
            ))
            _ next.marks)
        first_claim.dispatches fresh.marks

  release-own :
      (d : TargetDispatch) (s : redis.Store)
      → redis.get (marker_key context d) s ≡ some d.dispatch_id
      → release context d s ≡ redis.del (marker_key context d) s
  unfolding release owns
  release-own d s h = rw (h, text_eq_refl d.dispatch_id) refl

  -- The release of a dispatch that a claim took frees its marker and changes no other key.
  pub claim_due-release :
      (now limit : ℕ) (s : redis.Store)
      → All
          (λ d.
            (redis.get
                (marker_key context d)
                (release context d (claim_due context now limit s).store)
              ≡ none)
            × ((j : Text)
                → marker_key context d ≢ j
                → redis.get j (release context d (claim_due context now limit s).store)
                  ≡ redis.get j (claim_due context now limit s).store))
          (claim_due context now limit s).dispatches
  claim_due-release now limit s =
      let after = (claim_due context now limit s).store in
      All-map (Marked context s after) _
        (λ d h. (
          ap (redis.get (marker_key context d)) (release-own d after h.1)
              ∙ redis.del_self (marker_key context d) after,
          λ j ne.
              ap (redis.get j) (release-own d after h.1)
              ∙ redis.del_other (marker_key context d) j after ne,
        ))
        _ (claim_due-Fresh now limit s).0.marks
