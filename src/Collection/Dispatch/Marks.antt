-- ===== src/Collection/Dispatch/Marks.antt =====
-- The markers of a page of due targets: each dispatch that is claimed has one of its own that was free.
use news_collect.Base.{
  ℕ, ◌*◌, ◌≡◌, ◌≢◌, ◌≤◌, ◌<◌, sym, ap, ◌∙◌, Option, none, some, List, [], ◌∷◌, ◌++◌, Bool, true,
  false, ◌&&◌, leb, ◌==◌, length, All, All-append, length-append, arith, Bool-cases, Option-cases,
  inl, inr,
}
use news_collect.Base.Order.{Text}
use news_collect.Base.Rows.{find}
use news_collect.Base.Keys.{All-map}
use news_collect.Collection.ControlPlane.{target_key}
use news_collect.Collection.ControlPlane.Pages.{TargetDispatch}
use news_collect.Collection.Targets.{
  Loading, got, repository_error, config_error, LoadedTarget, DueTarget,
}
use news_collect.Collection.Dispatch.{
  Context, Scan, scanned, filled, raises, marker_key, mark, marked, is_fixed, claim_loaded,
  revision_of, load_revision, claim_one, then_scan, claim_page,
}

module _ (context : Context) where
  open context use {redis}

  abbrev get : Text → redis.Store → Option Text
  get = redis.get

  abbrev key : TargetDispatch → Text
  key = marker_key context

  -- The markers of the dispatches are pairwise different.
  abbrev pub Apart : List TargetDispatch → Type 0
  Apart [] = Unit
  Apart (d ∷ ds) = All (λ e. marker_key context d ≢ marker_key context e) ds × Apart ds

  Apart-append :
      (ds : List TargetDispatch) (d : TargetDispatch)
      → Apart ds
      → All (λ e. key e ≢ key d) ds
      → Apart (ds ++ d ∷ [])
  Apart-append [] d a h = (tt, tt)
  Apart-append (e ∷ ds) d a h = (All-append _ ds d a.0 h.0, Apart-append ds d a.1 h.1)

  module _ (s0 : redis.Store) where
    -- The marker was free, and now has the identity of the dispatch.
    abbrev pub Marked : redis.Store → TargetDispatch → Type 0
    Marked s d =
        (redis.get (marker_key context d) s0 ≡ none)
        × (redis.get (marker_key context d) s ≡ some d.dispatch_id)

    pub record Fresh (claimed : List TargetDispatch) (s : redis.Store) : Type 0 where
      pub marks : All (Marked s) claimed
      pub apart : Apart claimed
      pub kept : (j v : Text) → redis.get j s0 ≡ some v → redis.get j s ≡ some v

    free-before :
        (j : Text) (s : redis.Store)
        → ((v : Text) → get j s0 ≡ some v → get j s ≡ some v)
        → get j s ≡ none
        → get j s0 ≡ none
    free-before j s kept h = elim (Option-cases (get j s0)) [
      | inl e ↦ e
      | inr (v, e) ↦ absurd (ground (arith, kept v e))
    ]

    module _ (d : TargetDispatch) (ttl : ℕ) (s : redis.Store) (free : get (key d) s ≡ none) where
      abbrev with_mark : redis.Store
      with_mark = (redis.set_nx (key d) d.dispatch_id (ttl * 1000) s).1

      kept-with_mark : (j v : Text) → get j s ≡ some v → get j with_mark ≡ some v
      kept-with_mark j v h =
          redis.set_other (key d) j d.dispatch_id (ttl * 1000) s
            (λ e. ground (arith, sym (ap (λ k. get k s) e) ∙ free))
          ∙ h

      Fresh-mark :
          (claimed : List TargetDispatch) → Fresh claimed s → Fresh (claimed ++ d ∷ []) with_mark
      Fresh-mark claimed fresh = record {
        marks =
            All-append (Marked with_mark) claimed d
              (All-map (Marked s) (Marked with_mark)
                (λ e h. (h.0, kept-with_mark (key e) e.dispatch_id h.1)) claimed fresh.marks)
              (
                free-before (key d) s (λ v. fresh.kept (key d) v) free,
                (redis.set_free (key d) d.dispatch_id (ttl * 1000) s free).1,
              );
        apart = Apart-append claimed d fresh.apart (
            All-map (Marked s) (λ e. key e ≢ key d)
              (λ e h same. ground (arith, sym (ap (λ k. get k s) same) ∙ h.1)) claimed fresh.marks);
        kept = λ j v h. kept-with_mark j v (fresh.kept j v h);
      }

    module _ (limit now : ℕ) where
      -- What is claimed so far is within the limit.
      abbrev pub FreshScan : Scan redis.Store → Type 0
      FreshScan (scanned after claimed s) = Fresh claimed s × (length claimed < limit)
      FreshScan (filled claimed s) = Fresh claimed s × (length claimed ≤ limit)
      FreshScan (raises e claimed s) = Fresh claimed s × (length claimed ≤ limit)

      taken-Fresh :
          (due : DueTarget) (d : TargetDispatch) (claimed : List TargetDispatch)
          (set : Bool × redis.Store)
          → set.0 ≡ true
          → Fresh (claimed ++ d ∷ []) set.1
          → length claimed < limit
          → FreshScan (marked context limit due d set claimed)
      unfolding marked
      taken-Fresh due d claimed (false, s) h fresh less = cc
      taken-Fresh due d claimed (true, s) h fresh less =
          elim (Bool-cases (leb limit (length (claimed ++ d ∷ [])))) [
            | inl full ↦ rw full (fresh, omega (arith, length-append claimed d))
            | inr room ↦ rw room (fresh, ground arith)
          ]

      marked-Fresh :
          (due : DueTarget) (d : TargetDispatch) (ttl : ℕ) (claimed : List TargetDispatch)
          (s : redis.Store)
          → Fresh claimed s
          → length claimed < limit
          → FreshScan (marked context limit due d (mark context d ttl s) claimed)
      unfolding marked mark
      marked-Fresh due d ttl claimed s fresh less = elim (Option-cases (get (key d) s)) [
        | inl e ↦
            taken-Fresh due d claimed (redis.set_nx (key d) d.dispatch_id (ttl * 1000) s)
              (redis.set_free (key d) d.dispatch_id (ttl * 1000) s e).0
              (Fresh-mark d ttl s e claimed fresh) less
        | inr (w, e) ↦ rw (redis.set_taken (key d) d.dispatch_id w (ttl * 1000) s e) (fresh, less)
      ]

      claim_loaded-Fresh :
          (due : DueTarget) (load : Loading LoadedTarget) (claimed : List TargetDispatch)
          (s : redis.Store)
          → Fresh claimed s
          → length claimed < limit
          → FreshScan (claim_loaded context limit now due load claimed s)
      unfolding claim_loaded
      claim_loaded-Fresh due (repository_error e) claimed s fresh less = (fresh, less)
      claim_loaded-Fresh due (config_error e) claimed s fresh less = (fresh, omega arith)
      claim_loaded-Fresh due (got loaded) claimed s fresh less =
          elim (Bool-cases (
            loaded.target.provider_contract_version == 2
            && is_fixed context (context.window_mode loaded.config))) [
              | inl e ↦ rw e (fresh, less)
              | inr e ↦ rw e (marked-Fresh due _ _ claimed s fresh less)
            ]

      then_scan-Fresh :
          (rest : Option DueTarget → List TargetDispatch → redis.Store → Scan redis.Store)
          (scan : Scan redis.Store)
          → ((after : Option DueTarget) (claimed : List TargetDispatch) (s : redis.Store)
              → Fresh claimed s
              → length claimed < limit
              → FreshScan (rest after claimed s))
          → FreshScan scan
          → FreshScan (then_scan context rest scan)
      unfolding then_scan
      then_scan-Fresh rest (scanned after claimed s) f h = f after claimed s h.0 h.1
      then_scan-Fresh rest (filled claimed s) f h = h
      then_scan-Fresh rest (raises e claimed s) f h = h

      pub claim_page-Fresh :
          (page : List DueTarget) (after : Option DueTarget) (claimed : List TargetDispatch)
          (s : redis.Store)
          → Fresh claimed s
          → length claimed < limit
          → FreshScan (claim_page context limit now page after claimed s)
      unfolding claim_page claim_one
      claim_page-Fresh [] after claimed s fresh less = (fresh, less)
      claim_page-Fresh (due ∷ page) after claimed s fresh less =
          then_scan-Fresh (claim_page context limit now page) _ (claim_page-Fresh page) (
            claim_loaded-Fresh due
              (load_revision context due.target_id
                (revision_of context (find target_key due.target_id context.rows.targets)))
              claimed s fresh less)
