-- ===== src/Collection/Runner/Run/Handlers.antt =====
-- How a legacy run that has its id ends: through its batches and each of its handlers.
use news_collect.Base.{
  ℕ, ◌+◌, ◌≡◌, ◌≤◌, ◌<◌, refl, Option, none, some, true, ltb, if◌then◌else◌, arith, Bool-cases,
  Option-cases, inl, inr, is_some,
}
use news_collect.Base.Order.{Text, codes}
use news_collect.Db.Models.{CollectionRun, succeeded, partial, failed}
use news_collect.Collection.Errors.{ClassifiedCollectionError}
use news_collect.Collection.Retry.{should_retry}
use news_collect.Collection.ControlPlane.Start.{is_running}
use news_collect.Collection.Runner.{Target, Store, retry_run, failure_run}
use news_collect.Collection.Runner.Checkpoint.{
  Counted, Live, record_retry-Counted, finish_failure-Counted,
}
use news_collect.Collection.Runner.Run.{
  Raised, error, database_error, cancellation, exception, Ended, returned, reraised, Runner,
  Outside, Loop, completed, failing, endless, fails_with, failed_outcome, retries, handles_error,
  handles, ends, resolve_error, resolved, attempt_run,
}
use news_collect.Collection.Runner.Run.Batches.{Ends, batches-Ends}

abbrev pub Finished : CollectionRun → Type 0
Finished row =
    (row.status ≡ (if ltb 0 row.fetched_count then partial else failed))
    × (is_some row.finished_at ≡ true)

module _ (outside : Outside) (runner : Runner) (target : Target) where
  open outside use {World, database, sub, fresh}

  abbrev pub outcome : ℕ → Text → Option ℕ → Ended
  outcome k status retry_delay =
      returned (record { collection_run_id = some k; status = status; retry_delay = retry_delay })

  -- How the run `k` ends, when it is attempted for the `attempt`-th time.
  pub data Settled (k attempt : ℕ) : Ended → Store → Type 0 where
    succeeds :
        {store : Store} (row : CollectionRun)
        → Counted k target.source_id store row
        → row.status ≡ succeeded
        → Settled k attempt (outcome k (codes "SUCCEEDED") none) store
    waits :
        {store : Store} (row : CollectionRun) (wait : ℕ)
        → Counted k target.source_id store row
        → is_running row.status ≡ true
        → row.retry_count ≡ attempt + 1
        → attempt < runner.retry_policy.max_retries
        → Settled k attempt (outcome k (codes "retry") (some wait)) store
    fails :
        {store : Store} (row : CollectionRun)
        → Counted k target.source_id store row
        → Finished row
        → Settled k attempt (outcome k (codes "failed") none) store
    cancels :
        {store : Store} (row : CollectionRun)
        → Counted k target.source_id store row
        → Finished row
        → Settled k attempt (reraised cancellation) store
    breaks :
        {store : Store} (row : CollectionRun) (e : Raised) (w : World)
        → Counted k target.source_id store row
        → (database w).0 ≡ some e
        → Settled k attempt (reraised e) store

  abbrev pub Settles : ℕ → ℕ → Ended × Store × World → Type 0
  Settles k attempt (ended, store, w) = Settled k attempt ended store

  module _ (k attempt : ℕ) where
    fails_with-Settled :
        (failure : ClassifiedCollectionError) (answer : Ended) (store : Store) (w : World)
        → Live k target.source_id store
        → ((s : Store) (row : CollectionRun)
            → Counted k target.source_id s row
            → Finished row
            → Settled k attempt answer s)
        → Settles k attempt
            (fails_with outside runner target k (database w).0 failure answer store (database w).1)
    unfolding fails_with failure_run
    fails_with-Settled failure answer store w (row, counted, live) build =
        elim (Option-cases (database w).0) [
          | inl e ↦ rw e (
              build _ _
                (finish_failure-Counted sub fresh target k failure (outside.now (database w).1).0
                  store row counted)
                (refl, refl))
          | inr (r, e) ↦ rw e (breaks row r w counted e)
        ]

    retries-Settled :
        (wait : ℕ) (failure : ClassifiedCollectionError) (store : Store) (w : World)
        → Live k target.source_id store
        → attempt < runner.retry_policy.max_retries
        → Settles k attempt (
            retries outside runner target k attempt wait
              (database w).0
              failure
              store
              (database w).1)
    unfolding retries retry_run
    retries-Settled wait failure store w (row, counted, live) less =
        elim (Option-cases (database w).0) [
          | inl e ↦ rw e (
              waits _ wait
                (record_retry-Counted sub fresh target k failure (attempt + 1) store row counted)
                live refl less)
          | inr (r, e) ↦ rw e (breaks row r w counted e)
        ]

    should_retry-less :
        (failure : ClassifiedCollectionError)
        → should_retry runner.retry_policy failure attempt ≡ true
        → attempt < runner.retry_policy.max_retries
    unfolding should_retry
    should_retry-less failure h = ground arith

    handles_error-Settled :
        (failure : ClassifiedCollectionError) (store : Store) (w : World)
        → Live k target.source_id store
        → Settles k attempt (handles_error outside runner target k attempt failure store w)
    unfolding handles_error failed_outcome
    handles_error-Settled failure store w live =
        elim (Bool-cases (should_retry runner.retry_policy failure attempt)) [
          | inl e ↦ rw e (retries-Settled _ failure store _ live (should_retry-less failure e))
          | inr e ↦ rw e (fails_with-Settled failure _ store w live (λ s row. fails row))
        ]

    handles-Settled :
        (e : Raised) (store : Store) (w : World)
        → Live k target.source_id store
        → Settles k attempt (handles outside runner target k attempt e store w)
    unfolding handles failed_outcome
    handles-Settled (error failure) store w live = handles_error-Settled failure store w live
    handles-Settled database_error store w live = handles_error-Settled _ store w live
    handles-Settled cancellation store w live =
        fails_with-Settled _ _ store w live (λ s row. cancels row)
    handles-Settled exception store w live =
        fails_with-Settled _ _ store w live (λ s row. fails row)

    module _ (m fuel : ℕ) (bound : runner.max_batches ≡ some m) where
      ends-Settled :
          (loop : Loop World) (store : Store) (w : World)
          → Ends outside runner target m k bound loop
          → Settles k attempt (ends outside runner target k attempt loop store w)
      unfolding ends
      ends-Settled (completed store' w') store w (row, counted, done) = succeeds row counted done
      ends-Settled (failing e store' w') store w live = handles-Settled e store' w' live
      ends-Settled endless store w h = absurd h

      pub attempt_run-Settled :
          (store : Store) (w : World)
          → 0 < m
          → m ≤ fuel
          → Live k target.source_id store
          → Settles k attempt (attempt_run outside runner target fuel k attempt store w)
      unfolding attempt_run resolved
      attempt_run-Settled store w positive enough live =
          elim (Option-cases (resolve_error sub runner target.access_method)) [
            | inl e ↦ rw e (
                ends-Settled _ store _ (
                  batches-Ends outside runner target m k bound fuel 0 _ store _ live positive
                    (omega arith)))
            | inr (r, e) ↦ rw e (handles-Settled r store w live)
          ]
