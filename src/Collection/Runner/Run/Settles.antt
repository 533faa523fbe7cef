-- ===== src/Collection/Runner/Run/Settles.antt =====
-- How a call of `run` ends: by its checks, its lock and the run that it attempts.
use news_collect.Base.{
  ◌∙◌, ap, ℕ, ◌≡◌, ◌≤◌, ◌<◌, refl, sym, Option, none, some, Bool, true, false, arith, Bool-cases,
  Option-cases, inl, inr,
}
use news_collect.Base.Order.{codes}
use news_collect.Base.Rows.{find, find-append_new}
use news_collect.Db.Models.{Source, CollectionRun}
use news_collect.Collection.Errors.{ClassifiedCollectionError}
use news_collect.Collection.ControlPlane.{run_key}
use news_collect.Collection.ControlPlane.Start.{is_running}
use news_collect.Collection.Runner.{
  Target, Store, validate_target, source_allowed, source_key, new_run, create_run,
}
use news_collect.Collection.Locking.{TargetLock}
use news_collect.Collection.Runner.Checkpoint.{Live, items_of}
use news_collect.Collection.Runner.Run.{
  Raised, error, Ended, returned, reraised, Runner, Outside, begins, locked_run, unlocks, takes,
  valid_run, run, supports_access_method,
}
use news_collect.Collection.Runner.Run.Handlers.{Settled, attempt_run-Settled}

module _ (outside : Outside) (runner : Runner) (target : Target) where
  open outside use {World, database, sub, fresh}

  -- The id of the run: the one that was asked for, or that of the new row.
  abbrev pub own_id : Option ℕ → Store → ℕ
  own_id none store = fresh store
  own_id (some k) store = k

  -- The run that was asked for is RUNNING and counts its raw items; a new one has a new id.
  abbrev pub Ready : Option ℕ → Store → Type 0
  Ready none store =
      (find run_key (fresh store) store.runs ≡ none) × (items_of (fresh store) store ≡ 0)
  Ready (some k) store =
      (row : CollectionRun) × (find run_key k store.runs ≡ some row)
      × (row.fetched_count ≡ items_of k store)
      × (is_running row.status ≡ true)

  abbrev invalid : Store → Option ClassifiedCollectionError
  invalid store =
      validate_target sub (supports_access_method runner target.access_method) target store

  -- How a call of `run` ends.
  pub data SettledRun (run_id : Option ℕ) (attempt : ℕ) (before : Store)
      : Ended → Store → Type 0 where
    locked :
        SettledRun run_id attempt before
          (returned
            (record { collection_run_id = run_id; status = codes "locked"; retry_delay = none }))
          before
    refused :
        (failure : ClassifiedCollectionError)
        → invalid before ≡ some failure
        → SettledRun run_id attempt before (reraised (error failure)) before
    unreached :
        (e : Raised) (w : World)
        → (database w).0 ≡ some e
        → SettledRun run_id attempt before (reraised e) before
    attempted :
        {ended : Ended} {store : Store}
        → Settled outside runner target (own_id run_id before) attempt ended store
        → SettledRun run_id attempt before ended store

  abbrev SettlesRun : Option ℕ → ℕ → Store → Ended × Store × World → Type 0
  SettlesRun run_id attempt before (ended, store, w) = SettledRun run_id attempt before ended store

  source-valid :
      (store : Store)
      → invalid store ≡ none
      → (s : Source) × (find source_key target.source_id store.sources ≡ some s)
  unfolding validate_target source_allowed
  source-valid store h = elim (Option-cases (find source_key target.source_id store.sources)) [
    | inl e ↦ absurd (ground arith)
    | inr found ↦ found
  ]

  create_run-Live :
      (now : ℕ) (store : Store)
      → Ready none store
      → (s : Source) × (find source_key target.source_id store.sources ≡ some s)
      → Live (fresh store) target.source_id (create_run fresh target now store).1
  unfolding create_run
  create_run-Live now store (free, zero) source = (
    new_run (fresh store) target now,
    record {
      row = find-append_new run_key (new_run (fresh store) target now) store.runs free;
      counted = sym zero;
      source = source;
    },
    refl,
  )

  module _ (attempt m fuel : ℕ) (bound : runner.max_batches ≡ some m) (positive : 0 < m)
      (enough : m ≤ fuel) where
    locked_run-Settled :
        (run_id : Option ℕ) (store : Store) (w : World)
        → Ready run_id store
        → (s : Source) × (find source_key target.source_id store.sources ≡ some s)
        → SettlesRun run_id attempt store
            (locked_run outside runner target fuel attempt run_id store w)
    unfolding locked_run begins create_run
    locked_run-Settled (some k) store w (row, at, counted, live) source = attempted (
        attempt_run-Settled outside runner target k attempt m fuel bound store w positive enough
          (row, record { row = at; counted = counted; source = source }, live))
    locked_run-Settled none store w ready source = elim (Option-cases (database w).0) [
      | inl e ↦ rw e (
          attempted (
            attempt_run-Settled outside runner target (fresh store) attempt m fuel bound _ _
              positive enough (create_run-Live (outside.now (database w).1).0 store ready source)))
      | inr (r, e) ↦ rw e (unreached r w e)
    ]

    takes-Settled :
        (run_id : Option ℕ) (lock : TargetLock) (got : Bool × outside.redis.Store) (store : Store)
        (w : World)
        → Ready run_id store
        → (s : Source) × (find source_key target.source_id store.sources ≡ some s)
        → SettlesRun run_id attempt store
            (takes outside runner target fuel attempt run_id lock got store w)
    unfolding takes unlocks
    takes-Settled run_id lock (false, s) store w ready source = locked
    takes-Settled run_id lock (true, s) store w ready source =
        locked_run-Settled run_id store (outside.write s w) ready source

    valid_run-Settled :
        supports_access_method runner target.access_method ≡ true
        → (run_id : Option ℕ) (store : Store) (w : World) → Ready run_id store
        → SettlesRun run_id attempt store (
            valid_run outside runner target
              (database w).0
              (validate_target sub true target store)
              fuel
              attempt
              run_id
              store
              (database w).1)
    unfolding valid_run
    valid_run-Settled known run_id store w ready = elim (Option-cases (database w).0) [
      | inl e ↦ elim (Option-cases (validate_target sub true target store)) [
        | inl v ↦
            rw (e, v)
              (takes-Settled run_id _ _ store _ ready
                (source-valid store (ap (λ b. validate_target sub b target store) known ∙ v)))
        | inr (failure, v) ↦
            rw (e, v) (refused failure (ap (λ b. validate_target sub b target store) known ∙ v))
      ]
      | inr (r, e) ↦ rw e (unreached r w e)
    ]

    unsupported-Settled :
        supports_access_method runner target.access_method ≡ false
        → (run_id : Option ℕ) (store : Store) (w : World)
        → SettlesRun run_id attempt store (
            valid_run outside runner target none
              (validate_target sub false target store)
              fuel
              attempt
              run_id
              store
              w)
    unfolding valid_run validate_target
    unsupported-Settled other run_id store w =
        refused _ (ap (λ b. validate_target sub b target store) other)

    -- With a bound on the batches, which is positive, and fuel for it, a call of `run` ends, whatever
    -- the adapter, the clock, the lock and the database do. It returns `locked` or raises with the rows
    -- as they were; or its run is SUCCEEDED, waits RUNNING for a retry that the policy allows, is
    -- FAILED or PARTIAL by its count, or meets an error of the database in a handler, which is raised.
    -- In each case the run counts exactly its raw items. The run that is asked for is RUNNING and counts its
    -- items; if none is asked for, the new id is that of no run and of no item.
    pub run-settles :
        (run_id : Option ℕ) (store : Store) (w : World)
        → Ready run_id store
        → SettlesRun run_id attempt store (run outside runner target fuel attempt run_id store w)
    unfolding run
    run-settles run_id store w ready =
        elim (Bool-cases (supports_access_method runner target.access_method)) [
          | inl known ↦ rw known (valid_run-Settled known run_id store w ready)
          | inr other ↦ rw other (unsupported-Settled other run_id store w)
        ]
