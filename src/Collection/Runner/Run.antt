-- ===== src/Collection/Runner/Run.antt =====
-- collection/runner.py, `CollectionRunner.run`: the loop over the batches of a target, its handlers of
-- errors and its lock. The adapter, Redis, the clock, the random source and the failures of the
-- database are parameters over a state `World` of the outside. The rows change by this run alone.
pub mod Batches
pub mod Handlers
pub mod Settles
use news_collect.Base.{
  ℕ, zero, suc, ◌+◌, ◌-◌, min, Option, none, some, ◌++◌, Bool, true, false, not, ◌&&◌, leb,
  if◌then◌else◌, seconds, is_some,
}
use news_collect.Base.Order.{Text, codes, text_eq}
use news_collect.Collection.Errors.{
  ClassifiedCollectionError, classified, timeout, lock_lost, database_unavailable, cancelled,
  config_invalid, unknown,
}
use news_collect.Collection.Retry.{RetryPolicy, should_retry, delay}
use news_collect.Collection.Locking.{Redis, TargetLock, target_lock_key, acquire, release}
use news_collect.Collection.Runner.{
  Target, CursorSnapshot, FetchBatch, Store, Checked, done, raises, validate_target,
  checkpoint_error, write_checkpoint, load_cursor, create_run, finish_success, record_retry,
  finish_failure,
}

pub record FetchRequest : Type 0 where
  pub target : Target
  pub cursor : CursorSnapshot
  pub batch_limit : ℕ
  pub deadline_at : ℕ

-- What is raised inside of a run: a classified error, an error of the database, a cancellation, and
-- any other exception.
pub data Raised : Type 0 where
  error : ClassifiedCollectionError → Raised
  database_error : Raised
  cancellation : Raised
  exception : Raised

-- What the adapter's `fetch` does under its time limit.
pub data Fetched : Type 0 where
  fetched : FetchBatch → Fetched
  timed_out : Fetched
  broke : Raised → Fetched

pub record RunOutcome : Type 0 where
  pub collection_run_id : Option ℕ
  pub status : Text
  pub retry_delay : Option ℕ

-- A run returns or raises; a run without a bound on its batches may go on past the fuel.
pub data Ended : Type 0 where
  returned : RunOutcome → Ended
  reraised : Raised → Ended
  unfinished : Ended

-- The settings that the runner reads, with its policy, and the registered adapter.
pub record Runner : Type 0 where
  pub lock_ttl_seconds : ℕ
  pub task_deadline_seconds : ℕ
  pub adapter_timeout_seconds : ℕ
  pub batch_limit : ℕ
  pub retry_policy : RetryPolicy
  pub max_batches : Option ℕ
  pub fake_supported : Bool
  -- Whether there are a registry and a transport of providers, and what that registry supports.
  pub provider_configured : Bool
  pub provider_supported : Text → Bool
  pub cursor_type : Option Text
  pub is_cursor_successor : Option Text → Text → Bool

unfoldable pub supports_access_method : Runner → Text → Bool
supports_access_method runner access_method =
    if text_eq access_method (codes "fake")
    then runner.fake_supported
    else runner.provider_configured && runner.provider_supported access_method

-- `_resolve_adapter`: what it raises, if it raises. The lookup of a provider that is not registered
-- raises an error of its own.
unfoldable pub resolve_error : (Text → Text) → Runner → Text → Option Raised
resolve_error sub runner access_method =
    if text_eq access_method (codes "fake")
    then (if runner.fake_supported
        then none
        else some (
            error (
              classified sub config_invalid (codes "unregistered access method: " ++ access_method)
                none)))
    else if not runner.provider_configured
    then some (
        error (
          classified sub config_invalid (codes "provider adapter integration is not configured")
            none))
    else if runner.provider_supported access_method
    then none
    else some exception

-- The end of one batch, and of the loop.
pub data Turn {ℓ} (World : Type ℓ) : Type ℓ where
  more : Store → World → Turn World
  last : Store → World → Turn World
  fails : Raised → Store → World → Turn World

pub data Loop {ℓ} (World : Type ℓ) : Type ℓ where
  completed : Store → World → Loop World
  failing : Raised → Store → World → Loop World
  endless : Loop World

-- What the runner is given from outside.
pub record Outside : Type 1 where
  pub World : Type 0
  pub redis : Redis
  pub read : World → redis.Store
  pub write : redis.Store → World → World
  -- `uuid4().hex`, `datetime.now(UTC)`, and the draw of the random source.
  pub token : World → Text × World
  pub now : World → ℕ × World
  pub uniform : World → (ℕ → ℕ → ℕ) × World
  -- The exception that a transaction meets, at the database or at a cancellation.
  pub database : World → Option Raised × World
  pub fetch : FetchRequest → ℕ → World → Fetched × World
  -- `lost.is_set()`, which the renewal of the lock sets.
  pub is_lost : World → Bool
  -- The substitution of the redaction, the text of an id, and the id of a new row.
  pub sub : Text → Text
  pub id_text : ℕ → Text
  pub fresh : Store → ℕ

module _ (outside : Outside) (runner : Runner) (target : Target) where
  open outside use {
    World, redis, read, write, token, now, uniform, database, fetch, is_lost, sub, id_text, fresh,
  }

  raised : Raised → Store → World → Ended × Store × World
  raised e store w = (reraised e, store, w)

  reached : Option ℕ → ℕ → Bool
  reached none n = false
  reached (some m) n = leb m n

  committed : Option Raised → Bool → Checked Store → Store → World → Turn World
  committed (some e) again answer store w = fails e store w
  committed none again (raises e) store w = fails (error e) store w
  committed none true (done store') store w = more store' w
  committed none false (done store') store w = last store' w

  persist :
      Option ClassifiedCollectionError
      → Bool
      → ℕ
      → CursorSnapshot
      → FetchBatch
      → Store
      → World
      → Turn World
  unfolding committed
  persist (some e) again k snapshot batch store w = fails (error e) store w
  persist none again k snapshot batch store w =
      let (e, w') = database w in
      committed e again (write_checkpoint sub fresh target k snapshot batch store) store w'

  -- `n` batches are completed before this one.
  received : ℕ → ℕ → CursorSnapshot → Fetched → Store → World → Turn World
  unfolding persist reached
  received n k snapshot timed_out store w =
      fails (error (classified sub timeout (codes "adapter deadline exceeded") none)) store w
  received n k snapshot (broke e) store w = fails e store w
  received n k snapshot (fetched batch) store w =
      if is_lost w
      then fails (error (classified sub lock_lost (codes "target lock ownership lost") none)) store
          w
      else persist (checkpoint_error sub runner.is_cursor_successor snapshot batch)
          (batch.has_more && not (reached runner.max_batches (n + 1))) k snapshot batch store w

  asks : Option Raised → ℕ → ℕ → ℕ → Store → World → Turn World
  unfolding received
  asks (some e) n k deadline store w = fails e store w
  asks none n k deadline store w =
      let snapshot = load_cursor target runner.cursor_type store in
      let (t, w') = now w in
      let (answer, w'') =
        fetch
          (record {
            target = target;
            cursor = snapshot;
            batch_limit = runner.batch_limit;
            deadline_at = deadline;
          })
          (min (seconds runner.adapter_timeout_seconds) (deadline - t)) w' in
      received n k snapshot answer store w''

  -- One pass of `while True`. `_load_cursor` opens a session for an account and a cursor type only.
  unfoldable pub one_batch : ℕ → ℕ → ℕ → Store → World → Turn World
  unfolding asks
  one_batch n k deadline store w =
      if is_some target.source_account_id && is_some runner.cursor_type
      then (let (e, w') = database w in asks e n k deadline store w')
      else asks none n k deadline store w

  succeeds : Option Raised → ℕ → Store → World → Loop World
  succeeds (some e) k store w = failing e store w
  succeeds none k store w = let (t, w') = now w in completed (finish_success target k t store) w'

  after_turn : (Store → World → Loop World) → ℕ → Turn World → Loop World
  unfolding succeeds
  after_turn again k (more store w) = again store w
  after_turn again k (last store w) = let (e, w') = database w in succeeds e k store w'
  after_turn again k (fails e store w) = failing e store w

  unfoldable pub batches : ℕ → ℕ → ℕ → ℕ → Store → World → Loop World
  unfolding after_turn
  batches zero n k deadline store w = endless
  batches (suc fuel) n k deadline store w =
      after_turn (batches fuel (n + 1) k deadline) k (one_batch n k deadline store w)

  -- The handlers, for a run that has an id.
  fails_with :
      ℕ → Option Raised → ClassifiedCollectionError → Ended → Store → World → Ended × Store × World
  unfolding raised
  fails_with k (some e) failure answer store w = raised e store w
  fails_with k none failure answer store w =
      let (t, w') = now w in (answer, finish_failure target k failure t store, w')

  retries :
      ℕ → ℕ → ℕ → Option Raised → ClassifiedCollectionError → Store → World → Ended × Store × World
  unfolding raised
  retries k attempt wait (some e) failure store w = raised e store w
  retries k attempt wait none failure store w = (
    returned
        (record { collection_run_id = some k; status = codes "retry"; retry_delay = some wait }),
    record_retry k failure (attempt + 1) store,
    w,
  )

  failed_outcome : ℕ → Ended
  failed_outcome k =
      returned (record { collection_run_id = some k; status = codes "failed"; retry_delay = none })

  handles_error : ℕ → ℕ → ClassifiedCollectionError → Store → World → Ended × Store × World
  unfolding fails_with retries failed_outcome
  handles_error k attempt failure store w =
      if should_retry runner.retry_policy failure attempt
      then (let (draw, w') = uniform w in
          let (e, w'') = database w' in
          retries k attempt (delay runner.retry_policy failure attempt draw) e failure store w'')
      else (let (e, w') = database w in fails_with k e failure (failed_outcome k) store w')

  handles : ℕ → ℕ → Raised → Store → World → Ended × Store × World
  unfolding handles_error
  handles k attempt (error failure) store w = handles_error k attempt failure store w
  handles k attempt database_error store w =
      handles_error k attempt
        (classified sub database_unavailable (codes "database operation failed") none) store w
  handles k attempt cancellation store w =
      let (e, w') = database w in
      fails_with k e (classified sub cancelled (codes "collection task cancelled") none)
        (reraised cancellation) store w'
  handles k attempt exception store w =
      let (e, w') = database w in
      fails_with k e (classified sub unknown (codes "unclassified collection failure") none)
        (failed_outcome k) store w'

  ends : ℕ → ℕ → Loop World → Store → World → Ended × Store × World
  unfolding handles
  ends k attempt (completed store' w') store w = (
    returned
        (record { collection_run_id = some k; status = codes "SUCCEEDED"; retry_delay = none }),
    store',
    w',
  )
  ends k attempt (failing e store' w') store w = handles k attempt e store' w'
  ends k attempt endless store w = (unfinished, store, w)

  resolved : Option Raised → ℕ → ℕ → ℕ → Store → World → Ended × Store × World
  unfolding ends handles
  resolved (some e) fuel k attempt store w = handles k attempt e store w
  resolved none fuel k attempt store w =
      let (t, w') = now w in
      ends k attempt (batches fuel 0 k (t + seconds runner.task_deadline_seconds) store w') store w'

  -- After the run has its id.
  unfoldable pub attempt_run : ℕ → ℕ → ℕ → Store → World → Ended × Store × World
  unfolding resolved resolve_error
  attempt_run fuel k attempt store w =
      resolved (resolve_error sub runner target.access_method) fuel k attempt store w

  begins : ℕ → ℕ → Option Raised → Store → World → Ended × Store × World
  unfolding raised
  begins fuel attempt (some e) store w = raised e store w
  begins fuel attempt none store w =
      let (t, w') = now w in
      let (k, store') = create_run fresh target t store in attempt_run fuel k attempt store' w'

  unfoldable pub locked_run : ℕ → ℕ → Option ℕ → Store → World → Ended × Store × World
  unfolding begins
  locked_run fuel attempt (some k) store w = attempt_run fuel k attempt store w
  locked_run fuel attempt none store w = let (e, w') = database w in begins fuel attempt e store w'

  unfoldable pub own_lock : Text → TargetLock
  own_lock owner_token = record {
    key =
        target_lock_key id_text
          (record { source_id = target.source_id; source_account_id = target.source_account_id });
    owner_token = owner_token;
    ttl_seconds = runner.lock_ttl_seconds;
  }

  -- `finally`
  unlocks : TargetLock → Ended × Store × World → Ended × Store × World
  unlocks lock (ended, store, w) = (ended, store, write (release redis lock (read w)).1 w)

  takes : ℕ → ℕ → Option ℕ → TargetLock → Bool × redis.Store → Store → World → Ended × Store × World
  unfolding unlocks
  takes fuel attempt run_id lock (false, s) store w = (
    returned (record { collection_run_id = run_id; status = codes "locked"; retry_delay = none }),
    store,
    write s w,
  )
  takes fuel attempt run_id lock (true, s) store w =
      unlocks lock (locked_run fuel attempt run_id store (write s w))

  valid_run :
      Option Raised
      → Option ClassifiedCollectionError
      → ℕ
      → ℕ
      → Option ℕ
      → Store
      → World
      → Ended × Store × World
  unfolding raised takes own_lock
  valid_run (some e) invalid fuel attempt run_id store w = raised e store w
  valid_run none (some failure) fuel attempt run_id store w = raised (error failure) store w
  valid_run none none fuel attempt run_id store w =
      let (owner_token, w') = token w in
      let lock = own_lock owner_token in
      takes fuel attempt run_id lock (acquire redis lock (read w')) store w'

  -- `run`: `fuel` bounds the batches. The first check of `_validate_target` opens no session.
  unfoldable pub run : ℕ → ℕ → Option ℕ → Store → World → Ended × Store × World
  unfolding valid_run
  run fuel attempt run_id store w =
      let invalid =
        validate_target sub (supports_access_method runner target.access_method) target store in
      if supports_access_method runner target.access_method
      then (let (e, w') = database w in valid_run e invalid fuel attempt run_id store w')
      else valid_run none invalid fuel attempt run_id store w
