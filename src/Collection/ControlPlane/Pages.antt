-- ===== src/Collection/ControlPlane/Pages.antt =====
-- collection/control_plane.py, `_execute_pages`: the bounded loop over the pages of one run. The adapter,
-- Redis, the clock, the repository's check of the target and the continuation's reader are injected:
-- parameters over a state `W` of the outside world. The tables change only by this run's transactions.
pub mod Budget
pub mod Bounded
use news_collect.Base.{
  ℕ, zero, suc, ◌+◌, ◌-◌, ◌/◌, min, max, Option, none, some, List, [], ◌∷◌, Bool, true, false, not,
  ◌&&◌, ◌||◌, leb, ◌==◌, if◌then◌else◌, seconds, is_some,
}
use news_collect.Base.Int.{ℤ}
use news_collect.Base.Order.{Text, codes, text_eq}
use news_collect.Base.Rows.{find}
use news_collect.Base.Result.{Result, ok, err}
use news_collect.Db.Models.{
  CollectionTarget, CollectionRun, CollectionCursor, CollectionRunMode, partial, degraded,
}
use news_collect.Collection.Cursors.{Stamp}
use news_collect.Collection.ControlPlane.{
  Tables, target_key, run_key, put_target, put_run, finish_error, finish_lock_lost, lock_lost,
}
use news_collect.Collection.ControlPlane.Persist.{
  FetchResult, persist_result, first, same_mode, same_target, or_none, moved, incomplete,
  partial_result,
}

pub record TargetDispatch : Type 0 where
  pub target_id : ℕ
  pub config_revision : ℕ
  pub scheduled_slot : ℕ
  pub run_mode : Text
  pub dispatch_id : Text

pub record LoadedTarget : Type 0 where
  pub target : CollectionTarget
  pub access_method : Text

pub record TargetRunOutcome : Type 0 where
  pub status : Text
  pub safe_error : Option Text

pub record ProviderFetchRequest : Type 0 where
  pub cursor : Option Text
  pub continuation : Option Text
  pub deadline_at : ℕ

pub record SafeError : Type 0 where
  pub rate_limited : Bool
  pub safe_message : Text
  pub retryable : Bool
  pub retry_after_seconds : Option ℤ

pub record ProviderAnswer : Type 0 where
  pub result : FetchResult
  pub safe_errors : List SafeError
  pub contract_version : ℕ
  pub provider : Text

-- What `_fetch_with_lock` does.
pub data Fetched : Type 0 where
  answered : ProviderAnswer → Fetched
  lost : Fetched
  timed_out : Fetched

-- A page ends the run, or hands the next page its cursor and its request.
pub data Turn : Type 0 where
  stops : Result TargetRunOutcome → Turn
  goes : Option CollectionCursor → ProviderFetchRequest → Turn

outcome : Text → Option Text → Turn
outcome status error = stops (ok (record { status = status; safe_error = error }))

abbrev deadline_exceeded : Text
deadline_exceeded = codes "provider_runtime_deadline_exceeded"

-- The run and the target when the budget is spent.
spent_rows : CollectionRun → CollectionTarget → ℕ → Tables → Tables
spent_rows run target now tables =
    put_target
      (record target {
        next_retry_at = none;
        next_due_at = now + seconds target.cadence_seconds;
        health_status = degraded;
        last_error_code = some incomplete;
      })
      (put_run
        (record run { status = partial; finished_at = some now; error_code = some incomplete })
        tables)

-- What the first transaction of a page does: the deadline of the run, if a request is left for it.
pub data Reserve : Type 0 where
  reserved : ℕ → Tables → Reserve
  spent : Tables → Reserve
  missing : Reserve

unfoldable pub is_spent : CollectionTarget → CollectionRun → Bool
is_spent budget run =
    leb budget.max_requests_per_run run.request_count || leb budget.max_pages_per_run run.page_count

spend : CollectionRun → Option CollectionTarget → ℕ → Tables → Reserve
unfolding spent_rows
spend run none now tables = missing
spend run (some target) now tables = spent (spent_rows run target now tables)

reserve_row : CollectionTarget → Option CollectionRun → ℕ → ℕ → Tables → Reserve
unfolding spend is_spent
reserve_row budget none target_id now tables = missing
reserve_row budget (some run) target_id now tables =
    if is_spent budget run
    then spend run (find target_key target_id tables.targets) now tables
    else reserved (run.started_at + seconds budget.max_runtime_seconds)
        (put_run (record run { request_count = run.request_count + 1 }) tables)

unfoldable pub reserve : CollectionTarget → ℕ → ℕ → ℕ → Tables → Reserve
unfolding reserve_row
reserve budget run_id target_id now tables =
    reserve_row budget (find run_key run_id tables.runs) target_id now tables

-- `result.has_more and (not result.continuation or result.continuation == request.continuation)`
unfoldable pub repeats_continuation : FetchResult → ProviderFetchRequest → Bool
unfolding moved
repeats_continuation result request =
    result.has_more
    && (not (is_some (or_none result.continuation))
        || not (moved result.continuation request.continuation))

abbrev retried_status : Bool → Text
retried_status true = codes "retry"
retried_status false = codes "failed"

unfoldable pub is_final : Bool → FetchResult → Bool
is_final last result = result.coverage_incomplete || not result.has_more || last

module _ {W : Type 0} (loads : Text → Option (Text × Text)) (fromisoformat : Text → Option Stamp)
    (fresh : Tables → ℕ) (now : W → ℕ × W)
    -- `load_for_execution`, and the exception that it raises.
    (check : W → Option Text × W) (fetch : ProviderFetchRequest → ℕ → W → Fetched × W)
    (cooldown : Option ℤ → W → W) (holds_lock : W → Bool)
    -- `decode_continuation`, and the exception that it raises.
    (decode_continuation : Text → Option Text) (loaded : LoadedTarget) (dispatch : TargetDispatch)
    (run_id : ℕ) (run_mode : CollectionRunMode) where
  fails_with : Text → Bool → Option ℤ → Tables → W → Turn × Tables × W
  unfolding outcome
  fails_with code retryable retry_after tables w =
      let (t, w') = now w in
      let (again, tables') =
        finish_error loaded.target.id dispatch.config_revision run_id code retryable retry_after t
          tables in
      (outcome (retried_status again) (some code), tables', w')

  loses : Tables → W → Turn × Tables × W
  unfolding outcome
  loses tables w =
      let (t, w') = now w in
      (
        outcome (codes "retry") (some lock_lost),
        finish_lock_lost loaded.target.id dispatch.config_revision run_id t tables,
        w',
      )

  -- The query for the cursor of the next page: any version of it.
  page_cursor : CollectionCursor → Bool
  page_cursor cursor =
      same_target cursor.target_id dispatch.target_id
      && text_eq cursor.cursor_type loaded.target.operation_key
      && same_mode cursor.run_mode run_mode

  -- After the transaction of `_persist_result`.
  persisted :
      Bool → FetchResult → ProviderFetchRequest → Result Tables → Tables → W → Turn × Tables × W
  unfolding outcome page_cursor first
  persisted final result request (err code) tables w = (stops (err code), tables, w)
  persisted true result request (ok tables') tables w = (
    (if partial_result result
        then outcome (codes "partial") (some incomplete)
        else outcome (codes "succeeded") none),
    tables',
    w,
  )
  persisted false result request (ok tables') tables w = (
    goes (first page_cursor tables'.cursors)
        (record request { cursor = result.next_cursor; continuation = result.continuation }),
    tables',
    w,
  )

  persists :
      Bool
      → FetchResult
      → Option CollectionCursor
      → ProviderFetchRequest
      → Option Text
      → Tables
      → W
      → Turn × Tables × W
  unfolding persisted is_final
  persists last result cursor request (some code) tables w = (stops (err code), tables, w)
  persists last result cursor request none tables w =
      let final = is_final last result in
      let (t, w') = now w in
      persisted final result request
        (persist_result loads fromisoformat loaded.target.id dispatch.config_revision run_id cursor
          result run_mode true final t fresh tables)
        tables w'

  continuation_error : Option Text → Option Text
  continuation_error none = none
  continuation_error (some continuation) = decode_continuation continuation

  accepts :
      Bool
      → Option CollectionCursor
      → ProviderFetchRequest
      → ProviderAnswer
      → Tables
      → W
      → Turn × Tables × W
  unfolding persists continuation_error repeats_continuation
  accepts last cursor request answer tables w =
      if not (answer.contract_version == loaded.target.provider_contract_version)
        || not (text_eq answer.provider loaded.access_method)
      then (stops (err (codes "provider_contract_mismatch")), tables, w)
      else if not (holds_lock w)
      then (stops (err lock_lost), tables, w)
      else if repeats_continuation answer.result request
      then (stops (err (codes "provider_continuation_invalid")), tables, w)
      else persists last answer.result cursor request
          (continuation_error (or_none answer.result.continuation)) tables w

  answers :
      Bool
      → Option CollectionCursor
      → ProviderFetchRequest
      → ProviderAnswer
      → List SafeError
      → Tables
      → W
      → Turn × Tables × W
  unfolding accepts fails_with
  answers last cursor request answer [] tables w = accepts last cursor request answer tables w
  answers last cursor request answer (error ∷ errors) tables w =
      fails_with error.safe_message error.retryable error.retry_after_seconds tables
        (if error.rate_limited then cooldown error.retry_after_seconds w else w)

  receives :
      Bool
      → Option CollectionCursor
      → ProviderFetchRequest
      → Fetched
      → Tables
      → W
      → Turn × Tables × W
  unfolding answers loses fails_with
  receives last cursor request (answered answer) tables w =
      answers last cursor request answer answer.safe_errors tables w
  receives last cursor request lost tables w = loses tables w
  receives last cursor request timed_out tables w = fails_with deadline_exceeded false none tables w

  requests :
      Bool
      → Option CollectionCursor
      → ProviderFetchRequest
      → Reserve
      → Tables
      → W
      → Turn × Tables × W
  unfolding receives outcome fails_with
  requests last cursor request missing tables w = (stops (err (codes "AssertionError")), tables, w)
  requests last cursor request (spent tables') tables w =
      (outcome (codes "partial") (some incomplete), tables', w)
  requests last cursor request (reserved run_deadline tables') tables w =
      let deadline = min request.deadline_at run_deadline in
      let (t, w') = now w in
      if leb deadline t
      then fails_with deadline_exceeded false none tables' w'
      else (let (fetched, w'') = fetch request (max 1 ((deadline - t) / 1000000)) w' in
          receives last cursor request fetched tables' w'')

  checked :
      Bool
      → Option CollectionCursor
      → ProviderFetchRequest
      → Option Text
      → Tables
      → W
      → Turn × Tables × W
  unfolding requests reserve
  checked last cursor request (some code) tables w = (stops (err code), tables, w)
  checked last cursor request none tables w =
      let (t, w') = now w in
      requests last cursor request (reserve loaded.target run_id dispatch.target_id t tables) tables
        w'

  -- One page: a request is reserved, the adapter is called, and its answer is written.
  unfoldable pub page :
      Bool → Option CollectionCursor → ProviderFetchRequest → Tables → W → Turn × Tables × W
  unfolding checked
  page last cursor request tables w =
      let (raised, w') = check w in checked last cursor request raised tables w'

  -- The value that is returned, or the next page.
  after_turn :
      (Option CollectionCursor
        → ProviderFetchRequest
        → Tables
        → W
        → Result TargetRunOutcome × Tables × W)
      → Turn
      → Tables
      → W
      → Result TargetRunOutcome × Tables × W
  after_turn again (stops result) tables w = (result, tables, w)
  after_turn again (goes cursor request) tables w = again cursor request tables w

  -- `for index in range(pages)`: the pages that are left.
  unfoldable pub pages_from :
      ℕ
      → Option CollectionCursor
      → ProviderFetchRequest
      → Tables
      → W
      → Result TargetRunOutcome × Tables × W
  unfolding after_turn
  pages_from zero cursor request tables w = (err (codes "operation_budget_invalid"), tables, w)
  pages_from (suc n) cursor request tables w =
      let (turn, tables', w') = page (n == 0) cursor request tables w in
      after_turn (pages_from n) turn tables' w'

  unfoldable pub execute_pages :
      Option CollectionCursor
      → ProviderFetchRequest
      → Tables
      → W
      → Result TargetRunOutcome × Tables × W
  execute_pages cursor request tables w =
      pages_from (min loaded.target.max_pages_per_run loaded.target.max_requests_per_run) cursor
        request tables w
