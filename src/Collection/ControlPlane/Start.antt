-- ===== src/Collection/ControlPlane/Start.antt =====
-- collection/control_plane.py, `_start_run` and `recover_stale_target_runs`: the transactions that begin
-- a run and that end one which nobody works on any more.
pub mod Single
pub mod Recovered
use news_collect.Base.{
  ℕ, suc, ◌+◌, Option, none, some, List, [], ◌∷◌, Bool, true, false, not, ◌&&◌, ◌||◌, ltb, ◌==◌,
  if◌then◌else◌, seconds, keep, is_some,
}
use news_collect.Base.Order.{Text, codes}
use news_collect.Base.Rows.{find}
use news_collect.Base.Result.{Result, ok, err}
use news_collect.Db.Models.{
  CollectionTarget, CollectionRun, CollectionCursor, CollectionRunMode, CollectionRunStatus,
  running, failed, degraded,
}
use news_collect.Collection.ControlPlane.{Tables, target_key, put_target, put_run, stale_revision}
use news_collect.Collection.ControlPlane.Persist.{first, owns_cursor, same_mode, same_target}

abbrev pub is_running : CollectionRunStatus → Bool
is_running running = true
is_running _ = false

-- The `WHERE` of the run that a target has RUNNING in a mode.
unfoldable pub runs_for : ℕ → CollectionRunMode → CollectionRun → Bool
runs_for target_id mode run =
    same_target run.target_id target_id && same_mode run.run_mode mode && is_running run.status

unfoldable pub new_run : ℕ → CollectionTarget → CollectionRunMode → Text → ℕ → CollectionRun
new_run k target mode identity now = record {
  id = k;
  source_id = target.source_id;
  source_account_id = target.source_account_id;
  target_id = some target.id;
  run_mode = mode;
  dispatch_identity = some identity;
  started_at = now;
  finished_at = none;
  status = running;
  fetched_count = 0;
  request_count = 0;
  page_count = 0;
  new_count = 0;
  duplicate_count = 0;
  error_count = 0;
  error_code = none;
  error_message_redacted = none;
  retry_count = 0;
}

-- The run that exists is taken up; else a new one is added.
begin :
    Option CollectionRun → ℕ → CollectionTarget → CollectionRunMode → Text → ℕ → Tables → ℕ × Tables
unfolding new_run
begin (some run) k target mode identity now tables = (run.id, tables)
begin none k target mode identity now tables =
    (k, record tables { runs = new_run k target mode identity now ∷ tables.runs })

start_rows :
    Option CollectionTarget
    → ℕ
    → CollectionRunMode
    → Text
    → ℕ
    → (Tables → ℕ)
    → Tables
    → Result ((ℕ × Option CollectionCursor) × Tables)
unfolding begin runs_for owns_cursor first
start_rows none revision mode identity now fresh tables = err stale_revision
start_rows (some target) revision mode identity now fresh tables =
    if not (target.config_revision == revision)
    then err stale_revision
    else (let (k, tables') =
          begin (first (runs_for target.id mode) tables.runs) (fresh tables) target mode identity
            now tables in
        ok ((k, first (owns_cursor target mode) tables.cursors), tables'))

-- `_start_run`: the id of the run and the cursor as it is then.
unfoldable pub start_run :
    ℕ
    → ℕ
    → CollectionRunMode
    → Text
    → ℕ
    → (Tables → ℕ)
    → Tables
    → Result ((ℕ × Option CollectionCursor) × Tables)
unfolding start_rows
start_run target_id revision mode identity now fresh tables =
    start_rows (find target_key target_id tables.targets) revision mode identity now fresh tables

abbrev pub stale_run : Text
stale_run = codes "stale_run"

-- A run that is lost, and its target, which is retried.
unfoldable pub stale_end : CollectionRun → ℕ → CollectionRun
stale_end run now = record run {
  status = failed;
  finished_at = some now;
  error_code = some stale_run;
  error_message_redacted = some stale_run;
}

stale_target : CollectionTarget → ℕ → ℕ → CollectionTarget
stale_target target now retry_delay_seconds = record target {
  health_status = degraded;
  last_error_code = some stale_run;
  consecutive_failures = target.consecutive_failures + 1;
  next_retry_at = some (now + seconds retry_delay_seconds);
}

-- A run whose target is gone stays as it is.
recover_row : CollectionRun → Option CollectionTarget → ℕ → ℕ → ℕ × Tables → ℕ × Tables
unfolding stale_end stale_target
recover_row run none now retry_delay_seconds (n, tables) = (n, tables)
recover_row run (some target) now retry_delay_seconds (n, tables) = (
  n + 1,
  put_target (stale_target target now retry_delay_seconds) (put_run (stale_end run now) tables),
)

-- `redis.exists` of the lock of the run and of the marker of its dispatch.
module _ (lock_exists : ℕ → CollectionRunMode → Bool) (dispatch_exists : Text → Bool) where
  unfoldable pub dispatched : Option Text → Bool
  dispatched none = false
  dispatched (some []) = false
  dispatched (some (c ∷ identity)) = dispatch_exists (c ∷ identity)

  recover_one : CollectionRun → Option ℕ → ℕ → ℕ → ℕ × Tables → ℕ × Tables
  unfolding dispatched recover_row
  recover_one run none now retry_delay_seconds (n, tables) = (n, tables)
  recover_one run (some target_id) now retry_delay_seconds (n, tables) =
      if lock_exists target_id run.run_mode || dispatched run.dispatch_identity
      then (n, tables)
      else recover_row run (find target_key target_id tables.targets) now retry_delay_seconds
          (n, tables)

  -- The `WHERE` of the stale runs; the rows that another session has locked are skipped.
  unfoldable pub is_stale : (ℕ → Bool) → ℕ → CollectionRun → Bool
  is_stale locked stale_before run =
      is_some run.target_id
      && is_running run.status
      && ltb run.started_at stale_before
      && not (locked run.id)

  recover_each : List CollectionRun → ℕ → ℕ → ℕ × Tables → ℕ × Tables
  unfolding recover_one
  recover_each [] now retry_delay_seconds state = state
  recover_each (run ∷ runs) now retry_delay_seconds state =
      recover_each runs now retry_delay_seconds
        (recover_one run run.target_id now retry_delay_seconds state)

  unfoldable pub recover_stale_target_runs : (ℕ → Bool) → ℕ → ℕ → ℕ → Tables → ℕ × Tables
  unfolding recover_each is_stale
  recover_stale_target_runs locked stale_before retry_delay_seconds now tables =
      recover_each (keep (is_stale locked stale_before) tables.runs) now retry_delay_seconds
        (0, tables)
