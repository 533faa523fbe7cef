-- ===== src/Collection/ControlPlane.antt =====
-- collection/control_plane.py: the state that the worker of the unified targets keeps, and the way it
-- ends a run. A transaction is a function on the tables.
pub mod Retries
pub mod Persist
pub mod Start
pub mod Pages
use news_collect.Base.{
  ℕ, ◌+◌, ◌/◌, min, max, Option, none, some, List, [], ◌∷◌, ◌++◌, Bool, true, false, not, ◌&&◌, ltb,
  ◌==◌, if◌then◌else◌, seconds,
}
use news_collect.Base.Int.{ℤ, pos, negsuc}
use news_collect.Base.Order.{Text, codes}
use news_collect.Base.Rows.{find, modify}
use news_collect.Db.Models.{
  CollectionTarget, CollectionRun, CollectionCursor, CollectionRunStatus, running, succeeded,
  partial, failed, healthy, degraded,
}

pub record Tables : Type 0 where
  pub targets : List CollectionTarget
  pub runs : List CollectionRun
  pub cursors : List CollectionCursor
  -- The audit rows of rejected provider rows: the target and the hash that make their key.
  pub rejected : List (ℕ × Text)

abbrev pub target_key : CollectionTarget → ℕ
target_key target = target.id

abbrev pub run_key : CollectionRun → ℕ
run_key run = run.id

abbrev pub put_target : CollectionTarget → Tables → Tables
put_target target tables = record tables {
  targets = modify target_key target.id (λ old. target) tables.targets;
}

abbrev pub put_run : CollectionRun → Tables → Tables
put_run run tables = record tables { runs = modify run_key run.id (λ old. run) tables.runs }

-- `min(max(int(retry_after or 30), 1), 900)`, of a span in the clock's smallest unit.
unfoldable pub retry_delay : Option ℤ → ℕ
retry_delay none = 30
retry_delay (some (negsuc n)) = 1
retry_delay (some (pos n)) = if n == 0 then 30 else min (max (n / 1000000) 1) 900

abbrev pub stale_revision : Text
stale_revision = codes "stale_target_revision"

-- `_finish_error` on the run and on the target that it loads.
run_error : CollectionRun → Text → Bool → ℕ → CollectionRun
run_error run code retryable now = record run {
  status = if retryable then running else failed;
  finished_at = if retryable then none else some now;
  error_count = run.error_count + 1;
  error_code = some code;
  error_message_redacted = some code;
  retry_count = if retryable then run.retry_count + 1 else run.retry_count;
}

target_error : CollectionTarget → Text → Bool → Option ℤ → ℕ → CollectionTarget
target_error target code retryable retry_after now = record target {
  last_attempt_at = some now;
  health_status = degraded;
  last_error_code = some code;
  consecutive_failures = target.consecutive_failures + 1;
  next_retry_at = if retryable then some (now + seconds (retry_delay retry_after)) else none;
  next_due_at = if retryable then target.next_due_at else now + seconds target.cadence_seconds;
}

run_stale : CollectionRun → ℕ → CollectionRun
run_stale run now = record run {
  status = failed;
  finished_at = some now;
  error_code = some stale_revision;
  error_message_redacted = some stale_revision;
}

error_rows :
    Option CollectionRun
    → Option CollectionTarget
    → ℕ
    → Text
    → Bool
    → Option ℤ
    → ℕ
    → Tables
    → Bool × Tables
unfolding run_error target_error run_stale
error_rows (some run) (some target) revision code retryable retry_after now tables =
    let again = retryable && ltb run.retry_count 3 in
    if target.config_revision == revision
    then (
      again,
      put_target (target_error target code again retry_after now)
          (put_run (run_error run code again now) tables),
    )
    else (false, put_run (run_stale run now) tables)
error_rows _ _ revision code retryable retry_after now tables = (false, tables)

-- `_finish_error`: whether the run will be retried.
unfoldable pub finish_error : ℕ → ℕ → ℕ → Text → Bool → Option ℤ → ℕ → Tables → Bool × Tables
unfolding error_rows
finish_error target_id revision run_id code retryable retry_after now tables =
    error_rows (find run_key run_id tables.runs) (find target_key target_id tables.targets) revision
      code retryable retry_after now tables

abbrev pub lock_lost : Text
lock_lost = codes "target_lock_lost"

lost_rows : Option CollectionRun → Option CollectionTarget → ℕ → ℕ → Tables → Tables
lost_rows (some run) (some target) revision now tables =
    let ended =
      put_run
        (record run {
          status = failed;
          finished_at = some now;
          error_count = run.error_count + 1;
          error_code = some lock_lost;
          error_message_redacted = some lock_lost;
        })
        tables in
    if target.config_revision == revision
    then put_target
        (record target {
          last_attempt_at = some now;
          health_status = degraded;
          last_error_code = some lock_lost;
          consecutive_failures = target.consecutive_failures + 1;
          next_retry_at = some (now + seconds 30);
        })
        ended
    else ended
lost_rows _ _ revision now tables = tables

-- `_finish_lock_lost`
unfoldable pub finish_lock_lost : ℕ → ℕ → ℕ → ℕ → Tables → Tables
unfolding lost_rows
finish_lock_lost target_id revision run_id now tables =
    lost_rows (find run_key run_id tables.runs) (find target_key target_id tables.targets) revision
      now tables

-- `_mark_credential_missing`
missing_row : Option CollectionTarget → ℕ → ℕ → Tables → Tables
missing_row none revision now tables = tables
missing_row (some target) revision now tables =
    if target.config_revision == revision
    then put_target
        (record target {
          health_status = degraded;
          last_error_code = some (codes "provider_runtime_credential_missing");
          last_attempt_at = some now;
          next_retry_at = none;
          next_due_at = now + seconds target.cadence_seconds;
        })
        tables
    else tables

unfoldable pub mark_credential_missing : ℕ → ℕ → ℕ → Tables → Tables
unfolding missing_row
mark_credential_missing target_id revision now tables =
    missing_row (find target_key target_id tables.targets) revision now tables
