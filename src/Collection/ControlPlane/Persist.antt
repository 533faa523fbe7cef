-- ===== src/Collection/ControlPlane/Persist.antt =====
-- collection/control_plane.py, `_persist_result`: one transaction that writes the rows of a result, the
-- run, the target and its cursors. An exception leaves the tables as they were. The counts of the
-- downstream write (`persist_fetch_result`) come in with the result.
pub mod Commits
use news_collect.Base.{
  ℕ, ◌+◌, Option, none, some, List, [], ◌∷◌, ◌++◌, Bool, true, false, not, ◌&&◌, ◌||◌, ltb, leb,
  ◌==◌, if◌then◌else◌, seconds, any, length, is_some,
}
use news_collect.Base.Order.{Text, codes, text_eq}
use news_collect.Base.Rows.{find, modify}
use news_collect.Base.Result.{Result, ok, err, ◌>>=◌}
use news_collect.Db.Models.{
  CollectionTarget, CollectionRun, CollectionCursor, CollectionRunMode, normal, backfill, running,
  succeeded, partial, healthy, degraded,
}
use news_collect.Collection.Cursors.{Stamp, CursorPosition, CursorDecision, decide_cursor}
use news_collect.Collection.ControlPlane.{
  Tables, target_key, run_key, put_target, put_run, stale_revision,
}

pub record Counts : Type 0 where
  pub fetched : ℕ
  pub new : ℕ
  pub duplicates : ℕ

-- The fields of `ProviderFetchResult` that are persisted here.
pub record FetchResult : Type 0 where
  pub counts : Counts
  pub next_cursor : Option Text
  pub has_more : Bool
  pub continuation : Option Text
  pub rejected_row_hashes : List Text
  pub coverage_incomplete : Bool

abbrev pub same_mode : CollectionRunMode → CollectionRunMode → Bool
same_mode normal normal = true
same_mode backfill backfill = true
same_mode _ _ = false

abbrev pub same_target : Option ℕ → ℕ → Bool
same_target none k = false
same_target (some j) k = j == k

-- The `WHERE` of the cursor of a target.
unfoldable pub owns_cursor : CollectionTarget → CollectionRunMode → CollectionCursor → Bool
owns_cursor target mode cursor =
    same_target cursor.target_id target.id
    && text_eq cursor.cursor_type target.operation_key
    && cursor.cursor_version == target.cursor_version
    && same_mode cursor.run_mode mode

-- `session.scalar` of a query: its first row.
unfoldable pub first {ℓ} : {A : Type ℓ} → (A → Bool) → List A → Option A
first p [] = none
first p (c ∷ cs) = if p c then some c else first p cs

abbrev pub cursor_key : CollectionCursor → ℕ
cursor_key cursor = cursor.id

-- The row is written over, or added if it is new.
unfoldable pub put_cursor : CollectionCursor → Tables → Tables
put_cursor cursor tables = record tables {
  cursors =
      if is_some (find cursor_key cursor.id tables.cursors)
      then modify cursor_key cursor.id (λ old. cursor) tables.cursors
      else tables.cursors ++ cursor ∷ [];
}

-- `c in "0123456789abcdef"`, and a length of 64.
is_hex : ℕ → Bool
is_hex c = leb b'0' c && leb c b'9' || leb b'a' c && leb c b'f'

unfoldable pub is_row_hash : Text → Bool
unfolding is_hex
is_row_hash text = length text == 64 && not (any (λ c. not (is_hex c)) text)

unfoldable pub bad_hashes : List Text → Bool
unfolding is_row_hash
bad_hashes hashes = any (λ h. not (is_row_hash h)) hashes

abbrev pub incomplete : Text
incomplete = codes "coverage_incomplete"

unfoldable pub partial_result : FetchResult → Bool
partial_result result = result.has_more || result.coverage_incomplete

-- The run after the result.
unfoldable pub result_run : Bool → Bool → FetchResult → ℕ → CollectionRun → CollectionRun
result_run page_mode final result now run = record run {
  fetched_count = (if page_mode then run.fetched_count else 0) + result.counts.fetched;
  new_count = (if page_mode then run.new_count else 0) + result.counts.new;
  duplicate_count = (if page_mode then run.duplicate_count else 0) + result.counts.duplicates;
  page_count = if page_mode then run.page_count + 1 else run.page_count;
  finished_at = if final then some now else none;
  status = if not final then running else if partial_result result then partial else succeeded;
  error_code = if final && partial_result result then some incomplete else run.error_code;
  error_message_redacted =
      if final && partial_result result
      then some (
          if page_mode
          then codes "bounded run budget exhausted"
          else codes "provider continuation is unsupported for this operation")
      else run.error_message_redacted;
}

-- The target after the result.
unfoldable pub result_target : Bool → FetchResult → ℕ → CollectionTarget → CollectionTarget
result_target final result now target =
    let timed : CollectionTarget = record target {
      last_attempt_at = some now;
      next_retry_at = none;
      next_due_at = now + seconds target.cadence_seconds;
    } in
    if not final
    then timed
    else if partial_result result
    then record timed { health_status = degraded; last_error_code = some incomplete }
    else record timed {
      health_status = healthy;
      last_error_code = none;
      last_success_at = some now;
      consecutive_failures = 0;
    }

-- `dict(result.continuation) if result.continuation else None`: an empty mapping is falsy, and its text
-- is taken to be empty.
abbrev pub or_none : Option Text → Option Text
or_none none = none
or_none (some []) = none
or_none (some (c ∷ text)) = some (c ∷ text)

unfoldable pub moved : Option Text → Option Text → Bool
moved none none = false
moved none (some b) = true
moved (some a) none = true
moved (some a) (some b) = not (text_eq a b)

-- The cursor that the transaction works on: the one found, unless it moved since it was read, or a new
-- one if the target has an account.
unfoldable pub found_cursor :
    ℕ
    → Option CollectionCursor
    → Option CollectionCursor
    → CollectionTarget
    → CollectionRunMode
    → Result CollectionCursor
unfolding moved
found_cursor fresh (some cursor) none target mode = ok cursor
found_cursor fresh (some cursor) (some snapshot) target mode =
    if moved cursor.cursor_value snapshot.cursor_value
    then err (codes "target_cursor_stale")
    else ok cursor
found_cursor fresh none snapshot target mode = elim target.source_account_id [
  | none ↦ err (codes "target_cursor_requires_account_during_rollback")
  | some account ↦ ok (record {
    id = fresh;
    source_account_id = account;
    target_id = some target.id;
    cursor_type = target.operation_key;
    cursor_version = target.cursor_version;
    run_mode = mode;
    cursor_value = none;
    continuation = none;
    continuation_run_id = none;
    watermark_at = none;
    last_published_at = none;
  })
]

at_position : Option CursorPosition → CollectionCursor → CollectionCursor
at_position none cursor = cursor
at_position (some p) cursor = record cursor {
  last_published_at = some p.published_at;
  watermark_at = some p.published_at;
}

unsupported : Text
unsupported = codes "{\"continuation_unsupported\": true, \"coverage_incomplete\": true}"

-- `on_conflict_do_nothing`: a row that is rejected again adds no audit row.
unfoldable pub add_rejected : ℕ → List Text → List (ℕ × Text) → List (ℕ × Text)
add_rejected target_id [] rows = rows
add_rejected target_id (h ∷ hashes) rows =
    let known = any (λ row. row.0 == target_id && text_eq row.1 h) rows in
    add_rejected target_id hashes (if known then rows else (target_id, h) ∷ rows)

-- The query for the cursor of the legacy collection.
legacy_cursor : ℕ → Text → CollectionCursor → Bool
legacy_cursor account kind cursor =
    cursor.source_account_id == account && text_eq cursor.cursor_type kind

or_new_legacy : ℕ → ℕ → Text → Option CollectionCursor → CollectionCursor
or_new_legacy fresh account kind (some cursor) = cursor
or_new_legacy fresh account kind none = record {
  id = fresh;
  source_account_id = account;
  target_id = none;
  cursor_type = kind;
  cursor_version = 1;
  run_mode = normal;
  cursor_value = none;
  continuation = none;
  continuation_run_id = none;
  watermark_at = none;
  last_published_at = none;
}

mirror : Bool → Option Text → Option Text → Option ℕ → (Tables → ℕ) → Tables → Tables
unfolding legacy_cursor or_new_legacy put_cursor first
mirror false (some next) (some kind) (some account) fresh tables =
    let legacy =
      or_new_legacy (fresh tables) account kind
        (first (legacy_cursor account kind) tables.cursors) in
    put_cursor (record legacy { cursor_value = some next }) tables
mirror _ _ _ _ fresh tables = tables

module _ (loads : Text → Option (Text × Text)) (fromisoformat : Text → Option Stamp) where
  -- The cursor after the result, or the exception of the cursor contract.
  advance_cursor :
      Bool
      → Bool
      → CollectionTarget
      → ℕ
      → FetchResult
      → Option Text
      → CollectionCursor
      → Result CollectionCursor
  unfolding at_position unsupported
  advance_cursor true more target run_id result next cursor = do
    d ← decide_cursor loads fromisoformat target.cursor_strategy cursor.cursor_value next
    ok (
        at_position d.candidate (record cursor {
          cursor_value = next;
          continuation = or_none result.continuation;
          continuation_run_id = if is_some (or_none result.continuation) then some run_id else none;
        }))
  advance_cursor false true target run_id result next cursor =
      ok (record cursor { continuation = some unsupported })
  advance_cursor false false target run_id result (some next) cursor = do
    d ← decide_cursor loads fromisoformat target.cursor_strategy cursor.cursor_value (some next)
    ok (at_position d.candidate (record cursor { cursor_value = some next; continuation = none }))
  advance_cursor false false target run_id result none cursor = ok cursor

  -- The part of the transaction that writes the cursors.
  unfoldable pub write_cursors :
      Bool
      → CollectionTarget
      → CollectionRunMode
      → ℕ
      → FetchResult
      → Option CollectionCursor
      → (Tables → ℕ)
      → Tables
      → Result Tables
  unfolding advance_cursor found_cursor put_cursor mirror owns_cursor first
  write_cursors page_mode target mode run_id result snapshot fresh tables =
      if page_mode || is_some result.next_cursor || result.has_more
      then (do
        cursor ←
            found_cursor (fresh tables) (first (owns_cursor target mode) tables.cursors) snapshot
              target mode
        next ←
            advance_cursor page_mode result.has_more target run_id result result.next_cursor cursor
        ok (
            mirror result.has_more result.next_cursor target.legacy_cursor_type
              target.source_account_id fresh (put_cursor next tables)))
      else ok tables

  persist_rows :
      Option CollectionTarget
      → Option CollectionRun
      → ℕ
      → Option CollectionCursor
      → FetchResult
      → CollectionRunMode
      → Bool
      → Bool
      → ℕ
      → (Tables → ℕ)
      → Tables
      → Result Tables
  unfolding write_cursors result_run result_target add_rejected bad_hashes partial_result
  persist_rows (some target) (some run) revision snapshot result mode page_mode final now fresh
        tables =
      if not (target.config_revision == revision)
      then err stale_revision
      else if bad_hashes result.rejected_row_hashes
      then err (codes "rejected_row_identity_invalid")
      else write_cursors page_mode target mode run.id result snapshot fresh (
          put_target (result_target final result now target) (
            put_run (result_run page_mode final result now run) (record tables {
              rejected = add_rejected target.id result.rejected_row_hashes tables.rejected;
            })))
  persist_rows _ _ revision snapshot result mode page_mode final now fresh tables =
      err stale_revision

  -- `fresh` gives the id that the database hands out for a new row.
  unfoldable pub persist_result :
      ℕ
      → ℕ
      → ℕ
      → Option CollectionCursor
      → FetchResult
      → CollectionRunMode
      → Bool
      → Bool
      → ℕ
      → (Tables → ℕ)
      → Tables
      → Result Tables
  unfolding persist_rows
  persist_result target_id revision run_id snapshot result mode page_mode final now fresh tables =
      persist_rows (find target_key target_id tables.targets) (find run_key run_id tables.runs)
        revision snapshot result mode page_mode final now fresh tables
