-- ===== src/Collection/Runner.antt =====
-- collection/runner.py: the transactions of the runner of a legacy target, each a function on the tables.
-- The adapter's test of a cursor, the substitution of the redaction and the ids of new rows are parameters.
pub mod Run
pub mod Advance
pub mod Checkpoint
use news_collect.Base.{
  ℕ, ◌+◌, Option, none, some, List, [], ◌∷◌, ◌++◌, map, Bool, true, false, not, ◌&&◌, ◌||◌, ltb,
  ◌==◌, if◌then◌else◌, any, length,
}
use news_collect.Base.Order.{Text, codes, text_eq}
use news_collect.Base.Rows.{find, modify}
use news_collect.Db.Models.{
  Source, SourceAccount, CollectionRun, CollectionCursor, CollectionRunStatus, AuthorizationStatus,
  authorized, implemented, normal, running, succeeded, partial, failed,
}
use news_collect.Collection.Errors.{
  CollectionErrorCode, ClassifiedCollectionError, classified, value, config_invalid,
  contract_invalid,
}
use news_collect.Collection.ControlPlane.{run_key}
use news_collect.Collection.ControlPlane.Persist.{first, moved, cursor_key}
use news_collect.Collection.ControlPlane.Start.{is_running}

-- The fields of the dataclass `CollectionTarget` that the runner reads.
pub record Target : Type 0 where
  pub source_id : ℕ
  pub source_account_id : Option ℕ
  pub access_method : Text

pub record CursorSnapshot : Type 0 where
  pub cursor_type : Option Text
  pub cursor_value : Option Text
  pub last_published_at : Option ℕ

pub record RawItemEnvelope : Type 0 where
  pub external_id : Option Text
  pub fetched_at : ℕ
  pub http_status : Option ℕ
  pub content_type : Option Text
  pub payload_location : Option Text
  pub payload_hash : Option Text
  pub retention_class : Text

pub record FetchBatch : Type 0 where
  pub items : List RawItemEnvelope
  pub next_cursor : Option Text
  pub last_published_at : Option ℕ
  pub has_more : Bool

-- A stored item: its run, source and account, and the envelope that was fetched. Its parse status,
-- which is PENDING here, is left out.
pub record RawItem : Type 0 where
  pub source_id : ℕ
  pub source_account_id : Option ℕ
  pub collection_run_id : ℕ
  pub envelope : RawItemEnvelope

pub record Store : Type 0 where
  pub sources : List Source
  pub accounts : List SourceAccount
  pub runs : List CollectionRun
  pub cursors : List CollectionCursor
  pub raw_items : List RawItem

abbrev pub source_key : Source → ℕ
source_key source = source.id

abbrev pub account_key : SourceAccount → ℕ
account_key account = account.id

abbrev pub put_run : CollectionRun → Store → Store
put_run run store = record store { runs = modify run_key run.id (λ old. run) store.runs }

abbrev pub put_source : Source → Store → Store
put_source source store = record store {
  sources = modify source_key source.id (λ old. source) store.sources;
}

-- The value of a call that may raise a classified error.
pub data Checked (A : Type 0) : Type 0 where
  done : A → Checked A
  raises : ClassifiedCollectionError → Checked A

is_authorized : AuthorizationStatus → Bool
is_authorized authorized = true
is_authorized implemented = true
is_authorized _ = false

source_allowed : Target → Option Source → Bool
unfolding is_authorized
source_allowed target none = false
source_allowed target (some source) =
    source.enabled
    && text_eq source.access_method target.access_method
    && is_authorized source.authorization_status

account_allowed : Target → Option SourceAccount → Bool
account_allowed target none = false
account_allowed target (some account) = account.source_id == target.source_id && account.enabled

abbrev owned_by : ℕ → SourceAccount → Bool
owned_by source_id account = account.source_id == source_id

module _ (sub : Text → Text) where
  invalid : Text → ClassifiedCollectionError
  invalid detail = classified sub config_invalid detail none

  validate_account : Target → Option ℕ → Store → Option ClassifiedCollectionError
  unfolding invalid account_allowed
  validate_account target (some k) store =
      if account_allowed target (find account_key k store.accounts)
      then none
      else some (invalid (codes "source account is missing, mismatched, or disabled"))
  validate_account target none store =
      if any (owned_by target.source_id) store.accounts
      then some (invalid (codes "source-level collection is forbidden when accounts exist"))
      else none

  -- `_validate_target`: the error that it raises, if it raises one. `supports` is the test of the
  -- registries.
  unfoldable pub validate_target : Bool → Target → Store → Option ClassifiedCollectionError
  unfolding validate_account source_allowed invalid
  validate_target supports target store =
      if not supports
      then some (invalid (codes "access method is not registered"))
      else if not (source_allowed target (find source_key target.source_id store.sources))
      then some (invalid (codes "source is not authorized for collection"))
      else validate_account target target.source_account_id store

  violated : Text → ClassifiedCollectionError
  violated detail = classified sub contract_invalid detail none

  -- A next cursor that is not a successor, and a time that went backward.
  not_successor : (Option Text → Text → Bool) → CursorSnapshot → Option Text → Bool
  not_successor is_cursor_successor snapshot none = false
  not_successor is_cursor_successor snapshot (some next) =
      not (is_cursor_successor snapshot.cursor_value next)

  went_back : Option ℕ → Option ℕ → Bool
  went_back (some before) (some published) = ltb published before
  went_back _ _ = false

  -- The query for the cursor of an account.
  abbrev pub account_cursor : ℕ → Text → CollectionCursor → Bool
  account_cursor account kind cursor =
      cursor.source_account_id == account && text_eq cursor.cursor_type kind

  unfoldable pub or_before : Option ℕ → Option ℕ → Option ℕ
  or_before none before = before
  or_before (some published) before = some published

  new_cursor : ℕ → ℕ → Text → CollectionCursor
  new_cursor k account kind = record {
    id = k;
    source_account_id = account;
    target_id = none;
    cursor_type = kind;
    cursor_version = 1;
    run_mode = normal;
    cursor_value = none;
    continuation = none;
    continuation_run_id = none;
    watermark_at = none;
    last_published_at = none;
  }

  at_next : CursorSnapshot → FetchBatch → Text → CollectionCursor → CollectionCursor
  unfolding or_before
  at_next snapshot batch next cursor = record cursor {
    cursor_value = some next;
    last_published_at = or_before batch.last_published_at snapshot.last_published_at;
  }

  -- The cursor is new, or as it was when the batch was asked for; else the snapshot is stale.
  write_found :
      (Store → ℕ)
      → Option CollectionCursor
      → ℕ
      → Text
      → CursorSnapshot
      → FetchBatch
      → Text
      → Store
      → Checked Store
  unfolding violated at_next new_cursor
  write_found fresh none account kind snapshot batch next store = done (record store {
    cursors =
        store.cursors ++ at_next snapshot batch next (new_cursor (fresh store) account kind) ∷ [];
  })
  write_found fresh (some cursor) account kind snapshot batch next store =
      if moved cursor.cursor_value snapshot.cursor_value
      then raises (violated (codes "cursor snapshot is stale"))
      else done (record store {
        cursors =
            modify cursor_key cursor.id (λ old. at_next snapshot batch next cursor) store.cursors;
      })

  write_cursor :
      (Store → ℕ)
      → Option ℕ
      → Option Text
      → Option Text
      → CursorSnapshot
      → FetchBatch
      → Store
      → Checked Store
  unfolding write_found first
  write_cursor fresh (some account) (some kind) (some next) snapshot batch store =
      write_found fresh (first (account_cursor account kind) store.cursors) account kind snapshot
        batch next store
  write_cursor fresh _ _ _ snapshot batch store = done store

  unfoldable pub raw_item : Target → ℕ → RawItemEnvelope → RawItem
  raw_item target run_id envelope = record {
    source_id = target.source_id;
    source_account_id = target.source_account_id;
    collection_run_id = run_id;
    envelope = envelope;
  }

  write_batch :
      (Store → ℕ)
      → Target
      → Option CollectionRun
      → CursorSnapshot
      → FetchBatch
      → Store
      → Checked Store
  unfolding write_cursor violated raw_item
  write_batch fresh target none snapshot batch store =
      raises (violated (codes "collection run is not running"))
  write_batch fresh target (some run) snapshot batch store =
      if not (is_running run.status)
      then raises (violated (codes "collection run is not running"))
      else write_cursor fresh target.source_account_id snapshot.cursor_type batch.next_cursor
          snapshot batch
          (put_run (record run { fetched_count = run.fetched_count + length batch.items })
            (record store {
              raw_items = store.raw_items ++ map (raw_item target run.id) batch.items;
            }))

  -- The checks before the transaction of `_persist_checkpoint`.
  unfoldable pub checkpoint_error :
      (Option Text → Text → Bool) → CursorSnapshot → FetchBatch → Option ClassifiedCollectionError
  unfolding not_successor went_back violated
  checkpoint_error is_cursor_successor snapshot batch =
      if not_successor is_cursor_successor snapshot batch.next_cursor
      then some (violated (codes "cursor is not a direct successor"))
      else if went_back snapshot.last_published_at batch.last_published_at
      then some (violated (codes "published watermark moved backward"))
      else none

  -- The transaction of `_persist_checkpoint`.
  unfoldable pub write_checkpoint :
      (Store → ℕ) → Target → ℕ → CursorSnapshot → FetchBatch → Store → Checked Store
  unfolding write_batch
  write_checkpoint fresh target run_id snapshot batch store =
      write_batch fresh target (find run_key run_id store.runs) snapshot batch store

-- `_load_cursor`
unfoldable pub snapshot_of : Text → Option CollectionCursor → CursorSnapshot
snapshot_of kind none = record {
  cursor_type = some kind;
  cursor_value = none;
  last_published_at = none;
}
snapshot_of kind (some cursor) = record {
  cursor_type = some cursor.cursor_type;
  cursor_value = cursor.cursor_value;
  last_published_at = cursor.last_published_at;
}

snapshot_for : Option ℕ → Option Text → Store → CursorSnapshot
unfolding snapshot_of first
snapshot_for (some account) (some kind) store = snapshot_of kind (
    first (λ cursor. cursor.source_account_id == account && text_eq cursor.cursor_type kind)
      store.cursors)
snapshot_for _ kind store = record {
  cursor_type = kind;
  cursor_value = none;
  last_published_at = none;
}

unfoldable pub load_cursor : Target → Option Text → Store → CursorSnapshot
unfolding snapshot_for
load_cursor target cursor_type store = snapshot_for target.source_account_id cursor_type store

-- `_create_run`
abbrev new_run : ℕ → Target → ℕ → CollectionRun
new_run k target now = record {
  id = k;
  source_id = target.source_id;
  source_account_id = target.source_account_id;
  target_id = none;
  run_mode = normal;
  dispatch_identity = none;
  started_at = now;
  finished_at = none;
  status = running;
  fetched_count = 0;
  request_count = 0;
  page_count = 0;
  new_count = 0;
  duplicate_count = 0;
  error_count = 0;
  error_code = none;
  error_message_redacted = none;
  retry_count = 0;
}

unfoldable pub create_run : (Store → ℕ) → Target → ℕ → Store → ℕ × Store
create_run fresh target now store =
    (fresh store, record store { runs = store.runs ++ new_run (fresh store) target now ∷ [] })

-- `_finish_success`: an account's run leaves the counters of its source alone.
unfoldable pub success_run : CollectionRun → ℕ → CollectionRun
success_run run now = record run {
  status = succeeded;
  finished_at = some now;
  error_code = none;
  error_message_redacted = none;
}

success_source : Option ℕ → Source → ℕ → Source
success_source none source now = record source {
  last_success_at = some now;
  consecutive_failures = 0;
}
success_source (some account) source now = source

success_rows : Target → Option CollectionRun → Option Source → ℕ → Store → Store
unfolding success_run success_source
success_rows target (some run) (some source) now store =
    put_source (success_source target.source_account_id source now)
      (put_run (success_run run now) store)
success_rows target _ _ now store = store

unfoldable pub finish_success : Target → ℕ → ℕ → Store → Store
unfolding success_rows
finish_success target run_id now store =
    success_rows target (find run_key run_id store.runs)
      (find source_key target.source_id store.sources) now store

-- `_record_retry`
unfoldable pub retry_run : ClassifiedCollectionError → ℕ → CollectionRun → CollectionRun
retry_run error retry_count run = record run {
  retry_count = retry_count;
  error_count = run.error_count + 1;
  error_code = some (value error.code);
  error_message_redacted = some error.redacted_detail;
}

retry_rows : Option CollectionRun → ClassifiedCollectionError → ℕ → Store → Store
unfolding retry_run
retry_rows none error retry_count store = store
retry_rows (some run) error retry_count store = put_run (retry_run error retry_count run) store

unfoldable pub record_retry : ℕ → ClassifiedCollectionError → ℕ → Store → Store
unfolding retry_rows
record_retry run_id error retry_count store =
    retry_rows (find run_key run_id store.runs) error retry_count store

-- `_finish_failure`
unfoldable pub failure_run : ClassifiedCollectionError → ℕ → CollectionRun → CollectionRun
failure_run error now run = record run {
  status = if ltb 0 run.fetched_count then partial else failed;
  finished_at = some now;
  error_count = run.error_count + 1;
  error_code = some (value error.code);
  error_message_redacted = some error.redacted_detail;
}

failure_rows : Option CollectionRun → Option Source → ClassifiedCollectionError → ℕ → Store → Store
unfolding failure_run
failure_rows (some run) (some source) error now store =
    put_source (record source { consecutive_failures = source.consecutive_failures + 1 })
      (put_run (failure_run error now run) store)
failure_rows _ _ error now store = store

unfoldable pub finish_failure : Target → ℕ → ClassifiedCollectionError → ℕ → Store → Store
unfolding failure_rows
finish_failure target run_id error now store =
    failure_rows (find run_key run_id store.runs) (find source_key target.source_id store.sources)
      error now store
