-- ===== src/Collection/Tests/Samples.antt =====
-- A target, its run and its tables.
use news_collect.Base.{none, some, [], ◌∷◌}
use news_collect.Base.Order.{codes}
use news_collect.Db.Models.{
  CollectionTarget, CollectionRun, running, normal, healthy, active, incremental,
  snapshot_watermark,
}
use news_collect.Collection.ControlPlane.{Tables}

abbrev pub target : CollectionTarget
target = record {
  id = 1;
  source_id = 10;
  source_account_id = some 20;
  operation_key = codes "news";
  operation_config = [];
  operation_config_version = 2;
  status = active;
  priority = 5;
  batch_limit = 10;
  max_response_bytes = 100000;
  request_timeout_seconds = 10;
  collection_mode = incremental;
  backfill_policy = codes "none";
  revision_policy = codes "none";
  rate_limit_group = codes "news";
  retired_at = none;
  legacy_cursor_type = none;
  provider_contract_version = 1;
  config_revision = 4;
  cadence_seconds = 600;
  max_requests_per_run = 2;
  max_pages_per_run = 3;
  max_runtime_seconds = 60;
  cursor_strategy = snapshot_watermark;
  cursor_version = 1;
  next_due_at = 0;
  next_retry_at = none;
  last_attempt_at = none;
  last_success_at = none;
  consecutive_failures = 0;
  health_status = healthy;
  last_error_code = none;
}

abbrev pub started : CollectionRun
started = record {
  id = 2;
  source_id = 10;
  source_account_id = some 20;
  target_id = some 1;
  run_mode = normal;
  dispatch_identity = none;
  started_at = 0;
  finished_at = none;
  status = running;
  fetched_count = 0;
  request_count = 0;
  page_count = 0;
  new_count = 0;
  duplicate_count = 0;
  error_count = 0;
  error_code = none;
  error_message_redacted = none;
  retry_count = 0;
}

abbrev pub tables : Tables
tables = record { targets = target ∷ []; runs = started ∷ []; cursors = []; rejected = [] }
