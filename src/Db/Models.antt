-- ===== src/Db/Models.antt =====
-- src/market_intelligence/db/models.py: the enumerations and the columns that the services use. A
-- UUID is a number, as its order is that of its integer value; a nullable column is an `Option`.
use news_collect.Base.{ℕ, Bool, Option}
use news_collect.Base.Order.{Text}

pub data AuthorizationStatus : Type 0 where
  planned access_tbd authorized implemented degraded blocked disabled : AuthorizationStatus

pub data CollectionRunStatus : Type 0 where
  running succeeded partial failed : CollectionRunStatus

pub data NotificationPriority : Type 0 where
  p0 p1 p2 p3 p4 : NotificationPriority

pub data NotificationChannel : Type 0 where
  telegram_push : NotificationChannel

pub data NotificationStatus : Type 0 where
  pending sending sent failed suppressed : NotificationStatus

pub data CollectionTargetHealthStatus : Type 0 where
  unknown healthy degraded blocked : CollectionTargetHealthStatus

pub data CollectionCursorStrategy : Type 0 where
  strict_incremental snapshot_watermark page_token date_window compound revision :
      CollectionCursorStrategy

pub data CollectionMode : Type 0 where
  incremental snapshot : CollectionMode

pub data CollectionRunMode : Type 0 where
  normal backfill : CollectionRunMode

pub data SafeProjectionQualityStatus : Type 0 where
  complete partial blocked : SafeProjectionQualityStatus

pub data SafeProjectionProcessingStatus : Type 0 where
  pending validating ready retry blocked : SafeProjectionProcessingStatus

pub data IdentityStatus : Type 0 where
  unverified verified changed disabled : IdentityStatus

pub data CollectionTargetStatus : Type 0 where
  draft active paused blocked retired : CollectionTargetStatus

pub record Source : Type 0 where
  pub id : ℕ
  pub access_method : Text
  pub authorization_status : AuthorizationStatus
  pub enabled : Bool
  pub schedule_seconds : Option ℕ
  pub last_success_at : Option ℕ
  pub consecutive_failures : ℕ

pub record SourceAccount : Type 0 where
  pub id : ℕ
  pub source_id : ℕ
  pub identity_status : IdentityStatus
  pub enabled : Bool

pub record Notification : Type 0 where
  pub id : ℕ
  pub content_item_id : Option ℕ
  pub priority : NotificationPriority
  pub priority_reason : Text
  pub policy_rule_id : Text
  pub policy_version : Text
  pub channel : NotificationChannel
  pub dedup_key : Text
  pub payload_version : ℕ
  pub status : NotificationStatus
  pub scheduled_at : Option ℕ
  pub sent_at : Option ℕ
  pub failure_code : Option Text
  pub retry_count : ℕ

pub record CollectionTarget : Type 0 where
  pub id : ℕ
  pub source_id : ℕ
  pub source_account_id : Option ℕ
  pub operation_key : Text
  -- The JSON of the configuration, as text.
  pub operation_config : Text
  pub operation_config_version : ℕ
  pub status : CollectionTargetStatus
  pub priority : ℕ
  pub batch_limit : ℕ
  pub max_response_bytes : ℕ
  pub request_timeout_seconds : ℕ
  pub collection_mode : CollectionMode
  pub backfill_policy : Text
  pub revision_policy : Text
  pub rate_limit_group : Text
  pub retired_at : Option ℕ
  pub legacy_cursor_type : Option Text
  pub provider_contract_version : ℕ
  pub config_revision : ℕ
  pub cadence_seconds : ℕ
  pub max_requests_per_run : ℕ
  pub max_pages_per_run : ℕ
  pub max_runtime_seconds : ℕ
  pub cursor_strategy : CollectionCursorStrategy
  pub cursor_version : ℕ
  pub next_due_at : ℕ
  pub next_retry_at : Option ℕ
  pub last_attempt_at : Option ℕ
  pub last_success_at : Option ℕ
  pub consecutive_failures : ℕ
  pub health_status : CollectionTargetHealthStatus
  pub last_error_code : Option Text

-- A continuation is kept as the canonical text of its JSON object.
pub record CollectionCursor : Type 0 where
  pub id : ℕ
  pub source_account_id : ℕ
  pub target_id : Option ℕ
  pub cursor_type : Text
  pub cursor_version : ℕ
  pub run_mode : CollectionRunMode
  pub cursor_value : Option Text
  pub continuation : Option Text
  pub continuation_run_id : Option ℕ
  pub watermark_at : Option ℕ
  pub last_published_at : Option ℕ

pub record CollectionRun : Type 0 where
  pub id : ℕ
  pub source_id : ℕ
  pub source_account_id : Option ℕ
  pub target_id : Option ℕ
  pub run_mode : CollectionRunMode
  pub dispatch_identity : Option Text
  pub started_at : ℕ
  pub finished_at : Option ℕ
  pub status : CollectionRunStatus
  pub fetched_count : ℕ
  pub request_count : ℕ
  pub page_count : ℕ
  pub new_count : ℕ
  pub duplicate_count : ℕ
  pub error_count : ℕ
  pub error_code : Option Text
  pub error_message_redacted : Option Text
  pub retry_count : ℕ

-- A payload is kept as the canonical text of its JSON object.
pub record SafeFactProjection : Type 0 where
  pub id : ℕ
  pub provider : Text
  pub operation_key : Text
  pub projection_schema_version : ℕ
  pub factual_payload : Text
  pub projection_hash : Text
  pub quality_status : SafeProjectionQualityStatus
  pub processing_status : SafeProjectionProcessingStatus
  pub safe_error_code : Option Text
  pub attempt_count : ℕ
  pub next_retry_at : Option ℕ
  pub processed_at : Option ℕ
  pub created_at : ℕ
  pub updated_at : ℕ
