-- ===== src/Collection/Revisions.antt =====
-- collection/target_repository.py, `TargetRepository.revise` and `pause_for_continuation_abandon`: the
-- changes of a target's configuration, each under the revision that its author has read. The value
-- of a change that is a number is not negative.
pub mod Checks
pub mod Revise
pub mod Fields
pub mod Guards
pub mod Status
use news_collect.Base.{
  ℕ, ◌+◌, ◌≡◌, Option, none, some, List, [], ◌∷◌, ◌++◌, Bool, true, false, not, ◌&&◌, ◌||◌, ltb,
  leb, ◌==◌, if◌then◌else◌, any, length, is_some,
}
use news_collect.Base.Order.{Text, codes, text_eq}
use news_collect.Base.Rows.{find, modify}
use news_collect.Base.Result.{Result, ok, err, ◌>>=◌}
use news_collect.Db.Models.{
  Source, SourceAccount, CollectionTarget, CollectionRun, CollectionCursor, CollectionTargetStatus,
  draft, active, paused, blocked, retired, CollectionCursorStrategy, strict_incremental,
  snapshot_watermark, page_token, date_window, compound, revision, CollectionMode, incremental,
  snapshot, unknown,
}
use news_collect.Collection.ControlPlane.{target_key}
use news_collect.Collection.ControlPlane.Persist.{moved, same_target, or_none}
use news_collect.Collection.ControlPlane.Start.{is_running}
use news_collect.Collection.Targets.{
  Loading, got, repository_error, config_error, OperationContract, resolve, validate, may_collect,
  is_verified,
}

-- The mapping of the changes: its keys are those of the allowed set that have a value here, and the
-- others.
pub record Values : Type 0 where
  pub operation_config : Option Text
  pub operation_config_version : Option ℕ
  pub provider_contract_version : Option ℕ
  pub status : Option Text
  pub cadence_seconds : Option ℕ
  pub batch_limit : Option ℕ
  pub max_requests_per_run : Option ℕ
  pub max_pages_per_run : Option ℕ
  pub max_response_bytes : Option ℕ
  pub request_timeout_seconds : Option ℕ
  pub max_runtime_seconds : Option ℕ
  pub cursor_strategy : Option Text
  pub cursor_version : Option ℕ
  pub collection_mode : Option Text
  pub backfill_policy : Option Text
  pub revision_policy : Option Text
  pub rate_limit_group : Option Text
  pub priority : Option ℕ
  pub others : List Text

pub record AuditLog : Type 0 where
  pub action : Text
  pub target_id : ℕ
  pub before : ℕ
  pub after : ℕ
  pub status : CollectionTargetStatus

pub record Repository : Type 0 where
  pub targets : List CollectionTarget
  pub sources : List Source
  pub accounts : List SourceAccount
  pub runs : List CollectionRun
  pub cursors : List CollectionCursor
  pub audits : List AuditLog

-- `_TRANSITIONS`
unfoldable pub transition : CollectionTargetStatus → CollectionTargetStatus → Bool
transition draft paused = true
transition draft blocked = true
transition paused active = true
transition paused blocked = true
transition paused retired = true
transition active paused = true
transition active blocked = true
transition active retired = true
transition blocked paused = true
transition blocked retired = true
transition _ _ = false

unfoldable pub same_status : CollectionTargetStatus → CollectionTargetStatus → Bool
same_status draft draft = true
same_status active active = true
same_status paused paused = true
same_status blocked blocked = true
same_status retired retired = true
same_status _ _ = false

-- `safe.get(key, current)`
abbrev pub or_current {ℓ} : {A : Type ℓ} → Option A → A → A
or_current none a = a
or_current (some b) a = b
