-- ===== src/Collection/Revisions/Revise.antt =====
-- The transactions `revise` and `pause_for_continuation_abandon`.
use news_collect.Base.{ℕ, ◌+◌, Option, none, some, List, [], ◌∷◌, ◌++◌, not, any}
use news_collect.Base.Order.{codes}
use news_collect.Base.Rows.{find, modify}
use news_collect.Base.Result.{Result, ok, err, ◌>>=◌}
use news_collect.Db.Models.{
  CollectionTarget, CollectionTargetStatus, active, paused, retired, CollectionCursorStrategy,
  CollectionMode, unknown,
}
use news_collect.Collection.ControlPlane.{target_key}
use news_collect.Collection.Targets.{OperationContract}
use news_collect.Collection.Revisions.{Values, Repository, same_status, or_current}
use news_collect.Collection.Revisions.Checks.{
  require, fields_allowed, at_revision, quiescent, proposed_status, found, contract_fits,
  budgets_fit, activation, runs_now, same_strategy, same_mode,
}

retired_time : CollectionTargetStatus → ℕ → Option ℕ
retired_time retired now = some now
retired_time _ now = none

unfoldable pub revised :
    Values
    → CollectionTargetStatus
    → CollectionCursorStrategy × CollectionMode
    → ℕ
    → ℕ
    → CollectionTarget
    → CollectionTarget
unfolding retired_time
revised values proposed (strategy, mode) expected now current = record current {
  operation_config = or_current values.operation_config current.operation_config;
  operation_config_version =
      or_current values.operation_config_version current.operation_config_version;
  provider_contract_version =
      or_current values.provider_contract_version current.provider_contract_version;
  status = proposed;
  cadence_seconds = or_current values.cadence_seconds current.cadence_seconds;
  batch_limit = or_current values.batch_limit current.batch_limit;
  max_requests_per_run = or_current values.max_requests_per_run current.max_requests_per_run;
  max_pages_per_run = or_current values.max_pages_per_run current.max_pages_per_run;
  max_response_bytes = or_current values.max_response_bytes current.max_response_bytes;
  request_timeout_seconds =
      or_current values.request_timeout_seconds current.request_timeout_seconds;
  max_runtime_seconds = or_current values.max_runtime_seconds current.max_runtime_seconds;
  cursor_strategy = strategy;
  cursor_version = or_current values.cursor_version current.cursor_version;
  collection_mode = mode;
  backfill_policy = or_current values.backfill_policy current.backfill_policy;
  revision_policy = or_current values.revision_policy current.revision_policy;
  rate_limit_group = or_current values.rate_limit_group current.rate_limit_group;
  priority = or_current values.priority current.priority;
  config_revision = expected + 1;
  health_status = unknown;
  retired_at = retired_time proposed now;
  next_retry_at = none;
  next_due_at = now;
}

-- `revise`: the new revision.
unfoldable pub revise :
    List OperationContract → ℕ → ℕ → Values → ℕ → Repository → Result (ℕ × Repository)
unfolding fields_allowed at_revision quiescent proposed_status found contract_fits budgets_fit
    activation same_status same_strategy same_mode
revise contracts target_id expected values now rows = do
  fields ← fields_allowed values.others
  current ← at_revision (find target_key target_id rows.targets) expected
  idle ← quiescent target_id rows
  proposed ← proposed_status values.status current.status
  source ← found (find (λ s. s.id) current.source_id rows.sources) (codes "target_source_not_found")
  semantics ← contract_fits contracts source current values
  budgets ← budgets_fit values current
  usable ← activation proposed source current rows
  ok (
    expected + 1,
    record rows {
      targets =
          modify target_key target_id (revised values proposed semantics expected now) rows.targets;
      audits =
          rows.audits
          ++ record {
            action = codes "collection_target_revised";
            target_id = target_id;
            before = expected;
            after = expected + 1;
            status = proposed;
          }
            ∷ [];
    },
  )

-- `pause_for_continuation_abandon`
unfoldable pub paused_target : CollectionTarget → CollectionTarget
paused_target current = record current { status = paused; next_retry_at = none }

unfoldable pub paused_rows :
    CollectionTargetStatus → CollectionTarget → Repository → Result Repository
unfolding paused_target
paused_rows paused current rows = ok rows
paused_rows active current rows = ok (record rows {
  targets = modify target_key current.id (λ old. paused_target current) rows.targets;
  audits =
      rows.audits
      ++ record {
        action = codes "collection_target_paused_for_continuation_abandon";
        target_id = current.id;
        before = current.config_revision;
        after = current.config_revision;
        status = paused;
      }
        ∷ [];
})
paused_rows _ current rows = err (codes "target_abandon_pause_invalid")

unfoldable pub pause_for_continuation_abandon : ℕ → ℕ → Repository → Result Repository
unfolding at_revision require paused_rows
pause_for_continuation_abandon target_id expected rows = do
  current ← at_revision (find target_key target_id rows.targets) expected
  idle ← require (not (any (runs_now target_id) rows.runs)) (codes "target_revision_in_flight")
  paused_rows current.status current rows
