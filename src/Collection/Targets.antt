-- ===== src/Collection/Targets.antt =====
-- collection/target_repository.py and collection/target_configs.py: which targets are due, and the exact
-- reload of one. The registered contracts, with the validators of their configurations, and the
-- reader of a configuration's `window_mode` are parameters.

use news_collect.Base.{
  ℕ, Option, none, some, List, map, Bool, true, false, not, ◌&&◌, ◌||◌, ltb, leb, ◌==◌,
  if◌then◌else◌, any, take, keep, is_some,
}
use news_collect.Base.Order.{Text, codes, text_eq, sort_by}
use news_collect.Base.Rows.{find}
use news_collect.Db.Models.{
  Source, SourceAccount, CollectionTarget, CollectionTargetStatus, IdentityStatus, verified, active,
  CollectionCursorStrategy, CollectionMode, AuthorizationStatus, authorized, implemented,
}
use news_collect.Collection.ControlPlane.{target_key}
use news_collect.Collection.ControlPlane.Persist.{moved, first}

-- What a call of the repository does: a value, a `TargetRepositoryError`, or a `TargetConfigError`,
-- which is no `TargetRepositoryError`.
pub data Loading {ℓ} (A : Type ℓ) : Type ℓ where
  got : A → Loading A
  repository_error : Text → Loading A
  config_error : Text → Loading A

pub record OperationContract : Type 0 where
  pub provider : Text
  pub operation_key : Text
  pub operation_config_version : ℕ
  pub provider_contract_version : ℕ
  pub cursor_strategy : CollectionCursorStrategy
  pub collection_mode : CollectionMode
  pub batch_ceiling : ℕ
  pub legacy_cursor_type : Option Text
  pub pagination_capability : Text
  -- The validator, and `_reject_unsafe` before it: the configuration, or the error.
  pub validator : Text → Loading Text

pub record Rows : Type 0 where
  pub targets : List CollectionTarget
  pub sources : List Source
  pub accounts : List SourceAccount

pub record LoadedTarget : Type 0 where
  pub target : CollectionTarget
  pub source : Source
  pub account : Option SourceAccount
  pub contract : OperationContract
  pub config : Text

is_active : CollectionTargetStatus → Bool
is_active active = true
is_active _ = false

unfoldable pub is_verified : IdentityStatus → Bool
is_verified verified = true
is_verified _ = false

unfoldable pub may_collect : AuthorizationStatus → Bool
may_collect authorized = true
may_collect implemented = true
may_collect _ = false

account_fits : Option ℕ → Option SourceAccount → Source → Bool
unfolding is_verified
account_fits none none source = true
account_fits none (some account) source = false
account_fits (some k) none source = false
account_fits (some k) (some account) source =
    account.enabled && is_verified account.identity_status && account.source_id == source.id

unfoldable pub eligible : Source → Option SourceAccount → CollectionTarget → Bool
unfolding is_active may_collect account_fits
eligible source account target =
    if not source.enabled || not (may_collect source.authorization_status)
    then false
    else if not (is_active target.status)
    then false
    else account_fits target.source_account_id account source

-- `OperationRegistry.resolve`: contracts have different keys.
abbrev named : Text → Text → ℕ → ℕ → OperationContract → Bool
named provider operation config_version contract_version contract =
    text_eq contract.provider provider
    && text_eq contract.operation_key operation
    && contract.operation_config_version == config_version
    && contract.provider_contract_version == contract_version

or_unknown : Option OperationContract → Loading OperationContract
or_unknown none = config_error (codes "operation_contract_unknown")
or_unknown (some contract) = got contract

unfoldable pub resolve : List OperationContract → Text → Text → ℕ → ℕ → Loading OperationContract
unfolding or_unknown first
resolve contracts provider operation config_version contract_version =
    or_unknown (first (named provider operation config_version contract_version) contracts)

page_ceiling : OperationContract → ℕ
page_ceiling contract = if text_eq contract.pagination_capability (codes "none") then 1 else 20

outside_of : ℕ → ℕ → Bool
outside_of ceiling n = ltb n 1 || ltb ceiling n

unfoldable pub validate : OperationContract → Text → ℕ → ℕ → ℕ → Loading Text
unfolding page_ceiling outside_of
validate contract config batch_limit max_requests max_pages =
    if outside_of contract.batch_ceiling batch_limit
      || outside_of (page_ceiling contract) max_requests
      || outside_of (page_ceiling contract) max_pages
    then config_error (codes "operation_budget_invalid")
    else contract.validator config

module _ (contracts : List OperationContract) (rows : Rows) where
  abbrev source_id_of : Source → ℕ
  source_id_of source = source.id

  abbrev account_id_of : SourceAccount → ℕ
  account_id_of account = account.id

  abbrev of_source : ℕ → SourceAccount → Bool
  of_source source_id account = account.source_id == source_id

  account_of : Option ℕ → Option SourceAccount
  account_of none = none
  account_of (some k) = find account_id_of k rows.accounts

  with_config :
      CollectionTarget
      → Source
      → Option SourceAccount
      → OperationContract
      → Loading Text
      → Loading LoadedTarget
  with_config target source account contract (got config) = got (record {
    target = target;
    source = source;
    account = account;
    contract = contract;
    config = config;
  })
  with_config target source account contract (repository_error e) = repository_error e
  with_config target source account contract (config_error e) = config_error e

  with_contract :
      CollectionTarget
      → Source
      → Option SourceAccount
      → Loading OperationContract
      → Loading LoadedTarget
  unfolding with_config moved
  with_contract target source account (repository_error e) = repository_error e
  with_contract target source account (config_error e) = config_error e
  with_contract target source account (got contract) =
      if moved target.legacy_cursor_type contract.legacy_cursor_type
      then repository_error (codes "target_legacy_identity_mismatch")
      else with_config target source account contract (
          validate contract target.operation_config target.batch_limit target.max_requests_per_run
            target.max_pages_per_run)

  with_source : CollectionTarget → Option Source → Option SourceAccount → Loading LoadedTarget
  unfolding with_contract resolve
  with_source target none account = repository_error (codes "target_not_eligible")
  with_source target (some source) account =
      if not (eligible source account target)
      then repository_error (codes "target_not_eligible")
      else with_contract target source account (
          resolve contracts source.access_method target.operation_key
            target.operation_config_version target.provider_contract_version)

  load_row : Option CollectionTarget → ℕ → Loading LoadedTarget
  unfolding with_source account_of
  load_row none revision = repository_error (codes "stale_target_revision")
  load_row (some target) revision =
      if not (target.config_revision == revision)
      then repository_error (codes "stale_target_revision")
      else if not (is_some target.source_account_id)
          && any (of_source target.source_id) rows.accounts
      then repository_error (codes "source_level_target_has_accounts")
      else with_source target (find source_id_of target.source_id rows.sources)
          (account_of target.source_account_id)

  unfoldable pub load_for_execution : ℕ → ℕ → Loading LoadedTarget
  unfolding load_row
  load_for_execution target_id revision = load_row (find target_key target_id rows.targets) revision

pub record DueTarget : Type 0 where
  pub target_id : ℕ
  pub effective_due_at : ℕ
  pub priority : ℕ
  pub retry_due : Bool

-- `coalesce(next_retry_at, next_due_at)`
or_due : Option ℕ → ℕ → ℕ
or_due none due = due
or_due (some retry) due = retry

unfoldable pub due_of : CollectionTarget → DueTarget
unfolding or_due
due_of target = record {
  target_id = target.id;
  effective_due_at = or_due target.next_retry_at target.next_due_at;
  priority = target.priority;
  retry_due = is_some target.next_retry_at;
}

-- The order of the page: by the due time, the priority and the id.
unfoldable pub before : DueTarget → DueTarget → Bool
before a b =
    ltb a.effective_due_at b.effective_due_at
    || a.effective_due_at == b.effective_due_at
      && (ltb a.priority b.priority || a.priority == b.priority && ltb a.target_id b.target_id)

unfoldable pub not_after : DueTarget → DueTarget → Bool
unfolding before
not_after a b = not (before b a)

past : Option DueTarget → DueTarget → Bool
unfolding before
past none due = true
past (some last) due = before last due

-- `NOT (provider_contract_version = 2 AND window_mode = 'fixed_window')`, which is not true of a
-- second-version configuration without a `window_mode`: the comparison is NULL.
not_fixed : Bool → Option Text → Bool
not_fixed false mode = true
not_fixed true none = false
not_fixed true (some mode) = not (text_eq mode (codes "fixed_window"))

unfoldable pub is_due : (Text → Option Text) → ℕ → CollectionTarget → Bool
unfolding is_active due_of not_fixed
is_due window_mode now target =
    is_active target.status
    && leb (due_of target).effective_due_at now
    && not_fixed (target.provider_contract_version == 2) (window_mode target.operation_config)

unfoldable pub due_page :
    (Text → Option Text) → ℕ → ℕ → Option DueTarget → List CollectionTarget → List DueTarget
unfolding is_due due_of past not_after sort_by
due_page window_mode now limit after targets =
    take limit
      (sort_by not_after (keep (past after) (map due_of (keep (is_due window_mode now) targets))))
