-- ===== src/Collection/Revisions/Checks.antt =====
-- The checks of a revision: its fields, the state of the target, the contract and the budgets.
use news_collect.Base.{
  ℕ, Option, none, some, List, [], ◌∷◌, Bool, true, false, not, ◌&&◌, ◌||◌, leb, ◌==◌,
  if◌then◌else◌, any, length, is_some,
}
use news_collect.Base.Order.{Text, codes, text_eq}
use news_collect.Base.Rows.{find}
use news_collect.Base.Result.{Result, ok, err, ◌>>=◌}
use news_collect.Db.Models.{
  Source, SourceAccount, CollectionTarget, CollectionRun, CollectionCursor, CollectionTargetStatus,
  draft, active, paused, blocked, retired, CollectionCursorStrategy, strict_incremental,
  snapshot_watermark, page_token, date_window, compound, revision, CollectionMode, incremental,
  snapshot,
}
use news_collect.Collection.ControlPlane.Persist.{moved, same_target, or_none}
use news_collect.Collection.ControlPlane.Start.{is_running}
use news_collect.Collection.Targets.{
  Loading, got, repository_error, config_error, OperationContract, resolve, validate, may_collect,
  is_verified,
}
use news_collect.Collection.Revisions.{Values, Repository, transition, same_status, or_current}

-- `CollectionTargetStatus(value)` and the like: the member of that value.
pub member {ℓ} : {A : Type ℓ} → List (Text × A) → Text → Option A
member [] value = none
member ((name, a) ∷ members) value = if text_eq name value then some a else member members value

abbrev pub statuses : List (Text × CollectionTargetStatus)
statuses =
    (codes "draft", draft)
    ∷ (codes "active", active)
    ∷ (codes "paused", paused)
    ∷ (codes "blocked", blocked)
    ∷ (codes "retired", retired)
    ∷ []

abbrev pub strategies : List (Text × CollectionCursorStrategy)
strategies =
    (codes "strict_incremental", strict_incremental)
    ∷ (codes "snapshot_watermark", snapshot_watermark)
    ∷ (codes "page_token", page_token)
    ∷ (codes "date_window", date_window)
    ∷ (codes "compound", compound)
    ∷ (codes "revision", revision)
    ∷ []

abbrev pub modes : List (Text × CollectionMode)
modes = (codes "incremental", incremental) ∷ (codes "snapshot", snapshot) ∷ []

unfoldable pub same_strategy : CollectionCursorStrategy → CollectionCursorStrategy → Bool
same_strategy strict_incremental strict_incremental = true
same_strategy snapshot_watermark snapshot_watermark = true
same_strategy page_token page_token = true
same_strategy date_window date_window = true
same_strategy compound compound = true
same_strategy revision revision = true
same_strategy _ _ = false

unfoldable pub same_mode : CollectionMode → CollectionMode → Bool
same_mode incremental incremental = true
same_mode snapshot snapshot = true
same_mode _ _ = false

-- `if not test: raise TargetRepositoryError(code)`
unfoldable pub require : Bool → Text → Result {0} Unit
require true code = ok tt
require false code = err code

unfoldable pub parsed {ℓ} : {A : Type ℓ} → List (Text × A) → Option Text → A → Text → Result A
unfolding member
parsed members none current code = ok current
parsed members (some value) current code = elim (member members value) [
  | none ↦ err code
  | some a ↦ ok a
]

abbrev forbidden : List Text
forbidden =
    codes "id"
    ∷ codes "target_key"
    ∷ codes "source_id"
    ∷ codes "source_account_id"
    ∷ codes "operation_key"
    ∷ codes "legacy_cursor_type"
    ∷ codes "created_at"
    ∷ []

among : List Text → Text → Bool
among names name = any (text_eq name) names

unfoldable pub fields_allowed : List Text → Result {0} Unit
unfolding require among
fields_allowed others = do
  fixed ← require (not (any (among forbidden) others)) (codes "target_identity_immutable")
  require (length others == 0) (codes "target_revision_fields_invalid")

unfoldable pub at_revision : Option CollectionTarget → ℕ → Result CollectionTarget
at_revision none expected = err (codes "target_revision_conflict")
at_revision (some current) expected =
    if current.config_revision == expected
    then ok current
    else err (codes "target_revision_conflict")

unfoldable pub runs_now : ℕ → CollectionRun → Bool
runs_now target_id run = same_target run.target_id target_id && is_running run.status

unfoldable pub pends : ℕ → CollectionCursor → Bool
pends target_id cursor =
    same_target cursor.target_id target_id && is_some (or_none cursor.continuation)

-- No run of the target is RUNNING, and no continuation of it is pending.
unfoldable pub quiescent : ℕ → Repository → Result {0} Unit
unfolding require
quiescent target_id rows = do
  idle ← require (not (any (runs_now target_id) rows.runs)) (codes "target_revision_in_flight")
  require (not (any (pends target_id) rows.cursors)) (codes "target_revision_pending_continuation")

unfoldable pub proposed_status :
    Option Text → CollectionTargetStatus → Result CollectionTargetStatus
unfolding parsed require
proposed_status value current = do
  proposed ← parsed statuses value current (codes "target_status_invalid")
  allowed ←
      require (same_status proposed current || transition current proposed)
        (codes "target_status_transition_invalid")
  ok proposed

pub loaded {ℓ} : {A : Type ℓ} → Loading A → Result A
loaded (got a) = ok a
loaded (repository_error code) = err code
loaded (config_error code) = err code

unfoldable pub found {ℓ} : {A : Type ℓ} → Option A → Text → Result A
found none code = err code
found (some a) code = ok a

pub semantics_invalid : Text
semantics_invalid = codes "target_operation_semantics_invalid"

-- The contract of the revised target, its configuration and its semantics.
unfoldable pub contract_fits :
    List OperationContract
    → Source
    → CollectionTarget
    → Values
    → Result (CollectionCursorStrategy × CollectionMode)
unfolding loaded parsed require resolve validate moved semantics_invalid
contract_fits contracts source current values = do
  contract ← loaded (
      resolve contracts source.access_method current.operation_key
        (or_current values.operation_config_version current.operation_config_version)
        (or_current values.provider_contract_version current.provider_contract_version))
  legacy ←
      require (not (moved current.legacy_cursor_type contract.legacy_cursor_type))
        (codes "target_legacy_identity_mismatch")
  config ← loaded (
      validate contract (or_current values.operation_config current.operation_config)
        (or_current values.batch_limit current.batch_limit)
        (or_current values.max_requests_per_run current.max_requests_per_run)
        (or_current values.max_pages_per_run current.max_pages_per_run))
  strategy ← parsed strategies values.cursor_strategy current.cursor_strategy semantics_invalid
  mode ← parsed modes values.collection_mode current.collection_mode semantics_invalid
  same ←
      require
        (same_strategy strategy contract.cursor_strategy && same_mode mode contract.collection_mode)
        semantics_invalid
  ok (strategy, mode)

-- `[a-z0-9][a-z0-9:._-]{0,159}`
is_lower_digit : ℕ → Bool
is_lower_digit c = leb 97 c && leb c 122 || leb 48 c && leb c 57

in_group : ℕ → Bool
unfolding is_lower_digit
in_group c = is_lower_digit c || c == 58 || c == 46 || c == 95 || c == 45

abbrev outside_group : ℕ → Bool
outside_group c = not (in_group c)

group_valid : Text → Bool
unfolding in_group is_lower_digit
group_valid [] = false
group_valid (c ∷ rest) = is_lower_digit c && not (any outside_group rest) && leb (length rest) 159

unfoldable pub budgets_fit : Values → CollectionTarget → Result {0} Unit
unfolding require group_valid
budgets_fit values current =
    let timeout = or_current values.request_timeout_seconds current.request_timeout_seconds in
    let runtime = or_current values.max_runtime_seconds current.max_runtime_seconds in
    let bytes = or_current values.max_response_bytes current.max_response_bytes in
    let cadence = or_current values.cadence_seconds current.cadence_seconds in
    do
      group ←
          require (group_valid (or_current values.rate_limit_group current.rate_limit_group))
            (codes "target_rate_limit_group_invalid")
      times ←
          require (leb 1 timeout && leb timeout 60 && leb timeout runtime && leb runtime 900)
            (codes "target_budget_invalid")
      require (leb 1024 bytes && leb bytes 10000000 && leb 1 cadence && leb cadence 86400)
          (codes "target_budget_invalid")

abbrev account_of_source : ℕ → SourceAccount → Bool
account_of_source source_id account = account.source_id == source_id

abbrev account_id_of : SourceAccount → ℕ
account_id_of account = account.id

-- An account that is not there is not tested here.
account_usable : Option SourceAccount → Source → Bool
unfolding is_verified
account_usable none source = true
account_usable (some account) source =
    account.enabled && is_verified account.identity_status && account.source_id == source.id

named_account : Option ℕ → ℕ → Repository → Result (Option SourceAccount)
named_account (some k) source_id rows = ok (find account_id_of k rows.accounts)
named_account none source_id rows =
    if any (account_of_source source_id) rows.accounts
    then err (codes "source_level_target_has_accounts")
    else ok none

unfoldable pub activation :
    CollectionTargetStatus → Source → CollectionTarget → Repository → Result {0} Unit
unfolding named_account account_usable require may_collect
activation active source current rows = do
  account ← named_account current.source_account_id current.source_id rows
  require
      (source.enabled && may_collect source.authorization_status && account_usable account source)
      (codes "target_not_eligible")
activation _ source current rows = ok tt
