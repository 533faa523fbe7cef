-- ===== src/Collection/Revisions/Fields.antt =====
-- The fields of a target after a revision, each said of the values that are given.
use mathlib.Core.Path.{subst}
use news_collect.Base.{ℕ, ◌+◌, ◌≡◌, refl, ap, Option, none, some, List, not, ◌||◌, arith, ◌&&◌}
use news_collect.Base.Order.{Text, codes}
use news_collect.Base.Result.{ok, err, bind-ok}
use news_collect.Db.Models.{
  Source, draft, active, paused, blocked, retired, unknown, CollectionTarget,
  CollectionTargetStatus, CollectionCursorStrategy, CollectionMode,
}
use news_collect.Collection.Targets.{OperationContract, resolve, validate}
use news_collect.Collection.ControlPlane.Persist.{moved}
use news_collect.Collection.Revisions.{Values, transition, same_status, or_current}
use news_collect.Collection.Revisions.Checks.{
  member, strategies, modes, loaded, semantics_invalid, same_strategy, same_mode, require, parsed,
  statuses, proposed_status, contract_fits,
}
use news_collect.Collection.Revisions.Revise.{revised}

-- A value that is given is taken over, else the value stays.
abbrev pub Given {ℓ} : {A : Type ℓ} → Option A → A → A → Type ℓ
Given none old new = new ≡ old
Given (some value) old new = new ≡ value

-- The same of a value that is given by its name.
abbrev pub Named {ℓ} : {A : Type ℓ} → List (Text × A) → Option Text → A → A → Type ℓ
Named members none old new = new ≡ old
Named members (some name) old new = member members name ≡ some new

abbrev retirement : CollectionTargetStatus → ℕ → Option ℕ
retirement retired now = some now
retirement _ now = none

-- What a revision makes of a target: the given values, the next revision, due now and without a retry, its
-- health not yet known. No other field changes.
pub record Becomes (values : Values) (expected now : ℕ) (old new : CollectionTarget) : Type 0 where
  pub status : Named statuses values.status old.status new.status
  pub cursor_strategy :
      Named strategies values.cursor_strategy old.cursor_strategy new.cursor_strategy
  pub collection_mode : Named modes values.collection_mode old.collection_mode new.collection_mode
  pub operation_config : Given values.operation_config old.operation_config new.operation_config
  pub operation_config_version :
      Given values.operation_config_version old.operation_config_version
        new.operation_config_version
  pub provider_contract_version :
      Given values.provider_contract_version old.provider_contract_version
        new.provider_contract_version
  pub cadence_seconds : Given values.cadence_seconds old.cadence_seconds new.cadence_seconds
  pub batch_limit : Given values.batch_limit old.batch_limit new.batch_limit
  pub max_requests_per_run :
      Given values.max_requests_per_run old.max_requests_per_run new.max_requests_per_run
  pub max_pages_per_run : Given values.max_pages_per_run old.max_pages_per_run new.max_pages_per_run
  pub max_response_bytes :
      Given values.max_response_bytes old.max_response_bytes new.max_response_bytes
  pub request_timeout_seconds :
      Given values.request_timeout_seconds old.request_timeout_seconds new.request_timeout_seconds
  pub max_runtime_seconds :
      Given values.max_runtime_seconds old.max_runtime_seconds new.max_runtime_seconds
  pub cursor_version : Given values.cursor_version old.cursor_version new.cursor_version
  pub backfill_policy : Given values.backfill_policy old.backfill_policy new.backfill_policy
  pub revision_policy : Given values.revision_policy old.revision_policy new.revision_policy
  pub rate_limit_group : Given values.rate_limit_group old.rate_limit_group new.rate_limit_group
  pub priority : Given values.priority old.priority new.priority
  pub config_revision : new.config_revision ≡ expected + 1
  pub health_status : new.health_status ≡ unknown
  pub retired_at : new.retired_at ≡ retirement new.status now
  pub next_retry_at : new.next_retry_at ≡ none
  pub next_due_at : new.next_due_at ≡ now
  pub no_other : new ≡ record old {
    operation_config = new.operation_config;
    operation_config_version = new.operation_config_version;
    provider_contract_version = new.provider_contract_version;
    status = new.status;
    cadence_seconds = new.cadence_seconds;
    batch_limit = new.batch_limit;
    max_requests_per_run = new.max_requests_per_run;
    max_pages_per_run = new.max_pages_per_run;
    max_response_bytes = new.max_response_bytes;
    request_timeout_seconds = new.request_timeout_seconds;
    max_runtime_seconds = new.max_runtime_seconds;
    cursor_strategy = new.cursor_strategy;
    cursor_version = new.cursor_version;
    collection_mode = new.collection_mode;
    backfill_policy = new.backfill_policy;
    revision_policy = new.revision_policy;
    rate_limit_group = new.rate_limit_group;
    priority = new.priority;
    config_revision = new.config_revision;
    health_status = new.health_status;
    retired_at = new.retired_at;
    next_retry_at = new.next_retry_at;
    next_due_at = new.next_due_at;
  }

or_current-Given {ℓ} : {A : Type ℓ} (o : Option A) (old : A) → Given o old (or_current o old)
or_current-Given none old = refl
or_current-Given (some value) old = refl

named-ok {ℓ} :
    {A : Type ℓ} (o : Option A) (code : Text) {new : A}
    → (elim o [ none ↦ err code | some a ↦ ok a ]) ≡ ok new
    → o ≡ some new
named-ok none code {new} h = cc
named-ok (some a) code {new} h = cc

parsed-Named {ℓ} :
    {A : Type ℓ} (members : List (Text × A)) (o : Option Text) (old : A) (code : Text) {new : A}
    → parsed members o old code ≡ ok new
    → Named members o old new
unfolding parsed
parsed-Named members none old code {new} h = cc
parsed-Named members (some name) old code {new} h = named-ok (member members name) code h

retired-retirement :
    (values : Values) (proposed : CollectionTargetStatus)
    (semantics : CollectionCursorStrategy × CollectionMode) (expected now : ℕ)
    (current : CollectionTarget)
    → (revised values proposed semantics expected now current).retired_at ≡ retirement proposed now
unfolding revised
retired-retirement values draft semantics expected now current = refl
retired-retirement values active semantics expected now current = refl
retired-retirement values paused semantics expected now current = refl
retired-retirement values blocked semantics expected now current = refl
retired-retirement values retired semantics expected now current = refl

pub revised-Becomes :
    (values : Values) (proposed : CollectionTargetStatus)
    (semantics : CollectionCursorStrategy × CollectionMode) (expected now : ℕ)
    (current : CollectionTarget)
    → Named statuses values.status current.status proposed
    → Named strategies values.cursor_strategy current.cursor_strategy semantics.0
    → Named modes values.collection_mode current.collection_mode semantics.1
    → Becomes values expected now current (revised values proposed semantics expected now current)
unfolding revised
revised-Becomes values proposed semantics expected now current s c m = record {
  status = s;
  cursor_strategy = c;
  collection_mode = m;
  operation_config = or_current-Given values.operation_config current.operation_config;
  operation_config_version =
      or_current-Given values.operation_config_version current.operation_config_version;
  provider_contract_version =
      or_current-Given values.provider_contract_version current.provider_contract_version;
  cadence_seconds = or_current-Given values.cadence_seconds current.cadence_seconds;
  batch_limit = or_current-Given values.batch_limit current.batch_limit;
  max_requests_per_run = or_current-Given values.max_requests_per_run current.max_requests_per_run;
  max_pages_per_run = or_current-Given values.max_pages_per_run current.max_pages_per_run;
  max_response_bytes = or_current-Given values.max_response_bytes current.max_response_bytes;
  request_timeout_seconds =
      or_current-Given values.request_timeout_seconds current.request_timeout_seconds;
  max_runtime_seconds = or_current-Given values.max_runtime_seconds current.max_runtime_seconds;
  cursor_version = or_current-Given values.cursor_version current.cursor_version;
  backfill_policy = or_current-Given values.backfill_policy current.backfill_policy;
  revision_policy = or_current-Given values.revision_policy current.revision_policy;
  rate_limit_group = or_current-Given values.rate_limit_group current.rate_limit_group;
  priority = or_current-Given values.priority current.priority;
  config_revision = refl;
  health_status = refl;
  retired_at = retired-retirement values proposed semantics expected now current;
  next_retry_at = refl;
  next_due_at = refl;
  no_other = refl;
}

pub proposed_status-Named :
    (value : Option Text) (current : CollectionTargetStatus) {proposed : CollectionTargetStatus}
    → proposed_status value current ≡ ok proposed
    → Named statuses value current proposed
unfolding proposed_status
proposed_status-Named value current {proposed} h =
    let (p, one, rest) =
      bind-ok (parsed statuses value current (codes "target_status_invalid")) _ h in
    let (u, two, last) =
      bind-ok
        (require (same_status p current || transition current p)
          (codes "target_status_transition_invalid"))
        _ rest in
    let same : p ≡ proposed = ground arith in
    subst (Named statuses value current) same
      (parsed-Named statuses value current (codes "target_status_invalid") {new = p} one)

pub contract_fits-Named :
    (contracts : List OperationContract) (source : Source) (current : CollectionTarget)
    (values : Values) {semantics : CollectionCursorStrategy × CollectionMode}
    → contract_fits contracts source current values ≡ ok semantics
    → Named strategies values.cursor_strategy current.cursor_strategy semantics.0
      × Named modes values.collection_mode current.collection_mode semantics.1
unfolding contract_fits
contract_fits-Named contracts source current values {semantics} h =
    let (contract, e0, h0) =
      bind-ok
        (loaded (
          resolve contracts source.access_method current.operation_key
            (or_current values.operation_config_version current.operation_config_version)
            (or_current values.provider_contract_version current.provider_contract_version)))
        _ h in
    let (legacy, e1, h1) =
      bind-ok
        (require (not (moved current.legacy_cursor_type contract.legacy_cursor_type))
          (codes "target_legacy_identity_mismatch"))
        _ h0 in
    let (config, e2, h2) =
      bind-ok
        (loaded (
          validate contract (or_current values.operation_config current.operation_config)
            (or_current values.batch_limit current.batch_limit)
            (or_current values.max_requests_per_run current.max_requests_per_run)
            (or_current values.max_pages_per_run current.max_pages_per_run)))
        _ h1 in
    let (strategy, e3, h3) =
      bind-ok (parsed strategies values.cursor_strategy current.cursor_strategy semantics_invalid) _
        h2 in
    let (mode, e4, h4) =
      bind-ok (parsed modes values.collection_mode current.collection_mode semantics_invalid) _
        h3 in
    let (same, e5, h5) =
      bind-ok
        (require
          (same_strategy strategy contract.cursor_strategy
            && same_mode mode contract.collection_mode)
          semantics_invalid)
        _ h4 in
    let at : (strategy, mode) ≡ semantics = ok-same h5 in
    (
      subst (Named strategies values.cursor_strategy current.cursor_strategy)
          (ap (λ (s : CollectionCursorStrategy × CollectionMode). s.0) at)
          (parsed-Named strategies values.cursor_strategy current.cursor_strategy semantics_invalid
            {new = strategy} e3),
      subst (Named modes values.collection_mode current.collection_mode)
          (ap (λ (s : CollectionCursorStrategy × CollectionMode). s.1) at)
          (parsed-Named modes values.collection_mode current.collection_mode semantics_invalid
            {new = mode} e4),
    )
  where
    ok-same : {a b : CollectionCursorStrategy × CollectionMode} → ok a ≡ ok b → a ≡ b
    ok-same k = cc
