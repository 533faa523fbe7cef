-- ===== src/Collection/Errors.antt =====
-- collection/errors.py: the classified errors. The pattern substitution of the standard library is
-- a parameter.
use news_collect.Base.{ℕ, Option, Bool, true, false, take}
use news_collect.Base.Int.{ℤ}
use news_collect.Base.Order.{Text, codes}

pub data CollectionErrorCode : Type 0 where
  timeout network rate_limited upstream_5xx upstream_retryable database_unavailable lock_lost auth
        forbidden not_found contract_invalid config_invalid cancelled stale_run unknown :
      CollectionErrorCode

-- `code in RETRYABLE_CODES`
unfoldable pub is_retryable : CollectionErrorCode → Bool
is_retryable timeout = true
is_retryable network = true
is_retryable rate_limited = true
is_retryable upstream_5xx = true
is_retryable upstream_retryable = true
is_retryable database_unavailable = true
is_retryable lock_lost = true
is_retryable _ = false

-- `code.value`
unfoldable pub value : CollectionErrorCode → Text
value timeout = codes "COLLECTION_TIMEOUT"
value network = codes "COLLECTION_NETWORK"
value rate_limited = codes "COLLECTION_RATE_LIMITED"
value upstream_5xx = codes "COLLECTION_UPSTREAM_5XX"
value upstream_retryable = codes "COLLECTION_UPSTREAM_RETRYABLE"
value database_unavailable = codes "COLLECTION_DATABASE_UNAVAILABLE"
value lock_lost = codes "COLLECTION_LOCK_LOST"
value auth = codes "COLLECTION_AUTH"
value forbidden = codes "COLLECTION_FORBIDDEN"
value not_found = codes "COLLECTION_NOT_FOUND"
value contract_invalid = codes "COLLECTION_CONTRACT_INVALID"
value config_invalid = codes "COLLECTION_CONFIG_INVALID"
value cancelled = codes "COLLECTION_CANCELLED"
value stale_run = codes "COLLECTION_STALE_RUN"
value unknown = codes "COLLECTION_UNKNOWN"

-- `retry_after` is a whole number of the clock's smallest unit.
pub record ClassifiedCollectionError : Type 0 where
  pub code : CollectionErrorCode
  pub retryable : Bool
  pub retry_after : Option ℤ
  pub redacted_detail : Text

module _ (sub : Text → Text) where
  unfoldable pub redact_detail : Text → ℕ → Text
  redact_detail detail limit = take limit (sub detail)

  -- The constructor of the exception.
  unfoldable pub classified : CollectionErrorCode → Text → Option ℤ → ClassifiedCollectionError
  unfolding is_retryable redact_detail
  classified code detail retry_after = record {
    code = code;
    retryable = is_retryable code;
    retry_after = retry_after;
    redacted_detail = redact_detail detail 500;
  }
