-- ===== src/Collection/Retry.antt =====
-- collection/retry.py: the retry policy. Delays are numbers of the clock's smallest unit; the random
-- source of the standard library is a parameter.
pub mod Bounds
use news_collect.Base.{ℕ, ◌*◌, ◌^◌, min, Option, none, some, Bool, true, false, ◌&&◌, ltb}
use news_collect.Base.Int.{ℤ, pos_part}
use news_collect.Collection.Errors.{ClassifiedCollectionError}

pub record RetryPolicy : Type 0 where
  pub max_retries : ℕ
  pub base_delay : ℕ
  pub max_delay : ℕ
  pub max_retry_after : ℕ

unfoldable pub should_retry : RetryPolicy → ClassifiedCollectionError → ℕ → Bool
should_retry policy error retry_count = error.retryable && ltb retry_count policy.max_retries

unfoldable pub ceiling : RetryPolicy → ℕ → ℕ
ceiling policy retry_count = min policy.max_delay (policy.base_delay * 2 ^ retry_count)

after : RetryPolicy → Option ℤ → ℕ → (ℕ → ℕ → ℕ) → ℕ
unfolding ceiling
after policy (some retry_after) retry_count uniform =
    min (pos_part retry_after) policy.max_retry_after
after policy none retry_count uniform = uniform 0 (ceiling policy retry_count)

-- `uniform low high` is one draw of the random source.
unfoldable pub delay : RetryPolicy → ClassifiedCollectionError → ℕ → (ℕ → ℕ → ℕ) → ℕ
unfolding after
delay policy error retry_count uniform = after policy error.retry_after retry_count uniform
