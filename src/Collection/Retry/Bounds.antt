-- ===== src/Collection/Retry/Bounds.antt =====
-- The number and the length of the waits.
use native.Mathlib.Nat.{pow-suc}
use news_collect.Base.{
  ℕ, suc, ◌+◌, ◌*◌, ◌^◌, ◌≤◌, ◌≡◌, min, Option, none, some, true, false, List, [], ◌∷◌, arith,
  Bool-cases, inl, inr,
}
use news_collect.Base.Int.{ℤ, pos, negsuc}
use news_collect.Collection.Errors.{ClassifiedCollectionError}
use news_collect.Collection.Retry.{RetryPolicy, should_retry, ceiling, delay, after}

-- A draw of `Random.uniform(low, high)` lies between its ends.
pub record IsUniform (uniform : ℕ → ℕ → ℕ) : Type 0 where
  pub between : (low high : ℕ) → low ≤ high → (low ≤ uniform low high) × (uniform low high ≤ high)

-- The limit of a wait: the policy's own and that of the exponential backoff without a `retry_after`,
-- else the policy's limit for `retry_after` and that time itself, if it is not negative.
abbrev pub limit : RetryPolicy → Option ℤ → ℕ → ℕ
limit policy none n = min policy.max_delay (policy.base_delay * 2 ^ n)
limit policy (some (pos t)) n = min policy.max_retry_after t
limit policy (some (negsuc t)) n = 0

after_bounded :
    (policy : RetryPolicy) (o : Option ℤ) (n : ℕ) (uniform : ℕ → ℕ → ℕ)
    → IsUniform uniform
    → after policy o n uniform ≤ limit policy o n
unfolding delay ceiling
after_bounded policy none n uniform u = omega (arith, u.between 0 (ceiling policy n) (omega arith))
after_bounded policy (some (pos t)) n uniform u = omega arith
after_bounded policy (some (negsuc t)) n uniform u = omega arith

-- A wait without a `retry_after` is at most `max_delay` and at most `base_delay` doubled once for each
-- earlier retry. One with a `retry_after` is at most `max_retry_after` and at most that time, and none at all if it is
-- negative.
pub delay_bounded :
    (policy : RetryPolicy) (error : ClassifiedCollectionError) (n : ℕ) (uniform : ℕ → ℕ → ℕ)
    → IsUniform uniform
    → delay policy error n uniform ≤ limit policy error.retry_after n
unfolding delay
delay_bounded policy error n uniform u = after_bounded policy error.retry_after n uniform u

-- The ceiling of the random wait never falls from one retry to the next, and is the one limit from
-- the moment that it reaches it.
pub ceiling-suc :
    (policy : RetryPolicy) (n : ℕ)
    → (ceiling policy n ≤ ceiling policy (suc n))
      × (ceiling policy (suc n) ≡ min policy.max_delay (2 * (policy.base_delay * 2 ^ n)))
unfolding ceiling
ceiling-suc policy n = rw pow-suc (grind arith, grind arith)

-- A run whose attempts all fail with the errors of the list, from the attempt of that number on: how
-- often it is tried again.
abbrev pub retries : RetryPolicy → List ClassifiedCollectionError → ℕ → ℕ
retries policy [] n = 0
retries policy (error ∷ errors) n =
    let rest = retries policy errors (suc n) in
    elim (should_retry policy error n) [ true ↦ suc rest | false ↦ 0 ]

retries_from :
    (policy : RetryPolicy) (errors : List ClassifiedCollectionError) (n : ℕ)
    → n ≤ policy.max_retries
    → n + retries policy errors n ≤ policy.max_retries
unfolding should_retry
retries_from policy [] n h = omega arith
retries_from policy (error ∷ errors) n h = elim (Bool-cases (should_retry policy error n)) [
  | inl again ↦ ground (arith, again, retries_from policy errors (suc n) (ground arith))
  | inr stop ↦ ground (arith, stop)
]

-- However many errors follow one another, a run is tried again at most `max_retries` times.
pub retries_bounded :
    (policy : RetryPolicy) (errors : List ClassifiedCollectionError)
    → retries policy errors 0 ≤ policy.max_retries
retries_bounded policy errors = omega (arith, retries_from policy errors 0 (omega arith))
