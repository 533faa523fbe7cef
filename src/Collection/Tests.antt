-- ===== src/Collection/Tests.antt =====
-- Runs of the retry policy, the cursors, the lock and the ends of a run.
mod Dispatch
mod Lock
mod Revisions
mod Runner
mod Runs
mod Samples
use Samples.{target, started, tables}
use news_collect.Base.{
  ℕ, suc, ◌+◌, ◌*◌, ◌^◌, ◌≡◌, ◌≤◌, refl, min, max, Option, none, some, List, [], ◌∷◌, Bool, true,
  false, ◌⊎◌, All, arith, seconds,
}
use news_collect.Base.Int.{ℤ, pos}
use news_collect.Base.Order.{Text, codes}
use news_collect.Base.Rows.{find}
use news_collect.Base.Result.{ok}
use news_collect.Db.Models.{
  CollectionTarget, CollectionRun, CollectionRunStatus, running, failed, normal, succeeded, healthy,
  snapshot_watermark, strict_incremental,
}
use news_collect.Collection.Errors.{ClassifiedCollectionError, timeout, classified}
use news_collect.Collection.Retry.{RetryPolicy, delay, ceiling}
use news_collect.Collection.Retry.Bounds.{
  limit, IsUniform, delay_bounded, ceiling-suc, retries, retries_bounded,
}
use news_collect.Collection.Cursors.{CursorPosition, Stamp, after, aware, decide_cursor}
use news_collect.Collection.ControlPlane.{Tables, target_key, run_key, finish_error, retry_delay}
use news_collect.Collection.ControlPlane.Retries.{
  finish_error-exact, grants_bounded, grants, Failure,
}
use news_collect.Collection.ControlPlane.Persist.{FetchResult, persist_result, is_row_hash}
use news_collect.Collection.ControlPlane.Persist.Commits.{persist_result-commits, Paged, Ended}

abbrev policy : RetryPolicy
policy = record { max_retries = 3; base_delay = 30; max_delay = 900; max_retry_after = 1800 }

abbrev error : ClassifiedCollectionError
error = classified (λ text. text) timeout (codes "timed out") none

-- The random source that draws the upper end.
abbrev high : ℕ → ℕ → ℕ
high low up = up

high-IsUniform : IsUniform high
high-IsUniform = record { between = λ low up h. (h, omega arith) }

delay_bounded_example : delay policy error 2 high ≤ limit policy error.retry_after 2
delay_bounded_example = delay_bounded policy error 2 high high-IsUniform

ceiling-suc_example :
    (ceiling policy 1 ≤ ceiling policy 2) × (ceiling policy 2 ≡ min 900 (2 * (30 * 2 ^ 1)))
ceiling-suc_example = ceiling-suc policy 1

abbrev at_time : ℕ → CursorPosition
at_time t = record { published_at = t; provider_item_id = codes "item" }

abbrev timed_out : Text
timed_out = codes "COLLECTION_TIMEOUT"

finish_error-exact_example :
    let (again, tables') = finish_error 1 4 2 timed_out true (some (pos 5000000)) 9 tables in
    (run' : CollectionRun) × (target' : CollectionTarget) × (find run_key 2 tables'.runs
      ≡ some run')
    × (find target_key 1 tables'.targets ≡ some target')
    × (((again ≡ true)
          × (true ≡ true)
          × (1 ≤ 3)
          × (run'.status ≡ running)
          × (run'.retry_count ≡ 1)
          × (run'.retry_count ≤ 3)
          × (target'.next_retry_at ≡ some (9 + seconds (retry_delay (some (pos 5000000)))))
          × (1 ≤ retry_delay (some (pos 5000000)))
          × (retry_delay (some (pos 5000000)) ≤ 900))
        ⊎ ((again ≡ false)
            × ((true ≡ false) ⊎ (3 ≤ 0))
            × (run'.status ≡ failed)
            × (run'.finished_at ≡ some 9)
            × (run'.retry_count ≡ 0)
            × (target'.next_retry_at ≡ none)
            × (target'.next_due_at ≡ 9 + seconds 600)))
finish_error-exact_example =
    finish_error-exact 1 4 2 timed_out true (some (pos 5000000)) 9 tables refl refl refl

abbrev failure : Failure
failure = record { revision = 4; code = timed_out; retryable = true; retry_after = none; now = 9 }

abbrev failures : List Failure
failures = failure ∷ failure ∷ failure ∷ failure ∷ failure ∷ []

grants_bounded_example : 0 + grants 1 2 failures tables ≤ 3
grants_bounded_example = grants_bounded 1 2 failures tables started target refl refl (omega arith)

-- The bound is reached.
grants_test : grants 1 2 failures tables ≡ 3
unfolding finish_error
grants_test = refl

abbrev no_json : Text → Option (Text × Text)
no_json text = some (text, text)

abbrev no_date : Text → Option Stamp
no_date text = some (aware 3)

abbrev result : FetchResult
result = record {
  counts = record { fetched = 5; new = 3; duplicates = 2 };
  next_cursor = some (codes "c");
  has_more = false;
  continuation = none;
  rejected_row_hashes = [];
  coverage_incomplete = false;
}

abbrev fresh : Tables → ℕ
fresh t = 100

abbrev after_page : Tables
after_page =
    elim (persist_result no_json no_date 1 4 2 none result normal true true 9 fresh tables) [
      | ok t ↦ t
      | _ ↦ tables
    ]

persist_test :
    persist_result no_json no_date 1 4 2 none result normal true true 9 fresh tables ≡ ok after_page
unfolding persist_result decide_cursor
persist_test = refl

persist_result-commits_example :
    (target0 : CollectionTarget) × (run0 : CollectionRun) × (target' : CollectionTarget)
    × (run' : CollectionRun) × (find target_key 1 tables.targets ≡ some target0)
    × (find run_key 2 tables.runs ≡ some run0)
    × (find target_key 1 after_page.targets ≡ some target')
    × (find run_key 2 after_page.runs ≡ some run')
    × (target0.config_revision ≡ 4)
    × All (λ h. is_row_hash h ≡ true) result.rejected_row_hashes
    × Paged true result run0 run'
    × Ended true result 9 target0 run' target'
persist_result-commits_example =
    persist_result-commits no_json no_date 1 4 2 none result normal true true 9 fresh tables
      persist_test
