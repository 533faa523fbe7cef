-- ===== src/Scheduler/Tests.antt =====
-- Runs of the four-provider cycle and of its message claims.
use news_collect.Base.{
  ℕ, suc, ◌+◌, ◌≡◌, refl, Option, none, some, List, [], ◌∷◌, ◌++◌, if◌then◌else◌, true, ◌==◌,
  length,
}
use news_collect.Base.Order.{Text, codes, text_eq}
use news_collect.Base.Result.{ok}
use news_collect.Db.Models.{Notification}
use news_collect.Feed.{ProviderDisplayItem}
use news_collect.Scheduler.Formatter.{format}
use news_collect.Scheduler.Reliable.{claim_new}
use news_collect.Scheduler.Reliable.Once.{claim_new-once}
use news_collect.Scheduler.Cycle
use news_collect.Scheduler.Cycle.{
  ProviderScheduleReport, MultiProviderScheduleSummary, ProviderCycleResult, OverallStatus, run,
  provider_order, went_wrong,
}
use news_collect.Scheduler.Cycle.Isolation.{Summarizes, run-Summarizes}

abbrev id_text : ℕ → Text
id_text k = k ∷ []

abbrev fresh : List Notification → ℕ
fresh table = suc (length table)

abbrev item : ProviderDisplayItem
item = record {
  content_item_id = 7;
  provider = codes "eia";
  title = codes "Weekly stocks";
  source = codes "EIA";
  published_at = 3;
  canonical_url = none;
}

abbrev items : List ProviderDisplayItem
items = item ∷ item ∷ []

abbrev claimed : List Notification
claimed = (claim_new id_text fresh (codes "eia") 9 items []).2

claim_new-once_example : claim_new id_text fresh (codes "eia") 20 items claimed ≡ ([], [], claimed)
claim_new-once_example = claim_new-once id_text fresh (codes "eia") 9 20 items []

-- The same content twice in one call gives one row.
claim_new_test : length claimed ≡ 1
unfolding claim_new text_eq
claim_new_test = refl

abbrev message : Text
message =
    codes "Official energy data: Weekly stocks"
    ++ 10 ∷ codes "Source: EIA"
    ++ 10 ∷ codes "Time: "
    ++ 3 ∷ []

format_test : format id_text (item ∷ []) ≡ ok message
unfolding format text_eq
format_test = refl

-- Every provider runs well but for the second, which raises; each delivery fails.
abbrev executor : Text → Option (ℕ → Option ProviderCycleResult × ℕ)
executor provider = some (λ w. (
  if w == 1
      then none
      else some (record {
        provider = provider;
        status = Cycle.pass;
        collection_status = codes "succeeded";
        raw_item_count = 1;
        evidence_item_count = 1;
        content_item_count = 1;
        items = items;
        safe_errors = [];
      }),
  w + 1,
))

abbrev healthy : Text → Option (ℕ → Option ProviderCycleResult × ℕ)
healthy provider = some (λ w. (
  some (record {
    provider = provider;
    status = Cycle.pass;
    collection_status = codes "succeeded";
    raw_item_count = 1;
    evidence_item_count = 1;
    content_item_count = 1;
    items = items;
    safe_errors = [];
  }),
  w + 1,
))

abbrev failing : Text → List ProviderDisplayItem → ℕ → Option (ℕ × ℕ × List Text) × ℕ
failing provider shown w = (some (0, length shown, codes "telegram_delivery_failed" ∷ []), w)

abbrev no_retries : ℕ → Option (ℕ × ℕ × ℕ) × ℕ
no_retries w = (some (0, 0, 0), w)

abbrev some_report : ProviderScheduleReport
some_report = record {
  provider = [];
  status = Cycle.failed;
  collection_status = [];
  raw_item_count = 0;
  evidence_item_count = 0;
  content_item_count = 0;
  sent_count = 0;
  failed_count = 0;
  safe_errors = [];
  delivery_status = Cycle.failed;
  delivery_safe_errors = [];
}

abbrev of_cycle : Option MultiProviderScheduleSummary → MultiProviderScheduleSummary
of_cycle (some summary) = summary
of_cycle none = record {
  status = Cycle.OverallStatus.pass;
  providers = some_report ∷ [];
  retry_sent_count = 0;
  retry_failed_count = 0;
  retry_exhausted_count = 0;
  delivery_status = Cycle.failed;
}

abbrev cycle : MultiProviderScheduleSummary
cycle = of_cycle (run executor true failing no_retries 0).0

cycle_test : (run executor true failing no_retries 0).0 ≡ some cycle
unfolding run Cycle.run_providers Cycle.run_provider
cycle_test = refl

run-Summarizes_example : Summarizes executor true failing no_retries cycle
run-Summarizes_example = run-Summarizes executor true failing no_retries 0 cycle cycle_test

-- A provider that raises makes the cycle PARTIAL.
partial_test : cycle.status ≡ Cycle.OverallStatus.partial
unfolding run Cycle.overall Cycle.run_providers Cycle.run_provider
partial_test = refl

-- Four providers whose new messages all fail: the cycle is PASS.
undelivered_test :
    (of_cycle (run healthy true failing no_retries 0).0).status ≡ Cycle.OverallStatus.pass
unfolding run Cycle.overall Cycle.run_providers Cycle.run_provider Cycle.cycle_delivery
undelivered_test = refl

-- A dispatcher that raises ends the cycle.
abbrev raising : Text → List ProviderDisplayItem → ℕ → Option (ℕ × ℕ × List Text) × ℕ
raising provider shown w = (none, w)

aborted_test : (run healthy true raising no_retries 0).0 ≡ none
unfolding run Cycle.run_providers Cycle.run_provider
aborted_test = refl
