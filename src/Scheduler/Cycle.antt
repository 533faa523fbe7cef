-- ===== src/Scheduler/Cycle.antt =====
-- scheduler/multi_provider.py, `MultiProviderTelegramScheduler.run`: one serial cycle over the four
-- providers. The executors and the dispatcher are injected: parameters over a state `W`. An exception of
-- an executor is caught; one of the dispatcher ends the cycle, whose value is then `none`.
pub mod Isolation
use news_collect.Base.{
  ℕ, Option, none, some, List, [], ◌∷◌, Bool, true, false, not, ◌&&◌, ◌||◌, ◌==◌, if◌then◌else◌,
  any,
}
use news_collect.Base.Order.{Text, codes}
use news_collect.Feed.{ProviderDisplayItem}

pub data ProviderScheduleStatus : Type 0 where
  pass no_new_items retry failed blocked : ProviderScheduleStatus

pub record ProviderCycleResult : Type 0 where
  pub provider : Text
  pub status : ProviderScheduleStatus
  pub collection_status : Text
  pub raw_item_count : ℕ
  pub evidence_item_count : ℕ
  pub content_item_count : ℕ
  pub items : List ProviderDisplayItem
  pub safe_errors : List Text

pub record ProviderScheduleReport : Type 0 where
  pub provider : Text
  pub status : ProviderScheduleStatus
  pub collection_status : Text
  pub raw_item_count : ℕ
  pub evidence_item_count : ℕ
  pub content_item_count : ℕ
  pub sent_count : ℕ
  pub failed_count : ℕ
  pub safe_errors : List Text
  pub delivery_status : ProviderScheduleStatus
  pub delivery_safe_errors : List Text

-- The overall status is PASS or PARTIAL.
pub data OverallStatus : Type 0 where
  pass partial : OverallStatus

pub record MultiProviderScheduleSummary : Type 0 where
  pub status : OverallStatus
  pub providers : List ProviderScheduleReport
  pub retry_sent_count : ℕ
  pub retry_failed_count : ℕ
  pub retry_exhausted_count : ℕ
  pub delivery_status : ProviderScheduleStatus

abbrev pub provider_order : List Text
provider_order = codes "marketaux" ∷ codes "finnhub" ∷ codes "eia" ∷ codes "sec_edgar" ∷ []

abbrev pub credential_missing : List Text
credential_missing = codes "telegram_runtime_credential_missing" ∷ []

failure_result : Text → ProviderScheduleStatus → Text → Text → ProviderCycleResult
failure_result provider status collection error = record {
  provider = provider;
  status = status;
  collection_status = collection;
  raw_item_count = 0;
  evidence_item_count = 0;
  content_item_count = 0;
  items = [];
  safe_errors = error ∷ [];
}

-- The delivery status of one provider that had items.
delivered_status : Bool → ℕ → ℕ → ProviderScheduleStatus
delivered_status available sent failures =
    if not available
    then blocked
    else if not (failures == 0)
    then failed
    else if not (sent == 0)
    then pass
    else no_new_items

initial_status : Bool → ProviderScheduleStatus
initial_status available = if not available then blocked else no_new_items

abbrev pub is_pass : ProviderScheduleStatus → Bool
is_pass pass = true
is_pass _ = false

abbrev pub is_bad : ProviderScheduleStatus → Bool
is_bad failed = true
is_bad blocked = true
is_bad retry = true
is_bad _ = false

abbrev pub delivered : ProviderScheduleReport → Bool
delivered report = is_pass report.delivery_status

abbrev pub went_wrong : ProviderScheduleReport → Bool
went_wrong report = is_bad report.status

-- The delivery status of the whole cycle.
unfoldable pub cycle_delivery : Bool → ℕ → ℕ → List ProviderScheduleReport → ProviderScheduleStatus
cycle_delivery available retry_sent retry_failed reports =
    if not available
    then blocked
    else if not (retry_failed == 0)
    then failed
    else if not (retry_sent == 0) || any delivered reports
    then pass
    else no_new_items

abbrev delivery_bad : ProviderScheduleStatus → Bool
delivery_bad blocked = true
delivery_bad failed = true
delivery_bad _ = false

unfoldable pub overall : ProviderScheduleStatus → List ProviderScheduleReport → OverallStatus
overall delivery reports = if any went_wrong reports || delivery_bad delivery then partial else pass

module _ {W : Type 0}
    -- `executors.get(provider)`, and what a call of it does: `none` is an exception.
    (executor : Text → Option (W → Option ProviderCycleResult × W)) (available : Bool)
    (deliver_new : Text → List ProviderDisplayItem → W → Option (ℕ × ℕ × List Text) × W)
    (deliver_retries : W → Option (ℕ × ℕ × ℕ) × W) where
  or_failed : Text → Option ProviderCycleResult → ProviderCycleResult
  unfolding failure_result
  or_failed provider (some result) = result
  or_failed provider none =
      failure_result provider failed (codes "failed") (codes "provider_cycle_failed")

  execute : Text → Option (W → Option ProviderCycleResult × W) → W → ProviderCycleResult × W
  unfolding failure_result or_failed
  execute provider none w = (
    failure_result provider blocked (codes "not_started")
        (codes "provider_runtime_credential_missing"),
    w,
  )
  execute provider (some call) w = let (result, w') = call w in (or_failed provider result, w')

  delivered_counts :
      Option (ℕ × ℕ × List Text) → Option (ℕ × ℕ × ProviderScheduleStatus × List Text)
  unfolding delivered_status
  delivered_counts none = none
  delivered_counts (some counts) =
      some (counts.0, counts.1, delivered_status available counts.0 counts.1, counts.2)

  -- The sent and failed counts, the delivery status and the delivery errors of the items.
  dispatch :
      Text → List ProviderDisplayItem → W → Option (ℕ × ℕ × ProviderScheduleStatus × List Text) × W
  unfolding initial_status delivered_counts
  dispatch provider [] w =
      (some (0, 0, initial_status available, if available then [] else credential_missing), w)
  dispatch provider (item ∷ items) w =
      let (counts, w') = deliver_new provider (item ∷ items) w in (delivered_counts counts, w')

  report_of :
      Text
      → ProviderCycleResult
      → Option (ℕ × ℕ × ProviderScheduleStatus × List Text)
      → Option ProviderScheduleReport
  report_of provider result none = none
  report_of provider result (some counts) = some (record {
    provider = provider;
    status = result.status;
    collection_status = result.collection_status;
    raw_item_count = result.raw_item_count;
    evidence_item_count = result.evidence_item_count;
    content_item_count = result.content_item_count;
    sent_count = counts.0;
    failed_count = counts.1;
    safe_errors = result.safe_errors;
    delivery_status = counts.2;
    delivery_safe_errors = counts.3;
  })

  unfoldable pub run_provider : Text → W → Option ProviderScheduleReport × W
  unfolding execute dispatch report_of
  run_provider provider w =
      let (result, w') = execute provider (executor provider) w in
      let (counts, w'') = dispatch provider result.items w' in
      (report_of provider result counts, w'')

  add_first :
      ProviderScheduleReport
      → Option (List ProviderScheduleReport) × W
      → Option (List ProviderScheduleReport) × W
  add_first report (none, w) = (none, w)
  add_first report (some reports, w) = (some (report ∷ reports), w)

  add_report :
      Option ProviderScheduleReport × W
      → (W → Option (List ProviderScheduleReport) × W)
      → Option (List ProviderScheduleReport) × W
  unfolding add_first
  add_report (none, w) rest = (none, w)
  add_report (some report, w) rest = add_first report (rest w)

  unfoldable pub run_providers : List Text → W → Option (List ProviderScheduleReport) × W
  unfolding add_report
  run_providers [] w = (some [], w)
  run_providers (provider ∷ rest) w = add_report (run_provider provider w) (run_providers rest)

  summarize :
      List ProviderScheduleReport → Option (ℕ × ℕ × ℕ) × W → Option MultiProviderScheduleSummary × W
  summarize reports (none, w) = (none, w)
  summarize reports (some retries, w) =
      let delivery = cycle_delivery available retries.0 retries.1 reports in
      (
        some (record {
          status = overall delivery reports;
          providers = reports;
          retry_sent_count = retries.0;
          retry_failed_count = retries.1;
          retry_exhausted_count = retries.2;
          delivery_status = delivery;
        }),
        w,
      )

  after_providers :
      Option (List ProviderScheduleReport) × W → Option MultiProviderScheduleSummary × W
  unfolding summarize
  after_providers (none, w) = (none, w)
  after_providers (some reports, w) = summarize reports (deliver_retries w)

  unfoldable pub run : W → Option MultiProviderScheduleSummary × W
  unfolding after_providers
  run w = after_providers (run_providers provider_order w)
