-- ===== src/Scheduler/Cycle/Isolation.antt =====
-- The summary of a cycle that ends, whatever the executors of the providers do.
use mathlib.Core.Path.{subst}
use news_collect.Base.{
  ℕ, ◌≡◌, refl, Option, none, some, List, [], ◌∷◌, map, Bool, true, false, ◌&&◌, ◌==◌, ◌⊎◌, inl,
  inr, any, not, All, is_some, Option-cases, arith,
}
use news_collect.Base.Order.{Text}
use news_collect.Feed.{ProviderDisplayItem}
use news_collect.Scheduler.Cycle.{
  ProviderCycleResult, ProviderScheduleReport, ProviderScheduleStatus, blocked, failed, retry,
  MultiProviderScheduleSummary, OverallStatus, pass, partial, provider_order, cycle_delivery,
  overall, execute, report_of, run_provider, add_first, add_report, run_providers, summarize,
  after_providers, run,
}

abbrev pub name_of : ProviderScheduleReport → Text
name_of report = report.provider

-- Failed, blocked or to be tried again.
abbrev pub is_wrong : ProviderScheduleStatus → Bool
is_wrong failed = true
is_wrong blocked = true
is_wrong retry = true
is_wrong _ = false

abbrev pub has_wrong : ProviderScheduleReport → Bool
has_wrong report = is_wrong report.status

abbrev pub passes : OverallStatus → Bool
passes pass = true
passes partial = false

module _ {W : Type 0} (executor : Text → Option (W → Option ProviderCycleResult × W))
    (available : Bool)
    (deliver_new : Text → List ProviderDisplayItem → W → Option (ℕ × ℕ × List Text) × W)
    (deliver_retries : W → Option (ℕ × ℕ × ℕ) × W) where
  -- A provider without an executor is BLOCKED, and nothing of it is sent.
  abbrev pub IsReport : ProviderScheduleReport → Type 0
  IsReport report =
      (is_some (executor report.provider) ≡ true)
      ⊎ ((report.status ≡ blocked) × (report.sent_count ≡ 0))

  abbrev Reported : List Text → Option (List ProviderScheduleReport) → Type 0
  Reported names none = Unit
  Reported names (some reports) = (map name_of reports ≡ names) × All IsReport reports

  abbrev One : Text → Option ProviderScheduleReport → Type 0
  One name none = Unit
  One name (some report) = (report.provider ≡ name) × IsReport report

  run_provider-One :
      (provider : Text) (w : W)
      → One provider (run_provider executor available deliver_new deliver_retries provider w).0
  unfolding run_provider
  run_provider-One provider w = elim (Option-cases (executor provider)) [
    | inl e ↦ rw e (refl, inr (refl, refl))
    | inr (call, e) ↦
        of_counts (is_some_at (executor provider) e)
          (execute executor available deliver_new deliver_retries provider (executor provider) w).0
          _
  ]
    where
      is_some_at :
          {a : W → Option ProviderCycleResult × W} (o : Option (W → Option ProviderCycleResult × W))
          → o ≡ some a
          → is_some o ≡ true
      is_some_at none h = cc
      is_some_at (some b) h = refl

      of_counts :
          is_some (executor provider) ≡ true
          → (result : ProviderCycleResult)
            (counts : Option (ℕ × ℕ × ProviderScheduleStatus × List Text))
          → One provider
              (report_of executor available deliver_new deliver_retries provider result counts)
      of_counts h result none = tt
      of_counts h result (some counts) = (refl, inl h)

  add_report-Reported :
      (provider : Text) (rest : List Text) (r : Option ProviderScheduleReport × W)
      (more : W → Option (List ProviderScheduleReport) × W)
      → One provider r.0
      → ((w : W) → Reported rest (more w).0)
      → Reported
          (provider ∷ rest)
          (add_report executor available deliver_new deliver_retries r more).0
  unfolding run_providers
  add_report-Reported provider rest (none, w) more one all = tt
  add_report-Reported provider rest (some report, w) more (name, fits) all =
      with_first (more w) (all w)
    where
      with_first :
          (m : Option (List ProviderScheduleReport) × W)
          → Reported rest m.0
          → Reported
              (provider ∷ rest)
              (add_first executor available deliver_new deliver_retries report m).0
      with_first (none, u) h = tt
      with_first (some reports, u) (names, others) = (rw (name, names) refl, (fits, others))

  run_providers-Reported :
      (names : List Text) (w : W)
      → Reported names (run_providers executor available deliver_new deliver_retries names w).0
  unfolding run_providers
  run_providers-Reported [] w = (refl, tt)
  run_providers-Reported (provider ∷ rest) w =
      add_report-Reported provider rest
        (run_provider executor available deliver_new deliver_retries provider w) _
        (run_provider-One provider w) (run_providers-Reported rest)

  -- What a summary says.
  abbrev pub Summarizes : MultiProviderScheduleSummary → Type 0
  Summarizes summary =
      (map name_of summary.providers ≡ provider_order)
      × All IsReport summary.providers
      × (passes summary.status ≡ (
          available && (summary.retry_failed_count == 0) && not (any has_wrong summary.providers)))

  abbrev Ends : Option MultiProviderScheduleSummary → Type 0
  Ends none = Unit
  Ends (some summary) = Summarizes summary

  summarize-Ends :
      (reports : List ProviderScheduleReport) (r : Option (ℕ × ℕ × ℕ) × W)
      → Reported provider_order (some reports)
      → Ends (summarize executor available deliver_new deliver_retries reports r).0
  unfolding run overall cycle_delivery
  summarize-Ends reports (none, w) h = tt
  summarize-Ends reports (some retries, w) (names, fits) = (names, fits, ground arith)

  run-Ends : (w : W) → Ends (run executor available deliver_new deliver_retries w).0
  unfolding run
  run-Ends w =
      of_reports (run_providers executor available deliver_new deliver_retries provider_order w)
        (run_providers-Reported provider_order w)
    where
      of_reports :
          (r : Option (List ProviderScheduleReport) × W)
          → Reported provider_order r.0
          → Ends (after_providers executor available deliver_new deliver_retries r).0
      of_reports (none, w) h = tt
      of_reports (some reports, w) h = summarize-Ends reports _ h

  -- A cycle that ends with a summary reports on each of the four providers once and in their order, whatever
  -- the executors do (missing, raising or returning a result under any name); a provider without
  -- an executor is BLOCKED and nothing of it is sent. The cycle passes exactly if the dispatcher has its credential, no
  -- retried message failed, and no provider failed, was blocked or wants a retry. (A new message that
  -- failed does not count.)
  pub run-Summarizes :
      (w : W) (summary : MultiProviderScheduleSummary)
      → (run executor available deliver_new deliver_retries w).0 ≡ some summary
      → Summarizes summary
  run-Summarizes w summary h = subst Ends h (run-Ends w)
