-- ===== src/Providers/Windows/Fits.antt =====
-- A rolling window is resolved within the limits of a fixed one.
use news_collect.Base.{
  ℕ, ◌+◌, ◌-◌, ◌*◌, ◌≤◌, ◌<◌, ◌≡◌, refl, ap, Option, none, some, Bool, true, false, not, ◌&&◌,
  arith, seconds, if◌then◌else◌, Bool-cases, inl, inr,
}
use news_collect.Base.Int.{ℤ, pos, negsuc}
use news_collect.Base.Json.{Json, null, boolean, integer, string, array, object, Fields, get}
use news_collect.Base.Order.{Text, codes, text_eq, text_eq→eq}
use news_collect.Base.Result.{ok}
use news_collect.Providers.Windows.{
  Calendar, is_text, monthly, hourly, ceiling, minimum, expected, text_of, seconds_of, months_of,
  month_index, in_limits, rolling, rolling_seconds, rolling_months, validate_window, unless_invalid,
}
use news_collect.Providers.Windows.Resolve.{
  Window, span_of, month_span, month_text, span_text, second_window, month_window, resolve_window,
}
use news_collect.Providers.Windows.Spans.{
  from_watermark_le, from_watermark_ge, hours_span, days_span,
}

-- What the limits say of three values.
Limited : ℕ → ℕ → ℕ → Option (ℤ × ℤ × ℤ) → Type 0
Limited least most last o =
    (lookback : ℕ) × (overlap : ℕ) × (lag : ℕ) × (o ≡ some (pos lookback, pos overlap, pos lag))
    × (least ≤ lookback)
    × (lookback ≤ most)
    × (lag ≤ last)

in_limits-Limited :
    (least most last : ℕ) (o : Option (ℤ × ℤ × ℤ))
    → in_limits least most last o ≡ true
    → Limited least most last o
unfolding in_limits Limited
in_limits-Limited least most last none h = cc
in_limits-Limited least most last (some (pos a, pos b, pos c)) h =
    (a, b, c, refl, ground arith, ground arith, ground arith)
in_limits-Limited least most last (some (pos a, pos b, negsuc c)) h = cc
in_limits-Limited least most last (some (pos a, negsuc b, c)) h = cc
in_limits-Limited least most last (some (negsuc a, b, c)) h = cc

all_three : (a b c : Bool) → (a && b && c) ≡ true → (b ≡ true) × (c ≡ true)
all_three a b c h = ground arith

is_text-text_of : (text : Text) (o : Option Json) → is_text text o ≡ true → text_of o ≡ some text
unfolding text_of
is_text-text_of text (some (string value)) h = ap some (text_eq→eq value text h)
is_text-text_of text (some null) h = cc
is_text-text_of text (some (boolean b)) h = cc
is_text-text_of text (some (integer n)) h = cc
is_text-text_of text (some (array a)) h = cc
is_text-text_of text (some (object a)) h = cc
is_text-text_of text none h = cc

module _ (calendar : Calendar) (operation : Text) (now : ℕ) where
  -- A window that a fixed one may be: at most twelve months that end before this one, or a time of
  -- whole days or hours that is not empty, at most the ceiling, and ends in the past.
  pub data IsResolved : Window → Type 0 where
    months :
        (start end : ℕ)
        → monthly operation ≡ true
        → start ≤ end
        → end ≤ start + 11
        → end ≤ month_index calendar now - 2
        → IsResolved (record { start = month_text calendar start; end = month_text calendar end })
    times :
        (start end : ℕ)
        → monthly operation ≡ false
        → start < end
        → end - start ≤ seconds (ceiling operation)
        → end ≤ now
        → IsResolved (span_text calendar (hourly operation) (start, end))

  month_window-IsResolved :
      (o : Option (ℤ × ℤ × ℤ)) (watermark : Option ℕ)
      → monthly operation ≡ true
      → Limited 1 12 12 o
      → (w : Window) × (month_window calendar o now watermark ≡ ok w) × IsResolved w
  unfolding month_window Limited month_span
  month_window-IsResolved o watermark m (lookback, overlap, lag, at, least, most, last) =
      let (start, end) = month_span calendar lookback overlap lag now watermark in
      (
        record { start = month_text calendar start; end = month_text calendar end },
        rw at refl,
        months start end m
            (from_watermark_le (month_index calendar now - 2 - lag + 1 - lookback)
              (month_index calendar now - 2 - lag) _ (omega arith))
            (fits_year
              (from_watermark_ge (month_index calendar now - 2 - lag + 1 - lookback)
                (month_index calendar now - 2 - lag) _)
              most)
            (omega arith),
      )
    where
      fits_year :
          {end lookback start : ℕ} → end + 1 - lookback ≤ start → lookback ≤ 12 → end ≤ start + 11
      fits_year h k = omega arith

  -- The span of a window in hours or in days.
  Timed : ℕ × ℕ → Type 0
  Timed (start, end) = (start < end) × (end - start ≤ seconds (ceiling operation)) × (end ≤ now)

  ceiling-hours :
      monthly operation ≡ false
      → hourly operation ≡ true
      → (ceiling operation ≡ 168 * 3600) × (minimum operation ≡ 3600)
  unfolding ceiling minimum
  ceiling-hours m h = (rw (m, h) refl, rw (m, h) refl)

  ceiling-days :
      monthly operation ≡ false
      → hourly operation ≡ false
      → (ceiling operation ≡ 31 * 86400) × (minimum operation ≡ 86400)
  unfolding ceiling minimum
  ceiling-days m h = (rw (m, h) refl, rw (m, h) refl)

  of_span :
      (lag c : ℕ) (span : ℕ × ℕ)
      → ceiling operation ≡ c
      → (span.0 < span.1) × (span.1 - span.0 ≤ seconds c) × (span.1 ≤ now - seconds lag)
      → Timed span
  unfolding Timed
  of_span lag c span e (h, k, m) = (h, rw e k, omega (arith, m))

  -- What the checks have found of a time that is not monthly.
  Checked : ℕ → ℕ → Type 0
  Checked lookback lag =
      (minimum operation ≤ lookback) × (lookback ≤ ceiling operation) × (lag ≤ ceiling operation)

  span-Timed :
      (lookback overlap lag : ℕ) (watermark : Option ℕ)
      → monthly operation ≡ false
      → Checked lookback lag
      → seconds (32 * 86400) ≤ now
      → Timed (span_of (not (hourly operation)) lookback overlap (now - seconds lag) watermark)
  unfolding Checked
  span-Timed lookback overlap lag watermark m (least, most, last) old =
      elim (Bool-cases (hourly operation)) [
        | inl h ↦
            let (c, n) = ceiling-hours m h in
            rw h (
              of_span lag (168 * 3600)
                (span_of false lookback overlap (now - seconds lag) watermark) c
                (hours_span lookback overlap (now - seconds lag) 168 watermark
                  (omega (arith, least, n)) (omega (arith, most, c)) (omega (arith, last, c, old))))
        | inr h ↦
            let (c, n) = ceiling-days m h in
            rw h (
              of_span lag (31 * 86400) (span_of true lookback overlap (now - seconds lag) watermark)
                c
                (days_span lookback overlap (now - seconds lag) 31 watermark
                  (omega (arith, least, n)) (omega (arith, most, c)) (omega (arith, last, c, old))))
      ]

  granularity_text :
      monthly operation ≡ false
      → (text_eq (expected operation) (codes "month") ≡ false)
        × (text_eq (expected operation) (codes "hour") ≡ hourly operation)
        × (text_eq (expected operation) (codes "day") ≡ not (hourly operation))
  unfolding expected text_eq
  granularity_text m = elim (Bool-cases (hourly operation)) [
    | inl h ↦ rw (m, h) words_hour
    | inr h ↦ rw (m, h) words_day
  ]
    where
      words_hour :
          (text_eq (codes "hour") (codes "month") ≡ false)
          × (text_eq (codes "hour") (codes "hour") ≡ true)
          × (text_eq (codes "hour") (codes "day") ≡ false)
      words_hour = (refl, refl, refl)

      words_day :
          (text_eq (codes "day") (codes "month") ≡ false)
          × (text_eq (codes "day") (codes "hour") ≡ false)
          × (text_eq (codes "day") (codes "day") ≡ true)
      words_day = (refl, refl, refl)

  second_window-IsResolved :
      (o : Option (ℤ × ℤ × ℤ)) (watermark : Option ℕ)
      → monthly operation ≡ false
      → Limited (minimum operation) (ceiling operation) (ceiling operation) o
      → seconds (32 * 86400) ≤ now
      → (w : Window) × (second_window calendar (some (expected operation)) o now watermark ≡ ok w)
        × IsResolved w
  unfolding second_window Limited Timed Checked
  second_window-IsResolved o watermark m (lookback, overlap, lag, at, least, most, last) old =
      let (no_month, in_hours, in_days) = granularity_text m in
      let span = span_of (not (hourly operation)) lookback overlap (now - seconds lag) watermark in
      let (h, k, l) = span-Timed lookback overlap lag watermark m (least, most, last) old in
      (
        span_text calendar (hourly operation) span,
        rw (at, no_month, in_hours, in_days) refl,
        times span.0 span.1 m h k l,
      )

  either :
      (a m x y : Bool)
      → (a && (if m then x else y)) ≡ true
      → (m ≡ true → x ≡ true) × (m ≡ false → y ≡ true)
  either a true x y h = (λ e. ground arith, λ e. cc)
  either a false x y h = (λ e. cc, λ e. ground arith)

  rolling-months :
      (config : Fields)
      → rolling operation config ≡ true
      → monthly operation ≡ true
      → in_limits 1 12 12 (months_of config) ≡ true
  unfolding rolling rolling_months
  rolling-months config h m =
      (all_three _ _ _ (
        (either _ (monthly operation) (rolling_months config) (rolling_seconds operation config)
            h).0
          m)).0

  rolling-seconds :
      (config : Fields)
      → rolling operation config ≡ true
      → monthly operation ≡ false
      → (in_limits (minimum operation) (ceiling operation) (ceiling operation) (seconds_of config)
          ≡ true)
        × (is_text (expected operation) (get (codes "granularity") config) ≡ true)
  unfolding rolling rolling_seconds
  rolling-seconds config h m = all_three _ _ _ (
      (either _ (monthly operation) (rolling_months config) (rolling_seconds operation config) h).1
        m)

  -- A rolling window that passes its checks is resolved, with any watermark or none, to one that a fixed
  -- window may be. For the monthly operation these are at most twelve months that end before this month;
  -- for the others a time that is not empty, at most the ceiling of the operation and ends by now. The
  -- times are at least 32 days after the start of year 1.
  pub resolve_window-IsResolved :
      (config : Fields) (watermark : Option ℕ)
      → is_text (codes "fixed_window") (get (codes "window_mode") config) ≡ false
      → is_text (codes "rolling_window") (get (codes "window_mode") config) ≡ true
      → rolling operation config ≡ true
      → seconds (32 * 86400) ≤ now
      → (w : Window) × (resolve_window calendar operation config now watermark ≡ ok w)
        × IsResolved w
  unfolding resolve_window validate_window unless_invalid
  resolve_window-IsResolved config watermark not_fixed mode h old =
      elim (Bool-cases (monthly operation)) [
        | inl m ↦
            let limits = rolling-months config h m in
            let (w, at, r) =
              month_window-IsResolved (months_of config) watermark m
                (in_limits-Limited 1 12 12 (months_of config) limits) in
            (w, rw (not_fixed, mode, h, m) at, r)
        | inr m ↦
            let (limits, g) = rolling-seconds config h m in
            let granularity =
              is_text-text_of (expected operation) (get (codes "granularity") config) g in
            let (w, at, r) =
              second_window-IsResolved (seconds_of config) watermark m
                (in_limits-Limited (minimum operation) (ceiling operation) (ceiling operation)
                  (seconds_of config) limits)
                old in
            (w, rw (not_fixed, mode, h, m, granularity) at, r)
      ]
