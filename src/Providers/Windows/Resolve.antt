-- ===== src/Providers/Windows/Resolve.antt =====
-- providers/windows.py, `resolve_window` and `resolved_config`: a rolling window becomes a fixed one.
use news_collect.Base.{
  ℕ, ◌+◌, ◌-◌, ◌/◌, ◌%◌, min, max, Option, none, some, ◌++◌, Bool, not, if◌then◌else◌, seconds, any,
}
use news_collect.Base.Int.{ℤ, pos}
use news_collect.Base.Json.{Json, string, Fields, next_field, get, keep_fields}
use news_collect.Base.Order.{Text, codes, text_eq}
use news_collect.Base.Result.{Result, ok, err, ◌>>=◌}
use news_collect.Providers.Windows.{
  Calendar, is_text, monthly, rolling_keys, text_of, seconds_of, months_of, month_index,
  validate_window,
}

pub record Window : Type 0 where
  pub start : Text
  pub end : Text

unfoldable pub floor_hour : ℕ → ℕ
floor_hour time = time - time % seconds 3600

unfoldable pub floor_day : ℕ → ℕ
floor_day time = time - time % seconds 86400

-- The later of the start and of the watermark's, which is at most the last start.
unfoldable pub from_watermark : ℕ → ℕ → Option ℕ → ℕ
from_watermark start last none = start
from_watermark start last (some mark) = max start (min mark last)

-- `watermark - overlap`
abbrev pub less : ℕ → Option ℕ → Option ℕ
less span none = none
less span (some time) = some (time - span)

-- The start and the end of a window that ends at `end`, in hours or in days.
unfoldable pub span_of : Bool → ℕ → ℕ → ℕ → Option ℕ → ℕ × ℕ
unfolding floor_hour floor_day from_watermark
span_of daily lookback overlap limit watermark =
    let end = if daily then floor_day (floor_hour limit) else floor_hour limit in
    let start = floor_hour (
      from_watermark (end - seconds lookback) (end - seconds 3600)
        (less (seconds overlap) watermark)) in
    (if daily then floor_day start else start, end)

module _ (calendar : Calendar) where
  mark_index : ℕ → Option ℕ → Option ℕ
  mark_index overlap none = none
  mark_index overlap (some time) = some (month_index calendar time - 1 - overlap)

  -- The first and the last month, counted from the first month of year 0.
  unfoldable pub month_span : ℕ → ℕ → ℕ → ℕ → Option ℕ → ℕ × ℕ
  unfolding from_watermark mark_index
  month_span lookback overlap lag now watermark =
      let end = month_index calendar now - 2 - lag in
      (from_watermark (end + 1 - lookback) end (mark_index overlap watermark), end)

  -- f"{year:04d}-{month + 1:02d}-01"
  unfoldable pub month_text : ℕ → Text
  month_text value =
      calendar.padded 4 (value / 12)
      ++ codes "-"
      ++ calendar.padded 2 (value % 12 + 1)
      ++ codes "-01"

  unfoldable pub month_window : Option (ℤ × ℤ × ℤ) → ℕ → Option ℕ → Result Window
  unfolding month_span month_text
  month_window (some (pos lookback, pos overlap, pos lag)) now watermark =
      let (start, end) = month_span lookback overlap lag now watermark in
      ok (record { start = month_text start; end = month_text end })
  month_window _ now watermark = err (codes "KeyError")

  unfoldable pub span_text : Bool → ℕ × ℕ → Window
  span_text in_hours (start, end) =
      if in_hours
      then record { start = calendar.hour_text start; end = calendar.hour_text end }
      else record { start = calendar.day_text start; end = calendar.day_text end }

  -- With the granularity `month`, the code would have no start here.
  unfoldable pub second_window : Option Text → Option (ℤ × ℤ × ℤ) → ℕ → Option ℕ → Result Window
  unfolding span_of span_text
  second_window (some granularity) (some (pos lookback, pos overlap, pos lag)) now watermark =
      if text_eq granularity (codes "month")
      then err (codes "UnboundLocalError")
      else ok (
          span_text (text_eq granularity (codes "hour")) (
            span_of (text_eq granularity (codes "day")) lookback overlap (now - seconds lag)
              watermark))
  second_window _ _ now watermark = err (codes "KeyError")

  unfoldable pub fixed_text : Option Text → Option Text → Result Window
  fixed_text (some start) (some end) = ok (record { start = start; end = end })
  fixed_text _ _ = err (codes "KeyError")

  unfoldable pub resolve_window : Text → Fields → ℕ → Option ℕ → Result Window
  unfolding month_window second_window fixed_text
  resolve_window operation config now watermark =
      validate_window calendar operation config >>= λ valid.
      if is_text (codes "fixed_window") (get (codes "window_mode") config)
      then fixed_text (text_of (get (codes "start") config)) (text_of (get (codes "end") config))
      else if monthly operation
      then month_window (months_of config) now watermark
      else second_window (text_of (get (codes "granularity") config)) (seconds_of config) now
          watermark

unfoldable pub put : Text → Json → Fields → Fields
put key value fields = next_field key value (keep_fields (λ name. not (text_eq name key)) fields)

-- `{**result, "window_mode": "fixed_window", **window}`
unfoldable pub resolved_config : Fields → Window → Fields
unfolding put
resolved_config config window = put (codes "end") (string window.end) (
    put (codes "start") (string window.start) (
      put (codes "window_mode") (string (codes "fixed_window"))
        (keep_fields (λ name. not (any (text_eq name) rolling_keys)) config)))
