-- ===== src/Providers/Windows/Spans.antt =====
-- The spans of whole hours and of whole days that a rolling window comes to.
use news_collect.Base.{ℕ, ◌-◌, ◌*◌, ◌≤◌, ◌<◌, Option, none, some, true, false, arith, seconds}
use news_collect.Providers.Windows.Resolve.{floor_hour, floor_day, from_watermark, less, span_of}

pub from_watermark_le :
    (start last : ℕ) (mark : Option ℕ) → start ≤ last → from_watermark start last mark ≤ last
unfolding from_watermark
from_watermark_le start last none h = h
from_watermark_le start last (some m) h = omega arith

pub from_watermark_ge : (start last : ℕ) (mark : Option ℕ) → start ≤ from_watermark start last mark
unfolding from_watermark
from_watermark_ge start last none = omega arith
from_watermark_ge start last (some m) = omega arith

-- The span of whole hours, from a start `s` that is one hour to `h` hours before the end.
hours_fit :
    (limit s lookback c : ℕ)
    → lookback ≤ c * 3600
    → seconds 3600 ≤ limit
    → floor_hour limit - seconds lookback ≤ s
    → s ≤ floor_hour limit - seconds 3600
    → (floor_hour s < floor_hour limit)
      × (floor_hour limit - floor_hour s ≤ seconds (c * 3600))
      × (floor_hour limit ≤ limit)
unfolding floor_hour
hours_fit limit s lookback c small enough low high = (omega arith, omega arith, omega arith)

days_fit :
    (limit s lookback c : ℕ)
    → lookback ≤ c * 86400
    → seconds 86400 ≤ limit
    → floor_day (floor_hour limit) - seconds lookback ≤ s
    → s ≤ floor_day (floor_hour limit) - seconds 3600
    → (floor_day (floor_hour s) < floor_day (floor_hour limit))
      × (floor_day (floor_hour limit) - floor_day (floor_hour s) ≤ seconds (c * 86400))
      × (floor_day (floor_hour limit) ≤ limit)
unfolding floor_hour floor_day
days_fit limit s lookback c small enough low high = (omega arith, omega arith, omega arith)

pub hours_span :
    (lookback overlap limit c : ℕ) (watermark : Option ℕ)
    → 3600 ≤ lookback
    → lookback ≤ c * 3600
    → seconds 3600 ≤ limit
    → let (start, end) = span_of false lookback overlap limit watermark in
      (start < end) × (end - start ≤ seconds (c * 3600)) × (end ≤ limit)
unfolding span_of
hours_span lookback overlap limit c watermark least most enough =
    hours_fit limit
      (from_watermark (floor_hour limit - seconds lookback) (floor_hour limit - seconds 3600)
        (less (seconds overlap) watermark))
      lookback c most enough (from_watermark_ge _ _ _)
      (from_watermark_le _ _ _ (later (floor_hour limit)))
  where
    later : (end : ℕ) → end - seconds lookback ≤ end - seconds 3600
    later end = omega arith

pub days_span :
    (lookback overlap limit c : ℕ) (watermark : Option ℕ)
    → 86400 ≤ lookback
    → lookback ≤ c * 86400
    → seconds 86400 ≤ limit
    → let (start, end) = span_of true lookback overlap limit watermark in
      (start < end) × (end - start ≤ seconds (c * 86400)) × (end ≤ limit)
unfolding span_of
days_span lookback overlap limit c watermark least most enough =
    days_fit limit
      (from_watermark (floor_day (floor_hour limit) - seconds lookback)
        (floor_day (floor_hour limit) - seconds 3600) (less (seconds overlap) watermark))
      lookback c most enough (from_watermark_ge _ _ _)
      (from_watermark_le _ _ _ (later (floor_day (floor_hour limit))))
  where
    later : (end : ℕ) → end - seconds lookback ≤ end - seconds 3600
    later end = omega arith
