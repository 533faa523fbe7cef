-- ===== src/Providers/Windows.antt =====
-- providers/windows.py: the windows of a provider's operation. An instant is a number of microseconds
-- since the start of year 1, in UTC; what the code calls of datetime and of the format of numbers is a
-- field of `Calendar`. Every refusal of a window is the one error, so a check is a test.
pub mod Fits
pub mod Resolve
pub mod Spans
use news_collect.Base.{
  ℕ, ◌+◌, ◌-◌, ◌*◌, ◌/◌, ◌%◌, min, max, Option, none, some, List, [], ◌∷◌, ◌++◌, Bool, true, false,
  not, ◌&&◌, ◌||◌, ltb, leb, ◌==◌, if◌then◌else◌, seconds, any, is_some,
}
use news_collect.Base.Int.{ℤ, pos, negsuc}
use news_collect.Base.Json.{
  Json, null, boolean, integer, string, array, object, Fields, no_fields, next_field, get,
  keep_fields,
}
use news_collect.Base.Order.{Text, codes, text_eq}
use news_collect.Base.Result.{Result, ok, err, ◌>>=◌}

pub record Calendar : Type 0 where
  pub is_digit : ℕ → Bool
  pub fromisoformat : Text → Option ℕ
  pub year : ℕ → ℕ
  pub month : ℕ → ℕ
  pub padded : ℕ → ℕ → Text
  pub day_text : ℕ → Text
  pub hour_text : ℕ → Text

abbrev pub invalid : Text
invalid = codes "breadth_window_invalid"

abbrev pub is_text : Text → Option Json → Bool
is_text text (some (string value)) = text_eq value text
is_text text _ = false

abbrev pub monthly : Text → Bool
monthly operation = text_eq operation (codes "electricity_retail_sales")

abbrev pub hourly : Text → Bool
hourly operation = text_eq operation (codes "electricity_rto_region_data")

-- In seconds.
unfoldable pub ceiling : Text → ℕ
ceiling operation = (if monthly operation then 366 else if hourly operation then 7 else 31) * 86400

abbrev pub second_keys : List Text
second_keys =
    codes "lookback_seconds" ∷ codes "overlap_seconds" ∷ codes "ingestion_lag_seconds" ∷ []

abbrev pub month_keys : List Text
month_keys = codes "lookback_months" ∷ codes "overlap_months" ∷ codes "ingestion_lag_months" ∷ []

abbrev pub rolling_keys : List Text
rolling_keys = codes "granularity" ∷ second_keys ++ month_keys

-- `set(config) & keys`
unfoldable pub has_any : List Text → Fields → Bool
has_any keys config = any (λ key. is_some (get key config)) keys

-- A whole number that is there; `0 <= value` is for the checks to say.
unfoldable pub whole : Option Json → Option ℤ
whole (some (integer n)) = some n
whole _ = none

unfoldable pub text_of : Option Json → Option Text
text_of (some (string text)) = some text
text_of _ = none

-- The values of three keys, `none` unless all are whole.
unfoldable pub three : Option ℤ → Option ℤ → Option ℤ → Option (ℤ × ℤ × ℤ)
three (some a) (some b) (some c) = some (a, b, c)
three _ _ _ = none

-- `least <= lookback <= most and 0 <= overlap < lookback and 0 <= lag <= last`
unfoldable pub in_limits : ℕ → ℕ → ℕ → Option (ℤ × ℤ × ℤ) → Bool
in_limits least most last (some (pos lookback, pos overlap, pos lag)) =
    leb least lookback && leb lookback most && ltb overlap lookback && leb lag last
in_limits least most last _ = false

unfoldable pub seconds_of : Fields → Option (ℤ × ℤ × ℤ)
unfolding three whole
seconds_of config =
    three (whole (get (codes "lookback_seconds") config))
      (whole (get (codes "overlap_seconds") config))
      (whole (get (codes "ingestion_lag_seconds") config))

unfoldable pub months_of : Fields → Option (ℤ × ℤ × ℤ)
unfolding three whole
months_of config =
    three (whole (get (codes "lookback_months") config))
      (whole (get (codes "overlap_months") config))
      (whole (get (codes "ingestion_lag_months") config))

unfoldable pub expected : Text → Text
expected operation =
    if monthly operation
    then codes "month"
    else if hourly operation
    then codes "hour"
    else codes "day"

unfoldable pub minimum : Text → ℕ
minimum operation =
    if monthly operation then 31 * 86400 else if hourly operation then 3600 else 86400

unfoldable pub rolling_months : Fields → Bool
unfolding months_of in_limits has_any
rolling_months config =
    not (has_any second_keys config)
    && in_limits 1 12 12 (months_of config)
    && is_text (codes "month") (get (codes "granularity") config)

unfoldable pub rolling_seconds : Text → Fields → Bool
unfolding seconds_of in_limits has_any minimum ceiling expected
rolling_seconds operation config =
    not (has_any month_keys config)
    && in_limits (minimum operation) (ceiling operation) (ceiling operation) (seconds_of config)
    && is_text (expected operation) (get (codes "granularity") config)

unfoldable pub rolling : Text → Fields → Bool
unfolding rolling_months rolling_seconds has_any
rolling operation config =
    not (has_any (codes "start" ∷ codes "end" ∷ []) config)
    && (if monthly operation then rolling_months config else rolling_seconds operation config)

-- `re.fullmatch` of a pattern with one test for each character.
unfoldable pub matches : List (ℕ → Bool) → Text → Bool
matches [] [] = true
matches [] (c ∷ text) = false
matches (p ∷ pattern) [] = false
matches (p ∷ pattern) (c ∷ text) = p c && matches pattern text

abbrev pub only : ℕ → ℕ → Bool
only c d = c == d

module _ (calendar : Calendar) where
  -- `\d{4}-\d{2}-`
  abbrev pub year_month : List (ℕ → Bool)
  year_month =
      calendar.is_digit
      ∷ calendar.is_digit
      ∷ calendar.is_digit
      ∷ calendar.is_digit
      ∷ only b'-'
      ∷ calendar.is_digit
      ∷ calendar.is_digit
      ∷ only b'-'
      ∷ []

  abbrev pub date_pattern : List (ℕ → Bool)
  date_pattern = year_month ++ calendar.is_digit ∷ calendar.is_digit ∷ []

  unfoldable pub is_date : Text → Bool
  unfolding matches
  is_date text =
      matches date_pattern text
      || matches (date_pattern ++ only b'T' ∷ calendar.is_digit ∷ calendar.is_digit ∷ []) text

  -- `\d{4}-(0[1-9]|1[0-2])-01`
  month_pattern : (ℕ → Bool) → (ℕ → Bool) → List (ℕ → Bool)
  month_pattern p q =
      calendar.is_digit
      ∷ calendar.is_digit
      ∷ calendar.is_digit
      ∷ calendar.is_digit
      ∷ only b'-'
      ∷ p
      ∷ q
      ∷ only b'-'
      ∷ only b'0'
      ∷ only b'1'
      ∷ []

  unfoldable pub is_month : Text → Bool
  unfolding matches month_pattern
  is_month text =
      matches (month_pattern (only b'0') (λ c. leb b'1' c && leb c b'9')) text
      || matches (month_pattern (only b'1') (λ c. leb b'0' c && leb c b'2')) text

  -- `year * 12 + month`
  abbrev pub month_index : ℕ → ℕ
  month_index time = calendar.year time * 12 + calendar.month time

  -- `0 <= end_index - start_index <= 11`, or `0 < (end - start).total_seconds() <= ceiling`
  unfoldable pub span_fits : Text → Option ℕ → Option ℕ → Bool
  unfolding ceiling
  span_fits operation (some start) (some end) =
      if monthly operation
      then leb (month_index start) (month_index end)
        && leb (month_index end) (month_index start + 11)
      else ltb start end && leb (end - start) (seconds (ceiling operation))
  span_fits operation _ _ = false

  unfoldable pub ends_fit : Text → Option Text → Option Text → Bool
  unfolding is_month is_date span_fits
  ends_fit operation (some start) (some end) =
      (not (monthly operation) || is_month start && is_month end)
      && is_date start
      && is_date end
      && span_fits operation (calendar.fromisoformat start) (calendar.fromisoformat end)
  ends_fit operation _ _ = false

  unfoldable pub fixed : Text → Fields → Bool
  unfolding has_any ends_fit text_of
  fixed operation config =
      not (has_any rolling_keys config)
      && ends_fit operation (text_of (get (codes "start") config))
          (text_of (get (codes "end") config))

  unfoldable pub unless_invalid : Bool → Result {0} Unit
  unless_invalid true = ok tt
  unless_invalid false = err invalid

  unfoldable pub validate_window : Text → Fields → Result {0} Unit
  unfolding unless_invalid fixed rolling
  validate_window operation config =
      let mode = get (codes "window_mode") config in
      if is_text (codes "fixed_window") mode
      then unless_invalid (fixed operation config)
      else if is_text (codes "rolling_window") mode
      then unless_invalid (rolling operation config)
      else err (codes "breadth_window_mode_required")
