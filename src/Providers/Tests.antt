-- ===== src/Providers/Tests.antt =====
-- A rolling window of Finnhub's company news, and a token of the second page of Marketaux's news.
use news_collect.Base.{
  ℕ, ◌+◌, ◌*◌, ◌/◌, ◌≡◌, refl, none, [], ◌∷◌, true, false, arith, seconds, some,
}
use news_collect.Base.Int.{pos}
use news_collect.Base.Json.{
  Fields, no_fields, next_field, integer, string, get, names, same_number, number,
}
use news_collect.Base.Order.{Text, codes, text_eq}
use news_collect.Base.Result.{Result, ok, err}
use news_collect.Providers.Continuation.{Codec, ContinuationLineage}
use news_collect.Providers.Continuation.Decode.{encode_continuation, decode_continuation}
use news_collect.Providers.Continuation.Own.{IsOwn, encode-decode}
use news_collect.Providers.Windows.{validate_window, Calendar, rolling, is_text}
use news_collect.Providers.Windows.Resolve.{Window, resolve_window}
use news_collect.Providers.Windows.Fits.{IsResolved, resolve_window-IsResolved}

abbrev calendar : Calendar
calendar = record {
  is_digit = λ c. true;
  fromisoformat = λ text. none;
  year = λ time. 2025;
  month = λ time. 6;
  padded = λ width n. n ∷ [];
  day_text = λ time. time / seconds 86400 ∷ [];
  hour_text = λ time. time ∷ [];
}

abbrev config : Fields
config = next_field (codes "window_mode") (string (codes "rolling_window")) (
    next_field (codes "lookback_seconds") (integer (pos 172800)) (
      next_field (codes "overlap_seconds") (integer (pos 3600)) (
        next_field (codes "ingestion_lag_seconds") (integer (pos 0))
          (next_field (codes "granularity") (string (codes "day")) no_fields))))

-- Noon of the hundredth day.
abbrev noon : ℕ
noon = seconds (100 * 86400 + 43200)

rolling_test : rolling (codes "company_news") config ≡ true
unfolding rolling get text_eq
rolling_test = refl

window_test :
    resolve_window calendar (codes "company_news") config noon none
    ≡ ok (record { start = 98 ∷ []; end = 100 ∷ [] })
unfolding resolve_window validate_window get text_eq
window_test = refl

not_fixed_test : is_text (codes "fixed_window") (get (codes "window_mode") config) ≡ false
unfolding get text_eq
not_fixed_test = refl

rolling_mode_test : is_text (codes "rolling_window") (get (codes "window_mode") config) ≡ true
unfolding get text_eq
rolling_mode_test = refl

resolve_window-IsResolved_example :
    (w : Window) × (resolve_window calendar (codes "company_news") config noon none ≡ ok w)
    × IsResolved calendar (codes "company_news") noon w
resolve_window-IsResolved_example =
    resolve_window-IsResolved calendar (codes "company_news") noon config none not_fixed_test
      rolling_mode_test rolling_test (omega arith)

abbrev codec : Codec
codec = record {
  dumps = λ fields. some [];
  sha256_hex = λ text. codes "00000000000000000000000000000000000000000000000000000000000000ff";
  uuid = λ id. id ∷ [];
  is_digit = λ c. true;
}

abbrev lineage : ContinuationLineage
lineage = record {
  target_id = 7;
  config_revision = 3;
  operation_key = codes "news_all";
  operation_config_version = 1;
  provider_contract_version = 1;
  cursor_version = 2;
  run_mode = codes "normal";
}

abbrev page_two : Fields
page_two = next_field (codes "page") (integer (pos 2)) no_fields

abbrev value_of : Result Fields → Fields
value_of (ok value) = value
value_of (err e) = no_fields

abbrev second_page : Fields
second_page =
    value_of
      (encode_continuation codec (codes "marketaux") (codes "news_all") config lineage page_two)

encode_test :
    encode_continuation codec (codes "marketaux") (codes "news_all") config lineage page_two
    ≡ ok second_page
unfolding encode_continuation text_eq get names same_number number
encode_test = refl

encode-decode_example :
    (decode_continuation codec second_page (codes "marketaux") (codes "news_all") config lineage
      ≡ ok page_two)
    × ((provider' operation' : Text) (config' : Fields) (lineage' : ContinuationLineage)
          (state' : Fields)
        → decode_continuation codec second_page provider' operation' config' lineage' ≡ ok state'
        → IsOwn codec
            (codes "marketaux")
            (codes "news_all")
            config
            lineage
            page_two
            provider'
            operation'
            config'
            lineage'
            state')
encode-decode_example =
    encode-decode codec (codes "marketaux") (codes "news_all") config lineage page_two second_page
      encode_test
