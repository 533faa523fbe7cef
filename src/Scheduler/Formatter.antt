-- ===== src/Scheduler/Formatter.antt =====
-- scheduler/multi_provider.py, `ProviderTelegramFormatter`. `isoformat` of the standard library is a
-- parameter.
use news_collect.Base.{
  ℕ, Option, none, some, List, [], ◌∷◌, ◌++◌, ◌≤◌, ◌≡◌, ltb, length, arith, if◌then◌else◌,
}
use news_collect.Base.Order.{Text, codes, text_eq}
use news_collect.Base.Result.{Result, ok, err, ◌>>=◌}
use news_collect.Feed.{ProviderDisplayItem}

label : Text → Option Text
label provider =
    if text_eq provider (codes "marketaux")
    then some (codes "News")
    else if text_eq provider (codes "finnhub")
    then some (codes "Market data")
    else if text_eq provider (codes "eia")
    then some (codes "Official energy data")
    else if text_eq provider (codes "sec_edgar")
    then some (codes "Company filing")
    else none

abbrev newline : Text
newline = 10 ∷ []

-- A URL that is missing or empty adds no line.
url_line : Option Text → Text
url_line none = []
url_line (some []) = []
url_line (some (c ∷ url)) = newline ++ c ∷ url

module _ (isoformat : ℕ → Text) where
  block : ProviderDisplayItem → Option Text → Result Text
  unfolding url_line
  block item none = err (codes "telegram_provider_unsupported")
  block item (some name) = ok (
      name
      ++ codes ": "
      ++ item.title
      ++ newline
      ++ codes "Source: "
      ++ item.source
      ++ newline
      ++ codes "Time: "
      ++ isoformat item.published_at
      ++ url_line item.canonical_url)

  -- The blocks of the items, joined by an empty line.
  blocks : ProviderDisplayItem → List ProviderDisplayItem → Result Text
  unfolding block label
  blocks item [] = block item (label item.provider)
  blocks item (next ∷ rest) = do
    first ← block item (label item.provider)
    more ← blocks next rest
    ok (first ++ newline ++ newline ++ more)

  bounded : Text → Result Text
  bounded message =
      if ltb 4096 (length message) then err (codes "telegram_message_too_long") else ok message

  unfoldable pub format : List ProviderDisplayItem → Result Text
  unfolding blocks bounded
  format [] = err (codes "telegram_feed_empty")
  format (item ∷ rest) = do message ← blocks item rest; bounded message

  bounded_le :
      (r : Result Text) {message : Text} → (r >>= bounded) ≡ ok message → length message ≤ 4096
  unfolding bounded
  bounded_le (ok text) h = ground arith
  bounded_le (err code) h = cc

  -- A message that is formatted fits in one Telegram message, whatever the items.
  format_bounded :
      (items : List ProviderDisplayItem) {message : Text}
      → format items ≡ ok message
      → length message ≤ 4096
  unfolding format
  format_bounded [] h = cc
  format_bounded (item ∷ rest) h = bounded_le (blocks item rest) h
