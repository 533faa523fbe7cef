-- ===== src/Feed.antt =====
-- src/market_intelligence/feed/provider_feed.py: the display projection of stored content, read by
-- content ids.
use news_collect.Base.{ℕ, Option, none, some, List, [], ◌∷◌, ◌==◌, if◌then◌else◌}
use news_collect.Base.Order.{Text}

pub record ProviderDisplayItem : Type 0 where
  pub content_item_id : ℕ
  pub provider : Text
  pub title : Text
  pub source : Text
  pub published_at : ℕ
  pub canonical_url : Option Text

-- A row of the join of `ContentItem` with its `Source`.
pub record FeedRow : Type 0 where
  pub id : ℕ
  pub title : Option Text
  pub source_name : Text
  pub access_method : Text
  pub source_published_at : Option ℕ
  pub canonical_url : Option Text

display : FeedRow → Option Text → Option ℕ → Option ProviderDisplayItem
display row (some title) (some published) = some (record {
  content_item_id = row.id;
  provider = row.access_method;
  title = title;
  source = row.source_name;
  published_at = published;
  canonical_url = row.canonical_url;
})
display row _ _ = none

-- `by_id.get(item_id)`
unfoldable pub by_id : ℕ → List FeedRow → Option ProviderDisplayItem
unfolding display
by_id k [] = none
by_id k (row ∷ rows) =
    if row.id == k then display row row.title row.source_published_at else by_id k rows

abbrev cons_some : Option ProviderDisplayItem → List ProviderDisplayItem → List ProviderDisplayItem
cons_some none rest = rest
cons_some (some item) rest = item ∷ rest

-- The items of the ids, in the order of the ids; an id with no complete row gives none.
unfoldable pub by_content_ids : List FeedRow → List ℕ → List ProviderDisplayItem
unfolding by_id
by_content_ids rows [] = []
by_content_ids rows (k ∷ ks) = cons_some (by_id k rows) (by_content_ids rows ks)
