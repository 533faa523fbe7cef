-- ===== src/Scheduler/Reliable/Dispatch.antt =====
-- scheduler/multi_provider.py: `deliver_new`, `deliver_retries` and `_deliver`. One message carries
-- all the items of a call. The transport and the clock are parameters over a state `W` of the outside
-- world. The transport answers or raises a `RuntimeError` or a `ValueError`, which `_deliver` catches;
-- a transport that raises anything else, after which the rows stay SENDING, is not modelled.
use news_collect.Base.{
  ℕ, Option, none, some, List, [], ◌∷◌, Bool, ◌&&◌, leb, ltb, if◌then◌else◌, length, keep, any,
  ◌==◌,
}
use news_collect.Base.Order.{Text, codes, text_eq, keys}
use news_collect.Base.Result.{Result, ok, err}
use news_collect.Db.Models.{Notification, sent, failed}
use news_collect.Feed.{ProviderDisplayItem, FeedRow, by_content_ids}
use news_collect.Scheduler.Formatter.{format}
use news_collect.Scheduler.Reliable.{claim_new, candidates, claim_retries, exhausted, mark}

-- `RuntimeError` and `ValueError` carry their text.
pub data Answer : Type 0 where
  error : Text → Answer
  response : ℕ → Answer

abbrev request_rejected : Text
request_rejected = codes "telegram_request_rejected"

-- `str(exc)` if it is one of the known codes.
safe_code : Text → Text
safe_code text =
    if text_eq text request_rejected
    then text
    else if text_eq text (codes "telegram_transport_failed")
    then text
    else if text_eq text (codes "telegram_message_too_long")
    then text
    else if text_eq text (codes "telegram_provider_unsupported")
    then text
    else codes "telegram_delivery_failed"

-- The failure of an answer, if it is one.
failure : Answer → Option Text
unfolding safe_code
failure (error text) = some (safe_code text)
failure (response status) =
    if leb 200 status && ltb status 300 then none else some (safe_code request_rejected)

module _ {W : Type 0} (isoformat : ℕ → Text) (send : Text → W → Answer × W) (now : W → ℕ × W) where
  transmit : Result Text → W → Answer × W
  transmit (ok message) w = send message w
  transmit (err code) w = (error code, w)

  -- `_mark` of the ids, then the counts over the items. A failure reads no clock.
  finish :
      ℕ → List ℕ → Option Text → List Notification → W → (ℕ × ℕ × List Text) × List Notification × W
  finish n ids none table w = let (t, w') = now w in ((n, 0, []), mark ids sent none t table, w')
  finish n ids (some code) table w = ((0, n, code ∷ []), mark ids failed (some code) 0 table, w)

  unfoldable pub deliver_items :
      List ProviderDisplayItem
      → List ℕ
      → List Notification
      → W
      → (ℕ × ℕ × List Text) × List Notification × W
  unfolding finish transmit failure
  deliver_items [] ids table w = ((0, 0, []), table, w)
  deliver_items (item ∷ items) ids table w =
      let (answer, w') = transmit (format isoformat (item ∷ items)) w in
      finish (length (item ∷ items)) ids (failure answer) table w'

  unfoldable pub deliver_new :
      (ℕ → Text)
      → (List Notification → ℕ)
      → Text
      → List ProviderDisplayItem
      → List Notification
      → W
      → (ℕ × ℕ × List Text) × List Notification × W
  deliver_new id_text fresh provider items table w =
      let (t, w') = now w in
      let (claimed, ids, table') = claim_new id_text fresh provider t items table in
      deliver_items claimed ids table' w'

  -- `item_id for item_id, content_id in zip(...) if content_id in available`
  abbrev is_shown : List ProviderDisplayItem → ℕ × ℕ → Bool
  is_shown items pair = any (λ item. item.content_item_id == pair.1) items

  unfoldable pub deliver_retries :
      List FeedRow → ℕ → List Notification → W → (ℕ × ℕ × ℕ) × List Notification × W
  deliver_retries feed limit table w =
      let (t, w') = now w in
      let (pairs, table') = claim_retries t (candidates limit t table) table in
      let items = by_content_ids feed (keys (λ pair. pair.1) pairs) in
      let ids = keys (λ pair. pair.0) (keep (is_shown items) pairs) in
      let (counts, table'', w'') = deliver_items items ids table' w' in
      ((counts.0, counts.1, exhausted table'), table'', w'')
