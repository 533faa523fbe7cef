-- ===== src/Scheduler/Reliable.antt =====
-- scheduler/multi_provider.py, `ReliableProviderNotificationService` and
-- `PendingProviderNotificationService`: notification rows claimed once per content item, retried and
-- marked. New row ids come from the database, and a UUID is printed by the standard library: both are
-- parameters.
pub mod Once
pub mod Effects
pub mod Dispatch
use news_collect.Base.{
  ℕ, ◌+◌, ◌-◌, Option, none, some, List, [], ◌∷◌, ◌++◌, Bool, true, false, not, ◌&&◌, ◌||◌, ltb,
  leb, ◌==◌, if◌then◌else◌, seconds, take, keep, any, contains, length,
}
use news_collect.Base.Order.{Text, codes, text_eq, sort_by, keys}
use news_collect.Base.Rows.{find, modify}
use news_collect.Base.Result.{Result, ok, err}
use news_collect.Db.Models.{
  Notification, p3, telegram_push, NotificationStatus, pending, sending, sent, failed, suppressed,
}
use news_collect.Feed.{ProviderDisplayItem, FeedRow, by_content_ids}
use news_collect.Scheduler.Formatter.{format}

abbrev pub policy_id : Text
policy_id = codes "spec-0038-multi-provider-telegram"

abbrev pub max_delivery_attempts : ℕ
max_delivery_attempts = 3

abbrev pub sending_stale_after_seconds : ℕ
sending_stale_after_seconds = 300

abbrev pub id_of : Notification → ℕ
id_of row = row.id

unfoldable pub has_key : Text → Notification → Bool
has_key key row = text_eq row.dedup_key key

-- `insert(...).on_conflict_do_nothing(index_elements=["dedup_key"]).returning(id)`
unfoldable pub insert_new : Notification → List Notification → Option ℕ × List Notification
unfolding has_key
insert_new row table =
    if any (has_key row.dedup_key) table then (none, table) else (some row.id, table ++ row ∷ [])

-- `claimed.append(item); ids.append(notification_id)` where the insert returned an id.
abbrev pub add_claim :
    ProviderDisplayItem
    → Option ℕ
    → List ProviderDisplayItem × List ℕ × List Notification
    → List ProviderDisplayItem × List ℕ × List Notification
add_claim item none (items, ids, table) = (items, ids, table)
add_claim item (some k) (items, ids, table) = (item ∷ items, k ∷ ids, table)

module _ (id_text : ℕ → Text) (fresh : List Notification → ℕ) where
  unfoldable pub dedup_key : Text → ProviderDisplayItem → Text
  dedup_key provider item = provider ++ codes ":telegram:" ++ id_text item.content_item_id

  unfoldable pub new_row :
      Text → NotificationStatus → ℕ → ProviderDisplayItem → List Notification → Notification
  unfolding dedup_key
  new_row provider status now item table = record {
    id = fresh table;
    content_item_id = some item.content_item_id;
    priority = p3;
    priority_reason = codes "new_" ++ provider ++ codes "_display_item";
    policy_rule_id = policy_id;
    policy_version = codes "1";
    channel = telegram_push;
    dedup_key = dedup_key provider item;
    payload_version = 1;
    status = status;
    scheduled_at = some now;
    sent_at = none;
    failure_code = none;
    retry_count = 0;
  }

  unfoldable pub claim_new :
      Text
      → ℕ
      → List ProviderDisplayItem
      → List Notification
      → List ProviderDisplayItem × List ℕ × List Notification
  unfolding insert_new new_row
  claim_new provider now [] table = ([], [], table)
  claim_new provider now (item ∷ items) table =
      let (inserted, table') = insert_new (new_row provider sending now item table) table in
      add_claim item inserted (claim_new provider now items table')

  -- `PendingProviderNotificationService.deliver_new`: the intent is kept, nothing is claimed.
  unfoldable pub keep_pending :
      Text → ℕ → List ProviderDisplayItem → List Notification → List Notification
  unfolding insert_new new_row
  keep_pending provider now [] table = table
  keep_pending provider now (item ∷ items) table =
      keep_pending provider now items (insert_new (new_row provider pending now item table) table).1

abbrev pub is_open : NotificationStatus → Bool → Bool
is_open pending stale = true
is_open failed stale = true
is_open sending stale = stale
is_open _ stale = false

abbrev pub before : Option ℕ → ℕ → Bool
before none stale = false
before (some t) stale = ltb t stale

-- The `WHERE` of the update, on the row as it is then.
unfoldable pub retryable : ℕ → Notification → Bool
retryable now row =
    let stale = now - seconds sending_stale_after_seconds in
    ltb row.retry_count max_delivery_attempts && is_open row.status (before row.scheduled_at stale)

unfoldable pub candidate : ℕ → Notification → Bool
unfolding retryable
candidate now row = text_eq row.policy_rule_id policy_id && retryable now row

-- `ORDER BY scheduled_at, id`: a NULL comes last.
earlier : Option ℕ → Option ℕ → Bool → Bool
earlier none none ids = ids
earlier none (some t) ids = false
earlier (some s) none ids = true
earlier (some s) (some t) ids = ltb s t || s == t && ids

unfoldable pub before_row : Notification → Notification → Bool
unfolding earlier
before_row a b = earlier a.scheduled_at b.scheduled_at (leb a.id b.id)

unfoldable pub candidates : ℕ → ℕ → List Notification → List ℕ
unfolding candidate before_row sort_by
candidates limit now table =
    keys id_of (take limit (sort_by before_row (keep (candidate now) table)))

-- `case((status == PENDING, retry_count), else_=retry_count + 1)`
abbrev pub retry_count_of : NotificationStatus → ℕ → ℕ
retry_count_of pending n = n
retry_count_of _ n = n + 1

unfoldable pub resend : ℕ → Notification → Notification
resend now row = record row {
  retry_count = retry_count_of row.status row.retry_count;
  status = sending;
  scheduled_at = some now;
  failure_code = none;
}

-- The update of one candidate: the row that it changed, if its test still held.
resend_found :
    ℕ → ℕ → Option Notification → List Notification → Option Notification × List Notification
resend_found now k none table = (none, table)
resend_found now k (some row) table =
    if retryable now row then (some row, modify id_of k (resend now) table) else (none, table)

unfoldable pub update_one : ℕ → ℕ → List Notification → Option Notification × List Notification
unfolding resend_found
update_one now k table = resend_found now k (find id_of k table) table

-- `ids.append(row.id); content_ids.append(row.content_item_id)` for a row with content.
abbrev pub add_pair : Option Notification → List (ℕ × ℕ) → List (ℕ × ℕ)
add_pair none pairs = pairs
add_pair (some row) pairs = elim row.content_item_id [
  | none ↦ pairs
  | some content ↦ (row.id, content) ∷ pairs
]

unfoldable pub claim_retries : ℕ → List ℕ → List Notification → List (ℕ × ℕ) × List Notification
unfolding update_one
claim_retries now [] table = ([], table)
claim_retries now (k ∷ ks) table =
    let (row, table') = update_one now k table in
    let (pairs, last) = claim_retries now ks table' in (add_pair row pairs, last)

abbrev pub failed_or_sending : NotificationStatus → Bool
failed_or_sending failed = true
failed_or_sending sending = true
failed_or_sending _ = false

unfoldable pub exhausted : List Notification → ℕ
exhausted table = length (
    keep
      (λ row.
        text_eq row.policy_rule_id policy_id
        && leb max_delivery_attempts row.retry_count
        && failed_or_sending row.status)
      table)

-- `_mark`: the rows of those ids that are still SENDING.
abbrev pub stamp : NotificationStatus → ℕ → Option ℕ
stamp sent now = some now
stamp _ now = none

pub mark_row :
    NotificationStatus → Option Text → ℕ → NotificationStatus → Notification → Notification
mark_row status failure now sending row = record row {
  status = status;
  sent_at = stamp status now;
  failure_code = failure;
}
mark_row status failure now _ row = row

unfoldable pub mark :
    List ℕ → NotificationStatus → Option Text → ℕ → List Notification → List Notification
unfolding mark_row
mark [] status failure now table = table
mark (k ∷ ks) status failure now table =
    mark ks status failure now
      (modify id_of k (λ row. mark_row status failure now row.status row) table)
