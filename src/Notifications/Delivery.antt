-- ===== src/Notifications/Delivery.antt =====
-- notifications/delivery.py: `NotificationDeliveryService`. A table is the list of its rows, a
-- transaction a function on the table; rows that another session has locked are given by a test.
-- The transport, the clock and `isoformat` are parameters over a state `W` of the outside world.
pub mod Service
pub mod Claims
pub mod Backoff
pub mod Marks
use news_collect.Base.{
  ℕ, ◌+◌, ◌-◌, ◌*◌, ◌^◌, ◌<◌, min, Option, none, some, List, [], ◌∷◌, ◌++◌, map, Bool, true, false,
  not, ◌&&◌, ◌||◌, ltb, leb, ◌==◌, if◌then◌else◌, seconds, take, keep,
}
use news_collect.Base.Order.{Text, codes, text_eq, sort_by, sorted_set}
use news_collect.Base.Rows.{find, modify}
use news_collect.Base.Result.{Result, ok, err}
use news_collect.Db.Models.{
  Notification, NotificationChannel, telegram_push, NotificationStatus, pending, sending, sent,
  failed, suppressed,
}
use news_collect.Feed.{ProviderDisplayItem, FeedRow, by_content_ids}
use news_collect.Scheduler.Formatter.{format}

abbrev pub policy_id : Text
policy_id = codes "spec-0038-multi-provider-telegram"

abbrev pub max_attempts : ℕ
max_attempts = 5

abbrev pub is_telegram : NotificationChannel → Bool
is_telegram telegram_push = true

-- The `or_` of the query: waiting, failed, or sending for too long.
abbrev pub is_open : NotificationStatus → Bool → Bool
is_open pending stale = true
is_open failed stale = true
is_open sending stale = stale
is_open _ stale = false

-- Comparisons with a NULL are not true.
abbrev pub at_most : Option ℕ → ℕ → Bool
at_most none now = false
at_most (some t) now = leb t now

abbrev pub before : Option ℕ → ℕ → Bool
before none stale = false
before (some t) stale = ltb t stale

-- The `WHERE` of `_claim`.
unfoldable pub due : ℕ → Notification → Bool
due now row =
    let stale = now - seconds 600 in
    text_eq row.policy_rule_id policy_id
    && is_telegram row.channel
    && ltb row.retry_count max_attempts
    && at_most row.scheduled_at now
    && is_open row.status (before row.scheduled_at stale)

instant : Option ℕ → ℕ
instant none = 0
instant (some t) = t

-- `ORDER BY scheduled_at, id`, on rows that have a time.
unfoldable pub earlier : Notification → Notification → Bool
unfolding instant
earlier a b =
    let s = instant a.scheduled_at in
    let t = instant b.scheduled_at in ltb s t || s == t && leb a.id b.id

abbrev pub id_of : Notification → ℕ
id_of row = row.id

-- The rows that `_claim` selects: due, not locked by another session, oldest first.
unfoldable pub selected : (ℕ → Bool) → ℕ → ℕ → List Notification → List Notification
unfolding due earlier sort_by
selected locked limit now table =
    take limit (sort_by earlier (keep (λ row. due now row && not (locked row.id)) table))

abbrev pub start_sending : ℕ → Notification → Notification
start_sending now row = record row { status = sending; scheduled_at = some now }

unfoldable pub claim_rows : ℕ → List Notification → List Notification → List Notification
claim_rows now [] table = table
claim_rows now (row ∷ rows) table =
    claim_rows now rows (modify id_of row.id (start_sending now) table)

abbrev pub claimed_pair : Notification → ℕ × Option ℕ
claimed_pair row = (row.id, row.content_item_id)

unfoldable pub claim :
    (ℕ → Bool) → ℕ → ℕ → List Notification → List (ℕ × Option ℕ) × List Notification
unfolding selected claim_rows
claim locked limit now table =
    let rows = selected locked limit now table in (map claimed_pair rows, claim_rows now rows table)

-- `min(30 * (2 ** max(row.retry_count - 1, 0)), 3600)`, with the count already raised.
unfoldable pub backoff : ℕ → ℕ
backoff retry_count = min (30 * 2 ^ (retry_count - 1)) 3600

-- The change of a row that is still SENDING; any other row is left alone.
pub fail_row : Text → ℕ → NotificationStatus → Notification → Notification
unfolding backoff
fail_row code now sending row = record row {
  retry_count = row.retry_count + 1;
  status = failed;
  failure_code = some code;
  scheduled_at = some (now + seconds (backoff (row.retry_count + 1)));
}
fail_row code now _ row = row

pub sent_row : ℕ → NotificationStatus → Notification → Notification
sent_row now sending row = record row { status = sent; failure_code = none; sent_at = some now }
sent_row now _ row = row

unfoldable pub mark_failed : ℕ → Text → ℕ → List Notification → List Notification
unfolding fail_row
mark_failed k code now = modify id_of k (λ row. fail_row code now row.status row)

unfoldable pub mark_sent : ℕ → ℕ → List Notification → List Notification
unfolding sent_row
mark_sent k now = modify id_of k (λ row. sent_row now row.status row)

-- What `send` does: an exception, or a response with its status code.
pub data Answer : Type 0 where
  raised : Answer
  response : ℕ → Answer

pub data DeliveryStatus : Type 0 where
  pass partial failed_all blocked no_new_items : DeliveryStatus

pub record DeliveryReport : Type 0 where
  pub status : DeliveryStatus
  pub sent : ℕ
  pub failed : ℕ
  pub safe_errors : List Text

abbrev pub credential_missing : Text
credential_missing = codes "telegram_runtime_credential_missing"

abbrev pub content_missing : Text
content_missing = codes "notification_content_missing"

abbrev pub delivery_failed : Text
delivery_failed = codes "telegram_delivery_failed"

accepted : Answer → Bool
accepted raised = false
accepted (response status) = leb 200 status && ltb status 300

content_ids : Option ℕ → List ℕ
content_ids none = []
content_ids (some k) = k ∷ []

-- `"PASS" if not failed else "PARTIAL" if sent else "FAILED"`, and NO_NEW_ITEMS with no rows.
unfoldable pub report_status : List (ℕ × Option ℕ) → ℕ → ℕ → DeliveryStatus
report_status [] sent_count failed_count = no_new_items
report_status (row ∷ rows) sent_count failed_count =
    if failed_count == 0 then pass else if sent_count == 0 then failed_all else partial
