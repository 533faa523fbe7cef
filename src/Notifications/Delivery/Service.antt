-- ===== src/Notifications/Delivery/Service.antt =====
-- notifications/delivery.py: the loop of `NotificationDeliveryService.deliver`.
pub mod Settles
use news_collect.Base.{
  ℕ, suc, Option, none, some, List, [], ◌∷◌, ◌++◌, Bool, true, false, ◌&&◌, leb, if◌then◌else◌,
}
use news_collect.Base.Order.{Text, codes, sorted_set}
use news_collect.Base.Result.{Result, ok, err}
use news_collect.Db.Models.{Notification}
use news_collect.Feed.{ProviderDisplayItem, FeedRow, by_content_ids}
use news_collect.Scheduler.Formatter.{format}
use news_collect.Notifications.Delivery.{
  Answer, raised, response, accepted, content_ids, content_missing, delivery_failed,
  credential_missing, claim, mark_failed, mark_sent, report_status, DeliveryReport, blocked,
}

-- The loop's variables, with the table and the outside world.
pub record Progress (W : Type 0) : Type 0 where
  pub table : List Notification
  pub world : W
  pub sent : ℕ
  pub failed : ℕ
  pub errors : List Text

module _ {W C : Type 0} (isoformat : ℕ → Text) (send : C → Text → W → Answer × W)
    (now : W → ℕ × W) where
  -- `except Exception`: a message that cannot be formatted counts as a raised exception.
  transmit : C → Result Text → W → Answer × W
  transmit credential (ok message) w = send credential message w
  transmit credential (err code) w = (raised, w)

  record_failure : ℕ → Text → Progress W → Progress W
  record_failure k code p =
      let (t, w) = now p.world in
      record p {
        table = mark_failed k code t p.table;
        world = w;
        failed = suc p.failed;
        errors = p.errors ++ code ∷ [];
      }

  record_sent : ℕ → Progress W → Progress W
  record_sent k p =
      let (t, w) = now p.world in
      record p { table = mark_sent k t p.table; world = w; sent = suc p.sent }

  after_answer : ℕ → Bool → Progress W → Progress W
  unfolding record_failure record_sent
  after_answer k true p = record_sent k p
  after_answer k false p = record_failure k delivery_failed p

  -- `len(items) != 1` fails the row; one item is formatted and sent.
  deliver_items : C → ℕ → List ProviderDisplayItem → Progress W → Progress W
  unfolding after_answer transmit accepted
  deliver_items credential k (item ∷ []) p =
      let (answer, w) = transmit credential (format isoformat (item ∷ [])) p.world in
      after_answer k (accepted answer) (record p { world = w })
  deliver_items credential k _ p = record_failure k content_missing p

  unfoldable pub deliver_rows : List FeedRow → C → List (ℕ × Option ℕ) → Progress W → Progress W
  unfolding deliver_items content_ids
  deliver_rows feed credential [] p = p
  deliver_rows feed credential ((k, content) ∷ rows) p =
      deliver_rows feed credential rows
        (deliver_items credential k (by_content_ids feed (content_ids content)) p)

  -- With a credential: the rows claimed at the time of `_claim`, then the loop over them.
  unfoldable pub deliver_with :
      List FeedRow
      → (ℕ → Bool)
      → C
      → ℕ
      → List Notification
      → W
      → List Notification × W × DeliveryReport
  deliver_with feed locked credential limit table w =
      let (t, w') = now w in
      let (rows, table') = claim locked limit t table in
      let p =
        deliver_rows feed credential rows
          (record { table = table'; world = w'; sent = 0; failed = 0; errors = [] }) in
      (
        p.table,
        p.world,
        record {
          status = report_status rows p.sent p.failed;
          sent = p.sent;
          failed = p.failed;
          safe_errors = sorted_set p.errors;
        },
      )

  deliver_credential :
      List FeedRow
      → (ℕ → Bool)
      → Option C
      → ℕ
      → List Notification
      → W
      → List Notification × W × DeliveryReport
  unfolding deliver_with
  deliver_credential feed locked none limit table w = (
    table,
    w,
    record { status = blocked; sent = 0; failed = 0; safe_errors = credential_missing ∷ [] },
  )
  deliver_credential feed locked (some credential) limit table w =
      deliver_with feed locked credential limit table w

  unfoldable pub deliver :
      List FeedRow
      → (ℕ → Bool)
      → Option C
      → ℕ
      → List Notification
      → W
      → Result (List Notification × W × DeliveryReport)
  unfolding deliver_credential
  deliver feed locked credential limit table w =
      if leb 1 limit && leb limit 500
      then ok (deliver_credential feed locked credential limit table w)
      else err (codes "notification_delivery_limit_invalid")
