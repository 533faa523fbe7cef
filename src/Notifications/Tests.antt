-- ===== src/Notifications/Tests.antt =====
-- Runs of the notification services on small tables.
use mathlib.Core.Option
use news_collect.Base.{
  ℕ, ◌+◌, ◌≡◌, ◌≤◌, refl, none, some, List, [], ◌∷◌, Bool, true, false, arith, length, contains,
  ◌⊎◌, if◌then◌else◌,
}
use news_collect.Base.Order.{Text, codes, text_eq, insert_by}
use news_collect.Base.Rows.{find}
use news_collect.Db.Models.{
  Notification, NotificationStatus, p3, telegram_push, pending, sending, sent,
}
use news_collect.Feed.{FeedRow, by_content_ids}
use news_collect.Scheduler.Formatter.{format}
use news_collect.Notifications.Delivery.{
  id_of, policy_id, claim, mark_failed, max_attempts, Answer, response, delivery_failed,
}
use news_collect.Notifications.Delivery.Claims.{claim_exact, ids}
use news_collect.Notifications.Delivery.Service.{deliver_with, deliver_rows}
use news_collect.Notifications.Delivery.Service.Settles.{deliver-settles, claimed_ids, Done}
use news_collect.Notifications.Life.{Reach, here, next, claims, fails}
use news_collect.Notifications.Life.Attempts.{IsBounded, retry_count_bounded, sent_is_final}

abbrev row : ℕ → NotificationStatus → ℕ → Notification
row k status n = record {
  id = k;
  content_item_id = some (k + 100);
  priority = p3;
  priority_reason = codes "new_eia_display_item";
  policy_rule_id = policy_id;
  policy_version = codes "1";
  channel = telegram_push;
  dedup_key = codes "eia:telegram:1";
  payload_version = 1;
  status = status;
  scheduled_at = some 5;
  sent_at = none;
  failure_code = none;
  retry_count = n;
}

abbrev waiting : Notification
waiting = row 1 pending 0

abbrev on_its_way : Notification
on_its_way = row 2 sending 1

abbrev done : Notification
done = row 3 sent 0

abbrev table : List Notification
table = waiting ∷ on_its_way ∷ done ∷ []

abbrev unlocked : ℕ → Bool
unlocked k = false

abbrev claimed : List Notification
claimed = (claim unlocked 10 9 table).1

abbrev later : List Notification
later = mark_failed 1 delivery_failed 20 claimed

Reach-later : Reach table later
Reach-later = next (next here (claims unlocked 10 9)) (fails 1 delivery_failed 20)

waiting-IsBounded : IsBounded waiting
waiting-IsBounded = record { within = omega arith; attempt_left = λ h. ground arith }

sent_is_final_example : find id_of 3 later ≡ some done
sent_is_final_example = sent_is_final 3 done (refl, (refl, (refl, tt))) refl Reach-later refl

retry_count_bounded_example :
    (row' : Notification) × (find id_of 1 later ≡ some row')
    × (0 ≤ row'.retry_count)
    × (row'.retry_count ≤ max_attempts)
retry_count_bounded_example =
    retry_count_bounded 1 waiting (refl, (refl, (refl, tt))) refl Reach-later waiting-IsBounded

claim_exact_example :
    let (rows, table') = claim unlocked 10 9 table in
    (length rows ≤ 10)
    × (find id_of 1 table' ≡ (
        if contains 1 (ids rows)
        then Option.map
            (λ (row : Notification). record row { status = sending; scheduled_at = some 9 })
            (find id_of 1 table)
        else find id_of 1 table))
claim_exact_example = claim_exact unlocked 10 9 table 1

-- A transport that answers 200, in a world that is a clock.
abbrev send : ℕ → Text → ℕ → Answer × ℕ
send credential message w = (response 200, w + 1)

abbrev clock : ℕ → ℕ × ℕ
clock w = (w, w + 1)

abbrev isoformat : ℕ → Text
isoformat t = t ∷ []

abbrev feed : List FeedRow
feed =
    record {
      id = 101;
      title = some (codes "Weekly stocks");
      source_name = codes "EIA";
      access_method = codes "eia";
      source_published_at = some 3;
      canonical_url = none;
    }
    ∷ []

deliver-settles_example :
    let (table', w', report) = deliver_with isoformat send clock feed unlocked 7 10 table 9 in
    (report.sent + report.failed ≡ length (claim unlocked 10 9 table).0)
    × (report.sent + report.failed ≤ 10)
    × (((contains 1 (claimed_ids isoformat send clock feed unlocked 7 10 table 9) ≡ true)
          × Done (find id_of 1 table'))
        ⊎ ((contains 1 (claimed_ids isoformat send clock feed unlocked 7 10 table 9) ≡ false)
            × (find id_of 1 table' ≡ find id_of 1 table)))
deliver-settles_example = deliver-settles isoformat send clock feed unlocked 7 10 table 9 1

-- The waiting row is sent, and it is the only one.
deliver_test : (deliver_with isoformat send clock feed unlocked 7 10 table 9).2.sent ≡ 1
unfolding deliver_with deliver_rows claim text_eq insert_by by_content_ids format
deliver_test = refl
