-- ===== src/Notifications/Life/Attempts.antt =====
-- What holds of a notification for the rest of its life.
use news_collect.Base.{ℕ, ◌≤◌, ◌<◌, ◌≡◌, refl, some, List, arith}
use news_collect.Base.Order.{keys}
use news_collect.Base.Rows.{find}
use news_collect.Base.Keys.{Unique}
use news_collect.Db.Models.{Notification, sending, sent}
use news_collect.Notifications.Delivery.{id_of, max_attempts}
use news_collect.Notifications.Life.{
  Moves, starts, succeeds, gives_up, Follows, stays, moves, Reach,
}
use news_collect.Notifications.Life.Keeps.{Reach-Keeps}

-- No row has a `retry_count` above the limit of five, and one that is being sent is below it.
pub record IsBounded (row : Notification) : Type 0 where
  pub within : row.retry_count ≤ max_attempts
  pub attempt_left : row.status ≡ sending → row.retry_count < max_attempts

Moves-IsBounded : {row row' : Notification} → Moves row row' → IsBounded row → IsBounded row'
Moves-IsBounded (starts w s up left) b = ground arith
Moves-IsBounded (succeeds s s' same) b = ground arith
Moves-IsBounded (gives_up s s' up one) b = ground arith

Follows-IsBounded : {row row' : Notification} → Follows row row' → IsBounded row → IsBounded row'
Follows-IsBounded stays b = b
Follows-IsBounded (moves f m) b = Moves-IsBounded m (Follows-IsBounded f b)

Moves-le : {row row' : Notification} → Moves row row' → row.retry_count ≤ row'.retry_count
Moves-le (starts w s up left) = up
Moves-le (succeeds s s' same) = omega arith
Moves-le (gives_up s s' up one) = up

Follows-le : {row row' : Notification} → Follows row row' → row.retry_count ≤ row'.retry_count
Follows-le stays = omega arith
Follows-le (moves f m) = omega (arith, Follows-le f, Moves-le m)

Moves-not_sent : {row row' : Notification} → Moves row row' → ¬ (row.status ≡ sent)
Moves-not_sent (starts w s up left) h = ground arith
Moves-not_sent (succeeds s s' same) h = ground arith
Moves-not_sent (gives_up s s' up one) h = ground arith

Follows-sent : {row row' : Notification} → Follows row row' → row.status ≡ sent → row' ≡ row
Follows-sent stays h = refl
Follows-sent (moves f m) h = absurd (Moves-not_sent m (rw (Follows-sent f h) h))

module _ {s t : List Notification} (j : ℕ) (row : Notification) (unique : Unique (keys id_of s))
    (found : find id_of j s ≡ some row) (reach : Reach s t) where
  -- Whatever transactions both services run, in any order and any number, a row whose `retry_count` is at
  -- most five, and below five if it is SENDING, is still in the table, its `retry_count` has not fallen
  -- and is at most five. (What `retry_count` does not count is not bounded: the first send of a new
  -- row, and another claim of a row that hangs in SENDING.)
  pub retry_count_bounded :
      IsBounded row
      → (row' : Notification) × (find id_of j t ≡ some row')
        × (row.retry_count ≤ row'.retry_count)
        × (row'.retry_count ≤ max_attempts)
  retry_count_bounded bounded =
      let (row', at, follows) = Reach-Keeps j row unique found reach in
      (row', at, Follows-le follows, (Follows-IsBounded follows bounded).within)

  -- A notification that was sent is never claimed, sent, failed or changed again, whatever
  -- transactions both services run, in any order and any number.
  pub sent_is_final : row.status ≡ sent → find id_of j t ≡ some row
  sent_is_final done =
      let (row', at, follows) = Reach-Keeps j row unique found reach in
      rw (← Follows-sent follows done) at
