-- ===== src/Notifications/Delivery/Backoff.antt =====
-- The wait of a failed row before it may be claimed again.
use native.Mathlib.Nat.{pow-suc}
use news_collect.Base.{
  ℕ, zero, suc, ◌+◌, ◌*◌, ◌-◌, ◌^◌, ◌≤◌, ◌<◌, ◌≡◌, refl, min, some, List, false, arith, seconds,
}
use news_collect.Base.Order.{Text}
use news_collect.Base.Rows.{find}
use news_collect.Db.Models.{Notification, sending, failed}
use news_collect.Notifications.Delivery.{backoff, due, id_of, mark_failed, fail_row}
use news_collect.Notifications.Delivery.Marks.{find-mark_failed}

one-le-pow : (n : ℕ) → 1 ≤ 2 ^ n
one-le-pow zero = omega arith
one-le-pow (suc n) = rw pow-suc (omega (arith, one-le-pow n))

pub backoff_bounds : (n : ℕ) → (30 ≤ backoff n) × (backoff n ≤ 3600)
unfolding backoff
backoff_bounds n = (omega (arith, one-le-pow (n - 1)), omega arith)

pred-two : (n : ℕ) → suc (suc n) - 1 ≡ suc n
pred-two n = omega arith

pred-one : (n : ℕ) → suc n - 1 ≡ n
pred-one n = omega arith

-- The n-th wait is twice the one before, until it reaches an hour.
pub backoff-suc : (n : ℕ) → backoff (suc (suc n)) ≡ min (2 * backoff (suc n)) 3600
unfolding backoff
backoff-suc n = rw (pred-two n, pred-one n, pow-suc) (omega arith)

-- A row is not due before its time, whatever else it holds.
not_due :
    (now t : ℕ) (row : Notification) → row.scheduled_at ≡ some t → now < t → due now row ≡ false
unfolding due
not_due now t row at h = ground arith

fail_row_sending :
    (code : Text) (now : ℕ) (row : Notification)
    → row.status ≡ sending
    → ((fail_row code now row.status row).status ≡ failed)
      × ((fail_row code now row.status row).retry_count ≡ row.retry_count + 1)
      × ((fail_row code now row.status row).scheduled_at
          ≡ some (now + seconds (backoff (row.retry_count + 1))))
unfolding mark_failed
fail_row_sending code now row s = rw (s, fail_row) (refl, refl, refl)

-- A row that fails while SENDING becomes FAILED with one more attempt counted; it is then not due
-- for the wait of that attempt, which is at least 30 seconds and at most an hour.
pub failed-waits :
    (k : ℕ) (code : Text) (now later : ℕ) (table : List Notification) (row : Notification)
    → find id_of k table ≡ some row
    → row.status ≡ sending
    → later < now + seconds (backoff (row.retry_count + 1))
    → (row' : Notification) × (find id_of k (mark_failed k code now table) ≡ some row')
      × (row'.status ≡ failed)
      × (row'.retry_count ≡ row.retry_count + 1)
      × (due later row' ≡ false)
      × (30 ≤ backoff row'.retry_count)
      × (backoff row'.retry_count ≤ 3600)
failed-waits k code now later table row h s wait =
    let row' = fail_row code now row.status row in
    let (status, count, at) = fail_row_sending code now row s in
    let bounds = backoff_bounds row'.retry_count in
    (
      row',
      ground (arith, find-mark_failed k now table k code),
      status,
      count,
      not_due later _ row' at wait,
      bounds.0,
      bounds.1,
    )
