-- ===== src/Notifications/Life.antt =====
-- The life of the notification rows under both services that write them: the delivery service of
-- notifications/delivery.py and the claims of scheduler/multi_provider.py, in any order.
mod Keeps
pub mod Attempts
use mathlib.Core.Option
use news_collect.Base.{
  ℕ, ◌+◌, ◌≤◌, ◌<◌, ◌≡◌, refl, Option, none, some, List, [], ◌∷◌, ◌++◌, Bool, true, false, arith,
  All, if◌then◌else◌, ◌==◌, ◌⊎◌, inl, inr, Bool-cases,
}
use news_collect.Base.Order.{Text, keys}
use news_collect.Base.Rows.{find, modify, find-modify, All-modify}
use news_collect.Db.Models.{
  Notification, NotificationStatus, pending, sending, sent, failed, suppressed,
}
use news_collect.Feed.{ProviderDisplayItem}
use news_collect.Base.Keys.{Unique}
use news_collect.Notifications.Delivery
use news_collect.Notifications.Delivery.Claims.{find-claim, keys-claim}
use news_collect.Notifications.Delivery.Marks.{
  find-mark_failed, find-mark_sent, keys-mark_failed, keys-mark_sent,
}
use news_collect.Scheduler.Reliable
use news_collect.Scheduler.Reliable.Effects.{
  IsFresh, Resends, find-update_one, find-claim_new, find-keep_pending, Unique-claim_new,
  Unique-keep_pending, keys-claim_retries, keys-mark, find-mark,
}

-- One transaction of one of the services.
pub data Step (t : List Notification) : List Notification → Type 0 where
  claims : (locked : ℕ → Bool) (limit now : ℕ) → Step t (Delivery.claim locked limit now t).1
  fails : (k : ℕ) (code : Text) (now : ℕ) → Step t (Delivery.mark_failed k code now t)
  sends : (k now : ℕ) → Step t (Delivery.mark_sent k now t)
  inserts :
      (id_text : ℕ → Text) (fresh : List Notification → ℕ) (provider : Text) (now : ℕ)
      (items : List ProviderDisplayItem)
      → IsFresh fresh
      → Step t (Reliable.claim_new id_text fresh provider now items t).2
  intends :
      (id_text : ℕ → Text) (fresh : List Notification → ℕ) (provider : Text) (now : ℕ)
      (items : List ProviderDisplayItem)
      → IsFresh fresh
      → Step t (Reliable.keep_pending id_text fresh provider now items t)
  retries : (now : ℕ) (ks : List ℕ) → Step t (Reliable.claim_retries now ks t).1
  marks_sent : (ks : List ℕ) (now : ℕ) → Step t (Reliable.mark ks sent none now t)
  marks_failed :
      (ks : List ℕ) (code : Text) (now : ℕ) → Step t (Reliable.mark ks failed (some code) now t)

pub data Reach (s : List Notification) : List Notification → Type 0 where
  here : Reach s s
  next : {t u : List Notification} → Reach s t → Step t u → Reach s u

-- The diagram of one row: it waits, it is being sent, and it ends SENT or FAILED, where FAILED waits
-- again. The `retry_count` never falls, and rises by one at most.
abbrev pub waits : NotificationStatus → Bool
waits sent = false
waits suppressed = false
waits _ = true

pub data Moves (row row' : Notification) : Type 0 where
  starts :
      waits row.status ≡ true
      → row'.status ≡ sending
      → row.retry_count ≤ row'.retry_count
      → row'.retry_count < Delivery.max_attempts
      → Moves row row'
  succeeds :
      row.status ≡ sending
      → row'.status ≡ sent
      → row'.retry_count ≡ row.retry_count
      → Moves row row'
  gives_up :
      row.status ≡ sending
      → row'.status ≡ failed
      → row.retry_count ≤ row'.retry_count
      → row'.retry_count ≤ row.retry_count + 1
      → Moves row row'

pub data Follows (row : Notification) : Notification → Type 0 where
  stays : Follows row row
  moves : {mid row' : Notification} → Follows row mid → Moves mid row' → Follows row row'
