-- ===== src/Notifications/Life/Keeps.antt =====
-- Each transaction moves the row of a key along the diagram, or leaves it alone.
use mathlib.Core.Option
use news_collect.Base.{
  ℕ, ◌≡◌, refl, Option, none, some, List, [], ◌∷◌, Bool, true, arith, if◌then◌else◌, ◌==◌, ◌⊎◌, inl,
  inr, Bool-cases,
}
use news_collect.Base.Order.{Text, keys}
use news_collect.Base.Rows.{find}
use news_collect.Db.Models.{Notification, NotificationStatus, sending, sent, failed}
use news_collect.Base.Keys.{Unique}
use news_collect.Notifications.Delivery
use news_collect.Notifications.Delivery.Claims.{find-claim, keys-claim}
use news_collect.Notifications.Delivery.Marks.{
  find-mark_failed, find-mark_sent, keys-mark_failed, keys-mark_sent,
}
use news_collect.Scheduler.Reliable
use news_collect.Scheduler.Reliable.Effects.{
  Resends, find-update_one, find-claim_new, find-keep_pending, Unique-claim_new,
  Unique-keep_pending, keys-claim_retries, keys-mark, find-mark,
}
use news_collect.Notifications.Life.{
  Step, Reach, Moves, starts, succeeds, gives_up, Follows, stays, moves, here, next, claims, fails,
  sends, inserts, intends, retries, marks_sent, marks_failed,
}

-- The row of the key, after the transaction, follows the row before it.
abbrev pub Keeps : ℕ → Notification → List Notification → Type 0
Keeps j row u = (row' : Notification) × (find Delivery.id_of j u ≡ some row') × Follows row row'

Keeps-same :
    (j : ℕ) (row : Notification) (u : List Notification)
    → find Delivery.id_of j u ≡ some row
    → Keeps j row u
Keeps-same j row u h = (row, h, stays)

due_starts :
    (now : ℕ) (row row' : Notification)
    → row' ≡ Delivery.start_sending now row
    → Delivery.due now row ≡ true
    → Moves row row'
unfolding Delivery.due
due_starts now row row' same due =
    starts (ground arith) (ground arith) (ground arith) (ground arith)

Keeps-claim :
    (locked : ℕ → Bool) (limit now j : ℕ) (t : List Notification) (row : Notification)
    → Unique (keys Delivery.id_of t)
    → find Delivery.id_of j t ≡ some row
    → Keeps j row (Delivery.claim locked limit now t).1
Keeps-claim locked limit now j t row u h =
    let (row', found, change) = find-claim locked limit now t j row u h in
    elim change [
      | inl same ↦ (row', found, rw same stays)
      | inr made ↦ (row', found, moves stays (due_starts now row row' made.0 made.1))
    ]

fail_row-Follows :
    (code : Text) (now : ℕ) (row : Notification) (s : NotificationStatus)
    → row.status ≡ s
    → Follows row (Delivery.fail_row code now s row)
unfolding Delivery.mark_failed
fail_row-Follows code now row sending h = moves stays (gives_up h refl (omega arith) (omega arith))
fail_row-Follows code now row _ h = stays

sent_row-Follows :
    (now : ℕ) (row : Notification) (s : NotificationStatus)
    → row.status ≡ s
    → Follows row (Delivery.sent_row now s row)
unfolding Delivery.mark_sent
sent_row-Follows now row sending h = moves stays (succeeds h refl refl)
sent_row-Follows now row _ h = stays

-- A write to the row of one key, as the row of another key meets it.
Keeps-write :
    (k j : ℕ) (f : Notification → Notification) (t u : List Notification) (row : Notification)
    → find Delivery.id_of j u
      ≡ (if k == j then Option.map f (find Delivery.id_of j t) else find Delivery.id_of j t)
    → Follows row (f row)
    → find Delivery.id_of j t ≡ some row
    → Keeps j row u
Keeps-write k j f t u row written follows h = elim (Bool-cases (k == j)) [
  | inl e ↦ (f row, ground arith, follows)
  | inr e ↦ (row, ground arith, stays)
]

Follows-trans : {a b c : Notification} → Follows a b → Follows b c → Follows a c
Follows-trans p stays = p
Follows-trans p (moves q m) = moves (Follows-trans p q) m

Resends-Follows : (now : ℕ) (row row' : Notification) → Resends now row row' → Follows row row'
unfolding Reliable.resend Reliable.retryable
Resends-Follows now row row' (inl same) = rw same stays
Resends-Follows now row row' (inr made) =
    moves stays (starts (ground arith) (ground arith) (ground arith) (ground arith))

Keeps-claim_retries :
    (now : ℕ) (ks : List ℕ) (j : ℕ) (t : List Notification) (row : Notification)
    → find Delivery.id_of j t ≡ some row
    → Keeps j row (Reliable.claim_retries now ks t).1
unfolding Reliable.claim_retries
Keeps-claim_retries now [] j t row h = (row, h, stays)
Keeps-claim_retries now (k ∷ ks) j t row h =
    let (mid, found, change) = find-update_one now k j t row h in
    let (last, at, follows) =
      Keeps-claim_retries now ks j (Reliable.update_one now k t).1 mid found in
    (last, at, Follows-trans (Resends-Follows now row mid change) follows)

module _ (failure : Option Text) (now : ℕ) where
  abbrev Ends : NotificationStatus → Type 0
  Ends status = (status ≡ sent) ⊎ (status ≡ failed)

  mark_row-Follows :
      (status : NotificationStatus) (row : Notification) (s : NotificationStatus)
      → Ends status
      → row.status ≡ s
      → Follows row (Reliable.mark_row status failure now s row)
  unfolding Reliable.mark
  mark_row-Follows status row sending (inl e) h = moves stays (succeeds h e refl)
  mark_row-Follows status row sending (inr e) h =
      moves stays (gives_up h e (omega arith) (omega arith))
  mark_row-Follows status row _ e h = stays

  Keeps-mark :
      (status : NotificationStatus) (ks : List ℕ) (j : ℕ) (t : List Notification)
      (row : Notification)
      → Ends status
      → find Delivery.id_of j t ≡ some row
      → Keeps j row (Reliable.mark ks status failure now t)
  unfolding Reliable.mark
  Keeps-mark status [] j t row e h = (row, h, stays)
  Keeps-mark status (k ∷ ks) j t row e h =
      let (mid, found, first) =
        Keeps-write k j (λ r. Reliable.mark_row status failure now r.status r) t _ row
          (find-mark k status failure now j t) (mark_row-Follows status row row.status e refl) h in
      let (last, at, follows) = Keeps-mark status ks j _ mid e found in
      (last, at, Follows-trans first follows)

Step-Keeps :
    {t u : List Notification} (j : ℕ) (row : Notification)
    → Unique (keys Delivery.id_of t)
    → find Delivery.id_of j t ≡ some row
    → Step t u
    → Keeps j row u
Step-Keeps {t} j row u h (claims locked limit now) = Keeps-claim locked limit now j t row u h
Step-Keeps {t} j row u h (fails k code now) =
    Keeps-write k j (λ r. Delivery.fail_row code now r.status r) t _ row
      (find-mark_failed k now t j code) (fail_row-Follows code now row row.status refl) h
Step-Keeps {t} j row u h (sends k now) =
    Keeps-write k j (λ r. Delivery.sent_row now r.status r) t _ row (find-mark_sent k now t j)
      (sent_row-Follows now row row.status refl) h
Step-Keeps {t} j row u h (inserts id_text fresh provider now items new) =
    Keeps-same j row _ (find-claim_new id_text fresh provider now items t j row h)
Step-Keeps {t} j row u h (intends id_text fresh provider now items new) =
    Keeps-same j row _ (find-keep_pending id_text fresh provider now items t j row h)
Step-Keeps {t} j row u h (retries now ks) = Keeps-claim_retries now ks j t row h
Step-Keeps {t} j row u h (marks_sent ks now) = Keeps-mark none now sent ks j t row (inl refl) h
Step-Keeps {t} j row u h (marks_failed ks code now) =
    Keeps-mark (some code) now failed ks j t row (inr refl) h

Step-Unique :
    {t u : List Notification}
    → Step t u
    → Unique (keys Delivery.id_of t)
    → Unique (keys Delivery.id_of u)
Step-Unique {t} (claims locked limit now) h = rw (keys-claim locked limit now t) h
Step-Unique {t} (fails k code now) h = rw (keys-mark_failed k now t code) h
Step-Unique {t} (sends k now) h = rw (keys-mark_sent k now t) h
Step-Unique {t} (inserts id_text fresh provider now items new) h =
    Unique-claim_new id_text fresh provider now items t new h
Step-Unique {t} (intends id_text fresh provider now items new) h =
    Unique-keep_pending id_text fresh provider now items t new h
Step-Unique {t} (retries now ks) h = rw (keys-claim_retries now ks t) h
Step-Unique {t} (marks_sent ks now) h = rw (keys-mark ks sent none now t) h
Step-Unique {t} (marks_failed ks code now) h = rw (keys-mark ks failed (some code) now t) h

Reach-Unique :
    {s t : List Notification}
    → Reach s t
    → Unique (keys Delivery.id_of s)
    → Unique (keys Delivery.id_of t)
Reach-Unique here h = h
Reach-Unique (next r st) h = Step-Unique st (Reach-Unique r h)

pub Reach-Keeps :
    {s t : List Notification} (j : ℕ) (row : Notification)
    → Unique (keys Delivery.id_of s)
    → find Delivery.id_of j s ≡ some row
    → Reach s t
    → Keeps j row t
Reach-Keeps j row u h here = (row, h, stays)
Reach-Keeps j row u h (next r st) =
    let (mid, at, first) = Reach-Keeps j row u h r in
    let (last, found, second) = Step-Keeps j mid (Reach-Unique r u) at st in
    (last, found, Follows-trans first second)
