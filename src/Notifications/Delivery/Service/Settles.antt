-- ===== src/Notifications/Delivery/Service/Settles.antt =====
-- What `deliver` leaves behind: every claimed row is settled, and no other row is touched.
use mathlib.Core.Option
use mathlib.Core.Path.{subst}
use news_collect.Base.{
  ℕ, ◌+◌, ◌≤◌, ◌≡◌, ◌≢◌, refl, sym, Option, none, some, List, [], ◌∷◌, Bool, true, false, contains,
  length, arith, eq→==, ==→eq, Bool-cases, inl, inr, ◌∙◌, ◌⊎◌, ap, is_some, ◌==◌,
}
use news_collect.Base.Order.{Text}
use news_collect.Base.Rows.{find}
use news_collect.Db.Models.{Notification, sending, sent, failed}
use news_collect.Feed.{FeedRow, ProviderDisplayItem, by_content_ids}
use news_collect.Notifications.Delivery.{
  claim, id_of, mark_failed, mark_sent, fail_row, sent_row, Answer, content_missing,
  delivery_failed, content_ids,
}
use news_collect.Notifications.Delivery.Claims.{ids, claim_exact, claimed_there}
use news_collect.Notifications.Delivery.Marks.{find-mark_failed, find-mark_sent}
use news_collect.Notifications.Delivery.Service.{
  Progress, record_failure, record_sent, after_answer, deliver_items, deliver_rows, deliver_with,
}

-- A row was sent at some time, or failed with some code.
pub data IsDone (row : Notification) : Type 0 where
  was_sent :
      (t : ℕ) → row.status ≡ sent → row.sent_at ≡ some t → row.failure_code ≡ none → IsDone row
  has_failed : (code : Text) → row.status ≡ failed → row.failure_code ≡ some code → IsDone row

-- A row is there and done with, or still to be done.
abbrev pub Done : Option Notification → Type 0
Done o = (row : Notification) × (o ≡ some row) × IsDone row

abbrev Claimed : Option Notification → Type 0
Claimed o = (row : Notification) × (o ≡ some row) × ((row.status ≡ sending) ⊎ IsDone row)

IsDone-fail :
    (code : Text) (now : ℕ) (row : Notification)
    → (row.status ≡ sending) ⊎ IsDone row
    → IsDone (fail_row code now row.status row)
unfolding mark_failed
IsDone-fail code now row (inl s) = rw s (has_failed code refl refl)
IsDone-fail code now row (inr (was_sent t s at clear)) =
    subst IsDone (sym (ap (λ k. fail_row code now k row) s)) (was_sent t s at clear)
IsDone-fail code now row (inr (has_failed c s at)) =
    subst IsDone (sym (ap (λ k. fail_row code now k row) s)) (has_failed c s at)

IsDone-sent :
    (now : ℕ) (row : Notification)
    → (row.status ≡ sending) ⊎ IsDone row
    → IsDone (sent_row now row.status row)
unfolding mark_sent
IsDone-sent now row (inl s) = rw s (was_sent now refl refl refl)
IsDone-sent now row (inr (was_sent t s at clear)) =
    subst IsDone (sym (ap (λ k. sent_row now k row) s)) (was_sent t s at clear)
IsDone-sent now row (inr (has_failed c s at)) =
    subst IsDone (sym (ap (λ k. sent_row now k row) s)) (has_failed c s at)

Done-map :
    (f : Notification → Notification) (o : Option Notification)
    → ((row : Notification) → (row.status ≡ sending) ⊎ IsDone row → IsDone (f row))
    → Claimed o
    → Done (Option.map f o)
Done-map f o h (row, at, was) = (f row, ap (Option.map f) at, h row was)

Done-Claimed : {o : Option Notification} → Done o → Claimed o
Done-Claimed (row, at, done) = (row, at, inr done)

module _ {W C : Type 0} (isoformat : ℕ → Text) (send : C → Text → W → Answer × W)
    (now : W → ℕ × W) where
  -- One row of the loop: one more counted, its own row settled, and the rest of the table kept.
  record Handled (k : ℕ) (p q : Progress W) : Type 0 where
    counted : q.sent + q.failed ≡ p.sent + p.failed + 1
    own : Claimed (find id_of k p.table) → Done (find id_of k q.table)
    others : (j : ℕ) → k ≢ j → find id_of j q.table ≡ find id_of j p.table

  record_failure-Handled :
      (k : ℕ) (code : Text) (p : Progress W)
      → Handled k p (record_failure isoformat send now k code p)
  unfolding record_failure
  record_failure-Handled k code p = record {
    counted = omega arith;
    own = λ h.
        rw (find-mark_failed k (now p.world).0 p.table k code, eq→== k k refl)
          (Done-map _ (find id_of k p.table) (IsDone-fail code (now p.world).0) h);
    others = λ j ne. ground (arith, find-mark_failed k (now p.world).0 p.table j code);
  }

  record_sent-Handled : (k : ℕ) (p : Progress W) → Handled k p (record_sent isoformat send now k p)
  unfolding record_sent
  record_sent-Handled k p = record {
    counted = omega arith;
    own = λ h.
        rw (find-mark_sent k (now p.world).0 p.table k, eq→== k k refl)
          (Done-map _ (find id_of k p.table) (IsDone-sent (now p.world).0) h);
    others = λ j ne. ground (arith, find-mark_sent k (now p.world).0 p.table j);
  }

  after_answer-Handled :
      (k : ℕ) (accepted : Bool) (w : W) (p : Progress W)
      → Handled k p (after_answer isoformat send now k accepted (record p { world = w }))
  unfolding after_answer
  after_answer-Handled k true w p =
      let h = record_sent-Handled k (record p { world = w }) in
      record { counted = h.counted; own = h.own; others = h.others }
  after_answer-Handled k false w p =
      let h = record_failure-Handled k delivery_failed (record p { world = w }) in
      record { counted = h.counted; own = h.own; others = h.others }

  deliver_items-Handled :
      (credential : C) (k : ℕ) (items : List ProviderDisplayItem) (p : Progress W)
      → Handled k p (deliver_items isoformat send now credential k items p)
  unfolding deliver_items
  deliver_items-Handled credential k [] p = record_failure-Handled k content_missing p
  deliver_items-Handled credential k (item ∷ []) p = after_answer-Handled k _ _ p
  deliver_items-Handled credential k (item ∷ other ∷ items) p =
      record_failure-Handled k content_missing p

  -- The rows of the list are counted and settled; the rest of the table is kept.
  record Settles (rows : List (ℕ × Option ℕ)) (p q : Progress W) : Type 0 where
    counted : q.sent + q.failed ≡ p.sent + p.failed + length rows
    own :
        (j : ℕ)
        → contains j (ids rows) ≡ true
        → Claimed (find id_of j p.table)
        → Done (find id_of j q.table)
    others : (j : ℕ) → contains j (ids rows) ≡ false → find id_of j q.table ≡ find id_of j p.table

  Settles-cons :
      (k : ℕ) (content : Option ℕ) (rows : List (ℕ × Option ℕ)) (p q r : Progress W)
      → Handled k p q
      → Settles rows q r
      → Settles ((k, content) ∷ rows) p r
  Settles-cons k content rows p q r one rest = record {
    counted = omega (arith, one.counted, rest.counted);
    own = λ j h was. elim (Bool-cases (contains j (ids rows))) [
      | inl more ↦ elim (Bool-cases (k == j)) [
        | inl e ↦
            rest.own j more (Done-Claimed (rw (← ==→eq k j e) (one.own (rw (==→eq k j e) was))))
        | inr e ↦ rest.own j more (rw (one.others j (λ s. ground (arith, eq→== k j s))) was)
      ]
      | inr last ↦
          rw (rest.others j last)
            (rw (← ==→eq k j (ground arith)) (one.own (rw (==→eq k j (ground arith)) was)))
    ];
    others = λ j h. rest.others j (ground arith) ∙ one.others j (λ e. ground arith);
  }

  deliver_rows-Settles :
      (feed : List FeedRow) (credential : C) (rows : List (ℕ × Option ℕ)) (p : Progress W)
      → Settles rows p (deliver_rows isoformat send now feed credential rows p)
  unfolding deliver_rows
  deliver_rows-Settles feed credential [] p = record {
    counted = omega arith;
    own = λ j h was. cc;
    others = λ j h. refl;
  }
  deliver_rows-Settles feed credential ((k, content) ∷ rows) p =
      Settles-cons k content rows p _ _
        (deliver_items-Handled credential k (by_content_ids feed (content_ids content)) p)
        (deliver_rows-Settles feed credential rows _)

  module _ (feed : List FeedRow) (locked : ℕ → Bool) (credential : C) (limit : ℕ)
      (table : List Notification) (w : W) where
    -- The ids that one call of `deliver` claims.
    abbrev pub claimed_ids : List ℕ
    claimed_ids = ids (claim locked limit (now w).0 table).0

    -- Every row that `deliver` claimed is in the table afterwards and done: SENT at some time and without a
    -- failure code, or FAILED with one. Every row that it did not claim is as it was. The two counts of its
    -- report add up to the rows claimed, which are at most `limit`.
    pub deliver-settles :
        (j : ℕ)
        → let (table', w', report) =
            deliver_with isoformat send now feed locked credential limit table w in
          (report.sent + report.failed ≡ length (claim locked limit (now w).0 table).0)
          × (report.sent + report.failed ≤ limit)
          × (((contains j claimed_ids ≡ true) × Done (find id_of j table'))
              ⊎ ((contains j claimed_ids ≡ false) × (find id_of j table' ≡ find id_of j table)))
    unfolding deliver_with
    deliver-settles j =
        let exact = claim_exact locked limit (now w).0 table j in
        let done = deliver_rows-Settles feed credential (claim locked limit (now w).0 table).0 _ in
        (
          omega (arith, done.counted),
          omega (arith, done.counted, exact.0),
          elim (Bool-cases (contains j claimed_ids)) [
            | inl mine ↦ inl (
              mine,
              done.own j mine (
                  rw (exact.1, mine)
                    (started (find id_of j table)
                      (claimed_there locked limit (now w).0 table j mine))),
            )
            | inr other ↦ inr (other, done.others j other ∙ ground (arith, exact.1))
          ],
        )
      where
        started :
            (o : Option Notification)
            → is_some o ≡ true
            → Claimed (
                Option.map
                  (λ (row : Notification). record row {
                    status = sending;
                    scheduled_at = some (now w).0;
                  })
                  o)
        started none h = cc
        started (some row) h = (_, refl, inl refl)
