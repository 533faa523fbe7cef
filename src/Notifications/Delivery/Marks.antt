-- ===== src/Notifications/Delivery/Marks.antt =====
-- What a mark of a sent or a failed row does to the row that a key finds.
use mathlib.Core.Option
use news_collect.Base.{ℕ, ◌≡◌, List, if◌then◌else◌, arith, ◌==◌}
use news_collect.Base.Order.{Text, keys}
use news_collect.Base.Rows.{find, find-modify}
use news_collect.Base.Keys.{keys-modify}
use news_collect.Db.Models.{Notification}
use news_collect.Notifications.Delivery.{id_of, mark_failed, mark_sent, fail_row, sent_row}

module _ (k : ℕ) (now : ℕ) (table : List Notification) where
  pub find-mark_failed :
      (j : ℕ) (code : Text)
      → find id_of j (mark_failed k code now table) ≡ (
          if k == j
          then Option.map (λ row. fail_row code now row.status row) (find id_of j table)
          else find id_of j table)
  unfolding mark_failed
  find-mark_failed j code = find-modify id_of k j _ (λ row. ground arith) table

  pub find-mark_sent :
      (j : ℕ)
      → find id_of j (mark_sent k now table) ≡ (
          if k == j
          then Option.map (λ row. sent_row now row.status row) (find id_of j table)
          else find id_of j table)
  unfolding mark_sent
  find-mark_sent j = find-modify id_of k j _ (λ row. ground arith) table

  pub keys-mark_failed :
      (code : Text) → keys id_of (mark_failed k code now table) ≡ keys id_of table
  unfolding mark_failed
  keys-mark_failed code = keys-modify id_of k _ (λ row. ground arith) table

  pub keys-mark_sent : keys id_of (mark_sent k now table) ≡ keys id_of table
  unfolding mark_sent
  keys-mark_sent = keys-modify id_of k _ (λ row. ground arith) table
