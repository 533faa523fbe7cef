-- ===== src/Collection/Cursors/Decisions.antt =====
-- A position behind the cursor.
use news_collect.Base.{◌≡◌, some, true, false, arith}
use news_collect.Base.Order.{codes, text_lt_irrefl, text_lt_trans, text_eq→eq}
use news_collect.Base.Result.{err}
use news_collect.Db.Models.{CollectionCursorStrategy}
use news_collect.Collection.Cursors.{CursorPosition, after, same, decide}

after_irrefl : (p : CursorPosition) → after p p ≡ false
unfolding after
after_irrefl p = ground (arith, text_lt_irrefl p.provider_item_id)

after_trans : (p q r : CursorPosition) → after p q ≡ true → after q r ≡ true → after p r ≡ true
unfolding after
after_trans p q r h k =
    ground (arith, text_lt_trans r.provider_item_id q.provider_item_id p.provider_item_id)

after_asym : (p q : CursorPosition) → after p q ≡ true → after q p ≡ false
after_asym p q h = ground (arith, after_trans p q p, after_irrefl p)

same→after : (p q : CursorPosition) → same p q ≡ true → after p q ≡ false
unfolding same after
same→after p q h =
    ground
      (arith, text_eq→eq p.provider_item_id q.provider_item_id, text_lt_irrefl p.provider_item_id)

not_same : (p q : CursorPosition) → after q p ≡ true → same p q ≡ false
unfolding same after
not_same p q h =
    ground
      (arith, text_eq→eq p.provider_item_id q.provider_item_id, text_lt_irrefl p.provider_item_id)

-- A position that is behind the cursor is refused under every strategy.
pub decide_behind :
    (strategy : CollectionCursorStrategy) (previous proposed : CursorPosition)
    → after previous proposed ≡ true
    → decide strategy (some previous) (some proposed) ≡ err (codes "cursor_not_successor")
unfolding decide
decide_behind strategy previous proposed h =
    rw (after_asym previous proposed h, not_same proposed previous h)
