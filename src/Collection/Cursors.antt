-- ===== src/Collection/Cursors.antt =====
-- collection/cursors.py: the cursor contract. The JSON reader and the ISO date reader of the standard
-- library are parameters.
pub mod Decisions
use news_collect.Base.{
  ℕ, Option, none, some, Bool, true, false, ◌&&◌, ◌||◌, ltb, ◌==◌, if◌then◌else◌, List, [], ◌∷◌,
}
use news_collect.Base.Order.{Text, codes, text_eq, text_lt}
use news_collect.Base.Result.{Result, ok, err, ◌>>=◌}
use news_collect.Db.Models.{
  CollectionCursorStrategy, strict_incremental, snapshot_watermark, compound,
}

pub record CursorPosition : Type 0 where
  pub published_at : ℕ
  pub provider_item_id : Text

pub data CursorAction : Type 0 where
  unchanged advance no_new_items : CursorAction

pub record CursorDecision : Type 0 where
  pub action : CursorAction
  pub candidate : Option CursorPosition

-- The order of the dataclass: by time, then by identity.
unfoldable pub after : CursorPosition → CursorPosition → Bool
after p q =
    ltb q.published_at p.published_at
    || q.published_at == p.published_at && text_lt q.provider_item_id p.provider_item_id

unfoldable pub same : CursorPosition → CursorPosition → Bool
same p q = p.published_at == q.published_at && text_eq p.provider_item_id q.provider_item_id

abbrev pub cursor_invalid : Text
cursor_invalid = codes "cursor_invalid"

-- An instant as read: with its time zone, or naive.
pub data Stamp : Type 0 where
  aware : ℕ → Stamp
  naive : Stamp

position : Stamp → Text → Result CursorPosition
position naive identity = err cursor_invalid
position (aware t) [] = err cursor_invalid
position (aware t) (c ∷ identity) =
    ok (record { published_at = t; provider_item_id = c ∷ identity })

or_invalid {ℓ} : {A : Type ℓ} → Option A → Result A
or_invalid none = err cursor_invalid
or_invalid (some a) = ok a

-- `loads` gives the two entries of the JSON object, as texts, if they are there;
-- `fromisoformat` reads an instant, if the text is one.
module _ (loads : Text → Option (Text × Text)) (fromisoformat : Text → Option Stamp) where
  unfoldable pub decode_cursor : Option Text → Result (Option CursorPosition)
  unfolding position or_invalid
  decode_cursor none = ok none
  decode_cursor (some value) = do
    item ← or_invalid (loads value)
    published ← or_invalid (fromisoformat item.0)
    found ← position published item.1
    ok (some found)

-- Whether a strategy is one of the three that the contract allows.
unfoldable pub allowed : CollectionCursorStrategy → Bool
allowed strict_incremental = true
allowed snapshot_watermark = true
allowed compound = true
allowed _ = false

-- Whether a strategy accepts the position that it already has.
unfoldable pub repeats : CollectionCursorStrategy → Bool
repeats snapshot_watermark = true
repeats compound = true
repeats _ = false

decision : CursorAction → Option CursorPosition → Result CursorDecision
decision action candidate = ok (record { action = action; candidate = candidate })

-- The decision once both texts are decoded.
unfoldable pub decide :
    CollectionCursorStrategy → Option CursorPosition → Option CursorPosition → Result CursorDecision
unfolding decision
decide strategy previous none = decision unchanged none
decide strategy none (some proposed) = decision advance (some proposed)
decide strategy (some previous) (some proposed) =
    if after proposed previous
    then decision advance (some proposed)
    else if same proposed previous && repeats strategy
    then decision no_new_items (some proposed)
    else err (codes "cursor_not_successor")

module _ (loads : Text → Option (Text × Text)) (fromisoformat : Text → Option Stamp) where
  unfoldable pub decide_cursor :
      CollectionCursorStrategy → Option Text → Option Text → Result CursorDecision
  unfolding allowed decide decode_cursor after same repeats
  decide_cursor strategy current candidate =
      if allowed strategy
      then (do
        previous ← decode_cursor loads fromisoformat current
        proposed ← decode_cursor loads fromisoformat candidate
        decide strategy previous proposed)
      else err (codes "cursor_strategy_invalid")
