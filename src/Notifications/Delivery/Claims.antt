-- ===== src/Notifications/Delivery/Claims.antt =====
-- What a claim selects and what it changes.
use mathlib.Core.Option
use news_collect.Base.{
  ℕ, ◌≤◌, ◌≡◌, refl, ◌∙◌, ◌⊎◌, inl, inr, Bool-cases, All-keep_of, Option, some, List, [], ◌∷◌, map,
  Bool, true, false, if◌then◌else◌, contains, All, All-take, All-keep, length, length-take, arith,
  and_not, is_some, eq→==, ◌==◌, take, keep, not, ◌&&◌,
}
use news_collect.Base.Order.{keys, All-sort_by, sort_by}
use news_collect.Base.Rows.{find, find-modify, modify}
use news_collect.Base.Keys.{Unique, All-find, All-both, All-contains, keys-modify}
use news_collect.Db.Models.{Notification, sending}
use news_collect.Notifications.Delivery.{
  due, earlier, selected, claim_rows, claim, claimed_pair, start_sending, id_of,
}

-- Exactly the selected rows are SENDING from now on; every other row is as it was.
find-claim_rows :
    (now : ℕ) (rows table : List Notification) (j : ℕ)
    → find id_of j (claim_rows now rows table) ≡ (
        if contains j (keys id_of rows)
        then Option.map (start_sending now) (find id_of j table)
        else find id_of j table)
unfolding claim_rows
find-claim_rows now [] table j = refl
find-claim_rows now (row ∷ rows) table j = ground (
  arith,
  find-claim_rows now rows (modify id_of row.id (start_sending now) table) j,
  find-modify id_of row.id j (start_sending now) (λ x. refl) table,
)

abbrev pub IsClaimable : (ℕ → Bool) → ℕ → Notification → Type 0
IsClaimable locked now row = (due now row ≡ true) × (locked row.id ≡ false)

selected-IsClaimable :
    (locked : ℕ → Bool) (limit now : ℕ) (table : List Notification)
    → All (IsClaimable locked now) (selected locked limit now table)
unfolding selected
selected-IsClaimable locked limit now table = All-take (IsClaimable locked now) limit _ (
    All-sort_by earlier (IsClaimable locked now) _ (
      All-keep (IsClaimable locked now) _ (λ row h. and_not (due now row) (locked row.id) h) table))

length-selected :
    (locked : ℕ → Bool) (limit now : ℕ) (table : List Notification)
    → length (selected locked limit now table) ≤ limit
unfolding selected
length-selected locked limit now table = length-take limit _

keys-claim_rows :
    (now : ℕ) (rows table : List Notification)
    → keys id_of (claim_rows now rows table) ≡ keys id_of table
unfolding claim_rows
keys-claim_rows now [] table = refl
keys-claim_rows now (row ∷ rows) table =
    keys-claim_rows now rows _ ∙ keys-modify id_of row.id (start_sending now) (λ x. refl) table

pub keys-claim :
    (locked : ℕ → Bool) (limit now : ℕ) (table : List Notification)
    → keys id_of (claim locked limit now table).1 ≡ keys id_of table
unfolding claim
keys-claim locked limit now table = keys-claim_rows now (selected locked limit now table) table

-- In a table of unique keys a claim leaves a row alone, or starts it because it was due.
abbrev pub Claims : (ℕ → Bool) → ℕ → Notification → Notification → Type 0
Claims locked now row row' =
    (row' ≡ row) ⊎ ((row' ≡ start_sending now row) × (due now row ≡ true) × (locked row.id ≡ false))

selected-found :
    (locked : ℕ → Bool) (limit now : ℕ) (table : List Notification)
    → Unique (keys id_of table)
    → All (λ row. find id_of row.id table ≡ some row) (selected locked limit now table)
unfolding selected
selected-found locked limit now table u =
    All-take _ limit _ (All-sort_by earlier _ _ (All-keep_of _ _ table (All-find id_of table u)))

same_row :
    (x row : Notification) (j : ℕ) (table : List Notification)
    → id_of x ≡ j
    → find id_of x.id table ≡ some x
    → find id_of j table ≡ some row
    → x ≡ row
same_row x row j table e f h = ground arith

pub find-claim :
    (locked : ℕ → Bool) (limit now : ℕ) (table : List Notification) (j : ℕ) (row : Notification)
    → Unique (keys id_of table)
    → find id_of j table ≡ some row
    → (row' : Notification) × (find id_of j (claim locked limit now table).1 ≡ some row')
      × Claims locked now row row'
unfolding claim
find-claim locked limit now table j row u h =
    let rows = selected locked limit now table in
    elim (Bool-cases (contains j (keys id_of rows))) [
      | inr out ↦ (row, ground (arith, find-claim_rows now rows table j), inl refl)
      | inl mine ↦
          let chosen =
            All-contains id_of _ j rows
              (All-both _ _ rows (selected-found locked limit now table u)
                (selected-IsClaimable locked limit now table))
              mine in
          let same : chosen.0 ≡ row = same_row chosen.0 row j table chosen.1 chosen.2.0 h in
          (
            start_sending now row,
            ground (arith, find-claim_rows now rows table j),
            inr (refl, rw (← same) chosen.2.1.0, rw (← same) chosen.2.1.1),
          )
    ]

-- A row of the table is found under its id, if not itself then another of that id.
All-is_there :
    (xs table : List Notification)
    → ((k : ℕ) → is_some (find id_of k xs) ≡ true → is_some (find id_of k table) ≡ true)
    → All (λ row. is_some (find id_of row.id table) ≡ true) xs
All-is_there [] table h = tt
All-is_there (x ∷ xs) table h = (
  h x.id (rw (eq→== x.id x.id refl) refl),
  All-is_there xs table (λ k there. h k (later (x.id == k) _ there)),
)
  where
    later :
        (b : Bool) (o : Option Notification)
        → is_some o ≡ true
        → is_some (if b then some x else o) ≡ true
    later true o there = refl
    later false o there = there

map-claimed_pair :
    (rows : List Notification) → keys (λ pair. pair.0) (map claimed_pair rows) ≡ keys id_of rows
map-claimed_pair [] = refl
map-claimed_pair (row ∷ rows) = ground (arith, map-claimed_pair rows)

length-claimed_pair : (rows : List Notification) → length (map claimed_pair rows) ≡ length rows
length-claimed_pair [] = refl
length-claimed_pair (row ∷ rows) = omega (arith, length-claimed_pair rows)

abbrev pub ids : List (ℕ × Option ℕ) → List ℕ
ids = keys (λ pair. pair.0)

pub claimed_there :
    (locked : ℕ → Bool) (limit now : ℕ) (table : List Notification) (j : ℕ)
    → contains j (ids (claim locked limit now table).0) ≡ true
    → is_some (find id_of j table) ≡ true
unfolding claim selected
claimed_there locked limit now table j h =
    let rows =
      take limit (sort_by earlier (keep (λ row. due now row && not (locked row.id)) table)) in
    let (x, same, there) =
      All-contains id_of (λ row. is_some (find id_of row.id table) ≡ true) j rows
        (All-take _ limit _
          (All-sort_by earlier _ _ (All-keep_of _ _ table (All-is_there table table (λ k t. t)))))
        (rw (← map-claimed_pair rows) h) in
    rw (← same) there

-- A claim takes at most `limit` rows. It makes those SENDING and scheduled for now, with no other field
-- changed, and leaves every other row as it was.
pub claim_exact :
    (locked : ℕ → Bool) (limit now : ℕ) (table : List Notification) (j : ℕ)
    → let (rows, table') = claim locked limit now table in
      (length rows ≤ limit)
      × (find id_of j table' ≡ (
          if contains j (ids rows)
          then Option.map
              (λ (row : Notification). record row { status = sending; scheduled_at = some now })
              (find id_of j table)
          else find id_of j table))
unfolding claim
claim_exact locked limit now table j =
    let rows = selected locked limit now table in
    (
      rw length-claimed_pair (length-selected locked limit now table),
      rw map-claimed_pair (find-claim_rows now rows table j),
    )
