-- ===== src/Scheduler/Reliable/Effects.antt =====
-- What the claims, the retries and the marks do to the row that a key finds, and to the keys.
use mathlib.Core.Option
use news_collect.Base.{
  ℕ, ◌≡◌, refl, ◌∙◌, Option, some, List, [], ◌∷◌, true, false, if◌then◌else◌, arith, ◌==◌, contains,
  ◌⊎◌, ◌&&◌, inl, inr, Bool-cases, Option-cases, any,
}
use news_collect.Base.Order.{Text, keys}
use news_collect.Base.Rows.{find, find-modify, modify}
use news_collect.Base.Keys.{keys-modify, keys-append, find-append, Unique, Unique-append}
use news_collect.Db.Models.{Notification, NotificationStatus, sending, pending}
use news_collect.Feed.{ProviderDisplayItem}
use news_collect.Scheduler.Reliable.{
  id_of, has_key, insert_new, new_row, claim_new, keep_pending, update_one, claim_retries, resend,
  retryable, mark, mark_row,
}
use news_collect.Scheduler.Reliable.Once.{table-add_claim}

-- The ids that the database hands out are new to the table.
abbrev pub IsFresh : (List Notification → ℕ) → Type 0
IsFresh fresh = (t : List Notification) → contains (fresh t) (keys id_of t) ≡ false

module _ (row : Notification) (table : List Notification) where
  find-insert_new :
      (j : ℕ) (r : Notification)
      → find id_of j table ≡ some r
      → find id_of j (insert_new row table).1 ≡ some r
  unfolding insert_new
  find-insert_new j r h = ground (arith, find-append id_of j table (row ∷ []) {a = r})

  Unique-insert_new :
      Unique (keys id_of table)
      → contains row.id (keys id_of table) ≡ false
      → Unique (keys id_of (insert_new row table).1)
  unfolding insert_new
  Unique-insert_new u h = elim (Bool-cases (any (has_key row.dedup_key) table)) [
    | inl e ↦ rw e u
    | inr e ↦
        rw (e, keys-append id_of table (row ∷ [])) (Unique-append (keys id_of table) row.id u h)
  ]

module _ (id_text : ℕ → Text) (fresh : List Notification → ℕ) (provider : Text) (now : ℕ) where
  pub find-claim_new :
      (items : List ProviderDisplayItem) (table : List Notification) (j : ℕ) (r : Notification)
      → find id_of j table ≡ some r
      → find id_of j (claim_new id_text fresh provider now items table).2 ≡ some r
  unfolding claim_new
  find-claim_new [] table j r h = h
  find-claim_new (item ∷ items) table j r h = rw table-add_claim (
      find-claim_new items _ j r
        (find-insert_new (new_row id_text fresh provider sending now item table) table j r h))

  pub Unique-claim_new :
      (items : List ProviderDisplayItem) (table : List Notification)
      → IsFresh fresh
      → Unique (keys id_of table)
      → Unique (keys id_of (claim_new id_text fresh provider now items table).2)
  unfolding claim_new
  Unique-claim_new [] table new u = u
  Unique-claim_new (item ∷ items) table new u = rw table-add_claim (
      Unique-claim_new items _ new (
        Unique-insert_new (new_row id_text fresh provider sending now item table) table u
          (unfold new_row in new table)))

  pub find-keep_pending :
      (items : List ProviderDisplayItem) (table : List Notification) (j : ℕ) (r : Notification)
      → find id_of j table ≡ some r
      → find id_of j (keep_pending id_text fresh provider now items table) ≡ some r
  unfolding keep_pending
  find-keep_pending [] table j r h = h
  find-keep_pending (item ∷ items) table j r h =
      find-keep_pending items _ j r
        (find-insert_new (new_row id_text fresh provider pending now item table) table j r h)

  pub Unique-keep_pending :
      (items : List ProviderDisplayItem) (table : List Notification)
      → IsFresh fresh
      → Unique (keys id_of table)
      → Unique (keys id_of (keep_pending id_text fresh provider now items table))
  unfolding keep_pending
  Unique-keep_pending [] table new u = u
  Unique-keep_pending (item ∷ items) table new u = Unique-keep_pending items _ new (
      Unique-insert_new (new_row id_text fresh provider pending now item table) table u
        (unfold new_row in new table))

-- One retry leaves a row alone, or sends it again because it might be retried.
abbrev pub Resends : ℕ → Notification → Notification → Type 0
Resends now row row' = (row' ≡ row) ⊎ ((row' ≡ resend now row) × (retryable now row ≡ true))

resend-id : (now : ℕ) (row : Notification) → id_of (resend now row) ≡ id_of row
unfolding resend
resend-id now row = refl

table-update_one :
    (now k j : ℕ) (table : List Notification)
    → find id_of j (update_one now k table).1 ≡ (
        if k == j
        then Option.map (λ r. if retryable now r then resend now r else r) (find id_of j table)
        else find id_of j table)
unfolding update_one
table-update_one now k j table = elim (Option-cases (find id_of k table)) [
  | inl e ↦ ground (arith, e)
  | inr (r, e) ↦ ground (arith, e, find-modify id_of k j (resend now) (resend-id now) table)
]

pub find-update_one :
    (now k j : ℕ) (table : List Notification) (r : Notification)
    → find id_of j table ≡ some r
    → (r' : Notification) × (find id_of j (update_one now k table).1 ≡ some r') × Resends now r r'
find-update_one now k j table r h = elim (Bool-cases (k == j && retryable now r)) [
  | inr e ↦ (r, ground (arith, table-update_one now k j table), inl refl)
  | inl e ↦ (resend now r, ground (arith, table-update_one now k j table), inr (refl, ground arith))
]

keys-update_one :
    (now k : ℕ) (table : List Notification)
    → keys id_of (update_one now k table).1 ≡ keys id_of table
unfolding update_one
keys-update_one now k table = ground (arith, keys-modify id_of k (resend now) (resend-id now) table)

pub keys-claim_retries :
    (now : ℕ) (ks : List ℕ) (table : List Notification)
    → keys id_of (claim_retries now ks table).1 ≡ keys id_of table
unfolding claim_retries
keys-claim_retries now [] table = refl
keys-claim_retries now (k ∷ ks) table =
    keys-claim_retries now ks (update_one now k table).1 ∙ keys-update_one now k table

-- One marking of a list of ids, on the row that a key finds.
pub keys-mark :
    (ks : List ℕ) (status : NotificationStatus) (failure : Option Text) (now : ℕ)
    (table : List Notification)
    → keys id_of (mark ks status failure now table) ≡ keys id_of table
unfolding mark
keys-mark [] status failure now table = refl
keys-mark (k ∷ ks) status failure now table =
    keys-mark ks status failure now _ ∙ keys-modify id_of k _ (λ row. ground arith) table

pub find-mark :
    (k : ℕ) (status : NotificationStatus) (failure : Option Text) (now j : ℕ)
    (table : List Notification)
    → find id_of j (modify id_of k (λ row. mark_row status failure now row.status row) table) ≡ (
        if k == j
        then Option.map (λ row. mark_row status failure now row.status row) (find id_of j table)
        else find id_of j table)
unfolding mark
find-mark k status failure now j table = find-modify id_of k j _ (λ row. ground arith) table
