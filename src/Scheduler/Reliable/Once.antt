-- ===== src/Scheduler/Reliable/Once.antt =====
-- A content item is claimed for a provider at most once.
use mathlib.Core.Path.{subst}
use news_collect.Base.{
  ℕ, ◌≡◌, refl, sym, Option, none, some, List, [], ◌∷◌, ◌++◌, Bool, true, ◌||◌, any, arith, All,
}
use news_collect.Base.Order.{Text, text_eq_refl}
use news_collect.Db.Models.{Notification, sending}
use news_collect.Feed.{ProviderDisplayItem}
use news_collect.Scheduler.Reliable.{has_key, insert_new, dedup_key, new_row, claim_new, add_claim}

any-append {ℓ} :
    {A : Type ℓ} (p : A → Bool) (xs ys : List A) → any p (xs ++ ys) ≡ (any p xs || any p ys)
any-append p [] ys = refl
any-append p (x ∷ xs) ys = ground (arith, any-append p xs ys)

abbrev has : Text → List Notification → Bool
has key table = any (has_key key) table

-- After an insert its key is in the table, and so is every key that was there.
has-insert_new_self :
    (row : Notification) (table : List Notification)
    → has row.dedup_key (insert_new row table).1 ≡ true
unfolding insert_new
has-insert_new_self row table =
    ground (arith, any-append (has_key row.dedup_key) table (row ∷ []), text_eq_refl row.dedup_key)

has-insert_new :
    (key : Text) (row : Notification) (table : List Notification)
    → has key table ≡ true
    → has key (insert_new row table).1 ≡ true
unfolding insert_new
has-insert_new key row table h = ground (arith, any-append (has_key key) table (row ∷ []))

-- The list of what a call returns comes from the later calls; the table is theirs.
pub table-add_claim :
    (item : ProviderDisplayItem) (o : Option ℕ)
    (r : List ProviderDisplayItem × List ℕ × List Notification)
    → (add_claim item o r).2 ≡ r.2
table-add_claim item none r = refl
table-add_claim item (some k) r = refl

insert_new-known :
    (row : Notification) (table : List Notification)
    → has row.dedup_key table ≡ true
    → insert_new row table ≡ (none, table)
unfolding insert_new
insert_new-known row table h = rw h

module _ (id_text : ℕ → Text) (fresh : List Notification → ℕ) (provider : Text) where
  abbrev key_of : ProviderDisplayItem → Text
  key_of item = dedup_key id_text fresh provider item

  has-claim_new :
      (now : ℕ) (key : Text) (items : List ProviderDisplayItem) (table : List Notification)
      → has key table ≡ true
      → has key (claim_new id_text fresh provider now items table).2 ≡ true
  unfolding claim_new
  has-claim_new now key [] table h = h
  has-claim_new now key (item ∷ items) table h = rw table-add_claim (
      has-claim_new now key items _
        (has-insert_new key (new_row id_text fresh provider sending now item table) table h))

  abbrev IsKnown : List Notification → ProviderDisplayItem → Type 0
  IsKnown table item = has (key_of item) table ≡ true

  All-claim_new :
      (now : ℕ) (items : List ProviderDisplayItem) (table : List Notification)
      → All (IsKnown (claim_new id_text fresh provider now items table).2) items
  unfolding claim_new
  All-claim_new now [] table = tt
  All-claim_new now (item ∷ items) table =
      let row = new_row id_text fresh provider sending now item table in
      subst (λ t. All (IsKnown t) (item ∷ items))
        (sym (
          table-add_claim item (insert_new row table).0
            (claim_new id_text fresh provider now items (insert_new row table).1)))
        (
          has-claim_new now (key_of item) items (insert_new row table).1
              (unfold new_row in has-insert_new_self row table),
          All-claim_new now items (insert_new row table).1,
        )

  claim_new-known :
      (now : ℕ) (items : List ProviderDisplayItem) (table : List Notification)
      → All (IsKnown table) items
      → claim_new id_text fresh provider now items table ≡ ([], [], table)
  unfolding claim_new
  claim_new-known now [] table h = refl
  claim_new-known now (item ∷ items) table h =
      rw
        (insert_new-known (new_row id_text fresh provider sending now item table) table
          (unfold new_row in h.0))
        (rw (claim_new-known now items table h.1))

  -- Claiming the same items a second time, at any later time, claims nothing and changes nothing.
  pub claim_new-once :
      (now later : ℕ) (items : List ProviderDisplayItem) (table : List Notification)
      → let table' = (claim_new id_text fresh provider now items table).2 in
        claim_new id_text fresh provider later items table' ≡ ([], [], table')
  claim_new-once now later items table =
      claim_new-known later items _ (All-claim_new now items table)
