-- ===== src/Collection/Runner/Advance.antt =====
-- The cursor of an account, from one checkpoint of a legacy run to the next batch.
use mathlib.Core.Path.{subst}
use news_collect.Base.{
  ℕ, ◌≡◌, refl, ap, ◌∙◌, Option, none, some, List, [], ◌∷◌, ◌++◌, Bool, true, false, ◌==◌, arith,
  Bool-cases, Option-cases, inl, inr, eq→==,
}
use news_collect.Base.Order.{Text, text_eq_refl, text_eq→eq}
use news_collect.Base.Rows.{find, modify}
use news_collect.Db.Models.{CollectionCursor}
use news_collect.Collection.ControlPlane.{run_key}
use news_collect.Collection.ControlPlane.Persist.{moved, first, cursor_key}
use news_collect.Collection.ControlPlane.Start.{is_running}
use news_collect.Collection.Runner.Checkpoint.{Commits, with_items}
use news_collect.Collection.Runner.{
  Target, CursorSnapshot, FetchBatch, Store, done, account_cursor, at_next, new_cursor, or_before,
  write_found, write_cursor, write_batch, write_checkpoint, load_cursor, snapshot_of,
}

module _ {ℓ} {A : Type ℓ} (test : A → Bool) where
  first-modify :
      (key : A → ℕ) (old new : A) (xs : List A)
      → first test xs ≡ some old
      → test new ≡ true
      → first test (modify key (key old) (λ row. new) xs) ≡ some new
  unfolding first
  first-modify key old new [] h t = cc
  first-modify key old new (x ∷ xs) h t = elim (Bool-cases (key x == key old)) [
    | inl e ↦ ground arith
    | inr e ↦ elim (Bool-cases (test x)) [
      | inl p ↦
          (let same : x ≡ old = ground arith in
            ground (arith, ap key same, eq→== (key old) (key old) refl))
      | inr p ↦ ground (arith, first-modify key old new xs)
    ]
  ]

  first-passes : (xs : List A) {a : A} → first test xs ≡ some a → test a ≡ true
  unfolding first
  first-passes [] {a} h = cc
  first-passes (x ∷ xs) {a} h = elim (Bool-cases (test x)) [
    | inl e ↦ (let same : x ≡ a = ground arith in rw (← same) e)
    | inr e ↦ first-passes xs {a = a} (ground arith)
  ]

  first-append :
      (new : A) (xs : List A)
      → first test xs ≡ none
      → test new ≡ true
      → first test (xs ++ new ∷ []) ≡ some new
  unfolding first
  first-append new [] h t = ground arith
  first-append new (x ∷ xs) h t = ground (arith, first-append new xs)

module _ (sub : Text → Text) (fresh : Store → ℕ) (account : ℕ) (kind next : Text)
    (snapshot : CursorSnapshot) (batch : FetchBatch) where
  -- What the next batch is asked from.
  abbrev pub advanced : CursorSnapshot
  advanced = record {
    cursor_type = some kind;
    cursor_value = some next;
    last_published_at = or_before sub batch.last_published_at snapshot.last_published_at;
  }

  abbrev pub mine : CollectionCursor → Bool
  mine = account_cursor sub account kind

  -- The cursor is as the snapshot has it, if there is one, and is then at the end of the batch.
  pub record Advances (old new : List CollectionCursor) : Type 0 where
    pub current :
        (cursor : CollectionCursor)
        → first mine old ≡ some cursor
        → moved cursor.cursor_value snapshot.cursor_value ≡ false
    pub loads : snapshot_of kind (first mine new) ≡ advanced

  write_found-new :
      (store : Store)
      → first mine store.cursors ≡ none
      → Commits
          (λ after. Advances store.cursors after.cursors)
          (write_found sub fresh none account kind snapshot batch next store)
  unfolding write_found at_next new_cursor snapshot_of
  write_found-new store none_there = record {
    current = λ cursor h. absurd (ground arith);
    loads = ap (snapshot_of kind) (
        first-append mine
          (at_next sub snapshot batch next (new_cursor sub (fresh store) account kind))
          store.cursors none_there (rw (eq→== account account refl, text_eq_refl kind) refl));
  }

  write_found-old :
      (store : Store) (cursor : CollectionCursor)
      → first mine store.cursors ≡ some cursor
      → mine cursor ≡ true
      → Commits
          (λ after. Advances store.cursors after.cursors)
          (write_found sub fresh (some cursor) account kind snapshot batch next store)
  unfolding write_found at_next snapshot_of
  write_found-old store cursor there own =
      elim (Bool-cases (moved cursor.cursor_value snapshot.cursor_value)) [
        | inl e ↦ rw e tt
        | inr e ↦ rw e (record {
          current = λ other h. (let same : other ≡ cursor = ground arith in rw same e);
          loads =
              ap (snapshot_of kind) (
                first-modify mine cursor_key cursor (at_next sub snapshot batch next cursor)
                  store.cursors there own)
              ∙ ap (λ (type : Text). record advanced { cursor_type = some type })
                  (text_eq→eq cursor.cursor_type kind (ground arith));
        })
      ]

  write_cursor-Advances :
      (store : Store) (a : Option ℕ) (t n : Option Text)
      → a ≡ some account
      → t ≡ some kind
      → n ≡ some next
      → Commits
          (λ after. Advances store.cursors after.cursors)
          (write_cursor sub fresh a t n snapshot batch store)
  unfolding write_cursor
  write_cursor-Advances store a t n owner typed onward =
      rw (owner, typed, onward)
        (elim (Option-cases (first mine store.cursors)) [
          | inl e ↦ rw e (write_found-new store e)
          | inr (cursor, e) ↦
              rw e (write_found-old store cursor e (first-passes mine store.cursors {a = cursor} e))
        ])

  module _ (target : Target) (k : ℕ) (owner : target.source_account_id ≡ some account)
      (typed : snapshot.cursor_type ≡ some kind) (onward : batch.next_cursor ≡ some next) where
    write_checkpoint-Advances :
        (store : Store)
        → Commits
            (λ after. Advances store.cursors after.cursors)
            (write_checkpoint sub fresh target k snapshot batch store)
    unfolding write_checkpoint write_batch
    write_checkpoint-Advances store = elim (Option-cases (find run_key k store.runs)) [
      | inl e ↦ rw e tt
      | inr (row, e) ↦ elim (Bool-cases (is_running row.status)) [
        | inl live ↦
            rw (e, live)
              (write_cursor-Advances (with_items sub fresh target k batch row store)
                target.source_account_id snapshot.cursor_type batch.next_cursor owner typed onward)
        | inr dead ↦ rw (e, dead) tt
      ]
    ]

    -- For a target with an account and an adapter with a cursor, a checkpoint that commits a batch
    -- with a next cursor leaves the cursor there: the next batch is asked from that cursor. The
    -- cursor that it found, if it found one, had the value of the snapshot.
    pub checkpoint-advances :
        (store store' : Store)
        → write_checkpoint sub fresh target k snapshot batch store ≡ done store'
        → (load_cursor target (some kind) store' ≡ advanced)
          × ((cursor : CollectionCursor)
              → first mine store.cursors ≡ some cursor
              → moved cursor.cursor_value snapshot.cursor_value ≡ false)
    unfolding load_cursor
    checkpoint-advances store store' h =
        let step =
          subst (Commits (λ after. Advances store.cursors after.cursors)) h
            (write_checkpoint-Advances store) in
        (rw owner step.loads, step.current)
