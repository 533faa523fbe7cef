-- ===== src/Collection/Runner/Checkpoint.antt =====
-- What the transactions of a legacy run keep: while the run is RUNNING, it counts its raw items.

use news_collect.Base.{
  ℕ, ◌+◌, ◌≡◌, refl, ap, sym, ◌∙◌, Option, none, some, List, [], ◌∷◌, ◌++◌, map, Bool, true, ◌==◌,
  arith, Bool-cases, inl, inr, keep, length, eq→==,
}
use news_collect.Base.Order.{Text}
use news_collect.Base.Rows.{find, find-put, find-key}
use news_collect.Db.Models.{CollectionRun, CollectionCursor, Source}
use news_collect.Collection.Errors.{ClassifiedCollectionError}
use news_collect.Collection.ControlPlane.{run_key}
use news_collect.Collection.ControlPlane.Persist.{moved, first}
use news_collect.Collection.ControlPlane.Start.{is_running}
use news_collect.Collection.Runner.{
  Target, CursorSnapshot, RawItemEnvelope, FetchBatch, RawItem, Store, Checked, done, raises,
  source_key, put_run, put_source, raw_item, account_cursor, write_batch, write_cursor, write_found,
  write_checkpoint, finish_success, record_retry, finish_failure, success_run, success_source,
  retry_run, failure_run,
}

abbrev pub of_run : ℕ → RawItem → Bool
of_run k item = item.collection_run_id == k

abbrev pub items_of : ℕ → Store → ℕ
items_of k store = length (keep (of_run k) store.raw_items)

module _ (k : ℕ) (source_id : ℕ) where
  -- The run is there with that status, its count is that of its raw items, and its source is there.
  pub record Counted (store : Store) (run : CollectionRun) : Type 0 where
    pub row : find run_key k store.runs ≡ some run
    pub counted : run.fetched_count ≡ items_of k store
    pub source : (s : Source) × (find source_key source_id store.sources ≡ some s)

-- The step of the cursor writes cursors only.
pub record SameRows (old new : Store) : Type 0 where
  pub runs : new.runs ≡ old.runs
  pub items : new.raw_items ≡ old.raw_items
  pub sources : new.sources ≡ old.sources

-- What holds of the rows that a transaction commits.
abbrev pub Commits : (Store → Type 0) → Checked Store → Type 0
Commits P (done store) = P store
Commits P (raises e) = Unit

Commits-map :
    (P Q : Store → Type 0)
    → ((s : Store) → P s → Q s)
    → (c : Checked Store) → Commits P c
    → Commits Q c
Commits-map P Q f (done store) h = f store h
Commits-map P Q f (raises e) h = tt

SameRows-self : (store : Store) → SameRows store store
SameRows-self store = record { runs = refl; items = refl; sources = refl }

module _ (sub : Text → Text) where
  items-append :
      (target : Target) (k : ℕ) (items : List RawItemEnvelope) (old : List RawItem)
      → length (keep (of_run k) (old ++ map (raw_item sub target k) items))
        ≡ length (keep (of_run k) old) + length items
  unfolding raw_item
  items-append target k [] [] = refl
  items-append target k (item ∷ items) [] =
      ground (arith, items-append target k items [], eq→== k k refl)
  items-append target k items (row ∷ old) = ground (arith, items-append target k items old)

  module _ (fresh : Store → ℕ) (snapshot : CursorSnapshot) (batch : FetchBatch)
      (store : Store) where
    write_found-SameRows :
        (o : Option CollectionCursor) (account : ℕ) (kind next : Text)
        → Commits (SameRows store) (write_found sub fresh o account kind snapshot batch next store)
    unfolding write_found
    write_found-SameRows none account kind next = record {
      runs = refl;
      items = refl;
      sources = refl;
    }
    write_found-SameRows (some cursor) account kind next =
        elim (Bool-cases (moved cursor.cursor_value snapshot.cursor_value)) [
          | inl e ↦ rw e tt
          | inr e ↦ rw e (record { runs = refl; items = refl; sources = refl })
        ]

    write_cursor-SameRows :
        (account : Option ℕ) (kind next : Option Text)
        → Commits (SameRows store) (write_cursor sub fresh account kind next snapshot batch store)
    unfolding write_cursor
    write_cursor-SameRows (some account) (some kind) (some next) =
        write_found-SameRows (first (account_cursor sub account kind) store.cursors) account kind
          next
    write_cursor-SameRows none kind next = SameRows-self store
    write_cursor-SameRows (some account) none next = SameRows-self store
    write_cursor-SameRows (some account) (some kind) none = SameRows-self store

module _ (k source_id : ℕ) where
  -- The write of the run over a row of its id.
  Counted-put :
      (store : Store) (row new : CollectionRun)
      → Counted k source_id store row
      → new.id ≡ row.id
      → new.fetched_count ≡ row.fetched_count
      → Counted k source_id (put_run new store) new
  Counted-put store row new counted same count =
      let id : new.id ≡ k = same ∙ find-key run_key k store.runs counted.row in
      record {
        row = find-put run_key new k store.runs ∙ rw (eq→== new.id k id, counted.row) refl;
        counted = count ∙ counted.counted;
        source = counted.source;
      }

  -- Sources are written, none is removed.
  Counted-source :
      (store : Store) (row : CollectionRun) (old new : Source)
      → Counted k source_id store row
      → find source_key source_id store.sources ≡ some old
      → new.id ≡ old.id
      → Counted k source_id (put_source new store) row
  Counted-source store row old new counted there same = record {
    row = counted.row;
    counted = counted.counted;
    source = (
      new,
      find-put source_key new source_id store.sources
          ∙ rw
              (
                eq→== new.id source_id (same ∙ find-key source_key source_id store.sources there),
                there,
              )
              refl,
    );
  }

  -- A run that is RUNNING and counts its items.
  abbrev pub Live : Store → Type 0
  Live store =
      (row : CollectionRun) × Counted k source_id store row × (is_running row.status ≡ true)

module _ (sub : Text → Text) (fresh : Store → ℕ) (target : Target) (k : ℕ) where
  -- The run and its items before the step of the cursor.
  abbrev pub counted_run : FetchBatch → CollectionRun → CollectionRun
  counted_run batch row = record row { fetched_count = row.fetched_count + length batch.items }

  abbrev pub with_items : FetchBatch → CollectionRun → Store → Store
  with_items batch row store =
      put_run (counted_run batch row) (record store {
        raw_items = store.raw_items ++ map (raw_item sub target row.id) batch.items;
      })

  with_items-Counted :
      (batch : FetchBatch) (store : Store) (row : CollectionRun)
      → Counted k target.source_id store row
      → Counted k target.source_id (with_items batch row store) (counted_run batch row)
  with_items-Counted batch store row counted =
      let id : row.id ≡ k = find-key run_key k store.runs counted.row in
      record {
        row =
            find-put run_key (counted_run batch row) k store.runs
            ∙ rw (eq→== row.id k id, counted.row) refl;
        counted =
            rw id (
              omega
                (arith, counted.counted, items-append sub target k batch.items store.raw_items));
        source = counted.source;
      }

  SameRows-Counted :
      (store store' : Store) (row : CollectionRun)
      → Counted k target.source_id store row
      → SameRows store store'
      → Counted k target.source_id store' row
  SameRows-Counted store store' row counted same = record {
    row = ap (find run_key k) same.runs ∙ counted.row;
    counted = counted.counted ∙ sym (ap (λ items. length (keep (of_run k) items)) same.items);
    source =
        (counted.source.0, ap (find source_key target.source_id) same.sources ∙ counted.source.1);
  }

  pub write_checkpoint-Live :
      (snapshot : CursorSnapshot) (batch : FetchBatch) (store : Store)
      → Live k target.source_id store
      → Commits (Live k target.source_id) (write_checkpoint sub fresh target k snapshot batch store)
  unfolding write_checkpoint write_batch
  write_checkpoint-Live snapshot batch store (row, counted, live) =
      let store1 = with_items batch row store in
      rw (counted.row, live)
        (Commits-map (SameRows store1) (Live k target.source_id)
          (λ s same. (
            counted_run batch row,
            SameRows-Counted store1 s (counted_run batch row)
                (with_items-Counted batch store row counted) same,
            live,
          ))
          (write_cursor sub fresh target.source_account_id snapshot.cursor_type batch.next_cursor
            snapshot batch store1)
          (write_cursor-SameRows sub fresh snapshot batch store1 target.source_account_id
            snapshot.cursor_type batch.next_cursor))

  success_rows-Counted :
      (account : Option ℕ) (now : ℕ) (store : Store) (row : CollectionRun)
      (counted : Counted k target.source_id store row)
      → Counted k target.source_id
          (put_source
            (success_source account counted.source.0 now)
            (put_run (success_run row now) store))
          (success_run row now)
  unfolding success_run success_source
  success_rows-Counted none now store row counted =
      Counted-source k target.source_id _ _ counted.source.0 _
        (Counted-put k target.source_id store row _ counted refl refl) counted.source.1 refl
  success_rows-Counted (some account) now store row counted =
      Counted-source k target.source_id _ _ counted.source.0 _
        (Counted-put k target.source_id store row _ counted refl refl) counted.source.1 refl

  pub finish_success-Counted :
      (now : ℕ) (store : Store) (row : CollectionRun)
      → Counted k target.source_id store row
      → Counted k target.source_id (finish_success target k now store) (success_run row now)
  unfolding finish_success success_run
  finish_success-Counted now store row counted =
      rw (counted.row, counted.source.1)
        (success_rows-Counted target.source_account_id now store row counted)

  pub record_retry-Counted :
      (failure : ClassifiedCollectionError) (retry_count : ℕ) (store : Store) (row : CollectionRun)
      → Counted k target.source_id store row
      → Counted k target.source_id
          (record_retry k failure retry_count store)
          (retry_run failure retry_count row)
  unfolding record_retry retry_run
  record_retry-Counted failure retry_count store row counted =
      rw counted.row (Counted-put k target.source_id store row _ counted refl refl)

  pub finish_failure-Counted :
      (failure : ClassifiedCollectionError) (now : ℕ) (store : Store) (row : CollectionRun)
      → Counted k target.source_id store row
      → Counted k target.source_id
          (finish_failure target k failure now store)
          (failure_run failure now row)
  unfolding finish_failure failure_run
  finish_failure-Counted failure now store row counted =
      rw (counted.row, counted.source.1)
        (Counted-source k target.source_id _ _ counted.source.0 _
          (Counted-put k target.source_id store row _ counted refl refl) counted.source.1 refl)
