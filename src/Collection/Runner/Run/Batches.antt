-- ===== src/Collection/Runner/Run/Batches.antt =====
-- The batches of a legacy run: the loop ends, and the run counts its items.
use news_collect.Base.{
  ℕ, zero, suc, ◌+◌, ◌≡◌, ◌≤◌, ◌<◌, refl, ap, Option, none, some, Bool, true, false, not, ◌&&◌,
  arith, Bool-cases, inl, inr, is_some,
}
use news_collect.Db.Models.{CollectionRun, succeeded}
use news_collect.Collection.Errors.{ClassifiedCollectionError}
use news_collect.Collection.Runner.{
  Target, CursorSnapshot, FetchBatch, Store, Checked, done, raises, checkpoint_error, success_run,
}
use news_collect.Collection.Runner.Checkpoint.{
  Counted, Live, Commits, write_checkpoint-Live, finish_success-Counted,
}
use news_collect.Collection.Runner.Run.{
  Raised, Fetched, fetched, timed_out, broke, Runner, Outside, Turn, more, last, fails, Loop,
  completed, failing, endless, one_batch, batches, committed, persist, received, reached, asks,
  succeeds, after_turn,
}

module _ (outside : Outside) (runner : Runner) (target : Target) (m k : ℕ) where
  open outside use {World}

  abbrev Alive : Store → Type 0
  Alive store = Live k target.source_id store

  -- After a batch the run is RUNNING and counts its items, and one that goes on is below the bound.
  abbrev Fine : ℕ → Turn World → Type 0
  Fine n (more store w) = Alive store × (n + 1 < m)
  Fine n (last store w) = Alive store
  Fine n (fails e store w) = Alive store

  committed-Fine :
      (e : Option Raised) (again : Bool) (n : ℕ) (answer : Checked Store) (store : Store)
      (w : World)
      → Alive store
      → Commits Alive answer
      → (again ≡ true → n + 1 < m)
      → Fine n (committed outside runner target e again answer store w)
  unfolding committed
  committed-Fine (some e) again n answer store w h c b = h
  committed-Fine none again n (raises e) store w h c b = h
  committed-Fine none true n (done store') store w h c b = (c, b refl)
  committed-Fine none false n (done store') store w h c b = c

  persist-Fine :
      (e : Option ClassifiedCollectionError) (again : Bool) (n : ℕ) (snapshot : CursorSnapshot)
      (batch : FetchBatch) (store : Store) (w : World)
      → Alive store
      → (again ≡ true → n + 1 < m)
      → Fine n (persist outside runner target e again k snapshot batch store w)
  unfolding persist
  persist-Fine (some e) again n snapshot batch store w h b = h
  persist-Fine none again n snapshot batch store w h b =
      committed-Fine (outside.database w).0 again n _ store (outside.database w).1 h
        (write_checkpoint-Live outside.sub outside.fresh target k snapshot batch store h) b

  module _ (bound : runner.max_batches ≡ some m) where
    below :
        (n : ℕ) (b : Bool)
        → (b && not (reached outside runner target runner.max_batches (n + 1))) ≡ true
        → n + 1 < m
    unfolding reached
    below n b h = ground (arith, ap (λ o. reached outside runner target o (n + 1)) bound)

    received-Fine :
        (n : ℕ) (snapshot : CursorSnapshot) (answer : Fetched) (store : Store) (w : World)
        → Alive store
        → Fine n (received outside runner target n k snapshot answer store w)
    unfolding received
    received-Fine n snapshot timed_out store w h = h
    received-Fine n snapshot (broke e) store w h = h
    received-Fine n snapshot (fetched batch) store w h = elim (Bool-cases (outside.is_lost w)) [
      | inl e ↦ rw e h
      | inr e ↦ rw e (
          persist-Fine (checkpoint_error outside.sub runner.is_cursor_successor snapshot batch)
            (batch.has_more && not (reached outside runner target runner.max_batches (n + 1))) n
            snapshot batch store w h (λ e'. below n batch.has_more e'))
    ]

    asks-Fine :
        (e : Option Raised) (n deadline : ℕ) (store : Store) (w : World)
        → Alive store
        → Fine n (asks outside runner target e n k deadline store w)
    unfolding asks
    asks-Fine (some e) n deadline store w h = h
    asks-Fine none n deadline store w h = received-Fine n _ _ store _ h

    one_batch-Fine :
        (n deadline : ℕ) (store : Store) (w : World)
        → Alive store
        → Fine n (one_batch outside runner target n k deadline store w)
    unfolding one_batch
    one_batch-Fine n deadline store w h =
        elim (Bool-cases (is_some target.source_account_id && is_some runner.cursor_type)) [
          | inl e ↦
              rw e (asks-Fine (outside.database w).0 n deadline store (outside.database w).1 h)
          | inr e ↦ rw e (asks-Fine none n deadline store w h)
        ]

    -- A loop ends with the run SUCCEEDED, or fails with it RUNNING; it counts its items.
    abbrev pub Ends : Loop World → Type 0
    Ends (completed store w) =
        (row : CollectionRun) × Counted k target.source_id store row × (row.status ≡ succeeded)
    Ends (failing e store w) = Alive store
    Ends endless = ⊥

    succeeds-Ends :
        (e : Option Raised) (store : Store) (w : World)
        → Alive store
        → Ends (succeeds outside runner target e k store w)
    unfolding succeeds success_run
    succeeds-Ends (some e) store w h = h
    succeeds-Ends none store w (row, counted, live) = (
      _,
      finish_success-Counted outside.sub outside.fresh target k (outside.now w).0 store row counted,
      refl,
    )

    after_turn-Ends :
        (again : Store → World → Loop World) (n : ℕ) (turn : Turn World)
        → ((store : Store) (w : World) → Alive store → n + 1 < m → Ends (again store w))
        → Fine n turn
        → Ends (after_turn outside runner target again k turn)
    unfolding after_turn
    after_turn-Ends again n (more store w) f h = f store w h.0 h.1
    after_turn-Ends again n (last store w) f h = succeeds-Ends (outside.database w).0 store _ h
    after_turn-Ends again n (fails e store w) f h = h

    pub batches-Ends :
        (fuel n deadline : ℕ) (store : Store) (w : World)
        → Alive store
        → n < m
        → m ≤ n + fuel
        → Ends (batches outside runner target fuel n k deadline store w)
    unfolding batches
    batches-Ends zero n deadline store w h less enough = absurd (omega arith)
    batches-Ends (suc fuel) n deadline store w h less enough =
        after_turn-Ends (batches outside runner target fuel (n + 1) k deadline) n _
          (λ store' w' h' less'.
            batches-Ends fuel (n + 1) deadline store' w' h' less' (omega arith))
          (one_batch-Fine n deadline store w h)
