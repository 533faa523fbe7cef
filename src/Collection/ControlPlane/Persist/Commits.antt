-- ===== src/Collection/ControlPlane/Persist/Commits.antt =====
-- What a transaction of `_persist_result` that commits has written.
use news_collect.Base.{
  ℕ, ◌+◌, ◌≡◌, refl, Option, none, some, List, [], ◌∷◌, Bool, true, false, ◌||◌, ◌==◌,
  if◌then◌else◌, arith, Bool-cases, inl, inr, ◌⊎◌, ==→eq, is_some, All, Option-cases, seconds,
}
use news_collect.Base.Order.{Text}
use news_collect.Base.Rows.{find, find-put_self}
use news_collect.Base.Result.{Result, ok, ◌>>=◌, bind-ok}
use news_collect.Db.Models.{
  CollectionTarget, CollectionRun, CollectionCursor, CollectionRunMode, running, partial, succeeded,
  healthy, degraded,
}
use news_collect.Collection.Cursors.{Stamp}
use news_collect.Collection.ControlPlane.{Tables, target_key, run_key, put_target, put_run}
use news_collect.Collection.ControlPlane.Persist.{
  FetchResult, persist_result, persist_rows, write_cursors, found_cursor, advance_cursor,
  put_cursor, mirror, owns_cursor, first, result_run, result_target, add_rejected, bad_hashes,
  is_row_hash, partial_result,
}

SameRows : Tables → Tables → Type 0
SameRows a b = (a.targets ≡ b.targets) × (a.runs ≡ b.runs) × (a.rejected ≡ b.rejected)

mirror-SameRows :
    (more : Bool) (next kind : Option Text) (account : Option ℕ) (fresh : Tables → ℕ)
    (tables : Tables)
    → SameRows (mirror more next kind account fresh tables) tables
unfolding mirror put_cursor SameRows
mirror-SameRows false (some next) (some kind) (some account) fresh tables = (refl, refl, refl)
mirror-SameRows true next kind account fresh tables = (refl, refl, refl)
mirror-SameRows false none kind account fresh tables = (refl, refl, refl)
mirror-SameRows false (some next) none account fresh tables = (refl, refl, refl)
mirror-SameRows false (some next) (some kind) none fresh tables = (refl, refl, refl)

bad_hashes-All :
    (hashes : List Text) → bad_hashes hashes ≡ false → All (λ h. is_row_hash h ≡ true) hashes
unfolding bad_hashes
bad_hashes-All [] h = tt
bad_hashes-All (x ∷ xs) h = (ground arith, bad_hashes-All xs (ground arith))

result_run-id :
    (page_mode final : Bool) (result : FetchResult) (now : ℕ) (run : CollectionRun)
    → (result_run page_mode final result now run).id ≡ run.id
unfolding result_run
result_run-id page_mode final result now run = refl

result_target-id :
    (final : Bool) (result : FetchResult) (now : ℕ) (target : CollectionTarget)
    → (result_target final result now target).id ≡ target.id
unfolding result_target
result_target-id final result now target = ground arith

-- What the counters of a run say after a page, or after the only result.
abbrev pub Paged : Bool → FetchResult → CollectionRun → CollectionRun → Type 0
Paged true result before after =
    (after.page_count ≡ before.page_count + 1)
    × (after.request_count ≡ before.request_count)
    × (after.fetched_count ≡ before.fetched_count + result.counts.fetched)
Paged false result before after =
    (after.page_count ≡ before.page_count)
    × (after.request_count ≡ before.request_count)
    × (after.fetched_count ≡ result.counts.fetched)

-- A result that is not final leaves the run RUNNING and unfinished. A final one ends it: PARTIAL, with
-- the target DEGRADED, if the provider has more or coverage is incomplete; else SUCCEEDED, with the
-- target HEALTHY and its failures forgotten. The target is due after its cadence, not by a retry.
abbrev pub Ended :
    Bool → FetchResult → ℕ → CollectionTarget → CollectionRun → CollectionTarget → Type 0
Ended final result now before run target =
    (((final ≡ false) × (run.status ≡ running) × (run.finished_at ≡ none))
      ⊎ ((final ≡ true)
          × (partial_result result ≡ true)
          × (run.status ≡ partial)
          × (run.finished_at ≡ some now)
          × (target.health_status ≡ degraded))
      ⊎ ((final ≡ true)
          × (partial_result result ≡ false)
          × (run.status ≡ succeeded)
          × (run.finished_at ≡ some now)
          × (target.health_status ≡ healthy)
          × (target.consecutive_failures ≡ 0)))
    × (target.next_retry_at ≡ none)
    × (target.next_due_at ≡ now + seconds before.cadence_seconds)

result_run-Paged :
    (page_mode final : Bool) (result : FetchResult) (now : ℕ) (run : CollectionRun)
    → Paged page_mode result run (result_run page_mode final result now run)
unfolding result_run
result_run-Paged true final result now run = (refl, refl, refl)
result_run-Paged false final result now run = (refl, refl, omega arith)

result-Ended :
    (page_mode final : Bool) (result : FetchResult) (now : ℕ) (run : CollectionRun)
    (target : CollectionTarget)
    → Ended final result now target
        (result_run page_mode final result now run)
        (result_target final result now target)
unfolding result_run result_target
result-Ended page_mode false result now run target = (inl (refl, refl, refl), refl, refl)
result-Ended page_mode true result now run target = elim (Bool-cases (partial_result result)) [
  | inl e ↦ rw e (inr (inl (refl, refl, refl, refl, refl)), refl, refl)
  | inr e ↦ rw e (inr (inr (refl, refl, refl, refl, refl, refl)), refl, refl)
]

-- A guarded chain of calls whose result has the rows of `tables`.
chain-SameRows :
    (guard : Bool) (found : Result CollectionCursor)
    (advance : CollectionCursor → Result CollectionCursor) (done : CollectionCursor → Tables)
    (tables : Tables) {after : Tables}
    → ((c : CollectionCursor) → SameRows (done c) tables)
    → (if guard then (found >>= (λ c. advance c >>= (λ n. ok (done n)))) else ok tables) ≡ ok after
    → SameRows after tables
unfolding SameRows
chain-SameRows false found advance done tables {after} keep h = (cc, cc, cc)
chain-SameRows true found advance done tables {after} keep h =
    let (c, one, rest) = bind-ok found _ h in
    let (n, two, last) = bind-ok (advance c) _ rest in
    let same : after ≡ done n = cc in rw same (keep n)

module _ (loads : Text → Option (Text × Text)) (fromisoformat : Text → Option Stamp) where
  write_cursors-SameRows :
      (page_mode : Bool) (target : CollectionTarget) (mode : CollectionRunMode) (run_id : ℕ)
      (result : FetchResult) (snapshot : Option CollectionCursor) (fresh : Tables → ℕ)
      (tables : Tables) {after : Tables}
      → write_cursors loads fromisoformat page_mode target mode run_id result snapshot fresh tables
        ≡ ok after
      → SameRows after tables
  unfolding write_cursors put_cursor SameRows
  write_cursors-SameRows page_mode target mode run_id result snapshot fresh tables {after} h =
      let next = result.next_cursor in
      let more = result.has_more in
      chain-SameRows (page_mode || is_some next || more)
        (found_cursor (fresh tables) (first (owns_cursor target mode) tables.cursors) snapshot
          target mode)
        (advance_cursor loads fromisoformat page_mode more target run_id result next)
        (λ c.
          mirror more next target.legacy_cursor_type target.source_account_id fresh
            (put_cursor c tables))
        tables {after = after}
        (λ c.
          mirror-SameRows more next target.legacy_cursor_type target.source_account_id fresh
            (put_cursor c tables))
        h

  persist_rows-commits :
      (target : CollectionTarget) (run : CollectionRun) (target_id revision run_id : ℕ)
      (snapshot : Option CollectionCursor) (result : FetchResult) (mode : CollectionRunMode)
      (page_mode final : Bool) (now : ℕ) (fresh : Tables → ℕ) (tables : Tables) {after : Tables}
      → find target_key target_id tables.targets ≡ some target
      → find run_key run_id tables.runs ≡ some run
      → persist_rows loads fromisoformat
          (some target)
          (some run)
          revision
          snapshot
          result
          mode
          page_mode
          final
          now
          fresh
          tables
        ≡ ok after
      → (target.config_revision ≡ revision)
        × All (λ h. is_row_hash h ≡ true) result.rejected_row_hashes
        × (find run_key run_id after.runs ≡ some (result_run page_mode final result now run))
        × (find target_key target_id after.targets ≡ some (result_target final result now target))
  unfolding persist_rows SameRows
  persist_rows-commits target run target_id revision run_id snapshot result mode page_mode final now
        fresh tables {after} at_target at_run h =
      let current : (target.config_revision == revision) ≡ true = ground arith in
      let valid : bad_hashes result.rejected_row_hashes ≡ false = ground arith in
      let new_run = result_run page_mode final result now run in
      let new_target = result_target final result now target in
      let written : Tables = put_target new_target (
        put_run new_run (record tables {
          rejected = add_rejected target.id result.rejected_row_hashes tables.rejected;
        })) in
      let committed : write_cursors loads fromisoformat page_mode target mode run.id result snapshot
            fresh written
          ≡ ok after =
        ground arith in
      let same =
        write_cursors-SameRows page_mode target mode run.id result snapshot fresh written
          {after = after} committed in
      (
        ==→eq _ _ current,
        bad_hashes-All result.rejected_row_hashes valid,
        rw same.1 (
            find-put_self run_key run_id run new_run tables.runs at_run
              (result_run-id page_mode final result now run)),
        rw same.0 (
            find-put_self target_key target_id target new_target tables.targets at_target
              (result_target-id final result now target)),
      )

  -- A transaction of `_persist_result` that commits ran on a target that still has the dispatched
  -- revision, with no rejected hash but of 64 lowercase hexadecimal digits. Its run has counted one page
  -- more if it is in page mode, with the fetched rows added to those of the earlier pages (in page mode)
  -- or in their place (else). The run and the target end as `Ended` says.
  pub persist_result-commits :
      (target_id revision run_id : ℕ) (snapshot : Option CollectionCursor) (result : FetchResult)
      (mode : CollectionRunMode) (page_mode final : Bool) (now : ℕ) (fresh : Tables → ℕ)
      (tables : Tables) {after : Tables}
      → persist_result loads fromisoformat target_id revision run_id snapshot result mode page_mode
          final now fresh tables
        ≡ ok after
      → (target : CollectionTarget) × (run : CollectionRun) × (target' : CollectionTarget)
        × (run' : CollectionRun) × (find target_key target_id tables.targets ≡ some target)
        × (find run_key run_id tables.runs ≡ some run)
        × (find target_key target_id after.targets ≡ some target')
        × (find run_key run_id after.runs ≡ some run')
        × (target.config_revision ≡ revision)
        × All (λ h. is_row_hash h ≡ true) result.rejected_row_hashes
        × Paged page_mode result run run'
        × Ended final result now target run' target'
  unfolding persist_result persist_rows
  persist_result-commits target_id revision run_id snapshot result mode page_mode final now fresh
        tables {after} h =
      elim (Option-cases (find target_key target_id tables.targets)) [
        | inl e ↦ ground arith
        | inr (target, at_target) ↦ elim (Option-cases (find run_key run_id tables.runs)) [
          | inl e ↦ ground arith
          | inr (run, at_run) ↦
              let (current, valid, new_run, new_target) =
                persist_rows-commits target run target_id revision run_id snapshot result mode
                  page_mode final now fresh tables {after = after} at_target at_run
                  (ground arith) in
              (
                target,
                run,
                result_target final result now target,
                result_run page_mode final result now run,
                at_target,
                at_run,
                new_target,
                new_run,
                current,
                valid,
                result_run-Paged page_mode final result now run,
                result-Ended page_mode final result now run target,
              )
        ]
      ]
