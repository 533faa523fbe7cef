-- ===== src/Collection/ControlPlane/Retries.antt =====
-- How a failed run is retried.

use news_collect.Base.{
  ℕ, suc, ◌+◌, ◌≤◌, ◌≡◌, refl, ◌∙◌, Option, none, some, List, [], ◌∷◌, Bool, true, false, ◌&&◌, ltb,
  ◌==◌, if◌then◌else◌, arith, seconds, Bool-cases, inl, inr, ◌⊎◌, eq→==,
}
use news_collect.Base.Int.{ℤ, pos, negsuc}
use news_collect.Base.Order.{Text}
use news_collect.Base.Rows.{find, find-put_self}
use news_collect.Db.Models.{CollectionTarget, CollectionRun, running, failed}
use news_collect.Collection.ControlPlane.{
  Tables, target_key, run_key, retry_delay, finish_error, error_rows, run_error, target_error,
  run_stale,
}

pub retry_delay_bounds : (o : Option ℤ) → (1 ≤ retry_delay o) × (retry_delay o ≤ 900)
unfolding retry_delay
retry_delay_bounds none = omega arith
retry_delay_bounds (some (negsuc n)) = omega arith
retry_delay_bounds (some (pos n)) = ground arith

module _ (target_id revision run_id : ℕ) (code : Text) (retryable : Bool) (retry_after : Option ℤ)
    (now : ℕ) (tables : Tables) {run : CollectionRun} {target : CollectionTarget}
    (at_run : find run_key run_id tables.runs ≡ some run)
    (at_target : find target_key target_id tables.targets ≡ some target) where
  abbrev after_error : Bool × Tables
  after_error = finish_error target_id revision run_id code retryable retry_after now tables

  -- `_finish_error` of a run whose target still has the dispatched revision: what it grants, and the
  -- rows that it leaves.
  finish_error_rows :
      target.config_revision ≡ revision
      → let again = retryable && ltb run.retry_count 3 in
        (after_error.0 ≡ again)
        × (find run_key run_id after_error.1.runs ≡ some (run_error run code again now))
        × (find target_key target_id after_error.1.targets
            ≡ some (target_error target code again retry_after now))
  unfolding finish_error
  finish_error_rows same =
      let again = retryable && ltb run.retry_count 3 in
      rw (at_run, at_target, error_rows)
        (rw (eq→== target.config_revision revision same) (
          refl,
          find-put_self run_key run_id run (run_error run code again now) tables.runs at_run refl,
          find-put_self target_key target_id target (target_error target code again retry_after now)
              tables.targets at_target refl,
        ))

  -- Of a run whose target still has the dispatched revision, `_finish_error` says that it will be retried
  -- exactly if the failure is retryable and the run has had fewer than three retries. Then the run is
  -- RUNNING still with one more retry counted, at most three, and its target is due again after 1 to 900
  -- seconds. Otherwise the run is FAILED and finished, and its target waits for its cadence.
  pub finish_error-exact :
      target.config_revision ≡ revision
      → (run' : CollectionRun) × (target' : CollectionTarget) × (find run_key run_id
            after_error.1.runs
          ≡ some run')
        × (find target_key target_id after_error.1.targets ≡ some target')
        × (((after_error.0 ≡ true)
              × (retryable ≡ true)
              × (suc run.retry_count ≤ 3)
              × (run'.status ≡ running)
              × (run'.retry_count ≡ run.retry_count + 1)
              × (run'.retry_count ≤ 3)
              × (target'.next_retry_at ≡ some (now + seconds (retry_delay retry_after)))
              × (1 ≤ retry_delay retry_after)
              × (retry_delay retry_after ≤ 900))
            ⊎ ((after_error.0 ≡ false)
                × ((retryable ≡ false) ⊎ (3 ≤ run.retry_count))
                × (run'.status ≡ failed)
                × (run'.finished_at ≡ some now)
                × (run'.retry_count ≡ run.retry_count)
                × (target'.next_retry_at ≡ none)
                × (target'.next_due_at ≡ now + seconds target.cadence_seconds)))
  unfolding run_error target_error
  finish_error-exact same =
      let again = retryable && ltb run.retry_count 3 in
      let (grant, at_r, at_t) = finish_error_rows same in
      let (low, high) = retry_delay_bounds retry_after in
      (
        run_error run code again now,
        target_error target code again retry_after now,
        at_r,
        at_t,
        elim (Bool-cases again) [
          | inl e ↦ inl (
            grant ∙ e,
            ground (arith, e),
            ground (arith, e),
            ground arith,
            ground arith,
            ground arith,
            ground arith,
            low,
            high,
          )
          | inr e ↦ inr (
            grant ∙ e,
            denied retryable run.retry_count e,
            ground arith,
            ground arith,
            ground arith,
            ground arith,
            ground arith,
          )
        ],
      )
    where
      denied : (b : Bool) (n : ℕ) → (b && ltb n 3) ≡ false → (b ≡ false) ⊎ (3 ≤ n)
      denied true n h = inr (ground arith)
      denied false n h = inl refl

-- One failure of a run, as `_finish_error` is told of it.
pub record Failure : Type 0 where
  pub revision : ℕ
  pub code : Text
  pub retryable : Bool
  pub retry_after : Option ℤ
  pub now : ℕ

-- How many of a series of failures of one run are granted a retry.
abbrev pub grants : ℕ → ℕ → List Failure → Tables → ℕ
grants target_id run_id [] tables = 0
grants target_id run_id (f ∷ rest) tables =
    let (again, tables') =
      finish_error target_id f.revision run_id f.code f.retryable f.retry_after f.now tables in
    let more = grants target_id run_id rest tables' in if again then suc more else more

-- One failure counts at most one retry, and the rows are there still.
failure_step :
    (target_id run_id : ℕ) (f : Failure) (tables : Tables) (run : CollectionRun)
    (target : CollectionTarget)
    → find run_key run_id tables.runs ≡ some run
    → find target_key target_id tables.targets ≡ some target
    → run.retry_count ≤ 3
    → let (again, tables') =
        finish_error target_id f.revision run_id f.code f.retryable f.retry_after f.now tables in
      (run' : CollectionRun) × (target' : CollectionTarget) × (find run_key run_id tables'.runs
        ≡ some run')
      × (find target_key target_id tables'.targets ≡ some target')
      × (run'.retry_count ≡ (if again then run.retry_count + 1 else run.retry_count))
      × (run'.retry_count ≤ 3)
unfolding finish_error
failure_step target_id run_id f tables run target at_run at_target within =
    let again = f.retryable && ltb run.retry_count 3 in
    elim (Bool-cases (target.config_revision == f.revision)) [
      | inl e ↦
          rw (at_run, at_target, error_rows)
            (rw e (
              run_error run f.code again f.now,
              target_error target f.code again f.retry_after f.now,
              find-put_self run_key run_id run (run_error run f.code again f.now) tables.runs at_run
                  refl,
              find-put_self target_key target_id target
                  (target_error target f.code again f.retry_after f.now) tables.targets at_target
                  refl,
              refl,
              ground arith,
            ))
      | inr e ↦
          rw (at_run, at_target, error_rows)
            (rw e (
              run_stale run f.now,
              target,
              find-put_self run_key run_id run (run_stale run f.now) tables.runs at_run refl,
              at_target,
              refl,
              within,
            ))
    ]

-- However many failures of a run are reported, of whatever kind and under whatever revisions, at most
-- three of them are granted a retry.
pub grants_bounded :
    (target_id run_id : ℕ) (failures : List Failure) (tables : Tables) (run : CollectionRun)
    (target : CollectionTarget)
    → find run_key run_id tables.runs ≡ some run
    → find target_key target_id tables.targets ≡ some target
    → run.retry_count ≤ 3
    → run.retry_count + grants target_id run_id failures tables ≤ 3
grants_bounded target_id run_id [] tables run target at_run at_target within = omega arith
grants_bounded target_id run_id (f ∷ rest) tables run target at_run at_target within =
    let (run', target', at_run', at_target', counted, within') =
      failure_step target_id run_id f tables run target at_run at_target within in
    let tables' : Tables =
      (finish_error target_id f.revision run_id f.code f.retryable f.retry_after f.now tables).1 in
    ground (
      arith,
      counted,
      grants_bounded target_id run_id rest tables' run' target' at_run' at_target' within',
    )
