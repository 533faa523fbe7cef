-- ===== src/Collection/ControlPlane/Pages/Budget.antt =====
-- The requests and the pages of a run stay within the budget of its target.
use news_collect.Base.{
  ℕ, ◌+◌, ◌≤◌, ◌≡◌, refl, Option, none, some, List, Bool, ◌&&◌, ltb, ◌==◌, arith, Bool-cases,
  Option-cases, inl, inr,
}
use news_collect.Base.Int.{ℤ}
use news_collect.Base.Order.{Text}
use news_collect.Base.Rows.{find, modify, find-put_self}
use news_collect.Db.Models.{CollectionTarget, CollectionRun}
use news_collect.Collection.ControlPlane.{
  Tables, target_key, run_key, finish_error, error_rows, run_error, run_stale, finish_lock_lost,
  lost_rows,
}
use news_collect.Collection.ControlPlane.Pages.{
  Reserve, reserved, spent, missing, is_spent, reserve, reserve_row, requests,
}

-- The run is there, with its requests and its pages within two bounds.
abbrev pub Within : ℕ → ℕ → ℕ → List CollectionRun → Type 0
Within requests pages run_id runs =
    (run : CollectionRun) × (find run_key run_id runs ≡ some run)
    × (run.request_count ≤ requests)
    × (run.page_count ≤ pages)

module _ (most pages run_id : ℕ) where
  put-Within :
      (runs : List CollectionRun) (run run' : CollectionRun)
      → find run_key run_id runs ≡ some run
      → run'.id ≡ run.id
      → run'.request_count ≤ most
      → run'.page_count ≤ pages
      → Within most pages run_id (modify run_key run'.id (λ old. run') runs)
  put-Within runs run run' at same r p =
      (run', find-put_self run_key run_id run run' runs at same, r, p)

  error_rows-Within :
      (run : CollectionRun) (o : Option CollectionTarget) (revision : ℕ) (code : Text)
      (retryable : Bool) (retry_after : Option ℤ) (now : ℕ) (tables : Tables)
      → find run_key run_id tables.runs ≡ some run
      → run.request_count ≤ most
      → run.page_count ≤ pages
      → Within most pages run_id
          (error_rows (some run) o revision code retryable retry_after now tables).1.runs
  unfolding finish_error
  error_rows-Within run none revision code retryable retry_after now tables at r p = (run, at, r, p)
  error_rows-Within run (some target) revision code retryable retry_after now tables at r p =
      let again = retryable && ltb run.retry_count 3 in
      elim (Bool-cases (target.config_revision == revision)) [
        | inl e ↦ rw e (put-Within tables.runs run (run_error run code again now) at refl r p)
        | inr e ↦ rw e (put-Within tables.runs run (run_stale run now) at refl r p)
      ]

  pub finish_error-Within :
      (target_id revision : ℕ) (code : Text) (retryable : Bool) (retry_after : Option ℤ) (now : ℕ)
      (tables : Tables)
      → Within most pages run_id tables.runs
      → Within most pages run_id
          (finish_error target_id revision run_id code retryable retry_after now tables).1.runs
  unfolding finish_error
  finish_error-Within target_id revision code retryable retry_after now tables (run, at, r, p) =
      rw at (
        error_rows-Within run (find target_key target_id tables.targets) revision code retryable
          retry_after now tables at r p)

  lost_rows-Within :
      (run : CollectionRun) (o : Option CollectionTarget) (revision now : ℕ) (tables : Tables)
      → find run_key run_id tables.runs ≡ some run
      → run.request_count ≤ most
      → run.page_count ≤ pages
      → Within most pages run_id (lost_rows (some run) o revision now tables).runs
  unfolding finish_lock_lost
  lost_rows-Within run none revision now tables at r p = (run, at, r, p)
  lost_rows-Within run (some target) revision now tables at r p =
      elim (Bool-cases (target.config_revision == revision)) [
        | inl e ↦ rw e (put-Within tables.runs run _ at refl r p)
        | inr e ↦ rw e (put-Within tables.runs run _ at refl r p)
      ]

  pub finish_lock_lost-Within :
      (target_id revision now : ℕ) (tables : Tables)
      → Within most pages run_id tables.runs
      → Within most pages run_id (finish_lock_lost target_id revision run_id now tables).runs
  unfolding finish_lock_lost
  finish_lock_lost-Within target_id revision now tables (run, at, r, p) =
      rw at
        (lost_rows-Within run (find target_key target_id tables.targets) revision now tables at r p)

-- A run with a request and a page left, once its request is counted: a page more is within the budget.
abbrev pub Reserved : CollectionTarget → ℕ → Reserve → Type 0
Reserved budget run_id missing = Unit
Reserved budget run_id (spent tables) =
    Within budget.max_requests_per_run budget.max_pages_per_run run_id tables.runs
Reserved budget run_id (reserved deadline tables) =
    (run : CollectionRun) × (find run_key run_id tables.runs ≡ some run)
    × (run.request_count ≤ budget.max_requests_per_run)
    × (run.page_count + 1 ≤ budget.max_pages_per_run)

reserve_row-Reserved :
    (budget : CollectionTarget) (run : CollectionRun) (run_id target_id now : ℕ) (tables : Tables)
    → find run_key run_id tables.runs ≡ some run
    → run.request_count ≤ budget.max_requests_per_run
    → run.page_count ≤ budget.max_pages_per_run
    → Reserved budget run_id (reserve_row budget (some run) target_id now tables)
unfolding reserve
reserve_row-Reserved budget run run_id target_id now tables at r p =
    elim (Bool-cases (is_spent budget run)) [
      | inl e ↦ rw e (elim (Option-cases (find target_key target_id tables.targets)) [
        | inl none_there ↦ rw none_there tt
        | inr (target, there) ↦ rw there (
            put-Within budget.max_requests_per_run budget.max_pages_per_run run_id tables.runs run _
              at refl r p)
      ])
      | inr e ↦ rw e (
        record run { request_count = run.request_count + 1 },
        find-put_self run_key run_id run (record run { request_count = run.request_count + 1 })
            tables.runs at refl,
        ground arith,
        ground arith,
      )
    ]

pub reserve-Reserved :
    (budget : CollectionTarget) (run_id target_id now : ℕ) (tables : Tables)
    → Within budget.max_requests_per_run budget.max_pages_per_run run_id tables.runs
    → Reserved budget run_id (reserve budget run_id target_id now tables)
unfolding reserve
reserve-Reserved budget run_id target_id now tables (run, at, r, p) =
    rw at (reserve_row-Reserved budget run run_id target_id now tables at r p)
