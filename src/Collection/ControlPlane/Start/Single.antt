-- ===== src/Collection/ControlPlane/Start/Single.antt =====
-- A target has one run at a time in a mode.
use news_collect.Base.{
  ℕ, ◌≤◌, ◌≡◌, refl, Option, none, some, List, [], ◌∷◌, Bool, true, arith, Bool-cases, Option-cases,
  inl, inr, keep, length,
}
use news_collect.Base.Order.{Text, keys}
use news_collect.Base.Rows.{find, find-key}
use news_collect.Base.Result.{ok}
use news_collect.Db.Models.{
  CollectionTarget, CollectionRun, CollectionCursor, CollectionRunMode, normal, backfill,
}
use news_collect.Collection.ControlPlane.{Tables, target_key, run_key}
use news_collect.Collection.ControlPlane.Persist.{first, same_mode}
use news_collect.Collection.ControlPlane.Start.{start_run, start_rows, runs_for, new_run}

-- How many runs a target has RUNNING in a mode.
abbrev pub running_count : ℕ → CollectionRunMode → List CollectionRun → ℕ
running_count target_id mode runs = length (keep (runs_for target_id mode) runs)

first-none {ℓ} : {A : Type ℓ} (p : A → Bool) (xs : List A) → first p xs ≡ none → keep p xs ≡ []
unfolding first
first-none p [] h = refl
first-none p (x ∷ xs) h = ground (arith, first-none p xs)

length-zero {ℓ} : {A : Type ℓ} (xs : List A) → length xs ≤ 0 → xs ≡ []
length-zero [] h = refl
length-zero (x ∷ xs) h = absurd (omega arith)

-- A query with at most one row is its first row.
first-some {ℓ} :
    {A : Type ℓ} (p : A → Bool) (xs : List A) {a : A}
    → length (keep p xs) ≤ 1
    → first p xs ≡ some a
    → keep p xs ≡ a ∷ []
unfolding first
first-some p [] {a} one h = cc
first-some p (x ∷ xs) {a} one h = elim (Bool-cases (p x)) [
  | inl e ↦ ground (arith, length-zero (keep p xs))
  | inr e ↦ ground (arith, first-some p xs {a = a})
]

same_mode_refl : (mode : CollectionRunMode) → same_mode mode mode ≡ true
same_mode_refl normal = refl
same_mode_refl backfill = refl

new_run-runs_for :
    (k : ℕ) (target : CollectionTarget) (mode : CollectionRunMode) (identity : Text) (now : ℕ)
    → runs_for target.id mode (new_run k target mode identity now) ≡ true
unfolding new_run runs_for
new_run-runs_for k target mode identity now = ground (arith, same_mode_refl mode)

start_rows-single :
    (target : CollectionTarget) (revision : ℕ) (mode : CollectionRunMode) (identity : Text)
    (now : ℕ) (fresh : Tables → ℕ) (tables after : Tables) (k : ℕ)
    (cursor : Option CollectionCursor)
    → running_count target.id mode tables.runs ≤ 1
    → start_rows (some target) revision mode identity now fresh tables ≡ ok ((k, cursor), after)
    → (target.config_revision ≡ revision)
      × (keys run_key (keep (runs_for target.id mode) after.runs) ≡ k ∷ [])
      × (after.targets ≡ tables.targets)
unfolding start_run new_run
start_rows-single target revision mode identity now fresh tables after k cursor one h =
    elim (Option-cases (first (runs_for target.id mode) tables.runs)) [
      | inl e ↦
          let q = first-none (runs_for target.id mode) tables.runs e in
          let new = new_run-runs_for (fresh tables) target mode identity now in
          (ground arith, ground arith, ground arith)
      | inr (run, e) ↦
          let q = first-some (runs_for target.id mode) tables.runs {a = run} one e in
          (ground arith, ground arith, ground arith)
    ]

-- If a target has at most one run RUNNING in a mode, then after a `_start_run` that succeeds it has
-- exactly one in it, and that is the run whose id is returned; the target still has the dispatched
-- revision and no target changed.
pub start_run-single :
    (target_id revision : ℕ) (mode : CollectionRunMode) (identity : Text) (now : ℕ)
    (fresh : Tables → ℕ) (tables after : Tables) (k : ℕ) (cursor : Option CollectionCursor)
    → running_count target_id mode tables.runs ≤ 1
    → start_run target_id revision mode identity now fresh tables ≡ ok ((k, cursor), after)
    → (target : CollectionTarget) × (find target_key target_id after.targets ≡ some target)
      × (target.config_revision ≡ revision)
      × (keys run_key (keep (runs_for target_id mode) after.runs) ≡ k ∷ [])
      × (after.targets ≡ tables.targets)
unfolding start_run start_rows
start_run-single target_id revision mode identity now fresh tables after k cursor one h =
    elim (Option-cases (find target_key target_id tables.targets)) [
      | inl e ↦ ground arith
      | inr (target, e) ↦
          let id : target.id ≡ target_id = find-key target_key target_id tables.targets e in
          let (same, single, kept) =
            start_rows-single target revision mode identity now fresh tables after k cursor
              (rw id one) (ground arith) in
          (target, ground arith, same, rw (← id) single, kept)
    ]
