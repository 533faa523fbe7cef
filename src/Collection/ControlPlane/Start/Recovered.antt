-- ===== src/Collection/ControlPlane/Start/Recovered.antt =====
-- Which runs a recovery of stale runs ends.
use mathlib.Core.Option
use mathlib.Core.Path.{fun_ext}
use news_collect.Base.{
  ℕ, ◌+◌, ◌≡◌, refl, ap, ◌∙◌, Option, none, some, List, [], ◌∷◌, Bool, true, false, not, ◌&&◌, ◌||◌,
  ◌==◌, if◌then◌else◌, arith, Bool-cases, Option-cases, inl, inr, keep, keep-keep, length, is_some,
  contains, ==→eq, ltb,
}
use news_collect.Base.Order.{Text, codes, keys}
use news_collect.Base.Keys.{Unique, Unique-keep, find-keep, contains-keep_not}
use news_collect.Base.Rows.{find, modify, find-put}
use news_collect.Db.Models.{
  CollectionTarget, CollectionRun, CollectionRunMode, CollectionRunStatus, running, failed,
}
use news_collect.Collection.ControlPlane.{Tables, target_key, run_key, put_target, put_run}
use news_collect.Collection.ControlPlane.Start.{
  stale_end, stale_target, recover_one, recover_each, recover_stale_target_runs, is_stale,
  dispatched, is_running,
}

-- A target of that id is in the table.
abbrev pub known : Option ℕ → Tables → Bool
known none tables = false
known (some k) tables = is_some (find target_key k tables.targets)

known-put :
    (o : Option ℕ) (target : CollectionTarget) (run : CollectionRun) (tables : Tables)
    → known o (put_target target (put_run run tables)) ≡ known o tables
known-put none target run tables = refl
known-put (some k) target run tables = ground (arith, find-put target_key target k tables.targets)

module _ (lock_exists : ℕ → CollectionRunMode → Bool) (dispatch_exists : Text → Bool) where
  -- Nobody works on the run: neither its lock nor the marker of its dispatch is there.
  abbrev pub is_alive : CollectionRun → Bool
  is_alive run = elim run.target_id [
    | none ↦ true
    | some k ↦
        lock_exists k run.run_mode || dispatched lock_exists dispatch_exists run.dispatch_identity
  ]

  abbrev pub is_lost : Tables → CollectionRun → Bool
  is_lost tables run = not (is_alive run) && known run.target_id tables

  -- What the recovery of one run does to the count, to the runs and to the known targets.
  record Recovers (now : ℕ) (run : CollectionRun) (n : ℕ) (tables : Tables) (after : ℕ × Tables)
      : Type 0 where
    count : after.0 ≡ (if is_lost tables run then n + 1 else n)
    rows : after.1.runs ≡ (
        if is_lost tables run
        then modify run_key run.id (λ old. stale_end run now) tables.runs
        else tables.runs)
    targets : (o : Option ℕ) → known o after.1 ≡ known o tables

  module _ (now retry_delay_seconds : ℕ) where
    recover_one-Recovers :
        (run : CollectionRun) (o : Option ℕ) (n : ℕ) (tables : Tables)
        → run.target_id ≡ o
        → Recovers now run n tables
            (recover_one lock_exists dispatch_exists run o now retry_delay_seconds (n, tables))
    unfolding recover_stale_target_runs
    recover_one-Recovers run none n tables e = record {
      count = rw e refl;
      rows = rw e refl;
      targets = λ o. refl;
    }
    recover_one-Recovers run (some k) n tables e =
        elim (Bool-cases (
          lock_exists k run.run_mode
          || dispatched lock_exists dispatch_exists run.dispatch_identity)) [
            | inl alive ↦ rw alive (record {
              count = rw (e, alive) refl;
              rows = rw (e, alive) refl;
              targets = λ o. refl;
            })
            | inr dead ↦ elim (Option-cases (find target_key k tables.targets)) [
              | inl gone ↦
                  rw (dead, gone)
                    (record {
                      count = rw (e, dead, gone) refl;
                      rows = rw (e, dead, gone) refl;
                      targets = λ o. refl;
                    })
              | inr (target, there) ↦
                  rw (dead, there)
                    (record {
                      count = rw (e, dead, there) refl;
                      rows = rw (e, dead, there) refl;
                      targets = λ o.
                          known-put o (stale_target target now retry_delay_seconds)
                            (stale_end run now) tables;
                    })
            ]
          ]

    abbrev recovered_from : List CollectionRun → ℕ → Tables → ℕ × Tables
    recovered_from runs n tables =
        recover_each lock_exists dispatch_exists runs now retry_delay_seconds (n, tables)

    abbrev one : CollectionRun → ℕ → Tables → ℕ × Tables
    one run n tables =
        recover_one lock_exists dispatch_exists run run.target_id now retry_delay_seconds
          (n, tables)

    is_lost-one :
        (run other : CollectionRun) (n : ℕ) (tables : Tables)
        → is_lost (one run n tables).1 other ≡ is_lost tables other
    is_lost-one run other n tables =
        ap (λ b. not (is_alive other) && b)
          ((recover_one-Recovers run run.target_id n tables refl).targets other.target_id)

    recover_each-count :
        (runs : List CollectionRun) (n : ℕ) (tables : Tables)
        → (recovered_from runs n tables).0 ≡ n + length (keep (is_lost tables) runs)
    unfolding recover_stale_target_runs
    recover_each-count [] n tables = omega arith
    recover_each-count (run ∷ runs) n tables =
        let effect = recover_one-Recovers run run.target_id n tables refl in
        let same =
          ap (λ (test : CollectionRun → Bool). length (keep test runs))
            (fun_ext (λ other. is_lost-one run other n tables)) in
        let rest = recover_each-count runs (one run n tables).0 (one run n tables).1 in
        elim (Bool-cases (is_lost tables run)) [
          | inl e ↦ rw e (ground (arith, rest, same, effect.count, e))
          | inr e ↦ rw e (ground (arith, rest, same, effect.count, e))
        ]

    find-one :
        (run : CollectionRun) (n : ℕ) (tables : Tables) (j : ℕ)
        → find run_key j (one run n tables).1.runs ≡ (
            if is_lost tables run && run.id == j
            then Option.map (λ old. stale_end run now) (find run_key j tables.runs)
            else find run_key j tables.runs)
    unfolding recover_stale_target_runs
    find-one run n tables j =
        ap (find run_key j) (recover_one-Recovers run run.target_id n tables refl).rows
        ∙ elim (Bool-cases (is_lost tables run)) [
          | inl e ↦ rw e (find-put run_key (stale_end run now) j tables.runs)
          | inr e ↦ rw e refl
        ]

    recover_each-other :
        (runs : List CollectionRun) (n : ℕ) (tables : Tables) (j : ℕ)
        → contains j (keys run_key runs) ≡ false
        → find run_key j (recovered_from runs n tables).1.runs ≡ find run_key j tables.runs
    unfolding recover_stale_target_runs
    recover_each-other [] n tables j h = refl
    recover_each-other (run ∷ runs) n tables j h =
        recover_each-other runs (one run n tables).0 (one run n tables).1 j (ground arith)
        ∙ find-one run n tables j
        ∙ ground arith

    recover_each-own :
        (runs : List CollectionRun) (n : ℕ) (tables : Tables) (j : ℕ) (run : CollectionRun)
        → Unique (keys run_key runs)
        → find run_key j runs ≡ some run
        → find run_key j tables.runs ≡ some run
        → find run_key j (recovered_from runs n tables).1.runs
          ≡ some (if is_lost tables run then stale_end run now else run)
    unfolding recover_stale_target_runs
    recover_each-own [] n tables j run u h at = cc
    recover_each-own (first ∷ runs) n tables j run u h at = elim (Bool-cases (first.id == j)) [
      | inl e ↦
          let same : first ≡ run = ground arith in
          recover_each-other runs (one first n tables).0 (one first n tables).1 j
            (rw (← ==→eq first.id j e) u.0)
          ∙ find-one first n tables j
          ∙ rw (e, at, same) (ground arith)
      | inr e ↦
          recover_each-own runs (one first n tables).0 (one first n tables).1 j run u.1
            (ground arith) (find-one first n tables j ∙ ground arith)
          ∙ ap (λ b. some (if b then stale_end run now else run)) (is_lost-one first run n tables)
    ]

    module _ (locked : ℕ → Bool) (stale_before : ℕ) (tables : Tables) where
      -- The recovery of the stale runs, and which runs it ends.
      abbrev pub recovered : ℕ × Tables
      recovered =
          recover_stale_target_runs lock_exists dispatch_exists locked stale_before
            retry_delay_seconds now tables

      abbrev ends : CollectionRun → Bool
      ends run = is_stale lock_exists dispatch_exists locked stale_before run && is_lost tables run

      ends-exact :
          (j : ℕ) (run : CollectionRun)
          → Unique (keys run_key tables.runs)
          → find run_key j tables.runs ≡ some run
          → (recovered.0 ≡ length (keep ends tables.runs))
            × (find run_key j recovered.1.runs ≡ some (if ends run then stale_end run now else run))
      unfolding recover_stale_target_runs
      ends-exact j run u at =
          let test = is_stale lock_exists dispatch_exists locked stale_before in
          let counted : recovered.0 ≡ length (keep ends tables.runs) = omega (
            arith,
            recover_each-count (keep test tables.runs) 0 tables,
            ap length (keep-keep test (is_lost tables) tables.runs),
          ) in
          elim (Bool-cases (test run)) [
            | inl e ↦ (
              counted,
              rw e (
                  recover_each-own (keep test tables.runs) 0 tables j run
                    (Unique-keep run_key test tables.runs u)
                    (find-keep run_key test j tables.runs {a = run} at e) at),
            )
            | inr e ↦ (
              counted,
              rw e (
                  recover_each-other (keep test tables.runs) 0 tables j
                    (contains-keep_not run_key test j tables.runs {a = run} u at e)
                  ∙ at),
            )
          ]

      abbrev runs_still : CollectionRunStatus → Bool
      runs_still running = true
      runs_still _ = false

      -- A run is named by a dispatch whose marker is there.
      abbrev has_marker : Option Text → Bool
      has_marker none = false
      has_marker (some identity) = not (length identity == 0) && dispatch_exists identity

      -- A run that nobody works on any more: it is of a target in the table and RUNNING, was started before
      -- the limit, its row is not locked, its lock is not there, and neither is a marker of its dispatch.
      abbrev pub is_abandoned : CollectionRun → Bool
      is_abandoned run = elim run.target_id [
        | none ↦ false
        | some k ↦
            runs_still run.status
            && ltb run.started_at stale_before
            && not (locked run.id)
            && not (lock_exists k run.run_mode)
            && not (has_marker run.dispatch_identity)
            && is_some (find target_key k tables.targets)
      ]

      -- A run that the recovery has ended.
      abbrev pub abandoned : CollectionRun → CollectionRun
      abandoned run = record run {
        status = failed;
        finished_at = some now;
        error_code = some (codes "stale_run");
        error_message_redacted = some (codes "stale_run");
      }

      ends-is_abandoned : (run : CollectionRun) → ends run ≡ is_abandoned run
      unfolding is_stale dispatched
      ends-is_abandoned run = of_fields run.target_id run.status run.dispatch_identity
        where
          of_fields :
              (o : Option ℕ) (s : CollectionRunStatus) (d : Option Text)
              → ((is_some o
                    && is_running s
                    && ltb run.started_at stale_before
                    && not (locked run.id))
                  && (not (elim o [
                    | none ↦ true
                    | some k ↦
                        lock_exists k run.run_mode || dispatched lock_exists dispatch_exists d
                  ])
                      && known o tables))
                ≡ elim o [
                  | none ↦ false
                  | some k ↦
                      runs_still s
                      && ltb run.started_at stale_before
                      && not (locked run.id)
                      && not (lock_exists k run.run_mode)
                      && not (has_marker d)
                      && is_some (find target_key k tables.targets)
                ]
          of_fields none s d = refl
          of_fields (some k) s none = ground arith
          of_fields (some k) s (some []) = ground arith
          of_fields (some k) s (some (c ∷ identity)) = ground arith

      -- If the ids of the runs are unique, a recovery of the stale runs ends exactly the runs that are
      -- abandoned, as FAILED at that time with the code `stale_run` and no other change, and leaves every
      -- other run as it was; it returns how many it ended.
      pub recover_stale_target_runs-exact :
          (j : ℕ) (run : CollectionRun)
          → Unique (keys run_key tables.runs)
          → find run_key j tables.runs ≡ some run
          → (recovered.0 ≡ length (keep is_abandoned tables.runs))
            × (find run_key j recovered.1.runs
                ≡ some (if is_abandoned run then abandoned run else run))
      unfolding stale_end
      recover_stale_target_runs-exact j run u at =
          let (counted, effect) = ends-exact j run u at in
          (
            counted
                ∙ ap (λ (p : CollectionRun → Bool). length (keep p tables.runs))
                    (fun_ext ends-is_abandoned),
            effect ∙ ap (λ b. some (if b then abandoned run else run)) (ends-is_abandoned run),
          )
