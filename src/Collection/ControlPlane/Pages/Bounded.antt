-- ===== src/Collection/ControlPlane/Pages/Bounded.antt =====
-- The loop over the pages of a run keeps the budget of its target.
use news_collect.Base.{
  ℕ, zero, suc, ◌≤◌, ◌≡◌, refl, sym, ◌∙◌, min, Option, none, some, List, [], ◌∷◌, Bool, true, false,
  not, ◌||◌, leb, ◌==◌, arith, Bool-cases, inl, inr,
}
use news_collect.Base.Int.{ℤ}
use news_collect.Base.Order.{Text, text_eq}
use news_collect.Base.Rows.{find}
use news_collect.Base.Result.{Result, ok, err}
use news_collect.Db.Models.{CollectionRun, CollectionCursor, CollectionRunMode}
use news_collect.Collection.Cursors.{Stamp}
use news_collect.Collection.ControlPlane.{Tables, run_key}
use news_collect.Collection.ControlPlane.Persist.{FetchResult, persist_result}
use news_collect.Collection.ControlPlane.Persist.Commits.{persist_result-commits}
use news_collect.Collection.ControlPlane.Pages.{
  TargetDispatch, LoadedTarget, TargetRunOutcome, ProviderFetchRequest, SafeError, ProviderAnswer,
  Fetched, answered, lost, timed_out, Turn, stops, goes, Reserve, reserved, spent, missing,
  is_final, fails_with, persisted, persists, accepts, answers, receives, requests, checked, page,
  after_turn, pages_from, execute_pages, repeats_continuation,
}
use news_collect.Collection.ControlPlane.Pages.Budget.{
  Within, Reserved, reserve-Reserved, finish_error-Within, finish_lock_lost-Within,
}

module _ {W : Type 0} (loads : Text → Option (Text × Text)) (fromisoformat : Text → Option Stamp)
    (fresh : Tables → ℕ) (now : W → ℕ × W) (check : W → Option Text × W)
    (fetch : ProviderFetchRequest → ℕ → W → Fetched × W) (cooldown : Option ℤ → W → W)
    (holds_lock : W → Bool) (decode_continuation : Text → Option Text) (loaded : LoadedTarget)
    (dispatch : TargetDispatch) (run_id : ℕ) (run_mode : CollectionRunMode) where
  abbrev most : ℕ
  most = loaded.target.max_requests_per_run

  abbrev pages : ℕ
  pages = loaded.target.max_pages_per_run

  -- Its tables keep the budget.
  abbrev Kept : Turn × Tables × W → Type 0
  Kept r = Within most pages run_id r.1.runs

  -- A request was reserved for the page that is running.
  abbrev Room : Tables → Type 0
  Room tables = Reserved loaded.target run_id (reserved 0 tables)

  Room-Within : (tables : Tables) → Room tables → Within most pages run_id tables.runs
  Room-Within tables (run, at, r, p) = (run, at, r, omega arith)

  abbrev Persisted : Bool → FetchResult → Option CollectionCursor → ℕ → Tables → Result Tables
  Persisted final result cursor t tables =
      persist_result loads fromisoformat loaded.target.id dispatch.config_revision run_id cursor
        result run_mode true final t fresh tables

  committed-Within :
      (final : Bool) (result : FetchResult) (cursor : Option CollectionCursor) (t : ℕ)
      (tables : Tables) {after : Tables}
      → Persisted final result cursor t tables ≡ ok after
      → Room tables
      → Within most pages run_id after.runs
  committed-Within final result cursor t tables {after} e (run0, at0, r, p) =
      let (target, run, target', run', found, at, found', at', current, hashes, paged, ended) =
        persist_result-commits loads fromisoformat loaded.target.id dispatch.config_revision run_id
          cursor result run_mode true final t fresh tables {after = after} e in
      let same : some run0 ≡ some run = sym at0 ∙ at in
      let one : run0 ≡ run = cc in
      (run', at', ground (arith, paged.0, paged.1), ground (arith, paged.0))

  persisted-Kept :
      (final : Bool) (result : FetchResult) (cursor : Option CollectionCursor)
      (request : ProviderFetchRequest) (t : ℕ) (tables : Tables) (w : W) (r : Result Tables)
      → Persisted final result cursor t tables ≡ r
      → Room tables
      → Kept (
          persisted loads fromisoformat fresh now check fetch cooldown holds_lock
            decode_continuation loaded dispatch run_id run_mode final result request r tables w)
  unfolding page
  persisted-Kept final result cursor request t tables w (err code) e room = Room-Within tables room
  persisted-Kept true result cursor request t tables w (ok after) e room =
      committed-Within true result cursor t tables {after = after} e room
  persisted-Kept false result cursor request t tables w (ok after) e room =
      committed-Within false result cursor t tables {after = after} e room

  persists-Kept :
      (last : Bool) (result : FetchResult) (cursor : Option CollectionCursor)
      (request : ProviderFetchRequest) (raised : Option Text) (tables : Tables) (w : W)
      → Room tables
      → Kept (
          persists loads fromisoformat fresh now check fetch cooldown holds_lock decode_continuation
            loaded dispatch run_id run_mode last result cursor request raised tables w)
  unfolding page
  persists-Kept last result cursor request (some code) tables w room = Room-Within tables room
  persists-Kept last result cursor request none tables w room =
      persisted-Kept (is_final last result) result cursor request (now w).0 tables (now w).1 _ refl
        room

  accepts-Kept :
      (last : Bool) (cursor : Option CollectionCursor) (request : ProviderFetchRequest)
      (answer : ProviderAnswer) (tables : Tables) (w : W)
      → Room tables
      → Kept (
          accepts loads fromisoformat fresh now check fetch cooldown holds_lock decode_continuation
            loaded dispatch run_id run_mode last cursor request answer tables w)
  unfolding page
  accepts-Kept last cursor request answer tables w room =
      elim (Bool-cases (
        not (answer.contract_version == loaded.target.provider_contract_version)
        || not (text_eq answer.provider loaded.access_method))) [
          | inl e ↦ rw e (Room-Within tables room)
          | inr e ↦ elim (Bool-cases (not (holds_lock w))) [
            | inl f ↦ rw (e, f) (Room-Within tables room)
            | inr f ↦ elim (Bool-cases (repeats_continuation answer.result request)) [
              | inl g ↦ rw (e, f, g) (Room-Within tables room)
              | inr g ↦
                  rw (e, f, g) (persists-Kept last answer.result cursor request _ tables w room)
            ]
          ]
        ]

  fails_with-Kept :
      (code : Text) (retryable : Bool) (retry_after : Option ℤ) (tables : Tables) (w : W)
      → Room tables
      → Kept (
          fails_with loads fromisoformat fresh now check fetch cooldown holds_lock
            decode_continuation loaded dispatch run_id run_mode code retryable retry_after tables w)
  unfolding page
  fails_with-Kept code retryable retry_after tables w room =
      finish_error-Within most pages run_id loaded.target.id dispatch.config_revision code retryable
        retry_after (now w).0 tables (Room-Within tables room)

  receives-Kept :
      (last : Bool) (cursor : Option CollectionCursor) (request : ProviderFetchRequest)
      (fetched : Fetched) (tables : Tables) (w : W)
      → Room tables
      → Kept (
          receives loads fromisoformat fresh now check fetch cooldown holds_lock decode_continuation
            loaded dispatch run_id run_mode last cursor request fetched tables w)
  unfolding page
  receives-Kept last cursor request lost tables w room =
      finish_lock_lost-Within most pages run_id loaded.target.id dispatch.config_revision (now w).0
        tables (Room-Within tables room)
  receives-Kept last cursor request timed_out tables w room = fails_with-Kept _ _ _ tables w room
  receives-Kept last cursor request (answered answer) tables w room =
      answers-Kept answer.safe_errors
    where
      answers-Kept :
          (errors : List SafeError)
          → Kept (
              answers loads fromisoformat fresh now check fetch cooldown holds_lock
                decode_continuation loaded dispatch run_id run_mode last cursor request answer
                errors tables w)
      answers-Kept [] = accepts-Kept last cursor request answer tables w room
      answers-Kept (error ∷ errors) = fails_with-Kept _ _ _ tables _ room

  -- A deadline that is passed fails the run; else the adapter is called.
  requests-Kept :
      (last : Bool) (cursor : Option CollectionCursor) (request : ProviderFetchRequest)
      (r : Reserve) (tables : Tables) (w : W)
      → Within most pages run_id tables.runs
      → Reserved loaded.target run_id r
      → Kept (
          requests loads fromisoformat fresh now check fetch cooldown holds_lock decode_continuation
            loaded dispatch run_id run_mode last cursor request r tables w)
  unfolding page
  requests-Kept last cursor request missing tables w kept room = kept
  requests-Kept last cursor request (spent after) tables w kept room = room
  requests-Kept last cursor request (reserved run_deadline after) tables w kept room =
      elim (Bool-cases (leb (min request.deadline_at run_deadline) (now w).0)) [
        | inl e ↦ rw e (fails_with-Kept _ _ _ after (now w).1 room)
        | inr e ↦ rw e (receives-Kept last cursor request _ after _ room)
      ]

  checked-Kept :
      (last : Bool) (cursor : Option CollectionCursor) (request : ProviderFetchRequest)
      (raised : Option Text) (tables : Tables) (w : W)
      → Within most pages run_id tables.runs
      → Kept (
          checked loads fromisoformat fresh now check fetch cooldown holds_lock decode_continuation
            loaded dispatch run_id run_mode last cursor request raised tables w)
  unfolding page
  checked-Kept last cursor request (some code) tables w kept = kept
  checked-Kept last cursor request none tables w kept =
      requests-Kept last cursor request _ tables (now w).1 kept
        (reserve-Reserved loaded.target run_id dispatch.target_id (now w).0 tables kept)

  -- What a turn leaves, if the pages that are left keep the budget.
  after_turn-Within :
      (again : Option CollectionCursor
        → ProviderFetchRequest
        → Tables
        → W
        → Result TargetRunOutcome × Tables × W)
      → ((c : Option CollectionCursor) (q : ProviderFetchRequest) (t : Tables) (u : W)
          → Within most pages run_id t.runs
          → Within most pages run_id (again c q t u).1.runs)
      → (r : Turn × Tables × W) → Kept r
      → Within most pages run_id
          (after_turn loads fromisoformat fresh now check fetch cooldown holds_lock
            decode_continuation loaded dispatch run_id run_mode again r.0 r.1 r.2).1.runs
  unfolding pages_from
  after_turn-Within again keeps (stops result, after, u) kept = kept
  after_turn-Within again keeps (goes c q, after, u) kept = keeps c q after u kept

  pages_from-Within :
      (n : ℕ) (cursor : Option CollectionCursor) (request : ProviderFetchRequest) (tables : Tables)
      (w : W)
      → Within most pages run_id tables.runs
      → Within most pages run_id
          (pages_from loads fromisoformat fresh now check fetch cooldown holds_lock
            decode_continuation loaded dispatch run_id run_mode n cursor request tables w).1.runs
  unfolding pages_from page
  pages_from-Within zero cursor request tables w kept = kept
  pages_from-Within (suc n) cursor request tables w kept =
      after_turn-Within
        (pages_from loads fromisoformat fresh now check fetch cooldown holds_lock
          decode_continuation loaded dispatch run_id run_mode n)
        (λ c q t u. pages_from-Within n c q t u)
        (page loads fromisoformat fresh now check fetch cooldown holds_lock decode_continuation
          loaded dispatch run_id run_mode (n == 0) cursor request tables w)
        (checked-Kept (n == 0) cursor request (check w).0 tables (check w).1 kept)

  -- Whatever the adapter answers, and whatever fails on the way, `_execute_pages` leaves the run in the
  -- table, with no more requests and no more pages counted than the budget of its target allows, if that
  -- was so before. (A run that is tried again goes on from its counts.)
  pub execute_pages-within_budget :
      (cursor : Option CollectionCursor) (request : ProviderFetchRequest) (tables : Tables) (w : W)
      (run : CollectionRun)
      → find run_key run_id tables.runs ≡ some run
      → run.request_count ≤ loaded.target.max_requests_per_run
      → run.page_count ≤ loaded.target.max_pages_per_run
      → (run' : CollectionRun) × (find run_key run_id
            (execute_pages loads fromisoformat fresh now check fetch cooldown holds_lock
              decode_continuation loaded dispatch run_id run_mode cursor request tables w).1.runs
          ≡ some run')
        × (run'.request_count ≤ loaded.target.max_requests_per_run)
        × (run'.page_count ≤ loaded.target.max_pages_per_run)
  unfolding execute_pages
  execute_pages-within_budget cursor request tables w run at r p =
      pages_from-Within _ cursor request tables w (run, at, r, p)
