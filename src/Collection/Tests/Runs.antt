-- ===== src/Collection/Tests/Runs.antt =====
-- Runs of the transactions of a unified target: the begin of a run and its pages.
use mathlib.Core.Option
use news_collect.Base.{
  ℕ, ◌+◌, ◌≡◌, ◌≤◌, refl, Option, none, some, [], ◌∷◌, Bool, true, false, keep, arith,
}
use news_collect.Base.Int.{ℤ}
use news_collect.Base.Order.{Text, codes, keys, text_eq}
use news_collect.Base.Rows.{find}
use news_collect.Base.Result.{ok}
use news_collect.Db.Models.{
  CollectionTarget, CollectionRun, CollectionRunStatus, CollectionRunMode, normal, partial,
}
use news_collect.Collection.Tests.Samples.{target, started, tables}
use news_collect.Collection.Cursors.{Stamp, aware, decide_cursor}
use news_collect.Collection.ControlPlane.{Tables, target_key, run_key}
use news_collect.Collection.ControlPlane.Persist.{persist_result}
use news_collect.Collection.ControlPlane.Start.{start_run, runs_for, is_stale, dispatched}
use news_collect.Collection.ControlPlane.Start.Recovered.{
  abandoned, recovered, recover_stale_target_runs-exact,
}
use news_collect.Collection.ControlPlane.Start.Single.{start_run-single}
use news_collect.Collection.ControlPlane.Pages.{
  TargetDispatch, LoadedTarget, ProviderFetchRequest, Fetched, answered, execute_pages, pages_from,
  page,
}
use news_collect.Collection.ControlPlane.Pages.Bounded.{execute_pages-within_budget}

abbrev empty : Tables
empty = record { targets = target ∷ []; runs = []; cursors = []; rejected = [] }

abbrev fresh : Tables → ℕ
fresh rows = 5

abbrev begun : Tables
begun = elim (start_run 1 4 normal (codes "d") 9 fresh empty) [ ok r ↦ r.1 | _ ↦ empty ]

begun_test : start_run 1 4 normal (codes "d") 9 fresh empty ≡ ok ((5, none), begun)
unfolding start_run
begun_test = refl

start_run-single_example :
    (target' : CollectionTarget) × (find target_key 1 begun.targets ≡ some target')
    × (target'.config_revision ≡ 4)
    × (keys run_key (keep (runs_for 1 normal) begun.runs) ≡ 5 ∷ [])
    × (begun.targets ≡ empty.targets)
start_run-single_example =
    start_run-single 1 4 normal (codes "d") 9 fresh empty begun 5 none (omega arith) begun_test

abbrev loaded : LoadedTarget
loaded = record { target = target; access_method = codes "news" }

abbrev dispatch : TargetDispatch
dispatch = record {
  target_id = 1;
  config_revision = 4;
  scheduled_slot = 0;
  run_mode = codes "normal";
  dispatch_id = codes "d";
}

abbrev request : ProviderFetchRequest
request = record { cursor = none; continuation = none; deadline_at = 60000000 }

-- A provider that always has one page more.
abbrev endless : ProviderFetchRequest → ℕ → ℕ → Fetched × ℕ
endless asked timeout w = (
  answered (record {
    result = record {
      counts = record { fetched = 1; new = 1; duplicates = 0 };
      next_cursor = none;
      has_more = true;
      continuation = some (w ∷ []);
      rejected_row_hashes = [];
      coverage_incomplete = false;
    };
    safe_errors = [];
    contract_version = 1;
    provider = codes "news";
  }),
  w + 1,
)

abbrev no_json : Text → Option (Text × Text)
no_json text = some (text, text)

abbrev no_date : Text → Option Stamp
no_date text = some (aware 3)

abbrev clock : ℕ → ℕ × ℕ
clock w = (w, w + 1)

abbrev check : ℕ → Option Text × ℕ
check w = (none, w)

abbrev cooldown : Option ℤ → ℕ → ℕ
cooldown delay w = w

abbrev holds_lock : ℕ → Bool
holds_lock w = true

abbrev decode_continuation : Text → Option Text
decode_continuation text = none

abbrev after_pages : Tables
after_pages =
    (execute_pages no_json no_date fresh clock check endless cooldown holds_lock decode_continuation
      loaded dispatch 2 normal none request tables 1).1

execute_pages-within_budget_example :
    (run' : CollectionRun) × (find run_key 2 after_pages.runs ≡ some run')
    × (run'.request_count ≤ 2)
    × (run'.page_count ≤ 3)
execute_pages-within_budget_example =
    execute_pages-within_budget no_json no_date fresh clock check endless cooldown holds_lock
      decode_continuation loaded dispatch 2 normal none request tables 1 started refl (omega arith)
      (omega arith)

-- Both requests of the budget are spent, and the run ends.
pages_test :
    Option.map {B = ℕ × ℕ × CollectionRunStatus}
      (λ run. (run.request_count, run.page_count, run.status))
      (find run_key 2 after_pages.runs)
    ≡ some (2, 2, partial)
unfolding execute_pages pages_from page persist_result decide_cursor text_eq
pages_test = refl

abbrev nowhere : ℕ → CollectionRunMode → Bool
nowhere k mode = false

abbrev gone : Text → Bool
gone identity = false

abbrev unlocked : ℕ → Bool
unlocked k = false

recover_stale_target_runs-exact_example :
    ((recovered nowhere gone 900 30 unlocked 500 tables).0 ≡ 1)
    × (find run_key 2 (recovered nowhere gone 900 30 unlocked 500 tables).1.runs
        ≡ some (abandoned nowhere gone 900 30 unlocked 500 tables started))
unfolding is_stale dispatched
recover_stale_target_runs-exact_example =
    recover_stale_target_runs-exact nowhere gone 900 30 unlocked 500 tables 2 started (refl, tt)
      refl
