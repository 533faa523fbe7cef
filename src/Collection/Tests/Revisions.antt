-- ===== src/Collection/Tests/Revisions.antt =====
-- Two revisions of one target, and its retirement.

use news_collect.Base.{ℕ, ◌≡◌, ◌≢◌, refl, none, some, [], ◌∷◌}
use news_collect.Base.Order.{codes, text_eq}
use news_collect.Base.Result.{Result, ok, err}
use news_collect.Db.Models.{CollectionTarget, retired}
use news_collect.Collection.Tests.Samples.{target}
use news_collect.Collection.Tests.Runner.{source, account}
use news_collect.Collection.Tests.Dispatch.{contract}
use news_collect.Collection.Revisions.{Values, Repository, transition}
use news_collect.Collection.Revisions.Revise.{revise, revised}
use news_collect.Collection.Revisions.Guards.{Revises, revise-Revises}
use news_collect.Collection.Revisions.Status.{
  revises, here, next, Later, retired_is_final, revise-once,
}

abbrev no_values : Values
no_values = record {
  operation_config = none;
  operation_config_version = none;
  provider_contract_version = none;
  status = none;
  cadence_seconds = none;
  batch_limit = none;
  max_requests_per_run = none;
  max_pages_per_run = none;
  max_response_bytes = none;
  request_timeout_seconds = none;
  max_runtime_seconds = none;
  cursor_strategy = none;
  cursor_version = none;
  collection_mode = none;
  backfill_policy = none;
  revision_policy = none;
  rate_limit_group = none;
  priority = none;
  others = [];
}

abbrev retiring : Values
retiring = record no_values { status = some (codes "retired") }

abbrev faster : Values
faster = record no_values { cadence_seconds = some 300 }

abbrev rows : Repository
rows = record {
  targets = target ∷ [];
  sources = source ∷ [];
  accounts = account ∷ [];
  runs = [];
  cursors = [];
  audits = [];
}

abbrev after : Result (ℕ × Repository) → Repository
after (ok (k, r)) = r
after (err e) = rows

abbrev faster_rows : Repository
faster_rows = after (revise (contract ∷ []) 1 4 faster 50 rows)

abbrev retired_rows : Repository
retired_rows = after (revise (contract ∷ []) 1 5 retiring 60 faster_rows)

abbrev retired_target : CollectionTarget
retired_target = record target { cadence_seconds = 300; config_revision = 6; status = retired }

faster_test : revise (contract ∷ []) 1 4 faster 50 rows ≡ ok (5, faster_rows)
unfolding revise text_eq
faster_test = refl

retired_test : revise (contract ∷ []) 1 5 retiring 60 faster_rows ≡ ok (6, retired_rows)
unfolding revise text_eq revised transition
retired_test = refl

revise-Revises_example : Revises 1 4 faster 50 rows 5 faster_rows
revise-Revises_example = revise-Revises (contract ∷ []) 1 4 faster 50 rows 5 faster_rows faster_test

revise-once_example : revise (contract ∷ []) 1 4 retiring 60 faster_rows ≢ ok (5, rows)
revise-once_example =
    revise-once (contract ∷ []) 1 4 faster retiring 50 60 rows faster_rows rows 5 5 faster_test

retired_is_final_example : Later 1 target retired_rows
retired_is_final_example = retired_is_final 1 target refl (
    next (next here (revises (contract ∷ []) 1 4 faster 50 5 faster_test))
      (revises (contract ∷ []) 1 5 retiring 60 6 retired_test))
