-- ===== src/Collection/Tests/Runner.antt =====
-- A run of a legacy target: two batches from an adapter that always has more.
use mathlib.Core.Option
use news_collect.Base.{
  ℕ, ◌≡◌, refl, Option, none, some, List, [], ◌∷◌, ◌++◌, true, false, arith, length,
}
use news_collect.Base.Order.{Text, codes, text_eq}
use news_collect.Base.Rows.{find}
use news_collect.Db.Models.{
  Source, SourceAccount, CollectionCursor, CollectionRunStatus, authorized, verified, succeeded,
}
use news_collect.Collection.ControlPlane.{run_key}
use news_collect.Collection.ControlPlane.Persist.{first, moved}
use news_collect.Collection.Tests.Lock.{server}
use news_collect.Collection.Tests.Samples.{started}
use news_collect.Collection.Runner.{
  Target, CursorSnapshot, RawItemEnvelope, FetchBatch, Store, done, write_checkpoint, load_cursor,
  validate_target, checkpoint_error, create_run, finish_success,
}
use news_collect.Collection.Runner.Advance.{advanced, mine, checkpoint-advances}
use news_collect.Collection.Runner.Run.{
  fetched, Runner, Outside, run, batches, Ended, supports_access_method, locked_run, attempt_run,
  one_batch,
}
use news_collect.Collection.Locking.{acquire, release, target_lock_key}
use news_collect.Collection.Runner.Run.Settles.{SettledRun, run-settles}

abbrev pub source : Source
source = record {
  id = 10;
  access_method = codes "fake";
  authorization_status = authorized;
  enabled = true;
  schedule_seconds = none;
  last_success_at = none;
  consecutive_failures = 2;
}

abbrev pub account : SourceAccount
account = record { id = 20; source_id = 10; identity_status = verified; enabled = true }

abbrev target : Target
target = record { source_id = 10; source_account_id = some 20; access_method = codes "fake" }

abbrev store : Store
store = record {
  sources = source ∷ [];
  accounts = account ∷ [];
  runs = started ∷ [];
  cursors = [];
  raw_items = [];
}

abbrev item : RawItemEnvelope
item = record {
  external_id = none;
  fetched_at = 0;
  http_status = none;
  content_type = none;
  payload_location = none;
  payload_hash = none;
  retention_class = codes "short";
}

abbrev batch : Text → FetchBatch
batch next = record {
  items = item ∷ item ∷ [];
  next_cursor = some next;
  last_published_at = some 5;
  has_more = true;
}

-- Each batch goes one letter on.
abbrev onward : Option Text → Text
onward none = codes "a"
onward (some cursor) = cursor ++ codes "a"

abbrev outside : Outside
outside = record {
  World = List (Text × Text);
  redis = server;
  read = λ w. w;
  write = λ s w. s;
  token = λ w. (codes "t", w);
  now = λ w. (7, w);
  uniform = λ w. ((λ low up. up), w);
  database = λ w. (none, w);
  fetch = λ request limit w. (fetched (batch (onward request.cursor.cursor_value)), w);
  is_lost = λ w. false;
  sub = λ text. text;
  id_text = λ k. k ∷ [];
  fresh = λ rows. 9;
}

abbrev runner : Runner
runner = record {
  lock_ttl_seconds = 180;
  task_deadline_seconds = 120;
  adapter_timeout_seconds = 30;
  batch_limit = 100;
  retry_policy = record { max_retries = 3; base_delay = 5; max_delay = 300; max_retry_after = 900 };
  max_batches = some 2;
  fake_supported = true;
  provider_configured = false;
  provider_supported = λ method. false;
  cursor_type = some (codes "id");
  is_cursor_successor = λ current candidate. true;
}

abbrev after : Ended × Store × List (Text × Text)
after = run outside runner target 2 0 none store []

run-settles_example : SettledRun outside runner target none 0 store after.0 after.1
run-settles_example =
    run-settles outside runner target 0 2 2 refl (omega arith) (omega arith) none store []
      (refl, refl)

-- The run has two batches of two items, and its lock is free.
run_test :
    (Option.map {B = ℕ × CollectionRunStatus}
        (λ row. (row.fetched_count, row.status))
        (find run_key 9 after.1.runs)
      ≡ some (4, succeeded))
    × (length after.1.raw_items ≡ 4)
    × (after.2 ≡ [])
unfolding run batches text_eq validate_target supports_access_method acquire locked_run attempt_run
    one_batch checkpoint_error load_cursor create_run write_checkpoint moved finish_success release
    target_lock_key
run_test = (refl, refl, refl)

abbrev snapshot : CursorSnapshot
snapshot = record { cursor_type = some (codes "id"); cursor_value = none; last_published_at = none }

abbrev no_text : Text → Text
no_text text = text

abbrev seven : Store → ℕ
seven rows = 7

abbrev checkpointed : Store
checkpointed = elim (write_checkpoint no_text seven target 2 snapshot (batch (codes "b")) store) [
  | done rows ↦ rows
  | _ ↦ store
]

checkpointed_test :
    write_checkpoint no_text seven target 2 snapshot (batch (codes "b")) store ≡ done checkpointed
unfolding write_checkpoint
checkpointed_test = refl

checkpoint-advances_example :
    (load_cursor target (some (codes "id")) checkpointed
      ≡ advanced no_text seven 20 (codes "id") (codes "b") snapshot (batch (codes "b")))
    × ((cursor : CollectionCursor)
        → first
            (mine no_text seven 20 (codes "id") (codes "b") snapshot (batch (codes "b")))
            store.cursors
          ≡ some cursor
        → moved cursor.cursor_value snapshot.cursor_value ≡ false)
checkpoint-advances_example =
    checkpoint-advances no_text seven 20 (codes "id") (codes "b") snapshot (batch (codes "b"))
      target 2 refl refl refl store checkpointed checkpointed_test
