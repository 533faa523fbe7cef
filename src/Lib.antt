-- ===== src/Lib.antt =====
-- Verification library of the market-intelligence collector (src/market_intelligence).
--
-- The program collects news and data from four providers into PostgreSQL rows, validates what it
-- stored, and sends notifications to Telegram. Its parts meet in the database and in Redis: the
-- control plane and the legacy runner write runs, targets and cursors under a lock in Redis; the
-- projection worker and the notification services claim rows of a table, work on them outside of
-- any transaction, and write the result back.
--
-- How a part is modelled. A table is the list of its rows with a primary key (Base/Rows), a UUID is
-- the number that orders it, an instant is a number of microseconds, and a nullable column is an
-- Option. A transaction is a function on the tables; one that raises returns an error and no tables.
-- `FOR UPDATE SKIP LOCKED` is a test of which rows another session has locked. The clock, Redis, the
-- transport, a provider's adapter, the random source, JSON and date readers and printers are
-- parameters; where they have an effect they are functions on a state `W` of the outside world.
-- Exceptions are values that carry their text. Subtraction stops at 0, which the instants of the
-- program never reach.
--
-- Files and what they model (paths below src/market_intelligence):
--   Base: names of the libraries, Boolean tests, lists, tables, keys, the order of texts.
--   Db/Models: db/models.py, the enumerations and the columns that are used.
--   Collection/Errors, Retry, Cursors, Locking: collection/errors.py, retry.py, cursors.py, locking.py.
--   Collection/ControlPlane: collection/control_plane.py. The file itself has the ends of a run
--     (`_finish_error`, `_finish_lock_lost`, `_mark_credential_missing`), Start has `_start_run` and
--     `recover_stale_target_runs`, Persist has `_persist_result`, Pages has `_execute_pages`.
--   Collection/Runner: collection/runner.py, the transactions of a legacy run in the file itself and
--     `CollectionRunner.run` in Run.
--   Collection/Targets: collection/target_repository.py (`due_page`, `load_for_execution`) and the
--     registry of collection/target_configs.py. Collection/Dispatch: `TargetScheduler` of
--     collection/control_plane.py.
--     Collection/Revisions: `revise` and `pause_for_continuation_abandon` of the repository, its checks
--     in Checks and the transactions in Revise.
--   Events: event_intelligence/matching.py in Matching (signatures and URLs in Matching/Signatures),
--     scoring.py in Scoring, and service.py in Store (tables and queries), Aggregates (`_refresh_candidate`,
--     `_recalculate_aggregates`) and Service (`process`, `deactivate_association`, `regroup_association`).
--     Service/Sound says what the tables keep, Service/Assignments what the calls promise; Service/Calls,
--     Takes, Refines, Once, Succeeds and Removal have the proofs.
--   Providers/Windows: providers/windows.py, `validate_window` in the file and `resolve_window` in Resolve,
--     over the JSON values of Base/Json.
--     Providers/Continuation: providers/continuation.py, `decode_continuation` and `encode_continuation`
--     in Decode.
--   Feed: feed/provider_feed.py, `by_content_ids`.
--   Notifications/Delivery: notifications/delivery.py. Notifications/Life: the transactions of that
--     service and of scheduler/multi_provider.py in any order, as a step relation.
--   Scheduler/Formatter, Reliable, Cycle: scheduler/multi_provider.py, its formatter, its two
--     notification services and its cycle over the providers.
--   SafeProjection/Worker: safe_projection/worker.py.
--
-- Loops run over the list that the program loops over, or over the number of rounds that it states
-- (`range(pages)`), so none takes fuel, except
-- the loop over the batches of a legacy run (Collection/Runner/Run), whose fuel is enough when it is
-- the bound `max_batches` or more, and the loop over the pages of due targets (Collection/Dispatch),
-- whose fuel is its own budget of rows and one turn more.
--
-- Not modelled: the rows that `persist_fetch_result` writes (its counts come in with the result), the
-- JSON of the providers and the contracts of their payloads, the writing of evidence, the HTTP
-- and Celery wiring, migrations and scripts; the passing of time in Redis (a key that expires is missing
-- from the store of a later step), and exceptions that no handler of the program catches, but for those of
-- the dispatcher in Scheduler/Cycle.
pub mod Base
pub mod Collection
pub mod Db
pub mod Events
pub mod Feed
pub mod Notifications
pub mod Providers
pub mod SafeProjection
pub mod Scheduler
