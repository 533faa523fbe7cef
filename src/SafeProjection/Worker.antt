-- ===== src/SafeProjection/Worker.antt =====
-- src/market_intelligence/safe_projection/worker.py: `SafeFactProjectionWorker`. A payload is kept as its
-- canonical text. The contract of a payload and its hash are those of safe_projection/contracts.py, which
-- the worker calls: parameters here.
pub mod Hashes
pub mod Batch
use news_collect.Base.{
  ℕ, suc, ◌+◌, ◌-◌, Option, none, some, List, [], ◌∷◌, Bool, true, false, not, ◌&&◌, ◌||◌, ltb, leb,
  ◌==◌, if◌then◌else◌, take, keep, length,
}
use news_collect.Base.Order.{Text, codes, text_eq, sort_by, keys}
use news_collect.Base.Rows.{find, modify}
use news_collect.Base.Result.{Result, ok, err}
use news_collect.Db.Models.{
  SafeFactProjection, SafeProjectionQualityStatus, SafeProjectionProcessingStatus, pending,
  validating, ready, retry,
}

abbrev pub id_of : SafeFactProjection → ℕ
id_of row = row.id

abbrev pub is_validating : SafeProjectionProcessingStatus → Bool
is_validating validating = true
is_validating _ = false

abbrev pub is_waiting : SafeProjectionProcessingStatus → Bool
is_waiting pending = true
is_waiting retry = true
is_waiting _ = false

abbrev pub at_most : Option ℕ → ℕ → Bool
at_most none now = true
at_most (some t) now = leb t now

abbrev pub blocked_quality : SafeProjectionQualityStatus
blocked_quality = SafeProjectionQualityStatus.blocked

abbrev pub blocked_processing : SafeProjectionProcessingStatus
blocked_processing = SafeProjectionProcessingStatus.blocked

by_update : SafeFactProjection → SafeFactProjection → Bool
by_update a b = ltb a.updated_at b.updated_at || a.updated_at == b.updated_at && leb a.id b.id

by_creation : SafeFactProjection → SafeFactProjection → Bool
by_creation a b = ltb a.created_at b.created_at || a.created_at == b.created_at && leb a.id b.id

unfoldable pub recovered_row : ℕ → ℕ → SafeFactProjection → SafeFactProjection
recovered_row max_attempts now row =
    if leb max_attempts row.attempt_count
    then record row {
      processing_status = blocked_processing;
      quality_status = blocked_quality;
      safe_error_code = some (codes "projection_retry_exhausted");
      processed_at = some now;
      next_retry_at = none;
      updated_at = now;
    }
    else record row {
      processing_status = retry;
      safe_error_code = some (codes "projection_validation_stale");
      next_retry_at = some now;
      updated_at = now;
    }

unfoldable pub claimed_row : ℕ → SafeFactProjection → SafeFactProjection
claimed_row now row = record row {
  processing_status = validating;
  attempt_count = row.attempt_count + 1;
  updated_at = now;
  safe_error_code = none;
  next_retry_at = none;
}

-- The change of every row of a list of ids.
unfoldable pub update_each :
    (SafeFactProjection → SafeFactProjection)
    → List ℕ
    → List SafeFactProjection
    → List SafeFactProjection
update_each change [] table = table
update_each change (k ∷ ks) table = update_each change ks (modify id_of k change table)

-- The `WHERE`s; rows that another session has locked are skipped.
unfoldable pub is_stale : (ℕ → Bool) → ℕ → SafeFactProjection → Bool
is_stale locked cutoff row =
    is_validating row.processing_status && ltb row.updated_at cutoff && not (locked row.id)

unfoldable pub is_claimable : (ℕ → Bool) → ℕ → SafeFactProjection → Bool
is_claimable locked now row =
    is_waiting row.processing_status && at_most row.next_retry_at now && not (locked row.id)

unfoldable pub stale_ids : (ℕ → Bool) → ℕ → ℕ → List SafeFactProjection → List ℕ
unfolding is_stale by_update sort_by
stale_ids locked cutoff limit table =
    keys id_of (take limit (sort_by by_update (keep (is_stale locked cutoff) table)))

unfoldable pub claimed_ids : (ℕ → Bool) → ℕ → ℕ → List SafeFactProjection → List ℕ
unfolding is_claimable by_creation sort_by
claimed_ids locked now limit table =
    keys id_of (take limit (sort_by by_creation (keep (is_claimable locked now) table)))

unfoldable pub recover_stale :
    (ℕ → Bool) → ℕ → ℕ → ℕ → ℕ → List SafeFactProjection → ℕ × List SafeFactProjection
unfolding stale_ids recovered_row update_each
recover_stale locked max_attempts stale_after now limit table =
    let ids = stale_ids locked (now - stale_after) limit table in
    (length ids, update_each (recovered_row max_attempts now) ids table)

unfoldable pub claim :
    (ℕ → Bool) → ℕ → ℕ → List SafeFactProjection → List ℕ × List SafeFactProjection
unfolding claimed_ids claimed_row update_each
claim locked limit now table =
    let ids = claimed_ids locked now limit table in (ids, update_each (claimed_row now) ids table)

pub record ProjectionValidationReport : Type 0 where
  pub claimed : ℕ
  pub ready : ℕ
  pub blocked : ℕ
  pub recovered : ℕ

module _ (normalize : SafeFactProjection → Result (Text × SafeProjectionQualityStatus))
    (hash : Text → Text) where
  refused_row : Text → ℕ → SafeFactProjection → SafeFactProjection
  refused_row code now row = record row {
    processing_status = blocked_processing;
    quality_status = blocked_quality;
    safe_error_code = some code;
    processed_at = some now;
    updated_at = now;
  }

  ready_row : Text → SafeProjectionQualityStatus → ℕ → SafeFactProjection → SafeFactProjection
  ready_row payload quality now row = record row {
    factual_payload = payload;
    quality_status = quality;
    processing_status = ready;
    safe_error_code = none;
    processed_at = some now;
    updated_at = now;
  }

  verdict :
      Result (Text × SafeProjectionQualityStatus)
      → ℕ
      → SafeFactProjection
      → Bool × SafeFactProjection
  unfolding refused_row ready_row
  verdict (err code) now row = (false, refused_row code now row)
  verdict (ok (payload, quality)) now row =
      if text_eq (hash payload) row.projection_hash
      then (true, ready_row payload quality now row)
      else (false, refused_row (codes "projection_hash_mismatch") now row)

  validate_row :
      Option SafeFactProjection → ℕ → List SafeFactProjection → Bool × List SafeFactProjection
  unfolding verdict
  validate_row none now table = (false, table)
  validate_row (some row) now table =
      if not (is_validating row.processing_status)
      then (false, table)
      else (let (valid, row') = verdict (normalize row) now row in
          (valid, modify id_of row.id (λ old. row') table))

  unfoldable pub validate_one : ℕ → ℕ → List SafeFactProjection → Bool × List SafeFactProjection
  unfolding validate_row
  validate_one k now table = validate_row (find id_of k table) now table

  -- The loop over the claimed ids: how many are ready, how many are not.
  unfoldable pub validate_each :
      List ℕ → ℕ → ℕ → ℕ → List SafeFactProjection → (ℕ × ℕ) × List SafeFactProjection
  unfolding validate_one
  validate_each [] now good bad table = ((good, bad), table)
  validate_each (k ∷ ks) now good bad table =
      let (valid, table') = validate_one k now table in
      validate_each ks now (if valid then suc good else good) (if valid then bad else suc bad)
        table'

  -- The three transactions of a batch, with a limit that is valid.
  unfoldable pub batch :
      (ℕ → Bool)
      → ℕ
      → ℕ
      → ℕ
      → ℕ
      → List SafeFactProjection
      → ProjectionValidationReport × List SafeFactProjection
  batch locked max_attempts stale_after limit now table =
      let (recovered, table') = recover_stale locked max_attempts stale_after now limit table in
      let (ids, table'') = claim locked limit now table' in
      let (counts, last) = validate_each ids now 0 0 table'' in
      (
        record {
          claimed = length ids;
          ready = counts.0;
          blocked = counts.1;
          recovered = recovered;
        },
        last,
      )

  unfoldable pub process_batch :
      (ℕ → Bool)
      → ℕ
      → ℕ
      → ℕ
      → ℕ
      → List SafeFactProjection
      → Result (ProjectionValidationReport × List SafeFactProjection)
  process_batch locked max_attempts stale_after limit now table =
      if not (leb 1 limit && leb limit 500)
      then err (codes "projection_worker_limit_invalid")
      else ok (batch locked max_attempts stale_after limit now table)
