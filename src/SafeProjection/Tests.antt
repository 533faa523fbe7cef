-- ===== src/SafeProjection/Tests.antt =====
-- Runs of the validation worker on a small table.
use news_collect.Base.{
  contains, false, ◌⊎◌, ℕ, ◌+◌, ◌≡◌, ◌≤◌, refl, none, List, [], ◌∷◌, Bool, false, true, All, inl,
  arith,
}
use news_collect.Base.Order.{Text, codes, text_eq, insert_by}
use news_collect.Base.Rows.{find}
use news_collect.Base.Result.{Result, ok, err}
use news_collect.Db.Models.{SafeFactProjection, SafeProjectionQualityStatus, pending}
use news_collect.SafeProjection.Worker.{
  id_of, ProjectionValidationReport, process_batch, batch, validate_each, recover_stale, claim,
}
use news_collect.SafeProjection.Worker.Hashes.{IsHashed, process_batch-IsHashed}
use news_collect.SafeProjection.Worker.Batch.{claims_of, settled, process_batch-settles}

abbrev row : ℕ → Text → SafeFactProjection
row k payload = record {
  id = k;
  provider = codes "eia";
  operation_key = codes "electricity_retail_sales";
  projection_schema_version = 1;
  factual_payload = payload;
  projection_hash = codes "h";
  quality_status = SafeProjectionQualityStatus.partial;
  processing_status = pending;
  safe_error_code = none;
  attempt_count = 0;
  next_retry_at = none;
  processed_at = none;
  created_at = k;
  updated_at = k;
}

abbrev table : List SafeFactProjection
table = row 1 (codes "h") ∷ row 2 (codes "other") ∷ row 3 [] ∷ []

-- A contract that refuses an empty payload, and a hash that is the payload.
abbrev accept : Text → Result (Text × SafeProjectionQualityStatus)
accept [] = err (codes "projection_payload_invalid")
accept (c ∷ text) = ok (c ∷ text, SafeProjectionQualityStatus.complete)

abbrev normalize : SafeFactProjection → Result (Text × SafeProjectionQualityStatus)
normalize r = accept r.factual_payload

abbrev hash : Text → Text
hash text = text

abbrev unlocked : ℕ → Bool
unlocked k = false

abbrev done : ProjectionValidationReport × List SafeFactProjection
done = batch normalize hash unlocked 3 600000000 100 1000000000 table

process_batch_test :
    process_batch normalize hash unlocked 3 600000000 100 1000000000 table ≡ ok (done.0, done.1)
unfolding process_batch
process_batch_test = refl

report_test :
    (done.0.claimed ≡ 3) × (done.0.ready ≡ 1) × (done.0.blocked ≡ 2) × (done.0.recovered ≡ 0)
unfolding batch validate_each recover_stale claim text_eq insert_by
report_test = (refl, refl, refl, refl)

process_batch-settles_example :
    (report : ProjectionValidationReport) × (after : List SafeFactProjection) × (process_batch
        normalize hash unlocked 3 600000000 100 1000000000 table
      ≡ ok (report, after))
    × (report.ready + report.blocked ≡ report.claimed)
    × (report.claimed ≤ 100)
    × (report.recovered ≤ 100)
    × ((contains 2 (claims_of normalize hash unlocked 3 600000000 100 1000000000 table) ≡ false)
        ⊎ ((contains 2 (claims_of normalize hash unlocked 3 600000000 100 1000000000 table) ≡ true)
            × (settled (find id_of 2 after) ≡ true)))
unfolding recover_stale claim insert_by
process_batch-settles_example =
    process_batch-settles normalize hash unlocked 3 600000000 100 1000000000 2 table (omega arith)
      (omega arith)

process_batch-IsHashed_example : All (IsHashed normalize hash) done.1
process_batch-IsHashed_example =
    process_batch-IsHashed normalize hash unlocked 3 600000000 100 1000000000 table done.0 done.1
      (inl refl, (inl refl, (inl refl, tt))) process_batch_test
