-- ===== src/SafeProjection/Worker/Hashes.antt =====
-- A projection is READY only with a payload of its own hash.
use news_collect.Base.{
  ℕ, ◌-◌, ◌≡◌, refl, ◌⊎◌, Option, none, some, List, [], ◌∷◌, Bool, true, false, not, leb, All,
  arith, Bool-cases, inl, inr,
}
use news_collect.Base.Order.{Text, text_eq}
use news_collect.Base.Rows.{find, modify, All-modify}
use news_collect.Base.Result.{Result, ok, err}
use news_collect.Db.Models.{
  SafeFactProjection, SafeProjectionQualityStatus, SafeProjectionProcessingStatus, ready,
}
use news_collect.SafeProjection.Worker.{
  id_of, is_validating, recovered_row, claimed_row, update_each, recover_stale, claim, verdict,
  validate_row, validate_one, validate_each, batch, process_batch, ProjectionValidationReport,
  stale_ids, claimed_ids,
}

abbrev pub is_ready : SafeProjectionProcessingStatus → Bool
is_ready ready = true
is_ready _ = false

module _ (normalize : SafeFactProjection → Result (Text × SafeProjectionQualityStatus))
    (hash : Text → Text) where
  -- A row that is READY has the hash of its payload.
  abbrev pub IsHashed : SafeFactProjection → Type 0
  IsHashed row =
      (not (is_ready row.processing_status) ≡ true)
      ⊎ (text_eq (hash row.factual_payload) row.projection_hash ≡ true)

  update_each-IsHashed :
      (change : SafeFactProjection → SafeFactProjection)
      → ((row : SafeFactProjection) → IsHashed row → IsHashed (change row))
      → (ks : List ℕ) (table : List SafeFactProjection) → All IsHashed table
      → All IsHashed (update_each change ks table)
  unfolding update_each
  update_each-IsHashed change step [] table h = h
  update_each-IsHashed change step (k ∷ ks) table h =
      update_each-IsHashed change step ks (modify id_of k change table)
        (All-modify id_of IsHashed k change step table h)

  recovered_row-IsHashed :
      (most now : ℕ) (row : SafeFactProjection)
      → IsHashed row
      → IsHashed (recovered_row most now row)
  unfolding recovered_row
  recovered_row-IsHashed most now row h = elim (Bool-cases (leb most row.attempt_count)) [
    | inl e ↦ rw e (inl refl)
    | inr e ↦ rw e (inl refl)
  ]

  verdict-IsHashed :
      (r : Result (Text × SafeProjectionQualityStatus)) (now : ℕ) (row : SafeFactProjection)
      → IsHashed (verdict normalize hash r now row).1
  unfolding validate_one
  verdict-IsHashed (err code) now row = inl refl
  verdict-IsHashed (ok (payload, quality)) now row =
      elim (Bool-cases (text_eq (hash payload) row.projection_hash)) [
        | inl e ↦ rw e (inr e)
        | inr e ↦ rw e (inl refl)
      ]

  validate_row-IsHashed :
      (o : Option SafeFactProjection) (now : ℕ) (table : List SafeFactProjection)
      → All IsHashed table
      → All IsHashed (validate_row normalize hash o now table).1
  unfolding validate_one
  validate_row-IsHashed none now table h = h
  validate_row-IsHashed (some row) now table h =
      elim (Bool-cases (not (is_validating row.processing_status))) [
        | inl e ↦ rw e h
        | inr e ↦ rw e (
            All-modify id_of IsHashed row.id _ (λ x k. verdict-IsHashed (normalize row) now row)
              table h)
      ]

  validate_each-IsHashed :
      (ks : List ℕ) (now good bad : ℕ) (table : List SafeFactProjection)
      → All IsHashed table
      → All IsHashed (validate_each normalize hash ks now good bad table).1
  unfolding validate_each
  validate_each-IsHashed [] now good bad table h = h
  validate_each-IsHashed (k ∷ ks) now good bad table h =
      validate_each-IsHashed ks now _ _ _ (validate_row-IsHashed (find id_of k table) now table h)

  batch-IsHashed :
      (locked : ℕ → Bool) (max_attempts stale_after limit now : ℕ) (table : List SafeFactProjection)
      → All IsHashed table
      → All IsHashed (batch normalize hash locked max_attempts stale_after limit now table).1
  unfolding batch recover_stale claim
  batch-IsHashed locked max_attempts stale_after limit now table h =
      let recovered =
        update_each-IsHashed (recovered_row max_attempts now)
          (recovered_row-IsHashed max_attempts now)
          (stale_ids locked (now - stale_after) limit table) table h in
      let first = (recover_stale locked max_attempts stale_after now limit table).1 in
      let ids = claimed_ids locked now limit first in
      let claims = update_each-IsHashed (claimed_row now) (λ row k. inl refl) ids first recovered in
      validate_each-IsHashed ids now 0 0 (claim locked limit now first).1 claims

  -- If every READY row of the table has the hash of its payload, then so has every READY row after a
  -- batch, whatever the contract's normalization gives.
  pub process_batch-IsHashed :
      (locked : ℕ → Bool) (max_attempts stale_after limit now : ℕ) (table : List SafeFactProjection)
      (report : ProjectionValidationReport) (after : List SafeFactProjection)
      → All IsHashed table
      → process_batch normalize hash locked max_attempts stale_after limit now table
        ≡ ok (report, after)
      → All IsHashed after
  unfolding process_batch
  process_batch-IsHashed locked max_attempts stale_after limit now table report after h e =
      let same : after ≡ (batch normalize hash locked max_attempts stale_after limit now table).1 =
        ground arith in
      rw same (batch-IsHashed locked max_attempts stale_after limit now table h)
