-- ===== src/SafeProjection/Worker/Batch.antt =====
-- The counts of a batch, and what becomes of the rows that it claims.
use news_collect.Base.{
  ℕ, suc, ◌+◌, ◌-◌, ◌≤◌, ◌≡◌, refl, sym, ◌∙◌, Option, none, some, List, [], ◌∷◌, Bool, true, false,
  not, arith, Bool-cases, inl, inr, ◌⊎◌, length, length-take, contains, ◌==◌, ==→eq,
}
use news_collect.Base.Order.{Text, text_eq, keys}
use news_collect.Base.Rows.{find, modify, find-key}
use news_collect.Base.Result.{Result, ok, err}
use news_collect.Db.Models.{SafeFactProjection, SafeProjectionQualityStatus}
use news_collect.SafeProjection.Worker.{
  id_of, is_validating, recover_stale, claim, verdict, validate_row, validate_one, validate_each,
  batch, process_batch, ProjectionValidationReport, stale_ids, claimed_ids,
}

length-keys : (xs : List SafeFactProjection) → length (keys id_of xs) ≡ length xs
length-keys [] = refl
length-keys (x ∷ xs) = omega (arith, length-keys xs)

length-stale_ids :
    (locked : ℕ → Bool) (cutoff limit : ℕ) (table : List SafeFactProjection)
    → length (stale_ids locked cutoff limit table) ≤ limit
unfolding stale_ids
length-stale_ids locked cutoff limit table = rw length-keys (length-take limit _)

length-claimed_ids :
    (locked : ℕ → Bool) (now limit : ℕ) (table : List SafeFactProjection)
    → length (claimed_ids locked now limit table) ≤ limit
unfolding claimed_ids
length-claimed_ids locked now limit table = rw length-keys (length-take limit _)

-- No row, or one that is not being validated.
abbrev pub settled : Option SafeFactProjection → Bool
settled none = true
settled (some row) = not (is_validating row.processing_status)

put-settled :
    (row : SafeFactProjection) (k : ℕ)
    → row.id ≡ k
    → not (is_validating row.processing_status) ≡ true
    → (j : ℕ) (table : List SafeFactProjection) → settled (find id_of j table) ≡ true
    → settled (find id_of j (modify id_of k (λ old. row) table)) ≡ true
put-settled row k same done j [] h = refl
put-settled row k same done j (x ∷ xs) h = ground (arith, put-settled row k same done j xs)

put-settled_own :
    (row : SafeFactProjection) (k : ℕ)
    → row.id ≡ k
    → not (is_validating row.processing_status) ≡ true
    → (j : ℕ) (table : List SafeFactProjection) → j ≡ k
    → settled (find id_of j (modify id_of k (λ old. row) table)) ≡ true
put-settled_own row k same done j [] e = refl
put-settled_own row k same done j (x ∷ xs) e =
    ground (arith, put-settled_own row k same done j xs e)

module _ (normalize : SafeFactProjection → Result (Text × SafeProjectionQualityStatus))
    (hash : Text → Text) where
  validate_each-counts :
      (ks : List ℕ) (now good bad : ℕ) (table : List SafeFactProjection)
      → let counts = (validate_each normalize hash ks now good bad table).0 in
        counts.0 + counts.1 ≡ good + bad + length ks
  unfolding validate_each
  validate_each-counts [] now good bad table = omega arith
  validate_each-counts (k ∷ ks) now good bad table =
      elim (Bool-cases (validate_one normalize hash k now table).0) [
        | inl e ↦
            rw (validate_each, e) (omega (arith, validate_each-counts ks now (suc good) bad _))
        | inr e ↦
            rw (validate_each, e) (omega (arith, validate_each-counts ks now good (suc bad) _))
      ]

  verdict-settled :
      (r : Result (Text × SafeProjectionQualityStatus)) (now : ℕ) (row : SafeFactProjection)
      → (not (is_validating (verdict normalize hash r now row).1.processing_status) ≡ true)
        × ((verdict normalize hash r now row).1.id ≡ row.id)
  unfolding validate_one
  verdict-settled (err code) now row = (refl, refl)
  verdict-settled (ok (payload, quality)) now row =
      elim (Bool-cases (text_eq (hash payload) row.projection_hash)) [
        | inl e ↦ rw e (refl, refl)
        | inr e ↦ rw e (refl, refl)
      ]

  -- A validation settles its own row, and no settled row is unsettled by another's.
  validate_row-settled :
      (k : ℕ) (o : Option SafeFactProjection) (now j : ℕ) (table : List SafeFactProjection)
      → find id_of k table ≡ o
      → (settled (find id_of j table) ≡ true) ⊎ (j ≡ k)
      → settled (find id_of j (validate_row normalize hash o now table).1) ≡ true
  unfolding validate_one
  validate_row-settled k none now j table at (inl h) = h
  validate_row-settled k none now j table at (inr e) = rw (e, at) refl
  validate_row-settled k (some row) now j table at h =
      elim (Bool-cases (not (is_validating row.processing_status))) [
        | inl e ↦ rw e (elim h [ inl was ↦ was | inr own ↦ rw (own, at) e ])
        | inr e ↦
            let (done, same) = verdict-settled (normalize row) now row in
            let row' = (verdict normalize hash (normalize row) now row).1 in
            let id = find-key id_of k table {a = row} at in
            rw e (elim h [
              | inl was ↦ put-settled row' row.id same done j table was
              | inr own ↦ put-settled_own row' row.id same done j table (own ∙ sym id)
            ])
      ]

  -- The loop leaves every claimed row settled, and every row that was settled before.
  validate_each-settled :
      (ks : List ℕ) (now good bad j : ℕ) (table : List SafeFactProjection)
      → (settled (find id_of j table) ≡ true) ⊎ (contains j ks ≡ true)
      → settled (find id_of j (validate_each normalize hash ks now good bad table).1) ≡ true
  unfolding validate_each
  validate_each-settled [] now good bad j table (inl h) = h
  validate_each-settled [] now good bad j table (inr h) = cc
  validate_each-settled (k ∷ ks) now good bad j table h =
      validate_each-settled ks now _ _ j _ (elim (Bool-cases (k == j)) [
        | inl e ↦
            inl (
              validate_row-settled k (find id_of k table) now j table refl
                (inr (sym (==→eq k j e))))
        | inr e ↦ elim h [
          | inl was ↦ inl (validate_row-settled k (find id_of k table) now j table refl (inl was))
          | inr mine ↦ inr (ground arith)
        ]
      ])

  batch-counts :
      (locked : ℕ → Bool) (max_attempts stale_after limit now : ℕ) (table : List SafeFactProjection)
      → let report = (batch normalize hash locked max_attempts stale_after limit now table).0 in
        (report.ready + report.blocked ≡ report.claimed)
        × (report.claimed ≤ limit)
        × (report.recovered ≤ limit)
  unfolding batch recover_stale claim
  batch-counts locked max_attempts stale_after limit now table =
      let first = (recover_stale locked max_attempts stale_after now limit table).1 in
      let ids = claimed_ids locked now limit first in
      (
        omega (arith, validate_each-counts ids now 0 0 (claim locked limit now first).1),
        length-claimed_ids locked now limit first,
        length-stale_ids locked (now - stale_after) limit table,
      )

  -- The ids that a batch claims.
  abbrev pub claims_of : (ℕ → Bool) → ℕ → ℕ → ℕ → ℕ → List SafeFactProjection → List ℕ
  claims_of locked max_attempts stale_after limit now table =
      (claim locked limit now (recover_stale locked max_attempts stale_after now limit table).1).0

  -- A batch whose limit is from 1 to 500 returns a report. Its READY and its BLOCKED rows add up to the
  -- claimed ones; those and the recovered ones are at most `limit` each; and no row that it claimed is
  -- left VALIDATING, whatever the contract says of it.
  pub process_batch-settles :
      (locked : ℕ → Bool) (max_attempts stale_after limit now j : ℕ)
      (table : List SafeFactProjection)
      → 1 ≤ limit
      → limit ≤ 500
      → (report : ProjectionValidationReport) × (after : List SafeFactProjection) × (process_batch
            normalize hash locked max_attempts stale_after limit now table
          ≡ ok (report, after))
        × (report.ready + report.blocked ≡ report.claimed)
        × (report.claimed ≤ limit)
        × (report.recovered ≤ limit)
        × ((contains j (claims_of locked max_attempts stale_after limit now table) ≡ false)
            ⊎ ((contains j (claims_of locked max_attempts stale_after limit now table) ≡ true)
                × (settled (find id_of j after) ≡ true)))
  unfolding process_batch batch
  process_batch-settles locked max_attempts stale_after limit now j table low high =
      let (report, after) = batch normalize hash locked max_attempts stale_after limit now table in
      let (sum, some_claimed, some_recovered) =
        batch-counts locked max_attempts stale_after limit now table in
      (
        report,
        after,
        ground arith,
        sum,
        some_claimed,
        some_recovered,
        elim (Bool-cases (contains j (claims_of locked max_attempts stale_after limit now table))) [
          | inl mine ↦ inr (mine, validate_each-settled _ now 0 0 j _ (inr mine))
          | inr other ↦ inl other
        ],
      )
