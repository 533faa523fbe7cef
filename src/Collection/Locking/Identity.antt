-- ===== src/Collection/Locking/Identity.antt =====
-- Different targets have different locks.
use news_collect.Base.{ℕ, ◌≡◌, refl, sym, ap, ◌∙◌, Option, none, some, [], ◌∷◌, ◌++◌, length, arith}
use news_collect.Base.Order.{Text, codes}
use news_collect.Collection.Locking.{TargetIdentity, identity, target_lock_key}

-- How Python prints a UUID: 36 characters, and no two UUIDs alike.
pub record IsUuidText (id_text : ℕ → Text) : Type 0 where
  pub width : (k : ℕ) → length (id_text k) ≡ 36
  pub distinct : (j k : ℕ) → id_text j ≡ id_text k → j ≡ k

-- Two texts that begin with parts of one length are equal part by part.
append_split : (a b c d : Text) → length a ≡ length b → a ++ c ≡ b ++ d → (a ≡ b) × (c ≡ d)
append_split [] [] c d n h = (refl, h)
append_split [] (y ∷ b) c d n h = absurd (omega arith)
append_split (x ∷ a) [] c d n h = absurd (omega arith)
append_split (x ∷ a) (y ∷ b) c d n h = ground (arith, append_split a b c d)

module _ (id_text : ℕ → Text) (uuid : IsUuidText id_text) where
  identity_inj : (a b : Option ℕ) → identity id_text a ≡ identity id_text b → a ≡ b
  unfolding identity
  identity_inj none none h = refl
  identity_inj none (some b) h = absurd (omega (arith, ap length h, uuid.width b))
  identity_inj (some a) none h = absurd (omega (arith, ap length h, uuid.width a))
  identity_inj (some a) (some b) h = ap some (uuid.distinct a b h)

  -- Two targets that share a lock key are the same source and the same account.
  pub target_lock_key-injective :
      (s t : TargetIdentity)
      → target_lock_key id_text s ≡ target_lock_key id_text t
      → (s.source_id ≡ t.source_id) × (s.source_account_id ≡ t.source_account_id)
  unfolding target_lock_key
  target_lock_key-injective s t h =
      let parts = append_split (codes "collection:lock:") (codes "collection:lock:") _ _ refl h in
      let ends =
        append_split (id_text s.source_id) (id_text t.source_id) _ _
          (uuid.width s.source_id ∙ sym (uuid.width t.source_id)) parts.1 in
      (
        uuid.distinct s.source_id t.source_id ends.0,
        identity_inj s.source_account_id t.source_account_id
            (append_split (codes ":") (codes ":") _ _ refl ends.1).1,
      )
