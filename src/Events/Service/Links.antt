-- ===== src/Events/Service/Links.antt =====
-- What the writes of the links do to the lists that are selected from them.
use news_collect.Base.{
  ℕ, ◌≤◌, ◌≡◌, refl, some, List, [], ◌∷◌, ◌++◌, Bool, true, false, arith, keep, length, All,
  Bool-cases, inl, inr, ◌==◌, ==→eq,
}
use news_collect.Base.Order.{keys, sort_by, length-sort_by}
use news_collect.Base.Rows.{find, modify}
use news_collect.Base.Keys.{Unique, All-find, All-map}
use news_collect.Events.Matching.Signatures.{is_empty}

module _ {ℓ} {A : Type ℓ} where
  pub keep-append_off :
      (p : A → Bool) (xs : List A) (y : A) → p y ≡ false → keep p (xs ++ y ∷ []) ≡ keep p xs
  keep-append_off p [] y h = rw h refl
  keep-append_off p (x ∷ xs) y h = rw (keep-append_off p xs y h) refl

  pub keep-append_one :
      (p : A → Bool) (xs : List A) (y : A) → keep p xs ≡ [] → length (keep p (xs ++ y ∷ [])) ≤ 1
  keep-append_one p [] y h = elim (Bool-cases (p y)) [
    | inl e ↦ rw e (omega arith)
    | inr e ↦ rw e (omega arith)
  ]
  keep-append_one p (x ∷ xs) y h = elim (Bool-cases (p x)) [
    | inl e ↦ ground (arith, e, h)
    | inr e ↦ rw e (keep-append_one p xs y (ground (arith, e, h)))
  ]

  pub sort_by-nil : (le : A → A → Bool) (xs : List A) → is_empty (sort_by le xs) ≡ true → xs ≡ []
  sort_by-nil le [] h = refl
  sort_by-nil le (x ∷ xs) h = absurd (apart (sort_by le (x ∷ xs)) (length-sort_by le (x ∷ xs)) h)
    where
      apart : (ys : List A) → length ys ≡ length (x ∷ xs) → is_empty ys ≡ true → ⊥
      apart [] h k = omega arith
      apart (y ∷ ys) h k = cc

module _ {ℓ} {A : Type ℓ} (key : A → ℕ) (k : ℕ) (f : A → A) where
  -- Rows that a write takes out of a selection do not add to it.
  pub keep-modify_le :
      (p : A → Bool)
      → ((x : A) → p (f x) ≡ false)
      → (xs : List A) → length (keep p (modify key k f xs)) ≤ length (keep p xs)
  keep-modify_le p off [] = omega arith
  keep-modify_le p off (x ∷ xs) = ground (arith, off x, keep-modify_le p off xs)

  -- A write to rows that a selection has neither before nor after it.
  pub keep-modify_off :
      (p : A → Bool)
      → ((x : A) → p (f x) ≡ false)
      → (xs : List A) → All (λ x. (key x == k) ≡ true → p x ≡ false) xs
      → keep p (modify key k f xs) ≡ keep p xs
  keep-modify_off p off [] h = refl
  keep-modify_off p off (x ∷ xs) h = elim (Bool-cases (key x == k)) [
    | inl e ↦ rw (e, off x, h.0 e) (keep-modify_off p off xs h.1)
    | inr e ↦ rw (e, keep-modify_off p off xs h.1) refl
  ]

module _ {ℓ} {A : Type ℓ} (key : A → ℕ) where
  -- In a table of unique keys, the rows of the key of a row are that row.
  pub All-same :
      (xs : List A) (a : A)
      → Unique (keys key xs)
      → find key (key a) xs ≡ some a
      → All (λ x. (key x == key a) ≡ true → x ≡ a) xs
  All-same xs a u found = All-map _ _ (λ x at e. same x at e) xs (All-find key xs u)
    where
      same : (x : A) → find key (key x) xs ≡ some x → (key x == key a) ≡ true → x ≡ a
      same x at e = ground (arith, ==→eq (key x) (key a) e)

module _ {ℓ} {A : Type ℓ} where
  pub keep-append_only :
      (p : A → Bool) (xs : List A) (y : A)
      → keep p xs ≡ []
      → p y ≡ true
      → keep p (xs ++ y ∷ []) ≡ y ∷ []
  keep-append_only p [] y h k = rw k refl
  keep-append_only p (x ∷ xs) y h k = elim (Bool-cases (p x)) [
    | inl e ↦ ground (arith, e, h)
    | inr e ↦ rw e (keep-append_only p xs y (ground (arith, e, h)) k)
  ]
