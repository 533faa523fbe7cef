-- ===== src/Base/Keys.antt =====
-- Tables whose keys are pairwise different, and what an append or a write does to the keys.
use Prim.Native.Nat.{ℕ}
use mathlib.Core.Path.{◌≡◌, refl}
use mathlib.Core.Bool.{Bool, true, false, ◌||◌}
use mathlib.Core.Logic.{inl, inr}
use mathlib.Core.Option.{some}
use mathlib.Core.List.{List, [], ◌∷◌, ◌++◌}
use native.Mathlib.Omega.{arith}
use news_collect.Base.Tests.{◌==◌, Bool-cases, eq→==, ==→eq}
use news_collect.Base.Lists.{All, contains, keep}
use news_collect.Base.Order.{keys}
use news_collect.Base.Rows.{find, modify}

abbrev pub Unique : List ℕ → Type 0
Unique [] = Unit
Unique (k ∷ ks) = (contains k ks ≡ false) × Unique ks

contains-append :
    (j : ℕ) (ks : List ℕ) (k : ℕ) → contains j (ks ++ k ∷ []) ≡ (contains j ks || k == j)
contains-append j [] k = ground arith
contains-append j (i ∷ ks) k = ground (arith, contains-append j ks k)

pub Unique-append :
    (ks : List ℕ) (k : ℕ) → Unique ks → contains k ks ≡ false → Unique (ks ++ k ∷ [])
Unique-append [] k u h = ground arith
Unique-append (j ∷ ks) k u h =
    (ground (arith, contains-append j ks k), Unique-append ks k u.1 (ground arith))

module _ {ℓ} {A : Type ℓ} where
  pub All-both {κ ν} :
      (P : A → Type κ) (Q : A → Type ν) (xs : List A)
      → All P xs
      → All Q xs
      → All (λ x. P x × Q x) xs
  All-both P Q [] p q = tt
  All-both P Q (x ∷ xs) p q = ((p.0, q.0), All-both P Q xs p.1 q.1)

  pub All-map {κ ν} :
      (P : A → Type κ) (Q : A → Type ν)
      → ((x : A) → P x → Q x)
      → (xs : List A) → All P xs
      → All Q xs
  All-map P Q f [] p = tt
  All-map P Q f (x ∷ xs) p = (f x p.0, All-map P Q f xs p.1)

module _ {ℓ} {A : Type ℓ} (key : A → ℕ) where
  pub keys-append : (xs ys : List A) → keys key (xs ++ ys) ≡ keys key xs ++ keys key ys
  keys-append [] ys = refl
  keys-append (x ∷ xs) ys = ground (arith, keys-append xs ys)

  pub keys-modify :
      (k : ℕ) (f : A → A)
      → ((x : A) → key (f x) ≡ key x)
      → (xs : List A) → keys key (modify key k f xs) ≡ keys key xs
  keys-modify k f same [] = refl
  keys-modify k f same (x ∷ xs) = ground (arith, same x, keys-modify k f same xs)

  pub find-append :
      (k : ℕ) (xs ys : List A) {a : A} → find key k xs ≡ some a → find key k (xs ++ ys) ≡ some a
  find-append k [] ys {a} h = cc
  find-append k (x ∷ xs) ys {a} h = ground (arith, find-append k xs ys {a = a})

  All-other :
      (k : ℕ) (xs : List A) → contains k (keys key xs) ≡ false → All (λ x. (k == key x) ≡ false) xs
  All-other k [] h = tt
  All-other k (x ∷ xs) h = (ground arith, All-other k xs (ground arith))

  -- In a table of unique keys each row is the one that its key finds.
  pub All-find : (xs : List A) → Unique (keys key xs) → All (λ x. find key (key x) xs ≡ some x) xs
  All-find [] u = tt
  All-find (x ∷ xs) u = (
    rw (eq→== (key x) (key x) refl),
    All-map _ _ (λ y h. rw h.0 h.1) xs
        (All-both _ _ xs (All-other (key x) xs u.0) (All-find xs u.1)),
  )

  -- A key among those of a list has a row of that key there.
  pub All-contains {κ} :
      (P : A → Type κ) (k : ℕ) (xs : List A)
      → All P xs
      → contains k (keys key xs) ≡ true
      → (x : A) × (key x ≡ k) × P x
  All-contains P k [] p h = cc
  All-contains P k (x ∷ xs) p h = elim (Bool-cases (key x == k)) [
    | inl e ↦ (x, ground arith, p.0)
    | inr e ↦ All-contains P k xs p.1 (ground arith)
  ]

  contains-keep :
      (p : A → Bool) (j : ℕ) (xs : List A)
      → contains j (keys key xs) ≡ false
      → contains j (keys key (keep p xs)) ≡ false
  contains-keep p j [] h = refl
  contains-keep p j (x ∷ xs) h = ground (arith, contains-keep p j xs)

  pub Unique-keep :
      (p : A → Bool) (xs : List A) → Unique (keys key xs) → Unique (keys key (keep p xs))
  Unique-keep p [] u = tt
  Unique-keep p (x ∷ xs) u = elim (Bool-cases (p x)) [
    | inl e ↦ rw e (contains-keep p (key x) xs u.0, Unique-keep p xs u.1)
    | inr e ↦ rw e (Unique-keep p xs u.1)
  ]

  -- The row of a key is kept exactly if it passes the test.
  pub find-keep :
      (p : A → Bool) (j : ℕ) (xs : List A) {a : A}
      → find key j xs ≡ some a
      → p a ≡ true
      → find key j (keep p xs) ≡ some a
  find-keep p j [] {a} h t = cc
  find-keep p j (x ∷ xs) {a} h t = ground (arith, find-keep p j xs {a = a})

  pub contains-keep_not :
      (p : A → Bool) (j : ℕ) (xs : List A) {a : A}
      → Unique (keys key xs)
      → find key j xs ≡ some a
      → p a ≡ false
      → contains j (keys key (keep p xs)) ≡ false
  contains-keep_not p j [] {a} u h t = cc
  contains-keep_not p j (x ∷ xs) {a} u h t = elim (Bool-cases (key x == j)) [
    | inl e ↦ ground (arith, contains-keep p j xs, ==→eq (key x) j e)
    | inr e ↦ ground (arith, contains-keep_not p j xs {a = a} u.1)
  ]
