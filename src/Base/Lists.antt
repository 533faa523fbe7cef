-- ===== src/Base/Lists.antt =====
-- Lists over the native numbers, and the predicates and loops that several components use.
use Prim.Native.Nat.{ℕ, zero, suc, ◌≤◌}
use mathlib.Core.Path.{◌≡◌, refl, ap}
use mathlib.Core.Bool.{Bool, true, false, ◌&&◌, ◌||◌}
use mathlib.Core.List.{List, [], ◌∷◌, ◌++◌}
use native.Mathlib.Omega.{arith}
use mathlib.Core.Logic.{inl, inr}
use news_collect.Base.Tests.{if◌then◌else◌, ◌==◌, Bool-cases}

module _ {ℓ} {A : Type ℓ} where
  abbrev pub length : List A → ℕ
  length [] = 0
  length (x ∷ xs) = suc (length xs)

  abbrev pub take : ℕ → List A → List A
  take zero xs = []
  take (suc n) [] = []
  take (suc n) (x ∷ xs) = x ∷ take n xs

  abbrev pub keep : (A → Bool) → List A → List A
  keep p [] = []
  keep p (x ∷ xs) = let rest = keep p xs in if p x then x ∷ rest else rest

  abbrev pub any : (A → Bool) → List A → Bool
  any p [] = false
  any p (x ∷ xs) = p x || any p xs

  abbrev pub All {κ} : (A → Type κ) → List A → Type κ
  All P [] = Unit
  All P (x ∷ xs) = P x × All P xs

  pub length-take : (n : ℕ) (xs : List A) → length (take n xs) ≤ n
  length-take zero xs = omega arith
  length-take (suc n) [] = omega arith
  length-take (suc n) (x ∷ xs) = omega (arith, length-take n xs)

  pub All-take {κ} : (P : A → Type κ) (n : ℕ) (xs : List A) → All P xs → All P (take n xs)
  All-take P zero xs h = tt
  All-take P (suc n) [] h = tt
  All-take P (suc n) (x ∷ xs) h = (h.0, All-take P n xs h.1)

  pub All-keep {κ} :
      (P : A → Type κ) (p : A → Bool)
      → ((x : A) → p x ≡ true → P x)
      → (xs : List A) → All P (keep p xs)
  All-keep P p step [] = tt
  All-keep P p step (x ∷ xs) = elim (Bool-cases (p x)) [
    | inl e ↦ rw e (step x e, All-keep P p step xs)
    | inr e ↦ rw e (All-keep P p step xs)
  ]

  pub All-keep_of {κ} : (P : A → Type κ) (p : A → Bool) (xs : List A) → All P xs → All P (keep p xs)
  All-keep_of P p [] h = tt
  All-keep_of P p (x ∷ xs) h = elim (Bool-cases (p x)) [
    | inl e ↦ rw e (h.0, All-keep_of P p xs h.1)
    | inr e ↦ rw e (All-keep_of P p xs h.1)
  ]

  pub All-append {κ} :
      (P : A → Type κ) (xs : List A) (y : A) → All P xs → P y → All P (xs ++ y ∷ [])
  All-append P [] y h k = (k, tt)
  All-append P (x ∷ xs) y h k = (h.0, All-append P xs y h.1 k)

  pub length-append : (xs : List A) (y : A) → length (xs ++ y ∷ []) ≡ suc (length xs)
  length-append [] y = refl
  length-append (x ∷ xs) y = ground (arith, length-append xs y)

  pub keep-keep : (p q : A → Bool) (xs : List A) → keep q (keep p xs) ≡ keep (λ x. p x && q x) xs
  keep-keep p q [] = refl
  keep-keep p q (x ∷ xs) = elim (Bool-cases (p x)) [
    | inl e ↦ rw e (ap (λ rest. if q x then x ∷ rest else rest) (keep-keep p q xs))
    | inr e ↦ rw e (keep-keep p q xs)
  ]

abbrev pub contains : ℕ → List ℕ → Bool
contains k [] = false
contains k (x ∷ xs) = x == k || contains k xs
