-- ===== src/Base/Order.antt =====
-- The order of texts as Python compares them (by code points), and the stable insertion sort that
-- stands for `ORDER BY` and `sorted`.
use Prim.Native.Nat.{ℕ, suc}
use Prim.Native.Char.{code}
use Prim.Native.String.{String}
use mathlib.Core.Path.{◌≡◌, refl}
use mathlib.Core.Logic.{inl, inr}
use mathlib.Core.Bool.{Bool, true, false}
use mathlib.Core.List.{List, [], ◌∷◌}
use native.Mathlib.Omega.{arith}
use news_collect.Base.Tests.{ltb, ◌==◌, if◌then◌else◌, Bool-cases}
use news_collect.Base.Lists.{length, All}

-- A text that the code looks into: its code points.
abbrev pub Text : Type 0
Text = List ℕ

abbrev pub codes : String → Text
codes String.[] = []
codes (String.◌∷◌ c s) = code c ∷ codes s

unfoldable pub text_eq : Text → Text → Bool
text_eq [] [] = true
text_eq [] (y ∷ ys) = false
text_eq (x ∷ xs) [] = false
text_eq (x ∷ xs) (y ∷ ys) = let rest = text_eq xs ys in if x == y then rest else false

unfoldable pub text_lt : Text → Text → Bool
text_lt [] [] = false
text_lt [] (y ∷ ys) = true
text_lt (x ∷ xs) [] = false
text_lt (x ∷ xs) (y ∷ ys) =
    let rest = text_lt xs ys in if ltb x y then true else if x == y then rest else false

pub text_eq_refl : (s : Text) → text_eq s s ≡ true
unfolding text_eq
text_eq_refl [] = refl
text_eq_refl (x ∷ s) = ground (arith, text_eq_refl s)

pub text_eq→eq : (s t : Text) → text_eq s t ≡ true → s ≡ t
unfolding text_eq
text_eq→eq [] [] h = refl
text_eq→eq [] (y ∷ t) h = cc
text_eq→eq (x ∷ s) [] h = cc
text_eq→eq (x ∷ s) (y ∷ t) h = ground (arith, text_eq→eq s t)

pub text_lt_irrefl : (s : Text) → text_lt s s ≡ false
unfolding text_lt
text_lt_irrefl [] = refl
text_lt_irrefl (x ∷ s) = ground (arith, text_lt_irrefl s)

pub text_lt_trans : (s t u : Text) → text_lt s t ≡ true → text_lt t u ≡ true → text_lt s u ≡ true
unfolding text_lt
text_lt_trans [] [] u h k = cc
text_lt_trans [] (y ∷ t) [] h k = cc
text_lt_trans [] (y ∷ t) (z ∷ u) h k = refl
text_lt_trans (x ∷ s) [] u h k = cc
text_lt_trans (x ∷ s) (y ∷ t) [] h k = cc
text_lt_trans (x ∷ s) (y ∷ t) (z ∷ u) h k = ground (arith, text_lt_trans s t u)

pub text_lt_total : (s t : Text) → text_lt s t ≡ false → text_lt t s ≡ false → text_eq s t ≡ true
unfolding text_lt text_eq
text_lt_total [] [] h k = refl
text_lt_total [] (y ∷ t) h k = cc
text_lt_total (x ∷ s) [] h k = cc
text_lt_total (x ∷ s) (y ∷ t) h k = ground (arith, text_lt_total s t)

pub text_not_lt_trans :
    (s t u : Text) → text_lt t u ≡ false → text_lt s t ≡ false → text_lt s u ≡ false
text_not_lt_trans s t u h k = ground (arith, text_lt_trans s u t, text_lt_total t u, text_eq→eq t u)

module _ {ℓ} {A : Type ℓ} (le : A → A → Bool) where
  unfoldable pub insert_by : A → List A → List A
  insert_by a [] = a ∷ []
  insert_by a (x ∷ xs) = let rest = insert_by a xs in if le a x then a ∷ x ∷ xs else x ∷ rest

  unfoldable pub sort_by : List A → List A
  sort_by [] = []
  sort_by (x ∷ xs) = insert_by x (sort_by xs)

  pub All-insert_by {κ} :
      (P : A → Type κ) (a : A) (xs : List A) → P a → All P xs → All P (insert_by a xs)
  unfolding insert_by
  All-insert_by P a [] h k = (h, tt)
  All-insert_by P a (x ∷ xs) h k = elim (Bool-cases (le a x)) [
    | inl e ↦ rw e (h, k)
    | inr e ↦ rw e (k.0, All-insert_by P a xs h k.1)
  ]

  pub All-sort_by {κ} : (P : A → Type κ) (xs : List A) → All P xs → All P (sort_by xs)
  unfolding sort_by
  All-sort_by P [] h = tt
  All-sort_by P (x ∷ xs) h = All-insert_by P x (sort_by xs) h.0 (All-sort_by P xs h.1)

  pub length-insert_by : (a : A) (xs : List A) → length (insert_by a xs) ≡ suc (length xs)
  unfolding insert_by
  length-insert_by a [] = refl
  length-insert_by a (x ∷ xs) = ground (arith, length-insert_by a xs)

  pub length-sort_by : (xs : List A) → length (sort_by xs) ≡ length xs
  unfolding sort_by
  length-sort_by [] = refl
  length-sort_by (x ∷ xs) = omega (arith, length-insert_by x (sort_by xs), length-sort_by xs)

module _ {ℓ} {A : Type ℓ} where
  abbrev pub keys : (A → ℕ) → List A → List ℕ
  keys key [] = []
  keys key (x ∷ xs) = key x ∷ keys key xs

-- `sorted(set(texts))`
unfoldable pub add_text : Text → List Text → List Text
add_text s [] = s ∷ []
add_text s (t ∷ ts) =
    let rest = add_text s ts in
    if text_eq s t then t ∷ ts else if text_lt s t then s ∷ t ∷ ts else t ∷ rest

unfoldable pub sorted_set : List Text → List Text
sorted_set [] = []
sorted_set (s ∷ ss) = add_text s (sorted_set ss)
