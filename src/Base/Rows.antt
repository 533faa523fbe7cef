-- ===== src/Base/Rows.antt =====
-- A table as the list of its rows, with a primary key.
use Prim.Native.Nat.{ℕ}
use mathlib.Core.Path.{◌≡◌, refl}
use mathlib.Core.Logic.{inl, inr}
use mathlib.Core.Option.{Option, none, some}
use mathlib.Core.List.{List, [], ◌∷◌, ◌++◌}
use mathlib.Core.Bool.{false}
use mathlib.Core.Option
use native.Mathlib.Omega.{arith}
use news_collect.Base.Tests.{◌==◌, if◌then◌else◌, Bool-cases}
use news_collect.Base.Lists.{length, All}

module _ {ℓ} {A : Type ℓ} (key : A → ℕ) where
  -- `session.get(Row, id)`
  abbrev pub find : ℕ → List A → Option A
  find k [] = none
  find k (x ∷ xs) = if key x == k then some x else find k xs

  -- The row of that key is written; the others stay.
  abbrev pub modify : ℕ → (A → A) → List A → List A
  modify k f [] = []
  modify k f (x ∷ xs) = (if key x == k then f x else x) ∷ modify k f xs

  pub find-modify :
      (k j : ℕ) (f : A → A)
      → ((x : A) → key (f x) ≡ key x)
      → (xs : List A)
      → find j (modify k f xs) ≡ (if k == j then Option.map f (find j xs) else find j xs)
  find-modify k j f keep [] = ground arith
  find-modify k j f keep (x ∷ xs) = ground (arith, keep x, find-modify k j f keep xs)

  pub length-modify : (k : ℕ) (f : A → A) (xs : List A) → length (modify k f xs) ≡ length xs
  length-modify k f [] = refl
  length-modify k f (x ∷ xs) = ground (arith, length-modify k f xs)

  pub All-modify {κ} :
      (P : A → Type κ) (k : ℕ) (f : A → A)
      → ((x : A) → P x → P (f x))
      → (xs : List A) → All P xs
      → All P (modify k f xs)
  All-modify P k f step [] h = h
  All-modify P k f step (x ∷ xs) h = elim (Bool-cases (key x == k)) [
    | inl e ↦ rw e (step x h.0, All-modify P k f step xs h.1)
    | inr e ↦ rw e (h.0, All-modify P k f step xs h.1)
  ]

  -- The row of a key is written over by a row of that key.
  pub find-put :
      (a : A) (j : ℕ) (xs : List A)
      → find j (modify (key a) (λ old. a) xs)
        ≡ (if key a == j then Option.map (λ old. a) (find j xs) else find j xs)
  find-put a j [] = ground arith
  find-put a j (x ∷ xs) = ground (arith, find-put a j xs)

  pub find-key : (k : ℕ) (xs : List A) {a : A} → find k xs ≡ some a → key a ≡ k
  find-key k [] {a} h = cc
  find-key k (x ∷ xs) {a} h = ground (arith, find-key k xs {a = a})

  pub find-put_self :
      (k : ℕ) (a b : A) (xs : List A)
      → find k xs ≡ some a
      → key b ≡ key a
      → find k (modify (key b) (λ old. b) xs) ≡ some b
  find-put_self k a b xs h e = ground (arith, find-put b k xs, find-key k xs {a = a} h)

  -- A row that is appended under a key of its own is found.
  pub find-append_new :
      (a : A) (xs : List A) → find (key a) xs ≡ none → find (key a) (xs ++ a ∷ []) ≡ some a
  find-append_new a [] h = ground arith
  find-append_new a (x ∷ xs) h = ground (arith, find-append_new a xs)

  pub find-modify_self :
      (k : ℕ) (f : A → A)
      → ((x : A) → key (f x) ≡ key x)
      → (xs : List A) {a : A} → find k xs ≡ some a
      → find k (modify k f xs) ≡ some (f a)
  find-modify_self k f same [] {a} h = cc
  find-modify_self k f same (x ∷ xs) {a} h =
      ground (arith, same x, find-modify_self k f same xs {a = a})

  pub find-modify_other :
      (k j : ℕ) (f : A → A)
      → ((x : A) → key (f x) ≡ key x)
      → (xs : List A) → (k == j) ≡ false
      → find j (modify k f xs) ≡ find j xs
  find-modify_other k j f same xs ne = ground (arith, find-modify k j f same xs)
