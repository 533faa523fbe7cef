-- ===== src/Base/Result.antt =====
-- A call that may raise an exception of the program: its value, or the message it carries.
use mathlib.Core.Path.{◌≡◌, refl}
use news_collect.Base.Order.{Text}

pub data Result {ℓ} (A : Type ℓ) : Type ℓ where
  ok : A → Result A
  err : Text → Result A

infixl 5 ◌>>=◌
abbrev pub ◌>>=◌ {ℓ κ} : {A : Type ℓ} {B : Type κ} → Result A → (A → Result B) → Result B
ok a >>= f = f a
err e >>= f = err e

-- A chain that ends well had a first call that ended well.
pub bind-ok {ℓ κ} :
    {A : Type ℓ} {B : Type κ} (r : Result A) (f : A → Result B) {b : B}
    → (r >>= f) ≡ ok b
    → (a : A) × (r ≡ ok a) × (f a ≡ ok b)
bind-ok (ok a) f h = (a, refl, h)
bind-ok (err e) f h = cc

-- What holds of the value of a call that ends well.
abbrev pub Ensures {ℓ κ} : {A : Type ℓ} → (A → Type κ) → Result A → Type κ
Ensures P (ok a) = P a
Ensures P (err e) = Unit

pub bind-Ensures {ℓ κ ν μ} :
    {A : Type ℓ} {B : Type κ} (P : A → Type ν) (Q : B → Type μ) (r : Result A) (f : A → Result B)
    → Ensures P r
    → ((a : A) → P a → Ensures Q (f a))
    → Ensures Q (r >>= f)
bind-Ensures P Q (ok a) f h step = step a h
bind-Ensures P Q (err e) f h step = tt

-- The same, of a call of which nothing is needed.
pub next-Ensures {ℓ κ μ} :
    {A : Type ℓ} {B : Type κ} (Q : B → Type μ) (r : Result A) (f : A → Result B)
    → ((a : A) → Ensures Q (f a))
    → Ensures Q (r >>= f)
next-Ensures Q (ok a) f step = step a
next-Ensures Q (err e) f step = tt
