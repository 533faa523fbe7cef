-- ===== src/Collection/Tests/Lock.antt =====
-- The lock on a server that keeps its values in a list.
use mathlib.Core.Path.{ap}
use news_collect.Base.{
  ℕ, ◌≡◌, ◌≢◌, refl, Option, none, some, List, [], ◌∷◌, ◌++◌, Bool, true, false, if◌then◌else◌,
  arith, Bool-cases, inl, inr, is_some,
}
use news_collect.Base.Order.{Text, codes, text_eq, text_eq_refl, text_eq→eq}
use news_collect.Collection.Locking.{Redis, TargetIdentity, TargetLock, acquire, renew, release}
use news_collect.Collection.Locking.Ownership.{
  Attempts, here, next, acquires, releases, lock-exclusive,
}
use news_collect.Collection.Locking.Identity.{IsUuidText, target_lock_key-injective}

abbrev pub Store : Type 0
Store = List (Text × Text)

abbrev pub get : Text → Store → Option Text
get k [] = none
get k ((j, v) ∷ s) = if text_eq j k then some v else get k s

abbrev pub set_nx : Text → Text → ℕ → Store → Bool × Store
set_nx k v px s = if is_some (get k s) then (false, s) else (true, (k, v) ∷ s)

abbrev pub del : Text → Store → Store
del k [] = []
del k ((j, v) ∷ s) = let rest = del k s in if text_eq j k then rest else (j, v) ∷ rest

pub ne→text_eq : (s t : Text) → s ≢ t → text_eq s t ≡ false
ne→text_eq s t h = elim (Bool-cases (text_eq s t)) [
  | inl e ↦ absurd (h (text_eq→eq s t e))
  | inr e ↦ e
]

pub get-del : (k : Text) (s : Store) → get k (del k s) ≡ none
get-del k [] = refl
get-del k ((j, v) ∷ s) = ground (arith, get-del k s)

pub get-del_other : (k j : Text) (s : Store) → text_eq k j ≡ false → get j (del k s) ≡ get j s
get-del_other k j [] ne = refl
get-del_other k j ((i, v) ∷ s) ne = elim (Bool-cases (text_eq i k)) [
  | inl e ↦ ground (arith, get-del_other k j s ne, text_eq→eq i k e)
  | inr e ↦ ground (arith, get-del_other k j s ne)
]

pub set_free :
    (k v : Text) (px : ℕ) (s : Store)
    → get k s ≡ none
    → ((set_nx k v px s).0 ≡ true) × (get k (set_nx k v px s).1 ≡ some v)
set_free k v px s h = rw h (refl, rw (text_eq_refl k) refl)

pub set_taken :
    (k v w : Text) (px : ℕ) (s : Store) → get k s ≡ some w → set_nx k v px s ≡ (false, s)
set_taken k v w px s h = rw h refl

pub set_other : (k j v : Text) (px : ℕ) (s : Store) → k ≢ j → get j (set_nx k v px s).1 ≡ get j s
set_other k j v px s ne = ground (arith, ne→text_eq k j ne)

abbrev pub server : Redis
server = record {
  Store = Store;
  get = get;
  set_nx = set_nx;
  del = del;
  pexpire = λ k px s. s;
  set_free = set_free;
  set_taken = set_taken;
  set_other = set_other;
  del_self = get-del;
  del_other = λ k j s ne. get-del_other k j s (ne→text_eq k j ne);
  pexpire_get = λ k j px s. refl;
}

abbrev key : Text
key = codes "collection:lock:s"

abbrev mine : TargetLock
mine = record { key = key; owner_token = codes "a"; ttl_seconds = 60 }

abbrev other : TargetLock
other = record { key = key; owner_token = codes "b"; ttl_seconds = 60 }

abbrev held : Store
held = (key, codes "a") ∷ []

other_token : codes "b" ≢ codes "a"
other_token h = ground arith

abbrev later : Store
later = (release server other (acquire server other held).1).1

attempts : Attempts server mine held later
attempts = next (next here (acquires other other_token)) (releases other other_token)

lock-exclusive_example :
    (get key later ≡ some (codes "a"))
    × (acquire server other later ≡ (false, later))
    × (renew server other later ≡ (false, later))
    × (release server other later ≡ (false, later))
    × ((renew server mine later).0 ≡ true)
unfolding text_eq
lock-exclusive_example = lock-exclusive server mine other attempts refl refl other_token

abbrev zeros : ℕ → Text
zeros n = 0 ∷ 0 ∷ 0 ∷ 0 ∷ 0 ∷ []

-- A printer of 36 characters that keeps ids apart.
abbrev id_text : ℕ → Text
id_text k = k ∷ zeros k ++ zeros k ++ zeros k ++ zeros k ++ zeros k ++ zeros k ++ zeros k

abbrev head : Text → ℕ
head [] = 0
head (c ∷ text) = c

id_text-IsUuidText : IsUuidText id_text
id_text-IsUuidText = record { width = λ k. refl; distinct = λ j k h. ap head h }

abbrev account : TargetIdentity
account = record { source_id = 1; source_account_id = some 2 }

target_lock_key-injective_example :
    (account.source_id ≡ account.source_id)
    × (account.source_account_id ≡ account.source_account_id)
target_lock_key-injective_example =
    target_lock_key-injective id_text id_text-IsUuidText account account refl
