-- ===== src/Collection/Locking/Ownership.antt =====
-- A lock is held by one token at a time, and only its owner frees it.
use news_collect.Base.{
  ◌*◌, ◌≡◌, ◌≢◌, refl, sym, ap, ◌∙◌, some, Bool, true, false, arith, Bool-cases, inl, inr, ◌⊎◌,
}
use mathlib.Core.Bool.{true≢false}
use mathlib.Core.Path.{subst}
use news_collect.Base.Order.{Text, text_eq, text_eq_refl, text_eq→eq}
use news_collect.Collection.Locking.{Redis, TargetLock, acquire, renew, release, owns}

ne→text_eq : (s t : Text) → s ≢ t → text_eq s t ≡ false
ne→text_eq s t h = elim (Bool-cases (text_eq s t)) [
  | inl e ↦ absurd (h (text_eq→eq s t e))
  | inr e ↦ e
]

key_cases : (k j : Text) → (k ≡ j) ⊎ (k ≢ j)
key_cases k j = elim (Bool-cases (text_eq k j)) [
  | inl e ↦ inl (text_eq→eq k j e)
  | inr e ↦ inr (λ h. ground (arith, text_eq_refl k))
]

module _ (redis : Redis) where
  open redis use {
    Store, get, set_nx, del, pexpire, set_free, set_taken, set_other, del_self, del_other,
    pexpire_get,
  }

  -- What another token does to a lock: try to take it, renew it, or release it.
  pub data Attempt (mine : TargetLock) (s : Store) : Store → Type 0 where
    acquires :
        (other : TargetLock)
        → other.owner_token ≢ mine.owner_token
        → Attempt mine s (acquire redis other s).1
    renews :
        (other : TargetLock)
        → other.owner_token ≢ mine.owner_token
        → Attempt mine s (renew redis other s).1
    releases :
        (other : TargetLock)
        → other.owner_token ≢ mine.owner_token
        → Attempt mine s (release redis other s).1

  pub data Attempts (mine : TargetLock) (s : Store) : Store → Type 0 where
    here : Attempts mine s s
    next : {t u : Store} → Attempts mine s t → Attempt mine t u → Attempts mine s u

  abbrev pub Holds : TargetLock → Store → Type 0
  Holds mine s = (get mine.key s ≡ some mine.owner_token)

  acquire-taken :
      (mine other : TargetLock) (s : Store)
      → other.key ≡ mine.key
      → Holds mine s
      → acquire redis other s ≡ (false, s)
  unfolding acquire
  acquire-taken mine other s e h =
      set_taken other.key other.owner_token mine.owner_token (other.ttl_seconds * 1000) s
        (ap (λ k. get k s) e ∙ h)

  Attempt-acquire :
      (mine other : TargetLock) (s : Store) → Holds mine s → Holds mine (acquire redis other s).1
  unfolding acquire
  Attempt-acquire mine other s h = elim (key_cases other.key mine.key) [
    | inl e ↦
        ap (λ (p : Bool × Store). get mine.key p.1)
          (unfold acquire in acquire-taken mine other s e h)
        ∙ h
    | inr ne ↦ set_other other.key mine.key other.owner_token (other.ttl_seconds * 1000) s ne ∙ h
  ]

  renew_get :
      (mine other : TargetLock) (s : Store) → get mine.key (renew redis other s).1 ≡ get mine.key s
  unfolding renew
  renew_get mine other s = elim (Bool-cases (owns redis other.owner_token (get other.key s))) [
    | inl e ↦ rw e (pexpire_get other.key mine.key (other.ttl_seconds * 1000) s)
    | inr e ↦ rw e refl
  ]

  owns_other :
      (mine other : TargetLock) (s : Store)
      → other.owner_token ≢ mine.owner_token
      → other.key ≡ mine.key
      → Holds mine s
      → owns redis other.owner_token (get other.key s) ≡ false
  unfolding renew
  owns_other mine other s ne e h =
      rw (ap (λ k. get k s) e ∙ h) (ne→text_eq mine.owner_token other.owner_token (λ p. ne (sym p)))

  Attempt-release :
      (mine other : TargetLock) (s : Store)
      → other.owner_token ≢ mine.owner_token
      → Holds mine s
      → Holds mine (release redis other s).1
  unfolding release
  Attempt-release mine other s ne h =
      elim (Bool-cases (owns redis other.owner_token (get other.key s))) [
        | inr e ↦ rw e h
        | inl e ↦ elim (key_cases other.key mine.key) [
          | inl same ↦ absurd (true≢false (sym e ∙ owns_other mine other s ne same h))
          | inr differ ↦ rw e (del_other other.key mine.key s differ ∙ h)
        ]
      ]

  Attempt-Holds : (mine : TargetLock) {s t : Store} → Attempt mine s t → Holds mine s → Holds mine t
  Attempt-Holds mine {s} (acquires other ne) h = Attempt-acquire mine other s h
  Attempt-Holds mine {s} (renews other ne) h = renew_get mine other s ∙ h
  Attempt-Holds mine {s} (releases other ne) h = Attempt-release mine other s ne h

  Attempts-Holds :
      (mine : TargetLock) {s t : Store} → Attempts mine s t → Holds mine s → Holds mine t
  Attempts-Holds mine here h = h
  Attempts-Holds mine (next r a) h = Attempt-Holds mine a (Attempts-Holds mine r h)

  -- While a token holds its lock and no time runs out, whatever acquisitions, renewals and releases
  -- other tokens make, of this lock or of others, in any number and order, the token holds it still:
  -- it can renew it, and an acquisition, a renewal or a release by another token of the same key fails
  -- and changes nothing.
  pub lock-exclusive :
      (mine other : TargetLock) {s t : Store}
      → Attempts mine s t
      → get mine.key s ≡ some mine.owner_token
      → other.key ≡ mine.key
      → other.owner_token ≢ mine.owner_token
      → (get mine.key t ≡ some mine.owner_token)
        × (acquire redis other t ≡ (false, t))
        × (renew redis other t ≡ (false, t))
        × (release redis other t ≡ (false, t))
        × ((renew redis mine t).0 ≡ true)
  unfolding renew release
  lock-exclusive mine other {s} {t} r h e ne =
      let kept = Attempts-Holds mine r h in
      (
        kept,
        acquire-taken mine other t e kept,
        rw (owns_other mine other t ne e kept) refl,
        rw (owns_other mine other t ne e kept) refl,
        rw (ap (owns redis mine.owner_token) kept ∙ text_eq_refl mine.owner_token) refl,
      )

  released :
      (mine : TargetLock) (s : Store) → Holds mine s → release redis mine s ≡ (true, del mine.key s)
  unfolding release
  released mine s h = rw (ap (owns redis mine.owner_token) h ∙ text_eq_refl mine.owner_token) refl

  -- The owner's release frees the lock, and the next acquisition of it, by whatever token, succeeds.
  pub acquire-release :
      (mine other : TargetLock) (s : Store)
      → get mine.key s ≡ some mine.owner_token
      → other.key ≡ mine.key
      → ((release redis mine s).0 ≡ true)
        × ((acquire redis other (release redis mine s).1).0 ≡ true)
        × (get mine.key (acquire redis other (release redis mine s).1).1 ≡ some other.owner_token)
  unfolding acquire
  acquire-release mine other s h e =
      let t = del mine.key s in
      let free =
        set_free other.key other.owner_token (other.ttl_seconds * 1000) t
          (ap (λ k. get k t) e ∙ del_self mine.key s) in
      subst
        (λ (p : Bool × Store).
          (p.0 ≡ true)
          × ((acquire redis other p.1).0 ≡ true)
          × (get mine.key (acquire redis other p.1).1 ≡ some other.owner_token))
        (sym (released mine s h))
        (refl, free.0, ap (λ k. get k (acquire redis other t).1) (sym e) ∙ free.1)
