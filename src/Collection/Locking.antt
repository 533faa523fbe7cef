-- ===== src/Collection/Locking.antt =====
-- collection/locking.py: the lock of a target, kept in Redis. The Redis server is a parameter: what it
-- documents of GET, SET NX, DEL and PEXPIRE is its interface; the scripts are the program's own.
pub mod Ownership
pub mod Identity
use news_collect.Base.{
  ℕ, ◌*◌, ◌≡◌, ◌≢◌, Option, none, some, List, [], ◌∷◌, ◌++◌, Bool, true, false, if◌then◌else◌,
}
use news_collect.Base.Order.{Text, codes, text_eq}

pub record Redis : Type 1 where
  pub Store : Type 0
  pub get : Text → Store → Option Text
  pub set_nx : Text → Text → ℕ → Store → Bool × Store
  pub del : Text → Store → Store
  pub pexpire : Text → ℕ → Store → Store
  -- SET NX writes a key that is not there, and no other.
  pub set_free :
      (k v : Text) (px : ℕ) (s : Store)
      → get k s ≡ none
      → ((set_nx k v px s).0 ≡ true) × (get k (set_nx k v px s).1 ≡ some v)
  pub set_taken :
      (k v w : Text) (px : ℕ) (s : Store) → get k s ≡ some w → set_nx k v px s ≡ (false, s)
  pub set_other : (k j v : Text) (px : ℕ) (s : Store) → k ≢ j → get j (set_nx k v px s).1 ≡ get j s
  -- DEL removes its key, and no other.
  pub del_self : (k : Text) (s : Store) → get k (del k s) ≡ none
  pub del_other : (k j : Text) (s : Store) → k ≢ j → get j (del k s) ≡ get j s
  -- PEXPIRE changes no value.
  pub pexpire_get : (k j : Text) (px : ℕ) (s : Store) → get j (pexpire k px s) ≡ get j s

-- The two fields of the dataclass `CollectionTarget` that name the lock.
pub record TargetIdentity : Type 0 where
  pub source_id : ℕ
  pub source_account_id : Option ℕ

module _ (id_text : ℕ → Text) where
  unfoldable pub identity : Option ℕ → Text
  identity none = codes "source"
  identity (some account) = id_text account

  unfoldable pub target_lock_key : TargetIdentity → Text
  unfolding identity
  target_lock_key target =
      codes "collection:lock:"
      ++ (id_text target.source_id ++ (codes ":" ++ identity target.source_account_id))

unfoldable pub retry_marker_key : Text → Text
retry_marker_key collection_run_id = codes "collection:retry:" ++ collection_run_id

pub record TargetLock : Type 0 where
  pub key : Text
  pub owner_token : Text
  pub ttl_seconds : ℕ

module _ (redis : Redis) where
  open redis use {Store, get, set_nx, del, pexpire}

  unfoldable pub acquire : TargetLock → Store → Bool × Store
  acquire lock s = set_nx lock.key lock.owner_token (lock.ttl_seconds * 1000) s

  -- `redis.call('get', KEYS[1]) == ARGV[1]`
  unfoldable pub owns : Text → Option Text → Bool
  owns token none = false
  owns token (some value) = text_eq value token

  unfoldable pub renew : TargetLock → Store → Bool × Store
  unfolding owns
  renew lock s =
      if owns lock.owner_token (get lock.key s)
      then (true, pexpire lock.key (lock.ttl_seconds * 1000) s)
      else (false, s)

  unfoldable pub release : TargetLock → Store → Bool × Store
  unfolding owns
  release lock s =
      if owns lock.owner_token (get lock.key s) then (true, del lock.key s) else (false, s)

  unfoldable pub exists : TargetLock → Store → Bool
  exists lock s = elim (get lock.key s) [ none ↦ false | some value ↦ true ]
