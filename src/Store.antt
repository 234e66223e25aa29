-- ===== src/Store.antt =====
-- src/KVStore.h: the interface of the key-value store, as its clients use it. LevelDB and RocksDB,
-- which implement it, are not part of the program; the laws are what their documentation promises
-- of single operations: a put or a remove that reports success took place, one that reports failure
-- did not, and no other key is touched.
pub mod Table
use kvfs_ra_testing.Base.{ℕ, ◌≡◌, ◌≢◌, Bool, true, false, Option, none, some, Bytes}

pub record KvStore : Type 1 where
  pub State : Type 0
  pub get : State → Bytes → Option Bytes
  pub put : State → Bytes → Bytes → Bool × State
  pub remove : State → Bytes → Bool × State
  pub get-put_self : (s : State) (k v : Bytes) → (put s k v).0 ≡ true → get (put s k v).1 k ≡ some v
  pub get-put_failed :
      (s : State) (k v : Bytes) → (put s k v).0 ≡ false → get (put s k v).1 k ≡ get s k
  pub get-put_ne : (s : State) (k j v : Bytes) → j ≢ k → get (put s k v).1 j ≡ get s j
  pub get-remove_self :
      (s : State) (k : Bytes) → (remove s k).0 ≡ true → get (remove s k).1 k ≡ none
  pub get-remove_failed :
      (s : State) (k : Bytes) → (remove s k).0 ≡ false → get (remove s k).1 k ≡ get s k
  pub get-remove_ne : (s : State) (k j : Bytes) → j ≢ k → get (remove s k).1 j ≡ get s j

-- Puts and removes, done or not, that lead from a store to another.
pub data Run (K : KvStore) (s : K.State) : K.State → Type 0 where
  run_nothing : Run K s s
  run_put : (t : K.State) (key value : Bytes) → Run K s t → Run K s (K.put t key value).1
  run_remove : (t : K.State) (key : Bytes) → Run K s t → Run K s (K.remove t key).1

pub run-trans : {K : KvStore} {s t u : K.State} → Run K s t → Run K t u → Run K s u
run-trans r run_nothing = r
run-trans r (run_put t key value q) = run_put t key value (run-trans r q)
run-trans r (run_remove t key q) = run_remove t key (run-trans r q)

-- A put was refused on the way from `s` to `u`: puts and removes lead from `s` to a store that refuses a
-- put, and from what that put leaves to `u`.
pub record Refused (K : KvStore) (s u : K.State) : Type 0 where
  pub store : K.State
  pub key : Bytes
  pub value : Bytes
  pub before : Run K s store
  pub refused : (K.put store key value).0 ≡ false
  pub after : Run K (K.put store key value).1 u

pub Refused-after : {K : KvStore} {s t u : K.State} → Run K s t → Refused K t u → Refused K s u
Refused-after r w = record {
  store = w.store;
  key = w.key;
  value = w.value;
  before = run-trans r w.before;
  refused = w.refused;
  after = w.after;
}

pub Refused-before : {K : KvStore} {s t u : K.State} → Refused K s t → Run K t u → Refused K s u
Refused-before w r = record {
  store = w.store;
  key = w.key;
  value = w.value;
  before = w.before;
  refused = w.refused;
  after = run-trans w.after r;
}

pub Refused-put :
    {K : KvStore} (s : K.State) (key value : Bytes)
    → (K.put s key value).0 ≡ false
    → Refused K s (K.put s key value).1
Refused-put s key value full = record {
  store = s;
  key = key;
  value = value;
  before = run_nothing;
  refused = full;
  after = run_nothing;
}
