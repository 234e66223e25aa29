-- ===== src/Store/Table.antt =====
-- A store in memory that meets the interface: a log of writes, newest first, on a device that takes
-- `room` more puts and then refuses them. The tests run the models on it.
use kvfs_ra_testing.Base.{
  ℕ, zero, suc, ◌≡◌, ◌≢◌, refl, Bool, true, false, Option, none, some, List, [], ◌∷◌, Bytes,
  bytes_eq, bytes_eq_refl, bytes_ne, if◌then◌else◌,
}
use kvfs_ra_testing.Store.{KvStore}

pub record Table : Type 0 where
  pub writes : List (Bytes × Option Bytes)
  pub room : ℕ

unfoldable pub newest : Bytes → List (Bytes × Option Bytes) → Option Bytes
newest k [] = none
newest k ((j, v) ∷ ws) = if bytes_eq k j then v else newest k ws

unfoldable pub table_get : Table → Bytes → Option Bytes
unfolding newest bytes_eq
table_get t k = newest k t.writes

unfoldable pub put_if : ℕ → Table → Bytes → Bytes → Bool × Table
put_if zero t k v = (false, t)
put_if (suc n) t k v = (true, record { writes = (k, some v) ∷ t.writes; room = n })

unfoldable pub table_put : Table → Bytes → Bytes → Bool × Table
unfolding put_if
table_put t k v = put_if t.room t k v

pub table_remove : Table → Bytes → Bool × Table
table_remove t k = (true, record t { writes = (k, none) ∷ t.writes })

pub newest_self :
    (k : Bytes) (v : Option Bytes) (ws : List (Bytes × Option Bytes)) → newest k ((k, v) ∷ ws) ≡ v
unfolding newest
newest_self k v ws = rw bytes_eq_refl

pub newest-ne :
    (k j : Bytes) (v : Option Bytes) (ws : List (Bytes × Option Bytes))
    → j ≢ k
    → newest j ((k, v) ∷ ws) ≡ newest j ws
unfolding newest
newest-ne k j v ws h = rw (bytes_ne j k h)

pub put_if_self :
    (n : ℕ) (t : Table) (k v : Bytes)
    → (put_if n t k v).0 ≡ true
    → newest k (put_if n t k v).1.writes ≡ some v
unfolding put_if
put_if_self zero t k v h = cc
put_if_self (suc n) t k v h = newest_self k (some v) t.writes

pub put_if-failed :
    (n : ℕ) (t : Table) (k v : Bytes) → (put_if n t k v).0 ≡ false → (put_if n t k v).1 ≡ t
unfolding put_if
put_if-failed zero t k v h = refl
put_if-failed (suc n) t k v h = cc

pub put_if-ne :
    (n : ℕ) (t : Table) (k j v : Bytes)
    → j ≢ k
    → newest j (put_if n t k v).1.writes ≡ newest j t.writes
unfolding put_if
put_if-ne zero t k j v h = refl
put_if-ne (suc n) t k j v h = newest-ne k j (some v) t.writes h

pub remove-never_fails :
    (t : Table) (k : Bytes)
    → (table_remove t k).0 ≡ false
    → table_get (table_remove t k).1 k ≡ table_get t k
unfolding table_remove
remove-never_fails t k h = cc

unfoldable pub table_store : KvStore
unfolding table_get table_put table_remove
table_store = record {
  State = Table;
  get = table_get;
  put = table_put;
  remove = table_remove;
  get-put_self = λ t k v h. put_if_self t.room t k v h;
  get-put_failed = λ t k v h. rw (put_if-failed t.room t k v h);
  get-put_ne = λ t k j v h. put_if-ne t.room t k j v h;
  get-remove_self = λ t k h. newest_self k none t.writes;
  get-remove_failed = remove-never_fails;
  get-remove_ne = λ t k j h. newest-ne k j none t.writes h;
}

-- A store with nothing in it.
unfoldable pub empty_store : ℕ → table_store.State
unfolding table_store
empty_store room = record { writes = []; room = room }

pub get-empty_store : (room : ℕ) (k : Bytes) → table_store.get (empty_store room) k ≡ none
unfolding table_store empty_store table_get newest
get-empty_store room k = refl

pub put-empty_store :
    (room : ℕ) (k v : Bytes) → (table_store.put (empty_store (suc room)) k v).0 ≡ true
unfolding table_store empty_store table_put put_if
put-empty_store room k v = refl

-- The second put on a store that was empty.
pub put-put_empty_store :
    (room : ℕ) (k v j w : Bytes)
    → (table_store.put (table_store.put (empty_store (suc (suc room))) k v).1 j w).0 ≡ true
unfolding table_store empty_store table_put put_if
put-put_empty_store room k v j w = refl

pub table_store-removes : (s : table_store.State) (k : Bytes) → (table_store.remove s k).0 ≡ true
unfolding table_store table_remove
table_store-removes s k = refl
