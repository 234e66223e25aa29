-- ===== src/Partition/Stored.antt =====
-- Serialize and Deserialize of src/KVFSDirectoryPartition.cc: what is written comes back.
use kvfs_ra_testing.Base.{
  ℕ, zero, suc, ◌+◌, ◌/◌, ◌%◌, ◌^◌, ◌<◌, ◌≡◌, refl, sym, ap, ◌∙◌, Bool, true, false, not, ◌&&◌,
  Option, none, some, List, [], ◌∷◌, ◌++◌, Bytes, length, take, drop, length-append, ltb, ◌==◌,
  arith, bytes_eq, bytes_eq_sound, Bool-cases, inl, inr,
}
use kvfs_ra_testing.Status.{ok, internal_error}
use kvfs_ra_testing.Key.{partition_key}
use kvfs_ra_testing.Store.{KvStore}
use kvfs_ra_testing.Partition.Names.{NameMap, name_find, name_set, name_find-set}
use kvfs_ra_testing.Partition.{
  LogFsDirectoryPartition, clean, dirty, new_partition, le_bytes, le_value, null_termination,
  serialize_entries, serialize, split_bar, parse_entries, deserialize, is_dirty, read_from_log,
  write_to_log, refresh, refresh_from, invalid,
}

module _ {ℓ} {A : Type ℓ} where
  append-nil : (xs : List A) → xs ++ [] ≡ xs
  append-nil [] = refl
  append-nil (x ∷ xs) = ap (λ t. x ∷ t) (append-nil xs)

  append_assoc : (xs ys zs : List A) → (xs ++ ys) ++ zs ≡ xs ++ (ys ++ zs)
  append_assoc [] ys zs = refl
  append_assoc (x ∷ xs) ys zs = ap (λ t. x ∷ t) (append_assoc xs ys zs)

  pub take-append : (xs ys : List A) → take (length xs) (xs ++ ys) ≡ xs
  take-append [] ys = refl
  take-append (x ∷ xs) ys = ap (λ t. x ∷ t) (take-append xs ys)

  pub drop-append : (xs ys : List A) → drop (length xs) (xs ++ ys) ≡ ys
  drop-append [] ys = refl
  drop-append (x ∷ xs) ys = drop-append xs ys

drop-nil : (b : ℕ) → drop {A = ℕ} b [] ≡ []
drop-nil zero = refl
drop-nil (suc b) = refl

drop_at : (m n : ℕ) (xs : Bytes) → m ≡ n → drop m xs ≡ drop n xs
drop_at m n xs e = ap (λ (t : ℕ). drop t xs) e

drop-drop : (a b : ℕ) (xs : Bytes) → drop (a + b) xs ≡ drop b (drop a xs)
drop-drop zero b xs = drop_at (zero + b) b xs (omega arith)
drop-drop (suc a) b [] = drop_at (suc a + b) (suc (a + b)) [] (omega arith) ∙ sym (drop-nil b)
drop-drop (suc a) b (x ∷ xs) =
    drop_at (suc a + b) (suc (a + b)) (x ∷ xs) (omega arith) ∙ drop-drop a b xs

pub length-le_bytes : (width n : ℕ) → length (le_bytes width n) ≡ width
unfolding le_bytes
length-le_bytes zero n = refl
length-le_bytes (suc width) n = ap (λ (t : ℕ). suc t) (length-le_bytes width (n / 256))

pub take_le : (width n : ℕ) (ys : Bytes) → take width (le_bytes width n ++ ys) ≡ le_bytes width n
take_le width n ys =
    ap (λ (w : ℕ). take w (le_bytes width n ++ ys)) (sym (length-le_bytes width n))
    ∙ take-append (le_bytes width n) ys

pub drop_le : (width n : ℕ) (ys : Bytes) → drop width (le_bytes width n ++ ys) ≡ ys
drop_le width n ys =
    ap (λ (w : ℕ). drop w (le_bytes width n ++ ys)) (sym (length-le_bytes width n))
    ∙ drop-append (le_bytes width n) ys

pub le_value-le_bytes : (width n : ℕ) → n < 256 ^ width → le_value (le_bytes width n) ≡ n
unfolding le_bytes le_value
le_value-le_bytes zero n h = omega arith
le_value-le_bytes (suc width) n h =
    let smaller : n / 256 < 256 ^ width = grind arith in
    rw (le_value-le_bytes width (n / 256) smaller) (omega arith)

-- A name that the format can hold: without the bar, and without a null byte.
unfoldable pub is_plain : Bytes → Bool
is_plain [] = true
is_plain (c ∷ cs) = let rest = is_plain cs in not (c == null_termination) && (not (c == 0) && rest)

split_bar-plain :
    (name after : Bytes)
    → is_plain name ≡ true
    → split_bar (name ++ null_termination ∷ after) ≡ some (name, after)
unfolding split_bar is_plain
split_bar-plain [] after h = refl
split_bar-plain (c ∷ cs) after h =
    let not_bar : (c == null_termination) ≡ false = ground arith in
    let not_null : (c == 0) ≡ false = ground arith in
    rw (not_bar, not_null, split_bar-plain cs after (ground arith)) refl

-- Entries that the format can hold, each name once.
pub data Storable : NameMap → Type 0 where
  storable_nil : Storable []
  storable_cons :
      (name : Bytes) (ino : ℕ) (rest : NameMap)
      → is_plain name ≡ true
      → ino < 256 ^ 8
      → name_find name rest ≡ none
      → Storable rest
      → Storable ((name, ino) ∷ rest)

set_all : NameMap → NameMap → NameMap
set_all [] m = m
set_all ((name, ino) ∷ rest) m = set_all rest (name_set name ino m)

or_else : Option ℕ → Option ℕ → Option ℕ
or_else none b = b
or_else (some a) b = some a

or_else-none : (a : Option ℕ) → or_else a none ≡ a
unfolding or_else
or_else-none none = refl
or_else-none (some a) = refl

name_find-set_all :
    (entries m : NameMap) (name : Bytes)
    → Storable entries
    → name_find name (set_all entries m) ≡ or_else (name_find name entries) (name_find name m)
unfolding set_all or_else name_find
name_find-set_all [] m name s = refl
name_find-set_all ((n, i) ∷ rest) m name (storable_cons _ _ _ plain small once s) =
    name_find-set_all rest (name_set n i m) name s ∙ (elim (Bool-cases (bytes_eq name n)) [
      | inl same ↦
          let absent : name_find name rest ≡ none = rw (bytes_eq_sound name n same) once in
          rw (name_find-set n name i m, same, absent) refl
      | inr ne ↦ rw (name_find-set n name i m, ne) refl
    ])

parse_entries-serialize :
    (fuel : ℕ) (m entries by_name : NameMap)
    → Storable m
    → length (serialize_entries m) < fuel
    → parse_entries fuel (serialize_entries m) entries by_name
      ≡ some (entries ++ m, set_all m by_name)
unfolding parse_entries serialize_entries set_all
parse_entries-serialize zero m entries by_name s h = absurd (omega arith)
parse_entries-serialize (suc fuel) [] entries by_name s h =
    ap (λ (es : NameMap). some (es, by_name)) (sym (append-nil entries))
parse_entries-serialize (suc fuel) ((n, i) ∷ rest) entries by_name
      (storable_cons _ _ _ plain small once s) h =
    let tail = n ++ null_termination ∷ serialize_entries rest in
    let ino = le_value-le_bytes 8 i small in
    let long = length-append (le_bytes 8 i) tail in
    let long_name = length-append n (null_termination ∷ serialize_entries rest) in
    let width = length-le_bytes 8 i in
    let not_empty : (length (le_bytes 8 i ++ tail) == 0) ≡ false = ground (arith, long, width) in
    let not_short : ltb (length (le_bytes 8 i ++ tail)) 8 ≡ false = ground (arith, long, width) in
    rw
      (
        parse_entries,
        not_empty,
        not_short,
        drop_le 8 i tail,
        split_bar-plain n (serialize_entries rest) plain,
        take_le 8 i tail,
        ino,
      )
      (parse_entries-serialize fuel rest (entries ++ (n, i) ∷ []) (name_set n i by_name) s
          (omega (arith, h, long, long_name, width))
        ∙ ap (λ (es : NameMap). some (es, set_all rest (name_set n i by_name)))
            (append_assoc entries ((n, i) ∷ []) rest))

-- A value of the store that Serialize wrote is read in as the same entries.
module _ (p : LogFsDirectoryPartition) (small_fs : p.fs_id < 256 ^ 8)
    (small_ino : p.dir_ino < 256 ^ 8) (small_number : p.partition_number < 256 ^ 2)
    (entries : Storable p.entries_by_name) where
  abbrev body : Bytes
  body = serialize_entries p.entries_by_name

  abbrev with_number : Bytes
  with_number = le_bytes 2 p.partition_number ++ body

  abbrev with_ino : Bytes
  with_ino = le_bytes 8 p.dir_ino ++ with_number

  long : length (serialize p) ≡ 18 + length body
  unfolding serialize
  long = omega (
    arith,
    length-append (le_bytes 8 p.fs_id) with_ino,
    length-append (le_bytes 8 p.dir_ino) with_number,
    length-append (le_bytes 2 p.partition_number) body,
    length-le_bytes 8 p.fs_id,
    length-le_bytes 8 p.dir_ino,
    length-le_bytes 2 p.partition_number,
  )

  drop_fs : drop 8 (serialize p) ≡ with_ino
  unfolding serialize
  drop_fs = drop_le 8 p.fs_id with_ino

  drop_ino : drop 16 (serialize p) ≡ with_number
  drop_ino =
      drop-drop 8 8 (serialize p)
      ∙ ap (λ (t : Bytes). drop 8 t) drop_fs
      ∙ drop_le 8 p.dir_ino with_number

  drop_number : drop 18 (serialize p) ≡ body
  drop_number =
      drop-drop 16 2 (serialize p)
      ∙ ap (λ (t : Bytes). drop 2 t) drop_ino
      ∙ drop_le 2 p.partition_number body

  read_fs : le_value (take 8 (serialize p)) ≡ p.fs_id
  unfolding serialize
  read_fs =
      ap (λ (t : Bytes). le_value t) (take_le 8 p.fs_id with_ino)
      ∙ le_value-le_bytes 8 p.fs_id small_fs

  read_ino : le_value (take 8 (drop 8 (serialize p))) ≡ p.dir_ino
  read_ino =
      ap (λ (t : Bytes). le_value (take 8 t)) drop_fs
      ∙ ap (λ (t : Bytes). le_value t) (take_le 8 p.dir_ino with_number)
      ∙ le_value-le_bytes 8 p.dir_ino small_ino

  read_number : le_value (take 2 (drop 16 (serialize p))) ≡ p.partition_number
  read_number =
      ap (λ (t : Bytes). le_value (take 2 t)) drop_ino
      ∙ ap (λ (t : Bytes). le_value t) (take_le 2 p.partition_number body)
      ∙ le_value-le_bytes 2 p.partition_number small_number

  deserialize-serialize :
      (q : LogFsDirectoryPartition)
      → q.dir_ino ≡ p.dir_ino
      → deserialize q (serialize p)
        ≡ some (
          true,
          record q {
            fs_id = p.fs_id;
            partition_number = p.partition_number;
            entries = q.entries ++ p.entries_by_name;
            entries_by_name = set_all p.entries_by_name [];
            state = clean;
          },
        )
  unfolding deserialize
  deserialize-serialize q same =
      let long_enough : ltb (length (serialize p)) 18 ≡ false = ground (arith, long) in
      let right : (le_value (take 8 (drop 8 (serialize p))) == q.dir_ino) ≡ true =
        ground (arith, read_ino, same) in
      let parsed =
        parse_entries-serialize (suc (length (serialize p))) p.entries_by_name q.entries [] entries
          (omega (arith, long)) in
      rw (deserialize, long_enough, right, drop_number, parsed, read_fs, read_number) refl

module _ (K : KvStore) (p : LogFsDirectoryPartition) (s : K.State) (unwritten : p.state ≡ dirty)
    (small_fs : p.fs_id < 256 ^ 8) (small_ino : p.dir_ino < 256 ^ 8)
    (small_number : p.partition_number < 256 ^ 2) (entries : Storable p.entries_by_name) where
  put_done : Bool
  put_done = (K.put s (partition_key p.dir_ino p.partition_number) (serialize p)).0

  put_store : K.State
  put_store = (K.put s (partition_key p.dir_ino p.partition_number) (serialize p)).1

  unwritten_dirty : is_dirty p.state ≡ true
  unfolding is_dirty
  unwritten_dirty = rw unwritten refl

  written : (write_to_log K p s).0 ≡ ok → put_done ≡ true
  unfolding write_to_log put_done
  written good =
      elim (Bool-cases (K.put s (partition_key p.dir_ino p.partition_number) (serialize p)).0) [
        | inl done ↦ done
        | inr full ↦
            let bad : (write_to_log K p s).0 ≡ internal_error =
              rw (write_to_log, unwritten_dirty, full) refl in
            absurd (ground (arith, good, bad))
      ]

  written_store : put_done ≡ true → (write_to_log K p s).2 ≡ put_store
  unfolding write_to_log put_done put_store
  written_store done = rw (write_to_log, unwritten_dirty, done) refl

  fresh : LogFsDirectoryPartition
  fresh = new_partition p.partition_number p.fs_id p.dir_ino

  read_in : LogFsDirectoryPartition
  read_in = record fresh {
    fs_id = p.fs_id;
    partition_number = p.partition_number;
    entries = fresh.entries ++ p.entries_by_name;
    entries_by_name = set_all p.entries_by_name [];
    state = clean;
  }

  stored : put_done ≡ true → read_from_log K fresh put_store ≡ some (serialize p)
  unfolding read_from_log new_partition fresh put_done put_store
  stored done =
      let whole : p.partition_number % 2 ^ 16 ≡ p.partition_number = omega arith in
      rw whole (K.get-put_self s (partition_key p.dir_ino p.partition_number) (serialize p) done)

  refresh_invalid :
      (q q' : LogFsDirectoryPartition) (t : K.State) (buf : Bytes)
      → read_from_log K q t ≡ some buf
      → deserialize q buf ≡ some (true, q')
      → refresh_from K invalid q t ≡ some (0, record q' { state = clean })
  unfolding refresh_from
  refresh_invalid q q' t buf e d = rw (refresh_from, e, d) refl

  refresh_stored :
      (t : K.State)
      → read_from_log K fresh t ≡ some (serialize p)
      → refresh K fresh t ≡ some (0, read_in)
  unfolding refresh new_partition fresh read_in
  refresh_stored t e =
      refresh_invalid fresh read_in t (serialize p) e
        (deserialize-serialize p small_fs small_ino small_number entries fresh refl)

  -- For a DIRTY partition whose numbers fit their types, and whose names have no bar and no null byte
  -- and stand once each: after writeToLog with STATUS_OK, Refresh of a new object for the partition
  -- returns 0, and then it is CLEAN, every name is found as in the partition that was written, and the
  -- entries are its entries.
  pub refresh-write_to_log :
      (write_to_log K p s).0 ≡ ok
      → (q : LogFsDirectoryPartition) × (refresh K
            (new_partition p.partition_number p.fs_id p.dir_ino)
            (write_to_log K p s).2
          ≡ some (0, q))
        × (q.state ≡ clean)
        × (q.entries ≡ p.entries_by_name)
        × ((name : Bytes) → name_find name q.entries_by_name ≡ name_find name p.entries_by_name)
  unfolding fresh read_in new_partition name_find
  refresh-write_to_log good =
      let done = written good in
      (
        read_in,
        ap (λ (t : K.State). refresh K fresh t) (written_store done)
            ∙ refresh_stored put_store (stored done),
        refl,
        refl,
        λ name.
            name_find-set_all p.entries_by_name [] name entries
            ∙ or_else-none (name_find name p.entries_by_name),
      )
