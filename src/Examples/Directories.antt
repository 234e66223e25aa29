-- ===== src/Examples/Directories.antt =====
-- The theorems about directory partitions, at one with two entries.
use kvfs_ra_testing.Base.{
  ℕ, ◌≡◌, ◌⊎◌, refl, true, false, none, some, [], ◌∷◌, Bytes, bytes_eq, length, if◌then◌else◌,
  arith,
}
use kvfs_ra_testing.Status.{ok, enoent, eexist}
use kvfs_ra_testing.Store.{KvStore}
use kvfs_ra_testing.Store.Table.{table_store, empty_store, put-empty_store}
use kvfs_ra_testing.Partition.Names.{name_find}
use kvfs_ra_testing.Partition.{
  LogFsDirectoryPartition, clean, dirty, is_dirty, new_partition, write_to_log, refresh,
  insert_entry, remove_entry,
}
use kvfs_ra_testing.Partition.Stored.{
  Storable, storable_nil, storable_cons, is_plain, refresh-write_to_log,
}
use kvfs_ra_testing.Partition.Entries.{
  loaded_clean, Finds, or_zero, insert_entry-find_entry, remove_entry-find_entry,
}
use kvfs_ra_testing.Meta.{new_meta}
use kvfs_ra_testing.Directory.{Directory, get_partition}
use kvfs_ra_testing.Directory.Lookup.{DirIsLoaded}
use kvfs_ra_testing.Examples.Layout.{layout}

abbrev K : KvStore
K = table_store

abbrev pub blank_store : K.State
blank_store = empty_store 100

abbrev pub first_name : Bytes
first_name = b'a' ∷ []

abbrev pub second_name : Bytes
second_name = b'b' ∷ b'c' ∷ []

-- Partition 1 of directory 7, not yet written.
abbrev unwritten : LogFsDirectoryPartition
unwritten = record {
  partition_number = 1;
  fs_id = 1;
  dir_ino = 7;
  entries = (second_name, 300) ∷ (first_name, 12) ∷ [];
  entries_by_name = (first_name, 12) ∷ (second_name, 300) ∷ [];
  state = dirty;
}

unwritten-Storable : Storable unwritten.entries_by_name
unfolding is_plain name_find bytes_eq
unwritten-Storable =
    storable_cons first_name 12 _ refl (omega arith) refl
      (storable_cons second_name 300 [] refl (omega arith) refl storable_nil)

unwritten-put : (write_to_log K unwritten blank_store).0 ≡ ok
unfolding write_to_log is_dirty
unwritten-put = rw (write_to_log, put-empty_store 99) refl

refresh-write_to_log_example :
    (q : LogFsDirectoryPartition) × (refresh K
        (new_partition 1 1 7)
        (write_to_log K unwritten blank_store).2
      ≡ some (0, q))
    × (q.state ≡ clean)
    × (q.entries ≡ (first_name, 12) ∷ (second_name, 300) ∷ [])
    × ((name : Bytes)
        → name_find name q.entries_by_name
          ≡ name_find name ((first_name, 12) ∷ (second_name, 300) ∷ []))
refresh-write_to_log_example =
    refresh-write_to_log K unwritten blank_store refl (omega arith) (omega arith) (omega arith)
      unwritten-Storable unwritten-put

abbrev pub loaded : LogFsDirectoryPartition
loaded = record unwritten { state = clean }

insert_entry-find_entry_example :
    (p' : LogFsDirectoryPartition) × (s' : K.State) × (((insert_entry K loaded blank_store 9
            (b'z' ∷ [])
          ≡ some (eexist, p', s'))
        × ((old : ℕ) × (name_find (b'z' ∷ []) loaded.entries_by_name ≡ some old))
        × (p' ≡ loaded)
        × (s' ≡ blank_store))
      ⊎ ((name_find (b'z' ∷ []) loaded.entries_by_name ≡ none)
          × (insert_entry K loaded blank_store 9 (b'z' ∷ []) ≡ some (0, p', s'))
          × Finds K p' s' (λ other.
            if bytes_eq other (b'z' ∷ [])
            then 9
            else or_zero (name_find other loaded.entries_by_name))))
insert_entry-find_entry_example =
    insert_entry-find_entry K loaded blank_store (loaded_clean loaded refl) (b'z' ∷ []) 9

remove_entry-find_entry_example :
    (p' : LogFsDirectoryPartition) × (s' : K.State) × (((remove_entry K loaded blank_store 12
            first_name
          ≡ some (enoent, p', s'))
        × (name_find first_name loaded.entries_by_name ≡ none)
        × (p' ≡ loaded)
        × (s' ≡ blank_store))
      ⊎ (((old : ℕ) × (name_find first_name loaded.entries_by_name ≡ some old))
          × (remove_entry K loaded blank_store 12 first_name ≡ some (0, p', s'))
          × Finds K p' s' (λ other.
            if bytes_eq other first_name
            then 0
            else or_zero (name_find other loaded.entries_by_name))))
remove_entry-find_entry_example =
    remove_entry-find_entry K loaded blank_store (loaded_clean loaded refl) first_name 12

abbrev pub some_hash : Bytes → ℕ
some_hash name = length name

-- Directory 7 in memory, with both entries in its partition 1.
unfoldable pub some_dir : Directory
unfolding new_meta
some_dir = record {
  file = record {
    fs_id = 1;
    handle = 7;
    name_string = [];
    meta = new_meta 0 8192;
    mode = 0o040755;
    meta_dirty = false;
    data_hold_count = 0;
  };
  part0 = record loaded { partition_number = 0; entries = []; entries_by_name = [] };
  part1 = loaded;
}

pub some_dir-IsLoaded : DirIsLoaded K layout some_hash some_dir
unfolding get_partition some_dir new_meta
some_dir-IsLoaded false = loaded_clean some_dir.part0 refl
some_dir-IsLoaded true = loaded_clean some_dir.part1 refl
