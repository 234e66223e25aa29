-- ===== src/Mount/Listing.antt =====
-- Listing a directory: DirEntryAdder (src/dir_entry_adder.cc), listEntries
-- (src/KVFSDirectoryPartition.cc), listDirectory (src/KVFSFile.cc) and Readdir (src/kvfs_mount.cc). The
-- number of bytes that fuse_add_direntry needs for a name is an argument; the entry is in the buffer if
-- it fits. `none` is an abort.
pub mod Live
use kvfs_ra_testing.Base.{
  ℕ, zero, suc, ◌+◌, ◌-◌, ◌*◌, ◌/◌, ◌%◌, ◌^◌, Bool, true, false, ◌&&◌, ◌||◌, not, Option, none,
  some, List, [], ◌∷◌, ◌++◌, Bytes, length, drop, ltb, leb, ◌==◌, if◌then◌else◌,
}
use kvfs_ra_testing.Status.{Status, ok, object_doesnt_exist, status_to_errno}
use kvfs_ra_testing.Store.{KvStore}
use kvfs_ra_testing.File.{MetaLayout}
use kvfs_ra_testing.Partition.{LogFsDirectoryPartition, refresh}
use kvfs_ra_testing.Partition.Names.{NameMap, name_find}
use kvfs_ra_testing.Directory.{Directory, get_partition, set_partition, exists}
use kvfs_ra_testing.Mount.{Machine, KvfsMount, Reply, reply_err, inode_at, set_dir}
use kvfs_ra_testing.Mount.Cache.{hold_inode, release}
use kvfs_ra_testing.Mount.Names.{s_isdir, update_inode}
use kvfs_ra_testing.Tiering.Agents.{s_isreg}

-- An entry in the buffer: the name, the inode number, and the offset of the next.
pub record DirEntry : Type 0 where
  pub name : Bytes
  pub ino : ℕ
  pub next_offset : ℕ

-- The loop of listEntries, over what is left of `entries`, for the Add of any adder: it returns false
-- to stop.
module _ (A : Type 0) (add : A → DirEntry → Option (Bool × A)) where
  -- Whether the entry of the vector is also that of the map: an unlinked one is not.
  unfoldable pub is_live : NameMap → Bytes → ℕ → Bool
  is_live by_name name ino = elim (name_find name by_name) [ none ↦ false | some i ↦ i == ino ]

  unfoldable pub list_loop : NameMap → NameMap → ℕ → A → Option A
  list_loop by_name [] offset a = some a
  list_loop by_name ((name, ino) ∷ rest) offset a = elim (is_live by_name name ino) [
    | false ↦ list_loop by_name rest (offset + 1) a
    | true ↦ elim (add a (record { name = name; ino = ino; next_offset = offset + 1 })) [
      | none ↦ none
      | some (false, a') ↦ some a'
      | some (true, a') ↦ list_loop by_name rest (offset + 1) a'
    ]
  ]

  -- listEntries after Refresh.
  unfoldable pub list_fresh : LogFsDirectoryPartition → ℕ → ℕ → A → Option A
  list_fresh p cur_offset part_base_offset a =
      if leb part_base_offset cur_offset
      then list_loop p.entries_by_name (drop (cur_offset - part_base_offset) p.entries) cur_offset a
      else none

-- DirEntryAdder, with the entries that are in the buffer, and the mount that it holds inodes of.
pub record DirEntryAdder (S : Type 0) : Type 0 where
  pub added : List DirEntry
  pub size : ℕ
  pub total_bytes_added : ℕ
  pub out_of_space : Bool
  pub mount : KvfsMount S

unfoldable pub new_adder : {S : Type 0} → KvfsMount S → ℕ → DirEntryAdder S
new_adder mount size = record {
  added = [];
  size = size;
  total_bytes_added = 0;
  out_of_space = false;
  mount = mount;
}

abbrev pub max_entries_per_partition : ℕ
max_entries_per_partition = 1000000

abbrev pub num_partitions : ℕ
num_partitions = 2

module _ (K : KvStore) (layout : MetaLayout) (hash : Bytes → ℕ) (machine : Machine)
    (direntry_size : Bytes → ℕ) where
  -- What the buffer is after fuse_add_direntry.
  unfoldable pub put_entry :
      DirEntryAdder K.State → DirEntry → KvfsMount K.State → Bool × DirEntryAdder K.State
  put_entry a entry m =
      let bytes_needed = direntry_size entry.name in
      if ltb a.size bytes_needed then (false, record a { out_of_space = true; mount = m }) else (
        true,
        record a {
          added = a.added ++ entry ∷ [];
          size = a.size - bytes_needed;
          total_bytes_added = a.total_bytes_added + bytes_needed;
          mount = m;
        },
      )

  -- Add, which expects that the attributes of the inode in memory are those of a file or a directory.
  unfoldable pub add : DirEntryAdder K.State → DirEntry → Option (Bool × DirEntryAdder K.State)
  add a entry =
      let m = hold_inode machine entry.ino a.mount in
      let attr = (inode_at machine m entry.ino).attr in
      elim ((attr.st_ino == entry.ino) && (s_isreg attr.st_mode || s_isdir attr.st_mode)) [
        | false ↦ none
        | true ↦ elim (release K layout machine 1 entry.ino m) [
          | none ↦ none
          | some (_, m') ↦ some (put_entry a entry m')
        ]
      ]

  -- listEntries: the errno, the partition and the adder.
  unfoldable pub list_entries :
      LogFsDirectoryPartition
      → ℕ
      → ℕ
      → DirEntryAdder K.State
      → Option (ℕ × LogFsDirectoryPartition × DirEntryAdder K.State)
  list_entries p cur_offset part_base_offset a = elim (refresh K p a.mount.store) [
    | none ↦ none
    | some (err, p') ↦ elim (err == 0) [
      | false ↦ some (err, p', a)
      | true ↦ elim (list_fresh (DirEntryAdder K.State) add p' cur_offset part_base_offset a) [
        | none ↦ none
        | some a' ↦ some (0, p', a')
      ]
    ]
  ]

  -- Whether the partition of a number is the second.
  abbrev pub second : ℕ → Bool
  second i = i == 1

  -- The loop of listDirectory over `rounds` partitions from `i` on.
  unfoldable pub list_partitions :
      ℕ → ℕ → Directory → ℕ → DirEntryAdder K.State → Option (Directory × DirEntryAdder K.State)
  list_partitions zero i d cur_offset a = some (d, a)
  list_partitions (suc rounds) i d cur_offset a = elim a.out_of_space [
    | true ↦ some (d, a)
    | false ↦
        let base = i * max_entries_per_partition in
        let cur = if ltb cur_offset base then base else cur_offset in
        elim (list_entries (get_partition (second i) d) cur base a) [
          | none ↦ none
          | some (err, p, a') ↦ elim (err == 0) [
            | false ↦ none
            | true ↦ list_partitions rounds (suc i) (set_partition (second i) p d) cur a'
          ]
        ]
  ]

  -- listDirectory, where the number of the first partition is a uint16_t.
  unfoldable pub list_directory :
      Directory → ℕ → DirEntryAdder K.State → Option (Status × Directory × DirEntryAdder K.State)
  list_directory d cur_offset a = elim (exists K layout d.file a.mount.store) [
    | false ↦ some (object_doesnt_exist, d, a)
    | true ↦
        let first = cur_offset / max_entries_per_partition % 2 ^ 16 in
        elim (list_partitions (num_partitions - first) first d cur_offset a) [
          | none ↦ none
          | some (d', a') ↦ some (ok, d', a')
        ]
  ]

  -- Readdir: the errno, the entries of the reply, and the mount. An allocation succeeds.
  unfoldable pub readdir :
      ℕ → ℕ → ℕ → KvfsMount K.State → Option (ℕ × List DirEntry × KvfsMount K.State)
  readdir this size offset m =
      elim (list_directory (inode_at machine m this).dir offset (new_adder m size)) [
        | none ↦ none
        | some (status, d, a) ↦
            some (status_to_errno status, a.added, update_inode machine this (set_dir d) a.mount)
      ]
