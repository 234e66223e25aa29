-- ===== src/Partition.antt =====
-- src/KVFSDirectoryPartition.cc: a partition of a directory, which holds entries in memory and in one
-- value of the store. `none` is an abort of an EXPECT or an assert, or a read past the end of a buffer.
pub mod Names
pub mod Entries
pub mod Stored
use kvfs_ra_testing.Base.{
  ℕ, zero, suc, ◌+◌, ◌-◌, ◌*◌, ◌/◌, ◌%◌, ◌^◌, Bool, true, false, ◌&&◌, ◌||◌, not, Option, none,
  some, List, [], ◌∷◌, ◌++◌, Bytes, bytes_eq, length, get_elem?, take, drop, ltb, leb, ◌==◌,
  if◌then◌else◌,
}
use kvfs_ra_testing.Status.{Status, ok, internal_error, enoent, eio, eexist}
use kvfs_ra_testing.Key.{partition_key}
use kvfs_ra_testing.Store.{KvStore}
use kvfs_ra_testing.Partition.Names.{NameMap, name_find, name_set, name_erase}

pub data PartitionState : Type 0 where
  invalid clean dirty : PartitionState

pub record LogFsDirectoryPartition : Type 0 where
  pub partition_number : ℕ
  pub fs_id : ℕ
  pub dir_ino : ℕ
  pub entries : NameMap
  pub entries_by_name : NameMap
  pub state : PartitionState

-- LogFSDirectoryPartition(partitionNumber, fsId, dir_ino, kvstore)
unfoldable pub new_partition : ℕ → ℕ → ℕ → LogFsDirectoryPartition
new_partition partition_number fs_id dir_ino = record {
  partition_number = partition_number % 2 ^ 16;
  fs_id = fs_id;
  dir_ino = dir_ino;
  entries = [];
  entries_by_name = [];
  state = invalid;
}

-- The bytes of an unsigned integer in memory, on a little-endian machine.
unfoldable pub le_bytes : ℕ → ℕ → Bytes
le_bytes zero n = []
le_bytes (suc width) n = n % 256 ∷ le_bytes width (n / 256)

unfoldable pub le_value : Bytes → ℕ
le_value [] = 0
le_value (b ∷ bs) = b + 256 * le_value bs

abbrev pub null_termination : ℕ
null_termination = b'|'

-- One entry of the value: the inode number, the name, and a bar.
unfoldable pub serialize_entries : NameMap → Bytes
serialize_entries [] = []
serialize_entries ((name, ino) ∷ rest) =
    le_bytes 8 ino ++ (name ++ null_termination ∷ serialize_entries rest)

unfoldable pub serialize : LogFsDirectoryPartition → Bytes
serialize p =
    le_bytes 8 p.fs_id
    ++ (le_bytes 8 p.dir_ino
        ++ (le_bytes 2 p.partition_number ++ serialize_entries p.entries_by_name))

-- strchr for the bar: what is before it and after it. It stops at a null byte, and then finds none.
unfoldable pub split_bar : Bytes → Option (Bytes × Bytes)
split_bar [] = none
split_bar (c ∷ cs) =
    if c == null_termination
    then some ([], cs)
    else if c == 0
    then none
    else elim (split_bar cs) [ none ↦ none | some (name, after) ↦ some (c ∷ name, after) ]

-- The loop of Deserialize, on fuel: every round takes nine bytes at least.
unfoldable pub parse_entries : ℕ → Bytes → NameMap → NameMap → Option (NameMap × NameMap)
parse_entries zero buff entries by_name = none
parse_entries (suc fuel) buff entries by_name = elim (length buff == 0) [
  | true ↦ some (entries, by_name)
  | false ↦ elim (ltb (length buff) 8) [
    | true ↦ none
    | false ↦ elim (split_bar (drop 8 buff)) [
      | none ↦ none
      | some (name, after) ↦
          let ino = le_value (take 8 buff) in
          parse_entries fuel after (entries ++ (name, ino) ∷ []) (name_set name ino by_name)
    ]
  ]
]

abbrev pub header_size : ℕ
header_size = 18

-- Deserialize. The check for a mismatch compares the members, just overwritten, with themselves, and
-- never fails.
unfoldable pub deserialize :
    LogFsDirectoryPartition → Bytes → Option (Bool × LogFsDirectoryPartition)
deserialize p out_buffer =
    if ltb (length out_buffer) header_size
    then some (false, p)
    else if le_value (take 8 (drop 8 out_buffer)) == p.dir_ino
    then elim (parse_entries (suc (length out_buffer)) (drop header_size out_buffer) p.entries []) [
      | none ↦ none
      | some (entries, by_name) ↦ some (
        true,
        record p {
          fs_id = le_value (take 8 out_buffer);
          partition_number = le_value (take 2 (drop 16 out_buffer));
          entries = entries;
          entries_by_name = by_name;
          state = clean;
        },
      )
    ]
    else none

unfoldable pub is_dirty : PartitionState → Bool
is_dirty dirty = true
is_dirty _ = false

module _ (K : KvStore) where
  unfoldable pub read_from_log : LogFsDirectoryPartition → K.State → Option Bytes
  read_from_log p s = K.get s (partition_key p.dir_ino p.partition_number)

  unfoldable pub write_to_log :
      LogFsDirectoryPartition → K.State → Status × LogFsDirectoryPartition × K.State
  write_to_log p s =
      let (done, s') = K.put s (partition_key p.dir_ino p.partition_number) (serialize p) in
      if is_dirty p.state
      then (if done then (ok, record p { state = clean }, s') else (internal_error, p, s'))
      else (internal_error, p, s)

  unfoldable pub refresh_from :
      PartitionState → LogFsDirectoryPartition → K.State → Option (ℕ × LogFsDirectoryPartition)
  refresh_from clean p s = some (0, p)
  refresh_from dirty p s = some (0, p)
  refresh_from invalid p s = elim (read_from_log p s) [
    | none ↦ some (0, record p { entries_by_name = []; state = clean })
    | some buf ↦ elim (deserialize p buf) [
      | none ↦ none
      | some (good, p') ↦ some (if good then (0, record p' { state = clean }) else (eio, p'))
    ]
  ]

  -- Reads the partition in if the state is INVALID. The number is an errno.
  unfoldable pub refresh : LogFsDirectoryPartition → K.State → Option (ℕ × LogFsDirectoryPartition)
  refresh p s = refresh_from p.state p s

  -- EXPECT(Refresh() == 0)
  unfoldable pub refreshed : LogFsDirectoryPartition → K.State → Option LogFsDirectoryPartition
  refreshed p s = elim (refresh p s) [
    | none ↦ none
    | some (err, p') ↦ if err == 0 then some p' else none
  ]

  -- insertEntry after Refresh. What writeToLog returns is dropped.
  unfoldable pub insert_fresh :
      LogFsDirectoryPartition → K.State → ℕ → Bytes → ℕ × LogFsDirectoryPartition × K.State
  insert_fresh p s ino name = elim (name_find name p.entries_by_name) [
    | some _ ↦ (eexist, p, s)
    | none ↦
        let (_, p', s') =
          write_to_log
            (record p {
              entries = p.entries ++ (name, ino) ∷ [];
              entries_by_name = name_set name ino p.entries_by_name;
              state = dirty;
            })
            s in
        (0, p', s')
  ]

  unfoldable pub insert_entry :
      LogFsDirectoryPartition → K.State → ℕ → Bytes → Option (ℕ × LogFsDirectoryPartition × K.State)
  insert_entry p s ino name = elim (refreshed p s) [
    | none ↦ none
    | some p' ↦ some (insert_fresh p' s ino name)
  ]

  -- The inode number, or 0 for no entry.
  unfoldable pub find_entry :
      LogFsDirectoryPartition → K.State → Bytes → Option (ℕ × LogFsDirectoryPartition)
  find_entry p s name = elim (refreshed p s) [
    | none ↦ none
    | some p' ↦ elim (name_find name p'.entries_by_name) [
      | none ↦ some (0, p')
      | some ino ↦ some (ino, p')
    ]
  ]

  unfoldable pub remove_fresh :
      LogFsDirectoryPartition → K.State → Bytes → ℕ × LogFsDirectoryPartition × K.State
  remove_fresh p s name = elim (name_find name p.entries_by_name) [
    | none ↦ (enoent, p, s)
    | some _ ↦
        let (_, p', s') =
          write_to_log
            (record p { entries_by_name = name_erase name p.entries_by_name; state = dirty }) s in
        (0, p', s')
  ]

  -- removeEntry. The inode number that is passed in is not looked at.
  unfoldable pub remove_entry :
      LogFsDirectoryPartition → K.State → ℕ → Bytes → Option (ℕ × LogFsDirectoryPartition × K.State)
  remove_entry p s handle name = elim (refresh p s) [
    | none ↦ none
    | some (err, p') ↦ some (if err == 0 then remove_fresh p' s name else (err, p', s))
  ]

  unfoldable pub is_dot : Bytes → Bool
  is_dot name = bytes_eq name (b'.' ∷ []) || bytes_eq name (b'.' ∷ b'.' ∷ [])

  unfoldable pub all_dots : NameMap → Bool
  unfolding is_dot
  all_dots [] = true
  all_dots ((name, ino) ∷ rest) = let more = all_dots rest in is_dot name && more

  unfoldable pub is_partition_empty :
      LogFsDirectoryPartition → K.State → Option (Bool × LogFsDirectoryPartition)
  is_partition_empty p s = elim (refreshed p s) [
    | none ↦ none
    | some p' ↦
        some (if ltb 2 (length p'.entries_by_name) then false else all_dots p'.entries_by_name, p')
  ]
