-- ===== src/Directory.antt =====
-- The methods of LogFSFile (src/KVFSFile.cc) that make a file or a directory and keep its attributes
-- and entries. A directory has DEFAULT_PARTITIONS_PER_DIRECTORY = 2 partitions; GetPartition makes
-- their objects when they are first asked for, which shows only in that they are INVALID. The hash,
-- CityHash64 of a third-party library, is an argument. `none` is an abort.
pub mod Lookup
pub mod Closing
pub mod Names
pub mod Linking
use kvfs_ra_testing.Base.{
  ℕ, zero, suc, ◌+◌, ◌-◌, ◌%◌, ◌^◌, Bool, true, false, ◌&&◌, Option, none, some, [], ◌∷◌, Bytes,
  ◌==◌, if◌then◌else◌,
}
use kvfs_ra_testing.Status.{Status, ok, internal_error, object_doesnt_exist, is_ok}
use kvfs_ra_testing.Key.{inode_key}
use kvfs_ra_testing.Store.{KvStore}
use kvfs_ra_testing.Meta.{MetaData, MetaType, ifdir, ifreg, type_from_mode, prot_from_mode}
use kvfs_ra_testing.File.{MetaLayout, LogFsFile, write_to_log, read_from_log, flush}
use kvfs_ra_testing.File.Write.{update_m_time, update_c_time}
use kvfs_ra_testing.File.Resize.{Stat, set_size}
use kvfs_ra_testing.Partition.{LogFsDirectoryPartition, new_partition}
use kvfs_ra_testing.Partition

-- UpdateATime
unfoldable pub update_a_time : ℕ → MetaData → MetaData
update_a_time new_time m = record m { atime = new_time % 2 ^ 32; atime_nsec = 0 }

-- NLinkAdjust(1) and NLinkAdjust(-1), on a uint32_t.
unfoldable pub add_link : MetaData → MetaData
add_link m = record m { n_link = (m.n_link + 1) % 2 ^ 32 }

unfoldable pub drop_link : MetaData → MetaData
drop_link m = record m { n_link = (m.n_link + (2 ^ 32 - 1)) % 2 ^ 32 }

-- initMeta, for the user and the group of the process.
unfoldable pub init_meta : ℕ → ℕ → ℕ → LogFsFile → LogFsFile
init_meta user_id group_id now f = record f {
  meta = record f.meta {
    meta_version = 0;
    check_sum = 0xF5D5;
    fs_id = f.fs_id;
    handle = f.handle;
    type = type_from_mode f.mode f.meta.type;
    protection = prot_from_mode f.mode;
    user_id = user_id;
    group_id = group_id;
    dev_id = f.fs_id;
    r_dev = 0;
    n_link = 0;
    ctime = now % 2 ^ 32;
    ctime_nsec = 0;
    atime = now % 2 ^ 32;
    atime_nsec = 0;
    mtime = now % 2 ^ 32;
    mtime_nsec = 0;
  };
}

unfoldable pub is_dir : MetaType → Bool
is_dir ifdir = true
is_dir _ = false

module _ (K : KvStore) (layout : MetaLayout) where
  unfoldable pub chmod : LogFsFile → K.State → ℕ → Status × LogFsFile × K.State
  chmod f s mode =
      flush K layout
        (record f { mode = mode; meta = record f.meta { protection = prot_from_mode mode } }) s

  unfoldable pub chown : LogFsFile → K.State → ℕ → ℕ → Status × LogFsFile × K.State
  chown f s user_id group_id =
      flush K layout (record f { meta = record f.meta { user_id = user_id; group_id = group_id } })
        s

  -- The metadata and the mode after SetAttr, from those read in. The nanoseconds are left out, as in Stat.
  unfoldable pub attr_meta : LogFsFile → MetaData → Stat → LogFsFile
  attr_meta f m new_attr = record f {
    meta = record m {
      n_link = new_attr.st_nlink % 2 ^ 32;
      user_id = new_attr.st_uid;
      group_id = new_attr.st_gid;
      atime = new_attr.st_atime % 2 ^ 32;
      mtime = new_attr.st_mtime % 2 ^ 32;
      protection =
          if f.mode == new_attr.st_mode then m.protection else prot_from_mode new_attr.st_mode;
    };
    mode = new_attr.st_mode;
  }

  -- SetAttr, which does not write the inode.
  unfoldable pub set_attr : LogFsFile → K.State → Stat → Status × LogFsFile
  set_attr f s new_attr = elim (read_from_log K layout f s) [
    | none ↦ (object_doesnt_exist, f)
    | some read_buffer ↦
        let m = layout.overlay read_buffer in
        if (m.fs_id == f.fs_id) && ((m.handle == f.handle) && (new_attr.st_ino == f.handle))
        then (ok, attr_meta f m new_attr)
        else (object_doesnt_exist, f)
  ]

  unfoldable pub exists : LogFsFile → K.State → Bool
  exists f s = elim (read_from_log K layout f s) [
    | none ↦ false
    | some out_buffer ↦
        let m = layout.overlay out_buffer in (m.fs_id == f.fs_id) && (m.handle == f.handle)
  ]

  unfoldable pub remove_inode_from_kvs : LogFsFile → K.State → K.State
  remove_inode_from_kvs f s = (K.remove s (inode_key f.handle)).1

  -- close: a file without links is emptied, and its inode removed, whatever SetSize returns.
  unfoldable pub close : LogFsFile → K.State → ℕ → Option (LogFsFile × K.State)
  close f s now = elim (f.meta.n_link == 0) [
    | false ↦ some (f, s)
    | true ↦ elim (set_size K layout f s 0 now) [
      | none ↦ none
      | some (_, f', s') ↦ some (f', remove_inode_from_kvs f' s')
    ]
  ]

-- A LogFSFile that is a directory, with its partitions.
pub record Directory : Type 0 where
  pub file : LogFsFile
  pub part0 : LogFsDirectoryPartition
  pub part1 : LogFsDirectoryPartition

unfoldable pub new_directory : LogFsFile → Directory
new_directory f = record {
  file = f;
  part0 = new_partition 0 f.fs_id f.handle;
  part1 = new_partition 1 f.fs_id f.handle;
}

-- GetPartition(int), where true is partition 1, and the object as a method left it put back.
unfoldable pub get_partition : Bool → Directory → LogFsDirectoryPartition
get_partition false d = d.part0
get_partition true d = d.part1

unfoldable pub set_partition : Bool → LogFsDirectoryPartition → Directory → Directory
set_partition false p d = record d { part0 = p }
set_partition true p d = record d { part1 = p }

unfoldable pub link_meta : Directory → Directory
link_meta d = record d { file = record d.file { meta = add_link d.file.meta } }

module _ (K : KvStore) (layout : MetaLayout) (hash : Bytes → ℕ) where
  -- GetPartition(name): the number of the partition of a name.
  unfoldable pub partition_of : Bytes → Bool
  partition_of name = hash name % 2 == 1

  unfoldable pub find_handle : Directory → K.State → Bytes → Option (ℕ × Directory)
  find_handle d s name =
      elim (Partition.find_entry K (get_partition (partition_of name) d) s name) [
        | none ↦ none
        | some (ino, p) ↦ some (ino, set_partition (partition_of name) p d)
      ]

  unfoldable pub status_of : ℕ → Status
  status_of err = if err == 0 then ok else internal_error

  unfoldable pub insert_entry :
      Directory → K.State → ℕ → Bytes → Option (Status × Directory × K.State)
  insert_entry d s handle name =
      elim (Partition.insert_entry K (get_partition (partition_of name) d) s handle name) [
        | none ↦ none
        | some (err, p, s') ↦ some (status_of err, set_partition (partition_of name) p d, s')
      ]

  unfoldable pub remove_entry :
      Directory → K.State → ℕ → Bytes → Option (Status × Directory × K.State)
  remove_entry d s handle name =
      elim (Partition.remove_entry K (get_partition (partition_of name) d) s handle name) [
        | none ↦ none
        | some (err, p, s') ↦ some (status_of err, set_partition (partition_of name) p d, s')
      ]

  unfoldable pub is_dir_empty : Directory → K.State → Option (Bool × Directory)
  is_dir_empty d s = elim (Partition.is_partition_empty K d.part0 s) [
    | none ↦ none
    | some (false, p0) ↦ some (false, record d { part0 = p0 })
    | some (true, p0) ↦ elim (Partition.is_partition_empty K d.part1 s) [
      | none ↦ none
      | some (empty, p1) ↦ some (empty, record d { part0 = p0; part1 = p1 })
    ]
  ]

  -- connectDots: the status, whether the second entry was made, for which the caller adds a link to the
  -- object of the parent, and the directory.
  unfoldable pub connect_dots :
      Directory → K.State → ℕ → Option (Status × Bool × Directory × K.State)
  connect_dots d s dotdot = elim (insert_entry d s d.file.handle (b'.' ∷ [])) [
    | none ↦ none
    | some (status, d', s') ↦ elim (is_ok status) [
      | false ↦ some (status, false, d', s')
      | true ↦
          let linked = link_meta d' in
          let dirty = record linked { file = record linked.file { meta_dirty = true } } in
          elim (insert_entry dirty s' dotdot (b'.' ∷ b'.' ∷ [])) [
            | none ↦ none
            | some (status', d'', s'') ↦ some (status', is_ok status', d'', s'')
          ]
    ]
  ]

  -- createRoot, of which the root is its own parent.
  unfoldable pub create_root :
      Directory → K.State → ℕ → ℕ → ℕ → Option (Status × Directory × K.State)
  create_root d s user_id group_id now =
      let fresh = record d { file = init_meta user_id group_id now d.file } in
      elim (connect_dots fresh s fresh.file.handle) [
        | none ↦ none
        | some (_, linked, d', s') ↦
            let root = if linked then link_meta d' else d' in
            let (status, s'') = write_to_log K layout root.file s' in some (status, root, s'')
      ]

  -- What `create` leaves: the status, the new object, its parent and the store.
  pub record Created : Type 0 where
    pub status : Status
    pub child : Directory
    pub parent : Directory
    pub store : K.State

  -- create, once the name is in the parent; a directory is given its dots, and then the parent is
  -- written too.
  unfoldable pub create_inode : Bool → Directory → Directory → K.State → Option Created
  create_inode false child parent s =
      let (status, s') = write_to_log K layout child.file s in
      some (record { status = status; child = child; parent = parent; store = s' })
  create_inode true child parent s = elim (connect_dots child s parent.file.handle) [
    | none ↦ none
    | some (_, linked, child', s') ↦
        let parent' = if linked then link_meta parent else parent in
        let (_, s'') = write_to_log K layout parent'.file s' in
        let (status, s3) = write_to_log K layout child'.file s'' in
        some (record { status = status; child = child'; parent = parent'; store = s3 })
  ]

  unfoldable pub create : Directory → Directory → K.State → ℕ → ℕ → ℕ → Option Created
  create child parent s user_id group_id now =
      let fresh = record child { file = init_meta user_id group_id now child.file } in
      elim (insert_entry parent s fresh.file.handle fresh.file.name_string) [
        | none ↦ none
        | some (err, parent', s') ↦ elim (is_ok err) [
          | true ↦ create_inode (is_dir fresh.file.meta.type) (link_meta fresh) parent' s'
          | false ↦
              some (record { status = internal_error; child = fresh; parent = parent'; store = s' })
        ]
      ]

  -- remove: the name is taken out of the parent, and the object loses a link.
  unfoldable pub remove :
      Directory → LogFsFile → K.State → Bytes → Option (Status × LogFsFile × Directory × K.State)
  remove parent f s name = elim (remove_entry parent s f.handle name) [
    | none ↦ none
    | some (err, parent', s') ↦ some (
        if is_ok err
        then (ok, record f { meta = drop_link f.meta }, parent', s')
        else (internal_error, f, parent', s'))
  ]

  -- link, of which the EXPECT allows regular files only: the times of the directory, the links of the
  -- file, and both inodes.
  unfoldable pub link_inodes :
      Directory → LogFsFile → K.State → ℕ → Status × LogFsFile × Directory × K.State
  link_inodes dir file s now =
      let dir' = record dir {
        file = record dir.file { meta = update_m_time now (update_c_time now dir.file.meta) };
      } in
      let file' = record file { meta = update_c_time now (add_link file.meta) } in
      let (status, s') = write_to_log K layout dir'.file s in
      let (_, s'') = write_to_log K layout file' s' in (status, file', dir', s'')

  unfoldable pub is_reg : MetaType → Bool
  is_reg ifreg = true
  is_reg _ = false

  unfoldable pub link :
      Directory
      → LogFsFile
      → K.State
      → Bytes
      → ℕ
      → Option (Status × LogFsFile × Directory × K.State)
  link dir file s name now = elim (insert_entry dir s file.handle name) [
    | none ↦ none
    | some (err, dir', s') ↦ elim (is_ok err) [
      | false ↦ some (internal_error, file, dir', s')
      | true ↦ elim (is_reg file.meta.type) [
        | true ↦ some (link_inodes dir' file s' now)
        | false ↦ none
      ]
    ]
  ]
