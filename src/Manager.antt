-- ===== src/Manager.antt =====
-- src/FileSystemManager.cc, FileSystemManager.h: file system operations by inode number, over objects
-- that are constructed for the one call. The machine gives the clock, the user and the group, the
-- agent, and what an uninitialized `struct stat` holds. `none` is an abort.
pub mod Stored
use kvfs_ra_testing.Base.{
  ℕ, ◌+◌, ◌%◌, ◌^◌, Bool, true, false, Option, none, some, [], Bytes, ◌==◌, if◌then◌else◌,
}
use kvfs_ra_testing.Status.{Status, ok, object_doesnt_exist, is_ok}
use kvfs_ra_testing.Store.{KvStore}
use kvfs_ra_testing.Meta.{
  default_file_initial_size, default_file_chunk_size, add_path_info, get_path_info, or_mask,
}
use kvfs_ra_testing.File.{MetaLayout, LogFsFile, new_file}
use kvfs_ra_testing.File.Fetch.{Fetched}
use kvfs_ra_testing.File.Fetch
use kvfs_ra_testing.File.Resize.{Stat, open_file, stat, evict}
use kvfs_ra_testing.Directory.{Directory, new_directory}
use kvfs_ra_testing.Directory
use kvfs_ra_testing.Tiering.ChangeLog.{FsChangeLog, append}
use kvfs_ra_testing.Mount.{Change, Machine, Operation, mkdir, name_change}
use kvfs_ra_testing.Mount.Names.{s_ifdir}
use kvfs_ra_testing.Tiering.Agents.{s_isreg}

-- FileSystemManager; its change log is none for a null pointer, as in a snapshot.
pub record FileSystemManager (S : Type 0) : Type 0 where
  pub change_log : Option (FsChangeLog Change)
  pub handle_id : ℕ
  pub store : S

-- FUSE_ROOT_ID
abbrev pub root_handle : ℕ
root_handle = 1

-- The LogFSFile that an operation constructs, without a name.
unfoldable pub file_of : ℕ → ℕ → ℕ → LogFsFile
file_of fs_id handle mode =
    new_file fs_id [] handle mode default_file_initial_size default_file_chunk_size

module _ {S : Type 0} where
  unfoldable pub new_manager : S → FileSystemManager S
  new_manager store = record { change_log = none; handle_id = root_handle; store = store }

  unfoldable pub mount_file_system :
      Option (FsChangeLog Change) → FileSystemManager S → FileSystemManager S
  mount_file_system change_log fs = record fs { change_log = change_log }

  -- MountSnapshot, where the snapshot of the store is its state.
  unfoldable pub mount_snapshot : FileSystemManager S → FileSystemManager S
  mount_snapshot fs = new_manager fs.store

  unfoldable pub get_next_handle_id : FileSystemManager S → ℕ × FileSystemManager S
  get_next_handle_id fs =
      let next = (fs.handle_id + 1) % 2 ^ 64 in (next, record fs { handle_id = next })

  unfoldable pub set_next_inode : ℕ → FileSystemManager S → FileSystemManager S
  set_next_inode id fs = record fs { handle_id = id }

  -- The entry of MKDIR, by a null pointer or a log.
  unfoldable pub log_mkdir :
      Option (FsChangeLog Change) → ℕ → ℕ → ℕ → FileSystemManager S → Option (FileSystemManager S)
  log_mkdir none fs_id ino parent fs = none
  log_mkdir (some log) fs_id ino parent fs = some (record fs {
    change_log =
        some (
          (append log (record { xid = none; change = name_change mkdir fs_id ino parent none })).1);
  })

  unfoldable pub log_if_ok :
      Status → ℕ → ℕ → ℕ → FileSystemManager S → Option (Status × FileSystemManager S)
  log_if_ok status fs_id ino parent fs = elim (is_ok status) [
    | false ↦ some (status, fs)
    | true ↦ elim (log_mkdir fs.change_log fs_id ino parent fs) [
      | none ↦ none
      | some fs' ↦ some (status, fs')
    ]
  ]

module _ (K : KvStore) (layout : MetaLayout) (hash : Bytes → ℕ) (machine : Machine) where
  unfoldable pub create_root :
      ℕ → ℕ → FileSystemManager K.State → Option (Status × FileSystemManager K.State)
  create_root fs_id mode fs =
      elim (Directory.create_root K layout hash
        (new_directory (file_of fs_id root_handle (or_mask true mode s_ifdir))) fs.store
        machine.user_id machine.group_id machine.now) [
          | none ↦ none
          | some (status, _, s') ↦
              log_if_ok status fs_id root_handle root_handle (record fs { store = s' })
        ]

  -- addDirectory, for the directory of the new handle with its path information.
  unfoldable pub create_directory :
      ℕ
      → ℕ
      → ℕ
      → Directory
      → ℕ
      → FileSystemManager K.State
      → Option (Status × FileSystemManager K.State)
  create_directory fs_id parent_handle dir_handle dir mode fs =
      elim (Directory.create K layout hash dir (new_directory (file_of fs_id parent_handle mode))
        fs.store machine.user_id machine.group_id machine.now) [
          | none ↦ none
          | some c ↦
              log_if_ok c.status fs_id dir_handle parent_handle (record fs { store = c.store })
        ]

  -- The status, the new handle, and the file system.
  unfoldable pub add_directory :
      ℕ
      → ℕ
      → Bytes
      → ℕ
      → FileSystemManager K.State
      → Option (Status × ℕ × FileSystemManager K.State)
  add_directory fs_id parent_handle dir_name mode fs =
      let (dir_handle, fs') = get_next_handle_id fs in
      let dir_mode = or_mask true mode s_ifdir in
      let f = record (file_of fs_id dir_handle dir_mode) { name_string = dir_name } in
      elim (add_path_info parent_handle dir_name f.meta) [
        | none ↦ none
        | some meta ↦
            elim (create_directory fs_id parent_handle dir_handle
              (new_directory (record f { meta = meta })) dir_mode fs') [
                | none ↦ none
                | some (status, fs'') ↦ some (status, dir_handle, fs'')
              ]
      ]

  -- readFile: the status, the length, and the bytes laid in the buffer.
  unfoldable pub read_file :
      ℕ
      → ℕ
      → ℕ
      → ℕ
      → FileSystemManager K.State
      → Option (Status × ℕ × Bytes × FileSystemManager K.State)
  read_file fs_id handle offset length fs =
      elim (open_file K layout (file_of fs_id handle 0) fs.store) [
        | none ↦ none
        | some (false, f) ↦ some (object_doesnt_exist, 0, [], fs)
        | some (true, f) ↦
            elim (Fetch.read K layout machine.now machine.agent f fs.store offset length true) [
              | none ↦ none
              | some r ↦ some (r.status, r.actual_len, r.out, record fs { store = r.store })
            ]
      ]

  -- The values that statFile puts in for anything but a regular file.
  unfoldable pub fake_stat : ℕ → Stat → Stat
  fake_stat fs_id st = record st {
    st_mode = 0o040777;
    st_uid = machine.user_id;
    st_gid = machine.group_id;
    st_dev = fs_id;
    st_rdev = 0;
    st_nlink = 2;
    st_ctime = machine.now % 2 ^ 32;
    st_atime = machine.now % 2 ^ 32;
    st_mtime = machine.now % 2 ^ 32;
  }

  unfoldable pub or_faked : ℕ → Stat → Stat
  or_faked fs_id st = if s_isreg st.st_mode then st else fake_stat fs_id st

  unfoldable pub stat_file : ℕ → ℕ → FileSystemManager K.State → Status × Stat
  stat_file fs_id handle fs = elim (stat K layout (file_of fs_id handle 0) fs.store).0 [
    | none ↦ (object_doesnt_exist, or_faked fs_id machine.uninitialized)
    | some st ↦ (ok, or_faked fs_id st)
  ]

  -- getPathInfo: the parent and the name, if STATUS_OK.
  unfoldable pub path_info : ℕ → ℕ → FileSystemManager K.State → Option (Option (ℕ × Bytes))
  path_info fs_id handle fs = elim (open_file K layout (file_of fs_id handle 0) fs.store) [
    | none ↦ none
    | some (false, f) ↦ some none
    | some (true, f) ↦ some (some (get_path_info f.meta))
  ]

  unfoldable pub open_file_by : ℕ → ℕ → FileSystemManager K.State → Option Status
  open_file_by fs_id handle fs = elim (open_file K layout (file_of fs_id handle 0) fs.store) [
    | none ↦ none
    | some (found, f) ↦ some (if found then ok else object_doesnt_exist)
  ]

  unfoldable pub evict_by : ℕ → ℕ → FileSystemManager K.State → Status × FileSystemManager K.State
  evict_by fs_id handle fs =
      let (status, _, s') = evict K layout (file_of fs_id handle 0) fs.store in
      (status, record fs { store = s' })
