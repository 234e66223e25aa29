-- ===== src/Mount/Names.antt =====
-- The handlers of src/kvfs_mount.cc that look up, make and remove names: Lookup, Create, Mkdir, Rmdir,
-- Unlink and Link of FuseKvfsInode. `this` is the inode number of the directory.
use kvfs_ra_testing.Base.{ℕ, Bool, true, false, Option, none, some, Bytes, ◌==◌, if◌then◌else◌}
use kvfs_ra_testing.Status.{status_to_errno, enoent, eexist}
use kvfs_ra_testing.Store.{KvStore}
use kvfs_ra_testing.Meta.{add_path_info, or_mask, file_type}
use kvfs_ra_testing.File.{MetaLayout}
use kvfs_ra_testing.Directory.{find_handle}
use kvfs_ra_testing.Mount.{
  FuseKvfsInode, InodeState, invalid, clean, Machine, KvfsMount, Reply, reply_err, reply_entry,
  reply_create, creat, name_change, inode_at, put_inode, put_store, log_change, set_dir, set_file,
  set_state, set_xid,
}
use kvfs_ra_testing.Directory
use kvfs_ra_testing.Mount.Cache.{hold_inode, get_next_ino, next_xid, refresh_at, release}

-- set_name and set_mode; `mode_t` of the file and of `attr`.
unfoldable pub set_name : Bytes → FuseKvfsInode → FuseKvfsInode
set_name name i = set_file (record i.dir.file { name_string = name }) i

unfoldable pub set_mode : ℕ → FuseKvfsInode → FuseKvfsInode
set_mode mode i =
    let i' = set_file (record i.dir.file { mode = mode }) i in
    record i' { attr = record i'.attr { st_mode = mode } }

-- S_ISDIR
unfoldable pub s_isdir : ℕ → Bool
s_isdir mode = file_type mode == 0o040000

abbrev pub s_ifdir : ℕ
s_ifdir = 0o040000

module _ {S : Type 0} (machine : Machine) where
  -- A change of the object of `ino` in the map.
  unfoldable pub update_inode : ℕ → (FuseKvfsInode → FuseKvfsInode) → KvfsMount S → KvfsMount S
  update_inode ino change m = put_inode ino (change (inode_at machine m ino)) m

  -- The object of a child before its file is created, with the parent's number in its metadata.
  unfoldable pub name_child : ℕ → ℕ → Bytes → ℕ → ℕ → KvfsMount S → Option (KvfsMount S)
  name_child this child name mode xid m =
      let i = set_state invalid (set_mode mode (set_name name (inode_at machine m child))) in
      elim (add_path_info (inode_at machine m this).attr.st_ino name i.dir.file.meta) [
        | none ↦ none
        | some meta ↦
            let i' = set_xid xid (set_file (record i.dir.file { meta = meta }) i) in
            some (update_inode this (set_xid xid) (put_inode child i' m))
      ]

module _ (K : KvStore) (layout : MetaLayout) (hash : Bytes → ℕ) (machine : Machine) where
  -- file.findHandle(name) on `this`.
  unfoldable pub find_child : ℕ → Bytes → KvfsMount K.State → Option (ℕ × KvfsMount K.State)
  find_child this name m =
      elim (find_handle K layout hash (inode_at machine m this).dir m.store name) [
        | none ↦ none
        | some (child, d) ↦ some (child, update_inode machine this (set_dir d) m)
      ]

  -- Lookup, once the child is known and has been refreshed.
  unfoldable pub answer_by :
      InodeState → FuseKvfsInode → ℕ → ℕ → KvfsMount K.State → Option (Reply × KvfsMount K.State)
  answer_by invalid i err child m = if err == 0 then none else some (reply_err err, m)
  answer_by _ i err child m = some (
    if err == 0 then reply_entry i.attr.st_ino i.attr else reply_err err,
    put_inode child (set_state clean i) m,
  )

  unfoldable pub answer_entry : ℕ → ℕ → KvfsMount K.State → Option (Reply × KvfsMount K.State)
  answer_entry err child m = let i = inode_at machine m child in answer_by i.state i err child m

  unfoldable pub lookup_child : ℕ → KvfsMount K.State → Option (Reply × KvfsMount K.State)
  lookup_child child m =
      let (err, m') = refresh_at K layout machine child (hold_inode machine child m) in
      answer_entry err child m'

  unfoldable pub lookup : ℕ → Bytes → KvfsMount K.State → Option (Reply × KvfsMount K.State)
  lookup this name m = elim (find_child this name m) [
    | none ↦ none
    | some (child, m') ↦ elim (child == 0) [
      | true ↦ some (reply_err enoent, m')
      | false ↦ lookup_child child m'
    ]
  ]

  -- new_inodep->file.create(&file): the errno, and both objects put back.
  unfoldable pub create_file : ℕ → ℕ → KvfsMount K.State → Option (ℕ × KvfsMount K.State)
  create_file this child m =
      elim (Directory.create K layout hash (inode_at machine m child).dir
        (inode_at machine m this).dir m.store machine.user_id machine.group_id machine.now) [
          | none ↦ none
          | some c ↦ some (
            status_to_errno c.status,
            put_store c.store (
                update_inode machine this (set_dir c.parent)
                  (update_inode machine child (set_dir c.child) m)),
          )
        ]

  -- A new inode with its file, for Create and Mkdir: the errno, and the mount.
  unfoldable pub make_child :
      ℕ → ℕ → Bytes → ℕ → ℕ → KvfsMount K.State → Option (ℕ × KvfsMount K.State)
  make_child this child name mode xid m =
      elim (name_child machine this child name mode xid (hold_inode machine child m)) [
        | none ↦ none
        | some m' ↦ create_file this child m'
      ]

  -- The entry of the change log, the refresh of the child, which is expected to succeed, and the
  -- attributes for the reply.
  unfoldable pub log_child :
      ℕ → ℕ → Bytes → ℕ → KvfsMount K.State → Option (FuseKvfsInode × KvfsMount K.State)
  log_child this child name xid m =
      let m' =
        log_change (some xid)
          (name_change creat m.fs_id child (inode_at machine m this).attr.st_ino (some name)) m in
      let (err, m'') = refresh_at K layout machine child m' in
      if err == 0 then some (inode_at machine m'' child, m'') else none

  unfoldable pub finish_create :
      ℕ → ℕ → Bytes → ℕ → ℕ → KvfsMount K.State → Option (Reply × KvfsMount K.State)
  finish_create this child name xid err m = elim (err == 0) [
    | false ↦ some (reply_err err, m)
    | true ↦ elim (log_child this child name xid m) [
      | none ↦ none
      | some (i, m') ↦ some (reply_create child i.attr, m')
    ]
  ]

  unfoldable pub create_new : ℕ → Bytes → ℕ → KvfsMount K.State → Option (Reply × KvfsMount K.State)
  create_new this name mode m =
      let (xid, m1) = next_xid m in
      let (child, m2) = get_next_ino m1 in
      elim (make_child this child name mode xid m2) [
        | none ↦ none
        | some (err, m3) ↦ finish_create this child name xid err m3
      ]

  unfoldable pub create : ℕ → Bytes → ℕ → KvfsMount K.State → Option (Reply × KvfsMount K.State)
  create this name mode m = elim (find_child this name m) [
    | none ↦ none
    | some (child, m') ↦ elim (child == 0) [
      | false ↦ some (reply_err eexist, m')
      | true ↦ create_new this name mode m'
    ]
  ]

  unfoldable pub finish_mkdir :
      ℕ → ℕ → Bytes → ℕ → ℕ → KvfsMount K.State → Option (Reply × KvfsMount K.State)
  finish_mkdir this child name xid err m = elim (err == 0) [
    | false ↦ elim (release K layout machine 1 child m) [
      | none ↦ none
      | some (_, m') ↦ some (reply_err err, m')
    ]
    | true ↦
        elim (log_child this child name xid (update_inode machine this (set_state invalid) m)) [
          | none ↦ none
          | some (i, m') ↦ some (reply_entry child i.attr, m')
        ]
  ]

  unfoldable pub mkdir_new : ℕ → Bytes → ℕ → KvfsMount K.State → Option (Reply × KvfsMount K.State)
  mkdir_new this name mode m =
      let (xid, m1) = next_xid m in
      let (child, m2) = get_next_ino m1 in
      elim (make_child this child name (or_mask true mode s_ifdir) xid m2) [
        | none ↦ none
        | some (err, m3) ↦ finish_mkdir this child name xid err m3
      ]

  -- Mkdir, whatever its Refresh returns.
  unfoldable pub mkdir : ℕ → Bytes → ℕ → KvfsMount K.State → Option (Reply × KvfsMount K.State)
  mkdir this name mode m = elim (find_child this name (refresh_at K layout machine this m).1) [
    | none ↦ none
    | some (child, m') ↦ elim (child == 0) [
      | false ↦ some (reply_err eexist, m')
      | true ↦ mkdir_new this name mode m'
    ]
  ]
