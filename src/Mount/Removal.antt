-- ===== src/Mount/Removal.antt =====
-- The handlers of src/kvfs_mount.cc that take names away and that add a second one: Rmdir, Unlink and
-- Link of FuseKvfsInode. `this` is the inode number of the directory.
use kvfs_ra_testing.Base.{ℕ, true, false, Option, none, some, Bytes, ◌==◌, if◌then◌else◌}
use kvfs_ra_testing.Status.{status_to_errno, enoent, eexist, enotdir}
use kvfs_ra_testing.Store.{KvStore}
use kvfs_ra_testing.File.{MetaLayout}
use kvfs_ra_testing.Directory
use kvfs_ra_testing.Mount
use kvfs_ra_testing.Mount.{
  Machine, KvfsMount, Reply, reply_err, reply_entry, invalid, name_change, inode_at, put_store,
  log_change, set_dir, set_file, set_state, set_xid,
}
use kvfs_ra_testing.Mount.Cache.{hold_inode, next_xid, refresh_at, release}
use kvfs_ra_testing.Mount.Names.{s_isdir, update_inode, find_child}

module _ (K : KvStore) (layout : MetaLayout) (hash : Bytes → ℕ) (machine : Machine) where
  -- child->file.remove(&file, name): the errno, and both objects put back.
  unfoldable pub remove_file : ℕ → ℕ → Bytes → KvfsMount K.State → Option (ℕ × KvfsMount K.State)
  remove_file this child name m =
      elim (Directory.remove K layout hash (inode_at machine m this).dir
        (inode_at machine m child).dir.file m.store name) [
          | none ↦ none
          | some (status, f, parent, s') ↦ some (
            status_to_errno status,
            put_store s' (
                update_inode machine child (set_file f)
                  (update_inode machine this (set_dir parent) m)),
          )
        ]

  -- Release(1) of the child, and the reply with the errno.
  unfoldable pub release_and_reply : ℕ → ℕ → KvfsMount K.State → Option (Reply × KvfsMount K.State)
  release_and_reply child err m = elim (release K layout machine 1 child m) [
    | none ↦ none
    | some (_, m') ↦ some (reply_err err, m')
  ]

  -- The entry of RMDIR, which is given an xid of its own, after the one that the inodes have.
  unfoldable pub log_rmdir : ℕ → ℕ → Bytes → ℕ → KvfsMount K.State → KvfsMount K.State
  log_rmdir this child name err m =
      if err == 0
      then log_change none
          (name_change Mount.Operation.rmdir m.fs_id child (inode_at machine m this).attr.st_ino
            (some name))
          m
      else m

  unfoldable pub rmdir_child :
      ℕ → ℕ → Bytes → KvfsMount K.State → Option (Reply × KvfsMount K.State)
  rmdir_child this child name m = elim (s_isdir (inode_at machine m child).attr.st_mode) [
    | false ↦ release_and_reply child enotdir m
    | true ↦
        let (xid, m1) = next_xid m in
        let m2 =
          update_inode machine this (set_xid xid) (update_inode machine child (set_xid xid) m1) in
        elim (remove_file this child name m2) [
          | none ↦ none
          | some (err, m3) ↦ release_and_reply child err (log_rmdir this child name err m3)
        ]
  ]

  unfoldable pub rmdir : ℕ → Bytes → KvfsMount K.State → Option (Reply × KvfsMount K.State)
  rmdir this name m = elim (find_child K layout hash machine this name m) [
    | none ↦ none
    | some (child, m') ↦ elim (child == 0) [
      | true ↦ some (reply_err enoent, m')
      | false ↦ rmdir_child this child name (hold_inode machine child m')
    ]
  ]

  unfoldable pub log_unlink : ℕ → ℕ → ℕ → KvfsMount K.State → KvfsMount K.State
  log_unlink this child err m =
      if err == 0
      then log_change none
          (name_change Mount.Operation.unlink m.fs_id child (inode_at machine m this).attr.st_ino
            none)
          m
      else m

  unfoldable pub unlink_child :
      ℕ → ℕ → Bytes → KvfsMount K.State → Option (Reply × KvfsMount K.State)
  unlink_child this child name m = elim (remove_file this child name m) [
    | none ↦ none
    | some (err, m1) ↦ elim (release K layout machine 1 child m1) [
      | none ↦ none
      | some (_, m2) ↦ some (reply_err err, log_unlink this child err m2)
    ]
  ]

  unfoldable pub unlink : ℕ → Bytes → KvfsMount K.State → Option (Reply × KvfsMount K.State)
  unlink this name m = elim (find_child K layout hash machine this name m) [
    | none ↦ none
    | some (child, m') ↦ elim (child == 0) [
      | true ↦ some (reply_err enoent, m')
      | false ↦ unlink_child this child name (hold_inode machine child m')
    ]
  ]

  -- file.link(&inodep->file, name), for an inode other than `this`.
  unfoldable pub link_file : ℕ → ℕ → Bytes → KvfsMount K.State → Option (ℕ × KvfsMount K.State)
  link_file this ino name m =
      elim (Directory.link K layout hash (inode_at machine m this).dir
        (inode_at machine m ino).dir.file m.store name machine.now) [
          | none ↦ none
          | some (status, f, d, s') ↦ some (
            status_to_errno status,
            put_store s'
                (update_inode machine ino (set_file f) (update_inode machine this (set_dir d) m)),
          )
        ]

  -- Link after the file is linked and released; the attributes are those from before the link.
  unfoldable pub finish_link : ℕ → ℕ → ℕ → KvfsMount K.State → Reply × KvfsMount K.State
  finish_link this ino err m =
      let i = inode_at machine m ino in
      if err == 0
      then (
        reply_entry i.attr.st_ino i.attr,
        log_change none
            (name_change Mount.Operation.link m.fs_id ino (inode_at machine m this).attr.st_ino
              none)
            (update_inode machine this (set_state invalid)
              (update_inode machine ino (set_state invalid) m)),
      )
      else (reply_err err, m)

  unfoldable pub link_child : ℕ → ℕ → Bytes → KvfsMount K.State → Option (Reply × KvfsMount K.State)
  link_child this ino name m =
      elim (link_file this ino name
        (refresh_at K layout machine ino (hold_inode machine ino m)).1) [
          | none ↦ none
          | some (err, m1) ↦ elim (release K layout machine 1 ino m1) [
            | none ↦ none
            | some (_, m2) ↦ some (finish_link this ino err m2)
          ]
        ]

  -- Link, whatever its Refresh returns.
  unfoldable pub link : ℕ → ℕ → Bytes → KvfsMount K.State → Option (Reply × KvfsMount K.State)
  link this ino name m =
      elim (find_child K layout hash machine this name (refresh_at K layout machine this m).1) [
        | none ↦ none
        | some (child, m') ↦ elim (child == 0) [
          | false ↦ some (reply_err eexist, m')
          | true ↦ link_child this ino name m'
        ]
      ]
