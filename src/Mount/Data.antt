-- ===== src/Mount/Data.antt =====
-- The handlers of src/kvfs_mount.cc for data and attributes: Getattr, Setattr, Read, Write and Flush of
-- FuseKvfsInode. `this` is the inode number of the file.
use kvfs_ra_testing.Base.{
  ℕ, ◌+◌, max, Bool, true, false, Option, none, some, Bytes, take, ◌==◌, if◌then◌else◌,
}
use kvfs_ra_testing.Status.{status_to_errno, is_ok}
use kvfs_ra_testing.Store.{KvStore}
use kvfs_ra_testing.File.{MetaLayout, flush}
use kvfs_ra_testing.File.Write.{Written}
use kvfs_ra_testing.File.Write
use kvfs_ra_testing.File.Fetch.{Fetched}
use kvfs_ra_testing.File.Fetch
use kvfs_ra_testing.File.Resize.{Stat, set_size}
use kvfs_ra_testing.Directory.{set_attr}
use kvfs_ra_testing.Mount
use kvfs_ra_testing.Mount.{
  FuseKvfsInode, InodeState, invalid, clean, dirty, Machine, KvfsMount, Reply, reply_err,
  reply_attr, reply_buf, reply_write, Change, commit, change_of, inode_at, put_inode, put_store,
  log_change, set_file, set_state, set_xid,
}
use kvfs_ra_testing.Mount.Cache.{next_xid, refresh_at}
use kvfs_ra_testing.Mount.Names.{update_inode}

-- The bits of `to_set`, by the names that FUSE gives them; `others` is whether a bit other than
-- FUSE_SET_ATTR_SIZE is set.
pub record ToSet : Type 0 where
  pub size : Bool
  pub mode : Bool
  pub uid : Bool
  pub gid : Bool
  pub atime : Bool
  pub mtime : Bool
  pub atime_now : Bool
  pub mtime_now : Bool
  pub others : Bool

-- The attributes that Setattr makes of the old ones.
unfoldable pub chosen_attr : ToSet → Stat → Stat → ℕ → Stat
chosen_attr to_set attr set_attr now = record attr {
  st_mode = if to_set.mode then set_attr.st_mode else attr.st_mode;
  st_uid = if to_set.uid then set_attr.st_uid else attr.st_uid;
  st_gid = if to_set.gid then set_attr.st_gid else attr.st_gid;
  st_atime =
      if to_set.atime_now then now else if to_set.atime then set_attr.st_atime else attr.st_atime;
  st_mtime =
      if to_set.mtime_now then now else if to_set.mtime then set_attr.st_mtime else attr.st_mtime;
}

-- The change that Write logs, of the bytes that were written.
unfoldable pub commit_change : ℕ → ℕ → ℕ → ℕ → Change
commit_change fs_id ino off actual_len = record (change_of commit fs_id ino) {
  begin_offset = some off;
  end_offset = some (off + actual_len);
}

module _ (K : KvStore) (layout : MetaLayout) (machine : Machine) where
  -- Getattr(req, fi)
  unfoldable pub getattr_reply : ℕ → KvfsMount K.State → Reply × KvfsMount K.State
  getattr_reply this m =
      let (err, m') = refresh_at K layout machine this m in
      (if err == 0 then reply_attr (inode_at machine m' this).attr else reply_err err, m')

  unfoldable pub read_reply : Fetched K.State → Reply
  read_reply r =
      if status_to_errno r.status == 0
      then reply_buf (take r.actual_len r.out)
      else reply_err (status_to_errno r.status)

  unfoldable pub read_file : ℕ → ℕ → ℕ → KvfsMount K.State → Option (Reply × KvfsMount K.State)
  read_file this size off m =
      elim (Fetch.read K layout machine.now machine.agent (inode_at machine m this).dir.file m.store
        off size true) [
          | none ↦ none
          | some r ↦
              some (read_reply r, put_store r.store (update_inode machine this (set_file r.file) m))
        ]

  unfoldable pub read : ℕ → ℕ → ℕ → KvfsMount K.State → Option (Reply × KvfsMount K.State)
  read this size off m =
      let (err, m') = refresh_at K layout machine this m in
      elim (err == 0) [ false ↦ some (reply_err err, m') | true ↦ read_file this size off m' ]

  -- The object after a write that returned STATUS_OK.
  unfoldable pub grown_attr : ℕ → ℕ → FuseKvfsInode → FuseKvfsInode
  grown_attr off actual_len i = set_state dirty (record i {
    attr = record i.attr {
      st_size = max i.attr.st_size (off + actual_len);
      st_mtime = machine.now;
    };
  })

  unfoldable pub finish_write :
      ℕ → ℕ → Written K.State → KvfsMount K.State → Reply × KvfsMount K.State
  finish_write this off w m =
      let m' = put_store w.store (update_inode machine this (set_file w.file) m) in
      if is_ok w.status
      then (
        reply_write w.actual_len,
        log_change none
            (commit_change m.fs_id (inode_at machine m' this).attr.st_ino off w.actual_len)
            (update_inode machine this (grown_attr off w.actual_len) m'),
      )
      else (reply_err (status_to_errno w.status), m')

  -- Write, whatever its Refresh returns.
  unfoldable pub write : ℕ → Bytes → ℕ → ℕ → KvfsMount K.State → Option (Reply × KvfsMount K.State)
  write this buf size off m =
      let m' = (refresh_at K layout machine this m).1 in
      elim (Write.write K layout (inode_at machine m' this).dir.file m'.store off size (some buf)
        true machine.now) [ none ↦ none | some w ↦ some (finish_write this off w m') ]

  -- Flush, of an object that has to be valid.
  unfoldable pub flush_by :
      InodeState → FuseKvfsInode → ℕ → KvfsMount K.State → Option (Reply × KvfsMount K.State)
  flush_by invalid i this m = none
  flush_by _ i this m =
      let (status, f, s') = flush K layout i.dir.file m.store in
      some (
        reply_err (status_to_errno status),
        put_store s' (update_inode machine this (set_file f) m),
      )

  unfoldable pub flush_inode : ℕ → KvfsMount K.State → Option (Reply × KvfsMount K.State)
  flush_inode this m = let i = inode_at machine m this in flush_by i.state i this m

  -- The size of Setattr: the errno, and the mount.
  unfoldable pub resize_attr : ℕ → FuseKvfsInode → FuseKvfsInode
  resize_attr st_size i =
      if i.attr.st_size == st_size
      then i
      else set_state dirty (record i { attr = record i.attr { st_size = st_size } })

  unfoldable pub set_size_attr : ℕ → ℕ → ℕ → KvfsMount K.State → Option (ℕ × KvfsMount K.State)
  set_size_attr this xid st_size m =
      let i = set_xid xid (inode_at machine m this) in
      elim (set_size K layout i.dir.file m.store st_size machine.now) [
        | none ↦ none
        | some (status, f, s') ↦ some (
          status_to_errno status,
          put_store s' (put_inode this (resize_attr st_size (set_file f i)) m),
        )
      ]

  -- The other attributes, of which SetAttr does not write the inode. What it returns is dropped.
  unfoldable pub set_other_attr : ℕ → ℕ → ToSet → Stat → KvfsMount K.State → KvfsMount K.State
  set_other_attr this xid to_set new m =
      let i = set_xid xid (inode_at machine m this) in
      let new_attr = chosen_attr to_set i.attr new machine.now in
      let (_, f) = set_attr K layout i.dir.file m.store new_attr in
      put_inode this (set_state clean (record (set_file f i) { attr = new_attr })) m

  unfoldable pub finish_setattr :
      ℕ → ℕ → ToSet → Stat → ℕ → KvfsMount K.State → Reply × KvfsMount K.State
  finish_setattr this xid to_set new err m =
      let m' = if to_set.others then set_other_attr this xid to_set new m else m in
      let i = inode_at machine m' this in
      if err == 0
      then (
        reply_attr i.attr,
        log_change (some xid)
            (record (change_of Mount.Operation.setattr m.fs_id i.attr.st_ino) {
              end_offset = some i.dir.file.meta.file_total_size;
            })
            m',
      )
      else (reply_err err, m)

  unfoldable pub setattr : ℕ → Stat → ToSet → KvfsMount K.State → Option (Reply × KvfsMount K.State)
  setattr this new to_set m =
      let (xid, m1) = next_xid m in
      let (err, m2) = refresh_at K layout machine this m1 in
      elim to_set.size [
        | false ↦ some (finish_setattr this xid to_set new err m2)
        | true ↦ elim (set_size_attr this xid new.st_size m2) [
          | none ↦ none
          | some (err', m3) ↦ some (finish_setattr this xid to_set new err' m3)
        ]
      ]
