-- ===== src/Mount/Cache.antt =====
-- The map of inodes of src/kvfs_mount.cc: GetInode, Hold, Release, FreeInode, GetNextIno; and what keeps
-- `attr` at the state of the file: Refresh, Getattr, Evict. A count of lookups that would go below 0
-- is set to 0, as subtraction does here.
use kvfs_ra_testing.Base.{
  ℕ, ◌+◌, ◌-◌, ◌%◌, ◌^◌, Bool, true, false, Option, none, some, ◌==◌, if◌then◌else◌,
}
use kvfs_ra_testing.Status.{Status, object_doesnt_exist, status_to_errno}
use kvfs_ra_testing.Store.{KvStore}
use kvfs_ra_testing.File.{MetaLayout, LogFsFile}
use kvfs_ra_testing.File.Resize.{Stat, stat, evict}
use kvfs_ra_testing.Directory.{close}
use kvfs_ra_testing.Tiering.ChangeLog.{take_xid}
use kvfs_ra_testing.Mount.{
  InodeState, invalid, clean, dirty, FuseKvfsInode, Machine, KvfsMount, map_find, map_erase,
  inode_at, put_inode, put_store, set_file, set_state,
}

-- Hold(n)
unfoldable pub hold_by : ℕ → FuseKvfsInode → FuseKvfsInode
hold_by n i = record i { nlookup = i.nlookup + n }

module _ {S : Type 0} where
  -- GetInode(ino, true): the object is constructed if it is not in the map, and is held.
  unfoldable pub hold_inode : Machine → ℕ → KvfsMount S → KvfsMount S
  hold_inode machine ino m = put_inode ino (hold_by 1 (inode_at machine m ino)) m

  -- GetInode, with whether there is an object.
  unfoldable pub get_inode : Machine → ℕ → Bool → KvfsMount S → Bool × KvfsMount S
  get_inode machine ino true m = (true, hold_inode machine ino m)
  get_inode machine ino false m = elim (map_find ino m.inode_map) [
    | none ↦ (false, m)
    | some i ↦ (true, put_inode ino (hold_by 1 i) m)
  ]

  unfoldable pub free_inode : Machine → ℕ → KvfsMount S → KvfsMount S
  free_inode machine ino m = record m {
    inode_map = map_erase (inode_at machine m ino).attr.st_ino m.inode_map;
  }

  -- GetNextIno: the counter is moved first.
  unfoldable pub get_next_ino : KvfsMount S → ℕ × KvfsMount S
  get_next_ino m = let next = (m.handle_id + 1) % 2 ^ 64 in (next, record m { handle_id = next })

  -- get_change_log()->NextXid()
  unfoldable pub next_xid : KvfsMount S → ℕ × KvfsMount S
  next_xid m = let (xid, log) = take_xid m.change_log in (xid, record m { change_log = log })

module _ (K : KvStore) (layout : MetaLayout) where
  unfoldable pub refreshed_by : Option Stat × LogFsFile → FuseKvfsInode → ℕ × FuseKvfsInode
  refreshed_by (some st, f) i = (0, set_state clean (set_file f (record i { attr = st })))
  refreshed_by (none, f) i = (status_to_errno object_doesnt_exist, set_file f i)

  unfoldable pub refresh_from : InodeState → FuseKvfsInode → K.State → ℕ × FuseKvfsInode
  refresh_from invalid i s = refreshed_by (stat K layout i.dir.file s) i
  refresh_from clean i s = (0, i)
  refresh_from dirty i s = (0, i)

  -- Refresh: the errno, and the object.
  unfoldable pub refresh : FuseKvfsInode → K.State → ℕ × FuseKvfsInode
  refresh i s = refresh_from i.state i s

  unfoldable pub refresh_at : Machine → ℕ → KvfsMount K.State → ℕ × KvfsMount K.State
  refresh_at machine ino m =
      let (err, i) = refresh (inode_at machine m ino) m.store in (err, put_inode ino i m)

  -- Release(n): the count that is left, and at 0 the file is closed.
  unfoldable pub release : Machine → ℕ → ℕ → KvfsMount K.State → Option (ℕ × KvfsMount K.State)
  release machine n ino m =
      let i = inode_at machine m ino in
      let left = i.nlookup - n in
      let i' = record i { nlookup = left } in
      elim (left == 0) [
        | false ↦ some (left, put_inode ino i' m)
        | true ↦ elim (close K layout i'.dir.file m.store machine.now) [
          | none ↦ none
          | some (f, s') ↦ some (left, put_store s' (put_inode ino (set_file f i') m))
        ]
      ]

  -- Getattr(struct stat*): the errno, and the attributes if there is none.
  unfoldable pub getattr : Machine → ℕ → KvfsMount K.State → ℕ × Option Stat × KvfsMount K.State
  getattr machine ino m =
      let (err, m') = refresh_at machine ino m in
      (err, if err == 0 then some (inode_at machine m' ino).attr else none, m')

  -- Evict, whatever Refresh returns.
  unfoldable pub evict_inode : Machine → ℕ → KvfsMount K.State → Status × KvfsMount K.State
  evict_inode machine ino m =
      let (_, m') = refresh_at machine ino m in
      let i = inode_at machine m' ino in
      let (status, f, s') = evict K layout i.dir.file m'.store in
      (status, put_store s' (put_inode ino (set_file f i) m'))
