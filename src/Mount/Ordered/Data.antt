-- ===== src/Mount/Ordered/Data.antt =====
-- Read, Write, Flush and Setattr of src/kvfs_mount.cc keep the xids of the change log in order.
use kvfs_ra_testing.Base.{
  ℕ, ◌≡◌, refl, inl, inr, Bytes, ◌==◌, Bool-cases, Ensures-none, Ensures-each, Ensures-test,
  if-both,
}
use kvfs_ra_testing.Store.{KvStore}
use kvfs_ra_testing.File.{MetaLayout}
use kvfs_ra_testing.File.Resize.{Stat}
use kvfs_ra_testing.File.Write.{Written}
use kvfs_ra_testing.Status.{is_ok}
use kvfs_ra_testing.Mount.{
  InodeState, FuseKvfsInode, invalid, clean, dirty, Machine, KvfsMount, put_inode, put_store,
  set_file,
}
use kvfs_ra_testing.Mount.Cache.{next_xid, refresh_at}
use kvfs_ra_testing.Mount.Names.{update_inode}
use kvfs_ra_testing.Mount.Data
use kvfs_ra_testing.Mount.Data.{
  ToSet, getattr_reply, finish_write, flush_by, flush_inode, set_other_attr, finish_setattr,
}
use kvfs_ra_testing.Mount.Kept.{log-refresh_at, log-read_file, log-set_size_attr, log-update_inode}
use kvfs_ra_testing.Mount.Ordered.{
  Ordered, Pending, Ordered-same, Pending-same, Pending-Ordered, next_xid-Pending, log_change-next,
  log_change-taken, Keeps, Keeps-reply, Keeps-after-Pending,
}

module _ (K : KvStore) (layout : MetaLayout) (hash : Bytes → ℕ) (machine : Machine) where
  pub getattr_reply-Ordered :
      (this : ℕ) (m : KvfsMount K.State)
      → Ordered m
      → Ordered (getattr_reply K layout machine this m).1
  unfolding getattr_reply
  getattr_reply-Ordered this m h = Ordered-same m _ (log-refresh_at K layout hash machine this m) h

  pub read-Ordered :
      (this size off : ℕ) (m : KvfsMount K.State)
      → Ordered m
      → Keeps (Data.read K layout machine this size off m)
  unfolding Data.read
  read-Ordered this size off m h =
      let m' = (refresh_at K layout machine this m).1 in
      let refreshed = Ordered-same m m' (log-refresh_at K layout hash machine this m) h in
      Ensures-test _ _ _ _
        (λ r e.
          Ordered-same m' r.1 (log-read_file K layout hash machine this size off m' r e) refreshed)
        (Keeps-reply _ m' refreshed)

  finish_write-Ordered :
      (this off : ℕ) (w : Written K.State) (m : KvfsMount K.State)
      → Ordered m
      → Ordered (finish_write K layout machine this off w m).1
  unfolding finish_write put_store
  finish_write-Ordered this off w m h = elim (Bool-cases (is_ok w.status)) [
    | inl done ↦ rw (done) (
        log_change-next _ _ (
          Ordered-same (put_store w.store (update_inode machine this (set_file w.file) m)) _
            (log-update_inode machine this _ _)
            (Ordered-same m _ (log-update_inode machine this _ m) h)))
    | inr failed ↦ rw (failed) (Ordered-same m _ (log-update_inode machine this _ m) h)
  ]

  pub write-Ordered :
      (this : ℕ) (buf : Bytes) (size off : ℕ) (m : KvfsMount K.State)
      → Ordered m
      → Keeps (Data.write K layout machine this buf size off m)
  unfolding Data.write
  write-Ordered this buf size off m h = Ensures-each _ _ _ (λ w. Keeps-reply _ _ (
      finish_write-Ordered this off w _
        (Ordered-same m _ (log-refresh_at K layout hash machine this m) h)))

  flush_by-Ordered :
      (state : InodeState) (i : FuseKvfsInode) (this : ℕ) (m : KvfsMount K.State)
      → Ordered m
      → Keeps (flush_by K layout machine state i this m)
  unfolding flush_by put_store update_inode put_inode
  flush_by-Ordered invalid i this m h = Ensures-none _
  flush_by-Ordered clean i this m h = Keeps-reply _ _ (Ordered-same m _ refl h)
  flush_by-Ordered dirty i this m h = Keeps-reply _ _ (Ordered-same m _ refl h)

  pub flush_inode-Ordered :
      (this : ℕ) (m : KvfsMount K.State) → Ordered m → Keeps (flush_inode K layout machine this m)
  unfolding flush_inode
  flush_inode-Ordered this m h = flush_by-Ordered _ _ this m h

  log-set_other_attr :
      (this xid : ℕ) (to_set : ToSet) (new : Stat) (m : KvfsMount K.State)
      → (set_other_attr K layout machine this xid to_set new m).change_log ≡ m.change_log
  unfolding set_other_attr put_inode
  log-set_other_attr this xid to_set new m = refl

  finish_setattr-Ordered :
      (this xid : ℕ) (to_set : ToSet) (new : Stat) (err : ℕ) (m : KvfsMount K.State)
      → Pending xid m
      → Ordered (finish_setattr K layout machine this xid to_set new err m).1
  unfolding finish_setattr
  finish_setattr-Ordered this xid to_set new err m h = elim (Bool-cases (err == 0)) [
    | inr failed ↦ rw (failed) (Pending-Ordered xid m h)
    | inl done ↦ rw (done) (
        log_change-taken xid _ _ (
          if-both (Pending xid) to_set.others _ m
            (Pending-same xid m _ (log-set_other_attr this xid to_set new m) h) h))
  ]

  pub setattr-Ordered :
      (this : ℕ) (new : Stat) (to_set : ToSet) (m : KvfsMount K.State)
      → Ordered m
      → Keeps (Data.setattr K layout machine this new to_set m)
  unfolding Data.setattr
  setattr-Ordered this new to_set m h =
      let refreshed =
        Pending-same _ (next_xid m).1 (refresh_at K layout machine this (next_xid m).1).1
          (log-refresh_at K layout hash machine this _) (next_xid-Pending m h) in
      Ensures-test _ _ _ _
        (Keeps-after-Pending _ (refresh_at K layout machine this (next_xid m).1).1 _ _
          (log-set_size_attr K layout hash machine this _ _ _) refreshed
          (λ (err, m3) h3. Keeps-reply _ _ (finish_setattr-Ordered this _ to_set new err m3 h3)))
        (Keeps-reply _ _ (finish_setattr-Ordered this _ to_set new _ _ refreshed))
