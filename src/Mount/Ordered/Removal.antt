-- ===== src/Mount/Ordered/Removal.antt =====
-- Rmdir, Unlink and Link of src/kvfs_mount.cc keep the xids of the change log in order.
use kvfs_ra_testing.Base.{ℕ, Bytes, ◌==◌, Ensures-test, if-both, Bool-cases, inl, inr}
use kvfs_ra_testing.Store.{KvStore}
use kvfs_ra_testing.File.{MetaLayout}
use kvfs_ra_testing.Mount.{Machine, KvfsMount, set_xid, set_state, invalid}
use kvfs_ra_testing.Mount.Cache.{hold_inode, next_xid, refresh_at}
use kvfs_ra_testing.Mount.Names.{update_inode}
use kvfs_ra_testing.Mount.Removal
use kvfs_ra_testing.Mount.Removal.{
  release_and_reply, log_rmdir, rmdir_child, log_unlink, unlink_child, finish_link, link_child,
}
use kvfs_ra_testing.Mount.Kept.{
  log-refresh_at, log-release, log-find_child, log-remove_file, log-link_file, log-update_inode,
  log-hold_inode,
}
use kvfs_ra_testing.Mount.Ordered.{
  Ordered, Ordered-same, Pending-Ordered, next_xid-Pending, log_change-next, Keeps, Keeps-reply,
  Keeps-after,
}

module _ (K : KvStore) (layout : MetaLayout) (hash : Bytes → ℕ) (machine : Machine) where
  release_and_reply-Ordered :
      (child err : ℕ) (m : KvfsMount K.State)
      → Ordered m
      → Keeps (release_and_reply K layout hash machine child err m)
  unfolding release_and_reply
  release_and_reply-Ordered child err m h =
      Keeps-after m _ _ (log-release K layout hash machine 1 child m) h
        (λ (_, m') h'. Keeps-reply _ m' h')

  rmdir_child-Ordered :
      (this child : ℕ) (name : Bytes) (m : KvfsMount K.State)
      → Ordered m
      → Keeps (rmdir_child K layout hash machine this child name m)
  unfolding rmdir_child log_rmdir
  rmdir_child-Ordered this child name m h =
      let taken = Pending-Ordered _ (next_xid m).1 (next_xid-Pending m h) in
      let m1 = update_inode machine child (set_xid (next_xid m).0) (next_xid m).1 in
      Ensures-test _ _ _ _
        (Keeps-after (update_inode machine this (set_xid (next_xid m).0) m1) _ _
          (log-remove_file K layout hash machine this child name _)
          (Ordered-same m1 _ (log-update_inode machine this _ _)
            (Ordered-same (next_xid m).1 _ (log-update_inode machine child _ _) taken))
          (λ (err, m3) h3.
            release_and_reply-Ordered child err _
              (if-both Ordered (err == 0) _ m3 (log_change-next _ m3 h3) h3)))
        (release_and_reply-Ordered child _ m h)

  pub rmdir-Ordered :
      (this : ℕ) (name : Bytes) (m : KvfsMount K.State)
      → Ordered m
      → Keeps (Removal.rmdir K layout hash machine this name m)
  unfolding Removal.rmdir
  rmdir-Ordered this name m h =
      Keeps-after m _ _ (log-find_child K layout hash machine this name m) h (λ (child, m') h'.
        Ensures-test _ _ _ _ (Keeps-reply _ m' h') (
          rmdir_child-Ordered this child name _
            (Ordered-same m' _ (log-hold_inode machine child m') h')))

  unlink_child-Ordered :
      (this child : ℕ) (name : Bytes) (m : KvfsMount K.State)
      → Ordered m
      → Keeps (unlink_child K layout hash machine this child name m)
  unfolding unlink_child log_unlink
  unlink_child-Ordered this child name m h =
      Keeps-after m _ _ (log-remove_file K layout hash machine this child name m) h (λ (err, m1) h1.
        Keeps-after m1 _ _ (log-release K layout hash machine 1 child m1) h1 (λ (_, m2) h2.
          Keeps-reply _ _ (if-both Ordered (err == 0) _ m2 (log_change-next _ m2 h2) h2)))

  pub unlink-Ordered :
      (this : ℕ) (name : Bytes) (m : KvfsMount K.State)
      → Ordered m
      → Keeps (Removal.unlink K layout hash machine this name m)
  unfolding Removal.unlink
  unlink-Ordered this name m h =
      Keeps-after m _ _ (log-find_child K layout hash machine this name m) h (λ (child, m') h'.
        Ensures-test _ _ _ _ (Keeps-reply _ m' h') (
          unlink_child-Ordered this child name _
            (Ordered-same m' _ (log-hold_inode machine child m') h')))

  finish_link-Ordered :
      (this ino err : ℕ) (m : KvfsMount K.State)
      → Ordered m
      → Ordered (finish_link K layout hash machine this ino err m).1
  unfolding finish_link
  finish_link-Ordered this ino err m h = elim (Bool-cases (err == 0)) [
    | inl zero ↦ rw (zero) (
        log_change-next _ _ (
          Ordered-same (update_inode machine ino (set_state invalid) m) _
            (log-update_inode machine this _ _)
            (Ordered-same m _ (log-update_inode machine ino _ m) h)))
    | inr other ↦ rw (other) h
  ]

  link_child-Ordered :
      (this ino : ℕ) (name : Bytes) (m : KvfsMount K.State)
      → Ordered m
      → Keeps (link_child K layout hash machine this ino name m)
  unfolding link_child
  link_child-Ordered this ino name m h =
      Keeps-after (refresh_at K layout machine ino (hold_inode machine ino m)).1 _ _
        (log-link_file K layout hash machine this ino name _)
        (Ordered-same (hold_inode machine ino m) _ (log-refresh_at K layout hash machine ino _)
          (Ordered-same m _ (log-hold_inode machine ino m) h))
        (λ (err, m1) h1.
          Keeps-after m1 _ _ (log-release K layout hash machine 1 ino m1) h1
            (λ (_, m2) h2. Keeps-reply _ _ (finish_link-Ordered this ino err m2 h2)))

  pub link-Ordered :
      (this ino : ℕ) (name : Bytes) (m : KvfsMount K.State)
      → Ordered m
      → Keeps (Removal.link K layout hash machine this ino name m)
  unfolding Removal.link
  link-Ordered this ino name m h =
      Keeps-after (refresh_at K layout machine this m).1 _ _
        (log-find_child K layout hash machine this name _)
        (Ordered-same m _ (log-refresh_at K layout hash machine this m) h)
        (λ (child, m') h'.
          Ensures-test _ _ _ _ (link_child-Ordered this ino name m' h') (Keeps-reply _ m' h'))
