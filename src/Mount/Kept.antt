-- ===== src/Mount/Kept.antt =====
-- The parts of src/kvfs_mount.cc that leave the change log alone: the map of inodes, and the calls of
-- the methods of LogFSFile.
use kvfs_ra_testing.Base.{
  ℕ, ◌≡◌, refl, ◌∙◌, Bytes, Ensures, Ensures-some, Ensures-bind, Ensures-each, Ensures-test,
}
use kvfs_ra_testing.Store.{KvStore}
use kvfs_ra_testing.File.{MetaLayout}
use kvfs_ra_testing.Tiering.ChangeLog.{FsChangeLog}
use kvfs_ra_testing.Mount.{Change, Machine, KvfsMount, FuseKvfsInode, put_inode, put_store}
use kvfs_ra_testing.Mount.Cache.{hold_inode, free_inode, get_next_ino, refresh_at, release}
use kvfs_ra_testing.Mount.Names.{update_inode, name_child, find_child, create_file, make_child}
use kvfs_ra_testing.Mount.Removal.{remove_file, link_file}
use kvfs_ra_testing.Mount.Data.{set_size_attr, read_file}

-- The results in which the change log is `l`.
abbrev pub HasLog : {S A : Type 0} → FsChangeLog Change → A × KvfsMount S → Type 0
HasLog l r = r.1.change_log ≡ l

module _ {S : Type 0} (machine : Machine) where
  pub log-update_inode :
      (ino : ℕ) (change : FuseKvfsInode → FuseKvfsInode) (m : KvfsMount S)
      → (update_inode machine ino change m).change_log ≡ m.change_log
  unfolding update_inode put_inode
  log-update_inode ino change m = refl

  pub log-hold_inode :
      (ino : ℕ) (m : KvfsMount S) → (hold_inode machine ino m).change_log ≡ m.change_log
  unfolding hold_inode put_inode
  log-hold_inode ino m = refl

  pub log-free_inode :
      (ino : ℕ) (m : KvfsMount S) → (free_inode machine ino m).change_log ≡ m.change_log
  unfolding free_inode
  log-free_inode ino m = refl

  pub log-get_next_ino : (m : KvfsMount S) → (get_next_ino m).1.change_log ≡ m.change_log
  unfolding get_next_ino
  log-get_next_ino m = refl

  pub log-name_child :
      (this child : ℕ) (name : Bytes) (mode xid : ℕ) (m : KvfsMount S)
      → Ensures
          (λ (m' : KvfsMount S). m'.change_log ≡ m.change_log)
          (name_child machine this child name mode xid m)
  unfolding name_child update_inode put_inode
  log-name_child this child name mode xid m = Ensures-each _ _ _ (λ meta. Ensures-some _ _ refl)

module _ (K : KvStore) (layout : MetaLayout) (hash : Bytes → ℕ) (machine : Machine) where
  pub log-refresh_at :
      (ino : ℕ) (m : KvfsMount K.State)
      → (refresh_at K layout machine ino m).1.change_log ≡ m.change_log
  unfolding refresh_at put_inode
  log-refresh_at ino m = refl

  pub log-release :
      (n ino : ℕ) (m : KvfsMount K.State)
      → Ensures (HasLog m.change_log) (release K layout machine n ino m)
  unfolding release put_inode put_store
  log-release n ino m =
      Ensures-test (HasLog m.change_log) _ _ _
        (Ensures-each (HasLog m.change_log) _ _
          (λ (f, s'). Ensures-some (HasLog m.change_log) _ refl))
        (Ensures-some (HasLog m.change_log) _ refl)

  pub log-find_child :
      (this : ℕ) (name : Bytes) (m : KvfsMount K.State)
      → Ensures (HasLog m.change_log) (find_child K layout hash machine this name m)
  unfolding find_child update_inode put_inode
  log-find_child this name m =
      Ensures-each (HasLog m.change_log) _ _
        (λ (child, d). Ensures-some (HasLog m.change_log) _ refl)

  pub log-create_file :
      (this child : ℕ) (m : KvfsMount K.State)
      → Ensures (HasLog m.change_log) (create_file K layout hash machine this child m)
  unfolding create_file update_inode put_inode put_store
  log-create_file this child m =
      Ensures-each (HasLog m.change_log) _ _ (λ c. Ensures-some (HasLog m.change_log) _ refl)

  pub log-make_child :
      (this child : ℕ) (name : Bytes) (mode xid : ℕ) (m : KvfsMount K.State)
      → Ensures (HasLog m.change_log) (make_child K layout hash machine this child name mode xid m)
  unfolding make_child
  log-make_child this child name mode xid m =
      Ensures-bind (λ m'. m'.change_log ≡ m.change_log) (HasLog m.change_log) _ _
        (λ m' e.
          log-name_child machine this child name mode xid (hold_inode machine child m) m' e
          ∙ log-hold_inode machine child m)
        (λ m' same r e. log-create_file this child m' r e ∙ same)

  pub log-remove_file :
      (this child : ℕ) (name : Bytes) (m : KvfsMount K.State)
      → Ensures (HasLog m.change_log) (remove_file K layout hash machine this child name m)
  unfolding remove_file update_inode put_inode put_store
  log-remove_file this child name m =
      Ensures-each (HasLog m.change_log) _ _
        (λ (status, f, parent, s'). Ensures-some (HasLog m.change_log) _ refl)

  pub log-link_file :
      (this ino : ℕ) (name : Bytes) (m : KvfsMount K.State)
      → Ensures (HasLog m.change_log) (link_file K layout hash machine this ino name m)
  unfolding link_file update_inode put_inode put_store
  log-link_file this ino name m =
      Ensures-each (HasLog m.change_log) _ _
        (λ (status, f, d, s'). Ensures-some (HasLog m.change_log) _ refl)

  pub log-set_size_attr :
      (this xid st_size : ℕ) (m : KvfsMount K.State)
      → Ensures (HasLog m.change_log) (set_size_attr K layout machine this xid st_size m)
  unfolding set_size_attr put_inode put_store
  log-set_size_attr this xid st_size m =
      Ensures-each (HasLog m.change_log) _ _
        (λ (status, f, s'). Ensures-some (HasLog m.change_log) _ refl)

  pub log-read_file :
      (this size off : ℕ) (m : KvfsMount K.State)
      → Ensures (HasLog m.change_log) (read_file K layout machine this size off m)
  unfolding read_file update_inode put_inode put_store
  log-read_file this size off m =
      Ensures-each (HasLog m.change_log) _ _ (λ r. Ensures-some (HasLog m.change_log) _ refl)
