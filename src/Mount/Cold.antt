-- ===== src/Mount/Cold.antt =====
-- A lookup in a directory whose inode is not in memory (src/fuse_kvfs_ops.cc, src/kvfs_mount.cc):
-- fk_lookup does not read the inode in before it releases it, and Release closes the file by the count
-- of links of an object that was just constructed, which is 0.
use kvfs_ra_testing.Base.{
  ℕ, ◌-◌, ◌≡◌, refl, ap, ◌∙◌, Bool, true, false, none, some, Bytes, ◌==◌, Ensures, Ensures-some,
  Ensures-each, arith,
}
use kvfs_ra_testing.Status.{enoent}
use kvfs_ra_testing.Key.{inode_key}
use kvfs_ra_testing.Store.{KvStore}
use kvfs_ra_testing.Meta.{MetaData, new_meta}
use kvfs_ra_testing.File.{MetaLayout, LogFsFile, new_file}
use kvfs_ra_testing.File.Resize.Round.{Removes}
use kvfs_ra_testing.Directory.{Directory, new_directory, close, set_partition, find_handle}
use kvfs_ra_testing.Directory.Closing.{close-gone, close-returns}
use kvfs_ra_testing.Mount.{
  FuseKvfsInode, Machine, KvfsMount, reply_err, map_find, new_inode, inode_at, put_inode, put_store,
  set_dir, set_file,
}
use kvfs_ra_testing.Mount.Cache.{hold_by, hold_inode, release}
use kvfs_ra_testing.Mount.Names.{update_inode, find_child, lookup}
use kvfs_ra_testing.Mount.Inodes.{inode_at-put_inode}
use kvfs_ra_testing.Mount.Ops.{then_release, fk_lookup}

module _ (K : KvStore) (layout : MetaLayout) (hash : Bytes → ℕ) (machine : Machine) where
  set_partition-file : (b : Bool) (d : Directory) (p : _) → (set_partition b p d).file ≡ d.file
  unfolding set_partition
  set_partition-file true d p = refl
  set_partition-file false d p = refl

  -- findHandle does not touch the file of the directory.
  find_handle-file :
      (d : Directory) (s : K.State) (name : Bytes)
      → Ensures (λ (r : ℕ × Directory). r.1.file ≡ d.file) (find_handle K layout hash d s name)
  unfolding find_handle
  find_handle-file d s name =
      Ensures-each (λ (r : ℕ × Directory). r.1.file ≡ d.file) _ _
        (λ (ino, p).
          Ensures-some (λ (r : ℕ × Directory). r.1.file ≡ d.file) _ (set_partition-file _ d p))

  -- The directory as it is constructed, held.
  abbrev pub cold : ℕ → ℕ → FuseKvfsInode
  cold fs_id parent = hold_by 1 (new_inode machine fs_id parent)

  -- The last Release of an object whose file has no links.
  release-unlinked :
      (removes : Removes K) (ino : ℕ) (m : KvfsMount K.State) (f : LogFsFile) (meta : MetaData)
      → (inode_at machine m ino).nlookup ≡ 1
      → (inode_at machine m ino).dir.file ≡ f
      → f.meta.n_link ≡ 0
      → K.get m.store (inode_key f.handle) ≡ some (layout.bytes meta)
      → meta.fs_id ≡ f.fs_id
      → meta.handle ≡ f.handle
      → (left : ℕ) × (m' : KvfsMount K.State) × (release K layout machine 1 ino m ≡ some (left, m'))
        × (K.get m'.store (inode_key f.handle) ≡ none)
  unfolding release put_store
  release-unlinked removes ino m f meta once same unlinked stored fs own =
      let i = inode_at machine m ino in
      let (g, s', closed) =
        close-returns K layout f m.store machine.now meta unlinked stored fs own in
      let closed' : close K layout i.dir.file m.store machine.now ≡ some (g, s') =
        ap (λ (x : LogFsFile). close K layout x m.store machine.now) same ∙ closed in
      let left : (i.nlookup - 1) ≡ 0 = ground (arith, once) in
      let none_left : ((i.nlookup - 1) == 0) ≡ true = ground (arith, left) in
      (
        i.nlookup - 1,
        put_store s' (put_inode ino (set_file g (record i { nlookup = i.nlookup - 1 })) m),
        rw (release, none_left, closed') refl,
        close-gone K layout removes f m.store machine.now unlinked (g, s') closed,
      )

  -- For a directory that is not in memory, whose own inode is in the store, on a store that removes, and
  -- a name that it does not have: fk_lookup replies ENOENT, and the inode of the directory is no longer
  -- in the store.
  pub fk_lookup-cold :
      (removes : Removes K) (parent : ℕ) (name : Bytes) (m : KvfsMount K.State) (meta : MetaData)
      (d : Directory)
      → map_find parent m.inode_map ≡ none
      → find_handle K layout hash (new_inode machine m.fs_id parent).dir m.store name ≡ some (0, d)
      → K.get m.store (inode_key parent) ≡ some (layout.bytes meta)
      → meta.fs_id ≡ m.fs_id
      → meta.handle ≡ parent
      → (m' : KvfsMount K.State) × (fk_lookup K layout hash machine parent name m
          ≡ some (reply_err enoent, m'))
        × (K.get m'.store (inode_key parent) ≡ none)
  unfolding fk_lookup then_release lookup find_child update_inode hold_inode hold_by set_dir
      put_inode inode_at new_inode new_directory new_file new_meta
  fk_lookup-cold removes parent name m meta d absent missing stored fs own =
      let i = new_inode machine m.fs_id parent in
      let fresh : inode_at machine m parent ≡ i = rw (inode_at, absent) refl in
      let m1 = put_inode parent (hold_by 1 i) m in
      let held : hold_inode machine parent m ≡ m1 =
        ap (λ (x : FuseKvfsInode). put_inode parent (hold_by 1 x) m) fresh in
      let again : inode_at machine m1 parent ≡ hold_by 1 i =
        inode_at-put_inode machine parent (hold_by 1 i) m in
      let i2 = set_dir d (hold_by 1 i) in
      let m2 = put_inode parent i2 m1 in
      let last : inode_at machine m2 parent ≡ i2 = inode_at-put_inode machine parent i2 m1 in
      let (left, m', released, gone) =
        release-unlinked removes parent m2 i.dir.file meta
          (ap (λ (x : FuseKvfsInode). x.nlookup) last)
          (ap (λ (x : FuseKvfsInode). x.dir.file) last
            ∙ find_handle-file i.dir m.store name (0, d) missing)
          refl stored fs own in
      let found : find_child K layout hash machine parent name m1 ≡ some (0, m2) =
        ap
          (λ (x : FuseKvfsInode). elim (find_handle K layout hash x.dir m.store name) [
            | none ↦ none
            | some (child, e) ↦ some (child, put_inode parent (set_dir e x) m1)
          ])
          again
        ∙ rw missing refl in
      let looked : lookup K layout hash machine parent name (hold_inode machine parent m)
          ≡ some (reply_err enoent, m2) =
        ap (λ (x : KvfsMount K.State). lookup K layout hash machine parent name x) held
        ∙ rw (lookup, found) refl in
      (m', rw (fk_lookup, looked, then_release, released) refl, gone)
