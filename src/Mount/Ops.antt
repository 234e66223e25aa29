-- ===== src/Mount/Ops.antt =====
-- src/fuse_kvfs_ops.cc: the operations that FUSE calls. An operation that is given an inode number
-- holds the inode for the call; `fi->fh` is the number of the inode that an open file or directory
-- refers to.
use kvfs_ra_testing.Base.{ℕ, ◌≡◌, ◌+◌, Option, none, some, Bytes, ltb, ◌==◌, if◌then◌else◌}
use kvfs_ra_testing.Store.{KvStore}
use kvfs_ra_testing.File.{MetaLayout}
use kvfs_ra_testing.File.Resize.{Stat}
use kvfs_ra_testing.Mount.{Machine, KvfsMount, inode_at, Reply, reply_err, reply_none, reply_open}
use kvfs_ra_testing.Mount.Cache.{hold_inode, release, free_inode}
use kvfs_ra_testing.Mount.Names
use kvfs_ra_testing.Mount.Removal
use kvfs_ra_testing.Mount.Data
use kvfs_ra_testing.Mount.Data.{ToSet, getattr_reply}

module _ (K : KvStore) (layout : MetaLayout) (hash : Bytes → ℕ) (machine : Machine) where
  -- Release(1) of the inode of the call, after its handler.
  unfoldable pub then_release :
      ℕ → Option (Reply × KvfsMount K.State) → Option (Reply × KvfsMount K.State)
  then_release ino none = none
  then_release ino (some (reply, m)) = elim (release K layout machine 1 ino m) [
    | none ↦ none
    | some (_, m') ↦ some (reply, m')
  ]

  -- fk_fi_to_inode: the EXPECT that the object has the number of the call.
  unfoldable pub fi_to_inode : {A : Type 0} → ℕ → KvfsMount K.State → Option A → Option A
  fi_to_inode ino m result = if (inode_at machine m ino).attr.st_ino == ino then result else none

  unfoldable pub fk_getattr : ℕ → KvfsMount K.State → Option (Reply × KvfsMount K.State)
  fk_getattr ino m =
      then_release ino (some (getattr_reply K layout machine ino (hold_inode machine ino m)))

  unfoldable pub fk_setattr :
      ℕ → Stat → ToSet → KvfsMount K.State → Option (Reply × KvfsMount K.State)
  fk_setattr ino attr to_set m =
      then_release ino (Data.setattr K layout machine ino attr to_set (hold_inode machine ino m))

  unfoldable pub fk_lookup : ℕ → Bytes → KvfsMount K.State → Option (Reply × KvfsMount K.State)
  fk_lookup parent name m =
      then_release parent
        (Names.lookup K layout hash machine parent name (hold_inode machine parent m))

  -- fk_forget after Release: an inode that is no longer held leaves the map.
  unfoldable pub forget_if : ℕ → ℕ → KvfsMount K.State → KvfsMount K.State
  forget_if left ino m = if left == 0 then free_inode machine ino m else m

  abbrev pub most_lookups : ℕ
  most_lookups = 1000

  unfoldable pub fk_forget : ℕ → ℕ → KvfsMount K.State → Option (Reply × KvfsMount K.State)
  fk_forget ino nlookup m =
      let count = if ltb most_lookups nlookup then 0 else nlookup in
      elim (release K layout machine (count + 1) ino (hold_inode machine ino m)) [
        | none ↦ none
        | some (left, m') ↦ some (reply_none, forget_if left ino m')
      ]

  -- fk_open and fk_opendir, after which `fi->fh` keeps the inode held.
  unfoldable pub fk_open : ℕ → KvfsMount K.State → Option (Reply × KvfsMount K.State)
  fk_open ino m = some (reply_open ino, hold_inode machine ino m)

  unfoldable pub fk_opendir : ℕ → KvfsMount K.State → Option (Reply × KvfsMount K.State)
  fk_opendir ino m = some (reply_open ino, hold_inode machine ino m)

  unfoldable pub fk_read : ℕ → ℕ → ℕ → KvfsMount K.State → Option (Reply × KvfsMount K.State)
  fk_read ino size off m = fi_to_inode ino m (Data.read K layout machine ino size off m)

  unfoldable pub fk_write :
      ℕ → Bytes → ℕ → ℕ → KvfsMount K.State → Option (Reply × KvfsMount K.State)
  fk_write ino buf size off m = fi_to_inode ino m (Data.write K layout machine ino buf size off m)

  unfoldable pub fk_flush : ℕ → KvfsMount K.State → Option (Reply × KvfsMount K.State)
  fk_flush ino m = fi_to_inode ino m (Data.flush_inode K layout machine ino m)

  unfoldable pub fk_create : ℕ → Bytes → ℕ → KvfsMount K.State → Option (Reply × KvfsMount K.State)
  fk_create parent name mode m =
      then_release parent
        (Names.create K layout hash machine parent name mode (hold_inode machine parent m))

  unfoldable pub fk_mkdir : ℕ → Bytes → ℕ → KvfsMount K.State → Option (Reply × KvfsMount K.State)
  fk_mkdir parent name mode m =
      then_release parent
        (Names.mkdir K layout hash machine parent name mode (hold_inode machine parent m))

  unfoldable pub fk_rmdir : ℕ → Bytes → KvfsMount K.State → Option (Reply × KvfsMount K.State)
  fk_rmdir parent name m =
      then_release parent
        (Removal.rmdir K layout hash machine parent name (hold_inode machine parent m))

  unfoldable pub fk_unlink : ℕ → Bytes → KvfsMount K.State → Option (Reply × KvfsMount K.State)
  fk_unlink parent name m =
      then_release parent
        (Removal.unlink K layout hash machine parent name (hold_inode machine parent m))

  unfoldable pub fk_link : ℕ → ℕ → Bytes → KvfsMount K.State → Option (Reply × KvfsMount K.State)
  fk_link ino new_parent new_name m =
      then_release new_parent (
        Removal.link K layout hash machine new_parent ino new_name
          (hold_inode machine new_parent m))

  -- fk_release and fk_releasedir
  unfoldable pub fk_release : ℕ → KvfsMount K.State → Option (Reply × KvfsMount K.State)
  fk_release ino m = fi_to_inode ino m (then_release ino (some (reply_err 0, m)))

  unfoldable pub fk_releasedir : ℕ → KvfsMount K.State → Option (Reply × KvfsMount K.State)
  fk_releasedir ino m = fi_to_inode ino m (then_release ino (some (reply_err 0, m)))

abbrev pub enotsup : ℕ
enotsup = 95

-- The calls of FUSE that `fk_oper` has an operation for, readdir aside.
pub data Request : Type 0 where
  getattr : (ino : ℕ) → Request
  setattr : (ino : ℕ) (attr : Stat) (to_set : ToSet) → Request
  lookup : (parent : ℕ) (name : Bytes) → Request
  forget : (ino nlookup : ℕ) → Request
  opendir : (ino : ℕ) → Request
  open_file : (ino : ℕ) → Request
  read : (ino size off : ℕ) → Request
  write : (ino : ℕ) (buf : Bytes) (size off : ℕ) → Request
  flush : (ino : ℕ) → Request
  create : (parent : ℕ) (name : Bytes) (mode : ℕ) → Request
  mkdir : (parent : ℕ) (name : Bytes) (mode : ℕ) → Request
  rmdir : (parent : ℕ) (name : Bytes) → Request
  unlink : (parent : ℕ) (name : Bytes) → Request
  link : (ino new_parent : ℕ) (new_name : Bytes) → Request
  mknod : (parent : ℕ) (name : Bytes) (mode rdev : ℕ) → Request
  readlink : (ino : ℕ) → Request
  close_file : (ino : ℕ) → Request
  close_dir : (ino : ℕ) → Request

module _ (K : KvStore) (layout : MetaLayout) (hash : Bytes → ℕ) (machine : Machine) where
  -- The table of operations that fk_init_oper fills in.
  unfoldable pub serve : Request → KvfsMount K.State → Option (Reply × KvfsMount K.State)
  serve (Request.getattr ino) m = fk_getattr K layout hash machine ino m
  serve (Request.setattr ino attr to_set) m = fk_setattr K layout hash machine ino attr to_set m
  serve (Request.lookup parent name) m = fk_lookup K layout hash machine parent name m
  serve (Request.forget ino nlookup) m = fk_forget K layout hash machine ino nlookup m
  serve (Request.opendir ino) m = fk_opendir K layout hash machine ino m
  serve (Request.open_file ino) m = fk_open K layout hash machine ino m
  serve (Request.read ino size off) m = fk_read K layout hash machine ino size off m
  serve (Request.write ino buf size off) m = fk_write K layout hash machine ino buf size off m
  serve (Request.flush ino) m = fk_flush K layout hash machine ino m
  serve (Request.create parent name mode) m = fk_create K layout hash machine parent name mode m
  serve (Request.mkdir parent name mode) m = fk_mkdir K layout hash machine parent name mode m
  serve (Request.rmdir parent name) m = fk_rmdir K layout hash machine parent name m
  serve (Request.unlink parent name) m = fk_unlink K layout hash machine parent name m
  serve (Request.link ino new_parent new_name) m =
      fk_link K layout hash machine ino new_parent new_name m
  serve (Request.mknod parent name mode rdev) m = some (reply_err enotsup, m)
  serve (Request.readlink ino) m = some (reply_err enotsup, m)
  serve (Request.close_file ino) m = fk_release K layout hash machine ino m
  serve (Request.close_dir ino) m = fk_releasedir K layout hash machine ino m

  -- Mounts that a sequence of calls that were answered leads to.
  pub data Serves : KvfsMount K.State → KvfsMount K.State → Type 0 where
    serves_nothing : (m : KvfsMount K.State) → Serves m m
    serves_next :
        (m m' m'' : KvfsMount K.State) (request : Request) (reply : Reply)
        → Serves m m'
        → serve request m' ≡ some (reply, m'')
        → Serves m m''
