-- ===== src/Mount/Ordered.antt =====
-- The handlers of src/kvfs_mount.cc keep the xids of the change log in order.
pub mod Removal
pub mod Data
pub mod Ops
use kvfs_ra_testing.Base.{
  ℕ, ◌≡◌, refl, sym, ◌∙◌, subst, Bool, true, false, Option, none, some, Bytes, ◌==◌, if◌then◌else◌,
  Ensures, Ensures-some, Ensures-none, Ensures-bind, Ensures-each, Ensures-test, Ensures-if,
}
use kvfs_ra_testing.Store.{KvStore}
use kvfs_ra_testing.File.{MetaLayout}
use kvfs_ra_testing.File.Resize.{Stat}
use kvfs_ra_testing.Tiering.ChangeLog.{FsChangeLog, take_xid}
use kvfs_ra_testing.Tiering.ChangeLog.Ordered.{
  IsOrdered, IsPending, take_xid-IsPending, IsPending-IsOrdered, append_taken-IsOrdered,
  append_next-IsOrdered,
}
use kvfs_ra_testing.Mount.{
  Change, name_change, creat, Machine, KvfsMount, FuseKvfsInode, Reply, invalid, clean, dirty,
  InodeState, inode_at, put_inode, put_store, log_change,
}
use kvfs_ra_testing.Mount.Cache.{
  hold_inode, free_inode, get_next_ino, next_xid, refresh, refresh_at, release,
}
use kvfs_ra_testing.Mount
use kvfs_ra_testing.Mount.Names
use kvfs_ra_testing.Mount.Names.{
  update_inode, find_child, make_child, answer_by, answer_entry, lookup_child, log_child,
  finish_create, create_new, finish_mkdir, mkdir_new,
}
use kvfs_ra_testing.Mount.Kept.{
  HasLog, log-refresh_at, log-release, log-find_child, log-make_child, log-update_inode,
  log-get_next_ino, log-hold_inode,
}

module _ {S : Type 0} where
  -- The mount's log is in order; and the same while an entry is still to be appended.
  unfoldable pub Ordered : KvfsMount S → Type 0
  Ordered m = IsOrdered m.change_log

  pub Pending : ℕ → KvfsMount S → Type 0
  Pending xid m = IsPending xid m.change_log

  pub Ordered-same : (m m' : KvfsMount S) → m'.change_log ≡ m.change_log → Ordered m → Ordered m'
  unfolding Ordered
  Ordered-same m m' e h = subst IsOrdered (sym e) h

  pub Pending-same :
      (xid : ℕ) (m m' : KvfsMount S) → m'.change_log ≡ m.change_log → Pending xid m → Pending xid m'
  unfolding Pending
  Pending-same xid m m' e h = subst (IsPending xid) (sym e) h

  pub Pending-Ordered : (xid : ℕ) (m : KvfsMount S) → Pending xid m → Ordered m
  unfolding Pending Ordered
  Pending-Ordered xid m h = IsPending-IsOrdered xid m.change_log h

  pub next_xid-Pending : (m : KvfsMount S) → Ordered m → Pending (next_xid m).0 (next_xid m).1
  unfolding next_xid Pending Ordered
  next_xid-Pending m h = take_xid-IsPending m.change_log h

  pub log_change-taken :
      (xid : ℕ) (change : Change) (m : KvfsMount S)
      → Pending xid m
      → Ordered (log_change (some xid) change m)
  unfolding log_change Pending Ordered
  log_change-taken xid change m h = append_taken-IsOrdered xid m.change_log change h

  pub log_change-next :
      (change : Change) (m : KvfsMount S) → Ordered m → Ordered (log_change none change m)
  unfolding log_change Ordered
  log_change-next change m h = append_next-IsOrdered m.change_log change h

-- What a handler returns has its log in order.
abbrev pub Keeps : {S A : Type 0} → Option (A × KvfsMount S) → Type 0
Keeps {S} {A} o = Ensures (λ (r : A × KvfsMount S). Ordered r.1) o

module _ {S A : Type 0} where
  pub Keeps-reply : (a : A) (m : KvfsMount S) → Ordered m → Keeps (some (a, m))
  Keeps-reply a m h = Ensures-some (λ (r : A × KvfsMount S). Ordered r.1) (a, m) h

  -- A call that leaves the log alone, and what comes after it.
  pub Keeps-after :
      {B : Type 0} (m : KvfsMount S) (o : Option (B × KvfsMount S))
      (f : B × KvfsMount S → Option (A × KvfsMount S))
      → Ensures (HasLog m.change_log) o
      → Ordered m
      → ((r : B × KvfsMount S) → Ordered r.1 → Keeps (f r))
      → Keeps (elim o [ none ↦ none | some r ↦ f r ])
  Keeps-after m o f same h g =
      Ensures-bind (HasLog m.change_log) _ f o same (λ r e. g r (Ordered-same m r.1 e h))

  pub Keeps-after-Pending :
      {B : Type 0} (xid : ℕ) (m : KvfsMount S) (o : Option (B × KvfsMount S))
      (f : B × KvfsMount S → Option (A × KvfsMount S))
      → Ensures (HasLog m.change_log) o
      → Pending xid m
      → ((r : B × KvfsMount S) → Pending xid r.1 → Keeps (f r))
      → Keeps (elim o [ none ↦ none | some r ↦ f r ])
  Keeps-after-Pending xid m o f same h g =
      Ensures-bind (HasLog m.change_log) _ f o same (λ r e. g r (Pending-same xid m r.1 e h))

module _ (K : KvStore) (layout : MetaLayout) (hash : Bytes → ℕ) (machine : Machine) where
  answer_by-Ordered :
      (state : InodeState) (i : FuseKvfsInode) (err child : ℕ) (m : KvfsMount K.State)
      → Ordered m
      → Keeps (answer_by K layout hash machine state i err child m)
  unfolding answer_by put_inode
  answer_by-Ordered invalid i err child m h =
      Ensures-if _ (err == 0) _ _ (Ensures-none _) (Keeps-reply _ m h)
  answer_by-Ordered clean i err child m h = Keeps-reply _ _ (Ordered-same m _ refl h)
  answer_by-Ordered dirty i err child m h = Keeps-reply _ _ (Ordered-same m _ refl h)

  pub lookup-Ordered :
      (this : ℕ) (name : Bytes) (m : KvfsMount K.State)
      → Ordered m
      → Keeps (Names.lookup K layout hash machine this name m)
  unfolding Names.lookup lookup_child answer_entry
  lookup-Ordered this name m h =
      Keeps-after m _ _ (log-find_child K layout hash machine this name m) h (λ (child, m') h'.
        Ensures-test _ _ _ _ (Keeps-reply _ m' h') (
          answer_by-Ordered _ _ _ child _ (
            Ordered-same (hold_inode machine child m') _
              (log-refresh_at K layout hash machine child _)
              (Ordered-same m' _ (log-hold_inode machine child m') h'))))

  log_child-Ordered :
      (this child : ℕ) (name : Bytes) (xid : ℕ) (m : KvfsMount K.State)
      → Pending xid m
      → Keeps (log_child K layout hash machine this child name xid m)
  unfolding log_child
  log_child-Ordered this child name xid m h =
      let logged =
        log_change-taken xid
          (name_change creat m.fs_id child (inode_at machine m this).attr.st_ino (some name)) m h in
      Ensures-if _ _ _ _
        (Keeps-reply _ _ (Ordered-same _ _ (log-refresh_at K layout hash machine child _) logged))
        (Ensures-none _)

  finish_create-Ordered :
      (this child : ℕ) (name : Bytes) (xid err : ℕ) (m : KvfsMount K.State)
      → Pending xid m
      → Keeps (finish_create K layout hash machine this child name xid err m)
  unfolding finish_create
  finish_create-Ordered this child name xid err m h =
      Ensures-test _ _ _ _
        (Ensures-bind (λ (r : FuseKvfsInode × KvfsMount K.State). Ordered r.1) _ _ _
          (log_child-Ordered this child name xid m h) (λ (i, m') h'. Keeps-reply _ m' h'))
        (Keeps-reply _ m (Pending-Ordered xid m h))

  pub create-Ordered :
      (this : ℕ) (name : Bytes) (mode : ℕ) (m : KvfsMount K.State)
      → Ordered m
      → Keeps (Names.create K layout hash machine this name mode m)
  unfolding Names.create create_new
  create-Ordered this name mode m h =
      Keeps-after m _ _ (log-find_child K layout hash machine this name m) h (λ (child, m') h'.
        Ensures-test _ _ _ _
          (Keeps-after-Pending (next_xid m').0 (get_next_ino (next_xid m').1).1 _ _
            (log-make_child K layout hash machine this _ name mode _ _)
            (Pending-same _ (next_xid m').1 _ (log-get_next_ino machine _) (next_xid-Pending m' h'))
            (λ (err, m3) h3. finish_create-Ordered this _ name _ err m3 h3))
          (Keeps-reply _ m' h'))

  finish_mkdir-Ordered :
      (this child : ℕ) (name : Bytes) (xid err : ℕ) (m : KvfsMount K.State)
      → Pending xid m
      → Keeps (finish_mkdir K layout hash machine this child name xid err m)
  unfolding finish_mkdir
  finish_mkdir-Ordered this child name xid err m h =
      Ensures-test _ _ _ _
        (Ensures-bind (λ (r : FuseKvfsInode × KvfsMount K.State). Ordered r.1) _ _ _
          (log_child-Ordered this child name xid _
            (Pending-same xid m _ (log-update_inode machine this _ m) h))
          (λ (i, m') h'. Keeps-reply _ m' h'))
        (Keeps-after m _ _ (log-release K layout hash machine 1 child m) (Pending-Ordered xid m h)
          (λ (_, m') h'. Keeps-reply _ m' h'))

  pub mkdir-Ordered :
      (this : ℕ) (name : Bytes) (mode : ℕ) (m : KvfsMount K.State)
      → Ordered m
      → Keeps (Names.mkdir K layout hash machine this name mode m)
  unfolding Names.mkdir mkdir_new
  mkdir-Ordered this name mode m h =
      Keeps-after (refresh_at K layout machine this m).1 _ _
        (log-find_child K layout hash machine this name _)
        (Ordered-same m _ (log-refresh_at K layout hash machine this m) h)
        (λ (child, m') h'.
          Ensures-test _ _ _ _
            (Keeps-after-Pending (next_xid m').0 (get_next_ino (next_xid m').1).1 _ _
              (log-make_child K layout hash machine this _ name _ _ _)
              (Pending-same _ (next_xid m').1 _ (log-get_next_ino machine _)
                (next_xid-Pending m' h'))
              (λ (err, m3) h3. finish_mkdir-Ordered this _ name _ err m3 h3))
            (Keeps-reply _ m' h'))
