-- ===== src/Mount/Ordered/Ops.antt =====
-- The operations of src/fuse_kvfs_ops.cc, in any sequence, keep the xids of the change log in order.
use kvfs_ra_testing.Base.{
  ℕ, refl, Option, none, some, Bytes, ◌==◌, Ensures-none, Ensures-if, if-both,
}
use kvfs_ra_testing.Store.{KvStore}
use kvfs_ra_testing.File.{MetaLayout}
use kvfs_ra_testing.Mount.{Machine, KvfsMount, Reply}
use kvfs_ra_testing.Mount.Cache.{hold_inode}
use kvfs_ra_testing.Mount.Ops.{
  Request, then_release, fi_to_inode, forget_if, fk_getattr, fk_setattr, fk_lookup, fk_forget,
  fk_open, fk_opendir, fk_read, fk_write, fk_flush, fk_create, fk_mkdir, fk_rmdir, fk_unlink,
  fk_link, fk_release, fk_releasedir, serve, Serves, serves_nothing, serves_next,
}
use kvfs_ra_testing.Mount.Kept.{log-release, log-hold_inode, log-free_inode}
use kvfs_ra_testing.Mount.Ordered.{
  Ordered, Ordered-same, Keeps, Keeps-reply, Keeps-after, lookup-Ordered, create-Ordered,
  mkdir-Ordered,
}
use kvfs_ra_testing.Mount.Ordered.Removal.{rmdir-Ordered, unlink-Ordered, link-Ordered}
use kvfs_ra_testing.Mount.Ordered.Data.{
  getattr_reply-Ordered, read-Ordered, write-Ordered, flush_inode-Ordered, setattr-Ordered,
}

module _ (K : KvStore) (layout : MetaLayout) (hash : Bytes → ℕ) (machine : Machine) where
  then_release-Ordered :
      (ino : ℕ) (o : Option (Reply × KvfsMount K.State))
      → Keeps o
      → Keeps (then_release K layout hash machine ino o)
  unfolding then_release
  then_release-Ordered ino none h = h
  then_release-Ordered ino (some (reply, m)) h =
      Keeps-after m _ _ (log-release K layout hash machine 1 ino m) (h (reply, m) refl)
        (λ (_, m') h'. Keeps-reply _ m' h')

  fi_to_inode-Ordered :
      (ino : ℕ) (m : KvfsMount K.State) (o : Option (Reply × KvfsMount K.State))
      → Keeps o
      → Keeps (fi_to_inode K layout hash machine ino m o)
  unfolding fi_to_inode
  fi_to_inode-Ordered ino m o h = Ensures-if _ _ _ _ h (Ensures-none _)

  held-Ordered : (ino : ℕ) (m : KvfsMount K.State) → Ordered m → Ordered (hold_inode machine ino m)
  held-Ordered ino m h = Ordered-same m _ (log-hold_inode machine ino m) h

  fk_forget-Ordered :
      (ino nlookup : ℕ) (m : KvfsMount K.State)
      → Ordered m
      → Keeps (fk_forget K layout hash machine ino nlookup m)
  unfolding fk_forget forget_if
  fk_forget-Ordered ino nlookup m h =
      Keeps-after _ _ _ (log-release K layout hash machine _ ino _) (held-Ordered ino m h)
        (λ (left, m') h'. Keeps-reply _ _ (
          if-both Ordered (left == 0) _ m' (Ordered-same m' _ (log-free_inode machine ino m') h')
            h'))

  serve-Ordered :
      (request : Request) (m : KvfsMount K.State)
      → Ordered m
      → Keeps (serve K layout hash machine request m)
  unfolding serve fk_getattr fk_setattr fk_lookup fk_open fk_opendir fk_read fk_write fk_flush
      fk_create fk_mkdir fk_rmdir fk_unlink fk_link fk_release fk_releasedir
  serve-Ordered (Request.getattr ino) m h =
      then_release-Ordered ino _
        (Keeps-reply _ _ (getattr_reply-Ordered K layout hash machine ino _ (held-Ordered ino m h)))
  serve-Ordered (Request.setattr ino attr to_set) m h =
      then_release-Ordered ino _
        (setattr-Ordered K layout hash machine ino attr to_set _ (held-Ordered ino m h))
  serve-Ordered (Request.lookup parent name) m h =
      then_release-Ordered parent _
        (lookup-Ordered K layout hash machine parent name _ (held-Ordered parent m h))
  serve-Ordered (Request.forget ino nlookup) m h = fk_forget-Ordered ino nlookup m h
  serve-Ordered (Request.opendir ino) m h = Keeps-reply _ _ (held-Ordered ino m h)
  serve-Ordered (Request.open_file ino) m h = Keeps-reply _ _ (held-Ordered ino m h)
  serve-Ordered (Request.read ino size off) m h =
      fi_to_inode-Ordered ino m _ (read-Ordered K layout hash machine ino size off m h)
  serve-Ordered (Request.write ino buf size off) m h =
      fi_to_inode-Ordered ino m _ (write-Ordered K layout hash machine ino buf size off m h)
  serve-Ordered (Request.flush ino) m h =
      fi_to_inode-Ordered ino m _ (flush_inode-Ordered K layout hash machine ino m h)
  serve-Ordered (Request.create parent name mode) m h =
      then_release-Ordered parent _
        (create-Ordered K layout hash machine parent name mode _ (held-Ordered parent m h))
  serve-Ordered (Request.mkdir parent name mode) m h =
      then_release-Ordered parent _
        (mkdir-Ordered K layout hash machine parent name mode _ (held-Ordered parent m h))
  serve-Ordered (Request.rmdir parent name) m h =
      then_release-Ordered parent _
        (rmdir-Ordered K layout hash machine parent name _ (held-Ordered parent m h))
  serve-Ordered (Request.unlink parent name) m h =
      then_release-Ordered parent _
        (unlink-Ordered K layout hash machine parent name _ (held-Ordered parent m h))
  serve-Ordered (Request.link ino new_parent new_name) m h =
      then_release-Ordered new_parent _
        (link-Ordered K layout hash machine new_parent ino new_name _ (held-Ordered new_parent m h))
  serve-Ordered (Request.mknod parent name mode rdev) m h = Keeps-reply _ m h
  serve-Ordered (Request.readlink ino) m h = Keeps-reply _ m h
  serve-Ordered (Request.close_file ino) m h =
      fi_to_inode-Ordered ino m _ (then_release-Ordered ino _ (Keeps-reply _ m h))
  serve-Ordered (Request.close_dir ino) m h =
      fi_to_inode-Ordered ino m _ (then_release-Ordered ino _ (Keeps-reply _ m h))

  -- For a mount whose change log has xids that go up and are below the next xid, and any sequence of
  -- FUSE calls that are answered, without readdir: the log has xids that go up and are below the next
  -- xid afterwards.
  pub Serves-Ordered :
      (m m' : KvfsMount K.State) → Ordered m → Serves K layout hash machine m m' → Ordered m'
  Serves-Ordered _ _ h (serves_nothing m) = h
  Serves-Ordered _ _ h (serves_next m m' m'' request reply before e) =
      serve-Ordered request m' (Serves-Ordered m m' h before) (reply, m'') e
