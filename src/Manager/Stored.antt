-- ===== src/Manager/Stored.antt =====
-- FileSystemManager's operations on an inode that is in the store (src/FileSystemManager.cc).
use kvfs_ra_testing.Base.{
  ℕ, ◌+◌, ◌-◌, ◌≤◌, ◌<◌, ◌≡◌, ◌^◌, refl, ◌∙◌, min, true, none, some, [], Bytes, length, at,
}
use kvfs_ra_testing.Status.{ok, object_doesnt_exist}
use kvfs_ra_testing.Key.{inode_key}
use kvfs_ra_testing.Store.{KvStore}
use kvfs_ra_testing.Meta.{MetaData, resident}
use kvfs_ra_testing.File.{MetaLayout, LogFsFile, read_from_log, new_file}
use kvfs_ra_testing.File.Content.{byte_at}
use kvfs_ra_testing.File.Valid.{FileIsValid}
use kvfs_ra_testing.File.Fetch.Content.{read-resident}
use kvfs_ra_testing.File.Resize.{open_file, stat, evict, after_stat}
use kvfs_ra_testing.Directory.Closing.{open_file-own}
use kvfs_ra_testing.Manager.{
  FileSystemManager, file_of, read_file, path_info, open_file_by, evict_by,
}
use kvfs_ra_testing.Mount.{Machine}

module _ (K : KvStore) (layout : MetaLayout) (hash : Bytes → ℕ) (machine : Machine) where
  -- The inode of a file system's own is in the store.
  pub record OwnInode (fs_id handle : ℕ) (meta : MetaData) (s : K.State) : Type 0 where
    pub stored : K.get s (inode_key handle) ≡ some (layout.bytes meta)
    pub fs : meta.fs_id ≡ fs_id
    pub own : meta.handle ≡ handle

  pub open-OwnInode :
      (fs_id handle : ℕ) (meta : MetaData) (s : K.State)
      → OwnInode fs_id handle meta s
      → open_file K layout (file_of fs_id handle 0) s
        ≡ some (true, record (file_of fs_id handle 0) { meta = meta })
  unfolding file_of new_file
  open-OwnInode fs_id handle meta s o =
      open_file-own K layout (file_of fs_id handle 0) s meta o.stored o.fs o.own

  -- For an inode of the file system in the store, which is a valid file that is resident and below 2^63
  -- bytes, and an offset within it: readFile returns STATUS_OK with the bytes from the offset on, up to
  -- the length or the end of the file, and the file system and its store are as before.
  pub read_file-stored :
      (fs_id handle offset len : ℕ) (meta : MetaData) (fs : FileSystemManager K.State)
      → OwnInode fs_id handle meta fs.store
      → FileIsValid K (record (file_of fs_id handle 0) { meta = meta }) fs.store
      → meta.eviction_state ≡ resident
      → offset ≤ meta.file_total_size
      → meta.file_total_size < 2 ^ 63
      → (out : Bytes) × (read_file K layout hash machine fs_id handle offset len fs
          ≡ some (ok, min len (meta.file_total_size - offset), out, fs))
        × (length out ≡ min len (meta.file_total_size - offset))
        × ((j : ℕ)
            → j < min len (meta.file_total_size - offset)
            → at out j ≡ byte_at K handle meta.file_chunk_size fs.store (offset + j))
  unfolding read_file file_of new_file
  read_file-stored fs_id handle offset len meta fs o v here inside small =
      let f : LogFsFile = record (file_of fs_id handle 0) { meta = meta } in
      let (r, e, done, same_store, same_file) =
        read-resident K layout machine.now machine.agent f fs.store v offset len inside small
          here in
      (
        r.out,
        rw
            (
              read_file,
              open-OwnInode fs_id handle meta fs.store o,
              e,
              done.status,
              done.amount,
              same_store,
            )
            refl,
        done.all_laid ∙ done.amount,
        λ j lt. done.bytes j (rw (done.amount) lt),
      )

  -- For an inode that is not in the store: readFile returns no bytes and STATUS_OBJECT_DOESNT_EXIST,
  -- openFile and Evict return that status too, getPathInfo returns nothing, and none of them changes
  -- the file system.
  pub absent-object_doesnt_exist :
      (fs_id handle offset len : ℕ) (fs : FileSystemManager K.State)
      → K.get fs.store (inode_key handle) ≡ none
      → (read_file K layout hash machine fs_id handle offset len fs
          ≡ some (object_doesnt_exist, 0, [], fs))
        × (open_file_by K layout hash machine fs_id handle fs ≡ some object_doesnt_exist)
        × (evict_by K layout hash machine fs_id handle fs ≡ (object_doesnt_exist, fs))
        × (path_info K layout hash machine fs_id handle fs ≡ some none)
  unfolding read_file open_file_by evict_by path_info open_file read_from_log file_of new_file evict
      after_stat stat
  absent-object_doesnt_exist fs_id handle offset len fs absent = (
    rw (read_file, open_file, absent) refl,
    rw (open_file_by, open_file, absent) refl,
    rw (evict_by, evict, stat, absent) refl,
    rw (path_info, open_file, absent) refl,
  )
