-- ===== src/File/Resize.antt =====
-- Changing the size of a file in src/KVFSFile.cc: ResizeData, which removes and shortens chunks, and
-- SetSize and Evict, which use it; open and stat, by which these two read the inode again. Sizes
-- are below 2^63. `none` is an abort.
pub mod Round
pub mod Loop
pub mod Truncate
pub mod Away
use kvfs_ra_testing.Base.{
  ℕ, zero, suc, ◌+◌, ◌-◌, ◌*◌, ◌/◌, ◌%◌, ◌^◌, Bool, true, false, ◌&&◌, ◌||◌, not, Option, none,
  some, Bytes, length, resize, ltb, ◌==◌, if◌then◌else◌,
}
use kvfs_ra_testing.Status.{Status, ok, internal_error, object_doesnt_exist, is_ok}
use kvfs_ra_testing.Key.{chunk_key}
use kvfs_ra_testing.Store.{KvStore}
use kvfs_ra_testing.Meta.{MetaData, MetaType, data_evicted, mode_from_meta}
use kvfs_ra_testing.File.{MetaLayout, LogFsFile, read_from_log, flush}

module _ (K : KvStore) where
  -- The chunk that the new end is in: `value.resize(chunk_off)` if it is longer.
  unfoldable pub shorten : Bytes → ℕ → Status → K.State → Status × K.State
  shorten chunk_key chunk_off status s = elim (K.get s chunk_key) [
    | none ↦ (status, s)
    | some value ↦
        let (done, s') = K.put s chunk_key (resize chunk_off value) in
        if ltb chunk_off (length value)
        then (if done then (status, s') else (internal_error, s'))
        else (status, s)
  ]

  unfoldable pub resize_chunk : ℕ → ℕ → ℕ → ℕ → ℕ → ℕ → Status → K.State → Status × K.State
  resize_chunk handle new_size file_chunk_size file_initial_size first_chunk chunk status s =
      let chunk_off = new_size - (file_initial_size + chunk * file_chunk_size) in
      if (chunk == first_chunk) && (ltb 0 chunk_off && ltb chunk_off file_chunk_size)
      then shorten (chunk_key handle chunk) chunk_off status s
      else (status, (K.remove s (chunk_key handle chunk)).1)

  unfoldable pub resize_loop : ℕ → ℕ → ℕ → ℕ → ℕ → ℕ → ℕ → Status → K.State → Status × K.State
  resize_loop handle new_size size initial first_chunk zero chunk status s = (status, s)
  resize_loop handle new_size size initial first_chunk (suc rounds) chunk status s =
      let next = resize_chunk handle new_size size initial first_chunk chunk status s in
      resize_loop handle new_size size initial first_chunk rounds (suc chunk) next.0 next.1

  unfoldable pub resize_data : ℕ → ℕ → ℕ → ℕ → ℕ → K.State → Status × K.State
  resize_data handle new_size old_size file_chunk_size file_initial_size s =
      let first_chunk = (new_size - file_initial_size) / file_chunk_size in
      let last_chunk = (old_size - 1 - file_initial_size) / file_chunk_size in
      if ltb new_size old_size
      then resize_loop handle new_size file_chunk_size file_initial_size first_chunk
          (last_chunk + 1 - first_chunk) first_chunk ok s
      else (ok, s)

-- What stat fills in. The nanoseconds are left out: stat and SetAttr have them under a macro that the
-- build does not define.
pub record Stat : Type 0 where
  pub st_dev : ℕ
  pub st_ino : ℕ
  pub st_mode : ℕ
  pub st_nlink : ℕ
  pub st_uid : ℕ
  pub st_gid : ℕ
  pub st_rdev : ℕ
  pub st_size : ℕ
  pub st_blksize : ℕ
  pub st_blocks : ℕ
  pub st_atime : ℕ
  pub st_mtime : ℕ
  pub st_ctime : ℕ

unfoldable pub stat_of : MetaData → Stat
stat_of m = record {
  st_dev = m.dev_id;
  st_ino = m.handle;
  st_mode = mode_from_meta m.type m.protection;
  st_nlink = m.n_link;
  st_uid = m.user_id;
  st_gid = m.group_id;
  st_rdev = m.r_dev;
  st_size = m.file_total_size;
  st_blksize = m.file_chunk_size;
  st_blocks = m.file_total_size / 512;
  st_atime = m.atime;
  st_mtime = m.mtime;
  st_ctime = m.ctime;
}

module _ (K : KvStore) (layout : MetaLayout) where
  -- Whether the inode was found, and the object with it.
  unfoldable pub open_file : LogFsFile → K.State → Option (Bool × LogFsFile)
  open_file f s = elim (read_from_log K layout f s) [
    | none ↦ some (false, f)
    | some read_buffer ↦
        let m = layout.overlay read_buffer in
        if (m.fs_id == f.fs_id) && (m.handle == f.handle)
        then some (true, record f { meta = m })
        else none
  ]

  -- The statistics, if STATUS_OK, and the object.
  unfoldable pub stat : LogFsFile → K.State → Option Stat × LogFsFile
  stat f s = elim (read_from_log K layout f s) [
    | none ↦ (none, f)
    | some read_buffer ↦
        let m = layout.overlay read_buffer in
        if (m.fs_id == f.fs_id) && (m.handle == f.handle)
        then (some (stat_of m), record f { meta = m })
        else (none, f)
  ]

  -- SetSize from the call of ResizeData on.
  unfoldable pub resize_file : LogFsFile → K.State → ℕ → ℕ → Status × LogFsFile × K.State
  resize_file f s new_size now =
      let (status, s') =
        resize_data K f.handle new_size f.meta.file_total_size f.meta.file_chunk_size
          f.meta.file_initial_size s in
      let touched = record f.meta {
        file_total_size = new_size;
        mtime = now % 2 ^ 32;
        mtime_nsec = 0;
        ctime = now % 2 ^ 32;
        ctime_nsec = 0;
      } in
      let (flushed, f', s'') = flush K layout (record f { meta = touched; meta_dirty = true }) s' in
      if is_ok status
      then (flushed, if is_ok flushed then record f' { meta_dirty = false } else f', s'')
      else (status, f, s')

  unfoldable pub set_size : LogFsFile → K.State → ℕ → ℕ → Option (Status × LogFsFile × K.State)
  set_size f s new_size now = elim (open_file f s) [
    | none ↦ none
    | some (found, f') ↦
        some (if found then resize_file f' s new_size now else (internal_error, f', s))
  ]

  -- Evict after a stat that succeeded. What flush returns is dropped.
  unfoldable pub evict_file : LogFsFile → K.State → ℕ → Status × LogFsFile × K.State
  evict_file f s st_size =
      let (status, s') =
        resize_data K f.handle 0 st_size f.meta.file_chunk_size f.meta.file_initial_size s in
      let away = record f {
        meta = record f.meta { eviction_state = data_evicted };
        meta_dirty = true;
      } in
      let (_, f', s'') = flush K layout away s' in (status, f', s'')

  unfoldable pub after_stat : Option Stat × LogFsFile → K.State → Status × LogFsFile × K.State
  after_stat (none, f') s = (object_doesnt_exist, f', s)
  after_stat (some st, f') s = evict_file f' s st.st_size

  unfoldable pub evict : LogFsFile → K.State → Status × LogFsFile × K.State
  evict f s = after_stat (stat f s) s
