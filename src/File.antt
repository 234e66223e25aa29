-- ===== src/File.antt =====
-- src/KVFSFile.h: the state of a LogFSFile, and the operations that its methods share
-- (src/KVFSFile.cc). A method takes the object and the store and returns both. `none` is an abort by
-- a failed assertion or EXPECT. The clock is an argument, and stands still within one call.
pub mod Content
pub mod Valid
pub mod Write
pub mod Read
pub mod Hold
pub mod Fetch
pub mod Resize
use kvfs_ra_testing.Base.{ℕ, ◌≡◌, Bool, false, Option, Bytes, ◌==◌, if◌then◌else◌}
use kvfs_ra_testing.Status.{Status, ok, internal_error}
use kvfs_ra_testing.Key.{inode_key}
use kvfs_ra_testing.Store.{KvStore}
use kvfs_ra_testing.Meta.{MetaData, new_meta}

-- How the compiler lays a LogFSMetaData out in memory: the code appends the bytes of the struct to a
-- string, and reads a string back by a cast.
pub record MetaLayout : Type 0 where
  pub bytes : MetaData → Bytes
  pub overlay : Bytes → MetaData
  pub overlay-bytes : (m : MetaData) → overlay (bytes m) ≡ m

-- LogFSFile, without the pointers to the store and the tiering agent, which are arguments here, and
-- without the partitions of a directory.
pub record LogFsFile : Type 0 where
  pub fs_id : ℕ
  pub handle : ℕ
  pub name_string : Bytes
  pub meta : MetaData
  pub mode : ℕ
  pub meta_dirty : Bool
  pub data_hold_count : ℕ

-- The constructor LogFSFile(fsId, file_name, handle, ..., modeInput, initialSize, chunkSize).
unfoldable pub new_file : ℕ → Bytes → ℕ → ℕ → ℕ → ℕ → LogFsFile
unfolding new_meta
new_file fs_id file_name handle mode_input initial_size chunk_size = record {
  fs_id = fs_id;
  handle = handle;
  name_string = file_name;
  meta = new_meta initial_size chunk_size;
  mode = mode_input;
  meta_dirty = false;
  data_hold_count = 0;
}

module _ (K : KvStore) (layout : MetaLayout) where
  unfoldable pub write_to_log : LogFsFile → K.State → Status × K.State
  write_to_log f s =
      let (done, s') = K.put s (inode_key f.handle) (layout.bytes f.meta) in
      if done then (ok, s') else (internal_error, s')

  -- STATUS_OK with the value that was read, or `none` for STATUS_OBJECT_DOESNT_EXIST.
  unfoldable pub read_from_log : LogFsFile → K.State → Option Bytes
  read_from_log f s = K.get s (inode_key f.handle)

  unfoldable pub flush : LogFsFile → K.State → Status × LogFsFile × K.State
  flush f s =
      if f.handle == f.meta.handle
      then (let (done, s') = K.put s (inode_key f.handle) (layout.bytes f.meta) in
          if done then (ok, record f { meta_dirty = false }, s') else (internal_error, f, s'))
      else (internal_error, f, s)
