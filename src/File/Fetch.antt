-- ===== src/File/Fetch.antt =====
-- LogFSFile::read (src/KVFSFile.cc) as a whole: the length is limited to the file, the data are held,
-- and the chunks are copied out. `none` is an abort. The time is passed on to UnEvict's writes.
pub mod Content
pub mod Written
use kvfs_ra_testing.Base.{
  ℕ, ◌+◌, ◌-◌, Bool, true, false, Option, none, some, [], Bytes, ltb, if◌then◌else◌,
}
use kvfs_ra_testing.Status.{Status, ok}
use kvfs_ra_testing.Store.{KvStore}
use kvfs_ra_testing.File.{MetaLayout, LogFsFile}
use kvfs_ra_testing.File.Read.{Reading, sub64, read_chunks}
use kvfs_ra_testing.File.Hold.{TieredInFile, hold_data, release_data}

-- What `read` returns, the bytes that it laid out in the caller's buffer, and the object and the store
-- after it.
pub record Fetched (S : Type 0) : Type 0 where
  pub status : Status
  pub actual_len : ℕ
  pub out : Bytes
  pub file : LogFsFile
  pub store : S

-- The length, cut to what the file has past the offset, in a size_t.
unfoldable pub limit_length : LogFsFile → ℕ → ℕ → ℕ
limit_length f offset len =
    if ltb f.meta.file_total_size (offset + len) then sub64 f.meta.file_total_size offset else len

module _ (K : KvStore) (layout : MetaLayout) (now : ℕ) (agent : ℕ → Option TieredInFile) where
  -- The object and the store are those after HoldData.
  unfoldable pub read_held : LogFsFile → K.State → ℕ → ℕ → Option (Fetched K.State)
  read_held f s offset len = elim (read_chunks K f.handle f.meta s offset len) [
    | none ↦ none
    | some r ↦ some (record {
      status = ok;
      actual_len = len - r.left;
      out = r.out;
      file = release_data f;
      store = s;
    })
  ]

  -- `has_buffer` is false for a null buffer.
  unfoldable pub read : LogFsFile → K.State → ℕ → ℕ → Bool → Option (Fetched K.State)
  read f s offset len false =
      some (record { status = ok; actual_len = 0; out = []; file = f; store = s })
  read f s offset len true = elim (hold_data K layout now agent f s) [
    | none ↦ none
    | some (f', s') ↦ read_held f' s' offset (limit_length f offset len)
  ]
