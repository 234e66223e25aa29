-- ===== src/File/Valid.antt =====
-- What every method may rely on of a regular file and its data in the store.
use kvfs_ra_testing.Base.{ℕ, ◌≤◌, ◌<◌, ◌≡◌, ◌^◌}
use kvfs_ra_testing.Store.{KvStore}
use kvfs_ra_testing.File.{LogFsFile}
use kvfs_ra_testing.File.Content.{ChunksFit, byte_at}

-- The data begins at offset 0, the object has the handle of its inode, the chunk size is a
-- positive uint32_t, no chunk is longer, and all beyond the end of the file reads as zeros.
pub record FileIsValid (K : KvStore) (f : LogFsFile) (s : K.State) : Type 0 where
  pub chunk_pos : 0 < f.meta.file_chunk_size
  pub chunk_u32 : f.meta.file_chunk_size < 2 ^ 32
  pub no_initial : f.meta.file_initial_size ≡ 0
  pub own : f.handle ≡ f.meta.handle
  pub fit : ChunksFit K f.handle f.meta.file_chunk_size s
  pub blank :
      (i : ℕ) → f.meta.file_total_size ≤ i → byte_at K f.handle f.meta.file_chunk_size s i ≡ 0
