-- ===== src/Key.antt =====
-- The keys of the key-value store, as snprintf writes them: an inode under "%lu" and a file chunk
-- or a directory partition under "%lu.%lu" or "%lu.%d" (src/KVFSFile.cc,
-- src/KVFSDirectoryPartition.cc). The buffers of 128 bytes hold two 64-bit numbers and a dot, so
-- nothing is cut.
pub mod Decimal
pub mod Distinct
use kvfs_ra_testing.Base.{ℕ, ◌∷◌, ◌++◌, Bytes}
use Decimal.{decimal}

abbrev pub dot : ℕ
dot = b'.'

unfoldable pub inode_key : ℕ → Bytes
inode_key handle = decimal handle

unfoldable pub chunk_key : ℕ → ℕ → Bytes
chunk_key handle chunk = decimal handle ++ dot ∷ decimal chunk

unfoldable pub partition_key : ℕ → ℕ → Bytes
partition_key dir_ino partition_number = decimal dir_ino ++ dot ∷ decimal partition_number
