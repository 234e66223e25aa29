-- ===== src/File/Read.antt =====
-- The copying part of LogFSFile::read (src/KVFSFile.cc), on data that is held in the store. Lengths
-- are `size_t`, which wraps; offsets are those of files below 2^63 bytes. The bytes that memcpy and
-- memset lay one behind the other in the caller's buffer are a list, however long that buffer is.
pub mod Round
pub mod Loop
use kvfs_ra_testing.Base.{
  ℕ, zero, suc, ◌+◌, ◌-◌, ◌*◌, ◌/◌, ◌%◌, ◌^◌, ◌++◌, [], Bytes, Option, none, some, length, take,
  drop, replicate, min, ltb, ◌==◌, if◌then◌else◌,
}
use kvfs_ra_testing.Key.{chunk_key}
use kvfs_ra_testing.Store.{KvStore}
use kvfs_ra_testing.Meta.{MetaData}
use kvfs_ra_testing.File.Content.{or_empty}

-- a - b in 64 bits
unfoldable pub sub64 : ℕ → ℕ → ℕ
sub64 a b = (a + 2 ^ 64 - b) % 2 ^ 64

-- The variables of the loop: the offset, what is left of the length, and the bytes laid out so far.
pub record Reading : Type 0 where
  pub offset : ℕ
  pub left : ℕ
  pub out : Bytes

-- memcpy of what the chunk has from the offset on; a length of 2^63 or more is negative as a ptrdiff_t.
unfoldable pub copy_value : ℕ → Bytes → Reading → Reading
copy_value chunk_off value r =
    let avail = length value - chunk_off in
    let copy = if ltb r.left (2 ^ 63) then min avail r.left else 0 in
    record {
      offset = r.offset + copy;
      left = r.left - copy;
      out = r.out ++ take copy (drop chunk_off value);
    }

-- memset for the rest of the chunk, if more is wanted.
unfoldable pub zero_fill : ℕ → Reading → Reading
zero_fill next_base r =
    let zero_bytes = min r.left (sub64 next_base r.offset) in
    if ltb 0 r.left
    then record {
      offset = r.offset + zero_bytes;
      left = r.left - zero_bytes;
      out = r.out ++ replicate zero_bytes 0;
    }
    else r

module _ (K : KvStore) where
  -- The body of the loop, for a chunk that begins at `base`; `none` is the abort of the EXPECT that
  -- the offset is in the chunk.
  unfoldable pub read_at : ℕ → MetaData → K.State → ℕ → ℕ → Reading → Option Reading
  read_at handle m s chunk base r =
      let value = or_empty (K.get s (chunk_key handle chunk)) in
      if ltb r.offset base
      then none
      else some (zero_fill (base + m.file_chunk_size) (copy_value (r.offset - base) value r))

  unfoldable pub read_chunk : ℕ → MetaData → K.State → ℕ → Reading → Option Reading
  read_chunk handle m s chunk r =
      read_at handle m s chunk (m.file_initial_size + chunk * m.file_chunk_size) r

  unfoldable pub read_loop : ℕ → MetaData → K.State → ℕ → ℕ → Reading → Option Reading
  read_loop handle m s zero chunk r = some r
  read_loop handle m s (suc rounds) chunk r = elim (read_chunk handle m s chunk r) [
    | none ↦ none
    | some r' ↦ read_loop handle m s rounds (suc chunk) r'
  ]

  -- One past the chunk of the last byte, whose offset is an `off_t`: above 2^63 it is negative, and
  -- C++ divides towards zero, so the last chunk is then 0 or before all chunks.
  unfoldable pub chunk_end : ℕ → ℕ → ℕ
  chunk_end last_byte_off size =
      if ltb last_byte_off (2 ^ 63)
      then last_byte_off / size + 1
      else if ltb (2 ^ 64 - last_byte_off) size
      then 1
      else 0

  -- The part of `read` between HoldData and ReleaseData.
  unfoldable pub read_chunks : ℕ → MetaData → K.State → ℕ → ℕ → Option Reading
  read_chunks handle m s offset len =
      let start : Reading = record { offset = offset; left = len; out = [] } in
      let first_chunk = (offset - m.file_initial_size) / m.file_chunk_size in
      let last_byte_off = (offset + (len - 1 - m.file_initial_size)) % 2 ^ 64 in
      if ltb m.file_initial_size len
      then read_loop handle m s (chunk_end last_byte_off m.file_chunk_size - first_chunk)
          first_chunk start
      else some start
