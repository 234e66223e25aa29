-- ===== src/File/Write.antt =====
-- LogFSFile::write (src/KVFSFile.cc): a write goes chunk by chunk, each read if it is not wholly
-- replaced, patched, and put back. Offsets are those of files below 2^63 bytes, so that `off_t` does
-- not overflow; `fileInitialSize` is 0 in every file that the program makes, and at offsets below it
-- the EXPECT aborts.
pub mod Patch
pub mod Chunk
pub mod Loop
pub mod Start
pub mod Result
pub mod Data
use kvfs_ra_testing.Base.{
  ℕ, zero, suc, ◌+◌, ◌-◌, ◌*◌, ◌/◌, ◌%◌, ◌^◌, Bool, true, false, Option, none, some, [], Bytes,
  length, take, drop, resize, replace, min, leb, ltb, ◌==◌, if◌then◌else◌,
}
use kvfs_ra_testing.Status.{Status, ok, internal_error, is_ok}
use kvfs_ra_testing.Key.{chunk_key}
use kvfs_ra_testing.Store.{KvStore}
use kvfs_ra_testing.Meta.{MetaData}
use kvfs_ra_testing.File.{MetaLayout, LogFsFile, flush}
use kvfs_ra_testing.File.Content.{or_empty}

-- UpdateMTime, UpdateCTime: `time_t` is cut to 32 bits.
unfoldable pub update_m_time : ℕ → MetaData → MetaData
update_m_time new_time m = record m { mtime = new_time % 2 ^ 32; mtime_nsec = 0 }

unfoldable pub update_c_time : ℕ → MetaData → MetaData
update_c_time new_time m = record m { ctime = new_time % 2 ^ 32; ctime_nsec = 0 }

-- How the loop over the chunks goes on: `failed` is the `break` after a put that fails, `aborted` the
-- abort of an EXPECT.
pub data Exit : Type 0 where
  running failed aborted : Exit

-- The variables of the loop: the offset, what is left of the buffer and of the length, and the store.
pub record Writing (S : Type 0) : Type 0 where
  pub offset : ℕ
  pub left : ℕ
  pub buf : Bytes
  pub exit : Exit
  pub store : S

abbrev pub continue : {A : Type 0} → Exit → A → A → A
continue running next stop = next
continue failed next stop = stop
continue aborted next stop = stop

-- `value.resize(end)` if the value is shorter.
unfoldable pub widen : ℕ → Bytes → Bytes
widen end value = if ltb (length value) end then resize end value else value

-- Then `value.replace(chunk_off, ..., src)`.
unfoldable pub patch : ℕ → ℕ → Bytes → Bytes → Bytes
patch chunk_off end src value = replace chunk_off src (widen end value)

-- Whether the old value of the chunk has to be read.
unfoldable pub do_get : MetaData → ℕ → ℕ → ℕ → Bool
do_get m chunk_off offset left =
    if chunk_off == 0
    then (if leb m.file_chunk_size left
        then false
        else if offset == m.file_total_size
        then false
        else true)
    else true

module _ (K : KvStore) where
  unfoldable pub old_value : ℕ → MetaData → ℕ → ℕ → Writing K.State → Bytes
  old_value handle m chunk base w =
      if do_get m (w.offset - base) w.offset w.left
      then or_empty (K.get w.store (chunk_key handle chunk))
      else []

  -- The put of a patched chunk, and the step past it.
  unfoldable pub put_chunk : ℕ → ℕ → ℕ → Bytes → Writing K.State → Writing K.State
  put_chunk handle chunk copy value w =
      let (done, s') = K.put w.store (chunk_key handle chunk) value in
      if done
      then (record {
        offset = w.offset + copy;
        left = w.left - copy;
        buf = drop copy w.buf;
        exit = running;
        store = s';
      })
      else (record w { exit = failed; store = s' })

  -- The body of the loop, for a chunk that begins at `base`.
  unfoldable pub write_at : ℕ → MetaData → ℕ → ℕ → Writing K.State → Writing K.State
  write_at handle m chunk base w =
      let end = min (w.offset + w.left) (base + m.file_chunk_size) in
      let copy = end - w.offset in
      let value =
        patch (w.offset - base) (end - base) (take copy w.buf) (old_value handle m chunk base w) in
      if ltb w.offset base
      then record w { exit = aborted }
      else if ltb 0 copy
      then put_chunk handle chunk copy value w
      else w

  unfoldable pub write_chunk : ℕ → MetaData → ℕ → Writing K.State → Writing K.State
  write_chunk handle m chunk w =
      write_at handle m chunk (m.file_initial_size + chunk * m.file_chunk_size) w

  unfoldable pub write_loop : ℕ → MetaData → ℕ → ℕ → Writing K.State → Writing K.State
  write_loop handle m zero chunk w = w
  write_loop handle m (suc rounds) chunk w =
      let w' = write_chunk handle m chunk w in
      let rest = write_loop handle m rounds (suc chunk) w' in continue w'.exit rest w'

  -- All chunks from that of the first byte to that of the last; a write of no bytes still visits one.
  -- C++ divides -1 by the chunk size to 0, as the subtraction that stops at 0 does here.
  unfoldable pub write_chunks : ℕ → MetaData → ℕ → ℕ → Bytes → K.State → Writing K.State
  write_chunks handle m offset length write_buf s =
      let first_chunk = (offset - m.file_initial_size) / m.file_chunk_size in
      let last_chunk = (offset + length - 1 - m.file_initial_size) / m.file_chunk_size in
      write_loop handle m (last_chunk + 1 - first_chunk) first_chunk
        (record { offset = offset; left = length; buf = write_buf; exit = running; store = s })

-- What `write` returns, and the object and the store after it.
pub record Written (S : Type 0) : Type 0 where
  pub status : Status
  pub actual_len : ℕ
  pub file : LogFsFile
  pub store : S

module _ (K : KvStore) (layout : MetaLayout) where
  -- After the loop: the size and the times, and a flush. With `update_meta` off nothing is flushed, and
  -- going past the end of the file is LOG(DFATAL), which aborts as the program is built.
  unfoldable pub finish_write : LogFsFile → K.State → ℕ → ℕ → Bool → ℕ → Option (Written K.State)
  finish_write f s offset actual_len update_meta now =
      let grown = record f.meta {
        file_total_size =
            if ltb f.meta.file_total_size offset then offset else f.meta.file_total_size;
      } in
      let touched = update_c_time now (update_m_time now grown) in
      let (status, f', s') = flush K layout (record f { meta = touched; meta_dirty = true }) s in
      if update_meta
      then some (record {
        status = status;
        actual_len = actual_len;
        file = if is_ok status then record f' { meta_dirty = false } else f';
        store = s';
      })
      else if ltb f.meta.file_total_size offset
      then none
      else some (record { status = ok; actual_len = actual_len; file = f; store = s })

  unfoldable pub end_write :
      Exit → LogFsFile → ℕ → Bool → ℕ → Writing K.State → Option (Written K.State)
  end_write running f offset update_meta now w =
      finish_write f w.store w.offset (w.offset - offset) update_meta now
  end_write failed f offset update_meta now w = some (record {
    status = internal_error;
    actual_len = w.offset - offset;
    file = f;
    store = w.store;
  })
  end_write aborted f offset update_meta now w = none

  -- The whole method. A null buffer is `none`.
  unfoldable pub write :
      LogFsFile → K.State → ℕ → ℕ → Option Bytes → Bool → ℕ → Option (Written K.State)
  write f s offset length none update_meta now =
      some (record { status = ok; actual_len = 0; file = f; store = s })
  write f s offset length (some write_buf) update_meta now =
      let w = write_chunks K f.handle f.meta offset length write_buf s in
      end_write w.exit f offset update_meta now w
