-- ===== src/Tiering/Outward/Copied.antt =====
-- Add of src/tiering/segment.cc, with statFile and readFile of src/FileSystemManager.cc: what is written to disk
-- of a file.
use kvfs_ra_testing.Base.{
  ℕ, ◌<◌, ◌≤◌, ltb, ◌≡◌, ◌≢◌, ◌^◌, ◌&&◌, ◌==◌, refl, sym, ap, ◌∙◌, true, false, none, some, ◌∷◌,
  ◌++◌, Bytes, length, drop, take, at, arith,
}
use kvfs_ra_testing.Tiering.Paths.{path_set}
use kvfs_ra_testing.Status.{Status, ok, is_ok, status_to_errno}
use kvfs_ra_testing.Store.{KvStore}
use kvfs_ra_testing.Meta.{MetaData, resident}
use kvfs_ra_testing.File.{MetaLayout, read_from_log, new_file}
use kvfs_ra_testing.File.Content.{byte_at}
use kvfs_ra_testing.File.Valid.{FileIsValid}
use kvfs_ra_testing.File.Resize.{Stat, stat, stat_of}
use kvfs_ra_testing.Partition.Stored.{take-append}
use kvfs_ra_testing.Mount.{Machine}
use kvfs_ra_testing.Manager.{FileSystemManager, file_of, read_file, stat_file, or_faked}
use kvfs_ra_testing.Manager.Stored.{OwnInode, read_file-stored}
use kvfs_ra_testing.Tiering.Agents.{s_isreg}
use kvfs_ra_testing.Tiering.Outward.{
  Disk, OutSegment, dir_path, read_buf, write_copy, copy_file, copy_object, add_path, add,
}

module _ (K : KvStore) (layout : MetaLayout) (hash : Bytes → ℕ) (machine : Machine) (D : Disk)
    (malloc : ℕ → Bytes) where
  -- A buffer that was read full.
  read_buf-full :
      (size : ℕ) (out : Bytes)
      → length out ≡ size
      → read_buf K layout hash machine D malloc size out ≡ out
  unfolding read_buf
  read_buf-full size out full =
      ap (λ (n : ℕ). take n (out ++ drop (length out) (malloc size))) (sym full)
      ∙ take-append out (drop (length out) (malloc size))

  stat_file-own :
      (fs_id handle : ℕ) (meta : MetaData) (fs : FileSystemManager K.State)
      → OwnInode K layout hash machine fs_id handle meta fs.store
      → s_isreg (stat_of meta).st_mode ≡ true
      → stat_file K layout hash machine fs_id handle fs ≡ (ok, stat_of meta)
  unfolding stat_file or_faked stat read_from_log file_of new_file
  stat_file-own fs_id handle meta fs o regular =
      let same : ((meta.fs_id == fs_id) && (meta.handle == handle)) ≡ true =
        rw (o.fs, o.own) (ground arith) in
      simp (stat_file, stat, o.stored, layout.overlay-bytes meta, same, regular) refl

  size-stat_of : (meta : MetaData) → (stat_of meta).st_size ≡ meta.file_total_size
  unfolding stat_of
  size-stat_of meta = refl

  -- A regular file of which readFile fills the buffer.
  copy_object-full :
      (segment : OutSegment) (inode_num : ℕ) (path : Bytes) (st : Stat)
      (fs : FileSystemManager K.State) (w : D.World) (status : Status) (len : ℕ) (out : Bytes)
      → s_isreg st.st_mode ≡ true
      → 8 ≤ st.st_size
      → read_file K layout hash machine segment.fs_id inode_num 0 st.st_size fs
        ≡ some (status, len, out, fs)
      → length out ≡ st.st_size
      → (let (err, w') =
            write_copy K layout hash machine D malloc
              (segment.temp_dir ++ b'/' ∷ path)
              st.st_mode
              out
              w in
          copy_object K layout hash machine D malloc segment inode_num path st fs w
          ≡ some (err, fs, w'))
  unfolding copy_object copy_file
  copy_object-full segment inode_num path st fs w status len out regular eight e full =
      let enough : ltb st.st_size 8 ≡ false = ground (arith, eight) in
      rw (copy_object, regular, copy_file, enough, e, read_buf-full st.st_size out full) refl

  -- Where the directory is made and the file opened, the copy is what the disk makes of the bytes.
  write_copy-opened :
      (full_path : Bytes) (mode : ℕ) (buf : Bytes) (w w1 w2 : D.World)
      → D.mkdir_path w (dir_path full_path) ≡ (0, w1)
      → D.create_file w1 full_path mode ≡ (0, w2)
      → write_copy K layout hash machine D malloc full_path mode buf w
        ≡ D.write_file w2 full_path buf
  unfolding write_copy
  write_copy-opened full_path mode buf w w1 w2 made opened =
      rw (write_copy, made, made, opened, made, opened) refl

  add_path-done :
      (err inode_num : ℕ) (path : Bytes) (segment : OutSegment)
      → (err ≡ 0
          → add_path K layout hash machine D malloc err inode_num path segment
            ≡ record segment { inode_paths = path_set inode_num path segment.inode_paths })
        × (err ≢ 0 → add_path K layout hash machine D malloc err inode_num path segment ≡ segment)
  unfolding add_path
  add_path-done err inode_num path segment =
      (λ done. rw (add_path, done) refl, λ failed. ground (arith, failed))

  add-object :
      (segment : OutSegment) (inode_num : ℕ) (path : Bytes) (st : Stat)
      (fs : FileSystemManager K.State) (w : D.World) (err : ℕ) (w' : D.World)
      → stat_file K layout hash machine segment.fs_id inode_num fs ≡ (ok, st)
      → copy_object K layout hash machine D malloc segment inode_num path st fs w
        ≡ some (err, fs, w')
      → add K layout hash machine D malloc segment inode_num path fs w
        ≡ some (err, add_path K layout hash machine D malloc err inode_num path segment, fs, w')
  unfolding add is_ok
  add-object segment inode_num path st fs w err w' e e' =
      ap
        (λ (r : Status × Stat). elim (is_ok r.0) [
          | false ↦ some (status_to_errno r.0, segment, fs, w)
          | true ↦
              elim (copy_object K layout hash machine D malloc segment inode_num path r.1 fs w) [
                | none ↦ none
                | some (err, fs', w') ↦ some (
                  err,
                  add_path K layout hash machine D malloc err inode_num path segment,
                  fs',
                  w',
                )
              ]
        ])
        e
      ∙ rw e' refl

  -- For a snapshot with a regular file that is its own inode, valid, resident, of eight bytes at least and
  -- below 2^63, and a disk that makes the directory of the copy and opens it: Add returns, with the
  -- file system as before and the disk as the write to the copy leaves it, and the bytes that it writes
  -- are those of the file, from the first to the last, whatever malloc finds. With errno 0 from
  -- the write the segment has the path of the inode added, and is otherwise as before, and with another
  -- errno, which is the one returned, all of the segment is as before.
  pub add-Copied :
      (segment : OutSegment) (inode_num : ℕ) (path : Bytes) (meta : MetaData)
      (fs : FileSystemManager K.State) (w w1 w2 : D.World)
      → OwnInode K layout hash machine segment.fs_id inode_num meta fs.store
      → FileIsValid K (record (file_of segment.fs_id inode_num 0) { meta = meta }) fs.store
      → meta.eviction_state ≡ resident
      → 8 ≤ meta.file_total_size
      → meta.file_total_size < 2 ^ 63
      → s_isreg (stat_of meta).st_mode ≡ true
      → D.mkdir_path w (dir_path (segment.temp_dir ++ b'/' ∷ path)) ≡ (0, w1)
      → D.create_file w1 (segment.temp_dir ++ b'/' ∷ path) (stat_of meta).st_mode ≡ (0, w2)
      → (content : Bytes) × (length content ≡ meta.file_total_size)
        × ((j : ℕ)
            → j < meta.file_total_size
            → at content j ≡ byte_at K inode_num meta.file_chunk_size fs.store j)
        × (segment' : OutSegment) × (let (err, w') =
              D.write_file w2 (segment.temp_dir ++ b'/' ∷ path) content in
            (add K layout hash machine D malloc segment inode_num path fs w
              ≡ some (err, segment', fs, w'))
            × (err ≡ 0
                → segment'
                  ≡ record segment { inode_paths = path_set inode_num path segment.inode_paths })
            × (err ≢ 0 → segment' ≡ segment))
  add-Copied segment inode_num path meta fs w w1 w2 o v here eight small regular made opened =
      let st = stat_of meta in
      let size = meta.file_total_size in
      let full_path = segment.temp_dir ++ b'/' ∷ path in
      let read_size : st.st_size ≡ size = size-stat_of meta in
      let (out, e, long, bytes) =
        read_file-stored K layout hash machine segment.fs_id inode_num 0 st.st_size meta fs o v here
          (omega arith) small in
      let full : length out ≡ st.st_size = omega (arith, long, read_size) in
      let copied =
        copy_object-full segment inode_num path st fs w ok _ out regular
          (omega (arith, eight, read_size)) e full in
      let written = write_copy-opened full_path st.st_mode out w w1 w2 made opened in
      let copied_so : copy_object K layout hash machine D malloc segment inode_num path st fs w
          ≡ some ((D.write_file w2 full_path out).0, fs, (D.write_file w2 full_path out).1) =
        copied ∙ ap (λ (r : ℕ × D.World). some (r.0, fs, r.1)) written in
      let (done, failed) = add_path-done (D.write_file w2 full_path out).0 inode_num path segment in
      (
        out,
        full ∙ read_size,
        λ j inside.
            bytes j (omega (arith, inside, read_size))
            ∙ ap (λ (k : ℕ). byte_at K inode_num meta.file_chunk_size fs.store k) (omega arith),
        add_path K layout hash machine D malloc (D.write_file w2 full_path out).0 inode_num path
            segment,
        (
          add-object segment inode_num path st fs w _ _
              (stat_file-own segment.fs_id inode_num meta fs o regular) copied_so,
          done,
          failed,
        ),
      )
