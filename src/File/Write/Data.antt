-- ===== src/File/Write/Data.antt =====
-- `write` with the update of the inode left out, as UnEvict calls it: the data alone is changed.
use kvfs_ra_testing.Base.{
  ℕ, ◌+◌, ◌-◌, ◌≤◌, ◌<◌, ◌≡◌, ◌⊎◌, inl, inr, refl, false, some, Bytes, length, arith, ltb,
}
use kvfs_ra_testing.Status.{ok, internal_error}
use kvfs_ra_testing.Store.{KvStore, Run, Refused}
use kvfs_ra_testing.File.{MetaLayout, LogFsFile}
use kvfs_ra_testing.File.Content.{Wrote, Frame}
use kvfs_ra_testing.File.Valid.{FileIsValid}
use kvfs_ra_testing.File.Write.{
  Writing, Written, running, write_chunks, finish_write, end_write, write,
}
use kvfs_ra_testing.File.Write.Loop.{LoopDone}
use kvfs_ra_testing.File.Write.Start.{write_chunks-LoopDone}

module _ (K : KvStore) (layout : MetaLayout) where
  -- The bytes are there with STATUS_OK, or a prefix of them with STATUS_INTERNAL_ERROR, and a put was
  -- refused on the way to the store that is left; the object and all else are as before.
  pub record DataDone (f : LogFsFile) (s : K.State) (pos : 0 < f.meta.file_chunk_size)
      (offset len : ℕ) (buf : Bytes) (r : Written K.State) : Type 0 where
    pub same_file : r.file ≡ f
    pub wrote :
        Wrote K f.handle f.meta.file_chunk_size pos s r.store offset (offset + r.actual_len) buf
    pub bounded : r.actual_len ≤ len
    pub frame : Frame K f.handle f.meta.file_chunk_size s r.store
    pub run : Run K s r.store
    pub valid : FileIsValid K f r.store
    pub outcome :
        ((r.status ≡ ok) × (r.actual_len ≡ len))
        ⊎ ((r.status ≡ internal_error) × Refused K s r.store)

  module _ (f : LogFsFile) (s : K.State) (v : FileIsValid K f s) (offset len : ℕ) (buf : Bytes)
      (enough : len ≤ length buf) (within : offset + len ≤ f.meta.file_total_size) (now : ℕ) where
    abbrev w : Writing K.State
    w = write_chunks K f.handle f.meta offset len buf s

    loop :
        LoopDone K f.handle f.meta v.chunk_pos v.no_initial
          (record { offset = offset; left = len; buf = buf; exit = running; store = s })
          w
    loop =
        write_chunks-LoopDone K f.handle f.meta v.chunk_pos v.no_initial offset len buf s enough
          v.fit (λ i lo past. v.blank i past)

    reached : offset ≤ w.offset → offset + (w.offset - offset) ≡ w.offset
    reached fwd = omega arith

    still_valid : w.offset ≤ f.meta.file_total_size → FileIsValid K f w.store
    still_valid inside = record {
      chunk_pos = v.chunk_pos;
      chunk_u32 = v.chunk_u32;
      no_initial = v.no_initial;
      own = v.own;
      fit = loop.fit;
      blank = λ i past. ground (arith, loop.wrote i, v.blank i);
    }

    -- For a valid file, a buffer that is long enough and a range within the file: `write` without the
    -- update of the inode returns, and does what DataDone says.
    pub write-DataDone :
        (r : Written K.State) × (write K layout f s offset len (some buf) false now ≡ some r)
        × DataDone f s v.chunk_pos offset len buf r
    unfolding write end_write finish_write
    write-DataDone = elim loop.outcome [
      | inl (run, all) ↦
          let inside : ltb f.meta.file_total_size w.offset ≡ false = ground arith in
          (
            record { status = ok; actual_len = w.offset - offset; file = f; store = w.store },
            simp (run, inside),
            record {
              same_file = refl;
              wrote = rw (reached loop.forward) loop.wrote;
              bounded = omega arith;
              frame = loop.frame;
              run = loop.run;
              valid = still_valid (omega arith);
              outcome = inl (refl, omega arith);
            },
          )
      | inr (stop, part, why) ↦ (
        record {
          status = internal_error;
          actual_len = w.offset - offset;
          file = f;
          store = w.store;
        },
        simp stop,
        record {
          same_file = refl;
          wrote = rw (reached loop.forward) loop.wrote;
          bounded = omega arith;
          frame = loop.frame;
          run = loop.run;
          valid = still_valid (omega arith);
          outcome = inr (refl, why);
        },
      )
    ]
