-- ===== src/File/Write/Result.antt =====
-- The whole of `write`, with the update of the inode: what clients may rely on.
use kvfs_ra_testing.Base.{
  ℕ, ◌+◌, ◌-◌, ◌≤◌, ◌<◌, ◌≡◌, ◌≢◌, ◌⊎◌, inl, inr, refl, ◌∙◌, true, false, some, Bytes, length, max,
  arith, ltb, if◌then◌else◌, Bool-cases, ◌==◌,
}
use kvfs_ra_testing.Status.{ok, internal_error, is_ok}
use kvfs_ra_testing.Key.{inode_key, chunk_key}
use kvfs_ra_testing.Store.{KvStore, Refused, Refused-put, Refused-after}
use kvfs_ra_testing.File.{MetaLayout, LogFsFile, flush}
use kvfs_ra_testing.File.Content.{byte_at, Wrote, chunk_at-put_inode, byte_at-put_inode}
use kvfs_ra_testing.File.Valid.{FileIsValid}
use kvfs_ra_testing.File.Write.{
  Writing, Written, running, failed, write_chunks, finish_write, end_write, write, update_m_time,
  update_c_time,
}
use kvfs_ra_testing.File.Write.Loop.{LoopDone}
use kvfs_ra_testing.File.Write.Start.{write_chunks-LoopDone}

module _ (K : KvStore) (layout : MetaLayout) where
  abbrev size_of : LogFsFile → ℕ
  size_of f = f.meta.file_chunk_size

  -- A write that succeeded: all bytes are there, the file is as long as it has to be, it is valid
  -- again, and its inode is in the store.
  pub record WriteOk (f : LogFsFile) (offset len : ℕ) (r : Written K.State) : Type 0 where
    pub status : r.status ≡ ok
    pub complete : r.actual_len ≡ len
    pub total : r.file.meta.file_total_size ≡ max f.meta.file_total_size (offset + len)
    pub valid : FileIsValid K r.file r.store
    pub stored : K.get r.store (inode_key f.handle) ≡ some (layout.bytes r.file.meta)
    pub same_handle : r.file.handle ≡ f.handle
    pub same_chunk_size : size_of r.file ≡ size_of f
    pub same_eviction : r.file.meta.eviction_state ≡ f.meta.eviction_state

  -- What `write` does: it writes a prefix of the buffer, and reports its length; nothing else in the
  -- file changes, nor in the store but for the inode; and with STATUS_INTERNAL_ERROR a put
  -- was refused on the way from the store to that which it leaves.
  pub record WriteDone (f : LogFsFile) (s : K.State) (pos : 0 < size_of f) (offset len : ℕ)
      (buf : Bytes) (r : Written K.State) : Type 0 where
    pub wrote : Wrote K f.handle (size_of f) pos s r.store offset (offset + r.actual_len) buf
    pub bounded : r.actual_len ≤ len
    pub others :
        (j : Bytes)
        → ((c : ℕ) → j ≢ chunk_key f.handle c)
        → j ≢ inode_key f.handle
        → K.get r.store j ≡ K.get s j
    pub outcome : WriteOk f offset len r ⊎ ((r.status ≡ internal_error) × Refused K s r.store)

  module _ (f : LogFsFile) (own : f.handle ≡ f.meta.handle) (s : K.State) where
    -- A flush puts the inode, or is refused.
    pub flush_cases :
        ((K.put s (inode_key f.handle) (layout.bytes f.meta)).0 ≡ true)
          × (flush K layout f s ≡ (
            ok,
            record f { meta_dirty = false },
            (K.put s (inode_key f.handle) (layout.bytes f.meta)).1,
          ))
        ⊎ ((K.put s (inode_key f.handle) (layout.bytes f.meta)).0 ≡ false)
          × (flush K layout f s
              ≡ (internal_error, f, (K.put s (inode_key f.handle) (layout.bytes f.meta)).1))
    unfolding flush
    flush_cases =
        let same : (f.handle == f.meta.handle) ≡ true = ground arith in
        elim (Bool-cases (K.put s (inode_key f.handle) (layout.bytes f.meta)).0) [
          | inl done ↦ inl (done, simp (same, done))
          | inr full ↦ inr (full, simp (same, full))
        ]

  grown : LogFsFile → ℕ → ℕ → LogFsFile
  unfolding update_c_time update_m_time
  grown f offset now = record f {
    meta = update_c_time now (
        update_m_time now (record f.meta {
          file_total_size =
              if ltb f.meta.file_total_size offset then offset else f.meta.file_total_size;
        }));
    meta_dirty = true;
  }

  module _ (f : LogFsFile) (s : K.State) (v : FileIsValid K f s) (offset len : ℕ) (buf : Bytes)
      (enough : len ≤ length buf) (now : ℕ) where
    abbrev w : Writing K.State
    w = write_chunks K f.handle f.meta offset len buf s

    loop :
        LoopDone K f.handle f.meta v.chunk_pos v.no_initial
          (record { offset = offset; left = len; buf = buf; exit = running; store = s })
          w
    loop =
        write_chunks-LoopDone K f.handle f.meta v.chunk_pos v.no_initial offset len buf s enough
          v.fit (λ i lo past. v.blank i past)

    -- The bytes that the loop reports are those up to the offset that it reached.
    reached : offset ≤ w.offset → offset + (w.offset - offset) ≡ w.offset
    reached fwd = omega arith

    write_failed :
        w.exit ≡ failed
        → w.offset < offset + len
        → Refused K s w.store
        → (r : Written K.State) × (write K layout f s offset len (some buf) true now ≡ some r)
          × WriteDone f s v.chunk_pos offset len buf r
    unfolding write end_write
    write_failed stop part why = (
      record { status = internal_error; actual_len = w.offset - offset; file = f; store = w.store },
      simp stop,
      record {
        wrote = rw (reached loop.forward) loop.wrote;
        bounded = omega arith;
        others = λ j c i. loop.frame j c;
        outcome = inr (refl, why);
      },
    )

    put_inode : LogFsFile → K.State
    put_inode g = (K.put w.store (inode_key g.handle) (layout.bytes g.meta)).1

    content_kept :
        (g : LogFsFile) (i : ℕ)
        → byte_at K f.handle (size_of f) (put_inode g) i ≡ byte_at K f.handle (size_of f) w.store i
    unfolding put_inode
    content_kept g i =
        byte_at-put_inode K f.handle (size_of f) w.store g.handle (layout.bytes g.meta) i

    others_kept :
        (g : LogFsFile) (j : Bytes)
        → g.handle ≡ f.handle
        → ((c : ℕ) → j ≢ chunk_key f.handle c)
        → j ≢ inode_key f.handle
        → K.get (put_inode g) j ≡ K.get s j
    unfolding put_inode
    others_kept g j e c i =
        K.get-put_ne w.store (inode_key g.handle) j (layout.bytes g.meta) (rw e i) ∙ loop.frame j c

    new_total : ℕ
    new_total = if ltb f.meta.file_total_size w.offset then w.offset else f.meta.file_total_size

    blank_beyond :
        (g : LogFsFile) (i : ℕ) → new_total ≤ i → byte_at K f.handle (size_of f) (put_inode g) i ≡ 0
    unfolding new_total
    blank_beyond g i past = content_kept g i ∙ ground (arith, loop.wrote i, v.blank i)

    succeeded :
        w.offset ≡ offset + len
        → (K.put w.store
            (inode_key (grown f w.offset now).handle)
            (layout.bytes (grown f w.offset now).meta)).0
          ≡ true
        → WriteOk f offset len (record {
          status = ok;
          actual_len = w.offset - offset;
          file = record (grown f w.offset now) { meta_dirty = false };
          store = put_inode (grown f w.offset now);
        })
    unfolding grown update_c_time update_m_time put_inode new_total
    succeeded all done = record {
      status = refl;
      complete = omega arith;
      total = ground arith;
      valid = record {
        chunk_pos = v.chunk_pos;
        chunk_u32 = v.chunk_u32;
        no_initial = v.no_initial;
        own = v.own;
        fit = record {
          fits = λ c.
              rw (chunk_at-put_inode K f.handle (size_of f) w.store f.handle c _) (loop.fit.fits c);
        };
        blank = λ i past. blank_beyond (grown f w.offset now) i past;
      };
      stored = K.get-put_self w.store (inode_key f.handle) _ done;
      same_handle = refl;
      same_chunk_size = refl;
      same_eviction = refl;
    }

    write_finished :
        w.exit ≡ running
        → w.offset ≡ offset + len
        → (r : Written K.State) × (write K layout f s offset len (some buf) true now ≡ some r)
          × WriteDone f s v.chunk_pos offset len buf r
    unfolding write end_write finish_write grown update_c_time update_m_time put_inode is_ok
    write_finished run all =
        let g = grown f w.offset now in
        elim (flush_cases g v.own w.store) [
          | inl (done, e) ↦ (
            record {
              status = ok;
              actual_len = w.offset - offset;
              file = record g { meta_dirty = false };
              store = put_inode g;
            },
            simp (run, e),
            record {
              wrote = λ i. content_kept g i ∙ rw (reached loop.forward) (loop.wrote i);
              bounded = omega arith;
              others = λ j c i. others_kept g j refl c i;
              outcome = inl (succeeded all done);
            },
          )
          | inr (full, e) ↦ (
            record {
              status = internal_error;
              actual_len = w.offset - offset;
              file = g;
              store = put_inode g;
            },
            simp (run, e),
            record {
              wrote = λ i. content_kept g i ∙ rw (reached loop.forward) (loop.wrote i);
              bounded = omega arith;
              others = λ j c i. others_kept g j refl c i;
              outcome = inr (refl, Refused-after loop.run (Refused-put w.store _ _ full));
            },
          )
        ]

    -- For a valid file and a buffer of `len` bytes at least: `write` returns, and does what WriteDone
    -- says.
    pub write-WriteDone :
        (r : Written K.State) × (write K layout f s offset len (some buf) true now ≡ some r)
        × WriteDone f s v.chunk_pos offset len buf r
    write-WriteDone = elim loop.outcome [
      | inl (run, all) ↦ write_finished run all
      | inr (stop, part, why) ↦ write_failed stop part why
    ]
