-- ===== src/File/Hold/Restore.antt =====
-- The loop of UnEvict ends, within its fuel, with the file's bytes restored.
use kvfs_ra_testing.Base.{
  ℕ, zero, suc, ◌+◌, ◌-◌, ◌≤◌, ◌<◌, ◌≡◌, ◌⊎◌, inl, inr, refl, ◌∙◌, true, false, some, at, length,
  min, drop, length-take, length-drop, get_or-take, get_or-drop, arith, ltb, ◌==◌, if◌then◌else◌,
  Bool-cases,
}
use kvfs_ra_testing.Status.{ok, internal_error, is_ok, is_ok-ok, is_ok-error}
use kvfs_ra_testing.Store.{KvStore, Refused, Refused-after}
use kvfs_ra_testing.File.{MetaLayout, LogFsFile}
use kvfs_ra_testing.File.Content.{byte_at, Frame}
use kvfs_ra_testing.File.Valid.{FileIsValid}
use kvfs_ra_testing.File.Write.{Written}
use kvfs_ra_testing.File.Write.Data.{DataDone, write-DataDone}
use kvfs_ra_testing.File.Hold.{TieredInFile, Restoring, tiered_read, restore_piece, restore_loop}

module _ (K : KvStore) (layout : MetaLayout) (now : ℕ) (t : TieredInFile) (f : LogFsFile)
    (same_size : f.meta.file_total_size ≡ length t.content)
    (reads : (offset : ℕ) → t.pread_fails offset ≡ false) where
  abbrev size : ℕ
  size = f.meta.file_chunk_size

  -- All bytes from `from` on are those of the tiered file; or the status is
  -- STATUS_INTERNAL_ERROR, and a put was refused on the way to the store that is left.
  pub record RestoreDone (s : K.State) (from : ℕ) (r : Restoring K.State) : Type 0 where
    pub same_file : r.file ≡ f
    pub frame : Frame K f.handle size s r.store
    pub valid : FileIsValid K f r.store
    pub outcome :
        ((r.status ≡ ok)
          × (r.offset ≡ length t.content)
          × ((i : ℕ)
              → byte_at K f.handle size r.store i ≡ (
                  if ltb i from
                  then byte_at K f.handle size s i
                  else if ltb i (length t.content)
                  then at t.content i
                  else byte_at K f.handle size s i)))
        ⊎ ((r.status ≡ internal_error) × Refused K s r.store)

  length-piece_of :
      (offset n : ℕ) → length (tiered_read t offset n) ≡ min n (length t.content - offset)
  unfolding tiered_read
  length-piece_of offset n =
      omega (arith, length-take n (drop offset t.content), length-drop offset t.content)

  length-piece :
      (offset : ℕ) → length (tiered_read t offset 8192) ≡ min 8192 (length t.content - offset)
  length-piece offset = length-piece_of offset 8192

  at-piece :
      (offset n j : ℕ)
      → j < length (tiered_read t offset n)
      → at (tiered_read t offset n) j ≡ at t.content (offset + j)
  unfolding tiered_read
  at-piece offset n j inside = ground (
    arith,
    length-piece_of offset n,
    get_or-take n (drop offset t.content) j 0,
    get_or-drop offset t.content j 0,
  )

  empty_piece :
      (offset : ℕ)
      → offset ≤ length t.content
      → (length (tiered_read t offset 8192) == 0) ≡ true
      → offset ≡ length t.content
  empty_piece offset inside at_end = ground (arith, length-piece offset)

  -- A round that wrote its piece, and the rest of the loop.
  after_piece :
      (s : K.State) (offset : ℕ) (w : Written K.State) (r : Restoring K.State)
      (v : FileIsValid K f s)
      → DataDone K layout f s v.chunk_pos offset
          (length (tiered_read t offset 8192))
          (tiered_read t offset 8192)
          w
      → w.actual_len ≡ length (tiered_read t offset 8192)
      → RestoreDone w.store (offset + length (tiered_read t offset 8192)) r
      → RestoreDone s offset r
  after_piece s offset w r v d all k = record {
    same_file = k.same_file;
    frame = λ j ne. k.frame j ne ∙ d.frame j ne;
    valid = k.valid;
    outcome = elim k.outcome [
      | inl (good, end, bytes) ↦ inl (
        good,
        end,
        λ i. ground (
          arith,
          all,
          length-piece offset,
          bytes i,
          d.wrote i,
          at-piece offset 8192 (i - offset),
        ),
      )
      | inr (bad, why) ↦ inr (bad, Refused-after d.run why)
    ];
  }

  pub restore_loop-RestoreDone :
      (fuel : ℕ) (s : K.State) (offset : ℕ)
      → FileIsValid K f s
      → offset ≤ length t.content
      → length t.content - offset < fuel
      → (r : Restoring K.State) × (restore_loop K layout now fuel t f s offset ≡ some r)
        × RestoreDone s offset r
  unfolding restore_loop restore_piece
  restore_loop-RestoreDone zero s offset v inside enough = absurd (omega arith)
  restore_loop-RestoreDone (suc fuel) s offset v inside enough =
      let piece = tiered_read t offset 8192 in
      elim (Bool-cases (length piece == 0)) [
        | inl at_end ↦ (
          record { status = ok; offset = offset; file = f; store = s },
          rw (restore_loop, reads offset, at_end) refl,
          record {
            same_file = refl;
            frame = λ j ne. refl;
            valid = v;
            outcome = inl (
              refl,
              omega (arith, empty_piece offset inside at_end),
              λ i. ground (arith, empty_piece offset inside at_end),
            );
          },
        )
        | inr more ↦
            let (w, e, d) =
              write-DataDone K layout f s v offset (length piece) piece (omega arith)
                (omega (arith, length-piece offset)) now in
            elim d.outcome [
              | inl (good, all) ↦
                  let (r, e', k) =
                    restore_loop-RestoreDone fuel w.store (offset + length piece) d.valid
                      (omega (arith, length-piece offset))
                      (ground (arith, more, length-piece offset)) in
                  let is_good : is_ok w.status ≡ true = is_ok-ok w.status good in
                  let is_all : (w.actual_len == length piece) ≡ true = ground (arith, all) in
                  (
                    r,
                    rw (restore_loop, reads offset, more, e, is_good, is_all, d.same_file) e',
                    after_piece s offset w r v d all k,
                  )
              | inr (bad, why) ↦
                  let is_bad : is_ok w.status ≡ false = is_ok-error w.status bad in
                  (
                    record { status = w.status; offset = offset; file = w.file; store = w.store },
                    rw (restore_loop, reads offset, more, e, is_bad) refl,
                    record {
                      same_file = d.same_file;
                      frame = d.frame;
                      valid = d.valid;
                      outcome = inr (bad, why);
                    },
                  )
            ]
      ]
