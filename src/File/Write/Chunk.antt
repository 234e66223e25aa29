-- ===== src/File/Write/Chunk.antt =====
-- One round of the write loop, in a file whose data begins at offset 0.
use kvfs_ra_testing.Base.{
  ℕ, ◌+◌, ◌-◌, ◌*◌, ◌≤◌, ◌<◌, ◌≡◌, ◌⊎◌, inl, inr, refl, sym, true, false, Bytes, at, length, take,
  drop, min, length-take, get_or-take, arith, ltb, if◌then◌else◌, Bool-cases,
}
use kvfs_ra_testing.Key.{chunk_key}
use kvfs_ra_testing.Store.{KvStore, Run, run_nothing, run_put, Refused, Refused-put}
use kvfs_ra_testing.Meta.{MetaData}
use kvfs_ra_testing.File.Content.{
  chunk_at, byte_at, byte_at-chunk, Wrote, ChunksFit, Frame, Changed, put-Changed, put-unchanged,
  Changed-ChunksFit, byte_at-Changed_in, byte_at-Changed_out, byte_at-unchanged,
}
use kvfs_ra_testing.File.Write.{
  Writing, running, failed, do_get, old_value, patch, put_chunk, write_at, write_chunk,
}
use kvfs_ra_testing.File.Write.Patch.{at-patch, length-patch}

module _ (K : KvStore) (handle : ℕ) (m : MetaData) (pos : 0 < m.file_chunk_size)
    (initial : m.file_initial_size ≡ 0) where
  abbrev pub size : ℕ
  size = m.file_chunk_size

  -- Every byte at or past both the offset and the end of the file is zero.
  abbrev pub IsBlank : K.State → ℕ → Type 0
  IsBlank s offset = (i : ℕ) → offset ≤ i → m.file_total_size ≤ i → byte_at K handle size s i ≡ 0

  -- The value is not read only if the chunk is wholly replaced, or begins at the end of the file.
  skipped :
      (c : ℕ) (w : Writing K.State) (i : ℕ)
      → c * size ≤ w.offset
      → c * size ≤ i
      → i < c * size + size
      → (i < w.offset) ⊎ (w.offset + w.left ≤ i)
      → do_get m (w.offset - c * size) w.offset w.left ≡ false
      → (w.offset ≤ i) × (m.file_total_size ≤ i)
  unfolding do_get
  skipped c w i lo ilo ihi out skip = ground arith

  -- The old value has the bytes of the chunk that are not about to be replaced.
  old_value-at :
      (c : ℕ) (w : Writing K.State) (i : ℕ)
      → c * size ≤ w.offset
      → IsBlank w.store w.offset
      → c * size ≤ i
      → i < c * size + size
      → (i < w.offset) ⊎ (w.offset + w.left ≤ i)
      → at (old_value K handle m c (c * size) w) (i - c * size) ≡ byte_at K handle size w.store i
  unfolding old_value chunk_at
  old_value-at c w i lo blank ilo ihi out =
      elim (Bool-cases (do_get m (w.offset - c * size) w.offset w.left)) [
        | inl get ↦ rw get (sym (byte_at-chunk K handle size pos w.store c i ilo ihi))
        | inr skip ↦
            let past = skipped c w i lo ilo ihi out skip in rw skip (sym (blank i past.0 past.1))
      ]

  length-old_value :
      (c : ℕ) (w : Writing K.State)
      → ChunksFit K handle size w.store
      → length (old_value K handle m c (c * size) w) ≤ size
  unfolding old_value chunk_at
  length-old_value c w fit = elim (Bool-cases (do_get m (w.offset - c * size) w.offset w.left)) [
    | inl get ↦ rw get (fit.fits c)
    | inr skip ↦ rw skip (omega arith)
  ]

  -- What a round leaves behind: the bytes up to the new offset are written, and either it went on to
  -- the end of the write or of the chunk, or a put failed and nothing was written.
  pub record RoundDone (c : ℕ) (w v : Writing K.State) : Type 0 where
    pub wrote : Wrote K handle size pos w.store v.store w.offset v.offset w.buf
    pub fit : ChunksFit K handle size v.store
    pub frame : Frame K handle size w.store v.store
    pub run : Run K w.store v.store
    pub outcome :
        ((v.exit ≡ running)
          × (v.offset ≡ min (w.offset + w.left) (c * size + size))
          × (v.left ≡ w.left - (v.offset - w.offset))
          × (v.buf ≡ drop (v.offset - w.offset) w.buf))
        ⊎ ((v.exit ≡ failed) × (v.offset ≡ w.offset) × Refused K w.store v.store)

  -- A chunk that was given the bytes of the buffer from the offset on.
  Changed-Wrote :
      (s t : K.State) (c from to : ℕ) (buf value : Bytes)
      → Changed K handle size s t c value
      → c * size ≤ from
      → to ≤ c * size + size
      → ((i : ℕ)
          → c * size ≤ i
          → i < c * size + size
          → at value (i - c * size) ≡ (
              if ltb i from
              then byte_at K handle size s i
              else if ltb i to
              then at buf (i - from)
              else byte_at K handle size s i))
      → Wrote K handle size pos s t from to buf
  Changed-Wrote s t c from to buf value ch lo hi bytes i = ground (
    arith,
    byte_at-Changed_in K handle size pos s t c i value ch,
    byte_at-Changed_out K handle size pos s t c i value ch,
    bytes i,
  )

  put_chunk-RoundDone :
      (c copy : ℕ) (value : Bytes) (w : Writing K.State)
      → w.offset + copy ≡ min (w.offset + w.left) (c * size + size)
      → c * size ≤ w.offset
      → length value ≤ size
      → ((i : ℕ)
          → c * size ≤ i
          → i < c * size + size
          → at value (i - c * size) ≡ (
              if ltb i w.offset
              then byte_at K handle size w.store i
              else if ltb i (w.offset + copy)
              then at w.buf (i - w.offset)
              else byte_at K handle size w.store i))
      → ChunksFit K handle size w.store
      → RoundDone c w (put_chunk K handle c copy value w)
  unfolding put_chunk
  put_chunk-RoundDone c copy value w end lo short bytes fit =
      elim (Bool-cases (K.put w.store (chunk_key handle c) value).0) [
        | inl done ↦
            let ch = put-Changed K handle size w.store c value done in
            let moved : w.offset + copy - w.offset ≡ copy = omega arith in
            rw done (record {
              wrote =
                  Changed-Wrote w.store _ c w.offset (w.offset + copy) w.buf value ch lo
                    (omega arith) bytes;
              fit = Changed-ChunksFit K handle size ch short fit;
              frame = ch.frame;
              run = run_put w.store _ value run_nothing;
              outcome = rw moved (inl (refl, end, refl, refl));
            })
        | inr full ↦
            let ch = put-unchanged K handle size w.store c value full in
            rw full (record {
              wrote = λ i. ground (arith, byte_at-unchanged K handle size pos w.store _ c i ch);
              fit = Changed-ChunksFit K handle size ch (fit.fits c) fit;
              frame = ch.frame;
              run = run_put w.store _ value run_nothing;
              outcome = inr (refl, refl, Refused-put w.store _ value full);
            })
      ]

  module _ (c : ℕ) (w : Writing K.State) (lo : c * size ≤ w.offset)
      (hi : w.offset < c * size + size) (some_left : 0 < w.left) (enough : w.left ≤ length w.buf)
      (blank : IsBlank w.store w.offset) (fit : ChunksFit K handle size w.store) where
    abbrev end : ℕ
    end = min (w.offset + w.left) (c * size + size)

    abbrev copy : ℕ
    copy = end - w.offset

    abbrev value : Bytes
    value =
        patch (w.offset - c * size) (end - c * size) (take copy w.buf)
          (old_value K handle m c (c * size) w)

    length-src : length (take copy w.buf) ≡ copy
    length-src = omega (arith, length-take copy w.buf)

    value-short : length value ≤ size
    value-short = omega (
      arith,
      length-patch (w.offset - c * size) (end - c * size) (take copy w.buf)
          (old_value K handle m c (c * size) w) (omega (arith, length-src)),
      length-old_value c w fit,
    )

    value-at :
        (i : ℕ)
        → c * size ≤ i
        → i < c * size + size
        → at value (i - c * size) ≡ (
            if ltb i w.offset
            then byte_at K handle size w.store i
            else if ltb i (w.offset + copy)
            then at w.buf (i - w.offset)
            else byte_at K handle size w.store i)
    value-at i ilo ihi =
        let shift : i - c * size - (w.offset - c * size) ≡ i - w.offset = omega arith in
        ground (
          arith,
          at-patch (w.offset - c * size) (end - c * size) (take copy w.buf)
              (old_value K handle m c (c * size) w) (omega (arith, length-src)) (i - c * size),
          length-src,
          shift,
          get_or-take copy w.buf (i - w.offset) 0,
          old_value-at c w i lo blank ilo ihi,
        )

    write_at-RoundDone : RoundDone c w (write_at K handle m c (c * size) w)
    unfolding write_at
    write_at-RoundDone =
        let within : ltb w.offset (c * size) ≡ false = ground arith in
        let some_copied : ltb 0 copy ≡ true = ground arith in
        rw (within, some_copied)
          (put_chunk-RoundDone c copy value w (omega arith) lo value-short value-at fit)

    -- A round that has bytes to write, in the chunk of its offset.
    pub write_chunk-RoundDone : RoundDone c w (write_chunk K handle m c w)
    unfolding write_chunk
    write_chunk-RoundDone =
        let base : m.file_initial_size + c * size ≡ c * size = omega arith in
        rw base write_at-RoundDone
