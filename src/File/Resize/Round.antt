-- ===== src/File/Resize/Round.antt =====
-- One round of ResizeData, in a file whose data begins at offset 0 and on a store that removes.
use kvfs_ra_testing.Base.{
  ℕ, ◌+◌, ◌-◌, ◌*◌, ◌/◌, ◌≤◌, ◌<◌, ◌≡◌, ◌⊎◌, inl, inr, refl, ap, ltb→lt, Bool, true, false, ◌&&◌,
  some, [], Bytes, at, length, resize, length-resize, at-resize, get_or-beyond, arith, ltb, ◌==◌,
  if◌then◌else◌, Bool-cases, ==_iff, chunk_upper, mul_mono, suc, Option-cases,
}
use kvfs_ra_testing.Status.{Status, internal_error}
use kvfs_ra_testing.Key.{chunk_key}
use kvfs_ra_testing.Store.{KvStore, Run, run_nothing, run_put, run_remove, Refused, Refused-put}
use kvfs_ra_testing.File.Content.{
  chunk_at, byte_at, byte_at-chunk, ChunksFit, Frame, Changed, put-Changed, put-unchanged,
  remove-Changed, Changed-ChunksFit, byte_at-Changed_in, byte_at-Changed_out,
}
use kvfs_ra_testing.File.Resize.{shorten, resize_chunk}

-- Every remove succeeds, also that of a key which is not there: what LevelDB and RocksDB promise short
-- of an error of the medium.
abbrev pub Removes : KvStore → Type 0
Removes K = (s : K.State) (k : Bytes) → (K.remove s k).0 ≡ true

module _ (K : KvStore) (removes : Removes K) (handle size : ℕ) (pos : 0 < size) (new_size : ℕ) where
  -- From `s` to `t`: the bytes from `lo` up to `hi` that are past the new size became zero, and no other
  -- byte changed; or the status is STATUS_INTERNAL_ERROR, and a put was refused on the way from `s` to `t`.
  pub record Trimmed (lo hi : ℕ) (status : Status) (s : K.State) (status' : Status) (t : K.State)
      : Type 0 where
    pub fit : ChunksFit K handle size t
    pub frame : Frame K handle size s t
    pub run : Run K s t
    pub outcome :
        ((status' ≡ status)
          × ((i : ℕ)
              → byte_at K handle size t i ≡ (
                  if ltb i lo
                  then byte_at K handle size s i
                  else if ltb i hi
                  then (if ltb i new_size then byte_at K handle size s i else 0)
                  else byte_at K handle size s i)))
        ⊎ ((status' ≡ internal_error) × Refused K s t)

  -- A chunk whose new value has the bytes below the new size, and zeros.
  Changed-Trimmed :
      (c : ℕ) (status : Status) (s t : K.State) (value : Bytes)
      → Changed K handle size s t c value
      → Run K s t
      → length value ≤ size
      → ChunksFit K handle size s
      → ((i : ℕ)
          → c * size ≤ i
          → i < c * size + size
          → at value (i - c * size) ≡ (if ltb i new_size then byte_at K handle size s i else 0))
      → Trimmed (c * size) (c * size + size) status s status t
  Changed-Trimmed c status s t value ch run short fit bytes = record {
    fit = Changed-ChunksFit K handle size ch short fit;
    frame = ch.frame;
    run = run;
    outcome = inl (
      refl,
      λ i. ground (
        arith,
        byte_at-Changed_in K handle size pos s t c i value ch,
        byte_at-Changed_out K handle size pos s t c i value ch,
        bytes i,
      ),
    );
  }

  later_past : (c : ℕ) → new_size / size < c → new_size ≤ c * size
  later_past c later =
      let up = chunk_upper size pos new_size in
      let ordered : suc (new_size / size) * size ≤ c * size =
        mul_mono (suc (new_size / size)) c size later in
      grind arith

  -- A chunk that is not cut short begins at the new end or after it.
  whole_past :
      (c : ℕ)
      → new_size / size ≤ c
      → ((c == new_size / size) && (ltb 0 (new_size - c * size) && ltb (new_size - c * size) size))
        ≡ false
      → new_size ≤ c * size
  whole_past c from whole = elim (Bool-cases (c == new_size / size)) [
    | inl same ↦
        let start = ap (λ (t : ℕ). t * size) ((==_iff c (new_size / size)).0 same) in
        ground (arith, chunk_upper size pos new_size, start, whole, same)
    | inr other ↦ later_past c (ground (arith, other))
  ]

  module _ (c : ℕ) (status : Status) (s : K.State) (fit : ChunksFit K handle size s) where
    removed :
        new_size ≤ c * size
        → Trimmed (c * size) (c * size + size) status s status (K.remove s (chunk_key handle c)).1
    removed past =
        Changed-Trimmed c status s _ []
          (remove-Changed K handle size s c (removes s (chunk_key handle c)))
          (run_remove s _ run_nothing) (omega arith) fit (λ i lo hi. ground arith)

    -- The chunk is no longer than the new end.
    short_already :
        length (chunk_at K handle size s c) ≤ new_size - c * size
        → c * size < new_size
        → Trimmed (c * size) (c * size + size) status s status s
    short_already short begun = record {
      fit = fit;
      frame = λ j ne. refl;
      run = run_nothing;
      outcome = inl (
        refl,
        λ i. ground (
          arith,
          byte_at-chunk K handle size pos s c i,
          get_or-beyond (chunk_at K handle size s c) (i - c * size) 0,
        ),
      );
    }

    module _ (begun : c * size < new_size) where
      abbrev chunk_off : ℕ
      chunk_off = new_size - c * size

      shorten_stored :
          (value : Bytes)
          → K.get s (chunk_key handle c) ≡ some value
          → (done : Bool) → (K.put s (chunk_key handle c) (resize chunk_off value)).0 ≡ done
          → (long : Bool) → ltb chunk_off (length value) ≡ long
          → Trimmed
              (c * size)
              (c * size + size)
              status
              s
              (shorten K (chunk_key handle c) chunk_off status s).0
              (shorten K (chunk_key handle c) chunk_off status s).1
      unfolding shorten chunk_at
      shorten_stored value found true done true long =
          let here : chunk_at K handle size s c ≡ value = rw found refl in
          rw (shorten, found, long, done)
            (Changed-Trimmed c status s _ (resize chunk_off value)
              (put-Changed K handle size s c (resize chunk_off value) done)
              (run_put s _ _ run_nothing)
              (omega (
                arith,
                length-resize chunk_off value,
                fit.fits c,
                ap length here,
                ltb→lt chunk_off (length value) long,
              ))
              fit
              (λ i lo hi. ground (
                arith,
                at-resize chunk_off value (i - c * size),
                byte_at-chunk K handle size pos s c i lo hi,
                here,
              )))
      shorten_stored value found false full true long =
          let ch = put-unchanged K handle size s c (resize chunk_off value) full in
          rw (shorten, found, long, full)
            (record {
              fit = Changed-ChunksFit K handle size ch (fit.fits c) fit;
              frame = ch.frame;
              run = run_put s _ _ run_nothing;
              outcome = inr (refl, Refused-put s _ _ full);
            })
      shorten_stored value found done e false short =
          let here : chunk_at K handle size s c ≡ value = rw found refl in
          rw (shorten, found, short) (short_already (ground (arith, ap length here)) begun)

      shorten-Trimmed :
          Trimmed
            (c * size)
            (c * size + size)
            status
            s
            (shorten K (chunk_key handle c) chunk_off status s).0
            (shorten K (chunk_key handle c) chunk_off status s).1
      unfolding shorten chunk_at
      shorten-Trimmed = elim (Option-cases (K.get s (chunk_key handle c))) [
        | inl missing ↦
            let here : chunk_at K handle size s c ≡ [] = rw missing refl in
            rw (shorten, missing) (short_already (ground (arith, ap length here)) begun)
        | inr (value, found) ↦ shorten_stored value found _ refl _ refl
      ]

    -- A round on the chunk `c`, which is that of the new end or a later one.
    pub resize_chunk-Trimmed :
        (initial : ℕ)
        → initial ≡ 0
        → new_size / size ≤ c
        → Trimmed
            (c * size)
            (c * size + size)
            status
            s
            (resize_chunk K handle new_size size initial (new_size / size) c status s).0
            (resize_chunk K handle new_size size initial (new_size / size) c status s).1
    unfolding resize_chunk
    resize_chunk-Trimmed initial none_initial from =
        let base : initial + c * size ≡ c * size = omega arith in
        elim (Bool-cases (
          (c == new_size / size)
          && (ltb 0 (new_size - c * size) && ltb (new_size - c * size) size))) [
            | inl cut ↦ rw (base, cut) (shorten-Trimmed (ground (arith, cut)))
            | inr whole ↦ rw (base, whole) (removed (whole_past c from whole))
          ]
