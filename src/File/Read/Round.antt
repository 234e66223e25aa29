-- ===== src/File/Read/Round.antt =====
-- One round of the read loop, in a file whose data begins at offset 0.
use kvfs_ra_testing.Base.{
  ℕ, zero, ◌+◌, ◌-◌, ◌*◌, ◌≤◌, ◌<◌, ◌^◌, ◌≡◌, refl, ap, ◌∙◌, some, Bytes, at, length, take, drop,
  replicate, min, length-append, length-take, length-drop, length-replicate, get_or-append,
  get_or-take, get_or-drop, get_or-replicate, get_or-beyond, arith, ltb, if◌then◌else◌, Bool-cases,
  false, true, inl, inr,
}
use kvfs_ra_testing.Store.{KvStore}
use kvfs_ra_testing.Meta.{MetaData}
use kvfs_ra_testing.File.Content.{chunk_at, byte_at, byte_at-chunk, ChunksFit}
use kvfs_ra_testing.File.Read.{Reading, sub64, copy_value, zero_fill, read_at, read_chunk}

-- The bytes of `v` from `off` on are laid out behind those of `r`, up to the offset of `r'`.
pub record Laid (content : ℕ → ℕ) (r r' : Reading) : Type 0 where
  pub forward : r.offset ≤ r'.offset
  pub left_over : r.left ≡ r'.left + (r'.offset - r.offset)
  pub laid_length : length r'.out ≡ length r.out + (r'.offset - r.offset)
  pub bytes :
      (j : ℕ)
      → at r'.out j ≡ (
          if ltb j (length r.out)
          then at r.out j
          else if ltb j (length r'.out)
          then content (r.offset + (j - length r.out))
          else 0)

pub Laid-trans :
    (content : ℕ → ℕ) (r s t : Reading) → Laid content r s → Laid content s t → Laid content r t
Laid-trans content r s t h k = record {
  forward = omega (arith, h.forward, k.forward);
  left_over = omega (arith, h.forward, k.forward, h.left_over, k.left_over);
  laid_length = omega (arith, h.forward, k.forward, h.laid_length, k.laid_length);
  bytes = λ j.
      let shift : ltb j (length s.out) ≡ false
          → length r.out ≤ j
          → s.offset + (j - length s.out) ≡ r.offset + (j - length r.out) =
        λ far lo. ground (arith, h.forward, h.laid_length) in
      ground
        (arith, h.bytes j, k.bytes j, h.laid_length, k.laid_length, h.forward, k.forward, shift);
}

sub64-exact : (a b : ℕ) → b ≤ a → a < 2 ^ 64 → sub64 a b ≡ a - b
unfolding sub64
sub64-exact a b h k = omega arith

copy_value-Laid :
    (content : ℕ → ℕ) (chunk_off : ℕ) (value : Bytes) (r : Reading)
    → r.left < 2 ^ 63
    → ((k : ℕ) → chunk_off + k < length value → content (r.offset + k) ≡ at value (chunk_off + k))
    → Laid content r (copy_value chunk_off value r)
unfolding copy_value
copy_value-Laid content chunk_off value r small same =
    let few : ltb r.left (2 ^ 63) ≡ true = ground arith in
    let n = min (length value - chunk_off) r.left in
    let len_piece = length-take n (drop chunk_off value) in
    let len_drop = length-drop chunk_off value in
    let len_all = length-append r.out (take n (drop chunk_off value)) in
    rw few (record {
      forward = omega arith;
      left_over = omega arith;
      laid_length = omega (arith, len_piece, len_drop, len_all);
      bytes = λ j. ground (
        arith,
        len_piece,
        len_drop,
        len_all,
        get_or-append r.out (take n (drop chunk_off value)) j 0,
        get_or-take n (drop chunk_off value) (j - length r.out) 0,
        get_or-drop chunk_off value (j - length r.out) 0,
        same (j - length r.out),
      );
    })

zero_fill-Laid :
    (content : ℕ → ℕ) (next_base : ℕ) (r : Reading)
    → r.offset ≤ next_base
    → next_base < 2 ^ 64
    → (0 < r.left → (i : ℕ) → r.offset ≤ i → i < next_base → content i ≡ 0)
    → Laid content r (zero_fill next_base r)
unfolding zero_fill
zero_fill-Laid content next_base r lo small blank =
    let n = min r.left (next_base - r.offset) in
    let len_all = length-append r.out (replicate n 0) in
    elim (Bool-cases (ltb 0 r.left)) [
      | inl more ↦
          rw (more, sub64-exact next_base r.offset lo small)
            (record {
              forward = omega arith;
              left_over = omega arith;
              laid_length = omega (arith, len_all, length-replicate n zero);
              bytes = λ j. ground (
                arith,
                more,
                len_all,
                length-replicate n zero,
                get_or-append r.out (replicate n 0) j 0,
                get_or-replicate n zero (j - length r.out),
                blank (ground arith) (r.offset + (j - length r.out)),
              );
            })
      | inr full ↦ rw full (record {
        forward = omega arith;
        left_over = omega arith;
        laid_length = omega arith;
        bytes = λ j. ground (arith, get_or-beyond r.out j 0);
      })
    ]

zero_fill-offset :
    (next_base : ℕ) (r : Reading)
    → r.offset ≤ next_base
    → next_base < 2 ^ 64
    → (zero_fill next_base r).offset ≡ min (r.offset + r.left) next_base
unfolding zero_fill
zero_fill-offset next_base r lo small = ground (arith, sub64-exact next_base r.offset lo small)

module _ (K : KvStore) (handle : ℕ) (m : MetaData) (s : K.State) (pos : 0 < m.file_chunk_size)
    (initial : m.file_initial_size ≡ 0) (fit : ChunksFit K handle m.file_chunk_size s) (c : ℕ)
    (r : Reading) (lo : c * m.file_chunk_size ≤ r.offset)
    (hi : r.offset < c * m.file_chunk_size + m.file_chunk_size) (small : r.left < 2 ^ 63)
    (within : c * m.file_chunk_size + m.file_chunk_size < 2 ^ 64) where
  abbrev content : ℕ → ℕ
  content i = byte_at K handle m.file_chunk_size s i

  abbrev base : ℕ
  base = c * m.file_chunk_size

  copied : Reading
  copied = copy_value (r.offset - base) (chunk_at K handle m.file_chunk_size s c) r

  copied-Laid : Laid content r copied
  unfolding copied
  copied-Laid =
      copy_value-Laid content (r.offset - base) (chunk_at K handle m.file_chunk_size s c) r small
        (λ k in_value.
          byte_at-chunk K handle m.file_chunk_size pos s c (r.offset + k) (omega arith)
            (omega (arith, fit.fits c))
          ∙ ap (λ (i : ℕ). at (chunk_at K handle m.file_chunk_size s c) i) (omega arith))

  copied-offset :
      copied.offset
      ≡ r.offset + min (length (chunk_at K handle m.file_chunk_size s c) - (r.offset - base)) r.left
  unfolding copied copy_value
  copied-offset = let few : ltb r.left (2 ^ 63) ≡ true = ground arith in rw few refl

  copied_inside : copied.offset ≤ base + m.file_chunk_size
  copied_inside = omega (arith, copied-offset, fit.fits c)

  filled : Reading
  filled = zero_fill (base + m.file_chunk_size) copied

  filled-Laid : Laid content copied filled
  unfolding filled
  filled-Laid =
      zero_fill-Laid content (base + m.file_chunk_size) copied copied_inside within
        (λ more i ilo ihi.
          byte_at-chunk K handle m.file_chunk_size pos s c i (omega (arith, copied-Laid.forward))
            ihi
          ∙ get_or-beyond (chunk_at K handle m.file_chunk_size s c) (i - base) 0
              (omega (arith, copied-offset, copied-Laid.left_over)))

  filled-offset : filled.offset ≡ min (r.offset + r.left) (base + m.file_chunk_size)
  unfolding filled
  filled-offset =
      zero_fill-offset (base + m.file_chunk_size) copied copied_inside within
      ∙ omega (arith, copied-Laid.left_over, copied-Laid.forward, copied-offset, fit.fits c)

  -- A round lays out the bytes up to the end of the request or of the chunk.
  pub read_chunk-Laid :
      (r' : Reading) × (read_chunk K handle m s c r ≡ some r')
      × Laid content r r'
      × (r'.offset ≡ min (r.offset + r.left) (base + m.file_chunk_size))
  unfolding read_chunk read_at filled copied chunk_at
  read_chunk-Laid =
      let from : m.file_initial_size + base ≡ base = omega arith in
      let not_before : ltb r.offset base ≡ false = ground arith in
      (
        filled,
        rw (from, not_before) refl,
        Laid-trans content r copied filled copied-Laid filled-Laid,
        filled-offset,
      )
