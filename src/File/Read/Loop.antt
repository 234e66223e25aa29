-- ===== src/File/Read/Loop.antt =====
-- The read loop, from a chunk to the last, and the part of `read` that contains it.
use kvfs_ra_testing.Base.{
  ℕ, zero, suc, ◌+◌, ◌-◌, ◌*◌, ◌/◌, ◌%◌, ◌≤◌, ◌<◌, ◌^◌, ◌≡◌, refl, ap, ◌∙◌, some, min, ltb, arith,
  chunk_lower, chunk_upper, chunk_mono, true, [], Bool-cases, inl, inr,
}
use kvfs_ra_testing.Store.{KvStore}
use kvfs_ra_testing.Meta.{MetaData}
use kvfs_ra_testing.File.Content.{byte_at, ChunksFit}
use kvfs_ra_testing.File.Read.{Reading, read_loop, chunk_end, read_chunks}
use kvfs_ra_testing.File.Read.Round.{Laid, Laid-trans, read_chunk-Laid}

module _ (K : KvStore) (handle : ℕ) (m : MetaData) (s : K.State) (pos : 0 < m.file_chunk_size)
    (u32 : m.file_chunk_size < 2 ^ 32) (initial : m.file_initial_size ≡ 0)
    (fit : ChunksFit K handle m.file_chunk_size s) where
  abbrev size : ℕ
  size = m.file_chunk_size

  abbrev content : ℕ → ℕ
  content i = byte_at K handle size s i

  -- Bytes to read, in this chunk, and as many rounds as chunks.
  record Ready (rounds c : ℕ) (r : Reading) : Type 0 where
    lo : c * size ≤ r.offset
    hi : r.offset < c * size + size
    some_left : 0 < r.left
    small : r.offset + r.left < 2 ^ 63
    reach : r.offset + r.left ≤ (c + rounds) * size
    last : (c + rounds) * size < r.offset + r.left + size

  next-Ready :
      (rounds c : ℕ) (r r' : Reading)
      → Ready (suc (suc rounds)) c r
      → Laid content r r'
      → r'.offset ≡ min (r.offset + r.left) (c * size + size)
      → Ready (suc rounds) (suc c) r'
  next-Ready rounds c r r' h l e = record {
    lo = omega (arith, h.last);
    hi = omega (arith, h.last);
    some_left = omega (arith, h.last, l.left_over);
    small = omega (arith, h.small, l.left_over, l.forward);
    reach = omega (arith, h.reach, l.left_over, l.forward);
    last = omega (arith, h.last, l.left_over, l.forward);
  }

  read_loop-Laid :
      (rounds c : ℕ) (r : Reading)
      → Ready rounds c r
      → (r' : Reading) × (read_loop K handle m s rounds c r ≡ some r')
        × Laid content r r'
        × (r'.offset ≡ r.offset + r.left)
  unfolding read_loop
  read_loop-Laid zero c r h = absurd (omega (arith, h.lo, h.reach, h.some_left))
  read_loop-Laid (suc zero) c r h =
      let (r', e, l, o) =
        read_chunk-Laid K handle m s pos initial fit c r h.lo h.hi (omega (arith, h.small))
          (omega (arith, h.small, h.lo)) in
      (r', rw (read_loop, e) refl, l, o ∙ omega (arith, h.reach))
  read_loop-Laid (suc (suc rounds)) c r h =
      let (r', e, l, o) =
        read_chunk-Laid K handle m s pos initial fit c r h.lo h.hi (omega (arith, h.small))
          (omega (arith, h.small, h.lo)) in
      let (t, e', l', o') =
        read_loop-Laid (suc rounds) (suc c) r' (next-Ready rounds c r r' h l o) in
      (
        t,
        rw (read_loop, e) e',
        Laid-trans content r r' t l l',
        omega (arith, o', l.left_over, l.forward),
      )

  module _ (offset len : ℕ) (small : offset + len < 2 ^ 63) where
    abbrev start : Reading
    start = record { offset = offset; left = len; out = [] }

    abbrev first_chunk : ℕ
    first_chunk = (offset - m.file_initial_size) / size

    abbrev last_byte : ℕ
    last_byte = (offset + (len - 1 - m.file_initial_size)) % 2 ^ 64

    start-Ready : 0 < len → Ready (last_byte / size + 1 - first_chunk) first_chunk start
    start-Ready some_left =
        let exact : last_byte ≡ offset + len - 1 = omega arith in
        let first_lo = chunk_lower size pos (offset - m.file_initial_size) in
        let first_hi = chunk_upper size pos (offset - m.file_initial_size) in
        let last_lo = chunk_lower size pos last_byte in
        let last_hi = chunk_upper size pos last_byte in
        let ordered : first_chunk ≤ last_byte / size = chunk_mono size pos _ _ (omega arith) in
        let count : first_chunk + (last_byte / size + 1 - first_chunk) ≡ last_byte / size + 1 =
          omega arith in
        let span = ap (λ (t : ℕ). t * size) count in
        record {
          lo = omega arith;
          hi = omega arith;
          some_left = some_left;
          small = small;
          reach = omega arith;
          last = omega arith;
        }

    -- Below 2^63 the loop lays out exactly the bytes that were asked for.
    pub read_chunks-Laid :
        (r' : Reading) × (read_chunks K handle m s offset len ≡ some r')
        × Laid content start r'
        × (r'.offset ≡ offset + len)
    unfolding read_chunks chunk_end
    read_chunks-Laid = elim (Bool-cases (ltb m.file_initial_size len)) [
      | inl more ↦
          let positive : ltb last_byte (2 ^ 63) ≡ true = ground arith in
          simp (more, positive) (read_loop-Laid _ first_chunk start (start-Ready (ground arith)))
      | inr empty ↦ (
        start,
        simp empty,
        record {
          forward = omega arith;
          left_over = omega arith;
          laid_length = omega arith;
          bytes = λ j. ground arith;
        },
        ground arith,
      )
    ]
