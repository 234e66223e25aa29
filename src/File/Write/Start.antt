-- ===== src/File/Write/Start.antt =====
-- The loop as `write` starts it, a write of no bytes included.
use kvfs_ra_testing.Base.{
  ℕ, zero, suc, ◌+◌, ◌-◌, ◌*◌, ◌/◌, ◌≤◌, ◌<◌, ◌≡◌, inl, inr, refl, ap, Bytes, length, arith, ltb,
  Bool-cases, chunk_lower, chunk_upper, chunk_mono,
}
use kvfs_ra_testing.Store.{KvStore, run_nothing}
use kvfs_ra_testing.Meta.{MetaData}
use kvfs_ra_testing.File.Content.{ChunksFit}
use kvfs_ra_testing.File.Write.{
  Writing, Exit, running, failed, aborted, continue, write_at, write_chunk, write_loop,
  write_chunks,
}
use kvfs_ra_testing.File.Write.Chunk.{IsBlank}
use kvfs_ra_testing.File.Write.Loop.{LoopDone, Ready, write_loop-LoopDone}

module _ (K : KvStore) (handle : ℕ) (m : MetaData) (pos : 0 < m.file_chunk_size)
    (initial : m.file_initial_size ≡ 0) where
  abbrev size : ℕ
  size = m.file_chunk_size

  -- A round with nothing to write does nothing.
  idle_round :
      (c : ℕ) (w : Writing K.State)
      → c * size ≤ w.offset
      → w.left ≡ 0
      → write_chunk K handle m c w ≡ w
  unfolding write_chunk write_at
  idle_round c w lo none_left = ground arith

  continue_same : {A : Type 0} (e : Exit) (a : A) → continue e a a ≡ a
  continue_same running a = refl
  continue_same failed a = refl
  continue_same aborted a = refl

  idle :
      (rounds c : ℕ) (w : Writing K.State)
      → rounds ≤ 1
      → c * size ≤ w.offset
      → w.left ≡ 0
      → write_loop K handle m rounds c w ≡ w
  unfolding write_loop
  idle zero c w h lo none_left = refl
  idle (suc zero) c w h lo none_left = rw (idle_round c w lo none_left) (continue_same w.exit w)
  idle (suc (suc rounds)) c w h lo none_left = absurd (omega arith)

  idle-LoopDone :
      (w : Writing K.State)
      → w.exit ≡ running
      → w.left ≡ 0
      → ChunksFit K handle size w.store
      → LoopDone K handle m pos initial w w
  idle-LoopDone w run none_left fit = record {
    wrote = λ i. ground arith;
    fit = fit;
    frame = λ j ne. refl;
    run = run_nothing;
    forward = omega arith;
    outcome = inl (run, omega arith);
  }

  module _ (offset len : ℕ) (buf : Bytes) (s : K.State) (enough : len ≤ length buf)
      (fit : ChunksFit K handle size s) (blank : IsBlank K handle m pos initial s offset) where
    abbrev start : Writing K.State
    start = record { offset = offset; left = len; buf = buf; exit = running; store = s }

    abbrev first_chunk : ℕ
    first_chunk = (offset - m.file_initial_size) / size

    abbrev last_chunk : ℕ
    last_chunk = (offset + len - 1 - m.file_initial_size) / size

    abbrev rounds : ℕ
    rounds = last_chunk + 1 - first_chunk

    start-Ready : 0 < len → Ready K handle m pos initial rounds first_chunk start
    start-Ready some_left =
        let first_lo = chunk_lower size pos (offset - m.file_initial_size) in
        let first_hi = chunk_upper size pos (offset - m.file_initial_size) in
        let last_lo = chunk_lower size pos (offset + len - 1 - m.file_initial_size) in
        let last_hi = chunk_upper size pos (offset + len - 1 - m.file_initial_size) in
        let ordered : first_chunk ≤ last_chunk = chunk_mono size pos _ _ (omega arith) in
        let count : first_chunk + rounds ≡ last_chunk + 1 = omega arith in
        let span = ap (λ (t : ℕ). t * size) count in
        record {
          lo = omega arith;
          hi = omega arith;
          some_left = some_left;
          enough = enough;
          reach = omega arith;
          last = omega arith;
          blank = blank;
          fit = fit;
        }

    few_rounds : len ≡ 0 → rounds ≤ 1
    few_rounds none_left =
        let ordered : last_chunk ≤ first_chunk = chunk_mono size pos _ _ (omega arith) in
        omega arith

    pub write_chunks-LoopDone :
        LoopDone K handle m pos initial start (write_chunks K handle m offset len buf s)
    unfolding write_chunks
    write_chunks-LoopDone = elim (Bool-cases (ltb 0 len)) [
      | inl some_left ↦
          write_loop-LoopDone K handle m pos initial rounds first_chunk start
            (start-Ready (ground arith))
      | inr none_left ↦
          let none : len ≡ 0 = ground arith in
          let lo = chunk_lower size pos (offset - m.file_initial_size) in
          rw (idle rounds first_chunk start (few_rounds none) (omega arith) none)
            (idle-LoopDone start refl none fit)
    ]
