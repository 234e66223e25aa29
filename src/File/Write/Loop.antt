-- ===== src/File/Write/Loop.antt =====
-- The write loop, from a chunk to the last.
use kvfs_ra_testing.Base.{
  ℕ, zero, suc, ◌+◌, ◌-◌, ◌*◌, ◌≤◌, ◌<◌, ◌≡◌, ◌⊎◌, inl, inr, ◌∙◌, length, drop, length-drop, min,
  arith,
}
use kvfs_ra_testing.Store.{KvStore, Run, run-trans, Refused, Refused-after}
use kvfs_ra_testing.Meta.{MetaData}
use kvfs_ra_testing.File.Content.{Wrote, Wrote-trans, ChunksFit, Frame}
use kvfs_ra_testing.File.Write.{Writing, running, failed, write_chunk, write_loop}
use kvfs_ra_testing.File.Write.Chunk.{IsBlank, RoundDone, write_chunk-RoundDone}

module _ (K : KvStore) (handle : ℕ) (m : MetaData) (pos : 0 < m.file_chunk_size)
    (initial : m.file_initial_size ≡ 0) where
  abbrev size : ℕ
  size = m.file_chunk_size

  -- What the loop leaves behind: the bytes up to the offset it reached are written, and it reached the
  -- end unless a put failed.
  pub record LoopDone (w v : Writing K.State) : Type 0 where
    pub wrote : Wrote K handle size pos w.store v.store w.offset v.offset w.buf
    pub fit : ChunksFit K handle size v.store
    pub frame : Frame K handle size w.store v.store
    pub run : Run K w.store v.store
    pub forward : w.offset ≤ v.offset
    pub outcome :
        ((v.exit ≡ running) × (v.offset ≡ w.offset + w.left))
        ⊎ ((v.exit ≡ failed) × (v.offset < w.offset + w.left) × Refused K w.store v.store)

  -- What the loop needs before a round: bytes to write, in this chunk, and as many rounds as chunks.
  pub record Ready (rounds c : ℕ) (w : Writing K.State) : Type 0 where
    pub lo : c * size ≤ w.offset
    pub hi : w.offset < c * size + size
    pub some_left : 0 < w.left
    pub enough : w.left ≤ length w.buf
    pub reach : w.offset + w.left ≤ (c + rounds) * size
    pub last : (c + rounds) * size < w.offset + w.left + size
    pub blank : IsBlank K handle m pos initial w.store w.offset
    pub fit : ChunksFit K handle size w.store

  round :
      (rounds c : ℕ) (w : Writing K.State)
      → Ready rounds c w
      → RoundDone K handle m pos initial c w (write_chunk K handle m c w)
  round rounds c w r =
      write_chunk-RoundDone K handle m pos initial c w r.lo r.hi r.some_left r.enough r.blank r.fit

  still-IsBlank :
      (c : ℕ) (w v : Writing K.State)
      → RoundDone K handle m pos initial c w v
      → w.offset ≤ v.offset
      → IsBlank K handle m pos initial w.store w.offset
      → IsBlank K handle m pos initial v.store v.offset
  still-IsBlank c w v d fwd blank i lo past = ground (arith, d.wrote i, blank i)

  -- A put failed in the first round.
  stopped :
      (c : ℕ) (w v : Writing K.State)
      → RoundDone K handle m pos initial c w v
      → v.exit ≡ failed
      → v.offset ≡ w.offset
      → 0 < w.left
      → Refused K w.store v.store
      → LoopDone w v
  stopped c w v d e same some_left why = record {
    wrote = d.wrote;
    fit = d.fit;
    frame = d.frame;
    run = d.run;
    forward = omega arith;
    outcome = inr (e, omega arith, why);
  }

  -- The first round was the last.
  finished :
      (c : ℕ) (w v : Writing K.State)
      → RoundDone K handle m pos initial c w v
      → v.exit ≡ running
      → v.offset ≡ w.offset + w.left
      → LoopDone w v
  finished c w v d e all = record {
    wrote = d.wrote;
    fit = d.fit;
    frame = d.frame;
    run = d.run;
    forward = omega arith;
    outcome = inl (e, all);
  }

  next-Ready :
      (rounds c : ℕ) (w v : Writing K.State)
      → Ready (suc (suc rounds)) c w
      → RoundDone K handle m pos initial c w v
      → v.offset ≡ min (w.offset + w.left) (c * size + size)
      → v.left ≡ w.left - (v.offset - w.offset)
      → v.buf ≡ drop (v.offset - w.offset) w.buf
      → Ready (suc rounds) (suc c) v
  next-Ready rounds c w v r d o l b = record {
    lo = omega arith;
    hi = omega arith;
    some_left = omega arith;
    enough = rw b (omega (arith, length-drop (v.offset - w.offset) w.buf));
    reach = omega arith;
    last = omega arith;
    blank = still-IsBlank c w v d (omega (arith, r.hi)) r.blank;
    fit = d.fit;
  }

  continued :
      (c : ℕ) (w v u : Writing K.State)
      → RoundDone K handle m pos initial c w v
      → w.offset ≤ v.offset
      → v.left ≡ w.left - (v.offset - w.offset)
      → v.offset ≤ w.offset + w.left
      → v.buf ≡ drop (v.offset - w.offset) w.buf
      → LoopDone v u
      → LoopDone w u
  continued c w v u d fwd l within b k = record {
    wrote =
        Wrote-trans K handle size pos w.store v.store u.store w.offset v.offset u.offset w.buf fwd
          k.forward d.wrote (rw b at k.wrote);
    fit = k.fit;
    frame = λ j ne. k.frame j ne ∙ d.frame j ne;
    run = run-trans d.run k.run;
    forward = omega (arith, k.forward);
    outcome = elim k.outcome [
      | inl (run, all) ↦ inl (run, omega arith)
      | inr (stop, part, why) ↦ inr (stop, omega arith, Refused-after d.run why)
    ];
  }

  pub write_loop-LoopDone :
      (rounds c : ℕ) (w : Writing K.State)
      → Ready rounds c w
      → LoopDone w (write_loop K handle m rounds c w)
  unfolding write_loop
  write_loop-LoopDone zero c w r = absurd (omega (arith, r.lo, r.reach, r.some_left))
  write_loop-LoopDone (suc zero) c w r =
      let d = round 1 c w r in
      elim d.outcome [
        | inl (run, o, _, _) ↦ simp run (finished c w _ d run (o ∙ omega arith))
        | inr (stop, same, why) ↦ simp stop (stopped c w _ d stop same r.some_left why)
      ]
  write_loop-LoopDone (suc (suc rounds)) c w r =
      let d = round (suc (suc rounds)) c w r in
      elim d.outcome [
        | inl (run, o, l, b) ↦ simp run (
            continued c w (write_chunk K handle m c w) _ d (rw o (omega (arith, r.hi))) l
              (rw o (omega arith)) b
              (write_loop-LoopDone (suc rounds) (suc c) (write_chunk K handle m c w)
                (next-Ready rounds c w _ r d o l b)))
        | inr (stop, same, why) ↦ simp stop (stopped c w _ d stop same r.some_left why)
      ]
