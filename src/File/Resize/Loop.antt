-- ===== src/File/Resize/Loop.antt =====
-- The loop of ResizeData, and ResizeData as a whole.
use kvfs_ra_testing.Base.{
  ℕ, zero, suc, ◌+◌, ◌-◌, ◌*◌, ◌/◌, ◌≤◌, ◌<◌, ◌≡◌, ◌⊎◌, inl, inr, refl, sym, ap, ◌∙◌, arith, ltb,
  if◌then◌else◌, Bool-cases, chunk_lower, chunk_upper, chunk_mono,
}
use kvfs_ra_testing.Status.{Status, ok, internal_error}
use kvfs_ra_testing.Store.{
  KvStore, Run, run_nothing, run-trans, Refused, Refused-before, Refused-after,
}
use kvfs_ra_testing.File.Content.{byte_at, ChunksFit, Frame}
use kvfs_ra_testing.File.Resize.{resize_chunk, resize_loop, resize_data}
use kvfs_ra_testing.File.Resize.Round.{Removes, Trimmed, resize_chunk-Trimmed}

module _ (K : KvStore) (removes : Removes K) (handle size : ℕ) (pos : 0 < size) (new_size : ℕ) where
  Trimmed-trans :
      (lo mid hi : ℕ) (a b c : Status) (s t u : K.State)
      → lo ≤ mid
      → mid ≤ hi
      → Trimmed K removes handle size pos new_size lo mid a s b t
      → Trimmed K removes handle size pos new_size mid hi b t c u
      → Trimmed K removes handle size pos new_size lo hi a s c u
  Trimmed-trans lo mid hi a b c s t u first last h k = record {
    fit = k.fit;
    frame = λ j ne. k.frame j ne ∙ h.frame j ne;
    run = run-trans h.run k.run;
    outcome = elim h.outcome [
      | inl (same, bytes) ↦ elim k.outcome [
        | inl (same', bytes') ↦ inl (same' ∙ same, λ i. ground (arith, bytes i, bytes' i))
        | inr (bad, why) ↦ inr (bad, Refused-after h.run why)
      ]
      | inr (bad, why) ↦ elim k.outcome [
        | inl (same', _) ↦ inr (same' ∙ bad, Refused-before why k.run)
        | inr (bad', why') ↦ inr (bad', Refused-after h.run why')
      ]
    ];
  }

  Trimmed-bounds :
      (lo lo' hi hi' : ℕ) (a b : Status) (s t : K.State)
      → lo ≡ lo'
      → hi ≡ hi'
      → Trimmed K removes handle size pos new_size lo hi a s b t
      → Trimmed K removes handle size pos new_size lo' hi' a s b t
  Trimmed-bounds lo lo' hi hi' a b s t e e' h = rw (sym e, sym e') h

  module _ (initial : ℕ) (none_initial : initial ≡ 0) where
    resize_loop-Trimmed :
        (rounds c : ℕ) (status : Status) (s : K.State)
        → new_size / size ≤ c
        → ChunksFit K handle size s
        → Trimmed K removes handle size pos new_size
            (c * size)
            ((c + rounds) * size)
            status
            s
            (resize_loop K handle new_size size initial (new_size / size) rounds c status s).0
            (resize_loop K handle new_size size initial (new_size / size) rounds c status s).1
    unfolding resize_loop
    resize_loop-Trimmed zero c status s from fit = record {
      fit = fit;
      frame = λ j ne. refl;
      run = run_nothing;
      outcome = inl (refl, λ i. ground arith);
    }
    resize_loop-Trimmed (suc rounds) c status s from fit =
        let next = resize_chunk K handle new_size size initial (new_size / size) c status s in
        let h =
          resize_chunk-Trimmed K removes handle size pos new_size c status s fit initial
            none_initial from in
        let k = resize_loop-Trimmed rounds (suc c) next.0 next.1 (omega arith) h.fit in
        let next_base : suc c * size ≡ c * size + size = omega arith in
        let end : (suc c + rounds) * size ≡ (c + suc rounds) * size = omega arith in
        Trimmed-trans (c * size) (c * size + size) ((c + suc rounds) * size) _ _ _ _ _ _
          (omega arith) (omega arith) h
          (Trimmed-bounds (suc c * size) (c * size + size) ((suc c + rounds) * size)
            ((c + suc rounds) * size) _ _ _ _ next_base end k)

  -- What ResizeData does: the bytes below the new size are as before, and all others are zero; or the
  -- status is STATUS_INTERNAL_ERROR, and a put was refused on the way to the store that is left.
  pub record DataResized (s : K.State) (status : Status) (t : K.State) : Type 0 where
    pub fit : ChunksFit K handle size t
    pub frame : Frame K handle size s t
    pub run : Run K s t
    pub outcome :
        ((status ≡ ok)
          × ((i : ℕ)
              → byte_at K handle size t i
                ≡ (if ltb i new_size then byte_at K handle size s i else 0)))
        ⊎ ((status ≡ internal_error) × Refused K s t)

  module _ (initial : ℕ) (none_initial : initial ≡ 0) (old_size : ℕ) (s : K.State)
      (fit : ChunksFit K handle size s)
      (blank : (i : ℕ) → old_size ≤ i → byte_at K handle size s i ≡ 0) where
    Trimmed-DataResized :
        (lo hi : ℕ) (status : Status) (t : K.State)
        → lo ≤ new_size
        → old_size ≤ hi
        → Trimmed K removes handle size pos new_size lo hi ok s status t
        → DataResized s status t
    Trimmed-DataResized lo hi status t below above h = record {
      fit = h.fit;
      frame = h.frame;
      run = h.run;
      outcome = elim h.outcome [
        | inl (good, bytes) ↦ inl (good, λ i. ground (arith, bytes i, blank i))
        | inr bad ↦ inr bad
      ];
    }

    pub resize_data-DataResized :
        DataResized s
          (resize_data K handle new_size old_size size initial s).0
          (resize_data K handle new_size old_size size initial s).1
    unfolding resize_data
    resize_data-DataResized = elim (Bool-cases (ltb new_size old_size)) [
      | inl smaller ↦
          let first : (new_size - initial) / size ≡ new_size / size =
            ap (λ (n : ℕ). n / size) (omega arith) in
          let last : (old_size - 1 - initial) / size ≡ (old_size - 1) / size =
            ap (λ (n : ℕ). n / size) (omega arith) in
          let ordered : new_size / size ≤ (old_size - 1) / size =
            chunk_mono size pos _ _ (ground arith) in
          let count : new_size / size + ((old_size - 1) / size + 1 - new_size / size)
              ≡ (old_size - 1) / size + 1 =
            omega arith in
          let span = ap (λ (t : ℕ). t * size) count in
          rw (smaller, first, last)
            (Trimmed-DataResized _ _ _ _ (chunk_lower size pos new_size)
              (omega (arith, span, chunk_upper size pos (old_size - 1)))
              (resize_loop-Trimmed initial none_initial _ (new_size / size) ok s (omega arith) fit))
      | inr larger ↦ rw larger (record {
        fit = fit;
        frame = λ j ne. refl;
        run = run_nothing;
        outcome = inl (refl, λ i. ground (arith, blank i));
      })
    ]
