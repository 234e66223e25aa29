-- ===== src/File/Content.antt =====
-- The content of a file as clients see it: a byte at every offset, held in chunks of equal size, where
-- a chunk that is missing or short reads as zeros.
use kvfs_ra_testing.Base.{
  ℕ, ◌+◌, ◌-◌, ◌*◌, ◌/◌, ◌%◌, ◌≤◌, ◌<◌, ◌≡◌, ◌≢◌, ◌⊎◌, sym, ap, true, false, Option, none, some, [],
  Bytes, at, length, arith, ◌==◌, ltb, if◌then◌else◌, drop, get_or-drop, chunk_of, offset_of,
  chunk_lower, chunk_upper, ==_iff, Bool-cases, inl, inr,
}
use kvfs_ra_testing.Key.{inode_key, chunk_key}
use kvfs_ra_testing.Key.Distinct.{chunk_key-injective, inode_key-ne-chunk_key}
use kvfs_ra_testing.Store.{KvStore}

-- What a failed get leaves in the value string.
abbrev pub or_empty : Option Bytes → Bytes
or_empty none = []
or_empty (some v) = v

module _ (K : KvStore) (handle size : ℕ) where
  unfoldable pub chunk_at : K.State → ℕ → Bytes
  chunk_at s c = or_empty (K.get s (chunk_key handle c))

  unfoldable pub byte_at : K.State → ℕ → ℕ
  unfolding chunk_at
  byte_at s i = at (chunk_at s (i / size)) (i % size)

  -- No chunk is longer than the chunk size.
  pub record ChunksFit (s : K.State) : Type 0 where
    pub fits : (c : ℕ) → length (chunk_at s c) ≤ size

  -- No key but those of this file's chunks has changed.
  abbrev pub Frame : K.State → K.State → Type 0
  Frame s t = (j : Bytes) → ((c : ℕ) → j ≢ chunk_key handle c) → K.get t j ≡ K.get s j

  -- Inode records do not hold content.
  pub chunk_at-put_inode :
      (s : K.State) (owner c : ℕ) (v : Bytes)
      → chunk_at (K.put s (inode_key owner) v).1 c ≡ chunk_at s c
  unfolding chunk_at
  chunk_at-put_inode s owner c v = rw (
      K.get-put_ne s (inode_key owner) (chunk_key handle c) v
        (λ e. inode_key-ne-chunk_key owner handle c (sym e)))

  pub byte_at-put_inode :
      (s : K.State) (owner : ℕ) (v : Bytes) (i : ℕ)
      → byte_at (K.put s (inode_key owner) v).1 i ≡ byte_at s i
  unfolding byte_at
  byte_at-put_inode s owner v i = rw (chunk_at-put_inode s owner (i / size) v)

  -- The store `t` is `s` with the chunk `c` changed to `v`.
  pub record Changed (s t : K.State) (c : ℕ) (v : Bytes) : Type 0 where
    pub self : chunk_at t c ≡ v
    pub other : (d : ℕ) → (d == c) ≡ false → chunk_at t d ≡ chunk_at s d
    pub frame : Frame s t

  distinct : (c d : ℕ) → (d == c) ≡ false → chunk_key handle d ≢ chunk_key handle c
  distinct c d ne e = ground (arith, chunk_key-injective handle d handle c e)

  pub put-Changed :
      (s : K.State) (c : ℕ) (v : Bytes)
      → (K.put s (chunk_key handle c) v).0 ≡ true
      → Changed s (K.put s (chunk_key handle c) v).1 c v
  unfolding chunk_at
  put-Changed s c v h = record {
    self = rw (K.get-put_self s (chunk_key handle c) v h);
    other =
        λ d ne. rw (K.get-put_ne s (chunk_key handle c) (chunk_key handle d) v (distinct c d ne));
    frame = λ j ne. K.get-put_ne s (chunk_key handle c) j v (ne c);
  }

  pub put-unchanged :
      (s : K.State) (c : ℕ) (v : Bytes)
      → (K.put s (chunk_key handle c) v).0 ≡ false
      → Changed s (K.put s (chunk_key handle c) v).1 c (chunk_at s c)
  unfolding chunk_at
  put-unchanged s c v h = record {
    self = rw (K.get-put_failed s (chunk_key handle c) v h);
    other =
        λ d ne. rw (K.get-put_ne s (chunk_key handle c) (chunk_key handle d) v (distinct c d ne));
    frame = λ j ne. K.get-put_ne s (chunk_key handle c) j v (ne c);
  }

  pub remove-Changed :
      (s : K.State) (c : ℕ)
      → (K.remove s (chunk_key handle c)).0 ≡ true
      → Changed s (K.remove s (chunk_key handle c)).1 c []
  unfolding chunk_at
  remove-Changed s c h = record {
    self = rw (K.get-remove_self s (chunk_key handle c) h);
    other =
        λ d ne. rw (K.get-remove_ne s (chunk_key handle c) (chunk_key handle d) (distinct c d ne));
    frame = λ j ne. K.get-remove_ne s (chunk_key handle c) j (ne c);
  }

  pub Changed-ChunksFit :
      {s t : K.State} {c : ℕ} {v : Bytes}
      → Changed s t c v
      → length v ≤ size
      → ChunksFit s
      → ChunksFit t
  Changed-ChunksFit {s} {t} {c} ch short fit = record {
    fits = λ d. elim (Bool-cases (d == c)) [
      | inl same ↦ rw ((==_iff d c).0 same, ch.self) short
      | inr ne ↦ rw (ch.other d ne) (fit.fits d)
    ];
  }

  module _ (pos : 0 < size) where
    -- A byte lies in its chunk, at its offset.
    pub byte_at-chunk :
        (s : K.State) (c i : ℕ)
        → c * size ≤ i
        → i < c * size + size
        → byte_at s i ≡ at (chunk_at s c) (i - c * size)
    unfolding byte_at
    byte_at-chunk s c i lo hi = rw (chunk_of size pos c i lo hi, offset_of size pos c i lo hi)

    not_in_chunk : (c i : ℕ) → (i < c * size) ⊎ (c * size + size ≤ i) → (i / size == c) ≡ false
    not_in_chunk c i out = elim (Bool-cases (i / size == c)) [
      | inl same ↦
          let start = ap (λ (t : ℕ). t * size) ((==_iff (i / size) c).0 same) in
          absurd (ground (arith, chunk_lower size pos i, chunk_upper size pos i, start))
      | inr other ↦ other
    ]

    -- The bytes of a changed chunk are those of its new value, and the others are as before.
    pub byte_at-Changed_in :
        (s t : K.State) (c i : ℕ) (v : Bytes)
        → Changed s t c v
        → c * size ≤ i
        → i < c * size + size
        → byte_at t i ≡ at v (i - c * size)
    byte_at-Changed_in s t c i v ch lo hi = rw (byte_at-chunk t c i lo hi, ch.self)

    pub byte_at-Changed_out :
        (s t : K.State) (c i : ℕ) (v : Bytes)
        → Changed s t c v
        → (i < c * size) ⊎ (c * size + size ≤ i)
        → byte_at t i ≡ byte_at s i
    unfolding byte_at
    byte_at-Changed_out s t c i v ch out = rw (ch.other (i / size) (not_in_chunk c i out))

    pub byte_at-unchanged :
        (s t : K.State) (c i : ℕ) → Changed s t c (chunk_at s c) → byte_at t i ≡ byte_at s i
    unfolding byte_at
    byte_at-unchanged s t c i ch = elim (Bool-cases (i / size == c)) [
      | inl same ↦ rw ((==_iff (i / size) c).0 same, ch.self)
      | inr other ↦ rw (ch.other (i / size) other)
    ]

    -- From `s` to `t` the bytes from `from` up to `to` became those of `buf`, and no other changed.
    abbrev pub Wrote : K.State → K.State → ℕ → ℕ → Bytes → Type 0
    Wrote s t from to buf =
        (i : ℕ)
        → byte_at t i ≡ (
            if ltb i from then byte_at s i else if ltb i to then at buf (i - from) else byte_at s i)

    pub Wrote-trans :
        (s t u : K.State) (from mid to : ℕ) (buf : Bytes)
        → from ≤ mid
        → mid ≤ to
        → Wrote s t from mid buf
        → Wrote t u mid to (drop (mid - from) buf)
        → Wrote s u from to buf
    Wrote-trans s t u from mid to buf lo hi h k i =
        ground (arith, h i, k i, get_or-drop (mid - from) buf (i - mid) 0)
