-- ===== src/File/Write/Patch.antt =====
-- The bytes of a patched chunk.
use kvfs_ra_testing.Base.{
  ℕ, ◌+◌, ◌-◌, ◌≤◌, ◌≡◌, Bytes, at, length, length-resize, at-resize, length-replace, at-replace,
  get_or-beyond, arith, ltb, if◌then◌else◌, max,
}
use kvfs_ra_testing.File.Write.{widen, patch}

length-widen : (end : ℕ) (value : Bytes) → length (widen end value) ≡ max end (length value)
unfolding widen
length-widen end value = ground (arith, length-resize end value)

at-widen : (end : ℕ) (value : Bytes) (i : ℕ) → at (widen end value) i ≡ at value i
unfolding widen
at-widen end value i = ground (arith, at-resize end value i, get_or-beyond value i 0)

module _ (off end : ℕ) (src value : Bytes) (fits : off + length src ≤ end) where
  pub length-patch : length (patch off end src value) ≡ max end (length value)
  unfolding patch
  length-patch = omega (arith, length-replace off src (widen end value), length-widen end value)

  pub at-patch :
      (i : ℕ)
      → at (patch off end src value) i ≡ (
          if ltb i off
          then at value i
          else if ltb i (off + length src)
          then at src (i - off)
          else at value i)
  unfolding patch
  at-patch i =
      rw (at-replace off src (widen end value) i (omega (arith, length-widen end value)), at-widen)
