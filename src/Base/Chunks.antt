-- ===== src/Base/Chunks.antt =====
-- Positions in chunks: the chunk and the offset in it of a byte, for any chunk size.
use Prim.Native.Nat.{ℕ, ◌+◌, ◌-◌, ◌*◌, ◌/◌, ◌%◌, ◌≤◌, ◌<◌}
use mathlib.Core.Path.{◌≡◌}
use native.Mathlib.Omega.{arith}

pub mul_mono : (a b k : ℕ) → a ≤ b → a * k ≤ b * k
mul_mono a b k h = grind arith

module _ (size : ℕ) (pos : 0 < size) where
  pub chunk_of : (c i : ℕ) → c * size ≤ i → i < c * size + size → i / size ≡ c
  chunk_of c i lo hi = grind arith

  pub offset_of : (c i : ℕ) → c * size ≤ i → i < c * size + size → i % size ≡ i - c * size
  offset_of c i lo hi = grind arith

  pub chunk_lower : (i : ℕ) → i / size * size ≤ i
  chunk_lower i = grind arith

  pub chunk_upper : (i : ℕ) → i < i / size * size + size
  chunk_upper i = grind arith

  pub chunk_mono : (i j : ℕ) → i ≤ j → i / size ≤ j / size
  chunk_mono i j h = grind arith
