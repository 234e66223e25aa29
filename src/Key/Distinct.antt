-- ===== src/Key/Distinct.antt =====
-- Keys of different things are different.
use kvfs_ra_testing.Base.{
  ℕ, ◌≡◌, ◌≢◌, refl, [], ◌∷◌, ◌++◌, Bytes, arith, ◌==◌, if◌then◌else◌, ap, sym, ◌∙◌,
}
use kvfs_ra_testing.Key.{dot, inode_key, chunk_key}
use kvfs_ra_testing.Key.Decimal.{decimal, HasNo, decimal-HasNo, decimal-injective, decimal-ne-nil}

before : ℕ → Bytes → Bytes
before c [] = []
before c (x ∷ xs) = let rest = x ∷ before c xs in if x == c then [] else rest

after : ℕ → Bytes → Bytes
after c [] = []
after c (x ∷ xs) = let rest = after c xs in if x == c then xs else rest

before-append : (c : ℕ) (xs ys : Bytes) → HasNo c xs → before c (xs ++ c ∷ ys) ≡ xs
unfolding before
before-append c [] ys h = ground arith
before-append c (x ∷ xs) ys h = ground (arith, before-append c xs ys h.1, h.0)

after-append : (c : ℕ) (xs ys : Bytes) → HasNo c xs → after c (xs ++ c ∷ ys) ≡ ys
unfolding after
after-append c [] ys h = ground arith
after-append c (x ∷ xs) ys h = ground (arith, after-append c xs ys h.1, h.0)

before_self : (c : ℕ) (xs : Bytes) → HasNo c xs → before c xs ≡ xs
unfolding before
before_self c [] h = refl
before_self c (x ∷ xs) h = ground (arith, before_self c xs h.1, h.0)

after_self : (c : ℕ) (xs : Bytes) → HasNo c xs → after c xs ≡ []
unfolding after
after_self c [] h = refl
after_self c (x ∷ xs) h = ground (arith, after_self c xs h.1, h.0)

decimal-HasNo-dot : (n : ℕ) → HasNo dot (decimal n)
decimal-HasNo-dot n = decimal-HasNo dot n (omega arith)

-- Two chunk keys are equal only for the same inode and the same chunk.
pub chunk_key-injective : (h c h' c' : ℕ) → chunk_key h c ≡ chunk_key h' c' → (h ≡ h') × (c ≡ c')
unfolding chunk_key
chunk_key-injective h c h' c' e = (
  decimal-injective h h' (
      sym (before-append dot (decimal h) (decimal c) (decimal-HasNo-dot h))
      ∙ ap (before dot) e
      ∙ before-append dot (decimal h') (decimal c') (decimal-HasNo-dot h')),
  decimal-injective c c' (
      sym (after-append dot (decimal h) (decimal c) (decimal-HasNo-dot h))
      ∙ ap (after dot) e
      ∙ after-append dot (decimal h') (decimal c') (decimal-HasNo-dot h')),
)

pub inode_key-injective : (h h' : ℕ) → inode_key h ≡ inode_key h' → h ≡ h'
unfolding inode_key
inode_key-injective h h' e = decimal-injective h h' e

-- An inode key is never a chunk key.
pub inode_key-ne-chunk_key : (h h' c : ℕ) → inode_key h ≢ chunk_key h' c
unfolding inode_key chunk_key
inode_key-ne-chunk_key h h' c e = decimal-ne-nil c (
    sym (after-append dot (decimal h') (decimal c) (decimal-HasNo-dot h'))
    ∙ ap (after dot) (sym e)
    ∙ after_self dot (decimal h) (decimal-HasNo-dot h))
