-- ===== src/Mount/Inodes.antt =====
-- The map of inodes of src/kvfs_mount.cc: what is put under a number is found there, and nothing else
-- changes.
use kvfs_ra_testing.Base.{
  ℕ, ◌≡◌, ◌≢◌, refl, false, some, [], ◌∷◌, ◌==◌, Bool-cases, inl, inr, ==_refl, arith,
}
use kvfs_ra_testing.Mount.{
  FuseKvfsInode, InodeMap, Machine, KvfsMount, map_find, map_set, inode_at, put_inode,
}

pub map_find-map_set :
    (ino : ℕ) (i : FuseKvfsInode) (map : InodeMap) → map_find ino (map_set ino i map) ≡ some i
unfolding map_find map_set
map_find-map_set ino i [] = rw (==_refl ino) refl
map_find-map_set ino i ((j, k) ∷ rest) = elim (Bool-cases (ino == j)) [
  | inl same ↦ rw (same, ==_refl ino) refl
  | inr other ↦ rw (other, other) (map_find-map_set ino i rest)
]

pub map_find-map_set_ne :
    (ino other : ℕ) (i : FuseKvfsInode) (map : InodeMap)
    → other ≢ ino
    → map_find other (map_set ino i map) ≡ map_find other map
unfolding map_find map_set
map_find-map_set_ne ino other i [] ne =
    let apart : (other == ino) ≡ false = ground (arith, ne) in rw (apart) refl
map_find-map_set_ne ino other i ((j, k) ∷ rest) ne = elim (Bool-cases (ino == j)) [
  | inl same ↦
      let apart : (other == ino) ≡ false = ground (arith, ne) in
      let apart' : (other == j) ≡ false = ground (arith, ne, same) in rw (same, apart, apart') refl
  | inr differ ↦ rw (differ) (rw (map_find-map_set_ne ino other i rest ne) refl)
]

module _ {S : Type 0} (machine : Machine) where
  pub inode_at-put_inode :
      (ino : ℕ) (i : FuseKvfsInode) (m : KvfsMount S) → inode_at machine (put_inode ino i m) ino ≡ i
  unfolding inode_at put_inode
  inode_at-put_inode ino i m = rw (inode_at, map_find-map_set ino i m.inode_map) refl

  pub inode_at-put_inode_ne :
      (ino other : ℕ) (i : FuseKvfsInode) (m : KvfsMount S)
      → other ≢ ino
      → inode_at machine (put_inode ino i m) other ≡ inode_at machine m other
  unfolding inode_at put_inode
  inode_at-put_inode_ne ino other i m ne =
      rw (inode_at, map_find-map_set_ne ino other i m.inode_map ne) refl
