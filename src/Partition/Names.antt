-- ===== src/Partition/Names.antt =====
-- The std::map of names in src/KVFSDirectoryPartition.cc, a list of pairs in the order of the names.
use kvfs_ra_testing.Base.{
  ℕ, ◌≡◌, refl, sym, Bool, true, false, ◌&&◌, ◌||◌, Option, none, some, List, [], ◌∷◌, Bytes,
  bytes_eq, bytes_eq_sound, ltb, ◌==◌, if◌then◌else◌, Bool-cases, inl, inr, arith,
}

abbrev pub NameMap : Type 0
NameMap = List (Bytes × ℕ)

-- operator< of std::string
unfoldable pub name_lt : Bytes → Bytes → Bool
name_lt [] [] = false
name_lt [] (y ∷ ys) = true
name_lt (x ∷ xs) [] = false
name_lt (x ∷ xs) (y ∷ ys) = let rest = name_lt xs ys in ltb x y || (x == y && rest)

unfoldable pub name_find : Bytes → NameMap → Option ℕ
name_find name [] = none
name_find name ((n, ino) ∷ rest) =
    let later = name_find name rest in if bytes_eq name n then some ino else later

unfoldable pub name_set : Bytes → ℕ → NameMap → NameMap
name_set name ino [] = (name, ino) ∷ []
name_set name ino ((n, i) ∷ rest) =
    let later = (n, i) ∷ name_set name ino rest in
    if bytes_eq name n
    then (name, ino) ∷ rest
    else if name_lt name n
    then (name, ino) ∷ (n, i) ∷ rest
    else later

unfoldable pub name_erase : Bytes → NameMap → NameMap
name_erase name [] = []
name_erase name ((n, i) ∷ rest) =
    let later = name_erase name rest in if bytes_eq name n then later else (n, i) ∷ later

pub bytes_eq_apart :
    (a b c : Bytes) → bytes_eq a b ≡ true → bytes_eq c b ≡ false → bytes_eq a c ≡ false
bytes_eq_apart a b c same apart = elim (Bool-cases (bytes_eq a c)) [
  | inr differ ↦ differ
  | inl equal ↦
      let e : bytes_eq c b ≡ true = rw (sym (bytes_eq_sound a c equal)) same in
      absurd (ground (arith, e, apart))
]

-- What is set is found, and other names are as before.
pub name_find-set :
    (name other : Bytes) (ino : ℕ) (m : NameMap)
    → name_find other (name_set name ino m)
      ≡ (if bytes_eq other name then some ino else name_find other m)
unfolding name_find name_set
name_find-set name other ino [] = refl
name_find-set name other ino ((n, i) ∷ rest) = elim (Bool-cases (bytes_eq name n)) [
  | inl same ↦ rw (same, sym (bytes_eq_sound name n same)) (ground arith)
  | inr ne ↦ ground (arith, ne, name_find-set name other ino rest, bytes_eq_apart other n name)
]

pub name_find-erase :
    (name other : Bytes) (m : NameMap)
    → name_find other (name_erase name m)
      ≡ (if bytes_eq other name then none else name_find other m)
unfolding name_find name_erase
name_find-erase name other [] = ground arith
name_find-erase name other ((n, i) ∷ rest) = elim (Bool-cases (bytes_eq name n)) [
  | inl same ↦
      rw (same, sym (bytes_eq_sound name n same)) (ground (arith, name_find-erase name other rest))
  | inr ne ↦ ground (arith, ne, name_find-erase name other rest, bytes_eq_apart other n name)
]
