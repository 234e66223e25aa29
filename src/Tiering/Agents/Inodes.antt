-- ===== src/Tiering/Agents/Inodes.antt =====
-- GetInodes of src/tiering/tiering_out_agent.cc: the inodes of a batch of changes, each once.
use kvfs_ra_testing.Base.{
  ℕ, suc, ◌≤◌, ◌≡◌, refl, Bool, false, ◌||◌, Option, none, some, List, [], ◌∷◌, ltb, ◌==◌,
  Bool-cases, inl, inr, arith,
}
use kvfs_ra_testing.Tiering.ChangeLog.{ChangeLogEntry}
use kvfs_ra_testing.Tiering.Agents.{set_insert, insert_inode, collect, get_inodes}
use kvfs_ra_testing.Mount.{Change}

pub has : ℕ → List ℕ → Bool
has n [] = false
has n (m ∷ ms) = let later = has n ms in n == m || later

pub is_inode : ℕ → Option ℕ → Bool
is_inode n none = false
is_inode n (some ino) = n == ino

-- Whether some entry is about the inode.
pub mentions : ℕ → List (ChangeLogEntry Change) → Bool
unfolding is_inode
mentions n [] = false
mentions n (entry ∷ entries) =
    let later = mentions n entries in is_inode n entry.change.inode_num || later

-- Numbers that go up, the first of them at least `low`.
pub data Ascends : ℕ → List ℕ → Type 0 where
  ascends_nil : (low : ℕ) → Ascends low []
  ascends_cons : (low n : ℕ) (ns : List ℕ) → low ≤ n → Ascends (suc n) ns → Ascends low (n ∷ ns)

has-set_insert : (n ino : ℕ) (ms : List ℕ) → has n (set_insert ino ms) ≡ ((n == ino) || has n ms)
unfolding has set_insert
has-set_insert n ino [] = refl
has-set_insert n ino (m ∷ ms) = ground (arith, has-set_insert n ino ms)

has-insert_inode :
    (n : ℕ) (o : Option ℕ) (ms : List ℕ) → has n (insert_inode o ms) ≡ (is_inode n o || has n ms)
unfolding insert_inode is_inode
has-insert_inode n none ms = refl
has-insert_inode n (some ino) ms = has-set_insert n ino ms

set_insert-Ascends :
    (low ino : ℕ) (ms : List ℕ) → low ≤ ino → Ascends low ms → Ascends low (set_insert ino ms)
unfolding set_insert
set_insert-Ascends low ino [] above (ascends_nil _) =
    ascends_cons low ino [] above (ascends_nil (suc ino))
set_insert-Ascends low ino (m ∷ ms) above (ascends_cons _ _ _ first rest) =
    elim (Bool-cases (ltb ino m)) [
      | inl before ↦ rw (before) (
          ascends_cons low ino (m ∷ ms) above
            (ascends_cons (suc ino) m ms (ground (arith, before)) rest))
      | inr after ↦ elim (Bool-cases (ino == m)) [
        | inl same ↦ rw (after, same) (ascends_cons low m ms first rest)
        | inr differ ↦
            rw (after, differ)
              (ascends_cons low m (set_insert ino ms) first
                (set_insert-Ascends (suc m) ino ms (ground (arith, after, differ)) rest))
      ]
    ]

insert_inode-Ascends : (o : Option ℕ) (ms : List ℕ) → Ascends 0 ms → Ascends 0 (insert_inode o ms)
unfolding insert_inode
insert_inode-Ascends none ms h = h
insert_inode-Ascends (some ino) ms h = set_insert-Ascends 0 ino ms (omega arith) h

collect-has :
    (n : ℕ) (entries : List (ChangeLogEntry Change)) (ms : List ℕ)
    → has n (collect entries ms) ≡ (mentions n entries || has n ms)
unfolding collect mentions
collect-has n [] ms = refl
collect-has n (entry ∷ entries) ms = ground (
  arith,
  collect-has n entries (insert_inode entry.change.inode_num ms),
  has-insert_inode n entry.change.inode_num ms,
)

collect-Ascends :
    (entries : List (ChangeLogEntry Change)) (ms : List ℕ)
    → Ascends 0 ms
    → Ascends 0 (collect entries ms)
unfolding collect
collect-Ascends [] ms h = h
collect-Ascends (entry ∷ entries) ms h =
    collect-Ascends entries _ (insert_inode-Ascends entry.change.inode_num ms h)

-- For any batch of changes: GetInodes returns the inodes that some entry is about and no others, in
-- ascending order and each once.
pub get_inodes-mentions :
    (entries : List (ChangeLogEntry Change))
    → Ascends 0 (get_inodes entries) × ((n : ℕ) → has n (get_inodes entries) ≡ mentions n entries)
unfolding get_inodes has
get_inodes-mentions entries =
    (collect-Ascends entries [] (ascends_nil 0), λ n. ground (arith, collect-has n entries []))
