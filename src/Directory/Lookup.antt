-- ===== src/Directory/Lookup.antt =====
-- The two partitions of a directory in memory (src/KVFSFile.cc), and findHandle in the one that a name is
-- in.
use kvfs_ra_testing.Base.{
  ℕ, ◌≡◌, ◌≢◌, ◌⊎◌, inl, inr, refl, sym, ap, ◌∙◌, Bool, true, false, some, Bytes, bytes_eq,
  bytes_eq_sound, Bool-cases, arith,
}
use kvfs_ra_testing.Store.{KvStore}
use kvfs_ra_testing.File.{MetaLayout}
use kvfs_ra_testing.Partition
use kvfs_ra_testing.Partition.{LogFsDirectoryPartition}
use kvfs_ra_testing.Partition.Entries.{IsLoaded}
use kvfs_ra_testing.Directory.{Directory, get_partition, set_partition, partition_of, find_handle}

pub get_partition-set_partition :
    (b : Bool) (p : LogFsDirectoryPartition) (d : Directory)
    → get_partition b (set_partition b p d) ≡ p
unfolding get_partition set_partition
get_partition-set_partition true p d = refl
get_partition-set_partition false p d = refl

pub set_partition-get_partition :
    (b : Bool) (d : Directory) → set_partition b (get_partition b d) d ≡ d
unfolding get_partition set_partition
set_partition-get_partition true d = refl
set_partition-get_partition false d = refl

pub get_partition-other :
    (a b : Bool) (p : LogFsDirectoryPartition) (d : Directory)
    → (a ≡ b) ⊎ ((a ≢ b) × (get_partition a (set_partition b p d) ≡ get_partition a d))
unfolding get_partition set_partition
get_partition-other true true p d = inl refl
get_partition-other true false p d = inr (λ e. ground (arith, e), refl)
get_partition-other false true p d = inr (λ e. ground (arith, e), refl)
get_partition-other false false p d = inl refl

module _ (K : KvStore) (layout : MetaLayout) (hash : Bytes → ℕ) where
  pub different_name :
      (a b : Bool) (other name : Bytes)
      → a ≢ b
      → partition_of K layout hash other ≡ a
      → partition_of K layout hash name ≡ b
      → bytes_eq other name ≡ false
  different_name a b other name apart e e' = elim (Bool-cases (bytes_eq other name)) [
    | inr differ ↦ differ
    | inl same ↦ absurd (
        apart (
          sym e
          ∙ ap (λ (n : Bytes). partition_of K layout hash n) (bytes_eq_sound other name same)
          ∙ e'))
  ]

  pub find_handle-part :
      (d : Directory) (s : K.State) (name : Bytes) (ino : ℕ)
      → Partition.find_entry K (get_partition (partition_of K layout hash name) d) s name
        ≡ some (ino, get_partition (partition_of K layout hash name) d)
      → find_handle K layout hash d s name ≡ some (ino, d)
  unfolding find_handle
  find_handle-part d s name ino e =
      rw (find_handle, e)
        (ap (λ (d' : Directory). some (ino, d'))
          (set_partition-get_partition (partition_of K layout hash name) d))

  -- Both partitions have been read in.
  abbrev pub DirIsLoaded : Directory → Type 0
  DirIsLoaded d = (b : Bool) → IsLoaded K (get_partition b d)
