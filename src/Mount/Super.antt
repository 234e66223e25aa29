-- ===== src/Mount/Super.antt =====
-- ReadSuperblock and WriteSuperblock of src/kvfs_mount.cc. The text format of protobuf is an argument,
-- with the law that a superblock with all its fields is read back from its text. The counter of inode
-- numbers is FileSystemManager's.
use kvfs_ra_testing.Base.{
  ℕ, ◌+◌, ◌%◌, ◌^◌, ◌≡◌, refl, sym, ap, ◌∙◌, Option, none, some, ◌∷◌, [], Bytes, if◌then◌else◌,
  Option-cases, Bool-cases, inl, inr, arith,
}
use kvfs_ra_testing.Status.{eio}
use kvfs_ra_testing.Key.Decimal.{decimal}
use kvfs_ra_testing.Store.{KvStore}

pub record Superblock : Type 0 where
  pub magic : ℕ
  pub filesystem_name : Bytes
  pub cloud_uri : Bytes
  pub next_inode : ℕ
  pub next_xid : ℕ
  pub fs_id : ℕ
  pub dev : ℕ
  pub chunk_size : ℕ

-- PrintToString, and MergeFromString into a superblock.
pub record TextFormat : Type 0 where
  pub print : Superblock → Option Bytes
  pub merge : Bytes → Superblock → Option Superblock
  pub merge-print :
      (super old : Superblock) (text : Bytes)
      → print super ≡ some text
      → merge text old ≡ some super

abbrev pub filesystem_name_text : Bytes
filesystem_name_text = b'P' ∷ b'Q' ∷ b'F' ∷ b'S' ∷ b'_' ∷ b't' ∷ b'e' ∷ b's' ∷ b't' ∷ []

unfoldable pub super_key : ℕ → Bytes
super_key fs_id = b'S' ∷ b'U' ∷ b'P' ∷ b'E' ∷ b'R' ∷ b'.' ∷ decimal fs_id

-- The fields that are set when there is no superblock.
unfoldable pub first_super : ℕ → Bytes → Superblock
first_super fs_id cloud_uri = record {
  magic = 17;
  filesystem_name = filesystem_name_text;
  cloud_uri = cloud_uri;
  next_inode = 2;
  next_xid = 1;
  fs_id = fs_id;
  dev = 0;
  chunk_size = 4096;
}

module _ (K : KvStore) (T : TextFormat) (fs_id : ℕ) where
  -- The inode numbers that a superblock keeps back.
  unfoldable pub reserve : ℕ → Superblock → Superblock
  reserve current_inode super = record super { next_inode = (current_inode + 1000) % 2 ^ 64 }

  -- WriteSuperblock: the errno, where a failure to print leaves errno at 0, the superblock and the store.
  unfoldable pub write_superblock : ℕ → Superblock → K.State → ℕ × Superblock × K.State
  write_superblock current_inode super s =
      let super' = reserve current_inode super in
      elim (T.print super') [
        | none ↦ (eio, super', s)
        | some super_value ↦
            let (done, s') = K.put s (super_key fs_id) super_value in
            (if done then 0 else eio, super', s')
      ]

  -- ReadSuperblock: the errno, the superblock, the counter of inode numbers, and the store. What
  -- WriteSuperblock returns is dropped.
  unfoldable pub read_superblock : Bytes → ℕ → Superblock → K.State → ℕ × Superblock × ℕ × K.State
  read_superblock cloud_uri current_inode super s = elim (K.get s (super_key fs_id)) [
    | none ↦
        let (_, super', s') = write_superblock current_inode (first_super fs_id cloud_uri) s in
        (0, super', current_inode, s')
    | some super_value ↦ elim (T.merge super_value super) [
      | none ↦ (eio, super, super.next_inode, s)
      | some super' ↦ (0, super', super'.next_inode, s)
    ]
  ]

  -- For a mount that is shut down and mounted again, of which the superblock was written with errno 0:
  -- ReadSuperblock returns 0 with the superblock that was written, and the counter of inode numbers
  -- is 1000 past where it was, in 64 bits.
  pub read-write_superblock :
      (cloud_uri : Bytes) (current_inode fresh_inode : ℕ) (super fresh : Superblock) (s : K.State)
      → (write_superblock current_inode super s).0 ≡ 0
      → read_superblock cloud_uri fresh_inode fresh (write_superblock current_inode super s).2 ≡ (
        0,
        reserve current_inode super,
        (current_inode + 1000) % 2 ^ 64,
        (write_superblock current_inode super s).2,
      )
  unfolding write_superblock read_superblock reserve
  read-write_superblock cloud_uri current_inode fresh_inode super fresh s written =
      let super' = reserve current_inode super in
      elim (Option-cases (T.print super')) [
        | inl failed ↦
            let w : write_superblock current_inode super s ≡ (eio, super', s) =
              rw (write_superblock, failed) refl in
            let bad : eio ≡ 0 = sym (ap (λ (r : ℕ × Superblock × K.State). r.0) w) ∙ written in
            absurd (omega (arith, bad))
        | inr (text, printed) ↦ elim (Bool-cases (K.put s (super_key fs_id) text).0) [
          | inl done ↦
              let s' = (K.put s (super_key fs_id) text).1 in
              let w : write_superblock current_inode super s ≡ (0, super', s') =
                rw (write_superblock, printed, done) refl in
              let merged = T.merge-print super' fresh text printed in
              let back : read_superblock cloud_uri fresh_inode fresh s'
                  ≡ (0, super', super'.next_inode, s') =
                rw (read_superblock, K.get-put_self s (super_key fs_id) text done, merged) refl in
              rw w back
          | inr full ↦
              let w : (write_superblock current_inode super s).0 ≡ eio =
                rw (write_superblock, printed, full) refl in
              let bad : eio ≡ 0 = sym w ∙ written in absurd (omega (arith, bad))
        ]
      ]
