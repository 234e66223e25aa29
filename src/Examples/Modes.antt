-- ===== src/Examples/Modes.antt =====
-- The theorems about modes, rights and keys.
use kvfs_ra_testing.Base.{ℕ, ◌≡◌, ◌≢◌, refl, arith}
use kvfs_ra_testing.Status.{ok, invalid_parameter, eacces}
use kvfs_ra_testing.Key.{inode_key, chunk_key}
use kvfs_ra_testing.Key.Distinct.{chunk_key-injective, inode_key-ne-chunk_key}
use kvfs_ra_testing.Meta.{
  MetaData, inval, ifdir, type_from_mode, prot_from_mode, mode_from_meta, new_meta,
}
use kvfs_ra_testing.Meta.Mode.{mode_from_meta-from_mode, meta-from_mode_from_meta}
use kvfs_ra_testing.Meta.Access.{access, class_weight, Grants, access-Grants}

mode_from_meta-from_mode_example :
    mode_from_meta (type_from_mode 0o102755 inval) (prot_from_mode 0o102755) ≡ 0o102755
unfolding type_from_mode
mode_from_meta-from_mode_example =
    mode_from_meta-from_mode 0o102755 (omega arith) (λ e. ground (arith, e))

meta-from_mode_from_meta_example :
    (type_from_mode (mode_from_meta ifdir (prot_from_mode 0o1750)) inval ≡ ifdir)
    × (prot_from_mode (mode_from_meta ifdir (prot_from_mode 0o1750)) ≡ prot_from_mode 0o1750)
meta-from_mode_from_meta_example =
    meta-from_mode_from_meta ifdir inval (prot_from_mode 0o1750) (λ e. ground (arith, e))

owned : MetaData
unfolding new_meta
owned = record (new_meta 0 8192) { user_id = 10; group_id = 20; protection = prot_from_mode 0o640 }

access-Grants_example :
    (Grants 0o640 (class_weight owned 11 20) 4 → access owned 4 11 20 0 ≡ (ok, 0))
    × (¬ Grants 0o640 (class_weight owned 11 20) 4
        → access owned 4 11 20 0 ≡ (invalid_parameter, eacces))
unfolding owned
access-Grants_example = access-Grants owned 0o640 4 11 20 0 refl

chunk_key-injective_example : (◌≡◌ {A = ℕ} 5 5) × (◌≡◌ {A = ℕ} 7 7)
chunk_key-injective_example = chunk_key-injective 5 7 5 7 refl

inode_key-ne-chunk_key_example : inode_key 51 ≢ chunk_key 5 1
inode_key-ne-chunk_key_example = inode_key-ne-chunk_key 51 5 1
