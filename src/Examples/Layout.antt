-- ===== src/Examples/Layout.antt =====
-- A layout of the inode record: one number for each field, and then the name.
use kvfs_ra_testing.Base.{ℕ, ◌≡◌, refl, Bool, true, false, ◌∷◌, Bytes, ◌==◌, if◌then◌else◌}
use kvfs_ra_testing.Meta.{
  MetaData, MetaType, EvictionState, inval, ifreg, ifdir, iflnk, ifblk, ifchr, ififo, ifsock,
  resident, data_evicted, evicted, new_meta,
}
use kvfs_ra_testing.File.{MetaLayout}

type_code : MetaType → ℕ
type_code inval = 0
type_code ifreg = 1
type_code ifdir = 2
type_code iflnk = 3
type_code ifblk = 4
type_code ifchr = 5
type_code ififo = 6
type_code ifsock = 7

code_type : ℕ → MetaType
code_type n =
    if n == 0
    then inval
    else if n == 1
    then ifreg
    else if n == 2
    then ifdir
    else if n == 3
    then iflnk
    else if n == 4
    then ifblk
    else if n == 5
    then ifchr
    else if n == 6
    then ififo
    else ifsock

code_type-type_code : (t : MetaType) → code_type (type_code t) ≡ t
unfolding code_type type_code
code_type-type_code inval = refl
code_type-type_code ifreg = refl
code_type-type_code ifdir = refl
code_type-type_code iflnk = refl
code_type-type_code ifblk = refl
code_type-type_code ifchr = refl
code_type-type_code ififo = refl
code_type-type_code ifsock = refl

state_code : EvictionState → ℕ
state_code resident = 0
state_code data_evicted = 1
state_code evicted = 2

code_state : ℕ → EvictionState
code_state n = if n == 0 then resident else if n == 1 then data_evicted else evicted

code_state-state_code : (e : EvictionState) → code_state (state_code e) ≡ e
unfolding code_state state_code
code_state-state_code resident = refl
code_state-state_code data_evicted = refl
code_state-state_code evicted = refl

bit_code : Bool → ℕ
bit_code true = 1
bit_code false = 0

code_bit : ℕ → Bool
code_bit n = n == 1

code_bit-bit_code : (b : Bool) → code_bit (bit_code b) ≡ b
unfolding code_bit bit_code
code_bit-bit_code true = refl
code_bit-bit_code false = refl

pub meta_bytes : MetaData → Bytes
meta_bytes m =
    m.meta_version
    ∷ m.check_sum
    ∷ m.fs_id
    ∷ m.handle
    ∷ m.xid
    ∷ type_code m.type
    ∷ bit_code m.protection.suid
    ∷ bit_code m.protection.sgid
    ∷ bit_code m.protection.sticky
    ∷ bit_code m.protection.owner.read
    ∷ bit_code m.protection.owner.write
    ∷ bit_code m.protection.owner.exec
    ∷ bit_code m.protection.group.read
    ∷ bit_code m.protection.group.write
    ∷ bit_code m.protection.group.exec
    ∷ bit_code m.protection.other.read
    ∷ bit_code m.protection.other.write
    ∷ bit_code m.protection.other.exec
    ∷ m.user_id
    ∷ m.group_id
    ∷ m.dev_id
    ∷ m.r_dev
    ∷ m.file_total_size
    ∷ state_code m.eviction_state
    ∷ m.file_initial_size
    ∷ m.file_chunk_size
    ∷ m.n_link
    ∷ m.atime
    ∷ m.atime_nsec
    ∷ m.mtime
    ∷ m.mtime_nsec
    ∷ m.ctime
    ∷ m.ctime_nsec
    ∷ m.parent_handle
    ∷ m.name

pub meta_overlay : Bytes → MetaData
unfolding new_meta
meta_overlay
      (v_meta_version ∷ v_check_sum ∷ v_fs_id ∷ v_handle ∷ v_xid ∷ ty ∷ b_suid ∷ b_sgid ∷ b_sticky
        ∷ b_owner_read ∷ b_owner_write ∷ b_owner_exec ∷ b_group_read ∷ b_group_write ∷ b_group_exec
        ∷ b_other_read ∷ b_other_write ∷ b_other_exec ∷ v_user_id ∷ v_group_id ∷ v_dev_id ∷ v_r_dev
        ∷ v_file_total_size ∷ st ∷ v_file_initial_size ∷ v_file_chunk_size ∷ v_n_link ∷ v_atime
        ∷ v_atime_nsec ∷ v_mtime ∷ v_mtime_nsec ∷ v_ctime ∷ v_ctime_nsec ∷ v_parent_handle ∷ name) =
    record {
      meta_version = v_meta_version;
      check_sum = v_check_sum;
      fs_id = v_fs_id;
      handle = v_handle;
      xid = v_xid;
      type = code_type ty;
      protection = record {
        suid = code_bit b_suid;
        sgid = code_bit b_sgid;
        sticky = code_bit b_sticky;
        owner = record {
          read = code_bit b_owner_read;
          write = code_bit b_owner_write;
          exec = code_bit b_owner_exec;
        };
        group = record {
          read = code_bit b_group_read;
          write = code_bit b_group_write;
          exec = code_bit b_group_exec;
        };
        other = record {
          read = code_bit b_other_read;
          write = code_bit b_other_write;
          exec = code_bit b_other_exec;
        };
      };
      user_id = v_user_id;
      group_id = v_group_id;
      dev_id = v_dev_id;
      r_dev = v_r_dev;
      file_total_size = v_file_total_size;
      eviction_state = code_state st;
      file_initial_size = v_file_initial_size;
      file_chunk_size = v_file_chunk_size;
      n_link = v_n_link;
      atime = v_atime;
      atime_nsec = v_atime_nsec;
      mtime = v_mtime;
      mtime_nsec = v_mtime_nsec;
      ctime = v_ctime;
      ctime_nsec = v_ctime_nsec;
      parent_handle = v_parent_handle;
      name = name;
    }
meta_overlay _ = new_meta 0 0

pub meta_overlay-bytes : (m : MetaData) → meta_overlay (meta_bytes m) ≡ m
unfolding meta_bytes meta_overlay
meta_overlay-bytes m =
    rw
      (
        code_type-type_code m.type,
        code_state-state_code m.eviction_state,
        code_bit-bit_code m.protection.suid,
        code_bit-bit_code m.protection.sgid,
        code_bit-bit_code m.protection.sticky,
        code_bit-bit_code m.protection.owner.read,
        code_bit-bit_code m.protection.owner.write,
        code_bit-bit_code m.protection.owner.exec,
        code_bit-bit_code m.protection.group.read,
        code_bit-bit_code m.protection.group.write,
        code_bit-bit_code m.protection.group.exec,
        code_bit-bit_code m.protection.other.read,
        code_bit-bit_code m.protection.other.write,
        code_bit-bit_code m.protection.other.exec,
      )
      refl

abbrev pub layout : MetaLayout
layout = record { bytes = meta_bytes; overlay = meta_overlay; overlay-bytes = meta_overlay-bytes }
