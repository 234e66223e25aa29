-- ===== src/Meta.antt =====
-- src/KVFSMetaData.h: the inode record, and the conversions between a mode_t and its type and
-- protection bits (src/KVFSFile.cc). Counters and sizes are natural numbers; where the code relies on
-- a width, the operation that changes the field wraps it.
pub mod Mode
pub mod Access
use kvfs_ra_testing.Base.{
  ℕ, ◌+◌, ◌*◌, ◌/◌, ◌%◌, Bool, true, false, ◌&&◌, Option, none, some, [], ◌∷◌, Bytes, length, ltb,
  ◌==◌, if◌then◌else◌,
}

pub data MetaType : Type 0 where
  inval ifreg ifdir iflnk ifblk ifchr ififo ifsock : MetaType

pub data EvictionState : Type 0 where
  resident data_evicted evicted : EvictionState

pub record Rights : Type 0 where
  pub read : Bool
  pub write : Bool
  pub exec : Bool

pub record MetaProt : Type 0 where
  pub suid : Bool
  pub sgid : Bool
  pub sticky : Bool
  pub owner : Rights
  pub group : Rights
  pub other : Rights

-- LogFSMetaData. `name` is the text in the char array up to its null byte.
pub record MetaData : Type 0 where
  pub meta_version : ℕ
  pub check_sum : ℕ
  pub fs_id : ℕ
  pub handle : ℕ
  pub xid : ℕ
  pub type : MetaType
  pub protection : MetaProt
  pub user_id : ℕ
  pub group_id : ℕ
  pub dev_id : ℕ
  pub r_dev : ℕ
  pub file_total_size : ℕ
  pub eviction_state : EvictionState
  pub file_initial_size : ℕ
  pub file_chunk_size : ℕ
  pub n_link : ℕ
  pub atime : ℕ
  pub atime_nsec : ℕ
  pub mtime : ℕ
  pub mtime_nsec : ℕ
  pub ctime : ℕ
  pub ctime_nsec : ℕ
  pub parent_handle : ℕ
  pub name : Bytes

abbrev pub default_file_initial_size : ℕ
default_file_initial_size = 0

abbrev pub default_file_chunk_size : ℕ
default_file_chunk_size = 8 * 1024

abbrev pub no_rights : Rights
no_rights = record { read = false; write = false; exec = false }

abbrev pub no_prot : MetaProt
no_prot = record {
  suid = false;
  sgid = false;
  sticky = false;
  owner = no_rights;
  group = no_rights;
  other = no_rights;
}

-- The constructor LogFSMetaData(initialSize, chunkSize).
unfoldable pub new_meta : ℕ → ℕ → MetaData
new_meta initial_size chunk_size = record {
  meta_version = 0;
  check_sum = 0;
  fs_id = 0;
  handle = 0;
  xid = 0;
  type = inval;
  protection = no_prot;
  user_id = 0;
  group_id = 0;
  dev_id = 0;
  r_dev = 0;
  file_total_size = 0;
  eviction_state = resident;
  file_initial_size = initial_size;
  file_chunk_size = chunk_size;
  n_link = 0;
  atime = 0;
  atime_nsec = 0;
  mtime = 0;
  mtime_nsec = 0;
  ctime = 0;
  ctime_nsec = 0;
  parent_handle = 0;
  name = [];
}

-- The part of a char array before its first null byte.
unfoldable pub c_string : Bytes → Bytes
c_string [] = []
c_string (c ∷ cs) = let rest = c ∷ c_string cs in if c == 0 then [] else rest

abbrev pub name_max : ℕ
name_max = 255

-- addPathInfo; `none` is LOG(FATAL).
unfoldable pub add_path_info : ℕ → Bytes → MetaData → Option MetaData
unfolding c_string
add_path_info parent name m =
    if ltb (length name) name_max
    then some (record m { parent_handle = parent; name = c_string name })
    else none

unfoldable pub get_path_info : MetaData → ℕ × Bytes
get_path_info m = (m.parent_handle, m.name)

-- `mode & mask` as a test, and `acc |= mask`, for a mask of one bit.
unfoldable pub has_mask : ℕ → ℕ → Bool
has_mask mode mask = mode / mask % 2 == 1

unfoldable pub or_mask : Bool → ℕ → ℕ → ℕ
or_mask b acc mask = if b then (if has_mask acc mask then acc else acc + mask) else acc

-- `mode & S_IFMT`, the four bits above the twelve of the protection.
abbrev pub file_type : ℕ → ℕ
file_type mode = mode / 0o10000 % 0o20 * 0o10000

unfoldable pub type_from_mode : ℕ → MetaType → MetaType
type_from_mode mode type =
    let t1 = if file_type mode == 0o100000 then ifreg else type in
    let t2 = if file_type mode == 0o040000 then ifdir else t1 in
    let t3 = if file_type mode == 0o120000 then iflnk else t2 in
    let t4 = if file_type mode == 0o060000 then ifblk else t3 in
    let t5 = if file_type mode == 0o020000 then ifchr else t4 in
    let t6 = if file_type mode == 0o010000 then ififo else t5 in
    if file_type mode == 0o140000 then ifsock else t6

-- SetProtectionFromMode
unfoldable pub prot_from_mode : ℕ → MetaProt
prot_from_mode mode = record {
  suid = has_mask mode 0o4000;
  sgid = has_mask mode 0o2000;
  sticky = has_mask mode 0o1000;
  owner = record {
    read = has_mask mode 0o400;
    write = has_mask mode 0o200;
    exec = has_mask mode 0o100;
  };
  group = record {
    read = has_mask mode 0o40;
    write = has_mask mode 0o20;
    exec = has_mask mode 0o10;
  };
  other = record { read = has_mask mode 0o4; write = has_mask mode 0o2; exec = has_mask mode 0o1 };
}

unfoldable pub type_bit : MetaType → ℕ
type_bit ifreg = 0o100000
type_bit ifdir = 0o040000
type_bit iflnk = 0o120000
type_bit ifblk = 0o060000
type_bit ifchr = 0o020000
type_bit ififo = 0o010000
type_bit ifsock = 0o140000
type_bit inval = 0

unfoldable pub rights_bits : Rights → ℕ → ℕ → ℕ → ℕ → ℕ
rights_bits r acc read write exec =
    or_mask r.exec (or_mask r.write (or_mask r.read acc read) write) exec

unfoldable pub prot_bit : MetaProt → ℕ
prot_bit p =
    let high = or_mask p.sticky (or_mask p.sgid (or_mask p.suid 0 0o4000) 0o2000) 0o1000 in
    let owner = rights_bits p.owner high 0o400 0o200 0o100 in
    let group = rights_bits p.group owner 0o40 0o20 0o10 in rights_bits p.other group 0o4 0o2 0o1

-- ModeFromMeta. The two parts of `type_bit | prot_bit` share no bit, so their union is their sum.
unfoldable pub mode_from_meta : MetaType → MetaProt → ℕ
mode_from_meta type protection = type_bit type + prot_bit protection
