-- ===== src/Mount.antt =====
-- src/kvfs_mount.h and src/kvfs_mount.cc: a mounted file system, with its inodes in memory. A handler
-- is given the inode number of its object (`this`), and reads and writes the object in the map of
-- inodes, so that two pointers to one object stay one. `none` is an abort of an EXPECT or an assert, or
-- LOG(FATAL). Allocations succeed. The replies of FUSE are values, without the time-outs.
pub mod Cache
pub mod Names
pub mod Removal
pub mod Data
pub mod Ops
pub mod Inodes
pub mod Answers
pub mod Cold
pub mod Super
pub mod Listing
pub mod Kept
pub mod Ordered
use kvfs_ra_testing.Base.{
  ℕ, ◌+◌, ◌%◌, ◌^◌, Bool, true, false, Option, none, some, List, [], ◌∷◌, Bytes, ◌==◌,
  if◌then◌else◌,
}
use kvfs_ra_testing.Meta.{default_file_initial_size, default_file_chunk_size}
use kvfs_ra_testing.File.{LogFsFile, new_file}
use kvfs_ra_testing.File.Hold.{TieredInFile}
use kvfs_ra_testing.File.Resize.{Stat}
use kvfs_ra_testing.Directory.{Directory, new_directory}
use kvfs_ra_testing.Tiering.ChangeLog.{ChangeLogEntry, FsChangeLog, append}

-- FuseKvfsInode::State
pub data InodeState : Type 0 where
  invalid clean dirty : InodeState

-- FuseKvfsInode, whose pointer to the mount is an argument here. `dir` is the LogFSFile with the
-- partitions that it has if it is a directory.
pub record FuseKvfsInode : Type 0 where
  pub attr : Stat
  pub dir : Directory
  pub nlookup : ℕ
  pub state : InodeState

-- The operations of a change that the program logs.
pub data Operation : Type 0 where
  mkdir creat unlink rmdir link setattr commit : Operation

-- What a handler fills in of an entry, beside its xid.
pub record Change : Type 0 where
  pub operation : Operation
  pub fs_id : ℕ
  pub inode_num : Option ℕ
  pub parent_inode_num : Option ℕ
  pub new_name : Option Bytes
  pub begin_offset : Option ℕ
  pub end_offset : Option ℕ

-- A change of an operation on an inode, and one that also names the parent.
unfoldable pub change_of : Operation → ℕ → ℕ → Change
change_of operation fs_id ino = record {
  operation = operation;
  fs_id = fs_id;
  inode_num = some ino;
  parent_inode_num = none;
  new_name = none;
  begin_offset = none;
  end_offset = none;
}

unfoldable pub name_change : Operation → ℕ → ℕ → ℕ → Option Bytes → Change
name_change operation fs_id ino parent new_name = record (change_of operation fs_id ino) {
  parent_inode_num = some parent;
  new_name = new_name;
}

-- What the process has of its machine: the clock, the user and the group, the bytes that the
-- constructor of an inode finds in its `attr`, and the agent that opens tiered files.
pub record Machine : Type 0 where
  pub now : ℕ
  pub user_id : ℕ
  pub group_id : ℕ
  pub uninitialized : Stat
  pub agent : ℕ → Option TieredInFile

abbrev pub InodeMap : Type 0
InodeMap = List (ℕ × FuseKvfsInode)

unfoldable pub map_find : ℕ → InodeMap → Option FuseKvfsInode
map_find ino [] = none
map_find ino ((j, i) ∷ rest) = let later = map_find ino rest in if ino == j then some i else later

unfoldable pub map_set : ℕ → FuseKvfsInode → InodeMap → InodeMap
map_set ino i [] = (ino, i) ∷ []
map_set ino i ((j, k) ∷ rest) =
    let later = map_set ino i rest in if ino == j then (ino, i) ∷ rest else (j, k) ∷ later

unfoldable pub map_erase : ℕ → InodeMap → InodeMap
map_erase ino [] = []
map_erase ino ((j, i) ∷ rest) =
    let later = map_erase ino rest in if ino == j then rest else (j, i) ∷ later

-- KvfsMount with the store, the number from which FileSystemManager::getNextHandleId goes on, and the
-- change log.
pub record KvfsMount (S : Type 0) : Type 0 where
  pub fs_id : ℕ
  pub inode_map : InodeMap
  pub change_log : FsChangeLog Change
  pub handle_id : ℕ
  pub store : S

-- What a handler answers to FUSE.
pub data Reply : Type 0 where
  reply_err : ℕ → Reply
  reply_none : Reply
  reply_open : ℕ → Reply
  reply_attr : Stat → Reply
  reply_entry : ℕ → Stat → Reply
  reply_create : ℕ → Stat → Reply
  reply_buf : Bytes → Reply
  reply_write : ℕ → Reply

-- FuseKvfsInode(mount, ino)
unfoldable pub new_inode : Machine → ℕ → ℕ → FuseKvfsInode
new_inode machine fs_id ino = record {
  attr = record machine.uninitialized { st_ino = ino; st_dev = 0 };
  dir = new_directory (new_file fs_id [] ino 0 default_file_initial_size default_file_chunk_size);
  nlookup = 0;
  state = invalid;
}

module _ {S : Type 0} where
  -- The object in the map, or the one that `emplace` constructs.
  unfoldable pub inode_at : Machine → KvfsMount S → ℕ → FuseKvfsInode
  inode_at machine m ino = elim (map_find ino m.inode_map) [
    | none ↦ new_inode machine m.fs_id ino
    | some i ↦ i
  ]

  unfoldable pub put_inode : ℕ → FuseKvfsInode → KvfsMount S → KvfsMount S
  put_inode ino i m = record m { inode_map = map_set ino i m.inode_map }

  unfoldable pub put_store : S → KvfsMount S → KvfsMount S
  put_store s m = record m { store = s }

  -- change_log->Append(entry), for an entry that has an xid and for one that has not.
  unfoldable pub log_change : Option ℕ → Change → KvfsMount S → KvfsMount S
  log_change xid change m = record m {
    change_log = (append m.change_log (record { xid = xid; change = change })).1;
  }

unfoldable pub set_dir : Directory → FuseKvfsInode → FuseKvfsInode
set_dir d i = record i { dir = d }

unfoldable pub set_file : LogFsFile → FuseKvfsInode → FuseKvfsInode
set_file f i = record i { dir = record i.dir { file = f } }

unfoldable pub set_state : InodeState → FuseKvfsInode → FuseKvfsInode
set_state new_state i = record i { state = new_state }

-- file.getLogFSMetaData().set_xid(xid)
unfoldable pub set_xid : ℕ → FuseKvfsInode → FuseKvfsInode
set_xid new_xid i =
    set_file (record i.dir.file { meta = record i.dir.file.meta { xid = new_xid } }) i
