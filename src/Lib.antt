-- ===== src/Lib.antt =====
-- The kvfs file system over a key-value store: FUSE calls (fuse_kvfs_ops.cc) go to the inodes of a mount
-- (kvfs_mount.cc), which keep the objects of files and directories (KVFSFile.cc,
-- KVFSDirectoryPartition.cc) with their inode record (KVFSMetaData.h); these read and write the store, and
-- the handlers append to a change log (tiering/fs_change_log.cc), from which the agents of tiering/ copy
-- files out and evict them. All paths are in the directory src of the repository.
--
-- Parts and files:
--   Status       Status.h, Status.cc: the status values, and their errno
--   Key          the strings under which inodes, chunks and partitions are stored; Key/Decimal is
--                snprintf's conversion of a number, Key/Distinct that keys do not collide
--   Store        KVStore.h, as a record of operations and of laws that its documentation promises;
--                LevelDBStore.cc and RocksDBStore.cc, which implement it on their libraries, are not
--                modelled. Store/Table is a store in memory that meets the laws
--   Meta         KVFSMetaData.h: the inode record; setTypeFromMode, SetProtectionFromMode and
--                ModeFromMeta of KVFSFile.cc (Meta/Mode), and access (Meta/Access)
--   File         KVFSFile.h, KVFSFile.cc: the object of a file, writeToLog, readFromLog, flush.
--                File/Content is the byte at an offset as the chunks in the store have it; File/Valid
--                what a method may rely on of a file
--   File/Write   write, chunk by chunk, with its read of the old value, its put and the update of the
--                inode
--   File/Read    the loop of read; File/Fetch is read as a whole
--   File/Hold    HoldData, UnEvict, ReleaseData, with tiering/tiered_in_file.cc; the agent that finds a
--                tiered file (tiering/tiering_in_agent.cc) is an argument
--   File/Resize  open, stat, ResizeData, SetSize, Evict
--   Partition    KVFSDirectoryPartition.cc: the entries of a partition of a directory in memory and
--                their form in the store
--   Directory    the methods of LogFSFile that make files and directories and keep attributes and entries,
--                over the two partitions of a directory; the hash of names is an argument.
--                Directory/Names is what a map of names promises, Directory/Linking create, remove and link,
--                Directory/Closing the last close of a file
--   Mount        kvfs_mount.h, kvfs_mount.cc: FuseKvfsInode and KvfsMount. The objects are in a map from inode
--                numbers, and a handler is given the number of its object, so that pointers to one object
--                stay one. Mount/Cache holds, refreshes and releases inodes; Mount/Names has Lookup, Create
--                and Mkdir, Mount/Removal Rmdir, Unlink and Link, Mount/Data the others; Mount/Super is the
--                superblock; Mount/Listing is Readdir with dir_entry_adder.cc, listEntries and listDirectory
--   Mount/Ops    fuse_kvfs_ops.cc: the operations that FUSE calls, their table `serve`, and `Serves`, a
--                sequence of calls. Mount/Kept, Mount/Ordered, Mount/Answers, Mount/Cold and Mount/Inodes
--                are about the handlers
--   Manager      FileSystemManager.cc: the operations that the agents use
--   Tiering      tiering/fs_change_log.cc, the change log, with its file in Tiering/ChangeLog/Saved;
--                tiering/index_manager.cc, which segment holds an inode; Tiering/Agents is Snapshot and
--                GetInodes of tiering_out_agent.cc and ProcessEvictions of eviction_agent.cc;
--                Tiering/Paths is GetPath and GetPaths of snapshot_persister.cc; Tiering/Inward is how
--                tiering_in_agent.cc and segment.cc find and open a tiered file, and Tiering/Outward how
--                segment.cc copies files out
--   Examples     the theorems at concrete inputs
--
-- State is passed explicitly: a method takes the object and the store and returns both. A function that
-- can abort (a failed assert or EXPECT, LOG(FATAL), or a read past a buffer) returns an Option, and the
-- theorems say that it returns. The clock is an argument. The memory layout of an inode record, which the
-- code casts to bytes and back, is an argument, with the law that the cast back gives the record.
--
-- A put can be refused. Where a method then returns STATUS_INTERNAL_ERROR, the theorems say so with
-- `Refused`: puts and removes lead from the store that the method is given to the one that it leaves,
-- and a store on that way refused a put. A store that takes all puts on such a way has no `Refused`.
--
-- Bounds: offsets and sizes are below 2^63, so that off_t does not overflow; the theorems on `read`
-- name the bound, and the 64-bit wrap of size_t is written out in `sub64` and `chunk_end`. The loops
-- over chunks run over a count that is computed from the first and the last chunk. The loop of UnEvict
-- is on fuel, one more than the length of the file, since every round but the last reads a byte;
-- Deserialize is on fuel, one more than the length of the buffer. GetPath is on fuel, of which one
-- more than the number of names on the path is enough; parents that form a cycle have no such number,
-- and the loop does not end. Snapshot's rounds are on fuel, one more than the number of xids that are
-- left, since every round tiers out one at least; Refresh of the change log is on fuel, one more than
-- the length of its file. The index of Read's loop over the change log is an int: its theorems name
-- the bound, 2^31, on the entries and on how far the first xid is after the oldest.
--
-- What is outside of the sources is an argument: the hash of names, the formats of protobuf, the size
-- of an entry that fuse_add_direntry makes, the disk, tar and the cloud of Tiering/Inward and
-- Tiering/Outward, the content of a tiered copy and the offsets at which its pread fails (its fstat is
-- taken to succeed), and in Tiering/Agents what the persister does with a snapshot.
--
-- Not modelled: the threads of the agents and their start and stop, the options, the web controller,
-- SnapshotPersister::Snapshot, the file of the index, locking, logging, and the order in which a crash
-- loses puts.
mod Base
pub mod Status
pub mod Key
pub mod Store
pub mod Meta
pub mod File
pub mod Partition
pub mod Tiering
pub mod Directory
pub mod Mount
pub mod Manager
pub mod Examples
