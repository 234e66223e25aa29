-- ===== src/Examples/Mounted.antt =====
-- The theorems about a mounted file system, at an empty store and at one with an inode.
use kvfs_ra_testing.Base.{
  ℕ, ◌+◌, ◌%◌, ◌^◌, ◌≡◌, ◌≢◌, ◌⊎◌, refl, true, false, Bool, Option, none, some, List, [], ◌∷◌, ◌++◌,
  Bytes, drop, take, bytes_eq, length, ap, subst, arith,
}
use kvfs_ra_testing.Status.{enoent}
use kvfs_ra_testing.Key.{inode_key}
use kvfs_ra_testing.Store.{KvStore}
use kvfs_ra_testing.Store.Table.{table_store, empty_store, put-empty_store, table_store-removes}
use kvfs_ra_testing.Meta.{MetaData, new_meta}
use kvfs_ra_testing.Partition.{LogFsDirectoryPartition, clean}
use kvfs_ra_testing.Directory.{Directory, find_handle, new_directory}
use kvfs_ra_testing.Tiering.ChangeLog.{new_log}
use kvfs_ra_testing.Tiering.ChangeLog.Ordered.{IsOrdered, new_log-IsOrdered}
use kvfs_ra_testing.Mount.{
  FuseKvfsInode, Change, KvfsMount, Reply, reply_err, new_inode, InodeState,
}
use kvfs_ra_testing.Partition
use kvfs_ra_testing.Partition.{find_entry, refreshed, new_partition, read_from_log}
use kvfs_ra_testing.Partition.Names.{name_find}
use kvfs_ra_testing.Mount.{
  inode_at, map_find, put_inode, map_set, log_change, set_xid, set_file, set_state, change_of,
}
use kvfs_ra_testing.Mount.Ops.{fk_setattr, then_release}
use kvfs_ra_testing.Mount.Data.{setattr, finish_setattr, set_other_attr, chosen_attr}
use kvfs_ra_testing.Mount.Cache.{
  release, refresh_at, refresh, refresh_from, next_xid, hold_inode, hold_by,
}
use kvfs_ra_testing.Tiering.ChangeLog.{append, append_as, push_entry, take_xid}
use kvfs_ra_testing.Directory.{set_attr, get_partition, partition_of, set_partition}
use kvfs_ra_testing.Mount.Listing.Live.{linked}
use kvfs_ra_testing.File.{new_file}
use kvfs_ra_testing.Key.{partition_key}
use kvfs_ra_testing.Key.Decimal.{decimal}
use kvfs_ra_testing.Store.Table.{table_get, table_put, put_if, newest}
use kvfs_ra_testing.Mount.Names.{lookup, find_child}
use kvfs_ra_testing.Mount.Ops.{Request, serve, serves_nothing, serves_next, fk_lookup}
use kvfs_ra_testing.Mount.Ordered.{Ordered}
use kvfs_ra_testing.Mount.Ordered.Ops.{Serves-Ordered}
use kvfs_ra_testing.Mount.Answers.{LookedUp, lookup-LookedUp}
use kvfs_ra_testing.Mount.Cold.{fk_lookup-cold}
use kvfs_ra_testing.Mount.Super.{
  Superblock, TextFormat, first_super, write_superblock, read_superblock, reserve,
  read-write_superblock,
}
use kvfs_ra_testing.Mount.Listing.{DirEntry, list_fresh}
use kvfs_ra_testing.Mount.Listing.Live.{feed, live_entries, list_fresh-resumes}
use kvfs_ra_testing.Partition.Stored.{take-append, drop-append}
use kvfs_ra_testing.Examples.Layout.{layout}
use kvfs_ra_testing.Examples.Closed.{machine, blank_stat}
use kvfs_ra_testing.Examples.Directories.{some_hash, some_dir, loaded, first_name, second_name}
use kvfs_ra_testing.Examples.Files.{small_file, with_inode}

abbrev K : KvStore
K = table_store

-- A mount with the file of three bytes in memory, held once.
abbrev file_object : FuseKvfsInode
file_object = record {
  attr = record blank_stat { st_ino = 5; st_size = 3 };
  dir = new_directory small_file;
  nlookup = 1;
  state = InodeState.clean;
}

abbrev with_file : KvfsMount K.State
with_file = record {
  fs_id = 1;
  inode_map = (5, file_object) ∷ [];
  change_log = new_log 1;
  handle_id = 1000;
  store = with_inode;
}

-- Setting the mode of the file.
abbrev change_mode : Request
change_mode =
    Request.setattr 5 (record blank_stat { st_mode = 0o100600 })
      (record {
        size = false;
        mode = true;
        uid = false;
        gid = false;
        atime = false;
        mtime = false;
        atime_now = false;
        mtime_now = false;
        others = true;
      })

-- What a call leaves of the mount, or the mount itself if it aborts.
after_call : Request → KvfsMount K.State → KvfsMount K.State
after_call request m = elim (serve K layout some_hash machine request m) [
  | none ↦ m
  | some (reply, m') ↦ m'
]

Serves-Ordered_example : Ordered (after_call change_mode with_file)
unfolding after_call Ordered IsOrdered serve fk_setattr then_release setattr release inode_at
    map_find finish_setattr refresh_at refresh refresh_from next_xid hold_inode put_inode map_set
    hold_by log_change append append_as push_entry take_xid new_log set_other_attr chosen_attr
    set_xid set_file set_state set_attr new_directory small_file change_of
Serves-Ordered_example =
    Serves-Ordered K layout some_hash machine with_file (after_call change_mode with_file)
      (new_log-IsOrdered Change 1)
      (serves_next with_file with_file _ change_mode _ (serves_nothing with_file) refl)

-- Directory 7 in memory, held once.
abbrev dir_object : FuseKvfsInode
dir_object = record {
  attr = record blank_stat { st_ino = 7; st_mode = 0o040755 };
  dir = some_dir;
  nlookup = 1;
  state = InodeState.clean;
}

abbrev with_dir : KvfsMount K.State
with_dir = record with_file { inode_map = (7, dir_object) ∷ [] }

found_first :
    (m1 : KvfsMount K.State) × (find_child K layout some_hash machine 7 first_name with_dir
      ≡ some (12, m1))
unfolding find_child find_handle find_entry refreshed Partition.refresh Partition.refresh_from
    get_partition partition_of inode_at map_find some_dir name_find bytes_eq set_partition
found_first = (_, refl)

abbrev first_ino : ℕ
first_ino = 12

lookup-LookedUp_example :
    (reply : Reply) × (m' : KvfsMount K.State) × (lookup K layout some_hash machine 7 first_name
        with_dir
      ≡ some (reply, m'))
    × (((first_ino ≡ 0) × (reply ≡ reply_err enoent) × (m' ≡ found_first.0))
        ⊎ ((first_ino ≢ 0) × LookedUp K layout some_hash machine 12 found_first.0 reply m'))
lookup-LookedUp_example =
    lookup-LookedUp K layout some_hash machine 7 first_name with_dir 12 found_first.0 found_first.1

-- Directory 7 in the store only, without entries.
abbrev root_meta : MetaData
root_meta = record (new_meta 0 4) { fs_id = 1; handle = 7; n_link = 2 }

abbrev with_root : K.State
with_root = (K.put (empty_store 100) (inode_key 7) (layout.bytes root_meta)).1

abbrev cold_mount : KvfsMount K.State
cold_mount = record with_file { inode_map = []; store = with_root }

missing_first :
    (d : Directory) × (find_handle K layout some_hash
        (new_inode machine 1 7).dir
        with_root
        first_name
      ≡ some (0, d))
unfolding find_handle find_entry refreshed Partition.refresh Partition.refresh_from get_partition
    partition_of new_inode new_directory new_partition read_from_log table_store empty_store
    table_get table_put put_if newest bytes_eq inode_key partition_key decimal name_find
    set_partition new_file
missing_first = (_, refl)

fk_lookup-cold_example :
    (m' : KvfsMount K.State) × (fk_lookup K layout some_hash machine 7 first_name cold_mount
      ≡ some (reply_err enoent, m'))
    × (K.get m'.store (inode_key 7) ≡ none)
unfolding map_find
fk_lookup-cold_example =
    fk_lookup-cold K layout some_hash machine table_store-removes 7 first_name cold_mount root_meta
      missing_first.0 refl missing_first.1
      (K.get-put_self (empty_store 100) (inode_key 7) (layout.bytes root_meta)
        (put-empty_store 99 _ _))
      refl refl

-- An adder that keeps all it is given.
abbrev keep : List DirEntry → DirEntry → Option (Bool × List DirEntry)
keep a e = some (true, e ∷ a)

abbrev first_entry : DirEntry
first_entry = record { name = first_name; ino = 12; next_offset = 2 }

abbrev second_entry : DirEntry
second_entry = record { name = second_name; ino = 300; next_offset = 1 }

list_fresh-resumes_example :
    (list_fresh (List DirEntry) keep loaded 0 0 []
      ≡ feed (List DirEntry) keep (second_entry ∷ first_entry ∷ []) [])
    × (list_fresh (List DirEntry) keep loaded 1 0 []
        ≡ feed (List DirEntry) keep (first_entry ∷ []) [])
unfolding live_entries linked name_find bytes_eq
list_fresh-resumes_example =
    list_fresh-resumes (List DirEntry) keep loaded 0 0 [] second_entry (first_entry ∷ []) []
      (omega arith) refl

-- A text of a superblock: its numbers, the length of its name, and its two texts.
print_super : Superblock → Bytes
print_super super =
    super.magic
      ∷ super.next_inode
      ∷ super.next_xid
      ∷ super.fs_id
      ∷ super.dev
      ∷ super.chunk_size
      ∷ length super.filesystem_name
      ∷ super.filesystem_name
    ++ super.cloud_uri

merge_super : Bytes → Option Superblock
merge_super (magic ∷ next_inode ∷ next_xid ∷ fs_id ∷ dev ∷ chunk_size ∷ n ∷ texts) = some (record {
  magic = magic;
  filesystem_name = take n texts;
  cloud_uri = drop n texts;
  next_inode = next_inode;
  next_xid = next_xid;
  fs_id = fs_id;
  dev = dev;
  chunk_size = chunk_size;
})
merge_super _ = none

merge_super-print_super : (super : Superblock) → merge_super (print_super super) ≡ some super
unfolding merge_super print_super
merge_super-print_super super =
    rw
      (
        take-append super.filesystem_name super.cloud_uri,
        drop-append super.filesystem_name super.cloud_uri,
      )
      refl

text_of : Option Bytes → Bytes
text_of none = []
text_of (some text) = text

some_format : TextFormat
unfolding text_of print_super
some_format = record {
  print = λ super. some (print_super super);
  merge = λ text old. merge_super text;
  merge-print = λ super old text e.
      subst (λ (t : Bytes). merge_super t ≡ some super) (ap (λ (o : Option Bytes). text_of o) e)
        (merge_super-print_super super);
}

abbrev some_super : Superblock
some_super = first_super 1 (b'u' ∷ [])

read-write_superblock_example :
    read_superblock K some_format 1 [] 2 some_super
      (write_superblock K some_format 1 1002 some_super (empty_store 100)).2
    ≡ (
      0,
      reserve K some_format 1 1002 some_super,
      (1002 + 1000) % 2 ^ 64,
      (write_superblock K some_format 1 1002 some_super (empty_store 100)).2,
    )
unfolding write_superblock some_format table_store empty_store
read-write_superblock_example =
    read-write_superblock K some_format 1 [] 1002 2 some_super some_super (empty_store 100) refl
