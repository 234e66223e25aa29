-- ===== src/Examples/Closed.antt =====
-- The theorems about the last close of a file, and about the file system's operations on an inode that
-- is stored or absent.
use kvfs_ra_testing.Base.{
  ℕ, ◌+◌, ◌-◌, ◌<◌, ◌≡◌, ◌⊎◌, refl, some, none, [], ◌∷◌, Bytes, length, min, at, arith,
}
use kvfs_ra_testing.Status.{ok, internal_error}
use kvfs_ra_testing.Key.{inode_key}
use kvfs_ra_testing.Store.{KvStore, Refused}
use kvfs_ra_testing.Store.Table.{table_store, table_store-removes}
use kvfs_ra_testing.Meta.{MetaData, new_meta}
use kvfs_ra_testing.File.{LogFsFile, new_file}
use kvfs_ra_testing.File.Content.{byte_at}
use kvfs_ra_testing.File.Valid.{FileIsValid}
use kvfs_ra_testing.File.Resize.{Stat, set_size}
use kvfs_ra_testing.File.Resize.Truncate.{InodeIsStored}
use kvfs_ra_testing.Directory.{close}
use kvfs_ra_testing.Directory.Closing.{close-Erased}
use kvfs_ra_testing.Tiering.Paths.{get_path, chain_root, chain_child, joined, get_path-Chain}
use kvfs_ra_testing.Manager.{FileSystemManager, file_of, read_file}
use kvfs_ra_testing.Manager.Stored.{OwnInode, read_file-stored}
use kvfs_ra_testing.Mount.{Machine}
use kvfs_ra_testing.Examples.Layout.{layout}
use kvfs_ra_testing.Examples.Directories.{some_hash}
use kvfs_ra_testing.Examples.Files.{
  small_file, with_inode, with_chunk, with_inode-stored, small_file-FileIsValid, no_agent, fit_with,
  blank_with, stored_with,
}

abbrev K : KvStore
K = table_store

abbrev pub blank_stat : Stat
blank_stat = record {
  st_dev = 0;
  st_ino = 0;
  st_mode = 0;
  st_nlink = 0;
  st_uid = 0;
  st_gid = 0;
  st_rdev = 0;
  st_size = 0;
  st_blksize = 0;
  st_blocks = 0;
  st_atime = 0;
  st_mtime = 0;
  st_ctime = 0;
}

abbrev pub machine : Machine
machine = record {
  now = 100;
  user_id = 1;
  group_id = 1;
  uninitialized = blank_stat;
  agent = no_agent;
}

-- The file of three bytes after its last name is gone.
nameless_file : LogFsFile
unfolding small_file new_meta
nameless_file = record small_file { meta = record small_file.meta { n_link = 0 } }

abbrev with_nameless : K.State
with_nameless = (K.put with_chunk (inode_key 5) (layout.bytes nameless_file.meta)).1

nameless_file-FileIsValid : FileIsValid K nameless_file with_nameless
unfolding small_file nameless_file new_meta
nameless_file-FileIsValid =
    let v = small_file-FileIsValid in
    record {
      chunk_pos = v.chunk_pos;
      chunk_u32 = v.chunk_u32;
      no_initial = v.no_initial;
      own = v.own;
      fit = fit_with (layout.bytes nameless_file.meta);
      blank = blank_with (layout.bytes nameless_file.meta);
    }

nameless_file-stored : InodeIsStored K layout nameless_file with_nameless
unfolding new_meta small_file nameless_file
nameless_file-stored = record {
  stored = stored_with (layout.bytes nameless_file.meta);
  same_fs = refl;
}

close-Erased_example :
    (f' : LogFsFile) × (s' : K.State) × (close K layout nameless_file with_nameless 100
      ≡ some (f', s'))
    × (K.get s' (inode_key 5) ≡ none)
    × (((i : ℕ) → byte_at K 5 4 s' i ≡ 0)
        ⊎ ((s'' : K.State) × (set_size K layout nameless_file with_nameless 0 100
              ≡ some (internal_error, f', s''))
            × Refused K with_nameless s''))
unfolding small_file nameless_file new_meta
close-Erased_example =
    close-Erased K layout table_store-removes nameless_file with_nameless 100
      nameless_file-FileIsValid nameless_file-stored refl

abbrev some_fs : K.State → FileSystemManager K.State
some_fs s = record { change_log = none; handle_id = 1000; store = s }

abbrev small_meta : MetaData
small_meta = small_file.meta

small_meta-OwnInode : OwnInode K layout some_hash machine 1 5 small_meta with_inode
unfolding small_file
small_meta-OwnInode =
    let st = with_inode-stored in record { stored = st.stored; fs = refl; own = refl }

small_meta-FileIsValid : FileIsValid K (record (file_of 1 5 0) { meta = small_meta }) with_inode
unfolding small_file file_of new_file
small_meta-FileIsValid =
    let v = small_file-FileIsValid in
    record {
      chunk_pos = v.chunk_pos;
      chunk_u32 = v.chunk_u32;
      no_initial = v.no_initial;
      own = v.own;
      fit = v.fit;
      blank = v.blank;
    }

-- Ten bytes from offset 1 on, of which the file has two.
read_file-stored_example :
    (out : Bytes) × (read_file K layout some_hash machine 1 5 1 10 (some_fs with_inode)
      ≡ some (ok, min 10 (3 - 1), out, some_fs with_inode))
    × (length out ≡ min 10 (3 - 1))
    × ((j : ℕ) → j < min 10 (3 - 1) → at out j ≡ byte_at K 5 4 with_inode (1 + j))
unfolding small_file new_meta
read_file-stored_example =
    read_file-stored K layout some_hash machine 1 5 1 10 small_meta (some_fs with_inode)
      small_meta-OwnInode small_meta-FileIsValid refl (omega arith) (omega arith)

-- An inode of file system 0 with the name `a` in the root.
abbrev child_meta : MetaData
child_meta = record (new_meta 0 4) { fs_id = 0; handle = 5; name = b'a' ∷ []; parent_handle = 1 }

abbrev with_child : K.State
with_child = (K.put with_chunk (inode_key 5) (layout.bytes child_meta)).1

child_meta-OwnInode : OwnInode K layout some_hash machine 0 5 child_meta with_child
unfolding new_meta
child_meta-OwnInode = record {
  stored = stored_with (layout.bytes child_meta);
  fs = refl;
  own = refl;
}

get_path-Chain_example :
    get_path K layout some_hash machine (some_fs with_child) 2 5 ≡ some (ok, b'a' ∷ [])
unfolding joined new_meta
get_path-Chain_example =
    get_path-Chain K layout some_hash machine (some_fs with_child) 2 5 ((b'a' ∷ []) ∷ [])
      (chain_child 5 child_meta [] (omega arith) child_meta-OwnInode chain_root) (omega arith)
