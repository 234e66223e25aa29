-- ===== src/Examples/Outward.antt =====
-- The theorem about the segments that are written, at a regular file of eight bytes and a disk that
-- keeps what is written to it.
use kvfs_ra_testing.Base.{
  ℕ, ◌<◌, ◌≡◌, ◌≢◌, refl, false, none, some, List, [], ◌∷◌, ◌++◌, Bytes, length, at, arith,
}
use kvfs_ra_testing.Key.{inode_key}
use kvfs_ra_testing.Store.{KvStore}
use kvfs_ra_testing.Store.Table.{table_store}
use kvfs_ra_testing.Meta.{
  MetaData, ifreg, new_meta, mode_from_meta, type_bit, prot_bit, rights_bits, or_mask,
}
use kvfs_ra_testing.File.{new_file}
use kvfs_ra_testing.File.Content.{byte_at}
use kvfs_ra_testing.File.Valid.{FileIsValid}
use kvfs_ra_testing.File.Resize.{stat_of}
use kvfs_ra_testing.Manager.{FileSystemManager, file_of}
use kvfs_ra_testing.Manager.Stored.{OwnInode}
use kvfs_ra_testing.Tiering.Agents.{s_isreg}
use kvfs_ra_testing.Tiering.Outward.{Disk, OutSegment, add}
use kvfs_ra_testing.Tiering.Paths.{path_set}
use kvfs_ra_testing.Tiering.Outward.Copied.{add-Copied}
use kvfs_ra_testing.Examples.Layout.{layout}
use kvfs_ra_testing.Examples.Closed.{machine}
use kvfs_ra_testing.Examples.Directories.{some_hash}
use kvfs_ra_testing.Examples.Files.{with_chunk, fit_with, blank_with, stored_with}

abbrev K : KvStore
K = table_store

abbrev some_disk : Disk
some_disk = record {
  World = List (Bytes × Bytes);
  mkdir_path = λ w path. (0, w);
  create_file = λ w path mode. (0, w);
  write_file = λ w path content. (0, (path, content) ∷ w);
  tar_create = λ w tarball dir. (0, w);
}

abbrev no_bytes : ℕ → Bytes
no_bytes size = []

abbrev segment : OutSegment
segment = record {
  temp_dir = b't' ∷ [];
  tarball_path = b'z' ∷ [];
  fs_id = 1;
  committed = false;
  inode_paths = [];
}

abbrev regular_meta : MetaData
regular_meta = record (new_meta 0 4) {
  fs_id = 1;
  handle = 5;
  type = ifreg;
  file_total_size = 8;
  n_link = 1;
}

abbrev snapshot_fs : FileSystemManager K.State
snapshot_fs = record {
  change_log = none;
  handle_id = 1000;
  store = (K.put with_chunk (inode_key 5) (layout.bytes regular_meta)).1;
}

regular_meta-OwnInode : OwnInode K layout some_hash machine 1 5 regular_meta snapshot_fs.store
unfolding new_meta
regular_meta-OwnInode = record {
  stored = stored_with (layout.bytes regular_meta);
  fs = refl;
  own = refl;
}

regular_meta-FileIsValid :
    FileIsValid K (record (file_of 1 5 0) { meta = regular_meta }) snapshot_fs.store
unfolding file_of new_file new_meta
regular_meta-FileIsValid = record {
  chunk_pos = omega arith;
  chunk_u32 = omega arith;
  no_initial = refl;
  own = refl;
  fit = fit_with (layout.bytes regular_meta);
  blank = λ i past. blank_with (layout.bytes regular_meta) i (omega (arith, past));
}

add-Copied_example :
    (content : Bytes) × (length content ≡ 8)
    × ((j : ℕ) → j < 8 → at content j ≡ byte_at K 5 4 snapshot_fs.store j)
    × (segment' : OutSegment) × (let (err, w') =
          some_disk.write_file [] (segment.temp_dir ++ b'/' ∷ b'a' ∷ []) content in
        (add K layout some_hash machine some_disk no_bytes segment 5 (b'a' ∷ []) snapshot_fs []
          ≡ some (err, segment', snapshot_fs, w'))
        × (err ≡ 0
            → segment'
              ≡ record segment { inode_paths = path_set 5 (b'a' ∷ []) segment.inode_paths })
        × (err ≢ 0 → segment' ≡ segment))
unfolding new_meta stat_of s_isreg mode_from_meta type_bit prot_bit rights_bits or_mask
add-Copied_example =
    add-Copied K layout some_hash machine some_disk no_bytes segment 5 (b'a' ∷ []) regular_meta
      snapshot_fs [] [] [] regular_meta-OwnInode regular_meta-FileIsValid refl (omega arith)
      (omega arith) refl refl refl
