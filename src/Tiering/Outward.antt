-- ===== src/Tiering/Outward.antt =====
-- Segment (src/tiering/segment.cc): Add, CopyFile, CopyDir and Commit, which copy the objects of a
-- snapshot to a directory on disk and make a tarball of it. The disk and tar are arguments, and so are
-- the bytes that malloc finds in a buffer. A segment's path and directories are given; `none` is an
-- abort.
pub mod Copied
use kvfs_ra_testing.Base.{
  ℕ, Bool, true, false, Option, none, some, List, [], ◌∷◌, ◌++◌, Bytes, length, drop, take, ltb,
  ◌==◌, if◌then◌else◌,
}
use kvfs_ra_testing.Status.{Status, is_ok, status_to_errno}
use kvfs_ra_testing.Store.{KvStore}
use kvfs_ra_testing.File.{MetaLayout}
use kvfs_ra_testing.File.Resize.{Stat}
use kvfs_ra_testing.Mount.{Machine}
use kvfs_ra_testing.Mount.Names.{s_isdir}
use kvfs_ra_testing.Manager.{FileSystemManager, read_file, stat_file}
use kvfs_ra_testing.Tiering.Agents.{s_isreg}
use kvfs_ra_testing.Tiering.Paths.{path_set}

-- The disk: `mkdir --parents`, which returns 0 or an errno; open for writing, with a mode, the same;
-- write to a path that was opened, 0 or an errno (a write that is cut short, which the code does not look
-- for, is 0 as well, and what is then in the file is the disk's to say); `tar --create` of a directory into a tarball, with what it
-- returns.
pub record Disk : Type 1 where
  pub World : Type 0
  pub mkdir_path : World → Bytes → ℕ × World
  pub create_file : World → Bytes → ℕ → ℕ × World
  pub write_file : World → Bytes → Bytes → ℕ × World
  pub tar_create : World → Bytes → Bytes → ℕ × World

abbrev pub einval : ℕ
einval = 22

-- Segment, of which the manager of the snapshot and the disk are arguments.
pub record OutSegment : Type 0 where
  pub temp_dir : Bytes
  pub tarball_path : Bytes
  pub fs_id : ℕ
  pub committed : Bool
  pub inode_paths : List (ℕ × Bytes)

-- What comes before the last slash of a path; all of it if there is none.
unfoldable pub before_slash : Bytes → Option Bytes
before_slash [] = none
before_slash (c ∷ cs) =
    let rest = before_slash cs in
    elim rest [ some before ↦ some (c ∷ before) | none ↦ if c == b'/' then some [] else none ]

unfoldable pub dir_path : Bytes → Bytes
dir_path path = elim (before_slash path) [ none ↦ path | some before ↦ before ]

module _ (K : KvStore) (layout : MetaLayout) (hash : Bytes → ℕ) (machine : Machine) (D : Disk)
    (malloc : ℕ → Bytes) where
  -- The buffer after readFile, of as many bytes as are written from it, whatever readFile returned.
  unfoldable pub read_buf : ℕ → Bytes → Bytes
  read_buf size out = take size (out ++ drop (length out) (malloc size))

  -- CopyFile after readFile.
  unfoldable pub write_copy : Bytes → ℕ → Bytes → D.World → ℕ × D.World
  write_copy full_path mode buf w =
      let (made, w1) = D.mkdir_path w (dir_path full_path) in
      elim (made == 0) [
        | false ↦ (made, w1)
        | true ↦
            let (opened, w2) = D.create_file w1 full_path mode in
            elim (opened == 0) [ false ↦ (opened, w2) | true ↦ D.write_file w2 full_path buf ]
      ]

  -- CopyFile, from offset 0: the errno. `none` also for a file of less than eight bytes: the message
  -- about readFile shows the first eight of the buffer, which is as long as the file, so that they are
  -- read past its end.
  unfoldable pub copy_file :
      OutSegment
      → ℕ
      → Bytes
      → Stat
      → FileSystemManager K.State
      → D.World
      → Option (ℕ × FileSystemManager K.State × D.World)
  copy_file segment handle path st fs w = elim (ltb st.st_size 8) [
    | true ↦ none
    | false ↦ elim (read_file K layout hash machine segment.fs_id handle 0 st.st_size fs) [
      | none ↦ none
      | some (_, _, out, fs') ↦
          let (err, w') =
            write_copy (segment.temp_dir ++ b'/' ∷ path) st.st_mode (read_buf st.st_size out) w in
          some (err, fs', w')
    ]
  ]

  unfoldable pub copy_dir : OutSegment → Bytes → D.World → ℕ × D.World
  copy_dir segment path w = D.mkdir_path w (segment.temp_dir ++ b'/' ∷ path)

  -- The object of Add by its attributes.
  unfoldable pub copy_object :
      OutSegment
      → ℕ
      → Bytes
      → Stat
      → FileSystemManager K.State
      → D.World
      → Option (ℕ × FileSystemManager K.State × D.World)
  copy_object segment inode_num path st fs w = elim (s_isreg st.st_mode) [
    | true ↦ copy_file segment inode_num path st fs w
    | false ↦
        let (err, w') = copy_dir segment path w in
        some (if s_isdir st.st_mode then (err, fs, w') else (einval, fs, w))
  ]

  unfoldable pub add_path : ℕ → ℕ → Bytes → OutSegment → OutSegment
  add_path err inode_num path segment =
      if err == 0
      then record segment { inode_paths = path_set inode_num path segment.inode_paths }
      else segment

  -- Add of a whole file: the errno, and the segment.
  unfoldable pub add :
      OutSegment
      → ℕ
      → Bytes
      → FileSystemManager K.State
      → D.World
      → Option (ℕ × OutSegment × FileSystemManager K.State × D.World)
  add segment inode_num path fs w =
      let (status, st) = stat_file K layout hash machine segment.fs_id inode_num fs in
      elim (is_ok status) [
        | false ↦ some (status_to_errno status, segment, fs, w)
        | true ↦ elim (copy_object segment inode_num path st fs w) [
          | none ↦ none
          | some (err, fs', w') ↦ some (err, add_path err inode_num path segment, fs', w')
        ]
      ]

  -- Commit: what tar returns.
  unfoldable pub commit : OutSegment → D.World → ℕ × OutSegment × D.World
  commit segment w =
      let (ret, w') = D.tar_create w segment.tarball_path segment.temp_dir in
      (ret, if ret == 0 then record segment { committed = true } else segment, w')
