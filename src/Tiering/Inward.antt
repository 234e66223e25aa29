-- ===== src/Tiering/Inward.antt =====
-- TieringInAgent::Open (src/tiering/tiering_in_agent.cc) with Segment::OpenFile and
-- SegmentFactory::OpenSegment (src/tiering/segment.cc): the file of a segment, after the segment is
-- brought in and extracted. The disk, tar and the cloud are arguments.
use kvfs_ra_testing.Base.{
  ℕ, ◌≡◌, subst, Option-cases, Ensures, Ensures-some, Ensures-none, refl, Bool, true, false, Option,
  none, some, List, [], ◌∷◌, ◌++◌, Bytes, length, ltb, if◌then◌else◌, Bool-cases, inl, inr,
}
use kvfs_ra_testing.File.Hold.{TieredInFile}
use kvfs_ra_testing.Tiering.Index.{InodeOffset, Segment, get_segment}
use kvfs_ra_testing.Tiering.Index.Latest.{Found, found_at, found_none, get_segment-Found}

-- The world outside: the content of a file that can be opened, with the offsets at which pread fails; `tar --extract` of a tarball into a
-- directory, with whether it returned 0; `mkdir --parents`, with the same; and the sync from the cloud.
pub record Outside : Type 1 where
  pub World : Type 0
  pub open_file : World → Bytes → Option (Bytes × (ℕ → Bool))
  pub tar_extract : World → Bytes → Bytes → Bool × World
  pub mkdir_path : World → Bytes → Bool × World
  pub sync_in : World → World

module _ (O : Outside) where
  unfoldable pub tiered_file : InodeOffset → Option (Bytes × (ℕ → Bool)) → Option TieredInFile
  tiered_file o none = none
  tiered_file o (some (content, pread_fails)) =
      some (record { inode_num = o.inode; content = content; pread_fails = pread_fails })

  -- OpenFile: a file that is not there yet is extracted with its tarball.
  unfoldable pub open_in_segment :
      Bytes → Bytes → InodeOffset → O.World → Option TieredInFile × O.World
  open_in_segment temp_dir tarball_path o w =
      let extracted_file_path = temp_dir ++ b'/' ∷ o.pathname in
      elim (O.open_file w extracted_file_path) [
        | some content ↦ (tiered_file o (some content), w)
        | none ↦
            let (done, w') = O.tar_extract w tarball_path temp_dir in
            elim done [
              | false ↦ (none, w')
              | true ↦ (tiered_file o (O.open_file w' extracted_file_path), w')
            ]
      ]

  -- MakeWorkingDir, for the text that snprintf makes of the xids: empty if it is too long for the buffer
  -- or cannot be made.
  abbrev pub working_dir_size : ℕ
  working_dir_size = 128

  unfoldable pub make_working_dir : Bytes → O.World → Bytes × O.World
  make_working_dir working_dir w =
      let (done, w') = O.mkdir_path w working_dir in
      if ltb (length working_dir) working_dir_size
      then (if done then working_dir else [], w')
      else ([], w)

  -- Open once the index has been asked, where `dir_name` is the text of the working directory for the
  -- first and the last xid.
  unfoldable pub open_found :
      (ℕ → ℕ → Bytes) → Option (Segment × InodeOffset) → O.World → Option TieredInFile × O.World
  open_found dir_name none w = (none, w)
  open_found dir_name (some (segment, o)) w =
      let (working_dir, w') = make_working_dir (dir_name segment.first_xid segment.last_xid) w in
      open_in_segment working_dir segment.name o (O.sync_in w')

  unfoldable pub open_tiered :
      (ℕ → ℕ → Bytes) → List Segment → ℕ → ℕ → O.World → Option TieredInFile × O.World
  open_tiered dir_name segments inode_num min_xid w =
      open_found dir_name (get_segment inode_num min_xid segments) w

  -- A file is that of the number in the index.
  abbrev HasNumber : ℕ → Option TieredInFile × O.World → Type 0
  HasNumber n r = Ensures (λ (t : TieredInFile). t.inode_num ≡ n) r.0

  tiered_file-number :
      (o : InodeOffset) (content : Option (Bytes × (ℕ → Bool))) (w : O.World)
      → HasNumber o.inode (tiered_file o content, w)
  unfolding tiered_file
  tiered_file-number o none w = Ensures-none _
  tiered_file-number o (some content) w = Ensures-some _ _ refl

  open_in_segment-number :
      (temp_dir tarball_path : Bytes) (o : InodeOffset) (w : O.World)
      → HasNumber o.inode (open_in_segment temp_dir tarball_path o w)
  unfolding open_in_segment
  open_in_segment-number temp_dir tarball_path o w =
      elim (Option-cases (O.open_file w (temp_dir ++ b'/' ∷ o.pathname))) [
        | inr (content, here) ↦ rw (open_in_segment, here) (tiered_file-number o (some content) w)
        | inl absent ↦ elim (Bool-cases (O.tar_extract w tarball_path temp_dir).0) [
          | inl done ↦ rw (open_in_segment, absent, done) (tiered_file-number o _ w)
          | inr failed ↦ rw (open_in_segment, absent, failed) (Ensures-none _)
        ]
      ]

  open_found-number :
      (dir_name : ℕ → ℕ → Bytes) (segments : List Segment) (inode_num min_xid : ℕ)
      (r : Option (Segment × InodeOffset)) (w : O.World)
      → Found inode_num min_xid segments r
      → HasNumber inode_num (open_found dir_name r w)
  unfolding open_found
  open_found-number dir_name segments inode_num min_xid _ w (found_at k segment o lt e has rest) =
      subst (λ (n : ℕ). HasNumber n (open_found dir_name (some (segment, o)) w)) has.own
        (open_in_segment-number _ segment.name o _)
  open_found-number dir_name segments inode_num min_xid _ w (found_none rest) = Ensures-none _

  -- For any index and whatever the disk, tar and the cloud do: a file that Open returns is that of the
  -- inode number that was asked for.
  pub open_tiered-number :
      (dir_name : ℕ → ℕ → Bytes) (segments : List Segment) (inode_num min_xid : ℕ) (w : O.World)
      (t : TieredInFile)
      → (open_tiered dir_name segments inode_num min_xid w).0 ≡ some t
      → t.inode_num ≡ inode_num
  unfolding open_tiered
  open_tiered-number dir_name segments inode_num min_xid w =
      open_found-number dir_name segments inode_num min_xid _ w
        (get_segment-Found inode_num min_xid segments)
