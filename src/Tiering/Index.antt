-- ===== src/Tiering/Index.antt =====
-- IndexManager (src/tiering/index_manager.cc): which segments hold which inodes. The index in memory is
-- a list of segments in the order in which they were added; its file is not modelled.
pub mod Latest
use kvfs_ra_testing.Base.{
  ℕ, zero, suc, Option, none, some, List, [], ◌∷◌, ◌++◌, Bytes, length, get_elem?, ltb, ◌==◌,
  if◌then◌else◌,
}

pub record InodeOffset : Type 0 where
  pub inode : ℕ
  pub pathname : Bytes
  pub offset : ℕ

pub record Segment : Type 0 where
  pub name : Bytes
  pub first_xid : ℕ
  pub last_xid : ℕ
  pub inode_offset : List InodeOffset

-- The loop over the inodes of a segment: the first with the number.
unfoldable pub find_inode : ℕ → List InodeOffset → Option InodeOffset
find_inode inode_num [] = none
find_inode inode_num (o ∷ rest) =
    let later = find_inode inode_num rest in if o.inode == inode_num then some o else later

unfoldable pub in_segment : ℕ → ℕ → Segment → Option InodeOffset
in_segment inode_num before_xid segment =
    if ltb before_xid segment.last_xid then none else find_inode inode_num segment.inode_offset

-- The loop over the segments, from the last: `seg` of them are left.
unfoldable pub scan : ℕ → ℕ → List Segment → ℕ → Option (Segment × InodeOffset)
scan inode_num before_xid segments zero = none
scan inode_num before_xid segments (suc seg) = elim (get_elem? segments seg) [
  | none ↦ none
  | some segment ↦ elim (in_segment inode_num before_xid segment) [
    | some o ↦ some (segment, o)
    | none ↦ scan inode_num before_xid segments seg
  ]
]

-- GetSegment: `none` for a null pointer.
unfoldable pub get_segment : ℕ → ℕ → List Segment → Option (Segment × InodeOffset)
get_segment inode_num before_xid segments = scan inode_num before_xid segments (length segments)

-- The inodes of a segment with a placeholder for the offset.
unfoldable pub add_inodes : List (ℕ × Bytes) → List InodeOffset
add_inodes [] = []
add_inodes ((inode, path) ∷ rest) =
    record { inode = inode; pathname = path; offset = 0 } ∷ add_inodes rest

-- Update: the segment that was written is added at the end. Its inode paths are the entries of a map.
unfoldable pub update : Bytes → ℕ → ℕ → List (ℕ × Bytes) → List Segment → List Segment
update name first_xid last_xid inode_paths segments =
    segments
    ++ record {
      name = name;
      first_xid = first_xid;
      last_xid = last_xid;
      inode_offset = add_inodes inode_paths;
    }
      ∷ []
