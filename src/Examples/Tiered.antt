-- ===== src/Examples/Tiered.antt =====
-- The theorems about the change log and the index of segments.
use kvfs_ra_testing.Base.{
  ℕ, zero, suc, ◌+◌, ◌-◌, ◌<◌, ◌≡◌, refl, Option, none, some, List, [], ◌∷◌, length, get_or, arith,
}
use kvfs_ra_testing.Tiering.ChangeLog.{ChangeLogEntry, FsChangeLog, append}
use kvfs_ra_testing.Tiering.ChangeLog.Range.{IsConsecutive, append-IsConsecutive}
use kvfs_ra_testing.Tiering.Index.{Segment, get_segment}
use kvfs_ra_testing.Tiering.Index.Latest.{Found, get_segment-Found}

abbrev entry : Option ℕ → ℕ → ChangeLogEntry ℕ
entry xid change = record { xid = xid; change = change }

-- Two changes, with the xids 7 and 8.
abbrev two_changes : FsChangeLog ℕ
two_changes = record {
  log_deque = entry (some 7) 100 ∷ entry (some 8) 200 ∷ [];
  next_xid = 9;
  eviction_next_xid = 1;
  tiered_out_xid = 1;
}

two_changes-xids :
    (i : ℕ) → i < 2 → (get_or two_changes.log_deque i (entry none 0)).xid ≡ some (9 - 2 + i)
two_changes-xids zero h = refl
two_changes-xids (suc zero) h = refl
two_changes-xids (suc (suc i)) h = absurd (omega arith)

two_changes-IsConsecutive : IsConsecutive (entry none 0) two_changes
two_changes-IsConsecutive = record { enough = omega arith; xids = two_changes-xids }

append-IsConsecutive_example :
    ((append two_changes (entry none 300)).0 ≡ 9)
    × IsConsecutive (entry none 0) (append two_changes (entry none 300)).1
    × (length (append two_changes (entry none 300)).1.log_deque ≡ 2 + 1)
append-IsConsecutive_example =
    append-IsConsecutive (entry none 0) two_changes (entry none 300) two_changes-IsConsecutive refl

abbrev segment_with : ℕ → ℕ → Segment
segment_with last_xid inode = record {
  name = [];
  first_xid = 1;
  last_xid = last_xid;
  inode_offset = (record { inode = inode; pathname = []; offset = 0 }) ∷ [];
}

abbrev three_segments : List Segment
three_segments = segment_with 10 5 ∷ segment_with 20 5 ∷ segment_with 30 5 ∷ []

get_segment-Found_example : Found 5 25 three_segments (get_segment 5 25 three_segments)
get_segment-Found_example = get_segment-Found 5 25 three_segments
