-- ===== src/Examples/Agents.antt =====
-- The theorems about the agents of tiering, at the log with two changes.
use kvfs_ra_testing.Base.{
  ℕ, zero, suc, ◌+◌, ◌-◌, ◌<◌, ◌≡◌, refl, true, false, Option, none, some, List, [], ◌∷◌, ◌++◌,
  Bytes, get_or, min, arith,
}
use kvfs_ra_testing.File.Hold.{TieredInFile}
use kvfs_ra_testing.Mount.{Change, Operation, change_of}
use kvfs_ra_testing.Tiering.ChangeLog.{ChangeLogEntry, FsChangeLog, new_log}
use kvfs_ra_testing.Tiering.ChangeLog.Range.{IsConsecutive}
use kvfs_ra_testing.Tiering.ChangeLog.Saved.{
  EntryFormat, Fits, fits_nil, fits_cons, flush, refresh, refresh-flush,
}
use kvfs_ra_testing.Tiering.Agents.{
  Persisted, snapshot, get_inodes, get_last_xid, max_xid_per_segment,
}
use kvfs_ra_testing.Tiering.ChangeLog
use kvfs_ra_testing.Tiering.Agents.Progress.{SnapshotDone, snapshot-SnapshotDone, snapshot-idle}
use kvfs_ra_testing.Tiering.Agents.Inodes.{Ascends, has, mentions, get_inodes-mentions}
use kvfs_ra_testing.Tiering.Index.{Segment, get_segment, scan, in_segment, find_inode}
use kvfs_ra_testing.Tiering.Inward.{
  Outside, open_found, open_in_segment, tiered_file, open_tiered, open_tiered-number,
}

abbrev entry : Option ℕ → ℕ → ChangeLogEntry Change
entry xid ino = record { xid = xid; change = change_of Operation.commit 1 ino }

-- Two changes, with the xids 7 and 8, after the last xid that was tiered out.
abbrev two_changes : FsChangeLog Change
two_changes = record {
  log_deque = entry (some 7) 5 ∷ entry (some 8) 3 ∷ [];
  next_xid = 9;
  eviction_next_xid = 1;
  tiered_out_xid = 6;
}

two_changes-xids :
    (i : ℕ) → i < 2 → (get_or two_changes.log_deque i (entry none 0)).xid ≡ some (9 - 2 + i)
two_changes-xids zero h = refl
two_changes-xids (suc zero) h = refl
two_changes-xids (suc (suc i)) h = absurd (omega arith)

two_changes-IsConsecutive : IsConsecutive (entry none 0) two_changes
two_changes-IsConsecutive = record { enough = omega arith; xids = two_changes-xids }

abbrev persist : Persisted → List Persisted → List Persisted
persist p ps = p ∷ ps

snapshot-SnapshotDone_example :
    SnapshotDone
      (entry none 0)
      (List Persisted)
      persist
      8
      two_changes
      []
      (snapshot (List Persisted) persist two_changes [])
snapshot-SnapshotDone_example =
    snapshot-SnapshotDone (entry none 0) (List Persisted) persist two_changes []
      two_changes-IsConsecutive (omega arith) (omega arith) (omega arith) (omega arith)

-- The log once all is tiered out.
abbrev idle_log : FsChangeLog Change
idle_log = record two_changes { tiered_out_xid = 8 }

idle_log-IsConsecutive : IsConsecutive (entry none 0) idle_log
idle_log-IsConsecutive = record { enough = omega arith; xids = two_changes-xids }

snapshot-idle_example :
    ((ChangeLog.read idle_log 9 (min (9 + max_xid_per_segment) (get_last_xid idle_log))).1 ≡ [])
    × (snapshot (List Persisted) persist idle_log [] ≡ none)
snapshot-idle_example =
    snapshot-idle (entry none 0) (List Persisted) persist idle_log [] idle_log-IsConsecutive
      (omega arith) refl (omega arith)

get_inodes-mentions_example :
    Ascends 0 (get_inodes two_changes.log_deque)
    × ((n : ℕ) → has n (get_inodes two_changes.log_deque) ≡ mentions n two_changes.log_deque)
get_inodes-mentions_example = get_inodes-mentions two_changes.log_deque

-- Entries of one number each, as two bytes.
encode : Option ℕ → ℕ → Bytes
encode none change = 0 ∷ change ∷ []
encode (some xid) change = suc xid ∷ change ∷ []

bytes_number : Bytes → ChangeLogEntry ℕ
bytes_number (zero ∷ change ∷ []) = record { xid = none; change = change }
bytes_number (suc xid ∷ change ∷ []) = record { xid = some xid; change = change }
bytes_number _ = record { xid = none; change = 0 }

bytes_number-encode :
    (xid : Option ℕ) (change : ℕ)
    → bytes_number (encode xid change) ≡ record { xid = xid; change = change }
unfolding bytes_number encode
bytes_number-encode none change = refl
bytes_number-encode (some xid) change = refl

abbrev number_format : EntryFormat ℕ
number_format = record {
  serialize = λ e. encode e.xid e.change;
  parse = bytes_number;
  parse-serialize = λ e. bytes_number-encode e.xid e.change;
}

abbrev numbers : FsChangeLog ℕ
numbers = record {
  log_deque =
      (record { xid = some 7; change = 100 }) ∷ (record { xid = some 8; change = 200 }) ∷ [];
  next_xid = 9;
  eviction_next_xid = 1;
  tiered_out_xid = 6;
}

numbers-Fits : Fits number_format numbers.log_deque
unfolding encode
numbers-Fits = fits_cons _ 7 _ (omega arith) refl (fits_cons _ 8 [] (omega arith) refl fits_nil)

refresh-flush_example :
    (text : Bytes) × (flush number_format numbers ≡ some text)
    × (l' : FsChangeLog ℕ) × (refresh number_format text (new_log 1) ≡ some l')
    × (l'.log_deque ≡ (new_log {A = ℕ} 1).log_deque ++ numbers.log_deque)
refresh-flush_example = refresh-flush number_format numbers (new_log 1) numbers-Fits (omega arith)

-- A disk on which every file has two bytes, with a tar and a mkdir that work.
abbrev some_disk : Outside
some_disk = record {
  World = ℕ;
  open_file = λ w path. some (1 ∷ 2 ∷ [], λ offset. false);
  tar_extract = λ w tarball dir. (true, w);
  mkdir_path = λ w dir. (true, w);
  sync_in = λ w. w;
}

abbrev one_segment : List Segment
one_segment =
    (record {
      name = b's' ∷ [];
      first_xid = 1;
      last_xid = 10;
      inode_offset = (record { inode = 5; pathname = b'a' ∷ []; offset = 0 }) ∷ [];
    })
    ∷ []

abbrev dir_name : ℕ → ℕ → Bytes
dir_name first last = b'd' ∷ []

abbrev opened : TieredInFile
opened = record { inode_num = 5; content = 1 ∷ 2 ∷ []; pread_fails = λ offset. false }

open_tiered-number_example : opened.inode_num ≡ 5
unfolding open_tiered open_found get_segment scan in_segment find_inode open_in_segment tiered_file
open_tiered-number_example = open_tiered-number some_disk dir_name one_segment 5 20 0 opened refl
