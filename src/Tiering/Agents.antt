-- ===== src/Tiering/Agents.antt =====
-- The agents that work through the change log: TieringOutAgent::Snapshot and GetInodes
-- (src/tiering/tiering_out_agent.cc), EvictionAgent::ProcessEvictions
-- (src/tiering/eviction_agent.cc). The threads that call them are not modelled; `none` is an abort or
-- undefined behaviour.
pub mod Inodes
pub mod Progress
use kvfs_ra_testing.Base.{
  ℕ, zero, suc, ◌+◌, ◌-◌, min, Bool, true, false, ◌&&◌, not, Option, none, some, List, [], ◌∷◌, ltb,
  leb, ◌==◌, if◌then◌else◌,
}
use kvfs_ra_testing.Store.{KvStore}
use kvfs_ra_testing.File.{MetaLayout}
use kvfs_ra_testing.File.Resize.{Stat}
use kvfs_ra_testing.Meta.{file_type}
use kvfs_ra_testing.Tiering.ChangeLog.{ChangeLogEntry, FsChangeLog}
use kvfs_ra_testing.Tiering.ChangeLog
use kvfs_ra_testing.Mount.{Change, Machine, KvfsMount}
use kvfs_ra_testing.Mount.Cache.{hold_inode, getattr, evict_inode}
use kvfs_ra_testing.Mount.Names.{s_isdir}

-- The std::set of GetInodes, in order and without duplicates.
unfoldable pub set_insert : ℕ → List ℕ → List ℕ
set_insert n [] = n ∷ []
set_insert n (m ∷ ms) =
    let later = m ∷ set_insert n ms in
    if ltb n m then n ∷ m ∷ ms else if n == m then m ∷ ms else later

unfoldable pub insert_inode : Option ℕ → List ℕ → List ℕ
insert_inode none inodes = inodes
insert_inode (some ino) inodes = set_insert ino inodes

unfoldable pub collect : List (ChangeLogEntry Change) → List ℕ → List ℕ
collect [] inodes = inodes
collect (entry ∷ entries) inodes = collect entries (insert_inode entry.change.inode_num inodes)

unfoldable pub get_inodes : List (ChangeLogEntry Change) → List ℕ
get_inodes entries = collect entries []

-- `log_entries.back()`
unfoldable pub back : {A : Type 0} → List A → Option A
back [] = none
back (x ∷ xs) = let later = back xs in elim xs [ [] ↦ some x | y ∷ ys ↦ later ]

-- The xid of the last entry, which has to have one.
unfoldable pub back_xid : List (ChangeLogEntry Change) → Option ℕ
back_xid entries = elim (back entries) [ none ↦ none | some entry ↦ entry.xid ]

-- The `xid()` of an entry, which is 0 if it has none.
unfoldable pub xid_or_zero : Option ℕ → ℕ
xid_or_zero none = 0
xid_or_zero (some xid) = xid

-- get_last_xid: 0 for an empty log.
unfoldable pub get_last_xid : FsChangeLog Change → ℕ
get_last_xid l = elim (back l.log_deque) [ none ↦ 0 | some entry ↦ xid_or_zero entry.xid ]

abbrev pub max_xid_per_segment : ℕ
max_xid_per_segment = 1000

-- The snapshots that were persisted: the inodes, the first xid and the last.
pub record Persisted : Type 0 where
  pub inode_nums : List ℕ
  pub first_xid : ℕ
  pub last_xid : ℕ

module _ (W : Type 0) (persist : Persisted → W → W) where
  -- One round of Snapshot; `persist` is the work of the SnapshotPersister on what lies outside of the
  -- log. Compress does nothing yet.
  unfoldable pub snapshot_round : ℕ → FsChangeLog Change → W → Option (FsChangeLog Change × W)
  snapshot_round snapshot_end_xid l w =
      let first = l.tiered_out_xid + 1 in
      let last = min (first + max_xid_per_segment) snapshot_end_xid in
      let (first_xid, entries) = ChangeLog.read l first last in
      elim (back_xid entries) [
        | none ↦ none
        | some last_xid ↦ some (
          record l { tiered_out_xid = last_xid },
          persist
              (record {
                inode_nums = get_inodes entries;
                first_xid = first_xid;
                last_xid = last_xid;
              })
              w,
        )
      ]

  -- The loop of Snapshot, on fuel: `none` also when it runs out.
  unfoldable pub snapshot_loop : ℕ → ℕ → FsChangeLog Change → W → Option (FsChangeLog Change × W)
  snapshot_loop zero snapshot_end_xid l w = none
  snapshot_loop (suc fuel) snapshot_end_xid l w = elim (snapshot_round snapshot_end_xid l w) [
    | none ↦ none
    | some (l', w') ↦ elim (ltb l'.tiered_out_xid snapshot_end_xid) [
      | true ↦ snapshot_loop fuel snapshot_end_xid l' w'
      | false ↦ some (l', w')
    ]
  ]

  -- Snapshot, with a round for every xid at most.
  unfoldable pub snapshot : FsChangeLog Change → W → Option (FsChangeLog Change × W)
  snapshot l w =
      let snapshot_end_xid = get_last_xid l in
      snapshot_loop (suc (snapshot_end_xid - l.tiered_out_xid)) snapshot_end_xid l w

-- S_ISREG
unfoldable pub s_isreg : ℕ → Bool
s_isreg mode = file_type mode == 0o100000

abbrev pub eviction_age : ℕ
eviction_age = 2

module _ (K : KvStore) (layout : MetaLayout) (machine : Machine) where
  -- A regular file that was not written in the last two seconds is evicted; a clock before the time of
  -- the last write does not count as an age.
  unfoldable pub evict_if_old : ℕ → Stat → KvfsMount K.State → KvfsMount K.State
  evict_if_old inode_num stat m =
      if not (s_isdir stat.st_mode)
        && (s_isreg stat.st_mode && leb (stat.st_mtime + eviction_age) machine.now)
      then (evict_inode K layout machine inode_num m).1
      else m

  -- One inode of the batch, which is held and not released.
  unfoldable pub consider : ℕ → KvfsMount K.State → KvfsMount K.State
  consider inode_num m =
      let (err, stat, m') = getattr K layout machine inode_num (hold_inode machine inode_num m) in
      elim stat [ none ↦ m' | some st ↦ evict_if_old inode_num st m' ]

  unfoldable pub consider_all : List ℕ → KvfsMount K.State → KvfsMount K.State
  consider_all [] m = m
  consider_all (inode_num ∷ rest) m = consider_all rest (consider inode_num m)

  unfoldable pub set_eviction_next_xid : ℕ → KvfsMount K.State → KvfsMount K.State
  set_eviction_next_xid xid m = record m {
    change_log = record m.change_log { eviction_next_xid = xid };
  }

  -- The last xid of the batch: that of its last entry, 0 if it has none, or for an empty batch the xid
  -- that it was read up to.
  unfoldable pub batch_last : List (ChangeLogEntry Change) → ℕ → ℕ
  batch_last entries last_xid = elim (back entries) [
    | none ↦ last_xid
    | some entry ↦ xid_or_zero entry.xid
  ]

  unfoldable pub process_evictions : KvfsMount K.State → KvfsMount K.State
  process_evictions m =
      let last_xid = m.change_log.tiered_out_xid in
      let (_, entries) = ChangeLog.read m.change_log m.change_log.eviction_next_xid last_xid in
      set_eviction_next_xid (batch_last entries last_xid + 1) (consider_all (get_inodes entries) m)
