-- ===== src/Tiering/ChangeLog.antt =====
-- FsChangeLog (src/tiering/fs_change_log.cc, fs_change_log.h): the log of a file system's changes in
-- memory, and what Read returns of it. The fields of an entry other than the xid, which are generated
-- code, are of any type. Its file is in Saved.
pub mod Range
pub mod Ordered
pub mod Saved
use kvfs_ra_testing.Base.{
  ℕ, zero, suc, ◌+◌, ◌-◌, ◌%◌, ◌^◌, Option, none, some, List, [], ◌∷◌, ◌++◌, length, get_elem?, min,
}

pub record ChangeLogEntry (A : Type 0) : Type 0 where
  pub xid : Option ℕ
  pub change : A

pub record FsChangeLog (A : Type 0) : Type 0 where
  pub log_deque : List (ChangeLogEntry A)
  pub next_xid : ℕ
  pub eviction_next_xid : ℕ
  pub tiered_out_xid : ℕ

-- FsChangeLog(log_dir, initial_xid)
unfoldable pub new_log : {A : Type 0} → ℕ → FsChangeLog A
new_log initial_xid = record {
  log_deque = [];
  next_xid = initial_xid;
  eviction_next_xid = initial_xid;
  tiered_out_xid = initial_xid;
}

module _ {A : Type 0} where
  -- NextXid: the xid, and the log after it.
  unfoldable pub take_xid : FsChangeLog A → ℕ × FsChangeLog A
  take_xid l = (l.next_xid, record l { next_xid = l.next_xid + 1 })

  unfoldable pub push_entry : FsChangeLog A → ChangeLogEntry A → FsChangeLog A
  push_entry l entry = record l { log_deque = l.log_deque ++ entry ∷ [] }

  unfoldable pub append_as : Option ℕ → FsChangeLog A → ChangeLogEntry A → ℕ × FsChangeLog A
  append_as (some xid) l entry = (xid, push_entry l entry)
  append_as none l entry =
      let (xid, l') = take_xid l in (xid, push_entry l' (record entry { xid = some xid }))

  -- Append: an entry without an xid is given the next one.
  unfoldable pub append : FsChangeLog A → ChangeLogEntry A → ℕ × FsChangeLog A
  append l entry = append_as entry.xid l entry

  -- The loop of Read; past the end `at` throws, which no call comes to.
  unfoldable pub copy_entries : List (ChangeLogEntry A) → ℕ → ℕ → List (ChangeLogEntry A)
  copy_entries deque zero i = []
  copy_entries deque (suc rounds) i = elim (get_elem? deque i) [
    | none ↦ []
    | some entry ↦ entry ∷ copy_entries deque rounds (suc i)
  ]

  -- Read: the first xid that it sets, and the entries. Subtraction that stops at 0 is the code's
  -- `first_index = 0` for an xid before the queue, and no round for a last xid before it. The index of
  -- the loop is an int, which cuts off the first; a negative one, for which `at` throws, is not modelled,
  -- so that a first xid is less than 2^31 after the oldest entry's.
  unfoldable pub read : FsChangeLog A → ℕ → ℕ → ℕ × List (ChangeLogEntry A)
  read l first_xid last_xid =
      let zeroth_xid = l.next_xid - length l.log_deque in
      let first_index = first_xid - zeroth_xid in
      let i = first_index % 2 ^ 32 in
      let end_index = min (last_xid + 1 - zeroth_xid) (length l.log_deque) in
      (zeroth_xid + first_index, copy_entries l.log_deque (end_index - i) i)

  unfoldable pub get_first_xid : FsChangeLog A → Option ℕ
  get_first_xid l = elim l.log_deque [ [] ↦ some 0 | entry ∷ rest ↦ entry.xid ]
