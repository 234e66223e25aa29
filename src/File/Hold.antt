-- ===== src/File/Hold.antt =====
-- HoldData, UnEvict and ReleaseData of src/KVFSFile.cc: bringing the data of an evicted file back from
-- the tiering agent before it is used. The agent (src/tiering/tiering_in_agent.cc) is an argument: the
-- file that its `Open` finds for an inode number, if any. `none` is an abort.
pub mod Restore
pub mod Resident
use kvfs_ra_testing.Base.{
  ℕ, zero, suc, ◌+◌, ◌-◌, Bool, true, false, ◌&&◌, Option, none, some, Bytes, length, take, drop,
  ◌==◌, if◌then◌else◌,
}
use kvfs_ra_testing.Status.{Status, ok, object_doesnt_exist, is_ok}
use kvfs_ra_testing.Store.{KvStore}
use kvfs_ra_testing.Meta.{MetaData, EvictionState, resident, data_evicted, evicted}
use kvfs_ra_testing.File.{MetaLayout, LogFsFile, flush}
use kvfs_ra_testing.File.Write.{Written, write}

-- TieredInFile (src/tiering/tiered_in_file.cc): an open file, of which Stat and Read report the inode
-- number it was opened for and its bytes, with the offsets at which pread fails. It stands for a file of
-- which fstat succeeds.
pub record TieredInFile : Type 0 where
  pub inode_num : ℕ
  pub content : Bytes
  pub pread_fails : ℕ → Bool

-- TieredInFile::Read, a pread that succeeds of a regular file, which stops only at its end.
unfoldable pub tiered_read : TieredInFile → ℕ → ℕ → Bytes
tiered_read t offset size = take size (drop offset t.content)

abbrev pub buf_size : ℕ
buf_size = 8192

-- Where the loop of UnEvict stands when it ends.
pub record Restoring (S : Type 0) : Type 0 where
  pub status : Status
  pub offset : ℕ
  pub file : LogFsFile
  pub store : S

module _ (K : KvStore) (layout : MetaLayout) (now : ℕ) where
  -- One read of up to 8192 bytes, and their write without an update of the inode.
  unfoldable pub restore_piece : LogFsFile → K.State → ℕ → Bytes → Option (Written K.State)
  restore_piece f s offset piece = write K layout f s offset (length piece) (some piece) false now

  -- The loop, on fuel: `none` also when it runs out. Every round but the last reads a byte at least. The
  -- -1 of a pread that fails is a size of 2^64 - 1 bytes here, which are then written from a buffer of
  -- 8192 that has not been read into: `none`.
  unfoldable pub restore_loop :
      ℕ → TieredInFile → LogFsFile → K.State → ℕ → Option (Restoring K.State)
  restore_loop zero t f s offset = none
  restore_loop (suc fuel) t f s offset =
      let piece = tiered_read t offset buf_size in
      elim (t.pread_fails offset) [
        | true ↦ none
        | false ↦ elim (length piece == 0) [
          | true ↦ some (record { status = ok; offset = offset; file = f; store = s })
          | false ↦ elim (restore_piece f s offset piece) [
            | none ↦ none
            | some w ↦ elim (is_ok w.status) [
              | false ↦
                  some
                    (record { status = w.status; offset = offset; file = w.file; store = w.store })
              | true ↦ elim (w.actual_len == length piece) [
                | false ↦ none
                | true ↦ restore_loop fuel t w.file w.store (offset + length piece)
              ]
            ]
          ]
        ]
      ]

  -- After the loop: the file is resident if all was written. What flush returns is dropped.
  unfoldable pub finish_restore :
      TieredInFile → Restoring K.State → Option (Status × LogFsFile × K.State)
  finish_restore t r =
      let (_, f', s') =
        flush K layout (record r.file { meta = record r.file.meta { eviction_state = resident } })
          r.store in
      if is_ok r.status
      then if r.offset == length t.content then some (ok, f', s') else none
      else some (r.status, r.file, r.store)

  unfoldable pub restore :
      TieredInFile → LogFsFile → K.State → Option (Status × LogFsFile × K.State)
  restore t f s =
      elim ((t.inode_num == f.meta.handle) && (f.meta.file_total_size == length t.content)) [
        | false ↦ none
        | true ↦ elim (restore_loop (suc (length t.content)) t f s 0) [
          | none ↦ none
          | some r ↦ finish_restore t r
        ]
      ]

  unfoldable pub un_evict :
      (ℕ → Option TieredInFile) → LogFsFile → K.State → Option (Status × LogFsFile × K.State)
  un_evict agent f s = elim (agent f.meta.handle) [
    | none ↦ some (object_doesnt_exist, f, s)
    | some t ↦ restore t f s
  ]

  unfoldable pub hold :
      EvictionState → (ℕ → Option TieredInFile) → LogFsFile → K.State → Option (LogFsFile × K.State)
  hold resident agent f s = some (f, s)
  hold data_evicted agent f s = elim (un_evict agent f s) [
    | none ↦ none
    | some (status, f', s') ↦ some (f', s')
  ]
  hold evicted agent f s = none

  -- HoldData does not look at the status of UnEvict.
  unfoldable pub hold_data :
      (ℕ → Option TieredInFile) → LogFsFile → K.State → Option (LogFsFile × K.State)
  hold_data agent f s =
      hold f.meta.eviction_state agent (record f { data_hold_count = f.data_hold_count + 1 }) s

unfoldable pub release_data : LogFsFile → LogFsFile
release_data f = record f { data_hold_count = f.data_hold_count - 1 }
