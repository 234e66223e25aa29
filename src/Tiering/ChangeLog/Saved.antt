-- ===== src/Tiering/ChangeLog/Saved.antt =====
-- Flush and Refresh of FsChangeLog (src/tiering/fs_change_log.cc): the file of the log, in which each
-- entry stands after its size in eight bytes. What protobuf makes of an entry is an argument, with the
-- law that it reads back what it wrote. `none` is LOG(FATAL).
use kvfs_ra_testing.Base.{
  ℕ, zero, suc, ◌+◌, ◌<◌, ◌≡◌, refl, sym, ap, ◌∙◌, true, false, Option, none, some, List, [], ◌∷◌,
  ◌++◌, Bytes, length, take, drop, ltb, leb, if◌then◌else◌, length-append, arith,
}
use kvfs_ra_testing.Partition.{le_bytes, le_value}
use kvfs_ra_testing.Partition.Stored.{
  length-le_bytes, take_le, drop_le, le_value-le_bytes, take-append, drop-append,
}
use kvfs_ra_testing.Tiering.ChangeLog.{ChangeLogEntry, FsChangeLog, push_entry}
use mathlib.Core.List.{append_assoc, append-nil}

-- SerializeToString and ParseFromIstream of the generated class.
pub record EntryFormat (A : Type 0) : Type 0 where
  pub serialize : ChangeLogEntry A → Bytes
  pub parse : Bytes → ChangeLogEntry A
  pub parse-serialize : (entry : ChangeLogEntry A) → parse (serialize entry) ≡ entry

abbrev pub entry_bytes_size : ℕ
entry_bytes_size = 1024

module _ {A : Type 0} (P : EntryFormat A) where
  unfoldable pub flush_entries : List (ChangeLogEntry A) → Bytes
  flush_entries [] = []
  flush_entries (entry ∷ entries) =
      let serialized = P.serialize entry in
      le_bytes 8 (length serialized) ++ (serialized ++ flush_entries entries)

  unfoldable pub flush_deque : List (ChangeLogEntry A) → Option Bytes
  flush_deque [] = none
  flush_deque (entry ∷ entries) = some (flush_entries (entry ∷ entries))

  -- Flush: the content of the file. `none` for an empty log, of whose deque Flush takes front() and
  -- back() for the name of the file, which is undefined.
  unfoldable pub flush : FsChangeLog A → Option Bytes
  flush l = flush_deque l.log_deque

  -- An entry that was read is added as it is, and one without an xid is dropped.
  unfoldable pub restore_as : Option ℕ → FsChangeLog A → ChangeLogEntry A → FsChangeLog A
  restore_as none l entry = l
  restore_as (some xid) l entry = record (push_entry l entry) { next_xid = xid + 1 }

  unfoldable pub restore : FsChangeLog A → ChangeLogEntry A → FsChangeLog A
  restore l entry = restore_as entry.xid l entry

  -- An entry of a size, read from what follows the size, and what is left.
  unfoldable pub read_entry : ℕ → Bytes → Option (ChangeLogEntry A × Bytes)
  read_entry entry_size log_ifs =
      if leb entry_bytes_size entry_size
      then none
      else if ltb (length log_ifs) entry_size
      then none
      else some (P.parse (take entry_size log_ifs), drop entry_size log_ifs)

  -- The loop of Refresh, on fuel: `none` also when it runs out. Every round but the last reads a size. An
  -- incomplete size is the end of the file.
  unfoldable pub refresh_loop : ℕ → Bytes → FsChangeLog A → Option (FsChangeLog A)
  refresh_loop zero log_ifs l = none
  refresh_loop (suc fuel) log_ifs l = elim (ltb (length log_ifs) 8) [
    | true ↦ some l
    | false ↦ elim (read_entry (le_value (take 8 log_ifs)) (drop 8 log_ifs)) [
      | none ↦ none
      | some (entry, rest) ↦ refresh_loop fuel rest (restore l entry)
    ]
  ]

  -- Refresh of a file that can be opened.
  unfoldable pub refresh : Bytes → FsChangeLog A → Option (FsChangeLog A)
  refresh log_ifs l = refresh_loop (suc (length log_ifs)) log_ifs l

  -- Entries that the format can hold, each with its xid.
  pub data Fits : List (ChangeLogEntry A) → Type 0 where
    fits_nil : Fits []
    fits_cons :
        (entry : ChangeLogEntry A) (xid : ℕ) (entries : List (ChangeLogEntry A))
        → length (P.serialize entry) < entry_bytes_size
        → entry.xid ≡ some xid
        → Fits entries
        → Fits (entry ∷ entries)

  -- Restoring entries one by one.
  pub restore_all : FsChangeLog A → List (ChangeLogEntry A) → FsChangeLog A
  restore_all l [] = l
  restore_all l (entry ∷ entries) = restore_all (restore l entry) entries

  -- An entry that was written is read.
  read_entry-serialize :
      (entry : ChangeLogEntry A) (rest : Bytes)
      → length (P.serialize entry) < entry_bytes_size
      → read_entry (length (P.serialize entry)) (P.serialize entry ++ rest) ≡ some (entry, rest)
  unfolding read_entry
  read_entry-serialize entry rest small =
      let bytes = P.serialize entry in
      let in_size : leb entry_bytes_size (length bytes) ≡ false = ground (arith, small) in
      let whole : ltb (length (bytes ++ rest)) (length bytes) ≡ false =
        (let a = length-append bytes rest in ground (arith, a)) in
      rw
        (
          read_entry,
          in_size,
          whole,
          take-append bytes rest,
          drop-append bytes rest,
          P.parse-serialize entry,
        )
        refl

  refresh_loop-entry :
      (fuel : ℕ) (entry : ChangeLogEntry A) (rest : Bytes) (l : FsChangeLog A)
      → length (P.serialize entry) < entry_bytes_size
      → refresh_loop
          (suc fuel)
          (le_bytes 8 (length (P.serialize entry)) ++ (P.serialize entry ++ rest))
          l
        ≡ refresh_loop fuel rest (restore l entry)
  unfolding refresh_loop
  refresh_loop-entry fuel entry rest l small =
      let bytes = P.serialize entry in
      let head = le_bytes 8 (length bytes) in
      let long : length (head ++ (bytes ++ rest)) ≡ 8 + length (bytes ++ rest) =
        (let a = length-append head (bytes ++ rest) in
          let b = length-le_bytes 8 (length bytes) in omega (arith, a, b)) in
      let enough : ltb (length (head ++ (bytes ++ rest))) 8 ≡ false = ground (arith, long) in
      let value : le_value (take 8 (head ++ (bytes ++ rest))) ≡ length bytes =
        ap le_value (take_le 8 (length bytes) (bytes ++ rest))
        ∙ le_value-le_bytes 8 (length bytes) (omega (arith, small)) in
      let got : read_entry (le_value (take 8 (head ++ (bytes ++ rest))))
            (drop 8 (head ++ (bytes ++ rest)))
          ≡ some (entry, rest) =
        ap (λ (n : ℕ). read_entry n (drop 8 (head ++ (bytes ++ rest)))) value
        ∙ ap (λ (more : Bytes). read_entry (length bytes) more)
            (drop_le 8 (length bytes) (bytes ++ rest))
        ∙ read_entry-serialize entry rest small in
      rw (refresh_loop, enough, got) refl

  refresh_loop-flush :
      (fuel : ℕ) (entries : List (ChangeLogEntry A)) (l : FsChangeLog A)
      → Fits entries
      → length (flush_entries entries) < fuel
      → refresh_loop fuel (flush_entries entries) l ≡ some (restore_all l entries)
  unfolding refresh_loop flush_entries restore_all
  refresh_loop-flush zero entries l fits enough = absurd (omega (arith, enough))
  refresh_loop-flush (suc fuel) _ l fits_nil enough = refl
  refresh_loop-flush (suc fuel) _ l (fits_cons entry xid entries small e fits) enough =
      let rest = flush_entries entries in
      let head = le_bytes 8 (length (P.serialize entry)) in
      refresh_loop-entry fuel entry rest l small
      ∙ refresh_loop-flush fuel entries (restore l entry) fits (
          let a = length-append head (P.serialize entry ++ rest) in
          let b = length-append (P.serialize entry) rest in
          let c = length-le_bytes 8 (length (P.serialize entry)) in omega (arith, a, b, c, enough))

  restore-xid :
      (l : FsChangeLog A) (entry : ChangeLogEntry A) (xid : ℕ)
      → entry.xid ≡ some xid
      → restore l entry ≡ record (push_entry l entry) { next_xid = xid + 1 }
  unfolding restore restore_as
  restore-xid l entry xid e = ap (λ (o : Option ℕ). restore_as o l entry) e

  restore_all-deque :
      (l : FsChangeLog A) (entries : List (ChangeLogEntry A))
      → Fits entries
      → (restore_all l entries).log_deque ≡ l.log_deque ++ entries
  unfolding restore_all push_entry
  restore_all-deque l _ fits_nil = sym (append-nil l.log_deque)
  restore_all-deque l _ (fits_cons entry xid entries small e fits) =
      restore_all-deque (restore l entry) entries fits
      ∙ ap (λ (k : FsChangeLog A). k.log_deque ++ entries) (restore-xid l entry xid e)
      ∙ append_assoc l.log_deque (entry ∷ []) entries

  flush-some :
      (entries : List (ChangeLogEntry A))
      → 0 < length entries
      → flush_deque entries ≡ some (flush_entries entries)
  unfolding flush_deque
  flush-some [] h = absurd (omega (arith, h))
  flush-some (entry ∷ rest) h = refl

  -- For a log that is not empty and whose entries have xids and serialize to less than 1024 bytes: Flush
  -- writes a file, and Refresh of it returns, and adds the entries of the log to those in memory, in
  -- order.
  pub refresh-flush :
      (l from : FsChangeLog A)
      → Fits l.log_deque
      → 0 < length l.log_deque
      → (text : Bytes) × (flush l ≡ some text)
        × (l' : FsChangeLog A) × (refresh text from ≡ some l')
        × (l'.log_deque ≡ from.log_deque ++ l.log_deque)
  unfolding refresh flush
  refresh-flush l from fits some_entry = (
    flush_entries l.log_deque,
    flush-some l.log_deque some_entry,
    restore_all from l.log_deque,
    refresh_loop-flush (suc (length (flush_entries l.log_deque))) l.log_deque from fits
        (omega arith),
    restore_all-deque from l.log_deque fits,
  )
