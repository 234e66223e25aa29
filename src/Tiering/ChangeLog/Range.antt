-- ===== src/Tiering/ChangeLog/Range.antt =====
-- The xids of a change log that was filled by Append are consecutive, and then Read returns the entries
-- of the range that it is asked for.
use kvfs_ra_testing.Base.{
  ℕ, zero, suc, ◌+◌, ◌-◌, ◌%◌, ◌^◌, ◌≤◌, ◌<◌, ◌≡◌, refl, ap, ◌∙◌, Option, none, some, List, [], ◌∷◌,
  ◌++◌, length, get_elem?, get_or, min, max, length-append, get_or-append, arith, ltb, Bool-cases,
  inl, inr,
}
use kvfs_ra_testing.Tiering.ChangeLog.{
  ChangeLogEntry, FsChangeLog, take_xid, push_entry, append_as, append, copy_entries, read,
}

module _ {A : Type 0} (nothing : ChangeLogEntry A) where
  -- The entries have the xids up to the next one, in order.
  pub record IsConsecutive (l : FsChangeLog A) : Type 0 where
    pub enough : length l.log_deque ≤ l.next_xid
    pub xids :
        (i : ℕ)
        → i < length l.log_deque
        → (get_or l.log_deque i nothing).xid ≡ some (l.next_xid - length l.log_deque + i)

  get_elem-inside :
      (xs : List (ChangeLogEntry A)) (i : ℕ)
      → i < length xs
      → get_elem? xs i ≡ some (get_or xs i nothing)
  get_elem-inside [] i h = absurd (omega arith)
  get_elem-inside (x ∷ xs) zero h = refl
  get_elem-inside (x ∷ xs) (suc i) h = get_elem-inside xs i (omega arith)

  cons_at :
      (xs ys : List (ChangeLogEntry A)) (rounds i : ℕ)
      → ((j : ℕ) → j < rounds → get_or ys j nothing ≡ get_or xs (suc i + j) nothing)
      → (j : ℕ) → j < suc rounds
      → get_or (get_or xs i nothing ∷ ys) j nothing ≡ get_or xs (i + j) nothing
  cons_at xs ys rounds i same zero h = ap (λ (k : ℕ). get_or xs k nothing) (omega arith)
  cons_at xs ys rounds i same (suc j) h =
      same j (omega arith) ∙ ap (λ (k : ℕ). get_or xs k nothing) (omega arith)

  copy_entries-inside :
      (xs : List (ChangeLogEntry A)) (rounds i : ℕ)
      → (0 < rounds → i + rounds ≤ length xs)
      → (length (copy_entries xs rounds i) ≡ rounds)
        × ((j : ℕ)
            → j < rounds
            → get_or (copy_entries xs rounds i) j nothing ≡ get_or xs (i + j) nothing)
  unfolding copy_entries
  copy_entries-inside xs zero i h = (refl, λ j lt. absurd (omega arith))
  copy_entries-inside xs (suc rounds) i h =
      let (count, same) =
        copy_entries-inside xs rounds (suc i) (λ more. omega (arith, h (omega arith))) in
      rw (copy_entries, get_elem-inside xs i (omega (arith, h (omega arith))))
        (ap (λ (n : ℕ). suc n) count, cons_at xs (copy_entries xs rounds (suc i)) rounds i same)

  append_as-IsConsecutive :
      (l : FsChangeLog A) (entry : ChangeLogEntry A) (xid : Option ℕ)
      → IsConsecutive l
      → xid ≡ none
      → ((append_as xid l entry).0 ≡ l.next_xid)
        × IsConsecutive (append_as xid l entry).1
        × (length (append_as xid l entry).1.log_deque ≡ length l.log_deque + 1)
  unfolding append_as take_xid push_entry
  append_as-IsConsecutive l entry xid c fresh =
      let last : ChangeLogEntry A = record entry { xid = some l.next_xid } in
      let grown = length-append l.log_deque (last ∷ []) in
      rw fresh (
        refl,
        record {
          enough = omega (arith, grown, c.enough);
          xids = λ i lt. elim (Bool-cases (ltb i (length l.log_deque))) [
            | inl inside ↦
                let old : get_or (l.log_deque ++ last ∷ []) i nothing
                    ≡ get_or l.log_deque i nothing =
                  get_or-append l.log_deque (last ∷ []) i nothing ∙ rw inside refl in
                ap (λ (e : ChangeLogEntry A). e.xid) old
                ∙ c.xids i (ground (arith, inside))
                ∙ ap (λ (n : ℕ). some n) (omega (arith, grown, c.enough))
            | inr outside ↦
                let at_end : i ≡ length l.log_deque = ground (arith, outside, grown, lt) in
                let first : i - length l.log_deque ≡ 0 = omega arith in
                let new : get_or (l.log_deque ++ last ∷ []) i nothing ≡ last =
                  get_or-append l.log_deque (last ∷ []) i nothing ∙ rw (outside, first) refl in
                ap (λ (e : ChangeLogEntry A). e.xid) new
                ∙ ap (λ (n : ℕ). some n) (omega (arith, grown, c.enough, at_end))
          ];
        },
        omega (arith, grown),
      )

  -- For an entry without an xid and a log with consecutive xids: Append returns the next xid, and the
  -- log is longer by one entry and has consecutive xids again.
  pub append-IsConsecutive :
      (l : FsChangeLog A) (entry : ChangeLogEntry A)
      → IsConsecutive l
      → entry.xid ≡ none
      → ((append l entry).0 ≡ l.next_xid)
        × IsConsecutive (append l entry).1
        × (length (append l entry).1.log_deque ≡ length l.log_deque + 1)
  unfolding append
  append-IsConsecutive l entry c fresh = append_as-IsConsecutive l entry entry.xid c fresh

  pub read-range :
      (l : FsChangeLog A) (first_xid last_xid : ℕ)
      → IsConsecutive l
      → first_xid < l.next_xid - length l.log_deque + 2 ^ 31
      → let from = (read l first_xid last_xid).0 in
        let entries = (read l first_xid last_xid).1 in
        (from ≡ max first_xid (l.next_xid - length l.log_deque))
        × (length entries ≡ min (last_xid + 1) l.next_xid - from)
        × ((j : ℕ) → j < length entries → (get_or entries j nothing).xid ≡ some (from + j))
  unfolding read
  read-range l first_xid last_xid c near =
      let zeroth = l.next_xid - length l.log_deque in
      let first_index = first_xid - zeroth in
      let rounds = min (last_xid + 1 - zeroth) (length l.log_deque) - first_index in
      let whole : first_index % 2 ^ 32 ≡ first_index = omega (arith, near) in
      let (count, same) =
        copy_entries-inside l.log_deque rounds first_index (λ more. omega (arith, c.enough)) in
      rw whole (
        omega arith,
        count ∙ omega (arith, c.enough),
        λ j lt.
            ap (λ (e : ChangeLogEntry A). e.xid) (same j (omega (arith, count, lt)))
            ∙ c.xids (first_index + j) (omega (arith, count, lt, c.enough))
            ∙ ap (λ (n : ℕ). some n) (omega arith),
      )
