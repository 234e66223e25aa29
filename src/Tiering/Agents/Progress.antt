-- ===== src/Tiering/Agents/Progress.antt =====
-- TieringOutAgent::Snapshot (src/tiering/tiering_out_agent.cc) comes to the end of the change log.
use kvfs_ra_testing.Base.{
  ℕ, zero, suc, ◌+◌, ◌-◌, ◌^◌, ◌≤◌, ◌<◌, ◌≡◌, inl, inr, refl, sym, ap, subst, ◌∙◌, min, Option,
  none, some, List, [], ◌∷◌, length, get_or, ltb, Bool-cases, arith,
}
use kvfs_ra_testing.Tiering.ChangeLog.{ChangeLogEntry, FsChangeLog}
use kvfs_ra_testing.Tiering.ChangeLog
use kvfs_ra_testing.Tiering.ChangeLog.Range.{IsConsecutive, read-range}
use kvfs_ra_testing.Tiering.Agents.{
  back, back_xid, get_last_xid, xid_or_zero, get_inodes, max_xid_per_segment, Persisted,
  snapshot_round, snapshot_loop, snapshot,
}
use kvfs_ra_testing.Tiering.Agents.Inodes.{has, mentions, get_inodes-mentions}
use kvfs_ra_testing.Mount.{Change}

back-get_or :
    {A : Type 0} (nothing : A) (xs : List A) (n : ℕ)
    → length xs ≡ suc n
    → back xs ≡ some (get_or xs n nothing)
unfolding back
back-get_or nothing [] n e = absurd (omega (arith, e))
back-get_or nothing (x ∷ []) n e = let first : n ≡ 0 = omega (arith, e) in rw (first) refl
back-get_or nothing (x ∷ y ∷ ys) zero e = absurd (omega (arith, e))
back-get_or nothing (x ∷ y ∷ ys) (suc n) e = back-get_or nothing (y ∷ ys) n (omega (arith, e))

length-zero : (xs : List (ChangeLogEntry Change)) → length xs ≡ 0 → xs ≡ []
length-zero [] e = refl
length-zero (x ∷ xs) e = absurd (omega (arith, e))

-- Snapshots of a log whose ranges of xids follow each other, from after `from` up to `end`, each with
-- the inodes that the log's entries of its range are about, and no others.
pub data Covers (l : FsChangeLog Change) : ℕ → ℕ → List Persisted → Type 0 where
  covers_nil : (end : ℕ) → Covers l end end []
  covers_cons :
      (from end : ℕ) (p : Persisted) (ps : List Persisted)
      → p.first_xid ≡ from + 1
      → p.first_xid ≤ p.last_xid
      → ((n : ℕ) → has n p.inode_nums ≡ mentions n (ChangeLog.read l p.first_xid p.last_xid).1)
      → Covers l p.last_xid end ps
      → Covers l from end (p ∷ ps)

-- Of the log, only its entries and the next xid matter.
Covers-moved :
    (l : FsChangeLog Change) (last from end : ℕ) (ps : List Persisted)
    → Covers (record l { tiered_out_xid = last }) from end ps
    → Covers l from end ps
unfolding ChangeLog.read
Covers-moved l last _ _ _ (covers_nil end) = covers_nil end
Covers-moved l last _ _ _ (covers_cons from end p ps first up inodes rest) =
    covers_cons from end p ps first up inodes (Covers-moved l last p.last_xid end ps rest)

module _ (nothing : ChangeLogEntry Change) (W : Type 0) (persist : Persisted → W → W) where
  pub persist_all : List Persisted → W → W
  persist_all [] w = w
  persist_all (p ∷ ps) w = persist_all ps (persist p w)

  -- The entries of a round, and the xid of the last.
  round_last :
      (l : FsChangeLog Change) (last : ℕ)
      → IsConsecutive nothing l
      → length l.log_deque < 2 ^ 31
      → l.next_xid - length l.log_deque ≤ l.tiered_out_xid + 1
      → l.tiered_out_xid < last
      → last < l.next_xid
      → ((ChangeLog.read l (l.tiered_out_xid + 1) last).0 ≡ l.tiered_out_xid + 1)
        × (back_xid (ChangeLog.read l (l.tiered_out_xid + 1) last).1 ≡ some last)
  unfolding back_xid
  round_last l last c short reaches more inside =
      let (from, count, xids) =
        read-range nothing l (l.tiered_out_xid + 1) last c
          (omega (arith, c.enough, short, more, inside)) in
      let entries = (ChangeLog.read l (l.tiered_out_xid + 1) last).1 in
      let first : (ChangeLog.read l (l.tiered_out_xid + 1) last).0 ≡ l.tiered_out_xid + 1 =
        omega (arith, from, reaches) in
      let n = last - l.tiered_out_xid - 1 in
      let long : length entries ≡ suc n = omega (arith, count, first, more, inside) in
      (
        first,
        rw (back_xid, back-get_or nothing entries n long)
            (xids n (omega (arith, long)) ∙ ap (λ (k : ℕ). some k) (omega (arith, first, more))),
      )

  -- The log after Snapshot, and what was handed to the persister.
  pub record SnapshotDone (end : ℕ) (l : FsChangeLog Change) (w : W)
      (o : Option (FsChangeLog Change × W)) : Type 0 where
    pub l' : FsChangeLog Change
    pub w' : W
    pub ps : List Persisted
    pub returns : o ≡ some (l', w')
    pub reached : l'.tiered_out_xid ≡ end
    pub same_log : l'.log_deque ≡ l.log_deque
    pub covers : Covers l l.tiered_out_xid end ps
    pub persisted : w' ≡ persist_all ps w

  moved : FsChangeLog Change → ℕ → FsChangeLog Change
  moved l last = record l { tiered_out_xid = last }

  part_of : FsChangeLog Change → ℕ → Persisted
  part_of l last = record {
    inode_nums = get_inodes (ChangeLog.read l (l.tiered_out_xid + 1) last).1;
    first_xid = l.tiered_out_xid + 1;
    last_xid = last;
  }

  about :
      (l : FsChangeLog Change) (last n : ℕ)
      → has n (part_of l last).inode_nums
        ≡ mentions n (ChangeLog.read l (part_of l last).first_xid (part_of l last).last_xid).1
  unfolding part_of
  about l last n = (get_inodes-mentions (ChangeLog.read l (l.tiered_out_xid + 1) last).1).1 n

  -- Where a round of Snapshot stops.
  abbrev stop : FsChangeLog Change → ℕ → ℕ
  stop l end = min (l.tiered_out_xid + 1 + max_xid_per_segment) end

  round-moved :
      (end : ℕ) (l : FsChangeLog Change) (w : W)
      → IsConsecutive nothing l
      → length l.log_deque < 2 ^ 31
      → l.next_xid - length l.log_deque ≤ l.tiered_out_xid + 1
      → l.tiered_out_xid < end
      → end < l.next_xid
      → snapshot_round W persist end l w
        ≡ some (moved l (stop l end), persist (part_of l (stop l end)) w)
  unfolding snapshot_round moved part_of
  round-moved end l w c short reaches more inside =
      let (first, last) =
        round_last l (stop l end) c short reaches (omega (arith, more)) (omega (arith, inside)) in
      rw (snapshot_round, last, first) refl

  loop-done :
      (fuel end : ℕ) (l : FsChangeLog Change) (w : W)
      → IsConsecutive nothing l
      → length l.log_deque < 2 ^ 31
      → l.next_xid - length l.log_deque ≤ l.tiered_out_xid + 1
      → l.tiered_out_xid < end
      → end < l.next_xid
      → end ≤ l.tiered_out_xid + fuel
      → SnapshotDone end l w (snapshot_loop W persist fuel end l w)
  unfolding snapshot_loop persist_all moved part_of
  loop-done zero end l w c short reaches more inside enough = absurd (omega arith)
  loop-done (suc fuel) end l w c short reaches more inside enough =
      let last = stop l end in
      let round = round-moved end l w c short reaches more inside in
      elim (Bool-cases (ltb last end)) [
        | inr at_end ↦
            let reached : last ≡ end = ground (arith, at_end) in
            record {
              l' = moved l last;
              w' = persist (part_of l last) w;
              ps = part_of l last ∷ [];
              returns = rw (snapshot_loop, round, at_end) refl;
              reached = reached;
              same_log = refl;
              covers =
                  covers_cons l.tiered_out_xid end (part_of l last) [] refl (omega arith)
                    (about l last)
                    (subst (λ (n : ℕ). Covers l n end []) (sym reached) (covers_nil end));
              persisted = refl;
            }
        | inl again ↦
            let rest =
              loop-done fuel end (moved l last) (persist (part_of l last) w)
                (record { enough = c.enough; xids = c.xids }) short (omega (arith, reaches))
                (ground (arith, again)) inside (omega (arith, enough)) in
            record {
              l' = rest.l';
              w' = rest.w';
              ps = part_of l last ∷ rest.ps;
              returns = rw (snapshot_loop, round, again) rest.returns;
              reached = rest.reached;
              same_log = rest.same_log;
              covers =
                  covers_cons l.tiered_out_xid end (part_of l last) rest.ps refl (omega arith)
                    (about l last) (Covers-moved l last last end rest.ps rest.covers);
              persisted = rest.persisted;
            }
      ]

  last-consecutive :
      (l : FsChangeLog Change) (n : ℕ)
      → IsConsecutive nothing l
      → length l.log_deque ≡ suc n
      → get_last_xid l ≡ l.next_xid - 1
  unfolding get_last_xid xid_or_zero
  last-consecutive l n c long =
      rw (get_last_xid, back-get_or nothing l.log_deque n long, c.xids n (omega (arith, long)))
        (omega (arith, long, c.enough))

  -- For a change log with consecutive xids and fewer than 2^31 entries that reaches back to the last xid
  -- tiered out, and has an entry after it: Snapshot returns, with the last xid tiered out set to the
  -- log's last xid and its entries as before. What it hands to the persister is a sequence of
  -- segments whose ranges of xids follow each other from there to the last xid, without a gap, each
  -- with the inodes that the entries of its range are about, and no others.
  pub snapshot-SnapshotDone :
      (l : FsChangeLog Change) (w : W)
      → IsConsecutive nothing l
      → length l.log_deque < 2 ^ 31
      → l.next_xid - length l.log_deque ≤ l.tiered_out_xid + 1
      → l.tiered_out_xid + 1 < l.next_xid
      → 0 < length l.log_deque
      → SnapshotDone (l.next_xid - 1) l w (snapshot W persist l w)
  unfolding snapshot
  snapshot-SnapshotDone l w c short reaches more some_entry =
      let end = l.next_xid - 1 in
      rw (snapshot, last-consecutive l (length l.log_deque - 1) c (omega (arith, some_entry)))
        (loop-done (suc (end - l.tiered_out_xid)) end l w c short reaches (omega (arith, more))
          (omega (arith, more)) (omega (arith, more)))

  -- For a change log with consecutive xids and an entry at least, but fewer than 2^31, of which all has
  -- been tiered out:
  -- the batch that the first round of Snapshot reads is empty, so that back() of it is undefined, and
  -- Snapshot does not return a log.
  pub snapshot-idle :
      (l : FsChangeLog Change) (w : W)
      → IsConsecutive nothing l
      → length l.log_deque < 2 ^ 31
      → l.tiered_out_xid + 1 ≡ l.next_xid
      → 0 < length l.log_deque
      → let first = l.tiered_out_xid + 1 in
        let last = min (first + max_xid_per_segment) (get_last_xid l) in
        ((ChangeLog.read l first last).1 ≡ []) × (snapshot W persist l w ≡ none)
  unfolding snapshot snapshot_loop snapshot_round back_xid back
  snapshot-idle l w c short idle some_entry =
      let end = l.next_xid - 1 in
      let (from, count, xids) =
        read-range nothing l (l.tiered_out_xid + 1) (stop l end) c
          (omega (arith, c.enough, short, idle, some_entry)) in
      let batch = (ChangeLog.read l (l.tiered_out_xid + 1) (stop l end)).1 in
      let empty : batch ≡ [] = length-zero batch (omega (arith, from, count, idle)) in
      let ends = last-consecutive l (length l.log_deque - 1) c (omega (arith, some_entry)) in
      rw (ends, snapshot, snapshot_loop, snapshot_round, empty) (refl, refl)
