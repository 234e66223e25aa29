-- ===== src/Tiering/Index/Latest.antt =====
-- GetSegment finds the latest segment that has the inode and is old enough.
use kvfs_ra_testing.Base.{
  ℕ, zero, suc, ◌≤◌, ◌<◌, ◌≡◌, ◌≢◌, refl, sym, ap, ◌∙◌, true, false, Option, none, some, List, [],
  ◌∷◌, ◌++◌, length, get_elem?, ltb, ◌==◌, Bool-cases, ==_iff, Option-cases, inl, inr, arith,
}
use kvfs_ra_testing.Tiering.Index.{InodeOffset, Segment, find_inode, in_segment, scan, get_segment}

-- The segment has the entry `o` of the inode, and its last xid is not after
-- `before_xid`.
pub record Has (inode_num before_xid : ℕ) (segment : Segment) (o : InodeOffset) : Type 0 where
  pub old_enough : segment.last_xid ≤ before_xid
  pub before : List InodeOffset
  pub after : List InodeOffset
  pub there : segment.inode_offset ≡ before ++ o ∷ after
  pub own : o.inode ≡ inode_num

-- No segment from `from` up to `to` that is old enough has the inode.
abbrev pub NoneBetween : ℕ → ℕ → List Segment → ℕ → ℕ → Type 0
NoneBetween inode_num before_xid segments from to =
    (k : ℕ) (segment : Segment) (o : InodeOffset)
    → from ≤ k
    → k < to
    → get_elem? segments k ≡ some segment
    → ¬ Has inode_num before_xid segment o

-- A segment is found at `k`, and none later; or there is none.
pub data Found (inode_num before_xid : ℕ) (segments : List Segment)
    : Option (Segment × InodeOffset) → Type 0 where
  found_at :
      (k : ℕ) (segment : Segment) (o : InodeOffset)
      → k < length segments
      → get_elem? segments k ≡ some segment
      → Has inode_num before_xid segment o
      → NoneBetween inode_num before_xid segments (suc k) (length segments)
      → Found inode_num before_xid segments (some (segment, o))
  found_none :
      NoneBetween inode_num before_xid segments 0 (length segments)
      → Found inode_num before_xid segments none

none-some : (o : InodeOffset) → none ≢ some o
none-some o e = cc

-- As the loop tests it: no segment from `from` up to `to` that is old enough has the inode.
abbrev NoneScanned : ℕ → ℕ → List Segment → ℕ → ℕ → Type 0
NoneScanned inode_num before_xid segments from to =
    (k : ℕ) (segment : Segment)
    → from ≤ k
    → k < to
    → get_elem? segments k ≡ some segment
    → in_segment inode_num before_xid segment ≡ none

-- The same, as the loop tests it: a segment is found at `k`, and none later; or there is none.
data Scanned (inode_num before_xid : ℕ) (segments : List Segment) (to : ℕ)
    : Option (Segment × InodeOffset) → Type 0 where
  scanned_at :
      (k : ℕ) (segment : Segment) (o : InodeOffset)
      → k < to
      → get_elem? segments k ≡ some segment
      → in_segment inode_num before_xid segment ≡ some o
      → NoneScanned inode_num before_xid segments (suc k) to
      → Scanned inode_num before_xid segments to (some (segment, o))
  scanned_none :
      NoneScanned inode_num before_xid segments 0 to → Scanned inode_num before_xid segments to none

get_elem-inside :
    (segments : List Segment) (k : ℕ)
    → k < length segments
    → (segment : Segment) × (get_elem? segments k ≡ some segment)
get_elem-inside [] k h = absurd (omega arith)
get_elem-inside (x ∷ xs) zero h = (x, refl)
get_elem-inside (x ∷ xs) (suc k) h = get_elem-inside xs k (omega arith)

in_found : ℕ → ℕ → Option Segment → Option InodeOffset
in_found inode_num before_xid none = none
in_found inode_num before_xid (some segment) = in_segment inode_num before_xid segment

none_next :
    (inode_num before_xid : ℕ) (segments : List Segment) (from to : ℕ) (last : Segment)
    → get_elem? segments to ≡ some last
    → in_segment inode_num before_xid last ≡ none
    → NoneScanned inode_num before_xid segments from to
    → NoneScanned inode_num before_xid segments from (suc to)
unfolding in_found
none_next inode_num before_xid segments from to last here missing h k segment lo hi e =
    elim (Bool-cases (k == to)) [
      | inl same ↦
          let both : get_elem? segments k ≡ some last =
            ap (λ (n : ℕ). get_elem? segments n) ((==_iff k to).0 same) ∙ here in
          ap (λ (o : Option Segment). in_found inode_num before_xid o) (sym e ∙ both) ∙ missing
      | inr earlier ↦ h k segment lo (ground (arith, earlier)) e
    ]

Scanned-next :
    (inode_num before_xid : ℕ) (segments : List Segment) (to : ℕ) (last : Segment)
    (r : Option (Segment × InodeOffset))
    → get_elem? segments to ≡ some last
    → in_segment inode_num before_xid last ≡ none
    → Scanned inode_num before_xid segments to r
    → Scanned inode_num before_xid segments (suc to) r
Scanned-next inode_num before_xid segments to last _ here missing
      (scanned_at k segment o lt e got rest) =
    scanned_at k segment o (omega arith) e got
      (none_next inode_num before_xid segments (suc k) to last here missing rest)
Scanned-next inode_num before_xid segments to last _ here missing (scanned_none rest) =
    scanned_none (none_next inode_num before_xid segments 0 to last here missing rest)

scan-Scanned :
    (inode_num before_xid : ℕ) (segments : List Segment) (to : ℕ)
    → to ≤ length segments
    → Scanned inode_num before_xid segments to (scan inode_num before_xid segments to)
unfolding scan
scan-Scanned inode_num before_xid segments zero h =
    scanned_none (λ k segment lo hi e. absurd (omega arith))
scan-Scanned inode_num before_xid segments (suc to) h =
    let (last, here) = get_elem-inside segments to (omega arith) in
    elim (Option-cases (in_segment inode_num before_xid last)) [
      | inl missing ↦
          rw (scan, here, missing)
            (Scanned-next inode_num before_xid segments to last _ here missing
              (scan-Scanned inode_num before_xid segments to (omega arith)))
      | inr (o, got) ↦
          rw (scan, here, got)
            (scanned_at to last o (omega arith) here got
              (λ k segment lo hi e. absurd (omega arith)))
    ]

-- What a search of the entries of a segment finds.
record Within (inode_num : ℕ) (os : List InodeOffset) (o : InodeOffset) : Type 0 where
  pub before : List InodeOffset
  pub after : List InodeOffset
  pub there : os ≡ before ++ o ∷ after
  pub own : o.inode ≡ inode_num

find_inode-Within :
    (inode_num : ℕ) (os : List InodeOffset) (o : InodeOffset)
    → find_inode inode_num os ≡ some o
    → Within inode_num os o
unfolding find_inode
find_inode-Within inode_num [] o e = absurd (none-some o e)
find_inode-Within inode_num (x ∷ rest) o e = elim (Bool-cases (x.inode == inode_num)) [
  | inl same ↦
      let first : find_inode inode_num (x ∷ rest) ≡ some x = rw (find_inode, same) refl in
      let this : x ≡ o = cc in
      record {
        before = [];
        after = rest;
        there = ap (λ (y : InodeOffset). y ∷ rest) this;
        own = ap (λ (y : InodeOffset). y.inode) (sym this) ∙ (==_iff x.inode inode_num).0 same;
      }
  | inr other ↦
      let next : find_inode inode_num (x ∷ rest) ≡ find_inode inode_num rest =
        rw (find_inode, other) refl in
      let w = find_inode-Within inode_num rest o (sym next ∙ e) in
      record {
        before = x ∷ w.before;
        after = w.after;
        there = ap (λ (ys : List InodeOffset). x ∷ ys) w.there;
        own = w.own;
      }
]

find_inode-skips :
    (inode_num : ℕ) (before : List InodeOffset) (o : InodeOffset) (after : List InodeOffset)
    → o.inode ≡ inode_num
    → find_inode inode_num (before ++ o ∷ after) ≢ none
unfolding find_inode
find_inode-skips inode_num [] o after own e =
    let same : (o.inode == inode_num) ≡ true = (==_iff o.inode inode_num).1 own in
    let first : find_inode inode_num (o ∷ after) ≡ some o = rw (find_inode, same) refl in
    none-some o (sym e ∙ first)
find_inode-skips inode_num (x ∷ before) o after own e = elim (Bool-cases (x.inode == inode_num)) [
  | inl same ↦
      let first : find_inode inode_num (x ∷ before ++ o ∷ after) ≡ some x =
        rw (find_inode, same) refl in
      none-some x (sym e ∙ first)
  | inr other ↦
      let next : find_inode inode_num (x ∷ before ++ o ∷ after)
          ≡ find_inode inode_num (before ++ o ∷ after) =
        rw (find_inode, other) refl in
      find_inode-skips inode_num before o after own (sym next ∙ e)
]

in_segment-Has :
    (inode_num before_xid : ℕ) (segment : Segment) (o : InodeOffset)
    → in_segment inode_num before_xid segment ≡ some o
    → Has inode_num before_xid segment o
unfolding in_segment
in_segment-Has inode_num before_xid segment o e =
    elim (Bool-cases (ltb before_xid segment.last_xid)) [
      | inl later ↦
          let early : in_segment inode_num before_xid segment ≡ none =
            rw (in_segment, later) refl in
          absurd (none-some o (sym early ∙ e))
      | inr enough ↦
          let searched : in_segment inode_num before_xid segment
              ≡ find_inode inode_num segment.inode_offset =
            rw (in_segment, enough) refl in
          let w = find_inode-Within inode_num segment.inode_offset o (sym searched ∙ e) in
          record {
            old_enough = ground (arith, enough);
            before = w.before;
            after = w.after;
            there = w.there;
            own = w.own;
          }
    ]

in_segment-none :
    (inode_num before_xid : ℕ) (segment : Segment) (o : InodeOffset)
    → in_segment inode_num before_xid segment ≡ none
    → ¬ Has inode_num before_xid segment o
unfolding in_segment
in_segment-none inode_num before_xid segment o e h =
    let enough : ltb before_xid segment.last_xid ≡ false = ground (arith, h.old_enough) in
    let searched : in_segment inode_num before_xid segment
        ≡ find_inode inode_num segment.inode_offset =
      rw (in_segment, enough) refl in
    find_inode-skips inode_num h.before o h.after h.own
      (ap (λ (os : List InodeOffset). find_inode inode_num os) (sym h.there) ∙ sym searched ∙ e)

Scanned-Found :
    (inode_num before_xid : ℕ) (segments : List Segment) (r : Option (Segment × InodeOffset))
    → Scanned inode_num before_xid segments (length segments) r
    → Found inode_num before_xid segments r
Scanned-Found inode_num before_xid segments _ (scanned_at k segment o lt e got rest) =
    found_at k segment o lt e (in_segment-Has inode_num before_xid segment o got)
      (λ j t x lo hi here. in_segment-none inode_num before_xid t x (rest j t lo hi here))
Scanned-Found inode_num before_xid segments _ (scanned_none rest) =
    found_none (λ j t x lo hi here. in_segment-none inode_num before_xid t x (rest j t lo hi here))

-- For any index: what GetSegment returns is a segment whose last xid is not after `before_xid` and that
-- has an entry of the inode, with that entry, and no later segment is such; it returns null only if no
-- segment is.
pub get_segment-Found :
    (inode_num before_xid : ℕ) (segments : List Segment)
    → Found inode_num before_xid segments (get_segment inode_num before_xid segments)
unfolding get_segment
get_segment-Found inode_num before_xid segments =
    Scanned-Found inode_num before_xid segments _
      (scan-Scanned inode_num before_xid segments (length segments) (omega arith))
