-- ===== src/Tiering/ChangeLog/Ordered.antt =====
-- Append and NextXid (src/tiering/fs_change_log.cc): the xids of the log go up, whether its entries
-- have an xid that was taken before or are given one.
use kvfs_ra_testing.Base.{ℕ, ◌<◌, ◌≤◌, ◌≡◌, refl, none, some, List, [], ◌∷◌, ◌++◌, arith}
use kvfs_ra_testing.Tiering.ChangeLog.{
  ChangeLogEntry, FsChangeLog, new_log, take_xid, push_entry, append_as, append,
}

-- Entries whose xids go up, all below `bound`.
pub data Ascending {A : Type 0} : List (ChangeLogEntry A) → ℕ → Type 0 where
  ascending_nil : (bound : ℕ) → Ascending [] bound
  ascending_snoc :
      (entries : List (ChangeLogEntry A)) (entry : ChangeLogEntry A) (xid bound : ℕ)
      → Ascending entries xid
      → entry.xid ≡ some xid
      → xid < bound
      → Ascending (entries ++ entry ∷ []) bound

pub Ascending-mono :
    {A : Type 0} {entries : List (ChangeLogEntry A)} {a b : ℕ}
    → Ascending entries a
    → a ≤ b
    → Ascending entries b
Ascending-mono (ascending_nil bound) h = ascending_nil _
Ascending-mono (ascending_snoc entries entry xid bound before e below) h =
    ascending_snoc entries entry xid _ before e (omega arith)

module _ {A : Type 0} where
  unfoldable pub IsOrdered : FsChangeLog A → Type 0
  IsOrdered l = Ascending l.log_deque l.next_xid

  -- Between NextXid and the Append of an entry with this xid.
  pub record IsPending (xid : ℕ) (l : FsChangeLog A) : Type 0 where
    pub before : Ascending l.log_deque xid
    pub taken : xid < l.next_xid

  pub take_xid-IsPending :
      (l : FsChangeLog A) → IsOrdered l → IsPending (take_xid l).0 (take_xid l).1
  unfolding IsOrdered take_xid
  take_xid-IsPending l h = record { before = h; taken = omega arith }

  pub IsPending-IsOrdered : (xid : ℕ) (l : FsChangeLog A) → IsPending xid l → IsOrdered l
  unfolding IsOrdered
  IsPending-IsOrdered xid l h = Ascending-mono h.before (let t = h.taken in omega arith)

  pub append_taken-IsOrdered :
      (xid : ℕ) (l : FsChangeLog A) (change : A)
      → IsPending xid l
      → IsOrdered (append l (record { xid = some xid; change = change })).1
  unfolding IsOrdered append append_as push_entry
  append_taken-IsOrdered xid l change h = ascending_snoc _ _ xid _ h.before refl h.taken

  pub append_next-IsOrdered :
      (l : FsChangeLog A) (change : A)
      → IsOrdered l
      → IsOrdered (append l (record { xid = none; change = change })).1
  unfolding IsOrdered append append_as push_entry take_xid
  append_next-IsOrdered l change h = ascending_snoc _ _ l.next_xid _ h refl (omega arith)

pub new_log-IsOrdered : (A : Type 0) (initial_xid : ℕ) → IsOrdered (new_log {A = A} initial_xid)
unfolding IsOrdered new_log
new_log-IsOrdered A initial_xid = ascending_nil initial_xid
