-- ===== src/Mount/Answers.antt =====
-- Lookup of src/kvfs_mount.cc: the reply, and the hold on the inode that FUSE is told about.
use kvfs_ra_testing.Base.{
  ℕ, ◌+◌, ◌≡◌, ◌≢◌, ◌⊎◌, inl, inr, refl, sym, ap, ◌∙◌, subst, Option, none, some, Bytes, ◌==◌,
  Bool-cases, arith,
}
use kvfs_ra_testing.Status.{enoent, status_to_errno}
use kvfs_ra_testing.Store.{KvStore}
use kvfs_ra_testing.File.{MetaLayout, LogFsFile}
use kvfs_ra_testing.File.Resize.{Stat, stat}
use kvfs_ra_testing.Mount.{
  FuseKvfsInode, InodeState, invalid, clean, dirty, Machine, KvfsMount, Reply, reply_err,
  reply_entry, inode_at, put_inode, set_file, set_state,
}
use kvfs_ra_testing.Mount.Cache.{
  hold_by, hold_inode, refreshed_by, refresh_from, refresh, refresh_at,
}
use kvfs_ra_testing.Mount.Names.{find_child, answer_by, answer_entry, lookup_child, lookup}
use kvfs_ra_testing.Mount.Inodes.{inode_at-put_inode, inode_at-put_inode_ne}

module _ (K : KvStore) (layout : MetaLayout) (hash : Bytes → ℕ) (machine : Machine) where
  -- The attributes that an inode has to report: its own, unless they are INVALID, and then those of
  -- the file, if it is there.
  unfoldable pub attr_by : InodeState → FuseKvfsInode → K.State → Option Stat
  attr_by invalid i s = (stat K layout i.dir.file s).0
  attr_by clean i s = some i.attr
  attr_by dirty i s = some i.attr

  abbrev pub current_attr : FuseKvfsInode → K.State → Option Stat
  current_attr i s = attr_by i.state i s

  -- A reply with the attributes, or ENOENT if there are none; `i2` is what becomes of the object.
  pub data Answer : Option Stat → Reply → FuseKvfsInode → Type 0 where
    answer_attr :
        (st : Stat) (i2 : FuseKvfsInode)
        → i2.attr ≡ st
        → i2.state ≡ clean
        → Answer (some st) (reply_entry st.st_ino st) i2
    answer_none : (i2 : FuseKvfsInode) → Answer none (reply_err enoent) i2

  -- What Lookup does for a child that is there.
  pub record LookedUp (child : ℕ) (m : KvfsMount K.State) (reply : Reply) (m' : KvfsMount K.State)
      : Type 0 where
    pub held : (inode_at machine m' child).nlookup ≡ (inode_at machine m child).nlookup + 1
    pub answer :
        Answer (current_attr (inode_at machine m child) m.store) reply (inode_at machine m' child)
    pub others : (other : ℕ) → other ≢ child → inode_at machine m' other ≡ inode_at machine m other
    pub same_store : m'.store ≡ m.store

  -- The end of Lookup for an object `i`, put in the map.
  module _ (child : ℕ) where
    answered : (r : ℕ × FuseKvfsInode) → KvfsMount K.State → Option (Reply × KvfsMount K.State)
    answered r m = answer_by K layout hash machine r.1.state r.1 r.0 child (put_inode child r.1 m)

    -- The mount after it: the object in the map has become `i2`.
    record Ends (attr : Option Stat) (count : ℕ) (m : KvfsMount K.State)
        (o : Option (Reply × KvfsMount K.State)) : Type 0 where
      pub reply : Reply
      pub m' : KvfsMount K.State
      pub returns : o ≡ some (reply, m')
      pub kept : (inode_at machine m' child).nlookup ≡ count
      pub answer : Answer attr reply (inode_at machine m' child)
      pub others :
          (other : ℕ) → other ≢ child → inode_at machine m' other ≡ inode_at machine m other
      pub same_store : m'.store ≡ m.store

    put_once :
        (i : FuseKvfsInode) (m : KvfsMount K.State) (attr : Option Stat) (reply : Reply)
        → Answer attr reply i
        → Ends attr i.nlookup m (some (reply, put_inode child i m))
    unfolding put_inode
    put_once i m attr reply a = record {
      reply = reply;
      m' = put_inode child i m;
      returns = refl;
      kept = ap (λ (k : FuseKvfsInode). k.nlookup) (inode_at-put_inode machine child i m);
      answer = rw (inode_at-put_inode machine child i m) a;
      others = λ other ne. inode_at-put_inode_ne machine child other i m ne;
      same_store = refl;
    }

    under_put :
        (i : FuseKvfsInode) (m : KvfsMount K.State) (attr : Option Stat) (count : ℕ)
        (o : Option (Reply × KvfsMount K.State))
        → Ends attr count (put_inode child i m) o
        → Ends attr count m o
    unfolding put_inode
    under_put i m attr count o e = record {
      reply = e.reply;
      m' = e.m';
      returns = e.returns;
      kept = e.kept;
      answer = e.answer;
      others = λ other ne. e.others other ne ∙ inode_at-put_inode_ne machine child other i m ne;
      same_store = e.same_store;
    }

    -- After a `stat` that returned `q`.
    after_stat :
        (q : Option Stat × LogFsFile) (i : FuseKvfsInode) (m : KvfsMount K.State)
        → i.state ≡ invalid
        → Ends q.0 i.nlookup m (answered (refreshed_by K layout q i) m)
    unfolding answered answer_by refreshed_by set_file set_state status_to_errno
    after_stat (some st, f) i m e =
        let fresh = set_state clean (set_file f (record i { attr = st })) in
        under_put fresh m (some st) i.nlookup _ (
          put_once (set_state clean fresh) (put_inode child fresh m) (some st)
            (reply_entry st.st_ino st) (answer_attr st _ refl refl))
    after_stat (none, f) i m e =
        subst
          (λ (state : InodeState). Ends none i.nlookup m (
            answer_by K layout hash machine state (set_file f i) enoent child
              (put_inode child (set_file f i) m)))
          (sym e) (put_once (set_file f i) m none (reply_err enoent) (answer_none _))

    -- After no `stat`: the attributes are those of the object.
    after_none :
        (i : FuseKvfsInode) (m : KvfsMount K.State)
        → Ends (some i.attr) i.nlookup m (
            some (
              reply_entry i.attr.st_ino i.attr,
              put_inode child (set_state clean i) (put_inode child i m),
            ))
    unfolding set_state
    after_none i m = under_put i m (some i.attr) i.nlookup _ (
        put_once (set_state clean i) (put_inode child i m) (some i.attr)
          (reply_entry i.attr.st_ino i.attr) (answer_attr i.attr _ refl refl))

    after_refresh :
        (state : InodeState) (i : FuseKvfsInode) (m : KvfsMount K.State)
        → i.state ≡ state
        → Ends
            (attr_by state i m.store)
            i.nlookup
            m
            (answered (refresh_from K layout state i m.store) m)
    unfolding answered answer_by refresh_from attr_by set_state
    after_refresh invalid i m e = after_stat (stat K layout i.dir.file m.store) i m e
    after_refresh clean i m e =
        subst
          (λ (state : InodeState).
            Ends (some i.attr) i.nlookup m
              (answer_by K layout hash machine state i 0 child (put_inode child i m)))
          (sym e) (after_none i m)
    after_refresh dirty i m e =
        subst
          (λ (state : InodeState).
            Ends (some i.attr) i.nlookup m
              (answer_by K layout hash machine state i 0 child (put_inode child i m)))
          (sym e) (after_none i m)

  attr-hold_by :
      (state : InodeState) (i : FuseKvfsInode) (s : K.State)
      → attr_by state (hold_by 1 i) s ≡ attr_by state i s
  unfolding attr_by hold_by
  attr-hold_by invalid i s = refl
  attr-hold_by clean i s = refl
  attr-hold_by dirty i s = refl

  lookup_child-answered :
      (child : ℕ) (m : KvfsMount K.State)
      → lookup_child K layout hash machine child m
        ≡ answered child
            (refresh_from K layout
              (inode_at machine m child).state
              (hold_by 1 (inode_at machine m child))
              m.store)
            (put_inode child (hold_by 1 (inode_at machine m child)) m)
  unfolding lookup_child answer_entry refresh_at refresh hold_inode answered put_inode hold_by
  lookup_child-answered child m =
      let i = hold_by 1 (inode_at machine m child) in
      let m1 = put_inode child i m in
      let r = refresh_from K layout i.state i m.store in
      ap
        (λ (x : FuseKvfsInode).
          let q = refresh_from K layout x.state x m.store in
          let y = inode_at machine (put_inode child q.1 m1) child in
          answer_by K layout hash machine y.state y q.0 child (put_inode child q.1 m1))
        (inode_at-put_inode machine child i m)
      ∙ ap
          (λ (y : FuseKvfsInode).
            answer_by K layout hash machine y.state y r.0 child (put_inode child r.1 m1))
          (inode_at-put_inode machine child r.1 m1)

  lookup_child-LookedUp :
      (child : ℕ) (m : KvfsMount K.State)
      → (reply : Reply) × (m' : KvfsMount K.State) × (lookup_child K layout hash machine child m
          ≡ some (reply, m'))
        × LookedUp child m reply m'
  unfolding put_inode hold_by
  lookup_child-LookedUp child m =
      let i = hold_by 1 (inode_at machine m child) in
      let e =
        under_put child i m _ _ _ (after_refresh child i.state i (put_inode child i m) refl) in
      (
        e.reply,
        e.m',
        lookup_child-answered child m ∙ e.returns,
        record {
          held = e.kept;
          answer =
              subst (λ (a : Option Stat). Answer a e.reply (inode_at machine e.m' child))
                (attr-hold_by (inode_at machine m child).state (inode_at machine m child) m.store)
                e.answer;
          others = e.others;
          same_store = e.same_store;
        },
      )

  -- For a mount, and a directory in which findHandle of a name returns, with the mount `m1`: Lookup
  -- returns. If there is no such name it replies ENOENT, and the mount is `m1`. If there is one, it
  -- replies with the attributes of the child, which are read from the store if those in memory are
  -- INVALID, or with ENOENT if the store does not have the inode; the child is held once more, in
  -- either case, and no other inode and no key changes.
  pub lookup-LookedUp :
      (this : ℕ) (name : Bytes) (m : KvfsMount K.State) (child : ℕ) (m1 : KvfsMount K.State)
      → find_child K layout hash machine this name m ≡ some (child, m1)
      → (reply : Reply) × (m' : KvfsMount K.State) × (lookup K layout hash machine this name m
          ≡ some (reply, m'))
        × (((child ≡ 0) × (reply ≡ reply_err enoent) × (m' ≡ m1))
            ⊎ ((child ≢ 0) × LookedUp child m1 reply m'))
  unfolding lookup
  lookup-LookedUp this name m child m1 found = elim (Bool-cases (child == 0)) [
    | inl zero ↦ (
      reply_err enoent,
      m1,
      rw (lookup, found, zero) refl,
      inl (ground (arith, zero), refl, refl),
    )
    | inr some_child ↦
        let (reply, m', e, done) = lookup_child-LookedUp child m1 in
        (reply, m', rw (lookup, found, some_child) e, inr (ground (arith, some_child), done))
  ]
