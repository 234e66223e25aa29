-- ===== src/File/Hold/Resident.antt =====
-- UnEvict as a whole: an evicted file comes back with the bytes of its tiered copy.
use kvfs_ra_testing.Base.{
  ℕ, suc, ◌≡◌, ◌≢◌, ◌⊎◌, inl, inr, refl, sym, ap, ◌∙◌, true, false, ◌&&◌, some, Bytes, at, length,
  arith, ltb, ◌==◌, if◌then◌else◌, Bool-cases, Option,
}
use kvfs_ra_testing.Status.{Status, ok, internal_error, is_ok, is_ok-ok, is_ok-error}
use kvfs_ra_testing.Key.{inode_key, chunk_key}
use kvfs_ra_testing.Store.{KvStore, Refused}
use kvfs_ra_testing.Meta.{MetaData, resident}
use kvfs_ra_testing.File.{MetaLayout, LogFsFile, flush}
use kvfs_ra_testing.File.Content.{byte_at, chunk_at-put_inode, byte_at-put_inode}
use kvfs_ra_testing.File.Valid.{FileIsValid}
use kvfs_ra_testing.File.Hold.{
  TieredInFile, Restoring, finish_restore, restore, un_evict, restore_loop,
}
use kvfs_ra_testing.File.Hold.Restore.{RestoreDone, restore_loop-RestoreDone}

module _ (K : KvStore) (layout : MetaLayout) (now : ℕ) where
  -- With STATUS_OK the object is resident, valid, and otherwise as it was, with the bytes of the tiered
  -- copy; or the status is STATUS_INTERNAL_ERROR, and a put was refused on the way to the store that is
  -- left. No key but the chunks and the inode changes.
  pub record BackDone (f : LogFsFile) (s : K.State) (t : TieredInFile) (status : Status)
      (f' : LogFsFile) (s' : K.State) : Type 0 where
    pub others :
        (j : Bytes)
        → ((c : ℕ) → j ≢ chunk_key f.handle c)
        → j ≢ inode_key f.handle
        → K.get s' j ≡ K.get s j
    pub same_handle : f'.handle ≡ f.handle
    pub same_hold : f'.data_hold_count ≡ f.data_hold_count
    pub outcome :
        ((status ≡ ok)
          × (f'.meta ≡ record f.meta { eviction_state = resident })
          × FileIsValid K f' s'
          × ((i : ℕ)
              → byte_at K f.handle f.meta.file_chunk_size s' i
                ≡ (if ltb i f.meta.file_total_size then at t.content i else 0)))
        ⊎ ((status ≡ internal_error) × Refused K s s')

  module _ (f : LogFsFile) (s : K.State) (v : FileIsValid K f s) (t : TieredInFile)
      (same_inode : t.inode_num ≡ f.meta.handle)
      (same_size : f.meta.file_total_size ≡ length t.content)
      (reads : (offset : ℕ) → t.pread_fails offset ≡ false) where
    back : LogFsFile
    back = record f { meta = record f.meta { eviction_state = resident } }

    put_back : K.State → K.State
    put_back s' = (K.put s' (inode_key f.handle) (layout.bytes back.meta)).1

    flushed :
        (s' : K.State)
        → (st : Status) × (g : LogFsFile) × (flush K layout back s' ≡ (st, g, put_back s'))
          × (g.meta ≡ back.meta)
          × (g.handle ≡ f.handle)
          × (g.data_hold_count ≡ f.data_hold_count)
    unfolding flush back put_back
    flushed s' =
        let same : (f.handle == f.meta.handle) ≡ true = ground (arith, v.own) in
        elim (Bool-cases (K.put s' (inode_key f.handle) (layout.bytes back.meta)).0) [
          | inl done ↦ (ok, record back { meta_dirty = false }, simp (same, done), refl, refl, refl)
          | inr full ↦ (internal_error, back, simp (same, full), refl, refl, refl)
        ]

    finished :
        (r : Restoring K.State)
        → r.file ≡ f
        → r.status ≡ ok
        → r.offset ≡ length t.content
        → finish_restore K layout now t r ≡ some (ok, (flushed r.store).1, put_back r.store)
    unfolding finish_restore back
    finished r same good all =
        let is_good : is_ok r.status ≡ true = is_ok-ok r.status good in
        let at_end : (r.offset == length t.content) ≡ true = ground (arith, all) in
        let (_, _, e, _, _, _) = flushed r.store in rw (same, e, is_good, at_end) refl

    stopped :
        (r : Restoring K.State)
        → r.status ≡ internal_error
        → finish_restore K layout now t r ≡ some (r.status, r.file, r.store)
    unfolding finish_restore
    stopped r bad = rw (is_ok-error r.status bad) refl

    restored :
        (r : Restoring K.State)
        → restore_loop K layout now (suc (length t.content)) t f s 0 ≡ some r
        → restore K layout now t f s ≡ finish_restore K layout now t r
    unfolding restore
    restored r e =
        let right : ((t.inode_num == f.meta.handle) && (f.meta.file_total_size == length t.content))
            ≡ true =
          ground (arith, same_inode, same_size) in
        rw (restore, right, e) refl

    back_valid :
        (g : LogFsFile) (s' : K.State)
        → g.meta ≡ back.meta
        → g.handle ≡ f.handle
        → FileIsValid K f s'
        → FileIsValid K g (put_back s')
    unfolding put_back back
    back_valid g s' same_meta same_handle v' =
        let same_chunk : g.meta.file_chunk_size ≡ f.meta.file_chunk_size =
          ap (λ (m : MetaData). m.file_chunk_size) same_meta in
        let same_initial : g.meta.file_initial_size ≡ f.meta.file_initial_size =
          ap (λ (m : MetaData). m.file_initial_size) same_meta in
        let same_total : g.meta.file_total_size ≡ f.meta.file_total_size =
          ap (λ (m : MetaData). m.file_total_size) same_meta in
        let same_own : g.meta.handle ≡ f.meta.handle = ap (λ (m : MetaData). m.handle) same_meta in
        record {
          chunk_pos = rw same_chunk v'.chunk_pos;
          chunk_u32 = rw same_chunk v'.chunk_u32;
          no_initial = same_initial ∙ v'.no_initial;
          own = same_handle ∙ v'.own ∙ sym same_own;
          fit = record {
            fits = λ c.
                rw
                  (
                    same_handle,
                    same_chunk,
                    chunk_at-put_inode K f.handle f.meta.file_chunk_size s' f.handle c
                        (layout.bytes back.meta),
                  )
                  (v'.fit.fits c);
          };
          blank = λ i past.
              rw
                (
                  same_handle,
                  same_chunk,
                  byte_at-put_inode K f.handle f.meta.file_chunk_size s' f.handle
                      (layout.bytes back.meta) i,
                )
                (v'.blank i (rw (sym same_total) past));
        }

    module _ (agent : ℕ → Option TieredInFile) (found : agent f.meta.handle ≡ some t) where
      un_evict_as :
          (r : Restoring K.State)
          → restore_loop K layout now (suc (length t.content)) t f s 0 ≡ some r
          → un_evict K layout now agent f s ≡ finish_restore K layout now t r
      unfolding un_evict
      un_evict_as r e = rw (un_evict, found) (restored r e)

      un_evict_after :
          (r : Restoring K.State)
          → restore_loop K layout now (suc (length t.content)) t f s 0 ≡ some r
          → RestoreDone K layout now t f same_size reads s 0 r
          → (status : Status) × (f' : LogFsFile) × (s' : K.State) × (un_evict K layout now agent f s
              ≡ some (status, f', s'))
            × BackDone f s t status f' s'
      unfolding put_back back
      un_evict_after r e d = elim d.outcome [
        | inl (good, all, bytes) ↦
            let (_, g, _, same_meta, same_handle, same_hold) = flushed r.store in
            (
              ok,
              g,
              put_back r.store,
              un_evict_as r e ∙ finished r d.same_file good all,
              record {
                others = λ j c i. K.get-put_ne r.store (inode_key f.handle) j _ i ∙ d.frame j c;
                same_handle = same_handle;
                same_hold = same_hold;
                outcome = inl (
                  refl,
                  same_meta,
                  back_valid g r.store same_meta same_handle d.valid,
                  λ i.
                      byte_at-put_inode K f.handle f.meta.file_chunk_size r.store f.handle _ i
                      ∙ ground (arith, bytes i, v.blank i),
                );
              },
            )
        | inr (bad, why) ↦ (
          r.status,
          r.file,
          r.store,
          un_evict_as r e ∙ stopped r bad,
          record {
            others = λ j c i. d.frame j c;
            same_handle = ap (λ (g : LogFsFile). g.handle) d.same_file;
            same_hold = ap (λ (g : LogFsFile). g.data_hold_count) d.same_file;
            outcome = inr (bad, why);
          },
        )
      ]

      -- For a valid file and a tiered copy that Open finds for it, with its inode number and its length,
      -- and of which no pread fails: UnEvict returns, and does what BackDone says.
      pub un_evict-BackDone :
          (status : Status) × (f' : LogFsFile) × (s' : K.State) × (un_evict K layout now agent f s
            ≡ some (status, f', s'))
          × BackDone f s t status f' s'
      un_evict-BackDone =
          let (r, e, d) =
            restore_loop-RestoreDone K layout now t f same_size reads (suc (length t.content)) s 0 v
              (omega arith) (omega arith) in
          un_evict_after r e d
