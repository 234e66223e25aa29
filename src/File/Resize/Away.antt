-- ===== src/File/Resize/Away.antt =====
-- Evict: the data of a file are removed, and come back with the next read.
use kvfs_ra_testing.Base.{
  ℕ, ◌+◌, ◌-◌, min, ◌≤◌, ◌<◌, ◌^◌, ◌≡◌, ◌⊎◌, inl, inr, refl, sym, ap, ◌∙◌, true, false, some, at,
  length, arith, ltb, if◌then◌else◌, Option,
}
use kvfs_ra_testing.Status.{Status, ok, internal_error}
use kvfs_ra_testing.Key.{inode_key}
use kvfs_ra_testing.Store.{KvStore, run_nothing, run_put, Refused, Refused-before}
use kvfs_ra_testing.Meta.{MetaData, resident, data_evicted}
use kvfs_ra_testing.File.{MetaLayout, LogFsFile}
use kvfs_ra_testing.File.Content.{byte_at, chunk_at-put_inode, byte_at-put_inode}
use kvfs_ra_testing.File.Valid.{FileIsValid}
use kvfs_ra_testing.File.Hold.{TieredInFile}
use kvfs_ra_testing.File.Fetch.{Fetched, read}
use kvfs_ra_testing.File.Fetch.Content.{FetchDone, read-evicted, BackRefused}
use kvfs_ra_testing.File.Write.Result.{flush_cases}
use kvfs_ra_testing.File.Resize.{resize_data, Stat, stat_of, after_stat, evict_file, evict}
use kvfs_ra_testing.File.Resize.Round.{Removes}
use kvfs_ra_testing.File.Resize.Loop.{DataResized, resize_data-DataResized}
use kvfs_ra_testing.File.Resize.Truncate.{InodeIsStored, stat-stored}

module _ (K : KvStore) (layout : MetaLayout) where
  -- The data are gone, and the inode says so: the file is valid, has its size, and reads as zeros.
  pub record Evicted (f : LogFsFile) (f' : LogFsFile) (s' : K.State) : Type 0 where
    pub meta : f'.meta ≡ record f.meta { eviction_state = data_evicted }
    pub handle : f'.handle ≡ f.handle
    pub valid : FileIsValid K f' s'
    pub gone : (i : ℕ) → byte_at K f.handle f.meta.file_chunk_size s' i ≡ 0

  module _ (removes : Removes K) (f : LogFsFile) (s : K.State) (v : FileIsValid K f s) where
    abbrev size : ℕ
    size = f.meta.file_chunk_size

    emptied : Status × K.State
    emptied = resize_data K f.handle 0 f.meta.file_total_size size f.meta.file_initial_size s

    emptied-done : DataResized K removes f.handle size v.chunk_pos 0 s emptied.0 emptied.1
    unfolding emptied
    emptied-done =
        resize_data-DataResized K removes f.handle size v.chunk_pos 0 f.meta.file_initial_size
          v.no_initial f.meta.file_total_size s v.fit v.blank

    away : LogFsFile
    away = record f { meta = record f.meta { eviction_state = data_evicted }; meta_dirty = true }

    put_back : K.State
    put_back = (K.put emptied.1 (inode_key f.handle) (layout.bytes away.meta)).1

    flushed-Evicted :
        (g : LogFsFile)
        → g.meta ≡ away.meta
        → g.handle ≡ f.handle
        → ((i : ℕ)
            → byte_at K f.handle size emptied.1 i
              ≡ (if ltb i 0 then byte_at K f.handle size s i else 0))
        → Evicted f g put_back
    unfolding away put_back
    flushed-Evicted g same_meta same_handle bytes =
        let same_chunk : g.meta.file_chunk_size ≡ size =
          ap (λ (m : MetaData). m.file_chunk_size) same_meta in
        let gone : (i : ℕ) → byte_at K f.handle size put_back i ≡ 0 = λ i.
          byte_at-put_inode K f.handle size emptied.1 f.handle (layout.bytes away.meta) i
          ∙ ground (arith, bytes i) in
        record {
          meta = same_meta;
          handle = same_handle;
          valid = record {
            chunk_pos = rw same_chunk v.chunk_pos;
            chunk_u32 = rw same_chunk v.chunk_u32;
            no_initial = ap (λ (m : MetaData). m.file_initial_size) same_meta ∙ v.no_initial;
            own = same_handle ∙ v.own ∙ sym (ap (λ (m : MetaData). m.handle) same_meta);
            fit = record {
              fits = λ c.
                  rw
                    (
                      same_handle,
                      same_chunk,
                      chunk_at-put_inode K f.handle size emptied.1 f.handle c
                          (layout.bytes away.meta),
                    )
                    (emptied-done.fit.fits c);
            };
            blank = λ i past. rw (same_handle, same_chunk) (gone i);
          };
          gone = gone;
        }

    evict_as :
        InodeIsStored K layout f s
        → evict K layout f s ≡ evict_file K layout f s f.meta.file_total_size
    unfolding evict after_stat stat_of
    evict_as st =
        ap (λ (p : Option Stat × LogFsFile). after_stat K layout p s)
          (stat-stored K layout f s v.own st)

    -- For a valid file whose inode is stored, on a store that removes: `Evict` returns, and either
    -- STATUS_OK, and the file is as Evicted says, or STATUS_INTERNAL_ERROR, and a put was refused on the
    -- way to the store that it leaves.
    pub evict-Evicted :
        InodeIsStored K layout f s
        → (status : Status) × (f' : LogFsFile) × (s' : K.State) × (evict K layout f s
            ≡ (status, f', s'))
          × (((status ≡ ok) × Evicted f f' s') ⊎ ((status ≡ internal_error) × Refused K s s'))
    unfolding evict_file emptied away put_back
    evict-Evicted st = elim (flush_cases K layout away v.own emptied.1) [
      | inl (done, e) ↦ (
        emptied.0,
        record away { meta_dirty = false },
        put_back,
        evict_as st ∙ rw (evict_file, e) refl,
        elim emptied-done.outcome [
          | inl (good, bytes) ↦
              inl (good, flushed-Evicted (record away { meta_dirty = false }) refl refl bytes)
          | inr (bad, why) ↦ inr (bad, Refused-before why (run_put emptied.1 _ _ run_nothing))
        ],
      )
      | inr (full, e) ↦ (
        emptied.0,
        away,
        put_back,
        evict_as st ∙ rw (evict_file, e) refl,
        elim emptied-done.outcome [
          | inl (good, bytes) ↦ inl (good, flushed-Evicted away refl refl bytes)
          | inr (bad, why) ↦ inr (bad, Refused-before why (run_put emptied.1 _ _ run_nothing))
        ],
      )
    ]

    -- For a valid file below 2^63 bytes whose inode is stored, on a store that removes, and a tiered copy
    -- of it that the agent finds, of which no pread fails, made before it is evicted: `Evict` and then `read`, at an offset
    -- within the file: `Evict` returns, and with STATUS_OK `read` either returns with the bytes that the
    -- file had, and the file is resident, or UnEvict, which it calls, returns with
    -- STATUS_INTERNAL_ERROR, and a put was refused on the way to the store that it leaves; and if
    -- `Evict` returns another status it is STATUS_INTERNAL_ERROR, and the same holds of `Evict`.
    pub read-after-evict :
        InodeIsStored K layout f s
        → (t : TieredInFile) → t.inode_num ≡ f.meta.handle
        → f.meta.file_total_size ≡ length t.content
        → ((offset : ℕ) → t.pread_fails offset ≡ false)
        → ((i : ℕ)
            → i < f.meta.file_total_size
            → at t.content i ≡ byte_at K f.handle f.meta.file_chunk_size s i)
        → (agent : ℕ → Option TieredInFile) → agent f.meta.handle ≡ some t
        → (offset len now : ℕ) → offset ≤ f.meta.file_total_size
        → f.meta.file_total_size < 2 ^ 63
        → (status : Status) × (f' : LogFsFile) × (s' : K.State) × (evict K layout f s
            ≡ (status, f', s'))
          × (((status ≡ ok)
                × (((r : Fetched K.State) × (read K layout now agent f' s' offset len true ≡ some r)
                      × FetchDone K layout now agent f.meta.file_total_size
                          (λ i. byte_at K f.handle f.meta.file_chunk_size s i)
                          offset
                          len
                          r
                      × (r.file.meta.eviction_state ≡ resident))
                    ⊎ BackRefused K layout now agent
                        (record f' { data_hold_count = f'.data_hold_count + 1 })
                        s'))
              ⊎ ((status ≡ internal_error) × Refused K s s'))
    read-after-evict st t same_inode same_size reads copy agent found offset len now inside small =
        let (status, f', s', e, done) = evict-Evicted st in
        (
          status,
          f',
          s',
          e,
          elim done [
            | inl (good, ev) ↦
                let same_total : f'.meta.file_total_size ≡ f.meta.file_total_size =
                  ap (λ (m : MetaData). m.file_total_size) ev.meta in
                let same_own : f'.meta.handle ≡ f.meta.handle =
                  ap (λ (m : MetaData). m.handle) ev.meta in
                inl (
                  good,
                  elim (read-evicted K layout now agent f' s' ev.valid offset len
                      (rw same_total inside) (rw same_total small) t (same_inode ∙ sym same_own)
                      (same_total ∙ same_size) reads
                      (ap (λ (m : MetaData). m.eviction_state) ev.meta)
                      (ap agent same_own ∙ found)) [
                        | inl (r, e', d, here, _) ↦
                            let count : r.actual_len ≡ min len (f.meta.file_total_size - offset) =
                              d.amount ∙ rw same_total refl in
                            inl (
                              r,
                              e',
                              record {
                                status = d.status;
                                amount = count;
                                all_laid = d.all_laid;
                                bytes = λ j lo.
                                    d.bytes j lo ∙ copy (offset + j) (omega (arith, lo, count));
                              },
                              here,
                            )
                        | inr why ↦ inr why
                      ],
                )
            | inr bad ↦ inr bad
          ],
        )
