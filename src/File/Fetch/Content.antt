-- ===== src/File/Fetch/Content.antt =====
-- `read` of a resident file, and of an evicted one, copies out the bytes of the file.
use kvfs_ra_testing.Base.{
  false, ℕ, ◌+◌, ◌-◌, ◌≤◌, ◌<◌, ◌^◌, ◌≡◌, ◌⊎◌, inl, inr, refl, sym, ap, ◌∙◌, true, some, at, length,
  min, arith, Option,
}
use kvfs_ra_testing.Status.{internal_error, Status, ok}
use kvfs_ra_testing.Store.{KvStore, Refused}
use kvfs_ra_testing.Meta.{MetaData, EvictionState, resident, data_evicted}
use kvfs_ra_testing.File.{MetaLayout, LogFsFile}
use kvfs_ra_testing.File.Content.{byte_at}
use kvfs_ra_testing.File.Valid.{FileIsValid}
use kvfs_ra_testing.File.Read.{sub64}
use kvfs_ra_testing.File.Read.Loop.{read_chunks-Laid}
use kvfs_ra_testing.File.Hold.{TieredInFile, un_evict, hold, hold_data, release_data}
use kvfs_ra_testing.File.Hold.Resident.{un_evict-BackDone}
use kvfs_ra_testing.File.Fetch.{Fetched, limit_length, read_held, read}

module _ (K : KvStore) (layout : MetaLayout) (now : ℕ) (agent : ℕ → Option TieredInFile) where
  -- What was asked for, or what the file has: so many bytes are copied out, those of `content`.
  pub record FetchDone (total : ℕ) (content : ℕ → ℕ) (offset len : ℕ) (r : Fetched K.State)
      : Type 0 where
    pub status : r.status ≡ ok
    pub amount : r.actual_len ≡ min len (total - offset)
    pub all_laid : length r.out ≡ r.actual_len
    pub bytes : (j : ℕ) → j < r.actual_len → at r.out j ≡ content (offset + j)

  limit_length-min :
      (f : LogFsFile) (offset len : ℕ)
      → offset ≤ f.meta.file_total_size
      → f.meta.file_total_size < 2 ^ 63
      → limit_length f offset len ≡ min len (f.meta.file_total_size - offset)
  unfolding limit_length sub64
  limit_length-min f offset len inside small = ground arith

  module _ (f : LogFsFile) (s : K.State) (v : FileIsValid K f s) (offset len : ℕ)
      (small : offset + len < 2 ^ 63) where
    read_held-done :
        (r : Fetched K.State) × (read_held K layout now agent f s offset len ≡ some r)
        × (r.status ≡ ok)
        × (r.actual_len ≡ len)
        × (length r.out ≡ len)
        × ((j : ℕ)
            → j < len
            → at r.out j ≡ byte_at K f.handle f.meta.file_chunk_size s (offset + j))
        × (r.store ≡ s)
        × (r.file ≡ release_data f)
        × FileIsValid K r.file r.store
    unfolding read_held release_data
    read_held-done =
        let (t, e, l, o) =
          read_chunks-Laid K f.handle f.meta s v.chunk_pos v.chunk_u32 v.no_initial v.fit offset len
            small in
        (
          record {
            status = ok;
            actual_len = len - t.left;
            out = t.out;
            file = release_data f;
            store = s;
          },
          rw (read_held, e) refl,
          refl,
          omega (arith, l.left_over),
          omega (arith, l.laid_length),
          λ j inside. ground (arith, l.bytes j, l.laid_length),
          refl,
          refl,
          record {
            chunk_pos = v.chunk_pos;
            chunk_u32 = v.chunk_u32;
            no_initial = v.no_initial;
            own = v.own;
            fit = v.fit;
            blank = v.blank;
          },
        )

  read-after_hold :
      (f f' : LogFsFile) (s s' : K.State) (offset len : ℕ)
      → hold_data K layout now agent f s ≡ some (f', s')
      → read K layout now agent f s offset len true
        ≡ read_held K layout now agent f' s' offset (limit_length f offset len)
  unfolding read
  read-after_hold f f' s s' offset len e = rw (read, e) refl

  hold-resident :
      (e : EvictionState) (f : LogFsFile) (s : K.State)
      → e ≡ resident
      → hold K layout now e agent f s ≡ some (f, s)
  unfolding hold
  hold-resident e f s here = rw here refl

  hold-evicted :
      (e : EvictionState) (f f' : LogFsFile) (s s' : K.State) (status : Status)
      → e ≡ data_evicted
      → un_evict K layout now agent f s ≡ some (status, f', s')
      → hold K layout now e agent f s ≡ some (f', s')
  unfolding hold
  hold-evicted e f f' s s' status here back = rw (hold, here, back) refl

  -- UnEvict of an object returns with STATUS_INTERNAL_ERROR, and a put was refused on the
  -- way to the store that it leaves.
  pub record BackRefused (f : LogFsFile) (s : K.State) : Type 0 where
    pub f' : LogFsFile
    pub s' : K.State
    pub returns : un_evict K layout now agent f s ≡ some (internal_error, f', s')
    pub refused : Refused K s s'

  module _ (f : LogFsFile) (s : K.State) (v : FileIsValid K f s) (offset len : ℕ)
      (inside : offset ≤ f.meta.file_total_size) (small : f.meta.file_total_size < 2 ^ 63) where
    held : LogFsFile
    held = record f { data_hold_count = f.data_hold_count + 1 }

    held-valid : FileIsValid K held s
    unfolding held
    held-valid = record {
      chunk_pos = v.chunk_pos;
      chunk_u32 = v.chunk_u32;
      no_initial = v.no_initial;
      own = v.own;
      fit = v.fit;
      blank = v.blank;
    }

    abbrev amount : ℕ
    amount = min len (f.meta.file_total_size - offset)

    limited : limit_length f offset len ≡ amount
    limited = limit_length-min f offset len inside small

    -- For a valid file that is resident, an offset within it and a file below 2^63 bytes: `read` returns
    -- STATUS_OK, copies out the bytes from the offset on up to the length or the end of the file, and
    -- changes neither the object nor the store.
    pub read-resident :
        f.meta.eviction_state ≡ resident
        → (r : Fetched K.State) × (read K layout now agent f s offset len true ≡ some r)
          × FetchDone f.meta.file_total_size
              (λ i. byte_at K f.handle f.meta.file_chunk_size s i)
              offset
              len
              r
          × (r.store ≡ s)
          × (r.file ≡ f)
    unfolding hold_data release_data held
    read-resident here =
        let (r, e, good, count, laid, bytes, same_store, same_file, valid) =
          read_held-done held s held-valid offset amount (omega arith) in
        (
          r,
          read-after_hold f held s s offset len (hold-resident f.meta.eviction_state held s here)
              ∙ ap (λ (n : ℕ). read_held K layout now agent held s offset n) limited
              ∙ e,
          record {
            status = good;
            amount = count;
            all_laid = laid ∙ sym count;
            bytes = λ j lo. bytes j (omega (arith, lo, count));
          },
          same_store,
          same_file ∙ ap (λ (n : ℕ). record f { data_hold_count = n }) (omega arith),
        )

    -- For a valid file whose data are evicted, a tiered copy with its inode number and its length of which
    -- no pread fails, an offset within the file and a file below 2^63 bytes: either `read` returns with STATUS_OK, copies
    -- out the bytes of the tiered copy, and leaves the file resident and valid, or UnEvict, which it
    -- calls, returns with STATUS_INTERNAL_ERROR, and a put was refused on the way
    -- to the store that it leaves.
    pub read-evicted :
        (t : TieredInFile)
        → t.inode_num ≡ f.meta.handle
        → f.meta.file_total_size ≡ length t.content
        → ((offset : ℕ) → t.pread_fails offset ≡ false)
        → f.meta.eviction_state ≡ data_evicted
        → agent f.meta.handle ≡ some t
        → ((r : Fetched K.State) × (read K layout now agent f s offset len true ≡ some r)
            × FetchDone f.meta.file_total_size (λ i. at t.content i) offset len r
            × (r.file.meta.eviction_state ≡ resident)
            × FileIsValid K r.file r.store)
          ⊎ BackRefused (record f { data_hold_count = f.data_hold_count + 1 }) s
    unfolding hold_data release_data held
    read-evicted t same_inode same_size reads away found =
        let (status, f', s', e, d) =
          un_evict-BackDone K layout now held s held-valid t same_inode same_size reads agent
            found in
        elim d.outcome [
          | inl (good, same_meta, v', back) ↦
              let (r, e', good', count, laid, bytes, same_store, same_file, valid) =
                read_held-done f' s' v' offset amount (omega arith) in
              let same_chunk : f'.meta.file_chunk_size ≡ f.meta.file_chunk_size =
                ap (λ (m : MetaData). m.file_chunk_size) same_meta in
              inl (
                r,
                read-after_hold f f' s s' offset len
                      (hold-evicted f.meta.eviction_state held f' s s' status away e)
                    ∙ ap (λ (n : ℕ). read_held K layout now agent f' s' offset n) limited
                    ∙ e',
                record {
                  status = good';
                  amount = count;
                  all_laid = laid ∙ sym count;
                  bytes = λ j lo.
                      bytes j (omega (arith, lo, count))
                      ∙ rw (d.same_handle, same_chunk, back (offset + j))
                          (ground (arith, lo, count));
                },
                ap (λ (g : LogFsFile). g.meta.eviction_state) same_file
                    ∙ ap (λ (m : MetaData). m.eviction_state) same_meta,
                valid,
              )
          | inr (bad, why) ↦ inr (record {
            f' = f';
            s' = s';
            returns = e ∙ ap (λ (st : Status). some (st, f', s')) bad;
            refused = why;
          })
        ]
