-- ===== src/Examples/Files.antt =====
-- The theorems about files at a file of three bytes in chunks of four.
use kvfs_ra_testing.Base.{
  ℕ, ◌+◌, ◌-◌, ◌*◌, ◌/◌, ◌%◌, ◌≤◌, ◌<◌, ◌≡◌, ◌⊎◌, inl, inr, refl, sym, ap, ◌∙◌, true, false, Option,
  none, some, [], ◌∷◌, Bytes, at, take, ltb, Bool-cases, arith, get_or-nil, get_or-beyond,
}
use kvfs_ra_testing.Status.{Status, ok, internal_error}
use kvfs_ra_testing.Key.{inode_key, chunk_key}
use kvfs_ra_testing.Store.{KvStore, Refused}
use kvfs_ra_testing.Store.Table.{
  table_store, empty_store, get-empty_store, put-empty_store, put-put_empty_store,
  table_store-removes,
}
use kvfs_ra_testing.Meta.{resident, data_evicted, new_meta}
use kvfs_ra_testing.File.{LogFsFile}
use kvfs_ra_testing.File.Content.{
  byte_at, chunk_at, ChunksFit, Changed, put-Changed, Changed-ChunksFit, chunk_at-put_inode,
  byte_at-put_inode, byte_at-Changed_in, byte_at-Changed_out,
}
use kvfs_ra_testing.File.Valid.{FileIsValid}
use kvfs_ra_testing.File.Write.{Written, write}
use kvfs_ra_testing.File.Write.Result.{WriteDone, write-WriteDone}
use kvfs_ra_testing.File.Write.Data.{DataDone, write-DataDone}
use kvfs_ra_testing.File.Hold.{TieredInFile, un_evict}
use kvfs_ra_testing.File.Hold.Resident.{BackDone, un_evict-BackDone}
use kvfs_ra_testing.File.Fetch.{Fetched, read}
use kvfs_ra_testing.File.Fetch.Content.{FetchDone, BackRefused, read-resident, read-evicted}
use kvfs_ra_testing.File.Fetch.Written.{read-after-write}
use kvfs_ra_testing.File.Resize.{set_size, evict}
use kvfs_ra_testing.File.Resize.Truncate.{InodeIsStored, SizeSet, set_size-SizeSet}
use kvfs_ra_testing.File.Resize.Away.{Evicted, evict-Evicted, read-after-evict}
use kvfs_ra_testing.Examples.Layout.{layout}

abbrev K : KvStore
K = table_store

-- Inode 5 of file system 1, three bytes in chunks of four.
unfoldable pub small_file : LogFsFile
unfolding new_meta
small_file = record {
  fs_id = 1;
  handle = 5;
  name_string = [];
  meta = record (new_meta 0 4) { fs_id = 1; handle = 5; file_total_size = 3; n_link = 1 };
  mode = 0o100644;
  meta_dirty = false;
  data_hold_count = 0;
}

abbrev empty : K.State
empty = empty_store 100

abbrev contents : Bytes
contents = 1 ∷ 2 ∷ 3 ∷ []

pub with_chunk : K.State
with_chunk = (K.put empty (chunk_key 5 0) contents).1

pub with_inode : K.State
with_inode = (K.put with_chunk (inode_key 5) (layout.bytes small_file.meta)).1

empty-chunk_at : (c : ℕ) → chunk_at K 5 4 empty c ≡ []
unfolding chunk_at
empty-chunk_at c = rw (get-empty_store 100 (chunk_key 5 c)) refl

chunk-Changed : Changed K 5 4 empty with_chunk 0 contents
unfolding with_chunk
chunk-Changed = put-Changed K 5 4 empty 0 contents (put-empty_store 99 _ _)

with_chunk-blank : (i : ℕ) → 3 ≤ i → byte_at K 5 4 with_chunk i ≡ 0
unfolding byte_at
with_chunk-blank i past = elim (Bool-cases (ltb i 4)) [
  | inl inside ↦
      byte_at-Changed_in K 5 4 (omega arith) empty with_chunk 0 i contents chunk-Changed
        (omega arith) (ground (arith, inside))
      ∙ get_or-beyond contents (i - 0 * 4) 0 (omega arith)
  | inr outside ↦
      byte_at-Changed_out K 5 4 (omega arith) empty with_chunk 0 i contents chunk-Changed
        (inr (ground (arith, outside)))
      ∙ rw (empty-chunk_at (i / 4)) (get_or-nil (i % 4) 0)
]

pub stored_with : (v : Bytes) → K.get (K.put with_chunk (inode_key 5) v).1 (inode_key 5) ≡ some v
unfolding with_chunk
stored_with v = K.get-put_self with_chunk (inode_key 5) v (put-put_empty_store 98 _ _ _ _)

pub with_inode-stored : InodeIsStored K layout small_file with_inode
unfolding with_inode new_meta small_file
with_inode-stored = record { stored = stored_with (layout.bytes small_file.meta); same_fs = refl }

-- The chunks with any inode record.
pub fit_with : (v : Bytes) → ChunksFit K 5 4 (K.put with_chunk (inode_key 5) v).1
fit_with v = record {
  fits = λ c. rw (chunk_at-put_inode K 5 4 with_chunk 5 c v) (
      (Changed-ChunksFit K 5 4 chunk-Changed (omega arith)
          (record { fits = λ d. rw (empty-chunk_at d) (omega arith) })).fits
        c);
}

pub blank_with :
    (v : Bytes) (i : ℕ) → 3 ≤ i → byte_at K 5 4 (K.put with_chunk (inode_key 5) v).1 i ≡ 0
blank_with v i past = byte_at-put_inode K 5 4 with_chunk 5 v i ∙ with_chunk-blank i past

pub small_file-FileIsValid : FileIsValid K small_file with_inode
unfolding with_inode new_meta small_file
small_file-FileIsValid = record {
  chunk_pos = omega arith;
  chunk_u32 = omega arith;
  no_initial = refl;
  own = refl;
  fit = fit_with (layout.bytes small_file.meta);
  blank = blank_with (layout.bytes small_file.meta);
}

abbrev pub no_agent : ℕ → Option TieredInFile
no_agent inode_num = none

-- A write of five bytes at offset 2, over the end of a chunk and of the file.
write-WriteDone_example :
    (r : Written K.State) × (write K layout small_file with_inode 2 5
        (some (7 ∷ 8 ∷ 9 ∷ 10 ∷ 11 ∷ []))
        true
        100
      ≡ some r)
    × WriteDone K layout small_file with_inode small_file-FileIsValid.chunk_pos 2 5
        (7 ∷ 8 ∷ 9 ∷ 10 ∷ 11 ∷ [])
        r
write-WriteDone_example =
    write-WriteDone K layout small_file with_inode small_file-FileIsValid 2 5
      (7 ∷ 8 ∷ 9 ∷ 10 ∷ 11 ∷ []) (omega arith) 100

-- Reading back what is written at offset 2.
read-after-write_example :
    (w : Written K.State) × (write K layout small_file with_inode 2 5
        (some (7 ∷ 8 ∷ 9 ∷ 10 ∷ 11 ∷ []))
        true
        100
      ≡ some w)
    × (((w.status ≡ ok)
          × (r : Fetched K.State) × (read K layout 200 no_agent w.file w.store 2 5 true ≡ some r)
          × (r.actual_len ≡ 5)
          × (r.out ≡ take 5 (7 ∷ 8 ∷ 9 ∷ 10 ∷ 11 ∷ [])))
        ⊎ ((w.status ≡ internal_error) × Refused K with_inode w.store))
unfolding small_file new_meta
read-after-write_example =
    read-after-write K layout 100 200 no_agent small_file with_inode small_file-FileIsValid 2 5
      (7 ∷ 8 ∷ 9 ∷ 10 ∷ 11 ∷ []) (omega arith) refl (omega arith) (omega arith)

-- A read of ten bytes at offset 1, of which the file has two.
read-resident_example :
    (r : Fetched K.State) × (read K layout 100 no_agent small_file with_inode 1 10 true ≡ some r)
    × FetchDone K layout 100 no_agent 3 (λ i. byte_at K 5 4 with_inode i) 1 10 r
    × (r.store ≡ with_inode)
    × (r.file ≡ small_file)
unfolding small_file new_meta
read-resident_example =
    read-resident K layout 100 no_agent small_file with_inode small_file-FileIsValid 1 10
      (omega arith) (omega arith) refl

-- A write without the inode, within the file.
write-DataDone_example :
    (r : Written K.State) × (write K layout small_file with_inode 1 2 (some (8 ∷ 9 ∷ [])) false 100
      ≡ some r)
    × DataDone K layout small_file with_inode small_file-FileIsValid.chunk_pos 1 2 (8 ∷ 9 ∷ []) r
unfolding small_file new_meta
write-DataDone_example =
    write-DataDone K layout small_file with_inode small_file-FileIsValid 1 2 (8 ∷ 9 ∷ [])
      (omega arith) (omega arith) 100

away_file : LogFsFile
unfolding small_file new_meta
away_file = record small_file { meta = record small_file.meta { eviction_state = data_evicted } }

away_file-FileIsValid : FileIsValid K away_file with_inode
unfolding small_file new_meta away_file
away_file-FileIsValid =
    let v = small_file-FileIsValid in
    record {
      chunk_pos = v.chunk_pos;
      chunk_u32 = v.chunk_u32;
      no_initial = v.no_initial;
      own = v.own;
      fit = v.fit;
      blank = v.blank;
    }

abbrev tiered : TieredInFile
tiered = record { inode_num = 5; content = 4 ∷ 5 ∷ 6 ∷ []; pread_fails = λ offset. false }

abbrev one_agent : ℕ → Option TieredInFile
one_agent inode_num = some tiered

un_evict-BackDone_example :
    (status : Status) × (f' : LogFsFile) × (s' : K.State) × (un_evict K layout 100 one_agent
        away_file with_inode
      ≡ some (status, f', s'))
    × BackDone K layout 100 away_file with_inode tiered status f' s'
unfolding away_file small_file new_meta
un_evict-BackDone_example =
    un_evict-BackDone K layout 100 away_file with_inode away_file-FileIsValid tiered refl refl
      (λ offset. refl) one_agent refl

read-evicted_example :
    ((r : Fetched K.State) × (read K layout 100 one_agent away_file with_inode 0 3 true ≡ some r)
      × FetchDone K layout 100 one_agent 3 (λ i. at (4 ∷ 5 ∷ 6 ∷ []) i) 0 3 r
      × (r.file.meta.eviction_state ≡ resident)
      × FileIsValid K r.file r.store)
    ⊎ BackRefused K layout 100 one_agent
        (record away_file { data_hold_count = away_file.data_hold_count + 1 })
        with_inode
unfolding away_file small_file new_meta
read-evicted_example =
    read-evicted K layout 100 one_agent away_file with_inode away_file-FileIsValid 0 3 (omega arith)
      (omega arith) tiered refl refl (λ offset. refl) refl refl

-- Cut to one byte.
set_size-SizeSet_example :
    (status : Status) × (f' : LogFsFile) × (s' : K.State) × (set_size K layout small_file with_inode
        1 100
      ≡ some (status, f', s'))
    × (((status ≡ ok) × SizeSet K layout small_file with_inode 1 f' s')
        ⊎ ((status ≡ internal_error) × Refused K with_inode s'))
unfolding small_file new_meta
set_size-SizeSet_example =
    set_size-SizeSet K layout table_store-removes small_file with_inode small_file-FileIsValid 1 100
      with_inode-stored

evict-Evicted_example :
    (status : Status) × (f' : LogFsFile) × (s' : K.State) × (evict K layout small_file with_inode
      ≡ (status, f', s'))
    × (((status ≡ ok) × Evicted K layout small_file f' s')
        ⊎ ((status ≡ internal_error) × Refused K with_inode s'))
evict-Evicted_example =
    evict-Evicted K layout table_store-removes small_file with_inode small_file-FileIsValid
      with_inode-stored

abbrev copied : TieredInFile
copied = record { inode_num = 5; content = contents; pread_fails = λ offset. false }

with_inode-contents : (i : ℕ) → i < 3 → at contents i ≡ byte_at K 5 4 with_inode i
unfolding with_inode
with_inode-contents i inside = sym (
    byte_at-put_inode K 5 4 with_chunk 5 (layout.bytes small_file.meta) i
    ∙ byte_at-Changed_in K 5 4 (omega arith) empty with_chunk 0 i contents chunk-Changed
        (omega arith) (omega arith)
    ∙ ap (λ (j : ℕ). at contents j) (omega arith))

abbrev copy_agent : ℕ → Option TieredInFile
copy_agent inode_num = some copied

read-after-evict_example :
    (status : Status) × (f' : LogFsFile) × (s' : K.State) × (evict K layout small_file with_inode
      ≡ (status, f', s'))
    × (((status ≡ ok)
          × (((r : Fetched K.State) × (read K layout 100 copy_agent f' s' 1 2 true ≡ some r)
                × FetchDone K layout 100 copy_agent 3 (λ i. byte_at K 5 4 with_inode i) 1 2 r
                × (r.file.meta.eviction_state ≡ resident))
              ⊎ BackRefused K layout 100 copy_agent
                  (record f' { data_hold_count = f'.data_hold_count + 1 })
                  s'))
        ⊎ ((status ≡ internal_error) × Refused K with_inode s'))
unfolding small_file new_meta
read-after-evict_example =
    read-after-evict K layout table_store-removes small_file with_inode small_file-FileIsValid
      with_inode-stored copied refl refl (λ offset. refl) with_inode-contents copy_agent refl 1 2
      100 (omega arith) (omega arith)
