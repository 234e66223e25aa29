-- ===== src/File/Resize/Truncate.antt =====
-- SetSize: a file is cut off or extended with zeros.
use kvfs_ra_testing.Base.{
  ℕ, ◌%◌, ◌^◌, ◌≡◌, ◌⊎◌, inl, inr, refl, ap, ◌∙◌, true, false, some, ◌&&◌, arith, ltb, ◌==◌,
  if◌then◌else◌,
}
use kvfs_ra_testing.Status.{Status, ok, internal_error, is_ok-ok, is_ok-error}
use kvfs_ra_testing.Key.{inode_key}
use kvfs_ra_testing.Store.{KvStore, Refused, Refused-put, Refused-after}
use kvfs_ra_testing.Meta.{MetaData}
use kvfs_ra_testing.File.{MetaLayout, LogFsFile, read_from_log}
use kvfs_ra_testing.File.Content.{byte_at, chunk_at-put_inode, byte_at-put_inode}
use kvfs_ra_testing.File.Valid.{FileIsValid}
use kvfs_ra_testing.File.Write.Result.{flush_cases}
use kvfs_ra_testing.File.Resize.{open_file, stat, stat_of, resize_data, resize_file, set_size}
use kvfs_ra_testing.File.Resize.Round.{Removes}
use kvfs_ra_testing.File.Resize.Loop.{DataResized, resize_data-DataResized}

module _ (K : KvStore) (layout : MetaLayout) where
  -- The inode in the store is that of the object.
  pub record InodeIsStored (f : LogFsFile) (s : K.State) : Type 0 where
    pub stored : K.get s (inode_key f.handle) ≡ some (layout.bytes f.meta)
    pub same_fs : f.meta.fs_id ≡ f.fs_id

  module _ (f : LogFsFile) (s : K.State) (own : f.handle ≡ f.meta.handle)
      (st : InodeIsStored f s) where
    matches : (m : MetaData) → m ≡ f.meta → ((m.fs_id == f.fs_id) && (m.handle == f.handle)) ≡ true
    matches m e = rw e (ground (arith, st.same_fs, own))

    -- For an object whose inode is stored: `open` finds it, and leaves the object as it is.
    pub open_file-stored : open_file K layout f s ≡ some (true, f)
    unfolding open_file read_from_log
    open_file-stored =
        let same = matches (layout.overlay (layout.bytes f.meta)) (layout.overlay-bytes f.meta) in
        rw (open_file, st.stored, same, layout.overlay-bytes f.meta) refl

    -- For an object whose inode is stored: `stat` reports it, and leaves the object as it is.
    pub stat-stored : stat K layout f s ≡ (some (stat_of f.meta), f)
    unfolding stat read_from_log
    stat-stored =
        let same = matches (layout.overlay (layout.bytes f.meta)) (layout.overlay-bytes f.meta) in
        rw (stat, st.stored, same, layout.overlay-bytes f.meta) refl

  -- The file has the new size, valid and with its inode stored; the bytes below the new size are as
  -- before, and all others zero.
  pub record SizeSet (f : LogFsFile) (s : K.State) (new_size : ℕ) (f' : LogFsFile) (s' : K.State)
      : Type 0 where
    pub total : f'.meta.file_total_size ≡ new_size
    pub valid : FileIsValid K f' s'
    pub stored : InodeIsStored f' s'
    pub bytes :
        (i : ℕ)
        → byte_at K f.handle f.meta.file_chunk_size s' i
          ≡ (if ltb i new_size then byte_at K f.handle f.meta.file_chunk_size s i else 0)

  module _ (removes : Removes K) (f : LogFsFile) (s : K.State) (v : FileIsValid K f s)
      (new_size now : ℕ) where
    abbrev size : ℕ
    size = f.meta.file_chunk_size

    resized : Status × K.State
    resized = resize_data K f.handle new_size f.meta.file_total_size size f.meta.file_initial_size s

    resized-done : DataResized K removes f.handle size v.chunk_pos new_size s resized.0 resized.1
    unfolding resized
    resized-done =
        resize_data-DataResized K removes f.handle size v.chunk_pos new_size
          f.meta.file_initial_size v.no_initial f.meta.file_total_size s v.fit v.blank

    touched : LogFsFile
    touched = record f {
      meta = record f.meta {
        file_total_size = new_size;
        mtime = now % 2 ^ 32;
        mtime_nsec = 0;
        ctime = now % 2 ^ 32;
        ctime_nsec = 0;
      };
      meta_dirty = true;
    }

    put_back : K.State
    put_back = (K.put resized.1 (inode_key f.handle) (layout.bytes touched.meta)).1

    set :
        f.meta.fs_id ≡ f.fs_id
        → (K.put resized.1 (inode_key f.handle) (layout.bytes touched.meta)).0 ≡ true
        → ((i : ℕ)
            → byte_at K f.handle size resized.1 i
              ≡ (if ltb i new_size then byte_at K f.handle size s i else 0))
        → SizeSet f s new_size (record touched { meta_dirty = false }) put_back
    unfolding touched put_back
    set same_fs done bytes = record {
      total = refl;
      valid = record {
        chunk_pos = v.chunk_pos;
        chunk_u32 = v.chunk_u32;
        no_initial = v.no_initial;
        own = v.own;
        fit = record {
          fits = λ c.
              rw
                (chunk_at-put_inode K f.handle size resized.1 f.handle c
                  (layout.bytes touched.meta))
                (resized-done.fit.fits c);
        };
        blank = λ i past.
            byte_at-put_inode K f.handle size resized.1 f.handle (layout.bytes touched.meta) i
            ∙ ground (arith, bytes i);
      };
      stored = record {
        stored = K.get-put_self resized.1 (inode_key f.handle) _ done;
        same_fs = same_fs;
      };
      bytes = λ i.
          byte_at-put_inode K f.handle size resized.1 f.handle (layout.bytes touched.meta) i
          ∙ bytes i;
    }

    resize_file-SizeSet :
        f.meta.fs_id ≡ f.fs_id
        → (status : Status) × (f' : LogFsFile) × (s' : K.State) × (resize_file K layout f s new_size
              now
            ≡ (status, f', s'))
          × (((status ≡ ok) × SizeSet f s new_size f' s')
              ⊎ ((status ≡ internal_error) × Refused K s s'))
    unfolding resize_file resized touched put_back
    resize_file-SizeSet same_fs = elim resized-done.outcome [
      | inl (good, bytes) ↦ elim (flush_cases K layout touched v.own resized.1) [
        | inl (done, e) ↦ (
          ok,
          record touched { meta_dirty = false },
          put_back,
          rw (resize_file, is_ok-ok resized.0 good, e, is_ok-ok ok refl) refl,
          inl (refl, set same_fs done bytes),
        )
        | inr (full, e) ↦ (
          internal_error,
          touched,
          put_back,
          rw (resize_file, is_ok-ok resized.0 good, e, is_ok-error internal_error refl) refl,
          inr (refl, Refused-after resized-done.run (Refused-put resized.1 _ _ full)),
        )
      ]
      | inr (bad, why) ↦ (
        resized.0,
        f,
        resized.1,
        rw (resize_file, is_ok-error resized.0 bad) refl,
        inr (bad, why),
      )
    ]

    -- For a valid file whose inode is stored, on a store that removes: `SetSize` returns, and either
    -- STATUS_OK, and it does what SizeSet says, or STATUS_INTERNAL_ERROR, and a put was refused on the way
    -- to the store that it leaves.
    pub set_size-SizeSet :
        InodeIsStored f s
        → (status : Status) × (f' : LogFsFile) × (s' : K.State) × (set_size K layout f s new_size
              now
            ≡ some (status, f', s'))
          × (((status ≡ ok) × SizeSet f s new_size f' s')
              ⊎ ((status ≡ internal_error) × Refused K s s'))
    unfolding set_size
    set_size-SizeSet st =
        let (status, f', s', e, done) = resize_file-SizeSet st.same_fs in
        (status, f', s', rw (set_size, open_file-stored f s v.own st) (ap some e), done)
