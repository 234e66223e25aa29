-- ===== src/Directory/Closing.antt =====
-- LogFSFile::close (src/KVFSFile.cc): what is left of a file without links.
use kvfs_ra_testing.Base.{
  ℕ, ◌≡◌, ◌⊎◌, inl, inr, refl, sym, ap, subst, ◌∙◌, Bool, true, ◌&&◌, none, some, ◌==◌, Ensures,
  Ensures-some, Ensures-none, Ensures-bind, Ensures-if, if-both, Option-cases, arith, ◌/◌,
}
use kvfs_ra_testing.Status.{Status, internal_error}
use kvfs_ra_testing.Key.{inode_key, chunk_key}
use kvfs_ra_testing.Key.Distinct.{inode_key-ne-chunk_key}
use kvfs_ra_testing.Store.{KvStore, Refused}
use kvfs_ra_testing.Meta.{MetaData}
use kvfs_ra_testing.File.{MetaLayout, LogFsFile, flush, read_from_log}
use kvfs_ra_testing.File.Content.{byte_at, chunk_at}
use kvfs_ra_testing.File.Valid.{FileIsValid}
use kvfs_ra_testing.File.Resize.{open_file, resize_file, set_size}
use kvfs_ra_testing.File.Resize.Round.{Removes}
use kvfs_ra_testing.File.Resize.Truncate.{InodeIsStored, set_size-SizeSet}
use kvfs_ra_testing.Directory.{close, remove_inode_from_kvs}

module _ (K : KvStore) (layout : MetaLayout) where
  -- A result of a method, in which the object has this handle.
  abbrev HasHandle : ℕ → Status × LogFsFile × K.State → Type 0
  HasHandle handle r = r.1.handle ≡ handle

  flush-handle : (f : LogFsFile) (s : K.State) → HasHandle f.handle (flush K layout f s)
  unfolding flush
  flush-handle f s =
      if-both (HasHandle f.handle) (f.handle == f.meta.handle) _ _
        (if-both (HasHandle f.handle) _ _ _ refl refl) refl

  resize_file-handle :
      (f : LogFsFile) (s : K.State) (new_size now : ℕ)
      → HasHandle f.handle (resize_file K layout f s new_size now)
  unfolding resize_file
  resize_file-handle f s new_size now =
      if-both (HasHandle f.handle) _ _ _
        (if-both (λ (g : LogFsFile). g.handle ≡ f.handle) _ _ _ (flush-handle _ _)
          (flush-handle _ _))
        refl

  open_file-handle :
      (f : LogFsFile) (s : K.State)
      → Ensures (λ (r : Bool × LogFsFile). r.1.handle ≡ f.handle) (open_file K layout f s)
  unfolding open_file
  open_file-handle f s = elim (Option-cases (read_from_log K layout f s)) [
    | inl absent ↦ rw (open_file, absent) (Ensures-some _ _ refl)
    | inr (value, found) ↦
        rw (open_file, found) (Ensures-if _ _ _ _ (Ensures-some _ _ refl) (Ensures-none _))
  ]

  set_size-handle :
      (f : LogFsFile) (s : K.State) (new_size now : ℕ)
      → Ensures (HasHandle f.handle) (set_size K layout f s new_size now)
  unfolding set_size
  set_size-handle f s new_size now =
      Ensures-bind (λ (r : Bool × LogFsFile). r.1.handle ≡ f.handle) (HasHandle f.handle) _ _
        (open_file-handle f s)
        (λ (found, f') same. Ensures-some (HasHandle f.handle) _ (
          if-both (HasHandle f.handle) found _ _ (resize_file-handle f' s new_size now ∙ same)
            same))

  -- `open` finds an inode that is the file's own.
  pub open_file-own :
      (f : LogFsFile) (s : K.State) (meta : MetaData)
      → K.get s (inode_key f.handle) ≡ some (layout.bytes meta)
      → meta.fs_id ≡ f.fs_id
      → meta.handle ≡ f.handle
      → open_file K layout f s ≡ some (true, record f { meta = meta })
  unfolding open_file read_from_log
  open_file-own f s meta stored fs own =
      let same : ((meta.fs_id == f.fs_id) && (meta.handle == f.handle)) ≡ true =
        rw (fs, own) (ground arith) in
      simp (open_file, stored, layout.overlay-bytes meta, same) refl

  -- `close` returns for a file whose inode in the store is its own.
  pub close-returns :
      (f : LogFsFile) (s : K.State) (now : ℕ) (meta : MetaData)
      → f.meta.n_link ≡ 0
      → K.get s (inode_key f.handle) ≡ some (layout.bytes meta)
      → meta.fs_id ≡ f.fs_id
      → meta.handle ≡ f.handle
      → (g : LogFsFile) × (s' : K.State) × (close K layout f s now ≡ some (g, s'))
  unfolding close set_size
  close-returns f s now meta unlinked stored fs own =
      let zero_links : (f.meta.n_link == 0) ≡ true = ground (arith, unlinked) in
      let resized = resize_file K layout (record f { meta = meta }) s 0 now in
      (
        resized.1,
        remove_inode_from_kvs K layout resized.1 resized.2,
        rw (close, zero_links, set_size, open_file-own f s meta stored fs own) refl,
      )

  module _ (removes : Removes K) where
    remove_inode-gone :
        (f : LogFsFile) (s : K.State)
        → K.get (remove_inode_from_kvs K layout f s) (inode_key f.handle) ≡ none
    unfolding remove_inode_from_kvs
    remove_inode-gone f s =
        K.get-remove_self s (inode_key f.handle) (removes s (inode_key f.handle))

    -- For a file without links, on a store that removes: if `close` returns, the store has no inode
    -- under the handle.
    pub close-gone :
        (f : LogFsFile) (s : K.State) (now : ℕ)
        → f.meta.n_link ≡ 0
        → Ensures
            (λ (r : LogFsFile × K.State). K.get r.1 (inode_key f.handle) ≡ none)
            (close K layout f s now)
    unfolding close
    close-gone f s now unlinked =
        let zero_links : (f.meta.n_link == 0) ≡ true = ground (arith, unlinked) in
        rw (close, zero_links)
          (Ensures-bind (HasHandle f.handle) _ _ _ (set_size-handle f s 0 now)
            (λ (status, f', s') same. Ensures-some _ _ (
              subst (λ (h : ℕ). K.get (remove_inode_from_kvs K layout f' s') (inode_key h) ≡ none)
                same (remove_inode-gone f' s'))))

    byte_at-remove_inode :
        (handle size : ℕ) (f : LogFsFile) (s : K.State) (i : ℕ)
        → byte_at K handle size (remove_inode_from_kvs K layout f s) i ≡ byte_at K handle size s i
    unfolding byte_at chunk_at remove_inode_from_kvs
    byte_at-remove_inode handle size f s i = rw (
        K.get-remove_ne s (inode_key f.handle) (chunk_key handle (i / size))
          (λ e. inode_key-ne-chunk_key f.handle handle (i / size) (sym e)))

    -- For a valid file without links whose inode is stored, on a store that removes: `close` returns,
    -- the store has no inode under the handle, and all bytes of the file read as zeros, or SetSize to
    -- 0, which it calls, returns with STATUS_INTERNAL_ERROR, and a put was refused on the way to the store
    -- that SetSize leaves.
    pub close-Erased :
        (f : LogFsFile) (s : K.State) (now : ℕ)
        → FileIsValid K f s
        → InodeIsStored K layout f s
        → f.meta.n_link ≡ 0
        → (f' : LogFsFile) × (s' : K.State) × (close K layout f s now ≡ some (f', s'))
          × (K.get s' (inode_key f.handle) ≡ none)
          × (((i : ℕ) → byte_at K f.handle f.meta.file_chunk_size s' i ≡ 0)
              ⊎ ((s'' : K.State) × (set_size K layout f s 0 now ≡ some (internal_error, f', s''))
                  × Refused K s s''))
    unfolding close remove_inode_from_kvs
    close-Erased f s now v st unlinked =
        let (status, f', s', e, done) = set_size-SizeSet K layout removes f s v 0 now st in
        let zero_links : (f.meta.n_link == 0) ≡ true = ground (arith, unlinked) in
        let closed : close K layout f s now ≡ some (f', remove_inode_from_kvs K layout f' s') =
          rw (close, zero_links, e) refl in
        (
          f',
          remove_inode_from_kvs K layout f' s',
          closed,
          close-gone f s now unlinked (f', remove_inode_from_kvs K layout f' s') closed,
          elim done [
            | inl (good, set) ↦ inl (λ i.
                byte_at-remove_inode f.handle f.meta.file_chunk_size f' s' i
                ∙ ground (arith, set.bytes i))
            | inr (bad, why) ↦ inr (s', e ∙ ap (λ (st : Status). some (st, f', s')) bad, why)
          ],
        )
