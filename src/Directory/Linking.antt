-- ===== src/Directory/Linking.antt =====
-- create, link and remove of LogFSFile (src/KVFSFile.cc), over a directory that has the entries of a
-- map: the entry, the count of links and the inode record.
use kvfs_ra_testing.Base.{
  ℕ, ◌+◌, ◌-◌, ◌%◌, ◌^◌, ◌≡◌, ◌⊎◌, inl, inr, refl, sym, ap, subst, ◌∙◌, Bool, true, false, none,
  some, Bytes, Bool-cases, Option-cases,
}
use kvfs_ra_testing.Status.{Status, ok, internal_error, is_ok, is_ok-ok, is_ok-error}
use kvfs_ra_testing.Key.{inode_key}
use kvfs_ra_testing.Store.{KvStore, Run, run_nothing, run_put, run-trans}
use kvfs_ra_testing.Meta.{ifreg, type_from_mode}
use kvfs_ra_testing.File.{MetaLayout, LogFsFile, write_to_log}
use kvfs_ra_testing.File.Write.{update_c_time, update_m_time}
use kvfs_ra_testing.Directory
use kvfs_ra_testing.Directory.{
  Directory, get_partition, Created, add_link, drop_link, init_meta, is_dir, link_meta,
  create_inode, create, remove, link, link_inodes, is_reg,
}
use kvfs_ra_testing.Partition.{LogFsDirectoryPartition}
use kvfs_ra_testing.Partition.Names.{name_find}
use kvfs_ra_testing.Partition.Entries.{IsLoaded}
use kvfs_ra_testing.Directory.Names.{
  DirMap, insert, erase, map_insert, map_remove, map_op, dir_op, dir_op-map_op, Represents,
}

module _ (K : KvStore) (layout : MetaLayout) where
  -- A put of the inode of an object, as it is now, was refused on the way to a store.
  pub record InodeRefused (f : LogFsFile) (s' : K.State) : Type 0 where
    pub before : K.State
    pub refused : (K.put before (inode_key f.handle) (layout.bytes f.meta)).0 ≡ false
    pub after : Run K (K.put before (inode_key f.handle) (layout.bytes f.meta)).1 s'

  write_to_log-Run : (f : LogFsFile) (s : K.State) → Run K s (write_to_log K layout f s).1
  unfolding write_to_log
  write_to_log-Run f s = elim (Bool-cases (K.put s (inode_key f.handle) (layout.bytes f.meta)).0) [
    | inl done ↦ rw (write_to_log, done) (run_put s _ _ run_nothing)
    | inr full ↦ rw (write_to_log, full) (run_put s _ _ run_nothing)
  ]

  -- What writeToLog returns for a file, by whether the put is done.
  pub write_to_log-cases :
      (f : LogFsFile) (s : K.State)
      → ((write_to_log K layout f s).0 ≡ ok)
          × (K.get (write_to_log K layout f s).1 (inode_key f.handle) ≡ some (layout.bytes f.meta))
        ⊎ ((write_to_log K layout f s).0 ≡ internal_error)
          × InodeRefused f (write_to_log K layout f s).1
  unfolding write_to_log
  write_to_log-cases f s =
      elim (Bool-cases (K.put s (inode_key f.handle) (layout.bytes f.meta)).0) [
        | inl done ↦
            inl (rw (write_to_log, done) refl, rw (write_to_log, done) (K.get-put_self s _ _ done))
        | inr full ↦ inr (
          rw (write_to_log, full) refl,
          record { before = s; refused = full; after = rw (write_to_log, full) run_nothing },
        )
      ]

module _ (K : KvStore) (layout : MetaLayout) (hash : Bytes → ℕ) where
  -- What `create` leaves of a regular file.
  pub record Made (child : Directory) (map : DirMap) (c : Created K layout hash) : Type 0 where
    pub parent_names :
        Represents K layout hash c.parent
          (map_op (insert child.file.handle child.file.name_string) map).1
    pub outcome :
        ((old : ℕ) × (map child.file.name_string ≡ some old) × (c.status ≡ internal_error))
        ⊎ ((map child.file.name_string ≡ none)
            × (c.child.file.meta.n_link ≡ 1)
            × (c.child.file.meta.type ≡ ifreg)
            × (((c.status ≡ ok)
                  × (K.get c.store (inode_key child.file.handle)
                      ≡ some (layout.bytes c.child.file.meta)))
                ⊎ ((c.status ≡ internal_error) × InodeRefused K layout c.child.file c.store)))

  status-present :
      (handle : ℕ) (name : Bytes) (map : DirMap) (old : ℕ)
      → map name ≡ some old
      → (map_op (insert handle name) map).0 ≡ internal_error
  unfolding map_op map_insert
  status-present handle name map old there = rw (map_op, there) refl

  status-missing :
      (handle : ℕ) (name : Bytes) (map : DirMap)
      → map name ≡ none
      → (map_op (insert handle name) map).0 ≡ ok
  unfolding map_op map_insert
  status-missing handle name map missing = rw (map_op, missing) refl

  -- For a directory in memory that has the entries of a map, and a new object whose mode is that of a
  -- regular file: `create` returns. If the name is there it returns STATUS_INTERNAL_ERROR and the
  -- entries stay as they are; otherwise the entry is inserted, and the object is a regular file with
  -- one link, and either STATUS_OK, and its inode is in the store, or STATUS_INTERNAL_ERROR, and the put
  -- of its inode was refused.
  pub create-Made :
      (child parent : Directory) (map : DirMap) (s : K.State) (user_id group_id now : ℕ)
      → Represents K layout hash parent map
      → type_from_mode child.file.mode child.file.meta.type ≡ ifreg
      → (c : Created K layout hash) × (create K layout hash child parent s user_id group_id now
          ≡ some c)
        × Made child map c
  unfolding create init_meta is_dir create_inode link_meta add_link dir_op map_op map_insert
  create-Made child parent map s user_id group_id now r regular =
      let name = child.file.name_string in
      let fresh : Directory = record child { file = init_meta user_id group_id now child.file } in
      let (d', s', e, r') =
        dir_op-map_op K layout hash (insert child.file.handle name) parent map s r in
      let linked : LogFsFile = (link_meta fresh).file in
      elim (Option-cases (map name)) [
        | inr (old, there) ↦
            let failed : Directory.insert_entry K layout hash parent s child.file.handle name
                ≡ some (internal_error, d', s') =
              e
              ∙ ap (λ (st : Status). some (st, d', s'))
                  (status-present child.file.handle name map old there) in
            (
              record { status = internal_error; child = fresh; parent = d'; store = s' },
              rw (create, failed, is_ok-error internal_error refl) refl,
              record { parent_names = r'; outcome = inl (old, there, refl) },
            )
        | inl missing ↦
            let done : Directory.insert_entry K layout hash parent s child.file.handle name
                ≡ some (ok, d', s') =
              e
              ∙ ap (λ (st : Status). some (st, d', s'))
                  (status-missing child.file.handle name map missing) in
            (
              record {
                status = (write_to_log K layout linked s').0;
                child = link_meta fresh;
                parent = d';
                store = (write_to_log K layout linked s').1;
              },
              rw (create, done, is_ok-ok ok refl, init_meta, regular) refl,
              record {
                parent_names = r';
                outcome = inr (missing, refl, regular, write_to_log-cases K layout linked s');
              },
            )
      ]

  -- For a directory in memory that has the entries of a map: `remove` returns, with the status that the
  -- map's removal has, and the directory then has the entries that the map has. If the name is there the
  -- status is STATUS_OK and the object has one link less, in 32 bits; otherwise the status is
  -- STATUS_INTERNAL_ERROR and the object stays as it is.
  pub remove-map_op :
      (parent : Directory) (f : LogFsFile) (map : DirMap) (s : K.State) (name : Bytes)
      → Represents K layout hash parent map
      → (status : Status) × (f' : LogFsFile) × (parent' : Directory) × (s' : K.State)
        × (Directory.remove K layout hash parent f s name ≡ some (status, f', parent', s'))
        × (status ≡ (map_op (erase f.handle name) map).0)
        × Represents K layout hash parent' (map_op (erase f.handle name) map).1
        × (((old : ℕ) × (map name ≡ some old)
              × (status ≡ ok)
              × (f'.meta.n_link ≡ (f.meta.n_link + (2 ^ 32 - 1)) % 2 ^ 32))
            ⊎ ((map name ≡ none) × (status ≡ internal_error) × (f' ≡ f)))
  unfolding Directory.remove dir_op map_op map_remove drop_link is_ok
  remove-map_op parent f map s name r =
      let (d', s', e, r') = dir_op-map_op K layout hash (erase f.handle name) parent map s r in
      elim (Option-cases (map name)) [
        | inr (old, there) ↦ (
          ok,
          record f { meta = drop_link f.meta },
          d',
          s',
          rw (Directory.remove, e, map_op, there) refl,
          rw (map_op, there) refl,
          r',
          inl (old, there, refl, refl),
        )
        | inl missing ↦ (
          internal_error,
          f,
          d',
          s',
          rw (Directory.remove, e, map_op, missing) refl,
          rw (map_op, missing) refl,
          r',
          inr (missing, refl, refl),
        )
      ]

  get_partition-file :
      (b : Bool) (d : Directory) (g : LogFsFile)
      → get_partition b (record d { file = g }) ≡ get_partition b d
  unfolding get_partition
  get_partition-file true d g = refl
  get_partition-file false d g = refl

  -- The entries do not depend on the file.
  Represents-file :
      (d : Directory) (g : LogFsFile) (map : DirMap)
      → Represents K layout hash d map
      → Represents K layout hash (record d { file = g }) map
  Represents-file d g map r = record {
    loaded = λ b. subst (IsLoaded K) (sym (get_partition-file b d g)) (r.loaded b);
    same = λ name.
        ap (λ (p : LogFsDirectoryPartition). name_find name p.entries_by_name)
          (get_partition-file _ d g)
        ∙ r.same name;
  }

  is_reg-regular : (f : LogFsFile) → f.meta.type ≡ ifreg → is_reg K layout hash f.meta.type ≡ true
  unfolding is_reg
  is_reg-regular f regular = rw regular refl

  -- For a directory in memory that has the entries of a map, and a regular file: `link` returns. If the
  -- name is there it returns STATUS_INTERNAL_ERROR, and the entries and the file stay as they are;
  -- otherwise the entry is inserted, the file has one link more, and the status is STATUS_OK, or it
  -- is STATUS_INTERNAL_ERROR, and the put of the directory's inode was refused.
  pub link-map_op :
      (dir : Directory) (f : LogFsFile) (map : DirMap) (s : K.State) (name : Bytes) (now : ℕ)
      → Represents K layout hash dir map
      → f.meta.type ≡ ifreg
      → (status : Status) × (f' : LogFsFile) × (dir' : Directory) × (s' : K.State) × (Directory.link
            K layout hash dir f s name now
          ≡ some (status, f', dir', s'))
        × Represents K layout hash dir' (map_op (insert f.handle name) map).1
        × (((old : ℕ) × (map name ≡ some old) × (status ≡ internal_error) × (f' ≡ f))
            ⊎ ((map name ≡ none)
                × (f'.meta.n_link ≡ (f.meta.n_link + 1) % 2 ^ 32)
                × ((status ≡ ok)
                    ⊎ ((status ≡ internal_error) × InodeRefused K layout dir'.file s'))))
  unfolding Directory.link link_inodes is_reg add_link update_c_time update_m_time dir_op map_op
      map_insert
  link-map_op dir f map s name now r regular =
      let (d', s', e, r') = dir_op-map_op K layout hash (insert f.handle name) dir map s r in
      elim (Option-cases (map name)) [
        | inr (old, there) ↦
            let failed : Directory.insert_entry K layout hash dir s f.handle name
                ≡ some (internal_error, d', s') =
              e
              ∙ ap (λ (st : Status). some (st, d', s'))
                  (status-present f.handle name map old there) in
            (
              internal_error,
              f,
              d',
              s',
              rw (Directory.link, failed, is_ok-error internal_error refl) refl,
              r',
              inl (old, there, refl, refl),
            )
        | inl missing ↦
            let done : Directory.insert_entry K layout hash dir s f.handle name
                ≡ some (ok, d', s') =
              e
              ∙ ap (λ (st : Status). some (st, d', s'))
                  (status-missing f.handle name map missing) in
            let result = link_inodes K layout hash d' f s' now in
            (
              result.0,
              result.1,
              result.2,
              result.3,
              rw (Directory.link, done, is_ok-ok ok refl, is_reg-regular f regular) refl,
              Represents-file d' _ _ r',
              inr (
                missing,
                refl,
                elim (write_to_log-cases K layout
                    (record d'.file { meta = update_m_time now (update_c_time now d'.file.meta) })
                    s') [
                      | inl (good, stored) ↦ inl good
                      | inr (bad, why) ↦ inr (
                        bad,
                        record {
                          before = why.before;
                          refused = why.refused;
                          after = run-trans why.after (write_to_log-Run K layout _ _);
                        },
                      )
                    ],
              ),
            )
      ]
