-- ===== src/Directory/Names.antt =====
-- A directory of src/KVFSFile.cc as a map from names to inode numbers: insertEntry and removeEntry over
-- the two partitions do what the operations of a map do, in any sequence.
use kvfs_ra_testing.Base.{
  ℕ, ◌≡◌, inl, inr, refl, sym, ap, subst, ◌∙◌, Bool, false, Option, none, some, List, [], ◌∷◌, ◌++◌,
  Bytes, bytes_eq, if◌then◌else◌,
}
use kvfs_ra_testing.Status.{Status, ok, internal_error}
use kvfs_ra_testing.Store.{KvStore}
use kvfs_ra_testing.File.{MetaLayout}
use kvfs_ra_testing.Partition
use kvfs_ra_testing.Partition.{
  LogFsDirectoryPartition, dirty, write_to_log, insert_fresh, remove_fresh,
}
use kvfs_ra_testing.Partition.Names.{
  name_find, name_set, name_erase, name_find-set, name_find-erase,
}
use kvfs_ra_testing.Partition.Entries.{
  IsLoaded, or_zero, refresh-loaded, refreshed-loaded, write_to_log-kept, find_entry-loaded,
}
use kvfs_ra_testing.Directory.{
  Directory, get_partition, set_partition, partition_of, find_handle, status_of, insert_entry,
  remove_entry,
}
use kvfs_ra_testing.Directory.Lookup.{
  get_partition-set_partition, set_partition-get_partition, get_partition-other, different_name,
  find_handle-part, DirIsLoaded,
}

-- What a directory promises: a map from names to inode numbers.
abbrev pub DirMap : Type 0
DirMap = Bytes → Option ℕ

pub data DirOp : Type 0 where
  insert : (handle : ℕ) (name : Bytes) → DirOp
  erase : (handle : ℕ) (name : Bytes) → DirOp

-- A name is inserted if it is not there, and is erased if it is there.
unfoldable pub map_insert : Option ℕ → ℕ → Bytes → DirMap → Status × DirMap
map_insert (some old) handle name map = (internal_error, map)
map_insert none handle name map =
    (ok, λ other. if bytes_eq other name then some handle else map other)

unfoldable pub map_remove : Option ℕ → Bytes → DirMap → Status × DirMap
map_remove none name map = (internal_error, map)
map_remove (some old) name map = (ok, λ other. if bytes_eq other name then none else map other)

unfoldable pub map_op : DirOp → DirMap → Status × DirMap
map_op (insert handle name) map = map_insert (map name) handle name map
map_op (erase handle name) map = map_remove (map name) name map

unfoldable pub map_ops : List DirOp → DirMap → List Status × DirMap
map_ops [] map = ([], map)
map_ops (op ∷ ops) map =
    let (status, map') = map_op op map in
    let (statuses, map'') = map_ops ops map' in (status ∷ statuses, map'')

module _ (K : KvStore) (layout : MetaLayout) (hash : Bytes → ℕ) where
  unfoldable pub dir_op : DirOp → Directory → K.State → Option (Status × Directory × K.State)
  dir_op (insert handle name) d s = insert_entry K layout hash d s handle name
  dir_op (erase handle name) d s = remove_entry K layout hash d s handle name

  unfoldable pub dir_ops :
      List DirOp → Directory → K.State → Option (List Status × Directory × K.State)
  dir_ops [] d s = some ([], d, s)
  dir_ops (op ∷ ops) d s = elim (dir_op op d s) [
    | none ↦ none
    | some (status, d', s') ↦ elim (dir_ops ops d' s') [
      | none ↦ none
      | some (statuses, d'', s'') ↦ some (status ∷ statuses, d'', s'')
    ]
  ]

  -- The map that the partitions in memory have.
  abbrev pub map_of : Directory → DirMap
  map_of d name = name_find name (get_partition (partition_of K layout hash name) d).entries_by_name

  -- The directory is in memory, and has the entries of the map.
  pub record Represents (d : Directory) (map : DirMap) : Type 0 where
    pub loaded : DirIsLoaded K layout hash d
    pub same : (name : Bytes) → map_of d name ≡ map name

  -- findHandle of a directory that represents a map.
  pub find_handle-Represents :
      (d : Directory) (map : DirMap) (s : K.State) (name : Bytes)
      → Represents d map
      → find_handle K layout hash d s name ≡ some (or_zero (map name), d)
  find_handle-Represents d map s name r = find_handle-part K layout hash d s name _ (
      find_entry-loaded K _ s name (r.loaded (partition_of K layout hash name))
      ∙ ap (λ (o : Option ℕ). some (or_zero o, get_partition (partition_of K layout hash name) d))
          (r.same name))

  -- A partition changed at one name, put back.
  module _ (d : Directory) (map : DirMap) (r : Represents d map) (name : Bytes) where
    b : Bool
    b = partition_of K layout hash name

    part :
        (p' : LogFsDirectoryPartition) (c : Bool)
        → c ≡ b
        → get_partition c (set_partition b p' d) ≡ p'
    part p' c here =
        ap (λ (e : Bool). get_partition e (set_partition b p' d)) here
        ∙ get_partition-set_partition b p' d

    same_name :
        (entry : Option ℕ) (other : Bytes)
        → partition_of K layout hash other ≡ b
        → (if bytes_eq other name
            then entry
            else name_find other (get_partition b d).entries_by_name)
          ≡ (if bytes_eq other name then entry else map other)
    same_name entry other here =
        ap (λ (o : Option ℕ). if bytes_eq other name then entry else o)
          (ap (λ (e : Bool). name_find other (get_partition e d).entries_by_name) (sym here)
            ∙ r.same other)

    replaced :
        (p' : LogFsDirectoryPartition) (entry : Option ℕ)
        → IsLoaded K p'
        → ((other : Bytes)
            → name_find other p'.entries_by_name ≡ (
                if bytes_eq other name
                then entry
                else name_find other (get_partition b d).entries_by_name))
        → Represents
            (set_partition b p' d)
            (λ other. if bytes_eq other name then entry else map other)
    unfolding b
    replaced p' entry loaded finds = record {
      loaded = λ c. elim (get_partition-other c b p' d) [
        | inl here ↦ subst (IsLoaded K) (sym (part p' c here)) loaded
        | inr (apart, part') ↦ subst (IsLoaded K) (sym part') (r.loaded c)
      ];
      same = λ other.
          let a = partition_of K layout hash other in
          elim (get_partition-other a b p' d) [
            | inl here ↦ rw (part p' a here) (finds other ∙ same_name entry other here)
            | inr (apart, part') ↦
                let differ : bytes_eq other name ≡ false =
                  different_name K layout hash a b other name apart refl refl in
                rw (part', differ) (r.same other)
          ];
    }

    write_loaded :
        (changed : LogFsDirectoryPartition) (s : K.State) (entry : Option ℕ)
        → changed.state ≡ dirty
        → ((other : Bytes)
            → name_find other changed.entries_by_name ≡ (
                if bytes_eq other name
                then entry
                else name_find other (get_partition b d).entries_by_name))
        → Represents
            (set_partition b (write_to_log K changed s).1 d)
            (λ other. if bytes_eq other name then entry else map other)
    write_loaded changed s entry is_changed finds =
        let (kept, same) = write_to_log-kept K changed s is_changed in
        replaced (write_to_log K changed s).1 entry kept
          (λ other. ap (λ m. name_find other m) same ∙ finds other)

    -- One insertion, by whether the map has the name.
    insert-Represents :
        (handle : ℕ) (s : K.State) (old : Option ℕ)
        → map name ≡ old
        → (d' : Directory) × (s' : K.State) × (insert_entry K layout hash d s handle name
            ≡ some ((map_insert old handle name map).0, d', s'))
          × Represents d' (map_insert old handle name map).1
    unfolding insert_entry Partition.insert_entry insert_fresh status_of map_insert b
    insert-Represents handle s (some ino) e =
        let found : name_find name (get_partition b d).entries_by_name ≡ some ino =
          r.same name ∙ e in
        (
          set_partition b (get_partition b d) d,
          s,
          rw
              (
                insert_entry,
                Partition.insert_entry,
                refreshed-loaded K _ s (r.loaded b),
                insert_fresh,
                found,
              )
              refl,
          rw (set_partition-get_partition b d) r,
        )
    insert-Represents handle s none e =
        let p = get_partition b d in
        let missing : name_find name p.entries_by_name ≡ none = r.same name ∙ e in
        let changed : LogFsDirectoryPartition = record p {
          entries = p.entries ++ (name, handle) ∷ [];
          entries_by_name = name_set name handle p.entries_by_name;
          state = dirty;
        } in
        (
          set_partition b (write_to_log K changed s).1 d,
          (write_to_log K changed s).2,
          rw
              (
                insert_entry,
                Partition.insert_entry,
                refreshed-loaded K _ s (r.loaded b),
                insert_fresh,
                missing,
              )
              refl,
          write_loaded changed s (some handle) refl
              (λ other. name_find-set name other handle p.entries_by_name),
        )

    -- One removal, by whether the map has the name.
    remove-Represents :
        (handle : ℕ) (s : K.State) (old : Option ℕ)
        → map name ≡ old
        → (d' : Directory) × (s' : K.State) × (remove_entry K layout hash d s handle name
            ≡ some ((map_remove old name map).0, d', s'))
          × Represents d' (map_remove old name map).1
    unfolding remove_entry Partition.remove_entry remove_fresh status_of map_remove b
    remove-Represents handle s none e =
        let missing : name_find name (get_partition b d).entries_by_name ≡ none = r.same name ∙ e in
        (
          set_partition b (get_partition b d) d,
          s,
          rw
              (
                remove_entry,
                Partition.remove_entry,
                refresh-loaded K _ s (r.loaded b),
                remove_fresh,
                missing,
              )
              refl,
          rw (set_partition-get_partition b d) r,
        )
    remove-Represents handle s (some ino) e =
        let p = get_partition b d in
        let found : name_find name p.entries_by_name ≡ some ino = r.same name ∙ e in
        let changed : LogFsDirectoryPartition = record p {
          entries_by_name = name_erase name p.entries_by_name;
          state = dirty;
        } in
        (
          set_partition b (write_to_log K changed s).1 d,
          (write_to_log K changed s).2,
          rw
              (
                remove_entry,
                Partition.remove_entry,
                refresh-loaded K _ s (r.loaded b),
                remove_fresh,
                found,
              )
              refl,
          write_loaded changed s none refl (λ other. name_find-erase name other p.entries_by_name),
        )

  pub dir_op-map_op :
      (op : DirOp) (d : Directory) (map : DirMap) (s : K.State)
      → Represents d map
      → (d' : Directory) × (s' : K.State) × (dir_op op d s ≡ some ((map_op op map).0, d', s'))
        × Represents d' (map_op op map).1
  unfolding dir_op map_op
  dir_op-map_op (insert handle name) d map s r =
      insert-Represents d map r name handle s (map name) refl
  dir_op-map_op (erase handle name) d map s r =
      remove-Represents d map r name handle s (map name) refl

  -- For a directory in memory that has the entries of a map, and any sequence of insertions and
  -- removals of names: the directory's operations return, with the statuses that the map's operations
  -- have, and the directory, still in memory, then has the entries that the map has after them,
  -- whatever the hash, and also where a put was refused.
  pub dir_ops-map_ops :
      (ops : List DirOp) (d : Directory) (map : DirMap) (s : K.State)
      → Represents d map
      → (d' : Directory) × (s' : K.State) × (dir_ops ops d s ≡ some ((map_ops ops map).0, d', s'))
        × Represents d' (map_ops ops map).1
  unfolding dir_ops map_ops
  dir_ops-map_ops [] d map s r = (d, s, refl, r)
  dir_ops-map_ops (op ∷ ops) d map s r =
      let (d1, s1, e1, r1) = dir_op-map_op op d map s r in
      let (d2, s2, e2, r2) = dir_ops-map_ops ops d1 (map_op op map).1 s1 r1 in
      (d2, s2, rw (dir_ops, e1, e2) refl, r2)
