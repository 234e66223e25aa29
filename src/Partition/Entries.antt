-- ===== src/Partition/Entries.antt =====
-- The entries of a partition that is in memory: what insertEntry and removeEntry of
-- src/KVFSDirectoryPartition.cc do to what findEntry finds.
use kvfs_ra_testing.Base.{
  ℕ, ◌≡◌, ◌⊎◌, inl, inr, refl, ap, ◌∙◌, Bool, true, false, Option, none, some, [], ◌∷◌, ◌++◌, Bytes,
  bytes_eq, if◌then◌else◌, Bool-cases, Option-cases,
}
use kvfs_ra_testing.Status.{enoent, eexist}
use kvfs_ra_testing.Key.{partition_key}
use kvfs_ra_testing.Store.{KvStore}
use kvfs_ra_testing.Partition.Names.{
  name_find, name_set, name_erase, name_find-set, name_find-erase,
}
use kvfs_ra_testing.Partition.{
  LogFsDirectoryPartition, PartitionState, clean, dirty, is_dirty, serialize, write_to_log, refresh,
  refresh_from, refreshed, insert_fresh, insert_entry, find_entry, remove_fresh, remove_entry,
}

-- What findEntry returns for an entry that may be missing.
abbrev pub or_zero : Option ℕ → ℕ
or_zero none = 0
or_zero (some ino) = ino

or_zero-if :
    (b : Bool) (x y : Option ℕ)
    → or_zero (if b then x else y) ≡ (if b then or_zero x else or_zero y)
or_zero-if true x y = refl
or_zero-if false x y = refl

module _ (K : KvStore) where
  -- The partition has been read in.
  pub data IsLoaded : LogFsDirectoryPartition → Type 0 where
    loaded_clean : (p : LogFsDirectoryPartition) → p.state ≡ clean → IsLoaded p
    loaded_dirty : (p : LogFsDirectoryPartition) → p.state ≡ dirty → IsLoaded p

  refresh_from-loaded :
      (e : PartitionState) (p : LogFsDirectoryPartition) (s : K.State)
      → (e ≡ clean) ⊎ (e ≡ dirty)
      → refresh_from K e p s ≡ some (0, p)
  unfolding refresh_from
  refresh_from-loaded e p s (inl h) = rw h refl
  refresh_from-loaded e p s (inr h) = rw h refl

  pub refresh-loaded :
      (p : LogFsDirectoryPartition) (s : K.State) → IsLoaded p → refresh K p s ≡ some (0, p)
  unfolding refresh
  refresh-loaded p s (loaded_clean _ h) = refresh_from-loaded p.state p s (inl h)
  refresh-loaded p s (loaded_dirty _ h) = refresh_from-loaded p.state p s (inr h)

  pub refreshed-loaded :
      (p : LogFsDirectoryPartition) (s : K.State) → IsLoaded p → refreshed K p s ≡ some p
  unfolding refreshed
  refreshed-loaded p s h = rw (refreshed, refresh-loaded p s h) refl

  -- For a partition in memory: findEntry returns what the map has for the name, or 0.
  pub find_entry-loaded :
      (p : LogFsDirectoryPartition) (s : K.State) (name : Bytes)
      → IsLoaded p
      → find_entry K p s name ≡ some (or_zero (name_find name p.entries_by_name), p)
  unfolding find_entry
  find_entry-loaded p s name h = elim (Option-cases (name_find name p.entries_by_name)) [
    | inl missing ↦ rw (find_entry, refreshed-loaded p s h, missing) refl
    | inr (ino, found) ↦ rw (find_entry, refreshed-loaded p s h, found) refl
  ]

  -- A write of a changed partition leaves it in memory, with its entries.
  pub write_to_log-kept :
      (p : LogFsDirectoryPartition) (s : K.State)
      → p.state ≡ dirty
      → IsLoaded (write_to_log K p s).1
        × ((write_to_log K p s).1.entries_by_name ≡ p.entries_by_name)
  unfolding write_to_log is_dirty
  write_to_log-kept p s changed =
      elim (Bool-cases (K.put s (partition_key p.dir_ino p.partition_number) (serialize p)).0) [
        | inl done ↦ simp (changed, done) (loaded_clean _ refl, refl)
        | inr full ↦ simp (changed, full) (loaded_dirty _ changed, refl)
      ]

  -- What findEntry returns afterwards, for every name.
  abbrev pub Finds : LogFsDirectoryPartition → K.State → (Bytes → ℕ) → Type 0
  Finds p s content = (name : Bytes) → find_entry K p s name ≡ some (content name, p)

  module _ (p : LogFsDirectoryPartition) (s : K.State) (loaded : IsLoaded p) (name : Bytes) where
    -- For a partition in memory: insertEntry returns EEXIST and changes nothing if the name is there,
    -- and otherwise returns 0, and then findEntry finds the new entry, and all other names as before.
    pub insert_entry-find_entry :
        (ino : ℕ)
        → (p' : LogFsDirectoryPartition) × (s' : K.State) × (((insert_entry K p s ino name
                ≡ some (eexist, p', s'))
              × ((old : ℕ) × (name_find name p.entries_by_name ≡ some old))
              × (p' ≡ p)
              × (s' ≡ s))
            ⊎ ((name_find name p.entries_by_name ≡ none)
                × (insert_entry K p s ino name ≡ some (0, p', s'))
                × Finds p' s' (λ other.
                  if bytes_eq other name
                  then ino
                  else or_zero (name_find other p.entries_by_name))))
    unfolding insert_entry insert_fresh
    insert_entry-find_entry ino = elim (Option-cases (name_find name p.entries_by_name)) [
      | inr (old, found) ↦ (
        p,
        s,
        inl (
          rw (insert_entry, refreshed-loaded p s loaded, insert_fresh, found) refl,
          (old, found),
          refl,
          refl,
        ),
      )
      | inl missing ↦
          let changed : LogFsDirectoryPartition = record p {
            entries = p.entries ++ (name, ino) ∷ [];
            entries_by_name = name_set name ino p.entries_by_name;
            state = dirty;
          } in
          let (kept, same) = write_to_log-kept changed s refl in
          (
            (write_to_log K changed s).1,
            (write_to_log K changed s).2,
            inr (
              missing,
              rw (insert_entry, refreshed-loaded p s loaded, insert_fresh, missing) refl,
              λ other.
                  find_entry-loaded _ _ other kept
                  ∙ ap (λ (n : ℕ). some (n, (write_to_log K changed s).1))
                      (ap (λ m. or_zero (name_find other m)) same
                        ∙ ap or_zero (name_find-set name other ino p.entries_by_name)
                        ∙ or_zero-if (bytes_eq other name) (some ino)
                            (name_find other p.entries_by_name)),
            ),
          )
    ]

    -- For a partition in memory: removeEntry returns ENOENT and changes nothing if the name is not there,
    -- and otherwise returns 0, and then findEntry does not find the name, and all others as before.
    pub remove_entry-find_entry :
        (handle : ℕ)
        → (p' : LogFsDirectoryPartition) × (s' : K.State) × (((remove_entry K p s handle name
                ≡ some (enoent, p', s'))
              × (name_find name p.entries_by_name ≡ none)
              × (p' ≡ p)
              × (s' ≡ s))
            ⊎ (((old : ℕ) × (name_find name p.entries_by_name ≡ some old))
                × (remove_entry K p s handle name ≡ some (0, p', s'))
                × Finds p' s' (λ other.
                  if bytes_eq other name then 0 else or_zero (name_find other p.entries_by_name))))
    unfolding remove_entry remove_fresh
    remove_entry-find_entry handle = elim (Option-cases (name_find name p.entries_by_name)) [
      | inl missing ↦ (
        p,
        s,
        inl (
          rw (remove_entry, refresh-loaded p s loaded, remove_fresh, missing) refl,
          missing,
          refl,
          refl,
        ),
      )
      | inr (old, found) ↦
          let changed : LogFsDirectoryPartition = record p {
            entries_by_name = name_erase name p.entries_by_name;
            state = dirty;
          } in
          let (kept, same) = write_to_log-kept changed s refl in
          (
            (write_to_log K changed s).1,
            (write_to_log K changed s).2,
            inr (
              (old, found),
              rw (remove_entry, refresh-loaded p s loaded, remove_fresh, found) refl,
              λ other.
                  find_entry-loaded _ _ other kept
                  ∙ ap (λ (n : ℕ). some (n, (write_to_log K changed s).1))
                      (ap (λ m. or_zero (name_find other m)) same
                        ∙ ap or_zero (name_find-erase name other p.entries_by_name)
                        ∙ or_zero-if (bytes_eq other name) none
                            (name_find other p.entries_by_name)),
            ),
          )
    ]
