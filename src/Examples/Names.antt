-- ===== src/Examples/Names.antt =====
-- The theorems about the names of a directory, at the directory with two entries.
use kvfs_ra_testing.Base.{ℕ, ◌+◌, ◌-◌, ◌%◌, ◌^◌, ◌≡◌, ◌⊎◌, refl, some, none, List, [], ◌∷◌}
use kvfs_ra_testing.Status.{Status, ok, internal_error}
use kvfs_ra_testing.Store.{KvStore}
use kvfs_ra_testing.Store.Table.{table_store}
use kvfs_ra_testing.Meta.{ifreg, new_meta, type_from_mode}
use kvfs_ra_testing.File.{LogFsFile}
use kvfs_ra_testing.Directory
use kvfs_ra_testing.Directory.{Directory, new_directory, create, Created}
use kvfs_ra_testing.Directory.Names.{
  DirMap, DirOp, insert, erase, map_op, map_ops, dir_ops, map_of, Represents, dir_ops-map_ops,
}
use kvfs_ra_testing.Directory.Linking.{Made, InodeRefused, create-Made, remove-map_op, link-map_op}
use kvfs_ra_testing.Examples.Layout.{layout}
use kvfs_ra_testing.Examples.Directories.{
  some_hash, some_dir, some_dir-IsLoaded, blank_store, first_name,
}
use kvfs_ra_testing.Examples.Files.{small_file}

abbrev K : KvStore
K = table_store

abbrev some_map : DirMap
some_map = map_of K layout some_hash some_dir

some_dir-Represents : Represents K layout some_hash some_dir some_map
some_dir-Represents = record { loaded = some_dir-IsLoaded; same = λ name. refl }

-- A removal, an insertion, and the insertion of a name that is there.
abbrev some_ops : List DirOp
some_ops = erase 12 first_name ∷ insert 40 (b'x' ∷ []) ∷ insert 41 (b'x' ∷ []) ∷ []

dir_ops-map_ops_example :
    (d' : Directory) × (s' : K.State) × (dir_ops K layout some_hash some_ops some_dir blank_store
      ≡ some ((map_ops some_ops some_map).0, d', s'))
    × Represents K layout some_hash d' (map_ops some_ops some_map).1
dir_ops-map_ops_example =
    dir_ops-map_ops K layout some_hash some_ops some_dir some_map blank_store some_dir-Represents

abbrev new_child : Directory
new_child = new_directory (record small_file { handle = 30; name_string = b'n' ∷ [] })

create-Made_example :
    (c : Created K layout some_hash) × (create K layout some_hash new_child some_dir blank_store 0 0
        100
      ≡ some c)
    × Made K layout some_hash new_child some_map c
unfolding small_file new_meta type_from_mode new_directory
create-Made_example =
    create-Made K layout some_hash new_child some_dir some_map blank_store 0 0 100
      some_dir-Represents refl

remove-map_op_example :
    (status : Status) × (f' : LogFsFile) × (parent' : Directory) × (s' : K.State)
    × (Directory.remove K layout some_hash some_dir small_file blank_store first_name
        ≡ some (status, f', parent', s'))
    × (status ≡ (map_op (erase small_file.handle first_name) some_map).0)
    × Represents K layout some_hash parent' (map_op (erase small_file.handle first_name) some_map).1
    × (((old : ℕ) × (some_map first_name ≡ some old)
          × (status ≡ ok)
          × (f'.meta.n_link ≡ (small_file.meta.n_link + (2 ^ 32 - 1)) % 2 ^ 32))
        ⊎ ((some_map first_name ≡ none) × (status ≡ internal_error) × (f' ≡ small_file)))
remove-map_op_example =
    remove-map_op K layout some_hash some_dir small_file some_map blank_store first_name
      some_dir-Represents

regular_file : LogFsFile
unfolding small_file new_meta
regular_file = record small_file { meta = record small_file.meta { type = ifreg } }

link-map_op_example :
    (status : Status) × (f' : LogFsFile) × (dir' : Directory) × (s' : K.State) × (Directory.link K
        layout some_hash some_dir regular_file blank_store
        (b'y' ∷ [])
        100
      ≡ some (status, f', dir', s'))
    × Represents K layout some_hash dir'
        (map_op (insert regular_file.handle (b'y' ∷ [])) some_map).1
    × (((old : ℕ) × (some_map (b'y' ∷ []) ≡ some old)
          × (status ≡ internal_error)
          × (f' ≡ regular_file))
        ⊎ ((some_map (b'y' ∷ []) ≡ none)
            × (f'.meta.n_link ≡ (regular_file.meta.n_link + 1) % 2 ^ 32)
            × ((status ≡ ok) ⊎ ((status ≡ internal_error) × InodeRefused K layout dir'.file s'))))
unfolding regular_file small_file new_meta
link-map_op_example =
    link-map_op K layout some_hash some_dir regular_file some_map blank_store (b'y' ∷ []) 100
      some_dir-Represents refl
