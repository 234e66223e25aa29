-- ===== src/Tiering/Paths.antt =====
-- SnapshotPersister::GetPath and GetPaths (src/tiering/snapshot_persister.cc): the path of an inode, from
-- the parents and the names in the inode records of the snapshot.
use kvfs_ra_testing.Base.{
  ℕ, zero, suc, ◌<◌, ◌≡◌, refl, sym, ap, ◌∙◌, Bool, true, false, ◌||◌, not, Option, none, some,
  List, [], ◌∷◌, ◌++◌, Bytes, length, ltb, ◌==◌, if◌then◌else◌, lt→ltb, length-append, ==_refl,
  arith,
}
use mathlib.Core.List.{append_assoc, append-nil}
use kvfs_ra_testing.Status.{Status, ok, object_doesnt_exist, is_ok}
use kvfs_ra_testing.Store.{KvStore}
use kvfs_ra_testing.Meta.{MetaData, get_path_info}
use kvfs_ra_testing.File.{MetaLayout}
use kvfs_ra_testing.Mount.{Machine}
use kvfs_ra_testing.Manager.{FileSystemManager, root_handle, path_info}
use kvfs_ra_testing.Manager.Stored.{OwnInode, open-OwnInode}

-- Where the loop of GetPath ends: the status, the inode it came to, and the names from there down.
pub record PathParts : Type 0 where
  pub status : Status
  pub inode : ℕ
  pub path_parts : List Bytes

-- The names with a slash after each, and without the last character.
unfoldable pub slashed : List Bytes → Bytes
slashed [] = []
slashed (part ∷ parts) = part ++ b'/' ∷ slashed parts

unfoldable pub pop_back : Bytes → Bytes
pop_back [] = []
pop_back (c ∷ cs) = let rest = c ∷ pop_back cs in elim cs [ [] ↦ [] | d ∷ ds ↦ rest ]

unfoldable pub path_text : List Bytes → Bytes
path_text parts = pop_back (slashed parts)

-- paths[inode] = path
unfoldable pub path_set : ℕ → Bytes → List (ℕ × Bytes) → List (ℕ × Bytes)
path_set inode path [] = (inode, path) ∷ []
path_set inode path ((i, p) ∷ rest) =
    let later = (i, p) ∷ path_set inode path rest in
    if inode == i then (inode, path) ∷ rest else later

-- The names with a slash between them.
unfoldable pub joined : List Bytes → Bytes
joined [] = []
joined (part ∷ []) = part
joined (part ∷ next ∷ parts) = part ++ b'/' ∷ joined (next ∷ parts)

pop_back-append :
    (xs : Bytes) (c : ℕ) (ys : Bytes) → pop_back (xs ++ c ∷ ys) ≡ xs ++ pop_back (c ∷ ys)
unfolding pop_back
pop_back-append [] c ys = refl
pop_back-append (x ∷ []) c ys = refl
pop_back-append (x ∷ y ∷ xs) c ys = ap (λ (zs : Bytes). x ∷ zs) (pop_back-append (y ∷ xs) c ys)

-- A slash before a path stays.
pop_back-slash :
    (part : Bytes) (parts : List Bytes)
    → pop_back (b'/' ∷ slashed (part ∷ parts)) ≡ b'/' ∷ pop_back (slashed (part ∷ parts))
unfolding pop_back slashed
pop_back-slash [] parts = refl
pop_back-slash (c ∷ cs) parts = refl

path_text-joined : (parts : List Bytes) → path_text parts ≡ joined parts
unfolding path_text slashed pop_back joined
path_text-joined [] = refl
path_text-joined (part ∷ []) = pop_back-append part (b'/') [] ∙ append-nil part
path_text-joined (part ∷ next ∷ parts) =
    pop_back-append part (b'/') (slashed (next ∷ parts))
    ∙ ap (λ (zs : Bytes). part ++ zs) (pop_back-slash next parts)
    ∙ ap (λ (zs : Bytes). part ++ b'/' ∷ zs) (path_text-joined (next ∷ parts))

-- A test that comes out the same either way.
all_checked : {A : Type 0} (x y : Option A) (b : Bool) → (if b || (true || false) then x else y) ≡ x
all_checked x y true = refl
all_checked x y false = refl

module _ (K : KvStore) (layout : MetaLayout) (hash : Bytes → ℕ) (machine : Machine)
    (fs : FileSystemManager K.State) where
  -- The loop, on fuel: `none` also when it runs out, as for parents that form a cycle.
  unfoldable pub path_loop : ℕ → ℕ → List Bytes → Option PathParts
  path_loop zero inode parts = none
  path_loop (suc fuel) inode parts = elim (ltb root_handle inode) [
    | false ↦ some (record { status = ok; inode = inode; path_parts = parts })
    | true ↦ elim (path_info K layout hash machine 0 inode fs) [
      | none ↦ none
      | some none ↦
          some (record { status = object_doesnt_exist; inode = inode; path_parts = parts })
      | some (some (parent_handle, name)) ↦ path_loop fuel parent_handle (name ∷ parts)
    ]
  ]

  -- The assert on an empty path.
  unfoldable pub checked_path : PathParts → Option (Status × Bytes)
  checked_path r =
      let path = path_text r.path_parts in
      if ltb 0 (length path) || (r.inode == root_handle || not (is_ok r.status))
      then some (r.status, path)
      else none

  -- GetPath: the status and the path.
  unfoldable pub get_path : ℕ → ℕ → Option (Status × Bytes)
  get_path fuel inode = elim (path_loop fuel inode []) [ none ↦ none | some r ↦ checked_path r ]

  -- GetPaths: the paths of the inodes that have one.
  unfoldable pub get_paths : ℕ → List ℕ → List (ℕ × Bytes) → Option (List (ℕ × Bytes))
  get_paths fuel [] paths = some paths
  get_paths fuel (inode ∷ inodes) paths = elim (get_path fuel inode) [
    | none ↦ none
    | some (status, path) ↦
        get_paths fuel inodes (if is_ok status then path_set inode path paths else paths)
  ]

  -- A chain of parents from the root down to an inode, and the names on it.
  pub data Chain : ℕ → List Bytes → Type 0 where
    chain_root : Chain root_handle []
    chain_child :
        (inode : ℕ) (meta : MetaData) (parts : List Bytes)
        → root_handle < inode
        → OwnInode K layout hash machine 0 inode meta fs.store
        → Chain meta.parent_handle parts
        → Chain inode (parts ++ meta.name ∷ [])

  path_info-OwnInode :
      (inode : ℕ) (meta : MetaData)
      → OwnInode K layout hash machine 0 inode meta fs.store
      → path_info K layout hash machine 0 inode fs ≡ some (some (meta.parent_handle, meta.name))
  unfolding path_info get_path_info
  path_info-OwnInode inode meta o =
      rw (path_info, open-OwnInode K layout hash machine 0 inode meta fs.store o) refl

  -- The loop goes up the chain.
  path_loop-Chain :
      (fuel inode : ℕ) (parts after : List Bytes)
      → Chain inode parts
      → length parts < fuel
      → path_loop fuel inode after
        ≡ some (record { status = ok; inode = root_handle; path_parts = parts ++ after })
  unfolding path_loop
  path_loop-Chain zero inode parts after chain enough = absurd (omega (arith, enough))
  path_loop-Chain (suc fuel) _ _ after chain_root enough = refl
  path_loop-Chain (suc fuel) _ _ after (chain_child inode meta parts above o chain) enough =
      rw (path_loop, lt→ltb root_handle inode above, path_info-OwnInode inode meta o)
        (path_loop-Chain fuel meta.parent_handle parts (meta.name ∷ after) chain
            (let grown = length-append parts (meta.name ∷ []) in omega (arith, grown, enough))
          ∙ ap
              (λ (ps : List Bytes).
                some (record { status = ok; inode = root_handle; path_parts = ps }))
              (sym (append_assoc parts (meta.name ∷ []) after)))

  -- For a chain of parents from the root to an inode, in which every inode is the file system's own, and
  -- more rounds than there are names in it: GetPath returns STATUS_OK and the names, from the root
  -- down, with a slash between them.
  pub get_path-Chain :
      (fuel inode : ℕ) (parts : List Bytes)
      → Chain inode parts
      → length parts < fuel
      → get_path fuel inode ≡ some (ok, joined parts)
  unfolding get_path checked_path path_text
  get_path-Chain fuel inode parts chain enough =
      let root_end : (root_handle == root_handle) ≡ true = ==_refl root_handle in
      rw (get_path, path_loop-Chain fuel inode parts [] chain enough)
        (all_checked _ _ (ltb 0 (length (path_text (parts ++ []))))
          ∙ ap (λ (ps : List Bytes). some (ok, path_text ps)) (append-nil parts)
          ∙ ap (λ (path : Bytes). some (ok, path)) (path_text-joined parts))
