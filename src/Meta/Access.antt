-- ===== src/Meta/Access.antt =====
-- LogFSFile::access (src/KVFSFile.cc): the permission check on the protection bits.
use kvfs_ra_testing.Base.{
  ℕ, ◌*◌, ◌≡◌, Bool, true, false, ◌==◌, not, if◌then◌else◌, arith, Bool-cases, inl, inr,
}
use kvfs_ra_testing.Status.{Status, ok, invalid_parameter, eacces}
use kvfs_ra_testing.Meta.{MetaData, Rights, has_mask, prot_from_mode}

abbrev x_ok : ℕ
x_ok = 1

abbrev w_ok : ℕ
w_ok = 2

abbrev r_ok : ℕ
r_ok = 4

-- The three tests of one class, in the order of the source.
pub permits : Rights → ℕ → Bool
permits r mode =
    let ok0 = true in
    let ok1 = if has_mask mode x_ok then (if r.exec then ok0 else false) else ok0 in
    let ok2 = if has_mask mode w_ok then (if r.write then ok1 else false) else ok1 in
    if has_mask mode r_ok then (if r.read then ok2 else false) else ok2

-- The result is the status and what `*pEerror` then holds.
pub access : MetaData → ℕ → ℕ → ℕ → ℕ → Status × ℕ
access meta mode user_id group_id error =
    let granted =
      if user_id == meta.user_id
      then permits meta.protection.owner mode
      else if group_id == meta.group_id
      then permits meta.protection.group mode
      else permits meta.protection.other mode in
    if not granted then (invalid_parameter, eacces) else (ok, error)

-- The weight of the class that decides: 0o100 for the owner, 0o10 for the group, 0o1 for the others.
pub class_weight : MetaData → ℕ → ℕ → ℕ
class_weight meta user_id group_id =
    if user_id == meta.user_id then 0o100 else if group_id == meta.group_id then 0o10 else 0o1

-- Every right that `request` asks for is set, at that weight, in `mode`.
abbrev pub Grants : ℕ → ℕ → ℕ → Type 0
Grants mode weight request =
    (has_mask request x_ok ≡ true → has_mask mode (1 * weight) ≡ true)
    × (has_mask request w_ok ≡ true → has_mask mode (2 * weight) ≡ true)
    × (has_mask request r_ok ≡ true → has_mask mode (4 * weight) ≡ true)

abbrev class_of : ℕ → ℕ → Rights
class_of mode weight = record {
  read = has_mask mode (4 * weight);
  write = has_mask mode (2 * weight);
  exec = has_mask mode (1 * weight);
}

permits-true :
    (mode weight request : ℕ)
    → Grants mode weight request
    → permits (class_of mode weight) request ≡ true
unfolding permits
permits-true mode weight request g = ground arith

permits-Grants :
    (mode weight request : ℕ)
    → permits (class_of mode weight) request ≡ true
    → Grants mode weight request
unfolding permits
permits-Grants mode weight request h = (λ r. ground arith, λ r. ground arith, λ r. ground arith)

permits-false :
    (mode weight request : ℕ)
    → ¬ Grants mode weight request
    → permits (class_of mode weight) request ≡ false
permits-false mode weight request g = elim (Bool-cases (permits (class_of mode weight) request)) [
  | inl e ↦ absurd (g (permits-Grants mode weight request e))
  | inr e ↦ e
]

-- The class is chosen first, and its three bits alone decide.
access-class :
    (meta : MetaData) (mode request user_id group_id error : ℕ)
    → meta.protection ≡ prot_from_mode mode
    → access meta request user_id group_id error ≡ (
        if not (permits (class_of mode (class_weight meta user_id group_id)) request)
        then (invalid_parameter, eacces)
        else (ok, error))
unfolding access class_weight prot_from_mode
access-class meta mode request user_id group_id error e =
    elim (Bool-cases (user_id == meta.user_id)) [
      | inl own ↦ rw (own, e)
      | inr other ↦ elim (Bool-cases (group_id == meta.group_id)) [
        | inl grp ↦ rw (other, grp, e)
        | inr rest ↦ rw (other, rest, e)
      ]
    ]

-- For metadata whose protection was taken from `mode`: if every right in the request is set there for
-- the one class that the user and the group belong to, `access` returns STATUS_OK and leaves the
-- error alone; if not, it returns STATUS_INVALID_PARAMETER and sets the error to EACCES.
pub access-Grants :
    (meta : MetaData) (mode request user_id group_id error : ℕ)
    → meta.protection ≡ prot_from_mode mode
    → (Grants mode (class_weight meta user_id group_id) request
        → access meta request user_id group_id error ≡ (ok, error))
      × (¬ Grants mode (class_weight meta user_id group_id) request
          → access meta request user_id group_id error ≡ (invalid_parameter, eacces))
access-Grants meta mode request user_id group_id error e =
    let w : ℕ = class_weight meta user_id group_id in
    (
      λ g.
          rw (
            access-class meta mode request user_id group_id error e,
            permits-true mode w request g,
          ),
      λ g.
          rw (
            access-class meta mode request user_id group_id error e,
            permits-false mode w request g,
          ),
    )
