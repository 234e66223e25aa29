-- ===== src/Meta/Mode.antt =====
-- The conversions between modes and metadata are inverse to each other.
use kvfs_ra_testing.Base.{
  ℕ, ◌+◌, ◌*◌, ◌/◌, ◌%◌, ◌≤◌, ◌<◌, ◌≡◌, ◌≢◌, refl, Bool, true, false, arith, chunk_of, ap, ◌∙◌,
}
use kvfs_ra_testing.Meta.{
  MetaType, inval, ifreg, ifdir, iflnk, ifblk, ifchr, ififo, ifsock, Rights, MetaProt, has_mask,
  or_mask, file_type, type_from_mode, prot_from_mode, type_bit, rights_bits, prot_bit,
  mode_from_meta,
}

bit : Bool → ℕ
bit true = 1
bit false = 0

bit-le : (b : Bool) → bit b ≤ 1
unfolding bit
bit-le true = omega arith
bit-le false = omega arith

has_mask-bit :
    (v hi lo mask : ℕ) (b : Bool)
    → lo < mask
    → v ≡ (2 * hi + bit b) * mask + lo
    → has_mask v mask ≡ b
unfolding bit has_mask
has_mask-bit v hi lo mask true h e =
    ground (arith, chunk_of mask (omega arith) (2 * hi + 1) v (omega arith) (omega arith))
has_mask-bit v hi lo mask false h e =
    ground (arith, chunk_of mask (omega arith) (2 * hi) v (omega arith) (omega arith))

or_mask-add :
    (b : Bool) (acc q mask : ℕ)
    → 0 < mask
    → acc ≡ q * (2 * mask)
    → or_mask b acc mask ≡ (2 * q + bit b) * mask
unfolding bit or_mask
or_mask-add true acc q mask h e =
    rw (has_mask-bit acc q 0 mask false h (unfold bit in omega arith)) (omega arith)
or_mask-add false acc q mask h e = omega arith

abbrev triple : Rights → ℕ
triple r = 4 * bit r.read + 2 * bit r.write + bit r.exec

abbrev set_ids : MetaProt → Rights
set_ids p = record { read = p.suid; write = p.sgid; exec = p.sticky }

rights_bits-sum :
    (r : Rights) (acc q read write exec : ℕ)
    → 0 < exec
    → write ≡ 2 * exec
    → read ≡ 2 * write
    → acc ≡ q * (2 * read)
    → rights_bits r acc read write exec ≡ (8 * q + triple r) * exec
unfolding rights_bits
rights_bits-sum r acc q read write exec p ew er e =
    let e1 = or_mask-add r.read acc q read (omega arith) e in
    let e2 =
      or_mask-add r.write (or_mask r.read acc read) (2 * q + bit r.read) write (omega arith)
        (rw e1 (omega (arith, ap (λ (t : ℕ). (2 * q + bit r.read) * t) er))) in
    let e3 =
      or_mask-add r.exec (or_mask r.write (or_mask r.read acc read) write)
        (2 * (2 * q + bit r.read) + bit r.write) exec p
        (rw e2 (omega (arith, ap (λ (t : ℕ). (2 * (2 * q + bit r.read) + bit r.write) * t) ew))) in
    e3 ∙ omega arith

-- The value of the protection bits, as a number below 0o10000.
abbrev octal : MetaProt → ℕ
octal p = 8 * (8 * (8 * triple (set_ids p) + triple p.owner) + triple p.group) + triple p.other

prot_bit-octal : (p : MetaProt) → prot_bit p ≡ octal p
unfolding prot_bit
prot_bit-octal p =
    let high = rights_bits (set_ids p) 0 0o4000 0o2000 0o1000 in
    let owner = rights_bits p.owner high 0o400 0o200 0o100 in
    let group = rights_bits p.group owner 0o40 0o20 0o10 in
    let t1 : ℕ = triple (set_ids p) in
    let t2 : ℕ = 8 * t1 + triple p.owner in
    let t3 : ℕ = 8 * t2 + triple p.group in
    let high_eq =
      rights_bits-sum (set_ids p) 0 0 0o4000 0o2000 0o1000 (omega arith) refl refl refl in
    let owner_eq =
      rights_bits-sum p.owner high t1 0o400 0o200 0o100 (omega arith) refl refl
        (rw high_eq (omega arith)) in
    let group_eq =
      rights_bits-sum p.group owner t2 0o40 0o20 0o10 (omega arith) refl refl
        (rw owner_eq (omega arith)) in
    unfold rights_bits in
    (rights_bits-sum p.other group t3 0o4 0o2 0o1 (omega arith) refl refl
        (rw group_eq (omega arith))
      ∙ omega arith)

bit-has_mask : (v mask : ℕ) → bit (has_mask v mask) ≡ v / mask % 2
unfolding bit has_mask
bit-has_mask v mask = ground arith

has_mask-eq : (v mask : ℕ) (b : Bool) → v / mask % 2 ≡ bit b → has_mask v mask ≡ b
unfolding bit has_mask
has_mask-eq v mask b h = ground arith

octal-prot_from_mode : (mode : ℕ) → octal (prot_from_mode mode) ≡ mode % 0o10000
unfolding prot_from_mode
octal-prot_from_mode mode = omega (arith, bit-has_mask)

type_bit-type_from_mode :
    (mode : ℕ)
    → type_from_mode mode inval ≢ inval
    → type_bit (type_from_mode mode inval) ≡ file_type mode
unfolding type_bit type_from_mode
type_bit-type_from_mode mode known = ground arith

-- A mode of sixteen bits whose file type is one of the seven survives being stored.
pub mode_from_meta-from_mode :
    (mode : ℕ)
    → mode < 0o200000
    → type_from_mode mode inval ≢ inval
    → mode_from_meta (type_from_mode mode inval) (prot_from_mode mode) ≡ mode
unfolding mode_from_meta
mode_from_meta-from_mode mode small known = omega (
  arith,
  type_bit-type_from_mode mode known,
  prot_bit-octal (prot_from_mode mode),
  octal-prot_from_mode mode,
)

octal-lt : (p : MetaProt) → octal p < 0o10000
octal-lt p = omega (arith, bit-le)

file_type-from_meta :
    (type : MetaType) (p : MetaProt) → file_type (mode_from_meta type p) ≡ type_bit type
unfolding mode_from_meta type_bit
file_type-from_meta inval p = omega (arith, prot_bit-octal p, octal-lt p)
file_type-from_meta ifreg p = omega (arith, prot_bit-octal p, octal-lt p)
file_type-from_meta ifdir p = omega (arith, prot_bit-octal p, octal-lt p)
file_type-from_meta iflnk p = omega (arith, prot_bit-octal p, octal-lt p)
file_type-from_meta ifblk p = omega (arith, prot_bit-octal p, octal-lt p)
file_type-from_meta ifchr p = omega (arith, prot_bit-octal p, octal-lt p)
file_type-from_meta ififo p = omega (arith, prot_bit-octal p, octal-lt p)
file_type-from_meta ifsock p = omega (arith, prot_bit-octal p, octal-lt p)

type_from_mode-from_meta :
    (type before : MetaType) (p : MetaProt)
    → type ≢ inval
    → type_from_mode (mode_from_meta type p) before ≡ type
unfolding type_from_mode type_bit
type_from_mode-from_meta inval before p known = absurd (known refl)
type_from_mode-from_meta ifreg before p known = rw (file_type-from_meta ifreg p)
type_from_mode-from_meta ifdir before p known = rw (file_type-from_meta ifdir p)
type_from_mode-from_meta iflnk before p known = rw (file_type-from_meta iflnk p)
type_from_mode-from_meta ifblk before p known = rw (file_type-from_meta ifblk p)
type_from_mode-from_meta ifchr before p known = rw (file_type-from_meta ifchr p)
type_from_mode-from_meta ififo before p known = rw (file_type-from_meta ififo p)
type_from_mode-from_meta ifsock before p known = rw (file_type-from_meta ifsock p)

type_digit : MetaType → ℕ
type_digit ifreg = 8
type_digit ifdir = 4
type_digit iflnk = 10
type_digit ifblk = 6
type_digit ifchr = 2
type_digit ififo = 1
type_digit ifsock = 12
type_digit inval = 0

mode_from_meta-digits :
    (type : MetaType) (p : MetaProt) → mode_from_meta type p ≡ 0o10000 * type_digit type + octal p
unfolding mode_from_meta type_bit type_digit
mode_from_meta-digits inval p = omega (arith, prot_bit-octal p)
mode_from_meta-digits ifreg p = omega (arith, prot_bit-octal p)
mode_from_meta-digits _ p = omega (arith, prot_bit-octal p)

module _ (type : MetaType) (p : MetaProt) where
  stored_bit :
      (mask : ℕ) (b : Bool)
      → (0o10000 * type_digit type + octal p) / mask % 2 ≡ bit b
      → has_mask (mode_from_meta type p) mask ≡ b
  stored_bit mask b h = rw (mode_from_meta-digits type p) (has_mask-eq _ mask b h)

  pub prot_from_mode-from_meta : prot_from_mode (mode_from_meta type p) ≡ p
  unfolding prot_from_mode
  prot_from_mode-from_meta = ground (
    arith,
    stored_bit 0o4000 p.suid (omega (arith, bit-le)),
    stored_bit 0o2000 p.sgid (omega (arith, bit-le)),
    stored_bit 0o1000 p.sticky (omega (arith, bit-le)),
    stored_bit 0o400 p.owner.read (omega (arith, bit-le)),
    stored_bit 0o200 p.owner.write (omega (arith, bit-le)),
    stored_bit 0o100 p.owner.exec (omega (arith, bit-le)),
    stored_bit 0o40 p.group.read (omega (arith, bit-le)),
    stored_bit 0o20 p.group.write (omega (arith, bit-le)),
    stored_bit 0o10 p.group.exec (omega (arith, bit-le)),
    stored_bit 0o4 p.other.read (omega (arith, bit-le)),
    stored_bit 0o2 p.other.write (omega (arith, bit-le)),
    stored_bit 0o1 p.other.exec (omega (arith, bit-le)),
  )

-- A type and a protection survive being turned into a mode and back, whatever the type, but for the
-- invalid one, which a mode cannot tell.
pub meta-from_mode_from_meta :
    (type before : MetaType) (p : MetaProt)
    → type ≢ inval
    → (type_from_mode (mode_from_meta type p) before ≡ type)
      × (prot_from_mode (mode_from_meta type p) ≡ p)
meta-from_mode_from_meta type before p known =
    (type_from_mode-from_meta type before p known, prot_from_mode-from_meta type p)
