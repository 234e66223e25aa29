-- ===== src/Base/Strings.antt =====
-- Byte strings: what std::string, memcpy and memset do with them. A read past the end is 0 here;
-- the models never rely on it where the source would read past the end.
use mathlib.Core.Bool.{Bool, true, false, ◌&&◌}
use mathlib.Core.Logic.{◌≢◌, inl, inr}
use Prim.Native.Nat.{ℕ, zero, ◌+◌, ◌-◌, ◌≤◌}
use mathlib.Core.Path.{◌≡◌, refl}
use mathlib.Core.List.{List, [], ◌∷◌, ◌++◌}
use native.Mathlib.Omega.{arith}
use kvfs_ra_testing.Base.Tests.{ltb, ◌==◌, if◌then◌else◌, Bool-cases}
use kvfs_ra_testing.Base.Lists.{
  length, get_or, take, drop, replicate, length-append, length-take, length-drop, length-replicate,
  get_or-append, get_or-take, get_or-drop, get_or-replicate, get_or-beyond,
}

abbrev pub Bytes : Type 0
Bytes = List ℕ

-- The byte at a position.
abbrev pub at : Bytes → ℕ → ℕ
at xs i = get_or xs i 0

-- std::string::resize(n): cut, or pad with null bytes.
pub resize : ℕ → Bytes → Bytes
resize n xs = take n xs ++ replicate (n - length xs) 0

-- std::string::replace(pos, n, src, n) with n = length src, where pos + n is within the string.
pub replace : ℕ → Bytes → Bytes → Bytes
replace pos src xs = take pos xs ++ (src ++ drop (pos + length src) xs)

pub length-resize : (n : ℕ) (xs : Bytes) → length (resize n xs) ≡ n
unfolding resize
length-resize n xs = omega (
  arith,
  length-append (take n xs) (replicate (n - length xs) 0),
  length-take n xs,
  length-replicate (n - length xs) (zero),
)

pub at-resize : (n : ℕ) (xs : Bytes) (i : ℕ) → at (resize n xs) i ≡ (if ltb i n then at xs i else 0)
unfolding resize
at-resize n xs i = ground (
  arith,
  get_or-append (take n xs) (replicate (n - length xs) 0) i 0,
  get_or-take n xs i 0,
  get_or-replicate (n - length xs) (zero) (i - length (take n xs)),
  length-take n xs,
  get_or-beyond xs i 0,
)

pub length-replace :
    (pos : ℕ) (src xs : Bytes)
    → pos + length src ≤ length xs
    → length (replace pos src xs) ≡ length xs
unfolding replace
length-replace pos src xs h = omega (
  arith,
  length-append (take pos xs) (src ++ drop (pos + length src) xs),
  length-append src (drop (pos + length src) xs),
  length-take pos xs,
  length-drop (pos + length src) xs,
)

pub at-replace :
    (pos : ℕ) (src xs : Bytes) (i : ℕ)
    → pos + length src ≤ length xs
    → at (replace pos src xs) i ≡ (
        if ltb i pos
        then at xs i
        else if ltb i (pos + length src)
        then at src (i - pos)
        else at xs i)
unfolding replace
at-replace pos src xs i h = ground (
  arith,
  get_or-append (take pos xs) (src ++ drop (pos + length src) xs) i 0,
  get_or-append src (drop (pos + length src) xs) (i - length (take pos xs)) 0,
  get_or-take pos xs i 0,
  length-take pos xs,
  get_or-drop (pos + length src) xs (i - length (take pos xs) - length src) 0,
)

-- operator== of std::string
unfoldable pub bytes_eq : Bytes → Bytes → Bool
bytes_eq [] [] = true
bytes_eq [] (y ∷ ys) = false
bytes_eq (x ∷ xs) [] = false
bytes_eq (x ∷ xs) (y ∷ ys) = x == y && bytes_eq xs ys

pub bytes_eq_refl : (xs : Bytes) → bytes_eq xs xs ≡ true
unfolding bytes_eq
bytes_eq_refl [] = refl
bytes_eq_refl (x ∷ xs) = ground (arith, bytes_eq_refl xs)

pub bytes_eq_sound : (xs ys : Bytes) → bytes_eq xs ys ≡ true → xs ≡ ys
unfolding bytes_eq
bytes_eq_sound [] [] h = refl
bytes_eq_sound [] (y ∷ ys) h = cc
bytes_eq_sound (x ∷ xs) [] h = cc
bytes_eq_sound (x ∷ xs) (y ∷ ys) h = ground (arith, bytes_eq_sound xs ys)

pub bytes_ne : (xs ys : Bytes) → xs ≢ ys → bytes_eq xs ys ≡ false
bytes_ne xs ys h = elim (Bool-cases (bytes_eq xs ys)) [
  | inl e ↦ absurd (h (bytes_eq_sound xs ys e))
  | inr e ↦ e
]
