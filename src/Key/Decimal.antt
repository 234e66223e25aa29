-- ===== src/Key/Decimal.antt =====
-- The conversions %lu and %d of snprintf at a number that is not negative.
use kvfs_ra_testing.Base.{
  ℕ, zero, suc, ◌+◌, ◌-◌, ◌*◌, ◌/◌, ◌%◌, ◌<◌, ◌≡◌, refl, Bool-cases, inl, inr, [], ◌∷◌, ◌++◌, Bytes,
  arith, ltb, if◌then◌else◌, ap, sym, ◌∙◌, ◌≢◌,
}

abbrev digit : ℕ → ℕ
digit d = b'0' + d

decimal_fuel : ℕ → ℕ → Bytes
decimal_fuel zero n = []
decimal_fuel (suc f) n =
    let rest = decimal_fuel f (n / 10) ++ digit (n % 10) ∷ [] in
    if ltb n 10 then digit n ∷ [] else rest

-- A number has fewer digits than `suc n`.
unfoldable pub decimal : ℕ → Bytes
unfolding decimal_fuel
decimal n = decimal_fuel (suc n) n

-- The number that digits stand for.
undecimal_from : ℕ → Bytes → ℕ
undecimal_from acc [] = acc
undecimal_from acc (d ∷ ds) = undecimal_from (acc * 10 + (d - b'0')) ds

undecimal_from-append :
    (acc d : ℕ) (ds : Bytes)
    → undecimal_from acc (ds ++ d ∷ []) ≡ undecimal_from acc ds * 10 + (d - b'0')
unfolding undecimal_from
undecimal_from-append acc d [] = refl
undecimal_from-append acc d (e ∷ ds) = undecimal_from-append (acc * 10 + (e - b'0')) d ds

undecimal-decimal_fuel : (f n : ℕ) → n < f → undecimal_from 0 (decimal_fuel f n) ≡ n
unfolding decimal_fuel undecimal_from
undecimal-decimal_fuel zero n h = absurd (omega arith)
undecimal-decimal_fuel (suc f) n h = elim (Bool-cases (ltb n 10)) [
  | inl small ↦ rw small (omega arith)
  | inr large ↦
      rw large (
        rw undecimal_from-append (ground (arith, undecimal-decimal_fuel f (n / 10) (ground arith))))
]

-- No digit is another character.
abbrev pub HasNo : ℕ → Bytes → Type 0
HasNo c [] = Unit {0}
HasNo c (d ∷ ds) = ((d ≡ c) → ⊥) × HasNo c ds

pub HasNo-append : (c : ℕ) (xs ys : Bytes) → HasNo c xs → HasNo c ys → HasNo c (xs ++ ys)
HasNo-append c [] ys h k = k
HasNo-append c (x ∷ xs) ys h k = (h.0, HasNo-append c xs ys h.1 k)

decimal_fuel-HasNo : (c f n : ℕ) → c < b'0' → HasNo c (decimal_fuel f n)
unfolding decimal_fuel
decimal_fuel-HasNo c zero n h = tt
decimal_fuel-HasNo c (suc f) n h = elim (Bool-cases (ltb n 10)) [
  | inl small ↦ rw small (omega arith, tt)
  | inr large ↦ rw large (
      HasNo-append c (decimal_fuel f (n / 10)) _ (decimal_fuel-HasNo c f (n / 10) h)
        (omega arith, tt))
]

pub decimal-HasNo : (c n : ℕ) → c < b'0' → HasNo c (decimal n)
unfolding decimal
decimal-HasNo c n h = decimal_fuel-HasNo c (suc n) n h

pub decimal-injective : (m n : ℕ) → decimal m ≡ decimal n → m ≡ n
unfolding decimal
decimal-injective m n e =
    sym (undecimal-decimal_fuel (suc m) m (omega arith))
    ∙ ap (undecimal_from 0) e
    ∙ undecimal-decimal_fuel (suc n) n (omega arith)

append-ne-nil : (xs : Bytes) (d : ℕ) → xs ++ d ∷ [] ≢ []
append-ne-nil [] d e = cc
append-ne-nil (x ∷ xs) d e = cc

pub decimal-ne-nil : (n : ℕ) → decimal n ≢ []
unfolding decimal decimal_fuel
decimal-ne-nil n = elim (Bool-cases (ltb n 10)) [
  | inl small ↦ rw small (λ e. cc)
  | inr large ↦ rw large (append-ne-nil (decimal_fuel n (n / 10)) _)
]
