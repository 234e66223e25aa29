-- ===== src/Base/Outcome.antt =====
-- A condition on what an operation returns, if it returns.
use mathlib.Core.Path.{◌≡◌, refl, subst}
use mathlib.Core.Bool.{Bool, true, false}
use mathlib.Core.Option.{Option, none, some}
use kvfs_ra_testing.Base.Tests.{if◌then◌else◌}

abbrev pub Ensures : {A : Type 0} → (A → Type 0) → Option A → Type 0
Ensures {A} P o = (a : A) → o ≡ some a → P a

pub Ensures-some : {A : Type 0} (P : A → Type 0) (a : A) → P a → Ensures P (some a)
Ensures-some P a h b e = let e1 : a ≡ b = cc in subst P e1 h

pub Ensures-none : {A : Type 0} (P : A → Type 0) → Ensures P none
Ensures-none P b e = cc

pub Ensures-bind :
    {A B : Type 0} (P : A → Type 0) (Q : B → Type 0) (f : A → Option B) (o : Option A)
    → Ensures P o
    → ((a : A) → P a → Ensures Q (f a))
    → Ensures Q (elim o [ none ↦ none | some a ↦ f a ])
Ensures-bind P Q f none h g = Ensures-none Q
Ensures-bind P Q f (some a) h g = g a (h a refl)

pub Ensures-each :
    {A B : Type 0} (Q : B → Type 0) (f : A → Option B) (o : Option A)
    → ((a : A) → Ensures Q (f a))
    → Ensures Q (elim o [ none ↦ none | some a ↦ f a ])
Ensures-each Q f none g = Ensures-none Q
Ensures-each Q f (some a) g = g a

pub Ensures-test :
    {B : Type 0} (Q : B → Type 0) (b : Bool) (x y : Option B)
    → Ensures Q x
    → Ensures Q y
    → Ensures Q (elim b [ true ↦ x | false ↦ y ])
Ensures-test Q true x y h g = h
Ensures-test Q false x y h g = g

pub if-both :
    {A : Type 0} (P : A → Type 0) (b : Bool) (x y : A) → P x → P y → P (if b then x else y)
if-both P true x y h g = h
if-both P false x y h g = g

pub Ensures-if :
    {B : Type 0} (Q : B → Type 0) (b : Bool) (x y : Option B)
    → Ensures Q x
    → Ensures Q y
    → Ensures Q (if b then x else y)
Ensures-if Q b x y h g = if-both (Ensures Q) b x y h g
