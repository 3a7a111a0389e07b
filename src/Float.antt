-- ===== src/Float.antt =====
-- What the code does with a `float64`: a type with the operations of the language, and those of
-- package math. A theorem that needs a law of them takes it as a hypothesis.
use go_cascade.Base.{
  ltb, leb, ◌==◌, ℕ, suc, ◌+◌, ◌-◌, ◌*◌, ◌/◌, ◌^◌, ◌<◌, ◌≡◌, refl, ap, Bool, true, false, arith,
}

pub record Float {ℓ} (F : Type ℓ) : Type ℓ where
  pub lit : ℕ → ℕ → F  -- `lit m e` is the literal m * 10^-e
  pub of_nat : ℕ → F  -- float64(n)
  pub add : F → F → F
  pub sub : F → F → F
  pub mul : F → F → F
  pub div : F → F → F
  pub lt : F → F → Bool
  pub le : F → F → Bool
  pub eq : F → F → Bool

-- Laws that the comparisons of floats have, NaN included.
pub record IsOrdered {ℓ} (F : Type ℓ) ⦃fl : Float F⦄ : Type ℓ where
  pub lt_irrefl : (x : F) → fl.lt x x ≡ false
  pub lt_trans : (x y z : F) → fl.lt x y ≡ true → fl.lt y z ≡ true → fl.lt x z ≡ true
  pub le_trans : (x y z : F) → fl.le x y ≡ true → fl.le y z ≡ true → fl.le x z ≡ true
  -- only NaN is not `<=` itself
  pub le_refl_left : (x y : F) → fl.le x y ≡ true → fl.le x x ≡ true
  pub le_refl_right : (x y : F) → fl.le x y ≡ true → fl.le y y ≡ true
  pub le_refl_zero : fl.le (fl.lit 0 0) (fl.lit 0 0) ≡ true

-- Counting by `x++` from 0 is exact up to 2^53.
pub record IsCounting {ℓ} (F : Type ℓ) ⦃fl : Float F⦄ : Type ℓ where
  pub of_nat-zero : fl.lit 0 0 ≡ fl.of_nat 0
  pub add-one : (k : ℕ) → k < 2 ^ 53 → fl.add (fl.of_nat k) (fl.lit 1 0) ≡ fl.of_nat (suc k)

-- Thousandths, held exactly: an instance at which the theorems are tried. `sub` stops at zero.
pub record Milli : Type 0 where
  pub milli : ℕ

abbrev pub of_milli : ℕ → Milli
of_milli n = record { milli = n }

instance abbrev pub milli_float : Float Milli
milli_float = record {
  lit = λ m e. of_milli (m * 1000 / 10 ^ e);
  of_nat = λ n. of_milli (n * 1000);
  add = λ x y. of_milli (x.milli + y.milli);
  sub = λ x y. of_milli (x.milli - y.milli);
  mul = λ x y. of_milli (x.milli * y.milli / 1000);
  div = λ x y. of_milli (x.milli * 1000 / y.milli);
  lt = λ x y. ltb x.milli y.milli;
  le = λ x y. leb x.milli y.milli;
  eq = λ x y. x.milli == y.milli;
}

pub Milli-IsOrdered : IsOrdered Milli
Milli-IsOrdered = ground arith

pub Milli-IsCounting : IsCounting Milli
Milli-IsCounting = record { of_nat-zero = refl; add-one = λ k h. ap of_milli (omega arith) }
