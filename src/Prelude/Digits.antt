-- ===== src/Prelude/Digits.antt =====
-- Numbers digit by digit in base 2: the steps of `&`, `|` and `^`, halving under powers of two,
-- and the mask of the low ones.
use Prim.Native.Nat.{
  ℕ, zero, suc, ◌+◌, ◌-◌, ◌*◌, ◌/◌, ◌%◌, ◌^◌, ◌≤◌, min, max, bit_and, bit_or, bit_xor, digits,
  bit_and-bitwise, bit_or-bitwise, bit_xor-bitwise, differ,
}
use mathlib.Core.Path.{◌≡◌, refl, sym, ap}
use native.Mathlib.Nat.{div-div-eq-div-mul, div-add-mod}
use native.Mathlib.Omega.{arith}

-- A digit operation `f` whose rest `z`, past the first number, goes on digit by digit.
module _ (z : ℕ → ℕ) (f : ℕ → ℕ → ℕ) (rest : (b : ℕ) → z b ≡ z (b / 2) * 2 + f 0 (b % 2)) where
  digits_enough : (n m a b : ℕ) → a ≤ n → a ≤ m → digits z f n a b ≡ digits z f m a b
  digits_enough zero zero a b p q = refl
  digits_enough zero (suc m) zero b p q = refl
  digits_enough (suc n) zero zero b p q = refl
  digits_enough (suc n) (suc m) zero b p q = refl
  digits_enough zero (suc m) (suc a) b p q = absurd (omega arith)
  digits_enough (suc n) zero (suc a) b p q = absurd (omega arith)
  digits_enough (suc n) (suc m) (suc a) b p q =
      omega (arith, digits_enough n m (suc a / 2) (b / 2) (omega arith) (omega arith))

  digits_step :
      (a b : ℕ) → digits z f a a b ≡ digits z f (a / 2) (a / 2) (b / 2) * 2 + f (a % 2) (b % 2)
  digits_step zero b = rest b
  digits_step (suc a) b =
      omega (arith, digits_enough a (suc a / 2) (suc a / 2) (b / 2) (omega arith) (omega arith))

pub and_step : (a b : ℕ) → bit_and a b ≡ bit_and (a / 2) (b / 2) * 2 + min (a % 2) (b % 2)
and_step a b = omega (
  arith,
  bit_and-bitwise a b,
  bit_and-bitwise (a / 2) (b / 2),
  digits_step (λ b. zero) min (λ b. omega arith) a b,
)

pub or_step : (a b : ℕ) → bit_or a b ≡ bit_or (a / 2) (b / 2) * 2 + max (a % 2) (b % 2)
or_step a b = omega (
  arith,
  bit_or-bitwise a b,
  bit_or-bitwise (a / 2) (b / 2),
  digits_step (λ b. b) max (λ b. omega arith) a b,
)

differ_zero : (b : ℕ) → differ 0 (b % 2) ≡ b % 2
differ_zero b = refl

pub xor_step : (a b : ℕ) → bit_xor a b ≡ bit_xor (a / 2) (b / 2) * 2 + differ (a % 2) (b % 2)
xor_step a b = omega (
  arith,
  bit_xor-bitwise a b,
  bit_xor-bitwise (a / 2) (b / 2),
  digits_step (λ b. b) differ (λ b. omega arith) a b,
)

pub pow_pos : (k : ℕ) → 1 ≤ 2 ^ k
pow_pos zero = omega arith
pow_pos (suc k) = omega (arith, pow_pos k)

pub double_pow : (k : ℕ) → 2 ^ suc k ≡ 2 * 2 ^ k
double_pow k = omega arith

-- Division and remainder by 2 ^ (k + 1), from those by 2 ^ k of the half.
pub half_div : (a k : ℕ) → a / 2 ^ suc k ≡ a / 2 / 2 ^ k
half_div a k = rw double_pow (sym (div-div-eq-div-mul a 2 (2 ^ k)))

pub half_mod : (a k : ℕ) → a % 2 ^ suc k ≡ a / 2 % 2 ^ k * 2 + a % 2
half_mod a k = omega (
  arith,
  double_pow k,
  div-add-mod a (2 ^ suc k),
  div-add-mod (a / 2) (2 ^ k),
  ap (λ (t : ℕ). 2 ^ k * t) (half_div a k),
  ap (λ (t : ℕ). t * (a / 2 ^ suc k)) (double_pow k),
)

digits_none : (n a : ℕ) → digits (λ b. zero) min n a 0 ≡ 0
digits_none zero a = refl
digits_none (suc n) zero = refl
digits_none (suc n) (suc a) = omega (arith, digits_none n (suc a / 2))

-- Keeping the low `k` bits is the remainder by 2 ^ k.
pub and_ones : (k a : ℕ) → bit_and a (2 ^ k - 1) ≡ a % 2 ^ k
and_ones zero a = omega (arith, bit_and-bitwise a 0, digits_none a a)
and_ones (suc k) a = omega (
  arith,
  and_step a (2 ^ suc k - 1),
  ap (bit_and (a / 2)) (half_ones k),
  and_ones k (a / 2),
  half_mod a k,
  double_pow k,
  pow_pos k,
)
  where
    half_ones : (j : ℕ) → (2 ^ suc j - 1) / 2 ≡ 2 ^ j - 1
    half_ones j = omega (arith, double_pow j)
