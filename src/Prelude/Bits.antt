-- ===== src/Prelude/Bits.antt =====
-- Fields of words: `!mask`, clearing a field and `|` into a cleared one, for every width and position.
use Prim.Native.Nat.{
  ℕ, zero, suc, ◌+◌, ◌-◌, ◌*◌, ◌/◌, ◌%◌, ◌^◌, ◌≤◌, ◌<◌, max, bit_and, bit_or, bit_xor, digits,
  bit_or-bitwise, bit_xor-bitwise, differ,
}
use mathlib.Core.Path.{◌≡◌, refl, ap}
use native.Mathlib.Nat.{mod-eq_of_lt, le_trans, mul-le-mul_right, mod-le, div-mul-le_self}
use native.Mathlib.Omega.{arith}
use reactive_messaging.Prelude.Digits.{
  and_step, or_step, xor_step, pow_pos, double_pow, half_div, half_mod, and_ones,
}

-- `!m` on `w` bits.
pub not_ones : (w m : ℕ) → m ≤ 2 ^ w - 1 → bit_xor (2 ^ w - 1) m ≡ 2 ^ w - 1 - m
not_ones zero m h = omega (arith, bit_xor-bitwise 0 m)
not_ones (suc w) m h = grind (
  arith,
  xor_step (2 ^ suc w - 1) m,
  ap (λ (t : ℕ). bit_xor t (m / 2)) (half_ones w),
  not_ones w (m / 2) (omega (arith, double_pow w, pow_pos w)),
  flip_digit ((2 ^ suc w - 1) % 2) (m % 2) (omega (arith, double_pow w, pow_pos w)) (omega arith),
  double_pow w,
  pow_pos w,
)
  where
    half_ones : (j : ℕ) → (2 ^ suc j - 1) / 2 ≡ 2 ^ j - 1
    half_ones j = omega (arith, double_pow j)

    flip_digit : (o d : ℕ) → o ≡ 1 → d < 2 → differ o d ≡ 1 - d
    flip_digit zero d e h = absurd (omega arith)
    flip_digit (suc zero) zero e h = refl
    flip_digit (suc zero) (suc zero) e h = refl
    flip_digit (suc zero) (suc (suc d)) e h = absurd (omega arith)
    flip_digit (suc (suc o)) d e h = absurd (omega arith)

-- The ones that `set_bits` clears: `l` of them, from bit `s` on.
abbrev pub mask : ℕ → ℕ → ℕ
mask l s = (2 ^ l - 1) * 2 ^ s

-- What those bits of `a` hold.
abbrev pub field : ℕ → ℕ → ℕ → ℕ
field l s a = a / 2 ^ s % 2 ^ l

pub field_low : (l a : ℕ) → field l 0 a ≡ a % 2 ^ l
field_low l a = ap (λ (t : ℕ). t % 2 ^ l) (div_one a)
  where
    div_one : (n : ℕ) → n / 2 ^ 0 ≡ n
    div_one n = omega arith

pub field-suc : (l s a : ℕ) → field l (suc s) a ≡ field l s (a / 2)
field-suc l s a = ap (λ (t : ℕ). t % 2 ^ l) (half_div a s)

pub field_part : (l s a : ℕ) → field l (suc s) a * 2 ^ suc s ≡ 2 * (field l s (a / 2) * 2 ^ s)
field_part l s a = rw (field-suc l s a, double_pow s) (omega arith)

pub field-le : (l s a : ℕ) → field l s a * 2 ^ s ≤ a
field-le l s a =
    le_trans (mul-le-mul_right (2 ^ s) (mod-le (a / 2 ^ s) (2 ^ l))) (div-mul-le_self a (2 ^ s))

mask-suc : (l s : ℕ) → mask l (suc s) ≡ 2 * mask l s
mask-suc l s = omega (arith, ap (λ (t : ℕ). (2 ^ l - 1) * t) (double_pow s))

pub mask_fits : (l s w : ℕ) → s + l ≤ w → mask l s ≤ 2 ^ w - 1
mask_fits zero zero w h = omega arith
mask_fits (suc l) zero zero h = absurd (omega arith)
mask_fits (suc l) zero (suc w) h =
    omega (arith, mask_fits l zero w (omega arith), double_pow l, double_pow w, pow_pos w)
mask_fits l (suc s) zero h = absurd (omega arith)
mask_fits l (suc s) (suc w) h =
    omega (arith, mask-suc l s, mask_fits l s w (omega arith), double_pow w, pow_pos w)

-- One digit of `a & !m`, for an even mask and for an odd one.
and_even :
    (w a m : ℕ)
    → m ≤ 2 ^ w - 1
    → bit_and a (2 ^ suc w - 1 - 2 * m) ≡ bit_and (a / 2) (2 ^ w - 1 - m) * 2 + a % 2
and_even w a m h = omega (
  arith,
  and_step a (2 ^ suc w - 1 - 2 * m),
  ap (bit_and (a / 2)) (half w m h),
  double_pow w,
  pow_pos w,
)
  where
    half : (v n : ℕ) → n ≤ 2 ^ v - 1 → (2 ^ suc v - 1 - 2 * n) / 2 ≡ 2 ^ v - 1 - n
    half v n k = omega (arith, double_pow v, pow_pos v)

and_odd :
    (w a m : ℕ)
    → m ≤ 2 ^ w - 1
    → bit_and a (2 ^ suc w - 1 - (2 * m + 1)) ≡ bit_and (a / 2) (2 ^ w - 1 - m) * 2
and_odd w a m h = omega (
  arith,
  and_step a (2 ^ suc w - 1 - (2 * m + 1)),
  ap (bit_and (a / 2)) (half w m h),
  double_pow w,
  pow_pos w,
)
  where
    half : (v n : ℕ) → n ≤ 2 ^ v - 1 → (2 ^ suc v - 1 - (2 * n + 1)) / 2 ≡ 2 ^ v - 1 - n
    half v n k = omega (arith, double_pow v, pow_pos v)

-- `a & !mask` takes the field out of `a`.
pub and_not_mask :
    (l s w a : ℕ)
    → s + l ≤ w
    → a < 2 ^ w
    → bit_and a (2 ^ w - 1 - mask l s) ≡ a - field l s a * 2 ^ s
and_not_mask zero zero w a h b =
    omega (arith, ap (bit_and a) (sub_none (2 ^ w - 1)), and_ones w a, mod-eq_of_lt b)
  where
    sub_none : (n : ℕ) → n - mask 0 0 ≡ n
    sub_none n = omega arith
and_not_mask (suc l) zero zero a h b = absurd (omega arith)
and_not_mask (suc l) zero (suc w) a h b = omega (
  arith,
  ap (λ (t : ℕ). bit_and a (2 ^ suc w - 1 - t)) (odd_mask l),
  and_odd w a (mask l 0) (mask_fits l 0 w (omega arith)),
  and_not_mask l zero w (a / 2) (omega arith) (omega (arith, double_pow w)),
  half_mod a l,
  field_low (suc l) a,
  field_low l (a / 2),
)
  where
    odd_mask : (j : ℕ) → mask (suc j) 0 ≡ 2 * mask j 0 + 1
    odd_mask j = omega (arith, double_pow j, pow_pos j)
and_not_mask l (suc s) zero a h b = absurd (omega arith)
and_not_mask l (suc s) (suc w) a h b = omega (
  arith,
  ap (λ (t : ℕ). bit_and a (2 ^ suc w - 1 - t)) (mask-suc l s),
  and_even w a (mask l s) (mask_fits l s w (omega arith)),
  and_not_mask l s w (a / 2) (omega arith) (omega (arith, double_pow w)),
  field_part l s a,
  field-le l s (a / 2),
)

or_zero : (n a : ℕ) → a ≤ n → digits (λ b. b) max n a 0 ≡ a
or_zero zero a h = omega arith
or_zero (suc n) zero h = refl
or_zero (suc n) (suc a) h = omega (arith, or_zero n (suc a / 2) (omega arith))

-- `|` of a value into a field that holds zero is a sum.
pub or_disjoint : (l s a v : ℕ) → field l s a ≡ 0 → v < 2 ^ l → bit_or a (v * 2 ^ s) ≡ a + v * 2 ^ s
or_disjoint zero zero a v e h =
    omega (arith, ap (bit_or a) (none v h), bit_or-bitwise a 0, or_zero a a (omega arith))
  where
    none : (u : ℕ) → u < 1 → u * 2 ^ 0 ≡ 0
    none u k = omega arith
or_disjoint (suc l) zero a v e h = omega (
  arith,
  or_step a (v * 2 ^ 0),
  ap (bit_or (a / 2)) (half v),
  low_digit v,
  even,
  or_disjoint l zero (a / 2) (v / 2)
      (omega (arith, half_mod a l, field_low (suc l) a, field_low l (a / 2)))
      (omega (arith, double_pow l)),
  half_mod a l,
)
  where
    even : a % 2 ≡ 0
    even = omega (arith, e, half_mod a l, field_low (suc l) a)

    low_digit : (u : ℕ) → u * 2 ^ 0 % 2 ≡ u % 2
    low_digit u = omega arith

    half : (u : ℕ) → u * 2 ^ 0 / 2 ≡ u / 2 * 2 ^ 0
    half u = omega arith
or_disjoint l (suc s) a v e h = omega (
  arith,
  or_step a (v * 2 ^ suc s),
  ap (bit_or (a / 2)) (half v s),
  or_disjoint l s (a / 2) v (omega (arith, field-suc l s a)) h,
  ap (λ (t : ℕ). v * t) (double_pow s),
)
  where
    half : (u j : ℕ) → u * 2 ^ suc j / 2 ≡ u * 2 ^ j
    half u j = omega (arith, ap (λ (t : ℕ). u * t) (double_pow j))

-- `a & mask` keeps the field in its place.
pub and_mask : (l s a : ℕ) → bit_and a (mask l s) ≡ field l s a * 2 ^ s
and_mask l zero a = omega (arith, ap (bit_and a) (low l), and_ones l a, field_low l a)
  where
    low : (j : ℕ) → mask j 0 ≡ 2 ^ j - 1
    low j = omega arith
and_mask l (suc s) a = omega (
  arith,
  ap (bit_and a) (mask-suc l s),
  and_step a (2 * mask l s),
  ap (bit_and (a / 2)) (half (mask l s)),
  and_mask l s (a / 2),
  field_part l s a,
)
  where
    half : (m : ℕ) → 2 * m / 2 ≡ m
    half m = omega arith
