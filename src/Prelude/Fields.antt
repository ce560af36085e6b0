-- ===== src/Prelude/Fields.antt =====
-- Writing a field of a word: what is read back from it, and that other fields stay.
use Prim.Native.Nat.{ℕ, zero, suc, ◌+◌, ◌-◌, ◌*◌, ◌/◌, ◌%◌, ◌^◌, ◌≤◌, ◌<◌}
use mathlib.Core.Path.{◌≡◌, sym, ap, ◌∙◌}
use native.Mathlib.Nat.{
  mod-eq_of_lt, mod-le, div-add-mod, add-mul-mod_self_left, div-eq_of_lt, div-lt_iff_lt-mul,
}
use native.Mathlib.Omega.{arith}
use reactive_messaging.Prelude.Digits.{pow_pos, double_pow, half_div, half_mod}
use reactive_messaging.Prelude.Bits.{field, field_low, field-suc, field_part, field-le}

-- `a` with `v` in the field of `l` bits from bit `s` on.
abbrev pub put : ℕ → ℕ → ℕ → ℕ → ℕ
put l s a v = a - field l s a * 2 ^ s + v * 2 ^ s

put-suc : (l s a v : ℕ) → put l (suc s) a v ≡ 2 * put l s (a / 2) v + a % 2
put-suc l s a v =
    omega (arith, field_part l s a, field-le l s (a / 2), ap (λ (t : ℕ). v * t) (double_pow s))

put_low : (l a v : ℕ) → put l 0 a v ≡ a - a % 2 ^ l + v
put_low l a v = omega (arith, field_low l a)

-- `a` rounded down to a multiple of 2 ^ l, and a low part.
low_part : (l a v : ℕ) → v < 2 ^ l → (a - a % 2 ^ l + v) % 2 ^ l ≡ v
low_part l a v h =
    ap (λ (t : ℕ). t % 2 ^ l) (multiple (2 ^ l * (a / 2 ^ l)) (div-add-mod a (2 ^ l)))
    ∙ add-mul-mod_self_left v (2 ^ l) (a / 2 ^ l)
    ∙ mod-eq_of_lt h
  where
    multiple : (m : ℕ) → m + a % 2 ^ l ≡ a → a - a % 2 ^ l + v ≡ v + m
    multiple m e = omega arith

-- The field holds what was put.
pub field-put : (l s a v : ℕ) → v < 2 ^ l → field l s (put l s a v) ≡ v
field-put l zero a v h =
    field_low l (put l 0 a v) ∙ ap (λ (t : ℕ). t % 2 ^ l) (put_low l a v) ∙ low_part l a v h
field-put l (suc s) a v h =
    field-suc l s (put l (suc s) a v)
    ∙ ap (field l s) (half (put l (suc s) a v) (put-suc l s a v))
    ∙ field-put l s (a / 2) v h
  where
    half : (n : ℕ) → n ≡ 2 * put l s (a / 2) v + a % 2 → n / 2 ≡ put l s (a / 2) v
    half n e = omega arith

put_half : (l s a v : ℕ) → put l (suc s) a v / 2 ≡ put l s (a / 2) v
put_half l s a v = omega (arith, put-suc l s a v)

-- A field below the one that is put stays.
put_mod : (k l s a v : ℕ) → k ≤ s → put l s a v % 2 ^ k ≡ a % 2 ^ k
put_mod zero l s a v h = omega arith
put_mod (suc k) l zero a v h = absurd (omega arith)
put_mod (suc k) l (suc s) a v h = omega (
  arith,
  half_mod (put l (suc s) a v) k,
  half_mod a k,
  ap (λ (t : ℕ). t % 2 ^ k) (put_half l s a v),
  put_mod k l s (a / 2) v (omega arith),
  put-suc l s a v,
)

pub field_below-put : (k r l s a v : ℕ) → r + k ≤ s → field k r (put l s a v) ≡ field k r a
field_below-put k zero l s a v h =
    field_low k (put l s a v) ∙ put_mod k l s a v (omega arith) ∙ sym (field_low k a)
field_below-put k (suc r) l zero a v h = absurd (omega arith)
field_below-put k (suc r) l (suc s) a v h =
    field-suc k r (put l (suc s) a v)
    ∙ ap (field k r) (put_half l s a v)
    ∙ field_below-put k r l s (a / 2) v (omega arith)
    ∙ sym (field-suc k r a)

put_low_half : (l a v : ℕ) → put (suc l) 0 a v / 2 ≡ put l 0 (a / 2) (v / 2)
put_low_half l a v =
    omega
      (arith, put_low (suc l) a v, put_low l (a / 2) (v / 2), half_mod a l, mod-le (a / 2) (2 ^ l))

put_none : (a v : ℕ) → v < 1 → put 0 0 a v ≡ a
put_none a v h = omega (arith, put_low 0 a v)

put_div : (l s r a v : ℕ) → s + l ≤ r → v < 2 ^ l → put l s a v / 2 ^ r ≡ a / 2 ^ r
put_div zero zero r a v h b = ap (λ (t : ℕ). t / 2 ^ r) (put_none a v b)
put_div (suc l) zero zero a v h b = absurd (omega arith)
put_div (suc l) zero (suc r) a v h b =
    half_div (put (suc l) 0 a v) r
    ∙ ap (λ (t : ℕ). t / 2 ^ r) (put_low_half l a v)
    ∙ put_div l zero r (a / 2) (v / 2) (omega arith) (omega (arith, double_pow l))
    ∙ sym (half_div a r)
put_div l (suc s) zero a v h b = absurd (omega arith)
put_div l (suc s) (suc r) a v h b =
    half_div (put l (suc s) a v) r
    ∙ ap (λ (t : ℕ). t / 2 ^ r) (put_half l s a v)
    ∙ put_div l s r (a / 2) v (omega arith) b
    ∙ sym (half_div a r)

-- So does a field above it.
pub field_above-put :
    (k r l s a v : ℕ) → s + l ≤ r → v < 2 ^ l → field k r (put l s a v) ≡ field k r a
field_above-put k r l s a v h b = ap (λ (t : ℕ). t % 2 ^ k) (put_div l s r a v h b)

-- The word stays within its width.
pub put-lt : (l s w a v : ℕ) → s + l ≤ w → v < 2 ^ l → a < 2 ^ w → put l s a v < 2 ^ w
put-lt l s w a v h b c =
    omega
      (arith, (div-lt_iff_lt-mul {x = put l s a v} {y = 1} (pow_pos w)).0 (omega (arith, small)))
  where
    small : put l s a v / 2 ^ w ≡ 0
    small = put_div l s w a v h b ∙ div-eq_of_lt c
