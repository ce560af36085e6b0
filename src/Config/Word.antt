-- ===== src/Config/Word.antt =====
-- src/config.rs, the helpers at the end: bit fields of a `u64`, and powers of two kept by their exponent.
pub mod Laws
use reactive_messaging.Prelude.{
  ℕ, zero, suc, ◌+◌, ◌-◌, ◌*◌, ◌/◌, ◌%◌, ◌^◌, Bool, bit_and, bit_or, bit_xor, ltb, ◌==◌,
  if◌then◌else◌, Eval, done, panic, ◌>>=◌,
}

-- `RangeInclusive<usize>`, the bits that a value takes.
pub record BitRange : Type 0 where
  pub start : ℕ
  pub end : ℕ

abbrev pub bits_len : BitRange → ℕ
bits_len bits = bits.end - bits.start + 1

-- `a << n` and `!a` on a `u64`.
abbrev shl64 : ℕ → ℕ → ℕ
shl64 a n = a * 2 ^ n % 2 ^ 64

abbrev not64 : ℕ → ℕ
not64 a = bit_xor (2 ^ 64 - 1) a

-- `1 << n` in `w` bits: an overflow where no such bit is.
abbrev pub shl_one : ℕ → ℕ → Eval ℕ
shl_one w n = if ltb n w then done (2 ^ n) else panic

pub get_bits : ℕ → BitRange → Eval ℕ
get_bits config bits = do
  one ← shl_one 64 (bits_len bits)
  done (bit_and (config / 2 ^ bits.start) (one - 1))

-- `unreachable!()` where the value does not fit.
pub set_bits : ℕ → BitRange → ℕ → Eval ℕ
set_bits config bits value = do
  one ← shl_one 64 (bits_len bits)
  if ltb (one - 1) value
      then panic
      else done
          (bit_or (bit_and config (not64 (shl64 (one - 1) bits.start))) (shl64 value bits.start))

-- `ilog2()` and `is_power_of_two()` of the unsigned integers, up to 64 bits.
unfoldable pub ilog2_from : ℕ → ℕ → ℕ
ilog2_from zero n = 0
ilog2_from (suc fuel) n = let rest = ilog2_from fuel (n / 2) in if ltb n 2 then 0 else suc rest

unfoldable pub ilog2 : ℕ → ℕ
ilog2 n = ilog2_from 64 n

unfoldable pub is_power_of_two : ℕ → Bool
is_power_of_two n = 2 ^ ilog2 n == n

unfoldable pub get_power_of_2_u32_bits : ℕ → BitRange → Eval ℕ
unfolding get_bits
get_power_of_2_u32_bits config bits = do value ← get_bits config bits; shl_one 32 value

unfoldable pub set_bits_from_power_of_2_u32 : ℕ → BitRange → ℕ → Eval ℕ
unfolding set_bits is_power_of_two
set_bits_from_power_of_2_u32 config bits power_of_2_u32_value =
    if is_power_of_two power_of_2_u32_value
    then set_bits config bits (ilog2 power_of_2_u32_value)
    else panic

unfoldable pub get_power_of_2_u16_bits : ℕ → BitRange → Eval ℕ
unfolding get_bits
get_power_of_2_u16_bits config bits = do value ← get_bits config bits; shl_one 16 value

unfoldable pub set_bits_from_power_of_2_u16 : ℕ → BitRange → ℕ → Eval ℕ
unfolding set_bits is_power_of_two
set_bits_from_power_of_2_u16 config bits power_of_2_u16_value =
    if is_power_of_two power_of_2_u16_value
    then set_bits config bits (ilog2 power_of_2_u16_value)
    else panic
