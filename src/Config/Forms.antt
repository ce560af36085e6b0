-- ===== src/Config/Forms.antt =====
-- src/config.rs: `MessageForms` and its 7-bit representation.
use reactive_messaging.Prelude.{
  ℕ, ◌+◌, ◌*◌, ◌/◌, ◌%◌, ◌^◌, ◌<◌, ◌≡◌, refl, ap, bit_and, arith, Eval, done, panic, ◌>>=◌, ◌==◌,
  if◌then◌else◌,
}
use native.Mathlib.Nat.{mod-eq_of_lt}
use reactive_messaging.Prelude.Digits.{and_ones}
use reactive_messaging.Config.Word.{
  BitRange, get_bits, get_power_of_2_u32_bits, set_bits_from_power_of_2_u32, is_power_of_two, ilog2,
  ilog2_from,
}
use reactive_messaging.Config.Word.Laws.{get_bits-field, set_power_above}

-- The sizes are `u32`.
pub data MessageForms : Type 0 where
  textual : ℕ → MessageForms
  variable_binary : ℕ → MessageForms
  mmap_binary : ℕ → MessageForms

abbrev size_bits : BitRange
size_bits = record { start = 2; end = 6 }

-- `as u8`
abbrev as_u8 : Eval ℕ → Eval ℕ
as_u8 word = do w ← word; done (w % 2 ^ 8)

pub as_repr : MessageForms → Eval ℕ
unfolding set_bits_from_power_of_2_u32
as_repr (textual max_size) = as_u8 (set_bits_from_power_of_2_u32 0 size_bits max_size)
as_repr (variable_binary max_size) = as_u8 (set_bits_from_power_of_2_u32 1 size_bits max_size)
as_repr (mmap_binary size) = as_u8 (set_bits_from_power_of_2_u32 2 size_bits size)

pub from_repr : ℕ → Eval MessageForms
unfolding get_power_of_2_u32_bits
from_repr repr = do
  n ← get_power_of_2_u32_bits repr size_bits
  let variant = bit_and repr 0x03
  if variant == 0
      then done (textual n)
      else if variant == 1
      then done (variable_binary n)
      else if variant == 2
      then done (mmap_binary n)
      else panic

abbrev pub size_of : MessageForms → ℕ
size_of (textual max_size) = max_size
size_of (variable_binary max_size) = max_size
size_of (mmap_binary size) = size

abbrev variant_of : MessageForms → ℕ
variant_of (textual max_size) = 0
variant_of (variable_binary max_size) = 1
variant_of (mmap_binary size) = 2

encoded :
    (v k n : ℕ)
    → v < 4
    → k < 32
    → n ≡ 2 ^ k
    → as_u8 (set_bits_from_power_of_2_u32 v size_bits n) ≡ done (v + k * 4)
encoded v k n hv h e =
    rw (set_power_above v size_bits k n (omega arith) hv (omega arith) h (omega arith) e).0
      (ap done (mod-eq_of_lt (omega arith)))

-- The exponent of the size, as `from_repr` reads it.
exponent : (v k r : ℕ) → v < 4 → k < 32 → r ≡ v + k * 4 → 2 ^ (r / 4 % 32) ≡ 2 ^ k
exponent v k r hv h e = ap (λ (t : ℕ). 2 ^ t) (omega arith)

as_repr_lem :
    (form : MessageForms) (k : ℕ)
    → k < 32
    → size_of form ≡ 2 ^ k
    → as_repr form ≡ done (variant_of form + k * 4)
unfolding as_repr
as_repr_lem (textual n) k h e = encoded 0 k n (omega arith) h e
as_repr_lem (variable_binary n) k h e = encoded 1 k n (omega arith) h e
as_repr_lem (mmap_binary n) k h e = encoded 2 k n (omega arith) h e

low_two : (r : ℕ) → bit_and r 0x03 ≡ r % 4
low_two r = and_ones 2 r

size_part : (r : ℕ) → get_bits r size_bits ≡ done (r / 4 % 32)
size_part r = get_bits-field r size_bits (omega arith)

from_repr_lem :
    (form : MessageForms) (k r : ℕ)
    → k < 32
    → size_of form ≡ 2 ^ k
    → r ≡ variant_of form + k * 4
    → from_repr r ≡ done form
unfolding from_repr
from_repr_lem (textual n) k r h e p =
    ground (arith, low_two r, size_part r, exponent 0 k r (omega arith) h p)
from_repr_lem (variable_binary n) k r h e p =
    ground (arith, low_two r, size_part r, exponent 1 k r (omega arith) h p)
from_repr_lem (mmap_binary n) k r h e p =
    ground (arith, low_two r, size_part r, exponent 2 k r (omega arith) h p)

variant-lt : (form : MessageForms) → variant_of form < 4
variant-lt (textual n) = omega arith
variant-lt (variable_binary n) = omega arith
variant-lt (mmap_binary n) = omega arith

-- A form whose size is a power of two survives its representation, which takes 7 bits.
from_repr-as_repr_form :
    (form : MessageForms) (k : ℕ)
    → k < 32
    → size_of form ≡ 2 ^ k
    → (r : ℕ) × (as_repr form ≡ done r) × (r < 2 ^ 7) × (from_repr r ≡ done form)
from_repr-as_repr_form form k h e = (
  variant_of form + k * 4,
  as_repr_lem form k h e,
  omega (arith, variant-lt form),
  from_repr_lem form k _ h e refl,
)

-- A variable-size form with no limit, which is what a `max_size` of 0 stands for in the docs of the
-- type, has no representation: it panics, as it does for the other forms.
as_repr_unlimited : (form : MessageForms) → size_of form ≡ 0 → as_repr form ≡ panic
unfolding as_repr is_power_of_two ilog2 ilog2_from
as_repr_unlimited (textual n) e = rw (e, as_repr) refl
as_repr_unlimited (variable_binary n) e = rw (e, as_repr) refl
as_repr_unlimited (mmap_binary n) e = rw (e, as_repr) refl
