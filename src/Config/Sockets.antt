-- ===== src/Config/Sockets.antt =====
-- src/config.rs: `SocketOptions` and its 16-bit representation.
pub mod RoundTrip
use reactive_messaging.Prelude.{
  ℕ, ◌+◌, ◌*◌, ◌/◌, ◌%◌, ◌^◌, ◌≤◌, ◌<◌, ◌≡◌, refl, ap, ◌∙◌, sym, bit_and, bit_or, arith, Bool, true,
  false, Option, none, some, Eval, done, panic, ◌>>=◌, ltb, ◌==◌, if◌then◌else◌,
}
use native.Mathlib.Nat.{mod-eq_of_lt}
use reactive_messaging.Prelude.Digits.{pow_pos}
use reactive_messaging.Prelude.Bits.{field, and_mask, or_disjoint}
use reactive_messaging.Prelude.Fields.{put}
use reactive_messaging.Config.Word.{
  BitRange, get_power_of_2_u32_bits, get_bits, set_bits, set_bits_from_power_of_2_u32,
  is_power_of_two, ilog2,
}
use reactive_messaging.Config.Word.Laws.{
  get_bits-field, set_bits-put, ilog2-pow, is_power_of_two-pow,
}

-- `hops_to_live` is a `NonZeroU8`, `linger_millis` a `u32`.
pub record SocketOptions : Type 0 where
  pub hops_to_live : Option ℕ
  pub linger_millis : Option ℕ
  pub no_delay : Option Bool

abbrev from_bool : Bool → ℕ
from_bool true = 1
from_bool false = 0

abbrev is_some {ℓ} : {A : Type ℓ} → Option A → Bool
is_some none = false
is_some (some a) = true

unwrap_bool_or_default : Option Bool → Bool
unwrap_bool_or_default none = false
unwrap_bool_or_default (some v) = v

unwrap_non_zero_u8_or_default : Option ℕ → ℕ
unwrap_non_zero_u8_or_default none = 0
unwrap_non_zero_u8_or_default (some v) = v

abbrev linger_bits : BitRange
linger_bits = record { start = 3; end = 7 }

-- The data of the linger option: nothing is written for 0.
linger_data : Option ℕ → Eval ℕ
unfolding set_bits_from_power_of_2_u32
linger_data none = done 0
linger_data (some linger_millis) =
    if ltb 0 linger_millis then set_bits_from_power_of_2_u32 0 linger_bits linger_millis else done 0

pub as_repr : SocketOptions → Eval ℕ
unfolding linger_data unwrap_bool_or_default unwrap_non_zero_u8_or_default
as_repr o = do
  linger ← linger_data o.linger_millis
  done (
      bit_or
        (bit_or
          (bit_or
            (bit_or (from_bool (is_some o.no_delay))
              (from_bool (unwrap_bool_or_default o.no_delay) * 2 ^ 1 % 2 ^ 32))
            (from_bool (is_some o.linger_millis) * 2 ^ 2 % 2 ^ 32))
          (linger % 2 ^ 32))
        (unwrap_non_zero_u8_or_default o.hops_to_live * 2 ^ 8 % 2 ^ 32))

-- `NonZeroU8::new(hops as u8)`
non_zero_u8 : ℕ → Option ℕ
non_zero_u8 hops = if hops == 0 then none else some hops

pub from_repr : ℕ → Eval SocketOptions
unfolding get_power_of_2_u32_bits non_zero_u8
from_repr repr = do
  let no_delay_flag = ltb 0 (bit_and repr (1 * 2 ^ 0))
  let no_delay_data = ltb 0 (bit_and repr (1 * 2 ^ 1))
  let linger_flag = ltb 0 (bit_and repr (1 * 2 ^ 2))
  linger_data ← get_power_of_2_u32_bits repr linger_bits
  let hops = bit_and repr (255 * 2 ^ 8) / 2 ^ 8
  done (record {
    hops_to_live = if ltb 0 hops then non_zero_u8 (hops % 256) else none;
    linger_millis = if linger_flag then some linger_data else none;
    no_delay = if no_delay_flag then some no_delay_data else none;
  })

-- The options that the representation is meant for.
abbrev IsHops : Option ℕ → Type 0
IsHops none = Unit {0}
IsHops (some h) = (1 ≤ h) × (h < 256)

abbrev IsLinger : Option ℕ → Type 0
IsLinger none = Unit {0}
IsLinger (some m) = (k : ℕ) × (k < 32) × (m ≡ 2 ^ k)

pub record IsOptions (o : SocketOptions) : Type 0 where
  pub hops : IsHops o.hops_to_live
  pub linger : IsLinger o.linger_millis

-- `|` of a shifted value above everything that is there already.
or_above :
    (l s a v : ℕ)
    → a / 2 ^ s ≡ 0
    → v < 2 ^ l
    → v * 2 ^ s < 2 ^ 32
    → bit_or a (v * 2 ^ s % 2 ^ 32) ≡ a + v * 2 ^ s
or_above l s a v e h b =
    ap (bit_or a) (mod-eq_of_lt b)
    ∙ or_disjoint l s a v (ap (λ (t : ℕ). t % 2 ^ l) e ∙ mod-eq_of_lt (pow_pos l)) h

-- The representation in arithmetic.
packed :
    (f d g k h : ℕ)
    → f < 2
    → d < 2
    → g < 2
    → k < 32
    → h < 256
    → bit_or
        (bit_or (bit_or (bit_or f (d * 2 ^ 1 % 2 ^ 32)) (g * 2 ^ 2 % 2 ^ 32)) (k * 2 ^ 3 % 2 ^ 32))
        (h * 2 ^ 8 % 2 ^ 32)
      ≡ f + d * 2 + g * 4 + k * 8 + h * 256
packed f d g k h bf bd bg bk bh =
    ap (λ (t : ℕ). bit_or t (h * 2 ^ 8 % 2 ^ 32))
      (ap (λ (t : ℕ). bit_or t (k * 2 ^ 3 % 2 ^ 32))
          (ap (λ (t : ℕ). bit_or t (g * 2 ^ 2 % 2 ^ 32))
              (or_above 1 1 f d (omega arith) bd (omega arith))
            ∙ or_above 1 2 (f + d * 2) g (omega arith) bg (omega arith))
        ∙ or_above 5 3 (f + d * 2 + g * 4) k (omega arith) bk (omega arith))
    ∙ or_above 8 8 (f + d * 2 + g * 4 + k * 8) h (omega arith) bh (omega arith)

-- The parts of a 16-bit representation.
hops_part : (r : ℕ) → r < 2 ^ 16 → bit_and r (255 * 2 ^ 8) / 2 ^ 8 ≡ r / 256
hops_part r h = omega (arith, and_mask 8 8 r)

linger_part : (r : ℕ) → get_bits r linger_bits ≡ done (r / 8 % 32)
linger_part r = get_bits-field r linger_bits (omega arith)

from_repr_lem :
    (r : ℕ)
    → r < 2 ^ 16
    → from_repr r
      ≡ done (record {
        hops_to_live = if ltb 0 (r / 256) then some (r / 256) else none;
        linger_millis = if ltb 0 (r / 4 % 2) then some (2 ^ (r / 8 % 32)) else none;
        no_delay = if ltb 0 (r % 2) then some (ltb 0 (r / 2 % 2)) else none;
      })
unfolding from_repr
from_repr_lem r h =
    ground (arith, and_mask 1 0 r, and_mask 1 1 r, and_mask 1 2 r, hops_part r h, linger_part r)
