-- ===== src/Config/Sockets/RoundTrip.antt =====
-- `SocketOptions::from_repr()` after `SocketOptions::as_repr()`.
use reactive_messaging.Prelude.{
  ℕ, ◌+◌, ◌*◌, ◌/◌, ◌%◌, ◌^◌, ◌<◌, ◌≡◌, refl, sym, ap, ◌∙◌, arith, Bool, true, false, Option, none,
  some, done, if◌then◌else◌,
}
use reactive_messaging.Prelude.Digits.{pow_pos}
use reactive_messaging.Config.Word.{set_bits, set_bits_from_power_of_2_u32, is_power_of_two, ilog2}
use reactive_messaging.Config.Word.Laws.{set_bits-put, ilog2-pow, is_power_of_two-pow}
use reactive_messaging.Config.Sockets.{
  SocketOptions, IsOptions, IsHops, IsLinger, as_repr, from_repr, from_repr_lem, packed, from_bool,
  is_some, unwrap_bool_or_default, unwrap_non_zero_u8_or_default, linger_data, linger_bits,
}

-- The exponent that stands for the linger time.
abbrev exponent : (o : Option ℕ) → IsLinger o → ℕ
exponent none h = 0
exponent (some m) (k, hk, e) = k

exponent-lt : (o : Option ℕ) (h : IsLinger o) → exponent o h < 32
exponent-lt none h = omega arith
exponent-lt (some m) (k, hk, e) = hk

set_linger : (k : ℕ) → k < 32 → set_bits 0 linger_bits k ≡ done (k * 2 ^ 3)
set_linger k h = set_bits-put 0 linger_bits k (omega arith) (omega arith) h ∙ ap done (omega arith)

linger_data_lem : (o : Option ℕ) (h : IsLinger o) → linger_data o ≡ done (exponent o h * 2 ^ 3)
unfolding linger_data set_bits_from_power_of_2_u32
linger_data_lem none h = refl
linger_data_lem (some m) (k, hk, e) = ground (
  arith,
  pow_pos k,
  is_power_of_two-pow k (omega arith),
  ilog2-pow k (omega arith),
  ap is_power_of_two e,
  ap ilog2 e,
  set_linger k hk,
  ap (set_bits 0 linger_bits) (ap ilog2 e ∙ ilog2-pow k (omega arith)),
)

-- The word that represents `o`, where `k` is the exponent of its linger time.
abbrev word : SocketOptions → ℕ → ℕ
word o k =
    from_bool (is_some o.no_delay)
    + from_bool (unwrap_bool_or_default o.no_delay) * 2
    + from_bool (is_some o.linger_millis) * 4
    + k * 8
    + unwrap_non_zero_u8_or_default o.hops_to_live * 256

from_bool-lt : (b : Bool) → from_bool b < 2
from_bool-lt true = omega arith
from_bool-lt false = omega arith

hops-lt : (o : Option ℕ) → IsHops o → unwrap_non_zero_u8_or_default o < 256
unfolding unwrap_non_zero_u8_or_default
hops-lt none h = omega arith
hops-lt (some n) h = h.1

as_repr-word :
    (o : SocketOptions) (k : ℕ)
    → IsHops o.hops_to_live
    → k < 32
    → linger_data o.linger_millis ≡ done (k * 2 ^ 3)
    → as_repr o ≡ done (word o k)
unfolding as_repr
as_repr-word o k h hk e =
    rw (e, as_repr)
      (ap done (
        packed _ _ _ k _ (from_bool-lt (is_some o.no_delay))
          (from_bool-lt (unwrap_bool_or_default o.no_delay))
          (from_bool-lt (is_some o.linger_millis)) hk (hops-lt o.hops_to_live h)))

-- The parts of such a word.
parts :
    (f d g k h r : ℕ)
    → f < 2
    → d < 2
    → g < 2
    → k < 32
    → h < 256
    → r ≡ f + d * 2 + g * 4 + k * 8 + h * 256
    → (r < 2 ^ 16)
      × (r / 256 ≡ h)
      × (r / 8 % 32 ≡ k)
      × (r / 4 % 2 ≡ g)
      × (r / 2 % 2 ≡ d)
      × (r % 2 ≡ f)
parts f d g k h r bf bd bg bk bh e = omega arith

from_repr-word :
    (hops : Option ℕ) (g : Bool) (delay : Option Bool) (k r : ℕ)
    → IsHops hops
    → k < 32
    → r
      ≡ from_bool (is_some delay)
        + from_bool (unwrap_bool_or_default delay) * 2
        + from_bool g * 4
        + k * 8
        + unwrap_non_zero_u8_or_default hops * 256
    → (r < 2 ^ 16)
      × (from_repr r
          ≡ done (record {
            hops_to_live = hops;
            linger_millis = if g then some (2 ^ k) else none;
            no_delay = delay;
          }))
unfolding unwrap_bool_or_default unwrap_non_zero_u8_or_default
from_repr-word hops g delay k r h hk e =
    let p =
      parts (from_bool (is_some delay)) (from_bool (unwrap_bool_or_default delay)) (from_bool g) k
        (unwrap_non_zero_u8_or_default hops) r (from_bool-lt (is_some delay))
        (from_bool-lt (unwrap_bool_or_default delay)) (from_bool-lt g) hk (hops-lt hops h) e in
    ground (arith, from_repr_lem r p.0, p, ap (λ (t : ℕ). 2 ^ t) p.2)

from_word :
    (o : SocketOptions) (h : IsOptions o)
    → (if is_some o.linger_millis then some (2 ^ exponent o.linger_millis h.linger) else none)
      ≡ o.linger_millis
from_word o h = go o.linger_millis h.linger
  where
    go : (m : Option ℕ) (l : IsLinger m) → (if is_some m then some (2 ^ exponent m l) else none) ≡ m
    go none l = refl
    go (some m) (k, hk, e) = ap some (sym e)

-- The options survive their representation, which takes 16 bits.
pub from_repr-as_repr_options :
    (o : SocketOptions)
    → IsOptions o
    → (r : ℕ) × (as_repr o ≡ done r) × (r < 2 ^ 16) × (from_repr r ≡ done o)
from_repr-as_repr_options o h =
    let k = exponent o.linger_millis h.linger in
    let hk = exponent-lt o.linger_millis h.linger in
    let back =
      from_repr-word o.hops_to_live (is_some o.linger_millis) o.no_delay k (word o k) h.hops hk
        refl in
    (
      word o k,
      as_repr-word o k h.hops hk (linger_data_lem o.linger_millis h.linger),
      back.0,
      back.1 ∙ ap (λ (m : Option ℕ). done (record o { linger_millis = m })) (from_word o h),
    )

-- A linger time of zero comes back as one millisecond: its representation is that of one.
linger_zero :
    (o : SocketOptions)
    → IsHops o.hops_to_live
    → o.linger_millis ≡ some 0
    → (r : ℕ) × (as_repr o ≡ done r) × (from_repr r ≡ done (record o { linger_millis = some 1 }))
unfolding linger_data
linger_zero o h e =
    let flagged : is_some o.linger_millis ≡ true = rw e in
    (
      word o 0,
      as_repr-word o 0 h (omega arith) none_written,
      (from_repr-word o.hops_to_live true o.no_delay 0 (word o 0) h (omega arith)
          (rw flagged refl)).1,
    )
  where
    none_written : linger_data o.linger_millis ≡ done (0 * 2 ^ 3)
    none_written = rw (e, linger_data) refl
