-- ===== src/Config/Word/Laws.antt =====
-- What `set_bits` writes is what `get_bits` reads, and other fields stay.
use reactive_messaging.Prelude.{
  ℕ, zero, suc, ◌+◌, ◌-◌, ◌*◌, ◌/◌, ◌%◌, ◌^◌, ◌≤◌, ◌<◌, ◌≡◌, refl, sym, ap, ap₂, ◌∙◌, ◌⊎◌, inl, inr,
  bit_and, bit_or, bit_xor, arith, done, panic, true, false, ltb, ==_iff, lt→ltb,
}
use native.Mathlib.Nat.{mod-eq_of_lt, mul-le-mul_right, div-eq_of_lt}
use native.Mathlib.Decide.{dec_lt}
use reactive_messaging.Prelude.Digits.{and_ones, pow_pos, double_pow}
use reactive_messaging.Prelude.Bits.{field, mask, mask_fits, not_ones, and_not_mask, or_disjoint}
use reactive_messaging.Prelude.Fields.{put, field-put, field_below-put, field_above-put, put-lt}
use reactive_messaging.Config.Word.{
  BitRange, bits_len, get_bits, set_bits, ilog2_from, ilog2, is_power_of_two,
  set_bits_from_power_of_2_u32, set_bits_from_power_of_2_u16, shl_one,
}

-- A range that lies within a `u64`.
pub record IsRange (bits : BitRange) : Type 0 where
  pub ordered : bits.start ≤ bits.end
  pub within : bits.end < 64

-- A range that is not all of it: a shift by its length does not overflow.
pub record IsNarrow (bits : BitRange) : Type 0 where
  pub ordered : bits.start ≤ bits.end
  pub within : bits.end < 64
  pub narrow : bits_len bits < 64

abbrev pub AreDisjoint : BitRange → BitRange → Type 0
AreDisjoint a b = (a.end < b.start) ⊎ (b.end < a.start)

pub get_bits-field :
    (config : ℕ) (bits : BitRange)
    → bits_len bits < 64
    → get_bits config bits ≡ done (field (bits_len bits) bits.start config)
unfolding get_bits
get_bits-field config bits h =
    rw (lt→ltb (bits_len bits) 64 h) (ap done (and_ones (bits_len bits) (config / 2 ^ bits.start)))

cleared : (l s c : ℕ) → field l s (c - field l s c * 2 ^ s) ≡ 0
cleared l s c = ap (field l s) (nothing (c - field l s c * 2 ^ s)) ∙ field-put l s c 0 (pow_pos l)
  where
    nothing : (n : ℕ) → n ≡ n + 0 * 2 ^ s
    nothing n = omega arith

-- The expression that `set_bits` evaluates, where the field lies within 64 bits.
written :
    (l s c v : ℕ)
    → s + l ≤ 64
    → c < 2 ^ 64
    → v < 2 ^ l
    → bit_or (bit_and c (bit_xor (2 ^ 64 - 1) (mask l s % 2 ^ 64))) (v * 2 ^ s % 2 ^ 64)
      ≡ put l s c v
written l s c v h b k =
    ap₂ bit_or
      (ap (bit_and c) (
          ap (bit_xor (2 ^ 64 - 1)) (mod-eq_of_lt (omega (arith, bound)))
          ∙ not_ones 64 (mask l s) bound)
        ∙ and_not_mask l s 64 c h b)
      (mod-eq_of_lt (omega (arith, bound, mul-le-mul_right (2 ^ s) small)))
    ∙ or_disjoint l s (c - field l s c * 2 ^ s) v (cleared l s c) k
  where
    bound : mask l s ≤ 2 ^ 64 - 1
    bound = mask_fits l s 64 h

    small : v ≤ 2 ^ l - 1
    small = omega arith

pub set_bits-put :
    (config : ℕ) (bits : BitRange) (value : ℕ)
    → IsNarrow bits
    → config < 2 ^ 64
    → value < 2 ^ bits_len bits
    → set_bits config bits value ≡ done (put (bits_len bits) bits.start config value)
unfolding set_bits
set_bits-put config bits value r c v =
    rw (lt→ltb (bits_len bits) 64 r.narrow, fits (2 ^ bits_len bits) value v)
      (ap done
        (written (bits_len bits) bits.start config value (omega (arith, r.ordered, r.within)) c v))
  where
    fits : (m n : ℕ) → n < m → ltb (m - 1) n ≡ false
    fits m n h = ground arith

overflows : (w n : ℕ) → w ≤ n → shl_one w n ≡ panic
overflows w n h = ground arith

-- A mask of 64 ones is more than `(1 << bits_len) - 1` can be.
set_bits_overflows :
    (config : ℕ) (bits : BitRange) (value : ℕ)
    → 64 ≤ bits_len bits
    → set_bits config bits value ≡ panic
unfolding set_bits
set_bits_overflows config bits value h = rw (overflows 64 (bits_len bits) h) refl

set_bits_too_wide :
    (config : ℕ) (bits : BitRange) (value : ℕ)
    → 2 ^ bits_len bits ≤ value
    → set_bits config bits value ≡ panic
unfolding set_bits
set_bits_too_wide config bits value h = elim (dec_lt (bits_len bits) 64) [
  | yes narrow ↦
      rw
        (
          lt→ltb (bits_len bits) 64 narrow,
          lt→ltb (2 ^ bits_len bits - 1) value (omega (arith, pow_pos (bits_len bits))),
        )
        refl
  | no wide ↦ set_bits_overflows config bits value (omega arith)
]

-- On a range within 64 bits, `set_bits` returns for the values that fit the range, if it is not all the 64
-- bits, and panics on any other value and any other range. What it returns is a `u64` from which
-- `get_bits` reads the value back.
pub set_bits-get_bits :
    (config : ℕ) (bits : BitRange) (value : ℕ)
    → IsRange bits
    → config < 2 ^ 64
    → ((bits_len bits < 64)
        × (value < 2 ^ bits_len bits)
        × ((config' : ℕ) × (set_bits config bits value ≡ done config')
            × (config' < 2 ^ 64)
            × (get_bits config' bits ≡ done value)))
      ⊎ (((64 ≤ bits_len bits) ⊎ (2 ^ bits_len bits ≤ value))
          × (set_bits config bits value ≡ panic))
set_bits-get_bits config bits value r c = elim (dec_lt (bits_len bits) 64) [
  | yes narrow ↦ elim (dec_lt value (2 ^ bits_len bits)) [
    | yes v ↦ inl (
      narrow,
      v,
      (
        put (bits_len bits) bits.start config value,
        set_bits-put config bits value (omega (arith, r.ordered, r.within, narrow)) c v,
        put-lt (bits_len bits) bits.start 64 config value (omega (arith, r.ordered, r.within)) v c,
        get_bits-field _ bits narrow
            ∙ ap done (field-put (bits_len bits) bits.start config value v),
      ),
    )
    | no v ↦ inr (inr (omega arith), set_bits_too_wide config bits value (omega arith))
  ]
  | no wide ↦ inr (inl (omega arith), set_bits_overflows config bits value (omega arith))
]

-- Disjoint ranges are both narrower than 64 bits.
disjoint-IsNarrow :
    (bits others : BitRange)
    → IsRange bits
    → IsRange others
    → AreDisjoint bits others
    → IsNarrow bits × IsNarrow others
disjoint-IsNarrow bits others r q (inl below) = (
  omega (arith, r.ordered, r.within, q.ordered, q.within),
  omega (arith, r.ordered, r.within, q.ordered, q.within),
)
disjoint-IsNarrow bits others r q (inr above) = (
  omega (arith, r.ordered, r.within, q.ordered, q.within),
  omega (arith, r.ordered, r.within, q.ordered, q.within),
)

put_kept :
    (config : ℕ) (bits others : BitRange) (value : ℕ)
    → IsRange bits
    → IsRange others
    → AreDisjoint bits others
    → value < 2 ^ bits_len bits
    → field (bits_len others) others.start (put (bits_len bits) bits.start config value)
      ≡ field (bits_len others) others.start config
put_kept config bits others value r q (inl below) v =
    field_above-put (bits_len others) others.start (bits_len bits) bits.start config value
      (omega (arith, r.ordered)) v
put_kept config bits others value r q (inr above) v =
    field_below-put (bits_len others) others.start (bits_len bits) bits.start config value
      (omega (arith, q.ordered))

-- Where `set_bits` returns, every range that is disjoint from the one written reads as before.
pub set_bits_keeps :
    (config config' : ℕ) (bits others : BitRange) (value : ℕ)
    → IsRange bits
    → IsRange others
    → AreDisjoint bits others
    → config < 2 ^ 64
    → set_bits config bits value ≡ done config'
    → get_bits config' others ≡ get_bits config others
set_bits_keeps config config' bits others value r q apart c e =
    elim (dec_lt value (2 ^ bits_len bits)) [
      | yes v ↦
          ap (λ (t : ℕ). get_bits t others) (same v)
          ∙ get_bits-field _ others narrow.1.narrow
          ∙ ap done (put_kept config bits others value r q apart v)
          ∙ sym (get_bits-field config others narrow.1.narrow)
      | no v ↦ cc (e, set_bits_too_wide config bits value (omega arith))
    ]
  where
    narrow : IsNarrow bits × IsNarrow others
    narrow = disjoint-IsNarrow bits others r q apart

    same : value < 2 ^ bits_len bits → config' ≡ put (bits_len bits) bits.start config value
    same v = cc (e, set_bits-put config bits value narrow.0 c v)

ilog2_from-pow : (k fuel : ℕ) → k ≤ fuel → ilog2_from fuel (2 ^ k) ≡ k
unfolding ilog2_from
ilog2_from-pow zero zero h = refl
ilog2_from-pow zero (suc fuel) h = refl
ilog2_from-pow (suc k) zero h = absurd (omega arith)
ilog2_from-pow (suc k) (suc fuel) h = ground (
  arith,
  double_pow k,
  pow_pos k,
  ap (ilog2_from fuel) (half k),
  ilog2_from-pow k fuel (omega arith),
)
  where
    half : (j : ℕ) → 2 ^ suc j / 2 ≡ 2 ^ j
    half j = omega (arith, double_pow j)

pub ilog2-pow : (k : ℕ) → k < 64 → ilog2 (2 ^ k) ≡ k
unfolding ilog2
ilog2-pow k h = ilog2_from-pow k 64 (omega arith)

pub is_power_of_two-pow : (k : ℕ) → k < 64 → is_power_of_two (2 ^ k) ≡ true
unfolding is_power_of_two
is_power_of_two-pow k h =
    (==_iff (2 ^ ilog2 (2 ^ k)) (2 ^ k)).1 (ap (λ (t : ℕ). 2 ^ t) (ilog2-pow k h))

-- Writing above everything that is there already is a sum.
pub set_bits_above :
    (config : ℕ) (bits : BitRange) (value : ℕ)
    → IsNarrow bits
    → config < 2 ^ bits.start
    → config < 2 ^ 64
    → value < 2 ^ bits_len bits
    → set_bits config bits value ≡ done (config + value * 2 ^ bits.start)
set_bits_above config bits value r low c v =
    set_bits-put config bits value r c v ∙ ap done (omega (arith, nothing))
  where
    none : (n : ℕ) → 0 * n ≡ 0
    none n = omega arith

    nothing : field (bits_len bits) bits.start config * 2 ^ bits.start ≡ 0
    nothing =
        ap (λ (t : ℕ). t * 2 ^ bits.start)
          (ap (λ (t : ℕ). t % 2 ^ bits_len bits) (div-eq_of_lt low)
            ∙ mod-eq_of_lt (pow_pos (bits_len bits)))
        ∙ none (2 ^ bits.start)

-- So is writing a power of two there.
pub set_power_above :
    (config : ℕ) (bits : BitRange) (k value : ℕ)
    → IsNarrow bits
    → config < 2 ^ bits.start
    → config < 2 ^ 64
    → k < 2 ^ bits_len bits
    → k < 64
    → value ≡ 2 ^ k
    → (set_bits_from_power_of_2_u32 config bits value ≡ done (config + k * 2 ^ bits.start))
      × (set_bits_from_power_of_2_u16 config bits value ≡ done (config + k * 2 ^ bits.start))
unfolding set_bits_from_power_of_2_u32 set_bits_from_power_of_2_u16
set_power_above config bits k value r low c v h e = (
  rw (ap is_power_of_two e ∙ is_power_of_two-pow k h, exponent) sum,
  rw (ap is_power_of_two e ∙ is_power_of_two-pow k h, exponent) sum,
)
  where
    exponent : ilog2 value ≡ k
    exponent = ap ilog2 e ∙ ilog2-pow k h

    sum : set_bits config bits k ≡ done (config + k * 2 ^ bits.start)
    sum = set_bits_above config bits k r low c v
