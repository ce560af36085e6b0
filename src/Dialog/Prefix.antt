-- ===== src/Dialog/Prefix.antt =====
-- src/socket_connection/socket_dialog/serialized_binary_dialog.rs, the utilities: a message's size in as
-- few bytes as the greatest size needs. `usize` has 64 bits.
use reactive_messaging.Prelude.{
  ℕ, zero, suc, ◌+◌, ◌-◌, ◌*◌, ◌/◌, ◌%◌, ◌^◌, ◌≤◌, ◌<◌, ◌≡◌, refl, ap, ◌∙◌, arith, List, [], ◌∷◌,
  take, length, ◌⊎◌, inl, inr, false, ltb, lt→ltb, ◌==◌, ==_iff, if◌then◌else◌, bit_or, Eval, done,
  panic, Bool-cases,
}
use native.Mathlib.Nat.{
  mod-eq_of_lt, mod-lt, div-add-mod, add-mul-mod_self_left, div-eq_of_lt, mul-le-mul_right,
}
use native.Mathlib.Decide.{dec_lt}
use reactive_messaging.Prelude.Digits.{pow_pos, double_pow}
use reactive_messaging.Prelude.Bits.{or_disjoint, mask_fits}

-- The `while` loop: a value of 64 bits is zero after eight rounds.
min_bytes_from : ℕ → ℕ → ℕ
min_bytes_from zero value = 0
min_bytes_from (suc fuel) value =
    let rest = min_bytes_from fuel (value / 2 ^ 8) in if value == 0 then 0 else suc rest

unfoldable pub min_bytes_for_usize : ℕ → ℕ
unfolding min_bytes_from
min_bytes_for_usize value = min_bytes_from 8 value

-- The `for` loop from the byte `i` on; a shift by 64 bits or more overflows.
decode_from : ℕ → ℕ → List ℕ → Eval ℕ
decode_from i value [] = done value
decode_from i value (byte ∷ bytes) =
    let rest = decode_from (suc i) (bit_or value (byte * 2 ^ (i * 8) % 2 ^ 64)) bytes in
    if ltb (i * 8) 64 then rest else panic

pub decode_usize_min : List ℕ → Eval ℕ
unfolding decode_from
decode_usize_min bytes = decode_from 0 0 bytes

-- `to_le_bytes()`, for as many bytes.
unfoldable pub to_le_bytes : ℕ → ℕ → List ℕ
to_le_bytes zero value = []
to_le_bytes (suc n) value = value % 256 ∷ to_le_bytes n (value / 256)

pub length-to_le_bytes : (k n value : ℕ) → k ≤ n → length (take k (to_le_bytes n value)) ≡ k
unfolding to_le_bytes
length-to_le_bytes zero n value h = refl
length-to_le_bytes (suc k) zero value h = absurd (omega arith)
length-to_le_bytes (suc k) (suc n) value h =
    ap suc (length-to_le_bytes k n (value / 256) (omega arith))

byte_pow : (k : ℕ) → 2 ^ (suc k * 8) ≡ 256 * 2 ^ (k * 8)
byte_pow k =
    ap (λ (t : ℕ). 2 ^ t) (eight k)
    ∙ omega (
      arith,
      double_pow (k * 8),
      double_pow (suc (k * 8)),
      double_pow (suc (suc (k * 8))),
      double_pow (suc (suc (suc (k * 8)))),
      double_pow (suc (suc (suc (suc (k * 8))))),
      double_pow (suc (suc (suc (suc (suc (k * 8)))))),
      double_pow (suc (suc (suc (suc (suc (suc (k * 8))))))),
      double_pow (suc (suc (suc (suc (suc (suc (suc (k * 8)))))))),
    )
  where
    eight : (j : ℕ) → suc j * 8 ≡ suc (suc (suc (suc (suc (suc (suc (suc (j * 8))))))))
    eight j = omega arith

byte_mod : (a m : ℕ) → 1 ≤ m → a % (256 * m) ≡ a / 256 % m * 256 + a % 256
byte_mod a m h =
    ap (λ (t : ℕ). t % (256 * m)) whole
    ∙ add-mul-mod_self_left (a / 256 % m * 256 + a % 256) (256 * m) (a / 256 / m)
    ∙ mod-eq_of_lt (omega (arith, mod-lt (a / 256) h))
  where
    whole : a ≡ a / 256 % m * 256 + a % 256 + 256 * m * (a / 256 / m)
    whole = omega (arith, div-add-mod (a / 256) m)

byte_mod_pow : (a k : ℕ) → a % 2 ^ (suc k * 8) ≡ a / 256 % 2 ^ (k * 8) * 256 + a % 256
byte_mod_pow a k = ap (λ (t : ℕ). a % t) (byte_pow k) ∙ byte_mod a (2 ^ (k * 8)) (pow_pos (k * 8))

-- The `i`-th byte joins what is decoded already.
join :
    (i value byte : ℕ)
    → i < 8
    → value < 2 ^ (i * 8)
    → byte < 256
    → bit_or value (byte * 2 ^ (i * 8) % 2 ^ 64) ≡ value + byte * 2 ^ (i * 8)
join i value byte hi h hb =
    ap (bit_or value) (mod-eq_of_lt (fits (2 ^ (i * 8)) (mask_fits 8 (i * 8) 64 (omega arith))))
    ∙ or_disjoint 8 (i * 8) value byte (ap (λ (t : ℕ). t % 2 ^ 8) (div-eq_of_lt h)) hb
  where
    small : byte < 256 → byte ≤ 2 ^ 8 - 1
    small k = omega arith

    fits : (x : ℕ) → (2 ^ 8 - 1) * x ≤ 2 ^ 64 - 1 → byte * x < 2 ^ 64
    fits x k = omega (arith, mul-le-mul_right x (small hb))

decode_from-take :
    (k m i value n : ℕ)
    → k ≤ m
    → i + k ≤ 8
    → value < 2 ^ (i * 8)
    → decode_from i value (take k (to_le_bytes m n)) ≡ done (value + n % 2 ^ (k * 8) * 2 ^ (i * 8))
unfolding decode_from to_le_bytes
decode_from-take zero m i value n h b v = ap done (nothing (2 ^ (i * 8)))
  where
    none : (a : ℕ) → a % 1 ≡ 0
    none a = omega arith

    nothing : (x : ℕ) → value ≡ value + n % 1 * x
    nothing x = omega (arith, ap (λ (t : ℕ). t * x) (none n))
decode_from-take (suc k) zero i value n h b v = absurd (omega arith)
decode_from-take (suc k) (suc m) i value n h b v =
    rw (lt→ltb (i * 8) 64 (omega arith), join i value (n % 256) (omega arith) v (omega arith))
      (decode_from-take k m (suc i) (value + n % 256 * 2 ^ (i * 8)) (n / 256) (omega arith)
          (omega arith) (omega (arith, byte_pow i, mul-le-mul_right (2 ^ (i * 8)) (byte n)))
        ∙ ap done (regroup (2 ^ (i * 8)) (n / 256 % 2 ^ (k * 8))))
  where
    byte : (a : ℕ) → a % 256 ≤ 255
    byte a = omega arith

    regroup :
        (x q : ℕ)
        → value + n % 256 * 2 ^ (i * 8) + n / 256 % 2 ^ (k * 8) * 2 ^ (suc i * 8)
          ≡ value + n % 2 ^ (suc k * 8) * 2 ^ (i * 8)
    regroup x q = rw (byte_pow i, byte_mod_pow n k) (omega arith)

min_bytes_lem :
    (fuel value : ℕ)
    → value < 2 ^ (fuel * 8)
    → (min_bytes_from fuel value ≤ fuel)
      × (value < 2 ^ (min_bytes_from fuel value * 8))
      × ((k : ℕ) → k < min_bytes_from fuel value → 2 ^ (k * 8) ≤ value)
unfolding min_bytes_from
min_bytes_lem zero value h = (omega arith, h, λ k l. absurd (omega arith))
min_bytes_lem (suc fuel) value h = elim (Bool-cases (value == 0)) [
  | inl t ↦
      rw t (omega arith, none (omega (arith, (==_iff value 0).0 t)), λ k l. absurd (omega arith))
  | inr f ↦
      let (short, enough, least) =
        min_bytes_lem fuel (value / 256) (omega (arith, byte_pow fuel)) in
      rw f (
        omega arith,
        omega (arith, byte_pow (min_bytes_from fuel (value / 256)), enough),
        λ k. below (positive f) least k,
      )
]
  where
    none : value ≡ 0 → value < 2 ^ 0
    none e = omega arith

    positive : (value == 0) ≡ false → 1 ≤ value
    positive f = ground arith

    below :
        1 ≤ value
        → ((k : ℕ) → k < min_bytes_from fuel (value / 256) → 2 ^ (k * 8) ≤ value / 256)
        → (k : ℕ) → k < suc (min_bytes_from fuel (value / 256))
        → 2 ^ (k * 8) ≤ value
    below p least zero l = p
    below p least (suc k) l = omega (arith, byte_pow k, least k (omega arith))

-- The bytes that `min_bytes_for_usize` counts hold the value, at most eight, and no fewer would do: any
-- smaller number of bytes holds only smaller values.
pub min_bytes_for_usize_least :
    (value k : ℕ)
    → value < 2 ^ 64
    → (min_bytes_for_usize value ≤ 8)
      × (value < 2 ^ (min_bytes_for_usize value * 8))
      × ((min_bytes_for_usize value ≤ k) ⊎ (2 ^ (k * 8) ≤ value))
unfolding min_bytes_for_usize
min_bytes_for_usize_least value k h =
    let (short, enough, least) = min_bytes_lem 8 value h in
    (
      short,
      enough,
      elim (dec_lt k (min_bytes_from 8 value)) [
        | yes l ↦ inr (least k l)
        | no l ↦ inl (omega arith)
      ],
    )

-- A size written in the first bytes that `most` needs is read as its remainder by their range.
pub decode_usize_min-take :
    (most size : ℕ)
    → most < 2 ^ 64
    → decode_usize_min (take (min_bytes_for_usize most) (to_le_bytes 8 size))
      ≡ done (size % 2 ^ (min_bytes_for_usize most * 8))
unfolding decode_usize_min
decode_usize_min-take most size h =
    let (short, enough, least) = min_bytes_for_usize_least most 0 h in
    decode_from-take (min_bytes_for_usize most) 8 0 0 size short (omega (arith, short))
      (omega arith)
    ∙ ap done (plain (size % 2 ^ (min_bytes_for_usize most * 8)))
  where
    plain : (x : ℕ) → 0 + x * 2 ^ (0 * 8) ≡ x
    plain x = omega arith

-- So a size up to `most` is read back.
pub decode_usize_min_fits :
    (most size : ℕ)
    → most < 2 ^ 64
    → size ≤ most
    → decode_usize_min (take (min_bytes_for_usize most) (to_le_bytes 8 size)) ≡ done size
decode_usize_min_fits most size h le =
    let (short, enough, least) = min_bytes_for_usize_least most 0 h in
    decode_usize_min-take most size h ∙ ap done (mod-eq_of_lt (omega (arith, enough)))
