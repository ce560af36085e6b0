-- ===== src/Config/Const/RoundTrip.antt =====
-- `ConstConfig::from()` after `ConstConfig::into()`.
use reactive_messaging.Prelude.{ℕ, ◌+◌, ◌*◌, ◌^◌, ◌<◌, ◌≡◌, refl, ap, ◌∙◌, arith, done, >>=-done}
use native.Mathlib.Nat.{mod-eq_of_lt}
use reactive_messaging.Config.Word.{
  BitRange, get_bits, get_power_of_2_u32_bits, get_power_of_2_u16_bits,
}
use reactive_messaging.Config.Word.Laws.{get_bits-field, set_bits_above, set_power_above}
use reactive_messaging.Config.Strategies.{RetryingStrategies, IsStrategy}
use reactive_messaging.Config.Strategies
use reactive_messaging.Config.Sockets.{SocketOptions, IsOptions}
use reactive_messaging.Config.Sockets
use reactive_messaging.Config.Sockets.RoundTrip
use reactive_messaging.Config.Const.{
  ConstConfig, into, from, sender_channel_size, receiver_channel_size, sender_max_msg_size,
  receiver_max_msg_size, flush_timeout_millis, retrying_strategy, socket_options,
  executor_instruments,
}

-- A power of two with its exponent below `w`.
abbrev pub IsPower : ℕ → ℕ → Type 0
IsPower w n = (k : ℕ) × (k < w) × (n ≡ 2 ^ k)

-- What the packing is meant for: the sizes and the timeout are powers of two of their types, and the
-- instruments fit the nine bits that are reserved for them.
pub record IsConfig {Instruments : Type 0} (into_instruments : Instruments → ℕ)
    (c : ConstConfig Instruments) : Type 0 where
  pub sender : IsPower 32 c.sender_channel_size
  pub receiver : IsPower 32 c.receiver_channel_size
  pub sender_max : IsPower 32 c.sender_max_msg_size
  pub receiver_max : IsPower 32 c.receiver_max_msg_size
  pub timeout : IsPower 16 c.flush_timeout_millis
  pub strategy : IsStrategy c.retrying_strategy
  pub options : IsOptions c.socket_options
  pub instruments : into_instruments c.executor_instruments < 2 ^ 9

-- The word of the eight parts.
abbrev word : (a b d e t s o i : ℕ) → ℕ
word a b d e t s o i =
    0
    + a * 2 ^ 0
    + b * 2 ^ 5
    + d * 2 ^ 10
    + e * 2 ^ 15
    + t * 2 ^ 20
    + s * 2 ^ 24
    + o * 2 ^ 35
    + i * 2 ^ 51

parts :
    (a b d e t s o i w : ℕ)
    → a < 32
    → b < 32
    → d < 32
    → e < 32
    → t < 16
    → s < 2 ^ 11
    → o < 2 ^ 16
    → i < 2 ^ 9
    → w ≡ word a b d e t s o i
    → (w < 2 ^ 60)
      × (get_bits w sender_channel_size ≡ done a)
      × (get_bits w receiver_channel_size ≡ done b)
      × (get_bits w sender_max_msg_size ≡ done d)
      × (get_bits w receiver_max_msg_size ≡ done e)
      × (get_bits w flush_timeout_millis ≡ done t)
      × (get_bits w retrying_strategy ≡ done s)
      × (get_bits w socket_options ≡ done o)
      × (get_bits w executor_instruments ≡ done i)
parts a b d e t s o i w ha hb hd he ht hs ho hi p = (
  omega arith,
  get_bits-field w sender_channel_size (omega arith) ∙ ap done (omega arith),
  get_bits-field w receiver_channel_size (omega arith) ∙ ap done (omega arith),
  get_bits-field w sender_max_msg_size (omega arith) ∙ ap done (omega arith),
  get_bits-field w receiver_max_msg_size (omega arith) ∙ ap done (omega arith),
  get_bits-field w flush_timeout_millis (omega arith) ∙ ap done (omega arith),
  get_bits-field w retrying_strategy (omega arith) ∙ ap done (omega arith),
  get_bits-field w socket_options (omega arith) ∙ ap done (omega arith),
  get_bits-field w executor_instruments (omega arith) ∙ ap done (omega arith),
)

read32 :
    (w : ℕ) (bits : BitRange) (k n : ℕ)
    → k < 32
    → get_bits w bits ≡ done k
    → n ≡ 2 ^ k
    → get_power_of_2_u32_bits w bits ≡ done n
unfolding get_power_of_2_u32_bits
read32 w bits k n h e p = rw e (ground arith)

read16 :
    (w : ℕ) (bits : BitRange) (k n : ℕ)
    → k < 16
    → get_bits w bits ≡ done k
    → n ≡ 2 ^ k
    → get_power_of_2_u16_bits w bits ≡ done n
unfolding get_power_of_2_u16_bits
read16 w bits k n h e p = rw e (ground arith)

module _ {Instruments : Type 0} (into_instruments : Instruments → ℕ)
    (from_instruments : ℕ → Instruments) where
  into-word :
      (c : ConstConfig Instruments) (a b d e t o : ℕ)
      → a < 32
      → b < 32
      → d < 32
      → e < 32
      → t < 16
      → c.sender_channel_size ≡ 2 ^ a
      → c.receiver_channel_size ≡ 2 ^ b
      → c.sender_max_msg_size ≡ 2 ^ d
      → c.receiver_max_msg_size ≡ 2 ^ e
      → c.flush_timeout_millis ≡ 2 ^ t
      → Strategies.as_repr c.retrying_strategy < 2 ^ 11
      → Sockets.as_repr c.socket_options ≡ done o
      → o < 2 ^ 16
      → into_instruments c.executor_instruments < 2 ^ 9
      → into into_instruments from_instruments c
        ≡ done (
            word a b d e t
              (Strategies.as_repr c.retrying_strategy)
              o
              (into_instruments c.executor_instruments))
  unfolding into
  into-word c a b d e t o ha hb hd he ht pa pb pd pe pt hs po ho hi =
      let s : ℕ = Strategies.as_repr c.retrying_strategy in
      let w1 : ℕ = 0 + a * 2 ^ 0 in
      let w2 : ℕ = w1 + b * 2 ^ 5 in
      let w3 : ℕ = w2 + d * 2 ^ 10 in
      let w4 : ℕ = w3 + e * 2 ^ 15 in
      let w5 : ℕ = w4 + t * 2 ^ 20 in
      let w6 : ℕ = w5 + s * 2 ^ 24 in
      let w7 : ℕ = w6 + o * 2 ^ 35 in
      >>=-done _
        (set_power_above 0 sender_channel_size a c.sender_channel_size (omega arith) (omega arith)
          (omega arith) ha (omega arith) pa).0
        (>>=-done _
          (set_power_above w1 receiver_channel_size b c.receiver_channel_size (omega arith)
            (omega arith) (omega arith) hb (omega arith) pb).0
          (>>=-done _
            (set_power_above w2 sender_max_msg_size d c.sender_max_msg_size (omega arith)
              (omega arith) (omega arith) hd (omega arith) pd).0
            (>>=-done _
              (set_power_above w3 receiver_max_msg_size e c.receiver_max_msg_size (omega arith)
                (omega arith) (omega arith) he (omega arith) pe).0
              (>>=-done _
                (set_power_above w4 flush_timeout_millis t c.flush_timeout_millis (omega arith)
                  (omega arith) (omega arith) ht (omega arith) pt).1
                (>>=-done _
                  (set_bits_above w5 retrying_strategy s (omega arith) (omega arith) (omega arith)
                    hs)
                  (>>=-done _ po (
                    >>=-done _
                      (set_bits_above w6 socket_options o (omega arith) (omega arith) (omega arith)
                        ho)
                      (set_bits_above w7 executor_instruments
                        (into_instruments c.executor_instruments) (omega arith) (omega arith)
                        (omega arith) hi))))))))

  from_lem :
      (c : ConstConfig Instruments) (a b d e t s o i w : ℕ)
      → a < 32
      → b < 32
      → d < 32
      → e < 32
      → t < 16
      → s < 2 ^ 11
      → o < 2 ^ 16
      → i < 2 ^ 9
      → w ≡ word a b d e t s o i
      → c.sender_channel_size ≡ 2 ^ a
      → c.receiver_channel_size ≡ 2 ^ b
      → c.sender_max_msg_size ≡ 2 ^ d
      → c.receiver_max_msg_size ≡ 2 ^ e
      → c.flush_timeout_millis ≡ 2 ^ t
      → Strategies.from_repr s ≡ done c.retrying_strategy
      → Sockets.from_repr o ≡ done c.socket_options
      → from_instruments i ≡ c.executor_instruments
      → from into_instruments from_instruments w ≡ done c
  unfolding from
  from_lem c a b d e t s o i w ha hb hd he ht hs ho hi p pa pb pd pe pt ps po pi =
      let q = parts a b d e t s o i w ha hb hd he ht hs ho hi p in
      >>=-done _ (read32 w sender_channel_size a c.sender_channel_size ha q.1 pa) (
        >>=-done _ (read32 w receiver_channel_size b c.receiver_channel_size hb q.2 pb) (
          >>=-done _ (read32 w sender_max_msg_size d c.sender_max_msg_size hd q.3 pd) (
            >>=-done _ (read32 w receiver_max_msg_size e c.receiver_max_msg_size he q.4 pe) (
              >>=-done _ (read16 w flush_timeout_millis t c.flush_timeout_millis ht q.5 pt) (
                >>=-done _ q.6 (
                  >>=-done _ q.7 (
                    >>=-done _ q.8 (
                      >>=-done _ (ap Strategies.from_repr (mod-eq_of_lt (omega arith)) ∙ ps) (
                        >>=-done _ (ap Sockets.from_repr (mod-eq_of_lt (omega arith)) ∙ po) (
                          ap (λ (n : Instruments). done (record c { executor_instruments = n }))
                            pi))))))))))

  -- A configuration within the documented ranges packs, without a panic, into a word of 60 bits, from
  -- which it is read back unchanged. `Instruments` gives back what it was converted from.
  pub from-into :
      (c : ConstConfig Instruments)
      → IsConfig into_instruments c
      → from_instruments (into_instruments c.executor_instruments) ≡ c.executor_instruments
      → (w : ℕ) × (into into_instruments from_instruments c ≡ done w)
        × (w < 2 ^ 60)
        × (from into_instruments from_instruments w ≡ done c)
  from-into c h back =
      let (a, ha, pa) = h.sender in
      let (b, hb, pb) = h.receiver in
      let (d, hd, pd) = h.sender_max in
      let (e, he, pe) = h.receiver_max in
      let (t, ht, pt) = h.timeout in
      let (o, po, ho, qo) = RoundTrip.from_repr-as_repr_options c.socket_options h.options in
      let (hs, qs) = Strategies.from_repr-as_repr_strategy c.retrying_strategy h.strategy in
      let s : ℕ = Strategies.as_repr c.retrying_strategy in
      let i : ℕ = into_instruments c.executor_instruments in
      (
        word a b d e t s o i,
        into-word c a b d e t o ha hb hd he ht pa pb pd pe pt hs po ho h.instruments,
        (parts a b d e t s o i (word a b d e t s o i) ha hb hd he ht hs ho h.instruments refl).0,
        from_lem c a b d e t s o i (word a b d e t s o i) ha hb hd he ht hs ho h.instruments refl pa
            pb pd pe pt qs qo back,
      )
