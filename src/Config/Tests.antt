-- ===== src/Config/Tests.antt =====
-- Runs of the packed configuration on concrete values.
use reactive_messaging.Prelude.{
  ℕ, ◌^◌, ◌≤◌, ◌<◌, ◌≡◌, ◌⊎◌, inl, refl, arith, true, none, some, done, panic,
}
use reactive_messaging.Config.Word.{BitRange, bits_len, get_bits, set_bits}
use reactive_messaging.Config.Word.Laws.{IsRange, set_bits-get_bits, set_bits_above, set_bits_keeps}
use reactive_messaging.Config.Sockets.{SocketOptions, IsOptions}
use reactive_messaging.Config.Const.{default, into, from}
use reactive_messaging.Config.Const.RoundTrip.{IsConfig, from-into}

abbrev middle : BitRange
middle = record { start = 20; end = 23 }

abbrev upper : BitRange
upper = record { start = 24; end = 34 }

middle-IsRange : IsRange middle
middle-IsRange = record { ordered = omega arith; within = omega arith }

upper-IsRange : IsRange upper
upper-IsRange = record { ordered = omega arith; within = omega arith }

set_bits-get_bits_example :
    ((bits_len middle < 64)
      × (9 < 2 ^ bits_len middle)
      × ((config' : ℕ) × (set_bits 123456789 middle 9 ≡ done config')
          × (config' < 2 ^ 64)
          × (get_bits config' middle ≡ done 9)))
    ⊎ (((64 ≤ bits_len middle) ⊎ (2 ^ bits_len middle ≤ 9)) × (set_bits 123456789 middle 9 ≡ panic))
set_bits-get_bits_example = set_bits-get_bits 123456789 middle 9 middle-IsRange (omega arith)

set_bits_run : set_bits 0 middle 9 ≡ done 9437184
set_bits_run = set_bits_above 0 middle 9 (omega arith) (omega arith) (omega arith) (omega arith)

set_bits_keeps_example : get_bits 9437184 upper ≡ get_bits 0 upper
set_bits_keeps_example =
    set_bits_keeps 0 9437184 middle upper 9 middle-IsRange upper-IsRange (inl (omega arith))
      (omega arith) set_bits_run

abbrev usual : SocketOptions
usual = record { hops_to_live = some 255; linger_millis = some 128; no_delay = some true }

usual-IsOptions : IsOptions usual
usual-IsOptions = record { hops = (omega arith, omega arith); linger = (7, omega arith, refl) }

abbrev no_linger : SocketOptions
no_linger = record { hops_to_live = none; linger_millis = some 0; no_delay = some true }

-- Instruments that are their own number.
abbrev same : ℕ → ℕ
same n = n

default-IsConfig : IsConfig same (default 5)
unfolding default
default-IsConfig = record {
  sender = (10, omega arith, refl);
  receiver = (10, omega arith, refl);
  sender_max = (10, omega arith, refl);
  receiver_max = (10, omega arith, refl);
  timeout = (8, omega arith, refl);
  strategy = omega arith;
  options = usual-IsOptions;
  instruments = omega arith;
}

from-into_example :
    (w : ℕ) × (into same same (default 5) ≡ done w)
    × (w < 2 ^ 60)
    × (from same same w ≡ done (default 5))
from-into_example = from-into same same (default 5) default-IsConfig refl
