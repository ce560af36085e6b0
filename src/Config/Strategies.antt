-- ===== src/Config/Strategies.antt =====
-- src/config.rs: `RetryingStrategies` and its 11-bit representation.
use reactive_messaging.Prelude.{
  ℕ, ◌+◌, ◌*◌, ◌/◌, ◌%◌, ◌^◌, ◌≤◌, ◌<◌, ◌≡◌, refl, ap, bit_and, bit_or, arith, Eval, done, panic,
  ◌==◌, ◌↔◌, if◌then◌else◌,
}
use reactive_messaging.Prelude.Digits.{and_ones}
use reactive_messaging.Prelude.Bits.{or_disjoint}

-- The payloads are `u8`.
pub data RetryingStrategies : Type 0 where
  do_not_retry : RetryingStrategies
  end_communications : RetryingStrategies
  retry_with_backoff_up_to : ℕ → RetryingStrategies
  retry_yielding_for_up_to_millis : ℕ → RetryingStrategies
  retry_spinning_for_up_to_millis : ℕ → RetryingStrategies

-- `variant | (n as u16) << 3`
tagged : ℕ → ℕ → ℕ
tagged variant n = bit_or variant (n * 2 ^ 3 % 2 ^ 16)

pub as_repr : RetryingStrategies → ℕ
unfolding tagged
as_repr do_not_retry = 0
as_repr end_communications = 1
as_repr (retry_with_backoff_up_to n) = tagged 2 n
as_repr (retry_yielding_for_up_to_millis n) = tagged 3 n
as_repr (retry_spinning_for_up_to_millis n) = tagged 4 n

-- `unreachable!()` on the variants 5, 6 and 7.
pub from_repr : ℕ → Eval RetryingStrategies
from_repr repr =
    let variant = bit_and repr 0x07 in
    let n = repr / 2 ^ 3 in
    if variant == 0
    then done do_not_retry
    else if variant == 1
    then done end_communications
    else if variant == 2
    then done (retry_with_backoff_up_to (n % 256))
    else if variant == 3
    then done (retry_yielding_for_up_to_millis (n % 256))
    else if variant == 4
    then done (retry_spinning_for_up_to_millis (n % 256))
    else panic

-- The payload is a `u8`.
abbrev pub IsStrategy : RetryingStrategies → Type 0
IsStrategy do_not_retry = Unit {0}
IsStrategy end_communications = Unit {0}
IsStrategy (retry_with_backoff_up_to n) = n < 256
IsStrategy (retry_yielding_for_up_to_millis n) = n < 256
IsStrategy (retry_spinning_for_up_to_millis n) = n < 256

tagged_lem : (v n : ℕ) → v < 8 → n < 256 → tagged v n ≡ v + n * 8
unfolding tagged
tagged_lem v n h k =
    omega (arith, ap (bit_or v) (fits n k), or_disjoint 8 3 v n (omega arith) (omega arith))
  where
    fits : (m : ℕ) → m < 256 → m * 2 ^ 3 % 2 ^ 16 ≡ m * 2 ^ 3
    fits m h = omega arith

low_three : (r : ℕ) → bit_and r 0x07 ≡ r % 8
low_three r = and_ones 3 r

-- The representation takes 11 bits, and gives the strategy back.
pub from_repr-as_repr_strategy :
    (s : RetryingStrategies)
    → IsStrategy s
    → (as_repr s < 2 ^ 11) × (from_repr (as_repr s) ≡ done s)
unfolding as_repr from_repr
from_repr-as_repr_strategy do_not_retry h = (omega arith, refl)
from_repr-as_repr_strategy end_communications h = (omega arith, refl)
from_repr-as_repr_strategy (retry_with_backoff_up_to n) h =
    ground (arith, tagged_lem 2 n, low_three (tagged 2 n))
from_repr-as_repr_strategy (retry_yielding_for_up_to_millis n) h =
    ground (arith, tagged_lem 3 n, low_three (tagged 3 n))
from_repr-as_repr_strategy (retry_spinning_for_up_to_millis n) h =
    ground (arith, tagged_lem 4 n, low_three (tagged 4 n))

-- A representation is refused, by a panic, exactly if its lowest three bits name no variant.
from_repr-panic : (repr : ℕ) → (from_repr repr ≡ panic) ↔ (5 ≤ repr % 8)
unfolding from_repr
from_repr-panic repr = (ground (arith, low_three repr), ground (arith, low_three repr))

from_repr-IsStrategy : (repr : ℕ) (s : RetryingStrategies) → from_repr repr ≡ done s → IsStrategy s
unfolding from_repr
from_repr-IsStrategy repr do_not_retry e = tt
from_repr-IsStrategy repr end_communications e = tt
from_repr-IsStrategy repr (retry_with_backoff_up_to n) e = ground arith
from_repr-IsStrategy repr (retry_yielding_for_up_to_millis n) e = ground arith
from_repr-IsStrategy repr (retry_spinning_for_up_to_millis n) e = ground arith
