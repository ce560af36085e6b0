-- ===== src/Service/Client/Termination.antt =====
-- How long those wait who wait for a client to end.
use reactive_messaging.Prelude.{
  ℕ, zero, suc, ◌+◌, ◌<◌, ◌≤◌, ◌%◌, ◌^◌, ◌≡◌, refl, sym, ap, ◌∙◌, arith, List, [], ◌∷◌, Bool, true,
  false, ◌&&◌, if◌then◌else◌, length, leb, one, all_of,
}
use native.Mathlib.Nat.{mod-eq_of_lt}
use reactive_messaging.Service.Outcomes.{finished, waiting}
use reactive_messaging.Service.Events as Events
use reactive_messaging.Service.Events.{
  ProtocolEvent, peer_arrived, peer_left, local_service_termination, client_callback, on_events,
}
use reactive_messaging.Service.Tracking.{
  client_effects, signals, on_events-client_callback, no_client_signal,
}
use reactive_messaging.Service.Client.{
  CompositeSocketClient, new, spawn_processor, termination_waiter, while_latched, wait,
}

-- A client with some processors.
abbrev pub spawned : ℕ → CompositeSocketClient
spawned zero = new
spawned (suc n) = spawn_processor (spawned n)

-- What the waiter receives: as many signals.
abbrev pub signaled_times : ℕ → List Bool
signaled_times zero = []
signaled_times (suc n) = true ∷ signaled_times n

le→leb : (n m : ℕ) → n ≤ m → leb n m ≡ true
le→leb n m h = ground arith

gt→leb : (n m : ℕ) → m < n → leb n m ≡ false
gt→leb n m h = ground arith

leb-suc : (n m : ℕ) → leb (suc n) (suc m) ≡ leb n m
leb-suc n m = ground arith

added : (signal m : ℕ) → signal ≡ 1 → signal + m ≡ suc m
added signal m e = omega arith

one_more :
    (b r : Bool) (signal n m : ℕ)
    → signal ≡ one b
    → m ≤ n
    → leb n m ≡ r
    → (signal + m ≤ suc n) × (leb (suc n) (signal + m) ≡ (b && r))
one_more true r signal n m e h l =
    (omega (arith, e), ap (leb (suc n)) (added signal m e) ∙ leb-suc n m ∙ l)
one_more false r signal n m e h l =
    (omega (arith, e), gt→leb (suc n) (signal + m) (omega (arith, e)))

module _ {Peer : Type 0} where
  -- Whether a processor came to its end: its peer left, or the service was terminated.
  abbrev pub left_or_terminated : List (ProtocolEvent Peer) → Bool
  left_or_terminated [] = false
  left_or_terminated (peer_arrived peer ∷ events) = left_or_terminated events
  left_or_terminated (peer_left peer ∷ events) = true
  left_or_terminated (local_service_termination ∷ events) = true

  -- The signals of all processors, each with the events that its callback was told.
  abbrev pub all_signals : List (List (ProtocolEvent Peer)) → ℕ
  all_signals [] = 0
  all_signals (events ∷ more) =
      signals (on_events client_callback events Events.new).effects + all_signals more

  signals-client_effects :
      (events : List (ProtocolEvent Peer))
      → signals (client_effects true events) ≡ one (left_or_terminated events)
  unfolding client_effects
  signals-client_effects [] = refl
  signals-client_effects (peer_arrived peer ∷ events) = signals-client_effects events
  signals-client_effects (peer_left peer ∷ events) = omega (arith, no_client_signal events)
  signals-client_effects (local_service_termination ∷ events) =
      omega (arith, no_client_signal events)

  signals-left_or_terminated :
      (events : List (ProtocolEvent Peer))
      → signals (on_events client_callback events Events.new).effects
        ≡ one (left_or_terminated events)
  signals-left_or_terminated events =
      rw ((on_events-client_callback events).0) (signals-client_effects events)

  -- Each processor signals once at most, so there is a signal of each where all came to their end.
  all_signals-lem :
      (histories : List (List (ProtocolEvent Peer)))
      → (all_signals histories ≤ length histories)
        × (leb (length histories) (all_signals histories) ≡ all_of left_or_terminated histories)
  all_signals-lem [] = (omega arith, refl)
  all_signals-lem (events ∷ more) =
      let (le, e) = all_signals-lem more in
      one_more (left_or_terminated events) _ _ _ _ (signals-left_or_terminated events) le e

next_count : (n : ℕ) → suc n < 2 ^ 32 → (n + 1) % 2 ^ 32 ≡ suc n
next_count n h = mod-eq_of_lt (omega (arith, h)) ∙ omega arith

count : (n : ℕ) → n < 2 ^ 32 → (spawned n).spawned_processors_count ≡ n
unfolding new spawn_processor
count zero h = refl
count (suc n) h = ap (λ k. (k + 1) % 2 ^ 32) (count n (omega arith)) ∙ next_count n h

has_receiver : (n : ℕ) → (spawned n).has_local_termination_receiver ≡ true
unfolding new spawn_processor
has_receiver zero = refl
has_receiver (suc n) = has_receiver n

while_latched-signaled_times :
    (n m : ℕ) → while_latched n (signaled_times m) ≡ (if leb n m then finished else waiting)
unfolding while_latched
while_latched-signaled_times zero m = rw (le→leb 0 m (omega arith)) refl
while_latched-signaled_times (suc n) zero = rw (gt→leb (suc n) 0 (omega arith)) refl
while_latched-signaled_times (suc n) (suc m) = rw (leb-suc n m) (while_latched-signaled_times n m)

-- Who waits for a client of `n` processors to terminate, each of which was told some events, is done as
-- soon as the peer of every processor left or the service was terminated there, and not before: a processor
-- that signals twice cannot stand in for another.
pub wait-client_callback :
    {Peer : Type 0} (histories : List (List (ProtocolEvent Peer)))
    → length histories < 2 ^ 32
    → wait
        (termination_waiter (spawned (length histories))).0
        (signaled_times (all_signals histories))
      ≡ (if all_of left_or_terminated histories then finished else waiting)
unfolding wait termination_waiter
wait-client_callback histories h =
    let n = length histories in
    rw (has_receiver n, count n h, sym ((all_signals-lem histories).1))
      (while_latched-signaled_times n (all_signals histories))
