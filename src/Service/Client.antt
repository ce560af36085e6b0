-- ===== src/Service/Client.antt =====
-- src/socket_services/socket_client/socket_client.rs: what a client owns, and its operations.
pub mod Termination
use reactive_messaging.Prelude.{
  ℕ, zero, suc, ◌+◌, ◌%◌, ◌^◌, List, [], ◌∷◌, Bool, true, false, Option, none, some, if◌then◌else◌,
}
use reactive_messaging.Service.Outcomes.{
  Refusal, not_opened, started_before, Waiting, finished, failed, waiting,
}

-- `CompositeSocketClient`, of whose channels only the ends matter that are taken once: an end is there
-- (`Some`) until then.
pub record CompositeSocketClient : Type 0 where
  pub connected : Bool
  pub has_client_termination_signaler : Bool
  pub has_local_termination_receiver : Bool
  pub has_returned_connection_source : Bool
  pub spawned_processors_count : ℕ

-- `CompositeSocketClient::new()`
unfoldable pub new : CompositeSocketClient
new = record {
  connected = false;
  has_client_termination_signaler = true;
  has_local_termination_receiver = true;
  has_returned_connection_source = true;
  spawned_processors_count = 0;
}

unfoldable pub is_connected : CompositeSocketClient → Bool
is_connected self = self.connected

-- The client's part of `spawn_processor()`: a `u32` counts the processors. A channel's receiver can be
-- taken from the channel that was just made, so nothing fails.
unfoldable pub spawn_processor : CompositeSocketClient → CompositeSocketClient
spawn_processor self = record self {
  spawned_processors_count = (self.spawned_processors_count + 1) % 2 ^ 32;
}

-- `start_multi_protocol()`, with whether the connection is made: the routing task starts, or does not.
unfoldable pub start_multi_protocol :
    Bool → CompositeSocketClient → Option Refusal × CompositeSocketClient
start_multi_protocol false self = (some not_opened, self)
start_multi_protocol true self = (
  (if self.has_returned_connection_source then none else some started_before),
  record self { has_returned_connection_source = false },
)

-- What the closure of `termination_waiter()` captures.
pub record Waiter : Type 0 where
  pub has_receiver : Bool
  pub latch : ℕ

unfoldable pub termination_waiter : CompositeSocketClient → Waiter × CompositeSocketClient
termination_waiter self = (
  record {
    has_receiver = self.has_local_termination_receiver;
    latch = self.spawned_processors_count;
  },
  record self { has_local_termination_receiver = false },
)

-- `while latch > 0`, on what `recv()` gives: a signal, or that the channel is closed.
unfoldable pub while_latched : ℕ → List Bool → Waiting
while_latched zero received = finished
while_latched (suc latch) [] = waiting
while_latched (suc latch) (true ∷ received) = while_latched latch received
while_latched (suc latch) (false ∷ received) = failed

unfoldable pub wait : Waiter → List Bool → Waiting
unfolding while_latched
wait waiter received = if waiter.has_receiver then while_latched waiter.latch received else failed

-- `terminate()`, which consumes the client: whether the signal is sent to the processors.
unfoldable pub terminate : CompositeSocketClient → Bool
terminate self = self.has_client_termination_signaler
