-- ===== src/Service/Server.antt =====
-- src/socket_services/socket_server/socket_server.rs: what a server owns, and its operations.
pub mod Termination
use reactive_messaging.Prelude.{
  List, [], ◌∷◌, ◌++◌, Bool, true, false, Option, none, some, Eval, done, panic, if◌then◌else◌,
}
use reactive_messaging.Service.Outcomes.{
  Refusal, not_opened, started_before, Waiting, finished, failed, waiting,
}

-- `CompositeSocketServer`: a processor's termination is complete once the signal of its receiver comes.
-- `Receiver` is that end of a channel; the other ends matter as far as they are there.
pub record CompositeSocketServer (Receiver : Type 0) : Type 0 where
  pub has_connection_provider : Bool
  pub processor_termination_complete_receivers : Option (List Receiver)
  pub has_returned_connections_source : Bool

module _ {Receiver : Type 0} where
  -- `CompositeSocketServer::new()`
  unfoldable pub new : CompositeSocketServer Receiver
  new = record {
    has_connection_provider = false;
    processor_termination_complete_receivers = some [];
    has_returned_connections_source = true;
  }

  -- The server's part of `spawn_processor()`: `expect("BUG!")` where the receivers were taken.
  unfoldable pub push_receiver :
      Option (List Receiver)
      → Receiver
      → CompositeSocketServer Receiver
      → Eval (CompositeSocketServer Receiver)
  push_receiver none receiver self = panic
  push_receiver (some receivers) receiver self =
      done (record self {
        processor_termination_complete_receivers = some (receivers ++ receiver ∷ []);
      })

  unfoldable pub spawn_processor :
      Receiver → CompositeSocketServer Receiver → Eval (CompositeSocketServer Receiver)
  unfolding push_receiver
  spawn_processor receiver self =
      push_receiver self.processor_termination_complete_receivers receiver self

  -- `start_multi_protocol()`, with whether the listener is bound. The connection provider is in place before
  -- the source of returned connections is taken.
  unfoldable pub start_multi_protocol :
      Bool → CompositeSocketServer Receiver → Option Refusal × CompositeSocketServer Receiver
  start_multi_protocol false self = (some not_opened, self)
  start_multi_protocol true self = (
    (if self.has_returned_connections_source then none else some started_before),
    record self { has_connection_provider = true; has_returned_connections_source = false },
  )

  -- What the closure of `termination_waiter()` captures.
  unfoldable pub termination_waiter :
      CompositeSocketServer Receiver → Option (List Receiver) × CompositeSocketServer Receiver
  termination_waiter self = (
    self.processor_termination_complete_receivers,
    record self { processor_termination_complete_receivers = none },
  )

  -- `terminate()`, which consumes the server: whether the listener is shut down.
  unfoldable pub terminate : CompositeSocketServer Receiver → Bool
  terminate self = self.has_connection_provider

-- What a receiver's `await` comes to, so far: the signal, that its sender is gone, or nothing.
pub data Signal : Type 0 where
  arrived : Signal
  sender_gone : Signal
  pending : Signal

unfoldable pub after_signal : Signal → Waiting → Waiting
after_signal arrived next = next
after_signal sender_gone next = next
after_signal pending next = waiting

module _ {Receiver : Type 0} (signal_of : Receiver → Signal) where
  -- The `for` loop over the receivers: an error is but logged.
  unfoldable pub await_each : List Receiver → Waiting
  unfolding after_signal
  await_each [] = finished
  await_each (receiver ∷ receivers) = after_signal (signal_of receiver) (await_each receivers)

  unfoldable pub wait : Option (List Receiver) → Waiting
  unfolding await_each
  wait none = failed
  wait (some receivers) = await_each receivers
