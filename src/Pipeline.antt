-- ===== src/Pipeline.antt =====
-- How the parts of one side of a connection fit together: a dialog of src/socket_connection/socket_dialog
-- with the senders of src/socket_connection/common.rs, the one towards the local processor and the one of
-- the peer.
pub mod Relaying
pub mod Textual
pub mod Cuts
pub mod Serialized
mod Tests
mod SerializedTests
use reactive_messaging.Prelude.{ℕ, ◌≡◌, List, ◌⊎◌, Option, Eval, done, panic, ◌>>=◌}
use reactive_messaging.Config.Strategies.{RetryingStrategies}
use reactive_messaging.Connection.Sending.{
  Outcome, Retrier, Texts, Uni, Channel, relay, send_async_trait,
}
use reactive_messaging.Dialog.Context.{Services}

-- The channels behind the two senders.
pub record Ends (ProcessorState PeerState : Type 0) : Type 0 where
  pub processor : ProcessorState
  pub peer : PeerState

-- The senders, which retry by one strategy, that of the connection's configuration.
pub record Senders (Remote Local Slot ProcessorState PeerState Text : Type 0) : Type 0 where
  pub strategy : RetryingStrategies
  pub uni : Uni Remote Slot ProcessorState
  pub relaying : Retrier Remote (Unit {0}) ProcessorState
  pub relay_texts : Texts Remote Text
  pub channel : Channel Local PeerState
  pub suspending : Retrier Local (Unit {0}) PeerState
  pub send_texts : Texts Local Text

abbrev pub Returns : {A : Type 0} → Eval A → Type 0
Returns (done a) = Unit {0}
Returns panic = ⊥

abbrev pub value : {A : Type 0} (e : Eval A) → Returns e → A
value (done a) h = a
value panic h = absurd h

pub value-done : {A : Type 0} (e : Eval A) (h : Returns e) {a : A} → e ≡ done a → value e h ≡ a
value-done (done b) h e = cc
value-done panic h e = absurd h

module _ {Remote Local Slot ProcessorState PeerState Text : Type 0}
    (senders : Senders Remote Local Slot ProcessorState PeerState Text) where
  abbrev with_processor :
      Ends ProcessorState PeerState
      → Outcome (Unit {0}) Text × ProcessorState
      → Eval (Outcome (Unit {0}) Text × Ends ProcessorState PeerState)
  with_processor w (outcome, s) = done (outcome, record w { processor = s })

  abbrev with_peer :
      Ends ProcessorState PeerState
      → Outcome (Unit {0}) Text × PeerState
      → Eval (Outcome (Unit {0}) Text × Ends ProcessorState PeerState)
  with_peer w (outcome, s) = done (outcome, record w { peer = s })

  -- `processor_sender.send(remote_message)`
  abbrev pub relayed :
      Remote
      → Ends ProcessorState PeerState
      → Eval (Outcome (Unit {0}) Text × Ends ProcessorState PeerState)
  relayed remote_message w =
      relay senders.uni senders.relaying senders.relay_texts senders.strategy remote_message
        w.processor
      >>= with_processor w

  -- `peer.send_async(message)`
  abbrev pub replied :
      Local
      → Ends ProcessorState PeerState
      → Eval (Outcome (Unit {0}) Text × Ends ProcessorState PeerState)
  replied message w =
      send_async_trait senders.channel senders.suspending senders.send_texts senders.strategy
        message w.peer
      >>= with_peer w

  -- What a dialog loop calls, where the senders return.
  unfoldable pub connected :
      ((m : Remote) (w : Ends ProcessorState PeerState) → Returns (relayed m w))
      → ((m : Local) (w : Ends ProcessorState PeerState) → Returns (replied m w))
      → (List ℕ → Remote ⊎ Text)
      → (Local → List ℕ → List ℕ)
      → (Text → Option Local)
      → (List ℕ → Text → Text)
      → Services Remote Local Text (Ends ProcessorState PeerState)
  connected relays replies deserialize serialize processor_error_message unknown_command = record {
    deserialize = deserialize;
    serialize = serialize;
    processor_error_message = processor_error_message;
    process = λ m w. value (relayed m w) (relays m w);
    reply = λ m w. value (replied m w) (replies m w);
    unknown_command = unknown_command;
  }
