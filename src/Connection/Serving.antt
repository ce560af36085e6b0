-- ===== src/Connection/Serving.antt =====
-- src/socket_connection/socket_connection_handler.rs: a protocol processor at work: `server_loop()`, for
-- all the connections that it receives, and `client()`, for its one connection.
pub mod Peers
pub mod Interleavings
pub mod OnePeer
mod Tests
use reactive_messaging.Prelude.{List, [], ◌∷◌, ◌++◌, Bool, true, false, Option, none, some}
use reactive_messaging.Dialog.Context.{SocketConnection}
use reactive_messaging.Connection.PeerState.{Peer, new}
use reactive_messaging.Service.Events.{
  ProtocolEvent, peer_arrived, peer_left, local_service_termination,
}

-- The events that the callback was told, the dialogs and the streams that run, the peers that were flushed
-- and closed, the connections that were given back, and whether the loop still receives.
pub record Serving (Address StateType : Type 0) : Type 0 where
  pub connection_events : List (ProtocolEvent (Peer Address StateType))
  pub dialogs : List (SocketConnection StateType)
  pub streams : List (Peer Address StateType)
  pub closed_peers : List (Peer Address StateType)
  pub connection_sink : List (SocketConnection StateType)
  pub receiving : Bool

module _ {Address StateType : Type 0} where
  abbrev pub idle : Serving Address StateType
  idle = record {
    connection_events = [];
    dialogs = [];
    streams = [];
    closed_peers = [];
    connection_sink = [];
    receiving = true;
  }

  unfoldable pub tell :
      ProtocolEvent (Peer Address StateType) → Serving Address StateType → Serving Address StateType
  tell event s = record s { connection_events = s.connection_events ++ event ∷ [] }

  -- The peer's arrival is told, and its stream and its dialog start.
  unfoldable pub welcome :
      Peer Address StateType
      → SocketConnection StateType
      → Serving Address StateType
      → Serving Address StateType
  unfolding tell
  welcome peer c s =
      tell (peer_arrived peer)
        (record s { streams = s.streams ++ peer ∷ []; dialogs = s.dialogs ++ c ∷ [] })

  -- A turn of the server's loop, with what `peer_addr()` gives: without an address the connection is
  -- dropped.
  unfoldable pub receive :
      Option Address
      → SocketConnection StateType
      → Serving Address StateType
      → Serving Address StateType
  unfolding welcome new
  receive none c s = s
  receive (some address) c s = welcome (new address c) c s

  -- The stream of a peer ended: the callback is told, then the peer is flushed and closed.
  unfoldable pub stream_ended :
      Peer Address StateType
      → List (Peer Address StateType)
      → Serving Address StateType
      → Serving Address StateType
  unfolding tell
  stream_ended peer other_streams s =
      let s' = tell (peer_left peer) (record s { streams = other_streams }) in
      record s' { closed_peers = s'.closed_peers ++ peer ∷ [] }

  -- The task of a dialog that is over: the connection it returns is sent back where the sink is received.
  unfoldable pub give_back :
      Option (SocketConnection StateType)
      → Bool
      → Serving Address StateType
      → Serving Address StateType
  give_back none received s = s
  give_back (some c) false s = s
  give_back (some c) true s = record s { connection_sink = s.connection_sink ++ c ∷ [] }

  -- After the server's loop.
  unfoldable pub source_closed : Serving Address StateType → Serving Address StateType
  unfolding tell
  source_closed s = tell local_service_termination (record s { receiving = false })

  -- `client()`, up to its dialog: it fails without an address.
  unfoldable pub client_start :
      Option Address → SocketConnection StateType → Option (Serving Address StateType)
  unfolding welcome new
  client_start none c = none
  client_start (some address) c = some (welcome (new address c) c idle)

  -- The client's shutdown listener, on a signal or an error alike.
  unfoldable pub shut_down :
      Peer Address StateType → Serving Address StateType → Serving Address StateType
  unfolding tell
  shut_down peer s =
      let s' = tell local_service_termination (record s { receiving = false }) in
      record s' { closed_peers = s'.closed_peers ++ peer ∷ [] }
