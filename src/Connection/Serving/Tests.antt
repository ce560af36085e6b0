-- ===== src/Connection/Serving/Tests.antt =====
-- Runs of a protocol processor.
use reactive_messaging.Prelude.{ℕ, ◌≡◌, refl, [], ◌++◌, true, false, none, some, one, count}
use reactive_messaging.Config.Sockets.{SocketOptions}
use reactive_messaging.Dialog.Context.{SocketConnection}
use reactive_messaging.Connection.PeerState.{Peer, new}
use reactive_messaging.Connection.Handler.{Surroundings}
use reactive_messaging.Connection.Handler.Identity.{KeepsId}
use reactive_messaging.Connection.Serving.{
  Serving, idle, receive, welcome, stream_ended, source_closed, client_start, shut_down,
}
use reactive_messaging.Connection.Serving.Interleavings.{
  ends_stream, ServerReach, starts, receives, finds_closed, then_task, ClientReach, starts_with,
  is_shut_down,
}
use reactive_messaging.Connection.Serving.Peers.{Told, is_arrival, is_connection, ServerReach-Told}
use reactive_messaging.Connection.Serving.OnePeer.{ClientReach-Told}

abbrev around : Surroundings ℕ ℕ ℕ
around = record {
  apply = λ setting w. (true, w);
  dialog = λ c peer w. (true, record c { closed = true }, peer, w);
  close_processor = λ w. w;
  cancel_and_close = λ w. w;
  flush = λ w. (true, w);
}

around-KeepsId : KeepsId around
around-KeepsId c peer w = refl

abbrev plain : SocketOptions
plain = record { hops_to_live = none; linger_millis = none; no_delay = none }

abbrev connection : SocketConnection ℕ
connection = record { connection = []; closed = false; id = 4; state = 0 }

abbrev peer : Peer ℕ ℕ
peer = record { peer_id = 4; peer_address = 9; state = some 0 }

-- The peer came and left, then the server ended.
abbrev served : Serving ℕ ℕ
served = source_closed (stream_ended peer ([] ++ []) (receive (some 9) connection idle))

served_lem : ServerReach around plain served
unfolding receive welcome stream_ended new
served_lem =
    finds_closed
      (then_task (receives (some 9) connection starts refl) (ends_stream [] peer [] refl)) refl

ServerReach-Told_example : Told 4 served
ServerReach-Told_example = ServerReach-Told 4 around-KeepsId served_lem

abbrev once_served : Serving ℕ ℕ
once_served = shut_down (new 9 connection) (welcome (new 9 connection) connection idle)

once_served_lem : ClientReach around plain 9 connection once_served
unfolding client_start welcome
once_served_lem = is_shut_down (starts_with refl) refl

ClientReach-Told_example :
    Told 4 once_served
    × (count (is_arrival 4) once_served.connection_events ≡ one (is_connection 4 connection))
ClientReach-Told_example = ClientReach-Told 4 around-KeepsId once_served_lem
