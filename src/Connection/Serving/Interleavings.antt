-- ===== src/Connection/Serving/Interleavings.antt =====
-- The interleavings of a processor's tasks: its loop, a dialog and a stream for each peer, and, on a
-- client, the shutdown listener.
use reactive_messaging.Prelude.{◌≡◌, List, ◌∷◌, ◌++◌, Bool, true, Option, some}
use reactive_messaging.Config.Sockets.{SocketOptions}
use reactive_messaging.Dialog.Context.{SocketConnection}
use reactive_messaging.Connection.PeerState.{Peer, new}
use reactive_messaging.Connection.Handler.{Surroundings, dialog_loop}
use reactive_messaging.Connection.Serving.{
  Serving, idle, receive, stream_ended, give_back, source_closed, client_start, shut_down,
}

module _ {Address StateType World : Type 0} (surroundings : Surroundings Address StateType World)
    (options : SocketOptions) where
  -- A dialog is over, or a stream ended.
  pub data TaskStep (s : Serving Address StateType) : Serving Address StateType → Type 0 where
    ends_dialog :
        (before : List (SocketConnection StateType)) (c : SocketConnection StateType)
        (after : List (SocketConnection StateType)) (peer : Peer Address StateType) (w : World)
        (received : Bool)
        → s.dialogs ≡ before ++ c ∷ after
        → TaskStep s (
            give_back
              (dialog_loop surroundings options c peer w).socket_connection
              received
              (record s { dialogs = before ++ after }))
    ends_stream :
        (before : List (Peer Address StateType)) (peer : Peer Address StateType)
        (after : List (Peer Address StateType))
        → s.streams ≡ before ++ peer ∷ after
        → TaskStep s (stream_ended peer (before ++ after) s)

  -- What a server's processor comes to.
  pub data ServerReach : Serving Address StateType → Type 0 where
    starts : ServerReach idle
    receives :
        {s : Serving Address StateType} (address : Option Address) (c : SocketConnection StateType)
        → ServerReach s
        → s.receiving ≡ true
        → ServerReach (receive address c s)
    finds_closed :
        {s : Serving Address StateType}
        → ServerReach s
        → s.receiving ≡ true
        → ServerReach (source_closed s)
    then_task : {s t : Serving Address StateType} → ServerReach s → TaskStep s t → ServerReach t

  -- What a client's does, with the peer that it welcomed.
  pub data ClientReach (address : Address) (c : SocketConnection StateType)
      : Serving Address StateType → Type 0 where
    starts_with :
        {s : Serving Address StateType}
        → client_start (some address) c ≡ some s
        → ClientReach address c s
    is_shut_down :
        {s : Serving Address StateType}
        → ClientReach address c s
        → s.receiving ≡ true
        → ClientReach address c (shut_down (new address c) s)
    then_client_task :
        {s t : Serving Address StateType}
        → ClientReach address c s
        → TaskStep s t
        → ClientReach address c t
