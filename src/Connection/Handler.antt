-- ===== src/Connection/Handler.antt =====
-- src/socket_connection/socket_connection_handler.rs: what surrounds a dialog, on a server and a client
-- alike: the socket's options before it, and the closing procedures after it.
pub mod Settings
pub mod Identity
mod Tests
use reactive_messaging.Prelude.{
  ℕ, ◌≡◌, refl, ap, ◌∙◌, sym, List, [], ◌∷◌, ◌++◌, append_assoc, append-nil, Bool, true, false,
  Option, none, some, All, if◌then◌else◌,
}
use reactive_messaging.Config.Sockets.{SocketOptions}
use reactive_messaging.Dialog.Context.{SocketConnection, set_state}
use reactive_messaging.Connection.PeerState.{Peer, take_state}

-- A call that sets an option of the socket.
pub data Setting : Type 0 where
  set_nodelay : Bool → Setting
  set_ttl : ℕ → Setting
  set_linger : ℕ → Setting

-- What is outside: the socket, the dialog itself, the processor's channel and the peer's sender.
pub record Surroundings (Address StateType World : Type 0) : Type 0 where
  pub apply : Setting → World → Bool × World
  pub dialog :
      SocketConnection StateType
      → Peer Address StateType
      → World
      → Bool × SocketConnection StateType × Peer Address StateType × World
  pub close_processor : World → World
  pub cancel_and_close : World → World
  pub flush : World → Bool × World

-- The connection, where it is given back; the peer, and the world.
pub record Handled (Address StateType World : Type 0) : Type 0 where
  pub socket_connection : Option (SocketConnection StateType)
  pub peer : Peer Address StateType
  pub world : World

map_setting : {A : Type 0} → (A → Setting) → Option A → Option Setting
map_setting f none = none
map_setting f (some a) = some (f a)

module _ {Address StateType World : Type 0}
    (surroundings : Surroundings Address StateType World) where
  failed : Peer Address StateType → World → Handled Address StateType World
  failed peer w = record { socket_connection = none; peer = peer; world = w }

  with_state :
      Option StateType × Peer Address StateType
      → SocketConnection StateType
      → World
      → Handled Address StateType World
  unfolding set_state
  with_state (none, peer) c w = record { socket_connection = some c; peer = peer; world = w }
  with_state (some state, peer) c w = record {
    socket_connection = some (set_state c state);
    peer = peer;
    world = w;
  }

  after_flush :
      SocketConnection StateType
      → Peer Address StateType
      → Bool × World
      → Handled Address StateType World
  unfolding failed with_state take_state
  after_flush c peer (false, w) = failed peer w
  after_flush c peer (true, w) = with_state (take_state peer) c w

  -- The processor closing procedures.
  after_dialog :
      Bool × SocketConnection StateType × Peer Address StateType × World
      → Handled Address StateType World
  unfolding after_flush failed
  after_dialog (false, c, peer, w) = failed peer w
  after_dialog (true, c, peer, w) =
      after_flush c peer
        (surroundings.flush (surroundings.cancel_and_close (surroundings.close_processor w)))

  apply_then :
      (Setting → Bool × World)
      → Option Setting
      → World
      → (World → Handled Address StateType World)
      → Peer Address StateType
      → Handled Address StateType World
  unfolding failed
  apply_then apply none w next peer = next w
  apply_then apply (some setting) w next peer =
      let (applied, w') = apply setting in if applied then next w' else failed peer w'

  configure :
      Option Setting
      → (World → Handled Address StateType World)
      → Peer Address StateType
      → World
      → Handled Address StateType World
  unfolding apply_then
  configure setting next peer w = apply_then (λ s. surroundings.apply s w) setting w next peer

  -- `SocketConnectionHandler::dialog_loop()`
  pub dialog_loop :
      SocketOptions
      → SocketConnection StateType
      → Peer Address StateType
      → World
      → Handled Address StateType World
  unfolding configure after_dialog map_setting
  dialog_loop options c peer w =
      configure (map_setting set_nodelay options.no_delay)
        (configure (map_setting set_ttl options.hops_to_live)
          (configure (map_setting set_linger options.linger_millis)
            (λ w'. after_dialog (surroundings.dialog c peer w')) peer)
          peer)
        peer w
