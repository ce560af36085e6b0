-- ===== src/Service/Routing.antt =====
-- src/socket_services/socket_server/socket_server.rs and socket_client/socket_client.rs: the tasks that
-- route connections among the protocol processors, and the single protocol of socket_services/types.rs.
pub mod Lifecycle
pub mod Places
pub mod System
pub mod Invariant
pub mod Safety
pub mod Closed
pub mod Endings
pub mod Single
mod Tests
use reactive_messaging.Prelude.{
  ℕ, List, [], ◌∷◌, ◌++◌, Bool, true, false, not, Option, none, some, if◌then◌else◌,
}
use reactive_messaging.Dialog.Context.{SocketConnection, new}

-- `ConnectionEvent`
pub data ConnectionEvent (StateType : Type 0) : Type 0 where
  connected : SocketConnection StateType → ConnectionEvent StateType
  disconnected : SocketConnection StateType → ConnectionEvent StateType
  local_service_termination : ConnectionEvent StateType

-- What a routing task does: it tells the callback, sends a connection to a processor, loses one to a
-- processor that no longer receives, or shuts a socket down.
pub data Effect (StateType Sender : Type 0) : Type 0 where
  notified : ConnectionEvent StateType → Effect StateType Sender
  routed : Sender → SocketConnection StateType → Effect StateType Sender
  dropped : Sender → SocketConnection StateType → Effect StateType Sender
  shut_down : SocketConnection StateType → Effect StateType Sender

-- The state of the routing closure (a `FnMut`), the connections that the processors hold, and what was
-- done so far.
pub record Task (StateType Sender Closure : Type 0) : Type 0 where
  pub closure : Closure
  pub in_processors : List (SocketConnection StateType)
  pub effects : List (Effect StateType Sender)

-- Where the `loop` goes on, and where a `break` left it.
pub data Loop (T : Type 0) : Type 0 where
  looping : T → Loop T
  ended : T → Loop T

abbrev pub task_of : {T : Type 0} → Loop T → T
task_of (looping t) = t
task_of (ended t) = t

-- `connection_routing_closure`, with the state that a call leaves.
abbrev pub RoutingClosure : Type 0 → Type 0 → Type 0 → Type 0
RoutingClosure StateType Sender Closure =
    SocketConnection StateType → Bool → Closure → Option Sender × Closure

module _ {StateType Sender Closure : Type 0} where
  unfoldable pub act :
      Effect StateType Sender → Task StateType Sender Closure → Task StateType Sender Closure
  act effect t = record t { effects = t.effects ++ effect ∷ [] }

  -- `sender.send(connection)`: a processor takes the connection where its receiver is still there.
  unfoldable pub send_to :
      Bool
      → Sender
      → SocketConnection StateType
      → Task StateType Sender Closure
      → Loop (Task StateType Sender Closure)
  unfolding act
  send_to true sender c t =
      looping (act (routed sender c) (record t { in_processors = t.in_processors ++ c ∷ [] }))
  send_to false sender c t = ended (act (dropped sender c) t)

  -- The callback is told and the socket shut down; an error in that is but logged.
  unfoldable pub disconnect :
      SocketConnection StateType → Task StateType Sender Closure → Task StateType Sender Closure
  unfolding act
  disconnect c t = act (shut_down c) (act (notified (disconnected c)) t)

  -- "route the connection to another processor or drop it", in the server: the task stays for the other
  -- connections.
  unfoldable pub server_route :
      (Sender → Bool)
      → SocketConnection StateType
      → Option Sender
      → Task StateType Sender Closure
      → Loop (Task StateType Sender Closure)
  unfolding send_to disconnect
  server_route receives c (some sender) t = send_to (receives sender) sender c t
  server_route receives c none t = looping (disconnect c t)

  -- In the client, which has no other connection: the task ends.
  unfoldable pub client_route :
      (Sender → Bool)
      → SocketConnection StateType
      → Option Sender
      → Task StateType Sender Closure
      → Loop (Task StateType Sender Closure)
  unfolding send_to disconnect
  client_route receives c (some sender) t = send_to (receives sender) sender c t
  client_route receives c none t = ended (disconnect c t)

  -- The closure is asked about a new connection,
  unfoldable pub ask_new :
      RoutingClosure StateType Sender Closure
      → SocketConnection StateType
      → Task StateType Sender Closure
      → Option Sender × Task StateType Sender Closure
  unfolding act
  ask_new routing c t =
      let t' = act (notified (connected c)) t in
      let (sender, closure) = routing c false t'.closure in
      (sender, record t' { closure = closure })

  -- and about one that a processor returned, unless it is closed.
  unfoldable pub ask_returned :
      RoutingClosure StateType Sender Closure
      → Bool
      → SocketConnection StateType
      → Task StateType Sender Closure
      → Option Sender × Task StateType Sender Closure
  ask_returned routing true c t = (none, t)
  ask_returned routing false c t =
      let (sender, closure) = routing c true t.closure in (sender, record t { closure = closure })

-- What the server's `tokio::select!` brings: a connection, or that the channel is closed.
pub data Selected (StateType : Type 0) : Type 0 where
  new_connection : Option (SocketConnection StateType) → Selected StateType
  returned_connection : Option (SocketConnection StateType) → Selected StateType

module _ {StateType Sender Closure : Type 0} (routing : RoutingClosure StateType Sender Closure)
    (receives : Sender → Bool) where
  -- A turn of the server's loop.
  unfoldable pub server_turn :
      Selected StateType → Task StateType Sender Closure → Loop (Task StateType Sender Closure)
  unfolding server_route ask_new ask_returned
  server_turn (new_connection none) t = ended t
  server_turn (new_connection (some c)) t =
      let (sender, t') = ask_new routing c t in server_route receives c sender t'
  server_turn (returned_connection none) t = ended t
  server_turn (returned_connection (some c)) t =
      let (sender, t') = ask_returned routing c.closed c t in server_route receives c sender t'

  -- The client's first turn, with the connection that was just opened,
  unfoldable pub client_first_turn :
      SocketConnection StateType
      → Task StateType Sender Closure
      → Loop (Task StateType Sender Closure)
  unfolding client_route ask_new
  client_first_turn c t =
      let (sender, t') = ask_new routing c t in client_route receives c sender t'

  -- and a later one, with what `returned_connection_source.recv()` gives. It gives nothing only after all
  -- senders are gone: those of the processors, and the one that the client keeps for itself.
  unfoldable pub client_turn :
      Option (SocketConnection StateType)
      → Task StateType Sender Closure
      → Loop (Task StateType Sender Closure)
  unfolding client_route ask_returned
  client_turn none t = ended t
  client_turn (some c) t =
      let (sender, t') = ask_returned routing c.closed c t in client_route receives c sender t'

unfoldable pub while_looping : {T I : Type 0} → (I → T → Loop T) → List I → Loop T → Loop T
while_looping turn [] l = l
while_looping turn (input ∷ inputs) (ended t) = ended t
while_looping turn (input ∷ inputs) (looping t) = while_looping turn inputs (turn input t)

module _ {StateType Sender Closure : Type 0} (routing : RoutingClosure StateType Sender Closure)
    (receives : Sender → Bool) where
  -- The server's routing task, on what its channels bring.
  unfoldable pub server_routing :
      List (Selected StateType)
      → Task StateType Sender Closure
      → Loop (Task StateType Sender Closure)
  unfolding server_turn while_looping
  server_routing selected t = while_looping (server_turn routing receives) selected (looping t)

  -- The client's routing task, on the connection it opened and on what comes back.
  unfoldable pub client_routing :
      SocketConnection StateType
      → List (Option (SocketConnection StateType))
      → Task StateType Sender Closure
      → Loop (Task StateType Sender Closure)
  unfolding client_first_turn client_turn while_looping
  client_routing c returned t =
      while_looping (client_turn routing receives) returned (client_first_turn routing receives c t)

unfoldable pub start : {StateType Sender Closure : Type 0} → Closure → Task StateType Sender Closure
start closure = record { closure = closure; in_processors = []; effects = [] }

-- The closure of `start_single_protocol()`, which has no state of its own.
unfoldable pub single_protocol :
    {StateType Sender : Type 0} → Sender → RoutingClosure StateType Sender (Unit {0})
single_protocol connection_channel c is_reused closure =
    ((if is_reused then none else some connection_channel), closure)
