-- ===== src/Connection/Serving/OnePeer.antt =====
-- What the callback of a client's processor is told, in any interleaving of its tasks.
use reactive_messaging.Prelude.{
  ℕ, ◌≡◌, refl, ◌∙◌, subst, arith, [], ◌∷◌, ◌++◌, Bool, true, false, Option, none, some, one, count,
  count-append,
}
use reactive_messaging.Config.Sockets.{SocketOptions}
use reactive_messaging.Dialog.Context.{SocketConnection}
use reactive_messaging.Connection.PeerState.{new}
use reactive_messaging.Connection.Handler.{Surroundings}
use reactive_messaging.Connection.Handler.Identity.{KeepsId}
use reactive_messaging.Connection.Serving.{
  Serving, idle, tell, welcome, receive, stream_ended, give_back, client_start, shut_down,
}
use reactive_messaging.Connection.Serving.Interleavings.{
  TaskStep, ends_dialog, ends_stream, ClientReach, starts_with, is_shut_down, then_client_task,
}
use reactive_messaging.Connection.Serving.Peers.{
  is_connection, is_arrival, is_peer, Told, Told-idle, Told-receive, Told-terminated, Told-task,
}
use reactive_messaging.Service.Events.{peer_left, local_service_termination}

module _ {Address StateType : Type 0} where
  -- The invariant of a client's processor, and that its one peer arrived, once.
  abbrev Welcomed : ℕ → SocketConnection StateType → Serving Address StateType → Type 0
  Welcomed n c s = Told n s × (count (is_arrival n) s.connection_events ≡ one (is_connection n c))

  abbrev IfAny : (Serving Address StateType → Type 0) → Option (Serving Address StateType) → Type 0
  IfAny P none = Unit {0}
  IfAny P (some s) = P s

  Welcomed-client_start :
      (n : ℕ) (address : Address) (c : SocketConnection StateType)
      → IfAny (Welcomed n c) (client_start (some address) c)
  unfolding client_start receive welcome tell new
  Welcomed-client_start n address c =
      (Told-receive n (some address) c idle (Told-idle n), omega arith)

  give_back-events :
      (given : Option (SocketConnection StateType)) (received : Bool)
      (s : Serving Address StateType)
      → (give_back given received s).connection_events ≡ s.connection_events
  unfolding give_back
  give_back-events none received s = refl
  give_back-events (some c) false s = refl
  give_back-events (some c) true s = refl

module _ {Address StateType World : Type 0} {surroundings : Surroundings Address StateType World}
    {options : SocketOptions} where
  Welcomed-task :
      (n : ℕ) (c : SocketConnection StateType) {s t : Serving Address StateType}
      → KeepsId surroundings
      → TaskStep surroundings options s t
      → Welcomed n c s
      → Welcomed n c t
  unfolding stream_ended tell
  Welcomed-task n c {s} keeps (ends_dialog before c' after peer w received e) (t, a) = (
    Told-task {surroundings = surroundings} {options = options} n keeps
        (ends_dialog before c' after peer w received e) t,
    rw (give_back-events _ received (record s { dialogs = before ++ after })) a,
  )
  Welcomed-task n c {s} keeps (ends_stream before peer after e) (t, a) = (
    Told-task {surroundings = surroundings} {options = options} n keeps
        (ends_stream before peer after e) t,
    count-append (is_arrival n) s.connection_events (peer_left peer ∷ []) ∙ omega (arith, a),
  )

  -- Once a client's processor runs, however its tasks interleave: its peer arrived once, and no other did;
  -- it left once its stream ended, and is closed then; its connection is at work or given back at most
  -- once; and the callback is told of the service's termination once at most, by the shutdown listener.
  pub ClientReach-Told :
      (n : ℕ) {address : Address} {c : SocketConnection StateType} {s : Serving Address StateType}
      → KeepsId surroundings
      → ClientReach surroundings options address c s
      → Told n s × (count (is_arrival n) s.connection_events ≡ one (is_connection n c))
  unfolding shut_down tell
  ClientReach-Told n {address} {c} keeps (starts_with e) =
      subst (IfAny (Welcomed n c)) e (Welcomed-client_start n address c)
  ClientReach-Told n {address} {c} keeps (is_shut_down {s} r e) =
      let (t, a) = ClientReach-Told n keeps r in
      (
        Told-terminated n s (s.closed_peers ++ new address c ∷ []) e
            (omega (arith, count-append (is_peer n) s.closed_peers (new address c ∷ []))) t,
        count-append (is_arrival n) s.connection_events (local_service_termination ∷ [])
            ∙ omega (arith, a),
      )
  ClientReach-Told n {address} {c} keeps (then_client_task r step) =
      Welcomed-task n c keeps step (ClientReach-Told n keeps r)
