-- ===== src/Connection/Handler/Identity.antt =====
-- The connection that a dialog gives back is the one that it was given.
use reactive_messaging.Prelude.{◌≡◌, Bool, true, false, Option, none, some, if◌then◌else◌}
use reactive_messaging.Config.Sockets.{SocketOptions}
use reactive_messaging.Dialog.Context.{SocketConnection, set_state}
use reactive_messaging.Connection.PeerState.{Peer, take_state}
use reactive_messaging.Connection.Handler.{
  Surroundings, Handled, Setting, set_nodelay, set_ttl, set_linger, failed, with_state, after_flush,
  after_dialog, apply_then, configure, dialog_loop, map_setting,
}

-- What is given back of a connection, if it is, has its identifier.
abbrev pub SameId :
    {StateType : Type 0} → SocketConnection StateType → Option (SocketConnection StateType) → Type 0
SameId c none = Unit {0}
SameId c (some returned) = returned.id ≡ c.id

-- A dialog does not exchange the connection, which it is lent.
abbrev pub KeepsId :
    {Address StateType World : Type 0} → Surroundings Address StateType World → Type 0
KeepsId {Address} {StateType} {World} surroundings =
    (c : SocketConnection StateType) (peer : Peer Address StateType) (w : World)
    → (surroundings.dialog c peer w).1.id ≡ c.id

module _ {Address StateType World : Type 0}
    (surroundings : Surroundings Address StateType World) where
  stated_id :
      (c given : SocketConnection StateType) (taken : Option StateType × Peer Address StateType)
      (w : World)
      → given.id ≡ c.id
      → SameId c (with_state surroundings taken given w).socket_connection
  unfolding with_state set_state
  stated_id c given (none, peer) w e = e
  stated_id c given (some state, peer) w e = e

  flushed_id :
      (c given : SocketConnection StateType) (peer : Peer Address StateType) (result : Bool × World)
      → given.id ≡ c.id
      → SameId c (after_flush surroundings given peer result).socket_connection
  unfolding after_flush failed
  flushed_id c given peer (false, w) e = tt
  flushed_id c given peer (true, w) e = stated_id c given (take_state peer) w e

  dialog_id :
      (c : SocketConnection StateType)
      (result : Bool × SocketConnection StateType × Peer Address StateType × World)
      → result.1.id ≡ c.id
      → SameId c (after_dialog surroundings result).socket_connection
  unfolding after_dialog failed
  dialog_id c (false, given, peer, w) e = tt
  dialog_id c (true, given, peer, w) e = flushed_id c given peer _ e

  applied_id :
      (c : SocketConnection StateType) (applied : Bool)
      (next : World → Handled Address StateType World) (peer : Peer Address StateType) (w : World)
      → SameId c (next w).socket_connection
      → SameId c (if applied then next w else failed surroundings peer w).socket_connection
  unfolding failed
  applied_id c true next peer w h = h
  applied_id c false next peer w h = tt

  configured_id :
      (c : SocketConnection StateType) (setting : Option Setting)
      (next : World → Handled Address StateType World) (peer : Peer Address StateType) (w : World)
      → ((w' : World) → SameId c (next w').socket_connection)
      → SameId c (configure surroundings setting next peer w).socket_connection
  unfolding configure apply_then failed
  configured_id c none next peer w h = h w
  configured_id c (some setting) next peer w h =
      let (applied, w') = surroundings.apply setting w in applied_id c applied next peer w' (h w')

  -- Whatever the options of the socket and the outcome of the dialog, a connection that is given back
  -- after a dialog is the one that was given, if the dialog kept it.
  pub dialog_loop-id :
      (options : SocketOptions) (c : SocketConnection StateType) (peer : Peer Address StateType)
      (w : World)
      → KeepsId surroundings
      → SameId c (dialog_loop surroundings options c peer w).socket_connection
  unfolding dialog_loop
  dialog_loop-id options c peer w keeps =
      let after : World → Handled Address StateType World =
        λ w'. after_dialog surroundings (surroundings.dialog c peer w') in
      let no_delay = map_setting set_nodelay options.no_delay in
      let hops_to_live = map_setting set_ttl options.hops_to_live in
      let linger = map_setting set_linger options.linger_millis in
      let lingering = configure surroundings linger after peer in
      configured_id c no_delay (configure surroundings hops_to_live lingering peer) peer w (λ w₁.
        configured_id c hops_to_live lingering peer w₁ (λ w₂.
          configured_id c linger after peer w₂
            (λ w₃. dialog_id c (surroundings.dialog c peer w₃) (keeps c peer w₃))))
