-- ===== src/Service/Events.antt =====
-- src/socket_services/socket_client/common.rs and src/socket_services/socket_server/common.rs: the
-- callbacks on connection events, upgraded to tell when the service terminated.
use reactive_messaging.Prelude.{List, [], ◌∷◌, ◌++◌, Bool, true, false}

-- `ProtocolEvent`, with the peer that came or left.
pub data ProtocolEvent (Peer : Type 0) : Type 0 where
  peer_arrived : Peer → ProtocolEvent Peer
  peer_left : Peer → ProtocolEvent Peer
  local_service_termination : ProtocolEvent Peer

-- What a callback does: the user's callback runs, or the signal is sent that the service terminated.
pub data Effect (Peer : Type 0) : Type 0 where
  called : ProtocolEvent Peer → Effect Peer
  signaled : Effect Peer

-- `Some` signaler until it is taken. `connected_state` is the client's alone.
pub record Tracker (Peer : Type 0) : Type 0 where
  pub connected_state : Bool
  pub has_signaler : Bool
  pub effects : List (Effect Peer)

module _ {Peer : Type 0} where
  unfoldable pub act : Effect Peer → Tracker Peer → Tracker Peer
  act effect t = record t { effects = t.effects ++ effect ∷ [] }

  -- `report_service_termination()`: the signaler is taken, once.
  unfoldable pub signal_once : Bool → Tracker Peer → Tracker Peer
  unfolding act
  signal_once true t = act signaled (record t { has_signaler = false })
  signal_once false t = t

  unfoldable pub report_service_termination : Tracker Peer → Tracker Peer
  unfolding signal_once
  report_service_termination t = signal_once t.has_signaler t

  -- The callback of `upgrade_to_connection_event_tracking()`.
  unfoldable pub client_callback : ProtocolEvent Peer → Tracker Peer → Tracker Peer
  unfolding report_service_termination act
  client_callback (peer_arrived peer) t =
      act (called (peer_arrived peer)) (record t { connected_state = true })
  client_callback (peer_left peer) t =
      report_service_termination
        (act (called (peer_left peer)) (record t { connected_state = false }))
  client_callback local_service_termination t =
      report_service_termination (act (called local_service_termination) t)

  -- On `LocalServiceTermination`: nothing where the signaler was taken before.
  unfoldable pub terminate_once : Bool → Tracker Peer → Tracker Peer
  unfolding act
  terminate_once true t =
      act signaled (act (called local_service_termination) (record t { has_signaler = false }))
  terminate_once false t = t

  -- The callback of `upgrade_to_termination_tracking()`.
  unfoldable pub server_callback : ProtocolEvent Peer → Tracker Peer → Tracker Peer
  unfolding terminate_once act
  server_callback local_service_termination t = terminate_once t.has_signaler t
  server_callback (peer_arrived peer) t = act (called (peer_arrived peer)) t
  server_callback (peer_left peer) t = act (called (peer_left peer)) t

-- A callback on events that come one after the other.
unfoldable pub on_events :
    {Peer : Type 0}
    → (ProtocolEvent Peer → Tracker Peer → Tracker Peer)
    → List (ProtocolEvent Peer)
    → Tracker Peer
    → Tracker Peer
on_events callback [] t = t
on_events callback (event ∷ events) t = on_events callback events (callback event t)

unfoldable pub new : {Peer : Type 0} → Tracker Peer
new = record { connected_state = false; has_signaler = true; effects = [] }
