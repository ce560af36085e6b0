-- ===== src/Service/Tracking.antt =====
-- What the callbacks on connection events tell those who wait for the service to end.
use reactive_messaging.Prelude.{
  ℕ, suc, ◌≤◌, ◌≡◌, refl, sym, ◌∙◌, arith, List, [], ◌∷◌, ◌++◌, append_assoc, append-nil, Bool,
  true, false,
}
use reactive_messaging.Service.Events.{
  ProtocolEvent, peer_arrived, peer_left, local_service_termination, Effect, called, signaled, act,
  signal_once, terminate_once, report_service_termination, client_callback, server_callback,
  on_events, new,
}

module _ {Peer : Type 0} where
  -- The client's reference: all events reach the user's callback, and the first that ends the service is
  -- followed by the signal.
  unfoldable pub client_effects : Bool → List (ProtocolEvent Peer) → List (Effect Peer)
  client_effects signaler [] = []
  client_effects signaler (peer_arrived peer ∷ events) =
      called (peer_arrived peer) ∷ client_effects signaler events
  client_effects true (peer_left peer ∷ events) =
      called (peer_left peer) ∷ signaled ∷ client_effects false events
  client_effects false (peer_left peer ∷ events) =
      called (peer_left peer) ∷ client_effects false events
  client_effects true (local_service_termination ∷ events) =
      called local_service_termination ∷ signaled ∷ client_effects false events
  client_effects false (local_service_termination ∷ events) =
      called local_service_termination ∷ client_effects false events

  -- The server's: peers that leave end nothing, and a second termination is not even told the user.
  unfoldable pub server_effects : Bool → List (ProtocolEvent Peer) → List (Effect Peer)
  server_effects signaler [] = []
  server_effects signaler (peer_arrived peer ∷ events) =
      called (peer_arrived peer) ∷ server_effects signaler events
  server_effects signaler (peer_left peer ∷ events) =
      called (peer_left peer) ∷ server_effects signaler events
  server_effects true (local_service_termination ∷ events) =
      called local_service_termination ∷ signaled ∷ server_effects false events
  server_effects false (local_service_termination ∷ events) = server_effects false events

  -- Whether the last that was heard of a peer is that it arrived.
  pub is_connected : Bool → List (ProtocolEvent Peer) → Bool
  is_connected before [] = before
  is_connected before (peer_arrived peer ∷ events) = is_connected true events
  is_connected before (peer_left peer ∷ events) = is_connected false events
  is_connected before (local_service_termination ∷ events) = is_connected before events

  join : (xs ys zs : List (Effect Peer)) → (xs ++ ys) ++ zs ≡ xs ++ (ys ++ zs)
  join xs ys zs = append_assoc xs ys zs

  client_lem :
      (events : List (ProtocolEvent Peer)) (connected signaler : Bool) (before : List (Effect Peer))
      → let t =
          on_events client_callback events
            (record { connected_state = connected; has_signaler = signaler; effects = before }) in
        (t.effects ≡ before ++ client_effects signaler events)
        × (t.connected_state ≡ is_connected connected events)
  unfolding on_events client_callback client_effects is_connected report_service_termination
      signal_once act
  client_lem [] connected signaler before = (sym (append-nil before), refl)
  client_lem (peer_arrived peer ∷ events) connected signaler before =
      let (e, c) = client_lem events true signaler (before ++ called (peer_arrived peer) ∷ []) in
      (e ∙ join before _ _, c)
  client_lem (peer_left peer ∷ events) connected true before =
      let (e, c) =
        client_lem events false false ((before ++ called (peer_left peer) ∷ []) ++ signaled ∷ []) in
      (e ∙ join (before ++ called (peer_left peer) ∷ []) _ _ ∙ join before _ _, c)
  client_lem (peer_left peer ∷ events) connected false before =
      let (e, c) = client_lem events false false (before ++ called (peer_left peer) ∷ []) in
      (e ∙ join before _ _, c)
  client_lem (local_service_termination ∷ events) connected true before =
      let (e, c) =
        client_lem events connected false
          ((before ++ called local_service_termination ∷ []) ++ signaled ∷ []) in
      (e ∙ join (before ++ called local_service_termination ∷ []) _ _ ∙ join before _ _, c)
  client_lem (local_service_termination ∷ events) connected false before =
      let (e, c) =
        client_lem events connected false (before ++ called local_service_termination ∷ []) in
      (e ∙ join before _ _, c)

  server_lem :
      (events : List (ProtocolEvent Peer)) (connected signaler : Bool) (before : List (Effect Peer))
      → (on_events server_callback events (record {
        connected_state = connected;
        has_signaler = signaler;
        effects = before;
      })).effects
        ≡ before ++ server_effects signaler events
  unfolding on_events server_callback server_effects terminate_once act
  server_lem [] connected signaler before = sym (append-nil before)
  server_lem (peer_arrived peer ∷ events) connected signaler before =
      server_lem events connected signaler (before ++ called (peer_arrived peer) ∷ [])
      ∙ join before _ _
  server_lem (peer_left peer ∷ events) connected signaler before =
      server_lem events connected signaler (before ++ called (peer_left peer) ∷ [])
      ∙ join before _ _
  server_lem (local_service_termination ∷ events) connected true before =
      server_lem events connected false
        ((before ++ called local_service_termination ∷ []) ++ signaled ∷ [])
      ∙ join (before ++ called local_service_termination ∷ []) _ _
      ∙ join before _ _
  server_lem (local_service_termination ∷ events) connected false before =
      server_lem events connected false before

  -- From a new tracker, the client's callback hands every event to the user's, in order, sends the signal
  -- right behind the first event that ends the service and at no other time, and knows afterwards whether
  -- the last that was heard of a peer is that it arrived.
  pub on_events-client_callback :
      (events : List (ProtocolEvent Peer))
      → ((on_events client_callback events new).effects ≡ client_effects true events)
        × ((on_events client_callback events new).connected_state ≡ is_connected false events)
  unfolding new
  on_events-client_callback events = client_lem events false true []

  -- From a new tracker, the server's callback hands the events on peers to the user's, in order, with the
  -- first termination, which the signal follows; later terminations do nothing.
  pub on_events-server_callback :
      (events : List (ProtocolEvent Peer))
      → (on_events server_callback events new).effects ≡ server_effects true events
  unfolding new
  on_events-server_callback events = server_lem events false true []

  abbrev pub signals : List (Effect Peer) → ℕ
  signals [] = 0
  signals (called event ∷ effects) = signals effects
  signals (signaled ∷ effects) = suc (signals effects)

  pub no_client_signal :
      (events : List (ProtocolEvent Peer)) → signals (client_effects false events) ≡ 0
  unfolding client_effects
  no_client_signal [] = refl
  no_client_signal (peer_arrived peer ∷ events) = no_client_signal events
  no_client_signal (peer_left peer ∷ events) = no_client_signal events
  no_client_signal (local_service_termination ∷ events) = no_client_signal events

  pub no_server_signal :
      (events : List (ProtocolEvent Peer)) → signals (server_effects false events) ≡ 0
  unfolding server_effects
  no_server_signal [] = refl
  no_server_signal (peer_arrived peer ∷ events) = no_server_signal events
  no_server_signal (peer_left peer ∷ events) = no_server_signal events
  no_server_signal (local_service_termination ∷ events) = no_server_signal events

  client_signals : (events : List (ProtocolEvent Peer)) → signals (client_effects true events) ≤ 1
  unfolding client_effects
  client_signals [] = omega arith
  client_signals (peer_arrived peer ∷ events) = client_signals events
  client_signals (peer_left peer ∷ events) = omega (arith, no_client_signal events)
  client_signals (local_service_termination ∷ events) = omega (arith, no_client_signal events)

  server_signals : (events : List (ProtocolEvent Peer)) → signals (server_effects true events) ≤ 1
  unfolding server_effects
  server_signals [] = omega arith
  server_signals (peer_arrived peer ∷ events) = server_signals events
  server_signals (peer_left peer ∷ events) = server_signals events
  server_signals (local_service_termination ∷ events) = omega (arith, no_server_signal events)

  -- Whatever events come, a new client or server signals its termination once at most.
  signals_once :
      (events : List (ProtocolEvent Peer))
      → (signals (on_events client_callback events new).effects ≤ 1)
        × (signals (on_events server_callback events new).effects ≤ 1)
  signals_once events = (
    rw ((on_events-client_callback events).0) (client_signals events),
    rw (on_events-server_callback events) (server_signals events),
  )
