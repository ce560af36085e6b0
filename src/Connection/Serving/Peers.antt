-- ===== src/Connection/Serving/Peers.antt =====
-- What the callbacks of a processor are told of its peers, in any interleaving of its tasks.
use reactive_messaging.Prelude.{
  ℕ, ◌+◌, ◌≤◌, ◌≡◌, ap, arith, List, [], ◌∷◌, ◌++◌, Bool, true, false, Option, none, some, ◌==◌,
  one, count, count-append, count-but,
}
use reactive_messaging.Config.Sockets.{SocketOptions}
use reactive_messaging.Dialog.Context.{SocketConnection}
use reactive_messaging.Connection.PeerState.{Peer, new}
use reactive_messaging.Connection.Handler.{Surroundings}
use reactive_messaging.Connection.Handler.Identity.{SameId, KeepsId, dialog_loop-id}
use reactive_messaging.Connection.Serving.{
  Serving, idle, tell, welcome, receive, stream_ended, give_back, source_closed,
}
use reactive_messaging.Connection.Serving.Interleavings.{
  TaskStep, ends_dialog, ends_stream, ServerReach, starts, receives, finds_closed, then_task,
}
use reactive_messaging.Service.Events.{
  ProtocolEvent, peer_arrived, peer_left, local_service_termination,
}

abbrev pub is_connection : {StateType : Type 0} → ℕ → SocketConnection StateType → Bool
is_connection n c = c.id == n

module _ {Address StateType : Type 0} where
  abbrev pub is_arrival : ℕ → ProtocolEvent (Peer Address StateType) → Bool
  is_arrival n (peer_arrived peer) = peer.peer_id == n
  is_arrival n (peer_left peer) = false
  is_arrival n local_service_termination = false

  abbrev pub is_leaving : ℕ → ProtocolEvent (Peer Address StateType) → Bool
  is_leaving n (peer_arrived peer) = false
  is_leaving n (peer_left peer) = peer.peer_id == n
  is_leaving n local_service_termination = false

  abbrev pub is_termination : ProtocolEvent (Peer Address StateType) → Bool
  is_termination (peer_arrived peer) = false
  is_termination (peer_left peer) = false
  is_termination local_service_termination = true

  abbrev pub is_peer : ℕ → Peer Address StateType → Bool
  is_peer n peer = peer.peer_id == n

  -- Of the peers with an identifier: each arrival is followed by a leaving or still has its stream; who left
  -- is closed; and there are no more connections at work or given back than arrived. A termination is told
  -- once nothing is received any more.
  pub record Told (n : ℕ) (s : Serving Address StateType) : Type 0 where
    pub arrived :
        count (is_arrival n) s.connection_events
        ≡ count (is_leaving n) s.connection_events + count (is_peer n) s.streams
    pub closed : count (is_leaving n) s.connection_events ≤ count (is_peer n) s.closed_peers
    pub held :
        count (is_connection n) s.dialogs + count (is_connection n) s.connection_sink
        ≤ count (is_arrival n) s.connection_events
    pub terminated : one s.receiving + count is_termination s.connection_events ≡ 1

  pub Told-idle : (n : ℕ) → Told n idle
  Told-idle n = record {
    arrived = omega arith;
    closed = omega arith;
    held = omega arith;
    terminated = omega arith;
  }

  pub Told-receive :
      (n : ℕ) (address : Option Address) (c : SocketConnection StateType)
      (s : Serving Address StateType)
      → Told n s
      → Told n (receive address c s)
  unfolding receive welcome tell new
  Told-receive n none c s t = t
  Told-receive n (some address) c s t =
      let peer = new address c in
      let a = count-append (is_arrival n) s.connection_events (peer_arrived peer ∷ []) in
      let l = count-append (is_leaving n) s.connection_events (peer_arrived peer ∷ []) in
      let e = count-append is_termination s.connection_events (peer_arrived peer ∷ []) in
      let p = count-append (is_peer n) s.streams (peer ∷ []) in
      let d = count-append (is_connection n) s.dialogs (c ∷ []) in
      record {
        arrived = omega (arith, t.arrived, a, l, p);
        closed = omega (arith, t.closed, l);
        held = omega (arith, t.held, a, d);
        terminated = omega (arith, t.terminated, e);
      }

  Told-stream_ended :
      (n : ℕ) (before after : List (Peer Address StateType)) (peer : Peer Address StateType)
      (s : Serving Address StateType)
      → s.streams ≡ before ++ peer ∷ after
      → Told n s
      → Told n (stream_ended peer (before ++ after) s)
  unfolding stream_ended tell
  Told-stream_ended n before after peer s e t =
      let a = count-append (is_arrival n) s.connection_events (peer_left peer ∷ []) in
      let l = count-append (is_leaving n) s.connection_events (peer_left peer ∷ []) in
      let m = count-append is_termination s.connection_events (peer_left peer ∷ []) in
      let here = ap (count (is_peer n)) e in
      let p = count-but (is_peer n) before after peer in
      let k = count-append (is_peer n) s.closed_peers (peer ∷ []) in
      record {
        arrived = omega (arith, t.arrived, a, l, p, here);
        closed = omega (arith, t.closed, l, k);
        held = omega (arith, t.held, a);
        terminated = omega (arith, t.terminated, m);
      }

  rehold :
      (n : ℕ) (dialogs sink : List (SocketConnection StateType)) (s : Serving Address StateType)
      → Told n s
      → count (is_connection n) dialogs + count (is_connection n) sink
        ≤ count (is_arrival n) s.connection_events
      → Told n (record s { dialogs = dialogs; connection_sink = sink })
  rehold n dialogs sink s t h = record {
    arrived = t.arrived;
    closed = t.closed;
    held = h;
    terminated = t.terminated;
  }

  Told-give_back :
      (n : ℕ) (before after : List (SocketConnection StateType)) (c : SocketConnection StateType)
      (given : Option (SocketConnection StateType)) (received : Bool)
      (s : Serving Address StateType)
      → s.dialogs ≡ before ++ c ∷ after
      → SameId c given
      → Told n s
      → Told n (give_back given received (record s { dialogs = before ++ after }))
  unfolding give_back
  Told-give_back n before after c none received s e same t =
      rehold n (before ++ after) s.connection_sink s t (
        omega (
          arith,
          t.held,
          ap (count (is_connection n)) e,
          count-but (is_connection n) before after c,
        ))
  Told-give_back n before after c (some given) false s e same t =
      rehold n (before ++ after) s.connection_sink s t (
        omega (
          arith,
          t.held,
          ap (count (is_connection n)) e,
          count-but (is_connection n) before after c,
        ))
  Told-give_back n before after c (some given) true s e same t =
      rehold n (before ++ after) (s.connection_sink ++ given ∷ []) s t (
        omega (
          arith,
          t.held,
          ap (count (is_connection n)) e,
          count-but (is_connection n) before after c,
          count-append (is_connection n) s.connection_sink (given ∷ []),
          ap (λ i. one (i == n)) same,
        ))

  -- What ends a service is told once: when the loop no longer receives, or by the shutdown listener.
  pub Told-terminated :
      (n : ℕ) (s : Serving Address StateType) (closed_peers : List (Peer Address StateType))
      → s.receiving ≡ true
      → count (is_peer n) s.closed_peers ≤ count (is_peer n) closed_peers
      → Told n s
      → Told n (record s {
        receiving = false;
        connection_events = s.connection_events ++ local_service_termination ∷ [];
        closed_peers = closed_peers;
      })
  Told-terminated n s closed_peers e k t =
      let a = count-append (is_arrival n) s.connection_events (local_service_termination ∷ []) in
      let l = count-append (is_leaving n) s.connection_events (local_service_termination ∷ []) in
      let m = count-append is_termination s.connection_events (local_service_termination ∷ []) in
      record {
        arrived = omega (arith, t.arrived, a, l);
        closed = omega (arith, t.closed, l, k);
        held = omega (arith, t.held, a);
        terminated = omega (arith, t.terminated, m, ap one e);
      }

module _ {Address StateType World : Type 0} {surroundings : Surroundings Address StateType World}
    {options : SocketOptions} where
  pub Told-task :
      (n : ℕ) {s t : Serving Address StateType}
      → KeepsId surroundings
      → TaskStep surroundings options s t
      → Told n s
      → Told n t
  Told-task n {s} keeps (ends_dialog before c after peer w received e) t =
      Told-give_back n before after c _ received s e
        (dialog_loop-id surroundings options c peer w keeps) t
  Told-task n {s} keeps (ends_stream before peer after e) t =
      Told-stream_ended n before after peer s e t

  -- Whatever connections a server's processor receives and however its tasks interleave, of the peers of an
  -- identifier, as many left as arrived and no longer have their stream, and each that left is closed; no
  -- more connections are at work and given back than arrived; and the callback is told of the service's
  -- termination once, when nothing is received any more.
  pub ServerReach-Told :
      (n : ℕ) {s : Serving Address StateType}
      → KeepsId surroundings
      → ServerReach surroundings options s
      → Told n s
  unfolding source_closed tell
  ServerReach-Told n keeps starts = Told-idle n
  ServerReach-Told n keeps (receives {s} address c r e) =
      Told-receive n address c s (ServerReach-Told n keeps r)
  ServerReach-Told n keeps (finds_closed {s} r e) =
      Told-terminated n s s.closed_peers e (omega arith) (ServerReach-Told n keeps r)
  ServerReach-Told n keeps (then_task r step) = Told-task n keeps step (ServerReach-Told n keeps r)
