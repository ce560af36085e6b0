-- ===== src/Service/Server/Termination.antt =====
-- How long those wait who wait for a server to end.
use reactive_messaging.Prelude.{
  ℕ, zero, suc, arith, ◌≡◌, refl, sym, ap, ◌∙◌, List, [], ◌∷◌, ◌++◌, append_assoc, append-nil, Bool,
  true, false, ◌&&◌, ◌||◌, some, Eval, done, panic, ◌>>=◌, >>=-done, if◌then◌else◌, all_of, one,
}
use reactive_messaging.Service.Outcomes.{Waiting, finished, failed, waiting}
use reactive_messaging.Service.Events as Events
use reactive_messaging.Service.Events.{
  ProtocolEvent, peer_arrived, peer_left, local_service_termination, server_callback, on_events,
}
use reactive_messaging.Service.Tracking.{
  server_effects, signals, on_events-server_callback, no_server_signal,
}
use reactive_messaging.Service.Server.{
  CompositeSocketServer, new, push_receiver, spawn_processor, termination_waiter, Signal, arrived,
  sender_gone, pending, after_signal, await_each, wait,
}

-- A processor of a server, at some moment: the events that its callback was told, and whether its task is
-- gone, the callback and the signaler with it.
pub record Processor (Peer : Type 0) : Type 0 where
  pub events : List (ProtocolEvent Peer)
  pub is_gone : Bool

-- The processors are spawned one after the other.
abbrev pub spawn_all :
    {Receiver : Type 0}
    → List Receiver
    → CompositeSocketServer Receiver
    → Eval (CompositeSocketServer Receiver)
spawn_all [] self = done self
spawn_all (receiver ∷ more) self = spawn_processor receiver self >>= spawn_all more

-- What the receiver of a processor gets, by the signals its callback sent.
abbrev pub signal_by : ℕ → Bool → Signal
signal_by zero true = sender_gone
signal_by zero false = pending
signal_by (suc n) is_gone = arrived

over_or_pending :
    (has_terminated is_gone all : Bool) (next : Waiting)
    → next ≡ (if all then finished else waiting)
    → after_signal (signal_by (one has_terminated) is_gone) next
      ≡ (if (has_terminated || is_gone) && all then finished else waiting)
unfolding after_signal
over_or_pending true is_gone all next e = e
over_or_pending false true all next e = e
over_or_pending false false all next e = refl

module _ {Peer : Type 0} where
  abbrev pub terminated : List (ProtocolEvent Peer) → Bool
  terminated [] = false
  terminated (peer_arrived peer ∷ events) = terminated events
  terminated (peer_left peer ∷ events) = terminated events
  terminated (local_service_termination ∷ events) = true

  abbrev pub signal_of : Processor Peer → Signal
  signal_of p =
      signal_by (signals (on_events server_callback p.events Events.new).effects) p.is_gone

  abbrev pub is_over : Processor Peer → Bool
  is_over p = terminated p.events || p.is_gone

  signals-server_effects :
      (events : List (ProtocolEvent Peer))
      → signals (server_effects true events) ≡ one (terminated events)
  unfolding server_effects
  signals-server_effects [] = refl
  signals-server_effects (peer_arrived peer ∷ events) = signals-server_effects events
  signals-server_effects (peer_left peer ∷ events) = signals-server_effects events
  signals-server_effects (local_service_termination ∷ events) =
      omega (arith, no_server_signal events)

  signals-terminated :
      (events : List (ProtocolEvent Peer))
      → signals (on_events server_callback events Events.new).effects ≡ one (terminated events)
  signals-terminated events = rw (on_events-server_callback events) (signals-server_effects events)

  await_each-signal_of :
      (processors : List (Processor Peer))
      → await_each signal_of processors ≡ (if all_of is_over processors then finished else waiting)
  unfolding await_each
  await_each-signal_of [] = refl
  await_each-signal_of (p ∷ more) =
      ap (λ n. after_signal (signal_by n p.is_gone) (await_each signal_of more))
        (signals-terminated p.events)
      ∙ over_or_pending (terminated p.events) p.is_gone _ _ (await_each-signal_of more)

  spawn_all-lem :
      (processors before : List (Processor Peer)) (self : CompositeSocketServer (Processor Peer))
      → self.processor_termination_complete_receivers ≡ some before
      → (spawned : CompositeSocketServer (Processor Peer)) × (spawn_all processors self
          ≡ done spawned)
        × (spawned.processor_termination_complete_receivers ≡ some (before ++ processors))
  unfolding spawn_processor push_receiver
  spawn_all-lem [] before self h = (self, refl, h ∙ ap some (sym (append-nil before)))
  spawn_all-lem (p ∷ more) before self h =
      let next = record self {
        processor_termination_complete_receivers = some (before ++ p ∷ []);
      } in
      let (spawned, e, r) = spawn_all-lem more (before ++ p ∷ []) next refl in
      (
        spawned,
        >>=-done (spawn_all more) (rw h refl) e,
        r ∙ ap some (append_assoc before (p ∷ []) more),
      )

  -- The processors of a new server are all spawned, and who waits for it to terminate is done as soon as
  -- each of them was told that the service terminates or is gone, and not before; a second waiter fails at
  -- once, and a processor that is spawned after a waiter was asked for panics.
  pub wait-server_callback :
      (processors : List (Processor Peer)) (late : Processor Peer)
      → (self : CompositeSocketServer (Processor Peer)) × (spawn_all processors new ≡ done self)
        × (wait signal_of (termination_waiter self).0
            ≡ (if all_of is_over processors then finished else waiting))
        × (let self' = (termination_waiter self).1 in
            (wait signal_of (termination_waiter self').0 ≡ failed)
            × (spawn_processor late self' ≡ panic))
  unfolding new wait termination_waiter spawn_processor push_receiver
  wait-server_callback processors late =
      let (self, e, r) = spawn_all-lem processors [] new refl in
      (self, e, rw r (await_each-signal_of processors), (refl, refl))
