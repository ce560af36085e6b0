-- ===== src/Service/Tests.antt =====
-- Runs of the callbacks on connection events.
use reactive_messaging.Prelude.{
  ℕ, ◌≤◌, ◌≡◌, arith, List, [], ◌∷◌, true, false, done, panic, if◌then◌else◌, all_of, length,
}
use reactive_messaging.Service.Events.{
  ProtocolEvent, peer_arrived, peer_left, local_service_termination, client_callback,
  server_callback, on_events, new,
}
use reactive_messaging.Service.Tracking.{
  client_effects, server_effects, is_connected, on_events-client_callback,
  on_events-server_callback,
}
use reactive_messaging.Service.Outcomes.{finished, failed, waiting}
use reactive_messaging.Service.Client as Client
use reactive_messaging.Service.Client.Termination.{
  spawned, signaled_times, left_or_terminated, all_signals, wait-client_callback,
}
use reactive_messaging.Service.Server as Server
use reactive_messaging.Service.Server.{CompositeSocketServer}
use reactive_messaging.Service.Server.Termination.{
  Processor, spawn_all, signal_of, is_over, wait-server_callback,
}
use reactive_messaging.Service.Once.{
  Operation, spawn_processor, start_multi_protocol, termination_waiter, client_run, server_run,
  services_once,
}

abbrev visits : List (ProtocolEvent ℕ)
visits = peer_arrived 1 ∷ peer_left 1 ∷ local_service_termination ∷ local_service_termination ∷ []

on_events-client_callback_example :
    ((on_events client_callback visits new).effects ≡ client_effects true visits)
    × ((on_events client_callback visits new).connected_state ≡ is_connected false visits)
on_events-client_callback_example = on_events-client_callback visits

on_events-server_callback_example :
    (on_events server_callback visits new).effects ≡ server_effects true visits
on_events-server_callback_example = on_events-server_callback visits

abbrev histories : List (List (ProtocolEvent ℕ))
histories = visits ∷ (peer_arrived 2 ∷ []) ∷ []

wait-client_callback_example :
    Client.wait
      (Client.termination_waiter (spawned (length histories))).0
      (signaled_times (all_signals histories))
    ≡ (if all_of left_or_terminated histories then finished else waiting)
wait-client_callback_example = wait-client_callback histories (omega arith)

abbrev two_processors : List (Processor ℕ)
two_processors =
    record { events = visits; is_gone = false } ∷ record { events = []; is_gone = true } ∷ []

abbrev late_processor : Processor ℕ
late_processor = record { events = []; is_gone = false }

wait-server_callback_example :
    (self : CompositeSocketServer (Processor ℕ)) × (spawn_all two_processors Server.new ≡ done self)
    × (Server.wait signal_of (Server.termination_waiter self).0
        ≡ (if all_of is_over two_processors then finished else waiting))
    × (let self' = (Server.termination_waiter self).1 in
        (Server.wait signal_of (Server.termination_waiter self').0 ≡ failed)
        × (Server.spawn_processor late_processor self' ≡ panic))
wait-server_callback_example = wait-server_callback two_processors late_processor

abbrev operations : List Operation
operations =
    spawn_processor
    ∷ start_multi_protocol true
    ∷ termination_waiter
    ∷ start_multi_protocol true
    ∷ termination_waiter
    ∷ []

services_once_example :
    ((client_run operations Client.new).starts ≤ 1)
    × ((client_run operations Client.new).waiters ≤ 1)
    × ((server_run operations Server.new).starts ≤ 1)
    × ((server_run operations Server.new).waiters ≤ 1)
services_once_example = services_once operations
