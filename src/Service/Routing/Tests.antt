-- ===== src/Service/Routing/Tests.antt =====
-- Runs of the routing tasks.
use reactive_messaging.Prelude.{
  ℕ, ◌+◌, ◌≤◌, ◌≡◌, refl, arith, List, [], ◌∷◌, ◌++◌, true, false, none, some, All,
}
use reactive_messaging.Dialog.Context.{SocketConnection, new}
use reactive_messaging.Service.Routing.{
  connected, disconnected, notified, routed, shut_down, Task, Loop, ended, task_of, RoutingClosure,
  Selected, new_connection, returned_connection, server_turn, server_routing, client_routing, start,
  single_protocol,
}
use reactive_messaging.Service.Routing.Lifecycle.{Life, unseen, lives}
use reactive_messaging.Service.Routing.Places.{times, in_unseen, in_present}
use reactive_messaging.Service.Routing.System.{
  System, accepts, takes_new, Reach, starts, then_steps,
}
use reactive_messaging.Service.Routing.Safety.{one_life}
use reactive_messaging.Service.Routing.Closed.{OffersOpen, offers_open}
use reactive_messaging.Service.Routing.Endings.{
  has_ended, session_over, client_routing_ends, server_routing_stays,
}
use reactive_messaging.Service.Routing.Single.{
  single_effects, server_routing-single_protocol, client_routing-single_protocol,
}

abbrev to_seven : RoutingClosure ℕ ℕ (Unit {0})
to_seven = single_protocol 7

abbrev fresh_connection : SocketConnection ℕ
fresh_connection = record { connection = []; closed = false; id = 0; state = 5 }

abbrev closed_connection : SocketConnection ℕ
closed_connection = record { connection = []; closed = true; id = 0; state = 6 }

abbrev both : List (Selected ℕ)
both = new_connection (some fresh_connection) ∷ returned_connection (some closed_connection) ∷ []

-- A server whose one connection was routed, and came back.
abbrev serving_task : Loop (Task ℕ ℕ (Unit {0}))
serving_task =
    server_turn to_seven (λ processor. true) (new_connection (some fresh_connection)) (start tt)

abbrev serving : System ℕ ℕ (Unit {0})
serving = record {
  connection_counter = 1;
  new_connections = [];
  returned_connections = [];
  routing_task = serving_task;
}

serving_lem : Reach to_seven 5 0 tt serving
unfolding new
serving_lem =
    then_steps (then_steps starts (accepts [] (omega arith)))
      (takes_new (λ processor. true) fresh_connection [] (start tt) refl refl)

one_life_example :
    (life : Life) × (lives 0 (task_of serving.routing_task).effects unseen ≡ some life)
    × (times 0 (task_of serving.routing_task).in_processors + times 0 serving.returned_connections
        ≤ in_present life)
    × (times 0 serving.new_connections ≤ in_unseen life)
one_life_example = one_life 0 serving_lem

offers_open_example : All OffersOpen (task_of serving.routing_task).effects
offers_open_example = offers_open serving_lem

client_routing_ends_example :
    client_routing to_seven
      (λ processor. true)
      fresh_connection
      ([] ++ some closed_connection ∷ none ∷ [])
      (start tt)
    ≡ session_over to_seven
        (λ processor. true)
        closed_connection
        (client_routing to_seven (λ processor. true) fresh_connection [] (start tt))
client_routing_ends_example =
    client_routing_ends to_seven (λ processor. true) fresh_connection closed_connection []
      (none ∷ []) (start tt) refl

server_routing_stays_example :
    has_ended (server_routing to_seven (λ processor. true) both (start tt)) ≡ false
server_routing_stays_example =
    server_routing_stays to_seven (λ processor. true) both (start tt) (λ processor. refl)
      (tt, (tt, tt))

server_routing-single_protocol_example :
    (task_of (server_routing to_seven (λ processor. true) both (start tt))).effects
    ≡ (start {StateType = ℕ} {Sender = ℕ} tt).effects ++ single_effects 7 both
server_routing-single_protocol_example =
    server_routing-single_protocol 7 (λ processor. true) both (start tt) refl

client_routing-single_protocol_example :
    (t : Task ℕ ℕ (Unit {0})) × (client_routing to_seven
        (λ processor. true)
        fresh_connection
        (some closed_connection ∷ none ∷ [])
        (start tt)
      ≡ ended t)
    × (t.effects
        ≡ notified (connected fresh_connection)
          ∷ routed 7 fresh_connection
          ∷ notified (disconnected closed_connection)
          ∷ shut_down closed_connection
          ∷ [])
client_routing-single_protocol_example =
    client_routing-single_protocol 7 (λ processor. true) fresh_connection closed_connection
      (none ∷ []) tt refl

-- Its life goes on after it comes back open, and is over when it comes back closed.
serves_both :
    (task_of (server_routing to_seven (λ processor. true) both (start tt))).effects
    ≡ notified (connected fresh_connection)
      ∷ routed 7 fresh_connection
      ∷ notified (disconnected closed_connection)
      ∷ shut_down closed_connection
      ∷ []
unfolding server_routing start single_protocol
serves_both = refl
