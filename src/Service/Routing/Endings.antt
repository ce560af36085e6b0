-- ===== src/Service/Routing/Endings.antt =====
-- When the routing tasks of a server and of a client end, and when they go on.
use mathlib.Core.Bool.{true≢false}
use reactive_messaging.Prelude.{
  ◌≡◌, refl, ap, ◌∙◌, append_assoc, List, [], ◌∷◌, ◌++◌, Bool, true, false, Option, none, some, All,
}
use reactive_messaging.Dialog.Context.{SocketConnection}
use reactive_messaging.Service.Routing.{
  disconnected, notified, shut_down, act, disconnect, RoutingClosure, Task, Loop, looping, ended,
  send_to, server_route, client_route, ask_returned, Selected, new_connection, returned_connection,
  server_turn, client_turn, while_looping, server_routing, client_routing,
}

abbrev pub has_ended : {T : Type 0} → Loop T → Bool
has_ended (looping t) = false
has_ended (ended t) = true

-- What the server's channels bring as long as they are open.
abbrev pub Arrives : {StateType : Type 0} → Selected StateType → Type 0
Arrives (new_connection none) = ⊥
Arrives (new_connection (some c)) = Unit {0}
Arrives (returned_connection none) = ⊥
Arrives (returned_connection (some c)) = Unit {0}

-- A loop that ended does no more.
pub while-ended :
    {T I : Type 0} (turn : I → T → Loop T) (inputs : List I) (t : T)
    → while_looping turn inputs (ended t) ≡ ended t
unfolding while_looping
while-ended turn [] t = refl
while-ended turn (input ∷ inputs) t = refl

-- What a loop does behind some inputs.
abbrev loop_on : {T I : Type 0} → (I → T → Loop T) → List I → Loop T → Loop T
loop_on turn inputs (looping t) = while_looping turn inputs (looping t)
loop_on turn inputs (ended t) = ended t

while-append :
    {T I : Type 0} (turn : I → T → Loop T) (before after : List I) (l : Loop T)
    → while_looping turn (before ++ after) l ≡ loop_on turn after (while_looping turn before l)
unfolding while_looping
while-append turn [] after (looping t) = refl
while-append turn [] after (ended t) = while-ended turn after t
while-append turn (input ∷ before) after (looping t) = while-append turn before after (turn input t)
while-append turn (input ∷ before) after (ended t) = refl

loop_stays :
    {T I : Type 0} (turn : I → T → Loop T) (P : I → Type 0)
    → ((input : I) (t : T) → P input → has_ended (turn input t) ≡ false)
    → (inputs : List I) (l : Loop T) → has_ended l ≡ false
    → All P inputs
    → has_ended (while_looping turn inputs l) ≡ false
unfolding while_looping
loop_stays turn P stays [] l h a = h
loop_stays turn P stays (input ∷ inputs) (ended t) h a = absurd (true≢false h)
loop_stays turn P stays (input ∷ inputs) (looping t) h (a, more) =
    loop_stays turn P stays inputs (turn input t) (stays input t a) more

module _ {StateType Sender Closure : Type 0} (routing : RoutingClosure StateType Sender Closure)
    (receives : Sender → Bool) where
  -- The session is over: the callback is told that the connection is gone, and its socket is shut down.
  abbrev pub session_over :
      SocketConnection StateType
      → Loop (Task StateType Sender Closure)
      → Loop (Task StateType Sender Closure)
  session_over c (looping t) =
      ended (record t { effects = t.effects ++ notified (disconnected c) ∷ shut_down c ∷ [] })
  session_over c (ended t) = ended t

  client_turn_closed :
      (last : SocketConnection StateType) (t : Task StateType Sender Closure)
      → last.closed ≡ true
      → client_turn routing receives (some last) t ≡ session_over last (looping t)
  unfolding client_turn ask_returned client_route disconnect act
  client_turn_closed last t h =
      ap
        (λ closed.
          let (sender, t') = ask_returned routing closed last t in
          client_route receives last sender t')
        h
      ∙ ap (λ effects. ended (record t { effects = effects }))
          (append_assoc t.effects (notified (disconnected last) ∷ []) (shut_down last ∷ []))

  loop_on_closed :
      (last : SocketConnection StateType) (after : List (Option (SocketConnection StateType)))
      (l : Loop (Task StateType Sender Closure))
      → last.closed ≡ true
      → loop_on (client_turn routing receives) (some last ∷ after) l ≡ session_over last l
  unfolding while_looping
  loop_on_closed last after (looping t) h =
      ap (while_looping (client_turn routing receives) after) (client_turn_closed last t h)
      ∙ while-ended _ after _
  loop_on_closed last after (ended t) h = refl

  -- Whatever the routing closure, the processors and what came before: a connection that comes back closed
  -- ends the client's routing task, if it has not ended yet. The callback is told that the connection is
  -- gone, its socket is shut down, the closure is not asked, and nothing is done any more.
  pub client_routing_ends :
      (c last : SocketConnection StateType)
      (before after : List (Option (SocketConnection StateType)))
      (t : Task StateType Sender Closure)
      → last.closed ≡ true
      → client_routing routing receives c (before ++ some last ∷ after) t
        ≡ session_over last (client_routing routing receives c before t)
  unfolding client_routing
  client_routing_ends c last before after t h =
      while-append (client_turn routing receives) before (some last ∷ after) _
      ∙ loop_on_closed last after _ h

  server_route_stays :
      (c : SocketConnection StateType) (sender : Option Sender) (t : Task StateType Sender Closure)
      → ((s : Sender) → receives s ≡ true)
      → has_ended (server_route receives c sender t) ≡ false
  unfolding server_route send_to
  server_route_stays c none t h = refl
  server_route_stays c (some sender) t h = rw (h sender) refl

  server_turn_stays :
      (input : Selected StateType) (t : Task StateType Sender Closure)
      → ((s : Sender) → receives s ≡ true)
      → Arrives input
      → has_ended (server_turn routing receives input t) ≡ false
  unfolding server_turn
  server_turn_stays (new_connection none) t h a = absurd a
  server_turn_stays (new_connection (some c)) t h a = server_route_stays c _ _ h
  server_turn_stays (returned_connection none) t h a = absurd a
  server_turn_stays (returned_connection (some c)) t h a = server_route_stays c _ _ h

  -- Whatever the routing closure, the server's routing task goes on through all connections that arrive or
  -- come back, closed ones as well, as long as the processors receive.
  pub server_routing_stays :
      (inputs : List (Selected StateType)) (t : Task StateType Sender Closure)
      → ((s : Sender) → receives s ≡ true)
      → All Arrives inputs
      → has_ended (server_routing routing receives inputs t) ≡ false
  unfolding server_routing
  server_routing_stays inputs t h a =
      loop_stays (server_turn routing receives) Arrives
        (λ input t' arrives. server_turn_stays input t' h arrives) inputs (looping t) refl a
