-- ===== src/Service/Routing/Single.antt =====
-- `start_single_protocol()` of src/socket_services/types.rs, run by the routing tasks.
use reactive_messaging.Prelude.{
  ◌≡◌, refl, sym, ◌∙◌, ap, List, [], ◌∷◌, ◌++◌, append_assoc, append-nil, Bool, true, false, Option,
  none, some,
}
use reactive_messaging.Service.Routing.Endings.{while-ended}
use reactive_messaging.Dialog.Context.{SocketConnection}
use reactive_messaging.Service.Routing.{
  connected, disconnected, Effect, notified, routed, shut_down, Task, Loop, looping, ended, task_of,
  act, send_to, disconnect, server_route, client_route, ask_new, ask_returned, Selected,
  new_connection, returned_connection, server_turn, client_first_turn, client_turn, while_looping,
  server_routing, client_routing, start, single_protocol,
}

module _ {StateType Sender : Type 0} (connection_channel : Sender) where
  -- The reference: a new connection is announced and goes to the one processor, and a connection that the
  -- processor gives back, closed or not, is announced as left and shut down; until a channel is closed.
  pub single_effects : List (Selected StateType) → List (Effect StateType Sender)
  single_effects [] = []
  single_effects (new_connection none ∷ more) = []
  single_effects (new_connection (some c) ∷ more) =
      notified (connected c) ∷ routed connection_channel c ∷ single_effects more
  single_effects (returned_connection none ∷ more) = []
  single_effects (returned_connection (some c) ∷ more) =
      notified (disconnected c) ∷ shut_down c ∷ single_effects more

  handed_over :
      SocketConnection StateType
      → Task StateType Sender (Unit {0})
      → Task StateType Sender (Unit {0})
  unfolding act
  handed_over c t =
      let t' = act (notified (connected c)) t in
      act (routed connection_channel c) (record t' { in_processors = t'.in_processors ++ c ∷ [] })

  asked_turn :
      (receives : Sender → Bool) (c : SocketConnection StateType) (closed : Bool)
      (t : Task StateType Sender (Unit {0}))
      → let (sender, t') = ask_returned (single_protocol connection_channel) closed c t in
        server_route receives c sender t' ≡ looping (disconnect c t)
  unfolding ask_returned server_route single_protocol disconnect
  asked_turn receives c true t = refl
  asked_turn receives c false t = refl

  returned_turn :
      (receives : Sender → Bool) (c : SocketConnection StateType)
      (t : Task StateType Sender (Unit {0}))
      → server_turn (single_protocol connection_channel) receives (returned_connection (some c)) t
        ≡ looping (disconnect c t)
  unfolding server_turn
  returned_turn receives c t = asked_turn receives c c.closed t

  new_turn :
      (receives : Sender → Bool) (c : SocketConnection StateType)
      (t : Task StateType Sender (Unit {0}))
      → receives connection_channel ≡ true
      → server_turn (single_protocol connection_channel) receives (new_connection (some c)) t
        ≡ looping (handed_over c t)
  unfolding server_turn ask_new server_route single_protocol send_to handed_over
  new_turn receives c t h = rw h refl

  closed_turn :
      (receives : Sender → Bool) (t : Task StateType Sender (Unit {0}))
      → let turn = server_turn (single_protocol connection_channel) receives in
        (turn (new_connection none) t ≡ ended t) × (turn (returned_connection none) t ≡ ended t)
  unfolding server_turn
  closed_turn receives t = (refl, refl)

  left_so :
      (receives : Sender → Bool) (more : List (Selected StateType))
      (t : Task StateType Sender (Unit {0}))
      → (task_of (
          while_looping
            (server_turn (single_protocol connection_channel) receives)
            more
            (ended t))).effects
        ≡ t.effects ++ []
  left_so receives more t =
      ap (λ (l : Loop (Task StateType Sender (Unit {0}))). (task_of l).effects)
        (while-ended (server_turn (single_protocol connection_channel) receives) more t)
      ∙ sym (append-nil t.effects)

  join :
      (before : List (Effect StateType Sender)) (x y : Effect StateType Sender)
      (after : List (Effect StateType Sender))
      → ((before ++ x ∷ []) ++ y ∷ []) ++ after ≡ before ++ x ∷ y ∷ after
  join before x y after =
      append_assoc (before ++ x ∷ []) (y ∷ []) after ∙ append_assoc before (x ∷ []) (y ∷ after)

  -- While its one processor receives, a server of a single protocol does the same for every connection,
  -- whatever its channels bring: it announces a new connection and hands it to the processor; it announces
  -- one that comes back as left, closed or not, and shuts it down, and offers it to no processor again.
  pub server_routing-single_protocol :
      (receives : Sender → Bool) (inputs : List (Selected StateType))
      (t : Task StateType Sender (Unit {0}))
      → receives connection_channel ≡ true
      → (task_of (server_routing (single_protocol connection_channel) receives inputs t)).effects
        ≡ t.effects ++ single_effects inputs
  unfolding server_routing while_looping single_effects handed_over act disconnect
  server_routing-single_protocol receives [] t h = sym (append-nil t.effects)
  server_routing-single_protocol receives (new_connection none ∷ more) t h =
      rw ((closed_turn receives t).0) (left_so receives more t)
  server_routing-single_protocol receives (returned_connection none ∷ more) t h =
      rw ((closed_turn receives t).1) (left_so receives more t)
  server_routing-single_protocol receives (new_connection (some c) ∷ more) t h =
      rw (new_turn receives c t h) (
        server_routing-single_protocol receives more _ h
        ∙ join t.effects (notified (connected c)) (routed connection_channel c)
            (single_effects more))
  server_routing-single_protocol receives (returned_connection (some c) ∷ more) t h =
      rw (returned_turn receives c t) (
        server_routing-single_protocol receives more _ h
        ∙ join t.effects (notified (disconnected c)) (shut_down c) (single_effects more))

  asked_last :
      (receives : Sender → Bool) (c : SocketConnection StateType) (closed : Bool)
      (t : Task StateType Sender (Unit {0}))
      → let (sender, t') = ask_returned (single_protocol connection_channel) closed c t in
        client_route receives c sender t' ≡ ended (disconnect c t)
  unfolding ask_returned client_route single_protocol disconnect
  asked_last receives c true t = refl
  asked_last receives c false t = refl

  first_turn :
      (receives : Sender → Bool) (c : SocketConnection StateType)
      (t : Task StateType Sender (Unit {0}))
      → receives connection_channel ≡ true
      → client_first_turn (single_protocol connection_channel) receives c t
        ≡ looping (handed_over c t)
  unfolding client_first_turn ask_new client_route single_protocol send_to handed_over
  first_turn receives c t h = rw h refl

  last_turn :
      (receives : Sender → Bool) (c : SocketConnection StateType)
      (t : Task StateType Sender (Unit {0}))
      → client_turn (single_protocol connection_channel) receives (some c) t
        ≡ ended (disconnect c t)
  unfolding client_turn
  last_turn receives c t = asked_last receives c c.closed t

  -- While its one processor receives, a client of a single protocol leads its connection one life: it is
  -- announced, handed to the processor, announced as left when it comes back, in whatever state, and shut
  -- down; then the routing task ends, whatever would come next.
  pub client_routing-single_protocol :
      (receives : Sender → Bool) (c returned : SocketConnection StateType)
      (more : List (Option (SocketConnection StateType))) (closure : Unit {0})
      → receives connection_channel ≡ true
      → (t : Task StateType Sender (Unit {0})) × (client_routing
            (single_protocol connection_channel)
            receives
            c
            (some returned ∷ more)
            (start closure)
          ≡ ended t)
        × (t.effects
            ≡ notified (connected c)
              ∷ routed connection_channel c
              ∷ notified (disconnected returned)
              ∷ shut_down returned
              ∷ [])
  unfolding client_routing while_looping start handed_over disconnect act
  client_routing-single_protocol receives c returned more closure h = (
    disconnect returned (handed_over c (start closure)),
    rw (first_turn receives c (start closure) h)
        (rw (last_turn receives returned (handed_over c (start closure))) (while-ended _ more _)),
    refl,
  )
