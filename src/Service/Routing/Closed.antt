-- ===== src/Service/Routing/Closed.antt =====
-- The connections that a server offers to its processors are open.
use reactive_messaging.Prelude.{
  ℕ, ◌≡◌, refl, subst, List, [], ◌∷◌, ◌++◌, Bool, true, false, Option, none, some, All, All-append,
}
use reactive_messaging.Dialog.Context.{SocketConnection, new}
use reactive_messaging.Service.Routing.{
  connected, disconnected, Effect, notified, routed, dropped, shut_down, RoutingClosure, Task, Loop,
  looping, ended, task_of, act, send_to, disconnect, server_route, ask_new, ask_returned,
  server_turn, new_connection, returned_connection, start,
}
use reactive_messaging.Service.Routing.System.{
  System, Step, accepts, counts_elsewhere, takes_new, takes_returned, finds_closed, gives_back,
  fails, hold, Reach, starts, then_steps,
}

abbrev pub IsOpen : {StateType : Type 0} → SocketConnection StateType → Type 0
IsOpen c = c.closed ≡ false

-- An effect offers a processor but an open connection.
abbrev pub OffersOpen : {StateType Sender : Type 0} → Effect StateType Sender → Type 0
OffersOpen (notified event) = Unit {0}
OffersOpen (routed sender c) = IsOpen c
OffersOpen (dropped sender c) = IsOpen c
OffersOpen (shut_down c) = Unit {0}

module _ {StateType Sender Closure : Type 0} where
  abbrev Offers : Task StateType Sender Closure → Type 0
  Offers t = All OffersOpen t.effects

  Offers-act :
      (effect : Effect StateType Sender) (t : Task StateType Sender Closure)
      → OffersOpen effect
      → Offers t
      → Offers (act effect t)
  unfolding act
  Offers-act effect t h o = All-append OffersOpen t.effects (effect ∷ []) o (h, tt)

  Offers-send_to :
      (taken : Bool) (sender : Sender) (c : SocketConnection StateType)
      (t : Task StateType Sender Closure)
      → IsOpen c
      → Offers t
      → Offers (task_of (send_to taken sender c t))
  unfolding send_to
  Offers-send_to true sender c t h o =
      Offers-act (routed sender c) (record t { in_processors = t.in_processors ++ c ∷ [] }) h o
  Offers-send_to false sender c t h o = Offers-act (dropped sender c) t h o

  Offers-disconnect :
      (c : SocketConnection StateType) (t : Task StateType Sender Closure)
      → Offers t
      → Offers (disconnect c t)
  unfolding disconnect
  Offers-disconnect c t o =
      Offers-act (shut_down c) (act (notified (disconnected c)) t) tt
        (Offers-act (notified (disconnected c)) t tt o)

  Offers-route :
      (receives : Sender → Bool) (c : SocketConnection StateType) (sender : Option Sender)
      (t : Task StateType Sender Closure)
      → IsOpen c
      → Offers t
      → Offers (task_of (server_route receives c sender t))
  unfolding server_route
  Offers-route receives c none t h o = Offers-disconnect c t o
  Offers-route receives c (some sender) t h o = Offers-send_to (receives sender) sender c t h o

  module _ (routing : RoutingClosure StateType Sender Closure) (receives : Sender → Bool) where
    Offers-new :
        (c : SocketConnection StateType) (t : Task StateType Sender Closure)
        → IsOpen c
        → Offers t
        → Offers (task_of (server_turn routing receives (new_connection (some c)) t))
    unfolding server_turn ask_new
    Offers-new c t h o = Offers-route receives c _ _ h (Offers-act (notified (connected c)) t tt o)

    Offers-asked :
        (c : SocketConnection StateType) (t : Task StateType Sender Closure) (closed : Bool)
        → c.closed ≡ closed
        → Offers t
        → let (sender, t') = ask_returned routing closed c t in
          Offers (task_of (server_route receives c sender t'))
    unfolding ask_returned server_route
    Offers-asked c t true h o = Offers-disconnect c t o
    Offers-asked c t false h o = Offers-route receives c _ _ h o

    -- A connection that is given back closed is not offered again.
    Offers-returned :
        (c : SocketConnection StateType) (t : Task StateType Sender Closure)
        → Offers t
        → Offers (task_of (server_turn routing receives (returned_connection (some c)) t))
    unfolding server_turn
    Offers-returned c t o = Offers-asked c t c.closed refl o

  Offers-hold :
      (held : List (SocketConnection StateType)) (l : Loop (Task StateType Sender Closure))
      → Offers (task_of l)
      → Offers (task_of (hold held l))
  Offers-hold held (looping t) o = o
  Offers-hold held (ended t) o = o

  offers :
      {l : Loop (Task StateType Sender Closure)} {t : Task StateType Sender Closure}
      → l ≡ looping t
      → All OffersOpen (task_of l).effects
      → All OffersOpen t.effects
  offers loop o =
      subst (λ (l : Loop (Task StateType Sender Closure)). All OffersOpen (task_of l).effects) loop
        o

  abbrev OpenOnly : System StateType Sender Closure → Type 0
  OpenOnly s = All OffersOpen (task_of s.routing_task).effects × All IsOpen s.new_connections

module _ {StateType Sender Closure : Type 0} {routing : RoutingClosure StateType Sender Closure}
    {initial_state : StateType} where
  -- No step of a server offers a closed connection to a processor, or has one wait to be announced.
  Step-OpenOnly :
      {s t : System StateType Sender Closure}
      → Step routing initial_state s t
      → OpenOnly s
      → OpenOnly t
  unfolding server_turn new
  Step-OpenOnly {s} (accepts connection h) (o, w) =
      (o, All-append IsOpen s.new_connections (_ ∷ []) w (refl, tt))
  Step-OpenOnly {s} (counts_elsewhere counter more h) (o, w) = (o, w)
  Step-OpenOnly {s} (takes_new receives c rest t e loop) (o, w) =
      let all : All IsOpen (c ∷ rest) = subst (All IsOpen) e w in
      (Offers-new routing receives c t all.0 (offers loop o), all.1)
  Step-OpenOnly {s} (takes_returned receives c rest t e loop) (o, w) =
      (Offers-returned routing receives c t (offers loop o), w)
  Step-OpenOnly {s} (finds_closed receives t e loop) (o, w) = (offers loop o, w)
  Step-OpenOnly {s} (gives_back before c returned after e same room) (o, w) =
      (Offers-hold (before ++ after) s.routing_task o, w)
  Step-OpenOnly {s} (fails before c after e) (o, w) =
      (Offers-hold (before ++ after) s.routing_task o, w)

  Reach-OpenOnly :
      {connection_counter : ℕ} {closure : Closure} {s : System StateType Sender Closure}
      → Reach routing initial_state connection_counter closure s
      → OpenOnly s
  unfolding start
  Reach-OpenOnly starts = (tt, tt)
  Reach-OpenOnly (then_steps r step) = Step-OpenOnly step (Reach-OpenOnly r)

  -- Whatever the routing closure, the processors and the interleaving: a connection that the server offers
  -- to a processor is open when it does, also one that came back.
  pub offers_open :
      {connection_counter : ℕ} {closure : Closure} {s : System StateType Sender Closure}
      → Reach routing initial_state connection_counter closure s
      → All OffersOpen (task_of s.routing_task).effects
  offers_open r = (Reach-OpenOnly r).0
