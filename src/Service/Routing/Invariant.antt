-- ===== src/Service/Routing/Invariant.antt =====
-- Where each connection of a server is, and what was done about it: the routing tasks' invariant.
use reactive_messaging.Prelude.{
  ℕ, ◌+◌, ◌≤◌, ◌≡◌, ◌∙◌, arith, [], ◌∷◌, ◌++◌, Bool, true, false, Option, none, some, one,
  count-append, ◌==◌,
}
use reactive_messaging.Dialog.Context.{SocketConnection}
use reactive_messaging.Service.Routing.{
  connected, disconnected, Effect, notified, routed, dropped, shut_down, RoutingClosure, Task,
  task_of, act, send_to, disconnect, server_route, client_route, ask_new, ask_returned, server_turn,
  new_connection, returned_connection,
}
use reactive_messaging.Service.Routing.Lifecycle.{
  Life, unseen, concerns, advance_if, lives, lives-snoc,
}
use reactive_messaging.Service.Routing.Places.{times, in_unseen, in_present, announced, taken, left}

module _ {StateType Sender Closure : Type 0} where
  -- The life of a connection so far: while it is present it is at one place at most, among the processors
  -- and the `elsewhere`, and it waits nowhere to be announced once it was.
  pub record Fits (n elsewhere unannounced : ℕ) (t : Task StateType Sender Closure) : Type 0 where
    pub life : Life
    pub lived : lives n t.effects unseen ≡ some life
    pub held : times n t.in_processors + elsewhere ≤ in_present life
    pub announced_once : unannounced ≤ in_unseen life

  one_more :
      (n : ℕ) (effect : Effect StateType Sender) (t : Task StateType Sender Closure)
      {life next : Life}
      → lives n t.effects unseen ≡ some life
      → advance_if (concerns n effect) effect life ≡ some next
      → lives n (t.effects ++ effect ∷ []) unseen ≡ some next
  one_more n effect t lived step = lives-snoc n t.effects effect unseen ∙ (rw lived step)

  Fits-ask_new :
      (n x y : ℕ) (routing : RoutingClosure StateType Sender Closure)
      (c : SocketConnection StateType) (t : Task StateType Sender Closure)
      → Fits n x (one (c.id == n) + y) t
      → Fits n (one (c.id == n) + x) y ((ask_new routing c t).1)
  unfolding ask_new act
  Fits-ask_new n x y routing c t f =
      let (next, step, held, unannounced) =
        announced Sender c (c.id == n) f.life (times n t.in_processors) x y f.held
          f.announced_once in
      record {
        life = next;
        lived = one_more n (notified (connected c)) t f.lived step;
        held = held;
        announced_once = unannounced;
      }

  Fits-send_to :
      (n x y : ℕ) (takes : Bool) (sender : Sender) (c : SocketConnection StateType)
      (t : Task StateType Sender Closure)
      → Fits n (one (c.id == n) + x) y t
      → Fits n x y (task_of (send_to takes sender c t))
  unfolding send_to act
  Fits-send_to n x y true sender c t f =
      let (step, _) =
        taken Sender sender c (c.id == n) f.life (times n t.in_processors) x y f.held
          f.announced_once in
      record {
        life = f.life;
        lived = one_more n (routed sender c) t f.lived step;
        held = omega (arith, count-append (λ c. c.id == n) t.in_processors (c ∷ []), f.held);
        announced_once = f.announced_once;
      }
  Fits-send_to n x y false sender c t f =
      let (_, (next, step, held, unannounced)) =
        taken Sender sender c (c.id == n) f.life (times n t.in_processors) x y f.held
          f.announced_once in
      record {
        life = next;
        lived = one_more n (dropped sender c) t f.lived step;
        held = held;
        announced_once = unannounced;
      }

  Fits-disconnect :
      (n x y : ℕ) (c : SocketConnection StateType) (t : Task StateType Sender Closure)
      → Fits n (one (c.id == n) + x) y t
      → Fits n x y (disconnect c t)
  unfolding disconnect act
  Fits-disconnect n x y c t f =
      let (mid, next, first, second, held, unannounced) =
        left Sender c (c.id == n) f.life (times n t.in_processors) x y f.held f.announced_once in
      record {
        life = next;
        lived =
            one_more n (shut_down c) (act (notified (disconnected c)) t)
              (one_more n (notified (disconnected c)) t f.lived first) second;
        held = held;
        announced_once = unannounced;
      }

  -- Whatever the closure answers, a connection that was just announced or given back is routed on, lost or
  -- left, and is nowhere twice: in the server,
  pub Fits-server_route :
      (n x y : ℕ) (receives : Sender → Bool) (c : SocketConnection StateType)
      (sender : Option Sender) (t : Task StateType Sender Closure)
      → Fits n (one (c.id == n) + x) y t
      → Fits n x y (task_of (server_route receives c sender t))
  unfolding server_route
  Fits-server_route n x y receives c (some sender) t f =
      Fits-send_to n x y (receives sender) sender c t f
  Fits-server_route n x y receives c none t f = Fits-disconnect n x y c t f

  -- and in the client.
  pub Fits-client_route :
      (n x y : ℕ) (receives : Sender → Bool) (c : SocketConnection StateType)
      (sender : Option Sender) (t : Task StateType Sender Closure)
      → Fits n (one (c.id == n) + x) y t
      → Fits n x y (task_of (client_route receives c sender t))
  unfolding client_route
  Fits-client_route n x y receives c (some sender) t f =
      Fits-send_to n x y (receives sender) sender c t f
  Fits-client_route n x y receives c none t f = Fits-disconnect n x y c t f

  pub Fits-ask_returned :
      (n x y : ℕ) (routing : RoutingClosure StateType Sender Closure) (closed : Bool)
      (c : SocketConnection StateType) (t : Task StateType Sender Closure)
      → Fits n x y t
      → Fits n x y ((ask_returned routing closed c t).1)
  unfolding ask_returned
  Fits-ask_returned n x y routing true c t f = f
  Fits-ask_returned n x y routing false c t f = record {
    life = f.life;
    lived = f.lived;
    held = f.held;
    announced_once = f.announced_once;
  }

  pub Fits-server_new :
      (n x y : ℕ) (routing : RoutingClosure StateType Sender Closure) (receives : Sender → Bool)
      (c : SocketConnection StateType) (t : Task StateType Sender Closure)
      → Fits n x (one (c.id == n) + y) t
      → Fits n x y (task_of (server_turn routing receives (new_connection (some c)) t))
  unfolding server_turn
  Fits-server_new n x y routing receives c t f =
      Fits-server_route n x y receives c _ _ (Fits-ask_new n x y routing c t f)

  pub Fits-server_returned :
      (n x y : ℕ) (routing : RoutingClosure StateType Sender Closure) (receives : Sender → Bool)
      (c : SocketConnection StateType) (t : Task StateType Sender Closure)
      → Fits n (one (c.id == n) + x) y t
      → Fits n x y (task_of (server_turn routing receives (returned_connection (some c)) t))
  unfolding server_turn
  Fits-server_returned n x y routing receives c t f =
      Fits-server_route n x y receives c _ _
        (Fits-ask_returned n (one (c.id == n) + x) y routing c.closed c t f)
