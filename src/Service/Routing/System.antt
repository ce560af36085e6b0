-- ===== src/Service/Routing/System.antt =====
-- A server as a whole: the listener, the routing task and the processors, in any interleaving.
use reactive_messaging.Prelude.{
  ℕ, suc, ◌<◌, ◌^◌, ◌≡◌, List, [], ◌∷◌, ◌++◌, none, some, Bool, length,
}
use reactive_messaging.Dialog.Context.{SocketConnection, new}
use reactive_messaging.Service.Routing.{
  RoutingClosure, Task, Loop, looping, ended, task_of, new_connection, returned_connection,
  server_turn, start,
}

-- `CONNECTION_COUNTER`, what the two channels hold, and the routing task with the processors.
pub record System (StateType Sender Closure : Type 0) : Type 0 where
  pub connection_counter : ℕ
  pub new_connections : List (SocketConnection StateType)
  pub returned_connections : List (SocketConnection StateType)
  pub routing_task : Loop (Task StateType Sender Closure)

module _ {StateType Sender Closure : Type 0} where
  abbrev hold_in :
      List (SocketConnection StateType)
      → Task StateType Sender Closure
      → Task StateType Sender Closure
  hold_in held t = record t { in_processors = held }

  -- The connections that processors hold change, whether the routing task is still there or not.
  abbrev pub hold :
      List (SocketConnection StateType)
      → Loop (Task StateType Sender Closure)
      → Loop (Task StateType Sender Closure)
  hold held (looping t) = looping (hold_in held t)
  hold held (ended t) = ended (hold_in held t)

module _ {StateType Sender Closure : Type 0} (routing : RoutingClosure StateType Sender Closure)
    (initial_state : StateType) where
  pub data Step (s : System StateType Sender Closure)
      : System StateType Sender Closure → Type 0 where
    -- the listener accepts a connection and feeds it
    accepts :
        (connection : List ℕ)
        → suc s.connection_counter < 2 ^ 32
        → Step s (record s {
          connection_counter = (new connection initial_state s.connection_counter).1;
          new_connections =
              s.new_connections ++ (new connection initial_state s.connection_counter).0 ∷ [];
        })
    -- a client or another server of the process makes a connection
    counts_elsewhere :
        (counter : ℕ)
        → s.connection_counter < counter
        → counter < 2 ^ 32
        → Step s (record s { connection_counter = counter })
    -- the routing task takes a connection from either channel, while some processors still receive
    takes_new :
        (receives : Sender → Bool) (c : SocketConnection StateType)
        (rest : List (SocketConnection StateType)) (t : Task StateType Sender Closure)
        → s.new_connections ≡ c ∷ rest
        → s.routing_task ≡ looping t
        → Step s (record s {
          new_connections = rest;
          routing_task = server_turn routing receives (new_connection (some c)) t;
        })
    takes_returned :
        (receives : Sender → Bool) (c : SocketConnection StateType)
        (rest : List (SocketConnection StateType)) (t : Task StateType Sender Closure)
        → s.returned_connections ≡ c ∷ rest
        → s.routing_task ≡ looping t
        → Step s (record s {
          returned_connections = rest;
          routing_task = server_turn routing receives (returned_connection (some c)) t;
        })
    -- the listener was shut down, and the connections that it fed were taken
    finds_closed :
        (receives : Sender → Bool) (t : Task StateType Sender Closure)
        → s.new_connections ≡ []
        → s.routing_task ≡ looping t
        → Step s (record s { routing_task = server_turn routing receives (new_connection none) t })
    -- a processor is done with a connection: it gives it back, in whatever state and perhaps closed, where
    -- the channel, of two places, has room,
    gives_back :
        (before : List (SocketConnection StateType)) (c returned : SocketConnection StateType)
        (after : List (SocketConnection StateType))
        → (task_of s.routing_task).in_processors ≡ before ++ c ∷ after
        → returned.id ≡ c.id
        → length s.returned_connections < 2
        → Step s (record s {
          returned_connections = s.returned_connections ++ returned ∷ [];
          routing_task = hold (before ++ after) s.routing_task;
        })
    -- or its dialog failed, and the connection is dropped
    fails :
        (before : List (SocketConnection StateType)) (c : SocketConnection StateType)
        (after : List (SocketConnection StateType))
        → (task_of s.routing_task).in_processors ≡ before ++ c ∷ after
        → Step s (record s { routing_task = hold (before ++ after) s.routing_task })

abbrev pub init :
    {StateType Sender Closure : Type 0} → ℕ → Closure → System StateType Sender Closure
init connection_counter closure = record {
  connection_counter = connection_counter;
  new_connections = [];
  returned_connections = [];
  routing_task = looping (start closure);
}

-- What a server comes to that starts with a closure, at some count of connections of the process.
pub data Reach {StateType Sender Closure : Type 0}
    (routing : RoutingClosure StateType Sender Closure) (initial_state : StateType)
    (connection_counter : ℕ) (closure : Closure) : System StateType Sender Closure → Type 0 where
  starts : Reach routing initial_state connection_counter closure (init connection_counter closure)
  then_steps :
      {s t : System StateType Sender Closure}
      → Reach routing initial_state connection_counter closure s
      → Step routing initial_state s t
      → Reach routing initial_state connection_counter closure t
