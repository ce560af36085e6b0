-- ===== src/Connection/Listener.antt =====
-- src/socket_connection/connection_provider.rs: the loop of a server that accepts connections and feeds
-- them to the connection channel.
use reactive_messaging.Prelude.{
  ℕ, suc, ◌+◌, ◌<◌, ◌%◌, ◌^◌, ◌≡◌, ap, ◌∙◌, sym, arith, List, [], ◌∷◌, ◌++◌, length, append_assoc,
  append-nil, Bool, true, false,
}
use native.Mathlib.Nat.{mod-eq_of_lt}
use reactive_messaging.Dialog.Context.{SocketConnection, new}

-- What `tokio::select!` brings, and whether the channel's receiver takes an accepted connection; and in
-- between, that a client, another server or a test makes a connection, whose identifier is of the same
-- counter of the process.
pub data Incoming : Type 0 where
  accepted : List ℕ → Bool → Incoming
  acceptance_failed : Incoming
  shutdown_signaled : Incoming
  made_elsewhere : Incoming

-- `CONNECTION_COUNTER`, a static of the process, and the connections that were fed.
pub record Listening (StateType : Type 0) : Type 0 where
  pub connection_counter : ℕ
  pub fed : List (SocketConnection StateType)

pub data Listener (StateType : Type 0) : Type 0 where
  continued : Listening StateType → Listener StateType
  broken : Listening StateType → Listener StateType

counted : (n : ℕ) → n + 1 < 2 ^ 32 → (n + 1) % 2 ^ 32 ≡ suc n
counted n k = mod-eq_of_lt k ∙ omega arith

module _ {StateType : Type 0} (connection_initial_state : StateType) where
  -- `sender.send(SocketConnection::new(..))`
  dispatch : Bool → Listening StateType → SocketConnection StateType × ℕ → Listener StateType
  dispatch true l (connection, counter) =
      continued (record { connection_counter = counter; fed = l.fed ++ connection ∷ [] })
  dispatch false l (connection, counter) = broken (record l { connection_counter = counter })

  -- `CONNECTION_COUNTER.fetch_add(1)` of another task.
  abbrev count_elsewhere : Listening StateType → Listening StateType
  count_elsewhere l = record l { connection_counter = (l.connection_counter + 1) % 2 ^ 32 }

  -- A round of the loop.
  pub listen_once : Incoming → Listening StateType → Listener StateType
  unfolding dispatch
  listen_once (accepted connection consumed) l =
      dispatch consumed l (new connection connection_initial_state l.connection_counter)
  listen_once acceptance_failed l = continued l
  listen_once shutdown_signaled l = broken l
  listen_once made_elsewhere l = continued (count_elsewhere l)

  unless_broken :
      (Listening StateType → Listening StateType) → Listener StateType → Listening StateType
  unless_broken again (continued l) = again l
  unless_broken again (broken l) = l

  -- The loop, on what comes.
  pub listen : List Incoming → Listening StateType → Listening StateType
  unfolding listen_once unless_broken
  listen [] l = l
  listen (incoming ∷ more) l = unless_broken (listen more) (listen_once incoming l)

  -- The connections to be fed: those that are taken, until the shutdown or a receiver that is gone. Each has
  -- the number of the connections that the process made before it, which are not all fed here.
  unfoldable pub to_feed : ℕ → List Incoming → List (SocketConnection StateType)
  to_feed id [] = []
  to_feed id (accepted connection true ∷ more) =
      record { connection = connection; closed = false; id = id; state = connection_initial_state }
      ∷ to_feed (suc id) more
  to_feed id (accepted connection false ∷ more) = []
  to_feed id (acceptance_failed ∷ more) = to_feed id more
  to_feed id (shutdown_signaled ∷ more) = []
  to_feed id (made_elsewhere ∷ more) = to_feed (suc id) more

  -- While the counter of the process does not wrap around, the listener feeds every connection it accepts,
  -- in order, each open, in the initial state and with the number of connections that the process made
  -- before as its identifier, however many others are made elsewhere in between, until it is shut down or
  -- the receiver is gone; a failure to accept one does not stop it.
  pub listen-to_feed :
      (incoming : List Incoming) (l : Listening StateType)
      → l.connection_counter + length incoming < 2 ^ 32
      → (listen incoming l).fed ≡ l.fed ++ to_feed l.connection_counter incoming
  unfolding listen listen_once dispatch unless_broken to_feed new
  listen-to_feed [] l h = sym (append-nil l.fed)
  listen-to_feed (made_elsewhere ∷ more) l h =
      let next : (l.connection_counter + 1) % 2 ^ 32 ≡ suc l.connection_counter =
        counted l.connection_counter (omega arith) in
      listen-to_feed more (count_elsewhere l) (omega (arith, next))
      ∙ ap (λ n. l.fed ++ to_feed n more) next
  listen-to_feed (accepted connection true ∷ more) l h =
      let next : (l.connection_counter + 1) % 2 ^ 32 ≡ suc l.connection_counter =
        counted l.connection_counter (omega arith) in
      listen-to_feed more _ (omega (arith, next))
      ∙ append_assoc l.fed _ (to_feed ((l.connection_counter + 1) % 2 ^ 32) more)
      ∙ ap
          (λ n.
            l.fed
            ++ (record {
              connection = connection;
              closed = false;
              id = l.connection_counter;
              state = connection_initial_state;
            }
                ∷ to_feed n more))
          next
  listen-to_feed (accepted connection false ∷ more) l h = sym (append-nil l.fed)
  listen-to_feed (acceptance_failed ∷ more) l h = listen-to_feed more l (omega arith)
  listen-to_feed (shutdown_signaled ∷ more) l h = sym (append-nil l.fed)
